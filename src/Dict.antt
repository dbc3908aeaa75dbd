-- ===== src/Dict.antt =====
-- Python's `dict`: entries in the order of insertion, one for each key.
use runner_engine.Prelude.{
  ◌≡◌, refl, Option, none, some, List, [], ◌∷◌, arith, HasEq, ◌==◌, if◌then◌else◌, contains,
}

abbrev pub Dict {ℓ κ} : Type ℓ → Type κ → Type (ℓ ⊔ κ)
Dict K V = List (K × V)

module _ {ℓ κ} {K : Type ℓ} {V : Type κ} ⦃e : HasEq K⦄ where
  -- d.get(k)
  unfoldable pub get : K → Dict K V → Option V
  get k [] = none
  get k ((j, v) ∷ d) = if j == k then some v else get k d

  -- d[k] = v
  unfoldable pub put : K → V → Dict K V → Dict K V
  put k v [] = (k, v) ∷ []
  put k v ((j, w) ∷ d) = if j == k then (j, v) ∷ d else (j, w) ∷ put k v d

  -- d.pop(k, None)
  unfoldable pub pop : K → Dict K V → Dict K V
  pop k [] = []
  pop k ((j, v) ∷ d) = let rest = pop k d in if j == k then rest else (j, v) ∷ rest

  -- {key: value for key, value in d.items() if key in keys}
  unfoldable pub restrict : List K → Dict K V → Dict K V
  restrict ks [] = []
  restrict ks ((j, v) ∷ d) =
      let rest = restrict ks d in if contains j ks then (j, v) ∷ rest else rest

  pub get-put :
      (k j : K) (v : V) (d : Dict K V) → get j (put k v d) ≡ (if k == j then some v else get j d)
  unfolding get put
  get-put k j v [] = refl
  get-put k j v ((i, w) ∷ d) =
      ground (arith, e.is_same_iff k j, e.is_same_iff i k, e.is_same_iff i j, get-put k j v d)

  pub get-pop : (k j : K) (d : Dict K V) → get j (pop k d) ≡ (if k == j then none else get j d)
  unfolding get pop
  get-pop k j [] = ground arith
  get-pop k j ((i, w) ∷ d) =
      ground (arith, e.is_same_iff k j, e.is_same_iff i k, e.is_same_iff i j, get-pop k j d)

  pub get-restrict :
      (ks : List K) (j : K) (d : Dict K V)
      → get j (restrict ks d) ≡ (if contains j ks then get j d else none)
  unfolding get restrict
  get-restrict ks j [] = ground arith
  get-restrict ks j ((i, w) ∷ d) = ground (arith, e.is_same_iff i j, get-restrict ks j d)

pub ruleset dict_laws = (get-put, get-pop, get-restrict)
