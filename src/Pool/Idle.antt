-- ===== src/Pool/Idle.antt =====
-- The idle workers over all buckets: what a change of one bucket does to them.
use runner_engine.Prelude.{
  ◌+◌, ◌≤◌, ◌≡◌, List, [], ◌∷◌, ◌++◌, arith, nat_eq, count, Bool-cases, inl, inr, eq→≡, sym, ◌∙◌,
  ◌<◌, count-append, ◌==◌,
}
use runner_engine.Dict.{Dict, get, put, pop}
use runner_engine.Model.{Ref, Worker}
use runner_engine.Pool.{Key, key_eq, bucket, key_of_worker}

abbrev pub idle_refs : Dict Key (List Ref) → List Ref
idle_refs [] = []
idle_refs ((k, rs) ∷ d) = rs ++ idle_refs d

module _ (k : Key) (r : Ref) where
  pub count-idle_put :
      (b : List Ref) (d : Dict Key (List Ref))
      → count r (idle_refs (put k b d)) + count r (bucket k d) ≡ count r (idle_refs d) + count r b
  unfolding get put
  count-idle_put b [] = ground (arith, count-append r b [])
  count-idle_put b ((j, rs) ∷ d) = ground (
    arith,
    count-idle_put b d,
    count-append r rs (idle_refs d),
    count-append r b (idle_refs d),
    count-append r rs (idle_refs (put k b d)),
  )

  pub count-idle_pop :
      (d : Dict Key (List Ref))
      → count r (idle_refs (pop k d)) + count r (bucket k d) ≤ count r (idle_refs d)
  unfolding get pop
  count-idle_pop [] = ground arith
  count-idle_pop ((j, rs) ∷ d) = ground (
    arith,
    count-idle_pop d,
    count-append r rs (idle_refs d),
    count-append r rs (idle_refs (pop k d)),
  )

  pub count-bucket-le : (d : Dict Key (List Ref)) → count r (bucket k d) ≤ count r (idle_refs d)
  unfolding get
  count-bucket-le [] = ground arith
  count-bucket-le ((j, rs) ∷ d) = ground (arith, count-bucket-le d, count-append r rs (idle_refs d))

-- Every worker of every bucket belongs to the bucket's key.
abbrev pub Keyed : (Ref → Worker) → Dict Key (List Ref) → Type 0
Keyed ws [] = Unit {0}
Keyed ws ((k, rs) ∷ d) = ((r : Ref) → 0 < count r rs → key_of_worker (ws r) ≡ k) × Keyed ws d

pub Keyed-bucket :
    (ws : Ref → Worker) (k : Key) (d : Dict Key (List Ref)) (r : Ref)
    → Keyed ws d
    → 0 < count r (bucket k d)
    → key_of_worker (ws r) ≡ k
unfolding get
Keyed-bucket ws k [] r h c = absurd (omega arith)
Keyed-bucket ws k ((j, rs) ∷ d) r h c =
    ground (arith, key_eq.is_same_iff j k, h.0 r, Keyed-bucket ws k d r h.1)

pub Keyed-put :
    (ws : Ref → Worker) (k : Key) (b : List Ref) (d : Dict Key (List Ref))
    → ((r : Ref) → 0 < count r b → key_of_worker (ws r) ≡ k)
    → Keyed ws d
    → Keyed ws (put k b d)
unfolding put
Keyed-put ws k b [] hb h = (hb, tt)
Keyed-put ws k b ((j, rs) ∷ d) hb h = elim (Bool-cases (j == k)) [
  | inl here ↦ rw here ((λ r c. hb r c ∙ sym (eq→≡ j k here)), h.1)
  | inr there ↦ rw there (h.0, Keyed-put ws k b d hb h.1)
]

pub Keyed-pop :
    (ws : Ref → Worker) (k : Key) (d : Dict Key (List Ref)) → Keyed ws d → Keyed ws (pop k d)
unfolding pop
Keyed-pop ws k [] h = tt
Keyed-pop ws k ((j, rs) ∷ d) h = elim (Bool-cases (j == k)) [
  | inl here ↦ rw here (Keyed-pop ws k d h.1)
  | inr there ↦ rw there (h.0, Keyed-pop ws k d h.1)
]

-- Only the keys of the idle workers matter.
pub Keyed-ext :
    (ws vs : Ref → Worker) (d : Dict Key (List Ref))
    → ((r : Ref) → 0 < count r (idle_refs d) → key_of_worker (vs r) ≡ key_of_worker (ws r))
    → Keyed ws d
    → Keyed vs d
Keyed-ext ws vs [] e h = tt
Keyed-ext ws vs ((j, rs) ∷ d) e h = (
  (λ r c. e r (omega (arith, count-append r rs (idle_refs d))) ∙ h.0 r c),
  Keyed-ext ws vs d (λ r c. e r (omega (arith, count-append r rs (idle_refs d)))) h.1,
)
