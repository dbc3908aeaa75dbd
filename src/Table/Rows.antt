-- ===== src/Table/Rows.antt =====
-- What holds of every row of a table, and rows that a write leaves out.
use runner_engine.Prelude.{
  ◌≤◌, ◌≡◌, refl, subst, ap, Bool, true, false, ◌&&◌, none, some, List, [], ◌∷◌, ◌++◌, All, arith,
  Bool-cases, inl, inr,
}
use runner_engine.Table.{find_where, update_where, delete_where, exists_where, count_where}

module _ {ℓ} {Row : Type ℓ} where
  module _ {κ} (P : Row → Type κ) where
    pub All-update_where :
        (p : Row → Bool) (f : Row → Row) (rs : List Row)
        → ((r : Row) → p r ≡ true → P r → P (f r))
        → All P rs
        → All P (update_where p f rs)
    unfolding update_where
    All-update_where p f [] h a = a
    All-update_where p f (r ∷ rs) h (x, a) = elim (Bool-cases (p r)) [
      | inl met ↦ rw met (h r met x, All-update_where p f rs h a)
      | inr unmet ↦ rw unmet (x, All-update_where p f rs h a)
    ]

    pub All-delete_where : (p : Row → Bool) (rs : List Row) → All P rs → All P (delete_where p rs)
    unfolding delete_where
    All-delete_where p [] a = a
    All-delete_where p (r ∷ rs) (x, a) = elim (Bool-cases (p r)) [
      | inl met ↦ rw met (All-delete_where p rs a)
      | inr unmet ↦ rw unmet (x, All-delete_where p rs a)
    ]

    pub All-append_row : (rs : List Row) (r : Row) → All P rs → P r → All P (rs ++ r ∷ [])
    All-append_row [] r a x = (x, a)
    All-append_row (q ∷ rs) r (y, a) x = (y, All-append_row rs r a x)

    pub All-found :
        (q : Row → Bool) (rs : List Row) (r : Row) → All P rs → find_where q rs ≡ some r → P r
    unfolding find_where
    All-found q [] r a e = cc e
    All-found q (s ∷ rs) r (x, a) e = elim (Bool-cases (q s)) [
      | inl met ↦ (let same : s ≡ r = cc (rw met at e) in subst P same x)
      | inr unmet ↦ All-found q rs r a (rw unmet at e)
    ]

  pub All-both {κ μ} :
      (P : Row → Type κ) (Q : Row → Type μ) (rs : List Row)
      → All P rs
      → All Q rs
      → All (λ r. P r × Q r) rs
  All-both P Q [] a b = tt
  All-both P Q (r ∷ rs) (x, a) (y, b) = ((x, y), All-both P Q rs a b)

  pub All-absent :
      (q : Row → Bool) (rs : List Row) → exists_where q rs ≡ false → All (λ r. q r ≡ false) rs
  unfolding exists_where
  All-absent q [] e = tt
  All-absent q (r ∷ rs) e = elim (Bool-cases (q r)) [
    | inl met ↦ cc (rw met at e)
    | inr unmet ↦ (unmet, All-absent q rs (rw unmet at e))
  ]

  -- A row that is found and not deleted is found again.
  pub find-delete_other :
      (q p : Row → Bool) (rs : List Row) (r : Row)
      → find_where q rs ≡ some r
      → p r ≡ false
      → find_where q (delete_where p rs) ≡ some r
  unfolding find_where delete_where
  find-delete_other q p [] r e h = e
  find-delete_other q p (s ∷ rs) r e h = ground (arith, find-delete_other q p rs r)

  pub find-exists_true :
      (q : Row → Bool) (rs : List Row) (r : Row)
      → find_where q rs ≡ some r
      → exists_where q rs ≡ true
  unfolding find_where exists_where
  find-exists_true q [] r e = cc e
  find-exists_true q (s ∷ rs) r e = ground (arith, find-exists_true q rs r)

  -- An UPDATE that no column of `q` is part of.
  pub exists-update :
      (q p : Row → Bool) (f : Row → Row) (rs : List Row)
      → ((r : Row) → q (f r) ≡ q r)
      → exists_where q (update_where p f rs) ≡ exists_where q rs
  unfolding exists_where update_where
  exists-update q p f [] h = refl
  exists-update q p f (r ∷ rs) h = ground (arith, h r, exists-update q p f rs h)

  count-row :
      (q : Row → Bool) (rs : List Row) (row : Row)
      → find_where q rs ≡ some row
      → 1 ≤ count_where q rs
  unfolding find_where count_where
  count-row q [] row e = cc e
  count-row q (r ∷ rs) row e = ground (arith, e, count-row q rs row)

  pub find-exists_both :
      (q p : Row → Bool) (rs : List Row) (r : Row)
      → find_where q rs ≡ some r
      → p r ≡ true
      → exists_where (λ x. q x && p x) rs ≡ true
  unfolding find_where exists_where
  find-exists_both q p [] r e h = cc e
  find-exists_both q p (s ∷ rs) r e h =
      ground (arith, e, h, find-exists_both q p rs r, ap p {x = s} {y = r})

  -- The other way round, where `q` names one row at most.
  pub exists-found :
      (q p : Row → Bool) (rs : List Row)
      → count_where q rs ≤ 1
      → exists_where (λ x. q x && p x) rs ≡ true
      → (r : Row) × (find_where q rs ≡ some r) × (p r ≡ true)
  unfolding find_where exists_where count_where
  exists-found q p [] u e = cc e
  exists-found q p (s ∷ rs) u e = elim (Bool-cases (q s)) [
    | inr unmet ↦ rw unmet (exists-found q p rs (rw unmet at u) (rw unmet at e))
    | inl met ↦ elim (Bool-cases (p s)) [
      | inl holds ↦ rw met (s, refl, holds)
      | inr fails ↦
          let later = exists-found q p rs (ground (arith, u, met)) (rw (met, fails) at e) in
          absurd (ground (arith, u, met, count-row q rs later.0 later.1))
    ]
  ]

  -- Where no row is found after the UPDATE there was none to update.
  pub update_nothing :
      (q : Row → Bool) (f : Row → Row) (rs : List Row)
      → ((r : Row) → q (f r) ≡ q r)
      → find_where q (update_where q f rs) ≡ none
      → update_where q f rs ≡ rs
  unfolding find_where update_where
  update_nothing q f [] h e = refl
  update_nothing q f (s ∷ rs) h e = elim (Bool-cases (q s)) [
    | inl met ↦ cc (rw (met, h s, met) at e)
    | inr unmet ↦
        rw unmet (ap (λ rest. s ∷ rest) (update_nothing q f rs h (rw (unmet, unmet) at e)))
  ]
