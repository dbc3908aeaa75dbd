-- ===== src/Table/Keyed.antt =====
-- Tables with a primary key: what an INSERT or an UPDATE of one row does to the rows found by key.
use runner_engine.Prelude.{
  ◌≤◌, ◌≡◌, refl, sym, ◌∙◌, Bool, false, Option, none, some, List, ◌∷◌, [], ◌++◌, HasEq, ◌==◌,
  eq_self, eq→≡, eq_of_ne, Bool-cases, arith, inl, inr, ap, Option-cases,
}
use runner_engine.Table.{
  find_where, update_where, count_where, update_found, append_found, find-append, find-update,
  count-append_row, count-none, find_meets,
}

module _ {Row K : Type 0} ⦃e : HasEq K⦄ (key : Row → K) where
  abbrev pub keyed : K → Row → Bool
  keyed k r = key r == k

  swap : (a b : K) → (a == b) ≡ false → (b == a) ≡ false
  swap a b h = eq_of_ne b a (λ same. cc (eq_self a, ap (λ x. a == x) same, h))

  pub append_unique :
      (new : Row) (rs : List Row)
      → ((k : K) → count_where (keyed k) rs ≤ 1)
      → find_where (keyed (key new)) rs ≡ none
      → (k : K) → count_where (keyed k) (rs ++ new ∷ []) ≤ 1
  append_unique new rs u h k = elim (Bool-cases (key new == k)) [
    | inr other ↦ ground (arith, count-append_row (keyed k) new rs, u k, other)
    | inl same ↦
        let alone : count_where (keyed k) rs ≡ 0 =
          ap (λ x. count_where (keyed x) rs) (sym (eq→≡ (key new) k same))
          ∙ count-none (keyed (key new)) rs h in
        ground (arith, count-append_row (keyed k) new rs, alone, same)
  ]

  pub append_there :
      (new : Row) (rs : List Row)
      → find_where (keyed (key new)) rs ≡ none
      → find_where (keyed (key new)) (rs ++ new ∷ []) ≡ some new
  append_there new rs h = find-append (keyed (key new)) new rs ∙ rw h (rw (eq_self (key new)) refl)

  pub append_others :
      (new : Row) (rs : List Row) (k : K)
      → (k == key new) ≡ false
      → find_where (keyed k) (rs ++ new ∷ []) ≡ find_where (keyed k) rs
  append_others new rs k h = find-append (keyed k) new rs ∙ skip (find_where (keyed k) rs)
    where
      skip : (o : Option Row) → append_found (keyed k) new o ≡ o
      skip none = rw (swap k (key new) h) refl
      skip (some r) = refl

  module _ (n : K) (f : Row → Row) (rs : List Row) (same_key : (r : Row) → key (f r) ≡ key r) where
    find-update_keyed :
        (k : K)
        → find_where (keyed k) (update_where (keyed n) f rs)
          ≡ update_found (keyed k) (keyed n) f (find_where (keyed k) rs)
    find-update_keyed k = find-update (keyed k) (keyed n) f rs (λ r. ap (λ x. x == k) (same_key r))

    pub update_there :
        (old : Row)
        → find_where (keyed n) rs ≡ some old
        → find_where (keyed n) (update_where (keyed n) f rs) ≡ some (f old)
    update_there old h = find-update_keyed n ∙ rw h (rw (find_meets (keyed n) old rs h) refl)

    pub update_others :
        (k : K)
        → (k == n) ≡ false
        → find_where (keyed k) (update_where (keyed n) f rs) ≡ find_where (keyed k) rs
    update_others k h = elim (Option-cases (find_where (keyed k) rs)) [
      | inl none_there ↦ find-update_keyed k ∙ rw none_there refl
      | inr (r, found) ↦
          let named : key r ≡ k = eq→≡ (key r) k (find_meets (keyed k) r rs found) in
          let apart : (key r == n) ≡ false = ap (λ x. x == n) named ∙ h in
          find-update_keyed k ∙ rw found (rw apart refl)
    ]
