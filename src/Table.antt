-- ===== src/Table.antt =====
-- PostgreSQL tables as lists of rows: SELECT, UPDATE and DELETE with a WHERE condition.
pub mod Keyed
pub mod Rows
use runner_engine.Errors.{ok, err, exception}
use runner_engine.Exec.{Exec}
use runner_engine.Prelude.{
  Bool-cases, inl, inr, ◌<◌, ◌≤◌, ℕ, suc, ◌+◌, ◌≡◌, refl, ap, Bool, true, false, Option, none, some,
  List, [], ◌∷◌, ◌++◌, arith, if◌then◌else◌, not, ◌&&◌, All,
}

module _ {ℓ} {Row : Type ℓ} where
  -- SELECT … WHERE p, fetchone()
  unfoldable pub find_where : (Row → Bool) → List Row → Option Row
  find_where p [] = none
  find_where p (r ∷ rs) = if p r then some r else find_where p rs

  -- UPDATE … SET f WHERE p
  unfoldable pub update_where : (Row → Bool) → (Row → Row) → List Row → List Row
  update_where p f [] = []
  update_where p f (r ∷ rs) = (if p r then f r else r) ∷ update_where p f rs

  -- DELETE … WHERE p
  unfoldable pub delete_where : (Row → Bool) → List Row → List Row
  delete_where p [] = []
  delete_where p (r ∷ rs) = let rest = delete_where p rs in if p r then rest else r ∷ rest

  -- cursor.rowcount of an UPDATE or a DELETE
  unfoldable pub count_where : (Row → Bool) → List Row → ℕ
  count_where p [] = 0
  count_where p (r ∷ rs) = let rest = count_where p rs in if p r then suc rest else rest

  -- EXISTS (SELECT 1 … WHERE p)
  unfoldable pub exists_where : (Row → Bool) → List Row → Bool
  exists_where p [] = false
  exists_where p (r ∷ rs) = if p r then true else exists_where p rs

  -- INSERT of a row whose primary key `dup` recognises.
  unfoldable pub insert : (Row → Bool) → Row → Exec (List Row) (Unit {0})
  unfolding exists_where
  insert dup r rs =
      if exists_where dup rs then (err (exception "UniqueViolation"), rs) else (ok tt, rs ++ r ∷ [])

-- How SELECT reads a table after each of the writes.
module _ {ℓ} {Row : Type ℓ} (q : Row → Bool) where
  abbrev pub update_found : (Row → Bool) → (Row → Row) → Option Row → Option Row
  update_found p f none = none
  update_found p f (some r) = some (if p r then f r else r)

  -- An UPDATE that no column of `q` is part of.
  pub find-update :
      (p : Row → Bool) (f : Row → Row) (rs : List Row)
      → ((r : Row) → q (f r) ≡ q r)
      → find_where q (update_where p f rs) ≡ update_found p f (find_where q rs)
  unfolding find_where update_where
  find-update p f [] h = refl
  find-update p f (r ∷ rs) h = ground (arith, h r, find-update p f rs h)

  pub count-update :
      (p : Row → Bool) (f : Row → Row) (rs : List Row)
      → ((r : Row) → q (f r) ≡ q r)
      → count_where q (update_where p f rs) ≡ count_where q rs
  unfolding count_where update_where
  count-update p f [] h = refl
  count-update p f (r ∷ rs) h = ground (arith, h r, count-update p f rs h)

  abbrev pub delete_found : (Row → Bool) → Option Row → Option Row
  delete_found p none = none
  delete_found p (some r) = if p r then none else some r

  count-find_none : (rs : List Row) → count_where q rs ≤ 0 → find_where q rs ≡ none
  unfolding count_where find_where
  count-find_none [] h = refl
  count-find_none (r ∷ rs) h = ground (arith, count-find_none rs)

  pub count-delete-le :
      (p : Row → Bool) (rs : List Row) → count_where q (delete_where p rs) ≤ count_where q rs
  unfolding count_where delete_where
  count-delete-le p [] = omega arith
  count-delete-le p (r ∷ rs) = ground (arith, count-delete-le p rs)

  -- A DELETE, where `q` names one row at most.
  pub find-delete :
      (p : Row → Bool) (rs : List Row)
      → count_where q rs ≤ 1
      → find_where q (delete_where p rs) ≡ delete_found p (find_where q rs)
  unfolding count_where find_where delete_where
  find-delete p [] h = refl
  find-delete p (r ∷ rs) h =
      ground (arith, find-delete p rs, count-find_none (delete_where p rs), count-delete-le p rs)

  pub find-exists : (rs : List Row) → exists_where q rs ≡ false → find_where q rs ≡ none
  unfolding exists_where find_where
  find-exists [] h = refl
  find-exists (r ∷ rs) h = ground (arith, find-exists rs)

  pub exists-find : (rs : List Row) → find_where q rs ≡ none → exists_where q rs ≡ false
  unfolding exists_where find_where
  exists-find [] h = refl
  exists-find (r ∷ rs) h = ground (arith, exists-find rs)

  abbrev pub append_found : Row → Option Row → Option Row
  append_found r none = if q r then some r else none
  append_found r (some x) = some x

  pub find-append :
      (r : Row) (rs : List Row) → find_where q (rs ++ r ∷ []) ≡ append_found r (find_where q rs)
  unfolding find_where
  find-append r [] = refl
  find-append r (x ∷ rs) = ground (arith, find-append r rs)

  pub count-append_row :
      (r : Row) (rs : List Row)
      → count_where q (rs ++ r ∷ []) ≡ (if q r then suc (count_where q rs) else count_where q rs)
  unfolding count_where
  count-append_row r [] = refl
  count-append_row r (x ∷ rs) = ground (arith, count-append_row r rs)

  pub count-none : (rs : List Row) → find_where q rs ≡ none → count_where q rs ≡ 0
  unfolding count_where find_where
  count-none [] h = refl
  count-none (r ∷ rs) h = ground (arith, count-none rs)

  -- The row that SELECT finds meets the condition.
  pub find_meets : (r : Row) (rs : List Row) → find_where q rs ≡ some r → q r ≡ true
  unfolding find_where
  find_meets r [] h = cc
  find_meets r (x ∷ rs) h = ground (arith, find_meets r rs, ap q {x = x} {y = r})

  count-le_of_implies :
      (p : Row → Bool) (rs : List Row)
      → ((r : Row) → p r ≡ true → q r ≡ true)
      → count_where p rs ≤ count_where q rs
  unfolding count_where
  count-le_of_implies p [] h = omega arith
  count-le_of_implies p (r ∷ rs) h = ground (arith, h r, count-le_of_implies p rs h)

  -- Where `q` names one row at most, a narrower condition that some row meets holds of that row.
  pub find_of_count :
      (p : Row → Bool) (rs : List Row)
      → ((r : Row) → p r ≡ true → q r ≡ true)
      → 0 < count_where p rs
      → count_where q rs ≤ 1
      → (r : Row) × (find_where q rs ≡ some r) × (p r ≡ true)
  unfolding count_where find_where
  find_of_count p [] i h u = absurd (omega arith)
  find_of_count p (r ∷ rs) i h u = elim (Bool-cases (p r)) [
    | inl met ↦ (r, rw (i r met), met)
    | inr other ↦ elim (Bool-cases (q r)) [
      | inl named ↦ absurd (ground (arith, count-le_of_implies p rs i, other, named))
      | inr elsewhere ↦
          rw elsewhere (find_of_count p rs i (ground (arith, other)) (ground (arith, elsewhere)))
    ]
  ]

  -- The row that SELECT finds is the one that such an UPDATE or DELETE writes to.
  pub count_of_find :
      (p : Row → Bool) (rs : List Row) (r : Row)
      → ((r : Row) → p r ≡ true → q r ≡ true)
      → count_where q rs ≤ 1
      → find_where q rs ≡ some r
      → count_where p rs ≡ (if p r then 1 else 0)
  unfolding count_where find_where
  count_of_find p [] r i u f = cc
  count_of_find p (x ∷ rs) r i u f =
      ground (arith, i x, count-le_of_implies p rs i, count_of_find p rs r i, ap p {x = x} {y = r})
