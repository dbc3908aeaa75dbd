-- ===== src/Lifecycle/Guarded.antt =====
-- What the gate and the store of retirements keep true together.
use runner_engine.Prelude.{
  ℕ, ◌≡◌, refl, ap, ◌∙◌, String, string_eq, true, false, not, ◌&&◌, Option, none, some, List, ◌∷◌,
  All, All-map, count, erase, count-erase, eq→≡, eq_self, arith, ◌==◌, Bool-cases, inl, inr,
  first_chars,
}
use runner_engine.Table.{exists_where}
use runner_engine.Table.Rows.{
  All-update_where, All-delete_where, All-append_row, All-both, All-absent,
}
use runner_engine.Lifecycle.{
  LifecycleRow, is_retired, has_runtime, has_image, get_by_runtime_id, is_cancellable,
  is_blocked_runtime, begin_retirement, cancel_retirement, finalize_retirement, begun_again, upsert,
  finalized,
}

module _ (hash : String → String) where
  -- A row is named by its image, and nothing is acquired for a RETIRED one.
  abbrev pub IsGuarded : List String → LifecycleRow → Type 0
  IsGuarded pending row =
      (row.runtime_id ≡ hash row.image_ref)
      × (is_retired row.state ≡ true → count row.runtime_id pending ≡ 0)

  module _ (pending : List String) where
    begun_again-IsGuarded :
        (image_ref reason : String) (db_now : ℕ) (row : LifecycleRow)
        → has_runtime (hash image_ref) row ≡ true
        → IsGuarded pending row
        → IsGuarded pending (begun_again image_ref reason db_now row)
    begun_again-IsGuarded image_ref reason db_now row named (_, drained) =
        (eq→≡ row.runtime_id (hash image_ref) named, λ r. drained (ground (arith, r)))

    upsert-IsGuarded :
        (image_ref reason : String) (db_now : ℕ) (found : Option LifecycleRow)
        (rows : List LifecycleRow)
        → All (IsGuarded pending) rows
        → All (IsGuarded pending) (upsert (hash image_ref) image_ref reason db_now found rows).1
    upsert-IsGuarded image_ref reason db_now none rows a =
        All-append_row (IsGuarded pending) rows _ a (refl, λ r. cc r)
    upsert-IsGuarded image_ref reason db_now (some row) rows a =
        All-update_where (IsGuarded pending) (has_runtime (hash image_ref))
          (begun_again image_ref reason db_now) rows (begun_again-IsGuarded image_ref reason db_now)
          a

    pub begin_retirement-IsGuarded :
        (db_now : ℕ) (image_ref reason : String) (rows : List LifecycleRow)
        → All (IsGuarded pending) rows
        → All (IsGuarded pending) (begin_retirement hash db_now image_ref reason rows).1
    unfolding begin_retirement
    begin_retirement-IsGuarded db_now image_ref reason rows a =
        elim (Bool-cases (
          exists_where (λ row. has_image image_ref row && not (has_runtime (hash image_ref) row))
            rows)) [
              | inl clash ↦ rw clash a
              | inr unique ↦ rw unique (
                  upsert-IsGuarded image_ref (first_chars 1000 reason) db_now
                    (get_by_runtime_id (hash image_ref) rows) rows a)
            ]

    pub cancel_retirement-IsGuarded :
        (image_ref : String) (rows : List LifecycleRow)
        → All (IsGuarded pending) rows
        → All (IsGuarded pending) (cancel_retirement image_ref rows).1
    unfolding cancel_retirement
    cancel_retirement-IsGuarded image_ref rows a =
        All-delete_where (IsGuarded pending) (is_cancellable image_ref) rows a

    pub finalize_retirement-IsGuarded :
        (db_now : ℕ) (image_ref : String) (rows : List LifecycleRow)
        → count (hash image_ref) pending ≡ 0
        → All (IsGuarded pending) rows
        → All (IsGuarded pending) (finalize_retirement db_now image_ref rows).1
    unfolding finalize_retirement
    finalize_retirement-IsGuarded db_now image_ref rows drained a =
        All-update_where (IsGuarded pending) (has_image image_ref) (finalized db_now) rows
          (λ row here (named, _). (
            named,
            λ r.
                ap (λ x. count x pending) (named ∙ ap hash (eq→≡ row.image_ref image_ref here))
                ∙ drained,
          ))
          a

    -- A runtime without a row may be acquired.
    pub entered-IsGuarded :
        (runtime_id : String) (rows : List LifecycleRow)
        → is_blocked_runtime runtime_id rows ≡ false
        → All (IsGuarded pending) rows
        → All (IsGuarded (runtime_id ∷ pending)) rows
    entered-IsGuarded runtime_id rows free a =
        All-map (λ row. IsGuarded pending row × (has_runtime runtime_id row ≡ false))
          (IsGuarded (runtime_id ∷ pending)) rows
          (λ row ((named, drained), other). (
            named,
            λ r. ground (
              arith,
              drained r,
              other,
              eq→≡ runtime_id row.runtime_id,
              eq_self runtime_id,
              ap (λ x. x == runtime_id) {x = runtime_id} {y = row.runtime_id},
            ),
          ))
          (All-both (IsGuarded pending) (λ row. has_runtime runtime_id row ≡ false) rows a
            (All-absent (has_runtime runtime_id) rows free))

    pub left-IsGuarded :
        (runtime_id : String) (rows : List LifecycleRow)
        → All (IsGuarded pending) rows
        → All (IsGuarded (erase runtime_id pending)) rows
    left-IsGuarded runtime_id rows a =
        All-map (IsGuarded pending) (IsGuarded (erase runtime_id pending)) rows
          (λ row (named, drained).
            (named, λ r. ground (arith, count-erase row.runtime_id runtime_id pending, drained r)))
          a
