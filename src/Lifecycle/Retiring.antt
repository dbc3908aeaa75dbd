-- ===== src/Lifecycle/Retiring.antt =====
-- What a retirement does to the acquisitions and to the pool.
use runner_engine.Prelude.{
  ℕ, ◌≡◌, refl, ap, ◌∙◌, String, string_eq, nat_eq, Bool, true, not, ◌&&◌, Option, none, some, List,
  [], ◌∷◌, ◌++◌, arith, Bool-cases, inl, inr, if◌then◌else◌, ◌==◌, first_chars,
}
use runner_engine.Errors.{err, failure}
use runner_engine.Table.{update_where, exists_where, find-update, find-append}
use runner_engine.Table.Rows.{find-delete_other, find-exists_true}
use runner_engine.Model.{OperatorRelease, SecurityPolicy}
use runner_engine.Backend.{Backend}
use runner_engine.Lifecycle.{
  LifecycleRow, is_retired, has_runtime, has_image, get_by_runtime_id, is_cancellable,
  is_blocked_runtime, begin_retirement, begun_again, upsert, finalized, cancel_retirement,
  finalize_retirement,
}
use runner_engine.Lifecycle.Gate.{Host, enter, leave, acquire}
use runner_engine.Lifecycle.Writes.{begin-writes, cancel-writes, finalize-cases}
use runner_engine.Lifecycle.History.{Busy, Step, Reach}

abbrev pub IsRetired : String → List LifecycleRow → Type 0
IsRetired runtime_id rows =
    (row : LifecycleRow) × (get_by_runtime_id runtime_id rows ≡ some row)
    × (is_retired row.state ≡ true)

module _ (runtime_id : String) where
  -- A write that keeps the runtime's name and a RETIRED state keeps the runtime retired.
  update-IsRetired :
      (p : LifecycleRow → Bool) (f : LifecycleRow → LifecycleRow) (rows : List LifecycleRow)
      → ((r : LifecycleRow) → (f r).runtime_id ≡ r.runtime_id)
      → ((r : LifecycleRow) → is_retired r.state ≡ true → is_retired (f r).state ≡ true)
      → IsRetired runtime_id rows
      → IsRetired runtime_id (update_where p f rows)
  update-IsRetired p f rows same keeps (row, found, state) = (
    if p row then f row else row,
    find-update (has_runtime runtime_id) p f rows (λ r. ap (λ id. id == runtime_id) (same r))
        ∙ rw found refl,
    ground (arith, keeps row state, state),
  )

  cancel-IsRetired :
      (image_ref : String) (rows : List LifecycleRow)
      → IsRetired runtime_id rows
      → IsRetired runtime_id (cancel_retirement image_ref rows).1
  unfolding cancel_retirement
  cancel-IsRetired image_ref rows (row, found, state) = (
    row,
    find-delete_other (has_runtime runtime_id) (is_cancellable image_ref) rows row found
        (ground (arith, state)),
    state,
  )

  append-IsRetired :
      (new : LifecycleRow) (rows : List LifecycleRow)
      → IsRetired runtime_id rows
      → IsRetired runtime_id (rows ++ new ∷ [])
  append-IsRetired new rows (row, found, state) =
      (row, find-append (has_runtime runtime_id) new rows ∙ rw found refl, state)

  upsert-IsRetired :
      (id image_ref reason : String) (db_now : ℕ) (there : Option LifecycleRow)
      (rows : List LifecycleRow)
      → IsRetired runtime_id rows
      → IsRetired runtime_id (upsert id image_ref reason db_now there rows).1
  upsert-IsRetired id image_ref reason db_now none rows h = append-IsRetired _ rows h
  upsert-IsRetired id image_ref reason db_now (some row) rows h =
      update-IsRetired (has_runtime id) (begun_again image_ref reason db_now) rows (λ r. refl)
        (λ r e. ground (arith, e)) h

  begin-IsRetired :
      (hash : String → String) (db_now : ℕ) (image_ref reason : String) (rows : List LifecycleRow)
      → IsRetired runtime_id rows
      → IsRetired runtime_id (begin_retirement hash db_now image_ref reason rows).1
  unfolding begin_retirement
  begin-IsRetired hash db_now image_ref reason rows h =
      elim (Bool-cases (
        exists_where (λ row. has_image image_ref row && not (has_runtime (hash image_ref) row))
          rows)) [
            | inl clash ↦ rw clash h
            | inr unique ↦ rw unique (
                upsert-IsRetired (hash image_ref) image_ref (first_chars 1000 reason) db_now
                  (get_by_runtime_id (hash image_ref) rows) rows h)
          ]

  finalize-IsRetired :
      (db_now : ℕ) (image_ref : String) (rows : List LifecycleRow)
      → IsRetired runtime_id rows
      → IsRetired runtime_id (finalize_retirement db_now image_ref rows).1
  unfolding finalize_retirement
  finalize-IsRetired db_now image_ref rows h =
      update-IsRetired (has_image image_ref) (finalized db_now) rows (λ r. refl) (λ r e. refl) h

module _ {W : Type 0} (backend : Backend W) where
  -- The gate before a runtime with a row.
  pub acquire_refuses :
      (tenant : String) (rel : OperatorRelease) (policy : SecurityPolicy) (h : Host W)
      → is_blocked_runtime rel.runtime.id h.lifecycle ≡ true
      → acquire backend tenant rel policy h ≡ (
        err (
            failure "RUNTIME_RETIRING" "runtime image is retiring and cannot acquire a sandbox"
              true),
        h,
      )
  unfolding acquire enter
  acquire_refuses tenant rel policy h blocked = rw blocked refl

  module _ (hash : String → String) (runtime_id : String) where
    Step-IsRetired :
        {s t : Busy W}
        → Step backend hash s t
        → IsRetired runtime_id s.host.lifecycle
        → IsRetired runtime_id t.host.lifecycle
    unfolding enter leave
    Step-IsRetired {s} (Step.enters id passed) h = ground (arith, h)
    Step-IsRetired {s} (Step.leaves id under_way) h = h
    Step-IsRetired (Step.works service) h = h
    Step-IsRetired {s} (Step.begins x image_ref reason same) h =
        rw (begin-writes x image_ref backend reason s.host).0 (
          begin-IsRetired runtime_id x.runtime_id_for_image x.db_now image_ref reason
            s.host.lifecycle h)
    Step-IsRetired {s} (Step.cancels x image_ref) h = elim (cancel-writes x image_ref s.host) [
      | inl nothing ↦ rw nothing h
      | inr rows ↦ rw rows (cancel-IsRetired runtime_id image_ref s.host.lifecycle h)
    ]
    Step-IsRetired {s} (Step.finalizes x image_ref same) h =
        elim (finalize-cases x image_ref s.host) [
          | inl (e, f) ↦ rw (ap (λ y. y.1) f) h
          | inr (managed, given, drained, f) ↦
              rw (ap (λ y. y.1) f)
                (finalize-IsRetired runtime_id x.db_now image_ref s.host.lifecycle h)
        ]

    Reach-IsRetired :
        {s t : Busy W}
        → Reach backend hash s t
        → IsRetired runtime_id s.host.lifecycle
        → IsRetired runtime_id t.host.lifecycle
    Reach-IsRetired Reach.here h = h
    Reach-IsRetired (Reach.next r step) h = Step-IsRetired step (Reach-IsRetired r h)

    -- Once a runtime is RETIRED, acquire raises RUNTIME_RETIRING for its releases and changes
    -- nothing, after any sequence of acquisitions, other calls of the service, and begin, cancel
    -- and finalize of retirements.
    pub retired_for_good :
        {s t : Busy W} (tenant : String) (rel : OperatorRelease) (policy : SecurityPolicy)
        → IsRetired runtime_id s.host.lifecycle
        → Reach backend hash s t
        → rel.runtime.id ≡ runtime_id
        → acquire backend tenant rel policy t.host ≡ (
          err (
              failure "RUNTIME_RETIRING" "runtime image is retiring and cannot acquire a sandbox"
                true),
          t.host,
        )
    retired_for_good {s} {t} tenant rel policy h r same =
        let (row, found, state) = Reach-IsRetired r h in
        acquire_refuses tenant rel policy t.host
          (rw same (find-exists_true (has_runtime runtime_id) t.host.lifecycle row found))
