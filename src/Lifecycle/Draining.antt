-- ===== src/Lifecycle/Draining.antt =====
-- How a retirement begins and how it ends.
use runner_engine.Prelude.{
  ℕ, ◌<◌, ◌≡◌, ◌≢◌, refl, sym, ◌∙◌, String, string_eq, nat_eq, true, false, not, ◌&&◌, Option, none,
  some, List, [], ◌∷◌, ◌++◌, count, eq_self, arith, Bool-cases, Option-cases, inl, inr,
  if◌then◌else◌, first_chars,
}
use runner_engine.Errors.{Exn, Result-cases, ok, err, failure}
use runner_engine.Exec.Ends.{Ends}
use runner_engine.Dict.{get}
use runner_engine.Table.{
  update_where, exists_where, find-update, find-append, find_meets, update_found,
}
use runner_engine.Table.Rows.{find-exists_true, update_nothing}
use runner_engine.Model.{OperatorRelease, SecurityPolicy, Ref}
use runner_engine.Backend.{Backend}
use runner_engine.Pool.Acquire
use runner_engine.Pool.Idle.{idle_refs}
use runner_engine.Pool.Invariant.{Inv}
use runner_engine.Pool.Sweep
use runner_engine.Pool.Reaping.{retire_runtime_clears}
use runner_engine.Lifecycle.{
  LifecycleRow, is_retired, has_runtime, has_image, get_by_runtime_id, get_by_image,
  is_blocked_runtime, begin_retirement, begun_again, upsert, finalized, finalize_retirement,
}
use runner_engine.Lifecycle.Gate.{Host, enter, leave, acquire}
use runner_engine.Lifecycle.Controller.{
  Surroundings, RuntimeStatus, runtime_image_status, begin_runtime_retirement,
  finalize_runtime_retirement,
}
use runner_engine.Lifecycle.Writes.{begin-writes, finalize-cases, listed, seen, IsDrained}
use runner_engine.Lifecycle.Counting.{Counts, count_acquisition-Counts, uncount_acquisition-Counts}
use runner_engine.Lifecycle.Retiring.{acquire_refuses}

-- The row that an upsert writes is there.
upsert-there :
    (runtime_id image_ref reason : String) (db_now : ℕ) (rows : List LifecycleRow)
    (found : Option LifecycleRow)
    → get_by_runtime_id runtime_id rows ≡ found
    → exists_where (has_runtime runtime_id) (upsert runtime_id image_ref reason db_now found rows).1
      ≡ true
upsert-there runtime_id image_ref reason db_now rows none e =
    let new = (upsert runtime_id image_ref reason db_now none rows).0 in
    let there : get_by_runtime_id runtime_id (rows ++ new ∷ []) ≡ some new =
      find-append (has_runtime runtime_id) new rows ∙ rw e (rw (eq_self runtime_id) refl) in
    find-exists_true (has_runtime runtime_id) (rows ++ new ∷ []) new there
upsert-there runtime_id image_ref reason db_now rows (some row) e =
    let f = begun_again image_ref reason db_now in
    let q = has_runtime runtime_id in
    let there : get_by_runtime_id runtime_id (update_where q f rows)
        ≡ some (if q row then f row else row) =
      find-update q q f rows (λ r. refl) ∙ rw e refl in
    find-exists_true q (update_where q f rows) (if q row then f row else row) there

module _ {W : Type 0} (x : Surroundings W) (backend : Backend W) (image_ref reason : String)
    (h : Host W) where
  abbrev runtime_id : String
  runtime_id = x.runtime_id_for_image image_ref

  abbrev begun : Host W
  begun = (begin_runtime_retirement x backend image_ref reason h).1

  blocked :
      (row : LifecycleRow)
      → (begin_retirement x.runtime_id_for_image x.db_now image_ref reason h.lifecycle).0 ≡ ok row
      → is_blocked_runtime runtime_id
          (begin_retirement x.runtime_id_for_image x.db_now image_ref reason h.lifecycle).1
        ≡ true
  unfolding begin_retirement
  blocked row done =
      elim (Bool-cases (
        exists_where (λ row. has_image image_ref row && not (has_runtime runtime_id row))
          h.lifecycle)) [
            | inl clash ↦ cc (rw clash at done)
            | inr unique ↦ rw unique (
                upsert-there runtime_id image_ref (first_chars 1000 reason) x.db_now h.lifecycle
                  (get_by_runtime_id runtime_id h.lifecycle) refl)
          ]

  -- If the store wrote the row of the retirement, then after begin_runtime_retirement, whether it
  -- returns or raises, acquire raises RUNTIME_RETIRING for the releases of the runtime and changes
  -- nothing.
  pub begin_refuses :
      (row : LifecycleRow) (tenant : String) (rel : OperatorRelease) (policy : SecurityPolicy)
      → (begin_retirement x.runtime_id_for_image x.db_now image_ref reason h.lifecycle).0 ≡ ok row
      → rel.runtime.id ≡ x.runtime_id_for_image image_ref
      → acquire backend tenant rel policy (begin_runtime_retirement x backend image_ref reason h).1
        ≡ (
          err (
              failure "RUNTIME_RETIRING" "runtime image is retiring and cannot acquire a sandbox"
                true),
          (begin_runtime_retirement x backend image_ref reason h).1,
        )
  begin_refuses row tenant rel policy done same =
      acquire_refuses backend tenant rel policy begun
        (rw (same, (begin-writes x image_ref backend reason h).0) (blocked row done))

  -- The pool is as retire_runtime leaves it, but for the world.
  cleared :
      (row : LifecycleRow)
      → (begin_retirement x.runtime_id_for_image x.db_now image_ref reason h.lifecycle).0 ≡ ok row
      → is_retired row.state ≡ false
      → (begun.service.pool.idle ≡ (Sweep.retire_runtime backend runtime_id h.service.pool).1.idle)
        × (begun.service.pool.workers
            ≡ (Sweep.retire_runtime backend runtime_id h.service.pool).1.workers)
  unfolding begin_runtime_retirement runtime_image_status
  cleared row done new =
      rw (begun, done, new)
        (elim (Result-cases (Sweep.retire_runtime backend runtime_id h.service.pool).0) [
          | inr (e, raised) ↦ rw raised (refl, refl)
          | inl (ids, got) ↦ rw got (ground arith)
        ])

  -- If the pool meets its invariant and the store wrote a row that is not RETIRED, no worker of
  -- the runtime is idle after begin_runtime_retirement, whether it returns or raises.
  pub begin_clears :
      (row : LifecycleRow) (pending : List String) (r : Ref)
      → (begin_retirement x.runtime_id_for_image x.db_now image_ref reason h.lifecycle).0 ≡ ok row
      → is_retired row.state ≡ false
      → Inv pending h.service.pool
      → 0
        < count r
            (idle_refs (begin_runtime_retirement x backend image_ref reason h).1.service.pool.idle)
      → ((begin_runtime_retirement x backend image_ref reason h).1.service.pool.workers
          r).runtime_id
        ≢ x.runtime_id_for_image image_ref
  begin_clears row pending r done new v c =
      let same = cleared row done new in
      rw same.1
        (retire_runtime_clears backend pending h.service.pool v runtime_id r (rw same.0 at c))

module _ {W : Type 0} (x : Surroundings W) (image_ref : String) (h : Host W) where
  -- Where a retirement is finalized, nothing uses the runtime, and the image's row is RETIRED.
  abbrev pub Finalized : RuntimeStatus → Host W → Type 0
  Finalized answer h' =
      (managed : List String) × ((listed x image_ref h).0 ≡ ok managed)
      × IsDrained x image_ref (seen x image_ref h) managed
      × ((row : LifecycleRow) × (get_by_image image_ref h'.lifecycle ≡ some row)
          × (is_retired row.state ≡ true))

  abbrev pub Kept : Exn → Host W → Type 0
  Kept e h' = h'.lifecycle ≡ h.lifecycle

  -- If finalize_runtime_retirement returns, the runtime was retiring, none of its workers was
  -- active or idle, none was being acquired and the backend listed no sandbox of it, and the row
  -- of the image is RETIRED; if it raises, the retirement rows are as they were.
  pub finalize_runtime_retirement_lem :
      Ends Finalized Kept (finalize_runtime_retirement x image_ref h)
  unfolding finalize_retirement
  finalize_runtime_retirement_lem = elim (finalize-cases x image_ref h) [
    | inl (e, f) ↦ rw f refl
    | inr (managed, given, drained, f) ↦
        let f_rows : get_by_image image_ref
              (update_where (has_image image_ref) (finalized x.db_now) h.lifecycle)
            ≡ update_found (has_image image_ref) (has_image image_ref) (finalized x.db_now)
                (get_by_image image_ref h.lifecycle) =
          find-update (has_image image_ref) (has_image image_ref) (finalized x.db_now) h.lifecycle
            (λ r. refl) in
        elim (Option-cases (get_by_image image_ref h.lifecycle)) [
          | inl missing ↦
              let gone : get_by_image image_ref
                    (update_where (has_image image_ref) (finalized x.db_now) h.lifecycle)
                  ≡ none =
                f_rows ∙ rw missing refl in
              rw (f, gone)
                (update_nothing (has_image image_ref) (finalized x.db_now) h.lifecycle (λ r. refl)
                  gone)
          | inr (row, found) ↦
              let there : get_by_image image_ref
                    (update_where (has_image image_ref) (finalized x.db_now) h.lifecycle)
                  ≡ some (finalized x.db_now row) =
                f_rows ∙ rw (found, find_meets (has_image image_ref) row h.lifecycle found) refl in
              rw (f, there) (managed, given, drained, (finalized x.db_now row, there, refl))
        ]
  ]

module _ {W : Type 0} (backend : Backend W) (tenant : String) (rel : OperatorRelease)
    (policy : SecurityPolicy) (h : Host W) (pending : List String) where
  -- For a runtime that is not retiring, where the counters tell the acquisitions under way,
  -- acquire of the lifecycle pool answers as acquire of the pool, changes the pool as it does, and
  -- leaves the retirement rows and every counter as they were, whether it returns or raises.
  pub acquire_as_pool :
      is_blocked_runtime rel.runtime.id h.lifecycle ≡ false
      → Counts h.acquiring pending
      → let pooled = Acquire.acquire backend rel tenant policy h.service.pool in
        let (r, h') = acquire backend tenant rel policy h in
        (r ≡ pooled.0)
        × (h'.service ≡ record h.service { pool = pooled.1 })
        × (h'.lifecycle ≡ h.lifecycle)
        × ((runtime_id : String) → get runtime_id h'.acquiring ≡ get runtime_id h.acquiring)
  unfolding acquire enter leave
  acquire_as_pool free counts =
      let one = count_acquisition-Counts h.acquiring pending counts rel.runtime.id in
      let back = uncount_acquisition-Counts _ (rel.runtime.id ∷ pending) one rel.runtime.id in
      rw free (refl, refl, refl, λ id. rw (eq_self rel.runtime.id) at (back id) ∙ sym (counts id))
