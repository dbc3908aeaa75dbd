-- ===== src/Lifecycle/Controller.antt =====
-- runner_engine/lifecycle_runtime.py, `RunnerLifecycleController`: the retirement of a runtime image over
-- the store, the pool and the table of active invocations. The catalog, the names of its release
-- directories, and the list of managed sandboxes that the backend gives are arguments.
use runner_engine.Prelude.{
  ℕ, String, string_eq, Bool, true, false, not, ◌&&◌, Option, none, some, List, [], ◌∷◌, ltb,
  is_empty, contains, nat_beq, if◌then◌else◌, ◌==◌,
}
use runner_engine.Errors.{Exn, Result, ok, err, exception}
use runner_engine.Exec.{Exec, pure, lift, gets, ◌>>=◌, ◌>>◌}
use runner_engine.Table.{count_where}
use runner_engine.Model.{OperatorRelease, ActiveRun, Ref, Worker}
use runner_engine.Backend.{Backend}
use runner_engine.Pool.Idle.{idle_refs}
use runner_engine.Pool.Sweep
use runner_engine.State.{LeaseRow}
use runner_engine.Lifecycle.{
  LifecycleState, LifecycleRow, is_retired, get_by_runtime_id, get_by_image, begin_retirement,
  cancel_retirement, finalize_retirement,
}
use runner_engine.Lifecycle.Gate.{Host, acquiring_of, on_pool, on_lifecycle}

-- There is no row where the state is ACTIVE.
abbrev pub state_of : Option LifecycleRow → Option LifecycleState
state_of none = none
state_of (some row) = some row.state

abbrev pub is_retiring : Option LifecycleState → Bool
is_retiring none = false
is_retiring (some state) = not (is_retired state)

module _ {ℓ} {A : Type ℓ} where
  -- [a for a in xs if test(a)]
  abbrev pub having : (A → Bool) → List A → List A
  having test [] = []
  having test (a ∷ xs) = let rest = having test xs in if test a then a ∷ rest else rest

-- The counts are the lengths of the lists; of the releases the answer shows the first 100.
pub record RuntimeStatus : Type 0 where
  pub runtime_id : String
  pub image_ref : String
  pub lifecycle_state : Option LifecycleState
  pub releases : List OperatorRelease
  pub unexpired_lease_count : ℕ
  pub active_invocations : List (String × ActiveRun)
  pub idle_workers : List Ref
  pub acquiring_worker_count : ℕ
  pub managed_sandboxes : List String
  pub safe_for_artifact_deletion : Bool

abbrev pub not_drained : Exn
not_drained =
    exception
      "runtime still has an active invocation, sandbox acquisition, idle worker or managed sandbox"

pub record Surroundings (W : Type 0) : Type 0 where
  pub runtime_id_for_image : String → String
  pub db_now : ℕ
  pub catalog : String → Result OperatorRelease
  pub release_dirs : List String
  -- getattr(backend, "list_managed"), where the backend has it
  pub list_managed : String → Exec W (List String)

-- A release that cannot be read is passed over.
abbrev pub read_release :
    Result OperatorRelease → String → List OperatorRelease → List OperatorRelease
read_release (err e) runtime_id rest = rest
read_release (ok release) runtime_id rest =
    if release.runtime.id == runtime_id then release ∷ rest else rest

abbrev pub release_rows :
    (String → Result OperatorRelease) → String → List String → List OperatorRelease
release_rows catalog runtime_id [] = []
release_rows catalog runtime_id (name ∷ names) =
    read_release (catalog name) runtime_id (release_rows catalog runtime_id names)

abbrev pub release_ids : List OperatorRelease → List String
release_ids [] = []
release_ids (release ∷ rest) = release.id ∷ release_ids rest

abbrev pub is_unexpired_of : List String → ℕ → LeaseRow → Bool
is_unexpired_of ids db_now row = contains row.release_id ids && ltb db_now row.expires_at

unfoldable pub unexpired_lease_count : List String → ℕ → List LeaseRow → ℕ
unexpired_lease_count ids db_now leases =
    if is_empty ids then 0 else count_where (is_unexpired_of ids db_now) leases

module _ {W : Type 0} (x : Surroundings W) where
  abbrev pub is_of : String → (Ref → Worker) → Ref → Bool
  is_of runtime_id workers r = (workers r).runtime_id == runtime_id

  abbrev pub active_of : String → Host W → List (String × ActiveRun)
  active_of runtime_id h =
      having
        (λ (entry : String × ActiveRun). is_of runtime_id h.service.pool.workers entry.1.worker)
        h.service.active

  abbrev pub idle_of : String → Host W → List Ref
  idle_of runtime_id h =
      having (is_of runtime_id h.service.pool.workers) (idle_refs h.service.pool.idle)

  abbrev pub status_of : String → List String → Host W → RuntimeStatus
  status_of image_ref managed h =
      let runtime_id = x.runtime_id_for_image image_ref in
      let releases = release_rows x.catalog runtime_id x.release_dirs in
      let state = state_of (get_by_runtime_id runtime_id h.lifecycle) in
      let acquiring = acquiring_of h.acquiring runtime_id in
      record {
        runtime_id = runtime_id;
        image_ref = image_ref;
        lifecycle_state = state;
        releases = releases;
        unexpired_lease_count =
            unexpired_lease_count (release_ids releases) x.db_now h.service.db.leases;
        active_invocations = active_of runtime_id h;
        idle_workers = idle_of runtime_id h;
        acquiring_worker_count = acquiring;
        managed_sandboxes = managed;
        safe_for_artifact_deletion =
            is_retiring state
            && (is_empty (active_of runtime_id h)
                && (is_empty (idle_of runtime_id h) && (nat_beq acquiring 0 && is_empty managed)));
      }

  unfoldable pub runtime_image_status : String → Exec (Host W) RuntimeStatus
  runtime_image_status image_ref = do
    managed ← on_pool (λ p.
        let (listed, world) = x.list_managed (x.runtime_id_for_image image_ref) p.world in
        (listed, record p { world = world }))
    gets (status_of image_ref managed)

  module _ (backend : Backend W) where
    abbrev pub retire_unless : Bool → String → Exec (Host W) (RuntimeStatus × List String)
    retire_unless true image_ref = do status ← runtime_image_status image_ref; pure (status, [])
    retire_unless false image_ref = do
      retired_workers ← on_pool (Sweep.retire_runtime backend (x.runtime_id_for_image image_ref))
      status ← runtime_image_status image_ref
      pure (status, retired_workers)

    -- With the identifiers of the idle workers that were retired.
    unfoldable pub begin_runtime_retirement :
        String → String → Exec (Host W) (RuntimeStatus × List String)
    begin_runtime_retirement image_ref reason = do
      row ← on_lifecycle (begin_retirement x.runtime_id_for_image x.db_now image_ref reason)
      retire_unless (is_retired row.state) image_ref

    unfoldable pub retire_idle_worker : String → Exec (Host W) (Unit {0})
    retire_idle_worker worker_id = do
      found ← on_pool (Sweep.retire_idle_worker backend worker_id)
      lift (
          if found
          then ok tt
          else err (exception "worker is not idle or is no longer owned by this Runner process"))

  abbrev pub check_reactivable : Option LifecycleRow → Result (Unit {0})
  check_reactivable none = ok tt
  check_reactivable (some row) =
      if is_retired row.state
      then err (exception "a RETIRED runtime cannot be reactivated")
      else ok tt

  unfoldable pub cancel_runtime_retirement : String → Exec (Host W) Bool
  cancel_runtime_retirement image_ref = do
    current ← gets (λ h. get_by_image image_ref h.lifecycle)
    lift (check_reactivable current)
    on_lifecycle (cancel_retirement image_ref)

  abbrev pub check_safe : RuntimeStatus → Result (Unit {0})
  check_safe status = if status.safe_for_artifact_deletion then ok tt else err not_drained

  abbrev pub finalized_status : RuntimeStatus → Option LifecycleRow → Result RuntimeStatus
  finalized_status status none = err (exception "runtime lifecycle row disappeared")
  finalized_status status (some row) =
      ok (record status { lifecycle_state = some row.state; safe_for_artifact_deletion = false })

  unfoldable pub finalize_runtime_retirement : String → Exec (Host W) RuntimeStatus
  finalize_runtime_retirement image_ref = do
    status ← runtime_image_status image_ref
    lift (check_safe status)
    row ← on_lifecycle (finalize_retirement x.db_now image_ref)
    lift (finalized_status status row)
