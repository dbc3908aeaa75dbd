-- ===== src/Lifecycle/Front.antt =====
-- runner_engine/lifecycle_service.py, `LifecycleRunnerService`: no lease is granted or renewed for a
-- runtime that is retiring or retired.
use runner_engine.Prelude.{String, string_eq, true, false, Option, none, some}
use runner_engine.Errors.{Result, ok, err, failure}
use runner_engine.Exec.{Exec, lift, gets, ◌>>=◌, ◌>>◌}
use runner_engine.Model.{OperatorRelease, Lease}
use runner_engine.Backend.{Backend}
use runner_engine.State.{Clocks}
use runner_engine.State.Leases
use runner_engine.Service
use runner_engine.Lifecycle.{LifecycleState, LifecycleRow, retiring, retired, get_by_runtime_id}
use runner_engine.Lifecycle.Gate.{Host, on_service}

-- What the row of the runtime says.
abbrev pub refusal : LifecycleState → Result (Unit {0})
refusal retired =
    err (failure "RUNTIME_RETIRED" "runtime image is retired and cannot accept new execution" false)
refusal retiring =
    err
      (failure "RUNTIME_RETIRING" "runtime image is retiring and cannot accept new execution" true)

abbrev pub active_or_refused : Option LifecycleRow → Result (Unit {0})
active_or_refused none = ok tt
active_or_refused (some row) = refusal row.state

module _ {W : Type 0} (backend : Backend W) (catalog : String → Result OperatorRelease) where
  unfoldable pub assert_runtime_active : OperatorRelease → Exec (Host W) (Unit {0})
  assert_runtime_active release = do
    row ← gets (λ h. get_by_runtime_id release.runtime.id h.lifecycle)
    lift (active_or_refused row)

  unfoldable pub acquire_lease :
      Clocks → String → String → String → String → String → Exec (Host W) Lease
  acquire_lease c lease_id tenant_id project_id processor_id release_id = do
    release ← lift (catalog release_id)
    assert_runtime_active release
    on_service (
        Service.acquire_lease backend catalog c lease_id tenant_id project_id processor_id
          release_id)

  -- The service's renew_lease is the call of `RunnerDB` with its time to live; the check before it
  -- and the call itself read the clock one after the other.
  unfoldable pub renew_lease : Clocks → Clocks → Clocks → String → String → Exec (Host W) Lease
  renew_lease c checked c' lease_id tenant_id = do
    current ← on_service (Service.on_db (Leases.require_lease c lease_id tenant_id none))
    release ← lift (catalog current.release_id)
    assert_runtime_active release
    ttl_ms ← gets (λ h. h.service.lease_ttl_ms)
    on_service (Service.on_db (Leases.renew_lease checked c' lease_id tenant_id ttl_ms))
