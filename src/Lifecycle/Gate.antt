-- ===== src/Lifecycle/Gate.antt =====
-- runner_engine/lifecycle_runtime.py, `LifecycleWorkerPool`: the gate before the pool's `acquire`, which
-- counts the acquisitions that are under way for each runtime.
use runner_engine.Prelude.{
  ℕ, ◌+◌, ◌-◌, String, string_eq, Bool, true, false, Option, none, some, List, ltb, if◌then◌else◌,
}
use runner_engine.Errors.{Result, ok, err, failure}
use runner_engine.Exec.{Exec, lift, ◌>>=◌, ◌>>◌, finally, zoom, gets, modify}
use runner_engine.Dict.{Dict, get, put, pop}
use runner_engine.Model.{OperatorRelease, SecurityPolicy, Ref}
use runner_engine.Backend.{Backend}
use runner_engine.Pool.{Pool}
use runner_engine.Pool.Acquire
use runner_engine.Service.{Service}
use runner_engine.Lifecycle.{LifecycleRow, is_blocked_runtime}

-- The service with the store of retirements and the counters of its pool.
pub record Host (W : Type 0) : Type 0 where
  pub service : Service W
  pub lifecycle : List LifecycleRow
  pub acquiring : Dict String ℕ

-- self._acquiring.get(runtime_id, 0)
abbrev pub or_zero : Option ℕ → ℕ
or_zero none = 0
or_zero (some n) = n

abbrev pub acquiring_of : Dict String ℕ → String → ℕ
acquiring_of counters runtime_id = or_zero (get runtime_id counters)

abbrev pub count_acquisition : String → Dict String ℕ → Dict String ℕ
count_acquisition runtime_id counters =
    put runtime_id (acquiring_of counters runtime_id + 1) counters

-- The counter goes when nothing is under way.
abbrev pub uncount_acquisition : String → Dict String ℕ → Dict String ℕ
uncount_acquisition runtime_id counters =
    let remaining = acquiring_of counters runtime_id - 1 in
    if ltb 0 remaining then put runtime_id remaining counters else pop runtime_id counters

abbrev pub check_unblocked : Bool → Result (Unit {0})
check_unblocked true =
    err (failure "RUNTIME_RETIRING" "runtime image is retiring and cannot acquire a sandbox" true)
check_unblocked false = ok tt

module _ {W : Type 0} where
  abbrev pub on_service {ℓ} : {A : Type ℓ} → Exec (Service W) A → Exec (Host W) A
  on_service = zoom (λ h. h.service) (λ s h. record h { service = s })

  abbrev pub on_pool {ℓ} : {A : Type ℓ} → Exec (Pool W) A → Exec (Host W) A
  on_pool = zoom (λ h. h.service.pool) (λ p h. record h { service = record h.service { pool = p } })

  abbrev pub on_lifecycle {ℓ} : {A : Type ℓ} → Exec (List LifecycleRow) A → Exec (Host W) A
  on_lifecycle = zoom (λ h. h.lifecycle) (λ rows h. record h { lifecycle = rows })

  -- The gate: what `acquire` does under the lock before it calls the pool.
  unfoldable pub enter : String → Exec (Host W) (Unit {0})
  enter runtime_id = do
    blocked ← gets (λ h. is_blocked_runtime runtime_id h.lifecycle)
    lift (check_unblocked blocked)
    modify (λ h. record h { acquiring = count_acquisition runtime_id h.acquiring })

  -- What it does after, in any case.
  unfoldable pub leave : String → Exec (Host W) (Unit {0})
  leave runtime_id =
      modify (λ h. record h { acquiring = uncount_acquisition runtime_id h.acquiring })

  unfoldable pub acquire : Backend W → String → OperatorRelease → SecurityPolicy → Exec (Host W) Ref
  acquire backend tenant rel policy = do
    enter rel.runtime.id
    finally (on_pool (Acquire.acquire backend rel tenant policy)) (leave rel.runtime.id)
