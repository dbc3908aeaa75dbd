-- ===== src/Quota.antt =====
-- runner_engine/quota.py: the limits on live sandboxes, in all and for each tenant. A call is taken
-- at the moment when it holds the lock; waiting for the creation semaphore is not modelled.
pub mod Slots
pub mod Refines
pub mod Tests
use runner_engine.Prelude.{
  string_eq, ℕ, ◌+◌, ◌-◌, min, String, Bool, true, false, Option, none, some, [], leb, nat_beq,
  if◌then◌else◌,
}
use runner_engine.Errors.{Result, ok, err, exception, failure}
use runner_engine.Exec.{Exec, pure, raise}
use runner_engine.Dict.{Dict, get, put, pop}

pub record Quota : Type 0 where
  pub max_creating : ℕ
  pub max_live : ℕ
  pub max_live_per_tenant : ℕ
  pub creating : ℕ
  pub live : ℕ
  pub tenant_live : Dict String ℕ

unfoldable pub init : ℕ → ℕ → ℕ → Result Quota
init max_creating max_live max_live_per_tenant =
    if leb (min (min max_creating max_live) max_live_per_tenant) 0
    then err (exception "quota values must be positive")
    else ok (record {
      max_creating = max_creating;
      max_live = max_live;
      max_live_per_tenant = max_live_per_tenant;
      creating = 0;
      live = 0;
      tenant_live = [];
    })

abbrev or_zero : Option ℕ → ℕ
or_zero none = 0
or_zero (some n) = n

-- self._tenant_live.get(tenant_id, 0)
abbrev pub tenant_count : Quota → String → ℕ
tenant_count q tenant = or_zero (get tenant q.tenant_live)

unfoldable pub reserve_live : String → Exec Quota (Unit {0})
reserve_live tenant q =
    let count = tenant_count q tenant in
    if leb q.max_live q.live
    then (err (failure "GLOBAL_SANDBOX_QUOTA" "global live-sandbox quota reached" true), q)
    else if leb q.max_live_per_tenant count
    then (err (failure "TENANT_SANDBOX_QUOTA" "tenant live-sandbox quota reached" true), q)
    else (ok tt, record q { live = q.live + 1; tenant_live = put tenant (count + 1) q.tenant_live })

unfoldable pub release_live : String → Exec Quota (Unit {0})
release_live tenant q =
    let count = tenant_count q tenant in
    if leb count 0 then (ok tt, q) else (
      ok tt,
      record q {
        live = q.live - 1;
        tenant_live =
            if nat_beq count 1
            then pop tenant q.tenant_live
            else put tenant (count - 1) q.tenant_live;
      },
    )

-- The two ends of `creation_slot`.
abbrev pub enter_creation : Quota → Quota
enter_creation q = record q { creating = q.creating + 1 }

abbrev pub leave_creation : Quota → Quota
leave_creation q = record q { creating = q.creating - 1 }
