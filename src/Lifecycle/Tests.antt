-- ===== src/Lifecycle/Tests.antt =====
-- Retirements over a pool with two idle workers of the runtime "py311".
use runner_engine.Prelude.{
  ℕ, ◌≡◌, ◌≢◌, refl, String, string_eq, nat_eq, true, none, some, [], ◌∷◌, arith,
}
use runner_engine.Errors.{ok, err, failure}
use runner_engine.Exec.{pure}
use runner_engine.Exec.Ends.{Ends}
use runner_engine.Dict.{get, put, pop}
use runner_engine.Table.{find_where, exists_where}
use runner_engine.Pool.{release, destroy, destroy_all, Pool}
use runner_engine.Pool.Acquire
use runner_engine.Pool.Acquire.{take_idle, scan, create, conclude, ensure_release}
use runner_engine.Quota.{reserve_live, release_live}
use runner_engine.Pool.Sweep.{retire_runtime, take_out, sweep, picked, kept}
use runner_engine.Pool.Tests.{good, rel, policy, two_idle, two_idle-Inv}
use runner_engine.Service.{Service}
use runner_engine.Lifecycle.{LifecycleRow, retiring, retired, begin_retirement}
use runner_engine.Lifecycle.Gate.{Host, enter, leave, acquire}
use runner_engine.Lifecycle.Controller.{
  Surroundings, runtime_image_status, begin_runtime_retirement, finalize_runtime_retirement,
}
use runner_engine.Lifecycle.History.{Step, Reach, IsConsistent, Reach-IsConsistent}
use runner_engine.Lifecycle.Retiring.{retired_for_good}
use runner_engine.Lifecycle.Draining.{
  begin_refuses, begin_clears, finalize_runtime_retirement_lem, Finalized, Kept, acquire_as_pool,
}

abbrev service : Pool ℕ → Service ℕ
service pool = record {
  db = record { leases = []; runs = []; idempotency_keys = [] };
  pool = pool;
  policies = [];
  lease_ttl_ms = 1000;
  idempotency_retention_ms = 1000;
  run_retention_ms = 1000;
  active = [];
}

abbrev host : Host ℕ
host = record { service = service two_idle; lifecycle = []; acquiring = [] }

-- Runtimes are named by their image, and no sandbox is listed.
abbrev surroundings : Surroundings ℕ
surroundings = record {
  runtime_id_for_image = λ image_ref. image_ref;
  db_now = 7;
  catalog = λ id. ok rel;
  release_dirs = "op@1" ∷ [];
  list_managed = λ runtime_id. pure [];
}

abbrev retired_row : LifecycleRow
retired_row = record {
  runtime_id = "py311";
  image_ref = "py311";
  state = retired;
  reason = "old";
  cleanup_error = none;
  updated_at = 1;
  retired_at = some 1;
}

abbrev retired_host : Host ℕ
retired_host = record host { lifecycle = retired_row ∷ [] }

abbrev entered : Host ℕ
entered = (enter "py311" host).1

abbrev begun : Host ℕ
begun = (begin_runtime_retirement surroundings good "py311" "old" entered).1

host-IsConsistent :
    IsConsistent good (λ image_ref. image_ref) (record { host = host; pending = [] })
unfolding get
host-IsConsistent = record { counts = λ id. refl; guarded = tt }

-- An acquisition passes the gate, the runtime begins to retire, and the acquisition ends.
Reach-IsConsistent_example :
    IsConsistent good
      (λ image_ref. image_ref)
      (record { host = (leave "py311" begun).1; pending = [] })
unfolding enter exists_where
Reach-IsConsistent_example =
    Reach-IsConsistent good (λ image_ref. image_ref) host-IsConsistent
      (Reach.next
        (Reach.next (Reach.next Reach.here (Step.enters "py311" refl))
          (Step.begins surroundings "py311" "old" refl))
        (Step.leaves "py311" (omega arith)))

retired_for_good_example :
    acquire good "t" rel policy
      (begin_runtime_retirement surroundings good "py311" "again" retired_host).1
    ≡ (
      err (
          failure "RUNTIME_RETIRING" "runtime image is retiring and cannot acquire a sandbox" true),
      (begin_runtime_retirement surroundings good "py311" "again" retired_host).1,
    )
unfolding find_where
retired_for_good_example =
    retired_for_good good (λ image_ref. image_ref) "py311"
      {s = record { host = retired_host; pending = [] }}
      {t = record {
        host = (begin_runtime_retirement surroundings good "py311" "again" retired_host).1;
        pending = [];
      }}
      "t" rel policy (retired_row, refl, refl)
      (Reach.next Reach.here (Step.begins surroundings "py311" "again" refl)) refl

abbrev begun_row : LifecycleRow
begun_row = record {
  runtime_id = "py311";
  image_ref = "py311";
  state = retiring;
  reason = "old";
  cleanup_error = none;
  updated_at = 7;
  retired_at = none;
}

begin_refuses_example :
    acquire good "t" rel policy (begin_runtime_retirement surroundings good "py311" "old" host).1
    ≡ (
      err (
          failure "RUNTIME_RETIRING" "runtime image is retiring and cannot acquire a sandbox" true),
      (begin_runtime_retirement surroundings good "py311" "old" host).1,
    )
unfolding begin_retirement exists_where find_where
begin_refuses_example =
    begin_refuses surroundings good "py311" "old" host begun_row "t" rel policy refl refl

begin_clears_example :
    ((begin_runtime_retirement surroundings good "py312" "old" host).1.service.pool.workers
      0).runtime_id
    ≢ "py312"
unfolding begin_runtime_retirement runtime_image_status begin_retirement exists_where find_where
    Acquire.acquire take_idle scan destroy_all destroy create Acquire.attempt ensure_release
    conclude reserve_live release release_live get put pop retire_runtime take_out sweep picked kept
begin_clears_example =
    begin_clears surroundings good "py312" "old" host
      (record begun_row { runtime_id = "py312"; image_ref = "py312" }) [] 0 refl refl two_idle-Inv
      (omega arith)

abbrev drained : Host ℕ
drained = record host {
  service = service (record two_idle { idle = [] });
  lifecycle = begun_row ∷ [];
}

finalize_runtime_retirement_lem_example :
    Ends
      (Finalized surroundings "py311" drained)
      (Kept surroundings "py311" drained)
      (finalize_runtime_retirement surroundings "py311" drained)
finalize_runtime_retirement_lem_example =
    finalize_runtime_retirement_lem surroundings "py311" drained

acquire_as_pool_example :
    let pooled = Acquire.acquire good rel "t" policy two_idle in
    let (r, h') = acquire good "t" rel policy host in
    (r ≡ pooled.0)
    × (h'.service ≡ service pooled.1)
    × (h'.lifecycle ≡ [])
    × ((runtime_id : String) → get runtime_id h'.acquiring ≡ get {V = ℕ} runtime_id [])
unfolding exists_where
acquire_as_pool_example = acquire_as_pool good "t" rel policy host [] refl host-IsConsistent.counts
