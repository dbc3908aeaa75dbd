-- ===== src/Service/Tests.antt =====
-- The service over a backend that cannot be reached: every call on a sandbox raises.
use runner_engine.Prelude.{some, ℕ, ◌≡◌, refl, String, string_eq, true, false, none, [], ◌∷◌, arith}
use runner_engine.Errors.{Result, Exn, ok, err, failure, exception}
use runner_engine.Exec.{pure, raise}
use runner_engine.Dict.{get}
use runner_engine.Table.{find_where, count_where, exists_where, insert}
use runner_engine.Model.{OperatorRelease, SecurityPolicy, Worker, ActiveRun, Lease}
use runner_engine.Backend.{Backend}
use runner_engine.Pool.{reset_after_restart}
use runner_engine.State.{Clocks, Db}
use runner_engine.State.Leases.{
  create_lease, require_lease, check_lease, new_lease, lease_of, purge_expired_leases,
}
use runner_engine.State.Runs.{reset_running, any_running_run, purge_expired_idempotency}
use runner_engine.Service.Granting.{require-acquire_lease}
use runner_engine.State.Ledger.{IsLedger}
use runner_engine.Service.{acquire_lease, is_known, Service, startup, cancel}
use runner_engine.Service.Laws.{startup_lem, cancel_retires}

abbrev at : ℕ → Clocks
at t = record { now = t; db_now = t }

abbrev gone : Exn
gone = exception "gone"

abbrev unreachable : Backend (Unit {0})
unreachable = record {
  monotonic = λ w. 0;
  create = λ tenant rel policy ttl. raise gone;
  renew = λ worker ttl. raise gone;
  install = λ worker rel. raise gone;
  run = λ worker rel request deadline. raise gone;
  cancel = λ worker id. raise gone;
  destroy = λ worker. raise gone;
  cleanup_managed = pure 3;
}

abbrev worker : Worker
worker = record {
  id = "w";
  endpoint = "http://sandbox";
  token = "secret";
  tenant_id = "t";
  runtime_id = "py311";
  profile = "standard";
  backend_group = "default";
  created_monotonic = 0;
  last_used_monotonic = 0;
  installed_release_ids = [];
  sandbox_expires_monotonic = none;
  runs = 0;
  healthy = true;
  destroyed = false;
  metadata = [];
}

abbrev running : ActiveRun
running = record { tenant_id = "t"; lease_id = "l"; release_id = "op@1"; worker = 0 }

abbrev empty_db : Db
empty_db = record { leases = []; runs = []; idempotency_keys = [] }

-- One execution is active, under the lease l of the tenant t; the lease m is t's too.
abbrev service : Service (Unit {0})
service = record {
  db = record empty_db {
    leases =
        new_lease (at 0) "l" "t" "p" "proc" "op@1" 1000
        ∷ new_lease (at 0) "m" "t" "p" "proc" "op@1" 1000
        ∷ [];
  };
  pool = record {
    config = record {
      idle_seconds = 10;
      orphan_ttl_seconds = 100;
      renew_before_seconds = 20;
      max_installed_releases = 2;
    };
    quota = record {
      max_creating = 1;
      max_live = 2;
      max_live_per_tenant = 2;
      creating = 0;
      live = 1;
      tenant_live = ("t", 1) ∷ [];
    };
    workers = λ r. worker;
    next_ref = 1;
    idle = [];
    world = tt;
  };
  policies = [];
  lease_ttl_ms = 1000;
  idempotency_retention_ms = 1000;
  run_retention_ms = 1000;
  active = ("i", running) ∷ [];
}

service-IsLedger : IsLedger service.db
unfolding count_where find_where
service-IsLedger = record {
  unique_keys = λ n. omega arith;
  unique_runs = λ id. omega arith;
  claim_runs = λ n r f h. cc f;
  run_claimed = λ id r f h. cc f;
}

startup_lem_example :
    ((startup unreachable (at 5) service).1.pool.idle ≡ [])
    × (count_where any_running_run (startup unreachable (at 5) service).1.db.runs ≡ 0)
    × IsLedger (startup unreachable (at 5) service).1.db
unfolding startup reset_after_restart reset_running purge_expired_leases purge_expired_idempotency
startup_lem_example = startup_lem unreachable (at 5) service 3 refl service-IsLedger

abbrev lease : String → Lease
lease id = lease_of (new_lease (at 0) id "t" "p" "proc" "op@1" 1000)

cancel_retires_example :
    let s' = (cancel unreachable (at 5) "t" "l" "i" service).1 in
    ((cancel unreachable (at 5) "t" "l" "i" service).0 ≡ err (failure "CANCEL_FAILED" "gone" true))
    × ((s'.pool.workers 0).destroyed ≡ true)
    × ((s'.pool.workers 0).healthy ≡ false)
    × (s'.active ≡ service.active)
unfolding require_lease check_lease find_where get
cancel_retires_example =
    cancel_retires unreachable (at 5) "t" "l" "i" service (lease "l") refl running refl gone refl
      refl refl

abbrev policy : SecurityPolicy
policy = record {
  name = "standard";
  sandbox_cluster = "default";
  cpu = "1";
  memory = "1Gi";
  max_timeout_ms = 1000;
  network_allow = [];
  reuse_sandbox = true;
}

abbrev one_release : String → Result OperatorRelease
one_release id = ok (record {
  id = id;
  artifact_path = "/op.tar.gz";
  artifact_sha256 = "00";
  runtime = record { id = "py311"; image = "img"; python = "3.11" };
  entrypoint = "op:run";
  profile = "standard";
  input_attributes = [];
  output_attributes = [];
})

abbrev with_policy : Service (Unit {0})
with_policy = record service { policies = ("standard", policy) ∷ [] }

abbrev granting : Result Lease × Service (Unit {0})
granting = acquire_lease unreachable one_release (at 0) "n" "t" "p" "proc" "op@1" with_policy

require-acquire_lease_example :
    (release : OperatorRelease) × (one_release "op@1" ≡ ok release)
    × (is_known (get release.profile with_policy.policies) ≡ true)
    × ((require_lease (at 9) "n" "t" (some "op@1") granting.1.db).0 ≡ ok (lease "n"))
unfolding acquire_lease create_lease insert exists_where find_where get
require-acquire_lease_example =
    require-acquire_lease unreachable one_release (at 0) (at 9) "n" "t" "p" "proc" "op@1"
      with_policy refl (lease "n") refl (omega arith)
