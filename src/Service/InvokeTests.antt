-- ===== src/Service/InvokeTests.antt =====
-- Invocations over a backend that works.
use runner_engine.Prelude.{
  ℕ, String, ◌≡◌, refl, string_eq, nat_eq, true, false, none, [], ◌∷◌, arith,
}
use runner_engine.Errors.{Result, ok}
use runner_engine.Exec.{pure}
use runner_engine.Dict.{get, put, pop, restrict}
use runner_engine.Table.{find_where, count_where, update_where, exists_where, insert}
use runner_engine.Model.{
  text_value, other_value, OperatorRelease, SecurityPolicy, RunRequest, RunResult, Worker,
}
use runner_engine.Backend.{Backend}
use runner_engine.Pool.{destroy_all, release}
use runner_engine.Pool.Acquire
use runner_engine.Pool.Acquire.{acquire, take_idle, scan, create, prepare, ensure_release, conclude}
use runner_engine.Quota.{reserve_live}
use runner_engine.State.{Clocks}
use runner_engine.State.Claims.{judge, write_claim}
use runner_engine.State.Runs.{begin_run, finish_run, finish_rows}
use runner_engine.State.Begun.{counted}
use runner_engine.State.Leases.{new_lease, require_lease, check_lease}
use runner_engine.State.Ledger.{IsLedger}
use runner_engine.Service.{Service, filter_attributes, validate_attributes}
use runner_engine.Service.Request.{
  Context, Vetted, safe_result, keeps_worker, check_request, safe_request, claim_of, identity_of,
}
use runner_engine.Service.Invoke.{
  vet, begin, execute, attempt, take_worker, serve, finish, give_back, invoke,
}
use runner_engine.Service.Bounds.{Bounded, execute_bounds}
use runner_engine.Service.Settled.{Settled, invoke_settles}
use runner_engine.Service.Repeating.{invoke_again, at_times}

abbrev at : ℕ → Clocks
at t = record { now = t; db_now = t }

abbrev release_1 : OperatorRelease
release_1 = record {
  id = "op@1";
  artifact_path = "/op.tar.gz";
  artifact_sha256 = "00";
  runtime = record { id = "py311"; image = "img"; python = "3.11" };
  entrypoint = "op:run";
  profile = "standard";
  input_attributes = [];
  output_attributes = [];
}

abbrev policy : SecurityPolicy
policy = record {
  name = "standard";
  sandbox_cluster = "default";
  cpu = "1";
  memory = "1Gi";
  max_timeout_ms = 1000;
  network_allow = [];
  reuse_sandbox = true;
}

abbrev worker : Worker
worker = record {
  id = "w";
  endpoint = "http://sandbox";
  token = "secret";
  tenant_id = "t";
  runtime_id = "py311";
  profile = "standard";
  backend_group = "default";
  created_monotonic = 0;
  last_used_monotonic = 0;
  installed_release_ids = [];
  sandbox_expires_monotonic = none;
  runs = 0;
  healthy = true;
  destroyed = false;
  metadata = [];
}

abbrev answer_7 : RunResult
answer_7 = record {
  status = "SUCCEEDED";
  relationship = "success";
  content = 7 ∷ [];
  attributes = [];
  retryable = false;
  error_code = "";
  error_message = "";
  worker_id = "w";
  duration_ms = 3;
}

abbrev working : Backend (Unit {0})
working = record {
  monotonic = λ w. 0;
  create = λ tenant rel policy ttl. pure worker;
  renew = λ worker ttl. pure none;
  install = λ worker rel. pure tt;
  run = λ worker rel request deadline. pure answer_7;
  cancel = λ worker id. pure true;
  destroy = λ worker. pure tt;
  cleanup_managed = pure 0;
}

abbrev one_byte : String → ℕ
one_byte s = 1

abbrev libraries : Context
libraries = record {
  catalog = λ id. ok release_1;
  base64 = record { encode = λ c. "Bw=="; decode = λ s. 7 ∷ [] };
  utf8_length = one_byte;
  digest = λ i. "fingerprint";
  vetted_at = at 1;
  begun_at = at 2;
  ended_at = at 3;
}

abbrev request : RunRequest
request = record {
  tenant_id = "t";
  lease_id = "l";
  release_id = "op@1";
  invocation_id = "i";
  idempotency_key = "k";
  content = 5 ∷ [];
  attributes = [];
  parameters = [];
  timeout_ms = 500;
}

abbrev service : Service (Unit {0})
service = record {
  db = record {
    leases = new_lease (at 0) "l" "t" "p" "proc" "op@1" 1000 ∷ [];
    runs = [];
    idempotency_keys = [];
  };
  pool = record {
    config = record {
      idle_seconds = 10;
      orphan_ttl_seconds = 100;
      renew_before_seconds = 20;
      max_installed_releases = 2;
    };
    quota = record {
      max_creating = 1;
      max_live = 2;
      max_live_per_tenant = 2;
      creating = 0;
      live = 0;
      tenant_live = [];
    };
    workers = λ r. worker;
    next_ref = 0;
    idle = [];
    world = tt;
  };
  policies = ("standard", policy) ∷ [];
  lease_ttl_ms = 1000;
  idempotency_retention_ms = 1000;
  run_retention_ms = 1000;
  active = [];
}

service-IsLedger : IsLedger service.db
unfolding count_where find_where
service-IsLedger = record {
  unique_keys = λ n. omega arith;
  unique_runs = λ id. omega arith;
  claim_runs = λ n r f h. cc f;
  run_claimed = λ id r f h. cc f;
}

invoke_settles_example :
    Settled working libraries "r" [] service (invoke working libraries "r" request service).1
unfolding find_where
invoke_settles_example =
    invoke_settles working libraries "r" [] request service service-IsLedger refl

abbrev vetted : Vetted
vetted = record {
  lease = record {
    id = "l";
    tenant_id = "t";
    project_id = "p";
    processor_id = "proc";
    release_id = "op@1";
    expires_at_ms = 1000;
  };
  rel = release_1;
  policy = policy;
  request = request;
}

abbrev answered_once : Result RunResult × Service (Unit {0})
answered_once = invoke working libraries "r" request service

vets : (vet working libraries request service).0 ≡ ok vetted
unfolding vet require_lease check_lease find_where check_request validate_attributes
    filter_attributes get safe_request
vets = refl

answers :
    (answered_once.0 ≡ ok answer_7)
    × ((vet working (at_times libraries (at 4) (at 5) (at 6)) request answered_once.1).0
        ≡ ok vetted)
unfolding invoke vet begin require_lease check_lease find_where update_where count_where
    exists_where insert get put pop check_request validate_attributes filter_attributes safe_request
    claim_of identity_of begin_run judge write_claim execute attempt take_worker acquire take_idle
    scan create reserve_live Acquire.attempt prepare ensure_release conclude serve safe_result
    finish finish_run finish_rows give_back keeps_worker release destroy_all
answers = (refl, refl)

invoke_again_example :
    invoke working (at_times libraries (at 4) (at 5) (at 6)) "s" request answered_once.1 ≡ (
      ok answer_7,
      record answered_once.1 { db = counted (at 5) (claim_of libraries vetted) answered_once.1.db },
    )
unfolding find_where
invoke_again_example =
    invoke_again working libraries "r" "s" request vetted (at 4) (at 5) (at 6) service answer_7
      service-IsLedger refl refl vets answers.0 refl refl (omega arith) answers.1

-- The sandbox answers with an attribute that the release lists and one that it does not.
abbrev labelling : Backend (Unit {0})
labelling = record working {
  run = λ worker rel request deadline. pure (record answer_7 {
    attributes = ("label", text_value "cat") ∷ ("debug", other_value "[1]") ∷ [];
  });
}

abbrev labels : Vetted
labels = record vetted { rel = record release_1 { output_attributes = "label" ∷ [] } }

-- The tables after the claim.
abbrev begun_service : Service (Unit {0})
begun_service = (begin working libraries "r" labels service).1

execute_bounds_example :
    Bounded one_byte
      ("label" ∷ [])
      (record answer_7 { attributes = ("label", text_value "cat") ∷ [] })
unfolding begin begin_run judge write_claim execute attempt take_worker acquire take_idle scan
    create reserve_live Acquire.attempt prepare ensure_release conclude serve safe_result finish
    finish_run finish_rows give_back keeps_worker release destroy_all claim_of identity_of
    find_where update_where count_where exists_where insert get put pop validate_attributes
    filter_attributes restrict
execute_bounds_example = execute_bounds labelling libraries "r" labels begun_service _ refl
