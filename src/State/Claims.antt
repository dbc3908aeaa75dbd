-- ===== src/State/Claims.antt =====
-- runner_engine/state.py: executions and the claims on their idempotency keys. A call of the program
-- is one transaction; a transaction whose block raises leaves the tables as they were.
use runner_engine.Prelude.{
  ℕ, ◌+◌, String, string_eq, Bool, true, false, not, ◌&&◌, Option, none, some, List, ltb,
  if◌then◌else◌, ◌==◌, HasEq, ◌≡◌, ◌↔◌, arith,
}
use runner_engine.Errors.{Result, ok, err, failure}
use runner_engine.Exec.{Exec, pure, modify, ◌>>◌, zoom}
use runner_engine.Table.{update_where, insert}
use runner_engine.Model.{RunResult}
use runner_engine.State.{Clocks, RunRow, KeyRow, RunState, KeyState, Db}
use runner_engine.State.Results.{Base64, result_from_dict}

-- What `begin_run` is asked for.
pub record Claim : Type 0 where
  pub key : String
  pub tenant_id : String
  pub project_id : String
  pub processor_id : String
  pub lease_id : String
  pub release_id : String
  pub invocation_id : String
  pub request_fingerprint : String

pub record RunClaim : Type 0 where
  pub run_id : Option String
  pub cached_result : Option RunResult

-- The primary key of runner.idempotency_keys.
pub record KeyName : Type 0 where
  pub tenant_id : String
  pub release_id : String
  pub idempotency_key : String

abbrev pub name_beq : KeyName → KeyName → Bool
name_beq a b =
    a.tenant_id == b.tenant_id
    && (a.release_id == b.release_id && a.idempotency_key == b.idempotency_key)

pub name_beq_iff : (a b : KeyName) → (name_beq a b ≡ true) ↔ (a ≡ b)
name_beq_iff a b = ground (
  arith,
  string_eq.is_same_iff a.tenant_id b.tenant_id,
  string_eq.is_same_iff a.release_id b.release_id,
  string_eq.is_same_iff a.idempotency_key b.idempotency_key,
)

instance abbrev pub name_eq : HasEq KeyName
name_eq = record { is_same = name_beq; is_same_iff = name_beq_iff }

abbrev pub name : String → String → String → KeyName
name tenant_id release_id key = record {
  tenant_id = tenant_id;
  release_id = release_id;
  idempotency_key = key;
}

abbrev pub name_of : KeyRow → KeyName
name_of row = name row.tenant_id row.release_id row.idempotency_key

abbrev pub name_of_run : RunRow → KeyName
name_of_run row = name row.tenant_id row.release_id row.idempotency_key

abbrev pub name_of_claim : Claim → KeyName
name_of_claim q = name q.tenant_id q.release_id q.key

-- WHERE tenant_id = … AND release_id = … AND idempotency_key = …
abbrev pub names_key : KeyName → KeyRow → Bool
names_key n row = name_of row == n

abbrev pub has_run_id : String → RunRow → Bool
has_run_id run_id row = row.run_id == run_id

abbrev pub run_is_running : RunState → Bool
run_is_running RunState.running = true
run_is_running RunState.done = false
run_is_running RunState.abandoned = false

abbrev pub key_is_running : KeyState → Bool
key_is_running KeyState.running = true
key_is_running KeyState.done = false

abbrev pub is_some {ℓ} : {A : Type ℓ} → Option A → Bool
is_some none = false
is_some (some a) = true

-- expires_at > now, false for NULL
abbrev pub is_after : Option ℕ → ℕ → Bool
is_after none t = false
is_after (some e) t = ltb t e

abbrev pub on_runs {ℓ} : {A : Type ℓ} → Exec (List RunRow) A → Exec Db A
on_runs = zoom (λ db. db.runs) (λ rows db. record db { runs = rows })

abbrev pub on_keys {ℓ} : {A : Type ℓ} → Exec (List KeyRow) A → Exec Db A
on_keys = zoom (λ db. db.idempotency_keys) (λ rows db. record db { idempotency_keys = rows })

abbrev pub new_key : Clocks → String → Claim → KeyRow
new_key c run_id q = record {
  tenant_id = q.tenant_id;
  release_id = q.release_id;
  idempotency_key = q.key;
  request_fingerprint = q.request_fingerprint;
  state = KeyState.running;
  current_run_id = run_id;
  lease_id = q.lease_id;
  invocation_id = q.invocation_id;
  replayable = false;
  result_json = none;
  expires_at = none;
  replay_count = 0;
  last_replayed_at = none;
  updated_at = c.db_now;
}

abbrev pub reclaimed : Clocks → String → Claim → KeyRow → KeyRow
reclaimed c run_id q row = record row {
  state = KeyState.running;
  current_run_id = run_id;
  lease_id = q.lease_id;
  invocation_id = q.invocation_id;
  replayable = false;
  result_json = none;
  expires_at = none;
  updated_at = c.db_now;
}

abbrev pub new_run : Clocks → String → Claim → RunRow
new_run c run_id q = record {
  run_id = run_id;
  tenant_id = q.tenant_id;
  project_id = q.project_id;
  processor_id = q.processor_id;
  release_id = q.release_id;
  lease_id = q.lease_id;
  invocation_id = q.invocation_id;
  idempotency_key = q.key;
  request_fingerprint = q.request_fingerprint;
  state = RunState.running;
  outcome_class = none;
  status = none;
  relationship = none;
  retryable = none;
  error_code = none;
  error_message = none;
  worker_id = none;
  duration_ms = none;
  replayable = false;
  idempotency_expires_at = none;
  started_at = c.db_now;
  completed_at = none;
  updated_at = c.db_now;
}

-- The claim is new, is taken again, or is answered from the cache.
pub data Verdict : Type 0 where
  fresh again : Verdict
  replay : RunResult → Verdict

module _ (base64 : Base64) where
  -- The cached result, if `cache_valid`.
  unfoldable pub cached : ℕ → KeyRow → Option RunResult
  cached now row = elim row.result_json [
    | none ↦ none
    | some raw ↦
        if not (key_is_running row.state) && (row.replayable && is_after row.expires_at now)
        then some (result_from_dict base64 raw)
        else none
  ]

  abbrev reuse_or_replay : Option RunResult → Verdict
  reuse_or_replay none = again
  reuse_or_replay (some r) = replay r

  -- The decisions of `begin_run` on the row that it locks.
  unfoldable pub judge : ℕ → String → Option KeyRow → Result Verdict
  judge now request_fingerprint none = ok fresh
  judge now request_fingerprint (some row) =
      if not (row.request_fingerprint == request_fingerprint)
      then err (
          failure "IDEMPOTENCY_CONFLICT" "idempotency key was reused for different request content"
            false)
      else if key_is_running row.state
      then err (failure "RUN_IN_PROGRESS" "same logical request is already running" true)
      else ok (reuse_or_replay (cached now row))

abbrev pub count_replay : Clocks → KeyRow → KeyRow
count_replay c row = record row {
  replay_count = row.replay_count + 1;
  last_replayed_at = some c.db_now;
  updated_at = c.db_now;
}

-- The writes of `begin_run`; `run_id` is the UUID that the call draws.
unfoldable pub write_claim : Clocks → String → Claim → Verdict → Exec Db RunClaim
write_claim c run_id q (replay r) = do
  modify (λ db. record db {
    idempotency_keys =
        update_where (names_key (name_of_claim q)) (count_replay c) db.idempotency_keys;
  })
  pure (record { run_id = none; cached_result = some r })
write_claim c run_id q fresh = do
  on_keys (insert (names_key (name_of_claim q)) (new_key c run_id q))
  on_runs (insert (has_run_id run_id) (new_run c run_id q))
  pure (record { run_id = some run_id; cached_result = none })
write_claim c run_id q again = do
  modify (λ db. record db {
    idempotency_keys =
        update_where (names_key (name_of_claim q)) (reclaimed c run_id q) db.idempotency_keys;
  })
  on_runs (insert (has_run_id run_id) (new_run c run_id q))
  pure (record { run_id = some run_id; cached_result = none })
