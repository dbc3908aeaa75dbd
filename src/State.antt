-- ===== src/State.antt =====
-- runner_engine/state.py, `RunnerDB`: the tables runner.leases, runner.runs and
-- runner.idempotency_keys. Times are microseconds of the clock that the call reads.
pub mod Leases
pub mod LeaseLaws
pub mod LeaseRenewals
pub mod LeaseEnds
pub mod Results
pub mod Claims
pub mod Runs
pub mod Ledger
pub mod Settling
pub mod Endings
pub mod Beginning
pub mod Starting
pub mod Begun
pub mod Replaying
pub mod Finishing
pub mod Answering
pub mod Restarts
pub mod History
pub mod Tests
use runner_engine.Prelude.{ℕ, ◌/◌, String, Bool, List, Option}
use runner_engine.Dict.{Dict}
use runner_engine.Model.{Value}

-- The two clocks of a call: `datetime.now(timezone.utc)`, and `now()` of the database, which
-- PostgreSQL fixes when the transaction begins.
pub record Clocks : Type 0 where
  pub now : ℕ
  pub db_now : ℕ

-- int(value.timestamp() * 1000), without the rounding of the product of floats, which can make the
-- result one less.
abbrev pub epoch_ms : ℕ → ℕ
epoch_ms t = t / 1000

pub record LeaseRow : Type 0 where
  pub id : String
  pub tenant_id : String
  pub project_id : String
  pub processor_id : String
  pub release_id : String
  pub expires_at : ℕ
  pub updated_at : ℕ

pub data RunState : Type 0 where
  running done abandoned : RunState

pub record RunRow : Type 0 where
  pub run_id : String
  pub tenant_id : String
  pub project_id : String
  pub processor_id : String
  pub release_id : String
  pub lease_id : String
  pub invocation_id : String
  pub idempotency_key : String
  pub request_fingerprint : String
  pub state : RunState
  pub outcome_class : Option String
  pub status : Option String
  pub relationship : Option String
  pub retryable : Option Bool
  pub error_code : Option String
  pub error_message : Option String
  pub worker_id : Option String
  pub duration_ms : Option ℕ
  pub replayable : Bool
  pub idempotency_expires_at : Option ℕ
  pub started_at : ℕ
  pub completed_at : Option ℕ
  pub updated_at : ℕ

-- The JSON object of a result: `_result_from_dict` has a default for every field but `status`.
pub record ResultDict : Type 0 where
  pub status : String
  pub relationship : Option String
  pub content_b64 : Option String
  pub attributes : Option (Dict String Value)
  pub retryable : Option Bool
  pub error_code : Option String
  pub error_message : Option String
  pub worker_id : Option String
  pub duration_ms : Option ℕ

-- The states of a claim are RUNNING and DONE.
pub data KeyState : Type 0 where
  running done : KeyState

pub record KeyRow : Type 0 where
  pub tenant_id : String
  pub release_id : String
  pub idempotency_key : String
  pub request_fingerprint : String
  pub state : KeyState
  pub current_run_id : String
  pub lease_id : String
  pub invocation_id : String
  pub replayable : Bool
  pub result_json : Option ResultDict
  pub expires_at : Option ℕ
  pub replay_count : ℕ
  pub last_replayed_at : Option ℕ
  pub updated_at : ℕ

pub record Db : Type 0 where
  pub leases : List LeaseRow
  pub runs : List RunRow
  pub idempotency_keys : List KeyRow
