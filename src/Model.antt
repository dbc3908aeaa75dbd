-- ===== src/Model.antt =====
-- runner_engine/model.py: the dataclasses that the runner's components exchange. Bytes are lists of
-- numbers; times of the monotonic clock are milliseconds.
use runner_engine.Prelude.{ℕ, String, Bool, Option, List}
use runner_engine.Dict.{Dict}

-- The value of an attribute. A worker answers in JSON, and what it names need not be a text; another
-- value is kept as it is written.
pub data Value : Type 0 where
  text_value : String → Value
  other_value : String → Value

pub record RuntimeEnv : Type 0 where
  pub id : String
  pub image : String
  pub python : String

pub record OperatorRelease : Type 0 where
  pub id : String
  pub artifact_path : String
  pub artifact_sha256 : String
  pub runtime : RuntimeEnv
  pub entrypoint : String
  pub profile : String
  pub input_attributes : List String
  pub output_attributes : List String

pub record SecurityPolicy : Type 0 where
  pub name : String
  pub sandbox_cluster : String
  pub cpu : String
  pub memory : String
  pub max_timeout_ms : ℕ
  pub network_allow : List String
  pub reuse_sandbox : Bool

pub record Lease : Type 0 where
  pub id : String
  pub tenant_id : String
  pub project_id : String
  pub processor_id : String
  pub release_id : String
  pub expires_at_ms : ℕ

pub record RunRequest : Type 0 where
  pub tenant_id : String
  pub lease_id : String
  pub release_id : String
  pub invocation_id : String
  pub idempotency_key : String
  pub content : List ℕ
  pub attributes : Dict String Value
  pub parameters : Dict String Value
  pub timeout_ms : ℕ

pub record RunResult : Type 0 where
  pub status : String
  pub relationship : String
  pub content : List ℕ
  pub attributes : Dict String Value
  pub retryable : Bool
  pub error_code : String
  pub error_message : String
  pub worker_id : String
  pub duration_ms : ℕ

pub record Worker : Type 0 where
  pub id : String
  pub endpoint : String
  pub token : String
  pub tenant_id : String
  pub runtime_id : String
  pub profile : String
  pub backend_group : String
  pub created_monotonic : ℕ
  pub last_used_monotonic : ℕ
  pub installed_release_ids : List String
  pub sandbox_expires_monotonic : Option ℕ
  pub runs : ℕ
  pub healthy : Bool
  pub destroyed : Bool
  pub metadata : Dict String String

-- A `Worker` is a shared mutable object: a reference is its place in the store of `WorkerPool`.
abbrev pub Ref : Type 0
Ref = ℕ

pub record ActiveRun : Type 0 where
  pub tenant_id : String
  pub lease_id : String
  pub release_id : String
  pub worker : Ref
