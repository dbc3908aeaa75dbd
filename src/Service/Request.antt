-- ===== src/Service/Request.antt =====
-- runner_engine/service.py, `RunnerService.invoke`: the tests and values that need no service. Hashing
-- with JSON is an argument, as are the catalog, Base64 and the length in UTF-8.
use runner_engine.Prelude.{
  ℕ, max, min, String, string_eq, Bool, false, ◌||◌, Option, none, some, List, [], ◌∷◌, ltb, length,
  contains, if◌then◌else◌, ◌==◌,
}
use Prim.Native.String.{◌++◌}
use runner_engine.Errors.{Result, ok, err, failure}
use runner_engine.Dict.{Dict}
use runner_engine.Model.{Value, OperatorRelease, SecurityPolicy, Lease, RunRequest, RunResult}
use runner_engine.State.{Clocks}
use runner_engine.State.Results.{Base64}
use runner_engine.State.Claims.{Claim}
use runner_engine.Service.{filter_attributes, validate_attributes}

abbrev pub max_inline_bytes : ℕ
max_inline_bytes = 8_388_608

-- What `_request_fingerprint` hashes.
pub record Identity : Type 0 where
  pub release_id : String
  pub content : List ℕ
  pub attributes : Dict String Value
  pub parameters : Dict String Value
  pub timeout_ms : ℕ

unfoldable pub identity_of : RunRequest → Identity
identity_of request = record {
  release_id = request.release_id;
  content = request.content;
  attributes = request.attributes;
  parameters = request.parameters;
  timeout_ms = request.timeout_ms;
}

-- The libraries and components that an invocation calls, and the readings of its clocks.
pub record Context : Type 0 where
  pub catalog : String → Result OperatorRelease
  pub base64 : Base64
  pub utf8_length : String → ℕ
  pub digest : Identity → String
  pub vetted_at : Clocks
  pub begun_at : Clocks
  pub ended_at : Clocks

unfoldable pub check_request : RunRequest → Result (Unit {0})
check_request request =
    if ltb max_inline_bytes (length request.content)
    then err (failure "INLINE_CONTENT_TOO_LARGE" "inline content exceeds 8 MiB" false)
    else if request.idempotency_key == ""
    then err (failure "IDEMPOTENCY_REQUIRED" "idempotency_key is required" false)
    else ok tt

-- self.policies[release.profile]
abbrev pub policy_or_unknown : String → Option SecurityPolicy → Result SecurityPolicy
policy_or_unknown profile (some policy) = ok policy
policy_or_unknown profile none =
    err (failure "UNKNOWN_SECURITY_POLICY" ("unknown profile " ++ profile) false)

unfoldable pub safe_request : OperatorRelease → SecurityPolicy → RunRequest → RunRequest
safe_request rel policy request = record request {
  attributes = filter_attributes request.attributes rel.input_attributes;
  timeout_ms = min (max 1 request.timeout_ms) policy.max_timeout_ms;
}

-- The locals of `invoke` once the request is found good.
pub record Vetted : Type 0 where
  pub lease : Lease
  pub rel : OperatorRelease
  pub policy : SecurityPolicy
  pub request : RunRequest

unfoldable pub claim_of : Context → Vetted → Claim
claim_of x v = record {
  key = v.request.idempotency_key;
  tenant_id = v.request.tenant_id;
  project_id = v.lease.project_id;
  processor_id = v.lease.processor_id;
  lease_id = v.request.lease_id;
  release_id = v.request.release_id;
  invocation_id = v.request.invocation_id;
  request_fingerprint = x.digest (identity_of v.request);
}

-- if len(result.content) > MAX_INLINE_BYTES
abbrev pub check_output : RunResult → Result (Unit {0})
check_output result =
    if ltb max_inline_bytes (length result.content)
    then err (failure "OUTPUT_TOO_LARGE" "operator output exceeds 8 MiB" false)
    else ok tt

-- What the operator may answer.
unfoldable pub safe_result : (String → ℕ) → OperatorRelease → RunResult → Result RunResult
safe_result utf8_length rel result =
    let safe = filter_attributes result.attributes rel.output_attributes in
    elim (validate_attributes utf8_length safe) [
      | err e ↦ err e
      | ok u ↦ elim (check_output result) [
        | err e ↦ err e
        | ok u' ↦ ok (record result { attributes = safe })
      ]
    ]

abbrev pub reusable_errors : List String
reusable_errors =
    "TIMEOUT" ∷ "CANCELLED" ∷ "CPU_LIMIT" ∷ "USER_EXCEPTION" ∷ "USER_IMPORT_ERROR"
    ∷ "ENTRYPOINT_NOT_FOUND" ∷ "INVALID_USER_RESULT" ∷ "USER_PROCESS_EXITED"
    ∷ "USER_PROCESS_SIGNALED" ∷ "OUTPUT_LIMIT" ∷ "LOG_LIMIT" ∷ "CHILD_PROTOCOL_ERROR"
    ∷ "INVALID_CHILD_RESPONSE" ∷ "OPERATOR_REPORTED_FAILURE" ∷ []

-- result.status == "SUCCEEDED" or result.error_code in reusable_errors
unfoldable pub keeps_worker : RunResult → Bool
keeps_worker result = result.status == "SUCCEEDED" || contains result.error_code reusable_errors
