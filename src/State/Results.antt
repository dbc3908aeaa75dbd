-- ===== src/State/Results.antt =====
-- runner_engine/state.py: `_result_to_dict`, `_result_from_dict` and `_outcome_class`. Base64 is the
-- library's, a parameter.
use runner_engine.Prelude.{
  ℕ, ◌≡◌, ap, String, string_eq, false, Option, none, some, List, [], if◌then◌else◌, ◌==◌,
}
use runner_engine.Model.{RunResult}
use runner_engine.State.{ResultDict}

-- base64.b64encode and b64decode. What the code relies on, that the bytes which are stored are
-- decoded as they were, is a hypothesis where it matters.
pub record Base64 : Type 0 where
  pub encode : List ℕ → String
  pub decode : String → List ℕ

-- raw.get(key, default)
abbrev pub get_or {ℓ} : {A : Type ℓ} → Option A → A → A
get_or none d = d
get_or (some a) d = a

module _ (base64 : Base64) where
  unfoldable pub result_to_dict : RunResult → ResultDict
  result_to_dict r = record {
    status = r.status;
    relationship = some r.relationship;
    content_b64 = some (base64.encode r.content);
    attributes = some r.attributes;
    retryable = some r.retryable;
    error_code = some r.error_code;
    error_message = some r.error_message;
    worker_id = some r.worker_id;
    duration_ms = some r.duration_ms;
  }

  unfoldable pub result_from_dict : ResultDict → RunResult
  result_from_dict raw = record {
    status = raw.status;
    relationship = get_or raw.relationship "success";
    content = base64.decode (get_or raw.content_b64 "");
    attributes = get_or raw.attributes [];
    retryable = get_or raw.retryable false;
    error_code = get_or raw.error_code "";
    error_message = get_or raw.error_message "";
    worker_id = get_or raw.worker_id "";
    duration_ms = get_or raw.duration_ms 0;
  }

  -- A result whose content Base64 gives back as it was is read back from its JSON as it was.
  pub from_dict-to_dict :
      (r : RunResult)
      → base64.decode (base64.encode r.content) ≡ r.content
      → result_from_dict (result_to_dict r) ≡ r
  unfolding result_to_dict result_from_dict
  from_dict-to_dict r exact = ap (λ b. record r { content = b }) exact

unfoldable pub outcome_class : RunResult → String
outcome_class r =
    if r.status == "SUCCEEDED"
    then "SUCCESS"
    else if r.retryable
    then "RETRYABLE_FAILURE"
    else "USER_FAILURE"
