-- ===== src/State/Runs.antt =====
-- runner_engine/state.py: `begin_run`, `finish_run`, `abandon_run`, `reset_running` and the purges.
use runner_engine.Prelude.{
  ℕ, ◌+◌, String, string_eq, Bool, true, false, not, Option, none, some, List, leb, ltb, nat_beq,
  if◌then◌else◌, ◌==◌,
}
use runner_engine.Errors.{ok, err, failure}
use runner_engine.Exec.{Exec, gets, modify, lift, ◌>>=◌, transaction}
use runner_engine.Table.{find_where, update_where, delete_where, count_where, exists_where}
use runner_engine.Model.{RunResult}
use runner_engine.State.{Clocks, RunRow, KeyRow, RunState, KeyState, Db}
use runner_engine.State.Leases.{milliseconds}
use runner_engine.State.Results.{Base64, result_to_dict, outcome_class, get_or}
use runner_engine.State.Claims.{
  Claim, RunClaim, KeyName, name_eq, name, name_of_claim, names_key, has_run_id, run_is_running,
  key_is_running, is_after, judge, write_claim,
}

module _ (base64 : Base64) where
  unfoldable pub begin_run : Clocks → String → Claim → Exec Db RunClaim
  begin_run c run_id q = transaction (do
    row ← gets (λ db. find_where (names_key (name_of_claim q)) db.idempotency_keys)
    verdict ← lift (judge base64 c.now q.request_fingerprint row)
    write_claim c run_id q verdict)

-- WHERE run_id = … AND state = 'RUNNING'
abbrev pub is_running_run : String → RunRow → Bool
is_running_run run_id row = if has_run_id run_id row then run_is_running row.state else false

-- WHERE … AND current_run_id = … AND state = 'RUNNING'
abbrev pub is_running_claim : KeyName → String → KeyRow → Bool
is_running_claim n run_id row =
    if names_key n row
    then if row.current_run_id == run_id then key_is_running row.state else false
    else false

-- When the stored result may no longer be replayed.
abbrev pub replay_until : Clocks → RunResult → ℕ → ℕ
replay_until c result retention_ms =
    if not result.retryable then c.now + milliseconds retention_ms else c.now

abbrev pub finished_run : Clocks → RunResult → ℕ → RunRow → RunRow
finished_run c result retention_ms row = record row {
  state = RunState.done;
  outcome_class = some (outcome_class result);
  status = some result.status;
  relationship = some result.relationship;
  retryable = some result.retryable;
  error_code = some result.error_code;
  error_message = some result.error_message;
  worker_id = some result.worker_id;
  duration_ms = some result.duration_ms;
  replayable = not result.retryable;
  idempotency_expires_at = some (replay_until c result retention_ms);
  completed_at = some c.db_now;
  updated_at = c.db_now;
}

module _ (base64 : Base64) where
  abbrev pub finished_key : Clocks → RunResult → ℕ → KeyRow → KeyRow
  finished_key c result retention_ms row = record row {
    state = KeyState.done;
    replayable = not result.retryable;
    result_json = some (result_to_dict base64 result);
    expires_at = some (replay_until c result retention_ms);
    updated_at = c.db_now;
  }

  -- The two updates, each of which must find exactly one row.
  unfoldable pub finish_rows :
      Clocks → String → String → String → String → RunResult → ℕ → Exec Db (Unit {0})
  finish_rows c run_id key tenant_id release_id result retention_ms db =
      let claimed = is_running_claim (name tenant_id release_id key) run_id in
      if not (nat_beq (count_where (is_running_run run_id) db.runs) 1)
      then (
        err (failure "RUN_STATE_LOST" "RUNNING audit row disappeared before completion" true),
        record db {
          runs = update_where (is_running_run run_id) (finished_run c result retention_ms) db.runs;
        },
      )
      else (
        if not (nat_beq (count_where claimed db.idempotency_keys) 1)
            then err (
                failure "IDEMPOTENCY_STATE_LOST" "idempotency claim disappeared before completion"
                  true)
            else ok tt,
        record db {
          runs = update_where (is_running_run run_id) (finished_run c result retention_ms) db.runs;
          idempotency_keys =
              update_where claimed (finished_key c result retention_ms) db.idempotency_keys;
        },
      )

  unfoldable pub finish_run :
      Clocks → String → String → String → String → RunResult → ℕ → Exec Db (Unit {0})
  finish_run c run_id key tenant_id release_id result retention_ms =
      transaction (finish_rows c run_id key tenant_id release_id result retention_ms)

-- The audit row of an execution that did not end by itself.
abbrev pub abandoned_run : Clocks → String → String → RunRow → RunRow
abandoned_run c error_code error_message row = record row {
  state = RunState.abandoned;
  outcome_class = some "INFRASTRUCTURE_FAILURE";
  status = some "FAILED";
  relationship = some "retry";
  retryable = some true;
  error_code = some error_code;
  error_message = some error_message;
  replayable = false;
  idempotency_expires_at = some c.db_now;
  completed_at = some c.db_now;
  updated_at = c.db_now;
}

unfoldable pub abandon_run :
    Clocks → String → String → String → String → String → String → Exec Db (Unit {0})
abandon_run c run_id key tenant_id release_id error_code error_message = transaction (
    modify λ db. record db {
      runs =
          update_where (is_running_run run_id) (abandoned_run c error_code error_message) db.runs;
      idempotency_keys =
          delete_where (is_running_claim (name tenant_id release_id key) run_id)
            db.idempotency_keys;
    })

abbrev pub any_running_run : RunRow → Bool
any_running_run row = run_is_running row.state

abbrev pub any_running_key : KeyRow → Bool
any_running_key row = key_is_running row.state

unfoldable pub reset_running : Clocks → Exec Db ℕ
reset_running c db = (
  ok (count_where any_running_run db.runs),
  record db {
    runs =
        update_where any_running_run
          (abandoned_run c "RUNNER_RESTART" "Runner restarted while invocation was active") db.runs;
    idempotency_keys = delete_where any_running_key db.idempotency_keys;
  },
)

-- expires_at IS NOT NULL AND expires_at <= t
abbrev pub is_over : Option ℕ → ℕ → Bool
is_over none t = false
is_over (some e) t = leb e t

abbrev pub key_over : ℕ → KeyRow → Bool
key_over t row = if key_is_running row.state then false else is_over row.expires_at t

unfoldable pub purge_expired_idempotency : Clocks → Exec Db ℕ
purge_expired_idempotency c db = (
  ok (count_where (key_over c.db_now) db.idempotency_keys),
  record db { idempotency_keys = delete_where (key_over c.db_now) db.idempotency_keys },
)

-- i.current_run_id = r.run_id AND i.state = 'DONE' AND i.expires_at > now()
abbrev pub keeps_run : ℕ → String → KeyRow → Bool
keeps_run t run_id row =
    if row.current_run_id == run_id
    then if key_is_running row.state then false else is_after row.expires_at t
    else false

abbrev pub run_is_old : Clocks → ℕ → List KeyRow → RunRow → Bool
run_is_old c older_than_ms keys row =
    if run_is_running row.state
    then false
    else if ltb (get_or row.completed_at row.updated_at + milliseconds older_than_ms) c.now
    then not (exists_where (keeps_run c.db_now row.run_id) keys)
    else false

-- `cutoff` is `now - older_than_ms`; the comparison is written with the sum.
unfoldable pub purge_old_runs : Clocks → ℕ → Exec Db ℕ
purge_old_runs c older_than_ms db = if leb older_than_ms 0 then (ok 0, db) else (
  ok (count_where (run_is_old c older_than_ms db.idempotency_keys) db.runs),
  record db { runs = delete_where (run_is_old c older_than_ms db.idempotency_keys) db.runs },
)
