-- ===== src/State/Tests.antt =====
-- Leases and executions on concrete tables.
use runner_engine.Prelude.{
  ℕ, ◌+◌, ◌<◌, ◌≡◌, ◌≢◌, ◌⊎◌, ◌↔◌, refl, String, string_eq, Bool, true, false, [], ◌∷◌, Option,
  none, some, arith, leb, if◌then◌else◌,
}
use runner_engine.Errors.{ok, err, failure}
use runner_engine.Table.{find_where, update_where, count_where, exists_where, insert}
use runner_engine.Model.{RunResult, Lease}
use runner_engine.State.{Clocks, LeaseRow, RunRow, RunState, KeyRow, KeyState, Db}
use runner_engine.State.Leases.{
  create_lease, require_lease, check_lease, renew_lease, delete_lease, purge_expired_leases,
  new_lease, lease_of, extend, milliseconds,
}
use runner_engine.State.LeaseLaws.{
  lease_row, UniqueLeases, Grants, require_lease_iff, require-create_lease,
}
use runner_engine.State.LeaseRenewals.{require-renew_lease}
use runner_engine.State.LeaseEnds.{require-delete_lease, require-purge_expired_leases}
use runner_engine.State.Results.{Base64, result_to_dict, result_from_dict}
use runner_engine.State.Claims.{
  Claim, judge, write_claim, RunClaim, name, name_of_run, name_of_claim, KeyName, cached,
}
use runner_engine.State.Runs.{
  begin_run, finish_run, finish_rows, purge_expired_idempotency, purge_old_runs,
}
use runner_engine.State.History.{
  here, next, begins, finishes, purges_keys, purges_runs, Reach-IsLedger, Reach-running_once,
}
use runner_engine.State.Ledger.{IsLedger, key_row, run_row}
use runner_engine.Exec.Ends.{Ends}
use runner_engine.State.Finishing.{Runs, Ended, finish_run-Ends}
use runner_engine.State.Answering.{Replays, begin_run-Replays}
use runner_engine.State.Begun.{begin_run-IsLedger, counted}
use runner_engine.State.Replaying.{replay-finish_run, retry-finish_run}

abbrev at : ℕ → Clocks
at t = record { now = t; db_now = t }

abbrev empty_db : Db
empty_db = record { leases = []; runs = []; idempotency_keys = [] }

-- A lease of one second.
abbrev leased : Db
leased = (create_lease (at 0) "l" "t" "p" "proc" "op@1" 1000 empty_db).1

abbrev row : LeaseRow
row = new_lease (at 0) "l" "t" "p" "proc" "op@1" 1000

leased-UniqueLeases : UniqueLeases leased
unfolding create_lease insert exists_where count_where
leased-UniqueLeases id = ground arith

require_lease_iff_example :
    (require_lease (at 5) "l" "t" (some "op@1") leased ≡ (ok (lease_of row), leased)) ↔ (
      (r : LeaseRow) × (lease_row "l" leased ≡ some r)
      × Grants (at 5) "t" (some "op@1") r
      × (lease_of row ≡ lease_of r))
require_lease_iff_example = require_lease_iff (at 5) "l" "t" (some "op@1") leased (lease_of row)

require-create_lease_example :
    ((create_lease (at 0) "l" "t" "p" "proc" "op@1" 1000 empty_db).0 ≡ ok (lease_of row))
    × (require_lease (at 5) "l" "t" (some "op@1") leased ≡ (
      if leb (0 + milliseconds 1000) 5
          then err (failure "LEASE_EXPIRED" "lease expired" true)
          else ok (lease_of row),
      leased,
    ))
    × ((j : String) → j ≢ "l" → lease_row j leased ≡ lease_row j empty_db)
unfolding find_where
require-create_lease_example =
    require-create_lease (at 0) (at 5) "l" "t" "p" "proc" "op@1" 1000 empty_db refl

abbrev renewed : Db
renewed = (renew_lease (at 5) (at 6) "l" "t" 2000 leased).1

abbrev later_lease : Lease
later_lease = record (lease_of row) { expires_at_ms = 2000 }

require-renew_lease_example :
    ((r : LeaseRow) × (lease_row "l" leased ≡ some r)
      × (5 < r.expires_at)
      × (lease_row "l" renewed ≡ some (extend (at 6) (6 + milliseconds 2000) r))
      × (require_lease (at 9) "l" "t" none renewed ≡ (ok later_lease, renewed)))
    × ((j : String) → j ≢ "l" → lease_row j renewed ≡ lease_row j leased)
unfolding create_lease renew_lease require_lease check_lease insert exists_where find_where
require-renew_lease_example =
    require-renew_lease (at 5) (at 6) (at 9) "l" "t" 2000 leased later_lease refl (omega arith)

require-delete_lease_example :
    ((row.tenant_id ≡ "t")
      × ((delete_lease "l" "t" leased).0 ≡ ok tt)
      × ((require_lease (at 5) "l" "t" none (delete_lease "l" "t" leased).1).0
          ≡ err (failure "LEASE_UNKNOWN" "lease does not exist" true))
      × ((j : String) → j ≢ "l" → lease_row j (delete_lease "l" "t" leased).1 ≡ lease_row j leased))
    ⊎ ((row.tenant_id ≢ "t")
        × (delete_lease "l" "t" leased
            ≡ (err (failure "LEASE_FORBIDDEN" "lease belongs to another tenant" false), leased)))
unfolding create_lease insert exists_where find_where
require-delete_lease_example =
    require-delete_lease (at 5) "l" "t" "t" none leased row leased-UniqueLeases refl

require-purge_expired_leases_example :
    ((require_lease (at 9) "l" "t" none (purge_expired_leases (at 5) leased).1).0
      ≡ ok (lease_of row))
    ↔ ((require_lease (at 9) "l" "t" none leased).0 ≡ ok (lease_of row))
require-purge_expired_leases_example =
    require-purge_expired_leases (at 5) (at 9) "l" "t" none leased (lease_of row)
      leased-UniqueLeases (omega arith)

-- The encoding of two bytes.
abbrev base64 : Base64
base64 = record { encode = λ b. "aGk="; decode = λ s. 104 ∷ 105 ∷ [] }

abbrev result : Bool → RunResult
result retryable = record {
  status = if retryable then "FAILED" else "SUCCEEDED";
  relationship = "success";
  content = 104 ∷ 105 ∷ [];
  attributes = [];
  retryable = retryable;
  error_code = "";
  error_message = "";
  worker_id = "w";
  duration_ms = 7;
}

abbrev request : Claim
request = record {
  key = "k";
  tenant_id = "t";
  project_id = "p";
  processor_id = "proc";
  lease_id = "l";
  release_id = "op@1";
  invocation_id = "i";
  request_fingerprint = "f";
}

empty-IsLedger : IsLedger empty_db
unfolding count_where find_where
empty-IsLedger = record {
  unique_keys = λ n. omega arith;
  unique_runs = λ id. omega arith;
  claim_runs = λ n r f h. cc f;
  run_claimed = λ id r f h. cc f;
}

abbrev started : Db
started = (begin_run base64 (at 1) "r" request empty_db).1

started-IsLedger : IsLedger started
unfolding find_where
started-IsLedger = begin_run-IsLedger base64 (at 1) "r" request empty_db refl empty-IsLedger

abbrev run_id : String
run_id = "r"

Reach-running_once_example : run_id ≡ "r"
unfolding begin_run judge write_claim insert exists_where find_where
Reach-running_once_example =
    Reach-running_once base64 {db = empty_db} {db' = started} run_id "r" _ _ refl refl
      (next here (begins (at 1) "r" request refl)) refl refl refl refl refl

abbrev replayed_claim : RunClaim
replayed_claim = record { run_id = none; cached_result = some (result false) }

abbrev ended : Bool → Db
ended retryable = (finish_run base64 (at 2) "r" "k" "t" "op@1" (result retryable) 1000 started).1

finish_run-Ends_example :
    Ends
      (λ (u : Unit {0}) db'.
        Runs base64 "r" (name "t" "op@1" "k") (result false) started
        × Ended base64 "r" (name "t" "op@1" "k") (result false) db')
      (λ e db'.
        (db' ≡ started)
        × ((run : RunRow)
            → run_row "r" started ≡ some run
            → name_of_run run ≡ name "t" "op@1" "k"
            → run.state ≢ RunState.running))
      (finish_run base64 (at 2) "r" "k" "t" "op@1" (result false) 1000 started)
finish_run-Ends_example =
    finish_run-Ends base64 (at 2) "r" "k" "t" "op@1" (result false) 1000 started started-IsLedger

abbrev name_or : Option RunRow → KeyName
name_or none = name "t" "op@1" "k"
name_or (some run) = name_of_run run

replay-finish_run_example : begin_run base64 (at 3) "r2" request (ended false) ≡ (
  ok (record { run_id = none; cached_result = some (result false) }),
  counted (at 3) request (ended false),
)
unfolding begin_run judge write_claim insert exists_where find_where finish_run finish_rows
    count_where
replay-finish_run_example =
    replay-finish_run base64 (at 2) "r" request (result false) 1000 started started-IsLedger _ refl
      refl (at 3) "r2" refl refl refl (omega arith)

begin_run-Replays_example :
    (row : KeyRow) × (key_row (name_of_claim request) (ended false) ≡ some row)
    × (row.request_fingerprint ≡ "f")
    × Replays base64 3 (result false) row
    × (key_row (name_of_claim request) (begin_run base64 (at 3) "r2" request (ended false)).1
        ≡ some (record row {
          replay_count = row.replay_count + 1;
          last_replayed_at = some 3;
          updated_at = 3;
        }))
    × ((begin_run base64 (at 3) "r2" request (ended false)).1.runs ≡ (ended false).runs)
    × (replayed_claim.run_id ≡ none)
unfolding begin_run judge write_claim insert exists_where find_where finish_run finish_rows
    count_where update_where cached result_to_dict result_from_dict
begin_run-Replays_example =
    begin_run-Replays base64 (at 3) "r2" request (ended false) replayed_claim (result false) refl
      refl refl

retry-finish_run_example :
    let (answer, db') = begin_run base64 (at 3) "r2" request (ended true) in
    (answer ≡ ok (record { run_id = some "r2"; cached_result = none }))
    × ((run : RunRow) × (run_row "r2" db' ≡ some run)
        × (run.state ≡ RunState.running)
        × (name_of_run run ≡ name_of_claim request))
    × ((taken_row : KeyRow) × (key_row (name_of_claim request) db' ≡ some taken_row)
        × (taken_row.state ≡ KeyState.running)
        × (taken_row.current_run_id ≡ "r2")
        × (taken_row.result_json ≡ none))
unfolding begin_run judge write_claim insert exists_where find_where finish_run finish_rows
    count_where update_where
retry-finish_run_example =
    retry-finish_run base64 (at 2) "r" request (result true) 1000 started started-IsLedger _ refl
      refl (at 3) "r2" refl refl refl

-- An execution begins and ends, its claim is purged, and then the execution.
Reach-IsLedger_example :
    IsLedger
      (purge_old_runs (at 2_000_000) 1 (purge_expired_idempotency (at 2_000_000) (ended false)).1).1
unfolding find_where
Reach-IsLedger_example =
    Reach-IsLedger base64
      (next
        (next
          (next (next here (begins (at 1) "r" request refl))
            (finishes (at 2) "r" "k" "t" "op@1" (result false) 1000))
          (purges_keys (at 2_000_000)))
        (purges_runs (at 2_000_000) 1))
      empty-IsLedger
