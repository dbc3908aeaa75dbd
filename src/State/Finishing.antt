-- ===== src/State/Finishing.antt =====
-- What `finish_run` leaves of the execution and of its claim.
use runner_engine.Prelude.{
  ℕ, ◌≡◌, refl, ◌∙◌, String, string_eq, true, not, some, arith, eq→≡, ap, inl, inr, subst, eq_self,
  ◌≢◌,
}
use runner_engine.Exec.Ends.{Ends}
use runner_engine.Table.{
  update_where, count_where, find_of_count, count_of_find, find-update, find_meets,
}
use runner_engine.Model.{RunResult}
use runner_engine.State.{Clocks, RunRow, KeyRow, RunState, KeyState, Db}
use runner_engine.State.Results.{Base64, result_to_dict}
use runner_engine.State.Claims.{
  KeyName, name_eq, name, name_of_run, names_key, has_run_id, run_is_running, key_is_running,
}
use runner_engine.State.Runs.{
  is_running_run, is_running_claim, finished_run, finished_key, finish_run,
}
use runner_engine.State.Ledger.{key_row, run_row, IsLedger, ClaimedBy, ClaimedBy-some}
use runner_engine.State.Endings.{claimed-Belongs, finish_run_cases}

module _ (base64 : Base64) (id : String) (n : KeyName) (result : RunResult) where
  -- The execution is RUNNING, of the request, and the request's claim is RUNNING on it.
  pub record Runs (db : Db) : Type 0 where
    pub run : RunRow
    pub row : KeyRow
    pub run_found : run_row id db ≡ some run
    pub run_running : run.state ≡ RunState.running
    pub run_mine : name_of_run run ≡ n
    pub row_found : key_row n db ≡ some row
    pub row_running : row.state ≡ KeyState.running
    pub row_mine : row.current_run_id ≡ id

  -- Both are DONE and carry the result.
  pub record Ended (db : Db) : Type 0 where
    pub run : RunRow
    pub row : KeyRow
    pub run_found : run_row id db ≡ some run
    pub run_done : run.state ≡ RunState.done
    pub run_mine : name_of_run run ≡ n
    pub run_status : run.status ≡ some result.status
    pub run_replayable : run.replayable ≡ not result.retryable
    pub row_found : key_row n db ≡ some row
    pub row_done : row.state ≡ KeyState.done
    pub row_mine : row.current_run_id ≡ id
    pub row_result : row.result_json ≡ some (result_to_dict base64 result)
    pub row_replayable : row.replayable ≡ not result.retryable

run_is_running-running : (s : RunState) → run_is_running s ≡ true → s ≡ RunState.running
run_is_running-running RunState.running h = refl
run_is_running-running RunState.done h = cc h
run_is_running-running RunState.abandoned h = cc h

key_is_running-running : (s : KeyState) → key_is_running s ≡ true → s ≡ KeyState.running
key_is_running-running KeyState.running h = refl
key_is_running-running KeyState.done h = cc h

module _ (base64 : Base64) (c : Clocks) (id key tenant_id release_id : String) (result : RunResult)
    (retention_ms : ℕ) (db : Db) (v : IsLedger db) where
  abbrev n : KeyName
  n = name tenant_id release_id key

  running_run : (r : RunRow) → is_running_run id r ≡ true → has_run_id id r ≡ true
  running_run r h = ground (arith, h)

  running_claim : (r : KeyRow) → is_running_claim n id r ≡ true → names_key n r ≡ true
  running_claim r h = ground (arith, h)

  -- One row of each is what the two updates look for.
  counted-Runs :
      count_where (is_running_run id) db.runs ≡ 1
      → count_where (is_running_claim n id) db.idempotency_keys ≡ 1
      → Runs base64 id n result db
  counted-Runs one two =
      let (run, found, met) =
        find_of_count (has_run_id id) (is_running_run id) db.runs running_run (omega (arith, one))
          (v.unique_runs id) in
      let (row, there, hit) =
        find_of_count (names_key n) (is_running_claim n id) db.idempotency_keys running_claim
          (omega (arith, two)) (v.unique_keys n) in
      record {
        run = run;
        row = row;
        run_found = found;
        run_running = run_is_running-running run.state (ground (arith, met));
        run_mine = claimed-Belongs c id key tenant_id release_id db v two run found;
        row_found = there;
        row_running = key_is_running-running row.state (ground (arith, hit));
        row_mine = eq→≡ row.current_run_id id (ground (arith, hit));
      }

  run_counted :
      (run : RunRow)
      → run_row id db ≡ some run
      → run.state ≡ RunState.running
      → count_where (is_running_run id) db.runs ≡ 1
  run_counted run found running =
      count_of_find (has_run_id id) (is_running_run id) db.runs run running_run (v.unique_runs id)
        found
      ∙ rw (find_meets (has_run_id id) run db.runs found, running) refl

  claim_counted :
      (run : RunRow)
      → run_row id db ≡ some run
      → run.state ≡ RunState.running
      → name_of_run run ≡ n
      → count_where (is_running_claim n id) db.idempotency_keys ≡ 1
  claim_counted run found running mine =
      let (row, there, current, r) = ClaimedBy-some id (key_row n db) (
        subst (λ m. ClaimedBy id (key_row m db)) mine
          (v.run_claimed id run found (ap run_is_running running))) in
      count_of_find (names_key n) (is_running_claim n id) db.idempotency_keys row running_claim
        (v.unique_keys n) there
      ∙ rw (find_meets (names_key n) row db.idempotency_keys there, current, eq_self id, r) refl

  abbrev finished : Db
  finished = record db {
    runs = update_where (is_running_run id) (finished_run c result retention_ms) db.runs;
    idempotency_keys =
        update_where (is_running_claim n id) (finished_key base64 c result retention_ms)
          db.idempotency_keys;
  }

  finished-Ended : Runs base64 id n result db → Ended base64 id n result finished
  finished-Ended h =
      let run_met : is_running_run id h.run ≡ true =
        rw (find_meets (has_run_id id) h.run db.runs h.run_found, h.run_running) refl in
      let row_met : is_running_claim n id h.row ≡ true =
        rw
          (
            find_meets (names_key n) h.row db.idempotency_keys h.row_found,
            h.row_mine,
            eq_self id,
            h.row_running,
          )
          refl in
      record {
        run = finished_run c result retention_ms h.run;
        row = finished_key base64 c result retention_ms h.row;
        run_found =
            find-update (has_run_id id) (is_running_run id) (finished_run c result retention_ms)
              db.runs (λ r. refl)
            ∙ rw (h.run_found, run_met) refl;
        run_done = refl;
        run_mine = h.run_mine;
        run_status = refl;
        run_replayable = refl;
        row_found =
            find-update (names_key n) (is_running_claim n id)
              (finished_key base64 c result retention_ms) db.idempotency_keys (λ r. refl)
            ∙ rw (h.row_found, row_met) refl;
        row_done = refl;
        row_mine = h.row_mine;
        row_result = refl;
        row_replayable = refl;
      }

  -- On tables that are a ledger: if finish_run returns, the execution was RUNNING, of the request
  -- that it is called with, and claimed by the RUNNING claim of that request, and then execution
  -- and claim are DONE with the same names, the execution with the status of the result and the
  -- claim with its JSON object, both replayable just if the result is not retryable; if finish_run
  -- raises, the tables are as they were and the execution was not a RUNNING one of the request.
  pub finish_run-Ends :
      Ends
        (λ (u : Unit {0}) db'. Runs base64 id n result db × Ended base64 id n result db')
        (λ e db'.
          (db' ≡ db)
          × ((run : RunRow)
              → run_row id db ≡ some run
              → name_of_run run ≡ n
              → run.state ≢ RunState.running))
        (finish_run base64 c id key tenant_id release_id result retention_ms db)
  finish_run-Ends =
      elim (finish_run_cases c id key tenant_id release_id base64 result retention_ms db) [
        | inl (one, two, e) ↦ let h = counted-Runs one two in rw e (h, finished-Ended h)
        | inr (inl (lost, e)) ↦
            rw e (refl, λ run found mine running. lost (run_counted run found running))
        | inr (inr (one, lost, e)) ↦
            rw e (refl, λ run found mine running. lost (claim_counted run found running mine))
      ]
