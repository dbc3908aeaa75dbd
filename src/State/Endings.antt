-- ===== src/State/Endings.antt =====
-- What `finish_run`, `abandon_run`, `reset_running` and the purges do to the ledger.
use runner_engine.Prelude.{
  ℕ, ◌≡◌, ◌≢◌, refl, sym, ◌∙◌, String, string_eq, true, some, ◌==◌, arith, eq→≡, Bool-cases, ap,
  inl, inr, nat_beq, ◌⊎◌,
}
use runner_engine.Errors.{ok, err, failure}
use runner_engine.Table.{update_where, count_where, find_of_count}
use runner_engine.Model.{RunResult}
use runner_engine.State.{Clocks, KeyRow, Db}
use runner_engine.State.Results.{Base64}
use runner_engine.State.Claims.{KeyName, name_eq, name, name_of_run, names_key, key_is_running}
use runner_engine.State.Runs.{
  is_running_run, is_running_claim, finished_run, finished_key, finish_rows, finish_run,
  abandon_run,
}
use runner_engine.State.Ledger.{key_row, run_row, IsLedger, RunningFor-some}
use runner_engine.State.Settling.{Settles-IsLedger, Belongs, finish-Settles, abandon-Settles}

-- The execution of a RUNNING claim is one of the claim's request.
claim-Belongs :
    (db : Db) (v : IsLedger db) (n : KeyName) (row : KeyRow) (id : String)
    → key_row n db ≡ some row
    → key_is_running row.state ≡ true
    → row.current_run_id ≡ id
    → Belongs n id db
claim-Belongs db v n row id there r current run found =
    let mine = RunningFor-some n _ (v.claim_runs n row there r) in
    let again : run_row id db ≡ some mine.0 = ap (λ i. run_row i db) (sym current) ∙ mine.1 in
    let same : some run ≡ some mine.0 = sym found ∙ again in
    ground (arith, same, mine.2, ap name_of_run {x = run} {y = mine.0})

module _ (c : Clocks) (id key tenant_id release_id : String) where
  -- One RUNNING claim on the execution tells whose the execution is.
  pub claimed-Belongs :
      (db : Db)
      → IsLedger db
      → count_where (is_running_claim (name tenant_id release_id key) id) db.idempotency_keys ≡ 1
      → Belongs (name tenant_id release_id key) id db
  claimed-Belongs db v one run found =
      let n = name tenant_id release_id key in
      let (row, there, met) =
        find_of_count (names_key n) (is_running_claim n id) db.idempotency_keys
          (λ r h. ground (arith, h)) (omega (arith, one)) (v.unique_keys n) in
      let current : (row.current_run_id == id) ≡ true = ground (arith, met) in
      let r : key_is_running row.state ≡ true = ground (arith, met) in
      claim-Belongs db v n row id there r (eq→≡ row.current_run_id id current) run found

  module _ (base64 : Base64) (result : RunResult) (retention_ms : ℕ) (db : Db) where
    -- What `finish_run` did: it ended the one execution and its one claim, or it raised and wrote
    -- nothing.
    abbrev pub Finished : Type 0
    Finished =
        (count_where (is_running_run id) db.runs ≡ 1)
        × (count_where (is_running_claim (name tenant_id release_id key) id) db.idempotency_keys
            ≡ 1)
        × (finish_run base64 c id key tenant_id release_id result retention_ms db ≡ (
          ok tt,
          record db {
            runs = update_where (is_running_run id) (finished_run c result retention_ms) db.runs;
            idempotency_keys =
                update_where (is_running_claim (name tenant_id release_id key) id)
                  (finished_key base64 c result retention_ms) db.idempotency_keys;
          },
        ))

    abbrev pub Lost : Type 0
    Lost =
        ((count_where (is_running_run id) db.runs ≢ 1)
          × (finish_run base64 c id key tenant_id release_id result retention_ms db ≡ (
            err (failure "RUN_STATE_LOST" "RUNNING audit row disappeared before completion" true),
            db,
          )))
        ⊎ ((count_where (is_running_run id) db.runs ≡ 1)
            × (count_where (is_running_claim (name tenant_id release_id key) id) db.idempotency_keys
                ≢ 1)
            × (finish_run base64 c id key tenant_id release_id result retention_ms db ≡ (
              err (
                  failure "IDEMPOTENCY_STATE_LOST" "idempotency claim disappeared before completion"
                    true),
              db,
            )))

    -- finish_run either finds exactly one RUNNING execution and exactly one RUNNING claim on it
    -- and writes both, or raises RUN_STATE_LOST where the execution is not exactly one, else
    -- IDEMPOTENCY_STATE_LOST where the claim is not, and then leaves all tables as they were.
    pub finish_run_cases : Finished ⊎ Lost
    unfolding finish_run finish_rows
    finish_run_cases =
        let runs = count_where (is_running_run id) db.runs in
        let keys =
          count_where (is_running_claim (name tenant_id release_id key) id) db.idempotency_keys in
        elim (Bool-cases (nat_beq runs 1)) [
          | inr lost ↦ inr (inl (ground (arith, lost), rw lost refl))
          | inl one ↦ elim (Bool-cases (nat_beq keys 1)) [
            | inr lost ↦ inr (inr (ground (arith, one), ground (arith, lost), rw (one, lost) refl))
            | inl two ↦ inl (ground (arith, one), ground (arith, two), rw (one, two) refl)
          ]
        ]

    -- finish_run keeps the ledger, whether it returns or raises.
    pub finish_run-IsLedger :
        IsLedger db
        → IsLedger (finish_run base64 c id key tenant_id release_id result retention_ms db).1
    finish_run-IsLedger v = elim finish_run_cases [
      | inl (one, two, e) ↦ rw (ap (λ x. x.1) e) (
          Settles-IsLedger (λ j. j == id)
            (finish-Settles db v id (name tenant_id release_id key) (claimed-Belongs db v two) c
              base64 result retention_ms)
            v)
      | inr (inl (_, e)) ↦ rw (ap (λ x. x.1) e) v
      | inr (inr (_, _, e)) ↦ rw (ap (λ x. x.1) e) v
    ]

  -- abandon_run keeps the ledger if the execution, where there is one, is of the tenant, release
  -- and key that it is called with.
  pub abandon_run-IsLedger :
      (error_code error_message : String) (db : Db)
      → IsLedger db
      → Belongs (name tenant_id release_id key) id db
      → IsLedger (abandon_run c id key tenant_id release_id error_code error_message db).1
  unfolding abandon_run
  abandon_run-IsLedger error_code error_message db v belongs =
      Settles-IsLedger (λ j. j == id)
        (abandon-Settles db v id (name tenant_id release_id key) belongs c error_code error_message)
        v
