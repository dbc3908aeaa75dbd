-- ===== src/State/Beginning.antt =====
-- `begin_run` and the ledger: the execution that starts is fresh, and the claim on its key is its.
use runner_engine.Prelude.{
  ◌≤◌, ◌≡◌, sym, ◌∙◌, String, string_eq, true, false, none, some, ◌==◌, eq→≡, Bool-cases, ap, inl,
  inr, subst,
}
use runner_engine.State.{RunRow, KeyRow, Db}
use runner_engine.Table.{count_where}
use runner_engine.State.Claims.{
  KeyName, name_eq, name_of_run, names_key, has_run_id, run_is_running, key_is_running,
}
use runner_engine.State.Ledger.{key_row, run_row, RunningFor, ClaimedBy, IsLedger, ClaimedBy-some}

-- The execution `id` of the request `n` starts.
pub record Starts (db db' : Db) (n : KeyName) (id : String) : Type 0 where
  pub unique_keys : (m : KeyName) → count_where (names_key m) db'.idempotency_keys ≤ 1
  pub unique_runs : (j : String) → count_where (has_run_id j) db'.runs ≤ 1
  pub run_missing : run_row id db ≡ none
  pub run_started : RunningFor n (run_row id db')
  pub other_runs : (j : String) → (j == id) ≡ false → run_row j db' ≡ run_row j db
  pub claim_ended : (row : KeyRow) → key_row n db ≡ some row → key_is_running row.state ≡ false
  pub claim_taken : ClaimedBy id (key_row n db')
  pub other_claims : (m : KeyName) → (m == n) ≡ false → key_row m db' ≡ key_row m db

module _ (db db' : Db) (n : KeyName) (id : String) (s : Starts db db' n id) (v : IsLedger db) where
  started_claim_runs :
      (m : KeyName) (row : KeyRow)
      → key_row m db' ≡ some row
      → key_is_running row.state ≡ true
      → RunningFor m (run_row row.current_run_id db')
  started_claim_runs m row f r = elim (Bool-cases (m == n)) [
    | inl same ↦
        let e : m ≡ n = eq→≡ m n same in
        let taken = subst (λ k. ClaimedBy id (key_row k db')) (sym e) s.claim_taken in
        let current : row.current_run_id ≡ id = (subst (ClaimedBy id) f taken).0 in
        subst (λ k. RunningFor k (run_row row.current_run_id db')) (sym e)
          (subst (λ i. RunningFor n (run_row i db')) (sym current) s.run_started)
    | inr other ↦
        let old = v.claim_runs m row (sym (s.other_claims m other) ∙ f) r in
        elim (Bool-cases (row.current_run_id == id)) [
          | inl same ↦
              let e : row.current_run_id ≡ id = eq→≡ row.current_run_id id same in
              absurd (subst (RunningFor m) (ap (λ i. run_row i db) e ∙ s.run_missing) old)
          | inr apart ↦ subst (RunningFor m) (sym (s.other_runs row.current_run_id apart)) old
        ]
  ]

  started_run_claimed :
      (j : String) (run : RunRow)
      → run_row j db' ≡ some run
      → run_is_running run.state ≡ true
      → ClaimedBy j (key_row (name_of_run run) db')
  started_run_claimed j run f r = elim (Bool-cases (j == id)) [
    | inl same ↦
        let e : j ≡ id = eq→≡ j id same in
        let here : run_row id db' ≡ some run = ap (λ i. run_row i db') (sym e) ∙ f in
        let named : name_of_run run ≡ n = (subst (RunningFor n) here s.run_started).0 in
        subst (λ i. ClaimedBy i (key_row (name_of_run run) db')) (sym e)
          (subst (λ k. ClaimedBy id (key_row k db')) (sym named) s.claim_taken)
    | inr other ↦
        let old = v.run_claimed j run (sym (s.other_runs j other) ∙ f) r in
        elim (Bool-cases (name_of_run run == n)) [
          | inr apart ↦ subst (ClaimedBy j) (sym (s.other_claims (name_of_run run) apart)) old
          | inl same ↦
              let e : name_of_run run ≡ n = eq→≡ (name_of_run run) n same in
              let row = ClaimedBy-some j _ (subst (λ k. ClaimedBy j (key_row k db)) e old) in
              let closed : key_is_running row.0.state ≡ false = s.claim_ended row.0 row.1 in
              let running : key_is_running row.0.state ≡ true = row.3 in cc (closed, running)
        ]
  ]

  pub Starts-IsLedger : IsLedger db'
  Starts-IsLedger = record {
    unique_keys = s.unique_keys;
    unique_runs = s.unique_runs;
    claim_runs = started_claim_runs;
    run_claimed = started_run_claimed;
  }
