-- ===== src/State/Settling.antt =====
-- The transactions that end executions keep the ledger: `finish_run`, `abandon_run`,
-- `reset_running`, and the purges, which end none.
use runner_engine.Prelude.{
  ℕ, ◌≤◌, ◌≡◌, refl, sym, ◌∙◌, String, string_eq, Bool, true, false, Option, none, some, ◌==◌,
  arith, eq→≡, Option-cases, Bool-cases, ap, inl, inr, subst,
}
use runner_engine.Table.{
  find_where, update_where, delete_where, count_where, update_found, delete_found, find-update,
  find-delete, count-update, count-delete-le,
}
use runner_engine.Model.{RunResult}
use runner_engine.State.{Clocks, RunRow, KeyRow, Db}
use runner_engine.State.Results.{Base64}
use runner_engine.State.Claims.{
  KeyName, name_eq, name_of, name_of_run, names_key, has_run_id, run_is_running, key_is_running,
}
use runner_engine.State.Runs.{
  is_running_run, is_running_claim, finished_run, finished_key, abandoned_run, any_running_run,
  any_running_key,
}
use runner_engine.State.Ledger.{
  key_row, run_row, RunningFor, ClaimedBy, IsLedger, RunningFor-some, ClaimedBy-some, run_row-id,
  key_row-name,
}

-- The RUNNING executions and claims of `db'` are those of `db` whose execution does not end.
pub record Settles (db db' : Db) (ends : String → Bool) : Type 0 where
  pub unique_keys : (n : KeyName) → count_where (names_key n) db'.idempotency_keys ≤ 1
  pub unique_runs : (id : String) → count_where (has_run_id id) db'.runs ≤ 1
  pub run_kept :
      (id : String) (run : RunRow)
      → run_row id db' ≡ some run
      → run_is_running run.state ≡ true
      → (run_row id db ≡ some run) × (ends id ≡ false)
  pub run_left :
      (id : String) (run : RunRow)
      → run_row id db ≡ some run
      → run_is_running run.state ≡ true
      → ends id ≡ false
      → run_row id db' ≡ some run
  pub claim_kept :
      (n : KeyName) (row : KeyRow)
      → key_row n db' ≡ some row
      → key_is_running row.state ≡ true
      → (key_row n db ≡ some row) × (ends row.current_run_id ≡ false)
  pub claim_left :
      (n : KeyName) (row : KeyRow)
      → key_row n db ≡ some row
      → key_is_running row.state ≡ true
      → ends row.current_run_id ≡ false
      → key_row n db' ≡ some row

pub Settles-IsLedger :
    {db db' : Db} (ends : String → Bool) → Settles db db' ends → IsLedger db → IsLedger db'
Settles-IsLedger {db} {db'} ends s v = record {
  unique_keys = s.unique_keys;
  unique_runs = s.unique_runs;
  claim_runs = λ n row f r.
      let old = s.claim_kept n row f r in
      let run = RunningFor-some n _ (v.claim_runs n row old.0 r) in
      subst (RunningFor n) (sym (s.run_left row.current_run_id run.0 run.1 run.3 old.1))
        (run.2, run.3);
  run_claimed = λ id run f r.
      let old = s.run_kept id run f r in
      let row = ClaimedBy-some id _ (v.run_claimed id run old.0 r) in
      subst (ClaimedBy id)
        (sym (s.claim_left (name_of_run run) row.0 row.1 row.3 (ap ends row.2 ∙ old.1)))
        (row.2, row.3);
}

module _ (db : Db) (v : IsLedger db) (id : String) where
  -- The update of one RUNNING execution.
  pub run_row-update :
      (p : RunRow → Bool) (f : RunRow → RunRow) (j : String)
      → ((r : RunRow) → (f r).run_id ≡ r.run_id)
      → find_where (has_run_id j) (update_where p f db.runs)
        ≡ update_found (has_run_id j) p f (run_row j db)
  run_row-update p f j h = find-update (has_run_id j) p f db.runs (λ r. ap (λ x. x == j) (h r))

-- An UPDATE that takes the rows it picks out of RUNNING leaves the others.
pub ended_kept :
    {Row : Type 0} (q p running : Row → Bool) (f : Row → Row) (o : Option Row) (row : Row)
    → ((r : Row) → running (f r) ≡ false)
    → update_found q p f o ≡ some row
    → running row ≡ true
    → (o ≡ some row) × (p row ≡ false)
ended_kept q p running f none row h e r = cc
ended_kept q p running f (some old) row h e r =
    ground (arith, e, r, h old, ap running {x = f old} {y = row}, ap p {x = old} {y = row})

-- What a DELETE leaves, it found, and its condition does not hold of it.
pub delete_kept :
    (p : KeyRow → Bool) (a b : KeyRow)
    → delete_found p p (some a) ≡ some b
    → (a ≡ b) × (p b ≡ false)
delete_kept p a b h = ground (arith, h, ap p {x = a} {y = b})

-- The execution, if it is there, is one of the request.
abbrev pub Belongs : KeyName → String → Db → Type 0
Belongs n id db = (run : RunRow) → run_row id db ≡ some run → name_of_run run ≡ n

-- What `finish_run` and `abandon_run` share: the one execution `id` of the request `n₀`.
module _ (db : Db) (v : IsLedger db) (id : String) (n₀ : KeyName) (belongs : Belongs n₀ id db) where
  one_kept :
      (f : RunRow → RunRow) (j : String) (run : RunRow)
      → ((r : RunRow) → run_is_running (f r).state ≡ false)
      → update_found (has_run_id j) (is_running_run id) f (run_row j db) ≡ some run
      → run_is_running run.state ≡ true
      → (run_row j db ≡ some run) × ((j == id) ≡ false)
  one_kept f j run h e r =
      let old =
        ended_kept (has_run_id j) (is_running_run id) any_running_run f (run_row j db) run h e r in
      let named = run_row-id j db run old.0 in
      let other : (run.run_id == id) ≡ false = ground (arith, old.1, r) in
      (old.0, rw named at other)

  one_left :
      (f : RunRow → RunRow) (j : String) (run : RunRow)
      → run_row j db ≡ some run
      → (j == id) ≡ false
      → update_found (has_run_id j) (is_running_run id) f (run_row j db) ≡ some run
  one_left f j run found other =
      let named = run_row-id j db run found in
      let apart : (run.run_id == id) ≡ false = rw named other in rw found (rw apart refl)

  -- A RUNNING claim on the execution is the request's.
  claim_of_one :
      (n : KeyName) (row : KeyRow)
      → key_row n db ≡ some row
      → key_is_running row.state ≡ true
      → row.current_run_id ≡ id
      → is_running_claim n₀ id row ≡ true
  claim_of_one n row found r current =
      let run = RunningFor-some n _ (v.claim_runs n row found r) in
      let mine = belongs run.0 (ap (λ i. run_row i db) (sym current) ∙ run.1) in
      let named : name_of row ≡ n₀ = key_row-name n db row found ∙ (sym run.2 ∙ mine) in
      let by_name : names_key n₀ row ≡ true = (name_eq.is_same_iff (name_of row) n₀).1 named in
      let by_run : (row.current_run_id == id) ≡ true =
        (string_eq.is_same_iff row.current_run_id id).1 current in
      ground (arith, by_name, by_run, r)

  other_claim :
      (n : KeyName) (row : KeyRow)
      → key_row n db ≡ some row
      → key_is_running row.state ≡ true
      → is_running_claim n₀ id row ≡ false
      → (row.current_run_id == id) ≡ false
  other_claim n row found r apart = elim (Bool-cases (row.current_run_id == id)) [
    | inr other ↦ other
    | inl same ↦ cc (claim_of_one n row found r (eq→≡ row.current_run_id id same), apart)
  ]

  not_claimed :
      (row : KeyRow) → (row.current_run_id == id) ≡ false → is_running_claim n₀ id row ≡ false
  not_claimed row other = ground (arith, other)

  claim_kept :
      (n : KeyName) (row : KeyRow)
      → delete_found (names_key n) (is_running_claim n₀ id) (key_row n db) ≡ some row
      → key_is_running row.state ≡ true
      → (key_row n db ≡ some row) × ((row.current_run_id == id) ≡ false)
  claim_kept n row e r = elim (Option-cases (key_row n db)) [
    | inl missing ↦ cc (rw missing at e)
    | inr (old, found) ↦
        let left = rw found at e in
        let kept = delete_kept (is_running_claim n₀ id) old row left in
        let there = found ∙ ap some kept.0 in (there, other_claim n row there r kept.1)
  ]

  pub abandon-Settles :
      (c : Clocks) (error_code error_message : String)
      → Settles db
          (record db {
            runs =
                update_where (is_running_run id) (abandoned_run c error_code error_message) db.runs;
            idempotency_keys = delete_where (is_running_claim n₀ id) db.idempotency_keys;
          })
          (λ j. j == id)
  abandon-Settles c error_code error_message =
      let f = abandoned_run c error_code error_message in
      let runs = λ (j : String). run_row-update db v id (is_running_run id) f j (λ r. refl) in
      let keys = λ (n : KeyName).
        find-delete (names_key n) (is_running_claim n₀ id) db.idempotency_keys (v.unique_keys n) in
      record {
        unique_keys = λ n. omega (
          arith,
          count-delete-le (names_key n) (is_running_claim n₀ id) db.idempotency_keys,
          v.unique_keys n,
        );
        unique_runs = λ j.
            rw (count-update (has_run_id j) (is_running_run id) f db.runs (λ r. refl))
              (v.unique_runs j);
        run_kept = λ j run e r. one_kept f j run (λ _. refl) (sym (runs j) ∙ e) r;
        run_left = λ j run e r o. runs j ∙ one_left f j run e o;
        claim_kept = λ n row e r. claim_kept n row (sym (keys n) ∙ e) r;
        claim_left = λ n row e r o. keys n ∙ rw e (rw (not_claimed row o) refl);
      }

  module _ (c : Clocks) (base64 : Base64) (result : RunResult) (retention_ms : ℕ) where
    pub finish-Settles :
        Settles db
          (record db {
            runs = update_where (is_running_run id) (finished_run c result retention_ms) db.runs;
            idempotency_keys =
                update_where
                  (is_running_claim n₀ id)
                  (finished_key base64 c result retention_ms)
                  db.idempotency_keys;
          })
          (λ j. j == id)
    finish-Settles =
        let f = finished_run c result retention_ms in
        let g = finished_key base64 c result retention_ms in
        let runs = λ (j : String). run_row-update db v id (is_running_run id) f j (λ r. refl) in
        let keys = λ (n : KeyName).
          find-update (names_key n) (is_running_claim n₀ id) g db.idempotency_keys (λ r. refl) in
        record {
          unique_keys = λ n.
              rw
                (count-update (names_key n) (is_running_claim n₀ id) g db.idempotency_keys
                  (λ r. refl))
                (v.unique_keys n);
          unique_runs = λ j.
              rw (count-update (has_run_id j) (is_running_run id) f db.runs (λ r. refl))
                (v.unique_runs j);
          run_kept = λ j run e r. one_kept f j run (λ _. refl) (sym (runs j) ∙ e) r;
          run_left = λ j run e r o. runs j ∙ one_left f j run e o;
          claim_kept = λ n row e r.
              let old =
                ended_kept (names_key n) (is_running_claim n₀ id) any_running_key g (key_row n db)
                  row (λ _. refl) (sym (keys n) ∙ e) r in
              (old.0, other_claim n row old.0 r old.1);
          claim_left = λ n row e r o. keys n ∙ rw e (rw (not_claimed row o) refl);
        }
