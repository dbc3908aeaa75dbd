-- ===== src/State/Ledger.antt =====
-- The invariant of the execution history and the claims: RUNNING claims and RUNNING executions
-- correspond, one to one.
use runner_engine.Prelude.{
  ◌≤◌, ◌≡◌, refl, sym, ◌∙◌, String, string_eq, true, Option, none, some, eq→≡, subst,
}
use runner_engine.Table.{find_where, count_where, find_meets}
use runner_engine.State.{RunRow, KeyRow, Db}
use runner_engine.State.Claims.{
  KeyName, name_eq, name_of, name_of_run, names_key, has_run_id, run_is_running, key_is_running,
}

abbrev pub key_row : KeyName → Db → Option KeyRow
key_row n db = find_where (names_key n) db.idempotency_keys

abbrev pub run_row : String → Db → Option RunRow
run_row id db = find_where (has_run_id id) db.runs

-- A RUNNING execution of the request.
abbrev pub RunningFor : KeyName → Option RunRow → Type 0
RunningFor n none = ⊥
RunningFor n (some run) = (name_of_run run ≡ n) × (run_is_running run.state ≡ true)

-- A RUNNING claim of the execution.
abbrev pub ClaimedBy : String → Option KeyRow → Type 0
ClaimedBy id none = ⊥
ClaimedBy id (some row) = (row.current_run_id ≡ id) × (key_is_running row.state ≡ true)

pub record IsLedger (db : Db) : Type 0 where
  pub unique_keys : (n : KeyName) → count_where (names_key n) db.idempotency_keys ≤ 1
  pub unique_runs : (id : String) → count_where (has_run_id id) db.runs ≤ 1
  pub claim_runs :
      (n : KeyName) (row : KeyRow)
      → key_row n db ≡ some row
      → key_is_running row.state ≡ true
      → RunningFor n (run_row row.current_run_id db)
  pub run_claimed :
      (id : String) (run : RunRow)
      → run_row id db ≡ some run
      → run_is_running run.state ≡ true
      → ClaimedBy id (key_row (name_of_run run) db)

-- On tables that are a ledger, two RUNNING executions of the same tenant, release and idempotency
-- key are the same execution.
pub running_once :
    (db : Db) (i j : String) (a b : RunRow)
    → IsLedger db
    → run_row i db ≡ some a
    → run_row j db ≡ some b
    → run_is_running a.state ≡ true
    → run_is_running b.state ≡ true
    → name_of_run a ≡ name_of_run b
    → i ≡ j
running_once db i j a b v fi fj ra rb same =
    claims-agree (key_row (name_of_run b) db)
      (subst (λ n. ClaimedBy i (key_row n db)) same (v.run_claimed i a fi ra))
      (v.run_claimed j b fj rb)
  where
    claims-agree : (o : Option KeyRow) → ClaimedBy i o → ClaimedBy j o → i ≡ j
    claims-agree none x y = absurd x
    claims-agree (some row) x y = sym x.0 ∙ y.0

pub RunningFor-some :
    (n : KeyName) (o : Option RunRow)
    → RunningFor n o
    → (run : RunRow) × (o ≡ some run) × (name_of_run run ≡ n) × (run_is_running run.state ≡ true)
RunningFor-some n none h = absurd h
RunningFor-some n (some run) h = (run, refl, h.0, h.1)

pub ClaimedBy-some :
    (id : String) (o : Option KeyRow)
    → ClaimedBy id o
    → (row : KeyRow) × (o ≡ some row)
      × (row.current_run_id ≡ id)
      × (key_is_running row.state ≡ true)
ClaimedBy-some id none h = absurd h
ClaimedBy-some id (some row) h = (row, refl, h.0, h.1)

-- The row that an identifier finds bears it.
pub run_row-id : (id : String) (db : Db) (run : RunRow) → run_row id db ≡ some run → run.run_id ≡ id
run_row-id id db run h = eq→≡ run.run_id id (find_meets (has_run_id id) run db.runs h)

pub key_row-name :
    (n : KeyName) (db : Db) (row : KeyRow) → key_row n db ≡ some row → name_of row ≡ n
key_row-name n db row h = eq→≡ (name_of row) n (find_meets (names_key n) row db.idempotency_keys h)
