-- ===== src/State/History.antt =====
-- The tables over any sequence of calls of runner_engine/state.py.
use runner_engine.Prelude.{
  ◌≡◌, refl, inl, inr, Bool-cases, Option-cases, string_eq, ◌==◌, none, some, ap, [], arith, ℕ,
  String,
}
use runner_engine.Errors.{Result-cases}
use runner_engine.Table.{exists_where, find_where, count_where, insert}
use runner_engine.Model.{RunResult}
use runner_engine.State.{Clocks, RunRow, RunState, Db}
use runner_engine.State.Leases.{
  has_id, require_lease, check_lease, create_lease, renew_lease, delete_lease, purge_expired_leases,
}
use runner_engine.State.Results.{Base64}
use runner_engine.State.Claims.{Claim, name, name_eq, name_of_run, run_is_running}
use runner_engine.State.Runs.{
  begin_run, finish_run, abandon_run, reset_running, purge_expired_idempotency, purge_old_runs,
}
use runner_engine.State.Ledger.{IsLedger, run_row, running_once}
use runner_engine.State.Settling.{Belongs}
use runner_engine.State.Begun.{begin_run-IsLedger}
use runner_engine.State.Endings.{finish_run-IsLedger, abandon_run-IsLedger}
use runner_engine.State.Restarts.{
  reset_running-IsLedger, purge_expired_idempotency-IsLedger, purge_old_runs-IsLedger,
}

module _ (base64 : Base64) where
  -- A call of `RunnerDB`, whatever it answers. begin_run draws a new UUID, and abandon_run is called
  -- for an execution by the request that it belongs to.
  pub data Step (db : Db) : Db → Type 0 where
    begins :
        (c : Clocks) (run_id : String) (q : Claim)
        → run_row run_id db ≡ none
        → Step db (begin_run base64 c run_id q db).1
    finishes :
        (c : Clocks) (run_id key tenant_id release_id : String) (result : RunResult)
        (retention_ms : ℕ)
        → Step db (finish_run base64 c run_id key tenant_id release_id result retention_ms db).1
    abandons :
        (c : Clocks) (run_id key tenant_id release_id error_code error_message : String)
        → Belongs (name tenant_id release_id key) run_id db
        → Step db (abandon_run c run_id key tenant_id release_id error_code error_message db).1
    resets : (c : Clocks) → Step db (reset_running c db).1
    purges_keys : (c : Clocks) → Step db (purge_expired_idempotency c db).1
    purges_runs : (c : Clocks) (older_than_ms : ℕ) → Step db (purge_old_runs c older_than_ms db).1
    creates_lease :
        (c : Clocks) (lease_id tenant_id project_id processor_id release_id : String) (ttl_ms : ℕ)
        → Step db (create_lease c lease_id tenant_id project_id processor_id release_id ttl_ms db).1
    renews_lease :
        (checked c : Clocks) (lease_id tenant_id : String) (ttl_ms : ℕ)
        → Step db (renew_lease checked c lease_id tenant_id ttl_ms db).1
    deletes_lease : (lease_id tenant_id : String) → Step db (delete_lease lease_id tenant_id db).1
    purges_leases : (c : Clocks) → Step db (purge_expired_leases c db).1

  pub data Reach (db : Db) : Db → Type 0 where
    here : Reach db db
    next : {d e : Db} → Reach db d → Step d e → Reach db e

  -- A lease is in no relation to an execution.
  leases-IsLedger :
      (db db' : Db)
      → db'.runs ≡ db.runs
      → db'.idempotency_keys ≡ db.idempotency_keys
      → IsLedger db
      → IsLedger db'
  leases-IsLedger db db' runs keys v = record {
    unique_keys = rw keys v.unique_keys;
    unique_runs = rw runs v.unique_runs;
    claim_runs = rw (runs, keys) v.claim_runs;
    run_claimed = rw (runs, keys) v.run_claimed;
  }

  creates-leaves :
      (c : Clocks) (lease_id tenant_id project_id processor_id release_id : String) (ttl_ms : ℕ)
      (db : Db)
      → let db' =
          (create_lease c lease_id tenant_id project_id processor_id release_id ttl_ms db).1 in
        (db'.runs ≡ db.runs) × (db'.idempotency_keys ≡ db.idempotency_keys)
  unfolding create_lease insert
  creates-leaves c lease_id tenant_id project_id processor_id release_id ttl_ms db =
      elim (Bool-cases (exists_where (has_id lease_id) db.leases)) [
        | inl there ↦ rw there (refl, refl)
        | inr missing ↦ rw missing (refl, refl)
      ]

  renews-leaves :
      (checked c : Clocks) (lease_id tenant_id : String) (ttl_ms : ℕ) (db : Db)
      → let db' = (renew_lease checked c lease_id tenant_id ttl_ms db).1 in
        (db'.runs ≡ db.runs) × (db'.idempotency_keys ≡ db.idempotency_keys)
  unfolding renew_lease require_lease
  renews-leaves checked c lease_id tenant_id ttl_ms db =
      elim (Result-cases
        (check_lease checked tenant_id none (find_where (has_id lease_id) db.leases))) [
          | inl (lease, found) ↦ rw found (refl, refl)
          | inr (e, refused) ↦ rw refused (refl, refl)
        ]

  deletes-leaves :
      (lease_id tenant_id : String) (db : Db)
      → let db' = (delete_lease lease_id tenant_id db).1 in
        (db'.runs ≡ db.runs) × (db'.idempotency_keys ≡ db.idempotency_keys)
  unfolding delete_lease
  deletes-leaves lease_id tenant_id db =
      elim (Option-cases (find_where (has_id lease_id) db.leases)) [
        | inl missing ↦ rw missing (refl, refl)
        | inr (row, found) ↦ elim (Bool-cases (row.tenant_id == tenant_id)) [
          | inl same ↦ rw (found, same) (refl, refl)
          | inr other ↦ rw (found, other) (refl, refl)
        ]
      ]

  Step-IsLedger : {db db' : Db} → Step db db' → IsLedger db → IsLedger db'
  unfolding purge_expired_leases
  Step-IsLedger {db} (begins c id q missing) v = begin_run-IsLedger base64 c id q db missing v
  Step-IsLedger {db} (finishes c id key t r result ms) v =
      finish_run-IsLedger c id key t r base64 result ms db v
  Step-IsLedger {db} (abandons c id key t r code message belongs) v =
      abandon_run-IsLedger c id key t r code message db v belongs
  Step-IsLedger {db} (resets c) v = reset_running-IsLedger c db v
  Step-IsLedger {db} (purges_keys c) v = purge_expired_idempotency-IsLedger c db v
  Step-IsLedger {db} (purges_runs c ms) v = purge_old_runs-IsLedger c ms db v
  Step-IsLedger {db} (creates_lease c l t p q r ms) v =
      leases-IsLedger db _ (creates-leaves c l t p q r ms db).0 (creates-leaves c l t p q r ms db).1
        v
  Step-IsLedger {db} (renews_lease k c l t ms) v =
      leases-IsLedger db _ (renews-leaves k c l t ms db).0 (renews-leaves k c l t ms db).1 v
  Step-IsLedger {db} (deletes_lease l t) v =
      leases-IsLedger db _ (deletes-leaves l t db).0 (deletes-leaves l t db).1 v
  Step-IsLedger {db} (purges_leases c) v = leases-IsLedger db _ refl refl v

  no_rows-IsLedger : (db : Db) → db.runs ≡ [] → db.idempotency_keys ≡ [] → IsLedger db
  unfolding count_where find_where
  no_rows-IsLedger db no_runs no_keys = record {
    unique_keys = λ n. rw no_keys (omega arith);
    unique_runs = λ id. rw no_runs (omega arith);
    claim_runs = λ n r f h. cc (rw no_keys at f);
    run_claimed = λ id r f h. cc (rw no_runs at f);
  }

  -- Tables that are a ledger are one after any sequence of calls of begin_run with a UUID that
  -- names no execution, finish_run, abandon_run for an execution of the request that it is called
  -- with, reset_running, both purges of executions and claims, and the calls on leases, whatever
  -- they answer: keys and executions stay unique, every RUNNING claim belongs to a RUNNING
  -- execution of its own request, and every RUNNING execution is claimed by the key of its
  -- request.
  pub Reach-IsLedger : {db db' : Db} → Reach db db' → IsLedger db → IsLedger db'
  Reach-IsLedger here v = v
  Reach-IsLedger (next r s) v = Step-IsLedger s (Reach-IsLedger r v)

  -- From tables without executions and claims, after any sequence of the calls of RunnerDB,
  -- whatever they answer, where begin_run draws UUIDs that name no execution and abandon_run is
  -- called for an execution of its own request, two RUNNING executions of the same tenant, release
  -- and idempotency key are the same execution.
  pub Reach-running_once :
      {db db' : Db} (i j : String) (a b : RunRow)
      → db.runs ≡ []
      → db.idempotency_keys ≡ []
      → Reach db db'
      → run_row i db' ≡ some a
      → run_row j db' ≡ some b
      → a.state ≡ RunState.running
      → b.state ≡ RunState.running
      → name_of_run a ≡ name_of_run b
      → i ≡ j
  Reach-running_once {db} {db'} i j a b no_runs no_keys r fi fj ra rb same =
      running_once db' i j a b (Reach-IsLedger r (no_rows-IsLedger db no_runs no_keys)) fi fj
        (ap run_is_running ra) (ap run_is_running rb) same
