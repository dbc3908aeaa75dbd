-- ===== src/Service/Settled.antt =====
-- `invoke` as a whole: what it leaves behind, whatever it answers.
use runner_engine.Prelude.{
  ◌≡◌, sym, ◌∙◌, ap, String, string_eq, nat_eq, none, some, List, arith, inl, inr, Bool-cases,
}
use runner_engine.Errors.{Result-cases}
use runner_engine.Exec.{◌>>=◌}
use runner_engine.Dict.{get}
use runner_engine.Model.{RunRequest, Ref}
use runner_engine.Backend.{Backend}
use runner_engine.Pool.History.{Reach, here}
use runner_engine.State.{RunRow, KeyRow, Db}
use runner_engine.State.Leases.{require_lease}
use runner_engine.State.Claims.{name, name_of_run, new_run}
use runner_engine.State.Ledger.{IsLedger, run_row}
use runner_engine.State.Settling.{Belongs}
use runner_engine.State.Starting.{with_run, added, taken}
use runner_engine.State.Begun.{
  begin_run_cases, begin_run-IsLedger, conflict, in_progress, replayed, begun, begun_again,
}
use runner_engine.Table.Keyed.{append_there}
use runner_engine.Service.{Service, is_known}
use runner_engine.Service.Request.{Context, Vetted, claim_of}
use runner_engine.Service.Invoke.{vet, begin, answer, execute, invoke}
use runner_engine.Service.Borrowing.{shared}
use runner_engine.Service.Execution.{Ended, execute_closes}

module _ {W : Type 0} (backend : Backend W) (x : Context) where
  -- The checks change nothing.
  pub vet_reads : (request : RunRequest) (s : Service W) → (vet backend x request s).1 ≡ s
  unfolding vet require_lease
  vet_reads request s = ground arith

  module _ (run_id : String) (lent : List Ref) where
    -- What `invoke` leaves behind of an execution.
    pub record Settled (s s' : Service W) : Type 0 where
      pub pool_history : Reach backend (shared s.pool lent) (shared s'.pool lent)
      pub ledger : IsLedger s'.db
      pub ended : Ended run_id s'.db

    unstarted :
        (s : Service W) (db : Db)
        → IsLedger db
        → run_row run_id db ≡ none
        → Settled s (record s { db = db })
    unstarted s db l missing = record {
      pool_history = here;
      ledger = l;
      ended = λ run found. cc (missing, found);
    }

    module _ (v : Vetted) (s : Service W) (ledger : IsLedger s.db)
        (missing : run_row run_id s.db ≡ none) where
      -- The new execution is the request's.
      pub new-Belongs :
          (keys : List KeyRow)
          → Belongs
              (name v.request.tenant_id v.request.release_id v.request.idempotency_key)
              run_id
              (with_run x.begun_at run_id (claim_of x v) s.db keys)
      unfolding claim_of
      new-Belongs keys run found =
          let there =
            append_there (λ (r : RunRow). r.run_id) (new_run x.begun_at run_id (claim_of x v))
              s.db.runs missing in
          let same : some run ≡ some (new_run x.begun_at run_id (claim_of x v)) =
            sym found ∙ there in
          ground
            (arith, same, ap name_of_run {x = run} {y = new_run x.begun_at run_id (claim_of x v)})

      executed :
          (db : Db)
          → IsLedger db
          → Belongs
              (name v.request.tenant_id v.request.release_id v.request.idempotency_key)
              run_id
              db
          → Settled s (execute backend x run_id v (record s { db = db })).1
      executed db l belongs =
          let c = execute_closes backend x run_id v lent (record s { db = db }) l belongs in
          record { pool_history = c.0; ledger = c.1; ended = c.2 }

      claimed_settles :
          Settled s
            ((begin backend x run_id v >>= λ claim.
                answer backend x v claim.run_id claim.cached_result)
              s).1
      unfolding begin
      claimed_settles =
          let kept =
            begin_run-IsLedger x.base64 x.begun_at run_id (claim_of x v) s.db missing ledger in
          elim (Bool-cases (is_known (get v.request.invocation_id s.active))) [
            | inl busy ↦ rw busy (unstarted s s.db ledger missing)
            | inr free ↦
                rw free
                  (elim (begin_run_cases x.base64 x.begun_at run_id (claim_of x v) s.db missing) [
                    | conflict row there differ e ↦ rw e (unstarted s s.db ledger missing)
                    | in_progress row there same r e ↦ rw e (unstarted s s.db ledger missing)
                    | replayed row r there same hit e ↦
                        rw e (unstarted s _ (rw (ap (λ y. y.1) e) at kept) missing)
                    | begun absent e ↦ rw e (
                        executed _ (rw (ap (λ y. y.1) e) at kept)
                          (new-Belongs (added x.begun_at run_id (claim_of x v) s.db)))
                    | begun_again row there same ended stale e ↦ rw e (
                        executed _ (rw (ap (λ y. y.1) e) at kept)
                          (new-Belongs (taken x.begun_at run_id (claim_of x v) s.db)))
                  ])
          ]

    -- If the tables are a ledger and the UUID that begin_run would draw names no execution, then
    -- after invoke, whether it returns or raises and whatever the backend, the catalog and the
    -- libraries answer: the pool has gone through calls of its own methods only and no worker is
    -- held that was not held before, the tables are a ledger, and an execution under the UUID,
    -- where there is one, is not RUNNING.
    pub invoke_settles :
        (request : RunRequest) (s : Service W)
        → IsLedger s.db
        → run_row run_id s.db ≡ none
        → Settled s (invoke backend x run_id request s).1
    unfolding invoke
    invoke_settles request s ledger missing = elim (Result-cases (vet backend x request s).0) [
      | inr (e, bad) ↦ rw (bad, vet_reads request s) (unstarted s s.db ledger missing)
      | inl (v, good) ↦ rw (good, vet_reads request s) (claimed_settles v s ledger missing)
    ]
