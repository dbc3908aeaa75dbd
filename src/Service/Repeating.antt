-- ===== src/Service/Repeating.antt =====
-- A request that is sent again after its result.
use runner_engine.Prelude.{
  ◌+◌, ◌<◌, ◌≡◌, refl, sym, ◌∙◌, ap, subst, String, string_eq, false, Option, none, some, [], inl,
  inr, Bool-cases,
}
use runner_engine.Errors.{ok}
use runner_engine.Dict.{get}
use runner_engine.Model.{RunRequest, RunResult}
use runner_engine.Backend.{Backend}
use runner_engine.State.{Clocks, KeyRow, Db}
use runner_engine.State.Leases.{milliseconds}
use runner_engine.State.Claims.{name, name_of, name_eq, new_key}
use runner_engine.State.Runs.{begin_run, finish_run}
use runner_engine.State.Ledger.{IsLedger, run_row, key_row}
use runner_engine.State.Starting.{with_run, added}
use runner_engine.State.Begun.{
  begin_run_cases, begin_run-IsLedger, counted, conflict, in_progress, replayed, begun, begun_again,
}
use runner_engine.State.Replaying.{replay-finish_run}
use runner_engine.Table.Keyed.{append_there}
use runner_engine.Service.{Service, is_known}
use runner_engine.Service.Request.{Context, Vetted, claim_of}
use runner_engine.Service.Invoke.{vet, begin, execute, invoke}
use runner_engine.Service.Execution.{execute_closes}
use runner_engine.Service.Settled.{vet_reads, new-Belongs}
use runner_engine.Service.Storing.{execute_stores}

abbrev pub request_key : Vetted → Db → Option KeyRow
request_key v db =
    key_row (name v.request.tenant_id v.request.release_id v.request.idempotency_key) db

-- The same libraries at other moments.
abbrev pub at_times : Context → Clocks → Clocks → Clocks → Context
at_times x vetted begun_ ended = record x {
  vetted_at = vetted;
  begun_at = begun_;
  ended_at = ended;
}

module _ {W : Type 0} (backend : Backend W) (x : Context) (run_id : String) (request : RunRequest)
    (v : Vetted) where
  abbrev begun_db : Db → Db
  begun_db db =
      with_run x.begun_at run_id (claim_of x v) db (added x.begun_at run_id (claim_of x v) db)

  -- The first request for a key is executed, if it is answered.
  first_time :
      (s : Service W) (result : RunResult)
      → run_row run_id s.db ≡ none
      → request_key v s.db ≡ none
      → (vet backend x request s).0 ≡ ok v
      → (invoke backend x run_id request s).0 ≡ ok result
      → (invoke backend x run_id request s
          ≡ execute backend x run_id v (record s { db = begun_db s.db }))
        × (begin_run x.base64 x.begun_at run_id (claim_of x v) s.db).1 ≡ begun_db s.db
  unfolding invoke begin claim_of
  first_time s result missing new good done =
      elim (Bool-cases (is_known (get v.request.invocation_id s.active))) [
        | inl busy ↦ cc (rw (good, vet_reads backend x request s, busy) at done)
        | inr free ↦ elim (begin_run_cases x.base64 x.begun_at run_id (claim_of x v) s.db missing) [
          | conflict row there differ e ↦ cc (new, there)
          | in_progress row there same r e ↦ cc (new, there)
          | replayed row r there same hit e ↦ cc (new, there)
          | begun_again row there same ended stale e ↦ cc (new, there)
          | begun absent e ↦
              (rw (good, vet_reads backend x request s, free, e) refl, ap (λ y. y.1) e)
        ]
      ]

  -- A request whose claim holds a valid result gets it.
  answered :
      (s : Service W) (result : RunResult) (db : Db)
      → (vet backend x request s).0 ≡ ok v
      → get v.request.invocation_id s.active ≡ none
      → begin_run x.base64 x.begun_at run_id (claim_of x v) s.db
        ≡ (ok (record { run_id = none; cached_result = some result }), db)
      → invoke backend x run_id request s ≡ (ok result, record s { db = db })
  unfolding invoke begin
  answered s result db good free hit = rw (good, vet_reads backend x request s, free, hit) refl

module _ {W : Type 0} (backend : Backend W) (x : Context) (run_id run_id' : String)
    (request : RunRequest) (v : Vetted) (vetted begun_ ended : Clocks) (s : Service W)
    (result : RunResult) (ledger : IsLedger s.db) (missing : run_row run_id s.db ≡ none)
    (new : request_key v s.db ≡ none) (good : (vet backend x request s).0 ≡ ok v)
    (done : (invoke backend x run_id request s).0 ≡ ok result) where
  abbrev after_first : Service W
  after_first = (invoke backend x run_id request s).1

  abbrev first_db : Db
  first_db = begun_db backend x run_id request v s.db

  first_is :
      invoke backend x run_id request s ≡ execute backend x run_id v (record s { db = first_db })
  first_is = (first_time backend x run_id request v s result missing new good done).0

  first-IsLedger : IsLedger first_db
  first-IsLedger =
      subst IsLedger (first_time backend x run_id request v s result missing new good done).1
        (begin_run-IsLedger x.base64 x.begun_at run_id (claim_of x v) s.db missing ledger)

  claim_there : request_key v first_db ≡ some (new_key x.begun_at run_id (claim_of x v))
  unfolding claim_of
  claim_there =
      append_there name_of (new_key x.begun_at run_id (claim_of x v)) s.db.idempotency_keys new

  -- On tables that are a ledger, with a UUID that names no execution: if invoke returned a result
  -- for a request whose key had no claim, the result is not retryable and Base64 gives its content
  -- back as it was, then the same request, found good again before the retention is over, is
  -- answered with exactly that result; the service is as after the first call but for the counters
  -- of the claim, so that no worker is taken and no execution starts.
  pub invoke_again :
      x.base64.decode (x.base64.encode result.content) ≡ result.content
      → result.retryable ≡ false
      → begun_.now < x.ended_at.now + milliseconds s.idempotency_retention_ms
      → (vet backend (at_times x vetted begun_ ended) request after_first).0 ≡ ok v
      → invoke backend (at_times x vetted begun_ ended) run_id' request after_first
        ≡ (ok result, record after_first { db = counted begun_ (claim_of x v) after_first.db })
  unfolding claim_of
  invoke_again exact final fresh good_again =
      let s₁ = record s { db = first_db } in
      let stored =
        execute_stores backend x run_id v s₁ result (sym (ap (λ y. y.0) first_is) ∙ done) in
      let hit =
        replay-finish_run x.base64 x.ended_at run_id (claim_of x v) result
          s.idempotency_retention_ms first_db first-IsLedger
          (new_key x.begun_at run_id (claim_of x v)) claim_there stored.0 begun_ run_id' refl exact
          final fresh in
      let here : after_first.db
          ≡ (finish_run x.base64 x.ended_at run_id v.request.idempotency_key v.request.tenant_id
              v.request.release_id result s.idempotency_retention_ms first_db).1 =
        ap (λ y. y.1.db) first_is ∙ stored.1 in
      let free : get v.request.invocation_id after_first.active ≡ none =
        ap (λ y. get v.request.invocation_id y.1.active) first_is
        ∙ (execute_closes backend x run_id v [] s₁ first-IsLedger (
            new-Belongs backend x run_id [] v s ledger missing
              (added x.begun_at run_id (claim_of x v) s.db))).3 in
      answered backend (at_times x vetted begun_ ended) run_id' request v after_first result
        (counted begun_ (claim_of x v) after_first.db) good_again free (rw (sym here) at hit)
