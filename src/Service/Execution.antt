-- ===== src/Service/Execution.antt =====
-- How an execution ends: `execute` of Service.Invoke, whatever the backend does.
use runner_engine.Prelude.{
  ◌≡◌, refl, sym, ◌∙◌, ap, String, string_eq, nat_eq, true, false, none, some, List, ◌==◌, arith,
  eq_self, inl, inr, Bool-cases, Option-cases,
}
use runner_engine.Errors.{Exn, Result-cases, runner_error, exception, ok}
use runner_engine.Exec.{pure, catch, logged, gets, ◌>>=◌, ◌>>◌}
use runner_engine.Exec.Ends.{Ends, Ends-bind, Ends-handle, Ends-state}
use runner_engine.Dict.{get, put, get-pop}
use runner_engine.Table.{update_where}
use runner_engine.Model.{RunResult, Ref}
use runner_engine.Backend.{Backend}
use runner_engine.Pool.{invalidate}
use runner_engine.Pool.Acquire.{acquire}
use runner_engine.Pool.History.{Shared, Reach, here}
use runner_engine.State.{RunRow, Db}
use runner_engine.State.Claims.{KeyName, name, has_run_id, run_is_running}
use runner_engine.State.Runs.{
  finish_run, abandon_run, is_running_run, any_running_run, finished_run, abandoned_run,
}
use runner_engine.State.Ledger.{IsLedger, run_row, run_row-id}
use runner_engine.State.Settling.{Belongs, run_row-update, ended_kept}
use runner_engine.State.Endings.{finish_run_cases, finish_run-IsLedger, abandon_run-IsLedger}
use runner_engine.Service.{Service, is_known}
use runner_engine.Service.Request.{Context, Vetted, keeps_worker, safe_result}
use runner_engine.Service.Invoke.{
  Frame, execute, attempt, take_worker, serve_unless, refuse, serve, finish, give_back, give_up,
  on_error, entered, active_run,
}
use runner_engine.Service.Borrowing.{
  Borrows, Borrows-invalidate, Borrows-release, Borrows-cancel, Borrows-elapse, Borrows-acquired,
  Borrows-refused, shared,
}

-- The execution is not RUNNING.
abbrev pub Ended : String → Db → Type 0
Ended run_id db = (run : RunRow) → run_row run_id db ≡ some run → run_is_running run.state ≡ false

-- An UPDATE of the RUNNING execution that takes it out of RUNNING ends it.
update-Ended :
    (run_id : String) (f : RunRow → RunRow) (db : Db)
    → ((r : RunRow) → run_is_running (f r).state ≡ false)
    → ((r : RunRow) → (f r).run_id ≡ r.run_id)
    → (v : IsLedger db)
    → Ended run_id (record db { runs = update_where (is_running_run run_id) f db.runs })
update-Ended run_id f db ends same_id v run found = elim (Bool-cases (run_is_running run.state)) [
  | inr over ↦ over
  | inl still ↦
      let old =
        ended_kept (has_run_id run_id) (is_running_run run_id) any_running_run f (run_row run_id db)
          run ends
          (sym (run_row-update db v run_id (is_running_run run_id) f run_id same_id) ∙ found)
          still in
      let id = run_row-id run_id db run old.0 in
      let named : (run.run_id == run_id) ≡ true = (string_eq.is_same_iff run.run_id run_id).1 id in
      let unmet : run_is_running run.state ≡ false = ground (arith, old.1, named) in unmet
]

module _ {W : Type 0} (backend : Backend W) (x : Context) (run_id : String) (v : Vetted)
    (start : Shared W) (lent : List Ref) where
  abbrev request_name : KeyName
  request_name = name v.request.tenant_id v.request.release_id v.request.idempotency_key

  abbrev Borrowed : Frame W → Type 0
  Borrowed f = Borrows backend start lent f.worker f.service.pool

  -- The tables are a ledger, in which the execution is the request's.
  abbrev Owns : Db → Type 0
  Owns db = IsLedger db × Belongs request_name run_id db

  -- The call may raise, with its execution not ended yet.
  abbrev Raised : Exn → Frame W → Type 0
  Raised e f = Borrowed f × Owns f.service.db × (f.run_finished ≡ false)

  -- The call holds this worker.
  abbrev Has : Ref → Frame W → Type 0
  Has r f = Borrowed f × Owns f.service.db × (f.run_finished ≡ false) × (f.worker ≡ some r)

  abbrev HasToo : {A : Type 0} → Ref → A → Frame W → Type 0
  HasToo r a f = Has r f

  -- The execution has ended, and the call still holds this worker.
  abbrev Finished : {A : Type 0} → Ref → A → Frame W → Type 0
  Finished r a f =
      Borrowed f × IsLedger f.service.db × Ended run_id f.service.db × (f.worker ≡ some r)

  abbrev Closed : {A : Type 0} → A → Frame W → Type 0
  Closed a f =
      Borrows backend start lent none f.service.pool
      × IsLedger f.service.db
      × Ended run_id f.service.db

  take_worker-Ends :
      (f : Frame W)
      → Borrowed f × Owns f.service.db × (f.run_finished ≡ false)
      → f.worker ≡ none
      → Ends Has Raised (take_worker backend x run_id v f)
  unfolding take_worker
  take_worker-Ends f (b, o, q) w =
      let b' : Borrows backend start lent none f.service.pool = rw w at b in
      elim (Result-cases (acquire backend v.rel v.request.tenant_id v.policy f.service.pool).0) [
        | inl (r, done) ↦ rw done (
          Borrows-acquired backend start lent v.rel v.request.tenant_id v.policy f.service.pool b' r
              done,
          o,
          q,
          refl,
        )
        | inr (e, raised) ↦ rw raised (
          rw w (
              Borrows-refused backend start lent v.rel v.request.tenant_id v.policy f.service.pool
                b' e raised),
          o,
          q,
        )
      ]

  refuse-Ends :
      (r : Ref) (f : Frame W)
      → Has r f
      → Ends (λ (a : RunResult). Closed a) Raised (refuse backend x run_id v r f)
  unfolding refuse
  refuse-Ends r f (b, o, q, w) =
      let b' : Borrows backend start lent (some r) f.service.pool = rw w at b in
      elim (Result-cases (invalidate backend r f.service.pool).0) [
        | inl (u, done) ↦ rw done (Borrows-invalidate backend start lent r f.service.pool b', o, q)
        | inr (e, raised) ↦
            rw raised (rw w (Borrows-cancel backend start lent r f.service.pool b'), o, q)
      ]

  finish-Ends :
      (r : Ref) (result : RunResult) (f : Frame W)
      → Has r f
      → Ends (λ (u : Unit {0}). Finished r u) Raised (finish backend x run_id v result f)
  unfolding finish
  finish-Ends r result f (b, o, q, w) =
      let ledger =
        finish_run-IsLedger x.ended_at run_id v.request.idempotency_key v.request.tenant_id
          v.request.release_id x.base64 result f.service.idempotency_retention_ms f.service.db
          o.0 in
      elim (finish_run_cases x.ended_at run_id v.request.idempotency_key v.request.tenant_id
        v.request.release_id x.base64 result f.service.idempotency_retention_ms f.service.db) [
          | inl (_, _, e) ↦
              let stays : Ended run_id
                  (finish_run x.base64 x.ended_at run_id v.request.idempotency_key
                    v.request.tenant_id v.request.release_id result
                    f.service.idempotency_retention_ms f.service.db).1 =
                rw (ap (λ y. y.1) e) (
                  update-Ended run_id
                    (finished_run x.ended_at result f.service.idempotency_retention_ms) f.service.db
                    (λ _. refl) (λ _. refl) o.0) in
              rw (ap (λ y. y.0) e) (b, ledger, stays, w)
          | inr (inl (_, e)) ↦ rw e (b, o, q)
          | inr (inr (_, _, e)) ↦ rw e (b, o, q)
        ]

  give_back-Ends :
      (r : Ref) (result : RunResult) (f : Frame W)
      → Finished r tt f
      → Ends (λ (u : Unit {0}). Closed u) Raised (give_back backend x run_id v result r f)
  unfolding give_back
  give_back-Ends r result f (b, l, ended, w) =
      let b' : Borrows backend start lent (some r) f.service.pool = rw w at b in
      elim (Bool-cases (keeps_worker result)) [
        | inl good ↦
            rw (good, logged)
              (Borrows-release backend start lent r v.policy f.service.pool b', l, ended)
        | inr bad ↦
            rw (bad, logged) (Borrows-invalidate backend start lent r f.service.pool b', l, ended)
      ]

  settle-Ends :
      (r : Ref) (result : RunResult) (f : Frame W)
      → Has r f
      → Ends
          (λ (a : RunResult). Closed a)
          Raised
          ((finish backend x run_id v result
              >> (give_back backend x run_id v result r >> pure result))
            f)
  settle-Ends r result f h =
      Ends-bind (λ (u : Unit {0}). Finished r u) (λ (a : RunResult). Closed a) Raised
        (finish backend x run_id v result f)
        (λ _. give_back backend x run_id v result r >> pure result) (finish-Ends r result f h)
        (λ u s fin.
          Ends-bind (λ (u : Unit {0}). Closed u) (λ (a : RunResult). Closed a) Raised
            (give_back backend x run_id v result r s) (λ _. pure result)
            (give_back-Ends r result s fin) (λ u t c. c))

  -- `serve`, from a call that holds the worker.
  serve-Ends :
      (r : Ref) (f : Frame W)
      → Has r f
      → Ends (λ (a : RunResult). Closed a) Raised (serve backend x run_id v r f)
  unfolding serve
  serve-Ends r f (b, o, q, w) =
      let called =
        backend.run (f.service.pool.workers r) v.rel v.request v.request.timeout_ms
          f.service.pool.world in
      let b' = Borrows-elapse backend start lent f.worker f.service.pool called.1 b in
      elim (Result-cases called.0) [
        | inr (e, raised) ↦ rw raised (b', o, q)
        | inl (raw, answered) ↦ elim (Result-cases (safe_result x.utf8_length v.rel raw)) [
          | inr (e, unsafe) ↦ rw (answered, unsafe) (b', o, q)
          | inl (result, safe) ↦
              rw (answered, safe)
                (settle-Ends r result
                  (record f {
                    service = record f.service {
                      pool = record f.service.pool { world = called.1 };
                      active =
                          put v.request.invocation_id (active_run backend x run_id v r)
                            f.service.active;
                    };
                  })
                  (b', o, q, w))
        ]
      ]

  abandoned :
      (error_code error_message : String) (db : Db)
      → Owns db
      → let db' =
          (abandon_run x.ended_at run_id v.request.idempotency_key v.request.tenant_id
            v.request.release_id error_code error_message db).1 in
        IsLedger db' × Ended run_id db'
  unfolding abandon_run
  abandoned error_code error_message db o = (
    abandon_run-IsLedger x.ended_at run_id v.request.idempotency_key v.request.tenant_id
        v.request.release_id error_code error_message db o.0 o.1,
    update-Ended run_id (abandoned_run x.ended_at error_code error_message) db (λ _. refl)
        (λ _. refl) o.0,
  )

  -- The handlers end the execution and let go of the worker.
  give_up-Closed :
      (error_code error_message : String) (f : Frame W)
      → Borrowed f × Owns f.service.db × (f.run_finished ≡ false)
      → ((give_up backend x run_id v error_code error_message f).0 ≡ ok tt)
        × Closed tt (give_up backend x run_id v error_code error_message f).1
  unfolding give_up abandon_run
  give_up-Closed error_code error_message f (b, o, q) =
      let db = abandoned error_code error_message f.service.db o in
      elim (Option-cases f.worker) [
        | inl w ↦
            let b' : Borrows backend start lent none f.service.pool = rw w at b in
            rw (w, q) (refl, (b', db.0, db.1))
        | inr (r, w) ↦
            let b' : Borrows backend start lent (some r) f.service.pool = rw w at b in
            rw (w, logged, q)
              (refl, (Borrows-invalidate backend start lent r f.service.pool b', db.0, db.1))
      ]

  on_error-Ends :
      (e : Exn) (f : Frame W)
      → Raised e f
      → Ends (λ (a : RunResult). Closed a) (λ e. Closed e) (on_error backend x run_id v e f)
  on_error-Ends (runner_error e) f h = let g = give_up-Closed e.code e.message f h in rw g.0 g.1
  on_error-Ends (exception m) f h =
      let g = give_up-Closed "RUNNER_INFRASTRUCTURE_ERROR" m f h in rw g.0 g.1

  attempt-Ends :
      (f : Frame W)
      → Borrowed f × Owns f.service.db × (f.run_finished ≡ false)
      → f.worker ≡ none
      → Ends (λ (a : RunResult). Closed a) Raised (attempt backend x run_id v f)
  unfolding attempt
  attempt-Ends f h w =
      Ends-bind Has (λ (a : RunResult). Closed a) Raised (take_worker backend x run_id v f)
        (λ r. gets (λ f. is_known (get v.request.invocation_id f.service.active)) >>= λ busy.
          serve_unless backend x run_id v busy r)
        (take_worker-Ends f h w)
        (λ r s held. elim (Bool-cases (is_known (get v.request.invocation_id s.service.active))) [
          | inl busy ↦ rw busy (refuse-Ends r s held)
          | inr free ↦ rw free (serve-Ends r s held)
        ])

module _ {W : Type 0} (backend : Backend W) (x : Context) (run_id : String) (v : Vetted)
    (lent : List Ref) (s : Service W) (ledger : IsLedger s.db)
    (owned : Belongs
      (name v.request.tenant_id v.request.release_id v.request.idempotency_key)
      run_id
      s.db) where
  abbrev final : Service W
  final = (execute backend x run_id v s).1

  pub execute_closes :
      Reach backend (shared s.pool lent) (shared final.pool lent)
      × IsLedger final.db
      × Ended run_id final.db
      × (get v.request.invocation_id final.active ≡ none)
  unfolding execute
  execute_closes =
      let start = shared s.pool lent in
      let body =
        attempt-Ends backend x run_id v start lent (entered backend x run_id v s)
          (here, (ledger, owned), refl) refl in
      let handled =
        Ends-handle (λ (a : RunResult). Closed backend x run_id v start lent a)
          (Raised backend x run_id v start lent) (λ e. Closed backend x run_id v start lent e)
          (attempt backend x run_id v (entered backend x run_id v s)) (on_error backend x run_id v)
          body (on_error-Ends backend x run_id v start lent) in
      let closed =
        Ends-state (λ (f : Frame W). Closed backend x run_id v start lent tt f)
          (catch (attempt backend x run_id v) (on_error backend x run_id v)
            (entered backend x run_id v s))
          handled in
      (
        closed.0,
        closed.1,
        closed.2,
        get-pop v.request.invocation_id v.request.invocation_id _
            ∙ rw (eq_self v.request.invocation_id) refl,
      )
