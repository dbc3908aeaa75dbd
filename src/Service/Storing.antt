-- ===== src/Service/Storing.antt =====
-- What an execution that returns has stored.
use runner_engine.Prelude.{ℕ, ◌≡◌, refl, ◌∙◌, ap, String, string_eq, true, inl, inr, Bool-cases}
use runner_engine.Errors.{Exn, Result, Result-cases, runner_error, exception, ok, err, failure}
use runner_engine.Exec.{pure, raise, continue, catch, logged, gets, ◌>>=◌, ◌>>◌}
use runner_engine.Exec.Ends.{Ends, Ends-bind, Ends-handle, Ends-returned}
use runner_engine.Dict.{get}
use runner_engine.Model.{RunResult, Ref}
use runner_engine.Backend.{Backend}
use runner_engine.Pool.Acquire.{acquire}
use runner_engine.Pool.{invalidate}
use runner_engine.State.{Db}
use runner_engine.State.Runs.{finish_run}
use runner_engine.Service.{Service, is_known}
use runner_engine.Service.Request.{Context, Vetted, safe_result}
use runner_engine.Service.Invoke.{
  Frame, execute, attempt, take_worker, serve_unless, refuse, serve, finish, give_back, give_up,
  on_error, entered,
}

module _ {W : Type 0} (backend : Backend W) (x : Context) (run_id : String) (v : Vetted) (db : Db)
    (retention_ms : ℕ) where
  abbrev pub finished : RunResult → Result (Unit {0}) × Db
  finished result =
      finish_run x.base64 x.ended_at run_id v.request.idempotency_key v.request.tenant_id
        v.request.release_id result retention_ms db

  -- Nothing is written yet.
  abbrev Before : {A : Type 0} → A → Frame W → Type 0
  Before a f = (f.service.db ≡ db) × (f.service.idempotency_retention_ms ≡ retention_ms)

  -- This result is written.
  abbrev pub Stored : RunResult → Db → Type 0
  Stored result d = ((finished result).0 ≡ ok tt) × (d ≡ (finished result).1)

  -- It is what a sandbox answered, once it was found safe.
  abbrev pub Safe : RunResult → Type 0
  Safe result = (raw : RunResult) × (safe_result x.utf8_length v.rel raw ≡ ok result)

  abbrev Whatever : Exn → Frame W → Type 0
  Whatever e f = Unit

  abbrev Answered : RunResult → Frame W → Type 0
  Answered result f = Stored result f.service.db × Safe result

  take_worker-Before :
      (f : Frame W)
      → Before tt f
      → Ends (λ (r : Ref). Before r) Whatever (take_worker backend x run_id v f)
  unfolding take_worker
  take_worker-Before f h =
      elim (Result-cases (acquire backend v.rel v.request.tenant_id v.policy f.service.pool).0) [
        | inl (r, done) ↦ rw done h
        | inr (e, raised) ↦ rw raised tt
      ]

  refuse-never : (r : Ref) (f : Frame W) → Ends Answered Whatever (refuse backend x run_id v r f)
  unfolding refuse
  refuse-never r f = elim (Result-cases (invalidate backend r f.service.pool).0) [
    | inl (u, done) ↦ rw done tt
    | inr (e, raised) ↦ rw raised tt
  ]

  give_back-Stored :
      (r : Ref) (result : RunResult) (f : Frame W)
      → Stored result f.service.db
      → Safe result
      → Ends Answered Whatever ((give_back backend x run_id v result r >> pure result) f)
  unfolding give_back
  give_back-Stored r result f h safe = rw logged (h, safe)

  settle-Stored :
      (r : Ref) (result : RunResult) (f : Frame W)
      → Before tt f
      → Safe result
      → Ends Answered Whatever (
          (finish backend x run_id v result
              >> (give_back backend x run_id v result r >> pure result))
            f)
  unfolding finish
  settle-Stored r result f (d, t) safe =
      let written =
        ap
          (λ (p : Db × ℕ).
            finish_run x.base64 x.ended_at run_id v.request.idempotency_key v.request.tenant_id
              v.request.release_id result p.1 p.0)
          {x = (f.service.db, f.service.idempotency_retention_ms)} {y = (db, retention_ms)}
          (λ i. (d i, t i)) in
      elim (Result-cases (finished result).0) [
        | inr (e, raised) ↦ rw (ap (λ y. y.0) written ∙ raised) tt
        | inl (u, done) ↦
            rw (ap (λ y. y.0) written ∙ done)
              (give_back-Stored r result _ (done, ap (λ y. y.1) written) safe)
      ]

  serve-Stored :
      (r : Ref) (f : Frame W) → Before tt f → Ends Answered Whatever (serve backend x run_id v r f)
  unfolding serve
  serve-Stored r f h =
      let called =
        backend.run (f.service.pool.workers r) v.rel v.request v.request.timeout_ms
          f.service.pool.world in
      elim (Result-cases called.0) [
        | inr (e, raised) ↦ rw raised tt
        | inl (raw, answered) ↦ elim (Result-cases (safe_result x.utf8_length v.rel raw)) [
          | inr (e, unsafe) ↦ rw (answered, unsafe) tt
          | inl (result, safe) ↦ rw (answered, safe) (settle-Stored r result _ h (raw, safe))
        ]
      ]

  raising :
      (r : Result (Unit {0})) (f : Frame W) (e : Exn)
      → Ends Answered Whatever (continue r (λ _. raise {A = RunResult} e) f)
  raising (ok u) f e = tt
  raising (err e') f e = tt

  on_error-never :
      (e : Exn) (f : Frame W) → Ends Answered Whatever (on_error backend x run_id v e f)
  on_error-never (runner_error e) f =
      let g = give_up backend x run_id v e.code e.message f in raising g.0 g.1 (runner_error e)
  on_error-never (exception m) f =
      let g = give_up backend x run_id v "RUNNER_INFRASTRUCTURE_ERROR" m f in
      raising g.0 g.1 (failure "RUNNER_INFRASTRUCTURE_ERROR" m true)

  attempt-Stored :
      (f : Frame W) → Before tt f → Ends Answered Whatever (attempt backend x run_id v f)
  unfolding attempt
  attempt-Stored f h =
      Ends-bind (λ (r : Ref). Before r) Answered Whatever (take_worker backend x run_id v f)
        (λ r. gets (λ f. is_known (get v.request.invocation_id f.service.active)) >>= λ busy.
          serve_unless backend x run_id v busy r)
        (take_worker-Before f h)
        (λ r s b. elim (Bool-cases (is_known (get v.request.invocation_id s.service.active))) [
          | inl busy ↦ rw busy (refuse-never r s)
          | inr free ↦ rw free (serve-Stored r s b)
        ])

module _ {W : Type 0} (backend : Backend W) (x : Context) (run_id : String) (v : Vetted)
    (s : Service W) (result : RunResult) where
  answered :
      (execute backend x run_id v s).0 ≡ ok result
      → Stored backend x run_id v s.db s.idempotency_retention_ms result
          (execute backend x run_id v s).1.db
        × Safe backend x run_id v s.db s.idempotency_retention_ms result
  unfolding execute
  answered done =
      let f = entered backend x run_id v s in
      let tried = catch (attempt backend x run_id v) (on_error backend x run_id v) f in
      let stored =
        Ends-handle (Answered backend x run_id v s.db s.idempotency_retention_ms)
          (Whatever backend x run_id v s.db s.idempotency_retention_ms)
          (Whatever backend x run_id v s.db s.idempotency_retention_ms)
          (attempt backend x run_id v f) (on_error backend x run_id v)
          (attempt-Stored backend x run_id v s.db s.idempotency_retention_ms f (refl, refl))
          (λ e g _. on_error-never backend x run_id v s.db s.idempotency_retention_ms e g) in
      Ends-returned (Answered backend x run_id v s.db s.idempotency_retention_ms)
        (Whatever backend x run_id v s.db s.idempotency_retention_ms) tried result stored done

  -- An execution that returns a result has written just that result, by `finish_run`.
  pub execute_stores :
      (execute backend x run_id v s).0 ≡ ok result
      → Stored backend x run_id v s.db s.idempotency_retention_ms result
          (execute backend x run_id v s).1.db
  execute_stores done = (answered done).0

  -- And that result was found safe.
  pub execute_safe :
      (execute backend x run_id v s).0 ≡ ok result
      → (raw : RunResult) × (safe_result x.utf8_length v.rel raw ≡ ok result)
  execute_safe done = (answered done).1
