-- ===== src/Service/Invoke.antt =====
-- runner_engine/service.py, `RunnerService.invoke`: the checks, the claim, and the execution with its
-- handlers.
use runner_engine.Prelude.{String, string_eq, Bool, true, false, Option, none, some}
use runner_engine.Errors.{Exn, Result, runner_error, exception, ok, err, failure}
use runner_engine.Exec.{Exec, pure, raise, lift, gets, modify, ◌>>=◌, ◌>>◌, catch, finally, zoom}
use runner_engine.Dict.{get, put, pop}
use runner_engine.Model.{RunRequest, RunResult, ActiveRun, Ref}
use runner_engine.Backend.{Backend}
use runner_engine.Pool.{Pool, on_world, invalidate, release}
use runner_engine.Pool.Acquire.{acquire}
use runner_engine.State.Leases.{require_lease}
use runner_engine.State.Claims.{RunClaim}
use runner_engine.State.Runs.{begin_run, finish_run, abandon_run}
use runner_engine.Service.{
  Service, on_db, on_pool, filter_attributes, validate_attributes, is_known,
}
use runner_engine.Service.Request.{
  Context, check_request, policy_or_unknown, safe_request, Vetted, claim_of, safe_result,
  keeps_worker,
}

-- The service with the locals `worker` and `run_finished`.
pub record Frame (W : Type 0) : Type 0 where
  pub service : Service W
  pub worker : Option Ref
  pub run_finished : Bool

module _ {W : Type 0} where
  abbrev pub on_service {ℓ} : {A : Type ℓ} → Exec (Service W) A → Exec (Frame W) A
  on_service = zoom (λ f. f.service) (λ s f. record f { service = s })

  abbrev pub hold_worker : Option Ref → Exec (Frame W) (Unit {0})
  hold_worker r = modify (λ f. record f { worker = r })

  abbrev pub run_ends : Exec (Frame W) (Unit {0})
  run_ends = modify (λ f. record f { run_finished = true })

module _ {W : Type 0} (backend : Backend W) (x : Context) where
  -- The checks of `invoke` before the claim.
  unfoldable pub vet : RunRequest → Exec (Service W) Vetted
  vet request = do
    lift (check_request request)
    lease ←
        on_db
          (require_lease x.vetted_at request.lease_id request.tenant_id (some request.release_id))
    rel ← lift (x.catalog request.release_id)
    found ← gets (λ s. get rel.profile s.policies)
    policy ← lift (policy_or_unknown rel.profile found)
    lift (
        validate_attributes x.utf8_length
          (filter_attributes request.attributes rel.input_attributes))
    lift (validate_attributes x.utf8_length request.parameters)
    pure (record {
      lease = lease;
      rel = rel;
      policy = policy;
      request = safe_request rel policy request;
    })

  abbrev pub check_inactive : Bool → Result (Unit {0})
  check_inactive true = err (failure "INVOCATION_ID_IN_USE" "invocation id is already active" false)
  check_inactive false = ok tt

  unfoldable pub begin : String → Vetted → Exec (Service W) RunClaim
  begin run_id v = do
    busy ← gets (λ s. is_known (get v.request.invocation_id s.active))
    lift (check_inactive busy)
    on_db (begin_run x.base64 x.begun_at run_id (claim_of x v))

  module _ (run_id : String) (v : Vetted) where
    abbrev pub active_run : Ref → ActiveRun
    active_run r = record {
      tenant_id = v.request.tenant_id;
      lease_id = v.request.lease_id;
      release_id = v.request.release_id;
      worker = r;
    }

    abbrev pub release_or_invalidate : Bool → Ref → Exec (Pool W) (Unit {0})
    release_or_invalidate true r = release backend r v.policy
    release_or_invalidate false r = invalidate backend r

    -- The worker goes back, and what that raises is logged; `worker = None`.
    unfoldable pub give_back : RunResult → Ref → Exec (Frame W) (Unit {0})
    give_back result r = do
      catch (on_service (on_pool (release_or_invalidate (keeps_worker result) r))) (λ e. pure tt)
      hold_worker none

    unfoldable pub finish : RunResult → Exec (Frame W) (Unit {0})
    finish result = do
      retention ← gets (λ f. f.service.idempotency_retention_ms)
      on_service (
          on_db (
            finish_run x.base64 x.ended_at run_id v.request.idempotency_key v.request.tenant_id
              v.request.release_id result retention))
      run_ends

    unfoldable pub serve : Ref → Exec (Frame W) RunResult
    serve r = do
      modify (λ f. record f {
        service = record f.service {
          active = put v.request.invocation_id (active_run r) f.service.active;
        };
      })
      worker ← gets (λ f. f.service.pool.workers r)
      raw ←
          on_service (on_pool (on_world (backend.run worker v.rel v.request v.request.timeout_ms)))
      result ← lift (safe_result x.utf8_length v.rel raw)
      finish result
      give_back result r
      pure result

    -- The invocation became active in the meantime.
    unfoldable pub refuse : Ref → Exec (Frame W) RunResult
    refuse r = do
      on_service (on_pool (invalidate backend r))
      hold_worker none
      raise (failure "INVOCATION_ID_IN_USE" "invocation id became active concurrently" false)

    abbrev pub serve_unless : Bool → Ref → Exec (Frame W) RunResult
    serve_unless true r = refuse r
    serve_unless false r = serve r

    -- worker = self.pool.acquire(…)
    unfoldable pub take_worker : Exec (Frame W) Ref
    take_worker = do
      r ← on_service (on_pool (acquire backend v.rel v.request.tenant_id v.policy))
      hold_worker (some r)
      pure r

    unfoldable pub attempt : Exec (Frame W) RunResult
    attempt = do
      r ← take_worker
      busy ← gets (λ f. is_known (get v.request.invocation_id f.service.active))
      serve_unless busy r

    abbrev pub drop_worker : Option Ref → Exec (Frame W) (Unit {0})
    drop_worker none = pure tt
    drop_worker (some r) = catch (on_service (on_pool (invalidate backend r))) (λ e. pure tt)

    abbrev pub abandon_unless : Bool → String → String → Exec (Frame W) (Unit {0})
    abandon_unless true error_code error_message = pure tt
    abandon_unless false error_code error_message = on_service (
        on_db (
          abandon_run x.ended_at run_id v.request.idempotency_key v.request.tenant_id
            v.request.release_id error_code error_message))

    -- What both handlers do.
    unfoldable pub give_up : String → String → Exec (Frame W) (Unit {0})
    give_up error_code error_message = do
      worker ← gets (λ f. f.worker)
      drop_worker worker
      finished ← gets (λ f. f.run_finished)
      abandon_unless finished error_code error_message

    -- except RunnerError, except Exception
    abbrev pub on_error : Exn → Exec (Frame W) RunResult
    on_error (runner_error e) = do give_up e.code e.message; raise (runner_error e)
    on_error (exception m) = do
      give_up "RUNNER_INFRASTRUCTURE_ERROR" m
      raise (failure "RUNNER_INFRASTRUCTURE_ERROR" m true)

    -- self._active.pop(request.invocation_id, None)
    abbrev pub forget : Exec (Frame W) (Unit {0})
    forget = modify (λ f. record f {
      service = record f.service { active = pop v.request.invocation_id f.service.active };
    })

    abbrev pub entered : Service W → Frame W
    entered s = record { service = s; worker = none; run_finished = false }

    -- The execution of a claim: `try … except … finally`.
    unfoldable pub execute : Exec (Service W) RunResult
    execute s =
        let (result, f) = finally (catch attempt on_error) forget (entered s) in (result, f.service)

  abbrev pub answer : Vetted → Option String → Option RunResult → Exec (Service W) RunResult
  answer v run_id (some result) = pure result
  answer v none none =
      raise (failure "RUN_STATE_INVALID" "new execution did not receive a run id" true)
  answer v (some run_id) none = execute run_id v

  unfoldable pub invoke : String → RunRequest → Exec (Service W) RunResult
  invoke run_id request = do
    v ← vet request
    claim ← begin run_id v
    answer v claim.run_id claim.cached_result
