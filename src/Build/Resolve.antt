-- ===== src/Build/Resolve.antt =====
-- build_service/service.py, `BuildService`: a request finds its environment, or builds it. The tools that
-- lock, build and verify are arguments, as are the hashes, the reading of a lock, and the progress callback.
use runner_engine.Prelude.{
  ℕ, String, string_eq, Bool, Option, none, some, List, if◌then◌else◌, occurs,
}
use Prim.Native.String.{◌++◌}
use runner_engine.Errors.{Exn, Result, ok, err, exception}
use runner_engine.Exec.{Exec, pure, raise, lift, gets, ◌>>=◌, ◌>>◌, catch}
use runner_engine.Dict.{Dict}
use runner_engine.Build.{
  EnvStatus, pending, building, verifying, ready, failed, is_failed, ResolutionKind, exact,
  superset, Environment, BuildDb, RuntimeBuildSpec, get_for_request, find_smallest_superset,
  new_env, get_or_create_exact, bind_request, reset_failed, claim_build, mark_verifying, mark_ready,
  mark_failed,
}

pub record BuildSettings : Type 0 where
  pub base_image : String
  pub python_version : String
  pub platform : String
  pub build_policy_version : String
  pub allow_superset_reuse : Bool

-- What a call is given and what it reads. A progress callback may raise at a stage.
pub record Tools : Type 0 where
  pub settings : BuildSettings
  pub lock_requirements : List String → Result String
  pub parse_locked_packages : String → Result (Dict String String)
  pub sha256 : String → String
  pub identity_hash : RuntimeBuildSpec → String
  pub build_runtime_image : RuntimeBuildSpec → String → Result String
  pub verify_runtime_image : String → Dict String String → Result (Unit {0})
  pub progress : String → Result (Unit {0})
  -- f"{type(exc).__name__}: {exc}"
  pub describe : Exn → String
  pub env_id : String
  pub job_id : String
  pub db_now : ℕ

abbrev pub Found : Type 0
Found = Option (Environment × ResolutionKind)

-- RuntimeBuildSpec.env_key
unfoldable pub env_key : (RuntimeBuildSpec → String) → RuntimeBuildSpec → Result String
env_key identity_hash spec =
    if occurs "@sha256:" spec.base_image
    then ok (identity_hash spec)
    else err (exception "base_image must be pinned as repo@sha256:<digest>")

module _ (x : Tools) where
  abbrev pub emit : String → Exec BuildDb (Unit {0})
  emit stage = lift (x.progress stage)

  -- The try of `_build`.
  unfoldable pub try_build : Environment → RuntimeBuildSpec → String → Exec BuildDb (Unit {0})
  try_build env spec job_id = do
    image_ref ← lift (x.build_runtime_image spec ("env-" ++ env.id))
    mark_verifying x.db_now env.id job_id
    emit "VERIFYING_RUNTIME"
    packages ← lift (x.parse_locked_packages spec.requirements_lock)
    lift (x.verify_runtime_image image_ref packages)
    mark_ready x.db_now image_ref env.id job_id
    emit "RUNTIME_READY"

  -- Its handler.
  unfoldable pub on_failure : Environment → String → Exn → Exec BuildDb (Unit {0})
  on_failure env job_id e = do
    mark_failed x.db_now (x.describe e) env.id job_id
    emit "RUNTIME_FAILED"

  abbrev pub run_build :
      String → Environment → RuntimeBuildSpec → Option String → Exec BuildDb Found
  run_build request_key env spec none = do
    current ← gets (get_for_request request_key)
    emit "WAITING_RUNTIME"
    pure current
  run_build request_key env spec (some job_id) = do
    lift (x.parse_locked_packages spec.requirements_lock)
    emit "BUILDING_RUNTIME"
    catch (try_build env spec job_id) (on_failure env job_id)
    gets (get_for_request request_key)

  -- _build
  unfoldable pub build : String → Environment → RuntimeBuildSpec → Exec BuildDb Found
  build request_key env spec = do
    job ← claim_build x.db_now x.job_id env.id
    run_build request_key env spec job

  -- What the caller is told of an environment that it does not build.
  abbrev pub announce : EnvStatus → Exec BuildDb (Unit {0})
  announce pending = pure tt
  announce building = emit "WAITING_RUNTIME"
  announce verifying = emit "WAITING_RUNTIME"
  announce ready = do emit "REUSING_RUNTIME"; emit "RUNTIME_READY"
  announce failed = emit "RUNTIME_FAILED"

  abbrev pub build_if_pending :
      EnvStatus → String → Environment → RuntimeBuildSpec → Exec BuildDb Found → Exec BuildDb Found
  build_if_pending pending request_key env spec otherwise = build request_key env spec
  build_if_pending building request_key env spec otherwise = otherwise
  build_if_pending verifying request_key env spec otherwise = otherwise
  build_if_pending ready request_key env spec otherwise = otherwise
  build_if_pending failed request_key env spec otherwise = otherwise

  unfoldable pub resolve_exact : String → RuntimeBuildSpec → Dict String String → Exec BuildDb Found
  resolve_exact request_key spec packages = do
    env ←
        get_or_create_exact
          (new_env x.env_id request_key spec (x.sha256 spec.requirements_lock) packages x.db_now)
    bind_request
        (record { request_env_key = request_key; env_id = env.id; resolution_kind = exact })
    build_if_pending env.status request_key env spec
        (do announce env.status; gets (get_for_request request_key))

  abbrev pub reuse_superset :
      String → RuntimeBuildSpec → Dict String String → Option Environment → Exec BuildDb Found
  reuse_superset request_key spec packages none = resolve_exact request_key spec packages
  reuse_superset request_key spec packages (some candidate) = do
    bind_request (record {
      request_env_key = request_key;
      env_id = candidate.id;
      resolution_kind = superset;
    })
    reused ← gets (get_for_request request_key)
    announce ready
    pure reused

  abbrev pub resume : String → RuntimeBuildSpec → Dict String String → Found → Exec BuildDb Found
  resume request_key spec packages none = do
    candidate ← gets (find_smallest_superset spec packages)
    reuse_superset request_key spec packages
        (if x.settings.allow_superset_reuse then candidate else none)
  resume request_key spec packages (some (env, kind)) =
      build_if_pending env.status request_key env spec
        (do announce env.status; pure (some (env, kind)))

  abbrev pub spec_of : String → RuntimeBuildSpec
  spec_of lock_text = record {
    base_image = x.settings.base_image;
    python_version = x.settings.python_version;
    platform = x.settings.platform;
    requirements_lock = lock_text;
    build_policy_version = x.settings.build_policy_version;
  }

  unfoldable pub resolve : List String → Exec BuildDb Found
  resolve requirements = do
    emit "RESOLVING_DEPENDENCIES"
    lock_text ← lift (x.lock_requirements requirements)
    request_key ← lift (env_key x.identity_hash (spec_of lock_text))
    packages ← lift (x.parse_locked_packages lock_text)
    emit "CHECKING_RUNTIME_CACHE"
    existing ← gets (get_for_request request_key)
    resume request_key (spec_of lock_text) packages existing

abbrev pub spec_of_env : Environment → RuntimeBuildSpec
spec_of_env env = record {
  base_image = env.base_image;
  python_version = env.python_version;
  platform = env.platform;
  requirements_lock = env.requirements_lock;
  build_policy_version = env.build_policy_version;
}

abbrev pub status_text : EnvStatus → String
status_text pending = "PENDING"
status_text building = "BUILDING"
status_text verifying = "VERIFYING"
status_text ready = "READY"
status_text failed = "FAILED"

-- A missing key and a wrong status.
abbrev pub missing : String → Exn
missing request_env_key = exception request_env_key

abbrev pub not_failed : EnvStatus → Exn
not_failed status = exception (
    "runtime environment status is "
    ++ status_text status
    ++ "; only FAILED environments can be retried")

abbrev pub found_or_missing : String → Found → Exec BuildDb Found
found_or_missing request_env_key none = raise (missing request_env_key)
found_or_missing request_env_key (some found) = pure (some found)

-- progress=None
abbrev pub silent : Tools → Tools
silent x = record x { progress = λ stage. ok tt }

module _ (x : Tools) where
  -- The environment that reset_failed gave back, or another call's.
  abbrev pub retry_build : String → Option Environment → Exec BuildDb Found
  retry_build request_env_key none = do
    current ← gets (get_for_request request_env_key)
    found_or_missing request_env_key current
  retry_build request_env_key (some env) = build (silent x) request_env_key env (spec_of_env env)

  abbrev pub retry_found : String → Found → Exec BuildDb Found
  retry_found request_env_key none = raise (missing request_env_key)
  retry_found request_env_key (some (env, kind)) =
      if is_failed env.status
      then (do reset_env ← reset_failed x.db_now env.id; retry_build request_env_key reset_env)
      else raise (not_failed env.status)

  unfoldable pub retry : String → Exec BuildDb Found
  retry request_env_key = do
    existing ← gets (get_for_request request_env_key)
    retry_found request_env_key existing
