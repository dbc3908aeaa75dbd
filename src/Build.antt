-- ===== src/Build.antt =====
-- build_service/store.py, `BuildStore`: the runtime environments, the aliases that requests are bound by,
-- and the build jobs.
pub mod Resolve
pub mod Superset
pub mod Ending
pub mod Single
pub mod Claiming
pub mod History
pub mod Working
pub mod Resolving
pub mod Tests
use runner_engine.Prelude.{
  ℕ, ◌-◌, String, string_eq, Bool, true, false, not, ◌&&◌, ◌||◌, Option, none, some, List, [], ◌∷◌,
  ◌++◌, ltb, leb, nat_beq, length, if◌then◌else◌, ◌==◌, last_chars,
}
use runner_engine.Errors.{ok, err, exception}
use runner_engine.Exec.{Exec, pure, gets, modify, ◌>>=◌, ◌>>◌}
use runner_engine.Dict.{Dict, get}
use runner_engine.Table.{find_where, update_where, exists_where}

pub data EnvStatus : Type 0 where
  pending : EnvStatus
  building : EnvStatus
  verifying : EnvStatus
  ready : EnvStatus
  failed : EnvStatus

pub data ResolutionKind : Type 0 where
  exact : ResolutionKind
  superset : ResolutionKind

pub record Environment : Type 0 where
  pub id : String
  pub env_key : String
  pub base_image : String
  pub python_version : String
  pub platform : String
  pub build_policy_version : String
  pub lock_sha256 : String
  pub requirements_lock : String
  pub packages : Dict String String
  pub package_count : ℕ
  pub image_ref : Option String
  pub status : EnvStatus
  pub last_error : Option String
  pub created_at : ℕ
  pub updated_at : ℕ

pub record Alias : Type 0 where
  pub request_env_key : String
  pub env_id : String
  pub resolution_kind : ResolutionKind

-- A job is never PENDING.
pub record Job : Type 0 where
  pub id : String
  pub env_id : String
  pub status : EnvStatus
  pub error_message : Option String
  pub started_at : Option ℕ
  pub finished_at : Option ℕ

pub record BuildDb : Type 0 where
  pub environments : List Environment
  pub aliases : List Alias
  pub jobs : List Job

-- build_service/model.py
pub record RuntimeBuildSpec : Type 0 where
  pub base_image : String
  pub python_version : String
  pub platform : String
  pub requirements_lock : String
  pub build_policy_version : String

abbrev pub is_pending : EnvStatus → Bool
is_pending pending = true
is_pending other = false

abbrev pub is_ready : EnvStatus → Bool
is_ready ready = true
is_ready other = false

abbrev pub is_failed : EnvStatus → Bool
is_failed failed = true
is_failed other = false

abbrev pub has_env_id : String → Environment → Bool
has_env_id env_id env = env.id == env_id

abbrev pub has_env_key : String → Environment → Bool
has_env_key env_key env = env.env_key == env_key

abbrev pub has_job_id : String → Job → Bool
has_job_id job_id job = job.id == job_id

abbrev pub has_request : String → Alias → Bool
has_request request_env_key alias = alias.request_env_key == request_env_key

-- An environment with the kind of its alias.
abbrev pub join_env : Option Alias → List Environment → Option (Environment × ResolutionKind)
join_env none envs = none
join_env (some alias) envs = elim (find_where (has_env_id alias.env_id) envs) [
  | none ↦ none
  | some env ↦ some (env, alias.resolution_kind)
]

unfoldable pub get_for_request : String → BuildDb → Option (Environment × ResolutionKind)
get_for_request request_env_key db =
    join_env (find_where (has_request request_env_key) db.aliases) db.environments

-- The value is the one that is asked for.
abbrev pub is_version : Option String → String → Bool
is_version none version = false
is_version (some v) version = v == version

-- packages @> wanted
abbrev pub covers : Dict String String → Dict String String → Bool
covers packages [] = true
covers packages ((name, version) ∷ wanted) =
    is_version (get name packages) version && covers packages wanted

abbrev pub serves : RuntimeBuildSpec → Dict String String → Environment → Bool
serves spec wanted env =
    is_ready env.status
    && (env.base_image == spec.base_image
        && (env.python_version == spec.python_version
            && (env.platform == spec.platform
                && (env.build_policy_version == spec.build_policy_version
                    && covers env.packages wanted))))

-- ORDER BY package_count, created_at
abbrev pub precedes : Environment → Environment → Bool
precedes a b =
    ltb a.package_count b.package_count
    || (nat_beq a.package_count b.package_count && leb a.created_at b.created_at)

abbrev pub smaller : Environment → Option Environment → Environment
smaller env none = env
smaller env (some other) = if precedes env other then env else other

-- The first row in the order, of those that the test accepts.
unfoldable pub smallest : (Environment → Bool) → List Environment → Option Environment
smallest test [] = none
smallest test (env ∷ envs) =
    let rest = smallest test envs in if test env then some (smaller env rest) else rest

abbrev pub find_smallest_superset :
    RuntimeBuildSpec → Dict String String → BuildDb → Option Environment
find_smallest_superset spec wanted db = smallest (serves spec wanted) db.environments

abbrev pub new_env :
    String → String → RuntimeBuildSpec → String → Dict String String → ℕ → Environment
new_env env_id env_key spec lock_sha256 packages db_now = record {
  id = env_id;
  env_key = env_key;
  base_image = spec.base_image;
  python_version = spec.python_version;
  platform = spec.platform;
  build_policy_version = spec.build_policy_version;
  lock_sha256 = lock_sha256;
  requirements_lock = spec.requirements_lock;
  packages = packages;
  package_count = length packages;
  image_ref = none;
  status = pending;
  last_error = none;
  created_at = db_now;
  updated_at = db_now;
}

abbrev insert_env : Environment → Option Environment → Exec (List Environment) Environment
insert_env env none envs = (ok env, envs ++ env ∷ [])
insert_env env (some there) envs = (ok there, envs)

-- INSERT … ON CONFLICT (env_key) DO NOTHING, or the row that is there.
unfoldable pub get_or_create_exact : Environment → Exec BuildDb Environment
get_or_create_exact env db =
    if exists_where (has_env_id env.id) db.environments
      && not (exists_where (has_env_key env.env_key) db.environments)
    then (err (exception "UniqueViolation"), db)
    else (let (row, envs) =
          insert_env env (find_where (has_env_key env.env_key) db.environments) db.environments in
        (row, record db { environments = envs }))

unfoldable pub bind_request : Alias → Exec BuildDb (Unit {0})
bind_request alias = modify (λ db. record db {
  aliases =
      if exists_where (has_request alias.request_env_key) db.aliases
      then db.aliases
      else db.aliases ++ alias ∷ [];
})

abbrev pub reset : ℕ → Environment → Environment
reset db_now env = record env {
  status = pending;
  image_ref = none;
  last_error = none;
  updated_at = db_now;
}

abbrev pub is_resettable : String → Environment → Bool
is_resettable env_id env = has_env_id env_id env && is_failed env.status

-- The row that is written, if there is one.
unfoldable pub reset_failed : ℕ → String → Exec BuildDb (Option Environment)
reset_failed db_now env_id db =
    let envs = update_where (is_resettable env_id) (reset db_now) db.environments in
    (
      ok (
          if exists_where (is_resettable env_id) db.environments
          then find_where (has_env_id env_id) envs
          else none),
      record db { environments = envs },
    )

abbrev pub claimed : ℕ → Environment → Environment
claimed db_now env = record env { status = building; last_error = none; updated_at = db_now }

abbrev pub is_claimable : String → Environment → Bool
is_claimable env_id env = has_env_id env_id env && is_pending env.status

abbrev pub new_job : ℕ → String → String → Job
new_job db_now job_id env_id = record {
  id = job_id;
  env_id = env_id;
  status = building;
  error_message = none;
  started_at = some db_now;
  finished_at = none;
}

-- The job of the claim, where the environment was PENDING. The UUID that the call draws is taken to
-- name no job: a violation of the primary key of the jobs is left out.
unfoldable pub claim_build : ℕ → String → String → Exec BuildDb (Option String)
claim_build db_now job_id env_id db =
    if exists_where (is_claimable env_id) db.environments
    then (
      ok (some job_id),
      record db {
        environments = update_where (is_claimable env_id) (claimed db_now) db.environments;
        jobs = db.jobs ++ new_job db_now job_id env_id ∷ [];
      },
    )
    else (ok none, db)

-- The two updates of each mark, where no constraint is violated.
abbrev pub mark :
    (Environment → Environment) → (Job → Job) → String → String → Exec BuildDb (Unit {0})
mark f g env_id job_id = modify (λ db. record db {
  environments = update_where (has_env_id env_id) f db.environments;
  jobs = update_where (has_job_id job_id) g db.jobs;
})

unfoldable pub mark_verifying : ℕ → String → String → Exec BuildDb (Unit {0})
mark_verifying db_now =
    mark (λ env. record env { status = verifying; updated_at = db_now })
      (λ job. record job { status = verifying })

abbrev pub ready_env : ℕ → String → Environment → Environment
ready_env db_now image_ref env = record env {
  status = ready;
  image_ref = some image_ref;
  last_error = none;
  updated_at = db_now;
}

abbrev pub ready_job : ℕ → Job → Job
ready_job db_now job = record job { status = ready; finished_at = some db_now }

-- Another row than `env_id` with the image.
abbrev pub has_image : String → String → Environment → Bool
has_image image_ref env_id env = not (has_env_id env_id env) && is_version env.image_ref image_ref

-- UNIQUE (image_ref): the UPDATE has a row to write, and another row has the image.
abbrev pub image_clash : String → String → List Environment → Bool
image_clash image_ref env_id envs =
    exists_where (has_env_id env_id) envs && exists_where (has_image image_ref env_id) envs

-- The violation rolls the transaction back.
unfoldable pub mark_ready : ℕ → String → String → String → Exec BuildDb (Unit {0})
mark_ready db_now image_ref env_id job_id db =
    if image_clash image_ref env_id db.environments
    then (err (exception "UniqueViolation"), db)
    else mark (ready_env db_now image_ref) (ready_job db_now) env_id job_id db

unfoldable pub mark_failed : ℕ → String → String → String → Exec BuildDb (Unit {0})
mark_failed db_now error_message =
    let message = last_chars 8192 error_message in
    mark (λ env. record env { status = failed; last_error = some message; updated_at = db_now })
      (λ job. record job {
        status = failed;
        error_message = some message;
        finished_at = some db_now;
      })
