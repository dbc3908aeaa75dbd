-- ===== src/Build/Tests.antt =====
-- Builds on concrete tables.
use runner_engine.Prelude.{ℕ, ◌≡◌, refl, String, string_eq, true, none, some, [], ◌∷◌, arith}
use runner_engine.Prelude.{if◌then◌else◌, ◌==◌}
use runner_engine.Errors.{Exn, Result, ok, err, exception}
use runner_engine.Dict.{Dict, get}
use runner_engine.Table.{find_where, update_where, exists_where, count_where}
use runner_engine.Build.{
  EnvStatus, pending, ready, Environment, BuildDb, RuntimeBuildSpec, find_smallest_superset, exact,
  building, claim_build, is_failed, mark_verifying, mark_ready,
}
use runner_engine.Build.Resolve.{Tools, build, resolve, retry, not_failed, spec_of_env}
use runner_engine.Build.Resolving.{resolve-IsSingle}
use runner_engine.Build.Superset.{Fits, NotAfter, find_smallest_superset_lem}
use runner_engine.Build.Ending.{Over, env_row, build_ends, build_sticks, build_undone}
use runner_engine.Build.Single.{IsSingle}
use runner_engine.Build.History.{here, next, claims, verifies, succeeds, Reach-IsSingle}

abbrev packages : Dict String String
packages = ("numpy", "1.26") ∷ []

abbrev env_of : String → EnvStatus → ℕ → Environment
env_of id status package_count = record {
  id = id;
  env_key = id;
  base_image = "base@sha256:00";
  python_version = "3.12";
  platform = "linux/amd64";
  build_policy_version = "1";
  lock_sha256 = "00";
  requirements_lock = "numpy==1.26";
  packages = packages;
  package_count = package_count;
  image_ref = none;
  status = status;
  last_error = none;
  created_at = 0;
  updated_at = 0;
}

abbrev db : BuildDb
db = record {
  environments = env_of "big" ready 9 ∷ env_of "small" ready 1 ∷ env_of "new" pending 1 ∷ [];
  aliases = [];
  jobs = [];
}

abbrev tools : Result (Unit {0}) → Tools
tools told = record {
  settings = record {
    base_image = "base@sha256:00";
    python_version = "3.12";
    platform = "linux/amd64";
    build_policy_version = "1";
    allow_superset_reuse = true;
  };
  lock_requirements = λ requirements. ok "numpy==1.26";
  parse_locked_packages = λ lock_text. ok packages;
  sha256 = λ text. "00";
  identity_hash = λ spec. "new";
  build_runtime_image = λ spec tag. ok "registry/env";
  verify_runtime_image = λ image wanted. err (exception "numpy is missing");
  progress = λ stage. told;
  describe = λ e. "RuntimeError: numpy is missing";
  env_id = "fresh";
  job_id = "job";
  db_now = 5;
}

abbrev spec : RuntimeBuildSpec
spec = spec_of_env (env_of "new" pending 1)

find_smallest_superset_lem_example :
    (env : Environment) × (find_smallest_superset spec packages db ≡ some env)
    × Fits spec packages env
    × NotAfter env (env_of "big" ready 9)
unfolding get
find_smallest_superset_lem_example =
    find_smallest_superset_lem spec packages db []
      (env_of "small" ready 1 ∷ env_of "new" pending 1 ∷ []) (env_of "big" ready 9) refl
      (record {
        is_built = refl;
        same_base = refl;
        same_python = refl;
        same_platform = refl;
        same_policy = refl;
        has_all = (refl, tt);
      })

build_ends_example : Over "new" (build (tools (ok tt)) "new" (env_of "new" pending 1) spec db).1
unfolding find_where
build_ends_example =
    build_ends (tools (ok tt)) "new" (env_of "new" pending 1) spec db (env_of "new" pending 1)
      packages refl refl refl refl

abbrev gone : Exn
gone = exception "client went away"

abbrev bound_db : BuildDb
bound_db = record db {
  aliases = record { request_env_key = "new"; env_id = "new"; resolution_kind = exact } ∷ [];
}

build_sticks_example :
    (db' : BuildDb) × (build (tools (err gone)) "new" (env_of "new" pending 1) spec bound_db
      ≡ (err gone, db'))
    × ((row' : Environment) × (env_row "new" db' ≡ some row') × (row'.status ≡ building))
    × (retry (tools (ok tt)) "new" db' ≡ (err (not_failed building), db'))
unfolding find_where
build_sticks_example =
    build_sticks (tools (err gone)) "new" (env_of "new" pending 1) spec (tools (ok tt)) bound_db
      (env_of "new" pending 1)
      (record { request_env_key = "new"; env_id = "new"; resolution_kind = exact }) packages gone
      refl refl refl refl refl refl

abbrev one_env : BuildDb
one_env = record db { environments = env_of "new" pending 1 ∷ [] }

one_env-IsSingle : IsSingle one_env
unfolding count_where find_where
one_env-IsSingle = record {
  unique_envs = λ e. ground arith;
  unique_jobs = λ j. omega arith;
  one_job = λ e. ground arith;
}

abbrev begun : BuildDb
begun = (claim_build 5 "job" "new" one_env).1

-- A job claims the environment, verifies its image and is done.
Reach-IsSingle_example :
    IsSingle (mark_ready 7 "registry/env" "new" "job" (mark_verifying 6 "new" "job" begun).1).1
unfolding claim_build mark_verifying find_where exists_where update_where
Reach-IsSingle_example = Reach-IsSingle one_env-IsSingle (
    next (next (next here (claims 5 "job" "new" refl)) (verifies 6 "job" "new" (_, refl, refl)))
      (succeeds 7 "registry/env" "job" "new" (_, refl, refl)))

resolve-IsSingle_example : IsSingle (resolve (tools (ok tt)) ("numpy" ∷ []) one_env).1
unfolding find_where
resolve-IsSingle_example =
    resolve-IsSingle (tools (ok tt)) ("numpy" ∷ []) one_env refl refl refl one_env-IsSingle

-- The image is good, and the client goes away when it is told so.
abbrev deaf_at_ready : Tools
deaf_at_ready = record (tools (ok tt)) {
  verify_runtime_image = λ image wanted. ok tt;
  progress = λ stage. if stage == "RUNTIME_READY" then err gone else ok tt;
}

build_undone_example :
    (row : Environment) × (env_row "new"
        (build deaf_at_ready "new" (env_of "new" pending 1) spec db).1
      ≡ some row)
    × (is_failed row.status ≡ true)
    × (row.image_ref ≡ some "registry/env")
unfolding find_where exists_where
build_undone_example =
    build_undone deaf_at_ready "new" (env_of "new" pending 1) spec db (env_of "new" pending 1)
      packages "registry/env" gone refl refl refl refl refl refl refl refl refl
