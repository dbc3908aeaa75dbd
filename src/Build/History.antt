-- ===== src/Build/History.antt =====
-- Requests, builders and retries in any order.
use runner_engine.Prelude.{ℕ, ◌≡◌, refl, String, string_eq, true, false, none, Bool-cases, inl, inr}
use runner_engine.Build.{
  Environment, Alias, BuildDb, get_or_create_exact, bind_request, reset_failed, claim_build,
  mark_verifying, mark_ready, mark_failed, image_clash, ready_env, ready_job,
}
use runner_engine.Build.Ending.{env_row}
use runner_engine.Build.Single.{is_under_way, job_row, IsSingle, Holds, marked-IsSingle}
use runner_engine.Build.Claiming.{
  get_or_create_exact-IsSingle, reset_failed-IsSingle, claim_build-IsSingle,
}

-- A builder marks with the job that it claimed.
pub data Step (db : BuildDb) : BuildDb → Type 0 where
  creates :
      (env : Environment)
      → is_under_way env.status ≡ false
      → env_row env.id db ≡ none
      → Step db (get_or_create_exact env db).1
  binds : (alias : Alias) → Step db (bind_request alias db).1
  resets : (db_now : ℕ) (env_id : String) → Step db (reset_failed db_now env_id db).1
  claims :
      (db_now : ℕ) (job_id env_id : String)
      → job_row job_id db ≡ none
      → Step db (claim_build db_now job_id env_id db).1
  verifies :
      (db_now : ℕ) (job_id env_id : String)
      → Holds job_id env_id db
      → Step db (mark_verifying db_now env_id job_id db).1
  succeeds :
      (db_now : ℕ) (image_ref job_id env_id : String)
      → Holds job_id env_id db
      → Step db (mark_ready db_now image_ref env_id job_id db).1
  fails :
      (db_now : ℕ) (error_message job_id env_id : String)
      → Holds job_id env_id db
      → Step db (mark_failed db_now error_message env_id job_id db).1

pub data Reach (db : BuildDb) : BuildDb → Type 0 where
  here : Reach db db
  next : {d e : BuildDb} → Reach db d → Step d e → Reach db e

Step-IsSingle : {db db' : BuildDb} → Step db db' → IsSingle db → IsSingle db'
unfolding bind_request mark_verifying mark_ready mark_failed
Step-IsSingle {db} (creates env idle missing) v = get_or_create_exact-IsSingle db v env idle missing
Step-IsSingle {db} (binds alias) v = record {
  unique_envs = v.unique_envs;
  unique_jobs = v.unique_jobs;
  one_job = v.one_job;
}
Step-IsSingle {db} (resets db_now env_id) v = reset_failed-IsSingle db v db_now env_id
Step-IsSingle {db} (claims db_now job_id env_id fresh) v =
    claim_build-IsSingle db v db_now job_id env_id fresh
Step-IsSingle {db} (verifies db_now job_id env_id (job, found, holds)) v =
    marked-IsSingle _ _ true (λ r. refl) (λ r. refl) (λ j. refl) (λ j. refl) (λ j. refl) env_id
      job_id db v job found holds
Step-IsSingle {db} (succeeds db_now image_ref job_id env_id (job, found, holds)) v =
    elim (Bool-cases (image_clash image_ref env_id db.environments)) [
      | inl clash ↦ rw clash v
      | inr free ↦ rw free (
          marked-IsSingle (ready_env db_now image_ref) (ready_job db_now) false (λ r. refl)
            (λ r. refl) (λ j. refl) (λ j. refl) (λ j. refl) env_id job_id db v job found holds)
    ]
Step-IsSingle {db} (fails db_now error_message job_id env_id (job, found, holds)) v =
    marked-IsSingle _ _ false (λ r. refl) (λ r. refl) (λ j. refl) (λ j. refl) (λ j. refl) env_id
      job_id db v job found holds

-- If environments and jobs have unique identifiers and an environment that is BUILDING or
-- VERIFYING has exactly one job under way and any other environment none, this stays so after any
-- sequence of environments that are created, requests that are bound, resets of FAILED
-- environments, claims under a new job identifier, and marks by the holder of a job that is under
-- way on the environment.
pub Reach-IsSingle : {db db' : BuildDb} → IsSingle db → Reach db db' → IsSingle db'
Reach-IsSingle v here = v
Reach-IsSingle v (next r step) = Step-IsSingle step (Reach-IsSingle v r)
