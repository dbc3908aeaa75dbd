-- ===== src/Build/Claiming.antt =====
-- Environments that are created, reset and claimed are still built by one job at a time.
use runner_engine.Prelude.{
  ℕ, ◌≡◌, refl, sym, subst, ap, ◌∙◌, String, string_eq, true, false, not, ◌&&◌, Option, none, some,
  List, [], ◌∷◌, ◌++◌, arith, ◌==◌, Bool-cases, Option-cases, inl, inr, eq→≡, eq_self, eq_of_ne,
}
use runner_engine.Table.{
  find_where, update_where, exists_where, count_where, find-update, find_meets, count-update,
  count-append_row, update_found,
}
use runner_engine.Table.Rows.{exists-found}
use runner_engine.Table.Keyed.{append_there, append_others, append_unique}
use runner_engine.Build.{
  EnvStatus, pending, building, verifying, ready, failed, is_pending, is_failed, Environment, Job,
  BuildDb, has_env_id, has_env_key, is_claimable, is_resettable, claimed, reset, new_job,
  get_or_create_exact, reset_failed, claim_build,
}
use runner_engine.Build.Ending.{env_row}
use runner_engine.Build.Single.{is_under_way, builds, jobs_due, job_row, IsSingle}

failed_idle : (s : EnvStatus) → is_failed s ≡ true → is_under_way s ≡ false
failed_idle failed e = refl
failed_idle pending e = refl
failed_idle building e = cc e
failed_idle verifying e = cc e
failed_idle ready e = refl

pending_idle : (s : EnvStatus) → is_pending s ≡ true → is_under_way s ≡ false
pending_idle pending e = refl
pending_idle building e = cc e
pending_idle verifying e = cc e
pending_idle ready e = refl
pending_idle failed e = refl

module _ (db : BuildDb) (v : IsSingle db) where
  created-IsSingle :
      (env : Environment)
      → is_under_way env.status ≡ false
      → env_row env.id db ≡ none
      → IsSingle (record db { environments = db.environments ++ env ∷ [] })
  created-IsSingle env idle missing = record {
    unique_envs =
        append_unique (λ (r : Environment). r.id) env db.environments v.unique_envs missing;
    unique_jobs = v.unique_jobs;
    one_job = λ e. elim (Bool-cases (e == env.id)) [
      | inl same ↦
          let here_ : e ≡ env.id = eq→≡ e env.id same in
          let none_there : env_row e db ≡ none = ap (λ x. env_row x db) here_ ∙ missing in
          let due = rw none_there at (v.one_job e) in
          rw
            (
              ap (λ x. find_where (has_env_id x) (db.environments ++ env ∷ [])) here_,
              append_there (λ (r : Environment). r.id) env db.environments missing,
              idle,
            )
            due
      | inr other ↦
          rw (append_others (λ (r : Environment). r.id) env db.environments e other) (v.one_job e)
    ];
  }

  pub get_or_create_exact-IsSingle :
      (env : Environment)
      → is_under_way env.status ≡ false
      → env_row env.id db ≡ none
      → IsSingle (get_or_create_exact env db).1
  unfolding get_or_create_exact
  get_or_create_exact-IsSingle env idle missing =
      elim (Bool-cases (
        exists_where (has_env_id env.id) db.environments
        && not (exists_where (has_env_key env.env_key) db.environments))) [
          | inl clash ↦ rw clash v
          | inr free ↦ elim (Option-cases (find_where (has_env_key env.env_key) db.environments)) [
            | inl new ↦ rw (free, new) (created-IsSingle env idle missing)
            | inr (there, found) ↦ rw (free, found) v
          ]
        ]

  reset-due :
      (db_now : ℕ) (env_id e : String) (row : Option Environment)
      → jobs_due (update_found (has_env_id e) (is_resettable env_id) (reset db_now) row)
        ≡ jobs_due row
  reset-due db_now env_id e none = refl
  reset-due db_now env_id e (some row) = elim (Bool-cases (is_resettable env_id row)) [
    | inl met ↦ rw (met, failed_idle row.status (ground (arith, met))) refl
    | inr unmet ↦ rw unmet refl
  ]

  pub reset_failed-IsSingle :
      (db_now : ℕ) (env_id : String) → IsSingle (reset_failed db_now env_id db).1
  unfolding reset_failed
  reset_failed-IsSingle db_now env_id = record {
    unique_envs = λ e.
        rw
          (count-update (has_env_id e) (is_resettable env_id) (reset db_now) db.environments
            (λ r. refl))
          (v.unique_envs e);
    unique_jobs = v.unique_jobs;
    one_job = λ e.
        v.one_job e
        ∙ sym (
            ap jobs_due (
              find-update (has_env_id e) (is_resettable env_id) (reset db_now) db.environments
                (λ r. refl))
            ∙ reset-due db_now env_id e (env_row e db));
  }

  module _ (db_now : ℕ) (job_id env_id : String)
      (free : exists_where (is_claimable env_id) db.environments ≡ true) where
    abbrev claimed_envs : List Environment
    claimed_envs = update_where (is_claimable env_id) (claimed db_now) db.environments

    abbrev more_jobs : List Job
    more_jobs = db.jobs ++ new_job db_now job_id env_id ∷ []

    claimed_row :
        (e : String)
        → find_where (has_env_id e) claimed_envs
          ≡ update_found (has_env_id e) (is_claimable env_id) (claimed db_now) (env_row e db)
    claimed_row e =
        find-update (has_env_id e) (is_claimable env_id) (claimed db_now) db.environments
          (λ r. refl)

    own-due :
        count_where (builds env_id) more_jobs
        ≡ jobs_due (find_where (has_env_id env_id) claimed_envs)
    own-due =
        let (row, found, open_) =
          exists-found (has_env_id env_id) (λ r. is_pending r.status) db.environments
            (v.unique_envs env_id) free in
        let idle : jobs_due (env_row env_id db) ≡ 0 =
          rw (found, pending_idle row.status open_) refl in
        let after : find_where (has_env_id env_id) claimed_envs ≡ some (claimed db_now row) =
          claimed_row env_id
          ∙ rw (found, find_meets (has_env_id env_id) row db.environments found, open_) refl in
        rw after (
          ground (
            arith,
            count-append_row (builds env_id) (new_job db_now job_id env_id) db.jobs,
            v.one_job env_id,
            idle,
            eq_self env_id,
          ))

    others-due :
        (e : String)
        → (e == env_id) ≡ false
        → count_where (builds e) more_jobs ≡ jobs_due (find_where (has_env_id e) claimed_envs)
    others-due e other =
        let off : (env_id == e) ≡ false =
          eq_of_ne env_id e (λ same. cc (other, ap (λ x. e == x) same, eq_self e)) in
        let same_row : find_where (has_env_id e) claimed_envs ≡ env_row e db =
          elim (Option-cases (env_row e db)) [
            | inl missing ↦ claimed_row e ∙ rw missing refl
            | inr (row, found) ↦
                let apart : (row.id == env_id) ≡ false =
                  rw (eq→≡ row.id e (find_meets (has_env_id e) row db.environments found)) other in
                claimed_row e ∙ rw (found, apart) refl
          ] in
        rw same_row (
          ground (
            arith,
            count-append_row (builds e) (new_job db_now job_id env_id) db.jobs,
            v.one_job e,
            off,
          ))

    claimed-due :
        (e : String)
        → count_where (builds e) more_jobs ≡ jobs_due (find_where (has_env_id e) claimed_envs)
    claimed-due e = elim (Bool-cases (e == env_id)) [
      | inl same ↦
          subst
            (λ x.
              count_where (builds x) more_jobs ≡ jobs_due (find_where (has_env_id x) claimed_envs))
            (sym (eq→≡ e env_id same)) own-due
      | inr other ↦ others-due e other
    ]

  pub claim_build-IsSingle :
      (db_now : ℕ) (job_id env_id : String)
      → job_row job_id db ≡ none
      → IsSingle (claim_build db_now job_id env_id db).1
  unfolding claim_build
  claim_build-IsSingle db_now job_id env_id fresh =
      elim (Bool-cases (exists_where (is_claimable env_id) db.environments)) [
        | inr taken ↦ rw taken v
        | inl free ↦ rw free (record {
          unique_envs = λ e.
              rw
                (count-update (has_env_id e) (is_claimable env_id) (claimed db_now) db.environments
                  (λ r. refl))
                (v.unique_envs e);
          unique_jobs =
              append_unique (λ (j : Job). j.id) (new_job db_now job_id env_id) db.jobs v.unique_jobs
                fresh;
          one_job = claimed-due db_now job_id env_id free;
        })
      ]
