-- ===== src/Build/Single.antt =====
-- An environment is built by one job at a time: what that means of the tables, and the marks keep it.
use runner_engine.Prelude.{
  ℕ, ◌+◌, ◌≤◌, ◌≡◌, refl, sym, subst, ap, ◌∙◌, String, string_eq, Bool, true, false, ◌&&◌, Option,
  none, some, List, [], ◌∷◌, arith, if◌then◌else◌, ◌==◌, Bool-cases, Option-cases, inl, inr, eq→≡,
  eq_self, eq_of_ne,
}
use runner_engine.Table.{
  find_where, update_where, count_where, find-update, find_meets, count-update, update_found,
}
use runner_engine.Table.Keyed.{update_others}
use runner_engine.Build.{
  EnvStatus, pending, building, verifying, ready, failed, Environment, Job, BuildDb, has_env_id,
  has_job_id, mark,
}
use runner_engine.Build.Ending.{env_row}

abbrev pub is_under_way : EnvStatus → Bool
is_under_way pending = false
is_under_way building = true
is_under_way verifying = true
is_under_way ready = false
is_under_way failed = false

-- A job that builds the environment.
abbrev pub builds : String → Job → Bool
builds env_id job = job.env_id == env_id && is_under_way job.status

-- One job builds an environment that is BUILDING or VERIFYING, and none another.
abbrev pub jobs_due : Option Environment → ℕ
jobs_due none = 0
jobs_due (some env) = if is_under_way env.status then 1 else 0

abbrev pub job_row : String → BuildDb → Option Job
job_row job_id db = find_where (has_job_id job_id) db.jobs

pub record IsSingle (db : BuildDb) : Type 0 where
  pub unique_envs : (env_id : String) → count_where (has_env_id env_id) db.environments ≤ 1
  pub unique_jobs : (job_id : String) → count_where (has_job_id job_id) db.jobs ≤ 1
  pub one_job :
      (env_id : String) → count_where (builds env_id) db.jobs ≡ jobs_due (env_row env_id db)

-- The job builds the environment.
abbrev pub Holds : String → String → BuildDb → Type 0
Holds job_id env_id db = (job : Job) × (job_row job_id db ≡ some job) × (builds env_id job ≡ true)

module _ {ℓ} {Row : Type ℓ} (q p : Row → Bool) (f : Row → Row) where
  count-update_none :
      (rs : List Row)
      → count_where p rs ≤ 0
      → count_where q (update_where p f rs) ≡ count_where q rs
  unfolding count_where update_where
  count-update_none [] h = refl
  count-update_none (r ∷ rs) h = ground (arith, h, count-update_none rs)

  -- An UPDATE of the one row that `p` names.
  count-update_one :
      (rs : List Row) (row : Row)
      → count_where p rs ≤ 1
      → find_where p rs ≡ some row
      → count_where q (update_where p f rs) + (if q row then 1 else 0)
        ≡ count_where q rs + (if q (f row) then 1 else 0)
  unfolding count_where update_where find_where
  count-update_one [] row h e = cc e
  count-update_one (r ∷ rs) row h e = elim (Bool-cases (p r)) [
    | inl met ↦
        let same : r ≡ row = cc (rw met at e) in
        let alone : count_where p rs ≤ 0 = omega (arith, rw met at h) in
        ground (arith, met, count-update_none rs alone, ap q same, ap (λ x. q (f x)) same)
    | inr unmet ↦ ground (arith, unmet, h, e, count-update_one rs row)
  ]

module _ {ℓ} {Row : Type ℓ} (q p : Row → Bool) where
  count-found :
      (rs : List Row) (row : Row) → find_where p rs ≡ some row → q row ≡ true → 1 ≤ count_where q rs
  unfolding find_where count_where
  count-found [] row e h = cc e
  count-found (r ∷ rs) row e h = ground (arith, e, h, count-found rs row, ap q {x = r} {y = row})

-- A mark that takes the environment and its job to states that are both under way, or both not.
module _ (f : Environment → Environment) (g : Job → Job) (b : Bool)
    (f_id : (r : Environment) → (f r).id ≡ r.id)
    (f_way : (r : Environment) → is_under_way (f r).status ≡ b) (g_id : (j : Job) → (g j).id ≡ j.id)
    (g_env : (j : Job) → (g j).env_id ≡ j.env_id)
    (g_way : (j : Job) → is_under_way (g j).status ≡ b) (env_id job_id : String) (db : BuildDb)
    (v : IsSingle db) (job : Job) (found : job_row job_id db ≡ some job)
    (holds : builds env_id job ≡ true) where
  abbrev marked : BuildDb
  marked = (mark f g env_id job_id db).1

  row_after :
      (e : String)
      → env_row e marked ≡ update_found (has_env_id e) (has_env_id env_id) f (env_row e db)
  row_after e =
      find-update (has_env_id e) (has_env_id env_id) f db.environments
        (λ r. ap (λ id. id == e) (f_id r))

  jobs_after :
      (e : String)
      → count_where (builds e) marked.jobs + (if builds e job then 1 else 0)
        ≡ count_where (builds e) db.jobs + (if builds e (g job) then 1 else 0)
  jobs_after e =
      count-update_one (builds e) (has_job_id job_id) g db.jobs job (v.unique_jobs job_id) found

  job_env : job.env_id ≡ env_id
  job_env = eq→≡ job.env_id env_id (ground (arith, holds))

  own_after : count_where (builds env_id) marked.jobs ≡ jobs_due (env_row env_id marked)
  own_after =
      let some_job = count-found (builds env_id) (has_job_id job_id) db.jobs job found holds in
      elim (Option-cases (env_row env_id db)) [
        | inl missing ↦ absurd (omega (arith, some_job, rw missing at (v.one_job env_id)))
        | inr (row, there) ↦
            let due = rw there at (v.one_job env_id) in
            let after : env_row env_id marked ≡ some (f row) =
              row_after env_id
              ∙ rw (there, find_meets (has_env_id env_id) row db.environments there) refl in
            rw (after, f_way row)
              (ground (
                arith,
                jobs_after env_id,
                some_job,
                due,
                holds,
                g_way job,
                g_env job,
                ap (λ x. x == env_id) (g_env job),
              ))
      ]

  one_after : (e : String) → count_where (builds e) marked.jobs ≡ jobs_due (env_row e marked)
  one_after e = elim (Bool-cases (e == env_id)) [
    | inl same ↦
        subst (λ x. count_where (builds x) marked.jobs ≡ jobs_due (env_row x marked))
          (sym (eq→≡ e env_id same)) own_after
    | inr other ↦
        let off : (job.env_id == e) ≡ false =
          rw job_env (eq_of_ne env_id e (λ same. cc (other, ap (λ x. e == x) same, eq_self e))) in
        let off' : ((g job).env_id == e) ≡ false = rw (g_env job) off in
        rw (update_others (λ (env : Environment). env.id) env_id f db.environments f_id e other)
          (ground (arith, jobs_after e, off, off', v.one_job e))
  ]

  pub marked-IsSingle : IsSingle marked
  marked-IsSingle = record {
    unique_envs = λ e.
        rw
          (count-update (has_env_id e) (has_env_id env_id) f db.environments
            (λ r. ap (λ id. id == e) (f_id r)))
          (v.unique_envs e);
    unique_jobs = λ j.
        rw
          (count-update (has_job_id j) (has_job_id job_id) g db.jobs
            (λ r. ap (λ id. id == j) (g_id r)))
          (v.unique_jobs j);
    one_job = one_after;
  }
