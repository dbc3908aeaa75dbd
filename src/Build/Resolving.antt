-- ===== src/Build/Resolving.antt =====
-- `resolve` as steps on the tables.
use runner_engine.Prelude.{
  ◌≡◌, refl, String, string_eq, not, ◌&&◌, Option, none, some, List, if◌then◌else◌, Bool-cases, inl,
  inr,
}
use runner_engine.Dict.{Dict}
use runner_engine.Errors.{Result-cases, ok}
use runner_engine.Exec.{Exec, pure, gets, ◌>>◌}
use runner_engine.Table.{exists_where}
use runner_engine.Build.{
  EnvStatus, pending, building, verifying, ready, failed, exact, superset, Environment, Alias,
  BuildDb, RuntimeBuildSpec, has_env_id, has_env_key, new_env, get_for_request,
  find_smallest_superset, get_or_create_exact, bind_request,
}
use runner_engine.Build.Resolve.{
  Tools, Found, env_key, announce, build_if_pending, resolve_exact, reuse_superset, resume, spec_of,
  resolve,
}
use runner_engine.Build.Ending.{env_row}
use runner_engine.Build.Single.{IsSingle, job_row}
use runner_engine.Build.History.{Reach, here, next, creates, binds, Reach-IsSingle}
use runner_engine.Build.Working.{build-Reach}

module _ (x : Tools) where
  -- Neither a new environment nor an alias is a job.
  created-fresh :
      (env : Environment) (db : BuildDb)
      → job_row x.job_id db ≡ none
      → job_row x.job_id (get_or_create_exact env db).1 ≡ none
  unfolding get_or_create_exact
  created-fresh env db fresh =
      elim (Bool-cases (
        exists_where (has_env_id env.id) db.environments
        && not (exists_where (has_env_key env.env_key) db.environments))) [
          | inl clash ↦ rw clash fresh
          | inr free ↦ rw free fresh
        ]

  bound-fresh :
      (alias : Alias) (db : BuildDb)
      → job_row x.job_id db ≡ none
      → job_row x.job_id (bind_request alias db).1 ≡ none
  unfolding bind_request
  bound-fresh alias db fresh = fresh

  announce-reads : (s : EnvStatus) (db : BuildDb) → (announce x s db).1 ≡ db
  announce-reads pending db = refl
  announce-reads building db = refl
  announce-reads verifying db = refl
  announce-reads ready db = elim (Result-cases (x.progress "REUSING_RUNTIME")) [
    | inl (u, told) ↦ rw told refl
    | inr (e, raised) ↦ rw raised refl
  ]
  announce-reads failed db = refl

  module _ (request_key : String) (spec : RuntimeBuildSpec) (start : BuildDb)
      (calm : x.progress "RUNTIME_READY" ≡ ok tt) where
    -- What is announced is answered.
    answered-Reach :
        (s : EnvStatus) (after_ : Exec BuildDb Found) (db : BuildDb)
        → ((d : BuildDb) → (after_ d).1 ≡ d)
        → Reach start db
        → Reach start ((announce x s >> after_) db).1
    answered-Reach s after_ db reads r = elim (Result-cases (announce x s db).0) [
      | inl (u, told) ↦ rw (told, announce-reads s db, reads db) r
      | inr (e, raised) ↦ rw (raised, announce-reads s db) r
    ]

    either-Reach :
        (s : EnvStatus) (env : Environment) (otherwise : Exec BuildDb Found) (db : BuildDb)
        → job_row x.job_id db ≡ none
        → Reach start db
        → Reach start (otherwise db).1
        → Reach start (build_if_pending x s request_key env spec otherwise db).1
    either-Reach pending env otherwise db fresh r o =
        build-Reach x env start request_key spec db calm fresh r
    either-Reach building env otherwise db fresh r o = o
    either-Reach verifying env otherwise db fresh r o = o
    either-Reach ready env otherwise db fresh r o = o
    either-Reach failed env otherwise db fresh r o = o

    resolve_exact-Reach :
        (packages : Dict String String) (db : BuildDb)
        → job_row x.job_id db ≡ none
        → env_row x.env_id db ≡ none
        → Reach start db
        → Reach start (resolve_exact x request_key spec packages db).1
    unfolding resolve_exact bind_request
    resolve_exact-Reach packages db fresh missing r =
        let env' =
          new_env x.env_id request_key spec (x.sha256 spec.requirements_lock) packages x.db_now in
        let created = next r (creates env' refl missing) in
        elim (Result-cases (get_or_create_exact env' db).0) [
          | inr (e, raised) ↦ rw raised created
          | inl (env, done) ↦
              let alias : Alias = record {
                request_env_key = request_key;
                env_id = env.id;
                resolution_kind = exact;
              } in
              let bound = next created (binds alias) in
              rw done (
                either-Reach env.status env
                  (announce x env.status >> gets (get_for_request request_key))
                  (bind_request alias (get_or_create_exact env' db).1).1
                  (bound-fresh alias (get_or_create_exact env' db).1 (created-fresh env' db fresh))
                  bound
                  (answered-Reach env.status (gets (get_for_request request_key))
                    (bind_request alias (get_or_create_exact env' db).1).1 (λ d. refl) bound))
        ]

    reuse_superset-Reach :
        (packages : Dict String String) (db : BuildDb) (candidate : Option Environment)
        → job_row x.job_id db ≡ none
        → env_row x.env_id db ≡ none
        → Reach start db
        → Reach start (reuse_superset x request_key spec packages candidate db).1
    unfolding bind_request
    reuse_superset-Reach packages db none fresh missing r =
        resolve_exact-Reach packages db fresh missing r
    reuse_superset-Reach packages db (some env) fresh missing r =
        let alias : Alias = record {
          request_env_key = request_key;
          env_id = env.id;
          resolution_kind = superset;
        } in
        answered-Reach ready (pure (get_for_request request_key (bind_request alias db).1))
          (bind_request alias db).1 (λ d. refl) (next r (binds alias))

    resume-Reach :
        (packages : Dict String String) (found : Found) (db : BuildDb)
        → job_row x.job_id db ≡ none
        → env_row x.env_id db ≡ none
        → Reach start db
        → Reach start (resume x request_key spec packages found db).1
    resume-Reach packages none db fresh missing r =
        reuse_superset-Reach packages db
          (if x.settings.allow_superset_reuse
            then find_smallest_superset spec packages db
            else none)
          fresh missing r
    resume-Reach packages (some (env, kind)) db fresh missing r =
        either-Reach env.status env (announce x env.status >> pure (some (env, kind))) db fresh r
          (answered-Reach env.status (pure (some (env, kind))) db (λ d. refl) r)

  resolve-Reach :
      (requirements : List String) (db : BuildDb)
      → x.progress "RUNTIME_READY" ≡ ok tt
      → job_row x.job_id db ≡ none
      → env_row x.env_id db ≡ none
      → Reach db (resolve x requirements db).1
  unfolding resolve
  resolve-Reach requirements db calm fresh missing =
      elim (Result-cases (x.progress "RESOLVING_DEPENDENCIES")) [
        | inr (e, raised) ↦ rw raised here
        | inl (u, told) ↦ elim (Result-cases (x.lock_requirements requirements)) [
          | inr (e, raised) ↦ rw (told, raised) here
          | inl (lock, locked) ↦ elim (Result-cases (env_key x.identity_hash (spec_of x lock))) [
            | inr (e, raised) ↦ rw (told, locked, raised) here
            | inl (key, named) ↦ elim (Result-cases (x.parse_locked_packages lock)) [
              | inr (e, raised) ↦ rw (told, locked, named, raised) here
              | inl (packages, parsed) ↦ elim (Result-cases (x.progress "CHECKING_RUNTIME_CACHE")) [
                | inr (e, raised) ↦ rw (told, locked, named, parsed, raised) here
                | inl (u', told') ↦
                    rw (told, locked, named, parsed, told')
                      (resume-Reach key (spec_of x lock) db calm packages (get_for_request key db)
                        db fresh missing here)
              ]
            ]
          ]
        ]
      ]

  -- On tables where every environment under way has exactly one job under way and any other none,
  -- resolve keeps this, whether it returns or raises and whatever the tools answer, if the
  -- identifiers that it would draw are new and the progress callback takes the stage
  -- RUNTIME_READY.
  pub resolve-IsSingle :
      (requirements : List String) (db : BuildDb)
      → x.progress "RUNTIME_READY" ≡ ok tt
      → job_row x.job_id db ≡ none
      → env_row x.env_id db ≡ none
      → IsSingle db
      → IsSingle (resolve x requirements db).1
  resolve-IsSingle requirements db calm fresh missing v =
      Reach-IsSingle v (resolve-Reach requirements db calm fresh missing)
