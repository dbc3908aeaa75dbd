-- ===== src/Build/Working.antt =====
-- A build as steps on the tables: the holder of a job marks its environment.
use runner_engine.Prelude.{
  ◌≡◌, refl, String, string_eq, none, some, arith, Bool-cases, inl, inr, eq_self,
}
use Prim.Native.String.{◌++◌ as ◌<>◌}
use runner_engine.Errors.{Exn, Result-cases, ok}
use runner_engine.Exec.{catch, ◌>>◌}
use runner_engine.Exec.Ends.{Ends, Ends-handle, Ends-state}
use runner_engine.Table.{exists_where}
use runner_engine.Table.Keyed.{append_there, update_there}
use runner_engine.Build.{
  EnvStatus, Environment, Job, BuildDb, RuntimeBuildSpec, is_claimable, new_job, claim_build,
  mark_verifying, mark_ready, mark_failed, image_clash,
}
use runner_engine.Build.Resolve.{Tools, try_build, on_failure, run_build, build, emit}
use runner_engine.Build.Single.{job_row, Holds}
use runner_engine.Build.History.{Reach, next, claims, verifies, succeeds, fails}

module _ (x : Tools) where
  module _ (env : Environment) (start : BuildDb) where
    -- The tables were reached, and the job is still under way.
    abbrev AtWork : BuildDb → Type 0
    AtWork db = Reach start db × Holds x.job_id env.id db

    verified-AtWork :
        (db : BuildDb) → AtWork db → AtWork (mark_verifying x.db_now env.id x.job_id db).1
    unfolding mark_verifying
    verified-AtWork db (r, (job, found, holds)) = (
      next r (verifies x.db_now x.job_id env.id (job, found, holds)),
      (
        record job { status = EnvStatus.verifying },
        update_there (λ (j : Job). j.id) x.job_id (λ j. record j { status = EnvStatus.verifying })
            db.jobs (λ j. refl) job found,
        ground (arith, holds),
      ),
    )

    -- Where the image is another environment's, the row is not written and the job goes on.
    ended-Reach :
        (image : String) (db : BuildDb)
        → x.progress "RUNTIME_READY" ≡ ok tt
        → AtWork db
        → Ends
            (λ (u : Unit {0}) d. Reach start d)
            (λ e d. AtWork d)
            ((mark_ready x.db_now image env.id x.job_id >> emit x "RUNTIME_READY") db)
    unfolding mark_ready
    ended-Reach image db calm (r, holds) =
        let r' = next r (succeeds x.db_now image x.job_id env.id holds) in
        elim (Bool-cases (image_clash image env.id db.environments)) [
          | inl clash ↦ rw clash (r, holds)
          | inr free ↦ rw (free, calm) (rw free at r')
        ]

    tried-Reach :
        (spec : RuntimeBuildSpec) (db : BuildDb)
        → x.progress "RUNTIME_READY" ≡ ok tt
        → AtWork db
        → Ends
            (λ (u : Unit {0}) d. Reach start d)
            (λ e d. AtWork d)
            (try_build x env spec x.job_id db)
    unfolding try_build mark_verifying
    tried-Reach spec db calm h =
        elim (Result-cases (x.build_runtime_image spec ("env-" <> env.id))) [
          | inr (e, raised) ↦ rw raised h
          | inl (image, built) ↦ elim (Result-cases (x.progress "VERIFYING_RUNTIME")) [
            | inr (e, raised) ↦ rw (built, raised) (verified-AtWork db h)
            | inl (u, told) ↦ elim (Result-cases (x.parse_locked_packages spec.requirements_lock)) [
              | inr (e, raised) ↦ rw (built, told, raised) (verified-AtWork db h)
              | inl (packages, parsed) ↦
                  elim (Result-cases (x.verify_runtime_image image packages)) [
                    | inr (e, raised) ↦ rw (built, told, parsed, raised) (verified-AtWork db h)
                    | inl (u', good) ↦
                        rw (built, told, parsed, good)
                          (ended-Reach image (mark_verifying x.db_now env.id x.job_id db).1 calm
                            (verified-AtWork db h))
                  ]
            ]
          ]
        ]

    failed-Reach :
        (e : Exn) (db : BuildDb)
        → AtWork db
        → Ends
            (λ (u : Unit {0}) d. Reach start d)
            (λ e d. Reach start d)
            (on_failure x env x.job_id e db)
    unfolding on_failure mark_failed
    failed-Reach e db (r, holds) =
        let r' = next r (fails x.db_now (x.describe e) x.job_id env.id holds) in
        elim (Result-cases (x.progress "RUNTIME_FAILED")) [
          | inr (e', raised) ↦ rw raised r'
          | inl (u, told) ↦ rw told r'
        ]

    attempted-Reach :
        (spec : RuntimeBuildSpec) (db : BuildDb)
        → x.progress "RUNTIME_READY" ≡ ok tt
        → AtWork db
        → Reach start (catch (try_build x env spec x.job_id) (on_failure x env x.job_id) db).1
    attempted-Reach spec db calm h =
        Ends-state (λ d. Reach start d)
          (catch (try_build x env spec x.job_id) (on_failure x env x.job_id) db)
          (Ends-handle (λ (u : Unit {0}) d. Reach start d) (λ e d. AtWork d) (λ e d. Reach start d)
            (try_build x env spec x.job_id db) (on_failure x env x.job_id)
            (tried-Reach spec db calm h) failed-Reach)

    run_build-Reach :
        (request_key : String) (spec : RuntimeBuildSpec) (db : BuildDb)
        → x.progress "RUNTIME_READY" ≡ ok tt
        → AtWork db
        → Reach start (run_build x request_key env spec (some x.job_id) db).1
    run_build-Reach request_key spec db calm h =
        elim (Result-cases (x.parse_locked_packages spec.requirements_lock)) [
          | inr (e, raised) ↦ rw raised h.0
          | inl (packages, parsed) ↦ elim (Result-cases (x.progress "BUILDING_RUNTIME")) [
            | inr (e, raised) ↦ rw (parsed, raised) h.0
            | inl (u, told) ↦
                let done = attempted-Reach spec db calm h in
                elim (Result-cases
                  (catch (try_build x env spec x.job_id) (on_failure x env x.job_id) db).0) [
                    | inl (u', ended) ↦ rw (parsed, told, ended) done
                    | inr (e, raised) ↦ rw (parsed, told, raised) done
                  ]
          ]
        ]

    waited-Reach :
        (request_key : String) (spec : RuntimeBuildSpec) (db : BuildDb)
        → Reach start db
        → Reach start (run_build x request_key env spec none db).1
    waited-Reach request_key spec db r = elim (Result-cases (x.progress "WAITING_RUNTIME")) [
      | inr (e, raised) ↦ rw raised r
      | inl (u, told) ↦ rw told r
    ]

    pub build-Reach :
        (request_key : String) (spec : RuntimeBuildSpec) (db : BuildDb)
        → x.progress "RUNTIME_READY" ≡ ok tt
        → job_row x.job_id db ≡ none
        → Reach start db
        → Reach start (build x request_key env spec db).1
    unfolding build claim_build
    build-Reach request_key spec db calm fresh r =
        let r' = next r (claims x.db_now x.job_id env.id fresh) in
        elim (Bool-cases (exists_where (is_claimable env.id) db.environments)) [
          | inr taken ↦ rw taken (waited-Reach request_key spec db r)
          | inl free ↦ rw free (
              run_build-Reach request_key spec _ calm (
                rw free at r',
                (
                  new_job x.db_now x.job_id env.id,
                  append_there (λ (j : Job). j.id) (new_job x.db_now x.job_id env.id) db.jobs fresh,
                  rw (eq_self env.id) refl,
                ),
              ))
        ]
