-- ===== src/Build/Ending.antt =====
-- How a build that was claimed ends.
use runner_engine.Prelude.{
  ◌≡◌, refl, ap, ◌∙◌, String, string_eq, Bool, true, ◌||◌, Option, some, ◌==◌, inl, inr, last_chars,
  Bool-cases, false, subst, sym, ◌&&◌, List,
}
use Prim.Native.String.{◌++◌}
use runner_engine.Dict.{Dict}
use runner_engine.Errors.{Exn, Result, Result-cases, ok, err}
use runner_engine.Exec.{catch, ◌>>◌}
use runner_engine.Exec.Ends.{Ends, Ends-handle, Ends-state}
use runner_engine.Table.{find_where, exists_where, find-update, find_meets}
use runner_engine.Table.Rows.{find-exists_both, exists-update}
use runner_engine.Build.{
  EnvStatus, failed, is_pending, is_ready, is_failed, Environment, Job, BuildDb, RuntimeBuildSpec,
  has_env_id, is_claimable, claimed, claim_build, mark_verifying, mark_ready, mark_failed, mark,
  ready_env, ready_job, has_image, image_clash, building, Alias, has_request, get_for_request,
  join_env,
}
use runner_engine.Build.Resolve.{Tools, try_build, on_failure, build, emit, retry, not_failed}

abbrev pub env_row : String → BuildDb → Option Environment
env_row env_id db = find_where (has_env_id env_id) db.environments

abbrev pub is_over : EnvStatus → Bool
is_over status = is_ready status || is_failed status

-- The environment is there and READY or FAILED.
abbrev pub Over : String → BuildDb → Type 0
Over env_id db = (row : Environment) × (env_row env_id db ≡ some row) × (is_over row.status ≡ true)

abbrev There : String → BuildDb → Type 0
There env_id db = (row : Environment) × (env_row env_id db ≡ some row)

module _ (env_id : String) where
  -- The row after a mark.
  mark-row :
      (f : Environment → Environment) (g : Job → Job) (job_id : String) (db : BuildDb)
      (row : Environment)
      → ((r : Environment) → (f r).id ≡ r.id)
      → env_row env_id db ≡ some row
      → env_row env_id (mark f g env_id job_id db).1 ≡ some (f row)
  mark-row f g job_id db row same found =
      find-update (has_env_id env_id) (has_env_id env_id) f db.environments
        (λ r. ap (λ id. id == env_id) (same r))
      ∙ rw (found, find_meets (has_env_id env_id) row db.environments found) refl

module _ (x : Tools) (request_key : String) (env : Environment) (spec : RuntimeBuildSpec) where
  abbrev Ready-or-There : Result (Unit {0}) × BuildDb → Type 0
  Ready-or-There = Ends (λ (u : Unit {0}) db. Over env.id db) (λ e db. There env.id db)

  abbrev verifying_row : Environment → Environment
  verifying_row row = record row { status = EnvStatus.verifying; updated_at = x.db_now }

  module _ (job_id : String) where
    -- The end of the try: the image that was verified may be another environment's.
    ended-Ends :
        (image : String) (db : BuildDb)
        → There env.id db
        → Ready-or-There ((mark_ready x.db_now image env.id job_id >> emit x "RUNTIME_READY") db)
    unfolding mark_ready
    ended-Ends image db (row, found) =
        elim (Bool-cases (image_clash image env.id db.environments)) [
          | inl clash ↦ rw clash (row, found)
          | inr free ↦
              let found' =
                mark-row env.id (ready_env x.db_now image) (ready_job x.db_now) job_id db row
                  (λ r. refl) found in
              elim (Result-cases (x.progress "RUNTIME_READY")) [
                | inr (e, raised) ↦ rw (free, raised) (_, found')
                | inl (u, told) ↦ rw (free, told) (_, found', refl)
              ]
        ]

    try_build-Ends :
        (db : BuildDb) → There env.id db → Ready-or-There (try_build x env spec job_id db)
    unfolding try_build mark_verifying
    try_build-Ends db (row, found) =
        elim (Result-cases (x.build_runtime_image spec ("env-" ++ env.id))) [
          | inr (e, raised) ↦ rw raised (row, found)
          | inl (image, built) ↦
              let found₁ =
                mark-row env.id _ (λ job. record job { status = EnvStatus.verifying }) job_id db row
                  (λ r. refl) found in
              elim (Result-cases (x.progress "VERIFYING_RUNTIME")) [
                | inr (e, raised) ↦ rw (built, raised) (verifying_row row, found₁)
                | inl (u, told) ↦
                    elim (Result-cases (x.parse_locked_packages spec.requirements_lock)) [
                      | inr (e, raised) ↦ rw (built, told, raised) (verifying_row row, found₁)
                      | inl (packages, parsed) ↦
                          elim (Result-cases (x.verify_runtime_image image packages)) [
                            | inr (e, raised) ↦
                                rw (built, told, parsed, raised) (verifying_row row, found₁)
                            | inl (u', verified) ↦
                                rw (built, told, parsed, verified)
                                  (ended-Ends image (mark_verifying x.db_now env.id job_id db).1
                                    (verifying_row row, found₁))
                          ]
                    ]
              ]
        ]

    on_failure-Over :
        (e : Exn) (db : BuildDb)
        → There env.id db
        → Ends
            (λ (u : Unit {0}) db. Over env.id db)
            (λ e db. Over env.id db)
            (on_failure x env job_id e db)
    unfolding on_failure mark_failed
    on_failure-Over e db (row, found) =
        let found' =
          mark-row env.id _
            (λ job. record job {
              status = failed;
              error_message = some (last_chars 8192 (x.describe e));
              finished_at = some x.db_now;
            })
            job_id db row (λ r. refl) found in
        elim (Result-cases (x.progress "RUNTIME_FAILED")) [
          | inr (e', raised) ↦ rw raised (_, found', refl)
          | inl (u, told) ↦ rw told (_, found', refl)
        ]

    attempted-Over :
        (db : BuildDb)
        → There env.id db
        → Over env.id (catch (try_build x env spec job_id) (on_failure x env job_id) db).1
    attempted-Over db there =
        Ends-state (λ d. Over env.id d)
          (catch (try_build x env spec job_id) (on_failure x env job_id) db)
          (Ends-handle (λ (u : Unit {0}) d. Over env.id d) (λ e d. There env.id d)
            (λ e d. Over env.id d) (try_build x env spec job_id db) (on_failure x env job_id)
            (try_build-Ends db there) on_failure-Over)

  -- The claim of a PENDING environment.
  claim-row :
      (db : BuildDb) (row : Environment)
      → env_row env.id db ≡ some row
      → is_pending row.status ≡ true
      → ((claim_build x.db_now x.job_id env.id db).0 ≡ ok (some x.job_id))
        × (env_row env.id (claim_build x.db_now x.job_id env.id db).1 ≡ some (claimed x.db_now row))
  unfolding claim_build
  claim-row db row found open_ =
      let here = find_meets (has_env_id env.id) row db.environments found in
      let claimable : exists_where (is_claimable env.id) db.environments ≡ true =
        find-exists_both (has_env_id env.id) (λ r. is_pending r.status) db.environments row found
          open_ in
      rw claimable (
        refl,
        find-update (has_env_id env.id) (is_claimable env.id) (claimed x.db_now) db.environments
              (λ r. refl)
            ∙ rw (found, here, open_) refl,
      )

  claim-aliases : (db : BuildDb) → (claim_build x.db_now x.job_id env.id db).1.aliases ≡ db.aliases
  unfolding claim_build
  claim-aliases db = elim (Bool-cases (exists_where (is_claimable env.id) db.environments)) [
    | inl free ↦ rw free refl
    | inr taken ↦ rw taken refl
  ]

  found-request :
      (db : BuildDb) (row : Environment) (alias : Alias)
      → find_where (has_request request_key) db.aliases ≡ some alias
      → alias.env_id ≡ env.id
      → env_row env.id db ≡ some row
      → get_for_request request_key db ≡ some (row, alias.resolution_kind)
  unfolding get_for_request
  found-request db row alias bound same found =
      let there : env_row alias.env_id db ≡ some row =
        subst (λ i. env_row i db ≡ some row) (sym same) found in
      rw (bound, join_env, there) refl

  and_false : (a : Bool) → (a && false) ≡ false
  and_false true = refl
  and_false false = refl

  -- Neither the claim nor the first mark writes the image.
  no-clash :
      (image job_id : String) (db : BuildDb)
      → exists_where (has_image image env.id) db.environments ≡ false
      → image_clash image env.id
          (mark_verifying x.db_now env.id job_id
            (claim_build x.db_now x.job_id env.id db).1).1.environments
        ≡ false
  unfolding claim_build mark_verifying
  no-clash image job_id db own =
      let q = has_image image env.id in
      let claimed_too =
        exists-update q (is_claimable env.id) (claimed x.db_now) db.environments (λ r. refl) in
      let marked = λ (envs : List Environment).
        exists-update q (has_env_id env.id) verifying_row envs (λ r. refl) in
      elim (Bool-cases (exists_where (is_claimable env.id) db.environments)) [
        | inl free ↦ rw (free, marked _, claimed_too, own) (and_false _)
        | inr taken ↦ rw (taken, marked _, own) (and_false _)
      ]

  -- A build of an environment that is PENDING, whose lock can be read and whose progress callback
  -- takes the stage BUILDING_RUNTIME, leaves the environment READY or FAILED, whether it returns
  -- or raises and whatever the builder, the verification and the later stages of the callback do.
  pub build_ends :
      (db : BuildDb) (row : Environment) (packages : Dict String String)
      → env_row env.id db ≡ some row
      → is_pending row.status ≡ true
      → x.parse_locked_packages spec.requirements_lock ≡ ok packages
      → x.progress "BUILDING_RUNTIME" ≡ ok tt
      → Over env.id (build x request_key env spec db).1
  unfolding build
  build_ends db row packages found open_ parsed told =
      let claim = claim-row db row found open_ in
      let done =
        attempted-Over x.job_id (claim_build x.db_now x.job_id env.id db).1
          (claimed x.db_now row, claim.1) in
      elim (Result-cases
        (catch (try_build x env spec x.job_id) (on_failure x env x.job_id)
          (claim_build x.db_now x.job_id env.id db).1).0) [
            | inl (u, ended) ↦ rw (claim.0, parsed, told, ended) done
            | inr (e, raised) ↦ rw (claim.0, parsed, told, raised) done
          ]

  -- If the progress callback raises at the stage BUILDING_RUNTIME, the build of a PENDING
  -- environment that the request is bound to and whose lock can be read raises the same exception
  -- and leaves the environment BUILDING; a retry of the request is then refused for the status
  -- BUILDING and changes nothing.
  pub build_sticks :
      (y : Tools) (db : BuildDb) (row : Environment) (alias : Alias) (packages : Dict String String)
      (e : Exn)
      → env_row env.id db ≡ some row
      → is_pending row.status ≡ true
      → find_where (has_request request_key) db.aliases ≡ some alias
      → alias.env_id ≡ env.id
      → x.parse_locked_packages spec.requirements_lock ≡ ok packages
      → x.progress "BUILDING_RUNTIME" ≡ err e
      → (db' : BuildDb) × (build x request_key env spec db ≡ (err e, db'))
        × ((row' : Environment) × (env_row env.id db' ≡ some row') × (row'.status ≡ building))
        × (retry y request_key db' ≡ (err (not_failed building), db'))
  unfolding build retry
  build_sticks y db row alias packages e found open_ bound same parsed told =
      let claim = claim-row db row found open_ in
      (
        (claim_build x.db_now x.job_id env.id db).1,
        rw (claim.0, parsed, told) refl,
        (claimed x.db_now row, claim.1, refl),
        rw
            (found-request (claim_build x.db_now x.job_id env.id db).1 (claimed x.db_now row) alias
              (ap (find_where (has_request request_key)) (claim-aliases db) ∙ bound) same claim.1)
            refl,
      )

  -- If no other environment has the image, the image of a PENDING environment is built and
  -- verified, and the progress callback takes every stage before RUNTIME_READY and raises there,
  -- the build leaves the environment FAILED, with the reference of the image that was verified.
  pub build_undone :
      (db : BuildDb) (row : Environment) (packages : Dict String String) (image : String) (e : Exn)
      → env_row env.id db ≡ some row
      → is_pending row.status ≡ true
      → exists_where (has_image image env.id) db.environments ≡ false
      → x.parse_locked_packages spec.requirements_lock ≡ ok packages
      → x.progress "BUILDING_RUNTIME" ≡ ok tt
      → x.build_runtime_image spec ("env-" ++ env.id) ≡ ok image
      → x.progress "VERIFYING_RUNTIME" ≡ ok tt
      → x.verify_runtime_image image packages ≡ ok tt
      → x.progress "RUNTIME_READY" ≡ err e
      → (row' : Environment) × (env_row env.id (build x request_key env spec db).1 ≡ some row')
        × (is_failed row'.status ≡ true)
        × (row'.image_ref ≡ some image)
  unfolding build try_build on_failure mark_verifying mark_ready mark_failed
  build_undone db row packages image e found open_ own parsed told built told₂ good raised =
      let claim = claim-row db row found open_ in
      let job = x.job_id in
      let message = last_chars 8192 (x.describe e) in
      let db₁ = (claim_build x.db_now job env.id db).1 in
      let db₂ = (mark_verifying x.db_now env.id job db₁).1 in
      let row₂ : Environment = verifying_row (claimed x.db_now row) in
      let row₃ : Environment = ready_env x.db_now image row₂ in
      let row₄ : Environment = record row₃ {
        status = failed;
        last_error = some message;
        updated_at = x.db_now;
      } in
      let free : image_clash image env.id db₂.environments ≡ false = no-clash image job db own in
      let f₂ =
        mark-row env.id verifying_row (λ j. record j { status = EnvStatus.verifying }) job db₁
          (claimed x.db_now row) (λ r. refl) claim.1 in
      let f₃ =
        mark-row env.id (ready_env x.db_now image) (ready_job x.db_now) job db₂ row₂ (λ r. refl)
          f₂ in
      let f₄ =
        mark-row env.id
          (λ r. record r { status = failed; last_error = some message; updated_at = x.db_now })
          (λ j. record j {
            status = failed;
            error_message = some message;
            finished_at = some x.db_now;
          })
          job (mark (ready_env x.db_now image) (ready_job x.db_now) env.id job db₂).1 row₃
          (λ r. refl) f₃ in
      elim (Result-cases (x.progress "RUNTIME_FAILED")) [
        | inl (u, told₃) ↦
            rw (claim.0, parsed, told, built, told₂, good, free, raised, told₃)
              (row₄, f₄, refl, refl)
        | inr (e', raised₃) ↦
            rw (claim.0, parsed, told, built, told₂, good, free, raised, raised₃)
              (row₄, f₄, refl, refl)
      ]
