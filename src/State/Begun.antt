-- ===== src/State/Begun.antt =====
-- What a call of `begin_run` answers: a refusal, the stored result, or a new execution.
use runner_engine.Prelude.{
  ◌≡◌, ◌≢◌, refl, sym, ◌∙◌, String, string_eq, true, false, Option, none, some, ◌==◌, arith, eq→≡,
  Option-cases, Bool-cases, ap, inl, inr, subst,
}
use runner_engine.Errors.{ok, err, failure}
use runner_engine.Table.{update_where, update_found, find-update, count-update}
use runner_engine.Model.{RunResult}
use runner_engine.State.{Clocks, KeyRow, Db}
use runner_engine.State.Results.{Base64}
use runner_engine.State.Claims.{
  Claim, KeyName, name_eq, name_of_run, name_of_claim, names_key, key_is_running, count_replay,
  judge, write_claim, cached,
}
use runner_engine.State.Runs.{begin_run}
use runner_engine.State.Ledger.{key_row, run_row, RunningFor, ClaimedBy, IsLedger}
use runner_engine.State.Beginning.{Starts-IsLedger}
use runner_engine.State.Starting.{
  with_run, added, taken, claimed, write_fresh, write_again, fresh-Starts, again-Starts,
}

abbrev pub counted : Clocks → Claim → Db → Db
counted c q db = record db {
  idempotency_keys =
      update_where (names_key (name_of_claim q)) (count_replay c) db.idempotency_keys;
}

-- The answer of `begin_run` and the tables that it leaves, with the row that made it so.
pub data Begun (base64 : Base64) (c : Clocks) (run_id : String) (q : Claim) (db : Db) : Type 0 where
  conflict :
      (row : KeyRow)
      → key_row (name_of_claim q) db ≡ some row
      → row.request_fingerprint ≢ q.request_fingerprint
      → begin_run base64 c run_id q db ≡ (
        err (
            failure "IDEMPOTENCY_CONFLICT"
              "idempotency key was reused for different request content" false),
        db,
      )
      → Begun base64 c run_id q db
  in_progress :
      (row : KeyRow)
      → key_row (name_of_claim q) db ≡ some row
      → row.request_fingerprint ≡ q.request_fingerprint
      → key_is_running row.state ≡ true
      → begin_run base64 c run_id q db
        ≡ (err (failure "RUN_IN_PROGRESS" "same logical request is already running" true), db)
      → Begun base64 c run_id q db
  replayed :
      (row : KeyRow) (r : RunResult)
      → key_row (name_of_claim q) db ≡ some row
      → row.request_fingerprint ≡ q.request_fingerprint
      → cached base64 c.now row ≡ some r
      → begin_run base64 c run_id q db
        ≡ (ok (record { run_id = none; cached_result = some r }), counted c q db)
      → Begun base64 c run_id q db
  begun :
      key_row (name_of_claim q) db ≡ none
      → begin_run base64 c run_id q db
        ≡ (ok (claimed c run_id q db), with_run c run_id q db (added c run_id q db))
      → Begun base64 c run_id q db
  begun_again :
      (row : KeyRow)
      → key_row (name_of_claim q) db ≡ some row
      → row.request_fingerprint ≡ q.request_fingerprint
      → key_is_running row.state ≡ false
      → cached base64 c.now row ≡ none
      → begin_run base64 c run_id q db
        ≡ (ok (claimed c run_id q db), with_run c run_id q db (taken c run_id q db))
      → Begun base64 c run_id q db

module _ (base64 : Base64) (c : Clocks) (run_id : String) (q : Claim) (db : Db) where
  module _ (missing : run_row run_id db ≡ none) where
    on_row :
        (row : KeyRow)
        → key_row (name_of_claim q) db ≡ some row
        → row.request_fingerprint ≡ q.request_fingerprint
        → key_is_running row.state ≡ false
        → Begun base64 c run_id q db
    unfolding begin_run judge write_claim
    on_row row there same ended =
        let e : (row.request_fingerprint == q.request_fingerprint) ≡ true =
          (string_eq.is_same_iff row.request_fingerprint q.request_fingerprint).1 same in
        elim (Option-cases (cached base64 c.now row)) [
          | inl stale ↦
              begun_again row there same ended stale
                (rw (there, e, ended, stale, write_again c run_id q db missing) refl)
          | inr (r, hit) ↦ replayed row r there same hit (rw (there, e, ended, hit) refl)
        ]

    -- If the UUID that begin_run draws names no execution yet, begin_run does one of five things:
    -- it raises IDEMPOTENCY_CONFLICT on a claim with another fingerprint, or RUN_IN_PROGRESS on a
    -- RUNNING claim, and changes nothing; it answers with the claim's valid cached result and
    -- counts the replay; it adds a claim and an execution where there was no claim; or it takes an
    -- ended claim without a valid cached result again and adds an execution.
    pub begin_run_cases : Begun base64 c run_id q db
    unfolding begin_run judge
    begin_run_cases = elim (Option-cases (key_row (name_of_claim q) db)) [
      | inl absent ↦ begun absent (rw (absent, write_fresh c run_id q db absent missing) refl)
      | inr (row, there) ↦ elim (Bool-cases (row.request_fingerprint == q.request_fingerprint)) [
        | inr other ↦
            conflict row there
              (λ same. cc (
                (string_eq.is_same_iff row.request_fingerprint q.request_fingerprint).1 same,
                other,
              ))
              (rw (there, other) refl)
        | inl match ↦
            let same = eq→≡ row.request_fingerprint q.request_fingerprint match in
            elim (Bool-cases (key_is_running row.state)) [
              | inl running ↦ in_progress row there same running (rw (there, match, running) refl)
              | inr ended ↦ on_row row there same ended
            ]
      ]
    ]

  module _ (m : KeyName) where
    counted_back :
        (o : Option KeyRow) (row : KeyRow)
        → update_found (names_key m) (names_key (name_of_claim q)) (count_replay c) o ≡ some row
        → (old : KeyRow) × (o ≡ some old)
          × (old.current_run_id ≡ row.current_run_id)
          × (old.state ≡ row.state)
    counted_back none row e = cc
    counted_back (some old) row e = elim (Bool-cases (names_key (name_of_claim q) old)) [
      | inl hit ↦
          let same : some (count_replay c old) ≡ some row = rw hit at e in
          (
            old,
            refl,
            grind (arith, same, ap (λ x. x.current_run_id) {x = count_replay c old} {y = row}),
            grind (arith, same, ap (λ x. x.state) {x = count_replay c old} {y = row}),
          )
      | inr miss ↦
          let same : some old ≡ some row = rw miss at e in
          (
            old,
            refl,
            grind (arith, same, ap (λ x. x.current_run_id) {x = old} {y = row}),
            grind (arith, same, ap (λ x. x.state) {x = old} {y = row}),
          )
    ]

    counted_claim :
        (id : String) (o : Option KeyRow)
        → ClaimedBy id o
        → ClaimedBy id (update_found (names_key m) (names_key (name_of_claim q)) (count_replay c) o)
    counted_claim id none h = h
    counted_claim id (some old) h = elim (Bool-cases (names_key (name_of_claim q) old)) [
      | inl hit ↦ rw hit h
      | inr miss ↦ rw miss h
    ]

    counted_row :
        key_row m (counted c q db)
        ≡ update_found (names_key m) (names_key (name_of_claim q)) (count_replay c) (key_row m db)
    counted_row =
        find-update (names_key m) (names_key (name_of_claim q)) (count_replay c) db.idempotency_keys
          (λ r. refl)

  -- The counters of a replay are nothing to the ledger.
  counted-IsLedger : IsLedger db → IsLedger (counted c q db)
  counted-IsLedger v = record {
    unique_keys = λ m.
        rw
          (count-update (names_key m) (names_key (name_of_claim q)) (count_replay c)
            db.idempotency_keys (λ r. refl))
          (v.unique_keys m);
    unique_runs = v.unique_runs;
    claim_runs = λ m row f r.
        let (old, there, id, state) = counted_back m (key_row m db) row (sym (counted_row m) ∙ f) in
        subst (λ i. RunningFor m (run_row i db)) id
          (v.claim_runs m old there (ap key_is_running state ∙ r));
    run_claimed = λ j run f r. subst (ClaimedBy j) (sym (counted_row (name_of_run run))) (
        counted_claim (name_of_run run) j (key_row (name_of_run run) db) (v.run_claimed j run f r));
  }

  -- If the UUID that begin_run draws names no execution yet, begin_run keeps the ledger, whatever
  -- it answers: keys and executions stay unique, every RUNNING claim belongs to a RUNNING
  -- execution of its own request, and every RUNNING execution is claimed by its request's key.
  pub begin_run-IsLedger :
      run_row run_id db ≡ none → IsLedger db → IsLedger (begin_run base64 c run_id q db).1
  begin_run-IsLedger missing v = elim (begin_run_cases missing) [
    | conflict row there differ e ↦ rw (ap (λ x. x.1) e) v
    | in_progress row there same r e ↦ rw (ap (λ x. x.1) e) v
    | replayed row r there same hit e ↦ rw (ap (λ x. x.1) e) (counted-IsLedger v)
    | begun absent e ↦ rw (ap (λ x. x.1) e) (
        Starts-IsLedger db (with_run c run_id q db (added c run_id q db)) (name_of_claim q) run_id
          (fresh-Starts c run_id q db v missing absent) v)
    | begun_again row there same ended stale e ↦ rw (ap (λ x. x.1) e) (
        Starts-IsLedger db (with_run c run_id q db (taken c run_id q db)) (name_of_claim q) run_id
          (again-Starts c run_id q db v missing row there ended) v)
  ]
