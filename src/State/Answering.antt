-- ===== src/State/Answering.antt =====
-- What the row of a claim was like whose stored result `begin_run` answers with.
use runner_engine.Prelude.{
  ℕ, ◌+◌, ◌<◌, ◌≡◌, refl, sym, ◌∙◌, String, string_eq, true, false, Option, none, some, arith, ap,
  Bool-cases, Option-cases, inl, inr,
}
use runner_engine.Errors.{Result, ok, err}
use runner_engine.Model.{RunResult}
use runner_engine.State.{Clocks, KeyRow, KeyState, ResultDict, Db}
use runner_engine.State.Results.{Base64, result_from_dict}
use runner_engine.State.Claims.{
  Claim, RunClaim, name_eq, name_of, name_of_claim, key_is_running, is_after, count_replay, cached,
}
use runner_engine.State.Runs.{begin_run}
use runner_engine.State.Ledger.{key_row, run_row}
use runner_engine.State.Begun.{begin_run_cases, conflict, in_progress, replayed, begun, begun_again}
use runner_engine.Table.Keyed.{update_there}

-- The row is DONE and replayable, has not expired and stores the result.
pub record Replays (base64 : Base64) (now : ℕ) (r : RunResult) (row : KeyRow) : Type 0 where
  pub expiry : ℕ
  pub stored : ResultDict
  pub is_done : row.state ≡ KeyState.done
  pub is_replayable : row.replayable ≡ true
  pub expires : row.expires_at ≡ some expiry
  pub in_time : now < expiry
  pub has_stored : row.result_json ≡ some stored
  pub same_result : result_from_dict base64 stored ≡ r

module _ (base64 : Base64) (now : ℕ) (row : KeyRow) (r : RunResult) where
  done_of : (s : KeyState) → key_is_running s ≡ false → s ≡ KeyState.done
  done_of KeyState.running h = cc h
  done_of KeyState.done h = refl

  expiry_of : (e : Option ℕ) → is_after e now ≡ true → (t : ℕ) × (e ≡ some t) × (now < t)
  expiry_of none h = cc h
  expiry_of (some t) h = (t, refl, ground (arith, h))

  abbrev value : Option RunResult → RunResult
  value none = r
  value (some a) = a

  valid-Replays :
      (stored : ResultDict)
      → row.result_json ≡ some stored
      → result_from_dict base64 stored ≡ r
      → key_is_running row.state ≡ false
      → row.replayable ≡ true
      → is_after row.expires_at now ≡ true
      → Replays base64 now r row
  valid-Replays stored has same ended replayable after_ =
      let (t, expires, soon) = expiry_of row.expires_at after_ in
      record {
        expiry = t;
        stored = stored;
        is_done = done_of row.state ended;
        is_replayable = replayable;
        expires = expires;
        in_time = soon;
        has_stored = has;
        same_result = same;
      }

  cached-Replays : cached base64 now row ≡ some r → Replays base64 now r row
  unfolding cached
  cached-Replays hit = elim (Option-cases row.result_json) [
    | inl absent ↦ cc (rw absent at hit)
    | inr (stored, has) ↦ elim (Bool-cases (key_is_running row.state)) [
      | inl running ↦ cc (rw (has, running) at hit)
      | inr ended ↦ elim (Bool-cases row.replayable) [
        | inr final ↦ cc (rw (has, ended, final) at hit)
        | inl replayable ↦ elim (Bool-cases (is_after row.expires_at now)) [
          | inr over ↦ cc (rw (has, ended, replayable, over) at hit)
          | inl after_ ↦
              valid-Replays stored has (ap value (rw (has, ended, replayable, after_) at hit)) ended
                replayable after_
        ]
      ]
    ]
  ]

module _ (base64 : Base64) (c : Clocks) (run_id : String) (q : Claim) (db : Db) where
  abbrev answer_of : Result RunClaim → Option RunResult
  answer_of (ok a) = a.cached_result
  answer_of (err e) = none

  -- If begin_run, with a UUID that names no execution, answers with a stored result, then the
  -- claim of the request was there with the fingerprint of the request, DONE, replayable, before
  -- its expiry, with a JSON object that reads as exactly that result; the claim has one replay
  -- more, the last one and the last change at the time of the database, and is otherwise as it
  -- was, no execution is added or changed, and no identifier of an execution is given.
  pub begin_run-Replays :
      (a : RunClaim) (r : RunResult)
      → run_row run_id db ≡ none
      → (begin_run base64 c run_id q db).0 ≡ ok a
      → a.cached_result ≡ some r
      → (row : KeyRow) × (key_row (name_of_claim q) db ≡ some row)
        × (row.request_fingerprint ≡ q.request_fingerprint)
        × Replays base64 c.now r row
        × (key_row (name_of_claim q) (begin_run base64 c run_id q db).1
            ≡ some (record row {
              replay_count = row.replay_count + 1;
              last_replayed_at = some c.db_now;
              updated_at = c.db_now;
            }))
        × ((begin_run base64 c run_id q db).1.runs ≡ db.runs)
        × (a.run_id ≡ none)
  begin_run-Replays a r missing answered has =
      let known : answer_of (begin_run base64 c run_id q db).0 ≡ some r =
        ap answer_of answered ∙ has in
      elim (begin_run_cases base64 c run_id q db missing) [
        | conflict row there differ e ↦ cc (ap (λ x. answer_of x.0) e, known)
        | in_progress row there same running e ↦ cc (ap (λ x. answer_of x.0) e, known)
        | begun absent e ↦ cc (ap (λ x. answer_of x.0) e, known)
        | begun_again row there same ended stale e ↦ cc (ap (λ x. answer_of x.0) e, known)
        | replayed row r' there same hit e ↦
            let mine : some r' ≡ some r = sym (ap (λ x. answer_of x.0) e) ∙ known in
            let answer = ap (λ x. x.0) e in
            (
              row,
              there,
              same,
              cached-Replays base64 c.now row r (hit ∙ mine),
              rw (ap (λ x. x.1) e) (
                  update_there name_of (name_of_claim q) (count_replay c) db.idempotency_keys
                    (λ k. refl) row there),
              rw (ap (λ x. x.1) e) refl,
              begun_none a (sym answered ∙ answer),
            )
      ]
    where
      id_of : Result RunClaim → Option String
      id_of (ok b) = b.run_id
      id_of (err e) = none

      begun_none :
          (a : RunClaim) {r' : RunResult}
          → ok a ≡ ok (record { run_id = none; cached_result = some r' })
          → a.run_id ≡ none
      begun_none a e = ap id_of e
