-- ===== src/State/Replaying.antt =====
-- What a repeated request gets: the stored result of `finish_run`, or an execution of its own.
use runner_engine.Prelude.{
  ℕ, ◌+◌, ◌<◌, ◌≡◌, refl, sym, ◌∙◌, String, string_eq, true, false, none, some, arith, ap, inl, inr,
  ltb,
}
use runner_engine.Errors.{ok}
use runner_engine.Table.{find-update, find_of_count}
use runner_engine.Table.Keyed.{append_there, update_there}
use runner_engine.Model.{RunResult}
use runner_engine.State.{Clocks, RunRow, RunState, KeyRow, KeyState, Db}
use runner_engine.State.Leases.{milliseconds}
use runner_engine.State.Results.{Base64, from_dict-to_dict}
use runner_engine.State.Claims.{
  Claim, name_eq, name_of_claim, names_key, key_is_running, judge, write_claim, cached, new_run,
  reclaimed, name_of, name_of_run,
}
use runner_engine.State.Runs.{begin_run, finish_run, finished_key, is_running_claim}
use runner_engine.State.Ledger.{key_row, run_row, IsLedger}
use runner_engine.State.Endings.{finish_run_cases}
use runner_engine.State.Starting.{claimed, with_run, taken, write_again}
use runner_engine.State.Begun.{counted}

module _ (base64 : Base64) (c : Clocks) (run_id : String) (q : Claim) (db : Db) (row : KeyRow) where
  begin_hit :
      (r : RunResult)
      → key_row (name_of_claim q) db ≡ some row
      → row.request_fingerprint ≡ q.request_fingerprint
      → key_is_running row.state ≡ false
      → cached base64 c.now row ≡ some r
      → begin_run base64 c run_id q db
        ≡ (ok (record { run_id = none; cached_result = some r }), counted c q db)
  unfolding begin_run judge write_claim
  begin_hit r there same ended hit =
      rw
        (
          there,
          (string_eq.is_same_iff row.request_fingerprint q.request_fingerprint).1 same,
          ended,
          hit,
        )
        refl

  begin_miss :
      key_row (name_of_claim q) db ≡ some row
      → row.request_fingerprint ≡ q.request_fingerprint
      → key_is_running row.state ≡ false
      → cached base64 c.now row ≡ none
      → run_row run_id db ≡ none
      → begin_run base64 c run_id q db
        ≡ (ok (claimed c run_id q db), with_run c run_id q db (taken c run_id q db))
  unfolding begin_run judge
  begin_miss there same ended miss missing =
      rw
        (
          there,
          (string_eq.is_same_iff row.request_fingerprint q.request_fingerprint).1 same,
          ended,
          miss,
          write_again c run_id q db missing,
        )
        refl

module _ (base64 : Base64) (c : Clocks) (id : String) (q : Claim) (result : RunResult)
    (retention_ms : ℕ) (db : Db) (v : IsLedger db) (row : KeyRow)
    (there : key_row (name_of_claim q) db ≡ some row) where
  -- The claim's row after `finish_run` returned.
  finished_row :
      (finish_run base64 c id q.key q.tenant_id q.release_id result retention_ms db).0 ≡ ok tt
      → key_row
          (name_of_claim q)
          (finish_run base64 c id q.key q.tenant_id q.release_id result retention_ms db).1
        ≡ some (finished_key base64 c result retention_ms row)
  finished_row done =
      elim (finish_run_cases c id q.key q.tenant_id q.release_id base64 result retention_ms db) [
        | inr (inl (_, e)) ↦ cc (ap (λ x. x.0) e, done)
        | inr (inr (_, _, e)) ↦ cc (ap (λ x. x.0) e, done)
        | inl (_, one, e) ↦
            let n = name_of_claim q in
            let (old, found, met) =
              find_of_count (names_key n) (is_running_claim n id) db.idempotency_keys
                (λ r h. ground (arith, h)) (omega (arith, one)) (v.unique_keys n) in
            let same : some old ≡ some row = sym found ∙ there in
            let mine : is_running_claim n id row ≡ true =
              ground (arith, same, met, ap (is_running_claim n id) {x = old} {y = row}) in
            rw (ap (λ x. x.1) e) (
              find-update (names_key n) (is_running_claim n id)
                (finished_key base64 c result retention_ms) db.idempotency_keys (λ r. refl)
              ∙ rw there (rw mine refl))
      ]

  module _
      (done : (finish_run base64 c id q.key q.tenant_id q.release_id result retention_ms db).0
        ≡ ok tt)
      (again : Clocks) (run_id : String)
      (same : row.request_fingerprint ≡ q.request_fingerprint) where
    cached_final :
        base64.decode (base64.encode result.content) ≡ result.content
        → result.retryable ≡ false
        → again.now < c.now + milliseconds retention_ms
        → cached base64 again.now (finished_key base64 c result retention_ms row) ≡ some result
    unfolding cached
    cached_final exact final fresh =
        let soon : ltb again.now (c.now + milliseconds retention_ms) ≡ true =
          ground (arith, fresh) in
        rw (from_dict-to_dict base64 result exact) (rw final (rw soon refl))

    cached_open :
        result.retryable ≡ true
        → cached base64 again.now (finished_key base64 c result retention_ms row) ≡ none
    unfolding cached
    cached_open open_ = ground (arith, open_)

    -- On tables that are a ledger, where the request's claim has the request's fingerprint: after
    -- a finish_run that returned a result which is not retryable and whose content Base64 gives
    -- back as it was, a begin_run of the request before the retention is over answers with exactly
    -- that result, starts no execution, and changes only the counters of the claim.
    pub replay-finish_run :
        base64.decode (base64.encode result.content) ≡ result.content
        → result.retryable ≡ false
        → again.now < c.now + milliseconds retention_ms
        → begin_run base64 again run_id q
            (finish_run base64 c id q.key q.tenant_id q.release_id result retention_ms db).1
          ≡ (
            ok (record { run_id = none; cached_result = some result }),
            counted again q
                (finish_run base64 c id q.key q.tenant_id q.release_id result retention_ms db).1,
          )
    replay-finish_run exact final fresh =
        begin_hit base64 again run_id q _ _ result (finished_row done) same refl
          (cached_final exact final fresh)

    -- On tables that are a ledger, where the request's claim has the request's fingerprint: after
    -- a finish_run that returned a retryable result, a begin_run of the request with a UUID that
    -- names no execution yet replays nothing, at any time, and answers with that UUID; a RUNNING
    -- execution of the request is then found under it, and the claim is RUNNING on it and stores
    -- no result.
    pub retry-finish_run :
        result.retryable ≡ true
        → run_row run_id
            (finish_run base64 c id q.key q.tenant_id q.release_id result retention_ms db).1
          ≡ none
        → let (answer, db') =
            begin_run base64 again run_id q
              (finish_run base64 c id q.key q.tenant_id q.release_id result retention_ms db).1 in
          (answer ≡ ok (record { run_id = some run_id; cached_result = none }))
          × ((run : RunRow) × (run_row run_id db' ≡ some run)
              × (run.state ≡ RunState.running)
              × (name_of_run run ≡ name_of_claim q))
          × ((taken_row : KeyRow) × (key_row (name_of_claim q) db' ≡ some taken_row)
              × (taken_row.state ≡ KeyState.running)
              × (taken_row.current_run_id ≡ run_id)
              × (taken_row.result_json ≡ none))
    retry-finish_run open_ missing =
        let ended =
          (finish_run base64 c id q.key q.tenant_id q.release_id result retention_ms db).1 in
        let there' = finished_row done in
        rw (begin_miss base64 again run_id q ended _ there' same refl (cached_open open_) missing) (
          refl,
          (
            new_run again run_id q,
            append_there (λ (r : RunRow). r.run_id) (new_run again run_id q) ended.runs missing,
            refl,
            refl,
          ),
          (
            reclaimed again run_id q (finished_key base64 c result retention_ms row),
            update_there name_of (name_of_claim q) (reclaimed again run_id q) ended.idempotency_keys
                (λ k. refl) _ there',
            refl,
            refl,
            refl,
          ),
        )
