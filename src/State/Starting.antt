-- ===== src/State/Starting.antt =====
-- `begin_run` branch by branch, and that it keeps the ledger.
use runner_engine.Prelude.{
  ◌≤◌, ◌≡◌, refl, sym, ◌∙◌, String, string_eq, Bool, false, none, some, List, ◌∷◌, [], ◌++◌, ◌==◌,
  arith, ap, subst,
}
use runner_engine.Errors.{ok}
use runner_engine.Table.{find_where, update_where, count_where, insert, exists-find, count-update}
use runner_engine.State.{Clocks, KeyRow, Db}
use runner_engine.State.Claims.{
  Claim, RunClaim, name_eq, name_of, name_of_claim, names_key, has_run_id, key_is_running, new_key,
  new_run, reclaimed, write_claim, Verdict,
}
use runner_engine.State.Ledger.{key_row, run_row, RunningFor, ClaimedBy, IsLedger}
use runner_engine.Table.Keyed.{
  append_unique, append_there, append_others, update_there, update_others,
}
use runner_engine.State.Beginning.{Starts}

insert_missing :
    {Row : Type 0} (dup : Row → Bool) (r : Row) (rs : List Row)
    → find_where dup rs ≡ none
    → insert dup r rs ≡ (ok tt, rs ++ r ∷ [])
unfolding insert
insert_missing dup r rs h = rw (exists-find dup rs h) refl

module _ (c : Clocks) (run_id : String) (q : Claim) (db : Db) where
  -- The tables after the claim is written.
  abbrev pub with_run : List KeyRow → Db
  with_run keys = record db { idempotency_keys = keys; runs = db.runs ++ new_run c run_id q ∷ [] }

  abbrev pub claimed : RunClaim
  claimed = record { run_id = some run_id; cached_result = none }

  abbrev pub added : List KeyRow
  added = db.idempotency_keys ++ new_key c run_id q ∷ []

  abbrev pub taken : List KeyRow
  taken = update_where (names_key (name_of_claim q)) (reclaimed c run_id q) db.idempotency_keys

  pub write_fresh :
      key_row (name_of_claim q) db ≡ none
      → run_row run_id db ≡ none
      → write_claim c run_id q Verdict.fresh db ≡ (ok claimed, with_run added)
  unfolding write_claim
  write_fresh k r =
      rw
        (
          insert_missing (names_key (name_of_claim q)) (new_key c run_id q) db.idempotency_keys k,
          insert_missing (has_run_id run_id) (new_run c run_id q) db.runs r,
        )
        refl

  pub write_again :
      run_row run_id db ≡ none
      → write_claim c run_id q Verdict.again db ≡ (ok claimed, with_run taken)
  unfolding write_claim
  write_again r = rw (insert_missing (has_run_id run_id) (new_run c run_id q) db.runs r) refl

  module _ (v : IsLedger db) (missing : run_row run_id db ≡ none) where
    unique_runs-started :
        (j : String) → count_where (has_run_id j) (db.runs ++ new_run c run_id q ∷ []) ≤ 1
    unique_runs-started =
        append_unique (λ r. r.run_id) (new_run c run_id q) db.runs v.unique_runs missing

    run_started :
        (keys : List KeyRow) → RunningFor (name_of_claim q) (run_row run_id (with_run keys))
    run_started keys =
        subst (RunningFor (name_of_claim q))
          (sym (append_there (λ r. r.run_id) (new_run c run_id q) db.runs missing)) (refl, refl)

    other_runs :
        (j : String)
        → (j == run_id) ≡ false
        → find_where (has_run_id j) (db.runs ++ new_run c run_id q ∷ []) ≡ run_row j db
    other_runs j other = append_others (λ r. r.run_id) (new_run c run_id q) db.runs j other

    pub fresh-Starts :
        key_row (name_of_claim q) db ≡ none → Starts db (with_run added) (name_of_claim q) run_id
    fresh-Starts none_there = record {
      unique_keys =
          append_unique name_of (new_key c run_id q) db.idempotency_keys v.unique_keys none_there;
      unique_runs = unique_runs-started;
      run_missing = missing;
      run_started = run_started added;
      other_runs = other_runs;
      claim_ended = λ row e. cc (e, none_there);
      claim_taken =
          subst (ClaimedBy run_id)
            (sym (append_there name_of (new_key c run_id q) db.idempotency_keys none_there))
            (refl, refl);
      other_claims = append_others name_of (new_key c run_id q) db.idempotency_keys;
    }

    pub again-Starts :
        (row : KeyRow)
        → key_row (name_of_claim q) db ≡ some row
        → key_is_running row.state ≡ false
        → Starts db (with_run taken) (name_of_claim q) run_id
    again-Starts row there ended = record {
      unique_keys = λ m.
          rw
            (count-update (names_key m) (names_key (name_of_claim q)) (reclaimed c run_id q)
              db.idempotency_keys (λ r. refl))
            (v.unique_keys m);
      unique_runs = unique_runs-started;
      run_missing = missing;
      run_started = run_started taken;
      other_runs = other_runs;
      claim_ended = λ other e.
          let same : some other ≡ some row = sym e ∙ there in
          ground (arith, same, ended, ap (λ x. key_is_running x.state) {x = other} {y = row});
      claim_taken =
          subst (ClaimedBy run_id)
            (sym (
              update_there name_of (name_of_claim q) (reclaimed c run_id q) db.idempotency_keys
                (λ r. refl) row there))
            (refl, refl);
      other_claims =
          update_others name_of (name_of_claim q) (reclaimed c run_id q) db.idempotency_keys
            (λ r. refl);
    }
