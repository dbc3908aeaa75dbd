-- ===== src/State/Restarts.antt =====
-- `reset_running` and the purges on the ledger.
use runner_engine.Prelude.{
  ℕ, ◌≡◌, refl, sym, ◌∙◌, String, string_eq, Bool, true, false, Option, none, some, List, ◌∷◌, [],
  arith, Bool-cases, ap, inl, inr, subst, leb,
}
use runner_engine.Table.{
  update_where, delete_where, count_where, delete_found, find-update, find-delete, count-update,
  count-delete-le,
}
use runner_engine.State.{Clocks, RunRow, KeyRow, Db}
use runner_engine.State.Claims.{
  KeyName, name_eq, names_key, has_run_id, run_is_running, key_is_running,
}
use runner_engine.State.Runs.{
  abandoned_run, any_running_run, any_running_key, reset_running, key_over,
  purge_expired_idempotency, run_is_old, purge_old_runs,
}
use runner_engine.State.Ledger.{key_row, run_row, IsLedger}
use runner_engine.State.Settling.{Settles, Settles-IsLedger, ended_kept}

none_running :
    {Row : Type 0} (p : Row → Bool) (f : Row → Row) (rs : List Row)
    → ((r : Row) → p (f r) ≡ false)
    → count_where p (update_where p f rs) ≡ 0
unfolding count_where update_where
none_running p f [] h = refl
none_running p f (r ∷ rs) h = ground (arith, h r, none_running p f rs h)

none_left : {Row : Type 0} (p : Row → Bool) (rs : List Row) → count_where p (delete_where p rs) ≡ 0
unfolding count_where delete_where
none_left p [] = refl
none_left p (r ∷ rs) = ground (arith, none_left p rs)

-- After reset_running no execution and no claim is RUNNING.
pub reset_running_ends_all :
    (c : Clocks) (db : Db)
    → (count_where any_running_run (reset_running c db).1.runs ≡ 0)
      × (count_where any_running_key (reset_running c db).1.idempotency_keys ≡ 0)
unfolding reset_running
reset_running_ends_all c db = (
  none_running any_running_run
      (abandoned_run c "RUNNER_RESTART" "Runner restarted while invocation was active") db.runs
      (λ r. refl),
  none_left any_running_key db.idempotency_keys,
)

delete_ended :
    {Row : Type 0} (q p running : Row → Bool) (o : Option Row) (row : Row)
    → ((r : Row) → p r ≡ true → running r ≡ false)
    → o ≡ some row
    → running row ≡ true
    → delete_found q p o ≡ some row
delete_ended q p running o row h e r = rw e (ground (arith, h row, r))

delete_found-some :
    {Row : Type 0} (q p : Row → Bool) (o : Option Row) (row : Row)
    → delete_found q p o ≡ some row
    → o ≡ some row
delete_found-some q p none row e = cc
delete_found-some q p (some r) row e = ground (arith, e)

-- A purge deletes rows that are not RUNNING.
module _ (db : Db) (v : IsLedger db) (old_run : RunRow → Bool) (old_key : KeyRow → Bool)
    (run_ended : (r : RunRow) → old_run r ≡ true → run_is_running r.state ≡ false)
    (key_ended : (r : KeyRow) → old_key r ≡ true → key_is_running r.state ≡ false) where
  purge-Settles :
      Settles db
        (record db {
          runs = delete_where old_run db.runs;
          idempotency_keys = delete_where old_key db.idempotency_keys;
        })
        (λ j. false)
  purge-Settles =
      let runs = λ (j : String). find-delete (has_run_id j) old_run db.runs (v.unique_runs j) in
      let keys =
        λ (n : KeyName). find-delete (names_key n) old_key db.idempotency_keys (v.unique_keys n) in
      record {
        unique_keys = λ n.
            omega
              (arith, count-delete-le (names_key n) old_key db.idempotency_keys, v.unique_keys n);
        unique_runs =
            λ j. omega (arith, count-delete-le (has_run_id j) old_run db.runs, v.unique_runs j);
        run_kept = λ j run e r.
            (delete_found-some (has_run_id j) old_run (run_row j db) run (sym (runs j) ∙ e), refl);
        run_left = λ j run e r o.
            runs j
            ∙ delete_ended (has_run_id j) old_run any_running_run (run_row j db) run run_ended e r;
        claim_kept = λ n row e r.
            (delete_found-some (names_key n) old_key (key_row n db) row (sym (keys n) ∙ e), refl);
        claim_left = λ n row e r o.
            keys n
            ∙ delete_ended (names_key n) old_key any_running_key (key_row n db) row key_ended e r;
      }

delete_nothing : {Row : Type 0} (rs : List Row) → delete_where (λ (r : Row). false) rs ≡ rs
unfolding delete_where
delete_nothing [] = refl
delete_nothing (r ∷ rs) = ap (λ x. r ∷ x) (delete_nothing rs)

-- reset_running keeps the ledger.
pub reset_running-IsLedger : (c : Clocks) (db : Db) → IsLedger db → IsLedger (reset_running c db).1
unfolding reset_running
reset_running-IsLedger c db v =
    let f = abandoned_run c "RUNNER_RESTART" "Runner restarted while invocation was active" in
    let runs = λ (j : String). find-update (has_run_id j) any_running_run f db.runs (λ r. refl) in
    let keys = λ (n : KeyName).
      find-delete (names_key n) any_running_key db.idempotency_keys (v.unique_keys n) in
    Settles-IsLedger (λ j. true)
      (record {
        unique_keys = λ n. omega (
          arith,
          count-delete-le (names_key n) any_running_key db.idempotency_keys,
          v.unique_keys n,
        );
        unique_runs = λ j.
            rw (count-update (has_run_id j) any_running_run f db.runs (λ r. refl))
              (v.unique_runs j);
        run_kept = λ j run e r.
            let old =
              ended_kept (has_run_id j) any_running_run any_running_run f (run_row j db) run
                (λ _. refl) (sym (runs j) ∙ e) r in
            cc (old.1, r);
        run_left = λ j run e r o. cc o;
        claim_kept = λ n row e r.
            cc (delete_not (names_key n) any_running_key (key_row n db) row (sym (keys n) ∙ e), r);
        claim_left = λ n row e r o. cc o;
      })
      v
  where
    delete_not :
        {Row : Type 0} (q p : Row → Bool) (o : Option Row) (row : Row)
        → delete_found q p o ≡ some row
        → p row ≡ false
    delete_not q p none row e = cc
    delete_not q p (some r) row e = ground (arith, e, ap p {x = r} {y = row})

-- purge_expired_idempotency keeps the ledger.
pub purge_expired_idempotency-IsLedger :
    (c : Clocks) (db : Db) → IsLedger db → IsLedger (purge_expired_idempotency c db).1
unfolding purge_expired_idempotency
purge_expired_idempotency-IsLedger c db v =
    subst
      (λ rs. IsLedger (record db {
        runs = rs;
        idempotency_keys = delete_where (key_over c.db_now) db.idempotency_keys;
      }))
      (delete_nothing db.runs)
      (Settles-IsLedger (λ j. false)
        (purge-Settles db v (λ r. false) (key_over c.db_now) (λ r h. cc h)
          (λ r h. ground (arith, h)))
        v)

-- purge_old_runs keeps the ledger.
pub purge_old_runs-IsLedger :
    (c : Clocks) (older_than_ms : ℕ) (db : Db)
    → IsLedger db
    → IsLedger (purge_old_runs c older_than_ms db).1
unfolding purge_old_runs
purge_old_runs-IsLedger c older_than_ms db v = elim (Bool-cases (leb older_than_ms 0)) [
  | inl off ↦ rw off v
  | inr on ↦
      let old = run_is_old c older_than_ms db.idempotency_keys in
      let kept =
        subst
          (λ ks. IsLedger (record db { runs = delete_where old db.runs; idempotency_keys = ks }))
          (delete_nothing db.idempotency_keys)
          (Settles-IsLedger (λ j. false)
            (purge-Settles db v old (λ r. false) (λ r h. ground (arith, h)) (λ r h. cc h)) v) in
      rw on kept
]
