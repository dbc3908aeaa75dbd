-- ===== src/State/LeaseEnds.antt =====
-- `delete_lease` and `purge_expired_leases` in `RunnerDB`.
use runner_engine.Prelude.{
  ◌≤◌, ◌≡◌, ◌≢◌, ◌↔◌, ◌⊎◌, inl, inr, sym, ◌∙◌, String, string_eq, true, false, Option, some, ◌==◌,
  arith, eq_self, eq_of_ne, eq→≡, Option-cases, Bool-cases,
}
use runner_engine.Errors.{ok, err, failure}
use runner_engine.Table.{find_where, delete_where, find-delete, count_where, find_meets}
use runner_engine.Model.{Lease}
use runner_engine.State.{Clocks, LeaseRow, Db}
use runner_engine.State.Leases.{
  has_id, check_lease, require_lease, delete_lease, purge_expired_leases, lease_over,
}
use runner_engine.State.LeaseLaws.{lease_row, UniqueLeases}

lease_row-delete_other :
    (id : String) (db : Db) (j : String)
    → j ≢ id
    → count_where (has_id j) db.leases ≤ 1
    → find_where (has_id j) (delete_where (has_id id) db.leases) ≡ lease_row j db
lease_row-delete_other id db j other unique =
    let read = find-delete (has_id j) (has_id id) db.leases unique in
    elim (Option-cases (lease_row j db)) [
      | inl missing ↦ (rw missing at read) ∙ sym missing
      | inr (r, found) ↦
          let named = eq→≡ r.id j (find_meets (has_id j) r db.leases found) in
          let not_mine : (r.id == id) ≡ false = rw named (eq_of_ne j id other) in
          (rw (found, not_mine) at read) ∙ sym found
    ]

-- On tables with unique lease identifiers: delete_lease of an existing lease by its tenant
-- returns, require_lease then raises LEASE_UNKNOWN for everyone and every other lease reads as
-- before; by another tenant it raises LEASE_FORBIDDEN and changes nothing.
pub require-delete_lease :
    (c : Clocks) (id tenant_id owner : String) (release_id : Option String) (db : Db)
    (row : LeaseRow)
    → UniqueLeases db
    → lease_row id db ≡ some row
    → ((row.tenant_id ≡ tenant_id)
        × ((delete_lease id tenant_id db).0 ≡ ok tt)
        × ((require_lease c id owner release_id (delete_lease id tenant_id db).1).0
            ≡ err (failure "LEASE_UNKNOWN" "lease does not exist" true))
        × ((j : String) → j ≢ id → lease_row j (delete_lease id tenant_id db).1 ≡ lease_row j db))
      ⊎ ((row.tenant_id ≢ tenant_id)
          × (delete_lease id tenant_id db
              ≡ (err (failure "LEASE_FORBIDDEN" "lease belongs to another tenant" false), db)))
unfolding delete_lease require_lease check_lease
require-delete_lease c id tenant_id owner release_id db row unique found =
    elim (Bool-cases (row.tenant_id == tenant_id)) [
      | inl mine ↦
          let gone = find-delete (has_id id) (has_id id) db.leases (unique id) in
          let named = find_meets (has_id id) row db.leases found in
          inl (
            eq→≡ row.tenant_id tenant_id mine,
            rw (found, mine, delete_lease),
            ground (arith, found, mine, gone, named),
            λ j other.
                rw (found, mine, delete_lease) (lease_row-delete_other id db j other (unique j)),
          )
      | inr foreign ↦
          inr
            (λ e. ground (arith, foreign, e, eq_self tenant_id), rw (found, foreign, delete_lease))
    ]

-- On tables with unique lease identifiers, for a caller whose clock is not behind the database's
-- at the purge, require_lease returns a lease after purge_expired_leases exactly when it returned
-- it before.
pub require-purge_expired_leases :
    (c c' : Clocks) (id tenant_id : String) (release_id : Option String) (db : Db) (l : Lease)
    → UniqueLeases db
    → c.db_now ≤ c'.now
    → (require_lease c' id tenant_id release_id (purge_expired_leases c db).1).0 ≡ ok l
      ↔ (require_lease c' id tenant_id release_id db).0 ≡ ok l
unfolding purge_expired_leases require_lease check_lease
require-purge_expired_leases c c' id tenant_id release_id db l unique later =
    let kept = find-delete (has_id id) (lease_over c.db_now) db.leases (unique id) in
    (ground (arith, kept), ground (arith, kept))
