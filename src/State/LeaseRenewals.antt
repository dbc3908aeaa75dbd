-- ===== src/State/LeaseRenewals.antt =====
-- `renew_lease` in `RunnerDB`.
use runner_engine.Prelude.{
  ℕ, ◌+◌, ◌<◌, ◌≡◌, ◌≢◌, inl, inr, refl, sym, ◌∙◌, String, string_eq, false, ◌&&◌, none, some, ◌==◌,
  arith, eq_self, eq_of_ne, eq→≡, Option-cases, ap,
}
use runner_engine.Errors.{Result-cases, ok}
use runner_engine.Table.{update_where, update_found, find-update, find_meets}
use runner_engine.Model.{Lease}
use runner_engine.State.{Clocks, LeaseRow, Db}
use runner_engine.State.Leases.{
  has_id, lease_of, milliseconds, check_lease, require_lease, renew_lease, extend,
}
use runner_engine.State.LeaseLaws.{lease_row, Grants, require_lease_iff}

-- The row that a successful renewal found, and the answer.
renew_found :
    (c cw : Clocks) (id tenant_id : String) (ttl_ms : ℕ) (db : Db) (l : Lease)
    → (renew_lease c cw id tenant_id ttl_ms db).0 ≡ ok l
    → (row : LeaseRow) × (lease_row id db ≡ some row)
      × Grants c tenant_id none row
      × (l ≡ lease_of (extend cw (cw.now + milliseconds ttl_ms) row))
      × ((renew_lease c cw id tenant_id ttl_ms db).1 ≡ record db {
        leases =
            update_where
              (λ row. has_id id row && row.tenant_id == tenant_id)
              (extend cw (cw.now + milliseconds ttl_ms))
              db.leases;
      })
unfolding renew_lease require_lease
renew_found c cw id tenant_id ttl_ms db l h =
    elim (Result-cases (check_lease c tenant_id none (lease_row id db))) [
      | inl (current, valid) ↦
          let (row, found, g, e) =
            (require_lease_iff c id tenant_id none db current).0 (ap (λ r. (r, db)) valid) in
          (row, found, g, cc (rw (valid, renew_lease) at h, e), rw (valid, renew_lease))
      | inr (e, refused) ↦ cc (rw (refused, renew_lease) at h)
    ]

lease_row-update :
    (c : Clocks) (id tenant_id : String) (expires_at : ℕ) (db : Db) (j : String)
    → lease_row j (record db {
      leases =
          update_where
            (λ row. has_id id row && row.tenant_id == tenant_id)
            (extend c expires_at)
            db.leases;
    })
      ≡ update_found
          (has_id j)
          (λ row. has_id id row && row.tenant_id == tenant_id)
          (extend c expires_at)
          (lease_row j db)
lease_row-update c id tenant_id expires_at db j =
    find-update (has_id j) _ (extend c expires_at) db.leases (λ r. refl)

lease_row-update_other :
    (c : Clocks) (id tenant_id : String) (expires_at : ℕ) (db : Db) (j : String)
    → j ≢ id
    → lease_row j (record db {
      leases =
          update_where
            (λ row. has_id id row && row.tenant_id == tenant_id)
            (extend c expires_at)
            db.leases;
    })
      ≡ lease_row j db
lease_row-update_other c id tenant_id expires_at db j other =
    let read = lease_row-update c id tenant_id expires_at db j in
    elim (Option-cases (lease_row j db)) [
      | inl missing ↦ (rw missing at read) ∙ sym missing
      | inr (r, found) ↦
          let named = eq→≡ r.id j (find_meets (has_id j) r db.leases found) in
          let not_mine : (r.id == id) ≡ false = rw named (eq_of_ne j id other) in
          (rw (found, not_mine) at read) ∙ sym found
    ]

-- A renew_lease that returns found a lease that had not expired, wrote the new expiry to it and to
-- no other lease, and returned the lease that require_lease gives the same tenant at any moment
-- before the new expiry.
pub require-renew_lease :
    (c cw c' : Clocks) (id tenant_id : String) (ttl_ms : ℕ) (db : Db) (l : Lease)
    → (renew_lease c cw id tenant_id ttl_ms db).0 ≡ ok l
    → c'.now < cw.now + milliseconds ttl_ms
    → let db' = (renew_lease c cw id tenant_id ttl_ms db).1 in
      ((row : LeaseRow) × (lease_row id db ≡ some row)
        × (c.now < row.expires_at)
        × (lease_row id db' ≡ some (extend cw (cw.now + milliseconds ttl_ms) row))
        × (require_lease c' id tenant_id none db' ≡ (ok l, db')))
      × ((j : String) → j ≢ id → lease_row j db' ≡ lease_row j db)
require-renew_lease c cw c' id tenant_id ttl_ms db l h early =
    let (row, found, g, answer, state) = renew_found c cw id tenant_id ttl_ms db l h in
    let read = lease_row-update cw id tenant_id (cw.now + milliseconds ttl_ms) db in
    let mine = find_meets (has_id id) row db.leases found in
    let now_found : lease_row id (renew_lease c cw id tenant_id ttl_ms db).1
        ≡ some (extend cw (cw.now + milliseconds ttl_ms) row) =
      ap (lease_row id) state
      ∙ ground (arith, read id, found, mine, g.same_tenant, eq_self tenant_id) in
    (
      (
        row,
        found,
        g.in_time,
        now_found,
        (require_lease_iff c' id tenant_id none _ l).1 (
          extend cw (cw.now + milliseconds ttl_ms) row,
          now_found,
          record { same_tenant = g.same_tenant; same_release = refl; in_time = early },
          answer,
        ),
      ),
      λ j other.
          ap (lease_row j) state
          ∙ lease_row-update_other cw id tenant_id (cw.now + milliseconds ttl_ms) db j other,
    )
