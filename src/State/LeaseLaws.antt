-- ===== src/State/LeaseLaws.antt =====
-- `require_lease` in `RunnerDB`, and the leases that `create_lease` grants.
use runner_engine.Prelude.{
  ℕ, ◌+◌, ◌≤◌, ◌<◌, ◌≡◌, ◌≢◌, ◌↔◌, inl, inr, String, string_eq, true, false, Option, none, some,
  leb, if◌then◌else◌, ◌==◌, arith, eq_self, eq_of_ne, Option-cases, ap,
}
use runner_engine.Errors.{ok, err, failure}
use runner_engine.Table.{find_where, find-append, count_where, insert, exists-find}
use runner_engine.Model.{Lease}
use runner_engine.State.{Clocks, LeaseRow, Db}
use runner_engine.State.Leases.{
  has_id, lease_of, new_lease, other_release, milliseconds, check_lease, require_lease,
  create_lease,
}

abbrev pub lease_row : String → Db → Option LeaseRow
lease_row id db = find_where (has_id id) db.leases

-- The primary key of runner.leases.
abbrev pub UniqueLeases : Db → Type 0
UniqueLeases db = (id : String) → count_where (has_id id) db.leases ≤ 1

-- Who may use a lease, and until when.
pub record Grants (c : Clocks) (tenant_id : String) (release_id : Option String) (row : LeaseRow)
    : Type 0 where
  pub same_tenant : row.tenant_id ≡ tenant_id
  pub same_release : other_release release_id row.release_id ≡ false
  pub in_time : c.now < row.expires_at

-- require_lease returns a lease and leaves the tables as they are exactly when a row with the
-- identifier is found, belongs to the tenant, is for the release where one is asked for, expires
-- after the caller's clock, and reads as that lease.
pub require_lease_iff :
    (c : Clocks) (lease_id tenant_id : String) (release_id : Option String) (db : Db) (l : Lease)
    → (require_lease c lease_id tenant_id release_id db ≡ (ok l, db)) ↔ (
        (row : LeaseRow) × (lease_row lease_id db ≡ some row)
        × Grants c tenant_id release_id row
        × (l ≡ lease_of row))
unfolding require_lease check_lease
require_lease_iff c lease_id tenant_id release_id db l = (to, from)
  where
    to :
        require_lease c lease_id tenant_id release_id db ≡ (ok l, db)
        → (row : LeaseRow) × (lease_row lease_id db ≡ some row)
          × Grants c tenant_id release_id row
          × (l ≡ lease_of row)
    to h = elim (Option-cases (lease_row lease_id db)) [
      | inl missing ↦ cc (rw (missing, require_lease, check_lease) at (ap (λ x. x.0) h))
      | inr (row, found) ↦ (
        row,
        found,
        ground (arith, ap (λ x. x.0) h, found, string_eq.is_same_iff row.tenant_id tenant_id),
        ground (arith, ap (λ x. x.0) h, found),
      )
    ]

    from :
        ((row : LeaseRow) × (lease_row lease_id db ≡ some row)
          × Grants c tenant_id release_id row
          × (l ≡ lease_of row))
        → require_lease c lease_id tenant_id release_id db ≡ (ok l, db)
    from (row, found, g, e) =
        ground (arith, found, e, g, string_eq.is_same_iff row.tenant_id tenant_id)

-- How each operation changes the row that an identifier names.
lease_row-create :
    (c : Clocks) (id tenant_id project_id processor_id release_id : String) (ttl_ms : ℕ) (db : Db)
    (j : String)
    → lease_row id db ≡ none
    → lease_row j (create_lease c id tenant_id project_id processor_id release_id ttl_ms db).1 ≡ (
        if j == id
        then some (new_lease c id tenant_id project_id processor_id release_id ttl_ms)
        else lease_row j db)
unfolding create_lease insert
lease_row-create c id tenant_id project_id processor_id release_id ttl_ms db j fresh =
    let row = new_lease c id tenant_id project_id processor_id release_id ttl_ms in
    let free = exists-find (has_id id) db.leases fresh in
    ground (
      arith,
      free,
      find-append (has_id j) row db.leases,
      string_eq.is_same_iff j id,
      string_eq.is_same_iff id j,
      ap (λ k. lease_row k db) {x = j} {y = id},
      fresh,
    )

-- create_lease with an identifier that no lease has returns the lease; require_lease for its
-- tenant and release then returns it until the time to live has passed by the caller's clock and
-- raises LEASE_EXPIRED from then on; every other lease reads as before.
pub require-create_lease :
    (c c' : Clocks) (id tenant_id project_id processor_id release_id : String) (ttl_ms : ℕ)
    (db : Db)
    → lease_row id db ≡ none
    → let db' = (create_lease c id tenant_id project_id processor_id release_id ttl_ms db).1 in
      let l = lease_of (new_lease c id tenant_id project_id processor_id release_id ttl_ms) in
      ((create_lease c id tenant_id project_id processor_id release_id ttl_ms db).0 ≡ ok l)
      × (require_lease c' id tenant_id (some release_id) db' ≡ (
        if leb (c.now + milliseconds ttl_ms) c'.now
            then err (failure "LEASE_EXPIRED" "lease expired" true)
            else ok l,
        db',
      ))
      × ((j : String) → j ≢ id → lease_row j db' ≡ lease_row j db)
unfolding require_lease check_lease create_lease insert
require-create_lease c c' id tenant_id project_id processor_id release_id ttl_ms db fresh =
    let free = exists-find (has_id id) db.leases fresh in
    let read = lease_row-create c id tenant_id project_id processor_id release_id ttl_ms db in
    (
      rw free,
      ground (arith, free, read id fresh, eq_self id, eq_self tenant_id, eq_self release_id),
      λ j other. ground (arith, read j fresh, eq_of_ne j id other),
    )
