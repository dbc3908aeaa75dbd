-- ===== src/State/Leases.antt =====
-- runner_engine/state.py: the leases of `RunnerDB`.
use runner_engine.Prelude.{
  ℕ, ◌+◌, ◌*◌, String, string_eq, Bool, true, false, not, ◌&&◌, Option, none, some, List, leb,
  if◌then◌else◌, ◌==◌,
}
use runner_engine.Errors.{Result, ok, err, failure}
use runner_engine.Exec.{Exec, pure, ◌>>=◌, ◌>>◌, zoom, transaction}
use runner_engine.Table.{find_where, update_where, delete_where, count_where, insert}
use runner_engine.Model.{Lease}
use runner_engine.State.{Clocks, epoch_ms, LeaseRow, Db}

-- timedelta(milliseconds=ms)
abbrev pub milliseconds : ℕ → ℕ
milliseconds ms = ms * 1000

abbrev pub on_leases {ℓ} : {A : Type ℓ} → Exec (List LeaseRow) A → Exec Db A
on_leases = zoom (λ db. db.leases) (λ rows db. record db { leases = rows })

abbrev pub has_id : String → LeaseRow → Bool
has_id lease_id row = row.id == lease_id

abbrev pub lease_of : LeaseRow → Lease
lease_of row = record {
  id = row.id;
  tenant_id = row.tenant_id;
  project_id = row.project_id;
  processor_id = row.processor_id;
  release_id = row.release_id;
  expires_at_ms = epoch_ms row.expires_at;
}

-- The new row; `lease_id` is the UUID that the call draws.
abbrev pub new_lease : Clocks → String → String → String → String → String → ℕ → LeaseRow
new_lease c lease_id tenant_id project_id processor_id release_id ttl_ms = record {
  id = lease_id;
  tenant_id = tenant_id;
  project_id = project_id;
  processor_id = processor_id;
  release_id = release_id;
  expires_at = c.now + milliseconds ttl_ms;
  updated_at = c.db_now;
}

unfoldable pub create_lease :
    Clocks → String → String → String → String → String → ℕ → Exec Db Lease
create_lease c lease_id tenant_id project_id processor_id release_id ttl_ms = do
  let row = new_lease c lease_id tenant_id project_id processor_id release_id ttl_ms
  transaction (on_leases (insert (has_id lease_id) row))
  pure (lease_of row)

-- release_id is not None and row["release_id"] != release_id
abbrev pub other_release : Option String → String → Bool
other_release none id = false
other_release (some release_id) id = not (id == release_id)

-- The checks on the row that was found.
unfoldable pub check_lease : Clocks → String → Option String → Option LeaseRow → Result Lease
check_lease c tenant_id release_id none = err (failure "LEASE_UNKNOWN" "lease does not exist" true)
check_lease c tenant_id release_id (some row) =
    if not (row.tenant_id == tenant_id)
    then err (failure "LEASE_FORBIDDEN" "lease belongs to another tenant" false)
    else if other_release release_id row.release_id
    then err (failure "LEASE_RELEASE_MISMATCH" "lease is for another release" false)
    else if leb row.expires_at c.now
    then err (failure "LEASE_EXPIRED" "lease expired" true)
    else ok (lease_of row)

unfoldable pub require_lease : Clocks → String → String → Option String → Exec Db Lease
require_lease c lease_id tenant_id release_id db =
    (check_lease c tenant_id release_id (find_where (has_id lease_id) db.leases), db)

abbrev pub extend : Clocks → ℕ → LeaseRow → LeaseRow
extend c expires_at row = record row { expires_at = expires_at; updated_at = c.db_now }

-- The lease is checked at one reading of the clock, the new expiry counts from a second one.
unfoldable pub renew_lease : Clocks → Clocks → String → String → ℕ → Exec Db Lease
renew_lease checked c lease_id tenant_id ttl_ms = do
  current ← require_lease checked lease_id tenant_id none
  let expires_at = c.now + milliseconds ttl_ms
  λ db. (
    ok (record current { expires_at_ms = epoch_ms expires_at }),
    record db {
      leases =
          update_where (λ row. has_id lease_id row && row.tenant_id == tenant_id)
            (extend c expires_at) db.leases;
    },
  )

abbrev pub delete_found_lease : String → String → Option LeaseRow → Exec Db (Unit {0})
delete_found_lease lease_id tenant_id none db = (ok tt, db)
delete_found_lease lease_id tenant_id (some row) db =
    if not (row.tenant_id == tenant_id)
    then (err (failure "LEASE_FORBIDDEN" "lease belongs to another tenant" false), db)
    else (ok tt, record db { leases = delete_where (has_id lease_id) db.leases })

unfoldable pub delete_lease : String → String → Exec Db (Unit {0})
delete_lease lease_id tenant_id db =
    delete_found_lease lease_id tenant_id (find_where (has_id lease_id) db.leases) db

-- expires_at <= now()
abbrev pub lease_over : ℕ → LeaseRow → Bool
lease_over db_now row = leb row.expires_at db_now

unfoldable pub purge_expired_leases : Clocks → Exec Db ℕ
purge_expired_leases c db = (
  ok (count_where (lease_over c.db_now) db.leases),
  record db { leases = delete_where (lease_over c.db_now) db.leases },
)
