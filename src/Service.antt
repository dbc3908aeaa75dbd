-- ===== src/Service.antt =====
-- runner_engine/service.py, `RunnerService`: start, background maintenance, leases and cancel; Invoke
-- has `invoke`. The catalog is an argument, as is the length of a text in UTF-8.
pub mod Laws
pub mod Granting
pub mod Request
pub mod Invoke
pub mod Borrowing
pub mod Execution
pub mod Settled
pub mod Storing
pub mod Bounds
pub mod Repeating
pub mod Tests
pub mod InvokeTests
use runner_engine.Prelude.{
  ℕ, ◌+◌, String, string_eq, Bool, true, false, not, ◌||◌, Option, none, some, List, [], ◌∷◌, ltb,
  length, is_empty, if◌then◌else◌, ◌==◌,
}
use Prim.Native.String.{◌++◌}
use runner_engine.Errors.{Exn, Result, ok, err, failure, text_of}
use runner_engine.Exec.{Exec, pure, raise, lift, gets, modify, ◌>>=◌, ◌>>◌, catch, zoom}
use runner_engine.Dict.{Dict, get, put, pop, restrict}
use runner_engine.Model.{
  Value, text_value, other_value, OperatorRelease, SecurityPolicy, Lease, ActiveRun, Ref,
}
use runner_engine.Backend.{Backend}
use runner_engine.Pool.{Pool, on_world, invalidate, reset_after_restart}
use runner_engine.Pool.Sweep.{reap}
use runner_engine.State.{Clocks, Db}
use runner_engine.State.Leases.{create_lease, require_lease, purge_expired_leases}
use runner_engine.State.Runs.{reset_running, purge_expired_idempotency, purge_old_runs}

abbrev pub max_attributes : ℕ
max_attributes = 128

abbrev pub max_attribute_bytes : ℕ
max_attribute_bytes = 65_536

-- _filter_attributes
unfoldable pub filter_attributes : Dict String Value → List String → Dict String Value
filter_attributes values allowed = if is_empty allowed then [] else restrict allowed values

module _ (utf8_length : String → ℕ) where
  abbrev pub add_bytes : ℕ → Result ℕ → Result ℕ
  add_bytes n (ok total) = ok (n + total)
  add_bytes n (err e) = err e

  -- The loop of _validate_attributes. A key is a text by its type, also in JSON.
  abbrev pub attribute_bytes : Dict String Value → Result ℕ
  attribute_bytes [] = ok 0
  attribute_bytes ((key, text_value value) ∷ d) =
      add_bytes (utf8_length key + utf8_length value) (attribute_bytes d)
  attribute_bytes ((key, other_value value) ∷ d) =
      err (failure "INVALID_ATTRIBUTES" "attributes must be dict[str, str]" false)

  abbrev pub check_total : Result ℕ → Result (Unit {0})
  check_total (err e) = err e
  check_total (ok total) =
      if ltb max_attribute_bytes total
      then err (failure "ATTRIBUTES_TOO_LARGE" "attributes exceed byte limit" false)
      else ok tt

  -- _validate_attributes
  unfoldable pub validate_attributes : Dict String Value → Result (Unit {0})
  validate_attributes values =
      if ltb max_attributes (length values)
      then err (failure "TOO_MANY_ATTRIBUTES" "attribute count exceeds limit" false)
      else check_total (attribute_bytes values)

pub record Service (W : Type 0) : Type 0 where
  pub db : Db
  pub pool : Pool W
  pub policies : Dict String SecurityPolicy
  pub lease_ttl_ms : ℕ
  pub idempotency_retention_ms : ℕ
  pub run_retention_ms : ℕ
  pub active : Dict String ActiveRun

abbrev pub on_db {ℓ} : {W : Type 0} {A : Type ℓ} → Exec Db A → Exec (Service W) A
on_db = zoom (λ s. s.db) (λ db s. record s { db = db })

abbrev pub on_pool {ℓ} : {W : Type 0} {A : Type ℓ} → Exec (Pool W) A → Exec (Service W) A
on_pool = zoom (λ s. s.pool) (λ pool s. record s { pool = pool })

abbrev pub is_known {ℓ} : {A : Type ℓ} → Option A → Bool
is_known none = false
is_known (some a) = true

-- The entry belongs to another tenant or lease.
abbrev pub foreign : String → String → ActiveRun → Bool
foreign tenant_id lease_id run = not (run.tenant_id == tenant_id) || not (run.lease_id == lease_id)

-- if release.profile not in self.policies
abbrev pub known_policy : String → Bool → Result (Unit {0})
known_policy profile true = ok tt
known_policy profile false =
    err (failure "UNKNOWN_SECURITY_POLICY" ("release uses unknown profile " ++ profile) false)

module _ {W : Type 0} (backend : Backend W) where
  unfoldable pub startup : Clocks → Exec (Service W) ℕ
  startup c = do
    cleaned ← on_pool (reset_after_restart backend)
    on_db (reset_running c)
    on_db (purge_expired_leases c)
    on_db (purge_expired_idempotency c)
    pure cleaned

  -- One turn of the loop that `start_background` runs; what it raises is logged.
  unfoldable pub maintain : Clocks → Exec (Service W) (Unit {0})
  maintain c =
      catch
        (do
          on_pool (reap backend)
          on_db (purge_expired_leases c)
          on_db (purge_expired_idempotency c)
          retention ← gets (λ s. s.run_retention_ms)
          on_db (purge_old_runs c retention)
          pure tt)
        (λ e. pure tt)

  -- The lease is granted where the release and its profile are known.
  unfoldable pub acquire_lease :
      (String → Result OperatorRelease)
      → Clocks
      → String
      → String
      → String
      → String
      → String
      → Exec (Service W) Lease
  acquire_lease catalog c lease_id tenant_id project_id processor_id release_id = do
    release ← lift (catalog release_id)
    known ← gets (λ s. is_known (get release.profile s.policies))
    lift (known_policy release.profile known)
    ttl_ms ← gets (λ s. s.lease_ttl_ms)
    on_db (create_lease c lease_id tenant_id project_id processor_id release_id ttl_ms)

  -- What `cancel` does to the worker that it found.
  unfoldable pub cancel_worker : Ref → String → Exec (Service W) Bool
  cancel_worker r invocation_id =
      catch
        (do
          worker ← gets (λ s. s.pool.workers r)
          on_pool (on_world (backend.cancel worker invocation_id)))
        (λ e. do
          catch (on_pool (invalidate backend r)) (λ e'. pure tt)
          raise (failure "CANCEL_FAILED" (text_of e) true))

  abbrev pub cancel_found : String → String → String → Option ActiveRun → Exec (Service W) Bool
  cancel_found tenant_id lease_id invocation_id none = pure false
  cancel_found tenant_id lease_id invocation_id (some run) =
      if foreign tenant_id lease_id run
      then raise
          (failure "CANCEL_FORBIDDEN" "invocation does not belong to this tenant/lease" false)
      else cancel_worker run.worker invocation_id

  unfoldable pub cancel : Clocks → String → String → String → Exec (Service W) Bool
  cancel c tenant_id lease_id invocation_id = do
    on_db (require_lease c lease_id tenant_id none)
    found ← gets (λ s. get invocation_id s.active)
    cancel_found tenant_id lease_id invocation_id found
