-- ===== src/Pool.antt =====
-- runner_engine/pool.py, `WorkerPool`: warm sandboxes by tenant, runtime and profile. Worker objects
-- live in a store, since the pool, running calls and `cancel` share them.
pub mod Acquire
pub mod Held
pub mod Idle
pub mod Stable
pub mod Retire
pub mod Invariant
pub mod Handed
pub mod Supply
pub mod Creation
pub mod Safety
pub mod Sweep
pub mod Sweeps
pub mod Maintenance
pub mod Reaping
pub mod Retiring
pub mod Shrinks
pub mod History
pub mod Tests
use runner_engine.Prelude.{
  ℕ, suc, ◌+◌, ◌*◌, max, String, Bool, true, false, not, ◌&&◌, ◌||◌, Option, none, some, List, [],
  ◌∷◌, ◌++◌, leb, ltb, nat_beq, if◌then◌else◌, HasEq, ◌==◌, ◌≡◌, ◌↔◌, arith, string_eq, contains,
  length, is_empty,
}
use runner_engine.Errors.{Result, ok, err, exception}
use runner_engine.Exec.{Exec, pure, raise, gets, modify, ◌>>=◌, ◌>>◌, catch, finally, zoom}
use runner_engine.Dict.{Dict, get, put, pop}
use runner_engine.Model.{OperatorRelease, SecurityPolicy, Worker, Ref}
use runner_engine.Quota.{Quota, reserve_live, release_live, enter_creation, leave_creation}
use runner_engine.Backend.{Backend}

pub record PoolConfig : Type 0 where
  pub idle_seconds : ℕ
  pub orphan_ttl_seconds : ℕ
  pub renew_before_seconds : ℕ
  pub max_installed_releases : ℕ

-- The checks of `WorkerPool.__init__`.
unfoldable pub check_config : PoolConfig → Result PoolConfig
check_config c =
    if leb c.idle_seconds 0
    then err (exception "idle_seconds must be positive")
    else if leb c.orphan_ttl_seconds (c.idle_seconds + 60)
    then err (exception "orphan_ttl_seconds must be comfortably larger than idle_seconds")
    else if leb c.renew_before_seconds 0 || leb c.orphan_ttl_seconds c.renew_before_seconds
    then err (exception "renew_before_seconds must be between 0 and orphan_ttl_seconds")
    else if leb c.max_installed_releases 0
    then err (exception "max_installed_releases must be positive")
    else ok c

pub record Key : Type 0 where
  pub tenant_id : String
  pub runtime_id : String
  pub profile : String

abbrev pub key_beq : Key → Key → Bool
key_beq a b = a.tenant_id == b.tenant_id && (a.runtime_id == b.runtime_id && a.profile == b.profile)

pub key_beq_iff : (a b : Key) → (key_beq a b ≡ true) ↔ (a ≡ b)
key_beq_iff a b = ground (
  arith,
  string_eq.is_same_iff a.tenant_id b.tenant_id,
  string_eq.is_same_iff a.runtime_id b.runtime_id,
  string_eq.is_same_iff a.profile b.profile,
)

instance abbrev pub key_eq : HasEq Key
key_eq = record { is_same = key_beq; is_same_iff = key_beq_iff }

-- The last worker of a bucket is the head of its list.
pub record Pool (W : Type 0) : Type 0 where
  pub config : PoolConfig
  pub open config use *
  pub quota : Quota
  pub workers : Ref → Worker
  pub next_ref : Ref
  pub idle : Dict Key (List Ref)
  pub world : W

-- WorkerPool._key
unfoldable pub key_of : String → OperatorRelease → Key
key_of tenant rel = record {
  tenant_id = tenant;
  runtime_id = rel.runtime.id;
  profile = rel.profile;
}

abbrev pub key_of_worker : Worker → Key
key_of_worker w = record { tenant_id = w.tenant_id; runtime_id = w.runtime_id; profile = w.profile }

abbrev pub bucket_or_empty : Option (List Ref) → List Ref
bucket_or_empty none = []
bucket_or_empty (some rs) = rs

abbrev pub bucket : Key → Dict Key (List Ref) → List Ref
bucket k idle = bucket_or_empty (get k idle)

abbrev pub set_worker : (Ref → Worker) → Ref → Worker → Ref → Worker
set_worker ws r w q = if nat_beq q r then w else ws q

module _ {W : Type 0} where
  -- An assignment to a field of a worker.
  abbrev pub assign : Ref → (Worker → Worker) → Pool W → Pool W
  assign r f p = record p { workers = set_worker p.workers r (f (p.workers r)) }

  abbrev pub on_quota {ℓ} : {A : Type ℓ} → Exec Quota A → Exec (Pool W) A
  on_quota = zoom (λ p. p.quota) (λ q p. record p { quota = q })

  abbrev pub on_world {ℓ} : {A : Type ℓ} → Exec W A → Exec (Pool W) A
  on_world = zoom (λ p. p.world) (λ w p. record p { world = w })

abbrev pub mark_destroyed : Worker → Worker
mark_destroyed w = record w { destroyed = true }

abbrev pub expiring : Option ℕ → Worker → Worker
expiring until w = record w { sandbox_expires_monotonic = until }

abbrev pub mark_unhealthy : Worker → Worker
mark_unhealthy w = record w { healthy = false }

module _ {W : Type 0} (backend : Backend W) where
  -- WorkerPool._idle_expired
  unfoldable pub idle_expired : Pool W → Worker → Bool
  idle_expired p w =
      if w.destroyed || not w.healthy
      then true
      else ltb (w.last_used_monotonic + p.idle_seconds * 1000) (backend.monotonic p.world)

  -- WorkerPool._destroy: once for each worker.
  unfoldable pub destroy : Ref → Exec (Pool W) (Unit {0})
  destroy r p =
      if (p.workers r).destroyed
      then (ok tt, p)
      else finally (on_world (backend.destroy (p.workers r)))
          (on_quota (release_live (p.workers r).tenant_id)) (assign r mark_destroyed p)

  unfoldable pub invalidate : Ref → Exec (Pool W) (Unit {0})
  invalidate r = do modify (assign r mark_unhealthy); destroy r

  -- for worker in stale: self._destroy(worker)
  unfoldable pub destroy_all : List Ref → Exec (Pool W) (Unit {0})
  destroy_all [] = pure tt
  destroy_all (r ∷ rs) = do destroy r; destroy_all rs

  -- WorkerPool.release
  unfoldable pub release : Ref → SecurityPolicy → Exec (Pool W) (Unit {0})
  release r policy p =
      let used =
        assign r
          (λ w. record w { runs = w.runs + 1; last_used_monotonic = backend.monotonic p.world })
          p in
      let key = key_of_worker (p.workers r) in
      if (p.workers r).destroyed || (not (p.workers r).healthy || not policy.reuse_sandbox)
      then destroy r used
      else (ok tt, record used { idle = put key (r ∷ bucket key p.idle) p.idle })

  -- WorkerPool.reset_after_restart
  unfoldable pub reset_after_restart : Exec (Pool W) ℕ
  reset_after_restart = do modify (λ p. record p { idle = [] }); on_world backend.cleanup_managed
