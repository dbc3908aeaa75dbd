-- ===== src/Backend.antt =====
-- runner_engine/sandbox/backend.py: the protocol that a sandbox backend implements. A call changes
-- the outside world `W`, the reading of the monotonic clock (milliseconds) among it, and may raise.
use runner_engine.Prelude.{ℕ, ◌≡◌, String, Bool, true, false, Option}
use runner_engine.Errors.{ok}
use runner_engine.Exec.{Exec}
use runner_engine.Model.{OperatorRelease, SecurityPolicy, RunRequest, RunResult, Worker}

pub record Backend (W : Type 0) : Type 0 where
  -- time.monotonic()
  pub monotonic : W → ℕ
  pub create : String → OperatorRelease → SecurityPolicy → ℕ → Exec W Worker
  -- The value that `renew` writes to `sandbox_expires_monotonic`.
  pub renew : Worker → ℕ → Exec W (Option ℕ)
  pub install : Worker → OperatorRelease → Exec W (Unit {0})
  pub run : Worker → OperatorRelease → RunRequest → ℕ → Exec W RunResult
  pub cancel : Worker → String → Exec W Bool
  pub destroy : Worker → Exec W (Unit {0})
  pub cleanup_managed : Exec W ℕ

-- What the pool relies on: a new worker belongs to the tenant, runtime and profile that it was
-- created for, and is as the dataclass `Worker` makes it.
pub record IsFresh (tenant : String) (rel : OperatorRelease) (w : Worker) : Type 0 where
  pub same_tenant : w.tenant_id ≡ tenant
  pub same_runtime : w.runtime_id ≡ rel.runtime.id
  pub same_profile : w.profile ≡ rel.profile
  pub is_healthy : w.healthy ≡ true
  pub not_destroyed : w.destroyed ≡ false

pub record IsBackend {W : Type 0} (backend : Backend W) : Type 0 where
  pub create-IsFresh :
      (tenant : String) (rel : OperatorRelease) (policy : SecurityPolicy) (ttl : ℕ) (w : W)
      (worker : Worker)
      → (backend.create tenant rel policy ttl w).0 ≡ ok worker
      → IsFresh tenant rel worker
