-- ===== src/Pool/Supply.antt =====
-- The ways in which `WorkerPool.acquire` supplies a worker keep the invariant: `reuse` and `create`.
use runner_engine.Prelude.{
  ℕ, suc, ◌+◌, ◌*◌, max, leb, ◌<◌, String, false, ◌≡◌, refl, List, ◌∷◌, arith, nat_eq, string_eq,
  Bool-cases, Option-cases, inl, inr, nat_beq,
}
use runner_engine.Errors.{Result-cases, ok}
use runner_engine.Exec.{gets, pure, modify, ◌>>=◌, ◌>>◌}
use runner_engine.Model.{Worker, Ref, OperatorRelease, SecurityPolicy}
use runner_engine.Backend.{Backend}
use runner_engine.Pool.{Pool, key_of_worker, set_worker, on_world, assign, expiring}
use runner_engine.Pool.Acquire.{ensure_release, ensure_sandbox_ttl, prepare, reuse}
use runner_engine.Pool.Held.{held, held_placed, count-held_pending, length-held_pending, Holds-cong}
use runner_engine.Pool.Idle.{Keyed-ext}
use runner_engine.Pool.Invariant.{Inv}
use runner_engine.Pool.Stable.{
  Preserves-refl, Preserves-trans, Preserves-assign, Stable, Stable-bind, Stable-raise,
  Stable-catch, Stable-assign, Stable-on_world,
}
use runner_engine.Pool.Retire.{invalidate-Stable}

module _ {W : Type 0} (backend : Backend W) (pending : List String) where
  abbrev threshold : Pool W → SecurityPolicy → ℕ
  threshold p policy = max (p.renew_before_seconds * 1000) (policy.max_timeout_ms + 120_000)

  renewing :
      (n : ℕ) (r : Ref) (p : Pool W)
      → Stable pending n (
          on_world (backend.renew (p.workers r) p.orphan_ttl_seconds) >>= λ until.
          modify (assign r (expiring until)))
  renewing n r p =
      Stable-bind pending n _ _ (Stable-on_world pending n _)
        (λ until. Stable-assign pending n r (expiring until) (λ w. refl) (λ w. refl))

  ensure_sandbox_ttl-Stable :
      (n : ℕ) (r : Ref) (policy : SecurityPolicy)
      → Stable pending n (ensure_sandbox_ttl backend r policy)
  unfolding ensure_sandbox_ttl
  ensure_sandbox_ttl-Stable n r policy = record {
    at = λ p e. elim (Option-cases (p.workers r).sandbox_expires_monotonic) [
      | inl unlimited ↦ rw (unlimited, ensure_sandbox_ttl) (Preserves-refl p)
      | inr (expires, x) ↦
          elim (Bool-cases (leb expires (backend.monotonic p.world + threshold p policy))) [
            | inl due ↦ rw (x, due, ensure_sandbox_ttl) ((renewing n r p).at p e)
            | inr early ↦ rw (x, early, ensure_sandbox_ttl) (Preserves-refl p)
          ]
    ];
  }

module _ {W : Type 0} (backend : Backend W) (rel : OperatorRelease) (pending : List String) where
  -- What `prepare` writes to the worker leaves its key and its mark alone.
  ensured_same :
      (w v : Worker) (x : W)
      → (ensure_release backend rel w x).0 ≡ ok v
      → (key_of_worker v ≡ key_of_worker w) × (v.destroyed ≡ w.destroyed)
  unfolding ensure_release
  ensured_same w v x h = ground arith

  warm :
      (n : ℕ) (r : Ref)
      → Stable pending n (do
        worker ← gets (λ p. p.workers r)
        ready ← on_world (ensure_release backend rel worker)
        now ← gets (λ p. backend.monotonic p.world)
        modify (assign r (λ w. record ready { last_used_monotonic = now }))
        pure r)
  warm n r = record {
    at = λ p e. elim (Result-cases (ensure_release backend rel (p.workers r) p.world).0) [
      | inl (v, ready) ↦
          let same = ensured_same (p.workers r) v p.world ready in
          let x : W = (ensure_release backend rel (p.workers r) p.world).1 in
          rw ready (
            Preserves-trans
              ((Stable-on_world pending n (ensure_release backend rel (p.workers r))).at p e)
              (Preserves-assign pending r
                (λ w. record v { last_used_monotonic = backend.monotonic x })
                (record p { world = x }) same.0 same.1))
      | inr (x, raised) ↦
          rw raised ((Stable-on_world pending n (ensure_release backend rel (p.workers r))).at p e)
    ];
  }

  prepare-Stable :
      (n : ℕ) (r : Ref) (policy : SecurityPolicy) → Stable pending n (prepare backend rel r policy)
  unfolding prepare
  prepare-Stable n r policy =
      Stable-bind pending n _ _ (ensure_sandbox_ttl-Stable backend pending n r policy)
        (λ _. warm n r)

  pub reuse-Stable :
      (n : ℕ) (r : Ref) (policy : SecurityPolicy)
      → r < n
      → Stable pending n (reuse backend rel r policy)
  unfolding reuse
  reuse-Stable n r policy valid = Stable-catch pending n _ _ (prepare-Stable n r policy) (λ e.
      Stable-bind pending n _ _ (invalidate-Stable backend pending n r valid)
        (λ _. Stable-raise pending n e))

-- A worker that is given a place takes over a slot that was reserved for it.
pub place-Inv :
    {W : Type 0} (pending : List String) (tenant : String) (p : Pool W) (worker : Worker)
    → worker.tenant_id ≡ tenant
    → worker.destroyed ≡ false
    → Inv (tenant ∷ pending) p
    → Inv pending
        (record p { workers = set_worker p.workers p.next_ref worker; next_ref = suc p.next_ref })
place-Inv pending tenant p worker t d v = record {
  slots =
      rw (held_placed pending p.workers worker p.next_ref d, t)
        (Holds-cong p.quota (held (tenant ∷ pending) p.workers p.next_ref) _
          (length-held_pending pending p.workers tenant p.next_ref)
          (λ x. count-held_pending pending p.workers tenant x p.next_ref) v.slots);
  once = v.once;
  allocated = λ r h. omega (arith, v.allocated r h);
  keyed =
      Keyed-ext p.workers (set_worker p.workers p.next_ref worker) p.idle
        (λ r h.
          let old : r < p.next_ref = v.allocated r h in
          let other : nat_beq r p.next_ref ≡ false = ground arith in rw other)
        v.keyed;
}
