-- ===== src/Pool/Acquire.antt =====
-- runner_engine/pool.py: `WorkerPool.acquire`, which reuses a warm sandbox or creates one.
use runner_engine.Prelude.{
  ℕ, suc, ◌+◌, ◌*◌, max, String, Bool, true, not, ◌&&◌, Option, none, some, List, [], ◌∷◌, leb,
  if◌then◌else◌, string_eq, contains, length, is_empty,
}
use runner_engine.Errors.{Result, ok, err}
use runner_engine.Exec.{Exec, pure, raise, gets, modify, ◌>>=◌, ◌>>◌, catch}
use runner_engine.Dict.{put, pop}
use runner_engine.Model.{OperatorRelease, SecurityPolicy, Worker, Ref}
use runner_engine.Quota.{reserve_live, release_live, enter_creation, leave_creation}
use runner_engine.Backend.{Backend}
use runner_engine.Pool.{
  Pool, Key, key_eq, key_of, bucket, set_worker, assign, on_quota, on_world, idle_expired,
  destroy_all, invalidate, expiring,
}

-- What the loop over a bucket leaves: the workers to retire, the one to reuse, those not looked at.
pub record Scan : Type 0 where
  pub stale : List Ref
  pub candidate : Option Ref
  pub rest : List Ref

-- worker.installed_release_ids.add(release.id)
abbrev pub add_release : String → Worker → Worker
add_release id w = record w {
  installed_release_ids =
      if contains id w.installed_release_ids
      then w.installed_release_ids
      else id ∷ w.installed_release_ids;
}

-- What `worker` holds when the creation ends, and how it ends.
pub record Attempt : Type 0 where
  pub made : Option Worker
  pub outcome : Result Worker

module _ {W : Type 0} (backend : Backend W) where
  -- WorkerPool._ensure_sandbox_ttl: `remaining <= renew_threshold`, in milliseconds
  unfoldable pub ensure_sandbox_ttl : Ref → SecurityPolicy → Exec (Pool W) (Unit {0})
  ensure_sandbox_ttl r policy p = elim ((p.workers r).sandbox_expires_monotonic) [
    | none ↦ (ok tt, p)
    | some expires ↦
        let headroom = policy.max_timeout_ms + 120_000 in
        let threshold = max (p.renew_before_seconds * 1000) headroom in
        if leb expires (backend.monotonic p.world + threshold)
        then (on_world (backend.renew (p.workers r) p.orphan_ttl_seconds) >>= λ until.
              modify (assign r (expiring until)))
            p
        else (ok tt, p)
  ]

module _ {W : Type 0} (backend : Backend W) (rel : OperatorRelease) where
  -- The worker cannot serve the release: it has expired, or has no room for one more release.
  unfoldable pub is_stale : Pool W → Worker → Bool
  is_stale p w =
      if idle_expired backend p w
      then true
      else not (contains rel.id w.installed_release_ids)
        && leb p.max_installed_releases (length w.installed_release_ids)

  unfoldable pub scan : Pool W → List Ref → Scan
  scan p [] = record { stale = []; candidate = none; rest = [] }
  scan p (r ∷ rs) =
      let later = scan p rs in
      if is_stale p (p.workers r)
      then record later { stale = r ∷ later.stale }
      else record { stale = []; candidate = some r; rest = rs }

  -- The part of `acquire` under the lock.
  unfoldable pub take_idle : Key → Pool W → Scan × Pool W
  take_idle key p =
      let found = scan p (bucket key p.idle) in
      (
        found,
        record p {
          idle = if is_empty found.rest then pop key p.idle else put key found.rest p.idle;
        },
      )

  -- WorkerPool._ensure_release, on the object itself
  unfoldable pub ensure_release : Worker → Exec W Worker
  ensure_release w =
      if contains rel.id w.installed_release_ids
      then pure w
      else do backend.install w rel; pure (add_release rel.id w)

  unfoldable pub prepare : Ref → SecurityPolicy → Exec (Pool W) Ref
  prepare r policy = do
    ensure_sandbox_ttl backend r policy
    worker ← gets (λ p. p.workers r)
    ready ← on_world (ensure_release worker)
    now ← gets (λ p. backend.monotonic p.world)
    modify (assign r (λ w. record ready { last_used_monotonic = now }))
    pure r

  unfoldable pub reuse : Ref → SecurityPolicy → Exec (Pool W) Ref
  reuse r policy = catch (prepare r policy) λ e. do invalidate backend r; raise e

  -- backend.create and _ensure_release
  unfoldable pub attempt : String → SecurityPolicy → ℕ → W → Attempt × W
  attempt tenant policy ttl w =
      let (created, w') = backend.create tenant rel policy ttl w in
      elim created [
        | err e ↦ (record { made = none; outcome = err e }, w')
        | ok worker ↦
            let (outcome, w'') = ensure_release worker w' in
            (record { made = some worker; outcome = outcome }, w'')
      ]

  -- try: backend.destroy(worker)  except Exception: pass
  unfoldable pub discard : Option Worker → W → W
  discard none w = w
  discard (some worker) w = (backend.destroy worker w).1

  -- The new object gets a place in the store when `acquire` returns it.
  unfoldable pub conclude : String → Attempt → Exec (Pool W) Ref
  conclude tenant a p = elim a.outcome [
    | ok worker ↦ (
      ok p.next_ref,
      record p { workers = set_worker p.workers p.next_ref worker; next_ref = suc p.next_ref },
    )
    | err e ↦ (
      err e,
      record p { world = discard a.made p.world; quota = (release_live tenant p.quota).1 },
    )
  ]

  unfoldable pub create : String → SecurityPolicy → Exec (Pool W) Ref
  create tenant policy = do
    on_quota (reserve_live tenant)
    modify (λ p. record p { quota = enter_creation p.quota })
    a ← λ p.
        let (a, w) = attempt tenant policy p.orphan_ttl_seconds p.world in
        (ok a, record p { world = w })
    modify (λ p. record p { quota = leave_creation p.quota })
    conclude tenant a

  abbrev pub reuse_or_create : Option Ref → String → SecurityPolicy → Exec (Pool W) Ref
  reuse_or_create (some r) tenant policy = reuse r policy
  reuse_or_create none tenant policy = create tenant policy

  -- WorkerPool.acquire
  unfoldable pub acquire : String → SecurityPolicy → Exec (Pool W) Ref
  acquire tenant policy p =
      let (found, q) = take_idle (key_of tenant rel) p in
      (destroy_all backend found.stale >> reuse_or_create found.candidate tenant policy) q
