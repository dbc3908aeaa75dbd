-- ===== src/Pool/Handed.antt =====
-- What `WorkerPool.acquire` hands out, by either way.
use runner_engine.Prelude.{
  ◌<◌, String, true, false, ◌≡◌, refl, List, [], ◌∷◌, arith, count, nat_eq, string_eq, contains,
  eq_self, inl, inr, nat_beq_iff,
}
use runner_engine.Errors.{Result-cases, ok}
use runner_engine.Model.{Worker, Ref, OperatorRelease, SecurityPolicy}
use runner_engine.Backend.{Backend}
use runner_engine.Pool.{Pool, key_of, key_of_worker, destroy, destroy_all, idle_expired, invalidate}
use runner_engine.Pool.Acquire.{is_stale, ensure_release, ensure_sandbox_ttl, prepare, reuse}
use runner_engine.Pool.Idle.{idle_refs}

-- A worker in the hands of a call for this tenant and release, and of nobody else.
pub record Handed {W : Type 0} (tenant : String) (rel : OperatorRelease) (r : Ref) (p : Pool W)
    : Type 0 where
  pub valid : r < p.next_ref
  pub same_key : key_of_worker (p.workers r) ≡ key_of tenant rel
  pub not_destroyed : (p.workers r).destroyed ≡ false
  pub is_healthy : (p.workers r).healthy ≡ true
  pub installed : contains rel.id (p.workers r).installed_release_ids ≡ true
  pub not_idle : count r (idle_refs p.idle) ≡ 0

module _ {W : Type 0} (backend : Backend W) where
  -- Retiring other workers leaves a worker as it is.
  pub destroy_all_others :
      (r : Ref) (rs : List Ref) (p : Pool W)
      → count r rs ≡ 0
      → (destroy_all backend rs p).1.workers r ≡ p.workers r
  unfolding destroy_all destroy
  destroy_all_others r [] p h = refl
  destroy_all_others r (x ∷ xs) p h =
      ground (arith, destroy_all_others r xs (destroy backend x p).1)

module _ {W : Type 0} (backend : Backend W) (rel : OperatorRelease) where
  pub fresh_enough :
      (p : Pool W) (w : Worker)
      → is_stale backend rel p w ≡ false
      → (w.destroyed ≡ false) × (w.healthy ≡ true)
  unfolding is_stale idle_expired
  fresh_enough p w h = ground arith

  pub ensure_release_lem :
      (w v : Worker) (x : W)
      → (ensure_release backend rel w x).0 ≡ ok v
      → (contains rel.id v.installed_release_ids ≡ true)
        × (key_of_worker v ≡ key_of_worker w)
        × (v.destroyed ≡ w.destroyed)
        × (v.healthy ≡ w.healthy)
  unfolding ensure_release
  ensure_release_lem w v x h = ground (arith, eq_self rel.id)

  ensure_sandbox_ttl_lem :
      (r : Ref) (policy : SecurityPolicy) (p : Pool W)
      → let q = (ensure_sandbox_ttl backend r policy p).1 in
        (q.next_ref ≡ p.next_ref)
        × (q.idle ≡ p.idle)
        × (key_of_worker (q.workers r) ≡ key_of_worker (p.workers r))
        × ((q.workers r).destroyed ≡ (p.workers r).destroyed)
        × ((q.workers r).healthy ≡ (p.workers r).healthy)
  unfolding ensure_sandbox_ttl
  ensure_sandbox_ttl_lem r policy p = ground arith

  -- The candidate of `acquire`, warmed up.
  pub prepare_returns :
      (tenant : String) (r r' : Ref) (policy : SecurityPolicy) (p : Pool W)
      → (prepare backend rel r policy p).0 ≡ ok r'
      → r < p.next_ref
      → key_of_worker (p.workers r) ≡ key_of tenant rel
      → (p.workers r).destroyed ≡ false
      → (p.workers r).healthy ≡ true
      → count r (idle_refs p.idle) ≡ 0
      → Handed tenant rel r' (prepare backend rel r policy p).1
  unfolding prepare
  prepare_returns tenant r r' policy p done valid k d h i =
      let q : Pool W = (ensure_sandbox_ttl backend r policy p).1 in
      let t = ensure_sandbox_ttl_lem r policy p in
      elim (Result-cases (ensure_sandbox_ttl backend r policy p).0) [
        | inr (e, raised) ↦ cc (rw (raised, prepare) at done)
        | inl (u, warm) ↦ elim (Result-cases (ensure_release backend rel (q.workers r) q.world).0) [
          | inr (e, raised) ↦ cc (rw (warm, raised, prepare) at done)
          | inl (w, ready) ↦
              let l = ensure_release_lem (q.workers r) w q.world ready in
              let e : r' ≡ r = cc (rw (warm, ready, prepare) at done) in
              rw (warm, ready, e)
                (record {
                  valid = ground (arith, t.0);
                  same_key = ground (arith, nat_beq_iff r r, l.1, t.2);
                  not_destroyed = ground (arith, nat_beq_iff r r, l.2, t.3);
                  is_healthy = ground (arith, nat_beq_iff r r, l.3, t.4);
                  installed = ground (arith, nat_beq_iff r r, l.0);
                  not_idle = ground (arith, t.1);
                })
        ]
      ]

  pub reuse_ok :
      (r r' : Ref) (policy : SecurityPolicy) (p : Pool W)
      → (reuse backend rel r policy p).0 ≡ ok r'
      → ((prepare backend rel r policy p).0 ≡ ok r')
        × ((reuse backend rel r policy p).1 ≡ (prepare backend rel r policy p).1)
  unfolding reuse
  reuse_ok r r' policy p h = elim (Result-cases (prepare backend rel r policy p).0) [
    | inl (a, e) ↦ (rw e (rw (e, reuse) at h), rw e)
    | inr (x, e) ↦ elim (Result-cases (invalidate backend r (prepare backend rel r policy p).1).0) [
      | inl (u, i) ↦ cc (rw (e, i, reuse) at h)
      | inr (y, i) ↦ cc (rw (e, i, reuse) at h)
    ]
  ]

  pub reuse_returns :
      (tenant : String) (r r' : Ref) (policy : SecurityPolicy) (p : Pool W)
      → (reuse backend rel r policy p).0 ≡ ok r'
      → r < p.next_ref
      → key_of_worker (p.workers r) ≡ key_of tenant rel
      → (p.workers r).destroyed ≡ false
      → (p.workers r).healthy ≡ true
      → count r (idle_refs p.idle) ≡ 0
      → Handed tenant rel r' (reuse backend rel r policy p).1
  reuse_returns tenant r r' policy p done valid k d h i =
      rw (reuse_ok r r' policy p done).1
        (prepare_returns tenant r r' policy p (reuse_ok r r' policy p done).0 valid k d h i)

  -- The candidate that is warmed up is the worker that is returned.
  pub reuse_same :
      (r r' : Ref) (policy : SecurityPolicy) (p : Pool W)
      → (reuse backend rel r policy p).0 ≡ ok r'
      → r' ≡ r
  unfolding prepare
  reuse_same r r' policy p h =
      let q : Pool W = (ensure_sandbox_ttl backend r policy p).1 in
      let done = (reuse_ok r r' policy p h).0 in
      elim (Result-cases (ensure_sandbox_ttl backend r policy p).0) [
        | inr (e, raised) ↦ cc (rw (raised, prepare) at done)
        | inl (u, warm) ↦ elim (Result-cases (ensure_release backend rel (q.workers r) q.world).0) [
          | inr (e, raised) ↦ cc (rw (warm, raised, prepare) at done)
          | inl (w, ready) ↦ cc (rw (warm, ready, prepare) at done)
        ]
      ]
