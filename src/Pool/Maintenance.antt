-- ===== src/Pool/Maintenance.antt =====
-- `WorkerPool.release`, `reap` and `reset_after_restart`, and the retirements of
-- `LifecycleWorkerPool`: the invariant, what each leaves, and what is lost when the backend raises.
use runner_engine.Prelude.{
  ℕ, ◌+◌, ◌<◌, ◌≡◌, ◌⊎◌, inl, inr, refl, sym, ◌∙◌, String, string_eq, nat_eq, nat_beq_iff, true,
  false, not, ◌||◌, List, [], ◌∷◌, ◌==◌, arith, count, Bool-cases, eq→≡, ap,
}
use runner_engine.Errors.{Exn, ok, err}
use runner_engine.Dict.{put}
use runner_engine.Model.{Worker, Ref, SecurityPolicy}
use runner_engine.Backend.{Backend}
use runner_engine.Pool.{
  Pool, Key, key_eq, key_of_worker, destroy, destroy_all, release, assign, bucket,
}
use runner_engine.Pool.Idle.{idle_refs, Keyed-put, Keyed-bucket, count-idle_put}
use runner_engine.Pool.Invariant.{Inv, Inv-Preserves}
use runner_engine.Pool.Stable.{Preserves-assign}
use runner_engine.Pool.Retire.{destroy-Preserves, destroy_marks}

abbrev used_at : ℕ → Worker → Worker
used_at now w = record w { runs = w.runs + 1; last_used_monotonic = now }

module _ {W : Type 0} (backend : Backend W) (pending : List String) (r : Ref)
    (policy : SecurityPolicy) (p : Pool W) (v : Inv pending p) (valid : r < p.next_ref)
    (borrowed : count r (idle_refs p.idle) ≡ 0) where
  abbrev used : Pool W
  used = assign r (used_at (backend.monotonic p.world)) p

  used-Inv : Inv pending used
  used-Inv =
      Inv-Preserves (Preserves-assign pending r (used_at (backend.monotonic p.world)) p refl refl) v

  abbrev key : Key
  key = key_of_worker (p.workers r)

  same_key_used : (q : Ref) → key_of_worker (used.workers q) ≡ key_of_worker (p.workers q)
  same_key_used =
      (Preserves-assign pending r (used_at (backend.monotonic p.world)) p refl refl).same_keys

  parked-keys :
      (q : Ref) → 0 < count q (r ∷ bucket key p.idle) → key_of_worker (used.workers q) ≡ key
  parked-keys q c = elim (Bool-cases (r == q)) [
    | inl here ↦ same_key_used q ∙ sym (ap (λ m. key_of_worker (p.workers m)) (eq→≡ r q here))
    | inr there ↦
        same_key_used q ∙ Keyed-bucket p.workers key p.idle q v.keyed (ground (arith, there))
  ]

  parked-Inv : Inv pending (record used { idle = put key (r ∷ bucket key p.idle) p.idle })
  parked-Inv = record {
    slots = used-Inv.slots;
    once = λ q. ground (
      arith,
      count-idle_put key q (r ∷ bucket key p.idle) p.idle,
      v.once q,
      eq→≡ r q,
      ap (λ m. count m (idle_refs p.idle)) {x = r} {y = q},
    );
    allocated = λ q h.
        ground
          (arith, count-idle_put key q (r ∷ bucket key p.idle) p.idle, v.allocated q, eq→≡ r q);
    keyed = Keyed-put used.workers key _ p.idle parked-keys used-Inv.keyed;
  }

  -- If the pool meets its invariant and the worker is allocated and not idle, release keeps the
  -- invariant, whether it parks the worker or destroys it and whether it returns or raises.
  pub release-Inv : Inv pending (release backend r policy p).1
  unfolding release
  release-Inv =
      elim (Bool-cases
        ((p.workers r).destroyed || (not (p.workers r).healthy || not policy.reuse_sandbox))) [
          | inl worn ↦
              rw (worn, release)
                (Inv-Preserves (destroy-Preserves backend pending r used valid) used-Inv)
          | inr good ↦ rw (good, release) parked-Inv
        ]

  -- If the pool meets its invariant and the worker is allocated and not idle, and it is destroyed
  -- or unhealthy or the policy forbids reuse, then after release it is destroyed and not idle,
  -- whether release returns or raises.
  pub release_retires :
      ((p.workers r).destroyed ≡ true)
        ⊎ ((p.workers r).healthy ≡ false)
        ⊎ (policy.reuse_sandbox ≡ false)
      → (((release backend r policy p).1.workers r).destroyed ≡ true)
        × (count r (idle_refs (release backend r policy p).1.idle) ≡ 0)
  unfolding release destroy
  release_retires h = (ground (arith, nat_beq_iff r r), ground (arith, borrowed))

-- The retirement of the picked workers, in order, up to the first that raises.
module _ {W : Type 0} (backend : Backend W) where
  destroyed_stays :
      (r q : Ref) (p : Pool W)
      → (p.workers q).destroyed ≡ true
      → ((destroy backend r p).1.workers q).destroyed ≡ true
  unfolding destroy
  destroyed_stays r q p h = ground (arith, nat_beq_iff q r)

  destroyed_all_stays :
      (rs : List Ref) (q : Ref) (p : Pool W)
      → (p.workers q).destroyed ≡ true
      → ((destroy_all backend rs p).1.workers q).destroyed ≡ true
  unfolding destroy_all
  destroyed_all_stays [] q p h = h
  destroyed_all_stays (r ∷ rs) q p h =
      ground (arith, destroyed_stays r q p, destroyed_all_stays rs q (destroy backend r p).1)

  pub destroy_all_marks :
      (rs : List Ref) (q : Ref) (p : Pool W)
      → (destroy_all backend rs p).0 ≡ ok tt
      → 0 < count q rs
      → ((destroy_all backend rs p).1.workers q).destroyed ≡ true
  unfolding destroy_all
  destroy_all_marks [] q p h c = absurd (omega arith)
  destroy_all_marks (r ∷ rs) q p h c = ground (
    arith,
    destroy_marks backend [] r p,
    eq→≡ r q,
    ap (λ m. ((destroy backend r p).1.workers m).destroyed) {x = r} {y = q},
    destroyed_all_stays rs q (destroy backend r p).1,
    destroy_all_marks rs q (destroy backend r p).1,
  )

  pub destroy_all_raises :
      (r : Ref) (rs : List Ref) (p : Pool W) (e : Exn)
      → (destroy backend r p).0 ≡ err e
      → destroy_all backend (r ∷ rs) p ≡ (err e, (destroy backend r p).1)
  unfolding destroy_all
  destroy_all_raises r rs p e h = rw h

  pub destroy_others :
      (r q : Ref) (p : Pool W)
      → count q (r ∷ []) ≡ 0
      → (destroy backend r p).1.workers q ≡ p.workers q
  unfolding destroy
  destroy_others r q p h = ground arith
