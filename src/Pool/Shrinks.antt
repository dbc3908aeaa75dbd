-- ===== src/Pool/Shrinks.antt =====
-- What every pool operation but `release` has in common: it adds no worker to the idle buckets, and
-- forgets no place of the store.
use runner_engine.Prelude.{
  ◌≤◌, ◌<◌, ◌≡◌, ◌⊎◌, inl, inr, refl, sym, String, nat_eq, Bool, true, List, ◌∷◌, none, some,
  Option-cases, arith, count, subst,
}
use runner_engine.Errors.{Result-cases, ok}
use runner_engine.Exec.{then-pure_state}
use runner_engine.Model.{Ref, OperatorRelease, SecurityPolicy}
use runner_engine.Backend.{Backend, IsBackend}
use runner_engine.Pool.{Pool, Key, key_of, key_of_worker, bucket, destroy, destroy_all, release}
use runner_engine.Pool.Acquire.{acquire, create, conclude, take_idle}
use runner_engine.Pool.Idle.{idle_refs, count-idle_put}
use runner_engine.Pool.Invariant.{Inv, count-idle_taken}
use runner_engine.Pool.Stable.{Preserves}
use runner_engine.Pool.Retire.{destroy_all-Stable, destroy-Preserves}
use runner_engine.Pool.Supply.{reuse-Stable}
use runner_engine.Pool.Handed.{reuse_same}
use runner_engine.Pool.Creation.{create_cases, attempted}
use runner_engine.Pool.Safety.{cleaned-Preserves, chosen_ready, chosen_idle, found, left, cleaned}
use runner_engine.Pool.Sweep.{
  take_out, reap, retire_runtime, retire_idle_worker, first_with, is_target,
}
use runner_engine.Pool.Sweeps.{count-sweep, out_valid}
use runner_engine.Pool.Reaping.{reap_state, retire_runtime_state}
use runner_engine.Pool.Retiring.{first_with_lem}

pub record Shrinks {W : Type 0} (p q : Pool W) : Type 0 where
  pub grows : p.next_ref ≤ q.next_ref
  pub fewer : (r : Ref) → count r (idle_refs q.idle) ≤ count r (idle_refs p.idle)

module _ {W : Type 0} where
  pub Shrinks-trans : {p q s : Pool W} → Shrinks p q → Shrinks q s → Shrinks p s
  Shrinks-trans a b = record {
    grows = omega (arith, a.grows, b.grows);
    fewer = λ r. omega (arith, a.fewer r, b.fewer r);
  }

  pub Shrinks-Preserves :
      {pending : List String} (p q : Pool W) → Preserves pending p q → Shrinks p q
  Shrinks-Preserves p q s = record {
    grows = rw s.same_next (omega arith);
    fewer = λ r. rw s.same_idle (omega arith);
  }

module _ {W : Type 0} (backend : Backend W) where
  take_idle-Shrinks :
      (rel : OperatorRelease) (key : Key) (p : Pool W) → Shrinks p (take_idle backend rel key p).1
  unfolding take_idle
  take_idle-Shrinks rel key p = record {
    grows = omega arith;
    fewer = λ r. omega (arith, count-idle_taken backend rel key p r);
  }

  take_out-Shrinks : (test : Key → Ref → Bool) (p : Pool W) → Shrinks p (take_out backend test p).1
  unfolding take_out
  take_out-Shrinks test p = record {
    grows = omega arith;
    fewer = λ r. omega (arith, count-sweep test r p.idle);
  }

  take_out_all-Shrinks :
      (test : Key → Ref → Bool) (pending : List String) (p : Pool W)
      → Inv pending p
      → Shrinks p (destroy_all backend (take_out backend test p).0 (take_out backend test p).1).1
  take_out_all-Shrinks test pending p v = Shrinks-trans (take_out-Shrinks test p) (
      Shrinks-Preserves _ _ (
        (destroy_all-Stable backend pending (take_out backend test p).1.next_ref
            (take_out backend test p).0 (out_valid backend test pending p v)).at
          (take_out backend test p).1 refl))

  pub reap-Shrinks :
      (pending : List String) (p : Pool W) → Inv pending p → Shrinks p (reap backend p).1
  reap-Shrinks pending p v =
      rw (reap_state backend pending p v) (take_out_all-Shrinks _ pending p v)

  pub retire_runtime-Shrinks :
      (pending : List String) (p : Pool W) (id : String)
      → Inv pending p
      → Shrinks p (retire_runtime backend id p).1
  retire_runtime-Shrinks pending p id v =
      rw (retire_runtime_state backend pending p v id) (take_out_all-Shrinks _ pending p v)

  pub retire_idle_worker-Shrinks :
      (pending : List String) (p : Pool W) (id : String)
      → Inv pending p
      → Shrinks p (retire_idle_worker backend id p).1
  unfolding retire_idle_worker
  retire_idle_worker-Shrinks pending p id v = elim (Option-cases (first_with p.workers id p.idle)) [
    | inl nobody ↦ rw (nobody, retire_idle_worker) (take_out-Shrinks (λ _ x. is_target none x) p)
    | inr (r, found) ↦
        let q : Pool W = (take_out backend (λ _ x. is_target (some r) x) p).1 in
        rw (found, retire_idle_worker)
          (subst (Shrinks p) (sym (then-pure_state (destroy backend r) true q)) (
            Shrinks-trans (take_out-Shrinks (λ _ x. is_target (some r) x) p) (
              Shrinks-Preserves q _ (
                destroy-Preserves backend pending r q
                  (out_next r (first_with_lem p.workers id r p.idle found).0)))))
  ]
    where
      out_next :
          (r : Ref)
          → 0 < count r (idle_refs p.idle)
          → r < (take_out backend (λ _ x. is_target (some r) x) p).1.next_ref
      out_next r h =
          omega (arith, v.allocated r h, (take_out-Shrinks (λ _ x. is_target (some r) x) p).grows)

module _ {W : Type 0} (backend : Backend W) (law : IsBackend backend) (rel : OperatorRelease)
    (tenant : String) (policy : SecurityPolicy) where
  -- A new worker takes the next place of the store.
  create_frame :
      (p : Pool W)
      → Shrinks p (create backend rel tenant policy p).1
        × ((r : Ref) → (create backend rel tenant policy p).0 ≡ ok r → r ≡ p.next_ref)
  unfolding conclude
  create_frame p = elim (create_cases backend law rel tenant policy p) [
    | inl (e, failed, refused) ↦ (
      rw failed (record { grows = omega arith; fewer = λ q. omega arith }),
      λ r h. cc (rw failed at h),
    )
    | inr (reserved, done) ↦
        elim (Result-cases (attempted backend law rel tenant policy p).0.outcome) [
          | inl (worker, made) ↦ (
            rw (done, made, conclude) (record { grows = omega arith; fewer = λ q. omega arith }),
            λ r h. cc (rw (done, made, conclude) at h),
          )
          | inr (e, failed) ↦ (
            rw (done, failed, conclude) (record { grows = omega arith; fewer = λ q. omega arith }),
            λ r h. cc (rw (done, failed, conclude) at h),
          )
        ]
  ]

  -- A worker that is handed out was idle, or is new.
  pub acquire_frame :
      (pending : List String) (p : Pool W)
      → Inv pending p
      → Shrinks p (acquire backend rel tenant policy p).1
        × ((r : Ref)
            → (acquire backend rel tenant policy p).0 ≡ ok r
            → (0 < count r (idle_refs p.idle)) ⊎ (p.next_ref ≤ r))
  unfolding acquire take_idle
  acquire_frame pending p v =
      let stale = (found backend law rel tenant policy pending p v).stale in
      let mid : Pool W = cleaned backend law rel tenant policy pending p v in
      let start =
        Shrinks-trans (take_idle-Shrinks backend rel (key_of tenant rel) p)
          (Shrinks-Preserves _ mid (cleaned-Preserves backend law rel tenant policy pending p v)) in
      elim (Result-cases
        (destroy_all backend stale (left backend law rel tenant policy pending p v)).0) [
          | inr (e, raised) ↦ (rw (raised, acquire) start, λ r h. cc (rw (raised, acquire) at h))
          | inl (u, done) ↦
              elim (Option-cases (found backend law rel tenant policy pending p v).candidate) [
                | inl nobody ↦ (
                  rw (done, nobody, acquire) (Shrinks-trans start (create_frame mid).0),
                  λ r h.
                      let place = (create_frame mid).1 r (rw (done, nobody, acquire) at h) in
                      inr (rw place start.grows),
                )
                | inr (c, chosen) ↦ (
                  rw (done, chosen, acquire)
                      (Shrinks-trans start (
                        Shrinks-Preserves mid _ (
                          (reuse-Stable backend rel pending mid.next_ref c policy
                              (chosen_ready backend law rel tenant policy pending p v c
                                chosen).0).at
                            mid refl))),
                  λ r h.
                      let same =
                        reuse_same backend rel c r policy mid (rw (done, chosen, acquire) at h) in
                      inl
                        (rw same (chosen_idle backend law rel tenant policy pending p v c chosen)),
                )
              ]
        ]

-- `release` may put its worker, and no other, into a bucket.
pub release_frame :
    {W : Type 0} (backend : Backend W) (r q : Ref) (policy : SecurityPolicy) (p : Pool W)
    → ((release backend r policy p).1.next_ref ≡ p.next_ref)
      × (count q (idle_refs (release backend r policy p).1.idle) ≤ count q (r ∷ idle_refs p.idle))
unfolding release destroy
release_frame backend r q policy p = ground (
  arith,
  count-idle_put (key_of_worker (p.workers r)) q (r ∷ bucket (key_of_worker (p.workers r)) p.idle)
      p.idle,
)
