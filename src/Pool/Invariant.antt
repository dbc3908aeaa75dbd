-- ===== src/Pool/Invariant.antt =====
-- The invariant of the pool: the quota holds one slot for each live worker, an idle worker stands in
-- one bucket, once, and that bucket's key is the worker's own.
use runner_engine.Prelude.{
  ◌+◌, ◌≤◌, ◌<◌, String, false, ◌≡◌, refl, List, [], ◌∷◌, arith, Option, none, some, count, nat_eq,
  Bool-cases, inl, inr, is_empty, ap,
}
use runner_engine.Model.{Ref, OperatorRelease}
use runner_engine.Quota.Slots.{Holds}
use runner_engine.Backend.{Backend}
use runner_engine.Pool.{Pool, Key, key_eq, key_of_worker, bucket}
use runner_engine.Pool.Acquire.{Scan, is_stale, scan, take_idle}
use runner_engine.Pool.Held.{held}
use runner_engine.Pool.Idle.{
  idle_refs, count-idle_put, count-idle_pop, Keyed, Keyed-bucket, Keyed-put, Keyed-pop, Keyed-ext,
}
use runner_engine.Pool.Stable.{Preserves}

pub record Inv {W : Type 0} (pending : List String) (p : Pool W) : Type 0 where
  pub slots : Holds p.quota (held pending p.workers p.next_ref)
  pub once : (r : Ref) → count r (idle_refs p.idle) ≤ 1
  pub allocated : (r : Ref) → 0 < count r (idle_refs p.idle) → r < p.next_ref
  pub keyed : Keyed p.workers p.idle

pub Inv-Preserves :
    {W : Type 0} {pending : List String} {p q : Pool W}
    → Preserves pending p q
    → Inv pending p
    → Inv pending q
Inv-Preserves {p} {q} s v = record {
  slots = s.slots v.slots;
  once = λ r. rw s.same_idle (v.once r);
  allocated = λ r h. rw s.same_next (v.allocated r (rw s.same_idle at h));
  keyed = rw s.same_idle (Keyed-ext p.workers q.workers p.idle (λ r _. s.same_keys r) v.keyed);
}

abbrev pub candidate_refs : Option Ref → List Ref
candidate_refs none = []
candidate_refs (some r) = r ∷ []

module _ {W : Type 0} (backend : Backend W) (rel : OperatorRelease) (p : Pool W) where
  -- The loop shares the bucket out: nobody is lost and nobody is named twice.
  pub count-scan :
      (r : Ref) (rs : List Ref)
      → let found = scan backend rel p rs in
        count r rs
        ≡ count r found.stale + count r (candidate_refs found.candidate) + count r found.rest
  unfolding scan
  count-scan r [] = ground arith
  count-scan r (x ∷ xs) = ground (arith, count-scan r xs)

  -- The worker that the loop chooses can serve the release.
  pub scan_candidate :
      (r : Ref) (rs : List Ref)
      → (scan backend rel p rs).candidate ≡ some r
      → is_stale backend rel p (p.workers r) ≡ false
  unfolding scan
  scan_candidate r [] h = cc
  scan_candidate r (x ∷ xs) h =
      ground
        (arith, scan_candidate r xs, ap (λ y. is_stale backend rel p (p.workers y)) {x = x} {y = r})

module _ {W : Type 0} (backend : Backend W) (rel : OperatorRelease) (key : Key) (p : Pool W) where
  abbrev taken : Scan
  taken = (take_idle backend rel key p).0

  abbrev left : Pool W
  left = (take_idle backend rel key p).1

  pub count-idle_taken :
      (r : Ref)
      → count r (idle_refs left.idle)
          + count r taken.stale
          + count r (candidate_refs taken.candidate)
        ≤ count r (idle_refs p.idle)
  unfolding take_idle
  count-idle_taken r = ground (
    arith,
    count-scan backend rel p r (bucket key p.idle),
    count-idle_pop key r p.idle,
    count-idle_put key r (scan backend rel p (bucket key p.idle)).rest p.idle,
  )

  left-Keyed : Keyed p.workers p.idle → Keyed left.workers left.idle
  unfolding take_idle
  left-Keyed h =
      let rest = (scan backend rel p (bucket key p.idle)).rest in
      elim (Bool-cases (is_empty rest)) [
        | inl none_left ↦ rw none_left (Keyed-pop p.workers key p.idle h)
        | inr some_left ↦ rw some_left (
            Keyed-put p.workers key rest p.idle
              (λ r c.
                Keyed-bucket p.workers key p.idle r h
                  (omega (arith, count-scan backend rel p r (bucket key p.idle))))
              h)
      ]

  same_taken : (left.workers ≡ p.workers) × (left.next_ref ≡ p.next_ref) × (left.quota ≡ p.quota)
  unfolding take_idle
  same_taken = (refl, refl, refl)

  pub take_idle-Inv : {pending : List String} → Inv pending p → Inv pending left
  unfolding same_taken take_idle
  take_idle-Inv v = record {
    slots = v.slots;
    once = λ r. omega (arith, count-idle_taken r, v.once r);
    allocated = λ r h. v.allocated r (omega (arith, count-idle_taken r));
    keyed = left-Keyed v.keyed;
  }

  -- A worker that the loop names was idle under the key, and is so no longer.
  pub taken-named :
      {pending : List String}
      → Inv pending p
      → (r : Ref) → 0 < count r taken.stale + count r (candidate_refs taken.candidate)
      → (r < p.next_ref) × (key_of_worker (p.workers r) ≡ key) × (count r (idle_refs left.idle) ≡ 0)
  unfolding take_idle
  taken-named v r h = (
    v.allocated r (omega (arith, count-idle_taken r)),
    Keyed-bucket p.workers key p.idle r v.keyed
        (omega (arith, count-scan backend rel p r (bucket key p.idle))),
    omega (arith, count-idle_taken r, v.once r),
  )

  pub taken_once :
      {pending : List String}
      → Inv pending p
      → (r : Ref) → count r taken.stale + count r (candidate_refs taken.candidate) ≤ 1
  taken_once v r = omega (arith, count-idle_taken r, v.once r)
