-- ===== src/Pool/Safety.antt =====
-- `WorkerPool.acquire` as a whole: what it hands out, and the invariant on every outcome.
use runner_engine.Prelude.{
  ◌+◌, ◌<◌, String, true, false, ◌≡◌, refl, List, [], ◌∷◌, arith, some, count, nat_eq, All,
  Option-cases, inl, inr, nat_beq_iff,
}
use runner_engine.Errors.{Result-cases, ok}
use runner_engine.Model.{Ref, OperatorRelease, SecurityPolicy}
use runner_engine.Backend.{Backend, IsBackend}
use runner_engine.Pool.{Pool, key_of, key_of_worker, destroy_all}
use runner_engine.Pool.Acquire.{Scan, take_idle, acquire}
use runner_engine.Pool.Idle.{idle_refs}
use runner_engine.Pool.Invariant.{
  Inv, Inv-Preserves, candidate_refs, take_idle-Inv, taken-named, taken_once, count-idle_taken,
  scan_candidate,
}
use runner_engine.Pool.Stable.{Preserves}
use runner_engine.Pool.Retire.{destroy_all-Stable}
use runner_engine.Pool.Supply.{reuse-Stable}
use runner_engine.Pool.Creation.{create-Inv, create_returns}
use runner_engine.Pool.Handed.{Handed, destroy_all_others, fresh_enough, reuse_returns}

-- A property of what a list counts holds of its elements.
pub All-count : (P : Ref → Type 0) (rs : List Ref) → ((r : Ref) → 0 < count r rs → P r) → All P rs
All-count P [] h = tt
All-count P (x ∷ xs) h =
    (h x (ground (arith, nat_beq_iff x x)), All-count P xs (λ r c. h r (ground arith)))

module _ {W : Type 0} (backend : Backend W) (law : IsBackend backend) (rel : OperatorRelease)
    (tenant : String) (policy : SecurityPolicy) (pending : List String) (p : Pool W)
    (v : Inv pending p) where
  abbrev pub found : Scan
  found = (take_idle backend rel (key_of tenant rel) p).0

  abbrev pub left : Pool W
  left = (take_idle backend rel (key_of tenant rel) p).1

  abbrev pub cleaned : Pool W
  cleaned = (destroy_all backend found.stale left).1

  next-left : left.next_ref ≡ p.next_ref
  unfolding take_idle
  next-left = refl

  stale_valid : All (λ r. r < left.next_ref) found.stale
  stale_valid =
      All-count _ found.stale
        λ r c. rw next-left (taken-named backend rel (key_of tenant rel) p v r (omega arith)).0

  pub cleaned-Preserves : Preserves pending left cleaned
  cleaned-Preserves =
      (destroy_all-Stable backend pending left.next_ref found.stale stale_valid).at left refl

  cleaned-Inv : Inv pending cleaned
  cleaned-Inv = Inv-Preserves cleaned-Preserves (take_idle-Inv backend rel (key_of tenant rel) p v)

  pub chosen_ready :
      (r : Ref)
      → found.candidate ≡ some r
      → (r < cleaned.next_ref)
        × (key_of_worker (cleaned.workers r) ≡ key_of tenant rel)
        × ((cleaned.workers r).destroyed ≡ false)
        × ((cleaned.workers r).healthy ≡ true)
        × (count r (idle_refs cleaned.idle) ≡ 0)
  unfolding take_idle
  chosen_ready r e =
      let named : 0 < count r found.stale + count r (candidate_refs found.candidate) =
        rw e (ground (arith, nat_beq_iff r r)) in
      let t = taken-named backend rel (key_of tenant rel) p v r named in
      let alone : count r found.stale ≡ 0 =
        ground
          (arith, rw e at (taken_once backend rel (key_of tenant rel) p v r), nat_beq_iff r r) in
      let same : cleaned.workers r ≡ p.workers r =
        destroy_all_others backend r found.stale left alone in
      let fresh = fresh_enough backend rel p (p.workers r) (scan_candidate backend rel p r _ e) in
      (
        rw cleaned-Preserves.same_next t.0,
        rw same t.1,
        rw same fresh.0,
        rw same fresh.1,
        rw cleaned-Preserves.same_idle t.2,
      )

  pub chosen_idle : (r : Ref) → found.candidate ≡ some r → 0 < count r (idle_refs p.idle)
  unfolding take_idle
  chosen_idle r e =
      ground
        (arith, rw e at (count-idle_taken backend rel (key_of tenant rel) p r), nat_beq_iff r r)

  -- If the backend creates workers as asked and the pool meets its invariant with some reserved
  -- slots pending elsewhere, it meets it with the same pending slots after acquire, whether
  -- acquire returns or raises and whatever the backend's calls answer.
  pub acquire-Inv : Inv pending (acquire backend rel tenant policy p).1
  unfolding acquire
  acquire-Inv = elim (Result-cases (destroy_all backend found.stale left).0) [
    | inr (e, raised) ↦ rw (raised, acquire) cleaned-Inv
    | inl (u, done) ↦ elim (Option-cases found.candidate) [
      | inl nobody ↦
          rw (done, nobody, acquire)
            (create-Inv backend law rel pending tenant policy cleaned cleaned-Inv)
      | inr (r, chosen) ↦
          rw (done, chosen, acquire)
            (Inv-Preserves
              ((reuse-Stable backend rel pending cleaned.next_ref r policy
                  (chosen_ready r chosen).0).at
                cleaned refl)
              cleaned-Inv)
    ]
  ]

  -- If the backend creates workers as asked and the pool meets its invariant, a worker that
  -- acquire returns is allocated, neither destroyed nor unhealthy, of the caller's tenant, runtime
  -- and profile, has the release installed, and stands in no idle bucket.
  pub acquire_returns :
      (r : Ref)
      → (acquire backend rel tenant policy p).0 ≡ ok r
      → Handed tenant rel r (acquire backend rel tenant policy p).1
  unfolding acquire
  acquire_returns r h = elim (Result-cases (destroy_all backend found.stale left).0) [
    | inr (e, raised) ↦ cc (rw (raised, acquire) at h)
    | inl (u, done) ↦ elim (Option-cases found.candidate) [
      | inl nobody ↦
          rw (done, nobody, acquire)
            (create_returns backend law rel pending tenant r policy cleaned cleaned-Inv
              (rw (done, nobody, acquire) at h))
      | inr (c, chosen) ↦
          let t = chosen_ready c chosen in
          rw (done, chosen, acquire)
            (reuse_returns backend rel tenant c r policy cleaned (rw (done, chosen, acquire) at h)
              t.0 t.1 t.2 t.3 t.4)
    ]
  ]
