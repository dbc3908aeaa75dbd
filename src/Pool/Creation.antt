-- ===== src/Pool/Creation.antt =====
-- The creation of a sandbox in `WorkerPool.acquire`: the reserved slot ends with the worker or is
-- given back.
use runner_engine.Prelude.{
  ℕ, String, true, ◌≡◌, ◌⊎◌, sym, List, ◌∷◌, arith, count, erase, count-erase, length-erase, nat_eq,
  string_eq, contains, eq_self, inl, inr, nat_beq_iff,
}
use runner_engine.Errors.{Exn, Result-cases, ok, err}
use runner_engine.Model.{Worker, Ref, OperatorRelease, SecurityPolicy}
use runner_engine.Quota.{reserve_live, release_live, enter_creation, leave_creation}
use runner_engine.Quota.Slots.{Holds, reserve-Holds, release-Holds, reserve_refused, Holds-creation}
use runner_engine.Backend.{Backend, IsBackend, IsFresh}
use runner_engine.Pool.{Pool, key_of}
use runner_engine.Pool.Acquire.{Attempt, attempt, create, conclude}
use runner_engine.Pool.Held.{held, count-held_pending, length-held_pending, Holds-cong}
use runner_engine.Pool.Idle.{idle_refs}
use runner_engine.Pool.Invariant.{Inv}
use runner_engine.Pool.Supply.{place-Inv}
use runner_engine.Pool.Handed.{Handed, ensure_release_lem}

module _ {W : Type 0} (pending : List String) (tenant : String) (p : Pool W) where
  reserved-Inv :
      Inv pending p
      → (reserve_live tenant p.quota).0 ≡ ok tt
      → Inv (tenant ∷ pending) (record p { quota = (reserve_live tenant p.quota).1 })
  reserved-Inv v done = record {
    slots =
        Holds-cong _ (tenant ∷ held pending p.workers p.next_ref) _
          (sym (length-held_pending pending p.workers tenant p.next_ref))
          (λ t. sym (count-held_pending pending p.workers tenant t p.next_ref))
          (reserve-Holds tenant p.quota (held pending p.workers p.next_ref) v.slots done);
    once = v.once;
    allocated = v.allocated;
    keyed = v.keyed;
  }

  returned-slots :
      Inv (tenant ∷ pending) p
      → Holds (release_live tenant p.quota).1 (held pending p.workers p.next_ref)
  returned-slots v =
      let all = held (tenant ∷ pending) p.workers p.next_ref in
      Holds-cong _ (erase tenant all) _
        (ground (
          arith,
          length-erase tenant all,
          length-held_pending pending p.workers tenant p.next_ref,
          count-held_pending pending p.workers tenant tenant p.next_ref,
          eq_self tenant,
        ))
        (λ t. ground (
          arith,
          count-erase t tenant all,
          count-held_pending pending p.workers tenant t p.next_ref,
        ))
        (release-Holds tenant p.quota all v.slots)

module _ {W : Type 0} (backend : Backend W) (law : IsBackend backend) (rel : OperatorRelease) where
  -- A worker that is created and has the release installed is fresh for its tenant and release.
  attempt-IsFresh :
      (tenant : String) (policy : SecurityPolicy) (ttl : ℕ) (w : W) (worker : Worker)
      → (attempt backend rel tenant policy ttl w).0.outcome ≡ ok worker
      → IsFresh tenant rel worker × (contains rel.id worker.installed_release_ids ≡ true)
  unfolding attempt
  attempt-IsFresh tenant policy ttl w worker h =
      elim (Result-cases (backend.create tenant rel policy ttl w).0) [
        | inr (e, raised) ↦ cc (rw (raised, attempt) at h)
        | inl (made, created) ↦
            let fresh = law.create-IsFresh tenant rel policy ttl w made created in
            let l =
              ensure_release_lem backend rel made worker (backend.create tenant rel policy ttl w).1
                (rw (created, attempt) at h) in
            (
              record {
                same_tenant = ground (arith, fresh, l.1);
                same_runtime = ground (arith, fresh, l.1);
                same_profile = ground (arith, fresh, l.1);
                is_healthy = ground (arith, fresh, l.3);
                not_destroyed = ground (arith, fresh, l.2);
              },
              l.0,
            )
      ]

  conclude-Inv :
      (pending : List String) (tenant : String) (a : Attempt) (p : Pool W)
      → ((worker : Worker) → a.outcome ≡ ok worker → IsFresh tenant rel worker)
      → Inv (tenant ∷ pending) p
      → Inv pending (conclude backend rel tenant a p).1
  unfolding conclude
  conclude-Inv pending tenant a p fresh v = elim (Result-cases a.outcome) [
    | inl (worker, made) ↦
        let f = fresh worker made in
        rw (made, conclude) (place-Inv pending tenant p worker f.same_tenant f.not_destroyed v)
    | inr (e, failed) ↦
        rw (failed, conclude)
          (record {
            slots = returned-slots pending tenant p v;
            once = v.once;
            allocated = v.allocated;
            keyed = v.keyed;
          })
  ]

  -- The pool when the creation is over and its outcome is not yet dealt with.
  abbrev pub attempted : String → SecurityPolicy → Pool W → Attempt × Pool W
  attempted tenant policy p =
      let (a, w) = attempt backend rel tenant policy p.orphan_ttl_seconds p.world in
      (
        a,
        record p {
          quota = leave_creation (enter_creation (reserve_live tenant p.quota).1);
          world = w;
        },
      )

  pub create_cases :
      (tenant : String) (policy : SecurityPolicy) (p : Pool W)
      → ((e : Exn) × (create backend rel tenant policy p
            ≡ (err e, record p { quota = (reserve_live tenant p.quota).1 }))
          × ((reserve_live tenant p.quota).0 ≡ err e))
        ⊎ (((reserve_live tenant p.quota).0 ≡ ok tt)
            × (create backend rel tenant policy p
                ≡ conclude backend rel tenant
                    (attempted tenant policy p).0
                    (attempted tenant policy p).1))
  unfolding create
  create_cases tenant policy p = elim (Result-cases (reserve_live tenant p.quota).0) [
    | inl (u, reserved) ↦ inr (reserved, rw (reserved, create))
    | inr (e, refused) ↦ inl (e, rw (refused, create), refused)
  ]

  refused-Inv :
      (pending : List String) (tenant : String) (p : Pool W) (e : Exn)
      → (reserve_live tenant p.quota).0 ≡ err e
      → Inv pending p
      → Inv pending (record p { quota = (reserve_live tenant p.quota).1 })
  refused-Inv pending tenant p e h v =
      let same : (reserve_live tenant p.quota).1 ≡ p.quota = reserve_refused tenant p.quota e h in
      rw same v

  pub create-Inv :
      (pending : List String) (tenant : String) (policy : SecurityPolicy) (p : Pool W)
      → Inv pending p
      → Inv pending (create backend rel tenant policy p).1
  create-Inv pending tenant policy p v = elim (create_cases tenant policy p) [
    | inl (e, failed, refused) ↦ rw failed (refused-Inv pending tenant p e refused v)
    | inr (reserved, done) ↦
        let i = reserved-Inv pending tenant p v reserved in
        rw done (
          conclude-Inv pending tenant (attempted tenant policy p).0 (attempted tenant policy p).1
            (λ worker made.
              (attempt-IsFresh tenant policy p.orphan_ttl_seconds p.world worker made).0)
            (record {
              slots = Holds-creation _ _ i.slots;
              once = i.once;
              allocated = i.allocated;
              keyed = i.keyed;
            }))
  ]

  pub create_returns :
      (pending : List String) (tenant : String) (r : Ref) (policy : SecurityPolicy) (p : Pool W)
      → Inv pending p
      → (create backend rel tenant policy p).0 ≡ ok r
      → Handed tenant rel r (create backend rel tenant policy p).1
  unfolding conclude key_of
  create_returns pending tenant r policy p v h = elim (create_cases tenant policy p) [
    | inl (e, failed, refused) ↦ cc (rw failed at h)
    | inr (reserved, done) ↦
        let a = (attempted tenant policy p).0 in
        let q : Pool W = (attempted tenant policy p).1 in
        elim (Result-cases a.outcome) [
          | inr (e, failed) ↦ cc (rw (done, failed, conclude) at h)
          | inl (worker, made) ↦
              let unused : count p.next_ref (idle_refs p.idle) ≡ 0 =
                ground (arith, v.allocated p.next_ref) in
              let place : r ≡ p.next_ref = cc (rw (done, made, conclude) at h) in
              let (fresh, has) =
                attempt-IsFresh tenant policy p.orphan_ttl_seconds p.world worker made in
              rw (done, made, place, conclude)
                (record {
                  valid = omega arith;
                  same_key = ground (arith, nat_beq_iff p.next_ref p.next_ref, fresh);
                  not_destroyed =
                      ground (arith, nat_beq_iff p.next_ref p.next_ref, fresh.not_destroyed);
                  is_healthy = ground (arith, nat_beq_iff p.next_ref p.next_ref, fresh.is_healthy);
                  installed = ground (arith, nat_beq_iff p.next_ref p.next_ref, has);
                  not_idle = unused;
                })
        ]
  ]
