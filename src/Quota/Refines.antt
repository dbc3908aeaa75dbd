-- ===== src/Quota/Refines.antt =====
-- quota.py against the bag of slots that it stands for, over any sequence of its calls.
use runner_engine.Prelude.{
  ℕ, ◌+◌, ◌-◌, ◌≡◌, refl, ◌∙◌, String, string_eq, true, false, List, [], ◌∷◌, leb, length, count,
  erase, arith, if◌then◌else◌, inl, inr,
}
use runner_engine.Errors.{Result, ok, err, failure}
use runner_engine.Exec.{Exec}
use runner_engine.Quota.{Quota, reserve_live, release_live, enter_creation, leave_creation}
use runner_engine.Quota.Slots.{Holds, reserve-Holds, release-Holds, release-limits, reserve_cases}

-- The calls: a slot is reserved or released, or a creation begins or ends.
pub data Call : Type 0 where
  reserves : String → Call
  releases : String → Call
  creates : Call
  created : Call

abbrev pub call : Call → Exec Quota (Unit {0})
call (reserves tenant) q = reserve_live tenant q
call (releases tenant) q = release_live tenant q
call creates q = (ok tt, enter_creation q)
call created q = (ok tt, leave_creation q)

-- A bag of slots, each marked with its tenant, with a limit on all and one on each tenant's.
module _ (max_live max_live_per_tenant : ℕ) where
  abbrev pub bag_call : Call → Exec (List String) (Unit {0})
  bag_call (reserves tenant) held =
      if leb max_live (length held)
      then (err (failure "GLOBAL_SANDBOX_QUOTA" "global live-sandbox quota reached" true), held)
      else if leb max_live_per_tenant (count tenant held)
      then (err (failure "TENANT_SANDBOX_QUOTA" "tenant live-sandbox quota reached" true), held)
      else (ok tt, tenant ∷ held)
  bag_call (releases tenant) held = (ok tt, erase tenant held)
  bag_call creates held = (ok tt, held)
  bag_call created held = (ok tt, held)

-- What a sequence of calls answers.
module _ {S : Type 0} (step : Call → Exec S (Unit {0})) where
  abbrev pub answers : List Call → S → List (Result (Unit {0}))
  answers [] s = []
  answers (c ∷ cs) s = (step c s).0 ∷ answers cs (step c s).1

  abbrev pub after_calls : List Call → S → S
  after_calls [] s = s
  after_calls (c ∷ cs) s = after_calls cs (step c s).1

-- The counters tell the bag, under these limits.
pub record Refines (max_live max_live_per_tenant : ℕ) (q : Quota) (held : List String)
    : Type 0 where
  pub slots : Holds q held
  pub limit : q.max_live ≡ max_live
  pub tenant_limit : q.max_live_per_tenant ≡ max_live_per_tenant

module _ (m n : ℕ) where
  reserve-limits :
      (tenant : String) (q : Quota)
      → ((reserve_live tenant q).1.max_live ≡ q.max_live)
        × ((reserve_live tenant q).1.max_live_per_tenant ≡ q.max_live_per_tenant)
  unfolding reserve_live
  reserve-limits tenant q = ground arith

  release_returns : (tenant : String) (q : Quota) → (release_live tenant q).0 ≡ ok tt
  unfolding release_live
  release_returns tenant q = ground arith

  -- The creation semaphore is no part of the slots.
  creating_differs :
      (creating : ℕ) (q : Quota) (held : List String)
      → Refines m n q held
      → Refines m n (record q { creating = creating }) held
  creating_differs creating q held r = record {
    slots = record {
      live_count = r.slots.live_count;
      tenant_counts = r.slots.tenant_counts;
      within = r.slots.within;
      tenant_within = r.slots.tenant_within;
    };
    limit = r.limit;
    tenant_limit = r.tenant_limit;
  }

  abbrev Simulates : Call → Quota → List String → Type 0
  Simulates c q held =
      ((call c q).0 ≡ (bag_call m n c held).0) × Refines m n (call c q).1 (bag_call m n c held).1

  call-Refines :
      (c : Call) (q : Quota) (held : List String) → Refines m n q held → Simulates c q held
  call-Refines (reserves tenant) q held r = elim (reserve_cases tenant q held r.slots) [
    | inl (full, e) ↦
        let full' : leb m (length held) ≡ true = ground (arith, full, r.limit) in
        rw (e, full') (refl, r)
    | inr (inl (free, full, e)) ↦
        let free' : leb m (length held) ≡ false = ground (arith, free, r.limit) in
        let full' : leb n (count tenant held) ≡ true = ground (arith, full, r.tenant_limit) in
        rw (e, free', full') (refl, r)
    | inr (inr (free, room, e)) ↦
        let free' : leb m (length held) ≡ false = ground (arith, free, r.limit) in
        let room' : leb n (count tenant held) ≡ false = ground (arith, room, r.tenant_limit) in
        rw (e, free', room')
          (
            refl,
            record {
              slots = reserve-Holds tenant q held r.slots e;
              limit = (reserve-limits tenant q).0 ∙ r.limit;
              tenant_limit = (reserve-limits tenant q).1 ∙ r.tenant_limit;
            },
          )
  ]
  call-Refines (releases tenant) q held r = (
    release_returns tenant q,
    record {
      slots = release-Holds tenant q held r.slots;
      limit = (release-limits tenant q held r.slots).0 ∙ r.limit;
      tenant_limit = (release-limits tenant q held r.slots).1 ∙ r.tenant_limit;
    },
  )
  call-Refines creates q held r = (refl, creating_differs (q.creating + 1) q held r)
  call-Refines created q held r = (refl, creating_differs (q.creating - 1) q held r)

  -- Where the counters tell a bag of slots, each marked with its tenant, within the limits: any
  -- sequence of reserve_live, release_live and the two ends of creation_slot answers, call for
  -- call, as the bag does, which raises GLOBAL_SANDBOX_QUOTA when it holds as many slots as the
  -- limit, else TENANT_SANDBOX_QUOTA when it holds as many of the tenant, adds a slot otherwise,
  -- and takes back one of the tenant, if there is one, on a release; the counters then tell that
  -- bag, within the limits.
  pub calls-Refines :
      (calls : List Call) (q : Quota) (held : List String)
      → Refines m n q held
      → (answers call calls q ≡ answers (bag_call m n) calls held)
        × Refines m n (after_calls call calls q) (after_calls (bag_call m n) calls held)
  calls-Refines [] q held r = (refl, r)
  calls-Refines (c ∷ calls) q held r =
      let (same, r') = call-Refines c q held r in
      let (rest, r'') = calls-Refines calls (call c q).1 (bag_call m n c held).1 r' in
      (λ i. same i ∷ rest i, r'')
