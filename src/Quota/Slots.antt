-- ===== src/Quota/Slots.antt =====
-- quota.py seen as the bag of live slots, each marked with its tenant: `reserve_live` adds one and
-- `release_live` takes one back.
use runner_engine.Prelude.{
  ◌+◌, ◌-◌, ◌≤◌, ◌<◌, ◌≡◌, ◌⊎◌, String, true, List, ◌∷◌, arith, length, string_eq, count, erase,
  count-erase, length-erase,
}
use runner_engine.Errors.{Exn, ok, err, failure}
use runner_engine.Dict.{get-put, get-pop}
use runner_engine.Quota.{
  Quota, tenant_count, reserve_live, release_live, enter_creation, leave_creation,
}

-- The counters tell the slots held, and these are within the limits.
pub record Holds (q : Quota) (held : List String) : Type 0 where
  pub live_count : q.live ≡ length held
  pub tenant_counts : (t : String) → tenant_count q t ≡ count t held
  pub within : length held ≤ q.max_live
  pub tenant_within : (t : String) → count t held ≤ q.max_live_per_tenant

module _ (tenant : String) (q : Quota) (held : List String) (h : Holds q held) where
  reserve-tenant_counts :
      (t : String)
      → (reserve_live tenant q).0 ≡ ok tt
      → (tenant_count (reserve_live tenant q).1 t ≡ count t (tenant ∷ held))
        × (count t (tenant ∷ held) ≤ q.max_live_per_tenant)
  unfolding reserve_live
  reserve-tenant_counts t done = ground (
    arith,
    get-put tenant t (tenant_count q tenant + 1) q.tenant_live,
    string_eq.is_same_iff tenant t,
    h.tenant_counts t,
    h.tenant_counts tenant,
    h.tenant_within t,
  )

  -- Where the counters tell the slots held, within the limits, a reserve_live that returns adds
  -- one slot of the tenant, and the counters tell these slots, within the limits.
  pub reserve-Holds :
      (reserve_live tenant q).0 ≡ ok tt → Holds (reserve_live tenant q).1 (tenant ∷ held)
  unfolding reserve_live
  reserve-Holds done = record {
    live_count = ground (arith, h.live_count);
    tenant_counts = λ t. (reserve-tenant_counts t done).0;
    within = ground (arith, h.live_count, h.within);
    tenant_within = λ t. ground (arith, reserve-tenant_counts t done);
  }

  release-tenant_counts :
      (t : String) → tenant_count (release_live tenant q).1 t ≡ count t (erase tenant held)
  unfolding release_live
  release-tenant_counts t = ground (
    arith,
    get-put tenant t (tenant_count q tenant - 1) q.tenant_live,
    get-pop tenant t q.tenant_live,
    count-erase t tenant held,
    string_eq.is_same_iff tenant t,
    h.tenant_counts t,
    h.tenant_counts tenant,
  )

  release-live_count : (release_live tenant q).1.live ≡ length (erase tenant held)
  unfolding release_live
  release-live_count =
      ground (arith, h.live_count, h.tenant_counts tenant, length-erase tenant held)

  pub release-limits :
      ((release_live tenant q).1.max_live ≡ q.max_live)
      × ((release_live tenant q).1.max_live_per_tenant ≡ q.max_live_per_tenant)
  unfolding release_live
  release-limits = ground arith

  -- Where the counters tell the slots held, within the limits, release_live takes back one slot of
  -- the tenant, or none if the tenant holds none, and the counters tell the remaining slots,
  -- within the limits.
  pub release-Holds : Holds (release_live tenant q).1 (erase tenant held)
  release-Holds = record {
    live_count = release-live_count;
    tenant_counts = release-tenant_counts;
    within = ground (arith, release-limits, h.within, length-erase tenant held);
    tenant_within =
        λ t. ground (arith, release-limits, h.tenant_within t, count-erase t tenant held);
  }

  -- Where the counters tell the slots held: reserve_live raises GLOBAL_SANDBOX_QUOTA if the global
  -- limit is reached, else TENANT_SANDBOX_QUOTA if the tenant's is, each time with the counters as
  -- they were, and returns otherwise.
  pub reserve_cases :
      ((q.max_live ≤ length held)
        × (reserve_live tenant q
            ≡ (err (failure "GLOBAL_SANDBOX_QUOTA" "global live-sandbox quota reached" true), q)))
      ⊎ ((length held < q.max_live)
          × (q.max_live_per_tenant ≤ count tenant held)
          × (reserve_live tenant q
              ≡ (err (failure "TENANT_SANDBOX_QUOTA" "tenant live-sandbox quota reached" true), q)))
      ⊎ ((length held < q.max_live)
          × (count tenant held < q.max_live_per_tenant)
          × ((reserve_live tenant q).0 ≡ ok tt))
  unfolding reserve_live
  reserve_cases = ground (arith, h.live_count, h.tenant_counts tenant)

pub reserve_refused :
    (tenant : String) (q : Quota) (e : Exn)
    → (reserve_live tenant q).0 ≡ err e
    → (reserve_live tenant q).1 ≡ q
unfolding reserve_live
reserve_refused tenant q e h = ground arith

-- The creation semaphore is no part of the slots.
pub Holds-creation :
    (q : Quota) (held : List String) → Holds q held → Holds (leave_creation (enter_creation q)) held
Holds-creation q held h = record {
  live_count = h.live_count;
  tenant_counts = h.tenant_counts;
  within = h.within;
  tenant_within = h.tenant_within;
}
