-- ===== src/Quota/Tests.antt =====
-- The quota at its limits.
use runner_engine.Prelude.{◌≡◌, List, refl, string_eq, [], ◌∷◌, arith}
use runner_engine.Dict.{get}
use runner_engine.Quota.{Quota}
use runner_engine.Quota.Slots.{Holds}
use runner_engine.Quota.Refines.{
  Call, reserves, releases, call, bag_call, answers, after_calls, Refines, calls-Refines,
}

abbrev unused : Quota
unused = record {
  max_creating = 1;
  max_live = 2;
  max_live_per_tenant = 1;
  creating = 0;
  live = 0;
  tenant_live = [];
}

unused-Holds : Holds unused []
unfolding get
unused-Holds = record {
  live_count = refl;
  tenant_counts = λ t. refl;
  within = omega arith;
  tenant_within = λ t. omega arith;
}

-- The tenant's limit is reached by one slot, and another can be taken after the release.
abbrev calls : List Call
calls = reserves "t" ∷ reserves "t" ∷ releases "t" ∷ reserves "t" ∷ []

calls-Refines_example :
    (answers call calls unused ≡ answers (bag_call 2 1) calls [])
    × Refines 2 1 (after_calls call calls unused) (after_calls (bag_call 2 1) calls [])
calls-Refines_example =
    calls-Refines 2 1 calls unused []
      (record { slots = unused-Holds; limit = refl; tenant_limit = refl })
