-- ===== src/Pool/Tests.antt =====
-- The pool on concrete workers, with a backend whose world is the reading of the clock.
use runner_engine.Prelude.{
  ℕ, ◌<◌, ◌≡◌, ◌≢◌, ◌⊎◌, inr, refl, String, string_eq, nat_eq, true, false, [], ◌∷◌, none, arith,
  count, subst, ap,
}
use runner_engine.Errors.{Result, ok, err, exception}
use runner_engine.Exec.{pure}
use runner_engine.Dict.{get, put, pop}
use runner_engine.Model.{OperatorRelease, SecurityPolicy, Worker, Ref}
use runner_engine.Quota.{reserve_live, release_live}
use runner_engine.Backend.{Backend, IsBackend, IsFresh}
use runner_engine.Pool.{Pool, idle_expired, destroy, destroy_all, release}
use runner_engine.Pool.Idle.{idle_refs}
use runner_engine.Pool.Acquire.{acquire, create, attempt, conclude, scan, take_idle, ensure_release}
use runner_engine.Pool.Invariant.{Inv}
use runner_engine.Pool.Handed.{Handed}
use runner_engine.Pool.Safety.{acquire-Inv, acquire_returns}
use runner_engine.Pool.Retire.{destroy_twice}
use runner_engine.Pool.Maintenance.{release-Inv, release_retires}
use runner_engine.Pool.Sweep.{
  reap, retire_runtime, retire_idle_worker, sweep, picked, kept, take_out, first_with,
}
use runner_engine.Pool.Reaping.{reap_returns, reap_leak, retire_runtime_clears}
use runner_engine.Pool.Retiring.{retire_idle_worker_lem}
use runner_engine.Pool.History.{
  Shared, IsExclusive, Reach, Reach-IsExclusive, next, here, acquires, releases,
}

abbrev worker_of : String → OperatorRelease → Worker
worker_of tenant rel = record {
  id = "w";
  endpoint = "http://sandbox";
  token = "secret";
  tenant_id = tenant;
  runtime_id = rel.runtime.id;
  profile = rel.profile;
  backend_group = "default";
  created_monotonic = 0;
  last_used_monotonic = 0;
  installed_release_ids = [];
  sandbox_expires_monotonic = none;
  runs = 0;
  healthy = true;
  destroyed = false;
  metadata = [];
}

-- `steady` tells whether `destroy` succeeds.
abbrev demo : Result (Unit {0}) → Backend ℕ
demo steady = record {
  monotonic = λ w. w;
  create = λ tenant rel policy ttl. pure (worker_of tenant rel);
  renew = λ worker ttl. pure none;
  install = λ worker rel. pure tt;
  run = λ worker rel request deadline w. (err (exception "not served"), w);
  cancel = λ worker id. pure false;
  destroy = λ worker w. (steady, w);
  cleanup_managed = pure 0;
}

abbrev pub good : Backend ℕ
good = demo (ok tt)

abbrev bad : Backend ℕ
bad = demo (err (exception "gone"))

abbrev result_or : Worker → Result Worker → Worker
result_or other (ok w) = w
result_or other (err e) = other

demo-IsBackend : (steady : Result (Unit {0})) → IsBackend (demo steady)
demo-IsBackend steady = record {
  create-IsFresh = λ tenant rel policy ttl w worker h.
      subst (IsFresh tenant rel) (ap (result_or (worker_of tenant rel)) h) (record {
        same_tenant = refl;
        same_runtime = refl;
        same_profile = refl;
        is_healthy = refl;
        not_destroyed = refl;
      });
}

abbrev pub rel : OperatorRelease
rel = record {
  id = "op@1";
  artifact_path = "/op.zip";
  artifact_sha256 = "00";
  runtime = record { id = "py311"; image = "img"; python = "3.11" };
  entrypoint = "op:run";
  profile = "standard";
  input_attributes = [];
  output_attributes = [];
}

abbrev pub policy : SecurityPolicy
policy = record {
  name = "standard";
  sandbox_cluster = "default";
  cpu = "1";
  memory = "1Gi";
  max_timeout_ms = 1000;
  network_allow = [];
  reuse_sandbox = true;
}

abbrev empty_pool : Pool ℕ
empty_pool = record {
  config = record {
    idle_seconds = 10;
    orphan_ttl_seconds = 100;
    renew_before_seconds = 20;
    max_installed_releases = 2;
  };
  quota = record {
    max_creating = 1;
    max_live = 2;
    max_live_per_tenant = 2;
    creating = 0;
    live = 0;
    tenant_live = [];
  };
  workers = λ r. worker_of "" rel;
  next_ref = 0;
  idle = [];
  world = 0;
}

empty-Inv : Inv [] empty_pool
unfolding get
empty-Inv = record {
  slots = record {
    live_count = refl;
    tenant_counts = λ t. refl;
    within = omega arith;
    tenant_within = λ t. omega arith;
  };
  once = λ r. omega arith;
  allocated = λ r h. absurd (omega arith);
  keyed = tt;
}

-- A worker is created and given back, or another is created beside it.
abbrev one_out : Pool ℕ
one_out = (acquire good rel "t" policy empty_pool).1

abbrev two_out : Pool ℕ
two_out = (acquire good rel "t" policy one_out).1

abbrev one_idle : Pool ℕ
one_idle = (release good 0 policy two_out).1

-- Both were given back, more than `idle_seconds` ago.
abbrev pub two_idle : Pool ℕ
two_idle = record (release good 1 policy one_idle).1 { world = 20_000 }

one_out-Inv : Inv [] one_out
one_out-Inv = acquire-Inv good (demo-IsBackend (ok tt)) rel "t" policy [] empty_pool empty-Inv

two_out-Inv : Inv [] two_out
two_out-Inv = acquire-Inv good (demo-IsBackend (ok tt)) rel "t" policy [] one_out one_out-Inv

one_idle-Inv : Inv [] one_idle
unfolding acquire take_idle scan destroy_all create attempt ensure_release conclude reserve_live get
    put pop
one_idle-Inv = release-Inv good [] 0 policy two_out two_out-Inv (omega arith) refl

pub two_idle-Inv : Inv [] two_idle
unfolding acquire take_idle scan destroy_all create attempt ensure_release conclude reserve_live
    release get put pop
two_idle-Inv =
    let v = release-Inv good [] 1 policy one_idle one_idle-Inv (omega arith) refl in
    record { slots = v.slots; once = v.once; allocated = v.allocated; keyed = v.keyed }

acquire_returns_example : Handed "t" rel 0 one_out
unfolding acquire take_idle scan destroy_all create attempt ensure_release conclude reserve_live get
    put pop
acquire_returns_example =
    acquire_returns good (demo-IsBackend (ok tt)) rel "t" policy [] empty_pool empty-Inv 0 refl

destroy_twice_example :
    destroy bad 0 (destroy bad 0 two_idle).1 ≡ (ok tt, (destroy bad 0 two_idle).1)
destroy_twice_example = destroy_twice bad [] 0 two_idle

abbrev once_policy : SecurityPolicy
once_policy = record policy { reuse_sandbox = false }

release_retires_example :
    (((release good 1 once_policy one_idle).1.workers 1).destroyed ≡ true)
    × (count 1 (idle_refs (release good 1 once_policy one_idle).1.idle) ≡ 0)
unfolding acquire take_idle scan destroy_all create attempt ensure_release conclude reserve_live
    release get put pop
release_retires_example =
    release_retires good [] 1 once_policy one_idle one_idle-Inv (omega arith) refl (inr (inr refl))

reap_returns_example :
    ((idle_expired good two_idle (two_idle.workers 0) ≡ true)
      × (((reap good two_idle).1.workers 0).destroyed ≡ true)
      × (count 0 (idle_refs (reap good two_idle).1.idle) ≡ 0))
    ⊎ ((idle_expired good two_idle (two_idle.workers 0) ≡ false)
        × ((reap good two_idle).1.workers 0 ≡ two_idle.workers 0)
        × (count 0 (idle_refs (reap good two_idle).1.idle) ≡ 1))
unfolding acquire take_idle scan destroy_all destroy create attempt ensure_release conclude
    reserve_live release release_live get put pop reap take_out sweep picked kept idle_expired
reap_returns_example = reap_returns good [] two_idle two_idle-Inv 2 0 refl (omega arith)

reap_leak_example :
    ((reap bad two_idle).0 ≡ err (exception "gone"))
    × ((reap bad two_idle).1.workers 1 ≡ two_idle.workers 1)
    × (count 1 (idle_refs (reap bad two_idle).1.idle) ≡ 0)
    × Inv [] (reap bad two_idle).1
unfolding acquire take_idle scan destroy_all destroy create attempt ensure_release conclude
    reserve_live release release_live get put pop reap take_out sweep picked kept idle_expired
reap_leak_example =
    reap_leak bad [] two_idle two_idle-Inv 0 1 (1 ∷ []) (exception "gone") refl refl (omega arith)

retire_runtime_clears_example :
    ((retire_runtime good "other" two_idle).1.workers 0).runtime_id ≢ "other"
unfolding acquire take_idle scan destroy_all destroy create attempt ensure_release conclude
    reserve_live release release_live get put pop retire_runtime take_out sweep picked kept
retire_runtime_clears_example =
    retire_runtime_clears good [] two_idle two_idle-Inv "other" 0 (omega arith)

retire_idle_worker_lem_example :
    let q = (retire_idle_worker good "w" two_idle).1 in
    ((r : Ref) × (true ≡ true)
      × ((two_idle.workers r).id ≡ "w")
      × (0 < count r (idle_refs two_idle.idle))
      × (count r (idle_refs q.idle) ≡ 0)
      × ((q.workers r).destroyed ≡ true))
    ⊎ ((true ≡ false)
        × ((r : Ref) → 0 < count r (idle_refs two_idle.idle) → (two_idle.workers r).id ≢ "w"))
unfolding acquire take_idle scan destroy_all destroy create attempt ensure_release conclude
    reserve_live release release_live get put pop retire_idle_worker take_out sweep picked kept
    first_with
retire_idle_worker_lem_example = retire_idle_worker_lem good [] two_idle two_idle-Inv "w" true refl

abbrev start : Shared ℕ
start = record { pool = empty_pool; lent = [] }

start-IsExclusive : IsExclusive start
start-IsExclusive = record {
  inv = empty-Inv;
  apart = λ r. omega arith;
  lent_valid = λ r h. absurd (omega arith);
}

abbrev borrowed : Shared ℕ
borrowed = record { pool = one_out; lent = 0 ∷ [] }

borrowed-Reach : Reach good start borrowed
unfolding acquire take_idle scan destroy_all create attempt ensure_release conclude reserve_live get
    put pop
borrowed-Reach = next here (acquires rel "t" policy)

Reach-IsExclusive_example :
    IsExclusive (record { pool = (release good 0 policy one_out).1; lent = [] })
Reach-IsExclusive_example =
    Reach-IsExclusive good (demo-IsBackend (ok tt)) start-IsExclusive
      (next borrowed-Reach (releases 0 policy (omega arith)))
