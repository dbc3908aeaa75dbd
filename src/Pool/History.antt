-- ===== src/Pool/History.antt =====
-- The pool and the calls that hold its workers, as a step relation: the pool's methods in any order,
-- with `cancel` invalidating a worker that another call holds, and a world that moves by itself.
use runner_engine.Prelude.{
  ◌+◌, ◌≤◌, ◌<◌, inl, inr, refl, String, nat_eq, List, [], ◌∷◌, arith, count, erase, count-erase,
  eq→≡, ap,
}
use runner_engine.Errors.{Result, Result-cases, ok, err}
use runner_engine.Pool.Shrinks.{
  Shrinks, Shrinks-Preserves, acquire_frame, release_frame, reap-Shrinks, retire_runtime-Shrinks,
  retire_idle_worker-Shrinks,
}
use runner_engine.Model.{Ref, OperatorRelease, SecurityPolicy}
use runner_engine.Backend.{Backend, IsBackend}
use runner_engine.Pool.{Pool, release, invalidate}
use runner_engine.Pool.Acquire.{acquire}
use runner_engine.Pool.Idle.{idle_refs}
use runner_engine.Pool.Invariant.{Inv, Inv-Preserves}
use runner_engine.Pool.Retire.{invalidate-Stable}
use runner_engine.Pool.Safety.{acquire-Inv, acquire_returns}
use runner_engine.Pool.Maintenance.{release-Inv}
use runner_engine.Pool.Sweep.{reap, retire_runtime, retire_idle_worker}
use runner_engine.Pool.Reaping.{reap-Inv, retire_runtime-Inv}
use runner_engine.Pool.Retiring.{retire_idle_worker-Inv}

-- `lent` are the workers that running calls hold.
pub record Shared (W : Type 0) : Type 0 where
  pub pool : Pool W
  pub lent : List Ref

-- No worker is idle and held, or held twice.
pub record IsExclusive {W : Type 0} (s : Shared W) : Type 0 where
  pub inv : Inv [] s.pool
  pub apart : (r : Ref) → count r s.lent + count r (idle_refs s.pool.idle) ≤ 1
  pub lent_valid : (r : Ref) → 0 < count r s.lent → r < s.pool.next_ref

-- The held worker goes with a call that returned one.
abbrev pub lend : Result Ref → List Ref → List Ref
lend (ok r) lent = r ∷ lent
lend (err e) lent = lent

module _ {W : Type 0} (backend : Backend W) where
  -- A method of the pool, called by anyone. A worker is released or invalidated by its holder;
  -- `cancel` invalidates one that stays with its holder.
  pub data Step (s : Shared W) : Shared W → Type 0 where
    acquires :
        (rel : OperatorRelease) (tenant : String) (policy : SecurityPolicy)
        → Step s (record {
          pool = (acquire backend rel tenant policy s.pool).1;
          lent = lend (acquire backend rel tenant policy s.pool).0 s.lent;
        })
    releases :
        (r : Ref) (policy : SecurityPolicy)
        → 0 < count r s.lent
        → Step s (record { pool = (release backend r policy s.pool).1; lent = erase r s.lent })
    invalidates :
        (r : Ref)
        → 0 < count r s.lent
        → Step s (record { pool = (invalidate backend r s.pool).1; lent = erase r s.lent })
    cancels :
        (r : Ref)
        → 0 < count r s.lent
        → Step s (record { pool = (invalidate backend r s.pool).1; lent = s.lent })
    reaps : Step s (record s { pool = (reap backend s.pool).1 })
    retires_runtime :
        (runtime_id : String)
        → Step s (record s { pool = (retire_runtime backend runtime_id s.pool).1 })
    retires_worker :
        (worker_id : String)
        → Step s (record s { pool = (retire_idle_worker backend worker_id s.pool).1 })
    elapses : (w : W) → Step s (record s { pool = record s.pool { world = w } })

  pub data Reach (s : Shared W) : Shared W → Type 0 where
    here : Reach s s
    next : {t u : Shared W} → Reach s t → Step t u → Reach s u

  -- An operation that adds no idle worker leaves the held ones apart.
  shrunk-IsExclusive :
      (s : Shared W) (q : Pool W) (lent : List Ref)
      → IsExclusive s
      → Inv [] q
      → Shrinks s.pool q
      → ((r : Ref) → count r lent ≤ count r s.lent)
      → IsExclusive (record { pool = q; lent = lent })
  shrunk-IsExclusive s q lent x v f l = record {
    inv = v;
    apart = λ r. omega (arith, x.apart r, f.fewer r, l r);
    lent_valid = λ r h. omega (arith, x.lent_valid r (omega (arith, l r)), f.grows);
  }

  invalidated-IsExclusive :
      (s : Shared W) (r : Ref) (lent : List Ref)
      → IsExclusive s
      → 0 < count r s.lent
      → ((q : Ref) → count q lent ≤ count q s.lent)
      → IsExclusive (record { pool = (invalidate backend r s.pool).1; lent = lent })
  invalidated-IsExclusive s r lent x h l =
      let step =
        (invalidate-Stable backend [] s.pool.next_ref r (x.lent_valid r h)).at s.pool refl in
      shrunk-IsExclusive s _ lent x (Inv-Preserves step x.inv) (Shrinks-Preserves _ _ step) l

  released-IsExclusive :
      (s : Shared W) (r : Ref) (policy : SecurityPolicy)
      → IsExclusive s
      → 0 < count r s.lent
      → IsExclusive (record { pool = (release backend r policy s.pool).1; lent = erase r s.lent })
  released-IsExclusive s r policy x h = record {
    inv =
        release-Inv backend [] r policy s.pool x.inv (x.lent_valid r h) (omega (arith, x.apart r));
    apart = λ q. ground (
      arith,
      release_frame backend r q policy s.pool,
      count-erase q r s.lent,
      x.apart q,
      x.apart r,
      eq→≡ r q,
      h,
      ap (λ m. count m s.lent) {x = r} {y = q},
    );
    lent_valid = λ q c.
        rw (release_frame backend r q policy s.pool).0
          (x.lent_valid q (ground (arith, count-erase q r s.lent)));
  }

  acquired-IsExclusive :
      IsBackend backend
      → (s : Shared W) (rel : OperatorRelease) (tenant : String) (policy : SecurityPolicy)
      → IsExclusive s
      → IsExclusive (record {
        pool = (acquire backend rel tenant policy s.pool).1;
        lent = lend (acquire backend rel tenant policy s.pool).0 s.lent;
      })
  acquired-IsExclusive law s rel tenant policy x =
      let frame = acquire_frame backend law rel tenant policy [] s.pool x.inv in
      let v = acquire-Inv backend law rel tenant policy [] s.pool x.inv in
      elim (Result-cases (acquire backend rel tenant policy s.pool).0) [
        | inr (e, raised) ↦ rw raised (shrunk-IsExclusive s _ s.lent x v frame.0 (λ r. omega arith))
        | inl (r, done) ↦
            let handed = acquire_returns backend law rel tenant policy [] s.pool x.inv r done in
            let origin = frame.1 r done in
            rw done (record {
              inv = v;
              apart = λ q. ground (
                arith,
                x.apart q,
                x.apart r,
                frame.0.fewer q,
                handed.not_idle,
                eq→≡ r q,
                origin,
                x.lent_valid r,
                ap (λ m. count m s.lent) {x = r} {y = q},
                ap (λ m. count m (idle_refs (acquire backend rel tenant policy s.pool).1.idle))
                    {x = r} {y = q},
              );
              lent_valid =
                  λ q c. ground (arith, x.lent_valid q, frame.0.grows, handed.valid, eq→≡ r q);
            })
      ]

  Step-IsExclusive : IsBackend backend → {s t : Shared W} → Step s t → IsExclusive s → IsExclusive t
  Step-IsExclusive law {s} (acquires rel tenant policy) x =
      acquired-IsExclusive law s rel tenant policy x
  Step-IsExclusive law {s} (releases r policy h) x = released-IsExclusive s r policy x h
  Step-IsExclusive law {s} (invalidates r h) x =
      invalidated-IsExclusive s r _ x h (λ q. ground (arith, count-erase q r s.lent))
  Step-IsExclusive law {s} (cancels r h) x =
      invalidated-IsExclusive s r s.lent x h (λ q. omega arith)
  Step-IsExclusive law {s} reaps x =
      shrunk-IsExclusive s _ s.lent x (reap-Inv backend [] s.pool x.inv)
        (reap-Shrinks backend [] s.pool x.inv) (λ q. omega arith)
  Step-IsExclusive law {s} (retires_runtime id) x =
      shrunk-IsExclusive s _ s.lent x (retire_runtime-Inv backend [] s.pool x.inv id)
        (retire_runtime-Shrinks backend [] s.pool id x.inv) (λ q. omega arith)
  Step-IsExclusive law {s} (retires_worker id) x =
      shrunk-IsExclusive s _ s.lent x (retire_idle_worker-Inv backend [] s.pool x.inv id)
        (retire_idle_worker-Shrinks backend [] s.pool id x.inv) (λ q. omega arith)
  Step-IsExclusive law {s} (elapses w) x = record {
    inv = record {
      slots = x.inv.slots;
      once = x.inv.once;
      allocated = x.inv.allocated;
      keyed = x.inv.keyed;
    };
    apart = x.apart;
    lent_valid = x.lent_valid;
  }

  -- If the backend creates workers as asked and a pool and the list of the workers that callers
  -- hold are exclusive (the quota holds one slot for each live worker, no worker is idle twice,
  -- every idle worker stands under its own key, and no worker is idle and held or held twice),
  -- they are still exclusive after any sequence of acquire, release and invalidate by a holder,
  -- invalidate by a cancel, reap, retire_runtime, retire_idle_worker and the passing of time.
  pub Reach-IsExclusive :
      IsBackend backend → {s t : Shared W} → IsExclusive s → Reach s t → IsExclusive t
  Reach-IsExclusive law x here = x
  Reach-IsExclusive law x (next r step) = Step-IsExclusive law step (Reach-IsExclusive law x r)
