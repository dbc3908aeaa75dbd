-- ===== src/Pool/Sweeps.antt =====
-- The passes over the idle buckets keep the invariant, and retire exactly what they pick.
use runner_engine.Prelude.{
  ◌+◌, ◌<◌, ◌≡◌, inl, inr, refl, String, string_eq, nat_eq, Bool, List, [], ◌∷◌, if◌then◌else◌,
  ◌==◌, arith, count, count-append, Bool-cases, All, eq→≡,
}
use runner_engine.Dict.{Dict}
use runner_engine.Model.{Worker, Ref}
use runner_engine.Backend.{Backend}
use runner_engine.Pool.{Pool, Key, key_eq, key_of_worker, destroy_all}
use runner_engine.Pool.Idle.{idle_refs, Keyed}
use runner_engine.Pool.Invariant.{Inv, Inv-Preserves}
use runner_engine.Pool.Retire.{destroy_all-Stable}
use runner_engine.Pool.Safety.{All-count}
use runner_engine.Pool.Sweep.{picked, kept, keep_entry, sweep, take_out}

module _ (test : Ref → Bool) (r : Ref) where
  pub count-picked : (rs : List Ref) → count r (picked test rs) ≡ (if test r then count r rs else 0)
  unfolding picked
  count-picked [] = ground arith
  count-picked (x ∷ xs) = elim (Bool-cases (x == r)) [
    | inl same ↦ rw (eq→≡ x r same) (
        ground
          (arith, count-picked xs, count-append r (picked test xs) (if test r then r ∷ [] else [])))
    | inr other ↦ ground (
      arith,
      count-picked xs,
      other,
      count-append r (picked test xs) (if test x then x ∷ [] else []),
    )
  ]

  pub count-kept : (rs : List Ref) → count r (kept test rs) ≡ (if test r then 0 else count r rs)
  unfolding kept
  count-kept [] = ground arith
  count-kept (x ∷ xs) = elim (Bool-cases (x == r)) [
    | inl same ↦ rw (eq→≡ x r same) (ground (arith, count-kept xs))
    | inr other ↦ ground (arith, count-kept xs, other)
  ]

pub count-keep_entry :
    (k : Key) (rs : List Ref) (d : Dict Key (List Ref)) (r : Ref)
    → count r (idle_refs (keep_entry k rs d)) ≡ count r rs + count r (idle_refs d)
count-keep_entry k [] d r = omega arith
count-keep_entry k (x ∷ xs) d r = count-append r (x ∷ xs) (idle_refs d)

-- A pass shares the idle workers out between those picked and those kept.
pub count-sweep :
    (test : Key → Ref → Bool) (r : Ref) (d : Dict Key (List Ref))
    → count r (sweep test d).0 + count r (idle_refs (sweep test d).1) ≡ count r (idle_refs d)
unfolding sweep
count-sweep test r [] = omega arith
count-sweep test r ((k, rs) ∷ d) = ground (
  arith,
  count-sweep test r d,
  count-picked (test k) r rs,
  count-kept (test k) r rs,
  count-append r rs (idle_refs d),
  count-append r (picked (test k) rs) (sweep test d).0,
  count-keep_entry k (kept (test k) rs) (sweep test d).1 r,
)

Keyed-keep_entry :
    (ws : Ref → Worker) (k : Key) (rs : List Ref) (d : Dict Key (List Ref))
    → ((r : Ref) → 0 < count r rs → key_of_worker (ws r) ≡ k)
    → Keyed ws d
    → Keyed ws (keep_entry k rs d)
Keyed-keep_entry ws k [] d hb h = h
Keyed-keep_entry ws k (x ∷ xs) d hb h = (hb, h)

Keyed-sweep :
    (ws : Ref → Worker) (test : Key → Ref → Bool) (d : Dict Key (List Ref))
    → Keyed ws d
    → Keyed ws (sweep test d).1
unfolding sweep
Keyed-sweep ws test [] h = tt
Keyed-sweep ws test ((k, rs) ∷ d) h =
    Keyed-keep_entry ws k (kept (test k) rs) (sweep test d).1
      (λ r c. h.0 r (ground (arith, count-kept (test k) r rs))) (Keyed-sweep ws test d h.1)

module _ {W : Type 0} (backend : Backend W) (test : Key → Ref → Bool) (pending : List String)
    (p : Pool W) (v : Inv pending p) where
  pub take_out-Inv : Inv pending (take_out backend test p).1
  unfolding take_out
  take_out-Inv = record {
    slots = v.slots;
    once = λ r. omega (arith, count-sweep test r p.idle, v.once r);
    allocated = λ r h. v.allocated r (omega (arith, count-sweep test r p.idle));
    keyed = Keyed-sweep p.workers test p.idle v.keyed;
  }

  pub out_valid : All (λ r. r < (take_out backend test p).1.next_ref) (take_out backend test p).0
  unfolding take_out
  out_valid = All-count _ _ λ r c. v.allocated r (omega (arith, count-sweep test r p.idle))

  pub take_out_all-Inv :
      Inv pending (destroy_all backend (take_out backend test p).0 (take_out backend test p).1).1
  take_out_all-Inv =
      Inv-Preserves
        ((destroy_all-Stable backend pending _ _ out_valid).at (take_out backend test p).1 refl)
        take_out-Inv

  -- Who is taken out was idle once and is idle no more.
  pub taken_out :
      (r : Ref)
      → 0 < count r (take_out backend test p).0
      → (r < p.next_ref)
        × (count r (take_out backend test p).0 ≡ 1)
        × (count r (idle_refs (take_out backend test p).1.idle) ≡ 0)
  unfolding take_out
  taken_out r h = (
    v.allocated r (omega (arith, count-sweep test r p.idle)),
    omega (arith, count-sweep test r p.idle, v.once r),
    omega (arith, count-sweep test r p.idle, v.once r),
  )

-- A test of the worker alone picks every idle worker that meets it, and no other.
pub count-sweep_picked :
    (test : Ref → Bool) (r : Ref) (d : Dict Key (List Ref))
    → count r (sweep (λ _. test) d).0 ≡ (if test r then count r (idle_refs d) else 0)
unfolding sweep
count-sweep_picked test r [] = ground arith
count-sweep_picked test r ((k, rs) ∷ d) = ground (
  arith,
  count-sweep_picked test r d,
  count-picked test r rs,
  count-append r rs (idle_refs d),
  count-append r (picked test rs) (sweep (λ _. test) d).0,
)
