-- ===== src/Pool/Reaping.antt =====
-- `WorkerPool.reap`, and `retire_runtime` and `retire_idle_worker` of `LifecycleWorkerPool`.
use runner_engine.Prelude.{
  ℕ, ◌<◌, ◌≡◌, ◌≢◌, ◌⊎◌, inl, inr, refl, ◌∙◌, String, string_eq, nat_eq, Bool, true, false, List,
  [], ◌∷◌, ◌==◌, arith, count, Bool-cases, ap,
}
use runner_engine.Errors.{Exn, Result-cases, ok, err}
use runner_engine.Dict.{Dict}
use runner_engine.Model.{Worker, Ref}
use runner_engine.Backend.{Backend}
use runner_engine.Pool.{Pool, Key, key_of_worker, idle_expired, destroy, destroy_all}
use runner_engine.Pool.Idle.{idle_refs, Keyed}
use runner_engine.Pool.Invariant.{Inv}
use runner_engine.Pool.Stable.{Preserves}
use runner_engine.Pool.Retire.{destroy_all-Stable}
use runner_engine.Pool.Handed.{destroy_all_others}
use runner_engine.Pool.Sweep.{kept, sweep, take_out, reap, retire_runtime}
use runner_engine.Pool.Sweeps.{
  take_out_all-Inv, taken_out, count-sweep, count-sweep_picked, count-kept, count-keep_entry,
  out_valid,
}
use runner_engine.Pool.Maintenance.{destroy_all_marks, destroy_all_raises, destroy_others}

module _ {W : Type 0} (backend : Backend W) (pending : List String) (p : Pool W)
    (v : Inv pending p) where
  abbrev expired : Ref → Bool
  expired r = idle_expired backend p (p.workers r)

  abbrev stale : List Ref
  stale = (take_out backend (λ _ r. expired r) p).0

  abbrev left : Pool W
  left = (take_out backend (λ _ r. expired r) p).1

  abbrev cleaned : Pool W
  cleaned = (destroy_all backend stale left).1

  pub reap_state : (reap backend p).1 ≡ cleaned
  unfolding reap
  reap_state = elim (Result-cases (destroy_all backend stale left).0) [
    | inl (u, done) ↦ rw (done, reap)
    | inr (e, raised) ↦ rw (raised, reap)
  ]

  pub reap-Inv : Inv pending (reap backend p).1
  reap-Inv = rw reap_state (take_out_all-Inv backend (λ _ r. expired r) pending p v)

  cleaned-Preserves : Preserves pending left cleaned
  cleaned-Preserves =
      (destroy_all-Stable backend pending left.next_ref stale
          (out_valid backend (λ _ r. expired r) pending p v)).at
        left refl

  -- If the pool meets its invariant and reap returns, every worker that was idle either had
  -- expired, is destroyed and is no longer idle, or had not expired, is unchanged and is still
  -- idle once.
  pub reap_returns :
      (n : ℕ) (r : Ref)
      → (reap backend p).0 ≡ ok n
      → 0 < count r (idle_refs p.idle)
      → ((expired r ≡ true)
          × (((reap backend p).1.workers r).destroyed ≡ true)
          × (count r (idle_refs (reap backend p).1.idle) ≡ 0))
        ⊎ ((expired r ≡ false)
            × ((reap backend p).1.workers r ≡ p.workers r)
            × (count r (idle_refs (reap backend p).1.idle) ≡ 1))
  unfolding reap take_out
  reap_returns n r h c =
      let once = v.once r in
      let out = count-sweep_picked expired r p.idle in
      let all = count-sweep (λ _ q. expired q) r p.idle in
      let same : count r (idle_refs (reap backend p).1.idle) ≡ count r (idle_refs left.idle) =
        ap (λ q. count r (idle_refs q.idle)) reap_state
        ∙ ap (λ d. count r (idle_refs d)) cleaned-Preserves.same_idle in
      elim (Bool-cases (expired r)) [
        | inl old ↦
            let taken : 0 < count r stale = ground (arith, out, old) in
            inl (
              old,
              rw reap_state (destroy_all_marks backend stale r left reap_done taken),
              same ∙ ground (arith, out, all, old, once),
            )
        | inr young ↦ inr (
          young,
          rw reap_state (destroy_all_others backend r stale left (ground (arith, out, young))),
          same ∙ ground (arith, out, all, young, once),
        )
      ]
    where
      reap_done : (destroy_all backend stale left).0 ≡ ok tt
      reap_done = elim (Result-cases (destroy_all backend stale left).0) [
        | inl (u, done) ↦ done
        | inr (e, raised) ↦ cc (rw (raised, reap) at h)
      ]

  -- If the pool meets its invariant and destroying the first expired worker raises, reap raises
  -- the same exception, and a worker behind it in the list of expired workers is left as it was
  -- but is no longer idle, while the pool still meets its invariant.
  pub reap_leak :
      (r s : Ref) (rs : List Ref) (e : Exn)
      → stale ≡ r ∷ rs
      → (destroy backend r left).0 ≡ err e
      → 0 < count s rs
      → ((reap backend p).0 ≡ err e)
        × ((reap backend p).1.workers s ≡ p.workers s)
        × (count s (idle_refs (reap backend p).1.idle) ≡ 0)
        × Inv pending (reap backend p).1
  unfolding reap take_out
  reap_leak r s rs e order raised later =
      let run : destroy_all backend stale left ≡ (err e, (destroy backend r left).1) =
        rw order (destroy_all_raises backend r rs left e raised) in
      let t =
        taken_out backend (λ _ q. expired q) pending p v s (rw order (ground (arith, later))) in
      let other : count s (r ∷ []) ≡ 0 = ground (arith, rw order at t.1, later) in
      (
        rw (ap (λ x. x.0) run, reap),
        rw (reap_state, ap (λ x. x.1) run) (destroy_others backend r s left other),
        ap (λ q. count s (idle_refs q.idle)) reap_state
            ∙ (ap (λ d. count s (idle_refs d)) cleaned-Preserves.same_idle ∙ t.2),
        reap-Inv,
      )

-- A pass that picks whole buckets by their key.
Keyed-swept :
    (ws : Ref → Worker) (test : Key → Bool) (r : Ref) (d : Dict Key (List Ref))
    → Keyed ws d
    → 0 < count r (idle_refs (sweep (λ k _. test k) d).1)
    → test (key_of_worker (ws r)) ≡ false
unfolding sweep
Keyed-swept ws test r [] h c = absurd (omega arith)
Keyed-swept ws test r ((k, rs) ∷ d) h c = ground (
  arith,
  h.0 r,
  ap test {x = key_of_worker (ws r)} {y = k},
  count-kept (λ _. test k) r rs,
  count-keep_entry k (kept (λ _. test k) rs) (sweep (λ k _. test k) d).1 r,
  Keyed-swept ws test r d h.1,
)

module _ {W : Type 0} (backend : Backend W) (pending : List String) (p : Pool W) (v : Inv pending p)
    (runtime_id : String) where
  abbrev of_runtime : Key → Ref → Bool
  of_runtime k r = k.runtime_id == runtime_id

  abbrev retired_pool : Pool W
  retired_pool =
      (destroy_all backend (take_out backend of_runtime p).0 (take_out backend of_runtime p).1).1

  pub retire_runtime_state : (retire_runtime backend runtime_id p).1 ≡ retired_pool
  unfolding retire_runtime
  retire_runtime_state =
      elim (Result-cases
        (destroy_all backend (take_out backend of_runtime p).0
          (take_out backend of_runtime p).1).0) [
            | inl (u, done) ↦ rw (done, retire_runtime)
            | inr (e, raised) ↦ rw (raised, retire_runtime)
          ]

  pub retire_runtime-Inv : Inv pending (retire_runtime backend runtime_id p).1
  retire_runtime-Inv = rw retire_runtime_state (take_out_all-Inv backend of_runtime pending p v)

  -- If the pool meets its invariant, no worker of the runtime is idle after retire_runtime,
  -- whether it returns or raises.
  pub retire_runtime_clears :
      (r : Ref)
      → 0 < count r (idle_refs (retire_runtime backend runtime_id p).1.idle)
      → ((retire_runtime backend runtime_id p).1.workers r).runtime_id ≢ runtime_id
  unfolding take_out
  retire_runtime_clears r c e =
      let s =
        (destroy_all-Stable backend pending (take_out backend of_runtime p).1.next_ref
            (take_out backend of_runtime p).0 (out_valid backend of_runtime pending p v)).at
          (take_out backend of_runtime p).1 refl in
      let gone =
        Keyed-swept p.workers (λ k. k.runtime_id == runtime_id) r p.idle v.keyed
          (rw s.same_idle at (rw retire_runtime_state at c)) in
      let k = ap (λ x. x.runtime_id) (s.same_keys r) in
      ground (
        arith,
        gone,
        k,
        rw retire_runtime_state at e,
        string_eq.is_same_iff (p.workers r).runtime_id runtime_id,
      )
