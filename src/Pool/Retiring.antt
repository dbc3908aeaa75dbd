-- ===== src/Pool/Retiring.antt =====
-- `LifecycleWorkerPool.retire_idle_worker`: one idle worker, by its identifier.
use runner_engine.Prelude.{
  ◌<◌, ◌≡◌, ◌≢◌, ◌⊎◌, inl, inr, refl, sym, ◌∙◌, String, string_eq, nat_eq, nat_beq_iff, Bool, true,
  false, List, [], ◌∷◌, Option, none, some, ◌==◌, arith, count, count-append, Option-cases, eq→≡,
  ap, subst,
}
use runner_engine.Errors.{Result-cases, ok}
use runner_engine.Exec.{then-pure_state}
use runner_engine.Dict.{Dict}
use runner_engine.Model.{Worker, Ref}
use runner_engine.Backend.{Backend}
use runner_engine.Pool.{Pool, Key, destroy}
use runner_engine.Pool.Idle.{idle_refs}
use runner_engine.Pool.Invariant.{Inv, Inv-Preserves}
use runner_engine.Pool.Retire.{destroy-Preserves, destroy_marks}
use runner_engine.Pool.Sweep.{picked, first_with, is_target, take_out, retire_idle_worker}
use runner_engine.Pool.Sweeps.{take_out-Inv, count-sweep_picked, count-sweep, count-picked}

List-cases {ℓ} : {A : Type ℓ} (xs : List A) → (xs ≡ []) ⊎ ((x : A) × (r : List A) × (xs ≡ x ∷ r))
List-cases [] = inl refl
List-cases (x ∷ xs) = inr (x, xs, refl)

picked-head :
    (test : Ref → Bool) (r : Ref) (rest rs : List Ref)
    → picked test rs ≡ r ∷ rest
    → (0 < count r rs) × (test r ≡ true)
picked-head test r rest rs e =
    ground (arith, count-picked test r rs, ap (count r) e, nat_beq_iff r r)

-- The worker that is found is idle and has the identifier.
pub first_with_lem :
    (ws : Ref → Worker) (id : String) (r : Ref) (d : Dict Key (List Ref))
    → first_with ws id d ≡ some r
    → (0 < count r (idle_refs d)) × ((ws r).id ≡ id)
unfolding first_with
first_with_lem ws id r [] h = cc
first_with_lem ws id r ((k, rs) ∷ d) h = elim (List-cases (picked (λ q. (ws q).id == id) rs)) [
  | inl nobody ↦
      let later = first_with_lem ws id r d (rw (nobody, first_with) at h) in
      (ground (arith, later.0, count-append r rs (idle_refs d)), later.1)
  | inr (x, rest, found) ↦
      let same : x ≡ r = cc (rw (found, first_with) at h) in
      let p = picked-head (λ q. (ws q).id == id) r rest rs (rw same at found) in
      (ground (arith, p.0, count-append r rs (idle_refs d)), eq→≡ (ws r).id id p.1)
]

-- If none is found, no idle worker has the identifier.
first_with-none :
    (ws : Ref → Worker) (id : String) (r : Ref) (d : Dict Key (List Ref))
    → first_with ws id d ≡ none
    → 0 < count r (idle_refs d)
    → ((ws r).id == id) ≡ false
unfolding first_with
first_with-none ws id r [] h c = absurd (omega arith)
first_with-none ws id r ((k, rs) ∷ d) h c = elim (List-cases (picked (λ q. (ws q).id == id) rs)) [
  | inl nobody ↦ ground (
    arith,
    count-picked (λ q. (ws q).id == id) r rs,
    ap (count r) nobody,
    count-append r rs (idle_refs d),
    first_with-none ws id r d (rw (nobody, first_with) at h),
  )
  | inr (x, rest, found) ↦ cc (rw (found, first_with) at h)
]

module _ {W : Type 0} (backend : Backend W) (pending : List String) (p : Pool W) (v : Inv pending p)
    (worker_id : String) where
  abbrev target : Option Ref
  target = first_with p.workers worker_id p.idle

  abbrev left : Pool W
  left = (take_out backend (λ _ r. is_target target r) p).1

  left-Inv : Inv pending left
  left-Inv = take_out-Inv backend (λ _ r. is_target target r) pending p v

  pub retire_idle_worker-Inv : Inv pending (retire_idle_worker backend worker_id p).1
  unfolding retire_idle_worker take_out
  retire_idle_worker-Inv = elim (Option-cases target) [
    | inl nobody ↦ rw (nobody, retire_idle_worker) (rw nobody at left-Inv)
    | inr (r, found) ↦
        let idle = (first_with_lem p.workers worker_id r p.idle found).0 in
        let q : Pool W = (take_out backend (λ _ x. is_target (some r) x) p).1 in
        rw (found, retire_idle_worker)
          (subst (Inv pending) (sym (then-pure_state (destroy backend r) true q)) (
            Inv-Preserves (destroy-Preserves backend pending r q (v.allocated r idle))
              (rw found at left-Inv)))
  ]

  retire_found :
      (r : Ref) (done : Bool)
      → target ≡ some r
      → (retire_idle_worker backend worker_id p).0 ≡ ok done
      → let q = (retire_idle_worker backend worker_id p).1 in
        (done ≡ true) × (count r (idle_refs q.idle) ≡ 0) × ((q.workers r).destroyed ≡ true)
  unfolding retire_idle_worker take_out
  retire_found r done found h =
      let q : Pool W = (take_out backend (λ _ x. is_target (some r) x) p).1 in
      let idle = (first_with_lem p.workers worker_id r p.idle found).0 in
      let same = (destroy-Preserves backend pending r q (v.allocated r idle)).same_idle in
      let picked_out = count-sweep_picked (λ x. is_target (some r) x) r p.idle in
      let all = count-sweep (λ _ x. is_target (some r) x) r p.idle in
      elim (Result-cases (destroy backend r q).0) [
        | inl (u, fine) ↦ (
          cc (rw (found, fine, retire_idle_worker) at h),
          rw (found, fine, retire_idle_worker)
              (ap (λ d. count r (idle_refs d)) same
                ∙ ground (arith, picked_out, all, nat_beq_iff r r)),
          rw (found, fine, retire_idle_worker) (destroy_marks backend pending r q),
        )
        | inr (e, raised) ↦ cc (rw (found, raised, retire_idle_worker) at h)
      ]

  -- If the pool meets its invariant and retire_idle_worker returns true, a worker with the
  -- identifier was idle, is idle no longer and is destroyed; if it returns false, no idle worker
  -- had the identifier.
  pub retire_idle_worker_lem :
      (done : Bool)
      → (retire_idle_worker backend worker_id p).0 ≡ ok done
      → let q = (retire_idle_worker backend worker_id p).1 in
        ((r : Ref) × (done ≡ true)
          × ((p.workers r).id ≡ worker_id)
          × (0 < count r (idle_refs p.idle))
          × (count r (idle_refs q.idle) ≡ 0)
          × ((q.workers r).destroyed ≡ true))
        ⊎ ((done ≡ false)
            × ((r : Ref) → 0 < count r (idle_refs p.idle) → (p.workers r).id ≢ worker_id))
  unfolding retire_idle_worker
  retire_idle_worker_lem done h = elim (Option-cases target) [
    | inl nobody ↦ inr (
      cc (rw (nobody, retire_idle_worker) at h),
      λ r c e. ground (
        arith,
        first_with-none p.workers worker_id r p.idle nobody c,
        string_eq.is_same_iff (p.workers r).id worker_id,
      ),
    )
    | inr (r, found) ↦
        let t = retire_found r done found h in
        let l = first_with_lem p.workers worker_id r p.idle found in
        inl (r, t.0, l.1, l.0, t.1, t.2)
  ]
