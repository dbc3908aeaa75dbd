-- ===== src/Pool/Retire.antt =====
-- `WorkerPool._destroy` and `invalidate`: a worker is retired once, and its quota slot goes with it.
use runner_engine.Prelude.{
  ℕ, ◌<◌, String, true, false, ◌≡◌, refl, Bool-cases, inl, inr, List, [], ◌∷◌, arith, count, erase,
  length, count-erase, length-erase, string_eq, All,
}
use runner_engine.Errors.{ok}
use runner_engine.Model.{Worker, Ref}
use runner_engine.Quota.{Quota, release_live}
use runner_engine.Quota.Slots.{Holds, release-Holds}
use runner_engine.Backend.{Backend}
use runner_engine.Pool.{
  Pool, set_worker, mark_destroyed, mark_unhealthy, destroy, invalidate, destroy_all,
}
use runner_engine.Pool.Held.{held, count-held_retired, length-held_retired, Holds-cong}
use runner_engine.Pool.Stable.{
  Preserves, Preserves-refl, Stable, Stable-bind, Stable-pure, Stable-assign, same_key_set,
}

module _ (pending : List String) (ws : Ref → Worker) (r : Ref) (n : ℕ)
    (live : (ws r).destroyed ≡ false) (valid : r < n) where
  retired-counts :
      (t : String)
      → count t (erase (ws r).tenant_id (held pending ws n))
        ≡ count t (held pending (set_worker ws r (mark_destroyed (ws r))) n)
  retired-counts t = ground (
    arith,
    count-erase t (ws r).tenant_id (held pending ws n),
    count-held_retired pending ws r (mark_destroyed (ws r)) refl live t n valid,
  )

  retired-length :
      length (erase (ws r).tenant_id (held pending ws n))
      ≡ length (held pending (set_worker ws r (mark_destroyed (ws r))) n)
  retired-length = ground (
    arith,
    length-erase (ws r).tenant_id (held pending ws n),
    length-held_retired pending ws r (mark_destroyed (ws r)) refl live n valid,
    count-held_retired pending ws r (mark_destroyed (ws r)) refl live (ws r).tenant_id n valid,
    string_eq.is_same_iff (ws r).tenant_id (ws r).tenant_id,
  )

  -- The quota release of `_destroy` is the one that the retired worker held.
  retired-Holds :
      (q : Quota)
      → Holds q (held pending ws n)
      → Holds
          (release_live (ws r).tenant_id q).1
          (held pending (set_worker ws r (mark_destroyed (ws r))) n)
  retired-Holds q h =
      Holds-cong _ _ _ retired-length retired-counts
        (release-Holds (ws r).tenant_id q (held pending ws n) h)

module _ {W : Type 0} (backend : Backend W) (pending : List String) where
  pub destroy-Preserves :
      (r : Ref) (p : Pool W) → r < p.next_ref → Preserves pending p (destroy backend r p).1
  unfolding destroy
  destroy-Preserves r p valid = elim (Bool-cases (p.workers r).destroyed) [
    | inl gone ↦ rw (gone, destroy) (Preserves-refl p)
    | inr live ↦
        rw (live, destroy)
          (record {
            same_next = refl;
            same_idle = refl;
            same_keys = same_key_set p.workers r (mark_destroyed (p.workers r)) refl;
            slots = retired-Holds pending p.workers r p.next_ref live valid p.quota;
          })
  ]

  pub destroy-Stable : (n : ℕ) (r : Ref) → r < n → Stable pending n (destroy backend r)
  destroy-Stable n r valid = record { at = λ p e. destroy-Preserves r p (rw e valid) }

  pub invalidate-Stable : (n : ℕ) (r : Ref) → r < n → Stable pending n (invalidate backend r)
  unfolding invalidate
  invalidate-Stable n r valid =
      Stable-bind pending n _ _ (Stable-assign pending n r mark_unhealthy (λ w. refl) (λ w. refl))
        (λ _. destroy-Stable n r valid)

  pub destroy_all-Stable :
      (n : ℕ) (rs : List Ref) → All (λ r. r < n) rs → Stable pending n (destroy_all backend rs)
  unfolding destroy_all
  destroy_all-Stable n [] h = Stable-pure pending n tt
  destroy_all-Stable n (r ∷ rs) h =
      Stable-bind pending n _ _ (destroy-Stable n r h.0) (λ _. destroy_all-Stable n rs h.1)

  -- Whatever the backend does, the worker is marked, and a second call changes nothing.
  pub destroy_marks : (r : Ref) (p : Pool W) → ((destroy backend r p).1.workers r).destroyed ≡ true
  unfolding destroy
  destroy_marks r p = ground arith

  -- A second destroy of a worker returns and changes nothing, so that the backend's deletion and
  -- the release of the slot happen once, whether the first one returned or raised.
  pub destroy_twice :
      (r : Ref) (p : Pool W)
      → destroy backend r (destroy backend r p).1 ≡ (ok tt, (destroy backend r p).1)
  unfolding destroy
  destroy_twice r p = rw destroy_marks
