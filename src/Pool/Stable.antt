-- ===== src/Pool/Stable.antt =====
-- Pool actions that move no worker into or out of the idle buckets and make none: rules to compose
-- them, whether they return or raise.
use runner_engine.Prelude.{
  ℕ, String, ◌≡◌, refl, sym, ◌∙◌, Bool-cases, inl, inr, List, nat_beq, nat_beq_iff, string_eq,
  subst, ap,
}
use runner_engine.Errors.{Exn, Result, ok, err}
use runner_engine.Exec.{Exec, pure, raise, continue, handle, ◌>>=◌, catch, gets, modify}
use runner_engine.Model.{Worker, Ref}
use runner_engine.Quota.Slots.{Holds}
use runner_engine.Pool.{Pool, key_of_worker, set_worker, assign, on_world}
use runner_engine.Pool.Held.{held, held_kept}

pub record Preserves {W : Type 0} (pending : List String) (p q : Pool W) : Type 0 where
  pub same_next : q.next_ref ≡ p.next_ref
  pub same_idle : q.idle ≡ p.idle
  pub same_keys : (r : Ref) → key_of_worker (q.workers r) ≡ key_of_worker (p.workers r)
  pub slots :
      Holds p.quota (held pending p.workers p.next_ref)
      → Holds q.quota (held pending q.workers q.next_ref)

module _ {W : Type 0} {pending : List String} where
  pub Preserves-refl : (p : Pool W) → Preserves pending p p
  Preserves-refl p = record {
    same_next = refl;
    same_idle = refl;
    same_keys = λ r. refl;
    slots = λ h. h;
  }

  pub Preserves-trans :
      {p q s : Pool W} → Preserves pending p q → Preserves pending q s → Preserves pending p s
  Preserves-trans a b = record {
    same_next = b.same_next ∙ a.same_next;
    same_idle = b.same_idle ∙ a.same_idle;
    same_keys = λ r. b.same_keys r ∙ a.same_keys r;
    slots = λ h. b.slots (a.slots h);
  }

-- From a pool with `n` places in the store, however the action ends.
pub record Stable {ℓ} {W : Type 0} {A : Type ℓ} (pending : List String) (n : ℕ)
    (m : Exec (Pool W) A) : Type ℓ where
  pub at : (p : Pool W) → p.next_ref ≡ n → Preserves pending p (m p).1

module _ {W : Type 0} (pending : List String) (n : ℕ) where
  pub Stable-pure {ℓ} : {A : Type ℓ} (a : A) → Stable {W = W} pending n (pure a)
  Stable-pure a = record { at = λ p e. Preserves-refl p }

  pub Stable-raise {ℓ} : {A : Type ℓ} (e : Exn) → Stable {W = W} {A = A} pending n (raise e)
  Stable-raise e = record { at = λ p _. Preserves-refl p }

  Stable-continue {ℓ κ} :
      {A : Type ℓ} {B : Type κ} (r : Result A) (f : A → Exec (Pool W) B)
      → ((a : A) → Stable pending n (f a))
      → Stable pending n (continue r f)
  Stable-continue (ok a) f h = record { at = λ p e. (h a).at p e }
  Stable-continue (err x) f h = record { at = λ p e. Preserves-refl p }

  pub Stable-bind {ℓ κ} :
      {A : Type ℓ} {B : Type κ} (m : Exec (Pool W) A) (f : A → Exec (Pool W) B)
      → Stable pending n m
      → ((a : A) → Stable pending n (f a))
      → Stable pending n (m >>= f)
  Stable-bind m f hm hf = record {
    at = λ p e.
        let first = hm.at p e in
        Preserves-trans first ((Stable-continue (m p).0 f hf).at (m p).1 (first.same_next ∙ e));
  }

  Stable-handle {ℓ} :
      {A : Type ℓ} (r : Result A) (h : Exn → Exec (Pool W) A)
      → ((e : Exn) → Stable pending n (h e))
      → Stable pending n (handle r h)
  Stable-handle (ok a) h k = record { at = λ p e. Preserves-refl p }
  Stable-handle (err x) h k = record { at = λ p e. (k x).at p e }

  pub Stable-catch {ℓ} :
      {A : Type ℓ} (m : Exec (Pool W) A) (h : Exn → Exec (Pool W) A)
      → Stable pending n m
      → ((e : Exn) → Stable pending n (h e))
      → Stable pending n (catch m h)
  Stable-catch m h hm hh = record {
    at = λ p e.
        let first = hm.at p e in
        Preserves-trans first ((Stable-handle (m p).0 h hh).at (m p).1 (first.same_next ∙ e));
  }

  pub Stable-gets {ℓ} : {A : Type ℓ} (f : Pool W → A) → Stable pending n (gets f)
  Stable-gets f = record { at = λ p e. Preserves-refl p }

  -- A call of the backend changes the world alone.
  pub Stable-on_world {ℓ} : {A : Type ℓ} (m : Exec W A) → Stable pending n (on_world m)
  Stable-on_world m = record {
    at =
        λ p e. record { same_next = refl; same_idle = refl; same_keys = λ r. refl; slots = λ h. h };
  }

pub same_key_set :
    (ws : Ref → Worker) (r : Ref) (w : Worker)
    → key_of_worker w ≡ key_of_worker (ws r)
    → (q : Ref) → key_of_worker (set_worker ws r w q) ≡ key_of_worker (ws q)
same_key_set ws r w e q = elim (Bool-cases (nat_beq q r)) [
  | inl here ↦ rw (here, e, (nat_beq_iff q r).0 here)
  | inr there ↦ rw there
]

module _ {W : Type 0} (pending : List String) where
  -- An assignment to a worker that leaves its key and its mark `destroyed` alone.
  pub Preserves-assign :
      (r : Ref) (f : Worker → Worker) (p : Pool W)
      → key_of_worker (f (p.workers r)) ≡ key_of_worker (p.workers r)
      → (f (p.workers r)).destroyed ≡ (p.workers r).destroyed
      → Preserves pending p (assign r f p)
  Preserves-assign r f p k d = record {
    same_next = refl;
    same_idle = refl;
    same_keys = same_key_set p.workers r (f (p.workers r)) k;
    slots = λ h.
        subst (Holds p.quota)
          (sym (
            held_kept pending p.workers r (f (p.workers r)) d (ap (λ x. x.tenant_id) k) p.next_ref))
          h;
  }

  pub Stable-assign :
      (n : ℕ) (r : Ref) (f : Worker → Worker)
      → ((w : Worker) → key_of_worker (f w) ≡ key_of_worker w)
      → ((w : Worker) → (f w).destroyed ≡ w.destroyed)
      → Stable {W = W} pending n (modify (assign r f))
  Stable-assign n r f k d = record {
    at = λ p e. Preserves-assign r f p (k (p.workers r)) (d (p.workers r));
  }
