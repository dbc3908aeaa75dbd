-- ===== src/Service/Borrowing.antt =====
-- What an execution does to the pool while it runs: it calls the pool's methods, and holds at most
-- one worker beside those that others hold.
use runner_engine.Prelude.{
  ◌<◌, ◌≡◌, refl, subst, nat_eq, String, Option, none, some, List, ◌∷◌, arith, count, erase,
  nat_beq_iff,
}
use runner_engine.Errors.{Exn, ok, err}
use runner_engine.Model.{OperatorRelease, SecurityPolicy, Ref}
use runner_engine.Backend.{Backend}
use runner_engine.Pool.{Pool, invalidate, release}
use runner_engine.Pool.Acquire.{acquire}
use runner_engine.Pool.History.{
  Shared, Step, Reach, lend, next, acquires, releases, invalidates, cancels, elapses,
}

abbrev pub lent_of : Option Ref → List Ref → List Ref
lent_of none lent = lent
lent_of (some r) lent = r ∷ lent

abbrev pub shared : {W : Type 0} → Pool W → List Ref → Shared W
shared p lent = record { pool = p; lent = lent }

module _ {W : Type 0} (backend : Backend W) (start : Shared W) (lent : List Ref) where
  -- The pool's methods led from the start to this pool, and `worker` is held in addition.
  abbrev pub Borrows : Option Ref → Pool W → Type 0
  Borrows worker p = Reach backend start (shared p (lent_of worker lent))

  held_once : (r : Ref) → 0 < count r (r ∷ lent)
  held_once r = ground (arith, nat_beq_iff r r)

  erased : (r : Ref) → erase r (r ∷ lent) ≡ lent
  erased r = rw ((nat_beq_iff r r).1 refl) refl

  pub Borrows-invalidate :
      (r : Ref) (p : Pool W) → Borrows (some r) p → Borrows none (invalidate backend r p).1
  Borrows-invalidate r p b = next b (
      subst (λ l. Step backend (shared p (r ∷ lent)) (shared (invalidate backend r p).1 l))
        (erased r) (invalidates r (held_once r)))

  pub Borrows-release :
      (r : Ref) (policy : SecurityPolicy) (p : Pool W)
      → Borrows (some r) p
      → Borrows none (release backend r policy p).1
  Borrows-release r policy p b = next b (
      subst (λ l. Step backend (shared p (r ∷ lent)) (shared (release backend r policy p).1 l))
        (erased r) (releases r policy (held_once r)))

  -- An invalidation that raised leaves the worker in the caller's hands.
  pub Borrows-cancel :
      (r : Ref) (p : Pool W) → Borrows (some r) p → Borrows (some r) (invalidate backend r p).1
  Borrows-cancel r p b = next b (cancels r (held_once r))

  pub Borrows-elapse :
      (w : Option Ref) (p : Pool W) (x : W) → Borrows w p → Borrows w (record p { world = x })
  Borrows-elapse w p x b = next b (elapses x)

  module _ (rel : OperatorRelease) (tenant : String) (policy : SecurityPolicy) (p : Pool W)
      (b : Borrows none p) where
    borrowed : Reach backend start (
        shared
          (acquire backend rel tenant policy p).1
          (lend (acquire backend rel tenant policy p).0 lent))
    borrowed = next b (acquires rel tenant policy)

    pub Borrows-acquired :
        (r : Ref)
        → (acquire backend rel tenant policy p).0 ≡ ok r
        → Borrows (some r) (acquire backend rel tenant policy p).1
    Borrows-acquired r done = rw done at borrowed

    pub Borrows-refused :
        (e : Exn)
        → (acquire backend rel tenant policy p).0 ≡ err e
        → Borrows none (acquire backend rel tenant policy p).1
    Borrows-refused e raised = rw raised at borrowed
