-- ===== src/Exec.antt =====
-- Calls that change an object and may raise. What was written before a raise stays written, so the
-- state comes back beside the error too; a database transaction is the exception.
pub mod Ends
use runner_engine.Prelude.{◌≡◌, refl}
use runner_engine.Errors.{Exn, Result, ok, err}

abbrev pub Exec {ℓ κ} : Type ℓ → Type κ → Type (ℓ ⊔ κ)
Exec S A = S → Result A × S

module _ {ℓ κ} {S : Type ℓ} {A : Type κ} where
  abbrev pub pure : A → Exec S A
  pure a s = (ok a, s)

  abbrev pub raise : Exn → Exec S A
  raise e s = (err e, s)

  abbrev pub lift : Result A → Exec S A
  lift r s = (r, s)

  abbrev pub gets : (S → A) → Exec S A
  gets f s = (ok (f s), s)

module _ {ℓ} {S : Type ℓ} where
  abbrev pub modify : (S → S) → Exec S (Unit {0})
  modify f s = (ok tt, f s)

module _ {ℓ κ μ} {S : Type ℓ} {A : Type κ} {B : Type μ} where
  abbrev pub continue : Result A → (A → Exec S B) → Exec S B
  continue (ok a) f s = f a s
  continue (err e) f s = (err e, s)

  infixl 5 ◌>>=◌ ◌>>◌
  abbrev pub ◌>>=◌ : Exec S A → (A → Exec S B) → Exec S B
  ◌>>=◌ m f s = continue (m s).0 f (m s).1

  abbrev pub ◌>>◌ : Exec S A → Exec S B → Exec S B
  m >> n = m >>= λ _. n

abbrev pub after {ℓ} : {A : Type ℓ} → Result A → Result (Unit {0}) → Result A
after r (ok u) = r
after r (err e) = err e

module _ {ℓ κ} {S : Type ℓ} {A : Type κ} where
  abbrev pub handle : Result A → (Exn → Exec S A) → Exec S A
  handle (ok a) h s = (ok a, s)
  handle (err e) h s = h e s

  -- try: m  except Exception as e: h e
  abbrev pub catch : Exec S A → (Exn → Exec S A) → Exec S A
  catch m h s = handle (m s).0 h (m s).1

  -- try: m  finally: n
  abbrev pub finally : Exec S A → Exec S (Unit {0}) → Exec S A
  finally m n s = (after (m s).0 (n (m s).1).0, (n (m s).1).1)

  abbrev pub commit : S → Result A × S → Result A × S
  commit s (ok a, t) = (ok a, t)
  commit s (err e, t) = (err e, s)

  -- `with pool.connection() as conn`: commits on return, rolls back when the block raises
  abbrev pub transaction : Exec S A → Exec S A
  transaction m s = commit s (m s)

-- A call on a component of the state.
module _ {ℓ κ μ} {S : Type ℓ} {T : Type κ} {A : Type μ} where
  abbrev pub zoom : (S → T) → (T → S → S) → Exec T A → Exec S A
  zoom part put m s = ((m (part s)).0, put (m (part s)).1 s)

module _ {ℓ κ μ} {S : Type ℓ} {A : Type κ} {B : Type μ} where
  continue-pure_state : (r : Result A) (b : B) (s : S) → (continue r (λ _. pure b) s).1 ≡ s
  continue-pure_state (ok a) b s = refl
  continue-pure_state (err e) b s = refl

  -- To return another value changes no state.
  pub then-pure_state : (m : Exec S A) (b : B) (s : S) → ((m >> pure b) s).1 ≡ (m s).1
  then-pure_state m b s = continue-pure_state (m s).0 b (m s).1

-- What is raised and logged is gone.
pub logged {ℓ} :
    {S : Type ℓ} (r : Result (Unit {0})) (s : S) → handle r (λ (e : Exn). pure tt) s ≡ (ok tt, s)
logged (ok u) s = refl
logged (err e) s = refl
