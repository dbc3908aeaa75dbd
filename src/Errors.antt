-- ===== src/Errors.antt =====
-- runner_engine/errors.py, and the exceptions of Python as values.
use runner_engine.Prelude.{String, Bool, true, false, ◌≡◌, ◌⊎◌, inl, inr, refl}

-- `RunnerError`; its subclasses add nothing and no handler tells them apart.
pub record RunnerError : Type 0 where
  pub code : String
  pub message : String
  pub retryable : Bool

-- What a call may raise: a `RunnerError`, or any other exception with its text.
pub data Exn : Type 0 where
  runner_error : RunnerError → Exn
  exception : String → Exn

pub data Result {ℓ} (A : Type ℓ) : Type ℓ where
  ok : A → Result A
  err : Exn → Result A

abbrev pub failure : String → String → Bool → Exn
failure c m r = runner_error (record { code = c; message = m; retryable = r })

infixl 5 ◌>>=◌
abbrev pub ◌>>=◌ {ℓ κ} : {A : Type ℓ} {B : Type κ} → Result A → (A → Result B) → Result B
ok a >>= f = f a
err e >>= f = err e

-- `str(exc)`
abbrev pub text_of : Exn → String
text_of (runner_error e) = e.message
text_of (exception s) = s

abbrev pub is_ok {ℓ} : {A : Type ℓ} → Result A → Bool
is_ok (ok a) = true
is_ok (err e) = false

pub Result-cases {ℓ} :
    {A : Type ℓ} (r : Result A) → ((a : A) × (r ≡ ok a)) ⊎ ((e : Exn) × (r ≡ err e))
Result-cases (ok a) = inl (a, refl)
Result-cases (err e) = inr (e, refl)
