-- ===== src/Exec/Ends.antt =====
-- What holds when a call ends: `Q` of the value and the state that it returns with, `E` of the
-- exception and the state that it raises with. One rule for each way to build a call.
use runner_engine.Prelude.{◌≡◌, refl, ap, subst}
use runner_engine.Errors.{Exn, Result, ok, err}
use runner_engine.Exec.{Exec, continue, handle}

abbrev pub Ends {ℓ κ} :
    {S A : Type ℓ} (Q : A → S → Type κ) (E : Exn → S → Type κ) → Result A × S → Type κ
Ends Q E (ok a, s) = Q a s
Ends Q E (err e, s) = E e s

module _ {ℓ κ} {S A : Type ℓ} (Q : A → S → Type κ) (E : Exn → S → Type κ) where
  -- A call of which both outcomes are known to end well.
  pub Ends-outcome :
      (x : Result A × S)
      → ((a : A) → x.0 ≡ ok a → Q a x.1)
      → ((e : Exn) → x.0 ≡ err e → E e x.1)
      → Ends Q E x
  Ends-outcome (ok a, s) q r = q a refl
  Ends-outcome (err e, s) q r = r e refl

  pub Ends-returned : (x : Result A × S) (a : A) → Ends Q E x → x.0 ≡ ok a → Q a x.1
  Ends-returned (ok b, s) a h e = subst (λ v. Q v s) (ok_injective b a e) h
    where
      value : A → Result A → A
      value d (ok v) = v
      value d (err x) = d

      ok_injective : (b a : A) → ok b ≡ ok a → b ≡ a
      ok_injective b a e = ap (value b) e
  Ends-returned (err x, s) a h e = cc e

  -- A handler that ends well whatever the call raised.
  pub Ends-handle :
      (F : Exn → S → Type κ) (x : Result A × S) (h : Exn → Exec S A)
      → Ends Q E x
      → ((e : Exn) (s : S) → E e s → Ends Q F (h e s))
      → Ends Q F (handle x.0 h x.1)
  Ends-handle F (ok a, s) h q r = q
  Ends-handle F (err e, s) h q r = r e s q

module _ {ℓ κ} {S A B : Type ℓ} (Q : A → S → Type κ) (R : B → S → Type κ)
    (E : Exn → S → Type κ) where
  pub Ends-bind :
      (x : Result A × S) (f : A → Exec S B)
      → Ends Q E x
      → ((a : A) (s : S) → Q a s → Ends R E (f a s))
      → Ends R E (continue x.0 f x.1)
  Ends-bind (ok a, s) f h k = k a s h
  Ends-bind (err e, s) f h k = h

-- What holds either way.
pub Ends-state {ℓ κ} :
    {S A : Type ℓ} (P : S → Type κ) (x : Result A × S) → Ends (λ a s. P s) (λ e s. P s) x → P x.1
Ends-state P (ok a, s) h = h
Ends-state P (err e, s) h = h
