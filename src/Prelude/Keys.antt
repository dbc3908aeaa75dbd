-- ===== src/Prelude/Keys.antt =====
-- Boolean equality as an instance: identifiers are texts, and composite keys are tuples of them.
use mathlib.Core.Path.{◌≡◌, refl}
use text.Mathlib.TextEquality.{eq_iff}
use Prim.Native.String.{String}
use mathlib.Core.Logic.{◌↔◌, ◌≢◌, inl, inr}
use mathlib.Core.Bool.{Bool, true, false, not}
use text.Mathlib.Text.{◌==◌ as text_eq}
use mathlib.Core.List.{List, [], ◌∷◌, ◌++◌}
use native.Mathlib.Omega.{arith}
use Prim.Native.Nat.{ℕ, suc, ◌+◌, ◌-◌, ◌≤◌}
use runner_engine.Prelude.Lists.{length}
use runner_engine.Prelude.Tests.{Bool-cases, if◌then◌else◌, leb, nat_beq, nat_beq_iff}

pub record HasEq {ℓ} (A : Type ℓ) : Type ℓ where
  pub is_same : (x y : A) → Bool
  pub is_same_iff : (x y : A) → (is_same x y ≡ true) ↔ (x ≡ y)

-- Python's `==` on keys.
module _ {ℓ} {A : Type ℓ} ⦃e : HasEq A⦄ where
  infix 50 ◌==◌
  abbrev pub ◌==◌ : (x y : A) → Bool
  x == y = e.is_same x y

instance abbrev pub string_eq : HasEq String
string_eq = record { is_same = text_eq; is_same_iff = eq_iff }

instance abbrev pub nat_eq : HasEq ℕ
nat_eq = record { is_same = nat_beq; is_same_iff = nat_beq_iff }

module _ {ℓ} {A : Type ℓ} ⦃e : HasEq A⦄ where
  pub eq_self : (a : A) → (a == a) ≡ true
  eq_self a = (e.is_same_iff a a).1 refl

  pub eq_of_ne : (a b : A) → a ≢ b → (a == b) ≡ false
  eq_of_ne a b h = elim (Bool-cases (a == b)) [
    | inl p ↦ absurd (h ((e.is_same_iff a b).0 p))
    | inr p ↦ p
  ]

  pub eq→≡ : (a b : A) → (a == b) ≡ true → a ≡ b
  eq→≡ a b = (e.is_same_iff a b).0

  -- Membership in a Python set or tuple.
  abbrev pub contains : A → List A → Bool
  contains a [] = false
  contains a (x ∷ xs) = if x == a then true else contains a xs

  -- How often `a` occurs.
  abbrev pub count : A → List A → ℕ
  count a [] = 0
  count a (x ∷ xs) = let rest = count a xs in if x == a then suc rest else rest

  abbrev pub erase : A → List A → List A
  erase a [] = []
  erase a (x ∷ xs) = let rest = erase a xs in if x == a then xs else x ∷ rest

  pub count-erase :
      (a b : A) (xs : List A)
      → count a (erase b xs) ≡ (if b == a then count a xs - 1 else count a xs)
  count-erase a b [] = ground arith
  count-erase a b (x ∷ xs) =
      ground (arith, e.is_same_iff x a, e.is_same_iff x b, e.is_same_iff b a, count-erase a b xs)

  pub count-le-length : (a : A) (xs : List A) → count a xs ≤ length xs
  count-le-length a [] = omega arith
  count-le-length a (x ∷ xs) = ground (arith, count-le-length a xs)

  -- One element goes, if there is one.
  pub length-erase :
      (a : A) (xs : List A)
      → length (erase a xs) ≡ (if leb (count a xs) 0 then length xs else length xs - 1)
  length-erase a [] = ground arith
  length-erase a (x ∷ xs) = ground (arith, length-erase a xs, count-le-length a xs)

  pub count-append : (a : A) (xs ys : List A) → count a (xs ++ ys) ≡ count a xs + count a ys
  count-append a [] zs = ground arith
  count-append a (y ∷ ys) zs = ground (arith, count-append a ys zs)

  pub contains-count : (a : A) (xs : List A) → contains a xs ≡ not (leb (count a xs) 0)
  contains-count a [] = ground arith
  contains-count a (x ∷ xs) = ground (arith, contains-count a xs)
