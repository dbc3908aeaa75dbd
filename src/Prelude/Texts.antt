-- ===== src/Prelude/Texts.antt =====
-- Python's slices of a text, where a character is a code point.
use Prim.Native.Nat.{ℕ, zero, suc, ◌-◌}
use Prim.Native.Char.{code}
use Prim.Native.String.{String, [], ◌∷◌, count}
use mathlib.Core.Bool.{Bool, true, false, ◌&&◌, ◌||◌}
use runner_engine.Prelude.Tests.{nat_beq}

-- text[:n]
abbrev pub first_chars : ℕ → String → String
first_chars zero s = []
first_chars (suc n) [] = []
first_chars (suc n) (c ∷ s) = c ∷ first_chars n s

-- text[n:]
abbrev pub without_chars : ℕ → String → String
without_chars zero s = s
without_chars (suc n) [] = []
without_chars (suc n) (c ∷ s) = without_chars n s

-- text[-n:] for a positive n
abbrev pub last_chars : ℕ → String → String
last_chars n s = without_chars (count s - n) s

abbrev starts : String → String → Bool
starts [] s = true
starts (c ∷ n) [] = false
starts (c ∷ n) (d ∷ s) = nat_beq (code c) (code d) && starts n s

-- n in text
abbrev pub occurs : String → String → Bool
occurs n [] = starts n []
occurs n (c ∷ s) = starts n (c ∷ s) || occurs n s
