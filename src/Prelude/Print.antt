-- ===== src/Prelude/Print.antt =====
-- Printed text, as the list of its bytes: literals, and numbers as `%u`, `%02x` and `%04x` print
-- them.
use Prim.Native.Nat.{ℕ, zero, suc, ◌+◌, ◌-◌, ◌*◌, ◌/◌, ◌%◌, ◌^◌, ◌<◌}
use Prim.Native.Char.{code}
use Prim.Native.String.{String}
use mathlib.Core.Path.{◌≡◌, refl, ◌∙◌}
use mathlib.Core.List.{List, [], ◌∷◌, ◌++◌}
use native.Mathlib.Omega.{arith}
use violet_gw.Prelude.Tests.{ltb, if◌then◌else◌, Bool-cases}
use mathlib.Core.Logic.{inl, inr}

-- The bytes of an ASCII literal.
unfoldable pub text : String → List ℕ
text String.[] = []
text (String.◌∷◌ c s) = code c ∷ text s

-- The last `n` decimal digits of a number, without leading zeros.
unfoldable pub digits : ℕ → ℕ → List ℕ
digits zero x = []
digits (suc n) x = if ltb x 10 then (b'0' + x) ∷ [] else digits n (x / 10) ++ (b'0' + x % 10) ∷ []

-- Twenty digits are enough for an unsigned integer of 64 bits.
unfoldable pub decimal : ℕ → List ℕ
unfolding digits
decimal x = digits 20 x

unfoldable pub hex_digit : ℕ → ℕ
hex_digit n = if ltb n 10 then b'0' + n else b'a' + (n - 10)

unfoldable pub hex02 : ℕ → List ℕ
unfolding hex_digit
hex02 b = hex_digit (b / 16 % 16) ∷ hex_digit (b % 16) ∷ []

unfoldable pub hex04 : ℕ → List ℕ
unfolding hex02
hex04 x = hex02 (x / 256) ++ hex02 (x % 256)

-- The number that decimal digits spell, the later ones behind `n`.
abbrev pub spelled : ℕ → List ℕ → ℕ
spelled n [] = n
spelled n (c ∷ s) = spelled (n * 10 + (c - b'0')) s

spelled-append_one :
    (s : List ℕ) (n c : ℕ) → spelled n (s ++ c ∷ []) ≡ spelled n s * 10 + (c - b'0')
spelled-append_one [] n c = refl
spelled-append_one (d ∷ s) n c = spelled-append_one s (n * 10 + (d - b'0')) c

spelled-digits : (n x : ℕ) → x < 10 ^ n → spelled 0 (digits n x) ≡ x
unfolding digits
spelled-digits zero x h = omega arith
spelled-digits (suc n) x h = elim (Bool-cases (ltb x 10)) [
  | inl small ↦ rw small (omega arith)
  | inr large ↦ rw large (
      spelled-append_one (digits n (x / 10)) 0 (b'0' + x % 10)
      ∙ omega (arith, spelled-digits n (x / 10) (tenth n x h)))
]
  where
    tenth : (n x : ℕ) → x < 10 ^ suc n → x / 10 < 10 ^ n
    tenth n x h = omega arith

-- The decimal print of an unsigned integer of 64 bits spells that integer.
pub spelled-decimal : (x : ℕ) → x < 0x1_0000_0000_0000_0000 → spelled 0 (decimal x) ≡ x
unfolding decimal
spelled-decimal x h = spelled-digits 20 x (omega arith)
