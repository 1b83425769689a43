-- ===== src/Prelude/Int64.antt =====
-- Go's `int64` (and `time.Duration`) in two's complement: a pattern below 2 ^ 64.
use Prim.Native.Nat.{ℕ, ◌+◌, ◌-◌, ◌%◌, ◌^◌, ◌<◌}
use mathlib.Core.Path.{◌≡◌, refl}
use mathlib.Core.Bool.{Bool, true}
use native.Mathlib.Omega.{arith}
use ai_models.Prelude.Tests.{ltb, leb}

abbrev pub Int64 : Type 0
Int64 = ℕ

abbrev pub modulus : ℕ
modulus = 2 ^ 64

abbrev pub half : ℕ
half = 2 ^ 63

abbrev pub add64 : Int64 → Int64 → Int64
add64 a b = (a + b) % modulus

abbrev pub sub64 : Int64 → Int64 → Int64
sub64 a b = (a + modulus - b) % modulus

-- The order of the integers that the patterns stand for.
abbrev pub lt64 : Int64 → Int64 → Bool
lt64 a b = ltb ((a + half) % modulus) ((b + half) % modulus)

abbrev pub le64 : Int64 → Int64 → Bool
le64 a b = leb ((a + half) % modulus) ((b + half) % modulus)

-- The integer -1, and 2 - 3.
minus_one : ℕ
minus_one = modulus - 1

sub_below_zero : sub64 2 3 ≡ minus_one
unfolding minus_one
sub_below_zero = refl

negative_below : lt64 minus_one 0 ≡ true
unfolding minus_one
negative_below = refl

-- Between patterns that stand for no negative integer the order is that of numbers.
pub lt64-eq-ltb : (a b : ℕ) → a < half → b < half → lt64 a b ≡ ltb a b
lt64-eq-ltb a b h k = ground arith

pub le64-eq-leb : (a b : ℕ) → a < half → b < half → le64 a b ≡ leb a b
le64-eq-leb a b h k = ground arith
