-- ===== src/Prelude/Text.antt =====
-- Go's `strings.TrimSpace`, `strings.ToLower` and `strings.Contains`, over the characters of a text.
use Prim.Native.Nat.{ℕ, ◌+◌}
use Prim.Native.Char.{code}
use Prim.Native.String.{String, compare}
use mathlib.Core.Path.{◌≡◌, refl}
use mathlib.Core.Bool.{Bool, true, false, not, ◌&&◌, ◌||◌}
use mathlib.Core.List.{List, [], ◌∷◌}
use native.Mathlib.Omega.{arith}
use text.Mathlib.Text.{◌==◌, is_lt}
use text.Mathlib.TextEquality.{eq_iff}
use text.Mathlib.TextPositions.{eq_refl}
use ai_models.Prelude.Tests.{leb, if◌then◌else◌, ◌==◌ as eq}

-- Equality of texts, and their order, which is that of their bytes.
abbrev pub str_eq : String → String → Bool
str_eq s t = s == t

pub str_eq_self : (s : String) → str_eq s s ≡ true
str_eq_self s = eq_refl s

pub str_eq→eq : (s t : String) → str_eq s t ≡ true → s ≡ t
str_eq→eq s t h = (eq_iff s t).0 h

pub str_eq_comm : (s t : String) → str_eq s t ≡ str_eq t s
str_eq_comm s t = ground (arith, eq_iff s t, eq_iff t s)

abbrev pub str_lt : String → String → Bool
str_lt s t = is_lt (compare s t)

abbrev pub is_empty : String → Bool
is_empty String.[] = true
is_empty (String.◌∷◌ c s) = false

-- `unicode.IsSpace`.
unfoldable pub is_space : ℕ → Bool
is_space c =
    (leb 9 c && leb c 13)
    || eq c 32
    || eq c 0x85
    || eq c 0xa0
    || eq c 0x1680
    || (leb 0x2000 c && leb c 0x200a)
    || eq c 0x2028
    || eq c 0x2029
    || eq c 0x202f
    || eq c 0x205f
    || eq c 0x3000

unfoldable pub trim_left : String → String
trim_left String.[] = String.[]
trim_left (String.◌∷◌ c s) =
    let rest = trim_left s in if is_space (code c) then rest else String.◌∷◌ c s

unfoldable pub trim_right : String → String
trim_right String.[] = String.[]
trim_right (String.◌∷◌ c s) =
    let rest = trim_right s in
    if is_empty rest && is_space (code c) then String.[] else String.◌∷◌ c rest

unfoldable pub trim_space : String → String
unfolding trim_left trim_right is_space
trim_space s = trim_right (trim_left s)

trim_right_idem : (s : String) → trim_right (trim_right s) ≡ trim_right s
unfolding trim_right
trim_right_idem String.[] = refl
trim_right_idem (String.◌∷◌ c s) = ground (arith, trim_right_idem s)

abbrev starts_clean : String → Bool
starts_clean String.[] = true
starts_clean (String.◌∷◌ c s) = not (is_space (code c))

trim_left-starts_clean : (s : String) → starts_clean (trim_left s) ≡ true
unfolding trim_left
trim_left-starts_clean String.[] = refl
trim_left-starts_clean (String.◌∷◌ c s) = ground (arith, trim_left-starts_clean s)

-- A text that starts with no space still does when its end is trimmed.
trim_left-trim_right :
    (s : String) → starts_clean s ≡ true → trim_left (trim_right s) ≡ trim_right s
unfolding trim_left trim_right
trim_left-trim_right String.[] h = refl
trim_left-trim_right (String.◌∷◌ c s) h = ground arith

-- Trimming a second time changes nothing.
pub trim_space_idem : (s : String) → trim_space (trim_space s) ≡ trim_space s
unfolding trim_space
trim_space_idem s =
    rw (trim_left-trim_right (trim_left s) (trim_left-starts_clean s))
      (trim_right_idem (trim_left s))

-- `strings.ToLower` on a character. Every other letter has its lower case beyond ASCII, and the
-- program searches the result for ASCII texts only, so such a letter is left as it is.
lower : ℕ → ℕ
lower c =
    if leb b'A' c && leb c b'Z'
    then c + 32
    else if eq c 0x130
    then b'i'
    else if eq c 0x212a
    then b'k'
    else c

codes : String → List ℕ
codes String.[] = []
codes (String.◌∷◌ c s) = code c ∷ codes s

lower_codes : String → List ℕ
lower_codes String.[] = []
lower_codes (String.◌∷◌ c s) = lower (code c) ∷ lower_codes s

has_prefix : List ℕ → List ℕ → Bool
has_prefix [] text = true
has_prefix (c ∷ p) [] = false
has_prefix (c ∷ p) (d ∷ text) = eq c d && has_prefix p text

contains_codes : List ℕ → List ℕ → Bool
contains_codes [] p = has_prefix p []
contains_codes (c ∷ text) p = has_prefix p (c ∷ text) || contains_codes text p

-- `strings.Contains(strings.ToLower(text), pattern)`.
unfoldable pub lower_contains : String → String → Bool
unfolding contains_codes has_prefix lower_codes lower codes
lower_contains text pattern = contains_codes (lower_codes text) (codes pattern)

trims : trim_space " \t a b\n" ≡ "a b"
unfolding trim_space
trims = refl

finds : lower_contains "x SIGNAL: Terminated" "signal: terminated" ≡ true
unfolding lower_contains
finds = refl
