-- ===== src/Prelude/Marks.antt =====
-- A number as so many marks, and back: a text for the examples of what is printed and read.
use Prim.Native.String.{String}
use Prim.Native.Nat.{ℕ, zero, suc, ◌-◌}
use mathlib.Core.Path.{◌≡◌, refl, ap, ◌∙◌}
use mathlib.Core.Bool.{false}
use mathlib.Core.Option.{Option, none, some}
use native.Mathlib.Omega.{arith}
use ai_models.Prelude.Tests.{if◌then◌else◌}
use ai_models.Prelude.Text.{is_empty, trim_space, trim_left, trim_right, is_space}

unfoldable pub marks : ℕ → String
marks zero = "|"
marks (suc t) = String.◌∷◌ "|" (marks t)

mark_length : String → ℕ
mark_length String.[] = 0
mark_length (String.◌∷◌ c s) = suc (mark_length s)

pub count_marks : String → Option ℕ
count_marks s = if is_empty s then none else some (mark_length s - 1)

mark_length-marks : (t : ℕ) → mark_length (marks t) ≡ suc t
unfolding marks mark_length
mark_length-marks zero = refl
mark_length-marks (suc t) = ap suc (mark_length-marks t)

marks_not_empty : (t : ℕ) → is_empty (marks t) ≡ false
unfolding marks
marks_not_empty zero = refl
marks_not_empty (suc t) = refl

pub count_marks-marks : (t : ℕ) → count_marks (marks t) ≡ some t
unfolding count_marks
count_marks-marks t = rw (marks_not_empty t, mark_length-marks t) (ground arith)

pub marks_filled : (t : ℕ) → is_empty (trim_space (marks t)) ≡ false
unfolding marks trim_space
marks_filled zero = refl
marks_filled (suc t) = ground arith

trim_right-marks : (t : ℕ) → trim_right (marks t) ≡ marks t
unfolding trim_right is_space marks
trim_right-marks zero = refl
trim_right-marks (suc t) = ground (arith, trim_right-marks t, marks_not_empty t)

trim_left-marks : (t : ℕ) → trim_left (marks t) ≡ marks t
unfolding trim_left is_space marks
trim_left-marks zero = refl
trim_left-marks (suc t) = refl

pub marks_clean : (t : ℕ) → (trim_space (marks t) ≡ marks t) × (is_empty (marks t) ≡ false)
unfolding trim_space
marks_clean t = (ap trim_right (trim_left-marks t) ∙ trim_right-marks t, marks_not_empty t)
