-- ===== src/Prelude/Assoc.antt =====
-- Go's `map[string]V` as an association list: a missing key reads as `none`, a write replaces or
-- appends, and a removal takes the key's entry out. The order of the list stands for the order in
-- which Go walks the map, which no result below depends on.
use Prim.Native.String.{String}
use mathlib.Core.Path.{◌≡◌, refl}
use mathlib.Core.Logic.{inl, inr}
use mathlib.Core.Bool.{Bool, true, false, ◌||◌}
use mathlib.Core.Option.{Option, none, some}
use mathlib.Core.List.{List, [], ◌∷◌}
use native.Mathlib.Omega.{arith}
use text.Mathlib.TextEquality.{eq_iff}
use ai_models.Prelude.Tests.{if◌then◌else◌, Bool-cases}
use ai_models.Prelude.Text.{str_eq}

-- A `map[string]struct{}`, by its members.
unfoldable pub member : String → List String → Bool
member k [] = false
member k (x ∷ xs) = str_eq x k || member k xs

module _ {V : Type 0} where
  unfoldable pub lookup : String → List (String × V) → Option V
  lookup k [] = none
  lookup k ((j, v) ∷ m) = if str_eq j k then some v else lookup k m

  unfoldable pub insert : String → V → List (String × V) → List (String × V)
  insert k v [] = (k, v) ∷ []
  insert k v ((j, w) ∷ m) = if str_eq j k then (k, v) ∷ m else (j, w) ∷ insert k v m

  unfoldable pub delete : String → List (String × V) → List (String × V)
  delete k [] = []
  delete k ((j, w) ∷ m) = if str_eq j k then m else (j, w) ∷ delete k m

  unfoldable pub is_nil : List (String × V) → Bool
  is_nil [] = true
  is_nil (x ∷ m) = false

  -- No key stands twice.
  abbrev pub Distinct : List (String × V) → Type 0
  Distinct [] = Unit {0}
  Distinct ((j, w) ∷ m) = (lookup j m ≡ none) × Distinct m

module _ {V : Type 0} where
  pub lookup-insert :
      (written read : String) (value : V) (m : List (String × V))
      → lookup read (insert written value m)
        ≡ (if str_eq written read then some value else lookup read m)
  unfolding insert lookup
  lookup-insert written read value [] = refl
  lookup-insert written read value ((stored, other) ∷ m) = ground (
    lookup-insert written read value m,
    eq_iff stored written,
    eq_iff stored read,
    eq_iff written read,
    arith,
  )

  pub lookup-delete_ne :
      (k j : String) (m : List (String × V))
      → str_eq k j ≡ false
      → lookup j (delete k m) ≡ lookup j m
  unfolding lookup delete
  lookup-delete_ne k j [] h = refl
  lookup-delete_ne k j ((i, w) ∷ m) h =
      ground (arith, eq_iff k j, eq_iff i k, eq_iff i j, lookup-delete_ne k j m h)

  pub lookup-delete_self :
      (k : String) (m : List (String × V)) → Distinct m → lookup k (delete k m) ≡ none
  unfolding lookup delete
  lookup-delete_self k [] d = refl
  lookup-delete_self k ((i, w) ∷ m) d = ground (arith, eq_iff i k, lookup-delete_self k m d.1)

  pub insert-Distinct :
      (k : String) (v : V) (m : List (String × V)) → Distinct m → Distinct (insert k v m)
  unfolding insert lookup
  insert-Distinct k v [] d = (refl, tt)
  insert-Distinct k v ((i, w) ∷ m) d =
      ground (arith, eq_iff i k, eq_iff k i, lookup-insert k i v m, insert-Distinct k v m d.1)

  pub delete-Distinct : (k : String) (m : List (String × V)) → Distinct m → Distinct (delete k m)
  unfolding delete
  delete-Distinct k [] d = tt
  delete-Distinct k ((i, w) ∷ m) d =
      ground (arith, eq_iff i k, eq_iff k i, lookup-delete_ne k i m, delete-Distinct k m d.1)

  pub is_nil-insert : (k : String) (v : V) (m : List (String × V)) → is_nil (insert k v m) ≡ false
  unfolding is_nil insert
  is_nil-insert k v [] = refl
  is_nil-insert k v ((i, w) ∷ m) = ground arith

module _ {V : Type 0} where
  -- Go's `delete`, on a map that may list a key twice.
  unfoldable pub remove : String → List (String × V) → List (String × V)
  remove k [] = []
  remove k ((j, w) ∷ m) = if str_eq j k then remove k m else (j, w) ∷ remove k m

  -- A removed key is gone, and the others stay.
  pub lookup-remove :
      (gone read : String) (m : List (String × V))
      → lookup read (remove gone m) ≡ (if str_eq gone read then none else lookup read m)
  unfolding lookup remove
  lookup-remove gone read [] = ground arith
  lookup-remove gone read ((other, v) ∷ m) =
      ground
        (arith, eq_iff other gone, eq_iff other read, eq_iff gone read, lookup-remove gone read m)

-- A map of texts reads as "" where the key is missing.
abbrev pub text_or_empty : Option String → String
text_or_empty none = ""
text_or_empty (some v) = v

abbrev pub read : String → List (String × String) → String
read k m = text_or_empty (lookup k m)

pub read-insert :
    (written k value : String) (m : List (String × String))
    → read k (insert written value m) ≡ (if str_eq written k then value else read k m)
read-insert written k value m =
    rw (lookup-insert written k value m)
      (elim (Bool-cases (str_eq written k)) [ inl e ↦ rw e | inr e ↦ rw e ])

pub read-remove :
    (gone k : String) (m : List (String × String))
    → read k (remove gone m) ≡ (if str_eq gone k then "" else read k m)
read-remove gone k m =
    rw (lookup-remove gone k m) (elim (Bool-cases (str_eq gone k)) [ inl e ↦ rw e | inr e ↦ rw e ])
