-- ===== src/NodeCache/Desired/Capacity.antt =====
-- The check that the desired artifacts fit the cache.
use ai_models.Prelude.{
  ℕ, ◌+◌, ◌%◌, ◌≤◌, ◌<◌, ◌≡◌, ◌∙◌, refl, sym, ap, subst, ◌↔◌, none, List, [], ◌∷◌, ◌++◌, arith,
  if◌then◌else◌, All, ◌⊎◌, inl, inr, Bool-cases,
}
use mathlib.Core.List.{append_assoc, append-nil}
use ai_models.Prelude.Text.{str_eq_comm}
use ai_models.Prelude.Int64.{modulus, half, lt64, le64}
use ai_models.Prelude.Assoc.{lookup, lookup-insert}
use ai_models.NodeCache.Desired.{
  DesiredArtifact, ok, Seen, trimmed, first, add_trimmed, normalize_loop,
  normalize_desired_artifacts, insert_by_digest, sort_by_digest, sum_sizes, required_size_bytes,
  first_unsized, check_fits, validate_desired_artifacts_fit,
}
use ai_models.NodeCache.Desired.Lookup.{find, DigestsDistinct}
use ai_models.NodeCache.Desired.Clean.{IsClean}
use ai_models.NodeCache.Desired.Normal.{Normalized, normalize_desired_artifacts-Normalized}

-- The bytes of the artifacts whose size is known.
unfoldable pub total_size : List DesiredArtifact → ℕ
total_size [] = 0
total_size (a ∷ xs) = total_size xs + (if lt64 0 a.size_bytes then a.size_bytes else 0)

sum_sizes-eq : (xs : List DesiredArtifact) → sum_sizes xs ≡ total_size xs % modulus
unfolding sum_sizes total_size
sum_sizes-eq [] = refl
sum_sizes-eq (a ∷ xs) = ground (arith, sum_sizes-eq xs)

total-insert_by_digest :
    (a : DesiredArtifact) (xs : List DesiredArtifact)
    → total_size (insert_by_digest a xs) ≡ total_size (a ∷ xs)
unfolding total_size insert_by_digest
total-insert_by_digest a [] = refl
total-insert_by_digest a (b ∷ xs) = ground (arith, total-insert_by_digest a xs)

total-sort_by_digest : (xs : List DesiredArtifact) → total_size (sort_by_digest xs) ≡ total_size xs
unfolding total_size sort_by_digest
total-sort_by_digest [] = refl
total-sort_by_digest (a ∷ xs) =
    omega (arith, total-insert_by_digest a (sort_by_digest xs), total-sort_by_digest xs)

trimmed_clean : (a : DesiredArtifact) → IsClean a → trimmed a ≡ a
trimmed_clean a c = ground arith

new-first :
    (s : Seen) (a : DesiredArtifact) (xs : List DesiredArtifact)
    → find a.digest xs ≡ none
    → All (λ b. lookup b.digest s.seen ≡ none) xs
    → All (λ b. lookup b.digest (first s a).seen ≡ none) xs
new-first s a [] d n = tt
new-first s a (b ∷ xs) d n = (
  ground (arith, lookup-insert a.digest b.digest a s.seen, str_eq_comm a.digest b.digest),
  new-first s a xs (ground arith) n.1,
)

add_clean :
    (s : Seen) (a : DesiredArtifact)
    → IsClean a
    → lookup a.digest s.seen ≡ none
    → add_trimmed s (trimmed a) ≡ ok (first s a)
unfolding add_trimmed
add_clean s a c n =
    let direct : add_trimmed s a ≡ ok (first s a) = rw (c.has_uri, c.has_digest, n) in
    subst (λ b. add_trimmed s b ≡ ok (first s a)) (sym (trimmed_clean a c)) direct

-- The loop over clean artifacts with new, distinct digests appends them.
normalize_loop_clean :
    (s : Seen) (xs : List DesiredArtifact)
    → All IsClean xs
    → DigestsDistinct xs
    → All (λ a. lookup a.digest s.seen ≡ none) xs
    → (t : Seen) × (normalize_loop s xs ≡ ok t) × (t.normalized ≡ s.normalized ++ xs)
unfolding normalize_loop
normalize_loop_clean s [] c d n = (s, refl, sym (append-nil s.normalized))
normalize_loop_clean s (a ∷ xs) c d n =
    let (t, e, p) = normalize_loop_clean (first s a) xs c.1 d.1 (new-first s a xs d.0 n.1) in
    (t, rw (add_clean s a c.0 n.0) e, p ∙ append_assoc s.normalized (a ∷ []) xs)

All-new :
    (xs : List DesiredArtifact) → All (λ a. lookup {V = DesiredArtifact} a.digest [] ≡ none) xs
unfolding lookup
All-new [] = tt
All-new (a ∷ xs) = (refl, All-new xs)

-- Of a list that is normalized already, the required bytes are the bytes of the list.
required_clean :
    (xs ys : List DesiredArtifact)
    → Normalized xs ys
    → required_size_bytes ys ≡ total_size ys % modulus
unfolding required_size_bytes normalize_desired_artifacts
required_clean xs ys v =
    let (t, e, p) =
      normalize_loop_clean (record { seen = []; normalized = [] }) ys v.clean v.distinct
        (All-new ys) in
    let normalized : normalize_desired_artifacts ys ≡ ok (sort_by_digest t.normalized) =
      rw (e, normalize_desired_artifacts) in
    rw (normalized, required_size_bytes)
      (sum_sizes-eq (sort_by_digest t.normalized)
        ∙ ap (λ n. n % modulus) (total-sort_by_digest t.normalized ∙ ap total_size p))

normalize_nil : (ys : List DesiredArtifact) → normalize_desired_artifacts [] ≡ ok ys → ys ≡ []
unfolding normalize_desired_artifacts normalize_loop sort_by_digest
normalize_nil ys h = cc

-- A size as it is stored, and one that is known: above 0 as an int64.
abbrev pub IsWord : DesiredArtifact → Type 0
IsWord a = a.size_bytes < modulus

abbrev pub IsSized : DesiredArtifact → Type 0
IsSized a = (0 < a.size_bytes) × (a.size_bytes < half)

first_unsized_iff :
    (ys : List DesiredArtifact) → All IsWord ys → (first_unsized ys ≡ none) ↔ All IsSized ys
unfolding first_unsized
first_unsized_iff [] w = (λ h. tt, λ h. refl)
first_unsized_iff (a ∷ ys) w = ground (arith, first_unsized_iff ys w.1)

-- Behind the guard on the limit.
check_fits_iff :
    (limit : ℕ) (xs ys : List DesiredArtifact)
    → limit < half
    → Normalized xs ys
    → All IsWord ys
    → total_size ys < half
    → (check_fits limit ys ≡ none) ↔ (All IsSized ys × (total_size ys ≤ limit))
check_fits_iff limit xs ys h v w fits =
    ground (arith, required_clean xs ys v, first_unsized_iff ys w)

-- Where the artifacts normalize to a list whose sizes are int64 patterns and whose positive sizes have
-- a sum that fits an int64, the check passes exactly when the limit, an int64 pattern, is 0 or
-- negative, or each of the list's sizes is above 0 and their sum is within the limit.
pub validate_fit_exact :
    (limit : ℕ) (xs ys : List DesiredArtifact)
    → limit < modulus
    → normalize_desired_artifacts xs ≡ ok ys
    → All IsWord ys
    → total_size ys < half
    → (validate_desired_artifacts_fit limit xs ≡ none)
      ↔ ((limit ≡ 0) ⊎ ((half ≤ limit) ⊎ (All IsSized ys × (total_size ys ≤ limit))))
unfolding validate_desired_artifacts_fit total_size
validate_fit_exact limit [] ys word e w fits = ground (arith, normalize_nil ys e)
validate_fit_exact limit (a ∷ xs) ys word e w fits = elim (Bool-cases (le64 limit 0)) [
  | inl unlimited ↦ rw unlimited (ground arith)
  | inr limited ↦
      rw (limited, e)
        (ground (
          arith,
          check_fits_iff limit (a ∷ xs) ys (ground arith)
              (normalize_desired_artifacts-Normalized (a ∷ xs) ys e) w fits,
        ))
]
