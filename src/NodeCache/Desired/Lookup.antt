-- ===== src/NodeCache/Desired/Lookup.antt =====
-- The artifacts of a list by their digests.
use text.Mathlib.TextEquality.{eq_iff}
use ai_models.Prelude.{
  ◌≡◌, ◌∙◌, refl, String, true, Option, none, some, List, [], ◌∷◌, ◌++◌, arith, if◌then◌else◌,
  is_some, map,
}
use ai_models.Prelude.Text.{str_eq}
use ai_models.Prelude.Assoc.{member}
use ai_models.NodeCache.Desired.{
  DesiredArtifact, replace_desired_artifact, insert_by_digest, sort_by_digest,
}

abbrev pub find : String → List DesiredArtifact → Option DesiredArtifact
find k [] = none
find k (a ∷ xs) = if str_eq a.digest k then some a else find k xs

-- No digest stands twice.
abbrev pub DigestsDistinct : List DesiredArtifact → Type 0
DigestsDistinct [] = Unit {0}
DigestsDistinct (a ∷ xs) = (find a.digest xs ≡ none) × DigestsDistinct xs

pub find-digest :
    (k : String) (xs : List DesiredArtifact) (a : DesiredArtifact)
    → find k xs ≡ some a
    → a.digest ≡ k
find-digest k [] a h = cc
find-digest k (b ∷ xs) a h = ground (arith, eq_iff b.digest k, find-digest k xs a)

pub find-append :
    (k : String) (xs : List DesiredArtifact) (a : DesiredArtifact)
    → find k (xs ++ a ∷ [])
      ≡ (if is_some (find k xs) then find k xs else if str_eq a.digest k then some a else none)
find-append k [] a = refl
find-append k (b ∷ xs) a = ground (arith, find-append k xs a)

pub find-replace :
    (k : String) (xs : List DesiredArtifact) (a : DesiredArtifact)
    → is_some (find a.digest xs) ≡ true
    → find k (replace_desired_artifact xs a) ≡ (if str_eq a.digest k then some a else find k xs)
unfolding replace_desired_artifact
find-replace k [] a h = cc
find-replace k (b ∷ xs) a h =
    ground
      (arith, eq_iff b.digest a.digest, eq_iff a.digest k, eq_iff b.digest k, find-replace k xs a)

pub DigestsDistinct-append :
    (xs : List DesiredArtifact) (a : DesiredArtifact)
    → DigestsDistinct xs
    → find a.digest xs ≡ none
    → DigestsDistinct (xs ++ a ∷ [])
DigestsDistinct-append [] a d h = (refl, tt)
DigestsDistinct-append (b ∷ xs) a d h = ground (
  arith,
  eq_iff b.digest a.digest,
  eq_iff a.digest b.digest,
  find-append b.digest xs a,
  DigestsDistinct-append xs a d.1,
)

pub DigestsDistinct-replace :
    (xs : List DesiredArtifact) (a : DesiredArtifact)
    → is_some (find a.digest xs) ≡ true
    → DigestsDistinct xs
    → DigestsDistinct (replace_desired_artifact xs a)
unfolding replace_desired_artifact
DigestsDistinct-replace [] a h d = cc
DigestsDistinct-replace (b ∷ xs) a h d = ground (
  arith,
  eq_iff b.digest a.digest,
  eq_iff a.digest b.digest,
  find-replace b.digest xs a,
  DigestsDistinct-replace xs a,
)

-- Sorting changes no lookup where the digests are distinct.
pub find-insert_by_digest :
    (k : String) (a : DesiredArtifact) (xs : List DesiredArtifact)
    → find a.digest xs ≡ none
    → find k (insert_by_digest a xs) ≡ (if str_eq a.digest k then some a else find k xs)
unfolding insert_by_digest
find-insert_by_digest k a [] h = refl
find-insert_by_digest k a (b ∷ xs) h = ground (
  arith,
  eq_iff b.digest k,
  eq_iff a.digest k,
  eq_iff b.digest a.digest,
  find-insert_by_digest k a xs,
)

pub find-sort_by_digest :
    (k : String) (xs : List DesiredArtifact)
    → DigestsDistinct xs
    → find k (sort_by_digest xs) ≡ find k xs
unfolding sort_by_digest
find-sort_by_digest k [] d = refl
find-sort_by_digest k (a ∷ xs) d = ground (
  arith,
  find-insert_by_digest k a (sort_by_digest xs),
  find-sort_by_digest a.digest xs d.1,
  find-sort_by_digest k xs d.1,
)

DigestsDistinct-insert_by_digest :
    (a : DesiredArtifact) (xs : List DesiredArtifact)
    → find a.digest xs ≡ none
    → DigestsDistinct xs
    → DigestsDistinct (insert_by_digest a xs)
unfolding insert_by_digest
DigestsDistinct-insert_by_digest a [] h d = (refl, tt)
DigestsDistinct-insert_by_digest a (b ∷ xs) h d = ground (
  arith,
  eq_iff a.digest b.digest,
  eq_iff b.digest a.digest,
  find-insert_by_digest b.digest a xs,
  DigestsDistinct-insert_by_digest a xs,
)

pub sort_by_digest-DigestsDistinct :
    (xs : List DesiredArtifact) → DigestsDistinct xs → DigestsDistinct (sort_by_digest xs)
unfolding sort_by_digest
sort_by_digest-DigestsDistinct [] d = tt
sort_by_digest-DigestsDistinct (a ∷ xs) d =
    DigestsDistinct-insert_by_digest a (sort_by_digest xs)
      (find-sort_by_digest a.digest xs d.1 ∙ d.0) (sort_by_digest-DigestsDistinct xs d.1)

pub find-member :
    (k : String) (xs : List DesiredArtifact)
    → is_some (find k xs) ≡ member k (map (λ a. a.digest) xs)
unfolding member
find-member k [] = refl
find-member k (a ∷ xs) = ground (arith, find-member k xs)
