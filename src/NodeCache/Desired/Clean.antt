-- ===== src/NodeCache/Desired/Clean.antt =====
-- Clean artifacts, and what the loop of the normalization keeps of them.
use text.Mathlib.TextEquality.{eq_iff}
use ai_models.Prelude.{
  ◌≡◌, ◌∙◌, refl, sym, ◌⊎◌, inl, inr, String, true, false, none, some, List, [], ◌∷◌, arith,
  Bool-cases, All, All-append, is_some,
}
use ai_models.Prelude.Text.{str_eq, is_empty, trim_space, trim_space_idem}
use ai_models.Prelude.Assoc.{lookup, lookup-insert}
use ai_models.NodeCache.Desired.{
  DesiredArtifact, DesiredError, Result, ok, err, Seen, trimmed, updated, first,
  merge_desired_artifact, replace_desired_artifact,
}
use ai_models.NodeCache.Desired.Lookup.{
  find, DigestsDistinct, find-append, find-replace, DigestsDistinct-append, DigestsDistinct-replace,
}

-- An artifact as the loop keeps it: with an URI and a digest, and no space at the ends of its texts.
pub record IsClean (a : DesiredArtifact) : Type 0 where
  pub has_uri : is_empty a.artifact_uri ≡ false
  pub has_digest : is_empty a.digest ≡ false
  pub uri_trimmed : trim_space a.artifact_uri ≡ a.artifact_uri
  pub digest_trimmed : trim_space a.digest ≡ a.digest
  pub family_trimmed : trim_space a.family ≡ a.family

-- `seen` holds the artifacts of `normalized` by their digests, and these are clean and distinct.
pub record Inv (s : Seen) : Type 0 where
  pub agrees : (k : String) → lookup k s.seen ≡ find k s.normalized
  pub distinct : DigestsDistinct s.normalized
  pub clean : All IsClean s.normalized

pub find-IsClean :
    (k : String) (xs : List DesiredArtifact) (a : DesiredArtifact)
    → All IsClean xs
    → find k xs ≡ some a
    → IsClean a
find-IsClean k [] a c h = cc
find-IsClean k (b ∷ xs) a c h = elim (Bool-cases (str_eq b.digest k)) [
  | inl e ↦ ground arith
  | inr e ↦ find-IsClean k xs a c.1 (rw e at h)
]

pub replace-IsClean :
    (xs : List DesiredArtifact) (a : DesiredArtifact)
    → All IsClean xs
    → IsClean a
    → All IsClean (replace_desired_artifact xs a)
unfolding replace_desired_artifact
replace-IsClean [] a c h = tt
replace-IsClean (b ∷ xs) a c h = elim (Bool-cases (str_eq b.digest a.digest)) [
  | inl e ↦ rw e (h, c.1)
  | inr e ↦ rw e (c.0, replace-IsClean xs a c.1 h)
]

-- A merge keeps the digest, and is clean.
pub merge-IsClean :
    (existing artifact : DesiredArtifact) (merged : DesiredArtifact)
    → IsClean existing
    → trim_space artifact.family ≡ artifact.family
    → merge_desired_artifact existing artifact ≡ ok merged
    → IsClean merged × (merged.digest ≡ existing.digest)
unfolding merge_desired_artifact
merge-IsClean existing artifact merged c t h = ground arith

pub updated-Inv :
    (s : Seen) (digest : String) (merged : DesiredArtifact)
    → merged.digest ≡ digest
    → is_some (find digest s.normalized) ≡ true
    → IsClean merged
    → Inv s
    → Inv (updated s digest merged)
updated-Inv s digest merged e there c v = record {
  agrees = λ k.
      ground (
        arith,
        v.agrees k,
        lookup-insert digest k merged s.seen,
        find-replace k s.normalized merged,
      );
  distinct = DigestsDistinct-replace s.normalized merged (rw e there) v.distinct;
  clean = replace-IsClean s.normalized merged v.clean c;
}

pub Result-cases :
    {A : Type 0} (r : Result A) → ((a : A) × (r ≡ ok a)) ⊎ ((e : DesiredError) × (r ≡ err e))
Result-cases (ok a) = inl (a, refl)
Result-cases (err e) = inr (e, refl)

pub first-Inv :
    (s : Seen) (a : DesiredArtifact)
    → lookup a.digest s.seen ≡ none
    → IsClean a
    → Inv s
    → Inv (first s a)
first-Inv s a new c v = record {
  agrees = λ k. ground (
    arith,
    v.agrees k,
    v.agrees a.digest,
    eq_iff a.digest k,
    lookup-insert a.digest k a s.seen,
    find-append k s.normalized a,
  );
  distinct = DigestsDistinct-append s.normalized a v.distinct (sym (v.agrees a.digest) ∙ new);
  clean = All-append IsClean s.normalized (a ∷ []) v.clean (c, tt);
}

pub trimmed-IsClean :
    (a : DesiredArtifact)
    → is_empty (trim_space a.artifact_uri) ≡ false
    → is_empty (trim_space a.digest) ≡ false
    → IsClean (trimmed a)
trimmed-IsClean a u d = record {
  has_uri = u;
  has_digest = d;
  uri_trimmed = trim_space_idem a.artifact_uri;
  digest_trimmed = trim_space_idem a.digest;
  family_trimmed = trim_space_idem a.family;
}
