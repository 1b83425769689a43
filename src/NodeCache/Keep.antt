-- ===== src/NodeCache/Keep.antt =====
-- The desired artifacts against the eviction plan: what a node is asked to hold is not evicted.
use ai_models.Prelude.{
  ◌≡◌, ◌≢◌, All-mono, ◌∙◌, refl, sym, ap, ℕ, String, true, List, [], ◌∷◌, arith, All, In, In-All,
  is_some, map,
}
use ai_models.Prelude.Text.{trim_space}
use ai_models.Prelude.Assoc.{member}
use ai_models.NodeCache.Plan.{
  Snapshot, PlanInput, Candidate, timed, plan_eviction, protected_digest_set, is_protected_digest,
}
use ai_models.NodeCache.Plan.Candidates.{Justified}
use ai_models.NodeCache.Plan.Eviction.{plan_eviction-Justified}
use ai_models.NodeCache.Desired.{
  DesiredArtifact, ok, normalize_desired_artifacts, protected_digests,
}
use ai_models.NodeCache.Desired.Lookup.{find, find-member}
use ai_models.NodeCache.Desired.Clean.{IsClean}
use ai_models.NodeCache.Desired.Normal.{normalize_desired_artifacts-Normalized}

-- The digests of clean artifacts are protected as they stand.
protected_clean :
    (ys : List DesiredArtifact)
    → All IsClean ys
    → protected_digest_set (map (λ a. a.digest) ys) ≡ map (λ a. a.digest) ys
unfolding protected_digest_set
protected_clean [] c = refl
protected_clean (a ∷ ys) c =
    rw (c.0.digest_trimmed, c.0.has_digest) (ap (λ ds. a.digest ∷ ds) (protected_clean ys c.1))

is_protected-member :
    (digest : String) (ds : List String)
    → is_protected_digest digest ds ≡ member (trim_space digest) ds
unfolding is_protected_digest member
is_protected-member digest [] = refl
is_protected-member digest (d ∷ ds) = refl

-- Where the desired artifacts normalize, the digest of each, up to the space at its ends, is protected.
pub protected_digests-covers :
    (xs ys : List DesiredArtifact) (a : DesiredArtifact) (digest : String)
    → normalize_desired_artifacts xs ≡ ok ys
    → In a xs
    → trim_space digest ≡ trim_space a.digest
    → is_protected_digest digest (protected_digest_set (protected_digests xs)) ≡ true
unfolding protected_digests
protected_digests-covers xs ys a digest e m same =
    let v = normalize_desired_artifacts-Normalized xs ys e in
    let there : is_some (find (trim_space a.digest) ys) ≡ true =
      In-All (λ b. is_some (find (trim_space b.digest) ys) ≡ true) a xs v.covers m in
    let set : protected_digests xs ≡ map (λ b. b.digest) ys = rw (e, protected_digests) in
    rw (set, protected_clean ys v.clean, is_protected-member digest (map (λ b. b.digest) ys), same)
      (sym (find-member (trim_space a.digest) ys) ∙ there)

-- Where the desired artifacts normalize and the plan is made with the digests that they protect, no
-- candidate has the digest of a desired artifact, up to the space at their ends.
pub plan_eviction_keeps_desired :
    (snapshot : Snapshot) (input : PlanInput) (clock : ℕ) (xs ys : List DesiredArtifact)
    (a : DesiredArtifact)
    → normalize_desired_artifacts xs ≡ ok ys
    → input.protected_digests ≡ protected_digests xs
    → In a xs
    → All
        (λ c. trim_space c.digest ≢ trim_space a.digest)
        (plan_eviction snapshot input clock).candidates
plan_eviction_keeps_desired snapshot input clock xs ys a e set m =
    All-mono (Justified snapshot.entries (timed input clock)) _
      (plan_eviction snapshot input clock).candidates
      (λ c j same. conflict c j (protected_digests-covers xs ys a c.digest e m same))
      (plan_eviction-Justified snapshot input clock)
  where
    conflict :
        (c : Candidate)
        → Justified snapshot.entries (timed input clock) c
        → is_protected_digest c.digest (protected_digest_set (protected_digests xs)) ≡ true
        → ⊥
    conflict c (entry, there, same, unprotected, current, allowed) p = ground (arith, set)
