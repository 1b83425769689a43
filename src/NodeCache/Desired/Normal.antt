-- ===== src/NodeCache/Desired/Normal.antt =====
-- What `NormalizeDesiredArtifacts` returns.
use text.Mathlib.TextEquality.{eq_iff}
use ai_models.Prelude.{
  ◌≡◌, ◌∙◌, refl, subst, sym, ap, inl, inr, String, Bool, true, false, Option, none, some, List, [],
  ◌∷◌, arith, if◌then◌else◌, Bool-cases, All, is_some,
}
use ai_models.Prelude.Text.{str_eq_self, str_lt, is_empty, trim_space}
use ai_models.Prelude.Assoc.{lookup}
use ai_models.NodeCache.Desired.{
  DesiredArtifact, ok, Seen, trimmed, updated, first, add_found, merge_desired_artifact, merge_seen,
  add_trimmed, normalize_loop, normalize_desired_artifacts, insert_by_digest, sort_by_digest,
  same_artifact,
}
use ai_models.NodeCache.Desired.Lookup.{
  find, DigestsDistinct, find-digest, find-append, find-replace, find-sort_by_digest,
  sort_by_digest-DigestsDistinct,
}
use ai_models.NodeCache.Desired.Clean.{
  IsClean, Inv, merge-IsClean, updated-Inv, Result-cases, first-Inv, trimmed-IsClean, find-IsClean,
}

-- What one round of the loop leaves: the invariant, the new digest found, and the old ones too.
abbrev Added : Seen → DesiredArtifact → Seen → Type 0
Added s a t =
    Inv t
    × (is_some (find a.digest t.normalized) ≡ true)
    × ((k : String) → is_some (find k s.normalized) ≡ true → is_some (find k t.normalized) ≡ true)

chosen-Added :
    (b : Bool) (s : Seen) (a merged : DesiredArtifact)
    → merged.digest ≡ a.digest
    → is_some (find a.digest s.normalized) ≡ true
    → IsClean merged
    → Inv s
    → Added s a (if b then s else updated s a.digest merged)
chosen-Added true s a merged e there c v = (v, there, λ k h. h)
chosen-Added false s a merged e there c v = (
  updated-Inv s a.digest merged e there c v,
  ground (arith, find-replace a.digest s.normalized merged, eq_iff merged.digest a.digest),
  λ k h. ground (arith, find-replace k s.normalized merged),
)

merge_seen-Added :
    (s : Seen) (existing a : DesiredArtifact) (t : Seen)
    → trim_space a.family ≡ a.family
    → lookup a.digest s.seen ≡ some existing
    → Inv s
    → merge_seen s existing a ≡ ok t
    → Added s a t
unfolding merge_seen
merge_seen-Added s existing a t f there v h =
    elim (Result-cases (merge_desired_artifact existing a)) [
      | inl (merged, e) ↦
          let found : find a.digest s.normalized ≡ some existing =
            sym (v.agrees a.digest) ∙ there in
          let (clean, same) =
            merge-IsClean existing a merged
              (find-IsClean a.digest s.normalized existing v.clean found) f e in
          let digest : merged.digest ≡ a.digest =
            same ∙ find-digest a.digest s.normalized existing found in
          let result : (if same_artifact merged existing then s else updated s a.digest merged)
              ≡ t =
            cc in
          subst (Added s a) result
            (chosen-Added (same_artifact merged existing) s a merged digest (rw found) clean v)
      | inr (e, p) ↦ absurd (cc)
    ]

add_found-Added :
    (s : Seen) (a : DesiredArtifact) (o : Option DesiredArtifact) (t : Seen)
    → lookup a.digest s.seen ≡ o
    → IsClean a
    → Inv s
    → add_found s a o ≡ ok t
    → Added s a t
add_found-Added s a none t new c v h =
    let result : first s a ≡ t = cc in
    subst (Added s a) result (
      first-Inv s a new c v,
      ground (arith, find-append a.digest s.normalized a, str_eq_self a.digest),
      λ k p. ground (arith, find-append k s.normalized a),
    )
add_found-Added s a (some existing) t there c v h =
    merge_seen-Added s existing a t c.family_trimmed there v h

add_trimmed-Added :
    (s : Seen) (raw : DesiredArtifact) (t : Seen)
    → Inv s
    → add_trimmed s (trimmed raw) ≡ ok t
    → Added s (trimmed raw) t
unfolding add_trimmed
add_trimmed-Added s raw t v h = elim (Bool-cases (is_empty (trim_space raw.artifact_uri))) [
  | inl no_uri ↦ absurd (cc)
  | inr uri ↦ elim (Bool-cases (is_empty (trim_space raw.digest))) [
    | inl no_digest ↦ absurd (cc)
    | inr digest ↦
        let reached : add_found s (trimmed raw) (lookup (trim_space raw.digest) s.seen) ≡ ok t =
          ground arith in
        add_found-Added s (trimmed raw) (lookup (trim_space raw.digest) s.seen) t refl
          (trimmed-IsClean raw uri digest) v reached
  ]
]

-- After the loop the invariant holds, and every artifact given is found by its trimmed digest.
normalize_loop-Inv :
    (s : Seen) (xs : List DesiredArtifact) (t : Seen)
    → Inv s
    → normalize_loop s xs ≡ ok t
    → Inv t
      × ((k : String) → is_some (find k s.normalized) ≡ true → is_some (find k t.normalized) ≡ true)
      × All (λ a. is_some (find (trim_space a.digest) t.normalized) ≡ true) xs
unfolding normalize_loop
normalize_loop-Inv s [] t v h =
    let same : s ≡ t = cc in
    (subst Inv same v, (λ k p. subst (λ u. is_some (find k u.normalized) ≡ true) same p), tt)
normalize_loop-Inv s (a ∷ xs) t v h = elim (Result-cases (add_trimmed s (trimmed a))) [
  | inl (next, e) ↦
      let (v', here, kept) = add_trimmed-Added s a next v e in
      let (v'', kept', rest) = normalize_loop-Inv next xs t v' (rw e at h) in
      (v'', λ k p. kept' k (kept k p), (kept' (trim_space a.digest) here, rest))
  | inr (e, p) ↦ absurd (cc)
]

abbrev nothing : Seen
nothing = record { seen = []; normalized = [] }

nothing-Inv : Inv nothing
unfolding lookup
nothing-Inv = record { agrees = λ k. refl; distinct = tt; clean = tt }

-- What `NormalizeDesiredArtifacts` returns has no digest twice, only artifacts with an URI and a digest
-- and no space at the ends of their texts, and one for the digest of each artifact given.
pub record Normalized (xs ys : List DesiredArtifact) : Type 0 where
  pub distinct : DigestsDistinct ys
  pub clean : All IsClean ys
  pub covers : All (λ a. is_some (find (trim_space a.digest) ys) ≡ true) xs

insert_by_digest-IsClean :
    (a : DesiredArtifact) (xs : List DesiredArtifact)
    → IsClean a
    → All IsClean xs
    → All IsClean (insert_by_digest a xs)
unfolding insert_by_digest
insert_by_digest-IsClean a [] c h = (c, tt)
insert_by_digest-IsClean a (b ∷ xs) c h = elim (Bool-cases (str_lt b.digest a.digest)) [
  | inl e ↦ rw e (h.0, insert_by_digest-IsClean a xs c h.1)
  | inr e ↦ rw e (c, (h.0, h.1))
]

sort_by_digest-IsClean :
    (xs : List DesiredArtifact) → All IsClean xs → All IsClean (sort_by_digest xs)
unfolding sort_by_digest
sort_by_digest-IsClean [] h = tt
sort_by_digest-IsClean (a ∷ xs) h =
    insert_by_digest-IsClean a (sort_by_digest xs) h.0 (sort_by_digest-IsClean xs h.1)

covers-sort :
    (xs ys : List DesiredArtifact)
    → DigestsDistinct ys
    → All (λ a. is_some (find (trim_space a.digest) ys) ≡ true) xs
    → All (λ a. is_some (find (trim_space a.digest) (sort_by_digest ys)) ≡ true) xs
covers-sort [] ys d c = tt
covers-sort (a ∷ xs) ys d c =
    (ap is_some (find-sort_by_digest (trim_space a.digest) ys d) ∙ c.0, covers-sort xs ys d c.1)

-- The list that a successful normalization returns has no digest twice, its artifacts are trimmed
-- and have a URI and a digest, and each given artifact's digest, trimmed, is among theirs.
pub normalize_desired_artifacts-Normalized :
    (xs ys : List DesiredArtifact) → normalize_desired_artifacts xs ≡ ok ys → Normalized xs ys
unfolding normalize_desired_artifacts
normalize_desired_artifacts-Normalized xs ys h = elim (Result-cases (normalize_loop nothing xs)) [
  | inl (s, e) ↦
      let (v, kept, covers) = normalize_loop-Inv nothing xs s nothing-Inv e in
      let result : sort_by_digest s.normalized ≡ ys = cc in
      subst (Normalized xs) result (record {
        distinct = sort_by_digest-DigestsDistinct s.normalized v.distinct;
        clean = sort_by_digest-IsClean s.normalized v.clean;
        covers = covers-sort xs s.normalized v.distinct covers;
      })
  | inr (e, p) ↦ absurd (cc)
]
