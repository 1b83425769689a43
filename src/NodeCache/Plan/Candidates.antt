-- ===== src/NodeCache/Plan/Candidates.antt =====
-- The candidates that the plan's loops run over, and what allows to take each.
use ai_models.Prelude.{
  ◌+◌, ◌≤◌, ◌<◌, ◌≡◌, refl, inl, inr, String, Bool, true, false, List, arith, Bool-cases, In, All,
  All-of_In, In-All, keep, In-keep,
}
use ai_models.Prelude.Int64.{modulus, lt64, le64}
use ai_models.NodeCache.Plan.{
  Entry, PlanInput, Candidate, CandidateReason, candidate, protected_digest_set,
  is_protected_digest, malformed_test, unused_test, pressure_test, malformed_candidates,
  unused_age_candidates, size_pressure_candidates, sort_slice, larger_first, older_first,
  older_then_larger, entry_last_used,
}
use ai_models.NodeCache.Plan.CandidateReason.{malformed, unused_age, size_pressure}
use ai_models.NodeCache.Plan.Select.{In-sort_slice}

-- What the entry must be like for the plan to take it for the reason.
abbrev pub Allows : PlanInput → CandidateReason → Entry → Type 0
Allows input malformed e = e.ready ≡ false
Allows input unused_age e =
    (e.ready ≡ true)
    × (0 < entry_last_used e)
    × (entry_last_used e + input.max_unused_age ≤ input.now)
Allows input size_pressure e = (e.ready ≡ true) × (lt64 0 input.max_total_size_bytes ≡ true)

abbrev pub protects : PlanInput → Entry → Bool
protects input e = is_protected_digest e.digest (protected_digest_set input.protected_digests)

-- The candidate is an entry of the cache that is neither protected nor current, taken for a reason
-- that the entry allows.
abbrev pub Justified : List Entry → PlanInput → Candidate → Type 0
Justified entries input c =
    (e : Entry) × In e entries
    × (c ≡ candidate e c.reason)
    × (protects input e ≡ false)
    × (e.current ≡ false)
    × Allows input c.reason e

-- Every size is an int64 pattern.
abbrev pub Sized : List Entry → Type 0
Sized = All (λ e. e.size_bytes < modulus)

module _ (entries : List Entry) (input : PlanInput) where
  abbrev protected : List String
  protected = protected_digest_set input.protected_digests

  pub malformed-Justified :
      (e : Entry)
      → In e (malformed_candidates entries protected)
      → Justified entries input (candidate e malformed)
  unfolding malformed_candidates
  malformed-Justified e m =
      let (there, passes) =
        In-keep (malformed_test protected) e entries (In-sort_slice larger_first e _ m) in
      (e, there, refl, ground arith, ground arith, ground arith)

  unused-In :
      (e : Entry)
      → In e (unused_age_candidates entries input protected)
      → In e entries × (unused_test input protected e ≡ true)
  unfolding unused_age_candidates
  unused-In e m = elim (Bool-cases (le64 input.max_unused_age 0)) [
    | inl off ↦ absurd (unfold unused_age_candidates in (rw off at m))
    | inr on ↦
        let m' : In e (sort_slice older_first (keep (unused_test input protected) entries)) =
          (unfold unused_age_candidates in (rw on at m)) in
        In-keep (unused_test input protected) e entries (In-sort_slice older_first e _ m')
  ]

  pub unused-Justified :
      (e : Entry)
      → In e (unused_age_candidates entries input protected)
      → Justified entries input (candidate e unused_age)
  unfolding unused_age_candidates
  unused-Justified e m =
      let (there, passes) = unused-In e m in
      (e, there, refl, ground arith, ground arith, (ground arith, ground arith, ground arith))

  pub pressure-Justified :
      (e : Entry)
      → lt64 0 input.max_total_size_bytes ≡ true
      → In e (size_pressure_candidates entries protected)
      → Justified entries input (candidate e size_pressure)
  unfolding size_pressure_candidates
  pressure-Justified e on m =
      let (there, passes) =
        In-keep (pressure_test protected) e entries (In-sort_slice older_then_larger e _ m) in
      (e, there, refl, ground arith, ground arith, (ground arith, on))

  pub malformed-Sized : Sized entries → Sized (malformed_candidates entries protected)
  unfolding malformed_candidates
  malformed-Sized s = All-of_In _ _ (λ e m.
      In-All _ e entries s
        (In-keep (malformed_test protected) e entries (In-sort_slice larger_first e _ m)).0)

  pub unused-Sized : Sized entries → Sized (unused_age_candidates entries input protected)
  unused-Sized s = All-of_In _ _ (λ e m. In-All _ e entries s (unused-In e m).0)

  pub pressure-Sized : Sized entries → Sized (size_pressure_candidates entries protected)
  unfolding size_pressure_candidates
  pressure-Sized s = All-of_In _ _ (λ e m.
      In-All _ e entries s
        (In-keep (pressure_test protected) e entries (In-sort_slice older_then_larger e _ m)).0)
