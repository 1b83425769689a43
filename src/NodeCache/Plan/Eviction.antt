-- ===== src/NodeCache/Plan/Eviction.antt =====
-- What an eviction plan takes from the cache, and what it must take.
use ai_models.Prelude.{
  ℕ, ◌%◌, ◌≡◌, refl, ◌⊎◌, inl, inr, Bool, true, false, not, ◌&&◌, ◌||◌, arith, Bool-cases, In, All,
  All-of_In, keep-In,
}
use ai_models.Prelude.Int64.{modulus, add64, lt64, le64}
use ai_models.Prelude.Assoc.{member}
use ai_models.NodeCache.Plan.{
  Entry, Snapshot, PlanInput, Progress, append_all, append_until_fits, start, planned_by_state,
  relieve_pressure, timed, plan_timed, plan_eviction, protected_digest_set, malformed_test,
  pressure_test, malformed_candidates, size_pressure_candidates, larger_first, older_then_larger,
}
use ai_models.NodeCache.Plan.CandidateReason.{malformed, unused_age}
use ai_models.NodeCache.Plan.Select.{sort_slice-In}
use ai_models.NodeCache.Plan.Loop.{
  has_dir, DirsDistinct, Tracked, append_all-Tracked, append_all-All, append_all_keeps_dirs,
  append_all-has_dir, append_until_fits-Tracked, append_until_fits-All,
  append_until_fits_keeps_dirs, append_until_fits_stops,
}
use ai_models.NodeCache.Plan.Candidates.{
  Justified, Sized, protects, malformed-Justified, unused-Justified, pressure-Justified,
  malformed-Sized, unused-Sized, pressure-Sized,
}

-- Size pressure does not take the entry: it is not ready, it is current, or it is protected.
abbrev pub stays : PlanInput → Entry → Bool
stays input e = not e.ready || e.current || protects input e

or_of : (a b : Bool) → (a ≡ false → b ≡ true) → (a || b) ≡ true
or_of true b h = refl
or_of false b h = h refl

module _ (snapshot : Snapshot) (input : PlanInput) where
  abbrev by_state : Progress
  by_state = planned_by_state snapshot input (protected_digest_set input.protected_digests)

  by_state-Justified : All (Justified snapshot.entries input) by_state.plan.candidates
  unfolding planned_by_state
  by_state-Justified = append_all-All _ _ _ unused_age (unused-Justified snapshot.entries input) (
      append_all-All _ (start snapshot) _ malformed (malformed-Justified snapshot.entries input) tt)

  start-Tracked : Tracked (start snapshot)
  unfolding member
  start-Tracked = record { agrees = λ d. refl; distinct = tt; adds_up = omega arith }

  malformed-Tracked :
      Sized snapshot.entries
      → Tracked (
          append_all
            (start snapshot)
            (malformed_candidates snapshot.entries (protected_digest_set input.protected_digests))
            malformed)
  malformed-Tracked s =
      append_all-Tracked (start snapshot) _ malformed (malformed-Sized snapshot.entries input s)
        start-Tracked

  by_state-Tracked : Sized snapshot.entries → Tracked by_state
  unfolding planned_by_state
  by_state-Tracked s =
      append_all-Tracked _ _ unused_age (unused-Sized snapshot.entries input s)
        (malformed-Tracked s)

  abbrev by_size : Progress
  by_size =
      append_until_fits input.max_total_size_bytes by_state
        (size_pressure_candidates snapshot.entries (protected_digest_set input.protected_digests))

  by_size-Justified :
      lt64 0 input.max_total_size_bytes ≡ true
      → All (Justified snapshot.entries input) by_size.plan.candidates
  by_size-Justified on =
      append_until_fits-All _ _ by_state _ (λ e. pressure-Justified snapshot.entries input e on)
        by_state-Justified

  by_size-Tracked : Sized snapshot.entries → Tracked by_size
  by_size-Tracked s =
      append_until_fits-Tracked _ by_state _ (pressure-Sized snapshot.entries input s)
        (by_state-Tracked s)

  -- The plan is the one or the other.
  abbrev under_pressure : Bool
  under_pressure =
      lt64 0 input.max_total_size_bytes
      && lt64 input.max_total_size_bytes by_state.plan.residual_size_bytes

  plan_cases :
      ((under_pressure ≡ true) × (plan_timed snapshot input ≡ by_size.plan))
      ⊎ ((under_pressure ≡ false) × (plan_timed snapshot input ≡ by_state.plan))
  unfolding plan_timed relieve_pressure
  plan_cases = elim (Bool-cases under_pressure) [
    | inl on ↦ inl (on, rw (on, plan_timed, relieve_pressure))
    | inr off ↦ inr (off, rw (off, plan_timed, relieve_pressure))
  ]

module _ (snapshot : Snapshot) (input : PlanInput) (clock : ℕ) where
  -- Every candidate of the plan is an entry of the cache that is neither protected nor current; an
  -- entry taken as malformed is not ready, one taken for its age is ready, was used and has been
  -- unused for the age at least, and one taken for size is ready and a size limit is set.
  pub plan_eviction-Justified :
      All
        (Justified snapshot.entries (timed input clock))
        (plan_eviction snapshot input clock).candidates
  unfolding plan_eviction
  plan_eviction-Justified = elim (plan_cases snapshot (timed input clock)) [
    | inl (on, e) ↦ rw e (by_size-Justified snapshot (timed input clock) (ground arith))
    | inr (off, e) ↦ rw e (by_state-Justified snapshot (timed input clock))
  ]

  -- Where every size is an int64 pattern, no directory is evicted twice, and the bytes reclaimed
  -- and the bytes left add up to the bytes of the cache, as an int64.
  pub plan_eviction_adds_up :
      Sized snapshot.entries
      → DirsDistinct (plan_eviction snapshot input clock).candidates
        × (add64
              (plan_eviction snapshot input clock).residual_size_bytes
              (plan_eviction snapshot input clock).reclaim_bytes
            ≡ (plan_eviction snapshot input clock).total_size_bytes % modulus)
  unfolding plan_eviction
  plan_eviction_adds_up s = elim (plan_cases snapshot (timed input clock)) [
    | inl (on, e) ↦
        let t = by_size-Tracked snapshot (timed input clock) s in rw e (t.distinct, t.adds_up)
    | inr (off, e) ↦
        let t = by_state-Tracked snapshot (timed input clock) s in rw e (t.distinct, t.adds_up)
  ]

  -- Where every size is an int64 pattern, the directory of every entry that is neither ready,
  -- current nor protected is evicted.
  pub plan_eviction-malformed :
      (e : Entry)
      → Sized snapshot.entries
      → In e snapshot.entries
      → e.ready ≡ false
      → e.current ≡ false
      → protects input e ≡ false
      → has_dir e.destination_dir (plan_eviction snapshot input clock).candidates ≡ true
  unfolding plan_eviction
  plan_eviction-malformed e s m ready current unprotected =
      let i = timed input clock in
      let there : In e
          (malformed_candidates snapshot.entries (protected_digest_set i.protected_digests)) =
        (unfold malformed_candidates in
          (sort_slice-In larger_first e _ (
            keep-In (malformed_test (protected_digest_set i.protected_digests)) e _ m
              (unfold malformed_test in (ground arith))))) in
      let first =
        append_all-has_dir (start snapshot) _ malformed e (malformed-Sized snapshot.entries i s)
          (start-Tracked snapshot i) there in
      let second : has_dir e.destination_dir (by_state snapshot i).plan.candidates ≡ true =
        (unfold planned_by_state in
          (append_all_keeps_dirs _ _ unused_age e.destination_dir first)) in
      elim (plan_cases snapshot i) [
        | inl (on, p) ↦ rw p (append_until_fits_keeps_dirs _ _ _ e.destination_dir second)
        | inr (off, p) ↦ rw p second
      ]

  -- Where every size is an int64 pattern, a positive limit is kept: the bytes that the plan leaves
  -- are within it, as int64, or the plan evicts the directory of every entry but those that are not
  -- ready, current or protected.
  pub plan_eviction_fits :
      Sized snapshot.entries
      → lt64 0 input.max_total_size_bytes ≡ true
      → (le64 (plan_eviction snapshot input clock).residual_size_bytes input.max_total_size_bytes
          ≡ true)
        ⊎ All
            (λ e.
              (stays input e
                || has_dir e.destination_dir (plan_eviction snapshot input clock).candidates)
              ≡ true)
            snapshot.entries
  unfolding plan_eviction
  plan_eviction_fits s positive =
      let i = timed input clock in
      elim (plan_cases snapshot i) [
        | inl (on, p) ↦
            rw p
              (elim (append_until_fits_stops i.max_total_size_bytes (by_state snapshot i) _
                (pressure-Sized snapshot.entries i s) (by_state-Tracked snapshot i s)) [
                  | inl fits ↦ inl fits
                  | inr all ↦ inr (
                      All-of_In _ _ (λ e m. or_of (stays input e) _ (λ evictable. all e (
                        unfold size_pressure_candidates in
                        (sort_slice-In older_then_larger e _ (
                          keep-In (pressure_test (protected_digest_set i.protected_digests)) e _ m
                            (unfold pressure_test in (ground arith))))))))
                ])
        | inr (off, p) ↦ rw p (inl (ground arith))
      ]
