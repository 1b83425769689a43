-- ===== src/Publication/Ready/Facts.antt =====
-- The facts about a model that a ready status publishes, and what its metadata condition says of them.
use ai_models.Prelude.{
  ℕ, ◌≡◌, refl, sym, ap, ◌∙◌, ◌↔◌, Bool-cases, inl, inr, String, Bool, true, false, not, ◌&&◌, ◌||◌,
  Option, none, some, if◌then◌else◌, arith,
}
use ai_models.Prelude.Text.{is_empty, str_eq}
use ai_models.Prelude.Int64.{lt64}
use ai_models.Publication.Snapshot.{
  Snapshot, ResolvedProfile, ProfileConfidence, reliable_public_fact, low_confidence,
  has_partial_confidence,
}
use ai_models.Publication.Conditions.{
  ConditionSetter, Outcome, outcome, metadata_resolved, set_metadata_resolved_condition,
  set_ready_condition,
}
use ai_models.Publication.Status.{ModelStatus, ModelResolvedStatus}
use ai_models.Publication.Ready.{ready_status, when, metadata_reason}

-- What a status says of a fact, by the fact's confidence: the fact itself where it is exact, derived or
-- declared, and nothing where it is estimated, a hint, or unset.
abbrev pub Shows : {A : Type 0} → ProfileConfidence → (fact nothing shown : A) → Type 0
Shows ProfileConfidence.exact fact nothing shown = shown ≡ fact
Shows ProfileConfidence.derived fact nothing shown = shown ≡ fact
Shows ProfileConfidence.declared fact nothing shown = shown ≡ fact
Shows ProfileConfidence.estimated fact nothing shown = shown ≡ nothing
Shows ProfileConfidence.hint fact nothing shown = shown ≡ nothing
Shows (ProfileConfidence.other c) fact nothing shown = shown ≡ nothing

-- A fact that is there is neither estimated nor a hint.
abbrev pub IsSettled : Bool → ProfileConfidence → Type 0
IsSettled there ProfileConfidence.exact = Unit
IsSettled there ProfileConfidence.derived = Unit
IsSettled there ProfileConfidence.declared = Unit
IsSettled there ProfileConfidence.estimated = there ≡ false
IsSettled there ProfileConfidence.hint = there ≡ false
IsSettled there (ProfileConfidence.other c) = Unit

abbrev pub AllSettled : ResolvedProfile → Type 0
AllSettled r =
    IsSettled (not (is_empty r.task)) r.task_confidence
    × IsSettled (not (is_empty r.family)) r.family_confidence
    × IsSettled (not (is_empty r.architecture)) r.architecture_confidence
    × IsSettled (lt64 0 r.parameter_count) r.parameter_count_confidence
    × IsSettled (not (is_empty r.quantization)) r.quantization_confidence
    × IsSettled (lt64 0 r.context_window_tokens) r.context_window_tokens_confidence

-- The five facts of a profile that a status publishes.
abbrev pub ShowsFacts : ResolvedProfile → Option ModelResolvedStatus → Type 0
ShowsFacts r none = ⊥
ShowsFacts r (some p) =
    Shows r.family_confidence r.family "" p.family
    × Shows r.architecture_confidence r.architecture "" p.architecture
    × Shows r.parameter_count_confidence (when (lt64 0 r.parameter_count) r.parameter_count) none
        p.parameter_count
    × Shows r.quantization_confidence (when (not (is_empty r.quantization)) r.quantization) none
        p.quantization
    × Shows r.context_window_tokens_confidence
        (when (lt64 0 r.context_window_tokens) r.context_window_tokens) none p.context_window_tokens

abbrev pub reason_of : Option Outcome → String
reason_of none = ""
reason_of (some c) = c.reason

text-Shows :
    (s : String) (c : ProfileConfidence) → Shows c s "" (if reliable_public_fact c then s else "")
text-Shows s ProfileConfidence.exact = refl
text-Shows s ProfileConfidence.derived = refl
text-Shows s ProfileConfidence.declared = refl
text-Shows s ProfileConfidence.estimated = refl
text-Shows s ProfileConfidence.hint = refl
text-Shows s (ProfileConfidence.other c) = refl

value-Shows :
    {A : Type 0} (there : Bool) (a : A) (c : ProfileConfidence)
    → Shows c (when there a) none (when (there && reliable_public_fact c) a)
value-Shows true a ProfileConfidence.exact = refl
value-Shows true a ProfileConfidence.derived = refl
value-Shows true a ProfileConfidence.declared = refl
value-Shows true a ProfileConfidence.estimated = refl
value-Shows true a ProfileConfidence.hint = refl
value-Shows true a (ProfileConfidence.other c) = refl
value-Shows false a ProfileConfidence.exact = refl
value-Shows false a ProfileConfidence.derived = refl
value-Shows false a ProfileConfidence.declared = refl
value-Shows false a ProfileConfidence.estimated = refl
value-Shows false a ProfileConfidence.hint = refl
value-Shows false a (ProfileConfidence.other c) = refl

-- One disjunct of `HasPartialConfidence`.
low_confidence_iff :
    (there : Bool) (c : ProfileConfidence)
    → ((there && low_confidence c) ≡ false) ↔ IsSettled there c
low_confidence_iff there ProfileConfidence.exact = ground arith
low_confidence_iff there ProfileConfidence.derived = ground arith
low_confidence_iff there ProfileConfidence.declared = ground arith
low_confidence_iff there ProfileConfidence.estimated = ground arith
low_confidence_iff there ProfileConfidence.hint = ground arith
low_confidence_iff there (ProfileConfidence.other c) = ground arith

-- The reason of the metadata condition is the one that the profile calls for.
ready_status-metadata :
    (setter : ConditionSetter) (now : ℕ) (current : ModelStatus) (generation : ℕ)
    (source_type : String) (snapshot : Snapshot)
    → reason_of (
        outcome metadata_resolved
          (ready_status setter now current generation source_type snapshot).conditions)
      ≡ metadata_reason snapshot.resolved
unfolding ready_status set_ready_condition set_metadata_resolved_condition
ready_status-metadata setter now current generation source_type snapshot =
    rw (setter.outcome-set metadata_resolved) (rw (setter.outcome-set metadata_resolved))

none_of_six :
    (a b c d e f : Bool)
    → ((a || b || c || d || e || f) ≡ false)
      ↔ ((a ≡ false) × (b ≡ false) × (c ≡ false) × (d ≡ false) × (e ≡ false) × (f ≡ false))
none_of_six a b c d e f = ground arith

partial_iff : (r : ResolvedProfile) → (has_partial_confidence r ≡ false) ↔ AllSettled r
unfolding has_partial_confidence
partial_iff r =
    let task = low_confidence_iff (not (is_empty r.task)) r.task_confidence in
    let family = low_confidence_iff (not (is_empty r.family)) r.family_confidence in
    let architecture =
      low_confidence_iff (not (is_empty r.architecture)) r.architecture_confidence in
    let count = low_confidence_iff (lt64 0 r.parameter_count) r.parameter_count_confidence in
    let quantization =
      low_confidence_iff (not (is_empty r.quantization)) r.quantization_confidence in
    let window =
      low_confidence_iff (lt64 0 r.context_window_tokens) r.context_window_tokens_confidence in
    let six = none_of_six _ _ _ _ _ _ in
    (
      λ h.
          let (t, f, a, c, q, w) = six.0 h in
          (task.0 t, family.0 f, architecture.0 a, count.0 c, quantization.0 q, window.0 w),
      λ (t, f, a, c, q, w).
          six.1 (task.1 t, family.1 f, architecture.1 a, count.1 c, quantization.1 q, window.1 w),
    )

other_reasons : ◌≡◌ {A = String} "ModelMetadataPartial" "ModelMetadataCalculated" → ⊥
other_reasons h =
    let no : false ≡ true = ap (λ (t : String). str_eq t "ModelMetadataCalculated") h in absurd (cc)

metadata_reason_iff :
    (r : ResolvedProfile)
    → (metadata_reason r ≡ "ModelMetadataCalculated") ↔ (has_partial_confidence r ≡ false)
metadata_reason_iff r = elim (Bool-cases (has_partial_confidence r)) [
  | inl partial ↦ rw partial (λ h. absurd (other_reasons h), λ h. absurd (cc))
  | inr whole ↦ rw whole (λ h. refl, λ h. refl)
]

-- A ready status publishes a fact as the profile has it where its confidence is exact, derived or
-- declared, and leaves it out where it is estimated, a hint or unset; and the reason of its metadata
-- condition is `ModelMetadataCalculated` exactly when neither the task nor one of these facts that
-- the profile has is estimated or a hint. The facts are the family, the architecture, the number of
-- parameters, the quantization and the context window.
pub ready_status-ShowsFacts :
    (setter : ConditionSetter) (now : ℕ) (current : ModelStatus) (generation : ℕ)
    (source_type : String) (snapshot : Snapshot)
    → ShowsFacts snapshot.resolved
        (ready_status setter now current generation source_type snapshot).resolved
      × ((reason_of (
              outcome metadata_resolved
                (ready_status setter now current generation source_type snapshot).conditions)
            ≡ "ModelMetadataCalculated")
          ↔ AllSettled snapshot.resolved)
unfolding ready_status
ready_status-ShowsFacts setter now current generation source_type snapshot =
    let r = snapshot.resolved in
    let e = ready_status-metadata setter now current generation source_type snapshot in
    let reason = metadata_reason_iff r in
    let settled = partial_iff r in
    (
      (
        text-Shows r.family r.family_confidence,
        text-Shows r.architecture r.architecture_confidence,
        value-Shows (lt64 0 r.parameter_count) r.parameter_count r.parameter_count_confidence,
        value-Shows (not (is_empty r.quantization)) r.quantization r.quantization_confidence,
        value-Shows (lt64 0 r.context_window_tokens) r.context_window_tokens
            r.context_window_tokens_confidence,
      ),
      (λ h. settled.0 (reason.0 (sym e ∙ h)), λ h. e ∙ reason.1 (settled.1 h)),
    )
