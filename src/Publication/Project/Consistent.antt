-- ===== src/Publication/Project/Consistent.antt =====
-- What every status that `ProjectStatus` returns has in common.
use ai_models.Prelude.{
  ℕ, ◌≡◌, ◌∙◌, ap, refl, String, Bool, true, false, ◌||◌, Option, none, some, List, [], ◌∷◌,
  if◌then◌else◌, arith, is_some, Bool-cases, inl, inr,
}
use ai_models.Prelude.Text.{str_eq, str_eq→eq, str_eq_comm}
use ai_models.Publication.Snapshot.{Snapshot}
use ai_models.Publication.Conditions.{
  Condition, ConditionSetter, Outcome, condition_true, outcome, artifact_resolved,
  metadata_resolved, ready, is_publish_type, keep_non_publish_conditions,
  set_artifact_resolved_condition, set_metadata_resolved_condition, set_ready_condition,
}
use ai_models.Publication.Status.{
  ModelStatus, ModelPhase, ModelUploadStatus, unready, publishing_status, pending_upload_status,
  wait_for_upload_status, failed_status,
}
use ai_models.Publication.Ready.{ready_status}

abbrev pub is_true : Option Outcome → Bool
is_true none = false
is_true (some record_outcome) = elim record_outcome.status [ condition_true ↦ true | _ ↦ false ]

abbrev pub is_ready : ModelPhase → Bool
is_ready ModelPhase.ready = true
is_ready _ = false

abbrev pub is_waiting : ModelPhase → Bool
is_waiting ModelPhase.wait_for_upload = true
is_waiting _ = false

-- Filtering keeps the outcomes of the other types, and leaves none of the three.
outcome-keep :
    (t : String) (cs : List Condition)
    → outcome t (keep_non_publish_conditions cs)
      ≡ (if is_publish_type t then none else outcome t cs)
unfolding keep_non_publish_conditions
outcome-keep t [] = ground arith
outcome-keep t (c ∷ cs) =
    let ih = outcome-keep t cs in
    elim (Bool-cases (str_eq c.condition_type t)) [
      | inl same ↦
          let e : c.condition_type ≡ t = str_eq→eq c.condition_type t same in
          let agree : is_publish_type c.condition_type ≡ is_publish_type t = ap is_publish_type e in
          ground arith
      | inr other ↦ ground arith
    ]

-- The outcome of a type that publication does not set.
abbrev pub other_outcome : String → List Condition → Option Outcome
other_outcome t conditions = if is_publish_type t then none else outcome t conditions

same_other_outcome :
    (t : String) (xs ys : List Condition)
    → (is_publish_type t ≡ false → outcome t xs ≡ outcome t ys)
    → other_outcome t xs ≡ other_outcome t ys
same_other_outcome t xs ys same = elim (Bool-cases (is_publish_type t)) [
  | inl e ↦ rw e
  | inr e ↦ rw e (same e)
]

-- A status says of the model the same in its phase, its fields and its conditions.
pub record Consistent (current : ModelStatus) (generation : ℕ) (s : ModelStatus) : Type 0 where
  pub observes : s.observed_generation ≡ generation
  pub ready_condition : is_true (outcome ready s.conditions) ≡ is_ready s.phase
  pub artifact_condition : is_true (outcome artifact_resolved s.conditions) ≡ is_ready s.phase
  pub metadata_condition : is_true (outcome metadata_resolved s.conditions) ≡ is_ready s.phase
  pub has_artifact : is_some s.artifact ≡ is_ready s.phase
  pub has_resolved : is_some s.resolved ≡ is_ready s.phase
  pub has_upload : is_some s.upload ≡ is_waiting s.phase
  pub keeps_others :
      (t : String) → other_outcome t s.conditions ≡ other_outcome t current.conditions

none_of_three : (a b c : Bool) → (a || b || c) ≡ false → (a ≡ false) × (b ≡ false) × (c ≡ false)
none_of_three a b c h = ground arith

-- A type of no publication is none of the three.
other_types :
    (t : String)
    → is_publish_type t ≡ false
    → (str_eq artifact_resolved t ≡ false)
      × (str_eq metadata_resolved t ≡ false)
      × (str_eq ready t ≡ false)
unfolding is_publish_type
other_types t h =
    let (a, m, r) =
      none_of_three (str_eq t artifact_resolved) (str_eq t metadata_resolved) (str_eq t ready) h in
    (
      str_eq_comm artifact_resolved t ∙ a,
      str_eq_comm metadata_resolved t ∙ m,
      str_eq_comm ready t ∙ r,
    )

module _ (setter : ConditionSetter) (now : ℕ) where
  open setter use {set, outcome-set}

  module _ (current : ModelStatus) (generation : ℕ) (reason message reason' message' : String) where
    abbrev conditions : List Condition
    conditions = unready setter now current generation reason message reason' message'

    unready-ready : is_true (outcome ready conditions) ≡ false
    unfolding set_ready_condition set_artifact_resolved_condition
    unready-ready = rw (outcome-set ready)

    unready-artifact : is_true (outcome artifact_resolved conditions) ≡ false
    unfolding set_ready_condition set_artifact_resolved_condition
    unready-artifact = rw (outcome-set artifact_resolved) (rw (outcome-set artifact_resolved))

    unready-metadata : is_true (outcome metadata_resolved conditions) ≡ false
    unfolding set_ready_condition set_artifact_resolved_condition is_publish_type
    unready-metadata = rw (outcome-set metadata_resolved) (
        rw (outcome-set metadata_resolved) (rw (outcome-keep metadata_resolved current.conditions)))

    unready-others :
        (t : String)
        → is_publish_type t ≡ false
        → outcome t conditions ≡ outcome t current.conditions
    unfolding set_ready_condition set_artifact_resolved_condition
    unready-others t h =
        let (a, m, r) = other_types t h in
        rw (outcome-set t)
          (rw r (rw (outcome-set t) (rw a (rw (outcome-keep t current.conditions) (rw h)))))

    -- A status with these conditions that is neither ready nor carries a result.
    unready-Consistent :
        (s : ModelStatus)
        → s.observed_generation ≡ generation
        → s.conditions ≡ conditions
        → is_ready s.phase ≡ false
        → is_some s.artifact ≡ false
        → is_some s.resolved ≡ false
        → is_some s.upload ≡ is_waiting s.phase
        → Consistent current generation s
    unready-Consistent s g c p a r u = record {
      observes = g;
      ready_condition = rw (c, p) unready-ready;
      artifact_condition = rw (c, p) unready-artifact;
      metadata_condition = rw (c, p) unready-metadata;
      has_artifact = rw p a;
      has_resolved = rw p r;
      has_upload = u;
      keeps_others = λ t.
          same_other_outcome t s.conditions current.conditions (λ h. rw c (unready-others t h));
    }

  module _ (current : ModelStatus) (generation : ℕ) where
    pub publishing-Consistent :
        (source_type reason message progress : String)
        → Consistent current generation
            (publishing_status setter now current generation source_type reason message progress)
    unfolding publishing_status
    publishing-Consistent source_type reason message progress =
        unready-Consistent current generation _ _ _ _
          (publishing_status setter now current generation source_type reason message progress) refl
          refl refl refl refl refl

    pub pending-Consistent :
        (source_type progress message : String)
        → Consistent current generation
            (pending_upload_status setter now current generation source_type progress message)
    unfolding pending_upload_status
    pending-Consistent source_type progress message =
        unready-Consistent current generation _ _ _ _
          (pending_upload_status setter now current generation source_type progress message) refl
          refl refl refl refl refl

    pub wait-Consistent :
        (source_type : String) (upload : ModelUploadStatus) (progress message : String)
        → Consistent current generation (
            wait_for_upload_status setter now current generation source_type upload progress
              message)
    unfolding wait_for_upload_status
    wait-Consistent source_type upload progress message =
        unready-Consistent current generation _ _ _ _
          (wait_for_upload_status setter now current generation source_type upload progress message)
          refl refl refl refl refl refl

    pub failed-Consistent :
        (source_type reason message : String)
        → Consistent current generation
            (failed_status setter now current generation source_type reason message)
    unfolding failed_status
    failed-Consistent source_type reason message =
        unready-Consistent current generation _ _ _ _
          (failed_status setter now current generation source_type reason message) refl refl refl
          refl refl refl

    pub ready-Consistent :
        (source_type : String) (snapshot : Snapshot)
        → Consistent current generation
            (ready_status setter now current generation source_type snapshot)
    unfolding ready_status set_ready_condition set_artifact_resolved_condition
        set_metadata_resolved_condition
    ready-Consistent source_type snapshot = record {
      observes = refl;
      ready_condition = rw (outcome-set ready);
      artifact_condition =
          rw (outcome-set artifact_resolved)
            (rw (outcome-set artifact_resolved) (rw (outcome-set artifact_resolved)));
      metadata_condition = rw (outcome-set metadata_resolved) (rw (outcome-set metadata_resolved));
      has_artifact = refl;
      has_resolved = refl;
      has_upload = refl;
      keeps_others = λ t. same_other_outcome t _ current.conditions (λ h.
          let (a, m, r) = other_types t h in
          rw (outcome-set t) (
            rw r (
              rw (outcome-set t) (
                rw m
                  (rw (outcome-set t) (rw a (rw (outcome-keep t current.conditions) (rw h))))))));
    }
