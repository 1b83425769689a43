-- ===== src/Publication/Conditions.antt =====
-- The conditions of a model: images/controller/internal/domain/publishstate/conditions_helpers.go, with
-- the texts of api/core/v1alpha1/conditions.go. `meta.SetStatusCondition` of k8s.io/apimachinery is a
-- parameter with its documented behaviour: the condition of that type is set to the new one, and the
-- conditions of other types stay.
use ai_models.Prelude.{
  ℕ, String, Bool, not, ◌||◌, ◌≡◌, List, [], ◌∷◌, Option, none, some, if◌then◌else◌, keep,
}
use ai_models.Prelude.Text.{str_eq}

pub data ConditionStatus : Type 0 where
  condition_true condition_false condition_unknown : ConditionStatus

pub record Condition : Type 0 where
  pub condition_type : String
  pub status : ConditionStatus
  pub reason : String
  pub message : String
  pub observed_generation : ℕ
  pub last_transition_time : ℕ

abbrev pub artifact_resolved : String
artifact_resolved = "ArtifactResolved"

abbrev pub metadata_resolved : String
metadata_resolved = "MetadataResolved"

abbrev pub ready : String
ready = "Ready"

-- What a reader of a condition relies on: all of it but the time of its last transition.
pub record Outcome : Type 0 where
  pub status : ConditionStatus
  pub reason : String
  pub message : String
  pub observed_generation : ℕ

abbrev pub outcome_of : Condition → Outcome
outcome_of c = record {
  status = c.status;
  reason = c.reason;
  message = c.message;
  observed_generation = c.observed_generation;
}

-- The outcome of the first condition of a type.
abbrev pub outcome : String → List Condition → Option Outcome
outcome t [] = none
outcome t (c ∷ cs) = if str_eq c.condition_type t then some (outcome_of c) else outcome t cs

pub record ConditionSetter : Type 0 where
  pub set : List Condition → Condition → List Condition
  pub outcome-set :
      (t : String) (cs : List Condition) (c : Condition)
      → outcome t (set cs c)
        ≡ (if str_eq c.condition_type t then some (outcome_of c) else outcome t cs)

-- The type is one of those that publication sets.
unfoldable pub is_publish_type : String → Bool
is_publish_type t = str_eq t artifact_resolved || str_eq t metadata_resolved || str_eq t ready

unfoldable pub keep_non_publish_conditions : List Condition → List Condition
keep_non_publish_conditions conditions =
    keep (λ c. not (is_publish_type c.condition_type)) conditions

-- `now` is what `metav1.Now()` returns.
module _ (setter : ConditionSetter) (now : ℕ) where
  open setter use {set}

  unfoldable pub set_artifact_resolved_condition :
      List Condition → ℕ → ConditionStatus → String → String → List Condition
  set_artifact_resolved_condition conditions generation status reason message =
      set conditions (record {
        condition_type = artifact_resolved;
        status = status;
        reason = reason;
        message = message;
        observed_generation = generation;
        last_transition_time = now;
      })

  unfoldable pub set_metadata_resolved_condition :
      List Condition → ℕ → ConditionStatus → String → String → List Condition
  set_metadata_resolved_condition conditions generation status reason message =
      set conditions (record {
        condition_type = metadata_resolved;
        status = status;
        reason = reason;
        message = message;
        observed_generation = generation;
        last_transition_time = now;
      })

  unfoldable pub set_ready_condition :
      List Condition → ℕ → ConditionStatus → String → String → List Condition
  set_ready_condition conditions generation status reason message = set conditions (record {
    condition_type = ready;
    status = status;
    reason = reason;
    message = message;
    observed_generation = generation;
    last_transition_time = now;
  })
