-- ===== src/Publication/Status.antt =====
-- The status of a model that is not ready: images/controller/internal/domain/publishstate/conditions.go,
-- over the types of api/core/v1alpha1/types.go. A source type, a reason and a progress are texts.
use ai_models.Prelude.{ℕ, String, List, Option, none, some, if◌then◌else◌}
use ai_models.Prelude.Text.{is_empty, trim_space}
use ai_models.Prelude.Int64.{Int64}
use ai_models.Publication.Conditions.{
  Condition, ConditionSetter, condition_false, keep_non_publish_conditions,
  set_artifact_resolved_condition, set_ready_condition,
}

pub data ModelPhase : Type 0 where
  pending wait_for_upload publishing ready failed deleting : ModelPhase

pub record ResolvedSourceStatus : Type 0 where
  pub resolved_type : String
  pub resolved_revision : String

pub record ModelUploadStatus : Type 0 where
  pub expires_at : Option ℕ
  pub repository : String
  pub external : String
  pub in_cluster : String

pub record ModelArtifactStatus : Type 0 where
  pub kind : String
  pub uri : String
  pub digest : String
  pub media_type : String
  pub size_bytes : Option Int64

pub record ModelSourceCapabilities : Type 0 where
  pub provider : String
  pub tasks : List String
  pub features : List String

pub record ModelResolvedStatus : Type 0 where
  pub source_capabilities : Option ModelSourceCapabilities
  pub family : String
  pub architecture : String
  pub format : String
  pub parameter_count : Option Int64
  pub quantization : Option String
  pub context_window_tokens : Option Int64
  pub supported_endpoint_types : List String
  pub supported_features : List String

pub record ModelStatus : Type 0 where
  pub observed_generation : ℕ
  pub phase : ModelPhase
  pub progress : String
  pub source : Option ResolvedSourceStatus
  pub upload : Option ModelUploadStatus
  pub artifact : Option ModelArtifactStatus
  pub resolved : Option ModelResolvedStatus
  pub conditions : List Condition

abbrev pub default_running_message : String → String → String
default_running_message message fallback =
    if is_empty (trim_space message) then fallback else trim_space message

abbrev pub default_upload_progress : String → String
default_upload_progress progress =
    if is_empty (trim_space progress) then "0%" else trim_space progress

abbrev pub source_of : String → Option ResolvedSourceStatus
source_of source_type = some (record { resolved_type = source_type; resolved_revision = "" })

module _ (setter : ConditionSetter) (now : ℕ) where
  -- The two conditions that every status of this file sets, over those of the current status that
  -- publication does not set.
  abbrev pub unready : ModelStatus → ℕ → String → String → String → String → List Condition
  unready current generation artifact_reason artifact_message ready_reason ready_message =
      set_ready_condition setter now
        (set_artifact_resolved_condition setter now (keep_non_publish_conditions current.conditions)
          generation condition_false artifact_reason artifact_message)
        generation condition_false ready_reason ready_message

  unfoldable pub publishing_status :
      ModelStatus → ℕ → String → String → String → String → ModelStatus
  publishing_status current generation source_type given message progress =
      let reason = if is_empty given then "Pending" else given in
      record {
        observed_generation = generation;
        phase = publishing;
        progress = trim_space progress;
        source = source_of source_type;
        upload = none;
        artifact = none;
        resolved = none;
        conditions =
            unready current generation reason
              (default_running_message message "controller is publishing the model artifact") reason
              (default_running_message message "model publication is in progress");
      }

  unfoldable pub pending_upload_status : ModelStatus → ℕ → String → String → String → ModelStatus
  pending_upload_status current generation source_type progress message = record {
    observed_generation = generation;
    phase = pending;
    progress = default_upload_progress progress;
    source = source_of source_type;
    upload = none;
    artifact = none;
    resolved = none;
    conditions =
        unready current generation "Pending"
          (default_running_message message "controller is preparing the upload publication flow")
          "Pending"
          (default_running_message message
            "model is not ready until the upload publication flow starts");
  }

  unfoldable pub wait_for_upload_status :
      ModelStatus → ℕ → String → ModelUploadStatus → String → String → ModelStatus
  wait_for_upload_status current generation source_type upload progress message = record {
    observed_generation = generation;
    phase = wait_for_upload;
    progress = default_upload_progress progress;
    source = source_of source_type;
    upload = some upload;
    artifact = none;
    resolved = none;
    conditions =
        unready current generation "WaitingForUserUpload"
          (default_running_message message
            "controller prepared an upload session and is waiting for the user upload")
          "Pending"
          (default_running_message message
            "model is waiting for a user upload before publication can continue");
  }

  unfoldable pub failed_status : ModelStatus → ℕ → String → String → String → ModelStatus
  failed_status current generation source_type given message = record {
    observed_generation = generation;
    phase = failed;
    progress = "";
    source = if is_empty (trim_space source_type) then none else source_of source_type;
    upload = none;
    artifact = none;
    resolved = none;
    conditions =
        unready current generation (if is_empty given then "PublicationFailed" else given) message
          "Failed" message;
  }
