-- ===== src/Publication/Observe.antt =====
-- From a runtime's handle to an observation, and to what is written to the model:
-- images/controller/internal/application/publishobserve, over the handles of
-- images/controller/internal/ports/publishop/ports.go. `json.Unmarshal` is a parameter, as it is for the
-- decoders; an expiry is compared with the argument `now`.
pub mod Mutation
pub mod Errors
pub mod Total
pub mod Success
use ai_models.Prelude.{
  ℕ, String, Bool, true, false, not, ◌&&◌, ◌||◌, Option, none, some, if◌then◌else◌, leb,
}
use ai_models.Prelude.Text.{is_empty, trim_space, lower_contains}
use ai_models.Prelude.Int64.{lt64}
use ai_models.Publication.Handle.{Handle, UploadStagingHandle, Kind, Result, ok, err, decode}
use ai_models.Publication.Snapshot.{Snapshot, Identity, ArtifactResult, decode_result}
use ai_models.Publication.Conditions.{ConditionSetter}
use ai_models.Publication.Status.{ModelStatus, ModelUploadStatus}
use ai_models.Publication.Project.{
  OperationPhase, RuntimeState, RuntimeKind, OperationStatusView, Observation, Projection,
  project_status,
}
use ai_models.Publication.Runtime.{
  PublicationSuccess, SourceWorkerObservation, SourceWorkerDecision, UploadSessionObservation,
  UploadSessionDecision, observe_source_worker, observe_upload_session,
}

-- The phase of a pod; `pod_other` stands for every text but the two.
pub data PodPhase : Type 0 where
  pod_succeeded pod_failed : PodPhase
  pod_other : String → PodPhase

pub record SourceWorkerHandle : Type 0 where
  pub name : String
  pub phase : PodPhase
  pub termination_message : String
  pub progress_reason : String
  pub progress : String
  pub progress_message : String

pub record UploadSessionHandle : Type 0 where
  pub worker_name : String
  pub phase : PodPhase
  pub termination_message : String
  pub progress : String
  pub upload_status : ModelUploadStatus

pub record RuntimeObservationDecision : Type 0 where
  pub observation : Observation
  pub delete_runtime : Bool

abbrev pub no_observation : Observation
no_observation = record {
  phase = OperationPhase.other "";
  runtime_kind = RuntimeKind.other "";
  condition_reason = "";
  message = "";
  progress = "";
  upload = none;
  snapshot = none;
  cleanup_handle = none;
}

-- `storagecapacity.IsInsufficientStorageMessage`.
unfoldable pub is_insufficient_storage_message : String → Bool
is_insufficient_storage_message message =
    lower_contains (trim_space message) "artifact storage capacity exceeded"

unfoldable pub failed_observation : String → Observation
failed_observation message = record no_observation {
  phase = OperationPhase.failed;
  condition_reason =
      if is_insufficient_storage_message message
      then "InsufficientStorage"
      else "PublicationFailed";
  message = message;
}

abbrev pub default_failure_message : String → String → String
default_failure_message message fallback =
    if is_empty (trim_space message) then fallback else trim_space message

unfoldable pub source_worker_interrupted : String → Bool
source_worker_interrupted message =
    lower_contains (trim_space message) "context canceled"
    || lower_contains (trim_space message) "signal: terminated"

unfoldable pub interrupted_source_worker_decision : SourceWorkerHandle → RuntimeObservationDecision
interrupted_source_worker_decision h = record {
  observation = record no_observation {
    phase = OperationPhase.running;
    runtime_kind = RuntimeKind.source_worker;
    condition_reason = if is_empty h.progress_reason then "Publishing" else h.progress_reason;
    progress = trim_space h.progress;
    message =
        if is_empty (trim_space h.progress_message)
        then "source worker was interrupted; retrying publication from saved state"
        else trim_space h.progress_message;
  };
  delete_runtime = true;
}

unfoldable pub map_source_worker_decision :
    SourceWorkerDecision → String → String → String → Result RuntimeObservationDecision
map_source_worker_decision d reason progress message = elim d.success [
  | some success ↦ ok (record {
    observation = record no_observation {
      phase = OperationPhase.succeeded;
      runtime_kind = RuntimeKind.source_worker;
      snapshot = some success.snapshot;
      cleanup_handle = some success.cleanup_handle;
    };
    delete_runtime = d.delete_worker;
  })
  | none ↦
      if not (is_empty d.fail_message)
      then ok (record {
        observation = failed_observation d.fail_message;
        delete_runtime = d.delete_worker;
      })
      else if d.persist_running || lt64 0 d.requeue_after
      then ok (record {
        observation = record no_observation {
          phase = OperationPhase.running;
          runtime_kind = RuntimeKind.source_worker;
          condition_reason = reason;
          progress = progress;
          message = trim_space message;
        };
        delete_runtime = false;
      })
      else err "source worker decision produced no observable state"
]

abbrev pub blank_source_input : SourceWorkerObservation
blank_source_input = record {
  current = record { phase = OperationPhase.other ""; worker_name = "" };
  worker_name = "";
  created = false;
  state = RuntimeState.other "";
  failure = "";
  success = none;
  requeue_after = 0;
}

abbrev pub blank_upload_input : UploadSessionObservation
blank_upload_input = record {
  current = record { phase = OperationPhase.other ""; worker_name = "" };
  worker_name = "";
  created = false;
  state = RuntimeState.other "";
  failure = "";
  staged_handle = none;
  current_upload = none;
  upload_status = none;
  expired = false;
  requeue_after = 0;
}

-- `decodeRuntimeResult`, of a request with this identity.
unfoldable pub decode_runtime_result :
    (String → Result ArtifactResult) → Identity → String → Result PublicationSuccess
decode_runtime_result unmarshal identity raw = elim (decode_result unmarshal raw) [
  | err e ↦ err e
  | ok r ↦ ok (record {
    snapshot = record {
      identity = identity;
      source = r.source;
      artifact = r.artifact;
      resolved = r.resolved;
      result = record { state = "Published"; ready = true };
    };
    cleanup_handle = r.cleanup_handle;
  })
]

abbrev pub staging_of : Handle → Kind → Option UploadStagingHandle → Result Handle
staging_of h Kind.upload_staging (some u) = ok h
staging_of h Kind.upload_staging none =
    err "upload session completed without a valid upload staging handle"
staging_of h Kind.backend_artifact u =
    err "upload session completed without a valid upload staging handle"
staging_of h (Kind.other k) u = err "upload session completed without a valid upload staging handle"

unfoldable pub decode_upload_staging_handle : (String → Result Handle) → String → Result Handle
decode_upload_staging_handle unmarshal raw = elim (decode unmarshal raw) [
  | err e ↦ err e
  | ok h ↦ staging_of h h.kind h.upload_staging
]

-- The input that a completed source worker makes of its result.
abbrev pub completed_source : Result PublicationSuccess → SourceWorkerObservation
completed_source (err e) = record blank_source_input { state = RuntimeState.failed; failure = e }
completed_source (ok success) = record blank_source_input {
  state = RuntimeState.succeeded;
  success = some success;
}

abbrev pub completed_upload : Result Handle → UploadSessionObservation
completed_upload (err e) = record blank_upload_input { state = RuntimeState.failed; failure = e }
completed_upload (ok handle) = record blank_upload_input {
  state = RuntimeState.succeeded;
  staged_handle = some handle;
}

abbrev pub expired_at : Option ℕ → ℕ → Bool
expired_at none now = false
expired_at (some t) now = leb t now

module _ (unmarshal : String → Result ArtifactResult) (identity : Identity) where
  -- The input of the domain's decision, or the decision for an interrupted worker.
  pub source_input : PodPhase → SourceWorkerHandle → Option SourceWorkerObservation
  source_input pod_succeeded h =
      let raw = trim_space h.termination_message in
      if is_empty raw
      then some (record blank_source_input {
        state = RuntimeState.failed;
        failure = "source worker pod completed without a result";
      })
      else some (completed_source (decode_runtime_result unmarshal identity raw))
  source_input pod_failed h =
      if source_worker_interrupted h.termination_message
      then none
      else some (record blank_source_input {
        state = RuntimeState.failed;
        failure = default_failure_message h.termination_message "source worker pod failed";
      })
  source_input (pod_other phase) h =
      some (record blank_source_input { state = RuntimeState.running })

  pub source_decision :
      SourceWorkerHandle → Option SourceWorkerObservation → Result RuntimeObservationDecision
  source_decision h none = ok (interrupted_source_worker_decision h)
  source_decision h (some input) = elim (observe_source_worker input) [
    | err e ↦ err e
    | ok d ↦
        map_source_worker_decision d h.progress_reason (trim_space h.progress)
          (trim_space h.progress_message)
  ]

  -- `ObserveSourceWorker` of the application.
  unfoldable pub observe_source : Option SourceWorkerHandle → Result RuntimeObservationDecision
  unfolding source_input source_decision
  observe_source none = ok (record {
    observation = failed_observation "source worker pod is missing";
    delete_runtime = false;
  })
  observe_source (some h) = source_decision h (source_input h.phase h)

module _ (unmarshal : String → Result Handle) (now : ℕ) where
  pub upload_input : PodPhase → UploadSessionHandle → UploadSessionObservation
  upload_input pod_succeeded h =
      let raw = trim_space h.termination_message in
      if is_empty raw
      then record blank_upload_input {
        state = RuntimeState.failed;
        failure = "upload session completed without a staging result";
      }
      else completed_upload (decode_upload_staging_handle unmarshal raw)
  upload_input pod_failed h = record blank_upload_input {
    state = RuntimeState.failed;
    failure = default_failure_message h.termination_message "upload session failed";
  }
  upload_input (pod_other phase) h = record blank_upload_input {
    state = RuntimeState.running;
    upload_status = some h.upload_status;
    expired = expired_at h.upload_status.expires_at now;
  }

  pub upload_decision : UploadSessionHandle → UploadSessionDecision → RuntimeObservationDecision
  upload_decision h d = elim d.staged_handle [
    | some staged ↦ record {
      observation = record no_observation {
        phase = OperationPhase.staged;
        runtime_kind = RuntimeKind.upload_session;
        cleanup_handle = some staged;
      };
      delete_runtime = d.delete_session;
    }
    | none ↦
        if not (is_empty d.fail_message)
        then record {
          observation = failed_observation d.fail_message;
          delete_runtime = d.delete_session;
        }
        else record {
          observation = record no_observation {
            phase = OperationPhase.running;
            runtime_kind = RuntimeKind.upload_session;
            progress = h.progress;
            upload = d.upload_status;
          };
          delete_runtime = false;
        }
  ]

  -- `ObserveUploadSession` of the application.
  unfoldable pub observe_upload : Option UploadSessionHandle → Result RuntimeObservationDecision
  unfolding upload_input upload_decision
  observe_upload none = ok (record {
    observation = failed_observation "upload session state is missing";
    delete_runtime = false;
  })
  observe_upload (some h) = elim (observe_upload_session (upload_input h.phase h)) [
    | err e ↦ err e
    | ok d ↦ ok (upload_decision h d)
  ]
