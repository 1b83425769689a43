-- ===== src/Publication/Project.antt =====
-- From an observation to the status of a model: images/controller/internal/domain/publishstate
-- (operation.go, status.go).
pub mod Consistent
pub mod Phases
use ai_models.Prelude.{
  ℕ, String, Bool, true, false, not, ◌&&◌, Option, none, some, if◌then◌else◌, ◌==◌,
}
use ai_models.Prelude.Text.{str_eq}
use ai_models.Publication.Handle.{Handle, Result, ok, err}
use ai_models.Publication.Snapshot.{Snapshot}
use ai_models.Publication.Conditions.{ConditionSetter}
use ai_models.Publication.Status.{
  ModelStatus, ModelUploadStatus, publishing_status, pending_upload_status, wait_for_upload_status,
  failed_status,
}
use ai_models.Publication.Ready.{ready_status}

pub data OperationPhase : Type 0 where
  pending running staged failed succeeded : OperationPhase
  other : String → OperationPhase

pub data RuntimeState : Type 0 where
  running awaiting_result succeeded failed : RuntimeState
  other : String → RuntimeState

pub data RuntimeKind : Type 0 where
  source_worker upload_session : RuntimeKind
  other : String → RuntimeKind

pub record OperationStatusView : Type 0 where
  pub phase : OperationPhase
  pub worker_name : String

abbrev pub is_terminal_operation_phase : OperationPhase → Bool
is_terminal_operation_phase OperationPhase.succeeded = true
is_terminal_operation_phase OperationPhase.failed = true
is_terminal_operation_phase _ = false

abbrev pub same_time : Option ℕ → Option ℕ → Bool
same_time none none = true
same_time none (some t) = false
same_time (some t) none = false
same_time (some t) (some u) = t == u

abbrev pub same_upload_status : Option ModelUploadStatus → Option ModelUploadStatus → Bool
same_upload_status none none = true
same_upload_status none (some d) = false
same_upload_status (some c) none = false
same_upload_status (some c) (some d) =
    if not (
      str_eq c.repository d.repository
      && str_eq c.external d.external
      && str_eq c.in_cluster d.in_cluster)
    then false
    else same_time c.expires_at d.expires_at

pub record Observation : Type 0 where
  pub phase : OperationPhase
  pub runtime_kind : RuntimeKind
  pub condition_reason : String
  pub message : String
  pub progress : String
  pub upload : Option ModelUploadStatus
  pub snapshot : Option Snapshot
  pub cleanup_handle : Option Handle

pub record Projection : Type 0 where
  pub status : ModelStatus
  pub requeue : Bool
  pub cleanup_handle : Option Handle

abbrev pub upload_source : String
upload_source = "Upload"

abbrev pub is_upload_session : RuntimeKind → Bool
is_upload_session RuntimeKind.upload_session = true
is_upload_session _ = false

module _ (setter : ConditionSetter) (now : ℕ) where
  unfoldable pub initial_status : ModelStatus → ℕ → String → ModelStatus
  initial_status current generation source_type =
      if str_eq source_type upload_source
      then pending_upload_status setter now current generation source_type "0%" ""
      else publishing_status setter now current generation source_type "Pending" "" ""

  -- `runningStatus` for an upload, by the upload that the observation carries.
  pub running_upload_status :
      ModelStatus → ℕ → String → Observation → Option ModelUploadStatus → ModelStatus
  running_upload_status current generation source_type o (some upload) =
      wait_for_upload_status setter now current generation source_type upload o.progress o.message
  running_upload_status current generation source_type o none =
      if is_upload_session o.runtime_kind
      then pending_upload_status setter now current generation source_type o.progress o.message
      else publishing_status setter now current generation source_type o.condition_reason o.message
          ""

  unfoldable pub running_status : ModelStatus → ℕ → String → Observation → ModelStatus
  unfolding running_upload_status
  running_status current generation source_type o =
      if not (str_eq source_type upload_source)
      then publishing_status setter now current generation source_type o.condition_reason o.message
          o.progress
      else running_upload_status current generation source_type o o.upload

  pub running_projection : ModelStatus → ℕ → String → Observation → Result Projection
  unfolding running_status
  running_projection current generation source_type o = ok (record {
    status = running_status current generation source_type o;
    requeue = true;
    cleanup_handle = none;
  })

  pub succeeded_projection :
      ModelStatus → ℕ → String → Option Snapshot → Option Handle → Result Projection
  succeeded_projection current generation source_type none handle =
      err "publication operation result snapshot must not be empty"
  succeeded_projection current generation source_type (some snapshot) none =
      err "publication operation cleanup handle must not be empty"
  succeeded_projection current generation source_type (some snapshot) (some handle) = ok (record {
    status = ready_status setter now current generation source_type snapshot;
    requeue = false;
    cleanup_handle = some handle;
  })

  pub staged_projection : ModelStatus → ℕ → String → Option Handle → Result Projection
  staged_projection current generation source_type none =
      err "upload staging cleanup handle must not be empty"
  staged_projection current generation source_type (some handle) = ok (record {
    status = publishing_status setter now current generation source_type "Pending" "" "";
    requeue = true;
    cleanup_handle = some handle;
  })

  -- The `switch` of `ProjectStatus`.
  pub project_phase : OperationPhase → ModelStatus → ℕ → String → Observation → Result Projection
  unfolding running_projection staged_projection succeeded_projection
  project_phase OperationPhase.pending current generation source_type o =
      running_projection current generation source_type o
  project_phase OperationPhase.running current generation source_type o =
      running_projection current generation source_type o
  project_phase OperationPhase.staged current generation source_type o =
      staged_projection current generation source_type o.cleanup_handle
  project_phase OperationPhase.failed current generation source_type o = ok (record {
    status = failed_status setter now current generation source_type o.condition_reason o.message;
    requeue = false;
    cleanup_handle = none;
  })
  project_phase OperationPhase.succeeded current generation source_type o =
      succeeded_projection current generation source_type o.snapshot o.cleanup_handle
  project_phase (OperationPhase.other phase) current generation source_type o =
      err "publication operation entered an unsupported phase"

  -- The spec that `ProjectStatus` takes is not read.
  unfoldable pub project_status : ModelStatus → ℕ → String → Observation → Result Projection
  unfolding project_phase
  project_status current generation source_type o =
      project_phase o.phase current generation source_type o
