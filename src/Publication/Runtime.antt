-- ===== src/Publication/Runtime.antt =====
-- What is decided from the state of a publication's runtime:
-- images/controller/internal/domain/publishstate/runtime_decisions.go.
use ai_models.Prelude.{String, Bool, true, false, not, ◌||◌, Option, none, some, if◌then◌else◌}
use ai_models.Prelude.Text.{is_empty, str_eq}
use ai_models.Prelude.Int64.{Int64}
use ai_models.Publication.Handle.{Handle, Result, ok, err}
use ai_models.Publication.Snapshot.{Snapshot}
use ai_models.Publication.Status.{ModelUploadStatus}
use ai_models.Publication.Project.{
  OperationPhase, RuntimeState, OperationStatusView, same_upload_status,
}

pub record PublicationSuccess : Type 0 where
  pub snapshot : Snapshot
  pub cleanup_handle : Handle

pub record SourceWorkerObservation : Type 0 where
  pub current : OperationStatusView
  pub worker_name : String
  pub created : Bool
  pub state : RuntimeState
  pub failure : String
  pub success : Option PublicationSuccess
  pub requeue_after : Int64

pub record SourceWorkerDecision : Type 0 where
  pub persist_running : Bool
  pub running_worker : String
  pub success : Option PublicationSuccess
  pub fail_message : String
  pub delete_worker : Bool
  pub requeue_after : Int64

pub record UploadSessionObservation : Type 0 where
  pub current : OperationStatusView
  pub worker_name : String
  pub created : Bool
  pub state : RuntimeState
  pub failure : String
  pub staged_handle : Option Handle
  pub current_upload : Option ModelUploadStatus
  pub upload_status : Option ModelUploadStatus
  pub expired : Bool
  pub requeue_after : Int64

pub record UploadSessionDecision : Type 0 where
  pub persist_running : Bool
  pub running_worker : String
  pub persist_upload : Bool
  pub upload_status : Option ModelUploadStatus
  pub staged_handle : Option Handle
  pub fail_message : String
  pub delete_session : Bool
  pub requeue_after : Int64

abbrev pub is_running : OperationPhase → Bool
is_running OperationPhase.running = true
is_running _ = false

-- The running state is to be persisted.
abbrev pub news : Bool → OperationStatusView → String → Bool
news created current worker =
    created || not (is_running current.phase) || not (str_eq current.worker_name worker)

-- Go's zero decisions.
abbrev pub no_source_decision : SourceWorkerDecision
no_source_decision = record {
  persist_running = false;
  running_worker = "";
  success = none;
  fail_message = "";
  delete_worker = false;
  requeue_after = 0;
}

abbrev pub no_upload_decision : UploadSessionDecision
no_upload_decision = record {
  persist_running = false;
  running_worker = "";
  persist_upload = false;
  upload_status = none;
  staged_handle = none;
  fail_message = "";
  delete_session = false;
  requeue_after = 0;
}

source_succeeded : Option PublicationSuccess → Result SourceWorkerDecision
source_succeeded none = err "source worker success payload must not be empty"
source_succeeded (some success) =
    ok (record no_source_decision { success = some success; delete_worker = true })

-- The `switch` of `ObserveSourceWorker`.
decide_source : RuntimeState → SourceWorkerObservation → Result SourceWorkerDecision
unfolding source_succeeded
decide_source RuntimeState.running o = ok (
    if news o.created o.current o.worker_name
    then record no_source_decision { persist_running = true; running_worker = o.worker_name }
    else no_source_decision)
decide_source RuntimeState.awaiting_result o =
    ok (record no_source_decision { requeue_after = o.requeue_after })
decide_source RuntimeState.succeeded o = source_succeeded o.success
decide_source RuntimeState.failed o =
    if is_empty o.failure
    then err "source worker failure message must not be empty"
    else ok (record no_source_decision { fail_message = o.failure; delete_worker = true })
decide_source (RuntimeState.other state) o = err "source worker entered an unsupported state"

unfoldable pub observe_source_worker : SourceWorkerObservation → Result SourceWorkerDecision
unfolding decide_source
observe_source_worker o = decide_source o.state o

-- The running upload session, unless it has expired.
running_upload : UploadSessionObservation → UploadSessionDecision
running_upload o =
    let started = news o.created o.current o.worker_name in
    let fresh = not (same_upload_status o.current_upload o.upload_status) in
    record no_upload_decision {
      persist_running = started;
      running_worker = if started then o.worker_name else "";
      persist_upload = fresh;
      upload_status = if fresh then o.upload_status else none;
      requeue_after = o.requeue_after;
    }

upload_succeeded : Option Handle → Result UploadSessionDecision
upload_succeeded none = err "upload session staging handle must not be empty"
upload_succeeded (some handle) =
    ok (record no_upload_decision { staged_handle = some handle; delete_session = true })

-- The `switch` of `ObserveUploadSession`.
decide_upload : RuntimeState → UploadSessionObservation → Result UploadSessionDecision
unfolding running_upload upload_succeeded
decide_upload RuntimeState.running o =
    if o.expired
    then ok (record no_upload_decision {
      fail_message = "upload session expired before publication completed";
      delete_session = true;
    })
    else ok (running_upload o)
decide_upload RuntimeState.succeeded o = upload_succeeded o.staged_handle
decide_upload RuntimeState.failed o =
    if is_empty o.failure
    then err "upload session failure message must not be empty"
    else ok (record no_upload_decision { fail_message = o.failure; delete_session = true })
decide_upload RuntimeState.awaiting_result o = err "upload session entered an unsupported state"
decide_upload (RuntimeState.other state) o = err "upload session entered an unsupported state"

unfoldable pub observe_upload_session : UploadSessionObservation → Result UploadSessionDecision
unfolding decide_upload
observe_upload_session o = decide_upload o.state o
