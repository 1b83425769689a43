-- ===== src/Deletion.antt =====
-- The deletion of a model: images/controller/internal/application/deletion (finalize_delete.go,
-- ensure_cleanup_finalizer.go). An error is its text; the texts that quote a value take it at the end.
-- A reason is the text of its constant.
pub mod Progress
mod Examples
use ai_models.Prelude.{String, Bool, true, false, ◌++◌, Option, none, some, if◌then◌else◌, not}
use ai_models.Publication.Handle.{Kind, Result, ok, err}

-- `other` stands for every text but the constants.
pub data CleanupOperationState : Type 0 where
  missing complete : CleanupOperationState
  other : String → CleanupOperationState

pub data GarbageCollectionState : Type 0 where
  missing queued requested complete : GarbageCollectionState
  other : String → GarbageCollectionState

pub record FinalizeDeleteInput : Type 0 where
  pub has_finalizer : Bool
  pub handle_found : Bool
  pub handle_err : Option String
  pub handle_kind : Kind
  pub runtime_resource_present : Bool
  pub direct_upload_session : Bool
  pub cleanup_state : CleanupOperationState
  pub garbage_collection_state : GarbageCollectionState

pub record FinalizeDeleteDecision : Type 0 where
  pub remove_finalizer : Bool
  pub delete_runtime_resources : Bool
  pub run_cleanup : Bool
  pub ensure_garbage_collection_request : Bool
  pub delete_garbage_collection_request : Bool
  pub update_status : Bool
  pub status_reason : String
  pub status_message : String
  pub requeue : Bool

-- Go's zero decision.
abbrev pub no_decision : FinalizeDeleteDecision
no_decision = record {
  remove_finalizer = false;
  delete_runtime_resources = false;
  run_cleanup = false;
  ensure_garbage_collection_request = false;
  delete_garbage_collection_request = false;
  update_status = false;
  status_reason = "";
  status_message = "";
  requeue = false;
}

abbrev pub run_cleanup_decision : String → FinalizeDeleteDecision
run_cleanup_decision message = record no_decision {
  run_cleanup = true;
  update_status = true;
  status_reason = "Pending";
  status_message = message;
  requeue = true;
}

abbrev pub pending_runtime_cleanup_decision : Bool → FinalizeDeleteDecision
pending_runtime_cleanup_decision direct_upload_session = record no_decision {
  delete_runtime_resources = true;
  ensure_garbage_collection_request = direct_upload_session;
  update_status = true;
  status_reason = "Pending";
  status_message = "publication runtime resources are still being cleaned up";
  requeue = true;
}

abbrev pub enqueue_garbage_collection_and_remove_finalizer_decision : FinalizeDeleteDecision
enqueue_garbage_collection_and_remove_finalizer_decision = record no_decision {
  ensure_garbage_collection_request = true;
  remove_finalizer = true;
}

abbrev pub remove_finalizer_decision : FinalizeDeleteDecision
remove_finalizer_decision = record no_decision { remove_finalizer = true }

abbrev pub failure_decision : String → String → FinalizeDeleteDecision
failure_decision reason message = record no_decision {
  update_status = true;
  status_reason = reason;
  status_message = message;
  requeue = true;
}

-- `none` where the cleanup is no longer in progress, so that the second result in Go is false.
abbrev pub cleanup_operation_progress_decision :
    CleanupOperationState → String → String → Option FinalizeDeleteDecision
cleanup_operation_progress_decision CleanupOperationState.missing started unsupported =
    some (run_cleanup_decision started)
cleanup_operation_progress_decision CleanupOperationState.complete started unsupported = none
cleanup_operation_progress_decision (CleanupOperationState.other s) started unsupported =
    some (failure_decision "Failed" unsupported)

abbrev pub garbage_collection_progress_decision : GarbageCollectionState → FinalizeDeleteDecision
garbage_collection_progress_decision GarbageCollectionState.missing =
    enqueue_garbage_collection_and_remove_finalizer_decision
garbage_collection_progress_decision GarbageCollectionState.queued = remove_finalizer_decision
garbage_collection_progress_decision GarbageCollectionState.requested = remove_finalizer_decision
garbage_collection_progress_decision GarbageCollectionState.complete = remove_finalizer_decision
garbage_collection_progress_decision (GarbageCollectionState.other s) =
    failure_decision "Failed" "registry garbage collection entered an unsupported state"

abbrev pub or_next : Option FinalizeDeleteDecision → FinalizeDeleteDecision → FinalizeDeleteDecision
or_next (some d) next = d
or_next none next = next

abbrev pub finalize_upload_staging_delete : CleanupOperationState → FinalizeDeleteDecision
finalize_upload_staging_delete cleanup =
    or_next
      (cleanup_operation_progress_decision cleanup "upload staging cleanup operation is running"
        "upload staging cleanup operation entered an unsupported state")
      remove_finalizer_decision

abbrev pub finalize_backend_artifact_delete :
    CleanupOperationState → GarbageCollectionState → FinalizeDeleteDecision
finalize_backend_artifact_delete cleanup collection =
    or_next
      (cleanup_operation_progress_decision cleanup "artifact cleanup operation is running"
        "artifact cleanup operation entered an unsupported state")
      (garbage_collection_progress_decision collection)

-- The `switch` on the handle's kind; the text of the error leaves the kind out.
abbrev pub finalize_kind :
    Kind → CleanupOperationState → GarbageCollectionState → FinalizeDeleteDecision
finalize_kind Kind.backend_artifact cleanup collection =
    finalize_backend_artifact_delete cleanup collection
finalize_kind Kind.upload_staging cleanup collection = finalize_upload_staging_delete cleanup
finalize_kind (Kind.other kind) cleanup collection =
    failure_decision "Failed" "cleanup handle kind is not supported"

-- The part of `FinalizeDelete` behind the test of the handle's error.
abbrev pub finalize_handle : FinalizeDeleteInput → FinalizeDeleteDecision
finalize_handle i =
    if not i.handle_found
    then (if i.runtime_resource_present
        then pending_runtime_cleanup_decision i.direct_upload_session
        else remove_finalizer_decision)
    else finalize_kind i.handle_kind i.cleanup_state i.garbage_collection_state

abbrev pub finalize_checked : Option String → FinalizeDeleteInput → FinalizeDeleteDecision
finalize_checked (some e) i = failure_decision "Failed" "invalid cleanup handle"
finalize_checked none i = finalize_handle i

unfoldable pub finalize_delete : FinalizeDeleteInput → FinalizeDeleteDecision
finalize_delete i = if not i.has_finalizer then no_decision else finalize_checked i.handle_err i

pub record EnsureCleanupFinalizerInput : Type 0 where
  pub has_finalizer : Bool
  pub handle_found : Bool
  pub handle_err : Option String

pub record EnsureCleanupFinalizerDecision : Type 0 where
  pub add_finalizer : Bool
  pub remove_finalizer : Bool

unfoldable pub ensure_cleanup_finalizer :
    EnsureCleanupFinalizerInput → Result EnsureCleanupFinalizerDecision
ensure_cleanup_finalizer i = elim i.handle_err [
  | some e ↦ err e
  | none ↦
      if i.has_finalizer
      then ok (record { add_finalizer = false; remove_finalizer = false })
      else ok (record { add_finalizer = true; remove_finalizer = false })
]
