-- ===== src/Deletion/Examples.antt =====
-- The deletion of concrete models.
use ai_models.Prelude.{◌≡◌, refl, true, false, not, ◌&&◌, none}
use ai_models.Publication.Handle.{Kind}
use ai_models.Deletion.{
  CleanupOperationState, GarbageCollectionState, FinalizeDeleteInput, finalize_delete,
}
use ai_models.Deletion.Progress.{
  is_complete, is_missing, is_cleaned_up, carried_out, finalize_delete-remove_finalizer,
  finalize_delete_finishes, finalize_delete_collects,
}

abbrev fresh : FinalizeDeleteInput
fresh = record {
  has_finalizer = true;
  handle_found = true;
  handle_err = none;
  handle_kind = Kind.backend_artifact;
  runtime_resource_present = false;
  direct_upload_session = false;
  cleanup_state = CleanupOperationState.missing;
  garbage_collection_state = GarbageCollectionState.missing;
}

abbrev cleaned : FinalizeDeleteInput
cleaned = record fresh { cleanup_state = CleanupOperationState.complete }

finalize_delete-remove_finalizer_example :
    (finalize_delete cleaned).remove_finalizer ≡ (true && not false && is_cleaned_up cleaned)
finalize_delete-remove_finalizer_example = finalize_delete-remove_finalizer cleaned

finalize_delete_finishes_example : (carried_out (carried_out fresh)).has_finalizer ≡ false
finalize_delete_finishes_example = finalize_delete_finishes fresh refl refl refl refl

finalize_delete_collects_example :
    (is_complete CleanupOperationState.complete ≡ true)
    × (is_missing (carried_out cleaned).garbage_collection_state ≡ false)
unfolding finalize_delete
finalize_delete_collects_example = finalize_delete_collects cleaned refl refl refl

runs_cleanup : (finalize_delete fresh).run_cleanup ≡ true
unfolding finalize_delete
runs_cleanup = refl
