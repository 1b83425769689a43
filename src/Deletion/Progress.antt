-- ===== src/Deletion/Progress.antt =====
-- What a deletion takes until the finalizer is removed.
use ai_models.Prelude.{◌≡◌, Bool, true, false, not, ◌&&◌, ◌||◌, none, if◌then◌else◌, arith, is_some}
use ai_models.Publication.Handle.{Kind}
use ai_models.Deletion.{
  CleanupOperationState, GarbageCollectionState, FinalizeDeleteInput, finalize_delete,
}

abbrev pub is_complete : CleanupOperationState → Bool
is_complete CleanupOperationState.complete = true
is_complete _ = false

abbrev pub is_known_cleanup : CleanupOperationState → Bool
is_known_cleanup (CleanupOperationState.other s) = false
is_known_cleanup _ = true

abbrev pub is_known_collection : GarbageCollectionState → Bool
is_known_collection (GarbageCollectionState.other s) = false
is_known_collection _ = true

abbrev pub is_missing : GarbageCollectionState → Bool
is_missing GarbageCollectionState.missing = true
is_missing _ = false

abbrev pub is_backend : Kind → Bool
is_backend Kind.backend_artifact = true
is_backend _ = false

abbrev pub is_known : Kind → Bool
is_known (Kind.other k) = false
is_known _ = true

-- Nothing of the model is left to clean up.
abbrev pub is_cleaned_up : FinalizeDeleteInput → Bool
is_cleaned_up i =
    if i.handle_found
    then is_known i.handle_kind
      && is_complete i.cleanup_state
      && (not (is_backend i.handle_kind) || is_known_collection i.garbage_collection_state)
    else not i.runtime_resource_present

-- The finalizer is removed exactly from a model that has it, whose handle could be read, and of which
-- nothing is left to clean up: its cleanup is complete, in a known state of the collection for a backend
-- artifact, or without a handle no runtime resource is present.
pub finalize_delete-remove_finalizer :
    (i : FinalizeDeleteInput)
    → (finalize_delete i).remove_finalizer
      ≡ (i.has_finalizer && not (is_some i.handle_err) && is_cleaned_up i)
unfolding finalize_delete
finalize_delete-remove_finalizer i = ground arith

-- A model that keeps its finalizer is looked at again, and its status is updated; one without a
-- finalizer, or that loses it, is not.
pub finalize_delete-requeue :
    (i : FinalizeDeleteInput)
    → ((finalize_delete i).requeue ≡ (i.has_finalizer && not (finalize_delete i).remove_finalizer))
      × ((finalize_delete i).update_status ≡ (finalize_delete i).requeue)
unfolding finalize_delete
finalize_delete-requeue i = (ground arith, ground arith)

-- What the world is after a decision has been carried out: the cleanup has completed, the collection is
-- queued and the runtime resources are gone where the decision asks for it.
abbrev pub carried_out : FinalizeDeleteInput → FinalizeDeleteInput
carried_out i =
    let d = finalize_delete i in
    record i {
      has_finalizer = i.has_finalizer && not d.remove_finalizer;
      runtime_resource_present = i.runtime_resource_present && not d.delete_runtime_resources;
      cleanup_state = if d.run_cleanup then CleanupOperationState.complete else i.cleanup_state;
      garbage_collection_state =
          if d.ensure_garbage_collection_request && is_missing i.garbage_collection_state
          then GarbageCollectionState.queued
          else i.garbage_collection_state;
    }

-- Where the handle could be read, its kind is known where there is one, and the cleanup and the
-- collection are in known states, carrying out two decisions in a row removes the finalizer, if
-- each cleanup completes and each runtime resource goes when it is asked for.
pub finalize_delete_finishes :
    (i : FinalizeDeleteInput)
    → i.handle_err ≡ none
    → (not i.handle_found || is_known i.handle_kind) ≡ true
    → is_known_cleanup i.cleanup_state ≡ true
    → is_known_collection i.garbage_collection_state ≡ true
    → (carried_out (carried_out i)).has_finalizer ≡ false
unfolding finalize_delete
finalize_delete_finishes i e k c g = ground arith

-- When the finalizer of a model with a backend artifact is removed, the cleanup is complete and a
-- collection has been requested, if need be by that decision.
pub finalize_delete_collects :
    (i : FinalizeDeleteInput)
    → i.handle_found ≡ true
    → is_backend i.handle_kind ≡ true
    → (finalize_delete i).remove_finalizer ≡ true
    → (is_complete i.cleanup_state ≡ true)
      × (is_missing (carried_out i).garbage_collection_state ≡ false)
unfolding finalize_delete
finalize_delete_collects i f b r = (ground arith, ground arith)
