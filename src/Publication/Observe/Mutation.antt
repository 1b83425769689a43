-- ===== src/Publication/Observe/Mutation.antt =====
-- What is written to the model after an observation:
-- images/controller/internal/application/publishobserve/status_mutation.go.
use ai_models.Prelude.{ℕ, String, Bool, true, false, ◌&&◌, Option}
use ai_models.Publication.Handle.{Handle, Result, ok, err}
use ai_models.Publication.Conditions.{ConditionSetter}
use ai_models.Publication.Status.{ModelStatus}
use ai_models.Publication.Project.{OperationPhase, Observation, project_status}
use ai_models.Publication.Observe.{no_observation}

pub record CatalogStatusRuntimeResult : Type 0 where
  pub generation : ℕ
  pub source_type : String
  pub observation : Observation
  pub delete_runtime : Bool

pub record CatalogStatusMutationPlan : Type 0 where
  pub status : ModelStatus
  pub cleanup_handle : Option Handle
  pub requeue : Bool
  pub delete_runtime : Bool
  pub delete_runtime_before_persist : Bool

abbrev pub is_failed : OperationPhase → Bool
is_failed OperationPhase.failed = true
is_failed _ = false

module _ (setter : ConditionSetter) (now : ℕ) where
  unfoldable pub plan_catalog_status_mutation :
      ModelStatus → CatalogStatusRuntimeResult → Result CatalogStatusMutationPlan
  plan_catalog_status_mutation current r =
      elim (project_status setter now current r.generation r.source_type r.observation) [
        | err e ↦ err e
        | ok p ↦ ok (record {
          status = p.status;
          cleanup_handle = p.cleanup_handle;
          requeue = p.requeue;
          delete_runtime = r.delete_runtime;
          delete_runtime_before_persist = r.delete_runtime && is_failed r.observation.phase;
        })
      ]

  unfoldable pub plan_failed :
      ModelStatus → ℕ → String → String → String → Result CatalogStatusMutationPlan
  plan_failed current generation source_type reason message =
      plan_catalog_status_mutation current (record {
        generation = generation;
        source_type = source_type;
        observation = record no_observation {
          phase = OperationPhase.failed;
          condition_reason = reason;
          message = message;
        };
        delete_runtime = false;
      })

  unfoldable pub plan_failed_catalog_status_mutation :
      ModelStatus → ℕ → String → String → Result CatalogStatusMutationPlan
  unfolding plan_failed
  plan_failed_catalog_status_mutation current generation source_type message =
      plan_failed current generation source_type "PublicationFailed" message

  unfoldable pub plan_unsupported_source_catalog_status_mutation :
      ModelStatus → ℕ → String → Result CatalogStatusMutationPlan
  unfolding plan_failed
  plan_unsupported_source_catalog_status_mutation current generation message =
      plan_failed current generation "" "UnsupportedSource" message
