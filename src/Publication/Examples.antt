-- ===== src/Publication/Examples.antt =====
-- The publication of a model on concrete runtimes.
use text.Mathlib.TextEquality.{eq_iff}
use ai_models.Prelude.{
  ◌≡◌, refl, String, true, none, some, List, [], ◌∷◌, arith, if◌then◌else◌, Bool-cases, inl, inr,
}
use ai_models.Prelude.Text.{str_eq, trim_space}
use ai_models.Publication.Handle.{Handle, Kind, Result, ok, err, is_ok}
use ai_models.Publication.Snapshot.{
  Scope, Identity, ProfileConfidence, ResolvedProfile, ArtifactResult, validate_identity,
  validate_result, decode_result,
}
use ai_models.Publication.Conditions.{
  Condition, ConditionSetter, condition_true, outcome, outcome_of,
}
use ai_models.Publication.Status.{ModelStatus, ModelPhase, ModelUploadStatus, publishing_status}
use ai_models.Publication.Project.{
  OperationPhase, Observation, RuntimeKind, Projection, project_status,
}
use ai_models.Publication.Project.Phases.{
  is_complete, Faithful, project_status-Faithful, project_status_total,
}
use ai_models.Publication.Runtime.{observe_source_worker, observe_upload_session}
use ai_models.Publication.Observe.{
  pod_succeeded, pod_other, SourceWorkerHandle, UploadSessionHandle, RuntimeObservationDecision,
  no_observation, observe_source, observe_upload, failed_observation, map_source_worker_decision,
  decode_runtime_result,
}
use ai_models.Publication.Observe.Mutation.{plan_catalog_status_mutation}
use ai_models.Publication.Observe.Errors.{told}
use ai_models.Publication.Observe.Total.{runtime_result, observe_source_total, observe_upload_total}
use ai_models.Publication.Observe.Success.{HasValid, observe_source_success}

-- A setter as k8s.io/apimachinery has it, but for the time of the last transition, which it replaces.
abbrev pub replace : List Condition → Condition → List Condition
replace [] c = c ∷ []
replace (d ∷ conditions) c =
    if str_eq d.condition_type c.condition_type then c ∷ conditions else d ∷ replace conditions c

pub outcome-replace :
    (t : String) (cs : List Condition) (c : Condition)
    → outcome t (replace cs c)
      ≡ (if str_eq c.condition_type t then some (outcome_of c) else outcome t cs)
outcome-replace t [] c = refl
outcome-replace t (d ∷ cs) c = elim (Bool-cases (str_eq d.condition_type c.condition_type)) [
  | inl e ↦ ground (arith, eq_iff d.condition_type c.condition_type)
  | inr e ↦ ground (
    arith,
    outcome-replace t cs c,
    eq_iff d.condition_type c.condition_type,
    eq_iff d.condition_type t,
    eq_iff c.condition_type t,
  )
]

abbrev pub setter : ConditionSetter
setter = record { set = replace; outcome-set = outcome-replace }

abbrev pub current : ModelStatus
current = record {
  observed_generation = 1;
  phase = ModelPhase.pending;
  progress = "";
  source = none;
  upload = none;
  artifact = none;
  resolved = none;
  conditions =
      record {
        condition_type = "Audited";
        status = condition_true;
        reason = "Done";
        message = "";
        observed_generation = 1;
        last_transition_time = 5;
      }
      ∷ [];
}

abbrev identity : Identity
identity = record { scope = Scope.namespaced; namespace = "ns"; name = "m" }

abbrev backend_handle : Handle
backend_handle = record {
  kind = Kind.backend_artifact;
  artifact = none;
  backend = some (record {
    reference = "registry/m@sha256:a";
    repository_metadata_prefix = "";
    source_mirror_prefix = "";
  });
  upload_staging = none;
}

abbrev staged_handle : Handle
staged_handle = record {
  kind = Kind.upload_staging;
  artifact = none;
  backend = none;
  upload_staging = some (record { bucket = "b"; key = "k"; file_name = "f"; size_bytes = 3 });
}

abbrev profile : ResolvedProfile
profile = record {
  task = "text-generation";
  task_confidence = ProfileConfidence.exact;
  source_capabilities = record { tasks = []; features = [] };
  family = "llama";
  family_confidence = ProfileConfidence.exact;
  license = "";
  architecture = "";
  architecture_confidence = ProfileConfidence.hint;
  format = "GGUF";
  parameter_count = 7;
  parameter_count_confidence = ProfileConfidence.estimated;
  quantization = "";
  quantization_confidence = ProfileConfidence.hint;
  context_window_tokens = 0;
  context_window_tokens_confidence = ProfileConfidence.hint;
  source_repo_id = "";
  supported_endpoint_types = [];
  supported_features = [];
}

abbrev result : ArtifactResult
result = record {
  artifact = record {
    kind = "OCI";
    uri = "oci://m";
    digest = "sha256:a";
    media_type = "";
    size_bytes = 9;
  };
  resolved = profile;
  source = record {
    source_type = "HuggingFace";
    external_reference = "";
    resolved_revision = "r";
    raw_uri = "";
    raw_object_count = 1;
    raw_size_bytes = 9;
  };
  cleanup_handle = backend_handle;
}

-- Decoders that know one text.
abbrev unmarshal_result : String → Result ArtifactResult
unmarshal_result raw = if str_eq raw "result" then ok result else err "invalid character"

abbrev unmarshal_handle : String → Result Handle
unmarshal_handle raw = if str_eq raw "staged" then ok staged_handle else err "invalid character"

result_told : (raw : String) → told (unmarshal_result raw) ≡ true
result_told raw = elim (Bool-cases (str_eq raw "result")) [ inl e ↦ rw e | inr e ↦ rw e ]

handle_told : (raw : String) → told (unmarshal_handle raw) ≡ true
handle_told raw = elim (Bool-cases (str_eq raw "staged")) [ inl e ↦ rw e | inr e ↦ rw e ]

abbrev done_worker : SourceWorkerHandle
done_worker = record {
  name = "w";
  phase = pod_succeeded;
  termination_message = " result";
  progress_reason = "";
  progress = "100%";
  progress_message = "";
}

abbrev upload_status : ModelUploadStatus
upload_status = record { expires_at = some 50; repository = "r"; external = "e"; in_cluster = "i" }

abbrev session : UploadSessionHandle
session = record {
  worker_name = "s";
  phase = pod_other "Running";
  termination_message = "";
  progress = "40%";
  upload_status = upload_status;
}

abbrev staged_observation : Observation
staged_observation = record no_observation {
  phase = OperationPhase.staged;
  runtime_kind = RuntimeKind.upload_session;
  cleanup_handle = some staged_handle;
}

abbrev source_success : RuntimeObservationDecision
source_success = record {
  observation = record no_observation {
    phase = OperationPhase.succeeded;
    runtime_kind = RuntimeKind.source_worker;
    snapshot = some (record {
      identity = identity;
      source = result.source;
      artifact = result.artifact;
      resolved = profile;
      result = record { state = "Published"; ready = true };
    });
    cleanup_handle = some backend_handle;
  };
  delete_runtime = true;
}

abbrev upload_expired : RuntimeObservationDecision
upload_expired = record {
  observation = failed_observation "upload session expired before publication completed";
  delete_runtime = true;
}

source_succeeds : observe_source unmarshal_result identity (some done_worker) ≡ ok source_success
unfolding observe_source decode_runtime_result decode_result validate_result trim_space
    observe_source_worker map_source_worker_decision
source_succeeds = refl

upload_expires : observe_upload unmarshal_handle 50 (some session) ≡ ok upload_expired
unfolding observe_upload observe_upload_session
upload_expires = refl

abbrev staged_projection : Projection
staged_projection = record {
  status = publishing_status setter 9 current 2 "Upload" "Pending" "" "";
  requeue = true;
  cleanup_handle = some staged_handle;
}

project_status-Faithful_example :
    Faithful setter 9 current 2 "Upload" staged_observation staged_projection
unfolding project_status
project_status-Faithful_example =
    project_status-Faithful setter 9 current 2 "Upload" staged_observation staged_projection refl

project_status_total_example :
    is_ok (project_status setter 9 current 2 "Upload" staged_observation)
    ≡ is_complete staged_observation
project_status_total_example = project_status_total setter 9 current 2 "Upload" staged_observation

observe_source_total_example :
    (d : RuntimeObservationDecision) × (observe_source unmarshal_result identity (some done_worker)
      ≡ ok d)
    × (is_ok (plan_catalog_status_mutation setter 9 current (runtime_result 2 "HuggingFace" d))
        ≡ true)
observe_source_total_example =
    observe_source_total unmarshal_result identity setter 9 current 2 "HuggingFace"
      (some done_worker) result_told

observe_upload_total_example :
    (d : RuntimeObservationDecision) × (observe_upload unmarshal_handle 50 (some session) ≡ ok d)
    × (is_ok (plan_catalog_status_mutation setter 9 current (runtime_result 2 "Upload" d)) ≡ true)
observe_upload_total_example =
    observe_upload_total unmarshal_handle 50 setter 9 current 2 "Upload" (some session) handle_told

observe_source_success_example :
    (done_worker.phase ≡ pod_succeeded) × HasValid source_success.observation
unfolding validate_identity trim_space
observe_source_success_example =
    observe_source_success unmarshal_result identity done_worker source_success refl source_succeeds
      refl
