-- ===== src/Publication/Ready.antt =====
-- The status of a model that is ready: images/controller/internal/domain/publishstate/conditions_ready.go.
-- A set of texts that a `switch` lists is the list of its cases.
pub mod Public
pub mod Facts
mod Examples
use Prim.Native.String.{len}
use ai_models.Prelude.{
  ℕ, suc, String, Bool, true, false, not, ◌&&◌, ◌||◌, List, [], ◌∷◌, Option, none, some,
  if◌then◌else◌, keep, length, ◌==◌, ltb,
}
use ai_models.Prelude.Text.{is_empty, trim_space}
use ai_models.Prelude.Int64.{Int64, lt64}
use ai_models.Prelude.Assoc.{member}
use ai_models.Publication.Snapshot.{
  Snapshot, ResolvedProfile, reliable_public_fact, has_partial_confidence,
}
use ai_models.Publication.Conditions.{
  ConditionSetter, condition_true, keep_non_publish_conditions, set_artifact_resolved_condition,
  set_metadata_resolved_condition, set_ready_condition,
}
use ai_models.Publication.Status.{ModelStatus, ModelPhase, ModelSourceCapabilities}

abbrev pub max_source_capability_values : ℕ
max_source_capability_values = 32

abbrev pub max_source_capability_value_length : ℕ
max_source_capability_value_length = 128

-- The loop from what it has collected, last first, and how many that is. Every value in `seen` is one
-- that was collected.
unfoldable pub unique_loop : List String → ℕ → List String → List String
unique_loop seen n [] = []
unique_loop seen n (value ∷ values) =
    let clean = trim_space value in
    let skipped = unique_loop seen n values in
    let rest = unique_loop (clean ∷ seen) (suc n) values in
    if is_empty clean || ltb max_source_capability_value_length (len clean)
    then skipped
    else if member clean seen
    then skipped
    else if suc n == max_source_capability_values
    then clean ∷ []
    else clean ∷ rest

unfoldable pub unique_non_empty_strings : List String → List String
unfolding unique_loop
unique_non_empty_strings values = unique_loop [] 0 values

abbrev pub known_formats : List String
known_formats = "Safetensors" ∷ "GGUF" ∷ "Diffusers" ∷ []

abbrev pub known_endpoint_types : List String
known_endpoint_types =
    "Chat" ∷ "TextGeneration" ∷ "Embeddings" ∷ "Rerank" ∷ "SpeechToText" ∷ "TextToSpeech"
    ∷ "Translation" ∷ "ImageClassification" ∷ "ObjectDetection" ∷ "ImageSegmentation"
    ∷ "ImageToText" ∷ "VisualQuestionAnswering" ∷ "ImageGeneration" ∷ "VideoGeneration"
    ∷ "AudioGeneration" ∷ []

abbrev pub known_feature_types : List String
known_feature_types =
    "VisionInput" ∷ "AudioInput" ∷ "AudioOutput" ∷ "ImageOutput" ∷ "VideoInput" ∷ "VideoOutput"
    ∷ "MultiModalInput" ∷ "ToolCalling" ∷ []

unfoldable pub public_endpoint_types : ResolvedProfile → List String
public_endpoint_types r =
    if not (reliable_public_fact r.task_confidence)
    then []
    else keep (λ e. member e known_endpoint_types) r.supported_endpoint_types

unfoldable pub public_feature_types : ResolvedProfile → List String
public_feature_types r = keep (λ f. member f known_feature_types) r.supported_features

-- A source type that is not empty makes the provider not empty, so the last test of the source fails.
unfoldable pub public_source_capabilities :
    String → ResolvedProfile → Option ModelSourceCapabilities
public_source_capabilities source_type r =
    if is_empty source_type
    then none
    else some (record {
      provider = source_type;
      tasks = unique_non_empty_strings r.source_capabilities.tasks;
      features = unique_non_empty_strings r.source_capabilities.features;
    })

abbrev pub metadata_reason : ResolvedProfile → String
metadata_reason r =
    if has_partial_confidence r then "ModelMetadataPartial" else "ModelMetadataCalculated"

abbrev pub metadata_message : ResolvedProfile → String
metadata_message r =
    if has_partial_confidence r
    then "controller resolved partial model metadata and omitted low-confidence fields from public status"
    else "controller resolved the model technical profile successfully"

abbrev pub when {ℓ} : {A : Type ℓ} → Bool → A → Option A
when true a = some a
when false a = none

module _ (setter : ConditionSetter) (now : ℕ) where
  unfoldable pub ready_status : ModelStatus → ℕ → String → Snapshot → ModelStatus
  ready_status current generation source_type snapshot =
      let r = snapshot.resolved in
      let a = snapshot.artifact in
      record {
        observed_generation = generation;
        phase = ModelPhase.ready;
        progress = "";
        source = some (record {
          resolved_type = source_type;
          resolved_revision = snapshot.source.resolved_revision;
        });
        upload = none;
        artifact = some (record {
          kind = a.kind;
          uri = a.uri;
          digest = a.digest;
          media_type = a.media_type;
          size_bytes = when (lt64 0 a.size_bytes) a.size_bytes;
        });
        resolved = some (record {
          source_capabilities = public_source_capabilities source_type r;
          family = if reliable_public_fact r.family_confidence then r.family else "";
          architecture =
              if reliable_public_fact r.architecture_confidence then r.architecture else "";
          format = if member r.format known_formats then r.format else "";
          parameter_count =
              when (lt64 0 r.parameter_count && reliable_public_fact r.parameter_count_confidence)
                r.parameter_count;
          quantization =
              when (not (is_empty r.quantization) && reliable_public_fact r.quantization_confidence)
                r.quantization;
          context_window_tokens =
              when
                (lt64 0 r.context_window_tokens
                  && reliable_public_fact r.context_window_tokens_confidence)
                r.context_window_tokens;
          supported_endpoint_types = public_endpoint_types r;
          supported_features = public_feature_types r;
        });
        conditions =
            set_ready_condition setter now
              (set_metadata_resolved_condition setter now
                (set_artifact_resolved_condition setter now
                  (keep_non_publish_conditions current.conditions) generation condition_true
                  "ArtifactPublished" "controller published the model artifact successfully")
                generation condition_true (metadata_reason r) (metadata_message r))
              generation condition_true "Ready" "model is ready for platform consumption";
      }
