-- ===== src/Publication/Ready/Examples.antt =====
-- What concrete ready statuses publish.
use ai_models.Prelude.{
  ◌≡◌, ◌↔◌, ◌≤◌, refl, String, true, List, [], ◌∷◌, inl, inr, arith, length, All,
}
use ai_models.Prelude.Text.{trim_space}
use ai_models.Prelude.Assoc.{member}
use ai_models.Publication.Snapshot.{Snapshot, Scope, ProfileConfidence, ResolvedProfile}
use ai_models.Publication.Examples.{setter, current}
use ai_models.Publication.Conditions.{outcome, metadata_resolved}
use ai_models.Publication.Ready.{ready_status, unique_non_empty_strings, unique_loop}
use ai_models.Publication.Ready.Public.{
  NoneTwice, IsPublic, unique_non_empty_strings-bounds, unique_non_empty_strings_covers,
}
use ai_models.Publication.Ready.Facts.{ShowsFacts, AllSettled, reason_of, ready_status-ShowsFacts}

abbrev given : List String
given = "chat" ∷ " " ∷ "embed " ∷ "chat" ∷ []

unique_non_empty_strings-bounds_example :
    (length (unique_non_empty_strings given) ≤ 32)
    × NoneTwice (unique_non_empty_strings given)
    × All IsPublic (unique_non_empty_strings given)
unique_non_empty_strings-bounds_example = unique_non_empty_strings-bounds given

publishes : unique_non_empty_strings given ≡ "chat" ∷ "embed" ∷ []
unfolding unique_non_empty_strings unique_loop trim_space member
publishes = refl

unique_non_empty_strings_covers_example : member "embed" (unique_non_empty_strings given) ≡ true
unfolding unique_non_empty_strings unique_loop trim_space member
unique_non_empty_strings_covers_example =
    unique_non_empty_strings_covers given "embed " (omega arith) (inr (inr (inl refl))) refl

abbrev declared_profile : ResolvedProfile
declared_profile = record {
  task = "text-generation";
  task_confidence = ProfileConfidence.exact;
  source_capabilities = record { tasks = given; features = [] };
  family = "llama";
  family_confidence = ProfileConfidence.declared;
  license = "";
  architecture = "";
  architecture_confidence = ProfileConfidence.hint;
  format = "GGUF";
  parameter_count = 7;
  parameter_count_confidence = ProfileConfidence.derived;
  quantization = "Q4";
  quantization_confidence = ProfileConfidence.exact;
  context_window_tokens = 0;
  context_window_tokens_confidence = ProfileConfidence.hint;
  source_repo_id = "";
  supported_endpoint_types = [];
  supported_features = [];
}

abbrev published : Snapshot
published = record {
  identity = record { scope = Scope.cluster; namespace = ""; name = "m" };
  source = record {
    source_type = "HuggingFace";
    external_reference = "";
    resolved_revision = "r";
    raw_uri = "";
    raw_object_count = 1;
    raw_size_bytes = 9;
  };
  artifact = record {
    kind = "OCI";
    uri = "oci://m";
    digest = "sha256:a";
    media_type = "";
    size_bytes = 9;
  };
  resolved = declared_profile;
  result = record { state = "Published"; ready = true };
}

-- An architecture that is missing may be a hint.
ready_status-ShowsFacts_example :
    ShowsFacts declared_profile (ready_status setter 9 current 2 "HuggingFace" published).resolved
    × ((reason_of (
            outcome metadata_resolved
              (ready_status setter 9 current 2 "HuggingFace" published).conditions)
          ≡ "ModelMetadataCalculated")
        ↔ AllSettled declared_profile)
ready_status-ShowsFacts_example = ready_status-ShowsFacts setter 9 current 2 "HuggingFace" published
