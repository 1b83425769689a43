-- ===== src/Publication/Snapshot.antt =====
-- What a publication produced: images/controller/internal/publishedsnapshot (snapshot.go, profile.go)
-- and images/controller/internal/publicationartifact/contract.go. An `int64` is a pattern; the error
-- texts leave the values out that they quote.
use ai_models.Prelude.{
  String, Bool, true, false, not, ◌&&◌, ◌||◌, List, Option, none, some, if◌then◌else◌,
}
use ai_models.Prelude.Text.{is_empty, trim_space, str_eq}
use ai_models.Prelude.Int64.{Int64, lt64}
use ai_models.Publication.Handle.{Handle, Result, ok, err, checked}
use ai_models.Publication.Handle

pub data Scope : Type 0 where
  namespaced cluster : Scope
  other : String → Scope

pub record Identity : Type 0 where
  pub scope : Scope
  pub namespace : String
  pub name : String

pub record SourceProvenance : Type 0 where
  pub source_type : String
  pub external_reference : String
  pub resolved_revision : String
  pub raw_uri : String
  pub raw_object_count : Int64
  pub raw_size_bytes : Int64

pub record PublishedArtifact : Type 0 where
  pub kind : String
  pub uri : String
  pub digest : String
  pub media_type : String
  pub size_bytes : Int64

pub data ProfileConfidence : Type 0 where
  exact derived declared estimated hint : ProfileConfidence
  other : String → ProfileConfidence

pub record SourceCapabilities : Type 0 where
  pub tasks : List String
  pub features : List String

pub record ResolvedProfile : Type 0 where
  pub task : String
  pub task_confidence : ProfileConfidence
  pub source_capabilities : SourceCapabilities
  pub family : String
  pub family_confidence : ProfileConfidence
  pub license : String
  pub architecture : String
  pub architecture_confidence : ProfileConfidence
  pub format : String
  pub parameter_count : Int64
  pub parameter_count_confidence : ProfileConfidence
  pub quantization : String
  pub quantization_confidence : ProfileConfidence
  pub context_window_tokens : Int64
  pub context_window_tokens_confidence : ProfileConfidence
  pub source_repo_id : String
  pub supported_endpoint_types : List String
  pub supported_features : List String

-- `Snapshot.Result`.
pub record PublishedResult : Type 0 where
  pub state : String
  pub ready : Bool

pub record Snapshot : Type 0 where
  pub identity : Identity
  pub source : SourceProvenance
  pub artifact : PublishedArtifact
  pub resolved : ResolvedProfile
  pub result : PublishedResult

abbrev pub reliable_public_fact : ProfileConfidence → Bool
reliable_public_fact ProfileConfidence.exact = true
reliable_public_fact ProfileConfidence.derived = true
reliable_public_fact ProfileConfidence.declared = true
reliable_public_fact _ = false

abbrev pub low_confidence : ProfileConfidence → Bool
low_confidence ProfileConfidence.estimated = true
low_confidence ProfileConfidence.hint = true
low_confidence _ = false

unfoldable pub has_partial_confidence : ResolvedProfile → Bool
has_partial_confidence p =
    (not (is_empty p.task) && low_confidence p.task_confidence)
    || (not (is_empty p.family) && low_confidence p.family_confidence)
    || (not (is_empty p.architecture) && low_confidence p.architecture_confidence)
    || (lt64 0 p.parameter_count && low_confidence p.parameter_count_confidence)
    || (not (is_empty p.quantization) && low_confidence p.quantization_confidence)
    || (lt64 0 p.context_window_tokens && low_confidence p.context_window_tokens_confidence)

abbrev pub validate_scope : Scope → Identity → Option String
validate_scope Scope.namespaced i =
    if is_empty (trim_space i.namespace)
    then some "publication identity namespace must not be empty for namespaced scope"
    else none
validate_scope Scope.cluster i =
    if not (is_empty (trim_space i.namespace))
    then some "publication identity namespace must be empty for cluster scope"
    else none
validate_scope (Scope.other scope) i = some "unsupported publication scope"

unfoldable pub validate_identity : Identity → Option String
validate_identity i =
    if is_empty (trim_space i.name)
    then some "publication identity name must not be empty"
    else validate_scope i.scope i

unfoldable pub validate_source : SourceProvenance → Option String
validate_source s =
    if is_empty (trim_space s.source_type)
    then some "source provenance type must not be empty"
    else if lt64 s.raw_object_count 0
    then some "source provenance raw object count must not be negative"
    else if lt64 s.raw_size_bytes 0
    then some "source provenance raw size bytes must not be negative"
    else none

unfoldable pub validate_artifact : PublishedArtifact → Option String
validate_artifact a =
    if not (str_eq a.kind "OCI")
    then some "unsupported published artifact kind"
    else if is_empty (trim_space a.uri)
    then some "published artifact URI must not be empty"
    else none

-- The first error of a row of checks.
abbrev pub or_else : Option String → Option String → Option String
or_else (some e) next = some e
or_else none next = next

unfoldable pub validate_snapshot : Snapshot → Option String
unfolding validate_identity validate_source validate_artifact
validate_snapshot s = or_else (validate_identity s.identity) (
    or_else (validate_source s.source) (
      or_else (validate_artifact s.artifact) (
        if is_empty (trim_space s.result.state)
        then some "publication result state must not be empty"
        else none)))

-- `publicationartifact.Result`.
pub record ArtifactResult : Type 0 where
  pub artifact : PublishedArtifact
  pub resolved : ResolvedProfile
  pub source : SourceProvenance
  pub cleanup_handle : Handle

unfoldable pub validate_result : ArtifactResult → Option String
unfolding validate_source validate_artifact Handle.validate
validate_result r =
    or_else (validate_source r.source)
      (or_else (validate_artifact r.artifact) (Handle.validate r.cleanup_handle))

unfoldable pub decode_result : (String → Result ArtifactResult) → String → Result ArtifactResult
unfolding validate_result
decode_result unmarshal raw =
    if is_empty (trim_space raw)
    then err "publication artifact result payload must not be empty"
    else checked validate_result (unmarshal raw)
