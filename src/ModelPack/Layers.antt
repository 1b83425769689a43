-- ===== src/ModelPack/Layers.antt =====
-- The layers of a manifest: `classifyManifestLayers` and what it calls of
-- images/controller/internal/adapters/modelpack/oci/chunk_layout.go, and `decodeLegacyManifestLayer` of
-- materialize_layers.go. A layer is the fields that are read of it, texts that are missing as "" and the
-- size by `parseSize`; a layer that is no object is `none`.
pub mod Chunked
use ai_models.Prelude.{
  ℕ, suc, ◌+◌, ◌≡◌, ◌≢◌, String, Bool, true, false, not, ◌&&◌, ◌||◌, List, [], ◌∷◌, ◌++◌, Option,
  none, some, if◌then◌else◌, is_some, length, leb,
}
use ai_models.Prelude.Text.{is_empty, trim_space, str_eq}
use ai_models.Prelude.Int64.{Int64, le64}
use ai_models.Prelude.Assoc.{lookup, insert, is_nil}
use ai_models.Publication.Handle.{Result, ok, err}
use ai_models.ModelPack.Results.{◌>>=◌}
use ai_models.ModelPack.MediaType.{ParsedLayerMediaType, parse_layer_media_type}

abbrev pub chunk_index_media_type : String
chunk_index_media_type = "application/vnd.deckhouse.ai-models.modelpack.chunk-index.v1+json"

abbrev pub chunk_pack_media_type : String
chunk_pack_media_type = "application/vnd.deckhouse.ai-models.modelpack.chunk-pack.v1"

abbrev pub chunk_pack_zstd_media_type : String
chunk_pack_zstd_media_type = "application/vnd.deckhouse.ai-models.modelpack.chunk-pack.zstd.v1"

pub record ManifestLayer : Type 0 where
  pub media_type : String
  pub digest : String
  pub size : Int64
  pub filepath : String

pub record ChunkLayerDescriptor : Type 0 where
  pub digest : String
  pub size : Int64
  pub media_type : String

pub record LegacyDescriptor : Type 0 where
  pub digest : String
  pub size : Int64
  pub media_type : String
  pub target_path : String
  pub parsed_type : ParsedLayerMediaType

pub record LayerSet : Type 0 where
  pub legacy : List LegacyDescriptor
  pub chunk_index : Option ChunkLayerDescriptor
  pub chunk_packs : List (String × ChunkLayerDescriptor)

unfoldable pub is_chunk_index_media_type : String → Bool
is_chunk_index_media_type value = str_eq (trim_space value) chunk_index_media_type

unfoldable pub is_chunk_pack_media_type : String → Bool
is_chunk_pack_media_type value =
    str_eq (trim_space value) chunk_pack_media_type
    || str_eq (trim_space value) chunk_pack_zstd_media_type

unfoldable pub decode_chunk_layer_descriptor : ManifestLayer → Result ChunkLayerDescriptor
decode_chunk_layer_descriptor l =
    if is_empty (trim_space l.digest)
    then err "registry manifest layer is missing digest"
    else if le64 l.size 0
    then err "registry manifest layer size must be positive"
    else ok
        record { digest = trim_space l.digest; size = l.size; media_type = trim_space l.media_type }

-- By the answer to the layer's media type.
unfoldable pub legacy_layer : ManifestLayer → Result ParsedLayerMediaType → Result LegacyDescriptor
legacy_layer l (err e) = err e
legacy_layer l (ok parsed) =
    if is_empty (trim_space l.filepath)
    then err "registry manifest layer is missing annotation"
    else if is_empty (trim_space l.digest)
    then err "registry manifest layer is missing digest"
    else ok record {
      digest = trim_space l.digest;
      size = l.size;
      media_type = trim_space l.media_type;
      target_path = trim_space l.filepath;
      parsed_type = parsed;
    }

unfoldable pub decode_legacy_manifest_layer : ManifestLayer → Result LegacyDescriptor
unfolding legacy_layer
decode_legacy_manifest_layer l = legacy_layer l (parse_layer_media_type (trim_space l.media_type))

abbrev pub add_index : LayerSet → Result ChunkLayerDescriptor → Result LayerSet
add_index set (err e) = err e
add_index set (ok d) = ok record set { chunk_index = some d }

abbrev pub add_pack : LayerSet → Result ChunkLayerDescriptor → Result LayerSet
add_pack set (err e) = err e
add_pack set (ok d) =
    if is_some (lookup d.digest set.chunk_packs)
    then err "registry manifest contains duplicate chunk pack digest"
    else ok record set { chunk_packs = insert d.digest d set.chunk_packs }

abbrev pub add_legacy : LayerSet → Result LegacyDescriptor → Result LayerSet
add_legacy set (err e) = err e
add_legacy set (ok d) = ok record set { legacy = set.legacy ++ d ∷ [] }

-- One round of the loop.
unfoldable pub classify_layer : LayerSet → ManifestLayer → Result LayerSet
unfolding decode_chunk_layer_descriptor decode_legacy_manifest_layer
classify_layer set l =
    if is_chunk_index_media_type (trim_space l.media_type)
    then if is_some set.chunk_index
      then err "registry manifest must contain at most one chunk index layer"
      else add_index set (decode_chunk_layer_descriptor l)
    else if is_chunk_pack_media_type (trim_space l.media_type)
    then add_pack set (decode_chunk_layer_descriptor l)
    else add_legacy set (decode_legacy_manifest_layer l)

unfoldable pub classify_layers : LayerSet → List (Option ManifestLayer) → Result LayerSet
unfolding classify_layer
classify_layers set [] = ok set
classify_layers set (none ∷ layers) = err "registry manifest layer is invalid"
classify_layers set (some l ∷ layers) = classify_layer set l >>= λ next. classify_layers next layers

abbrev pub no_layers : LayerSet
no_layers = record { legacy = []; chunk_index = none; chunk_packs = [] }

abbrev pub check_layers : LayerSet → Result LayerSet
check_layers set =
    if not (is_some set.chunk_index) && not (is_nil set.chunk_packs)
    then err "registry manifest chunk pack layers require a chunk index layer"
    else if is_some set.chunk_index && is_nil set.chunk_packs
    then err "registry manifest chunk index requires at least one chunk pack layer"
    else ok set

unfoldable pub classify_manifest_layers : List (Option ManifestLayer) → Result LayerSet
unfolding classify_layers
classify_manifest_layers layers = classify_layers no_layers layers >>= check_layers
