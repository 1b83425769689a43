-- ===== src/ModelPack/Examples.antt =====
-- Media types, manifests and a chunk index with concrete values.
use ai_models.Prelude.{ℕ, ◌≡◌, refl, ◌⊎◌, String, List, [], ◌∷◌, Option, none, some, arith, All}
use ai_models.Prelude.Text.{trim_space}
use ai_models.Prelude.Assoc.{lookup, insert, member, is_nil}
use ai_models.Publication.Handle.{ok}
use ai_models.ModelPack.MediaType.{build_layer_media_type, parse_layer_base, parse_layer_format}
use ai_models.ModelPack.MediaType.Pattern.{find_string_submatch}
use ai_models.ModelPack.MediaType.Exact.{RoundTrips, build_layer_media_type-RoundTrips}
use ai_models.ModelPack.Layers.{
  ManifestLayer, ChunkLayerDescriptor, LayerSet, classify_manifest_layers,
  decode_chunk_layer_descriptor, is_chunk_index_media_type, is_chunk_pack_media_type,
  chunk_index_media_type, chunk_pack_media_type,
}
use ai_models.ModelPack.Layers.Chunked.{IsWhole, classify_manifest_layers-IsWhole}
use ai_models.ModelPack.ChunkIndex.{
  Chunk, File, ChunkIndexDocument, validate_chunk_index, validate_pack, match_layer, validate_chunk,
  validate_range,
}
use ai_models.ModelPack.ChunkIndex.Paths.{relative_path, join, IsPlain, relative_path-IsPlain}
use ai_models.ModelPack.ChunkIndex.Whole.{IsSound, validate_chunk_index-IsSound}

splits_config :
    find_string_submatch "application/vnd.cncf.model.weight.config.v1.tar+gzip"
    ≡ some ("weight.config", "tar", "gzip")
unfolding find_string_submatch
splits_config = refl

-- "none" may stand for no compression, and the base's second word needs the dot.
splits_others :
    find_string_submatch "application/vnd.cncf.model.doc.v1.tar+none" ≡ some ("doc", "tar", "none")
unfolding find_string_submatch
splits_others = refl

splits_no_word : find_string_submatch "application/vnd.cncf.model.doc.v1.tar+" ≡ none
unfolding find_string_submatch
splits_no_word = refl

config_trimmed : trim_space "weight.config" ≡ "weight.config"
unfolding trim_space
config_trimmed = refl

config_built :
    build_layer_media_type "weight.config" "tar" "gzip-fastest"
    ≡ ok "application/vnd.cncf.model.weight.config.v1.tar+gzip"
unfolding build_layer_media_type parse_layer_base parse_layer_format trim_space
config_built = refl

build_layer_media_type-RoundTrips_example :
    RoundTrips "weight.config" "tar" "gzip-fastest"
      (build_layer_media_type "weight.config" "tar" "gzip-fastest")
build_layer_media_type-RoundTrips_example =
    build_layer_media_type-RoundTrips "weight.config" "tar" "gzip-fastest" config_trimmed

abbrev layers : List (Option ManifestLayer)
layers =
    some
      record { media_type = chunk_index_media_type; digest = "sha256:1"; size = 9; filepath = "" }
    ∷ some
        record { media_type = chunk_pack_media_type; digest = "sha256:2"; size = 10; filepath = "" }
    ∷ []

abbrev pack_layer : ChunkLayerDescriptor
pack_layer = record { digest = "sha256:2"; size = 10; media_type = chunk_pack_media_type }

abbrev layer_set : LayerSet
layer_set = record {
  legacy = [];
  chunk_index = some record { digest = "sha256:1"; size = 9; media_type = chunk_index_media_type };
  chunk_packs = ("sha256:2", pack_layer) ∷ [];
}

layers_classified : classify_manifest_layers layers ≡ ok layer_set
unfolding classify_manifest_layers decode_chunk_layer_descriptor is_chunk_index_media_type
    is_chunk_pack_media_type trim_space lookup insert is_nil
layers_classified = refl

classify_manifest_layers-IsWhole_example : IsWhole layer_set
classify_manifest_layers-IsWhole_example =
    classify_manifest_layers-IsWhole layers layer_set layers_classified

abbrev chunk_at : ℕ → ℕ → ℕ → ℕ → Chunk
chunk_at index offset size pack_offset = record {
  index = index;
  offset = offset;
  uncompressed_size_bytes = size;
  stored_size_bytes = 5;
  stored_digest = "sha256:3";
  compression = "none";
  pack = "p";
  pack_offset = pack_offset;
  pack_length = 5;
}

abbrev file : File
file = record {
  path = "a\\b";
  size_bytes = 12;
  digest = "sha256:4";
  chunks = chunk_at 1 7 5 5 ∷ chunk_at 0 0 7 0 ∷ [];
}

abbrev document : ChunkIndexDocument
document = record {
  schema_version = "modelpack.chunked.v1";
  chunk_size_bytes = 7;
  files = file ∷ [];
  packs =
      record { id = "p"; digest = "sha256:2"; size_bytes = 10; media_type = chunk_pack_media_type }
      ∷ [];
}

abbrev manifest : List (String × ChunkLayerDescriptor)
manifest = ("sha256:2", pack_layer) ∷ []

path_split : relative_path "a\\b" ≡ ok "a/b"
unfolding relative_path trim_space
path_split = refl

relative_path-IsPlain_example :
    (◌≡◌ {A = String} "a/b" ".")
    ⊎ ((parts : List String) × ("a/b" ≡ join parts) × All IsPlain parts)
relative_path-IsPlain_example = relative_path-IsPlain "a\\b" "a/b" path_split

document_accepted : validate_chunk_index relative_path document manifest ≡ ok tt
unfolding validate_chunk_index validate_pack match_layer validate_chunk validate_range
    is_chunk_pack_media_type relative_path trim_space lookup insert member
document_accepted = refl

validate_chunk_index-IsSound_example : All (IsSound manifest 8) document.files
validate_chunk_index-IsSound_example =
    validate_chunk_index-IsSound manifest relative_path document 8
      (
        (
          record { size_word = omega arith; offset_word = omega arith; length_word = omega arith },
          (
            record {
              size_word = omega arith;
              offset_word = omega arith;
              length_word = omega arith;
            },
            tt,
          ),
        ),
        tt,
      )
      document_accepted
