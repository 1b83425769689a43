-- ===== src/ModelPack/MediaType.antt =====
-- The media types of layers: images/controller/internal/adapters/modelpack/oci/layer_media_type.go with
-- the constants of ports/modelpack. A base, a format and a compression are texts, as in the source.
-- MediaType/Pattern has the regular expression.
pub mod Pattern
pub mod RoundTrip
pub mod Exact
use Prim.Native.String
use ai_models.Prelude.{
  ◌≡◌, String, Bool, true, false, not, ◌&&◌, ◌||◌, Option, none, some, if◌then◌else◌,
}
use ai_models.Prelude.Text.{is_empty, trim_space, str_eq}
use ai_models.Publication.Handle.{Result, ok, err}
use ai_models.ModelPack.Results.{◌>>=◌}
use ai_models.ModelPack.MediaType.Pattern.{find_string_submatch}

abbrev pub is_layer_base : String → Bool
is_layer_base base =
    str_eq base "weight"
    || str_eq base "weight.config"
    || str_eq base "dataset"
    || str_eq base "code"
    || str_eq base "doc"

abbrev pub is_layer_format : String → Bool
is_layer_format format = str_eq format "tar" || str_eq format "raw"

abbrev pub is_wire_compression : String → Bool
is_wire_compression compression =
    str_eq compression "none" || str_eq compression "gzip" || str_eq compression "zstd"

unfoldable pub parse_layer_base : String → Result String
parse_layer_base value =
    if is_layer_base (trim_space value)
    then ok (trim_space value)
    else err "unsupported ModelPack layer base type"

unfoldable pub parse_layer_format : String → Result String
parse_layer_format value =
    if is_layer_format (trim_space value)
    then ok (trim_space value)
    else err "unsupported ModelPack layer format"

unfoldable pub parse_wire_compression : String → Result String
parse_wire_compression value =
    if is_empty (trim_space value)
    then ok "none"
    else if is_wire_compression (trim_space value)
    then ok (trim_space value)
    else err "unsupported ModelPack layer compression"

-- `validatePublishLayerCompression`, which does not trim.
abbrev pub is_publish_compression : String → Bool
is_publish_compression compression =
    is_empty compression || is_wire_compression compression || str_eq compression "gzip-fastest"

pub record ParsedLayerMediaType : Type 0 where
  pub base : String
  pub format : String
  pub compression : String

-- The end of `parseLayerMediaType`.
abbrev pub parsed : String → String → String → Result ParsedLayerMediaType
parsed base format compression =
    if str_eq format "raw" && not (str_eq compression "none")
    then err "raw ModelPack layer mediaType must not declare compression"
    else ok record { base = base; format = format; compression = compression }

abbrev pub parse_groups : Option (String × String × String) → Result ParsedLayerMediaType
parse_groups none = err "unsupported ModelPack layer mediaType"
parse_groups (some (b, f, c)) = parse_layer_base b >>= λ base. parse_layer_format f >>= λ format.
    parse_wire_compression c >>= λ compression. parsed base format compression

unfoldable pub parse_layer_media_type : String → Result ParsedLayerMediaType
unfolding find_string_submatch
parse_layer_media_type value = parse_groups (find_string_submatch (trim_space value))

-- What `Sprintf` makes of a base and the end of a media type.
abbrev pub media_type_text : String → String → String
media_type_text base end =
    String.◌++◌ "application/vnd.cncf.model." (String.◌++◌ base (String.◌++◌ ".v1." end))

-- The end of the media type, by the compression of a "tar" layer.
unfoldable pub tar_end : String → Result String
tar_end compression =
    if is_empty compression || str_eq compression "none"
    then ok "tar"
    else if str_eq compression "gzip" || str_eq compression "gzip-fastest"
    then ok "tar+gzip"
    else if str_eq compression "zstd"
    then ok "tar+zstd"
    else err "unsupported ModelPack layer compression"

unfoldable pub layer_end : String → String → Result String
unfolding tar_end
layer_end format compression =
    if str_eq format "raw"
    then if is_empty compression || str_eq compression "none"
      then ok "raw"
      else err "raw ModelPack layer must not declare compression"
    else tar_end compression

abbrev pub with_base : String → Result String → Result String
with_base base (ok end) = ok (media_type_text base end)
with_base base (err e) = err e

unfoldable pub build_layer_media_type : String → String → String → Result String
unfolding layer_end
build_layer_media_type base format compression = parse_layer_base base >>= λ b.
    parse_layer_format format >>= λ f.
    if not (is_publish_compression compression)
    then err "unsupported ModelPack layer compression"
    else with_base base (layer_end format compression)
