-- ===== src/ModelPack/ChunkIndex.antt =====
-- The validation of a chunk index: `validateChunkIndex` and what it calls of
-- images/controller/internal/adapters/modelpack/oci/chunk_layout.go. `sort.Slice` may put chunks of one
-- offset in any order; such chunks are refused in every order, and here they keep theirs. A file's path is
-- checked by a function that is given (`archiveio.RelativePath` in Paths.antt).
pub mod Paths
pub mod Tiles
pub mod Whole
use ai_models.Prelude.{
  ℕ, suc, ◌+◌, ◌-◌, ◌*◌, ◌^◌, ◌≡◌, String, Bool, true, false, not, ◌&&◌, ◌||◌, ◌==◌, List, [], ◌∷◌,
  Option, none, some, if◌then◌else◌, is_some, length,
}
use ai_models.Prelude.Text.{is_empty, trim_space, str_eq}
use ai_models.Prelude.Int64.{Int64, add64, sub64, lt64, le64, half}
use ai_models.Prelude.Assoc.{lookup, insert, member}
use ai_models.Publication.Handle.{Result, ok, err}
use ai_models.ModelPack.Results.{◌>>=◌}
use ai_models.ModelPack.Layers.{ChunkLayerDescriptor, is_chunk_pack_media_type}

abbrev pub max_chunk_payload_bytes : Int64
max_chunk_payload_bytes = 512 * 1024 * 1024

abbrev pub max_int64 : Int64
max_int64 = half - 1

pub record Chunk : Type 0 where
  pub index : Int64
  pub offset : Int64
  pub uncompressed_size_bytes : Int64
  pub stored_size_bytes : Int64
  pub stored_digest : String
  pub compression : String
  pub pack : String
  pub pack_offset : Int64
  pub pack_length : Int64

pub record File : Type 0 where
  pub path : String
  pub size_bytes : Int64
  pub digest : String
  pub chunks : List Chunk

pub record Pack : Type 0 where
  pub id : String
  pub digest : String
  pub size_bytes : Int64
  pub media_type : String

pub record ChunkIndexDocument : Type 0 where
  pub schema_version : String
  pub chunk_size_bytes : Int64
  pub files : List File
  pub packs : List Pack

abbrev pub check : Bool → String → Result (Unit {0}) → Result (Unit {0})
check wrong e rest = if wrong then err e else rest

abbrev pub is_compression : String → Bool
is_compression c = is_empty c || str_eq c "none" || str_eq c "zstd"

-- The range of a chunk in its pack.
unfoldable pub validate_range : Chunk → Option Pack → Result (Unit {0})
validate_range c none = err "chunk references missing pack"
validate_range c (some p) =
    check (lt64 c.pack_offset 0 || le64 c.pack_length 0) "chunk pack range must be positive" (
      check (lt64 max_chunk_payload_bytes c.pack_length)
        "chunk packLength must not exceed the limit"
        (check (lt64 (sub64 max_int64 c.pack_length) c.pack_offset)
          "chunk pack range overflows int64"
          (check (lt64 p.size_bytes (add64 c.pack_offset c.pack_length))
            "chunk pack range exceeds pack size"
            (check (not (c.stored_size_bytes == c.pack_length))
              "chunk storedSizeBytes must match packLength" (ok tt)))))

unfoldable pub validate_chunk : Chunk → List (String × Pack) → Result (Unit {0})
unfolding validate_range
validate_chunk c packs =
    check (le64 c.uncompressed_size_bytes 0) "chunk uncompressedSizeBytes must be positive" (
      check (lt64 max_chunk_payload_bytes c.uncompressed_size_bytes)
        "chunk uncompressedSizeBytes must not exceed the limit"
        (check (le64 c.stored_size_bytes 0) "chunk storedSizeBytes must be positive" (
          check (lt64 max_chunk_payload_bytes c.stored_size_bytes)
            "chunk storedSizeBytes must not exceed the limit"
            (check (is_empty (trim_space c.stored_digest)) "chunk storedDigest must not be empty" (
              check (not (is_compression (trim_space c.compression)))
                "chunk has unsupported compression"
                (validate_range c (lookup (trim_space c.pack) packs)))))))

abbrev pub insert_by_offset : Chunk → List Chunk → List Chunk
insert_by_offset c [] = c ∷ []
insert_by_offset c (d ∷ chunks) =
    if le64 c.offset d.offset then c ∷ d ∷ chunks else d ∷ insert_by_offset c chunks

unfoldable pub sort_by_offset : List Chunk → List Chunk
sort_by_offset [] = []
sort_by_offset (c ∷ chunks) = insert_by_offset c (sort_by_offset chunks)

-- The loop over the sorted chunks, with the offset that it expects.
unfoldable pub validate_chunks : ℕ → Int64 → List Chunk → List (String × Pack) → Result Int64
validate_chunks position expected [] packs = ok expected
validate_chunks position expected (c ∷ chunks) packs =
    let rest =
      validate_chunks (suc position) (add64 expected c.uncompressed_size_bytes) chunks packs in
    if not (c.index == position)
    then err "chunk index must be its position"
    else if not (c.offset == expected)
    then err "chunk index file has gap or overlap"
    else validate_chunk c packs >>= λ _.
        if lt64 (sub64 max_int64 c.uncompressed_size_bytes) expected
        then err "chunk index file chunks exceed int64 size limit"
        else rest

abbrev pub covers_size : Int64 → Int64 → Result (Unit {0})
covers_size size covered =
    check (not (covered == size)) "chunk index file chunks do not cover its size" (ok tt)

abbrev pub is_nil_list : {A : Type 0} → List A → Bool
is_nil_list [] = true
is_nil_list (x ∷ xs) = false

unfoldable pub validate_file : File → List (String × Pack) → Result (Unit {0})
unfolding validate_chunks sort_by_offset
validate_file f packs = check (le64 f.size_bytes 0) "chunk index file sizeBytes must be positive" (
    check (is_empty (trim_space f.digest)) "chunk index file digest must not be empty" (
      check (is_nil_list f.chunks) "chunk index file must contain at least one chunk"
        (validate_chunks 0 0 (sort_by_offset f.chunks) packs >>= covers_size f.size_bytes)))

-- What the loop over the packs has seen.
pub record SeenPacks : Type 0 where
  pub by_id : List (String × Pack)
  pub digests : List String

abbrev pub clean : Pack → Pack
clean p = record p {
  id = trim_space p.id;
  digest = trim_space p.digest;
  media_type = trim_space p.media_type;
}

-- A pack against its layer in the manifest.
unfoldable pub match_layer : Pack → Option ChunkLayerDescriptor → Result (Unit {0})
match_layer p none = err "chunk index pack is not present in manifest layers"
match_layer p (some l) =
    check (not (l.size == p.size_bytes)) "chunk index pack sizeBytes does not match manifest size" (
      check (not (str_eq l.media_type p.media_type))
        "chunk index pack mediaType does not match manifest mediaType" (ok tt))

unfoldable pub validate_pack :
    Pack → SeenPacks → List (String × ChunkLayerDescriptor) → Result SeenPacks
unfolding match_layer
validate_pack p seen manifest =
    check (is_empty p.id) "chunk index pack id must not be empty" (
      check (is_some (lookup p.id seen.by_id)) "chunk index duplicate pack id" (
        check (is_empty p.digest) "chunk index pack digest must not be empty" (
          check (le64 p.size_bytes 0) "chunk index pack sizeBytes must be positive" (
            check (not (is_chunk_pack_media_type p.media_type))
              "chunk index pack has unsupported mediaType"
              (match_layer p (lookup p.digest manifest))))))
    >>= λ _.
        if member p.digest seen.digests
        then err "chunk index duplicate pack digest"
        else ok record { by_id = insert p.id p seen.by_id; digests = p.digest ∷ seen.digests }

unfoldable pub validate_packs_loop :
    SeenPacks → List Pack → List (String × ChunkLayerDescriptor) → Result SeenPacks
unfolding validate_pack
validate_packs_loop seen [] manifest = ok seen
validate_packs_loop seen (p ∷ packs) manifest =
    validate_pack (clean p) seen manifest >>= λ next. validate_packs_loop next packs manifest

abbrev pub count_matches :
    List (String × ChunkLayerDescriptor) → SeenPacks → Result (List (String × Pack))
count_matches manifest seen =
    if not (length seen.by_id == length manifest)
    then err "chunk index packs must match manifest chunk pack layers"
    else ok seen.by_id

unfoldable pub validate_packs :
    List Pack → List (String × ChunkLayerDescriptor) → Result (List (String × Pack))
unfolding validate_packs_loop
validate_packs packs manifest =
    if is_nil_list packs
    then err "chunk index must contain at least one pack"
    else validate_packs_loop record { by_id = []; digests = [] } packs manifest
      >>= count_matches manifest

module _ (relative_path : String → Result String) where
  -- The loop over the files, with the paths that it has seen.
  unfoldable pub validate_files : List String → List File → List (String × Pack) → Result (Unit {0})
  unfolding validate_file
  validate_files seen [] packs = ok tt
  validate_files seen (f ∷ files) packs = relative_path f.path >>= λ path.
      check (str_eq path ".") "chunk index file path must not be root" (
        check (member path seen) "chunk index duplicate file path"
          (validate_file f packs >>= λ _. validate_files (path ∷ seen) files packs))

  unfoldable pub validate_chunk_index :
      ChunkIndexDocument → List (String × ChunkLayerDescriptor) → Result (Unit {0})
  unfolding validate_files validate_packs
  validate_chunk_index d manifest =
      check (not (str_eq (trim_space d.schema_version) "modelpack.chunked.v1"))
        "chunk index schemaVersion is not supported"
        (check (le64 d.chunk_size_bytes 0) "chunk index chunkSizeBytes must be positive" (
          check (lt64 max_chunk_payload_bytes d.chunk_size_bytes)
            "chunk index chunkSizeBytes must not exceed the limit"
            (validate_packs d.packs manifest >>= λ packs.
              check (is_nil_list d.files) "chunk index must contain at least one file"
                (validate_files [] d.files packs))))
