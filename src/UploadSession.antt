-- ===== src/UploadSession.antt =====
-- Upload sessions in secrets: images/controller/internal/adapters/k8s/uploadsessionstate, with the states of
-- dataplane/uploadsession/run.go. The texts of numbers, times, parts and handles and the hash are
-- parameters. A secret is that of Requests.antt: its namespace and type are the server's. A function that
-- changes a secret returns it, and a nil secret is `none`.
pub mod Read
pub mod Write
pub mod Automaton
pub mod StoredPhase
pub mod Verdicts
pub mod Phases
pub mod RoundTrip
pub mod Client
mod Examples
use Prim.Native.Char.{code}
use ai_models.Prelude.{
  ℕ, ◌≡◌, ◌<◌, ◌-◌, ◌^◌, ◌%◌, String, Bool, true, false, not, ◌&&◌, ◌||◌, ◌==◌, List, [], ◌∷◌,
  Option, none, some, if◌then◌else◌, leb,
}
use ai_models.Prelude.Text.{is_empty, trim_space, str_eq}
use ai_models.Prelude.Int64.{Int64, lt64, le64, half}
use ai_models.Publication.Handle.{Result, ok, err, Handle}

pub data Phase : Type 0 where
  issued probing uploading uploaded publishing completed failed aborted expired : Phase

abbrev pub phase_text : Phase → String
phase_text issued = "issued"
phase_text probing = "probing"
phase_text uploading = "uploading"
phase_text uploaded = "uploaded"
phase_text publishing = "publishing"
phase_text completed = "completed"
phase_text failed = "failed"
phase_text aborted = "aborted"
phase_text expired = "expired"

abbrev pub phase_of_text : String → Result Phase
phase_of_text text =
    if is_empty text || str_eq text "issued"
    then ok issued
    else if str_eq text "probing"
    then ok probing
    else if str_eq text "uploading"
    then ok uploading
    else if str_eq text "uploaded"
    then ok uploaded
    else if str_eq text "publishing"
    then ok publishing
    else if str_eq text "completed"
    then ok completed
    else if str_eq text "failed"
    then ok failed
    else if str_eq text "aborted"
    then ok aborted
    else if str_eq text "expired"
    then ok expired
    else err "unsupported upload session phase"

unfoldable pub parse_phase : String → Result Phase
parse_phase raw = phase_of_text (trim_space raw)

abbrev pub is_input_format : String → Bool
is_input_format value =
    is_empty value || str_eq value "Safetensors" || str_eq value "GGUF" || str_eq value "Diffusers"

unfoldable pub parse_input_format : String → Result String
parse_input_format raw =
    if is_input_format (trim_space raw)
    then ok (trim_space raw)
    else err "unsupported upload session input format"

pub record UploadedPart : Type 0 where
  pub part_number : Int64
  pub etag : String
  pub size_bytes : Int64

pub record SessionState : Type 0 where
  pub upload_id : String
  pub key : String
  pub file_name : String
  pub uploaded_parts : List UploadedPart

pub record ProbeState : Type 0 where
  pub file_name : String
  pub resolved_input_format : String

pub record Session : Type 0 where
  pub name : String
  pub upload_token_hash : String
  pub expected_size_bytes : Int64
  pub staging_key_prefix : String
  pub declared_input_format : String
  pub owner_uid : String
  pub owner_kind : String
  pub owner_name : String
  pub owner_namespace : String
  pub owner_generation : Int64
  pub expires_at : ℕ
  pub phase : Phase
  pub probe : Option ProbeState
  pub multipart : Option SessionState
  pub failure_message : String
  pub staged_handle : Option Handle

pub record SessionSpec : Type 0 where
  pub name : String
  pub namespace : String
  pub token : String
  pub expected_size_bytes : Int64
  pub staging_key_prefix : String
  pub declared_input_format : String
  pub owner_generation : Int64
  pub expires_at : ℕ

abbrev pub expires_at_annotation_key : String
expires_at_annotation_key = "ai.deckhouse.io/upload-expires-at"

abbrev pub owner_generation_key : String
owner_generation_key = "ai.deckhouse.io/upload-owner-generation"

abbrev is_hex : ℕ → Bool
is_hex c = (leb b'0' c && leb c b'9') || (leb b'a' c && leb c b'f')

all_hex : ℕ → String → Bool
all_hex n String.[] = n == 64
all_hex n (String.◌∷◌ c s) = is_hex (code c) && all_hex (Prim.Native.Nat.suc n) s

-- 64 characters, each a lowercase hexadecimal digit.
unfoldable pub is_valid_token_hash : String → Bool
unfolding all_hex
is_valid_token_hash value = all_hex 0 value

-- A time in seconds, as RFC 3339 has it.
abbrev pub whole_seconds : ℕ → ℕ
whole_seconds t = t - t % 10 ^ 9

-- The texts that the sessions are stored as. What is printed is not blank, has no space at its ends and is
-- read back; a time loses what is below a second.
pub record Codec : Type 0 where
  pub hash : String → String
  pub format_int : Int64 → String
  pub parse_int : String → Option Int64
  pub format_time : ℕ → String
  pub parse_time : String → Option ℕ
  pub marshal_parts : List UploadedPart → Result String
  pub unmarshal_parts : String → Result (List UploadedPart)
  pub marshal_handle : Handle → Result String
  pub unmarshal_handle : String → Result Handle
  pub hash_valid : (t : String) → is_valid_token_hash (hash t) ≡ true
  pub hash_clean : (t : String) → (trim_space (hash t) ≡ hash t) × (is_empty (hash t) ≡ false)
  pub int_clean :
      (n : Int64) → (trim_space (format_int n) ≡ format_int n) × (is_empty (format_int n) ≡ false)
  pub parse-format_int : (n : Int64) → n < half → parse_int (format_int n) ≡ some n
  pub time_clean :
      (t : ℕ) → (trim_space (format_time t) ≡ format_time t) × (is_empty (format_time t) ≡ false)
  pub parse-format_time : (t : ℕ) → parse_time (format_time t) ≡ some (whole_seconds t)

unfoldable pub validate_uploaded_part : UploadedPart → Option String
validate_uploaded_part p =
    if le64 p.part_number 0
    then some "upload session uploaded part number must be positive"
    else if is_empty (trim_space p.etag)
    then some "upload session uploaded part ETag must not be empty"
    else if lt64 p.size_bytes 0
    then some "upload session uploaded part size must not be negative"
    else none

unfoldable pub validate_uploaded_parts : List UploadedPart → Option String
validate_uploaded_parts [] = none
validate_uploaded_parts (p ∷ parts) =
    let rest = validate_uploaded_parts parts in
    elim (validate_uploaded_part p) [ some e ↦ some e | none ↦ rest ]

unfoldable pub validate_multipart_state : SessionState → Option String
validate_multipart_state s =
    if is_empty (trim_space s.upload_id)
    then some "upload session state upload id must not be empty"
    else if is_empty (trim_space s.key)
    then some "upload session state key must not be empty"
    else if is_empty (trim_space s.file_name)
    then some "upload session state file name must not be empty"
    else validate_uploaded_parts s.uploaded_parts
