-- ===== src/UploadSession/Write.antt =====
-- The writes to a session's secret: secret.go, lifecycle.go and the setters of secret_codec.go in
-- images/controller/internal/adapters/k8s/uploadsessionstate.
use ai_models.Prelude.{
  ◌==◌, String, Bool, true, false, List, [], ◌∷◌, Option, none, some, if◌then◌else◌,
}
use ai_models.Prelude.Text.{is_empty, trim_space}
use ai_models.Prelude.Int64.{Int64, lt64, le64}
use ai_models.Prelude.Assoc.{read, insert, remove}
use ai_models.Publication.Handle.{Result, ok, err, Handle, validate}
use ai_models.Requests.{Secret}
use ai_models.ModelPack.Results.{◌>>=◌}
use ai_models.UploadSession.{
  Phase, issued, probing, uploading, uploaded, publishing, completed, failed, aborted, expired,
  phase_text, parse_phase, parse_input_format, UploadedPart, SessionState, ProbeState, SessionSpec,
  Codec, expires_at_annotation_key, owner_generation_key, validate_multipart_state,
}

abbrev pub Entries : Type 0
Entries = List (String × String)

abbrev pub set_phase : Phase → Entries → Entries
set_phase phase m = insert "phase" (phase_text phase) m

unfoldable pub set_runtime_phase : Phase → Bool → Entries → Entries
set_runtime_phase phase clear_staged_handle m =
    let kept = remove "failureMessage" (set_phase phase m) in
    if clear_staged_handle then remove "stagedHandle" kept else kept

unfoldable pub set_optional_string : String → String → Entries → Entries
set_optional_string key value m =
    if is_empty (trim_space value) then remove key m else insert key (trim_space value) m

unfoldable pub clear_multipart_state : Entries → Entries
clear_multipart_state m =
    remove "multipartUploadedParts"
      (remove "multipartFileName" (remove "multipartKey" (remove "multipartUploadID" m)))

unfoldable pub mark_terminal : Phase → String → Bool → Entries → Result Entries
mark_terminal phase message clear_staged_handle m =
    if is_empty (trim_space message)
    then err "upload session terminal message must not be empty"
    else ok (
        insert "failureMessage" (trim_space message)
          (set_phase phase (if clear_staged_handle then remove "stagedHandle" m else m)))

unfoldable pub clear_multipart : Entries → Result Entries
unfolding clear_multipart_state
clear_multipart m = ok (
    remove "stagedHandle" (
      remove "failureMessage" (
        set_phase
          (if is_empty (trim_space (read "probeFileName" (clear_multipart_state m)))
            then issued
            else probing)
          (clear_multipart_state m))))

-- What a phase allows: `MarkPublishing`, `MarkCompleted` and `MarkPublishingFailed` leave the others.
abbrev pub allows_publishing : Phase → Bool
allows_publishing completed = false
allows_publishing failed = false
allows_publishing aborted = false
allows_publishing expired = false
allows_publishing _ = true

abbrev pub allows_completed : Phase → Bool
allows_completed failed = false
allows_completed aborted = false
allows_completed expired = false
allows_completed _ = true

abbrev pub allows_publishing_failed : Phase → Bool
allows_publishing_failed completed = false
allows_publishing_failed aborted = false
allows_publishing_failed expired = false
allows_publishing_failed _ = true

unfoldable pub mark_publishing : Entries → Result Entries
unfolding set_runtime_phase
mark_publishing m = parse_phase (read "phase" m) >>= λ phase.
    ok (if allows_publishing phase then set_runtime_phase publishing false m else m)

unfoldable pub mark_completed : Entries → Result Entries
unfolding set_runtime_phase
mark_completed m = parse_phase (read "phase" m) >>= λ phase.
    ok (if allows_completed phase then set_runtime_phase completed true m else m)

unfoldable pub mark_publishing_failed : String → Entries → Result Entries
unfolding mark_terminal
mark_publishing_failed message m = parse_phase (read "phase" m) >>= λ phase.
    if allows_publishing_failed phase then mark_terminal failed message false m else ok m

abbrev pub mark_failed : String → Entries → Result Entries
mark_failed message m = mark_terminal failed message true m

abbrev pub mark_aborted : String → Entries → Result Entries
mark_aborted message m = mark_terminal aborted message true m

abbrev pub mark_expired : String → Entries → Result Entries
mark_expired message m = mark_terminal expired message true m

module _ (codec : Codec) where
  open codec use {hash, format_int, format_time, marshal_parts, marshal_handle}

  unfoldable pub store_token_hash : String → Entries → Result Entries
  store_token_hash token m =
      if is_empty (trim_space token)
      then err "upload session token must not be empty"
      else ok (insert "tokenHash" (hash (trim_space (trim_space token))) m)

  unfoldable pub set_optional_int64 : String → Int64 → Entries → Entries
  set_optional_int64 key value m =
      if le64 value 0 then remove key m else insert key (format_int value) m

  abbrev pub insert_parts : Entries → Result String → Result Entries
  insert_parts m (err e) = err e
  insert_parts m (ok payload) = ok (insert "multipartUploadedParts" payload m)

  unfoldable pub set_uploaded_parts : List UploadedPart → Entries → Result Entries
  set_uploaded_parts [] m = ok (remove "multipartUploadedParts" m)
  set_uploaded_parts (p ∷ parts) m = insert_parts m (marshal_parts (p ∷ parts))

  abbrev pub insert_state : SessionState → Entries → Entries
  insert_state state m = insert "multipartFileName" (trim_space state.file_name) (
      insert "multipartKey" (trim_space state.key)
        (insert "multipartUploadID" (trim_space state.upload_id) m))

  unfoldable pub set_multipart_state : SessionState → Entries → Result Entries
  unfolding set_uploaded_parts
  set_multipart_state state m = elim (validate_multipart_state state) [
    | some e ↦ err e
    | none ↦ set_uploaded_parts state.uploaded_parts (insert_state state m)
  ]

  unfoldable pub save_multipart : SessionState → Entries → Result Entries
  unfolding set_multipart_state set_runtime_phase
  save_multipart state m =
      set_multipart_state state m >>= λ n. ok (set_runtime_phase uploading true n)

  unfoldable pub save_probe : Int64 → ProbeState → Entries → Result Entries
  unfolding set_optional_int64 set_optional_string set_runtime_phase
  save_probe expected_size_bytes state m =
      if is_empty (trim_space state.file_name)
      then err "upload session probe file name must not be empty"
      else if lt64 expected_size_bytes 0
      then err "upload session expected size bytes must not be negative"
      else ok (
          set_runtime_phase probing false (
            set_optional_string "probeResolvedInputFormat" state.resolved_input_format (
              set_optional_int64 "expectedSizeBytes" expected_size_bytes
                (insert "probeFileName" (trim_space state.file_name) m))))

  abbrev pub encode_handle : Handle → Result String
  encode_handle handle = elim (validate handle) [ some e ↦ err e | none ↦ marshal_handle handle ]

  unfoldable pub mark_uploaded : Handle → Entries → Result Entries
  mark_uploaded handle m = encode_handle handle >>= λ encoded.
      ok (remove "failureMessage" (insert "stagedHandle" encoded (set_phase uploaded m)))

  unfoldable pub check_spec : SessionSpec → Option String
  check_spec spec =
      if is_empty (trim_space spec.name)
      then some "upload session secret name must not be empty"
      else if is_empty (trim_space spec.namespace)
      then some "upload session secret namespace must not be empty"
      else if is_empty (trim_space spec.token)
      then some "upload session token must not be empty"
      else if is_empty (trim_space spec.staging_key_prefix)
      then some "upload session staging key prefix must not be empty"
      else if lt64 spec.expected_size_bytes 0
      then some "upload session expected size bytes must not be negative"
      else if spec.expires_at == 0
      then some "upload session expiry must not be zero"
      else none

  unfoldable pub spec_entries : SessionSpec → Result Entries
  unfolding set_optional_int64 set_optional_string store_token_hash
  spec_entries spec =
      store_token_hash spec.token
        (("stagingKeyPrefix", trim_space spec.staging_key_prefix) ∷ ("phase", "issued") ∷ [])
      >>= λ m. ok (
          set_optional_string "declaredInputFormat" spec.declared_input_format
            (set_optional_int64 "expectedSizeBytes" spec.expected_size_bytes m))

  unfoldable pub spec_annotations : SessionSpec → Entries
  unfolding set_optional_int64
  spec_annotations spec =
      set_optional_int64 owner_generation_key spec.owner_generation
        ((expires_at_annotation_key, format_time spec.expires_at) ∷ [])

  unfoldable pub new_secret : SessionSpec → Result Secret
  unfolding check_spec spec_entries spec_annotations
  new_secret spec = elim (check_spec spec) [
    | some e ↦ err e
    | none ↦ parse_input_format spec.declared_input_format >>= λ format.
        spec_entries spec >>= λ entries. ok record {
          name = trim_space spec.name;
          labels = [];
          annotations = spec_annotations spec;
          data_fields = entries;
        }
  ]
