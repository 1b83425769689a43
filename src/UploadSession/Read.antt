-- ===== src/UploadSession/Read.antt =====
-- The session that a secret holds: `SessionFromSecret` and the parsers of secret_codec.go in
-- images/controller/internal/adapters/k8s/uploadsessionstate.
use ai_models.Prelude.{
  ℕ, String, Bool, true, false, not, ◌&&◌, List, [], ◌∷◌, Option, none, some, if◌then◌else◌,
}
use ai_models.Prelude.Text.{is_empty, trim_space}
use ai_models.Prelude.Int64.{Int64, lt64}
use ai_models.Prelude.Assoc.{read, is_nil}
use ai_models.Publication.Handle.{Result, ok, err, Handle, decode}
use ai_models.Requests.{Secret}
use ai_models.ModelPack.Results.{◌>>=◌}
use ai_models.UploadSession.{
  parse_phase, parse_input_format, UploadedPart, SessionState, ProbeState, Session, Codec,
  is_valid_token_hash, expires_at_annotation_key, owner_generation_key, validate_uploaded_parts,
  validate_multipart_state,
}

-- The entries of a secret's data, by the names of their keys.
pub record Texts : Type 0 where
  pub token_hash : String
  pub expected_size_bytes : String
  pub staging_key_prefix : String
  pub declared_input_format : String
  pub phase : String
  pub failure_message : String
  pub staged_handle : String
  pub multipart_upload_id : String
  pub multipart_key : String
  pub multipart_file_name : String
  pub multipart_uploaded_parts : String
  pub probe_file_name : String
  pub probe_format : String

unfoldable pub texts_of : List (String × String) → Texts
texts_of m = record {
  token_hash = read "tokenHash" m;
  expected_size_bytes = read "expectedSizeBytes" m;
  staging_key_prefix = read "stagingKeyPrefix" m;
  declared_input_format = read "declaredInputFormat" m;
  phase = read "phase" m;
  failure_message = read "failureMessage" m;
  staged_handle = read "stagedHandle" m;
  multipart_upload_id = read "multipartUploadID" m;
  multipart_key = read "multipartKey" m;
  multipart_file_name = read "multipartFileName" m;
  multipart_uploaded_parts = read "multipartUploadedParts" m;
  probe_file_name = read "probeFileName" m;
  probe_format = read "probeResolvedInputFormat" m;
}

unfoldable pub token_hash_from_secret : String → Result String
token_hash_from_secret raw =
    if is_empty (trim_space raw)
    then err "upload session token hash must not be empty"
    else if not (is_valid_token_hash (trim_space raw))
    then err "upload session token hash must be a 64-character lowercase hex string"
    else ok (trim_space raw)

unfoldable pub staging_key_prefix_from_secret : String → Result String
staging_key_prefix_from_secret raw =
    if is_empty (trim_space raw)
    then err "upload session staging key prefix must not be empty"
    else ok (trim_space raw)

unfoldable pub probe_state_from_secret : String → String → Result (Option ProbeState)
probe_state_from_secret file_name format =
    if is_empty (trim_space file_name)
    then ok none
    else parse_input_format format >>= λ resolved.
        ok (some record { file_name = trim_space file_name; resolved_input_format = resolved })

module _ (codec : Codec) where
  open codec use {parse_int, parse_time, unmarshal_parts, unmarshal_handle}

  abbrev pub not_negative : Option Int64 → Result Int64
  not_negative none = err "parse integer"
  not_negative (some n) = if lt64 n 0 then err "must not be negative" else ok n

  unfoldable pub parse_optional_non_negative_int64 : String → Result Int64
  parse_optional_non_negative_int64 raw =
      if is_empty (trim_space raw) then ok 0 else not_negative (parse_int (trim_space raw))

  abbrev pub parsed_time : Option ℕ → Result ℕ
  parsed_time none = err "parse upload session expiry"
  parsed_time (some t) = ok t

  unfoldable pub expires_at_from_secret : String → Result ℕ
  expires_at_from_secret raw =
      if is_empty (trim_space raw)
      then err "upload session expiry annotation is missing"
      else parsed_time (parse_time (trim_space raw))

  abbrev pub valid_parts : List UploadedPart → Result (List UploadedPart)
  valid_parts parts = elim (validate_uploaded_parts parts) [ some e ↦ err e | none ↦ ok parts ]

  unfoldable pub uploaded_parts_from_secret : String → Result (List UploadedPart)
  uploaded_parts_from_secret raw =
      if is_empty (trim_space raw) then ok [] else unmarshal_parts (trim_space raw) >>= valid_parts

  abbrev pub is_no_part : List UploadedPart → Bool
  is_no_part [] = true
  is_no_part (p ∷ parts) = false

  abbrev pub multipart_state : SessionState → Result (Option SessionState)
  multipart_state s =
      if is_empty s.upload_id
        && is_empty s.key
        && is_empty s.file_name
        && is_no_part s.uploaded_parts
      then ok none
      else elim (validate_multipart_state s) [ some e ↦ err e | none ↦ ok (some s) ]

  unfoldable pub multipart_state_from_secret : Texts → Result (Option SessionState)
  unfolding uploaded_parts_from_secret
  multipart_state_from_secret t = uploaded_parts_from_secret t.multipart_uploaded_parts >>= λ parts.
      multipart_state record {
        upload_id = trim_space t.multipart_upload_id;
        key = trim_space t.multipart_key;
        file_name = trim_space t.multipart_file_name;
        uploaded_parts = parts;
      }

  unfoldable pub staged_handle_from_secret : String → Result (Option Handle)
  staged_handle_from_secret raw =
      if is_empty (trim_space raw)
      then ok none
      else decode unmarshal_handle (trim_space raw) >>= λ handle. ok (some handle)

  -- `SessionFromSecret`, on the texts of its data.
  unfoldable pub session_from_texts : Secret → Texts → Result Session
  session_from_texts s t = token_hash_from_secret t.token_hash >>= λ hash.
      staging_key_prefix_from_secret t.staging_key_prefix >>= λ prefix.
      parse_optional_non_negative_int64 t.expected_size_bytes >>= λ expected.
      parse_input_format t.declared_input_format >>= λ format.
      expires_at_from_secret (read expires_at_annotation_key s.annotations) >>= λ expires.
      parse_optional_non_negative_int64 (read owner_generation_key s.annotations) >>= λ generation.
      parse_phase t.phase >>= λ phase.
      probe_state_from_secret t.probe_file_name t.probe_format >>= λ probe.
      multipart_state_from_secret t >>= λ multipart.
      staged_handle_from_secret t.staged_handle >>= λ handle. ok record {
        name = s.name;
        upload_token_hash = hash;
        expected_size_bytes = expected;
        staging_key_prefix = prefix;
        declared_input_format = format;
        owner_uid = trim_space (read "ai.deckhouse.io/owner-uid" s.labels);
        owner_kind = trim_space (read "ai.deckhouse.io/owner-kind-full" s.annotations);
        owner_name = trim_space (read "ai.deckhouse.io/owner-name-full" s.annotations);
        owner_namespace = trim_space (read "ai.deckhouse.io/owner-namespace-full" s.annotations);
        owner_generation = generation;
        expires_at = expires;
        phase = phase;
        probe = probe;
        multipart = multipart;
        failure_message = trim_space t.failure_message;
        staged_handle = handle;
      }

  unfoldable pub session_from_secret : Option Secret → Result Session
  unfolding session_from_texts texts_of
  session_from_secret none = err "upload session secret must not be nil"
  session_from_secret (some s) =
      if is_nil s.data_fields
      then err "upload session secret data must not be empty"
      else session_from_texts s (texts_of s.data_fields)
