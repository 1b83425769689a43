-- ===== src/UploadSession/RoundTrip.antt =====
-- A new secret is read back as the session that it was made for.
use ai_models.Prelude.{
  ℕ, ◌≡◌, ◌∙◌, ◌<◌, refl, sym, ap, subst, String, true, false, [], ◌∷◌, none, some, if◌then◌else◌,
  arith, inl, inr, Bool-cases, Option-cases,
}
use ai_models.Prelude.Text.{is_empty, trim_space, trim_space_idem}
use ai_models.Prelude.Int64.{Int64, lt64, le64, half, modulus}
use ai_models.Prelude.Assoc.{read, insert, remove, lookup, is_nil}
use ai_models.Publication.Handle.{ok}
use ai_models.Requests.{Secret}
use ai_models.ModelPack.Results.{◌>>=◌, ok_same, >>=-ok}
use ai_models.UploadSession.{
  issued, parse_phase, parse_input_format, is_input_format, Session, SessionSpec, Codec,
  expires_at_annotation_key, owner_generation_key, whole_seconds,
}
use ai_models.UploadSession.Read.{
  Texts, texts_of, token_hash_from_secret, staging_key_prefix_from_secret, probe_state_from_secret,
  parse_optional_non_negative_int64, expires_at_from_secret, multipart_state_from_secret,
  staged_handle_from_secret, session_from_texts, session_from_secret,
}
use ai_models.UploadSession.Write.{
  Entries, store_token_hash, set_optional_int64, set_optional_string, check_spec, spec_entries,
  spec_annotations, new_secret,
}

module _ (codec : Codec) where
  open codec use {
    hash, format_int, parse_int, format_time, hash_valid, hash_clean, int_clean, parse-format_int,
    time_clean, parse-format_time,
  }

  -- The session that a new secret holds.
  abbrev pub new_session : SessionSpec → Session
  new_session spec = record {
    name = trim_space spec.name;
    upload_token_hash = hash (trim_space (trim_space spec.token));
    expected_size_bytes = spec.expected_size_bytes;
    staging_key_prefix = trim_space spec.staging_key_prefix;
    declared_input_format = trim_space spec.declared_input_format;
    owner_uid = "";
    owner_kind = "";
    owner_name = "";
    owner_namespace = "";
    owner_generation = if le64 spec.owner_generation 0 then 0 else spec.owner_generation;
    expires_at = whole_seconds spec.expires_at;
    phase = issued;
    probe = none;
    multipart = none;
    failure_message = "";
    staged_handle = none;
  }

  abbrev number_text : Int64 → String
  number_text n = if le64 n 0 then "" else format_int n

  new_texts : SessionSpec → Texts
  new_texts spec = record {
    token_hash = hash (trim_space (trim_space spec.token));
    expected_size_bytes = number_text spec.expected_size_bytes;
    staging_key_prefix = trim_space spec.staging_key_prefix;
    declared_input_format = trim_space spec.declared_input_format;
    phase = "issued";
    failure_message = "";
    staged_handle = "";
    multipart_upload_id = "";
    multipart_key = "";
    multipart_file_name = "";
    multipart_uploaded_parts = "";
    probe_file_name = "";
    probe_format = "";
  }

  empty_text : (s : String) → is_empty s ≡ true → s ≡ ""
  empty_text String.[] h = refl
  empty_text (String.◌∷◌ c s) h = absurd (cc)

  -- The entries of a new secret.
  made : SessionSpec → Entries
  made spec = set_optional_string "declaredInputFormat" spec.declared_input_format (
      set_optional_int64 codec "expectedSizeBytes" spec.expected_size_bytes (
        insert "tokenHash" (hash (trim_space (trim_space spec.token)))
          (("stagingKeyPrefix", trim_space spec.staging_key_prefix) ∷ ("phase", "issued") ∷ [])))

  spec_entries-made :
      (spec : SessionSpec)
      → is_empty (trim_space spec.token) ≡ false
      → spec_entries codec spec ≡ ok (made spec)
  unfolding spec_entries store_token_hash made
  spec_entries-made spec t = rw t refl

  texts_of-made :
      (spec : SessionSpec) → (texts_of (made spec) ≡ new_texts spec) × (is_nil (made spec) ≡ false)
  unfolding made set_optional_int64 set_optional_string texts_of new_texts lookup insert remove
      is_nil
  texts_of-made spec = elim (Bool-cases (le64 spec.expected_size_bytes 0)) [
    | inl unsized ↦
        rw unsized (elim (Bool-cases (is_empty (trim_space spec.declared_input_format))) [
          | inl undeclared ↦ rw (undeclared, empty_text _ undeclared) (refl, refl)
          | inr declared ↦ rw declared (refl, refl)
        ])
    | inr sized ↦ rw sized (elim (Bool-cases (is_empty (trim_space spec.declared_input_format))) [
      | inl undeclared ↦ rw (undeclared, empty_text _ undeclared) (refl, refl)
      | inr declared ↦ rw declared (refl, refl)
    ])
  ]

  -- What `NewSecret` tests.
  pub record IsValidSpec (spec : SessionSpec) : Type 0 where
    pub token_filled : is_empty (trim_space spec.token) ≡ false
    pub prefix_filled : is_empty (trim_space spec.staging_key_prefix) ≡ false
    pub size_positive : lt64 spec.expected_size_bytes 0 ≡ false
    pub format_known : is_input_format (trim_space spec.declared_input_format) ≡ true

  positive_half : (n : Int64) → n < modulus → le64 n 0 ≡ false → (n < half) × (lt64 n 0 ≡ false)
  positive_half n w h = (ground arith, ground arith)

  number_text-parse :
      (n : Int64)
      → n < modulus
      → parse_optional_non_negative_int64 codec (number_text n) ≡ ok (if le64 n 0 then 0 else n)
  unfolding parse_optional_non_negative_int64
  number_text-parse n w = elim (Bool-cases (le64 n 0)) [
    | inl none_given ↦ rw none_given (unfold trim_space in refl)
    | inr given ↦
        let p = positive_half n w given in
        rw (given, (int_clean n).0, (int_clean n).1, parse-format_int n p.0, p.1) refl
  ]

  time_lem : (t : ℕ) → expires_at_from_secret codec (format_time t) ≡ ok (whole_seconds t)
  unfolding expires_at_from_secret
  time_lem t = rw ((time_clean t).0, (time_clean t).1, parse-format_time t) refl

  hash_lem : (t : String) → token_hash_from_secret (hash t) ≡ ok (hash t)
  unfolding token_hash_from_secret
  hash_lem t = rw ((hash_clean t).0, (hash_clean t).1, hash_valid t) refl

  annotations_lem :
      (spec : SessionSpec)
      → (read expires_at_annotation_key (spec_annotations codec spec) ≡ format_time spec.expires_at)
        × (read owner_generation_key (spec_annotations codec spec)
            ≡ number_text spec.owner_generation)
        × (read "ai.deckhouse.io/owner-kind-full" (spec_annotations codec spec) ≡ "")
        × (read "ai.deckhouse.io/owner-name-full" (spec_annotations codec spec) ≡ "")
        × (read "ai.deckhouse.io/owner-namespace-full" (spec_annotations codec spec) ≡ "")
  unfolding spec_annotations set_optional_int64 lookup insert remove
  annotations_lem spec = elim (Bool-cases (le64 spec.owner_generation 0)) [
    | inl none_given ↦ rw none_given (refl, refl, refl, refl, refl)
    | inr given ↦ rw given (refl, refl, refl, refl, refl)
  ]

  -- The secret that `NewSecret` makes.
  made_secret : SessionSpec → Secret
  made_secret spec = record {
    name = trim_space spec.name;
    labels = [];
    annotations = spec_annotations codec spec;
    data_fields = made spec;
  }

  prefix_lem :
      (raw : String)
      → is_empty (trim_space raw) ≡ false
      → staging_key_prefix_from_secret (trim_space raw) ≡ ok (trim_space raw)
  unfolding staging_key_prefix_from_secret
  prefix_lem raw h = rw (trim_space_idem raw, h) refl

  format_lem :
      (raw : String)
      → is_input_format (trim_space raw) ≡ true
      → parse_input_format (trim_space raw) ≡ ok (trim_space raw)
  unfolding parse_input_format
  format_lem raw h = rw (trim_space_idem raw, h) refl

  size_lem : (n : Int64) → n < modulus → lt64 n 0 ≡ false → (if le64 n 0 then 0 else n) ≡ n
  size_lem n w h = ground arith

  nothing_stored :
      (spec : SessionSpec)
      → (parse_phase "issued" ≡ ok issued)
        × (probe_state_from_secret "" "" ≡ ok none)
        × (multipart_state_from_secret codec (new_texts spec) ≡ ok none)
        × (staged_handle_from_secret codec "" ≡ ok none)
        × (trim_space "" ≡ "")
  unfolding parse_phase probe_state_from_secret multipart_state_from_secret
      staged_handle_from_secret trim_space new_texts
  nothing_stored spec = (refl, refl, refl, refl, refl)

  texts-session :
      (spec : SessionSpec)
      → spec.expected_size_bytes < modulus
      → spec.owner_generation < modulus
      → IsValidSpec spec
      → session_from_texts codec (made_secret spec) (new_texts spec) ≡ ok (new_session spec)
  unfolding session_from_texts made_secret new_texts
  texts-session spec w g v =
      let notes = annotations_lem spec in
      let blank = nothing_stored spec in
      rw
        (
          hash_lem (trim_space (trim_space spec.token)),
          prefix_lem spec.staging_key_prefix v.prefix_filled,
          number_text-parse spec.expected_size_bytes w,
          format_lem spec.declared_input_format v.format_known,
          notes.0,
          time_lem spec.expires_at,
        )
        (rw (notes.1, number_text-parse spec.owner_generation g, blank.0, blank.1)
          (rw (blank.2, blank.3, notes.2, notes.3, notes.4)
            (rw (blank.4, size_lem spec.expected_size_bytes w v.size_positive)
              (unfold lookup in rw blank.4 refl))))

  made_secret-session :
      (spec : SessionSpec)
      → spec.expected_size_bytes < modulus
      → spec.owner_generation < modulus
      → IsValidSpec spec
      → session_from_secret codec (some (made_secret spec)) ≡ ok (new_session spec)
  unfolding session_from_secret made_secret
  made_secret-session spec w g v = rw (texts_of-made spec).1 (
      ap (session_from_texts codec (made_secret spec)) (texts_of-made spec).0
      ∙ texts-session spec w g v)

  check_spec-IsValidSpec :
      (spec : SessionSpec) (format : String)
      → check_spec codec spec ≡ none
      → parse_input_format spec.declared_input_format ≡ ok format
      → IsValidSpec spec
  unfolding check_spec parse_input_format
  check_spec-IsValidSpec spec format c p = record {
    token_filled = ground arith;
    prefix_filled = ground arith;
    size_positive = ground arith;
    format_known = ground arith;
  }

  with_entries :
      (spec : SessionSpec)
      → IsValidSpec spec
      → (spec_entries codec spec >>= λ entries. ok record {
        name = trim_space spec.name;
        labels = [];
        annotations = spec_annotations codec spec;
        data_fields = entries;
      })
        ≡ ok (made_secret spec)
  unfolding made_secret
  with_entries spec v = rw (spec_entries-made spec v.token_filled) refl

  -- Where the expected size and the generation are 64-bit patterns, a secret that is made for a
  -- specification is read back as its session: the trimmed name, prefix and format, the hash of
  -- the token, the size, the generation where it is above 0, the expiry in whole seconds, the
  -- phase issued, and nothing probed, uploaded or staged.
  pub session_from_secret-new_secret :
      (spec : SessionSpec) (s : Secret)
      → spec.expected_size_bytes < modulus
      → spec.owner_generation < modulus
      → new_secret codec spec ≡ ok s
      → session_from_secret codec (some s) ≡ ok (new_session spec)
  unfolding new_secret
  session_from_secret-new_secret spec s w g = elim (Option-cases (check_spec codec spec)) [
    | inr (e, refused) ↦ rw (refused, new_secret) (λ h. absurd (cc))
    | inl accepted ↦
        rw (accepted, new_secret)
          (λ h.
            let format = >>=-ok (parse_input_format spec.declared_input_format) _ s h in
            let valid = check_spec-IsValidSpec spec format.0 accepted format.1 in
            let same : ok (made_secret spec) ≡ ok s = (sym (with_entries spec valid) ∙ format.2) in
            subst (λ (x : Secret). session_from_secret codec (some x) ≡ ok (new_session spec))
              (ok_same (made_secret spec) s same) (made_secret-session spec w g valid))
  ]
