-- ===== src/Publication/Observe/Errors.antt =====
-- The errors that the decoders and validations return: each has a text.
use ai_models.Prelude.{
  ◌≡◌, refl, String, Bool, true, false, not, Option, none, some, if◌then◌else◌, arith,
}
use ai_models.Prelude.Text.{is_empty, trim_space, str_eq}
use ai_models.Prelude.Int64.{lt64}
use ai_models.Publication.Handle.{
  Handle, Kind, Result, ok, err, ok-injective, is_ok, Result-cases, checked, decode,
  UploadStagingHandle, BackendArtifactHandle, ArtifactSnapshot, validate_backend, validate_staging,
  validate_payload,
}
use ai_models.Publication.Handle
use ai_models.Publication.Snapshot.{
  Identity, ArtifactResult, SourceProvenance, PublishedArtifact, decode_result, validate_result,
  or_else, validate_source, validate_artifact,
}
use ai_models.Publication.Observe.{decode_runtime_result, decode_upload_staging_handle}

-- A result that is an error has a text, and so has a validation's.
abbrev pub told : {A : Type 0} → Result A → Bool
told (ok a) = true
told (err e) = not (is_empty e)

abbrev pub told_option : Option String → Bool
told_option none = true
told_option (some e) = not (is_empty e)

or_else-told :
    (a b : Option String)
    → told_option a ≡ true
    → told_option b ≡ true
    → told_option (or_else a b) ≡ true
or_else-told none b h k = k
or_else-told (some e) b h k = h

test-told :
    (test : Bool) (a b : Option String)
    → told_option a ≡ true
    → told_option b ≡ true
    → told_option (if test then a else b) ≡ true
test-told true a b h k = h
test-told false a b h k = k

backend-told : (o : Option BackendArtifactHandle) → told_option (validate_backend o) ≡ true
backend-told none = refl
backend-told (some b) = test-told (is_empty (trim_space b.reference)) _ _ refl refl

staging-told : (o : Option UploadStagingHandle) → told_option (validate_staging o) ≡ true
staging-told none = refl
staging-told (some u) =
    test-told (is_empty (trim_space u.bucket)) _ _ refl
      (test-told (is_empty (trim_space u.key)) _ _ refl refl)

payload-told : (k : Kind) (h : Handle) → told_option (validate_payload k h) ≡ true
payload-told Kind.backend_artifact h = backend-told h.backend
payload-told Kind.upload_staging h = staging-told h.upload_staging
payload-told (Kind.other k) h = refl

snapshot-told : (o : Option ArtifactSnapshot) → told_option (Handle.validate_artifact o) ≡ true
snapshot-told none = refl
snapshot-told (some a) =
    test-told (is_empty (trim_space a.kind)) _ _ refl
      (test-told (is_empty (trim_space a.uri)) _ _ refl refl)

validate-told : (h : Handle) → told_option (Handle.validate h) ≡ true
unfolding Handle.validate
validate-told h = ground (arith, payload-told h.kind h, snapshot-told h.artifact)

validate_source-told : (s : SourceProvenance) → told_option (validate_source s) ≡ true
unfolding validate_source
validate_source-told s = test-told (is_empty (trim_space s.source_type)) _ _ refl (
    test-told (lt64 s.raw_object_count 0) _ _ refl
      (test-told (lt64 s.raw_size_bytes 0) _ _ refl refl))

validate_artifact-told : (a : PublishedArtifact) → told_option (validate_artifact a) ≡ true
unfolding validate_artifact
validate_artifact-told a =
    test-told (not (str_eq a.kind "OCI")) _ _ refl
      (test-told (is_empty (trim_space a.uri)) _ _ refl refl)

validate_result-told : (r : ArtifactResult) → told_option (validate_result r) ≡ true
unfolding validate_result
validate_result-told r = or_else-told (validate_source r.source) _ (validate_source-told r.source) (
    or_else-told (validate_artifact r.artifact) _ (validate_artifact-told r.artifact)
      (validate-told r.cleanup_handle))

checked-told :
    {A : Type 0} (check : A → Option String) (r : Result A)
    → ((a : A) → told_option (check a) ≡ true)
    → told r ≡ true
    → told (checked check r) ≡ true
checked-told check (err e) h k = k
checked-told check (ok a) h k = ground (arith, h a)

pub decode_runtime_result-told :
    (unmarshal : String → Result ArtifactResult) (identity : Identity) (raw : String)
    → told (unmarshal raw) ≡ true
    → told (decode_runtime_result unmarshal identity raw) ≡ true
unfolding decode_runtime_result decode_result
decode_runtime_result-told unmarshal identity raw h =
    ground (arith, checked-told validate_result (unmarshal raw) validate_result-told h)

pub decode_upload_staging_handle-told :
    (unmarshal : String → Result Handle) (raw : String)
    → told (unmarshal raw) ≡ true
    → told (decode_upload_staging_handle unmarshal raw) ≡ true
unfolding decode_upload_staging_handle decode
decode_upload_staging_handle-told unmarshal raw h =
    ground (arith, checked-told Handle.validate (unmarshal raw) validate-told h)
