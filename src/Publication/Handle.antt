-- ===== src/Publication/Handle.antt =====
-- The cleanup handle: images/controller/internal/support/cleanuphandle/handle.go. JSON is a parameter:
-- `unmarshal` is `json.Unmarshal` into a handle, with its error as a text.
use ai_models.Prelude.{
  String, Bool, true, false, Option, none, some, if◌then◌else◌, ◌≡◌, refl, ◌⊎◌, inl, inr,
}
use ai_models.Prelude.Text.{is_empty, trim_space}
use ai_models.Prelude.Int64.{Int64}

-- A Go `error` is its text.
pub data Result {ℓ} (A : Type ℓ) : Type ℓ where
  ok : A → Result A
  err : String → Result A

abbrev pub is_ok : {A : Type 0} → Result A → Bool
is_ok (ok a) = true
is_ok (err e) = false

pub ok-injective : {A : Type 0} {a b : A} → ok a ≡ ok b → a ≡ b
ok-injective h = cc

pub Result-cases :
    {A : Type 0} (r : Result A) → ((a : A) × (r ≡ ok a)) ⊎ ((e : String) × (r ≡ err e))
Result-cases (ok a) = inl (a, refl)
Result-cases (err e) = inr (e, refl)

-- `kind` is any text in Go; `other` stands for one that is not a constant.
pub data Kind : Type 0 where
  backend_artifact upload_staging : Kind
  other : String → Kind

pub record ArtifactSnapshot : Type 0 where
  pub kind : String
  pub uri : String
  pub digest : String

pub record BackendArtifactHandle : Type 0 where
  pub reference : String
  pub repository_metadata_prefix : String
  pub source_mirror_prefix : String

pub record UploadStagingHandle : Type 0 where
  pub bucket : String
  pub key : String
  pub file_name : String
  pub size_bytes : Int64

pub record Handle : Type 0 where
  pub kind : Kind
  pub artifact : Option ArtifactSnapshot
  pub backend : Option BackendArtifactHandle
  pub upload_staging : Option UploadStagingHandle

abbrev pub validate_backend : Option BackendArtifactHandle → Option String
validate_backend none = some "backend cleanup handle payload must not be empty"
validate_backend (some b) =
    if is_empty (trim_space b.reference)
    then some "backend cleanup handle reference must not be empty"
    else none

abbrev pub validate_staging : Option UploadStagingHandle → Option String
validate_staging none = some "upload staging cleanup handle payload must not be empty"
validate_staging (some u) =
    if is_empty (trim_space u.bucket)
    then some "upload staging cleanup handle bucket must not be empty"
    else if is_empty (trim_space u.key)
    then some "upload staging cleanup handle key must not be empty"
    else none

abbrev pub validate_payload : Kind → Handle → Option String
validate_payload Kind.backend_artifact h = validate_backend h.backend
validate_payload Kind.upload_staging h = validate_staging h.upload_staging
validate_payload (Kind.other kind) h = some "unsupported cleanup handle kind"

abbrev pub validate_artifact : Option ArtifactSnapshot → Option String
validate_artifact none = none
validate_artifact (some a) =
    if is_empty (trim_space a.kind)
    then some "cleanup handle artifact kind must not be empty"
    else if is_empty (trim_space a.uri)
    then some "cleanup handle artifact URI must not be empty"
    else none

-- The text of the error about an unsupported kind leaves the kind out.
unfoldable pub validate : Handle → Option String
validate h = elim (validate_payload h.kind h) [
  | some e ↦ some e
  | none ↦ validate_artifact h.artifact
]

abbrev pub checked {ℓ} : {A : Type ℓ} → (A → Option String) → Result A → Result A
checked check (err e) = err e
checked check (ok a) = elim (check a) [ some e ↦ err e | none ↦ ok a ]

unfoldable pub decode : (String → Result Handle) → String → Result Handle
unfolding validate
decode unmarshal raw =
    if is_empty (trim_space raw)
    then err "cleanup handle annotation value must not be empty"
    else checked validate (unmarshal raw)
