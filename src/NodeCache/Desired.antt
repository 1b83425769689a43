-- ===== src/NodeCache/Desired.antt =====
-- The artifacts that a node is asked to hold: images/controller/internal/nodecache, the files
-- desired_artifacts.go, capacity.go.
pub mod Lookup
pub mod Clean
pub mod Normal
pub mod Capacity
use ai_models.Prelude.{
  String, Bool, true, false, ◌&&◌, not, Option, none, some, List, [], ◌∷◌, ◌++◌, ◌==◌,
  if◌then◌else◌, map,
}
use ai_models.Prelude.Text.{is_empty, trim_space, str_eq, str_lt}
use ai_models.Prelude.Int64.{Int64, add64, lt64, le64}
use ai_models.Prelude.Assoc.{lookup, insert}

pub record DesiredArtifact : Type 0 where
  pub artifact_uri : String
  pub digest : String
  pub family : String
  pub size_bytes : Int64

-- The errors, with the digest that the text names.
pub data DesiredError : Type 0 where
  uri_empty digest_empty : DesiredError
  multiple_uris multiple_families multiple_sizes : String → DesiredError
  size_missing : String → DesiredError
  capacity_exceeded : Int64 → Int64 → DesiredError

pub data Result {ℓ} (A : Type ℓ) : Type ℓ where
  ok : A → Result A
  err : DesiredError → Result A

infixl 5 ◌>>=◌
abbrev pub ◌>>=◌ {ℓ κ} : {A : Type ℓ} {B : Type κ} → Result A → (A → Result B) → Result B
ok a >>= f = f a
err e >>= f = err e

abbrev pub trimmed : DesiredArtifact → DesiredArtifact
trimmed a = record {
  artifact_uri = trim_space a.artifact_uri;
  digest = trim_space a.digest;
  family = trim_space a.family;
  size_bytes = a.size_bytes;
}

unfoldable pub merge_desired_artifact : DesiredArtifact → DesiredArtifact → Result DesiredArtifact
merge_desired_artifact existing artifact =
    if not (str_eq existing.artifact_uri artifact.artifact_uri)
    then err (multiple_uris artifact.digest)
    else if not (is_empty existing.family)
        && not (is_empty artifact.family)
        && not (str_eq existing.family artifact.family)
    then err (multiple_families artifact.digest)
    else if lt64 0 existing.size_bytes
        && lt64 0 artifact.size_bytes
        && not (existing.size_bytes == artifact.size_bytes)
    then err (multiple_sizes artifact.digest)
    else ok (record existing {
      family =
          if is_empty existing.family && not (is_empty artifact.family)
          then artifact.family
          else existing.family;
      size_bytes =
          if le64 existing.size_bytes 0 && lt64 0 artifact.size_bytes
          then artifact.size_bytes
          else existing.size_bytes;
    })

-- `merged != existing`.
abbrev pub same_artifact : DesiredArtifact → DesiredArtifact → Bool
same_artifact a b =
    str_eq a.artifact_uri b.artifact_uri
    && str_eq a.digest b.digest
    && str_eq a.family b.family
    && a.size_bytes == b.size_bytes

unfoldable pub replace_desired_artifact :
    List DesiredArtifact → DesiredArtifact → List DesiredArtifact
replace_desired_artifact [] replacement = []
replace_desired_artifact (a ∷ artifacts) replacement =
    if str_eq a.digest replacement.digest
    then replacement ∷ artifacts
    else a ∷ replace_desired_artifact artifacts replacement

-- The loop's variables: `seen` and `normalized`.
pub record Seen : Type 0 where
  pub seen : List (String × DesiredArtifact)
  pub normalized : List DesiredArtifact

abbrev pub updated : Seen → String → DesiredArtifact → Seen
updated s digest merged = record {
  seen = insert digest merged s.seen;
  normalized = replace_desired_artifact s.normalized merged;
}

-- The rest of the loop's body for a digest that `seen` has.
unfoldable pub merge_seen : Seen → DesiredArtifact → DesiredArtifact → Result Seen
merge_seen s existing artifact = do
  merged ← merge_desired_artifact existing artifact
  ok (if same_artifact merged existing then s else updated s artifact.digest merged)

abbrev pub first : Seen → DesiredArtifact → Seen
first s artifact = record {
  seen = insert artifact.digest artifact s.seen;
  normalized = s.normalized ++ artifact ∷ [];
}

abbrev pub add_found : Seen → DesiredArtifact → Option DesiredArtifact → Result Seen
add_found s artifact none = ok (first s artifact)
add_found s artifact (some existing) = merge_seen s existing artifact

unfoldable pub add_trimmed : Seen → DesiredArtifact → Result Seen
add_trimmed s artifact =
    if is_empty artifact.artifact_uri
    then err uri_empty
    else if is_empty artifact.digest
    then err digest_empty
    else add_found s artifact (lookup artifact.digest s.seen)

unfoldable pub normalize_loop : Seen → List DesiredArtifact → Result Seen
normalize_loop s [] = ok s
normalize_loop s (a ∷ artifacts) =
    add_trimmed s (trimmed a) >>= λ next. normalize_loop next artifacts

-- `sort.Slice` by digest.
unfoldable pub insert_by_digest : DesiredArtifact → List DesiredArtifact → List DesiredArtifact
insert_by_digest a [] = a ∷ []
insert_by_digest a (b ∷ bs) =
    let rest = insert_by_digest a bs in if str_lt b.digest a.digest then b ∷ rest else a ∷ b ∷ bs

unfoldable pub sort_by_digest : List DesiredArtifact → List DesiredArtifact
sort_by_digest [] = []
sort_by_digest (a ∷ artifacts) = insert_by_digest a (sort_by_digest artifacts)

unfoldable pub normalize_desired_artifacts : List DesiredArtifact → Result (List DesiredArtifact)
normalize_desired_artifacts artifacts = do
  s ← normalize_loop (record { seen = []; normalized = [] }) artifacts
  ok (sort_by_digest s.normalized)

unfoldable pub protected_digests : List DesiredArtifact → List String
protected_digests artifacts = elim (normalize_desired_artifacts artifacts) [
  | err e ↦ []
  | ok normalized ↦ map (λ a. a.digest) normalized
]

unfoldable pub sum_sizes : List DesiredArtifact → Int64
sum_sizes [] = 0
sum_sizes (a ∷ artifacts) =
    let rest = sum_sizes artifacts in if lt64 0 a.size_bytes then add64 rest a.size_bytes else rest

unfoldable pub required_size_bytes : List DesiredArtifact → Int64
required_size_bytes artifacts = elim (normalize_desired_artifacts artifacts) [
  | err e ↦ 0
  | ok normalized ↦ sum_sizes normalized
]

unfoldable pub first_unsized : List DesiredArtifact → Option DesiredError
first_unsized [] = none
first_unsized (a ∷ artifacts) =
    if le64 a.size_bytes 0 then some (size_missing a.digest) else first_unsized artifacts

abbrev pub check_fits : Int64 → List DesiredArtifact → Option DesiredError
check_fits limit normalized = elim (first_unsized normalized) [
  | some e ↦ some e
  | none ↦
      let required = required_size_bytes normalized in
      if lt64 limit required then some (capacity_exceeded required limit) else none
]

abbrev pub is_nil : List DesiredArtifact → Bool
is_nil [] = true
is_nil (a ∷ artifacts) = false

unfoldable pub validate_desired_artifacts_fit : Int64 → List DesiredArtifact → Option DesiredError
validate_desired_artifacts_fit limit artifacts =
    if le64 limit 0
    then none
    else if is_nil artifacts
    then none
    else elim (normalize_desired_artifacts artifacts) [
      | err e ↦ some e
      | ok normalized ↦ check_fits limit normalized
    ]
