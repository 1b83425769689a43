-- ===== src/ModelPack/MediaType/Exact.antt =====
-- Which media types are built, and that each is read back.
use text.Mathlib.TextEquality.{eq_iff}
use text.Mathlib.TextLemmas.{cons-ne-nil}
use ai_models.Prelude.{
  ◌≡◌, ◌≢◌, ◌↔◌, ◌⊎◌, refl, String, Bool, true, false, ◌&&◌, ◌||◌, List, [], ◌∷◌, if◌then◌else◌, In,
  Bool-cases, inl, inr, arith,
}
use ai_models.Prelude.Text.{is_empty, trim_space, str_eq}
use ai_models.Publication.Handle.{Result, ok, err}
use ai_models.ModelPack.MediaType.{
  is_layer_base, is_layer_format, is_publish_compression, parse_layer_base, parse_layer_format,
  parse_layer_media_type, tar_end, layer_end, with_base, build_layer_media_type,
}
use ai_models.ModelPack.MediaType.RoundTrip.{wire_compression, parse-build}

-- What a layer may be published as.
abbrev pub known_bases : List String
known_bases = "weight" ∷ "weight.config" ∷ "dataset" ∷ "code" ∷ "doc" ∷ []

abbrev pub IsPublishable : String → String → String → Type 0
IsPublishable b f c =
    In b known_bases
    × In (trim_space f) ("tar" ∷ "raw" ∷ [])
    × (In c ("" ∷ "none" ∷ []) ⊎ (In c ("gzip" ∷ "gzip-fastest" ∷ "zstd" ∷ []) × (f ≢ "raw")))

-- What a build for a base, a format and a compression may return.
abbrev pub RoundTrips : String → String → String → Result String → Type 0
RoundTrips b f c (err e) = ¬ IsPublishable b f c
RoundTrips b f c (ok t) =
    IsPublishable b f c
    × (parse_layer_media_type t
        ≡ ok record {
          base = b;
          format = if str_eq f "raw" then "raw" else "tar";
          compression = wire_compression c;
        })

is_empty_iff : (s : String) → (is_empty s ≡ true) ↔ (s ≡ "")
is_empty_iff String.[] = (λ h. refl, λ h. refl)
is_empty_iff (String.◌∷◌ c s) = (λ h. absurd (cc), λ h. absurd (cons-ne-nil c s h))

is_layer_base_iff : (b : String) → (is_layer_base b ≡ true) ↔ In b known_bases
is_layer_base_iff b = ground (
  arith,
  eq_iff b "weight",
  eq_iff b "weight.config",
  eq_iff b "dataset",
  eq_iff b "code",
  eq_iff b "doc",
)

is_layer_format_iff : (f : String) → (is_layer_format f ≡ true) ↔ In f ("tar" ∷ "raw" ∷ [])
is_layer_format_iff f = ground (arith, eq_iff f "tar", eq_iff f "raw")

plain_iff : (c : String) → ((is_empty c || str_eq c "none") ≡ true) ↔ In c ("" ∷ "none" ∷ [])
plain_iff c = ground (arith, is_empty_iff c, eq_iff c "none")

packed_iff :
    (c : String)
    → ((str_eq c "gzip" || (str_eq c "gzip-fastest" || str_eq c "zstd")) ≡ true)
      ↔ In c ("gzip" ∷ "gzip-fastest" ∷ "zstd" ∷ [])
packed_iff c = ground (arith, eq_iff c "gzip", eq_iff c "gzip-fastest", eq_iff c "zstd")

abbrev is_ok : Result String → Bool
is_ok (ok t) = true
is_ok (err e) = false

layer_end_iff :
    (f c : String)
    → (is_ok (layer_end f c) ≡ true)
      ↔ (In c ("" ∷ "none" ∷ []) ⊎ (In c ("gzip" ∷ "gzip-fastest" ∷ "zstd" ∷ []) × (f ≢ "raw")))
unfolding layer_end tar_end
layer_end_iff f c = ground (arith, plain_iff c, packed_iff c, eq_iff f "raw")

-- A compression that has an end may be published.
layer_end-is_publish_compression :
    (f c : String) → is_ok (layer_end f c) ≡ true → is_publish_compression c ≡ true
unfolding layer_end tar_end
layer_end-is_publish_compression f c h = ground arith

is_ok-with_base : (b : String) (r : Result String) → is_ok (with_base b r) ≡ is_ok r
is_ok-with_base b (ok end) = refl
is_ok-with_base b (err e) = refl

-- A build returns a media type exactly when its four checks pass.
build-is_ok :
    (b f c : String)
    → trim_space b ≡ b
    → is_ok (build_layer_media_type b f c) ≡ (
        is_layer_base b
        && is_layer_format (trim_space f)
        && is_publish_compression c
        && is_ok (layer_end f c))
unfolding build_layer_media_type parse_layer_base parse_layer_format
build-is_ok b f c trimmed = rw trimmed (elim (Bool-cases (is_layer_base b)) [
  | inr unknown ↦ rw unknown refl
  | inl known ↦ rw known (elim (Bool-cases (is_layer_format (trim_space f))) [
    | inr odd ↦ rw odd refl
    | inl form ↦ rw form (elim (Bool-cases (is_publish_compression c)) [
      | inr odd ↦ rw odd refl
      | inl packing ↦ rw packing (is_ok-with_base b (layer_end f c))
    ])
  ])
])

four_hold :
    (a b c d : Bool)
    → (d ≡ true → c ≡ true)
    → ((a && b && c && d) ≡ true) ↔ ((a ≡ true) × (b ≡ true) × (d ≡ true))
four_hold a b c d h = ground arith

build_iff :
    (b f c : String)
    → trim_space b ≡ b
    → (is_ok (build_layer_media_type b f c) ≡ true) ↔ IsPublishable b f c
build_iff b f c trimmed =
    let holds = four_hold _ _ _ _ (layer_end-is_publish_compression f c) in
    let base = is_layer_base_iff b in
    let form = is_layer_format_iff (trim_space f) in
    let packing = layer_end_iff f c in
    rw (build-is_ok b f c trimmed) (
      λ h. let (x, y, z) = holds.0 h in (base.0 x, form.0 y, packing.0 z),
      λ (x, y, z). holds.1 (base.1 x, form.1 y, packing.1 z),
    )

result-RoundTrips :
    (b f c : String) (r : Result String)
    → trim_space b ≡ b
    → build_layer_media_type b f c ≡ r
    → RoundTrips b f c r
result-RoundTrips b f c (ok t) trimmed e =
    ((build_iff b f c trimmed).0 (rw e), parse-build b f c t trimmed e)
result-RoundTrips b f c (err x) trimmed e =
    λ p. let no : false ≡ true = (rw e at (build_iff b f c trimmed).1 p) in absurd (cc)

-- For a base without spaces at its ends a media type is built exactly if the base is one of the five,
-- the format is "tar" or "raw" once trimmed, and the compression is empty or "none", or else "gzip",
-- "gzip-fastest" or "zstd" where the format is not "raw"; and what is built parses to that base, to
-- "raw" if the format is that and to "tar" otherwise, and to the compression on the wire: none, zstd,
-- or gzip for both of its levels.
pub build_layer_media_type-RoundTrips :
    (b f c : String) → trim_space b ≡ b → RoundTrips b f c (build_layer_media_type b f c)
build_layer_media_type-RoundTrips b f c trimmed = result-RoundTrips b f c _ trimmed refl
