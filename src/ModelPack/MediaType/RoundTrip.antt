-- ===== src/ModelPack/MediaType/RoundTrip.antt =====
-- A media type that was built is read back.
use ai_models.Prelude.{
  ◌≡◌, refl, sym, subst, inl, inr, String, true, false, ◌||◌, if◌then◌else◌, Bool-cases,
}
use ai_models.Prelude.Text.{is_empty, trim_space, str_eq, str_eq→eq}
use ai_models.Publication.Handle.{Result, ok, err}
use ai_models.ModelPack.MediaType.{
  is_layer_base, is_layer_format, is_publish_compression, parse_layer_base, parse_layer_format,
  parse_wire_compression, parse_layer_media_type, media_type_text, tar_end, layer_end, with_base,
  build_layer_media_type,
}

-- What is true of the five names is true of every known base.
pub is_layer_base-cases :
    (P : String → Type 0) (b : String)
    → is_layer_base b ≡ true
    → P "weight"
    → P "weight.config"
    → P "dataset"
    → P "code"
    → P "doc"
    → P b
is_layer_base-cases P b h weight config dataset code doc = elim (Bool-cases (str_eq b "weight")) [
  | inl e ↦ subst P (sym (str_eq→eq b "weight" e)) weight
  | inr n1 ↦ elim (Bool-cases (str_eq b "weight.config")) [
    | inl e ↦ subst P (sym (str_eq→eq b "weight.config" e)) config
    | inr n2 ↦ elim (Bool-cases (str_eq b "dataset")) [
      | inl e ↦ subst P (sym (str_eq→eq b "dataset" e)) dataset
      | inr n3 ↦ elim (Bool-cases (str_eq b "code")) [
        | inl e ↦ subst P (sym (str_eq→eq b "code" e)) code
        | inr n4 ↦
            subst P (sym (str_eq→eq b "doc" (let last = rw (n1, n2, n3, n4) at h in last))) doc
      ]
    ]
  ]
]

-- The compression that a layer is read back with.
abbrev pub wire_compression : String → String
wire_compression compression =
    if is_empty compression || str_eq compression "none"
    then "none"
    else if str_eq compression "zstd"
    then "zstd"
    else "gzip"

abbrev ReadsBack : String → String → String → String → Type 0
ReadsBack end format compression b =
    parse_layer_media_type (media_type_text b end)
    ≡ ok record { base = b; format = format; compression = compression }

raw_lem : (b : String) → is_layer_base b ≡ true → ReadsBack "raw" "raw" "none" b
unfolding parse_layer_media_type parse_layer_base parse_layer_format parse_wire_compression
    trim_space
raw_lem b h = is_layer_base-cases (ReadsBack "raw" "raw" "none") b h refl refl refl refl refl

tar_lem : (b : String) → is_layer_base b ≡ true → ReadsBack "tar" "tar" "none" b
unfolding parse_layer_media_type parse_layer_base parse_layer_format parse_wire_compression
    trim_space
tar_lem b h = is_layer_base-cases (ReadsBack "tar" "tar" "none") b h refl refl refl refl refl

gzip_lem : (b : String) → is_layer_base b ≡ true → ReadsBack "tar+gzip" "tar" "gzip" b
unfolding parse_layer_media_type parse_layer_base parse_layer_format parse_wire_compression
    trim_space
gzip_lem b h = is_layer_base-cases (ReadsBack "tar+gzip" "tar" "gzip") b h refl refl refl refl refl

zstd_lem : (b : String) → is_layer_base b ≡ true → ReadsBack "tar+zstd" "tar" "zstd" b
unfolding parse_layer_media_type parse_layer_base parse_layer_format parse_wire_compression
    trim_space
zstd_lem b h = is_layer_base-cases (ReadsBack "tar+zstd" "tar" "zstd") b h refl refl refl refl refl

ok_end : (a b : String) → ok a ≡ ok b → a ≡ b
ok_end a b h = cc

err_ok : (a b : String) → err a ≡ ok b → ⊥
err_ok a b h = cc

not_zstd :
    (c : String) → (str_eq c "gzip" || str_eq c "gzip-fastest") ≡ true → str_eq c "zstd" ≡ false
not_zstd c h = elim (Bool-cases (str_eq c "zstd")) [
  | inr other ↦ other
  | inl zstd ↦
      let e = str_eq→eq c "zstd" zstd in
      let no : false ≡ true =
        subst (λ d. (str_eq d "gzip" || str_eq d "gzip-fastest") ≡ true) e h in
      absurd (cc)
]

tar_end-ReadsBack :
    (c end b : String)
    → is_layer_base b ≡ true
    → tar_end c ≡ ok end
    → ReadsBack end "tar" (wire_compression c) b
unfolding tar_end
tar_end-ReadsBack c end b l = elim (Bool-cases (is_empty c || str_eq c "none")) [
  | inl plain ↦ rw plain (λ h. subst (λ e. ReadsBack e "tar" "none" b) (ok_end _ _ h) (tar_lem b l))
  | inr packed ↦ rw packed (elim (Bool-cases (str_eq c "gzip" || str_eq c "gzip-fastest")) [
    | inl gzip ↦
        rw (gzip, not_zstd c gzip)
          (λ h. subst (λ e. ReadsBack e "tar" "gzip" b) (ok_end _ _ h) (gzip_lem b l))
    | inr other ↦ rw other (elim (Bool-cases (str_eq c "zstd")) [
      | inl zstd ↦
          rw zstd (λ h. subst (λ e. ReadsBack e "tar" "zstd" b) (ok_end _ _ h) (zstd_lem b l))
      | inr unknown ↦ rw unknown (λ h. absurd (err_ok _ end h))
    ])
  ])
]

layer_end-ReadsBack :
    (f c end b : String)
    → is_layer_base b ≡ true
    → layer_end f c ≡ ok end
    → ReadsBack end (if str_eq f "raw" then "raw" else "tar") (wire_compression c) b
unfolding layer_end
layer_end-ReadsBack f c end b l = elim (Bool-cases (str_eq f "raw")) [
  | inr packed ↦ rw packed (tar_end-ReadsBack c end b l)
  | inl raw ↦ rw raw (elim (Bool-cases (is_empty c || str_eq c "none")) [
    | inl plain ↦
        rw plain (λ h. subst (λ e. ReadsBack e "raw" "none" b) (ok_end _ _ h) (raw_lem b l))
    | inr declared ↦ rw declared (λ h. absurd (err_ok _ end h))
  ])
]

with_base-ok :
    (b : String) (r : Result String) (t : String)
    → with_base b r ≡ ok t
    → (end : String) × (r ≡ ok end) × (media_type_text b end ≡ t)
with_base-ok b (ok end) t h = (end, refl, cc)
with_base-ok b (err e) t h = absurd (cc)

abbrev ReadAs : String → String → String → String → Type 0
ReadAs b f c t =
    parse_layer_media_type t
    ≡ ok record {
      base = b;
      format = if str_eq f "raw" then "raw" else "tar";
      compression = wire_compression c;
    }

-- Where a media type is built for a base without spaces at its ends, it parses to that base, to
-- "raw" if the format is that and to "tar" otherwise, and to the compression on the wire: none,
-- zstd, or gzip for both of its levels.
pub parse-build :
    (b f c t : String)
    → trim_space b ≡ b
    → build_layer_media_type b f c ≡ ok t
    → parse_layer_media_type t
      ≡ ok record {
        base = b;
        format = if str_eq f "raw" then "raw" else "tar";
        compression = wire_compression c;
      }
unfolding build_layer_media_type parse_layer_base parse_layer_format
parse-build b f c t trimmed = rw trimmed (elim (Bool-cases (is_layer_base b)) [
  | inr unknown ↦ rw unknown (λ h. absurd (err_ok _ t h))
  | inl known ↦ rw known (elim (Bool-cases (is_layer_format (trim_space f))) [
    | inr odd ↦ rw odd (λ h. absurd (err_ok _ t h))
    | inl form ↦ rw form (elim (Bool-cases (is_publish_compression c)) [
      | inr odd ↦ rw odd (λ h. absurd (err_ok _ t h))
      | inl packing ↦ rw packing (λ h.
          let w = with_base-ok b (layer_end f c) t h in
          subst (ReadAs b f c) w.2 (layer_end-ReadsBack f c w.0 b known w.1))
    ])
  ])
])
