-- ===== src/ModelPack/Layers/Chunked.antt =====
-- What a classified manifest holds.
use ai_models.Prelude.{
  ◌≡◌, ◌∙◌, refl, sym, ap, subst, String, Bool, true, false, not, ◌&&◌, List, [], ◌∷◌, Option, none,
  some, if◌then◌else◌, is_some, inl, inr, arith, Bool-cases,
}
use ai_models.Prelude.Text.{is_empty, trim_space, str_eq, str_eq→eq}
use ai_models.Prelude.Int64.{le64}
use ai_models.Prelude.Assoc.{lookup, insert, is_nil, Distinct, insert-Distinct, lookup-insert}
use ai_models.Publication.Handle.{Result, ok, err}
use ai_models.ModelPack.Results.{ok_same, some_same, >>=-ok}
use ai_models.ModelPack.Layers.{
  ManifestLayer, ChunkLayerDescriptor, LegacyDescriptor, LayerSet, is_chunk_index_media_type,
  is_chunk_pack_media_type, decode_chunk_layer_descriptor, add_index, add_pack, add_legacy,
  classify_layer, classify_layers, no_layers, check_layers, classify_manifest_layers,
}

-- A descriptor that was read names a digest and has a size above 0.
pub record IsRead (d : ChunkLayerDescriptor) : Type 0 where
  pub named : is_empty d.digest ≡ false
  pub sized : le64 d.size 0 ≡ false

-- Each pack stands under its digest, once.
pub record IsIndexed (set : LayerSet) : Type 0 where
  pub distinct : Distinct set.chunk_packs
  pub packs_read :
      (digest : String) (d : ChunkLayerDescriptor)
      → lookup digest set.chunk_packs ≡ some d
      → (d.digest ≡ digest) × IsRead d

-- The state
pub record IsWhole (set : LayerSet) : Type 0 where
  pub indexed : IsIndexed set
  pub both : is_some set.chunk_index ≡ not (is_nil set.chunk_packs)

found_in_inserted :
    (set : LayerSet) (d : ChunkLayerDescriptor)
    → IsIndexed set
    → IsRead d
    → (digest : String) (e : ChunkLayerDescriptor)
    → (if str_eq d.digest digest then some d else lookup digest set.chunk_packs) ≡ some e
    → (e.digest ≡ digest) × IsRead e
found_in_inserted set d i r digest e = elim (Bool-cases (str_eq d.digest digest)) [
  | inr other ↦ rw other (λ h. i.packs_read digest e h)
  | inl same ↦ rw same (λ h.
      let p = some_same d e h in
      (
        ap (λ (x : ChunkLayerDescriptor). x.digest) (sym p) ∙ str_eq→eq d.digest digest same,
        subst IsRead p r,
      ))
]

no_layers-IsIndexed : IsIndexed record { legacy = []; chunk_index = none; chunk_packs = [] }
unfolding lookup
no_layers-IsIndexed = record { distinct = tt; packs_read = λ digest d e. absurd (cc) }

consistent :
    (a b : Bool) (first second : String) (set t : LayerSet)
    → (if not a && not b then err first else if a && b then err second else ok set) ≡ ok t
    → (set ≡ t) × (a ≡ not b)
consistent true true first second set t h = absurd (cc)
consistent true false first second set t h = (ok_same set t h, refl)
consistent false true first second set t h = (ok_same set t h, refl)
consistent false false first second set t h = absurd (cc)

inserted :
    (set : LayerSet) (d : ChunkLayerDescriptor)
    → IsIndexed set
    → IsRead d
    → IsIndexed record set { chunk_packs = insert d.digest d set.chunk_packs }
inserted set d i r = record {
  distinct = insert-Distinct d.digest d set.chunk_packs i.distinct;
  packs_read = λ digest e h.
      found_in_inserted set d i r digest e
        (rw (lookup-insert d.digest digest d set.chunk_packs) at h);
}

decode-IsRead :
    (l : ManifestLayer) (d : ChunkLayerDescriptor)
    → decode_chunk_layer_descriptor l ≡ ok d
    → IsRead d
unfolding decode_chunk_layer_descriptor
decode-IsRead l d h = ground arith

add_index-IsIndexed :
    (set t : LayerSet) (r : Result ChunkLayerDescriptor)
    → IsIndexed set
    → add_index set r ≡ ok t
    → IsIndexed t
add_index-IsIndexed set t (err e) i h = absurd (cc)
add_index-IsIndexed set t (ok d) i h =
    subst IsIndexed (ok_same _ t h) record { distinct = i.distinct; packs_read = i.packs_read }

add_pack-IsIndexed :
    (set t : LayerSet) (r : Result ChunkLayerDescriptor)
    → IsIndexed set
    → ((d : ChunkLayerDescriptor) → r ≡ ok d → IsRead d)
    → add_pack set r ≡ ok t
    → IsIndexed t
add_pack-IsIndexed set t (err e) i read = λ h. absurd (cc)
add_pack-IsIndexed set t (ok d) i read =
    elim (Bool-cases (is_some (lookup d.digest set.chunk_packs))) [
      | inl twice ↦ rw twice (λ h. absurd (cc))
      | inr fresh ↦ rw fresh (λ h. subst IsIndexed (ok_same _ t h) (inserted set d i (read d refl)))
    ]

add_legacy-IsIndexed :
    (set t : LayerSet) (r : Result LegacyDescriptor)
    → IsIndexed set
    → add_legacy set r ≡ ok t
    → IsIndexed t
add_legacy-IsIndexed set t (err e) i h = absurd (cc)
add_legacy-IsIndexed set t (ok d) i h =
    subst IsIndexed (ok_same _ t h) record { distinct = i.distinct; packs_read = i.packs_read }

classify_layer-IsIndexed :
    (set t : LayerSet) (l : ManifestLayer)
    → IsIndexed set
    → classify_layer set l ≡ ok t
    → IsIndexed t
unfolding classify_layer
classify_layer-IsIndexed set t l i =
    elim (Bool-cases (is_chunk_index_media_type (trim_space l.media_type))) [
      | inl index ↦ rw index (elim (Bool-cases (is_some set.chunk_index)) [
        | inl twice ↦ rw twice (λ h. absurd (cc))
        | inr first ↦ rw first (add_index-IsIndexed set t _ i)
      ])
      | inr other ↦
          rw other (elim (Bool-cases (is_chunk_pack_media_type (trim_space l.media_type))) [
            | inl pack ↦ rw pack (add_pack-IsIndexed set t _ i (decode-IsRead l))
            | inr legacy ↦ rw legacy (add_legacy-IsIndexed set t _ i)
          ])
    ]

classify_layers-IsIndexed :
    (set t : LayerSet) (layers : List (Option ManifestLayer))
    → IsIndexed set
    → classify_layers set layers ≡ ok t
    → IsIndexed t
unfolding classify_layers
classify_layers-IsIndexed set t [] i h = subst IsIndexed (ok_same set t h) i
classify_layers-IsIndexed set t (none ∷ layers) i h = absurd (cc)
classify_layers-IsIndexed set t (some l ∷ layers) i h =
    let step = >>=-ok (classify_layer set l) _ t h in
    classify_layers-IsIndexed step.0 t layers (classify_layer-IsIndexed set step.0 l i step.1)
      step.2

check_layers-both :
    (set t : LayerSet)
    → check_layers set ≡ ok t
    → (set ≡ t) × (is_some set.chunk_index ≡ not (is_nil set.chunk_packs))
check_layers-both set t h =
    consistent (is_some set.chunk_index) (is_nil set.chunk_packs) _ _ set t h

-- In a manifest whose layers could be classified each chunk pack stands once, under its digest,
-- which is not empty, with a size above 0, and there are chunk packs exactly where there is a
-- chunk index.
pub classify_manifest_layers-IsWhole :
    (layers : List (Option ManifestLayer)) (t : LayerSet)
    → classify_manifest_layers layers ≡ ok t
    → IsWhole t
unfolding classify_manifest_layers
classify_manifest_layers-IsWhole layers t h =
    let step = >>=-ok (classify_layers no_layers layers) _ t h in
    let checked = check_layers-both step.0 t step.2 in
    subst IsWhole checked.0 record {
      indexed = classify_layers-IsIndexed no_layers step.0 layers no_layers-IsIndexed step.1;
      both = checked.1;
    }
