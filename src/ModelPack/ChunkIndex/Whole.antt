-- ===== src/ModelPack/ChunkIndex/Whole.antt =====
-- What an index that was accepted reads from the manifest's layers.
use ai_models.Prelude.{
  ℕ, ◌+◌, ◌≡◌, ◌≤◌, refl, sym, subst, String, Bool, true, false, not, List, [], ◌∷◌, Option, none,
  some, if◌then◌else◌, is_some, ltb, inl, inr, arith, Bool-cases, All, length,
}
use ai_models.Prelude.Text.{is_empty, trim_space, str_eq, str_eq→eq}
use ai_models.Prelude.Int64.{le64}
use ai_models.Prelude.Assoc.{lookup, member, lookup-insert}
use ai_models.Publication.Handle.{Result, ok, err}
use ai_models.ModelPack.Results.{ok_same, some_same, >>=-ok}
use ai_models.ModelPack.Layers.{ChunkLayerDescriptor, is_chunk_pack_media_type}
use ai_models.ModelPack.ChunkIndex.{
  Chunk, File, Pack, ChunkIndexDocument, SeenPacks, check, clean, match_layer, validate_pack,
  validate_packs_loop, validate_packs, validate_file, validate_files, validate_chunk_index,
  is_nil_list,
}
use ai_models.ModelPack.ChunkIndex.Tiles.{
  IsWords, IsWithin, holding, validate_file-IsWithin, validate_file-holding,
}

-- What passed a test that refuses.
passed :
    {A : Type 0} (wrong : Bool) (e : String) (a b : A)
    → (if wrong then err e else ok a) ≡ ok b
    → (wrong ≡ false) × (a ≡ b)
passed true e a b h = absurd (cc)
passed false e a b h = (refl, ok_same a b h)

module _ (manifest : List (String × ChunkLayerDescriptor)) where
  -- A pack stands for the manifest's layer of its digest.
  abbrev pub IsBacked : Pack → Type 0
  IsBacked p =
      (l : ChunkLayerDescriptor) × (lookup p.digest manifest ≡ some l)
      × (l.size ≡ p.size_bytes)
      × (l.media_type ≡ p.media_type)

  abbrev AllBacked : List (String × Pack) → Type 0
  AllBacked packs = (id : String) (p : Pack) → lookup id packs ≡ some p → IsBacked p

  match_layer-IsBacked :
      (p : Pack) (o : Option ChunkLayerDescriptor)
      → lookup p.digest manifest ≡ o
      → match_layer p o ≡ ok tt
      → IsBacked p
  unfolding match_layer
  match_layer-IsBacked p none l h = absurd (cc)
  match_layer-IsBacked p (some d) l h =
      (d, l, ground arith, str_eq→eq d.media_type p.media_type (ground arith))

  -- The tests before the last of `validate_pack`.
  abbrev tests : Pack → SeenPacks → Result (Unit {0})
  tests p seen = check (is_empty p.id) "chunk index pack id must not be empty" (
      check (is_some (lookup p.id seen.by_id)) "chunk index duplicate pack id" (
        check (is_empty p.digest) "chunk index pack digest must not be empty" (
          check (le64 p.size_bytes 0) "chunk index pack sizeBytes must be positive" (
            check (not (is_chunk_pack_media_type p.media_type))
              "chunk index pack has unsupported mediaType"
              (match_layer p (lookup p.digest manifest))))))

  tests-match_layer :
      (p : Pack) (seen : SeenPacks) {u : Unit {0}}
      → tests p seen ≡ ok u
      → match_layer p (lookup p.digest manifest) ≡ ok tt
  tests-match_layer p seen h = ground arith

  insert-AllBacked :
      (p : Pack) (packs : List (String × Pack)) (id : String) (q : Pack)
      → AllBacked packs
      → IsBacked p
      → (if str_eq p.id id then some p else lookup id packs) ≡ some q
      → IsBacked q
  insert-AllBacked p packs id q b backed = elim (Bool-cases (str_eq p.id id)) [
    | inr other ↦ rw other (λ f. b id q f)
    | inl same ↦ rw same (λ f. subst IsBacked (some_same p q f) backed)
  ]

  validate_pack-AllBacked :
      (p : Pack) (seen next : SeenPacks)
      → AllBacked seen.by_id
      → validate_pack p seen manifest ≡ ok next
      → AllBacked next.by_id
  unfolding validate_pack
  validate_pack-AllBacked p seen next b h =
      let step = >>=-ok (tests p seen) _ next h in
      let backed =
        match_layer-IsBacked p (lookup p.digest manifest) refl (tests-match_layer p seen step.1) in
      let added = passed (member p.digest seen.digests) _ _ next step.2 in
      subst (λ (s : SeenPacks). AllBacked s.by_id) added.1
        (λ id q f.
          insert-AllBacked p seen.by_id id q b backed
            (rw (lookup-insert p.id id p seen.by_id) at f))

  validate_packs_loop-AllBacked :
      (seen end : SeenPacks) (packs : List Pack)
      → AllBacked seen.by_id
      → validate_packs_loop seen packs manifest ≡ ok end
      → AllBacked end.by_id
  unfolding validate_packs_loop
  validate_packs_loop-AllBacked seen end [] b h =
      subst (λ (s : SeenPacks). AllBacked s.by_id) (ok_same seen end h) b
  validate_packs_loop-AllBacked seen end (p ∷ packs) b h =
      let step = >>=-ok (validate_pack (clean p) seen manifest) _ end h in
      validate_packs_loop-AllBacked step.0 end packs
        (validate_pack-AllBacked (clean p) seen step.0 b step.1) step.2

  none_backed : AllBacked []
  unfolding lookup
  none_backed id p h = absurd (cc)

  validate_packs-AllBacked :
      (packs : List Pack) (by_id : List (String × Pack))
      → validate_packs packs manifest ≡ ok by_id
      → AllBacked by_id × (length by_id ≡ length manifest)
  unfolding validate_packs
  validate_packs-AllBacked [] by_id h = absurd (cc)
  validate_packs-AllBacked (p ∷ packs) by_id h =
      let step =
        >>=-ok (validate_packs_loop record { by_id = []; digests = [] } (p ∷ packs) manifest) _
          by_id h in
      let matched = passed _ _ step.0.by_id by_id step.2 in
      (
        subst AllBacked matched.1 (
            validate_packs_loop-AllBacked record { by_id = []; digests = [] } step.0 (p ∷ packs)
              none_backed step.1),
        subst (λ (m : List (String × Pack)). length m ≡ length manifest) matched.1 (ground arith),
      )

  -- A chunk whose range lies in a layer of the manifest.
  abbrev pub IsInLayer : Chunk → Type 0
  IsInLayer c =
      (digest : String) × ((l : ChunkLayerDescriptor) × (lookup digest manifest ≡ some l)
        × (c.pack_offset + c.pack_length ≤ l.size))

  IsWithin-IsInLayer :
      (packs : List (String × Pack)) (chunks : List Chunk)
      → AllBacked packs
      → All (IsWithin packs) chunks
      → All IsInLayer chunks
  IsWithin-IsInLayer packs [] b h = tt
  IsWithin-IsInLayer packs (c ∷ chunks) b h =
      let back = b (trim_space c.pack) h.0.0 h.0.1 in
      (
        (
          h.0.0.digest,
          (back.0, back.1, subst (λ n. c.pack_offset + c.pack_length ≤ n) (sym back.2) h.0.3),
        ),
        IsWithin-IsInLayer packs chunks b h.1,
      )

  abbrev pub IsWordsFile : File → Type 0
  IsWordsFile f = All IsWords f.chunks

  -- A file whose chunks all lie in the manifest's layers, and which hold each of its bytes once.
  abbrev pub IsSound : ℕ → File → Type 0
  IsSound b f =
      All IsInLayer f.chunks × (holding b f.chunks ≡ (if ltb b f.size_bytes then 1 else 0))

  module _ (relative_path : String → Result String) where
    validate_files-IsSound :
        (seen : List String) (files : List File) (packs : List (String × Pack)) (b : ℕ)
        → AllBacked packs
        → All IsWordsFile files
        → validate_files relative_path seen files packs ≡ ok tt
        → All (IsSound b) files
    unfolding validate_files
    validate_files-IsSound seen [] packs b a w h = tt
    validate_files-IsSound seen (f ∷ files) packs b a w h =
        let step = >>=-ok (relative_path f.path) _ tt h in
        let next =
          >>=-ok (validate_file f packs)
            (λ u. validate_files relative_path (step.0 ∷ seen) files packs) tt (ground arith) in
        let inside = validate_file-IsWithin f packs w.0 next.1 in
        (
          (
            IsWithin-IsInLayer packs f.chunks a inside.0,
            validate_file-holding f packs b w.0 next.1,
          ),
          validate_files-IsSound (step.0 ∷ seen) files packs b a w.1 next.2,
        )

    -- Where the chunks' sizes and ranges are 64-bit patterns and the index is accepted for the
    -- manifest's packs, every chunk of every file is read from within a pack of the manifest, and
    -- every byte is held by one chunk of the file if it is below the file's size, and by none
    -- otherwise.
    pub validate_chunk_index-IsSound :
        (d : ChunkIndexDocument) (b : ℕ)
        → All IsWordsFile d.files
        → validate_chunk_index relative_path d manifest ≡ ok tt
        → All (IsSound b) d.files
    unfolding validate_chunk_index
    validate_chunk_index-IsSound d b w h =
        let step =
          >>=-ok (validate_packs d.packs manifest)
            (λ packs.
              check (is_nil_list d.files) "chunk index must contain at least one file"
                (validate_files relative_path [] d.files packs))
            tt (ground arith) in
        validate_files-IsSound [] d.files step.0 b
          (validate_packs-AllBacked d.packs step.0 step.1).0 w (ground arith)
