-- ===== src/ModelPack/ChunkIndex/Tiles.antt =====
-- What a file that was accepted covers.
use ai_models.Prelude.{
  ℕ, suc, ◌+◌, ◌≡◌, ◌∙◌, ◌<◌, ◌≤◌, refl, sym, ap, subst, String, Bool, false, ◌&&◌, List, [], ◌∷◌,
  Option, none, some, if◌then◌else◌, leb, ltb, inl, inr, arith, Bool-cases, All,
}
use ai_models.Prelude.Text.{trim_space}
use ai_models.Prelude.Int64.{add64, sub64, lt64, le64, half, modulus}
use ai_models.Prelude.Assoc.{lookup}
use ai_models.Publication.Handle.{Result, ok, err}
use ai_models.ModelPack.Results.{◌>>=◌, ok_same}
use ai_models.ModelPack.ChunkIndex.{
  Chunk, File, Pack, validate_range, validate_chunk, insert_by_offset, sort_by_offset,
  validate_chunks, covers_size, validate_file, max_int64, max_chunk_payload_bytes,
}

-- The patterns of a chunk are those of 64-bit integers.
pub record IsWords (c : Chunk) : Type 0 where
  pub size_word : c.uncompressed_size_bytes < modulus
  pub offset_word : c.pack_offset < modulus
  pub length_word : c.pack_length < modulus

-- Chunks that follow one another from `start` to `end`.
abbrev pub Tiles : ℕ → List Chunk → ℕ → Type 0
Tiles start [] end = start ≡ end
Tiles start (c ∷ chunks) end =
    (c.offset ≡ start)
    × (0 < c.uncompressed_size_bytes)
    × Tiles (start + c.uncompressed_size_bytes) chunks end

-- A chunk that is read from inside a pack.
abbrev pub IsWithin : List (String × Pack) → Chunk → Type 0
IsWithin packs c =
    (p : Pack) × (lookup (trim_space c.pack) packs ≡ some p)
    × (0 < c.pack_length)
    × (c.pack_offset + c.pack_length ≤ p.size_bytes)
    × (c.stored_size_bytes ≡ c.pack_length)

-- How many chunks hold a byte.
abbrev pub holds : ℕ → Chunk → Bool
holds b c = leb c.offset b && ltb b (c.offset + c.uncompressed_size_bytes)

abbrev pub holding : ℕ → List Chunk → ℕ
holding b [] = 0
holding b (c ∷ chunks) = (if holds b c then 1 else 0) + holding b chunks

validate_range-IsWithin :
    (c : Chunk) (packs : List (String × Pack)) (o : Option Pack)
    → IsWords c
    → lookup (trim_space c.pack) packs ≡ o
    → validate_range c o ≡ ok tt
    → IsWithin packs c
unfolding validate_range
validate_range-IsWithin c packs none w l h = absurd (cc)
validate_range-IsWithin c packs (some p) w l h = (p, l, ground arith, ground arith, ground arith)

validate_chunk-IsWithin :
    (c : Chunk) (packs : List (String × Pack))
    → IsWords c
    → validate_chunk c packs ≡ ok tt
    → IsWithin packs c
      × (0 < c.uncompressed_size_bytes)
      × (c.uncompressed_size_bytes ≤ max_chunk_payload_bytes)
unfolding validate_chunk
validate_chunk-IsWithin c packs w h = (
  validate_range-IsWithin c packs (lookup (trim_space c.pack) packs) w refl (ground arith),
  ground arith,
  ground arith,
)

-- A position below 2 ^ 63 plus a chunk's size, where the test found no overflow.
no_overflow :
    (expected size : ℕ)
    → expected < half
    → size ≤ max_chunk_payload_bytes
    → lt64 (sub64 max_int64 size) expected ≡ false
    → (add64 expected size ≡ expected + size) × (expected + size < half)
no_overflow expected size e s h = ground arith

-- The loop's parts, where it returns.
validate_chunks-parts :
    (position expected end : ℕ) (c : Chunk) (chunks : List Chunk) (packs : List (String × Pack))
    → validate_chunks position expected (c ∷ chunks) packs ≡ ok end
    → (c.offset ≡ expected)
      × (validate_chunk c packs ≡ ok tt)
      × (lt64 (sub64 max_int64 c.uncompressed_size_bytes) expected ≡ false)
      × (validate_chunks (suc position) (add64 expected c.uncompressed_size_bytes) chunks packs
          ≡ ok end)
unfolding validate_chunks
validate_chunks-parts position expected end c chunks packs h =
    (ground arith, ground arith, ground arith, ground arith)

pub validate_chunks-Tiles :
    (position expected end : ℕ) (chunks : List Chunk) (packs : List (String × Pack))
    → expected < half
    → All IsWords chunks
    → validate_chunks position expected chunks packs ≡ ok end
    → Tiles expected chunks end × (end < half) × All (IsWithin packs) chunks
unfolding validate_chunks
validate_chunks-Tiles position expected end [] packs e w h =
    let same = ok_same expected end h in (same, subst (λ x. x < half) same e, tt)
validate_chunks-Tiles position expected end (c ∷ chunks) packs e w h =
    let parts = validate_chunks-parts position expected end c chunks packs h in
    let chunk = validate_chunk-IsWithin c packs w.0 parts.1 in
    let sum = no_overflow expected c.uncompressed_size_bytes e chunk.2 parts.2 in
    let rest =
      validate_chunks-Tiles (suc position) (expected + c.uncompressed_size_bytes) end chunks packs
        sum.1 w.1
        (subst (λ x. validate_chunks (suc position) x chunks packs ≡ ok end) sum.0 parts.3) in
    ((parts.0, chunk.1, rest.0), rest.1, (chunk.0, rest.2))

Tiles-le : (start end : ℕ) (chunks : List Chunk) → Tiles start chunks end → start ≤ end
Tiles-le start end [] t = omega arith
Tiles-le start end (c ∷ chunks) t =
    omega (arith, Tiles-le (start + c.uncompressed_size_bytes) end chunks t.2)

-- Each byte of the range is in one chunk, and no other byte is in any.
Tiles-holding :
    (b start end : ℕ) (chunks : List Chunk)
    → Tiles start chunks end
    → holding b chunks ≡ (if leb start b && ltb b end then 1 else 0)
Tiles-holding b start end [] t = ground arith
Tiles-holding b start end (c ∷ chunks) t = ground (
  arith,
  Tiles-holding b (start + c.uncompressed_size_bytes) end chunks t.2,
  Tiles-le (start + c.uncompressed_size_bytes) end chunks t.2,
)

holding-insert_by_offset :
    (b : ℕ) (c : Chunk) (chunks : List Chunk)
    → holding b (insert_by_offset c chunks) ≡ holding b (c ∷ chunks)
holding-insert_by_offset b c [] = refl
holding-insert_by_offset b c (d ∷ chunks) = ground (arith, holding-insert_by_offset b c chunks)

holding-sort_by_offset :
    (b : ℕ) (chunks : List Chunk) → holding b (sort_by_offset chunks) ≡ holding b chunks
unfolding sort_by_offset
holding-sort_by_offset b [] = refl
holding-sort_by_offset b (c ∷ chunks) =
    holding-insert_by_offset b c (sort_by_offset chunks)
    ∙ ap (λ n. (if holds b c then 1 else 0) + n) (holding-sort_by_offset b chunks)

module _ (P : Chunk → Type 0) where
  All-insert_by_offset :
      (c : Chunk) (chunks : List Chunk) → P c → All P chunks → All P (insert_by_offset c chunks)
  All-insert_by_offset c [] p h = (p, tt)
  All-insert_by_offset c (d ∷ chunks) p h = elim (Bool-cases (le64 c.offset d.offset)) [
    | inl before ↦ rw before (p, h)
    | inr after ↦ rw after (h.0, All-insert_by_offset c chunks p h.1)
  ]

  All-sort_by_offset : (chunks : List Chunk) → All P chunks → All P (sort_by_offset chunks)
  unfolding sort_by_offset
  All-sort_by_offset [] h = tt
  All-sort_by_offset (c ∷ chunks) h =
      All-insert_by_offset c (sort_by_offset chunks) h.0 (All-sort_by_offset chunks h.1)

  insert_by_offset-All :
      (c : Chunk) (chunks : List Chunk) → All P (insert_by_offset c chunks) → P c × All P chunks
  insert_by_offset-All c [] = λ h. h
  insert_by_offset-All c (d ∷ chunks) = elim (Bool-cases (le64 c.offset d.offset)) [
    | inl before ↦ rw before (λ h. h)
    | inr after ↦
        rw after (λ h. let rest = insert_by_offset-All c chunks h.1 in (rest.0, (h.0, rest.1)))
  ]

  sort_by_offset-All : (chunks : List Chunk) → All P (sort_by_offset chunks) → All P chunks
  unfolding sort_by_offset
  sort_by_offset-All [] h = tt
  sort_by_offset-All (c ∷ chunks) h =
      let both = insert_by_offset-All c (sort_by_offset chunks) h in
      (both.0, sort_by_offset-All chunks both.1)

covers_size-ok : (size : ℕ) (r : Result ℕ) → (r >>= covers_size size) ≡ ok tt → r ≡ ok size
covers_size-ok size (ok covered) h = ap ok (ground arith)
covers_size-ok size (err e) h = absurd (cc)

validate_file-parts :
    (f : File) (packs : List (String × Pack))
    → validate_file f packs ≡ ok tt
    → validate_chunks 0 0 (sort_by_offset f.chunks) packs ≡ ok f.size_bytes
unfolding validate_file
validate_file-parts f packs h =
    covers_size-ok f.size_bytes (validate_chunks 0 0 (sort_by_offset f.chunks) packs) (ground arith)

-- A file
pub validate_file-holding :
    (f : File) (packs : List (String × Pack)) (b : ℕ)
    → All IsWords f.chunks
    → validate_file f packs ≡ ok tt
    → holding b f.chunks ≡ (if ltb b f.size_bytes then 1 else 0)
validate_file-holding f packs b w h =
    let t =
      validate_chunks-Tiles 0 0 f.size_bytes (sort_by_offset f.chunks) packs (omega arith)
        (All-sort_by_offset IsWords f.chunks w) (validate_file-parts f packs h) in
    sym (holding-sort_by_offset b f.chunks)
    ∙ Tiles-holding b 0 f.size_bytes (sort_by_offset f.chunks) t.0
    ∙ ground arith

-- The chunks
pub validate_file-IsWithin :
    (f : File) (packs : List (String × Pack))
    → All IsWords f.chunks
    → validate_file f packs ≡ ok tt
    → All (IsWithin packs) f.chunks × (f.size_bytes < half)
validate_file-IsWithin f packs w h =
    let t =
      validate_chunks-Tiles 0 0 f.size_bytes (sort_by_offset f.chunks) packs (omega arith)
        (All-sort_by_offset IsWords f.chunks w) (validate_file-parts f packs h) in
    (sort_by_offset-All (IsWithin packs) f.chunks t.2, t.1)
