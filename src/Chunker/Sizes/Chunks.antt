-- ===== src/Chunker/Sizes/Chunks.antt =====
-- A chunk is no larger than the size, unless it is led by a heading.
use ragr.Prelude.{
  leb, Bool-cases, Option-cases, length, length-append, length-drop, All, All-append, ℕ, ◌+◌, ◌-◌,
  ◌≤◌, min, ◌≡◌, refl, ◌⊎◌, inl, inr, Bool, true, false, ◌&&◌, ◌||◌, not, some, List, [], ◌∷◌, ◌++◌,
  map, arith,
}
use ragr.Text.{Text, is_empty, strip, join}
use ragr.Text.Laws.{length-lstrip-le, length-strip-le}
use ragr.Chunker.{chunk_text}
use ragr.Chunker.Blocks.{Block, parse_blocks}
use ragr.Chunker.Split.{ends_sentence, enforce_max_size}
use ragr.Chunker.Merge.{
  ChunkResult, MergeState, paragraph, body_of, seeded, emit_as, emit, add_block, add_blocks,
  merge_into_chunks, overlap_tail, after_sentence, after_space, snap, tail_of, start_merge,
  no_blocks, all_headings,
}
use ragr.Chunker.Sizes.Pieces.{Fits, enforce_max_size-Fits}
use ragr.Chunker.Sizes.Headings.{
  IsHeadingOf, IsMarked, heading_blocks-IsMarked, enforce_max_size-IsMarked,
}

after_sentence-le :
    (after : Bool) (t r : Text) → after_sentence after t ≡ some r → length r ≤ length t
unfolding after_sentence
after_sentence-le after [] r e = ground arith
after_sentence-le after (c ∷ t) r e =
    ground (arith, after_sentence-le (ends_sentence c) t r, length-lstrip-le (c ∷ t))

after_space-le : (t r : Text) → after_space t ≡ some r → length r ≤ length t
unfolding after_space
after_space-le [] r e = ground arith
after_space-le (c ∷ t) r e = ground (arith, after_space-le t r)

snap-le : (t : Text) → length (snap t) ≤ length t
unfolding snap
snap-le t = elim (Option-cases (after_sentence false t)) [
  | inr (r, e) ↦ rw (e, snap) (omega (arith, length-strip-le r, after_sentence-le false t r e))
  | inl e ↦
      rw (e, snap)
        (elim (Option-cases (after_space t)) [
          | inr (r, f) ↦ rw (f, snap) (omega (arith, length-strip-le r, after_space-le t r f))
          | inl f ↦ rw (f, snap) (omega arith)
        ])
]

-- The overlap keeps within its budget.
overlap_tail-le : (t : Text) (budget : ℕ) → length (overlap_tail t budget) ≤ budget
unfolding overlap_tail
overlap_tail-le t budget =
    ground (arith, snap-le (tail_of t budget), length-drop (length t - budget) t)

length-seeded-le : (seed body : Text) → length (seeded seed body) ≤ length seed + length body + 2
length-seeded-le [] body = omega arith
length-seeded-le (c ∷ seed) body = omega (arith, length-append seed (paragraph ++ body))

length-seeded_of_room :
    (seed body : Text) (size : ℕ)
    → length seed ≤ size - length body - 2
    → length body ≤ size
    → length (seeded seed body) ≤ size
length-seeded_of_room [] body size room h = h
length-seeded_of_room (c ∷ seed) body size room h =
    omega (arith, length-append seed (paragraph ++ body))

-- A line with this property alone, or as the first paragraph.
abbrev pub IsLed : (Text → Type 0) → Text → Type 0
IsLed P t =
    (line : Text) × (P line × ((t ≡ line) ⊎ ((rest : Text) × (t ≡ line ++ (paragraph ++ rest)))))

-- A chunk fits the size, or it is led by a line with this property.
abbrev pub IsSized : (Text → Type 0) → ℕ → ChunkResult → Type 0
IsSized P size c = (length c.text ≤ size) ⊎ IsLed P c.text

module _ (P : Text → Type 0) (size : ℕ) where
  -- The current chunk is led by a heading and has no overlap, or it fits.
  abbrev Current : Text → List Block → Type 0
  Current seed [] = seed ≡ []
  Current seed (b ∷ rest) =
      ((b.is_heading ≡ true) × (seed ≡ []) × P b.text)
      ⊎ ((b.is_heading ≡ false) × (length (seeded seed (body_of (b ∷ rest))) ≤ size))

  record IsPacked (s : MergeState) : Type 0 where
    sized : All (IsSized P size) s.chunks
    current : Current s.seed s.current

  join-IsLed : (t : Text) (ts : List Text) → P t → IsLed P (join paragraph (t ∷ ts))
  unfolding join
  join-IsLed t [] h = (t, (h, inl refl))
  join-IsLed t (u ∷ ts) h = (t, (h, inr (join paragraph (u ∷ ts), refl)))

  emit_as-IsPacked :
      (s : MergeState) (current : List Block)
      → All (IsSized P size) s.chunks
      → Current s.seed current
      → All (IsSized P size) (emit_as s current).chunks
  unfolding emit_as
  emit_as-IsPacked s [] h c = h
  emit_as-IsPacked s (b ∷ rest) h (inr (_, small)) =
      All-append (IsSized P size) s.chunks _ h (inl small, tt)
  emit_as-IsPacked s (b ∷ rest) h (inl (_, e, hash)) =
      All-append (IsSized P size) s.chunks _ h
        (inr (rw e (join-IsLed b.text (map (λ k. k.text) rest) hash)), tt)

  emit-IsPacked : (s : MergeState) → IsPacked s → All (IsSized P size) (emit s).chunks
  unfolding emit
  emit-IsPacked s h = emit_as-IsPacked s s.current h.sized h.current

  emit_as-seed :
      (s : MergeState) (current : List Block)
      → Current s.seed current
      → (emit_as s current).seed ≡ []
  unfolding emit_as
  emit_as-seed s [] c = c
  emit_as-seed s (b ∷ rest) c = refl

  -- A block alone begins a chunk.
  Current-single :
      (seed : Text) (b : Block) → seed ≡ [] → Fits size b → IsMarked P b → Current seed (b ∷ [])
  unfolding join
  Current-single seed b e fits m = elim (Bool-cases b.is_heading) [
    | inl heading ↦ elim m [ inl plain ↦ absurd (ground arith) | inr hash ↦ inl (heading, e, hash) ]
    | inr plain ↦ inr (plain, rw e fits)
  ]

  -- A block joins the current chunk when it fits, or behind nothing but headings.
  Current-concat :
      (seed : Text) (current : List Block) (b : Block)
      → Current seed current
      → Fits size b
      → IsMarked P b
      → (leb (length seed + length (body_of (current ++ b ∷ [])) + 2) size
          || (no_blocks current || (not (no_blocks current) && all_headings current)))
        ≡ true
      → Current seed (current ++ b ∷ [])
  Current-concat seed [] b c fits m h = Current-single seed b c fits m
  Current-concat seed (a ∷ rest) b (inl led) fits m h = inl led
  Current-concat seed (a ∷ rest) b (inr (plain, small)) fits m h =
      inr (plain, ground (arith, length-seeded-le seed (body_of (a ∷ (rest ++ b ∷ [])))))

  Current-run :
      (seed : Text) (current : List Block) (b : Block)
      → Current seed current
      → no_blocks current ≡ false
      → all_headings current ≡ true
      → Current seed (current ++ b ∷ [])
  Current-run seed [] b c some_blocks run = absurd (ground arith)
  Current-run seed (a ∷ rest) b (inl led) some_blocks run = inl led
  Current-run seed (a ∷ rest) b (inr (plain, small)) some_blocks run = absurd (ground arith)

  Current-seeded :
      (t : Text) (b : Block) (n : ℕ)
      → b.is_heading ≡ false
      → Fits size b
      → Current (overlap_tail t (min n (size - length b.text - 2))) (b ∷ [])
  unfolding join
  Current-seeded t b n plain fits =
      let budget = min n (size - length b.text - 2) in
      inr (
        plain,
        length-seeded_of_room (overlap_tail t budget) b.text size
            (omega (arith, overlap_tail-le t budget)) fits,
      )

  heading_of : (b c : Bool) → (b && not c) ≡ true → (b ≡ true) × (c ≡ false)
  heading_of b c h = ground arith

  plain_of : (b c x : Bool) → (b && not c) ≡ false → (x || (c || (not c && x))) ≡ false → b ≡ false
  plain_of b c x h k = ground arith

  add_block-IsPacked :
      (s : MergeState) (b : Block) (overlap : ℕ)
      → Fits size b
      → IsMarked P b
      → IsPacked s
      → IsPacked (add_block s b size overlap)
  unfolding add_block emit
  add_block-IsPacked s b overlap fits m h =
      let emitted = emit-IsPacked s h in
      let seedless = emit_as-seed s s.current h.current in
      elim (Bool-cases (b.is_heading && not (no_blocks s.current))) [
        | inl starts ↦ rw starts (elim (Bool-cases (all_headings s.current)) [
          | inl run ↦ rw run (record {
            sized = h.sized;
            current =
                Current-run s.seed s.current b h.current
                  (heading_of b.is_heading (no_blocks s.current) starts).1 run;
          })
          | inr prose ↦
              rw prose (record { sized = emitted; current = Current-single _ b seedless fits m })
        ])
        | inr plain ↦
            rw plain
              (elim (Bool-cases (
                leb (length s.seed + length (body_of (s.current ++ b ∷ [])) + 2) size
                || (no_blocks s.current
                    || (not (no_blocks s.current) && all_headings s.current)))) [
                      | inl room ↦ rw room (record {
                        sized = h.sized;
                        current = Current-concat s.seed s.current b h.current fits m room;
                      })
                      | inr full ↦ rw full (record {
                        sized = emitted;
                        current = Current-seeded _ b overlap (ground arith) fits;
                      })
                    ])
      ]

  add_blocks-IsPacked :
      (s : MergeState) (blocks : List Block) (overlap : ℕ)
      → All (Fits size) blocks
      → All (IsMarked P) blocks
      → IsPacked s
      → IsPacked (add_blocks s blocks size overlap)
  unfolding add_blocks
  add_blocks-IsPacked s [] overlap _ _ h = h
  add_blocks-IsPacked s (b ∷ blocks) overlap (f, fs) (m, ms) h =
      add_blocks-IsPacked (add_block s b size overlap) blocks overlap fs ms
        (add_block-IsPacked s b overlap f m h)

-- With a positive size, a chunk has at most `chunk_size` characters, its overlap included, unless the
-- text of a heading block of the text, a line that the pattern of headings matches, is the chunk or its
-- first paragraph.
pub chunk_text-IsSized :
    (text : Text) (chunk_size chunk_overlap : ℕ)
    → 1 ≤ chunk_size
    → All
        (IsSized (IsHeadingOf (parse_blocks text)) chunk_size)
        (chunk_text text chunk_size chunk_overlap)
unfolding chunk_text merge_into_chunks
chunk_text-IsSized text chunk_size chunk_overlap one = elim (Bool-cases (is_empty (strip text))) [
  | inl blank ↦ rw blank tt
  | inr full ↦
      let blocks = enforce_max_size (parse_blocks text) chunk_size in
      rw full (
        emit-IsPacked (IsHeadingOf (parse_blocks text)) chunk_size _ (
          add_blocks-IsPacked (IsHeadingOf (parse_blocks text)) chunk_size start_merge blocks
            chunk_overlap (enforce_max_size-Fits (parse_blocks text) chunk_size one)
            (enforce_max_size-IsMarked (IsHeadingOf (parse_blocks text)) (parse_blocks text)
              chunk_size (heading_blocks-IsMarked text))
            (record { sized = tt; current = refl })))
]
