-- ===== src/Chunker/Sizes/Numbering.antt =====
-- The positions of a text's chunks.
use ragr.Prelude.{
  leb, Bool-cases, length, ℕ, suc, ◌+◌, ◌≡◌, inl, inr, ◌&&◌, ◌||◌, not, List, [], ◌∷◌, ◌++◌, arith,
}
use ragr.Text.{Text, is_empty, strip}
use ragr.Chunker.{chunk_text}
use ragr.Chunker.Blocks.{Block, parse_blocks}
use ragr.Chunker.Split.{enforce_max_size}
use ragr.Chunker.Merge.{
  ChunkResult, MergeState, body_of, emit_as, emit, add_block, add_blocks, merge_into_chunks,
  start_merge, no_blocks, all_headings,
}

-- The chunks are numbered from `n` on.
abbrev pub IsNumbered : ℕ → List ChunkResult → Type 0
IsNumbered n [] = Unit
IsNumbered n (c ∷ chunks) = (c.position ≡ n) × IsNumbered (suc n) chunks

IsNumbered-concat :
    (n : ℕ) (chunks : List ChunkResult) (c : ChunkResult)
    → IsNumbered n chunks
    → c.position ≡ n + length chunks
    → IsNumbered n (chunks ++ c ∷ [])
IsNumbered-concat n [] c h e = (omega arith, tt)
IsNumbered-concat n (d ∷ chunks) c (p, h) e =
    (p, IsNumbered-concat (suc n) chunks c h (omega arith))

emit_as-IsNumbered :
    (s : MergeState) (current : List Block)
    → IsNumbered 0 s.chunks
    → IsNumbered 0 (emit_as s current).chunks
unfolding emit_as
emit_as-IsNumbered s [] h = h
emit_as-IsNumbered s (b ∷ rest) h = IsNumbered-concat 0 s.chunks _ h (omega arith)

add_block-IsNumbered :
    (s : MergeState) (b : Block) (size overlap : ℕ)
    → IsNumbered 0 s.chunks
    → IsNumbered 0 (add_block s b size overlap).chunks
unfolding add_block emit
add_block-IsNumbered s b size overlap h =
    let emitted = emit_as-IsNumbered s s.current h in
    elim (Bool-cases (b.is_heading && not (no_blocks s.current))) [
      | inl starts ↦ rw starts (elim (Bool-cases (all_headings s.current)) [
        | inl run ↦ rw run h
        | inr prose ↦ rw prose emitted
      ])
      | inr plain ↦
          rw plain
            (elim (Bool-cases (
              leb (length s.seed + length (body_of (s.current ++ b ∷ [])) + 2) size
              || (no_blocks s.current || (not (no_blocks s.current) && all_headings s.current)))) [
                | inl room ↦ rw room h
                | inr full ↦ rw full emitted
              ])
    ]

add_blocks-IsNumbered :
    (s : MergeState) (blocks : List Block) (size overlap : ℕ)
    → IsNumbered 0 s.chunks
    → IsNumbered 0 (add_blocks s blocks size overlap).chunks
unfolding add_blocks
add_blocks-IsNumbered s [] size overlap h = h
add_blocks-IsNumbered s (b ∷ blocks) size overlap h =
    add_blocks-IsNumbered (add_block s b size overlap) blocks size overlap
      (add_block-IsNumbered s b size overlap h)

-- The positions of the chunks of a text are 0, 1, 2 and so on, which retrieval needs to find a chunk's
-- neighbours.
pub chunk_text-IsNumbered :
    (text : Text) (chunk_size chunk_overlap : ℕ)
    → IsNumbered 0 (chunk_text text chunk_size chunk_overlap)
unfolding chunk_text merge_into_chunks emit
chunk_text-IsNumbered text chunk_size chunk_overlap = elim (Bool-cases (is_empty (strip text))) [
  | inl blank ↦ rw blank tt
  | inr full ↦
      let s =
        add_blocks start_merge (enforce_max_size (parse_blocks text) chunk_size) chunk_size
          chunk_overlap in
      rw full (
        emit_as-IsNumbered s s.current (
          add_blocks-IsNumbered start_merge (enforce_max_size (parse_blocks text) chunk_size)
            chunk_size chunk_overlap tt))
]
