-- ===== src/Chunker/Sizes/Headings.antt =====
-- A heading block is a line that the pattern of headings matches.
use ragr.Prelude.{
  ltb, leb, if◌then◌else◌, Bool-cases, Option-cases, length, take, drop, All, All-append, ℕ, zero,
  suc, ◌+◌, ◌≡◌, refl, sym, ◌∙◌, ◌⊎◌, inl, inr, true, false, some, List, [], ◌∷◌, ◌++◌,
  append_assoc,
}
use ragr.Text.{Text, is_empty, lstrip, strip, join, splitlines}
use ragr.Chunker.Blocks.{
  Block, ParseState, flush, push_line, push_heading, read_line, parse_lines, parse_blocks, no_lines,
  is_fence, match_heading, start_state,
}
use ragr.Chunker.Split.{piece_of, split_block, last_break, enforce_max_size}

-- A line that the pattern of headings matches.
abbrev pub IsHeading : Text → Type 0
IsHeading t = (heading : ℕ × Text) × (match_heading t ≡ some heading)

-- A heading line that is a heading block of these blocks.
abbrev pub IsHeadingOf : List Block → Text → Type 0
IsHeadingOf blocks t =
    IsHeading t
    × ((before : List Block) × ((b : Block) × ((after : List Block) × ((blocks
                ≡ before ++ b ∷ after)
              × ((b.is_heading ≡ true) × (b.text ≡ t))))))

module _ (P : Text → Type 0) where
  abbrev pub IsMarked : Block → Type 0
  IsMarked b = (b.is_heading ≡ false) ⊎ P b.text

Marked : ParseState → Type 0
Marked s = All (IsMarked IsHeading) s.blocks

flush-Marked : (s : ParseState) → Marked s → Marked (flush s)
unfolding flush Marked
flush-Marked s h = elim (Bool-cases (no_lines s.buffer)) [
  | inl none_left ↦ rw none_left h
  | inr lines ↦ rw lines (elim (Bool-cases (is_empty (strip (join (b'\n' ∷ []) s.buffer)))) [
    | inl blank ↦ rw blank h
    | inr joined ↦ rw joined (All-append (IsMarked IsHeading) s.blocks _ h (inl refl, tt))
  ])
]

push_heading-Marked :
    (s : ParseState) (bare : Text) (heading : ℕ × Text)
    → Marked s
    → IsHeading bare
    → Marked (push_heading s bare heading)
unfolding push_heading Marked
push_heading-Marked s bare (level, title) h m =
    All-append (IsMarked IsHeading) s.blocks _ h (inr m, tt)

read_line-Marked : (s : ParseState) (line : Text) → Marked s → Marked (read_line s line)
unfolding read_line Marked push_line
read_line-Marked s line h = elim (Bool-cases (is_fence (strip line))) [
  | inl fence ↦ rw fence h
  | inr plain ↦ rw plain (elim (Bool-cases s.in_fence) [
    | inl inside ↦ rw (inside, if◌then◌else◌) h
    | inr outside ↦
        rw (outside, if◌then◌else◌)
          (elim (Option-cases (match_heading (strip line))) [
            | inr (heading, matched) ↦
                rw (matched, read_line)
                  (push_heading-Marked (flush s) (strip line) heading (flush-Marked s h)
                    (heading, matched))
            | inl unmatched ↦
                rw (unmatched, read_line)
                  (elim (Bool-cases (is_empty (strip line))) [
                    | inr text ↦ rw text h
                    | inl blank ↦ rw blank (flush-Marked s h)
                  ])
          ])
  ])
]

parse_lines-Marked : (s : ParseState) (lines : List Text) → Marked s → Marked (parse_lines s lines)
unfolding parse_lines Marked
parse_lines-Marked s [] h = flush-Marked s h
parse_lines-Marked s (line ∷ lines) h =
    let s' = read_line s line in
    parse_lines-Marked (record s' { offset = s'.offset + length line }) lines
      (read_line-Marked s line h)

parse_blocks-IsMarked : (text : Text) → All (IsMarked IsHeading) (parse_blocks text)
unfolding parse_blocks Marked
parse_blocks-IsMarked text = parse_lines-Marked start_state (splitlines text) tt

placed-IsMarked :
    (blocks before rest : List Block)
    → blocks ≡ before ++ rest
    → All (IsMarked IsHeading) rest
    → All (IsMarked (IsHeadingOf blocks)) rest
placed-IsMarked blocks before [] e h = tt
placed-IsMarked blocks before (b ∷ rest) e (m, h) = (
  elim (Bool-cases b.is_heading) [
    | inr plain ↦ inl plain
    | inl led ↦ elim m [
      | inl plain ↦ inl plain
      | inr line ↦ inr (line, (before, (b, (rest, (e, (led, refl))))))
    ]
  ],
  placed-IsMarked blocks (before ++ b ∷ []) rest (e ∙ sym (append_assoc before (b ∷ []) rest)) h,
)

pub heading_blocks-IsMarked :
    (text : Text) → All (IsMarked (IsHeadingOf (parse_blocks text))) (parse_blocks text)
heading_blocks-IsMarked text =
    placed-IsMarked (parse_blocks text) [] (parse_blocks text) refl (parse_blocks-IsMarked text)

module _ (P : Text → Type 0) where
  piece_of-IsMarked :
      (block : Block) (pos : ℕ) (piece : Text) → All (IsMarked P) (piece_of block pos piece)
  piece_of-IsMarked block pos [] = tt
  piece_of-IsMarked block pos (c ∷ piece) = (inl refl, tt)

  split_block-IsMarked :
      (fuel : ℕ) (block : Block) (size pos : ℕ) (rest : Text)
      → All (IsMarked P) (split_block fuel block size pos rest)
  unfolding split_block
  split_block-IsMarked zero block size pos rest = piece_of-IsMarked block pos (strip rest)
  split_block-IsMarked (suc fuel) block size pos rest =
      let later = split_block-IsMarked fuel block size in
      elim (Bool-cases (ltb size (length rest))) [
        | inr small ↦ rw small (piece_of-IsMarked block pos (strip rest))
        | inl large ↦ rw large (
            All-append (IsMarked P) _ _
              (piece_of-IsMarked block pos (strip (take (last_break (take size rest)) rest)))
              (later _ (lstrip (drop (last_break (take size rest)) rest))))
      ]

  pub enforce_max_size-IsMarked :
      (blocks : List Block) (size : ℕ)
      → All (IsMarked P) blocks
      → All (IsMarked P) (enforce_max_size blocks size)
  unfolding enforce_max_size
  enforce_max_size-IsMarked [] size h = tt
  enforce_max_size-IsMarked (block ∷ blocks) size (p, h) =
      elim (Bool-cases (leb (length block.text) size)) [
        | inl fits ↦ rw fits (p, enforce_max_size-IsMarked blocks size h)
        | inr large ↦ rw large (
            All-append (IsMarked P) _ _
              (split_block-IsMarked (length block.text) block size 0 block.text)
              (enforce_max_size-IsMarked blocks size h))
      ]
