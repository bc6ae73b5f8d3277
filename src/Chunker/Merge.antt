-- ===== src/Chunker/Merge.antt =====
-- `_merge_into_chunks` and `_overlap_tail` of app/services/chunker.py: blocks are packed into chunks.
use ragr.Prelude.{
  ltb, leb, ◌==◌, if◌then◌else◌, length, drop, all, ℕ, ◌+◌, ◌-◌, min, Bool, true, false, ◌&&◌, ◌||◌,
  not, Option, none, some, List, [], ◌∷◌, ◌++◌, map,
}
use ragr.Text.{Text, is_empty, is_space, lstrip, strip, join}
use ragr.Chunker.Blocks.{Block}
use ragr.Chunker.Split.{ends_sentence}

pub record ChunkResult : Type 0 where
  pub text : Text
  pub position : ℕ
  pub heading_path : List Text
  pub start_offset : ℕ
  pub end_offset : ℕ

-- What follows the first match of `_SENTENCE_END`.
unfoldable pub after_sentence : Bool → Text → Option Text
after_sentence after [] = none
after_sentence after (c ∷ t) =
    let rest = after_sentence (ends_sentence c) t in
    if after && is_space c then some (lstrip (c ∷ t)) else rest

-- What follows the first space.
unfoldable pub after_space : Text → Option Text
after_space [] = none
after_space (c ∷ t) = let rest = after_space t in if c == b' ' then some t else rest

-- the last `budget` characters
abbrev pub tail_of : Text → ℕ → Text
tail_of text budget = if ltb budget (length text) then drop (length text - budget) text else text

unfoldable pub snap : Text → Text
snap tail = elim (after_sentence false tail) [
  | some rest ↦ strip rest
  | none ↦ elim (after_space tail) [ some rest ↦ strip rest | none ↦ [] ]
]

-- A budget that is not positive is 0 here.
unfoldable pub overlap_tail : Text → ℕ → Text
unfolding after_sentence after_space snap
overlap_tail text budget = if budget == 0 || is_empty text then [] else snap (tail_of text budget)

abbrev pub paragraph : Text
paragraph = b'\n' ∷ b'\n' ∷ []

abbrev pub body_of : List Block → Text
body_of current = join paragraph (map (λ b. b.text) current)

-- the text before `current`, where the chunk overlaps the last one
abbrev pub seeded : Text → Text → Text
seeded seed body = if is_empty seed then body else seed ++ (paragraph ++ body)

abbrev pub all_headings : List Block → Bool
all_headings = all (λ b. b.is_heading)

-- the first block that is no heading, or else the last block
unfoldable pub situating : Block → List Block → List Text
situating b [] = b.heading_path
situating b (c ∷ rest) =
    let later = situating c rest in if b.is_heading then later else b.heading_path

-- the end of the last block
unfoldable pub end_of : Block → List Block → ℕ
end_of b [] = b.start + length b.text
end_of b (c ∷ rest) = end_of c rest

pub record MergeState : Type 0 where
  pub chunks : List ChunkResult
  pub current : List Block
  pub seed : Text

unfoldable pub emit_as : MergeState → List Block → MergeState
unfolding situating end_of
emit_as s [] = s
emit_as s (b ∷ rest) = record {
  chunks =
      s.chunks
      ++ record {
        text = seeded s.seed (body_of (b ∷ rest));
        position = length s.chunks;
        heading_path = situating b rest;
        start_offset = b.start;
        end_offset = end_of b rest;
      }
        ∷ [];
  current = [];
  seed = [];
}

unfoldable pub emit : MergeState → MergeState
emit s = emit_as s s.current

abbrev pub no_blocks : List Block → Bool
no_blocks [] = true
no_blocks (_ ∷ _) = false

-- One round of the loop over the blocks.
unfoldable pub add_block : MergeState → Block → ℕ → ℕ → MergeState
add_block s block chunk_size chunk_overlap =
    let appended = record s { current = s.current ++ block ∷ [] } in
    if block.is_heading && not (no_blocks s.current)
    then if all_headings s.current then appended else record (emit s) { current = block ∷ [] }
    else (let candidate = body_of (s.current ++ block ∷ []) in
        let heading_only = not (no_blocks s.current) && all_headings s.current in
        if leb (length s.seed + length candidate + 2) chunk_size
          || (no_blocks s.current || heading_only)
        then appended
        else record (emit s) {
          seed =
              overlap_tail (seeded s.seed (body_of s.current))
                (min chunk_overlap (chunk_size - length block.text - 2));
          current = block ∷ [];
        })

unfoldable pub add_blocks : MergeState → List Block → ℕ → ℕ → MergeState
unfolding add_block emit emit_as
add_blocks s [] chunk_size chunk_overlap = s
add_blocks s (block ∷ blocks) chunk_size chunk_overlap =
    add_blocks (add_block s block chunk_size chunk_overlap) blocks chunk_size chunk_overlap

abbrev pub start_merge : MergeState
start_merge = record { chunks = []; current = []; seed = [] }

unfoldable pub merge_into_chunks : List Block → ℕ → ℕ → List ChunkResult
unfolding add_blocks emit
merge_into_chunks blocks chunk_size chunk_overlap =
    let s = emit (add_blocks start_merge blocks chunk_size chunk_overlap) in s.chunks
