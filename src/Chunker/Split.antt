-- ===== src/Chunker/Split.antt =====
-- `_enforce_max_size` of app/services/chunker.py: a block that is too large is cut at sentence, then at
-- word boundaries.
use ragr.Prelude.{
  ltb, leb, ◌==◌, if◌then◌else◌, length, take, drop, ℕ, zero, suc, ◌+◌, ◌-◌, Bool, false, ◌&&◌,
  ◌||◌, Option, none, some, List, [], ◌∷◌, ◌++◌,
}
use ragr.Text.{Text, is_empty, is_space, lstrip, strip}
use ragr.Chunker.Blocks.{Block}

-- `[.!?]`, the characters that a sentence ends in
unfoldable pub ends_sentence : ℕ → Bool
ends_sentence c = c == b'.' || (c == b'!' || c == b'?')

-- The start of the last match of `_SENTENCE_END`: white space right behind a sentence's last
-- character. `after` says whether the character before index `i` is one.
unfoldable pub last_sentence : ℕ → Bool → Text → Option ℕ → Option ℕ
last_sentence i after [] best = best
last_sentence i after (c ∷ t) best =
    last_sentence (suc i) (ends_sentence c) t (if after && is_space c then some i else best)

-- window.rfind(" ")
unfoldable pub rfind_space : ℕ → Text → Option ℕ → Option ℕ
rfind_space i [] best = best
rfind_space i (c ∷ t) best = rfind_space (suc i) t (if c == b' ' then some i else best)

-- the index of the last space, unless that is 0 or there is none
unfoldable pub word_break : Option ℕ → ℕ → ℕ
word_break none full = full
word_break (some i) full = if ltb 0 i then i else full

unfoldable pub sentence_break : Option ℕ → ℕ → ℕ
sentence_break none other = other
sentence_break (some i) other = if ltb 0 i then i else other

unfoldable pub last_break : Text → ℕ
unfolding last_sentence rfind_space word_break sentence_break ends_sentence
last_break window =
    sentence_break (last_sentence 0 false window none)
      (word_break (rfind_space 0 window none) (length window))

-- A piece of a block, if anything is left of it.
abbrev pub piece_of : Block → ℕ → Text → List Block
piece_of block pos piece =
    if is_empty piece
    then []
    else record {
      text = piece;
      start = block.start + pos;
      heading_path = block.heading_path;
      is_heading = false;
    }
      ∷ []

-- The `while` loop: `rest` is `text[pos:]`. The fuel is a bound on the rounds, and each round takes at
-- least one character.
unfoldable pub split_block : ℕ → Block → ℕ → ℕ → Text → List Block
split_block zero block chunk_size pos rest = piece_of block pos (strip rest)
split_block (suc fuel) block chunk_size pos rest =
    let cut = last_break (take chunk_size rest) in
    let after = lstrip (drop cut rest) in
    let pieces = split_block fuel block chunk_size (pos + (length rest - length after)) after in
    if ltb chunk_size (length rest)
    then piece_of block pos (strip (take cut rest)) ++ pieces
    else piece_of block pos (strip rest)

unfoldable pub enforce_max_size : List Block → ℕ → List Block
unfolding split_block
enforce_max_size [] chunk_size = []
enforce_max_size (block ∷ blocks) chunk_size =
    let rest = enforce_max_size blocks chunk_size in
    if leb (length block.text) chunk_size
    then block ∷ rest
    else split_block (length block.text) block chunk_size 0 block.text ++ rest
