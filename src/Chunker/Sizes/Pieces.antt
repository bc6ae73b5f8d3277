-- ===== src/Chunker/Sizes/Pieces.antt =====
-- `enforce_max_size` holds every block to the size, and its loop ends.
use ragr.Prelude.{
  ltb, leb, ◌==◌, ltb→lt, Bool-cases, length, take, drop, length-take, length-drop, All, All-append,
  ℕ, zero, suc, ◌+◌, ◌≤◌, ◌<◌, inl, inr, Bool, false, ◌&&◌, Option, none, some, List, [], ◌∷◌,
  arith,
}
use ragr.Text.{Text, is_space, lstrip, strip}
use ragr.Text.Laws.{length-lstrip-le, length-strip-le}
use ragr.Chunker.Blocks.{Block}
use ragr.Chunker.Split.{
  ends_sentence, last_sentence, rfind_space, word_break, sentence_break, last_break, piece_of,
  split_block, enforce_max_size,
}

abbrev Below : ℕ → Option ℕ → Type 0
Below n none = Unit
Below n (some i) = i ≤ n

last_sentence-Below :
    (i : ℕ) (after : Bool) (t : Text) (best : Option ℕ) (n : ℕ)
    → i + length t ≤ n
    → Below n best
    → Below n (last_sentence i after t best)
unfolding last_sentence
last_sentence-Below i after [] best n h b = b
last_sentence-Below i after (c ∷ t) best n h b =
    last_sentence-Below (suc i) (ends_sentence c) t _ n (omega arith)
      (elim (Bool-cases (after && is_space c)) [
        | inl found ↦ rw found (omega arith)
        | inr other ↦ rw other b
      ])

rfind_space-Below :
    (i : ℕ) (t : Text) (best : Option ℕ) (n : ℕ)
    → i + length t ≤ n
    → Below n best
    → Below n (rfind_space i t best)
unfolding rfind_space
rfind_space-Below i [] best n h b = b
rfind_space-Below i (c ∷ t) best n h b =
    rfind_space-Below (suc i) t _ n (omega arith) (elim (Bool-cases (c == b' ')) [
      | inl found ↦ rw found (omega arith)
      | inr other ↦ rw other b
    ])

word_break_bounds :
    (o : Option ℕ) (n : ℕ) → Below n o → 1 ≤ n → (1 ≤ word_break o n) × (word_break o n ≤ n)
unfolding word_break
word_break_bounds none n b pos = omega arith
word_break_bounds (some i) n b pos = ground arith

sentence_break_bounds :
    (o : Option ℕ) (other n : ℕ)
    → Below n o
    → (1 ≤ other) × (other ≤ n)
    → (1 ≤ sentence_break o other) × (sentence_break o other ≤ n)
unfolding sentence_break
sentence_break_bounds none other n b h = h
sentence_break_bounds (some i) other n b h = ground arith

-- A window that is not empty is cut behind its first character, and not behind its end.
pub last_break_bounds :
    (window : Text)
    → 1 ≤ length window
    → (1 ≤ last_break window) × (last_break window ≤ length window)
unfolding last_break
last_break_bounds window pos =
    sentence_break_bounds (last_sentence 0 false window none) _ (length window)
      (last_sentence-Below 0 false window none (length window) (omega arith) tt)
      (word_break_bounds (rfind_space 0 window none) (length window)
        (rfind_space-Below 0 window none (length window) (omega arith) tt) pos)

abbrev pub Fits : ℕ → Block → Type 0
Fits size b = length b.text ≤ size

piece_of-Fits :
    (size : ℕ) (block : Block) (pos : ℕ) (piece : Text)
    → length piece ≤ size
    → All (Fits size) (piece_of block pos piece)
piece_of-Fits size block pos [] h = tt
piece_of-Fits size block pos (c ∷ piece) h = (h, tt)

-- The fuel is enough, so that what is left at the end is no larger than the size.
split_block-Fits :
    (fuel : ℕ) (block : Block) (size pos : ℕ) (rest : Text)
    → 1 ≤ size
    → length rest ≤ fuel
    → All (Fits size) (split_block fuel block size pos rest)
unfolding split_block
split_block-Fits zero block size pos rest one fuelled =
    piece_of-Fits size block pos (strip rest) (omega (arith, length-strip-le rest))
split_block-Fits (suc fuel) block size pos rest one fuelled =
    elim (Bool-cases (ltb size (length rest))) [
      | inr small ↦ rw small (
          piece_of-Fits size block pos (strip rest)
            (let e : length rest ≤ size = ground arith in omega (arith, length-strip-le rest)))
      | inl large ↦
          let lt : size < length rest = ltb→lt size (length rest) large in
          let cut = last_break_bounds (take size rest) (omega (arith, length-take size rest)) in
          let n = last_break (take size rest) in
          rw large (
            All-append (Fits size) _ _
              (piece_of-Fits size block pos (strip (take n rest)) (
                omega (
                  arith,
                  cut.1,
                  length-strip-le (take n rest),
                  length-take n rest,
                  length-take size rest,
                )))
              (split_block-Fits fuel block size _ (lstrip (drop n rest)) one
                (omega (arith, cut.0, length-lstrip-le (drop n rest), length-drop n rest))))
    ]

-- Every block that `enforce_max_size` returns fits the size, if the size is positive.
pub enforce_max_size-Fits :
    (blocks : List Block) (chunk_size : ℕ)
    → 1 ≤ chunk_size
    → All (Fits chunk_size) (enforce_max_size blocks chunk_size)
unfolding enforce_max_size
enforce_max_size-Fits [] chunk_size one = tt
enforce_max_size-Fits (block ∷ blocks) chunk_size one =
    elim (Bool-cases (leb (length block.text) chunk_size)) [
      | inl fits ↦ rw fits (ground arith, enforce_max_size-Fits blocks chunk_size one)
      | inr large ↦ rw large (
          All-append (Fits chunk_size) _ _
            (split_block-Fits (length block.text) block chunk_size 0 block.text one (omega arith))
            (enforce_max_size-Fits blocks chunk_size one))
    ]
