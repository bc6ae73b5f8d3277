-- ===== src/Chunker/Content/Parsing.antt =====
-- The blocks hold the text: `parse_blocks` and `enforce_max_size` drop white space only.
use ragr.Prelude.{
  ltb, leb, ◌==◌, if◌then◌else◌, ==_iff, Bool-cases, Option-cases, length, take, drop,
  take-append-drop, ℕ, zero, suc, ◌+◌, ◌-◌, ◌≡◌, refl, sym, ap, ap₂, ◌∙◌, inl, inr, true, not, List,
  [], ◌∷◌, ◌++◌, map, append_assoc, append-nil, map-append, arith,
}
use ragr.Text.{Text, is_space, is_empty, lstrip, strip, join, squeeze, concat, splitlines}
use ragr.Text.Laws.{
  IsBlank, squeeze-append, squeeze-strip, squeeze-lstrip, squeeze-rstrip_by, squeeze-join,
  concat-append, concat-splitlines,
}
use ragr.Chunker.Blocks.{
  Block, ParseState, flush, push_line, push_heading, read_line, parse_lines, parse_blocks, no_lines,
  is_fence, match_heading, start_state,
}
use ragr.Chunker.Split.{last_break, piece_of, split_block, enforce_max_size}

-- The text of some blocks, without white space.
abbrev pub content : List Block → Text
content blocks = squeeze (concat (map (λ b. b.text) blocks))

squeeze-concat-append :
    (ts us : List Text) → squeeze (concat (ts ++ us)) ≡ squeeze (concat ts) ++ squeeze (concat us)
squeeze-concat-append ts us = rw concat-append (squeeze-append (concat ts) (concat us))

pub content-append : (xs ys : List Block) → content (xs ++ ys) ≡ content xs ++ content ys
content-append xs ys = rw (map-append (λ (b : Block). b.text) xs ys) (squeeze-concat-append _ _)

concat-single : (t : Text) → concat (t ∷ []) ≡ t
unfolding concat
concat-single t = append-nil t

-- What the parser has read: in the blocks, and in the buffer.
seen : ParseState → Text
seen s = content s.blocks ++ squeeze (concat s.buffer)

no_lines-eq : (ts : List Text) → no_lines ts ≡ true → ts ≡ []
no_lines-eq [] h = refl
no_lines-eq (t ∷ ts) h = ground arith

newline-IsBlank : IsBlank (b'\n' ∷ [])
unfolding is_space
newline-IsBlank = (refl, tt)

squeeze-joined : (ts : List Text) → squeeze (strip (join (b'\n' ∷ []) ts)) ≡ squeeze (concat ts)
squeeze-joined ts =
    squeeze-strip (join (b'\n' ∷ []) ts) ∙ squeeze-join (b'\n' ∷ []) ts newline-IsBlank

is_empty-eq : (t : Text) → is_empty t ≡ true → t ≡ []
is_empty-eq [] h = refl
is_empty-eq (c ∷ t) h = ground arith

squeeze_nil : squeeze (concat []) ≡ []
unfolding squeeze concat
squeeze_nil = refl

squeeze_of_no_lines : (ts : List Text) → no_lines ts ≡ true → squeeze (concat ts) ≡ []
squeeze_of_no_lines [] h = squeeze_nil
squeeze_of_no_lines (t ∷ ts) h = ground arith

squeeze_of_is_empty : (t : Text) → is_empty t ≡ true → squeeze t ≡ []
unfolding squeeze
squeeze_of_is_empty [] h = refl
squeeze_of_is_empty (c ∷ t) h = ground arith

append-eq_nil : (s t : Text) → t ≡ [] → s ≡ s ++ t
append-eq_nil s t e = rw e (sym (append-nil s))

-- Flushing moves the buffer into the blocks.
flush_lem : (s : ParseState) → ((flush s).buffer ≡ []) × (content (flush s).blocks ≡ seen s)
unfolding seen flush
flush_lem s = elim (Bool-cases (no_lines s.buffer)) [
  | inl none_left ↦ rw none_left (
    no_lines-eq s.buffer none_left,
    append-eq_nil (content s.blocks) _ (squeeze_of_no_lines s.buffer none_left),
  )
  | inr lines ↦ rw lines (elim (Bool-cases (is_empty (strip (join (b'\n' ∷ []) s.buffer)))) [
    | inl blank ↦ rw blank (
      refl,
      append-eq_nil (content s.blocks) _
          (sym (squeeze-joined s.buffer) ∙ squeeze_of_is_empty _ blank),
    )
    | inr joined ↦ rw joined (
      refl,
      content-append s.blocks _
          ∙ ap (λ r. content s.blocks ++ r)
              (ap squeeze (concat-single _) ∙ squeeze-joined s.buffer),
    )
  ])
]

is_newline-space : (c : ℕ) → (c == b'\n') ≡ true → is_space c ≡ true
is_newline-space c h = rw ((==_iff c b'\n').0 h) (unfold is_space in refl)

seen-push_line : (s : ParseState) (line : Text) → seen (push_line s line) ≡ seen s ++ squeeze line
unfolding seen push_line
seen-push_line s line =
    ap (λ r. content s.blocks ++ r)
      (squeeze-concat-append s.buffer _
        ∙ ap (λ r. squeeze (concat s.buffer) ++ r)
            (ap squeeze (concat-single _)
              ∙ squeeze-rstrip_by (λ c. c == b'\n') line is_newline-space))
    ∙ sym (append_assoc (content s.blocks) (squeeze (concat s.buffer)) (squeeze line))

seen-flush : (s : ParseState) → seen (flush s) ≡ seen s
seen-flush s =
    let (emptied, moved) = flush_lem s in
    unfold seen in rw emptied (rw squeeze_nil (append-nil _ ∙ moved))

seen-push_heading :
    (s : ParseState) (bare : Text) (heading : ℕ × Text)
    → seen (push_heading (flush s) bare heading) ≡ seen s ++ squeeze bare
unfolding push_heading
seen-push_heading s bare (level, title) =
    let (emptied, moved) = flush_lem s in
    unfold seen in
    rw emptied (
      rw squeeze_nil (
        append-nil _
        ∙ content-append (flush s).blocks _
        ∙ ap₂ (λ a b. a ++ b) moved (ap squeeze (concat-single _))))

-- A line is read whole, but for white space.
seen-read_line : (s : ParseState) (line : Text) → seen (read_line s line) ≡ seen s ++ squeeze line
unfolding read_line seen push_line
seen-read_line s line = elim (Bool-cases (is_fence (strip line))) [
  | inl fence ↦ rw fence (seen-push_line (record s { in_fence = not s.in_fence }) line)
  | inr plain ↦ rw plain (elim (Bool-cases s.in_fence) [
    | inl inside ↦ rw (inside, if◌then◌else◌) (seen-push_line s line)
    | inr outside ↦
        rw (outside, if◌then◌else◌)
          (elim (Option-cases (match_heading (strip line))) [
            | inr (heading, matched) ↦
                rw (matched, read_line)
                  (seen-push_heading s (strip line) heading
                    ∙ ap (λ r. seen s ++ r) (squeeze-strip line))
            | inl unmatched ↦
                rw (unmatched, read_line)
                  (elim (Bool-cases (is_empty (strip line))) [
                    | inr text ↦ rw text (seen-push_line s line)
                    | inl blank ↦ rw blank (
                        seen-flush s
                        ∙ append-eq_nil (seen s) (squeeze line)
                            (sym (squeeze-strip line) ∙ squeeze_of_is_empty (strip line) blank))
                  ])
          ])
  ])
]

content-parse_lines :
    (s : ParseState) (lines : List Text)
    → content (parse_lines s lines).blocks ≡ seen s ++ squeeze (concat lines)
unfolding parse_lines seen concat
content-parse_lines s [] = (flush_lem s).1 ∙ append-eq_nil (seen s) _ squeeze_nil
content-parse_lines s (line ∷ lines) =
    let s' = read_line s line in
    content-parse_lines (record s' { offset = s'.offset + length line }) lines
    ∙ ap (λ r. r ++ squeeze (concat lines)) (seen-read_line s line)
    ∙ append_assoc (seen s) (squeeze line) (squeeze (concat lines))
    ∙ ap (λ r. seen s ++ r) (sym (squeeze-append line (concat lines)))

-- Parsing drops white space and nothing else: without it, the blocks hold the text's characters, in
-- order and as often.
pub content-parse_blocks : (text : Text) → content (parse_blocks text) ≡ squeeze text
unfolding parse_blocks
content-parse_blocks text =
    content-parse_lines start_state (splitlines text)
    ∙ (unfold seen squeeze concat in ap squeeze (concat-splitlines text))

-- A piece of text holds what the text holds.
content-piece_of :
    (block : Block) (pos : ℕ) (piece : Text) → content (piece_of block pos piece) ≡ squeeze piece
content-piece_of block pos [] = unfold concat in refl
content-piece_of block pos (c ∷ piece) = ap squeeze (concat-single (c ∷ piece))

squeeze-take-drop : (n : ℕ) (t : Text) → squeeze (take n t) ++ squeeze (drop n t) ≡ squeeze t
squeeze-take-drop n t =
    sym (squeeze-append (take n t) (drop n t)) ∙ ap squeeze (take-append-drop n t)

content-split_block :
    (fuel : ℕ) (block : Block) (chunk_size pos : ℕ) (rest : Text)
    → content (split_block fuel block chunk_size pos rest) ≡ squeeze rest
unfolding split_block
content-split_block zero block chunk_size pos rest =
    content-piece_of block pos (strip rest) ∙ squeeze-strip rest
content-split_block (suc fuel) block chunk_size pos rest =
    let cut = last_break (take chunk_size rest) in
    let after = lstrip (drop cut rest) in
    let later =
      content-split_block fuel block chunk_size (pos + (length rest - length after)) after in
    elim (Bool-cases (ltb chunk_size (length rest))) [
      | inr small ↦ rw small (content-piece_of block pos (strip rest) ∙ squeeze-strip rest)
      | inl large ↦ rw large (
          content-append (piece_of block pos (strip (take cut rest))) _
          ∙ ap₂ (λ a b. a ++ b)
              (content-piece_of block pos (strip (take cut rest)) ∙ squeeze-strip (take cut rest))
              (later ∙ squeeze-lstrip (drop cut rest))
          ∙ squeeze-take-drop cut rest)
    ]

-- Cutting blocks to the size drops white space and nothing else.
pub content-enforce_max_size :
    (blocks : List Block) (chunk_size : ℕ)
    → content (enforce_max_size blocks chunk_size) ≡ content blocks
unfolding enforce_max_size
content-enforce_max_size [] chunk_size = refl
content-enforce_max_size (block ∷ blocks) chunk_size =
    elim (Bool-cases (leb (length block.text) chunk_size)) [
      | inl fits ↦ rw fits (
          content-append (block ∷ []) (enforce_max_size blocks chunk_size)
          ∙ ap (λ r. content (block ∷ []) ++ r) (content-enforce_max_size blocks chunk_size)
          ∙ sym (content-append (block ∷ []) blocks))
      | inr large ↦ rw large (
          content-append (split_block (length block.text) block chunk_size 0 block.text) _
          ∙ ap₂ (λ a b. a ++ b)
              (content-split_block (length block.text) block chunk_size 0 block.text
                ∙ ap squeeze (sym (concat-single block.text)))
              (content-enforce_max_size blocks chunk_size)
          ∙ sym (content-append (block ∷ []) blocks))
    ]
