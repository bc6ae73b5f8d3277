-- ===== src/Chunker/Content/Packing.antt =====
-- Packing the blocks into chunks keeps their text, in order; what a chunk has besides is its overlap.
use mathlib.Core.List.{Sublist, sublist-append_right, nil-sublist}
use mathlib.Core.List.Sublist
use ragr.Prelude.{
  leb, Bool-cases, length, ℕ, ◌+◌, min, ◌≡◌, refl, sym, ap, ap₂, ◌∙◌, ◌⊎◌, inl, inr, true, ◌&&◌,
  ◌||◌, not, List, [], ◌∷◌, ◌++◌, map, append_assoc, append-nil, map-append, arith,
}
use ragr.Text.{Text, is_space, is_empty, squeeze, concat, strip}
use ragr.Text.Laws.{
  IsBlank, squeeze-append, squeeze-join, squeeze-strip, concat-append, squeeze_nil,
  squeeze_of_IsBlank,
}
use ragr.Chunker.{chunk_text}
use ragr.Chunker.Blocks.{Block, parse_blocks}
use ragr.Chunker.Split.{enforce_max_size}
use ragr.Chunker.Merge.{
  ChunkResult, MergeState, paragraph, body_of, seeded, emit_as, emit, add_block, add_blocks,
  merge_into_chunks, overlap_tail, start_merge, no_blocks, all_headings,
}
use ragr.Chunker.Content.Parsing.{
  content, content-append, content-parse_blocks, content-enforce_max_size,
}

-- The text of some chunks, without white space.
abbrev pub chunk_content : List ChunkResult → Text
chunk_content chunks = squeeze (concat (map (λ c. c.text) chunks))

paragraph-IsBlank : IsBlank paragraph
unfolding is_space
paragraph-IsBlank = (refl, (refl, tt))

squeeze-body_of : (current : List Block) → squeeze (body_of current) ≡ content current
squeeze-body_of current = squeeze-join paragraph (map (λ b. b.text) current) paragraph-IsBlank

squeeze-seeded : (seed body : Text) → squeeze (seeded seed body) ≡ squeeze seed ++ squeeze body
squeeze-seeded [] body = rw squeeze_nil
squeeze-seeded (c ∷ seed) body =
    squeeze-append (c ∷ seed) (paragraph ++ body)
    ∙ ap (λ r. squeeze (c ∷ seed) ++ r)
        (squeeze-append paragraph body
          ∙ ap (λ r. r ++ squeeze body) (squeeze_of_IsBlank paragraph paragraph-IsBlank))

chunk_content-concat :
    (chunks : List ChunkResult) (c : ChunkResult)
    → chunk_content (chunks ++ c ∷ []) ≡ chunk_content chunks ++ squeeze c.text
chunk_content-concat chunks c =
    ap (λ ts. squeeze (concat ts)) (map-append (λ (k : ChunkResult). k.text) chunks (c ∷ []))
    ∙ ap squeeze (concat-append (map (λ k. k.text) chunks) (c.text ∷ []))
    ∙ squeeze-append (concat (map (λ k. k.text) chunks)) (concat (c.text ∷ []))
    ∙ (unfold concat in ap (λ r. chunk_content chunks ++ squeeze r) (append-nil c.text))

-- The text that is in the chunks or waits in the current one.
abbrev held : MergeState → Text
held s = chunk_content s.chunks ++ content s.current

chunk_content-emit_as :
    (s : MergeState) (b : Block) (rest : List Block)
    → chunk_content (emit_as s (b ∷ rest)).chunks
      ≡ chunk_content s.chunks ++ (squeeze s.seed ++ content (b ∷ rest))
unfolding emit_as
chunk_content-emit_as s b rest =
    chunk_content-concat s.chunks _
    ∙ ap (λ r. chunk_content s.chunks ++ r)
        (squeeze-seeded s.seed (body_of (b ∷ rest))
          ∙ ap (λ r. squeeze s.seed ++ r) (squeeze-body_of (b ∷ rest)))

content_nil : content [] ≡ []
unfolding squeeze concat
content_nil = refl

chunk_content-emit_nil :
    (s : MergeState) → chunk_content (emit_as s []).chunks ≡ chunk_content s.chunks ++ content []
unfolding emit_as
chunk_content-emit_nil s =
    sym (append-nil _) ∙ ap (λ r. chunk_content s.chunks ++ r) (sym content_nil)

emit_as-sublist :
    (s : MergeState) (current : List Block)
    → Sublist (chunk_content s.chunks ++ content current) (chunk_content (emit_as s current).chunks)
emit_as-sublist s [] = rw (chunk_content-emit_nil s) (Sublist.refl _)
emit_as-sublist s (b ∷ rest) = rw (chunk_content-emit_as s b rest) (
    Sublist.append (Sublist.refl (chunk_content s.chunks))
      (sublist-append_right (squeeze s.seed) (content (b ∷ rest))))

emit-sublist : (s : MergeState) → Sublist (held s) (chunk_content (emit s).chunks)
unfolding emit
emit-sublist s = emit_as-sublist s s.current

emit_as-exact :
    (s : MergeState) (current : List Block)
    → s.seed ≡ []
    → chunk_content (emit_as s current).chunks ≡ chunk_content s.chunks ++ content current
emit_as-exact s [] e = chunk_content-emit_nil s
emit_as-exact s (b ∷ rest) e =
    chunk_content-emit_as s b rest
    ∙ ap (λ r. chunk_content s.chunks ++ (r ++ content (b ∷ rest))) (ap squeeze e ∙ squeeze_nil)

emit-exact : (s : MergeState) → s.seed ≡ [] → chunk_content (emit s).chunks ≡ held s
unfolding emit
emit-exact s e = emit_as-exact s s.current e

emit_as-seed : (s : MergeState) (current : List Block) → s.seed ≡ [] → (emit_as s current).seed ≡ []
unfolding emit_as
emit_as-seed s [] e = e
emit_as-seed s (b ∷ rest) e = refl

emit-seed : (s : MergeState) → s.seed ≡ [] → (emit s).seed ≡ []
unfolding emit
emit-seed s e = emit_as-seed s s.current e

-- A block joins the current chunk, or the current chunk is emitted and the block begins the next.
record Joins (s s' : MergeState) (b : Block) : Type 0 where
  chunks : s'.chunks ≡ s.chunks
  current : s'.current ≡ s.current ++ b ∷ []
  seed : s'.seed ≡ s.seed

record Begins (s s' : MergeState) (b : Block) (overlap : ℕ) : Type 0 where
  chunks : s'.chunks ≡ (emit s).chunks
  current : s'.current ≡ b ∷ []
  seed :
      (s'.seed ≡ (emit s).seed)
      ⊎ ((t : Text) × (n : ℕ) × (s'.seed ≡ overlap_tail t (min overlap n)))

add_block-cases :
    (s : MergeState) (b : Block) (size overlap : ℕ)
    → Joins s (add_block s b size overlap) b ⊎ Begins s (add_block s b size overlap) b overlap
unfolding add_block
add_block-cases s b size overlap = elim (Bool-cases (b.is_heading && not (no_blocks s.current))) [
  | inl starts ↦ rw starts (elim (Bool-cases (all_headings s.current)) [
    | inl run ↦ rw run (inl (record { chunks = refl; current = refl; seed = refl }))
    | inr prose ↦ rw prose (inr (record { chunks = refl; current = refl; seed = inl refl }))
  ])
  | inr plain ↦
      rw plain
        (elim (Bool-cases (
          leb (length s.seed + length (body_of (s.current ++ b ∷ [])) + 2) size
          || (no_blocks s.current || (not (no_blocks s.current) && all_headings s.current)))) [
            | inl fits ↦ rw fits (inl (record { chunks = refl; current = refl; seed = refl }))
            | inr full ↦
                rw full (inr (record { chunks = refl; current = refl; seed = inr (_, _, refl) }))
          ])
]

held-joined :
    (s : MergeState) (b : Block) (s' : MergeState)
    → Joins s s' b
    → held s' ≡ held s ++ content (b ∷ [])
held-joined s b s' j =
    ap₂ (λ c k. chunk_content c ++ content k) j.chunks j.current
    ∙ ap (λ r. chunk_content s.chunks ++ r) (content-append s.current (b ∷ []))
    ∙ sym (append_assoc (chunk_content s.chunks) (content s.current) (content (b ∷ [])))

held-begun :
    (s : MergeState) (b : Block) (s' : MergeState) (overlap : ℕ)
    → Begins s s' b overlap
    → held s' ≡ chunk_content (emit s).chunks ++ content (b ∷ [])
held-begun s b s' overlap g = ap₂ (λ c k. chunk_content c ++ content k) g.chunks g.current

add_block-sublist :
    (s : MergeState) (b : Block) (size overlap : ℕ)
    → Sublist (held s ++ content (b ∷ [])) (held (add_block s b size overlap))
add_block-sublist s b size overlap = elim (add_block-cases s b size overlap) [
  | inl j ↦ rw (held-joined s b _ j) (Sublist.refl _)
  | inr g ↦
      rw (held-begun s b _ overlap g)
        (Sublist.append (emit-sublist s) (Sublist.refl (content (b ∷ []))))
]

add_blocks-sublist :
    (s : MergeState) (blocks : List Block) (size overlap : ℕ)
    → Sublist (held s ++ content blocks) (held (add_blocks s blocks size overlap))
unfolding add_blocks
add_blocks-sublist s [] size overlap = rw content_nil (rw append-nil (Sublist.refl (held s)))
add_blocks-sublist s (b ∷ blocks) size overlap = rw (content-append (b ∷ []) blocks) (
    rw (← append_assoc (held s) (content (b ∷ [])) (content blocks)) (
      Sublist.trans
        (Sublist.append (add_block-sublist s b size overlap) (Sublist.refl (content blocks)))
        (add_blocks-sublist (add_block s b size overlap) blocks size overlap)))

merge-sublist :
    (blocks : List Block) (size overlap : ℕ)
    → Sublist (content blocks) (chunk_content (merge_into_chunks blocks size overlap))
unfolding merge_into_chunks squeeze concat
merge-sublist blocks size overlap =
    Sublist.trans (add_blocks-sublist start_merge blocks size overlap)
      (emit-sublist (add_blocks start_merge blocks size overlap))

-- Without an overlap, no chunk has more than its blocks.
overlap_tail-zero : (t : Text) (n : ℕ) → overlap_tail t (min 0 n) ≡ []
unfolding overlap_tail
overlap_tail-zero t n = let e : min 0 n ≡ 0 = omega arith in rw e refl

begun-seed :
    (s : MergeState) (b : Block) (s' : MergeState) → s.seed ≡ [] → Begins s s' b 0 → s'.seed ≡ []
begun-seed s b s' e g = elim g.seed [
  | inl same ↦ same ∙ emit-seed s e
  | inr (t, n, cut) ↦ cut ∙ overlap_tail-zero t n
]

add_block-exact :
    (s : MergeState) (b : Block) (size : ℕ)
    → s.seed ≡ []
    → (held (add_block s b size 0) ≡ held s ++ content (b ∷ []))
      × ((add_block s b size 0).seed ≡ [])
add_block-exact s b size e = elim (add_block-cases s b size 0) [
  | inl j ↦ (held-joined s b _ j, j.seed ∙ e)
  | inr g ↦ (
    held-begun s b _ 0 g ∙ ap (λ r. r ++ content (b ∷ [])) (emit-exact s e),
    begun-seed s b _ e g,
  )
]

add_blocks-exact :
    (s : MergeState) (blocks : List Block) (size : ℕ)
    → s.seed ≡ []
    → (held (add_blocks s blocks size 0) ≡ held s ++ content blocks)
      × ((add_blocks s blocks size 0).seed ≡ [])
unfolding add_blocks
add_blocks-exact s [] size e =
    (sym (append-nil (held s)) ∙ ap (λ r. held s ++ r) (sym content_nil), e)
add_blocks-exact s (b ∷ blocks) size e =
    let (here, seedless) = add_block-exact s b size e in
    let (later, seedless') = add_blocks-exact (add_block s b size 0) blocks size seedless in
    (
      later
          ∙ ap (λ r. r ++ content blocks) here
          ∙ append_assoc (held s) (content (b ∷ [])) (content blocks)
          ∙ ap (λ r. held s ++ r) (sym (content-append (b ∷ []) blocks)),
      seedless',
    )

merge-exact :
    (blocks : List Block) (size : ℕ)
    → chunk_content (merge_into_chunks blocks size 0) ≡ content blocks
unfolding merge_into_chunks squeeze concat
merge-exact blocks size =
    let (all_held, seedless) = add_blocks-exact start_merge blocks size refl in
    emit-exact (add_blocks start_merge blocks size 0) seedless ∙ all_held

blocks-content :
    (text : Text) (size : ℕ) → content (enforce_max_size (parse_blocks text) size) ≡ squeeze text
blocks-content text size =
    content-enforce_max_size (parse_blocks text) size ∙ content-parse_blocks text

blank-squeeze : (text : Text) → is_empty (strip text) ≡ true → squeeze text ≡ []
blank-squeeze text blank = sym (squeeze-strip text) ∙ go (strip text) blank
  where
    go : (t : Text) → is_empty t ≡ true → squeeze t ≡ []
    go [] h = squeeze_nil
    go (c ∷ t) h = ground arith

-- Chunking loses nothing: whatever the size and the overlap, the characters of the text that are not
-- white space are, in order, among those of the chunks.
pub chunk_text-sublist :
    (text : Text) (chunk_size chunk_overlap : ℕ)
    → Sublist (squeeze text) (chunk_content (chunk_text text chunk_size chunk_overlap))
unfolding chunk_text
chunk_text-sublist text chunk_size chunk_overlap = elim (Bool-cases (is_empty (strip text))) [
  | inl blank ↦ rw blank (rw (blank-squeeze text blank) (nil-sublist _))
  | inr full ↦ rw full (
      rw (← blocks-content text chunk_size)
        (merge-sublist (enforce_max_size (parse_blocks text) chunk_size) chunk_size chunk_overlap))
]

-- Without an overlap, the chunks hold the characters of the text that are not white space, in order and
-- as often: nothing is lost and nothing doubled.
pub chunk_text-exact :
    (text : Text) (chunk_size : ℕ) → chunk_content (chunk_text text chunk_size 0) ≡ squeeze text
unfolding chunk_text
chunk_text-exact text chunk_size = elim (Bool-cases (is_empty (strip text))) [
  | inl blank ↦ rw blank (sym (blank-squeeze text blank ∙ sym nothing))
  | inr full ↦ rw full (
      merge-exact (enforce_max_size (parse_blocks text) chunk_size) chunk_size
      ∙ blocks-content text chunk_size)
]
  where
    nothing : chunk_content [] ≡ []
    nothing = content_nil
