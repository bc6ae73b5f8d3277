-- ===== src/Generation/Streams.antt =====
-- The streamed answer is the answer, and every chunk that was offered is accounted for.
use ragr.Prelude.{
  if◌then◌else◌, Bool-cases, length, ℕ, suc, ◌+◌, String, ◌≡◌, refl, ap, inl, inr, Bool, true, not,
  Option, none, some, List, [], ◌∷◌, arith,
}
use ragr.Text.{Text, strip, concat}
use ragr.Models.{RagModel, ContentChunk}
use ragr.Generation.{
  texts_of, is_status, known_status, status_of, read_response, is_cited, cited_of, attribute_from,
  attribute, GenerationResult, Request, Response, request_of, result_of, completed, Stream,
  generate_answer, generate_answer_stream,
}

known_status-is_status : (o : Option String) → is_status (known_status o) ≡ true
known_status-is_status none = refl
known_status-is_status (some s) = elim (Bool-cases (is_status s)) [
  | inl known ↦ rw known known
  | inr odd ↦ rw odd refl
]

-- The ids of the chunks whose index is cited, from the index `i` on.
abbrev pub ids_at : (ℕ → Bool) → ℕ → List ContentChunk → List ℕ
ids_at p i [] = []
ids_at p i (c ∷ chunks) = let rest = ids_at p (suc i) chunks in if p i then c.id ∷ rest else rest

attribute_from-eq :
    (i : ℕ) (chunks : List ContentChunk) (cited : List ℕ)
    → attribute_from i chunks cited
      ≡ (ids_at (is_cited cited) i chunks, ids_at (λ k. not (is_cited cited k)) i chunks)
attribute_from-eq i [] cited = refl
attribute_from-eq i (c ∷ chunks) cited =
    let ih = attribute_from-eq (suc i) chunks cited in
    elim (Bool-cases (is_cited cited i)) [
      | inl used ↦ rw (used, ih) refl
      | inr unused ↦ rw (unused, ih) refl
    ]

attribute_from-length :
    (i : ℕ) (chunks : List ContentChunk) (cited : List ℕ)
    → let parts = attribute_from i chunks cited in length parts.0 + length parts.1 ≡ length chunks
attribute_from-length i [] cited = refl
attribute_from-length i (c ∷ chunks) cited =
    let ih = attribute_from-length (suc i) chunks cited in
    elim (Bool-cases (is_cited cited i)) [
      | inl used ↦ rw used (omega (arith, ih))
      | inr unused ↦ rw unused (omega (arith, ih))
    ]

module _ (create : Request → Option Response) (stream : Request → Stream) (model : RagModel)
    (message : Text) (chunks : List ContentChunk) (history : List (String × Text)) where
  -- If the service answers the request, and streams the texts of the same answer and then its final
  -- message, the streamed result is that of the answer in one piece. Its status is one of the three
  -- known ones, also when the model skipped the tool or gave another; its cited chunks are those whose
  -- index some text cites, in their order, its unused ones are the others, and none is left out.
  pub generate_answer_stream-eq :
      (r : Response) (tokens : List Text)
      → create (request_of model message chunks history) ≡ some r
      → stream (request_of model message chunks history)
        ≡ record { tokens = tokens; ending = completed (some r) }
      → concat tokens ≡ concat (texts_of r.content)
      → (result : GenerationResult) × ((generate_answer create stream model message chunks history
            ≡ some result)
          × ((generate_answer_stream create stream model message chunks history
                ≡ (tokens, some result))
              × ((is_status result.status ≡ true)
                  × ((result.cited ≡ ids_at (is_cited (cited_of r.content)) 0 chunks)
                      × ((result.unused
                            ≡ ids_at (λ i. not (is_cited (cited_of r.content) i)) 0 chunks)
                          × (length result.cited + length result.unused ≡ length chunks))))))
  unfolding generate_answer generate_answer_stream read_response attribute
  generate_answer_stream-eq r tokens answered streamed same =
      let split = attribute_from-eq 0 chunks (cited_of r.content) in
      (
        result_of chunks (strip (concat (texts_of r.content))) (read_response r.content)
            r.input_tokens r.output_tokens,
        (
          rw answered refl,
          (
            rw (streamed, same) refl,
            (
              known_status-is_status (status_of r.content),
              (
                ap (λ p. p.0) split,
                (ap (λ p. p.1) split, attribute_from-length 0 chunks (cited_of r.content)),
              ),
            ),
          ),
        ),
      )
