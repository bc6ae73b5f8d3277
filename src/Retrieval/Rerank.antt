-- ===== src/Retrieval/Rerank.antt =====
-- app/services/retrieval.py: `_rerank_chunks`. A score is a natural number, since the code only compares
-- it with the threshold. The reranking service is a parameter; `none` is an exception.
use ragr.Prelude.{
  ltb, leb, ◌==◌, if◌then◌else◌, Bool-cases, Option-cases, length, take, get_elem?, filter, All,
  All-filter, All-take, ℕ, zero, suc, ◌<◌, String, ◌≡◌, refl, ap₂, inl, inr, true, Option, none,
  some, List, [], ◌∷◌, map, arith,
}
use ragr.Text.{Text}
use ragr.Models.{RagModel, ContentChunk}
use ragr.Retrieval.{has_id}
use ragr.Retrieval.Expanded.{own_ids}

pub record RerankResult : Type 0 where
  pub indices : List ℕ
  pub scores : List ℕ
  pub total_tokens : ℕ

-- query, documents, model, top_k and API key
abbrev pub Reranker : Type 0
Reranker = Text → List Text → String → ℕ → Option String → Option RerankResult

abbrev both : Option ContentChunk → Option (List ContentChunk) → Option (List ContentChunk)
both (some c) (some cs) = some (c ∷ cs)
both _ _ = none

-- [chunks[i] for i in indices]; an index out of range is an exception
unfoldable pub pick : List ContentChunk → List ℕ → Option (List ContentChunk)
pick chunks [] = some []
pick chunks (i ∷ indices) = both (get_elem? chunks i) (pick chunks indices)

-- zip, by the ids of the chunks
abbrev pub scored : List ContentChunk → List ℕ → List (ℕ × ℕ)
scored [] scores = []
scored (c ∷ cs) [] = []
scored (c ∷ cs) (s ∷ scores) = (c.id, s) ∷ scored cs scores

-- the value of a key of a dict, 0 if it is not there; of several, the last
abbrev pub score_of : List (ℕ × ℕ) → ℕ → Option ℕ
score_of [] id = none
score_of ((key, s) ∷ entries) id =
    let later = score_of entries id in
    elim later [ some t ↦ some t | none ↦ if key == id then some s else none ]

abbrev pub or_zero : Option ℕ → ℕ
or_zero none = 0
or_zero (some s) = s

-- `_rerank_chunks`
unfoldable pub rerank_chunks :
    Reranker → RagModel → Text → List ContentChunk → Option (List ContentChunk × (List (ℕ × ℕ) × ℕ))
unfolding pick
rerank_chunks rerank model query chunks =
    if leb (length chunks) 1
    then some (chunks, ([], 0))
    else elim (rerank query (map (λ c. c.content) chunks) model.rerank_model model.top_k
        model.custom_voyage_key) [
          | none ↦ some (take model.top_k chunks, ([], 0))
          | some r ↦ elim (pick chunks r.indices) [
            | none ↦ none
            | some reranked ↦
                let scores = scored reranked r.scores in
                let relevant = λ (c : ContentChunk).
                  leb model.rerank_threshold (or_zero (score_of scores c.id)) in
                some (
                  if ltb 0 model.rerank_threshold then filter relevant reranked else reranked,
                  (scores, r.total_tokens),
                )
          ]
        ]

get_elem?-known :
    (xs : List ContentChunk) (i : ℕ)
    → i < length xs
    → (c : ContentChunk) × ((get_elem? xs i ≡ some c) × (has_id xs c.id ≡ true))
get_elem?-known [] i low = absurd (omega arith)
get_elem?-known (x ∷ xs) zero low = (x, (refl, ground arith))
get_elem?-known (x ∷ xs) (suc i) low =
    let (c, (here, member)) = get_elem?-known xs i (omega arith) in
    (c, (here, ground (arith, member)))

pick-total :
    (chunks : List ContentChunk) (indices : List ℕ)
    → All (λ i. i < length chunks) indices
    → (cs : List ContentChunk) × ((pick chunks indices ≡ some cs)
        × All (λ (c : ContentChunk). has_id chunks c.id ≡ true) cs)
unfolding pick
pick-total chunks [] h = ([], (refl, tt))
pick-total chunks (i ∷ indices) (low, h) =
    let (cs, (rest, known)) = pick-total chunks indices h in
    let (c, (here, member)) = get_elem?-known chunks i low in
    (c ∷ cs, (ap₂ both here rest, (member, known)))

-- If the service, when it answers, answers with indices of the documents, then reranking never raises:
-- it returns, and all that it returns are candidates, also when the service fails.
pub rerank_chunks-total :
    (rerank : Reranker) (model : RagModel) (query : Text) (chunks : List ContentChunk)
    → ((r : RerankResult)
        → rerank query
            (map (λ c. c.content) chunks)
            model.rerank_model
            model.top_k
            model.custom_voyage_key
          ≡ some r
        → All (λ i. i < length chunks) r.indices)
    → (cs : List ContentChunk) × ((scores : List (ℕ × ℕ)) × ((tokens : ℕ) × ((rerank_chunks rerank
                model query chunks
              ≡ some (cs, (scores, tokens)))
            × All (λ (c : ContentChunk). has_id chunks c.id ≡ true) cs)))
unfolding rerank_chunks
rerank_chunks-total rerank model query chunks h =
    let answer =
      rerank query (map (λ c. c.content) chunks) model.rerank_model model.top_k
        model.custom_voyage_key in
    elim (Bool-cases (leb (length chunks) 1)) [
      | inl few ↦ (chunks, ([], (0, (rw few refl, own_ids chunks))))
      | inr many ↦ elim (Option-cases answer) [
        | inl failed ↦ (
          take model.top_k chunks,
          ([], (0, (rw (many, failed) refl, All-take _ model.top_k chunks (own_ids chunks)))),
        )
        | inr (r, answered) ↦
            let (cs, (picked, known)) = pick-total chunks r.indices (h r answered) in
            let relevant = λ (c : ContentChunk).
              leb model.rerank_threshold (or_zero (score_of (scored cs r.scores) c.id)) in
            elim (Bool-cases (ltb 0 model.rerank_threshold)) [
              | inl cuts ↦ (
                filter relevant cs,
                (
                  scored cs r.scores,
                  (
                    r.total_tokens,
                    (rw (many, answered, picked, cuts) refl, All-filter _ relevant cs known),
                  ),
                ),
              )
              | inr keeps ↦ (
                cs,
                (
                  scored cs r.scores,
                  (r.total_tokens, (rw (many, answered, picked, keeps) refl, known)),
                ),
              )
            ]
      ]
    ]
