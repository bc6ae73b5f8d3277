-- ===== src/Retrieval/Tests.antt =====
-- Runs of the expansion.
use ragr.Prelude.{
  length, All, ℕ, ◌<◌, String, ◌≡◌, refl, subst, true, Option, none, some, List, [], ◌∷◌, map,
  arith,
}
use ragr.Samples.{model}
use ragr.Models.{ContentChunk}
use ragr.Retrieval.{has_id, expand_neighbours}
use ragr.Text.{codes}
use ragr.Retrieval.Rerank.{RerankResult, Reranker, rerank_chunks, rerank_chunks-total}
use ragr.Retrieval.Expanded.{IsDistinct, expand_neighbours-keeps_hits}

abbrev chunk : ℕ → String → ℕ → ContentChunk
chunk id source position = record {
  id = id;
  model_id = 1;
  content = [];
  embedding = [];
  source_url = "";
  source_identifier = source;
  content_type = "text";
  metadata = record { heading_path = []; start_offset = 0; end_offset = 0 };
  position = position;
}

abbrev table : List ContentChunk
table =
    chunk 10 "a" 0
    ∷ chunk 11 "a" 1
    ∷ chunk 12 "a" 2
    ∷ chunk 13 "a" 3
    ∷ chunk 20 "b" 0
    ∷ record (chunk 30 "b" 1) { model_id = 2 }
    ∷ []

abbrev hits : List ContentChunk
hits = chunk 20 "b" 0 ∷ chunk 12 "a" 2 ∷ chunk 10 "a" 0 ∷ []

-- Each hit with its neighbours beside it; a neighbour of two hits comes once; no other model's chunk.
expanded :
    (map (λ c. c.id) (expand_neighbours table model hits).0 ≡ 20 ∷ 11 ∷ 12 ∷ 13 ∷ 10 ∷ [])
    × ((expand_neighbours table model hits).1 ≡ 11 ∷ 13 ∷ [])
unfolding expand_neighbours
expanded = (refl, refl)

expand_neighbours-keeps_hits_example :
    IsDistinct (expand_neighbours table model hits).0
    × All (λ (hit : ContentChunk). has_id (expand_neighbours table model hits).0 hit.id ≡ true) hits
expand_neighbours-keeps_hits_example =
    expand_neighbours-keeps_hits table model hits (refl, (refl, (refl, tt)))

abbrev service : Reranker
service query documents name top_k api_key =
    some (record { indices = 2 ∷ 0 ∷ []; scores = 80 ∷ 20 ∷ []; total_tokens = 9 })

reranked :
    rerank_chunks service (record model { rerank_threshold = 35 }) (codes "Who?") hits
    ≡ some (chunk 10 "a" 0 ∷ [], ((10, 80) ∷ (20, 20) ∷ [], 9))
unfolding rerank_chunks
reranked = refl

-- The service is down: the order of the candidates, cut to `top_k`.
degraded :
    rerank_chunks (λ q d m k a. none) (record model { top_k = 2 }) (codes "Who?") hits
    ≡ some (chunk 20 "b" 0 ∷ chunk 12 "a" 2 ∷ [], ([], 0))
unfolding rerank_chunks
degraded = refl

rerank_chunks-total_example :
    (cs : List ContentChunk) × ((scores : List (ℕ × ℕ)) × ((tokens : ℕ) × ((rerank_chunks service
              model
              (codes "Who?")
              hits
            ≡ some (cs, (scores, tokens)))
          × All (λ (c : ContentChunk). has_id hits c.id ≡ true) cs)))
rerank_chunks-total_example =
    rerank_chunks-total service model (codes "Who?") hits (λ r e. in_range r e)
  where
    in_range :
        (r : RerankResult)
        → some (record { indices = 2 ∷ 0 ∷ []; scores = 80 ∷ 20 ∷ []; total_tokens = 9 }) ≡ some r
        → All (λ i. i < length hits) r.indices
    in_range r e =
        subst
          (λ (o : Option RerankResult). elim o [
            | none ↦ Unit
            | some x ↦ All (λ i. i < length hits) x.indices
          ])
          e (omega arith, (omega arith, tt))
