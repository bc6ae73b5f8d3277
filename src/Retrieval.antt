-- ===== src/Retrieval.antt =====
-- app/services/retrieval.py: the expansion of the hits by their neighbours. A position below 0, which
-- no chunk has, is the place of no row.
pub mod Expanded
pub mod Rerank
mod Tests
use ragr.Prelude.{
  ltb, leb, ◌==◌, if◌then◌else◌, ltb→lt, leb→le, ==_iff, Bool-cases, Option-cases, length, take,
  drop, get_elem?, filter, get_last?, get_last?-concat, any, all, length-append, length-take,
  length-drop, take-append-drop, filter-append, length-filter-le, length-map, All, All-append,
  All-filter, All-take, All-map, filter-All, any-filter, ℕ, zero, suc, ◌+◌, ◌-◌, ◌*◌, ◌/◌, ◌%◌, ◌^◌,
  ◌≤◌, ◌<◌, min, max, String, ◌≡◌, refl, sym, ap, ap₂, ◌∙◌, fun_ext, subst, ◌≢◌, ◌↔◌, ◌⊎◌, inl, inr,
  Bool, true, false, ◌&&◌, ◌||◌, not, Option, none, some, List, [], ◌∷◌, ◌++◌, map, append_assoc,
  append-nil, map-append, arith, str_eq, eq_iff, eq_refl,
}
use ragr.Text.{Text}
use ragr.Models.{RagModel, ContentChunk}

-- A neighbour's place: `radius + offset` steps from `radius` before the hit.
abbrev pub at_step : ℕ → ContentChunk → ℕ → ContentChunk → Bool
at_step radius hit step c =
    str_eq c.source_identifier hit.source_identifier && c.position + radius == hit.position + step

abbrev pub same_place : ContentChunk → ContentChunk → Bool
same_place a b = str_eq a.source_identifier b.source_identifier && a.position == b.position

-- in `wanted`: near a hit, and not the place of a hit
abbrev pub is_wanted : ℕ → List ContentChunk → ContentChunk → Bool
is_wanted radius hits c =
    any
      (λ (hit : ContentChunk).
        str_eq c.source_identifier hit.source_identifier
        && (leb hit.position (c.position + radius) && leb c.position (hit.position + radius)))
      hits
    && not (any (same_place c) hits)

-- SELECT ... WHERE model_id AND (source_identifier, position) IN wanted
abbrev pub neighbour_rows : List ContentChunk → RagModel → List ContentChunk → List ContentChunk
neighbour_rows table model hits =
    filter (λ c. c.model_id == model.id && is_wanted model.neighbor_radius hits c) table

-- by_key.get(...): of rows with one key, the last
unfoldable pub by_key : ℕ → ContentChunk → ℕ → List ContentChunk → List ContentChunk
by_key radius hit step [] = []
by_key radius hit step (row ∷ rows) =
    let later = by_key radius hit step rows in
    elim later [ [] ↦ if at_step radius hit step row then row ∷ [] else [] | l ∷ ls ↦ l ∷ ls ]

-- the candidate of one round of the inner loop, if there is one
unfoldable pub neighbour : ℕ → List ContentChunk → ContentChunk → ℕ → List ContentChunk
unfolding by_key
neighbour radius rows hit step = if step == radius then hit ∷ [] else by_key radius hit step rows

abbrev pub has_id : List ContentChunk → ℕ → Bool
has_id cs id = any (λ (c : ContentChunk). c.id == id) cs

-- append unless seen
abbrev pub visit : List ContentChunk → List ContentChunk → List ContentChunk
visit expanded [] = expanded
visit expanded (c ∷ cs) = visit (if has_id expanded c.id then expanded else expanded ++ c ∷ []) cs

-- the steps from `step`, as many as `n`
unfoldable pub around : ℕ → List ContentChunk → ContentChunk → ℕ → ℕ → List ContentChunk
unfolding neighbour
around radius rows hit step zero = []
around radius rows hit step (suc n) =
    neighbour radius rows hit step ++ around radius rows hit (suc step) n

unfoldable pub expand :
    ℕ → List ContentChunk → List ContentChunk → List ContentChunk → List ContentChunk
unfolding around
expand radius rows expanded [] = expanded
expand radius rows expanded (hit ∷ hits) =
    expand radius rows (visit expanded (around radius rows hit 0 (2 * radius + 1))) hits

abbrev pub no_hits : List ContentChunk → Bool
no_hits [] = true
no_hits (_ ∷ _) = false

-- `_expand_neighbours`: the chunks, and the ids of those that were added. The set `wanted` is never
-- empty there: the place after the last hit of a source is no hit's.
unfoldable pub expand_neighbours :
    List ContentChunk → RagModel → List ContentChunk → List ContentChunk × List ℕ
unfolding expand
expand_neighbours table model hits =
    if model.neighbor_radius == 0 || no_hits hits
    then (hits, [])
    else (let expanded = expand model.neighbor_radius (neighbour_rows table model hits) [] hits in
        (
          expanded,
          map (λ (c : ContentChunk). c.id)
              (filter (λ (c : ContentChunk). not (has_id hits c.id)) expanded),
        ))
