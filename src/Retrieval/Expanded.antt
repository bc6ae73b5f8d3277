-- ===== src/Retrieval/Expanded.antt =====
-- The expansion keeps every hit and repeats no chunk.
use ragr.Prelude.{
  ◌==◌, if◌then◌else◌, ==_iff, Bool-cases, All, All-map, ℕ, zero, suc, ◌+◌, ◌*◌, ◌≤◌, ◌<◌, ◌≡◌,
  refl, sym, inl, inr, true, false, ◌||◌, List, [], ◌∷◌, ◌++◌, arith,
}
use ragr.Models.{RagModel, ContentChunk}
use ragr.Retrieval.{
  has_id, visit, neighbour, neighbour_rows, around, expand, no_hits, expand_neighbours,
}

-- No two of the chunks have one id.
abbrev pub IsDistinct : List ContentChunk → Type 0
IsDistinct [] = Unit
IsDistinct (c ∷ cs) = (has_id cs c.id ≡ false) × IsDistinct cs

has_id-append :
    (cs ds : List ContentChunk) (id : ℕ) → has_id (cs ++ ds) id ≡ (has_id cs id || has_id ds id)
has_id-append [] ds id = refl
has_id-append (c ∷ cs) ds id = ground (arith, has_id-append cs ds id)

add-IsDistinct :
    (cs : List ContentChunk) (c : ContentChunk)
    → IsDistinct cs
    → has_id cs c.id ≡ false
    → IsDistinct (cs ++ c ∷ [])
add-IsDistinct [] c h new = (refl, tt)
add-IsDistinct (d ∷ ds) c (fresh, h) new = (
  ground (arith, has_id-append ds (c ∷ []) d.id, fresh, new),
  add-IsDistinct ds c h (ground (arith, new)),
)

visit-IsDistinct :
    (expanded cs : List ContentChunk) → IsDistinct expanded → IsDistinct (visit expanded cs)
visit-IsDistinct expanded [] h = h
visit-IsDistinct expanded (c ∷ cs) h = elim (Bool-cases (has_id expanded c.id)) [
  | inl seen ↦ rw seen (visit-IsDistinct expanded cs h)
  | inr new ↦ rw new (visit-IsDistinct (expanded ++ c ∷ []) cs (add-IsDistinct expanded c h new))
]

visit-keeps :
    (expanded cs : List ContentChunk) (id : ℕ)
    → has_id expanded id ≡ true
    → has_id (visit expanded cs) id ≡ true
visit-keeps expanded [] id h = h
visit-keeps expanded (c ∷ cs) id h = elim (Bool-cases (has_id expanded c.id)) [
  | inl seen ↦ rw seen (visit-keeps expanded cs id h)
  | inr new ↦ rw new (
      visit-keeps (expanded ++ c ∷ []) cs id
        (ground (arith, has_id-append expanded (c ∷ []) id, h)))
]

seen-after :
    (expanded : List ContentChunk) (c : ContentChunk) (id : ℕ)
    → c.id ≡ id
    → has_id (if has_id expanded c.id then expanded else expanded ++ c ∷ []) id ≡ true
seen-after expanded c id same = rw (sym same) (elim (Bool-cases (has_id expanded c.id)) [
  | inl seen ↦ rw seen seen
  | inr new ↦ rw new (ground (arith, has_id-append expanded (c ∷ []) c.id))
])

visit-adds :
    (expanded cs : List ContentChunk) (id : ℕ)
    → has_id cs id ≡ true
    → has_id (visit expanded cs) id ≡ true
visit-adds expanded [] id h = ground (arith, h)
visit-adds expanded (c ∷ cs) id h = elim (Bool-cases (c.id == id)) [
  | inl same ↦
      visit-keeps (if has_id expanded c.id then expanded else expanded ++ c ∷ []) cs id
        (seen-after expanded c id ((==_iff c.id id).0 same))
  | inr other ↦
      visit-adds (if has_id expanded c.id then expanded else expanded ++ c ∷ []) cs id
        (ground (arith, h, other))
]

-- The steps from `step` on pass the hit's own place.
around-hit :
    (radius : ℕ) (rows : List ContentChunk) (hit : ContentChunk) (step n : ℕ)
    → step ≤ radius
    → radius < step + n
    → has_id (around radius rows hit step n) hit.id ≡ true
unfolding around neighbour
around-hit radius rows hit step zero low high = ground arith
around-hit radius rows hit step (suc n) low high = elim (Bool-cases (step == radius)) [
  | inl here ↦ rw (here, neighbour) (ground arith)
  | inr before ↦
      rw
        (has_id-append (neighbour radius rows hit step) (around radius rows hit (suc step) n)
          hit.id)
        (ground
          (arith, around-hit radius rows hit (suc step) n (ground (arith, before)) (omega arith)))
]

expand-IsDistinct :
    (radius : ℕ) (rows expanded hits : List ContentChunk)
    → IsDistinct expanded
    → IsDistinct (expand radius rows expanded hits)
unfolding expand
expand-IsDistinct radius rows expanded [] h = h
expand-IsDistinct radius rows expanded (hit ∷ hits) h =
    let near = around radius rows hit 0 (2 * radius + 1) in
    expand-IsDistinct radius rows (visit expanded near) hits (visit-IsDistinct expanded near h)

expand-keeps :
    (radius : ℕ) (rows expanded hits : List ContentChunk) (id : ℕ)
    → has_id expanded id ≡ true
    → has_id (expand radius rows expanded hits) id ≡ true
unfolding expand
expand-keeps radius rows expanded [] id h = h
expand-keeps radius rows expanded (hit ∷ hits) id h =
    let near = around radius rows hit 0 (2 * radius + 1) in
    expand-keeps radius rows (visit expanded near) hits id (visit-keeps expanded near id h)

expand-hits :
    (radius : ℕ) (rows expanded hits : List ContentChunk)
    → All (λ (hit : ContentChunk). has_id (expand radius rows expanded hits) hit.id ≡ true) hits
unfolding expand
expand-hits radius rows expanded [] = tt
expand-hits radius rows expanded (hit ∷ hits) =
    let near = around radius rows hit 0 (2 * radius + 1) in
    (
      expand-keeps radius rows (visit expanded near) hits hit.id (
          visit-adds expanded near hit.id
            (around-hit radius rows hit 0 (2 * radius + 1) (omega arith) (omega arith))),
      expand-hits radius rows (visit expanded near) hits,
    )

-- The id of every member is among the ids.
pub own_ids :
    (hits : List ContentChunk) → All (λ (hit : ContentChunk). has_id hits hit.id ≡ true) hits
own_ids [] = tt
own_ids (hit ∷ hits) = (ground arith, All-map (λ c h. ground (arith, h)) hits (own_ids hits))

-- For hits of different ids: every hit is in the expanded list, whatever neighbours the table has, and
-- no chunk is in it twice.
pub expand_neighbours-keeps_hits :
    (table : List ContentChunk) (model : RagModel) (hits : List ContentChunk)
    → IsDistinct hits
    → IsDistinct (expand_neighbours table model hits).0
      × All
          (λ (hit : ContentChunk). has_id (expand_neighbours table model hits).0 hit.id ≡ true)
          hits
unfolding expand_neighbours
expand_neighbours-keeps_hits table model hits h =
    elim (Bool-cases (model.neighbor_radius == 0 || no_hits hits)) [
      | inl none_wanted ↦ rw none_wanted (h, own_ids hits)
      | inr wanted ↦ rw wanted (
        expand-IsDistinct model.neighbor_radius (neighbour_rows table model hits) [] hits tt,
        expand-hits model.neighbor_radius (neighbour_rows table model hits) [] hits,
      )
    ]
