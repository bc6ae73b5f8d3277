-- ===== src/Sources/Deleted.antt =====
-- Deleting a source, and that it undoes its upload.
use ragr.Prelude.{
  ◌==◌, if◌then◌else◌, Bool-cases, Option-cases, filter, All, All-map, ℕ, String, ◌≡◌, refl, ap,
  ◌∙◌, subst, inl, inr, Bool, true, false, ◌&&◌, not, Option, none, List, [], ◌∷◌, arith, str_eq,
  eq_iff,
}
use ragr.Text.{Text}
use ragr.Models.{RagModel, ContentChunk}
use ragr.Models.Source.{IngestionSource}
use ragr.RateLimit.{is_allowed}
use ragr.Embedder.{Client}
use ragr.Ingest.{exists, ingest_content}
use ragr.Ingest.Db.{Database, find_source, is_chunk_of, delete_chunks, find_source-filter}
use ragr.Ingest.Replace.{IsOwned, stored, deleted_same, deleted_other, unowned}
use ragr.Ingest.Owned.{ingest_content-IsOwned}
use ragr.Ingest.Others.{SameAt, ingest_content-SameAt}
use ragr.Dependencies.{Reply, allow, http_exception}
use ragr.Sources.{
  Api, ingest_key, limited, delete_row, delete_source, UpsertSourceRequest, upsert_source,
}

abbrev same_key : ℕ → String → ℕ → String → Bool
same_key m i n j = m == n && str_eq i j

-- The chunks that are kept have their sources among the rows that are kept.
kept-owned :
    (find : ℕ → String → Option IngestionSource) (m : ℕ) (i : String) (cs : List ContentChunk)
    → All (λ (c : ContentChunk). exists (find c.model_id c.source_identifier) ≡ true) cs
    → All
        (λ (c : ContentChunk).
          exists (
            if same_key m i c.model_id c.source_identifier
            then none
            else find c.model_id c.source_identifier)
          ≡ true)
        (filter (λ c. not (is_chunk_of m i c)) cs)
kept-owned find m i [] owned = tt
kept-owned find m i (c ∷ cs) owned =
    let ih = kept-owned find m i cs owned.1 in
    elim (Bool-cases (is_chunk_of m i c)) [
      | inl same ↦ rw same ih
      | inr other ↦ rw other (
        ground (arith, other, owned.0, eq_iff c.source_identifier i, eq_iff i c.source_identifier),
        ih,
      )
    ]

module _ (db : Database) (m : ℕ) (i : String) where
  abbrev removed : Database
  removed = delete_row (delete_chunks db m i) m i

  removed-find :
      (n : ℕ) (j : String)
      → find_source removed n j ≡ (if same_key m i n j then none else find_source db n j)
  unfolding delete_row delete_chunks
  removed-find n j = find_source-filter db removed m n i j refl

  removed-stored :
      (n : ℕ) (j : String) → stored removed n j ≡ (if same_key m i n j then [] else stored db n j)
  unfolding delete_row delete_chunks
  removed-stored n j = elim (Bool-cases (same_key m i n j)) [
    | inl same ↦
        let e : m ≡ n = ground (arith, same) in
        let e' : i ≡ j = ground (arith, same, eq_iff i j) in
        rw same (
          subst (λ k. stored removed k j ≡ []) e
            (subst (λ k. stored removed m k ≡ []) e' (deleted_same m i db.chunks)))
    | inr other ↦ rw other (deleted_other m n i j db.chunks other)
  ]

  removed-IsOwned : IsOwned db → IsOwned removed
  unfolding delete_row delete_chunks
  removed-IsOwned owned =
      All-map (λ c h. ap exists (removed-find c.model_id c.source_identifier) ∙ h) removed.chunks
        (kept-owned (find_source db) m i db.chunks owned)

  removed-jobs : removed.jobs ≡ db.jobs
  unfolding delete_row delete_chunks
  removed-jobs = refl

  at_key : (P : ℕ → String → Type 0) (n : ℕ) (j : String) → same_key m i n j ≡ true → P m i → P n j
  at_key P n j same p =
      let e : m ≡ n = ground (arith, same) in
      let e' : i ≡ j = ground (arith, same, eq_iff i j) in subst (λ k. P k j) e (subst (P m) e' p)

  absent-find :
      (n : ℕ) (j : String)
      → find_source db m i ≡ none
      → find_source db n j ≡ (if same_key m i n j then none else find_source db n j)
  absent-find n j nowhere = elim (Bool-cases (same_key m i n j)) [
    | inl same ↦ rw same (at_key (λ k l. find_source db k l ≡ none) n j same nowhere)
    | inr other ↦ rw other refl
  ]

  absent-stored :
      (n : ℕ) (j : String)
      → IsOwned db
      → find_source db m i ≡ none
      → stored db n j ≡ (if same_key m i n j then [] else stored db n j)
  absent-stored n j owned nowhere = elim (Bool-cases (same_key m i n j)) [
    | inl same ↦
        let nothing = unowned (find_source db) m i db.chunks owned (ap exists nowhere) in
        rw same (at_key (λ k l. stored db k l ≡ []) n j same nothing)
    | inr other ↦ rw other refl
  ]

-- The reply to a deletion, by whether the source is there.
abbrev delete_reply : Bool → Reply (Unit {0})
delete_reply true = allow tt
delete_reply false = http_exception 404 "Source not found"

-- If every chunk has the row of its source, a deletion leaves no row and no chunk under its key and those
-- of every other key as they are, so that every chunk has its row again; it leaves the jobs; and it
-- replies with 404 exactly when there is no such source.
pub delete_source-removes :
    (db : Database) (model : RagModel) (ident : String)
    → IsOwned db
    → (n : ℕ) (j : String)
    → let done = delete_source db model ident in
      let same = model.id == n && str_eq ident j in
      (done.1 ≡ delete_reply (exists (find_source db model.id ident)))
      × ((find_source done.0 n j ≡ (if same then none else find_source db n j))
          × ((stored done.0 n j ≡ (if same then [] else stored db n j))
              × (IsOwned done.0 × (done.0.jobs ≡ db.jobs))))
unfolding delete_source
delete_source-removes db model ident owned n j =
    let m = model.id in
    elim (Option-cases (find_source db m ident)) [
      | inl nowhere ↦
          let found = absent-find db m ident n j nowhere in
          let kept = absent-stored db m ident n j owned nowhere in
          rw nowhere (refl, (found, (kept, (owned, refl))))
      | inr (s, there) ↦
          let found = removed-find db m ident n j in
          let kept = removed-stored db m ident n j in
          rw there
            (refl, (found, (kept, (removed-IsOwned db m ident owned, removed-jobs db m ident))))
    ]

-- Deleting a source that was not there before a step that touches no other source undoes the step.
delete_source-undoes :
    (db db' : Database) (model : RagModel) (ident : String)
    → IsOwned db
    → find_source db model.id ident ≡ none
    → IsOwned db'
    → (n : ℕ) (j : String) → (same_key model.id ident n j ≡ false → SameAt db db' n j)
    → SameAt db (delete_source db' model ident).0 n j
delete_source-undoes db db' model ident owned nowhere owned' n j others =
    let after = delete_source-removes db' model ident owned' n j in
    let before = absent-find db model.id ident n j nowhere in
    let nothing = absent-stored db model.id ident n j owned nowhere in
    elim (Bool-cases (same_key model.id ident n j)) [
      | inl same ↦
          (ground (arith, after.1.0, before, same), ground (arith, after.1.1.0, nothing, same))
      | inr other ↦ (
        ground (arith, after.1.0, (others other).0, other),
        ground (arith, after.1.1.0, (others other).1, other),
      )
    ]

module _ (sha256 : Text → String) (client : Client) (api : Api) (now : ℕ) (model : RagModel)
    (ident : String) (body : UpsertSourceRequest) where
  -- If every chunk has the row of its source and the source is not there yet, then a PUT of it followed by
  -- a DELETE leaves the row and the chunks under every key as they were before both, whatever the
  -- content, and also when the PUT is refused or raises.
  pub upsert_source-delete_source :
      IsOwned api.db
      → find_source api.db model.id ident ≡ none
      → (n : ℕ) (j : String)
      → let put = upsert_source sha256 client api now model ident body in
        SameAt api.db (delete_source put.0.db model ident).0 n j
  unfolding upsert_source limited
  upsert_source-delete_source owned nowhere n j =
      elim (Bool-cases (is_allowed api.limiter now (ingest_key model.id)).1) [
        | inl allowed ↦ rw allowed (
            delete_source-undoes api.db
              (ingest_content sha256 client api.db model body.content ident body.content_type
                body.source_url).0
              model ident owned nowhere
              (ingest_content-IsOwned sha256 client api.db model body.content ident
                body.content_type body.source_url owned)
              n j
              (λ other.
                ingest_content-SameAt n j sha256 client api.db model body.content ident
                  body.content_type body.source_url other))
        | inr refused ↦ rw refused (
            delete_source-undoes api.db api.db model ident owned nowhere owned n j
              (λ other. (refl, refl)))
      ]
