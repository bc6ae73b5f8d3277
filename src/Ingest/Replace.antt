-- ===== src/Ingest/Replace.antt =====
-- Ingesting new content replaces the chunks of its source, and touches no other source's.
use ragr.Prelude.{
  ◌==◌, if◌then◌else◌, Bool-cases, length, filter, filter-append, All, ℕ, suc, ◌≤◌, String, ◌≡◌,
  refl, sym, ap, ap₂, ◌∙◌, subst, inl, inr, true, false, ◌&&◌, not, Option, some, List, [], ◌∷◌,
  ◌++◌, map, append-nil, map-append, arith, str_eq, eq_iff, eq_refl,
}
use ragr.Text.{Text}
use ragr.Models.{RagModel, ContentChunk, Embedding}
use ragr.Models.Source.{IngestionSource}
use ragr.Chunker.{chunk_text}
use ragr.Chunker.Merge.{ChunkResult}
use ragr.Embedder.{Client, default_batch_size}
use ragr.Embedder.Batches.{total, separately, embed_texts-eq}
use ragr.Ingest.{
  IngestResult, ok, hash_input, record_empty_source, chunk_rows, store, up_to_date, exists,
  no_chunks, ingest_content,
}
use ragr.Budget.{estimate_embedding_cost}
use ragr.Ingest.Repeat.{ingest_unknown, ingest_new_of_no_chunks, ingest_new_of_vectors}
use ragr.Ingest.Db.{Database, find_source, is_chunk_of, delete_chunks, upsert_source}

-- What retrieval reads of a chunk: its text, its vector and its position.
abbrev pub Entry : Type 0
Entry = Text × (Embedding × ℕ)

abbrev entry : ContentChunk → Entry
entry c = (c.content, (c.embedding, c.position))

abbrev pub entries : ℕ → String → List ContentChunk → List Entry
entries n j cs = map entry (filter (is_chunk_of n j) cs)

abbrev pub stored : Database → ℕ → String → List Entry
stored db n j = entries n j db.chunks

-- The entries of a text's chunks.
abbrev pub fresh_entries : (Text → Embedding) → List ChunkResult → List Entry
fresh_entries vector = map (λ c. (c.text, (vector c.text, c.position)))

-- Every chunk has a source row.
abbrev pub IsOwned : Database → Type 0
IsOwned db =
    All (λ (c : ContentChunk). exists (find_source db c.model_id c.source_identifier) ≡ true)
      db.chunks

pub entries-append :
    (n : ℕ) (j : String) (cs ds : List ContentChunk)
    → entries n j (cs ++ ds) ≡ entries n j cs ++ entries n j ds
entries-append n j cs ds =
    ap (λ l. map entry l) (filter-append (is_chunk_of n j) cs ds)
    ∙ map-append entry (filter (is_chunk_of n j) cs) (filter (is_chunk_of n j) ds)

module _ (model : RagModel) (ident ctype url : String) (vector : Text → Embedding) where
  rows_same :
      (id : ℕ) (chunks : List ChunkResult)
      → entries model.id ident
          (chunk_rows id model ident ctype url chunks (map vector (map (λ c. c.text) chunks)))
        ≡ fresh_entries vector chunks
  unfolding chunk_rows
  rows_same id [] = refl
  rows_same id (c ∷ chunks) =
      let ih = rows_same (suc id) chunks in ground (arith, ih, eq_refl ident)

  rows_other :
      (n : ℕ) (j : String) (id : ℕ) (chunks : List ChunkResult)
      → (model.id == n && str_eq ident j) ≡ false
      → entries n j
          (chunk_rows id model ident ctype url chunks (map vector (map (λ c. c.text) chunks)))
        ≡ []
  unfolding chunk_rows
  rows_other n j id [] other = refl
  rows_other n j id (c ∷ chunks) other =
      let ih = rows_other n j (suc id) chunks other in ground (arith, ih, other)

pub deleted_same :
    (m : ℕ) (i : String) (cs : List ContentChunk)
    → entries m i (filter (λ c. not (is_chunk_of m i c)) cs) ≡ []
deleted_same m i [] = refl
deleted_same m i (c ∷ cs) = let ih = deleted_same m i cs in ground (arith, ih)

pub deleted_other :
    (m n : ℕ) (i j : String) (cs : List ContentChunk)
    → (m == n && str_eq i j) ≡ false
    → entries n j (filter (λ c. not (is_chunk_of m i c)) cs) ≡ entries n j cs
deleted_other m n i j [] other = refl
deleted_other m n i j (c ∷ cs) other =
    let ih = deleted_other m n i j cs other in
    ground
      (arith, ih, other, eq_iff c.source_identifier i, eq_iff c.source_identifier j, eq_iff i j)

-- A source without a row has no chunk.
pub unowned :
    (find : ℕ → String → Option IngestionSource) (m : ℕ) (i : String) (cs : List ContentChunk)
    → All (λ (c : ContentChunk). exists (find c.model_id c.source_identifier) ≡ true) cs
    → exists (find m i) ≡ false
    → entries m i cs ≡ []
unowned find m i [] owned none_there = refl
unowned find m i (c ∷ cs) owned none_there =
    let ih = unowned find m i cs owned.1 none_there in
    elim (Bool-cases (is_chunk_of m i c)) [
      | inl same ↦
          let key : exists (find m i) ≡ true =
            subst (λ n. exists (find n i) ≡ true) (ground (arith, same))
              (subst (λ j. exists (find c.model_id j) ≡ true)
                (ground (arith, same, eq_iff c.source_identifier i)) owned.0) in
          ground (arith, key, none_there)
      | inr other ↦ rw other ih
    ]

no_chunks-eq : (cs : List ChunkResult) → no_chunks cs ≡ true → cs ≡ []
no_chunks-eq [] h = refl
no_chunks-eq (c ∷ cs) h = ground arith

-- The chunks that `ingest_new` starts from.
abbrev pub cleared : Database → ℕ → String → Database
cleared db m i = if exists (find_source db m i) then delete_chunks db m i else db

cleared_same : (db : Database) (m : ℕ) (i : String) → IsOwned db → stored (cleared db m i) m i ≡ []
unfolding delete_chunks
cleared_same db m i owned = elim (Bool-cases (exists (find_source db m i))) [
  | inl there ↦ rw there (deleted_same m i db.chunks)
  | inr none_there ↦ rw none_there (unowned (find_source db) m i db.chunks owned none_there)
]

pub cleared_other :
    (db : Database) (m n : ℕ) (i j : String)
    → (m == n && str_eq i j) ≡ false
    → stored (cleared db m i) n j ≡ stored db n j
unfolding delete_chunks
cleared_other db m n i j other = elim (Bool-cases (exists (find_source db m i))) [
  | inl there ↦ rw there (deleted_other m n i j db.chunks other)
  | inr none_there ↦ rw none_there refl
]

module _ (sha256 : Text → String) (client : Client) (vector : Text → Embedding) (cost : Text → ℕ)
    (db : Database) (model : RagModel) (content : Text) (ident ctype url : String) where
  abbrev hash : String
  hash = sha256 (hash_input content model)

  abbrev chunks : List ChunkResult
  chunks = chunk_text content model.chunk_size model.chunk_overlap

  abbrev texts : List Text
  texts = map (λ c. c.text) chunks

  abbrev from : Database
  from = cleared db model.id ident

  abbrev after : Database
  after = (ingest_content sha256 client db model content ident ctype url).0

  abbrev pub replaced_result : IngestResult
  replaced_result = record {
    chunk_count = length chunks;
    skipped = false;
    embedding_cost =
        if no_chunks chunks
        then 0
        else estimate_embedding_cost model.embedding_model (total cost texts);
  }

  -- Where the rows that a call leaves come from: the chunks kept, then the chunks written.
  rewritten : Database
  rewritten =
      if no_chunks chunks
      then record_empty_source from model ident hash url ctype
      else store from model content ident ctype url hash chunks (separately vector cost texts)

  abbrev written_rows : List ContentChunk
  written_rows = chunk_rows from.next_id model ident ctype url chunks (map vector texts)

  rewritten_chunks : rewritten.chunks ≡ from.chunks ++ written_rows
  unfolding rewritten record_empty_source store upsert_source chunk_rows
  rewritten_chunks = elim (Bool-cases (no_chunks chunks)) [
    | inl nothing ↦ rw (nothing, no_chunks-eq chunks nothing) (sym (append-nil from.chunks))
    | inr something ↦ rw something refl
  ]

  rewritten_same : IsOwned db → stored rewritten model.id ident ≡ fresh_entries vector chunks
  rewritten_same owned =
      ap (entries model.id ident) rewritten_chunks
      ∙ (entries-append model.id ident from.chunks written_rows
          ∙ ap₂ (λ a b. a ++ b) (cleared_same db model.id ident owned)
              (rows_same model ident ctype url vector from.next_id chunks))

  rewritten_other :
      (n : ℕ) (j : String)
      → (model.id == n && str_eq ident j) ≡ false
      → stored rewritten n j ≡ stored db n j
  rewritten_other n j other =
      ap (entries n j) rewritten_chunks
      ∙ (entries-append n j from.chunks written_rows
          ∙ (ap₂ (λ a b. a ++ b) (cleared_other db model.id n ident j other)
                (rows_other model ident ctype url vector n j from.next_id chunks other)
              ∙ append-nil (stored db n j)))

  ingest_content_rewrites :
      up_to_date (find_source db model.id ident) hash ≡ false
      → ((ts : List Text)
          → length ts ≤ default_batch_size
          → client model.custom_voyage_key ts model.embedding_model
            ≡ some (separately vector cost ts))
      → ingest_content sha256 client db model content ident ctype url
        ≡ (rewritten, ok replaced_result)
  unfolding rewritten
  ingest_content_rewrites changed embeds =
      let found = ingest_unknown sha256 client db model content ident ctype url changed in
      elim (Bool-cases (no_chunks chunks)) [
        | inl nothing ↦
            found
            ∙ ingest_new_of_no_chunks sha256 client db model content ident ctype url hash
                (exists (find_source db model.id ident)) nothing
            ∙ rw (nothing, no_chunks-eq chunks nothing) refl
        | inr something ↦
            found
            ∙ ingest_new_of_vectors sha256 client db model content ident ctype url hash
                (exists (find_source db model.id ident)) (separately vector cost texts) something
                (embed_texts-eq client vector cost texts model.embedding_model default_batch_size
                  model.custom_voyage_key (omega arith) embeds)
            ∙ rw something refl
      ]

  -- The embedding service embeds each text of a batch on its own, every chunk has a source, and the
  -- content is not that of the last ingestion. Then the call returns with the number of chunks; the
  -- chunks of the source are exactly those of the content, with its vectors and positions; and the
  -- chunks of every other model or identifier are as before.
  pub ingest_content-replaces :
      IsOwned db
      → up_to_date (find_source db model.id ident) (sha256 (hash_input content model)) ≡ false
      → ((ts : List Text)
          → length ts ≤ default_batch_size
          → client model.custom_voyage_key ts model.embedding_model
            ≡ some (separately vector cost ts))
      → (n : ℕ) (j : String) → (model.id == n && str_eq ident j) ≡ false
      → let done = ingest_content sha256 client db model content ident ctype url in
        (done.1 ≡ ok replaced_result)
        × ((stored done.0 model.id ident
              ≡ fresh_entries vector (chunk_text content model.chunk_size model.chunk_overlap))
            × (stored done.0 n j ≡ stored db n j))
  ingest_content-replaces owned changed embeds n j other =
      rw (ingest_content_rewrites changed embeds)
        (refl, (rewritten_same owned, rewritten_other n j other))
