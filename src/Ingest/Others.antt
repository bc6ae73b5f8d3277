-- ===== src/Ingest/Others.antt =====
-- An ingestion touches no other source than its own.
use ragr.Prelude.{
  ◌==◌, Bool-cases, Option-cases, length, ℕ, suc, ◌+◌, String, ◌≡◌, refl, ap, ◌∙◌, inl, inr, false,
  ◌&&◌, List, [], ◌∷◌, ◌++◌, map, append-nil, arith, str_eq,
}
use ragr.Text.{Text}
use ragr.Models.{RagModel, Embedding}
use ragr.Models.Source.{complete, IngestionSource}
use ragr.Chunker.Merge.{ChunkResult}
use ragr.Embedder.{Client, EmbedResult, embed_texts, default_batch_size}
use ragr.Ingest.{
  hash_input, record_empty_source, chunk_rows, store, up_to_date, status_complete, exists,
  no_chunks, ingest_new, ingest_content,
}
use ragr.Ingest.Repeat.{
  ingest_new_of_no_chunks, ingest_new_of_vectors, ingest_new_of_no_vectors, chunks_of,
}
use ragr.Ingest.Replace.{entries, entries-append, stored, cleared, cleared_other}
use ragr.Ingest.Db.{
  Database, find_source, modify_source, delete_chunks, upsert_source, find_source-upsert_source,
  find_source-modify_source, KeepsKey,
}

-- The row and the chunks under a key are the same in two databases.
abbrev pub SameAt : Database → Database → ℕ → String → Type 0
SameAt db db' n j = (find_source db' n j ≡ find_source db n j) × (stored db' n j ≡ stored db n j)

module _ (n : ℕ) (j : String) where
  rows-other :
      (id : ℕ) (model : RagModel) (ident ctype url : String) (chunks : List ChunkResult)
      (vectors : List Embedding)
      → (model.id == n && str_eq ident j) ≡ false
      → entries n j (chunk_rows id model ident ctype url chunks vectors) ≡ []
  unfolding chunk_rows
  rows-other id model ident ctype url [] vectors other = refl
  rows-other id model ident ctype url (c ∷ chunks) [] other = refl
  rows-other id model ident ctype url (c ∷ chunks) (v ∷ vectors) other =
      let ih = rows-other (suc id) model ident ctype url chunks vectors other in
      ground (arith, ih, other)

  cleared-SameAt :
      (db : Database) (m : ℕ) (i : String)
      → (m == n && str_eq i j) ≡ false
      → SameAt db (cleared db m i) n j
  unfolding delete_chunks find_source
  cleared-SameAt db m i other = elim (Bool-cases (exists (find_source db m i))) [
    | inl there ↦ (rw there refl, cleared_other db m n i j other)
    | inr nowhere ↦ (rw nowhere refl, cleared_other db m n i j other)
  ]

  upsert-find_other :
      (db : Database) (new : IngestionSource)
      (f : IngestionSource → IngestionSource → IngestionSource)
      → KeepsKey (λ s. f s new)
      → (new.model_id == n && str_eq new.source_identifier j) ≡ false
      → find_source (upsert_source db new f) n j ≡ find_source db n j
  upsert-find_other db new f k other = find_source-upsert_source db new f n j k ∙ rw other refl

  record_empty_source-SameAt :
      (db : Database) (model : RagModel) (ident hash url ctype : String)
      → (model.id == n && str_eq ident j) ≡ false
      → SameAt db (record_empty_source db model ident hash url ctype) n j
  unfolding record_empty_source upsert_source
  record_empty_source-SameAt db model ident hash url ctype other =
      (upsert-find_other db _ _ (λ s. (refl, refl)) other, refl)

  store-SameAt :
      (db : Database) (model : RagModel) (content : Text) (ident ctype url hash : String)
      (chunks : List ChunkResult) (embed : EmbedResult)
      → (model.id == n && str_eq ident j) ≡ false
      → SameAt db (store db model content ident ctype url hash chunks embed) n j
  unfolding store upsert_source find_source
  store-SameAt db model content ident ctype url hash chunks embed other =
      let rows = chunk_rows db.next_id model ident ctype url chunks embed.embeddings in
      let db' : Database = record db {
        chunks = db.chunks ++ rows;
        next_id = db.next_id + length rows;
      } in
      (
        upsert-find_other db' _ _ (λ s. (refl, refl)) other,
        entries-append n j db.chunks _
            ∙ (ap (λ l. stored db n j ++ l)
                  (rows-other db.next_id model ident ctype url chunks embed.embeddings other)
                ∙ append-nil (stored db n j)),
      )

  after : (a b c : Database) → SameAt a b n j → SameAt b c n j → SameAt a c n j
  after a b c ab bc = (bc.0 ∙ ab.0, bc.1 ∙ ab.1)

  module _ (sha256 : Text → String) (client : Client) (db : Database) (model : RagModel)
      (content : Text) (ident ctype url : String)
      (other : (model.id == n && str_eq ident j) ≡ false) where
    abbrev from : Database
    from = cleared db model.id ident

    ingest_new-SameAt :
        (hash : String)
        → SameAt db
            (ingest_new sha256 client db model content ident ctype url hash
              (exists (find_source db model.id ident))).0
            n
            j
    ingest_new-SameAt hash =
        let existing = exists (find_source db model.id ident) in
        let start = cleared-SameAt db model.id ident other in
        let chunks = chunks_of sha256 client content model in
        elim (Bool-cases (no_chunks chunks)) [
          | inl nothing ↦
              rw
                (ingest_new_of_no_chunks sha256 client db model content ident ctype url hash
                  existing nothing)
                (after db from _ start
                  (record_empty_source-SameAt from model ident hash url ctype other))
          | inr something ↦
              elim (Option-cases (
                embed_texts client (map (λ c. c.text) chunks) model.embedding_model
                  default_batch_size model.custom_voyage_key)) [
                    | inl no_vectors ↦
                        rw
                          (ingest_new_of_no_vectors sha256 client db model content ident ctype url
                            hash existing something no_vectors)
                          (refl, refl)
                    | inr (embed, vectors) ↦
                        rw
                          (ingest_new_of_vectors sha256 client db model content ident ctype url hash
                            existing embed something vectors)
                          (after db from _ start (
                            store-SameAt from model content ident ctype url hash chunks embed
                              other))
                  ]
        ]

    -- An ingestion leaves the row and the chunks under every other key as they are, also when it raises.
    pub ingest_content-SameAt :
        SameAt db (ingest_content sha256 client db model content ident ctype url).0 n j
    unfolding ingest_content modify_source
    ingest_content-SameAt =
        let existing = find_source db model.id ident in
        let hash = sha256 (hash_input content model) in
        elim (Bool-cases (up_to_date existing hash)) [
          | inl same ↦ rw same (elim (Bool-cases (status_complete existing)) [
            | inl done ↦ rw done (refl, refl)
            | inr undone ↦ rw undone (
              find_source-modify_source db model.id n ident j (λ s. record s { status = complete })
                    (λ s. (refl, refl))
                  ∙ rw other refl,
              refl,
            )
          ])
          | inr changed ↦ rw changed (ingest_new-SameAt hash)
        ]
