-- ===== src/Ingest/Owned.antt =====
-- No chunk is ever left without its source.
use ragr.Prelude.{
  if◌then◌else◌, Bool-cases, Option-cases, All, All-append, All-filter, All-map, ℕ, suc, String,
  ◌≡◌, refl, inl, inr, Bool, true, false, List, [], ◌∷◌, ◌++◌, map, arith, eq_refl,
}
use ragr.Text.{Text}
use ragr.Models.{RagModel, ContentChunk, Embedding}
use ragr.Models.Source.{complete, IngestionSource}
use ragr.Chunker.Merge.{ChunkResult}
use ragr.Embedder.{EmbedResult, Client, embed_texts, default_batch_size}
use ragr.Ingest.{
  hash_input, record_empty_source, chunk_rows, store, up_to_date, status_complete, exists,
  no_chunks, ingest_new, ingest_content,
}
use ragr.Ingest.Replace.{IsOwned}
use ragr.Ingest.Repeat.{
  ingest_new_of_no_chunks, ingest_new_of_vectors, ingest_new_of_no_vectors, chunks_of,
}
use ragr.Ingest.Db.{
  Database, find_source, modify_source, delete_chunks, upsert_source, KeepsKey,
  find_source-upsert_source, find_source-modify_source,
}

abbrev Has : Database → ℕ → String → Type 0
Has db n j = exists (find_source db n j) ≡ true

pub upsert-Has :
    (db : Database) (new : IngestionSource)
    (f : IngestionSource → IngestionSource → IngestionSource) (n : ℕ) (j : String)
    → KeepsKey (λ s. f s new)
    → Has db n j
    → Has (upsert_source db new f) n j
upsert-Has db new f n j k h = rw (find_source-upsert_source db new f n j k) (ground (arith, h))

upsert-Has_new :
    (db : Database) (new : IngestionSource)
    (f : IngestionSource → IngestionSource → IngestionSource)
    → KeepsKey (λ s. f s new)
    → Has (upsert_source db new f) new.model_id new.source_identifier
upsert-Has_new db new f k =
    rw (find_source-upsert_source db new f new.model_id new.source_identifier k)
      (ground (arith, eq_refl new.source_identifier))

modify-Has :
    (db : Database) (m n : ℕ) (i j : String) (f : IngestionSource → IngestionSource)
    → KeepsKey f
    → Has db n j
    → Has (modify_source db m i f) n j
modify-Has db m n i j f k h = elim (Option-cases (find_source db n j)) [
  | inl nowhere ↦ ground (arith, h, nowhere)
  | inr (s, there) ↦ ground (arith, find_source-modify_source db m n i j f k, there)
]

rows_owned :
    (db : Database) (id : ℕ) (model : RagModel) (ident ctype url : String)
    (chunks : List ChunkResult) (vectors : List Embedding)
    → Has db model.id ident
    → All
        (λ (c : ContentChunk). Has db c.model_id c.source_identifier)
        (chunk_rows id model ident ctype url chunks vectors)
unfolding chunk_rows
rows_owned db id model ident ctype url [] vectors here = tt
rows_owned db id model ident ctype url (c ∷ chunks) [] here = tt
rows_owned db id model ident ctype url (c ∷ chunks) (v ∷ vectors) here =
    (here, rows_owned db (suc id) model ident ctype url chunks vectors here)

cleared-IsOwned :
    (existing : Bool) (db : Database) (m : ℕ) (i : String)
    → IsOwned db
    → IsOwned (if existing then delete_chunks db m i else db)
unfolding delete_chunks find_source
cleared-IsOwned false db m i h = h
cleared-IsOwned true db m i h = All-filter _ _ db.chunks h

record_empty_source-IsOwned :
    (db : Database) (model : RagModel) (ident hash url ctype : String)
    → IsOwned db
    → IsOwned (record_empty_source db model ident hash url ctype)
unfolding record_empty_source upsert_source
record_empty_source-IsOwned db model ident hash url ctype h =
    All-map (λ c p. upsert-Has db _ _ c.model_id c.source_identifier (λ s. (refl, refl)) p)
      db.chunks h

modified-IsOwned :
    (db : Database) (m : ℕ) (i : String)
    → IsOwned db
    → IsOwned (modify_source db m i (λ s. record s { status = complete }))
unfolding modify_source
modified-IsOwned db m i h =
    All-map
      (λ c p.
        modify-Has db m c.model_id i c.source_identifier (λ s. record s { status = complete })
          (λ s. (refl, refl)) p)
      db.chunks h

-- Adding rows and writing their source in one transaction.
insert-IsOwned :
    (db : Database) (rows : List ContentChunk) (id : ℕ) (new : IngestionSource)
    (f : IngestionSource → IngestionSource → IngestionSource)
    → KeepsKey (λ s. f s new)
    → IsOwned db
    → let db' : Database = record db { chunks = db.chunks ++ rows; next_id = id } in
      All (λ (c : ContentChunk). Has (upsert_source db' new f) c.model_id c.source_identifier) rows
      → IsOwned (upsert_source db' new f)
unfolding find_source upsert_source
insert-IsOwned db rows id new f k h r =
    let db' : Database = record db { chunks = db.chunks ++ rows; next_id = id } in
    All-append _ db.chunks rows
      (All-map (λ c p. upsert-Has db' new f c.model_id c.source_identifier k p) db.chunks h) r

store-IsOwned :
    (db : Database) (model : RagModel) (content : Text) (ident ctype url hash : String)
    (chunks : List ChunkResult) (embed : EmbedResult)
    → IsOwned db
    → IsOwned (store db model content ident ctype url hash chunks embed)
unfolding store
store-IsOwned db model content ident ctype url hash chunks embed h =
    insert-IsOwned db _ _ _ _ (λ s. (refl, refl)) h
      (rows_owned _ db.next_id model ident ctype url chunks embed.embeddings
        (upsert-Has_new _ _ _ (λ s. (refl, refl))))

module _ (sha256 : Text → String) (client : Client) where
  ingest_new-IsOwned :
      (db : Database) (model : RagModel) (content : Text) (ident ctype url hash : String)
      (existing : Bool)
      → IsOwned db
      → IsOwned (ingest_new sha256 client db model content ident ctype url hash existing).0
  ingest_new-IsOwned db model content ident ctype url hash existing h =
      let from = if existing then delete_chunks db model.id ident else db in
      let cleared = cleared-IsOwned existing db model.id ident h in
      let chunks = chunks_of sha256 client content model in
      elim (Bool-cases (no_chunks chunks)) [
        | inl nothing ↦
            rw
              (ingest_new_of_no_chunks sha256 client db model content ident ctype url hash existing
                nothing)
              (record_empty_source-IsOwned from model ident hash url ctype cleared)
        | inr something ↦
            elim (Option-cases (
              embed_texts client (map (λ c. c.text) chunks) model.embedding_model default_batch_size
                model.custom_voyage_key)) [
                  | inl no_vectors ↦
                      rw
                        (ingest_new_of_no_vectors sha256 client db model content ident ctype url
                          hash existing something no_vectors)
                        h
                  | inr (embed, vectors) ↦
                      rw
                        (ingest_new_of_vectors sha256 client db model content ident ctype url hash
                          existing embed something vectors)
                        (store-IsOwned from model content ident ctype url hash chunks embed cleared)
                ]
      ]

  -- If every chunk has the row of its source, then every chunk has one after an ingestion too, whatever
  -- the content and whether the call returns or raises.
  pub ingest_content-IsOwned :
      (db : Database) (model : RagModel) (content : Text) (ident ctype url : String)
      → IsOwned db
      → IsOwned (ingest_content sha256 client db model content ident ctype url).0
  unfolding ingest_content
  ingest_content-IsOwned db model content ident ctype url h =
      let existing = find_source db model.id ident in
      let hash = sha256 (hash_input content model) in
      elim (Bool-cases (up_to_date existing hash)) [
        | inl same ↦ rw same (elim (Bool-cases (status_complete existing)) [
          | inl done ↦ rw done h
          | inr other ↦ rw other (modified-IsOwned db model.id ident h)
        ])
        | inr changed ↦
            rw changed
              (ingest_new-IsOwned db model content ident ctype url hash (exists existing) h)
      ]
