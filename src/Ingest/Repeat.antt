-- ===== src/Ingest/Repeat.antt =====
-- Ingesting the same content again: a no-op after success, and what becomes of a source without text.
use ragr.Prelude.{
  if◌then◌else◌, Bool-cases, Option-cases, length, ℕ, String, ◌≡◌, refl, sym, ap, ap₂, ◌∙◌, subst,
  inl, inr, Bool, true, false, Option, none, some, List, map, arith, eq_iff, eq_refl,
}
use ragr.Text.{Text}
use ragr.Models.{RagModel}
use ragr.Models.Source.{SourceStatus, complete, failed, is_complete, IngestionSource}
use ragr.Chunker.{chunk_text}
use ragr.Chunker.Merge.{ChunkResult}
use ragr.Embedder.{EmbedResult, Client, embed_texts, default_batch_size}
use ragr.Budget.{estimate_embedding_cost}
use ragr.Ingest.{
  IngestResult, Outcome, ok, raise, hash_input, record_empty_source, store, up_to_date, count_of,
  exists, no_chunks, ingest_new, ingest_content,
}
use ragr.Ingest.Db.{
  Database, find_source, modify_source, delete_chunks, written, upsert_source, KeepsKey,
  find_source-upsert_source, find_source-modify_source,
}

-- The row is there, for this content, with this status and count.
pub record IsRow (o : Option IngestionSource) (hash : String) (status : SourceStatus) (count : ℕ)
    : Type 0 where
  pub source : IngestionSource
  pub found : o ≡ some source
  pub same_hash : source.content_hash ≡ hash
  pub has_status : source.status ≡ status
  pub has_count : source.chunk_count ≡ count

is_complete-eq : (s : SourceStatus) → is_complete s ≡ true → s ≡ complete
is_complete-eq complete h = refl
is_complete-eq s h = ground arith

-- An update that takes over the new hash, status and count.
abbrev Takes : (IngestionSource → IngestionSource → IngestionSource) → IngestionSource → Type 0
Takes f new =
    (s : IngestionSource)
    → ((f s new).content_hash ≡ new.content_hash)
      × ((f s new).status ≡ new.status)
      × ((f s new).chunk_count ≡ new.chunk_count)

written-IsRow :
    (f : IngestionSource → IngestionSource → IngestionSource) (new : IngestionSource)
    (o : Option IngestionSource)
    → Takes f new
    → IsRow (some (written f new o)) new.content_hash new.status new.chunk_count
written-IsRow f new none t = record {
  source = new;
  found = refl;
  same_hash = refl;
  has_status = refl;
  has_count = refl;
}
written-IsRow f new (some s) t = record {
  source = f s new;
  found = refl;
  same_hash = (t s).0;
  has_status = (t s).1;
  has_count = (t s).2;
}

upsert-IsRow :
    (db : Database) (new : IngestionSource)
    (f : IngestionSource → IngestionSource → IngestionSource)
    → KeepsKey (λ s. f s new)
    → Takes f new
    → IsRow
        (find_source (upsert_source db new f) new.model_id new.source_identifier)
        new.content_hash
        new.status
        new.chunk_count
upsert-IsRow db new f k t =
    let found : find_source (upsert_source db new f) new.model_id new.source_identifier
        ≡ some (written f new (find_source db new.model_id new.source_identifier)) =
      ground (
        arith,
        find_source-upsert_source db new f new.model_id new.source_identifier k,
        eq_refl new.source_identifier,
      ) in
    rw found (written-IsRow f new (find_source db new.model_id new.source_identifier) t)

store-IsRow :
    (db : Database) (model : RagModel) (content : Text) (ident ctype url hash : String)
    (chunks : List ChunkResult) (embed : EmbedResult)
    → IsRow
        (find_source (store db model content ident ctype url hash chunks embed) model.id ident)
        hash
        complete
        (length chunks)
unfolding store
store-IsRow db model content ident ctype url hash chunks embed =
    upsert-IsRow _ _ _ (λ s. (refl, refl)) (λ s. (refl, refl, refl))

record_empty_source-IsRow :
    (db : Database) (model : RagModel) (ident hash url ctype : String)
    → IsRow
        (find_source (record_empty_source db model ident hash url ctype) model.id ident)
        hash
        failed
        0
unfolding record_empty_source
record_empty_source-IsRow db model ident hash url ctype =
    upsert-IsRow db _ _ (λ s. (refl, refl)) (λ s. (refl, refl, refl))

ok_count : Outcome IngestResult → ℕ
ok_count (ok r) = r.chunk_count
ok_count raise = 0

status_of : Option IngestionSource → SourceStatus
status_of none = failed
status_of (some s) = s.status

up_to_date-IsRow :
    (o : Option IngestionSource) (hash : String)
    → up_to_date o hash ≡ true
    → IsRow o hash (status_of o) (count_of o)
unfolding status_of
up_to_date-IsRow none hash h = ground (arith, h)
up_to_date-IsRow (some s) hash h = record {
  source = s;
  found = refl;
  same_hash = (eq_iff s.content_hash hash).0 h;
  has_status = refl;
  has_count = refl;
}

module _ (sha256 : Text → String) (client : Client) where
  abbrev pub hash_of : Text → RagModel → String
  hash_of content model = sha256 (hash_input content model)

  abbrev skip : ℕ → Outcome IngestResult
  skip n = ok (record { chunk_count = n; skipped = true; embedding_cost = 0 })

  completed : Database → RagModel → String → SourceStatus → Database
  completed db model ident status =
      if is_complete status
      then db
      else modify_source db model.id ident (λ s. record s { status = complete })

  ingest_known :
      (db : Database) (model : RagModel) (content : Text) (ident ctype url : String)
      (status : SourceStatus) (n : ℕ)
      → IsRow (find_source db model.id ident) (hash_of content model) status n
      → ingest_content sha256 client db model content ident ctype url
        ≡ (completed db model ident status, skip n)
  unfolding ingest_content completed
  ingest_known db model content ident ctype url status n r =
      let same = (eq_iff r.source.content_hash (hash_of content model)).1 r.same_hash in
      rw r.found
        (rw same (ap₂ (λ st k. (completed db model ident st, skip k)) r.has_status r.has_count))

  completed-IsRow :
      (db : Database) (model : RagModel) (ident hash : String) (status : SourceStatus) (n : ℕ)
      → IsRow (find_source db model.id ident) hash status n
      → IsRow (find_source (completed db model ident status) model.id ident) hash complete n
  unfolding completed
  completed-IsRow db model ident hash status n r = elim (Bool-cases (is_complete status)) [
    | inl done ↦ rw done (record {
      source = r.source;
      found = r.found;
      same_hash = r.same_hash;
      has_status = r.has_status ∙ is_complete-eq status done;
      has_count = r.has_count;
    })
    | inr other ↦ rw other (record {
      source = record r.source { status = complete };
      found = ground (
        arith,
        find_source-modify_source db model.id model.id ident ident
            (λ s. record s { status = complete }) (λ s. (refl, refl)),
        eq_refl ident,
        r.found,
      );
      same_hash = r.same_hash;
      has_status = refl;
      has_count = r.has_count;
    })
  ]

  -- What a call leaves behind when there was no row for this content.
  pub ingest_unknown :
      (db : Database) (model : RagModel) (content : Text) (ident ctype url : String)
      → up_to_date (find_source db model.id ident) (hash_of content model) ≡ false
      → ingest_content sha256 client db model content ident ctype url
        ≡ ingest_new sha256 client db model content ident ctype url
            (hash_of content model)
            (exists (find_source db model.id ident))
  unfolding ingest_content
  ingest_unknown db model content ident ctype url h = rw h

  abbrev pub chunks_of : Text → RagModel → List ChunkResult
  chunks_of content model = chunk_text content model.chunk_size model.chunk_overlap

  pub ingest_new_of_vectors :
      (db : Database) (model : RagModel) (content : Text) (ident ctype url hash : String)
      (existing : Bool) (embed : EmbedResult)
      → no_chunks (chunks_of content model) ≡ false
      → embed_texts client
          (map (λ c. c.text) (chunks_of content model))
          model.embedding_model
          default_batch_size
          model.custom_voyage_key
        ≡ some embed
      → ingest_new sha256 client db model content ident ctype url hash existing ≡ (
        store
            (if existing then delete_chunks db model.id ident else db)
            model
            content
            ident
            ctype
            url
            hash
            (chunks_of content model)
            embed,
        ok (record {
          chunk_count = length (chunks_of content model);
          skipped = false;
          embedding_cost = estimate_embedding_cost model.embedding_model embed.total_tokens;
        }),
      )
  unfolding ingest_new
  ingest_new_of_vectors db model content ident ctype url hash existing embed some_chunks vectors =
      rw (some_chunks, vectors) refl

  pub ingest_new_of_no_vectors :
      (db : Database) (model : RagModel) (content : Text) (ident ctype url hash : String)
      (existing : Bool)
      → no_chunks (chunks_of content model) ≡ false
      → embed_texts client
          (map (λ c. c.text) (chunks_of content model))
          model.embedding_model
          default_batch_size
          model.custom_voyage_key
        ≡ none
      → ingest_new sha256 client db model content ident ctype url hash existing ≡ (db, raise)
  unfolding ingest_new
  ingest_new_of_no_vectors db model content ident ctype url hash existing some_chunks no_vectors =
      rw (some_chunks, no_vectors) refl

  ingest_new-IsRow :
      (db : Database) (model : RagModel) (content : Text) (ident ctype url hash : String)
      (existing : Bool) (db' : Database) (r : IngestResult)
      → no_chunks (chunks_of content model) ≡ false
      → ingest_new sha256 client db model content ident ctype url hash existing ≡ (db', ok r)
      → IsRow (find_source db' model.id ident) hash complete r.chunk_count
  unfolding ok_count
  ingest_new-IsRow db model content ident ctype url hash existing db' r some_chunks e =
      elim (Option-cases (
        embed_texts client (map (λ c. c.text) (chunks_of content model)) model.embedding_model
          default_batch_size model.custom_voyage_key)) [
            | inl no_vectors ↦
                let after =
                  ingest_new_of_no_vectors db model content ident ctype url hash existing
                    some_chunks no_vectors in
                ground (arith, e, after)
            | inr (embed, vectors) ↦
                let after =
                  sym (
                    ingest_new_of_vectors db model content ident ctype url hash existing embed
                      some_chunks vectors)
                  ∙ e in
                let cleared = if existing then delete_chunks db model.id ident else db in
                subst (λ d. IsRow (find_source d model.id ident) hash complete r.chunk_count)
                  (ap (λ p. p.0) after)
                  (subst
                    (λ n.
                      IsRow
                        (find_source
                          (store cleared model content ident ctype url hash
                            (chunks_of content model) embed)
                          model.id ident)
                        hash complete n)
                    (ap (λ p. ok_count p.1) after)
                    (store-IsRow cleared model content ident ctype url hash
                      (chunks_of content model) embed))
          ]

  pub ingest_new_of_no_chunks :
      (db : Database) (model : RagModel) (content : Text) (ident ctype url hash : String)
      (existing : Bool)
      → no_chunks (chunk_text content model.chunk_size model.chunk_overlap) ≡ true
      → ingest_new sha256 client db model content ident ctype url hash existing ≡ (
        record_empty_source
            (if existing then delete_chunks db model.id ident else db)
            model
            ident
            hash
            url
            ctype,
        ok (record { chunk_count = 0; skipped = false; embedding_cost = 0 }),
      )
  unfolding ingest_new
  ingest_new_of_no_chunks db model content ident ctype url hash existing no_text = rw no_text refl

  ingest-IsRow :
      (db : Database) (model : RagModel) (content : Text) (ident ctype url : String)
      (db' : Database) (r : IngestResult)
      → no_chunks (chunks_of content model) ≡ false
      → ingest_content sha256 client db model content ident ctype url ≡ (db', ok r)
      → IsRow (find_source db' model.id ident) (hash_of content model) complete r.chunk_count
  unfolding ok_count
  ingest-IsRow db model content ident ctype url db' r some_chunks e =
      elim (Bool-cases (up_to_date (find_source db model.id ident) (hash_of content model))) [
        | inl same ↦
            let row =
              up_to_date-IsRow (find_source db model.id ident) (hash_of content model) same in
            let status = status_of (find_source db model.id ident) in
            let n = count_of (find_source db model.id ident) in
            let after = sym (ingest_known db model content ident ctype url status n row) ∙ e in
            subst
              (λ d.
                IsRow (find_source d model.id ident) (hash_of content model) complete r.chunk_count)
              (ap (λ p. p.0) after)
              (subst
                (λ k.
                  IsRow (find_source (completed db model ident status) model.id ident)
                    (hash_of content model) complete k)
                (ap (λ p. ok_count p.1) after)
                (completed-IsRow db model ident (hash_of content model) status n row))
        | inr changed ↦
            ingest_new-IsRow db model content ident ctype url (hash_of content model)
              (exists (find_source db model.id ident)) db' r some_chunks
              (sym (ingest_unknown db model content ident ctype url changed) ∙ e)
      ]

  -- When an ingestion of content that gives a chunk has returned, a second one of the same content
  -- returns the same chunk count as skipped at no cost, and leaves the database as it is.
  pub ingest_content-idempotent :
      (db : Database) (model : RagModel) (content : Text) (ident ctype url : String)
      (db' : Database) (r : IngestResult)
      → no_chunks (chunk_text content model.chunk_size model.chunk_overlap) ≡ false
      → ingest_content sha256 client db model content ident ctype url ≡ (db', ok r)
      → ingest_content sha256 client db' model content ident ctype url
        ≡ (db', ok (record { chunk_count = r.chunk_count; skipped = true; embedding_cost = 0 }))
  unfolding completed
  ingest_content-idempotent db model content ident ctype url db' r some_chunks e =
      ingest_known db' model content ident ctype url complete r.chunk_count
        (ingest-IsRow db model content ident ctype url db' r some_chunks e)

  -- Content that gives no chunk, ingested under an identifier that holds other content or none: the
  -- call returns, and the source stands as failed with no chunk. Ingesting the same content once more
  -- returns as skipped, and turns that source to complete, although it still has no chunk.
  pub ingest_content_of_no_text :
      (db : Database) (model : RagModel) (content : Text) (ident ctype url : String)
      → no_chunks (chunk_text content model.chunk_size model.chunk_overlap) ≡ true
      → up_to_date (find_source db model.id ident) (sha256 (hash_input content model)) ≡ false
      → let once = (ingest_content sha256 client db model content ident ctype url).0 in
        let twice = ingest_content sha256 client once model content ident ctype url in
        IsRow (find_source once model.id ident) (sha256 (hash_input content model)) failed 0
        × ((twice.1 ≡ ok (record { chunk_count = 0; skipped = true; embedding_cost = 0 }))
            × IsRow
                (find_source twice.0 model.id ident)
                (sha256 (hash_input content model))
                complete
                0)
  ingest_content_of_no_text db model content ident ctype url no_text changed =
      let cleared =
        if exists (find_source db model.id ident) then delete_chunks db model.id ident else db in
      let empty = record_empty_source cleared model ident (hash_of content model) url ctype in
      let first =
        ingest_unknown db model content ident ctype url changed
        ∙ ingest_new_of_no_chunks db model content ident ctype url (hash_of content model)
            (exists (find_source db model.id ident)) no_text in
      let row = record_empty_source-IsRow cleared model ident (hash_of content model) url ctype in
      let second = ingest_known empty model content ident ctype url failed 0 row in
      rw (first, second)
        (row, (refl, completed-IsRow empty model ident (hash_of content model) failed 0 row))
