-- ===== src/Ingest.antt =====
-- app/services/ingest.py: queueing of sources, and the ingestion of one source's content. The database
-- is a value; a function that commits returns the new one. SHA-256 and the embedding client are
-- parameters. The advisory lock of `ingest_content` serialises the calls for one source, so that each
-- runs on the rows that the one before it left.
pub mod Db
pub mod Queueing
pub mod Replace
pub mod Repeat
pub mod Owned
pub mod Others
pub mod Queued
mod Tests
use ragr.Prelude.{
  ltb, leb, ◌==◌, if◌then◌else◌, ltb→lt, leb→le, ==_iff, Bool-cases, Option-cases, length, take,
  drop, get_elem?, filter, get_last?, get_last?-concat, any, all, length-append, length-take,
  length-drop, take-append-drop, filter-append, length-filter-le, length-map, All, All-append,
  All-filter, All-take, ℕ, zero, suc, ◌+◌, ◌-◌, ◌*◌, ◌/◌, ◌%◌, ◌^◌, ◌≤◌, ◌<◌, min, max, String, ◌≡◌,
  refl, sym, ap, ap₂, ◌∙◌, fun_ext, subst, ◌≢◌, ◌↔◌, ◌⊎◌, inl, inr, Bool, true, false, ◌&&◌, ◌||◌,
  not, Option, none, some, List, [], ◌∷◌, ◌++◌, map, append_assoc, append-nil, map-append, arith,
  str_eq, eq_iff, eq_refl,
}
use ragr.Text.{Text, codes, decimal}
use ragr.Models.{RagModel, ContentChunk, ChunkMeta, Embedding}
use ragr.Models.Source.{
  SourceStatus, pending, crawling, complete, failed, is_complete, IngestionSource,
}
use ragr.Chunker.{chunk_text}
use ragr.Chunker.Merge.{ChunkResult}
use ragr.Embedder.{EmbedResult, Client, embed_texts, default_batch_size}
use ragr.Budget.{estimate_embedding_cost}
use Db.{Database, find_source, is_chunk_of, upsert_source, modify_source, delete_chunks}

pub record IngestResult : Type 0 where
  pub chunk_count : ℕ
  pub skipped : Bool
  pub embedding_cost : ℕ

pub data Outcome {ℓ} (A : Type ℓ) : Type ℓ where
  ok : A → Outcome A
  raise : Outcome A

abbrev pub pipeline_version : ℕ
pipeline_version = 2

-- the text whose digest is the content hash
unfoldable pub hash_input : Text → RagModel → Text
unfolding decimal
hash_input content model =
    content
    ++ (codes ":chunk_size="
        ++ (decimal model.chunk_size
            ++ (codes ":chunk_overlap="
                ++ (decimal model.chunk_overlap
                    ++ (codes ":embedding="
                        ++ (codes model.embedding_model
                            ++ (codes ":pipeline=" ++ decimal pipeline_version)))))))

abbrev pub no_text : String
no_text = "No text could be extracted — the page may render its content with JavaScript."

-- `_record_empty_source`
unfoldable pub record_empty_source :
    Database → RagModel → String → String → String → String → Database
record_empty_source db model source_identifier content_hash source_url content_type =
    upsert_source db
      (record {
        id = db.next_id;
        model_id = model.id;
        source_identifier = source_identifier;
        content_hash = content_hash;
        chunk_count = 0;
        source_url = source_url;
        content_type = content_type;
        status = failed;
        embedding_cost = 0;
        raw_content = none;
        status_detail = some no_text;
      })
      (λ old new. record old {
        content_hash = new.content_hash;
        chunk_count = new.chunk_count;
        status = new.status;
        status_detail = new.status_detail;
      })

-- one row for each chunk and its vector
unfoldable pub chunk_rows :
    ℕ → RagModel → String → String → String → List ChunkResult → List Embedding → List ContentChunk
chunk_rows id model source_identifier content_type source_url [] _ = []
chunk_rows id model source_identifier content_type source_url (_ ∷ _) [] = []
chunk_rows id model source_identifier content_type source_url (c ∷ chunks) (e ∷ embeddings) =
    record {
      id = id;
      model_id = model.id;
      content = c.text;
      embedding = e;
      source_url = source_url;
      source_identifier = source_identifier;
      content_type = content_type;
      metadata = record {
        heading_path = c.heading_path;
        start_offset = c.start_offset;
        end_offset = c.end_offset;
      };
      position = c.position;
    }
    ∷ chunk_rows (suc id) model source_identifier content_type source_url chunks embeddings

-- The insertion of the chunks and the upsert of the source.
unfoldable pub store :
    Database
    → RagModel
    → Text
    → String
    → String
    → String
    → String
    → List ChunkResult
    → EmbedResult
    → Database
unfolding chunk_rows
store db model content source_identifier content_type source_url content_hash chunks embed =
    let rows =
      chunk_rows db.next_id model source_identifier content_type source_url chunks
        embed.embeddings in
    let db' = record db { chunks = db.chunks ++ rows; next_id = db.next_id + length rows } in
    upsert_source db'
      (record {
        id = db'.next_id;
        model_id = model.id;
        source_identifier = source_identifier;
        content_hash = content_hash;
        chunk_count = length chunks;
        source_url = source_url;
        content_type = content_type;
        status = complete;
        embedding_cost = estimate_embedding_cost model.embedding_model embed.total_tokens;
        raw_content = some content;
        status_detail = none;
      })
      (λ old new. record old {
        content_hash = new.content_hash;
        chunk_count = new.chunk_count;
        source_url = new.source_url;
        content_type = new.content_type;
        status = new.status;
        status_detail = new.status_detail;
        embedding_cost = new.embedding_cost;
        raw_content = new.raw_content;
      })

-- an existing source with the same hash
abbrev pub up_to_date : Option IngestionSource → String → Bool
up_to_date none content_hash = false
up_to_date (some s) content_hash = str_eq s.content_hash content_hash

abbrev pub count_of : Option IngestionSource → ℕ
count_of none = 0
count_of (some s) = s.chunk_count

abbrev pub status_complete : Option IngestionSource → Bool
status_complete none = false
status_complete (some s) = is_complete s.status

abbrev pub exists : Option IngestionSource → Bool
exists none = false
exists (some _) = true

abbrev pub no_chunks : List ChunkResult → Bool
no_chunks [] = true
no_chunks (_ ∷ _) = false

module _ (sha256 : Text → String) (client : Client) where
  -- An exception rolls the transaction back.
  unfoldable pub ingest_new :
      Database
      → RagModel
      → Text
      → String
      → String
      → String
      → String
      → Bool
      → Database × Outcome IngestResult
  unfolding record_empty_source store
  ingest_new db model content source_identifier content_type source_url content_hash existing =
      let cleared = if existing then delete_chunks db model.id source_identifier else db in
      let chunks = chunk_text content model.chunk_size model.chunk_overlap in
      if no_chunks chunks
      then (
        record_empty_source cleared model source_identifier content_hash source_url content_type,
        ok (record { chunk_count = 0; skipped = false; embedding_cost = 0 }),
      )
      else elim (embed_texts client (map (λ c. c.text) chunks) model.embedding_model
          default_batch_size model.custom_voyage_key) [
            | none ↦ (db, raise)
            | some embed ↦ (
              store cleared model content source_identifier content_type source_url content_hash
                  chunks embed,
              ok (record {
                chunk_count = length chunks;
                skipped = false;
                embedding_cost = estimate_embedding_cost model.embedding_model embed.total_tokens;
              }),
            )
          ]

  unfoldable pub ingest_content :
      Database → RagModel → Text → String → String → String → Database × Outcome IngestResult
  unfolding ingest_new
  ingest_content db model content source_identifier content_type source_url =
      let content_hash = sha256 (hash_input content model) in
      let existing = find_source db model.id source_identifier in
      if up_to_date existing content_hash
      then (
        if status_complete existing
            then db
            else modify_source db model.id source_identifier (λ s. record s { status = complete }),
        ok (record { chunk_count = count_of existing; skipped = true; embedding_cost = 0 }),
      )
      else ingest_new db model content source_identifier content_type source_url content_hash
          (exists existing)
