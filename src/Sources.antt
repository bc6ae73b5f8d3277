-- ===== src/Sources.antt =====
-- app/api/sources.py: the routes on a model's sources. A handler takes the model that `require_model_auth`
-- granted, and leaves the state and a reply. A response that copies a row's columns is that row.
pub mod Submit
pub mod Upload
pub mod Reingest
pub mod Deleted
pub mod Submitted
pub mod Reingested
mod Tests
use ragr.Prelude.{
  ltb, leb, ◌==◌, if◌then◌else◌, ltb→lt, leb→le, ==_iff, Bool-cases, Option-cases, length, take,
  drop, get_elem?, filter, get_last?, get_last?-concat, any, all, length-append, length-take,
  length-drop, take-append-drop, filter-append, length-filter-le, length-map, All, All-append,
  All-filter, All-take, All-map, filter-All, any-filter, ℕ, zero, suc, ◌+◌, ◌-◌, ◌*◌, ◌/◌, ◌%◌, ◌^◌,
  ◌≤◌, ◌<◌, min, max, String, ◌≡◌, refl, sym, ap, ap₂, ◌∙◌, fun_ext, subst, ◌≢◌, ◌↔◌, ◌⊎◌, inl, inr,
  Bool, true, false, ◌&&◌, ◌||◌, not, Option, none, some, List, [], ◌∷◌, ◌++◌, map, append_assoc,
  append-nil, map-append, arith, str_eq, eq_iff, eq_refl,
}
use ragr.Text.{Text}
use ragr.Str.{◌+s◌, decimal_str}
use ragr.Models.{RagModel, ContentChunk}
use ragr.Models.Source.{IngestionSource}
use ragr.RateLimit.{RateLimiter, is_allowed}
use ragr.Embedder.{Client}
use ragr.Ingest.{IngestResult, Outcome, ok, raise, ingest_content}
use ragr.Ingest.Db.{Database, find_source, is_source, is_chunk_of, delete_chunks}
use ragr.Dependencies.{Reply, allow, http_exception, exception}

-- The tables, and `_ingest_limiter`.
pub record Api : Type 0 where
  pub db : Database
  pub limiter : RateLimiter

abbrev pub ingest_key : ℕ → String
ingest_key model_id = "ingest:" +s decimal_str model_id

-- `if not _ingest_limiter.is_allowed(...): raise HTTPException(429, ...)`, before the rest of a handler
unfoldable pub limited {ℓ} : {A : Type ℓ} → Api → ℕ → ℕ → (Api → Api × Reply A) → Api × Reply A
limited api now model_id handler =
    let counted = is_allowed api.limiter now (ingest_key model_id) in
    let api' : Api = record api { limiter = counted.0 } in
    if counted.1
    then handler api'
    else (api', http_exception 429 "Rate limit exceeded. Please wait before trying again.")

abbrev pub first {ℓ} : {A : Type ℓ} → List A → Option A
first [] = none
first (a ∷ _) = some a

-- select(IngestionSource).where(model_id, id)
abbrev pub find_id : Database → ℕ → ℕ → Option IngestionSource
find_id db model_id source_id =
    first (filter (λ (s : IngestionSource). s.model_id == model_id && s.id == source_id) db.sources)

abbrev pub found {ℓ} : {A : Type ℓ} → Option A → Reply A
found none = http_exception 404 "Source not found"
found (some a) = allow a

unfoldable pub get_source : Database → RagModel → ℕ → Reply IngestionSource
get_source db model source_id = found (find_id db model.id source_id)

pub record ChunkListResponse : Type 0 where
  pub source_identifier : String
  pub chunks : List ContentChunk
  pub total : ℕ

abbrev pub insert_chunk : ContentChunk → List ContentChunk → List ContentChunk
insert_chunk c [] = c ∷ []
insert_chunk c (d ∷ chunks) =
    let rest = insert_chunk c chunks in if leb c.id d.id then c ∷ d ∷ chunks else d ∷ rest

abbrev pub order_by_id : List ContentChunk → List ContentChunk
order_by_id [] = []
order_by_id (c ∷ chunks) = insert_chunk c (order_by_id chunks)

abbrev pub page_of : ℕ → ℕ → List ContentChunk → List ContentChunk
page_of limit offset chunks = take limit (drop offset (order_by_id chunks))

abbrev pub chunks_of_source : Database → ℕ → String → List ContentChunk
chunks_of_source db model_id ident = filter (is_chunk_of model_id ident) db.chunks

abbrev list_chunks_of : Database → ℕ → ℕ → ℕ → Reply IngestionSource → Reply ChunkListResponse
list_chunks_of db model_id limit offset (http_exception code detail) = http_exception code detail
list_chunks_of db model_id limit offset exception = exception
list_chunks_of db model_id limit offset (allow source) =
    let chunks = chunks_of_source db model_id source.source_identifier in
    allow (record {
      source_identifier = source.source_identifier;
      chunks = page_of limit offset chunks;
      total = length chunks;
    })

unfoldable pub list_source_chunks : Database → RagModel → ℕ → ℕ → ℕ → Reply ChunkListResponse
list_source_chunks db model source_id limit offset =
    list_chunks_of db model.id limit offset (found (find_id db model.id source_id))

-- session.delete(source): the constraint makes it the only row under its key
unfoldable pub delete_row : Database → ℕ → String → Database
delete_row db model_id ident = record db {
  sources = filter (λ s. not (is_source model_id ident s)) db.sources;
}

abbrev delete_found : Database → ℕ → String → Option IngestionSource → Database × Reply (Unit {0})
delete_found db model_id ident none = (db, http_exception 404 "Source not found")
delete_found db model_id ident (some _) =
    (delete_row (delete_chunks db model_id ident) model_id ident, allow tt)

unfoldable pub delete_source : Database → RagModel → String → Database × Reply (Unit {0})
unfolding delete_row
delete_source db model ident = delete_found db model.id ident (find_source db model.id ident)

pub record PurgeResponse : Type 0 where
  pub model_slug : String
  pub chunks_deleted : ℕ
  pub sources_deleted : ℕ

unfoldable pub purge_sources : Database → RagModel → Database × PurgeResponse
purge_sources db model = (
  record db {
    chunks = filter (λ c. not (c.model_id == model.id)) db.chunks;
    sources = filter (λ s. not (s.model_id == model.id)) db.sources;
  },
  record {
    model_slug = model.slug;
    chunks_deleted = length (filter (λ c. c.model_id == model.id) db.chunks);
    sources_deleted = length (filter (λ s. s.model_id == model.id) db.sources);
  },
)

pub record UpsertSourceRequest : Type 0 where
  pub content : Text
  pub content_type : String
  pub source_url : String

pub record UpsertSourceResponse : Type 0 where
  pub source_identifier : String
  pub status : String
  pub chunk_count : ℕ
  pub skipped : Bool
  pub embedding_cost : ℕ
  pub message : String

abbrev pub put_response : String → IngestResult → UpsertSourceResponse
put_response ident result = record {
  source_identifier = ident;
  status = "complete";
  chunk_count = result.chunk_count;
  skipped = result.skipped;
  embedding_cost = result.embedding_cost;
  message =
      if result.skipped
      then "Content unchanged, skipped re-ingestion"
      else "Ingested " +s (decimal_str result.chunk_count +s " chunks");
}

abbrev pub put_reply : String → Outcome IngestResult → Reply UpsertSourceResponse
put_reply ident raise = exception
put_reply ident (ok result) = allow (put_response ident result)

module _ (sha256 : Text → String) (client : Client) where
  -- `PUT /models/{slug}/sources/{source_identifier}`
  unfoldable pub upsert_source :
      Api → ℕ → RagModel → String → UpsertSourceRequest → Api × Reply UpsertSourceResponse
  unfolding limited
  upsert_source api now model ident body = limited api now model.id (λ a.
      let done =
        ingest_content sha256 client a.db model body.content ident body.content_type
          body.source_url in
      (record a { db = done.0 }, put_reply ident done.1))
