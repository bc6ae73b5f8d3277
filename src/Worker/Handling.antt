-- ===== src/Worker/Handling.antt =====
-- app/worker.py: the job handlers. A handler leaves a database, and the message of the exception that it
-- raised, if any. The network, the object store, the text extraction and the crawl are arguments.
use ragr.Prelude.{
  ltb, if◌then◌else◌, ℕ, suc, ◌*◌, String, Bool, true, false, not, Option, none, some, List, [],
  ◌∷◌, str_eq,
}
use ragr.Text.{Text, codes, is_empty}
use ragr.Str.{◌+s◌, decimal_str}
use ragr.Models.{RagModel}
use ragr.Models.Source.{complete, failed, is_crawling, IngestionSource}
use ragr.Models.Job.{JobParams, IngestionJob}
use ragr.Embedder.{Client}
use ragr.Ingest.{IngestResult, Outcome, ok, raise, ingest_content}
use ragr.Ingest.Db.{Database, find_source, modify_source}
use ragr.Ingest.Queueing.{queue_file}
use ragr.Crawler.{
  Response, Fetched, response, error, is_success, Reason, fetch_failed, Item, crawled_page,
  failed_page, skipped_page, explain_empty_crawl,
}
use ragr.Crawler.Site.{contains_html, Settings}

-- A value, or an exception with its message.
pub data Try {ℓ} (A : Type ℓ) : Type ℓ where
  value : A → Try A
  raised : String → Try A

infixl 5 ◌>>=◌ ◌>>◌
abbrev pub ◌>>=◌ {ℓ κ} : {A : Type ℓ} {B : Type κ} → Try A → (A → Try B) → Try B
value a >>= f = f a
raised e >>= f = raised e

abbrev pub ◌>>◌ {ℓ} : {B : Type ℓ} → Try (Unit {0}) → Try B → Try B
m >> k = m >>= λ _. k

abbrev pub unless : Bool → String → Try (Unit {0})
unless true message = raised message
unless false message = value tt

-- job_params[name]
abbrev pub required {ℓ} : {A : Type ℓ} → String → Option A → Try A
required name none = raised name
required name (some a) = value a

-- What a handler passes to `ingest_content`.
pub record Content : Type 0 where
  pub model : RagModel
  pub text : Text
  pub source_identifier : String
  pub content_type : String
  pub source_url : String

-- select(RagModel).where(id).scalar_one()
abbrev pub load_model : (ℕ → Option RagModel) → ℕ → Try RagModel
load_model models model_id = required "No row was found when one was required" (models model_id)

abbrev pub get_response : Fetched → Try Response
get_response (error message) = raised message
get_response (response resp) = value resp

abbrev pub with_content : String → IngestionSource → Option Text → Try (IngestionSource × Text)
with_content ident src none = raised ("No raw_content found for source " +s ident)
with_content ident src (some text) =
    if is_empty text
    then raised ("No raw_content found for source " +s ident)
    else value (src, text)

-- the content of a source that the job needs
abbrev pub raw_content_of : String → Option IngestionSource → Try (IngestionSource × Text)
raw_content_of ident none = raised ("No raw_content found for source " +s ident)
raw_content_of ident (some src) = with_content ident src src.raw_content

module _ (sha256 : Text → String) (client : Client) (models : ℕ → Option RagModel) where
  -- An exception of `ingest_content` comes from the embedding client; its message is not modelled.
  abbrev pub message_of : Outcome IngestResult → Option String
  message_of (ok _) = none
  message_of raise = some "embedding failed"

  -- the call of `ingest_content` that ends a handler
  unfoldable pub ingest : Database → Try Content → Database × Option String
  ingest db (raised message) = (db, some message)
  ingest db (value c) =
      let done =
        ingest_content sha256 client db c.model c.text c.source_identifier c.content_type
          c.source_url in
      (done.0, message_of done.1)

  module _ (max_upload_size_mb : ℕ) (fetch_page : String → Fetched) (status_message : ℕ → String)
      (strip_html : Text → Text) where
    unfoldable pub url_content : IngestionJob → Try Content
    url_content job = do
      url ← required "url" job.job_params.url
      source_identifier ← required "source_identifier" job.job_params.source_identifier
      model ← load_model models job.model_id
      let max_bytes = max_upload_size_mb * 1024 * 1024
      resp ← get_response (fetch_page url)
      unless (not (is_success resp)) (status_message resp.status_code)
      unless (ltb max_bytes resp.content_length)
          ("Response too large: " +s (decimal_str resp.content_length +s " bytes"))
      unless (ltb max_bytes resp.size)
          ("Response body too large: " +s (decimal_str resp.size +s " bytes"))
      let html = contains_html (codes resp.content_type)
      value (record {
        model = model;
        text = if html then strip_html resp.text else resp.text;
        source_identifier = source_identifier;
        content_type = if html then "html" else "text";
        source_url = url;
      })

    unfoldable pub handle_url_job : IngestionJob → Database → Database × Option String
    unfolding url_content ingest
    handle_url_job job db = ingest db (url_content job)

  unfoldable pub file_content : IngestionJob → Database → Try Content
  file_content job db = do
    source_identifier ← required "source_identifier" job.job_params.source_identifier
    content_type ← required "content_type" job.job_params.content_type
    model ← load_model models job.model_id
    found ← raw_content_of source_identifier (find_source db job.model_id source_identifier)
    value (record {
      model = model;
      text = found.1;
      source_identifier = source_identifier;
      content_type = content_type;
      source_url = found.0.source_url;
    })

  unfoldable pub handle_file_job : IngestionJob → Database → Database × Option String
  unfolding file_content ingest
  handle_file_job job db = ingest db (file_content job db)

  module _ (download_object : String → Try (List ℕ))
      (extract_text : String → List ℕ → Try (Text × String)) where
    unfoldable pub r2_content : IngestionJob → Try Content
    r2_content job = do
      object_key ← required "object_key" job.job_params.object_key
      filename ← required "filename" job.job_params.filename
      raw ← download_object object_key
      extracted ← extract_text filename raw
      model ← load_model models job.model_id
      value (record {
        model = model;
        text = extracted.0;
        source_identifier = filename;
        content_type = extracted.1;
        source_url = "";
      })

    -- the object that is deleted: the job's, if nothing was raised
    abbrev pub deleted_object : Option String → Option String → Option String
    deleted_object (some message) object_key = none
    deleted_object none object_key = object_key

    -- With the key of the object that is deleted from the store; a failure to delete it is only logged.
    unfoldable pub handle_r2_file_job :
        IngestionJob → Database → (Database × Option String) × Option String
    unfolding r2_content ingest
    handle_r2_file_job job db =
        let done = ingest db (r2_content job) in
        (done, deleted_object done.1 job.job_params.object_key)

-- The local variables of the loop over the items of a crawl.
pub record Progress : Type 0 where
  pub db : Database
  pub page_count : ℕ
  pub seed_reason : Option Reason
  pub seed_detail : Option String

abbrev pub or_default : ℕ → Option ℕ → ℕ
or_default n none = n
or_default n (some m) = m

abbrev or_empty : Option (List String) → List String
or_empty none = []
or_empty (some patterns) = patterns

-- the arguments of `crawl_site`, with the defaults of the missing parameters
abbrev pub crawl_settings : String → JobParams → Settings
crawl_settings url params = record {
  root_url = url;
  max_pages = or_default 50 params.max_pages;
  max_depth = or_default 3 params.max_depth;
  prefix = params.prefix;
  exclude_patterns = or_empty params.exclude_patterns;
}

-- the columns of an existing row that a failed page sets
abbrev pub fail_page : Bool → String → IngestionSource → IngestionSource
fail_page is_seed message s =
    if is_seed
    then record s {
      status = failed;
      status_detail = some (explain_empty_crawl (some fetch_failed) (some message));
    }
    else record s { status = failed }

-- one item of the crawl
unfoldable pub take_item : ℕ → IngestionJob → String → Progress → Item → Progress
take_item now job seed_url p (failed_page url message) =
    let is_seed = str_eq url seed_url in
    record p {
      db = modify_source p.db job.model_id url (fail_page is_seed message);
      seed_reason = if is_seed then some fetch_failed else p.seed_reason;
      seed_detail = if is_seed then some message else p.seed_detail;
    }
take_item now job seed_url p (skipped_page url reason detail) =
    let is_seed = str_eq url seed_url in
    record p {
      seed_reason = if is_seed then some reason else p.seed_reason;
      seed_detail = if is_seed then some detail else p.seed_detail;
    }
take_item now job seed_url p (crawled_page url text) = record p {
  db = queue_file p.db now job.model_id url "html" text url (some job.id);
  page_count = suc p.page_count;
}

unfoldable pub take_items : ℕ → IngestionJob → String → Progress → List Item → Progress
unfolding take_item
take_items now job seed_url p [] = p
take_items now job seed_url p (item ∷ items) =
    take_items now job seed_url (take_item now job seed_url p item) items

-- the root's row, if it is still crawling
abbrev pub settle_root : Progress → IngestionSource → IngestionSource
settle_root p s =
    if is_crawling s.status
    then (if ltb 0 p.page_count
        then record s { status = complete; status_detail = none }
        else record s {
          status = failed;
          status_detail = some (explain_empty_crawl p.seed_reason p.seed_detail);
        })
    else s

module _ (crawl_site : Settings → List Item) where
  unfoldable pub crawl_pages : ℕ → IngestionJob → String → Database → Progress
  unfolding take_items
  crawl_pages now job url db =
      take_items now job url
        (record { db = db; page_count = 0; seed_reason = none; seed_detail = none })
        (crawl_site (crawl_settings url job.job_params))

  abbrev crawled : ℕ → IngestionJob → Database → Try String → Database × Option String
  crawled now job db (raised message) = (db, some message)
  crawled now job db (value url) =
      let p = crawl_pages now job url db in
      (modify_source p.db job.model_id url (settle_root p), none)

  unfoldable pub handle_crawl_job : ℕ → IngestionJob → Database → Database × Option String
  unfolding crawl_pages
  handle_crawl_job now job db = crawled now job db (required "url" job.job_params.url)
