-- ===== src/Ingest/Queueing.antt =====
-- app/services/ingest.py: the functions that queue a source, and what they leave of an earlier ingestion.
use ragr.Prelude.{
  ◌==◌, Option-cases, ℕ, suc, String, ◌≡◌, refl, ◌∙◌, inl, inr, false, ◌&&◌, Option, none, some,
  List, [], ◌∷◌, ◌++◌, arith, str_eq, eq_refl,
}
use ragr.Text.{Text}
use ragr.Models.Source.{SourceStatus, pending, crawling, IngestionSource}
use ragr.Models.Job.{JobParams, no_params}
use ragr.Models.Job.{pending as job_pending}
use ragr.Ingest.Db.{Database, find_source, upsert_source, find_source-upsert_source}

-- the updates of the conflict clause
abbrev pub refresh : IngestionSource → IngestionSource → IngestionSource
refresh old new = elim new.raw_content [
  | none ↦ record old { status = new.status }
  | some _ ↦ record old { status = new.status; raw_content = new.raw_content }
]

abbrev pub pending_source :
    ℕ → ℕ → String → String → String → SourceStatus → Option Text → IngestionSource
pending_source id model_id source_identifier source_url content_type status raw_content = record {
  id = id;
  model_id = model_id;
  source_identifier = source_identifier;
  content_hash = "";
  chunk_count = 0;
  source_url = source_url;
  content_type = content_type;
  status = status;
  embedding_cost = 0;
  raw_content = raw_content;
  status_detail = none;
}

-- `_upsert_pending_source`
unfoldable pub upsert_pending_source :
    Database → ℕ → String → String → String → SourceStatus → Option Text → Database
upsert_pending_source db model_id source_identifier source_url content_type status raw_content =
    upsert_source db
      (pending_source db.next_id model_id source_identifier source_url content_type status
        raw_content)
      refresh

-- `_enqueue`, at the time `now`, with the defaults of the columns
unfoldable pub enqueue : Database → ℕ → ℕ → String → JobParams → Database
enqueue db now model_id job_type job_params = record db {
  jobs =
      db.jobs
      ++ (record {
        id = db.next_id;
        model_id = model_id;
        job_type = job_type;
        job_params = job_params;
        status = job_pending;
        attempts = 0;
        max_attempts = 3;
        error = none;
        claimed_at = none;
        created_at = now;
        completed_at = none;
      }
          ∷ []);
  next_id = suc db.next_id;
}

unfoldable pub queue_url : Database → ℕ → ℕ → String → String → Database
unfolding upsert_pending_source enqueue
queue_url db now model_id source_identifier url =
    enqueue (upsert_pending_source db model_id source_identifier url "html" pending none) now
      model_id "url"
      (record no_params { url = some url; source_identifier = some source_identifier })

unfoldable pub queue_file : Database → ℕ → ℕ → String → String → Text → String → Option ℕ → Database
unfolding upsert_pending_source enqueue
queue_file db now model_id source_identifier content_type text source_url parent_job_id =
    enqueue
      (upsert_pending_source db model_id source_identifier source_url content_type pending
        (some text))
      now model_id "file"
      (record no_params {
        source_identifier = some source_identifier;
        content_type = some content_type;
        parent_job_id = parent_job_id;
      })

unfoldable pub queue_r2_file : Database → ℕ → ℕ → String → String → Database
unfolding upsert_pending_source enqueue
queue_r2_file db now model_id filename object_key =
    enqueue (upsert_pending_source db model_id filename "" "pending" pending none) now model_id
      "r2_file" (record no_params { object_key = some object_key; filename = some filename })

unfoldable pub queue_crawl :
    Database → ℕ → ℕ → String → ℕ → ℕ → Option String → Option (List String) → Database
unfolding upsert_pending_source enqueue
queue_crawl db now model_id root_url max_pages max_depth prefix exclude_patterns =
    enqueue (upsert_pending_source db model_id root_url root_url "html" crawling none) now model_id
      "crawl"
      (record no_params {
        url = some root_url;
        max_pages = some max_pages;
        max_depth = some max_depth;
        prefix = prefix;
        exclude_patterns = exclude_patterns;
      })

-- The source under a key keeps the hash, the chunk count and the cost of the row `s`, and has the given
-- status.
pub record Keeps (s : IngestionSource) (db' : Database) (model_id : ℕ) (ident : String)
    (status : SourceStatus) : Type 0 where
  pub row : IngestionSource
  pub found : find_source db' model_id ident ≡ some row
  pub same_hash : row.content_hash ≡ s.content_hash
  pub same_count : row.chunk_count ≡ s.chunk_count
  pub same_cost : row.embedding_cost ≡ s.embedding_cost
  pub has_status : row.status ≡ status

pub refresh-keeps_key :
    (s new : IngestionSource)
    → ((refresh s new).model_id ≡ s.model_id)
      × ((refresh s new).source_identifier ≡ s.source_identifier)
refresh-keeps_key s new = elim (Option-cases new.raw_content) [
  | inl e ↦ rw e (refl, refl)
  | inr (_, e) ↦ rw e (refl, refl)
]

pub refresh-keeps_ingest :
    (s new : IngestionSource)
    → ((refresh s new).content_hash ≡ s.content_hash)
      × (((refresh s new).chunk_count ≡ s.chunk_count)
          × (((refresh s new).embedding_cost ≡ s.embedding_cost)
              × ((refresh s new).status ≡ new.status)))
refresh-keeps_ingest s new = elim (Option-cases new.raw_content) [
  | inl e ↦ rw e (refl, (refl, (refl, refl)))
  | inr (_, e) ↦ rw e (refl, (refl, (refl, refl)))
]

upsert_pending_source-Keeps :
    (db : Database) (model_id : ℕ) (ident url ctype : String) (status : SourceStatus)
    (raw : Option Text) (s : IngestionSource)
    → find_source db model_id ident ≡ some s
    → Keeps s (upsert_pending_source db model_id ident url ctype status raw) model_id ident status
unfolding upsert_pending_source
upsert_pending_source-Keeps db model_id ident url ctype status raw s found =
    let new = pending_source db.next_id model_id ident url ctype status raw in
    let same = refresh-keeps_ingest s new in
    record {
      row = refresh s new;
      found = ground (
        arith,
        find_source-upsert_source db new refresh model_id ident (λ t. refresh-keeps_key t new),
        eq_refl ident,
        found,
      );
      same_hash = same.0;
      same_count = same.1.0;
      same_cost = same.1.1.0;
      has_status = same.1.1.1;
    }

pub upsert_pending_source-other :
    (db : Database) (model_id : ℕ) (ident url ctype : String) (status : SourceStatus)
    (raw : Option Text) (n : ℕ) (j : String)
    → (model_id == n && str_eq ident j) ≡ false
    → find_source (upsert_pending_source db model_id ident url ctype status raw) n j
      ≡ find_source db n j
unfolding upsert_pending_source
upsert_pending_source-other db model_id ident url ctype status raw n j other =
    let new = pending_source db.next_id model_id ident url ctype status raw in
    ground
      (arith, find_source-upsert_source db new refresh n j (λ t. refresh-keeps_key t new), other)

pub enqueue-find_source :
    (db : Database) (now model_id : ℕ) (job_type : String) (params : JobParams) (n : ℕ) (j : String)
    → find_source (enqueue db now model_id job_type params) n j ≡ find_source db n j
unfolding find_source enqueue
enqueue-find_source db now model_id job_type params n j = refl

enqueue-Keeps :
    (db : Database) (now m : ℕ) (job_type : String) (params : JobParams) (s : IngestionSource)
    (model_id : ℕ) (ident : String) (status : SourceStatus)
    → Keeps s db model_id ident status
    → Keeps s (enqueue db now m job_type params) model_id ident status
enqueue-Keeps db now m job_type params s model_id ident status k = record {
  row = k.row;
  found = enqueue-find_source db now m job_type params model_id ident ∙ k.found;
  same_hash = k.same_hash;
  same_count = k.same_count;
  same_cost = k.same_cost;
  has_status = k.has_status;
}

-- Each way of queueing a source that is there keeps its content hash, chunk count and cost, which are
-- those of the last ingestion, and sets its status: to crawling for a crawl, to pending otherwise.
pub queueing-Keeps :
    (db : Database) (now m : ℕ) (ident : String) (s : IngestionSource)
    → find_source db m ident ≡ some s
    → (url ctype key : String) (text : Text) (parent : Option ℕ) (max_pages max_depth : ℕ)
      (prefix : Option String) (exclude : Option (List String))
    → Keeps s (queue_url db now m ident url) m ident pending
      × (Keeps s (queue_file db now m ident ctype text url parent) m ident pending
          × (Keeps s (queue_r2_file db now m ident key) m ident pending
              × Keeps s
                  (queue_crawl db now m ident max_pages max_depth prefix exclude)
                  m
                  ident
                  crawling))
unfolding queue_url queue_file queue_r2_file queue_crawl
queueing-Keeps db now m ident s found url ctype key text parent max_pages max_depth prefix exclude =
    (
      enqueue-Keeps _ now m _ _ s m ident pending
          (upsert_pending_source-Keeps db m ident url "html" pending none s found),
      (
        enqueue-Keeps _ now m _ _ s m ident pending
            (upsert_pending_source-Keeps db m ident url ctype pending (some text) s found),
        (
          enqueue-Keeps _ now m _ _ s m ident pending
              (upsert_pending_source-Keeps db m ident "" "pending" pending none s found),
          enqueue-Keeps _ now m _ _ s m ident crawling
              (upsert_pending_source-Keeps db m ident ident "html" crawling none s found),
        ),
      ),
    )

-- Queueing a source leaves the row of every other model or identifier as it is.
queueing-other :
    (db : Database) (now m : ℕ) (ident : String) (n : ℕ) (j : String)
    → (m == n && str_eq ident j) ≡ false
    → (url ctype key : String) (text : Text) (parent : Option ℕ) (max_pages max_depth : ℕ)
      (prefix : Option String) (exclude : Option (List String))
    → (find_source (queue_url db now m ident url) n j ≡ find_source db n j)
      × ((find_source (queue_file db now m ident ctype text url parent) n j ≡ find_source db n j)
          × ((find_source (queue_r2_file db now m ident key) n j ≡ find_source db n j)
              × (find_source (queue_crawl db now m ident max_pages max_depth prefix exclude) n j
                  ≡ find_source db n j)))
unfolding queue_url queue_file queue_r2_file queue_crawl
queueing-other db now m ident n j other url ctype key text parent max_pages max_depth prefix
      exclude =
    (
      enqueue-find_source _ now m _ _ n j
          ∙ upsert_pending_source-other db m ident url "html" pending none n j other,
      (
        enqueue-find_source _ now m _ _ n j
            ∙ upsert_pending_source-other db m ident url ctype pending (some text) n j other,
        (
          enqueue-find_source _ now m _ _ n j
              ∙ upsert_pending_source-other db m ident "" "pending" pending none n j other,
          enqueue-find_source _ now m _ _ n j
              ∙ upsert_pending_source-other db m ident ident "html" crawling none n j other,
        ),
      ),
    )
