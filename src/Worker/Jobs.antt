-- ===== src/Worker/Jobs.antt =====
-- A queued text comes out as chunks: `queue_file`, then `handle_file_job` on the job that it queued.
use ragr.Prelude.{
  ◌==◌, Option-cases, length, All-map, ℕ, suc, ◌≤◌, String, ◌≡◌, refl, ap, ◌∙◌, inl, inr, false,
  ◌&&◌, Option, none, some, List, [], ◌∷◌, ◌++◌, arith, str_eq, eq_refl,
}
use ragr.Text.{Text, is_empty}
use ragr.Models.{RagModel, ContentChunk, Embedding}
use ragr.Models.Source.{pending, IngestionSource}
use ragr.Models.Job.{no_params, IngestionJob}
use ragr.Models.Job.{pending as job_pending}
use ragr.Chunker.{chunk_text}
use ragr.Embedder.{Client, default_batch_size}
use ragr.Embedder.Batches.{separately}
use ragr.Ingest.{hash_input, up_to_date}
use ragr.Ingest.Db.{Database, find_source, upsert_source, find_source-upsert_source}
use ragr.Ingest.Queueing.{
  refresh, pending_source, refresh-keeps_key, upsert_pending_source, enqueue, enqueue-find_source,
  queue_file,
}
use ragr.Ingest.Replace.{IsOwned, entries, stored, fresh_entries, ingest_content-replaces}
use ragr.Ingest.Owned.{upsert-Has}
use ragr.Worker.{claimed}
use ragr.Worker.Handling.{
  value, Content, with_content, raw_content_of, file_content, ingest, message_of, handle_file_job,
}

-- The columns of the row that hold a text that is to be ingested.
abbrev content_of : IngestionSource → Option Text × String
content_of s = (s.raw_content, s.content_hash)

-- the hash that the last ingestion left
abbrev pub hash_of : Option IngestionSource → String
hash_of none = ""
hash_of (some s) = s.content_hash

refreshed_row :
    (db : Database) (now m : ℕ) (ident ctype : String) (text : Text) (url : String)
    (parent : Option ℕ)
    → (s : IngestionSource) × ((find_source
            (queue_file db now m ident ctype text url parent)
            m
            ident
          ≡ some s)
        × (content_of s ≡ (some text, hash_of (find_source db m ident))))
unfolding queue_file upsert_pending_source
refreshed_row db now m ident ctype text url parent =
    let new = pending_source db.next_id m ident url ctype pending (some text) in
    let row = find_source-upsert_source db new refresh m ident (λ t. refresh-keeps_key t new) in
    elim (Option-cases (find_source db m ident)) [
      | inl nowhere ↦ rw nowhere (
        new,
        (
          enqueue-find_source _ now m _ _ m ident ∙ ground (arith, row, nowhere, eq_refl ident),
          refl,
        ),
      )
      | inr (s, there) ↦ rw there (
        refresh s new,
        (enqueue-find_source _ now m _ _ m ident ∙ ground (arith, row, there, eq_refl ident), refl),
      )
    ]

queue_file-IsOwned :
    (db : Database) (now m : ℕ) (ident ctype : String) (text : Text) (url : String)
    (parent : Option ℕ)
    → IsOwned db
    → IsOwned (queue_file db now m ident ctype text url parent)
unfolding queue_file upsert_pending_source enqueue upsert_source find_source
queue_file-IsOwned db now m ident ctype text url parent owned =
    let new = pending_source db.next_id m ident url ctype pending (some text) in
    All-map
      (λ (c : ContentChunk) h.
        upsert-Has db new refresh c.model_id c.source_identifier (λ t. refresh-keeps_key t new) h)
      db.chunks owned

-- The job that `queue_file` adds.
abbrev pub file_job : Database → ℕ → ℕ → String → String → Option ℕ → IngestionJob
file_job db now m ident ctype parent = record {
  id = suc db.next_id;
  model_id = m;
  job_type = "file";
  job_params = record no_params {
    source_identifier = some ident;
    content_type = some ctype;
    parent_job_id = parent;
  };
  status = job_pending;
  attempts = 0;
  max_attempts = 3;
  error = none;
  claimed_at = none;
  created_at = now;
  completed_at = none;
}

queue_file-jobs :
    (db : Database) (now m : ℕ) (ident ctype : String) (text : Text) (url : String)
    (parent : Option ℕ)
    → (queue_file db now m ident ctype text url parent).jobs
      ≡ db.jobs ++ file_job db now m ident ctype parent ∷ []
unfolding queue_file upsert_pending_source enqueue upsert_source
queue_file-jobs db now m ident ctype text url parent = refl

queue_file-chunks :
    (db : Database) (now m : ℕ) (ident ctype : String) (text : Text) (url : String)
    (parent : Option ℕ)
    → (queue_file db now m ident ctype text url parent).chunks ≡ db.chunks
unfolding queue_file upsert_pending_source enqueue upsert_source
queue_file-chunks db now m ident ctype text url parent = refl

raw_content_of-some :
    (ident : String) (o : Option IngestionSource) (s : IngestionSource) (text : Text)
    → o ≡ some s
    → s.raw_content ≡ some text
    → is_empty text ≡ false
    → raw_content_of ident o ≡ value (s, text)
raw_content_of-some ident o s text found raw full =
    ap (raw_content_of ident) found ∙ (ap (with_content ident s) raw ∙ rw full refl)

module _ (sha256 : Text → String) (client : Client) (models : ℕ → Option RagModel)
    (vector : Text → Embedding) (cost : Text → ℕ) (db : Database) (now : ℕ) (model : RagModel)
    (ident ctype : String) (text : Text) (url : String) (parent : Option ℕ) where
  abbrev queued : Database
  queued = queue_file db now model.id ident ctype text url parent

  abbrev row : IngestionSource
  row = (refreshed_row db now model.id ident ctype text url parent).0

  row-found : find_source queued model.id ident ≡ some row
  row-found = (refreshed_row db now model.id ident ctype text url parent).1.0

  row-content : content_of row ≡ (some text, hash_of (find_source db model.id ident))
  row-content = (refreshed_row db now model.id ident ctype text url parent).1.1

  abbrev content : Content
  content = record {
    model = model;
    text = text;
    source_identifier = ident;
    content_type = ctype;
    source_url = row.source_url;
  }

  file_content-value :
      (later : ℕ)
      → models model.id ≡ some model
      → is_empty text ≡ false
      → file_content sha256 client models
          (claimed later (file_job db now model.id ident ctype parent))
          queued
        ≡ value content
  unfolding file_content
  file_content-value later there full =
      rw
        (
          there,
          raw_content_of-some ident (find_source queued model.id ident) row text row-found
              (ap (λ p. p.0) row-content) full,
        )
        refl

  same_hash :
      up_to_date (find_source queued model.id ident) (sha256 (hash_input text model))
      ≡ str_eq (hash_of (find_source db model.id ident)) (sha256 (hash_input text model))
  same_hash =
      rw row-found
        (ap (λ (p : Option Text × String). str_eq p.1 (sha256 (hash_input text model))) row-content)

  -- Every chunk has the row of its source, the model is there, the text is not empty and its hash is not
  -- the one that the last ingestion of the source left, and the embedding service embeds each text of a
  -- batch on its own. Then `queue_file` adds one job, and the file handler, run on this job as a worker
  -- has claimed it at any time, returns without an exception; the source's chunks are then exactly those
  -- of the queued text, with its vectors and positions, and those of every other source are as before
  -- the text was queued.
  pub queue_file-handle_file_job :
      IsOwned db
      → models model.id ≡ some model
      → is_empty text ≡ false
      → str_eq (hash_of (find_source db model.id ident)) (sha256 (hash_input text model)) ≡ false
      → ((ts : List Text)
          → length ts ≤ default_batch_size
          → client model.custom_voyage_key ts model.embedding_model
            ≡ some (separately vector cost ts))
      → (later n : ℕ) (j : String) → (model.id == n && str_eq ident j) ≡ false
      → let queued = queue_file db now model.id ident ctype text url parent in
        let job = file_job db now model.id ident ctype parent in
        let done = handle_file_job sha256 client models (claimed later job) queued in
        (queued.jobs ≡ db.jobs ++ job ∷ [])
        × ((done.1 ≡ none)
            × ((stored done.0 model.id ident
                  ≡ fresh_entries vector (chunk_text text model.chunk_size model.chunk_overlap))
                × (stored done.0 n j ≡ stored db n j)))
  unfolding handle_file_job ingest
  queue_file-handle_file_job owned there full changed embeds later n j other =
      let read = file_content-value later there full in
      let (returned, (same, others)) =
        ingest_content-replaces sha256 client vector cost queued model text ident ctype
          row.source_url (queue_file-IsOwned db now model.id ident ctype text url parent owned)
          (same_hash ∙ changed) embeds n j other in
      rw read (
        queue_file-jobs db now model.id ident ctype text url parent,
        (
          ap (message_of sha256 client models) returned,
          (
            same,
            others
                ∙ ap (entries n j) (queue_file-chunks db now model.id ident ctype text url parent),
          ),
        ),
      )
