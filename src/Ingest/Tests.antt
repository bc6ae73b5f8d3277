-- ===== src/Ingest/Tests.antt =====
-- Runs of the ingestion.
use ragr.Prelude.{leb, if◌then◌else◌, length, String, ◌≡◌, refl, true, false, none, some, [], ◌∷◌}
use ragr.Text.{Text, codes, decimal, is_space, is_break, lstrip, rstrip_by, strip, join, splitlines}
use ragr.Samples.{model}
use ragr.Models.{ContentChunk}
use ragr.Models.Source.{IngestionSource, pending, crawling, failed, complete}
use ragr.Chunker.{chunk_text}
use ragr.Chunker.Blocks.{parse_blocks}
use ragr.Chunker.Split.{ends_sentence, last_break, enforce_max_size}
use ragr.Chunker.Merge.{merge_into_chunks, overlap_tail}
use ragr.Budget.{estimate_embedding_cost}
use ragr.Embedder.{Client, embed_texts}
use ragr.Embedder.Batches.{separately}
use ragr.Ingest.{ok, hash_input, no_chunks, up_to_date, ingest_content}
use ragr.Ingest.Db.{Database, find_source}
use ragr.Ingest.Queueing.{Keeps, queue_url, queue_file, queue_r2_file, queue_crawl, queueing-Keeps}
use ragr.Ingest.Owned.{ingest_content-IsOwned}
use ragr.Ingest.Replace.{IsOwned, stored, fresh_entries, replaced_result, ingest_content-replaces}
use ragr.Ingest.Repeat.{IsRow, ingest_content-idempotent, ingest_content_of_no_text}

abbrev client : Client
client key ts m = some (separately (λ t. t) length ts)

abbrev sha256 : Text → String
sha256 t = if leb (length t) 80 then "short" else "long"

abbrev empty_db : Database
empty_db = record { sources = []; chunks = []; jobs = []; next_id = 1 }

abbrev page : Text
page = codes "# Ragr\n\nAnswers from your own documents."

ingested : Database
ingested = (ingest_content sha256 client empty_db model page "intro.md" "markdown" "").0

text_methods : Unit {0}
unfolding is_space is_break lstrip rstrip_by strip join splitlines ends_sentence
text_methods = tt

has_chunks : no_chunks (chunk_text page model.chunk_size model.chunk_overlap) ≡ false
unfolding chunk_text parse_blocks enforce_max_size merge_into_chunks overlap_tail last_break
    text_methods
has_chunks = refl

first_run :
    ingest_content sha256 client empty_db model page "intro.md" "markdown" ""
    ≡ (ingested, ok (record { chunk_count = 1; skipped = false; embedding_cost = 80 }))
unfolding ingested ingest_content chunk_text parse_blocks enforce_max_size merge_into_chunks
    overlap_tail last_break text_methods embed_texts find_source estimate_embedding_cost
first_run = refl

ingest_content-idempotent_example :
    ingest_content sha256 client ingested model page "intro.md" "markdown" ""
    ≡ (ingested, ok (record { chunk_count = 1; skipped = true; embedding_cost = 0 }))
ingest_content-idempotent_example =
    ingest_content-idempotent sha256 client empty_db model page "intro.md" "markdown" "" ingested
      (record { chunk_count = 1; skipped = false; embedding_cost = 80 }) has_chunks first_run

blank : no_chunks (chunk_text (codes " \n") model.chunk_size model.chunk_overlap) ≡ true
unfolding chunk_text parse_blocks enforce_max_size merge_into_chunks overlap_tail last_break
    text_methods
blank = refl

unknown :
    up_to_date (find_source empty_db model.id "app.html") (sha256 (hash_input (codes " \n") model))
    ≡ false
unfolding find_source
unknown = refl

ingest_content_of_no_text_example :
    let once = (ingest_content sha256 client empty_db model (codes " \n") "app.html" "html" "").0 in
    let twice = ingest_content sha256 client once model (codes " \n") "app.html" "html" "" in
    IsRow (find_source once model.id "app.html") (sha256 (hash_input (codes " \n") model)) failed 0
    × ((twice.1 ≡ ok (record { chunk_count = 0; skipped = true; embedding_cost = 0 }))
        × IsRow
            (find_source twice.0 model.id "app.html")
            (sha256 (hash_input (codes " \n") model))
            complete
            0)
ingest_content_of_no_text_example =
    ingest_content_of_no_text sha256 client empty_db model (codes " \n") "app.html" "html" "" blank
      unknown

abbrev known : IngestionSource
known = record {
  id = 4;
  model_id = 1;
  source_identifier = "intro.md";
  content_hash = "short";
  chunk_count = 7;
  source_url = "";
  content_type = "markdown";
  status = complete;
  embedding_cost = 80;
  raw_content = some page;
  status_detail = none;
}

abbrev known_db : Database
known_db = record { sources = known ∷ []; chunks = []; jobs = []; next_id = 5 }

is_known : find_source known_db 1 "intro.md" ≡ some known
unfolding find_source
is_known = refl

queueing-Keeps_example :
    Keeps known (queue_url known_db 9 1 "intro.md" "https://ragr.dev") 1 "intro.md" pending
    × (Keeps known
          (queue_file known_db 9 1 "intro.md" "text" page "https://ragr.dev" none)
          1
          "intro.md"
          pending
        × (Keeps known (queue_r2_file known_db 9 1 "intro.md" "uploads/1") 1 "intro.md" pending
            × Keeps known
                (queue_crawl known_db 9 1 "intro.md" 50 3 none none)
                1
                "intro.md"
                crawling))
queueing-Keeps_example =
    queueing-Keeps known_db 9 1 "intro.md" known is_known "https://ragr.dev" "text" "uploads/1" page
      none 50 3 none none

abbrev old_chunk : ContentChunk
old_chunk = record {
  id = 2;
  model_id = 1;
  content = codes "Old";
  embedding = [];
  source_url = "";
  source_identifier = "intro.md";
  content_type = "markdown";
  metadata = record { heading_path = []; start_offset = 0; end_offset = 3 };
  position = 0;
}

abbrev stale_db : Database
stale_db = record {
  sources = record known { content_hash = "old" } ∷ [];
  chunks = old_chunk ∷ [];
  jobs = [];
  next_id = 5;
}

stale_db-IsOwned : IsOwned stale_db
unfolding find_source
stale_db-IsOwned = (refl, tt)

stale :
    up_to_date (find_source stale_db model.id "intro.md") (sha256 (hash_input page model)) ≡ false
unfolding find_source hash_input decimal
stale = refl

ingest_content-replaces_example :
    let done = ingest_content sha256 client stale_db model page "intro.md" "markdown" "" in
    (done.1
      ≡ ok (
          replaced_result sha256 client
            (λ t. t)
            length
            stale_db
            model
            page
            "intro.md"
            "markdown"
            ""))
    × ((stored done.0 model.id "intro.md"
          ≡ fresh_entries (λ t. t) (chunk_text page model.chunk_size model.chunk_overlap))
        × (stored done.0 2 "intro.md" ≡ stored stale_db 2 "intro.md"))
ingest_content-replaces_example =
    ingest_content-replaces sha256 client (λ t. t) length stale_db model page "intro.md" "markdown"
      "" stale_db-IsOwned stale (λ ts h. refl) 2 "intro.md" refl

ingest_content-IsOwned_example :
    IsOwned (ingest_content sha256 client stale_db model page "intro.md" "markdown" "").0
ingest_content-IsOwned_example =
    ingest_content-IsOwned sha256 client stale_db model page "intro.md" "markdown" ""
      stale_db-IsOwned
