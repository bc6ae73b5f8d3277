-- ===== src/Worker/Tests.antt =====
-- Runs of the job queue.
use ragr.Prelude.{
  leb, ◌==◌, if◌then◌else◌, length, All, ℕ, ◌≤◌, String, ◌≡◌, refl, Bool, false, ◌&&◌, Option, none,
  some, List, [], ◌∷◌, ◌++◌, map, arith, str_eq,
}
use ragr.Models.Source.{IngestionSource, pending}
use ragr.Models.Job.{running, no_params, IngestionJob}
use ragr.Models.Job.{pending as job_pending, failed as job_failed}
use ragr.Ingest.Db.{Database, find_source, map_option}
use ragr.Text.{Text, codes}
use ragr.Models.{RagModel}
use ragr.Samples.{model}
use ragr.Chunker.{chunk_text}
use ragr.Embedder.{Client}
use ragr.Embedder.Batches.{separately}
use ragr.Ingest.{hash_input}
use ragr.Ingest.Queueing.{queue_file}
use ragr.Ingest.Replace.{IsOwned, stored, fresh_entries}
use ragr.Worker.Handling.{handle_file_job}
use ragr.Worker.Jobs.{hash_of, file_job, queue_file-handle_file_job}
use ragr.Worker.Attempts.{claim, recover, none_yet, and_then, Steps, IsOrderly}
use ragr.Worker.Tries.{tries, steps-tries}
use ragr.Worker.Stranded.{recover_stale_jobs-strands}
use ragr.Worker.{
  Handlers, handler_for, is_among, claim_jobs, recover_stale_jobs, process_job, claimed,
}
use ragr.Worker.Queue.{claim_jobs-disjoint}
use ragr.Worker.Stale.{recovered, recover_stale_jobs-eq}
use ragr.Worker.Outcomes.{
  HasStatus, settled, raised, names_source, set_failed, process_job-HasStatus,
  process_job-fails_source,
}

abbrev job : ℕ → ℕ → IngestionJob
job id created_at = record {
  id = id;
  model_id = 1;
  job_type = "url";
  job_params = record no_params { url = some "https://ragr.dev" };
  status = job_pending;
  attempts = 0;
  max_attempts = 3;
  error = none;
  claimed_at = none;
  created_at = created_at;
  completed_at = none;
}

abbrev last_try : IngestionJob
last_try = record (job 3 40) { status = running; attempts = 3; claimed_at = some 1000 }

abbrev source : IngestionSource
source = record {
  id = 4;
  model_id = 1;
  source_identifier = "https://ragr.dev";
  content_hash = "";
  chunk_count = 0;
  source_url = "https://ragr.dev";
  content_type = "html";
  status = pending;
  embedding_cost = 0;
  raw_content = none;
  status_detail = none;
}

abbrev queue : Database
queue = record {
  sources = source ∷ [];
  chunks = [];
  jobs = job 1 60 ∷ job 2 50 ∷ last_try ∷ [];
  next_id = 5;
}

abbrev unlocked : ℕ → Bool
unlocked _ = false

abbrev ids : List IngestionJob → List ℕ
ids = map (λ j. j.id)

-- The oldest first; what another worker has locked is skipped.
claims :
    (ids (claim_jobs queue unlocked 100 1).1 ≡ 2 ∷ [])
    × ((ids (claim_jobs queue unlocked 100 9).1 ≡ 2 ∷ 1 ∷ [])
        × (ids (claim_jobs queue (λ id. id == 2) 100 9).1 ≡ 1 ∷ []))
unfolding claim_jobs
claims = (refl, (refl, refl))

claim_jobs-disjoint_example :
    let first = claim_jobs queue unlocked 100 1 in
    All (λ j. is_among first.1 j ≡ false) (claim_jobs first.0 unlocked 101 9).1
claim_jobs-disjoint_example = claim_jobs-disjoint queue unlocked unlocked 100 101 1 9

recover_stale_jobs-eq_example :
    (recover_stale_jobs queue 2000 10 30).jobs ≡ map (recovered 2000 10 30) queue.jobs
recover_stale_jobs-eq_example = recover_stale_jobs-eq queue 2000 10 30

-- A URL that cannot be fetched; every other job succeeds.
abbrev handlers : Handlers
handlers = record {
  url = λ j db. (db, some "404 Not Found");
  file = λ j db. (db, none);
  r2_file = λ j db. (db, none);
  crawl = λ j db. (db, none);
}

process_job-HasStatus_example :
    HasStatus
      (process_job handlers 1100 queue last_try)
      3
      (elim (handler_for handlers last_try.job_type) [
        | none ↦ job_failed
        | some handler ↦ settled last_try (handler last_try queue).1
      ])
process_job-HasStatus_example = process_job-HasStatus handlers 1100 queue last_try

process_job-fails_source_example :
    find_source (process_job handlers 1100 queue last_try) 1 "https://ragr.dev" ≡ (
      if raised (some "404 Not Found") && (leb 3 3 && names_source last_try 1 "https://ragr.dev")
      then map_option set_failed (find_source queue 1 "https://ragr.dev")
      else find_source queue 1 "https://ragr.dev")
process_job-fails_source_example =
    process_job-fails_source handlers 1100 queue last_try 1 "https://ragr.dev"

queue-IsOrderly : IsOrderly queue
queue-IsOrderly = (
  ((refl, (refl, tt)), ((refl, tt), (tt, tt))),
  (
    (omega arith, (omega arith, (omega arith, tt))),
    (omega arith, (omega arith, (omega arith, tt))),
  ),
)

abbrev run : Steps queue (recover_stale_jobs (claim_jobs queue unlocked 100 2).0 5000 10 30)
run = and_then (and_then none_yet (claim unlocked 100 2)) (recover 5000 10 30)

steps-tries_example :
    let after = recover_stale_jobs (claim_jobs queue unlocked 100 2).0 5000 10 30 in
    IsOrderly after × All (λ (j : IngestionJob). tries j.id run ≤ j.max_attempts) after.jobs
steps-tries_example = steps-tries run queue-IsOrderly

abbrev reset_queue : Database
reset_queue = recover_stale_jobs queue 2000 10 30

abbrev claimed_later : Steps reset_queue (claim_jobs reset_queue unlocked 2100 9).0
claimed_later = and_then none_yet (claim unlocked 2100 9)

recover_stale_jobs-strands_example :
    (reset_queue.jobs
      ≡ map (recovered 2000 10 30) (job 1 60 ∷ job 2 50 ∷ [])
        ++ (record last_try { status = job_pending; claimed_at = none })
          ∷ map (recovered 2000 10 30) [])
    × (tries 3 claimed_later ≡ 0)
recover_stale_jobs-strands_example =
    recover_stale_jobs-strands queue (claim_jobs reset_queue unlocked 2100 9).0 2000 10 30
      (job 1 60 ∷ job 2 50 ∷ []) [] last_try refl queue-IsOrderly refl refl refl claimed_later

abbrev models : ℕ → Option RagModel
models id = if id == 1 then some model else none

abbrev sha256 : Text → String
sha256 _ = "digest"

abbrev client : Client
client key ts m = some (separately (λ t. t) length ts)

abbrev page : Text
page = codes "Answers from your own documents."

queue-IsOwned : IsOwned queue
queue-IsOwned = tt

unhashed :
    str_eq (hash_of (find_source queue 1 "intro.md")) (sha256 (hash_input page model)) ≡ false
unfolding find_source
unhashed = refl

queue_file-handle_file_job_example :
    let queued = queue_file queue 200 1 "intro.md" "markdown" page "" none in
    let job' = file_job queue 200 1 "intro.md" "markdown" none in
    let done = handle_file_job sha256 client models (claimed 300 job') queued in
    (queued.jobs ≡ queue.jobs ++ job' ∷ [])
    × ((done.1 ≡ none)
        × ((stored done.0 1 "intro.md"
              ≡ fresh_entries (λ t. t) (chunk_text page model.chunk_size model.chunk_overlap))
            × (stored done.0 2 "intro.md" ≡ [])))
queue_file-handle_file_job_example =
    queue_file-handle_file_job sha256 client models (λ t. t) length queue 200 model "intro.md"
      "markdown" page "" none queue-IsOwned refl refl unhashed (λ ts h. refl) 300 2 "intro.md" refl
