-- ===== src/Worker.antt =====
-- app/worker.py: the job queue and the processing of one job. Times are in seconds. Rows that another
-- worker holds locked are skipped; `locked` says which they are. The handlers are an interface, so that
-- the dispatcher does not depend on what a handler does.
pub mod Queue
pub mod Stale
pub mod Outcomes
pub mod Handling
pub mod Jobs
pub mod Attempts
pub mod Tries
pub mod Stranded
mod Tests
use ragr.Prelude.{
  ltb, leb, ◌==◌, if◌then◌else◌, ltb→lt, leb→le, ==_iff, Bool-cases, Option-cases, length, take,
  drop, get_elem?, filter, get_last?, get_last?-concat, any, all, length-append, length-take,
  length-drop, take-append-drop, filter-append, length-filter-le, length-map, All, All-append,
  All-filter, All-take, All-map, ℕ, zero, suc, ◌+◌, ◌-◌, ◌*◌, ◌/◌, ◌%◌, ◌^◌, ◌≤◌, ◌<◌, min, max,
  String, ◌≡◌, refl, sym, ap, ap₂, ◌∙◌, fun_ext, subst, ◌≢◌, ◌↔◌, ◌⊎◌, inl, inr, Bool, true, false,
  ◌&&◌, ◌||◌, not, Option, none, some, List, [], ◌∷◌, ◌++◌, map, append_assoc, append-nil,
  map-append, arith, str_eq, eq_iff, eq_refl,
}
use ragr.Models.Source.{failed}
use ragr.Models.Job.{
  JobStatus, pending, running, complete, is_pending, is_running, JobParams, IngestionJob,
}
use ragr.Models.Job.{failed as job_failed}
use Prim.Native.String.{◌++◌ as str_append}
use ragr.Ingest.Db.{Database, modify_source}

-- UPDATE ingestion_jobs WHERE ...
abbrev pub update_jobs : (IngestionJob → Bool) → (IngestionJob → IngestionJob) → Database → Database
update_jobs p f db = record db { jobs = map (λ job. if p job then f job else job) db.jobs }

-- status is pending, and attempts are left
abbrev pub is_claimable : (ℕ → Bool) → IngestionJob → Bool
is_claimable locked job =
    is_pending job.status && (ltb job.attempts job.max_attempts && not (locked job.id))

abbrev pub insert : IngestionJob → List IngestionJob → List IngestionJob
insert job [] = job ∷ []
insert job (other ∷ jobs) =
    let rest = insert job jobs in
    if leb job.created_at other.created_at then job ∷ other ∷ jobs else other ∷ rest

-- ORDER BY created_at
abbrev pub order_by_created_at : List IngestionJob → List IngestionJob
order_by_created_at [] = []
order_by_created_at (job ∷ jobs) = insert job (order_by_created_at jobs)

abbrev pub selected : Database → (ℕ → Bool) → ℕ → List IngestionJob
selected db locked limit = take limit (order_by_created_at (filter (is_claimable locked) db.jobs))

abbrev pub claimed : ℕ → IngestionJob → IngestionJob
claimed now job = record job {
  status = running;
  attempts = suc job.attempts;
  claimed_at = some now;
}

-- whether a job has the id of one of these
abbrev pub is_among : List IngestionJob → IngestionJob → Bool
is_among jobs job = any (λ (j : IngestionJob). j.id == job.id) jobs

unfoldable pub claim_jobs : Database → (ℕ → Bool) → ℕ → ℕ → Database × List IngestionJob
claim_jobs db locked now limit =
    let jobs = selected db locked limit in
    (update_jobs (is_among jobs) (claimed now) db, map (claimed now) jobs)

unfoldable pub mark_complete : Database → ℕ → ℕ → Database
mark_complete db now job_id =
    update_jobs (λ job. job.id == job_id)
      (λ job. record job { status = complete; completed_at = some now }) db

unfoldable pub mark_failed : Database → ℕ → ℕ → String → ℕ → ℕ → Database
mark_failed db now job_id error attempts max_attempts =
    let exhausted = leb max_attempts attempts in
    update_jobs (λ job. job.id == job_id)
      (λ job. record job {
        status = if exhausted then job_failed else pending;
        error = some error;
        completed_at = if exhausted then some now else none;
      })
      db

-- `_mark_source_failed`
unfoldable pub mark_source_failed : Database → ℕ → String → Database
mark_source_failed db model_id source_identifier =
    modify_source db model_id source_identifier (λ s. record s { status = failed })

abbrev pub is_crawl : IngestionJob → Bool
is_crawl job = str_eq job.job_type "crawl"

-- claimed before the cutoff; NULL is not
abbrev pub claimed_before : Option ℕ → ℕ → Bool
claimed_before none cutoff = false
claimed_before (some t) cutoff = ltb t cutoff

abbrev pub reset : IngestionJob → IngestionJob
reset job = record job { status = pending; claimed_at = none }

-- The timeouts are the settings `worker_stale_job_timeout_minutes` and `worker_stale_crawl_timeout_minutes`.
unfoldable pub recover_stale_jobs : Database → ℕ → ℕ → ℕ → Database
recover_stale_jobs db now job_minutes crawl_minutes =
    update_jobs
      (λ job.
        is_running job.status
        && (is_crawl job && claimed_before job.claimed_at (now - crawl_minutes * 60)))
      reset
      (update_jobs
        (λ job.
          is_running job.status
          && (not (is_crawl job) && claimed_before job.claimed_at (now - job_minutes * 60)))
        reset db)

-- `_HANDLERS`. A handler leaves a database, and the message of the exception that it raised, if any.
pub record Handlers : Type 0 where
  pub url : IngestionJob → Database → Database × Option String
  pub file : IngestionJob → Database → Database × Option String
  pub r2_file : IngestionJob → Database → Database × Option String
  pub crawl : IngestionJob → Database → Database × Option String

-- `_HANDLERS.get`
abbrev pub handler_for :
    Handlers → String → Option (IngestionJob → Database → Database × Option String)
handler_for handlers job_type =
    if str_eq job_type "url"
    then some handlers.url
    else if str_eq job_type "file"
    then some handlers.file
    else if str_eq job_type "r2_file"
    then some handlers.r2_file
    else if str_eq job_type "crawl"
    then some handlers.crawl
    else none

-- `a or b`: an empty string is false too
abbrev pub or_else : Option String → Option String → Option String
or_else none b = b
or_else (some a) b = if str_eq a "" then b else some a

abbrev pub source_of : JobParams → Option String
source_of params = or_else params.source_identifier (or_else params.filename params.url)

-- `if source_id: await _mark_source_failed(...)`
abbrev pub fail_source : Database → ℕ → Option String → Database
fail_source db model_id none = db
fail_source db model_id (some ident) =
    if str_eq ident "" then db else mark_source_failed db model_id ident

abbrev pub finish : IngestionJob → ℕ → Database → Option String → Database
finish job now db none = mark_complete db now job.id
finish job now db (some error) =
    let db' = mark_failed db now job.id error job.attempts job.max_attempts in
    if leb job.max_attempts job.attempts
    then fail_source db' job.model_id (source_of job.job_params)
    else db'

-- An unknown type fails the job for good.
abbrev pub dispatch :
    Option (IngestionJob → Database → Database × Option String)
    → ℕ
    → Database
    → IngestionJob
    → Database
dispatch none now db job =
    mark_failed db now job.id (str_append "Unknown job type: " job.job_type) job.max_attempts
      job.max_attempts
dispatch (some handler) now db job = let done = handler job db in finish job now done.0 done.1

unfoldable pub process_job : Handlers → ℕ → Database → IngestionJob → Database
process_job handlers now db job = dispatch (handler_for handlers job.job_type) now db job
