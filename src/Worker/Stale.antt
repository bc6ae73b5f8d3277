-- ===== src/Worker/Stale.antt =====
-- Jobs that are reset after a timeout.
use ragr.Prelude.{
  ltb, if◌then◌else◌, Bool-cases, ℕ, ◌+◌, ◌-◌, ◌*◌, ◌≡◌, refl, ap₂, ◌∙◌, inl, inr, Bool, false,
  ◌&&◌, not, Option, none, some, List, [], ◌∷◌, map, arith, str_eq,
}
use ragr.Models.Job.{pending, is_running, IngestionJob}
use ragr.Ingest.Db.{Database}
use ragr.Worker.{is_crawl, claimed_before, reset, recover_stale_jobs}

-- Claimed more than so many minutes ago.
abbrev pub is_late : ℕ → ℕ → Option ℕ → Bool
is_late now minutes none = false
is_late now minutes (some claimed_at) = ltb (claimed_at + minutes * 60) now

-- What a recovery is to make of one job.
abbrev pub recovered : ℕ → ℕ → ℕ → IngestionJob → IngestionJob
recovered now job_minutes crawl_minutes job =
    let minutes = if str_eq job.job_type "crawl" then crawl_minutes else job_minutes in
    if is_running job.status && is_late now minutes job.claimed_at
    then record job { status = pending; claimed_at = none }
    else job

claimed_before-is_late :
    (now minutes : ℕ) (claimed_at : Option ℕ)
    → claimed_before claimed_at (now - minutes * 60) ≡ is_late now minutes claimed_at
claimed_before-is_late now minutes none = refl
claimed_before-is_late now minutes (some t) = ground arith

-- the two updates as one
abbrev one_pass : ℕ → ℕ → ℕ → IngestionJob → IngestionJob
one_pass now job_minutes crawl_minutes job =
    let minutes = if is_crawl job then crawl_minutes else job_minutes in
    if is_running job.status && claimed_before job.claimed_at (now - minutes * 60)
    then reset job
    else job

twice :
    (now job_minutes crawl_minutes : ℕ) (job : IngestionJob)
    → let first =
        if is_running job.status
          && (not (is_crawl job) && claimed_before job.claimed_at (now - job_minutes * 60))
        then reset job
        else job in
      (if is_running first.status
          && (is_crawl first && claimed_before first.claimed_at (now - crawl_minutes * 60))
        then reset first
        else first)
      ≡ one_pass now job_minutes crawl_minutes job
twice now job_minutes crawl_minutes job =
    elim (Bool-cases (
      is_running job.status
      && (not (is_crawl job) && claimed_before job.claimed_at (now - job_minutes * 60)))) [
        | inl late ↦ rw late (ground (arith, late))
        | inr other ↦ rw other (ground (arith, other))
      ]

all_twice :
    (now job_minutes crawl_minutes : ℕ) (jobs : List IngestionJob)
    → map
        (λ (job : IngestionJob).
          if is_running job.status
            && (is_crawl job && claimed_before job.claimed_at (now - crawl_minutes * 60))
          then reset job
          else job)
        (map
          (λ (job : IngestionJob).
            if is_running job.status
              && (not (is_crawl job) && claimed_before job.claimed_at (now - job_minutes * 60))
            then reset job
            else job)
          jobs)
      ≡ map (one_pass now job_minutes crawl_minutes) jobs
all_twice now job_minutes crawl_minutes [] = refl
all_twice now job_minutes crawl_minutes (job ∷ jobs) =
    ap₂ ◌∷◌ (twice now job_minutes crawl_minutes job) (all_twice now job_minutes crawl_minutes jobs)

one_pass-recovered :
    (now job_minutes crawl_minutes : ℕ) (jobs : List IngestionJob)
    → map (one_pass now job_minutes crawl_minutes) jobs
      ≡ map (recovered now job_minutes crawl_minutes) jobs
one_pass-recovered now job_minutes crawl_minutes [] = refl
one_pass-recovered now job_minutes crawl_minutes (job ∷ jobs) =
    ap₂ ◌∷◌
      (rw
        (claimed_before-is_late now (if is_crawl job then crawl_minutes else job_minutes)
          job.claimed_at)
        refl)
      (one_pass-recovered now job_minutes crawl_minutes jobs)

-- A recovery sets exactly the running jobs claimed longer ago than the timeout of their type to pending
-- and not claimed, and keeps all else of these jobs, every other job and the order of the jobs.
pub recover_stale_jobs-eq :
    (db : Database) (now job_minutes crawl_minutes : ℕ)
    → (recover_stale_jobs db now job_minutes crawl_minutes).jobs
      ≡ map (recovered now job_minutes crawl_minutes) db.jobs
unfolding recover_stale_jobs
recover_stale_jobs-eq db now job_minutes crawl_minutes =
    all_twice now job_minutes crawl_minutes db.jobs
    ∙ one_pass-recovered now job_minutes crawl_minutes db.jobs
