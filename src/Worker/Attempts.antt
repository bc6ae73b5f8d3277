-- ===== src/Worker/Attempts.antt =====
-- The job table over any sequence of steps, of any number of workers and of the routes that queue jobs.
use ragr.Prelude.{
  ◌==◌, if◌then◌else◌, Bool-cases, filter, All, All-append, All-filter, All-map, ℕ, ◌-◌, ◌*◌, ◌≤◌,
  ◌<◌, String, ◌≡◌, refl, sym, subst, ◌⊎◌, inl, inr, Bool, true, false, ◌&&◌, not, List, [], ◌∷◌,
  ◌++◌, map, arith,
}
use ragr.Models.Job.{is_running, JobParams, IngestionJob}
use ragr.Ingest.Db.{Database}
use ragr.Ingest.Queueing.{enqueue}
use ragr.Worker.{
  update_jobs, is_claimable, selected, claimed, is_among, claim_jobs, mark_complete, mark_failed,
  is_crawl, claimed_before, reset, recover_stale_jobs,
}
use ragr.Worker.Queue.{selected-All}

-- Everything that writes the job table, and any write of the other tables, which may take new ids.
pub data Step : Database → Database → Type 0 where
  claim :
      {db : Database} (locked : ℕ → Bool) (now limit : ℕ)
      → Step db (claim_jobs db locked now limit).0
  finish : {db : Database} (now job_id : ℕ) → Step db (mark_complete db now job_id)
  fail :
      {db : Database} (now job_id : ℕ) (error : String) (attempts max_attempts : ℕ)
      → Step db (mark_failed db now job_id error attempts max_attempts)
  recover :
      {db : Database} (now job_minutes crawl_minutes : ℕ)
      → Step db (recover_stale_jobs db now job_minutes crawl_minutes)
  queue :
      {db : Database} (now model_id : ℕ) (job_type : String) (params : JobParams)
      → Step db (enqueue db now model_id job_type params)
  other : {db db' : Database} → db'.jobs ≡ db.jobs → db.next_id ≤ db'.next_id → Step db db'

pub data Steps : Database → Database → Type 0 where
  none_yet : {db : Database} → Steps db db
  and_then : {a b c : Database} → Steps a b → Step b c → Steps a c

abbrev pub IsDistinct : List IngestionJob → Type 0
IsDistinct [] = Unit
IsDistinct (job ∷ jobs) =
    All (λ (j : IngestionJob). (j.id == job.id) ≡ false) jobs × IsDistinct jobs

-- Ids are distinct and taken, and no job was tried more often than its limit.
abbrev pub IsOrderly : Database → Type 0
IsOrderly db =
    IsDistinct db.jobs
    × (All (λ (j : IngestionJob). j.id < db.next_id) db.jobs
        × All (λ (j : IngestionJob). j.attempts ≤ j.max_attempts) db.jobs)

module _ (locked : ℕ → Bool) where
  -- No job that may be claimed has the id of this one.
  abbrev IsFree : List IngestionJob → IngestionJob → Type 0
  IsFree jobs r =
      All (λ (j : IngestionJob). (j.id == r.id) ≡ false) (filter (is_claimable locked) jobs)

  abbrev IsSettled : List IngestionJob → IngestionJob → Type 0
  IsSettled jobs r = (is_claimable locked r ≡ true) ⊎ IsFree jobs r

  IsSettled-cons :
      (job : IngestionJob) (jobs rows : List IngestionJob)
      → All (λ (j : IngestionJob). (j.id == job.id) ≡ false) rows
      → All (IsSettled jobs) rows
      → All (IsSettled (job ∷ jobs)) rows
  IsSettled-cons job jobs [] away h = tt
  IsSettled-cons job jobs (r ∷ rows) (apart, away) (inl mine, h) =
      (inl mine, IsSettled-cons job jobs rows away h)
  IsSettled-cons job jobs (r ∷ rows) (apart, away) (inr free, h) = (
    inr (elim (Bool-cases (is_claimable locked job)) [
      | inl fits ↦ rw fits (ground (arith, apart), free)
      | inr barred ↦ rw barred free
    ]),
    IsSettled-cons job jobs rows away h,
  )

  distinct-IsSettled : (jobs : List IngestionJob) → IsDistinct jobs → All (IsSettled jobs) jobs
  distinct-IsSettled [] h = tt
  distinct-IsSettled (job ∷ jobs) (away, h) = (
    elim (Bool-cases (is_claimable locked job)) [
      | inl fits ↦ inl fits
      | inr barred ↦ inr (rw barred (All-filter _ (is_claimable locked) jobs away))
    ],
    IsSettled-cons job jobs jobs away (distinct-IsSettled jobs h),
  )

pub not-among :
    (jobs : List IngestionJob) (r : IngestionJob)
    → All (λ (j : IngestionJob). (j.id == r.id) ≡ false) jobs
    → is_among jobs r ≡ false
not-among [] r h = refl
not-among (j ∷ jobs) r (apart, h) = let ih = not-among jobs r h in ground (arith, ih, apart)

-- An update of a row that leaves its id and its limit alone.
abbrev pub KeepsId : (IngestionJob → IngestionJob) → Type 0
KeepsId f = (j : IngestionJob) → ((f j).id ≡ j.id) × ((f j).max_attempts ≡ j.max_attempts)

module _ (p : IngestionJob → Bool) (f : IngestionJob → IngestionJob) (k : KeepsId f) where
  abbrev step : IngestionJob → IngestionJob
  step job = if p job then f job else job

  step-id : (job : IngestionJob) → (step job).id ≡ job.id
  step-id job = ground (arith, (k job).0)

  updated-away :
      (job : IngestionJob) (jobs : List IngestionJob)
      → All (λ (j : IngestionJob). (j.id == job.id) ≡ false) jobs
      → All (λ (j : IngestionJob). (j.id == (step job).id) ≡ false) (map step jobs)
  updated-away job [] h = tt
  updated-away job (j ∷ jobs) (apart, h) =
      (ground (arith, apart, step-id j, step-id job), updated-away job jobs h)

  updated-IsDistinct : (jobs : List IngestionJob) → IsDistinct jobs → IsDistinct (map step jobs)
  updated-IsDistinct [] h = tt
  updated-IsDistinct (job ∷ jobs) (away, h) =
      (updated-away job jobs away, updated-IsDistinct jobs h)

  updated-taken :
      (n : ℕ) (jobs : List IngestionJob)
      → All (λ (j : IngestionJob). j.id < n) jobs
      → All (λ (j : IngestionJob). j.id < n) (map step jobs)
  updated-taken n [] h = tt
  updated-taken n (j ∷ jobs) (below, h) =
      (subst (λ i. i < n) (sym (step-id j)) below, updated-taken n jobs h)

  updated-bounded :
      ((j : IngestionJob) → (f j).attempts ≡ j.attempts)
      → (jobs : List IngestionJob) → All (λ (j : IngestionJob). j.attempts ≤ j.max_attempts) jobs
      → All (λ (j : IngestionJob). j.attempts ≤ j.max_attempts) (map step jobs)
  updated-bounded same [] h = tt
  updated-bounded same (j ∷ jobs) (bound, h) = (
    elim (Bool-cases (p j)) [
      | inl here ↦ rw here (
          subst (λ n. n ≤ (f j).max_attempts) (sym (same j))
            (subst (λ n. j.attempts ≤ n) (sym (k j).1) bound))
      | inr away ↦ rw away bound
    ],
    updated-bounded same jobs h,
  )

  update_jobs-IsOrderly :
      ((j : IngestionJob) → (f j).attempts ≡ j.attempts)
      → (db : Database) → IsOrderly db
      → IsOrderly (update_jobs p f db)
  update_jobs-IsOrderly same db (distinct, (taken, bounded)) = (
    updated-IsDistinct db.jobs distinct,
    (updated-taken db.next_id db.jobs taken, updated-bounded same db.jobs bounded),
  )

claimed-bounded :
    (locked : ℕ → Bool) (now : ℕ) (jobs chosen rows : List IngestionJob)
    → ((r : IngestionJob) → IsFree locked jobs r → is_among chosen r ≡ false)
    → All (IsSettled locked jobs) rows
    → All (λ (j : IngestionJob). j.attempts ≤ j.max_attempts) rows
    → All
        (λ (j : IngestionJob). j.attempts ≤ j.max_attempts)
        (map (λ job. if is_among chosen job then claimed now job else job) rows)
claimed-bounded locked now jobs chosen [] free settled bounded = tt
claimed-bounded locked now jobs chosen (r ∷ rows) free (inl mine, settled) (bound, bounded) = (
  elim (Bool-cases (is_among chosen r)) [
    | inl here ↦ rw here (ground (arith, mine))
    | inr away ↦ rw away bound
  ],
  claimed-bounded locked now jobs chosen rows free settled bounded,
)
claimed-bounded locked now jobs chosen (r ∷ rows) free (inr barred, settled) (bound, bounded) =
    (rw (free r barred) bound, claimed-bounded locked now jobs chosen rows free settled bounded)

claim_jobs-IsOrderly :
    (db : Database) (locked : ℕ → Bool) (now limit : ℕ)
    → IsOrderly db
    → IsOrderly (claim_jobs db locked now limit).0
unfolding claim_jobs
claim_jobs-IsOrderly db locked now limit (distinct, (taken, bounded)) =
    let chosen = selected db locked limit in
    let kept : KeepsId (claimed now) = λ j. (refl, refl) in
    (
      updated-IsDistinct (is_among chosen) (claimed now) kept db.jobs distinct,
      (
        updated-taken (is_among chosen) (claimed now) kept db.next_id db.jobs taken,
        claimed-bounded locked now db.jobs chosen db.jobs
            (λ r free. not-among chosen r (selected-All _ db locked limit free))
            (distinct-IsSettled locked db.jobs distinct) bounded,
      ),
    )

appended-IsDistinct :
    (jobs : List IngestionJob) (new : IngestionJob)
    → All (λ (j : IngestionJob). j.id < new.id) jobs
    → IsDistinct jobs
    → IsDistinct (jobs ++ new ∷ [])
appended-IsDistinct [] new below h = (tt, tt)
appended-IsDistinct (j ∷ jobs) new (before, below) (away, h) = (
  All-append _ jobs (new ∷ []) away (ground (arith, before), tt),
  appended-IsDistinct jobs new below h,
)

enqueue-IsOrderly :
    (db : Database) (now model_id : ℕ) (job_type : String) (params : JobParams)
    → IsOrderly db
    → IsOrderly (enqueue db now model_id job_type params)
unfolding enqueue
enqueue-IsOrderly db now model_id job_type params (distinct, (taken, bounded)) = (
  appended-IsDistinct db.jobs _ taken distinct,
  (
    All-append _ db.jobs _ (All-map (λ j h. omega (arith, h)) db.jobs taken) (omega arith, tt),
    All-append _ db.jobs _ bounded (omega arith, tt),
  ),
)

step-IsOrderly : {a b : Database} → Step a b → IsOrderly a → IsOrderly b
unfolding mark_complete mark_failed recover_stale_jobs
step-IsOrderly (claim {db} locked now limit) h = claim_jobs-IsOrderly db locked now limit h
step-IsOrderly (finish {db} now job_id) h =
    update_jobs-IsOrderly _ _ (λ j. (refl, refl)) (λ j. refl) db h
step-IsOrderly (fail {db} now job_id error attempts max_attempts) h =
    update_jobs-IsOrderly _ _ (λ j. (refl, refl)) (λ j. refl) db h
step-IsOrderly (recover {db} now job_minutes crawl_minutes) h =
    let regular =
      update_jobs
        (λ job.
          is_running job.status
          && (not (is_crawl job) && claimed_before job.claimed_at (now - job_minutes * 60)))
        reset db in
    update_jobs-IsOrderly _ reset (λ j. (refl, refl)) (λ j. refl) regular
      (update_jobs-IsOrderly _ reset (λ j. (refl, refl)) (λ j. refl) db h)
step-IsOrderly (queue {db} now model_id job_type params) h =
    enqueue-IsOrderly db now model_id job_type params h
step-IsOrderly (other {db} {db'} same more) (distinct, (taken, bounded)) = (
  subst IsDistinct (sym same) distinct,
  (
    subst (All (λ (j : IngestionJob). j.id < db'.next_id)) (sym same)
        (All-map (λ j h. omega (arith, h, more)) db.jobs taken),
    subst (All (λ (j : IngestionJob). j.attempts ≤ j.max_attempts)) (sym same) bounded,
  ),
)

pub steps-IsOrderly : {a b : Database} → Steps a b → IsOrderly a → IsOrderly b
steps-IsOrderly none_yet h = h
steps-IsOrderly (and_then steps s) h = step-IsOrderly s (steps-IsOrderly steps h)
