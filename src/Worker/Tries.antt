-- ===== src/Worker/Tries.antt =====
-- How often a job is handed out over any sequence of steps.
use ragr.Prelude.{
  ◌==◌, if◌then◌else◌, Bool-cases, any, All, All-append, All-filter, All-map, ℕ, ◌+◌, ◌-◌, ◌*◌, ◌≤◌,
  ◌<◌, ◌≡◌, refl, sym, ap, subst, inl, inr, Bool, false, ◌&&◌, ◌||◌, not, List, [], ◌∷◌, map, arith,
}
use ragr.Models.Job.{is_running, IngestionJob}
use ragr.Ingest.Db.{Database}
use ragr.Ingest.Queueing.{enqueue}
use ragr.Worker.{
  selected, claimed, is_among, claim_jobs, mark_complete, mark_failed, is_crawl, claimed_before,
  reset, recover_stale_jobs,
}
use ragr.Worker.Queue.{selected-All}
use ragr.Worker.Attempts.{
  Step, claim, finish, fail, recover, queue, other, Steps, none_yet, and_then, IsOrderly,
  steps-IsOrderly,
}

abbrev pub has_id : ℕ → List IngestionJob → Bool
has_id k jobs = any (λ (j : IngestionJob). j.id == k) jobs

-- 1 for a claim that returns the job with this id, else 0.
abbrev pub handed : {a b : Database} → ℕ → Step a b → ℕ
handed k (claim {db} locked now limit) =
    if has_id k (claim_jobs db locked now limit).1 then 1 else 0
handed k (finish now job_id) = 0
handed k (fail now job_id error attempts max_attempts) = 0
handed k (recover now job_minutes crawl_minutes) = 0
handed k (queue now model_id job_type params) = 0
handed k (other same more) = 0

-- How many claims have returned the job with this id.
abbrev pub tries : {a b : Database} → ℕ → Steps a b → ℕ
tries k none_yet = 0
tries k (and_then steps s) = tries k steps + handed k s

none-has_id :
    (k : ℕ) (jobs : List IngestionJob)
    → All (λ (j : IngestionJob). j.id < k) jobs
    → has_id k jobs ≡ false
none-has_id k [] h = refl
none-has_id k (j ∷ jobs) (below, h) = let ih = none-has_id k jobs h in ground (arith, below, ih)

pub has_id-claimed :
    (k now : ℕ) (jobs : List IngestionJob) → has_id k (map (claimed now) jobs) ≡ has_id k jobs
has_id-claimed k now [] = refl
has_id-claimed k now (j ∷ jobs) = ap (λ b. j.id == k || b) (has_id-claimed k now jobs)

-- A step hands out no id that is not taken yet.
handed-fresh :
    {a b : Database} (k : ℕ) (s : Step a b) → IsOrderly a → a.next_id ≤ k → handed k s ≡ 0
unfolding claim_jobs
handed-fresh k (claim {db} locked now limit) h fresh =
    let below : All (λ (j : IngestionJob). j.id < k) (selected db locked limit) =
      selected-All _ db locked limit
        (All-filter _ _ db.jobs (All-map (λ j p. omega (arith, p, fresh)) db.jobs h.1.0)) in
    rw
      (
        has_id-claimed k now (selected db locked limit),
        none-has_id k (selected db locked limit) below,
      )
      refl
handed-fresh k (finish now job_id) h fresh = refl
handed-fresh k (fail now job_id error attempts max_attempts) h fresh = refl
handed-fresh k (recover now job_minutes crawl_minutes) h fresh = refl
handed-fresh k (queue now model_id job_type params) h fresh = refl
handed-fresh k (other same more) h fresh = refl

pub next_id-grows : {a b : Database} → Step a b → a.next_id ≤ b.next_id
unfolding claim_jobs mark_complete mark_failed recover_stale_jobs enqueue
next_id-grows (claim locked now limit) = omega arith
next_id-grows (finish now job_id) = omega arith
next_id-grows (fail now job_id error attempts max_attempts) = omega arith
next_id-grows (recover now job_minutes crawl_minutes) = omega arith
next_id-grows (queue now model_id job_type params) = omega arith
next_id-grows (other same more) = more

tries-fresh :
    {a b : Database} (k : ℕ) (steps : Steps a b) → IsOrderly a → b.next_id ≤ k → tries k steps ≡ 0
tries-fresh k none_yet h fresh = refl
tries-fresh k (and_then steps s) h fresh =
    let early = next_id-grows s in
    omega (
      arith,
      tries-fresh k steps h (omega (arith, fresh, early)),
      handed-fresh k s (steps-IsOrderly steps h) (omega (arith, fresh, early)),
    )

-- The attempts of every row are at least the tries of its id.
abbrev Covers : (ℕ → ℕ) → List IngestionJob → Type 0
Covers t = All (λ (j : IngestionJob). t j.id ≤ j.attempts)

Covers-zero : (jobs : List IngestionJob) → Covers (λ k. 0) jobs
Covers-zero [] = tt
Covers-zero (j ∷ jobs) = (omega arith, Covers-zero jobs)

module _ (t : ℕ → ℕ) where
  Covers-claimed :
      (now : ℕ) (chosen rows : List IngestionJob)
      → Covers t rows
      → Covers
          (λ k. t k + (if has_id k (map (claimed now) chosen) then 1 else 0))
          (map (λ job. if is_among chosen job then claimed now job else job) rows)
  Covers-claimed now chosen [] h = tt
  Covers-claimed now chosen (r ∷ rows) (bound, h) = (
    elim (Bool-cases (is_among chosen r)) [
      | inl here ↦ rw here (ground (arith, bound, has_id-claimed r.id now chosen, here))
      | inr away ↦ rw away (ground (arith, bound, has_id-claimed r.id now chosen, away))
    ],
    Covers-claimed now chosen rows h,
  )

  Covers-updated :
      (p : IngestionJob → Bool) (f : IngestionJob → IngestionJob)
      → ((j : IngestionJob) → ((f j).id ≡ j.id) × ((f j).attempts ≡ j.attempts))
      → (rows : List IngestionJob) → Covers t rows
      → Covers t (map (λ job. if p job then f job else job) rows)
  Covers-updated p f same [] h = tt
  Covers-updated p f same (r ∷ rows) (bound, h) = (
    elim (Bool-cases (p r)) [
      | inl here ↦ rw here (
          subst (λ n. t (f r).id ≤ n) (sym (same r).1)
            (subst (λ k. t k ≤ r.attempts) (sym (same r).0) bound))
      | inr away ↦ rw away bound
    ],
    Covers-updated p f same rows h,
  )

  Covers-plus_zero : (rows : List IngestionJob) → Covers t rows → Covers (λ k. t k + 0) rows
  Covers-plus_zero rows h = All-map (λ j p. omega (arith, p)) rows h

step-Covers :
    {a b : Database} (t : ℕ → ℕ) (s : Step a b)
    → t a.next_id ≡ 0
    → Covers t a.jobs
    → Covers (λ k. t k + handed k s) b.jobs
unfolding claim_jobs mark_complete mark_failed recover_stale_jobs enqueue
step-Covers t (claim {db} locked now limit) zero_new h =
    Covers-claimed t now (selected db locked limit) db.jobs h
step-Covers t (finish {db} now job_id) zero_new h =
    Covers-plus_zero t _ (Covers-updated t _ _ (λ j. (refl, refl)) db.jobs h)
step-Covers t (fail {db} now job_id error attempts max_attempts) zero_new h =
    Covers-plus_zero t _ (Covers-updated t _ _ (λ j. (refl, refl)) db.jobs h)
step-Covers t (recover {db} now job_minutes crawl_minutes) zero_new h = Covers-plus_zero t _ (
    Covers-updated t _ reset (λ j. (refl, refl)) _
      (Covers-updated t
        (λ job.
          is_running job.status
          && (not (is_crawl job) && claimed_before job.claimed_at (now - job_minutes * 60)))
        reset (λ j. (refl, refl)) db.jobs h))
step-Covers t (queue {db} now model_id job_type params) zero_new h =
    Covers-plus_zero t _ (All-append _ db.jobs _ h (omega (arith, zero_new), tt))
step-Covers t (other {db} {db'} same more) zero_new h =
    Covers-plus_zero t _ (subst (Covers t) (sym same) h)

steps-Covers :
    {a b : Database} (steps : Steps a b) → IsOrderly a → Covers (λ k. tries k steps) b.jobs
steps-Covers {a} none_yet h = Covers-zero a.jobs
steps-Covers (and_then {b = mid} steps s) h =
    step-Covers (λ k. tries k steps) s (tries-fresh mid.next_id steps h (omega arith))
      (steps-Covers steps h)

covered :
    (t : ℕ → ℕ) (jobs : List IngestionJob)
    → Covers t jobs
    → All (λ (j : IngestionJob). j.attempts ≤ j.max_attempts) jobs
    → All (λ (j : IngestionJob). t j.id ≤ j.max_attempts) jobs
covered t [] h k = tt
covered t (j ∷ jobs) (p, h) (q, k) = (omega (arith, p, q), covered t jobs h k)

-- If job ids are distinct and below the next id and no job has more attempts than its limit, then this
-- holds again after any sequence of claims, completions, failures, recoveries and queueings, by any
-- number of workers and in any order, between any writes of the other tables; and the claims of the
-- sequence have returned no job more often than its limit.
pub steps-tries :
    {a b : Database} (steps : Steps a b)
    → IsOrderly a
    → IsOrderly b × All (λ (j : IngestionJob). tries j.id steps ≤ j.max_attempts) b.jobs
steps-tries {a} {b} steps h =
    let after = steps-IsOrderly steps h in
    (after, covered (λ k. tries k steps) b.jobs (steps-Covers steps h) after.1.1)
