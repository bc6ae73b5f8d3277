-- ===== src/Worker/Queue.antt =====
-- Claiming: what is claimed, that nothing is claimed twice, and the number of attempts.
use ragr.Prelude.{
  leb, ◌==◌, if◌then◌else◌, Bool-cases, length, filter, length-take, length-map, All, All-take,
  All-map, filter-All, ℕ, ◌≤◌, ◌≡◌, refl, ap, ◌∙◌, inl, inr, Bool, false, ◌||◌, some, List, [], ◌∷◌,
  map, arith,
}
use ragr.Models.Job.{running, IngestionJob}
use ragr.Ingest.Db.{Database}
use ragr.Worker.{
  update_jobs, is_claimable, insert, order_by_created_at, selected, claimed, is_among, claim_jobs,
}

module _ {κ} (P : IngestionJob → Type κ) where
  insert-All :
      (job : IngestionJob) (jobs : List IngestionJob) → P job → All P jobs → All P (insert job jobs)
  insert-All job [] p h = (p, tt)
  insert-All job (other ∷ jobs) p (q, h) = elim (Bool-cases (leb job.created_at other.created_at)) [
    | inl before ↦ rw before (p, (q, h))
    | inr after ↦ rw after (q, insert-All job jobs p h)
  ]

  order-All : (jobs : List IngestionJob) → All P jobs → All P (order_by_created_at jobs)
  order-All [] h = tt
  order-All (job ∷ jobs) (p, h) = insert-All job (order_by_created_at jobs) p (order-All jobs h)

  pub selected-All :
      (db : Database) (locked : ℕ → Bool) (limit : ℕ)
      → All P (filter (is_claimable locked) db.jobs)
      → All P (selected db locked limit)
  selected-All db locked limit h =
      All-take P limit (order_by_created_at (filter (is_claimable locked) db.jobs))
        (order-All (filter (is_claimable locked) db.jobs) h)

  mapped-All :
      (f : IngestionJob → IngestionJob) (jobs : List IngestionJob)
      → All (λ job. P (f job)) jobs
      → All P (map f jobs)
  mapped-All f [] h = tt
  mapped-All f (job ∷ jobs) (p, h) = (p, mapped-All f jobs h)

module _ {κ} (P : IngestionJob → Type κ) where
  filter-All_cons :
      (p : IngestionJob → Bool) (job : IngestionJob) (jobs : List IngestionJob)
      → P job
      → All P (filter p jobs)
      → All P (filter p (job ∷ jobs))
  filter-All_cons p job jobs h k = elim (Bool-cases (p job)) [
    | inl fits ↦ rw fits (h, k)
    | inr other ↦ rw other k
  ]

pub is_among-claimed :
    (now : ℕ) (jobs : List IngestionJob) (job : IngestionJob)
    → is_among (map (claimed now) jobs) job ≡ is_among jobs job
is_among-claimed now [] job = refl
is_among-claimed now (j ∷ jobs) job = ap (λ b. j.id == job.id || b) (is_among-claimed now jobs job)

-- What is still claimable after `first` were claimed is none of them.
left_over :
    (first : List IngestionJob) (now : ℕ) (locked : ℕ → Bool) (jobs : List IngestionJob)
    → All
        (λ job. is_among first job ≡ false)
        (filter
          (is_claimable locked)
          (map (λ job. if is_among first job then claimed now job else job) jobs))
left_over first now locked [] = tt
left_over first now locked (job ∷ jobs) = elim (Bool-cases (is_among first job)) [
  | inl taken ↦ rw taken (left_over first now locked jobs)
  | inr free ↦ rw free (
      filter-All_cons (λ j. is_among first j ≡ false) (is_claimable locked) job
        (map (λ j. if is_among first j then claimed now j else j) jobs) free
        (left_over first now locked jobs))
]

-- Of two claims one after the other, whatever is locked and whatever the limits, the second returns no
-- job that the first has returned.
pub claim_jobs-disjoint :
    (db : Database) (locked locked' : ℕ → Bool) (now now' limit limit' : ℕ)
    → let first = claim_jobs db locked now limit in
      All (λ job. is_among first.1 job ≡ false) (claim_jobs first.0 locked' now' limit').1
unfolding claim_jobs
claim_jobs-disjoint db locked locked' now now' limit limit' =
    let taken = selected db locked limit in
    mapped-All _ (claimed now') _ (
      selected-All _ (update_jobs (is_among taken) (claimed now) db) locked' limit' (
        All-map (λ job free. is_among-claimed now taken job ∙ free) _
          (left_over taken now locked' db.jobs)))

-- The state of a job that a claim returns.
pub record IsClaimed (now : ℕ) (locked : ℕ → Bool) (job : IngestionJob) : Type 0 where
  pub is_running : job.status ≡ running
  pub attempts : (1 ≤ job.attempts) × (job.attempts ≤ job.max_attempts)
  pub time : job.claimed_at ≡ some now
  pub unlocked : locked job.id ≡ false

-- A claim returns at most `limit` jobs, each running, unlocked, claimed now, and at its first to its
-- last attempt.
claim_jobs-IsClaimed :
    (db : Database) (locked : ℕ → Bool) (now limit : ℕ)
    → (length (claim_jobs db locked now limit).1 ≤ limit)
      × All (IsClaimed now locked) (claim_jobs db locked now limit).1
unfolding claim_jobs
claim_jobs-IsClaimed db locked now limit =
    let taken = selected db locked limit in
    (
      omega (
        arith,
        length-map (claimed now) taken,
        length-take limit (order_by_created_at (filter (is_claimable locked) db.jobs)),
      ),
      mapped-All (IsClaimed now locked) (claimed now) taken (
          selected-All _ db locked limit (
            All-map
              (λ job yes. record {
                is_running = refl;
                attempts = (ground (arith, yes), ground (arith, yes));
                time = refl;
                unlocked = ground (arith, yes);
              })
              _ (filter-All (is_claimable locked) db.jobs))),
    )
