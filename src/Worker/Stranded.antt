-- ===== src/Worker/Stranded.antt =====
-- The job that a recovery leaves pending with no attempts left, and all that may follow.
use ragr.Prelude.{
  ltb, ◌==◌, if◌then◌else◌, Bool-cases, filter, All, All-append, All-map, ℕ, ◌-◌, ◌*◌, ◌<◌, ◌≡◌,
  refl, sym, ap, ◌∙◌, subst, inl, inr, Bool, true, false, ◌&&◌, not, none, List, [], ◌∷◌, ◌++◌, map,
  map-append, arith, str_eq,
}
use ragr.Models.Job.{pending, is_running, IngestionJob}
use ragr.Ingest.Db.{Database}
use ragr.Ingest.Queueing.{enqueue}
use ragr.Worker.{
  is_claimable, selected, claimed, claim_jobs, mark_complete, mark_failed, is_crawl, claimed_before,
  reset, recover_stale_jobs,
}
use ragr.Worker.Queue.{selected-All}
use ragr.Worker.Attempts.{
  Step, claim, finish, fail, recover, queue, other, Steps, none_yet, and_then, IsOrderly,
  IsDistinct,
}
use ragr.Worker.Tries.{has_id, handed, tries, next_id-grows, has_id-claimed}
use ragr.Worker.Stale.{is_late, recovered, recover_stale_jobs-eq}

-- No job with this id has attempts left.
abbrev IsSpent : ℕ → List IngestionJob → Type 0
IsSpent k = All (λ (j : IngestionJob). (j.id == k && ltb j.attempts j.max_attempts) ≡ false)

IsSpent-updated :
    (k : ℕ) (p : IngestionJob → Bool) (f : IngestionJob → IngestionJob)
    → ((j : IngestionJob)
        → (j.id == k && ltb j.attempts j.max_attempts) ≡ false
        → ((f j).id == k && ltb (f j).attempts (f j).max_attempts) ≡ false)
    → (rows : List IngestionJob) → IsSpent k rows
    → IsSpent k (map (λ job. if p job then f job else job) rows)
IsSpent-updated k p f keeps [] h = tt
IsSpent-updated k p f keeps (r ∷ rows) (spent, h) = (
  elim (Bool-cases (p r)) [ inl here ↦ rw here (keeps r spent) | inr away ↦ rw away spent ],
  IsSpent-updated k p f keeps rows h,
)

step-IsSpent :
    {a b : Database} (k : ℕ) (s : Step a b) → k < a.next_id → IsSpent k a.jobs → IsSpent k b.jobs
unfolding claim_jobs mark_complete mark_failed recover_stale_jobs enqueue
step-IsSpent k (claim {db} locked now limit) taken h =
    IsSpent-updated k _ (claimed now) (λ j p. ground (arith, p)) db.jobs h
step-IsSpent k (finish {db} now job_id) taken h = IsSpent-updated k _ _ (λ j p. p) db.jobs h
step-IsSpent k (fail {db} now job_id error attempts max_attempts) taken h =
    IsSpent-updated k _ _ (λ j p. p) db.jobs h
step-IsSpent k (recover {db} now job_minutes crawl_minutes) taken h =
    IsSpent-updated k _ reset (λ j p. p) _
      (IsSpent-updated k
        (λ job.
          is_running job.status
          && (not (is_crawl job) && claimed_before job.claimed_at (now - job_minutes * 60)))
        reset (λ j p. p) db.jobs h)
step-IsSpent k (queue {db} now model_id job_type params) taken h =
    All-append _ db.jobs _ h (ground (arith, taken), tt)
step-IsSpent k (other {db} {db'} same more) taken h = subst (IsSpent k) (sym same) h

-- A claim may return only jobs with attempts left.
claimable-other :
    (k : ℕ) (locked : ℕ → Bool) (jobs : List IngestionJob)
    → IsSpent k jobs
    → All (λ (j : IngestionJob). (j.id == k) ≡ false) (filter (is_claimable locked) jobs)
claimable-other k locked [] h = tt
claimable-other k locked (j ∷ jobs) (spent, h) = elim (Bool-cases (is_claimable locked j)) [
  | inl fits ↦ rw fits (ground (arith, spent, fits), claimable-other k locked jobs h)
  | inr barred ↦ rw barred (claimable-other k locked jobs h)
]

no-has_id :
    (k : ℕ) (jobs : List IngestionJob)
    → All (λ (j : IngestionJob). (j.id == k) ≡ false) jobs
    → has_id k jobs ≡ false
no-has_id k [] h = refl
no-has_id k (j ∷ jobs) (apart, h) = let ih = no-has_id k jobs h in ground (arith, apart, ih)

IsSpent-handed : {a b : Database} (k : ℕ) (s : Step a b) → IsSpent k a.jobs → handed k s ≡ 0
unfolding claim_jobs
IsSpent-handed k (claim {db} locked now limit) h =
    let others = selected-All _ db locked limit (claimable-other k locked db.jobs h) in
    rw
      (
        has_id-claimed k now (selected db locked limit),
        no-has_id k (selected db locked limit) others,
      )
      refl
IsSpent-handed k (finish now job_id) h = refl
IsSpent-handed k (fail now job_id error attempts max_attempts) h = refl
IsSpent-handed k (recover now job_minutes crawl_minutes) h = refl
IsSpent-handed k (queue now model_id job_type params) h = refl
IsSpent-handed k (other same more) h = refl

IsSpent-tries :
    {a b : Database} (k : ℕ) (steps : Steps a b)
    → k < a.next_id
    → IsSpent k a.jobs
    → (k < b.next_id) × (IsSpent k b.jobs × (tries k steps ≡ 0))
IsSpent-tries k none_yet taken h = (taken, (h, refl))
IsSpent-tries k (and_then steps s) taken h =
    let before = IsSpent-tries k steps taken h in
    let grows = next_id-grows s in
    (
      omega (arith, before.0, grows),
      (
        step-IsSpent k s before.0 before.1.0,
        omega (arith, before.1.1, IsSpent-handed k s before.1.0),
      ),
    )

in_middle :
    (n : ℕ) (before after : List IngestionJob) (job : IngestionJob)
    → All (λ (i : IngestionJob). (i.id == n) ≡ false) (before ++ job ∷ after)
    → (job.id == n) ≡ false
in_middle n [] after job (p, q) = p
in_middle n (i ∷ before) after job (p, q) = in_middle n before after job q

-- In rows with distinct ids, the one row with this id is the given one.
split-IsSpent :
    (before after : List IngestionJob) (job : IngestionJob)
    → IsDistinct (before ++ job ∷ after)
    → job.attempts ≡ job.max_attempts
    → IsSpent job.id (before ++ job ∷ after)
split-IsSpent [] after job (away, h) all_used =
    (ground (arith, all_used), All-map (λ j p. ground (arith, p)) after away)
split-IsSpent (j ∷ before) after job (away, h) all_used = (
  (let apart = in_middle j.id before after job away in ground (arith, apart)),
  split-IsSpent before after job h all_used,
)

middle-taken :
    (n : ℕ) (before after : List IngestionJob) (job : IngestionJob)
    → All (λ (j : IngestionJob). j.id < n) (before ++ job ∷ after)
    → job.id < n
middle-taken n [] after job (p, q) = p
middle-taken n (j ∷ before) after job (p, q) = middle-taken n before after job q

-- If job ids are distinct and below the next id and no job has more attempts than its limit, then a
-- recovery leaves a running job that it finds on its last attempt after the timeout pending and not
-- claimed, at its place among the jobs; and no claim in any sequence of claims, completions, failures,
-- recoveries and queueings after it returns that job.
pub recover_stale_jobs-strands :
    (db final : Database) (now job_minutes crawl_minutes : ℕ) (before after : List IngestionJob)
    (job : IngestionJob)
    → db.jobs ≡ before ++ job ∷ after
    → IsOrderly db
    → is_running job.status ≡ true
    → job.attempts ≡ job.max_attempts
    → is_late now
        (if str_eq job.job_type "crawl" then crawl_minutes else job_minutes)
        job.claimed_at
      ≡ true
    → (steps : Steps (recover_stale_jobs db now job_minutes crawl_minutes) final)
    → ((recover_stale_jobs db now job_minutes crawl_minutes).jobs
        ≡ map (recovered now job_minutes crawl_minutes) before
          ++ (record job { status = pending; claimed_at = none })
            ∷ map (recovered now job_minutes crawl_minutes) after)
      × (tries job.id steps ≡ 0)
unfolding recover_stale_jobs
recover_stale_jobs-strands db final now job_minutes crawl_minutes before after job at orderly runs
      all_used late steps =
    let all = recover_stale_jobs-eq db now job_minutes crawl_minutes in
    let s : Step db (recover_stale_jobs db now job_minutes crawl_minutes) =
      recover now job_minutes crawl_minutes in
    let taken =
      middle-taken db.next_id before after job
        (subst (All (λ (j : IngestionJob). j.id < db.next_id)) at orderly.1.0) in
    let spent =
      subst (IsSpent job.id) (sym at)
        (split-IsSpent before after job (subst IsDistinct at orderly.0) all_used) in
    (
      all
          ∙ (ap (map (recovered now job_minutes crawl_minutes)) at
              ∙ (map-append (recovered now job_minutes crawl_minutes) before (job ∷ after)
                  ∙ rw (runs, late) refl)),
      (IsSpent-tries job.id steps taken (step-IsSpent job.id s taken spent)).1.1,
    )
