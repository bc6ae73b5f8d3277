-- ===== src/Worker/Outcomes.antt =====
-- What becomes of a job, and of its source, when it has been processed.
use ragr.Prelude.{
  leb, ◌==◌, if◌then◌else◌, Bool-cases, Option-cases, All, ℕ, String, ◌≡◌, refl, sym, subst, inl,
  inr, Bool, true, false, ◌&&◌, Option, none, some, List, [], ◌∷◌, map, arith, str_eq,
}
use ragr.Models.Source.{IngestionSource}
use ragr.Models.Source.{failed as source_failed}
use ragr.Models.Job.{JobStatus, pending, complete, failed, IngestionJob}
use Prim.Native.String.{◌++◌ as str_append}
use ragr.Ingest.Db.{Database, find_source, map_option, find_source-modify_source, modify_source}
use ragr.Worker.{
  update_jobs, mark_complete, mark_failed, mark_source_failed, Handlers, handler_for, source_of,
  or_else, fail_source, finish, dispatch, process_job,
}

-- The status that a job's row is to have, from the number of its attempt and the handler's outcome.
abbrev pub settled : IngestionJob → Option String → JobStatus
settled job none = complete
settled job (some error) = if leb job.max_attempts job.attempts then failed else pending

-- Every row with the job's id has this status.
abbrev pub HasStatus : Database → ℕ → JobStatus → Type 0
HasStatus db job_id status =
    All (λ (row : IngestionJob). (if row.id == job_id then row.status else status) ≡ status) db.jobs

update-HasStatus :
    (db : Database) (job_id : ℕ) (status : JobStatus) (f : IngestionJob → IngestionJob)
    → ((row : IngestionJob) → ((f row).status ≡ status) × ((f row).id ≡ row.id))
    → HasStatus (update_jobs (λ job. job.id == job_id) f db) job_id status
update-HasStatus db job_id status f h = go db.jobs
  where
    go :
        (jobs : List IngestionJob)
        → All
            (λ (row : IngestionJob). (if row.id == job_id then row.status else status) ≡ status)
            (map (λ job. if job.id == job_id then f job else job) jobs)
    go [] = tt
    go (row ∷ jobs) = (ground (arith, h row), go jobs)

mark_complete-HasStatus :
    (db : Database) (now job_id : ℕ) → HasStatus (mark_complete db now job_id) job_id complete
unfolding mark_complete
mark_complete-HasStatus db now job_id = update-HasStatus db job_id complete _ (λ row. (refl, refl))

mark_failed-HasStatus :
    (db : Database) (now job_id : ℕ) (error : String) (attempts max_attempts : ℕ)
    → HasStatus
        (mark_failed db now job_id error attempts max_attempts)
        job_id
        (if leb max_attempts attempts then failed else pending)
unfolding mark_failed
mark_failed-HasStatus db now job_id error attempts max_attempts =
    update-HasStatus db job_id _ _ (λ row. (refl, refl))

fail_source-jobs : (db : Database) (m : ℕ) (o : Option String) → (fail_source db m o).jobs ≡ db.jobs
unfolding mark_source_failed modify_source
fail_source-jobs db m none = refl
fail_source-jobs db m (some ident) = ground arith

finish-HasStatus :
    (job : IngestionJob) (now : ℕ) (db : Database) (outcome : Option String)
    → HasStatus (finish job now db outcome) job.id (settled job outcome)
finish-HasStatus job now db none = mark_complete-HasStatus db now job.id
finish-HasStatus job now db (some error) =
    let db' = mark_failed db now job.id error job.attempts job.max_attempts in
    let marked = mark_failed-HasStatus db now job.id error job.attempts job.max_attempts in
    elim (Bool-cases (leb job.max_attempts job.attempts)) [
      | inl last ↦
          let failed_now : HasStatus db' job.id failed =
            subst (λ b. HasStatus db' job.id (if b then failed else pending)) last marked in
          rw last (
            subst
              (λ jobs.
                All
                  (λ (row : IngestionJob).
                    (if row.id == job.id then row.status else failed) ≡ failed)
                  jobs)
              (sym (fail_source-jobs db' job.model_id (source_of job.job_params))) failed_now)
      | inr more ↦
          rw more (subst (λ b. HasStatus db' job.id (if b then failed else pending)) more marked)
    ]

dispatch-HasStatus :
    (o : Option (IngestionJob → Database → Database × Option String)) (now : ℕ) (db : Database)
    (job : IngestionJob)
    → HasStatus
        (dispatch o now db job)
        job.id
        (elim o [ none ↦ failed | some handler ↦ settled job (handler job db).1 ])
dispatch-HasStatus none now db job =
    let error = str_append "Unknown job type: " job.job_type in
    let over : leb job.max_attempts job.max_attempts ≡ true = ground arith in
    subst
      (λ b.
        HasStatus (mark_failed db now job.id error job.max_attempts job.max_attempts) job.id
          (if b then failed else pending))
      over (mark_failed-HasStatus db now job.id error job.max_attempts job.max_attempts)
dispatch-HasStatus (some handler) now db job =
    finish-HasStatus job now (handler job db).0 (handler job db).1

-- Processing settles a job, whatever its handler does: its row is complete when the handler returned;
-- when it raised, failed at the last attempt and pending, to be tried again, before that. A job of
-- another type than the four is failed at once.
pub process_job-HasStatus :
    (handlers : Handlers) (now : ℕ) (db : Database) (job : IngestionJob)
    → HasStatus (process_job handlers now db job) job.id (elim (handler_for handlers job.job_type) [
      | none ↦ failed
      | some handler ↦ settled job (handler job db).1
    ])
unfolding process_job
process_job-HasStatus handlers now db job =
    dispatch-HasStatus (handler_for handlers job.job_type) now db job

mark_failed-find_source :
    (db : Database) (now job_id : ℕ) (error : String) (attempts max_attempts n : ℕ) (j : String)
    → find_source (mark_failed db now job_id error attempts max_attempts) n j ≡ find_source db n j
unfolding mark_failed find_source
mark_failed-find_source db now job_id error attempts max_attempts n j = refl

-- The first of these texts that is not empty.
abbrev pub first_text : List (Option String) → Option String
first_text [] = none
first_text (none ∷ texts) = first_text texts
first_text (some s ∷ texts) = let rest = first_text texts in if str_eq s "" then rest else some s

abbrev is_key : Option String → ℕ → ℕ → String → Bool
is_key none m n j = false
is_key (some ident) m n j = m == n && str_eq ident j

-- Whether this is the key of the source that a job is about: its identifier, else its file name, else its
-- URL.
abbrev pub names_source : IngestionJob → ℕ → String → Bool
names_source job n j =
    let p = job.job_params in
    is_key (first_text (p.source_identifier ∷ p.filename ∷ p.url ∷ [])) job.model_id n j

abbrev pub set_failed : IngestionSource → IngestionSource
set_failed s = record s { status = source_failed }

mark_source_failed-find_source :
    (db : Database) (m : ℕ) (ident : String) (n : ℕ) (j : String)
    → find_source (mark_source_failed db m ident) n j ≡ (
        if m == n && str_eq ident j
        then map_option set_failed (find_source db n j)
        else find_source db n j)
unfolding mark_source_failed
mark_source_failed-find_source db m ident n j =
    find_source-modify_source db m n ident j set_failed (λ s. (refl, refl))

-- The key that `fail_source` reads off `source_of` is the first text.
fail_source-first_text :
    (db : Database) (m : ℕ) (a b c : Option String)
    → fail_source db m (or_else a (or_else b c)) ≡ fail_source db m (first_text (a ∷ b ∷ c ∷ []))
fail_source-first_text db m none none none = refl
fail_source-first_text db m none none (some u) = ground arith
fail_source-first_text db m none (some f) none = ground arith
fail_source-first_text db m none (some f) (some u) = ground arith
fail_source-first_text db m (some s) none none = ground arith
fail_source-first_text db m (some s) none (some u) = ground arith
fail_source-first_text db m (some s) (some f) none = ground arith
fail_source-first_text db m (some s) (some f) (some u) = ground arith

first_text-full :
    (texts : List (Option String)) (s : String) → first_text texts ≡ some s → str_eq s "" ≡ false
first_text-full [] s h = ground (arith, h)
first_text-full (none ∷ texts) s h = first_text-full texts s h
first_text-full (some t ∷ texts) s h = elim (Bool-cases (str_eq t "")) [
  | inl empty ↦ first_text-full texts s (ground (arith, h, empty))
  | inr full ↦ ground (arith, h, full)
]

fail_source-find_source :
    (db : Database) (m : ℕ) (texts : List (Option String)) (n : ℕ) (j : String)
    → find_source (fail_source db m (first_text texts)) n j ≡ (
        if is_key (first_text texts) m n j
        then map_option set_failed (find_source db n j)
        else find_source db n j)
fail_source-find_source db m texts n j = elim (Option-cases (first_text texts)) [
  | inl nothing ↦ rw nothing refl
  | inr (s, named) ↦
      rw (named, first_text-full texts s named) (mark_source_failed-find_source db m s n j)
]

-- whether a handler raised
abbrev pub raised : Option String → Bool
raised none = false
raised (some _) = true

mark_complete-find_source :
    (db : Database) (now job_id n : ℕ) (j : String)
    → find_source (mark_complete db now job_id) n j ≡ find_source db n j
unfolding mark_complete find_source
mark_complete-find_source db now job_id n j = refl

finish-find_source :
    (job : IngestionJob) (now : ℕ) (db : Database) (outcome : Option String) (n : ℕ) (j : String)
    → find_source (finish job now db outcome) n j ≡ (
        if raised outcome && (leb job.max_attempts job.attempts && names_source job n j)
        then map_option set_failed (find_source db n j)
        else find_source db n j)
finish-find_source job now db none n j = mark_complete-find_source db now job.id n j
finish-find_source job now db (some error) n j =
    let p = job.job_params in
    let db' = mark_failed db now job.id error job.attempts job.max_attempts in
    let same = mark_failed-find_source db now job.id error job.attempts job.max_attempts n j in
    let texts = p.source_identifier ∷ p.filename ∷ p.url ∷ [] in
    elim (Bool-cases (leb job.max_attempts job.attempts)) [
      | inr more ↦ rw more same
      | inl last ↦
          rw (last, fail_source-first_text db' job.model_id p.source_identifier p.filename p.url)
            (subst
              (λ o.
                find_source (fail_source db' job.model_id (first_text texts)) n j
                ≡ (if names_source job n j then map_option set_failed o else o))
              same (fail_source-find_source db' job.model_id texts n j))
    ]

-- What a job's handler leaves, and its exception; an unknown type has no handler, and nothing happens.
abbrev pub handled :
    Option (IngestionJob → Database → Database × Option String)
    → Database
    → IngestionJob
    → Database × Option String
handled none db job = (db, none)
handled (some handler) db job = handler job db

dispatch-find_source :
    (o : Option (IngestionJob → Database → Database × Option String)) (now : ℕ) (db : Database)
    (job : IngestionJob) (n : ℕ) (j : String)
    → let done = handled o db job in
      find_source (dispatch o now db job) n j ≡ (
        if raised done.1 && (leb job.max_attempts job.attempts && names_source job n j)
        then map_option set_failed (find_source done.0 n j)
        else find_source done.0 n j)
dispatch-find_source none now db job n j =
    mark_failed-find_source db now job.id _ job.max_attempts job.max_attempts n j
dispatch-find_source (some handler) now db job n j =
    finish-find_source job now (handler job db).0 (handler job db).1 n j

-- Processing a job sets the row under a key to failed exactly when the job's handler raised, the job is
-- on its last attempt, and the key is that of its source: its identifier, else its file name, else its
-- URL, where an empty text counts as missing. Every other row is as the handler left it, and so are all
-- rows when the handler returned, attempts are left, or the job's type has no handler.
pub process_job-fails_source :
    (handlers : Handlers) (now : ℕ) (db : Database) (job : IngestionJob) (n : ℕ) (j : String)
    → let done = handled (handler_for handlers job.job_type) db job in
      find_source (process_job handlers now db job) n j ≡ (
        if raised done.1 && (leb job.max_attempts job.attempts && names_source job n j)
        then map_option set_failed (find_source done.0 n j)
        else find_source done.0 n j)
unfolding process_job
process_job-fails_source handlers now db job n j =
    dispatch-find_source (handler_for handlers job.job_type) now db job n j
