-- ===== src/Ingest/Queued.antt =====
-- What a sequence of queueings leaves: the jobs it adds, and the rows it marks as pending.
use ragr.Prelude.{
  ◌==◌, if◌then◌else◌, Bool-cases, Option-cases, any, All, All-append, ℕ, String, ◌≡◌, refl, sym,
  ap, ap₂, ◌∙◌, subst, inl, inr, Bool, true, false, ◌&&◌, Option, none, some, List, [], ◌∷◌, ◌++◌,
  map, append_assoc, append-nil, map-append, arith, str_eq, eq_iff, eq_refl,
}
use ragr.Text.{Text}
use ragr.Models.Source.{SourceStatus, pending}
use ragr.Models.Job.{JobParams, no_params, IngestionJob}
use ragr.Models.Job.{pending as job_pending}
use ragr.Ingest.Db.{Database, find_source, upsert_source, find_source-upsert_source, map_option}
use ragr.Ingest.Queueing.{
  refresh, pending_source, refresh-keeps_key, refresh-keeps_ingest, upsert_pending_source, enqueue,
  upsert_pending_source-other, queue_url, queue_file, queue_r2_file,
}

-- The status of the row under a key.
abbrev pub status_at : Database → ℕ → String → Option SourceStatus
status_at db m i = map_option (λ s. s.status) (find_source db m i)

-- A job of this kind that was never tried.
abbrev pub IsFresh : ℕ → String → IngestionJob → Type 0
IsFresh m job_type job =
    (job.model_id ≡ m)
    × ((job.job_type ≡ job_type) × ((job.status ≡ job_pending) × (job.attempts ≡ 0)))

abbrev pub any_key : ℕ → List String → ℕ → String → Bool
any_key m idents n j = any (λ i. m == n && str_eq i j) idents

-- From `db` to `db'`, fresh jobs with these parameters were added, in this order; the rows under these
-- identifiers are pending; the rows under other keys and the chunks are as they were.
pub record Queued (db db' : Database) (m : ℕ) (job_type : String) (params : List JobParams)
    (idents : List String) : Type 0 where
  pub added : List IngestionJob
  pub jobs : db'.jobs ≡ db.jobs ++ added
  pub requested : map (λ (j : IngestionJob). j.job_params) added ≡ params
  pub fresh : All (IsFresh m job_type) added
  pub rows : All (λ i. status_at db' m i ≡ some pending) idents
  pub others :
      (n : ℕ) (j : String)
      → (if any_key m idents n j then find_source db n j else find_source db' n j)
        ≡ find_source db n j
  pub chunks : db'.chunks ≡ db.chunks

pub Queued-nil : (db : Database) (m : ℕ) (job_type : String) → Queued db db m job_type [] []
Queued-nil db m job_type = record {
  added = [];
  jobs = sym (append-nil db.jobs);
  requested = refl;
  fresh = tt;
  rows = tt;
  others = λ n j. refl;
  chunks = refl;
}

row-of_any :
    (db : Database) (m : ℕ) (i : String) (idents : List String)
    → All (λ k. status_at db m k ≡ some pending) idents
    → any_key m idents m i ≡ true
    → status_at db m i ≡ some pending
row-of_any db m i [] rows h = ground (arith, h)
row-of_any db m i (k ∷ idents) rows h = elim (Bool-cases (str_eq k i)) [
  | inl same ↦
      subst (λ l. status_at db m l ≡ some pending) (ground (arith, same, eq_iff k i)) rows.0
  | inr other ↦ row-of_any db m i idents rows.1 (ground (arith, h, other))
]

not_any :
    {db db' : Database} {m : ℕ} {job_type : String} {ps : List JobParams} {is : List String}
    → Queued db db' m job_type ps is
    → (n : ℕ) (j : String) → any_key m is n j ≡ false
    → find_source db' n j ≡ find_source db n j
not_any q n j h = ground (arith, q.others n j, h)

pub Queued-cons :
    {db db₁ db₂ : Database} {m : ℕ} {job_type : String} {p : JobParams} {ps : List JobParams}
    {i : String} {is : List String}
    → Queued db db₁ m job_type (p ∷ []) (i ∷ [])
    → Queued db₁ db₂ m job_type ps is
    → Queued db db₂ m job_type (p ∷ ps) (i ∷ is)
Queued-cons {db} {db₁} {db₂} {m} {job_type} {p} {ps} {i} {is} a b = record {
  added = a.added ++ b.added;
  jobs = b.jobs ∙ (ap (λ l. l ++ b.added) a.jobs ∙ append_assoc db.jobs a.added b.added);
  requested =
      map-append (λ (j : IngestionJob). j.job_params) a.added b.added
      ∙ ap₂ (λ k l. k ++ l) a.requested b.requested;
  fresh = All-append (IsFresh m job_type) a.added b.added a.fresh b.fresh;
  rows = (
    elim (Bool-cases (any_key m is m i)) [
      | inl again ↦ row-of_any db₂ m i is b.rows again
      | inr once ↦ ap (map_option (λ s. s.status)) (not_any b m i once) ∙ a.rows.0
    ],
    b.rows,
  );
  others = λ n j. elim (Bool-cases (any_key m (i ∷ is) n j)) [
    | inl here ↦ rw here refl
    | inr away ↦
        rw away (not_any b n j (ground (arith, away)) ∙ not_any a n j (ground (arith, away)))
  ];
  chunks = b.chunks ∙ a.chunks;
}

status_at-upsert_pending_source :
    (db : Database) (m : ℕ) (ident url ctype : String) (raw : Option Text)
    → status_at (upsert_pending_source db m ident url ctype pending raw) m ident ≡ some pending
unfolding upsert_pending_source
status_at-upsert_pending_source db m ident url ctype raw =
    let new = pending_source db.next_id m ident url ctype pending raw in
    let row = find_source-upsert_source db new refresh m ident (λ t. refresh-keeps_key t new) in
    elim (Option-cases (find_source db m ident)) [
      | inl nowhere ↦ ground (arith, row, nowhere, eq_refl ident)
      | inr (s, there) ↦
          ground (arith, row, there, eq_refl ident, (refresh-keeps_ingest s new).1.1.1)
    ]

queue-Queued :
    (db : Database) (now m : ℕ) (ident url ctype : String) (raw : Option Text) (job_type : String)
    (params : JobParams)
    → Queued db
        (enqueue (upsert_pending_source db m ident url ctype pending raw) now m job_type params)
        m
        job_type
        (params ∷ [])
        (ident ∷ [])
unfolding enqueue upsert_pending_source upsert_source find_source
queue-Queued db now m ident url ctype raw job_type params = record {
  added = _;
  jobs = refl;
  requested = refl;
  fresh = ((refl, (refl, (refl, refl))), tt);
  rows = (status_at-upsert_pending_source db m ident url ctype raw, tt);
  others = λ n j. elim (Bool-cases (m == n && str_eq ident j)) [
    | inl here ↦ ground (arith, here)
    | inr away ↦
        ground (arith, away, upsert_pending_source-other db m ident url ctype pending raw n j away)
  ];
  chunks = refl;
}

pub queue_url-Queued :
    (db : Database) (now m : ℕ) (ident url : String)
    → Queued db
        (queue_url db now m ident url)
        m
        "url"
        (record no_params { url = some url; source_identifier = some ident } ∷ [])
        (ident ∷ [])
unfolding queue_url
queue_url-Queued db now m ident url = queue-Queued db now m ident url "html" none "url" _

pub queue_r2_file-Queued :
    (db : Database) (now m : ℕ) (filename key : String)
    → Queued db
        (queue_r2_file db now m filename key)
        m
        "r2_file"
        (record no_params { object_key = some key; filename = some filename } ∷ [])
        (filename ∷ [])
unfolding queue_r2_file
queue_r2_file-Queued db now m filename key =
    queue-Queued db now m filename "" "pending" none "r2_file" _

pub queue_file-Queued :
    (db : Database) (now m : ℕ) (ident ctype : String) (text : Text) (url : String)
    (parent : Option ℕ)
    → Queued db
        (queue_file db now m ident ctype text url parent)
        m
        "file"
        (record no_params {
          source_identifier = some ident;
          content_type = some ctype;
          parent_job_id = parent;
        }
          ∷ [])
        (ident ∷ [])
unfolding queue_file
queue_file-Queued db now m ident ctype text url parent =
    queue-Queued db now m ident url ctype (some text) "file" _
