-- ===== src/Sources/Reingested.antt =====
-- What a request to reingest leaves, for every reply.
use ragr.Prelude.{
  ◌==◌, if◌then◌else◌, Bool-cases, length, filter, any, length-filter-le, length-map, All, ℕ, suc,
  ◌+◌, ◌-◌, String, ◌≡◌, refl, sym, ap, ◌∙◌, subst, ◌⊎◌, inl, inr, Bool, true, false, ◌&&◌, not,
  Option, none, some, List, [], ◌∷◌, ◌++◌, map, append_assoc, append-nil, arith, str_eq,
}
use ragr.Text.{Text}
use ragr.Models.{RagModel}
use ragr.Models.Source.{pending, IngestionSource}
use ragr.Models.Job.{JobParams, no_params, IngestionJob}
use ragr.Models.Job.{pending as job_pending}
use ragr.RateLimit.{is_allowed}
use ragr.Ingest.Db.{Database, find_source, modify_source, map_option, find_source-modify_source}
use ragr.Ingest.Queueing.{enqueue, enqueue-find_source}
use ragr.Dependencies.{Reply, allow, http_exception, exception}
use ragr.Sources.{Api, ingest_key, limited}
use ragr.Sources.Reingest.{
  Mode, is_skipped, plan_reingest, ReingestItem, ReingestResponse, item_of, job_type_of,
  queue_planned, queue_sources, queue_reingest, sources_of, reingest_all_sources, has_content,
}

-- a job that needs the stored text, if there is any
abbrev with_text : Option Text → String × JobParams → Option (String × JobParams)
with_text none job = none
with_text (some []) job = none
with_text (some (_ ∷ _)) job = some job

-- The job that brings a source up to date: its URL is fetched again, or else its stored text is chunked
-- again; none without both.
abbrev pub job_for : IngestionSource → Option (String × JobParams)
job_for s =
    if str_eq s.source_url ""
    then with_text s.raw_content (
      "file",
      record no_params {
        source_identifier = some s.source_identifier;
        content_type = some s.content_type;
      },
    )
    else some (
      "url",
      record no_params { url = some s.source_url; source_identifier = some s.source_identifier },
    )

abbrev cons_some {ℓ} : {A : Type ℓ} → Option A → List A → List A
cons_some none rest = rest
cons_some (some a) rest = a ∷ rest

-- The jobs that bring sources up to date, in the order of the sources.
abbrev pub planned : List IngestionSource → List (String × JobParams)
planned [] = []
planned (s ∷ sources) = cons_some (job_for s) (planned sources)

abbrev is_some {ℓ} : {A : Type ℓ} → Option A → Bool
is_some none = false
is_some (some _) = true

abbrev pub is_planned : IngestionSource → Bool
is_planned s = is_some (job_for s)

-- whether a source that can be brought up to date has this key
abbrev pub planned_at : List IngestionSource → ℕ → String → Bool
planned_at sources n j =
    any (λ (s : IngestionSource). is_planned s && (s.model_id == n && str_eq s.source_identifier j))
      sources

abbrev pub set_pending : IngestionSource → IngestionSource
set_pending s = record s { status = pending }

-- From `db` to `db'`, the jobs for the sources were added, in this order; the rows of the sources with a
-- job are pending, and all else in the rows, the other rows and the chunks are as they were.
pub record Requeued (db db' : Database) (m : ℕ) (sources : List IngestionSource) : Type 0 where
  pub added : List IngestionJob
  pub jobs : db'.jobs ≡ db.jobs ++ added
  pub requested : map (λ (j : IngestionJob). (j.job_type, j.job_params)) added ≡ planned sources
  pub fresh :
      All
        (λ (j : IngestionJob). (j.model_id ≡ m) × ((j.status ≡ job_pending) × (j.attempts ≡ 0)))
        added
  pub rows :
      (n : ℕ) (j : String)
      → find_source db' n j ≡ (
          if planned_at sources n j
          then map_option set_pending (find_source db n j)
          else find_source db n j)
  pub chunks : db'.chunks ≡ db.chunks

with_text-has_content :
    (o : Option Text) (job : String × JobParams)
    → with_text o job ≡ (if has_content o then some job else none)
with_text-has_content none job = refl
with_text-has_content (some []) job = refl
with_text-has_content (some (_ ∷ _)) job = refl

-- The plan of a source is its job.
plan-cases :
    (s : IngestionSource)
    → ((is_skipped (plan_reingest s).mode ≡ true)
        × (((plan_reingest s).params ≡ none) × (job_for s ≡ none)))
      ⊎ ((is_skipped (plan_reingest s).mode ≡ false)
          × ((p : JobParams) × (((plan_reingest s).params ≡ some p)
                × (job_for s ≡ some (job_type_of (plan_reingest s).mode, p)))))
unfolding plan_reingest
plan-cases s = elim (Bool-cases (str_eq s.source_url "")) [
  | inr url ↦ rw url (inr (refl, (_, (refl, refl))))
  | inl bare ↦ elim (Bool-cases (has_content s.raw_content)) [
    | inl text ↦
        rw (bare, text)
          (inr (refl, (_, (refl, with_text-has_content s.raw_content _ ∙ rw text refl))))
    | inr empty ↦
        rw (bare, empty) (inl (refl, (refl, with_text-has_content s.raw_content _ ∙ rw empty refl)))
  ]
]

module _ (now m : ℕ) where
  queue_planned-rows :
      (db : Database) (s : IngestionSource) (mode : Mode) (params : JobParams) (n : ℕ) (j : String)
      → find_source (queue_planned db now m s mode (some params)) n j ≡ (
          if s.model_id == n && str_eq s.source_identifier j
          then map_option set_pending (find_source db n j)
          else find_source db n j)
  unfolding queue_planned
  queue_planned-rows db s mode params n j =
      find_source-modify_source (enqueue db now m (job_type_of mode) params) s.model_id n
        s.source_identifier j set_pending (λ t. (refl, refl))
      ∙ rw (enqueue-find_source db now m (job_type_of mode) params n j) refl

  twice :
      (o : Option IngestionSource)
      → map_option set_pending (map_option set_pending o) ≡ map_option set_pending o
  twice none = refl
  twice (some s) = refl

  Requeued-skip :
      {db db' : Database} {s : IngestionSource} {sources : List IngestionSource}
      → job_for s ≡ none
      → Requeued db db' m sources
      → Requeued db db' m (s ∷ sources)
  Requeued-skip nothing r = record {
    added = r.added;
    jobs = r.jobs;
    requested = rw nothing r.requested;
    fresh = r.fresh;
    rows = λ n j. rw nothing (r.rows n j);
    chunks = r.chunks;
  }

  Requeued-plan :
      (db db' : Database) (s : IngestionSource) (sources : List IngestionSource) (p : JobParams)
      → job_for s ≡ some (job_type_of (plan_reingest s).mode, p)
      → Requeued (queue_planned db now m s (plan_reingest s).mode (some p)) db' m sources
      → Requeued db db' m (s ∷ sources)
  unfolding queue_planned enqueue modify_source
  Requeued-plan db db' s sources p job r =
      let first = queue_planned-rows db s (plan_reingest s).mode p in
      record {
        added = _ ∷ r.added;
        jobs = r.jobs ∙ append_assoc db.jobs _ r.added;
        requested = rw job (ap (λ l. (job_type_of (plan_reingest s).mode, p) ∷ l) r.requested);
        fresh = ((refl, (refl, refl)), r.fresh);
        rows = λ n j.
            r.rows n j
            ∙ rw (first n j, job)
                (elim (Bool-cases (s.model_id == n && str_eq s.source_identifier j)) [
                  | inl same ↦ rw same (ground (arith, twice (find_source db n j)))
                  | inr other ↦ rw other refl
                ]);
        chunks = r.chunks;
      }

  queue_sources-Requeued :
      (db : Database) (sources : List IngestionSource)
      → Requeued db (queue_sources db now m sources) m sources
  unfolding queue_sources
  queue_sources-Requeued db [] = record {
    added = [];
    jobs = sym (append-nil db.jobs);
    requested = refl;
    fresh = tt;
    rows = λ n j. refl;
    chunks = refl;
  }
  queue_sources-Requeued db (s ∷ sources) = elim (plan-cases s) [
    | inl (skip, (nothing, no_job)) ↦
        subst
          (λ o.
            Requeued db
              (queue_sources (queue_planned db now m s (plan_reingest s).mode o) now m sources) m
              (s ∷ sources))
          (sym nothing) (Requeued-skip no_job (queue_sources-Requeued db sources))
    | inr (here, (p, (given, job))) ↦
        subst
          (λ o.
            Requeued db
              (queue_sources (queue_planned db now m s (plan_reingest s).mode o) now m sources) m
              (s ∷ sources))
          (sym given)
          (Requeued-plan db _ s sources p job (
            queue_sources-Requeued (queue_planned db now m s (plan_reingest s).mode (some p))
              sources))
  ]

abbrev queued_items : List IngestionSource → List ReingestItem
queued_items sources = filter (λ (i : ReingestItem). not (is_skipped i.mode)) (map item_of sources)

queued-length :
    (sources : List IngestionSource) → length (queued_items sources) ≡ length (planned sources)
queued-length [] = refl
queued-length (s ∷ sources) =
    let ih = queued-length sources in
    elim (plan-cases s) [
      | inl (skip, (_, no_job)) ↦ rw (skip, no_job) ih
      | inr (here, (p, (_, job))) ↦ rw (here, job) (ap suc ih)
    ]

counts :
    (sources : List IngestionSource)
    → length (queued_items sources) + (length (map item_of sources) - length (queued_items sources))
      ≡ length sources
counts sources = omega (
  arith,
  length-filter-le (λ (i : ReingestItem). not (is_skipped i.mode)) (map item_of sources),
  length-map item_of sources,
)

-- What the reply to a request to reingest all sources says of the tables before and after it.
abbrev pub IsReingested : Api → ℕ → RagModel → Database → Reply ReingestResponse → Type 0
IsReingested api now model db' (allow response) =
    let sources = sources_of api.db model.id in
    Requeued api.db db' model.id sources
    × ((response.queued ≡ length (planned sources))
        × (response.queued + response.skipped_count ≡ length sources))
IsReingested api now model db' (http_exception code detail) =
    (db' ≡ api.db)
    × (((code ≡ 429) × ((is_allowed api.limiter now (ingest_key model.id)).1 ≡ false))
        ⊎ ((code ≡ 404) × (sources_of api.db model.id ≡ [])))
IsReingested api now model db' exception = false ≡ true

List-cases :
    (sources : List IngestionSource)
    → (sources ≡ [])
      ⊎ ((s : IngestionSource) × ((rest : List IngestionSource) × (sources ≡ s ∷ rest)))
List-cases [] = inl refl
List-cases (s ∷ rest) = inr (s, (rest, refl))

-- If the reply to a request to reingest all sources is a success, one fresh job was added for each source
-- of the model that can be fetched or chunked again, in their order and with its URL or its text's type;
-- their rows are pending, and all else in the rows, the other rows and the chunks are as they were; and
-- the counts of the reply are those of the jobs and of the other sources. If it is an error, the tables
-- are as before, and the limiter had refused (429) or the model has no source (404).
pub reingest_all_sources-IsReingested :
    (api : Api) (now : ℕ) (model : RagModel)
    → let done = reingest_all_sources api now model in IsReingested api now model done.0.db done.1
unfolding reingest_all_sources limited queue_reingest
reingest_all_sources-IsReingested api now model =
    let sources = sources_of api.db model.id in
    elim (Bool-cases (is_allowed api.limiter now (ingest_key model.id)).1) [
      | inr refused ↦ rw refused (refl, inl (refl, refused))
      | inl allowed ↦ elim (List-cases sources) [
        | inl nothing ↦ rw (allowed, nothing) (refl, inr (refl, nothing))
        | inr (s, (rest, e)) ↦
            rw (allowed, e)
              (
                subst (Requeued api.db (queue_sources api.db now model.id (s ∷ rest)) model.id)
                    (sym e) (queue_sources-Requeued now model.id api.db (s ∷ rest)),
                (
                  ap (λ l. length (queued_items l)) (sym e) ∙ queued-length sources,
                  counts (s ∷ rest) ∙ ap length (sym e),
                ),
              )
      ]
    ]
