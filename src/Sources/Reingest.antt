-- ===== src/Sources/Reingest.antt =====
-- app/api/sources.py: `_plan_reingest`, `_queue_reingest` and their routes.
use ragr.Prelude.{
  ◌==◌, if◌then◌else◌, length, filter, ℕ, ◌-◌, String, Bool, true, false, not, Option, none, some,
  List, [], ◌∷◌, map, str_eq,
}
use ragr.Text.{Text, is_empty}
use ragr.Str.{◌+s◌}
use ragr.Models.{RagModel}
use ragr.Models.Source.{pending, IngestionSource}
use ragr.Models.Job.{JobParams, no_params}
use ragr.Ingest.Db.{Database, find_source, modify_source}
use ragr.Ingest.Queueing.{enqueue}
use ragr.Dependencies.{Reply, allow, http_exception}
use ragr.Sources.{Api, limited}

pub data Mode : Type 0 where
  refetch rechunk skipped : Mode

abbrev pub is_skipped : Mode → Bool
is_skipped skipped = true
is_skipped _ = false

pub record Plan : Type 0 where
  pub mode : Mode
  pub params : Option JobParams
  pub reason : Option String

abbrev pub has_content : Option Text → Bool
has_content none = false
has_content (some text) = not (is_empty text)

unfoldable pub plan_reingest : IngestionSource → Plan
plan_reingest source =
    if not (str_eq source.source_url "")
    then record {
      mode = refetch;
      params = some (record no_params {
        url = some source.source_url;
        source_identifier = some source.source_identifier;
      });
      reason = none;
    }
    else if has_content source.raw_content
    then record {
      mode = rechunk;
      params = some (record no_params {
        source_identifier = some source.source_identifier;
        content_type = some source.content_type;
      });
      reason = none;
    }
    else record {
      mode = skipped;
      params = none;
      reason = some "no source_url to re-fetch and no stored content to re-chunk";
    }

pub record ReingestItem : Type 0 where
  pub source_identifier : String
  pub mode : Mode
  pub reason : Option String

pub record ReingestResponse : Type 0 where
  pub model_slug : String
  pub queued : ℕ
  pub skipped_count : ℕ
  pub sources : List ReingestItem

abbrev pub item_of : IngestionSource → ReingestItem
item_of source =
    let plan = plan_reingest source in
    record { source_identifier = source.source_identifier; mode = plan.mode; reason = plan.reason }

abbrev pub job_type_of : Mode → String
job_type_of refetch = "url"
job_type_of _ = "file"

-- the job and the status of one source, if it has a plan
unfoldable pub queue_planned :
    Database → ℕ → ℕ → IngestionSource → Mode → Option JobParams → Database
queue_planned db now model_id source mode none = db
queue_planned db now model_id source mode (some params) =
    modify_source (enqueue db now model_id (job_type_of mode) params) source.model_id
      source.source_identifier (λ s. record s { status = pending })

-- the loop over the sources
unfoldable pub queue_sources : Database → ℕ → ℕ → List IngestionSource → Database
unfolding queue_planned plan_reingest
queue_sources db now model_id [] = db
queue_sources db now model_id (source ∷ sources) =
    let plan = plan_reingest source in
    queue_sources (queue_planned db now model_id source plan.mode plan.params) now model_id sources

unfoldable pub queue_reingest :
    Database → ℕ → RagModel → List IngestionSource → Database × ReingestResponse
unfolding queue_sources
queue_reingest db now model sources =
    let items = map item_of sources in
    let queued = length (filter (λ (i : ReingestItem). not (is_skipped i.mode)) items) in
    (
      queue_sources db now model.id sources,
      record {
        model_slug = model.slug;
        queued = queued;
        skipped_count = length items - queued;
        sources = items;
      },
    )

abbrev pub sources_of : Database → ℕ → List IngestionSource
sources_of db model_id = filter (λ (s : IngestionSource). s.model_id == model_id) db.sources

abbrev reingest_some : Api → ℕ → RagModel → List IngestionSource → Api × Reply ReingestResponse
reingest_some api now model [] = (api, http_exception 404 "Model has no sources to reingest")
reingest_some api now model (s ∷ sources) =
    let done = queue_reingest api.db now model (s ∷ sources) in
    (record api { db = done.0 }, allow done.1)

unfoldable pub reingest_all_sources : Api → ℕ → RagModel → Api × Reply ReingestResponse
unfolding limited queue_reingest
reingest_all_sources api now model =
    limited api now model.id (λ a. reingest_some a now model (sources_of a.db model.id))

abbrev reingest_found :
    Database → ℕ → RagModel → String → Option IngestionSource → Database × Reply ReingestResponse
reingest_found db now model ident none = (db, http_exception 404 ("Source not found: " +s ident))
reingest_found db now model ident (some source) =
    let done = queue_reingest db now model (source ∷ []) in (done.0, allow done.1)

unfoldable pub reingest_source :
    Database → ℕ → RagModel → String → Database × Reply ReingestResponse
unfolding queue_reingest
reingest_source db now model ident =
    reingest_found db now model ident (find_source db model.id ident)
