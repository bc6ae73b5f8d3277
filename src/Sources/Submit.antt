-- ===== src/Sources/Submit.antt =====
-- app/api/sources.py: the routes that queue URLs and crawls. `urlparse`, `unquote` and the resolver are
-- parameters, and `urlparse` returns for a URL of a request, which the schema has parsed. An
-- HTTPException or any other exception before the commit leaves the tables as they were; only an
-- SSRFError becomes an HTTPException.
use ragr.Prelude.{if◌then◌else◌, ℕ, String, Option, none, some, List, [], ◌∷◌, map, str_eq}
use ragr.Text.{Text}
use ragr.Str.{◌+s◌, decimal_str}
use ragr.Models.{RagModel}
use ragr.UrlValidation.{ParsedUrl, Resolver, Validity, valid, ssrf_error, value_error, validate_url}
use ragr.Wikipedia.{is_wikipedia_url}
use ragr.Crawler.{normalize_url}
use ragr.Ingest.Db.{Database}
use ragr.Ingest.Queueing.{queue_url, queue_crawl}
use ragr.Dependencies.{Reply, allow, http_exception, exception}
use ragr.Sources.{Api, limited}

pub record CreateSourceRequest : Type 0 where
  pub source_identifier : Option String
  pub url : Option String
  pub urls : Option (List String)

pub record CreateSourceResponse : Type 0 where
  pub source_identifier : String
  pub status : String
  pub message : String

abbrev pub pending_response : String → String → CreateSourceResponse
pending_response ident message = record {
  source_identifier = ident;
  status = "pending";
  message = message;
}

-- body.source_identifier or body.url
abbrev or_url : Option String → String → String
or_url none url = url
or_url (some ident) url = if str_eq ident "" then url else ident

abbrev single : Option String → Option String → Option (List (String × String))
single ident none = none
single ident (some url) = some ((url, or_url ident url) ∷ [])

-- The URLs to queue, each with its source's identifier; none if the request has no URL.
abbrev pub targets_of : CreateSourceRequest → Option (List (String × String))
targets_of body = elim body.urls [
  | none ↦ single body.source_identifier body.url
  | some urls ↦ elim urls [
    | [] ↦ single body.source_identifier body.url
    | u ∷ us ↦ some (map (λ v. (v, v)) (u ∷ us))
  ]
]

unfoldable pub queue_urls : Database → ℕ → ℕ → List (String × String) → Database
queue_urls db now model_id [] = db
queue_urls db now model_id ((url, ident) ∷ targets) =
    queue_urls (queue_url db now model_id ident url) now model_id targets

module _ (urlparse : String → ParsedUrl) (unquote : Text → Text) (getaddrinfo : Resolver) where
  -- why a URL may not be fetched; an article of Wikipedia always may
  abbrev pub refusal : String → Validity
  refusal url =
      if is_wikipedia_url urlparse unquote url then valid else validate_url urlparse getaddrinfo url

  abbrev or_later : Validity → Validity → Validity
  or_later valid later = later
  or_later (ssrf_error message) later = ssrf_error message
  or_later (value_error message) later = value_error message

  -- the loop of the validation, up to its first error
  unfoldable pub first_refusal : List (String × String) → Validity
  first_refusal [] = valid
  first_refusal ((url, _) ∷ targets) = or_later (refusal url) (first_refusal targets)

  abbrev pub queue_targets :
      Api → ℕ → ℕ → List (String × String) → Validity → Api × Reply (List CreateSourceResponse)
  queue_targets api now model_id targets (ssrf_error message) = (api, http_exception 422 message)
  queue_targets api now model_id targets (value_error message) = (api, exception)
  queue_targets api now model_id targets valid = (
    record api { db = queue_urls api.db now model_id targets },
    allow (
        map (λ (t : String × String). pending_response t.1 ("URL ingestion started for " +s t.0))
          targets),
  )

  abbrev pub submit_targets :
      Api → ℕ → ℕ → Option (List (String × String)) → Api × Reply (List CreateSourceResponse)
  submit_targets api now model_id none = (api, http_exception 422 "Provide one of 'url' or 'urls'")
  submit_targets api now model_id (some targets) =
      queue_targets api now model_id targets (first_refusal targets)

  unfoldable pub create_source :
      Api → ℕ → RagModel → CreateSourceRequest → Api × Reply (List CreateSourceResponse)
  unfolding limited first_refusal queue_urls
  create_source api now model body =
      limited api now model.id (λ a. submit_targets a now model.id (targets_of body))

pub record CrawlRequest : Type 0 where
  pub url : String
  pub max_pages : ℕ
  pub max_depth : ℕ
  pub prefix : Option String
  pub exclude_patterns : Option (List String)

pub record CrawlResponse : Type 0 where
  pub status : String
  pub message : String
  pub pages_queued : ℕ

abbrev pub crawl_response : CrawlRequest → CrawlResponse
crawl_response body = record {
  status = "pending";
  message =
      "Crawling "
      +s (body.url
          +s (" (max "
              +s (decimal_str body.max_pages
                  +s (" pages, depth " +s (decimal_str body.max_depth +s ")")))));
  pages_queued = 0;
}

module _ (urlparse : String → ParsedUrl) (unquote : Text → Text) (getaddrinfo : Resolver) where
  abbrev submit_crawl : Api → ℕ → ℕ → CrawlRequest → Validity → Api × Reply CrawlResponse
  submit_crawl api now model_id body (ssrf_error message) = (api, http_exception 422 message)
  submit_crawl api now model_id body (value_error message) = (api, exception)
  submit_crawl api now model_id body valid = (
    record api {
      db =
          queue_crawl api.db now model_id (normalize_url urlparse body.url) body.max_pages
            body.max_depth body.prefix body.exclude_patterns;
    },
    allow (crawl_response body),
  )

  unfoldable pub crawl_site_endpoint : Api → ℕ → RagModel → CrawlRequest → Api × Reply CrawlResponse
  unfolding limited
  crawl_site_endpoint api now model body =
      limited api now model.id
        (λ a. submit_crawl a now model.id body (refusal urlparse unquote getaddrinfo body.url))
