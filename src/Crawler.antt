-- ===== src/Crawler.antt =====
-- app/services/crawler.py: pages are fetched with their redirects, and a site is crawled breadth first.
-- What the network answers to a URL is a parameter: an answer that changes between two requests of one
-- URL is not seen. `urlparse`, `urljoin`, `fnmatch` and the
-- parts of `parse_html` that call libraries are parameters too.
pub mod Fetch
pub mod Site
pub mod Bounds
pub mod Ends
pub mod Once
mod Tests
use ragr.Prelude.{
  ltb, leb, ◌==◌, if◌then◌else◌, ltb→lt, leb→le, ==_iff, Bool-cases, Option-cases, length, take,
  drop, get_elem?, filter, get_last?, get_last?-concat, any, all, length-append, length-take,
  length-drop, take-append-drop, filter-append, length-filter-le, length-map, All, All-append,
  All-filter, All-take, All-map, filter-All, any-filter, ℕ, zero, suc, ◌+◌, ◌-◌, ◌*◌, ◌/◌, ◌%◌, ◌^◌,
  ◌≤◌, ◌<◌, min, max, String, ◌≡◌, refl, sym, ap, ap₂, ◌∙◌, fun_ext, subst, ◌≢◌, ◌↔◌, ◌⊎◌, inl, inr,
  Bool, true, false, ◌&&◌, ◌||◌, not, Option, none, some, List, [], ◌∷◌, ◌++◌, map, append_assoc,
  append-nil, map-append, arith, str_eq, eq_iff, eq_refl,
}
use ragr.Text.{Text}
use ragr.Str.{◌+s◌, rstrip}
use ragr.UrlValidation.{ParsedUrl}

-- what the code reads of an HTTP response; `content_length` is the header as a number
pub record Response : Type 0 where
  pub status_code : ℕ
  pub location : Option String
  pub content_type : String
  pub content_length : ℕ
  pub size : ℕ
  pub text : Text

pub data Fetched : Type 0 where
  response : Response → Fetched
  error : String → Fetched

-- `raise_for_status` raises unless the status is one of success
abbrev pub is_success : Response → Bool
is_success resp = leb 200 resp.status_code && ltb resp.status_code 300

-- why a page is not ingested
pub data Reason : Type 0 where
  not_html oversized empty_render thin fetch_failed : Reason

pub data Item : Type 0 where
  crawled_page : String → Text → Item
  failed_page : String → String → Item
  skipped_page : String → Reason → String → Item

abbrev or_slash : String → String
or_slash path = if str_eq path "" then "/" else path

abbrev pub canonical : ParsedUrl → String
canonical parsed = parsed.scheme +s ("://" +s (parsed.netloc +s or_slash (rstrip b'/' parsed.path)))

unfoldable pub normalize_url : (String → ParsedUrl) → String → String
normalize_url urlparse url = canonical (urlparse url)

abbrev pub detail_of : Option String → String
detail_of none = "None"
detail_of (some detail) = detail

unfoldable pub explain_empty_crawl : Option Reason → Option String → String
explain_empty_crawl (some empty_render) detail =
    "Fetched the page successfully, but it contained no readable text and no links. This site renders its content in the browser (a JavaScript app), and RAGr reads only the HTML the server sends. Add your content directly instead."
explain_empty_crawl (some thin) detail =
    "Fetched the page, but it had too little readable text to index (" +s (detail_of detail +s ").")
explain_empty_crawl (some not_html) detail =
    "The URL returned " +s (detail_of detail +s ", not an HTML page.")
explain_empty_crawl (some oversized) detail =
    "The page was larger than the 10 MB limit (" +s (detail_of detail +s ").")
explain_empty_crawl (some fetch_failed) detail = "Could not fetch the page: " +s detail_of detail
explain_empty_crawl none detail = "The crawl finished without finding any readable pages."
