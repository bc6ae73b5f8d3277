-- ===== src/Crawler/Tests.antt =====
-- Runs of the crawler on a small site.
use ragr.Prelude.{
  if◌then◌else◌, length, All, ℕ, ◌≤◌, String, ◌≡◌, refl, Bool, true, false, none, some, List, [],
  ◌∷◌, map, str_eq,
}
use ragr.Text.{Text, codes}
use ragr.Str.{rstrip}
use ragr.UrlValidation.{ParsedUrl, Address, Resolver, addresses, validate_url}
use ragr.Wikipedia.{parse_wikipedia_url, is_wikipedia_url, is_wikipedia_domain}
use ragr.Crawler.{Fetched, response, error, Item, crawled_page, failed_page}
use ragr.Crawler.Fetch.{RequestsSafely, fetch_page, fetch_page-RequestsSafely}
use ragr.Crawler.Site.{Libraries, Settings, crawl_site}
use ragr.Crawler.Bounds.{pages}
use ragr.Crawler.Ends.{crawl_site-ends}
use ragr.Crawler.Once.{IsDistinct, url_of, may_ask, crawl_site-once}

abbrev host : String → String
host url = if str_eq url "https://intra.dev/" then "intra.dev" else "a.dev"

abbrev path : String → String
path url = if str_eq url "https://a.dev/guide" then "/guide" else "/"

abbrev urlparse : String → ParsedUrl
urlparse url = record {
  scheme = "https";
  netloc = host url;
  path = path url;
  hostname = some (host url);
}

abbrev address : Bool → Address
address private = record {
  is_private = private;
  is_loopback = false;
  is_link_local = false;
  is_reserved = false;
  is_multicast = false;
  is_unspecified = false;
}

abbrev getaddrinfo : Resolver
getaddrinfo hostname = addresses (address (str_eq hostname "intra.dev") ∷ [])

abbrev page : Text → Fetched
page text = response (record {
  status_code = 200;
  location = none;
  content_type = "text/html";
  content_length = 0;
  size = 100;
  text = text;
})

abbrev moved : String → Fetched
moved location = response (record {
  status_code = 302;
  location = some location;
  content_type = "";
  content_length = 0;
  size = 0;
  text = [];
})

abbrev prose : Text
prose = codes "RAGr answers questions from the documents that you give it, and cites them."

abbrev site : String → Fetched
site url =
    if str_eq url "https://a.dev/"
    then page prose
    else if str_eq url "https://a.dev/old"
    then moved "https://intra.dev/"
    else error "404 Not Found"

abbrev urljoin : String → String → String
urljoin base href = href

abbrev no_api : Text → Fetched × List String
no_api url = (error "not an article", [])

abbrev lib : Libraries
lib = record {
  urlparse = urlparse;
  urljoin = urljoin;
  unquote = λ t. t;
  getaddrinfo = getaddrinfo;
  fnmatch = λ url pattern. false;
  hrefs = λ html.
      "https://a.dev/guide" ∷ "https://a.dev/" ∷ "https://intra.dev/" ∷ "https://a.dev/guide" ∷ [];
  markdown = λ html. html;
  show_mb = λ n. "";
  status_message = λ n. "";
}

abbrev settings : Settings
settings = record {
  root_url = "https://a.dev";
  max_pages = 10;
  max_depth = 3;
  prefix = none;
  exclude_patterns = [];
}

-- A redirect to a private address is not followed.
blocked :
    fetch_page urlparse urljoin getaddrinfo site (λ t. t) no_api "https://a.dev/old"
    ≡ (error "Blocked request to private/reserved address", "https://a.dev/old" ∷ [])
unfolding fetch_page validate_url
blocked = refl

abbrev items : List Item
items = crawled_page "https://a.dev/" prose ∷ failed_page "https://a.dev/guide" "404 Not Found" ∷ []

crawled : crawl_site lib site 3 settings ≡ some items
unfolding crawl_site rstrip validate_url is_wikipedia_url is_wikipedia_domain
crawled = refl

no_article : parse_wikipedia_url urlparse (λ t. t) "https://a.dev/old" ≡ none
unfolding parse_wikipedia_url
no_article = refl

fetch_page-RequestsSafely_example :
    let done = fetch_page urlparse urljoin getaddrinfo site (λ t. t) no_api "https://a.dev/old" in
    RequestsSafely urlparse urljoin getaddrinfo site "https://a.dev/old" done.1
    × (length done.1 ≤ 6)
fetch_page-RequestsSafely_example =
    fetch_page-RequestsSafely urlparse urljoin getaddrinfo site (λ t. t) no_api "https://a.dev/old"
      no_article

crawl_site-ends_example :
    (fuel : ℕ) × ((items : List Item) × (crawl_site lib site fuel settings ≡ some items))
crawl_site-ends_example = crawl_site-ends lib site settings

crawl_site-once_example :
    IsDistinct (map url_of items)
    × (All (λ url. may_ask lib site settings url ≡ true) (map url_of items) × (pages items ≤ 10))
crawl_site-once_example = crawl_site-once lib site settings 3 items crawled
