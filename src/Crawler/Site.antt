-- ===== src/Crawler/Site.antt =====
-- `crawl_site`, and `parse_html` of app/services/html.py. The network, the HTML library and the formats of
-- numbers are parameters.
use ragr.Prelude.{
  ltb, leb, if◌then◌else◌, length, any, ℕ, zero, suc, ◌-◌, ◌*◌, min, String, Bool, true, false,
  ◌&&◌, ◌||◌, not, Option, none, some, List, [], ◌∷◌, ◌++◌, str_eq,
}
use ragr.Text.{Text, codes, is_empty, starts_with}
use ragr.Str.{◌+s◌, decimal_str}
use ragr.UrlValidation.{ParsedUrl, Resolver, valid, ssrf_error, value_error, is_web, validate_url}
use ragr.Wikipedia.{is_wikipedia_url, is_wikipedia_domain}
use ragr.Crawler.{
  Fetched, response, error, is_success, not_html, oversized, empty_render, thin, Item, crawled_page,
  failed_page, skipped_page, canonical, normalize_url,
}

-- What the code uses of the libraries.
pub record Libraries : Type 0 where
  pub urlparse : String → ParsedUrl
  pub urljoin : String → String → String
  pub unquote : Text → Text
  pub getaddrinfo : Resolver
  -- fnmatch.fnmatch: URL, pattern
  pub fnmatch : String → String → Bool
  -- the targets of the links of a page
  pub hrefs : Text → List String
  -- `_to_markdown` of the page without boilerplate
  pub markdown : Text → Text
  -- "1.5 MB" of a size in bytes, and the message of `raise_for_status`
  pub show_mb : ℕ → String
  pub status_message : ℕ → String

abbrev prefix_text : Option String → Text
prefix_text none = []
prefix_text (some prefix) = codes prefix

abbrev pub has_url : List String → String → Bool
has_url urls url = any (λ u. str_eq u url) urls

-- "html" in header
abbrev pub contains_html : Text → Bool
contains_html [] = false
contains_html (c ∷ t) = starts_with (codes "html") (c ∷ t) || contains_html t

-- the links that are kept, absolute and in normal form
unfoldable pub page_links : Libraries → String → String → Option String → List String → List String
page_links lib base_url domain prefix [] = []
page_links lib base_url domain prefix (href ∷ hrefs) =
    let rest = page_links lib base_url domain prefix hrefs in
    let parsed = lib.urlparse (lib.urljoin base_url href) in
    if not (str_eq href "")
      && (str_eq parsed.netloc domain
          && (is_web parsed.scheme && starts_with (prefix_text prefix) (codes parsed.path)))
    then canonical parsed ∷ rest
    else rest

unfoldable pub parse_html : Libraries → Text → String → String → Option String → Text × List String
unfolding page_links
parse_html lib raw_html base_url domain prefix =
    (lib.markdown raw_html, page_links lib base_url domain prefix (lib.hrefs raw_html))

pub record Settings : Type 0 where
  pub root_url : String
  pub max_pages : ℕ
  pub max_depth : ℕ
  pub prefix : Option String
  pub exclude_patterns : List String

-- An item, and the links to follow from it.
pub record Result : Type 0 where
  pub item : Item
  pub links : List String

abbrev pub no_links : List String → Bool
no_links [] = true
no_links (_ ∷ _) = false

pub record Crawl : Type 0 where
  pub visited : List String
  pub queue : List (String × ℕ)
  pub page_count : ℕ

abbrev pub is_page : Item → Bool
is_page (crawled_page _ _) = true
is_page _ = false

abbrev pub fetch_batch_size : ℕ
fetch_batch_size = 5

abbrev pub is_nil {ℓ} : {A : Type ℓ} → List A → Bool
is_nil [] = true
is_nil (_ ∷ _) = false

abbrev pub append_items : List Item → Option (Crawl × List Item) → Option (Crawl × List Item)
append_items items none = none
append_items items (some (last, more)) = some (last, items ++ more)

abbrev pub items_of : Option (Crawl × List Item) → Option (List Item)
items_of none = none
items_of (some (_, items)) = some items

module _ (lib : Libraries) (fetch : String → Fetched) where
  -- the rest of `_process_url`, for a page of HTML
  unfoldable pub read_page : String → Text × List String → Result
  read_page url (text, links) =
      if is_empty text || ltb (length text) 50
      then record {
        item =
            skipped_page url (if no_links links then empty_render else thin)
              (decimal_str (length text) +s " chars");
        links = [];
      }
      else record { item = crawled_page url text; links = links }

  abbrev or_unknown : String → String
  or_unknown header = if str_eq header "" then "unknown" else header

  -- the rest of `_process_url`, when the fetch has ended
  unfoldable pub process_fetched : Settings → String → Fetched → Result
  unfolding read_page parse_html
  process_fetched settings url (error message) = record {
    item = failed_page url message;
    links = [];
  }
  process_fetched settings url (response resp) =
      if not (is_success resp)
      then record { item = failed_page url (lib.status_message resp.status_code); links = [] }
      else if ltb (10 * 1024 * 1024) resp.size
      then record { item = skipped_page url oversized (lib.show_mb resp.size); links = [] }
      else if not (contains_html (codes resp.content_type))
      then record { item = skipped_page url not_html (or_unknown resp.content_type); links = [] }
      else read_page url
          (parse_html lib resp.text url (lib.urlparse settings.root_url).netloc settings.prefix)

  -- `_process_url`
  unfoldable pub process_url : Settings → String → Result
  unfolding process_fetched
  process_url settings url = process_fetched settings url (fetch url)

  -- a link that was not visited: an article, or outside Wikipedia and safe
  abbrev pub is_admitted : String → Bool
  is_admitted link =
      is_wikipedia_url lib.urlparse lib.unquote link
      || (not (is_wikipedia_domain lib.urlparse lib.unquote link)
          && elim (validate_url lib.urlparse lib.getaddrinfo link) [
            | valid ↦ true
            | ssrf_error _ ↦ false
            | value_error _ ↦ false
          ])

  -- one link of a page at this depth
  unfoldable pub add_link : Crawl → ℕ → String → Crawl
  add_link s depth link =
      if not (has_url s.visited link) && is_admitted link
      then record s { visited = s.visited ++ link ∷ []; queue = s.queue ++ (link, suc depth) ∷ [] }
      else s

  -- the loop over the links of a page at this depth
  unfoldable pub add_links : Crawl → ℕ → List String → Crawl
  unfolding add_link
  add_links s depth [] = s
  add_links s depth (link ∷ links) = add_links (add_link s depth link) depth links

  -- one result: a page is counted, and its links are queued
  unfoldable pub take_result : Settings → Crawl → ℕ → Result → Crawl
  unfolding add_links
  take_result settings s depth r =
      let counted : Crawl = record s { page_count = suc s.page_count } in
      if is_page r.item
      then (if ltb depth settings.max_depth then add_links counted depth r.links else counted)
      else s

  -- the loop over the results of a batch
  unfoldable pub take_results : Settings → Crawl → List (String × ℕ) → Crawl × List Item
  unfolding process_url take_result
  take_results settings s [] = (s, [])
  take_results settings s ((url, depth) ∷ batch) =
      let r = process_url settings url in
      let rest = take_results settings (take_result settings s depth r) batch in
      (rest.0, r.item ∷ rest.1)

  abbrev pub is_excluded : Settings → String → Bool
  is_excluded settings url = any (λ pattern. lib.fnmatch url pattern) settings.exclude_patterns

  -- up to `room` URLs from the front of the queue; those that are excluded are dropped
  unfoldable pub pop_batch :
      Settings → ℕ → List (String × ℕ) → List (String × ℕ) × List (String × ℕ)
  pop_batch settings zero queue = ([], queue)
  pop_batch settings (suc room) [] = ([], [])
  pop_batch settings (suc room) ((url, depth) ∷ queue) =
      let dropped = pop_batch settings (suc room) queue in
      let kept = pop_batch settings room queue in
      if is_excluded settings url then dropped else ((url, depth) ∷ kept.0, kept.1)

  -- The while loop, on fuel; none means that the fuel ran out.
  unfoldable pub crawl_loop : ℕ → Settings → Crawl → Option (Crawl × List Item)
  unfolding pop_batch take_results
  crawl_loop zero settings s = none
  crawl_loop (suc fuel) settings s =
      let popped =
        pop_batch settings (min fetch_batch_size (settings.max_pages - s.page_count)) s.queue in
      let done = take_results settings (record s { queue = popped.1 }) popped.0 in
      let rest = crawl_loop fuel settings done.0 in
      let more = append_items done.1 rest in
      if is_nil s.queue || leb settings.max_pages s.page_count
      then some (s, [])
      else if is_nil popped.0
      then some (record s { queue = popped.1 }, [])
      else more

  abbrev pub start : Settings → Crawl
  start settings =
      let url = normalize_url lib.urlparse settings.root_url in
      record { visited = url ∷ []; queue = (url, 0) ∷ []; page_count = 0 }

  -- The items in the order in which they are yielded.
  unfoldable pub crawl_site : ℕ → Settings → Option (List Item)
  unfolding crawl_loop normalize_url
  crawl_site fuel settings = items_of (crawl_loop fuel settings (start settings))
