-- ===== src/Crawler/Fetch.antt =====
-- `_fetch_page`. An article is requested from Wikipedia's API, with the client `wikipedia_get` that
-- follows redirects by itself and is a parameter, with the URLs that it requests. For any other page
-- redirects are followed by hand, each target validated before it is requested.
use ragr.Prelude.{
  ◌==◌, if◌then◌else◌, Bool-cases, length, All, ℕ, zero, suc, ◌≤◌, String, ◌≡◌, refl, sym, subst,
  inl, inr, Bool, ◌&&◌, ◌||◌, Option, none, some, List, [], ◌∷◌, ◌++◌, arith,
}
use ragr.Text.{Text, codes}
use ragr.Str.{◌+s◌}
use ragr.Models.{truthy}
use ragr.UrlValidation.{
  ParsedUrl, Resolver, Validity, valid, ssrf_error, value_error, validate_url, IsSafe,
  validate_url-IsSafe, Validity-cases,
}
use ragr.Wikipedia.{parse_wikipedia_url}
use ragr.Crawler.{Fetched, response, error}

abbrev pub max_redirects : ℕ
max_redirects = 5

abbrev pub is_redirect : ℕ → Bool
is_redirect code = code == 301 || (code == 302 || (code == 303 || (code == 307 || code == 308)))

abbrev target : Option String → String
target none = ""
target (some location) = location

module _ (urlparse : String → ParsedUrl) (urljoin : String → String → String)
    (getaddrinfo : Resolver) (safe_get : String → Fetched) where
  -- the end of a round, for a redirect: `follow_on` is the rest of the loop
  unfoldable pub redirect :
      String → (String → Fetched × List String) → String → Validity → Fetched × List String
  redirect current follow_on next (ssrf_error message) = (error message, current ∷ [])
  redirect current follow_on next (value_error message) = (error message, current ∷ [])
  redirect current follow_on next valid = let rest = follow_on next in (rest.0, current ∷ rest.1)

  -- a round, after the request
  unfoldable pub hop : String → (String → Fetched × List String) → Fetched → Fetched × List String
  unfolding redirect
  hop current follow_on (error message) = (error message, current ∷ [])
  hop current follow_on (response resp) =
      let next = urljoin current (target resp.location) in
      if is_redirect resp.status_code && truthy resp.location
      then redirect current follow_on next (validate_url urlparse getaddrinfo next)
      else (response resp, current ∷ [])

  -- The rounds of the loop that are left, the current URL, and the start. The outcome, and the URLs
  -- that were requested.
  unfoldable pub follow : ℕ → String → String → Fetched × List String
  unfolding hop
  follow zero current url = (error ("Exceeded 5 redirects starting from " +s url), [])
  follow (suc rounds) current url = hop current (λ next. follow rounds next url) (safe_get current)

  -- Requested in this order: the URL, then safe ones.
  abbrev pub RequestsSafely : String → List String → Type 0
  RequestsSafely url [] = Unit
  RequestsSafely url (first ∷ rest) = (first ≡ url) × All (IsSafe urlparse getaddrinfo) rest

  chained :
      (current next : String) (urls : List String)
      → IsSafe urlparse getaddrinfo next
      → RequestsSafely next urls
      → RequestsSafely current (current ∷ urls)
  chained current next [] safe h = (refl, tt)
  chained current next (u ∷ us) safe h =
      (refl, (subst (IsSafe urlparse getaddrinfo) (sym h.0) safe, h.1))

  -- What holds of the requests of at most `rounds` rounds from a URL.
  abbrev Bounded : ℕ → String → Fetched × List String → Type 0
  Bounded rounds url done = RequestsSafely url done.1 × (length done.1 ≤ rounds)

  redirect-Bounded :
      (rounds : ℕ) (current next : String) (follow_on : String → Fetched × List String)
      → ((u : String) → Bounded rounds u (follow_on u))
      → Bounded
          (suc rounds)
          current
          (redirect current follow_on next (validate_url urlparse getaddrinfo next))
  unfolding redirect
  redirect-Bounded rounds current next follow_on h =
      elim (Validity-cases (validate_url urlparse getaddrinfo next)) [
        | inl fine ↦ rw fine (
          chained current next (follow_on next).1
              (validate_url-IsSafe urlparse getaddrinfo next fine) (h next).0,
          omega (arith, (h next).1),
        )
        | inr (inl (m, bad)) ↦ rw bad ((refl, tt), omega arith)
        | inr (inr (m, bad)) ↦ rw bad ((refl, tt), omega arith)
      ]

  hop-Bounded :
      (rounds : ℕ) (current : String) (follow_on : String → Fetched × List String) (o : Fetched)
      → ((u : String) → Bounded rounds u (follow_on u))
      → Bounded (suc rounds) current (hop current follow_on o)
  unfolding hop
  hop-Bounded rounds current follow_on (error message) h = ((refl, tt), omega arith)
  hop-Bounded rounds current follow_on (response resp) h =
      elim (Bool-cases (is_redirect resp.status_code && truthy resp.location)) [
        | inl moved ↦
            rw moved
              (redirect-Bounded rounds current (urljoin current (target resp.location)) follow_on h)
        | inr final ↦ rw final ((refl, tt), omega arith)
      ]

  follow-Bounded :
      (rounds : ℕ) (current url : String) → Bounded rounds current (follow rounds current url)
  unfolding follow
  follow-Bounded zero current url = (tt, omega arith)
  follow-Bounded (suc rounds) current url =
      hop-Bounded rounds current (λ next. follow rounds next url) (safe_get current)
        (λ next. follow-Bounded rounds next url)

  module _ (unquote : Text → Text) (wikipedia_get : Text → Fetched × List String) where
    abbrev pub fetch_wikipedia_html : Text → Text → Fetched × List String
    fetch_wikipedia_html lang title =
        wikipedia_get
          (codes "https://" ++ (lang ++ (codes ".wikipedia.org/api/rest_v1/page/html/" ++ title)))

    unfoldable pub fetch_parsed : Option (Text × Text) → String → Fetched × List String
    unfolding follow
    fetch_parsed (some (lang, title)) url = fetch_wikipedia_html lang title
    fetch_parsed none url = follow (suc max_redirects) url url

    unfoldable pub fetch_page : String → Fetched × List String
    unfolding fetch_parsed parse_wikipedia_url
    fetch_page url = fetch_parsed (parse_wikipedia_url urlparse unquote url) url

    -- Fetching a page that is no Wikipedia article makes at most six requests: the first, if there is one,
    -- for the page's own URL, and each other for an http or https URL whose host resolves to addresses of
    -- which none is blocked.
    pub fetch_page-RequestsSafely :
        (url : String)
        → parse_wikipedia_url urlparse unquote url ≡ none
        → RequestsSafely url (fetch_page url).1 × (length (fetch_page url).1 ≤ 6)
    unfolding fetch_page fetch_parsed
    fetch_page-RequestsSafely url no_article =
        rw no_article (follow-Bounded (suc max_redirects) url url)
