-- ===== src/Wikipedia.antt =====
-- app/services/wikipedia.py: which URLs are Wikipedia articles. `urlparse` and `unquote` are parameters.
use ragr.Prelude.{
  ltb, leb, if◌then◌else◌, length, drop, any, all, ℕ, String, ◌≡◌, refl, Bool, true, false, ◌&&◌,
  not, Option, none, some, List, [], ◌∷◌,
}
use ragr.Text.{Text, codes, is_empty, starts_with, split, text_eq}
use ragr.UrlValidation.{ParsedUrl}

-- the groups of `_WIKIPEDIA_HOST_RE`: what stands before the end ".wikipedia.org"
unfoldable pub before_domain : Text → Option Text
before_domain [] = none
before_domain (c ∷ t) =
    let rest = before_domain t in
    if text_eq (c ∷ t) (codes ".wikipedia.org")
    then some []
    else elim rest [ none ↦ none | some lang ↦ some (c ∷ lang) ]

abbrev is_lower : ℕ → Bool
is_lower c = leb b'a' c && leb c b'z'

-- [a-z]{2,3}(?:-[a-z]+)*
abbrev is_lang : List Text → Bool
is_lang [] = false
is_lang (first ∷ others) =
    all is_lower first
    && (leb 2 (length first)
        && (leb (length first) 3 && all (λ t. not (is_empty t) && all is_lower t) others))

unfoldable pub host_match : String → Option Text
unfolding before_domain split
host_match netloc = elim (before_domain (codes netloc)) [
  | none ↦ none
  | some lang ↦ if is_lang (split b'-' lang) then some lang else none
]

abbrev wiki : Text
wiki = codes "/wiki/"

-- `_WIKI_PATH_RE`
abbrev pub path_match : Text → Option Text
path_match path =
    if starts_with wiki path && ltb (length wiki) (length path)
    then some (drop (length wiki) path)
    else none

abbrev skip_namespaces : List Text
skip_namespaces =
    codes "File:"
    ∷ codes "Category:"
    ∷ codes "Template:"
    ∷ codes "Wikipedia:"
    ∷ codes "Help:"
    ∷ codes "Talk:"
    ∷ codes "Special:"
    ∷ codes "Portal:"
    ∷ codes "Draft:"
    ∷ []

module _ (urlparse : String → ParsedUrl) (unquote : Text → Text) where
  -- the language and the title
  unfoldable pub parse_wikipedia_url : String → Option (Text × Text)
  unfolding host_match
  parse_wikipedia_url url =
      let parsed = urlparse url in
      elim (host_match parsed.netloc) [
        | none ↦ none
        | some lang ↦ elim (path_match (codes parsed.path)) [
          | none ↦ none
          | some quoted ↦
              let title = unquote quoted in
              if any (λ ns. starts_with ns title) skip_namespaces then none else some (lang, title)
        ]
      ]

  unfoldable pub is_wikipedia_url : String → Bool
  unfolding parse_wikipedia_url
  is_wikipedia_url url = elim (parse_wikipedia_url url) [ none ↦ false | some _ ↦ true ]

  unfoldable pub is_wikipedia_domain : String → Bool
  unfolding host_match
  is_wikipedia_domain url = elim (host_match (urlparse url).netloc) [ none ↦ false | some _ ↦ true ]

hosts :
    (host_match "en.wikipedia.org" ≡ some (codes "en"))
    × ((host_match "zh-min-nan.wikipedia.org" ≡ some (codes "zh-min-nan"))
        × ((host_match "www.example.org" ≡ none) × (host_match ".wikipedia.org" ≡ none)))
unfolding host_match
hosts = (refl, (refl, (refl, refl)))
