-- ===== src/Crawler/Once.antt =====
-- A crawl asks for no URL twice, and for none but its root and the links that it admits.
use ragr.Prelude.{
  ltb, Bool-cases, All, All-append, All-map, ℕ, zero, suc, ◌≤◌, String, ◌≡◌, refl, sym, ap, ap₂,
  ◌∙◌, subst, inl, inr, Bool, true, false, ◌||◌, some, List, [], ◌∷◌, ◌++◌, map, append_assoc,
  append-nil, map-append, arith, str_eq, eq_iff, eq_refl,
}
use mathlib.Core.List.{Sublistᴰ}
use ragr.Text.{Text}
use ragr.Crawler.{
  Fetched, response, error, Item, crawled_page, failed_page, skipped_page, normalize_url,
}
use ragr.Crawler.Site.{
  Libraries, Settings, Result, Crawl, is_page, is_admitted, has_url, add_link, add_links,
  take_result, process_url, process_fetched, read_page, parse_html, take_results, is_excluded,
  pop_batch, crawl_loop, start, crawl_site,
}
use ragr.Crawler.Bounds.{
  add_link-cases, popped_of, done_of, crawl_loop-cases, items_of-some, no_fuel, pages,
  crawl_site-pages,
}

abbrev pub url_of : Item → String
url_of (crawled_page url _) = url
url_of (failed_page url _) = url
url_of (skipped_page url _ _) = url

abbrev pub IsDistinct : List String → Type 0
IsDistinct [] = Unit
IsDistinct (u ∷ us) = (has_url us u ≡ false) × IsDistinct us

module _ {A : Type 0} where
  Sublist-append :
      {xs ys : List A} (us vs : List A)
      → Sublistᴰ us xs
      → Sublistᴰ vs ys
      → Sublistᴰ (us ++ vs) (xs ++ ys)
  Sublist-append us vs Sublistᴰ.slnil k = k
  Sublist-append us vs (Sublistᴰ.cons h) k = Sublistᴰ.cons (Sublist-append us vs h k)
  Sublist-append (u ∷ us) vs (Sublistᴰ.cons-cons e h) k =
      Sublistᴰ.cons-cons e (Sublist-append us vs h k)

has_url-Sublist :
    {us vs : List String} (u : String)
    → Sublistᴰ us vs
    → has_url vs u ≡ false
    → has_url us u ≡ false
has_url-Sublist u Sublistᴰ.slnil h = refl
has_url-Sublist u (Sublistᴰ.cons s) h = has_url-Sublist u s (ground (arith, h))
has_url-Sublist u (Sublistᴰ.cons-cons e s) h =
    let ih = has_url-Sublist u s (ground (arith, h)) in ground (arith, h, ih, e)

IsDistinct-Sublist : {us vs : List String} → Sublistᴰ us vs → IsDistinct vs → IsDistinct us
IsDistinct-Sublist Sublistᴰ.slnil h = tt
IsDistinct-Sublist (Sublistᴰ.cons s) (_, h) = IsDistinct-Sublist s h
IsDistinct-Sublist (Sublistᴰ.cons-cons {a = a} {l₂ = vs} e s) (new, h) =
    (has_url-Sublist a s (subst (λ x. has_url vs x ≡ false) (sym e) new), IsDistinct-Sublist s h)

has_url-append :
    (us vs : List String) (u : String) → has_url (us ++ vs) u ≡ (has_url us u || has_url vs u)
has_url-append [] vs u = refl
has_url-append (v ∷ us) vs u = ground (arith, has_url-append us vs u)

add-IsDistinct :
    (us : List String) (u : String)
    → IsDistinct us
    → has_url us u ≡ false
    → IsDistinct (us ++ u ∷ [])
add-IsDistinct [] u h new = (refl, tt)
add-IsDistinct (v ∷ us) u (fresh, h) new = (
  ground (arith, has_url-append us (u ∷ []) v, fresh, new, eq_iff v u, eq_iff u v),
  add-IsDistinct us u h (ground (arith, new)),
)

nil-Sublist : (us : List String) → Sublistᴰ [] us
nil-Sublist [] = Sublistᴰ.slnil
nil-Sublist (u ∷ us) = Sublistᴰ.cons (nil-Sublist us)

Sublist-All :
    (p : String → Bool) {us vs : List String}
    → Sublistᴰ us vs
    → All (λ u. p u ≡ true) vs
    → All (λ u. p u ≡ true) us
Sublist-All p Sublistᴰ.slnil h = tt
Sublist-All p (Sublistᴰ.cons s) (_, h) = Sublist-All p s h
Sublist-All p (Sublistᴰ.cons-cons e s) (q, h) = (ap p e ∙ q, Sublist-All p s h)

abbrev urls : List (String × ℕ) → List String
urls = map (λ entry. entry.0)

module _ (lib : Libraries) (fetch : String → Fetched) (settings : Settings) where
  -- The links visited between two states are the links queued, each admitted, none visited before.
  record Grown (s s' : Crawl) : Type 0 where
    news : List String
    visited : s'.visited ≡ s.visited ++ news
    queued : urls s'.queue ≡ urls s.queue ++ news
    distinct : IsDistinct s.visited → IsDistinct s'.visited
    admitted : All (λ u. is_admitted lib fetch u ≡ true) news

  Grown-refl : (s : Crawl) → Grown s s
  Grown-refl s = record {
    news = [];
    visited = sym (append-nil s.visited);
    queued = sym (append-nil (urls s.queue));
    distinct = λ h. h;
    admitted = tt;
  }

  Grown-trans : (s t u : Crawl) → Grown s t → Grown t u → Grown s u
  Grown-trans s t u g h = record {
    news = g.news ++ h.news;
    visited = h.visited ∙ (ap (λ l. l ++ h.news) g.visited ∙ append_assoc s.visited g.news h.news);
    queued =
        h.queued ∙ (ap (λ l. l ++ h.news) g.queued ∙ append_assoc (urls s.queue) g.news h.news);
    distinct = λ d. h.distinct (g.distinct d);
    admitted = All-append _ g.news h.news g.admitted h.admitted;
  }

  add_link-Grown :
      (s : Crawl) (depth : ℕ) (link : String) → Grown s (add_link lib fetch s depth link)
  add_link-Grown s depth link = elim (add_link-cases lib fetch settings s depth link) [
    | inl passed ↦ subst (Grown s) (sym passed) (Grown-refl s)
    | inr ((new, fits), queued) ↦ subst (Grown s) (sym queued) (record {
      news = link ∷ [];
      visited = refl;
      queued = map-append (λ entry. entry.0) s.queue ((link, suc depth) ∷ []);
      distinct = λ d. add-IsDistinct s.visited link d new;
      admitted = (fits, tt);
    })
  ]

  add_links-Grown :
      (s : Crawl) (depth : ℕ) (links : List String) → Grown s (add_links lib fetch s depth links)
  unfolding add_links
  add_links-Grown s depth [] = Grown-refl s
  add_links-Grown s depth (link ∷ links) =
      Grown-trans s (add_link lib fetch s depth link) _ (add_link-Grown s depth link)
        (add_links-Grown (add_link lib fetch s depth link) depth links)

  -- The count of pages does not matter.
  recounted : (s s' : Crawl) (n : ℕ) → Grown (record s { page_count = n }) s' → Grown s s'
  recounted s s' n g = record {
    news = g.news;
    visited = g.visited;
    queued = g.queued;
    distinct = g.distinct;
    admitted = g.admitted;
  }

  take_result-Grown :
      (s : Crawl) (depth : ℕ) (r : Result) → Grown s (take_result lib fetch settings s depth r)
  unfolding take_result
  take_result-Grown s depth r = elim (Bool-cases (is_page r.item)) [
    | inl page ↦ rw page (elim (Bool-cases (ltb depth settings.max_depth)) [
      | inl shallow ↦ rw shallow (
          recounted s _ (suc s.page_count)
            (add_links-Grown (record s { page_count = suc s.page_count }) depth r.links))
      | inr deep ↦ rw deep (
          recounted s _ (suc s.page_count)
            (Grown-refl (record s { page_count = suc s.page_count })))
    ])
    | inr other ↦ rw other (Grown-refl s)
  ]

  read_page-url :
      (url : String) (p : Text × List String) → url_of (read_page lib fetch url p).item ≡ url
  unfolding read_page
  read_page-url url (text, links) = ground arith

  process_fetched-url :
      (url : String) (o : Fetched) → url_of (process_fetched lib fetch settings url o).item ≡ url
  unfolding process_fetched
  process_fetched-url url (error message) = refl
  process_fetched-url url (response resp) = ground (
    arith,
    read_page-url url
        (parse_html lib resp.text url (lib.urlparse settings.root_url).netloc settings.prefix),
  )

  take_results-Grown :
      (s : Crawl) (batch : List (String × ℕ))
      → let done = take_results lib fetch settings s batch in
        Grown s done.0 × (map url_of done.1 ≡ urls batch)
  unfolding take_results process_url
  take_results-Grown s [] = (Grown-refl s, refl)
  take_results-Grown s ((url, depth) ∷ batch) =
      let r = process_url lib fetch settings url in
      let next = take_result lib fetch settings s depth r in
      let ih = take_results-Grown next batch in
      (
        Grown-trans s next _ (take_result-Grown s depth r) ih.0,
        ap₂ ◌∷◌ (process_fetched-url url (fetch url)) ih.1,
      )

  pop_batch-Sublist :
      (room : ℕ) (queue : List (String × ℕ))
      → let popped = pop_batch lib fetch settings room queue in
        (gone : List String) × ((urls queue ≡ gone ++ urls popped.1)
          × Sublistᴰ (urls popped.0) gone)
  unfolding pop_batch
  pop_batch-Sublist zero queue = ([], (refl, Sublistᴰ.slnil))
  pop_batch-Sublist (suc room) [] = ([], (refl, Sublistᴰ.slnil))
  pop_batch-Sublist (suc room) ((url, depth) ∷ queue) =
      elim (Bool-cases (is_excluded lib fetch settings url)) [
        | inl dropped ↦ rw dropped (
            let (gone, (split, sub)) = pop_batch-Sublist (suc room) queue in
            (url ∷ gone, (ap (λ l. url ∷ l) split, Sublistᴰ.cons sub)))
        | inr kept ↦ rw kept (
            let (gone, (split, sub)) = pop_batch-Sublist room queue in
            (url ∷ gone, (ap (λ l. url ∷ l) split, Sublistᴰ.cons-cons refl sub)))
      ]

  -- What a run from a state yields: URLs of the queue and then of links, each at most once, in order.
  Yields : Crawl → List Item → Type 0
  Yields s items =
      (links : List String) × (Sublistᴰ (map url_of items) (urls s.queue ++ links)
        × ((IsDistinct s.visited → IsDistinct (s.visited ++ links))
            × All (λ u. is_admitted lib fetch u ≡ true) links))

  round-Yields :
      (s : Crawl) (items : List Item)
      → Yields (done_of lib fetch settings s).0 items
      → Yields s ((done_of lib fetch settings s).1 ++ items)
  unfolding Yields
  round-Yields s items (links, (sub, (distinct, admitted))) =
      let popped = popped_of lib fetch settings s in
      let middle : Crawl = record s { queue = popped.1 } in
      let (grown, yielded) = take_results-Grown middle popped.0 in
      let (gone, (split, batch)) = pop_batch-Sublist _ s.queue in
      let whole : gone ++ ((urls popped.1 ++ grown.news) ++ links)
          ≡ urls s.queue ++ (grown.news ++ links) =
        ap (λ l. gone ++ l) (append_assoc (urls popped.1) grown.news links)
        ∙ (sym (append_assoc gone (urls popped.1) (grown.news ++ links))
            ∙ ap (λ l. l ++ (grown.news ++ links)) (sym split)) in
      (
        grown.news ++ links,
        (
          subst (λ l. Sublistᴰ l (urls s.queue ++ (grown.news ++ links)))
              (ap (λ l. l ++ map url_of items) (sym yielded)
                ∙ sym (map-append url_of (done_of lib fetch settings s).1 items))
              (subst (Sublistᴰ (urls popped.0 ++ map url_of items)) whole (
                Sublist-append (urls popped.0) (map url_of items) batch
                  (subst (λ l. Sublistᴰ (map url_of items) (l ++ links)) grown.queued sub))),
          (
            λ d.
                subst IsDistinct
                  (ap (λ l. l ++ links) grown.visited ∙ append_assoc s.visited grown.news links)
                  (distinct (grown.distinct d)),
            All-append _ grown.news links grown.admitted admitted,
          ),
        ),
      )

  crawl_loop-Yields :
      (fuel : ℕ) (s : Crawl) (r : Crawl × List Item)
      → crawl_loop lib fetch fuel settings s ≡ some r
      → Yields s r.1
  unfolding Yields
  crawl_loop-Yields zero s r e = ground (arith, no_fuel lib fetch settings s, e)
  crawl_loop-Yields (suc fuel) s r e = elim (crawl_loop-cases lib fetch settings fuel s r e) [
    | inl stopped ↦
        subst (Yields s) (sym stopped)
          ([], (nil-Sublist _, (λ d. subst IsDistinct (sym (append-nil s.visited)) d, tt)))
    | inr (_, (_, (r', (ran, both)))) ↦
        subst (Yields s) (sym both)
          (round-Yields s r'.1 (crawl_loop-Yields fuel (done_of lib fetch settings s).0 r' ran))
  ]

  -- The URL of the root in its normal form, or a link that is a Wikipedia article, or one outside
  -- Wikipedia that `validate_url` accepts.
  abbrev pub may_ask : String → Bool
  may_ask url =
      str_eq (normalize_url lib.urlparse settings.root_url) url || is_admitted lib fetch url

  -- A crawl yields one item for a URL at most, and only for the root, for Wikipedia articles, and for
  -- URLs that `validate_url` accepts; and at most `max_pages` of the items are pages.
  pub crawl_site-once :
      (fuel : ℕ) (items : List Item)
      → crawl_site lib fetch fuel settings ≡ some items
      → IsDistinct (map url_of items)
        × (All (λ url. may_ask url ≡ true) (map url_of items) × (pages items ≤ settings.max_pages))
  unfolding crawl_site Yields
  crawl_site-once fuel items e =
      let root = normalize_url lib.urlparse settings.root_url in
      let (r, (ran, same)) =
        items_of-some (crawl_loop lib fetch fuel settings (start lib fetch settings)) items e in
      let (links, (sub, (distinct, admitted))) =
        crawl_loop-Yields fuel (start lib fetch settings) r ran in
      let yielded = subst (λ l. Sublistᴰ (map url_of l) (root ∷ links)) same sub in
      (
        IsDistinct-Sublist yielded (distinct (refl, tt)),
        (
          Sublist-All may_ask yielded
              (ground (arith, eq_refl root), All-map (λ u h. ground (arith, h)) links admitted),
          crawl_site-pages lib fetch settings fuel items e,
        ),
      )
