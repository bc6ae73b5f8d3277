-- ===== src/Crawler/Bounds.antt =====
-- A crawl ends, and yields no more pages than it may.
use ragr.Prelude.{
  leb, ◌==◌, if◌then◌else◌, Bool-cases, length, ℕ, zero, suc, ◌+◌, ◌-◌, ◌≤◌, ◌<◌, min, String, ◌≡◌,
  refl, ap, ◌∙◌, ◌⊎◌, inl, inr, true, false, ◌&&◌, ◌||◌, not, Option, none, some, List, [], ◌∷◌,
  ◌++◌, arith,
}
use ragr.Crawler.{Fetched, Item}
use ragr.Crawler.Site.{
  Libraries, Settings, Result, Crawl, is_page, fetch_batch_size, is_nil, append_items, items_of,
  is_admitted, has_url, add_link, add_links, take_result, process_url, take_results, is_excluded,
  pop_batch, crawl_loop, start, crawl_site,
}

-- The number of pages among the items.
abbrev pub pages : List Item → ℕ
pages [] = 0
pages (item ∷ items) = (if is_page item then 1 else 0) + pages items

pages-append : (is js : List Item) → pages (is ++ js) ≡ pages is + pages js
pages-append [] js = omega arith
pages-append (i ∷ is) js = ground (arith, pages-append is js)

pages-le : (is : List Item) → pages is ≤ length is
pages-le [] = omega arith
pages-le (i ∷ is) = ground (arith, pages-le is)

pub items_of-some :
    (o : Option (Crawl × List Item)) (items : List Item)
    → items_of o ≡ some items
    → (r : Crawl × List Item) × ((o ≡ some r) × (r.1 ≡ items))
items_of-some none items e = ground (arith, e)
items_of-some (some r) items e = (r, (refl, ground (arith, e)))

module _ (lib : Libraries) (fetch : String → Fetched) (settings : Settings) where
  -- A link is passed over, or it was not visited and is admitted, and is queued.
  pub add_link-cases :
      (s : Crawl) (depth : ℕ) (link : String)
      → (add_link lib fetch s depth link ≡ s)
        ⊎ (((has_url s.visited link ≡ false) × (is_admitted lib fetch link ≡ true))
            × (add_link lib fetch s depth link ≡ record s {
              visited = s.visited ++ link ∷ [];
              queue = s.queue ++ (link, suc depth) ∷ [];
            }))
  unfolding add_link
  add_link-cases s depth link =
      elim (Bool-cases (not (has_url s.visited link) && is_admitted lib fetch link)) [
        | inl new ↦ inr ((ground (arith, new), ground (arith, new)), rw new refl)
        | inr known ↦ inl (rw known refl)
      ]

  add_links-page_count :
      (s : Crawl) (depth : ℕ) (links : List String)
      → (add_links lib fetch s depth links).page_count ≡ s.page_count
  unfolding add_links
  add_links-page_count s depth [] = refl
  add_links-page_count s depth (link ∷ links) = elim (add_link-cases s depth link) [
    | inl passed ↦
        add_links-page_count (add_link lib fetch s depth link) depth links
        ∙ ap (λ (c : Crawl). c.page_count) passed
    | inr (_, queued) ↦
        add_links-page_count (add_link lib fetch s depth link) depth links
        ∙ ap (λ (c : Crawl). c.page_count) queued
  ]

  take_result-page_count :
      (s : Crawl) (depth : ℕ) (r : Result)
      → (take_result lib fetch settings s depth r).page_count
        ≡ s.page_count + (if is_page r.item then 1 else 0)
  unfolding take_result
  take_result-page_count s depth r =
      ground
        (arith, add_links-page_count (record s { page_count = suc s.page_count }) depth r.links)

  take_result_of_no_page :
      (s : Crawl) (depth : ℕ) (r : Result)
      → is_page r.item ≡ false
      → take_result lib fetch settings s depth r ≡ s
  unfolding take_result
  take_result_of_no_page s depth r h = rw h refl

  take_results-page_count :
      (s : Crawl) (batch : List (String × ℕ))
      → let done = take_results lib fetch settings s batch in
        (done.0.page_count ≡ s.page_count + pages done.1) × (length done.1 ≡ length batch)
  unfolding take_results
  take_results-page_count s [] = (omega arith, refl)
  take_results-page_count s ((url, depth) ∷ batch) =
      let r = process_url lib fetch settings url in
      let ih = take_results-page_count (take_result lib fetch settings s depth r) batch in
      (omega (arith, ih.0, take_result-page_count s depth r), omega (arith, ih.1))

  -- Without a page among the results, nothing is queued.
  take_results_of_no_page :
      (s : Crawl) (batch : List (String × ℕ))
      → pages (take_results lib fetch settings s batch).1 ≡ 0
      → (take_results lib fetch settings s batch).0 ≡ s
  unfolding take_results
  take_results_of_no_page s [] h = refl
  take_results_of_no_page s ((url, depth) ∷ batch) h =
      let r = process_url lib fetch settings url in
      let same = take_result_of_no_page s depth r (ground (arith, h)) in
      let next = take_result lib fetch settings s depth r in
      take_results_of_no_page next batch (ground (arith, h)) ∙ same

  pop_batch-length :
      (room : ℕ) (queue : List (String × ℕ))
      → let popped = pop_batch lib fetch settings room queue in
        (length popped.0 ≤ room) × (length popped.0 + length popped.1 ≤ length queue)
  unfolding pop_batch
  pop_batch-length zero queue = (omega arith, omega arith)
  pop_batch-length (suc room) [] = (omega arith, omega arith)
  pop_batch-length (suc room) ((url, depth) ∷ queue) =
      elim (Bool-cases (is_excluded lib fetch settings url)) [
        | inl dropped ↦
            rw dropped (let ih = pop_batch-length (suc room) queue in (ih.0, omega (arith, ih.1)))
        | inr kept ↦
            rw kept
              (let ih = pop_batch-length room queue in (omega (arith, ih.0), omega (arith, ih.1)))
      ]

  abbrev pub room_of : Crawl → ℕ
  room_of s = min fetch_batch_size (settings.max_pages - s.page_count)

  abbrev pub popped_of : Crawl → List (String × ℕ) × List (String × ℕ)
  popped_of s = pop_batch lib fetch settings (room_of s) s.queue

  abbrev pub done_of : Crawl → Crawl × List Item
  done_of s = take_results lib fetch settings (record s { queue = (popped_of s).1 }) (popped_of s).0

  pub nil-or-longer : (xs : List (String × ℕ)) → is_nil xs ≡ false → 1 ≤ length xs
  nil-or-longer [] h = ground (arith, h)
  nil-or-longer (x ∷ xs) h = omega arith

  -- A round that goes on has made progress: one page more, or a shorter queue and no page more; and the
  -- pages fit.
  pub round-progress :
      (s : Crawl)
      → is_nil (popped_of s).0 ≡ false
      → s.page_count ≤ settings.max_pages
      → ((s.page_count < (done_of s).0.page_count)
          ⊎ (((done_of s).0.page_count ≡ s.page_count)
              × (length (done_of s).0.queue < length s.queue)))
        × ((done_of s).0.page_count ≤ settings.max_pages)
  round-progress s some_popped fits =
      let counts = take_results-page_count (record s { queue = (popped_of s).1 }) (popped_of s).0 in
      let lengths = pop_batch-length (room_of s) s.queue in
      let longer = nil-or-longer (popped_of s).0 some_popped in
      let few = pages-le (done_of s).1 in
      (
        elim (Bool-cases (pages (done_of s).1 == 0)) [
          | inl no_page ↦
              let same =
                take_results_of_no_page (record s { queue = (popped_of s).1 }) (popped_of s).0
                  (ground (arith, no_page)) in
              inr (
                ap (λ (c : Crawl). c.page_count) same,
                omega (arith, ap (λ (c : Crawl). length c.queue) same, lengths.1, longer),
              )
          | inr some_page ↦ inl (ground (arith, some_page, counts.0))
        ],
        omega (arith, counts.0, counts.1, lengths.0, few),
      )

  -- A run of the loop stops at once, or is a round and a run from what it left.
  pub crawl_loop-cases :
      (fuel : ℕ) (s : Crawl) (r : Crawl × List Item)
      → crawl_loop lib fetch (suc fuel) settings s ≡ some r
      → (r.1 ≡ [])
        ⊎ ((s.page_count < settings.max_pages)
            × ((is_nil (popped_of s).0 ≡ false)
                × ((r' : Crawl × List Item) × ((crawl_loop lib fetch fuel settings (done_of s).0
                        ≡ some r')
                      × (r.1 ≡ (done_of s).1 ++ r'.1)))))
  unfolding crawl_loop
  crawl_loop-cases fuel s r e =
      elim (Bool-cases (is_nil s.queue || leb settings.max_pages s.page_count)) [
        | inl over ↦ inl (ground (arith, e, over))
        | inr goes_on ↦ elim (Bool-cases (is_nil (popped_of s).0)) [
          | inl nothing ↦ inl (ground (arith, e, goes_on, nothing))
          | inr something ↦ inr (
            ground (arith, goes_on),
            (
              something,
              appended (done_of s).1 (crawl_loop lib fetch fuel settings (done_of s).0) r
                  (ground (arith, e, goes_on, something)),
            ),
          )
        ]
      ]
    where
      appended :
          (items : List Item) (o : Option (Crawl × List Item)) (r : Crawl × List Item)
          → append_items items o ≡ some r
          → (r' : Crawl × List Item) × ((o ≡ some r') × (r.1 ≡ items ++ r'.1))
      appended items none r e = ground (arith, e)
      appended items (some (last, more)) r e = ((last, more), (refl, ground (arith, e)))

  -- The same, forwards.
  pub crawl_loop-on :
      (fuel : ℕ) (s : Crawl) (r' : Crawl × List Item)
      → crawl_loop lib fetch fuel settings (done_of s).0 ≡ some r'
      → (r : Crawl × List Item) × (crawl_loop lib fetch (suc fuel) settings s ≡ some r)
  unfolding crawl_loop
  crawl_loop-on fuel s r' e =
      elim (Bool-cases (is_nil s.queue || leb settings.max_pages s.page_count)) [
        | inl over ↦ ((s, []), rw over refl)
        | inr goes_on ↦ elim (Bool-cases (is_nil (popped_of s).0)) [
          | inl nothing ↦ ((record s { queue = (popped_of s).1 }, []), rw (goes_on, nothing) refl)
          | inr something ↦ ((r'.0, (done_of s).1 ++ r'.1), rw (goes_on, something, e) refl)
        ]
      ]

  pub no_fuel : (s : Crawl) → crawl_loop lib fetch zero settings s ≡ none
  unfolding crawl_loop
  no_fuel s = refl

  crawl_loop-pages :
      (fuel : ℕ) (s : Crawl) (r : Crawl × List Item)
      → s.page_count ≤ settings.max_pages
      → crawl_loop lib fetch fuel settings s ≡ some r
      → s.page_count + pages r.1 ≤ settings.max_pages
  crawl_loop-pages zero s r fits e = ground (arith, no_fuel s, e)
  crawl_loop-pages (suc fuel) s r fits e = elim (crawl_loop-cases fuel s r e) [
    | inl stopped ↦ omega (arith, ap pages stopped)
    | inr (_, (something, (r', (ran, both)))) ↦
        let counts =
          take_results-page_count (record s { queue = (popped_of s).1 }) (popped_of s).0 in
        let ih = crawl_loop-pages fuel (done_of s).0 r' (round-progress s something fits).1 ran in
        omega (arith, ih, counts.0, ap pages both, pages-append (done_of s).1 r'.1)
  ]

  pub crawl_site-pages :
      (fuel : ℕ) (items : List Item)
      → crawl_site lib fetch fuel settings ≡ some items
      → pages items ≤ settings.max_pages
  unfolding crawl_site
  crawl_site-pages fuel items e =
      let (r, (ran, same)) =
        items_of-some (crawl_loop lib fetch fuel settings (start lib fetch settings)) items e in
      let bound = crawl_loop-pages fuel (start lib fetch settings) r (omega arith) ran in
      omega (arith, bound, ap pages same)
