-- ===== src/Crawler/Ends.antt =====
-- The loop of `crawl_site` ends: each round adds a page, of which there are at most `max_pages`, or
-- shortens the queue.
use ragr.Prelude.{
  leb, Bool-cases, length, ℕ, zero, suc, ◌+◌, ◌≤◌, ◌<◌, String, ◌≡◌, refl, ap, inl, inr, false,
  ◌||◌, some, List, [], arith,
}
use ragr.Crawler.{Fetched, Item}
use ragr.Crawler.Site.{Libraries, Settings, Crawl, is_nil, items_of, crawl_loop, start, crawl_site}
use ragr.Crawler.Bounds.{popped_of, done_of, round-progress, crawl_loop-on}

module _ (lib : Libraries) (fetch : String → Fetched) (settings : Settings) where
  -- There is a fuel that is enough.
  abbrev Ends : Crawl → Type 0
  Ends s = (fuel : ℕ) × ((r : Crawl × List Item) × (crawl_loop lib fetch fuel settings s ≡ some r))

  round-Ends :
      (s : Crawl)
      → s.page_count ≤ settings.max_pages
      → (is_nil (popped_of lib fetch settings s).0 ≡ false → Ends (done_of lib fetch settings s).0)
      → Ends s
  unfolding crawl_loop
  round-Ends s fits next = elim (Bool-cases (is_nil (popped_of lib fetch settings s).0)) [
    | inl nothing ↦ elim (Bool-cases (is_nil s.queue || leb settings.max_pages s.page_count)) [
      | inl over ↦ (1, ((s, []), rw over refl))
      | inr goes_on ↦ (
        1,
        ((record s { queue = (popped_of lib fetch settings s).1 }, []), rw (goes_on, nothing) refl),
      )
    ]
    | inr something ↦
        let (fuel, (r', ran)) = next something in
        (suc fuel, crawl_loop-on lib fetch settings fuel s r' ran)
  ]

  abbrev next_of : Crawl → Crawl
  next_of s = (done_of lib fetch settings s).0

  round-Ends_by :
      (s : Crawl)
      → s.page_count ≤ settings.max_pages
      → (s.page_count < (next_of s).page_count
          → (next_of s).page_count ≤ settings.max_pages
          → Ends (next_of s))
      → (((next_of s).page_count ≡ s.page_count) × (length (next_of s).queue < length s.queue)
          → (next_of s).page_count ≤ settings.max_pages
          → Ends (next_of s))
      → Ends s
  round-Ends_by s fits by_page by_queue = round-Ends s fits (λ something.
      let (progress, bound) = round-progress lib fetch settings s something fits in
      elim progress [ inl more ↦ by_page more bound | inr shorter ↦ by_queue shorter bound ])

  -- The bounds: of the pages that are left, and of the queue.
  loop-Ends :
      (left longest : ℕ) (s : Crawl)
      → settings.max_pages ≤ s.page_count + left
      → length s.queue ≤ longest
      → s.page_count ≤ settings.max_pages
      → Ends s
  loop-Ends zero zero s few short fits =
      round-Ends_by s fits (λ more bound. absurd (omega arith))
        (λ shorter bound. absurd (omega arith))
  loop-Ends zero (suc q) s few short fits =
      round-Ends_by s fits (λ more bound. absurd (omega arith))
        (λ shorter bound. loop-Ends zero q (next_of s) (omega arith) (omega arith) bound)
  loop-Ends (suc l) zero s few short fits =
      round-Ends_by s fits
        (λ more bound.
          loop-Ends l (length (next_of s).queue) (next_of s) (omega arith) (omega arith) bound)
        (λ shorter bound. absurd (omega arith))
  loop-Ends (suc l) (suc q) s few short fits =
      round-Ends_by s fits
        (λ more bound.
          loop-Ends l (length (next_of s).queue) (next_of s) (omega arith) (omega arith) bound)
        (λ shorter bound. loop-Ends (suc l) q (next_of s) (omega arith) (omega arith) bound)

  -- Every crawl ends, whatever the site answers and links to: some fuel is enough for the loop.
  pub crawl_site-ends :
      (fuel : ℕ) × ((items : List Item) × (crawl_site lib fetch fuel settings ≡ some items))
  unfolding crawl_site
  crawl_site-ends =
      let (fuel, (r, ran)) =
        loop-Ends settings.max_pages 1 (start lib fetch settings) (omega arith) (omega arith)
          (omega arith) in
      (fuel, (r.1, ap items_of ran))
