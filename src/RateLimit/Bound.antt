-- ===== src/RateLimit/Bound.antt =====
-- What the limiter promises: never more than `max_requests` of a key in a window, and no request is
-- turned away while there is room.
use ragr.Prelude.{
  ℕ, suc, ◌+◌, ◌≤◌, String, ◌≡◌, refl, sym, ◌∙◌, inl, inr, Bool, true, false, ◌&&◌, List, [], ◌∷◌,
  ◌++◌, arith, ltb, leb, str_eq, eq_iff, eq_refl, if◌then◌else◌, length, append_assoc, append-nil,
  get_last?-concat, length-filter-le, All, All-append, All-filter, Bool-cases,
}
use ragr.Dict
use ragr.Dict.{Dict, get-put, get-empty}
use ragr.RateLimit.{
  RateLimiter, init, stored, touch, recent, prune, sweep, is_allowed, accepted, after,
}
use ragr.RateLimit.Window.{
  in_window, count, hits, count-append, count-recent, length-recent, LatestLast, Shrinks,
  LatestLast-nil, LatestLast-Shrinks, Shrinks-trans, count-Shrinks, stored-prune, stored-sweep,
}

All-le : (a b : ℕ) (xs : List ℕ) → a ≤ b → All (λ s. s ≤ a) xs → All (λ s. s ≤ b) xs
All-le a b [] h _ = tt
All-le a b (x ∷ xs) h (p, k) = (omega arith, All-le a b xs h k)

hits-concat :
    (w : ℕ) (k : String) (t now : ℕ) (key : String) (log : List (ℕ × String))
    → hits w k t (log ++ (now, key) ∷ [])
      ≡ hits w k t log + (if str_eq key k && in_window w t now then 1 else 0)
hits-concat w k t now key [] = ground arith
hits-concat w k t now key ((s, j) ∷ log) = ground (arith, hits-concat w k t now key log)

-- One call of `is_allowed` logs its request or does not.
logged : List (ℕ × String) → ℕ → String → Bool → List (ℕ × String)
logged log now key true = log ++ (now, key) ∷ []
logged log now key false = log

module _ (w limit : ℕ) (k : String) where
  -- The limiter's list for `k` counts, in every window still to come, what the log of allowed
  -- requests counts.
  record Tracks (now : ℕ) (r : RateLimiter) (log : List (ℕ × String)) : Type 0 where
    window : r.window ≡ w
    max : r.max_requests ≡ limit
    past : All (λ s. s ≤ now) (stored r.requests k)
    last : LatestLast w (stored r.requests k)
    agree : (t : ℕ) → now ≤ t → hits w k t log ≡ count w t (stored r.requests k)
    bound : (t : ℕ) → hits w k t log ≤ limit

  abbrev swept : RateLimiter → ℕ → String → Dict (List ℕ)
  swept r now key =
      sweep r.max_keys r.window now
        (prune (recent r.window now (stored r.requests key)) key (touch r.requests key))

  swept-Shrinks :
      (now now' : ℕ) (r : RateLimiter) (log : List (ℕ × String)) (key : String)
      → Tracks now r log
      → Shrinks w now' (stored r.requests k) (stored (swept r now' key) k)
  swept-Shrinks now now' r log key h = rw h.window (
      let pruned = stored-prune w r.requests now' key k in
      Shrinks-trans w now' _ _ _ pruned
        (stored-sweep w _ r.max_keys now' k (LatestLast-Shrinks w now' _ _ pruned h.last)))

  All-Shrinks :
      (now : ℕ) (xs ys : List ℕ)
      → Shrinks w now xs ys
      → All (λ s. s ≤ now) xs
      → All (λ s. s ≤ now) ys
  All-Shrinks now xs ys (inl e) h = rw e h
  All-Shrinks now xs ys (inr (e, _)) h = rw e tt

  -- What holds of the swept dict, before a request is recorded.
  swept-Tracks :
      (now now' : ℕ) (r : RateLimiter) (log : List (ℕ × String)) (key : String)
      → now ≤ now'
      → Tracks now r log
      → Tracks now' (record r { requests = swept r now' key }) log
  swept-Tracks now now' r log key le h =
      let s = swept-Shrinks now now' r log key h in
      record {
        window = h.window;
        max = h.max;
        past = All-Shrinks now' _ _ s (All-le now now' _ le h.past);
        last = LatestLast-Shrinks w now' _ _ s h.last;
        agree = λ t le'. h.agree t (omega arith) ∙ sym (count-Shrinks w now' t _ _ s le');
        bound = h.bound;
      }

  stored-put :
      (d : Dict (List ℕ)) (key : String) (ts : List ℕ)
      → stored (Dict.put d key ts) k ≡ (if str_eq key k then ts else stored d k)
  unfolding stored
  stored-put d key ts = ground (arith, get-put d key k ts)

  LatestLast-concat :
      (now : ℕ) (xs : List ℕ) → All (λ s. s ≤ now) xs → LatestLast w (xs ++ now ∷ [])
  LatestLast-concat now xs h m e =
      let same : now ≡ m = cc (get_last?-concat xs now) in
      rw (← same) (All-append (λ s. s ≤ now) xs (now ∷ []) h (omega arith, tt))

  -- How many requests of `k` the limiter sees as recent.
  length-fresh :
      (now now' : ℕ) (r : RateLimiter) (log : List (ℕ × String))
      → now ≤ now'
      → Tracks now r log
      → length (recent r.window now' (stored r.requests k)) ≡ hits w k now' log
  length-fresh now now' r log le h = rw h.window (
      length-recent w now' (stored r.requests k) (All-le now now' _ le h.past)
      ∙ sym (h.agree now' le))

  abbrev fresh : RateLimiter → ℕ → String → List ℕ
  fresh r now key = recent r.window now (stored r.requests key)

  abbrev recorded : RateLimiter → ℕ → String → RateLimiter
  recorded r now key = record r {
    requests = Dict.put (swept r now key) key (fresh r now key ++ now ∷ []);
  }

  put-Tracks_ne :
      (now now' : ℕ) (r : RateLimiter) (log : List (ℕ × String)) (key : String)
      → now ≤ now'
      → Tracks now r log
      → str_eq key k ≡ false
      → Tracks now' (recorded r now' key) (log ++ (now', key) ∷ [])
  put-Tracks_ne now now' r log key le h other =
      let base = swept-Tracks now now' r log key le h in
      let same : stored (recorded r now' key).requests k ≡ stored (swept r now' key) k =
        rw stored-put (rw other) in
      let unlogged : (t : ℕ) → hits w k t (log ++ (now', key) ∷ []) ≡ hits w k t log =
        λ t. ground (arith, hits-concat w k t now' key log) in
      record {
        window = h.window;
        max = h.max;
        past = rw same base.past;
        last = rw same base.last;
        agree = λ t le'. rw same (unlogged t ∙ base.agree t le');
        bound = λ t. rw unlogged (h.bound t);
      }

  hits_bound :
      (now now' : ℕ) (r : RateLimiter) (log : List (ℕ × String)) (t : ℕ)
      → now ≤ now'
      → Tracks now r log
      → suc (length (fresh r now' k)) ≤ limit
      → hits w k t (log ++ (now', k) ∷ []) ≤ limit
  hits_bound now now' r log t le h room = elim (Bool-cases (leb now' t)) [
    | inr before ↦ ground (arith, hits-concat w k t now' k log, h.bound t)
    | inl after ↦
        let now'-le : now' ≤ t = ground arith in
        let agrees : hits w k t log ≡ count w t (recent w now' (stored r.requests k)) =
          h.agree t (omega arith) ∙ sym (count-recent w now' t (stored r.requests k) now'-le) in
        let short : count w t (recent w now' (stored r.requests k))
            ≤ length (recent w now' (stored r.requests k)) =
          length-filter-le (in_window w t) (recent w now' (stored r.requests k)) in
        let room' : suc (length (recent w now' (stored r.requests k))) ≤ limit =
          rw h.window at room in
        ground (arith, hits-concat w k t now' k log, agrees, short, room')
  ]

  put-Tracks_self :
      (now now' : ℕ) (r : RateLimiter) (log : List (ℕ × String))
      → now ≤ now'
      → Tracks now r log
      → suc (length (fresh r now' k)) ≤ limit
      → Tracks now' (recorded r now' k) (log ++ (now', k) ∷ [])
  put-Tracks_self now now' r log le h room =
      let ts = recent w now' (stored r.requests k) in
      let same : stored (recorded r now' k).requests k ≡ ts ++ now' ∷ [] =
        rw stored-put (rw (eq_refl k) (rw h.window)) in
      let past : All (λ s. s ≤ now') ts =
        unfold recent in
        All-filter (λ s. s ≤ now') (λ s. ltb now' (s + w)) (stored r.requests k)
          (All-le now now' _ le h.past) in
      record {
        window = h.window;
        max = h.max;
        past = rw same (All-append (λ s. s ≤ now') ts (now' ∷ []) past (omega arith, tt));
        last = rw same (LatestLast-concat now' ts past);
        agree = λ t le'. rw same (
            ground (
              arith,
              hits-concat w k t now' k log,
              eq_refl k,
              h.agree t (omega arith),
              count-recent w now' t (stored r.requests k) le',
              count-append w t ts (now' ∷ []),
            ));
        bound = λ t. hits_bound now now' r log t le h room;
      }

  is_allowed-Tracks :
      (now now' : ℕ) (r : RateLimiter) (log : List (ℕ × String)) (key : String)
      → now ≤ now'
      → Tracks now r log
      → Tracks now' (is_allowed r now' key).0 (logged log now' key (is_allowed r now' key).1)
  unfolding is_allowed logged
  is_allowed-Tracks now now' r log key le h =
      elim (Bool-cases (leb r.max_requests (length (fresh r now' key)))) [
        | inl full ↦ rw full (swept-Tracks now now' r log key le h)
        | inr room ↦ rw room (elim (Bool-cases (str_eq key k)) [
          | inr other ↦ put-Tracks_ne now now' r log key le h other
          | inl here ↦
              rw ((eq_iff key k).0 here)
                (put-Tracks_self now now' r log le h (ground (arith, (eq_iff key k).0 here, h.max)))
        ])
      ]

-- The clock does not run backwards, and starts at `now`.
abbrev pub IsOrdered : ℕ → List (ℕ × String) → Type 0
IsOrdered now [] = Unit
IsOrdered now ((t, _) ∷ later) = (now ≤ t) × IsOrdered t later

abbrev pub end_time : ℕ → List (ℕ × String) → ℕ
end_time now [] = now
end_time now ((t, _) ∷ later) = end_time t later

logged-append :
    (log rest : List (ℕ × String)) (now : ℕ) (key : String) (b : Bool)
    → logged log now key b ++ rest ≡ log ++ (if b then (now, key) ∷ rest else rest)
unfolding logged
logged-append log rest now key true = append_assoc log ((now, key) ∷ []) rest
logged-append log rest now key false = refl

module _ (w limit : ℕ) (k : String) where
  after-Tracks :
      (now : ℕ) (r : RateLimiter) (log history : List (ℕ × String))
      → IsOrdered now history
      → Tracks w limit k now r log
      → Tracks w limit k (end_time now history) (after r history) (log ++ accepted r history)
  unfolding after accepted
  after-Tracks now r log [] _ h = rw append-nil h
  after-Tracks now r log ((t, key) ∷ later) (le, ordered) h =
      rw (← logged-append log (accepted (is_allowed r t key).0 later) t key (is_allowed r t key).1)
        (after-Tracks t (is_allowed r t key).0 (logged log t key (is_allowed r t key).1) later
          ordered (is_allowed-Tracks w limit k now t r log key le h))

  init-Tracks : (max_keys : ℕ) → Tracks w limit k 0 (init limit w max_keys) []
  unfolding init stored Dict.get Dict.empty
  init-Tracks max_keys = record {
    window = refl;
    max = refl;
    past = tt;
    last = LatestLast-nil w;
    agree = λ t le. refl;
    bound = λ t. omega arith;
  }

  run-Tracks :
      (max_keys : ℕ) (history : List (ℕ × String))
      → IsOrdered 0 history
      → Tracks w limit k
          (end_time 0 history)
          (after (init limit w max_keys) history)
          (accepted (init limit w max_keys) history)
  run-Tracks max_keys history ordered =
      after-Tracks 0 (init limit w max_keys) [] history ordered (init-Tracks max_keys)

-- Whatever requests arrive, by a clock that does not run backwards, a fresh limiter allows a key at
-- most `limit` times in the window that ends at `t`, for every `t`.
pub hits-accepted-le :
    (limit w max_keys : ℕ) (key : String) (history : List (ℕ × String)) (t : ℕ)
    → IsOrdered 0 history
    → hits w key t (accepted (init limit w max_keys) history) ≤ limit
hits-accepted-le limit w max_keys key history t ordered =
    (run-Tracks w limit key max_keys history ordered).bound t

-- After such requests, the next one is allowed exactly when fewer than `limit` requests of its key
-- were allowed in the window that ends now: neither pruning nor eviction changes a decision.
pub is_allowed-eq-hits :
    (limit w max_keys : ℕ) (key : String) (history : List (ℕ × String)) (now : ℕ)
    → IsOrdered 0 history
    → end_time 0 history ≤ now
    → (is_allowed (after (init limit w max_keys) history) now key).1
      ≡ ltb (hits w key now (accepted (init limit w max_keys) history)) limit
unfolding is_allowed
is_allowed-eq-hits limit w max_keys key history now ordered le =
    let h = run-Tracks w limit key max_keys history ordered in
    let r = after (init limit w max_keys) history in
    ground (
      arith,
      h.max,
      length-fresh w limit key (end_time 0 history) now r (accepted (init limit w max_keys) history)
          le h,
    )
