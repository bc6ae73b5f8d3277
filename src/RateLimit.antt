-- ===== src/RateLimit.antt =====
-- app/services/rate_limit.py: the sliding-window limiter of the chat, retrieve and ingest endpoints.
-- The clock's readings are natural numbers, and `t > now - window` is read as `now < t + window`.
pub mod Window
pub mod Bound
mod Tests
use ragr.Prelude.{
  ℕ, ◌+◌, String, Bool, true, false, Option, none, some, List, [], ◌∷◌, ◌++◌, ltb, leb,
  if◌then◌else◌, length, filter, get_last?,
}
use ragr.Dict
use ragr.Dict.{Dict}

pub record RateLimiter : Type 0 where
  pub max_requests : ℕ
  pub window : ℕ
  pub max_keys : ℕ
  pub requests : Dict (List ℕ)

unfoldable pub init : ℕ → ℕ → ℕ → RateLimiter
init max_requests window max_keys = record {
  max_requests = max_requests;
  window = window;
  max_keys = max_keys;
  requests = Dict.empty;
}

-- `self._requests[key]` of a `defaultdict(list)`: the value ...
unfoldable pub stored : Dict (List ℕ) → String → List ℕ
stored d key = elim (Dict.get d key) [ none ↦ [] | some ts ↦ ts ]

-- ... and the dict afterwards, in which a missing key has been created
pub touch : Dict (List ℕ) → String → Dict (List ℕ)
touch d key = elim (Dict.get d key) [ none ↦ Dict.put d key [] | some _ ↦ d ]

unfoldable pub recent : ℕ → ℕ → List ℕ → List ℕ
recent window now ts = filter (λ t. ltb now (t + window)) ts

-- `not ts or ts[-1] <= cutoff`
pub is_stale : ℕ → ℕ → List ℕ → Bool
is_stale window now ts = elim (get_last? ts) [ none ↦ true | some t ↦ leb (t + window) now ]

-- drop the key when nothing recent is left of it
pub prune : List ℕ → String → Dict (List ℕ) → Dict (List ℕ)
prune [] key d = Dict.remove d key
prune (_ ∷ _) key d = d

-- the eviction of stale keys when the dict has grown too large
pub sweep : ℕ → ℕ → ℕ → Dict (List ℕ) → Dict (List ℕ)
sweep max_keys window now d =
    if ltb max_keys (Dict.size d)
    then Dict.remove_all (filter (λ k. is_stale window now (stored d k)) (Dict.keys d)) d
    else d

unfoldable pub is_allowed : RateLimiter → ℕ → String → RateLimiter × Bool
unfolding stored touch recent is_stale prune sweep
is_allowed r now key =
    let fresh = recent r.window now (stored r.requests key) in
    let pruned = prune fresh key (touch r.requests key) in
    let swept = sweep r.max_keys r.window now pruned in
    if leb r.max_requests (length fresh)
    then (record r { requests = swept }, false)
    else (record r { requests = Dict.put swept key (fresh ++ now ∷ []) }, true)

-- Requests in the order of arrival, each with the clock's reading: the requests that are allowed.
unfoldable pub accepted : RateLimiter → List (ℕ × String) → List (ℕ × String)
unfolding is_allowed
accepted r [] = []
accepted r ((now, key) ∷ later) =
    let (r', allowed) = is_allowed r now key in
    let rest = accepted r' later in if allowed then (now, key) ∷ rest else rest

-- The limiter after those requests.
unfoldable pub after : RateLimiter → List (ℕ × String) → RateLimiter
unfolding is_allowed
after r [] = r
after r ((now, key) ∷ later) = after (is_allowed r now key).0 later
