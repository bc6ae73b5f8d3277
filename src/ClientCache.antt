-- ===== src/ClientCache.antt =====
-- app/services/client_cache.py: API clients by custom key, with a time to live and a size cap. The
-- SHA-256 digest and the two client factories are parameters; the monotonic clock's reading is an
-- argument, a natural number.
pub mod Laws
mod Tests
use ragr.Prelude.{
  ltb, leb, ◌==◌, if◌then◌else◌, ltb→lt, leb→le, ==_iff, Bool-cases, Option-cases, length, take,
  drop, get_elem?, filter, get_last?, get_last?-concat, any, all, length-append, length-take,
  length-drop, take-append-drop, filter-append, length-filter-le, length-map, All, All-append,
  All-filter, All-take, ℕ, zero, suc, ◌+◌, ◌-◌, ◌*◌, ◌/◌, ◌%◌, ◌^◌, ◌≤◌, ◌<◌, min, max, String, ◌≡◌,
  refl, sym, ap, ◌∙◌, fun_ext, subst, ◌≢◌, ◌↔◌, ◌⊎◌, inl, inr, Bool, true, false, ◌&&◌, ◌||◌, not,
  Option, none, some, List, [], ◌∷◌, ◌++◌, map, append_assoc, append-nil, map-append, arith, str_eq,
  eq_iff, eq_refl,
}
use ragr.Dict
use ragr.Dict.{Dict}

pub record ClientCache (T : Type 0) : Type 0 where
  pub ttl : ℕ
  pub max_size : ℕ
  pub platform_client : Option T
  pub cache : Dict (T × ℕ)

-- `min()` of an empty dict raises
pub data Result (A : Type 0) : Type 0 where
  ok : A → Result A
  value_error : Result A

module _ {T : Type 0} where
  unfoldable pub init : ℕ → ℕ → ClientCache T
  init ttl max_size = record {
    ttl = ttl;
    max_size = max_size;
    platform_client = none;
    cache = Dict.empty;
  }

  stamp : Dict (T × ℕ) → String → ℕ
  stamp d k = elim (Dict.get d k) [ none ↦ 0 | some e ↦ e.1 ]

  older : Dict (T × ℕ) → String → List String → String
  older d best [] = best
  older d best (k ∷ ks) = older d (if ltb (stamp d k) (stamp d best) then k else best) ks

  -- min(self._cache, key=lambda k: self._cache[k][1])
  oldest_key : Dict (T × ℕ) → List String → Option String
  oldest_key d [] = none
  oldest_key d (k ∷ ks) = some (older d k ks)

  -- the eviction of the oldest entry when the cache is full
  make_room : ℕ → Dict (T × ℕ) → Result (Dict (T × ℕ))
  make_room max_size d =
      if leb max_size (Dict.size d)
      then elim (oldest_key d (Dict.keys d)) [ none ↦ value_error | some k ↦ ok (Dict.remove d k) ]
      else ok d

  -- a cached entry that has not expired
  fresh : ℕ → ℕ → Option (T × ℕ) → Option T
  fresh ttl now none = none
  fresh ttl now (some (client, since)) = if ltb now (since + ttl) then some client else none

module _ {T : Type 0} (sha256 : String → String) (platform_factory : T)
    (custom_factory : String → T) where
  unfoldable pub get_custom : ClientCache T → ℕ → String → Result (ClientCache T × T)
  unfolding stamp older oldest_key make_room fresh
  get_custom c now api_key = elim (fresh c.ttl now (Dict.get c.cache (sha256 api_key))) [
    | some client ↦ ok (c, client)
    | none ↦ elim (make_room c.max_size c.cache) [
      | value_error ↦ value_error
      | ok d ↦
          let client = custom_factory api_key in
          ok (record c { cache = Dict.put d (sha256 api_key) (client, now) }, client)
    ]
  ]

  get_platform : ClientCache T → ClientCache T × T
  get_platform c = elim c.platform_client [
    | some client ↦ (c, client)
    | none ↦ (record c { platform_client = some platform_factory }, platform_factory)
  ]

  -- an empty key counts as none
  unfoldable pub get : ClientCache T → ℕ → Option String → Result (ClientCache T × T)
  unfolding get_custom get_platform
  get c now none = ok (get_platform c)
  get c now (some api_key) =
      if str_eq api_key "" then ok (get_platform c) else get_custom c now api_key

  -- the cache after some calls, each with the clock's reading
  unfoldable pub run : ClientCache T → List (ℕ × Option String) → Result (ClientCache T)
  unfolding get
  run c [] = ok c
  run c ((now, key) ∷ calls) = elim (get c now key) [
    | value_error ↦ value_error
    | ok (c', _) ↦ run c' calls
  ]
