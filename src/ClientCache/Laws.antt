-- ===== src/ClientCache/Laws.antt =====
-- The cache never mixes two keys, stays within its size and serves no expired client.
use ragr.Prelude.{
  ltb, leb, if◌then◌else◌, Bool-cases, Option-cases, length, All, ℕ, suc, ◌+◌, ◌≤◌, ◌<◌, String,
  ◌≡◌, refl, ◌∙◌, ◌⊎◌, inl, inr, Option, none, some, List, [], ◌∷◌, arith, str_eq, eq_iff, eq_refl,
}
use ragr.Dict
use ragr.Dict.{
  Dict, IsPresent, keys-IsPresent, length-keys, get-put, get-remove, get-empty, size-put-le,
  size-remove_present,
}
use ragr.ClientCache.{
  ClientCache, Result, ok, value_error, init, stamp, older, oldest_key, make_room, fresh,
  get_custom, get_platform, get, run,
}

Result-cases : {A : Type 0} (r : Result A) → (r ≡ value_error) ⊎ ((a : A) × (r ≡ ok a))
Result-cases value_error = inl refl
Result-cases (ok a) = inr (a, refl)

module _ {T : Type 0} where
  older-IsPresent :
      (d : Dict (T × ℕ)) (best : String) (ks : List String)
      → IsPresent d best
      → All (IsPresent d) ks
      → IsPresent d (older d best ks)
  unfolding older
  older-IsPresent d best [] h hs = h
  older-IsPresent d best (k ∷ ks) h (hk, hs) = elim (Bool-cases (ltb (stamp d k) (stamp d best))) [
    | inl lt ↦ rw lt (older-IsPresent d k ks hk hs)
    | inr ge ↦ rw ge (older-IsPresent d best ks h hs)
  ]

  -- Eviction makes room: it fails on no cache that may hold an entry, takes at most one entry away,
  -- and leaves room for one.
  record MakesRoom (limit : ℕ) (d d' : Dict (T × ℕ)) : Type 0 where
    pub room : suc (Dict.size d') ≤ limit
    pub kept : (k : String) → (Dict.get d' k ≡ Dict.get d k) ⊎ (Dict.get d' k ≡ none)

  evict :
      (limit : ℕ) (d : Dict (T × ℕ)) (k : String)
      → Dict.size d ≤ limit
      → IsPresent d k
      → MakesRoom limit d (Dict.remove d k)
  evict limit d k h (v, present) = record {
    room = omega (arith, size-remove_present d k v present);
    kept = λ j. elim (Bool-cases (str_eq k j)) [
      | inl here ↦ inr (ground (arith, get-remove d k j))
      | inr other ↦ inl (ground (arith, get-remove d k j))
    ];
  }

  make_room_lem :
      (limit : ℕ) (d : Dict (T × ℕ))
      → 1 ≤ limit
      → Dict.size d ≤ limit
      → (d' : Dict (T × ℕ)) × (make_room limit d ≡ ok d') × MakesRoom limit d d'
  unfolding make_room
  make_room_lem limit d pos h = elim (Bool-cases (leb limit (Dict.size d))) [
    | inr small ↦ (d, rw small, record { room = ground arith; kept = λ k. inl refl })
    | inl full ↦ rw full (go (Dict.keys d) (length-keys d) (keys-IsPresent d) (ground arith))
  ]
    where
      go :
          (ks : List String)
          → length ks ≡ Dict.size d
          → All (IsPresent d) ks
          → 1 ≤ Dict.size d
          → (d' : Dict (T × ℕ)) × ((elim (oldest_key d ks) [
            | none ↦ value_error
            | some k ↦ ok (Dict.remove d k)
          ])
              ≡ ok d')
            × MakesRoom limit d d'
      go [] e hs p = absurd (omega arith)
      go (k ∷ ks) e (hk, hs) p = (
        Dict.remove d (older d k ks),
        unfold oldest_key in refl,
        evict limit d (older d k ks) h (older-IsPresent d k ks hk hs),
      )

abbrev pub IsInjective : (String → String) → Type 0
IsInjective f = (a b : String) → f a ≡ f b → a ≡ b

module _ {T : Type 0} (sha256 : String → String) (platform_factory : T)
    (custom_factory : String → T) where
  -- Every cached client was made from a key with the digest that it is filed under.
  record IsSound (c : ClientCache T) : Type 0 where
    pub bounded : Dict.size c.cache ≤ c.max_size
    pub keyed :
        (digest : String) (e : T × ℕ)
        → Dict.get c.cache digest ≡ some e
        → (k : String) × (sha256 k ≡ digest) × (e.0 ≡ custom_factory k)
    pub platform : (c.platform_client ≡ none) ⊎ (c.platform_client ≡ some platform_factory)

  -- The client that a caller asks for: the platform's without a key.
  abbrev pub wanted : Option String → T
  wanted none = platform_factory
  wanted (some k) = if str_eq k "" then platform_factory else custom_factory k

  -- The call succeeds, serves the client and keeps the invariant and the bound.
  record Serves (c : ClientCache T) (r : Result (ClientCache T × T)) (client : T) : Type 0 where
    pub cache : ClientCache T
    pub result : r ≡ ok (cache, client)
    pub sound : IsSound cache
    pub size : cache.max_size ≡ c.max_size

  serve_platform :
      (c : ClientCache T)
      → IsSound c
      → Serves c (ok (get_platform sha256 platform_factory custom_factory c)) platform_factory
  unfolding get_platform
  serve_platform c h = elim h.platform [
    | inl e ↦ record {
      cache = record c { platform_client = some platform_factory };
      result = ground arith;
      sound = record { bounded = h.bounded; keyed = h.keyed; platform = inr refl };
      size = refl;
    }
    | inr e ↦ record { cache = c; result = ground arith; sound = h; size = refl }
  ]

  keyed-put :
      (c : ClientCache T) (d : Dict (T × ℕ)) (now : ℕ) (key : String)
      → MakesRoom c.max_size c.cache d
      → IsSound c
      → IsSound (record c { cache = Dict.put d (sha256 key) (custom_factory key, now) })
  keyed-put c d now key m h = record {
    bounded = omega (arith, size-put-le d (sha256 key) (custom_factory key, now), m.room);
    keyed = λ digest e found. elim (Bool-cases (str_eq (sha256 key) digest)) [
      | inl here ↦ (
        key,
        (eq_iff _ _).0 here,
        ground (arith, get-put d (sha256 key) digest (custom_factory key, now)),
      )
      | inr other ↦
          h.keyed digest e
            (ground (arith, get-put d (sha256 key) digest (custom_factory key, now), m.kept digest))
    ];
    platform = h.platform;
  }

  fresh-eq-some :
      (ttl now : ℕ) (o : Option (T × ℕ)) (client : T)
      → fresh ttl now o ≡ some client
      → (since : ℕ) × (o ≡ some (client, since)) × (now < since + ttl)
  unfolding fresh
  fresh-eq-some ttl now none client h = ground arith
  fresh-eq-some ttl now (some (other, since)) client h = (since, ground arith, ground arith)

  serve_custom :
      IsInjective sha256
      → (c : ClientCache T) (now : ℕ) (key : String) → 1 ≤ c.max_size
      → IsSound c
      → Serves c (get_custom sha256 platform_factory custom_factory c now key) (custom_factory key)
  unfolding get_custom
  serve_custom inj c now key pos h =
      elim (Option-cases (fresh c.ttl now (Dict.get c.cache (sha256 key)))) [
        | inr (client, hit) ↦
            let (since, found, _) = fresh-eq-some c.ttl now _ client hit in
            let (k, digest, made) = h.keyed (sha256 key) (client, since) found in
            record {
              cache = c;
              result = rw (hit, get_custom) (cc (made, inj k key digest));
              sound = h;
              size = refl;
            }
        | inl miss ↦
            let (d, roomy, m) = make_room_lem c.max_size c.cache pos h.bounded in
            record {
              cache = record c { cache = Dict.put d (sha256 key) (custom_factory key, now) };
              result = rw (miss, get_custom) (rw (roomy, get_custom));
              sound = keyed-put c d now key m h;
              size = refl;
            }
      ]

  serve :
      IsInjective sha256
      → (c : ClientCache T) (now : ℕ) (key : Option String) → 1 ≤ c.max_size
      → IsSound c
      → Serves c (get sha256 platform_factory custom_factory c now key) (wanted key)
  unfolding get
  serve inj c now none pos h = serve_platform c h
  serve inj c now (some key) pos h = elim (Bool-cases (str_eq key "")) [
    | inl empty ↦ rw empty (serve_platform c h)
    | inr custom ↦ rw custom (serve_custom inj c now key pos h)
  ]

  record Runs (limit : ℕ) (r : Result (ClientCache T)) : Type 0 where
    pub cache : ClientCache T
    pub result : r ≡ ok cache
    pub sound : IsSound cache
    pub size : cache.max_size ≡ limit

  run_lem :
      IsInjective sha256
      → (c : ClientCache T) (calls : List (ℕ × Option String)) → 1 ≤ c.max_size
      → IsSound c
      → Runs c.max_size (run sha256 platform_factory custom_factory c calls)
  unfolding run
  run_lem inj c [] pos h = record { cache = c; result = refl; sound = h; size = refl }
  run_lem inj c ((now, key) ∷ calls) pos h =
      let s = serve inj c now key pos h in
      let rest = run_lem inj s.cache calls (omega (arith, s.size)) s.sound in
      record {
        cache = rest.cache;
        result = rw (s.result, run) rest.result;
        sound = rest.sound;
        size = rest.size ∙ s.size;
      }

  init-IsSound : (ttl max_size : ℕ) → IsSound (init ttl max_size)
  unfolding init Dict.empty Dict.size Dict.get
  init-IsSound ttl max_size = record {
    bounded = omega arith;
    keyed = λ digest e found. ground arith;
    platform = inl refl;
  }

-- With a collision-free digest and room for at least one entry, after any sequence of calls on a new
-- cache every further call succeeds: a custom key is served a client made from that very key, no or
-- an empty key the platform's client, and no more than `max_size` custom clients are held.
pub get_isolated :
    {T : Type 0} (sha256 : String → String) (platform_factory : T) (custom_factory : String → T)
    (ttl max_size : ℕ) (calls : List (ℕ × Option String)) (now : ℕ) (key : Option String)
    → IsInjective sha256
    → 1 ≤ max_size
    → (c c' : ClientCache T) × (run sha256 platform_factory custom_factory (init ttl max_size) calls
        ≡ ok c)
      × (get sha256 platform_factory custom_factory c now key
          ≡ ok (c', wanted sha256 platform_factory custom_factory key))
      × (Dict.size c'.cache ≤ max_size)
get_isolated sha256 platform_factory custom_factory ttl max_size calls now key inj pos =
    let r =
      run_lem sha256 platform_factory custom_factory inj (init ttl max_size) calls
        (unfold init in pos) (init-IsSound sha256 platform_factory custom_factory ttl max_size) in
    let size : r.cache.max_size ≡ max_size = unfold init in r.size in
    let s =
      serve sha256 platform_factory custom_factory inj r.cache now key (omega arith) r.sound in
    (r.cache, s.cache, r.result, s.result, omega (arith, s.sound.bounded, s.size))

-- A client that a custom key is served is not older than the time to live: the cache holds it with a
-- time stamp that has not expired at the call, if clients live for some time at all.
pub get_custom_unexpired :
    {T : Type 0} (sha256 : String → String) (platform_factory : T) (custom_factory : String → T)
    (c c' : ClientCache T) (now : ℕ) (key : String) (client : T)
    → 0 < c.ttl
    → get_custom sha256 platform_factory custom_factory c now key ≡ ok (c', client)
    → (since : ℕ) × (Dict.get c'.cache (sha256 key) ≡ some (client, since)) × (now < since + c.ttl)
unfolding get_custom
get_custom_unexpired sha256 platform_factory custom_factory c c' now key client pos e =
    elim (Option-cases (fresh c.ttl now (Dict.get c.cache (sha256 key)))) [
      | inr (held, hit) ↦
          let (since, found, young) =
            fresh-eq-some sha256 platform_factory custom_factory c.ttl now _ held hit in
          (since, ground (arith, found), young)
      | inl miss ↦ elim (Result-cases (make_room c.max_size c.cache)) [
        | inl failed ↦ absurd (ground arith)
        | inr (d, roomy) ↦ (
          now,
          ground (
            arith,
            get-put d (sha256 key) (sha256 key) (custom_factory key, now),
            eq_refl (sha256 key),
          ),
          omega arith,
        )
      ]
    ]
