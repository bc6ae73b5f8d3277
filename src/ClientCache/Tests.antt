-- ===== src/ClientCache/Tests.antt =====
-- Runs of the cache, with clients that are the keys they were made from.
use ragr.Prelude.{ℕ, ◌+◌, ◌≤◌, ◌<◌, String, ◌≡◌, refl, Option, none, some, List, [], ◌∷◌, arith}
use ragr.Dict
use ragr.ClientCache.{ClientCache, ok, value_error, init, get, get_custom, run}
use ragr.ClientCache.Laws.{wanted, get_isolated, get_custom_unexpired}

abbrev digest : String → String
digest k = k

abbrev calls : List (ℕ × Option String)
calls = (0, none) ∷ (1, some "a") ∷ (2, some "b") ∷ (3, some "a") ∷ (4, some "c") ∷ []

-- "a" is the oldest of two when "c" comes, and is made anew.
abbrev made : String → String
made k = k

evicted :
    run digest "platform" made (init 300 2) calls
    ≡ ok (record {
      ttl = 300;
      max_size = 2;
      platform_client = some "platform";
      cache = Dict.put (Dict.put Dict.empty "b" ("b", 2)) "c" ("c", 4);
    })
unfolding run init Dict.put Dict.get Dict.remove Dict.size Dict.keys Dict.empty
evicted = refl

-- A cache without room raises on the first custom key.
no_room : get digest "platform" made (init 300 0) 1 (some "a") ≡ value_error
unfolding get init Dict.put Dict.get Dict.remove Dict.size Dict.keys Dict.empty
no_room = refl

get_isolated_example :
    (c c' : ClientCache String) × (run digest "platform" made (init 300 2) calls ≡ ok c)
    × (get digest "platform" made c 5 (some "b")
        ≡ ok (c', wanted digest "platform" made (some "b")))
    × (Dict.size c'.cache ≤ 2)
get_isolated_example =
    get_isolated digest "platform" made 300 2 calls 5 (some "b") (λ a b e. e) (omega arith)

get_custom_unexpired_example :
    (since : ℕ) × (Dict.get (Dict.put (Dict.empty {V = String × ℕ}) "a" ("a", 7)) (digest "a")
      ≡ some ("a", since))
    × (7 < since + 300)
unfolding get_custom init Dict.put Dict.get Dict.remove Dict.size Dict.keys Dict.empty
get_custom_unexpired_example =
    get_custom_unexpired digest "platform" made (init 300 2)
      (record (init 300 2) { cache = Dict.put Dict.empty "a" ("a", 7) }) 7 "a" "a" (omega arith)
      refl
