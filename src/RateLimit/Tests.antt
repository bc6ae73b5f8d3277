-- ===== src/RateLimit/Tests.antt =====
-- Runs of the limiter.
use ragr.Prelude.{ℕ, ◌≤◌, String, ◌≡◌, refl, List, [], ◌∷◌, arith, ltb}
use ragr.Dict.{get, put, remove, remove_all, size, keys, empty}
use ragr.RateLimit.{init, accepted, after, is_allowed}
use ragr.RateLimit.Window.{hits}
use ragr.RateLimit.Bound.{hits-accepted-le, is_allowed-eq-hits}

abbrev burst : List (ℕ × String)
burst = (1, "a") ∷ (2, "a") ∷ (3, "b") ∷ (4, "a") ∷ (11, "a") ∷ (12, "a") ∷ []

two_per_ten :
    accepted (init 2 10 1) burst ≡ (1, "a") ∷ (2, "a") ∷ (3, "b") ∷ (11, "a") ∷ (12, "a") ∷ []
unfolding init accepted get put remove remove_all size keys empty
two_per_ten = refl

hits-accepted-le_example : hits 10 "a" 12 (accepted (init 2 10 1) burst) ≤ 2
hits-accepted-le_example = hits-accepted-le 2 10 1 "a" burst 12 (omega arith)

is_allowed-eq-hits_example :
    (is_allowed (after (init 2 10 1) burst) 13 "a").1
    ≡ ltb (hits 10 "a" 13 (accepted (init 2 10 1) burst)) 2
is_allowed-eq-hits_example = is_allowed-eq-hits 2 10 1 "a" burst 13 (omega arith) (omega arith)
