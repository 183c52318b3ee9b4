-- ===== src/Persistence/RateLimit/Tests.antt =====
-- A scope of two requests a minute.
use canalis.Base.{ℕ, ◌*◌, ◌≤◌, List, [], ◌∷◌, none, true, false, ◌≡◌, refl, arith}
use canalis.Persistence.RateLimit.{RateWindows, RateLimitInput, consume_rate_limit}
use canalis.Persistence.RateLimit.Bound.{
  allowed_count, allowed_count_bound, consume_rate_limit_retry,
}

abbrev two_a_minute : RateLimitInput
two_a_minute = record { scope_key = "public:login"; limit = 2; window_seconds = 60 }

abbrev empty : RateWindows
empty = λ _. none

-- Around the end of a window.
abbrev burst : List ℕ
burst = 0 ∷ 50000000 ∷ 51000000 ∷ 60000000 ∷ 61000000 ∷ 62000000 ∷ []

burst_allowed : allowed_count two_a_minute burst empty ≡ 4
unfolding allowed_count consume_rate_limit
burst_allowed = refl

allowed_count_bound_example :
    allowed_count two_a_minute (50000000 ∷ 51000000 ∷ 60000000 ∷ []) empty ≤ 2 * 2
allowed_count_bound_example =
    allowed_count_bound two_a_minute 50000000 (50000000 ∷ 51000000 ∷ 60000000 ∷ []) empty
      (omega arith, omega arith, (omega arith, omega arith, (omega arith, omega arith, tt)))

abbrev exhausted : RateWindows
exhausted = (consume_rate_limit 2 two_a_minute (consume_rate_limit 1 two_a_minute empty).1).1

third_refused : (consume_rate_limit 3 two_a_minute exhausted).0.allowed ≡ false
unfolding consume_rate_limit
third_refused = refl

consume_rate_limit_retry_example :
    let (result, _) =
      consume_rate_limit 60000003 two_a_minute (consume_rate_limit 3 two_a_minute exhausted).1 in
    (result.allowed ≡ true) × (result.count ≡ 1)
unfolding consume_rate_limit
consume_rate_limit_retry_example =
    consume_rate_limit_retry 3 60000003 two_a_minute exhausted (omega arith)
