-- ===== src/Persistence/RateLimit/Bound.antt =====
-- How many requests a scope is allowed, and when a refused one may come back.
use text.Mathlib.TextPositions.{eq_refl}
use canalis.Base.{
  ℕ, suc, ◌+◌, ◌*◌, ◌≤◌, ◌<◌, List, [], ◌∷◌, Option, none, some, true, if◌then◌else◌, ◌≡◌, refl,
  arith,
}
use canalis.Persistence.Clock.{seconds, max}
use canalis.Persistence.RateLimit.{
  RateWindow, RateWindows, RateLimitInput, limit_of, window_of, consume_rate_limit,
}

-- How many of the calls at these times are allowed.
unfoldable pub allowed_count : RateLimitInput → List ℕ → RateWindows → ℕ
unfolding consume_rate_limit
allowed_count input [] table = 0
allowed_count input (now ∷ times) table =
    let (result, table') = consume_rate_limit now input table in
    let rest = allowed_count input times table' in if result.allowed then suc rest else rest

-- No time is before the one ahead of it, and all are before the end.
abbrev pub Ordered : ℕ → List ℕ → ℕ → Type 0
Ordered start [] end = Unit
Ordered start (now ∷ times) end = (start ≤ now) × (now < end) × Ordered now times end

-- What is left of a window that does not pass before the end.
same_window :
    (input : RateLimitInput) (times : List ℕ) (table : RateWindows) (row : RateWindow)
    (from end : ℕ)
    → table input.scope_key ≡ some row
    → end ≤ row.window_started_at + seconds (window_of input)
    → Ordered from times end
    → allowed_count input times table + row.request_count ≤ max row.request_count (limit_of input)
unfolding allowed_count consume_rate_limit
same_window input [] table row from end e inside order = ground arith
same_window input (now ∷ times) table row from end e inside (_, before, order) =
    let after = (consume_rate_limit now input table).1 in
    ground (
      arith,
      e,
      inside,
      before,
      eq_refl input.scope_key,
      same_window input times after (record row { request_count = row.request_count + 1 }) now end,
    )

-- What is left of any window, and the part of a new one that comes before the end.
two_windows :
    (input : RateLimitInput) (times : List ℕ) (table : RateWindows) (row : RateWindow)
    (start from end : ℕ)
    → table input.scope_key ≡ some row
    → start ≤ from
    → end ≤ start + seconds (window_of input)
    → Ordered from times end
    → allowed_count input times table + row.request_count
      ≤ max row.request_count (limit_of input) + limit_of input
unfolding allowed_count consume_rate_limit
two_windows input [] table row start from end e since short order = ground arith
two_windows input (now ∷ times) table row start from end e since short (from_now, before, order) =
    let after = (consume_rate_limit now input table).1 in
    ground (
      arith,
      e,
      since,
      short,
      from_now,
      before,
      eq_refl input.scope_key,
      two_windows input times after (record row { request_count = row.request_count + 1 }) start now
          end,
      same_window input times after (record { window_started_at = now; request_count = 1 }) now end,
    )

-- Whatever the table holds, the calls of one scope that are made in order within the length of a
-- window, wherever the windows of the table begin, are allowed at most twice the limit.
pub allowed_count_bound :
    (input : RateLimitInput) (start : ℕ) (times : List ℕ) (table : RateWindows)
    → Ordered start times (start + seconds (window_of input))
    → allowed_count input times table ≤ 2 * limit_of input
unfolding allowed_count consume_rate_limit
allowed_count_bound input start [] table order = omega arith
allowed_count_bound input start (now ∷ times) table (from, before, order) =
    outcome (table input.scope_key) refl
  where
    after : RateWindows
    after = (consume_rate_limit now input table).1

    outcome :
        (row : Option RateWindow)
        → table input.scope_key ≡ row
        → allowed_count input (now ∷ times) table ≤ 2 * limit_of input
    outcome none e = ground (
      arith,
      e,
      from,
      before,
      eq_refl input.scope_key,
      same_window input times after (record { window_started_at = now; request_count = 1 }) now
          (start + seconds (window_of input)),
    )
    outcome (some row) e = ground (
      arith,
      two_windows input (now ∷ times) table row start start (start + seconds (window_of input)) e
          (omega arith) (omega arith) (from, before, order),
    )

-- Every call, refused or not, is told a number of seconds; when that time has passed, and no other
-- call of its scope has come between, a call is allowed and is the first of a new window.
pub consume_rate_limit_retry :
    (now later : ℕ) (input : RateLimitInput) (table : RateWindows)
    → now + seconds (consume_rate_limit now input table).0.retry_after_seconds ≤ later
    → let (result, _) = consume_rate_limit later input (consume_rate_limit now input table).1 in
      (result.allowed ≡ true) × (result.count ≡ 1)
unfolding consume_rate_limit
consume_rate_limit_retry now later input table enough = outcome (table input.scope_key) refl
  where
    outcome :
        (row : Option RateWindow)
        → table input.scope_key ≡ row
        → ((consume_rate_limit later input (consume_rate_limit now input table).1).0.allowed ≡ true)
          × ((consume_rate_limit later input (consume_rate_limit now input table).1).0.count ≡ 1)
    outcome none e = ground (arith, e, enough, eq_refl input.scope_key)
    outcome (some row) e = ground (arith, e, enough, eq_refl input.scope_key)
