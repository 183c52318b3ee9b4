-- ===== src/Persistence/RateLimit.antt =====
-- packages/persistence/src/security.ts: `consumeRateLimit`, one statement on a table of one row for
-- each scope. The limit and the window are whole numbers, as after `Math.floor`.
pub mod Bound
mod Tests
use canalis.Base.{ℕ, ◌+◌, ◌-◌, ◌/◌, String, Option, none, some, Bool, ◌==◌, leb, if◌then◌else◌}
use canalis.Persistence.Clock.{seconds, min, max}

-- A row of `api_rate_limits`, less its key and the column `updated_at`, which nothing reads.
pub record RateWindow : Type 0 where
  pub window_started_at : ℕ
  pub request_count : ℕ

abbrev pub RateWindows : Type 0
RateWindows = String → Option RateWindow

pub record RateLimitInput : Type 0 where
  pub scope_key : String
  pub limit : ℕ
  pub window_seconds : ℕ

pub record RateLimitResult : Type 0 where
  pub allowed : Bool
  pub count : ℕ
  pub limit : ℕ
  pub retry_after_seconds : ℕ

abbrev pub limit_of : RateLimitInput → ℕ
limit_of input = max 1 (min 10000 input.limit)

abbrev pub window_of : RateLimitInput → ℕ
window_of input = max 1 (min 3600 input.window_seconds)

-- `window_started_at <= NOW() - window`, where no time is negative.
abbrev pub has_passed : ℕ → RateLimitInput → RateWindow → Bool
has_passed now input row = leb (row.window_started_at + seconds (window_of input)) now

-- The row that the statement stores and returns.
abbrev pub counted : ℕ → RateLimitInput → Option RateWindow → RateWindow
counted now input none = record { window_started_at = now; request_count = 1 }
counted now input (some row) =
    if has_passed now input row
    then record { window_started_at = now; request_count = 1 }
    else record row { request_count = row.request_count + 1 }

-- `GREATEST(1, CEIL(...))` of the time that is left of the window.
abbrev pub retry_after : ℕ → RateLimitInput → RateWindow → ℕ
retry_after now input row =
    max 1 ((row.window_started_at + seconds (window_of input) - now + 999999) / 1000000)

unfoldable pub consume_rate_limit : ℕ → RateLimitInput → RateWindows → RateLimitResult × RateWindows
consume_rate_limit now input table =
    let row = counted now input (table input.scope_key) in
    (
      record {
        allowed = leb row.request_count (limit_of input);
        count = row.request_count;
        limit = limit_of input;
        retry_after_seconds = retry_after now input row;
      },
      λ scope. if input.scope_key == scope then some row else table scope,
    )
