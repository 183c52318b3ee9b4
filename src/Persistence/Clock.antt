-- ===== src/Persistence/Clock.antt =====
-- What the repositories of packages/persistence/src do with numbers and time.
use canalis.Base.{ℕ, ◌*◌, ◌≤◌, Option, none, some, ltb, if◌then◌else◌, arith}

-- `INTERVAL '1 second'`, `n` times.
abbrev pub seconds : ℕ → ℕ
seconds n = n * 1000000

abbrev pub max : ℕ → ℕ → ℕ
max a b = if ltb a b then b else a

abbrev pub min : ℕ → ℕ → ℕ
min a b = if ltb b a then b else a

-- `Math.max(low, Math.min(high, value ?? fallback))`
abbrev pub bounded : (low high fallback : ℕ) → Option ℕ → ℕ
bounded low high fallback none = max low (min high fallback)
bounded low high fallback (some value) = max low (min high value)

pub bounded_range :
    (low high fallback : ℕ) (value : Option ℕ)
    → low ≤ high
    → (low ≤ bounded low high fallback value) × (bounded low high fallback value ≤ high)
bounded_range low high fallback none h = ground arith
bounded_range low high fallback (some value) h = ground arith
