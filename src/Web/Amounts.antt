-- ===== src/Web/Amounts.antt =====
-- apps/web/src/app/api/tasks/[id]/lifecycle/route.ts: `atomicToUsd`, which prints an amount of atomic
-- units for a request that is parsed again.
pub mod Printed
mod Tests
use Prim.Native.Char.{code}
use Prim.Native.String
use canalis.Base.{ℕ, zero, suc, ◌-◌, ◌/◌, ◌%◌, String, ◌&&◌, eqb, is_empty, if◌then◌else◌}
use canalis.Base.Text.{show_from}

-- `n.toString()`
unfoldable pub show : ℕ → String
unfolding show_from
show n = show_from (suc n) n ""

-- `s.length` of a text without surrogate pairs.
abbrev pub text_length : String → ℕ
text_length String.[] = 0
text_length (String.◌∷◌ c s) = suc (text_length s)

abbrev pub zeros : ℕ → String → String
zeros zero s = s
zeros (suc n) s = String.◌∷◌ "0" (zeros n s)

-- `s.padStart(width, "0")`
abbrev pub pad_start : ℕ → String → String
pad_start width s = zeros (width - text_length s) s

-- `s.replace(/0+$/, "")`
abbrev pub strip_zeros : String → String
strip_zeros String.[] = ""
strip_zeros (String.◌∷◌ c s) =
    let rest = strip_zeros s in if eqb (code c) 48 && is_empty rest then "" else String.◌∷◌ c rest

-- `fractional ? `${whole}.${fractional}` : whole.toString()`
abbrev pub with_fraction : (whole fractional : String) → String
with_fraction whole fractional =
    if is_empty fractional then whole else String.◌++◌ whole (String.◌++◌ "." fractional)

unfoldable pub atomic_to_usd : ℕ → String
atomic_to_usd atomic =
    let whole = show (atomic / 1000000) in
    let fractional = strip_zeros (pad_start 6 (show (atomic % 1000000))) in
    with_fraction whole fractional
