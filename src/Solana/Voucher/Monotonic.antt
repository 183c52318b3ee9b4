-- ===== src/Solana/Voucher/Monotonic.antt =====
-- The watermark that a voucher may move to.
use canalis.Base.{◌≡◌, ◌↔◌, arith}
use canalis.Base.Int.{ℤ, pos, ◌≤ℤ◌, ◌<ℤ◌}
use canalis.Base.Result.{ok}
use canalis.Solana.Voucher.{assert_monotonic_voucher_amount, max_u64}
use canalis.Solana.Voucher.Codec.{u64_iff}

-- A new watermark is accepted exactly if it is above the previous one and within the deposit
-- ceiling, which fits 64 bits, and none of them is negative.
pub assert_monotonic_voucher_amount_iff :
    (previous next ceiling : ℤ)
    → (assert_monotonic_voucher_amount previous next ceiling ≡ ok tt)
      ↔ ((pos 0 ≤ℤ previous) × (previous <ℤ next) × (next ≤ℤ ceiling) × (ceiling ≤ℤ max_u64))
unfolding assert_monotonic_voucher_amount
assert_monotonic_voucher_amount_iff p n c =
    ground (arith, u64_iff p "previousAmount", u64_iff n "nextAmount", u64_iff c "depositCeiling")
