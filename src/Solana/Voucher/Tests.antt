-- ===== src/Solana/Voucher/Tests.antt =====
-- Runs of the voucher codec.
use canalis.Base.{ℕ, List, [], ◌∷◌, ◌++◌, ◌≡◌, refl, ◌↔◌, length}
use canalis.Base.Int.{pos, negsuc, ◌≤ℤ◌, ◌<ℤ◌}
use canalis.Base.Bytes.{le_bytes}
use canalis.Base.Result.{ok}
use canalis.Solana.Voucher.{
  Voucher, assert_channel_id, assert_u64, assert_i64, encode_voucher, decode_voucher,
  assert_monotonic_voucher_amount, max_u64,
}
use canalis.Solana.Voucher.Codec.{decode_voucher-encode_voucher}
use canalis.Solana.Voucher.Monotonic.{assert_monotonic_voucher_amount_iff}

abbrev zeros : ℕ → List ℕ
zeros n = le_bytes n 0

abbrev sample_voucher : Voucher
sample_voucher = record {
  channel_id = zeros 32;
  cumulative_amount = pos 258;
  expires_at = negsuc 0;
}

abbrev sample_bytes : List ℕ
sample_bytes =
    86
    ∷ 1
    ∷ (zeros 32
        ++ (2 ∷ 1 ∷ 0 ∷ 0 ∷ 0 ∷ 0 ∷ 0 ∷ 0 ∷ 255 ∷ 255 ∷ 255 ∷ 255 ∷ 255 ∷ 255 ∷ 255 ∷ 255 ∷ []))

sample_encoded : encode_voucher sample_voucher ≡ ok sample_bytes
unfolding encode_voucher assert_channel_id assert_u64 assert_i64
sample_encoded = refl

decode_voucher-encode_voucher_example :
    (decode_voucher sample_bytes ≡ ok sample_voucher) × (length sample_bytes ≡ 50)
decode_voucher-encode_voucher_example =
    decode_voucher-encode_voucher sample_voucher sample_bytes sample_encoded

assert_monotonic_voucher_amount_iff_example :
    (assert_monotonic_voucher_amount (pos 5) (pos 9) (pos 9) ≡ ok tt)
    ↔ ((pos 0 ≤ℤ pos 5) × (pos 5 <ℤ pos 9) × (pos 9 ≤ℤ pos 9) × (pos 9 ≤ℤ max_u64))
assert_monotonic_voucher_amount_iff_example =
    assert_monotonic_voucher_amount_iff (pos 5) (pos 9) (pos 9)
