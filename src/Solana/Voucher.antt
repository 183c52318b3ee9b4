-- ===== src/Solana/Voucher.antt =====
-- packages/solana/src/voucher.ts: the canonical payload of a payment-channel voucher. A
-- `Uint8Array` is the list of its bytes; the writes of the encoder fill the 50 bytes in order.
pub mod Codec
pub mod Monotonic
mod Tests
use canalis.Base.{
  ℕ, suc, ◌-◌, ◌%◌, String, Option, none, some, List, [], ◌∷◌, ◌++◌, Bool, not, ◌&&◌, ◌||◌, eqb,
  ltb, if◌then◌else◌, length,
}
use canalis.Base.Int.{ℤ, pos, negsuc, ltb_ℤ, leb_ℤ, eqb_ℤ}
use canalis.Base.Bytes.{take, drop, le_bytes, of_le}
use canalis.Base.Text.{template, show_ℤ}
use canalis.Base.Result.{Result, ok, err, ◌>>◌, assert}
use canalis.Base.Action.{first_error}

abbrev pub voucher_length : ℕ
voucher_length = 50

abbrev pub channel_id_length : ℕ
channel_id_length = 32

abbrev pub max_u64 : ℤ
max_u64 = pos 18446744073709551615

abbrev pub min_i64 : ℤ
min_i64 = negsuc 9223372036854775807

abbrev pub max_i64 : ℤ
max_i64 = pos 9223372036854775807

pub record Voucher : Type 0 where
  pub channel_id : List ℕ
  pub cumulative_amount : ℤ
  pub expires_at : ℤ

assert_channel_id : List ℕ → Option String
assert_channel_id channel_id = first_error (
    (
      not (eqb (length channel_id) channel_id_length),
      template ("channelId must be 32 bytes; received " ∷ show_ℤ (pos (length channel_id)) ∷ []),
    )
    ∷ [])

pub assert_u64 : ℤ → String → Option String
assert_u64 value field = first_error (
    (
      ltb_ℤ value (pos 0) || ltb_ℤ max_u64 value,
      template (field ∷ " must fit in an unsigned 64-bit integer" ∷ []),
    )
    ∷ [])

assert_i64 : ℤ → String → Option String
assert_i64 value field = first_error (
    (
      ltb_ℤ value min_i64 || ltb_ℤ max_i64 value,
      template (field ∷ " must fit in a signed 64-bit integer" ∷ []),
    )
    ∷ [])

-- The 64 bits that `setBigUint64` and `setBigInt64` write: the value modulo 2^64.
abbrev pub to_bits64 : ℤ → ℕ
to_bits64 (pos n) = n % 18446744073709551616
to_bits64 (negsuc n) = 18446744073709551615 - n % 18446744073709551616

-- The value that `getBigInt64` reads from 64 bits.
abbrev pub from_bits64 : ℕ → ℤ
from_bits64 u = if ltb u 9223372036854775808 then pos u else negsuc (18446744073709551615 - u)

abbrev voucher_magic : List ℕ
voucher_magic = 86 ∷ 1 ∷ []

pub encode_voucher : Voucher → Result (List ℕ)
unfolding assert_channel_id assert_u64 assert_i64
encode_voucher voucher = do
  assert (assert_channel_id voucher.channel_id)
  assert (assert_u64 voucher.cumulative_amount "cumulativeAmount")
  assert (assert_i64 voucher.expires_at "expiresAt")
  ok (
      voucher_magic
      ++ (voucher.channel_id
          ++ (le_bytes 8 (to_bits64 voucher.cumulative_amount)
              ++ le_bytes 8 (to_bits64 voucher.expires_at))))

-- `encoded[0] !== VOUCHER_MAGIC[0] || encoded[1] !== VOUCHER_MAGIC[1]`
abbrev wrong_magic : List ℕ → Bool
wrong_magic (a ∷ b ∷ _) = not (eqb a 86) || not (eqb b 1)
wrong_magic _ = Bool.true

-- The fields of 50 bytes.
abbrev fields : List ℕ → Voucher
fields encoded = record {
  channel_id = take 32 (drop 2 encoded);
  cumulative_amount = pos (of_le (take 8 (drop 34 encoded)));
  expires_at = from_bits64 (of_le (take 8 (drop 42 encoded)));
}

pub decode_voucher : List ℕ → Result Voucher
decode_voucher encoded = do
  assert (
      first_error (
        (
          not (eqb (length encoded) voucher_length),
          template ("voucher must be 50 bytes; received " ∷ show_ℤ (pos (length encoded)) ∷ []),
        )
        ∷ (wrong_magic encoded, "unsupported voucher magic/version")
        ∷ []))
  ok (fields encoded)

pub is_voucher_expired : Voucher → ℤ → Bool
is_voucher_expired voucher now =
    not (eqb_ℤ voucher.expires_at (pos 0)) && ltb_ℤ voucher.expires_at now

pub assert_monotonic_voucher_amount : (previous next ceiling : ℤ) → Result (Unit {0})
unfolding assert_u64
assert_monotonic_voucher_amount previous next ceiling = do
  assert (assert_u64 previous "previousAmount")
  assert (assert_u64 next "nextAmount")
  assert (assert_u64 ceiling "depositCeiling")
  assert (
      first_error (
        (leb_ℤ next previous, "voucher cumulative amount must increase monotonically")
        ∷ (ltb_ℤ ceiling next, "voucher cumulative amount exceeds channel deposit ceiling")
        ∷ []))
