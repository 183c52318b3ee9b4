-- ===== src/Solana/Voucher/Codec.antt =====
-- The encoder and the decoder are inverse to each other.
use canalis.Base.{
  ℕ, ◌<◌, String, none, List, ◌++◌, ◌≡◌, ap, subst, ◌∙◌, arith, length, length-append, ◌↔◌,
}
use canalis.Base.Int.{ℤ, pos, negsuc, ◌≤ℤ◌}
use canalis.Base.Bytes.{
  take, drop, take_first, take_all, drop_first, le_bytes, of_le, length-le_bytes, of_le-le_bytes,
}
use canalis.Base.Result.{ok, assert-eq-ok, ok-injective}
use canalis.Solana.Voucher.{
  Voucher, assert_channel_id, assert_u64, assert_i64, to_bits64, from_bits64, encode_voucher,
  decode_voucher, fields, max_u64, min_i64, max_i64, voucher_magic,
}

-- What fits the wire format.
pub record Fits (v : Voucher) : Type 0 where
  pub channel : length v.channel_id ≡ 32
  pub amount_low : pos 0 ≤ℤ v.cumulative_amount
  pub amount_high : v.cumulative_amount ≤ℤ max_u64
  pub expiry_low : min_i64 ≤ℤ v.expires_at
  pub expiry_high : v.expires_at ≤ℤ max_i64

-- The 50 bytes of a voucher.
abbrev payload : Voucher → List ℕ
payload v =
    voucher_magic
    ++ (v.channel_id
        ++ (le_bytes 8 (to_bits64 v.cumulative_amount) ++ le_bytes 8 (to_bits64 v.expires_at)))

channel_iff : (c : List ℕ) → (assert_channel_id c ≡ none) ↔ (length c ≡ 32)
unfolding assert_channel_id
channel_iff c = ground arith

pub u64_iff :
    (n : ℤ) (field : String) → (assert_u64 n field ≡ none) ↔ ((pos 0 ≤ℤ n) × (n ≤ℤ max_u64))
unfolding assert_u64
u64_iff n field = ground arith

i64_iff : (n : ℤ) (field : String) → (assert_i64 n field ≡ none) ↔ ((min_i64 ≤ℤ n) × (n ≤ℤ max_i64))
unfolding assert_i64
i64_iff n field = ground arith

-- The encoder succeeds on exactly the vouchers that fit, and writes their payload.
encode_voucher_iff :
    (v : Voucher) (bs : List ℕ) → (encode_voucher v ≡ ok bs) ↔ (Fits v × (payload v ≡ bs))
unfolding encode_voucher
encode_voucher_iff v bs = (there, back)
  where
    there : encode_voucher v ≡ ok bs → Fits v × (payload v ≡ bs)
    there e =
        let (c, e1) = assert-eq-ok (assert_channel_id v.channel_id) _ e in
        let (a, e2) = assert-eq-ok (assert_u64 v.cumulative_amount "cumulativeAmount") _ e1 in
        let (x, e3) = assert-eq-ok (assert_i64 v.expires_at "expiresAt") _ e2 in
        let (a0, a1) = (u64_iff v.cumulative_amount "cumulativeAmount").0 a in
        let (x0, x1) = (i64_iff v.expires_at "expiresAt").0 x in
        (
          record {
            channel = (channel_iff v.channel_id).0 c;
            amount_low = a0;
            amount_high = a1;
            expiry_low = x0;
            expiry_high = x1;
          },
          ok-injective e3,
        )

    back : Fits v × (payload v ≡ bs) → encode_voucher v ≡ ok bs
    back (fits, e) = rw ((channel_iff v.channel_id).1 fits.channel) (
        rw ((u64_iff v.cumulative_amount "cumulativeAmount").1 (fits.amount_low, fits.amount_high))
          (rw ((i64_iff v.expires_at "expiresAt").1 (fits.expiry_low, fits.expiry_high)) (ap ok e)))

to_bits64-bound : (n : ℤ) → to_bits64 n < 18446744073709551616
to_bits64-bound (pos n) = omega arith
to_bits64-bound (negsuc n) = omega arith

amount_bits : (n : ℤ) → pos 0 ≤ℤ n → n ≤ℤ max_u64 → pos (to_bits64 n) ≡ n
amount_bits (pos n) h k = ap pos (omega arith)
amount_bits (negsuc n) h k = absurd (omega arith)

expiry_bits : (n : ℤ) → min_i64 ≤ℤ n → n ≤ℤ max_i64 → from_bits64 (to_bits64 n) ≡ n
expiry_bits n h k = ground arith

-- The eight bytes of 64 bits, read back.
read_bits : (n : ℤ) → of_le (le_bytes 8 (to_bits64 n)) ≡ to_bits64 n
read_bits n = of_le-le_bytes 8 (to_bits64 n) (to_bits64-bound n)

-- The slices of 50 bytes that start with the magic.
module _ (c a e : List ℕ) (hc : length c ≡ 32) (ha : length a ≡ 8) (he : length e ≡ 8) where
  channel_slice : take 32 (drop 2 (voucher_magic ++ (c ++ (a ++ e)))) ≡ c
  channel_slice = take_first 32 c (a ++ e) hc

  amount_slice : take 8 (drop 34 (voucher_magic ++ (c ++ (a ++ e)))) ≡ a
  amount_slice = ap (λ xs. take 8 xs) (drop_first 32 0 c (a ++ e) hc) ∙ take_first 8 a e ha

  expiry_slice : take 8 (drop 42 (voucher_magic ++ (c ++ (a ++ e)))) ≡ e
  expiry_slice =
      ap (λ xs. take 8 xs) (drop_first 32 8 c (a ++ e) hc ∙ drop_first 8 0 a e ha) ∙ take_all 8 e he

  payload_length : length (voucher_magic ++ (c ++ (a ++ e))) ≡ 50
  payload_length = omega (arith, length-append c (a ++ e), length-append a e)

-- The fields of a payload.
fields-payload :
    (c : List ℕ) (n x : ℤ)
    → Fits record { channel_id = c; cumulative_amount = n; expires_at = x }
    → fields (payload record { channel_id = c; cumulative_amount = n; expires_at = x })
      ≡ record { channel_id = c; cumulative_amount = n; expires_at = x }
fields-payload c n x fits =
    Voucher-eq (channel_slice c a e fits.channel length_a length_e)
      (ap (λ bs. pos (of_le bs)) (amount_slice c a e fits.channel length_a length_e)
        ∙ ap pos (read_bits n)
        ∙ amount_bits n fits.amount_low fits.amount_high)
      (ap (λ bs. from_bits64 (of_le bs)) (expiry_slice c a e fits.channel length_a length_e)
        ∙ ap (λ u. from_bits64 u) (read_bits x)
        ∙ expiry_bits x fits.expiry_low fits.expiry_high)
  where
    a : List ℕ
    a = le_bytes 8 (to_bits64 n)

    e : List ℕ
    e = le_bytes 8 (to_bits64 x)

    length_a : length a ≡ 8
    length_a = length-le_bytes 8 (to_bits64 n)

    length_e : length e ≡ 8
    length_e = length-le_bytes 8 (to_bits64 x)

    Voucher-eq :
        {c c' : List ℕ} {n n' x x' : ℤ}
        → c ≡ c'
        → n ≡ n'
        → x ≡ x'
        → ◌≡◌ {A = Voucher}
            record { channel_id = c; cumulative_amount = n; expires_at = x }
            record { channel_id = c'; cumulative_amount = n'; expires_at = x' }
    Voucher-eq h k l = cc

-- Any bytes of the right length and magic are decoded to their fields.
decode_fields :
    (rest : List ℕ)
    → length (voucher_magic ++ rest) ≡ 50
    → decode_voucher (voucher_magic ++ rest) ≡ ok (fields (voucher_magic ++ rest))
unfolding decode_voucher
decode_fields rest h = ground (arith, h)

-- A voucher that is encoded is decoded to itself, and its encoding has 50 bytes.
pub decode_voucher-encode_voucher :
    (v : Voucher) (bs : List ℕ)
    → encode_voucher v ≡ ok bs
    → (decode_voucher bs ≡ ok v) × (length bs ≡ 50)
decode_voucher-encode_voucher v bs e =
    let (fits, written) = (encode_voucher_iff v bs).0 e in
    let fifty =
      payload_length v.channel_id (le_bytes 8 (to_bits64 v.cumulative_amount))
        (le_bytes 8 (to_bits64 v.expires_at)) fits.channel
        (length-le_bytes 8 (to_bits64 v.cumulative_amount))
        (length-le_bytes 8 (to_bits64 v.expires_at)) in
    subst (λ cs. (decode_voucher cs ≡ ok v) × (length cs ≡ 50)) written
      (
        decode_fields _ fifty
            ∙ ap ok (fields-payload v.channel_id v.cumulative_amount v.expires_at fits),
        fifty,
      )
