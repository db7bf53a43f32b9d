-- ===== src/Wire/Zigzag.antt =====
-- `ZigzagEncode` and `ZigzagDecode` of src/native/serialize/wire_codec.cpp. An `int64_t` is its bit
-- pattern, a number below 2 ^ 64.
use fakelua.Base.{ℕ, ◌+◌, ◌-◌, ◌*◌, ◌/◌, ◌%◌, ◌^◌, ◌≤◌, ◌<◌, ◌≡◌, bit_and, bit_xor, arith}
use fakelua.Base.{ltb, ◌==◌, if◌then◌else◌, Bool-cases, inl, inr, refl, ap, ◌∙◌, ltb→lt}
use fakelua.Base.Bits.{and_mask, xor_ones, bit_xor-zero}

-- `n >> 63` copies the sign bit: all zeros or all ones.
unfoldable pub zigzag_encode : ℕ → ℕ
zigzag_encode n = bit_xor (n * 2 % 2 ^ 64) (if ltb n (2 ^ 63) then 0 else 2 ^ 64 - 1)

-- `-(u & 1)` wraps to all ones when the lowest bit is set.
pub zigzag_decode : ℕ → ℕ
zigzag_decode u = bit_xor (u / 2) ((2 ^ 64 - bit_and u 1) % 2 ^ 64)

encode_nonneg : (n : ℕ) → n < 2 ^ 63 → zigzag_encode n ≡ 2 * n
unfolding zigzag_encode
encode_nonneg n h = ground (arith, bit_xor-zero (n * 2 % 2 ^ 64))

encode_negative : (n : ℕ) → 2 ^ 63 ≤ n → n < 2 ^ 64 → zigzag_encode n ≡ 2 * (2 ^ 64 - n) - 1
unfolding zigzag_encode
encode_negative n lo hi = ground (arith, xor_ones 64 (n * 2 % 2 ^ 64))

decode_even : (u : ℕ) → zigzag_decode (2 * u) ≡ u
unfolding zigzag_decode
decode_even u = ground (arith, and_mask 1 (2 * u), bit_xor-zero (2 * u / 2))

decode_odd : (u : ℕ) → u < 2 ^ 63 → zigzag_decode (2 * u + 1) ≡ 2 ^ 64 - 1 - u
unfolding zigzag_decode
decode_odd u h = ground (arith, and_mask 1 (2 * u + 1), xor_ones 64 ((2 * u + 1) / 2))

-- Every int64 comes back from its zigzag code, and the code is a uint64.
pub zigzag_decode-zigzag_encode :
    (n : ℕ) → n < 2 ^ 64 → (zigzag_decode (zigzag_encode n) ≡ n) × (zigzag_encode n < 2 ^ 64)
zigzag_decode-zigzag_encode n h = elim (Bool-cases (ltb n (2 ^ 63))) [
  | inl small ↦
      rw (encode_nonneg n (ltb→lt n (2 ^ 63) small), decode_even)
        (refl, omega (arith, ltb→lt n (2 ^ 63) small))
  | inr large ↦
      let sign : 2 ^ 63 ≤ n = ground arith in
      let code : zigzag_encode n ≡ 2 * (2 ^ 64 - 1 - n) + 1 =
        omega (arith, encode_negative n sign h) in
      rw (code, decode_odd (2 ^ 64 - 1 - n) (omega arith)) (omega arith, omega arith)
]

-- Every uint64 is the code of one int64: no code is wasted.
pub zigzag_encode-zigzag_decode :
    (u : ℕ) → u < 2 ^ 64 → (zigzag_encode (zigzag_decode u) ≡ u) × (zigzag_decode u < 2 ^ 64)
zigzag_encode-zigzag_decode u h = elim (Bool-cases (u % 2 == 0)) [
  | inl even ↦
      let value : u ≡ 2 * (u / 2) = ground arith in
      let back : zigzag_decode u ≡ u / 2 = ap zigzag_decode value ∙ decode_even (u / 2) in
      rw (back, encode_nonneg (u / 2) (omega arith)) (omega (arith, value), omega arith)
  | inr odd ↦
      let value : u ≡ 2 * (u / 2) + 1 = ground arith in
      let back : zigzag_decode u ≡ 2 ^ 64 - 1 - u / 2 =
        ap zigzag_decode value ∙ decode_odd (u / 2) (omega arith) in
      rw (back, encode_negative (2 ^ 64 - 1 - u / 2) (omega arith) (omega arith))
        (omega (arith, value), omega arith)
]

-- The code of `n` is twice its value if `n` is not negative, and else twice its distance from 0,
-- less one.
pub zigzag_encode-magnitude :
    (n : ℕ)
    → n < 2 ^ 64
    → zigzag_encode n ≡ (if ltb n (2 ^ 63) then 2 * n else 2 * (2 ^ 64 - n) - 1)
zigzag_encode-magnitude n h = elim (Bool-cases (ltb n (2 ^ 63))) [
  | inl small ↦ rw small (encode_nonneg n (ltb→lt n (2 ^ 63) small))
  | inr large ↦ rw large (encode_negative n (ground arith) h)
]
