-- ===== src/Utf8/RoundTrip.antt =====
-- Decoding what was encoded.
use fakelua.Base.{ℕ, suc, ◌+◌, ◌-◌, ◌*◌, ◌/◌, ◌%◌, ◌^◌, ◌≤◌, ◌<◌, ◌≡◌, arith, bit_and, bit_or}
use fakelua.Base.{true, false, ◌&&◌, List, [], ◌∷◌, ◌++◌, ltb, leb, ◌==◌, length}
use fakelua.Base.{some, refl, ap, ◌∙◌, Bool-cases, inl, inr}
use fakelua.Base.Bits.{or_disjoint_above, and_mask}
use fakelua.Utf8.{is_code_point, utf8_bytes, encode_utf8, continue_sequence, is_bad_sequence}
use fakelua.Utf8.{decode_sequence, decode_utf8}

pub lead : (k a g : ℕ) → a < 2 ^ k → bit_or (g * 2 ^ k) a ≡ g * 2 ^ k + a
lead k a g h = or_disjoint_above k a g h

pub continuation : (x : ℕ) → bit_or 0x80 (bit_and x 0x3f) ≡ 0x80 + x % 64
continuation x = rw (and_mask 6 x) (or_disjoint_above 6 (x % 64) 2 (omega arith))

one_more :
    (count cp x : ℕ) (src : List ℕ)
    → x < 64
    → continue_sequence (suc count) cp ((0x80 + x) ∷ src)
      ≡ continue_sequence count (cp * 64 + x) src
unfolding continue_sequence
one_more count cp x src h =
    let mark : ((0x80 + x) / 2 ^ 6 == 0x02) ≡ true = ground arith in
    let low : bit_and (0x80 + x) 0x3f ≡ x = and_mask 6 (0x80 + x) ∙ omega arith in
    let joined : bit_or (cp * 2 ^ 6) x ≡ cp * 64 + x = or_disjoint_above 6 x cp h in
    rw (mark, low, joined) refl

found_sequence :
    (len cp : ℕ) (src : List ℕ) (cp' : ℕ) (rest : List ℕ)
    → len ≤ length src + 1
    → continue_sequence (len - 1) cp src ≡ some (cp', rest)
    → is_bad_sequence len cp' ≡ false
    → decode_sequence len cp src ≡ (some cp', rest)
unfolding decode_sequence
found_sequence len cp src cp' rest there e good =
    let enough : ltb (length src + 1) len ≡ false = ground arith in rw (enough, e, good) refl

last_of :
    (cp x y : ℕ) (rest : List ℕ)
    → x * 64 + y ≡ cp
    → y < 64
    → continue_sequence 1 x ((0x80 + y) ∷ rest) ≡ some (cp, rest)
unfolding continue_sequence
last_of cp x y rest e h = one_more 0 x y rest h ∙ ap (λ (n : ℕ). some (n, rest)) e

-- A sequence by its lead.
lead_two :
    (a : ℕ) (src : List ℕ) → a < 32 → decode_utf8 ((0xc0 + a) ∷ src) ≡ decode_sequence 2 a src
unfolding decode_utf8
lead_two a src h =
    let long : leb (0xc0 + a) 0x7f ≡ false = ground arith in
    let mark : ((0xc0 + a) / 2 ^ 5 == 0x06) ≡ true = ground arith in
    let low : bit_and (0xc0 + a) 0x1f ≡ a = and_mask 5 (0xc0 + a) ∙ omega arith in
    rw (long, mark) (ap (λ (n : ℕ). decode_sequence 2 n src) low)

lead_three :
    (a : ℕ) (src : List ℕ) → a < 16 → decode_utf8 ((0xe0 + a) ∷ src) ≡ decode_sequence 3 a src
unfolding decode_utf8
lead_three a src h =
    let long : leb (0xe0 + a) 0x7f ≡ false = ground arith in
    let not_two : ((0xe0 + a) / 2 ^ 5 == 0x06) ≡ false = ground arith in
    let mark : ((0xe0 + a) / 2 ^ 4 == 0x0e) ≡ true = ground arith in
    let low : bit_and (0xe0 + a) 0x0f ≡ a = and_mask 4 (0xe0 + a) ∙ omega arith in
    rw (long, not_two, mark) (ap (λ (n : ℕ). decode_sequence 3 n src) low)

lead_four :
    (a : ℕ) (src : List ℕ) → a < 8 → decode_utf8 ((0xf0 + a) ∷ src) ≡ decode_sequence 4 a src
unfolding decode_utf8
lead_four a src h =
    let long : leb (0xf0 + a) 0x7f ≡ false = ground arith in
    let not_two : ((0xf0 + a) / 2 ^ 5 == 0x06) ≡ false = ground arith in
    let not_three : ((0xf0 + a) / 2 ^ 4 == 0x0e) ≡ false = ground arith in
    let mark : ((0xf0 + a) / 2 ^ 3 == 0x1e) ≡ true = ground arith in
    let low : bit_and (0xf0 + a) 0x07 ≡ a = and_mask 3 (0xf0 + a) ∙ omega arith in
    rw (long, not_two, not_three, mark) (ap (λ (n : ℕ). decode_sequence 4 n src) low)

two_bytes :
    (cp : ℕ) (rest : List ℕ)
    → 0x7f < cp
    → cp ≤ 0x7ff
    → decode_utf8 ((0xc0 + cp / 64) ∷ (0x80 + cp % 64) ∷ rest) ≡ (some cp, rest)
unfolding is_bad_sequence
two_bytes cp rest lo hi =
    lead_two (cp / 64) ((0x80 + cp % 64) ∷ rest) (omega arith)
    ∙ found_sequence 2 (cp / 64) ((0x80 + cp % 64) ∷ rest) cp rest (omega arith)
        (last_of cp (cp / 64) (cp % 64) rest (omega arith) (omega arith)) (ground arith)

three_bytes :
    (cp : ℕ) (rest : List ℕ)
    → 0x7ff < cp
    → cp ≤ 0xffff
    → (leb 0xd800 cp && leb cp 0xdfff) ≡ false
    → decode_utf8 ((0xe0 + cp / 4096) ∷ (0x80 + cp / 64 % 64) ∷ (0x80 + cp % 64) ∷ rest)
      ≡ (some cp, rest)
unfolding is_bad_sequence
three_bytes cp rest lo hi plain =
    let tail : List ℕ = (0x80 + cp % 64) ∷ rest in
    lead_three (cp / 4096) ((0x80 + cp / 64 % 64) ∷ tail) (omega arith)
    ∙ found_sequence 3 (cp / 4096) ((0x80 + cp / 64 % 64) ∷ tail) cp rest (omega arith)
        (one_more 1 (cp / 4096) (cp / 64 % 64) tail (omega arith)
          ∙ last_of cp (cp / 4096 * 64 + cp / 64 % 64) (cp % 64) rest (omega arith) (omega arith))
        (ground arith)

four_bytes :
    (cp : ℕ) (rest : List ℕ)
    → 0xffff < cp
    → cp ≤ 0x10ffff
    → decode_utf8 (
        (0xf0 + cp / 262144)
        ∷ (0x80 + cp / 4096 % 64)
        ∷ (0x80 + cp / 64 % 64)
        ∷ (0x80 + cp % 64)
        ∷ rest)
      ≡ (some cp, rest)
unfolding is_bad_sequence
four_bytes cp rest lo hi =
    let tail : List ℕ = (0x80 + cp % 64) ∷ rest in
    let middle : List ℕ = (0x80 + cp / 64 % 64) ∷ tail in
    lead_four (cp / 262144) ((0x80 + cp / 4096 % 64) ∷ middle) (omega arith)
    ∙ found_sequence 4 (cp / 262144) ((0x80 + cp / 4096 % 64) ∷ middle) cp rest (omega arith)
        (one_more 2 (cp / 262144) (cp / 4096 % 64) middle (omega arith)
          ∙ one_more 1 (cp / 262144 * 64 + cp / 4096 % 64) (cp / 64 % 64) tail (omega arith)
          ∙ last_of cp ((cp / 262144 * 64 + cp / 4096 % 64) * 64 + cp / 64 % 64) (cp % 64) rest
              (omega arith) (omega arith))
        (ground arith)

one_byte : (cp : ℕ) (rest : List ℕ) → cp ≤ 0x7f → decode_utf8 (cp ∷ rest) ≡ (some cp, rest)
unfolding decode_utf8
one_byte cp rest h = let short : leb cp 0x7f ≡ true = ground arith in rw short refl

decode_utf8-utf8_bytes :
    (cp : ℕ) (rest : List ℕ)
    → is_code_point cp ≡ true
    → decode_utf8 (utf8_bytes cp ++ rest) ≡ (some cp, rest)
unfolding is_code_point utf8_bytes
decode_utf8-utf8_bytes cp rest valid = elim (Bool-cases (leb cp 0x7f)) [
  | inl one ↦ rw one (one_byte cp rest (ground arith))
  | inr more ↦ elim (Bool-cases (leb cp 0x7ff)) [
    | inl two ↦
        rw (more, two, lead 5 (cp / 2 ^ 6) 6 (ground arith), continuation cp)
          (two_bytes cp rest (ground arith) (ground arith))
    | inr more₂ ↦ elim (Bool-cases (leb cp 0xffff)) [
      | inl three ↦
          rw
            (
              more,
              more₂,
              three,
              lead 4 (cp / 2 ^ 12) 14 (ground arith),
              continuation (cp / 2 ^ 6),
              continuation cp,
            )
            (three_bytes cp rest (ground arith) (ground arith) (ground (arith, valid)))
      | inr more₃ ↦
          rw
            (
              more,
              more₂,
              more₃,
              lead 3 (cp / 2 ^ 18) 30 (ground (arith, valid)),
              continuation (cp / 2 ^ 12),
              continuation (cp / 2 ^ 6),
              continuation cp,
            )
            (four_bytes cp rest (ground arith) (ground (arith, valid)))
    ]
  ]
]

-- A code point that encode_utf8 accepts is decoded again from the bytes that it appended, and what
-- follows them is left.
pub decode_utf8-encode_utf8 :
    (cp : ℕ) (rest : List ℕ)
    → (encode_utf8 cp []).0 ≡ true
    → decode_utf8 ((encode_utf8 cp []).1 ++ rest) ≡ (some cp, rest)
unfolding encode_utf8
decode_utf8-encode_utf8 cp rest accepted = elim (Bool-cases (is_code_point cp)) [
  | inl valid ↦ rw valid (decode_utf8-utf8_bytes cp rest valid)
  | inr invalid ↦ absurd (ground (arith, accepted, invalid))
]
