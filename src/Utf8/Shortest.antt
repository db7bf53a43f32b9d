-- ===== src/Utf8/Shortest.antt =====
-- Decoding accepts nothing but the bytes of the encoder.
use fakelua.Base.{ℕ, ◌+◌, ◌/◌, ◌%◌, ◌^◌, ◌≤◌, ◌<◌, ◌≡◌, arith, bit_and}
use fakelua.Base.{true, false, ◌&&◌, ◌||◌, List, [], ◌∷◌, ◌++◌, ltb, leb, ◌==◌}
use fakelua.Base.{some, refl, ap, ap₂, ◌∙◌, sym, Bool-cases, inl, inr}
use fakelua.Base.Bits.{and_mask}
use fakelua.Utf8.{is_code_point, utf8_bytes}
use fakelua.Utf8.{decode_utf8}
use fakelua.Utf8.RoundTrip.{lead, continuation}
use fakelua.Utf8.Found.{two_found, three_found, four_found}

utf8_one : (cp : ℕ) → cp ≤ 0x7f → utf8_bytes cp ≡ cp ∷ []
unfolding utf8_bytes
utf8_one cp h = let one : leb cp 0x7f ≡ true = ground arith in rw one refl

utf8_two :
    (cp : ℕ) → 0x80 ≤ cp → cp < 0x800 → utf8_bytes cp ≡ (0xc0 + cp / 64) ∷ (0x80 + cp % 64) ∷ []
unfolding utf8_bytes
utf8_two cp lo hi =
    let one : leb cp 0x7f ≡ false = ground arith in
    let two : leb cp 0x7ff ≡ true = ground arith in
    rw (one, two, lead 5 (cp / 2 ^ 6) 6 (omega arith), continuation cp) refl

utf8_three :
    (cp : ℕ)
    → 0x800 ≤ cp
    → cp < 0x10000
    → utf8_bytes cp ≡ (0xe0 + cp / 4096) ∷ (0x80 + cp / 64 % 64) ∷ (0x80 + cp % 64) ∷ []
unfolding utf8_bytes
utf8_three cp lo hi =
    let one : leb cp 0x7f ≡ false = ground arith in
    let two : leb cp 0x7ff ≡ false = ground arith in
    let three : leb cp 0xffff ≡ true = ground arith in
    rw
      (
        one,
        two,
        three,
        lead 4 (cp / 2 ^ 12) 14 (omega arith),
        continuation (cp / 2 ^ 6),
        continuation cp,
      )
      refl

utf8_four :
    (cp : ℕ)
    → 0x10000 ≤ cp
    → cp ≤ 0x10ffff
    → utf8_bytes cp
      ≡ (0xf0 + cp / 262144)
        ∷ (0x80 + cp / 4096 % 64)
        ∷ (0x80 + cp / 64 % 64)
        ∷ (0x80 + cp % 64)
        ∷ []
unfolding utf8_bytes
utf8_four cp lo hi =
    let one : leb cp 0x7f ≡ false = ground arith in
    let two : leb cp 0x7ff ≡ false = ground arith in
    let three : leb cp 0xffff ≡ false = ground arith in
    rw
      (
        one,
        two,
        three,
        lead 3 (cp / 2 ^ 18) 30 (omega arith),
        continuation (cp / 2 ^ 12),
        continuation (cp / 2 ^ 6),
        continuation cp,
      )
      refl

is_plain :
    (cp : ℕ) → cp ≤ 0x10ffff → (leb 0xd800 cp && leb cp 0xdfff) ≡ false → is_code_point cp ≡ true
unfolding is_code_point
is_plain cp hi plain =
    let low : (leb (2 ^ 63) cp || ltb 0x10ffff cp) ≡ false = ground arith in rw (low, plain) refl

-- Bytes from which decode_utf8 takes a code point begin with those that encode_utf8 appends for it,
-- and what it leaves is what follows them: no longer form is accepted, and no surrogate.
pub utf8_bytes-decode_utf8 :
    (src : List ℕ) (cp : ℕ) (rest : List ℕ)
    → decode_utf8 src ≡ (some cp, rest)
    → (is_code_point cp ≡ true) × (src ≡ utf8_bytes cp ++ rest)
unfolding decode_utf8
utf8_bytes-decode_utf8 [] cp rest e = absurd (ground (arith, e))
utf8_bytes-decode_utf8 (c ∷ src) cp rest e = elim (Bool-cases (leb c 0x7f)) [
  | inl one ↦
      let value : c ≡ cp = ground (arith, e, one) in
      let after : src ≡ rest = ground (arith, e, one) in
      let short : cp ≤ 0x7f = ground (arith, one, value) in
      (
        is_plain cp (omega (arith, short)) (ground (arith, short)),
        ap₂ (λ x xs. x ∷ xs) value after ∙ ap (λ xs. xs ++ rest) (sym (utf8_one cp short)),
      )
  | inr more ↦ elim (Bool-cases (c / 2 ^ 5 == 0x06)) [
    | inl two ↦
        let (tail, a, lo) = two_found (bit_and c 0x1f) src cp rest (rw (more, two) at e) in
        let low : bit_and c 0x1f ≡ c % 32 = and_mask 5 c in
        (
          is_plain cp (omega (arith, a, low)) (ground (arith, a, low)),
          ap₂ (λ x xs. x ∷ xs) (ground (arith, two, a, low)) tail
              ∙ ap (λ xs. xs ++ rest) (sym (utf8_two cp lo (omega (arith, a, low)))),
        )
    | inr more₂ ↦ elim (Bool-cases (c / 2 ^ 4 == 0x0e)) [
      | inl three ↦
          let (tail, a, lo, plain) =
            three_found (bit_and c 0x0f) src cp rest (rw (more, more₂, three) at e) in
          let low : bit_and c 0x0f ≡ c % 16 = and_mask 4 c in
          (
            is_plain cp (omega (arith, a, low)) plain,
            ap₂ (λ x xs. x ∷ xs) (ground (arith, three, a, low)) tail
                ∙ ap (λ xs. xs ++ rest) (sym (utf8_three cp lo (omega (arith, a, low)))),
          )
      | inr more₃ ↦ elim (Bool-cases (c / 2 ^ 3 == 0x1e)) [
        | inl four ↦
            let (tail, a, lo, hi) =
              four_found (bit_and c 0x07) src cp rest (rw (more, more₂, more₃, four) at e) in
            let low : bit_and c 0x07 ≡ c % 8 = and_mask 3 c in
            (
              is_plain cp hi (ground (arith, lo)),
              ap₂ (λ x xs. x ∷ xs) (ground (arith, four, a, low)) tail
                  ∙ ap (λ xs. xs ++ rest) (sym (utf8_four cp lo hi)),
            )
        | inr invalid ↦ absurd (ground (arith, e, more, more₂, more₃, invalid))
      ]
    ]
  ]
]
