-- ===== src/Interp/Word/Floor.antt =====
-- Floor division and what it leaves, on patterns, by the signs of the two words.
use fakelua.Base.{ℕ, ◌+◌, ◌-◌, ◌*◌, ◌/◌, ◌%◌, ◌^◌, ◌≤◌, ◌<◌, ◌≡◌, ◌≢◌, arith, true, false}
use fakelua.Base.{◌==◌, if◌then◌else◌, ap, Bool-cases, ==_iff, inl, inr}
use fakelua.Base.Int.{ℤ, pos, ◌+ℤ◌, ◌*ℤ◌, ◌≤ℤ◌}
use fakelua.Interp.Word.{signed, is_neg, neg_word}
use fakelua.Interp.Word.{floor_div_quotient, sub_word, mul_word}
use fakelua.Interp.Word.Sign.{is_neg-xor}
use native.Mathlib.Nat.{div-add-mod, div-le_self}

-- What is left of `a` on patterns, where the product may wrap.
unfoldable pub remainder : ℕ → ℕ → ℕ
unfolding floor_div_quotient mul_word sub_word
remainder a b = if b == 2 ^ 64 - 1 then 0 else sub_word a (mul_word b (floor_div_quotient a b))

-- `x * -y` is `-(x * y)`, and `-x * y` too.
mul-neg : (x y : ℕ) → y ≤ 2 ^ 64 → x * (2 ^ 64 - y) % 2 ^ 64 ≡ (2 ^ 64 - x * y % 2 ^ 64) % 2 ^ 64
mul-neg x y h =
    let whole : 2 ^ 64 - y + y ≡ 2 ^ 64 = omega arith in omega (arith, ap (λ (t : ℕ). x * t) whole)

neg-mul : (x y : ℕ) → x ≤ 2 ^ 64 → (2 ^ 64 - x) * y % 2 ^ 64 ≡ (2 ^ 64 - x * y % 2 ^ 64) % 2 ^ 64
neg-mul x y h =
    let whole : 2 ^ 64 - x + x ≡ 2 ^ 64 = omega arith in omega (arith, ap (λ (t : ℕ). t * y) whole)

module _ (a b : ℕ) (ha : a < 2 ^ 64) (hb : b < 2 ^ 64) (proper : b ≢ 2 ^ 64 - 1) where
  both_nonneg :
      is_neg a ≡ false
      → is_neg b ≡ false
      → (floor_div_quotient a b ≡ a / b) × (remainder a b ≡ a % b)
  unfolding remainder
  both_nonneg pa pb =
      (ground (arith, is_neg-xor a b ha hb), ground (arith, is_neg-xor a b ha hb, div-add-mod a b))

  both_neg :
      is_neg a ≡ true
      → is_neg b ≡ true
      → (floor_div_quotient a b ≡ (2 ^ 64 - a) / (2 ^ 64 - b))
        × (remainder a b ≡ neg_word ((2 ^ 64 - a) % (2 ^ 64 - b)))
  unfolding remainder
  both_neg pa pb =
      let A = 2 ^ 64 - a in
      let B = 2 ^ 64 - b in
      (
        ground (arith, is_neg-xor a b ha hb),
        ground (arith, is_neg-xor a b ha hb, div-add-mod A B, neg-mul B (A / B)),
      )

  pub neg_nonneg :
      is_neg a ≡ true
      → is_neg b ≡ false
      → b ≢ 0
      → (let q : ℕ = (2 ^ 64 - a) / b in
          let r : ℕ = (2 ^ 64 - a) % b in
          (floor_div_quotient a b ≡ neg_word (if r == 0 then q else q + 1))
          × (remainder a b ≡ (if r == 0 then 0 else b - r)))
  unfolding remainder
  neg_nonneg pa pb nonzero =
      let A = 2 ^ 64 - a in
      (
        ground (arith, is_neg-xor a b ha hb, div-le_self A b),
        ground (
          arith,
          is_neg-xor a b ha hb,
          div-add-mod A b,
          div-le_self A b,
          mul-neg b (A / b),
          mul-neg b (A / b + 1),
        ),
      )

  nonneg_neg :
      is_neg a ≡ false
      → is_neg b ≡ true
      → (let q : ℕ = a / (2 ^ 64 - b) in
          let r : ℕ = a % (2 ^ 64 - b) in
          (floor_div_quotient a b ≡ neg_word (if r == 0 then q else q + 1))
          × (remainder a b ≡ neg_word (if r == 0 then 0 else 2 ^ 64 - b - r)))
  unfolding remainder
  nonneg_neg pa pb =
      let B = 2 ^ 64 - b in
      (
        ground (arith, is_neg-xor a b ha hb, div-le_self a B),
        ground (
          arith,
          is_neg-xor a b ha hb,
          div-add-mod a B,
          div-le_self a B,
          neg-mul B (2 ^ 64 - a / B),
          neg-mul B (2 ^ 64 - (a / B + 1)),
          mul-neg B (a / B),
          mul-neg B (a / B + 1),
        ),
      )

-- `q` and `r` divide `a` by `b` with rounding down: the remainder has the sign of the divisor and is
-- smaller.
abbrev pub FloorDivides : ℤ → ℤ → ℤ → ℤ → Type 0
FloorDivides a b q r =
    (a ≡ b *ℤ q +ℤ r)
    × (pos 0 ≤ℤ b → (pos 0 ≤ℤ r) × (r +ℤ pos 1 ≤ℤ b))
    × (b +ℤ pos 1 ≤ℤ pos 0 → (r ≤ℤ pos 0) × (b +ℤ pos 1 ≤ℤ r))

module _ (a b : ℕ) (ha : a < 2 ^ 64) (hb : b < 2 ^ 64) (nonzero : b ≢ 0) where
  divides_both_nonneg :
      is_neg a ≡ false
      → is_neg b ≡ false
      → FloorDivides (signed a) (signed b) (signed (a / b)) (signed (a % b))
  unfolding ◌+ℤ◌ ◌*ℤ◌
  divides_both_nonneg pa pb =
      (ground (arith, div-add-mod a b, div-le_self a b), ground arith, ground arith)

  divides_both_neg :
      is_neg a ≡ true
      → is_neg b ≡ true
      → b ≢ 2 ^ 64 - 1
      → FloorDivides
          (signed a)
          (signed b)
          (signed ((2 ^ 64 - a) / (2 ^ 64 - b)))
          (signed (neg_word ((2 ^ 64 - a) % (2 ^ 64 - b))))
  unfolding ◌+ℤ◌ ◌*ℤ◌ neg_word
  divides_both_neg pa pb proper =
      let A = 2 ^ 64 - a in
      let B = 2 ^ 64 - b in
      let smaller : 2 * (A / B) ≤ A = grind (arith, div-add-mod A B) in
      (ground (arith, div-add-mod A B, smaller), ground arith, ground arith)

  -- With unlike signs the quotient's magnitude `u` is rounded up, and the remainder makes it good.
  divides_neg_nonneg :
      (u m : ℕ)
      → is_neg a ≡ true
      → is_neg b ≡ false
      → b * u ≡ 2 ^ 64 - a + m
      → m < b
      → u ≤ 2 ^ 63
      → FloorDivides (signed a) (signed b) (signed (neg_word u)) (signed m)
  unfolding ◌+ℤ◌ ◌*ℤ◌ neg_word
  divides_neg_nonneg u m pa pb e hm hu = (ground arith, ground arith, ground arith)

  divides_nonneg_neg :
      (u m : ℕ)
      → is_neg a ≡ false
      → is_neg b ≡ true
      → (2 ^ 64 - b) * u ≡ a + m
      → m < 2 ^ 64 - b
      → u ≤ 2 ^ 63
      → FloorDivides (signed a) (signed b) (signed (neg_word u)) (signed (neg_word m))
  unfolding ◌+ℤ◌ ◌*ℤ◌ neg_word
  divides_nonneg_neg u m pa pb e hm hu = (ground arith, ground arith, ground arith)

  divides_minus_one :
      b ≡ 2 ^ 64 - 1
      → a ≢ 2 ^ 63
      → FloorDivides (signed a) (signed b) (signed (neg_word a)) (signed 0)
  unfolding ◌+ℤ◌ ◌*ℤ◌ neg_word
  divides_minus_one e h = (ground arith, ground arith, ground arith)

  abbrev Divided : Type 0
  Divided =
      FloorDivides (signed a) (signed b) (signed (floor_div_quotient a b)) (signed (remainder a b))

  by_minus_one : (a ≡ 2 ^ 63 → b ≢ 2 ^ 64 - 1) → b ≡ 2 ^ 64 - 1 → Divided
  by_minus_one fits e =
      let q : floor_div_quotient a b ≡ neg_word a = unfold floor_div_quotient in ground arith in
      let r : remainder a b ≡ 0 = unfold remainder in ground arith in
      rw (q, r) (divides_minus_one e (λ h. fits h e))

  by_neg_nonneg : b ≢ 2 ^ 64 - 1 → is_neg a ≡ true → is_neg b ≡ false → Divided
  by_neg_nonneg proper na pb =
      let A = 2 ^ 64 - a in
      let (q, r) = neg_nonneg a b ha hb proper na pb nonzero in
      elim (Bool-cases (A % b == 0)) [
        | inl exact ↦
            rw (q, r, exact)
              (divides_neg_nonneg (A / b) 0 na pb (ground (arith, div-add-mod A b)) (omega arith)
                (ground (arith, div-le_self A b)))
        | inr rest ↦
            let more : 2 ≤ b = ground arith in
            let half : 2 * (A / b) ≤ A = grind (arith, div-add-mod A b) in
            rw (q, r, rest)
              (divides_neg_nonneg (A / b + 1) (b - A % b) na pb (ground (arith, div-add-mod A b))
                (ground arith) (ground (arith, half)))
      ]

  by_nonneg_neg : b ≢ 2 ^ 64 - 1 → is_neg a ≡ false → is_neg b ≡ true → Divided
  by_nonneg_neg proper pa nb =
      let B = 2 ^ 64 - b in
      let (q, r) = nonneg_neg a b ha hb proper pa nb in
      elim (Bool-cases (a % B == 0)) [
        | inl exact ↦
            rw (q, r, exact)
              (divides_nonneg_neg (a / B) 0 pa nb (ground (arith, div-add-mod a B)) (ground arith)
                (ground (arith, div-le_self a B)))
        | inr rest ↦
            rw (q, r, rest)
              (divides_nonneg_neg (a / B + 1) (B - a % B) pa nb (ground (arith, div-add-mod a B))
                (ground arith) (ground (arith, div-le_self a B)))
      ]

-- Also where the product of `BinMod` wraps.
pub floor_div_quotient-remainder :
    (a b : ℕ)
    → a < 2 ^ 64
    → b < 2 ^ 64
    → b ≢ 0
    → (a ≡ 2 ^ 63 → b ≢ 2 ^ 64 - 1)
    → FloorDivides (signed a) (signed b) (signed (floor_div_quotient a b)) (signed (remainder a b))
floor_div_quotient-remainder a b ha hb nonzero fits = elim (Bool-cases (b == 2 ^ 64 - 1)) [
  | inl minus_one ↦ by_minus_one a b ha hb nonzero fits ((==_iff b (2 ^ 64 - 1)).0 minus_one)
  | inr other ↦
      let proper : b ≢ 2 ^ 64 - 1 = ground arith in
      elim (Bool-cases (is_neg a)) [
        | inl na ↦ elim (Bool-cases (is_neg b)) [
          | inl nb ↦
              let (q, r) = both_neg a b ha hb proper na nb in
              rw (q, r) (divides_both_neg a b ha hb nonzero na nb proper)
          | inr pb ↦ by_neg_nonneg a b ha hb nonzero proper na pb
        ]
        | inr pa ↦ elim (Bool-cases (is_neg b)) [
          | inl nb ↦ by_nonneg_neg a b ha hb nonzero proper pa nb
          | inr pb ↦
              let (q, r) = both_nonneg a b ha hb proper pa pb in
              rw (q, r) (divides_both_nonneg a b ha hb nonzero pa pb)
        ]
      ]
]
