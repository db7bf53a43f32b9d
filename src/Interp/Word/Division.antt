-- ===== src/Interp/Word/Division.antt =====
-- The integer branch of `BinMod`, where its product does not overflow.
use fakelua.Base.{ℕ, ◌-◌, ◌^◌, ◌<◌, ◌≡◌, ◌≢◌, ap, arith, refl, sym, subst, ◌∙◌, Option, none, some}
use fakelua.Base.{◌==◌, Bool-cases, inl, inr, ltb, true, false, if◌then◌else◌}
use fakelua.Base.Int.{ℤ, pos, negsuc, ◌+ℤ◌, ◌-ℤ◌, ◌*ℤ◌, ◌≤ℤ◌, +ℤ_comm, +ℤ_cancel}
use fakelua.Interp.Word.{
  signed, neg_word, floor_div_quotient, mod_word, of_signed, signed_mul, signed_sub, sub_word,
}
use fakelua.Interp.Word.Floor.{FloorDivides, remainder, floor_div_quotient-remainder}

-- An `int64_t` can hold the integer.
abbrev pub IsInt64 : ℤ → Type 0
IsInt64 z = (negsuc (2 ^ 63 - 1) ≤ℤ z) × (z ≤ℤ pos (2 ^ 63 - 1))

-- A result that is there, and that `P` holds of.
abbrev pub Defined : (ℕ → Type 0) → Option ℕ → Type 0
Defined P none = ⊥
Defined P (some w) = P w

of_signed-IsInt64 : (z : ℤ) → IsInt64 z → Defined (λ w. signed w ≡ z) (of_signed z)
unfolding of_signed
of_signed-IsInt64 (pos n) (low, high) =
    let small : ltb n (2 ^ 63) ≡ true = ground arith in rw small (ground arith)
of_signed-IsInt64 (negsuc n) (low, high) =
    let small : ltb n (2 ^ 63) ≡ true = ground arith in rw small (ground arith)

of_signed-signed : (w : ℕ) → w < 2 ^ 64 → of_signed (signed w) ≡ some w
unfolding of_signed
of_signed-signed w h = ground arith

remainder-below : (a b : ℕ) → remainder a b < 2 ^ 64
unfolding remainder sub_word
remainder-below a b = ground arith

-- The difference, when the product is there.
signed_sub-product :
    (a product r : ℕ)
    → r < 2 ^ 64
    → signed a ≡ signed product +ℤ signed r
    → signed_sub a product ≡ some r
unfolding signed_sub
signed_sub-product a product r small whole =
    ap of_signed (
      ap (λ z. z -ℤ signed product) (whole ∙ +ℤ_comm (signed product) (signed r))
      ∙ +ℤ_cancel (signed r) (signed product))
    ∙ of_signed-signed r small

-- BinMod, with its quotient.
difference : ℕ → ℕ → ℕ → Option ℕ
difference a b q = elim (signed_mul b q) [ none ↦ none | some product ↦ signed_sub a product ]

difference-remainder :
    (a b q r : ℕ)
    → r < 2 ^ 64
    → IsInt64 (signed b *ℤ signed q)
    → signed a ≡ signed b *ℤ signed q +ℤ signed r
    → difference a b q ≡ some r
unfolding difference signed_mul
difference-remainder a b q r small fits whole =
    multiplied (of_signed (signed b *ℤ signed q)) (of_signed-IsInt64 _ fits)
  where
    multiplied :
        (o : Option ℕ)
        → Defined (λ w. signed w ≡ signed b *ℤ signed q) o
        → elim o [ none ↦ none | some product ↦ signed_sub a product ] ≡ some r
    multiplied none h = absurd h
    multiplied (some product) h =
        signed_sub-product a product r small (whole ∙ ap (λ z. z +ℤ signed r) (sym h))

mod_word-difference :
    (a b : ℕ) → (b == 2 ^ 64 - 1) ≡ false → mod_word a b ≡ difference a b (floor_div_quotient a b)
unfolding mod_word difference
mod_word-difference a b other =
    ap (λ minus_one. if minus_one then some 0 else difference a b (floor_div_quotient a b)) other

mod_word-minus_one : (a b : ℕ) → (b == 2 ^ 64 - 1) ≡ true → mod_word a b ≡ some 0
unfolding mod_word
mod_word-minus_one a b minus_one = rw minus_one refl

remainder-minus_one : (a b : ℕ) → (b == 2 ^ 64 - 1) ≡ true → remainder a b ≡ 0
unfolding remainder
remainder-minus_one a b minus_one = rw minus_one refl

mod_word-remainder :
    (a b : ℕ)
    → IsInt64 (signed b *ℤ signed (floor_div_quotient a b))
    → signed a ≡ signed b *ℤ signed (floor_div_quotient a b) +ℤ signed (remainder a b)
    → mod_word a b ≡ some (remainder a b)
mod_word-remainder a b fits whole = elim (Bool-cases (b == 2 ^ 64 - 1)) [
  | inl minus_one ↦
      mod_word-minus_one a b minus_one ∙ ap some (sym (remainder-minus_one a b minus_one))
  | inr other ↦
      mod_word-difference a b other
      ∙ difference-remainder a b (floor_div_quotient a b) (remainder a b) (remainder-below a b) fits
          whole
]

not_least :
    (a b : ℕ) → IsInt64 (signed b *ℤ signed (floor_div_quotient a b)) → a ≡ 2 ^ 63 → b ≢ 2 ^ 64 - 1
unfolding floor_div_quotient neg_word ◌*ℤ◌
not_least a b fits least minus_one =
    let (_, high) =
      subst (λ c. IsInt64 (signed c *ℤ signed (floor_div_quotient (2 ^ 63) c))) minus_one
        (subst (λ d. IsInt64 (signed b *ℤ signed (floor_div_quotient d b))) least fits) in
    omega (arith, high)

-- For `int64_t`s, a divisor other than 0, and when the divisor times `floor_div_quotient` is an `int64_t`:
-- `mod_word` returns a remainder, `a` is the divisor times `floor_div_quotient` plus the remainder, and
-- the remainder lies between 0 and the divisor, 0 included and the divisor not.
pub floor_div_quotient-mod_word :
    (a b : ℕ)
    → a < 2 ^ 64
    → b < 2 ^ 64
    → b ≢ 0
    → IsInt64 (signed b *ℤ signed (floor_div_quotient a b))
    → Defined
        (λ r. FloorDivides (signed a) (signed b) (signed (floor_div_quotient a b)) (signed r))
        (mod_word a b)
floor_div_quotient-mod_word a b ha hb nonzero fits =
    let divides = floor_div_quotient-remainder a b ha hb nonzero (not_least a b fits) in
    rw (mod_word-remainder a b fits divides.0) divides
