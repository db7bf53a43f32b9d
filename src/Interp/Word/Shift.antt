-- ===== src/Interp/Word/Shift.antt =====
-- The two shifts are one, by a count and by its opposite.
use fakelua.Base.{ℕ, ◌-◌, ◌^◌, ◌<◌, ◌≡◌, arith, ◌==◌}
use fakelua.Base.{Bool, not, ◌||◌, Bool-cases, ==_iff, inl, inr, refl}
use fakelua.Interp.Word.{neg_word, shift_left, shift_right, signed_le, is_neg}

abbrev too_far : ℕ → Bool
too_far b = signed_le 64 b || signed_le b (2 ^ 64 - 64)

opposite_too_far : (b : ℕ) → b < 2 ^ 64 → too_far (neg_word b) ≡ too_far b
unfolding neg_word
opposite_too_far b h = ground arith

by_opposite :
    (a b c : ℕ)
    → too_far c ≡ too_far b
    → is_neg c ≡ not (is_neg b)
    → 2 ^ 64 - c ≡ b
    → 2 ^ 64 - b ≡ c
    → shift_left a c ≡ shift_right a b
unfolding shift_left shift_right
by_opposite a b c far sign whole back = elim (Bool-cases (is_neg b)) [
  | inl down ↦ rw (far, sign, down, back) refl
  | inr up ↦ rw (far, sign, up, whole) refl
]

at_zero : (a : ℕ) → a < 2 ^ 64 → shift_left a (neg_word 0) ≡ shift_right a 0
unfolding shift_left shift_right neg_word
at_zero a h = omega arith

at_least : (a : ℕ) → shift_left a (neg_word (2 ^ 63)) ≡ shift_right a (2 ^ 63)
unfolding shift_left shift_right neg_word
at_least a = refl

-- Shifting a word left by the opposite of a count is shifting it right by the count.
pub shift_left-neg_word :
    (a b : ℕ) → a < 2 ^ 64 → b < 2 ^ 64 → shift_left a (neg_word b) ≡ shift_right a b
shift_left-neg_word a b ha h = elim (Bool-cases (b == 0)) [
  | inl zero ↦ rw ((==_iff b 0).0 zero) (at_zero a ha)
  | inr nonzero ↦ elim (Bool-cases (b == 2 ^ 63)) [
    | inl least ↦ rw ((==_iff b (2 ^ 63)).0 least) (at_least a)
    | inr other ↦
        let opposite : neg_word b ≡ 2 ^ 64 - b = unfold neg_word in ground arith in
        by_opposite a b (neg_word b) (opposite_too_far b h) (ground arith) (ground arith)
          (ground arith)
  ]
]
