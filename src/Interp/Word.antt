-- ===== src/Interp/Word.antt =====
-- `int64_t` arithmetic of src/interp/vm_ops.h. A word is the bit pattern of an `int64_t`, a number
-- below 2 ^ 64. Most of the source computes on `uint64_t` and casts back, which keeps the pattern.
pub mod Sign
pub mod Floor
pub mod Division
pub mod Shift
pub mod Overflow
use fakelua.Base.{ℕ, ◌+◌, ◌-◌, ◌*◌, ◌/◌, ◌%◌, ◌^◌, ◌≤◌, ◌<◌, Bool, true, false, not, ◌&&◌, ◌||◌}
use fakelua.Base.{bit_and, bit_or, bit_xor, ltb, leb, ◌==◌, if◌then◌else◌}
use fakelua.Base.Int.{ℤ, pos, negsuc, ◌*ℤ◌, ◌-ℤ◌}
use fakelua.Base.{Option, none, some}

-- The integer that a pattern stands for.
abbrev pub signed : ℕ → ℤ
signed w = if ltb w (2 ^ 63) then pos w else negsuc (2 ^ 64 - w - 1)

abbrev pub is_neg : ℕ → Bool
is_neg w = leb (2 ^ 63) w

-- The absolute value, up to 2 ^ 63.
abbrev pub magnitude : ℕ → ℕ
magnitude w = if is_neg w then 2 ^ 64 - w else w

-- `a < b` and `a <= b` on `int64_t`: the order of the patterns with the sign bit flipped.
abbrev pub bias : ℕ → ℕ
bias w = (w + 2 ^ 63) % 2 ^ 64

abbrev pub signed_lt : ℕ → ℕ → Bool
signed_lt a b = ltb (bias a) (bias b)

abbrev pub signed_le : ℕ → ℕ → Bool
signed_le a b = leb (bias a) (bias b)

unfoldable pub add_word : ℕ → ℕ → ℕ
add_word a b = (a + b) % 2 ^ 64

unfoldable pub sub_word : ℕ → ℕ → ℕ
sub_word a b = (a + 2 ^ 64 - b) % 2 ^ 64

unfoldable pub mul_word : ℕ → ℕ → ℕ
mul_word a b = a * b % 2 ^ 64

unfoldable pub neg_word : ℕ → ℕ
neg_word a = (2 ^ 64 - a) % 2 ^ 64

-- `a / b` of C++, which rounds to zero, for `b` neither 0 nor -1.
unfoldable pub trunc_div : ℕ → ℕ → ℕ
unfolding neg_word
trunc_div a b =
    let q = magnitude a / magnitude b in
    if is_neg a then (if is_neg b then q else neg_word q) else (if is_neg b then neg_word q else q)

-- `a % b` of C++, with the sign of `a`.
unfoldable pub trunc_rem : ℕ → ℕ → ℕ
unfolding neg_word
trunc_rem a b = let r = magnitude a % magnitude b in if is_neg a then neg_word r else r

unfoldable pub floor_div_quotient : ℕ → ℕ → ℕ
unfolding neg_word trunc_div trunc_rem sub_word
floor_div_quotient a b =
    if b == 2 ^ 64 - 1
    then neg_word a
    else (let q = trunc_div a b in
        if is_neg (bit_xor a b) && not (trunc_rem a b == 0) then sub_word q 1 else q)

-- The pattern of an integer that an `int64_t` can hold.
unfoldable pub of_signed : ℤ → Option ℕ
of_signed (pos n) = if ltb n (2 ^ 63) then some n else none
of_signed (negsuc n) = if ltb n (2 ^ 63) then some (2 ^ 64 - 1 - n) else none

-- `a * b` and `a - b` on `int64_t`: none where they overflow, which C++ leaves undefined.
unfoldable pub signed_mul : ℕ → ℕ → Option ℕ
unfolding of_signed
signed_mul a b = of_signed (signed a *ℤ signed b)

unfoldable pub signed_sub : ℕ → ℕ → Option ℕ
unfolding of_signed
signed_sub a b = of_signed (signed a -ℤ signed b)

-- The integer branch of `BinMod`, for `b` not 0.
unfoldable pub mod_word : ℕ → ℕ → Option ℕ
unfolding floor_div_quotient signed_mul signed_sub
mod_word a b = if b == 2 ^ 64 - 1 then some 0 else elim (signed_mul b (floor_div_quotient a b)) [
  | none ↦ none
  | some product ↦ signed_sub a product
]

-- `BinShl` and `BinShr` by `bi` bits; a negative `bi` shifts the other way.
unfoldable pub shift_left : ℕ → ℕ → ℕ
shift_left a bi =
    if signed_le 64 bi || signed_le bi (2 ^ 64 - 64)
    then 0
    else (if is_neg bi then a / 2 ^ (2 ^ 64 - bi) else a * 2 ^ bi % 2 ^ 64)

unfoldable pub shift_right : ℕ → ℕ → ℕ
shift_right a bi =
    if signed_le 64 bi || signed_le bi (2 ^ 64 - 64)
    then 0
    else (if is_neg bi then a * 2 ^ (2 ^ 64 - bi) % 2 ^ 64 else a / 2 ^ bi)
