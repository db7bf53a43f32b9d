-- ===== src/Interp/Word/Overflow.antt =====
-- The product in the integer branch of `BinMod`.
use fakelua.Base.{ℕ, ◌+◌, ◌-◌, ◌*◌, ◌/◌, ◌%◌, ◌^◌, ◌≤◌, ◌<◌, ◌≡◌, ◌≢◌, arith}
use fakelua.Base.{refl}
use fakelua.Base.Int.{pos, negsuc, ◌+ℤ◌, ◌*ℤ◌, ◌≤ℤ◌}
use fakelua.Interp.Word.{signed, neg_word, floor_div_quotient}
use fakelua.Interp.Word.Floor.{neg_nonneg}
use native.Mathlib.Nat.{div-add-mod, mod-lt}

product_below :
    (b u : ℕ)
    → b < 2 ^ 63
    → 1 ≤ u
    → u ≤ 2 ^ 63
    → 2 ^ 63 < b * u
    → signed b *ℤ signed (neg_word u) +ℤ pos 1 ≤ℤ signed (2 ^ 63)
unfolding ◌+ℤ◌ ◌*ℤ◌ neg_word
product_below b u hb lo hi big =
    let negative : signed ((2 ^ 64 - u) % 2 ^ 64) ≡ negsuc (u - 1) = ground arith in
    let positive : signed b ≡ pos b = ground arith in rw (negative, positive) (ground arith)

-- `BinMod` multiplies in `int64_t`. For the least integer, -2 ^ 63, and a positive divisor that does
-- not divide it, the product of the divisor and the quotient lies below -2 ^ 63.
pub mod_product_overflows :
    (b : ℕ)
    → b ≢ 0
    → b < 2 ^ 63
    → 2 ^ 63 % b ≢ 0
    → signed b *ℤ signed (floor_div_quotient (2 ^ 63) b) +ℤ pos 1 ≤ℤ signed (2 ^ 63)
mod_product_overflows b nonzero small inexact =
    let (quotient, _) =
      neg_nonneg (2 ^ 63) b (omega arith) (omega arith) (omega arith) refl (ground arith) nonzero in
    let half : 2 * (2 ^ 63 / b) ≤ 2 ^ 63 = grind (arith, div-add-mod (2 ^ 63) b) in
    let rounded : floor_div_quotient (2 ^ 63) b ≡ neg_word (2 ^ 63 / b + 1) =
      ground (arith, quotient) in
    rw rounded (
      product_below b (2 ^ 63 / b + 1) small (omega arith) (omega (arith, half))
        (omega (arith, div-add-mod (2 ^ 63) b, mod-lt (2 ^ 63) {m = b} (omega arith))))
