-- ===== src/Interp/Word/Sign.antt =====
-- The sign of an exclusive or, as `FloorDivQuotient` of src/interp/vm_ops.h tests it.
use fakelua.Base.{ℕ, ◌/◌, ◌^◌, ◌<◌, ◌≡◌, arith, bit_xor}
use fakelua.Base.{◌==◌, if◌then◌else◌, zero, suc, refl, not}
use fakelua.Base.Bits.{xor_div}
use fakelua.Interp.Word.{is_neg}

small_xor : (x y : ℕ) → x < 2 → y < 2 → bit_xor x y ≡ (if x == y then 0 else 1)
small_xor zero zero hx hy = refl
small_xor zero (suc zero) hx hy = refl
small_xor (suc zero) zero hx hy = refl
small_xor (suc zero) (suc zero) hx hy = refl
small_xor (suc (suc x)) y hx hy = absurd (omega arith)
small_xor zero (suc (suc y)) hx hy = absurd (omega arith)
small_xor (suc zero) (suc (suc y)) hx hy = absurd (omega arith)

-- `(a ^ b) < 0` when the signs differ.
pub is_neg-xor :
    (a b : ℕ)
    → a < 2 ^ 64
    → b < 2 ^ 64
    → is_neg (bit_xor a b) ≡ (if is_neg a then not (is_neg b) else is_neg b)
is_neg-xor a b ha hb =
    ground (arith, xor_div 63 a b, small_xor (a / 2 ^ 63) (b / 2 ^ 63) (omega arith) (omega arith))
