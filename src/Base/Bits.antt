-- ===== src/Base/Bits.antt =====
-- Laws of `&`, `|` and `^` at every width, from the digit recursion that the native operations
-- stand for.
use Prim.Native.Nat.{digits, bitwise, bit_and-bitwise, bit_or-bitwise, bit_xor-bitwise, max, differ}
use Prim.Native.Nat.{ℕ, zero, suc, ◌+◌, ◌-◌, ◌*◌, ◌/◌, ◌%◌, ◌^◌, ◌≤◌, ◌<◌, min}
use Prim.Native.Nat.{bit_and, bit_or, bit_xor}
use mathlib.Core.Path.{◌≡◌, refl, sym, ap, ◌∙◌}
use native.Mathlib.Nat.{pow-suc, one-le-pow, le_refl, div-add-mod, div-div-eq-div-mul, div-one}
use native.Mathlib.Omega.{arith}

module _ (rest : ℕ → ℕ) (op : ℕ → ℕ → ℕ) where
  digits-zero : (count y : ℕ) → digits rest op count 0 y ≡ rest y
  digits-zero zero y = refl
  digits-zero (suc count) y = refl

  -- A count above the number of digits changes nothing.
  count_irrelevant :
      (x count count' y : ℕ)
      → x ≤ count
      → x ≤ count'
      → digits rest op count x y ≡ digits rest op count' x y
  count_irrelevant zero count count' y enough enough' =
      digits-zero count y ∙ sym (digits-zero count' y)
  count_irrelevant (suc x) count zero y enough enough' = absurd (omega arith)
  count_irrelevant (suc x) zero (suc count') y enough enough' = absurd (omega arith)
  count_irrelevant (suc x) (suc count) (suc count') y enough enough' =
      let halves = count_irrelevant (suc x / 2) count count' (y / 2) (omega arith) (omega arith) in
      ap (λ (t : ℕ). t * 2 + op (suc x % 2) (y % 2)) halves

  module _ (base : (y : ℕ) → rest y ≡ rest (y / 2) * 2 + op 0 (y % 2)) where
    low_digit :
        (x y : ℕ) → bitwise rest op x y ≡ bitwise rest op (x / 2) (y / 2) * 2 + op (x % 2) (y % 2)
    low_digit zero y = base y
    low_digit (suc x) y =
        let half = count_irrelevant (suc x / 2) x (suc x / 2) (y / 2) (omega arith) (le_refl _) in
        ap (λ (t : ℕ). t * 2 + op (suc x % 2) (y % 2)) half

or_step : (x y : ℕ) → bit_or x y ≡ 2 * bit_or (x / 2) (y / 2) + max (x % 2) (y % 2)
or_step x y = omega (
  arith,
  bit_or-bitwise x y,
  bit_or-bitwise (x / 2) (y / 2),
  low_digit (λ r. r) max (λ r. omega arith) x y,
)

and_step : (x y : ℕ) → bit_and x y ≡ 2 * bit_and (x / 2) (y / 2) + min (x % 2) (y % 2)
and_step x y = omega (
  arith,
  bit_and-bitwise x y,
  bit_and-bitwise (x / 2) (y / 2),
  low_digit (λ r. 0) min (λ r. omega arith) x y,
)

differ_digits : (x y : ℕ) → x < 2 → y < 2 → differ x y ≡ (x + y) % 2
differ_digits zero y hx hy = omega arith
differ_digits (suc zero) zero hx hy = refl
differ_digits (suc zero) (suc zero) hx hy = refl
differ_digits (suc zero) (suc (suc y)) hx hy = absurd (omega arith)
differ_digits (suc (suc x)) y hx hy = absurd (omega arith)

xor_step : (x y : ℕ) → bit_xor x y ≡ 2 * bit_xor (x / 2) (y / 2) + (x % 2 + y % 2) % 2
xor_step x y = omega (
  arith,
  bit_xor-bitwise x y,
  bit_xor-bitwise (x / 2) (y / 2),
  low_digit (λ r. r) differ (λ r. omega arith) x y,
  differ_digits (x % 2) (y % 2) (omega arith) (omega arith),
)

zero-or : (b : ℕ) → bit_or 0 b ≡ b
zero-or b = bit_or-bitwise 0 b

zero-and : (b : ℕ) → bit_and 0 b ≡ 0
zero-and b = bit_and-bitwise 0 b

zero-xor : (b : ℕ) → bit_xor 0 b ≡ b
zero-xor b = bit_xor-bitwise 0 b

shift_suc : (g k : ℕ) → g * 2 ^ suc k ≡ g * 2 ^ k * 2
shift_suc g k = omega (arith, ap (λ (t : ℕ). g * t) (pow-suc 2 k))

-- A value below `2 ^ k` and one shifted left by `k` share no digit, so `|` adds them.
pub or_disjoint : (k a g : ℕ) → a < 2 ^ k → bit_or a (g * 2 ^ k) ≡ a + g * 2 ^ k
or_disjoint zero a g h =
    let none_left : a ≡ 0 = omega arith in rw (none_left, zero-or) (omega arith)
or_disjoint (suc k) a g h =
    ground (arith, or_step a (g * 2 ^ suc k), shift_suc g k, pow-suc 2 k, or_disjoint k (a / 2) g)

div_double : (a p : ℕ) → a / (2 * p) ≡ a / 2 / p
div_double a p = sym (div-div-eq-div-mul a 2 p)

mod_double : (a p : ℕ) → a % (2 * p) ≡ a / 2 % p * 2 + a % 2
mod_double a p = omega (
  arith,
  div_double a p,
  div-add-mod a (2 * p),
  ap (λ (t : ℕ). 2 * t) (div-add-mod (a / 2) p),
  ap (λ (t : ℕ). 2 * p * t) (div_double a p),
)

and_no_digits : (x bound : ℕ) → x ≤ bound → bit_and x 0 ≡ 0
and_no_digits zero bound small = refl
and_no_digits (suc x) zero small = absurd (omega arith)
and_no_digits (suc x) (suc bound) small =
    let half = and_no_digits (suc x / 2) bound (omega arith) in
    omega (arith, and_step (suc x) 0, half)

double : (k : ℕ) → 2 ^ suc k ≡ 2 * 2 ^ k
double k = omega (arith, pow-suc 2 k)

-- The mask of `k` ones keeps the remainder by `2 ^ k`.
pub and_mask : (k a : ℕ) → bit_and a (2 ^ k - 1) ≡ a % 2 ^ k
and_mask zero a = rw (and_no_digits a a (omega arith)) (omega arith)
and_mask (suc k) a =
    rw (double k, mod_double, and_step) (ground (arith, one-le-pow k 2, and_mask k (a / 2)))

-- A mask of the one digit `k`.
pub and_bit : (k a : ℕ) → bit_and a (2 ^ k) ≡ a / 2 ^ k % 2 * 2 ^ k
and_bit zero a = rw (and_mask 1 a) (omega arith)
and_bit (suc k) a = rw (double k, div_double, and_step) (ground (arith, and_bit k (a / 2)))

xor_no_digits : (x bound : ℕ) → x ≤ bound → bit_xor x 0 ≡ x
xor_no_digits zero bound small = refl
xor_no_digits (suc x) zero small = absurd (omega arith)
xor_no_digits (suc x) (suc bound) small =
    let half = xor_no_digits (suc x / 2) bound (omega arith) in
    omega (arith, xor_step (suc x) 0, half)

pub bit_xor-zero : (a : ℕ) → bit_xor a 0 ≡ a
bit_xor-zero a = xor_no_digits a a (omega arith)

-- `^` with ones in all `k` digits is the complement.
pub xor_ones : (k a : ℕ) → a < 2 ^ k → bit_xor a (2 ^ k - 1) ≡ 2 ^ k - 1 - a
xor_ones zero a h = let none_left : a ≡ 0 = omega arith in rw (none_left, zero-xor) (omega arith)
xor_ones (suc k) a h =
    ground (arith, xor_step a (2 ^ suc k - 1), double k, one-le-pow k 2, xor_ones k (a / 2))

-- The digits from `k` on of `^` are those of its arguments.
pub xor_div : (k a b : ℕ) → bit_xor a b / 2 ^ k ≡ bit_xor (a / 2 ^ k) (b / 2 ^ k)
xor_div zero a b = rw (div-one, div-one, div-one)
xor_div (suc k) a b =
    let half : bit_xor a b / 2 ≡ bit_xor (a / 2) (b / 2) = omega (arith, xor_step a b) in
    rw (double k, div_double, div_double, div_double, half) (xor_div k (a / 2) (b / 2))

or_no_digits : (x bound : ℕ) → x ≤ bound → bit_or x 0 ≡ x
or_no_digits zero bound h = refl
or_no_digits (suc x) zero h = absurd (omega arith)
or_no_digits (suc x) (suc bound) h =
    omega (arith, or_step (suc x) 0, or_no_digits (suc x / 2) bound (omega arith))

-- `|` of two disjoint fields, the higher one first.
pub or_disjoint_above : (k a g : ℕ) → a < 2 ^ k → bit_or (g * 2 ^ k) a ≡ g * 2 ^ k + a
or_disjoint_above zero a g h =
    let none_left : a ≡ 0 = omega arith in
    rw none_left (omega (arith, or_no_digits (g * 2 ^ 0) (g * 2 ^ 0) (omega arith)))
or_disjoint_above (suc k) a g h =
    ground
      (arith, or_step (g * 2 ^ suc k) a, shift_suc g k, pow-suc 2 k, or_disjoint_above k (a / 2) g)
