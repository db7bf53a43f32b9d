-- ===== src/Varint/RoundTrip.antt =====
-- `read_varint` after `write_varint`.
use fakelua.Base.{ℕ, zero, suc, ◌+◌, ◌*◌, ◌/◌, ◌%◌, ◌^◌, ◌≤◌, ◌<◌, ◌≡◌, bit_and, arith}
use fakelua.Base.{List, [], ◌∷◌, ◌++◌, ltb, ap, Bool-cases, ltb→lt, inl, inr, refl, ◌∙◌}
use fakelua.Base.Result.{ok}
use fakelua.Base.Bits.{and_mask, and_bit, or_disjoint}
use fakelua.Varint.{write_varint, read_loop, read_varint}
use fakelua.Varint.Groups.{groups, write_varint-groups}
use native.Mathlib.Nat.{one-le-pow, pow-suc, div-add-mod}
use native.Mathlib.Numerals.{towards_suc}

shift_seven : (s : ℕ) → 2 ^ (s + 7) ≡ 128 * 2 ^ s
shift_seven s = simp towards_suc (omega arith)

pub stop_bit : (b : ℕ) → bit_and b 0x80 ≡ b / 128 % 2 * 128
stop_bit b = and_bit 7 b

pub group_bits : (b : ℕ) → bit_and b 0x7f ≡ b % 128
group_bits b = and_mask 7 b

-- A factor of `2 ^ 63` with room for a further group.
factor_fits : (p q : ℕ) → p * q ≡ 2 ^ 63 → 1 ≤ q → p ≤ 2 ^ 63
factor_fits p q h one = grind arith

group_fits : (w p : ℕ) → w < 128 → 128 * p ≤ 2 ^ 63 → w * p < 2 ^ 64
group_fits w p hw room = let bound : w * p ≤ 127 * p = grind arith in omega arith

-- The next group keeps the value read so far below the next power of 128.
next_fits : (g p result : ℕ) → g < 128 → result < p → result + g * p < 128 * p
next_fits g p result hg hr = let bound : g * p ≤ 127 * p = grind arith in omega arith

split_group : (v p : ℕ) → v * p ≡ v % 128 * p + v / 128 * (128 * p)
split_group v p = omega (arith, ap (λ (t : ℕ). t * p) (div-add-mod v 128))

module _ {E : Type 0} (truncated too_long : E) where
  last_group :
      (w result shift : ℕ) (rest : List ℕ)
      → w < 128
      → result < 2 ^ shift
      → w * 2 ^ shift < 2 ^ 64
      → read_loop truncated too_long (w ∷ rest) result shift ≡ ok (result + w * 2 ^ shift, rest)
  unfolding read_loop
  last_group w result shift rest hw hr fits =
      ground (arith, group_bits w, stop_bit w, or_disjoint shift result w)

  inner_group :
      (g result shift : ℕ) (rest : List ℕ)
      → g < 128
      → result < 2 ^ shift
      → g * 2 ^ shift < 2 ^ 64
      → shift + 7 < 64
      → read_loop truncated too_long ((g + 128) ∷ rest) result shift
        ≡ read_loop truncated too_long rest (result + g * 2 ^ shift) (shift + 7)
  unfolding read_loop
  inner_group g result shift rest hg hr fits room =
      ground (arith, group_bits (g + 128), stop_bit (g + 128), or_disjoint shift result g)

  -- With `k` groups to come after the next one the shift is `63 - 7 * k`.
  read_loop-groups :
      (k v result shift : ℕ) (rest : List ℕ)
      → v < 2 * 128 ^ k
      → result < 2 ^ shift
      → shift + 7 * k ≡ 63
      → 2 ^ shift * 128 ^ k ≡ 2 ^ 63
      → read_loop truncated too_long (groups k v ++ rest) result shift
        ≡ ok (result + v * 2 ^ shift, rest)
  unfolding groups
  read_loop-groups zero v result shift rest hv hr hs hp =
      last_group v result shift rest (omega arith) hr (grind arith)
  read_loop-groups (suc k) v result shift rest hv hr hs hp =
      let p = 2 ^ shift in
      let regroup : 128 * p * 128 ^ k ≡ 2 ^ 63 =
        omega (arith, hp, ap (λ (t : ℕ). p * t) (pow-suc 128 k)) in
      let room : 128 * p ≤ 2 ^ 63 =
        factor_fits (128 * p) (128 ^ k) regroup (one-le-pow k 128 (omega arith)) in
      elim (Bool-cases (ltb v 128)) [
        | inl small ↦ rw small (
            last_group v result shift rest (ltb→lt v 128 small) hr
              (group_fits v p (ltb→lt v 128 small) room))
        | inr large ↦
            rw
              (
                large,
                inner_group (v % 128) result shift (groups k (v / 128) ++ rest) (omega arith) hr
                    (group_fits (v % 128) p (omega arith) room) (omega arith),
                read_loop-groups k (v / 128) (result + v % 128 * p) (shift + 7) rest
                    (omega (arith, pow-suc 128 k))
                    (rw shift_seven (next_fits (v % 128) p result (omega arith) hr)) (omega arith)
                    (rw shift_seven regroup),
                shift_seven,
              )
              (ap (λ (t : ℕ). ok (t, rest)) (omega (arith, split_group v p)))
      ]

  groups_read :
      (v : ℕ) (rest : List ℕ)
      → v < 2 ^ 64
      → read_varint truncated too_long (groups 9 v ++ rest) ≡ ok (v, rest)
  unfolding read_varint
  groups_read v rest h =
      read_loop-groups 9 v 0 0 rest (omega arith) (omega arith) refl refl
      ∙ ap (λ (t : ℕ). ok (t, rest)) (omega arith)

  -- A reader gets back the uint64 that was written, and stops where the writer stopped.
  pub read_varint-write_varint :
      (v : ℕ) (rest : List ℕ)
      → v < 2 ^ 64
      → read_varint truncated too_long (write_varint [] v ++ rest) ≡ ok (v, rest)
  read_varint-write_varint v rest h = rw (write_varint-groups [] v h) (groups_read v rest h)
