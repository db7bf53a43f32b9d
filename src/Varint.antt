-- ===== src/Varint.antt =====
-- Unsigned LEB128 numbers: `WriteVarint` and `ReadVarint` of src/native/serialize/wire_codec.cpp,
-- which src/native/protobuf/protobuf_wire.cpp has once more. The two readers differ only in the
-- exceptions, which are parameters here. `out` is the list of bytes written so far; a reader's
-- `in` and `pos` are the list of the bytes from `pos` on.
pub mod Groups
pub mod Read
pub mod RoundTrip
use fakelua.Base.{ℕ, zero, suc, ◌+◌, ◌*◌, ◌/◌, ◌%◌, ◌^◌, ◌≤◌, ◌<◌, bit_and, bit_or, arith}
use fakelua.Base.{List, [], ◌∷◌, ◌++◌, ◌==◌, leb, if◌then◌else◌, dec_lt}
use fakelua.Base.Result.{Result, ok, err}
use mathlib.Core.Logic.{dite}
use mathlib.Core.WellFounded.{Acc, WellFounded}

lt-Acc : (bound n : ℕ) → n < bound → Acc ◌<◌ n
lt-Acc zero n h = absurd (omega arith)
lt-Acc (suc bound) n h = Acc.intro n (λ m below. lt-Acc bound m (omega arith))

shift_shrinks : (v : ℕ) → 0x7f < v → v / 128 < v
shift_shrinks v h = omega arith

-- `while (v >= 0x80)`; a pushed `char` is the byte that the value has modulo 256.
write_loop : List ℕ → (v : ℕ) → Acc ◌<◌ v → List ℕ
write_loop out v (Acc.intro _ smaller) =
    dite (dec_lt 0x7f v)
      (λ more.
        write_loop (out ++ (bit_or (bit_and v 0x7f) 0x80 % 256 ∷ [])) (v / 128)
          (smaller _ (shift_shrinks v more)))
      (λ _. out ++ (v % 256 ∷ []))

-- The loop ends: each round divides `v`.
pub rounds : (v : ℕ) → Acc ◌<◌ v
unfolding lt-Acc
rounds v = lt-Acc (suc v) v (omega arith)

unfoldable pub write_varint : List ℕ → ℕ → List ℕ
unfolding write_loop rounds shift_shrinks dec_lt
write_varint out v = write_loop out v (rounds v)

module _ {E : Type 0} (truncated too_long : E) where
  -- `while (pos < in.size())`. The loop that ends with no byte left has not `terminated`.
  pub read_loop : List ℕ → ℕ → ℕ → Result E (ℕ × List ℕ)
  read_loop [] result shift = err truncated
  read_loop (b ∷ in_rest) result shift =
      let result' = bit_or result (bit_and b 0x7f * 2 ^ shift % 2 ^ 64) in
      let next = read_loop in_rest result' (shift + 7) in
      if bit_and b 0x80 == 0
      then ok (result', in_rest)
      else (if leb 64 (shift + 7) then err too_long else next)

  unfoldable pub read_varint : List ℕ → Result E (ℕ × List ℕ)
  unfolding read_loop
  read_varint src = read_loop src 0 0
