-- ===== src/Varint/Read.antt =====
-- `read_varint` on any input, well formed or not.
use fakelua.Base.{ℕ, ◌+◌, ◌*◌, ◌%◌, ◌^◌, ◌≤◌, ◌<◌, ◌≡◌, bit_and, bit_or, arith}
use fakelua.Base.{List, [], ◌∷◌, ◌++◌, length}
use fakelua.Base.Result.{ok}
use fakelua.Varint.{read_loop, read_varint}

module _ {E : Type 0} (truncated too_long : E) where
  -- After `j` bytes the shift is `7 * j`, and `j` stays below 10.
  read_loop_takes :
      (src : List ℕ) (result shift j v : ℕ) (rest : List ℕ)
      → shift ≡ 7 * j
      → j ≤ 9
      → read_loop truncated too_long src result shift ≡ ok (v, rest)
      → (length rest < length src) × (length src + j ≤ length rest + 10)
  unfolding read_loop
  read_loop_takes [] result shift j v rest hs hj e = cc
  read_loop_takes (b ∷ bs) result shift j v rest hs hj e = ground (
    arith,
    read_loop_takes bs (bit_or result (bit_and b 0x7f * 2 ^ shift % 2 ^ 64)) (shift + 7) (j + 1) v
        rest,
  )

  -- A successful read takes 1 to 10 bytes.
  pub read_varint_takes :
      (src : List ℕ) (v : ℕ) (rest : List ℕ)
      → read_varint truncated too_long src ≡ ok (v, rest)
      → (length rest < length src) × (length src ≤ length rest + 10)
  unfolding read_varint
  read_varint_takes src v rest e = ground (arith, read_loop_takes src 0 0 0 v rest)

  -- Bytes after the number do not matter.
  pub read_loop-append :
      (src more : List ℕ) (result shift v : ℕ) (rest : List ℕ)
      → read_loop truncated too_long src result shift ≡ ok (v, rest)
      → read_loop truncated too_long (src ++ more) result shift ≡ ok (v, rest ++ more)
  unfolding read_loop
  read_loop-append [] more result shift v rest e = cc
  read_loop-append (b ∷ bs) more result shift v rest e = ground (
    arith,
    read_loop-append bs more (bit_or result (bit_and b 0x7f * 2 ^ shift % 2 ^ 64)) (shift + 7) v
        rest,
  )
