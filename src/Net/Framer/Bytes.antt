-- ===== src/Net/Framer/Bytes.antt =====
-- The bytes of a packet, and how many they are.
use fakelua.Base.{ℕ, zero, suc, ◌-◌, ◌%◌, ◌^◌, ◌≤◌, ◌≡◌, arith, Bool, true}
use fakelua.Base.{List, [], ◌∷◌, ◌++◌, ltb, leb, length, take, replicate}
use fakelua.Base.{refl, ap, length-append}
use fakelua.Base.{length-take, length-replicate}
use fakelua.Net.Framer.{FramerType, header4_big_endian, header4_little_endian, header2_big_endian}
use fakelua.Net.Framer.{header2_little_endian, line_delimiter, fixed_length, raw_stream, custom}
use fakelua.Net.Framer.{web_socket, header4_big, header4_little, header2_big, header2_little}
use fakelua.Net.Framer.{framed_size}

-- A packet on the wire.
unfoldable pub packet_bytes : FramerType → ℕ → List ℕ → List ℕ
packet_bytes header4_big_endian fixed bytes = header4_big (length bytes % 2 ^ 32) ++ bytes
packet_bytes header4_little_endian fixed bytes = header4_little (length bytes % 2 ^ 32) ++ bytes
packet_bytes header2_big_endian fixed bytes = header2_big (length bytes % 2 ^ 16) ++ bytes
packet_bytes header2_little_endian fixed bytes = header2_little (length bytes % 2 ^ 16) ++ bytes
packet_bytes line_delimiter fixed bytes = bytes ++ 10 ∷ []
packet_bytes fixed_length zero bytes = bytes
packet_bytes fixed_length (suc fixed) bytes =
    take (suc fixed) bytes ++ replicate (suc fixed - length bytes) 0
packet_bytes _ fixed bytes = bytes

-- The test of WritePacket on the length: a header of two bytes counts up to 65535. A header of four bytes
-- has no test, and counts modulo 2 ^ 32.
unfoldable pub is_length_allowed : FramerType → List ℕ → Bool
is_length_allowed header2_big_endian bytes = leb (length bytes) 65535
is_length_allowed header2_little_endian bytes = leb (length bytes) 65535
is_length_allowed _ bytes = true

pub take_all : (n : ℕ) (xs : List ℕ) → length xs ≤ n → take n xs ≡ xs
take_all zero [] h = refl
take_all zero (x ∷ xs) h = absurd (omega arith)
take_all (suc n) [] h = refl
take_all (suc n) (x ∷ xs) h = ap (λ ys. x ∷ ys) (take_all n xs (omega arith))

padded :
    (fixed : ℕ) (bytes : List ℕ)
    → framed_size fixed_length fixed (length bytes) ≡ length (packet_bytes fixed_length fixed bytes)
unfolding framed_size packet_bytes
padded zero bytes = refl
padded (suc fixed) bytes =
    let positive : ltb 0 (suc fixed) ≡ true = ground arith in
    rw positive (
      omega (
        arith,
        length-append (take (suc fixed) bytes) (replicate (suc fixed - length bytes) 0),
        length-take (suc fixed) bytes,
        length-replicate {A = ℕ} (suc fixed - length bytes) 0,
      ))

pub framed_size-packet_bytes :
    (f : FramerType) (fixed : ℕ) (bytes : List ℕ)
    → framed_size f fixed (length bytes) ≡ length (packet_bytes f fixed bytes)
unfolding framed_size packet_bytes header4_big header4_little header2_big header2_little
framed_size-packet_bytes header4_big_endian fixed bytes = omega arith
framed_size-packet_bytes header4_little_endian fixed bytes = omega arith
framed_size-packet_bytes header2_big_endian fixed bytes = omega arith
framed_size-packet_bytes header2_little_endian fixed bytes = omega arith
framed_size-packet_bytes line_delimiter fixed bytes = omega (arith, length-append bytes (10 ∷ []))
framed_size-packet_bytes fixed_length fixed bytes = padded fixed bytes
framed_size-packet_bytes raw_stream fixed bytes = refl
framed_size-packet_bytes custom fixed bytes = refl
framed_size-packet_bytes web_socket fixed bytes = refl
