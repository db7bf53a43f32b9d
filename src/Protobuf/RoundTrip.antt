-- ===== src/Protobuf/RoundTrip.antt =====
-- What is written as a field is read back.
use fakelua.Base.{ℕ, ◌+◌, ◌*◌, ◌%◌, ◌^◌, ◌<◌, ◌≡◌, bit_or, arith}
use fakelua.Base.{List, [], ◌++◌, ltb, length, false, refl, ap}
use fakelua.Base.{append_assoc, take-length-append, drop-length-append, length-append}
use fakelua.Base.Bits.{or_disjoint_above, and_mask}
use fakelua.Base.Result.{ok}
use fakelua.Varint.{write_varint}
use fakelua.Varint.RoundTrip.{read_varint-write_varint}
use fakelua.Wire.Zigzag.{zigzag_encode, zigzag_decode-zigzag_encode}
use fakelua.Protobuf.{truncated_varint, varint_too_long, read_number, write_tag}
use fakelua.Protobuf.{tag_field_number, tag_wire_type, write_varint_zigzag, read_varint_zigzag}
use fakelua.Protobuf.{write_fixed32, read_fixed32, write_fixed64, read_fixed64}
use fakelua.Protobuf.{write_length_delimited, read_length_delimited}

-- A tag with a uint32 field number and a wire type of three bits is read back whole, and gives the
-- field number and the wire type.
pub read_tag-write_tag :
    (field_number wire_type : ℕ) (rest : List ℕ)
    → field_number < 2 ^ 32
    → wire_type < 8
    → (read_number (write_tag [] field_number wire_type ++ rest)
        ≡ ok (field_number * 8 + wire_type, rest))
      × (tag_field_number (field_number * 8 + wire_type) ≡ field_number)
      × (tag_wire_type (field_number * 8 + wire_type) ≡ wire_type)
unfolding write_tag tag_field_number tag_wire_type
read_tag-write_tag field_number wire_type rest hf hw =
    let whole : field_number * 2 ^ 3 % 2 ^ 64 ≡ field_number * 2 ^ 3 = omega arith in
    let tag : bit_or (field_number * 2 ^ 3) wire_type ≡ field_number * 8 + wire_type =
      or_disjoint_above 3 wire_type field_number hw in
    (
      rw (whole, tag)
          (read_varint-write_varint truncated_varint varint_too_long (field_number * 8 + wire_type)
            rest (omega arith)),
      omega arith,
      omega (arith, and_mask 3 (field_number * 8 + wire_type)),
    )

-- An int64 written by its zigzag code is read back.
pub read_varint_zigzag-write_varint_zigzag :
    (v : ℕ) (rest : List ℕ)
    → v < 2 ^ 64
    → read_varint_zigzag (write_varint_zigzag [] v ++ rest) ≡ ok (v, rest)
unfolding read_varint_zigzag write_varint_zigzag
read_varint_zigzag-write_varint_zigzag v rest h =
    let (back, fits) = zigzag_decode-zigzag_encode v h in
    rw (read_varint-write_varint truncated_varint varint_too_long (zigzag_encode v) rest fits)
      (ap (λ (n : ℕ). ok (n, rest)) back)

-- A uint32 and a uint64 of fixed width are read back.
pub read_fixed32-write_fixed32 :
    (v : ℕ) (rest : List ℕ) → v < 2 ^ 32 → read_fixed32 (write_fixed32 [] v ++ rest) ≡ ok (v, rest)
unfolding read_fixed32 write_fixed32
read_fixed32-write_fixed32 v rest h = ap (λ (n : ℕ). ok (n, rest)) (omega arith)

-- A uint64 of fixed width is read back, and what follows is left.
pub read_fixed64-write_fixed64 :
    (v : ℕ) (rest : List ℕ) → v < 2 ^ 64 → read_fixed64 (write_fixed64 [] v ++ rest) ≡ ok (v, rest)
unfolding read_fixed64 write_fixed64
read_fixed64-write_fixed64 v rest h = ap (λ (n : ℕ). ok (n, rest)) (omega arith)

-- Bytes written behind their length are read back.
pub read_length_delimited-write_length_delimited :
    (bytes rest : List ℕ)
    → length bytes < 2 ^ 64
    → read_length_delimited (write_length_delimited [] bytes ++ rest) ≡ ok (bytes, rest)
unfolding read_length_delimited write_length_delimited
read_length_delimited-write_length_delimited bytes rest h =
    let there : ltb (length (bytes ++ rest)) (length bytes) ≡ false =
      ground (arith, length-append bytes rest) in
    rw
      (
        append_assoc (write_varint [] (length bytes)) bytes rest,
        read_varint-write_varint truncated_varint varint_too_long (length bytes) (bytes ++ rest) h,
        there,
        take-length-append bytes rest,
        drop-length-append bytes rest,
      )
      refl
