-- ===== src/Protobuf.antt =====
-- The wire format of src/native/protobuf/protobuf_wire.h and protobuf_wire.cpp. `in` and `pos` are the
-- list of the bytes from `pos` on; a `memcpy` of a number is little-endian, and a `float` or a `double`
-- is its bit pattern.
pub mod RoundTrip
pub mod Skip
mod Tests
use fakelua.Base.{ℕ, ◌+◌, ◌*◌, ◌/◌, ◌%◌, ◌^◌, bit_and, bit_or, Bool, true, false}
use fakelua.Base.{List, [], ◌∷◌, ◌++◌, ltb, ◌==◌, if◌then◌else◌, length, take, drop}
use fakelua.Base.Result.{Result, ok, err, ◌>>=◌, ◌>>◌, throw_if}
use fakelua.Varint.{write_varint, read_varint}
use fakelua.Wire.Zigzag.{zigzag_encode, zigzag_decode}

pub data Error : Type 0 where
  varint_too_long truncated_varint truncated_fixed32 truncated_fixed64 : Error
  truncated_length_delimited skip_truncated_64bit skip_truncated_len skip_truncated_32bit : Error
  skip_unknown_wire_type : Error

pub data FieldType : Type 0 where
  type_double type_float type_int64 type_uint64 type_int32 type_fixed64 type_fixed32 : FieldType
  type_bool type_string type_group type_message type_bytes type_uint32 type_enum : FieldType
  type_sfixed32 type_sfixed64 type_sint32 type_sint64 : FieldType

abbrev pub wire_varint : ℕ
wire_varint = 0

abbrev pub wire_64bit : ℕ
wire_64bit = 1

abbrev pub wire_len : ℕ
wire_len = 2

abbrev pub wire_32bit : ℕ
wire_32bit = 5

unfoldable pub wire_type_for_scalar : FieldType → ℕ
wire_type_for_scalar type_int32 = wire_varint
wire_type_for_scalar type_int64 = wire_varint
wire_type_for_scalar type_uint32 = wire_varint
wire_type_for_scalar type_uint64 = wire_varint
wire_type_for_scalar type_sint32 = wire_varint
wire_type_for_scalar type_sint64 = wire_varint
wire_type_for_scalar type_bool = wire_varint
wire_type_for_scalar type_enum = wire_varint
wire_type_for_scalar type_fixed64 = wire_64bit
wire_type_for_scalar type_sfixed64 = wire_64bit
wire_type_for_scalar type_double = wire_64bit
wire_type_for_scalar type_fixed32 = wire_32bit
wire_type_for_scalar type_sfixed32 = wire_32bit
wire_type_for_scalar type_float = wire_32bit
wire_type_for_scalar _ = wire_len

unfoldable pub is_packable : FieldType → Bool
is_packable type_string = false
is_packable type_bytes = false
is_packable type_message = false
is_packable type_group = false
is_packable _ = true

-- `tag = (field_number << 3) | wire_type`
unfoldable pub write_tag : List ℕ → ℕ → ℕ → List ℕ
write_tag out field_number wire_type =
    write_varint out (bit_or (field_number * 2 ^ 3 % 2 ^ 64) wire_type)

unfoldable pub tag_field_number : ℕ → ℕ
tag_field_number tag = tag / 2 ^ 3 % 2 ^ 32

unfoldable pub tag_wire_type : ℕ → ℕ
tag_wire_type tag = bit_and tag 0x7 % 2 ^ 8

abbrev pub read_number : List ℕ → Result Error (ℕ × List ℕ)
read_number = read_varint truncated_varint varint_too_long

unfoldable pub write_varint_zigzag : List ℕ → ℕ → List ℕ
write_varint_zigzag out v = write_varint out (zigzag_encode v)

unfoldable pub read_varint_zigzag : List ℕ → Result Error (ℕ × List ℕ)
read_varint_zigzag src = do (u, rest) ← read_number src; ok (zigzag_decode u, rest)

unfoldable pub write_fixed32 : List ℕ → ℕ → List ℕ
write_fixed32 out v = out ++ v % 256 ∷ v / 2 ^ 8 % 256 ∷ v / 2 ^ 16 % 256 ∷ v / 2 ^ 24 % 256 ∷ []

unfoldable pub read_fixed32 : List ℕ → Result Error (ℕ × List ℕ)
read_fixed32 (b0 ∷ b1 ∷ b2 ∷ b3 ∷ rest) = ok (b0 + b1 * 2 ^ 8 + b2 * 2 ^ 16 + b3 * 2 ^ 24, rest)
read_fixed32 _ = err truncated_fixed32

unfoldable pub write_fixed64 : List ℕ → ℕ → List ℕ
unfolding write_fixed32
write_fixed64 out v = write_fixed32 (write_fixed32 out (v % 2 ^ 32)) (v / 2 ^ 32 % 2 ^ 32)

unfoldable pub read_fixed64 : List ℕ → Result Error (ℕ × List ℕ)
read_fixed64 (b0 ∷ b1 ∷ b2 ∷ b3 ∷ b4 ∷ b5 ∷ b6 ∷ b7 ∷ rest) = ok (
  b0
      + b1 * 2 ^ 8
      + b2 * 2 ^ 16
      + b3 * 2 ^ 24
      + b4 * 2 ^ 32
      + b5 * 2 ^ 40
      + b6 * 2 ^ 48
      + b7 * 2 ^ 56,
  rest,
)
read_fixed64 _ = err truncated_fixed64

unfoldable pub write_length_delimited : List ℕ → List ℕ → List ℕ
write_length_delimited out bytes = write_varint out (length bytes) ++ bytes

unfoldable pub read_length_delimited : List ℕ → Result Error (List ℕ × List ℕ)
read_length_delimited src = do
  (len, rest) ← read_number src
  throw_if (ltb (length rest) len) truncated_length_delimited
  ok (take len rest, drop len rest)

-- `pos += n`, with the exception of the case.
unfoldable pub skip_bytes : ℕ → Error → List ℕ → Result Error (List ℕ)
skip_bytes n e src = do throw_if (ltb (length src) n) e; ok (drop n src)

unfoldable pub skip_value : ℕ → List ℕ → Result Error (List ℕ)
unfolding skip_bytes
skip_value wire_type src =
    if wire_type == wire_varint
    then (do (_, rest) ← read_number src; ok rest)
    else if wire_type == wire_64bit
    then skip_bytes 8 skip_truncated_64bit src
    else if wire_type == wire_len
    then (do (len, rest) ← read_number src; skip_bytes len skip_truncated_len rest)
    else if wire_type == wire_32bit
    then skip_bytes 4 skip_truncated_32bit src
    else err skip_unknown_wire_type
