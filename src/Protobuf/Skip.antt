-- ===== src/Protobuf/Skip.antt =====
-- Skipping a field takes the bytes that reading it takes.
use fakelua.Base.{ℕ, suc, ◌≡◌, arith, refl, Option, some, none}
use fakelua.Base.{List, ◌∷◌, ltb, ◌==◌, if◌then◌else◌, length, take, drop, false, not}
use fakelua.Base.{Bool-cases, inl, inr}
use fakelua.Base.Result.{Result, ok, err, ◌>>=◌, ◌>>◌, throw_if}
use fakelua.Protobuf.{
  Error, wire_varint, wire_64bit, wire_len, wire_32bit, read_number, read_fixed32,
}
use fakelua.Protobuf.{read_fixed64, read_length_delimited, skip_value, skip_bytes, FieldType}
use fakelua.Protobuf.{wire_type_for_scalar, is_packable, truncated_length_delimited}
use fakelua.Protobuf.{skip_truncated_len}
use fakelua.Protobuf.{type_double, type_float, type_int64, type_uint64, type_int32}
use fakelua.Protobuf.{type_fixed64, type_fixed32, type_bool, type_string, type_group}
use fakelua.Protobuf.{type_message, type_bytes, type_uint32, type_enum, type_sfixed32}
use fakelua.Protobuf.{type_sfixed64, type_sint32, type_sint64}

-- What is left after a read or a skip, whatever the exception.
abbrev pub left_over : {A : Type 0} → Result Error (A × List ℕ) → Option (List ℕ)
left_over (ok (_, rest)) = some rest
left_over (err e) = none

abbrev pub skipped : Result Error (List ℕ) → Option (List ℕ)
skipped (ok rest) = some rest
skipped (err e) = none

-- What is left of a field that is read, by its wire type.
unfoldable pub after_read : ℕ → List ℕ → Option (List ℕ)
after_read wire_type src =
    if wire_type == wire_varint
    then left_over (read_number src)
    else if wire_type == wire_64bit
    then left_over (read_fixed64 src)
    else if wire_type == wire_len
    then left_over (read_length_delimited src)
    else if wire_type == wire_32bit
    then left_over (read_fixed32 src)
    else none

skip_number : (r : Result Error (ℕ × List ℕ)) → skipped (do (_, rest) ← r; ok rest) ≡ left_over r
skip_number (ok x) = refl
skip_number (err e) = refl

skip_eight :
    (src : List ℕ) (e : Error) → skipped (skip_bytes 8 e src) ≡ left_over (read_fixed64 src)
unfolding read_fixed64 skip_bytes
skip_eight (b0 ∷ b1 ∷ b2 ∷ b3 ∷ b4 ∷ b5 ∷ b6 ∷ b7 ∷ src) e =
    let enough : ltb (suc (suc (suc (suc (suc (suc (suc (suc (length src))))))))) 8 ≡ false =
      ground arith in
    rw enough refl
skip_eight _ e = refl

skip_four : (src : List ℕ) (e : Error) → skipped (skip_bytes 4 e src) ≡ left_over (read_fixed32 src)
unfolding read_fixed32 skip_bytes
skip_four (b0 ∷ b1 ∷ b2 ∷ b3 ∷ src) e =
    let enough : ltb (suc (suc (suc (suc (length src))))) 4 ≡ false = ground arith in rw enough refl
skip_four _ e = refl

skip_counted :
    (r : Result Error (ℕ × List ℕ))
    → skipped (do (len, rest) ← r; skip_bytes len skip_truncated_len rest)
      ≡ left_over (do
        (len, rest) ← r
        throw_if (ltb (length rest) len) truncated_length_delimited
        ok (take len rest, drop len rest))
unfolding skip_bytes
skip_counted (err e) = refl
skip_counted (ok (len, rest)) = elim (Bool-cases (ltb (length rest) len)) [
  | inl short ↦ rw short refl
  | inr enough ↦ rw enough refl
]

-- For every wire type and all bytes, skipping succeeds when reading a field of that wire type does,
-- and leaves the same bytes; another wire type cannot be skipped.
pub skip_value-after_read :
    (wire_type : ℕ) (src : List ℕ) → skipped (skip_value wire_type src) ≡ after_read wire_type src
unfolding skip_value after_read read_length_delimited
skip_value-after_read wire_type src = elim (Bool-cases (wire_type == wire_varint)) [
  | inl is_number ↦ rw is_number (skip_number (read_number src))
  | inr not_number ↦ elim (Bool-cases (wire_type == wire_64bit)) [
    | inl is_eight ↦ rw (not_number, is_eight) (skip_eight src _)
    | inr not_eight ↦ elim (Bool-cases (wire_type == wire_len)) [
      | inl is_counted ↦ rw (not_number, not_eight, is_counted) (skip_counted (read_number src))
      | inr not_counted ↦ elim (Bool-cases (wire_type == wire_32bit)) [
        | inl is_four ↦ rw (not_number, not_eight, not_counted, is_four) (skip_four src _)
        | inr unknown ↦ rw (not_number, not_eight, not_counted, unknown) refl
      ]
    ]
  ]
]

-- The types that can be packed are those that are not length-delimited on the wire.
pub is_packable-wire_type_for_scalar :
    (t : FieldType) → is_packable t ≡ not (wire_type_for_scalar t == wire_len)
unfolding is_packable wire_type_for_scalar
is_packable-wire_type_for_scalar type_double = refl
is_packable-wire_type_for_scalar type_float = refl
is_packable-wire_type_for_scalar type_int64 = refl
is_packable-wire_type_for_scalar type_uint64 = refl
is_packable-wire_type_for_scalar type_int32 = refl
is_packable-wire_type_for_scalar type_fixed64 = refl
is_packable-wire_type_for_scalar type_fixed32 = refl
is_packable-wire_type_for_scalar type_bool = refl
is_packable-wire_type_for_scalar type_string = refl
is_packable-wire_type_for_scalar type_group = refl
is_packable-wire_type_for_scalar type_message = refl
is_packable-wire_type_for_scalar type_bytes = refl
is_packable-wire_type_for_scalar type_uint32 = refl
is_packable-wire_type_for_scalar type_enum = refl
is_packable-wire_type_for_scalar type_sfixed32 = refl
is_packable-wire_type_for_scalar type_sfixed64 = refl
is_packable-wire_type_for_scalar type_sint32 = refl
is_packable-wire_type_for_scalar type_sint64 = refl
