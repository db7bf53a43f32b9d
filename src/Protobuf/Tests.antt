-- ===== src/Protobuf/Tests.antt =====
-- The theorems of the wire format at concrete fields.
use fakelua.Base.{◌+◌, ◌-◌, ◌^◌, ◌≡◌, arith, [], ◌∷◌, ◌++◌}
use fakelua.Base.Result.{ok}
use fakelua.Protobuf.{read_number, write_tag, tag_field_number, tag_wire_type, read_varint_zigzag}
use fakelua.Protobuf.{write_varint_zigzag, read_fixed64, write_fixed64}
use fakelua.Protobuf.{read_length_delimited, write_length_delimited, skip_value}
use fakelua.Protobuf.RoundTrip.{read_tag-write_tag, read_varint_zigzag-write_varint_zigzag}
use fakelua.Protobuf.RoundTrip.{read_fixed64-write_fixed64}
use fakelua.Protobuf.RoundTrip.{read_length_delimited-write_length_delimited}
use fakelua.Protobuf.Skip.{skipped, after_read, skip_value-after_read}

read_tag-write_tag_example :
    (read_number (write_tag [] 1000 2 ++ 7 ∷ []) ≡ ok (8002, 7 ∷ []))
    × (tag_field_number 8002 ≡ 1000)
    × (tag_wire_type 8002 ≡ 2)
read_tag-write_tag_example = read_tag-write_tag 1000 2 (7 ∷ []) (omega arith) (omega arith)

read_varint_zigzag-write_varint_zigzag_example :
    read_varint_zigzag (write_varint_zigzag [] (2 ^ 64 - 5) ++ 7 ∷ []) ≡ ok (2 ^ 64 - 5, 7 ∷ [])
read_varint_zigzag-write_varint_zigzag_example =
    read_varint_zigzag-write_varint_zigzag (2 ^ 64 - 5) (7 ∷ []) (omega arith)

read_fixed64-write_fixed64_example :
    read_fixed64 (write_fixed64 [] (2 ^ 40 + 1) ++ 7 ∷ []) ≡ ok (2 ^ 40 + 1, 7 ∷ [])
read_fixed64-write_fixed64_example = read_fixed64-write_fixed64 (2 ^ 40 + 1) (7 ∷ []) (omega arith)

read_length_delimited-write_length_delimited_example :
    read_length_delimited (write_length_delimited [] (65 ∷ 66 ∷ []) ++ 7 ∷ [])
    ≡ ok (65 ∷ 66 ∷ [], 7 ∷ [])
read_length_delimited-write_length_delimited_example =
    read_length_delimited-write_length_delimited (65 ∷ 66 ∷ []) (7 ∷ []) (omega arith)

skip_value-after_read_example :
    skipped (skip_value 2 (2 ∷ 65 ∷ 66 ∷ 7 ∷ [])) ≡ after_read 2 (2 ∷ 65 ∷ 66 ∷ 7 ∷ [])
skip_value-after_read_example = skip_value-after_read 2 (2 ∷ 65 ∷ 66 ∷ 7 ∷ [])
