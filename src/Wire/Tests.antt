-- ===== src/Wire/Tests.antt =====
-- Runs of the codec, and its theorems at concrete inputs.
use fakelua.Base.{ℕ, zero, suc, ◌+◌, ◌*◌, ◌-◌, ◌^◌, ◌≤◌, ◌<◌, ◌≡◌, refl, arith}
use fakelua.Base.{[], ◌∷◌, ◌++◌, map, if◌then◌else◌, ltb}
use fakelua.Base.Result.{ok, err}
use fakelua.Varint.{write_varint, read_varint}
use fakelua.Varint.Read.{read_varint_takes}
use fakelua.Varint.RoundTrip.{read_varint-write_varint}
use fakelua.Wire.Value.{Bytes, nil, int, str, table, Heap, max_depth, trailing_bytes}
use fakelua.Wire.Value.{Error, cyclic_table, unknown_tag}
use fakelua.Wire.Zigzag.{zigzag_encode, zigzag_decode}
use fakelua.Wire.Zigzag.{zigzag_decode-zigzag_encode, zigzag_encode-zigzag_decode}
use fakelua.Wire.Zigzag.{zigzag_encode-magnitude}
use fakelua.Wire.Reify.{reify, HeapFits}
use fakelua.Wire.Encode.{wire_encode}
use fakelua.Wire.Decode.{wire_decode}
use fakelua.Wire.RoundTrip.{wire_decode-wire_encode}
use fakelua.Wire.Args.{encode_callback_args, decode_callback_args}
use fakelua.Wire.Args.RoundTrip.{unfold_whole, decode_callback_args-encode_callback_args}

-- Table 1 is {"k" = 300, 5 = table 2}, table 2 is {1 = "k"}, and table 3 holds itself.
abbrev sample : Heap
sample (suc zero) = (str (107 ∷ []), int 300) ∷ (int 5, table 2) ∷ []
sample (suc (suc zero)) = (int 1, str (107 ∷ [])) ∷ []
sample (suc (suc (suc zero))) = (int 1, table 3) ∷ []
sample n = []

sample-HeapFits : HeapFits sample
sample-HeapFits zero = tt
sample-HeapFits (suc zero) = omega arith
sample-HeapFits (suc (suc zero)) = omega arith
sample-HeapFits (suc (suc (suc zero))) = omega arith
sample-HeapFits (suc (suc (suc (suc n)))) = tt

abbrev sample_bytes : Bytes
sample_bytes = 7 ∷ 2 ∷ 5 ∷ 1 ∷ 107 ∷ 3 ∷ 0xd8 ∷ 4 ∷ 3 ∷ 10 ∷ 7 ∷ 1 ∷ 3 ∷ 2 ∷ 6 ∷ 0 ∷ []

sample_encoded : wire_encode sample (table 1) ≡ ok sample_bytes
unfolding wire_encode write_varint zigzag_encode
sample_encoded = refl

cyclic : wire_encode sample (table 3) ≡ err cyclic_table
unfolding wire_encode
cyclic = refl

bad_tag : wire_decode (8 ∷ []) ≡ err unknown_tag
unfolding wire_decode
bad_tag = refl

read_300 :
    read_varint Error.truncated_varint Error.varint_too_long (0xac ∷ 2 ∷ 9 ∷ []) ≡ ok (300, 9 ∷ [])
unfolding read_varint
read_300 = refl

read_varint_takes_example : (1 < 3) × (3 ≤ 1 + 10)
read_varint_takes_example =
    read_varint_takes Error.truncated_varint Error.varint_too_long (0xac ∷ 2 ∷ 9 ∷ []) 300 (9 ∷ [])
      read_300

read_varint-write_varint_example :
    read_varint Error.truncated_varint Error.varint_too_long
      (write_varint [] 0xffff_ffff_ffff_ffff ++ (9 ∷ []))
    ≡ ok (0xffff_ffff_ffff_ffff, 9 ∷ [])
read_varint-write_varint_example =
    read_varint-write_varint Error.truncated_varint Error.varint_too_long 0xffff_ffff_ffff_ffff
      (9 ∷ []) (omega arith)

zigzag_decode-zigzag_encode_example :
    (zigzag_decode (zigzag_encode (2 ^ 64 - 3)) ≡ 2 ^ 64 - 3)
    × (zigzag_encode (2 ^ 64 - 3) < 2 ^ 64)
zigzag_decode-zigzag_encode_example = zigzag_decode-zigzag_encode (2 ^ 64 - 3) (omega arith)

zigzag_encode-zigzag_decode_example :
    (zigzag_encode (zigzag_decode 7) ≡ 7) × (zigzag_decode 7 < 2 ^ 64)
zigzag_encode-zigzag_decode_example = zigzag_encode-zigzag_decode 7 (omega arith)

zigzag_encode-magnitude_example :
    zigzag_encode (2 ^ 64 - 3)
    ≡ (if ltb (2 ^ 64 - 3) (2 ^ 63) then 2 * (2 ^ 64 - 3) else 2 * (2 ^ 64 - (2 ^ 64 - 3)) - 1)
zigzag_encode-magnitude_example = zigzag_encode-magnitude (2 ^ 64 - 3) (omega arith)

wire_decode-wire_encode_example :
    (wire_decode sample_bytes ≡ ok (reify sample max_depth (table 1)))
    × ((b : ℕ) (more : Bytes) → wire_decode (sample_bytes ++ b ∷ more) ≡ err trailing_bytes)
wire_decode-wire_encode_example =
    wire_decode-wire_encode sample (table 1) sample_bytes sample-HeapFits (omega arith)
      sample_encoded (omega arith)

abbrev args_bytes : Bytes
args_bytes = 2 ∷ 7 ∷ 1 ∷ 3 ∷ 2 ∷ 5 ∷ 1 ∷ 107 ∷ 0 ∷ []

args_encoded : encode_callback_args sample (table 2 ∷ nil ∷ []) ≡ ok args_bytes
unfolding encode_callback_args write_varint zigzag_encode
args_encoded = refl

decode_callback_args-encode_callback_args_example :
    decode_callback_args args_bytes ≡ ok (map (unfold_whole sample max_depth) (table 2 ∷ nil ∷ []))
decode_callback_args-encode_callback_args_example =
    decode_callback_args-encode_callback_args sample (table 2 ∷ nil ∷ []) args_bytes sample-HeapFits
      (omega arith) args_encoded (omega arith)
