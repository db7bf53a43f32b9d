-- ===== src/Utf8/Tests.antt =====
-- Runs of the UTF-8 codec, and its theorem at a concrete code point.
use fakelua.Base.{◌≡◌, refl, [], ◌∷◌, ◌++◌, true, false, some, none}
use fakelua.Utf8.{encode_utf8, decode_utf8, is_code_point, utf8_bytes}
use fakelua.Utf8.RoundTrip.{decode_utf8-encode_utf8}
use fakelua.Utf8.Shortest.{utf8_bytes-decode_utf8}

euro : encode_utf8 0x20ac [] ≡ (true, 0xe2 ∷ 0x82 ∷ 0xac ∷ [])
unfolding encode_utf8
euro = refl

no_surrogate : encode_utf8 0xd800 [] ≡ (false, [])
unfolding encode_utf8
no_surrogate = refl

-- 0x2f in two bytes.
overlong : decode_utf8 (0xc0 ∷ 0xaf ∷ []) ≡ (none, 0xaf ∷ [])
unfolding decode_utf8
overlong = refl

decode_utf8-encode_utf8_example :
    decode_utf8 ((encode_utf8 0x20ac []).1 ++ 0x21 ∷ []) ≡ (some 0x20ac, 0x21 ∷ [])
unfolding encode_utf8
decode_utf8-encode_utf8_example = decode_utf8-encode_utf8 0x20ac (0x21 ∷ []) refl

utf8_bytes-decode_utf8_example :
    (is_code_point 0x20ac ≡ true)
    × (0xe2 ∷ 0x82 ∷ 0xac ∷ 0x21 ∷ [] ≡ utf8_bytes 0x20ac ++ 0x21 ∷ [])
unfolding decode_utf8
utf8_bytes-decode_utf8_example =
    utf8_bytes-decode_utf8 (0xe2 ∷ 0x82 ∷ 0xac ∷ 0x21 ∷ []) 0x20ac (0x21 ∷ []) refl
