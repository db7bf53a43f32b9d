-- ===== src/Utf8.antt =====
-- `EncodeUtf8` and `DecodeUtf8` of src/native/utf8/native_utf8.cpp. A code point is the pattern of an
-- `int64_t`; `sv` and `pos` are the list of the bytes from `pos` on.
pub mod RoundTrip
pub mod Found
pub mod Shortest
mod Tests
use fakelua.Base.{
  ℕ, zero, suc, ◌+◌, ◌-◌, ◌*◌, ◌/◌, ◌%◌, ◌^◌, bit_and, bit_or, Bool, true, false, ◌&&◌, ◌||◌,
}
use fakelua.Base.{List, [], ◌∷◌, ◌++◌, ltb, leb, ◌==◌, if◌then◌else◌, length, Option, none, some}

-- The range of Unicode, without the surrogates.
unfoldable pub is_code_point : ℕ → Bool
is_code_point cp =
    if leb (2 ^ 63) cp || ltb 0x10ffff cp
    then false
    else (if leb 0xd800 cp && leb cp 0xdfff then false else true)

unfoldable pub utf8_bytes : ℕ → List ℕ
utf8_bytes cp =
    if leb cp 0x7f
    then cp ∷ []
    else if leb cp 0x7ff
    then bit_or 0xc0 (cp / 2 ^ 6) ∷ bit_or 0x80 (bit_and cp 0x3f) ∷ []
    else if leb cp 0xffff
    then bit_or 0xe0 (cp / 2 ^ 12)
      ∷ bit_or 0x80 (bit_and (cp / 2 ^ 6) 0x3f)
      ∷ bit_or 0x80 (bit_and cp 0x3f)
      ∷ []
    else bit_or 0xf0 (cp / 2 ^ 18)
      ∷ bit_or 0x80 (bit_and (cp / 2 ^ 12) 0x3f)
      ∷ bit_or 0x80 (bit_and (cp / 2 ^ 6) 0x3f)
      ∷ bit_or 0x80 (bit_and cp 0x3f)
      ∷ []

unfoldable pub encode_utf8 : ℕ → List ℕ → Bool × List ℕ
unfolding is_code_point utf8_bytes
encode_utf8 cp out = if is_code_point cp then (true, out ++ utf8_bytes cp) else (false, out)

-- The loop over the bytes that continue a sequence.
unfoldable pub continue_sequence : ℕ → ℕ → List ℕ → Option (ℕ × List ℕ)
continue_sequence zero cp src = some (cp, src)
continue_sequence (suc count) cp [] = none
continue_sequence (suc count) cp (next ∷ src) =
    let rest = continue_sequence count (bit_or (cp * 2 ^ 6) (bit_and next 0x3f)) src in
    if next / 2 ^ 6 == 0x02 then rest else none

-- Too high, a surrogate, or longer than needed.
unfoldable pub is_bad_sequence : ℕ → ℕ → Bool
is_bad_sequence len cp =
    ltb 0x10ffff cp
    || ((leb 0xd800 cp && leb cp 0xdfff)
        || ((len == 2 && ltb cp 0x80)
            || ((len == 3 && ltb cp 0x800) || (len == 4 && ltb cp 0x10000))))

-- The first byte is off; `src` is what follows it.
unfoldable pub decode_sequence : ℕ → ℕ → List ℕ → Option ℕ × List ℕ
unfolding continue_sequence is_bad_sequence
decode_sequence len cp src =
    if ltb (length src + 1) len then (none, []) else elim (continue_sequence (len - 1) cp src) [
      | none ↦ (none, src)
      | some found ↦ if is_bad_sequence len found.0 then (none, src) else (some found.0, found.1)
    ]

-- The code point, or `none` for the -1 of the source, and what is left from the new `pos` on.
unfoldable pub decode_utf8 : List ℕ → Option ℕ × List ℕ
unfolding decode_sequence
decode_utf8 [] = (none, [])
decode_utf8 (c ∷ src) =
    if leb c 0x7f
    then (some c, src)
    else if c / 2 ^ 5 == 0x06
    then decode_sequence 2 (bit_and c 0x1f) src
    else if c / 2 ^ 4 == 0x0e
    then decode_sequence 3 (bit_and c 0x0f) src
    else if c / 2 ^ 3 == 0x1e
    then decode_sequence 4 (bit_and c 0x07) src
    else (none, src)
