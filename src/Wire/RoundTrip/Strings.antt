-- ===== src/Wire/RoundTrip/Strings.antt =====
-- Strings: the encoder's dictionary and the decoder's stay the same list.
use fakelua.Base.{ℕ, zero, suc, ◌%◌, ◌^◌, ◌≤◌, ◌<◌, ◌≡◌, refl, arith}
use fakelua.Base.{[], ◌∷◌, ◌++◌, append_assoc, length, true, false}
use fakelua.Base.{length-append, none, some, get_elem?, inl, inr}
use fakelua.Base.{Option-cases, ltb}
use fakelua.Base.{take-length-append, drop-length-append, get_or-append_self}
use native.Mathlib.Nat.{mod-eq_of_lt}
use fakelua.Base.Bytes.{same_bytes}
use fakelua.Base.Result.{ok}
use fakelua.Varint.{write_varint}
use fakelua.Wire.Value.{Bytes, Tree}
use fakelua.Wire.Encode.{Dict, position, encode_string}
use fakelua.Wire.Decode.{decode_string_new, decode_string_ref, decode_value}
use fakelua.Wire.RoundTrip.Scalars.{Codes, tagged, read_number-write_varint}

same_bytes→eq : (s t : Bytes) → same_bytes s t ≡ true → s ≡ t
unfolding same_bytes
same_bytes→eq [] [] h = refl
same_bytes→eq [] (y ∷ ys) h = cc
same_bytes→eq (x ∷ xs) [] h = cc
same_bytes→eq (x ∷ xs) (y ∷ ys) h = ground (arith, same_bytes→eq xs ys)

position_found :
    (s : Bytes) (d : Dict) (i : ℕ)
    → position s d ≡ some i
    → (get_elem? d i ≡ some s) × (i < length d)
unfolding position
position_found s [] i h = cc
position_found s (t ∷ d) zero h = ground (arith, same_bytes→eq s t)
position_found s (t ∷ d) (suc i) h = ground (arith, position_found s d i)

decode_tag_new :
    (n : ℕ) (src : Bytes) (d : Dict) → decode_value n (0x05 ∷ src) d ≡ decode_string_new src d
unfolding decode_value
decode_tag_new zero src d = refl
decode_tag_new (suc n) src d = refl

decode_tag_ref :
    (n : ℕ) (src : Bytes) (d : Dict) → decode_value n (0x06 ∷ src) d ≡ decode_string_ref src d
unfolding decode_value
decode_tag_ref zero src d = refl
decode_tag_ref (suc n) src d = refl

not_short : (a b : ℕ) → b ≤ a → ltb a b ≡ false
not_short a b h = ground arith

decode_new :
    (s : Bytes) (d : Dict) (rest : Bytes)
    → length s < 2 ^ 32
    → length d < 2 ^ 32
    → decode_string_new (write_varint [] (length s) ++ (s ++ rest)) d
      ≡ ok (Tree.str s, rest, d ++ s ∷ [])
unfolding decode_string_new
decode_new s d rest hs hd = rw (
  read_number-write_varint (length s) (s ++ rest) (omega arith),
  not_short (length (s ++ rest)) (length s) (omega (arith, length-append s rest)),
  take-length-append s rest,
  drop-length-append s rest,
  mod-eq_of_lt hd,
  get_or-append_self d s s,
)

decode_ref :
    (s : Bytes) (d : Dict) (i : ℕ) (rest : Bytes)
    → get_elem? d i ≡ some s
    → i < 2 ^ 32
    → decode_string_ref (write_varint [] i ++ rest) d ≡ ok (Tree.str s, rest, d)
unfolding decode_string_ref
decode_ref s d i rest found small = rw (read_number-write_varint i rest (omega arith), found)

encode_fresh :
    (s out : Bytes) (d : Dict)
    → position s d ≡ none
    → encode_string out s d ≡ (write_varint (out ++ 0x05 ∷ []) (length s) ++ s, d ++ s ∷ [])
unfolding encode_string
encode_fresh s out d h = ground arith

encode_known :
    (s out : Bytes) (d : Dict) (i : ℕ)
    → position s d ≡ some i
    → encode_string out s d ≡ (write_varint (out ++ 0x06 ∷ []) (i % 2 ^ 32), d)
unfolding encode_string
encode_known s out d i h = ground arith

pub Codes-str :
    (n : ℕ) (s out : Bytes) (d : Dict)
    → Codes n out d (Tree.str s) (encode_string out s d).0 (encode_string out s d).1
Codes-str n s out d = elim (Option-cases (position s d)) [
  | inl fresh ↦ rw (encode_fresh s out d fresh) (
    0x05 ∷ write_varint [] (length s) ++ s,
    rw tagged (append_assoc out (0x05 ∷ write_varint [] (length s)) s),
    omega arith,
    omega (arith, length-append d (s ∷ [])),
    λ rest small.
        let parts = length-append (write_varint [] (length s)) s in
        rw (append_assoc, decode_tag_new)
          (decode_new s d rest (omega (arith, parts)) (omega arith)),
  )
  | inr (i, known) ↦ rw (encode_known s out d i known) (
    0x06 ∷ write_varint [] (i % 2 ^ 32),
    tagged 0x06 out (i % 2 ^ 32),
    omega arith,
    omega arith,
    λ rest small.
        let (there, inside) = position_found s d i known in
        let i_small : i < 2 ^ 32 = omega arith in
        rw (decode_tag_ref, mod-eq_of_lt i_small) (decode_ref s d i rest there i_small),
  )
]
