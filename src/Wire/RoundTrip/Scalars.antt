-- ===== src/Wire/RoundTrip/Scalars.antt =====
-- The values with no pointer in them.
use fakelua.Base.{ℕ, zero, suc, ◌+◌, ◌^◌, ◌≤◌, ◌<◌, ◌≡◌, refl, ap, ◌∙◌, arith}
use fakelua.Base.{[], ◌∷◌, ◌++◌, append_assoc, length, Bool, true, false, if◌then◌else◌}
use fakelua.Base.Result.{ok}
use fakelua.Varint.{write_varint}
use fakelua.Varint.Groups.{write_varint-append}
use fakelua.Varint.RoundTrip.{read_varint-write_varint}
use fakelua.Wire.Value.{Bytes, Tree, truncated_varint, varint_too_long}
use fakelua.Wire.Zigzag.{zigzag_encode, zigzag_decode-zigzag_encode}
use fakelua.Wire.Encode.{write_double, Dict}
use fakelua.Wire.Decode.{read_number, read_double, decode_int, decode_double, decode_value}

-- From `out` and `d` to `out'` and `d'` the encoder wrote a code, which the decoder reads as `t`,
-- ending with the encoder's dictionary.
abbrev pub Codes : ℕ → Bytes → Dict → Tree → Bytes → Dict → Type 0
Codes n out d t out' d' =
    (code : Bytes) × (out' ≡ out ++ code)
    × (1 ≤ length code)
    × (length d' ≤ length d + length code)
    × ((rest : Bytes)
        → length d + length code < 2 ^ 32
        → decode_value n (code ++ rest) d ≡ ok (t, rest, d'))

pub read_number-write_varint :
    (v : ℕ) (rest : Bytes) → v < 2 ^ 64 → read_number (write_varint [] v ++ rest) ≡ ok (v, rest)
read_number-write_varint v rest h =
    read_varint-write_varint truncated_varint varint_too_long v rest h

pub tagged :
    (tag : ℕ) (out : Bytes) (v : ℕ)
    → write_varint (out ++ tag ∷ []) v ≡ out ++ (tag ∷ write_varint [] v)
tagged tag out v = write_varint-append (out ++ tag ∷ []) v ∙ append_assoc out (tag ∷ []) _

pub Codes-nil : (n : ℕ) (out : Bytes) (d : Dict) → Codes n out d Tree.nil (out ++ 0x00 ∷ []) d
unfolding decode_value
Codes-nil zero out d = (0x00 ∷ [], refl, omega arith, omega arith, λ rest h. refl)
Codes-nil (suc n) out d = (0x00 ∷ [], refl, omega arith, omega arith, λ rest h. refl)

pub Codes-bool :
    (n : ℕ) (b : Bool) (out : Bytes) (d : Dict)
    → Codes n out d (Tree.bool b) (out ++ (if b then 0x02 else 0x01) ∷ []) d
unfolding decode_value
Codes-bool zero true out d = (0x02 ∷ [], refl, omega arith, omega arith, λ rest h. refl)
Codes-bool zero false out d = (0x01 ∷ [], refl, omega arith, omega arith, λ rest h. refl)
Codes-bool (suc n) true out d = (0x02 ∷ [], refl, omega arith, omega arith, λ rest h. refl)
Codes-bool (suc n) false out d = (0x01 ∷ [], refl, omega arith, omega arith, λ rest h. refl)

decode_tag_int : (n : ℕ) (src : Bytes) (d : Dict) → decode_value n (0x03 ∷ src) d ≡ decode_int src d
unfolding decode_value
decode_tag_int zero src d = refl
decode_tag_int (suc n) src d = refl

decode_tag_double :
    (n : ℕ) (src : Bytes) (d : Dict) → decode_value n (0x04 ∷ src) d ≡ decode_double src d
unfolding decode_value
decode_tag_double zero src d = refl
decode_tag_double (suc n) src d = refl

pub Codes-int :
    (n i : ℕ) (out : Bytes) (d : Dict)
    → i < 2 ^ 64
    → Codes n out d (Tree.int i) (write_varint (out ++ 0x03 ∷ []) (zigzag_encode i)) d
unfolding decode_int
Codes-int n i out d h =
    let (back, fits) = zigzag_decode-zigzag_encode i h in
    (
      0x03 ∷ write_varint [] (zigzag_encode i),
      tagged 0x03 out (zigzag_encode i),
      omega arith,
      omega arith,
      λ rest small. rw (decode_tag_int, read_number-write_varint (zigzag_encode i) rest fits, back),
    )

pub Codes-float :
    (n f : ℕ) (out : Bytes) (d : Dict)
    → f < 2 ^ 64
    → Codes n out d (Tree.float f) (write_double (out ++ 0x04 ∷ []) f) d
unfolding decode_double read_double write_double
Codes-float n f out d h = (
  0x04 ∷ write_double [] f,
  append_assoc out (0x04 ∷ []) _,
  omega arith,
  omega arith,
  λ rest small. rw decode_tag_double (ap (λ (t : ℕ). ok (Tree.float t, rest, d)) (omega arith)),
)
