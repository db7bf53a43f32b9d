-- ===== src/Wire/Decode.antt =====
-- `DecodeValue` and `WireDecode` of src/native/serialize/wire_codec.cpp. The pair of `in` and `pos`
-- is the list of the bytes from `pos` on, and `state.depth`, restored on every way out, is the first
-- argument as `kWireMaxDepth - state.depth`. The dictionary is the list of its strings.
use fakelua.Base.{ℕ, zero, suc, ◌+◌, ◌*◌, ◌/◌, ◌%◌, ◌^◌, Bool, true, false}
use fakelua.Base.{Option, none, some, List, [], ◌∷◌, ◌++◌, ◌==◌, ltb, if◌then◌else◌}
use fakelua.Base.{length, take, drop, get_elem?, get_or}
use fakelua.Base.Result.{Result, ok, err, ◌>>=◌, ◌>>◌, throw_if}
use fakelua.Varint.{read_varint}
use fakelua.Wire.Value.{Bytes, Tree, Pairs, end, entry, Error, max_depth, is_nan}
use fakelua.Wire.Value.{unexpected_end, truncated_varint, varint_too_long, truncated_double}
use fakelua.Wire.Value.{truncated_string, bad_string_ref, decode_too_deep, table_too_large}
use fakelua.Wire.Value.{unknown_tag, trailing_bytes, nan_key}
use fakelua.Wire.Zigzag.{zigzag_decode}

abbrev pub Decoded : Type 0 → Type 0
Decoded A = Result Error (A × Bytes × List Bytes)

abbrev pub read_number : Bytes → Result Error (ℕ × Bytes)
read_number = read_varint truncated_varint varint_too_long

unfoldable pub read_double : Bytes → Result Error (ℕ × Bytes)
read_double (b₀ ∷ b₁ ∷ b₂ ∷ b₃ ∷ b₄ ∷ b₅ ∷ b₆ ∷ b₇ ∷ rest) = ok (
  b₀
      + 2 ^ 8 * b₁
      + 2 ^ 16 * b₂
      + 2 ^ 24 * b₃
      + 2 ^ 32 * b₄
      + 2 ^ 40 * b₅
      + 2 ^ 48 * b₆
      + 2 ^ 56 * b₇,
  rest,
)
read_double _ = err truncated_double

unfoldable pub decode_string_new : Bytes → List Bytes → Decoded Tree
decode_string_new src d = do
  (len, rest) ← read_number src
  throw_if (ltb (length rest) len) truncated_string
  let s = take len rest
  ok (Tree.str (get_or (d ++ s ∷ []) (length d % 2 ^ 32) s), drop len rest, d ++ s ∷ [])

string_at : Option Bytes → Bytes → List Bytes → Decoded Tree
string_at none rest d = err bad_string_ref
string_at (some s) rest d = ok (Tree.str s, rest, d)

unfoldable pub decode_string_ref : Bytes → List Bytes → Decoded Tree
unfolding string_at
decode_string_ref src d = do (id, rest) ← read_number src; string_at (get_elem? d id) rest d

abbrev pub key_is_nan : Tree → Bool
key_is_nan (Tree.float f) = is_nan f
key_is_nan _ = false

-- `for (i = 0; i < count; ++i)`; `SetTable` throws on a NaN key.
unfoldable pub decode_pairs :
    (Bytes → List Bytes → Decoded Tree) → ℕ → Bytes → List Bytes → Decoded Pairs
decode_pairs dec zero src d = ok (end, src, d)
decode_pairs dec (suc count) src d = do
  (k, src₁, d₁) ← dec src d
  (v, src₂, d₂) ← dec src₁ d₁
  throw_if (key_is_nan k) nan_key
  (kvs, src₃, d₃) ← decode_pairs dec count src₂ d₂
  ok (entry k v kvs, src₃, d₃)

unfoldable pub decode_table :
    (Bytes → List Bytes → Decoded Tree) → Bytes → List Bytes → Decoded Tree
unfolding decode_pairs
decode_table dec src d = do
  (count, rest) ← read_number src
  throw_if (ltb (length rest / 2) count) table_too_large
  (kvs, rest₁, d₁) ← decode_pairs dec count rest d
  ok (Tree.table kvs, rest₁, d₁)

unfoldable pub decode_int : Bytes → List Bytes → Decoded Tree
decode_int src d = do (u, rest) ← read_number src; ok (Tree.int (zigzag_decode u), rest, d)

unfoldable pub decode_double : Bytes → List Bytes → Decoded Tree
unfolding read_double
decode_double src d = do (f, rest) ← read_double src; ok (Tree.float f, rest, d)

-- The cases of the tag, the table's handed in.
pub decode_payload : (Bytes → List Bytes → Decoded Tree) → ℕ → Bytes → List Bytes → Decoded Tree
unfolding decode_string_new decode_string_ref decode_int decode_double
decode_payload decode_tbl tag src d =
    if tag == 0x00
    then ok (Tree.nil, src, d)
    else (if tag == 0x01
        then ok (Tree.bool false, src, d)
        else (if tag == 0x02
            then ok (Tree.bool true, src, d)
            else (if tag == 0x03
                then decode_int src d
                else (if tag == 0x04
                    then decode_double src d
                    else (if tag == 0x05
                        then decode_string_new src d
                        else (if tag == 0x06
                            then decode_string_ref src d
                            else (if tag == 0x07 then decode_tbl src d else err unknown_tag)))))))

unfoldable pub decode_value : ℕ → Bytes → List Bytes → Decoded Tree
unfolding decode_payload decode_table
decode_value n [] d = err unexpected_end
decode_value zero (tag ∷ src) d = decode_payload (λ _ _. err decode_too_deep) tag src d
decode_value (suc n) (tag ∷ src) d = decode_payload (decode_table (decode_value n)) tag src d

pub all_consumed : Tree × Bytes × List Bytes → Result Error Tree
all_consumed (t, [], d) = ok t
all_consumed (t, b ∷ bs, d) = err trailing_bytes

unfoldable pub wire_decode : Bytes → Result Error Tree
unfolding decode_value all_consumed
wire_decode src = decode_value max_depth src [] >>= all_consumed
