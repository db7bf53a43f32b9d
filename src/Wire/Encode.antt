-- ===== src/Wire/Encode.antt =====
-- `EncodeValue` and `WireEncode` of src/native/serialize/wire_codec.cpp. `state.depth` and
-- `state.visited` are restored on every way out, so they are passed down: the first argument is
-- `kWireMaxDepth - state.depth`. `out` and the dictionary are threaded through.
use fakelua.Base.{ℕ, zero, suc, ◌/◌, ◌%◌, ◌^◌, Bool, false, ◌||◌, Option, none, some}
use fakelua.Base.{List, [], ◌∷◌, ◌++◌, ◌==◌, if◌then◌else◌, length}
use fakelua.Base.Bytes.{same_bytes}
use fakelua.Base.Result.{Result, ok, err, ◌>>=◌}
use fakelua.Varint.{write_varint}
use fakelua.Wire.Value.{
  Bytes, Var, nil, bool, int, float, str, table, other, Heap, Error, max_depth,
}
use fakelua.Wire.Value.{encode_too_deep, cyclic_table, unsupported_type, supported_pairs}
use fakelua.Wire.Zigzag.{zigzag_encode}

-- `std::memcpy` of a double on a little-endian machine.
unfoldable pub write_double : Bytes → ℕ → Bytes
write_double out v =
    out
    ++ v % 256
      ∷ v / 2 ^ 8 % 256
      ∷ v / 2 ^ 16 % 256
      ∷ v / 2 ^ 24 % 256
      ∷ v / 2 ^ 32 % 256
      ∷ v / 2 ^ 40 % 256
      ∷ v / 2 ^ 48 % 256
      ∷ v / 2 ^ 56 % 256
      ∷ []

-- `state.dict`: the list of its keys in the order of `emplace`. The id of a key is the size that
-- the dictionary had before it, hence its position, cast to `uint32_t` by `dict_find`.
abbrev pub Dict : Type 0
Dict = List Bytes

unfoldable pub position : Bytes → Dict → Option ℕ
unfolding same_bytes
position s [] = none
position s (t ∷ d) =
    let rest = position s d in
    if same_bytes s t then some 0 else elim rest [ none ↦ none | some i ↦ some (suc i) ]

unfoldable pub dict_find : Bytes → Dict → Option ℕ
unfolding position
dict_find s d = elim (position s d) [ none ↦ none | some i ↦ some (i % 2 ^ 32) ]

unfoldable pub encode_string : Bytes → Bytes → Dict → Bytes × Dict
unfolding dict_find
encode_string out s d = elim (dict_find s d) [
  | some id ↦ (write_varint (out ++ 0x06 ∷ []) id, d)
  | none ↦ (write_varint (out ++ 0x05 ∷ []) (length s) ++ s, d ++ s ∷ [])
]

-- `state.visited.insert(t).second` is false if the table is being encoded already.
unfoldable pub visited_has : ℕ → List ℕ → Bool
visited_has t [] = false
visited_has t (u ∷ us) = t == u || visited_has t us

abbrev pub Encoded : Type 0
Encoded = Result Error (Bytes × Dict)

-- The loop over `keys` and `vals`.
unfoldable pub encode_pairs :
    (Bytes → Var → Dict → Encoded) → Bytes → List (Var × Var) → Dict → Encoded
encode_pairs enc out [] d = ok (out, d)
encode_pairs enc out ((k, v) ∷ kvs) d = do
  (out₁, d₁) ← enc out k d
  (out₂, d₂) ← enc out₁ v d₁
  encode_pairs enc out₂ kvs d₂

module _ (heap : Heap) where
  unfoldable pub encode_value : ℕ → List ℕ → Bytes → Var → Dict → Encoded
  unfolding encode_string encode_pairs visited_has write_double supported_pairs
  encode_value n visited out nil d = ok (out ++ 0x00 ∷ [], d)
  encode_value n visited out (bool b) d = ok (out ++ (if b then 0x02 else 0x01) ∷ [], d)
  encode_value n visited out (int i) d = ok (write_varint (out ++ 0x03 ∷ []) (zigzag_encode i), d)
  encode_value n visited out (float f) d = ok (write_double (out ++ 0x04 ∷ []) f, d)
  encode_value n visited out (str s) d = ok (encode_string out s d)
  encode_value n visited out (other t) d = err unsupported_type
  encode_value n visited out (table zero) d = ok (write_varint (out ++ 0x07 ∷ []) 0, d)
  encode_value zero visited out (table (suc t)) d = err encode_too_deep
  encode_value (suc n) visited out (table (suc t)) d =
      let kvs = supported_pairs (heap (suc t)) in
      let enc = encode_value n (suc t ∷ visited) in
      if visited_has (suc t) visited
      then err cyclic_table
      else encode_pairs enc (write_varint (out ++ 0x07 ∷ []) (length kvs)) kvs d

  unfoldable pub wire_encode : Var → Result Error Bytes
  unfolding encode_value
  wire_encode v = do (out, _) ← encode_value max_depth [] [] v []; ok out
