-- ===== src/Wire/Value.antt =====
-- The values that the codec of src/native/serialize/wire_codec.cpp reads (`CVar`) and makes.
use fakelua.Base.{ℕ, ◌^◌, ◌%◌, Bool, true, false, ◌&&◌, List, [], ◌∷◌, ltb, if◌then◌else◌}

-- A byte string, each byte a number.
abbrev pub Bytes : Type 0
Bytes = List ℕ

-- A `CVar` by its type. An integer is the bit pattern of its `int64_t`, a float that of its double,
-- and a table is a pointer, 0 for the null pointer. `str` stands for `String` and for `StringId`,
-- with the bytes that `CVarToStringView` gives; `other` for the types that cannot be encoded.
pub data Var : Type 0 where
  nil : Var
  bool : Bool → Var
  int : ℕ → Var
  float : ℕ → Var
  str : Bytes → Var
  table : ℕ → Var
  other : ℕ → Var

-- The pairs of the table at each address, in the order of `TableHelper::ForEachKV`.
abbrev pub Heap : Type 0
Heap = ℕ → List (Var × Var)

-- A decoded value. A table is the list of the `SetTable` calls that fill it, the first call first.
mutual
  pub data Tree : Type 0 where
    nil : Tree
    bool : Bool → Tree
    int : ℕ → Tree
    float : ℕ → Tree
    str : Bytes → Tree
    table : Pairs → Tree

  pub data Pairs : Type 0 where
    end : Pairs
    entry : Tree → Tree → Pairs → Pairs

-- The exceptions, by their messages.
pub data Error : Type 0 where
  encode_too_deep cyclic_table unsupported_type : Error
  varint_too_long truncated_varint truncated_double unexpected_end truncated_string : Error
  bad_string_ref decode_too_deep table_too_large unknown_tag trailing_bytes nan_key : Error
  bad_argument args_too_deep args_cyclic args_trailing_bytes : Error

abbrev pub max_depth : ℕ
max_depth = 64

unfoldable pub is_supported : Var → Bool
is_supported (other t) = false
is_supported _ = true

-- The pairs that the encoder keeps, of those it is shown.
unfoldable pub supported_pairs : List (Var × Var) → List (Var × Var)
unfolding is_supported
supported_pairs [] = []
supported_pairs ((k, v) ∷ kvs) =
    let rest = supported_pairs kvs in
    if is_supported k && is_supported v then (k, v) ∷ rest else rest

-- `isnan` on the bits of a double.
abbrev pub is_nan : ℕ → Bool
is_nan bits = ltb 0x7ff0_0000_0000_0000 (bits % 2 ^ 63)
