-- ===== src/Interp/Machine/Compute.antt =====
-- What the handlers of src/interp/interpreter.cpp compute on values, with the helpers of
-- src/interp/runtime.cpp that they call.
use fakelua.Base.{ℕ, suc, ◌+◌, ◌-◌, Bool, true, false, not, ◌&&◌, List, [], ◌∷◌, ◌++◌, map}
use fakelua.Base.{ltb, ◌==◌, if◌then◌else◌, length, get_elem?, get_or, Option, none, some}
use fakelua.Base.Bytes.{same_bytes}
use fakelua.Base.Int.{ℤ, pos, negsuc, pos_part, neg_part}
use fakelua.Base.Result.{Result, ok, err, ◌>>=◌}
use fakelua.Interp.Value.{
  Floats, Value, Values, nil, int, float, str, table, multi, closure, none_left,
}
use fakelua.Interp.Value.{
  value, Error, index_non_table, index_nil, index_nan, const_table, call_non_function,
}
use fakelua.Interp.Value.{too_many_arguments, undefined}
use fakelua.Interp.Word.{add_word}
use fakelua.Interp.Ops.{unbox_multi}
use fakelua.Interp.Machine.{max_input_params, Globals, Services}

-- "_VERSION", "Fakelua " and "2.0.0".
abbrev version_name : List ℕ
version_name = 95 ∷ 86 ∷ 69 ∷ 82 ∷ 83 ∷ 73 ∷ 79 ∷ 78 ∷ []

abbrev version_prefix : List ℕ
version_prefix = 70 ∷ 97 ∷ 107 ∷ 101 ∷ 108 ∷ 117 ∷ 97 ∷ 32 ∷ []

abbrev version : List ℕ
version = 50 ∷ 46 ∷ 48 ∷ 46 ∷ 48 ∷ []

module _ (fl : Floats) where
  open fl use {F, is_nan}

  unfoldable pub find_global : List ℕ → Globals fl → Value F
  find_global name [] = nil
  find_global name ((key, v) ∷ g) =
      let rest = find_global name g in if same_bytes name key then v else rest

  -- "_VERSION" names no global.
  unfoldable pub lookup_global : List ℕ → Globals fl → Value F
  lookup_global name g =
      if same_bytes name version_name then str (version_prefix ++ version) else find_global name g

  unfoldable pub set_global : List ℕ → Value F → Globals fl → Globals fl
  set_global name v [] = (name, v) ∷ []
  set_global name v ((key, old) ∷ g) =
      let rest = set_global name v g in
      if same_bytes name key then (key, v) ∷ g else (key, old) ∷ rest

  abbrev pub same_bool : Bool → Bool → Bool
  same_bool true b = b
  same_bool false b = not b

  abbrev pub const_to_name : Value F → List ℕ
  const_to_name (str s) = s
  const_to_name _ = []

  -- A jump in front of the code is undefined.
  unfoldable pub jump : ℤ → ℕ → Result Error ℕ
  jump sbx ip =
      if ltb (ip + pos_part sbx) (neg_part sbx)
      then err undefined
      else ok (ip + pos_part sbx - neg_part sbx)

  abbrev pub at_index : {A : Type 0} → List A → ℤ → Result Error A
  at_index xs (negsuc n) = err undefined
  at_index xs (pos n) = elim (get_elem? xs n) [ none ↦ err undefined | some x ↦ ok x ]

  -- SetTable of src/interp/runtime.cpp.
  unfoldable pub set_table :
      {W : Type 0} → Services fl W → Value F → Value F → Value F → W → Result Error W
  set_table sv t nil v w = elim t [ table c a ↦ err index_nil | _ ↦ err index_non_table ]
  set_table sv t k v w = elim t [
    | table c a ↦
        if elim k [ float f ↦ is_nan f | _ ↦ false ]
        then err index_nan
        else (if c && not (sv.const_alloc w)
            then err const_table
            else sv.put_table (table c a) k v w)
    | _ ↦ err index_non_table
  ]

  -- TableExpandMulti, on the values of a multi value.
  unfoldable pub expand : {W : Type 0} → Services fl W → Value F → ℕ → Values F → W → Result Error W
  expand sv t start none_left w = ok w
  expand sv t start (value v vs) w =
      set_table sv t (int start) v w >>= expand sv t (add_word start 1) vs

  abbrev to_values : List (Value F) → Values F
  to_values [] = none_left
  to_values (v ∷ vs) = value v (to_values vs)

  abbrev append_values : Values F → Values F → Values F
  append_values none_left more = more
  append_values (value v vs) more = value v (append_values vs more)

  abbrev unbox_first : List (Value F) → List (Value F)
  unbox_first vs = map (λ v. unbox_multi fl v 0) vs

  -- MakeMulti and CombineMulti.
  abbrev pub make_multi : List (Value F) → Value F
  make_multi vs = multi (to_values (unbox_first vs))

  abbrev pub combine_multi : List (Value F) → Value F → Value F
  combine_multi prefix last = multi (
      append_values (to_values (unbox_first prefix))
        (elim last [ multi vs ↦ vs | one ↦ value one none_left ]))

  abbrev list_values : Values F → List (Value F)
  list_values none_left = []
  list_values (value v vs) = v ∷ list_values vs

  -- The arguments of CALL: the last one may be several.
  unfoldable pub flatten_args : List (Value F) → List (Value F) → Result Error (List (Value F))
  flatten_args acc [] = ok acc
  flatten_args acc (v ∷ []) = elim v [
    | multi vs ↦
        if ltb max_input_params (length acc + length (list_values vs))
        then err too_many_arguments
        else ok (acc ++ list_values vs)
    | one ↦ ok (acc ++ unbox_multi fl one 0 ∷ [])
  ]
  flatten_args acc (v ∷ next ∷ vs) = flatten_args (acc ++ unbox_multi fl v 0 ∷ []) (next ∷ vs)

  abbrev pub checked_args : ℕ → List (Value F) → Result Error (List (Value F))
  checked_args n vs = if ltb max_input_params n then err too_many_arguments else flatten_args [] vs

  abbrev pub named_args : ℕ → List (Value F) → Result Error (List (Value F))
  named_args n vs = if ltb max_input_params n then err too_many_arguments else ok vs

  abbrev pub callee : Value F → Result Error ℕ
  callee (closure cl) = ok cl
  callee _ = err call_non_function

  -- GETTABLE, without its registers.
  unfoldable pub index_value :
      {W : Type 0} → Services fl W → Value F → Value F → W → Result Error (Value F × W)
  index_value sv (table c t) nil w = err index_nil
  index_value sv (table c t) (int k) w = sv.get_table_int (table c t) k w
  index_value sv (table c t) k w = sv.get_table (table c t) k w
  index_value sv t k w = err index_non_table

  -- `sbx` as an int64_t.
  abbrev pub word_of : ℤ → ℕ
  word_of (pos n) = n
  word_of (negsuc n) = 0x10000000000000000 - suc n

  unfoldable pub store_list :
      {W : Type 0} → Services fl W → Value F → ℕ → Value F → W → Result Error W
  store_list sv t start (multi vs) w = expand sv t start vs w
  store_list sv t start v w = set_table sv t (int start) v w

  -- `C` of the calls and `B` of RETURN: keep a multi value, or its first.
  abbrev pub keep_multi : Bool → Value F → Value F
  keep_multi keep v = if keep then v else unbox_multi fl v 0

  -- EQ: integers are compared at once.
  abbrev pub equal_values : {W : Type 0} → Services fl W → Value F → Value F → W → Bool
  equal_values sv (int m) (int n) w = m == n
  equal_values sv a b w = sv.is_equal a b w

  -- A register that `sbx` names.
  abbrev pub register_at : ℤ → Result Error ℕ
  register_at (pos r) = ok r
  register_at (negsuc n) = err undefined

  -- An upvalue of the closure that runs, `cl`.
  abbrev pub upvalue : Option (List (Option ℕ)) → ℕ → Option ℕ
  upvalue none i = none
  upvalue (some upvalues) i = get_or upvalues i none
