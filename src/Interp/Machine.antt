-- ===== src/Interp/Machine.antt =====
-- The instructions and the state of src/interp/interpreter.cpp. What the handlers call outside of the
-- interpreter, tables, strings and calls, is a record of services over a world.
pub mod Compute
pub mod Handlers
pub mod Step
mod Frames
mod Loops
pub mod Entry
mod Alike
mod Opcodes
pub mod Boxless
use fakelua.Base.{
  ℕ, zero, suc, ◌+◌, ◌-◌, ◌%◌, Bool, true, false, not, ◌&&◌, ◌||◌, List, [], ◌∷◌, ◌++◌, map,
}
use fakelua.Base.{ltb, leb, ◌==◌, if◌then◌else◌, length, get_elem?, get_or, set, Option, none, some}
use fakelua.Base.Bytes.{same_bytes}
use fakelua.Base.Int.{ℤ, pos, negsuc, pos_part, neg_part}
use fakelua.Base.Result.{Result, ok, err, ◌>>=◌}
use fakelua.Interp.Value.{
  Floats, Value, Values, nil, bool, int, float, str, table, multi, closure, none_left,
}
use fakelua.Interp.Value.{
  value, Error, index_non_table, index_nil, index_nan, const_table, call_non_function,
}
use fakelua.Interp.Value.{too_many_arguments, box_missing, thrown, undefined}
use fakelua.Interp.Word.{add_word}
use fakelua.Interp.Ops.{
  bin_add, bin_sub, bin_mul, bin_div, bin_idiv, bin_mod, bin_pow, bin_band, bin_bxor,
}
use fakelua.Interp.Ops.{
  bin_bor, bin_shl, bin_shr, un_minus, un_not, un_bnot, cmp_lt, cmp_le, is_true, unbox_multi,
}
use fakelua.Interp.Frame.{Frame, box_of, vm_slot, vm_write, for_prep_op, for_loop_op}

pub data Op : Type 0 where
  op_move op_loadk op_loadnil op_loadbool op_getglobal op_setglobal op_getupval op_setupval : Op
  op_gettable op_settable op_newtable op_newbox op_add op_sub op_mul op_div op_idiv op_mod op_pow :
      Op
  op_band op_bxor op_bor op_shl op_shr op_concat op_unm op_not op_len op_bnot op_eq op_lt op_le : Op
  op_testjmp op_jmp op_call op_callname op_return op_closure op_setlist op_tabent op_tabcount : Op
  op_unbox op_makemulti op_combine op_throw op_forprep op_forloop : Op

pub record Inst : Type 0 where
  pub op : Op
  pub a : ℕ
  pub b : ℕ
  pub c : ℕ
  pub sbx : ℤ

pub record UpvalDesc : Type 0 where
  pub in_stack : Bool
  pub idx : ℕ

abbrev pub max_input_params : ℕ
max_input_params = 32

module _ (fl : Floats) where
  open fl use {F, is_nan}

  -- `child_protos` holds what CLOSURE reads of a child: its upvalues.
  pub record FuncProto : Type 0 where
    pub param_count : ℕ
    pub max_stack : ℕ
    pub uses_boxes : Bool
    pub code : List Inst
    pub constants : List (Value F)
    pub child_protos : List (List UpvalDesc)

  -- What boxes point to, and the rest of the world.
  abbrev pub Cells : Type 0
  Cells = ℕ → Value F

  abbrev pub Globals : Type 0
  Globals = List (List ℕ × Value F)

  pub record Services (W : Type 0) : Type 0 where
    pub globals : W → Globals
    pub with_globals : Globals → W → W
    pub get_table_int : Value F → ℕ → W → Result Error (Value F × W)
    pub get_table : Value F → Value F → W → Result Error (Value F × W)
    pub put_table : Value F → Value F → Value F → W → Result Error W
    pub const_alloc : W → Bool
    pub new_table : W → Value F × W
    pub alloc : W → ℕ × W
    pub is_equal : Value F → Value F → W → Bool
    pub bin_concat : Value F → Value F → W → Result Error (Value F × W)
    pub un_len : Value F → W → Result Error (Value F)
    pub table_entry : Value F → ℕ → W → Option (Value F × Value F) × W
    pub table_entry_count : Value F → W → Result Error (ℕ × W)
    pub make_closure : ℕ → List (Option ℕ) → W → Value F × W
    pub call_closure : ℕ → List (Value F) → Cells × W → Result Error (Value F × (Cells × W))
    pub call_by_name : List ℕ → List (Value F) → Cells × W → Result Error (Value F × (Cells × W))

  module _ (W : Type 0) where
    -- `ip` stands behind the instruction that is executed.
    pub record Run : Type 0 where
      pub ip : ℕ
      pub frame : Frame fl
      pub world : W

    pub data Outcome : Type 0 where
      goes_on : Run → Outcome
      returned : Value F → Run → Outcome
