-- ===== src/Interp/Tests.antt =====
-- Runs of the interpreter's numbers, and the theorems about them at concrete inputs.
use fakelua.Base.{ℕ, ◌+◌, ◌*◌, ◌-◌, ◌^◌, ◌≡◌, refl, arith, true, false, ltb, leb}
use fakelua.Base.{some, none, ◌==◌, [], ◌∷◌}
use fakelua.Base.Int.{◌-ℤ◌, pos, negsuc, ◌+ℤ◌, ◌*ℤ◌, ◌≤ℤ◌}
use fakelua.Base.Result.{Result, ok, err, ◌>>=◌}
use fakelua.Base.{ℕ}
use fakelua.Interp.Value.{
  Floats, Value, Error, int, nil, str, for_step_zero, non_numeric, undefined,
}
use fakelua.Interp.Word.{
  signed, add_word, floor_div_quotient, mod_word, shift_left, shift_right, neg_word,
}
use fakelua.Interp.Word.Floor.{FloorDivides}
use fakelua.Interp.Word.Division.{Defined, floor_div_quotient-mod_word}
use fakelua.Interp.Word.{of_signed}
use fakelua.Interp.Word.Overflow.{mod_product_overflows}
use fakelua.Interp.Word.Shift.{shift_left-neg_word}
use fakelua.Interp.For.Integer.{run_for, nth_round, for_visits}
use fakelua.Interp.Ops.{check_num, bin_add, is_true, unbox_multi}
use fakelua.Interp.For.{for_prep, for_loop, data_i}
use fakelua.Interp.Frame.{
  Frame, box_of, for_loop_op, by_step, round_op, vm_slot, vm_write, vm_write_int, fresh,
  vm_clear_box,
}
use fakelua.Interp.Frame.{through, store}
use fakelua.Interp.Machine.{
  FuncProto, Services, Outcome, returned, op_loadk, op_add, op_testjmp, op_return,
}
use fakelua.Interp.Machine.Compute.{jump}
use fakelua.Interp.Machine.Handlers.{put, binop, jump_if}
use fakelua.Interp.Machine.Step.{handler, execute, step, steps, going}
use fakelua.Interp.Machine.Entry.{
  interpreter_execute, interpreter_execute_t, enter, registers, clear,
}
use fakelua.Interp.Machine.Boxless.{interpreter_execute-CapturesNone}
use fakelua.Interp.Frame.Loop.{regs_at, for_loop_op-for_loop}
use fakelua.Interp.Frame.Captured.{for_loop_op_keeps_cells}

-- Doubles that are whole numbers from 0 on, and all finite.
abbrev whole_floats : Floats
whole_floats = record {
  F = ℕ;
  of_int = λ n. n;
  to_int = λ n. n;
  add = λ a b. a + b;
  sub = λ a b. a - b;
  mul = λ a b. a * b;
  div = λ a b. a;
  pow = λ a b. a ^ b;
  neg = λ a. a;
  floor = λ a. a;
  ceil = λ a. a;
  modf = λ a. (0, a);
  lt = ltb;
  le = leb;
  eq = λ a b. a == b;
  is_nan = λ a. false;
  is_finite = λ a. true;
  zero_float = 0;
  two_63 = 2 ^ 63;
  minus_two_63 = 0;
}

-- -7 // 2 is -4, and -7 % 2 is 1.
seven_halves : floor_div_quotient (2 ^ 64 - 7) 2 ≡ 2 ^ 64 - 4
unfolding floor_div_quotient
seven_halves = refl

floor_div_quotient-mod_word_example :
    Defined
      (λ r.
        FloorDivides
          (signed (2 ^ 64 - 7))
          (signed 2)
          (signed (floor_div_quotient (2 ^ 64 - 7) 2))
          (signed r))
      (mod_word (2 ^ 64 - 7) 2)
unfolding floor_div_quotient ◌*ℤ◌
floor_div_quotient-mod_word_example =
    floor_div_quotient-mod_word (2 ^ 64 - 7) 2 (omega arith) (omega arith) (omega arith)
      (omega arith, omega arith)

-- -7 % 2 is 1; the product overflows for the least integer and 3, and for the greatest and -2.
odd_remainder : mod_word (2 ^ 64 - 7) 2 ≡ some 1
unfolding mod_word of_signed ◌*ℤ◌ ◌-ℤ◌
odd_remainder = refl

least_by_three : mod_word (2 ^ 63) 3 ≡ none
unfolding mod_word of_signed ◌*ℤ◌
least_by_three = refl

greatest_by_minus_two : mod_word (2 ^ 63 - 1) (2 ^ 64 - 2) ≡ none
unfolding mod_word of_signed ◌*ℤ◌
greatest_by_minus_two = refl

mod_product_overflows_example :
    signed 3 *ℤ signed (floor_div_quotient (2 ^ 63) 3) +ℤ pos 1 ≤ℤ signed (2 ^ 63)
mod_product_overflows_example = mod_product_overflows 3 (omega arith) (omega arith) (omega arith)

shift_left-neg_word_example : shift_left 40 (neg_word 3) ≡ shift_right 40 3
shift_left-neg_word_example = shift_left-neg_word 40 3 (omega arith) (omega arith)

-- for i = -1, 5, 3: the third round has 5, and there is no fourth.
for_visits_example : run_for whole_floats 2 (int (2 ^ 64 - 1)) (int 5) (int 3) ≡ ok (some (int 5))
for_visits_example =
    for_visits whole_floats 2 (2 ^ 64 - 1) 5 3 (omega arith) (omega arith) (omega arith)
      (omega arith)

no_fourth_round : run_for whole_floats 3 (int (2 ^ 64 - 1)) (int 5) (int 3) ≡ ok none
unfolding run_for nth_round for_prep for_loop check_num
no_fourth_round = refl

step_of_zero : run_for whole_floats 0 (int 1) (int 5) (int 0) ≡ err for_step_zero
unfolding run_for nth_round for_prep for_loop check_num
step_of_zero = refl

no_number : run_for whole_floats 0 (int 1) (str []) (int 1) ≡ err non_numeric
unfolding run_for nth_round for_prep for_loop check_num
no_number = refl

-- A loop that stands at 4, with three rounds to go and the step 2; a closure captured its variable.
abbrev captured : Frame whole_floats
captured = record {
  stk = int 4 ∷ int 3 ∷ int 2 ∷ int 4 ∷ [];
  box = none ∷ none ∷ none ∷ some 7 ∷ [];
  cells = λ a. int 4;
}

abbrev advanced : Frame whole_floats
advanced = record {
  stk = int 6 ∷ int 2 ∷ int 2 ∷ int 6 ∷ [];
  box = none ∷ none ∷ none ∷ none ∷ [];
  cells = λ a. int 4;
}

captured_round : for_loop_op whole_floats true captured 0 ≡ ok (true, advanced)
unfolding for_loop_op by_step round_op vm_slot vm_write_int fresh vm_clear_box box_of through store
    data_i add_word
captured_round = refl

for_loop_op-for_loop_example :
    (do
      (again, fr') ← for_loop_op whole_floats true captured 0
      ok (again, regs_at whole_floats true fr' 0))
    ≡ for_loop whole_floats (regs_at whole_floats true captured 0)
unfolding box_of
for_loop_op-for_loop_example =
    for_loop_op-for_loop whole_floats true captured 0 refl refl (omega arith) (omega arith)

for_loop_op_keeps_cells_example : advanced.cells ≡ captured.cells
unfolding box_of
for_loop_op_keeps_cells_example =
    for_loop_op_keeps_cells whole_floats true captured advanced true 0 refl refl captured_round

-- A world without globals, tables or functions.
abbrev bare : Services whole_floats (Unit {0})
bare = record {
  globals = λ w. [];
  with_globals = λ g w. w;
  get_table_int = λ t k w. err undefined;
  get_table = λ t k w. err undefined;
  put_table = λ t k v w. err undefined;
  const_alloc = λ w. false;
  new_table = λ w. (nil, w);
  alloc = λ w. (0, w);
  is_equal = λ a b w. false;
  bin_concat = λ a b w. err undefined;
  un_len = λ v w. err undefined;
  table_entry = λ t i w. (none, w);
  table_entry_count = λ t w. err undefined;
  make_closure = λ child ups w. (nil, w);
  call_closure = λ cl args w. err undefined;
  call_by_name = λ name args w. err undefined;
}

-- R(1) = K(0); R(1) = R(0) + R(1); and back to the first while it is not true; return R(1).
abbrev adds : FuncProto whole_floats
adds = record {
  param_count = 1;
  max_stack = 2;
  uses_boxes = false;
  code =
      record { op = op_loadk; a = 1; b = 0; c = 0; sbx = pos 0 }
      ∷ record { op = op_add; a = 1; b = 0; c = 1; sbx = pos 0 }
      ∷ record { op = op_testjmp; a = 1; b = 0; c = 0; sbx = negsuc 2 }
      ∷ record { op = op_return; a = 1; b = 1; c = 0; sbx = pos 0 }
      ∷ [];
  constants = int 21 ∷ [];
  child_protos = [];
}

interpreter_execute-CapturesNone_example :
    interpreter_execute whole_floats bare (some adds) (int 21 ∷ []) none 4 (λ a. nil) tt
    ≡ interpreter_execute_t whole_floats bare true adds none 4
        (enter whole_floats adds (int 21 ∷ []) (λ a. nil) tt)
interpreter_execute-CapturesNone_example =
    interpreter_execute-CapturesNone whole_floats bare adds (int 21 ∷ []) none 4 (λ a. nil) tt
      ((refl, (refl, (refl, (refl, tt)))), tt)

result : Result Error (Outcome whole_floats (Unit {0})) → Value ℕ
result (ok (returned v run)) = v
result _ = nil

-- 21 + 21.
added :
    result (interpreter_execute whole_floats bare (some adds) (int 21 ∷ []) none 4 (λ a. nil) tt)
    ≡ int 42
unfolding interpreter_execute interpreter_execute_t enter registers clear steps step execute going
    handler binop put jump_if jump vm_slot vm_write box_of store add_word result bin_add is_true
    unbox_multi
added = refl
