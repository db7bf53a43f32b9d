-- ===== src/Interp/Frame.antt =====
-- The registers of a call, some of them in boxes: `VmSlot`, `VmWrite`, `VmWriteInt` and `VmClearBox` of
-- src/interp/vm_ops.h, and the FORPREP and FORLOOP handlers of src/interp/interpreter.cpp on them.
pub mod Slots
pub mod Loop
pub mod Captured
use fakelua.Base.{ℕ, zero, suc, ◌+◌, ◌-◌, ◌≤◌, ◌<◌, ◌≡◌, Bool, true, false, Option, none, some}
use fakelua.Base.{List, [], ◌∷◌, ◌==◌, if◌then◌else◌, length, get_or, set}
use fakelua.Base.Result.{Result, ok, err, ◌>>=◌}
use fakelua.Interp.Value.{Floats, Value, nil, int, Error}
use fakelua.Interp.Word.{add_word}
use fakelua.Interp.Ops.{bin_add}
use fakelua.Interp.For.{ForRegs, for_prep, for_loop_in_range, data_i}

module _ (fl : Floats) where
  open fl use {F}

  -- `stk`, `box`, and the values that the boxes point to. A box is an address.
  pub record Frame : Type 0 where
    pub stk : List (Value F)
    pub box : List (Option ℕ)
    pub cells : ℕ → Value F

  -- The box of a register; `HasBoxes` is the template's parameter.
  unfoldable pub box_of : Bool → Frame → ℕ → Option ℕ
  box_of true fr r = get_or fr.box r none
  box_of false fr r = none

  unfoldable pub through : Option ℕ → (ℕ → Value F) → Value F → Value F
  through none cells v = v
  through (some b) cells v = cells b

  unfoldable pub vm_slot : Bool → Frame → ℕ → Value F
  unfolding through
  vm_slot has_boxes fr r = through (box_of has_boxes fr r) fr.cells (get_or fr.stk r nil)

  unfoldable pub store : Option ℕ → Value F → (ℕ → Value F) → ℕ → Value F
  store none v cells = cells
  store (some b) v cells = λ a. if a == b then v else cells a

  unfoldable pub vm_write : Bool → Frame → ℕ → Value F → Frame
  unfolding store
  vm_write has_boxes fr r v = record fr {
    stk = set fr.stk r v;
    cells = store (box_of has_boxes fr r) v fr.cells;
  }

  unfoldable pub vm_write_int : Bool → Frame → ℕ → ℕ → Frame
  vm_write_int has_boxes fr r n = record fr {
    stk = set fr.stk r (int n);
    cells = store (box_of has_boxes fr r) (int n) fr.cells;
  }

  unfoldable pub vm_clear_box : Bool → Frame → ℕ → Frame
  vm_clear_box true fr r = record fr { box = set fr.box r none }
  vm_clear_box false fr r = fr

  -- `stk[r] = v;` and the box cleared: a new variable.
  unfoldable pub fresh : Bool → Frame → ℕ → Value F → Frame
  fresh has_boxes fr r v = vm_clear_box has_boxes (record fr { stk = set fr.stk r v }) r

  unfoldable pub prep_frame : Bool → Frame → ℕ → Bool × ForRegs fl → Bool × Frame
  prep_frame has_boxes fr base (true, r) = (true, fresh has_boxes fr (base + 3) r.loopvar)
  prep_frame has_boxes fr base (false, r) =
      let fr₁ = vm_write has_boxes fr base r.idx in
      let fr₂ = vm_write has_boxes fr₁ (base + 1) r.limit in
      let fr₃ = vm_write has_boxes fr₂ (base + 2) r.step in
      (false, fresh has_boxes fr₃ (base + 3) r.loopvar)

  -- FORPREP: true jumps over the loop.
  unfoldable pub for_prep_op : Bool → Frame → ℕ → Result Error (Bool × Frame)
  for_prep_op has_boxes fr base = do
    r ←
        for_prep fl (vm_slot has_boxes fr base) (vm_slot has_boxes fr (base + 1))
          (vm_slot has_boxes fr (base + 2))
    ok (prep_frame has_boxes fr base r)

  -- The integer path, by the count. The references are read again after a write.
  unfoldable pub round_op : Bool → Frame → ℕ → ℕ → Bool × Frame
  round_op has_boxes fr base zero = (false, fr)
  round_op has_boxes fr base (suc count) =
      let fr₁ = vm_write_int has_boxes fr (base + 1) count in
      let newidx : ℕ =
        add_word (data_i fl (vm_slot has_boxes fr₁ base))
          (data_i fl (vm_slot has_boxes fr₁ (base + 2))) in
      let fr₂ = vm_write_int has_boxes fr₁ base newidx in
      (true, fresh has_boxes fr₂ (base + 3) (get_or fr₂.stk base nil))

  unfoldable pub range_op : Bool → Frame → ℕ → Result Error (Bool × Frame)
  range_op has_boxes fr base = do
    again ←
        for_loop_in_range fl (vm_slot has_boxes fr base) (vm_slot has_boxes fr (base + 1))
          (vm_slot has_boxes fr (base + 2))
    ok (again, if again then fresh has_boxes fr (base + 3) (vm_slot has_boxes fr base) else fr)

  unfoldable pub by_step : Bool → Frame → ℕ → Value F → Result Error (Bool × Frame)
  by_step has_boxes fr base (int s) =
      ok (round_op has_boxes fr base (data_i fl (vm_slot has_boxes fr (base + 1))))
  by_step has_boxes fr base step = do
    next ← bin_add fl (vm_slot has_boxes fr base) step
    range_op has_boxes (vm_write has_boxes fr base next) base

  -- FORLOOP: true jumps back to the body.
  unfoldable pub for_loop_op : Bool → Frame → ℕ → Result Error (Bool × Frame)
  for_loop_op has_boxes fr base = by_step has_boxes fr base (vm_slot has_boxes fr (base + 2))
