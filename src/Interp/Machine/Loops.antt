-- ===== src/Interp/Machine/Loops.antt =====
-- FORPREP and FORLOOP of src/interp/interpreter.cpp on registers that have no box.
use fakelua.Base.{ℕ, zero, suc, ◌+◌, ◌≡◌, refl, sym, ap, ap₂, subst, ◌∙◌, Bool, true, false}
use fakelua.Base.{get_or, if◌then◌else◌}
use fakelua.Base.Result.{ok}
use fakelua.Interp.Value.{Floats, Value, nil, int}
use fakelua.Interp.For.{ForRegs, for_prep, for_loop_in_range, data_i}
use fakelua.Interp.Ops.{bin_add}
use fakelua.Interp.Word.{add_word}
use fakelua.Interp.Frame.{for_prep_op, for_loop_op, prep_frame, by_step, round_op, range_op}
use fakelua.Interp.Frame.{Frame, vm_slot, vm_write, vm_write_int, vm_clear_box, fresh}
use fakelua.Interp.Machine.Frames.{
  Agree, bind-Agree, NoBoxes, slot_same, write_same, write_int_same, fresh_same,
}

module _ (fl : Floats) where
  open fl use {F}

  for_frames :
      (base : ℕ) (fr : Frame fl) (r : Bool × ForRegs fl)
      → NoBoxes fl fr
      → Agree
          (λ (out : Bool × Frame fl). NoBoxes fl out.1)
          (ok (prep_frame fl true fr base r))
          (ok (prep_frame fl false fr base r))
  unfolding prep_frame fresh vm_clear_box vm_write
  for_frames base fr (true, r) unboxed =
      (ap (λ out. ok (true, out)) (fresh_same fl fr (base + 3) r.loopvar unboxed), unboxed)
  for_frames base fr (false, r) unboxed = (
    ap
          (λ out. ok (
            false,
            fresh fl true
                (vm_write fl true (vm_write fl true out (base + 1) r.limit) (base + 2) r.step)
                (base + 3) r.loopvar,
          ))
          (write_same fl fr base r.idx unboxed)
        ∙ ap
            (λ out.
              ok (
                false,
                fresh fl true (vm_write fl true out (base + 2) r.step) (base + 3) r.loopvar,
              ))
            (write_same fl (written fr base r.idx) (base + 1) r.limit unboxed)
        ∙ ap (λ out. ok (false, fresh fl true out (base + 3) r.loopvar))
            (write_same fl (written (written fr base r.idx) (base + 1) r.limit) (base + 2) r.step
              unboxed)
        ∙ ap (λ out. ok (false, out))
            (fresh_same fl
              (written (written (written fr base r.idx) (base + 1) r.limit) (base + 2) r.step)
              (base + 3) r.loopvar unboxed),
    unboxed,
  )
    where
      written : Frame fl → ℕ → Value F → Frame fl
      written fr' i v = vm_write fl false fr' i v

  pub for_prep_op_same :
      (fr : Frame fl) (base : ℕ)
      → NoBoxes fl fr
      → Agree
          (λ (out : Bool × Frame fl). NoBoxes fl out.1)
          (for_prep_op fl true fr base)
          (for_prep_op fl false fr base)
  unfolding for_prep_op
  for_prep_op_same fr base unboxed =
      rw
        (
          slot_same fl fr base unboxed,
          slot_same fl fr (base + 1) unboxed,
          slot_same fl fr (base + 2) unboxed,
        )
        (bind-Agree _ _ _
          (for_prep fl (vm_slot fl false fr base) (vm_slot fl false fr (base + 1))
            (vm_slot fl false fr (base + 2)))
          (λ r. for_frames base fr r unboxed))

  -- A round after the count is stored.
  advance : Bool → ℕ → Frame fl → Bool × Frame fl
  advance has base fr =
      let newidx : ℕ =
        add_word (data_i fl (vm_slot fl has fr base)) (data_i fl (vm_slot fl has fr (base + 2))) in
      let fr₂ = vm_write_int fl has fr base newidx in
      (true, fresh fl has fr₂ (base + 3) (get_or fr₂.stk base nil))

  advance_same :
      (base : ℕ) (fr : Frame fl)
      → NoBoxes fl fr
      → (advance true base fr ≡ advance false base fr) × NoBoxes fl (advance false base fr).1
  unfolding advance fresh vm_clear_box vm_write_int
  advance_same base fr unboxed = (
    ap₂ (λ x y. stored true (add_word (data_i fl x) (data_i fl y))) (slot_same fl fr base unboxed)
          (slot_same fl fr (base + 2) unboxed)
        ∙ ap (λ (out : Frame fl). (true, fresh fl true out (base + 3) (get_or out.stk base nil)))
            (write_int_same fl fr base _ unboxed)
        ∙ ap (λ (out : Frame fl). (true, out)) (fresh_same fl _ (base + 3) _ unboxed),
    unboxed,
  )
    where
      stored : Bool → ℕ → Bool × Frame fl
      stored has n =
          let fr₂ = vm_write_int fl has fr base n in
          (true, fresh fl has fr₂ (base + 3) (get_or fr₂.stk base nil))

  round_op_same :
      (fr : Frame fl) (base count : ℕ)
      → NoBoxes fl fr
      → (round_op fl true fr base count ≡ round_op fl false fr base count)
        × NoBoxes fl (round_op fl false fr base count).1
  unfolding round_op advance vm_write_int
  round_op_same fr base zero unboxed = (refl, unboxed)
  round_op_same fr base (suc count) unboxed = (
    ap (advance true base) (write_int_same fl fr (base + 1) count unboxed)
        ∙ (advance_same base (counted false) unboxed).0,
    (advance_same base (counted false) unboxed).1,
  )
    where
      counted : Bool → Frame fl
      counted has = vm_write_int fl has fr (base + 1) count

  range_op_same :
      (fr : Frame fl) (base : ℕ)
      → NoBoxes fl fr
      → Agree
          (λ (out : Bool × Frame fl). NoBoxes fl out.1)
          (range_op fl true fr base)
          (range_op fl false fr base)
  unfolding range_op fresh vm_clear_box
  range_op_same fr base unboxed =
      rw
        (
          slot_same fl fr base unboxed,
          slot_same fl fr (base + 1) unboxed,
          slot_same fl fr (base + 2) unboxed,
        )
        (bind-Agree _ _ _
          (for_loop_in_range fl (vm_slot fl false fr base) (vm_slot fl false fr (base + 1))
            (vm_slot fl false fr (base + 2)))
          again)
    where
      again :
          (jumps : Bool)
          → Agree
              (λ (out : Bool × Frame fl). NoBoxes fl out.1)
              (ok (
                jumps,
                if jumps then fresh fl true fr (base + 3) (vm_slot fl false fr base) else fr,
              ))
              (ok (
                jumps,
                if jumps then fresh fl false fr (base + 3) (vm_slot fl false fr base) else fr,
              ))
      again true = (
        ap (λ out. ok (true, out)) (fresh_same fl fr (base + 3) (vm_slot fl false fr base) unboxed),
        unboxed,
      )
      again false = (refl, unboxed)

  by_step_same :
      (fr : Frame fl) (base : ℕ) (step : Value F)
      → NoBoxes fl fr
      → Agree
          (λ (out : Bool × Frame fl). NoBoxes fl out.1)
          (by_step fl true fr base step)
          (by_step fl false fr base step)
  unfolding by_step vm_write
  by_step_same fr base (int s) unboxed = rw (slot_same fl fr (base + 1) unboxed) (
    ap ok (round_op_same fr base (data_i fl (vm_slot fl false fr (base + 1))) unboxed).0,
    (round_op_same fr base (data_i fl (vm_slot fl false fr (base + 1))) unboxed).1,
  )
  by_step_same fr base step unboxed =
      rw (slot_same fl fr base unboxed)
        (bind-Agree _ _ _ (bin_add fl (vm_slot fl false fr base) step) (λ next. after_add next))
    where
      after_add :
          (next : Value F)
          → Agree
              (λ (out : Bool × Frame fl). NoBoxes fl out.1)
              (range_op fl true (vm_write fl true fr base next) base)
              (range_op fl false (vm_write fl false fr base next) base)
      after_add next =
          subst
            (λ f.
              Agree (λ (out : Bool × Frame fl). NoBoxes fl out.1) (range_op fl true f base)
                (range_op fl false (vm_write fl false fr base next) base))
            (sym (write_same fl fr base next unboxed))
            (range_op_same (vm_write fl false fr base next) base unboxed)

  pub for_loop_op_same :
      (fr : Frame fl) (base : ℕ)
      → NoBoxes fl fr
      → Agree
          (λ (out : Bool × Frame fl). NoBoxes fl out.1)
          (for_loop_op fl true fr base)
          (for_loop_op fl false fr base)
  unfolding for_loop_op
  for_loop_op_same fr base unboxed =
      rw (slot_same fl fr (base + 2) unboxed)
        (by_step_same fr base (vm_slot fl false fr (base + 2)) unboxed)
