-- ===== src/Interp/Frame/Captured.antt =====
-- What FORLOOP leaves of the boxes.
use fakelua.Base.{ℕ, zero, suc, ◌+◌, ◌≡◌, refl, ap, ◌∙◌, subst}
use fakelua.Base.{Bool, true, false, none}
use fakelua.Base.{if◌then◌else◌}
use fakelua.Base.Result.{Result, ok, err, ◌>>=◌}
use fakelua.Interp.Value.{Floats, Value, nil, bool, int, float, str, table, multi, closure, Error}
use fakelua.Interp.Ops.{bin_add}
use fakelua.Interp.For.{data_i}
use fakelua.Interp.Frame.{Frame, box_of, vm_slot, vm_write, vm_write_int, fresh}
use fakelua.Interp.Frame.{vm_clear_box, round_op, range_op, by_step, for_loop_op}
use fakelua.Interp.Frame.Slots.{write_unboxed, write_int_unboxed}

module _ (fl : Floats) where
  open fl use {F}

  -- The cells are as in `fr`, if there is a result.
  abbrev Keeps : Frame fl → Result Error (Bool × Frame fl) → Type 0
  Keeps fr (ok (again, fr')) = fr'.cells ≡ fr.cells
  Keeps fr (err e) = Unit {0}

  fresh-cells :
      (has : Bool) (fr : Frame fl) (r : ℕ) (v : Value F) → (fresh fl has fr r v).cells ≡ fr.cells
  unfolding fresh vm_clear_box
  fresh-cells true fr r v = refl
  fresh-cells false fr r v = refl

  write_int-cells :
      (has : Bool) (fr : Frame fl) (r n : ℕ)
      → box_of fl has fr r ≡ none
      → (vm_write_int fl has fr r n).cells ≡ fr.cells
  write_int-cells has fr r n h = ap (λ (g : Frame fl). g.cells) (write_int_unboxed fl has fr r n h)

  box_of-write_int :
      (has : Bool) (fr : Frame fl) (r n i : ℕ)
      → box_of fl has (vm_write_int fl has fr r n) i ≡ box_of fl has fr i
  unfolding box_of vm_write_int
  box_of-write_int true fr r n i = refl
  box_of-write_int false fr r n i = refl

  module _ (has : Bool) (fr : Frame fl) (base : ℕ) (idx_unboxed : box_of fl has fr base ≡ none)
      (limit_unboxed : box_of fl has fr (base + 1) ≡ none) where
    round-Keeps : (count : ℕ) → Keeps fr (ok (round_op fl has fr base count))
    unfolding round_op
    round-Keeps zero = refl
    round-Keeps (suc count) =
        let counted = vm_write_int fl has fr (base + 1) count in
        fresh-cells has (vm_write_int fl has counted base _) (base + 3) _
        ∙ write_int-cells has counted base _
            (box_of-write_int has fr (base + 1) count base ∙ idx_unboxed)
        ∙ write_int-cells has fr (base + 1) count limit_unboxed

    chosen :
        (g : Frame fl) (v : Value F) (r : Result Error Bool)
        → g.cells ≡ fr.cells
        → Keeps fr (do again ← r; ok (again, if again then fresh fl has g (base + 3) v else g))
    chosen g v (err e) h = tt
    chosen g v (ok true) h = fresh-cells has g (base + 3) v ∙ h
    chosen g v (ok false) h = h

    added-Keeps :
        (m : Result Error (Value F))
        → Keeps fr (m >>= λ next. range_op fl has (vm_write fl has fr base next) base)
    unfolding range_op
    added-Keeps (err e) = tt
    added-Keeps (ok next) =
        chosen (vm_write fl has fr base next) _ _
          (ap (λ (g : Frame fl). g.cells) (write_unboxed fl has fr base next idx_unboxed))

    stepped-Keeps : (s : Value F) → Keeps fr (by_step fl has fr base s)
    unfolding by_step
    stepped-Keeps (int s) = round-Keeps (data_i fl (vm_slot fl has fr (base + 1)))
    stepped-Keeps nil = added-Keeps (bin_add fl (vm_slot fl has fr base) nil)
    stepped-Keeps (bool b) = added-Keeps (bin_add fl (vm_slot fl has fr base) (bool b))
    stepped-Keeps (float f) = added-Keeps (bin_add fl (vm_slot fl has fr base) (float f))
    stepped-Keeps (str s) = added-Keeps (bin_add fl (vm_slot fl has fr base) (str s))
    stepped-Keeps (table c a) = added-Keeps (bin_add fl (vm_slot fl has fr base) (table c a))
    stepped-Keeps (multi vs) = added-Keeps (bin_add fl (vm_slot fl has fr base) (multi vs))
    stepped-Keeps (closure a) = added-Keeps (bin_add fl (vm_slot fl has fr base) (closure a))

  -- When the index and the limit are not captured, FORLOOP writes to no box: what a closure captured
  -- in an earlier round keeps its value.
  pub for_loop_op_keeps_cells :
      (has : Bool) (fr fr' : Frame fl) (again : Bool) (base : ℕ)
      → box_of fl has fr base ≡ none
      → box_of fl has fr (base + 1) ≡ none
      → for_loop_op fl has fr base ≡ ok (again, fr')
      → fr'.cells ≡ fr.cells
  unfolding for_loop_op
  for_loop_op_keeps_cells has fr fr' again base i l ran =
      subst (Keeps fr) ran (stepped-Keeps has fr base i l (vm_slot fl has fr (base + 2)))
