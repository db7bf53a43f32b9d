-- ===== src/Interp/Machine/Boxless.antt =====
-- Code that captures no register of its frame runs alike in the two instances of the interpreter of
-- src/interp/interpreter.cpp: the one with boxes is for the protos of which `uses_boxes` is true.
use fakelua.Base.{ℕ, zero, suc, ◌+◌, ◌≡◌, refl, sym, ap, Bool, true, false, List, [], ◌∷◌}
use fakelua.Base.{Option, none, some, get_elem?, get_or}
use fakelua.Base.Result.{Result, ok, err}
use fakelua.Interp.Value.{Floats, Value, nil, undefined, Error}
use fakelua.Interp.Machine.{Inst, FuncProto, Services, Cells, Run, Outcome, goes_on, returned}
use fakelua.Interp.Machine.{Op, op_return}
use fakelua.Interp.Machine.Step.{execute, step, steps, going}
use fakelua.Interp.Machine.Entry.{interpreter_execute, interpreter_execute_t, enter, clear}
use fakelua.Interp.Machine.Frames.{Holds, Agree, then-Agree, NoBoxes, slot_same}
use fakelua.Interp.Machine.Alike.{Unboxed, RunAgree}
use fakelua.Interp.Machine.Opcodes.{CapturesNone, captures, handler_same, get_elem?-All}

module _ (fl : Floats) {W : Type 0} (sv : Services fl W) where
  open fl use {F}

  -- Two outcomes, and no box in the run that goes on.
  abbrev Going : Outcome fl W → Type 0
  Going (goes_on run) = NoBoxes fl run.frame
  Going (returned v run) = Unit {0}

  abbrev OutcomeAgree : Result Error (Outcome fl W) → Result Error (Outcome fl W) → Type 0
  OutcomeAgree x y = Agree Going x y

  going_same :
      (x y : Result Error (Run fl W))
      → RunAgree fl sv x y
      → OutcomeAgree (going fl sv true x) (going fl sv false y)
  unfolding going
  going_same x y (same, holds) = (ap (going fl sv false) same, on_run y holds)
    where
      on_run :
          (r : Result Error (Run fl W))
          → Holds (Unboxed fl sv) r
          → Holds Going (going fl sv false r)
      on_run (ok run) unboxed = unboxed
      on_run (err e) h = tt

  execute_same :
      (proto : FuncProto fl) (cl : Option (List (Option ℕ))) (i : Inst) (run : Run fl W) (op : Op)
      → CapturesNone proto
      → captures op ≡ false
      → NoBoxes fl run.frame
      → OutcomeAgree (execute fl sv true proto cl i run op) (execute fl sv false proto cl i run op)
  unfolding execute
  execute_same proto cl i run op_return none_captured h unboxed =
      rw (slot_same fl run.frame i.a unboxed) (refl, tt)
  execute_same proto cl i run op none_captured h unboxed =
      going_same _ _ (handler_same fl sv proto cl i run op none_captured h unboxed)

  step_same :
      (proto : FuncProto fl) (cl : Option (List (Option ℕ))) (run : Run fl W)
      → CapturesNone proto
      → NoBoxes fl run.frame
      → OutcomeAgree (step fl sv true proto cl run) (step fl sv false proto cl run)
  unfolding step
  step_same proto cl run none_captured unboxed =
      at_code (get_elem? proto.code run.ip)
        (get_elem?-All fl sv _ proto.code run.ip none_captured.0)
    where
      next : Run fl W
      next = record run { ip = run.ip + 1 }

      at_code :
          (o : Option Inst)
          → elim o as (λ _. Type 0) [ none ↦ Unit {0} | some i ↦ captures i.op ≡ false ]
          → OutcomeAgree
              (elim o [ none ↦ err undefined | some i ↦ execute fl sv true proto cl i next i.op ])
              (elim o [ none ↦ err undefined | some i ↦ execute fl sv false proto cl i next i.op ])
      at_code none h = (refl, tt)
      at_code (some i) h = execute_same proto cl i next i.op none_captured h unboxed

  later_same :
      (proto : FuncProto fl) (cl : Option (List (Option ℕ))) (n : ℕ) (run : Run fl W)
      → ((next : Run fl W)
          → NoBoxes fl next.frame
          → steps fl sv true proto cl n next ≡ steps fl sv false proto cl n next)
      → CapturesNone proto
      → NoBoxes fl run.frame
      → steps fl sv true proto cl (suc n) run ≡ steps fl sv false proto cl (suc n) run
  unfolding steps
  later_same proto cl n run same_after none_captured unboxed =
      (then-Agree Going (λ _. Unit {0}) (continue true) (continue false) _ _
        (step_same proto cl run none_captured unboxed) rest).0
    where
      continue : Bool → Outcome fl W → Result Error (Outcome fl W)
      continue has outcome = elim outcome as (λ _. Result Error (Outcome fl W)) [
        | goes_on next ↦ steps fl sv has proto cl n next
        | returned v last ↦ ok (returned v last)
      ]

      anything : (r : Result Error (Outcome fl W)) → Holds (λ _. Unit {0}) r
      anything (ok outcome) = tt
      anything (err e) = tt

      rest :
          (outcome : Outcome fl W)
          → Going outcome
          → Agree (λ _. Unit {0}) (continue true outcome) (continue false outcome)
      rest (goes_on next) unboxed' = (same_after next unboxed', anything _)
      rest (returned v last) going = (refl, tt)

  pub steps_boxless :
      (proto : FuncProto fl) (cl : Option (List (Option ℕ))) (n : ℕ) (run : Run fl W)
      → CapturesNone proto
      → NoBoxes fl run.frame
      → steps fl sv true proto cl n run ≡ steps fl sv false proto cl n run
  unfolding steps
  steps_boxless proto cl zero run none_captured unboxed = refl
  steps_boxless proto cl (suc n) run none_captured unboxed =
      later_same proto cl n run
        (λ next unboxed'. steps_boxless proto cl n next none_captured unboxed') none_captured
        unboxed

  clear-none : {A : Type 0} (n r : ℕ) → get_or (clear fl {A = Option A} none n) r none ≡ none
  unfolding clear
  clear-none zero r = refl
  clear-none (suc n) zero = refl
  clear-none (suc n) (suc r) = clear-none n r

  interpreter_execute_t_same :
      (proto : FuncProto fl) (cl : Option (List (Option ℕ))) (n : ℕ) (run : Run fl W)
      (has_boxes : Bool)
      → CapturesNone proto
      → NoBoxes fl run.frame
      → interpreter_execute_t fl sv has_boxes proto cl n run
        ≡ interpreter_execute_t fl sv true proto cl n run
  unfolding interpreter_execute_t
  interpreter_execute_t_same proto cl n run true none_captured unboxed = refl
  interpreter_execute_t_same proto cl n run false none_captured unboxed =
      ap
        (λ outcome. elim proto.code as (λ _. Result Error (Outcome fl W)) [
          | [] ↦ ok (returned nil run)
          | _ ∷ _ ↦ outcome
        ])
        (sym (steps_boxless proto cl n run none_captured unboxed))

  -- Where no register is captured, InterpreterExecute gives what the instance with boxes gives, whichever of
  -- the two `uses_boxes` selects.
  pub interpreter_execute-CapturesNone :
      (proto : FuncProto fl) (args : List (Value F)) (cl : Option (List (Option ℕ))) (n : ℕ)
      (cells : Cells fl) (w : W)
      → CapturesNone proto
      → interpreter_execute fl sv (some proto) args cl n cells w
        ≡ interpreter_execute_t fl sv true proto cl n (enter fl proto args cells w)
  unfolding interpreter_execute enter
  interpreter_execute-CapturesNone proto args cl n cells w none_captured =
      interpreter_execute_t_same proto cl n (enter fl proto args cells w) proto.uses_boxes
        none_captured (λ r. clear-none _ r)
