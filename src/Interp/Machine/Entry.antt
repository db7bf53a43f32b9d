-- ===== src/Interp/Machine/Entry.antt =====
-- The frame of a call, and the choice between the two instances: InterpreterExecute of
-- src/interp/interpreter.cpp. The stack that the frames of a thread share has room for the frame here.
use fakelua.Base.{
  some, ℕ, zero, suc, ◌+◌, Bool, ltb, List, [], ◌∷◌, Option, none, get_or, if◌then◌else◌,
}
use fakelua.Base.Result.{Result, ok, err}
use fakelua.Interp.Value.{Floats, Value, nil, Error, null_prototype}
use fakelua.Interp.Machine.{FuncProto, Services, Cells, Run, Outcome, returned}
use fakelua.Interp.Machine.Step.{steps}

module _ (fl : Floats) where
  open fl use {F}

  unfoldable pub clear : {A : Type 0} → A → ℕ → List A
  clear v zero = []
  clear v (suc n) = v ∷ clear v n

  -- The parameters that have an argument, nil for the others and in the other registers.
  unfoldable pub registers : ℕ → ℕ → List (Value F) → List (Value F)
  registers zero params args = []
  registers (suc n) zero args = nil ∷ registers n zero args
  registers (suc n) (suc params) args = get_or args 0 nil ∷ registers n params (rest args)
    where
      rest : List (Value F) → List (Value F)
      rest [] = []
      rest (v ∷ vs) = vs

  abbrev frame_size : FuncProto fl → ℕ
  frame_size proto =
      (if ltb proto.max_stack proto.param_count then proto.param_count else proto.max_stack) + 8

  unfoldable pub enter : {W : Type 0} → FuncProto fl → List (Value F) → Cells fl → W → Run fl W
  enter proto args cells w = record {
    ip = 0;
    frame = record {
      stk = registers (frame_size proto) proto.param_count args;
      box = clear none (frame_size proto);
      cells = cells;
    };
    world = w;
  }

  module _ {W : Type 0} (sv : Services fl W) where
    -- InterpreterExecuteT, for `n` instructions at most.
    unfoldable pub interpreter_execute_t :
        Bool → FuncProto fl → Option (List (Option ℕ)) → ℕ → Run fl W → Result Error (Outcome fl W)
    interpreter_execute_t has_boxes proto cl n run =
        elim proto.code as (λ _. Result Error (Outcome fl W)) [
          | [] ↦ ok (returned nil run)
          | _ ∷ _ ↦ steps fl sv has_boxes proto cl n run
        ]

    unfoldable pub interpreter_execute :
        Option (FuncProto fl)
        → List (Value F)
        → Option (List (Option ℕ))
        → ℕ
        → Cells fl
        → W
        → Result Error (Outcome fl W)
    interpreter_execute none args cl n cells w = err null_prototype
    interpreter_execute (some proto) args cl n cells w =
        interpreter_execute_t proto.uses_boxes proto cl n (enter proto args cells w)
