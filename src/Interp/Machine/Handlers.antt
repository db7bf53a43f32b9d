-- ===== src/Interp/Machine/Handlers.antt =====
-- What an instruction does beyond reading its registers and storing a result: the macros of
-- src/interp/vm_ops.h and the longer handlers.
use fakelua.Base.{ℕ, zero, suc, ◌+◌, ◌%◌, Bool, List, [], ◌∷◌, ◌++◌}
use fakelua.Base.{ltb, ◌==◌, if◌then◌else◌, set, Option, none, some}
use fakelua.Base.Result.{Result, ok, err, ◌>>=◌}
use fakelua.Interp.Value.{Floats, Value, nil, int}
use fakelua.Interp.Value.{Error}
use fakelua.Interp.Value.{box_missing}
use fakelua.Interp.Frame.{Frame, box_of, vm_slot, vm_write}
use fakelua.Interp.Machine.{Inst, UpvalDesc, Services, Cells, Run}
use fakelua.Interp.Machine.Compute.{
  jump, index_value, callee, checked_args, named_args, store_list, word_of, keep_multi, upvalue,
}

module _ (fl : Floats) {W : Type 0} (sv : Services fl W) (has_boxes : Bool) where
  open fl use {F}

  abbrev pub slot : Frame fl → ℕ → Value F
  slot = vm_slot fl has_boxes

  abbrev pub write : Run fl W → ℕ → Value F → Run fl W
  write run r v = record run { frame = vm_write fl has_boxes run.frame r v }

  -- The values of `n` registers from `r` on.
  unfoldable pub slots : Frame fl → ℕ → ℕ → List (Value F)
  slots fr r zero = []
  slots fr r (suc n) = slot fr r ∷ slots fr (r + 1) n

  -- FL_VM_BINOP, FL_VM_UNOP, and a result that is stored as it is.
  unfoldable pub put : Run fl W → ℕ → Value F → Result Error (Run fl W)
  put run a v = ok (write run a v)

  unfoldable pub binop :
      (Value F → Value F → Result Error (Value F)) → Inst → Run fl W → Result Error (Run fl W)
  binop fn i run = fn (slot run.frame i.b) (slot run.frame i.c) >>= put run i.a

  unfoldable pub unop :
      (Value F → Result Error (Value F)) → Inst → Run fl W → Result Error (Run fl W)
  unop fn i run = fn (slot run.frame i.b) >>= put run i.a

  -- A result together with a changed world.
  unfoldable pub put_in : Run fl W → ℕ → Value F × W → Result Error (Run fl W)
  put_in run a (v, w) = put (record run { world = w }) a v

  unfoldable pub put_call : Inst → Run fl W → Value F × (Cells fl × W) → Result Error (Run fl W)
  put_call i run (v, (cells, w)) =
      let after : Run fl W = record run { frame = record run.frame { cells = cells }; world = w } in
      put after i.a (keep_multi fl (i.c == 0) v)

  unfoldable pub get_table_op : Inst → Run fl W → Result Error (Run fl W)
  get_table_op i run =
      index_value fl sv (slot run.frame i.b) (slot run.frame i.c) run.world >>= put_in run i.a

  -- A box for a register: `*box = R; boxp[r] = box`.
  unfoldable pub new_box : Run fl W → ℕ → Run fl W
  new_box run r =
      let (address, w) = sv.alloc run.world in
      record run {
        frame = record run.frame {
          box = set run.frame.box r (some address);
          cells = λ x. if x == address then slot run.frame r else run.frame.cells x;
        };
        world = w;
      }

  unfoldable pub new_box_op : Inst → Run fl W → Result Error (Run fl W)
  new_box_op i run = if has_boxes then ok (new_box run i.a) else err box_missing

  -- The box that CLOSURE takes for an upvalue in the stack: the register's, or a new one.
  unfoldable pub capture : ℕ → Run fl W → Run fl W
  capture r run = elim (box_of fl has_boxes run.frame r) [ none ↦ new_box run r | some b ↦ run ]

  unfoldable pub upbufs :
      Option (List (Option ℕ))
      → List UpvalDesc
      → List (Option ℕ)
      → Run fl W
      → Result Error (List (Option ℕ) × Run fl W)
  upbufs cl [] acc run = ok (acc, run)
  upbufs cl (uv ∷ uvs) acc run =
      if uv.in_stack
      then (if has_boxes
          then (let captured = capture uv.idx run in
              upbufs cl uvs (acc ++ box_of fl has_boxes captured.frame uv.idx ∷ []) captured)
          else err box_missing)
      else upbufs cl uvs (acc ++ upvalue fl cl uv.idx ∷ []) run

  unfoldable pub closure_made : Inst → ℕ → List (Option ℕ) × Run fl W → Result Error (Run fl W)
  closure_made i child (ups, run) = put_in run i.a (sv.make_closure child ups run.world)

  unfoldable pub call_op : Inst → Run fl W → Result Error (Run fl W)
  call_op i run = do
    cl ← callee fl (slot run.frame i.a)
    args ← checked_args fl i.b (slots run.frame (i.a + 1) i.b)
    result ← sv.call_closure cl args (run.frame.cells, run.world)
    put_call i run result

  unfoldable pub call_name_op : List ℕ → Inst → Run fl W → Result Error (Run fl W)
  call_name_op name i run = do
    args ← named_args fl i.b (slots run.frame i.a i.b)
    result ← sv.call_by_name name args (run.frame.cells, run.world)
    put_call i run result

  unfoldable pub set_world : Run fl W → W → Result Error (Run fl W)
  set_world run w = ok (record run { world = w })

  unfoldable pub set_list_op : Inst → Run fl W → Result Error (Run fl W)
  set_list_op i run =
      store_list fl sv (slot run.frame i.a) (word_of fl i.sbx) (slot run.frame i.c) run.world
      >>= set_world run

  unfoldable pub put_entry :
      Inst → Run fl W → Option (Value F × Value F) × W → Result Error (Run fl W)
  put_entry i run (none, w) = ok (write (write (record run { world = w }) i.b nil) i.c nil)
  put_entry i run (some (k, v), w) = ok (write (write (record run { world = w }) i.b k) i.c v)

  unfoldable pub put_count : Run fl W → ℕ → ℕ × W → Result Error (Run fl W)
  put_count run a (n, w) = put_in run a (int n, w)

  -- A negative index, or one that is no integer, counts as 0.
  abbrev pub entry_index : Value F → ℕ
  entry_index (int n) = if ltb n 0x8000000000000000 then n % 0x100000000 else 0
  entry_index _ = 0

  unfoldable pub jump_if : Bool → Inst → Run fl W → Result Error (Run fl W)
  jump_if test i run =
      if test then (do ip ← jump fl i.sbx run.ip; ok (record run { ip = ip })) else ok run

  unfoldable pub loop_op : Inst → Run fl W → Bool × Frame fl → Result Error (Run fl W)
  loop_op i run (jumps, fr) = jump_if jumps i (record run { frame = fr })

  unfoldable pub get_upval : Option (List (Option ℕ)) → Inst → Run fl W → Result Error (Run fl W)
  get_upval cl i run =
      put run i.a (elim (upvalue fl cl i.b) [ none ↦ nil | some x ↦ run.frame.cells x ])

  unfoldable pub set_upval : Option (List (Option ℕ)) → Inst → Run fl W → Result Error (Run fl W)
  set_upval cl i run = elim (upvalue fl cl i.b) [
    | none ↦ ok run
    | some x ↦ ok (record run {
      frame = record run.frame {
        cells = λ y. if y == x then slot run.frame i.a else run.frame.cells y;
      };
    })
  ]
