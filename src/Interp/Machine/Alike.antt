-- ===== src/Interp/Machine/Alike.antt =====
-- What the handlers of src/interp/interpreter.cpp are made of, where no register has a box.
use fakelua.Base.{
  ℕ, zero, suc, ◌+◌, ◌≡◌, refl, ap, ap₂, ◌∙◌, Bool, true, false, List, [], ◌∷◌, ◌++◌, All,
}
use fakelua.Base.{Option, none, some, if◌then◌else◌, ◌==◌}
use fakelua.Base.Result.{Result, ok, err, ◌>>=◌}
use fakelua.Interp.Value.{Floats, Value, nil, int, Error}
use fakelua.Interp.Frame.{Frame, vm_slot, vm_write}
use fakelua.Interp.Machine.{Inst, UpvalDesc, Services, Cells, Run}
use fakelua.Interp.Machine.Compute.{upvalue}
use fakelua.Interp.Machine.Compute.{
  jump, index_value, callee, checked_args, named_args, store_list, word_of,
}
use fakelua.Interp.Machine.Handlers.{set_world}
use fakelua.Interp.Machine.Handlers.{
  put, binop, unop, put_in, put_call, slots, upbufs, closure_made, call_op, call_name_op,
}
use fakelua.Interp.Machine.Handlers.{
  set_list_op, put_entry, put_count, jump_if, loop_op, set_upval, get_table_op,
}
use fakelua.Interp.Machine.Frames.{
  Holds, Agree, bind-Agree, then-Agree, NoBoxes, slot_same, write_same,
}

module _ (fl : Floats) {W : Type 0} (sv : Services fl W) where
  open fl use {F}

  abbrev pub Unboxed : Run fl W → Type 0
  Unboxed run = NoBoxes fl run.frame

  -- Two results of a handler.
  abbrev pub RunAgree : Result Error (Run fl W) → Result Error (Run fl W) → Type 0
  RunAgree x y = Agree Unboxed x y

  pub put_same :
      (run : Run fl W) (a : ℕ) (v : Value F)
      → Unboxed run
      → RunAgree (put fl sv true run a v) (put fl sv false run a v)
  unfolding put vm_write
  put_same run a v unboxed =
      (ap (λ f. ok (record run { frame = f })) (write_same fl run.frame a v unboxed), unboxed)

  pub slots_same :
      (fr : Frame fl) (r n : ℕ) → NoBoxes fl fr → slots fl sv true fr r n ≡ slots fl sv false fr r n
  unfolding slots
  slots_same fr r zero unboxed = refl
  slots_same fr r (suc n) unboxed =
      ap₂ (λ v vs. v ∷ vs) (slot_same fl fr r unboxed) (slots_same fr (r + 1) n unboxed)

  pub binop_same :
      (fn : Value F → Value F → Result Error (Value F)) (i : Inst) (run : Run fl W)
      → Unboxed run
      → RunAgree (binop fl sv true fn i run) (binop fl sv false fn i run)
  unfolding binop
  binop_same fn i run unboxed =
      rw (slot_same fl run.frame i.b unboxed, slot_same fl run.frame i.c unboxed)
        (bind-Agree Unboxed _ _
          (fn (vm_slot fl false run.frame i.b) (vm_slot fl false run.frame i.c))
          (λ v. put_same run i.a v unboxed))

  pub unop_same :
      (fn : Value F → Result Error (Value F)) (i : Inst) (run : Run fl W)
      → Unboxed run
      → RunAgree (unop fl sv true fn i run) (unop fl sv false fn i run)
  unfolding unop
  unop_same fn i run unboxed = rw (slot_same fl run.frame i.b unboxed) (
      bind-Agree Unboxed _ _ (fn (vm_slot fl false run.frame i.b))
        (λ v. put_same run i.a v unboxed))

  pub put_in_same :
      (run : Run fl W) (a : ℕ) (r : Value F × W)
      → Unboxed run
      → RunAgree (put_in fl sv true run a r) (put_in fl sv false run a r)
  unfolding put_in
  put_in_same run a (v, w) unboxed = put_same (record run { world = w }) a v unboxed

  pub put_call_same :
      (i : Inst) (run : Run fl W) (r : Value F × (Cells fl × W))
      → Unboxed run
      → RunAgree (put_call fl sv true i run r) (put_call fl sv false i run r)
  unfolding put_call
  put_call_same i run (v, (cells, w)) unboxed =
      put_same (record run { frame = record run.frame { cells = cells }; world = w }) i.a _ unboxed

  pub get_table_op_same :
      (i : Inst) (run : Run fl W)
      → Unboxed run
      → RunAgree (get_table_op fl sv true i run) (get_table_op fl sv false i run)
  unfolding get_table_op
  get_table_op_same i run unboxed =
      rw (slot_same fl run.frame i.b unboxed, slot_same fl run.frame i.c unboxed)
        (bind-Agree Unboxed _ _
          (index_value fl sv (vm_slot fl false run.frame i.b) (vm_slot fl false run.frame i.c)
            run.world)
          (λ r. put_in_same run i.a r unboxed))

  pub call_op_same :
      (i : Inst) (run : Run fl W)
      → Unboxed run
      → RunAgree (call_op fl sv true i run) (call_op fl sv false i run)
  unfolding call_op
  call_op_same i run unboxed =
      rw (slot_same fl run.frame i.a unboxed, slots_same run.frame (i.a + 1) i.b unboxed)
        (bind-Agree Unboxed _ _ (callee fl (vm_slot fl false run.frame i.a)) (λ cl.
          bind-Agree Unboxed _ _ (checked_args fl i.b (slots fl sv false run.frame (i.a + 1) i.b))
            (λ args.
              bind-Agree Unboxed _ _ (sv.call_closure cl args (run.frame.cells, run.world))
                (λ r. put_call_same i run r unboxed))))

  pub call_name_op_same :
      (name : List ℕ) (i : Inst) (run : Run fl W)
      → Unboxed run
      → RunAgree (call_name_op fl sv true name i run) (call_name_op fl sv false name i run)
  unfolding call_name_op
  call_name_op_same name i run unboxed = rw (slots_same run.frame i.a i.b unboxed) (
      bind-Agree Unboxed _ _ (named_args fl i.b (slots fl sv false run.frame i.a i.b)) (λ args.
        bind-Agree Unboxed _ _ (sv.call_by_name name args (run.frame.cells, run.world))
          (λ r. put_call_same i run r unboxed)))

  -- What leaves the registers as they are.
  pub same_run : (r : Result Error (Run fl W)) → Holds Unboxed r → RunAgree r r
  same_run r unboxed = (refl, unboxed)

  pub world_same :
      (run : Run fl W) (w : Result Error W)
      → Unboxed run
      → RunAgree (w >>= set_world fl sv true run) (w >>= set_world fl sv false run)
  unfolding set_world
  world_same run (ok w) unboxed = (refl, unboxed)
  world_same run (err e) unboxed = (refl, tt)

  pub set_list_op_same :
      (i : Inst) (run : Run fl W)
      → Unboxed run
      → RunAgree (set_list_op fl sv true i run) (set_list_op fl sv false i run)
  unfolding set_list_op
  set_list_op_same i run unboxed =
      rw (slot_same fl run.frame i.a unboxed, slot_same fl run.frame i.c unboxed)
        (world_same run
          (store_list fl sv (vm_slot fl false run.frame i.a) (word_of fl i.sbx)
            (vm_slot fl false run.frame i.c) run.world)
          unboxed)

  pub two_writes_same :
      (i : Inst) (run : Run fl W) (k v : Value F)
      → Unboxed run
      → RunAgree
          (ok (record run { frame = vm_write fl true (vm_write fl true run.frame i.b k) i.c v }))
          (ok (record run { frame = vm_write fl false (vm_write fl false run.frame i.b k) i.c v }))
  unfolding vm_write
  two_writes_same i run k v unboxed = (
    ap (λ f. ok (record run { frame = vm_write fl true f i.c v }))
          (write_same fl run.frame i.b k unboxed)
        ∙ ap (λ f. ok (record run { frame = f }))
            (write_same fl (vm_write fl false run.frame i.b k) i.c v unboxed),
    unboxed,
  )

  pub put_entry_same :
      (i : Inst) (run : Run fl W) (o : Option (Value F × Value F) × W)
      → Unboxed run
      → RunAgree (put_entry fl sv true i run o) (put_entry fl sv false i run o)
  unfolding put_entry
  put_entry_same i run (none, w) unboxed =
      two_writes_same i (record run { world = w }) nil nil unboxed
  put_entry_same i run (some (k, v), w) unboxed =
      two_writes_same i (record run { world = w }) k v unboxed

  pub put_count_same :
      (run : Run fl W) (a : ℕ) (n : ℕ × W)
      → Unboxed run
      → RunAgree (put_count fl sv true run a n) (put_count fl sv false run a n)
  unfolding put_count
  put_count_same run a (n, w) unboxed = put_in_same run a (int n, w) unboxed

  pub jump_if_same :
      (test : Bool) (i : Inst) (run : Run fl W)
      → Unboxed run
      → RunAgree (jump_if fl sv true test i run) (jump_if fl sv false test i run)
  unfolding jump_if
  jump_if_same true i run unboxed = jumped (jump fl i.sbx run.ip)
    where
      jumped :
          (r : Result Error ℕ)
          → RunAgree
              (r >>= λ ip. ok (record run { ip = ip }))
              (r >>= λ ip. ok (record run { ip = ip }))
      jumped (ok ip) = (refl, unboxed)
      jumped (err e) = (refl, tt)
  jump_if_same false i run unboxed = (refl, unboxed)

  pub loop_op_same :
      (i : Inst) (run : Run fl W) (x y : Result Error (Bool × Frame fl))
      → Agree (λ (out : Bool × Frame fl). NoBoxes fl out.1) x y
      → RunAgree (x >>= loop_op fl sv true i run) (y >>= loop_op fl sv false i run)
  unfolding loop_op
  loop_op_same i run x y same =
      then-Agree (λ (out : Bool × Frame fl). NoBoxes fl out.1) Unboxed _ _ x y same
        (λ (jumps, fr) unboxed. jump_if_same jumps i (record run { frame = fr }) unboxed)

  pub set_upval_same :
      (cl : Option (List (Option ℕ))) (i : Inst) (run : Run fl W)
      → Unboxed run
      → RunAgree (set_upval fl sv true cl i run) (set_upval fl sv false cl i run)
  unfolding set_upval
  set_upval_same cl i run unboxed = on_box (upvalue fl cl i.b)
    where
      stored : ℕ → Value F → Result Error (Run fl W)
      stored x v = ok (record run {
        frame = record run.frame { cells = λ y. if y == x then v else run.frame.cells y };
      })

      on_box :
          (o : Option ℕ)
          → RunAgree
              (elim o [ none ↦ ok run | some x ↦ stored x (vm_slot fl true run.frame i.a) ])
              (elim o [ none ↦ ok run | some x ↦ stored x (vm_slot fl false run.frame i.a) ])
      on_box none = (refl, unboxed)
      on_box (some x) = (ap (stored x) (slot_same fl run.frame i.a unboxed), unboxed)

  pub upbufs_same :
      (cl : Option (List (Option ℕ))) (uvs : List UpvalDesc) (acc : List (Option ℕ))
      (run : Run fl W)
      → Unboxed run
      → All (λ uv. uv.in_stack ≡ false) uvs
      → Agree
          (λ (made : List (Option ℕ) × Run fl W). Unboxed made.1)
          (upbufs fl sv true cl uvs acc run)
          (upbufs fl sv false cl uvs acc run)
  unfolding upbufs
  upbufs_same cl [] acc run unboxed all = (refl, unboxed)
  upbufs_same cl (uv ∷ uvs) acc run unboxed (outer, all) =
      rw outer (upbufs_same cl uvs (acc ++ upvalue fl cl uv.idx ∷ []) run unboxed all)

  pub closure_made_same :
      (i : Inst) (child : ℕ) (made : List (Option ℕ) × Run fl W)
      → Unboxed made.1
      → RunAgree (closure_made fl sv true i child made) (closure_made fl sv false i child made)
  unfolding closure_made
  closure_made_same i child (ups, run) unboxed =
      put_in_same run i.a (sv.make_closure child ups run.world) unboxed
