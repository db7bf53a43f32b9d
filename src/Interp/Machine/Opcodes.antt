-- ===== src/Interp/Machine/Opcodes.antt =====
-- Each handler of src/interp/interpreter.cpp does the same in both instances where no register has a box.
use fakelua.Base.{ℕ, zero, suc, ◌+◌, ◌≡◌, refl, Bool, true, false, not, List, [], ◌∷◌, All}
use fakelua.Base.{Option, none, some, get_elem?, ◌==◌, arith}
use fakelua.Base.Int.{ℤ, pos, negsuc, pos_part}
use fakelua.Base.Result.{Result, ok, err, ◌>>=◌}
use fakelua.Interp.Value.{Floats, Value, nil, bool, thrown, undefined, Error}
use fakelua.Interp.Ops.{
  bin_add, bin_sub, bin_mul, bin_div, bin_idiv, bin_mod, bin_pow, bin_band, bin_bxor,
}
use fakelua.Interp.Ops.{bin_bor, bin_shl, bin_shr, un_minus, un_bnot, cmp_lt, cmp_le, is_true}
use fakelua.Interp.Frame.{vm_slot}
use fakelua.Interp.Machine.{Inst, FuncProto, Services, Run}
use fakelua.Interp.Machine.Compute.{at_index}
use fakelua.Interp.Machine.Compute.{same_bool, set_table, const_to_name, register_at}
use fakelua.Interp.Machine.{
  Op, op_move, op_loadk, op_loadnil, op_loadbool, op_getglobal, op_setglobal, op_getupval,
  op_setupval, op_gettable, op_settable, op_newtable, op_newbox, op_add, op_sub, op_mul, op_div,
  op_idiv, op_mod, op_pow, op_band, op_bxor, op_bor, op_shl, op_shr, op_concat, op_unm, op_not,
  op_len, op_bnot, op_eq, op_lt, op_le, op_testjmp, op_jmp, op_call, op_callname, op_return,
  op_closure, op_setlist, op_tabent, op_tabcount, op_unbox, op_makemulti, op_combine, op_throw,
  op_forprep, op_forloop,
}
use fakelua.Interp.Machine.Handlers.{entry_index, get_upval}
use fakelua.Interp.Machine.Step.{handler}
use fakelua.Interp.Machine.Frames.{Holds, bind-Agree, then-Agree, NoBoxes, slot_same}
use fakelua.Interp.Machine.Loops.{for_prep_op_same, for_loop_op_same}
use fakelua.Interp.Machine.Alike.{
  Unboxed, RunAgree, put_same, slots_same, binop_same, unop_same, put_in_same, get_table_op_same,
  call_op_same, call_name_op_same, world_same, set_list_op_same, put_entry_same, put_count_same,
  same_run, jump_if_same, loop_op_same, set_upval_same, upbufs_same, closure_made_same,
}

abbrev pub captures : Op → Bool
captures op_newbox = true
captures _ = false

abbrev pub CapturesNone : {fl : Floats} → FuncProto fl → Type 0
CapturesNone proto =
    All (λ i. captures i.op ≡ false) proto.code
    × All (All (λ uv. uv.in_stack ≡ false)) proto.child_protos

module _ (fl : Floats) {W : Type 0} (sv : Services fl W) where
  open fl use {F}

  pub get_elem?-All :
      {A : Type 0} (P : A → Type 0) (xs : List A) (n : ℕ)
      → All P xs
      → elim (get_elem? xs n) as (λ _. Type 0) [ none ↦ Unit {0} | some x ↦ P x ]
  get_elem?-All P [] n all = tt
  get_elem?-All P (x ∷ xs) zero (p, all) = p
  get_elem?-All P (x ∷ xs) (suc n) (p, all) = get_elem?-All P xs n all

  at_index-Holds :
      {A : Type 0} (P : A → Type 0) (xs : List A) (i : ℤ) → All P xs → Holds P (at_index fl xs i)
  at_index-Holds P xs (negsuc n) all = tt
  at_index-Holds {A = A} P xs (pos n) all = on_element (get_elem? xs n) (get_elem?-All P xs n all)
    where
      on_element :
          (o : Option A)
          → elim o as (λ _. Type 0) [ none ↦ Unit {0} | some x ↦ P x ]
          → Holds P (elim o [ none ↦ err undefined | some x ↦ ok x ])
      on_element none h = tt
      on_element (some x) h = h

  get_upval_same :
      (cl : Option (List (Option ℕ))) (i : Inst) (run : Run fl W)
      → NoBoxes fl run.frame
      → RunAgree fl sv (get_upval fl sv true cl i run) (get_upval fl sv false cl i run)
  unfolding get_upval
  get_upval_same cl i run unboxed = put_same fl sv run i.a _ unboxed

  closure_op_same :
      (proto : FuncProto fl) (cl : Option (List (Option ℕ))) (i : Inst) (run : Run fl W)
      → All (All (λ uv. uv.in_stack ≡ false)) proto.child_protos
      → NoBoxes fl run.frame
      → RunAgree fl sv
          (handler fl sv true proto cl i run op_closure)
          (handler fl sv false proto cl i run op_closure)
  unfolding handler
  closure_op_same proto cl i run outer unboxed =
      then-Agree (All (λ uv. uv.in_stack ≡ false)) (Unboxed fl sv) _ _ _ _
        (refl, at_index-Holds _ proto.child_protos i.sbx outer)
        (λ uvs all.
          then-Agree (λ (made : List (Option ℕ) × Run fl W). NoBoxes fl made.1.frame)
            (Unboxed fl sv) _ _ _ _ (upbufs_same fl sv cl uvs [] run unboxed all)
            (λ made unboxed'. closure_made_same fl sv i (pos_part i.sbx) made unboxed'))

  pub handler_same :
      (proto : FuncProto fl) (cl : Option (List (Option ℕ))) (i : Inst) (run : Run fl W) (op : Op)
      → CapturesNone proto
      → captures op ≡ false
      → NoBoxes fl run.frame
      → RunAgree fl sv
          (handler fl sv true proto cl i run op)
          (handler fl sv false proto cl i run op)
  unfolding handler
  handler_same proto cl i run op_move none_captured h unboxed =
      rw (slot_same fl run.frame i.b unboxed) (put_same fl sv run i.a _ unboxed)
  handler_same proto cl i run op_loadk none_captured h unboxed =
      bind-Agree _ _ _ (at_index fl proto.constants i.sbx) (λ k. put_same fl sv run i.a k unboxed)
  handler_same proto cl i run op_loadnil none_captured h unboxed =
      put_same fl sv run i.a nil unboxed
  handler_same proto cl i run op_loadbool none_captured h unboxed =
      put_same fl sv run i.a (bool (not (i.b == 0))) unboxed
  handler_same proto cl i run op_getglobal none_captured h unboxed =
      bind-Agree _ _ _ (at_index fl proto.constants i.sbx) (λ k. put_same fl sv run i.a _ unboxed)
  handler_same proto cl i run op_setglobal none_captured h unboxed =
      rw (slot_same fl run.frame i.a unboxed)
        (bind-Agree (Unboxed fl sv) _ _ (at_index fl proto.constants i.sbx) (λ k. (refl, unboxed)))
  handler_same proto cl i run op_getupval none_captured h unboxed = get_upval_same cl i run unboxed
  handler_same proto cl i run op_setupval none_captured h unboxed =
      set_upval_same fl sv cl i run unboxed
  handler_same proto cl i run op_gettable none_captured h unboxed =
      get_table_op_same fl sv i run unboxed
  handler_same proto cl i run op_settable none_captured h unboxed =
      rw
        (
          slot_same fl run.frame i.a unboxed,
          slot_same fl run.frame i.b unboxed,
          slot_same fl run.frame i.c unboxed,
        )
        (world_same fl sv run
          (set_table fl sv (vm_slot fl false run.frame i.a) (vm_slot fl false run.frame i.b)
            (vm_slot fl false run.frame i.c) run.world)
          unboxed)
  handler_same proto cl i run op_newtable none_captured h unboxed =
      put_in_same fl sv run i.a _ unboxed
  handler_same proto cl i run op_newbox none_captured h unboxed = absurd (ground arith)
  handler_same proto cl i run op_add none_captured h unboxed =
      binop_same fl sv (bin_add fl) i run unboxed
  handler_same proto cl i run op_sub none_captured h unboxed =
      binop_same fl sv (bin_sub fl) i run unboxed
  handler_same proto cl i run op_mul none_captured h unboxed =
      binop_same fl sv (bin_mul fl) i run unboxed
  handler_same proto cl i run op_div none_captured h unboxed =
      binop_same fl sv (bin_div fl) i run unboxed
  handler_same proto cl i run op_idiv none_captured h unboxed =
      binop_same fl sv (bin_idiv fl) i run unboxed
  handler_same proto cl i run op_mod none_captured h unboxed =
      binop_same fl sv (bin_mod fl) i run unboxed
  handler_same proto cl i run op_pow none_captured h unboxed =
      binop_same fl sv (bin_pow fl) i run unboxed
  handler_same proto cl i run op_band none_captured h unboxed =
      binop_same fl sv (bin_band fl) i run unboxed
  handler_same proto cl i run op_bxor none_captured h unboxed =
      binop_same fl sv (bin_bxor fl) i run unboxed
  handler_same proto cl i run op_bor none_captured h unboxed =
      binop_same fl sv (bin_bor fl) i run unboxed
  handler_same proto cl i run op_shl none_captured h unboxed =
      binop_same fl sv (bin_shl fl) i run unboxed
  handler_same proto cl i run op_shr none_captured h unboxed =
      binop_same fl sv (bin_shr fl) i run unboxed
  handler_same proto cl i run op_concat none_captured h unboxed =
      rw (slot_same fl run.frame i.b unboxed, slot_same fl run.frame i.c unboxed)
        (bind-Agree _ _ _
          (sv.bin_concat (vm_slot fl false run.frame i.b) (vm_slot fl false run.frame i.c)
            run.world)
          (λ r. put_in_same fl sv run i.a r unboxed))
  handler_same proto cl i run op_unm none_captured h unboxed =
      unop_same fl sv (un_minus fl) i run unboxed
  handler_same proto cl i run op_not none_captured h unboxed =
      rw (slot_same fl run.frame i.b unboxed) (put_same fl sv run i.a _ unboxed)
  handler_same proto cl i run op_len none_captured h unboxed =
      unop_same fl sv (λ v. sv.un_len v run.world) i run unboxed
  handler_same proto cl i run op_bnot none_captured h unboxed =
      unop_same fl sv (un_bnot fl) i run unboxed
  handler_same proto cl i run op_eq none_captured h unboxed =
      rw (slot_same fl run.frame i.b unboxed, slot_same fl run.frame i.c unboxed)
        (put_same fl sv run i.a _ unboxed)
  handler_same proto cl i run op_lt none_captured h unboxed =
      binop_same fl sv (cmp_lt fl) i run unboxed
  handler_same proto cl i run op_le none_captured h unboxed =
      binop_same fl sv (cmp_le fl) i run unboxed
  handler_same proto cl i run op_testjmp none_captured h unboxed =
      rw (slot_same fl run.frame i.a unboxed) (
        jump_if_same fl sv
          (same_bool fl (is_true fl (vm_slot fl false run.frame i.a)) (not (i.b == 0))) i run
          unboxed)
  handler_same proto cl i run op_jmp none_captured h unboxed = jump_if_same fl sv true i run unboxed
  handler_same proto cl i run op_call none_captured h unboxed = call_op_same fl sv i run unboxed
  handler_same proto cl i run op_callname none_captured h unboxed =
      bind-Agree _ _ _ (at_index fl proto.constants i.sbx)
        (λ k. call_name_op_same fl sv (const_to_name fl k) i run unboxed)
  handler_same proto cl i run op_return none_captured h unboxed = (refl, tt)
  handler_same proto cl i run op_closure none_captured h unboxed =
      closure_op_same proto cl i run none_captured.1 unboxed
  handler_same proto cl i run op_setlist none_captured h unboxed =
      set_list_op_same fl sv i run unboxed
  handler_same proto cl i run op_tabent none_captured h unboxed =
      bind-Agree _ _ _ (register_at fl i.sbx) (λ r.
        rw (slot_same fl run.frame i.a unboxed, slot_same fl run.frame r unboxed)
          (put_entry_same fl sv i run
            (sv.table_entry (vm_slot fl false run.frame i.a)
              (entry_index fl sv true (vm_slot fl false run.frame r)) run.world)
            unboxed))
  handler_same proto cl i run op_tabcount none_captured h unboxed =
      rw (slot_same fl run.frame i.b unboxed) (
        bind-Agree _ _ _ (sv.table_entry_count (vm_slot fl false run.frame i.b) run.world)
          (λ n. put_count_same fl sv run i.a n unboxed))
  handler_same proto cl i run op_unbox none_captured h unboxed =
      rw (slot_same fl run.frame i.b unboxed) (put_same fl sv run i.a _ unboxed)
  handler_same proto cl i run op_makemulti none_captured h unboxed =
      rw (slots_same fl sv run.frame i.a i.b unboxed) (put_same fl sv run i.a _ unboxed)
  handler_same proto cl i run op_combine none_captured h unboxed =
      rw (slots_same fl sv run.frame i.a i.b unboxed, slot_same fl run.frame (i.a + i.b) unboxed)
        (put_same fl sv run i.a _ unboxed)
  handler_same proto cl i run op_throw none_captured h unboxed =
      same_run fl sv (at_index fl proto.constants i.sbx >>= λ k. err (thrown (const_to_name fl k)))
        (throws (at_index fl proto.constants i.sbx))
    where
      throws :
          (r : Result Error (Value F))
          → Holds (Unboxed fl sv) (r >>= λ k. err (thrown (const_to_name fl k)))
      throws (ok k) = tt
      throws (err e) = tt
  handler_same proto cl i run op_forprep none_captured h unboxed =
      loop_op_same fl sv i run _ _ (for_prep_op_same fl run.frame i.a unboxed)
  handler_same proto cl i run op_forloop none_captured h unboxed =
      loop_op_same fl sv i run _ _ (for_loop_op_same fl run.frame i.a unboxed)
