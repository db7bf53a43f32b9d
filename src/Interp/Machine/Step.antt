-- ===== src/Interp/Machine/Step.antt =====
-- One instruction, and a sequence of them.
use fakelua.Base.{ℕ, zero, suc, ◌+◌, Bool, true, not, List, []}
use fakelua.Base.{◌==◌, get_elem?, Option, none, some}
use fakelua.Base.Int.{pos_part}
use fakelua.Base.Result.{Result, ok, err, ◌>>=◌}
use fakelua.Interp.Value.{Floats, Value, nil, bool}
use fakelua.Interp.Value.{Error}
use fakelua.Interp.Value.{thrown, undefined}
use fakelua.Interp.Ops.{
  bin_add, bin_sub, bin_mul, bin_div, bin_idiv, bin_mod, bin_pow, bin_band, bin_bxor,
}
use fakelua.Interp.Ops.{
  bin_bor, bin_shl, bin_shr, un_minus, un_not, un_bnot, cmp_lt, cmp_le, is_true, unbox_multi,
}
use fakelua.Interp.Frame.{vm_slot, for_prep_op, for_loop_op}
use fakelua.Interp.Machine.{Op, Inst, FuncProto, Services, Run, Outcome, goes_on, returned}
use fakelua.Interp.Machine.Compute.{
  const_to_name, same_bool, at_index, set_table, make_multi, combine_multi, keep_multi,
  equal_values, lookup_global, set_global, register_at,
}
use fakelua.Interp.Machine.{
  op_move, op_loadk, op_loadnil, op_loadbool, op_getglobal, op_setglobal, op_getupval, op_setupval,
  op_gettable, op_settable, op_newtable, op_newbox, op_add, op_sub, op_mul, op_div, op_idiv, op_mod,
  op_pow, op_band, op_bxor, op_bor, op_shl, op_shr, op_concat, op_unm, op_not, op_len, op_bnot,
  op_eq, op_lt, op_le, op_testjmp, op_jmp, op_call, op_callname, op_return, op_closure, op_setlist,
  op_tabent, op_tabcount, op_unbox, op_makemulti, op_combine, op_throw, op_forprep, op_forloop,
}
use fakelua.Interp.Machine.Handlers.{
  set_world, slots, put, binop, unop, put_in, get_table_op, new_box_op, upbufs, closure_made,
  call_op, call_name_op, set_list_op, put_entry, put_count, entry_index, jump_if, loop_op,
  get_upval, set_upval,
}

module _ (fl : Floats) {W : Type 0} (sv : Services fl W) (has_boxes : Bool) where
  open fl use {F}

  -- VM_R
  abbrev reg : Run fl W → ℕ → Value F
  reg run r = vm_slot fl has_boxes run.frame r

  -- The outcome of an instruction that does not return.
  unfoldable pub going : Result Error (Run fl W) → Result Error (Outcome fl W)
  going (ok run) = ok (goes_on run)
  going (err e) = err e

  unfoldable pub handler :
      FuncProto fl → Option (List (Option ℕ)) → Inst → Run fl W → Op → Result Error (Run fl W)
  handler proto cl i run op_move = put fl sv has_boxes run i.a (reg run i.b)
  handler proto cl i run op_loadk =
      at_index fl proto.constants i.sbx >>= put fl sv has_boxes run i.a
  handler proto cl i run op_loadnil = put fl sv has_boxes run i.a nil
  handler proto cl i run op_loadbool = put fl sv has_boxes run i.a (bool (not (i.b == 0)))
  handler proto cl i run op_getglobal = do
    k ← at_index fl proto.constants i.sbx
    put fl sv has_boxes run i.a (lookup_global fl (const_to_name fl k) (sv.globals run.world))
  handler proto cl i run op_setglobal = do
    k ← at_index fl proto.constants i.sbx
    ok (record run {
      world =
          sv.with_globals (set_global fl (const_to_name fl k) (reg run i.a) (sv.globals run.world))
            run.world;
    })
  handler proto cl i run op_getupval = get_upval fl sv has_boxes cl i run
  handler proto cl i run op_setupval = set_upval fl sv has_boxes cl i run
  handler proto cl i run op_gettable = get_table_op fl sv has_boxes i run
  handler proto cl i run op_settable =
      set_table fl sv (reg run i.a) (reg run i.b) (reg run i.c) run.world
      >>= set_world fl sv has_boxes run
  handler proto cl i run op_newtable = put_in fl sv has_boxes run i.a (sv.new_table run.world)
  handler proto cl i run op_newbox = new_box_op fl sv has_boxes i run
  handler proto cl i run op_add = binop fl sv has_boxes (bin_add fl) i run
  handler proto cl i run op_sub = binop fl sv has_boxes (bin_sub fl) i run
  handler proto cl i run op_mul = binop fl sv has_boxes (bin_mul fl) i run
  handler proto cl i run op_div = binop fl sv has_boxes (bin_div fl) i run
  handler proto cl i run op_idiv = binop fl sv has_boxes (bin_idiv fl) i run
  handler proto cl i run op_mod = binop fl sv has_boxes (bin_mod fl) i run
  handler proto cl i run op_pow = binop fl sv has_boxes (bin_pow fl) i run
  handler proto cl i run op_band = binop fl sv has_boxes (bin_band fl) i run
  handler proto cl i run op_bxor = binop fl sv has_boxes (bin_bxor fl) i run
  handler proto cl i run op_bor = binop fl sv has_boxes (bin_bor fl) i run
  handler proto cl i run op_shl = binop fl sv has_boxes (bin_shl fl) i run
  handler proto cl i run op_shr = binop fl sv has_boxes (bin_shr fl) i run
  handler proto cl i run op_concat =
      sv.bin_concat (reg run i.b) (reg run i.c) run.world >>= put_in fl sv has_boxes run i.a
  handler proto cl i run op_unm = unop fl sv has_boxes (un_minus fl) i run
  handler proto cl i run op_not = put fl sv has_boxes run i.a (un_not fl (reg run i.b))
  handler proto cl i run op_len = unop fl sv has_boxes (λ v. sv.un_len v run.world) i run
  handler proto cl i run op_bnot = unop fl sv has_boxes (un_bnot fl) i run
  handler proto cl i run op_eq =
      put fl sv has_boxes run i.a (bool (equal_values fl sv (reg run i.b) (reg run i.c) run.world))
  handler proto cl i run op_lt = binop fl sv has_boxes (cmp_lt fl) i run
  handler proto cl i run op_le = binop fl sv has_boxes (cmp_le fl) i run
  handler proto cl i run op_testjmp =
      jump_if fl sv has_boxes (same_bool fl (is_true fl (reg run i.a)) (not (i.b == 0))) i run
  handler proto cl i run op_jmp = jump_if fl sv has_boxes true i run
  handler proto cl i run op_call = call_op fl sv has_boxes i run
  handler proto cl i run op_callname = do
    k ← at_index fl proto.constants i.sbx
    call_name_op fl sv has_boxes (const_to_name fl k) i run
  handler proto cl i run op_return = err undefined
  handler proto cl i run op_closure = do
    uvs ← at_index fl proto.child_protos i.sbx
    made ← upbufs fl sv has_boxes cl uvs [] run
    closure_made fl sv has_boxes i (pos_part i.sbx) made
  handler proto cl i run op_setlist = set_list_op fl sv has_boxes i run
  handler proto cl i run op_tabent = do
    r ← register_at fl i.sbx
    put_entry fl sv has_boxes i run
        (sv.table_entry (reg run i.a) (entry_index fl sv has_boxes (reg run r)) run.world)
  handler proto cl i run op_tabcount =
      sv.table_entry_count (reg run i.b) run.world >>= put_count fl sv has_boxes run i.a
  handler proto cl i run op_unbox = put fl sv has_boxes run i.a (unbox_multi fl (reg run i.b) i.c)
  handler proto cl i run op_makemulti =
      put fl sv has_boxes run i.a (make_multi fl (slots fl sv has_boxes run.frame i.a i.b))
  handler proto cl i run op_combine =
      put fl sv has_boxes run i.a
        (combine_multi fl (slots fl sv has_boxes run.frame i.a i.b) (reg run (i.a + i.b)))
  handler proto cl i run op_throw = do
    k ← at_index fl proto.constants i.sbx
    err (thrown (const_to_name fl k))
  handler proto cl i run op_forprep =
      for_prep_op fl has_boxes run.frame i.a >>= loop_op fl sv has_boxes i run
  handler proto cl i run op_forloop =
      for_loop_op fl has_boxes run.frame i.a >>= loop_op fl sv has_boxes i run

  unfoldable pub execute :
      FuncProto fl → Option (List (Option ℕ)) → Inst → Run fl W → Op → Result Error (Outcome fl W)
  execute proto cl i run op_return = ok (returned (keep_multi fl (i.b == 0) (reg run i.a)) run)
  execute proto cl i run op = going (handler proto cl i run op)

  -- `inst = *ip++`, and its handler.
  unfoldable pub step :
      FuncProto fl → Option (List (Option ℕ)) → Run fl W → Result Error (Outcome fl W)
  step proto cl run = elim (get_elem? proto.code run.ip) [
    | none ↦ err undefined
    | some i ↦ execute proto cl i (record run { ip = run.ip + 1 }) i.op
  ]

  -- `n` instructions, or those up to a RETURN.
  unfoldable pub steps :
      FuncProto fl → Option (List (Option ℕ)) → ℕ → Run fl W → Result Error (Outcome fl W)
  steps proto cl zero run = ok (goes_on run)
  steps proto cl (suc n) run = step proto cl run >>= λ outcome.
      elim outcome as (λ _. Result Error (Outcome fl W)) [
        | goes_on next ↦ steps proto cl n next
        | returned v last ↦ ok (returned v last)
      ]
