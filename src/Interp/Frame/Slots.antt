-- ===== src/Interp/Frame/Slots.antt =====
-- Registers after a write, and after a new variable.
use fakelua.Base.{ℕ, ◌<◌, ◌≡◌, ◌≢◌, refl, ◌∙◌}
use fakelua.Base.{Bool, true, false, none, List, length, get_or, set}
use fakelua.Base.{get_or-set_self, get_or-set_ne}
use fakelua.Interp.Value.{Floats, Value, nil, int}
use fakelua.Interp.Frame.{Frame, box_of, through, vm_slot, store, vm_write, vm_write_int, fresh}
use fakelua.Interp.Frame.{vm_clear_box}

module _ (fl : Floats) where
  open fl use {F}

  pub unboxed_slot :
      (has : Bool) (fr : Frame fl) (r : ℕ)
      → box_of fl has fr r ≡ none
      → vm_slot fl has fr r ≡ get_or fr.stk r nil
  unfolding vm_slot through
  unboxed_slot has fr r h = rw h refl

  pub write_unboxed :
      (has : Bool) (fr : Frame fl) (r : ℕ) (v : Value F)
      → box_of fl has fr r ≡ none
      → vm_write fl has fr r v ≡ record fr { stk = set fr.stk r v }
  unfolding vm_write store
  write_unboxed has fr r v h = rw h refl

  pub write_int_unboxed :
      (has : Bool) (fr : Frame fl) (r n : ℕ)
      → box_of fl has fr r ≡ none
      → vm_write_int fl has fr r n ≡ record fr { stk = set fr.stk r (int n) }
  unfolding vm_write_int store
  write_int_unboxed has fr r n h = rw h refl

  pub box_of-stk :
      (has : Bool) (fr : Frame fl) (stk : List (Value F)) (r : ℕ)
      → box_of fl has (record fr { stk = stk }) r ≡ box_of fl has fr r
  unfolding box_of
  box_of-stk true fr stk r = refl
  box_of-stk false fr stk r = refl

  -- A register that is not written keeps its value, boxed or not.
  pub slot-stk :
      (has : Bool) (fr : Frame fl) (i r : ℕ) (v : Value F)
      → i ≢ r
      → vm_slot fl has (record fr { stk = set fr.stk i v }) r ≡ vm_slot fl has fr r
  unfolding vm_slot
  slot-stk has fr i r v h =
      rw (box_of-stk has fr (set fr.stk i v) r, get_or-set_ne fr.stk i r v nil h) refl

  pub slot-stk_self :
      (has : Bool) (fr : Frame fl) (r : ℕ) (v : Value F)
      → box_of fl has fr r ≡ none
      → r < length fr.stk
      → vm_slot fl has (record fr { stk = set fr.stk r v }) r ≡ v
  slot-stk_self has fr r v unboxed h =
      unboxed_slot has (record fr { stk = set fr.stk r v }) r (box_of-stk has fr _ r ∙ unboxed)
      ∙ get_or-set_self fr.stk r v nil h

  pub fresh_self :
      (has : Bool) (fr : Frame fl) (r : ℕ) (v : Value F)
      → r < length fr.stk
      → r < length fr.box
      → vm_slot fl has (fresh fl has fr r v) r ≡ v
  unfolding fresh vm_clear_box vm_slot box_of through
  fresh_self true fr r v h k =
      rw (get_or-set_self fr.box r none none k) (get_or-set_self fr.stk r v nil h)
  fresh_self false fr r v h k = get_or-set_self fr.stk r v nil h

  pub fresh_other :
      (has : Bool) (fr : Frame fl) (r i : ℕ) (v : Value F)
      → r ≢ i
      → vm_slot fl has (fresh fl has fr r v) i ≡ vm_slot fl has fr i
  unfolding fresh vm_clear_box vm_slot box_of
  fresh_other true fr r i v h =
      rw (get_or-set_ne fr.box r i none none h, get_or-set_ne fr.stk r i v nil h) refl
  fresh_other false fr r i v h = rw (get_or-set_ne fr.stk r i v nil h) refl
