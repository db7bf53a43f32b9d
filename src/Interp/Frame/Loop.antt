-- ===== src/Interp/Frame/Loop.antt =====
-- The FORLOOP handler on registers is the loop of the four values.
use fakelua.Base.{ℕ, zero, suc, ◌+◌, ◌<◌, ◌≡◌, arith, refl, ap, sym, ◌∙◌}
use fakelua.Base.{Bool, true, false, none, length, get_or, set}
use fakelua.Base.{if◌then◌else◌, get_or-set_self, length-set}
use fakelua.Base.Result.{Result, ok, err, ◌>>=◌}
use fakelua.Interp.Value.{Floats, Value, nil, bool, int, float, str, table, multi, closure, Error}
use fakelua.Interp.Word.{add_word}
use fakelua.Interp.Ops.{bin_add}
use fakelua.Interp.For.{ForRegs, for_loop, for_loop_in_range, data_i, count_round, for_loop_by}
use fakelua.Interp.Frame.{Frame, box_of, vm_slot, vm_write, vm_write_int, fresh}
use fakelua.Interp.Frame.{round_op, range_op, by_step, for_loop_op}
use fakelua.Interp.Frame.Slots.{write_unboxed, write_int_unboxed, box_of-stk}
use fakelua.Interp.Frame.Slots.{slot-stk, slot-stk_self, fresh_self, fresh_other}

module _ (fl : Floats) where
  open fl use {F}

  -- The four registers of a loop.
  abbrev pub regs_at : Bool → Frame fl → ℕ → ForRegs fl
  regs_at has fr base = record {
    idx = vm_slot fl has fr base;
    limit = vm_slot fl has fr (base + 1);
    step = vm_slot fl has fr (base + 2);
    loopvar = vm_slot fl has fr (base + 3);
  }

  abbrev four : Value F → Value F → Value F → Value F → ForRegs fl
  four a b c d = record { idx = a; limit = b; step = c; loopvar = d }

  four_ext :
      {a b c d a' b' c' d' : Value F}
      → a ≡ a'
      → b ≡ b'
      → c ≡ c'
      → d ≡ d'
      → four a b c d ≡ four a' b' c' d'
  four_ext p q r s = rw (p, q, r, s) refl

  module _ (has : Bool) (fr : Frame fl) (base : ℕ) (idx_unboxed : box_of fl has fr base ≡ none)
      (limit_unboxed : box_of fl has fr (base + 1) ≡ none) (room : base + 3 < length fr.stk)
      (boxes : base + 3 < length fr.box) where
    abbrev after_count : ℕ → Frame fl
    after_count count = record fr { stk = set fr.stk (base + 1) (int count) }

    abbrev after_index : ℕ → ℕ → Frame fl
    after_index count next = record fr {
      stk = set (set fr.stk (base + 1) (int count)) base (int next);
    }

    index_kept : (count : ℕ) → vm_slot fl has (after_count count) base ≡ vm_slot fl has fr base
    index_kept count = slot-stk fl has fr (base + 1) base (int count) (omega arith)

    step_kept :
        (count : ℕ) → vm_slot fl has (after_count count) (base + 2) ≡ vm_slot fl has fr (base + 2)
    step_kept count = slot-stk fl has fr (base + 1) (base + 2) (int count) (omega arith)

    after_round :
        (count next : ℕ)
        → regs_at has (fresh fl has (after_index count next) (base + 3) (int next)) base
          ≡ four (int next) (int count) (vm_slot fl has fr (base + 2)) (int next)
    after_round count next =
        let fr₁ = after_count count in
        let fr₂ = after_index count next in
        let long : length (set fr.stk (base + 1) (int count)) ≡ length fr.stk =
          length-set fr.stk (base + 1) (int count) in
        let long₂ : length (set (set fr.stk (base + 1) (int count)) base (int next))
            ≡ length fr.stk =
          length-set (set fr.stk (base + 1) (int count)) base (int next) ∙ long in
        four_ext
          (fresh_other fl has fr₂ (base + 3) base (int next) (omega arith)
            ∙ slot-stk_self fl has fr₁ base (int next) (box_of-stk fl has fr _ base ∙ idx_unboxed)
                (omega (arith, long, room)))
          (fresh_other fl has fr₂ (base + 3) (base + 1) (int next) (omega arith)
            ∙ slot-stk fl has fr₁ base (base + 1) (int next) (omega arith)
            ∙ slot-stk_self fl has fr (base + 1) (int count) limit_unboxed (omega (arith, room)))
          (fresh_other fl has fr₂ (base + 3) (base + 2) (int next) (omega arith)
            ∙ slot-stk fl has fr₁ base (base + 2) (int next) (omega arith)
            ∙ step_kept count)
          (fresh_self fl has fr₂ (base + 3) (int next) (omega (arith, long₂, room)) boxes)

    abbrev next_index : ℕ
    next_index =
        add_word (data_i fl (vm_slot fl has fr base)) (data_i fl (vm_slot fl has fr (base + 2)))

    round_next :
        (count : ℕ)
        → round_op fl has fr base (suc count)
          ≡ (true, fresh fl has (after_index count next_index) (base + 3) (int next_index))
    unfolding round_op
    round_next count =
        let long : length (set fr.stk (base + 1) (int count)) ≡ length fr.stk =
          length-set fr.stk (base + 1) (int count) in
        let first : vm_write_int fl has fr (base + 1) count ≡ after_count count =
          write_int_unboxed fl has fr (base + 1) count limit_unboxed in
        let second : vm_write_int fl has (after_count count) base next_index
            ≡ after_index count next_index =
          write_int_unboxed fl has (after_count count) base next_index
            (box_of-stk fl has fr _ base ∙ idx_unboxed) in
        let written : get_or (set (set fr.stk (base + 1) (int count)) base (int next_index)) base
              nil
            ≡ int next_index =
          get_or-set_self (set fr.stk (base + 1) (int count)) base (int next_index) nil
            (omega (arith, long, room)) in
        rw (first, index_kept count, step_kept count, second, written) refl

    -- What the loop's four registers hold after a step.
    pub view : Result Error (Bool × Frame fl) → Result Error (Bool × ForRegs fl)
    view (ok (again, fr')) = ok (again, regs_at has fr' base)
    view (err e) = err e

    view_bind :
        (r : Result Error (Bool × Frame fl))
        → (do (again, fr') ← r; ok (again, regs_at has fr' base)) ≡ view r
    unfolding view
    view_bind (ok (again, fr')) = refl
    view_bind (err e) = refl

    round_stop : round_op fl has fr base zero ≡ (false, fr)
    unfolding round_op
    round_stop = refl

    round_view :
        (count : ℕ)
        → view (ok (round_op fl has fr base count))
          ≡ count_round fl count next_index (regs_at has fr base)
    unfolding view count_round
    round_view zero = rw round_stop refl
    round_view (suc count) =
        rw (round_next count) (ap (λ r. ok (true, r)) (after_round count next_index))

    moved :
        (next : Value F)
        → regs_at has (record fr { stk = set fr.stk base next }) base
          ≡ four next
              (vm_slot fl has fr (base + 1))
              (vm_slot fl has fr (base + 2))
              (vm_slot fl has fr (base + 3))
    moved next =
        four_ext (slot-stk_self fl has fr base next idx_unboxed (omega (arith, room)))
          (slot-stk fl has fr base (base + 1) next (omega arith))
          (slot-stk fl has fr base (base + 2) next (omega arith))
          (slot-stk fl has fr base (base + 3) next (omega arith))

    settled :
        (next : Value F) (r : Result Error Bool)
        → view (do
          again ← r
          ok (
            again,
            if again
                then fresh fl has (record fr { stk = set fr.stk base next }) (base + 3) next
                else record fr { stk = set fr.stk base next },
          ))
          ≡ (do
            again ← r
            ok (
              again,
              record (regs_at has fr base) {
                idx = next;
                loopvar = if again then next else vm_slot fl has fr (base + 3);
              },
            ))
    unfolding view
    settled next (err e) = refl
    settled next (ok false) = ap (λ r. ok (false, r)) (moved next)
    settled next (ok true) =
        let long : length (set fr.stk base next) ≡ length fr.stk = length-set fr.stk base next in
        let fr₁ : Frame fl = record fr { stk = set fr.stk base next } in
        ap (λ r. ok (true, r))
          (four_ext
            (fresh_other fl has fr₁ (base + 3) base next (omega arith)
              ∙ slot-stk_self fl has fr base next idx_unboxed (omega (arith, room)))
            (fresh_other fl has fr₁ (base + 3) (base + 1) next (omega arith)
              ∙ slot-stk fl has fr base (base + 1) next (omega arith))
            (fresh_other fl has fr₁ (base + 3) (base + 2) next (omega arith)
              ∙ slot-stk fl has fr base (base + 2) next (omega arith))
            (fresh_self fl has fr₁ (base + 3) next (omega (arith, long, room)) boxes))

    after_add :
        (next : Value F)
        → view (range_op fl has (vm_write fl has fr base next) base) ≡ (do
          again ←
              for_loop_in_range fl next
                (vm_slot fl has fr (base + 1))
                (vm_slot fl has fr (base + 2))
          ok (
            again,
            record (regs_at has fr base) {
              idx = next;
              loopvar = if again then next else vm_slot fl has fr (base + 3);
            },
          ))
    unfolding view range_op
    after_add next =
        let written : vm_write fl has fr base next ≡ record fr { stk = set fr.stk base next } =
          write_unboxed fl has fr base next idx_unboxed in
        let idx : vm_slot fl has (record fr { stk = set fr.stk base next }) base ≡ next =
          slot-stk_self fl has fr base next idx_unboxed (omega (arith, room)) in
        let limit = slot-stk fl has fr base (base + 1) next (omega arith) in
        let step = slot-stk fl has fr base (base + 2) next (omega arith) in
        rw (written, idx, limit, step)
          (settled next (
            for_loop_in_range fl next (vm_slot fl has fr (base + 1))
              (vm_slot fl has fr (base + 2))))

    added :
        (m : Result Error (Value F))
        → view (m >>= λ next. range_op fl has (vm_write fl has fr base next) base) ≡ (do
          next ← m
          again ←
              for_loop_in_range fl next
                (vm_slot fl has fr (base + 1))
                (vm_slot fl has fr (base + 2))
          ok (
            again,
            record (regs_at has fr base) {
              idx = next;
              loopvar = if again then next else vm_slot fl has fr (base + 3);
            },
          ))
    unfolding view
    added (ok next) = after_add next
    added (err e) = refl

    other_step :
        (v : Value F)
        → vm_slot fl has fr (base + 2) ≡ v
        → view (
            bin_add fl (vm_slot fl has fr base) v >>= λ next.
            range_op fl has (vm_write fl has fr base next) base)
          ≡ (do
            next ← bin_add fl (vm_slot fl has fr base) (vm_slot fl has fr (base + 2))
            again ←
                for_loop_in_range fl next
                  (vm_slot fl has fr (base + 1))
                  (vm_slot fl has fr (base + 2))
            ok (
              again,
              record (regs_at has fr base) {
                idx = next;
                loopvar = if again then next else vm_slot fl has fr (base + 3);
              },
            ))
    other_step v is =
        ap
          (λ w. view (
            bin_add fl (vm_slot fl has fr base) w >>= λ next.
            range_op fl has (vm_write fl has fr base next) base))
          (sym is)
        ∙ added (bin_add fl (vm_slot fl has fr base) (vm_slot fl has fr (base + 2)))

    stepped :
        (s : Value F)
        → vm_slot fl has fr (base + 2) ≡ s
        → view (by_step fl has fr base s) ≡ for_loop_by fl s (regs_at has fr base)
    unfolding by_step for_loop_by data_i
    stepped (int s) is =
        round_view (data_i fl (vm_slot fl has fr (base + 1)))
        ∙ ap
            (λ v.
              count_round fl (data_i fl (vm_slot fl has fr (base + 1)))
                (add_word (data_i fl (vm_slot fl has fr base)) (data_i fl v)) (regs_at has fr base))
            is
    stepped nil is = other_step nil is
    stepped (bool b) is = other_step (bool b) is
    stepped (float f) is = other_step (float f) is
    stepped (str s) is = other_step (str s) is
    stepped (table c a) is = other_step (table c a) is
    stepped (multi vs) is = other_step (multi vs) is
    stepped (closure a) is = other_step (closure a) is

  -- When the index, the limit and the step are not captured, FORLOOP on the registers, boxed or not,
  -- does to the four of the loop what for_loop does to their values.
  pub for_loop_op-for_loop :
      (has : Bool) (fr : Frame fl) (base : ℕ)
      → box_of fl has fr base ≡ none
      → box_of fl has fr (base + 1) ≡ none
      → base + 3 < length fr.stk
      → base + 3 < length fr.box
      → (do (again, fr') ← for_loop_op fl has fr base; ok (again, regs_at has fr' base))
        ≡ for_loop fl (regs_at has fr base)
  unfolding for_loop_op for_loop
  for_loop_op-for_loop has fr base i l room boxes =
      view_bind has fr base i l room boxes (for_loop_op fl has fr base)
      ∙ stepped has fr base i l room boxes (vm_slot fl has fr (base + 2)) refl
