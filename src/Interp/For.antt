-- ===== src/Interp/For.antt =====
-- The numeric `for` of src/interp/vm_ops.h and the FORPREP and FORLOOP handlers of
-- src/interp/interpreter.cpp.
pub mod Integer
use fakelua.Base.{ℕ, zero, suc, ◌+◌, ◌-◌, ◌/◌, ◌%◌, ◌^◌, Bool, true, false, not, ◌&&◌, ◌||◌}
use fakelua.Base.{Option, none, some, ltb, leb, ◌==◌, if◌then◌else◌}
use fakelua.Base.Result.{Result, ok, err, ◌>>=◌, ◌>>◌, throw_if}
use fakelua.Interp.Value.{Floats, Value, nil, bool, int, float, Error, non_numeric, for_step_zero}
use fakelua.Interp.Value.{for_step_not_number}
use fakelua.Interp.Word.{add_word, sub_word, neg_word, signed_lt, signed_le, is_neg}
use fakelua.Interp.Ops.{check_num, double_fits_int64, to_double, bin_add}

module _ (fl : Floats) where
  open fl use {F, of_int, to_int, add, floor, ceil, lt, le, eq, is_nan, is_finite, zero_float}
  open fl use {two_63, minus_two_63}

  -- R(A), R(A + 1), R(A + 2) and R(A + 3).
  pub record ForRegs : Type 0 where
    pub idx : Value F
    pub limit : Value F
    pub step : Value F
    pub loopvar : Value F

  -- `ForLimitToInt`; `none` is `*skip = true`. A step is a word that is not 0.
  clip_high : ℕ → Option ℕ
  clip_high step = if is_neg step then none else some (2 ^ 63 - 1)

  clip_low : ℕ → Option ℕ
  clip_low step = if is_neg step then some (2 ^ 63) else none

  clip_float : F → ℕ → Option ℕ → Option ℕ
  unfolding clip_high clip_low
  clip_float flim step (some p) = some p
  clip_float flim step none =
      if not (is_finite flim)
      then (if lt zero_float flim then clip_high step else clip_low step)
      else if le two_63 flim
      then clip_high step
      else if lt flim minus_two_63
      then clip_low step
      else (if is_neg step then some (to_int (ceil flim)) else some (to_int (floor flim)))

  for_limit_to_int : Value F → ℕ → Result Error (Option ℕ)
  unfolding clip_float
  for_limit_to_int (int i) step = ok (some i)
  for_limit_to_int (float flim) step = ok (clip_float flim step (double_fits_int64 fl flim))
  for_limit_to_int _ step = err non_numeric

  -- The rounds that are left after the first. (`count /= st` is skipped for a step of 1.)
  for_count : ℕ → ℕ → ℕ → ℕ
  unfolding sub_word neg_word add_word
  for_count init lim st =
      if is_neg st
      then sub_word init lim / (neg_word (add_word st 1) + 1)
      else (let distance = sub_word lim init in if st == 1 then distance else distance / st)

  -- The integer path of `ForPrep`, the limit clipped; true skips the loop.
  prep_int : ℕ → ℕ → Value F → Option ℕ → Bool × ForRegs
  unfolding for_count
  prep_int init st limit none =
      (true, record { idx = int init; limit = limit; step = int st; loopvar = int init })
  prep_int init st limit (some lim) =
      if (if is_neg st then signed_lt init lim else signed_lt lim init)
      then (true, record { idx = int init; limit = limit; step = int st; loopvar = int init })
      else (
        false,
        record {
          idx = int init;
          limit = int (for_count init lim st);
          step = int st;
          loopvar = int init;
        },
      )

  prep_float : Value F → Value F → Value F → Result Error (Bool × ForRegs)
  prep_float idx limit step = do
    check_num fl idx
    check_num fl limit
    check_num fl step
    let i = to_double fl idx
    let l = to_double fl limit
    let st = to_double fl step
    throw_if (eq st zero_float) for_step_zero
    ok (
      if lt zero_float st then lt l i else lt i l,
      record { idx = float i; limit = float l; step = float st; loopvar = float i },
    )

  unfoldable pub for_prep : Value F → Value F → Value F → Result Error (Bool × ForRegs)
  unfolding for_limit_to_int prep_int prep_float
  for_prep (int init) limit (int zero) = err for_step_zero
  for_prep (int init) (int lim) (int (suc s)) = do
    clipped ← for_limit_to_int (int lim) (suc s)
    ok (prep_int init (suc s) (int lim) clipped)
  for_prep (int init) (float flim) (int (suc s)) = do
    clipped ← for_limit_to_int (float flim) (suc s)
    ok (prep_int init (suc s) (float flim) clipped)
  for_prep idx limit step = prep_float idx limit step

  for_step_positive : Value F → Result Error Bool
  for_step_positive (int s) = if s == 0 then err for_step_zero else ok (not (is_neg s))
  for_step_positive (float s) = if eq s zero_float then err for_step_zero else ok (lt zero_float s)
  for_step_positive _ = err for_step_not_number

  unfoldable pub for_loop_in_range : Value F → Value F → Value F → Result Error Bool
  unfolding for_step_positive
  for_loop_in_range (int c) (int l) (int s) =
      ok (if not (is_neg s) && not (s == 0) then signed_le c l else signed_le l c)
  for_loop_in_range ctrl limit step = do
    check_num fl ctrl
    check_num fl limit
    positive ← for_step_positive step
    let c = to_double fl ctrl
    let l = to_double fl limit
    ok (if positive then le c l else le l c)

  -- R(A + 1) read as `data_.i`: the compiler emits FORLOOP below FORPREP, so with an integer step it
  -- holds the count, and R(A) an integer.
  unfoldable pub data_i : Value F → ℕ
  data_i (int i) = i
  data_i _ = 0

  -- `count == 0` ends the loop; else the index moves to `next`.
  unfoldable pub count_round : ℕ → ℕ → ForRegs → Result Error (Bool × ForRegs)
  count_round zero next r = ok (false, r)
  count_round (suc count) next r =
      ok (true, record r { idx = int next; limit = int count; loopvar = int next })

  unfoldable pub for_loop_by : Value F → ForRegs → Result Error (Bool × ForRegs)
  unfolding for_loop_in_range add_word data_i count_round
  for_loop_by (int s) r = count_round (data_i r.limit) (add_word (data_i r.idx) s) r
  for_loop_by _ r = do
    next ← bin_add fl r.idx r.step
    again ← for_loop_in_range next r.limit r.step
    ok (again, record r { idx = next; loopvar = if again then next else r.loopvar })

  -- FORLOOP: true jumps back to the body.
  unfoldable pub for_loop : ForRegs → Result Error (Bool × ForRegs)
  unfolding for_loop_by
  for_loop r = for_loop_by r.step r
