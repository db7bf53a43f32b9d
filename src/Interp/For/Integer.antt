-- ===== src/Interp/For/Integer.antt =====
-- Which values the loop variable takes when the start, the limit and the step are integers.
use fakelua.Base.{ℕ, zero, suc, ◌+◌, ◌-◌, ◌*◌, ◌%◌, ◌^◌, ◌<◌, ◌≡◌, ◌≢◌, arith, refl}
use fakelua.Base.{Bool, true, false, not, Option, none, some, leb, if◌then◌else◌}
use fakelua.Base.{Bool-cases, inl, inr, ◌∙◌}
use fakelua.Base.Result.{Result, ok, ◌>>=◌}
use native.Mathlib.Nat.{le-div_iff_mul-le}
use fakelua.Interp.Value.{Floats, Value, int, Error}
use fakelua.Interp.Word.{bias, is_neg, signed_lt, sub_word, add_word, neg_word}
use fakelua.Interp.For.{ForRegs, for_prep, for_loop, for_count, prep_int}

module _ (fl : Floats) where
  open fl use {F}

  -- The loop variable in round `k`, counted from 0, after FORPREP and a FORLOOP for each round
  -- before; `none` when the loop has ended by then.
  unfoldable pub nth_round : ℕ → Bool × ForRegs fl → Result Error (Option (Value F))
  nth_round k (true, r) = ok none
  nth_round zero (false, r) = ok (some r.loopvar)
  nth_round (suc k) (false, r) = do (again, r') ← for_loop fl r; nth_round k (not again, r')

  abbrev regs : ℕ → ℕ → ℕ → ForRegs fl
  regs x count s = record { idx = int x; limit = int count; step = int s; loopvar = int x }

  ended :
      (k x s : ℕ)
      → nth_round k (true, regs x 0 s)
        ≡ ok (if leb (suc k) 0 then some (int ((x + suc k * s) % 2 ^ 64)) else none)
  unfolding nth_round
  ended zero x s = ground arith
  ended (suc k) x s = ground arith

  for_loop_last : (x s : ℕ) → for_loop fl (regs x 0 s) ≡ ok (false, regs x 0 s)
  unfolding for_loop
  for_loop_last x s = refl

  for_loop_next :
      (x count s : ℕ) → for_loop fl (regs x (suc count) s) ≡ ok (true, regs (add_word x s) count s)
  unfolding for_loop
  for_loop_next x count s = refl

  rounds_left :
      (k x count s : ℕ)
      → x < 2 ^ 64
      → nth_round k (false, regs x count s)
        ≡ ok (if leb k count then some (int ((x + k * s) % 2 ^ 64)) else none)
  unfolding nth_round
  rounds_left zero x count s h = ground arith
  rounds_left (suc k) x zero s h = rw for_loop_last (ended k x s)
  rounds_left (suc k) x (suc count) s h =
      let same_test : leb k count ≡ leb (suc k) (suc count) = ground arith in
      let same_index : (add_word x s + k * s) % 2 ^ 64 ≡ (x + suc k * s) % 2 ^ 64 =
        unfold add_word in omega arith in
      rw (for_loop_next, rounds_left k (add_word x s) count s (unfold add_word in omega arith))
        (rw (same_test, same_index))

  count_up :
      (k init lim st : ℕ)
      → init < 2 ^ 64
      → lim < 2 ^ 64
      → st ≢ 0
      → is_neg st ≡ false
      → signed_lt lim init ≡ false
      → leb k (for_count fl init lim st) ≡ leb (bias init + k * st) (bias lim)
  unfolding for_count
  count_up k init lim st hi hl nonzero up run =
      ground (arith, le-div_iff_mul-le {k = st} {x = k} {y = sub_word lim init} (omega arith))

  count_down :
      (k init lim st : ℕ)
      → init < 2 ^ 64
      → lim < 2 ^ 64
      → st < 2 ^ 64
      → is_neg st ≡ true
      → signed_lt init lim ≡ false
      → leb k (for_count fl init lim st) ≡ leb (bias lim + k * (2 ^ 64 - st)) (bias init)
  unfolding for_count
  count_down k init lim st hi hl hs down run =
      let divisor : neg_word (add_word st 1) + 1 ≡ 2 ^ 64 - st = ground arith in
      ground (
        arith,
        divisor,
        le-div_iff_mul-le {k = 2 ^ 64 - st} {x = k} {y = sub_word init lim} (omega arith),
      )

  -- Round `k` is run when start + k * step does not pass the limit, in the integers.
  abbrev in_range : ℕ → ℕ → ℕ → ℕ → Bool
  in_range init lim st k =
      if is_neg st
      then leb (bias lim + k * (2 ^ 64 - st)) (bias init)
      else leb (bias init + k * st) (bias lim)

  unfoldable pub run_for : ℕ → Value F → Value F → Value F → Result Error (Option (Value F))
  run_for k init lim st = do start ← for_prep fl init lim st; nth_round k start

  abbrev ends_at_once : ℕ → ℕ → ℕ → Bool
  ends_at_once init lim st = if is_neg st then signed_lt init lim else signed_lt lim init

  prep_skips :
      (k init lim st : ℕ)
      → ends_at_once init lim st ≡ true
      → nth_round k (prep_int fl init st (int lim) (some lim)) ≡ ok none
  unfolding prep_int nth_round
  prep_skips k init lim st h = rw h refl

  prep_runs :
      (init lim st : ℕ)
      → ends_at_once init lim st ≡ false
      → prep_int fl init st (int lim) (some lim) ≡ (false, regs init (for_count fl init lim st) st)
  unfolding prep_int
  prep_runs init lim st h = rw h refl

  count-in_range :
      (k init lim st : ℕ)
      → init < 2 ^ 64
      → lim < 2 ^ 64
      → st < 2 ^ 64
      → st ≢ 0
      → ends_at_once init lim st ≡ false
      → leb k (for_count fl init lim st) ≡ in_range init lim st k
  count-in_range k init lim st hi hl hs nonzero run = elim (Bool-cases (is_neg st)) [
    | inl down ↦ rw down (count_down k init lim st hi hl hs down (ground arith))
    | inr up ↦ rw up (count_up k init lim st hi hl nonzero up (ground arith))
  ]

  rounds_of_prep :
      (k init lim st : ℕ)
      → init < 2 ^ 64
      → lim < 2 ^ 64
      → st < 2 ^ 64
      → st ≢ 0
      → nth_round k (prep_int fl init st (int lim) (some lim))
        ≡ ok (if in_range init lim st k then some (int ((init + k * st) % 2 ^ 64)) else none)
  rounds_of_prep k init lim st hi hl hs nonzero = elim (Bool-cases (ends_at_once init lim st)) [
    | inl skip ↦
        let none_at_all : in_range init lim st k ≡ false = ground arith in
        prep_skips k init lim st skip ∙ rw none_at_all refl
    | inr run ↦ rw (prep_runs init lim st run) (
        rounds_left k init (for_count fl init lim st) st hi
        ∙ rw (count-in_range k init lim st hi hl hs nonzero run) refl)
  ]

  -- From a start, a limit and a step that are integers, the step not 0, the loop runs round `k`
  -- exactly when start + k * step does not pass the limit, with that value in the loop variable.
  pub for_visits :
      (k init lim st : ℕ)
      → init < 2 ^ 64
      → lim < 2 ^ 64
      → st < 2 ^ 64
      → st ≢ 0
      → run_for k (int init) (int lim) (int st)
        ≡ ok (if in_range init lim st k then some (int ((init + k * st) % 2 ^ 64)) else none)
  unfolding run_for for_prep
  for_visits k init lim zero hi hl hs nonzero = absurd (nonzero refl)
  for_visits k init lim (suc s) hi hl hs nonzero =
      rounds_of_prep k init lim (suc s) hi hl hs nonzero
