-- ===== src/Interp/Ops.antt =====
-- The operations of src/interp/vm_ops.h on values.
use fakelua.Base.{ℕ, zero, suc, ◌-◌, ◌^◌, Bool, true, false, not, ◌&&◌}
use fakelua.Base.{bit_and, bit_or, bit_xor, Option, none, some, ◌==◌, if◌then◌else◌}
use fakelua.Base.Result.{Result, ok, err, ◌>>=◌, ◌>>◌}
use fakelua.Interp.Value.{Floats, Value, Values, nil, bool, int, float, multi}
use fakelua.Interp.Value.{none_left, value, Error, non_numeric, no_integer_representation}
use fakelua.Interp.Value.{bitwise_non_numeric, floor_division_by_zero, modulo_by_zero, undefined}
use fakelua.Interp.Word.{add_word, sub_word, mul_word, neg_word, floor_div_quotient, mod_word}
use fakelua.Interp.Word.{shift_left, shift_right, signed_lt, signed_le}

pub data Order : Type 0 where
  before same after : Order

module _ (fl : Floats) where
  open fl use {F, of_int, to_int, add, sub, mul, div, pow, neg, floor, modf, lt, le, is_nan}
  open fl use {is_finite, zero_float, two_63, minus_two_63, eq}

  unfoldable pub is_true : Value F → Bool
  is_true nil = false
  is_true (bool b) = b
  is_true _ = true

  unfoldable pub check_num : Value F → Result Error (Unit {0})
  check_num (int i) = ok tt
  check_num (float f) = ok tt
  check_num _ = err non_numeric

  -- `std::modf(d, &ip) != 0.0`, then the range.
  unfoldable pub double_fits_int64 : F → Option ℕ
  double_fits_int64 d =
      let (fraction, whole) = modf d in
      if is_finite d && (eq fraction zero_float && (not (lt whole minus_two_63) && lt whole two_63))
      then some (to_int whole)
      else none

  abbrev represented : Option ℕ → Result Error ℕ
  represented (some i) = ok i
  represented none = err no_integer_representation

  unfoldable pub check_int : Value F → Result Error ℕ
  unfolding double_fits_int64
  check_int (int i) = ok i
  check_int (float f) = represented (double_fits_int64 f)
  check_int _ = err bitwise_non_numeric

  -- Read after `check_num` alone.
  unfoldable pub to_double : Value F → F
  to_double (int i) = of_int i
  to_double (float f) = f
  to_double _ = zero_float

  -- `CheckNum(a); CheckNum(b);` and a result on doubles.
  unfoldable pub on_doubles : (F → F → F) → Value F → Value F → Result Error (Value F)
  unfolding check_num to_double
  on_doubles op a b = do check_num a; check_num b; ok (float (op (to_double a) (to_double b)))

  unfoldable pub bin_add : Value F → Value F → Result Error (Value F)
  unfolding on_doubles
  bin_add (int a) (int b) = ok (int (add_word a b))
  bin_add a b = on_doubles add a b

  unfoldable pub bin_sub : Value F → Value F → Result Error (Value F)
  unfolding on_doubles
  bin_sub (int a) (int b) = ok (int (sub_word a b))
  bin_sub a b = on_doubles sub a b

  unfoldable pub bin_mul : Value F → Value F → Result Error (Value F)
  unfolding on_doubles
  bin_mul (int a) (int b) = ok (int (mul_word a b))
  bin_mul a b = on_doubles mul a b

  unfoldable pub bin_div : Value F → Value F → Result Error (Value F)
  unfolding on_doubles
  bin_div a b = on_doubles div a b

  unfoldable pub bin_idiv : Value F → Value F → Result Error (Value F)
  unfolding on_doubles
  bin_idiv (int a) (int b) =
      if b == 0 then err floor_division_by_zero else ok (int (floor_div_quotient a b))
  bin_idiv a b = on_doubles (λ x y. floor (div x y)) a b

  -- A signed overflow is undefined.
  abbrev defined : Option ℕ → Result Error (Value F)
  defined none = err undefined
  defined (some r) = ok (int r)

  unfoldable pub bin_mod : Value F → Value F → Result Error (Value F)
  unfolding on_doubles
  bin_mod (int a) (int b) = if b == 0 then err modulo_by_zero else defined (mod_word a b)
  bin_mod a b = on_doubles (λ x y. sub x (mul y (floor (div x y)))) a b

  unfoldable pub bin_pow : Value F → Value F → Result Error (Value F)
  unfolding on_doubles
  bin_pow a b = on_doubles pow a b

  -- `CheckInt(a)` and `CheckInt(b)`, and a result on words.
  unfoldable pub on_words : (ℕ → ℕ → ℕ) → Value F → Value F → Result Error (Value F)
  unfolding check_int
  on_words op a b = do ai ← check_int a; bi ← check_int b; ok (int (op ai bi))

  unfoldable pub bin_band : Value F → Value F → Result Error (Value F)
  unfolding on_words
  bin_band a b = on_words bit_and a b

  unfoldable pub bin_bxor : Value F → Value F → Result Error (Value F)
  unfolding on_words
  bin_bxor a b = on_words bit_xor a b

  unfoldable pub bin_bor : Value F → Value F → Result Error (Value F)
  unfolding on_words
  bin_bor a b = on_words bit_or a b

  unfoldable pub bin_shl : Value F → Value F → Result Error (Value F)
  unfolding on_words
  bin_shl a b = on_words shift_left a b

  unfoldable pub bin_shr : Value F → Value F → Result Error (Value F)
  unfolding on_words
  bin_shr a b = on_words shift_right a b

  unfoldable pub un_minus : Value F → Result Error (Value F)
  un_minus (int a) = ok (int (neg_word a))
  un_minus (float f) = ok (float (neg f))
  un_minus _ = err non_numeric

  unfoldable pub un_not : Value F → Value F
  unfolding is_true
  un_not a = bool (not (is_true a))

  unfoldable pub un_bnot : Value F → Result Error (Value F)
  unfolding check_int
  un_bnot a = do i ← check_int a; ok (int (2 ^ 64 - 1 - i))

  -- src/util/number_util.h: an integer against a double, which is not rounded to compare.
  unfoldable pub compare_int64_double : ℕ → F → Order
  compare_int64_double i f =
      let truncated = to_int f in
      if is_nan f
      then same
      else if le two_63 f
      then before
      else if lt f minus_two_63
      then after
      else if signed_lt i truncated
      then before
      else if signed_lt truncated i
      then after
      else if lt (of_int truncated) f
      then before
      else if lt f (of_int truncated)
      then after
      else same

  abbrev is_before : Order → Bool
  is_before before = true
  is_before _ = false

  abbrev is_after : Order → Bool
  is_after after = true
  is_after _ = false

  unfoldable pub cmp_lt : Value F → Value F → Result Error (Value F)
  unfolding compare_int64_double
  cmp_lt (int a) (int b) = ok (bool (signed_lt a b))
  cmp_lt (int a) (float f) = ok (bool (is_before (compare_int64_double a f)))
  cmp_lt (float f) (int b) = ok (bool (is_after (compare_int64_double b f)))
  cmp_lt (float f) (float g) = ok (bool (lt f g))
  cmp_lt a b = err non_numeric

  -- A NaN on the left is tested if the left is a double, else one on the right.
  unfoldable pub cmp_le : Value F → Value F → Result Error (Value F)
  unfolding compare_int64_double
  cmp_le (int a) (int b) = ok (bool (signed_le a b))
  cmp_le (int a) (float f) = ok (bool (not (is_nan f) && not (is_after (compare_int64_double a f))))
  cmp_le (float f) (int b) =
      ok (bool (not (is_nan f) && not (is_before (compare_int64_double b f))))
  cmp_le (float f) (float g) = ok (bool (not (is_nan f) && le f g))
  cmp_le a b = err non_numeric

  unfoldable pub nth_value : Values F → ℕ → Value F
  nth_value none_left n = nil
  nth_value (value v vs) zero = v
  nth_value (value v vs) (suc n) = nth_value vs n

  unfoldable pub unbox_multi : Value F → ℕ → Value F
  unfolding nth_value
  unbox_multi (multi vs) idx = nth_value vs idx
  unbox_multi v zero = v
  unbox_multi v (suc idx) = nil
