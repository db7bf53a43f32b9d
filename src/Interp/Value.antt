-- ===== src/Interp/Value.antt =====
-- The values that the interpreter of src/interp moves (`CVar`), the floating-point operations that it
-- takes from the C++ library, and its exceptions.
use fakelua.Base.{ℕ, Bool, List}

-- `double`, with what <cmath> and the language give. `modf` gives the fraction and the integral part;
-- `of_int` and `to_int` are the casts between `int64_t`, a pattern of 64 bits, and `double`.
pub record Floats : Type 1 where
  pub F : Type 0
  pub of_int : ℕ → F
  pub to_int : F → ℕ
  pub add : F → F → F
  pub sub : F → F → F
  pub mul : F → F → F
  pub div : F → F → F
  pub pow : F → F → F
  pub neg : F → F
  pub floor : F → F
  pub ceil : F → F
  pub modf : F → F × F
  pub lt : F → F → Bool
  pub le : F → F → Bool
  pub eq : F → F → Bool
  pub is_nan : F → Bool
  pub is_finite : F → Bool
  pub zero_float : F
  -- 2 ^ 63 and -2 ^ 63
  pub two_63 : F
  pub minus_two_63 : F

-- A `CVar` by its type. `str` stands for `String` and `StringId`; a table and a closure are
-- addresses, a table with its `CONST_FLAG`; a multi value holds its values.
mutual
  pub data Value (F : Type 0) : Type 0 where
    nil : Value F
    bool : Bool → Value F
    int : ℕ → Value F
    float : F → Value F
    str : List ℕ → Value F
    table : Bool → ℕ → Value F
    multi : Values F → Value F
    closure : ℕ → Value F

  pub data Values (F : Type 0) : Type 0 where
    none_left : Values F
    value : Value F → Values F → Values F

pub data Error : Type 0 where
  non_numeric no_integer_representation bitwise_non_numeric : Error
  floor_division_by_zero modulo_by_zero : Error
  for_step_zero for_step_not_number : Error
  index_non_table index_nil index_nan const_table : Error
  call_non_function too_many_arguments box_missing : Error
  concat_non_string length_of_non_table : Error
  thrown : List ℕ → Error
  null_prototype : Error
  -- What the source leaves undefined, such as a jump out of the code.
  undefined : Error
