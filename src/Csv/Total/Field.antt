-- ===== src/Csv/Total/Field.antt =====
-- Each reader of a field of src/native/csv/native_csv.cpp ends in front of what may follow a field.
use fakelua.Base.{ℕ, suc, ◌≤◌, ◌≡◌, ◌≢◌, refl, arith, Bool, true, false}
use fakelua.Base.{List, [], ◌∷◌, ◌++◌, length, if◌then◌else◌, ◌==◌}
use fakelua.Base.Result.{Result, ok, err, ◌>>=◌}
use fakelua.Csv.{CsvError, out_of_rounds, quote, ends_field}
use fakelua.Csv.{is_blank, after_quote, parse_quoted_field, parse_unquoted_field, parse_field}

abbrev pub AtEnd : ℕ → List ℕ → Type 0
AtEnd sep [] = Unit {0}
AtEnd sep (c ∷ rest) = ends_field sep c ≡ true

-- What a reader of a field leaves of `n` bytes.
abbrev pub EndsWithin : ℕ → ℕ → Result CsvError (List ℕ × List ℕ) → Type 0
EndsWithin sep n (ok (field, rest)) = (length rest ≤ n) × AtEnd sep rest
EndsWithin sep n (err thrown) = thrown ≢ out_of_rounds

abbrev pub AfterQuote : ℕ → ℕ → Result CsvError (List ℕ) → Type 0
AfterQuote sep n (ok rest) = (length rest ≤ n) × AtEnd sep rest
AfterQuote sep n (err thrown) = thrown ≢ out_of_rounds

-- A test of a byte, with what it says.
pub either_test :
    {A : Type 0} (P : A → Type 0) (test : Bool) (x y : A)
    → (test ≡ true → P x)
    → (test ≡ false → P y)
    → P (if test then x else y)
either_test P true x y h k = h refl
either_test P false x y h k = k refl

pub either_elim :
    {A : Type 0} (P : A → Type 0) (test : Bool) (x y : A)
    → (test ≡ true → P x)
    → (test ≡ false → P y)
    → P (elim test [ true ↦ x | false ↦ y ])
either_elim P true x y h k = h refl
either_elim P false x y h k = k refl

-- And what a reader of a row leaves.

module _ (sep : ℕ) where
  pub more_bytes :
      (n m : ℕ) (r : Result CsvError (List ℕ × List ℕ))
      → n ≤ m
      → EndsWithin sep n r
      → EndsWithin sep m r
  more_bytes n m (ok (field, rest)) h (within, ends) = (omega arith, ends)
  more_bytes n m (err thrown) h proper = proper

  pub after_quote_end : (bytes : List ℕ) → AfterQuote sep (length bytes) (after_quote sep bytes)
  unfolding after_quote
  after_quote_end [] = (omega arith, tt)
  after_quote_end (c ∷ bytes) =
      either_elim (AfterQuote sep (suc (length bytes))) (ends_field sep c) _ _
        (λ ends. (omega arith, ends))
        (λ _.
          either_elim (AfterQuote sep (suc (length bytes))) (is_blank c) _ _
            (λ _. one_more (after_quote sep bytes) (after_quote_end bytes)) (λ _. λ e. cc))
    where
      one_more :
          (r : Result CsvError (List ℕ))
          → AfterQuote sep (length bytes) r
          → AfterQuote sep (suc (length bytes)) r
      one_more (ok p) (within, ends) = (omega arith, ends)
      one_more (err thrown) proper = proper

  pub with_field :
      (n : ℕ) (field : List ℕ) (r : Result CsvError (List ℕ))
      → AfterQuote sep n r
      → EndsWithin sep n (r >>= λ p. ok (field, p))
  with_field n field (ok p) h = h
  with_field n field (err thrown) h = h

  pub parse_quoted_field_end :
      (field bytes : List ℕ) → EndsWithin sep (length bytes) (parse_quoted_field sep field bytes)
  unfolding parse_quoted_field
  parse_quoted_field_end field [] = λ e. cc
  parse_quoted_field_end field (c ∷ []) = ground arith
  parse_quoted_field_end field (c ∷ d ∷ bytes) =
      either_elim (EndsWithin sep (suc (suc (length bytes)))) (c == quote) _ _
        (λ _.
          either_elim (EndsWithin sep (suc (suc (length bytes)))) (d == quote) _ _
            (λ _.
              more_bytes (length bytes) _ _ (omega arith)
                (parse_quoted_field_end (field ++ quote ∷ []) bytes))
            (λ _.
              more_bytes (suc (length bytes)) _ _ (omega arith)
                (with_field _ field (after_quote sep (d ∷ bytes)) (after_quote_end (d ∷ bytes)))))
        (λ _.
          more_bytes (suc (length bytes)) _ _ (omega arith)
            (parse_quoted_field_end (field ++ c ∷ []) (d ∷ bytes)))

  pub parse_unquoted_field_end :
      (field bytes : List ℕ)
      → EndsWithin sep (length bytes) (ok (parse_unquoted_field sep field bytes))
  unfolding parse_unquoted_field
  parse_unquoted_field_end field [] = (omega arith, tt)
  parse_unquoted_field_end field (c ∷ bytes) =
      either_elim (λ r. EndsWithin sep (suc (length bytes)) (ok r)) (ends_field sep c) _ _
        (λ ends. (omega arith, ends))
        (λ _.
          more_bytes (length bytes) _ (ok (parse_unquoted_field sep (field ++ c ∷ []) bytes))
            (omega arith) (parse_unquoted_field_end (field ++ c ∷ []) bytes))

  pub parse_field_end : (bytes : List ℕ) → EndsWithin sep (length bytes) (parse_field sep bytes)
  unfolding parse_field
  parse_field_end [] = (omega arith, tt)
  parse_field_end (c ∷ bytes) =
      either_test (EndsWithin sep (suc (length bytes))) (c == quote) _ _
        (λ _. more_bytes (length bytes) _ _ (omega arith) (parse_quoted_field_end [] bytes))
        (λ _. parse_unquoted_field_end [] (c ∷ bytes))
