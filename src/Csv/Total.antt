-- ===== src/Csv/Total.antt =====
-- The loops of the reader end: each round takes a byte at least.
mod Field
use fakelua.Base.{ℕ, zero, suc, ◌+◌, ◌-◌, ◌≤◌, ◌<◌, ◌≡◌, ◌≢◌, refl, arith, Bool, true, false}
use fakelua.Base.{List, [], ◌∷◌, ◌++◌, Option, none, some, length, if◌then◌else◌, ◌==◌}
use fakelua.Base.Result.{Result, ok, err, ◌>>=◌}
use fakelua.Csv.{
  CsvError, out_of_rounds, newline, carriage_return, quote, is_separator, ends_field, skip_newline,
}
use fakelua.Csv.{
  skip_empty_line, is_blank, after_quote, parse_quoted_field, parse_unquoted_field, parse_field,
  after_field,
}
use fakelua.Csv.{parse_row, parse_line, parse_loop, parse, skip_bom}
use fakelua.Csv.Total.Field.{AtEnd, EndsWithin, either_test, either_elim, parse_field_end}

abbrev Takes : ℕ → Result CsvError (List (List ℕ) × List ℕ) → Type 0
Takes n (ok (row, rest)) = length rest ≤ n - 1
Takes n (err thrown) = thrown ≢ out_of_rounds

abbrev Proper : {A : Type 0} → Result CsvError A → Type 0
Proper (ok value) = Unit {0}
Proper (err thrown) = thrown ≢ out_of_rounds

abbrev Skips : ℕ → Option (List ℕ) → Type 0
Skips n none = Unit {0}
Skips n (some rest) = length rest < n

length-skip_bom :
    (rows : List (List (List ℕ))) (bytes : List ℕ) → length (skip_bom rows bytes) ≤ length bytes
length-skip_bom [] [] = omega arith
length-skip_bom [] (a ∷ []) = omega arith
length-skip_bom [] (a ∷ b ∷ []) = omega arith
length-skip_bom [] (a ∷ b ∷ c ∷ rest) = ground arith
length-skip_bom (row ∷ rows) bytes = omega arith

module _ (sep : ℕ) where
  length-skip_newline : (bytes : List ℕ) → length (skip_newline bytes) ≤ length bytes
  length-skip_newline [] = omega arith
  length-skip_newline (c ∷ bytes) = ground arith

  after_field-Takes :
      (next_field : List ℕ → Result CsvError (List (List ℕ) × List ℕ)) (row : List (List ℕ))
      (rest : List ℕ) (n : ℕ)
      → length rest ≤ n
      → AtEnd sep rest
      → ((bytes : List ℕ) → length bytes < n → Takes n (next_field bytes))
      → Takes n (after_field sep next_field row rest)
  unfolding after_field
  after_field-Takes next_field row [] n within ends each = omega arith
  after_field-Takes next_field row (c ∷ rest) n within ends each =
      either_test (Takes n) (is_separator sep c) _ _ (λ _. each rest (omega arith))
        (λ not_sep.
          either_test (Takes n) (c == newline) _ _ (λ _. omega arith)
            (λ not_newline.
              either_test (Takes n) (c == carriage_return) _ _
                (λ _. omega (arith, length-skip_newline rest))
                (λ not_return. absurd (ground (arith, ends, not_sep, not_newline, not_return)))))

  fewer : (n m : ℕ) (r : Result CsvError (List (List ℕ) × List ℕ)) → n ≤ m → Takes n r → Takes m r
  fewer n m (ok (row, rest)) h within = omega arith
  fewer n m (err thrown) h proper = proper

  parse_row-Takes :
      (rounds : ℕ) (row : List (List ℕ)) (bytes : List ℕ)
      → length bytes < rounds
      → Takes (length bytes) (parse_row sep rounds row bytes)
  unfolding parse_row
  parse_row-Takes zero row bytes h = absurd (omega arith)
  parse_row-Takes (suc rounds) row bytes h =
      behind (parse_field sep bytes) (parse_field_end sep bytes) (λ row' rest shorter.
        fewer _ _ _ (omega arith) (parse_row-Takes rounds row' rest (omega arith)))
    where
      behind :
          (r : Result CsvError (List ℕ × List ℕ))
          → EndsWithin sep (length bytes) r
          → ((row' : List (List ℕ)) (rest : List ℕ)
              → length rest < length bytes
              → Takes (length bytes) (parse_row sep rounds row' rest))
          → Takes (length bytes) (
              r >>= λ (field, rest).
              after_field sep (parse_row sep rounds (row ++ field ∷ [])) (row ++ field ∷ []) rest)
      behind (ok (field, rest)) (within, ends) each =
          after_field-Takes (parse_row sep rounds (row ++ field ∷ [])) (row ++ field ∷ []) rest
            (length bytes) within ends (each (row ++ field ∷ []))
      behind (err thrown) proper each = proper

  skip_empty_line-Skips : (bytes : List ℕ) → Skips (length bytes) (skip_empty_line bytes)
  unfolding skip_empty_line
  skip_empty_line-Skips [] = tt
  skip_empty_line-Skips (c ∷ bytes) =
      either_elim (Skips (suc (length bytes))) (is_blank c) _ _
        (λ _. one_less (skip_empty_line bytes) (skip_empty_line-Skips bytes))
        (λ _.
          either_test (Skips (suc (length bytes))) (c == newline) _ _ (λ _. omega arith)
            (λ _.
              either_test (Skips (suc (length bytes))) (c == carriage_return) _ _
                (λ _. omega (arith, length-skip_newline bytes)) (λ _. tt)))
    where
      one_less : (o : Option (List ℕ)) → Skips (length bytes) o → Skips (suc (length bytes)) o
      one_less none h = tt
      one_less (some rest) h = omega arith

  module _ (again : List (List (List ℕ)) → List ℕ → Result CsvError (List (List (List ℕ)))) where
    -- The rest is read without running out of rounds when it is shorter than `n`.
    abbrev ReadsBelow : ℕ → Type 0
    ReadsBelow n =
        (rows : List (List (List ℕ))) (rest : List ℕ) → length rest < n → Proper (again rows rest)

    after_row-Proper :
        (n : ℕ) (rows : List (List (List ℕ))) (r : Result CsvError (List (List ℕ) × List ℕ))
        → Takes (suc n) r
        → ReadsBelow (suc n)
        → Proper (r >>= λ (row, rest). again (rows ++ row ∷ []) rest)
    after_row-Proper n rows (ok (row, rest)) takes each = each (rows ++ row ∷ []) rest (omega arith)
    after_row-Proper n rows (err thrown) proper each = proper

    line-Proper :
        (rows : List (List (List ℕ))) (n : ℕ) (line : Option (List ℕ))
        (last : Result CsvError (List (List (List ℕ))))
        → Skips n line
        → ReadsBelow n
        → Proper last
        → Proper (elim line [ some rest ↦ again rows rest | none ↦ last ])
    line-Proper rows n none last skips each proper = proper
    line-Proper rows n (some rest) last skips each proper = each rows rest skips

    parse_line-Proper :
        (rows : List (List (List ℕ))) (bytes : List ℕ)
        → ReadsBelow (length bytes)
        → Proper (parse_line sep again rows bytes)
    unfolding parse_line
    parse_line-Proper rows [] each =
        line-Proper rows 0 (skip_empty_line []) (ok rows) (skip_empty_line-Skips []) each tt
    parse_line-Proper rows (b ∷ bytes) each =
        line-Proper rows (suc (length bytes)) (skip_empty_line (b ∷ bytes)) _
          (skip_empty_line-Skips (b ∷ bytes)) each
          (after_row-Proper (length bytes) rows
            (parse_row sep (length (b ∷ bytes) + 1) [] (b ∷ bytes))
            (parse_row-Takes (length (b ∷ bytes) + 1) [] (b ∷ bytes) (omega arith)) each)

  parse_loop-Proper :
      (rounds : ℕ) (rows : List (List (List ℕ))) (bytes : List ℕ)
      → length bytes < rounds
      → Proper (parse_loop sep rounds rows bytes)
  unfolding parse_loop
  parse_loop-Proper zero rows bytes h = absurd (omega arith)
  parse_loop-Proper (suc rounds) rows bytes h =
      parse_line-Proper (parse_loop sep rounds) rows (skip_bom rows bytes) (λ rows' rest shorter.
        parse_loop-Proper rounds rows' rest (omega (arith, length-skip_bom rows bytes)))

  -- The rounds are enough for every input.
  pub parse-ne-out_of_rounds : (bytes : List ℕ) → parse sep bytes ≢ err out_of_rounds
  unfolding parse
  parse-ne-out_of_rounds bytes ran_out =
      proper (parse sep bytes) (parse_loop-Proper _ [] bytes (omega arith)) ran_out
    where
      proper : (r : Result CsvError (List (List (List ℕ)))) → Proper r → r ≢ err out_of_rounds
      proper (ok rows) h same = ground (arith, same)
      proper (err thrown) h same = h (ground (arith, same))
