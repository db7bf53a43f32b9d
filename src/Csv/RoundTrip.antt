-- ===== src/Csv/RoundTrip.antt =====
-- `parse` reads back the rows that were written.
use fakelua.Base.{ℕ, zero, suc, ◌+◌, ◌≤◌, ◌<◌, ◌≡◌, refl, sym, ap, subst, ◌∙◌, arith, false, All}
use fakelua.Base.{
  List, [], ◌∷◌, ◌++◌, append_assoc, append-nil, Option, none, some, length, length-append,
}
use fakelua.Base.Result.{Result, ok}
use fakelua.Csv.{
  CsvError, newline, skip_empty_line, parse_row, parse_line, parse_loop, parse, skip_bom,
  starts_with_bom,
}
use fakelua.Csv.Encode.{encode_row, encode_rows}
use fakelua.Csv.Fields.{IsSeparator}
use fakelua.Csv.Rows.{
  row_end, row_rest, IsRow, parse_row-encode_row, encode_row_line, encode_row_some,
}
use fakelua.Csv.Rows.{length-encode_row}

module _ (sep : ℕ) (valid : IsSeparator sep) where
  line_step :
      (again : List (List (List ℕ)) → List ℕ → Result CsvError (List (List (List ℕ))))
      (rows : List (List (List ℕ))) (bytes : List ℕ) (row : List (List ℕ)) (rest : List ℕ)
      → 0 < length bytes
      → skip_empty_line bytes ≡ none
      → parse_row sep (length bytes + 1) [] bytes ≡ ok (row, rest)
      → parse_line sep again rows bytes ≡ again (rows ++ row ∷ []) rest
  unfolding parse_line
  line_step again rows [] row rest some_byte full read = absurd (omega arith)
  line_step again rows (b ∷ bytes) row rest some_byte full read = rw (full, read, parse_line) refl

  -- The lines of a row and of what follows it.
  row_line :
      (rounds : ℕ) (rows : List (List (List ℕ))) (row : List (List ℕ)) (o : Option (List ℕ))
      → IsRow row
      → skip_bom rows (encode_row sep row ++ row_end o) ≡ encode_row sep row ++ row_end o
      → parse_loop sep (suc rounds) rows (encode_row sep row ++ row_end o)
        ≡ parse_loop sep rounds (rows ++ row ∷ []) (row_rest o)
  unfolding parse_loop
  row_line rounds rows row o full no_bom =
      ap (parse_line sep (parse_loop sep rounds) rows) no_bom
      ∙ line_step (parse_loop sep rounds) rows (encode_row sep row ++ row_end o) row (row_rest o)
          (omega (
            arith,
            length-append (encode_row sep row) (row_end o),
            (encode_row_some sep valid row full).1,
          ))
          (encode_row_line sep valid row o full)
          (parse_row-encode_row sep valid row _ [] o (encode_row_some sep valid row full).0 (
            omega (
              arith,
              length-append (encode_row sep row) (row_end o),
              length-encode_row sep valid row,
            )))

  at_end :
      (rounds : ℕ) (rows : List (List (List ℕ))) → parse_loop sep (suc rounds) rows [] ≡ ok rows
  unfolding parse_loop parse_line skip_empty_line
  at_end rounds [] = refl
  at_end rounds (row ∷ rows) = refl

  skip_bom-snoc :
      (rows : List (List (List ℕ))) (row : List (List ℕ)) (bytes : List ℕ)
      → skip_bom (rows ++ row ∷ []) bytes ≡ bytes
  skip_bom-snoc [] row bytes = refl
  skip_bom-snoc (_ ∷ rows) row bytes = refl

  parse_loop-encode_rows :
      (rows acc : List (List (List ℕ))) (rounds : ℕ)
      → All IsRow rows
      → length rows < rounds
      → skip_bom acc (encode_rows sep rows) ≡ encode_rows sep rows
      → parse_loop sep rounds acc (encode_rows sep rows) ≡ ok (acc ++ rows)
  unfolding encode_rows
  parse_loop-encode_rows [] acc zero all enough no_bom = absurd (omega arith)
  parse_loop-encode_rows [] acc (suc rounds) all enough no_bom =
      at_end rounds acc ∙ ap ok (sym (append-nil acc))
  parse_loop-encode_rows (row ∷ rows) acc zero all enough no_bom = absurd (omega arith)
  parse_loop-encode_rows (row ∷ []) acc (suc zero) all enough no_bom = absurd (omega arith)
  parse_loop-encode_rows (row ∷ []) acc (suc (suc rounds)) (full, _) enough no_bom =
      ap (parse_loop sep (suc (suc rounds)) acc) (sym (append-nil (encode_row sep row)))
      ∙ row_line (suc rounds) acc row none full
          (subst (λ b. skip_bom acc b ≡ b) (sym (append-nil (encode_row sep row))) no_bom)
      ∙ at_end rounds (acc ++ row ∷ [])
  parse_loop-encode_rows (row ∷ next ∷ rows) acc (suc rounds) (full, all) enough no_bom =
      row_line rounds acc row (some (encode_rows sep (next ∷ rows))) full no_bom
      ∙ parse_loop-encode_rows (next ∷ rows) (acc ++ row ∷ []) rounds all (omega arith)
          (skip_bom-snoc acc row (encode_rows sep (next ∷ rows)))
      ∙ ap ok (append_assoc acc (row ∷ []) (next ∷ rows))

  length-encode_rows :
      (rows : List (List (List ℕ))) → All IsRow rows → length rows ≤ length (encode_rows sep rows)
  unfolding encode_rows
  length-encode_rows [] all = omega arith
  length-encode_rows (row ∷ []) (full, _) = (encode_row_some sep valid row full).1
  length-encode_rows (row ∷ next ∷ rows) (full, all) = omega (
    arith,
    length-append (encode_row sep row) (newline ∷ encode_rows sep (next ∷ rows)),
    length-encode_rows (next ∷ rows) all,
  )

  -- With an ASCII separator that is none of quote, end of line and blank: rows of at least one
  -- field, none of a single field that is blank, are read back from the text that is written for
  -- them, when that text does not begin with a byte order mark.
  pub parse-encode_rows :
      (rows : List (List (List ℕ)))
      → All IsRow rows
      → starts_with_bom (encode_rows sep rows) ≡ false
      → parse sep (encode_rows sep rows) ≡ ok rows
  unfolding parse
  parse-encode_rows rows all no_bom =
      parse_loop-encode_rows rows [] _ all (omega (arith, length-encode_rows rows all))
        (unchanged (encode_rows sep rows) no_bom)
    where
      unchanged : (bytes : List ℕ) → starts_with_bom bytes ≡ false → skip_bom [] bytes ≡ bytes
      unchanged [] no_bom = refl
      unchanged (a ∷ []) no_bom = refl
      unchanged (a ∷ b ∷ []) no_bom = refl
      unchanged (a ∷ b ∷ c ∷ rest) no_bom = rw no_bom refl
