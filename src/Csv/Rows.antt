-- ===== src/Csv/Rows.antt =====
-- A row that was written is read back, with the end of its line.
use fakelua.Base.{ℕ, zero, suc, ◌+◌, ◌≤◌, ◌<◌, ◌≡◌, refl, ap, ◌∙◌, arith, Bool, true, false}
use fakelua.Base.{
  List, [], ◌∷◌, ◌++◌, append_assoc, Option, none, some, length, length-append, ◌==◌, Bool-cases,
  inl, inr, if◌then◌else◌,
}
use fakelua.Base.Result.{Result, ok}
use fakelua.Csv.{CsvError, newline, carriage_return, parse_field, parse_row, after_field}
use fakelua.Csv.{skip_empty_line, is_blank}
use fakelua.Csv.Encode.{encode_field, encode_row, need_quote}
use fakelua.Csv.Fields.{IsSeparator, EndsField, parse_field-encode_field}

-- What follows a row: the end of the input, or the end of the line and more.
abbrev pub row_end : Option (List ℕ) → List ℕ
row_end none = []
row_end (some more) = newline ∷ more

abbrev pub row_rest : Option (List ℕ) → List ℕ
row_rest none = []
row_rest (some more) = more

abbrev pub all_blank : List ℕ → Bool
all_blank [] = true
all_blank (c ∷ str) = if is_blank c then all_blank str else false

-- A row that does not look like an empty line: of several fields, or of one that is not blank.
abbrev pub IsRow : List (List ℕ) → Type 0
IsRow [] = ⊥
IsRow (field ∷ []) = all_blank field ≡ false
IsRow (field ∷ next ∷ row) = Unit {0}

module _ (sep : ℕ) (valid : IsSeparator sep) where
  row_step :
      (rounds : ℕ) (acc : List (List ℕ)) (bytes field rest : List ℕ)
      → parse_field sep bytes ≡ ok (field, rest)
      → parse_row sep (suc rounds) acc bytes
        ≡ after_field sep (parse_row sep rounds (acc ++ field ∷ [])) (acc ++ field ∷ []) rest
  unfolding parse_row
  row_step rounds acc bytes field rest read = rw read refl

  row_end-EndsField : (o : Option (List ℕ)) → EndsField sep (row_end o)
  row_end-EndsField none = tt
  row_end-EndsField (some more) = (ground arith, refl)

  sep-EndsField : (rest : List ℕ) → EndsField sep (sep ∷ rest)
  sep-EndsField rest = (ground (arith, valid.ascii), valid.not_quote)

  at_row_end :
      (next_field : List ℕ → Result CsvError (List (List ℕ) × List ℕ)) (row : List (List ℕ))
      (o : Option (List ℕ))
      → after_field sep next_field row (row_end o) ≡ ok (row, row_rest o)
  unfolding after_field
  at_row_end next_field row none = refl
  at_row_end next_field row (some more) = ground (arith, valid.not_newline)

  at_separator :
      (next_field : List ℕ → Result CsvError (List (List ℕ) × List ℕ)) (row : List (List ℕ))
      (rest : List ℕ)
      → after_field sep next_field row (sep ∷ rest) ≡ next_field rest
  unfolding after_field
  at_separator next_field row rest = ground (arith, valid.ascii)

  pub parse_row-encode_row :
      (row : List (List ℕ)) (rounds : ℕ) (acc : List (List ℕ)) (o : Option (List ℕ))
      → 0 < length row
      → length row ≤ rounds
      → parse_row sep rounds acc (encode_row sep row ++ row_end o) ≡ ok (acc ++ row, row_rest o)
  unfolding encode_row
  parse_row-encode_row [] rounds acc o some_field enough = absurd (omega arith)
  parse_row-encode_row (f ∷ row) zero acc o some_field enough = absurd (omega arith)
  parse_row-encode_row (f ∷ []) (suc rounds) acc o some_field enough =
      row_step rounds acc (encode_field sep f ++ row_end o) f (row_end o)
        (parse_field-encode_field sep valid f (row_end o) (row_end-EndsField o))
      ∙ at_row_end (parse_row sep rounds (acc ++ f ∷ [])) (acc ++ f ∷ []) o
  parse_row-encode_row (f ∷ g ∷ row) (suc rounds) acc o some_field enough =
      ap (parse_row sep (suc rounds) acc)
        (append_assoc (encode_field sep f) (sep ∷ encode_row sep (g ∷ row)) (row_end o))
      ∙ row_step rounds acc _ f (sep ∷ encode_row sep (g ∷ row) ++ row_end o) (
          parse_field-encode_field sep valid f (sep ∷ encode_row sep (g ∷ row) ++ row_end o)
            (sep-EndsField (encode_row sep (g ∷ row) ++ row_end o)))
      ∙ at_separator (parse_row sep rounds (acc ++ f ∷ [])) (acc ++ f ∷ [])
          (encode_row sep (g ∷ row) ++ row_end o)
      ∙ parse_row-encode_row (g ∷ row) rounds (acc ++ f ∷ []) o (omega arith) (omega arith)
      ∙ ap (λ r. ok (r, row_rest o)) (append_assoc acc (f ∷ []) (g ∷ row))

  blank_byte :
      (c : ℕ) (rest : List ℕ)
      → is_blank c ≡ true
      → skip_empty_line (c ∷ rest) ≡ skip_empty_line rest
  unfolding skip_empty_line
  blank_byte c rest blank = ground (arith, blank)

  other_byte :
      (c : ℕ) (rest : List ℕ)
      → is_blank c ≡ false
      → (c == newline) ≡ false
      → (c == carriage_return) ≡ false
      → skip_empty_line (c ∷ rest) ≡ none
  unfolding skip_empty_line
  other_byte c rest not_blank not_newline not_return = ground arith

  plain_line :
      (str rest : List ℕ)
      → need_quote sep str ≡ false
      → (all_blank str ≡ true → skip_empty_line rest ≡ none)
      → skip_empty_line (str ++ rest) ≡ none
  plain_line [] rest plain after = after refl
  plain_line (c ∷ str) rest plain after = elim (Bool-cases (is_blank c)) [
    | inl blank ↦
        blank_byte c (str ++ rest) blank
        ∙ plain_line str rest (ground (arith, plain)) (λ all. after (ground (arith, blank, all)))
    | inr other ↦ other_byte c (str ++ rest) other (ground (arith, plain)) (ground (arith, plain))
  ]

  field_line :
      (str rest : List ℕ)
      → (all_blank str ≡ true → skip_empty_line rest ≡ none)
      → skip_empty_line (encode_field sep str ++ rest) ≡ none
  unfolding skip_empty_line encode_field
  field_line str rest after = elim (Bool-cases (need_quote sep str)) [
    | inl quoted ↦ rw quoted refl
    | inr plain ↦ rw plain (plain_line str rest plain after)
  ]

  pub encode_row_line :
      (row : List (List ℕ)) (o : Option (List ℕ))
      → IsRow row
      → skip_empty_line (encode_row sep row ++ row_end o) ≡ none
  unfolding encode_row
  encode_row_line [] o full = absurd full
  encode_row_line (f ∷ []) o full = field_line f (row_end o) (λ blank. ground (arith, blank, full))
  encode_row_line (f ∷ g ∷ row) o full =
      ap skip_empty_line
        (append_assoc (encode_field sep f) (sep ∷ encode_row sep (g ∷ row)) (row_end o))
      ∙ field_line f (sep ∷ encode_row sep (g ∷ row) ++ row_end o)
          (λ _. separator_line (encode_row sep (g ∷ row) ++ row_end o))
    where
      separator_line : (rest : List ℕ) → skip_empty_line (sep ∷ rest) ≡ none
      separator_line rest = other_byte sep rest valid.not_blank valid.not_newline valid.not_return

  pub length-encode_row : (row : List (List ℕ)) → length row ≤ length (encode_row sep row) + 1
  unfolding encode_row
  length-encode_row [] = omega arith
  length-encode_row (f ∷ []) = omega arith
  length-encode_row (f ∷ g ∷ row) = omega (
    arith,
    length-append (encode_field sep f) (sep ∷ encode_row sep (g ∷ row)),
    length-encode_row (g ∷ row),
  )

  encode_field_some : (str : List ℕ) → all_blank str ≡ false → 0 < length (encode_field sep str)
  unfolding encode_field
  encode_field_some [] full = absurd (ground (arith, full))
  encode_field_some (c ∷ str) full = elim (Bool-cases (need_quote sep (c ∷ str))) [
    | inl quoted ↦ rw quoted (omega arith)
    | inr plain ↦ rw plain (omega arith)
  ]

  pub encode_row_some :
      (row : List (List ℕ)) → IsRow row → (0 < length row) × (0 < length (encode_row sep row))
  unfolding encode_row
  encode_row_some [] full = absurd full
  encode_row_some (f ∷ []) full = (omega arith, encode_field_some f full)
  encode_row_some (f ∷ g ∷ row) full = (
    omega arith,
    omega (arith, length-append (encode_field sep f) (sep ∷ encode_row sep (g ∷ row))),
  )
