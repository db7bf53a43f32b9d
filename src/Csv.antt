-- ===== src/Csv.antt =====
-- The csv library: src/native/csv/native_csv.cpp. A reader's position is the list of the bytes from there
-- on; a row is the list of its fields as strings.
pub mod Encode
mod Fields
mod Rows
pub mod RoundTrip
pub mod Total
mod Tests
use fakelua.Base.{ℕ, zero, suc, ◌+◌, Bool, true, false, not, ◌&&◌, ◌||◌, List, [], ◌∷◌, ◌++◌}
use fakelua.Base.{ltb, ◌==◌, if◌then◌else◌, length, Option, none, some}
use fakelua.Base.Result.{Result, ok, err, ◌>>=◌}

pub data CsvError : Type 0 where
  unexpected_character unterminated_field : CsvError
  -- Of the model alone: a loop has no round left.
  out_of_rounds : CsvError

abbrev pub quote : ℕ
quote = 0x22

abbrev pub newline : ℕ
newline = 0x0a

abbrev pub carriage_return : ℕ
carriage_return = 0x0d

abbrev pub is_blank : ℕ → Bool
is_blank c = c == 0x20 || c == 0x09

-- `c == separator` of a `uint8_t` and a `char`, which is signed.
abbrev pub is_separator : ℕ → ℕ → Bool
is_separator sep c = ltb sep 0x80 && c == sep

abbrev pub ends_field : ℕ → ℕ → Bool
ends_field sep c = is_separator sep c || (c == newline || c == carriage_return)

abbrev pub skip_newline : List ℕ → List ℕ
skip_newline [] = []
skip_newline (c ∷ rest) = if c == newline then rest else c ∷ rest

-- `SkipEmptyLines`: what follows an empty line, if there is one.
unfoldable pub skip_empty_line : List ℕ → Option (List ℕ)
skip_empty_line [] = none
skip_empty_line (c ∷ rest) = elim (is_blank c) [
  | true ↦ skip_empty_line rest
  | false ↦
      if c == newline
      then some rest
      else (if c == carriage_return then some (skip_newline rest) else none)
]

-- After the closing quote.
unfoldable pub after_quote : ℕ → List ℕ → Result CsvError (List ℕ)
after_quote sep [] = ok []
after_quote sep (c ∷ rest) = elim (ends_field sep c) [
  | true ↦ ok (c ∷ rest)
  | false ↦ elim (is_blank c) [ true ↦ after_quote sep rest | false ↦ err unexpected_character ]
]

abbrev Field : Type 0
Field = List ℕ

unfoldable pub parse_quoted_field : ℕ → Field → List ℕ → Result CsvError (Field × List ℕ)
parse_quoted_field sep field [] = err unterminated_field
parse_quoted_field sep field (c ∷ []) =
    if c == quote then ok (field, []) else err unterminated_field
parse_quoted_field sep field (c ∷ d ∷ rest) = elim (c == quote) [
  | true ↦ elim (d == quote) [
    | true ↦ parse_quoted_field sep (field ++ quote ∷ []) rest
    | false ↦ after_quote sep (d ∷ rest) >>= λ p. ok (field, p)
  ]
  | false ↦ parse_quoted_field sep (field ++ c ∷ []) (d ∷ rest)
]

unfoldable pub parse_unquoted_field : ℕ → Field → List ℕ → Field × List ℕ
parse_unquoted_field sep field [] = (field, [])
parse_unquoted_field sep field (c ∷ rest) = elim (ends_field sep c) [
  | true ↦ (field, c ∷ rest)
  | false ↦ parse_unquoted_field sep (field ++ c ∷ []) rest
]

unfoldable pub parse_field : ℕ → List ℕ → Result CsvError (Field × List ℕ)
parse_field sep [] = ok ([], [])
parse_field sep (c ∷ rest) =
    if c == quote
    then parse_quoted_field sep [] rest
    else ok (parse_unquoted_field sep [] (c ∷ rest))

-- The end of a row, or its next field.
unfoldable pub after_field :
    ℕ
    → (List ℕ → Result CsvError (List Field × List ℕ))
    → List Field
    → List ℕ
    → Result CsvError (List Field × List ℕ)
after_field sep next_field row [] = ok (row, [])
after_field sep next_field row (c ∷ rest) =
    if is_separator sep c
    then next_field rest
    else if c == newline
    then ok (row, rest)
    else (if c == carriage_return then ok (row, skip_newline rest) else ok (row, c ∷ rest))

unfoldable pub parse_row : ℕ → ℕ → List Field → List ℕ → Result CsvError (List Field × List ℕ)
parse_row sep zero row bytes = err out_of_rounds
parse_row sep (suc rounds) row bytes = do
  (field, rest) ← parse_field sep bytes
  after_field sep (parse_row sep rounds (row ++ field ∷ [])) (row ++ field ∷ []) rest

abbrev pub starts_with_bom : List ℕ → Bool
starts_with_bom (a ∷ b ∷ c ∷ rest) = a == 0xef && (b == 0xbb && c == 0xbf)
starts_with_bom _ = false

abbrev pub skip_bom : List (List Field) → List ℕ → List ℕ
skip_bom [] (a ∷ b ∷ c ∷ rest) =
    if starts_with_bom (a ∷ b ∷ c ∷ rest) then rest else a ∷ b ∷ c ∷ rest
skip_bom _ bytes = bytes

-- A round of `parse` behind the byte order mark: an empty line, the end, or a row.
unfoldable pub parse_line :
    ℕ
    → (List (List Field) → List ℕ → Result CsvError (List (List Field)))
    → List (List Field)
    → List ℕ
    → Result CsvError (List (List Field))
parse_line sep again rows bytes = elim (skip_empty_line bytes) [
  | some rest ↦ again rows rest
  | none ↦ elim bytes [
    | [] ↦ ok rows
    | b ∷ bs ↦ parse_row sep (length (b ∷ bs) + 1) [] (b ∷ bs) >>= λ (row, rest).
        again (rows ++ row ∷ []) rest
  ]
]

unfoldable pub parse_loop : ℕ → ℕ → List (List Field) → List ℕ → Result CsvError (List (List Field))
parse_loop sep zero rows bytes = err out_of_rounds
parse_loop sep (suc rounds) rows bytes =
    parse_line sep (parse_loop sep rounds) rows (skip_bom rows bytes)

unfoldable pub parse : ℕ → List ℕ → Result CsvError (List (List Field))
parse sep bytes = parse_loop sep (length bytes + 1) [] bytes
