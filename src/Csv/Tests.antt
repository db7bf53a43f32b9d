-- ===== src/Csv/Tests.antt =====
-- Runs of the reader and the writer, and the theorems' examples.
use fakelua.Base.{ℕ, ◌≡◌, ◌≢◌, refl, List, [], ◌∷◌}
use fakelua.Base.Result.{ok, err}
use fakelua.Csv.{
  parse, parse_loop, parse_line, parse_row, after_field, parse_field, parse_unquoted_field,
}
use fakelua.Csv.{
  parse_quoted_field, after_quote, skip_empty_line, unterminated_field, unexpected_character,
}
use fakelua.Csv.{out_of_rounds}
use fakelua.Csv.Encode.{encode_rows, encode_row, encode_field, double_quotes}
use fakelua.Csv.Fields.{IsSeparator}
use fakelua.Csv.RoundTrip.{parse-encode_rows}
use fakelua.Csv.Total.{parse-ne-out_of_rounds}

abbrev comma : ℕ
comma = 0x2c

comma-IsSeparator : IsSeparator comma
comma-IsSeparator = record {
  ascii = refl;
  not_quote = refl;
  not_newline = refl;
  not_return = refl;
  not_blank = refl;
}

-- a,"b,""" and an empty field
abbrev rows : List (List (List ℕ))
rows = ((0x61 ∷ []) ∷ (0x62 ∷ 0x2c ∷ 0x22 ∷ []) ∷ []) ∷ ([] ∷ [] ∷ []) ∷ []

abbrev text : List ℕ
text = 0x61 ∷ 0x2c ∷ 0x22 ∷ 0x62 ∷ 0x2c ∷ 0x22 ∷ 0x22 ∷ 0x22 ∷ 0x0a ∷ 0x2c ∷ []

rows_written : encode_rows comma rows ≡ text
unfolding encode_rows encode_row encode_field double_quotes
rows_written = refl

text_read : parse comma text ≡ ok rows
unfolding parse parse_loop parse_line parse_row after_field parse_field parse_unquoted_field
    parse_quoted_field after_quote skip_empty_line
text_read = refl

not_ended : parse comma (0x22 ∷ 0x61 ∷ []) ≡ err unterminated_field
unfolding parse parse_loop parse_line parse_row parse_field parse_quoted_field skip_empty_line
not_ended = refl

not_separated : parse comma (0x22 ∷ 0x22 ∷ 0x61 ∷ []) ≡ err unexpected_character
unfolding parse parse_loop parse_line parse_row parse_field parse_quoted_field after_quote
    skip_empty_line
not_separated = refl

-- A row of one empty field is written as an empty line, which is skipped.
empty_field_lost : parse comma (encode_rows comma (([] ∷ []) ∷ [])) ≡ ok []
unfolding parse parse_loop parse_line skip_empty_line encode_rows encode_row encode_field
empty_field_lost = refl

-- A separator that is not ASCII does not separate.
not_split :
    parse 0xa7 (encode_rows 0xa7 (((0x61 ∷ []) ∷ (0x62 ∷ []) ∷ []) ∷ []))
    ≡ ok (((0x61 ∷ 0xa7 ∷ 0x62 ∷ []) ∷ []) ∷ [])
unfolding parse parse_loop parse_line parse_row after_field parse_field parse_unquoted_field
    skip_empty_line encode_rows encode_row encode_field
not_split = refl

parse-encode_rows_example : parse comma (encode_rows comma rows) ≡ ok rows
unfolding encode_rows encode_row encode_field double_quotes
parse-encode_rows_example = parse-encode_rows comma comma-IsSeparator rows (tt, (tt, tt)) refl

parse-ne-out_of_rounds_example : parse comma text ≢ err out_of_rounds
parse-ne-out_of_rounds_example = parse-ne-out_of_rounds comma text
