-- ===== src/Csv/Fields.antt =====
-- A field that was written is read back, up to what ends it.
use fakelua.Base.{ℕ, ◌≡◌, refl, sym, ap, ◌∙◌, arith, true, false}
use fakelua.Base.{List, [], ◌∷◌, ◌++◌, append_assoc, append-nil, Bool-cases, inl, inr, ◌==◌, ltb}
use fakelua.Base.Result.{Result, ok}
use fakelua.Csv.{CsvError, quote, newline, carriage_return, is_blank, ends_field, after_quote}
use fakelua.Csv.{parse_quoted_field, parse_unquoted_field, parse_field}
use fakelua.Csv.Encode.{wants_quote, need_quote, double_quotes, encode_field}

-- A separator that is ASCII and is none of the bytes that the format uses.
pub record IsSeparator (sep : ℕ) : Type 0 where
  pub ascii : ltb sep 0x80 ≡ true
  pub not_quote : (sep == quote) ≡ false
  pub not_newline : (sep == newline) ≡ false
  pub not_return : (sep == carriage_return) ≡ false
  pub not_blank : is_blank sep ≡ false

-- What may follow a field: the end, the separator or the end of the row.
abbrev pub EndsField : ℕ → List ℕ → Type 0
EndsField sep [] = Unit {0}
EndsField sep (c ∷ rest) = (ends_field sep c ≡ true) × ((c == quote) ≡ false)

module _ (sep : ℕ) (valid : IsSeparator sep) where
  after_quote-EndsField : (rest : List ℕ) → EndsField sep rest → after_quote sep rest ≡ ok rest
  unfolding after_quote
  after_quote-EndsField [] ends = refl
  after_quote-EndsField (c ∷ rest) ends = ground (arith, ends.0)

  quoted_end :
      (field rest : List ℕ)
      → EndsField sep rest
      → parse_quoted_field sep field (quote ∷ rest) ≡ ok (field, rest)
  unfolding parse_quoted_field
  quoted_end field [] ends = refl
  quoted_end field (c ∷ rest) ends = ground (arith, ends.1, after_quote-EndsField (c ∷ rest) ends)

  quoted_byte :
      (c : ℕ) (field rest : List ℕ)
      → (c == quote) ≡ false
      → parse_quoted_field sep field (c ∷ rest) ≡ parse_quoted_field sep (field ++ c ∷ []) rest
  unfolding parse_quoted_field
  quoted_byte c field [] plain = ground (arith, plain)
  quoted_byte c field (d ∷ rest) plain = ground (arith, plain)

  quoted_quote :
      (field rest : List ℕ)
      → parse_quoted_field sep field (quote ∷ quote ∷ rest)
        ≡ parse_quoted_field sep (field ++ quote ∷ []) rest
  unfolding parse_quoted_field
  quoted_quote field rest = refl

  abbrev read : List ℕ → List ℕ → Result CsvError (List ℕ × List ℕ)
  read field rest = ok (field, rest)

  one_more :
      (field str rest : List ℕ) (c : ℕ)
      → read ((field ++ c ∷ []) ++ str) rest ≡ read (field ++ c ∷ str) rest
  one_more field str rest c = ap (λ f. ok (f, rest)) (append_assoc field (c ∷ []) str)

  parse_quoted_field-double_quotes :
      (str field rest : List ℕ)
      → EndsField sep rest
      → parse_quoted_field sep field (double_quotes str ++ quote ∷ rest) ≡ ok (field ++ str, rest)
  unfolding double_quotes
  parse_quoted_field-double_quotes [] field rest ends =
      quoted_end field rest ends ∙ ap (λ f. ok (f, rest)) (sym (append-nil field))
  parse_quoted_field-double_quotes (c ∷ str) field rest ends = elim (Bool-cases (c == quote)) [
    | inl is_quote ↦ rw is_quote (
        quoted_quote field (double_quotes str ++ quote ∷ rest)
        ∙ parse_quoted_field-double_quotes str (field ++ quote ∷ []) rest ends
        ∙ one_more field str rest quote
        ∙ ap (λ d. read (field ++ d ∷ str) rest) {x = quote} {y = c} (ground (arith, is_quote)))
    | inr plain ↦ rw plain (
        quoted_byte c field (double_quotes str ++ quote ∷ rest) plain
        ∙ parse_quoted_field-double_quotes str (field ++ c ∷ []) rest ends
        ∙ one_more field str rest c)
  ]

  plain_head : (c : ℕ) (str : List ℕ) → need_quote sep (c ∷ str) ≡ false → wants_quote sep c ≡ false
  plain_head c str plain = ground (arith, plain)

  plain_tail :
      (c : ℕ) (str : List ℕ) → need_quote sep (c ∷ str) ≡ false → need_quote sep str ≡ false
  plain_tail c str plain = ground (arith, plain)

  wants_quote-ends_field : (c : ℕ) → wants_quote sep c ≡ false → ends_field sep c ≡ false
  wants_quote-ends_field c plain = ground (arith, plain)

  parse_unquoted_field-append :
      (str field rest : List ℕ)
      → need_quote sep str ≡ false
      → EndsField sep rest
      → parse_unquoted_field sep field (str ++ rest) ≡ (field ++ str, rest)
  unfolding parse_unquoted_field
  parse_unquoted_field-append [] field [] plain ends = ap (λ f. (f, [])) (sym (append-nil field))
  parse_unquoted_field-append [] field (c ∷ rest) plain ends =
      ground (arith, ends.0, append-nil field)
  parse_unquoted_field-append (c ∷ str) field rest plain ends = ground (
    arith,
    wants_quote-ends_field c (plain_head c str plain),
    parse_unquoted_field-append str (field ++ c ∷ []) rest (plain_tail c str plain) ends,
    append_assoc field (c ∷ []) str,
  )

  plain_field :
      (str rest : List ℕ)
      → need_quote sep str ≡ false
      → EndsField sep rest
      → parse_field sep (str ++ rest) ≡ ok (str, rest)
  unfolding parse_field
  plain_field [] [] plain ends = refl
  plain_field [] (c ∷ rest) plain ends =
      ground (arith, ends.1, parse_unquoted_field-append [] [] (c ∷ rest) plain ends)
  plain_field (c ∷ str) rest plain ends = ground (
    arith,
    not_a_quote c (plain_head c str plain),
    parse_unquoted_field-append (c ∷ str) [] rest plain ends,
  )
    where
      not_a_quote : (c : ℕ) → wants_quote sep c ≡ false → (c == quote) ≡ false
      not_a_quote c plain = ground (arith, plain)

  -- What was written for a field is read back as the field.
  pub parse_field-encode_field :
      (str rest : List ℕ)
      → EndsField sep rest
      → parse_field sep (encode_field sep str ++ rest) ≡ ok (str, rest)
  unfolding parse_field encode_field
  parse_field-encode_field str rest ends = elim (Bool-cases (need_quote sep str)) [
    | inl quoted ↦ rw quoted (
        ap (parse_quoted_field sep []) (append_assoc (double_quotes str) (quote ∷ []) rest)
        ∙ parse_quoted_field-double_quotes str [] rest ends)
    | inr plain ↦ rw plain (plain_field str rest plain ends)
  ]
