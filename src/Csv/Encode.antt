-- ===== src/Csv/Encode.antt =====
-- `EncodeField`, `EncodeRow`, and the rows of `CsvEncode`.
use fakelua.Base.{ℕ, Bool, true, false, ◌||◌, List, [], ◌∷◌, ◌++◌, ◌==◌, if◌then◌else◌}
use fakelua.Csv.{quote, newline, carriage_return}

abbrev pub wants_quote : ℕ → ℕ → Bool
wants_quote sep c = (c == quote || c == sep) || (c == newline || c == carriage_return)

abbrev pub need_quote : ℕ → List ℕ → Bool
need_quote sep [] = false
need_quote sep (c ∷ str) = if wants_quote sep c then true else need_quote sep str

unfoldable pub double_quotes : List ℕ → List ℕ
double_quotes [] = []
double_quotes (c ∷ str) =
    if c == quote then quote ∷ quote ∷ double_quotes str else c ∷ double_quotes str

unfoldable pub encode_field : ℕ → List ℕ → List ℕ
encode_field sep str = if need_quote sep str then quote ∷ double_quotes str ++ quote ∷ [] else str

unfoldable pub encode_row : ℕ → List (List ℕ) → List ℕ
encode_row sep [] = []
encode_row sep (field ∷ []) = encode_field sep field
encode_row sep (field ∷ next ∷ row) = encode_field sep field ++ sep ∷ encode_row sep (next ∷ row)

unfoldable pub encode_rows : ℕ → List (List (List ℕ)) → List ℕ
encode_rows sep [] = []
encode_rows sep (row ∷ []) = encode_row sep row
encode_rows sep (row ∷ next ∷ rows) = encode_row sep row ++ newline ∷ encode_rows sep (next ∷ rows)
