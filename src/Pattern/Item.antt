-- ===== src/Pattern/Item.antt =====
-- What the pattern begins with: the cases of the `switch` in `Match`, with what each checks of the
-- pattern before it looks at the subject, and `ClassEnd`.
use fakelua.Base.{ℕ, ◌-◌, Bool, true, false, List, [], ◌∷◌}
use fakelua.Base.{◌==◌, if◌then◌else◌}
use fakelua.Base.Result.{Result, ok, err, ◌>>=◌}
use fakelua.Pattern.Class.{PatternError, missing_arguments, missing_set, invalid_capture_index}
use fakelua.Pattern.Class.{ends_with_percent, missing_bracket, dollar, percent, left_paren}
use fakelua.Pattern.Class.{right_paren, asterisk, plus_sign, hyphen, question_mark, left_bracket}
use fakelua.Pattern.Class.{right_bracket, caret, isdigit}

-- The suffix of a single-byte item.
pub data Repeat : Type 0 where
  once optional one_or_more any_greedy any_lazy : Repeat

-- An item and the pattern after it. A set and a single-byte item are the pattern from there on.
pub data Item : Type 0 where
  finish : Item
  open_capture : Bool → List ℕ → Item
  close_capture : List ℕ → Item
  end_anchor : Item
  balance : ℕ → ℕ → List ℕ → Item
  frontier : List ℕ → List ℕ → Item
  back_reference : ℕ → List ℕ → Item
  single : List ℕ → Repeat → List ℕ → Item

unfoldable pub class_end_loop : List ℕ → Result PatternError (List ℕ)
class_end_loop [] = err missing_bracket
class_end_loop (x ∷ []) =
    if x == right_bracket
    then ok []
    else (if x == percent then err ends_with_percent else err missing_bracket)
class_end_loop (x ∷ y ∷ q) = elim (x == right_bracket) [
  | true ↦ ok (y ∷ q)
  | false ↦ elim (x == percent) [ true ↦ class_end_loop q | false ↦ class_end_loop (y ∷ q) ]
]

-- A ']' at the beginning of a set is a member.
abbrev pub skip_byte : ℕ → List ℕ → List ℕ
skip_byte b [] = []
skip_byte b (x ∷ q) = if x == b then q else x ∷ q

-- After a '%'.
abbrev pub escaped_end : List ℕ → Result PatternError (List ℕ)
escaped_end [] = err ends_with_percent
escaped_end (_ ∷ rest) = ok rest

unfoldable pub class_end : List ℕ → Result PatternError (List ℕ)
unfolding class_end_loop
class_end [] = err missing_bracket
class_end (b ∷ p) =
    if b == percent
    then escaped_end p
    else (if b == left_bracket
        then class_end_loop (skip_byte right_bracket (skip_byte caret p))
        else ok p)

-- `ep` in the default case.
unfoldable pub with_suffix : List ℕ → List ℕ → Item
with_suffix p [] = single p once []
with_suffix p (q ∷ rest) =
    if q == question_mark
    then single p optional rest
    else if q == plus_sign
    then single p one_or_more rest
    else if q == asterisk
    then single p any_greedy rest
    else (if q == hyphen then single p any_lazy rest else single p once (q ∷ rest))

unfoldable pub read_single : List ℕ → Result PatternError Item
unfolding class_end with_suffix
read_single p = do ep ← class_end p; ok (with_suffix p ep)

unfoldable pub read_balance : List ℕ → Result PatternError Item
read_balance (x ∷ y ∷ rest) = ok (balance x y rest)
read_balance _ = err missing_arguments

unfoldable pub read_frontier : List ℕ → Result PatternError Item
unfolding class_end
read_frontier [] = err missing_set
read_frontier (b ∷ p) =
    if b == left_bracket
    then (do ep ← class_end (b ∷ p); ok (frontier (b ∷ p) ep))
    else err missing_set

-- After a '%'.
unfoldable pub read_escape : List ℕ → Result PatternError Item
unfolding read_balance read_frontier read_single
read_escape [] = read_single (percent ∷ [])
read_escape (c1 ∷ rest) =
    if c1 == 0x62
    then read_balance rest
    else if c1 == 0x66
    then read_frontier rest
    else if isdigit c1
    then (if c1 == 0x30 then err invalid_capture_index else ok (back_reference (c1 - 0x31) rest))
    else read_single (percent ∷ c1 ∷ rest)

unfoldable pub read_open : List ℕ → Item
read_open [] = open_capture false []
read_open (c ∷ rest) =
    if c == right_paren then open_capture true rest else open_capture false (c ∷ rest)

unfoldable pub read_dollar : List ℕ → Result PatternError Item
unfolding read_single
read_dollar [] = ok end_anchor
read_dollar (c ∷ rest) = read_single (dollar ∷ c ∷ rest)

unfoldable pub read_item : List ℕ → Result PatternError Item
unfolding read_open read_dollar read_escape read_single
read_item [] = ok finish
read_item (c ∷ p) =
    if c == left_paren
    then ok (read_open p)
    else if c == right_paren
    then ok (close_capture p)
    else if c == dollar
    then read_dollar p
    else (if c == percent then read_escape p else read_single (c ∷ p))

-- The pattern that is left when the item is done with.
abbrev pub after_item : Item → List ℕ
after_item finish = []
after_item (open_capture position rest) = rest
after_item (close_capture rest) = rest
after_item end_anchor = []
after_item (balance x y rest) = rest
after_item (frontier set rest) = rest
after_item (back_reference i rest) = rest
after_item (single p how rest) = rest
