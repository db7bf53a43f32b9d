-- ===== src/Pattern/Class.antt =====
-- Classes and sets of bytes: `MatchClass` and `SingleMatchByte`. The functions of <cctype> are those of
-- the "C" locale.
use fakelua.Base.{ℕ, ◌+◌, Bool, true, false, not, ◌&&◌, ◌||◌, List, [], ◌∷◌}
use fakelua.Base.{ltb, leb, ◌==◌, if◌then◌else◌}

pub data PatternError : Type 0 where
  stack_overflow missing_arguments missing_set invalid_capture_index ends_with_percent :
      PatternError
  missing_bracket too_many_captures invalid_pattern_capture : PatternError
  -- Of the model alone: its loop has no round left.
  out_of_rounds : PatternError

abbrev pub dollar : ℕ
dollar = 0x24

abbrev pub percent : ℕ
percent = 0x25

abbrev pub left_paren : ℕ
left_paren = 0x28

abbrev pub right_paren : ℕ
right_paren = 0x29

abbrev pub asterisk : ℕ
asterisk = 0x2a

abbrev pub plus_sign : ℕ
plus_sign = 0x2b

abbrev pub hyphen : ℕ
hyphen = 0x2d

abbrev pub full_stop : ℕ
full_stop = 0x2e

abbrev pub question_mark : ℕ
question_mark = 0x3f

abbrev pub left_bracket : ℕ
left_bracket = 0x5b

abbrev pub right_bracket : ℕ
right_bracket = 0x5d

abbrev pub caret : ℕ
caret = 0x5e

abbrev between : ℕ → ℕ → ℕ → Bool
between lo hi c = leb lo c && leb c hi

abbrev pub isdigit : ℕ → Bool
isdigit c = between 0x30 0x39 c

abbrev isupper : ℕ → Bool
isupper c = between 0x41 0x5a c

abbrev islower : ℕ → Bool
islower c = between 0x61 0x7a c

abbrev isalpha : ℕ → Bool
isalpha c = isupper c || islower c

abbrev isalnum : ℕ → Bool
isalnum c = isalpha c || isdigit c

abbrev isgraph : ℕ → Bool
isgraph c = between 0x21 0x7e c

abbrev ispunct : ℕ → Bool
ispunct c = isgraph c && not (isalnum c)

abbrev isspace : ℕ → Bool
isspace c = c == 0x20 || between 0x09 0x0d c

abbrev iscntrl : ℕ → Bool
iscntrl c = ltb c 0x20 || c == 0x7f

abbrev isxdigit : ℕ → Bool
isxdigit c = isdigit c || (between 0x41 0x46 c || between 0x61 0x66 c)

abbrev tolower : ℕ → ℕ
tolower c = if isupper c then c + 32 else c

-- A class by its letter in lower case; a capital takes the complement.
unfoldable pub match_class : ℕ → ℕ → Bool
match_class c cl =
    let signed : Bool → Bool = λ res. if islower cl then res else not res in
    let l = tolower cl in
    if l == 0x61
    then signed (isalpha c)
    else if l == 0x63
    then signed (iscntrl c)
    else if l == 0x64
    then signed (isdigit c)
    else if l == 0x67
    then signed (isgraph c)
    else if l == 0x6c
    then signed (islower c)
    else if l == 0x70
    then signed (ispunct c)
    else if l == 0x73
    then signed (isspace c)
    else if l == 0x75
    then signed (isupper c)
    else if l == 0x77
    then signed (isalnum c)
    else if l == 0x78
    then signed (isxdigit c)
    else (if l == 0x7a then signed (c == 0) else cl == c)

-- The `do` loop over the members of a set; `first` is its first round, in which a ']' is a member.
unfoldable pub set_loop : ℕ → Bool → Bool → List ℕ → Bool
unfolding match_class
set_loop c sig first [] = not sig
set_loop c sig first (b ∷ []) =
    if (not first && b == right_bracket) || (b == percent || not (c == b)) then not sig else sig
set_loop c sig first (b ∷ d ∷ []) = elim (not first && b == right_bracket) [
  | true ↦ not sig
  | false ↦ elim (b == percent) [
    | true ↦ if match_class c d then sig else not sig
    | false ↦ elim (c == b) [ true ↦ sig | false ↦ set_loop c sig false (d ∷ []) ]
  ]
]
set_loop c sig first (b ∷ d ∷ e ∷ q) = elim (not first && b == right_bracket) [
  | true ↦ not sig
  | false ↦ elim (b == percent) [
    | true ↦ elim (match_class c d) [ true ↦ sig | false ↦ set_loop c sig false (e ∷ q) ]
    | false ↦ elim (d == hyphen && not (e == right_bracket)) [
      | true ↦ elim (leb b c && leb c e) [ true ↦ sig | false ↦ set_loop c sig false q ]
      | false ↦ elim (c == b) [ true ↦ sig | false ↦ set_loop c sig false (d ∷ e ∷ q) ]
    ]
  ]
]

match_set : ℕ → List ℕ → Bool
unfolding set_loop
match_set c [] = false
match_set c (b ∷ q) = if b == caret then set_loop c false true q else set_loop c true true (b ∷ q)

-- `c` against the item that the pattern begins with.
unfoldable pub single_match_byte : ℕ → List ℕ → Bool
unfolding match_class match_set
single_match_byte c [] = false
single_match_byte c (b ∷ p) =
    if b == percent
    then escaped p
    else if b == full_stop
    then true
    else (if b == left_bracket then match_set c p else c == b)
  where
    escaped : List ℕ → Bool
    escaped [] = false
    escaped (cl ∷ _) = match_class c cl
