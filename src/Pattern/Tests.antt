-- ===== src/Pattern/Tests.antt =====
-- Runs of the matcher on small inputs, and the theorems' examples.
use fakelua.Base.{ℕ, ◌≡◌, refl, List, [], ◌∷◌, none, some, true}
use fakelua.Base.Result.{ok, err}
use fakelua.Pattern.Class.{ends_with_percent, stack_overflow, single_match_byte}
use fakelua.Pattern.Item.{read_item}
use fakelua.Pattern.Match.{closed, match, hit, max_loop, min_loop, run_length, or_else, close_last}
use fakelua.Pattern.Match.{match_balance, scan_balance, match_capture, max_call_depth}
use fakelua.Base.Bytes.{same_bytes}
use fakelua.Pattern.Relation.{Matches}
use fakelua.Pattern.Answer.{Answers}
use fakelua.Pattern.Correct.{match-Answers}
use fakelua.Pattern.Search.{search, search_loop, next_found, run_at, result_at, match_at}
use fakelua.Pattern.Search.First.{FoundFirst, FoundAt, search-FoundFirst, search-FoundAt}
use fakelua.Pattern.Search.First.{match_at-FoundAt}

-- "ab12c"
abbrev ab12c : List ℕ
ab12c = 97 ∷ 98 ∷ 49 ∷ 50 ∷ 99 ∷ []

-- "(%d+)"
abbrev digits : List ℕ
digits = 40 ∷ 37 ∷ 100 ∷ 43 ∷ 41 ∷ []

digits_found :
    search ab12c digits 0
    ≡ ok (some (record { begin = 2; end = 4; caps = record { init = 2; len = closed 2 } ∷ [] }))
unfolding search search_loop next_found run_at match read_item hit single_match_byte result_at
    max_loop run_length or_else close_last
digits_found = refl

-- "^b" is anchored, and "a%" is malformed.
anchored_not_found : search ab12c (94 ∷ 98 ∷ []) 0 ≡ ok none
unfolding search run_at match read_item hit single_match_byte result_at
anchored_not_found = refl

malformed_thrown : search ab12c (97 ∷ 37 ∷ []) 0 ≡ err ends_with_percent
unfolding search search_loop next_found run_at match read_item hit single_match_byte result_at
malformed_thrown = refl

-- "%b()" and "(.)%1".
balanced_matched :
    match (40 ∷ 40 ∷ 41 ∷ 41 ∷ 41 ∷ []) 3 0 (37 ∷ 98 ∷ 40 ∷ 41 ∷ []) [] ≡ ok (some (4, []))
unfolding match read_item match_balance scan_balance
balanced_matched = refl

twice_matched :
    match (97 ∷ 97 ∷ []) 3 0 (40 ∷ 46 ∷ 41 ∷ 37 ∷ 49 ∷ []) []
    ≡ ok (some (2, record { init = 0; len = closed 1 } ∷ []))
unfolding match read_item hit single_match_byte close_last match_capture same_bytes
twice_matched = refl

-- "[^]%d]-1", lazily.
lazily_matched :
    match ab12c 3 0 (91 ∷ 94 ∷ 93 ∷ 37 ∷ 100 ∷ 93 ∷ 45 ∷ 49 ∷ []) [] ≡ ok (some (3, []))
unfolding match read_item hit single_match_byte min_loop or_else
lazily_matched = refl

-- Two levels are too few for two captures.
too_deep_thrown : match ab12c 2 0 (40 ∷ 40 ∷ []) [] ≡ err stack_overflow
unfolding match read_item
too_deep_thrown = refl

match-Answers_example :
    Answers (λ e out. Matches ab12c e out 0 digits []) (match ab12c max_call_depth 0 digits [])
match-Answers_example = match-Answers ab12c max_call_depth digits 0 []

search-FoundFirst_example : FoundFirst ab12c digits 0 (search ab12c digits 0)
search-FoundFirst_example = search-FoundFirst ab12c digits 0 refl

search-FoundAt_example : FoundAt ab12c (98 ∷ []) 0 (search ab12c (94 ∷ 98 ∷ []) 0)
search-FoundAt_example = search-FoundAt ab12c (94 ∷ 98 ∷ []) 0 refl

match_at-FoundAt_example : FoundAt ab12c (98 ∷ []) 1 (match_at ab12c (94 ∷ 98 ∷ []) 1 true)
match_at-FoundAt_example = match_at-FoundAt ab12c (94 ∷ 98 ∷ []) 1 true
