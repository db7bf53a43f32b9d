-- ===== src/Pattern/Search.antt =====
-- `RunAt`, `MatchAt` and `Search`.
pub mod First
use fakelua.Base.{ℕ, zero, suc, ◌+◌, ◌-◌, Bool, true, false, ◌&&◌, List, [], ◌∷◌}
use fakelua.Base.{ltb, leb, ◌==◌, if◌then◌else◌, length, Option, none, some}
use fakelua.Base.Result.{Result, ok, err, ◌>>=◌}
use fakelua.Pattern.Class.{PatternError, caret}
use fakelua.Pattern.Match.{Captures, Attempt, match, max_call_depth}

pub record MatchResult : Type 0 where
  pub begin : ℕ
  pub end : ℕ
  pub caps : Captures

abbrev pub Found : Type 0
Found = Result PatternError (Option MatchResult)

unfoldable pub result_at : ℕ → Option (ℕ × Captures) → Option MatchResult
result_at start none = none
result_at start (some (end, caps)) = some (record { begin = start; end = end; caps = caps })

unfoldable pub run_at : List ℕ → List ℕ → ℕ → Found
run_at src pat start =
    if ltb (length src) start
    then ok none
    else (do found ← match src max_call_depth start pat []; ok (result_at start found))

abbrev pub starts_with_caret : List ℕ → Bool
starts_with_caret [] = false
starts_with_caret (c ∷ _) = c == caret

abbrev pub tail : List ℕ → List ℕ
tail [] = []
tail (c ∷ pat) = pat

unfoldable pub match_at : List ℕ → List ℕ → ℕ → Bool → Found
match_at src pat start leading_caret_is_anchor =
    if leading_caret_is_anchor && starts_with_caret pat
    then run_at src (tail pat) start
    else run_at src pat start

unfoldable pub next_found : Found → Found → Found
next_found (err e) rest = err e
next_found (ok (some m)) rest = ok (some m)
next_found (ok none) rest = rest

-- `for (pos = start; pos <= slen; ++pos)`, with the number of positions.
unfoldable pub search_loop : List ℕ → List ℕ → ℕ → ℕ → Found
search_loop src pat zero pos = ok none
search_loop src pat (suc left) pos =
    next_found (run_at src pat pos) (search_loop src pat left (pos + 1))

unfoldable pub search : List ℕ → List ℕ → ℕ → Found
search src pat start =
    if ltb (length src) start
    then ok none
    else if starts_with_caret pat
    then run_at src (tail pat) start
    else search_loop src pat (length src + 1 - start) start
