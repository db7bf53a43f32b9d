-- ===== src/Pattern/Search/First.antt =====
-- What the two entry points find.
use fakelua.Base.{
  ℕ, zero, suc, ◌+◌, ◌-◌, ◌≤◌, ◌<◌, ◌≡◌, ◌≢◌, refl, subst, inl, inr, arith, List, [],
}
use fakelua.Base.{
  Bool, true, false, length, none, some, Bool-cases, ltb, ◌&&◌, tests, if◌then◌else◌,
}
use fakelua.Base.{ℕ_discrete}
use fakelua.Base.Result.{ok, err, ◌>>=◌}
use fakelua.Pattern.Class.{out_of_rounds}
use fakelua.Pattern.Match.{Captures, Attempt, match, max_call_depth}
use fakelua.Pattern.Relation.{Matches}
use fakelua.Pattern.Answer.{Answers}
use fakelua.Pattern.Correct.{match-Answers}
use fakelua.Pattern.Search.{Found, result_at, run_at, starts_with_caret, tail, match_at}
use fakelua.Pattern.Search.{next_found, search_loop, search}

module _ (src pat : List ℕ) where
  -- `pat` does not match from `t` on.
  abbrev pub NoMatch : ℕ → Type 0
  NoMatch t = (e : ℕ) (out : Captures) → ¬ Matches src e out t pat []

  -- A result of the attempt at `start`.
  abbrev pub FoundAt : ℕ → Found → Type 0
  FoundAt start (ok (some m)) =
      (m.begin ≡ start) × (start ≤ length src) × Matches src m.end m.caps m.begin pat []
  FoundAt start (ok none) = start ≤ length src → NoMatch start
  FoundAt start (err thrown) = thrown ≢ out_of_rounds

  -- A result of the search from `start` on, of the first position with a match.
  abbrev pub FoundFirst : ℕ → Found → Type 0
  FoundFirst start (ok (some m)) =
      (start ≤ m.begin)
      × (m.begin ≤ length src)
      × Matches src m.end m.caps m.begin pat []
      × ((t : ℕ) → start ≤ t → t < m.begin → NoMatch t)
  FoundFirst start (ok none) = (t : ℕ) → start ≤ t → t ≤ length src → NoMatch t
  FoundFirst start (err thrown) = thrown ≢ out_of_rounds

  pub run_at-FoundAt : (start : ℕ) → FoundAt start (run_at src pat start)
  unfolding run_at result_at
  run_at-FoundAt start = elim (Bool-cases (ltb (length src) start)) [
    | inl beyond ↦ rw beyond (λ inside. absurd (omega tests))
    | inr inside ↦ rw inside (
        by_answer (match src max_call_depth start pat [])
          (match-Answers src max_call_depth pat start []) (ltb_false (length src) start inside))
  ]
    where
      ltb_false : (a b : ℕ) → ltb a b ≡ false → b ≤ a
      ltb_false a b h = ground arith

      by_answer :
          (r : Attempt)
          → Answers (λ e out. Matches src e out start pat []) r
          → start ≤ length src
          → FoundAt start (r >>= λ found. ok (result_at start found))
      by_answer (ok (some (e, out))) h inside = (refl, inside, h)
      by_answer (ok none) h inside = λ _. h
      by_answer (err thrown) h inside = h

  no_match :
      {start : ℕ} (t : ℕ) → start ≤ t → NoMatch start → (start + 1 ≤ t → NoMatch t) → NoMatch t
  no_match {start = start} t from here later = elim (ℕ_discrete start t) [
    | yes same ↦ subst NoMatch same here
    | no other ↦ later (omega arith)
  ]

  -- An attempt, and what is found behind it.
  next_found-FoundFirst :
      (start : ℕ) (first rest : Found)
      → FoundAt start first
      → FoundFirst (start + 1) rest
      → start ≤ length src
      → FoundFirst start (next_found first rest)
  unfolding next_found
  next_found-FoundFirst start (err thrown) rest h k inside = h
  next_found-FoundFirst start (ok (some m)) rest (here, _, found) k inside =
      (omega arith, omega arith, found, (λ t from before. absurd (omega arith)))
  next_found-FoundFirst start (ok none) (err thrown) h k inside = k
  next_found-FoundFirst start (ok none) (ok none) h k inside =
      λ t from upto. no_match t from (h inside) (λ later. k t later upto)
  next_found-FoundFirst start (ok none) (ok (some m)) h (from_next, upto, found, none_before)
        inside =
      (
        omega arith,
        upto,
        found,
        (λ t from before. no_match t from (h inside) (λ later. none_before t later before)),
      )

  pub search_loop-FoundFirst :
      (left start : ℕ)
      → start + left ≡ length src + 1
      → FoundFirst start (search_loop src pat left start)
  unfolding search_loop
  search_loop-FoundFirst zero start h = λ t from upto. absurd (omega arith)
  search_loop-FoundFirst (suc left) start h =
      next_found-FoundFirst start (run_at src pat start) (search_loop src pat left (start + 1))
        (run_at-FoundAt start) (search_loop-FoundFirst left (start + 1) (omega arith)) (omega arith)

-- The whole pattern where no '^' anchors it: the first position with a match is found.
pub search-FoundFirst :
    (src pat : List ℕ) (start : ℕ)
    → starts_with_caret pat ≡ false
    → FoundFirst src pat start (search src pat start)
unfolding search
search-FoundFirst src pat start free = elim (Bool-cases (ltb (length src) start)) [
  | inl beyond ↦ rw (beyond, search) (λ t from upto. absurd (omega tests))
  | inr inside ↦
      rw (inside, free, search)
        (search_loop-FoundFirst src pat (length src + 1 - start) start
          (budget (length src) start inside))
]
  where
    budget : (a b : ℕ) → ltb a b ≡ false → b + (a + 1 - b) ≡ a + 1
    budget a b h = ground arith

-- An anchored pattern is tried at `start` alone.
pub search-FoundAt :
    (src pat : List ℕ) (start : ℕ)
    → starts_with_caret pat ≡ true
    → FoundAt src (tail pat) start (search src pat start)
unfolding search
search-FoundAt src pat start anchored = elim (Bool-cases (ltb (length src) start)) [
  | inl beyond ↦ rw (beyond, search) (λ inside. absurd (omega tests))
  | inr inside ↦ rw (inside, anchored, search) (run_at-FoundAt src (tail pat) start)
]

abbrev anchored_pattern : Bool → List ℕ → List ℕ
anchored_pattern leading_caret_is_anchor pat =
    if leading_caret_is_anchor && starts_with_caret pat then tail pat else pat

-- MatchAt finds a match at the start or there is none, for the pattern without its leading caret
-- when that is an anchor, and for the whole pattern otherwise.
pub match_at-FoundAt :
    (src pat : List ℕ) (start : ℕ) (leading_caret_is_anchor : Bool)
    → FoundAt src
        (anchored_pattern leading_caret_is_anchor pat)
        start
        (match_at src pat start leading_caret_is_anchor)
unfolding match_at
match_at-FoundAt src pat start leading_caret_is_anchor =
    by_test (leading_caret_is_anchor && starts_with_caret pat)
  where
    by_test :
        (test : Bool)
        → FoundAt src
            (if test then tail pat else pat)
            start
            (if test then run_at src (tail pat) start else run_at src pat start)
    by_test true = run_at-FoundAt src (tail pat) start
    by_test false = run_at-FoundAt src pat start
