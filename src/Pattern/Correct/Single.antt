-- ===== src/Pattern/Correct/Single.antt =====
-- A single-byte item with its suffix.
use fakelua.Base.{ℕ, zero, suc, ◌+◌, ◌-◌, ◌≡◌, refl, subst, ◌⊎◌, inl, inr, arith, List}
use fakelua.Base.{true, false, length, Bool-cases}
use fakelua.Pattern.Item.{Repeat, once, optional, one_or_more, any_greedy, any_lazy}
use fakelua.Pattern.Match.{Captures, Attempt, hit, match_single, or_else, max_expand, min_expand}
use fakelua.Pattern.Relation.{Matches, Allows, Hits}
use fakelua.Pattern.Answer.{Answers, Answers-weaken, or_else-Answers}
use fakelua.Pattern.Runs.{
  Hits-zero, Hits-none, Hits-suc, Hits-tail, Taken, run-Answers, min_loop-Answers,
}

-- The relation that a call of `Match` is to decide.
abbrev pub Match : List ℕ → ℕ → List ℕ → Captures → ℕ → Captures → Type 0
Match src s p caps e out = Matches src e out s p caps

-- A matcher of some depth and rounds is right for a pattern.
abbrev pub Right : List ℕ → (ℕ → List ℕ → Captures → Attempt) → List ℕ → Type 0
Right src matcher p = (s : ℕ) (caps : Captures) → Answers (Match src s p caps) (matcher s p caps)

module _ (src : List ℕ) (deeper again : ℕ → List ℕ → Captures → Attempt) (set rest : List ℕ) where
  abbrev pub SingleMatch : Repeat → ℕ → Captures → ℕ → Captures → Type 0
  SingleMatch how s caps e out =
      (n : ℕ) × Allows how n × Hits src set s n × Matches src e out (s + n) rest caps

  moved :
      {s t e : ℕ} {caps out : Captures}
      → s ≡ t
      → Matches src e out s rest caps
      → Matches src e out t rest caps
  moved {e = e} {caps = caps} {out = out} same m = subst (λ u. Matches src e out u rest caps) same m

  module _ (deeper_right : Right src deeper rest) (again_right : Right src again rest)
      (caps : Captures) (s : ℕ) where
    -- The item is passed by, when it takes no byte or none is wanted.
    none-Answers :
        (how : Repeat)
        → hit src s set ≡ false
        → Allows how 0
        → Answers (SingleMatch how s caps) (again s rest caps)
    none-Answers how miss allowed =
        Answers-weaken (Match src s rest caps) (SingleMatch how s caps) (again s rest caps)
          (λ e out m. (0, allowed, Hits-zero src set s, moved (omega arith) m))
          (λ e out (n, _, hits, m). moved (omega (arith, Hits-none src set s n miss hits)) m)
          (again_right s caps)

    one-Hits : hit src s set ≡ true → Hits src set s 1
    one-Hits first = Hits-suc src set s 0 first (Hits-zero src set (s + 1))

    once-Answers :
        hit src s set ≡ true → Answers (SingleMatch once s caps) (again (s + 1) rest caps)
    once-Answers first =
        Answers-weaken (Match src (s + 1) rest caps) (SingleMatch once s caps)
          (again (s + 1) rest caps) (λ e out m. (1, refl, one-Hits first, m))
          (λ e out (n, one, _, m). moved (omega arith) m) (again_right (s + 1) caps)

    at_most_one :
        (e : ℕ) (out : Captures)
        → SingleMatch optional s caps e out
        → Match src (s + 1) rest caps e out ⊎ Match src s rest caps e out
    at_most_one e out (zero, _, _, m) = inr (moved (omega arith) m)
    at_most_one e out (suc n, allowed, _, m) = inl (moved (omega arith) m)

    optional-Answers :
        hit src s set ≡ true
        → Answers
            (SingleMatch optional s caps)
            (or_else (deeper (s + 1) rest caps) (again s rest caps))
    optional-Answers first =
        or_else-Answers (Match src (s + 1) rest caps) (Match src s rest caps)
          (SingleMatch optional s caps) (deeper (s + 1) rest caps) (again s rest caps)
          (λ e out m. (1, omega arith, one-Hits first, m))
          (λ e out m. (0, omega arith, Hits-zero src set s, moved (omega arith) m)) at_most_one
          (deeper_right (s + 1) caps) (again_right s caps)

    abbrev TakenFrom : ℕ → ℕ → Captures → Type 0
    TakenFrom = Taken src set (λ t. Match src t rest caps) (λ t. deeper t rest caps)

    some-Answers :
        hit src s set ≡ true
        → Answers (SingleMatch one_or_more s caps) (max_expand src deeper (s + 1) set rest caps)
    unfolding max_expand
    some-Answers first =
        Answers-weaken (TakenFrom (s + 1)) (SingleMatch one_or_more s caps) _
          (λ e out (n, hits, m).
            (suc n, omega arith, Hits-suc src set s n first hits, moved (omega arith) m))
          one_less
          (run-Answers src set (λ t. Match src t rest caps) (λ t. deeper t rest caps) (s + 1)
            (λ t. deeper_right t caps))
      where
        one_less :
            (e : ℕ) (out : Captures)
            → SingleMatch one_or_more s caps e out
            → TakenFrom (s + 1) e out
        one_less e out (zero, some_byte, _, _) = absurd (omega arith)
        one_less e out (suc n, _, hits, m) = (n, Hits-tail src set s n hits, moved (omega arith) m)

    -- Both loops answer for every number of bytes.
    any-Answers :
        (how : Repeat) (r : Attempt)
        → ((n : ℕ) → Allows how n)
        → Answers (TakenFrom s) r
        → Answers (SingleMatch how s caps) r
    any-Answers how r all =
        Answers-weaken (TakenFrom s) (SingleMatch how s caps) r
          (λ e out (n, hits, m). (n, all n, hits, m)) (λ e out (n, _, hits, m). (n, hits, m))

    pub match_single-Answers :
        (how : Repeat)
        → Answers (SingleMatch how s caps) (match_single src deeper again s caps set how rest)
    unfolding match_single max_expand min_expand
    match_single-Answers once = elim (Bool-cases (hit src s set)) [
      | inl first ↦ rw first (once-Answers first)
      | inr miss ↦
          rw miss (λ e out (n, one, hits, m). ground (arith, Hits-none src set s n miss hits))
    ]
    match_single-Answers optional = elim (Bool-cases (hit src s set)) [
      | inl first ↦ rw first (optional-Answers first)
      | inr miss ↦ rw miss (none-Answers optional miss (omega arith))
    ]
    match_single-Answers one_or_more = elim (Bool-cases (hit src s set)) [
      | inl first ↦ rw first (some-Answers first)
      | inr miss ↦
          rw miss (λ e out (n, one, hits, m). ground (arith, Hits-none src set s n miss hits))
    ]
    match_single-Answers any_greedy = elim (Bool-cases (hit src s set)) [
      | inl first ↦ rw first (
          any-Answers any_greedy _ (λ n. omega arith)
            (run-Answers src set (λ t. Match src t rest caps) (λ t. deeper t rest caps) s
              (λ t. deeper_right t caps)))
      | inr miss ↦ rw miss (none-Answers any_greedy miss (omega arith))
    ]
    match_single-Answers any_lazy = elim (Bool-cases (hit src s set)) [
      | inl first ↦ rw first (
          any-Answers any_lazy _ (λ n. omega arith)
            (min_loop-Answers src set (λ t. Match src t rest caps) (λ t. deeper t rest caps)
              (length src - s) s (omega arith) (λ t. deeper_right t caps)))
      | inr miss ↦ rw miss (none-Answers any_lazy miss (omega arith))
    ]
