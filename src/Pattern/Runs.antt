-- ===== src/Pattern/Runs.antt =====
-- The bytes that a single-byte item takes in a row.
use fakelua.Base.{ℕ, zero, suc, ◌+◌, ◌-◌, ◌≤◌, ◌<◌, ◌≡◌, refl, ◌⊎◌, inl, inr, arith, List}
use fakelua.Base.{true, false, length, none, Bool-cases, subst, ltb→lt}
use fakelua.Base.Result.{ok}
use fakelua.Pattern.Match.{Captures, Attempt, hit, run_length, min_loop, max_loop}
use fakelua.Pattern.Relation.{Hits}
use fakelua.Pattern.Answer.{Answers, or_else-Answers, Answers-weaken, max_loop-Answers}

module _ (src : List ℕ) (p : List ℕ) where
  -- A byte that is taken stands in the subject.
  pub hit-lt : (s : ℕ) → hit src s p ≡ true → s < length src
  unfolding hit
  hit-lt s h = ltb→lt s (length src) (ground arith)

  pub Hits-zero : (s : ℕ) → Hits src p s 0
  Hits-zero s j h = ground arith

  pub Hits-suc : (s n : ℕ) → hit src s p ≡ true → Hits src p (s + 1) n → Hits src p s (suc n)
  Hits-suc s n first rest zero h = subst (λ t. hit src t p ≡ true) (omega arith) first
  Hits-suc s n first rest (suc j) h =
      subst (λ t. hit src t p ≡ true) (omega arith) (rest j (omega arith))

  pub Hits-head : (s n : ℕ) → Hits src p s (suc n) → hit src s p ≡ true
  Hits-head s n h = subst (λ t. hit src t p ≡ true) (omega arith) (h 0 (omega arith))

  pub Hits-tail : (s n : ℕ) → Hits src p s (suc n) → Hits src p (s + 1) n
  Hits-tail s n h j below = subst (λ t. hit src t p ≡ true) (omega arith) (h (suc j) (omega arith))

  pub Hits-fewer : (s n m : ℕ) → m ≤ n → Hits src p s n → Hits src p s m
  Hits-fewer s n m fewer h j below = h j (omega arith)

  -- The first that it does not take ends every run.
  pub Hits-none : (s n : ℕ) → hit src s p ≡ false → Hits src p s n → n ≡ 0
  Hits-none s zero miss h = refl
  Hits-none s (suc n) miss h = ground (arith, Hits-head s n h)

  pub run_length-Hits : (left s : ℕ) → Hits src p s (run_length src left s p)
  unfolding run_length
  run_length-Hits zero s = Hits-zero s
  run_length-Hits (suc left) s = elim (Bool-cases (hit src s p)) [
    | inl h ↦
        rw (h, run_length)
          (Hits-suc s (run_length src left (s + 1) p) h (run_length-Hits left (s + 1)))
    | inr h ↦ rw (h, run_length) (Hits-zero s)
  ]

  -- It is the longest, when the budget reaches the subject's end.
  pub run_length-longest :
      (left s n : ℕ) → length src ≤ s + left → Hits src p s n → n ≤ run_length src left s p
  unfolding run_length
  run_length-longest left s zero h hits = omega arith
  run_length-longest zero s (suc n) h hits = absurd (ground (arith, hit-lt s (Hits-head s n hits)))
  run_length-longest (suc left) s (suc n) h hits =
      rw (Hits-head s n hits, run_length)
        (omega (arith, run_length-longest left (s + 1) n (omega arith) (Hits-tail s n hits)))

  module _ (Q : ℕ → ℕ → Captures → Type 0) (try : ℕ → Attempt) where
    -- A number of bytes that may be taken, and a match after them.
    abbrev pub Taken : ℕ → ℕ → Captures → Type 0
    Taken s e out = (n : ℕ) × Hits src p s n × Q (s + n) e out

    abbrev TakenSome : ℕ → ℕ → Captures → Type 0
    TakenSome s e out = (n : ℕ) × Hits src p s (suc n) × Q (s + suc n) e out

    Taken-zero : (s e : ℕ) (out : Captures) → Q s e out → Taken s e out
    Taken-zero s e out q = (0, Hits-zero s, subst (λ t. Q t e out) (omega arith) q)

    none_or_some : (s e : ℕ) (out : Captures) → Taken s e out → Q s e out ⊎ TakenSome s e out
    none_or_some s e out (zero, hits, q) = inl (subst (λ t. Q t e out) (omega arith) q)
    none_or_some s e out (suc n, hits, q) = inr (n, hits, q)

    another-Answers :
        (s : ℕ) (more : Attempt)
        → Answers (Taken (s + 1)) more
        → Answers (TakenSome s) (elim (hit src s p) [ true ↦ more | false ↦ ok none ])
    another-Answers s more h = elim (Bool-cases (hit src s p)) [
      | inl first ↦ rw first (
          Answers-weaken (Taken (s + 1)) (TakenSome s) more
            (λ e out (n, hits, q).
              (n, Hits-suc s n first hits, subst (λ t. Q t e out) (omega arith) q))
            (λ e out (n, hits, q). (n, Hits-tail s n hits, subst (λ t. Q t e out) (omega arith) q))
            h)
      | inr miss ↦ rw miss (λ e out (n, hits, q). ground (arith, Hits-head s n hits))
    ]

    -- The lazy loop answers for each of them.
    pub min_loop-Answers :
        (left s : ℕ)
        → length src ≤ s + left
        → ((t : ℕ) → Answers (Q t) (try t))
        → Answers (Taken s) (min_loop src try left s p)
    unfolding min_loop
    min_loop-Answers zero s h each =
        Answers-weaken (Q s) (Taken s) (try s) (Taken-zero s)
          (λ e out (n, hits, q). subst (λ t. Q t e out) (omega (arith, none_left n hits)) q)
          (each s)
      where
        none_left : (n : ℕ) → Hits src p s n → n ≡ 0
        none_left zero hits = refl
        none_left (suc n) hits = absurd (ground (arith, hit-lt s (Hits-head s n hits)))
    min_loop-Answers (suc left) s h each =
        or_else-Answers (Q s) (TakenSome s) (Taken s) (try s) _ (Taken-zero s)
          (λ e out (n, hits, q). (suc n, hits, q)) (none_or_some s) (each s)
          (another-Answers s (min_loop src try left (s + 1) p)
            (min_loop-Answers left (s + 1) (omega arith) each))

    -- The greedy loop, from the longest run.
    pub run-Answers :
        (s : ℕ)
        → ((t : ℕ) → Answers (Q t) (try t))
        → Answers (Taken s) (max_loop (λ i. try (s + i)) (run_length src (length src - s) s p))
    run-Answers s each =
        Answers-weaken (λ e out. (j : ℕ) × (j ≤ run) × Q (s + j) e out) (Taken s) _
          (λ e out (j, below, q).
            (j, Hits-fewer s run j below (run_length-Hits (length src - s) s), q))
          (λ e out (j, hits, q). (j, run_length-longest (length src - s) s j (omega arith) hits, q))
          (max_loop-Answers (λ j. Q (s + j)) (λ i. try (s + i)) run (λ j. each (s + j)))
      where
        run : ℕ
        run = run_length src (length src - s) s p
