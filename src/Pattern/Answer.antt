-- ===== src/Pattern/Answer.antt =====
-- What an attempt may return when `P` is the relation it decides, and the control flow of the matcher for
-- any such relation.
use fakelua.Base.{ℕ, zero, suc, ◌≤◌, ◌≡◌, ◌≢◌, ◌⊎◌, inl, inr, arith, subst, ℕ_discrete}
use fakelua.Base.{none, some}
use fakelua.Base.Result.{ok, err}
use fakelua.Pattern.Class.{out_of_rounds}
use fakelua.Pattern.Match.{Captures, Attempt, or_else, max_loop}

-- A match is one of `P`, no match means that `P` has none, and an error is one that the code throws.
abbrev pub Answers : (ℕ → Captures → Type 0) → Attempt → Type 0
Answers P (ok (some (e, out))) = P e out
Answers P (ok none) = (e : ℕ) (out : Captures) → ¬ P e out
Answers P (err thrown) = thrown ≢ out_of_rounds

pub Answers-weaken :
    (P Q : ℕ → Captures → Type 0) (r : Attempt)
    → ((e : ℕ) (out : Captures) → P e out → Q e out)
    → ((e : ℕ) (out : Captures) → Q e out → P e out)
    → Answers P r
    → Answers Q r
Answers-weaken P Q (ok (some (e, out))) there back h = there e out h
Answers-weaken P Q (ok none) there back h = λ e out q. h e out (back e out q)
Answers-weaken P Q (err thrown) there back h = h

-- Two tries answer for what is one of the first's or one of the second's.
pub or_else-Answers :
    (P Q R : ℕ → Captures → Type 0) (first second : Attempt)
    → ((e : ℕ) (out : Captures) → P e out → R e out)
    → ((e : ℕ) (out : Captures) → Q e out → R e out)
    → ((e : ℕ) (out : Captures) → R e out → P e out ⊎ Q e out)
    → Answers P first
    → Answers Q second
    → Answers R (or_else first second)
unfolding or_else
or_else-Answers P Q R (err thrown) second left right split h k = h
or_else-Answers P Q R (ok (some (e, out))) second left right split h k = left e out h
or_else-Answers P Q R (ok none) second left right split h k =
    Answers-weaken Q R second right
      (λ e out r. elim (split e out r) [ inl p ↦ absurd (h e out p) | inr q ↦ q ]) k

pub max_loop-Answers :
    (Q : ℕ → ℕ → Captures → Type 0) (try : ℕ → Attempt) (i : ℕ)
    → ((j : ℕ) → Answers (Q j) (try j))
    → Answers (λ e out. (j : ℕ) × (j ≤ i) × Q j e out) (max_loop try i)
unfolding max_loop
max_loop-Answers Q try zero each =
    Answers-weaken (Q 0) (λ e out. (j : ℕ) × (j ≤ 0) × Q j e out) (try 0)
      (λ e out q. (0, omega arith, q))
      (λ e out (j, below, q). subst (λ k. Q k e out) (omega arith) q) (each 0)
max_loop-Answers Q try (suc i) each =
    or_else-Answers (Q (suc i)) (λ e out. (j : ℕ) × (j ≤ i) × Q j e out)
      (λ e out. (j : ℕ) × (j ≤ suc i) × Q j e out) (try (suc i)) (max_loop try i)
      (λ e out q. (suc i, omega arith, q)) (λ e out (j, below, q). (j, omega arith, q))
      (λ e out (j, below, q). elim (ℕ_discrete j (suc i)) [
        | yes same ↦ inl (subst (λ k. Q k e out) same q)
        | no other ↦ inr (j, ne_below below other, q)
      ])
      (each (suc i)) (max_loop-Answers Q try i each)
  where
    ne_below : {j : ℕ} → j ≤ suc i → ¬ (j ≡ suc i) → j ≤ i
    ne_below below other = omega arith
