-- ===== src/Pattern/Shrink.antt =====
-- What is left of a pattern after an item is shorter, and reading an item throws no error of the model.
use fakelua.Base.{ℕ, suc, ◌≤◌, ◌<◌, ◌≢◌, arith, List, [], ◌∷◌}
use fakelua.Base.{Bool, true, false, length, ◌==◌, if◌then◌else◌}
use fakelua.Base.Result.{Result, ok, err, ◌>>=◌}
use fakelua.Pattern.Class.{
  PatternError, out_of_rounds, percent, left_bracket, right_bracket, caret, left_paren, right_paren,
  dollar, isdigit,
}
use fakelua.Pattern.Item.{
  Item, after_item, read_item, class_end, class_end_loop, skip_byte, with_suffix, escaped_end,
  frontier,
}
use fakelua.Pattern.Item.{
  read_single, read_balance, read_frontier, read_escape, read_open, read_dollar,
}

-- What is returned is in `P`, and what is thrown the code throws.
abbrev pub Returns : {A : Type 0} → (A → Type 0) → Result PatternError A → Type 0
Returns P (ok value) = P value
Returns P (err thrown) = thrown ≢ out_of_rounds

pub if-Returns :
    {A : Type 0} (P : A → Type 0) (b : Bool) (yes_part no_part : Result PatternError A)
    → Returns P yes_part
    → Returns P no_part
    → Returns P (if b then yes_part else no_part)
if-Returns P true yes_part no_part h k = h
if-Returns P false yes_part no_part h k = k

pub >>=-Returns :
    {A B : Type 0} (P : A → Type 0) (Q : B → Type 0) (first : Result PatternError A)
    (next : A → Result PatternError B)
    → Returns P first
    → ((value : A) → P value → Returns Q (next value))
    → Returns Q (first >>= next)
>>=-Returns P Q (ok value) next h step = step value h
>>=-Returns P Q (err thrown) next h step = h

abbrev Shorter : ℕ → List ℕ → Type 0
Shorter n ep = length ep < n

class_end_loop-Returns :
    (n : ℕ) (p : List ℕ) → length p ≤ n → Returns (Shorter (suc n)) (class_end_loop p)
unfolding class_end_loop
class_end_loop-Returns n [] h = λ e. cc
class_end_loop-Returns n (x ∷ []) h = ground arith
class_end_loop-Returns n (x ∷ y ∷ q) h =
    ground (arith, class_end_loop-Returns n q, class_end_loop-Returns n (y ∷ q))

length-skip_byte : (b : ℕ) (p : List ℕ) → length (skip_byte b p) ≤ length p
length-skip_byte b [] = omega arith
length-skip_byte b (x ∷ q) = ground arith

escaped_end-Returns :
    (p : List ℕ) (n : ℕ) → length p ≤ n → Returns (Shorter (suc n)) (escaped_end p)
escaped_end-Returns [] n h = λ e. cc
escaped_end-Returns (c ∷ rest) n h = omega arith

class_end-Returns : (p : List ℕ) → Returns (Shorter (length p)) (class_end p)
unfolding class_end
class_end-Returns [] = λ e. cc
class_end-Returns (b ∷ p) =
    if-Returns (Shorter (suc (length p))) (b == percent) _ _
      (escaped_end-Returns p (length p) (omega arith))
      (if-Returns (Shorter (suc (length p))) (b == left_bracket) _ _
        (class_end_loop-Returns (length p) (skip_byte right_bracket (skip_byte caret p)) (
          omega
            (arith, length-skip_byte right_bracket (skip_byte caret p), length-skip_byte caret p)))
        (the_rest (length p)))
  where
    the_rest : (n : ℕ) → n < suc n
    the_rest n = omega arith

abbrev pub Leaves : ℕ → Item → Type 0
Leaves n item = length (after_item item) < n

with_suffix-Leaves : (p ep : List ℕ) {n : ℕ} → length ep < n → Leaves n (with_suffix p ep)
unfolding with_suffix
with_suffix-Leaves p [] h = ground arith
with_suffix-Leaves p (q ∷ rest) h = ground arith

read_single-Returns : (p : List ℕ) → Returns (Leaves (length p)) (read_single p)
unfolding read_single
read_single-Returns p =
    >>=-Returns (Shorter (length p)) (Leaves (length p)) (class_end p) (λ ep. ok (with_suffix p ep))
      (class_end-Returns p) (λ ep h. with_suffix-Leaves p ep h)

read_balance-Returns :
    (p : List ℕ) (n : ℕ) → length p ≤ n → Returns (Leaves (suc n)) (read_balance p)
unfolding read_balance
read_balance-Returns [] n h = λ e. cc
read_balance-Returns (x ∷ []) n h = λ e. cc
read_balance-Returns (x ∷ y ∷ p) n h = omega arith

read_frontier-Returns :
    (p : List ℕ) (n : ℕ) → length p ≤ n → Returns (Leaves (suc n)) (read_frontier p)
unfolding read_frontier
read_frontier-Returns [] n h = λ e. cc
read_frontier-Returns (b ∷ p) n h =
    if-Returns (Leaves (suc n)) (b == left_bracket) _ _
      (>>=-Returns (Shorter (suc (length p))) (Leaves (suc n)) (class_end (b ∷ p))
        (λ ep. ok (frontier (b ∷ p) ep)) (class_end-Returns (b ∷ p)) (λ ep shorter. omega arith))
      (λ e. cc)

read_escape-Returns : (p : List ℕ) → Returns (Leaves (suc (length p))) (read_escape p)
unfolding read_escape
read_escape-Returns [] = read_single-Returns (percent ∷ [])
read_escape-Returns (c1 ∷ rest) =
    if-Returns there (c1 == 0x62) _ _ (read_balance-Returns rest _ (omega arith)) (
      if-Returns there (c1 == 0x66) _ _ (read_frontier-Returns rest _ (omega arith)) (
        if-Returns there (isdigit c1) _ _
          (if-Returns there (c1 == 0x30) _ _ (λ e. cc) (omega arith))
          (read_single-Returns (percent ∷ c1 ∷ rest))))
  where
    there : Item → Type 0
    there = Leaves (suc (suc (length rest)))

read_open-Leaves : (p : List ℕ) (n : ℕ) → length p ≤ n → Leaves (suc n) (read_open p)
unfolding read_open
read_open-Leaves [] n h = omega arith
read_open-Leaves (c ∷ rest) n h = ground arith

read_dollar-Returns : (p : List ℕ) → Returns (Leaves (suc (length p))) (read_dollar p)
unfolding read_dollar
read_dollar-Returns [] = omega arith
read_dollar-Returns (c ∷ rest) = read_single-Returns (dollar ∷ c ∷ rest)

-- Reading an item of a pattern that is not empty leaves less of it.
pub read_item-Returns : (c : ℕ) (p : List ℕ) → Returns (Leaves (suc (length p))) (read_item (c ∷ p))
unfolding read_item
read_item-Returns c p =
    if-Returns there (c == left_paren) _ _ (read_open-Leaves p (length p) (omega arith)) (
      if-Returns there (c == right_paren) _ _ (omega arith) (
        if-Returns there (c == dollar) _ _ (read_dollar-Returns p) (
          if-Returns there (c == percent) _ _ (read_escape-Returns p)
            (read_single-Returns (c ∷ p)))))
  where
    there : Item → Type 0
    there = Leaves (suc (length p))
