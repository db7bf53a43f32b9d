-- ===== src/Pattern/Correct.antt =====
-- `match` decides `Matches`: an induction on the depth, and in it on the rounds.
mod Single
mod Items
use fakelua.Base.{
  ℕ, zero, suc, ◌+◌, ◌≤◌, ◌<◌, ◌≡◌, ◌≢◌, refl, subst, ◌⊎◌, inl, inr, arith, List, [], ◌∷◌, length,
}
use fakelua.Base.Result.{Result, ok, err, ◌>>=◌}
use fakelua.Pattern.Class.{PatternError, out_of_rounds}
use fakelua.Pattern.Item.{Item, read_item, after_item, finish}
use fakelua.Pattern.Match.{Captures, Attempt, match_loop, match_item, match}
use fakelua.Pattern.Relation.{Matches, ItemMatches, by_item, item_of, finished}
use fakelua.Pattern.Answer.{Answers, Answers-weaken}
use fakelua.Pattern.Shrink.{Returns, Leaves, read_item-Returns}
use fakelua.Pattern.Correct.Single.{Match, Right}
use fakelua.Pattern.Correct.Items.{match_item-Answers}

module _ (src : List ℕ) where
  -- What an attempt at the item answers for, the attempt at the pattern answers for.
  by_item-Answers :
      (s : ℕ) (p : List ℕ) (caps : Captures) (item : Item) (r : Attempt)
      → read_item p ≡ ok item
      → Answers (λ e out. ItemMatches src e out s caps item) r
      → Answers (Match src s p caps) r
  by_item-Answers s p caps item r read h =
      Answers-weaken (λ e out. ItemMatches src e out s caps item) (Match src s p caps) r
        (λ e out m. by_item item read m) (λ e out m. same_item e out (item_of m)) h
    where
      same_item :
          (e : ℕ) (out : Captures)
          → (item' : Item) × (read_item p ≡ ok item') × ItemMatches src e out s caps item'
          → ItemMatches src e out s caps item
      same_item e out (item', read', m) =
          subst (λ i. ItemMatches src e out s caps i) (ground (arith, read, read')) m

  module _ (deeper : ℕ → List ℕ → Captures → Attempt)
      (deeper_right : (p : List ℕ) → Right src deeper p) where
    match_loop-nil :
        (rounds s : ℕ) (caps : Captures)
        → Answers (Match src s [] caps) (match_loop src deeper (suc rounds) s [] caps)
    unfolding match_loop match_item read_item
    match_loop-nil rounds s caps = finished refl

    -- A round of which the next is right, on a pattern that is not empty.
    next_round :
        (again : ℕ → List ℕ → Captures → Attempt) (s c : ℕ) (p : List ℕ) (caps : Captures)
        → ((q : List ℕ) → length q < suc (length p) → Right src again q)
        → Answers
            (Match src s (c ∷ p) caps)
            (read_item (c ∷ p) >>= match_item src deeper again s caps)
    next_round again s c p caps again_right =
        with_item (read_item (c ∷ p)) refl (read_item-Returns c p)
      where
        with_item :
            (read : Result PatternError Item)
            → read_item (c ∷ p) ≡ read
            → Returns (Leaves (suc (length p))) read
            → Answers (Match src s (c ∷ p) caps) (read >>= match_item src deeper again s caps)
        with_item (err thrown) same proper = proper
        with_item (ok item) same shorter = by_item-Answers s (c ∷ p) caps item _ same (
            match_item-Answers src deeper again item s caps (deeper_right (after_item item))
              (again_right (after_item item) shorter))

    match_loop-Answers :
        (rounds : ℕ) (p : List ℕ) → length p < rounds → Right src (match_loop src deeper rounds) p
    unfolding match_loop
    match_loop-Answers zero p h s caps = absurd (omega arith)
    match_loop-Answers (suc rounds) [] h s caps = match_loop-nil rounds s caps
    match_loop-Answers (suc rounds) (c ∷ p) h s caps =
        next_round (match_loop src deeper rounds) s c p caps
          (λ q shorter. match_loop-Answers rounds q (omega arith))

  -- Whatever the subject, the pattern, the depth, the start and the captures: a match that Match
  -- returns is one that the relation Matches allows, no match means that Matches allows none, and
  -- what is thrown is an error of the source, as the rounds of its loop are never used up.
  pub match-Answers : (depth : ℕ) (p : List ℕ) → Right src (match src depth) p
  unfolding match
  match-Answers zero p s caps = λ e. cc
  match-Answers (suc depth) p s caps =
      match_loop-Answers (match src depth) (match-Answers depth) (length p + 1) p (omega arith) s
        caps
