-- ===== src/Pattern/Correct/Items.antt =====
-- The other items.
use fakelua.Base.{ℕ, ◌<◌, ◌≡◌, ◌≢◌, refl, subst, ap, inl, inr, arith, List}
use fakelua.Base.{
  Bool, true, false, length, Option, none, some, Bool-cases, if◌then◌else◌, leb, ◌==◌,
}
use fakelua.Base.{get_elem?, Option-cases}
use fakelua.Base.Result.{Result, ok, err, ◌>>=◌}
use fakelua.Pattern.Class.{PatternError, out_of_rounds, too_many_captures}
use fakelua.Pattern.Item.{Item, finish, open_capture, close_capture, end_anchor, balance, frontier}
use fakelua.Pattern.Item.{back_reference, single, after_item}
use fakelua.Pattern.Match.{Captures, Attempt, match_item, go_on, close, close_last, match_capture}
use fakelua.Pattern.Match.{
  max_captures, match_frontier, match_balance, compare_capture, Extent, unfinished,
}
use fakelua.Pattern.Match.{position, closed}
use fakelua.Pattern.Relation.{Matches, ItemMatches, opened}
use fakelua.Pattern.Answer.{Answers, Answers-weaken}
use fakelua.Pattern.Correct.Single.{Match, Right, match_single-Answers}

-- No match where a test fails; the rest of the pattern where it holds.
pub guarded-Answers :
    (P : ℕ → Captures → Type 0) (test : Bool) (r : Attempt)
    → Answers P r
    → Answers (λ e out. (test ≡ true) × P e out) (if test then r else ok none)
guarded-Answers P true r h = Answers-weaken P _ r (λ e out p. (refl, p)) (λ e out p. p.1) h
guarded-Answers P false r h = λ e out p. ground (arith, p.0)

pub go_on-Answers :
    (P : ℕ → ℕ → Captures → Type 0) (again : ℕ → List ℕ → Captures → Attempt) (rest : List ℕ)
    (caps : Captures) (o : Option ℕ)
    → ((s : ℕ) → Answers (P s) (again s rest caps))
    → Answers (λ e out. (s : ℕ) × (o ≡ some s) × P s e out) (go_on again rest caps o)
unfolding go_on
go_on-Answers P again rest caps none each = λ e out (s, same, _). ground (arith, same)
go_on-Answers P again rest caps (some s) each =
    Answers-weaken (P s) _ (again s rest caps) (λ e out p. (s, refl, p))
      (λ e out (t, same, p). subst (λ u. P u e out) (ground (arith, same)) p) (each s)

compare_capture_error :
    (src : List ℕ) (s init : ℕ) (len : Extent) (thrown : PatternError)
    → compare_capture src s init len ≡ err thrown
    → thrown ≢ out_of_rounds
unfolding compare_capture
compare_capture_error src s init unfinished thrown h = λ same. cc
compare_capture_error src s init position thrown h = λ same. cc
compare_capture_error src s init (closed l) thrown h = λ same. cc

match_capture_error :
    (src : List ℕ) (s i : ℕ) (caps : Captures) (thrown : PatternError)
    → match_capture src s i caps ≡ err thrown
    → thrown ≢ out_of_rounds
unfolding match_capture
match_capture_error src s i caps thrown h = elim (Option-cases (get_elem? caps i)) [
  | inl missing ↦ λ same. ground (arith, missing)
  | inr (c, there) ↦ compare_capture_error src s c.init c.len thrown (ground (arith, there))
]

module _ (src : List ℕ) (deeper again : ℕ → List ℕ → Captures → Attempt) where
  opens-Answers :
      (is_position : Bool) (rest : List ℕ) (s : ℕ) (caps : Captures) (r : Attempt)
      → Answers (Match src s rest (opened s is_position caps)) r
      → Answers
          (λ e out. ItemMatches src e out s caps (open_capture is_position rest))
          (if leb max_captures (length caps) then err too_many_captures else r)
  opens-Answers is_position rest s caps r h = elim (Bool-cases (leb max_captures (length caps))) [
    | inl many ↦ rw many (λ e. cc)
    | inr few ↦ rw few (
        Answers-weaken (Match src s rest (opened s is_position caps)) _ r
          (λ e out m. (leb_false max_captures (length caps) few, m)) (λ e out (_, m). m) h)
  ]
    where
      leb_false : (a b : ℕ) → leb a b ≡ false → b < a
      leb_false a b h = ground arith

  end-Answers :
      (s : ℕ) (caps : Captures)
      → Answers
          (λ e out. ItemMatches src e out s caps end_anchor)
          (ok (if s == length src then some (s, caps) else none))
  end-Answers s caps = elim (Bool-cases (s == length src)) [
    | inl here ↦ rw here (refl, refl, ground (arith, here))
    | inr elsewhere ↦
        rw elsewhere (λ e out (same, _, at_end). ground (arith, elsewhere, same, at_end))
  ]

  close-Answers :
      (rest : List ℕ) (s : ℕ) (caps : Option Captures)
      → Right src deeper rest
      → Answers
          (λ e out. (caps' : Captures) × (caps ≡ some caps') × Matches src e out s rest caps')
          (close src deeper s rest caps)
  unfolding close
  close-Answers rest s none deep = λ e. cc
  close-Answers rest s (some caps) deep =
      Answers-weaken (Match src s rest caps) _ (deeper s rest caps) (λ e out m. (caps, refl, m))
        (λ e out (caps', same, m). subst (λ c. Matches src e out s rest c) (ground (arith, same)) m)
        (deep s caps)

  back_reference-Answers :
      (i : ℕ) (rest : List ℕ) (s : ℕ) (caps : Captures)
      → Right src again rest
      → Answers
          (λ e out. ItemMatches src e out s caps (back_reference i rest))
          (match_item src deeper again s caps (back_reference i rest))
  unfolding match_item
  back_reference-Answers i rest s caps on =
      by_result (match_capture src s i caps) (λ thrown. match_capture_error src s i caps thrown)
    where
      by_result :
          (r : Result PatternError (Option ℕ))
          → ((thrown : PatternError) → r ≡ err thrown → thrown ≢ out_of_rounds)
          → Answers
              (λ e out. (t : ℕ) × (r ≡ ok (some t)) × Matches src e out t rest caps)
              (r >>= go_on again rest caps)
      by_result (err thrown) proper = proper thrown refl
      by_result (ok o) proper =
          Answers-weaken (λ e out. (t : ℕ) × (o ≡ some t) × Matches src e out t rest caps) _
            (go_on again rest caps o) (λ e out (t, same, m). (t, ap ok same, m))
            (λ e out (t, same, m). (t, cc, m))
            (go_on-Answers (λ t. Match src t rest caps) again rest caps o (λ t. on t caps))

  pub match_item-Answers :
      (item : Item) (s : ℕ) (caps : Captures)
      → Right src deeper (after_item item)
      → Right src again (after_item item)
      → Answers
          (λ e out. ItemMatches src e out s caps item)
          (match_item src deeper again s caps item)
  unfolding match_item
  match_item-Answers finish s caps deep on = (refl, refl)
  match_item-Answers (open_capture is_position rest) s caps deep on =
      opens-Answers is_position rest s caps _ (deep s (opened s is_position caps))
  match_item-Answers (close_capture rest) s caps deep on =
      close-Answers rest s (close_last s caps) deep
  match_item-Answers end_anchor s caps deep on = end-Answers s caps
  match_item-Answers (balance x y rest) s caps deep on =
      go_on-Answers (λ t. Match src t rest caps) again rest caps (match_balance src s x y)
        (λ t. on t caps)
  match_item-Answers (frontier set rest) s caps deep on =
      guarded-Answers (Match src s rest caps) (match_frontier src s set) (again s rest caps)
        (on s caps)
  match_item-Answers (back_reference i rest) s caps deep on =
      back_reference-Answers i rest s caps on
  match_item-Answers (single set how rest) s caps deep on =
      match_single-Answers src deeper again set rest deep on caps s how
