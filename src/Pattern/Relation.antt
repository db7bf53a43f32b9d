-- ===== src/Pattern/Relation.antt =====
-- When a pattern matches, with no order of search in it: from `s`, with captures `caps`, up to `e`, with
-- captures `out`.
use fakelua.Base.{ℕ, ◌+◌, ◌≤◌, ◌<◌, ◌≡◌, refl, Bool, true, List, [], ◌∷◌, ◌++◌}
use fakelua.Base.{length, some, if◌then◌else◌}
use fakelua.Base.Result.{ok}
use fakelua.Pattern.Item.{Item, finish, open_capture, close_capture, end_anchor, balance, frontier}
use fakelua.Pattern.Item.{back_reference, single, Repeat, once, optional, one_or_more, any_greedy}
use fakelua.Pattern.Item.{any_lazy, read_item}
use fakelua.Pattern.Match.{Captures, unfinished, position, max_captures, close_last, hit}
use fakelua.Pattern.Match.{match_balance, match_frontier, match_capture}

-- The numbers of bytes that a suffix allows.
abbrev pub Allows : Repeat → ℕ → Type 0
Allows once n = n ≡ 1
Allows optional n = n ≤ 1
Allows one_or_more n = 1 ≤ n
Allows any_greedy n = 0 ≤ n
Allows any_lazy n = 0 ≤ n

-- The item takes each of the `n` bytes from `s` on.
abbrev pub Hits : List ℕ → List ℕ → ℕ → ℕ → Type 0
Hits src p s n = (j : ℕ) → j < n → hit src (s + j) p ≡ true

abbrev pub opened : ℕ → Bool → Captures → Captures
opened s is_position caps =
    caps ++ (record { init = s; len = if is_position then position else unfinished }) ∷ []

pub data Matches (src : List ℕ) (e : ℕ) (out : Captures) : ℕ → List ℕ → Captures → Type 0 where
  finished : {p : List ℕ} → read_item p ≡ ok finish → Matches src e out e p out
  opens :
      {s : ℕ} {p rest : List ℕ} {caps : Captures} {is_position : Bool}
      → read_item p ≡ ok (open_capture is_position rest)
      → length caps < max_captures
      → Matches src e out s rest (opened s is_position caps)
      → Matches src e out s p caps
  closes :
      {s : ℕ} {p rest : List ℕ} {caps caps' : Captures}
      → read_item p ≡ ok (close_capture rest)
      → close_last s caps ≡ some caps'
      → Matches src e out s rest caps'
      → Matches src e out s p caps
  ends : {p : List ℕ} → read_item p ≡ ok end_anchor → e ≡ length src → Matches src e out e p out
  balances :
      {s s' x y : ℕ} {p rest : List ℕ} {caps : Captures}
      → read_item p ≡ ok (balance x y rest)
      → match_balance src s x y ≡ some s'
      → Matches src e out s' rest caps
      → Matches src e out s p caps
  crosses :
      {s : ℕ} {p set rest : List ℕ} {caps : Captures}
      → read_item p ≡ ok (frontier set rest)
      → match_frontier src s set ≡ true
      → Matches src e out s rest caps
      → Matches src e out s p caps
  repeats_capture :
      {s s' i : ℕ} {p rest : List ℕ} {caps : Captures}
      → read_item p ≡ ok (back_reference i rest)
      → match_capture src s i caps ≡ ok (some s')
      → Matches src e out s' rest caps
      → Matches src e out s p caps
  takes :
      {s n : ℕ} {p set rest : List ℕ} {caps : Captures} {how : Repeat}
      → read_item p ≡ ok (single set how rest)
      → Allows how n
      → Hits src set s n
      → Matches src e out (s + n) rest caps
      → Matches src e out s p caps

-- The same by the item.
abbrev pub ItemMatches : List ℕ → ℕ → Captures → ℕ → Captures → Item → Type 0
ItemMatches src e out s caps finish = (s ≡ e) × (caps ≡ out)
ItemMatches src e out s caps (open_capture is_position rest) =
    (length caps < max_captures) × Matches src e out s rest (opened s is_position caps)
ItemMatches src e out s caps (close_capture rest) =
    (caps' : Captures) × (close_last s caps ≡ some caps') × Matches src e out s rest caps'
ItemMatches src e out s caps end_anchor = (s ≡ e) × (caps ≡ out) × (e ≡ length src)
ItemMatches src e out s caps (balance x y rest) =
    (s' : ℕ) × (match_balance src s x y ≡ some s') × Matches src e out s' rest caps
ItemMatches src e out s caps (frontier set rest) =
    (match_frontier src s set ≡ true) × Matches src e out s rest caps
ItemMatches src e out s caps (back_reference i rest) =
    (s' : ℕ) × (match_capture src s i caps ≡ ok (some s')) × Matches src e out s' rest caps
ItemMatches src e out s caps (single set how rest) =
    (n : ℕ) × Allows how n × Hits src set s n × Matches src e out (s + n) rest caps

module _ {src : List ℕ} {e : ℕ} {out : Captures} where
  pub by_item :
      {s : ℕ} {p : List ℕ} {caps : Captures}
      → (item : Item) → read_item p ≡ ok item
      → ItemMatches src e out s caps item
      → Matches src e out s p caps
  by_item finish r (hs, hc) = rw (hs, hc) (finished r)
  by_item (open_capture is_position rest) r (few, m) = opens r few m
  by_item (close_capture rest) r (caps', h, m) = closes r h m
  by_item end_anchor r (hs, hc, he) = rw (hs, hc) (ends r he)
  by_item (balance x y rest) r (s', h, m) = balances r h m
  by_item (frontier set rest) r (h, m) = crosses r h m
  by_item (back_reference i rest) r (s', h, m) = repeats_capture r h m
  by_item (single set how rest) r (n, allowed, hits, m) = takes r allowed hits m

  pub item_of :
      {s : ℕ} {p : List ℕ} {caps : Captures}
      → Matches src e out s p caps
      → (item : Item) × (read_item p ≡ ok item) × ItemMatches src e out s caps item
  item_of (finished r) = (finish, r, (refl, refl))
  item_of (opens r few m) = (_, r, (few, m))
  item_of (closes r h m) = (_, r, (_, h, m))
  item_of (ends r he) = (end_anchor, r, (refl, refl, he))
  item_of (balances r h m) = (_, r, (_, h, m))
  item_of (crosses r h m) = (_, r, (h, m))
  item_of (repeats_capture r h m) = (_, r, (_, h, m))
  item_of (takes r allowed hits m) = (_, r, (_, allowed, hits, m))
