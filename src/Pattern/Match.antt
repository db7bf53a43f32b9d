-- ===== src/Pattern/Match.antt =====
-- `PatternMatcher`. A failed attempt restores the captures, so they are passed down and come back with a
-- match; `depth_` is passed down as what is left of `kMaxCallDepth`.
use fakelua.Base.{ℕ, zero, suc, ◌+◌, ◌-◌, Bool, true, false, not, ◌&&◌, ◌||◌, List, [], ◌∷◌, ◌++◌}
use fakelua.Base.{
  ltb, leb, ◌==◌, if◌then◌else◌, length, get_elem?, get_or, take, drop, Option, none, some,
}
use fakelua.Base.Bytes.{same_bytes}
use fakelua.Base.Result.{Result, ok, err, ◌>>=◌}
use fakelua.Pattern.Class.{PatternError, stack_overflow, invalid_capture_index, too_many_captures}
use fakelua.Pattern.Class.{invalid_pattern_capture, out_of_rounds, single_match_byte}
use fakelua.Pattern.Item.{Item, finish, open_capture, close_capture, end_anchor, balance, frontier}
use fakelua.Pattern.Item.{back_reference, single, Repeat, once, optional, one_or_more, any_greedy}
use fakelua.Pattern.Item.{any_lazy, read_item}

-- `len`: a length or one of the two marks.
pub data Extent : Type 0 where
  unfinished position : Extent
  closed : ℕ → Extent

pub record Capture : Type 0 where
  pub init : ℕ
  pub len : Extent

abbrev pub Captures : Type 0
Captures = List Capture

-- The end of a match and its captures, or no match.
abbrev pub Attempt : Type 0
Attempt = Result PatternError (Option (ℕ × Captures))

abbrev pub max_captures : ℕ
max_captures = 32

abbrev pub max_call_depth : ℕ
max_call_depth = 200

-- From the last capture down, the first that is unfinished.
unfoldable pub close_last : ℕ → Captures → Option Captures
close_last s [] = none
close_last s (c ∷ caps) = elim (close_last s caps) [
  | some closed_caps ↦ some (c ∷ closed_caps)
  | none ↦ elim c.len [
    | unfinished ↦ some ((record c { len = closed (s - c.init) }) ∷ caps)
    | position ↦ none
    | closed l ↦ none
  ]
]

-- The two scans of `%b`: `q` is the index of the list's first byte.
unfoldable pub scan_to : ℕ → ℕ → List ℕ → Option ℕ
scan_to e q [] = none
scan_to e q (x ∷ xs) = if x == e then some (q + 1) else scan_to e (q + 1) xs

unfoldable pub scan_balance : ℕ → ℕ → ℕ → ℕ → List ℕ → Option ℕ
scan_balance b e cont q [] = none
scan_balance b e cont q (x ∷ xs) = elim (x == e) [
  | true ↦ elim (cont - 1 == 0) [
    | true ↦ some (q + 1)
    | false ↦ scan_balance b e (cont - 1) (q + 1) xs
  ]
  | false ↦ scan_balance b e (if x == b then cont + 1 else cont) (q + 1) xs
]

-- A try, and another if it does not match.
unfoldable pub or_else : Attempt → Attempt → Attempt
or_else (err e) second = err e
or_else (ok (some found)) second = ok (some found)
or_else (ok none) second = second

-- `MaxExpand` from `i` repetitions down.
unfoldable pub max_loop : (ℕ → Attempt) → ℕ → Attempt
max_loop try zero = try 0
max_loop try (suc i) = or_else (try (suc i)) (max_loop try i)

unfoldable pub go_on : (ℕ → List ℕ → Captures → Attempt) → List ℕ → Captures → Option ℕ → Attempt
go_on again rest caps none = ok none
go_on again rest caps (some s) = again s rest caps

module _ (src : List ℕ) where
  -- `SingleMatch`
  unfoldable pub hit : ℕ → List ℕ → Bool
  hit s p = ltb s (length src) && single_match_byte (get_or src s 0) p

  unfoldable pub match_balance : ℕ → ℕ → ℕ → Option ℕ
  match_balance s b e =
      if leb (length src) s || not (get_or src s 0 == b)
      then none
      else if b == e
      then scan_to e (s + 1) (drop (s + 1) src)
      else scan_balance b e 1 (s + 1) (drop (s + 1) src)

  unfoldable pub match_frontier : ℕ → List ℕ → Bool
  match_frontier s set =
      let prev = if s == 0 then 0 else get_or src (s - 1) 0 in
      let cur = if s == length src then 0 else get_or src s 0 in
      not (single_match_byte prev set) && single_match_byte cur set

  unfoldable pub compare_capture : ℕ → ℕ → Extent → Result PatternError (Option ℕ)
  compare_capture s init unfinished = err invalid_capture_index
  compare_capture s init position = ok (if s == init then some s else none)
  compare_capture s init (closed l) = ok (
      if ltb (length src - s) l
      then none
      else if same_bytes (take l (drop init src)) (take l (drop s src))
      then some (s + l)
      else none)

  unfoldable pub match_capture : ℕ → ℕ → Captures → Result PatternError (Option ℕ)
  unfolding compare_capture
  match_capture s i caps = elim (get_elem? caps i) [
    | none ↦ err invalid_capture_index
    | some c ↦ compare_capture s c.init c.len
  ]

  -- How many bytes from `s` on, of `left` at most, the item takes.
  unfoldable pub run_length : ℕ → ℕ → List ℕ → ℕ
  run_length zero s p = 0
  run_length (suc left) s p = elim (hit s p) [ true ↦ suc (run_length left (s + 1) p) | false ↦ 0 ]

  -- `MinExpand`, up to the end of the subject.
  unfoldable pub min_loop : (ℕ → Attempt) → ℕ → ℕ → List ℕ → Attempt
  min_loop try zero s p = try s
  min_loop try (suc left) s p =
      or_else (try s) (elim (hit s p) [ true ↦ min_loop try left (s + 1) p | false ↦ ok none ])

  -- One level of the recursion: `deeper` is `Match` one level down.
  module _ (deeper : ℕ → List ℕ → Captures → Attempt) where
    unfoldable pub max_expand : ℕ → List ℕ → List ℕ → Captures → Attempt
    max_expand s p rest caps =
        max_loop (λ i. deeper (s + i) rest caps) (run_length (length src - s) s p)

    unfoldable pub min_expand : ℕ → List ℕ → List ℕ → Captures → Attempt
    min_expand s p rest caps = min_loop (λ t. deeper t rest caps) (length src - s) s p

    -- The cases of the `switch`; `again` is `goto init`.
    unfoldable pub match_single :
        (ℕ → List ℕ → Captures → Attempt) → ℕ → Captures → List ℕ → Repeat → List ℕ → Attempt
    unfolding max_expand min_expand
    match_single again s caps p once rest = if hit s p then again (s + 1) rest caps else ok none
    match_single again s caps p optional rest =
        if hit s p
        then or_else (deeper (s + 1) rest caps) (again s rest caps)
        else again s rest caps
    match_single again s caps p one_or_more rest =
        if hit s p then max_expand (s + 1) p rest caps else ok none
    match_single again s caps p any_greedy rest =
        if hit s p then max_expand s p rest caps else again s rest caps
    match_single again s caps p any_lazy rest =
        if hit s p then min_expand s p rest caps else again s rest caps

    unfoldable pub close : ℕ → List ℕ → Option Captures → Attempt
    close s rest none = err invalid_pattern_capture
    close s rest (some caps) = deeper s rest caps

    unfoldable pub match_item : (ℕ → List ℕ → Captures → Attempt) → ℕ → Captures → Item → Attempt
    unfolding match_single go_on close
    match_item again s caps finish = ok (some (s, caps))
    match_item again s caps (open_capture is_position rest) =
        if leb max_captures (length caps)
        then err too_many_captures
        else deeper s rest
            (caps ++ (record { init = s; len = if is_position then position else unfinished }) ∷ [])
    match_item again s caps (close_capture rest) = close s rest (close_last s caps)
    match_item again s caps end_anchor = ok (if s == length src then some (s, caps) else none)
    match_item again s caps (balance b e rest) = go_on again rest caps (match_balance s b e)
    match_item again s caps (frontier set rest) =
        if match_frontier s set then again s rest caps else ok none
    match_item again s caps (back_reference i rest) = do
      end ← match_capture s i caps
      go_on again rest caps end
    match_item again s caps (single p how rest) = match_single again s caps p how rest

    -- The rounds of `goto init`, each on a shorter pattern.
    unfoldable pub match_loop : ℕ → ℕ → List ℕ → Captures → Attempt
    unfolding match_item
    match_loop zero s p caps = err out_of_rounds
    match_loop (suc rounds) s p caps = do
      item ← read_item p
      match_item (match_loop rounds) s caps item

  unfoldable pub match : ℕ → ℕ → List ℕ → Captures → Attempt
  unfolding match_loop
  match zero s p caps = err stack_overflow
  match (suc depth) s p caps = match_loop (match depth) (length p + 1) s p caps
