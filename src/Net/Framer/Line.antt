-- ===== src/Net/Framer/Line.antt =====
-- The line framer.
use fakelua.Base.{ℕ, zero, suc, ◌+◌, ◌-◌, ◌≤◌, ◌<◌, ◌≡◌, arith, Bool, true, false}
use fakelua.Base.{List, [], ◌∷◌, ◌++◌, ltb, ◌==◌, length, take, drop, ◌&&◌, not, get_or}
use fakelua.Base.{refl, ap, sym, ◌∙◌, Bool-cases, inl, inr, some, length-append}
use fakelua.Base.{append_assoc, take-length-append, drop-length-append}
use fakelua.Net.Queue.{ByteQueue}
use fakelua.Net.Framer.{NetConfig, packet, find_newline, one_further, line_payload}
use fakelua.Net.Framer.{scan_bytes, take_line, parse_line}

-- A line holds no '\n'.
unfoldable pub is_line : List ℕ → Bool
is_line [] = true
is_line (b ∷ bytes) = not (b == 10) && is_line bytes

-- A '\r' at the end is not told from the one of "\r\n".
unfoldable pub ends_in_return : List ℕ → Bool
ends_in_return bytes = ltb 0 (length bytes) && get_or bytes (length bytes - 1) 0 == 13

find_newline-take :
    (bytes rest : List ℕ) (scan : ℕ)
    → is_line bytes ≡ true
    → length bytes < scan
    → find_newline (take scan (bytes ++ 10 ∷ rest)) ≡ some (length bytes)
unfolding find_newline one_further is_line
find_newline-take bytes rest zero line h = absurd (omega arith)
find_newline-take [] rest (suc scan) line h = refl
find_newline-take (b ∷ bytes) rest (suc scan) line h =
    let other : (b == 10) ≡ false = ground (arith, line) in
    let later : is_line bytes ≡ true = ground (arith, line) in
    rw (other, find_newline-take bytes rest scan later (omega arith)) (ap some (omega arith))

get_or-append_left :
    (xs ys : List ℕ) (i : ℕ) → i < length xs → get_or (xs ++ ys) i 0 ≡ get_or xs i 0
get_or-append_left [] ys i h = absurd (omega arith)
get_or-append_left (x ∷ xs) ys zero h = refl
get_or-append_left (x ∷ xs) ys (suc i) h = get_or-append_left xs ys i (omega arith)

line_payload-line :
    (bytes : List ℕ)
    → ends_in_return bytes ≡ false
    → line_payload (length bytes) (bytes ++ 10 ∷ []) ≡ bytes
unfolding line_payload ends_in_return
line_payload-line bytes h = elim (Bool-cases (ltb 0 (length bytes))) [
  | inl more ↦
      let same : get_or (bytes ++ 10 ∷ []) (length bytes - 1) 0
          ≡ get_or bytes (length bytes - 1) 0 =
        get_or-append_left bytes (10 ∷ []) (length bytes - 1) (ground (arith, more)) in
      rw (same, h) (take-length-append bytes (10 ∷ []))
  | inr nothing ↦ rw nothing (take-length-append bytes (10 ∷ []))
]

take_line_end :
    (bytes rest : List ℕ) → take (length bytes + 1) (bytes ++ 10 ∷ rest) ≡ bytes ++ 10 ∷ []
take_line_end bytes rest =
    ap (λ n. take n (bytes ++ 10 ∷ rest)) (sym (length-append bytes (10 ∷ [])))
    ∙ ap (take (length (bytes ++ 10 ∷ []))) (sym (append_assoc bytes (10 ∷ []) rest))
    ∙ take-length-append (bytes ++ 10 ∷ []) rest

drop_line_end : (bytes rest : List ℕ) → drop (length bytes + 1) (bytes ++ 10 ∷ rest) ≡ rest
drop_line_end bytes rest =
    ap (λ n. drop n (bytes ++ 10 ∷ rest)) (sym (length-append bytes (10 ∷ [])))
    ∙ ap (drop (length (bytes ++ 10 ∷ []))) (sym (append_assoc bytes (10 ∷ []) rest))
    ∙ drop-length-append (bytes ++ 10 ∷ []) rest

module _ (queue : ByteQueue) where
  open queue use {Q, capacity, size, peek, read, skip, Valid, contents}
  open queue use {size_law, peek_law, read_law, skip_law}

  -- A line is read back without its end, whatever follows.
  pub line_parsed :
      (cfg : NetConfig queue) (q : Q) (bytes rest : List ℕ)
      → Valid q
      → contents q ≡ bytes ++ 10 ∷ rest
      → is_line bytes ≡ true
      → ends_in_return bytes ≡ false
      → length bytes ≤ cfg.max_packet_len
      → ((parse_line queue cfg q).0 ≡ packet bytes)
        × Valid (parse_line queue cfg q).1
        × (contents (parse_line queue cfg q).1 ≡ rest)
  unfolding parse_line take_line
  line_parsed cfg q bytes rest valid holds line no_return within =
      let long : size q ≡ length bytes + suc (length rest) =
        (size_law q valid).0 ∙ ap length holds ∙ length-append bytes (10 ∷ rest) in
      let some_bytes : (size q == 0) ≡ false = ground (arith, long) in
      let far : length bytes < scan_bytes queue cfg q = ground (arith, long, within) in
      let front : peek q (scan_bytes queue cfg q)
          ≡ take (scan_bytes queue cfg q) (bytes ++ 10 ∷ rest) =
        peek_law q (scan_bytes queue cfg q) valid ∙ ap (take (scan_bytes queue cfg q)) holds in
      let allowed : (ltb 0 cfg.max_packet_len && ltb cfg.max_packet_len (length bytes)) ≡ false =
        ground (arith, within) in
      let (well, _, got, left) = read_law q (length bytes + 1) valid in
      let taken : (read q (length bytes + 1)).0 ≡ bytes ++ 10 ∷ [] =
        got ∙ ap (take (length bytes + 1)) holds ∙ take_line_end bytes rest in
      rw
        (some_bytes, front, find_newline-take bytes rest (scan_bytes queue cfg q) line far, allowed)
        (
          ap packet (ap (line_payload (length bytes)) taken ∙ line_payload-line bytes no_return),
          well,
          left ∙ ap (drop (length bytes + 1)) holds ∙ drop_line_end bytes rest,
        )
