-- ===== src/Utf8/Found.antt =====
-- What a sequence that was decoded looks like.
use fakelua.Base.{ℕ, suc, ◌+◌, ◌-◌, ◌*◌, ◌/◌, ◌%◌, ◌^◌, ◌≤◌, ◌<◌, ◌≡◌, arith, bit_and, bit_or}
use fakelua.Base.{false, ◌&&◌, List, [], ◌∷◌, ltb, leb, ◌==◌, if◌then◌else◌, length}
use fakelua.Base.{Option, none, some, ap, ap₂, ◌∙◌, sym, Bool-cases, inl, inr}
use fakelua.Base.Bits.{or_disjoint_above, and_mask}
use fakelua.Utf8.{continue_sequence, is_bad_sequence}
use fakelua.Utf8.{decode_sequence}

-- One byte of a sequence that was read.
continued :
    (count cp next : ℕ) (src : List ℕ) (found : ℕ × List ℕ)
    → continue_sequence (suc count) cp (next ∷ src) ≡ some found
    → (next ≡ 0x80 + next % 64) × (continue_sequence count (cp * 64 + next % 64) src ≡ some found)
unfolding continue_sequence
continued count cp next src found e = elim (Bool-cases (next / 2 ^ 6 == 0x02)) [
  | inl mark ↦
      let joined : bit_or (cp * 2 ^ 6) (bit_and next 0x3f) ≡ cp * 64 + next % 64 =
        ap (bit_or (cp * 2 ^ 6)) (and_mask 6 next)
        ∙ or_disjoint_above 6 (next % 64) cp (omega arith) in
      let taken : continue_sequence count (bit_or (cp * 2 ^ 6) (bit_and next 0x3f)) src
          ≡ some found =
        ground (arith, e, mark) in
      (ground (arith, mark), ap (λ (n : ℕ). continue_sequence count n src) (sym joined) ∙ taken)
  | inr other ↦ absurd (ground (arith, e, other))
]

settle : ℕ → List ℕ → Option (ℕ × List ℕ) → Option ℕ × List ℕ
settle len src none = (none, src)
settle len src (some found) =
    if is_bad_sequence len found.0 then (none, src) else (some found.0, found.1)

settled :
    (len : ℕ) (src : List ℕ) (r : Option (ℕ × List ℕ)) (cp' : ℕ) (rest : List ℕ)
    → settle len src r ≡ (some cp', rest)
    → (r ≡ some (cp', rest)) × (is_bad_sequence len cp' ≡ false)
unfolding settle
settled len src none cp' rest e = absurd (ground (arith, e))
settled len src (some (a, left)) cp' rest e = elim (Bool-cases (is_bad_sequence len a)) [
  | inl bad ↦ absurd (ground (arith, e, bad))
  | inr good ↦
      let value : a ≡ cp' = ground (arith, e, good) in
      let after : left ≡ rest = ground (arith, e, good) in
      (ap₂ (λ n xs. some (n, xs)) value after, ap (is_bad_sequence len) (sym value) ∙ good)
]

-- A sequence that was decoded.
sequence_found :
    (len cp : ℕ) (src : List ℕ) (cp' : ℕ) (rest : List ℕ)
    → decode_sequence len cp src ≡ (some cp', rest)
    → (continue_sequence (len - 1) cp src ≡ some (cp', rest)) × (is_bad_sequence len cp' ≡ false)
unfolding decode_sequence settle
sequence_found len cp src cp' rest e = elim (Bool-cases (ltb (length src + 1) len)) [
  | inl short ↦ absurd (ground (arith, e, short))
  | inr enough ↦ settled len src (continue_sequence (len - 1) cp src) cp' rest (rw enough at e)
]

abbrev number : Option (ℕ × List ℕ) → ℕ
number none = 0
number (some found) = found.0

abbrev others : Option (ℕ × List ℕ) → List ℕ
others none = []
others (some found) = found.1

finished :
    (cp : ℕ) (src : List ℕ) (found : ℕ × List ℕ)
    → continue_sequence 0 cp src ≡ some found
    → (cp ≡ found.0) × (src ≡ found.1)
unfolding continue_sequence
finished cp src found e = (ap number e, ap others e)

stopped :
    (count cp : ℕ) (found : ℕ × List ℕ)
    → continue_sequence (suc count) cp [] ≡ some found
    → count < count
unfolding continue_sequence
stopped count cp found e = absurd (ground (arith, e))

pub two_found :
    (a : ℕ) (src : List ℕ) (cp : ℕ) (rest : List ℕ)
    → decode_sequence 2 a src ≡ (some cp, rest)
    → (src ≡ (0x80 + cp % 64) ∷ rest) × (a ≡ cp / 64) × (0x80 ≤ cp)
unfolding is_bad_sequence
two_found a [] cp rest e =
    let (found, good) = sequence_found 2 a [] cp rest e in
    absurd (omega (arith, stopped 0 a (cp, rest) found))
two_found a (b ∷ src) cp rest e =
    let (found, good) = sequence_found 2 a (b ∷ src) cp rest e in
    let (shape, over) = continued 0 a b src (cp, rest) found in
    let (value, left) = finished (a * 64 + b % 64) src (cp, rest) over in
    let low : cp % 64 ≡ b % 64 = omega (arith, value) in
    (
      ap₂ (λ x xs. x ∷ xs) (omega (arith, shape, low)) left,
      omega (arith, value),
      ground (arith, good),
    )

pub three_found :
    (a : ℕ) (src : List ℕ) (cp : ℕ) (rest : List ℕ)
    → decode_sequence 3 a src ≡ (some cp, rest)
    → (src ≡ (0x80 + cp / 64 % 64) ∷ (0x80 + cp % 64) ∷ rest)
      × (a ≡ cp / 4096)
      × (0x800 ≤ cp)
      × ((leb 0xd800 cp && leb cp 0xdfff) ≡ false)
unfolding is_bad_sequence
three_found a [] cp rest e =
    let (found, good) = sequence_found 3 a [] cp rest e in
    absurd (omega (arith, stopped 1 a (cp, rest) found))
three_found a (b ∷ []) cp rest e =
    let (found, good) = sequence_found 3 a (b ∷ []) cp rest e in
    let (shape, more) = continued 1 a b [] (cp, rest) found in
    absurd (omega (arith, stopped 0 (a * 64 + b % 64) (cp, rest) more))
three_found a (b ∷ c ∷ src) cp rest e =
    let (found, good) = sequence_found 3 a (b ∷ c ∷ src) cp rest e in
    let (shape, more) = continued 1 a b (c ∷ src) (cp, rest) found in
    let (shape₂, over) = continued 0 (a * 64 + b % 64) c src (cp, rest) more in
    let (value, left) = finished ((a * 64 + b % 64) * 64 + c % 64) src (cp, rest) over in
    let middle : cp / 64 % 64 ≡ b % 64 = omega (arith, value) in
    let low : cp % 64 ≡ c % 64 = omega (arith, value) in
    (
      ap₂ (λ x xs. x ∷ xs) (omega (arith, shape, middle))
          (ap₂ (λ x xs. x ∷ xs) (omega (arith, shape₂, low)) left),
      omega (arith, value),
      ground (arith, good),
      ground (arith, good),
    )

pub four_found :
    (a : ℕ) (src : List ℕ) (cp : ℕ) (rest : List ℕ)
    → decode_sequence 4 a src ≡ (some cp, rest)
    → (src ≡ (0x80 + cp / 4096 % 64) ∷ (0x80 + cp / 64 % 64) ∷ (0x80 + cp % 64) ∷ rest)
      × (a ≡ cp / 262144)
      × (0x10000 ≤ cp)
      × (cp ≤ 0x10ffff)
unfolding is_bad_sequence
four_found a [] cp rest e =
    let (found, good) = sequence_found 4 a [] cp rest e in
    absurd (omega (arith, stopped 2 a (cp, rest) found))
four_found a (b ∷ []) cp rest e =
    let (found, good) = sequence_found 4 a (b ∷ []) cp rest e in
    let (shape, more) = continued 2 a b [] (cp, rest) found in
    absurd (omega (arith, stopped 1 (a * 64 + b % 64) (cp, rest) more))
four_found a (b ∷ c ∷ []) cp rest e =
    let (found, good) = sequence_found 4 a (b ∷ c ∷ []) cp rest e in
    let (shape, more) = continued 2 a b (c ∷ []) (cp, rest) found in
    let (shape₂, more₂) = continued 1 (a * 64 + b % 64) c [] (cp, rest) more in
    absurd (omega (arith, stopped 0 ((a * 64 + b % 64) * 64 + c % 64) (cp, rest) more₂))
four_found a (b ∷ c ∷ d ∷ src) cp rest e =
    let (found, good) = sequence_found 4 a (b ∷ c ∷ d ∷ src) cp rest e in
    let (shape, more) = continued 2 a b (c ∷ d ∷ src) (cp, rest) found in
    let (shape₂, more₂) = continued 1 (a * 64 + b % 64) c (d ∷ src) (cp, rest) more in
    let (shape₃, over) = continued 0 ((a * 64 + b % 64) * 64 + c % 64) d src (cp, rest) more₂ in
    let (value, left) =
      finished (((a * 64 + b % 64) * 64 + c % 64) * 64 + d % 64) src (cp, rest) over in
    let high : cp / 4096 % 64 ≡ b % 64 = omega (arith, value) in
    let middle : cp / 64 % 64 ≡ c % 64 = omega (arith, value) in
    let low : cp % 64 ≡ d % 64 = omega (arith, value) in
    (
      ap₂ (λ x xs. x ∷ xs) (omega (arith, shape, high))
          (ap₂ (λ x xs. x ∷ xs) (omega (arith, shape₂, middle))
            (ap₂ (λ x xs. x ∷ xs) (omega (arith, shape₃, low)) left)),
      omega (arith, value),
      ground (arith, good),
      ground (arith, good),
    )
