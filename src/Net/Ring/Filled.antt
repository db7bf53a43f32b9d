-- ===== src/Net/Ring/Filled.antt =====
-- The two copies of `Write`.
use fakelua.Base.{ℕ, ◌+◌, ◌-◌, ◌≤◌, ◌<◌, ◌≡◌, arith, min, true, false}
use fakelua.Base.{List, ltb, leb, if◌then◌else◌, length, take, drop, get_or}
use fakelua.Base.{refl, ap, ◌∙◌, Bool-cases, inl, inr, length-take, length-drop}
use fakelua.Base.Slices.{write_at, length-write_at, get_or-take, get_or-drop}
use fakelua.Base.Slices.{get_or-write_at_inside, get_or-write_at_before, get_or-write_at_after}

abbrev pub filled : List ℕ → ℕ → ℕ → List ℕ → List ℕ
filled buf tail len bytes =
    let first : ℕ = min len (length buf - tail) in
    let second : ℕ = len - first in
    let front : List ℕ = write_at buf tail (take first bytes) in
    if ltb 0 second then write_at front 0 (take second (drop first bytes)) else front

module _ (buf : List ℕ) (tail len : ℕ) (bytes : List ℕ) (inside : tail < length buf)
    (fits : len ≤ length buf) (given : len ≤ length bytes) where
  pub one_copy :
      tail + len ≤ length buf → filled buf tail len bytes ≡ write_at buf tail (take len bytes)
  one_copy under =
      let first : min len (length buf - tail) ≡ len = ground arith in
      let second : ltb 0 (len - len) ≡ false = ground arith in rw (first, second) refl

  two_copies :
      length buf < tail + len
      → filled buf tail len bytes
        ≡ write_at
            (write_at buf tail (take (length buf - tail) bytes))
            0
            (take (len - (length buf - tail)) (drop (length buf - tail) bytes))
  two_copies over =
      let first : min len (length buf - tail) ≡ length buf - tail = ground arith in
      let second : ltb 0 (len - (length buf - tail)) ≡ true = ground arith in
      rw (first, second) refl

  pub length-filled : length (filled buf tail len bytes) ≡ length buf
  length-filled = elim (Bool-cases (leb (tail + len) (length buf))) [
    | inl under ↦ rw (one_copy (ground arith)) (length-write_at buf tail (take len bytes))
    | inr over ↦ rw (two_copies (ground arith)) (
        length-write_at (write_at buf tail (take (length buf - tail) bytes)) 0
          (take (len - (length buf - tail)) (drop (length buf - tail) bytes))
        ∙ length-write_at buf tail (take (length buf - tail) bytes))
  ]

  -- A place at least `len` places on from the tail is left as it was.
  pub filled_elsewhere :
      (i : ℕ)
      → i < length buf
      → len ≤ (if leb tail i then i - tail else i + length buf - tail)
      → get_or (filled buf tail len bytes) i 0 ≡ get_or buf i 0
  filled_elsewhere i within away = elim (Bool-cases (leb (tail + len) (length buf))) [
    | inl under ↦ rw (one_copy (ground arith)) (elim (Bool-cases (ltb i tail)) [
      | inl before ↦ get_or-write_at_before buf tail (take len bytes) i 0 (ground arith)
      | inr after ↦
          get_or-write_at_after buf tail (take len bytes) i 0
            (ground (arith, length-take len bytes))
    ])
    | inr over ↦ rw (two_copies (ground arith)) (
        get_or-write_at_after (write_at buf tail (take (length buf - tail) bytes)) 0
          (take (len - (length buf - tail)) (drop (length buf - tail) bytes)) i 0
          (ground (arith, length-take (len - (length buf - tail)) (drop (length buf - tail) bytes)))
        ∙ get_or-write_at_before buf tail (take (length buf - tail) bytes) i 0 (ground arith))
  ]

  in_first :
      (j : ℕ)
      → j < len
      → length buf < tail + len
      → tail + j < length buf
      → get_or
          (write_at
            (write_at buf tail (take (length buf - tail) bytes))
            0
            (take (len - (length buf - tail)) (drop (length buf - tail) bytes)))
          (tail + j)
          0
        ≡ get_or bytes j 0
  in_first j less over plain =
      get_or-write_at_after (write_at buf tail (take (length buf - tail) bytes)) 0
        (take (len - (length buf - tail)) (drop (length buf - tail) bytes)) (tail + j) 0
        (omega (arith, length-take (len - (length buf - tail)) (drop (length buf - tail) bytes)))
      ∙ get_or-write_at_inside buf tail (take (length buf - tail) bytes) j 0
          (omega (arith, length-take (length buf - tail) bytes)) plain
      ∙ get_or-take bytes (length buf - tail) j 0 (omega arith)

  in_second :
      (j : ℕ)
      → j < len
      → length buf < tail + len
      → length buf ≤ tail + j
      → get_or
          (write_at
            (write_at buf tail (take (length buf - tail) bytes))
            0
            (take (len - (length buf - tail)) (drop (length buf - tail) bytes)))
          (tail + j - length buf)
          0
        ≡ get_or bytes j 0
  in_second j less over wrapped =
      let front : List ℕ = write_at buf tail (take (length buf - tail) bytes) in
      let rest : List ℕ = take (len - (length buf - tail)) (drop (length buf - tail) bytes) in
      let long : length rest ≡ len - (length buf - tail) = omega (
        arith,
        length-take (len - (length buf - tail)) (drop (length buf - tail) bytes),
        length-drop (length buf - tail) bytes,
      ) in
      ap (λ i. get_or (write_at front 0 rest) i 0) {y = 0 + (tail + j - length buf)} (omega arith)
      ∙ get_or-write_at_inside front 0 rest (tail + j - length buf) 0 (omega (arith, long))
          (omega (arith, length-write_at buf tail (take (length buf - tail) bytes)))
      ∙ get_or-take (drop (length buf - tail) bytes) (len - (length buf - tail))
          (tail + j - length buf) 0 (omega arith)
      ∙ get_or-drop bytes (length buf - tail) (tail + j - length buf) 0
      ∙ ap (λ i. get_or bytes i 0) (omega arith)

  -- A place fewer than `len` places on has its byte.
  pub filled_here :
      (j : ℕ)
      → j < len
      → get_or
          (filled buf tail len bytes)
          (if ltb (tail + j) (length buf) then tail + j else tail + j - length buf)
          0
        ≡ get_or bytes j 0
  filled_here j less = elim (Bool-cases (leb (tail + len) (length buf))) [
    | inl under ↦
        let plain : ltb (tail + j) (length buf) ≡ true = ground arith in
        rw (one_copy (ground arith), plain)
          (get_or-write_at_inside buf tail (take len bytes) j 0
              (omega (arith, length-take len bytes)) (ground arith)
            ∙ get_or-take bytes len j 0 less)
    | inr over ↦ elim (Bool-cases (ltb (tail + j) (length buf))) [
      | inl plain ↦
          rw (two_copies (ground arith), plain) (in_first j less (ground arith) (ground arith))
      | inr wrapped ↦
          rw (two_copies (ground arith), wrapped) (in_second j less (ground arith) (ground arith))
    ]
  ]
