-- ===== src/Net/Ring/Fifo.antt =====
-- What the ring holds, as a queue of bytes.
use fakelua.Base.{ℕ, ◌+◌, ◌-◌, ◌%◌, ◌≤◌, ◌<◌, ◌≡◌, arith, min, true, false}
use fakelua.Base.{List, [], ◌++◌, ltb, leb, ◌==◌, if◌then◌else◌, length, take, drop, get_or}
use fakelua.Base.{ap, ap₂, sym, ◌∙◌, Bool-cases, ==_iff, inl, inr}
use fakelua.Base.{append-nil}
use fakelua.Base.Slices.{tabulate, tabulate_ext, tabulate_add}
use fakelua.Base.Slices.{take-drop-tabulate, mod-under, mod-over}
use fakelua.Net.Ring.{Ring, peek}

-- The bytes from `head` on, around the end.
abbrev pub entry : Ring → ℕ → ℕ
entry r i = get_or r.buf ((r.head + i) % length r.buf) 0

unfoldable pub contents : Ring → List ℕ
contents r = tabulate r.size (entry r)

pub record IsValid (r : Ring) : Type 0 where
  pub some_room : 0 < length r.buf
  pub head_inside : r.head < length r.buf
  pub no_more : r.size ≤ length r.buf
  pub tail_after : r.tail ≡ (r.head + r.size) % length r.buf

-- The place of an entry, before and after the end of the array.
pub place : (h i c : ℕ) → h < c → i ≤ c → (h + i) % c ≡ (if ltb (h + i) c then h + i else h + i - c)
place h i c inside less = elim (Bool-cases (ltb (h + i) c)) [
  | inl under ↦ rw under (mod-under (h + i) c (ground arith))
  | inr over ↦ rw over (mod-over (h + i) c (ground arith) (ground arith))
]

around : (h i c : ℕ) → h < c → i < c → 0 + i ≡ (h + (c - h + i)) % c
around h i c inside less =
    let past : h + (c - h + i) ≡ c + i = omega arith in
    let back : c + i - c ≡ 0 + i = omega arith in
    rw past (sym (mod-over (c + i) c (omega arith) (omega arith) ∙ back))

-- The two copies of `Peek`.
copy_around :
    (buf : List ℕ) (h len : ℕ)
    → h < length buf
    → len ≤ length buf
    → take (min len (length buf - h)) (drop h buf)
        ++ (if ltb 0 (len - min len (length buf - h))
            then take (len - min len (length buf - h)) buf
            else [])
      ≡ tabulate len (λ i. get_or buf ((h + i) % length buf) 0)
copy_around buf h len inside fits = elim (Bool-cases (leb (h + len) (length buf))) [
  | inl under ↦
      let first : min len (length buf - h) ≡ len = ground arith in
      let second : ltb 0 (len - len) ≡ false = ground arith in
      rw (first, second)
        (append-nil (take len (drop h buf))
          ∙ take-drop-tabulate buf h len 0 (ground arith)
          ∙ tabulate_ext len (λ i. get_or buf (h + i) 0) (λ i. get_or buf ((h + i) % length buf) 0)
              (λ i less.
                ap (λ j. get_or buf j 0) (sym (mod-under (h + i) (length buf) (ground arith)))))
  | inr over ↦
      let front : ℕ = length buf - h in
      let first : min len (length buf - h) ≡ length buf - h = ground arith in
      let second : ltb 0 (len - (length buf - h)) ≡ true = ground arith in
      let whole : len ≡ length buf - h + (len - (length buf - h)) = ground arith in
      rw (first, second)
        (ap₂ (λ xs ys. xs ++ ys)
            (take-drop-tabulate buf h (length buf - h) 0 (ground arith)
              ∙ tabulate_ext (length buf - h) (λ i. get_or buf (h + i) 0)
                  (λ i. get_or buf ((h + i) % length buf) 0)
                  (λ i less.
                    ap (λ j. get_or buf j 0) (sym (mod-under (h + i) (length buf) (omega arith)))))
            (take-drop-tabulate buf 0 (len - (length buf - h)) 0 (ground arith)
              ∙ tabulate_ext (len - (length buf - h)) (λ i. get_or buf (0 + i) 0)
                  (λ i. get_or buf ((h + (length buf - h + i)) % length buf) 0)
                  (λ i less.
                    ap (λ j. get_or buf j 0) (around h i (length buf) inside (omega arith))))
          ∙ sym (
              tabulate_add (length buf - h) (len - (length buf - h))
                (λ i. get_or buf ((h + i) % length buf) 0))
          ∙ ap (λ n. tabulate n (λ i. get_or buf ((h + i) % length buf) 0)) (sym whole))
]

-- `Peek` in terms of entries.
pub peek-tabulate : (r : Ring) (n : ℕ) → IsValid r → peek r n ≡ tabulate (min n r.size) (entry r)
unfolding peek
peek-tabulate r n valid = elim (Bool-cases (min n r.size == 0)) [
  | inl none ↦ rw none (ap (λ m. tabulate m (entry r)) (sym ((==_iff (min n r.size) 0).0 none)))
  | inr some ↦
      let fits = valid.no_more in
      rw some (copy_around r.buf r.head (min n r.size) valid.head_inside (omega arith))
]
