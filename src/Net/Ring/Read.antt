-- ===== src/Net/Ring/Read.antt =====
-- `Peek` looks at the front, and `Read`, `Skip` and `CommitRead` take it away.
use fakelua.Base.{ℕ, zero, suc, ◌+◌, ◌-◌, ◌%◌, ◌≤◌, ◌≡◌, arith, min}
use fakelua.Base.{List, [], ◌∷◌, ◌==◌, length, take, drop, get_or}
use fakelua.Base.{refl, ap, ap₂, sym, ◌∙◌, Bool-cases, ==_iff, inl, inr, some}
use fakelua.Base.Slices.{tabulate, tabulate_ext, take-tabulate, drop-tabulate, length-tabulate}
use fakelua.Base.Slices.{take-drop-tabulate, mod-under}
use native.Mathlib.Nat.{mod-lt, mod-add-mod}
use fakelua.Net.Ring.{Ring, read, peek, skip, readable_region, commit_read}
use fakelua.Net.Ring.Fifo.{IsValid, contents, entry, peek-tabulate, place}

pub length-contents : (r : Ring) → length (contents r) ≡ r.size
unfolding contents
length-contents r = length-tabulate r.size (entry r)

-- The ring with `len` bytes gone.
abbrev advanced : Ring → ℕ → Ring
advanced r len = record r { head = (r.head + len) % length r.buf; size = r.size - len }

advanced-entry : (r : Ring) (len i : ℕ) → entry (advanced r len) i ≡ entry r (len + i)
advanced-entry r len i =
    let regroup : r.head + (len + i) ≡ r.head + len + i = omega arith in
    ap (λ j. get_or r.buf j 0) (rw regroup (mod-add-mod (r.head + len) (length r.buf) i))

advanced-contents : (r : Ring) (len : ℕ) → contents (advanced r len) ≡ drop len (contents r)
unfolding contents
advanced-contents r len =
    tabulate_ext (r.size - len) (entry (advanced r len)) (λ i. entry r (len + i))
      (λ i less. advanced-entry r len i)
    ∙ sym (drop-tabulate len r.size (entry r))

advanced-IsValid : (r : Ring) (len : ℕ) → IsValid r → len ≤ r.size → IsValid (advanced r len)
advanced-IsValid r len valid h = record {
  some_room = valid.some_room;
  head_inside = mod-lt (r.head + len) valid.some_room;
  no_more = omega (arith, valid.no_more);
  tail_after =
      let regroup : r.head + len + (r.size - len) ≡ r.head + r.size = omega (arith, h) in
      valid.tail_after
      ∙ ap (λ (t : ℕ). t % length r.buf) (sym regroup)
      ∙ sym (mod-add-mod (r.head + len) (length r.buf) (r.size - len));
}

drop-min : (n : ℕ) (xs : List ℕ) → drop (min n (length xs)) xs ≡ drop n xs
drop-min zero xs = let all : min 0 (length xs) ≡ 0 = omega arith in rw all refl
drop-min (suc n) [] = let all : min (suc n) 0 ≡ 0 = omega arith in rw all refl
drop-min (suc n) (x ∷ xs) =
    let less : min (suc n) (suc (length xs)) ≡ suc (min n (length xs)) = omega arith in
    rw less (drop-min n xs)

-- `peek` gives the first bytes of the contents, as many as are asked for and there.
pub peek_lem : (r : Ring) (n : ℕ) → IsValid r → peek r n ≡ take n (contents r)
unfolding contents
peek_lem r n valid = peek-tabulate r n valid ∙ sym (take-tabulate n r.size (entry r))

-- `skip` drops the bytes that `peek` shows, counts them, and keeps the ring well formed.
pub skip_lem :
    (r : Ring) (n : ℕ)
    → IsValid r
    → IsValid (skip r n).1
      × ((skip r n).1.buf ≡ r.buf)
      × (contents (skip r n).1 ≡ drop n (contents r))
      × ((skip r n).0 ≡ min n (length (contents r)))
unfolding skip
skip_lem r n valid =
    let count : min n r.size ≡ min n (length (contents r)) = ap (min n) (sym (length-contents r)) in
    (
      advanced-IsValid r (min n r.size) valid (omega arith),
      refl,
      advanced-contents r (min n r.size)
          ∙ ap (λ m. drop m (contents r)) count
          ∙ drop-min n (contents r),
      count,
    )

read-skip : (r : Ring) (n : ℕ) → IsValid r → read r n ≡ (peek r n, (skip r n).1)
unfolding read skip
read-skip r n valid = elim (Bool-cases (min n r.size == 0)) [
  | inl nothing ↦
      let same : advanced r 0 ≡ r =
        ap₂ (λ h s. record r { head = h; size = s })
          (ap (λ (h : ℕ). h % length r.buf) {y = r.head} (omega arith)
            ∙ mod-under r.head (length r.buf) valid.head_inside)
          (omega arith) in
      rw nothing (
        ap (λ s. (peek r n, s))
          (sym same ∙ ap (advanced r) (sym ((==_iff (min n r.size) 0).0 nothing))))
  | inr more ↦ rw more refl
]

-- `read` returns the first bytes of the contents, leaves the others, and keeps the ring well formed.
pub read_lem :
    (r : Ring) (n : ℕ)
    → IsValid r
    → IsValid (read r n).1
      × ((read r n).1.buf ≡ r.buf)
      × ((read r n).0 ≡ take n (contents r))
      × (contents (read r n).1 ≡ drop n (contents r))
read_lem r n valid =
    let (well, same, rest, count) = skip_lem r n valid in
    rw (read-skip r n valid) (well, same, peek_lem r n valid, rest)

module _ (r : Ring) (off len n : ℕ) (valid : IsValid r)
    (region : readable_region r ≡ some (off, len)) (fits : n ≤ len) where
  region_start : off ≡ r.head
  unfolding readable_region
  region_start = ground (arith, region)

  region_end : r.head + n ≤ length r.buf
  unfolding readable_region
  region_end =
      let there = mod-lt (r.head + r.size) valid.some_room in
      ground (arith, region, fits, valid.head_inside, valid.tail_after, there)

  region_size : n ≤ r.size
  unfolding readable_region
  region_size =
      let there = place r.head r.size (length r.buf) valid.head_inside valid.no_more in
      ground (arith, region, fits, there, valid.tail_after, valid.head_inside, valid.no_more)

  region_bytes : take n (drop off r.buf) ≡ take n (contents r)
  unfolding contents
  region_bytes =
      let within : min n r.size ≡ n = omega (arith, region_size) in
      rw region_start (
        take-drop-tabulate r.buf r.head n 0 region_end
        ∙ tabulate_ext n (λ i. get_or r.buf (r.head + i) 0) (entry r)
            (λ i less.
              ap (λ j. get_or r.buf j 0)
                (sym (mod-under (r.head + i) (length r.buf) (omega (arith, region_end)))))
        ∙ ap (λ m. tabulate m (entry r)) (sym within)
        ∙ sym (take-tabulate n r.size (entry r)))

-- The readable region holds the first bytes of the contents, and committing any part of it drops
-- that many and keeps the ring well formed.
pub commit_read-readable_region :
    (r : Ring) (off len n : ℕ)
    → IsValid r
    → readable_region r ≡ some (off, len)
    → n ≤ len
    → (take n (drop off r.buf) ≡ take n (contents r))
      × (contents (commit_read r n) ≡ drop n (contents r))
      × IsValid (commit_read r n)
unfolding commit_read
commit_read-readable_region r off len n valid region fits = (
  region_bytes r off len n valid region fits,
  advanced-contents r n,
  advanced-IsValid r n valid (region_size r off len n valid region fits),
)
