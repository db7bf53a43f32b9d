-- ===== src/Net/Ring/Write.antt =====
-- `Write` and `CommitWrite` append.
use fakelua.Base.{ℕ, zero, suc, ◌+◌, ◌-◌, ◌%◌, ◌≤◌, ◌<◌, ◌≡◌, arith, min, true, false}
use fakelua.Base.{List, [], ◌∷◌, ◌++◌, ◌==◌, length, take, get_or}
use fakelua.Base.{refl, ap, ap₂, sym, ◌∙◌, Bool-cases, ==_iff, inl, inr, append-nil, some}
use fakelua.Base.Slices.{tabulate_ext, tabulate_add, tabulate-get_or, write_at}
use fakelua.Base.Slices.{length-write_at}
use native.Mathlib.Nat.{mod-lt, mod-add-mod}
use fakelua.Net.Ring.{Ring, write, writable_region, commit_write}
use fakelua.Net.Ring.Fifo.{IsValid, contents, entry, place}
use fakelua.Net.Ring.Filled.{filled, length-filled, filled_elsewhere, filled_here, one_copy}

-- The ring with `len` of the bytes in place.
abbrev written : Ring → ℕ → List ℕ → Ring
written r len bytes = record r {
  buf = filled r.buf r.tail len bytes;
  tail = (r.tail + len) % length r.buf;
  size = r.size + len;
}

module _ (r : Ring) (len : ℕ) (bytes : List ℕ) (valid : IsValid r)
    (room : len ≤ length r.buf - r.size) (given : len ≤ length bytes) where
  tail_inside : r.tail < length r.buf
  tail_inside =
      let p = place r.head r.size (length r.buf) valid.head_inside valid.no_more in
      ground (arith, valid.tail_after, p, valid.no_more, valid.head_inside)

  same_length : length (filled r.buf r.tail len bytes) ≡ length r.buf
  same_length =
      length-filled r.buf r.tail len bytes tail_inside (omega (arith, valid.no_more)) given

  further : (j : ℕ) → (r.head + (r.size + j)) % length r.buf ≡ (r.tail + j) % length r.buf
  further j =
      let regroup : r.head + (r.size + j) ≡ r.head + r.size + j = omega arith in
      rw (regroup, valid.tail_after) (sym (mod-add-mod (r.head + r.size) (length r.buf) j))

  kept : (i : ℕ) → i < r.size → entry (written r len bytes) i ≡ entry r i
  kept i less =
      let here =
        place r.head i (length r.buf) valid.head_inside (omega (arith, less, valid.no_more)) in
      let there = place r.head r.size (length r.buf) valid.head_inside valid.no_more in
      ap (λ (c : ℕ). get_or (filled r.buf r.tail len bytes) ((r.head + i) % c) 0) same_length
      ∙ filled_elsewhere r.buf r.tail len bytes tail_inside (omega (arith, valid.no_more)) given
          ((r.head + i) % length r.buf) (mod-lt (r.head + i) valid.some_room)
          (ground
            (arith, here, there, valid.tail_after, room, less, valid.no_more, valid.head_inside))

  added : (j : ℕ) → j < len → entry (written r len bytes) (r.size + j) ≡ get_or bytes j 0
  added j less =
      ap (λ (c : ℕ). get_or (filled r.buf r.tail len bytes) ((r.head + (r.size + j)) % c) 0)
        same_length
      ∙ ap (λ i. get_or (filled r.buf r.tail len bytes) i 0)
          (further j
            ∙ place r.tail j (length r.buf) tail_inside (omega (arith, valid.no_more, room, less)))
      ∙ filled_here r.buf r.tail len bytes tail_inside (omega (arith, valid.no_more)) given j less

  pub written-contents : contents (written r len bytes) ≡ contents r ++ take len bytes
  unfolding contents
  written-contents =
      tabulate_add r.size len (entry (written r len bytes))
      ∙ ap₂ (λ xs ys. xs ++ ys) (tabulate_ext r.size (entry (written r len bytes)) (entry r) kept)
          (tabulate_ext len (λ j. entry (written r len bytes) (r.size + j)) (λ j. get_or bytes j 0)
              added
            ∙ tabulate-get_or bytes len 0 given)

  pub written-IsValid : IsValid (written r len bytes)
  written-IsValid = record {
    some_room = omega (arith, same_length, valid.some_room);
    head_inside = omega (arith, same_length, valid.head_inside);
    no_more = omega (arith, same_length, room, valid.no_more);
    tail_after = rw same_length (sym (further len));
  }

take_whole : (xs : List ℕ) → take (length xs) xs ≡ xs
take_whole [] = refl
take_whole (x ∷ xs) = ap (λ ys. x ∷ ys) (take_whole xs)

take-min : (n : ℕ) (xs : List ℕ) → take n xs ≡ take (min (length xs) n) xs
take-min zero xs = let none : min (length xs) 0 ≡ 0 = omega arith in rw none refl
take-min (suc n) [] = let none : min 0 (suc n) ≡ 0 = omega arith in rw none refl
take-min (suc n) (x ∷ xs) =
    let less : min (suc (length xs)) (suc n) ≡ suc (min (length xs) n) = omega arith in
    rw less (ap (λ ys. x ∷ ys) (take-min n xs))

abbrev accepted : Ring → List ℕ → ℕ
accepted r bytes = min (length bytes) (length r.buf - r.size)

write_nothing :
    (r : Ring) (bytes : List ℕ) → (accepted r bytes == 0) ≡ true → write r bytes ≡ (0, r)
unfolding write
write_nothing r bytes h = rw h refl

write_some :
    (r : Ring) (bytes : List ℕ)
    → (accepted r bytes == 0) ≡ false
    → write r bytes ≡ (accepted r bytes, written r (accepted r bytes) bytes)
unfolding write
write_some r bytes h = rw h refl

-- `write` keeps the ring well formed and its capacity, appends what fits of the bytes to the
-- contents, and returns how many those are.
pub write_lem :
    (r : Ring) (bytes : List ℕ)
    → IsValid r
    → IsValid (write r bytes).1
      × (length (write r bytes).1.buf ≡ length r.buf)
      × (contents (write r bytes).1 ≡ contents r ++ take (length r.buf - r.size) bytes)
      × ((write r bytes).0 ≡ min (length bytes) (length r.buf - r.size))
write_lem r bytes valid = elim (Bool-cases (accepted r bytes == 0)) [
  | inl full ↦
      let nothing : accepted r bytes ≡ 0 = (==_iff (accepted r bytes) 0).0 full in
      rw (write_nothing r bytes full, take-min (length r.buf - r.size) bytes, nothing)
        (valid, refl, sym (append-nil (contents r)), refl)
  | inr more ↦
      let room : accepted r bytes ≤ length r.buf - r.size = omega arith in
      let given : accepted r bytes ≤ length bytes = omega arith in
      rw (write_some r bytes more, take-min (length r.buf - r.size) bytes)
        (
          written-IsValid r (accepted r bytes) bytes valid room given,
          same_length r (accepted r bytes) bytes valid room given,
          written-contents r (accepted r bytes) bytes valid room given,
          refl,
        )
]

module _ (r : Ring) (bytes : List ℕ) (off room : ℕ) (valid : IsValid r)
    (region : writable_region r ≡ some (off, room)) (fits : length bytes ≤ room) where
  region_start : off ≡ r.tail
  unfolding writable_region
  region_start = ground (arith, region)

  region_end : r.tail + length bytes ≤ length r.buf
  unfolding writable_region
  region_end =
      let inside = tail_inside r 0 bytes valid (omega arith) (omega arith) in
      ground (arith, region, fits, inside, valid.head_inside)

  region_room : length bytes ≤ length r.buf - r.size
  unfolding writable_region
  region_room =
      let there = place r.head r.size (length r.buf) valid.head_inside valid.no_more in
      ground (arith, region, fits, there, valid.tail_after, valid.head_inside, valid.no_more)

  stored-written :
      commit_write (record r { buf = write_at r.buf off bytes }) (length bytes)
      ≡ written r (length bytes) bytes
  unfolding commit_write
  stored-written =
      let inside = tail_inside r 0 bytes valid (omega arith) (omega arith) in
      let copied : filled r.buf r.tail (length bytes) bytes ≡ write_at r.buf r.tail bytes =
        one_copy r.buf r.tail (length bytes) bytes inside (omega (arith, region_room)) (omega arith)
          region_end
        ∙ ap (write_at r.buf r.tail) (take_whole bytes) in
      rw (region_start, length-write_at r.buf r.tail bytes, copied) refl

-- Bytes stored from the start of the writable region on, as many as it has room for at most, and
-- then committed, are appended to the contents, and the ring stays well formed.
pub commit_write-writable_region :
    (r : Ring) (bytes : List ℕ) (off room : ℕ)
    → IsValid r
    → writable_region r ≡ some (off, room)
    → length bytes ≤ room
    → IsValid (commit_write (record r { buf = write_at r.buf off bytes }) (length bytes))
      × (contents (commit_write (record r { buf = write_at r.buf off bytes }) (length bytes))
          ≡ contents r ++ bytes)
commit_write-writable_region r bytes off room valid region fits =
    let free = region_room r bytes off room valid region fits in
    rw (stored-written r bytes off room valid region fits) (
      written-IsValid r (length bytes) bytes valid free (omega arith),
      written-contents r (length bytes) bytes valid free (omega arith)
          ∙ ap (λ xs. contents r ++ xs) (take_whole bytes),
    )
