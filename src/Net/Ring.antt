-- ===== src/Net/Ring.antt =====
-- `CircularBuffer` of src/native/net/net_buffer.cpp. A `memcpy` reads by `take` and `drop` and writes
-- by `write_at`; a region is its offset and its length.
pub mod Fifo
pub mod Filled
pub mod Write
pub mod Read
pub mod Queue
use fakelua.Base.{ℕ, ◌+◌, ◌-◌, ◌%◌, min, Bool, true, false, List, [], ◌++◌, ltb, leb, ◌==◌}
use fakelua.Base.{if◌then◌else◌, length, take, drop, replicate, Option, none, some}
use fakelua.Base.Slices.{write_at}

pub record Ring : Type 0 where
  pub buf : List ℕ
  pub head : ℕ
  pub tail : ℕ
  pub size : ℕ

unfoldable pub init : ℕ → Ring
init capacity = record { buf = replicate capacity 0; head = 0; tail = 0; size = 0 }

unfoldable pub capacity : Ring → ℕ
capacity r = length r.buf

unfoldable pub empty : Ring → Bool
empty r = r.size == 0

unfoldable pub full : Ring → Bool
full r = leb (length r.buf) r.size

unfoldable pub clear : Ring → Ring
clear r = record r { head = 0; tail = 0; size = 0 }

-- `Write` of a whole array, with the bytes that it has no room for left out.
unfoldable pub write : Ring → List ℕ → ℕ × Ring
write r bytes =
    let cap = length r.buf in
    let len : ℕ = min (length bytes) (cap - r.size) in
    if len == 0
    then (0, r)
    else (let first : ℕ = min len (cap - r.tail) in
        let second : ℕ = len - first in
        let front : List ℕ = write_at r.buf r.tail (take first bytes) in
        let filled : List ℕ =
          if ltb 0 second then write_at front 0 (take second (drop first bytes)) else front in
        (len, record r { buf = filled; tail = (r.tail + len) % cap; size = r.size + len }))

-- `Peek`, which `Read` copies by too.
unfoldable pub peek : Ring → ℕ → List ℕ
peek r n =
    let len : ℕ = min n r.size in
    if len == 0
    then []
    else (let first : ℕ = min len (length r.buf - r.head) in
        let second : ℕ = len - first in
        take first (drop r.head r.buf) ++ (if ltb 0 second then take second r.buf else []))

unfoldable pub read : Ring → ℕ → List ℕ × Ring
read r n =
    let len : ℕ = min n r.size in
    (
      peek r n,
      if len == 0
          then r
          else record r { head = (r.head + len) % length r.buf; size = r.size - len },
    )

unfoldable pub skip : Ring → ℕ → ℕ × Ring
skip r n =
    let len : ℕ = min n r.size in
    (len, record r { head = (r.head + len) % length r.buf; size = r.size - len })

unfoldable pub writable_region : Ring → Option (ℕ × ℕ)
writable_region r =
    let cap = length r.buf in
    if leb cap r.size
    then none
    else some (r.tail, (if ltb r.tail r.head then r.head else cap) - r.tail)

unfoldable pub commit_write : Ring → ℕ → Ring
commit_write r bytes = record r { tail = (r.tail + bytes) % length r.buf; size = r.size + bytes }

unfoldable pub readable_region : Ring → Option (ℕ × ℕ)
readable_region r =
    if r.size == 0
    then none
    else some (r.head, (if ltb r.head r.tail then r.tail else length r.buf) - r.head)

unfoldable pub commit_read : Ring → ℕ → Ring
commit_read r bytes = record r { head = (r.head + bytes) % length r.buf; size = r.size - bytes }
