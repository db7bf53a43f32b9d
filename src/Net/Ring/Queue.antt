-- ===== src/Net/Ring/Queue.antt =====
-- The ring as a queue of bytes.
use fakelua.Base.{ℕ, ◌-◌, ◌≤◌, ◌<◌, ◌≡◌, arith, refl, ap, sym, length, take, min, ◌++◌, replicate}
use fakelua.Base.{length-replicate, [], List}
use fakelua.Net.Queue.{ByteQueue}
use fakelua.Net.Ring.{Ring, init, capacity, write, peek, read, skip}
use fakelua.Net.Ring.Fifo.{IsValid, contents}
use fakelua.Net.Ring.Write.{write_lem}
use fakelua.Net.Ring.Read.{peek_lem, read_lem, skip_lem, length-contents}

-- A new ring is well formed, has the capacity asked for, and holds nothing.
pub init_lem :
    (n : ℕ) → 0 < n → IsValid (init n) × (contents (init n) ≡ []) × (capacity (init n) ≡ n)
unfolding init capacity contents
init_lem n h =
    let long : length (replicate n 0) ≡ n = length-replicate n 0 in
    (
      record {
        some_room = omega (arith, long);
        head_inside = omega (arith, long);
        no_more = omega arith;
        tail_after = rw long (omega arith);
      },
      refl,
      long,
    )

pub ring_capacity : (r s : Ring) → s.buf ≡ r.buf → capacity s ≡ capacity r
unfolding capacity
ring_capacity r s e = ap length e

pub ring_size : (r : Ring) → IsValid r → (r.size ≡ length (contents r)) × (r.size ≤ capacity r)
unfolding capacity
ring_size r valid = (sym (length-contents r), valid.no_more)

pub ring_write :
    (r : Ring) (bytes : List ℕ)
    → IsValid r
    → IsValid (write r bytes).1
      × (capacity (write r bytes).1 ≡ capacity r)
      × (contents (write r bytes).1 ≡ contents r ++ take (capacity r - r.size) bytes)
      × ((write r bytes).0 ≡ min (length bytes) (capacity r - r.size))
unfolding capacity
ring_write r bytes valid = write_lem r bytes valid

-- The operations of the ring keep the laws of the queue.
abbrev pub ring_queue : ByteQueue
ring_queue = record {
  Q = Ring;
  init = init;
  capacity = capacity;
  size = λ r. r.size;
  write = write;
  peek = peek;
  read = read;
  skip = skip;
  Valid = IsValid;
  contents = contents;
  init_law = init_lem;
  size_law = ring_size;
  write_law = ring_write;
  peek_law = peek_lem;
  read_law = λ r n valid.
      let (well, same, taken, left) = read_lem r n valid in
      (well, ring_capacity r (read r n).1 same, taken, left);
  skip_law = λ r n valid.
      let (well, same, left, count) = skip_lem r n valid in
      (well, ring_capacity r (skip r n).1 same, left, count);
}
