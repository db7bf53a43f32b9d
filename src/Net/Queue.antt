-- ===== src/Net/Queue.antt =====
-- What the framers of src/native/net/net_buffer.cpp use of `CircularBuffer`: a bounded queue of bytes.
use fakelua.Base.{ℕ, ◌-◌, ◌≤◌, ◌<◌, ◌≡◌, min, List, [], ◌++◌, length, take, drop}

pub record ByteQueue : Type 1 where
  pub Q : Type 0
  pub init : ℕ → Q
  pub capacity : Q → ℕ
  pub size : Q → ℕ
  pub write : Q → List ℕ → ℕ × Q
  pub peek : Q → ℕ → List ℕ
  pub read : Q → ℕ → List ℕ × Q
  pub skip : Q → ℕ → ℕ × Q
  pub Valid : Q → Type 0
  pub contents : Q → List ℕ
  pub init_law :
      (n : ℕ) → 0 < n → Valid (init n) × (contents (init n) ≡ []) × (capacity (init n) ≡ n)
  pub size_law : (q : Q) → Valid q → (size q ≡ length (contents q)) × (size q ≤ capacity q)
  pub write_law :
      (q : Q) (bytes : List ℕ)
      → Valid q
      → Valid (write q bytes).1
        × (capacity (write q bytes).1 ≡ capacity q)
        × (contents (write q bytes).1 ≡ contents q ++ take (capacity q - size q) bytes)
        × ((write q bytes).0 ≡ min (length bytes) (capacity q - size q))
  pub peek_law : (q : Q) (n : ℕ) → Valid q → peek q n ≡ take n (contents q)
  pub read_law :
      (q : Q) (n : ℕ)
      → Valid q
      → Valid (read q n).1
        × (capacity (read q n).1 ≡ capacity q)
        × ((read q n).0 ≡ take n (contents q))
        × (contents (read q n).1 ≡ drop n (contents q))
  pub skip_law :
      (q : Q) (n : ℕ)
      → Valid q
      → Valid (skip q n).1
        × (capacity (skip q n).1 ≡ capacity q)
        × (contents (skip q n).1 ≡ drop n (contents q))
        × ((skip q n).0 ≡ min n (length (contents q)))
