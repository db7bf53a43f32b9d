-- ===== src/Pool/Acquire.antt =====
-- What an `Acquire` that returns a connection has found.
use fakelua.Base.{ℕ, zero, suc, ◌+◌, ◌%◌, ◌≡◌, refl, ap, subst, arith, true, false, List, length}
use fakelua.Base.{Option, none, some, get_elem?, Bool-cases, inl, inr}
use fakelua.Pool.{
  Connections, PoolEntry, Pool, Owned, acquire, take_entry, hand_out, find_available,
}
use fakelua.Pool.{available, available_at}

module _ {C : Type 0} (on : Connections C) where
  find_available-available_at :
      (es : List (PoolEntry C)) (start left i idx : ℕ)
      → find_available on es start left i ≡ some idx
      → available_at on es idx ≡ true
  unfolding find_available
  find_available-available_at es start zero i idx found = ground (arith, found)
  find_available-available_at es start (suc left) i idx found =
      elim (Bool-cases (available_at on es ((start + i) % length es))) [
        | inl here ↦ subst (λ k. available_at on es k ≡ true) (ground (arith, here, found)) here
        | inr elsewhere ↦
            find_available-available_at es start left (i + 1) idx (ground (arith, elsewhere, found))
      ]

  pub record Acquired (p : Pool C) (c : Owned C) : Type 0 where
    pub idx : ℕ
    pub entry : PoolEntry C
    pub there : get_elem? p.entries idx ≡ some entry
    pub free : available on entry ≡ true
    pub conn : entry.conn ≡ some c
    pub found : find_available on p.entries p.round_robin (length p.entries) 0 ≡ some idx
    pub after : (acquire on p).0 ≡ (hand_out p idx (some entry)).0

  pub acquire_open :
      (p : Pool C)
      → p.closed ≡ false
      → acquire on p ≡ take_entry p (find_available on p.entries p.round_robin (length p.entries) 0)
  unfolding acquire
  acquire_open p still = rw still refl

  acquire_shut : (p : Pool C) → p.closed ≡ true → acquire on p ≡ (p, none)
  unfolding acquire
  acquire_shut p shut = rw shut refl

  Acquired-at :
      (p : Pool C) (c : Owned C) (idx : ℕ) (e : Option (PoolEntry C))
      → get_elem? p.entries idx ≡ e
      → find_available on p.entries p.round_robin (length p.entries) 0 ≡ some idx
      → (hand_out p idx e).1 ≡ some c
      → acquire on p ≡ hand_out p idx e
      → Acquired p c
  unfolding hand_out
  Acquired-at p c idx none there found got same = ground (arith, got)
  Acquired-at p c idx (some e) there found got same = record {
    idx = idx;
    entry = e;
    there = there;
    free = ground (
      arith,
      there,
      find_available-available_at p.entries p.round_robin (length p.entries) 0 idx found,
    );
    conn = got;
    found = found;
    after = ap (λ r. r.0) same;
  }

  Acquired-by :
      (p : Pool C) (c : Owned C) (o : Option ℕ)
      → find_available on p.entries p.round_robin (length p.entries) 0 ≡ o
      → (take_entry p o).1 ≡ some c
      → acquire on p ≡ take_entry p o
      → Acquired p c
  unfolding take_entry
  Acquired-by p c none found got same = ground (arith, got)
  Acquired-by p c (some idx) found got same =
      Acquired-at p c idx (get_elem? p.entries idx) refl found got same

  pub acquire-Acquired : (p : Pool C) (c : Owned C) → (acquire on p).1 ≡ some c → Acquired p c
  acquire-Acquired p c got = elim (Bool-cases p.closed) [
    | inl shut ↦ absurd (none_got (ap (λ r. r.1) (acquire_shut p shut)))
    | inr still ↦
        Acquired-by p c _ refl (subst (λ r. r.1 ≡ some c) (acquire_open p still) got)
          (acquire_open p still)
  ]
    where
      none_got : ¬ ((acquire on p).1 ≡ none)
      none_got none_there = ground (arith, none_there, got)
