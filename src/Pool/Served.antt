-- ===== src/Pool/Served.antt =====
-- The round robin is fair: an available entry waits for one round of the pool at most.
use fakelua.Base.{
  ℕ, zero, suc, ◌+◌, ◌-◌, ◌%◌, ◌≤◌, ◌<◌, ◌≡◌, sym, ap, ap₂, subst, ◌∙◌, ◌⊎◌, arith, true, false,
}
use fakelua.Base.{List, [], ◌∷◌, length, some, get_elem?, Bool-cases, Option-cases, inl, inr}
use fakelua.Base.{length-set, ℕ_discrete, dec_lt}
use fakelua.Pool.{
  Connections, PoolEntry, Pool, acquire, take_entry, hand_out, find_available, available_at,
}
use fakelua.Pool.Acquire.{acquire_open}
use native.Mathlib.Nat.{mod-lt, mod-add-mod, mod-eq_of_lt, add-mod_right}

module _ {C : Type 0} (on : Connections C) where
  -- `Acquire` returns the connection of the entry at `k`.
  abbrev pub Gets : ℕ → Pool C → Type 0
  Gets k p = (e : PoolEntry C) × (get_elem? p.entries k ≡ some e) × ((acquire on p).1 ≡ e.conn)

  -- The pool between two calls of `Acquire`: what happens to it meanwhile, releases and ticks too, does not
  -- close it, and leaves the entry at `k` available.
  pub record Between (k : ℕ) (p q : Pool C) : Type 0 where
    pub still_open : q.closed ≡ false
    pub same_length : length q.entries ≡ length p.entries
    pub same_cursor : q.round_robin ≡ p.round_robin
    pub still_available : available_at on q.entries k ≡ true

  -- One of the next `n` calls of `Acquire` gets the entry at `k`.
  abbrev pub Served : ℕ → ℕ → Pool C → Type 0
  Served k zero p = ⊥
  Served k (suc n) p = Gets k p ⊎ ((q : Pool C) → Between k (acquire on p).0 q → Served k n q)

  abbrev Stops : List (PoolEntry C) → ℕ → ℕ → ℕ → ℕ → Type 0
  Stops es start d left i =
      (i' : ℕ) × (i' ≤ d)
      × (find_available on es start left i ≡ some ((start + i') % length es))
      × (available_at on es ((start + i') % length es) ≡ true)

  -- The search stops at the wanted entry at the latest.
  find_available-Stops :
      (es : List (PoolEntry C)) (start d left i : ℕ)
      → i ≤ d
      → d < i + left
      → available_at on es ((start + d) % length es) ≡ true
      → Stops es start d left i
  unfolding find_available
  find_available-Stops es start d zero i from below free = absurd (omega arith)
  find_available-Stops es start d (suc left) i from below free =
      elim (Bool-cases (available_at on es ((start + i) % length es))) [
        | inl here ↦ (i, from, ground (arith, here), here)
        | inr elsewhere ↦
            later elsewhere
              (find_available-Stops es start d left (i + 1) (before elsewhere) (omega arith) free)
      ]
    where
      later :
          available_at on es ((start + i) % length es) ≡ false
          → Stops es start d left (i + 1)
          → Stops es start d (suc left) i
      later elsewhere (i', upto, found, there) = (i', upto, ground (arith, elsewhere, found), there)

      before : available_at on es ((start + i) % length es) ≡ false → i + 1 ≤ d
      before elsewhere = elim (ℕ_discrete i d) [
        | yes same ↦ absurd (
            ground (
              arith,
              free,
              subst (λ j. available_at on es ((start + j) % length es) ≡ false) same elsewhere,
            ))
        | no other ↦ omega arith
      ]

  -- An acquisition that finds an entry: it gets the connection, and the cursor goes behind the entry.
  acquire_found :
      (p : Pool C) (idx : ℕ)
      → p.closed ≡ false
      → find_available on p.entries p.round_robin (length p.entries) 0 ≡ some idx
      → available_at on p.entries idx ≡ true
      → Gets idx p
        × ((acquire on p).0.round_robin ≡ (idx + 1) % length p.entries)
        × (length (acquire on p).0.entries ≡ length p.entries)
  unfolding take_entry hand_out
  acquire_found p idx still found free = elim (Option-cases (get_elem? p.entries idx)) [
    | inl missing ↦ absurd (ground (arith, missing, free))
    | inr (e, there) ↦
        got e there (acquire_open on p still ∙ ap (take_entry p) found ∙ handed e there)
  ]
    where
      handed :
          (e : PoolEntry C)
          → get_elem? p.entries idx ≡ some e
          → take_entry p (some idx) ≡ hand_out p idx (some e)
      handed e there = ap (hand_out p idx) there

      got :
          (e : PoolEntry C)
          → get_elem? p.entries idx ≡ some e
          → acquire on p ≡ hand_out p idx (some e)
          → Gets idx p
            × ((acquire on p).0.round_robin ≡ (idx + 1) % length p.entries)
            × (length (acquire on p).0.entries ≡ length p.entries)
      got e there same = (
        (e, there, ap (λ r. r.1) same),
        ap (λ r. r.0.round_robin) same,
        ap (λ r. length r.0.entries) same ∙ length-set p.entries idx (record e { in_use = true }),
      )

  -- The cursor is `d` entries from the one at `k`, which is available, in an open pool.
  pub record Waits (k d : ℕ) (p : Pool C) : Type 0 where
    pub inside : d < length p.entries
    pub away : (p.round_robin + d) % length p.entries ≡ k
    pub still : p.closed ≡ false
    pub free : available_at on p.entries k ≡ true

  around :
      (cursor d i len : ℕ)
      → i < d
      → (((cursor + i) % len + 1) % len + (d - i - 1)) % len ≡ (cursor + d) % len
  around cursor d i len h =
      mod-add-mod ((cursor + i) % len + 1) len (d - i - 1)
      ∙ ap (λ t. t % len) {y = (cursor + i) % len + (d - i)} (omega arith)
      ∙ mod-add-mod (cursor + i) len (d - i)
      ∙ ap (λ t. t % len) {y = cursor + d} (omega arith)

  -- An acquisition that stops before the entry brings the cursor nearer to it.
  Waits-less :
      (k d i : ℕ) (p q : Pool C)
      → Waits k d p
      → i < d
      → (acquire on p).0.round_robin
        ≡ ((p.round_robin + i) % length p.entries + 1) % length p.entries
      → length (acquire on p).0.entries ≡ length p.entries
      → Between k (acquire on p).0 q
      → Waits k (d - i - 1) q
  Waits-less k d i p q waits before cursor len between = record {
    inside = omega (arith, waits.inside, between.same_length, len);
    away =
        ap₂ (λ c l. (c + (d - i - 1)) % l) (between.same_cursor ∙ cursor)
          (between.same_length ∙ len)
        ∙ around p.round_robin d i (length p.entries) before
        ∙ waits.away;
    still = between.still_open;
    free = between.still_available;
  }

  Served-step :
      (k n d : ℕ) (p : Pool C)
      → Waits k d p
      → ((d' : ℕ) (q : Pool C) → d' < d → Waits k d' q → Served k n q)
      → Served k (suc n) p
  Served-step k n d p waits again = by_stop (
      find_available-Stops p.entries p.round_robin d (length p.entries) 0 (omega arith)
        (omega (arith, waits.inside))
        (subst (λ j. available_at on p.entries j ≡ true) (sym waits.away) waits.free))
    where
      by_found :
          (i : ℕ)
          → i ≤ d
          → Gets ((p.round_robin + i) % length p.entries) p
            × ((acquire on p).0.round_robin
                ≡ ((p.round_robin + i) % length p.entries + 1) % length p.entries)
            × (length (acquire on p).0.entries ≡ length p.entries)
          → Served k (suc n) p
      by_found i upto (got, cursor, len) = elim (ℕ_discrete i d) [
        | yes same ↦ inl (
            subst (λ j. Gets j p)
              (ap (λ t. (p.round_robin + t) % length p.entries) same ∙ waits.away) got)
        | no other ↦ inr (λ q between.
            again (d - i - 1) q (omega arith)
              (Waits-less k d i p q waits (omega arith) cursor len between))
      ]

      by_stop : Stops p.entries p.round_robin d (length p.entries) 0 → Served k (suc n) p
      by_stop (i, upto, found, there) = by_found i upto (acquire_found p _ waits.still found there)

  Served-within : (k n d : ℕ) (p : Pool C) → d < n → Waits k d p → Served k n p
  Served-within k zero d p few waits = absurd (omega arith)
  Served-within k (suc n) d p few waits =
      Served-step k n d p waits (λ d' q less waits'. Served-within k n d' q (omega arith) waits')

  -- However far the cursor is.
  some_distance : (cursor k len : ℕ) → k < len → (d : ℕ) × (d < len) × ((cursor + d) % len ≡ k)
  some_distance cursor k len h = elim (dec_lt k (cursor % len)) [
    | yes behind ↦ (
      k + len - cursor % len,
      omega (arith, below),
      (at_rest _ (
          ap (λ t. t % len) {y = k + len} (omega (arith, below))
          ∙ add-mod_right k len
          ∙ mod-eq_of_lt h)),
    )
    | no ahead ↦ (
      k - cursor % len,
      omega arith,
      (at_rest _ (ap (λ t. t % len) {y = k} (omega arith) ∙ mod-eq_of_lt h)),
    )
  ]
    where
      below : cursor % len < len
      below = mod-lt cursor {m = len} (omega arith)

      at_rest : (d : ℕ) → (cursor % len + d) % len ≡ k → (cursor + d) % len ≡ k
      at_rest d there = sym (mod-add-mod cursor len d) ∙ there

  available_at-lt : (es : List (PoolEntry C)) (k : ℕ) → available_at on es k ≡ true → k < length es
  available_at-lt [] k free = ground (arith, free)
  available_at-lt (e ∷ es) zero free = omega arith
  available_at-lt (e ∷ es) (suc k) free = omega (arith, available_at-lt es k free)

  -- In an open pool with an available entry, as many acquisitions as the pool has entries get to
  -- that entry, whatever happens between them that leaves the pool open, its size and its cursor as
  -- they are, and the entry available.
  pub acquire-Served :
      (p : Pool C) (k : ℕ)
      → p.closed ≡ false
      → available_at on p.entries k ≡ true
      → Served k (length p.entries) p
  acquire-Served p k still free =
      from (some_distance p.round_robin k (length p.entries) (available_at-lt p.entries k free))
    where
      from :
          (d : ℕ) × (d < length p.entries) × ((p.round_robin + d) % length p.entries ≡ k)
          → Served k (length p.entries) p
      from (d, inside, away) =
          Served-within k (length p.entries) d p inside
            (record { inside = inside; away = away; still = still; free = free })
