-- ===== src/Pool/Exclusive.antt =====
-- A connection is with one client at a time.
use fakelua.Base.{
  All, ℕ, zero, suc, ◌+◌, ◌≡◌, ◌≢◌, refl, sym, subst, arith, true, false, not, List, [], ◌∷◌, map,
}
use fakelua.Base.{Option, none, some, set, get_elem?, Bool-cases, inl, inr, length}
use fakelua.Pool.Tick.{
  Readings, tick_entries, tick_entry, keep_alive, bring_back, try_reconnect, send_heartbeat,
}
use fakelua.Pool.{Connections, PoolConfig, PoolEntry, Pool, Owned, holds, release_loop}
use fakelua.Pool.{
  initialize, initialize_loop, acquire, take_entry, hand_out, find_available, available,
}
use fakelua.Pool.{release, close, close_entry, reap, any_busy}
use fakelua.Pool.Acquire.{Acquired, acquire-Acquired}
use fakelua.Pool.Entries.{if_either, Distinct}
use fakelua.Pool.Steps.{
  IsValid, Step, Reach, stays, goes, initializes, acquires, releases, closes, reaps, marks,
}
use fakelua.Pool.Steps.{changes, looks, change_at}

-- Whoever holds the address is in use.
abbrev pub InUse : {C : Type 0} → ℕ → PoolEntry C → Type 0
InUse a e = holds a e ≡ true → e.in_use ≡ true

-- The connection at the address, if the pool has it, is with a client.
abbrev pub Taken : {C : Type 0} → ℕ → Pool C → Type 0
Taken a p = All (InUse a) p.entries

module _ {C : Type 0} (on : Connections C) (config : PoolConfig) where
  -- The step does not give the connection at the address back, and an Initialize, which frees the
  -- connections of the pool, allocates none at the address.
  abbrev pub Holding : ℕ → {p q : Pool C} → Step on config p q → Type 0
  Holding a (releases (some b)) = b ≢ a
  Holding a marks = ⊥
  Holding a (initializes alloc apart) = (i : ℕ) → alloc i ≢ a
  Holding a _ = Unit {0}

  abbrev pub HoldingAll : ℕ → {p q : Pool C} → Reach on config p q → Type 0
  HoldingAll a stays = Unit {0}
  HoldingAll a (goes step more) = Holding a step × HoldingAll a more

  tick_entry-InUse :
      (a : ℕ) (now : Readings) (e : PoolEntry C) → InUse a e → InUse a (tick_entry on config now e)
  unfolding tick_entry keep_alive bring_back try_reconnect send_heartbeat
  tick_entry-InUse a now e h held = ground arith

  All-map :
      (P : PoolEntry C → Type 0) (f : PoolEntry C → PoolEntry C)
      → ((e : PoolEntry C) → P e → P (f e))
      → (es : List (PoolEntry C)) → All P es
      → All P (map f es)
  All-map P f step [] all = tt
  All-map P f step (e ∷ es) (p, ps) = (step e p, All-map P f step es ps)

  All-set :
      (P : PoolEntry C → Type 0) (es : List (PoolEntry C)) (i : ℕ) (e : PoolEntry C)
      → P e
      → All P es
      → All P (set es i e)
  All-set P [] i e new all = tt
  All-set P (x ∷ es) zero e new (p, ps) = (new, ps)
  All-set P (x ∷ es) (suc i) e new (p, ps) = (p, All-set P es i e new ps)

  tick_entries-InUse :
      (a i : ℕ) (clock : ℕ → Readings) (es : List (PoolEntry C))
      → All (InUse a) es
      → All (InUse a) (tick_entries on config clock i es)
  unfolding tick_entries
  tick_entries-InUse a i clock [] all = tt
  tick_entries-InUse a i clock (e ∷ es) (h, hs) =
      (tick_entry-InUse a (clock i) e h, tick_entries-InUse a (i + 1) clock es hs)

  release_loop-InUse :
      (a b : ℕ) (es : List (PoolEntry C))
      → b ≢ a
      → All (InUse a) es
      → All (InUse a) (release_loop b es)
  unfolding release_loop
  release_loop-InUse a b [] other all = tt
  release_loop-InUse a b (e ∷ es) other (h, hs) = elim (Bool-cases (holds b e)) [
    | inl held ↦ rw held ((λ holds_a. absurd (other (same_holder e held holds_a))), hs)
    | inr not_held ↦ rw not_held (h, release_loop-InUse a b es other hs)
  ]
    where
      same_holder : (e : PoolEntry C) → holds b e ≡ true → holds a e ≡ true → b ≡ a
      same_holder e held holds_a = ground arith

  initialize_loop-InUse :
      (a : ℕ) (alloc : ℕ → ℕ)
      → ((i : ℕ) → alloc i ≢ a)
      → (left i : ℕ) → All (InUse a) (initialize_loop on alloc left i)
  unfolding initialize_loop
  initialize_loop-InUse a alloc elsewhere zero i = tt
  initialize_loop-InUse a alloc elsewhere (suc left) i = (
    (λ held. absurd (elsewhere i (ground (arith, held)))),
    initialize_loop-InUse a alloc elsewhere left (i + 1),
  )

  hand_out-Taken :
      (a idx : ℕ) (p : Pool C) (found : Option (PoolEntry C))
      → Taken a p
      → Taken a (hand_out p idx found).0
  unfolding hand_out
  hand_out-Taken a idx p none taken = taken
  hand_out-Taken a idx p (some e) taken = All-set (InUse a) p.entries idx _ (λ _. refl) taken

  acquire-Taken : (a : ℕ) (p : Pool C) → Taken a p → Taken a (acquire on p).0
  unfolding acquire take_entry
  acquire-Taken a p taken =
      if_either (λ (r : Pool C × Option (Owned C)). Taken a r.0) p.closed taken
        (entry_taken (find_available on p.entries p.round_robin (length p.entries) 0))
    where
      entry_taken : (o : Option ℕ) → Taken a (take_entry p o).0
      entry_taken none = taken
      entry_taken (some idx) = hand_out-Taken a idx p (get_elem? p.entries idx) taken

  reap-Taken : (a : ℕ) (p : Pool C) → Taken a p → Taken a (reap on p)
  unfolding reap
  reap-Taken a p taken =
      if_either (Taken a) (not p.closed) taken
        (if_either (Taken a) (any_busy on p.entries) taken tt)

  Step-Taken :
      (a : ℕ) {p q : Pool C} (step : Step on config p q) → Holding a step → Taken a p → Taken a q
  unfolding initialize release close change_at take_entry
  Step-Taken a (initializes alloc apart) elsewhere taken =
      initialize_loop-InUse a alloc elsewhere config.pool_size 0
  Step-Taken a {p = p} acquires hold taken = acquire-Taken a p taken
  Step-Taken a (releases none) hold taken = taken
  Step-Taken a {p = p} (releases (some b)) hold taken = release_loop-InUse a b p.entries hold taken
  Step-Taken a {p = p} closes hold taken =
      if_either (All (InUse a)) (any_busy on p.entries)
        (All-map (InUse a) (close_entry on) (λ e h held. ground arith) p.entries taken) tt
  Step-Taken a {p = p} reaps hold taken = reap-Taken a p taken
  Step-Taken a {p = p} (changes b change) hold taken =
      All-map (InUse a) _ (λ e h held. ground arith) p.entries taken
  Step-Taken a {p = p} (looks clock still) hold taken = tick_entries-InUse a 0 clock p.entries taken
  Step-Taken a marks hold taken = absurd hold

  Reach-Taken :
      (a : ℕ) {p q : Pool C} (steps : Reach on config p q)
      → HoldingAll a steps
      → Taken a p
      → Taken a q
  Reach-Taken a stays hold taken = taken
  Reach-Taken a (goes step more) (hold, holds_on) taken =
      Reach-Taken a more holds_on (Step-Taken a step hold taken)

  All-get_elem? :
      (P : PoolEntry C → Type 0) (es : List (PoolEntry C)) (i : ℕ) (e : PoolEntry C)
      → get_elem? es i ≡ some e
      → All P es
      → P e
  All-get_elem? P [] i e there all = absurd (ground (arith, there))
  All-get_elem? P (x ∷ es) zero e there (p, ps) = subst P (ground (arith, there)) p
  All-get_elem? P (x ∷ es) (suc i) e there (p, ps) = All-get_elem? P es i e there ps

  -- Marking the one entry that holds a connection marks all.
  set-InUse :
      (a : ℕ) (es : List (PoolEntry C)) (i : ℕ) (e : PoolEntry C)
      → get_elem? es i ≡ some e
      → holds a e ≡ true
      → Distinct es
      → All (InUse a) (set es i (record e { in_use = true }))
  set-InUse a [] i e there held distinct = tt
  set-InUse a (x ∷ es) zero e there held (apart, _) = (
    (λ _. refl),
    All-weaken es
        (apart a (subst (λ y. holds a y ≡ true) {x = e} {y = x} (ground (arith, there)) held)),
  )
    where
      All-weaken : (es : List (PoolEntry C)) → All (λ e'. holds a e' ≡ false) es → All (InUse a) es
      All-weaken [] all = tt
      All-weaken (y ∷ es) (h, hs) = ((λ held'. ground (arith, h, held')), All-weaken es hs)
  set-InUse a (x ∷ es) (suc i) e there held (apart, distinct) = (
    (λ held'.
        ground
          (arith, held, All-get_elem? (λ e'. holds a e' ≡ false) es i e there (apart a held'))),
    set-InUse a es i e there held distinct,
  )

  Acquired-Taken :
      (p : Pool C) (c : Owned C)
      → IsValid config p
      → Acquired on p c
      → Taken c.address (acquire on p).0
  unfolding hand_out
  Acquired-Taken p c valid got =
      subst (Taken c.address) (sym got.after)
        (set-InUse c.address p.entries got.idx got.entry got.there held valid.distinct)
    where
      held : holds c.address got.entry ≡ true
      held = ground (arith, got.conn)

  in_use-not_free : (e : PoolEntry C) → available on e ≡ true → e.in_use ≡ true → ⊥
  unfolding available
  in_use-not_free e free used = ground (arith, free, used)

  -- From the acquisition of a connection on, whatever clients and connections do, and until the connection
  -- is released or marked free, no acquisition gets its address, unless an Initialize, which frees the
  -- connections, allocates a new one there.
  pub acquire_exclusive :
      (p q : Pool C) (c c' : Owned C)
      → IsValid config p
      → (acquire on p).1 ≡ some c
      → (steps : Reach on config (acquire on p).0 q) → HoldingAll c.address steps
      → (acquire on q).1 ≡ some c'
      → c'.address ≢ c.address
  acquire_exclusive p q c c' valid got steps hold got' same =
      not_free (acquire-Acquired on q c' got')
        (Reach-Taken c.address steps hold (Acquired-Taken p c valid (acquire-Acquired on p c got)))
    where
      held : (e : PoolEntry C) → e.conn ≡ some c' → holds c.address e ≡ true
      held e has = ground (arith, has, same)

      not_free : Acquired on q c' → Taken c.address q → ⊥
      not_free found all = in_use-not_free found.entry found.free (
          All-get_elem? (InUse c.address) q.entries found.idx found.entry found.there all
            (held found.entry found.conn))
