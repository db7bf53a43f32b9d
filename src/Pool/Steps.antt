-- ===== src/Pool/Steps.antt =====
-- The pool as a state machine: its well-formedness, the steps of its clients and of its connections, and
-- `Tick` as a sequence of them.
use fakelua.Base.{
  All, ℕ, zero, suc, ◌+◌, ◌≤◌, ◌<◌, ◌≡◌, refl, sym, subst, arith, Bool, true, false, not, List, [],
  ◌∷◌, map,
}
use fakelua.Base.{Option, none, some, get_elem?, if◌then◌else◌, length}
use fakelua.Pool.Tick.{Readings, tick, tick_conns, tick_entries, addresses}
use fakelua.Pool.{Connections, PoolConfig, PoolEntry, Pool, Owned, holds, owns, change_conn}
use fakelua.Pool.{
  initialize, initialize_loop, acquire, take_entry, hand_out, find_available, release, close,
  close_entry, reap,
}
use fakelua.Pool.{any_busy, mark_connected_for_test}
use fakelua.Pool.Entries.{if_either, Pointwise, Distinct, All-Pointwise, Distinct-Pointwise}
use fakelua.Pool.Entries.{Pointwise-map, Pointwise-set}
use fakelua.Pool.Turns.{
  Follows, Follows-refl, Follows-conn, change_conn-Follows, close_entry-Follows,
}
use fakelua.Pool.Turns.{tick_entries-Pointwise, release_loop-Pointwise}

-- An open pool has lost no connection, no entry is past the limit of retries, and no two entries have their
-- connections at the same address.
pub record IsValid {C : Type 0} (config : PoolConfig) (p : Pool C) : Type 0 where
  pub all_owned : p.closed ≡ false → All (λ e. owns e ≡ true) p.entries
  pub limited : All (λ e. e.retry_count ≤ config.max_retries) p.entries
  pub distinct : Distinct p.entries

-- Connections that live at the same time have different addresses.
abbrev pub IsApart : (ℕ → ℕ) → Type 0
IsApart alloc = (i j : ℕ) → alloc i ≡ alloc j → i ≡ j

module _ {C : Type 0} (on : Connections C) (config : PoolConfig) where
  -- The connection at an address changes its state.
  unfoldable pub change_at : ℕ → (C → C) → Pool C → Pool C
  change_at a change p = record p {
    entries = map (λ e. if holds a e then change_conn change e else e) p.entries;
  }

  pub data Step : Pool C → Pool C → Type 0 where
    initializes :
        {p : Pool C} (alloc : ℕ → ℕ) → IsApart alloc → Step p (initialize on alloc config p)
    acquires : {p : Pool C} → Step p (acquire on p).0
    releases : {p : Pool C} (a : Option ℕ) → Step p (release a p)
    closes : {p : Pool C} → Step p (close on p)
    reaps : {p : Pool C} → Step p (reap on p)
    marks : {p : Pool C} → Step p (mark_connected_for_test on p)
    changes : {p : Pool C} (a : ℕ) (change : C → C) → Step p (change_at a change p)
    looks :
        {p : Pool C} (clock : ℕ → Readings)
        → p.closed ≡ false
        → Step p (record p { entries = tick_entries on config clock 0 p.entries })

  pub data Reach : Pool C → Pool C → Type 0 where
    stays : {p : Pool C} → Reach p p
    goes : {p q r : Pool C} → Step p q → Reach q r → Reach p r

  -- A change entry by entry. Only a pool that is then closed may lose connections.
  turned :
      (keep : Bool) (p q : Pool C)
      → IsValid config p
      → Pointwise (Follows config.max_retries keep) p.entries q.entries
      → (q.closed ≡ false → (p.closed ≡ false) × (keep ≡ true))
      → IsValid config q
  turned keep p q valid turns still = record {
    all_owned = λ o.
        All-Pointwise (λ e. owns e ≡ true) (λ e e' f h. f.kept (still o).1 h) turns
          (valid.all_owned (still o).0);
    limited =
        All-Pointwise (λ e. e.retry_count ≤ config.max_retries) (λ e e' f h. f.limited h) turns
          valid.limited;
    distinct = Distinct-Pointwise (λ e e' f. f.same_conn) turns valid.distinct;
  }

  emptied : (p : Pool C) → p.entries ≡ [] → IsValid config p
  emptied p none_left = record {
    all_owned = λ o. subst (All (λ e. owns e ≡ true)) (sym none_left) tt;
    limited = subst (All (λ e. e.retry_count ≤ config.max_retries)) (sym none_left) tt;
    distinct = subst Distinct (sym none_left) tt;
  }

  apart_before :
      (alloc : ℕ → ℕ)
      → IsApart alloc
      → (left i j : ℕ) → i < j
      → All (λ e. holds (alloc i) e ≡ false) (initialize_loop on alloc left j)
  unfolding initialize_loop
  apart_before alloc apart zero i j h = tt
  apart_before alloc apart (suc left) i j h =
      (ground (arith, h, apart j i), apart_before alloc apart left i (j + 1) (omega arith))

  initialize_loop-Distinct :
      (alloc : ℕ → ℕ) → IsApart alloc → (left i : ℕ) → Distinct (initialize_loop on alloc left i)
  unfolding initialize_loop
  initialize_loop-Distinct alloc apart zero i = tt
  initialize_loop-Distinct alloc apart (suc left) i = (
    (λ a held.
        subst (λ b. All (λ e. holds b e ≡ false) (initialize_loop on alloc left (i + 1)))
          (ground (arith, held)) (apart_before alloc apart left i (i + 1) (omega arith))),
    initialize_loop-Distinct alloc apart left (i + 1),
  )

  initialize_loop-All :
      (P : PoolEntry C → Type 0) (alloc : ℕ → ℕ) (left i : ℕ)
      → ((e : PoolEntry C) → e.retry_count ≡ 0 → owns e ≡ true → P e)
      → All P (initialize_loop on alloc left i)
  unfolding initialize_loop
  initialize_loop-All P alloc zero i each = tt
  initialize_loop-All P alloc (suc left) i each =
      (each _ refl refl, initialize_loop-All P alloc left (i + 1) each)

  initialize-IsValid :
      (alloc : ℕ → ℕ) → IsApart alloc → (p : Pool C) → IsValid config (initialize on alloc config p)
  unfolding initialize
  initialize-IsValid alloc apart p = record {
    all_owned = λ _.
        initialize_loop-All (λ e. owns e ≡ true) alloc config.pool_size 0
          (λ e no_retry owned. owned);
    limited =
        initialize_loop-All (λ e. e.retry_count ≤ config.max_retries) alloc config.pool_size 0
          (λ e no_retry owned. omega arith);
    distinct = initialize_loop-Distinct alloc apart config.pool_size 0;
  }

  reap-IsValid : (p : Pool C) → IsValid config p → IsValid config (reap on p)
  unfolding reap
  reap-IsValid p valid =
      if_either (IsValid config) (not p.closed) valid
        (if_either (IsValid config) (any_busy on p.entries) valid (emptied _ refl))

  close-IsValid : (p : Pool C) → IsValid config p → IsValid config (close on p)
  unfolding close
  close-IsValid p valid = by_busy (any_busy on p.entries)
    where
      by_busy :
          (test : Bool)
          → IsValid config (record p {
            entries = if test then map (close_entry on) p.entries else [];
            closed = true;
          })
      by_busy true =
          turned false p _ valid
            (Pointwise-map (close_entry on) (close_entry-Follows on config.max_retries) p.entries)
            (λ o. ground arith)
      by_busy false = emptied _ refl

  -- An open pool stays open and its entries keep their connections.
  stepped :
      (p q : Pool C)
      → IsValid config p
      → q.closed ≡ p.closed
      → Pointwise (Follows config.max_retries true) p.entries q.entries
      → IsValid config q
  stepped p q valid same_closed turns =
      turned true p q valid turns (λ o. (ground (arith, same_closed, o), refl))

  take_entry-IsValid :
      (p : Pool C) (o : Option ℕ) → IsValid config p → IsValid config (take_entry p o).0
  unfolding take_entry hand_out
  take_entry-IsValid p none valid = valid
  take_entry-IsValid p (some idx) valid = handed (get_elem? p.entries idx) refl
    where
      handed :
          (found : Option (PoolEntry C))
          → get_elem? p.entries idx ≡ found
          → IsValid config (hand_out p idx found).0
      handed none there = valid
      handed (some e) there = stepped p _ valid refl (
          Pointwise-set (Follows-refl on config.max_retries true) p.entries idx e
            (record e { in_use = true }) there
            (Follows-conn on config.max_retries true e _ refl (λ h. h)))

  acquire-IsValid : (p : Pool C) → IsValid config p → IsValid config (acquire on p).0
  unfolding acquire
  acquire-IsValid p valid =
      if_either (λ (r : Pool C × Option (Owned C)). IsValid config r.0) p.closed valid
        (take_entry-IsValid p (find_available on p.entries p.round_robin (length p.entries) 0)
          valid)

  mark-Follows :
      (e : PoolEntry C)
      → Follows config.max_retries true e (
          if owns e
          then record (change_conn on.mark_connected e) { in_use = false; healthy = true }
          else e)
  mark-Follows e = record {
    same_conn = λ a h. ground arith;
    kept = λ k h. ground arith;
    limited = λ h. ground arith;
  }

  -- Every operation of the pool, Initialize with any different addresses for its connections, every
  -- turn of a tick and every change of a connection keep the pool well formed: an open pool has lost
  -- no connection, no entry has more retries than the limit, and no two entries have their
  -- connections at the same address.
  pub Step-IsValid : {p q : Pool C} → Step p q → IsValid config p → IsValid config q
  unfolding release mark_connected_for_test change_at
  Step-IsValid {p = p} (initializes alloc apart) valid = initialize-IsValid alloc apart p
  Step-IsValid {p = p} acquires valid = acquire-IsValid p valid
  Step-IsValid (releases none) valid = valid
  Step-IsValid {p = p} (releases (some a)) valid =
      stepped p _ valid refl (release_loop-Pointwise on config.max_retries a p.entries)
  Step-IsValid {p = p} closes valid = close-IsValid p valid
  Step-IsValid {p = p} reaps valid = reap-IsValid p valid
  Step-IsValid {p = p} marks valid = stepped p _ valid refl (Pointwise-map _ mark-Follows p.entries)
  Step-IsValid {p = p} (changes a change) valid = stepped p _ valid refl (
      Pointwise-map _
        (λ e.
          if_either (Follows config.max_retries true e) (holds a e)
            (change_conn-Follows on config.max_retries true change e)
            (Follows-refl on config.max_retries true e))
        p.entries)
  Step-IsValid {p = p} (looks clock still) valid =
      stepped p _ valid refl
        (tick_entries-Pointwise on config.max_retries config clock 0 p.entries refl)

  pub Reach-IsValid : {p q : Pool C} → Reach p q → IsValid config p → IsValid config q
  Reach-IsValid stays valid = valid
  Reach-IsValid (goes step more) valid = Reach-IsValid more (Step-IsValid step valid)

  Reach-trans : {p q r : Pool C} → Reach p q → Reach q r → Reach p r
  Reach-trans stays more = more
  Reach-trans (goes step some_more) more = goes step (Reach-trans some_more more)

  -- When what a connection's tick does to the pool, callbacks included, is steps, so is a whole tick.
  module _ (conn_tick : ℕ → Pool C → Pool C)
      (callbacks : (a : ℕ) (p : Pool C) → Reach p (conn_tick a p)) where
    tick_conns-Reach : (to_tick : List ℕ) (p : Pool C) → Reach p (tick_conns conn_tick to_tick p)
    unfolding tick_conns
    tick_conns-Reach [] p = stays
    tick_conns-Reach (a ∷ to_tick) p =
        if_either (Reach p) p.closed stays
          (Reach-trans (callbacks a p) (tick_conns-Reach to_tick (conn_tick a p)))

    pub tick-Reach :
        (clock : ℕ → Readings) (p : Pool C) → Reach p (tick on conn_tick config clock p)
    unfolding tick
    tick-Reach clock p = if_either (Reach p) p.closed (goes reaps stays) (
        Reach-trans (tick_conns-Reach (addresses p.entries) p)
          (looked_at (tick_conns conn_tick (addresses p.entries) p) _ refl))
      where
        looked_at :
            (q : Pool C) (closed : Bool)
            → q.closed ≡ closed
            → Reach q (
                if closed
                then reap on q
                else record q { entries = tick_entries on config clock 0 q.entries })
        looked_at q true shut = goes reaps stays
        looked_at q false still = goes (looks clock still) stays
