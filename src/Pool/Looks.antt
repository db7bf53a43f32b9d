-- ===== src/Pool/Looks.antt =====
-- What a whole `Tick` leaves behind, in a pool that is closed and in one that is open.
use fakelua.Base.{ℕ, ◌+◌, ◌≡◌, refl, arith, Bool, true, false, not, List, [], ◌∷◌}
use fakelua.Base.{if◌then◌else◌}
use fakelua.Pool.{Connections, PoolConfig, PoolEntry, Pool, owns, test_conn, reap, any_busy}
use fakelua.Pool.Tick.{
  Readings, tick, tick_conns, tick_entries, tick_entry, addresses, keep_alive, bring_back,
  try_reconnect, send_heartbeat,
}
use fakelua.Pool.Entries.{Pointwise, done, turn}

module _ {C : Type 0} (on : Connections C) (config : PoolConfig) where
  -- No entry is left when the pool is closed and no connection is being ticked.
  abbrev Emptied : Pool C → Type 0
  Emptied p = p.closed ≡ true → any_busy on p.entries ≡ false → p.entries ≡ []

  reap-Emptied : (p : Pool C) → Emptied (reap on p)
  unfolding reap
  reap-Emptied p = by_tests p.closed (any_busy on p.entries) refl refl
    where
      by_tests :
          (closed busy : Bool)
          → p.closed ≡ closed
          → any_busy on p.entries ≡ busy
          → Emptied (if not closed then p else (if busy then p else record p { entries = [] }))
      by_tests false busy still _ shut idle = absurd (ground (arith, still, shut))
      by_tests true true _ busy shut idle = absurd (ground (arith, busy, idle))
      by_tests true false _ _ shut idle = refl

  reap_closed : (p : Pool C) → (reap on p).closed ≡ p.closed
  unfolding reap
  reap_closed p = ground arith

  -- An entry before and after its turn: it is healthy when its connection was up, a healthy one has no
  -- retries left over, and the connection of a client is left alone.
  pub record Looked (e e' : PoolEntry C) : Type 0 where
    pub health : owns e ≡ true → e'.healthy ≡ test_conn on.connected e
    pub settled : owns e ≡ true → e'.healthy ≡ true → e'.retry_count ≡ 0
    pub same_use : e'.in_use ≡ e.in_use
    pub untouched : e.in_use ≡ true → e'.conn ≡ e.conn

  tick_entry-Looked : (now : Readings) (e : PoolEntry C) → Looked e (tick_entry on config now e)
  unfolding tick_entry keep_alive bring_back try_reconnect send_heartbeat
  tick_entry-Looked now e = record {
    health = λ owned. ground arith;
    settled = λ owned well. ground arith;
    same_use = ground arith;
    untouched = λ used. ground arith;
  }

  tick_entries-Looked :
      (clock : ℕ → Readings) (i : ℕ) (es : List (PoolEntry C))
      → Pointwise Looked es (tick_entries on config clock i es)
  unfolding tick_entries
  tick_entries-Looked clock i [] = done
  tick_entries-Looked clock i (e ∷ es) =
      turn (tick_entry-Looked (clock i) e) (tick_entries-Looked clock (i + 1) es)

  module _ (conn_tick : ℕ → Pool C → Pool C) (clock : ℕ → Readings) (p : Pool C) where
    -- The pool when its connections have been ticked, and the three ways in which a Tick ends.
    abbrev after : Pool C
    after = tick_conns conn_tick (addresses p.entries) p

    tick-cases :
        (P : Pool C → Type 0)
        → (p.closed ≡ true → P (reap on p))
        → (after.closed ≡ true → P (reap on after))
        → (after.closed ≡ false
            → P (record after { entries = tick_entries on config clock 0 after.entries }))
        → P (tick on conn_tick config clock p)
    unfolding tick
    tick-cases P shut_before shut_after looked = by_tests p.closed after.closed refl refl
      where
        by_tests :
            (closed closed' : Bool)
            → p.closed ≡ closed
            → after.closed ≡ closed'
            → P (
                if closed
                then reap on p
                else (if closed'
                    then reap on after
                    else record after { entries = tick_entries on config clock 0 after.entries }))
        by_tests true closed' shut _ = shut_before shut
        by_tests false true _ shut = shut_after shut
        by_tests false false _ still = looked still

    -- A Tick that leaves the pool closed, be it that a callback closes it, and none of whose connections is
    -- being ticked then, leaves no entry.
    pub tick-reap :
        (tick on conn_tick config clock p).closed ≡ true
        → any_busy on (tick on conn_tick config clock p).entries ≡ false
        → (tick on conn_tick config clock p).entries ≡ []
    tick-reap =
        tick-cases Emptied (λ _. reap-Emptied p) (λ _. reap-Emptied after)
          (λ still shut idle. absurd (ground (arith, still, shut)))

    -- When a Tick leaves the pool open, each entry that owns a connection is then healthy exactly if the
    -- connection was up after the connections were ticked, and a healthy one has no retries counted. An
    -- entry in use stays so, and its connection is left alone.
    pub tick-Looked :
        (tick on conn_tick config clock p).closed ≡ false
        → Pointwise Looked
            (tick_conns conn_tick (addresses p.entries) p).entries
            (tick on conn_tick config clock p).entries
    tick-Looked =
        tick-cases (λ r. r.closed ≡ false → Pointwise Looked after.entries r.entries)
          (λ shut still. absurd (ground (arith, shut, still, reap_closed p)))
          (λ shut still. absurd (ground (arith, shut, still, reap_closed after)))
          (λ _ _. tick_entries-Looked clock 0 after.entries)
