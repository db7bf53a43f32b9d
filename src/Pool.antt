-- ===== src/Pool.antt =====
-- The connection pool: src/native/mysql/mysql_connection_pool.h and mysql_connection_pool.cpp. The lock is
-- held through each operation, but not while connections are ticked, where callbacks may use the pool.
mod Entries
pub mod Tick
mod Turns
mod Acquire
pub mod Steps
pub mod Exclusive
pub mod Looks
pub mod Served
mod Tests
use fakelua.Base.{
  ℕ, zero, suc, ◌+◌, ◌-◌, ◌*◌, ◌%◌, ◌^◌, min, Bool, true, false, not, ◌&&◌, ◌||◌, List, [], ◌∷◌,
  map,
}
use fakelua.Base.{ltb, leb, ◌==◌, if◌then◌else◌, length, get_elem?, set, Option, none, some}

-- What the pool uses of MysqlConnection. `ping` says if the heartbeat was sent.
pub record Connections (C : Type 0) : Type 0 where
  pub new : C
  pub connected : C → Bool
  pub connecting : C → Bool
  pub tick_depth : C → ℕ
  pub connect : C → C
  pub shut : C → C
  pub request_close : C → C
  pub ping : C → C × Bool
  pub mark_connected : C → C

-- The numbers of PoolConfig; the others are what `connect` closes over.
pub record PoolConfig : Type 0 where
  pub pool_size : ℕ
  pub heartbeat_interval_ms : ℕ
  pub max_retries : ℕ
  pub retry_base_ms : ℕ

-- A connection that an entry owns, with its address.
pub record Owned (C : Type 0) : Type 0 where
  pub address : ℕ
  pub value : C

pub record PoolEntry (C : Type 0) : Type 0 where
  pub conn : Option (Owned C)
  pub in_use : Bool
  pub healthy : Bool
  pub last_heartbeat : ℕ
  pub retry_count : ℕ

pub record Pool (C : Type 0) : Type 0 where
  pub entries : List (PoolEntry C)
  pub closed : Bool
  pub round_robin : ℕ

module _ {C : Type 0} where
  abbrev pub owns : PoolEntry C → Bool
  owns e = elim e.conn [ none ↦ false | some c ↦ true ]

  -- `entry.conn.get() == conn`
  abbrev pub holds : ℕ → PoolEntry C → Bool
  holds a e = elim e.conn [ none ↦ false | some c ↦ c.address == a ]

  unfoldable pub hand_out : Pool C → ℕ → Option (PoolEntry C) → Pool C × Option (Owned C)
  hand_out p idx none = (p, none)
  hand_out p idx (some e) = (
    record p {
      entries = set p.entries idx (record e { in_use = true });
      round_robin = (idx + 1) % length p.entries;
    },
    e.conn,
  )

  unfoldable pub take_entry : Pool C → Option ℕ → Pool C × Option (Owned C)
  take_entry p none = (p, none)
  take_entry p (some idx) = hand_out p idx (get_elem? p.entries idx)

  unfoldable pub release_loop : ℕ → List (PoolEntry C) → List (PoolEntry C)
  release_loop a [] = []
  release_loop a (e ∷ es) =
      if holds a e then record e { in_use = false } ∷ es else e ∷ release_loop a es

  unfoldable pub release : Option ℕ → Pool C → Pool C
  release none p = p
  release (some a) p = record p { entries = release_loop a p.entries }

  abbrev pub total_count : Pool C → ℕ
  total_count p = length p.entries

  abbrev pub test_conn : (C → Bool) → PoolEntry C → Bool
  test_conn test e = elim e.conn [ none ↦ false | some c ↦ test c.value ]

  abbrev pub change_conn : (C → C) → PoolEntry C → PoolEntry C
  change_conn change e = elim e.conn [
    | none ↦ e
    | some c ↦ record e { conn = some (record c { value = change c.value }) }
  ]

module _ {C : Type 0} (on : Connections C) where
  -- `alloc i` is the address that `make_unique` returns for the connection of the entry `i`. It may be
  -- that of a connection that was freed.
  unfoldable pub initialize_loop : (ℕ → ℕ) → ℕ → ℕ → List (PoolEntry C)
  initialize_loop alloc zero i = []
  initialize_loop alloc (suc left) i =
      record {
        conn = some (record { address = alloc i; value = on.connect on.new });
        in_use = false;
        healthy = false;
        last_heartbeat = 0;
        retry_count = 0;
      }
      ∷ initialize_loop alloc left (i + 1)

  unfoldable pub initialize : (ℕ → ℕ) → PoolConfig → Pool C → Pool C
  initialize alloc config p = record p {
    entries = initialize_loop alloc config.pool_size 0;
    closed = false;
  }

  unfoldable pub available : PoolEntry C → Bool
  available e = not e.in_use && (e.healthy && test_conn on.connected e)

  abbrev pub available_at : List (PoolEntry C) → ℕ → Bool
  available_at entries idx = elim (get_elem? entries idx) [ none ↦ false | some e ↦ available e ]

  -- The index of the first that is available, of `left` from `start + i` on.
  unfoldable pub find_available : List (PoolEntry C) → ℕ → ℕ → ℕ → Option ℕ
  find_available entries start zero i = none
  find_available entries start (suc left) i =
      let idx = (start + i) % length entries in
      elim (available_at entries idx) [
        | true ↦ some idx
        | false ↦ find_available entries start left (i + 1)
      ]

  unfoldable pub acquire : Pool C → Pool C × Option (Owned C)
  acquire p =
      if p.closed
      then (p, none)
      else take_entry p (find_available p.entries p.round_robin (length p.entries) 0)

  abbrev pub busy : PoolEntry C → Bool
  busy e = test_conn (λ c. ltb 0 (on.tick_depth c)) e

  abbrev pub any_busy : List (PoolEntry C) → Bool
  any_busy [] = false
  any_busy (e ∷ es) = if busy e then true else any_busy es

  abbrev pub close_entry : PoolEntry C → PoolEntry C
  close_entry e = if busy e then change_conn on.request_close e else record e { conn = none }

  unfoldable pub close : Pool C → Pool C
  close p = record p {
    entries = if any_busy p.entries then map close_entry p.entries else [];
    closed = true;
  }

  unfoldable pub reap : Pool C → Pool C
  reap p = if not p.closed then p else (if any_busy p.entries then p else record p { entries = [] })

  count_healthy : List (PoolEntry C) → ℕ
  count_healthy [] = 0
  count_healthy (e ∷ es) =
      if e.healthy && test_conn on.connected e then count_healthy es + 1 else count_healthy es

  unfoldable pub healthy_count : Pool C → ℕ
  unfolding count_healthy
  healthy_count p = count_healthy p.entries

  unfoldable pub mark_connected_for_test : Pool C → Pool C
  mark_connected_for_test p = record p {
    entries =
        map
          (λ e.
            if owns e
            then record (change_conn on.mark_connected e) { in_use = false; healthy = true }
            else e)
          p.entries;
  }
