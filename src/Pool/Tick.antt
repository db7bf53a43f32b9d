-- ===== src/Pool/Tick.antt =====
-- `Tick` and what it does to an entry: SendHeartbeat, TryReconnect, and the turns of connections that are up
-- and of those that are down.
use fakelua.Base.{ℕ, ◌+◌, ◌-◌, ◌*◌, ◌^◌, min, Bool, false, not, ◌&&◌, ◌||◌, List, [], ◌∷◌}
use fakelua.Base.{ltb, leb, if◌then◌else◌, none, some}
use fakelua.Pool.{Connections, PoolConfig, PoolEntry, Pool, owns, test_conn, change_conn, reap}

-- What `NowMs` reads in an entry's turn of a tick, in the order of the calls.
pub record Readings : Type 0 where
  pub recovered : ℕ
  pub looked : ℕ
  pub done : ℕ

module _ {C : Type 0} where
  abbrev pub addresses : List (PoolEntry C) → List ℕ
  addresses [] = []
  addresses (e ∷ es) = elim e.conn [ none ↦ addresses es | some c ↦ c.address ∷ addresses es ]

  -- `conn_tick` is `conn->Tick()`, with what its callbacks do to the pool.
  module _ (conn_tick : ℕ → Pool C → Pool C) where
    unfoldable pub tick_conns : List ℕ → Pool C → Pool C
    tick_conns [] p = p
    tick_conns (a ∷ to_tick) p = if p.closed then p else tick_conns to_tick (conn_tick a p)

module _ {C : Type 0} (on : Connections C) where
  unfoldable pub send_heartbeat : ℕ → PoolEntry C → PoolEntry C
  send_heartbeat done e = elim e.conn [
    | none ↦ e
    | some c ↦
        if not e.healthy
        then e
        else (let pinged = record e { conn = some (record c { value = (on.ping c.value).0 }) } in
            if (on.ping c.value).1 then record pinged { last_heartbeat = done } else pinged)
  ]

  abbrev pub backoff_ms : PoolConfig → ℕ → ℕ
  backoff_ms config retry_count = config.retry_base_ms * 2 ^ min (retry_count - 1) 20

  unfoldable pub try_reconnect : PoolConfig → Readings → PoolEntry C → PoolEntry C
  try_reconnect config now e =
      if not (owns e) || e.in_use
      then e
      else if ltb 0 e.retry_count
          && ltb (now.looked - e.last_heartbeat) (backoff_ms config e.retry_count)
      then e
      else if leb config.max_retries e.retry_count
      then record e { healthy = false }
      else record (change_conn (λ c. on.connect (on.shut c)) e) {
        retry_count = e.retry_count + 1;
        last_heartbeat = now.done;
      }

  -- The turn of an entry whose connection is up.
  unfoldable pub keep_alive : PoolConfig → Readings → Bool → PoolEntry C → PoolEntry C
  keep_alive config now was_healthy e =
      let e = if was_healthy then e else record e { last_heartbeat = now.recovered } in
      let e = record e { retry_count = 0 } in
      if not e.in_use
        && (ltb 0 config.heartbeat_interval_ms
            && leb config.heartbeat_interval_ms (now.looked - e.last_heartbeat))
      then send_heartbeat now.done e
      else e

  -- And of one whose connection is down.
  unfoldable pub bring_back : PoolConfig → Readings → Bool → PoolEntry C → PoolEntry C
  bring_back config now was_healthy e =
      if e.in_use || test_conn on.connecting e
      then e
      else try_reconnect config now (if was_healthy then record e { retry_count = 0 } else e)

  unfoldable pub tick_entry : PoolConfig → Readings → PoolEntry C → PoolEntry C
  tick_entry config now e =
      if owns e
      then (let up = test_conn on.connected e in
          let e' = record e { healthy = up } in
          if up then keep_alive config now e.healthy e' else bring_back config now e.healthy e')
      else e

  unfoldable pub tick_entries :
      PoolConfig → (ℕ → Readings) → ℕ → List (PoolEntry C) → List (PoolEntry C)
  tick_entries config clock i [] = []
  tick_entries config clock i (e ∷ es) =
      tick_entry config (clock i) e ∷ tick_entries config clock (i + 1) es

  module _ (conn_tick : ℕ → Pool C → Pool C) where
    unfoldable pub tick : PoolConfig → (ℕ → Readings) → Pool C → Pool C
    tick config clock p =
        if p.closed
        then reap on p
        else (let q = tick_conns conn_tick (addresses p.entries) p in
            if q.closed
            then reap on q
            else record q { entries = tick_entries config clock 0 q.entries })
