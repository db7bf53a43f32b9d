-- ===== src/Pool/Turns.antt =====
-- What each operation does to one entry: its connection stays the same or goes, and the count of retries
-- does not pass the limit.
use fakelua.Base.{ℕ, ◌+◌, ◌≤◌, ◌≡◌, refl, arith, Bool, true, false, List, [], ◌∷◌}
use fakelua.Base.{if◌then◌else◌, Bool-cases, inl, inr}
use fakelua.Pool.Tick.{
  Readings, tick_entry, keep_alive, bring_back, try_reconnect, send_heartbeat, tick_entries,
}
use fakelua.Pool.{Connections, PoolConfig, PoolEntry, holds, owns, release_loop, change_conn}
use fakelua.Pool.{close_entry}
use fakelua.Pool.{test_conn}
use fakelua.Pool.Entries.{Pointwise, done, turn, Pointwise-refl}

module _ {C : Type 0} where
  -- A change of an entry. `keep`: it does not lose its connection.
  pub record Follows (limit : ℕ) (keep : Bool) (e e' : PoolEntry C) : Type 0 where
    pub same_conn : (a : ℕ) → holds a e' ≡ true → holds a e ≡ true
    pub kept : keep ≡ true → owns e ≡ true → owns e' ≡ true
    pub limited : e.retry_count ≤ limit → e'.retry_count ≤ limit

module _ {C : Type 0} (on : Connections C) (limit : ℕ) where
  pub Follows-refl : (keep : Bool) (e : PoolEntry C) → Follows limit keep e e
  Follows-refl keep e = record { same_conn = λ a h. h; kept = λ k h. h; limited = λ h. h }

  Follows-trans :
      {keep : Bool} {e e' e'' : PoolEntry C}
      → Follows limit keep e e'
      → Follows limit keep e' e''
      → Follows limit keep e e''
  Follows-trans f g = record {
    same_conn = λ a h. f.same_conn a (g.same_conn a h);
    kept = λ k h. g.kept k (f.kept k h);
    limited = λ h. g.limited (f.limited h);
  }

  -- A change of the other fields.
  pub Follows-conn :
      (keep : Bool) (e e' : PoolEntry C)
      → e.conn ≡ e'.conn
      → (e.retry_count ≤ limit → e'.retry_count ≤ limit)
      → Follows limit keep e e'
  Follows-conn keep e e' same step = record {
    same_conn = λ a h. ground (arith, same, h);
    kept = λ k h. ground (arith, same, h);
    limited = step;
  }

  pub change_conn-Follows :
      (keep : Bool) (change : C → C) (e : PoolEntry C) → Follows limit keep e (change_conn change e)
  change_conn-Follows keep change e = record {
    same_conn = λ a h. ground arith;
    kept = λ k h. ground arith;
    limited = λ h. ground arith;
  }

  send_heartbeat-Follows : (t : ℕ) (e : PoolEntry C) → Follows limit true e (send_heartbeat on t e)
  unfolding send_heartbeat
  send_heartbeat-Follows t e = record {
    same_conn = λ a h. ground arith;
    kept = λ k h. ground arith;
    limited = λ h. ground arith;
  }

  pub close_entry-Follows : (e : PoolEntry C) → Follows limit false e (close_entry on e)
  close_entry-Follows e = record {
    same_conn = λ a h. ground arith;
    kept = λ k h. ground arith;
    limited = λ h. ground arith;
  }

  try_reconnect-Follows :
      (config : PoolConfig) (now : Readings) (e : PoolEntry C)
      → config.max_retries ≡ limit
      → Follows limit true e (try_reconnect on config now e)
  unfolding try_reconnect
  try_reconnect-Follows config now e same = record {
    same_conn = λ a h. ground arith;
    kept = λ k h. ground arith;
    limited = λ h. ground arith;
  }

  if-Follows :
      (test : Bool) {e x y : PoolEntry C}
      → Follows limit true e x
      → Follows limit true e y
      → Follows limit true e (if test then x else y)
  if-Follows true f g = f
  if-Follows false f g = g

  -- A heartbeat may be due after a change.
  beat_if :
      (test : Bool) (t : ℕ) {e e' : PoolEntry C}
      → Follows limit true e e'
      → Follows limit true e (if test then send_heartbeat on t e' else e')
  beat_if test t {e' = e'} f = if-Follows test (Follows-trans f (send_heartbeat-Follows t e')) f

  keep_alive-Follows :
      (config : PoolConfig) (now : Readings) (was_healthy : Bool) (e : PoolEntry C)
      → Follows limit true e (keep_alive on config now was_healthy e)
  unfolding keep_alive
  keep_alive-Follows config now true e =
      beat_if _ now.done
        (Follows-conn true e (record e { retry_count = 0 }) refl (λ h. omega arith))
  keep_alive-Follows config now false e = beat_if _ now.done (
      Follows-conn true e (record e { retry_count = 0; last_heartbeat = now.recovered }) refl
        (λ h. omega arith))

  bring_back-Follows :
      (config : PoolConfig) (now : Readings) (was_healthy : Bool) (e : PoolEntry C)
      → config.max_retries ≡ limit
      → Follows limit true e (bring_back on config now was_healthy e)
  unfolding bring_back
  bring_back-Follows config now true e same = if-Follows _ (Follows-refl true e) (
      Follows-trans (Follows-conn true e (record e { retry_count = 0 }) refl (λ h. omega arith))
        (try_reconnect-Follows config now (record e { retry_count = 0 }) same))
  bring_back-Follows config now false e same =
      if-Follows _ (Follows-refl true e) (try_reconnect-Follows config now e same)

  tick_entry-Follows :
      (config : PoolConfig) (now : Readings) (e : PoolEntry C)
      → config.max_retries ≡ limit
      → Follows limit true e (tick_entry on config now e)
  unfolding tick_entry
  tick_entry-Follows config now e same =
      if-Follows _
        (if-Follows (test_conn on.connected e)
          (Follows-trans looked_at (keep_alive-Follows config now e.healthy _))
          (Follows-trans looked_at (bring_back-Follows config now e.healthy _ same)))
        (Follows-refl true e)
    where
      looked_at : Follows limit true e (record e { healthy = test_conn on.connected e })
      looked_at = Follows-conn true e _ refl (λ h. h)

  pub tick_entries-Pointwise :
      (config : PoolConfig) (clock : ℕ → Readings) (i : ℕ) (es : List (PoolEntry C))
      → config.max_retries ≡ limit
      → Pointwise (Follows limit true) es (tick_entries on config clock i es)
  unfolding tick_entries
  tick_entries-Pointwise config clock i [] same = done
  tick_entries-Pointwise config clock i (e ∷ es) same =
      turn (tick_entry-Follows config (clock i) e same)
        (tick_entries-Pointwise config clock (i + 1) es same)

  pub release_loop-Pointwise :
      (a : ℕ) (es : List (PoolEntry C)) → Pointwise (Follows limit true) es (release_loop a es)
  unfolding release_loop
  release_loop-Pointwise a [] = done
  release_loop-Pointwise a (e ∷ es) = elim (Bool-cases (holds a e)) [
    | inl held ↦ rw held (
        turn (Follows-conn true e (record e { in_use = false }) refl (λ h. h))
          (Pointwise-refl (Follows-refl true) es))
    | inr other ↦ rw other (turn (Follows-refl true e) (release_loop-Pointwise a es))
  ]
