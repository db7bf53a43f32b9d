-- ===== src/Pool/Tests.antt =====
-- Runs of the pool with connections that are up or not, and the theorems' examples.
use fakelua.Base.{ℕ, arith, ◌≡◌, ◌≢◌, refl, Bool, true, false, [], none, some, Option}
use fakelua.Pool.Tick.{Readings, tick, tick_conns, addresses, tick_entry, bring_back, try_reconnect}
use fakelua.Pool.{Connections, PoolConfig, Pool, Owned, initialize, initialize_loop, acquire}
use fakelua.Pool.{find_available, available, take_entry, hand_out, mark_connected_for_test, release}
use fakelua.Pool.{release_loop}
use fakelua.Pool.{close, reap}
use fakelua.Pool.Steps.{
  IsApart, IsValid, Step-IsValid, Reach-IsValid, initializes, marks, acquires, releases, goes,
  stays, change_at,
}
use fakelua.Pool.Looks.{Looked, tick-reap, tick-Looked}
use fakelua.Pool.Entries.{Pointwise}
use fakelua.Pool.Exclusive.{acquire_exclusive}
use fakelua.Pool.Served.{Served, acquire-Served}

abbrev switches : Connections Bool
switches = record {
  new = false;
  connected = λ c. c;
  connecting = λ _. false;
  tick_depth = λ _. 0;
  connect = λ _. false;
  shut = λ _. false;
  request_close = λ c. c;
  ping = λ c. (c, true);
  mark_connected = λ _. true;
}

abbrev two : PoolConfig
two = record { pool_size = 2; heartbeat_interval_ms = 30; max_retries = 1; retry_base_ms = 10 }

abbrev no_pool : Pool Bool
no_pool = record { entries = []; closed = false; round_robin = 0 }

-- Addresses that are given out in turn.
abbrev in_turn : ℕ → ℕ
in_turn i = i

in_turn-IsApart : IsApart in_turn
in_turn-IsApart i j same = same

abbrev up : Pool Bool
up = mark_connected_for_test switches (initialize switches in_turn two no_pool)

no_pool-IsValid : IsValid two no_pool
no_pool-IsValid = record { all_owned = λ _. tt; limited = tt; distinct = tt }

up-IsValid : IsValid two up
up-IsValid =
    Reach-IsValid switches two (goes (initializes in_turn in_turn-IsApart) (goes marks stays))
      no_pool-IsValid

abbrev readings : ℕ → Readings
readings i = record { recovered = i; looked = i; done = i }

abbrev goes_down : ℕ → Pool Bool → Pool Bool
goes_down a p = change_at switches two a (λ _. false) p

abbrev other : Owned Bool
other = record { address = 0; value = true }

abbrev one : Owned Bool
one = record { address = 1; value = true }

abbrev first : Pool Bool → Pool Bool
first p = (acquire switches p).0

abbrev got : Pool Bool → Option (Owned Bool)
got p = (acquire switches p).1

-- Two clients get the two connections, a third none, and again one after a release.
first_got : got up ≡ some (record { address = 0; value = true })
unfolding mark_connected_for_test initialize initialize_loop acquire find_available available
    take_entry hand_out
first_got = refl

second_got : got (first up) ≡ some (record { address = 1; value = true })
unfolding mark_connected_for_test initialize initialize_loop acquire find_available available
    take_entry hand_out
second_got = refl

third_got : got (first (first up)) ≡ none
unfolding mark_connected_for_test initialize initialize_loop acquire find_available available
    take_entry hand_out
third_got = refl

released_got :
    got (release (some 1) (first (first up))) ≡ some (record { address = 1; value = true })
unfolding mark_connected_for_test initialize initialize_loop acquire find_available available
    take_entry hand_out release release_loop
released_got = refl

closed_got : got (close switches up) ≡ none
unfolding mark_connected_for_test initialize initialize_loop acquire close
closed_got = refl

-- A connection that is down is tried once, and then not before ten more milliseconds.
retried_once :
    tick_entry switches two
      (record { recovered = 5; looked = 6; done = 7 })
      (record {
        conn = some (record { address = 0; value = false });
        in_use = false;
        healthy = true;
        last_heartbeat = 1;
        retry_count = 1;
      })
    ≡ record {
      conn = some (record { address = 0; value = false });
      in_use = false;
      healthy = false;
      last_heartbeat = 7;
      retry_count = 1;
    }
unfolding tick_entry bring_back try_reconnect
retried_once = refl

Step-IsValid_example : IsValid two (initialize switches in_turn two no_pool)
Step-IsValid_example =
    Step-IsValid switches two (initializes in_turn in_turn-IsApart) no_pool-IsValid

-- A callback closes the pool while its connections are ticked.
tick-reap_example : (tick switches (λ _. close switches) two readings up).entries ≡ []
unfolding mark_connected_for_test initialize initialize_loop close tick tick_conns reap
tick-reap_example = tick-reap switches two (λ _. close switches) readings up refl refl

-- The connections go down while they are ticked, and the first is with a client.
tick-Looked_example :
    Pointwise
      (Looked switches two)
      (tick_conns goes_down (addresses (first up).entries) (first up)).entries
      (tick switches goes_down two readings (first up)).entries
unfolding mark_connected_for_test initialize initialize_loop acquire find_available available
    take_entry hand_out tick tick_conns change_at
tick-Looked_example = tick-Looked switches two goes_down readings (first up) refl

-- The first client has the connection at 0; a second one gives that at 1 back, and the next gets it.
acquire_exclusive_example : one.address ≢ other.address
unfolding mark_connected_for_test initialize initialize_loop acquire find_available available
    take_entry hand_out release release_loop
acquire_exclusive_example =
    acquire_exclusive switches two up (release (some 1) (first (first up))) other one up-IsValid
      refl (goes acquires (goes (releases (some 1)) stays)) (tt, (omega arith, tt)) refl

acquire-Served_example : Served switches 1 2 up
unfolding mark_connected_for_test initialize initialize_loop available
acquire-Served_example = acquire-Served switches up 1 refl refl
