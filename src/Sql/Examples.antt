-- ===== src/Sql/Examples.antt =====
-- A pool of two connections for test4/connectionpool.h.
use test_linux.Base.{ℕ, ◌+◌, ◌≡◌, refl, true, false, some, [], ◌∷◌, times}
use test_linux.Sql.Pool.{
  ConnectionPool, Answer, create, entered, init, acquire, release, shutdown, Calls, begins, inits,
  acquires, releases, shuts,
}
use test_linux.Sql.Handles.{handles_kept}

abbrev connecting : ℕ → Answer
connecting i = record { handle = some (10 + i); connects = true }

-- One connection is taken, the pool is shut down, and the connection comes back: it waits in a pool
-- that lends nothing.
abbrev late : ConnectionPool
late = record {
  connections = 10 ∷ [];
  active_flag = false;
  total_connection = 0;
  available_connection = 1;
  opened = 10 ∷ 11 ∷ [];
  closed = 11 ∷ [];
}

late-Calls : Calls late []
unfolding init create entered acquire release shutdown
late-Calls = releases [] [] 10 (shuts (acquires 10 (inits 2 connecting begins) refl))

handles_kept_example :
    times late.opened 10 ≡ times late.connections 10 + times [] 10 + times late.closed 10
handles_kept_example = handles_kept late-Calls 10
