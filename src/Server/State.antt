-- ===== src/Server/State.antt =====
-- The globals and locals of `main` in 2.3.1-coroutine/server_mulport_epoll.c that its handlers read
-- and change, and `listenfd`.
use test_linux.Base.{ℕ, suc, Bool, List, [], ◌∷◌, ◌==◌, ℤ, pos, negsuc, Bytes, if◌then◌else◌, zero}

abbrev pub max_port : ℕ
max_port = 100

abbrev pub server_port : ℕ
server_port = 8080

pub record Server : Type 0 where
  pub sockfds : List ℕ  -- the listening sockets, `max_port` of them
  pub curfds : ℤ
  pub n_run : Bool
  pub accepted : List ℕ  -- clients, the newest first
  pub queue : List ℕ  -- the descriptors of the jobs given to the pool, the newest first
  pub closed : List ℕ  -- descriptors closed by a handler, the newest first
  pub replies : List (ℕ × Bytes)  -- what was sent back, the newest first

-- `curfds ++` and `curfds --`.
unfoldable pub inc : ℤ → ℤ
inc (pos n) = pos (suc n)
inc (negsuc zero) = pos zero
inc (negsuc (suc n)) = negsuc n

unfoldable pub dec : ℤ → ℤ
dec (pos zero) = negsuc zero
dec (pos (suc n)) = pos n
dec (negsuc n) = negsuc (suc n)

-- `listenfd`: the descriptor if it is among the listening ones, else 0.
unfoldable pub listenfd : ℕ → List ℕ → ℕ
listenfd fd [] = 0
listenfd fd (s ∷ fds) = if fd == s then s else listenfd fd fds
