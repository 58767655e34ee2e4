-- ===== src/Server/Loop.antt =====
-- `main` of 2.3.1-coroutine/server_mulport_epoll.c: opening the ports, and what one ready descriptor
-- of the event loop does.
use test_linux.Base.{
  ℕ, zero, suc, Bool, true, false, Option, none, some, List, [], ◌∷◌, ◌++◌, ◌≡◌, ltb, ℤ, pos,
  negsuc, Run, ok, ◌>>=◌, check, if◌then◌else◌,
}
use test_linux.Io.Recv.{Round}
use test_linux.Io.Send.{SendRound}
use test_linux.Server.State.{Server, inc, listenfd}
use test_linux.Server.Handler.{client_data_process, client_job}

-- What the system answers while one port is opened: the descriptor of `socket`, if any, and whether
-- `bind` and `listen` succeed.
pub record Opening : Type 0 where
  pub sockfd : Option ℕ
  pub bound : Bool
  pub listening : Bool

-- `main` returns with a code, or is at its event loop with the state.
pub data Main (A : Type 0) : Type 0 where
  exits : (code : ℕ) → Main A
  runs : A → Main A

-- One turn of the loop over the ports.
unfoldable pub open_port : Opening → Main ℕ
open_port o = elim (o.sockfd) [
  | none ↦ exits 1
  | some fd ↦ if o.bound then (if o.listening then runs fd else exits 3) else exits 2
]

abbrev pub prepend : ℕ → Main (List ℕ) → Main (List ℕ)
prepend fd (exits code) = exits code
prepend fd (runs fds) = runs (fd ∷ fds)

-- The sockets in the order of their ports; the i-th is on `SERVER_PORT + i`.
unfoldable pub open_ports : List Opening → Main (List ℕ)
unfolding open_port
open_ports [] = runs []
open_ports (o ∷ os) = elim (open_port o) [
  | exits code ↦ exits code
  | runs fd ↦ prepend fd (open_ports os)
]

-- What the system answers to one ready descriptor: the descriptor that `accept` returns, if any,
-- whether the two allocations succeed, and the rounds of the data path.
pub record Event : Type 0 where
  pub accepted : Option ℕ
  pub allocated : Bool
  pub rounds : List Round
  pub sends : List SendRound

abbrev pub above_limit : ℤ → Bool
above_limit (pos n) = ltb 1000000 n
above_limit (negsuc n) = false

-- A new client: `if (curfds ++ > 1000 * 1000) nRun = 1`, and the descriptor is handed to
-- `epoll_ctl`, of which the result is not looked at.
unfoldable pub welcome : Server → ℕ → Server
welcome s clientfd = record s {
  curfds = inc s.curfds;
  n_run = (if above_limit s.curfds then true else s.n_run);
  accepted = clientfd ∷ s.accepted;
}

unfoldable pub accept_client : Server → Option ℕ → Main Server
unfolding welcome
accept_client s none = exits 4
accept_client s (some clientfd) = runs (welcome s clientfd)

-- A ready client is handled at once, or by a job; `malloc` is not checked before its block is used.
unfoldable pub client_ready : Server → ℕ → Event → Run Server
client_ready s fd e = elim (s.n_run) [
  | true ↦ client_data_process s fd e.rounds e.sends
  | false ↦ do _ ← check e.allocated; ok (record s { queue = fd ∷ s.queue })
]

-- The body of the loop over the ready descriptors.
unfoldable pub handle_event : Server → ℕ → Event → Run (Main Server)
unfolding accept_client client_ready
handle_event s fd e = elim (listenfd fd s.sockfds) [
  | zero ↦ do t ← client_ready s fd e; ok (runs t)
  | suc sockfd ↦ ok (accept_client s e.accepted)
]

-- The state before the event loop.
abbrev pub at_start : List ℕ → Server
at_start fds = record {
  sockfds = fds;
  curfds = pos 1;
  n_run = false;
  accepted = [];
  queue = [];
  closed = [];
  replies = [];
}

-- One turn of the program: `main`'s loop handles a ready descriptor, or a worker of the pool runs a
-- queued job from its start to its end, with no other thread's use of `curfds` in between.
pub data Turn (s : Server) : Server → Type 0 where
  event : (fd : ℕ) (e : Event) {t : Server} → handle_event s fd e ≡ ok (runs t) → Turn s t
  job :
      (front back : List ℕ) (job_fd : ℕ) (rounds : List Round) (sends : List SendRound) {t : Server}
      → s.queue ≡ front ++ job_fd ∷ back
      → client_job (record s { queue = front ++ back }) job_fd rounds sends ≡ ok t
      → Turn s t

pub data Reach (fds : List ℕ) : Server → Type 0 where
  begins : Reach fds (at_start fds)
  turns : {s t : Server} → Reach fds s → Turn s t → Reach fds t
