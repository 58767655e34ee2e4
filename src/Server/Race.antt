-- ===== src/Server/Race.antt =====
-- `curfds --` of a job on a thread of the pool, and `curfds ++` of `main`'s loop in the middle of it,
-- in 2.3.1-coroutine/server_mulport_epoll.c: neither is atomic nor under a mutex. The turn of the loop is
-- taken whole here, and so is what a job does up to the read of `curfds`.
use test_linux.Base.{
  ℕ, suc, ◌≡◌, refl, ap, Option, none, some, List, [], ◌∷◌, ◌++◌, ◌==◌, ltb, ℤ, ok, if◌then◌else◌,
  arith,
}
use test_linux.Io.Errno.{enotconn}
use test_linux.Io.Echo.{max_buffer}
use test_linux.Io.Recv.{Round, n_recv}
use test_linux.Io.Send.{SendRound}
use test_linux.Server.State.{Server, dec, listenfd}
use test_linux.Server.Handler.{client_data_process, answer, client_job}
use test_linux.Server.Loop.{Event, runs, handle_event, accept_client, welcome}

-- A job that finds its client gone reads `curfds`; none where it does something else.
unfoldable pub job_loads : Server → List Round → Option ℤ
job_loads s rounds = elim (n_recv rounds max_buffer) [
  | none ↦ none
  | some (ret, got, count) ↦
      if ltb 0 count then none else if ret == enotconn then some s.curfds else none
]

-- It writes one less than it has read, and closes the descriptor.
unfoldable pub job_stores : Server → (seen : ℤ) → (job_fd : ℕ) → Server
job_stores s seen job_fd = record s { curfds = dec seen; closed = job_fd ∷ s.closed }

-- With nothing in between, the two halves are what the job does.
job_stores-client_job :
    (s : Server) (job_fd : ℕ) (rounds : List Round) (sends : List SendRound) (seen : ℤ)
    → job_loads s rounds ≡ some seen
    → client_job s job_fd rounds sends ≡ ok (job_stores s seen job_fd)
unfolding job_loads job_stores client_job client_data_process answer
job_stores-client_job s job_fd rounds sends seen e = ground arith

abbrev pub Loaded : Type 0
Loaded = List (ℕ × ℤ)

-- One turn of the loop, or one half of a job; the jobs between their halves stand in a list.
pub data Half : Server → Loaded → Server → Loaded → Type 0 where
  event :
      {s t : Server} {l : Loaded} (fd : ℕ) (e : Event)
      → handle_event s fd e ≡ ok (runs t)
      → Half s l t l
  loads :
      {s t : Server} {l : Loaded} (front back : List ℕ) (job_fd : ℕ) (rounds : List Round)
      (seen : ℤ)
      → s.queue ≡ front ++ job_fd ∷ back
      → job_loads s rounds ≡ some seen
      → t ≡ record s { queue = front ++ back }
      → Half s l t ((job_fd, seen) ∷ l)
  stores :
      {s t : Server} {l k : Loaded} (front back : Loaded) (job_fd : ℕ) (seen : ℤ)
      → l ≡ front ++ (job_fd, seen) ∷ back
      → k ≡ front ++ back
      → t ≡ job_stores s seen job_fd
      → Half s l t k

pub data Halves : Server → Loaded → Server → Loaded → Type 0 where
  here : {s : Server} {l : Loaded} → Halves s l s l
  next : {s t u : Server} {l k m : Loaded} → Half s l t k → Halves t k u m → Halves s l u m

job_loads-curfds :
    (s : Server) (rounds : List Round) (seen : ℤ) → job_loads s rounds ≡ some seen → seen ≡ s.curfds
unfolding job_loads
job_loads-curfds s rounds seen e = ground arith

handle_event-welcome :
    (s : Server) (sockfd k clientfd : ℕ) (e : Event)
    → listenfd sockfd s.sockfds ≡ suc k
    → e.accepted ≡ some clientfd
    → handle_event s sockfd e ≡ ok (runs (welcome s clientfd))
unfolding handle_event accept_client
handle_event-welcome s sockfd k clientfd e listens came = rw (listens, handle_event) (rw came refl)

-- From every state with a queued job whose client is gone, and with a listening socket: there is a
-- run in which `main` accepts a new client between the job's read and write of `curfds`. Then one
-- client more was accepted and one more closed, but `curfds` is one less than it was: the new
-- client is not counted.
pub curfds-lost :
    (s : Server) (front back : List ℕ) (job_fd : ℕ) (rounds : List Round) (seen : ℤ)
    (sockfd k clientfd : ℕ) (e : Event)
    → s.queue ≡ front ++ job_fd ∷ back
    → job_loads s rounds ≡ some seen
    → listenfd sockfd s.sockfds ≡ suc k
    → e.accepted ≡ some clientfd
    → (t : Server) × Halves s [] t []
      × (t.accepted ≡ clientfd ∷ s.accepted)
      × (t.closed ≡ job_fd ∷ s.closed)
      × (t.queue ≡ front ++ back)
      × (t.curfds ≡ dec s.curfds)
unfolding job_stores welcome
curfds-lost s front back job_fd rounds seen sockfd k clientfd e queued gone listens came = (
  job_stores (welcome taken clientfd) seen job_fd,
  next (loads front back job_fd rounds seen queued gone refl) (
      next (event sockfd e (handle_event-welcome taken sockfd k clientfd e listens came))
        (next (stores [] [] job_fd seen refl refl refl) here)),
  refl,
  refl,
  refl,
  ap dec (job_loads-curfds s rounds seen gone),
)
  where
    taken : Server
    taken = record s { queue = front ++ back }
