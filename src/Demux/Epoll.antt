-- ===== src/Demux/Epoll.antt =====
-- `client_task` and `epollio` of test8/tcpserver.cpp. What the system answers stands with each event:
-- the descriptor from `accept`, if any, whether `epoll_ctl` could add it, and the bytes from `recv`,
-- none where it is 0 or less.
use test_linux.Base.{
  ℕ, ◌+◌, ◌<◌, ◌≡◌, Bool, true, false, Bool-cases, inl, inr, Option, none, some, List, [], ◌∷◌,
  ◌==◌, times, remove, times-remove, Bytes, if◌then◌else◌, arith,
}

-- A client served on its own: the bytes that each call of `recv` gives, up to the end.
pub record Task : Type 0 where
  pub shown : List Bytes  -- printed, the newest first
  pub closed : Bool

unfoldable pub client_task : List (Option Bytes) → List Bytes → Option Task
client_task [] shown = none
client_task (none ∷ more) shown = some (record { shown = shown; closed = true })
client_task (some b ∷ more) shown = client_task more (b ∷ shown)

pub record Event : Type 0 where
  pub fd : ℕ
  pub epollin : Bool
  pub accepted : Option ℕ
  pub added : Bool
  pub received : Option Bytes

-- Lists with the newest first; `watched` are the clients added to the epoll instance.
pub record Epoll : Type 0 where
  pub watched : List ℕ
  pub accepted : List ℕ
  pub closed : List ℕ
  pub shown : List Bytes

-- A client is accepted and, where `epoll_ctl` could do it, watched: its result is not looked at.
unfoldable pub take_client : Option ℕ → (added : Bool) → Epoll → Epoll
take_client none added s = s
take_client (some fd) true s = record s { watched = fd ∷ s.watched; accepted = fd ∷ s.accepted }
take_client (some fd) false s = record s { accepted = fd ∷ s.accepted }

unfoldable pub read_client : (fd : ℕ) → Option Bytes → Epoll → Epoll
read_client fd none s = record s { watched = remove fd s.watched; closed = fd ∷ s.closed }
read_client fd (some b) s = record s { shown = b ∷ s.shown }

-- One event of a batch.
unfoldable pub handle_event : (sockfd : ℕ) → Event → Epoll → Epoll
handle_event sockfd e s =
    if e.fd == sockfd
    then take_client e.accepted e.added s
    else if e.epollin
    then read_client e.fd e.received s
    else s

unfoldable pub epollio : (sockfd : ℕ) → List Event → Epoll → Epoll
epollio sockfd [] s = s
epollio sockfd (e ∷ events) s = epollio sockfd events (handle_event sockfd e s)

-- The kernel reports the listening socket and clients that are watched.
abbrev pub Reported : (sockfd : ℕ) → Event → Epoll → Type 0
Reported sockfd e s = (e.fd == sockfd) ≡ false → 0 < times s.watched e.fd

abbrev pub AllReported : (sockfd : ℕ) → List Event → Epoll → Type 0
AllReported sockfd [] s = Unit
AllReported sockfd (e ∷ events) s =
    Reported sockfd e s × AllReported sockfd events (handle_event sockfd e s)

-- The clients that events accept and that `epoll_ctl` could not add, with those lost before.
abbrev pub lost_client : Option ℕ → (added : Bool) → List ℕ → List ℕ
lost_client none added lost = lost
lost_client (some fd) true lost = lost
lost_client (some fd) false lost = fd ∷ lost

abbrev pub lost_clients : (sockfd : ℕ) → List Event → List ℕ → List ℕ
lost_clients sockfd [] lost = lost
lost_clients sockfd (e ∷ events) lost =
    lost_clients sockfd events
      (if e.fd == sockfd then lost_client e.accepted e.added lost else lost)

-- A descriptor was accepted as often as it is watched, closed or lost.
abbrev pub IsBalanced : (lost : List ℕ) → Epoll → Type 0
IsBalanced lost s =
    (fd : ℕ) → times s.accepted fd ≡ times s.watched fd + times s.closed fd + times lost fd

take_client-IsBalanced :
    (a : Option ℕ) (added : Bool) (lost : List ℕ) (s : Epoll)
    → IsBalanced lost s
    → IsBalanced (lost_client a added lost) (take_client a added s)
unfolding take_client
take_client-IsBalanced none added lost s inv j = inv j
take_client-IsBalanced (some fd) true lost s inv j = let h = inv j in ground arith
take_client-IsBalanced (some fd) false lost s inv j = let h = inv j in ground arith

read_client-IsBalanced :
    (fd : ℕ) (b : Option Bytes) (lost : List ℕ) (s : Epoll)
    → 0 < times s.watched fd
    → IsBalanced lost s
    → IsBalanced lost (read_client fd b s)
unfolding read_client
read_client-IsBalanced fd none lost s held inv j =
    let h = inv j in let out = times-remove fd s.watched j held in ground arith
read_client-IsBalanced fd (some b) lost s held inv j = inv j

handle_event-IsBalanced :
    (sockfd : ℕ) (e : Event) (lost : List ℕ) (s : Epoll)
    → Reported sockfd e s
    → IsBalanced lost s
    → IsBalanced
        (if e.fd == sockfd then lost_client e.accepted e.added lost else lost)
        (handle_event sockfd e s)
unfolding handle_event
handle_event-IsBalanced sockfd e lost s reported inv = elim (Bool-cases (e.fd == sockfd)) [
  | inl listens ↦ rw listens (take_client-IsBalanced e.accepted e.added lost s inv)
  | inr client ↦ rw client (elim (Bool-cases e.epollin) [
    | inl readable ↦
        rw readable (read_client-IsBalanced e.fd e.received lost s (reported client) inv)
    | inr other ↦ rw other inv
  ])
]

-- From a state in which a descriptor was accepted as often as it is watched, closed or lost, and
-- where the kernel reports only the listening socket and watched clients: `epollio` keeps it so
-- through any events, and all that is lost anew are the accepted clients that `epoll_ctl` could not
-- add to the epoll instance.
pub epollio-IsBalanced :
    (sockfd : ℕ) (events : List Event) (lost : List ℕ) (s : Epoll)
    → AllReported sockfd events s
    → IsBalanced lost s
    → IsBalanced (lost_clients sockfd events lost) (epollio sockfd events s)
unfolding epollio
epollio-IsBalanced sockfd [] lost s reported inv = inv
epollio-IsBalanced sockfd (e ∷ events) lost s reported inv =
    epollio-IsBalanced sockfd events
      (if e.fd == sockfd then lost_client e.accepted e.added lost else lost)
      (handle_event sockfd e s) reported.1 (handle_event-IsBalanced sockfd e lost s reported.0 inv)
