-- ===== src/Load/Client.antt =====
-- `main` of test7/mul_port_client_epoll.c and of test9/mul_port_client_epoll.c: one more connection in each turn of its loop, and the
-- events of all when the number of connections asks for it. The texts that `sprintf` makes are
-- parameters; the system's answers are given. A turn that leaves the program has no result.
use test_linux.Base.{
  ℕ, suc, ◌%◌, Bool, true, false, not, ◌&&◌, ◌||◌, Option, none, some, List, [], ◌∷◌, ◌==◌, ltb,
  leb, take, ℤ, pos, negsuc, Bytes, if◌then◌else◌,
}
use test_linux.Io.Errno.{eintr, eagain, Incoming, bytes, failed}
use test_linux.Io.Echo.{max_buffer}
use test_linux.Server.State.{inc, dec}

-- The lists have the newest first. `ports` are the offsets of the ports connected to; `broken` is
-- history, for the theorems: the sockets that were closed on an error.
pub record Load : Type 0 where
  pub index : ℕ
  pub connections : ℤ
  pub is_continue : Bool
  pub sockets : List ℕ
  pub ports : List ℕ
  pub sockfd : ℕ  -- the socket opened last
  pub buffer : Bytes
  pub sent : List (ℕ × Bytes)
  pub closed : List ℕ
  pub broken : List ℕ

-- Where the programs differ: MAX_PORT, whether a ready socket is used itself, with a text of its own,
-- or the one opened last, with what is in the buffer, and the errors that are passed over.
pub record Variant : Type 0 where
  pub max_port : ℕ
  pub own_socket : Bool
  pub passing : ℕ → Bool

abbrev pub test7 : Variant
test7 = record { max_port = 100; own_socket = true; passing = λ errno. errno == eintr }

abbrev enotsock : ℕ
enotsock = 88

abbrev pub test9 : Variant
test9 = record {
  max_port = 20;
  own_socket = false;
  passing = λ errno. (errno == eintr) || (errno == eagain) || (errno == enotsock);
}

-- What `epoll_wait` reports of a socket: EPOLLOUT, else EPOLLIN with what `recv` finds, else neither.
pub data Ready : Type 0 where
  writable : Ready
  readable : Incoming → Ready
  neither : Ready

-- What the system answers in one turn.
pub record Answers : Type 0 where
  pub sockfd : Option ℕ
  pub connected : Bool
  pub events : List (ℕ × Ready)

unfoldable pub next_index : Variant → ℕ → ℕ
next_index v index = if leb v.max_port (suc index) then 0 else suc index

abbrev pub below_most : ℤ → Bool
below_most (pos n) = ltb n 340000
below_most (negsuc n) = true

-- `connections % 1000 == 999 || connections >= 340000`.
abbrev pub is_due : ℤ → Bool
is_due (pos n) = (n % 1000 == 999) || leb 340000 n
is_due (negsuc n) = false

abbrev pub is_quit : Bytes → Bool
is_quit (c ∷ d ∷ e ∷ f ∷ []) = (c == b'q') && (d == b'u') && (e == b'i') && (f == b't')
is_quit (c ∷ d ∷ e ∷ f ∷ g ∷ _) =
    (c == b'q') && (d == b'u') && (e == b'i') && (f == b't') && (g == 0)
is_quit _ = false

-- The branches on `length`.
unfoldable pub received : Load → ℕ → Bytes → Load
received s fd [] = record s { connections = dec s.connections; closed = fd ∷ s.closed }
received s fd (c ∷ cs) = record s {
  is_continue = (if is_quit (c ∷ cs) then false else s.is_continue);
}

unfoldable pub drop_broken : Load → ℕ → Load
drop_broken s fd = record s { closed = fd ∷ s.closed; broken = fd ∷ s.broken }

module _ (v : Variant) (hello : ℤ → Bytes) (data_from : ℕ → Bytes) where
  -- One ready socket.
  unfoldable pub handle : Load → ℕ → Ready → Load
  unfolding received drop_broken
  handle s fd writable =
      if v.own_socket
      then record s { buffer = data_from fd; sent = (fd, data_from fd) ∷ s.sent }
      else record s { sent = (s.sockfd, s.buffer) ∷ s.sent }
  handle s fd (readable (bytes b)) = received s fd (take max_buffer b)
  handle s fd (readable (failed errno)) = if v.passing errno then s else drop_broken s fd
  handle s fd neither = drop_broken s fd

  unfoldable pub handle_all : List (ℕ × Ready) → Load → Load
  unfolding handle
  handle_all [] s = s
  handle_all ((fd, r) ∷ es) s = handle_all es (handle s fd r)

  -- A new connection; none is `goto err`.
  unfoldable pub connect_one : Load → Option ℕ → Bool → Option Load
  connect_one s none connected = none
  connect_one s (some fd) false = none
  connect_one s (some fd) true = some (record s {
    connections = inc s.connections;
    sockets = fd ∷ s.sockets;
    ports = s.index ∷ s.ports;
    sockfd = fd;
    buffer = hello s.connections;
    sent = (fd, hello s.connections) ∷ s.sent;
  })

  unfoldable pub connect_step : Load → Answers → Option Load
  unfolding connect_one
  connect_step s a =
      if below_most s.connections && not s.is_continue
      then connect_one s a.sockfd a.connected
      else some s

  -- From the connection on to `usleep`.
  abbrev pub events_step : Answers → Load → Load
  events_step a s = if is_due s.connections then handle_all a.events s else s

  unfoldable pub turn : Load → Answers → Option Load
  unfolding next_index connect_step handle_all
  turn s a = elim (connect_step (record s { index = next_index v s.index }) a) [
    | none ↦ none
    | some t ↦ some (events_step a t)
  ]

  unfoldable pub turns : List Answers → Load → Option Load
  unfolding turn
  turns [] s = some s
  turns (a ∷ rest) s = elim (turn s a) [ none ↦ none | some t ↦ turns rest t ]

-- One turn of test9/mul_port_client_epoll.c.
abbrev pub test9_turn : (ℤ → Bytes) → (ℕ → Bytes) → Load → Answers → Option Load
test9_turn = turn test9

-- Before the loop, with the text of `strcpy` in the buffer.
abbrev pub at_start : Bytes → Load
at_start greeting = record {
  index = 0;
  connections = pos 0;
  is_continue = false;
  sockets = [];
  ports = [];
  sockfd = 0;
  buffer = greeting;
  sent = [];
  closed = [];
  broken = [];
}
