-- ===== src/Chat/Server.antt =====
-- `KcpServer` of 2.2.3-udp-kcp-quic/kcp_server.cc with the methods of `ChatServer` in chat_server.cc.
-- The thread that updates and the one that receives exclude each other by a lock, so each turn of
-- either is one step.
use test_linux.Base.{
  ℕ, zero, suc, ◌+◌, ◌*◌, ◌^◌, Bool, true, false, not, ◌&&◌, Option, none, some, List, [], ◌∷◌,
  ◌++◌, ◌==◌, ltb, length, take, replicate, remove, times, ℤ, pos, negsuc, Run, ok, out_of_fuel,
  ◌>>=◌, or_fault, Bytes, peek, slice, write_at, bytes_of, same, if◌then◌else◌,
}
use test_linux.Chat.Library.{KcpCalls}
use test_linux.Chat.Session.{
  KcpOpt, Address, Session, Packet, keep_alive_cmd, get_addr_to_string, kcp_session, input, send,
  recv, update, set_keep_alive,
}

abbrev pub body_size : ℕ
body_size = 1024 * 4

-- The objects that the shared pointers stand for.
abbrev pub Memory : Type 0 → Type 0
Memory K = ℕ → Session K

-- One object overwritten.
abbrev pub put {ℓ} : {A : Type ℓ} → (ℕ → A) → ℕ → A → ℕ → A
put memory id a j = if id == j then a else memory j

-- A session is named by the number of its object; `sessions` and `users` are listed in the order in
-- which they are walked.
pub record Server (K : Type 0) : Type 0 where
  pub kcp_opt : KcpOpt
  pub sessions : List (ℕ × ℕ)  -- a conv and the session under it
  pub buf : Bytes
  pub users : List ℕ
  pub memory : Memory K
  pub created : ℕ  -- how many sessions have been made
  pub wire : List Packet  -- what `sendto` was given

-- `sessions_.find(conv)`.
abbrev pub find : ℕ → List (ℕ × ℕ) → Option ℕ
find conv [] = none
find conv ((c, id) ∷ rest) = elim (c == conv) [ true ↦ some id | false ↦ find conv rest ]

-- `users_.insert(session)`.
abbrev pub insert : ℕ → List ℕ → List ℕ
insert id users = if 0 == times users id then id ∷ users else users

abbrev pub header_size : ℕ
header_size = 24

-- What `recvfrom` gave, with -1 as none: whether it is as long as a header.
unfoldable pub check : Option Bytes → Bool
check none = false
check (some b) = not (ltb (length b) header_size)

unfoldable pub same_address : (a b : Address) → Bool
same_address a b = a.sin_port == b.sin_port && a.s_addr == b.s_addr

unfoldable pub get_conv : Bytes → Run ℕ
get_conv b = do
  b0 ← peek b 0
  b1 ← peek b 1
  b2 ← peek b 2
  b3 ← peek b 3
  ok (b0 + 2 ^ 8 * b1 + 2 ^ 16 * b2 + 2 ^ 24 * b3)

-- A turn of one of the two threads: the sessions are updated, or `recvfrom` has returned.
pub data Turn : Type 0 where
  tick : (now : ℕ → ℕ) → Turn
  arrived : (now : ℕ → ℕ) (datagram : Option Bytes) (addr : Address) → Turn

module _ {K : Type 0} where
  -- The server before its first turn; `memory` is what no session has been made in.
  unfoldable pub kcp_server : KcpOpt → Memory K → Server K
  kcp_server opt memory = record {
    kcp_opt = opt;
    sessions = [];
    buf = replicate body_size 0;
    users = [];
    memory = memory;
    created = 0;
    wire = [];
  }

module _ {K : Type 0} (calls : KcpCalls K) where
  unfoldable pub send_all : List ℕ → Bytes → Memory K → Memory K
  send_all [] str memory = memory
  send_all (user ∷ users) str memory =
      send_all users str (put memory user ((send calls (memory user) str).1))

  unfoldable pub notify : Server K → Bytes → Server K
  notify s str = record s { memory = send_all s.users str s.memory }

module _ (inet_ntoa decimal : ℕ → Bytes) where
  unfoldable pub name_of : Address → Bytes
  name_of a = bytes_of "user from [" ++ get_addr_to_string inet_ntoa decimal a

  unfoldable pub message_line : Address → Bytes → Bytes
  message_line a msg = name_of a ++ (bytes_of "] : " ++ msg)

  unfoldable pub join_line : Address → Bytes
  join_line a = name_of a ++ bytes_of "] join the ChatRoom!"

  unfoldable pub left_line : Address → Bytes
  left_line a = name_of a ++ bytes_of "] left the ChatRoom!"

module _ {K : Type 0} (calls : KcpCalls K) (inet_ntoa decimal : ℕ → Bytes) where
  unfoldable pub handle_message : Server K → (id : ℕ) → Bytes → Server K
  handle_message s id msg = notify calls s (message_line inet_ntoa decimal (s.memory id).addr msg)

  unfoldable pub handle_connection : Server K → (id : ℕ) → Server K
  handle_connection s id =
      notify calls (record s { users = insert id s.users })
        (join_line inet_ntoa decimal (s.memory id).addr)

  unfoldable pub handle_close : Server K → (id : ℕ) → Server K
  handle_close s id =
      notify calls (record s { users = remove id s.users })
        (left_line inet_ntoa decimal (s.memory id).addr)

  -- A session's own update.
  unfoldable pub update_one : Server K → (id current : ℕ) → Server K
  update_one s id current =
      let (offline, (out, session)) = update calls (s.memory id) current in
      let t : Server K = record s { memory = put s.memory id session; wire = out ++ s.wire } in
      if offline then handle_close t id else t

  unfoldable pub offline : Server K → (id current : ℕ) → Bool
  offline s id current = (update calls (s.memory id) current).0

  -- The entries that are not erased, and the server; `now` gives the readings of the clock.
  unfoldable pub update_from : (now : ℕ → ℕ) → List (ℕ × ℕ) → Server K → List (ℕ × ℕ) × Server K
  update_from now [] s = ([], s)
  update_from now ((conv, id) ∷ rest) s =
      let (left, t) = update_from (λ i. now (suc i)) rest (update_one s id (now 0)) in
      ((if offline s id (now 0) then left else (conv, id) ∷ left), t)

  unfoldable pub update_sessions : (now : ℕ → ℕ) → Server K → Server K
  update_sessions now s =
      let (left, t) = update_from now s.sessions s in record t { sessions = left }

  unfoldable pub new_session : Server K → (conv : ℕ) → Address → Server K
  new_session s conv addr =
      let opt : KcpOpt = record s.kcp_opt { conv = conv } in
      let id = s.created in
      handle_connection
        (record s { memory = put s.memory id (kcp_session calls opt addr); created = suc id }) id

  unfoldable pub with_session : Server K → (conv : ℕ) → Address → Server K
  with_session s conv addr = elim (find conv s.sessions) [
    | some id ↦ s
    | none ↦
        let t = new_session s conv addr in record t { sessions = (conv, s.created) ∷ t.sessions }
  ]

  unfoldable pub get_session : Server K → (conv : ℕ) → Address → Run (ℕ × Server K)
  get_session s conv addr =
      let t = with_session s conv addr in
      do
        id ← or_fault (find conv t.sessions)
        let session = t.memory id
        ok (
          id,
          (if same_address session.addr addr
              then t
              else record t { memory = put t.memory id (record session { addr = addr }) }),
        )

  -- A keep-alive, or a message of n + 1 bytes; `again` is the rest of the loop.
  unfoldable pub heed :
      (again : Server K → Run (Option (Server K)))
      → (n id current : ℕ) → Server K
      → Bool
      → Run (Option (Server K))
  heed again n id current s true =
      again (record s { memory = put s.memory id (set_keep_alive (s.memory id) current) })
  heed again n id current s false = do msg ← slice s.buf 0 (suc n); again (handle_message s id msg)

  -- What `Recv` returned. The process exits with none.
  unfoldable pub take_message :
      (again : Server K → Run (Option (Server K)))
      → (len : ℤ) (id current : ℕ) → Server K
      → Run (Option (Server K))
  take_message again (negsuc (suc (suc zero))) id current s = ok none
  take_message again (negsuc (suc (suc (suc n)))) id current s = ok (some s)
  take_message again (negsuc (suc zero)) id current s = ok (some s)
  take_message again (negsuc zero) id current s = ok (some s)
  take_message again (pos zero) id current s = ok (some s)
  take_message again (pos (suc n)) id current s = do
    head ← slice s.buf 0 (length keep_alive_cmd)
    heed again n id current s (same head keep_alive_cmd)

  -- Each pass of the loop that reads the messages of a session.
  unfoldable pub receive : (fuel : ℕ) (now : ℕ → ℕ) (id : ℕ) → Server K → Run (Option (Server K))
  receive zero now id s = out_of_fuel
  receive (suc n) now id s =
      let ((len, bytes), session) = recv calls (s.memory id) body_size in
      do
        buf ← write_at s.buf 0 bytes
        take_message (receive n (λ i. now (suc i)) id) len id (now 0)
            (record s { memory = put s.memory id session; buf = buf })

  unfoldable pub handle_session :
      (fuel : ℕ) (now : ℕ → ℕ) (id length : ℕ) → Server K → Run (Option (Server K))
  handle_session fuel now id length s = do
    bytes ← slice s.buf 0 length
    let (ret, session) = input calls (s.memory id) bytes
    let t : Server K = record s { memory = put s.memory id session }
    elim ret [
      | pos zero ↦ receive fuel now id t
      | pos (suc n) ↦ ok (some t)
      | negsuc n ↦ ok (some t)
    ]

  -- A turn of the loop of `Run`.
  unfoldable pub take_datagram :
      (fuel : ℕ) (now : ℕ → ℕ) → Option Bytes → Address → Server K → Run (Option (Server K))
  take_datagram fuel now none addr s = ok (some s)
  take_datagram fuel now (some datagram) addr s =
      let b = take body_size datagram in
      do
        buf ← write_at s.buf 0 b
        let t : Server K = record s { buf = buf }
        elim (check (some b)) [
          | false ↦ ok (some t)
          | true ↦ do
            conv ← get_conv t.buf
            (id, u) ← get_session t conv addr
            handle_session fuel now id (length b) u
        ]

  -- `Run` for the turns given; `fuel` is for the messages read in one turn.
  unfoldable pub run : (fuel : ℕ) → List Turn → Server K → Run (Option (Server K))
  run fuel [] s = ok (some s)
  run fuel (tick now ∷ turns) s = run fuel turns (update_sessions now s)
  run fuel (arrived now datagram addr ∷ turns) s = do
    after ← take_datagram fuel now datagram addr s
    elim after [ none ↦ ok none | some t ↦ run fuel turns t ]
