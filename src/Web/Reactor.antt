-- ===== src/Web/Reactor.antt =====
-- test8/reactor.cpp: the callbacks and the event loop. What the system answers comes with each event.
use test_linux.Base.{
  ℕ, ◌+◌, ◌-◌, ◌%◌, ◌^◌, Bool, true, false, Option, none, some, List, [], ◌∷◌, ◌++◌, ◌==◌, ltb,
  length, take, drop, ℤ, pos, negsuc, Run, ok, fault, ◌>>=◌, Bytes, slice, write_at, if◌then◌else◌,
}
use test_linux.Io.Errno.{eagain, Incoming, bytes, failed}
use test_linux.Web.Connection.{
  buffer_length, max_conns, Callback, read_cb, write_cb, listen_cb, reset_w, Interest, epollin,
  epollout, Peer,
}
use test_linux.Web.Response.{Cache, http_request, http_response}

-- `init_server`: what `socket`, `bind` and `listen` answer.
unfoldable pub init_server : (sockfd : Option ℕ) (binds listens : Bool) → ℤ
init_server none binds listens = negsuc 0
init_server (some sockfd) binds listens =
    if binds then (if listens then pos sockfd else negsuc 1) else negsuc 0

-- `epoll_ctl` adds a descriptor that is not watched, and modifies one that is.
unfoldable pub set_event : Option Interest → (op : Interest) (flag : ℕ) → ℤ × Option Interest
set_event watched op flag =
    if flag == 1
    then elim watched [ none ↦ (pos 0, some op) | some w ↦ (negsuc 0, some w) ]
    else if flag == 2
    then elim watched [ none ↦ (negsuc 0, none) | some _ ↦ (pos 0, some op) ]
    else (negsuc 1, watched)

-- `EPOLL_CTL_DEL` and `close`.
abbrev pub closed : Peer → Peer
closed p = record p { watched = none }

unfoldable pub received : Bytes → Peer → Run (ℤ × Peer)
unfolding set_event http_request
received [] p = ok (negsuc 0, closed p)
received (x ∷ b) p = do
  let c = p.conn
  rbuffer ← write_at c.rbuffer 0 (x ∷ b)
  rbuffer ← write_at rbuffer (length (x ∷ b)) (0 ∷ [])
  let c = http_request (record c { rbuffer = rbuffer; rlength = length (x ∷ b) })
  ok (pos 0, record { conn = c; watched = (set_event p.watched epollout 2).1; wire = [] })

unfoldable pub read_callback : Incoming → Peer → Run (ℤ × Peer)
unfolding received
read_callback (bytes b) p = received (take buffer_length b) p
read_callback (failed errno) p = if errno == eagain then ok (pos 0, p) else ok (negsuc 1, closed p)

-- For one call of `write_callback`: the file for the cache, the result of `open`, how many bytes
-- `send` or `sendfile` takes (none for -1), the errno behind it, and what the open file has.
pub record WriteAnswer : Type 0 where
  pub file : Option Bytes
  pub opens : Option ℕ
  pub takes : Option ℕ
  pub errno : ℕ
  pub on_disk : Bytes

abbrev pub try_later : ℕ → Peer → ℤ × Peer
try_later errno p = if errno == eagain then (pos 0, p) else (negsuc 0, closed p)

-- Behind a write that took some bytes.
unfoldable pub advance : Bytes → Peer → ℤ × Peer
unfolding set_event reset_w
advance sent p =
    let c = p.conn in
    let woffset = c.woffset + length sent in
    let wstatus =
      if c.wstatus == 1 then (if woffset == c.wtotallength then 2 else 1) else c.wstatus in
    let c = record c { woffset = woffset; wstatus = wstatus } in
    let wire = p.wire ++ sent in
    if wstatus == 2
    then (
      pos 0,
      record { conn = reset_w c; watched = (set_event p.watched epollin 2).1; wire = wire },
    )
    else (pos 0, record p { conn = c; wire = wire })

unfoldable pub send_buffer : WriteAnswer → Peer → Run (ℤ × Peer)
unfolding advance
send_buffer a p = do
  loaded ← slice p.conn.wbuffer 0 p.conn.wlength
  elim a.takes [
    | none ↦ ok (try_later a.errno p)
    | some n ↦ elim (take n loaded) [
      | [] ↦ ok (negsuc 0, closed p)
      | x ∷ b ↦ ok (advance (x ∷ b) p)
    ]
  ]

-- `sendfile`, which moves the offset in the file on.
unfoldable pub send_file : WriteAnswer → Peer → ℤ × Peer
unfolding advance
send_file a p =
    let c = p.conn in
    let remaining = (c.wtotallength + 2 ^ 64 - c.woffset) % 2 ^ 64 in
    elim a.takes [
      | none ↦ try_later a.errno p
      | some n ↦ elim (take n (take remaining (drop c.wfile_offset a.on_disk))) [
        | [] ↦ try_later a.errno p
        | x ∷ b ↦
            advance (x ∷ b)
              (record p { conn = record c { wfile_offset = c.wfile_offset + length (x ∷ b) } })
      ]
    ]

-- What `http_response` returns is not looked at.
unfoldable pub write_callback : (ℕ → Bytes) → WriteAnswer → Cache → Peer → Run (ℤ × Cache × Peer)
unfolding http_response send_buffer send_file
write_callback header_for a cache p = do
  (_, cache, c) ← http_response header_for a.file a.opens cache p.conn
  let p = record p { conn = c }
  (code, p) ← elim c.w_file_fd [ none ↦ send_buffer a p | some _ ↦ ok (send_file a p) ]
  ok (code, cache, p)

pub record Reactor : Type 0 where
  pub peers : ℕ → Peer
  pub cache : Cache

abbrev pub set_peer : Reactor → ℕ → Peer → Reactor
set_peer s fd p = record s { peers = λ a. if a == fd then p else s.peers a }

-- The new peer has been sent nothing.
unfoldable pub register_clinetfd : Reactor → (fd : ℕ) → Interest → Run Reactor
unfolding set_event
register_clinetfd s fd event = elim (ltb fd max_conns) [
  | false ↦ fault
  | true ↦
      let p = s.peers fd in
      let c = record p.conn { fd = fd; recv_cb = some read_cb; send_cb = some write_cb } in
      ok (set_peer s fd (record { conn = c; watched = (set_event p.watched event 1).1; wire = [] }))
]

unfoldable pub register_listenfd : Reactor → (fd : ℕ) → Interest → Run Reactor
unfolding set_event
register_listenfd s fd event = elim (ltb fd max_conns) [
  | false ↦ fault
  | true ↦
      let p = s.peers fd in
      let c = record p.conn { fd = fd; recv_cb = some listen_cb; send_cb = none } in
      ok (set_peer s fd (record p { conn = c; watched = (set_event p.watched event 1).1 }))
]

-- `accepts` is the new descriptor, or none for an error.
unfoldable pub listen_callback : Reactor → (accepts : Option ℕ) (errno : ℕ) → Run (ℤ × Reactor)
unfolding register_clinetfd
listen_callback s none errno = if errno == eagain then ok (pos 0, s) else ok (negsuc 0, s)
listen_callback s (some clientfd) errno = do s ← register_clinetfd s clientfd epollin; ok (pos 0, s)

pub record Event : Type 0 where
  pub curfd : ℕ
  pub readable : Bool
  pub writable : Bool
  pub incoming : Incoming
  pub accepts : Option ℕ
  pub errno : ℕ
  pub write : WriteAnswer

-- A callback that has not been set is an exception that nothing catches.
unfoldable pub call : (ℕ → Bytes) → Option Callback → Event → Reactor → Run Reactor
unfolding read_callback write_callback listen_callback
call header_for none e s = fault
call header_for (some read_cb) e s = do
  (_, p) ← read_callback e.incoming (s.peers e.curfd)
  ok (set_peer s e.curfd p)
call header_for (some write_cb) e s = do
  (_, cache, p) ← write_callback header_for e.write s.cache (s.peers e.curfd)
  ok (set_peer (record s { cache = cache }) e.curfd p)
call header_for (some listen_cb) e s = do (_, s) ← listen_callback s e.accepts e.errno; ok s

unfoldable pub handle_event : (ℕ → Bytes) → Event → Reactor → Run Reactor
unfolding call
handle_event header_for e s = do
  s ← if e.readable then call header_for (s.peers e.curfd).conn.recv_cb e s else ok s
  if e.writable then call header_for (s.peers e.curfd).conn.send_cb e s else ok s

-- `main`, over the events that `epoll_wait` reports. A negative index is outside of `conns`.
unfoldable pub reactor_loop : (ℕ → Bytes) → List Event → Reactor → Run Reactor
unfolding handle_event
reactor_loop header_for [] s = ok s
reactor_loop header_for (e ∷ es) s = do
  s ← handle_event header_for e s
  reactor_loop header_for es s

unfoldable pub reactor_start : (sockfd : Option ℕ) (binds listens : Bool) → Reactor → Run Reactor
unfolding init_server register_listenfd
reactor_start sockfd binds listens s = elim (init_server sockfd binds listens) [
  | pos fd ↦ register_listenfd s fd epollin
  | negsuc _ ↦ fault
]
