-- ===== src/Chat/Datagram.antt =====
-- What a datagram of a client that the server knows comes to in the chat room.
use test_linux.Base.{
  ℕ, zero, suc, ◌^◌, ◌≤◌, ◌<◌, ◌≡◌, refl, ap, ap₂, sym, subst, ◌∙◌, Bool, true, Bool-cases, inl,
  inr, Option, some, List, [], ◌∷◌, ◌++◌, length, drop, take-all, take-append, times, length-append,
  length-drop, Run, ok, Bytes, ℤ, pos, negsuc, peek, slice, not, ltb, arith, if◌then◌else◌,
}
use test_linux.Chat.Library.{KcpCalls, RoomLaws}
use test_linux.Chat.Session.{Address, Session, input}
use test_linux.Chat.Server.{
  Server, put, find, body_size, header_size, check, get_conv, same_address, get_session,
  handle_session, take_datagram, receive,
}
use test_linux.Chat.Sending.{put-at, put-related}
use test_linux.Chat.Receive.{slice-front, write_at-front}
use test_linux.Chat.Turns.{with_session-known}
use test_linux.Chat.Broadcast.{receive-broadcast}
use test_linux.Chat.Lines.{texts, latest, Clear, taken, lines_of}

same_address-eq : (a b : Address) → same_address a b ≡ true → a ≡ b
unfolding same_address
same_address-eq a b h =
    let port : a.sin_port ≡ b.sin_port = ground arith in
    let host : a.s_addr ≡ b.s_addr = ground arith in ap₂ at port host
  where
    at : ℕ → ℕ → Address
    at p h = record { sin_port = p; s_addr = h }

-- The conv stands in the first bytes.
get_conv-append : (b rest : Bytes) → 4 ≤ length b → get_conv (b ++ rest) ≡ get_conv b
unfolding get_conv peek
get_conv-append [] rest h = absurd (omega arith)
get_conv-append (b0 ∷ []) rest h = absurd (omega arith)
get_conv-append (b0 ∷ b1 ∷ []) rest h = absurd (omega arith)
get_conv-append (b0 ∷ b1 ∷ b2 ∷ []) rest h = absurd (omega arith)
get_conv-append (b0 ∷ b1 ∷ b2 ∷ b3 ∷ b) rest h = refl

module _ {K : Type 0} (calls : KcpCalls K) (inet_ntoa decimal : ℕ → Bytes) where
  -- The session of a known conv is the one under it; the address that the datagram came from is
  -- noted, and nothing else of any session changes.
  abbrev pub Located : Server K → (id : ℕ) → Address → Server K → Type 0
  Located s id addr u =
      (u.users ≡ s.users)
      × (u.sessions ≡ s.sessions)
      × (u.buf ≡ s.buf)
      × ((u.memory id).addr ≡ addr)
      × ((u.memory id).recv_latest_time ≡ (s.memory id).recv_latest_time)
      × ((j : ℕ) → (u.memory j).kcp ≡ (s.memory j).kcp)

  get_session-known :
      (s : Server K) (conv : ℕ) (addr : Address) (id : ℕ)
      → find conv s.sessions ≡ some id
      → (u : Server K) × (get_session calls inet_ntoa decimal s conv addr ≡ ok (id, u))
        × Located s id addr u
  unfolding get_session
  get_session-known s conv addr id e = elim (Bool-cases (same_address (s.memory id).addr addr)) [
    | inl b ↦
        (s, finds b, (refl, refl, refl, same_address-eq (s.memory id).addr addr b, refl, λ j. refl))
    | inr b ↦ (
      record s { memory = put s.memory id (record (s.memory id) { addr = addr }) },
      finds b,
      (
        refl,
        refl,
        refl,
        ap (λ (a : Session K). a.addr) here,
        ap (λ (a : Session K). a.recv_latest_time) here,
        put-related (λ (a b : Session K). b.kcp ≡ a.kcp) (λ a. refl) s.memory id
            (record (s.memory id) { addr = addr }) refl,
      ),
    )
  ]
    where
      here :
          put s.memory id (record (s.memory id) { addr = addr }) id
          ≡ record (s.memory id) { addr = addr }
      here = put-at s.memory id (record (s.memory id) { addr = addr })

      finds :
          {b : Bool}
          → same_address (s.memory id).addr addr ≡ b
          → get_session calls inet_ntoa decimal s conv addr
            ≡ ok (
              id,
              (if b then s else record s {
                memory = put s.memory id (record (s.memory id) { addr = addr });
              }),
            )
      finds h = rw (with_session-known calls inet_ntoa decimal s conv addr id e) (rw e (rw h refl))

module _ {K : Type 0} (calls : KcpCalls K) (inet_ntoa decimal : ℕ → Bytes)
    (inbox sent : K → List Bytes) (laws : RoomLaws calls inbox sent) where
  -- The session after `Input`.
  abbrev pub fed : Server K → (id : ℕ) → Bytes → Server K
  fed s id d = record s {
    memory = put s.memory id (record (s.memory id) { kcp = (calls.input (s.memory id).kcp d).1 });
  }

  pub handle_session-fed :
      (n : ℕ) (now : ℕ → ℕ) (id : ℕ) (s : Server K) (d rest : Bytes)
      → s.buf ≡ d ++ rest
      → (calls.input (s.memory id).kcp d).0 ≡ pos 0
      → handle_session calls inet_ntoa decimal n now id (length d) s
        ≡ receive calls inet_ntoa decimal n now id (fed s id d)
  unfolding handle_session input
  handle_session-fed n now id s d rest e fine =
      let whole : slice s.buf 0 (length d) ≡ ok d =
        ap (λ b. slice b 0 (length d)) e
        ∙ slice-front (d ++ rest) (length d) (omega (arith, length-append d rest))
        ∙ ap ok (take-append d rest) in
      rw whole (go ((calls.input (s.memory id).kcp d).0) fine)
    where
      go :
          (ret : ℤ)
          → ret ≡ pos 0
          → (elim ret as (λ r. Run (Option (Server K))) [
            | pos zero ↦ receive calls inet_ntoa decimal n now id (fed s id d)
            | pos (suc m) ↦ ok (some (fed s id d))
            | negsuc m ↦ ok (some (fed s id d))
          ])
            ≡ receive calls inet_ntoa decimal n now id (fed s id d)
      go (pos zero) e = refl
      go (pos (suc m)) e = cc
      go (negsuc m) e = cc

  -- A datagram of 24 to 4096 bytes whose first four name a session.
  pub take_datagram-known :
      (n : ℕ) (now : ℕ → ℕ) (d : Bytes) (addr : Address) (s : Server K) (conv id : ℕ)
      → header_size ≤ length d
      → length d ≤ body_size
      → length s.buf ≡ body_size
      → get_conv d ≡ ok conv
      → find conv s.sessions ≡ some id
      → (u : Server K) × (take_datagram calls inet_ntoa decimal n now (some d) addr s
          ≡ handle_session calls inet_ntoa decimal n now id (length d) u)
        × Located calls inet_ntoa decimal (record s { buf = d ++ drop (length d) s.buf }) id addr u
  unfolding take_datagram check
  take_datagram-known n now d addr s conv id long fits sized names known =
      let s' : Server K = record s { buf = d ++ drop (length d) s.buf } in
      let (u, e, located) = get_session-known calls inet_ntoa decimal s' conv addr id known in
      let wide : not (ltb (length d) header_size) ≡ true = ground arith in
      (
        u,
        rw (take-all body_size d fits) (
            rw (write_at-front s.buf d (omega arith)) (
              rw wide (
                rw (get_conv-append d (drop (length d) s.buf) (omega arith)) (
                  rw names (
                    rw e (
                      ap
                        (λ (b : Bytes).
                          handle_session calls inet_ntoa decimal n now id (length b) u)
                        (take-all body_size d fits))))))),
        located,
      )

module _ {K : Type 0} (calls : KcpCalls K) (inet_ntoa decimal : ℕ → Bytes)
    (inbox sent : K → List Bytes) (laws : RoomLaws calls inbox sent)
    (dotted : (n : ℕ) → length (inet_ntoa n) ≤ 15)
    (digits : (n : ℕ) → n < 2 ^ 16 → length (decimal n) ≤ 5) where
  -- Over a kcp library that keeps to its laws, with texts of at most 15 bytes for an address and 5
  -- for a port: for a datagram of 24 to 4096 bytes from a client whose conv the server knows, which
  -- the library accepts and after which messages of at most 4096 bytes wait, each a keep-alive or
  -- told from one by its own bytes, where the server's buffer has 4096 bytes and no user is listed
  -- twice: on more fuel than there are messages the turn ends; every user of the room is sent, in
  -- order, one line for each message up to the first empty one that is not a keep-alive, with the
  -- address that the datagram came from; a session that is no user is sent nothing; the users and
  -- the table stay; and the session counts as heard of at its last keep-alive only.
  pub take_datagram-broadcast :
      (n : ℕ) (now : ℕ → ℕ) (d : Bytes) (addr : Address) (s : Server K) (conv id : ℕ)
      (ms : List Bytes)
      → header_size ≤ length d
      → length d ≤ body_size
      → length s.buf ≡ body_size
      → ((j : ℕ) → times s.users j ≤ 1)
      → get_conv d ≡ ok conv
      → find conv s.sessions ≡ some id
      → (calls.input (s.memory id).kcp d).0 ≡ pos 0
      → inbox ((calls.input (s.memory id).kcp d).1) ≡ ms
      → Clear ms
      → length ms < n
      → (t : Server K) × (take_datagram calls inet_ntoa decimal n now (some d) addr s ≡ ok (some t))
        × (t.users ≡ s.users)
        × (t.sessions ≡ s.sessions)
        × ((t.memory id).recv_latest_time ≡ latest now ms (s.memory id).recv_latest_time)
        × ((j : ℕ)
            → sent (t.memory j).kcp
              ≡ sent (s.memory j).kcp
                ++ taken (times s.users j) (lines_of inet_ntoa decimal addr (texts ms)))
  take_datagram-broadcast n now d addr s conv id ms long fits sized once names known fine waits
        clear enough =
      let (u, e, (users, sessions, buf, at, heard, kcp)) =
        take_datagram-known calls inet_ntoa decimal inbox sent laws n now d addr s conv id long fits
          sized names known in
      let fine' : (calls.input (u.memory id).kcp d).0 ≡ pos 0 =
        ap (λ (k : K). (calls.input k d).0) (kcp id) ∙ fine in
      let own =
        put-at u.memory id (record (u.memory id) { kcp = (calls.input (u.memory id).kcp d).1 }) in
      let (t, runs, users', sessions', heard', sent') =
        receive-broadcast calls inet_ntoa decimal inbox sent laws dotted digits n now id
          (fed calls inet_ntoa decimal inbox sent laws u id d) ms enough
          (ap (λ (a : Session K). inbox a.kcp) own
            ∙ ap (λ (k : K). inbox ((calls.input k d).1)) (kcp id)
            ∙ waits)
          clear
          (ap length buf
            ∙ omega (arith, length-append d (drop (length d) s.buf), length-drop (length d) s.buf))
          (λ j. subst (λ (l : List ℕ). times l j ≤ 1) (sym users) (once j)) in
      (
        t,
        e
            ∙ handle_session-fed calls inet_ntoa decimal inbox sent laws n now id u d
                (drop (length d) s.buf) buf fine'
            ∙ runs,
        users' ∙ users,
        sessions' ∙ sessions,
        heard' ∙ ap (latest now ms) (ap (λ (a : Session K). a.recv_latest_time) own ∙ heard),
        λ j.
            sent' j
            ∙ ap₂
                (λ (l : List Bytes) (a : Address).
                  l ++ taken (times u.users j) (lines_of inet_ntoa decimal a (texts ms)))
                (put-related (λ (a b : Session K). sent b.kcp ≡ sent a.kcp) (λ a. refl) u.memory id
                    (record (u.memory id) { kcp = (calls.input (u.memory id).kcp d).1 })
                    (laws.input_sent (u.memory id).kcp d) j
                  ∙ ap sent (kcp j))
                (ap (λ (a : Session K). a.addr) own ∙ at)
            ∙ ap
                (λ (l : List ℕ).
                  sent (s.memory j).kcp
                  ++ taken (times l j) (lines_of inet_ntoa decimal addr (texts ms)))
                users,
      )
