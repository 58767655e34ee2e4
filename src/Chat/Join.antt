-- ===== src/Chat/Join.antt =====
-- What a client that the server does not know comes to.
use test_linux.Base.{
  ℕ, ◌+◌, ◌^◌, ◌≤◌, ◌<◌, ◌≡◌, refl, ap, ap₂, sym, subst, ◌∙◌, inl, inr, eq-cases, eq→==, ne→==,
  none, List, [], ◌∷◌, ◌++◌, ◌==◌, length, length-append, replicate, times, bytes_of, Bytes,
  if◌then◌else◌, arith,
}
use test_linux.Chat.Library.{KcpCalls, RoomLaws}
use test_linux.Chat.Session.{Address, Session, get_addr_to_string, kcp_session}
use test_linux.Chat.Server.{
  Server, find, insert, name_of, join_line, notify, handle_connection, new_session, with_session,
}
use test_linux.Chat.Sending.{put-at, put-else, send_all-sent}
use test_linux.Chat.Room.{ids, Keyed, IsRoom}
use test_linux.Chat.Turns.{made, with_session-new, with_session-IsRoom}
use test_linux.Chat.Lines.{length-get_addr_to_string}

module _ {K : Type 0} (calls : KcpCalls K) (inet_ntoa decimal : ℕ → Bytes)
    (inbox sent : K → List Bytes) (laws : RoomLaws calls inbox sent)
    (dotted : (n : ℕ) → length (inet_ntoa n) ≤ 15)
    (digits : (n : ℕ) → n < 2 ^ 16 → length (decimal n) ≤ 5) where
  length-join_line : (a : Address) → length (join_line inet_ntoa decimal a) ≤ 8192
  unfolding join_line name_of
  length-join_line a = omega (
    arith,
    length-append (name_of inet_ntoa decimal a) (bytes_of "] join the ChatRoom!"),
    length-append (bytes_of "user from [") (get_addr_to_string inet_ntoa decimal a),
    length-get_addr_to_string inet_ntoa decimal dotted digits a,
  )

  -- What a session has been sent before it is told of the newcomer: nothing, if it is the newcomer.
  abbrev pub sent_before : Server K → ℕ → List Bytes
  sent_before s j = if s.created == j then [] else sent (s.memory j).kcp

  made-sent :
      (s : Server K) (conv : ℕ) (addr : Address) (j : ℕ)
      → sent (made calls inet_ntoa decimal s conv addr j).kcp ≡ sent_before s j
  unfolding made kcp_session
  made-sent s conv addr j = elim (eq-cases s.created j) [
    | inl e ↦
        ap (λ i. sent (made calls inet_ntoa decimal s conv addr i).kcp) (sym e)
        ∙ ap (λ (a : Session K). sent a.kcp)
            (put-at s.memory s.created (kcp_session calls (record s.kcp_opt { conv = conv }) addr))
        ∙ laws.sent_new conv s.kcp_opt.sndwnd s.kcp_opt.rcvwnd s.kcp_opt.nodelay s.kcp_opt.interval
            s.kcp_opt.resend s.kcp_opt.nc
        ∙ ap (λ b. if b then [] else sent (s.memory j).kcp) (sym (eq→== s.created j e))
    | inr ne ↦
        ap (λ (a : Session K). sent a.kcp)
          (put-else s.memory s.created j (kcp_session calls (record s.kcp_opt { conv = conv }) addr)
            ne)
        ∙ ap (λ b. if b then [] else sent (s.memory j).kcp) (sym (ne→== s.created j ne))
  ]

  new_session-sessions :
      (s : Server K) (conv : ℕ) (addr : Address)
      → (conv, s.created) ∷ (new_session calls inet_ntoa decimal s conv addr).sessions
        ≡ (conv, s.created) ∷ s.sessions
  unfolding new_session handle_connection notify
  new_session-sessions s conv addr = refl

  new_session-sent :
      (s : Server K) (conv : ℕ) (addr : Address) (j : ℕ)
      → sent ((new_session calls inet_ntoa decimal s conv addr).memory j).kcp
        ≡ sent_before s j
          ++ replicate
              (times ((new_session calls inet_ntoa decimal s conv addr).users) j)
              (join_line inet_ntoa decimal addr)
  unfolding new_session handle_connection notify made kcp_session
  new_session-sent s conv addr j =
      let memory = made calls inet_ntoa decimal s conv addr in
      let own =
        put-at s.memory s.created (kcp_session calls (record s.kcp_opt { conv = conv }) addr) in
      send_all-sent calls inbox sent laws (insert s.created s.users)
        (join_line inet_ntoa decimal (memory s.created).addr) memory j
        (length-join_line (memory s.created).addr)
      ∙ ap₂
          (λ (l : List Bytes) (a : Address).
            l ++ replicate (times (insert s.created s.users) j) (join_line inet_ntoa decimal a))
          (made-sent s conv addr j) (ap (λ (a : Session K). a.addr) own)

  -- Over a kcp library that keeps to its laws, with texts of at most 15 bytes for an address and 5
  -- for a port: in a sound room, a conv that the table does not hold gets a session made for it,
  -- which stands under it and is a user at once; the others stay users; every user, the newcomer
  -- too, is sent the line that it has joined, with its address, and nothing else; and the room
  -- stays sound.
  pub with_session-join :
      (s : Server K) (conv : ℕ) (addr : Address)
      → IsRoom s
      → find conv s.sessions ≡ none
      → let t = with_session calls inet_ntoa decimal s conv addr in
        IsRoom t
        × (t.sessions ≡ (conv, s.created) ∷ s.sessions)
        × ((t.memory s.created).kcp_opt.conv ≡ conv)
        × ((j : ℕ) → times t.users j ≡ times s.users j + (if s.created == j then 1 else 0))
        × ((j : ℕ)
            → sent (t.memory j).kcp
              ≡ sent_before s j ++ replicate (times t.users j) (join_line inet_ntoa decimal addr))
  with_session-join s conv addr room absent =
      let t = with_session calls inet_ntoa decimal s conv addr in
      let e = with_session-new calls inet_ntoa decimal s conv addr absent in
      let sound = with_session-IsRoom calls inet_ntoa decimal s conv addr room in
      let table : t.sessions ≡ (conv, s.created) ∷ s.sessions =
        ap (λ (t : Server K). t.sessions) e ∙ new_session-sessions s conv addr in
      (
        sound,
        table,
        (subst (λ (es : List (ℕ × ℕ)). Keyed t.memory es) table sound.keyed).0,
        λ j.
            sound.users_agree j
            ∙ ap (λ (es : List (ℕ × ℕ)). times (ids es) j) table
            ∙ (let same = room.users_agree j in ground arith),
        λ j.
            ap (λ (t : Server K). sent (t.memory j).kcp) e
            ∙ new_session-sent s conv addr j
            ∙ ap
                (λ (t : Server K).
                  sent_before s j ++ replicate (times t.users j) (join_line inet_ntoa decimal addr))
                (sym e),
      )
