-- ===== src/Chat/Ends.antt =====
-- That every turn of the server keeps the room: joining, messages and updates.
use test_linux.Base.{
  ℕ, zero, suc, ◌≤◌, ◌<◌, ◌≡◌, refl, ap, sym, subst, ◌∙◌, Bool, true, false, Bool-cases, inl, inr,
  Option, none, some, List, [], ◌∷◌, ◌++◌, length, take, drop, Run, ok, fault, out_of_fuel, Bytes,
  ℤ, pos, negsuc, arith,
}
use test_linux.Chat.Library.{KcpCalls, RoomLaws}
use test_linux.Chat.Receive.{
  is_keep_alive, read, alive, emptied, after_next, after_next-buf, after_next-inbox, receive-none,
  receive-big, receive-empty, receive-next, slice-front,
}
use test_linux.Chat.Session.{Address, input, set_keep_alive}
use test_linux.Chat.Server.{
  Server, put, find, notify, handle_connection, new_session, with_session, same_address,
  get_session, receive, handle_session, body_size,
}
use native.Mathlib.Decide.{dec_le}
use test_linux.Chat.Turns.{
  handle_message-IsRoom, put-IsRoom, with_session-IsRoom, with_session-known, with_session-new,
  find-cases,
}
use test_linux.Chat.Room.{IsRoom}

-- The users are the sessions, and the buffer has its size.
pub record IsSound {K : Type 0} (s : Server K) : Type 0 where
  pub room : IsRoom s
  pub sized : length s.buf ≡ body_size

-- A turn comes to its end, without a fault and on the fuel given: the process has exited, or P holds.
abbrev pub Ends : {K : Type 0} → (Server K → Type 0) → Run (Option (Server K)) → Type 0
Ends P fault = ⊥
Ends P out_of_fuel = ⊥
Ends P (ok none) = Unit
Ends P (ok (some t)) = P t

module _ {K : Type 0} (calls : KcpCalls K) (inet_ntoa decimal : ℕ → Bytes)
    (inbox sent : K → List Bytes) (laws : RoomLaws calls inbox sent) where
  alive-IsRoom : (s : Server K) (id current : ℕ) → IsRoom s → IsRoom (alive calls s id current)
  unfolding alive set_keep_alive
  alive-IsRoom s id current room =
      put-IsRoom calls inet_ntoa decimal s id (set_keep_alive (s.memory id) current) s.buf refl room

  after_next-IsSound :
      (s : Server K) (id current : ℕ) (m : Bytes) (b : Bool)
      → length m ≤ body_size
      → IsSound s
      → IsSound (after_next calls inet_ntoa decimal inbox sent laws s id current m b)
  after_next-IsSound s id current m b fits sound = record {
    room = go b;
    sized =
        after_next-buf calls inet_ntoa decimal inbox sent laws s id current m b
          (omega (arith, sound.sized))
        ∙ sound.sized;
  }
    where
      here : IsRoom (read calls s id m)
      here =
          put-IsRoom calls inet_ntoa decimal s id (emptied calls (s.memory id))
            (m ++ drop (length m) s.buf) refl sound.room

      go : (b : Bool) → IsRoom (after_next calls inet_ntoa decimal inbox sent laws s id current m b)
      go true = alive-IsRoom (read calls s id m) id current here
      go false = handle_message-IsRoom calls inet_ntoa decimal (read calls s id m) id m here

  receive-Ends :
      (n : ℕ) (now : ℕ → ℕ) (id : ℕ) (s : Server K)
      → length (inbox (s.memory id).kcp) < n
      → IsSound s
      → Ends IsSound (receive calls inet_ntoa decimal n now id s)
  receive-Ends zero now id s enough sound = absurd (omega arith)
  receive-Ends (suc n) now id s enough sound =
      go (λ t. receive-Ends n (λ i. now (suc i)) id t) (inbox (s.memory id).kcp) refl
    where
      -- The loop ends with this message.
      last : IsSound (read calls s id [])
      last = record {
        room =
            put-IsRoom calls inet_ntoa decimal s id (emptied calls (s.memory id)) s.buf refl
              sound.room;
        sized = sound.sized;
      }

      shorter : (m : Bytes) (ms : List Bytes) → length (m ∷ ms) < suc n → length ms < n
      shorter m ms h = omega arith

      next :
          ((t : Server K)
            → length (inbox (t.memory id).kcp) < n
            → IsSound t
            → Ends IsSound (receive calls inet_ntoa decimal n (λ i. now (suc i)) id t))
          → (m : Bytes) (ms : List Bytes) → inbox (s.memory id).kcp ≡ m ∷ ms
          → length m ≤ body_size
          → Ends IsSound (receive calls inet_ntoa decimal (suc n) now id s)
      next again [] ms e fits =
          subst (Ends IsSound)
            (sym (receive-empty calls inet_ntoa decimal inbox sent laws n now id s ms e)) last
      next again (c ∷ m) ms e fits =
          let b = is_keep_alive calls ((read calls s id (c ∷ m)).buf) in
          let left =
            after_next-inbox calls inet_ntoa decimal inbox sent laws s id (now 0) (c ∷ m) ms b e
              fits in
          subst (Ends IsSound)
            (sym (
              receive-next calls inet_ntoa decimal inbox sent laws n now id s c m ms e fits
                sound.sized))
            (again (after_next calls inet_ntoa decimal inbox sent laws s id (now 0) (c ∷ m) b)
              (subst (λ l. length l < n) (sym left)
                (shorter (c ∷ m) ms (subst (λ l. length l < suc n) e enough)))
              (after_next-IsSound s id (now 0) (c ∷ m) b fits sound))

      go :
          ((t : Server K)
            → length (inbox (t.memory id).kcp) < n
            → IsSound t
            → Ends IsSound (receive calls inet_ntoa decimal n (λ i. now (suc i)) id t))
          → (ms : List Bytes) → inbox (s.memory id).kcp ≡ ms
          → Ends IsSound (receive calls inet_ntoa decimal (suc n) now id s)
      go again [] e =
          subst (Ends IsSound)
            (sym (receive-none calls inet_ntoa decimal inbox sent laws n now id s e)) last
      go again (m ∷ ms) e = elim (dec_le (length m) body_size) [
        | no big ↦
            subst (Ends IsSound)
              (sym (
                receive-big calls inet_ntoa decimal inbox sent laws n now id s m ms e
                  (omega arith)))
              tt
        | yes fits ↦ next again m ms e fits
      ]

module _ {K : Type 0} (calls : KcpCalls K) (inet_ntoa decimal : ℕ → Bytes)
    (inbox sent : K → List Bytes) (laws : RoomLaws calls inbox sent) (window : ℕ)
    (bounded : (k : K) → length (inbox k) ≤ window) where
  pub handle_session-Ends :
      (n : ℕ) (now : ℕ → ℕ) (id len : ℕ) (s : Server K)
      → window < n
      → len ≤ length s.buf
      → IsSound s
      → Ends IsSound (handle_session calls inet_ntoa decimal n now id len s)
  unfolding handle_session input
  handle_session-Ends n now id len s enough inside sound =
      rw (slice-front s.buf len inside) (go ((calls.input (s.memory id).kcp (take len s.buf)).0))
    where
      t : Server K
      t = record s {
        memory =
            put s.memory id
              (record (s.memory id) { kcp = (calls.input (s.memory id).kcp (take len s.buf)).1 });
      }

      t-IsSound : IsSound t
      t-IsSound = record {
        room =
            put-IsRoom calls inet_ntoa decimal s id
              (record (s.memory id) { kcp = (calls.input (s.memory id).kcp (take len s.buf)).1 })
              s.buf refl sound.room;
        sized = sound.sized;
      }

      go :
          (ret : ℤ)
          → Ends {K = K} IsSound (elim ret [
            | pos zero ↦ receive calls inet_ntoa decimal n now id t
            | pos (suc m) ↦ ok (some t)
            | negsuc m ↦ ok (some t)
          ])
      go (pos zero) =
          receive-Ends calls inet_ntoa decimal inbox sent laws n now id t
            (omega (arith, bounded (t.memory id).kcp)) t-IsSound
      go (pos (suc m)) = t-IsSound
      go (negsuc m) = t-IsSound

  -- The session of a conv is found after it has been looked for.
  with_session-find :
      (s : Server K) (conv : ℕ) (addr : Address)
      → (id : ℕ) × (find conv ((with_session calls inet_ntoa decimal s conv addr).sessions)
          ≡ some id)
  with_session-find s conv addr = elim (find-cases conv s.sessions) [
    | inl (id, e) ↦ (
      id,
      ap (λ (t : Server K). find conv t.sessions)
            (with_session-known calls inet_ntoa decimal s conv addr id e)
          ∙ e,
    )
    | inr e ↦ (
      s.created,
      ap (λ (t : Server K). find conv t.sessions)
            (with_session-new calls inet_ntoa decimal s conv addr e)
          ∙ ground arith,
    )
  ]

  with_session-buf :
      (s : Server K) (conv : ℕ) (addr : Address)
      → (with_session calls inet_ntoa decimal s conv addr).buf ≡ s.buf
  unfolding new_session handle_connection notify
  with_session-buf s conv addr = elim (find-cases conv s.sessions) [
    | inl (id, e) ↦
        ap (λ (t : Server K). t.buf) (with_session-known calls inet_ntoa decimal s conv addr id e)
    | inr e ↦ ap (λ (t : Server K). t.buf) (with_session-new calls inet_ntoa decimal s conv addr e)
  ]

  -- A session is at hand, the room is sound, and the buffer is as it was.
  pub get_session-IsSound :
      (s : Server K) (conv : ℕ) (addr : Address)
      → IsSound s
      → (id : ℕ) × (t : Server K) × (get_session calls inet_ntoa decimal s conv addr ≡ ok (id, t))
        × IsSound t
        × (t.buf ≡ s.buf)
  unfolding get_session
  get_session-IsSound s conv addr sound =
      let t = with_session calls inet_ntoa decimal s conv addr in
      let (id, e) = with_session-find s conv addr in
      let same_buf = with_session-buf s conv addr in
      let room = with_session-IsRoom calls inet_ntoa decimal s conv addr sound.room in
      let moved =
        put-IsRoom calls inet_ntoa decimal t id (record (t.memory id) { addr = addr }) t.buf refl
          room in
      elim (Bool-cases (same_address (t.memory id).addr addr)) [
        | inl b ↦ (
          id,
          t,
          rw e (rw b refl),
          record { room = room; sized = ap length same_buf ∙ sound.sized },
          same_buf,
        )
        | inr b ↦ (
          id,
          record t { memory = put t.memory id (record (t.memory id) { addr = addr }) },
          rw e (rw b refl),
          record { room = moved; sized = ap length same_buf ∙ sound.sized },
          same_buf,
        )
      ]
