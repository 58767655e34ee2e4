-- ===== src/Chat/Broadcast.antt =====
-- What the users of the room are sent when a session's messages are read.
use test_linux.Base.{
  ℕ, zero, suc, ◌^◌, ◌≤◌, ◌<◌, ◌≡◌, ◌⊎◌, refl, ap, ap₂, sym, subst, ◌∙◌, Bool, true, false, inl,
  inr, some, List, [], ◌∷◌, ◌++◌, append_assoc, append-nil, length, drop, replicate, times, ok,
  Bytes, begins, departs, same-begins, same-departs, if◌then◌else◌, arith,
}
use test_linux.Chat.Library.{KcpCalls, RoomLaws}
use test_linux.Chat.Session.{Address, Session, keep_alive_cmd, set_keep_alive}
use test_linux.Chat.Server.{Server, body_size, message_line, notify, handle_message, receive}
use test_linux.Chat.Sending.{put-at, put-related, Still, notify-Still, send_all-sent}
use test_linux.Chat.Receive.{
  emptied, read, is_keep_alive, alive, after_next, after_next-inbox, after_next-buf, receive-none,
  receive-empty, receive-next,
}
use test_linux.Chat.Lines.{
  texts, latest, Clear, taken, lines_of, taken-cons, taken-none, length-message_line,
}

module _ {K : Type 0} (calls : KcpCalls K) (inet_ntoa decimal : ℕ → Bytes)
    (inbox sent : K → List Bytes) (laws : RoomLaws calls inbox sent)
    (dotted : (n : ℕ) → length (inet_ntoa n) ≤ 15)
    (digits : (n : ℕ) → n < 2 ^ 16 → length (decimal n) ≤ 5) where
  -- A message that has been read changes no other field of a session.
  read-Still :
      (s : Server K) (id : ℕ) (m : Bytes) (j : ℕ)
      → Still (s.memory j) ((read calls s id m).memory j)
  read-Still s id m =
      put-related Still (λ s. (refl, refl, refl)) s.memory id (emptied calls (s.memory id))
        (refl, refl, refl)

  read-sent :
      (s : Server K) (id : ℕ) (m : Bytes) (j : ℕ)
      → sent ((read calls s id m).memory j).kcp ≡ sent (s.memory j).kcp
  read-sent s id m =
      put-related (λ (a b : Session K). sent b.kcp ≡ sent a.kcp) (λ a. refl) s.memory id
        (emptied calls (s.memory id)) (laws.recv_sent (s.memory id).kcp body_size)

  -- What the next message does to the room.
  after_next-sent :
      (s : Server K) (id current : ℕ) (m : Bytes) (b : Bool) (j : ℕ)
      → length m ≤ body_size
      → sent ((after_next calls inet_ntoa decimal inbox sent laws s id current m b).memory j).kcp
        ≡ sent (s.memory j).kcp
          ++ (if b
              then []
              else replicate
                  (times s.users j)
                  (message_line inet_ntoa decimal (s.memory id).addr m))
  unfolding alive set_keep_alive handle_message notify
  after_next-sent s id current m true j fits =
      put-related (λ (a b : Session K). sent b.kcp ≡ sent a.kcp) (λ a. refl)
        ((read calls s id m).memory) id (set_keep_alive ((read calls s id m).memory id) current)
        refl j
      ∙ read-sent s id m j
      ∙ sym (append-nil (sent (s.memory j).kcp))
  after_next-sent s id current m false j fits =
      let a = ((read calls s id m).memory id).addr in
      send_all-sent calls inbox sent laws s.users (message_line inet_ntoa decimal a m)
        ((read calls s id m).memory) j
        (length-message_line inet_ntoa decimal dotted digits a m fits)
      ∙ ap₂
          (λ (l : List Bytes) (a : Address).
            l ++ replicate (times s.users j) (message_line inet_ntoa decimal a m))
          (read-sent s id m j) ((read-Still s id m id).1)

  after_next-session :
      (s : Server K) (id current : ℕ) (m : Bytes) (b : Bool)
      → let t = after_next calls inet_ntoa decimal inbox sent laws s id current m b in
        ((t.memory id).addr ≡ (s.memory id).addr)
        × ((t.memory id).recv_latest_time ≡ (if b then current else (s.memory id).recv_latest_time))
        × (t.users ≡ s.users)
        × (t.sessions ≡ s.sessions)
  unfolding alive set_keep_alive handle_message notify
  after_next-session s id current m true =
      let hit =
        put-at ((read calls s id m).memory) id
          (set_keep_alive ((read calls s id m).memory id) current) in
      (
        ap (λ (a : Session K). a.addr) hit ∙ (read-Still s id m id).1,
        ap (λ (a : Session K). a.recv_latest_time) hit,
        refl,
        refl,
      )
  after_next-session s id current m false =
      let still =
        notify-Still calls (read calls s id m)
          (message_line inet_ntoa decimal ((read calls s id m).memory id).addr m) id in
      let before = read-Still s id m id in (still.1 ∙ before.1, still.2 ∙ before.2, refl, refl)

  -- A message that is clear is taken for a keep-alive when it is one.
  is_keep_alive-begins :
      (s : Server K) (id : ℕ) (m : Bytes)
      → (begins keep_alive_cmd m ≡ true)
        ⊎ ((begins keep_alive_cmd m ≡ false) × (departs keep_alive_cmd m ≡ true))
      → is_keep_alive calls ((read calls s id m).buf) ≡ begins keep_alive_cmd m
  is_keep_alive-begins s id m (inl e) =
      same-begins keep_alive_cmd m (drop (length m) s.buf) e ∙ sym e
  is_keep_alive-begins s id m (inr (e, d)) =
      same-departs keep_alive_cmd m (drop (length m) s.buf) d ∙ sym e

  -- What is handed on as a keep-alive or as a line comes to the lines of the texts.
  taken-next :
      (k : ℕ) (a : Address) (c : ℕ) (m : Bytes) (ms : List Bytes) (b : Bool)
      → k ≤ 1
      → begins keep_alive_cmd (c ∷ m) ≡ b
      → (if b then [] else replicate k (message_line inet_ntoa decimal a (c ∷ m)))
          ++ taken k (lines_of inet_ntoa decimal a (texts ms))
        ≡ taken k (lines_of inet_ntoa decimal a (texts ((c ∷ m) ∷ ms)))
  taken-next k a c m ms true le e = rw (texts, e) refl
  taken-next k a c m ms false le e =
      rw (texts, e)
        (taken-cons k (message_line inet_ntoa decimal a (c ∷ m))
          (lines_of inet_ntoa decimal a (texts ms)) le)

  pub receive-broadcast :
      (n : ℕ) (now : ℕ → ℕ) (id : ℕ) (s : Server K) (ms : List Bytes)
      → length ms < n
      → inbox (s.memory id).kcp ≡ ms
      → Clear ms
      → length s.buf ≡ body_size
      → ((j : ℕ) → times s.users j ≤ 1)
      → (t : Server K) × (receive calls inet_ntoa decimal n now id s ≡ ok (some t))
        × (t.users ≡ s.users)
        × (t.sessions ≡ s.sessions)
        × ((t.memory id).recv_latest_time ≡ latest now ms (s.memory id).recv_latest_time)
        × ((j : ℕ)
            → sent (t.memory j).kcp
              ≡ sent (s.memory j).kcp
                ++ taken
                    (times s.users j)
                    (lines_of inet_ntoa decimal (s.memory id).addr (texts ms)))
  receive-broadcast zero now id s ms enough e clear sized once = absurd (omega arith)
  receive-broadcast (suc n) now id s [] enough e clear sized once = (
    read calls s id [],
    receive-none calls inet_ntoa decimal inbox sent laws n now id s e,
    refl,
    refl,
    (read-Still s id [] id).2,
    λ j. read-sent s id [] j ∙ sym (taken-none (times s.users j) (sent (s.memory j).kcp)),
  )
  receive-broadcast (suc n) now id s ([] ∷ ms) enough e clear sized once = (
    read calls s id [],
    receive-empty calls inet_ntoa decimal inbox sent laws n now id s ms e,
    refl,
    refl,
    (read-Still s id [] id).2,
    λ j. read-sent s id [] j ∙ sym (taken-none (times s.users j) (sent (s.memory j).kcp)),
  )
  receive-broadcast (suc n) now id s ((c ∷ m) ∷ ms) enough e clear sized once =
      let b = begins keep_alive_cmd (c ∷ m) in
      let u = after_next calls inet_ntoa decimal inbox sent laws s id (now 0) (c ∷ m) b in
      let (addr, heard, users, sessions) = after_next-session s id (now 0) (c ∷ m) b in
      let (t, runs, users', sessions', heard', sent') =
        receive-broadcast n (λ i. now (suc i)) id u ms (omega arith)
          (after_next-inbox calls inet_ntoa decimal inbox sent laws s id (now 0) (c ∷ m) ms b e
            clear.0)
          clear.2
          (after_next-buf calls inet_ntoa decimal inbox sent laws s id (now 0) (c ∷ m) b
              (omega (arith, clear.0))
            ∙ sized)
          (λ j. subst (λ (l : List ℕ). times l j ≤ 1) (sym users) (once j)) in
      (
        t,
        receive-next calls inet_ntoa decimal inbox sent laws n now id s c m ms e clear.0 sized
            ∙ ap
                (λ (b : Bool).
                  receive calls inet_ntoa decimal n (λ i. now (suc i)) id
                    (after_next calls inet_ntoa decimal inbox sent laws s id (now 0) (c ∷ m) b))
                (is_keep_alive-begins s id (c ∷ m) clear.1)
            ∙ runs,
        users' ∙ users,
        sessions' ∙ sessions,
        heard' ∙ ap (latest (λ i. now (suc i)) ms) heard,
        λ j.
            sent' j
            ∙ ap₂
                (λ (l : List ℕ) (a : Address).
                  sent (u.memory j).kcp
                  ++ taken (times l j) (lines_of inet_ntoa decimal a (texts ms)))
                users addr
            ∙ ap
                (λ (l : List Bytes).
                  l
                  ++ taken (times s.users j)
                      (lines_of inet_ntoa decimal (s.memory id).addr (texts ms)))
                (after_next-sent s id (now 0) (c ∷ m) b j clear.0)
            ∙ append_assoc (sent (s.memory j).kcp)
                (if b
                  then []
                  else replicate (times s.users j)
                      (message_line inet_ntoa decimal (s.memory id).addr (c ∷ m)))
                (taken (times s.users j) (lines_of inet_ntoa decimal (s.memory id).addr (texts ms)))
            ∙ ap (λ (l : List Bytes). sent (s.memory j).kcp ++ l)
                (taken-next (times s.users j) (s.memory id).addr c m ms b (once j) refl),
      )
