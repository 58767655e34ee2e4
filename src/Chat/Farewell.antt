-- ===== src/Chat/Farewell.antt =====
-- What an update of the server sends to those who stay.
use test_linux.Base.{
  ℕ, suc, ◌+◌, ◌%◌, ◌^◌, ◌≤◌, ◌<◌, ◌≡◌, refl, ap, ap₂, sym, ◌∙◌, Bool, true, false, Bool-cases, inl,
  inr, List, [], ◌∷◌, ◌++◌, append_assoc, append-nil, ◌==◌, length, length-append, replicate, times,
  remove, times-remove, bytes_of, Bytes, if◌then◌else◌, arith,
}
use test_linux.Chat.Library.{KcpCalls, RoomLaws}
use test_linux.Chat.Session.{KcpOpt, Address, Session, get_addr_to_string, update, updated}
use test_linux.Chat.Server.{
  Memory, Server, name_of, left_line, notify, handle_close, update_one, offline, update_from,
  update_sessions,
}
use test_linux.Chat.Sending.{put-at, put-related, send_all-sent}
use test_linux.Chat.Room.{ids, IsRoom}
use test_linux.Chat.Walk.{update_sessions-IsRoom, update_one-users, updated_one}
use test_linux.Chat.Lines.{length-get_addr_to_string}
use test_linux.Chat.Timeouts.{
  is_late, stay, farewells, Serving, stay-ids, update-serving, Pending, Pending-offline,
  Pending-next, update_from-stay,
}

module _ {K : Type 0} (calls : KcpCalls K) (inet_ntoa decimal : ℕ → Bytes)
    (inbox sent : K → List Bytes) (laws : RoomLaws calls inbox sent)
    (dotted : (n : ℕ) → length (inet_ntoa n) ≤ 15)
    (digits : (n : ℕ) → n < 2 ^ 16 → length (decimal n) ≤ 5) where
  length-left_line : (a : Address) → length (left_line inet_ntoa decimal a) ≤ 8192
  unfolding left_line name_of
  length-left_line a = omega (
    arith,
    length-append (name_of inet_ntoa decimal a) (bytes_of "] left the ChatRoom!"),
    length-append (bytes_of "user from [") (get_addr_to_string inet_ntoa decimal a),
    length-get_addr_to_string inet_ntoa decimal dotted digits a,
  )

  updated_one-sent :
      (s : Server K) (id current : ℕ) (j : ℕ)
      → (s.memory id).kcp_opt.is_server ≡ true
      → sent ((updated_one calls inet_ntoa decimal s id current).memory j).kcp
        ≡ sent (s.memory j).kcp
  unfolding updated
  updated_one-sent s id current j serving =
      put-related (λ (a b : Session K). sent b.kcp ≡ sent a.kcp) (λ a. refl) s.memory id
        ((update calls (s.memory id) current).1.1)
        (ap (λ (a : Session K). sent a.kcp)
            (update-serving calls inet_ntoa decimal (s.memory id) current serving)
          ∙ laws.update_sent (s.memory id).kcp (current % 2 ^ 32))
        j

  -- A session other than the one that is updated.
  update_one-sent :
      (s : Server K) (id current j : ℕ)
      → (s.memory id).kcp_opt.is_server ≡ true
      → sent ((update_one calls inet_ntoa decimal s id current).memory j).kcp
        ≡ sent (s.memory j).kcp
          ++ (if offline calls inet_ntoa decimal s id current
              then replicate (times (remove id s.users) j) (
                  left_line inet_ntoa decimal
                    ((updated_one calls inet_ntoa decimal s id current).memory id).addr)
              else [])
  unfolding update_one offline handle_close notify
  update_one-sent s id current j serving =
      let t = updated_one calls inet_ntoa decimal s id current in
      let line = left_line inet_ntoa decimal (t.memory id).addr in
      let own = updated_one-sent s id current j serving in
      elim (Bool-cases (update calls (s.memory id) current).0) [
        | inl e ↦ rw e (
            send_all-sent calls inbox sent laws (remove id s.users) line t.memory j
              (length-left_line (t.memory id).addr)
            ∙ ap (λ (l : List Bytes). l ++ replicate (times (remove id s.users) j) line) own)
        | inr e ↦ rw e (own ∙ sym (append-nil (sent (s.memory j).kcp)))
      ]

  updated_one-addr :
      (s : Server K) (id current : ℕ)
      → (s.memory id).kcp_opt.is_server ≡ true
      → ((updated_one calls inet_ntoa decimal s id current).memory id).addr ≡ (s.memory id).addr
  unfolding updated
  updated_one-addr s id current serving =
      ap (λ (a : Session K). a.addr)
        (put-at s.memory id ((update calls (s.memory id) current).1.1)
          ∙ update-serving calls inet_ntoa decimal (s.memory id) current serving)

  -- The users still hold every entry behind the one that is walked.
  walk-users :
      (s : Server K) (conv id current : ℕ) (rest : List (ℕ × ℕ))
      → ((i : ℕ) → times (ids ((conv, id) ∷ rest)) i ≤ times s.users i)
      → (i : ℕ)
      → times (ids rest) i ≤ times ((update_one calls inet_ntoa decimal s id current).users) i
  walk-users s conv id current rest users i =
      let le = users i in
      let held : 0 < times s.users id = let here = users id in ground arith in
      let one = update_one-users calls inet_ntoa decimal s id current i held in
      elim (Bool-cases (offline calls inet_ntoa decimal s id current)) [
        | inl e ↦
            let at =
              one ∙ ap (λ b. times u.users i + (if b then (if id == i then 1 else 0) else 0)) e in
            ground arith
        | inr e ↦
            let at =
              one ∙ ap (λ b. times u.users i + (if b then (if id == i then 1 else 0) else 0)) e in
            ground arith
      ]
    where
      u : Server K
      u = update_one calls inet_ntoa decimal s id current

  -- A user who stays is still one after the entry, and is not the session of an entry that goes.
  walk-stays :
      (memory : Memory K) (now : ℕ → ℕ) (conv id : ℕ) (rest : List (ℕ × ℕ)) (s : Server K) (j : ℕ)
      → offline calls inet_ntoa decimal s id (now 0) ≡ is_late (now 0) (memory id)
      → 0 < times s.users id
      → times s.users j ≡ 1
      → times (ids (stay now memory ((conv, id) ∷ rest))) j ≡ times (ids ((conv, id) ∷ rest)) j
      → (times ((update_one calls inet_ntoa decimal s id (now 0)).users) j ≡ 1)
        × (times (ids (stay (λ i. now (suc i)) memory rest)) j ≡ times (ids rest) j)
        × (is_late (now 0) (memory id) ≡ true → times (remove id s.users) j ≡ 1)
  walk-stays memory now conv id rest s j off held one stays =
      let counted = update_one-users calls inet_ntoa decimal s id (now 0) j held in
      let less = stay-ids (λ i. now (suc i)) memory rest j in
      let out = times-remove id s.users j held in
      elim (Bool-cases (is_late (now 0) (memory id))) [
        | inl e ↦
            let st = ap (λ (b : Bool). times (ids (left b)) j) (sym e) ∙ stays in
            let go = ap (λ (b : Bool). gone b) (off ∙ e) in
            (ground arith, ground arith, (λ _. ground arith))
        | inr e ↦
            let st = ap (λ (b : Bool). times (ids (left b)) j) (sym e) ∙ stays in
            let go = ap (λ (b : Bool). gone b) (off ∙ e) in (ground arith, ground arith, (λ e'. cc))
      ]
    where
      left : Bool → List (ℕ × ℕ)
      left b =
          let kept = stay (λ i. now (suc i)) memory rest in if b then kept else (conv, id) ∷ kept

      gone : Bool → ℕ
      gone b = if b then (if id == j then 1 else 0) else 0

  -- What the entry's turn sends to a user who stays.
  walk-sent :
      (memory : Memory K) (s : Server K) (id current j : ℕ)
      → offline calls inet_ntoa decimal s id current ≡ is_late current (memory id)
      → (s.memory id).kcp_opt.is_server ≡ true
      → (s.memory id).addr ≡ (memory id).addr
      → (is_late current (memory id) ≡ true → times (remove id s.users) j ≡ 1)
      → sent ((update_one calls inet_ntoa decimal s id current).memory j).kcp
        ≡ sent (s.memory j).kcp
          ++ (if is_late current (memory id)
              then left_line inet_ntoa decimal (memory id).addr ∷ []
              else [])
  walk-sent memory s id current j off serving addr stays =
      update_one-sent s id current j serving
      ∙ ap₂ (λ (b : Bool) (a : Address). tell b (times (remove id s.users) j) a) off
          (updated_one-addr s id current serving ∙ addr)
      ∙ counts (is_late current (memory id)) stays
    where
      tell : Bool → ℕ → Address → List Bytes
      tell b n a =
          sent (s.memory j).kcp ++ (if b then replicate n (left_line inet_ntoa decimal a) else [])

      counts :
          (b : Bool)
          → (b ≡ true → times (remove id s.users) j ≡ 1)
          → tell b (times (remove id s.users) j) (memory id).addr ≡ tell b 1 (memory id).addr
      counts true h = ap (λ n. tell true n (memory id).addr) (h refl)
      counts false h = refl

  -- A user who stays hears of each that leaves.
  update_from-farewells :
      (memory : Memory K) (now : ℕ → ℕ) (es : List (ℕ × ℕ)) (s : Server K) (j : ℕ)
      → Pending calls inet_ntoa decimal memory es s
      → ((i : ℕ) → times (ids es) i ≤ times s.users i)
      → times s.users j ≡ 1
      → times (ids (stay now memory es)) j ≡ times (ids es) j
      → sent ((update_from calls inet_ntoa decimal now es s).1.memory j).kcp
        ≡ sent (s.memory j).kcp ++ farewells inet_ntoa decimal now memory es
  unfolding update_from
  update_from-farewells memory now [] s j pending users one stays =
      sym (append-nil (sent (s.memory j).kcp))
  update_from-farewells memory now ((conv, id) ∷ rest) s j pending users one stays =
      let here : 0 < times (ids ((conv, id) ∷ rest)) id = ground arith in
      let still = pending.1 id here in
      let off = Pending-offline calls inet_ntoa decimal memory conv id (now 0) rest s pending in
      let held : 0 < times s.users id = let le = users id in ground arith in
      let (one', stays', kept) = walk-stays memory now conv id rest s j off held one stays in
      update_from-farewells memory (λ i. now (suc i)) rest
        (update_one calls inet_ntoa decimal s id (now 0)) j
        (Pending-next calls inet_ntoa decimal memory conv id (now 0) rest s pending)
        (walk-users s conv id (now 0) rest users) one' stays'
      ∙ ap (λ (l : List Bytes). l ++ others)
          (walk-sent memory s id (now 0) j off
            (ap (λ (o : KcpOpt). o.is_server) still.0 ∙ pending.2 id here) still.1 kept)
      ∙ append_assoc (sent (s.memory j).kcp) (told (is_late (now 0) (memory id))) others
      ∙ ap (λ (l : List Bytes). sent (s.memory j).kcp ++ l) (shape (is_late (now 0) (memory id)))
    where
      others : List Bytes
      others = farewells inet_ntoa decimal (λ i. now (suc i)) memory rest

      told : Bool → List Bytes
      told b = if b then left_line inet_ntoa decimal (memory id).addr ∷ [] else []

      shape :
          (b : Bool)
          → told b ++ others
            ≡ (if b then left_line inet_ntoa decimal (memory id).addr ∷ others else others)
      shape true = refl
      shape false = refl

  -- Over a kcp library that keeps to its laws, with texts of at most 15 bytes for an address and 5
  -- for a port: in a sound room of a server's sessions, an update drops from the table exactly the
  -- sessions that were heard of but not within their timeout, at the reading of the clock for each;
  -- the users are those who stay; and each who stays is sent one line for each that left, in the
  -- order of the table, and nothing else.
  pub update_sessions-farewells :
      (now : ℕ → ℕ) (s : Server K)
      → IsRoom s
      → Serving s.memory s.sessions
      → let t = update_sessions calls inet_ntoa decimal now s in
        let left = stay now s.memory s.sessions in
        (t.sessions ≡ left)
        × ((j : ℕ) → times t.users j ≡ times (ids left) j)
        × ((j : ℕ)
            → times (ids left) j ≡ 1
            → sent (t.memory j).kcp
              ≡ sent (s.memory j).kcp ++ farewells inet_ntoa decimal now s.memory s.sessions)
  unfolding update_sessions
  update_sessions-farewells now s room serving =
      let pending : Pending calls inet_ntoa decimal s.memory s.sessions s =
        (room.ids_once, λ j h. (refl, refl, refl), serving) in
      let kept = update_from-stay calls inet_ntoa decimal s.memory now s.sessions s pending in
      let after = update_sessions-IsRoom calls inet_ntoa decimal now s room in
      (
        kept,
        λ j. after.users_agree j ∙ ap (λ (es : List (ℕ × ℕ)). times (ids es) j) kept,
        λ j one.
            let all : times (ids s.sessions) j ≡ 1 =
              omega (arith, room.ids_once j, stay-ids now s.memory s.sessions j) in
            update_from-farewells s.memory now s.sessions s j pending
              (λ i. omega (arith, room.users_agree i)) (room.users_agree j ∙ all) (one ∙ sym all),
      )
