-- ===== src/Chat/Turns.antt =====
-- That every turn of the server keeps the room: joining, messages and updates.
use test_linux.Base.{
  ℕ, suc, ◌≤◌, ◌<◌, ◌≡◌, ◌≢◌, refl, ap, sym, subst, ◌∙◌, Bool-cases, ◌⊎◌, inl, inr, none, some,
  List, [], ◌∷◌, ◌==◌, times, Bytes, same, arith,
}
use test_linux.Chat.Library.{KcpCalls}
use test_linux.Chat.Session.{KcpOpt, Address, Session, kcp_session}
use test_linux.Chat.Server.{
  Memory, Server, put, find, insert, notify, join_line, message_line, handle_message,
  handle_connection, new_session, with_session,
}
use test_linux.Chat.Sending.{put-at, put-else, put-related, notify-Still}
use test_linux.Chat.Room.{ids, convs, Keyed, IsRoom, SameOpts, SameOpts-Keyed}

pub find-none : (conv : ℕ) (es : List (ℕ × ℕ)) → find conv es ≡ none → times (convs es) conv ≡ 0
find-none conv [] e = refl
find-none conv ((c, id) ∷ rest) e = ground (arith, find-none conv rest)

pub find-cases :
    (conv : ℕ) (es : List (ℕ × ℕ)) → ((id : ℕ) × (find conv es ≡ some id)) ⊎ (find conv es ≡ none)
find-cases conv [] = inr refl
find-cases conv ((c, id) ∷ rest) = elim (Bool-cases (c == conv)) [
  | inl e ↦ inl (id, rw (e, find) refl)
  | inr e ↦ rw (e, find) (find-cases conv rest)
]

-- Each object in the table as before.
Keyed-new :
    {K : Type 0} (memory after : Memory K) (es : List (ℕ × ℕ))
    → ((j : ℕ) → 0 < times (ids es) j → (after j).kcp_opt ≡ (memory j).kcp_opt)
    → Keyed memory es
    → Keyed after es
Keyed-new memory after [] same keyed = tt
Keyed-new memory after ((conv, id) ∷ rest) same keyed = (
  ap (λ (o : KcpOpt). o.conv) (same id (ground arith)) ∙ keyed.0,
  Keyed-new memory after rest (λ j h. same j (ground arith)) keyed.1,
)

-- What the room depends on.
pub IsRoom-same :
    {K : Type 0} (s t : Server K)
    → t.users ≡ s.users
    → t.sessions ≡ s.sessions
    → t.created ≡ s.created
    → SameOpts s.memory t.memory
    → IsRoom s
    → IsRoom t
IsRoom-same s t users sessions created opts room = record {
  users_agree = λ j.
      ap (λ u. times u j) users ∙ room.users_agree j ∙ ap (λ e. times (ids e) j) (sym sessions);
  ids_once = λ j. subst (λ e. times (ids e) j ≤ 1) (sym sessions) (room.ids_once j);
  convs_once = λ c. subst (λ e. times (convs e) c ≤ 1) (sym sessions) (room.convs_once c);
  ids_below =
      λ j h. ap (λ e. times (ids e) j) sessions ∙ room.ids_below j (subst (λ n. n ≤ j) created h);
  keyed =
      subst (λ e. Keyed t.memory e) (sym sessions)
        (SameOpts-Keyed s.memory t.memory s.sessions opts room.keyed);
}

module _ {K : Type 0} (calls : KcpCalls K) (inet_ntoa decimal : ℕ → Bytes) where
  pub handle_message-IsRoom :
      (s : Server K) (id : ℕ) (msg : Bytes)
      → IsRoom s
      → IsRoom (handle_message calls inet_ntoa decimal s id msg)
  unfolding handle_message notify
  handle_message-IsRoom s id msg =
      IsRoom-same s (handle_message calls inet_ntoa decimal s id msg) refl refl refl
        (λ j. (notify-Still calls s (message_line inet_ntoa decimal (s.memory id).addr msg) j).0)

  -- An object overwritten by one with its options.
  pub put-IsRoom :
      (s : Server K) (id : ℕ) (a : Session K) (buf : Bytes)
      → a.kcp_opt ≡ (s.memory id).kcp_opt
      → IsRoom s
      → IsRoom (record s { memory = put s.memory id a; buf = buf })
  put-IsRoom s id a buf h =
      IsRoom-same s (record s { memory = put s.memory id a; buf = buf }) refl refl refl
        (put-related (λ (a b : Session K). b.kcp_opt ≡ a.kcp_opt) (λ a. refl) s.memory id a h)

  unfoldable pub made : Server K → (conv : ℕ) → Address → Memory K
  made s conv addr =
      put s.memory s.created (kcp_session calls (record s.kcp_opt { conv = conv }) addr)

  pub made-own :
      (s : Server K) (conv : ℕ) (addr : Address)
      → (made s conv addr s.created).kcp_opt ≡ record s.kcp_opt { conv = conv }
  unfolding made kcp_session
  made-own s conv addr =
      ap (λ (a : Session K). a.kcp_opt)
        (put-at s.memory s.created (kcp_session calls (record s.kcp_opt { conv = conv }) addr))

  made-old :
      (s : Server K) (conv : ℕ) (addr : Address) (j : ℕ)
      → s.created ≢ j
      → (made s conv addr j).kcp_opt ≡ (s.memory j).kcp_opt
  unfolding made
  made-old s conv addr j ne =
      ap (λ (a : Session K). a.kcp_opt)
        (put-else s.memory s.created j (kcp_session calls (record s.kcp_opt { conv = conv }) addr)
          ne)

  new_session-opts :
      (s : Server K) (conv : ℕ) (addr : Address) (j : ℕ)
      → ((new_session calls inet_ntoa decimal s conv addr).memory j).kcp_opt
        ≡ (made s conv addr j).kcp_opt
  unfolding new_session handle_connection notify made
  new_session-opts s conv addr j =
      (notify-Still calls
        (record s {
          memory = made s conv addr;
          created = suc s.created;
          users = insert s.created s.users;
        })
        (join_line inet_ntoa decimal (made s conv addr s.created).addr) j).0

  -- A new session is a new user.
  new_session-IsRoom :
      (s : Server K) (conv : ℕ) (addr : Address)
      → IsRoom s
      → times (convs s.sessions) conv ≡ 0
      → IsRoom (record (new_session calls inet_ntoa decimal s conv addr) {
        sessions = (conv, s.created) ∷ (new_session calls inet_ntoa decimal s conv addr).sessions;
      })
  unfolding new_session handle_connection notify
  new_session-IsRoom s conv addr room absent = record {
    users_agree = λ j.
        let h = room.users_agree j in
        let h' = room.users_agree s.created in
        ground (arith, room.ids_below s.created (omega arith));
    ids_once =
        λ j. let h = room.ids_once j in ground (arith, room.ids_below s.created (omega arith));
    convs_once = λ c. let h = room.convs_once c in ground arith;
    ids_below = λ j h. let h' = room.ids_below j (omega arith) in ground arith;
    keyed = (
      ap (λ (o : KcpOpt). o.conv) (new_session-opts s conv addr s.created ∙ made-own s conv addr),
      Keyed-new s.memory (new_session calls inet_ntoa decimal s conv addr).memory s.sessions
          (λ j h.
            let below = room.ids_below s.created (omega arith) in
            new_session-opts s conv addr j ∙ made-old s conv addr j (other j h below))
          room.keyed,
    );
  }
    where
      other :
          (j : ℕ)
          → 0 < times (ids s.sessions) j
          → times (ids s.sessions) s.created ≡ 0
          → s.created ≢ j
      other j h below e =
          let here : times (ids s.sessions) j ≡ 0 =
            subst (λ i. times (ids s.sessions) i ≡ 0) e below in
          omega arith

  pub with_session-known :
      (s : Server K) (conv : ℕ) (addr : Address) (id : ℕ)
      → find conv s.sessions ≡ some id
      → with_session calls inet_ntoa decimal s conv addr ≡ s
  unfolding with_session
  with_session-known s conv addr id e = rw (e, with_session) refl

  pub with_session-new :
      (s : Server K) (conv : ℕ) (addr : Address)
      → find conv s.sessions ≡ none
      → with_session calls inet_ntoa decimal s conv addr
        ≡ record (new_session calls inet_ntoa decimal s conv addr) {
          sessions = (conv, s.created) ∷ (new_session calls inet_ntoa decimal s conv addr).sessions;
        }
  unfolding with_session
  with_session-new s conv addr e = rw (e, with_session) refl

  pub with_session-IsRoom :
      (s : Server K) (conv : ℕ) (addr : Address)
      → IsRoom s
      → IsRoom (with_session calls inet_ntoa decimal s conv addr)
  with_session-IsRoom s conv addr room = elim (find-cases conv s.sessions) [
    | inl (id, e) ↦ subst IsRoom (sym (with_session-known s conv addr id e)) room
    | inr e ↦
        subst IsRoom (sym (with_session-new s conv addr e))
          (new_session-IsRoom s conv addr room (find-none conv s.sessions e))
  ]
