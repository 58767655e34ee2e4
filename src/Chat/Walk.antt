-- ===== src/Chat/Walk.antt =====
-- That an update of the server keeps the room: the walk over its table.
use test_linux.Base.{
  ℕ, suc, ◌+◌, ◌≤◌, ◌<◌, ◌≡◌, refl, ap, ◌∙◌, Bool-cases, inl, inr, List, [], ◌∷◌, ◌++◌, ◌==◌, times,
  remove, times-remove, Bytes, if◌then◌else◌, arith,
}
use test_linux.Chat.Library.{KcpCalls}
use test_linux.Chat.Session.{Session, update, updated, timed_out, keep_alive, send}
use test_linux.Chat.Server.{
  Memory, Server, put, left_line, notify, handle_close, update_one, offline, update_from,
  update_sessions,
}
use test_linux.Chat.Sending.{put-related, Still, notify-Still}
use test_linux.Chat.Room.{ids, convs, Keyed, IsRoom, SameOpts, SameOpts-Keyed}

module _ {K : Type 0} (calls : KcpCalls K) (inet_ntoa decimal : ℕ → Bytes) where
  -- What one entry of the walk leaves of the users.
  pub update_one-users :
      (s : Server K) (id current j : ℕ)
      → 0 < times s.users id
      → times s.users j
        ≡ times ((update_one calls inet_ntoa decimal s id current).users) j
          + (if offline calls inet_ntoa decimal s id current then (if id == j then 1 else 0) else 0)
  unfolding update_one offline handle_close notify
  update_one-users s id current j h = elim (Bool-cases (update calls (s.memory id) current).0) [
    | inl e ↦ rw e (times-remove id s.users j h)
    | inr e ↦ rw e (omega arith)
  ]

  update-opts : (s : Session K) (current : ℕ) → ((update calls s current).1.1).kcp_opt ≡ s.kcp_opt
  unfolding update updated keep_alive timed_out send
  update-opts s current = ground arith

  pub handle_close-Still :
      (s : Server K) (id j : ℕ)
      → Still (s.memory j) ((handle_close calls inet_ntoa decimal s id).memory j)
  unfolding handle_close
  handle_close-Still s id j =
      notify-Still calls (record s { users = remove id s.users })
        (left_line inet_ntoa decimal (s.memory id).addr) j

  -- A server whose session has been updated.
  abbrev pub updated_one : Server K → (id current : ℕ) → Server K
  updated_one s id current = record s {
    memory = put s.memory id ((update calls (s.memory id) current).1.1);
    wire = (update calls (s.memory id) current).1.0 ++ s.wire;
  }

  -- An update leaves every session's options.
  update_one-opts :
      (s : Server K) (id current : ℕ)
      → SameOpts s.memory ((update_one calls inet_ntoa decimal s id current).memory)
  unfolding update_one
  update_one-opts s id current j =
      let own =
        put-related (λ (a b : Session K). b.kcp_opt ≡ a.kcp_opt) (λ a. refl) s.memory id
          ((update calls (s.memory id) current).1.1) (update-opts (s.memory id) current) j in
      elim (Bool-cases (update calls (s.memory id) current).0) [
        | inl e ↦ rw e ((handle_close-Still (updated_one s id current) id j).0 ∙ own)
        | inr e ↦ rw e own
      ]

  update_one-created :
      (s : Server K) (id current : ℕ)
      → (update_one calls inet_ntoa decimal s id current).created ≡ s.created
  unfolding update_one handle_close notify
  update_one-created s id current = elim (Bool-cases (update calls (s.memory id) current).0) [
    | inl e ↦ rw e refl
    | inr e ↦ rw e refl
  ]

  -- The walk: each user is kept or stands no longer in the table, and the table only shrinks.
  update_from-users :
      (now : ℕ → ℕ) (es : List (ℕ × ℕ)) (s : Server K)
      → ((j : ℕ) → times (ids es) j ≤ times s.users j)
      → (j : ℕ)
      → times ((update_from calls inet_ntoa decimal now es s).1.users) j + times (ids es) j
        ≡ times s.users j + times (ids ((update_from calls inet_ntoa decimal now es s).0)) j
  unfolding update_from
  update_from-users now [] s h j = refl
  update_from-users now ((conv, id) ∷ rest) s h j =
      let one = update_one-users s id (now 0) in
      elim (Bool-cases (offline calls inet_ntoa decimal s id (now 0))) [
        | inl e ↦
            let at : (i : ℕ) → times s.users i ≡ times u.users i + (if id == i then 1 else 0) = λ i.
              one i (here (h id))
              ∙ ap (λ b. times u.users i + (if b then (if id == i then 1 else 0) else 0)) e in
            let again =
              update_from-users later rest u (λ i. let g = at i in let le = h i in ground arith)
                j in
            let g = at j in rw e (ground arith)
        | inr e ↦
            let at : (i : ℕ) → times s.users i ≡ times u.users i = λ i.
              one i (here (h id))
              ∙ ap (λ b. times u.users i + (if b then (if id == i then 1 else 0) else 0)) e
              ∙ omega arith in
            let again =
              update_from-users later rest u (λ i. let g = at i in let le = h i in ground arith)
                j in
            let g = at j in rw e (ground arith)
      ]
    where
      u : Server K
      u = update_one calls inet_ntoa decimal s id (now 0)

      later : ℕ → ℕ
      later i = now (suc i)

      here : times (ids ((conv, id) ∷ rest)) id ≤ times s.users id → 0 < times s.users id
      here le = ground arith

  update_from-ids :
      (now : ℕ → ℕ) (es : List (ℕ × ℕ)) (s : Server K) (j : ℕ)
      → times (ids ((update_from calls inet_ntoa decimal now es s).0)) j ≤ times (ids es) j
  unfolding update_from
  update_from-ids now [] s j = omega arith
  update_from-ids now ((conv, id) ∷ rest) s j =
      let again =
        update_from-ids (λ i. now (suc i)) rest (update_one calls inet_ntoa decimal s id (now 0))
          j in
      elim (Bool-cases (offline calls inet_ntoa decimal s id (now 0))) [
        | inl e ↦ rw e (ground arith)
        | inr e ↦ rw e (ground arith)
      ]

  update_from-convs :
      (now : ℕ → ℕ) (es : List (ℕ × ℕ)) (s : Server K) (c : ℕ)
      → times (convs ((update_from calls inet_ntoa decimal now es s).0)) c ≤ times (convs es) c
  unfolding update_from
  update_from-convs now [] s c = omega arith
  update_from-convs now ((conv, id) ∷ rest) s c =
      let again =
        update_from-convs (λ i. now (suc i)) rest (update_one calls inet_ntoa decimal s id (now 0))
          c in
      elim (Bool-cases (offline calls inet_ntoa decimal s id (now 0))) [
        | inl e ↦ rw e (ground arith)
        | inr e ↦ rw e (ground arith)
      ]

  update_from-opts :
      (now : ℕ → ℕ) (es : List (ℕ × ℕ)) (s : Server K)
      → SameOpts s.memory ((update_from calls inet_ntoa decimal now es s).1.memory)
  unfolding update_from
  update_from-opts now [] s j = refl
  update_from-opts now ((conv, id) ∷ rest) s j =
      update_from-opts (λ i. now (suc i)) rest (update_one calls inet_ntoa decimal s id (now 0)) j
      ∙ update_one-opts s id (now 0) j

  update_from-created :
      (now : ℕ → ℕ) (es : List (ℕ × ℕ)) (s : Server K)
      → (update_from calls inet_ntoa decimal now es s).1.created ≡ s.created
  unfolding update_from
  update_from-created now [] s = refl
  update_from-created now ((conv, id) ∷ rest) s =
      update_from-created (λ i. now (suc i)) rest (update_one calls inet_ntoa decimal s id (now 0))
      ∙ update_one-created s id (now 0)

  update_from-Keyed :
      (memory : Memory K) (now : ℕ → ℕ) (es : List (ℕ × ℕ)) (s : Server K)
      → Keyed memory es
      → Keyed memory ((update_from calls inet_ntoa decimal now es s).0)
  unfolding update_from
  update_from-Keyed memory now [] s keyed = tt
  update_from-Keyed memory now ((conv, id) ∷ rest) s keyed =
      let again =
        update_from-Keyed memory (λ i. now (suc i)) rest
          (update_one calls inet_ntoa decimal s id (now 0)) (keyed.1) in
      elim (Bool-cases (offline calls inet_ntoa decimal s id (now 0))) [
        | inl e ↦ rw e again
        | inr e ↦ rw e (keyed.0, again)
      ]

  update_one-buf :
      (s : Server K) (id current : ℕ)
      → (update_one calls inet_ntoa decimal s id current).buf ≡ s.buf
  unfolding update_one handle_close notify
  update_one-buf s id current = elim (Bool-cases (update calls (s.memory id) current).0) [
    | inl e ↦ rw e refl
    | inr e ↦ rw e refl
  ]

  update_from-buf :
      (now : ℕ → ℕ) (es : List (ℕ × ℕ)) (s : Server K)
      → (update_from calls inet_ntoa decimal now es s).1.buf ≡ s.buf
  unfolding update_from
  update_from-buf now [] s = refl
  update_from-buf now ((conv, id) ∷ rest) s =
      update_from-buf (λ i. now (suc i)) rest (update_one calls inet_ntoa decimal s id (now 0))
      ∙ update_one-buf s id (now 0)

  pub update_sessions-buf :
      (now : ℕ → ℕ) (s : Server K) → (update_sessions calls inet_ntoa decimal now s).buf ≡ s.buf
  unfolding update_sessions
  update_sessions-buf now s = update_from-buf now s.sessions s

  pub update_sessions-IsRoom :
      (now : ℕ → ℕ) (s : Server K)
      → IsRoom s
      → IsRoom (update_sessions calls inet_ntoa decimal now s)
  unfolding update_sessions
  update_sessions-IsRoom now s room =
      let run = update_from calls inet_ntoa decimal now s.sessions s in
      record {
        users_agree = λ j.
            let all =
              update_from-users now s.sessions s (λ i. omega (arith, room.users_agree i)) j in
            omega (arith, all, room.users_agree j);
        ids_once = λ j. omega (arith, update_from-ids now s.sessions s j, room.ids_once j);
        convs_once = λ c. omega (arith, update_from-convs now s.sessions s c, room.convs_once c);
        ids_below = λ j h. omega (
          arith,
          update_from-ids now s.sessions s j,
          room.ids_below j (omega (arith, update_from-created now s.sessions s)),
        );
        keyed =
            SameOpts-Keyed s.memory (run.1.memory) run.0 (update_from-opts now s.sessions s)
              (update_from-Keyed s.memory now s.sessions s room.keyed);
      }
