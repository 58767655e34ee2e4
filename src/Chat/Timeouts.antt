-- ===== src/Chat/Timeouts.antt =====
-- Which sessions an update of the server drops, and what it tells the others.
use test_linux.Base.{
  ℕ, suc, ◌+◌, ◌≤◌, ◌<◌, ◌≡◌, ◌≢◌, refl, ap, ap₂, sym, subst, ◌∙◌, Bool, true, not, ◌&&◌,
  Bool-cases, inl, inr, List, [], ◌∷◌, ◌==◌, ltb, times, Bytes, if◌then◌else◌, arith,
}
use test_linux.Chat.Library.{KcpCalls}
use test_linux.Chat.Session.{KcpOpt, Session, update, updated, timed_out, keep_alive}
use test_linux.Chat.Server.{
  Memory, Server, left_line, handle_close, update_one, offline, update_from,
}
use test_linux.Chat.Sending.{put-else, Still, Still-trans}
use test_linux.Chat.Room.{ids}
use test_linux.Chat.Walk.{handle_close-Still, updated_one}

-- A session that was heard of, but longer ago than the time allowed.
abbrev pub is_late : {K : Type 0} → (current : ℕ) → Session K → Bool
is_late current a =
    not (a.recv_latest_time == 0) && ltb (a.recv_latest_time + a.kcp_opt.keep_alive_timeout) current

-- The entries of the table whose session is not late when its turn comes.
abbrev pub stay : {K : Type 0} → (now : ℕ → ℕ) → Memory K → List (ℕ × ℕ) → List (ℕ × ℕ)
stay now memory [] = []
stay now memory ((conv, id) ∷ rest) =
    let left = stay (λ i. now (suc i)) memory rest in
    if is_late (now 0) (memory id) then left else (conv, id) ∷ left

-- The lines that tell of the others.
abbrev pub farewells :
    {K : Type 0}
    → (inet_ntoa decimal : ℕ → Bytes) (now : ℕ → ℕ) → Memory K
    → List (ℕ × ℕ)
    → List Bytes
farewells inet_ntoa decimal now memory [] = []
farewells inet_ntoa decimal now memory ((conv, id) ∷ rest) =
    let left = farewells inet_ntoa decimal (λ i. now (suc i)) memory rest in
    if is_late (now 0) (memory id)
    then left_line inet_ntoa decimal (memory id).addr ∷ left
    else left

-- Each session of the table is one of a server.
abbrev pub Serving : {K : Type 0} → Memory K → List (ℕ × ℕ) → Type 0
Serving memory es = (j : ℕ) → 0 < times (ids es) j → (memory j).kcp_opt.is_server ≡ true

pub stay-ids :
    {K : Type 0} (now : ℕ → ℕ) (memory : Memory K) (es : List (ℕ × ℕ)) (j : ℕ)
    → times (ids (stay now memory es)) j ≤ times (ids es) j
stay-ids now memory [] j = omega arith
stay-ids now memory ((conv, id) ∷ rest) j =
    let again = stay-ids (λ i. now (suc i)) memory rest j in
    elim (Bool-cases (is_late (now 0) (memory id))) [
      | inl e ↦ rw (e, stay) (ground arith)
      | inr e ↦ rw (e, stay) (ground arith)
    ]

module _ {K : Type 0} (calls : KcpCalls K) (inet_ntoa decimal : ℕ → Bytes) where
  offline-is_late :
      (s : Server K) (id current : ℕ)
      → (s.memory id).kcp_opt.is_server ≡ true
      → offline calls inet_ntoa decimal s id current ≡ is_late current (s.memory id)
  unfolding offline update updated timed_out
  offline-is_late s id current e = ground arith

  -- A server's session sends no keep-alives.
  pub update-serving :
      (a : Session K) (current : ℕ)
      → a.kcp_opt.is_server ≡ true
      → (update calls a current).1.1 ≡ updated calls a current
  unfolding update updated timed_out keep_alive
  update-serving a current e = ground arith

  update_one-Still :
      (s : Server K) (id current j : ℕ)
      → id ≢ j
      → Still (s.memory j) ((update_one calls inet_ntoa decimal s id current).memory j)
  unfolding update_one
  update_one-Still s id current j ne =
      let t = updated_one calls inet_ntoa decimal s id current in
      let own : Still (s.memory j) (t.memory j) =
        subst (Still (s.memory j))
          (sym (put-else s.memory id j ((update calls (s.memory id) current).1.1) ne))
          (refl, refl, refl) in
      elim (Bool-cases (update calls (s.memory id) current).0) [
        | inl e ↦ rw e (
            Still-trans (s.memory j) (t.memory j)
              ((handle_close calls inet_ntoa decimal t id).memory j) own
              (handle_close-Still calls inet_ntoa decimal t id j))
        | inr e ↦ rw e own
      ]

  -- What is known of the entries still to be walked.
  abbrev pub Pending : Memory K → List (ℕ × ℕ) → Server K → Type 0
  Pending memory es s =
      ((j : ℕ) → times (ids es) j ≤ 1)
      × ((j : ℕ) → 0 < times (ids es) j → Still (memory j) (s.memory j))
      × Serving memory es

  -- A session with the fields of one that serves and is late, or is not.
  Still-is_late :
      (a b : Session K) (current : ℕ) → Still a b → is_late current b ≡ is_late current a
  Still-is_late a b current (opt, addr, heard) =
      ap₂ (λ (o : KcpOpt) (t : ℕ). not (t == 0) && ltb (t + o.keep_alive_timeout) current) opt heard

  pub Pending-offline :
      (memory : Memory K) (conv id current : ℕ) (rest : List (ℕ × ℕ)) (s : Server K)
      → Pending memory ((conv, id) ∷ rest) s
      → offline calls inet_ntoa decimal s id current ≡ is_late current (memory id)
  Pending-offline memory conv id current rest s (once, still, serving) =
      let here : 0 < times (ids ((conv, id) ∷ rest)) id = ground arith in
      offline-is_late s id current
        (ap (λ (o : KcpOpt). o.is_server) ((still id here).0) ∙ serving id here)
      ∙ Still-is_late (memory id) (s.memory id) current (still id here)

  pub Pending-next :
      (memory : Memory K) (conv id current : ℕ) (rest : List (ℕ × ℕ)) (s : Server K)
      → Pending memory ((conv, id) ∷ rest) s
      → Pending memory rest (update_one calls inet_ntoa decimal s id current)
  Pending-next memory conv id current rest s (once, still, serving) = (
    λ j. let h = once j in ground arith,
    λ j h.
        let more : 0 < times (ids ((conv, id) ∷ rest)) j = ground arith in
        let at = once j in
        let other : id ≢ j = ground arith in
        Still-trans (memory j) (s.memory j)
          ((update_one calls inet_ntoa decimal s id current).memory j) (still j more)
          (update_one-Still s id current j other),
    λ j h. serving j (ground arith),
  )

  pub update_from-stay :
      (memory : Memory K) (now : ℕ → ℕ) (es : List (ℕ × ℕ)) (s : Server K)
      → Pending memory es s
      → (update_from calls inet_ntoa decimal now es s).0 ≡ stay now memory es
  unfolding update_from
  update_from-stay memory now [] s pending = refl
  update_from-stay memory now ((conv, id) ∷ rest) s pending =
      let again =
        update_from-stay memory (λ i. now (suc i)) rest
          (update_one calls inet_ntoa decimal s id (now 0))
          (Pending-next memory conv id (now 0) rest s pending) in
      ap₂ (λ (b : Bool) (l : List (ℕ × ℕ)). if b then l else (conv, id) ∷ l)
        (Pending-offline memory conv id (now 0) rest s pending) again
