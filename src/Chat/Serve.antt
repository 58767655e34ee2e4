-- ===== src/Chat/Serve.antt =====
-- That the server of the chat room serves every turn and keeps the room.
use test_linux.Base.{
  ℕ, ◌≤◌, ◌<◌, ◌≡◌, refl, ap, sym, subst, ◌∙◌, Bool-cases, inl, inr, Option, none, some, List, [],
  ◌∷◌, ◌++◌, length, length-take-le, length-append, length-drop, peek, take, drop, Run, ok, fault,
  out_of_fuel, ◌>>=◌, Bytes, arith,
}
use test_linux.Chat.Library.{KcpCalls, RoomLaws}
use test_linux.Chat.Receive.{write_at-front}
use test_linux.Chat.Session.{Address}
use test_linux.Chat.Server.{
  Server, get_session, get_conv, handle_session, take_datagram, check, Turn, tick, arrived, run,
  body_size, update_sessions,
}
use test_linux.Chat.Turns.{IsRoom-same}
use test_linux.Chat.Walk.{update_sessions-IsRoom, update_sessions-buf}
use test_linux.Chat.Ends.{IsSound, Ends, handle_session-Ends, get_session-IsSound}

module _ {K : Type 0} (calls : KcpCalls K) (inet_ntoa decimal : ℕ → Bytes)
    (inbox sent : K → List Bytes) (laws : RoomLaws calls inbox sent) (window : ℕ)
    (bounded : (k : K) → length (inbox k) ≤ window) where
  -- The conv is read from a datagram that is as long as a header.
  get_conv-ok : (b : Bytes) → 4 ≤ length b → (conv : ℕ) × (get_conv b ≡ ok conv)
  unfolding get_conv peek
  get_conv-ok [] h = absurd (omega arith)
  get_conv-ok (b0 ∷ []) h = absurd (omega arith)
  get_conv-ok (b0 ∷ b1 ∷ []) h = absurd (omega arith)
  get_conv-ok (b0 ∷ b1 ∷ b2 ∷ []) h = absurd (omega arith)
  get_conv-ok (b0 ∷ b1 ∷ b2 ∷ b3 ∷ b) h = (_, refl)

  refilled :
      (s : Server K) (buf : Bytes)
      → length buf ≡ body_size
      → IsSound s
      → IsSound (record s { buf = buf })
  refilled s buf size sound = record {
    room = IsRoom-same s (record s { buf = buf }) refl refl refl (λ j. refl) sound.room;
    sized = size;
  }

  -- From the look at the conv on.
  served :
      (n : ℕ) (now : ℕ → ℕ) (addr : Address) (len : ℕ) (s : Server K)
      → window < n
      → len ≤ length s.buf
      → IsSound s
      → Ends {K = K} IsSound (do
        conv ← get_conv s.buf
        (id, u) ← get_session calls inet_ntoa decimal s conv addr
        handle_session calls inet_ntoa decimal n now id len u)
  served n now addr len s enough inside sound =
      let (conv, e) = get_conv-ok s.buf (omega (arith, sound.sized)) in
      let (id, t, e', sound', same_buf) =
        get_session-IsSound calls inet_ntoa decimal inbox sent laws window bounded s conv addr
          sound in
      rw e (
        rw e' (
          handle_session-Ends calls inet_ntoa decimal inbox sent laws window bounded n now id len t
            enough (subst (λ b. len ≤ length b) (sym same_buf) inside) sound'))

  take_datagram-Ends :
      (n : ℕ) (now : ℕ → ℕ) (datagram : Option Bytes) (addr : Address) (s : Server K)
      → window < n
      → IsSound s
      → Ends IsSound (take_datagram calls inet_ntoa decimal n now datagram addr s)
  unfolding take_datagram
  take_datagram-Ends n now none addr s enough sound = sound
  take_datagram-Ends n now (some d) addr s enough sound =
      let b = take body_size d in
      let short = length-take-le body_size d in
      let sized : length (b ++ drop (length b) s.buf) ≡ body_size = omega (
        arith,
        sound.sized,
        length-append b (drop (length b) s.buf),
        length-drop (length b) s.buf,
      ) in
      rw (write_at-front s.buf b (omega (arith, sound.sized, short)))
        (elim (Bool-cases (check (some b))) [
          | inl e ↦ rw e (
              served n now addr (length b) (record s { buf = b ++ drop (length b) s.buf }) enough
                (omega (arith, sound.sized)) (refilled s (b ++ drop (length b) s.buf) sized sound))
          | inr e ↦ rw e (refilled s (b ++ drop (length b) s.buf) sized sound)
        ])

  -- Over a kcp library that keeps to its laws and whose inboxes hold at most `window` messages at a
  -- time, on fuel above `window`: whatever turns the two threads take, from whatever state in which
  -- the room is sound and the buffer has its 4096 bytes, no turn faults or runs out of fuel, and
  -- unless the process has exited, the same holds of the state after them. In a sound room the
  -- users are the sessions of the table, each once and under the conv that it was made for.
  pub run-IsSound :
      (n : ℕ) (turns : List Turn) (s : Server K)
      → window < n
      → IsSound s
      → Ends IsSound (run calls inet_ntoa decimal n turns s)
  unfolding run
  run-IsSound n [] s enough sound = sound
  run-IsSound n (tick now ∷ turns) s enough sound =
      run-IsSound n turns (update_sessions calls inet_ntoa decimal now s) enough (record {
        room = update_sessions-IsRoom calls inet_ntoa decimal now s sound.room;
        sized = ap length (update_sessions-buf calls inet_ntoa decimal now s) ∙ sound.sized;
      })
  run-IsSound n (arrived now datagram addr ∷ turns) s enough sound =
      go (take_datagram calls inet_ntoa decimal n now datagram addr s)
        (take_datagram-Ends n now datagram addr s enough sound) (λ t. run-IsSound n turns t enough)
    where
      go :
          (r : Run (Option (Server K)))
          → Ends IsSound r
          → ((t : Server K) → IsSound t → Ends IsSound (run calls inet_ntoa decimal n turns t))
          → Ends {K = K} IsSound (do
            after ← r
            elim after [ none ↦ ok none | some t ↦ run calls inet_ntoa decimal n turns t ])
      go fault h again = h
      go out_of_fuel h again = h
      go (ok none) h again = tt
      go (ok (some t)) h again = again t h
