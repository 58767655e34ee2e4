-- ===== src/Chat/Showing.antt =====
-- What the client of the chat room shows of the messages that a datagram brings.
use test_linux.Base.{
  ℕ, zero, suc, ◌≤◌, ◌<◌, ◌≡◌, ◌≢◌, refl, ap, sym, ◌∙◌, Bool, true, false, not, ltb, Option, some,
  List, [], ◌∷◌, ◌++◌, append_assoc, append-nil, All, length, drop, length-append, length-drop,
  take-all, Run, ok, Bytes, ℤ, pos, negsuc, arith,
}
use test_linux.Chat.Library.{KcpCalls, RoomLaws}
use test_linux.Chat.Session.{Address, Session, recv, input, update, updated, timed_out}
use test_linux.Chat.Server.{same_address}
use test_linux.Chat.Receive.{write_at-front}
use test_linux.Chat.Cut.{cut, cut-lem, resize-within}
use test_linux.Chat.Client.{
  Client, Text, new_body, max_body_size, kcp_header_size, check_ret, run, handle_message,
  show_message, show_all, take_input, take_packet,
}

-- The messages up to the first empty one, each cut to the length of the one before it.
abbrev pub cuts : (size : ℕ) → List Bytes → List Bytes
cuts size [] = []
cuts size ([] ∷ ms) = []
cuts size ((x ∷ m) ∷ ms) = cut size (x ∷ m) ∷ cuts (length (x ∷ m)) ms

abbrev pub Fits : List Bytes → Type 0
Fits = All (λ m. length m ≤ max_body_size)

module _ {K : Type 0} (calls : KcpCalls K) (inbox sent : K → List Bytes)
    (laws : RoomLaws calls inbox sent) where
  -- The client after it has read from its session.
  abbrev read : Client K → Client K
  read c = record c {
    session = record c.session { kcp = (calls.recv c.session.kcp max_body_size).1 };
  }

  show_all-none :
      (n : ℕ) (body : Text) (c : Client K)
      → inbox c.session.kcp ≡ []
      → show_all calls (suc n) body c ≡ ok (some (true, read c))
  unfolding show_all recv show_message
  show_all-none n body c e =
      let (code, not_big, got) = laws.recv_none c.session.kcp max_body_size e in
      rw got (rw (write_at-front body.block [] (omega arith)) (ends code not_big))
    where
      ends :
          (code : ℕ)
          → code ≢ 2
          → show_message calls (show_all calls n) (negsuc code) body (read c)
            ≡ ok (some (true, read c))
      ends zero ne = refl
      ends (suc zero) ne = refl
      ends (suc (suc zero)) ne = absurd (ne refl)
      ends (suc (suc (suc code))) ne = refl

  show_all-empty :
      (n : ℕ) (body : Text) (c : Client K) (ms : List Bytes)
      → inbox c.session.kcp ≡ [] ∷ ms
      → show_all calls (suc n) body c ≡ ok (some (true, read c))
  unfolding show_all recv show_message
  show_all-empty n body c ms e =
      let (got, left) = laws.recv_next c.session.kcp max_body_size [] ms e (omega arith) in
      rw got (rw (write_at-front body.block [] (omega arith)) refl)

  show_all-next :
      (n : ℕ) (body : Text) (c : Client K) (x : ℕ) (m : Bytes) (ms : List Bytes)
      → inbox c.session.kcp ≡ (x ∷ m) ∷ ms
      → length (x ∷ m) ≤ max_body_size
      → length body.block ≡ suc max_body_size
      → body.size ≤ max_body_size
      → (u : Text) × (show_all calls (suc n) body c
          ≡ show_all calls n u (handle_message calls (read c) (cut body.size (x ∷ m))))
        × (length u.block ≡ suc max_body_size)
        × (u.size ≡ length (x ∷ m))
  unfolding show_all recv show_message
  show_all-next n body c x m ms e fit whole size =
      let (got, left) = laws.recv_next c.session.kcp max_body_size (x ∷ m) ms e fit in
      let t : Text = record body { block = (x ∷ m) ++ drop (length (x ∷ m)) body.block } in
      let (u, resized, whole', size', text) =
        resize-within t (length (x ∷ m))
          (omega (
            arith,
            length-append (x ∷ m) (drop (length (x ∷ m)) body.block),
            length-drop (length (x ∷ m)) body.block,
          ))
          size fit in
      (
        u,
        rw got (
            rw (write_at-front body.block (x ∷ m) (omega arith)) (
              rw resized (
                ap (λ (b : Bytes). show_all calls n u (handle_message calls (read c) b))
                  (text ∙ cut-lem (x ∷ m) (drop (length (x ∷ m)) body.block) body.size)))),
        whole',
        size',
      )

  show_all-cuts :
      (n : ℕ) (body : Text) (c : Client K) (ms : List Bytes)
      → length ms < n
      → inbox c.session.kcp ≡ ms
      → Fits ms
      → length body.block ≡ suc max_body_size
      → body.size ≤ max_body_size
      → (t : Client K) × (show_all calls n body c ≡ ok (some (true, t)))
        × (t.shown ≡ c.shown ++ cuts body.size ms)
  unfolding handle_message
  show_all-cuts zero body c ms enough e fit whole size = absurd (omega arith)
  show_all-cuts (suc n) body c [] enough e fit whole size =
      (read c, show_all-none n body c e, sym (append-nil c.shown))
  show_all-cuts (suc n) body c ([] ∷ ms) enough e fit whole size =
      (read c, show_all-empty n body c ms e, sym (append-nil c.shown))
  show_all-cuts (suc n) body c ((x ∷ m) ∷ ms) enough e fit whole size =
      let (got, left) = laws.recv_next c.session.kcp max_body_size (x ∷ m) ms e fit.0 in
      let (u, step, whole', size') = show_all-next n body c x m ms e fit.0 whole size in
      let (t, runs, shown) =
        show_all-cuts n u (handle_message calls (read c) (cut body.size (x ∷ m))) ms (omega arith)
          left fit.1 whole' (omega (arith, fit.0)) in
      (
        t,
        step ∙ runs,
        shown
            ∙ ap (λ k. (c.shown ++ cut body.size (x ∷ m) ∷ []) ++ cuts k ms) size'
            ∙ append_assoc c.shown (cut body.size (x ∷ m) ∷ []) (cuts (length (x ∷ m)) ms),
      )

  take_input-cuts :
      (n : ℕ) (d : Bytes) (c : Client K) (ms : List Bytes)
      → (calls.input c.session.kcp d).0 ≡ pos 0
      → inbox ((calls.input c.session.kcp d).1) ≡ ms
      → Fits ms
      → length ms < n
      → (t : Client K) × (take_input calls n d c ≡ ok (some (true, t)))
        × (t.shown ≡ c.shown ++ cuts max_body_size ms)
  unfolding take_input input
  take_input-cuts n d c ms fine waits fit enough = go ((calls.input c.session.kcp d).0) fine
    where
      after : Client K
      after = record c { session = record c.session { kcp = (calls.input c.session.kcp d).1 } }

      go :
          (ret : ℤ)
          → ret ≡ pos 0
          → (t : Client K) × ((elim ret as (λ r. Run (Option (Bool × Client K))) [
            | pos zero ↦ show_all calls n new_body after
            | pos (suc m) ↦ ok (some (false, after))
            | negsuc m ↦ ok (some (false, after))
          ])
              ≡ ok (some (true, t)))
            × (t.shown ≡ c.shown ++ cuts max_body_size ms)
      go (pos zero) e = show_all-cuts n new_body after ms enough waits fit refl (omega arith)
      go (pos (suc m)) e = cc
      go (negsuc m) e = cc

  -- A session of a client is never closed by its update.
  update-client :
      (a : Session K) (current : ℕ)
      → a.kcp_opt.is_server ≡ false
      → (update calls a current).0 ≡ false
  unfolding update updated timed_out
  update-client a current e = ground arith

  -- Over a kcp library that keeps to its laws: a call of the client's `Run` at a datagram of 24 to
  -- 4096 bytes from its server, which the library accepts and after which messages of at most 4096
  -- bytes wait, on more fuel than there are, answers true and has shown, in order, each message up
  -- to the first empty one, cut to the length of the one before it (the first one to 4096 bytes)
  -- and with zeros for the rest.
  pub run-cuts :
      (n current : ℕ) (d : Bytes) (addr : Address) (c : Client K) (ms : List Bytes)
      → c.session.kcp_opt.is_server ≡ false
      → same_address addr c.server_addr ≡ true
      → kcp_header_size ≤ length d
      → length d ≤ max_body_size
      → let fed = calls.input ((update calls c.session current).1.1).kcp d in
        fed.0 ≡ pos 0
        → inbox fed.1 ≡ ms
        → Fits ms
        → length ms < n
        → (t : Client K) × (run calls n current (some d) addr c ≡ ok (some (true, t)))
          × (t.shown ≡ c.shown ++ cuts max_body_size ms)
  unfolding run take_packet check_ret
  run-cuts n current d addr c ms client known long fits fine waits fit enough =
      let wide : not (ltb (length d) kcp_header_size) ≡ true = ground arith in
      let (t, runs, shown) =
        take_input-cuts n d
          (record c {
            session = (update calls c.session current).1.1;
            wire = (update calls c.session current).1.0 ++ c.wire;
          })
          ms fine waits fit enough in
      (
        t,
        rw (update-client c.session current client)
            (rw known (rw (take-all max_body_size d fits) (rw wide runs))),
        shown,
      )
