-- ===== src/Server/Replies.antt =====
-- What a client of 2.3.1-coroutine/server_mulport_epoll.c gets back, and when its socket is closed.
use test_linux.Base.{
  ℕ, zero, suc, ◌-◌, ◌≤◌, ◌<◌, ◌≡◌, refl, ◌⊎◌, Bool, true, ◌||◌, some, List, [], ◌∷◌, ◌++◌,
  append-nil, arith, lt→ltb, ok, fault, ◌>>=◌, length, replicate, All, Bytes, c_str,
}
use test_linux.Io.Errno.{enotconn, bytes, Polled}
use test_linux.Io.Echo.{max_buffer}
use test_linux.Io.RecvClose.{round_of, n_recv-close}
use test_linux.Io.Recv.{Round, n_recv}
use test_linux.Io.Send.{SendRound}
use test_linux.Io.SendResult.{IsOpen, n_send-whole}
use test_linux.Server.State.{Server, dec}
use test_linux.Server.Handler.{buffer_with, starts_with_a, reply, answer, client_data_process}

-- Bytes that a C string can hold.
abbrev pub IsText : Bytes → Type 0
IsText s = All (λ c. 0 < c) s

c_str-padded : (s : Bytes) (n : ℕ) → IsText s → c_str (s ++ replicate (suc n) 0) ≡ ok s
unfolding c_str
c_str-padded [] n is = refl
c_str-padded (zero ∷ s) n is = absurd (omega arith)
c_str-padded (suc c ∷ s) n is = rw (c_str-padded s n is.1) refl

c_str-full : (s : Bytes) → IsText s → c_str s ≡ fault
unfolding c_str
c_str-full [] is = refl
c_str-full (zero ∷ s) is = absurd (omega arith)
c_str-full (suc c ∷ s) is = rw (c_str-full s is.1) refl

module _ (s : Server) (fd : ℕ) (rounds : List Round) (sends : List SendRound) where
  -- A text of 1 to 127 bytes that begins with `a`, or any when `nRun` is set, is sent back to its
  -- client whole, if the socket keeps taking bytes; nothing else of the state changes.
  pub client_data_process-echo :
      {ret : ℕ} (text : Bytes)
      → n_recv rounds max_buffer ≡ some (ret, text, length text)
      → 0 < length text
      → length text < max_buffer
      → IsText text
      → (s.n_run || starts_with_a text) ≡ true
      → All IsOpen sends
      → length text ≤ length sends
      → client_data_process s fd rounds sends ≡ ok (record s { replies = (fd, text) ∷ s.replies })
  unfolding client_data_process
  client_data_process-echo text got some_byte short is asked takes enough = rw (
    got,
    client_data_process,
    lt→ltb 0 (length text) some_byte,
    answer,
    asked,
    reply,
    filled,
    ◌>>=◌,
    n_send-whole sends text takes some_byte enough,
  )
    where
      room : max_buffer - length text ≡ suc (max_buffer - length text - 1)
      room = omega arith

      filled : c_str (buffer_with text) ≡ ok text
      filled = unfold buffer_with in rw room (c_str-padded text (max_buffer - length text - 1) is)

  -- A buffer that such a text fills to the last byte has no terminator, and `strlen` reads on past
  -- its end.
  pub client_data_process-unterminated :
      {ret : ℕ} (text : Bytes)
      → n_recv rounds max_buffer ≡ some (ret, text, length text)
      → length text ≡ max_buffer
      → IsText text
      → (s.n_run || starts_with_a text) ≡ true
      → client_data_process s fd rounds sends ≡ fault
  unfolding client_data_process
  client_data_process-unterminated text got full is asked =
      rw (
        got,
        client_data_process,
        lt→ltb 0 (length text) (omega arith),
        answer,
        asked,
        reply,
        filled,
      )
    where
      room : max_buffer - length text ≡ 0
      room = omega arith

      filled : c_str (buffer_with text) ≡ fault
      filled = unfold buffer_with in rw (room, append-nil text) (c_str-full text is)

  -- The client's socket is closed, and `curfds` goes down, exactly when `nRecv` reports ENOTCONN
  -- with no byte received. In every other case in which the handler returns, no socket is closed and
  -- `curfds` stays.
  pub client_data_process-closed :
      {t : Server} {ret count : ℕ} {got : Bytes}
      → n_recv rounds max_buffer ≡ some (ret, got, count)
      → client_data_process s fd rounds sends ≡ ok t
      → ((count ≡ 0) × (ret ≡ enotconn) × (t.closed ≡ fd ∷ s.closed) × (t.curfds ≡ dec s.curfds))
        ⊎ ((0 < count) ⊎ (count ≡ 0) × ¬ (ret ≡ enotconn))
          × (t.closed ≡ s.closed)
          × (t.curfds ≡ s.curfds)
  unfolding client_data_process
  client_data_process-closed got_eq e = ground arith

  -- When a client has sent 1 to 127 bytes and closed before its handler runs, `nRecv` reports the
  -- bytes and the close together, and the handler that returns leaves the socket open and counted.
  pub client_data_process-leak :
      {t : Server} (c : ℕ) (cs : Bytes) (hup : Bool) (polled : Polled)
      → length (c ∷ cs) < max_buffer
      → rounds ≡ round_of (bytes (c ∷ cs)) hup polled ∷ round_of (bytes []) hup polled ∷ []
      → client_data_process s fd rounds sends ≡ ok t
      → (n_recv rounds max_buffer ≡ some (enotconn, c ∷ cs, length (c ∷ cs)))
        × (t.closed ≡ s.closed)
        × (t.curfds ≡ s.curfds)
  client_data_process-leak {t} c cs hup polled short are e = (received, kept.0, kept.1)
    where
      received : n_recv rounds max_buffer ≡ some (enotconn, c ∷ cs, length (c ∷ cs))
      received = rw are (n_recv-close max_buffer (c ∷ cs) hup polled (omega arith) short)

      kept : (t.closed ≡ s.closed) × (t.curfds ≡ s.curfds)
      kept = let closed = client_data_process-closed received e in ground arith
