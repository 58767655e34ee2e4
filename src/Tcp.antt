-- ===== src/Tcp.antt =====
-- The server of 2.2.3-udp-kcp-quic/tcp-udp-rtt/tcp-rtt/rtt_server.c, which answers one message on
-- each connection.
use test_linux.Base.{
  ℕ, zero, suc, ◌-◌, ◌≡◌, refl, Bool, false, Option, none, some, List, [], ◌∷◌, ◌++◌, arith, Run,
  ok, ◌>>=◌, length, take, replicate, Bytes, c_str, if◌then◌else◌, until_zero, length-take-le,
}
use test_linux.Io.Errno.{Incoming, bytes, failed}

abbrev message_size : ℕ
message_size = 1024

-- What `accept` and `recv` answer in one turn.
pub record Arrival : Type 0 where
  pub new_socket : Option ℕ
  pub incoming : Incoming

-- The newest first.
pub record RttServer : Type 0 where
  pub sent : List (ℕ × Bytes)
  pub closed : List ℕ

-- Whether `main` reaches its loop: `socket`, `setsockopt`, `bind` and `listen` in turn.
unfoldable pub set_up : (created configured bound listening : Bool) → Bool
set_up created configured bound listening =
    if created then (if configured then (if bound then listening else false) else false) else false

-- The buffer after `recv` of at most `MESSAGE_SIZE - 1` bytes into zeros.
unfoldable pub buffer_after : Incoming → Bytes
buffer_after (failed errno) = replicate message_size 0
buffer_after (bytes b) =
    take (message_size - 1) b ++ replicate (message_size - length (take (message_size - 1) b)) 0

-- One turn of `while (1)`.
unfoldable pub serve_one : RttServer → Arrival → Run RttServer
unfolding buffer_after
serve_one s a = elim (a.new_socket) [
  | none ↦ ok s
  | some fd ↦ do
    text ← c_str (buffer_after a.incoming)
    ok (record s { sent = (fd, text) ∷ s.sent; closed = fd ∷ s.closed })
]

abbrev payload : Incoming → Bytes
payload (bytes b) = take (message_size - 1) b
payload (failed errno) = []

c_str-until_zero : (b : Bytes) (n : ℕ) → c_str (b ++ replicate (suc n) 0) ≡ ok (until_zero b)
unfolding c_str
c_str-until_zero [] n = refl
c_str-until_zero (zero ∷ b) n = refl
c_str-until_zero (suc c ∷ b) n = rw (c_str-until_zero b n) refl

-- Whatever a client sends, its text is read inside the buffer: the client gets back what it sent up
-- to a zero byte, cut off after 1023 bytes, or nothing if `recv` failed, and its socket is closed.
serve_one-reply :
    (s : RttServer) (fd : ℕ) (i : Incoming)
    → serve_one s (record { new_socket = some fd; incoming = i })
      ≡ ok (record s { sent = (fd, until_zero (payload i)) ∷ s.sent; closed = fd ∷ s.closed })
unfolding serve_one
serve_one-reply s fd (failed errno) = rw (c_str-until_zero [] 1023, serve_one) refl
serve_one-reply s fd (bytes b) =
    rw (room, c_str-until_zero (take 1023 b) (1023 - length (take 1023 b))) refl
  where
    room : 1024 - length (take 1023 b) ≡ suc (1023 - length (take 1023 b))
    room = omega (arith, length-take-le 1023 b)
