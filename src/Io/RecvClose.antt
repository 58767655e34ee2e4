-- ===== src/Io/RecvClose.antt =====
-- `nRecv` of 2.3.1-coroutine/server_mulport_epoll.c when the peer closes behind its last bytes.
use test_linux.Base.{ℕ, ◌-◌, ◌<◌, ◌≡◌, ap, Bool, some, [], ◌∷◌, arith, ne→==, length, Bytes}
use test_linux.Io.Errno.{enotconn, Incoming, bytes, Polled}
use test_linux.Io.Echo.{take-chunk}
use test_linux.Io.Recv.{Round, counted, finished, follow, recv_loop, recv_pass, n_recv}
use test_linux.Io.RecvResult.{take-nil, recv_pass-calm}

abbrev pub round_of : Incoming → Bool → Polled → Round
round_of i hup polled = record { incoming = i; hup = hup; polled = polled }

module _ (size : ℕ) (b : Bytes) (hup : Bool) (polled : Polled) (some_byte : 0 < length b)
    (short : length b < size) where
  close_pass :
      (left : ℕ) (out : Bytes)
      → recv_pass (round_of (bytes []) hup polled) left 0 out ≡ finished enotconn out
  unfolding recv_pass
  close_pass left out = rw (recv_pass, take-nil left)

  loop_closes :
      recv_loop (round_of (bytes b) hup polled ∷ round_of (bytes []) hup polled ∷ []) size 0 []
      ≡ some (enotconn, b)
  unfolding recv_loop
  loop_closes = rw (
    ne→== size 0 (omega arith),
    recv_loop,
    recv_pass-calm (bytes b) hup polled size [] some_byte (omega arith),
    take-chunk size b (omega arith),
    follow,
    ne→== (size - length b) 0 (omega arith),
    recv_loop,
    follow,
    take-chunk size b (omega arith),
    close_pass (size - length b) b,
  )

  -- The bytes are returned with the code ENOTCONN.
  pub n_recv-close :
      n_recv (round_of (bytes b) hup polled ∷ round_of (bytes []) hup polled ∷ []) size
      ≡ some (enotconn, b, length b)
  unfolding n_recv
  n_recv-close = ap counted loop_closes
