-- ===== src/Io/Send.antt =====
-- `nSend` of 2.3.1-coroutine/server_mulport_epoll.c. Each pass of the `do` loop is answered by a
-- round: whether POLLHUP is set, what `poll` returns, and how many bytes `send` takes (of those that
-- are offered), or none if it fails. A list that ends before the loop does leaves it going.
use test_linux.Base.{
  ℕ, Bool, true, false, Option, none, some, List, [], ◌∷◌, ◌++◌, ◌==◌, ltb, length, take, drop,
  Bytes, ℤ, pos, negsuc, if◌then◌else◌,
}
use test_linux.Io.Errno.{eintr, Polled, ready, timed_out, broken}

pub record SendRound : Type 0 where
  pub hup : Bool
  pub polled : Polled
  pub accepts : Option ℕ

-- How a pass ends: `return -1`, `break`, or the test of the loop; with the bytes sent so far.
pub data Sent : Type 0 where
  refused : Bytes → Sent
  stopped : Bytes → Sent
  onward : Bytes → Sent

-- `send(sockfd, p + wrotelen, length - wrotelen, flags)`, where `out` has been sent of `buffer`.
unfoldable pub send_some : Option ℕ → Bytes → Bytes → Sent
send_some none buffer out = stopped out
send_some (some n) buffer out = elim (take n (drop (length out) buffer)) [
  | [] ↦ stopped out
  | c ∷ cs ↦ onward (out ++ c ∷ cs)
]

unfoldable pub send_ready : Polled → Option ℕ → Bytes → Bytes → Sent
unfolding send_some
send_ready ready accepts buffer out = send_some accepts buffer out
send_ready timed_out accepts buffer out = refused out
send_ready (broken errno) accepts buffer out = if errno == eintr then onward out else refused out

unfoldable pub send_pass : SendRound → Bytes → Bytes → Sent
unfolding send_ready
send_pass r buffer out = if r.hup then refused out else send_ready r.polled r.accepts buffer out

abbrev pub settle : (Bytes → Option (ℤ × Bytes)) → Bytes → Sent → Option (ℤ × Bytes)
settle again buffer (refused out) = some (negsuc 0, out)
settle again buffer (stopped out) = some (pos (length out), out)
settle again buffer (onward out) = elim (ltb (length out) (length buffer)) [
  | true ↦ again out
  | false ↦ some (pos (length out), out)
]

-- The result is what is returned, and the bytes that went out.
unfoldable pub send_loop : List SendRound → Bytes → Bytes → Option (ℤ × Bytes)
unfolding send_pass
send_loop [] buffer out = none
send_loop (r ∷ rs) buffer out = settle (send_loop rs buffer) buffer (send_pass r buffer out)

unfoldable pub n_send : List SendRound → Bytes → Option (ℤ × Bytes)
unfolding send_loop
n_send rounds buffer = send_loop rounds buffer []
