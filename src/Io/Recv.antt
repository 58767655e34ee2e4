-- ===== src/Io/Recv.antt =====
-- `nRecv` of 2.3.1-coroutine/server_mulport_epoll.c. The system answers each pass of the loop with
-- a round: what `recv` finds, and, where the pass goes on to `poll`, what that returns and whether
-- POLLHUP is set. The size and the bytes left are natural numbers, where the code has an `int`; its
-- callers ask for 128 bytes. A list of rounds that ends before the loop does leaves it going: none.
use test_linux.Base.{
  ℕ, ◌-◌, Bool, true, false, ◌||◌, Option, none, some, List, [], ◌∷◌, ◌++◌, ◌==◌, length, take,
  Bytes, if◌then◌else◌,
}
use test_linux.Io.Errno.{
  eintr, eagain, enotconn, etimedout, Incoming, bytes, failed, Polled, ready, timed_out, broken,
}

pub record Round : Type 0 where
  pub incoming : Incoming
  pub hup : Bool
  pub polled : Polled

-- Where a pass leaves the loop: `break` with a code, or the next pass with one.
pub data Pass : Type 0 where
  leave : (ret_code : ℕ) → Pass
  stay : (ret_code : ℕ) → Pass

abbrev pub error_code : ℕ → ℕ
error_code errno = if errno == 0 then eintr else errno

-- After `recv` failed: the code is kept unless the error is a passing one.
unfoldable pub after_failure : (errno ret_code : ℕ) → ℕ
after_failure errno ret_code =
    if errno == eagain || errno == eintr then ret_code else error_code errno

-- The part of a pass from `poll` on.
unfoldable pub poll_pass : Bool → Polled → ℕ → Pass
poll_pass true polled ret_code = leave enotconn
poll_pass false ready ret_code = stay ret_code
poll_pass false timed_out ret_code = leave etimedout
poll_pass false (broken errno) ret_code =
    stay (if errno == eintr then ret_code else error_code errno)

-- How a pass ends: the loop is left, with what has been stored, or goes on.
pub data Next : Type 0 where
  finished : (ret_code : ℕ) → Bytes → Next
  onward : (left ret_code : ℕ) → Bytes → Next

-- After `recv` has stored the bytes `got`.
unfoldable pub store_pass : Bytes → (left ret_code : ℕ) → Bytes → Next
store_pass [] left ret_code out = finished enotconn out
store_pass (c ∷ cs) left ret_code out = onward (left - length (c ∷ cs)) ret_code (out ++ c ∷ cs)

unfoldable pub wait_pass : Pass → ℕ → Bytes → Next
wait_pass (leave code) left out = finished code out
wait_pass (stay code) left out = onward left code out

unfoldable pub recv_pass : Round → (left ret_code : ℕ) → Bytes → Next
unfolding after_failure poll_pass store_pass wait_pass
recv_pass r left ret_code out = elim (r.incoming) [
  | bytes b ↦ store_pass (take left b) left ret_code out
  | failed errno ↦ wait_pass (poll_pass r.hup r.polled (after_failure errno ret_code)) left out
]

abbrev pub follow : (ℕ → ℕ → Bytes → Option (ℕ × Bytes)) → Next → Option (ℕ × Bytes)
follow again (finished ret_code out) = some (ret_code, out)
follow again (onward left ret_code out) = again left ret_code out

-- `while (left_bytes > 0)`; `out` is what has been stored. The result is the code and the bytes.
unfoldable pub recv_loop : List Round → (left ret_code : ℕ) → Bytes → Option (ℕ × Bytes)
unfolding recv_pass
recv_loop [] left ret_code out = if left == 0 then some (ret_code, out) else none
recv_loop (r ∷ rs) left ret_code out = elim (left == 0) [
  | true ↦ some (ret_code, out)
  | false ↦ follow (recv_loop rs) (recv_pass r left ret_code out)
]

-- `*count = length - left_bytes`.
abbrev pub counted : Option (ℕ × Bytes) → Option (ℕ × Bytes × ℕ)
counted none = none
counted (some (ret_code, out)) = some (ret_code, out, length out)

-- The result code, the bytes stored, and `*count`.
unfoldable pub n_recv : List Round → ℕ → Option (ℕ × Bytes × ℕ)
unfolding recv_loop
n_recv rounds size = counted (recv_loop rounds size 0 [])
