-- ===== src/Io/Errno.antt =====
-- Error numbers and the results of system calls, as Linux gives them to the loops of
-- 2.3.1-coroutine/server_mulport_epoll.c.
use test_linux.Base.{ℕ, Bytes}

abbrev pub eintr : ℕ
eintr = 4

-- EWOULDBLOCK is the same number.
abbrev pub eagain : ℕ
eagain = 11

abbrev pub enotconn : ℕ
enotconn = 107

abbrev pub etimedout : ℕ
etimedout = 110

-- What `recv` finds: bytes, of which it copies as many as were asked for (no bytes: the peer has
-- closed), or an error.
pub data Incoming : Type 0 where
  bytes : Bytes → Incoming
  failed : (errno : ℕ) → Incoming

-- What `poll` on one descriptor returns.
pub data Polled : Type 0 where
  ready : Polled
  timed_out : Polled
  broken : (errno : ℕ) → Polled
