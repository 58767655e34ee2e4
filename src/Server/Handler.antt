-- ===== src/Server/Handler.antt =====
-- `client_data_process` and `client_job` of 2.3.1-coroutine/server_mulport_epoll.c, which treat a
-- ready client alike. The system's answers are given: the rounds of `nRecv` and those of `nSend`.
-- A loop that is still going is out_of_fuel; a text that is read past its buffer is a fault.
use test_linux.Base.{
  ℕ, ◌-◌, Bool, false, ◌||◌, none, some, List, [], ◌∷◌, ◌++◌, ◌==◌, ltb, length, replicate, Run, ok,
  out_of_fuel, ◌>>=◌, Bytes, c_str, if◌then◌else◌,
}
use test_linux.Io.Errno.{enotconn}
use test_linux.Io.Echo.{max_buffer}
use test_linux.Io.Recv.{Round, n_recv}
use test_linux.Io.Send.{SendRound, n_send}
use test_linux.Server.State.{Server, dec}

-- The buffer after `bzero` and `nRecv`.
unfoldable pub buffer_with : Bytes → Bytes
buffer_with got = got ++ replicate (max_buffer - length got) 0

abbrev pub starts_with_a : Bytes → Bool
starts_with_a [] = false
starts_with_a (c ∷ cs) = c == b'a'

-- `nSend(clientfd, buffer, strlen(buffer), 0)`; its result is not used.
unfoldable pub reply : Server → ℕ → List SendRound → Bytes → Run Server
reply s fd sends got = do
  text ← c_str (buffer_with got)
  elim (n_send sends text) [
    | none ↦ out_of_fuel
    | some (result, out) ↦ ok (record s { replies = (fd, out) ∷ s.replies })
  ]

abbrev pub hang_up : Server → ℕ → Server
hang_up s fd = record s { curfds = dec s.curfds; closed = fd ∷ s.closed }

-- The branches on `length` and `ret`.
unfoldable pub answer : Server → ℕ → List SendRound → ℕ → Bytes → ℕ → Run Server
unfolding reply
answer s fd sends ret got count =
    if ltb 0 count
    then (if s.n_run || starts_with_a got then reply s fd sends got else ok s)
    else if ret == enotconn
    then ok (hang_up s fd)
    else ok s

unfoldable pub client_data_process :
    Server → (clientfd : ℕ) → List Round → List SendRound → Run Server
unfolding answer
client_data_process s clientfd rounds sends = elim (n_recv rounds max_buffer) [
  | none ↦ out_of_fuel
  | some (ret, got, count) ↦ answer s clientfd sends ret got count
]

-- The job does the same for its own descriptor, `rClient->fd`, and frees `rClient` and itself.
unfoldable pub client_job : Server → (job_fd : ℕ) → List Round → List SendRound → Run Server
unfolding client_data_process
client_job s job_fd rounds sends = client_data_process s job_fd rounds sends
