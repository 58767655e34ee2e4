-- ===== src/Io/Examples.antt =====
-- Runs of the socket loops of 2.3.1-coroutine/server_mulport_epoll.c on concrete answers.
use test_linux.Base.{ℕ, ◌≡◌, refl, false, some, List, [], ◌∷◌, arith, Bytes, pos}
use test_linux.Io.Errno.{eagain, etimedout, bytes, failed, ready, timed_out}
use test_linux.Io.Recv.{Round, n_recv}
use test_linux.Io.RecvClose.{round_of}
use test_linux.Io.Send.{SendRound, n_send}
use test_linux.Io.SendResult.{Answer, n_send-Answer, n_send-whole}

-- `ab`, a pass in which nothing is there yet, `cde`.
abbrev two_parts : List Round
two_parts =
    round_of (bytes (97 ∷ 98 ∷ [])) false ready
    ∷ round_of (failed eagain) false ready
    ∷ round_of (bytes (99 ∷ 100 ∷ 101 ∷ [])) false ready
    ∷ []

four_of_five : n_recv two_parts 4 ≡ some (0, 97 ∷ 98 ∷ 99 ∷ 100 ∷ [], 4)
unfolding n_recv
four_of_five = refl

-- `ab`, then nothing until the time is over.
abbrev silent_peer : List Round
silent_peer =
    round_of (bytes (97 ∷ 98 ∷ [])) false ready ∷ round_of (failed eagain) false timed_out ∷ []

abbrev two_in_time_count : ℕ
two_in_time_count = 2

two_in_time : n_recv silent_peer 4 ≡ some (etimedout, 97 ∷ 98 ∷ [], 2)
unfolding n_recv
two_in_time = refl

-- A socket that takes two bytes, then all.
abbrev slow_peer : List SendRound
slow_peer =
    record { hup = false; polled = ready; accepts = some 2 }
    ∷ record { hup = false; polled = ready; accepts = some 9 }
    ∷ record { hup = false; polled = ready; accepts = some 9 }
    ∷ []

abbrev three_bytes : Bytes
three_bytes = 1 ∷ 2 ∷ 3 ∷ []

n_send-Answer_example : Answer three_bytes (n_send slow_peer three_bytes)
n_send-Answer_example = n_send-Answer slow_peer three_bytes

n_send-whole_example : n_send slow_peer three_bytes ≡ some (pos 3, three_bytes)
n_send-whole_example =
    n_send-whole slow_peer three_bytes
      ((refl, refl, (1, refl)), ((refl, refl, (8, refl)), ((refl, refl, (8, refl)), tt)))
      (omega arith) (omega arith)

abbrev chunks : List Bytes
chunks = (97 ∷ 98 ∷ []) ∷ (99 ∷ []) ∷ []
