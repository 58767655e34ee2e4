-- ===== src/Load/Examples.antt =====
-- Turns of test9/mul_port_client_epoll.c.
use test_linux.Base.{arith, ℕ, ◌≡◌, refl, true, some, List, [], ◌∷◌, ℤ, pos, Bytes}
use test_linux.Load.Client.{Load, test9, Answers, next_index, turns, at_start}
use test_linux.Load.Connections.{Balanced, turns-Balanced}
use test_linux.Server.State.{inc}

abbrev hello : ℤ → Bytes
hello n = b'h' ∷ []

abbrev data_from : ℕ → Bytes
data_from fd = b'd' ∷ []

abbrev two : List Answers
two =
    record { sockfd = some 4; connected = true; events = [] }
    ∷ record { sockfd = some 5; connected = true; events = [] }
    ∷ []

abbrev both : Load
both = record (at_start []) {
  index = 2;
  connections = pos 2;
  sockets = 5 ∷ 4 ∷ [];
  ports = 2 ∷ 1 ∷ [];
  sockfd = 5;
  buffer = b'h' ∷ [];
  sent = (5, b'h' ∷ []) ∷ (4, b'h' ∷ []) ∷ [];
}

connects_both : turns test9 hello data_from two (at_start []) ≡ some both
unfolding turns next_index inc
connects_both = refl

turns-Balanced_example : Balanced test9 both
turns-Balanced_example = turns-Balanced test9 hello data_from [] (omega arith) two connects_both
