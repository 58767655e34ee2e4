-- ===== src/Demux/Examples.antt =====
-- The servers of test8/tcpserver.cpp with two clients of which the first leaves.
use test_linux.Base.{
  ℕ, zero, suc, ◌+◌, ◌<◌, ◌≡◌, ◌≢◌, refl, true, false, none, some, List, [], ◌∷◌, ok, get_elem?,
  bytes_of, ap, sym, arith,
}
use test_linux.Demux.Epoll.{
  Event, Epoll, epollio, handle_event, take_client, read_client, IsBalanced, epollio-IsBalanced,
}
use test_linux.Demux.Poll.{Pollfd, Poll, drop_client}
use mathlib.Core.Option.{some-injective}
use test_linux.Demux.Leaving.{Distinct, drop_client-wrong}

abbrev waiting : Epoll
waiting = record { watched = []; accepted = []; closed = []; shown = [] }

-- Three clients come, of which the last cannot be added; the first says hello and leaves.
abbrev events : List Event
events =
    record { fd = 3; epollin = true; accepted = some 5; added = true; received = none }
    ∷ record { fd = 3; epollin = true; accepted = some 6; added = true; received = none }
    ∷ record { fd = 3; epollin = true; accepted = some 7; added = false; received = none }
    ∷ record {
      fd = 5;
      epollin = true;
      accepted = none;
      added = false;
      received = some (bytes_of "hello");
    }
    ∷ record { fd = 5; epollin = true; accepted = none; added = false; received = none }
    ∷ []

epollio-IsBalanced_example : IsBalanced (7 ∷ []) (epollio 3 events waiting)
unfolding epollio handle_event take_client read_client
epollio-IsBalanced_example =
    epollio-IsBalanced 3 events [] waiting
      ((λ e. cc), ((λ e. cc), ((λ e. cc), ((λ e. omega arith), ((λ e. omega arith), tt)))))
      (λ fd. refl)

abbrev listening : Pollfd
listening = record { fd = 3; pollin = false }

abbrev first : Pollfd
first = record { fd = 4; pollin = true }

abbrev second : Pollfd
second = record { fd = 5; pollin = false }

abbrev polled : Poll
polled = record { pfds = listening ∷ first ∷ second ∷ []; nfds = 3; closed = []; shown = [] }

fd_at : (i : ℕ) (p : Pollfd) → get_elem? polled.pfds i ≡ some p → p.fd ≡ i + 3
fd_at zero p e = sym (ap (λ (x : Pollfd). x.fd) (some-injective listening p e))
fd_at (suc zero) p e = sym (ap (λ (x : Pollfd). x.fd) (some-injective first p e))
fd_at (suc (suc zero)) p e = sym (ap (λ (x : Pollfd). x.fd) (some-injective second p e))
fd_at (suc (suc (suc i))) p e = cc

polled-Distinct : Distinct polled
polled-Distinct i j p q h h' ne e e' = λ e''. ne (omega (arith, fd_at i p e, fd_at j q e', e''))

-- The second client's descriptor is closed and polled on, the first one's is lost.
drop_client-wrong_example :
    (leaver : Pollfd) × (last : Pollfd) × (t : Poll) × (get_elem? polled.pfds 1 ≡ some leaver)
    × (get_elem? polled.pfds 2 ≡ some last)
    × (drop_client 1 polled ≡ ok t)
    × (t.nfds ≡ 2)
    × (t.closed ≡ last.fd ∷ [])
    × (get_elem? t.pfds 1 ≡ some last)
    × (leaver.fd ≢ last.fd)
    × ((j : ℕ) (p : Pollfd) → j < t.nfds → get_elem? t.pfds j ≡ some p → p.fd ≢ leaver.fd)
drop_client-wrong_example = drop_client-wrong 1 polled (omega arith) (omega arith) polled-Distinct
