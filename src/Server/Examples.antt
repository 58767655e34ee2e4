-- ===== src/Server/Examples.antt =====
-- Runs of the handlers of 2.3.1-coroutine/server_mulport_epoll.c on concrete answers.
use test_linux.Base.{
  ℕ, ◌≡◌, ◌+◌, ◌<◌, ◌⊎◌, refl, true, false, some, none, List, [], ◌∷◌, arith, pos, replicate, ok,
}
use test_linux.Io.Errno.{enotconn, bytes, ready}
use test_linux.Io.Echo.{max_buffer}
use test_linux.Io.Recv.{Round, n_recv}
use test_linux.Io.RecvClose.{round_of}
use test_linux.Io.Send.{SendRound}
use test_linux.Server.State.{Server, dec, inc, listenfd}
use test_linux.Server.Handler.{client_data_process, client_job}
use test_linux.Server.Loop.{Event, handle_event, at_start, event, job, Reach, begins, turns}
use test_linux.Server.Race.{Halves, job_loads, curfds-lost}
use test_linux.Server.Accounts.{positive, Reach-accounts}
use test_linux.Server.Replies.{client_data_process-echo, client_data_process-closed}

-- `abc`, then the peer's close.
abbrev last_words : List Round
last_words = round_of (bytes (97 ∷ 98 ∷ 99 ∷ [])) false ready ∷ round_of (bytes []) false ready ∷ []

abbrev just_closed : List Round
just_closed = round_of (bytes []) false ready ∷ []

abbrev takes_all : List SendRound
takes_all = replicate 3 (record { hup = false; polled = ready; accepts = some 128 })

abbrev listening : Server
listening = at_start (3 ∷ 4 ∷ [])

received : n_recv last_words max_buffer ≡ some (enotconn, 97 ∷ 98 ∷ 99 ∷ [], 3)
unfolding n_recv
received = refl

nothing : n_recv just_closed max_buffer ≡ some (enotconn, [], 0)
unfolding n_recv
nothing = refl

client_data_process-echo_example :
    client_data_process listening 7 last_words takes_all
    ≡ ok (record listening { replies = (7, 97 ∷ 98 ∷ 99 ∷ []) ∷ [] })
client_data_process-echo_example =
    client_data_process-echo listening 7 last_words takes_all (97 ∷ 98 ∷ 99 ∷ []) received
      (omega arith) (omega arith) (omega arith, (omega arith, (omega arith, tt))) refl
      ((refl, refl, (127, refl)), ((refl, refl, (127, refl)), ((refl, refl, (127, refl)), tt)))
      (omega arith)

abbrev Zero : ℕ → Type 0
Zero n = n ≡ 0

abbrev Fds : List ℕ → List ℕ → Type 0
Fds xs ys = xs ≡ ys

hung_up :
    client_data_process listening 7 just_closed takes_all
    ≡ ok (record listening { curfds = pos 0; closed = 7 ∷ [] })
unfolding client_data_process n_recv dec
hung_up = refl

client_data_process-closed_example :
    (Zero 0 × (enotconn ≡ enotconn) × Fds (7 ∷ []) (7 ∷ []) × (pos 0 ≡ dec (pos 1)))
    ⊎ ((0 < 0) ⊎ Zero 0 × ¬ (enotconn ≡ enotconn)) × Fds (7 ∷ []) [] × (pos 0 ≡ pos 1)
client_data_process-closed_example =
    client_data_process-closed listening 7 just_closed takes_all nothing hung_up

-- A client is accepted on the socket 3, a job is made for it, and the job finds it gone.
abbrev welcomed : Server
welcomed = record listening { curfds = pos 2; accepted = 7 ∷ [] }

abbrev newcomer : Event
newcomer = record { accepted = some 8; allocated = true; rounds = []; sends = [] }

abbrev arrival : Event
arrival = record { accepted = some 7; allocated = true; rounds = []; sends = [] }

abbrev readable : Event
readable = record { accepted = none; allocated = true; rounds = []; sends = [] }

abbrev queued : Server
queued = record listening { curfds = pos 2; accepted = 7 ∷ []; queue = 7 ∷ [] }

abbrev served : Server
served = record queued { curfds = pos 1; queue = []; closed = 7 ∷ [] }

served-Reach : Reach (3 ∷ 4 ∷ []) served
unfolding handle_event listenfd inc client_job client_data_process n_recv dec
served-Reach =
    turns
      (turns (turns begins (event 3 arrival {t = welcomed} refl))
        (event 7 readable {t = queued} refl))
      (job [] [] 7 just_closed [] {t = served} refl refl)

Reach-accounts_example :
    Fds (3 ∷ 4 ∷ []) (3 ∷ 4 ∷ [])
    × (positive (pos 1) + 1 ≡ 1 + 1 + 0)
    × (false ≡ true → 1000000 < 1)
Reach-accounts_example = Reach-accounts served-Reach

curfds-lost_example :
    (t : Server) × Halves queued [] t []
    × (t.accepted ≡ 8 ∷ 7 ∷ [])
    × (t.closed ≡ 7 ∷ [])
    × (t.queue ≡ [])
    × (t.curfds ≡ dec (pos 2))
unfolding job_loads n_recv listenfd
curfds-lost_example =
    curfds-lost queued [] [] 7 just_closed (pos 2) 3 2 8 newcomer refl refl refl refl
