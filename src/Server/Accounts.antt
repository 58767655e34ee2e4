-- ===== src/Server/Accounts.antt =====
-- What the counters of 2.3.1-coroutine/server_mulport_epoll.c keep to over any run of the
-- event loop and the jobs.
use test_linux.Base.{
  ℕ, zero, suc, ◌+◌, ◌<◌, ◌≡◌, refl, ap, subst, ◌∙◌, ◌⊎◌, inl, inr, Bool, true, false, Option, none,
  some, List, [], ◌∷◌, ◌++◌, arith, ℤ, pos, negsuc, Run, ok, ◌>>=◌, >>=-eq-ok, length, Bool-cases,
}
use test_linux.Io.Recv.{Round}
use test_linux.Io.Send.{SendRound}
use test_linux.Server.State.{Server, listenfd, inc, dec}
use test_linux.Server.Handler.{client_data_process, client_job}
use test_linux.Server.Loop.{
  Main, exits, runs, Opening, open_ports, prepend, Event, welcome, accept_client, client_ready,
  handle_event, Turn, event, job, Reach, begins, turns,
}

abbrev pub positive : ℤ → ℕ
positive (pos n) = n
positive (negsuc n) = 0

abbrev pub negative : ℤ → ℕ
negative (pos n) = 0
negative (negsuc n) = suc n

record Inv (fds : List ℕ) (s : Server) : Type 0 where
  sockets : s.sockfds ≡ fds
  balance : positive s.curfds + length s.closed ≡ 1 + length s.accepted + negative s.curfds
  busy : s.n_run ≡ true → 1000000 < length s.accepted

module _ {fds : List ℕ} where
  hang_up-Inv :
      (s : Server) (fd : ℕ)
      → Inv fds s
      → Inv fds (record s { curfds = dec s.curfds; closed = fd ∷ s.closed })
  unfolding dec
  hang_up-Inv s fd inv = ground arith

  welcome-Inv : (s : Server) (fd : ℕ) → Inv fds s → Inv fds (welcome s fd)
  unfolding welcome inc
  welcome-Inv s fd inv = ground arith

  client_data_process-Inv :
      (s t : Server) (fd : ℕ) (rounds : List Round) (sends : List SendRound)
      → client_data_process s fd rounds sends ≡ ok t
      → Inv fds s
      → Inv fds t
  unfolding client_data_process
  client_data_process-Inv s t fd rounds sends e inv = ground (arith, hang_up-Inv s fd inv)

  client_ready-Inv :
      (s t : Server) (fd : ℕ) (e : Event) → client_ready s fd e ≡ ok t → Inv fds s → Inv fds t
  unfolding client_ready
  client_ready-Inv s t fd e h inv = elim (Bool-cases (s.n_run)) [
    | inl run ↦ client_data_process-Inv s t fd e.rounds e.sends (rw (run, client_ready) at h) inv
    | inr idle ↦ ground arith
  ]

  handle_event-Inv :
      (s t : Server) (fd : ℕ) (e : Event)
      → handle_event s fd e ≡ ok (runs t)
      → Inv fds s
      → Inv fds t
  unfolding handle_event
  handle_event-Inv s t fd e h inv = by_listener (listenfd fd s.sockfds) h
    where
      by_listener :
          (l : ℕ)
          → ◌≡◌ {A = Run (Main Server)}
              (elim l [
                | zero ↦ do t ← client_ready s fd e; ok (runs t)
                | suc sockfd ↦ ok (accept_client s e.accepted)
              ])
              (ok (runs t))
          → Inv fds t
      by_listener zero h' =
          let (u, e₁, e₂) = >>=-eq-ok (client_ready s fd e) _ h' in
          let same : u ≡ t = cc in client_ready-Inv s t fd e (e₁ ∙ ap ok same) inv
      by_listener (suc l) h' = welcomed e.accepted h'
        where
          welcomed : (o : Option ℕ) → ok (accept_client s o) ≡ ok (runs t) → Inv fds t
          welcomed none h'' = cc
          welcomed (some clientfd) h'' =
              let same : welcome s clientfd ≡ t = cc in
              subst (Inv fds) same (welcome-Inv s clientfd inv)

  client_job-Inv :
      (s t : Server) (fd : ℕ) (rounds : List Round) (sends : List SendRound)
      → client_job s fd rounds sends ≡ ok t
      → Inv fds s
      → Inv fds t
  unfolding client_job
  client_job-Inv s t fd rounds sends e inv = client_data_process-Inv s t fd rounds sends e inv

  Turn-Inv : {s t : Server} → Turn s t → Inv fds s → Inv fds t
  Turn-Inv {s} (event fd e {t} h) inv = handle_event-Inv s t fd e h inv
  Turn-Inv {s} (job front back job_fd rounds sends {t} queued h) inv =
      client_job-Inv (record s { queue = front ++ back }) t job_fd rounds sends h
        (record { sockets = inv.sockets; balance = inv.balance; busy = inv.busy })

  Reach-Inv : {s : Server} → Reach fds s → Inv fds s
  Reach-Inv begins = record { sockets = refl; balance = omega arith; busy = λ e. cc }
  Reach-Inv (turns r turn) = Turn-Inv turn (Reach-Inv r)

  -- In every run in which the event loop's turns and the queued jobs on the pool's threads come one
  -- after another, no two of them between the read and the write of `curfds`: `curfds` is one more
  -- than the clients accepted less those closed by the loop's handler or by a job, the listening
  -- sockets stay the same, and `nRun` is set only after more than a million clients have been
  -- accepted.
  pub Reach-accounts :
      {s : Server}
      → Reach fds s
      → (s.sockfds ≡ fds)
        × (positive s.curfds + length s.closed ≡ 1 + length s.accepted + negative s.curfds)
        × (s.n_run ≡ true → 1000000 < length s.accepted)
  Reach-accounts r = let inv = Reach-Inv r in (inv.sockets, inv.balance, inv.busy)

-- The descriptors that the system returned, of ports that were bound and are listened on.
abbrev pub Opened : List Opening → List ℕ → Type 0
Opened [] [] = Unit
Opened [] (fd ∷ fds) = ⊥
Opened (o ∷ os) [] = ⊥
Opened (o ∷ os) (fd ∷ fds) =
    (o.sockfd ≡ some fd) × (o.bound ≡ true) × (o.listening ≡ true) × Opened os fds

-- What the start of `main` comes to: every port open, or the code of the first failure.
abbrev pub Start : List Opening → Main (List ℕ) → Type 0
Start os (runs fds) = Opened os fds
Start os (exits code) = (code ≡ 1) ⊎ (code ≡ 2) ⊎ (code ≡ 3)

-- `main` reaches its event loop only when every port has been opened, bound and listened on, with
-- their sockets in the order of the ports; otherwise it returns 1, 2 or 3.
pub open_ports-Start : (os : List Opening) → Start os (open_ports os)
unfolding open_ports
open_ports-Start [] = tt
open_ports-Start (o ∷ os) = opened o.sockfd o.bound o.listening (open_ports-Start os)
  where
    further :
        (fd : ℕ) (m : Main (List ℕ))
        → Start os m
        → Start (record { sockfd = some fd; bound = true; listening = true } ∷ os) (prepend fd m)
    further fd (runs fds) h = (refl, refl, refl, h)
    further fd (exits code) h = h

    opened :
        (fd : Option ℕ) (b l : Bool)
        → Start os (open_ports os)
        → Start
            (record { sockfd = fd; bound = b; listening = l } ∷ os)
            (open_ports (record { sockfd = fd; bound = b; listening = l } ∷ os))
    opened none b l h = inl refl
    opened (some fd) false l h = inr (inl refl)
    opened (some fd) true false h = inr (inr refl)
    opened (some fd) true true h = further fd (open_ports os) h
