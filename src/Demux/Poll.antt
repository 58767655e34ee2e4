-- ===== src/Demux/Poll.antt =====
-- `pollio` of test8/tcpserver.cpp. The array `pfds` has 1024 entries, of which `nfds` are used; what
-- `poll` reports, and what `accept` and `recv` give, stands with each turn.
use test_linux.Base.{
  ℕ, zero, suc, ◌+◌, ◌-◌, Bool, true, false, Option, none, some, List, [], ◌∷◌, ltb, get_elem?, Run,
  ok, fault, out_of_fuel, ◌>>=◌, or_fault, Bytes,
}

-- `events` is POLLIN in every entry in use.
pub record Pollfd : Type 0 where
  pub fd : ℕ
  pub pollin : Bool  -- POLLIN in `revents`

pub record Poll : Type 0 where
  pub pfds : List Pollfd
  pub nfds : ℕ
  pub closed : List ℕ
  pub shown : List Bytes

-- `pfds[i] = e`.
unfoldable pub set_entry : List Pollfd → ℕ → Pollfd → Run (List Pollfd)
set_entry [] i e = fault
set_entry (p ∷ ps) zero e = ok (e ∷ ps)
set_entry (p ∷ ps) (suc i) e = do ps ← set_entry ps i e; ok (p ∷ ps)

unfoldable pub entry : List Pollfd → ℕ → Run Pollfd
entry ps i = or_fault (get_elem? ps i)

-- `poll` writes `revents` of the used entries.
unfoldable pub mark : (ready : ℕ → Bool) → (n : ℕ) → List Pollfd → List Pollfd
mark ready zero ps = ps
mark ready (suc n) [] = []
mark ready (suc n) (p ∷ ps) = record p { pollin = ready 0 } ∷ mark (λ i. ready (suc i)) n ps

-- A new client behind the used entries; its `revents` are what the entry held.
unfoldable pub add_client : ℕ → Poll → Run Poll
add_client fd s = do
  old ← entry s.pfds s.nfds
  pfds ← set_entry s.pfds s.nfds (record old { fd = fd })
  ok (record s { pfds = pfds; nfds = s.nfds + 1 })

-- The last entry in place of entry i; then the descriptor at i is closed.
unfoldable pub drop_client : (i : ℕ) → Poll → Run Poll
drop_client i s = do
  last ← entry s.pfds (s.nfds - 1)
  pfds ← set_entry s.pfds i last
  left ← entry pfds i
  ok (record s { pfds = pfds; nfds = s.nfds - 1; closed = left.fd ∷ s.closed })

unfoldable pub read_entry : (recv : Option Bytes) → (i : ℕ) → Poll → Run Poll
read_entry none i s = drop_client i s
read_entry (some b) i s = ok (record s { shown = b ∷ s.shown })

-- The loop over the clients, from entry i on.
unfoldable pub read_from : (fuel : ℕ) (recv : ℕ → Option Bytes) (i : ℕ) → Poll → Run Poll
read_from zero recv i s = out_of_fuel
read_from (suc n) recv i s = elim (ltb i s.nfds) [
  | false ↦ ok s
  | true ↦ do
    e ← entry s.pfds i
    s ← elim e.pollin [ true ↦ read_entry (recv i) i s | false ↦ ok s ]
    read_from n recv (i + 1) s
]

pub record Turn : Type 0 where
  pub ready : ℕ → Bool
  pub accepted : Option ℕ
  pub recv : ℕ → Option Bytes

-- After the listening socket has been seen to; a turn in which `accept` fails ends there.
unfoldable pub accept_turn : (fuel : ℕ) → Turn → Bool → Poll → Run Poll
accept_turn fuel t false s = read_from fuel t.recv 1 s
accept_turn fuel t true s = elim (t.accepted) [
  | none ↦ ok s
  | some fd ↦ do s ← add_client fd s; read_from fuel t.recv 1 s
]

-- A turn in which `poll` succeeds.
unfoldable pub poll_turn : (fuel : ℕ) → Turn → Poll → Run Poll
poll_turn fuel t s = do
  let marked : Poll = record s { pfds = mark t.ready s.nfds s.pfds }
  first ← entry marked.pfds 0
  accept_turn fuel t first.pollin marked

unfoldable pub pollio : (fuel : ℕ) → List Turn → Poll → Run Poll
pollio fuel [] s = ok s
pollio fuel (t ∷ turns) s = do s ← poll_turn fuel t s; pollio fuel turns s
