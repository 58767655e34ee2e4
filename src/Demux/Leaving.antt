-- ===== src/Demux/Leaving.antt =====
-- What `pollio` of test8/tcpserver.cpp does when a client leaves.
use test_linux.Base.{
  ℕ, zero, suc, ◌+◌, ◌-◌, ◌≤◌, ◌<◌, ◌≡◌, ◌≢◌, refl, ap, sym, ◌∙◌, some, List, [], ◌∷◌, length,
  get_elem?, ok, arith, inl, inr, eq-cases,
}
use mathlib.Core.Option.{some-injective}
use test_linux.Demux.Poll.{Pollfd, Poll, set_entry, entry, drop_client}

-- An entry inside the array.
get_elem?-inside :
    (ps : List Pollfd) (i : ℕ) → i < length ps → (p : Pollfd) × (get_elem? ps i ≡ some p)
get_elem?-inside [] i h = absurd (omega arith)
get_elem?-inside (p ∷ ps) zero h = (p, refl)
get_elem?-inside (p ∷ ps) (suc i) h = get_elem?-inside ps i (omega arith)

set_entry-inside :
    (ps : List Pollfd) (i : ℕ) (e : Pollfd)
    → i < length ps
    → (qs : List Pollfd) × (set_entry ps i e ≡ ok qs)
      × (get_elem? qs i ≡ some e)
      × ((j : ℕ) → i ≢ j → get_elem? qs j ≡ get_elem? ps j)
unfolding set_entry
set_entry-inside [] i e h = absurd (omega arith)
set_entry-inside (p ∷ ps) zero e h = (e ∷ ps, refl, refl, kept)
  where
    kept : (j : ℕ) → 0 ≢ j → get_elem? (e ∷ ps) j ≡ get_elem? (p ∷ ps) j
    kept zero ne = absurd (ne refl)
    kept (suc j) ne = refl
set_entry-inside (p ∷ ps) (suc i) e h =
    let (qs, set, here, kept) = set_entry-inside ps i e (omega arith) in
    (p ∷ qs, rw set refl, here, both qs kept)
  where
    both :
        (qs : List Pollfd)
        → ((j : ℕ) → i ≢ j → get_elem? qs j ≡ get_elem? ps j)
        → (j : ℕ) → suc i ≢ j
        → get_elem? (p ∷ qs) j ≡ get_elem? (p ∷ ps) j
    both qs kept zero ne = refl
    both qs kept (suc j) ne = kept j (λ e'. ne (ap suc e'))

-- No descriptor stands at two used entries.
abbrev pub Distinct : Poll → Type 0
Distinct s =
    (i j : ℕ) (p q : Pollfd)
    → i < s.nfds
    → j < s.nfds
    → i ≢ j
    → get_elem? s.pfds i ≡ some p
    → get_elem? s.pfds j ≡ some q
    → p.fd ≢ q.fd

-- Where the descriptors in use are distinct and the entries in use lie in the array, and a client
-- leaves that does not stand last: the descriptor that is closed is that of the last client, which
-- is polled on at the place of the leaver; the leaver's own descriptor is not the one that is
-- closed, and no entry in use holds it any more.
pub drop_client-wrong :
    (i : ℕ) (s : Poll)
    → i + 1 < s.nfds
    → s.nfds ≤ length s.pfds
    → Distinct s
    → (leaver : Pollfd) × (last : Pollfd) × (t : Poll) × (get_elem? s.pfds i ≡ some leaver)
      × (get_elem? s.pfds (s.nfds - 1) ≡ some last)
      × (drop_client i s ≡ ok t)
      × (t.nfds ≡ s.nfds - 1)
      × (t.closed ≡ last.fd ∷ s.closed)
      × (get_elem? t.pfds i ≡ some last)
      × (leaver.fd ≢ last.fd)
      × ((j : ℕ) (p : Pollfd) → j < t.nfds → get_elem? t.pfds j ≡ some p → p.fd ≢ leaver.fd)
unfolding drop_client entry
drop_client-wrong i s inside fits distinct =
    let (leaver, at_i) = get_elem?-inside s.pfds i (omega arith) in
    let (last, at_end) = get_elem?-inside s.pfds (s.nfds - 1) (omega arith) in
    let (qs, set, here, kept) = set_entry-inside s.pfds i last (omega arith) in
    let other : leaver.fd ≢ last.fd =
      distinct i (s.nfds - 1) leaver last (omega arith) (omega arith) (omega arith) at_i at_end in
    (
      leaver,
      last,
      record s { pfds = qs; nfds = s.nfds - 1; closed = last.fd ∷ s.closed },
      at_i,
      at_end,
      rw at_end (rw set (rw here refl)),
      refl,
      refl,
      here,
      other,
      λ j p below at. gone qs leaver last j p at_i here kept other below at,
    )
  where
    gone :
        (qs : List Pollfd) (leaver last : Pollfd) (j : ℕ) (p : Pollfd)
        → get_elem? s.pfds i ≡ some leaver
        → get_elem? qs i ≡ some last
        → ((j : ℕ) → i ≢ j → get_elem? qs j ≡ get_elem? s.pfds j)
        → leaver.fd ≢ last.fd
        → j < s.nfds - 1
        → get_elem? qs j ≡ some p
        → p.fd ≢ leaver.fd
    gone qs leaver last j p at_i here kept other below at = elim (eq-cases i j) [
      | inl e ↦
          let same : last ≡ p = some-injective last p (sym here ∙ ap (get_elem? qs) e ∙ at) in
          λ e'. other (sym (ap (λ (x : Pollfd). x.fd) same ∙ e'))
      | inr ne ↦
          distinct j i p leaver (omega arith) (omega arith) (λ e. ne (sym e)) (sym (kept j ne) ∙ at)
            at_i
    ]
