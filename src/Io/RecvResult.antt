-- ===== src/Io/RecvResult.antt =====
-- What `nRecv` of 2.3.1-coroutine/server_mulport_epoll.c returns.
use test_linux.Base.{
  ℕ, zero, suc, ◌+◌, ◌-◌, ◌≤◌, ◌<◌, ◌≡◌, refl, ap, ◌⊎◌, inl, inr, Bool, true, false, Option, none,
  some, List, [], ◌∷◌, ◌++◌, append-nil, arith, ◌==◌, ne→==, Bool-cases, length, take,
  length-append, replicate, Bytes, length-take-le,
}
use test_linux.Io.Errno.{
  eintr, eagain, enotconn, etimedout, Incoming, bytes, failed, Polled, ready, timed_out, broken,
}
use test_linux.Io.Recv.{
  Round, after_failure, counted, Next, finished, onward, store_pass, recv_pass, follow, recv_loop,
  n_recv,
}

-- How the loop can end: with all bytes, or with fewer and one of two codes.
abbrev Ended : ℕ → Option (ℕ × Bytes) → Type 0
Ended size none = Unit
Ended size (some (code, out)) =
    (length out ≤ size) × ((length out ≡ size) ⊎ (code ≡ enotconn) ⊎ (code ≡ etimedout))

-- What a pass leaves: an end of that kind, or as many bytes to go.
abbrev Keeps : ℕ → Next → Type 0
Keeps size (finished code out) = Ended size (some (code, out))
Keeps size (onward left code out) = length out + left ≡ size

recv_pass-Keeps :
    (r : Round) (left code size : ℕ) (out : Bytes)
    → length out + left ≡ size
    → Keeps size (recv_pass r left code out)
unfolding recv_pass
recv_pass-Keeps r left code size out e = passes r.incoming r.polled r.hup
  where
    stored : (got : Bytes) → length got ≤ left → Keeps size (store_pass got left code out)
    stored [] h = (omega arith, inr (inl refl))
    stored (c ∷ cs) h = omega (arith, length-append out (c ∷ cs))

    passes :
        (i : Incoming) (p : Polled) (hup : Bool)
        → Keeps size (recv_pass (record { incoming = i; polled = p; hup = hup }) left code out)
    passes (bytes b) p hup = stored (take left b) (length-take-le left b)
    passes (failed errno) p true = (omega arith, inr (inl refl))
    passes (failed errno) ready false = e
    passes (failed errno) timed_out false = (omega arith, inr (inr refl))
    passes (failed errno) (broken errno') false = e

recv_loop-Ended :
    (rounds : List Round) (left code size : ℕ) (out : Bytes)
    → length out + left ≡ size
    → Ended size (recv_loop rounds left code out)
unfolding recv_loop
recv_loop-Ended [] left code size out e = elim (Bool-cases (left == 0)) [
  | inl z ↦ rw (z, recv_loop) (omega arith, inl (ground arith))
  | inr nz ↦ rw (nz, recv_loop) tt
]
recv_loop-Ended (r ∷ rs) left code size out e = elim (Bool-cases (left == 0)) [
  | inl z ↦ rw (z, recv_loop) (omega arith, inl (ground arith))
  | inr nz ↦
      rw (nz, recv_loop)
        (go (recv_pass r left code out) (recv_pass-Keeps r left code size out e)
          (λ l c o h. recv_loop-Ended rs l c size o h))
]
  where
    go :
        (n : Next)
        → Keeps size n
        → ((l c : ℕ) (o : Bytes) → length o + l ≡ size → Ended size (recv_loop rs l c o))
        → Ended size (follow (recv_loop rs) n)
    go (finished c o) h again = h
    go (onward l c o) h again = again l c o h

-- Whatever the system answers, `nRecv` stores no more than the buffer holds, and `*count` is what it
-- stored. If it returns with fewer bytes than asked for, its code is ENOTCONN or ETIMEDOUT.
pub n_recv-bounds :
    (rounds : List Round) (size : ℕ) {code count : ℕ} {out : Bytes}
    → n_recv rounds size ≡ some (code, out, count)
    → (count ≡ length out)
      × (count ≤ size)
      × ((count ≡ size) ⊎ (code ≡ enotconn) ⊎ (code ≡ etimedout))
unfolding n_recv
n_recv-bounds rounds size {code} {count} {out} e =
    go (recv_loop rounds size 0 []) (recv_loop-Ended rounds size 0 size [] (omega arith)) e
  where
    go :
        (o : Option (ℕ × Bytes))
        → Ended size o
        → counted o ≡ some (code, out, count)
        → (count ≡ length out)
          × (count ≤ size)
          × ((count ≡ size) ⊎ (code ≡ enotconn) ⊎ (code ≡ etimedout))
    go none h e = cc
    go (some (c, b)) h e = ground arith

abbrev payload : Incoming → Bytes
payload (bytes b) = b
payload (failed errno) = []

abbrev pub arrived : List Round → Bytes
arrived [] = []
arrived (r ∷ rs) = payload r.incoming ++ arrived rs

-- A round in which bytes come, or in which the socket is only not ready yet.
abbrev CalmWith : Incoming → Round → Type 0
CalmWith (bytes b) r = 0 < length b
CalmWith (failed errno) r =
    ((errno ≡ eagain) ⊎ (errno ≡ eintr)) × (r.hup ≡ false) × (r.polled ≡ ready)

abbrev pub IsCalm : Round → Type 0
IsCalm r = CalmWith r.incoming r

pub take-nil : (n : ℕ) → take {A = ℕ} n [] ≡ []
take-nil zero = refl
take-nil (suc n) = refl

pub recv_pass-calm :
    (i : Incoming) (hup : Bool) (p : Polled) (left : ℕ) (out : Bytes)
    → CalmWith i (record { incoming = i; hup = hup; polled = p })
    → 0 < left
    → recv_pass (record { incoming = i; hup = hup; polled = p }) left 0 out
      ≡ onward (left - length (take left (payload i))) 0 (out ++ take left (payload i))
unfolding recv_pass
recv_pass-calm (bytes []) hup p left out calm h = elim calm [ ]
recv_pass-calm (bytes (c ∷ cs)) hup p zero out calm h = elim h [ ]
recv_pass-calm (bytes (c ∷ cs)) hup p (suc left) out calm h = refl
recv_pass-calm (failed errno) hup p left out calm h =
    rw (take-nil left, append-nil out) (ground arith)

abbrev pub broken_round : ℕ → Round
broken_round errno = record { incoming = failed errno; hup = false; polled = ready }

-- A socket on which `recv` fails for good while `poll` reports it ready, without POLLHUP, is never
-- given up: the error is only kept for later, and `nRecv` does not return.
pub n_recv-endless :
    (k size errno : ℕ) → n_recv (replicate k (broken_round errno)) (suc size) ≡ none
unfolding n_recv recv_loop
n_recv-endless k size errno = ap counted (spin k 0)
  where
    spin : (k c : ℕ) → recv_loop (replicate k (broken_round errno)) (suc size) c [] ≡ none
    spin zero c = rw (ne→== (suc size) 0 (omega arith))
    spin (suc k) c =
        rw (ne→== (suc size) 0 (omega arith), recv_loop) (spin k (after_failure errno c))
