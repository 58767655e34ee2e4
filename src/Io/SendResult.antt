-- ===== src/Io/SendResult.antt =====
-- What `nSend` of 2.3.1-coroutine/server_mulport_epoll.c sends and returns.
use test_linux.Base.{
  ℕ, suc, ◌+◌, ◌≤◌, ◌<◌, ◌≡◌, refl, ap, sym, ◌∙◌, inl, inr, Bool, true, false, Option, none, some,
  List, [], ◌∷◌, ◌++◌, append_assoc, append-nil, arith, ltb, ◌==◌, if◌then◌else◌, Bool-cases,
  length, take, drop, All, length-append, take-append-drop, Bytes, ℤ, pos, negsuc, drop-append,
}
use test_linux.Io.Errno.{eintr, Polled, ready, timed_out, broken}
use test_linux.Io.Send.{
  SendRound, Sent, refused, stopped, onward, send_some, send_ready, send_pass, settle, send_loop,
  n_send,
}

-- What is sent is the beginning of the buffer.
abbrev pub Prefix : Bytes → Bytes → Type 0
Prefix out buffer = (rest : Bytes) × (buffer ≡ out ++ rest)

abbrev SentPrefix : Bytes → Sent → Type 0
SentPrefix buffer (refused out) = Prefix out buffer
SentPrefix buffer (stopped out) = Prefix out buffer
SentPrefix buffer (onward out) = Prefix out buffer

abbrev pub Answer : Bytes → Option (ℤ × Bytes) → Type 0
Answer buffer none = Unit
Answer buffer (some (pos n, out)) = (n ≡ length out) × Prefix out buffer
Answer buffer (some (negsuc k, out)) = (k ≡ 0) × Prefix out buffer

send_some-Prefix :
    (accepts : Option ℕ) (buffer out : Bytes)
    → Prefix out buffer
    → SentPrefix buffer (send_some accepts buffer out)
unfolding send_some
send_some-Prefix none buffer out p = p
send_some-Prefix (some n) buffer out (rest, e) = go (take n more) (drop n more) split
  where
    more : Bytes
    more = drop (length out) buffer

    more-rest : more ≡ rest
    more-rest = rw e (drop-append out rest)

    split : buffer ≡ out ++ (take n more ++ drop n more)
    split = e ∙ ap (λ (b : Bytes). out ++ b) (sym (take-append-drop n more ∙ more-rest))

    go :
        (taken left : Bytes)
        → buffer ≡ out ++ (taken ++ left)
        → SentPrefix buffer (elim taken [ [] ↦ stopped out | c ∷ cs ↦ onward (out ++ c ∷ cs) ])
    go [] left e' = (rest, e)
    go (c ∷ cs) left e' = (left, e' ∙ sym (append_assoc out (c ∷ cs) left))

send_pass-Prefix :
    (r : SendRound) (buffer out : Bytes)
    → Prefix out buffer
    → SentPrefix buffer (send_pass r buffer out)
unfolding send_pass
send_pass-Prefix r buffer out p = go r.hup r.polled
  where
    go :
        (hup : Bool) (polled : Polled)
        → SentPrefix buffer
            (send_pass (record { hup = hup; polled = polled; accepts = r.accepts }) buffer out)
    go true polled = p
    go false ready = send_some-Prefix r.accepts buffer out p
    go false timed_out = p
    go false (broken errno) = elim (Bool-cases (errno == eintr)) [
      | inl t ↦ rw (t, if◌then◌else◌) p
      | inr f ↦ rw (f, if◌then◌else◌) p
    ]

send_loop-Answer :
    (rounds : List SendRound) (buffer out : Bytes)
    → Prefix out buffer
    → Answer buffer (send_loop rounds buffer out)
unfolding send_loop
send_loop-Answer [] buffer out p = tt
send_loop-Answer (r ∷ rs) buffer out p =
    go (send_pass r buffer out) (send_pass-Prefix r buffer out p) (send_loop-Answer rs buffer)
  where
    go :
        (s : Sent)
        → SentPrefix buffer s
        → ((o : Bytes) → Prefix o buffer → Answer buffer (send_loop rs buffer o))
        → Answer buffer (settle (send_loop rs buffer) buffer s)
    go (refused o) p again = (refl, p)
    go (stopped o) p again = (refl, p)
    go (onward o) p again = elim (Bool-cases (ltb (length o) (length buffer))) [
      | inl t ↦ rw (t, settle) (again o p)
      | inr f ↦ rw (f, settle) (refl, p)
    ]

-- Whatever the system answers, what `nSend` has sent when it returns is a beginning of the buffer,
-- in order and with no gap. It returns -1, or the number of those bytes.
pub n_send-Answer :
    (rounds : List SendRound) (buffer : Bytes) → Answer buffer (n_send rounds buffer)
unfolding n_send
n_send-Answer rounds buffer = send_loop-Answer rounds buffer [] (buffer, refl)

-- A round in which the socket is ready and takes something.
abbrev pub IsOpen : SendRound → Type 0
IsOpen r = (r.hup ≡ false) × (r.polled ≡ ready) × ((k : ℕ) × (r.accepts ≡ some (suc k)))

send_pass-open :
    (r : SendRound) (buffer out : Bytes)
    → IsOpen r
    → Prefix out buffer
    → length out < length buffer
    → (more : Bytes) × (send_pass r buffer out ≡ onward more)
      × (length out < length more)
      × Prefix more buffer
unfolding send_pass send_some
send_pass-open r buffer out (up, fine, (k, e)) ([], eb) h =
    absurd (omega (arith, ap length eb, length-append out []))
send_pass-open r buffer out (up, fine, (k, e)) (c ∷ cs, eb) h = (
  out ++ c ∷ take k cs,
  rw (up, if◌then◌else◌, fine, send_ready, e, send_some, rest, take),
  omega (arith, length-append out (c ∷ take k cs)),
  (drop k cs, split),
)
  where
    rest : drop (length out) buffer ≡ c ∷ cs
    rest = rw eb (drop-append out (c ∷ cs))

    split : buffer ≡ (out ++ c ∷ take k cs) ++ drop k cs
    split =
        eb
        ∙ ap (λ (b : Bytes). out ++ c ∷ b) (sym (take-append-drop k cs))
        ∙ sym (append_assoc out (c ∷ take k cs) (drop k cs))

send_loop-whole :
    (rounds : List SendRound) (buffer out : Bytes)
    → All IsOpen rounds
    → Prefix out buffer
    → length out < length buffer
    → length buffer ≤ length out + length rounds
    → send_loop rounds buffer out ≡ some (pos (length buffer), buffer)
unfolding send_loop
send_loop-whole [] buffer out is p h enough = absurd (omega arith)
send_loop-whole (r ∷ rs) buffer out is p h enough =
    let (more, e, grows, p') = send_pass-open r buffer out is.0 p h in
    rw e (elim (Bool-cases (ltb (length more) (length buffer))) [
      | inl t ↦ rw (t, settle) (send_loop-whole rs buffer more is.1 p' (ground arith) (omega arith))
      | inr f ↦ rw (f, settle) (whole more p' (ground arith))
    ])
  where
    whole :
        (o : Bytes)
        → Prefix o buffer
        → length buffer ≤ length o
        → ◌≡◌ {A = Option (ℤ × Bytes)}
            (some (pos (length o), o))
            (some (pos (length buffer), buffer))
    whole o ([], e) h = ap (λ (b : Bytes). some (pos (length b), b)) (sym (e ∙ append-nil o))
    whole o (c ∷ cs, e) h = absurd (omega (arith, ap length e, length-append o (c ∷ cs)))

-- While the socket stays ready and takes at least a byte each time, `nSend` sends the whole of a
-- buffer that is not empty, in at most as many passes as it has bytes, and returns its length.
pub n_send-whole :
    (rounds : List SendRound) (buffer : Bytes)
    → All IsOpen rounds
    → 0 < length buffer
    → length buffer ≤ length rounds
    → n_send rounds buffer ≡ some (pos (length buffer), buffer)
unfolding n_send
n_send-whole rounds buffer is some_byte enough =
    send_loop-whole rounds buffer [] is (buffer, refl) some_byte (omega arith)
