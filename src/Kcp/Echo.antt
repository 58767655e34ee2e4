-- ===== src/Kcp/Echo.antt =====
-- What the server of 2.2.3-udp-kcp-quic/server.c answers to a client's messages.
use test_linux.Base.{
  ℕ, suc, ◌+◌, ◌≤◌, ◌<◌, ◌≡◌, refl, ap, ◌∙◌, Option, none, some, List, [], ◌∷◌, ◌==◌, length, Bytes,
  if◌then◌else◌, arith,
}
use test_linux.Io.Echo.{take-chunk}
use test_linux.Kcp.Library.{Kcp, KcpLaws}
use test_linux.Kcp.Serve.{Round, Session, recv_buf, reply, take_datagram, while_loop, loop}

-- What comes in a turn: nothing, the next message, or one that has come before.
pub data Traffic : Type 0 where
  quiet : Traffic
  fresh : (m : Bytes) → Traffic
  stale : (i : ℕ) (m : Bytes) → Traffic

pub record Timed : Type 0 where
  pub clock : ℕ
  pub clock64 : ℕ
  pub traffic : Traffic

abbrev pub messages_with : Traffic → List Bytes → List Bytes
messages_with quiet ms = ms
messages_with (fresh m) ms = m ∷ ms
messages_with (stale i m) ms = ms

abbrev pub messages : List Timed → List Bytes
messages [] = []
messages (t ∷ ts) = messages_with t.traffic (messages ts)

-- The first message ends up deepest.
abbrev pub onto : List Bytes → List Bytes → List Bytes
onto [] seen = seen
onto (m ∷ ms) seen = onto ms (m ∷ seen)

module _ (wrap : ℕ → Bytes → Bytes) where
  abbrev pub datagram_of : ℕ → Traffic → Option Bytes
  datagram_of n quiet = none
  datagram_of n (fresh m) = some (wrap n m)
  datagram_of n (stale i m) = some (wrap i m)

  abbrev pub number_after : ℕ → Traffic → ℕ
  number_after n quiet = n
  number_after n (fresh m) = suc n
  number_after n (stale i m) = n

  abbrev pub round_at : ℕ → Timed → Round
  round_at n t = record { clock = t.clock; clock64 = t.clock64; datagram = datagram_of n t.traffic }

  -- What the server sees, from the n-th message on, up to an empty datagram.
  abbrev pub rounds_from : ℕ → List Timed → List Round
  rounds_from n [] = record { clock = 0; clock64 = 0; datagram = some [] } ∷ []
  rounds_from n (t ∷ ts) = round_at n t ∷ rounds_from (number_after n t.traffic) ts

  -- Each datagram fits the buffer, and a message that comes again has come before.
  abbrev pub FitsAt : ℕ → Traffic → Type 0
  FitsAt n quiet = Unit
  FitsAt n (fresh m) = length (wrap n m) ≤ recv_buf
  FitsAt n (stale i m) = (i < n) × (length (wrap i m) ≤ recv_buf)

  abbrev pub Fits : ℕ → List Timed → Type 0
  Fits n [] = Unit
  Fits n (t ∷ ts) = FitsAt n t.traffic × Fits (number_after n t.traffic) ts

module _ {K : Type 0} (kcp : Kcp K) (wrap : ℕ → Bytes → Bytes) (Idle : ℕ → K → Type 0)
    (Held : ℕ → Bytes → K → Type 0) (laws : KcpLaws kcp wrap Idle Held) where
  take_datagram-fresh :
      (s : Session K) (n c : ℕ) (m : Bytes)
      → Idle n s.pkcp
      → (t : Session K) × (take_datagram kcp s c (wrap n m) ≡ t)
        × (t.number ≡ suc s.number)
        × (t.replies ≡ m ∷ s.replies)
        × Idle (suc n) t.pkcp
  unfolding take_datagram reply
  take_datagram-fresh s n c m idle =
      let (fine, held) = laws.input_next m idle in
      let (got, idle') =
        laws.recv_held (length (wrap n m)) (omega (arith, laws.wrap_size n m)) held in
      (
        record s {
          pkcp =
              kcp.flush
                (kcp.send ((kcp.recv ((kcp.input s.pkcp (wrap n m)).1) (length (wrap n m))).1) m);
          first_recv_time = (if s.first_recv_time == 0 then c else s.first_recv_time);
          number = suc s.number;
          replies = m ∷ s.replies;
        },
        rw (fine, take_datagram, got, reply) refl,
        refl,
        refl,
        laws.flush_idle (laws.send_idle m idle'),
      )

  take_datagram-stale :
      (s : Session K) (n i c : ℕ) (m : Bytes)
      → i < n
      → Idle n s.pkcp
      → (t : Session K) × (take_datagram kcp s c (wrap i m) ≡ t)
        × (t.number ≡ s.number)
        × (t.replies ≡ s.replies)
        × Idle n t.pkcp
  unfolding take_datagram reply
  take_datagram-stale s n i c m old idle =
      let (fine, idle') = laws.input_stale m old idle in
      let (got, idle'') = laws.recv_idle (length (wrap i m)) idle' in
      (
        record s {
          pkcp = (kcp.recv ((kcp.input s.pkcp (wrap i m)).1) (length (wrap i m))).1;
          first_recv_time = (if s.first_recv_time == 0 then c else s.first_recv_time);
        },
        rw (fine, take_datagram, got, reply) refl,
        refl,
        refl,
        idle'',
      )

  -- A datagram that fits and is not empty is taken whole.
  while_loop-datagram :
      (b : Bytes) (rs : List Round) (s : Session K) (clock clock64 : ℕ)
      → 0 < length b
      → length b ≤ recv_buf
      → while_loop kcp (record { clock = clock; clock64 = clock64; datagram = some b } ∷ rs) s
        ≡ while_loop kcp rs
            (take_datagram kcp (record s { pkcp = kcp.update s.pkcp clock }) clock64 b)
  unfolding while_loop
  while_loop-datagram [] rs s clock clock64 some_byte fits = elim some_byte [ ]
  while_loop-datagram (x ∷ b) rs s clock clock64 some_byte fits =
      rw (take-chunk recv_buf (x ∷ b) fits, while_loop) refl

  while_loop-from :
      (ts : List Timed) (s : Session K) (n : ℕ)
      → Idle n s.pkcp
      → Fits wrap n ts
      → (t : Session K) × (while_loop kcp (rounds_from wrap n ts) s ≡ some t)
        × (t.replies ≡ onto (messages ts) s.replies)
        × (t.number ≡ s.number + length (messages ts))
  unfolding while_loop
  while_loop-from [] s n idle fits = (_, refl, refl, omega arith)
  while_loop-from (t ∷ ts) s n idle fits =
      go t.traffic fits.0 (λ u m idle' fits'. while_loop-from ts u m idle' fits') fits.1
    where
      later : Session K
      later = record s { pkcp = kcp.update s.pkcp t.clock }

      go :
          (tr : Traffic)
          → FitsAt wrap n tr
          → ((u : Session K) (m : ℕ)
              → Idle m u.pkcp
              → Fits wrap m ts
              → (v : Session K) × (while_loop kcp (rounds_from wrap m ts) u ≡ some v)
                × (v.replies ≡ onto (messages ts) u.replies)
                × (v.number ≡ u.number + length (messages ts)))
          → Fits wrap (number_after wrap n tr) ts
          → (v : Session K) × (while_loop kcp
                (round_at wrap n (record { clock = t.clock; clock64 = t.clock64; traffic = tr })
                  ∷ rounds_from wrap (number_after wrap n tr) ts)
                s
              ≡ some v)
            × (v.replies ≡ onto (messages_with tr (messages ts)) s.replies)
            × (v.number ≡ s.number + length (messages_with tr (messages ts)))
      go quiet h again rest = again later n (laws.update_idle t.clock idle) rest
      go (fresh m) h again rest =
          let (u, e, e_number, e_replies, idle') =
            take_datagram-fresh later n t.clock64 m (laws.update_idle t.clock idle) in
          let (v, e', same, total) = again u (suc n) idle' rest in
          (
            v,
            while_loop-datagram (wrap n m) (rounds_from wrap (suc n) ts) s t.clock t.clock64
                  (omega (arith, laws.wrap_size n m)) h
                ∙ ap (λ (x : Session K). while_loop kcp (rounds_from wrap (suc n) ts) x) e
                ∙ e',
            same ∙ ap (λ (r : List Bytes). onto (messages ts) r) e_replies,
            omega (arith, total, e_number),
          )
      go (stale i m) h again rest =
          let (u, e, e_number, e_replies, idle') =
            take_datagram-stale later n i t.clock64 m h.0 (laws.update_idle t.clock idle) in
          let (v, e', same, total) = again u n idle' rest in
          (
            v,
            while_loop-datagram (wrap i m) (rounds_from wrap n ts) s t.clock t.clock64
                  (omega (arith, laws.wrap_size i m)) h.1
                ∙ ap (λ (x : Session K). while_loop kcp (rounds_from wrap n ts) x) e
                ∙ e',
            same ∙ ap (λ (r : List Bytes). onto (messages ts) r) e_replies,
            omega (arith, total, e_number),
          )

  -- Over a kcp library that keeps to its laws, with datagrams that fit the receive buffer and carry
  -- one message each: whatever quiet turns and repeated datagrams come between them, the server
  -- replies to each new message with the message itself, once and in order, counts them, and leaves
  -- its loop at an empty datagram.
  pub loop-echo :
      (clock : ℕ) (ts : List Timed) (s : Session K)
      → Idle 0 s.pkcp
      → Fits wrap 0 ts
      → (t : Session K) × (loop kcp clock (rounds_from wrap 0 ts) s ≡ some t)
        × (t.replies ≡ onto (messages ts) s.replies)
        × (t.number ≡ s.number + length (messages ts))
  unfolding loop
  loop-echo clock ts s idle fits =
      while_loop-from ts (record s { pkcp = kcp.update s.pkcp clock }) 0
        (laws.update_idle clock idle) fits
