-- ===== src/Kcp/Examples.antt =====
-- The server of 2.2.3-udp-kcp-quic/server.c over a small library: a datagram is a sequence number and
-- a message, and what has come is kept until it is read.
use test_linux.Base.{
  ℕ, suc, ◌+◌, ◌≡◌, refl, Bool, true, false, Option, none, some, List, [], ◌∷◌, ◌==◌, leb, length,
  Bytes, arith, if◌then◌else◌,
}
use test_linux.Kcp.Library.{Kcp, KcpLaws}
use test_linux.Kcp.Serve.{Session, loop}
use test_linux.Kcp.Echo.{
  Traffic, quiet, fresh, stale, Timed, messages, onto, rounds_from, loop-echo,
}

record Block : Type 0 where
  expected : ℕ
  held : Option Bytes

abbrev wrap : ℕ → Bytes → Bytes
wrap n m = n ∷ m

abbrev arrive : Block → Bytes → Bool × Block
arrive k [] = (false, k)
arrive k (n ∷ m) =
    (true, (if n == k.expected then record { expected = suc n; held = some m } else k))

abbrev read : Option Bytes → Block → ℕ → Option Bytes × Block
read none k len = (none, k)
read (some m) k len = if leb (length m) len then (some m, record k { held = none }) else (none, k)

abbrev small : Kcp Block
small = record {
  update = λ k t. k;
  input = arrive;
  recv = λ k len. read k.held k len;
  send = λ k m. k;
  flush = λ k. k;
}

abbrev Idle : ℕ → Block → Type 0
Idle n k = (k.expected ≡ n) × (k.held ≡ none)

abbrev Held : ℕ → Bytes → Block → Type 0
Held n m k = (k.expected ≡ n) × (k.held ≡ some m)

small-laws : KcpLaws small wrap Idle Held
small-laws = record {
  update_idle = λ t idle. idle;
  input_next = λ m idle. ground arith;
  input_stale = λ m old idle. ground arith;
  recv_held = λ len h held. ground arith;
  recv_idle = λ len idle. ground arith;
  send_idle = λ m idle. idle;
  flush_idle = λ idle. idle;
  wrap_size = λ n m. omega arith;
}

abbrev now : Traffic → Timed
now tr = record { clock = 1; clock64 = 1; traffic = tr }

abbrev traffic : List Timed
traffic =
    now quiet ∷ now (fresh (7 ∷ 8 ∷ [])) ∷ now (stale 0 (7 ∷ 8 ∷ [])) ∷ now (fresh (9 ∷ [])) ∷ []

abbrev opened : Session Block
opened = record {
  pkcp = record { expected = 0; held = none };
  number = 0;
  first_recv_time = 0;
  replies = [];
}

loop-echo_example :
    (t : Session Block) × (loop small 1 (rounds_from wrap 0 traffic) opened ≡ some t)
    × (t.replies ≡ onto (messages traffic) [])
    × (t.number ≡ 0 + length (messages traffic))
loop-echo_example =
    loop-echo small wrap Idle Held small-laws 1 traffic opened (refl, refl)
      (tt, (omega arith, ((omega arith, omega arith), (omega arith, tt))))
