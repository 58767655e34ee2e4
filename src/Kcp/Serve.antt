-- ===== src/Kcp/Serve.antt =====
-- `loop` of 2.2.3-udp-kcp-quic/server.c, over any implementation of the kcp library. The system
-- answers each turn with the time and with what `recvfrom` finds.
use test_linux.Base.{
  ℕ, suc, true, false, Option, none, some, List, [], ◌∷◌, ◌==◌, length, take, Bytes, if◌then◌else◌,
}
use test_linux.Kcp.Library.{Kcp}

-- `recvfrom` returns a negative number, or the length of a datagram, which may be 0.
pub record Round : Type 0 where
  pub clock : ℕ  -- of `iclock`
  pub clock64 : ℕ
  pub datagram : Option Bytes

pub record Session (K : Type 0) : Type 0 where
  pub pkcp : K
  pub number : ℕ
  pub first_recv_time : ℕ
  pub replies : List Bytes  -- handed to `ikcp_send`, the newest first

abbrev pub recv_buf : ℕ
recv_buf = 1500

module _ {K : Type 0} (kcp : Kcp K) where
  -- From `ikcp_recv` on, for a datagram of n bytes.
  unfoldable pub reply : Session K → (n : ℕ) → Session K
  reply s n =
      let (got, k) = kcp.recv s.pkcp n in
      elim got [
        | none ↦ record s { pkcp = k }
        | some m ↦ record s {
          pkcp = kcp.flush (kcp.send k m);
          number = suc s.number;
          replies = m ∷ s.replies;
        }
      ]

  unfoldable pub take_datagram : Session K → ℕ → Bytes → Session K
  unfolding reply
  take_datagram s clock64 b =
      let (fine, k) = kcp.input s.pkcp b in
      let time = (if s.first_recv_time == 0 then clock64 else s.first_recv_time) in
      let t : Session K = record s { pkcp = k; first_recv_time = time } in
      elim fine [ true ↦ reply t (length b) | false ↦ t ]

  -- `while (1)`: the session after `finish loop`; none while the loop goes on.
  unfoldable pub while_loop : List Round → Session K → Option (Session K)
  unfolding take_datagram
  while_loop [] s = none
  while_loop (r ∷ rs) s =
      let t : Session K = record s { pkcp = kcp.update s.pkcp r.clock } in
      elim (r.datagram) [
        | none ↦ while_loop rs t
        | some b ↦ elim (take recv_buf b) [
          | [] ↦ some t
          | c ∷ cs ↦ while_loop rs (take_datagram t r.clock64 (c ∷ cs))
        ]
      ]

  -- With the update before the first turn.
  unfoldable pub loop : (clock : ℕ) → List Round → Session K → Option (Session K)
  unfolding while_loop
  loop clock rs s = while_loop rs (record s { pkcp = kcp.update s.pkcp clock })
