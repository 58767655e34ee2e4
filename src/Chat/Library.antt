-- ===== src/Chat/Library.antt =====
-- The calls of the kcp library that 2.2.3-udp-kcp-quic/kcp_session.cc makes, as an interface, and what
-- the server relies on.
use test_linux.Base.{ℕ, ◌≤◌, ◌<◌, ◌≡◌, ◌≢◌, List, [], ◌∷◌, ◌++◌, ℤ, pos, negsuc, Bytes, length}

-- A control block is a K. `update` also gives the datagrams that it hands to `output`; `recv` also
-- gives the bytes that it copies into the buffer of its caller.
pub record KcpCalls (K : Type 0) : Type 0 where
  pub create : (conv : ℕ) → K
  pub wndsize : K → (sndwnd rcvwnd : ℕ) → K
  pub nodelay : K → (nodelay interval resend nc : ℕ) → K
  pub update : K → (current : ℕ) → List Bytes × K
  pub input : K → Bytes → ℤ × K
  pub send : K → Bytes → ℤ × K
  pub recv : K → (size : ℕ) → (ℤ × Bytes) × K

-- `inbox k`: the messages that have come and wait to be read. `sent k`: the messages that `send` has
-- taken so far. The library cuts a message into fewer than 128 segments of 1376 bytes and so takes
-- any of 8192 bytes. `recv` says -3 when the next message does not fit, and another negative number
-- when none waits.
pub record RoomLaws {K : Type 0} (kcp : KcpCalls K) (inbox sent : K → List Bytes) : Type 0 where
  pub sent_new :
      (conv sndwnd rcvwnd a b c d : ℕ)
      → sent (kcp.nodelay (kcp.wndsize (kcp.create conv) sndwnd rcvwnd) a b c d) ≡ []
  pub update_inbox : (k : K) (current : ℕ) → inbox ((kcp.update k current).1) ≡ inbox k
  pub update_sent : (k : K) (current : ℕ) → sent ((kcp.update k current).1) ≡ sent k
  pub input_sent : (k : K) (b : Bytes) → sent ((kcp.input k b).1) ≡ sent k
  pub send_inbox : (k : K) (m : Bytes) → inbox ((kcp.send k m).1) ≡ inbox k
  pub send_sent : (k : K) (m : Bytes) → length m ≤ 8192 → sent ((kcp.send k m).1) ≡ sent k ++ m ∷ []
  pub recv_sent : (k : K) (size : ℕ) → sent ((kcp.recv k size).1) ≡ sent k
  pub recv_none :
      (k : K) (size : ℕ) → inbox k ≡ [] → (n : ℕ) × (n ≢ 2) × ((kcp.recv k size).0 ≡ (negsuc n, []))
  pub recv_big :
      (k : K) (size : ℕ) (m : Bytes) (ms : List Bytes)
      → inbox k ≡ m ∷ ms
      → size < length m
      → (kcp.recv k size).0 ≡ (negsuc 2, [])
  pub recv_next :
      (k : K) (size : ℕ) (m : Bytes) (ms : List Bytes)
      → inbox k ≡ m ∷ ms
      → length m ≤ size
      → ((kcp.recv k size).0 ≡ (pos (length m), m)) × (inbox ((kcp.recv k size).1) ≡ ms)
