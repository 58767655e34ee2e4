-- ===== src/Kcp/Library.antt =====
-- The calls of the kcp library that 2.2.3-udp-kcp-quic/server.c makes, as an interface, and what
-- the server relies on: the receiving side of one session, in which each datagram carries one whole
-- message under its sequence number.
use test_linux.Base.{ℕ, suc, ◌≤◌, ◌<◌, ◌≡◌, Bool, true, Option, none, some, Bytes, length}

-- A control block is a K. `input` says whether it returns 0; `recv` gives the bytes that it copies,
-- or none where it returns a negative number.
pub record Kcp (K : Type 0) : Type 0 where
  pub update : K → (current : ℕ) → K
  pub input : K → Bytes → Bool × K
  pub recv : K → (len : ℕ) → Option Bytes × K
  pub send : K → Bytes → K
  pub flush : K → K

-- `Idle n k`: all messages below number n have been received and read. `Held n m k`: the message m
-- has come too, is the last below n, and has not been read.
pub record KcpLaws {K : Type 0} (kcp : Kcp K) (wrap : ℕ → Bytes → Bytes) (Idle : ℕ → K → Type 0)
    (Held : ℕ → Bytes → K → Type 0) : Type 0 where
  pub update_idle : {n : ℕ} {k : K} (current : ℕ) → Idle n k → Idle n (kcp.update k current)
  pub input_next :
      {n : ℕ} {k : K} (m : Bytes)
      → Idle n k
      → ((kcp.input k (wrap n m)).0 ≡ true) × Held (suc n) m ((kcp.input k (wrap n m)).1)
  pub input_stale :
      {n i : ℕ} {k : K} (m : Bytes)
      → i < n
      → Idle n k
      → ((kcp.input k (wrap i m)).0 ≡ true) × Idle n ((kcp.input k (wrap i m)).1)
  pub recv_held :
      {n : ℕ} {k : K} {m : Bytes} (len : ℕ)
      → length m ≤ len
      → Held n m k
      → ((kcp.recv k len).0 ≡ some m) × Idle n ((kcp.recv k len).1)
  pub recv_idle :
      {n : ℕ} {k : K} (len : ℕ)
      → Idle n k
      → ((kcp.recv k len).0 ≡ none) × Idle n ((kcp.recv k len).1)
  pub send_idle : {n : ℕ} {k : K} (m : Bytes) → Idle n k → Idle n (kcp.send k m)
  pub flush_idle : {n : ℕ} {k : K} → Idle n k → Idle n (kcp.flush k)
  pub wrap_size : (n : ℕ) (m : Bytes) → length m < length (wrap n m)
