-- ===== src/Chat/Session.antt =====
-- `KcpSession` of 2.2.3-udp-kcp-quic/kcp_session.cc over any implementation of the kcp library. The
-- clock is given in milliseconds; its lock makes each method one step.
use test_linux.Base.{
  ℕ, ◌+◌, ◌%◌, ◌^◌, Bool, true, false, not, ◌&&◌, List, [], ◌∷◌, ◌++◌, ◌==◌, ltb, ℤ, Bytes, htons,
  bytes_of, if◌then◌else◌,
}
use test_linux.Chat.Library.{KcpCalls}

pub record KcpOpt : Type 0 where
  pub is_server : Bool
  pub keep_alive_timeout : ℕ
  pub conv : ℕ
  pub sndwnd : ℕ
  pub rcvwnd : ℕ
  pub nodelay : ℕ
  pub interval : ℕ
  pub resend : ℕ
  pub nc : ℕ

-- With the default values of the members.
abbrev pub default_opt : KcpOpt
default_opt = record {
  is_server = true;
  keep_alive_timeout = 5000;
  conv = 0;
  sndwnd = 32;
  rcvwnd = 128;
  nodelay = 0;
  interval = 10;
  resend = 0;
  nc = 0;
}

-- `sockaddr_in`, in network byte order.
pub record Address : Type 0 where
  pub sin_port : ℕ
  pub s_addr : ℕ

pub record Session (K : Type 0) : Type 0 where
  pub kcp_opt : KcpOpt
  pub addr : Address
  pub kcp : K
  pub recv_latest_time : ℕ
  pub send_latest_time : ℕ

-- The text with its terminator, as `sizeof` counts it.
abbrev pub keep_alive_cmd : Bytes
keep_alive_cmd = bytes_of "KCP_KEEP_ALIVE_CMD" ++ 0 ∷ []

-- A datagram on its way, and where to.
abbrev pub Packet : Type 0
Packet = Address × Bytes

module _ (inet_ntoa decimal : ℕ → Bytes) where
  unfoldable pub get_addr_to_string : Address → Bytes
  get_addr_to_string a = inet_ntoa a.s_addr ++ (bytes_of ":" ++ decimal (htons a.sin_port))

-- `udp_output` and `sendTo`.
abbrev pub packets : Address → List Bytes → List Packet
packets addr [] = []
packets addr (b ∷ bs) = (addr, b) ∷ packets addr bs

module _ {K : Type 0} where
  unfoldable pub timed_out : Session K → (current : ℕ) → Bool
  timed_out s current =
      s.kcp_opt.is_server && ltb (s.recv_latest_time + s.kcp_opt.keep_alive_timeout) current

  unfoldable pub set_keep_alive : Session K → (current : ℕ) → Session K
  set_keep_alive s current = record s { recv_latest_time = current }

module _ {K : Type 0} (calls : KcpCalls K) where
  unfoldable pub kcp_session : KcpOpt → Address → Session K
  kcp_session opt addr = record {
    kcp_opt = opt;
    addr = addr;
    kcp =
        calls.nodelay (calls.wndsize (calls.create opt.conv) opt.sndwnd opt.rcvwnd) opt.nodelay
          opt.interval opt.resend opt.nc;
    recv_latest_time = 0;
    send_latest_time = 0;
  }

  unfoldable pub input : Session K → Bytes → ℤ × Session K
  input s bytes = let (ret, k) = calls.input s.kcp bytes in (ret, record s { kcp = k })

  unfoldable pub send : Session K → Bytes → ℤ × Session K
  send s bytes = let (ret, k) = calls.send s.kcp bytes in (ret, record s { kcp = k })

  unfoldable pub recv : Session K → (size : ℕ) → (ℤ × Bytes) × Session K
  recv s size = let (got, k) = calls.recv s.kcp size in (got, record s { kcp = k })

  unfoldable pub updated : Session K → (current : ℕ) → Session K
  updated s current = record s {
    kcp = (calls.update s.kcp (current % 2 ^ 32)).1;
    recv_latest_time = (if s.recv_latest_time == 0 then current else s.recv_latest_time);
  }

  unfoldable pub keep_alive : Session K → (current : ℕ) → Session K
  keep_alive s current =
      if not s.kcp_opt.is_server && ltb (s.send_latest_time + s.kcp_opt.keep_alive_timeout) current
      then (send (record s { send_latest_time = current }) keep_alive_cmd).1
      else s

  -- Whether the peer is taken to be offline, what is sent meanwhile, and the session after it.
  unfoldable pub update : Session K → (current : ℕ) → Bool × (List Packet × Session K)
  update s current =
      let out = packets s.addr ((calls.update s.kcp (current % 2 ^ 32)).0) in
      elim (timed_out (updated s current) current) [
        | true ↦ (true, (out, updated s current))
        | false ↦ (false, (out, keep_alive (updated s current) current))
      ]
