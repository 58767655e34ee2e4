-- ===== src/Chat/Client.antt =====
-- `KcpClient` of 2.2.3-udp-kcp-quic/kcp_client.cc with the methods of `ChatClient` in chat_client.cc.
-- Where the process exits, there is none.
use test_linux.Base.{
  ℕ, zero, suc, ◌-◌, ◌*◌, Bool, true, false, not, Option, none, some, List, [], ◌∷◌, ◌++◌, ltb,
  length, take, replicate, ℤ, pos, negsuc, Run, ok, out_of_fuel, ◌>>=◌, Bytes, write_at,
  if◌then◌else◌,
}
use test_linux.Chat.Library.{KcpCalls}
use test_linux.Chat.Session.{
  KcpOpt, Address, Session, Packet, kcp_session, input, send, recv, update,
}
use test_linux.Chat.Server.{same_address}

abbrev pub max_body_size : ℕ
max_body_size = 1024 * 4

abbrev pub kcp_header_size : ℕ
kcp_header_size = 24

-- A `std::string`: its memory, with room for the terminator, and `size()`.
pub record Text : Type 0 where
  pub block : Bytes
  pub size : ℕ

-- `std::string body(max_body_size, 'a')`.
abbrev pub new_body : Text
new_body = record { block = replicate max_body_size 97 ++ 0 ∷ []; size = max_body_size }

-- `resize`, within the memory: the bytes behind the old size are set to 0, and the terminator.
unfoldable pub resize : Text → ℕ → Run Text
resize t n = do
  block ← write_at t.block t.size (replicate (n - t.size) 0)
  block ← write_at block n (0 ∷ [])
  ok (record { block = block; size = n })

abbrev pub contents : Text → Bytes
contents t = take t.size t.block

pub record Client (K : Type 0) : Type 0 where
  pub server_addr : Address
  pub session : Session K
  pub shown : List Bytes  -- the messages that `HandleMessage` has printed
  pub wire : List Packet

unfoldable pub check_ret : Option Bytes → Bool
check_ret none = false
check_ret (some b) = not (ltb (length b) kcp_header_size)

module _ {K : Type 0} (calls : KcpCalls K) where
  unfoldable pub kcp_client : KcpOpt → (server_addr : Address) → Client K
  kcp_client opt server_addr = record {
    server_addr = server_addr;
    session = kcp_session calls opt server_addr;
    shown = [];
    wire = [];
  }

  -- A line of the user's.
  unfoldable pub client_send : Client K → Bytes → Client K
  client_send c msg = record c { session = (send calls c.session msg).1 }

  unfoldable pub handle_message : Client K → Bytes → Client K
  handle_message c msg = record c { shown = c.shown ++ msg ∷ [] }

  -- What `Recv` returned for one message; `again` is the rest of the loop.
  unfoldable pub show_message :
      (again : Text → Client K → Run (Option (Bool × Client K)))
      → (len : ℤ) → Text
      → Client K
      → Run (Option (Bool × Client K))
  show_message again (negsuc (suc (suc zero))) body c = ok none
  show_message again (negsuc (suc (suc (suc n)))) body c = ok (some (true, c))
  show_message again (negsuc (suc zero)) body c = ok (some (true, c))
  show_message again (negsuc zero) body c = ok (some (true, c))
  show_message again (pos zero) body c = ok (some (true, c))
  show_message again (pos (suc n)) body c = do
    body ← resize body (suc n)
    again body (handle_message c (contents body))

  -- Each pass of the loop that reads the messages of the session.
  unfoldable pub show_all : (fuel : ℕ) → Text → Client K → Run (Option (Bool × Client K))
  show_all zero body c = out_of_fuel
  show_all (suc n) body c =
      let ((len, bytes), session) = recv calls c.session max_body_size in
      do
        block ← write_at body.block 0 bytes
        show_message (show_all n) len (record body { block = block })
            (record c { session = session })

  unfoldable pub take_input : (fuel : ℕ) → Bytes → Client K → Run (Option (Bool × Client K))
  take_input fuel datagram c =
      let (ret, session) = input calls c.session datagram in
      let t : Client K = record c { session = session } in
      elim ret [
        | pos zero ↦ show_all fuel new_body t
        | pos (suc n) ↦ ok (some (false, t))
        | negsuc n ↦ ok (some (false, t))
      ]

  -- From `RecvFrom` on: what it gave, cut at the size of the buffer, and the sender. Where it fails,
  -- the answer is true whatever the address.
  unfoldable pub take_packet :
      (fuel : ℕ) → Option Bytes → Address → Client K → Run (Option (Bool × Client K))
  take_packet fuel none addr c = ok (some (true, c))
  take_packet fuel (some datagram) addr c =
      let d = take max_body_size datagram in
      if not (same_address addr c.server_addr)
      then ok (some (true, c))
      else if check_ret (some d)
      then take_input fuel d c
      else ok (some (true, c))

  -- A call of `Run`; its answer with the client.
  unfoldable pub run :
      (fuel current : ℕ) → Option Bytes → Address → Client K → Run (Option (Bool × Client K))
  run fuel current datagram addr c =
      let (closed, (out, session)) = update calls c.session current in
      if closed
      then ok none
      else take_packet fuel datagram addr (record c { session = session; wire = out ++ c.wire })
