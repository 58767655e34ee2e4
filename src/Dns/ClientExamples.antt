-- ===== src/Dns/ClientExamples.antt =====
-- A request and its reply in the client of 2.3.1-coroutine/async_dns_client_noblock.c.
use test_linux.Base.{
  arith, ℕ, ◌+◌, ◌≡◌, refl, true, false, some, [], ◌∷◌, Option, pos, times, Bytes, replicate, peek,
  slice, write_at, c_str, htons,
}
use test_linux.Dns.Name.{is_pointer, add_dot, name_loop}
use test_linux.Dns.Response.{zeros, dns_parse_response}
use test_linux.Dns.Packets.{packet, raw, plenty, a_item}
use test_linux.Dns.Request.{
  dns_create_header, dns_create_question, put_labels, tokens_from, dns_build_request,
}
use test_linux.Dns.Client.{
  Client, Submission, dns_async_client_commit, packet_buffer, take_reply, commit, reply, ClientRun,
  none_yet, after, idle,
}
use test_linux.Dns.Sockets.{ClientRun-Accounted}
use test_linux.Dns.Freed.{all_strings}

-- The allocator fails for the socket's argument.
abbrev unlucky : Submission
unlucky = record { sockfd = some 6; random = 7; allocated = false; added = true }

abbrev blocks : ℕ → Option Bytes
blocks n = some (replicate n 0)

abbrev request_a : Bytes
request_a = 7 ∷ 0 ∷ 1 ∷ 0 ∷ 0 ∷ 1 ∷ 0 ∷ 0 ∷ 0 ∷ 0 ∷ 0 ∷ 0 ∷ 1 ∷ b'a' ∷ 0 ∷ 0 ∷ 1 ∷ 0 ∷ 1 ∷ []

-- All succeeds, and the reply has an address.
abbrev lucky : Submission
lucky = record { sockfd = some 5; random = 7; allocated = true; added = true }

abbrev waiting : Client
waiting = record idle { sockets = 5 ∷ []; watched = 5 ∷ []; requests = request_a ∷ [] }

abbrev answered : Client
answered = record waiting {
  watched = [];
  closed = 5 ∷ [];
  results = (pos 1, a_item ∷ []) ∷ [];
  freed = a_item.domain ∷ a_item.ip ∷ [];
}

abbrev lost : Client
lost = record answered {
  sockets = 6 ∷ 5 ∷ [];
  lost = 6 ∷ [];
  requests = request_a ∷ request_a ∷ [];
}

asked : ClientRun raw plenty 9 blocks idle waiting
unfolding dns_async_client_commit dns_create_header dns_create_question dns_build_request htons
    write_at put_labels tokens_from
asked = after none_yet (commit (b'a' ∷ []) lucky refl)

replied : ClientRun raw plenty 9 blocks idle answered
unfolding take_reply dns_parse_response packet_buffer is_pointer add_dot name_loop zeros peek slice
    write_at c_str
replied = after asked (reply 5 (packet 1) (omega arith) refl)

left : ClientRun raw plenty 9 blocks idle lost
unfolding dns_async_client_commit dns_create_header dns_create_question dns_build_request htons
    write_at put_labels tokens_from
left = after replied (commit (b'a' ∷ []) unlucky refl)

ClientRun-Accounted_example :
    (times (6 ∷ 5 ∷ []) 6 ≡ times [] 6 + times (5 ∷ []) 6 + times (6 ∷ []) 6)
    × (a_item.domain ∷ a_item.ip ∷ [] ≡ all_strings ((pos 1, a_item ∷ []) ∷ []))
ClientRun-Accounted_example = ClientRun-Accounted raw plenty 9 blocks 6 left
