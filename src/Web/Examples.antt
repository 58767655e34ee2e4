-- ===== src/Web/Examples.antt =====
-- A small file for test8/reactor.cpp.
use test_linux.Base.{
  ℕ, ◌≡◌, refl, none, some, [], ◌∷◌, ◌==◌, replicate, length-replicate, arith, ℤ, pos, ok, fault,
  Bytes, if◌then◌else◌,
}
use test_linux.Io.Errno.{bytes}
use test_linux.Web.Connection.{listen_cb, new_connection, epollin, Peer}
use test_linux.Web.Response.{Cache}
use test_linux.Web.Reactor.{WriteAnswer, read_callback, write_callback, Reactor, reactor_loop}
use test_linux.Web.Phases.{IsCache, Content, Fresh, fresh}
use test_linux.Web.Writing.{Turn}
use test_linux.Web.Turns.{write_callback-Turn}
use test_linux.Web.Serving.{write_while, Flowing, Answered}
use test_linux.Web.Requests.{write_while-request}
use test_linux.Web.Reuse.{next_client, reactor_loop-stale}

abbrev header_for : ℕ → Bytes
header_for n = 72 ∷ 58 ∷ []

abbrev green : Cache
green = record { content = 3 ∷ 4 ∷ 5 ∷ []; header = 72 ∷ 58 ∷ [] }

green-IsCache : IsCache green
green-IsCache = record {
  some_header = λ e. cc;
  header_size = omega arith;
  some_content = λ e. cc;
  content_size = omega arith;
}

abbrev idle : Peer
idle = record { conn = new_connection; watched = some epollin; wire = [] }

new_connection-Fresh : Fresh green new_connection []
new_connection-Fresh = record {
  total = refl;
  wire_empty = refl;
  status = refl;
  file = refl;
  file_offset = refl;
  size = length-replicate {A = ℕ} 1024 0;
}

abbrev one_byte : WriteAnswer
one_byte = record {
  file = none;
  opens = some 7;
  takes = some 1;
  errno = 0;
  on_disk = 3 ∷ 4 ∷ 5 ∷ [];
}

one_byte-Flowing : Flowing green one_byte
one_byte-Flowing = record { kept = record { opened = (7, refl); same = refl }; takes = (0, refl) }

write_callback-Turn_example :
    (code : ℤ) × (q : Peer) × (write_callback header_for one_byte green idle ≡ ok (code, green, q))
    × Turn green idle (some 1) code q
write_callback-Turn_example =
    write_callback-Turn green-IsCache idle header_for one_byte 7 refl refl
      (fresh new_connection-Fresh)

write_while-request_example :
    (q r : Peer) × (read_callback (bytes (71 ∷ [])) idle ≡ ok (pos 0, q))
    × (write_while header_for (replicate 5 one_byte) green q ≡ ok (green, r))
    × Answered green r
write_while-request_example =
    write_while-request header_for idle (71 ∷ []) (replicate 5 one_byte) green-IsCache
      new_connection-Fresh (length-replicate {A = ℕ} 1024 0) refl (λ e. cc) (omega arith)
      (
        one_byte-Flowing,
        (one_byte-Flowing, (one_byte-Flowing, (one_byte-Flowing, (one_byte-Flowing, tt)))),
      )
      (omega arith)

-- The header and one byte of the content have been sent, and the peer has gone away.
abbrev half : Peer
half = record {
  conn = record new_connection { wtotallength = 5; woffset = 3; wstatus = 1 };
  watched = none;
  wire = 72 ∷ 58 ∷ 3 ∷ [];
}

half_sent : Content green half.conn half.wire (3 ∷ []) (4 ∷ 5 ∷ [])
half_sent = record {
  common = record { total = refl; offset = refl; size = length-replicate {A = ℕ} 1024 0 };
  front = refl;
  split = refl;
  more = λ e. cc;
  status = refl;
}

abbrev listening : Peer
listening = record {
  conn = record new_connection { recv_cb = some listen_cb };
  watched = some epollin;
  wire = [];
}

abbrev after_close : Reactor
after_close = record { peers = λ fd. if fd == 3 then listening else half; cache = green }

reactor_loop-stale_example :
    reactor_loop header_for (next_client 3 5 (71 ∷ []) one_byte) after_close ≡ fault
reactor_loop-stale_example =
    reactor_loop-stale after_close header_for 3 5 (71 ∷ []) one_byte green-IsCache refl
      (omega arith) half_sent (λ e. cc) refl (length-replicate {A = ℕ} 1024 0) (λ e. cc)
      (omega arith)
