-- ===== src/Web/Reuse.antt =====
-- A descriptor of test8/reactor.cpp that is closed in the middle of a response and accepted again.
use test_linux.Base.{
  ℕ, ◌<◌, ◌≡◌, ◌≢◌, refl, ap, true, false, none, some, List, [], ◌∷◌, length, length-append, arith,
  fault, Bytes,
}
use test_linux.Io.Errno.{bytes, failed}
use test_linux.Web.Connection.{
  buffer_length, max_conns, read_cb, write_cb, listen_cb, epollin, Peer,
}
use test_linux.Web.Response.{
  Cache, http_response, fill_cache, begin_response, choose_part, fill_buffer, fill_header,
}
use test_linux.Web.Reactor.{
  WriteAnswer, set_event, write_callback, Reactor, Event, register_clinetfd, listen_callback, call,
  handle_event, reactor_loop,
}
use test_linux.Web.Phases.{IsCache, Content}
use test_linux.Web.Filling.{positive}
use test_linux.Web.Requests.{read_callback-Taken}

write_callback-stale :
    {k : Cache} (header_for : ℕ → Bytes) (a : WriteAnswer) (p : Peer)
    → IsCache k
    → p.conn.wstatus ≡ 0
    → p.conn.wtotallength ≢ 0
    → length k.header < p.conn.woffset
    → write_callback header_for a k p ≡ fault
unfolding write_callback http_response fill_cache begin_response choose_part fill_buffer fill_header
write_callback-stale header_for a p is status total past = ground (arith, is.some_content)

-- The three events of the next client on a descriptor.
abbrev pub next_client : (lfd fd : ℕ) → Bytes → WriteAnswer → List Event
next_client lfd fd b a =
    record {
      curfd = lfd;
      readable = true;
      writable = false;
      incoming = failed 0;
      accepts = some fd;
      errno = 0;
      write = a;
    }
    ∷ record {
      curfd = fd;
      readable = true;
      writable = false;
      incoming = bytes b;
      accepts = none;
      errno = 0;
      write = a;
    }
    ∷ record {
      curfd = fd;
      readable = false;
      writable = true;
      incoming = failed 0;
      accepts = none;
      errno = 0;
      write = a;
    }
    ∷ []

module _ (s : Reactor) (header_for : ℕ → Bytes) (lfd fd : ℕ) (b : Bytes) (a : WriteAnswer) where
  abbrev accepted : Peer
  accepted = record {
    conn = record (s.peers fd).conn { fd = fd; recv_cb = some read_cb; send_cb = some write_cb };
    watched = some epollin;
    wire = [];
  }

  -- Where a connection was closed behind the first byte of the content, the next client on its
  -- descriptor, with a request of 1 to 1023 bytes, ends the server: the three events are a fault.
  pub reactor_loop-stale :
      {wire sent left : Bytes}
      → IsCache s.cache
      → (s.peers lfd).conn.recv_cb ≡ some listen_cb
      → fd < max_conns
      → Content s.cache (s.peers fd).conn wire sent left
      → sent ≢ []
      → (s.peers fd).watched ≡ none
      → length (s.peers fd).conn.rbuffer ≡ buffer_length
      → b ≢ []
      → length b < buffer_length
      → reactor_loop header_for (next_client lfd fd b a) s ≡ fault
  unfolding reactor_loop handle_event call listen_callback register_clinetfd set_event
  reactor_loop-stale {wire} {sent} {left} is listens inside i some_sent unwatched size some_bytes
        short =
      let (q, e, t) = read_callback-Taken b accepted size refl some_bytes short in
      let past : length s.cache.header < q.conn.woffset = omega (
        arith,
        t.offset,
        i.common.offset,
        ap length i.front,
        length-append s.cache.header sent,
        positive sent some_sent,
      ) in
      let total : q.conn.wtotallength ≢ 0 =
        λ z. omega (arith, z, t.total, i.common.total, positive s.cache.header is.some_header) in
      ground (
        arith,
        listens,
        unwatched,
        e,
        t.send_cb,
        write_callback-stale header_for a q is t.status total past,
      )
