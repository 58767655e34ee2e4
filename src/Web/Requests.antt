-- ===== src/Web/Requests.antt =====
-- Requests to test8/reactor.cpp: what a request leads to, and the two that end the server.
use test_linux.Base.{
  ℕ, ◌≤◌, ◌<◌, ◌≡◌, ◌≢◌, refl, ap, ◌∙◌, some, List, [], ◌∷◌, ◌++◌, length, take, drop,
  length-append, All, take-all, arith, pos, ok, fault, ◌>>=◌, Bytes, write_at, write_at-split,
  write_at-fault, length-take_of_le, length-drop,
}
use test_linux.Io.Errno.{bytes}
use test_linux.Web.Connection.{buffer_length, epollin, epollout, Peer}
use test_linux.Web.Response.{Cache, http_request}
use test_linux.Web.Reactor.{WriteAnswer, set_event, received, read_callback}
use test_linux.Web.Phases.{IsCache, Fresh, fresh}
use test_linux.Web.Writing.{message}
use test_linux.Web.Serving.{write_while, Flowing, Answered, write_while-whole}

-- What a request of fewer bytes than the buffer leaves: the bytes and a terminator, and a connection
-- that is watched for output.
pub record Taken (b : Bytes) (p q : Peer) : Type 0 where
  pub behind : Bytes
  pub text : q.conn.rbuffer ≡ (b ++ 0 ∷ []) ++ behind
  pub count : q.conn.rlength ≡ length b
  pub status : q.conn.wstatus ≡ 0
  pub offset : q.conn.woffset ≡ p.conn.woffset
  pub total : q.conn.wtotallength ≡ p.conn.wtotallength
  pub file : q.conn.w_file_fd ≡ p.conn.w_file_fd
  pub file_offset : q.conn.wfile_offset ≡ p.conn.wfile_offset
  pub buffer : q.conn.wbuffer ≡ p.conn.wbuffer
  pub send_cb : q.conn.send_cb ≡ p.conn.send_cb
  pub watched : q.watched ≡ some epollout
  pub wire : q.wire ≡ []

received-Taken :
    (x : ℕ) (b : Bytes) (p : Peer)
    → length p.conn.rbuffer ≡ buffer_length
    → p.watched ≡ some epollin
    → length (x ∷ b) < buffer_length
    → (q : Peer) × (received (x ∷ b) p ≡ ok (pos 0, q)) × Taken (x ∷ b) p q
unfolding received set_event http_request
received-Taken x b p size watched short =
    let rest : Bytes = drop (length (x ∷ b)) p.conn.rbuffer in
    let first : write_at p.conn.rbuffer 0 (x ∷ b) ≡ ok ((x ∷ b) ++ rest) =
      write_at-split p.conn.rbuffer [] p.conn.rbuffer (x ∷ b) 0 refl refl (omega (arith, size)) in
    let second : write_at ((x ∷ b) ++ rest) (length (x ∷ b)) (0 ∷ [])
        ≡ ok (((x ∷ b) ++ 0 ∷ []) ++ drop 1 rest) =
      write_at-split ((x ∷ b) ++ rest) (x ∷ b) rest (0 ∷ []) (length (x ∷ b)) refl refl
        (omega (arith, size, length-drop (length (x ∷ b)) p.conn.rbuffer)) in
    (
      record {
        conn = http_request (record p.conn {
          rbuffer = ((x ∷ b) ++ 0 ∷ []) ++ drop 1 rest;
          rlength = length (x ∷ b);
        });
        watched = some epollout;
        wire = [];
      },
      rw (first, ◌>>=◌, second, ◌>>=◌, watched),
      record {
        behind = drop 1 rest;
        text = refl;
        count = refl;
        status = refl;
        offset = refl;
        total = refl;
        file = refl;
        file_offset = refl;
        buffer = refl;
        send_cb = refl;
        watched = refl;
        wire = refl;
      },
    )

pub read_callback-Taken :
    (b : Bytes) (p : Peer)
    → length p.conn.rbuffer ≡ buffer_length
    → p.watched ≡ some epollin
    → b ≢ []
    → length b < buffer_length
    → (q : Peer) × (read_callback (bytes b) p ≡ ok (pos 0, q)) × Taken b p q
unfolding read_callback
read_callback-Taken [] p size watched some_bytes short = absurd (some_bytes refl)
read_callback-Taken (x ∷ b) p size watched some_bytes short =
    let (q, e, t) = received-Taken x b p size watched short in
    (q, ap (λ (l : Bytes). received l p) (take-all buffer_length (x ∷ b) (omega arith)) ∙ e, t)

received-fault :
    (x : ℕ) (b : Bytes) (p : Peer)
    → length p.conn.rbuffer ≡ buffer_length
    → length (x ∷ b) ≡ buffer_length
    → received (x ∷ b) p ≡ fault
unfolding received
received-fault x b p size full =
    let rest : Bytes = drop (length (x ∷ b)) p.conn.rbuffer in
    let first : write_at p.conn.rbuffer 0 (x ∷ b) ≡ ok ((x ∷ b) ++ rest) =
      write_at-split p.conn.rbuffer [] p.conn.rbuffer (x ∷ b) 0 refl refl (omega (arith, size)) in
    let second : write_at ((x ∷ b) ++ rest) (length (x ∷ b)) (0 ∷ []) ≡ fault =
      write_at-fault ((x ∷ b) ++ rest) (0 ∷ []) (length (x ∷ b)) (
        omega (
          arith,
          size,
          full,
          length-append (x ∷ b) rest,
          length-drop (length (x ∷ b)) p.conn.rbuffer,
        )) in
    rw (first, ◌>>=◌, second)

-- A request of 1024 bytes or more is a fault: `recv` fills the read buffer, and the terminator is
-- written behind it.
pub read_callback-full :
    (b : Bytes) (p : Peer)
    → length p.conn.rbuffer ≡ buffer_length
    → buffer_length ≤ length b
    → read_callback (bytes b) p ≡ fault
unfolding read_callback
read_callback-full [] p size full = absurd (omega arith)
read_callback-full (x ∷ b) p size full =
    received-fault x (take 1023 b) p size (length-take_of_le buffer_length (x ∷ b) full)

-- A request of 1 to 1023 bytes, on a connection with no response under way, is answered in full:
-- with a header of 1 to 1024 bytes and a content of fewer than 2 ^ 31 in the cache, `open`
-- answering, the file as it was cached, and a peer that takes at least one byte of each write, as
-- many calls of `write_callback` as the response has bytes, each made while the connection is watched
-- for output, send the header and the content, and the connection is watched for the next request.
pub write_while-request :
    {k : Cache} (header_for : ℕ → Bytes) (p : Peer) (b : Bytes) (answers : List WriteAnswer)
    → IsCache k
    → Fresh k p.conn []
    → length p.conn.rbuffer ≡ buffer_length
    → p.watched ≡ some epollin
    → b ≢ []
    → length b < buffer_length
    → All (Flowing k) answers
    → length (message k) ≤ length answers
    → (q r : Peer) × (read_callback (bytes b) p ≡ ok (pos 0, q))
      × (write_while header_for answers k q ≡ ok (k, r))
      × Answered k r
write_while-request header_for p b answers is f size watched some_bytes short flow enough =
    let (q, e, t) = read_callback-Taken b p size watched some_bytes short in
    let ready : Fresh _ q.conn q.wire = record {
      total = t.total ∙ f.total;
      wire_empty = t.wire;
      status = t.status;
      file = t.file ∙ f.file;
      file_offset = t.file_offset ∙ f.file_offset;
      size = ap length t.buffer ∙ f.size;
    } in
    let (r, e', done) =
      write_while-whole is header_for answers q flow (fresh ready) t.watched
        (omega (arith, enough)) in
    (q, r, e, e', done)
