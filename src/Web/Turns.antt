-- ===== src/Web/Turns.antt =====
-- What each call of `write_callback` of test8/reactor.cpp comes to.
use test_linux.Base.{
  ℕ, ◌≡◌, ◌≢◌, refl, ap, ◌∙◌, some, [], ◌∷◌, ◌++◌, append_assoc, arith, ℤ, pos, ok, Bytes, slice,
}
use test_linux.Web.Connection.{Connection, reset_w, Peer}
use test_linux.Web.Response.{Cache, http_response}
use test_linux.Web.Reactor.{WriteAnswer, advance, send_buffer, send_file, write_callback}
use test_linux.Web.Phases.{IsCache, InHeader, InBody, Phase, in_header, in_body}
use test_linux.Web.Filling.{Ready, header_ready, body_ready, file_ready}
use test_linux.Web.Readiness.{http_response-Ready}
use test_linux.Web.Writing.{Turn, Turned, advance-header, Content-moved, advance-last, advance-more}
use test_linux.Web.Sends.{send_buffer-Turn, send_file-Turn}

module _ {k : Cache} (is : IsCache k) (p : Peer) where
  -- The bytes in the buffer, part of the header or of the content, are handed to `send`.
  header-Turn :
      (a : WriteAnswer) (c : Connection) (h : Bytes)
      → InHeader k c p.wire h
      → h ≢ []
      → slice c.wbuffer 0 c.wlength ≡ ok h
      → (r : ℤ × Peer) × (send_buffer a (record p { conn = c }) ≡ ok r) × Turned k p a.takes r
  header-Turn a c h i more loaded =
      send_buffer-Turn p a c h more loaded (in_header h i)
        λ sent rest e some_bytes. advance-header p a.takes sent rest i e some_bytes

  body-Turn :
      (a : WriteAnswer) (c : Connection) (b d rest : Bytes)
      → InBody k c p.wire b (d ++ rest)
      → d ≢ []
      → slice c.wbuffer 0 c.wlength ≡ ok d
      → (r : ℤ × Peer) × (send_buffer a (record p { conn = c }) ≡ ok r) × Turned k p a.takes r
  unfolding reset_w
  body-Turn a c b d rest i more loaded =
      send_buffer-Turn p a c d more loaded (in_body b (d ++ rest) i) next
    where
      go :
          (sent over : Bytes)
          → d ++ rest ≡ sent ++ over
          → sent ≢ []
          → Turned k p a.takes (advance sent (record p { conn = c }))
      go sent [] e some_bytes =
          advance-last p a.takes sent [] i.part e c.wfile_offset refl some_bytes
            (rw i.file i.file_offset)
      go sent (x ∷ over) e some_bytes =
          advance-more p a.takes sent (x ∷ over) i.part e c.wfile_offset (λ e. cc) some_bytes
            (in_body (b ++ sent) (x ∷ over) (record {
              part = Content-moved p a.takes sent (x ∷ over) i.part e c.wfile_offset (λ e. cc);
              file = i.file;
              file_offset = i.file_offset;
              small = i.small;
            }))

      next :
          (sent over : Bytes)
          → d ≡ sent ++ over
          → sent ≢ []
          → Turned k p a.takes (advance sent (record p { conn = c }))
      next sent over e some_bytes =
          go sent (over ++ rest) (ap (λ (l : Bytes). l ++ rest) e ∙ append_assoc sent over rest)
            some_bytes

  -- `write_callback` in the course of a response, with a header of 1 to 1024 bytes and a content of
  -- fewer than 2 ^ 31 in the cache, where `open` answers and the file is as it was cached, returns
  -- without a fault. Either no bytes are taken, and the response stays where it was or the
  -- connection is closed; or the bytes taken are the next ones of the header and the content; or
  -- they are the last, and the connection is ready for the next request.
  pub write_callback-Turn :
      (header_for : ℕ → Bytes) (a : WriteAnswer) (filefd : ℕ)
      → a.opens ≡ some filefd
      → a.on_disk ≡ k.content
      → Phase k p.conn p.wire
      → (code : ℤ) × (q : Peer) × (write_callback header_for a k p ≡ ok (code, k, q))
        × Turn k p a.takes code q
  unfolding write_callback
  write_callback-Turn header_for a filefd opened disk phase =
      let (c, e, ready) = http_response-Ready is header_for a.file filefd phase in go c e ready
    where
      start :
          (c : Connection)
          → http_response header_for a.file (some filefd) k p.conn ≡ ok (pos 0, k, c)
          → http_response header_for a.file a.opens k p.conn ≡ ok (pos 0, k, c)
      start c e = rw opened e

      go :
          (c : Connection)
          → http_response header_for a.file (some filefd) k p.conn ≡ ok (pos 0, k, c)
          → Ready k c p.wire
          → (code : ℤ) × (q : Peer) × (write_callback header_for a k p ≡ ok (code, k, q))
            × Turn k p a.takes code q
      go c e (header_ready h i more loaded) =
          let ((code, q), e', turn) = header-Turn a c h i more loaded in
          (code, q, ground (arith, start c e, i.file, e'), turn)
      go c e (body_ready b d rest i more loaded) =
          let ((code, q), e', turn) = body-Turn a c b d rest i more loaded in
          (code, q, ground (arith, start c e, i.file, e'), turn)
      go c e (file_ready b left i) =
          let (fd, file) = i.file in
          let turn =
            send_file-Turn p a c b left i disk (omega (arith, is.header_size, is.content_size)) in
          (
            (send_file a (record p { conn = c })).0,
            (send_file a (record p { conn = c })).1,
            ground (arith, start c e, file),
            turn,
          )
