-- ===== src/Web/Writing.antt =====
-- One call of `write_callback` of test8/reactor.cpp.
use test_linux.Base.{
  ℕ, zero, suc, ◌+◌, ◌≡◌, ◌≢◌, refl, sym, ap, ◌∙◌, inl, inr, true, false, Option, none, some, [],
  ◌++◌, append_assoc, append-nil, ◌==◌, Bool-cases, length, length-append, arith, ℤ, pos, negsuc,
  Bytes,
}
use test_linux.Io.Errno.{eagain}
use test_linux.Web.Connection.{Connection, reset_w, epollin, Peer}
use test_linux.Web.Response.{Cache}
use test_linux.Web.Reactor.{set_event, try_later, advance}
use test_linux.Web.Phases.{InHeader, Content, Fresh, Phase, in_header}
use test_linux.Web.Filling.{positive}

abbrev pub message : Cache → Bytes
message k = k.header ++ k.content

-- A call that takes no bytes.
abbrev pub Stalled : Option ℕ → Type 0
Stalled none = Unit
Stalled (some zero) = Unit
Stalled (some (suc n)) = ⊥

-- What a call of `write_callback` comes to: nothing is taken for now, the peer is gone, some bytes are
-- on their way, or the last ones, and the connection is ready for the next request.
pub data Turn (k : Cache) (p : Peer) (takes : Option ℕ) : ℤ → Peer → Type 0 where
  waits :
      (c : Connection)
      → Stalled takes
      → Phase k c p.wire
      → Turn k p takes (pos 0) (record p { conn = c })
  hangs_up :
      (c : Connection)
      → Stalled takes
      → Turn k p takes (negsuc 0) (record p { conn = c; watched = none })
  moves :
      (c : Connection) (sent : Bytes)
      → sent ≢ []
      → Phase k c (p.wire ++ sent)
      → Turn k p takes (pos 0) (record p { conn = c; wire = p.wire ++ sent })
  completes :
      (c : Connection) (sent : Bytes)
      → sent ≢ []
      → p.wire ++ sent ≡ message k
      → Fresh k c []
      → Turn k p takes
          (pos 0)
          (record { conn = c; watched = (set_event p.watched epollin 2).1; wire = p.wire ++ sent })

abbrev pub Turned : Cache → Peer → Option ℕ → ℤ × Peer → Type 0
Turned k p takes (code, q) = Turn k p takes code q

module _ {k : Cache} (p : Peer) (takes : Option ℕ) where
  pub try_later-Turn :
      (errno : ℕ) (c : Connection)
      → Stalled takes
      → Phase k c p.wire
      → Turned k p takes (try_later errno (record p { conn = c }))
  try_later-Turn errno c stalled phase = elim (Bool-cases (errno == eagain)) [
    | inl e ↦ rw e (waits c stalled phase)
    | inr e ↦ rw e (hangs_up c stalled)
  ]

  pub advance-header :
      {c : Connection} {h : Bytes} (sent rest : Bytes)
      → InHeader k c p.wire h
      → h ≡ sent ++ rest
      → sent ≢ []
      → Turned k p takes (advance sent (record p { conn = c }))
  unfolding advance
  advance-header {c} sent rest i e some_bytes = rw (i.status) (
      moves (record c { woffset = c.woffset + length sent; wstatus = 0 }) sent some_bytes
        (in_header rest (record {
          common = record {
            total = i.common.total;
            offset = omega (arith, i.common.offset, length-append p.wire sent);
            size = i.common.size;
          };
          split =
              append_assoc p.wire sent rest ∙ (ap (λ (l : Bytes). p.wire ++ l) (sym e) ∙ i.split);
          status = refl;
          file = i.file;
          file_offset = i.file_offset;
        })))

  module _ {c : Connection} {b left : Bytes} (sent rest : Bytes) (i : Content k c p.wire b left)
      (e : left ≡ sent ++ rest) where
    size_left : c.wtotallength ≡ c.woffset + length sent + length rest
    size_left = omega (
      arith,
      i.common.total,
      i.common.offset,
      ap length i.front,
      length-append k.header b,
      ap length i.split,
      length-append b left,
      ap length e,
      length-append sent rest,
    )

    pub whole : (p.wire ++ sent) ++ rest ≡ message k
    whole =
        append_assoc p.wire sent rest
        ∙ (ap (λ (l : Bytes). p.wire ++ l) (sym e)
            ∙ (ap (λ (l : Bytes). l ++ left) i.front
                ∙ (append_assoc k.header b left ∙ ap (λ (l : Bytes). k.header ++ l) i.split)))

    pub Content-moved :
        (offset : ℕ)
        → rest ≢ []
        → Content k
            (record c { woffset = c.woffset + length sent; wstatus = 1; wfile_offset = offset })
            (p.wire ++ sent)
            (b ++ sent)
            rest
    Content-moved offset more = record {
      common = record {
        total = i.common.total;
        offset = omega (arith, i.common.offset, length-append p.wire sent);
        size = i.common.size;
      };
      front = ap (λ (l : Bytes). l ++ sent) i.front ∙ append_assoc k.header b sent;
      split = append_assoc b sent rest ∙ (ap (λ (l : Bytes). b ++ l) (sym e) ∙ i.split);
      more = more;
      status = refl;
    }

    -- Where all has been sent the connection starts anew; the offset in the file is put back if it was
    -- moved.
    pub advance-last :
        (offset : ℕ)
        → rest ≡ []
        → sent ≢ []
        → (reset_w (record c { wfile_offset = offset })).wfile_offset ≡ 0
        → Turned k p takes (advance sent (record p { conn = record c { wfile_offset = offset } }))
    unfolding advance reset_w
    advance-last offset none_left some_bytes at =
        let full : (c.woffset + length sent == c.wtotallength) ≡ true =
          ground (arith, size_left, ap length none_left) in
        rw (i.status, full)
          (completes
            (reset_w
              (record c { woffset = c.woffset + length sent; wstatus = 2; wfile_offset = offset }))
            sent some_bytes
            (sym (append-nil (p.wire ++ sent))
              ∙ (ap (λ (l : Bytes). (p.wire ++ sent) ++ l) (sym none_left) ∙ whole))
            (record {
              total = refl;
              wire_empty = refl;
              status = refl;
              file = refl;
              file_offset = at;
              size = i.common.size;
            }))

    pub advance-more :
        (offset : ℕ)
        → rest ≢ []
        → sent ≢ []
        → Phase k
            (record c { woffset = c.woffset + length sent; wstatus = 1; wfile_offset = offset })
            (p.wire ++ sent)
        → Turned k p takes (advance sent (record p { conn = record c { wfile_offset = offset } }))
    unfolding advance
    advance-more offset more some_bytes phase =
        let left : (c.woffset + length sent == c.wtotallength) ≡ false =
          ground (arith, size_left, positive rest more) in
        rw (i.status, left)
          (moves
            (record c { woffset = c.woffset + length sent; wstatus = 1; wfile_offset = offset })
            sent some_bytes phase)
