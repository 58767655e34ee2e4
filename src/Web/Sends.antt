-- ===== src/Web/Sends.antt =====
-- What `send` and `sendfile` take in `write_callback` of test8/reactor.cpp.
use test_linux.Base.{
  ℕ, zero, suc, ◌+◌, ◌-◌, ◌%◌, ◌^◌, ◌<◌, ◌≡◌, ◌≢◌, refl, sym, ap, ap₂, subst, ◌∙◌, ◌⊎◌, inl, inr,
  Option, none, some, [], ◌∷◌, ◌++◌, length, take, drop, length-append, take-append-drop, take-all,
  drop-append, arith, ℤ, negsuc, ok, Bytes, slice,
}
use test_linux.Web.Connection.{Connection, reset_w, Peer}
use test_linux.Web.Response.{Cache}
use test_linux.Web.Reactor.{WriteAnswer, closed, try_later, advance, send_buffer, send_file}
use test_linux.Web.Phases.{Content, InFile, Phase, in_file}
use test_linux.Web.Writing.{
  hangs_up, Turned, Stalled, try_later-Turn, Content-moved, advance-last, advance-more,
}

-- What `send` takes of `d`, or `sendfile` of the file.
taken :
    (n : ℕ) (d : Bytes)
    → d ≢ []
    → ((take n d ≡ []) × Stalled (some n))
      ⊎ ((x : ℕ) × (b rest : Bytes) × (take n d ≡ x ∷ b) × (d ≡ (x ∷ b) ++ rest))
taken zero d ne = inl (refl, tt)
taken (suc n) [] ne = absurd (ne refl)
taken (suc n) (x ∷ d) ne =
    inr (x, take n d, drop n d, refl, ap (λ (l : Bytes). x ∷ l) (sym (take-append-drop n d)))

module _ {k : Cache} (p : Peer) where
  pub send_buffer-Turn :
      (a : WriteAnswer) (c : Connection) (d : Bytes)
      → d ≢ []
      → slice c.wbuffer 0 c.wlength ≡ ok d
      → Phase k c p.wire
      → ((sent rest : Bytes)
          → d ≡ sent ++ rest
          → sent ≢ []
          → Turned k p a.takes (advance sent (record p { conn = c })))
      → (r : ℤ × Peer) × (send_buffer a (record p { conn = c }) ≡ ok r) × Turned k p a.takes r
  unfolding send_buffer
  send_buffer-Turn a c d ne loaded phase onward = go a.takes refl
    where
      go :
          (t : Option ℕ)
          → a.takes ≡ t
          → (r : ℤ × Peer) × (send_buffer a (record p { conn = c }) ≡ ok r) × Turned k p a.takes r
      go none e = (
        try_later a.errno (record p { conn = c }),
        ground (arith, loaded),
        try_later-Turn p a.takes a.errno c (rw e tt) phase,
      )
      go (some n) e = elim (taken n d ne) [
        | inl (nothing, stalled) ↦ (
          (negsuc 0, closed (record p { conn = c })),
          ground (arith, loaded),
          hangs_up c (rw e stalled),
        )
        | inr (x, b, rest, e', split) ↦ (
          advance (x ∷ b) (record p { conn = c }),
          ground (arith, loaded),
          onward (x ∷ b) rest split (λ e. cc),
        )
      ]

  -- `sendfile` from the place that has been reached.
  pub send_file-Turn :
      (a : WriteAnswer) (c : Connection) (b left : Bytes)
      → InFile k c p.wire b left
      → a.on_disk ≡ k.content
      → length k.header + length k.content < 2 ^ 64
      → Turned k p a.takes (send_file a (record p { conn = c }))
  unfolding send_file reset_w
  send_file-Turn a c b left i disk size = go a.takes refl
    where
      part : Content k c p.wire b left
      part = i.part

      there :
          take ((c.wtotallength + 2 ^ 64 - c.woffset) % 2 ^ 64) (drop c.wfile_offset a.on_disk)
          ≡ left
      there =
          ap (λ (l : Bytes). take ((c.wtotallength + 2 ^ 64 - c.woffset) % 2 ^ 64) l)
            (ap₂ (λ (n : ℕ) (l : Bytes). drop n l) i.file_offset (disk ∙ sym part.split)
              ∙ drop-append b left)
          ∙ take-all ((c.wtotallength + 2 ^ 64 - c.woffset) % 2 ^ 64) left (
              omega (
                arith,
                part.common.total,
                part.common.offset,
                ap length part.front,
                length-append k.header b,
                ap length part.split,
                length-append b left,
              ))

      next :
          (sent rest : Bytes)
          → left ≡ sent ++ rest
          → sent ≢ []
          → Turned k p a.takes (
              advance sent
                (record p { conn = record c { wfile_offset = c.wfile_offset + length sent } }))
      next sent [] e some_bytes =
          let (fd, file) = i.file in
          advance-last p a.takes sent [] part e (c.wfile_offset + length sent) refl some_bytes
            (rw file refl)
      next sent (x ∷ rest) e some_bytes =
          advance-more p a.takes sent (x ∷ rest) part e (c.wfile_offset + length sent) (λ e. cc)
            some_bytes
            (in_file (b ++ sent) (x ∷ rest) (record {
              part =
                  Content-moved p a.takes sent (x ∷ rest) part e (c.wfile_offset + length sent)
                    (λ e. cc);
              file = i.file;
              file_offset = omega (arith, i.file_offset, length-append b sent);
              large = i.large;
            }))

      go : (t : Option ℕ) → a.takes ≡ t → Turned k p a.takes (send_file a (record p { conn = c }))
      go none e = rw e (try_later-Turn p none a.errno c tt (in_file b left i))
      go (some n) e = elim (taken n left part.more) [
        | inl (nothing, stalled) ↦
            let run : send_file a (record p { conn = c })
                ≡ try_later a.errno (record p { conn = c }) =
              ground (arith, there) in
            subst (λ (r : ℤ × Peer). Turned k p a.takes r) (sym run)
              (try_later-Turn p a.takes a.errno c (rw e stalled) (in_file b left i))
        | inr (x, b', rest, e', split) ↦
            let run : send_file a (record p { conn = c })
                ≡ advance (x ∷ b') (record p {
                  conn = record c { wfile_offset = c.wfile_offset + length (x ∷ b') };
                }) =
              ground (arith, there) in
            subst (λ (r : ℤ × Peer). Turned k p a.takes r) (sym run)
              (next (x ∷ b') rest split (λ e. cc))
      ]
