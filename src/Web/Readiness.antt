-- ===== src/Web/Readiness.antt =====
-- What `http_response` of test8/webserver.cpp leaves for `write_callback`.
use test_linux.Base.{
  ℕ, ◌+◌, ◌≤◌, ◌<◌, ◌≡◌, ◌≢◌, refl, sym, ap, subst, ◌∙◌, ◌⊎◌, inl, inr, Option, none, some, [], ◌∷◌,
  ◌++◌, append-nil, ◌==◌, leb, Bool-cases, length, length-append, arith, pos, ok, Bytes,
}
use test_linux.Web.Connection.{buffer_length, Connection}
use test_linux.Web.Response.{
  Cache, fill_cache, fill_buffer, begin_response, choose_part, http_response,
}
use test_linux.Web.Phases.{
  IsCache, Common, InHeader, Content, InFile, Phase, fresh, in_header, in_body, in_file,
  slice-loaded, with_buffer,
}
use test_linux.Web.Filling.{
  Ready, header_ready, body_ready, file_ready, some_part, fill_buffer-body, choose_part-header,
  Content-buffer, Common-buffer, positive, fits,
}

module _ {k : Cache} (is : IsCache k) where
  -- Behind the header, the status is 1.
  entered :
      {c : Connection} {wire : Bytes}
      → InHeader k c wire []
      → Content k (record c { wstatus = 1 }) wire [] k.content
  entered {c} {wire} i = record {
    common = record { total = i.common.total; offset = i.common.offset; size = i.common.size };
    front = sym (append-nil wire) ∙ (i.split ∙ sym (append-nil k.header));
    split = refl;
    more = is.some_content;
    status = refl;
  }

  Content-again :
      {c : Connection} {wire b left : Bytes}
      → Content k c wire b left
      → Content k (record c { wstatus = 1 }) wire b left
  Content-again i = record {
    common = record { total = i.common.total; offset = i.common.offset; size = i.common.size };
    front = i.front;
    split = i.split;
    more = i.more;
    status = refl;
  }

  -- The body goes to the buffer where the whole is short enough.
  body-Ready :
      {c : Connection} {wire b left : Bytes} (filefd : ℕ)
      → Content k (record c { wstatus = 1 }) wire b left
      → (c.woffset ≡ length k.header) ⊎ (c.wstatus ≡ 1)
      → c.w_file_fd ≡ none
      → c.wfile_offset ≡ 0
      → length k.header + length k.content ≤ 3072
      → (c' : Connection) × (choose_part (some filefd) k c ≡ ok (pos 0, k, c')) × Ready k c' wire
  unfolding choose_part
  body-Ready {c} {wire} {b} {left} filefd i reached file file_offset small =
      let (d, rest, e, some_bytes, taken) = some_part is left i.more in
      let short : length d ≤ buffer_length = ground arith in
      let c' : Connection = record c { wstatus = 1 } in
      let filled = fill_buffer-body is d rest i e taken in
      (
        with_buffer c' d,
        chosen d filled reached,
        body_ready b d rest
            (record {
              part = Content-buffer is d short (subst (λ (l : Bytes). Content k c' wire b l) e i);
              file = file;
              file_offset = file_offset;
              small = small;
            })
            some_bytes (slice-loaded c' d (fits is d i.common short)),
      )
    where
      chosen :
          (d : Bytes)
          → fill_buffer k (record c { wstatus = 1 })
            ≡ ok (pos 0, with_buffer (record c { wstatus = 1 }) d)
          → (c.woffset ≡ length k.header) ⊎ (c.wstatus ≡ 1)
          → choose_part (some filefd) k c ≡ ok (pos 0, k, with_buffer (record c { wstatus = 1 }) d)
      chosen d filled (inl at) = ground (arith, i.common.total, filled)
      chosen d filled (inr status) = elim (Bool-cases (c.woffset == length k.header)) [
        | inl at ↦ ground (arith, i.common.total, filled)
        | inr away ↦
            let same : fill_buffer k c ≡ fill_buffer k (record c { wstatus = 1 }) =
              ap (λ (n : ℕ). fill_buffer k (record c { wstatus = n })) status in
            ground (arith, same ∙ filled)
      ]

  file-Ready :
      (c : Connection) {wire : Bytes} (filefd : ℕ)
      → Content k (record c { wstatus = 1 }) wire [] k.content
      → c.woffset ≡ length k.header
      → c.wfile_offset ≡ 0
      → 3072 < length k.header + length k.content
      → (c' : Connection) × (choose_part (some filefd) k c ≡ ok (pos 0, k, c')) × Ready k c' wire
  unfolding choose_part
  file-Ready c filefd i at file_offset large = (
    record c { wstatus = 1; w_file_fd = some filefd; wlength = length k.content },
    ground (arith, i.common.total),
    file_ready [] k.content (record {
      part = record {
        common = record { total = i.common.total; offset = i.common.offset; size = i.common.size };
        front = i.front;
        split = refl;
        more = i.more;
        status = refl;
      };
      file = (filefd, refl);
      file_offset = file_offset;
      large = large;
    }),
  )

  -- In the middle of a long file the buffer is filled too, for nothing.
  long-Ready :
      {c : Connection} {wire b left : Bytes} (filefd : ℕ)
      → InFile k c wire b left
      → c.woffset ≢ length k.header
      → (c' : Connection) × (choose_part (some filefd) k c ≡ ok (pos 0, k, c')) × Ready k c' wire
  unfolding choose_part
  long-Ready {c} {wire} {b} {left} filefd i away =
      let (d, rest, e, some_bytes, taken) = some_part is left i.part.more in
      let short : length d ≤ buffer_length = ground arith in
      let filled = fill_buffer-body is d rest i.part e taken in
      (
        with_buffer c d,
        ground (arith, filled),
        file_ready b left (record {
          part = Content-buffer is d short i.part;
          file = i.file;
          file_offset = i.file_offset;
          large = i.large;
        }),
      )

  header-Ready :
      (h : Bytes) {c : Connection} {wire : Bytes} (filefd : ℕ)
      → InHeader k c wire h
      → (c' : Connection) × (choose_part (some filefd) k c ≡ ok (pos 0, k, c')) × Ready k c' wire
  header-Ready [] {c} {wire} filefd i =
      let at : c.woffset ≡ length k.header =
        i.common.offset ∙ ap length (sym (append-nil wire) ∙ i.split) in
      elim (Bool-cases (leb (length k.header + length k.content) 3072)) [
        | inl small ↦ body-Ready filefd (entered i) (inl at) i.file i.file_offset (ground arith)
        | inr large ↦ file-Ready c filefd (entered i) at i.file_offset (ground arith)
      ]
  header-Ready (x ∷ h) {c} {wire} filefd i =
      let size : length k.header ≡ length wire + length (x ∷ h) =
        ap length (sym i.split) ∙ length-append wire (x ∷ h) in
      let short : length (x ∷ h) ≤ buffer_length = omega (arith, is.header_size) in
      (
        with_buffer c (x ∷ h),
        choose_part-header is filefd i (λ e. cc),
        header_ready (x ∷ h)
            (record {
              common = Common-buffer is (x ∷ h) short i.common;
              split = i.split;
              status = i.status;
              file = i.file;
              file_offset = i.file_offset;
            })
            (λ e. cc) (slice-loaded c (x ∷ h) (fits is (x ∷ h) i.common short)),
      )

  stay-Ready :
      (b : Bytes) {c : Connection} {wire left : Bytes} (filefd : ℕ)
      → InFile k c wire b left
      → (c' : Connection) × (choose_part (some filefd) k c ≡ ok (pos 0, k, c')) × Ready k c' wire
  stay-Ready [] {c} {wire} {left} filefd i =
      let at : c.woffset ≡ length k.header =
        i.part.common.offset ∙ ap length (i.part.front ∙ append-nil k.header) in
      file-Ready c filefd
        (subst (λ (l : Bytes). Content k (record c { wstatus = 1 }) wire [] l) i.part.split
          (Content-again i.part))
        at i.file_offset i.large
  stay-Ready (x ∷ b) {c} {wire} {left} filefd i =
      let at : c.woffset ≡ length k.header + length (x ∷ b) =
        i.part.common.offset ∙ (ap length i.part.front ∙ length-append k.header (x ∷ b)) in
      long-Ready filefd i (λ e. absurd (omega (arith, at, e)))

  begun : (c : Connection) {wire : Bytes} → Common k c wire → begin_response k c ≡ c
  unfolding begin_response
  begun c common = ground (arith, common.total, positive k.header is.some_header)

  chosen-Ready :
      {c : Connection} {wire : Bytes} (filefd : ℕ)
      → Phase k c wire
      → (c' : Connection) × (choose_part (some filefd) k (begin_response k c) ≡ ok (pos 0, k, c'))
        × Ready k c' wire
  unfolding begin_response
  chosen-Ready {c} {wire} filefd (fresh f) = rw (f.total) (
      header-Ready k.header filefd (record {
        common = record { total = refl; offset = ap length (sym f.wire_empty); size = f.size };
        split = ap (λ (l : Bytes). l ++ k.header) f.wire_empty;
        status = f.status;
        file = f.file;
        file_offset = f.file_offset;
      }))
  chosen-Ready {c} {wire} filefd (in_header h i) = rw (begun c i.common) (header-Ready h filefd i)
  chosen-Ready {c} {wire} filefd (in_body b left i) =
      rw (begun c i.part.common)
        (body-Ready filefd (Content-again i.part) (inr i.part.status) i.file i.file_offset i.small)
  chosen-Ready {c} {wire} filefd (in_file b left i) =
      rw (begun c i.part.common) (stay-Ready b filefd i)

  pub http_response-Ready :
      {c : Connection} {wire : Bytes} (header_for : ℕ → Bytes) (file : Option Bytes) (filefd : ℕ)
      → Phase k c wire
      → (c' : Connection) × (http_response header_for file (some filefd) k c ≡ ok (pos 0, k, c'))
        × Ready k c' wire
  unfolding http_response fill_cache
  http_response-Ready {c} {wire} header_for file filefd phase =
      let (c', e, ready) = chosen-Ready filefd phase in (c', cached ∙ e, ready)
    where
      cached :
          http_response header_for file (some filefd) k c
          ≡ choose_part (some filefd) k (begin_response k c)
      cached = ground (arith, is.some_content)
