-- ===== src/Web/Filling.antt =====
-- What `http_response` of test8/webserver.cpp puts into the write buffer.
use test_linux.Base.{
  ℕ, zero, suc, ◌+◌, ◌-◌, ◌%◌, ◌^◌, ◌≤◌, ◌<◌, ◌≡◌, ◌≢◌, refl, sym, ap, ◌∙◌, true, false, some, [],
  ◌∷◌, ◌++◌, append-nil, ltb, leb, length, take, drop, length-append, take-append-drop, arith, pos,
  ok, Bytes, slice, write_at, if◌then◌else◌,
}
use test_linux.Web.Connection.{buffer_length, Connection}
use test_linux.Web.Response.{Cache, fill_header, fill_body, fill_buffer, choose_part}
use test_linux.Web.Phases.{
  IsCache, Common, InHeader, Content, InBody, InFile, slice-split, loaded, write_at-front,
  length-loaded, with_buffer,
}

module _ {k : Cache} (is : IsCache k) where
  fill_header-loaded :
      {c : Connection} {wire h : Bytes}
      → InHeader k c wire h
      → fill_header k c ≡ ok (with_buffer c h)
  unfolding fill_header
  fill_header-loaded {c} {wire} {h} i =
      let size : length k.header ≡ length wire + length h =
        ap length (sym i.split) ∙ length-append wire h in
      let num : length k.header - c.woffset ≡ length h = omega (arith, i.common.offset) in
      let part : slice k.header c.woffset (length k.header - c.woffset) ≡ ok h =
        slice-split k.header wire h [] c.woffset (length k.header - c.woffset)
          (sym i.split ∙ ap (λ (l : Bytes). wire ++ l) (sym (append-nil h))) i.common.offset num in
      let inside : ltb (length k.header) c.woffset ≡ false = ground (arith, i.common.offset) in
      let put : write_at c.wbuffer 0 h ≡ ok (loaded h c.wbuffer) =
        write_at-front c h (omega (arith, is.header_size, i.common.size)) in
      ground (arith, part, put, num)

  fill_body-loaded :
      {c : Connection} {wire b left : Bytes} (d rest : Bytes)
      → Content k c wire b left
      → left ≡ d ++ rest
      → length d ≡ (if leb (length left) buffer_length then length left else buffer_length)
      → fill_body k c ≡ ok (with_buffer c d)
  unfolding fill_body
  fill_body-loaded {c} {wire} {b} {left} d rest i e taken =
      let size : length k.content ≡ length b + length left =
        ap length (sym i.split) ∙ length-append b left in
      let at : c.woffset ≡ length k.header + length b =
        i.common.offset ∙ (ap length i.front ∙ length-append k.header b) in
      let offset_t : (c.woffset + 2 ^ 32 - length k.header % 2 ^ 32) % 2 ^ 32 ≡ length b =
        omega (arith, is.header_size, is.content_size) in
      let inside : ltb (length b) (2 ^ 31) ≡ true = ground (arith, is.content_size) in
      let rest_size : (length k.content + 2 ^ 64 - length b) % 2 ^ 64 ≡ length left =
        omega (arith, is.content_size) in
      let part : slice k.content (length b) (length d) ≡ ok d =
        slice-split k.content b d rest (length b) (length d)
          (sym i.split ∙ ap (λ (l : Bytes). b ++ l) e) refl refl in
      let put : write_at c.wbuffer 0 d ≡ ok (loaded d c.wbuffer) =
        write_at-front c d (ground (arith, i.common.size)) in
      ground (arith, offset_t, rest_size, taken, part, put)

  fill_buffer-header :
      {c : Connection} {wire h : Bytes}
      → InHeader k c wire h
      → fill_buffer k c ≡ ok (pos 0, with_buffer c h)
  unfolding fill_buffer
  fill_buffer-header i = ground (arith, i.status, fill_header-loaded i)

  pub fill_buffer-body :
      {c : Connection} {wire b left : Bytes} (d rest : Bytes)
      → Content k c wire b left
      → left ≡ d ++ rest
      → length d ≡ (if leb (length left) buffer_length then length left else buffer_length)
      → fill_buffer k c ≡ ok (pos 0, with_buffer c d)
  unfolding fill_buffer
  fill_buffer-body d rest i e taken = ground (arith, i.status, fill_body-loaded d rest i e taken)

-- What `http_response` leaves for `write_callback`: bytes in the buffer, or a place in the open file.
pub data Ready (k : Cache) (c : Connection) (wire : Bytes) : Type 0 where
  header_ready :
      (h : Bytes)
      → InHeader k c wire h
      → h ≢ []
      → slice c.wbuffer 0 c.wlength ≡ ok h
      → Ready k c wire
  body_ready :
      (b d rest : Bytes)
      → InBody k c wire b (d ++ rest)
      → d ≢ []
      → slice c.wbuffer 0 c.wlength ≡ ok d
      → Ready k c wire
  file_ready : (b left : Bytes) → InFile k c wire b left → Ready k c wire

length-take_if :
    (n : ℕ) (l : Bytes) → length (take n l) ≡ (if leb (length l) n then length l else n)
length-take_if zero [] = refl
length-take_if zero (y ∷ l) = ground arith
length-take_if (suc n) [] = ground arith
length-take_if (suc n) (y ∷ l) = ground (arith, length-take_if n l)

pub positive : (l : Bytes) → l ≢ [] → 0 < length l
positive [] ne = absurd (ne refl)
positive (x ∷ l) ne = omega arith

module _ {k : Cache} (is : IsCache k) where
  -- The part of what is left that fits into the buffer.
  pub some_part :
      (left : Bytes)
      → left ≢ []
      → (d rest : Bytes) × (left ≡ d ++ rest)
        × (d ≢ [])
        × (length d ≡ (if leb (length left) buffer_length then length left else buffer_length))
  some_part [] more = absurd (more refl)
  some_part (x ∷ l) more = (
    x ∷ take 1023 l,
    drop 1023 l,
    ap (λ (l : Bytes). x ∷ l) (sym (take-append-drop 1023 l)),
    cons≢nil,
    length-take_if 1024 (x ∷ l),
  )
    where
      cons≢nil : x ∷ take 1023 l ≢ []
      cons≢nil e = cc

  pub fits :
      {c : Connection} {wire : Bytes} (d : Bytes)
      → Common k c wire
      → length d ≤ buffer_length
      → length d ≤ length c.wbuffer
  fits d common h = omega (arith, common.size)

  pub Common-buffer :
      {c : Connection} {wire : Bytes} (d : Bytes)
      → length d ≤ buffer_length
      → Common k c wire
      → Common k (with_buffer c d) wire
  Common-buffer {c} d h common = record {
    total = common.total;
    offset = common.offset;
    size = length-loaded c d (fits d common h) ∙ common.size;
  }

  pub Content-buffer :
      {c : Connection} {wire b left : Bytes} (d : Bytes)
      → length d ≤ buffer_length
      → Content k c wire b left
      → Content k (with_buffer c d) wire b left
  Content-buffer d h i = record {
    common = Common-buffer d h i.common;
    front = i.front;
    split = i.split;
    more = i.more;
    status = i.status;
  }

  pub choose_part-header :
      {c : Connection} {wire h : Bytes} (filefd : ℕ)
      → InHeader k c wire h
      → h ≢ []
      → choose_part (some filefd) k c ≡ ok (pos 0, k, with_buffer c h)
  unfolding choose_part
  choose_part-header {c} {wire} {h} filefd i some_left =
      let size : length k.header ≡ length wire + length h =
        ap length (sym i.split) ∙ length-append wire h in
      ground (arith, positive h some_left, i.common.offset, fill_buffer-header is i)
