-- ===== src/Web/Phases.antt =====
-- How far a response of test8/webserver.cpp has come.
use test_linux.Base.{
  ℕ, ◌+◌, ◌^◌, ◌≤◌, ◌<◌, ◌≡◌, ◌≢◌, refl, true, none, some, [], ◌++◌, leb, length, drop,
  length-append, take-append, drop-append, length-drop, arith, ok, Bytes, slice, write_at,
  write_at-split, le→leb,
}
use test_linux.Web.Connection.{buffer_length, Connection}
use test_linux.Web.Response.{Cache}

-- What the cached file and its header keep to.
pub record IsCache (k : Cache) : Type 0 where
  pub some_header : k.header ≢ []
  pub header_size : length k.header ≤ buffer_length
  pub some_content : k.content ≢ []
  pub content_size : length k.content < 2 ^ 31

module _ (k : Cache) (c : Connection) (wire : Bytes) where
  pub record Common : Type 0 where
    pub total : c.wtotallength ≡ length k.header + length k.content
    pub offset : c.woffset ≡ length wire
    pub size : length c.wbuffer ≡ buffer_length

  -- `h` of the header is left.
  pub record InHeader (h : Bytes) : Type 0 where
    pub common : Common
    pub split : wire ++ h ≡ k.header
    pub status : c.wstatus ≡ 0
    pub file : c.w_file_fd ≡ none
    pub file_offset : c.wfile_offset ≡ 0

  -- `b` of the content has been sent, and `left` is left.
  pub record Content (b left : Bytes) : Type 0 where
    pub common : Common
    pub front : wire ≡ k.header ++ b
    pub split : b ++ left ≡ k.content
    pub more : left ≢ []
    pub status : c.wstatus ≡ 1

  pub record InBody (b left : Bytes) : Type 0 where
    pub part : Content b left
    pub file : c.w_file_fd ≡ none
    pub file_offset : c.wfile_offset ≡ 0
    pub small : length k.header + length k.content ≤ 3072

  pub record InFile (b left : Bytes) : Type 0 where
    pub part : Content b left
    pub file : (fd : ℕ) × (c.w_file_fd ≡ some fd)
    pub file_offset : c.wfile_offset ≡ length b
    pub large : 3072 < length k.header + length k.content

  -- Nothing has been sent, and the lengths are not known yet.
  pub record Fresh : Type 0 where
    pub total : c.wtotallength ≡ 0
    pub wire_empty : wire ≡ []
    pub status : c.wstatus ≡ 0
    pub file : c.w_file_fd ≡ none
    pub file_offset : c.wfile_offset ≡ 0
    pub size : length c.wbuffer ≡ buffer_length

  pub data Phase : Type 0 where
    fresh : Fresh → Phase
    in_header : (h : Bytes) → InHeader h → Phase
    in_body : (b left : Bytes) → InBody b left → Phase
    in_file : (b left : Bytes) → InFile b left → Phase

-- The `n` bytes behind `p` bytes of a block.
pub slice-split :
    (block a d rest : Bytes) (p n : ℕ)
    → block ≡ a ++ (d ++ rest)
    → p ≡ length a
    → n ≡ length d
    → slice block p n ≡ ok d
unfolding slice
slice-split block a d rest p n e at size =
    let fits : leb (length a + length d) (length (a ++ (d ++ rest))) ≡ true =
      le→leb _ _ (omega (arith, length-append a (d ++ rest), length-append d rest)) in
    rw (e, at, size, fits, drop-append a (d ++ rest), take-append d rest)

-- The write buffer after a `memcpy` to its front.
abbrev pub loaded : Bytes → Bytes → Bytes
loaded d wbuffer = d ++ drop (length d) wbuffer

module _ (c : Connection) (d : Bytes) (fits : length d ≤ length c.wbuffer) where
  pub write_at-front : write_at c.wbuffer 0 d ≡ ok (loaded d c.wbuffer)
  write_at-front = write_at-split c.wbuffer [] c.wbuffer d 0 refl refl fits

  pub length-loaded : length (loaded d c.wbuffer) ≡ length c.wbuffer
  length-loaded =
      omega (arith, length-append d (drop (length d) c.wbuffer), length-drop (length d) c.wbuffer)

  pub slice-loaded : slice (loaded d c.wbuffer) 0 (length d) ≡ ok d
  slice-loaded =
      slice-split (loaded d c.wbuffer) [] d (drop (length d) c.wbuffer) 0 (length d) refl refl refl

abbrev pub with_buffer : Connection → Bytes → Connection
with_buffer c d = record c { wbuffer = loaded d c.wbuffer; wlength = length d }
