-- ===== src/Web/Response.antt =====
-- `http_request` and `http_response` of test8/webserver.cpp. `header_for` is the text that `snprintf`
-- makes for a length.
use test_linux.Base.{
  ℕ, ◌+◌, ◌-◌, ◌*◌, ◌%◌, ◌^◌, true, false, Option, none, some, [], ◌∷◌, ◌==◌, ltb, leb, length, ℤ,
  pos, negsuc, Run, ok, fault, ◌>>=◌, or_fault, Bytes, slice, write_at, if◌then◌else◌,
}
use test_linux.Web.Connection.{buffer_length, Connection}

-- `cached_file_content` and `cached_response_header`.
pub record Cache : Type 0 where
  pub content : Bytes
  pub header : Bytes

unfoldable pub http_request : Connection → Connection
http_request c = record c { wlength = 0; wstatus = 0 }

-- A file that could not be opened is a null pointer for `fseek`.
unfoldable pub fill_cache : (ℕ → Bytes) → Option Bytes → Cache → Run Cache
fill_cache header_for file cache = elim cache.content [
  | [] ↦ do
    content ← or_fault file
    ok (record { content = content; header = header_for (length content) })
  | _ ∷ _ ↦ ok cache
]

unfoldable pub begin_response : Cache → Connection → Connection
begin_response cache c =
    if c.wtotallength == 0
    then record c { wtotallength = length cache.header + length cache.content; woffset = 0 }
    else c

-- A number of bytes that is negative as an `int` is too large a size for `memcpy`.
unfoldable pub fill_header : Cache → Connection → Run Connection
fill_header cache c = elim (ltb (length cache.header) c.woffset) [
  | true ↦ fault
  | false ↦ do
    let num = length cache.header - c.woffset
    part ← slice cache.header c.woffset num
    wbuffer ← write_at c.wbuffer 0 part
    ok (record c { wbuffer = wbuffer; wlength = num })
]

-- `offset_t` is an `int`: a negative one points in front of the content.
unfoldable pub fill_body : Cache → Connection → Run Connection
fill_body cache c =
    let offset_t = (c.woffset + 2 ^ 32 - length cache.header % 2 ^ 32) % 2 ^ 32 in
    elim (ltb offset_t (2 ^ 31)) [
      | false ↦ fault
      | true ↦ do
        let left = (length cache.content + 2 ^ 64 - offset_t) % 2 ^ 64
        let readnum = if leb left buffer_length then left else buffer_length
        part ← slice cache.content offset_t readnum
        wbuffer ← write_at c.wbuffer 0 part
        ok (record c { wbuffer = wbuffer; wlength = readnum })
    ]

unfoldable pub fill_buffer : Cache → Connection → Run (ℤ × Connection)
unfolding fill_header fill_body
fill_buffer cache c = do
  c ← if c.wstatus == 0 then fill_header cache c else ok c
  c ← if c.wstatus == 1 then fill_body cache c else ok c
  ok (pos 0, c)

-- `opens` answers `open`.
unfoldable pub choose_part : (opens : Option ℕ) → Cache → Connection → Run (ℤ × Cache × Connection)
unfolding fill_buffer
choose_part opens cache c = elim (c.woffset == length cache.header) [
  | false ↦ do (code, c) ← fill_buffer cache c; ok (code, cache, c)
  | true ↦
      let c = record c { wstatus = 1 } in
      elim (ltb (buffer_length * 3) c.wtotallength) [
        | false ↦ do (code, c) ← fill_buffer cache c; ok (code, cache, c)
        | true ↦ elim opens [
          | none ↦ ok (negsuc 0, cache, c)
          | some filefd ↦
              ok
                (pos 0, cache, record c { w_file_fd = some filefd; wlength = length cache.content })
        ]
      ]
]

-- `file` answers `fopen`.
unfoldable pub http_response :
    (ℕ → Bytes)
    → (file : Option Bytes) → (opens : Option ℕ) → Cache
    → Connection
    → Run (ℤ × Cache × Connection)
unfolding fill_cache begin_response choose_part
http_response header_for file opens cache c = do
  cache ← fill_cache header_for file cache
  choose_part opens cache (begin_response cache c)
