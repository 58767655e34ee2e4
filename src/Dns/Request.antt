-- ===== src/Dns/Request.antt =====
-- The request side of 2.3.1-coroutine/async_dns_client_noblock.c: `dns_create_header`,
-- `dns_create_question` and `dns_build_request`. A host name is the list of its bytes without the
-- terminator. The allocator is a parameter: the block that `malloc(n)` returns, with the bytes that
-- happen to be in it, or nothing. So are the values of `random`.
use Prim.Native.Nat.{bit_or}
use test_linux.Base.{
  ℕ, ◌+◌, ◌%◌, ◌^◌, Option, none, some, true, false, List, [], ◌∷◌, ◌++◌, ℤ, pos, negsuc, Run, ok,
  ◌>>=◌, or_fault, ◌==◌, length, Bytes, le16, htons, write_at,
}

-- `struct dns_header`: each field as the value of the `unsigned short` in memory.
pub record DnsHeader : Type 0 where
  pub id : ℕ
  pub flags : ℕ
  pub qdcount : ℕ
  pub ancount : ℕ
  pub nscount : ℕ
  pub arcount : ℕ

-- `struct dns_question`; `qname` is the block that it points to.
pub record DnsQuestion : Type 0 where
  pub length : ℕ
  pub qtype : ℕ
  pub qclass : ℕ
  pub qname : Option Bytes

abbrev pub blank_header : DnsHeader
blank_header = record { id = 0; flags = 0; qdcount = 0; ancount = 0; nscount = 0; arcount = 0 }

abbrev pub blank_question : DnsQuestion
blank_question = record { length = 0; qtype = 0; qclass = 0; qname = none }

-- `header` is none for a null pointer; `r` is what `random` returns.
unfoldable pub dns_create_header : Option DnsHeader → ℕ → ℤ × Option DnsHeader
unfolding htons
dns_create_header none r = (negsuc 0, none)
dns_create_header (some _) r = (
  pos 0,
  some
      (record blank_header { id = r % 2 ^ 16; flags = bit_or 0 (htons 0x0100); qdcount = htons 1 }),
)

abbrev pub dot : ℕ
dot = b'.'

abbrev pub flush : Bytes → List Bytes → List Bytes
flush [] ts = ts
flush (c ∷ cs) ts = (c ∷ cs) ∷ ts

-- The tokens that repeated calls of `strtok` with "." yield; `cur` is the part of a token read.
unfoldable pub tokens_from : Bytes → Bytes → List Bytes
tokens_from cur [] = flush cur []
tokens_from cur (c ∷ s) = elim (c == dot) [
  | true ↦ flush cur (tokens_from [] s)
  | false ↦ tokens_from (cur ++ c ∷ []) s
]

abbrev pub strtok_all : Bytes → List Bytes
strtok_all s = tokens_from [] s

-- The loop over the tokens: `p` is `qname_p` as an offset into the block. `strncpy` of `len + 1`
-- characters copies the terminator too, and `*qname_p = len` keeps the low byte.
unfoldable pub put_labels : List Bytes → Bytes → ℕ → Run Bytes
put_labels [] block p = ok block
put_labels (t ∷ ts) block p = do
  block ← write_at block p ((length t % 256) ∷ [])
  block ← write_at block (p + 1) (t ++ 0 ∷ [])
  put_labels ts block (p + 1 + length t)

module _ (malloc : ℕ → Option Bytes) where
  -- The part after the allocation; `strdup` allocates too, and its result is not tested.
  unfoldable pub fill_question : DnsQuestion → Bytes → Bytes → Run (ℤ × Option DnsQuestion)
  fill_question q hostname block = do
    _ ← or_fault (malloc (length hostname + 1))
    block ← put_labels (strtok_all hostname) block 0
    ok (
      pos 0,
      some (record q {
        length = length hostname + 2;
        qtype = htons 1;
        qclass = htons 1;
        qname = some block;
      }),
    )

  unfoldable pub dns_create_question : Option DnsQuestion → Bytes → Run (ℤ × Option DnsQuestion)
  unfolding fill_question
  dns_create_question none hostname = ok (negsuc 0, none)
  dns_create_question (some _) hostname = elim (malloc (length hostname + 2)) [
    | none ↦ ok (negsuc 1, some blank_question)
    | some block ↦ fill_question blank_question hostname block
  ]

-- The bytes of the header in memory.
unfoldable pub header_bytes : DnsHeader → Bytes
header_bytes h =
    le16 h.id
    ++ (le16 h.flags ++ (le16 h.qdcount ++ (le16 h.ancount ++ (le16 h.nscount ++ le16 h.arcount))))

-- `request` is the buffer; the result is the buffer and the length.
unfoldable pub dns_build_request : DnsHeader → DnsQuestion → Bytes → Run (Bytes × ℕ)
unfolding header_bytes
dns_build_request header question request = do
  request ← write_at request 0 (header_bytes header)
  let offset : ℕ = 12
  qname ← or_fault question.qname
  request ← write_at request offset qname
  let offset = offset + question.length
  request ← write_at request offset (le16 question.qtype)
  let offset = offset + 2
  request ← write_at request offset (le16 question.qclass)
  ok (request, question.length + 2 + 2 + 12)
