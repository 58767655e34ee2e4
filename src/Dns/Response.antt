-- ===== src/Dns/Response.antt =====
-- `dns_parse_response` of 2.3.1-coroutine/async_dns_client_noblock.c. The buffer is the caller's, of
-- 1024 bytes, whatever `recvfrom` put into it. `inet_ntop` and `calloc` are parameters: the text of
-- an address, and whether an allocation of so many bytes succeeds.
use test_linux.Base.{
  ℕ, zero, suc, ◌+◌, ◌*◌, Bool, true, false, List, [], ◌∷◌, ◌++◌, ℤ, pos, negsuc, Run, ok,
  out_of_fuel, ◌>>=◌, check, ◌==◌, length, replicate, Bytes, peek, slice, c_str, htons, load16,
}
use test_linux.Dns.Name.{dns_parse_name}

-- `struct dns_item`.
pub record DnsItem : Type 0 where
  pub domain : Bytes
  pub ip : Bytes

-- The loop that passes over the name of a question.
unfoldable pub skip_name : ℕ → Bytes → ℕ → Run ℕ
skip_name zero buffer ptr = out_of_fuel
skip_name (suc f) buffer ptr = do
  flag ← peek buffer ptr
  elim (flag == 0) [ true ↦ ok (ptr + (flag + 1)) | false ↦ skip_name f buffer (ptr + (flag + 1)) ]

unfoldable pub skip_questions : ℕ → ℕ → Bytes → ℕ → Run ℕ
unfolding skip_name
skip_questions fuel zero buffer ptr = ok ptr
skip_questions fuel (suc querys) buffer ptr = do
  ptr ← skip_name fuel buffer ptr
  skip_questions fuel querys buffer (ptr + 4)

-- `ntohs(*(unsigned short *)ptr)`.
unfoldable pub load_net16 : Bytes → ℕ → Run ℕ
unfolding htons load16
load_net16 buffer p = do x ← load16 buffer p; ok (htons x)

abbrev pub dns_host : ℕ
dns_host = 0x01

abbrev pub dns_cname : ℕ
dns_cname = 0x05

unfoldable pub zeros : ℕ → Bytes
zeros n = replicate n 0

module _ (inet_ntop : Bytes → Bytes) (calloc : ℕ → Bool) (fuel : ℕ) where
  -- The item made of an address record: both copies are allocated, and neither result is tested.
  unfoldable pub host_item : Bytes → Bytes → Run DnsItem
  unfolding c_str
  host_item aname netip = do
    domain ← c_str aname
    _ ← check (calloc (length domain + 1))
    _ ← check (calloc (length (inet_ntop netip) + 1))
    ok (record { domain = domain; ip = inet_ntop netip })

  -- What one answer adds to the list, and where the next begins.
  unfoldable pub parse_answer : Bytes → ℕ → Run (List DnsItem × ℕ)
  unfolding dns_parse_name load_net16 host_item
  parse_answer buffer ptr = do
    (aname, _) ← dns_parse_name fuel buffer ptr (zeros 128) 0
    let ptr = ptr + 2
    type ← load_net16 buffer ptr
    let ptr = ptr + 4
    ttl ← load_net16 buffer ptr
    let ptr = ptr + 4
    datalen ← load_net16 buffer ptr
    let ptr = ptr + 2
    elim (type == dns_cname) [
      | true ↦ do _ ← dns_parse_name fuel buffer ptr (zeros 128) 0; ok ([], ptr + datalen)
      | false ↦ elim (type == dns_host) [
        | true ↦ elim (datalen == 4) [
          | true ↦ do
            netip ← slice buffer ptr datalen
            item ← host_item aname netip
            ok (item ∷ [], ptr + datalen)
          | false ↦ ok ([], ptr + datalen)
        ]
        | false ↦ ok ([], ptr)
      ]
    ]

  -- The loop over the answers; the list grows by `list[cnt ++]`.
  unfoldable pub parse_answers : ℕ → Bytes → ℕ → List DnsItem → Run (List DnsItem)
  unfolding parse_answer
  parse_answers zero buffer ptr list = ok list
  parse_answers (suc answers) buffer ptr list = do
    (items, ptr) ← parse_answer buffer ptr
    parse_answers answers buffer ptr (list ++ items)

  -- The result is the count that is returned and the list; -1 leaves `*domains` alone.
  unfoldable pub dns_parse_response : Bytes → Run (ℤ × List DnsItem)
  unfolding skip_questions load_net16 parse_answers
  dns_parse_response buffer = do
    querys ← load_net16 buffer 4
    answers ← load_net16 buffer 6
    ptr ← skip_questions fuel querys buffer 12
    elim (calloc (answers * 16)) [
      | false ↦ ok (negsuc 0, [])
      | true ↦ do list ← parse_answers answers buffer ptr []; ok (pos (length list), list)
    ]
