-- ===== src/Dns/Examples.antt =====
-- The code of 2.3.1-coroutine/async_dns_client_noblock.c on concrete inputs, and the theorems at
-- them.
use test_linux.Base.{
  ℕ, ◌≡◌, refl, Option, some, List, [], ◌∷◌, ◌++◌, arith, pos, ok, length, drop, replicate, Bytes,
  write_at,
}
use test_linux.Dns.Request.{
  DnsQuestion, blank_header, blank_question, dns_create_header, dns_create_question,
  dns_build_request, put_labels, tokens_from,
}
use test_linux.Dns.Question.{question_in, dns_create_question-in_bounds}
use test_linux.Dns.RoundTrip.{dns_build_request-dns_parse_name}
use test_linux.Dns.Name.{dns_parse_name}
use test_linux.Dns.Response.{zeros}

-- The host name "a.bc" and its labels.
abbrev a_bc : Bytes
a_bc = b'a' ∷ b'.' ∷ b'b' ∷ b'c' ∷ []

abbrev first : Bytes
first = b'a' ∷ []

abbrev others : List Bytes
others = (b'b' ∷ b'c' ∷ []) ∷ []

-- An allocator whose blocks are full of sevens.
abbrev sevens : ℕ → Option Bytes
sevens n = some (replicate n 7)

header_example :
    (dns_create_header (some blank_header) 0x12345).1
    ≡ some (record blank_header { id = 0x2345; flags = 1; qdcount = 256 })
unfolding dns_create_header
header_example = refl

-- A name with an empty label leaves bytes of the allocator behind the terminator.
empty_label_example :
    dns_create_question sevens (some blank_question) (b'a' ∷ b'.' ∷ b'.' ∷ b'b' ∷ [])
    ≡ ok (
      pos 0,
      some (question_in (b'a' ∷ b'.' ∷ b'.' ∷ b'b' ∷ []) (1 ∷ b'a' ∷ 1 ∷ b'b' ∷ 0 ∷ 7 ∷ [])),
    )
unfolding dns_create_question put_labels tokens_from write_at
empty_label_example = refl

dns_create_question-in_bounds_example :
    (qname : Bytes) × (dns_create_question sevens (some blank_question) a_bc
      ≡ ok (pos 0, some (question_in a_bc qname)))
    × (length qname ≡ 6)
dns_create_question-in_bounds_example =
    dns_create_question-in_bounds sevens blank_question a_bc refl refl refl

dns_build_request-dns_parse_name_example :
    (question : DnsQuestion) × (request : Bytes) × (dns_create_question sevens
        (some blank_question)
        a_bc
      ≡ ok (pos 0, some question))
    × (dns_build_request blank_header question (replicate 1024 0) ≡ ok (request, 22))
    × (dns_parse_name 3 request 12 (zeros 128) 0 ≡ ok (a_bc ++ drop 4 (zeros 128), 4))
dns_build_request-dns_parse_name_example =
    dns_build_request-dns_parse_name sevens blank_question blank_header first others
      (replicate 1024 0) 3 refl refl refl
      ((omega arith, omega arith, (refl, tt)), ((omega arith, omega arith, (refl, (refl, tt))), tt))
      (omega arith) refl (omega arith)
