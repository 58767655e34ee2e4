-- ===== src/Query/Examples.antt =====
-- The DNS client of test5/dnstest.cpp on the name "a.bc" and on a response with one address.
use test_linux.Base.{
  ℕ, Option, ◌≡◌, refl, List, [], ◌∷◌, ◌++◌, replicate, take, htons, pos, ok, Bytes, arith, some,
  bytes_of,
}
use test_linux.Dns.Request
use test_linux.Query.Message.{DnsQueries, create_header, create_queries, type_a, dns_build_request}
use test_linux.Query.Names.{dns_build_request-same}
use test_linux.Query.Answers.{Ipv4, print_dns_a_records}
use test_linux.Query.Bounds.{print_dns_a_records-in_bounds}
use test_linux.Query.Printed.{Answer, be16, answer_bytes}
use test_linux.Query.Response.{Question, question_bytes, print_dns_a_records-addresses}

abbrev blank : DnsQueries
blank = record { qname = []; qtype = 7; qclass = 7 }

-- An allocator whose blocks are full of sevens.
abbrev sevens : ℕ → Option Bytes
sevens n = some (replicate n 7)

dns_build_request-same_example :
    (q : DnsQueries) × (h : Request.DnsHeader) × (asked : Request.DnsQuestion) × (block : Bytes)
    × (create_queries blank (bytes_of "a.bc") type_a 1 ≡ ok (pos 0, q))
    × (Request.dns_create_header (some Request.blank_header) 258 ≡ (pos 0, some h))
    × (Request.dns_create_question sevens (some Request.blank_question) (bytes_of "a.bc")
        ≡ ok (pos 0, some asked))
    × (Request.dns_build_request h asked (replicate 1024 0) ≡ ok (block, 22))
    × (take 22 block ≡ dns_build_request (create_header (htons 258) 0x0100 1) q)
dns_build_request-same_example =
    dns_build_request-same sevens Request.blank_question (bytes_of "a") (bytes_of "bc" ∷ []) 258
      blank (replicate 1024 0) refl refl refl
      ((omega arith, omega arith, (refl, tt)), ((omega arith, omega arith, (refl, (refl, tt))), tt))
      (omega arith) refl (omega arith)

abbrev question : Question
question = record { labels = bytes_of "a" ∷ []; type = 1; class_number = 1 }

-- An alias, and an address.
abbrev alias : Answer
alias = record {
  name = 49164;
  type = 5;
  class_number = 1;
  ttl_high = 0;
  ttl_low = 60;
  rdata = 1 ∷ b'b' ∷ 0 ∷ [];
}

abbrev address : Answer
address = record {
  name = 49164;
  type = 1;
  class_number = 1;
  ttl_high = 0;
  ttl_low = 60;
  rdata = 10 ∷ 0 ∷ 0 ∷ 7 ∷ [];
}

abbrev came : Bytes
came =
    be16 9
    ++ (be16 33152
        ++ (be16 1
            ++ (be16 2
                ++ (be16 0
                    ++ (be16 0
                        ++ (question_bytes (question ∷ [])
                            ++ (answer_bytes (alias ∷ address ∷ []) ++ replicate 100 0)))))))

print_dns_a_records-addresses_example : print_dns_a_records 60 came 50 ≡ ok ((10, 0, 0, 7) ∷ [])
print_dns_a_records-addresses_example =
    print_dns_a_records-addresses 60 came 50 9 33152 0 0 (question ∷ []) (alias ∷ address ∷ [])
      (replicate 100 0) refl (omega arith) (omega arith) (omega arith) (omega arith)
      ((omega arith, tt), tt)
      (
        (omega arith, omega arith, omega arith, omega arith, omega arith),
        ((omega arith, omega arith, omega arith, omega arith, omega arith), tt),
      )

print_dns_a_records-in_bounds_example :
    (addresses : List Ipv4) × (print_dns_a_records 21 (replicate 24 255) 20 ≡ ok addresses)
print_dns_a_records-in_bounds_example =
    print_dns_a_records-in_bounds 21 (replicate 24 255) 20 (omega arith) (omega arith) (omega arith)
