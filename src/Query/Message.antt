-- ===== src/Query/Message.antt =====
-- `dns_header`, `dns_queries` and `dns_build_request` of test5/dnstest.cpp. A host name is the list of
-- its bytes; what `get_random_id` returns is given.
use test_linux.Base.{
  ℕ, zero, suc, ◌+◌, ◌-◌, ◌%◌, ◌^◌, Bool, true, false, ◌||◌, Option, none, some, [], ◌∷◌, ◌++◌,
  ◌==◌, ltb, leb, length, take, drop, ℤ, pos, negsuc, Run, ok, out_of_fuel, ◌>>=◌, Bytes, le16,
  htons, if◌then◌else◌,
}

pub record DnsHeader : Type 0 where
  pub id : ℕ
  pub flags : ℕ
  pub questions : ℕ
  pub answer_rrs : ℕ
  pub authority_rrs : ℕ
  pub additional_rrs : ℕ

unfoldable pub create_header : (random_id flag ques_num : ℕ) → DnsHeader
create_header random_id flag ques_num = record {
  id = random_id;
  flags = flag;
  questions = ques_num;
  answer_rrs = 0;
  authority_rrs = 0;
  additional_rrs = 0;
}

pub record DnsQueries : Type 0 where
  pub qname : Bytes
  pub qtype : ℕ
  pub qclass : ℕ

-- `enum TYPE`.
abbrev pub type_a : ℕ
type_a = 1

abbrev dot : ℕ
dot = b'.'

-- `find_first_of('.', index)`, with the size for `npos`.
abbrev pub find_dot : Bytes → Option ℕ
find_dot [] = none
find_dot (c ∷ s) = elim (c == dot) [
  | true ↦ some 0
  | false ↦ elim (find_dot s) [ none ↦ none | some k ↦ some (suc k) ]
]

abbrev pub dot_from : Bytes → (index : ℕ) → ℕ
dot_from hostname index = elim (find_dot (drop index hostname)) [
  | none ↦ length hostname
  | some k ↦ index + k
]

-- A length is bad, as an `int`, when it is 63 or more or less than 1; a negative one is 2 ^ 31 or more
-- here.
abbrev pub bad_length : ℕ → Bool
bad_length n = leb 63 n || ltb n 1

-- The loop, from an index on; the answer of the function and `result`.
unfoldable pub encode_loop : (fuel : ℕ) → Bytes → (index : ℕ) → Bytes → Run (ℤ × Bytes)
encode_loop zero hostname index result = out_of_fuel
encode_loop (suc n) hostname index result =
    if ltb index (length hostname)
    then (let dot_index = dot_from hostname index in
        let domain_len = (dot_index - index) % 2 ^ 32 in
        if bad_length domain_len
        then ok (negsuc 0, result)
        else encode_loop n hostname (dot_index + 1)
            (result ++ (domain_len % 256) ∷ take (dot_index - index) (drop index hostname)))
    else ok (pos 0, result ++ 0 ∷ [])

-- With a pass for each byte and one more; `result` as it was where the name is empty.
unfoldable pub encode_hostname : Bytes → (result : Bytes) → Run (ℤ × Bytes)
encode_hostname [] result = ok (negsuc 1, result)
encode_hostname (c ∷ hostname) result =
    encode_loop (suc (length (c ∷ hostname))) (c ∷ hostname) 0 []

-- The members that `create` leaves alone keep what they held.
unfoldable pub create_queries : DnsQueries → Bytes → (type class_number : ℕ) → Run (ℤ × DnsQueries)
create_queries q hostname type class_number = do
  (ret, qname) ← encode_hostname hostname q.qname
  elim ret [
    | pos zero ↦ ok (pos 0, record { qname = qname; qtype = type; qclass = class_number })
    | pos (suc n) ↦ ok (negsuc 0, record q { qname = qname })
    | negsuc n ↦ ok (negsuc 0, record q { qname = qname })
  ]

abbrev pub append_u16 : Bytes → ℕ → Bytes
append_u16 request v = request ++ le16 (htons v)

unfoldable pub dns_build_request : DnsHeader → DnsQueries → Bytes
dns_build_request head qry =
    let request = append_u16 [] head.id in
    let request = append_u16 request head.flags in
    let request = append_u16 request head.questions in
    let request = append_u16 request head.answer_rrs in
    let request = append_u16 request head.authority_rrs in
    let request = append_u16 request head.additional_rrs in
    let request = request ++ qry.qname in append_u16 (append_u16 request qry.qtype) qry.qclass
