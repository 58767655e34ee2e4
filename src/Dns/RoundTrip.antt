-- ===== src/Dns/RoundTrip.antt =====
-- A question that the client of 2.3.1-coroutine/async_dns_client_noblock.c sends is one that its own
-- parser reads.
use test_linux.Base.{
  ℕ, suc, Option, some, pos, ◌+◌, ◌≤◌, ◌<◌, ◌≡◌, refl, ap, ap₂, sym, ◌∙◌, List, [], ◌∷◌, ◌++◌,
  append_assoc, arith, ok, le→leb, length, drop, All, length-append, take-append, drop-append,
  get_elem?-append, Bytes, peek, slice,
}
use test_linux.Dns.Request.{
  DnsHeader, DnsQuestion, dns_create_question, header_bytes, dns_build_request,
}
use test_linux.Dns.Tokens.{join_dots, encode, IsLabel, length-join_dots, length-encode}
use test_linux.Dns.Name.{dns_parse_name}
use test_linux.Dns.Response.{zeros}
use test_linux.Dns.Question.{question_in, dns_create_question-encode}
use test_linux.Dns.Layout.{dns_build_request-layout}
use test_linux.Dns.Decode.{NameAt, end, label, passes, IsNear, dns_parse_name-NameAt}
use test_linux.Dns.Answers.{length-zeros}

peek-append : (pre : Bytes) (x : ℕ) (ys : Bytes) → peek (pre ++ x ∷ ys) (length pre) ≡ ok x
unfolding peek
peek-append pre x ys = rw (get_elem?-append pre x ys)

slice-append : (pre l ys : Bytes) → slice (pre ++ (l ++ ys)) (length pre) (length l) ≡ ok l
unfolding slice
slice-append pre l ys = rw (
  le→leb (length pre + length l) (length (pre ++ (l ++ ys)))
      (omega (arith, length-append pre (l ++ ys), length-append l ys)),
  drop-append pre (l ++ ys),
  take-append l ys,
)

-- A name read from a block at an offset that is equal to the length of a prefix.
record Found (chunk : Bytes) (p : ℕ) (ls : List Bytes) : Type 0 where
  at : NameAt chunk p ls
  near : IsNear at
  count : passes at ≡ length ls

label-Found :
    {chunk : Bytes} {ls : List Bytes} (pre l tail : Bytes) (p : ℕ)
    → chunk ≡ pre ++ (length l ∷ (l ++ tail))
    → p ≡ length pre
    → IsLabel l
    → Found chunk (p + 1 + length l) ls
    → Found chunk p (l ∷ ls)
label-Found {chunk} pre l tail p e at is later = record {
  at = label head is.0 is.1 body later.at;
  near = later.near;
  count = ap suc later.count;
}
  where
    head : peek chunk p ≡ ok (length l)
    head = rw (e, at) (peek-append pre (length l) (l ++ tail))

    body : slice chunk (p + 1) (length l) ≡ ok l
    body =
        ap₂ (λ (b : Bytes) (q : ℕ). slice b q (length l))
          (e ∙ sym (append_assoc pre (length l ∷ []) (l ++ tail)))
          (omega (arith, length-append pre (length l ∷ [])))
        ∙ slice-append (pre ++ length l ∷ []) l tail

encode-Found :
    (chunk pre rest : Bytes) (p : ℕ) (ls : List Bytes)
    → chunk ≡ pre ++ (encode ls ++ 0 ∷ rest)
    → p ≡ length pre
    → All IsLabel ls
    → Found chunk p ls
encode-Found chunk pre rest p [] e at is = record {
  at = end (rw (e, at) (peek-append pre 0 rest));
  near = tt;
  count = refl;
}
encode-Found chunk pre rest p (l ∷ ls) e at is =
    label-Found pre l (encode ls ++ 0 ∷ rest) p split at is.0 (
      encode-Found chunk (pre ++ length l ∷ l) rest (p + 1 + length l) ls
        (split ∙ sym (append_assoc pre (length l ∷ l) (encode ls ++ 0 ∷ rest)))
        (omega (arith, length-append pre (length l ∷ l))) is.1)
  where
    split : chunk ≡ pre ++ (length l ∷ (l ++ (encode ls ++ 0 ∷ rest)))
    split = e ∙ ap (λ (t : Bytes). pre ++ (length l ∷ t)) (append_assoc l (encode ls) (0 ∷ rest))

-- For labels of 1 to 191 bytes without a dot, of which the dotted text has at most 128 bytes, and when
-- both allocations succeed: `dns_create_question` makes a question of that text, the request is
-- built from that question into a buffer of 1024 bytes, and the name in it is read back, by the
-- client's own `dns_parse_name` with a pass for each label and one more, as that text.
pub dns_build_request-dns_parse_name :
    (malloc : ℕ → Option Bytes) (q : DnsQuestion) (header : DnsHeader) (l : Bytes) (ls : List Bytes)
    (buffer : Bytes) (fuel : ℕ) {space dup : Bytes}
    → malloc (length (join_dots (l ∷ ls)) + 2) ≡ some space
    → length space ≡ length (join_dots (l ∷ ls)) + 2
    → malloc (length (join_dots (l ∷ ls)) + 1) ≡ some dup
    → All IsLabel (l ∷ ls)
    → length (join_dots (l ∷ ls)) ≤ 128
    → length buffer ≡ 1024
    → length (l ∷ ls) < fuel
    → (question : DnsQuestion) × (request : Bytes) × (dns_create_question malloc
          (some q)
          (join_dots (l ∷ ls))
        ≡ ok (pos 0, some question))
      × (dns_build_request header question buffer ≡ ok (request, length (join_dots (l ∷ ls)) + 18))
      × (dns_parse_name fuel request 12 (zeros 128) 0
          ≡ ok (
            join_dots (l ∷ ls) ++ drop (length (join_dots (l ∷ ls))) (zeros 128),
            length (join_dots (l ∷ ls)),
          ))
dns_build_request-dns_parse_name malloc q header l ls buffer fuel got size got_dup is short full
      enough =
    (
      question_in (join_dots (l ∷ ls)) name,
      header_bytes header ++ (name ++ rest),
      dns_create_question-encode malloc q l ls got size got_dup is,
      dns_build_request-layout header (join_dots (l ∷ ls)) name buffer sized full (omega arith),
      dns_parse_name-NameAt fuel (zeros 128) found.at found.near (omega (arith, found.count))
          (omega (arith, length-zeros 128)),
    )
  where
    name : Bytes
    name = encode (l ∷ ls) ++ 0 ∷ []

    rest : Bytes
    rest = 0 ∷ 1 ∷ 0 ∷ 1 ∷ drop (length (join_dots (l ∷ ls)) + 18) buffer

    sized : length name ≡ length (join_dots (l ∷ ls)) + 2
    sized = omega (
      arith,
      length-append (encode (l ∷ ls)) (0 ∷ []),
      length-encode (l ∷ ls),
      length-join_dots l ls,
    )

    found : Found (header_bytes header ++ (name ++ rest)) 12 (l ∷ ls)
    found =
        encode-Found _ (header_bytes header) rest 12 (l ∷ ls)
          (ap (λ (b : Bytes). header_bytes header ++ b)
            (append_assoc (encode (l ∷ ls)) (0 ∷ []) rest))
          (unfold header_bytes in refl) is
