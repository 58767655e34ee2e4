-- ===== src/Query/Names.antt =====
-- What `encode_hostname` of test5/dnstest.cpp makes of a host name, and that the request is the one
-- of the asynchronous client.
use test_linux.Base.{
  ℕ, zero, suc, ◌+◌, ◌-◌, ◌%◌, ◌^◌, ◌≤◌, ◌<◌, ◌≡◌, refl, ap, ap₂, sym, ◌∙◌, true, false, none,
  Option, some, List, [], ◌∷◌, ◌++◌, append_assoc, append-nil, All, ltb, lt→ltb, le→ltb, length,
  take, drop, length-append, take-append, drop-append, pos, ok, Bytes, le16, htons, htons-htons,
  arith,
}
use test_linux.Dns.Tokens.{join_dots, encode, length-encode, length-join_dots, IsLabel, DotFree}
use Prim.Native.Nat.{bit_or}
use test_linux.Dns.Request.{dot, dns_create_header, blank_header, header_bytes}
use test_linux.Dns.Request
use test_linux.Dns.Layout.{dns_build_request-layout}
use test_linux.Dns.Question.{question_in, dns_create_question-encode}
use test_linux.Query.Message.{
  find_dot, dot_from, bad_length, encode_loop, encode_hostname, DnsQueries, create_header,
  create_queries, type_a, dns_build_request,
}

-- A label of 1 to 62 bytes without a dot.
abbrev pub IsShortLabel : Bytes → Type 0
IsShortLabel l = (0 < length l) × (length l < 63) × DotFree l

find_dot-none : (l : Bytes) → DotFree l → find_dot l ≡ none
find_dot-none [] free = refl
find_dot-none (c ∷ l) free = rw (free.0, find_dot) (rw (find_dot-none l free.1) refl)

find_dot-some : (l s : Bytes) → DotFree l → find_dot (l ++ dot ∷ s) ≡ some (length l)
find_dot-some [] s free = refl
find_dot-some (c ∷ l) s free = rw (free.0, find_dot) (rw (find_dot-some l s free.1) refl)

-- The end of the label at an index: the next dot, or the end of the name.
dot_from-last :
    (pre l : Bytes) → DotFree l → dot_from (pre ++ l) (length pre) ≡ length pre + length l
dot_from-last pre l free =
    rw (drop-append pre l, dot_from) (rw (find_dot-none l free) (length-append pre l))

dot_from-dot :
    (pre l s : Bytes)
    → DotFree l
    → dot_from (pre ++ (l ++ dot ∷ s)) (length pre) ≡ length pre + length l
dot_from-dot pre l s free =
    rw (drop-append pre (l ++ dot ∷ s), dot_from) (rw (find_dot-some l s free) refl)

-- One label is taken.
encode_loop-label :
    (n : ℕ) (pre l tail result : Bytes)
    → 0 < length l
    → length l < 63
    → dot_from (pre ++ (l ++ tail)) (length pre) ≡ length pre + length l
    → encode_loop (suc n) (pre ++ (l ++ tail)) (length pre) result
      ≡ encode_loop n (pre ++ (l ++ tail)) (length pre + length l + 1) (result ++ (length l ∷ l))
unfolding encode_loop
encode_loop-label n pre l tail result some_byte short at =
    let inside : ltb (length pre) (length (pre ++ (l ++ tail))) ≡ true =
      lt→ltb _ _ (omega (arith, length-append pre (l ++ tail), length-append l tail)) in
    let len : (length pre + length l - length pre) % 2 ^ 32 ≡ length l = omega arith in
    let good : bad_length (length l) ≡ false = ground arith in
    let low : length l % 256 ≡ length l = omega arith in
    let size : length pre + length l - length pre ≡ length l = omega arith in
    rw inside (
      rw at (
        rw len (
          rw good (
            ap₂
              (λ (x : ℕ) (y : Bytes).
                encode_loop n (pre ++ (l ++ tail)) (length pre + length l + 1) (result ++ x ∷ y))
              low
              (ap₂ (λ (k : ℕ) (y : Bytes). take k y) size (drop-append pre (l ++ tail))
                ∙ take-append l tail)))))

-- Behind the end of the name the loop is over.
encode_loop-over :
    (n index : ℕ) (hostname result : Bytes)
    → length hostname ≤ index
    → encode_loop (suc n) hostname index result ≡ ok (pos 0, result ++ 0 ∷ [])
unfolding encode_loop
encode_loop-over n index hostname result h = rw (le→ltb index (length hostname) h) refl

encode_loop-labels :
    (n : ℕ) (pre l : Bytes) (ls : List Bytes) (result : Bytes)
    → length (l ∷ ls) < n
    → All IsShortLabel (l ∷ ls)
    → encode_loop n (pre ++ join_dots (l ∷ ls)) (length pre) result
      ≡ ok (pos 0, result ++ (encode (l ∷ ls) ++ 0 ∷ []))
encode_loop-labels zero pre l ls result enough is = absurd (omega arith)
encode_loop-labels (suc zero) pre l ls result enough is = absurd (omega arith)
encode_loop-labels (suc (suc n)) pre l [] result enough is =
    ap (λ (h : Bytes). encode_loop (suc (suc n)) h (length pre) result) shape
    ∙ encode_loop-label (suc n) pre l [] result is.0.0 is.0.1
        (ap (λ (h : Bytes). dot_from h (length pre)) (sym shape) ∙ dot_from-last pre l is.0.2)
    ∙ encode_loop-over n (length pre + length l + 1) (pre ++ (l ++ [])) (result ++ (length l ∷ l))
        (omega (arith, length-append pre (l ++ []), length-append l []))
    ∙ ap (λ (b : Bytes). ok (pos 0, b))
        (append_assoc result (length l ∷ l) (0 ∷ [])
          ∙ ap (λ (b : Bytes). result ++ length l ∷ (b ++ 0 ∷ [])) (sym (append-nil l)))
  where
    shape : pre ++ l ≡ pre ++ (l ++ [])
    shape = ap (λ (b : Bytes). pre ++ b) (sym (append-nil l))
encode_loop-labels (suc (suc n)) pre l (m ∷ ls) result enough is =
    encode_loop-label (suc n) pre l (dot ∷ join_dots (m ∷ ls)) result is.0.0 is.0.1
      (dot_from-dot pre l (join_dots (m ∷ ls)) is.0.2)
    ∙ ap₂ (λ (h : Bytes) (i : ℕ). encode_loop (suc n) h i (result ++ (length l ∷ l))) shape index
    ∙ encode_loop-labels (suc n) (pre ++ (l ++ dot ∷ [])) m ls (result ++ (length l ∷ l))
        (omega arith) is.1
    ∙ ap (λ (b : Bytes). ok (pos 0, b))
        (append_assoc result (length l ∷ l) (encode (m ∷ ls) ++ 0 ∷ [])
          ∙ ap (λ (b : Bytes). result ++ length l ∷ b)
              (sym (append_assoc l (encode (m ∷ ls)) (0 ∷ []))))
  where
    shape : pre ++ (l ++ dot ∷ join_dots (m ∷ ls)) ≡ (pre ++ (l ++ dot ∷ [])) ++ join_dots (m ∷ ls)
    shape = sym (
        append_assoc pre (l ++ dot ∷ []) (join_dots (m ∷ ls))
        ∙ ap (λ (b : Bytes). pre ++ b) (append_assoc l (dot ∷ []) (join_dots (m ∷ ls))))

    index : length pre + length l + 1 ≡ length (pre ++ (l ++ dot ∷ []))
    index = omega (arith, length-append pre (l ++ dot ∷ []), length-append l (dot ∷ []))

encode_hostname-loop :
    (hostname result : Bytes)
    → 0 < length hostname
    → encode_hostname hostname result ≡ encode_loop (suc (length hostname)) hostname 0 []
unfolding encode_hostname
encode_hostname-loop [] result h = elim h [ ]
encode_hostname-loop (c ∷ hostname) result h = refl

-- A name has a byte for each label at least.
length-labels : (ls : List Bytes) → All IsShortLabel ls → length ls ≤ length (join_dots ls)
length-labels [] is = omega arith
length-labels (l ∷ []) is = omega (arith, is.0.0)
length-labels (l ∷ m ∷ ls) is =
    omega (arith, length-labels (m ∷ ls) is.1, length-append l (dot ∷ join_dots (m ∷ ls)))

-- For the dotted text of labels of 1 to 62 bytes without a dot, `encode_hostname` answers 0 and
-- gives the labels, each behind its length, and the terminator.
pub encode_hostname-encode :
    (l : Bytes) (ls : List Bytes) (result : Bytes)
    → All IsShortLabel (l ∷ ls)
    → encode_hostname (join_dots (l ∷ ls)) result ≡ ok (pos 0, encode (l ∷ ls) ++ 0 ∷ [])
encode_hostname-encode l ls result is =
    let enough = length-labels (l ∷ ls) is in
    encode_hostname-loop (join_dots (l ∷ ls)) result (omega arith)
    ∙ encode_loop-labels (suc (length (join_dots (l ∷ ls)))) [] l ls [] (omega arith) is

labels-IsLabel : (ls : List Bytes) → All IsShortLabel ls → All IsLabel ls
labels-IsLabel [] is = tt
labels-IsLabel (l ∷ ls) is = ((is.0.0, omega (arith, is.0.1), is.0.2), labels-IsLabel ls is.1)

-- For a name of labels of 1 to 62 bytes without a dot, of at most 1006 bytes in all, and when both
-- allocations of the asynchronous client succeed: its `dns_create_header` takes a random number
-- below 2 ^ 16, its `dns_create_question` takes the name, and so does `create` of test5/dnstest.cpp.
-- The request that the asynchronous client builds from its header and question into its buffer of
-- 1024 bytes is byte for byte that of test5/dnstest.cpp with an id whose two bytes are those of
-- the random number swapped.
pub dns_build_request-same :
    (malloc : ℕ → Option Bytes) (question : Request.DnsQuestion) (l : Bytes) (ls : List Bytes)
    (r : ℕ) (blank : DnsQueries) (buffer : Bytes) {space dup : Bytes}
    → malloc (length (join_dots (l ∷ ls)) + 2) ≡ some space
    → length space ≡ length (join_dots (l ∷ ls)) + 2
    → malloc (length (join_dots (l ∷ ls)) + 1) ≡ some dup
    → All IsShortLabel (l ∷ ls)
    → r < 2 ^ 16
    → length buffer ≡ 1024
    → length (join_dots (l ∷ ls)) ≤ 1006
    → (q : DnsQueries) × (h : Request.DnsHeader) × (asked : Request.DnsQuestion) × (block : Bytes)
      × (create_queries blank (join_dots (l ∷ ls)) type_a 1 ≡ ok (pos 0, q))
      × (dns_create_header (some blank_header) r ≡ (pos 0, some h))
      × (Request.dns_create_question malloc (some question) (join_dots (l ∷ ls))
          ≡ ok (pos 0, some asked))
      × (Request.dns_build_request h asked buffer ≡ ok (block, length (join_dots (l ∷ ls)) + 18))
      × (take (length (join_dots (l ∷ ls)) + 18) block
          ≡ dns_build_request (create_header (htons r) 0x0100 1) q)
unfolding create_queries dns_create_header dns_build_request create_header header_bytes htons
dns_build_request-same malloc question l ls r blank buffer got got_size got_dup is small full
      short =
    (
      record { qname = name; qtype = type_a; qclass = 1 },
      header,
      question_in hostname name,
      block,
      rw (encode_hostname-encode l ls blank.qname is) refl,
      refl,
      dns_create_question-encode malloc question l ls got got_size got_dup
          (labels-IsLabel (l ∷ ls) is),
      dns_build_request-layout header hostname name buffer size full short,
      take_size
          ∙ ap₂ (λ (x : ℕ) (b : Bytes). le16 x ++ (1 ∷ 0 ∷ 0 ∷ 1 ∷ 0 ∷ 0 ∷ 0 ∷ 0 ∷ 0 ∷ 0 ∷ b)) id
              (sym (append_assoc name (0 ∷ 1 ∷ []) (0 ∷ 1 ∷ []))),
    )
  where
    hostname : Bytes
    hostname = join_dots (l ∷ ls)

    name : Bytes
    name = encode (l ∷ ls) ++ 0 ∷ []

    header : Request.DnsHeader
    header = record blank_header {
      id = r % 2 ^ 16;
      flags = bit_or 0 (htons 0x0100);
      qdcount = htons 1;
    }

    request : Bytes
    request = header_bytes header ++ (name ++ (0 ∷ 1 ∷ 0 ∷ 1 ∷ []))

    block : Bytes
    block = header_bytes header ++ (name ++ (0 ∷ 1 ∷ 0 ∷ 1 ∷ drop (length hostname + 18) buffer))

    size : length name ≡ length hostname + 2
    size = omega (
      arith,
      length-append (encode (l ∷ ls)) (0 ∷ []),
      length-encode (l ∷ ls),
      length-join_dots l ls,
    )

    whole : length request ≡ length hostname + 18
    whole = omega (arith, length-append name (0 ∷ 1 ∷ 0 ∷ 1 ∷ []), size)

    shape : block ≡ request ++ drop (length hostname + 18) buffer
    shape =
        ap (λ (b : Bytes). header_bytes header ++ b)
          (sym (append_assoc name (0 ∷ 1 ∷ 0 ∷ 1 ∷ []) (drop (length hostname + 18) buffer)))

    take_size : take (length hostname + 18) block ≡ request
    take_size =
        ap₂ (λ (n : ℕ) (b : Bytes). take n b) (sym whole) shape
        ∙ take-append request (drop (length hostname + 18) buffer)

    id : r % 2 ^ 16 ≡ htons (htons r)
    id = omega (arith, htons-htons r small)
