-- ===== src/Dns/Question.antt =====
-- The question that `dns_create_question` makes, and the request that `dns_build_request` lays out,
-- of 2.3.1-coroutine/async_dns_client_noblock.c.
use test_linux.Base.{
  ℕ, suc, ◌+◌, ◌%◌, ◌≤◌, ◌≡◌, refl, ap, sym, ◌∙◌, Option, some, List, [], ◌∷◌, ◌++◌, append_assoc,
  arith, Run, pos, ok, or_fault, length, drop, All, length-append, length-drop, drop-drop, ◌>>=◌,
  Bytes, htons, write_at, write_at-split,
}
use test_linux.Dns.Request.{DnsQuestion, strtok_all, put_labels, dns_create_question}
use test_linux.Dns.Tokens.{
  join_dots, encode, wire_size, IsLabel, length-join_dots, wire_size-tokens_from,
  strtok_all-join_dots,
}

-- The block after the loop over the tokens: each pass leaves a terminator for the next to replace.
laid : List Bytes → Bytes → Bytes
laid [] rest = rest
laid (t ∷ ts) rest = (length t % 256) ∷ (t ++ laid ts (0 ∷ drop (length t + 2) rest))

-- The bytes that the loop writes at and after its pointer.
abbrev needs : List Bytes → ℕ
needs [] = 0
needs (t ∷ ts) = wire_size (t ∷ ts) + 1

needs-le : (ts : List Bytes) → needs ts ≤ wire_size ts + 1
needs-le [] = omega arith
needs-le (t ∷ ts) = omega arith

-- After the terminator of a token there is one byte of the block less.
length-laid_rest :
    (t : Bytes) (ts : List Bytes) (rest : Bytes)
    → needs (t ∷ ts) ≤ length rest
    → needs ts ≤ length {A = ℕ} (0 ∷ drop (length t + 2) rest)
length-laid_rest t ts rest h = omega (arith, length-drop (length t + 2) rest, needs-le ts)

-- One pass of the loop, with what comes after it.
put_label :
    (t pre rest : Bytes) (next : Bytes → Run Bytes)
    → length t + 2 ≤ length rest
    → (do
      block ← write_at (pre ++ rest) (length pre) ((length t % 256) ∷ [])
      block ← write_at block (length pre + 1) (t ++ 0 ∷ [])
      next block)
      ≡ next ((pre ++ (length t % 256) ∷ t) ++ 0 ∷ drop (length t + 2) rest)
put_label t pre rest next h = rw (write_at-split _ pre rest (x ∷ []) _ refl refl (omega arith)) (
    ap (λ (r : Run Bytes). r >>= next)
      (write_at-split _ (pre ++ x ∷ []) (drop 1 rest) (t ++ 0 ∷ []) _ refl
          (omega (arith, length-append pre (x ∷ [])))
          (omega (arith, length-drop 1 rest, length-append t (0 ∷ [])))
        ∙ ap ok shape))
  where
    x : ℕ
    x = length t % 256

    tail : drop (length (t ++ 0 ∷ [])) (drop 1 rest) ≡ drop (length t + 2) rest
    tail =
        drop-drop (length (t ++ 0 ∷ [])) 1 rest
        ∙ ap (λ (k : ℕ). drop k rest) (omega (arith, length-append t (0 ∷ [])))

    shape :
        ((pre ++ x ∷ []) ++ (t ++ 0 ∷ [])) ++ drop (length (t ++ 0 ∷ [])) (drop 1 rest)
        ≡ (pre ++ x ∷ t) ++ 0 ∷ drop (length t + 2) rest
    shape = rw tail (simp append_assoc)

put_labels-laid :
    (ts : List Bytes) (pre rest : Bytes)
    → needs ts ≤ length rest
    → put_labels ts (pre ++ rest) (length pre) ≡ ok (pre ++ laid ts rest)
unfolding put_labels laid
put_labels-laid [] pre rest h = refl
put_labels-laid (t ∷ ts) pre rest h =
    put_label t pre rest (λ block. put_labels ts block (length pre + 1 + length t)) (omega arith)
    ∙ ap (λ (p : ℕ). put_labels ts (pre' ++ rest') p) at
    ∙ put_labels-laid ts pre' rest' (length-laid_rest t ts rest h)
    ∙ ap ok (append_assoc pre (x ∷ t) (laid ts rest'))
  where
    x : ℕ
    x = length t % 256

    pre' : Bytes
    pre' = pre ++ x ∷ t

    rest' : Bytes
    rest' = 0 ∷ drop (length t + 2) rest

    at : length pre + 1 + length t ≡ length pre'
    at = omega (arith, length-append pre (x ∷ t))

-- Where the block has exactly the room for the labels, it ends in the terminator.
laid-encode :
    (ts : List Bytes) (rest : Bytes)
    → All IsLabel ts
    → length rest ≡ wire_size ts
    → laid ts (0 ∷ rest) ≡ encode ts ++ 0 ∷ []
unfolding laid
laid-encode [] [] is h = refl
laid-encode [] (c ∷ rest) is h = absurd (omega arith)
laid-encode (t ∷ ts) rest is h =
    let small : length t % 256 ≡ length t = omega arith in
    let one : length t + 2 ≡ suc (length t + 1) = omega arith in
    rw (small, one)
      (ap (λ (b : Bytes). length t ∷ (t ++ b))
          (laid-encode ts (drop (length t + 1) rest) is.1
            (omega (arith, length-drop (length t + 1) rest)))
        ∙ ap (λ (b : Bytes). length t ∷ b) (sym (append_assoc t (encode ts) (0 ∷ []))))

length-laid :
    (ts : List Bytes) (rest : Bytes) → needs ts ≤ length rest → length (laid ts rest) ≡ length rest
unfolding laid
length-laid [] rest h = refl
length-laid (t ∷ ts) rest h = omega (
  arith,
  length-append t (laid ts (0 ∷ drop (length t + 2) rest)),
  length-laid ts (0 ∷ drop (length t + 2) rest) (length-laid_rest t ts rest h),
  length-drop (length t + 2) rest,
)

-- The question that is made in a given block.
abbrev pub question_in : Bytes → Bytes → DnsQuestion
question_in hostname qname = record {
  length = length hostname + 2;
  qtype = htons 1;
  qclass = htons 1;
  qname = some qname;
}

module _ (malloc : ℕ → Option Bytes) (q : DnsQuestion) (hostname : Bytes) {block dup : Bytes}
    (got : malloc (length hostname + 2) ≡ some block) (size : length block ≡ length hostname + 2)
    (got_dup : malloc (length hostname + 1) ≡ some dup) where
  room : needs (strtok_all hostname) ≤ length block
  room = omega (arith, needs-le (strtok_all hostname), wire_size-tokens_from [] hostname)

  create-laid :
      dns_create_question malloc (some q) hostname
      ≡ ok (pos 0, some (question_in hostname (laid (strtok_all hostname) block)))
  unfolding dns_create_question
  create-laid =
      rw (got, dns_create_question)
        (rw (got_dup, or_fault)
          (ap (λ (r : Run Bytes). r >>= λ b. ok (pos 0, some (question_in hostname b)))
            (put_labels-laid (strtok_all hostname) [] block room)))

  -- For every host name, when both allocations succeed, `dns_create_question` succeeds inside the
  -- block that it allocates: no write is out of bounds, and the length that it records is that of
  -- the block.
  pub dns_create_question-in_bounds :
      (qname : Bytes) × (dns_create_question malloc (some q) hostname
        ≡ ok (pos 0, some (question_in hostname qname)))
      × (length qname ≡ length hostname + 2)
  dns_create_question-in_bounds = (
    laid (strtok_all hostname) block,
    create-laid,
    length-laid (strtok_all hostname) block room ∙ size,
  )

-- For the dotted text of labels of 1 to 191 bytes without a dot, when both allocations succeed, the
-- question's name is the labels, each behind its length, and the terminator.
pub dns_create_question-encode :
    (malloc : ℕ → Option Bytes) (q : DnsQuestion) (l : Bytes) (ls : List Bytes) {block dup : Bytes}
    → malloc (length (join_dots (l ∷ ls)) + 2) ≡ some block
    → length block ≡ length (join_dots (l ∷ ls)) + 2
    → malloc (length (join_dots (l ∷ ls)) + 1) ≡ some dup
    → All IsLabel (l ∷ ls)
    → dns_create_question malloc (some q) (join_dots (l ∷ ls))
      ≡ ok (pos 0, some (question_in (join_dots (l ∷ ls)) (encode (l ∷ ls) ++ 0 ∷ [])))
unfolding laid
dns_create_question-encode malloc q l ls {block} got size got_dup is =
    create-laid malloc q hostname got size got_dup
    ∙ ap (λ (ts : List Bytes). ok (pos 0, some (question_in hostname (laid ts block))))
        (strtok_all-join_dots (l ∷ ls) is)
    ∙ ap (λ (b : Bytes). ok (pos 0, some (question_in hostname b))) filled
  where
    hostname : Bytes
    hostname = join_dots (l ∷ ls)

    small : length l % 256 ≡ length l
    small = omega arith

    filled : laid (l ∷ ls) block ≡ encode (l ∷ ls) ++ 0 ∷ []
    filled = rw small (
        ap (λ (b : Bytes). length l ∷ (l ++ b))
          (laid-encode ls (drop (length l + 2) block) is.1
            (omega (arith, length-drop (length l + 2) block, length-join_dots l ls)))
        ∙ ap (λ (b : Bytes). length l ∷ b) (sym (append_assoc l (encode ls) (0 ∷ []))))
