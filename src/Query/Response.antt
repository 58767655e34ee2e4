-- ===== src/Query/Response.antt =====
-- What `print_dns_a_records` of test5/dnstest.cpp prints of a well-formed response.
use test_linux.Base.{
  ℕ, zero, suc, ◌+◌, ◌^◌, ◌≤◌, ◌<◌, ◌≡◌, refl, ap, sym, ◌∙◌, List, [], ◌∷◌, ◌++◌, append_assoc, All,
  lt→ltb, length, length-append, ok, Bytes, arith,
}
use test_linux.Dns.Tokens.{encode}
use test_linux.Query.Answers.{skip_labels, skip_questions, print_dns_a_records}
use test_linux.Query.Printed.{
  peek-at, net16-at, be16, Answer, IsAnswer, answer_bytes, addresses, print_answers-addresses,
}

-- A question: its labels, its type and its class.
pub record Question : Type 0 where
  pub labels : List Bytes
  pub type : ℕ
  pub class_number : ℕ

-- Each label fits a length byte and is not empty.
abbrev pub IsQuestion : Question → Type 0
IsQuestion q = All (λ l. 0 < length l) q.labels

abbrev pub question_bytes : List Question → Bytes
question_bytes [] = []
question_bytes (q ∷ rest) =
    (encode q.labels ++ 0 ∷ (be16 q.type ++ be16 q.class_number)) ++ question_bytes rest

skip_labels-encode :
    (n : ℕ) (block pre rest : Bytes) (ls : List Bytes) (len p : ℕ)
    → length ls < n
    → block ≡ pre ++ (encode ls ++ 0 ∷ rest)
    → p ≡ length pre
    → p + length (encode ls) < len
    → All (λ l. 0 < length l) ls
    → skip_labels n block len p ≡ ok (p + length (encode ls))
unfolding skip_labels
skip_labels-encode zero block pre rest ls len p enough e at inside is = absurd (omega arith)
skip_labels-encode (suc n) block pre rest [] len p enough e at inside is =
    rw (lt→ltb p len (omega arith), skip_labels)
      (rw (peek-at block pre rest 0 p e at) (ap ok (omega arith)))
skip_labels-encode (suc n) block pre rest ([] ∷ ls) len p enough e at inside is = elim (is.0) [ ]
skip_labels-encode (suc n) block pre rest ((c ∷ l) ∷ ls) len p enough e at inside is =
    let size = length-append (c ∷ l) (encode ls) in
    rw (lt→ltb p len (omega arith), skip_labels)
      (rw (peek-at block pre (((c ∷ l) ++ encode ls) ++ 0 ∷ rest) (length (c ∷ l)) p e at) (
        skip_labels-encode n block (pre ++ (length (c ∷ l) ∷ (c ∷ l))) rest ls len
          (p + suc (length l) + 1) (omega arith)
          (e
            ∙ ap (λ (b : Bytes). pre ++ (length (c ∷ l)) ∷ b)
                (append_assoc (c ∷ l) (encode ls) (0 ∷ rest))
            ∙ sym (append_assoc pre (length (c ∷ l) ∷ (c ∷ l)) (encode ls ++ 0 ∷ rest)))
          (omega (arith, length-append pre (length (c ∷ l) ∷ (c ∷ l)))) (omega (arith, size)) is.1
        ∙ ap ok (omega (arith, size))))

-- The questions are passed over.
skip_questions-bytes :
    (n : ℕ) (block pre rest : Bytes) (questions : List Question) (len p : ℕ)
    → len < n
    → block ≡ pre ++ (question_bytes questions ++ rest)
    → p ≡ length pre
    → p + length (question_bytes questions) ≤ len
    → All IsQuestion questions
    → skip_questions n (length questions) block len p ≡ ok (p + length (question_bytes questions))
unfolding skip_questions
skip_questions-bytes n block pre rest [] len p enough e at inside is = ap ok (omega arith)
skip_questions-bytes n block pre rest (q ∷ questions) len p enough e at inside is =
    rw
      (skip_labels-encode n block pre (fields ++ (question_bytes questions ++ rest)) q.labels len p
        (omega (arith, few q.labels is.0, size)) to_labels at (omega (arith, size)) is.0)
      (skip_questions-bytes n block (pre ++ (encode q.labels ++ 0 ∷ fields)) rest questions len
          (p + length (encode q.labels) + 1 + 4) enough to_next
          (omega (
            arith,
            length-append pre (encode q.labels ++ 0 ∷ fields),
            length-append (encode q.labels) (0 ∷ fields),
          ))
          (omega (arith, size)) is.1
        ∙ ap ok (omega (arith, size)))
  where
    fields : Bytes
    fields = be16 q.type ++ be16 q.class_number

    size :
        length (question_bytes (q ∷ questions))
        ≡ length (encode q.labels) + 5 + length (question_bytes questions)
    size = omega (
      arith,
      length-append (encode q.labels ++ 0 ∷ fields) (question_bytes questions),
      length-append (encode q.labels) (0 ∷ fields),
    )

    to_labels :
        block ≡ pre ++ (encode q.labels ++ 0 ∷ (fields ++ (question_bytes questions ++ rest)))
    to_labels =
        e
        ∙ ap (λ (b : Bytes). pre ++ b)
            (append_assoc (encode q.labels ++ 0 ∷ fields) (question_bytes questions) rest
              ∙ append_assoc (encode q.labels) (0 ∷ fields) (question_bytes questions ++ rest))

    to_next : block ≡ (pre ++ (encode q.labels ++ 0 ∷ fields)) ++ (question_bytes questions ++ rest)
    to_next =
        e
        ∙ ap (λ (b : Bytes). pre ++ b)
            (append_assoc (encode q.labels ++ 0 ∷ fields) (question_bytes questions) rest)
        ∙ sym (append_assoc pre (encode q.labels ++ 0 ∷ fields) (question_bytes questions ++ rest))

    few : (ls : List Bytes) → All (λ l. 0 < length l) ls → length ls ≤ length (encode ls)
    few [] h = omega arith
    few (l ∷ ls) h = omega (arith, few ls h.1, length-append l (encode ls))

-- For a response that holds, one behind the other, the header, as many questions as it says, of
-- labels that are not empty, and as many records, each with a name of two bytes and fields that fit
-- 16 bits, all within what came, on more fuel than bytes came: the addresses printed are those of
-- the records of type and class 1 with data of four bytes, in order.
pub print_dns_a_records-addresses :
    (fuel : ℕ) (response : Bytes) (len id flags ns_count ar_count : ℕ) (questions : List Question)
    (answers : List Answer) (rest : Bytes)
    → response
      ≡ be16 id
        ++ (be16 flags
            ++ (be16 (length questions)
                ++ (be16 (length answers)
                    ++ (be16 ns_count
                        ++ (be16 ar_count
                            ++ (question_bytes questions ++ (answer_bytes answers ++ rest)))))))
    → length questions < 2 ^ 16
    → length answers < 2 ^ 16
    → 12 + length (question_bytes questions) + length (answer_bytes answers) ≤ len
    → len < fuel
    → All IsQuestion questions
    → All IsAnswer answers
    → print_dns_a_records fuel response len ≡ ok (addresses answers)
unfolding print_dns_a_records
print_dns_a_records-addresses fuel response len id flags ns_count ar_count questions answers rest e
      few_questions few_answers inside enough is_questions is_answers =
    rw
      (net16-at response (be16 id ++ be16 flags) (be16 (length answers) ++ counts)
        (length questions) 4 e refl few_questions)
      (rw
        (net16-at response (be16 id ++ (be16 flags ++ be16 (length questions))) counts
          (length answers) 6 e refl few_answers)
        (rw
          (skip_questions-bytes fuel response header (answer_bytes answers ++ rest) questions len 12
            enough e refl (omega arith) is_questions)
          (print_answers-addresses response (header ++ question_bytes questions) rest answers len
            (12 + length (question_bytes questions))
            (e
              ∙ sym (append_assoc header (question_bytes questions) (answer_bytes answers ++ rest)))
            (omega (arith, length-append header (question_bytes questions))) (omega arith)
            is_answers)))
  where
    header : Bytes
    header =
        be16 id
        ++ (be16 flags
            ++ (be16 (length questions)
                ++ (be16 (length answers) ++ (be16 ns_count ++ be16 ar_count))))

    counts : Bytes
    counts =
        be16 ns_count
        ++ (be16 ar_count ++ (question_bytes questions ++ (answer_bytes answers ++ rest)))
