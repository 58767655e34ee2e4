-- ===== src/Query/Printed.antt =====
-- What `print_dns_a_records` of test5/dnstest.cpp prints of records that stand one behind the other.
use test_linux.Base.{
  ℕ, ◌+◌, ◌/◌, ◌%◌, ◌^◌, ◌≤◌, ◌<◌, ◌≡◌, refl, ap, ap₂, sym, ◌∙◌, true, false, ◌&&◌, Bool-cases, inl,
  inr, List, [], ◌∷◌, ◌++◌, append_assoc, All, ◌==◌, ltb, le→ltb, length, length-append, get_elem?,
  get_elem?-append, ok, or_fault, Bytes, peek, load16, htons, arith, if◌then◌else◌,
}
use test_linux.Query.Answers.{Ipv4, net16, address_at, print_answers}

-- A byte behind a prefix.
pub peek-at :
    (block pre rest : Bytes) (c p : ℕ)
    → block ≡ pre ++ c ∷ rest
    → p ≡ length pre
    → peek block p ≡ ok c
unfolding peek
peek-at block pre rest c p e at =
    ap₂ (λ (b : Bytes) (q : ℕ). or_fault (get_elem? b q)) e at
    ∙ ap or_fault (get_elem?-append pre c rest)

-- The two bytes of a number in network order.
abbrev pub be16 : ℕ → Bytes
be16 n = (n / 256) ∷ (n % 256) ∷ []

pub net16-at :
    (block pre rest : Bytes) (n p : ℕ)
    → block ≡ pre ++ (n / 256) ∷ (n % 256) ∷ rest
    → p ≡ length pre
    → n < 2 ^ 16
    → net16 block p ≡ ok n
unfolding net16 load16 htons
net16-at block pre rest n p e at small =
    rw (peek-at block pre ((n % 256) ∷ rest) (n / 256) p e at) (
      rw
        (peek-at block (pre ++ (n / 256) ∷ []) rest (n % 256) (p + 1)
          (e ∙ sym (append_assoc pre ((n / 256) ∷ []) ((n % 256) ∷ rest)))
          (omega (arith, length-append pre ((n / 256) ∷ []))))
        (ap ok (omega arith)))

-- A resource record: its name in two bytes, the time to live in two halves.
pub record Answer : Type 0 where
  pub name : ℕ
  pub type : ℕ
  pub class_number : ℕ
  pub ttl_high : ℕ
  pub ttl_low : ℕ
  pub rdata : Bytes

abbrev pub IsAnswer : Answer → Type 0
IsAnswer a =
    (a.type < 2 ^ 16)
    × (a.class_number < 2 ^ 16)
    × (a.ttl_high < 2 ^ 16)
    × (a.ttl_low < 2 ^ 16)
    × (length a.rdata < 2 ^ 16)

abbrev pub fixed : Answer → Bytes
fixed a =
    be16 a.name
    ++ (be16 a.type
        ++ (be16 a.class_number ++ (be16 a.ttl_high ++ (be16 a.ttl_low ++ be16 (length a.rdata)))))

abbrev pub answer_bytes : List Answer → Bytes
answer_bytes [] = []
answer_bytes (a ∷ as_list) = fixed a ++ (a.rdata ++ answer_bytes as_list)

-- The four bytes of an address record of the internet class.
abbrev pub address_of : Bytes → List Ipv4
address_of (a ∷ b ∷ c ∷ d ∷ []) = (a, b, c, d) ∷ []
address_of other = []

abbrev pub addresses : List Answer → List Ipv4
addresses [] = []
addresses (a ∷ rest) =
    (if a.type == 1 && a.class_number == 1 then address_of a.rdata else []) ++ addresses rest

address_at-of :
    (block pre rest : Bytes) (type class_number p : ℕ) (rdata : Bytes)
    → block ≡ pre ++ (rdata ++ rest)
    → p ≡ length pre
    → address_at type class_number (length rdata) block p
      ≡ ok (if type == 1 && class_number == 1 then address_of rdata else [])
unfolding address_at
address_at-of block pre rest type class_number p (a ∷ b ∷ c ∷ d ∷ []) e at =
    elim (Bool-cases (type == 1 && class_number == 1)) [
      | inl is_a ↦
          let four : (type == 1 && class_number == 1 && 4 == 4) ≡ true = ground arith in
          rw (four, address_at)
            (rw (peek-at block pre (b ∷ c ∷ d ∷ rest) a p e at) (
              rw (next (a ∷ []) b (c ∷ d ∷ rest) 1 e refl) (
                rw (next (a ∷ b ∷ []) c (d ∷ rest) 2 e refl)
                  (rw (next (a ∷ b ∷ c ∷ []) d rest 3 e refl) (rw is_a refl)))))
      | inr other ↦
          let four : (type == 1 && class_number == 1 && 4 == 4) ≡ false = ground arith in
          rw (four, address_at) (rw other refl)
    ]
  where
    next :
        (more : Bytes) (x : ℕ) (after : Bytes) (k : ℕ)
        → block ≡ pre ++ (more ++ x ∷ after)
        → length more ≡ k
        → peek block (p + k) ≡ ok x
    next more x after k e' size =
        peek-at block (pre ++ more) after x (p + k) (e' ∙ sym (append_assoc pre more (x ∷ after)))
          (omega (arith, length-append pre more))
address_at-of block pre rest type class_number p [] e at = ground arith
address_at-of block pre rest type class_number p (a ∷ []) e at = ground arith
address_at-of block pre rest type class_number p (a ∷ b ∷ []) e at = ground arith
address_at-of block pre rest type class_number p (a ∷ b ∷ c ∷ []) e at = ground arith
address_at-of block pre rest type class_number p (a ∷ b ∷ c ∷ d ∷ x ∷ more) e at = ground arith

-- The records are read one behind the other.
pub print_answers-addresses :
    (block pre rest : Bytes) (answers : List Answer) (len p : ℕ)
    → block ≡ pre ++ (answer_bytes answers ++ rest)
    → p ≡ length pre
    → p + length (answer_bytes answers) ≤ len
    → All IsAnswer answers
    → print_answers (length answers) block len p ≡ ok (addresses answers)
unfolding print_answers
print_answers-addresses block pre rest [] len p e at inside is = refl
print_answers-addresses block pre rest (a ∷ answers) len p e at inside is =
    let room : ltb len (p + 12) ≡ false = le→ltb len (p + 12) (omega (arith, size)) in
    rw (room, print_answers)
      (rw
        (field (be16 a.name) a.type
          (be16 a.class_number ++ (be16 a.ttl_high ++ (be16 a.ttl_low ++ behind_fixed))) 2 e refl
          is.0.0)
        (rw
          (field (be16 a.name ++ be16 a.type) a.class_number
            (be16 a.ttl_high ++ (be16 a.ttl_low ++ behind_fixed)) 4 e refl is.0.1)
          (rw
            (field (be16 a.name ++ (be16 a.type ++ be16 a.class_number)) a.ttl_high
              (be16 a.ttl_low ++ behind_fixed) 6 e refl is.0.2)
            (rw
              (field (be16 a.name ++ (be16 a.type ++ (be16 a.class_number ++ be16 a.ttl_high)))
                a.ttl_low behind_fixed 8 e refl is.0.3)
              (rw
                (field
                  (be16 a.name
                    ++ (be16 a.type
                        ++ (be16 a.class_number ++ (be16 a.ttl_high ++ be16 a.ttl_low))))
                  (length a.rdata) ((a.rdata ++ answer_bytes answers) ++ rest) 10 e refl is.0.4)
                (rw
                  (address_at-of block (pre ++ fixed a) (answer_bytes answers ++ rest) a.type
                    a.class_number (p + 12) a.rdata to_data
                    (omega (arith, length-append pre (fixed a))))
                  (rw
                    (print_answers-addresses block (pre ++ (fixed a ++ a.rdata)) rest answers len
                      (p + 12 + length a.rdata) to_next
                      (omega (
                        arith,
                        length-append pre (fixed a ++ a.rdata),
                        length-append (fixed a) a.rdata,
                      ))
                      (omega (arith, size)) is.1)
                    refl)))))))
  where
    behind_fixed : Bytes
    behind_fixed = be16 (length a.rdata) ++ ((a.rdata ++ answer_bytes answers) ++ rest)

    size :
        length (answer_bytes (a ∷ answers)) ≡ 12 + (length a.rdata + length (answer_bytes answers))
    size = omega (arith, length-append a.rdata (answer_bytes answers))

    to_data : block ≡ (pre ++ fixed a) ++ (a.rdata ++ (answer_bytes answers ++ rest))
    to_data =
        e
        ∙ ap (λ (b : Bytes). pre ++ (fixed a ++ b))
            (append_assoc a.rdata (answer_bytes answers) rest)
        ∙ sym (append_assoc pre (fixed a) (a.rdata ++ (answer_bytes answers ++ rest)))

    to_next : block ≡ (pre ++ (fixed a ++ a.rdata)) ++ (answer_bytes answers ++ rest)
    to_next =
        e
        ∙ ap (λ (b : Bytes). pre ++ (fixed a ++ b))
            (append_assoc a.rdata (answer_bytes answers) rest)
        ∙ sym (append_assoc pre (fixed a ++ a.rdata) (answer_bytes answers ++ rest))

    field :
        (more : Bytes) (n : ℕ) (after : Bytes) (k : ℕ)
        → block ≡ pre ++ (more ++ (n / 256) ∷ (n % 256) ∷ after)
        → length more ≡ k
        → n < 2 ^ 16
        → net16 block (p + k) ≡ ok n
    field more n after k e' long small =
        net16-at block (pre ++ more) after n (p + k)
          (e' ∙ sym (append_assoc pre more ((n / 256) ∷ (n % 256) ∷ after)))
          (omega (arith, length-append pre more)) small
