-- ===== src/Query/Bounds.antt =====
-- That the reads of `print_dns_a_records` in test5/dnstest.cpp stay inside the buffer, and that it ends.
use test_linux.Base.{
  ℕ, zero, suc, ◌+◌, ◌*◌, ◌≤◌, ◌<◌, ◌≡◌, refl, ◌==◌, Bool-cases, ◌&&◌, inl, inr, List, [], ◌∷◌,
  ◌++◌, length, ltb, Run, ok, Bytes, peek, load16, htons, arith,
}
use test_linux.Query.Answers.{
  Ipv4, skip_labels, skip_questions, net16, address_at, print_answers, print_dns_a_records,
}

-- A run that comes to a value.
abbrev Returns : {A : Type 0} → Run A → Type 0
Returns {A = A} r = (a : A) × (r ≡ ok a)

peek-Returns : (block : Bytes) (p : ℕ) → p < length block → Returns (peek block p)
unfolding peek
peek-Returns [] p h = absurd (omega arith)
peek-Returns (x ∷ block) zero h = (x, refl)
peek-Returns (x ∷ block) (suc p) h = peek-Returns block p (omega arith)

net16-Returns : (block : Bytes) (p : ℕ) → p + 1 < length block → Returns (net16 block p)
unfolding net16 load16
net16-Returns block p h =
    let (a, e) = peek-Returns block p (omega arith) in
    let (b, e') = peek-Returns block (p + 1) h in (htons (a + 256 * b), rw e (rw e' refl))

address_at-Returns :
    (type class_number rdlength : ℕ) (block : Bytes) (p : ℕ)
    → p + 3 < length block
    → Returns (address_at type class_number rdlength block p)
unfolding address_at
address_at-Returns type class_number rdlength block p h =
    let (a, e) = peek-Returns block p (omega arith) in
    let (b, e') = peek-Returns block (p + 1) (omega arith) in
    let (c, e'') = peek-Returns block (p + 2) (omega arith) in
    let (d, e''') = peek-Returns block (p + 3) h in
    elim (Bool-cases (type == 1 && class_number == 1 && rdlength == 4)) [
      | inl is_a ↦ ((a, b, c, d) ∷ [], rw (is_a, address_at) (rw e (rw e' (rw e'' (rw e''' refl)))))
      | inr other ↦ ([], rw (other, address_at) refl)
    ]

module _ (block : Bytes) (len : ℕ) (inside : len + 4 ≤ length block) where
  skip_labels-Returns : (n p : ℕ) → 0 < n → len < n + p → Returns (skip_labels n block len p)
  unfolding skip_labels
  skip_labels-Returns zero p some_fuel h = absurd (omega arith)
  skip_labels-Returns (suc n) p some_fuel h = elim (Bool-cases (ltb p len)) [
    | inr over ↦ (p, rw (over, skip_labels) refl)
    | inl room ↦
        let before : p < len = ground arith in
        let (c, e) = peek-Returns block p (omega arith) in
        let (q, e') =
          step c (λ k. skip_labels-Returns n (p + suc k + 1) (omega arith) (omega arith)) in
        (q, rw (room, skip_labels) (rw e e'))
  ]
    where
      step :
          (c : ℕ)
          → ((k : ℕ) → Returns (skip_labels n block len (p + suc k + 1)))
          → Returns {A = ℕ}
              (elim c [ zero ↦ ok p | suc k ↦ skip_labels n block len (p + suc k + 1) ])
      step zero again = (p, refl)
      step (suc k) again = again k

  skip_questions-Returns : (n num p : ℕ) → len < n → Returns (skip_questions n num block len p)
  unfolding skip_questions
  skip_questions-Returns n zero p h = (p, refl)
  skip_questions-Returns n (suc num) p h =
      let (q, e) = skip_labels-Returns n p (omega arith) (omega arith) in
      let (r, e') = skip_questions-Returns n num (q + 1 + 4) h in (r, rw e e')

  print_answers-Returns : (num p : ℕ) → Returns (print_answers num block len p)
  unfolding print_answers
  print_answers-Returns zero p = ([], refl)
  print_answers-Returns (suc num) p = elim (Bool-cases (ltb len (p + 12))) [
    | inl over ↦ ([], rw (over, print_answers) refl)
    | inr room ↦
        let fits : p + 12 ≤ len = ground arith in
        let (type, e_type) = net16-Returns block (p + 2) (omega arith) in
        let (class_number, e_class) = net16-Returns block (p + 4) (omega arith) in
        let (high, e_high) = net16-Returns block (p + 6) (omega arith) in
        let (low, e_low) = net16-Returns block (p + 8) (omega arith) in
        let (rdlength, e_size) = net16-Returns block (p + 10) (omega arith) in
        let (here, e_here) =
          address_at-Returns type class_number rdlength block (p + 12) (omega arith) in
        let (rest, e_rest) = print_answers-Returns num (p + 12 + rdlength) in
        (
          here ++ rest,
          rw (room, print_answers)
              (rw e_type
                (rw e_class (rw e_high (rw e_low (rw e_size (rw e_here (rw e_rest refl))))))),
        )
  ]

-- Whatever came, into a buffer that has four bytes behind it and at least 8 in all, and on more fuel
-- than bytes came: `print_dns_a_records` comes to its end and has read no byte outside the buffer.
pub print_dns_a_records-in_bounds :
    (fuel : ℕ) (response : Bytes) (len : ℕ)
    → len + 4 ≤ length response
    → 8 ≤ length response
    → len < fuel
    → (addresses : List Ipv4) × (print_dns_a_records fuel response len ≡ ok addresses)
unfolding print_dns_a_records
print_dns_a_records-in_bounds fuel response len inside header enough =
    let (questions, e) = net16-Returns response 4 (omega arith) in
    let (answers, e') = net16-Returns response 6 (omega arith) in
    let (p, e'') = skip_questions-Returns response len inside fuel questions 12 enough in
    let (addresses, e''') = print_answers-Returns response len inside answers p in
    (addresses, rw e (rw e' (rw e'' e''')))
