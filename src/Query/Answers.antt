-- ===== src/Query/Answers.antt =====
-- `print_dns_a_records` of test5/dnstest.cpp. `response` is the whole buffer, of which `len` bytes
-- came; the result is the addresses printed.
use test_linux.Base.{
  ℕ, zero, suc, ◌+◌, ◌==◌, true, false, ◌&&◌, List, [], ◌∷◌, ◌++◌, ltb, Run, ok, out_of_fuel, ◌>>=◌,
  Bytes, peek, load16, htons,
}

abbrev pub Ipv4 : Type 0
Ipv4 = ℕ × ℕ × ℕ × ℕ

-- The `while` over the labels of a name.
unfoldable pub skip_labels : (fuel : ℕ) → Bytes → (len p : ℕ) → Run ℕ
skip_labels zero response len p = out_of_fuel
skip_labels (suc n) response len p = elim (ltb p len) [
  | false ↦ ok p
  | true ↦ do
    c ← peek response p
    elim c [ zero ↦ ok p | suc k ↦ skip_labels n response len (p + suc k + 1) ]
]

unfoldable pub skip_questions : (fuel num : ℕ) → Bytes → (len p : ℕ) → Run ℕ
skip_questions fuel zero response len p = ok p
skip_questions fuel (suc num) response len p = do
  p ← skip_labels fuel response len p
  skip_questions fuel num response len (p + 1 + 4)

-- `ntohs(*(uint16_t *)(response + p))`.
unfoldable pub net16 : Bytes → ℕ → Run ℕ
net16 response p = do v ← load16 response p; ok (htons v)

-- What is printed for a record whose data are at `p`.
unfoldable pub address_at : (type class_number rdlength : ℕ) → Bytes → ℕ → Run (List Ipv4)
address_at type class_number rdlength response p =
    elim (type == 1 && class_number == 1 && rdlength == 4) [
      | false ↦ ok []
      | true ↦ do
        a ← peek response p
        b ← peek response (p + 1)
        c ← peek response (p + 2)
        d ← peek response (p + 3)
        ok ((a, b, c, d) ∷ [])
    ]

-- The records from `p` on; the time to live is read in two halves.
unfoldable pub print_answers : (num : ℕ) → Bytes → (len p : ℕ) → Run (List Ipv4)
print_answers zero response len p = ok []
print_answers (suc num) response len p = elim (ltb len (p + 12)) [
  | true ↦ ok []
  | false ↦ do
    type ← net16 response (p + 2)
    class_number ← net16 response (p + 4)
    ttl_high ← net16 response (p + 6)
    ttl_low ← net16 response (p + 8)
    rdlength ← net16 response (p + 10)
    here ← address_at type class_number rdlength response (p + 12)
    rest ← print_answers num response len (p + 12 + rdlength)
    ok (here ++ rest)
]

unfoldable pub print_dns_a_records : (fuel : ℕ) → Bytes → (len : ℕ) → Run (List Ipv4)
print_dns_a_records fuel response len = do
  question_num ← net16 response 4
  answer_ancount ← net16 response 6
  p ← skip_questions fuel question_num response len 12
  print_answers answer_ancount response len p
