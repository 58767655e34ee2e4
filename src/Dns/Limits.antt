-- ===== src/Dns/Limits.antt =====
-- Bounds on the parser of 2.3.1-coroutine/async_dns_client_noblock.c, and the packets on which it
-- goes wrong.
use test_linux.Base.{
  ℕ, zero, suc, ◌+◌, ◌-◌, ◌≤◌, ◌<◌, ◌≡◌, refl, ap, ap₂, append-nil, ◌∙◌, ◌≢◌, ◌⊎◌, Bool,
  or_fault-cases, >>=-eq-ok, drop, lt→leb, true, inl, inr, List, [], ◌∷◌, ◌++◌, arith, ok, fault,
  out_of_fuel, ◌>>=◌, ne→==, length, get_elem?, length-append, Bytes, peek, slice, write_at-fault,
}
use test_linux.Dns.Name.{name_loop, dns_parse_name}
use test_linux.Dns.Tokens.{join_dots}
use test_linux.Dns.Request.{dot}
use test_linux.Dns.Decode.{
  NameAt, passes, IsNear, filled, filled-append, name_loop-more, name_loop-end, name_loop-jump,
  is_pointer-leb, dns_parse_name-NameAt,
}
use test_linux.Dns.Response.{DnsItem, skip_name, dns_host, dns_cname, parse_answer, parse_answers}
use test_linux.Dns.Answers.{Net16, Owner, load_net16-Net16, parse_owner}

-- A compression pointer at `p` that points at itself keeps `dns_parse_name` busy for ever: no number
-- of passes ends the calls.
pub dns_parse_name-self_pointer :
    (fuel p b : ℕ) (chunk out : Bytes)
    → peek chunk p ≡ ok b
    → 192 ≤ b
    → b < 256
    → peek chunk (p + 1) ≡ ok p
    → dns_parse_name fuel chunk p out 0 ≡ out_of_fuel
unfolding dns_parse_name name_loop
dns_parse_name-self_pointer zero p b chunk out e far byte e' = refl
dns_parse_name-self_pointer (suc f) p b chunk out e far byte e' =
    name_loop-jump chunk f p [] [] out b p e far byte e'
    ∙ dns_parse_name-self_pointer f p b chunk out e far byte e'

-- A pointer of which the offset is 256 or more is taken at its low byte only: with fuel for it, the
-- text is that of the name at `n`, if that fits the buffer and its own pointers point into the first
-- 256 bytes.
pub dns_parse_name-far :
    (fuel p b n : ℕ) (chunk out : Bytes) {ls : List Bytes}
    → peek chunk p ≡ ok b
    → 192 < b
    → b < 256
    → peek chunk (p + 1) ≡ ok n
    → (d : NameAt chunk n ls) → IsNear d
    → passes d < fuel
    → length (join_dots ls) ≤ length out
    → dns_parse_name (suc fuel) chunk p out 0
      ≡ ok (join_dots ls ++ drop (length (join_dots ls)) out, length (join_dots ls))
dns_parse_name-far fuel p b n chunk out e far byte e' d near enough fits =
    step ∙ dns_parse_name-NameAt fuel out d near enough fits
  where
    step : dns_parse_name (suc fuel) chunk p out 0 ≡ dns_parse_name fuel chunk n out 0
    step =
        unfold dns_parse_name in name_loop-jump chunk fuel p [] [] out b n e (omega arith) byte e'

-- A label of less than 192 bytes that is longer than the output buffer is copied past its end.
pub dns_parse_name-overflow :
    (fuel p : ℕ) (chunk out l : Bytes)
    → peek chunk p ≡ ok (length l)
    → length out < length l
    → length l < 192
    → slice chunk (p + 1) (length l) ≡ ok l
    → dns_parse_name (suc fuel) chunk p out 0 ≡ fault
unfolding dns_parse_name name_loop
dns_parse_name-overflow fuel p chunk out l e over small s = rw (
  e,
  ◌>>=◌,
  ne→== (length l) 0 (omega arith),
  is_pointer-leb (length l) (omega arith),
  lt→leb 192 (length l) small,
  s,
  write_at-fault out l 0 (omega arith),
)

-- A label followed by a compression pointer to the empty name, which RFC 1035 allows and `NameAt`
-- leaves out, is read with a dot at its end.
dns_parse_name-dot :
    (f : ℕ) (chunk out l : Bytes) (p b n : ℕ)
    → peek chunk p ≡ ok (length l)
    → 0 < length l
    → length l < 192
    → slice chunk (p + 1) (length l) ≡ ok l
    → peek chunk (p + 1 + length l) ≡ ok b
    → 192 ≤ b
    → b < 256
    → peek chunk (p + 1 + length l + 1) ≡ ok n
    → peek chunk n ≡ ok 0
    → length l < length out
    → dns_parse_name (suc (suc (suc f))) chunk p out 0 ≡ filled [] out (l ++ dot ∷ [])
unfolding dns_parse_name
dns_parse_name-dot f chunk out l p b n e some_byte small s e₁ far byte e₂ e₃ fits =
    name_loop-more chunk (suc (suc f)) p l [] out e some_byte small s fits b e₁
      (ne→== b 0 (omega arith))
    ∙ name_loop-jump chunk (suc f) (p + 1 + length l) [] (l ++ dot ∷ [])
        (drop (length (l ++ dot ∷ [])) out) b n e₁ far byte e₂
    ∙ name_loop-end chunk f n (l ++ dot ∷ []) (drop (length (l ++ dot ∷ [])) out) e₃
    ∙ filled-append [] out (l ++ dot ∷ []) []
    ∙ ap (λ (t : Bytes). filled [] out t) (append-nil (l ++ dot ∷ []))

peek-inside : (block : Bytes) (p : ℕ) {c : ℕ} → peek block p ≡ ok c → p < length block
unfolding peek
peek-inside [] p e = cc
peek-inside (b ∷ block) zero e = omega arith
peek-inside (b ∷ block) (suc p) e = omega (arith, peek-inside block p e)

peek-cases : (block : Bytes) (p : ℕ) → ((c : ℕ) × (peek block p ≡ ok c)) ⊎ (peek block p ≡ fault)
unfolding peek
peek-cases block p = or_fault-cases (get_elem? block p)

-- The loop over a question's name always ends, in a value or in a read past the buffer, within as
-- many passes as there are bytes left and one more.
pub skip_name-terminates :
    (f : ℕ) (buffer : Bytes) (ptr : ℕ)
    → length buffer - ptr < f
    → skip_name f buffer ptr ≢ out_of_fuel
unfolding skip_name
skip_name-terminates zero buffer ptr h = absurd (omega arith)
skip_name-terminates (suc f) buffer ptr h = elim (peek-cases buffer ptr) [
  | inl (flag, e) ↦
      let inside = peek-inside buffer ptr e in
      ground (arith, skip_name-terminates f buffer (ptr + (flag + 1)))
  | inr e ↦ rw (e, ◌>>=◌) (λ k. cc)
]

module _ (inet_ntop : Bytes → Bytes) (calloc : ℕ → Bool) (fuel : ℕ) (buffer : Bytes) where
  parse_answer-one :
      (p p' : ℕ) (items : List DnsItem)
      → parse_answer inet_ntop calloc fuel buffer p ≡ ok (items, p')
      → length items ≤ 1
  unfolding parse_answer
  parse_answer-one p p' items e = ground arith

  -- The list never outgrows its allocation of `answers` items: each answer adds at most one.
  pub length-parse_answers :
      (answers p : ℕ) (list items : List DnsItem)
      → parse_answers inet_ntop calloc fuel answers buffer p list ≡ ok items
      → length items ≤ length list + answers
  unfolding parse_answers
  length-parse_answers zero p list items e = ground arith
  length-parse_answers (suc answers) p list items e =
      let ((found, p'), e₁, e₂) = >>=-eq-ok (parse_answer inet_ntop calloc fuel buffer p) _ e in
      omega (
        arith,
        parse_answer-one p p' found e₁,
        length-parse_answers answers p' (list ++ found) items e₂,
        length-append list found,
      )

  -- An answer of another type than address and alias adds nothing, and its data is not passed over,
  -- whatever its size: the next answer is read from the place where that data begins.
  pub parse_answers-other :
      ((n : ℕ) → calloc n ≡ true)
      → {p t ttl size : ℕ} {name : Bytes} (k : ℕ) (list : List DnsItem)
      → Owner inet_ntop fuel buffer p name
      → Net16 buffer (p + 2) t
      → t ≢ dns_host
      → t ≢ dns_cname
      → Net16 buffer (p + 2 + 4) ttl
      → Net16 buffer (p + 2 + 4 + 4) size
      → parse_answers inet_ntop calloc fuel (suc k) buffer p list
        ≡ parse_answers inet_ntop calloc fuel k buffer (p + 12) list
  unfolding parse_answers parse_answer
  parse_answers-other memory {p} {t} k list o type not_host not_cname ttl size =
      let (aname, e, s) = parse_owner inet_ntop fuel buffer calloc memory o in
      rw
        (
          e,
          ◌>>=◌,
          load_net16-Net16 type,
          load_net16-Net16 ttl,
          load_net16-Net16 size,
          ne→== t dns_cname not_cname,
          ne→== t dns_host not_host,
        )
        (ap₂ (λ (q : ℕ) (l : List DnsItem). parse_answers inet_ntop calloc fuel k buffer q l) at
          (append-nil list))
    where
      at : p + 2 + 4 + 4 + 2 ≡ p + 12
      at = omega arith
