-- ===== src/Dns/Packets.antt =====
-- The parser of 2.3.1-coroutine/async_dns_client_noblock.c on concrete packets, and the theorems at
-- them.
use test_linux.Base.{
  ℕ, ◌+◌, ◌*◌, ◌<◌, ◌≡◌, refl, Bool, true, [], ◌∷◌, ◌++◌, arith, pos, ok, drop, Bytes, peek, slice,
  c_str, write_at,
}
use test_linux.Dns.Name.{is_pointer, add_dot, name_loop, dns_parse_name}
use test_linux.Dns.Response.{DnsItem, dns_parse_response, zeros}
use test_linux.Dns.Decode.{NameAt, end, label, jump, dns_parse_name-NameAt}
use test_linux.Dns.Answers.{
  Net16, PlainName, Questions, Owner, AnswersAt, dns_parse_response-AnswersAt,
}

-- A response to a question for "a": a header, the question, and one answer of the given type, which
-- is a pointer to the question's name and four bytes of data.
abbrev pub packet : ℕ → Bytes
packet type =
    0 ∷ 1 ∷ 0x81 ∷ 0x80 ∷ 0 ∷ 1 ∷ 0 ∷ 1 ∷ 0 ∷ 0 ∷ 0 ∷ 0 ∷ 1 ∷ b'a' ∷ 0 ∷ 0 ∷ 1 ∷ 0 ∷ 1 ∷ 0xC0 ∷ 12
    ∷ 0 ∷ type ∷ 0 ∷ 1 ∷ 0 ∷ 0 ∷ 0 ∷ 60 ∷ 0 ∷ 4 ∷ 1 ∷ 2 ∷ 3 ∷ 4 ∷ 0 ∷ []

-- `inet_ntop` is stood for by the bytes themselves, and every allocation succeeds.
abbrev pub raw : Bytes → Bytes
raw netip = netip

abbrev pub plenty : ℕ → Bool
plenty n = true

abbrev pub a_item : DnsItem
a_item = record { domain = b'a' ∷ []; ip = 1 ∷ 2 ∷ 3 ∷ 4 ∷ [] }

response_example : dns_parse_response raw plenty 9 (packet 1) ≡ ok (pos 1, a_item ∷ [])
unfolding dns_parse_response is_pointer add_dot name_loop zeros peek slice write_at c_str
response_example = refl

name_at_12 : (t : ℕ) → NameAt (packet t) 12 ((b'a' ∷ []) ∷ [])
unfolding peek slice
name_at_12 t = label refl (omega arith) (omega arith) refl (end refl)

owner : (t : ℕ) → Owner raw 9 (packet t) 19 (b'a' ∷ [])
unfolding peek slice name_at_12
owner t = record {
  labels = (b'a' ∷ []) ∷ [];
  at = jump {b = 192} {n = 12} refl (omega arith) (omega arith) refl (name_at_12 t);
  pointer = 192;
  is_pointer = (refl, omega arith);
  near = (refl, tt);
  enough = omega arith;
  short = omega arith;
  visible = (omega arith, tt);
  text = refl;
}

net16 :
    (t q hi lo v : ℕ)
    → peek (packet t) q ≡ ok hi
    → peek (packet t) (q + 1) ≡ ok lo
    → hi < 256
    → lo < 256
    → v ≡ hi * 256 + lo
    → Net16 (packet t) q v
net16 t q hi lo v e₁ e₂ h₁ h₂ e = record {
  hi = hi;
  lo = lo;
  first = e₁;
  second = e₂;
  hi_byte = h₁;
  lo_byte = h₂;
  value = e;
}

question : Questions (packet 1) 1 12 19
unfolding peek
question =
    Questions.more (PlainName.over {n = 1} refl (omega arith) (PlainName.stop refl)) Questions.none

answers : AnswersAt raw 9 (packet 1) 1 19 (a_item ∷ [])
unfolding peek slice
answers =
    AnswersAt.address (owner 1) (net16 1 21 0 1 1 refl refl (omega arith) (omega arith) refl)
      (net16 1 25 0 0 0 refl refl (omega arith) (omega arith) refl)
      (net16 1 29 0 4 4 refl refl (omega arith) (omega arith) refl) refl AnswersAt.none

dns_parse_response-AnswersAt_example :
    dns_parse_response raw plenty 9 (packet 1) ≡ ok (pos 1, a_item ∷ [])
unfolding peek question
dns_parse_response-AnswersAt_example =
    dns_parse_response-AnswersAt raw 9 (packet 1) plenty (λ n. refl)
      (net16 1 4 0 1 1 refl refl (omega arith) (omega arith) refl)
      (net16 1 6 0 1 1 refl refl (omega arith) (omega arith) refl) question (omega arith, tt)
      answers

dns_parse_name-NameAt_example :
    dns_parse_name 2 (packet 1) 12 (zeros 128) 0 ≡ ok ((b'a' ∷ []) ++ drop 1 (zeros 128), 1)
unfolding name_at_12 zeros
dns_parse_name-NameAt_example =
    dns_parse_name-NameAt 2 (zeros 128) (name_at_12 1) tt (omega arith) (omega arith)
