-- ===== src/Chat/Small.antt =====
-- A small kcp library: a datagram is a header and messages with line feeds between them, at most
-- four, and what has come is kept until it is read.
use test_linux.Base.{
  ℕ, ◌+◌, ◌%◌, ◌^◌, ◌≤◌, ◌<◌, ◌≡◌, refl, sym, true, false, List, [], ◌∷◌, ◌++◌, ◌==◌, leb, ◌≢◌, ap,
  subst, lt→leb, le→leb, length, drop, replicate, Bytes, ℤ, pos, negsuc, bytes_of, arith,
}
use native.Mathlib.Decide.{dec_le}
use test_linux.Chat.Library.{KcpCalls, RoomLaws}

pub record Block : Type 0 where
  pub waiting : List Bytes
  pub few : length waiting ≤ 4
  pub sent : List Bytes

abbrev split_from : Bytes → (line : Bytes) → List Bytes
split_from [] line = line ∷ []
split_from (c ∷ b) line = elim (c == 10) [
  | true ↦ line ∷ split_from b []
  | false ↦ split_from b (line ++ c ∷ [])
]

abbrev arrive : Block → Bytes → ℤ × Block
arrive k b = elim (dec_le (length (split_from (drop 24 b) [])) 4) [
  | yes h ↦ (pos 0, record k { waiting = split_from (drop 24 b) []; few = h })
  | no h ↦ (negsuc 0, k)
]

abbrev next :
    (size : ℕ) (waiting : List Bytes) → length waiting ≤ 4 → List Bytes → (ℤ × Bytes) × Block
next size [] h sent = ((negsuc 0, []), record { waiting = []; few = h; sent = sent })
next size (m ∷ ms) h sent = elim (leb (length m) size) [
  | true ↦ ((pos (length m), m), record { waiting = ms; few = omega arith; sent = sent })
  | false ↦ ((negsuc 2, []), record { waiting = m ∷ ms; few = h; sent = sent })
]

abbrev pub small : KcpCalls Block
small = record {
  create = λ conv. record { waiting = []; few = omega arith; sent = [] };
  wndsize = λ k sndwnd rcvwnd. k;
  nodelay = λ k a b c d. k;
  update = λ k current. ([], k);
  input = arrive;
  send = λ k m. (pos 0, record k { sent = k.sent ++ m ∷ [] });
  recv = λ k size. next size k.waiting k.few k.sent;
}

abbrev pub inbox : Block → List Bytes
inbox k = k.waiting

abbrev pub outbox : Block → List Bytes
outbox k = k.sent

arrive-sent : (k : Block) (b : Bytes) → outbox ((arrive k b).1) ≡ outbox k
arrive-sent k b = ground arith

next-sent :
    (size : ℕ) (ms : List Bytes) (h : length ms ≤ 4) (sent : List Bytes)
    → outbox ((next size ms h sent).1) ≡ sent
next-sent size [] h sent = refl
next-sent size (m ∷ ms) h sent = ground arith

next-none :
    (size : ℕ) (ws : List Bytes) (h : length ws ≤ 4) (sent : List Bytes)
    → ws ≡ []
    → (n : ℕ) × (n ≢ 2) × ((next size ws h sent).0 ≡ (negsuc n, []))
next-none size [] h sent e = (0, (λ a. cc), refl)
next-none size (w ∷ ws) h sent e = cc

next-big :
    (size : ℕ) (ws : List Bytes) (h : length ws ≤ 4) (sent : List Bytes) (m : Bytes)
    (ms : List Bytes)
    → ws ≡ m ∷ ms
    → size < length m
    → (next size ws h sent).0 ≡ (negsuc 2, [])
next-big size [] h sent m ms e big = cc
next-big size (w ∷ ws) h sent m ms e big =
    let same : w ≡ m = cc in
    rw (lt→leb (length w) size (subst (λ b. size < length b) (sym same) big), next) refl

next-next :
    (size : ℕ) (ws : List Bytes) (h : length ws ≤ 4) (sent : List Bytes) (m : Bytes)
    (ms : List Bytes)
    → ws ≡ m ∷ ms
    → length m ≤ size
    → ((next size ws h sent).0 ≡ (pos (length m), m)) × (inbox ((next size ws h sent).1) ≡ ms)
next-next size [] h sent m ms e fits = cc
next-next size (w ∷ ws) h sent m ms e fits =
    let same : w ≡ m = cc in
    let rest : ws ≡ ms = cc in
    let small_enough = le→leb (length w) size (subst (λ b. length b ≤ size) (sym same) fits) in
    (rw (small_enough, next) (ap (λ b. (pos (length b), b)) same), rw (small_enough, next) rest)

pub small-laws : RoomLaws small inbox outbox
small-laws = record {
  sent_new = λ conv sndwnd rcvwnd a b c d. refl;
  update_inbox = λ k current. refl;
  update_sent = λ k current. refl;
  input_sent = arrive-sent;
  send_inbox = λ k m. refl;
  send_sent = λ k m h. refl;
  recv_sent = λ k size. next-sent size k.waiting k.few k.sent;
  recv_none = λ k size e. next-none size k.waiting k.few k.sent e;
  recv_big = λ k size m ms e h. next-big size k.waiting k.few k.sent m ms e h;
  recv_next = λ k size m ms e h. next-next size k.waiting k.few k.sent m ms e h;
}

abbrev pub one_digit : ℕ → Bytes
one_digit n = (48 + n % 10) ∷ []

pub one_digit-dotted : (n : ℕ) → length (one_digit n) ≤ 15
one_digit-dotted n = omega arith

pub one_digit-digits : (n : ℕ) → n < 2 ^ 16 → length (one_digit n) ≤ 5
one_digit-digits n h = omega arith

-- The small library as it is when each datagram completes a short message and one of 5000 bytes.
abbrev pub long_messages : List Bytes
long_messages = bytes_of "hi" ∷ replicate 5000 97 ∷ []

abbrev pub large : KcpCalls Block
large = record small {
  input = λ k b. (pos 0, record k { waiting = long_messages; few = omega arith });
}

pub large-laws : RoomLaws large inbox outbox
large-laws = record {
  sent_new = λ conv sndwnd rcvwnd a b c d. refl;
  update_inbox = λ k current. refl;
  update_sent = λ k current. refl;
  input_sent = λ k b. refl;
  send_inbox = λ k m. refl;
  send_sent = λ k m h. refl;
  recv_sent = small-laws.recv_sent;
  recv_none = small-laws.recv_none;
  recv_big = small-laws.recv_big;
  recv_next = small-laws.recv_next;
}
