-- ===== src/Dns/Tokens.antt =====
-- The host names of 2.3.1-coroutine/async_dns_client_noblock.c as label lists: what `strtok` makes
-- of a host name, and the wire form of its labels.
use test_linux.Base.{
  ℕ, suc, ◌+◌, ◌≤◌, ◌<◌, ◌≡◌, refl, ap, ◌∙◌, List, [], ◌∷◌, ◌++◌, append_assoc, append-nil, false,
  inl, inr, arith, ◌==◌, Bool-cases, length, All, length-append, Bytes,
}
use test_linux.Dns.Request.{dot, flush, tokens_from, strtok_all}

-- The dotted text of a list of labels.
abbrev pub join_dots : List Bytes → Bytes
join_dots [] = []
join_dots (l ∷ []) = l
join_dots (l ∷ m ∷ ls) = l ++ (dot ∷ join_dots (m ∷ ls))

-- Labels as DNS writes them, without the final zero.
abbrev pub encode : List Bytes → Bytes
encode [] = []
encode (l ∷ ls) = (length l) ∷ (l ++ encode ls)

abbrev pub wire_size : List Bytes → ℕ
wire_size [] = 0
wire_size (l ∷ ls) = suc (length l + wire_size ls)

abbrev pub DotFree : Bytes → Type 0
DotFree l = All (λ c. (c == dot) ≡ false) l

-- A label that fits a length byte: neither empty nor with a dot in it.
abbrev pub IsLabel : Bytes → Type 0
IsLabel l = (0 < length l) × (length l < 192) × DotFree l

pub length-join_dots :
    (l : Bytes) (ls : List Bytes) → suc (length (join_dots (l ∷ ls))) ≡ wire_size (l ∷ ls)
length-join_dots l [] = omega arith
length-join_dots l (m ∷ ls) =
    omega (arith, length-join_dots m ls, length-append l (dot ∷ join_dots (m ∷ ls)))

pub length-encode : (ls : List Bytes) → length (encode ls) ≡ wire_size ls
length-encode [] = refl
length-encode (l ∷ ls) = omega (arith, length-encode ls, length-append l (encode ls))

flush_lem : (cur : Bytes) (ts : List Bytes) → 0 < length cur → flush cur ts ≡ cur ∷ ts
flush_lem [] ts h = elim h [ ]
flush_lem (c ∷ cur) ts h = refl

wire_size-flush :
    (cur : Bytes) (ts : List Bytes) → wire_size (flush cur ts) ≤ suc (length cur) + wire_size ts
wire_size-flush [] ts = omega arith
wire_size-flush (c ∷ cur) ts = omega arith

-- The tokens of any text need at most one byte more than the text.
pub wire_size-tokens_from :
    (cur s : Bytes) → wire_size (tokens_from cur s) ≤ length cur + length s + 1
unfolding tokens_from
wire_size-tokens_from cur [] = omega (arith, wire_size-flush cur [])
wire_size-tokens_from cur (c ∷ s) = elim (Bool-cases (c == dot)) [
  | inl is_dot ↦
      rw (is_dot, tokens_from)
        (omega (arith, wire_size-flush cur (tokens_from [] s), wire_size-tokens_from [] s))
  | inr other ↦
      rw (other, tokens_from)
        (omega (arith, wire_size-tokens_from (cur ++ c ∷ []) s, length-append cur (c ∷ [])))
]

-- A dot-free prefix goes into the current token.
tokens_from-append :
    (cur t s : Bytes) → DotFree t → tokens_from cur (t ++ s) ≡ tokens_from (cur ++ t) s
unfolding tokens_from
tokens_from-append cur [] s free = rw (append-nil cur)
tokens_from-append cur (c ∷ t) s free =
    rw (free.0, tokens_from)
      (tokens_from-append (cur ++ c ∷ []) t s free.1
        ∙ ap (λ (p : Bytes). tokens_from p s) (append_assoc cur (c ∷ []) t))

-- Tokenising the dotted text of labels gives the labels back.
pub strtok_all-join_dots : (ls : List Bytes) → All IsLabel ls → strtok_all (join_dots ls) ≡ ls
unfolding tokens_from
strtok_all-join_dots [] ok_labels = refl
strtok_all-join_dots (l ∷ []) ok_labels =
    ap (λ (s : Bytes). tokens_from [] s) (sym_nil l)
    ∙ tokens_from-append [] l [] ok_labels.0.2
    ∙ flush_lem l [] ok_labels.0.0
  where
    sym_nil : (s : Bytes) → s ≡ s ++ []
    sym_nil s = rw (append-nil s)
strtok_all-join_dots (l ∷ m ∷ ls) ok_labels =
    tokens_from-append [] l (dot ∷ join_dots (m ∷ ls)) ok_labels.0.2
    ∙ flush_lem l (strtok_all (join_dots (m ∷ ls))) ok_labels.0.0
    ∙ ap (λ (ts : List Bytes). l ∷ ts) (strtok_all-join_dots (m ∷ ls) ok_labels.1)
