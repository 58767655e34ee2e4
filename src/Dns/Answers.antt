-- ===== src/Dns/Answers.antt =====
-- What a packet with answers means, and that `dns_parse_response` of
-- 2.3.1-coroutine/async_dns_client_noblock.c finds its addresses.
use test_linux.Base.{
  ℕ, zero, suc, ◌+◌, ◌*◌, ◌≤◌, ◌<◌, ◌≡◌, refl, ap, sym, ◌∙◌, Bool, true, List, [], ◌∷◌, ◌++◌,
  append_assoc, append-nil, arith, pos, ok, ◌>>=◌, check, ne→==, length, drop, All,
  length-replicate, Bytes, peek, slice, c_str, htons, load16,
}
use test_linux.Dns.Name.{dns_parse_name}
use test_linux.Dns.Tokens.{join_dots}
use test_linux.Dns.Decode.{NameAt, passes, IsNear, dns_parse_name-NameAt}
use test_linux.Dns.Response.{
  DnsItem, skip_name, skip_questions, load_net16, dns_host, dns_cname, zeros, host_item,
  parse_answer, parse_answers, dns_parse_response,
}

abbrev pub NonZero : Bytes → Type 0
NonZero s = All (λ c. 0 < c) s

-- The 16-bit number in network order at `q`.
pub record Net16 (buffer : Bytes) (q v : ℕ) : Type 0 where
  pub hi : ℕ
  pub lo : ℕ
  pub first : peek buffer q ≡ ok hi
  pub second : peek buffer (q + 1) ≡ ok lo
  pub hi_byte : hi < 256
  pub lo_byte : lo < 256
  pub value : v ≡ hi * 256 + lo

pub load_net16-Net16 : {buffer : Bytes} {q v : ℕ} → Net16 buffer q v → load_net16 buffer q ≡ ok v
unfolding load_net16 htons load16
load_net16-Net16 n = rw (n.first, ◌>>=◌, n.second) (ap ok (omega arith))

-- A question: a name of length bytes and labels, and four more bytes, so that it ends at `q`.
pub data PlainName (buffer : Bytes) : ℕ → ℕ → Type 0 where
  stop : {p : ℕ} → peek buffer p ≡ ok 0 → PlainName buffer p (p + 1)
  over :
      {p n q : ℕ}
      → peek buffer p ≡ ok n
      → 0 < n
      → PlainName buffer (p + (n + 1)) q
      → PlainName buffer p q

pub data Questions (buffer : Bytes) : ℕ → ℕ → ℕ → Type 0 where
  none : {p : ℕ} → Questions buffer zero p p
  more :
      {k p q r : ℕ}
      → PlainName buffer p q
      → Questions buffer k (q + 4) r
      → Questions buffer (suc k) p r

abbrev name_passes : {buffer : Bytes} {p q : ℕ} → PlainName buffer p q → ℕ
name_passes (stop _) = 0
name_passes (over _ _ d) = suc (name_passes d)

abbrev pub FuelFor : ℕ → {buffer : Bytes} {k p q : ℕ} → Questions buffer k p q → Type 0
FuelFor fuel none = Unit
FuelFor fuel (more d ds) = (name_passes d < fuel) × FuelFor fuel ds

skip_name-PlainName :
    (f : ℕ) {buffer : Bytes} {p q : ℕ} (d : PlainName buffer p q)
    → name_passes d < f
    → skip_name f buffer p ≡ ok q
unfolding skip_name
skip_name-PlainName zero d h = absurd (omega arith)
skip_name-PlainName (suc f) (stop e) h = rw (e, ◌>>=◌) refl
skip_name-PlainName (suc f) (over {n} e some_byte d) h =
    rw (e, ◌>>=◌, ne→== n 0 (omega arith)) (skip_name-PlainName f d (omega arith))

skip_questions-Questions :
    (fuel : ℕ) {buffer : Bytes} {k p q : ℕ} (ds : Questions buffer k p q)
    → FuelFor fuel ds
    → skip_questions fuel k buffer p ≡ ok q
unfolding skip_questions
skip_questions-Questions fuel none h = refl
skip_questions-Questions fuel (more d ds) h =
    rw (skip_name-PlainName fuel d h.0) (skip_questions-Questions fuel ds h.1)

-- A text in a buffer of zeros, read as a C string.
c_str-zeros :
    (s : Bytes) (n : ℕ) → NonZero s → length s < n → c_str (s ++ drop (length s) (zeros n)) ≡ ok s
unfolding c_str zeros
c_str-zeros s zero is h = elim h [ ]
c_str-zeros [] (suc n) is h = refl
c_str-zeros (zero ∷ s) (suc n) is h = absurd (omega arith)
c_str-zeros (suc c ∷ s) (suc n) is h = rw (c_str-zeros s n is.1 (omega arith)) refl

pub length-zeros : (n : ℕ) → length (zeros n) ≡ n
unfolding zeros
length-zeros n = length-replicate n 0

module _ (inet_ntop : Bytes → Bytes) (fuel : ℕ) (buffer : Bytes) where
  -- A name that an answer begins with, as `parse_answer` needs it: a compression pointer, so two
  -- bytes, into the first 256 bytes of the packet, to a name that fits 128 bytes with its
  -- terminator and has no zero byte. RFC 1035 also allows a name written out there.
  pub record Owner (p : ℕ) (name : Bytes) : Type 0 where
    pub labels : List Bytes
    pub at : NameAt buffer p labels
    pub pointer : ℕ
    pub is_pointer : (peek buffer p ≡ ok pointer) × (192 ≤ pointer)
    pub near : IsNear at
    pub enough : passes at < fuel
    pub short : length (join_dots labels) < 128
    pub visible : NonZero (join_dots labels)
    pub text : name ≡ join_dots labels

  -- The answers that the packet holds from `p` on, each behind such a name, and what they say:
  -- addresses and aliases, of which the targets have no pointer beyond the first 256 bytes.
  pub data AnswersAt : ℕ → ℕ → List DnsItem → Type 0 where
    none : {p : ℕ} → AnswersAt zero p []
    address :
        {k p : ℕ} {name netip : Bytes} {ttl : ℕ} {items : List DnsItem}
        → Owner p name
        → Net16 buffer (p + 2) dns_host
        → Net16 buffer (p + 2 + 4) ttl
        → Net16 buffer (p + 2 + 4 + 4) 4
        → slice buffer (p + 2 + 4 + 4 + 2) 4 ≡ ok netip
        → AnswersAt k (p + 2 + 4 + 4 + 2 + 4) items
        → AnswersAt (suc k) p (record { domain = name; ip = inet_ntop netip } ∷ items)
    alias :
        {k p size : ℕ} {name : Bytes} {ttl : ℕ} {target : List Bytes} {items : List DnsItem}
        → Owner p name
        → Net16 buffer (p + 2) dns_cname
        → Net16 buffer (p + 2 + 4) ttl
        → Net16 buffer (p + 2 + 4 + 4) size
        → (d : NameAt buffer (p + 2 + 4 + 4 + 2) target) → IsNear d
        → passes d < fuel
        → length (join_dots target) ≤ 128
        → AnswersAt k (p + 2 + 4 + 4 + 2 + size) items
        → AnswersAt (suc k) p items

  module _ (calloc : ℕ → Bool) (memory : (n : ℕ) → calloc n ≡ true) where
    pub parse_owner :
        {p : ℕ} {name : Bytes}
        → Owner p name
        → (rest : Bytes) × (dns_parse_name fuel buffer p (zeros 128) 0 ≡ ok (rest, length name))
          × (c_str rest ≡ ok name)
    parse_owner {p} {name} o = (
      rest,
      dns_parse_name-NameAt fuel (zeros 128) o.at o.near o.enough
            (omega (arith, o.short, length-zeros 128))
          ∙ ap (λ (t : Bytes). ok (rest, length t)) (sym o.text),
      c_str-zeros (join_dots o.labels) 128 o.visible o.short ∙ ap ok (sym o.text),
    )
      where
        rest : Bytes
        rest = join_dots o.labels ++ drop (length (join_dots o.labels)) (zeros 128)

    parse_answer-address :
        {p ttl : ℕ} {name netip : Bytes}
        → Owner p name
        → Net16 buffer (p + 2) dns_host
        → Net16 buffer (p + 2 + 4) ttl
        → Net16 buffer (p + 2 + 4 + 4) 4
        → slice buffer (p + 2 + 4 + 4 + 2) 4 ≡ ok netip
        → parse_answer inet_ntop calloc fuel buffer p
          ≡ ok (record { domain = name; ip = inet_ntop netip } ∷ [], p + 2 + 4 + 4 + 2 + 4)
    unfolding parse_answer host_item
    parse_answer-address o type ttl size ip =
        let (aname, e, s) = parse_owner o in
        rw (
          e,
          ◌>>=◌,
          load_net16-Net16 type,
          load_net16-Net16 ttl,
          load_net16-Net16 size,
          ip,
          s,
          memory (length _ + 1),
          check,
          memory (length (inet_ntop _) + 1),
        )

    parse_answer-alias :
        {p ttl size : ℕ} {name : Bytes} {target : List Bytes}
        → Owner p name
        → Net16 buffer (p + 2) dns_cname
        → Net16 buffer (p + 2 + 4) ttl
        → Net16 buffer (p + 2 + 4 + 4) size
        → (d : NameAt buffer (p + 2 + 4 + 4 + 2) target) → IsNear d
        → passes d < fuel
        → length (join_dots target) ≤ 128
        → parse_answer inet_ntop calloc fuel buffer p ≡ ok ([], p + 2 + 4 + 4 + 2 + size)
    unfolding parse_answer
    parse_answer-alias o type ttl size d near enough short =
        let (aname, e, s) = parse_owner o in
        rw (
          e,
          ◌>>=◌,
          load_net16-Net16 type,
          load_net16-Net16 ttl,
          load_net16-Net16 size,
          dns_parse_name-NameAt fuel (zeros 128) d near enough (omega (arith, length-zeros 128)),
        )

    parse_answers-AnswersAt :
        {k p : ℕ} {items : List DnsItem} (list : List DnsItem)
        → AnswersAt k p items
        → parse_answers inet_ntop calloc fuel k buffer p list ≡ ok (list ++ items)
    unfolding parse_answers
    parse_answers-AnswersAt list none = ap ok (sym (append-nil list))
    parse_answers-AnswersAt list (address {netip} {items} o type ttl size ip next) =
        rw (parse_answer-address o type ttl size ip)
          (parse_answers-AnswersAt (list ++ _ ∷ []) next ∙ ap ok (append_assoc list (_ ∷ []) items))
    parse_answers-AnswersAt list (alias o type ttl size d near enough short next) =
        rw (parse_answer-alias o type ttl size d near enough short) (
          ap (λ (l : List DnsItem). parse_answers inet_ntop calloc fuel _ buffer _ l)
            (append-nil list)
          ∙ parse_answers-AnswersAt list next)

    -- When every allocation succeeds and there is fuel for the names, a packet as follows is read as
    -- the list of its addresses, in order, each with its owner's name, and their number: the header
    -- counts its questions and answers, and the questions' names are labels and a zero byte; each
    -- answer begins with a compression pointer, so that its owner's name takes two bytes (an owner's
    -- name written out is misread, and left out here), and is an address of four bytes or an alias;
    -- the owners' names and the aliases' targets have labels of 1 to 191 bytes and pointers only
    -- into the first 256 bytes of the packet and to names with a label; and an owner's dotted text
    -- has less than 128 bytes, none of them zero, and a target's at most 128.
    pub dns_parse_response-AnswersAt :
        {querys answers p : ℕ} {items : List DnsItem}
        → Net16 buffer 4 querys
        → Net16 buffer 6 answers
        → (ds : Questions buffer querys 12 p) → FuelFor fuel ds
        → AnswersAt answers p items
        → dns_parse_response inet_ntop calloc fuel buffer ≡ ok (pos (length items), items)
    unfolding dns_parse_response
    dns_parse_response-AnswersAt {answers} q a ds enough found = rw (
      load_net16-Net16 q,
      ◌>>=◌,
      load_net16-Net16 a,
      skip_questions-Questions fuel ds enough,
      memory (answers * 16),
      parse_answers-AnswersAt [] found,
    )
