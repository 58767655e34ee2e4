-- ===== src/Dns/Decode.antt =====
-- What a compressed name means, and that `dns_parse_name` of
-- 2.3.1-coroutine/async_dns_client_noblock.c reads it.
use Prim.Native.Nat.{bit_and}
use test_linux.Base.{
  ℕ, zero, suc, ◌+◌, ◌-◌, ◌*◌, ◌≤◌, ◌<◌, ◌≡◌, refl, ap, ap₂, sym, ◌∙◌, Bool, true, false, not, List,
  [], ◌∷◌, ◌++◌, append_assoc, arith, Run, ok, ◌>>=◌, ◌==◌, leb, lt→leb, le→leb, ne→==, append-nil,
  length-drop, if◌then◌else◌, length, length-append, drop-drop, write_at-split, drop, Bytes, peek,
  slice,
}
use test_linux.Dns.Name.{is_pointer, add_dot, name_loop, dns_parse_name}
use test_linux.Dns.Request.{dot}
use test_linux.Dns.Tokens.{join_dots}

-- Whether a byte is told to be a pointer's first exactly from 192 on.
agrees : ℕ → Bool
agrees x = if leb 192 x then bit_and x 0xC0 == 0xC0 else not (bit_and x 0xC0 == 0xC0)

agree_down_from : ℕ → Bool
agree_down_from zero = agrees 0
agree_down_from (suc x) = if agrees (suc x) then agree_down_from x else false

agree_down_from-agrees : (top x : ℕ) → x ≤ top → agree_down_from top ≡ true → agrees x ≡ true
unfolding agree_down_from
agree_down_from-agrees zero x small all = let e : x ≡ 0 = omega arith in rw e all
agree_down_from-agrees (suc top) x small all = ground (arith, agree_down_from-agrees top x)

all_bytes_agree : agree_down_from 255 ≡ true
unfolding agree_down_from agrees
all_bytes_agree = refl

-- A byte is a pointer's first when its two high bits are set.
pub is_pointer-leb : (x : ℕ) → x < 256 → is_pointer x ≡ leb 192 x
unfolding is_pointer agrees
is_pointer-leb x h =
    let e = agree_down_from-agrees 255 x (omega arith) all_bytes_agree in ground arith

-- At `p` stands a name with the given labels, each of 1 to 191 bytes: labels, then a zero byte or a
-- pointer, whose 14 low bits are the offset of a name with at least one label. RFC 1035 also allows
-- a pointer to the empty name, which is left out: behind a label `dns_parse_name` adds a dot there.
pub data NameAt (chunk : Bytes) : ℕ → List Bytes → Type 0 where
  end : {p : ℕ} → peek chunk p ≡ ok 0 → NameAt chunk p []
  label :
      {p : ℕ} {l : Bytes} {ls : List Bytes}
      → peek chunk p ≡ ok (length l)
      → 0 < length l
      → length l < 192
      → slice chunk (p + 1) (length l) ≡ ok l
      → NameAt chunk (p + 1 + length l) ls
      → NameAt chunk p (l ∷ ls)
  jump :
      {p b n : ℕ} {l : Bytes} {ls : List Bytes}
      → peek chunk p ≡ ok b
      → 192 ≤ b
      → b < 256
      → peek chunk (p + 1) ≡ ok n
      → NameAt chunk ((b - 192) * 256 + n) (l ∷ ls)
      → NameAt chunk p (l ∷ ls)

module _ {chunk : Bytes} where
  -- The labels and pointers on the way.
  abbrev pub passes : {p : ℕ} {ls : List Bytes} → NameAt chunk p ls → ℕ
  passes (end _) = 0
  passes (label _ _ _ _ d) = suc (passes d)
  passes (jump _ _ _ _ d) = suc (passes d)

  -- No pointer goes beyond the first 256 bytes.
  abbrev pub IsNear : {p : ℕ} {ls : List Bytes} → NameAt chunk p ls → Type 0
  IsNear (end _) = Unit
  IsNear (label _ _ _ _ d) = IsNear d
  IsNear (jump {b} _ _ _ _ d) = (b ≡ 192) × IsNear d

  NameAt-nil : {p : ℕ} → NameAt chunk p [] → peek chunk p ≡ ok 0
  NameAt-nil (end e) = e

  NameAt-cons :
      {p : ℕ} {l : Bytes} {ls : List Bytes}
      → NameAt chunk p (l ∷ ls)
      → (b : ℕ) × (peek chunk p ≡ ok b) × ((b == 0) ≡ false)
  NameAt-cons (label {l} e some_byte small s d) = (length l, e, ground arith)
  NameAt-cons (jump {b} e far small e' d) = (b, e, ground arith)

-- The buffer and the length when `text` has been put behind `pre`.
abbrev pub filled : Bytes → Bytes → Bytes → Run (Bytes × ℕ)
filled pre rest text = ok ((pre ++ text) ++ drop (length text) rest, length pre + length text)

pub filled-append :
    (pre rest a text : Bytes)
    → filled (pre ++ a) (drop (length a) rest) text ≡ filled pre rest (a ++ text)
filled-append pre rest a text = ap₂ (λ (b : Bytes) (n : ℕ). ok (b, n)) shape lengths
  where
    lengths : length (pre ++ a) + length text ≡ length pre + length (a ++ text)
    lengths = omega (arith, length-append pre a, length-append a text)

    tail : drop (length text) (drop (length a) rest) ≡ drop (length (a ++ text)) rest
    tail =
        drop-drop (length text) (length a) rest
        ∙ ap (λ (k : ℕ). drop k rest) (sym (length-append a text))

    shape :
        ((pre ++ a) ++ text) ++ drop (length text) (drop (length a) rest)
        ≡ (pre ++ (a ++ text)) ++ drop (length (a ++ text)) rest
    shape =
        rw tail (ap (λ (b : Bytes). b ++ drop (length (a ++ text)) rest) (append_assoc pre a text))

-- The loop stopped at an offset where `pos` and `*len` agree, as they do at each pass.
abbrev pub name_at : ℕ → Bytes → ℕ → Bytes → Bytes → Run (Bytes × ℕ)
name_at f chunk p pre rest = name_loop f chunk p (pre ++ rest) (length pre) (length pre)

module _ (chunk : Bytes) (f p : ℕ) (l pre rest : Bytes) where
  -- A pass over a label, with what its add_dot yields.
  name_loop-label :
      peek chunk p ≡ ok (length l)
      → 0 < length l
      → length l < 192
      → slice chunk (p + 1) (length l) ≡ ok l
      → length l ≤ length rest
      → (b : ℕ) → peek chunk (p + 1 + length l) ≡ ok b
      → name_at (suc f) chunk p pre rest ≡ (
          add_dot b ((pre ++ l) ++ drop (length l) rest) (length pre + length l) >>= λ r.
          name_loop f chunk
            (p + 1 + length l)
            r.0
            (length pre + length l + r.1)
            (length pre + length l + r.1))
  unfolding name_loop
  name_loop-label e some_byte small s fits b e' = rw (
    e,
    ◌>>=◌,
    ne→== (length l) 0 (omega arith),
    is_pointer-leb (length l) (omega arith),
    lt→leb 192 (length l) small,
    s,
    write_at-split (pre ++ rest) pre rest l (length pre) refl refl fits,
    e',
  )

  pub name_loop-jump :
      (b n : ℕ)
      → peek chunk p ≡ ok b
      → 192 ≤ b
      → b < 256
      → peek chunk (p + 1) ≡ ok n
      → name_at (suc f) chunk p pre rest ≡ name_at f chunk n pre rest
  unfolding name_loop
  name_loop-jump b n e far small e' =
      rw (e, ◌>>=◌, ne→== b 0 (omega arith), is_pointer-leb b small, le→leb 192 b far, e')

  -- After the last label no dot is added, after another one is.
  name_loop-last :
      peek chunk p ≡ ok (length l)
      → 0 < length l
      → length l < 192
      → slice chunk (p + 1) (length l) ≡ ok l
      → length l ≤ length rest
      → peek chunk (p + 1 + length l) ≡ ok 0
      → name_at (suc f) chunk p pre rest
        ≡ name_at f chunk (p + 1 + length l) (pre ++ l) (drop (length l) rest)
  unfolding add_dot
  name_loop-last e some_byte small s fits e' =
      name_loop-label e some_byte small s fits 0 e'
      ∙ ap
          (λ (k : ℕ). name_loop f chunk (p + 1 + length l) ((pre ++ l) ++ drop (length l) rest) k k)
          (omega (arith, length-append pre l))

  pub name_loop-more :
      peek chunk p ≡ ok (length l)
      → 0 < length l
      → length l < 192
      → slice chunk (p + 1) (length l) ≡ ok l
      → length l < length rest
      → (b : ℕ) → peek chunk (p + 1 + length l) ≡ ok b
      → (b == 0) ≡ false
      → name_at (suc f) chunk p pre rest
        ≡ name_at f chunk
            (p + 1 + length l)
            (pre ++ (l ++ dot ∷ []))
            (drop (length (l ++ dot ∷ [])) rest)
  unfolding add_dot
  name_loop-more e some_byte small s fits b e' nz =
      name_loop-label e some_byte small s (omega arith) b e'
      ∙ rw
          (
            add_dot,
            nz,
            ◌>>=◌,
            write_at-split _ (pre ++ l) (drop (length l) rest) (dot ∷ []) (length pre + length l)
                refl (omega (arith, length-append pre l))
                (omega (arith, length-drop (length l) rest)),
          )
          (ap₂ (λ (o : Bytes) (k : ℕ). name_loop f chunk (p + 1 + length l) o k k) shape at)
    where
      shape :
          ((pre ++ l) ++ dot ∷ []) ++ drop 1 (drop (length l) rest)
          ≡ (pre ++ (l ++ dot ∷ [])) ++ drop (length (l ++ dot ∷ [])) rest
      shape =
          rw (append_assoc pre l (dot ∷ []), drop-drop 1 (length l) rest)
            (ap (λ (k : ℕ). (pre ++ (l ++ dot ∷ [])) ++ drop k rest)
              (sym (length-append l (dot ∷ []))))

      at : length pre + length l + 1 ≡ length (pre ++ (l ++ dot ∷ []))
      at = omega (arith, length-append pre (l ++ dot ∷ []), length-append l (dot ∷ []))

pub name_loop-end :
    (chunk : Bytes) (f p : ℕ) (pre rest : Bytes)
    → peek chunk p ≡ ok 0
    → name_at (suc f) chunk p pre rest ≡ filled pre rest []
unfolding name_loop
name_loop-end chunk f p pre rest e =
    rw (e, ◌>>=◌)
      (ap₂ (λ (b : Bytes) (n : ℕ). ok (b, n)) (ap (λ (b : Bytes). b ++ rest) (sym (append-nil pre)))
        same)
  where
    same : length pre ≡ length pre + 0
    same = omega arith

name_loop-NameAt :
    (f : ℕ) {chunk : Bytes} {p : ℕ} {ls : List Bytes} (pre rest : Bytes) (d : NameAt chunk p ls)
    → IsNear d
    → passes d < f
    → length (join_dots ls) ≤ length rest
    → name_at f chunk p pre rest ≡ filled pre rest (join_dots ls)
name_loop-NameAt zero pre rest d near fuel fits = absurd (omega arith)
name_loop-NameAt (suc f) {chunk} {p} pre rest (end e) near fuel fits =
    name_loop-end chunk f p pre rest e
name_loop-NameAt (suc f) {chunk} {p} pre rest (label {l} {ls = []} e some_byte small s d) near fuel
      fits =
    name_loop-last chunk f p l pre rest e some_byte small s fits (NameAt-nil d)
    ∙ name_loop-NameAt f (pre ++ l) (drop (length l) rest) d near (omega arith) (omega arith)
    ∙ filled-append pre rest l []
    ∙ ap (λ (t : Bytes). filled pre rest t) (append-nil l)
name_loop-NameAt (suc f) {chunk} {p} pre rest (label {l} {ls = m ∷ ms} e some_byte small s d) near
      fuel fits =
    let (b, e', nz) = NameAt-cons d in
    name_loop-more chunk f p l pre rest e some_byte small s (omega (arith, whole)) b e' nz
    ∙ name_loop-NameAt f (pre ++ (l ++ dot ∷ [])) (drop (length (l ++ dot ∷ [])) rest) d near
        (omega arith)
        (omega
          (arith, whole, length-append l (dot ∷ []), length-drop (length (l ++ dot ∷ [])) rest))
    ∙ filled-append pre rest (l ++ dot ∷ []) (join_dots (m ∷ ms))
    ∙ ap (λ (t : Bytes). filled pre rest t) (append_assoc l (dot ∷ []) (join_dots (m ∷ ms)))
  where
    whole : length (join_dots (l ∷ m ∷ ms)) ≡ length l + suc (length (join_dots (m ∷ ms)))
    whole = length-append l (dot ∷ join_dots (m ∷ ms))
name_loop-NameAt (suc f) {chunk} {p} pre rest (jump {b} {n} e far small e' d) near fuel fits =
    name_loop-jump chunk f p [] pre rest b n e far small e'
    ∙ ap (λ (q : ℕ). name_at f chunk q pre rest) (omega arith)
    ∙ name_loop-NameAt f pre rest d near.1 (omega arith) fits

-- A name with labels of 1 to 191 bytes, whose pointers point into the first 256 bytes of the packet
-- and each to a name with at least one label, and which fits the buffer, is read, with a pass of fuel for each of its labels and pointers and one more, as its dotted text,
-- into the front of the buffer and nowhere else, with its length.
pub dns_parse_name-NameAt :
    (fuel : ℕ) {chunk : Bytes} {p : ℕ} {ls : List Bytes} (out : Bytes) (d : NameAt chunk p ls)
    → IsNear d
    → passes d < fuel
    → length (join_dots ls) ≤ length out
    → dns_parse_name fuel chunk p out 0
      ≡ ok (join_dots ls ++ drop (length (join_dots ls)) out, length (join_dots ls))
unfolding dns_parse_name
dns_parse_name-NameAt fuel {ls} out d near enough fits =
    name_loop-NameAt fuel [] out d near enough fits
    ∙ ap (λ (n : ℕ). ok (join_dots ls ++ drop (length (join_dots ls)) out, n)) (omega arith)
