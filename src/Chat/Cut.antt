-- ===== src/Chat/Cut.antt =====
-- What the body of a client holds after a message has been read into it and it has been resized.
use test_linux.Base.{
  ℕ, suc, ◌+◌, ◌-◌, ◌≤◌, ◌≡◌, refl, ap, ap₂, sym, ◌∙◌, true, [], ◌∷◌, ◌++◌, append_assoc,
  append-nil, leb, le→leb, length, take, drop, replicate, length-append, length-drop,
  length-replicate, length-take_of_le, take-append, length-take-le, take-all, take-part, take-past,
  ok, Bytes, write_at, arith,
}
use native.Mathlib.Decide.{dec_le}
use test_linux.Chat.Client.{Text, resize, contents, max_body_size}

-- A message cut to a size, with zeros in place of the rest.
abbrev pub cut : (size : ℕ) → Bytes → Bytes
cut size m = take size m ++ replicate (length m - size) 0

-- A write inside a block.
write_at-inside :
    (block bytes : Bytes) (p : ℕ)
    → p + length bytes ≤ length block
    → write_at block p bytes ≡ ok (take p block ++ (bytes ++ drop (p + length bytes) block))
unfolding write_at
write_at-inside block bytes p h =
    let fits : leb (p + length bytes) (length block) ≡ true = le→leb _ _ h in rw fits refl

length-written :
    (block bytes : Bytes) (p : ℕ)
    → p + length bytes ≤ length block
    → length (take p block ++ (bytes ++ drop (p + length bytes) block)) ≡ length block
length-written block bytes p h = omega (
  arith,
  length-append (take p block) (bytes ++ drop (p + length bytes) block),
  length-append bytes (drop (p + length bytes) block),
  length-drop (p + length bytes) block,
  length-take_of_le p block (omega arith),
)

pub resize-within :
    (t : Text) (n : ℕ)
    → length t.block ≡ suc max_body_size
    → t.size ≤ max_body_size
    → n ≤ max_body_size
    → (u : Text) × (resize t n ≡ ok u)
      × (length u.block ≡ suc max_body_size)
      × (u.size ≡ n)
      × (contents u ≡ take n (take t.size t.block ++ replicate (n - t.size) 0))
unfolding resize
resize-within t n whole size fits =
    let h : t.size + length zeros ≤ length t.block =
      omega (arith, length-replicate {A = ℕ} (n - t.size) 0) in
    let wide : length after ≡ length t.block = length-written t.block zeros t.size h in
    let h' : n + length {A = ℕ} (0 ∷ []) ≤ length after = omega arith in
    let inside : n ≤ length after = omega arith in
    (
      record { block = take n after ++ (0 ∷ drop (n + 1) after); size = n },
      rw (write_at-inside t.block zeros t.size h) (rw (write_at-inside after (0 ∷ []) n h') refl),
      length-written after (0 ∷ []) n h' ∙ wide ∙ whole,
      refl,
      take-part n (take n after) (0 ∷ drop (n + 1) after)
            (omega (arith, length-take_of_le n after inside))
          ∙ take-all n (take n after) (length-take-le n after)
          ∙ ap (take n) (
              sym (append_assoc (take t.size t.block) zeros (drop (t.size + length zeros) t.block)))
          ∙ take-part n (take t.size t.block ++ zeros) (drop (t.size + length zeros) t.block) (
              omega (
                arith,
                length-append (take t.size t.block) zeros,
                length-take_of_le t.size t.block (omega arith),
                length-replicate {A = ℕ} (n - t.size) 0,
              )),
    )
  where
    zeros : Bytes
    zeros = replicate (n - t.size) 0

    after : Bytes
    after = take t.size t.block ++ (zeros ++ drop (t.size + length zeros) t.block)

-- A message that is read into a body of a size, and the body resized to the message.
pub cut-lem :
    (m rest : Bytes) (size : ℕ)
    → take (length m) (take size (m ++ rest) ++ replicate (length m - size) 0) ≡ cut size m
cut-lem m rest size = elim (dec_le size (length m)) [
  | yes h ↦
      ap (λ (l : Bytes). take (length m) (l ++ replicate (length m - size) 0))
        (take-part size m rest h)
      ∙ take-all (length m) (cut size m) (
          omega (
            arith,
            length-append (take size m) (replicate (length m - size) 0),
            length-take_of_le size m h,
            length-replicate {A = ℕ} (length m - size) 0,
          ))
  | no h ↦
      let none_left : length m - size ≡ 0 = omega arith in
      let e : size ≡ length m + (size - length m) = omega arith in
      ap (λ n. take (length m) (take size (m ++ rest) ++ replicate n 0)) none_left
      ∙ ap (take (length m)) (
          append-nil (take size (m ++ rest))
          ∙ ap (λ n. take n (m ++ rest)) e
          ∙ take-past (size - length m) m rest)
      ∙ take-append m (take (size - length m) rest)
      ∙ sym (
          ap₂ (λ (l : Bytes) (n : ℕ). l ++ replicate n 0) (take-all size m (omega arith)) none_left
          ∙ append-nil m)
]
