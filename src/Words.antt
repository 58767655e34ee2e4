-- ===== src/Words.antt =====
-- The word count of test1/count_word.cpp.
pub mod Examples
use test_linux.Base.{
  ℕ, zero, suc, ◌+◌, ◌-◌, ◌%◌, ◌^◌, ◌≤◌, ◌<◌, ◌≡◌, ◌≢◌, refl, sym, ap, ◌∙◌, Bool, true, false, ◌&&◌,
  ◌||◌, Option, none, some, List, [], ◌∷◌, ◌++◌, leb, Bool-cases, inl, inr, length, All, arith,
  Bytes, if◌then◌else◌,
}

abbrev pub size_buffer : ℕ
size_buffer = 2048

-- A byte above 127 is negative as a `char`, and no letter either way.
abbrev pub is_letter : ℕ → Bool
is_letter w = (leb w 122 && leb 97 w) || (leb w 90 && leb 65 w)

pub data StatusWd : Type 0 where
  interval : StatusWd
  word_en : StatusWd

-- The status and `word_cnt`, a `size_t`.
abbrev pub Scan : Type 0
Scan = StatusWd × ℕ

unfoldable pub scan_char : ℕ → Scan → Scan
scan_char w (interval, n) = if is_letter w then (word_en, (n + 1) % 2 ^ 64) else (interval, n)
scan_char w (word_en, n) = if is_letter w then (word_en, n) else (interval, n)

-- The inner loop, over the bytes that were read.
unfoldable pub scan : Bytes → Scan → Scan
unfolding scan_char
scan [] s = s
scan (w ∷ b) s = scan b (scan_char w s)

-- `do … while (read_num != 0)`, over what the calls of `fread` give. A list that ends before the loop
-- does leaves it going.
unfoldable pub read_loop : List Bytes → Scan → Option ℕ
unfolding scan
read_loop [] s = none
read_loop ([] ∷ reads) s = some s.1
read_loop ((w ∷ b) ∷ reads) s = read_loop reads (scan (w ∷ b) s)

-- The code that `main` returns, and the count that it prints; `argc` and what `fopen` gives come
-- first.
unfoldable pub count_word : (argc : ℕ) (file : Option (List Bytes)) → Option (ℕ × Option ℕ)
unfolding read_loop
count_word argc file = if leb 2 argc then opened file else some (1, none)
  where
    opened : Option (List Bytes) → Option (ℕ × Option ℕ)
    opened none = some (1, none)
    opened (some reads) = elim (read_loop reads (interval, 0)) [
      | none ↦ none
      | some n ↦ some (0, some n)
    ]

-- The words of a text, longest runs of letters.
abbrev pub starts : Bytes → Bool
starts [] = false
starts (w ∷ b) = is_letter w

abbrev pub onto_first : ℕ → List Bytes → List Bytes
onto_first w [] = (w ∷ []) ∷ []
onto_first w (r ∷ rs) = (w ∷ r) ∷ rs

abbrev pub words : Bytes → List Bytes
words [] = []
words (w ∷ b) =
    let rest = words b in
    if is_letter w then (if starts b then onto_first w rest else (w ∷ []) ∷ rest) else rest

abbrev pub concat : List Bytes → Bytes
concat [] = []
concat (b ∷ bs) = b ++ concat bs

-- A word is under way at the start of a text that begins with a letter.
some_word : (b : Bytes) → starts b ≡ true → 0 < length (words b)
some_word [] e = cc
some_word (w ∷ b) e = elim (Bool-cases (starts b)) [
  | inl more ↦ ground (arith, length-onto_first w (words b))
  | inr no_more ↦ ground arith
]
  where
    length-onto_first : (w : ℕ) (rs : List Bytes) → 0 < length (onto_first w rs)
    length-onto_first w [] = omega arith
    length-onto_first w (r ∷ rs) = omega arith

length-onto_first : (w : ℕ) (rs : List Bytes) → 0 < length rs → length (onto_first w rs) ≡ length rs
length-onto_first w [] h = absurd (omega arith)
length-onto_first w (r ∷ rs) h = refl

-- In a word, the first word of the rest has been counted.
abbrev open_word : StatusWd → Bytes → ℕ
open_word interval b = 0
open_word word_en b = if starts b then 1 else 0

scan-words :
    (b : Bytes) (st : StatusWd) (n : ℕ)
    → n < 2 ^ 64
    → (scan b (st, n)).1 ≡ (n + (length (words b) - open_word st b)) % 2 ^ 64
unfolding scan scan_char
scan-words [] st n h = ground arith
scan-words (w ∷ b) interval n h = elim (Bool-cases (is_letter w)) [
  | inl letter ↦ elim (Bool-cases (starts b)) [
    | inl more ↦
        ground (
          arith,
          scan-words b word_en ((n + 1) % 2 ^ 64),
          some_word b,
          length-onto_first w (words b),
        )
    | inr no_more ↦ ground (arith, scan-words b word_en ((n + 1) % 2 ^ 64))
  ]
  | inr gap ↦ ground (arith, scan-words b interval n)
]
scan-words (w ∷ b) word_en n h = elim (Bool-cases (is_letter w)) [
  | inl letter ↦ elim (Bool-cases (starts b)) [
    | inl more ↦ ground (arith, scan-words b word_en n, some_word b, length-onto_first w (words b))
    | inr no_more ↦ ground (arith, scan-words b word_en n)
  ]
  | inr gap ↦ ground (arith, scan-words b interval n)
]

scan-append : (a b : Bytes) (s : Scan) → scan (a ++ b) s ≡ scan b (scan a s)
unfolding scan
scan-append [] b s = refl
scan-append (w ∷ a) b s = scan-append a b (scan_char w s)

read_loop-scan :
    (reads more : List Bytes) (s : Scan)
    → All (λ b. b ≢ []) reads
    → read_loop (reads ++ [] ∷ more) s ≡ some ((scan (concat reads) s).1)
unfolding read_loop scan
read_loop-scan [] more s ne = refl
read_loop-scan ([] ∷ reads) more s (ne, nes) = absurd (ne refl)
read_loop-scan ((w ∷ b) ∷ reads) more s (ne, nes) =
    read_loop-scan reads more (scan (w ∷ b) s) nes
    ∙ ap (λ (r : Scan). some r.1) (sym (scan-append (w ∷ b) (concat reads) s))

-- With an argument, and a file that is read in parts that are not empty up to an empty one, `main`
-- returns 0 and prints the number of words of the whole file, modulo 2 ^ 64, wherever the parts are
-- cut.
pub count_word-words :
    (argc : ℕ) (reads more : List Bytes)
    → 2 ≤ argc
    → All (λ b. b ≢ []) reads
    → count_word argc (some (reads ++ [] ∷ more))
      ≡ some (0, some (length (words (concat reads)) % 2 ^ 64))
unfolding count_word
count_word-words argc reads more args ne =
    ground (arith, read_loop-scan reads more (interval, 0) ne, scan-words (concat reads) interval 0)

-- The words have the letters of the text, in order.
abbrev letters : Bytes → Bytes
letters [] = []
letters (w ∷ b) = if is_letter w then w ∷ letters b else letters b

concat-words : (b : Bytes) → concat (words b) ≡ letters b
concat-words [] = refl
concat-words (w ∷ b) = elim (Bool-cases (is_letter w)) [
  | inl letter ↦ elim (Bool-cases (starts b)) [
    | inl more ↦ rw (letter, more, sym (concat-words b)) (concat-onto_first w (words b))
    | inr no_more ↦ rw (letter, no_more, concat-words b)
  ]
  | inr gap ↦ rw (gap, concat-words b)
]
  where
    concat-onto_first : (w : ℕ) (rs : List Bytes) → concat (onto_first w rs) ≡ w ∷ concat rs
    concat-onto_first w [] = refl
    concat-onto_first w (r ∷ rs) = refl
