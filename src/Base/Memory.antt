-- ===== src/Base/Memory.antt =====
-- Blocks of bytes: reads and writes that fault outside the block, C strings, and 16-bit words in
-- the byte order of a little-endian machine.
use Prim.Native.Nat.{ℕ, zero, suc, ◌+◌, ◌*◌, ◌/◌, ◌%◌, ◌^◌, ◌≤◌, ◌<◌}
use mathlib.Core.Path.{◌≡◌, refl, ap, ap₂, sym, ◌∙◌}
use mathlib.Core.Bool.{true}
use mathlib.Core.List.{List, [], ◌∷◌, ◌++◌, append_assoc}
use native.Mathlib.Decide.{dec_le}
use native.Mathlib.Omega.{arith}
use test_linux.Base.Tests.{leb, if◌then◌else◌, le→leb, lt→leb}
use test_linux.Base.Lists.{
  length, get_elem?, take, drop, length-append, take-append, length-drop, drop-drop,
  take-append-drop, length-take_of_le,
}
use test_linux.Base.Outcome.{Run, ok, fault, ◌>>=◌, or_fault}

abbrev pub Bytes : Type 0
Bytes = List ℕ

-- The text in front of the first zero byte.
abbrev pub until_zero : Bytes → Bytes
until_zero [] = []
until_zero (zero ∷ b) = []
until_zero (suc c ∷ b) = suc c ∷ until_zero b

-- `block[p]`.
unfoldable pub peek : Bytes → ℕ → Run ℕ
peek block p = or_fault (get_elem? block p)

-- The `n` bytes from `p` on, the source of a `memcpy`.
unfoldable pub slice : Bytes → ℕ → ℕ → Run Bytes
slice block p n = if leb (p + n) (length block) then ok (take n (drop p block)) else fault

-- A `memcpy` of `bytes` to `p`.
unfoldable pub write_at : Bytes → ℕ → Bytes → Run Bytes
write_at block p bytes =
    if leb (p + length bytes) (length block)
    then ok (take p block ++ (bytes ++ drop (p + length bytes) block))
    else fault

-- The C string that a block begins with; a block with no terminator is read past its end.
unfoldable pub c_str : Bytes → Run Bytes
c_str [] = fault
c_str (zero ∷ block) = ok []
c_str (suc c ∷ block) = do s ← c_str block; ok (suc c ∷ s)

-- The bytes in memory of an `unsigned short`.
abbrev pub le16 : ℕ → Bytes
le16 x = (x % 256) ∷ (x / 256 % 256) ∷ []

-- `htons` and `ntohs`.
unfoldable pub htons : ℕ → ℕ
htons x = x % 256 * 256 + x / 256 % 256

-- `*(unsigned short *)(block + p)`.
unfoldable pub load16 : Bytes → ℕ → Run ℕ
load16 block p = do lo ← peek block p; hi ← peek block (p + 1); ok (lo + 256 * hi)

pub htons-htons : (x : ℕ) → x < 2 ^ 16 → htons (htons x) ≡ x
unfolding htons
htons-htons x h = omega arith

-- A write at the end of a written prefix.
pub write_at-append :
    (pre rest bytes : Bytes)
    → length bytes ≤ length rest
    → write_at (pre ++ rest) (length pre) bytes ≡ ok (pre ++ (bytes ++ drop (length bytes) rest))
unfolding write_at
write_at-append pre rest bytes h =
    let fits : leb (length pre + length bytes) (length (pre ++ rest)) ≡ true =
      le→leb _ _ (omega (arith, length-append pre rest)) in
    rw (fits, take-append pre rest)
      (ap (λ r. ok (pre ++ (bytes ++ r))) (drop_past pre (length bytes)))
  where
    drop_past : (xs : Bytes) (n : ℕ) → drop (length xs + n) (xs ++ rest) ≡ drop n rest
    drop_past [] n = ap (λ k. drop k rest) (omega arith)
    drop_past (x ∷ xs) n =
        let e : suc (length xs) + n ≡ suc (length xs + n) = omega arith in rw e (drop_past xs n)

-- The same at a block and an offset that are equal to such ones.
pub write_at-split :
    (block pre rest bytes : Bytes) (p : ℕ)
    → block ≡ pre ++ rest
    → p ≡ length pre
    → length bytes ≤ length rest
    → write_at block p bytes ≡ ok ((pre ++ bytes) ++ drop (length bytes) rest)
write_at-split block pre rest bytes p e at h =
    ap₂ (λ (b : Bytes) (q : ℕ). write_at b q bytes) e at
    ∙ write_at-append pre rest bytes h
    ∙ ap ok (sym (append_assoc pre bytes (drop (length bytes) rest)))

pub write_at-fault :
    (block bytes : Bytes) (p : ℕ) → length block < p + length bytes → write_at block p bytes ≡ fault
unfolding write_at
write_at-fault block bytes p h = rw (lt→leb _ _ h)

-- Two writes, one behind the other, with what comes after them.
pub write_both :
    {B : Type 0} (block pre rest a b : Bytes) (p q : ℕ) (next : Bytes → Run B)
    → block ≡ pre ++ rest
    → p ≡ length pre
    → q ≡ p + length a
    → length a + length b ≤ length rest
    → (do block ← write_at block p a; block ← write_at block q b; next block)
      ≡ next ((pre ++ (a ++ b)) ++ drop (length a + length b) rest)
write_both block pre rest a b p q next e at at' h =
    rw (write_at-split block pre rest a p e at (omega arith)) (
      ap (λ (r : Run Bytes). r >>= next)
        (write_at-split _ (pre ++ a) (drop (length a) rest) b q refl
            (omega (arith, length-append pre a)) (omega (arith, length-drop (length a) rest))
          ∙ ap ok shape))
  where
    shape :
        ((pre ++ a) ++ b) ++ drop (length b) (drop (length a) rest)
        ≡ (pre ++ (a ++ b)) ++ drop (length a + length b) rest
    shape = rw (drop-drop (length b) (length a) rest, append_assoc pre a b)

-- The same where the second write, or already the first, leaves the block.
pub write_both-fault :
    {B : Type 0} (block a b : Bytes) (p q : ℕ) (next : Bytes → Run B)
    → p ≤ length block
    → q ≡ p + length a
    → length block < q + length b
    → (do block ← write_at block p a; block ← write_at block q b; next block) ≡ fault
write_both-fault block a b p q next inside at over = elim (dec_le (p + length a) (length block)) [
  | yes fits ↦
      rw
        (write_at-split block (take p block) (drop p block) a p (sym (take-append-drop p block))
          (sym (length-take_of_le p block inside)) (omega (arith, length-drop p block)))
        (rw (write_at-fault _ b q (past fits)))
  | no over' ↦ rw (write_at-fault block a p (omega arith))
]
  where
    past :
        p + length a ≤ length block
        → length ((take p block ++ a) ++ drop (length a) (drop p block)) < q + length b
    past fits = omega (
      arith,
      length-append (take p block ++ a) (drop (length a) (drop p block)),
      length-append (take p block) a,
      length-take_of_le p block inside,
      length-drop (length a) (drop p block),
      length-drop p block,
    )
