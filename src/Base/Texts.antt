-- ===== src/Base/Texts.antt =====
-- Texts as bytes, and the comparisons of `memcmp`.
use Prim.Native.Char.{code}
use Prim.Native.String.{String}
use mathlib.Core.Path.{◌≡◌, refl}
use mathlib.Core.Bool.{Bool, true, false, not, ◌&&◌, ◌||◌}
use mathlib.Core.List.{[], ◌∷◌, ◌++◌}
use native.Mathlib.Omega.{arith}
use test_linux.Base.Tests.{◌==◌}
use test_linux.Base.Lists.{length, take}
use test_linux.Base.Memory.{Bytes}

-- The bytes of a text in ASCII.
abbrev pub bytes_of : String → Bytes
bytes_of String.[] = []
bytes_of (String.◌∷◌ c s) = code c ∷ bytes_of s

-- `memcmp(a, b, n) == 0` for blocks of n bytes.
abbrev pub same : Bytes → Bytes → Bool
same [] [] = true
same [] (y ∷ ys) = false
same (x ∷ xs) [] = false
same (x ∷ xs) (y ∷ ys) = x == y && same xs ys

-- Whether a block begins with the bytes of a command.
abbrev pub begins : (cmd block : Bytes) → Bool
begins [] block = true
begins (c ∷ cmd) [] = false
begins (c ∷ cmd) (x ∷ block) = c == x && begins cmd block

-- Whether some byte of a block already tells it from a command.
abbrev pub departs : (cmd block : Bytes) → Bool
departs [] block = false
departs (c ∷ cmd) [] = false
departs (c ∷ cmd) (x ∷ block) = not (c == x) || departs cmd block

-- A block that begins with the command still does with more behind it.
pub same-begins :
    (cmd block rest : Bytes)
    → begins cmd block ≡ true
    → same (take (length cmd) (block ++ rest)) cmd ≡ true
same-begins [] block rest h = refl
same-begins (c ∷ cmd) [] rest h = cc
same-begins (c ∷ cmd) (x ∷ block) rest h = ground (arith, same-begins cmd block rest)

-- A block that departs from the command does so whatever stands behind it.
pub same-departs :
    (cmd block rest : Bytes)
    → departs cmd block ≡ true
    → same (take (length cmd) (block ++ rest)) cmd ≡ false
same-departs [] block rest h = cc
same-departs (c ∷ cmd) [] rest h = cc
same-departs (c ∷ cmd) (x ∷ block) rest h = ground (arith, same-departs cmd block rest)
