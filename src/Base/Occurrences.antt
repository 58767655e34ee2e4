-- ===== src/Base/Occurrences.antt =====
-- How often a number stands in a list, and taking one out.
use Prim.Native.Nat.{ℕ, suc, ◌+◌, ◌<◌}
use mathlib.Core.Bool.{true, false}
use mathlib.Core.List.{List, [], ◌∷◌, ◌++◌}
use mathlib.Core.Path.{◌≡◌}
use mathlib.Core.Logic.{inl, inr}
use native.Mathlib.Omega.{arith}
use test_linux.Base.Tests.{◌==◌, if◌then◌else◌, Bool-cases}

abbrev pub times : List ℕ → ℕ → ℕ
times [] j = 0
times (k ∷ ks) j = if k == j then suc (times ks j) else times ks j

pub times-append : (ks ls : List ℕ) (j : ℕ) → times (ks ++ ls) j ≡ times ks j + times ls j
times-append [] ls j = omega arith
times-append (k ∷ ks) ls j = ground (arith, times-append ks ls j)

-- The first occurrence is taken out.
abbrev pub remove : ℕ → List ℕ → List ℕ
remove k [] = []
remove k (l ∷ ls) = elim (l == k) [ true ↦ ls | false ↦ l ∷ remove k ls ]

pub times-remove :
    (fd : ℕ) (fds : List ℕ) (j : ℕ)
    → 0 < times fds fd
    → times fds j ≡ times (remove fd fds) j + (if fd == j then 1 else 0)
times-remove fd [] j h = elim h [ ]
times-remove fd (k ∷ fds) j h = elim (Bool-cases (k == fd)) [
  | inl same ↦ rw (same, remove) (ground arith)
  | inr other ↦ rw (other, remove) (ground (arith, times-remove fd fds j))
]
