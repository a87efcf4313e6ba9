-- ===== src/Base/Counts.antt =====
-- Lists as bags of numbers: how often each stands in them, and one taken out.
use Prim.Native.Nat.{ℕ, ◌+◌, ◌-◌, ◌≤◌}
use mathlib.Core.Path.{◌≡◌}
use mathlib.Core.List.{List, [], ◌∷◌, ◌++◌}
use native.Mathlib.Omega.{arith}
use xen2mx.Base.Tests.{◌==◌, leb, if◌then◌else◌}
use xen2mx.Base.Lists.{length}

-- How often a number stands in the list.
abbrev pub occurrences : ℕ → List ℕ → ℕ
occurrences i [] = 0
occurrences i (j ∷ js) = (if i == j then 1 else 0) + occurrences i js

-- The list without the first place of a number: list_del
abbrev pub delete : ℕ → List ℕ → List ℕ
delete i [] = []
delete i (j ∷ js) = if i == j then js else j ∷ delete i js

-- What stands at a place that may be another.
pub occurrences-delete :
    (j i : ℕ) (xs : List ℕ)
    → occurrences j (delete i xs) ≡ (if j == i then occurrences j xs - 1 else occurrences j xs)
occurrences-delete j i [] = ground arith
occurrences-delete j i (x ∷ xs) = ground (arith, occurrences-delete j i xs)

pub occurrences-append :
    (i : ℕ) (xs ys : List ℕ) → occurrences i (xs ++ ys) ≡ occurrences i xs + occurrences i ys
occurrences-append i [] ys = omega arith
occurrences-append i (x ∷ xs) ys = omega (arith, occurrences-append i xs ys)

pub occurrences-le-length : (i : ℕ) (xs : List ℕ) → occurrences i xs ≤ length xs
occurrences-le-length i [] = omega arith
occurrences-le-length i (x ∷ xs) = ground (arith, occurrences-le-length i xs)

pub length-delete :
    (i : ℕ) (xs : List ℕ)
    → length (delete i xs) ≡ (if leb 1 (occurrences i xs) then length xs - 1 else length xs)
length-delete i [] = ground arith
length-delete i (x ∷ xs) = ground (arith, length-delete i xs, occurrences-le-length i xs)
