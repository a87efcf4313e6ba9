-- ===== src/Base/Bits.antt =====
-- C's unsigned words used as sets: a word is the list of its bits, the lowest first.
use Prim.Native.Nat.{ℕ, zero, suc, ◌+◌, ◌-◌, ◌≤◌, ◌<◌}
use mathlib.Core.Path.{◌≡◌, refl, ap, ◌∙◌}
use mathlib.Core.Logic.{◌≢◌}
use mathlib.Core.Bool.{Bool, true, false, ◌||◌}
use mathlib.Core.List.{List, [], ◌∷◌, ◌++◌}
use native.Mathlib.Omega.{arith}
use xen2mx.Base.Tests.{ltb}
use xen2mx.Base.Lists.{length, drop}

abbrev pub ones : ℕ → List Bool
ones zero = []
ones (suc n) = true ∷ ones n

abbrev pub zeros : ℕ → List Bool
zeros zero = []
zeros (suc n) = false ∷ zeros n

-- word >> k, for k at most the width
abbrev pub shift_right : ℕ → List Bool → List Bool
shift_right k bits = drop k bits ++ zeros k

-- (word & (1 << k)) != 0
abbrev pub is_set : ℕ → List Bool → Bool
is_set k [] = false
is_set zero (b ∷ bits) = b
is_set (suc k) (b ∷ bits) = is_set k bits

-- word & ~(1 << k)
abbrev pub clear : ℕ → List Bool → List Bool
clear k [] = []
clear zero (b ∷ bits) = false ∷ bits
clear (suc k) (b ∷ bits) = b ∷ clear k bits

-- word != 0
abbrev pub nonzero : List Bool → Bool
nonzero [] = false
nonzero (b ∷ bits) = b || nonzero bits

-- The number of the bits that are set.
abbrev pub popcount : List Bool → ℕ
popcount [] = 0
popcount (true ∷ bits) = suc (popcount bits)
popcount (false ∷ bits) = popcount bits

pub popcount-clear :
    (k : ℕ) (bits : List Bool)
    → is_set k bits ≡ true
    → popcount bits ≡ suc (popcount (clear k bits))
popcount-clear k [] h = absurd (ground arith)
popcount-clear zero (true ∷ bits) h = refl
popcount-clear zero (false ∷ bits) h = absurd (ground arith)
popcount-clear (suc k) (true ∷ bits) h = ap suc (popcount-clear k bits h)
popcount-clear (suc k) (false ∷ bits) h = popcount-clear k bits h

pub length-clear : (k : ℕ) (bits : List Bool) → length (clear k bits) ≡ length bits
length-clear k [] = refl
length-clear zero (b ∷ bits) = refl
length-clear (suc k) (b ∷ bits) = ap suc (length-clear k bits)

pub is_set-clear_self : (k : ℕ) (bits : List Bool) → is_set k (clear k bits) ≡ false
is_set-clear_self k [] = refl
is_set-clear_self zero (b ∷ bits) = refl
is_set-clear_self (suc k) (b ∷ bits) = is_set-clear_self k bits

pub is_set-clear_ne : (j k : ℕ) (bits : List Bool) → j ≢ k → is_set j (clear k bits) ≡ is_set j bits
is_set-clear_ne j k [] h = refl
is_set-clear_ne zero zero (b ∷ bits) h = absurd (h refl)
is_set-clear_ne zero (suc k) (b ∷ bits) h = refl
is_set-clear_ne (suc j) zero (b ∷ bits) h = refl
is_set-clear_ne (suc j) (suc k) (b ∷ bits) h = is_set-clear_ne j k bits (λ e. h (ap suc e))

-- A word is zero exactly where it has no bit.
pub popcount-zero : (bits : List Bool) → nonzero bits ≡ false → popcount bits ≡ 0
popcount-zero [] h = refl
popcount-zero (true ∷ bits) h = absurd (ground arith)
popcount-zero (false ∷ bits) h = popcount-zero bits h

pub is_set-zero : (k : ℕ) (bits : List Bool) → popcount bits ≡ 0 → is_set k bits ≡ false
is_set-zero k [] h = refl
is_set-zero k (true ∷ bits) h = absurd (omega arith)
is_set-zero zero (false ∷ bits) h = refl
is_set-zero (suc k) (false ∷ bits) h = is_set-zero k bits h

pub popcount-set : (k : ℕ) (bits : List Bool) → is_set k bits ≡ true → 0 < popcount bits
popcount-set k bits h = omega (arith, popcount-clear k bits h)

pub nonzero-set : (k : ℕ) (bits : List Bool) → is_set k bits ≡ true → nonzero bits ≡ true
nonzero-set k [] h = absurd (ground arith)
nonzero-set k (true ∷ bits) h = refl
nonzero-set zero (false ∷ bits) h = absurd (ground arith)
nonzero-set (suc k) (false ∷ bits) h = nonzero-set k bits h

pub nonzero-some : (bits : List Bool) → nonzero bits ≡ true → (k : ℕ) × (is_set k bits ≡ true)
nonzero-some [] h = absurd (ground arith)
nonzero-some (true ∷ bits) h = (0, refl)
nonzero-some (false ∷ bits) h = let (k, s) = nonzero-some bits h in (suc k, s)

-- A word of full ones, shifted, has its lowest bits set and no other.
drop-ones : (k n : ℕ) → drop k (ones (k + n)) ≡ ones n
drop-ones zero n = ap ones (omega arith)
drop-ones (suc k) n =
    ap (λ m. drop (suc k) (ones m)) {y = suc (k + n)} (omega arith) ∙ drop-ones k n

is_set-mask : (j n k : ℕ) → is_set j (ones n ++ zeros k) ≡ ltb j n
is_set-mask j zero zero = ground arith
is_set-mask zero zero (suc k) = ground arith
is_set-mask (suc j) zero (suc k) = is_set-mask j zero k ∙ ground arith
is_set-mask zero (suc n) k = ground arith
is_set-mask (suc j) (suc n) k = is_set-mask j n k ∙ ground arith

popcount-mask : (n k : ℕ) → popcount (ones n ++ zeros k) ≡ n
popcount-mask zero zero = refl
popcount-mask zero (suc k) = popcount-mask zero k
popcount-mask (suc n) k = ap suc (popcount-mask n k)

shift-ones : (n w : ℕ) → n ≤ w → shift_right (w - n) (ones w) ≡ ones n ++ zeros (w - n)
shift-ones n w h =
    ap (λ t. t ++ zeros (w - n))
      (ap (λ m. drop (w - n) (ones m)) {y = w - n + n} (omega arith) ∙ drop-ones (w - n) n)

pub is_set-shift : (j n w : ℕ) → n ≤ w → is_set j (shift_right (w - n) (ones w)) ≡ ltb j n
is_set-shift j n w h = rw (shift-ones n w h) (is_set-mask j n (w - n))

pub popcount-shift : (n w : ℕ) → n ≤ w → popcount (shift_right (w - n) (ones w)) ≡ n
popcount-shift n w h = rw (shift-ones n w h) (popcount-mask n (w - n))
