-- ===== src/Base/Slices.antt =====
-- Laws of take and drop over appended lists, and the overwriting of a part of a list.
use Prim.Native.Nat.{ℕ, zero, suc, ◌+◌, ◌-◌, ◌≤◌, min}
use mathlib.Core.Path.{◌≡◌, refl, sym, ap, ap₂, ◌∙◌}
use mathlib.Core.List.{List, [], ◌∷◌, ◌++◌, append_assoc, append-nil}
use native.Mathlib.Omega.{arith}
use native.Mathlib.Decide.{dec_le}
use xen2mx.Base.Lists.{length, take, drop, length-append, length-drop}

module _ {ℓ} {A : Type ℓ} where
  pub take-append_le : (n : ℕ) (xs ys : List A) → n ≤ length xs → take n (xs ++ ys) ≡ take n xs
  take-append_le zero xs ys h = refl
  take-append_le (suc n) [] ys h = absurd (omega arith)
  take-append_le (suc n) (x ∷ xs) ys h = ap (◌∷◌ x) (take-append_le n xs ys (omega arith))

  pub take-append_ge :
      (n : ℕ) (xs ys : List A) → length xs ≤ n → take n (xs ++ ys) ≡ xs ++ take (n - length xs) ys
  take-append_ge n [] ys h = ap (λ k. take k ys) (omega arith)
  take-append_ge zero (x ∷ xs) ys h = absurd (omega arith)
  take-append_ge (suc n) (x ∷ xs) ys h =
      ap (◌∷◌ x) (take-append_ge n xs ys (omega arith) ∙ ap (λ k. xs ++ take k ys) (omega arith))

  pub drop-append_le :
      (n : ℕ) (xs ys : List A) → n ≤ length xs → drop n (xs ++ ys) ≡ drop n xs ++ ys
  drop-append_le zero xs ys h = refl
  drop-append_le (suc n) [] ys h = absurd (omega arith)
  drop-append_le (suc n) (x ∷ xs) ys h = drop-append_le n xs ys (omega arith)

  pub drop-append_ge :
      (n : ℕ) (xs ys : List A) → length xs ≤ n → drop n (xs ++ ys) ≡ drop (n - length xs) ys
  drop-append_ge n [] ys h = ap (λ k. drop k ys) (omega arith)
  drop-append_ge zero (x ∷ xs) ys h = absurd (omega arith)
  drop-append_ge (suc n) (x ∷ xs) ys h =
      drop-append_ge n xs ys (omega arith) ∙ ap (λ k. drop k ys) (omega arith)

  pub take_all : (n : ℕ) (xs : List A) → length xs ≤ n → take n xs ≡ xs
  take_all zero [] h = refl
  take_all zero (x ∷ xs) h = absurd (omega arith)
  take_all (suc n) [] h = refl
  take_all (suc n) (x ∷ xs) h = ap (◌∷◌ x) (take_all n xs (omega arith))

  pub drop_all : (n : ℕ) (xs : List A) → length xs ≤ n → drop n xs ≡ []
  drop_all zero [] h = refl
  drop_all zero (x ∷ xs) h = absurd (omega arith)
  drop_all (suc n) [] h = refl
  drop_all (suc n) (x ∷ xs) h = drop_all n xs (omega arith)

  take-nil : (j : ℕ) → take {A = A} j [] ≡ []
  take-nil zero = refl
  take-nil (suc j) = refl

  pub take-add : (k m : ℕ) (xs : List A) → take k xs ++ take m (drop k xs) ≡ take (k + m) xs
  take-add zero m xs = ap (λ t. take t xs) (omega arith)
  take-add (suc k) m [] = take-nil m ∙ sym (take-nil (suc k + m))
  take-add (suc k) m (x ∷ xs) =
      ap (◌∷◌ x) (take-add k m xs) ∙ ap (λ t. take t (x ∷ xs)) {x = suc (k + m)} (omega arith)

  pub length-take_le : (n : ℕ) (xs : List A) → n ≤ length xs → length (take n xs) ≡ n
  length-take_le zero xs h = refl
  length-take_le (suc n) [] h = absurd (omega arith)
  length-take_le (suc n) (x ∷ xs) h = ap suc (length-take_le n xs (omega arith))

  -- `xs` with the n elements from `o` on replaced by the first n of `src`.
  abbrev pub splice : ℕ → ℕ → List A → List A → List A
  splice o n src xs = take o xs ++ (take n src ++ drop (o + n) xs)

  pub length-splice :
      (o n : ℕ) (src xs : List A)
      → o + n ≤ length xs
      → n ≤ length src
      → length (splice o n src xs) ≡ length xs
  length-splice o n src xs h k = omega (
    arith,
    length-append (take o xs) (take n src ++ drop (o + n) xs),
    length-append (take n src) (drop (o + n) xs),
    length-take_le o xs,
    length-take_le n src k,
    length-drop (o + n) xs,
  )

  -- Behind the first part, the first part stays.
  pub splice_behind :
      (o n : ℕ) (src xs ys : List A)
      → length xs ≤ o
      → splice o n src (xs ++ ys) ≡ xs ++ splice (o - length xs) n src ys
  splice_behind o n src xs ys h =
      ap₂ ◌++◌ (take-append_ge o xs ys h) (
        ap (λ t. take n src ++ t)
          (drop-append_ge (o + n) xs ys (omega arith) ∙ ap (λ k. drop k ys) (omega arith)))
      ∙ append_assoc xs _ _

  -- Within the first part, the second stays.
  pub splice_within :
      (o n : ℕ) (src xs ys : List A)
      → o + n ≤ length xs
      → splice o n src (xs ++ ys) ≡ splice o n src xs ++ ys
  splice_within o n src xs ys h =
      rw (take-append_le o xs ys (omega arith), drop-append_le (o + n) xs ys h) (simp append_assoc)

  -- Across the border, each part gets its share.
  pub splice_across :
      (o n : ℕ) (src xs ys : List A)
      → o ≤ length xs
      → length xs ≤ o + n
      → splice o n src (xs ++ ys)
        ≡ splice o (length xs - o) src xs
          ++ splice 0 (n - (length xs - o)) (drop (length xs - o) src) ys
  splice_across o n src xs ys h k =
      let j : ℕ = length xs - o in
      let front : take o (xs ++ ys) ≡ take o xs = take-append_le o xs ys h in
      let behind : drop (o + n) (xs ++ ys) ≡ drop (n - j) ys =
        drop-append_ge (o + n) xs ys k ∙ ap (λ m. drop m ys) (omega arith) in
      let parts : take n src ≡ take j src ++ take (n - j) (drop j src) =
        ap (λ m. take m src) (omega arith) ∙ sym (take-add j (n - j) src) in
      let nothing : drop (o + j) xs ≡ [] = drop_all (o + j) xs (omega arith) in
      let rest : drop (0 + (n - j)) ys ≡ drop (n - j) ys = ap (λ m. drop m ys) (omega arith) in
      rw (front, behind, parts, nothing, rest) (simp (append_assoc, append-nil))

  -- What is taken of the first part and of the second makes up what is taken of both.
  pub take-min :
      (n : ℕ) (xs ys : List A)
      → take (min (length xs) n) xs ++ take (n - min (length xs) n) ys ≡ take n (xs ++ ys)
  take-min n xs ys = elim (dec_le (length xs) n) [
    | yes all ↦
        let chunk : min (length xs) n ≡ length xs = omega arith in
        rw (chunk, take-append_ge n xs ys all, take_all (length xs) xs (omega arith))
    | no part ↦
        let chunk : min (length xs) n ≡ n = omega arith in
        let none_left : n - n ≡ 0 = omega arith in
        rw (chunk, none_left, take-append_le n xs ys (omega arith), append-nil)
  ]

  -- The same for what is overwritten, from offset `o` of the first part on.
  pub splice-min :
      (o n c : ℕ) (src xs ys : List A)
      → o ≤ length xs
      → c ≡ min (length xs - o) n
      → splice o c src xs ++ splice 0 (n - c) (drop c src) ys ≡ splice o n src (xs ++ ys)
  splice-min o n c src xs ys h e = elim (dec_le (length xs) (o + n)) [
    | yes all ↦
        let chunk : c ≡ length xs - o = omega arith in
        rw chunk (sym (splice_across o n src xs ys h all))
    | no part ↦
        let chunk : c ≡ n = omega arith in
        let none_left : n - n ≡ 0 = omega arith in
        rw (chunk, none_left, splice_within o n src xs ys (omega arith))
  ]
