-- ===== src/Medium/Marks.antt =====
-- libxen2mx/omx_recv.c: the mask of the fragments received, and the bytes at a place of a buffer.
use xen2mx.Base.{
  ℕ, zero, suc, ◌+◌, ◌-◌, ◌*◌, ◌≤◌, ◌<◌, ◌≡◌, ◌≢◌, refl, ap, ◌∙◌, min, List, [], ◌∷◌, ◌++◌, Option,
  none, some, Bool, true, false, arith, if◌then◌else◌, length, take, drop, splice, is_set, zeros,
  length-take_le,
}
use native.Mathlib.Decide.{dec_lt}
use xen2mx.Medium.{set_bit}

pub is_set-set_bit_self :
    (k : ℕ) (bits : List Bool) → k < length bits → is_set k (set_bit k bits) ≡ true
is_set-set_bit_self k [] l = absurd (omega arith)
is_set-set_bit_self zero (b ∷ bits) l = refl
is_set-set_bit_self (suc k) (b ∷ bits) l = is_set-set_bit_self k bits (omega (arith, l))

pub is_set-set_bit_ne :
    (j k : ℕ) (bits : List Bool) → j ≢ k → is_set j (set_bit k bits) ≡ is_set j bits
is_set-set_bit_ne j k [] h = refl
is_set-set_bit_ne zero zero (b ∷ bits) h = absurd (h refl)
is_set-set_bit_ne zero (suc k) (b ∷ bits) h = refl
is_set-set_bit_ne (suc j) zero (b ∷ bits) h = refl
is_set-set_bit_ne (suc j) (suc k) (b ∷ bits) h = is_set-set_bit_ne j k bits (λ e. h (ap suc e))

pub length-set_bit : (k : ℕ) (bits : List Bool) → length (set_bit k bits) ≡ length bits
length-set_bit k [] = refl
length-set_bit zero (b ∷ bits) = refl
length-set_bit (suc k) (b ∷ bits) = ap suc (length-set_bit k bits)

pub is_set-zeros : (j n : ℕ) → is_set j (zeros n) ≡ false
is_set-zeros j zero = refl
is_set-zeros zero (suc n) = refl
is_set-zeros (suc j) (suc n) = is_set-zeros j n

-- The length of fragment k of a message of `len` bytes.
abbrev pub chunk_of : ℕ → ℕ → ℕ
chunk_of len k = min 4096 (len - 4096 * k)

-- The lengths of the first n fragments that are marked, added up.
abbrev pub received_total : ℕ → ℕ → List Bool → ℕ
received_total len zero bits = 0
received_total len (suc n) bits =
    received_total len n bits + (if is_set n bits then chunk_of len n else 0)

pub received_total_le :
    (len n : ℕ) (bits : List Bool) → received_total len n bits ≤ min len (4096 * n)
received_total_le len zero bits = omega arith
received_total_le len (suc n) bits = ground (arith, received_total_le len n bits)

-- A fragment that is not marked is not counted.
pub received_total-lt :
    (len n k : ℕ) (bits : List Bool)
    → k < n
    → 4096 * k < len
    → is_set k bits ≡ false
    → received_total len n bits < min len (4096 * n)
received_total-lt len zero k bits l m e = absurd (omega (arith, l))
received_total-lt len (suc n) k bits l m e = elim (dec_lt k n) [
  | yes p ↦ ground (arith, received_total-lt len n k bits p m e)
  | no p ↦ let q : k ≡ n = omega (arith, l, p) in ground (arith, q, e, received_total_le len n bits)
]

pub received_total-all :
    (len n : ℕ) (bits : List Bool)
    → ((k : ℕ) → k < n → 4096 * k < len → is_set k bits ≡ true)
    → received_total len n bits ≡ min len (4096 * n)
received_total-all len zero bits a = omega arith
received_total-all len (suc n) bits a =
    let ih : received_total len n bits ≡ min len (4096 * n) =
      received_total-all len n bits (λ k l. a k (omega (arith, l))) in
    elim (dec_lt (4096 * n) len) [
      | yes p ↦ rw (a n (omega arith) p) (omega (arith, ih))
      | no p ↦ ground (arith, ih, p)
    ]

received_total-other :
    (len n k : ℕ) (bits : List Bool)
    → n ≤ k
    → received_total len n (set_bit k bits) ≡ received_total len n bits
received_total-other len zero k bits l = refl
received_total-other len (suc n) k bits l =
    rw
      (
        is_set-set_bit_ne n k bits (λ e. omega (arith, e, l)),
        received_total-other len n k bits (omega (arith, l)),
      )
      refl

-- A mark more counts the length of its fragment.
pub received_total-set_bit :
    (len n k : ℕ) (bits : List Bool)
    → k < n
    → k < length bits
    → is_set k bits ≡ false
    → received_total len n (set_bit k bits) ≡ received_total len n bits + chunk_of len k
received_total-set_bit len zero k bits l w e = absurd (omega (arith, l))
received_total-set_bit len (suc n) k bits l w e = elim (dec_lt k n) [
  | yes p ↦
      rw (is_set-set_bit_ne n k bits (λ q. omega (arith, p, q)))
        (omega (arith, received_total-set_bit len n k bits p w e))
  | no p ↦
      let q : k ≡ n = omega (arith, l, p) in
      rw (← q, is_set-set_bit_self k bits w, e)
        (omega (arith, received_total-other len k k bits (omega arith)))
]

-- The byte at a place.
abbrev pub get_elem : ℕ → List ℕ → Option ℕ
get_elem j [] = none
get_elem zero (x ∷ xs) = some x
get_elem (suc j) (x ∷ xs) = get_elem j xs

get_elem-append_lt :
    (j : ℕ) (xs ys : List ℕ) → j < length xs → get_elem j (xs ++ ys) ≡ get_elem j xs
get_elem-append_lt j [] ys l = absurd (omega (arith, l))
get_elem-append_lt zero (x ∷ xs) ys l = refl
get_elem-append_lt (suc j) (x ∷ xs) ys l = get_elem-append_lt j xs ys (omega (arith, l))

get_elem-append_ge :
    (j : ℕ) (xs ys : List ℕ) → length xs ≤ j → get_elem j (xs ++ ys) ≡ get_elem (j - length xs) ys
get_elem-append_ge j [] ys l = ap (λ k. get_elem k ys) (omega arith)
get_elem-append_ge zero (x ∷ xs) ys l = absurd (omega (arith, l))
get_elem-append_ge (suc j) (x ∷ xs) ys l =
    get_elem-append_ge j xs ys (omega (arith, l)) ∙ ap (λ k. get_elem k ys) (omega arith)

pub get_elem-take : (j n : ℕ) (xs : List ℕ) → j < n → get_elem j (take n xs) ≡ get_elem j xs
get_elem-take j zero xs l = absurd (omega (arith, l))
get_elem-take j (suc n) [] l = refl
get_elem-take zero (suc n) (x ∷ xs) l = refl
get_elem-take (suc j) (suc n) (x ∷ xs) l = get_elem-take j n xs (omega (arith, l))

pub get_elem-drop : (j n : ℕ) (xs : List ℕ) → get_elem j (drop n xs) ≡ get_elem (n + j) xs
get_elem-drop j zero xs = ap (λ k. get_elem k xs) (omega arith)
get_elem-drop j (suc n) [] = refl
get_elem-drop j (suc n) (x ∷ xs) =
    get_elem-drop j n xs ∙ ap (λ k. get_elem k (x ∷ xs)) {x = suc (n + j)} (omega arith)

module _ (o n : ℕ) (src xs : List ℕ) (h : o + n ≤ length xs) (k : n ≤ length src) where
  pub get_elem-splice_within :
      (j : ℕ) → o ≤ j → j < o + n → get_elem j (splice o n src xs) ≡ get_elem (j - o) src
  get_elem-splice_within j a b =
      get_elem-append_ge j (take o xs) _ (omega (arith, length-take_le o xs, h, a))
      ∙ ap (λ m. get_elem (j - m) (take n src ++ drop (o + n) xs))
          (length-take_le o xs (omega (arith, h)))
      ∙ get_elem-append_lt (j - o) (take n src) _ (omega (arith, length-take_le n src k, a, b))
      ∙ get_elem-take (j - o) n src (omega (arith, a, b))

  pub get_elem-splice_before : (j : ℕ) → j < o → get_elem j (splice o n src xs) ≡ get_elem j xs
  get_elem-splice_before j a =
      get_elem-append_lt j (take o xs) _ (omega (arith, length-take_le o xs, h, a))
      ∙ get_elem-take j o xs a

  pub get_elem-splice_behind : (j : ℕ) → o + n ≤ j → get_elem j (splice o n src xs) ≡ get_elem j xs
  get_elem-splice_behind j a =
      let p : length (take o xs) ≡ o = length-take_le o xs (omega (arith, h)) in
      let q : length (take n src) ≡ n = length-take_le n src k in
      get_elem-append_ge j (take o xs) (take n src ++ drop (o + n) xs) (omega (arith, p, a))
      ∙ get_elem-append_ge (j - length (take o xs)) (take n src) (drop (o + n) xs)
          (omega (arith, p, q, a))
      ∙ get_elem-drop (j - length (take o xs) - length (take n src)) (o + n) xs
      ∙ ap (λ m. get_elem m xs) (omega (arith, p, q, a))
