-- ===== src/SendqMap/Chain.antt =====
-- The free list of the send-queue map as a list of indices.
use xen2mx.Base.{
  Distinct, NotIn, ℕ, zero, suc, ◌+◌, ◌<◌, ◌≡◌, sym, List, [], ◌∷◌, ◌++◌, Option, none, some, arith,
  update, update_ne, length, take, drop, ap, ◌∙◌, subst,
}
use mathlib.Core.List.{Perm, perm_middle}
use mathlib.Core.List.Perm
use xen2mx.SendqMap.{SendqMap, Entry, sendq_entry_nr}

-- From `first` on, the links lead through these slots, which have no user, and end.
abbrev pub IsChain : (ℕ → Entry) → Option ℕ → List ℕ → Type 0
IsChain a first [] = first ≡ none
IsChain a first (i ∷ is) = (first ≡ some i) × ((a i).user ≡ 0) × IsChain a (a i).next_free is

-- Slots of the array, which has 1024 of them.
abbrev pub AllInside : List ℕ → Type 0
AllInside [] = Unit {0}
AllInside (i ∷ is) = (i < sendq_entry_nr) × AllInside is

pub AllInside-take : (n : ℕ) (xs : List ℕ) → AllInside xs → AllInside (take n xs)
AllInside-take zero xs h = tt
AllInside-take (suc n) [] h = tt
AllInside-take (suc n) (x ∷ xs) h = (h.0, AllInside-take n xs h.1)

pub AllInside-drop : (n : ℕ) (xs : List ℕ) → AllInside xs → AllInside (drop n xs)
AllInside-drop zero xs h = h
AllInside-drop (suc n) [] h = h
AllInside-drop (suc n) (x ∷ xs) h = AllInside-drop n xs h.1

-- `free` are the free slots, in the order in which they will be given out.
pub record IsFree (m : SendqMap) (free : List ℕ) : Type 0 where
  pub chain : IsChain m.array m.first_free free
  pub distinct : Distinct free
  pub inside : AllInside free
  pub counted : m.nr_free ≡ length free

-- A write outside the chain leaves it as it was.
pub IsChain-update :
    (a : ℕ → Entry) (i : ℕ) (e : Entry) (first : Option ℕ) (free : List ℕ)
    → NotIn i free
    → IsChain a first free
    → IsChain (update a i e) first free
IsChain-update a i e first [] n c = c
IsChain-update a i e first (j ∷ js) n c =
    let same : update a i e j ≡ a j = update_ne a i j e n.0 in
    (
      c.0,
      ap (λ (t : Entry). t.user) same ∙ c.1,
      subst (λ (t : Entry). IsChain (update a i e) t.next_free js) (sym same)
          (IsChain-update a i e (a j).next_free js n.1 c.2),
    )

pub NotIn-take : (i n : ℕ) (xs : List ℕ) → NotIn i xs → NotIn i (take n xs)
NotIn-take i zero xs h = tt
NotIn-take i (suc n) [] h = tt
NotIn-take i (suc n) (x ∷ xs) h = (h.0, NotIn-take i n xs h.1)

pub NotIn-drop : (i n : ℕ) (xs : List ℕ) → NotIn i xs → NotIn i (drop n xs)
NotIn-drop i zero xs h = h
NotIn-drop i (suc n) [] h = h
NotIn-drop i (suc n) (x ∷ xs) h = NotIn-drop i n xs h.1

pub Distinct-drop : (n : ℕ) (xs : List ℕ) → Distinct xs → Distinct (drop n xs)
Distinct-drop zero xs h = h
Distinct-drop (suc n) [] h = h
Distinct-drop (suc n) (x ∷ xs) h = Distinct-drop n xs h.1

pub Distinct-take : (n : ℕ) (xs : List ℕ) → Distinct xs → Distinct (take n xs)
Distinct-take zero xs h = tt
Distinct-take (suc n) [] h = h
Distinct-take (suc n) (x ∷ xs) h = (NotIn-take x n xs h.0, Distinct-take n xs h.1)

abbrev pub Disjoint : List ℕ → List ℕ → Type 0
Disjoint [] ys = Unit {0}
Disjoint (x ∷ xs) ys = NotIn x ys × Disjoint xs ys

pub Disjoint-cons : (i : ℕ) (xs ys : List ℕ) → NotIn i xs → Disjoint xs ys → Disjoint xs (i ∷ ys)
Disjoint-cons i [] ys n d = tt
Disjoint-cons i (x ∷ xs) ys n d = ((λ p. n.0 (sym p), d.0), Disjoint-cons i xs ys n.1 d.1)

-- One after the other in front of `free`.
abbrev pub onto : List ℕ → List ℕ → List ℕ
onto [] free = free
onto (i ∷ is) free = onto is (i ∷ free)

pub AllInside-onto : (is free : List ℕ) → AllInside is → AllInside free → AllInside (onto is free)
AllInside-onto [] free h f = f
AllInside-onto (i ∷ is) free h f = AllInside-onto is (i ∷ free) h.1 (h.0, f)

pub length-onto : (is free : List ℕ) → length (onto is free) ≡ length is + length free
length-onto [] free = omega arith
length-onto (i ∷ is) free = omega (arith, length-onto is (i ∷ free))

pub onto-perm : (is free : List ℕ) → Perm (onto is free) (is ++ free)
onto-perm [] free = Perm.refl free
onto-perm (i ∷ is) free = Perm.trans (onto-perm is (i ∷ free)) (perm_middle is free)

pub Distinct-onto :
    (is free : List ℕ) → Distinct is → Distinct free → Disjoint is free → Distinct (onto is free)
Distinct-onto [] free d f j = f
Distinct-onto (i ∷ is) free d f j =
    Distinct-onto is (i ∷ free) d.1 (j.0, f) (Disjoint-cons i is free d.0 j.1)

pub Disjoint-take-drop : (n : ℕ) (xs : List ℕ) → Distinct xs → Disjoint (take n xs) (drop n xs)
Disjoint-take-drop zero xs d = tt
Disjoint-take-drop (suc n) [] d = tt
Disjoint-take-drop (suc n) (x ∷ xs) d = (NotIn-drop x n xs d.0, Disjoint-take-drop n xs d.1)
