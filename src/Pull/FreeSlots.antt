-- ===== src/Pull/FreeSlots.antt =====
-- driver/linux/omx_pull.c: the list of the free slots of the table of pull handles.
use xen2mx.Base.{
  ℕ, zero, suc, ◌+◌, ◌≤◌, ◌<◌, ◌≡◌, ◌≢◌, refl, sym, ap, ◌∙◌, List, [], ◌∷◌, ◌++◌, none, some, arith,
  update, update_ne, NotIn, Distinct,
}
use xen2mx.Pull.Slots.{HandleSlot, index_max, count_from, slots_init}

pub none-ne-some : {A : Type 0} {x : A} → none ≡ some x → ⊥
none-ne-some e = ground arith

abbrev pub Below : List ℕ → Type 0
Below [] = Unit {0}
Below (i ∷ is) = (i < index_max) × Below is

-- These slots hold no handle.
abbrev pub AllEmpty : (ℕ → HandleSlot) → List ℕ → Type 0
AllEmpty a [] = Unit {0}
AllEmpty a (i ∷ is) = ((a i).handle ≡ none) × AllEmpty a is

pub Below-append : (is : List ℕ) (i : ℕ) → Below is → i < index_max → Below (is ++ (i ∷ []))
Below-append [] i b l = (l, tt)
Below-append (j ∷ is) i b l = (b.0, Below-append is i b.1 l)

pub NotIn-append : (i j : ℕ) (is : List ℕ) → NotIn i is → i ≢ j → NotIn i (is ++ (j ∷ []))
NotIn-append i j [] n e = (e, tt)
NotIn-append i j (k ∷ is) n e = (n.0, NotIn-append i j is n.1 e)

pub Distinct-append : (is : List ℕ) (i : ℕ) → Distinct is → NotIn i is → Distinct (is ++ (i ∷ []))
Distinct-append [] i d n = (tt, tt)
Distinct-append (j ∷ is) i d n =
    (NotIn-append j i is d.0 (λ p. n.0 (sym p)), Distinct-append is i d.1 n.1)

-- A slot with a handle is not among slots that hold none.
pub AllEmpty-NotIn :
    (a : ℕ → HandleSlot) (i handle : ℕ) (is : List ℕ)
    → (a i).handle ≡ some handle
    → AllEmpty a is
    → NotIn i is
AllEmpty-NotIn a i handle [] e f = tt
AllEmpty-NotIn a i handle (j ∷ is) e f = (
  λ p. none-ne-some (sym f.0 ∙ ap (λ k. (a k).handle) (sym p) ∙ e),
  AllEmpty-NotIn a i handle is e f.1,
)

pub AllEmpty-update :
    (a : ℕ → HandleSlot) (i : ℕ) (s : HandleSlot) (is : List ℕ)
    → NotIn i is
    → AllEmpty a is
    → AllEmpty (update a i s) is
AllEmpty-update a i s [] n f = tt
AllEmpty-update a i s (j ∷ is) n f = (
  ap (λ (t : HandleSlot). t.handle) (update_ne a i j s n.0) ∙ f.0,
  AllEmpty-update a i s is n.1 f.1,
)

pub AllEmpty-append :
    (a : ℕ → HandleSlot) (i : ℕ) (is : List ℕ)
    → AllEmpty a is
    → (a i).handle ≡ none
    → AllEmpty a (is ++ (i ∷ []))
AllEmpty-append a i [] f e = (e, tt)
AllEmpty-append a i (j ∷ is) f e = (f.0, AllEmpty-append a i is f.1 e)

pub count_from-Below : (i n : ℕ) → i + n ≤ index_max → Below (count_from i n)
count_from-Below i zero l = tt
count_from-Below i (suc n) l = (omega (arith, l), count_from-Below (suc i) n (omega (arith, l)))

pub count_from-NotIn : (i j n : ℕ) → i < j → NotIn i (count_from j n)
count_from-NotIn i j zero l = tt
count_from-NotIn i j (suc n) l =
    (λ p. omega (arith, p, l), count_from-NotIn i (suc j) n (omega (arith, l)))

pub count_from-Distinct : (i n : ℕ) → Distinct (count_from i n)
count_from-Distinct i zero = tt
count_from-Distinct i (suc n) =
    (count_from-NotIn i (suc i) n (omega arith), count_from-Distinct (suc i) n)

pub init-AllEmpty : (is : List ℕ) → AllEmpty slots_init.array is
init-AllEmpty [] = tt
init-AllEmpty (i ∷ is) = (refl, init-AllEmpty is)
