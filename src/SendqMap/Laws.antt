-- ===== src/SendqMap/Laws.antt =====
-- What get and put of the send-queue map do to the free slots.
use xen2mx.Base.{
  Distinct, NotIn, ℕ, zero, suc, ◌+◌, ◌-◌, ◌≤◌, ◌<◌, ◌≡◌, refl, sym, List, [], ◌∷◌, Option, none,
  some, arith, update, update_self, update_ne, length, take, drop, ap, ◌∙◌, subst, ◌⊎◌, inl, inr,
  length-drop, length-append, ◌++◌, take-append-drop, ◌==◌, if◌then◌else◌, lt→ltb, le→ltb,
}
use native.Mathlib.Decide.{dec_lt}
use mathlib.Core.List.{Perm}
use xen2mx.SendqMap.{
  SendqMap, Entry, unavailable, got, Taken, taken, found, take_free, get, link_free, last_of, put,
  init, sendq_entry_nr,
}
use xen2mx.SendqMap.Chain.{
  AllInside, AllInside-take, AllInside-drop, AllInside-onto, NotIn-take, Disjoint, Disjoint-cons,
  Disjoint-take-drop, onto, onto-perm, length-onto, Distinct-onto, IsChain, IsFree, IsChain-update,
  Distinct-drop, Distinct-take,
}

-- The slots all have this user.
abbrev pub AllUsed : (ℕ → Entry) → ℕ → List ℕ → Type 0
AllUsed a user [] = Unit {0}
AllUsed a user (i ∷ is) = ((a i).user ≡ user) × AllUsed a user is

-- What the loop of get has done: the first nr free slots, now used, and the rest of the chain.
record Took (a : ℕ → Entry) (user nr : ℕ) (free : List ℕ) (out : Taken) : Type 0 where
  next : Option ℕ
  array : ℕ → Entry
  result : out ≡ taken (take nr free) next array
  rest : IsChain array next (drop nr free)
  used : AllUsed array user (take nr free)
  others : (j : ℕ) → NotIn j (take nr free) → array j ≡ a j

take_free-Took :
    (a : ℕ → Entry) (first : Option ℕ) (user nr : ℕ) (free : List ℕ)
    → IsChain a first free
    → Distinct free
    → AllInside free
    → nr ≤ length free
    → Took a user nr free (take_free a first user nr)
unfolding take_free
take_free-Took a first user zero free c d b h = record {
  next = first;
  array = a;
  result = refl;
  rest = c;
  used = tt;
  others = λ j n. refl;
}
take_free-Took a first user (suc nr) [] c d b h = absurd (omega arith)
take_free-Took a first user (suc nr) (i ∷ free) c d b h =
    let e : Entry = record (a i) { user = user } in
    let ih : Took (update a i e) user nr free (take_free (update a i e) (a i).next_free user nr) =
      take_free-Took (update a i e) (a i).next_free user nr free
        (IsChain-update a i e (a i).next_free free d.0 c.2) d.1 b.1 (omega arith) in
    rw (c.0, lt→ltb i sendq_entry_nr b.0)
      (record {
        next = ih.next;
        array = ih.array;
        result = ap (found i) ih.result;
        rest = ih.rest;
        used = (
          ap (λ (t : Entry). t.user) (ih.others i (NotIn-take i nr free d.0) ∙ update_self a i e),
          ih.used,
        );
        others = λ j n. ih.others j n.1 ∙ update_ne a i j e (λ p. n.0 (sym p));
      })

-- In a map with these free slots, where they are nr or more, get gives out the first nr of them,
-- all different, marks them with the user and leaves every other slot and the order of the rest
-- alone; where they are fewer it fails. The slots given out are below 1024, and the loop reads no
-- other slot.
pub get_lem :
    (m : SendqMap) (free : List ℕ) (nr user : ℕ)
    → IsFree m free
    → ((length free < nr) × (get m nr user ≡ unavailable))
      ⊎ ((nr ≤ length free)
          × ((m' : SendqMap) × (get m nr user ≡ got (take nr free) m')
              × IsFree m' (drop nr free)
              × Distinct (take nr free)
              × AllInside (take nr free)
              × AllUsed m'.array user (take nr free)
              × ((j : ℕ) → NotIn j (take nr free) → m'.array j ≡ m.array j)))
unfolding get
get_lem m free nr user v = elim (dec_lt m.nr_free nr) [
  | yes few ↦ inl (omega (arith, v.counted), rw (lt→ltb _ _ few))
  | no enough ↦
      let le : nr ≤ length free = omega (arith, v.counted) in
      let t : Took m.array user nr free (take_free m.array m.first_free user nr) =
        take_free-Took m.array m.first_free user nr free v.chain v.distinct v.inside le in
      inr (
        le,
        (
          record { array = t.array; first_free = t.next; nr_free = m.nr_free - nr },
          rw (le→ltb m.nr_free nr (omega arith), t.result),
          record {
            chain = t.rest;
            distinct = Distinct-drop nr free v.distinct;
            inside = AllInside-drop nr free v.inside;
            counted = omega (arith, v.counted, length-drop {0} nr free);
          },
          Distinct-take nr free v.distinct,
          AllInside-take nr free v.inside,
          t.used,
          t.others,
        ),
      )
]

abbrev end_of : Option ℕ → List ℕ → Option ℕ
end_of prev [] = prev
end_of prev (i ∷ is) = end_of (some i) is

end_of-eq-last_of : (i : ℕ) (is : List ℕ) → end_of (some i) is ≡ some (last_of i is)
end_of-eq-last_of i [] = refl
end_of-eq-last_of i (j ∷ js) = end_of-eq-last_of j js

link_free-IsChain :
    (a : ℕ → Entry) (prev : Option ℕ) (is free : List ℕ)
    → IsChain a prev free
    → Distinct is
    → Disjoint is free
    → IsChain (link_free a prev is) (end_of prev is) (onto is free)
unfolding link_free
link_free-IsChain a prev [] free c d j = c
link_free-IsChain a prev (i ∷ is) free c d j =
    let e : Entry = record { next_free = prev; user = 0 } in
    let same : update a i e i ≡ e = update_self a i e in
    link_free-IsChain (update a i e) (some i) is (i ∷ free)
      (
        refl,
        ap (λ (t : Entry). t.user) same,
        subst (λ (t : Entry). IsChain (update a i e) t.next_free free) (sym same)
            (IsChain-update a i e prev free j.0 c),
      )
      d.1 (Disjoint-cons i is free d.0 j.1)

-- put makes different slots of the array that are not free free again, the last one first, in front of those
-- that were free.
pub put-IsFree :
    (m : SendqMap) (i : ℕ) (is free : List ℕ)
    → IsFree m free
    → Distinct (i ∷ is)
    → Disjoint (i ∷ is) free
    → AllInside (i ∷ is)
    → IsFree (put m i is) (onto (i ∷ is) free)
unfolding put
put-IsFree m i is free v d j b = record {
  chain =
      subst (λ first. IsChain (link_free m.array m.first_free (i ∷ is)) first (onto (i ∷ is) free))
        (end_of-eq-last_of i is) (link_free-IsChain m.array m.first_free (i ∷ is) free v.chain d j);
  distinct = Distinct-onto (i ∷ is) free d v.distinct j;
  inside = AllInside-onto (i ∷ is) free b v.inside;
  counted = omega (arith, v.counted, length-onto (i ∷ is) free);
}

got_list : {is js : List ℕ} {m m' : SendqMap} → got is m ≡ got js m' → is ≡ js
got_list h = ground arith

got_map : {is js : List ℕ} {m m' : SendqMap} → got is m ≡ got js m' → m ≡ m'
got_map h = ground arith

-- In a well-formed map, slots that get gave out, one at least, go back by put: the map is well
-- formed again, has as many free slots as before, and the same ones up to order.
pub get-put :
    (m m' : SendqMap) (free : List ℕ) (nr user i : ℕ) (is : List ℕ)
    → IsFree m free
    → get m nr user ≡ got (i ∷ is) m'
    → (free' : List ℕ) × IsFree (put m' i is) free'
      × Perm free' free
      × ((put m' i is).nr_free ≡ m.nr_free)
get-put m m' free nr user i is v h = elim (get_lem m free nr user v) [
  | inl (few, e) ↦ cc
  | inr (le, (m₁, e, v₁, d, b, u, o)) ↦
      let same : take nr free ≡ i ∷ is = got_list (sym e ∙ h) in
      let again : IsFree m' (drop nr free) =
        subst (λ t. IsFree t (drop nr free)) (got_map (sym e ∙ h)) v₁ in
      let back : IsFree (put m' i is) (onto (i ∷ is) (drop nr free)) =
        put-IsFree m' i is (drop nr free) again (subst Distinct same d)
          (subst (λ t. Disjoint t (drop nr free)) same (Disjoint-take-drop nr free v.distinct))
          (subst AllInside same b) in
      let all : (i ∷ is) ++ drop nr free ≡ free =
        ap (λ t. t ++ drop nr free) (sym same) ∙ take-append-drop nr free in
      (
        onto (i ∷ is) (drop nr free),
        back,
        subst (Perm (onto (i ∷ is) (drop nr free))) all (onto-perm (i ∷ is) (drop nr free)),
        omega (
          arith,
          back.counted,
          v.counted,
          length-onto (i ∷ is) (drop nr free),
          ap length all,
          length-append (i ∷ is) (drop nr free),
        ),
      )
]

-- The slots from i on, n of them.
pub slots_from : ℕ → ℕ → List ℕ
slots_from i zero = []
slots_from i (suc n) = i ∷ slots_from (i + 1) n

NotIn-slots_from : (i j n : ℕ) → i < j → NotIn i (slots_from j n)
unfolding slots_from
NotIn-slots_from i j zero h = tt
NotIn-slots_from i j (suc n) h = (omega arith, NotIn-slots_from i (j + 1) n (omega arith))

Distinct-slots_from : (i n : ℕ) → Distinct (slots_from i n)
unfolding slots_from
Distinct-slots_from i zero = tt
Distinct-slots_from i (suc n) =
    (NotIn-slots_from i (i + 1) n (omega arith), Distinct-slots_from (i + 1) n)

length-slots_from : (i n : ℕ) → length (slots_from i n) ≡ n
unfolding slots_from
length-slots_from i zero = refl
length-slots_from i (suc n) = ap suc (length-slots_from (i + 1) n)

AllInside-slots_from : (i n : ℕ) → i + n ≤ sendq_entry_nr → AllInside (slots_from i n)
unfolding slots_from
AllInside-slots_from i zero h = tt
AllInside-slots_from i (suc n) h = (omega arith, AllInside-slots_from (i + 1) n (omega arith))

init-IsChain :
    (i n : ℕ)
    → i + n ≡ sendq_entry_nr
    → IsChain init.array (if i == sendq_entry_nr then none else some i) (slots_from i n)
unfolding init slots_from
init-IsChain i zero h = ground arith
init-IsChain i (suc n) h =
    let step : (if i + 1 == sendq_entry_nr then none else some (i + 1)) ≡ (init.array i).next_free =
      ground arith in
    (
      ground arith,
      refl,
      subst (λ first. IsChain init.array first (slots_from (i + 1) n)) step
          (init-IsChain (i + 1) n (omega arith)),
    )

-- The initial map has all 1024 slots free, in order.
pub init-IsFree : IsFree init (slots_from 0 sendq_entry_nr)
unfolding init
init-IsFree = record {
  chain = init-IsChain 0 sendq_entry_nr (omega arith);
  distinct = Distinct-slots_from 0 sendq_entry_nr;
  inside = AllInside-slots_from 0 sendq_entry_nr (omega arith);
  counted = sym (length-slots_from 0 sendq_entry_nr);
}
