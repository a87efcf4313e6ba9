-- ===== src/Pull/Table.antt =====
-- driver/linux/omx_pull.c: the table of pull handles as a map from ids to handles.
use xen2mx.Base.{
  ℕ, suc, ◌+◌, ◌*◌, ◌/◌, ◌%◌, ◌^◌, ◌<◌, ◌≡◌, ◌≢◌, ◌⊎◌, inl, inr, refl, sym, ap, ◌∙◌, List, [], ◌∷◌,
  Option, none, some, Bool, true, false, arith, leb, ◌==◌, if◌then◌else◌, update, update_self,
  update_ne, eq→==, NotIn, Distinct, ne→==, le→leb, gt→leb, subst,
}
use native.Mathlib.Decide.{dec_lt, ℕ_discrete}
use xen2mx.Pull.Slots.{
  HandleSlot, SlotTable, index_max, generations, id_inc, index_from_id, count_from, slots_init,
  alloc_slot, free_slot, acquire_from_slot, SlotStep, begin, end, begun, run, ends_of,
}
use xen2mx.Pull.FreeSlots.{
  none-ne-some, Below, AllEmpty, Below-append, Distinct-append, AllEmpty-NotIn, AllEmpty-update,
  AllEmpty-append, count_from-Below, count_from-Distinct, init-AllEmpty,
}

-- The index of each slot is that of its id; a new id keeps the handle of the slot.
slot-id :
    (a : ℕ → HandleSlot) (i j : ℕ) (s : HandleSlot)
    → s.id ≡ (a i).id
    → (update a i s j).id ≡ (a j).id
slot-id a i j s e = elim (ℕ_discrete i j) [
  | yes p ↦ rw (← p, update_self a i s) e
  | no q ↦ ap (λ (t : HandleSlot). t.id) (update_ne a i j s q)
]

alloc_slot-id :
    (handle i : ℕ) (t : SlotTable) → ((begun (alloc_slot handle t) t).array i).id ≡ (t.array i).id
unfolding alloc_slot
alloc_slot-id handle i t =
    elim t.free_list
      as (λ f.
        ((begun (alloc_slot handle (record t { free_list = f })) t).array i).id ≡ (t.array i).id) [
          | [] ↦ refl
          | j ∷ rest ↦ slot-id t.array j i (record (t.array j) { handle = some handle }) refl
        ]

free_slot-id_self :
    (slot_id : ℕ) (t : SlotTable)
    → ((free_slot slot_id t).array (index_from_id slot_id)).id
      ≡ id_inc (t.array (index_from_id slot_id)).id
unfolding free_slot
free_slot-id_self slot_id t =
    ap (λ (s : HandleSlot). s.id) (update_self t.array (index_from_id slot_id) _)

free_slot-id_ne :
    (slot_id i : ℕ) (t : SlotTable)
    → index_from_id slot_id ≢ i
    → (free_slot slot_id t).array i ≡ t.array i
unfolding free_slot
free_slot-id_ne slot_id i t e = update_ne t.array (index_from_id slot_id) i _ e

-- The id of a slot counts how often the slot was given back.
run-id :
    (steps : List SlotStep) (t : SlotTable) (i : ℕ)
    → (t.array i).id < 2 ^ 32
    → ((run steps t).array i).id
      ≡ (t.array i).id / generations * generations
        + ((t.array i).id % generations + ends_of i steps) % generations
unfolding run
run-id [] t i b = omega arith
run-id (begin handle ∷ steps) t i b =
    let same : ((begun (alloc_slot handle t) t).array i).id ≡ (t.array i).id =
      alloc_slot-id handle i t in
    let ih = run-id steps (begun (alloc_slot handle t) t) i (omega (arith, same, b)) in
    ih
    ∙ ap (λ n. n / generations * generations + (n % generations + ends_of i steps) % generations)
        same
run-id (end slot_id ∷ steps) t i b = elim (ℕ_discrete (index_from_id slot_id) i) [
  | yes p ↦
      let next : ((free_slot slot_id t).array i).id ≡ id_inc (t.array i).id =
        subst (λ j. ((free_slot slot_id t).array j).id ≡ id_inc (t.array j).id) p
          (free_slot-id_self slot_id t) in
      let ih = run-id steps (free_slot slot_id t) i (omega (arith, next, b)) in
      rw (eq→== (index_from_id slot_id) i p) (omega (arith, ih, next, b))
  | no q ↦
      let same : ((free_slot slot_id t).array i).id ≡ (t.array i).id =
        ap (λ (s : HandleSlot). s.id) (free_slot-id_ne slot_id i t q) in
      let ih = run-id steps (free_slot slot_id t) i (omega (arith, same, b)) in
      rw (ne→== (index_from_id slot_id) i q) (
        ih
        ∙ ap
            (λ n. n / generations * generations + (n % generations + ends_of i steps) % generations)
            same)
]

cons-ne-nil : {i : ℕ} {is : List ℕ} → i ∷ is ≡ [] → ⊥
cons-ne-nil e = ground arith

if-same : {A : Type 0} (b : Bool) (x : A) → (if b then x else x) ≡ x
if-same true x = refl
if-same false x = refl

acquire-other :
    (slot_id : ℕ) (t : SlotTable)
    → (t.array (index_from_id slot_id)).id ≢ slot_id
    → acquire_from_slot slot_id t ≡ none
unfolding acquire_from_slot
acquire-other slot_id t e =
    rw (ne→== slot_id (t.array (index_from_id slot_id)).id (λ p. e (sym p)))
      (if-same (leb index_max (index_from_id slot_id)) none)

-- After the slot of a handle is given back, its id finds no handle, whatever begins and ends
-- then, as long as the slot is given back fewer than 2 ^ 22 - 1 times more.
pub acquire_from_slot-stale :
    (t : SlotTable) (slot_id : ℕ) (steps : List SlotStep)
    → slot_id < 2 ^ 32
    → (t.array (index_from_id slot_id)).id ≡ slot_id
    → suc (ends_of (index_from_id slot_id) steps) < 2 ^ 22
    → acquire_from_slot slot_id (run steps (free_slot slot_id t)) ≡ none
acquire_from_slot-stale t slot_id steps b e few =
    let next = free_slot-id_self slot_id t in
    let now =
      run-id steps (free_slot slot_id t) (index_from_id slot_id) (omega (arith, next, e, b)) in
    acquire-other slot_id (run steps (free_slot slot_id t))
      (λ p. omega (arith, p, now, next, e, few, b))

-- Each slot's id carries its index, and the free slots are slots of the array, each once, that hold
-- no handle.
pub record IsTable (t : SlotTable) : Type 0 where
  pub numbered : (i : ℕ) → i < index_max → index_from_id (t.array i).id ≡ i
  pub below : Below t.free_list
  pub once : Distinct t.free_list
  pub empty : AllEmpty t.array t.free_list

acquire-own :
    (slot_id : ℕ) (t : SlotTable)
    → index_from_id slot_id < index_max
    → (t.array (index_from_id slot_id)).id ≡ slot_id
    → acquire_from_slot slot_id t ≡ (t.array (index_from_id slot_id)).handle
unfolding acquire_from_slot
acquire-own slot_id t l e =
    rw (gt→leb _ _ l, eq→== slot_id (t.array (index_from_id slot_id)).id (sym e)) refl

-- Where the slot of an id is the same in two tables, so is what the id finds.
acquire-same :
    (slot_id : ℕ) (t u : SlotTable)
    → u.array (index_from_id slot_id) ≡ t.array (index_from_id slot_id)
    → acquire_from_slot slot_id u ≡ acquire_from_slot slot_id t
unfolding acquire_from_slot
acquire-same slot_id t u e = rw e refl

acquire-no_handle :
    (slot_id : ℕ) (t : SlotTable)
    → (t.array (index_from_id slot_id)).handle ≡ none
    → acquire_from_slot slot_id t ≡ none
unfolding acquire_from_slot
acquire-no_handle slot_id t e =
    rw (e, if-same {A = Option ℕ} (slot_id == (t.array (index_from_id slot_id)).id) none)
      (if-same (leb index_max (index_from_id slot_id)) none)

pub slots_init-IsTable : IsTable slots_init
slots_init-IsTable = record {
  numbered = λ i l. omega (arith, l);
  below = count_from-Below 0 index_max (omega arith);
  once = count_from-Distinct 0 index_max;
  empty = init-AllEmpty (count_from 0 index_max);
}

-- What an id finds that finds a handle.
acquire-found :
    (slot_id handle : ℕ) (t : SlotTable)
    → acquire_from_slot slot_id t ≡ some handle
    → (index_from_id slot_id < index_max) × ((t.array (index_from_id slot_id)).id ≡ slot_id)
unfolding acquire_from_slot
acquire-found slot_id handle t e = elim (dec_lt (index_from_id slot_id) index_max) [
  | no q ↦ absurd (
      none-ne-some (
        sym (
          ap
            (λ b.
              if b
              then none
              else if slot_id == (t.array (index_from_id slot_id)).id
              then (t.array (index_from_id slot_id)).handle
              else none)
            (le→leb index_max (index_from_id slot_id) (omega (arith, q))))
        ∙ e))
  | yes l ↦ elim (ℕ_discrete (t.array (index_from_id slot_id)).id slot_id) [
    | yes p ↦ (l, p)
    | no q ↦ absurd (none-ne-some (sym (acquire-other slot_id t q) ∙ e))
  ]
]

-- A slot written with an id of the same index.
written-numbered :
    (t : SlotTable) (i : ℕ) (s : HandleSlot)
    → IsTable t
    → index_from_id s.id ≡ index_from_id (t.array i).id
    → (j : ℕ) → j < index_max
    → index_from_id (update t.array i s j).id ≡ j
written-numbered t i s v e j l = elim (ℕ_discrete i j) [
  | yes p ↦ rw (← p, update_self t.array i s) (e ∙ v.numbered i (omega (arith, p, l)))
  | no q ↦ rw (update_ne t.array i j s q) (v.numbered j l)
]

-- The first free slot has the handle now, and is no longer free.
pub record Allocated (handle : ℕ) (t t' : SlotTable) (id : ℕ) : Type 0 where
  pub table : IsTable t'
  pub was_first : t.free_list ≡ index_from_id id ∷ t'.free_list
  pub not_free : NotIn (index_from_id id) t'.free_list
  pub found_nothing : acquire_from_slot id t ≡ none
  pub finds : acquire_from_slot id t' ≡ some handle
  pub others : (other : ℕ) → other ≢ id → acquire_from_slot other t' ≡ acquire_from_slot other t

-- The two cases of alloc_slot, by the list of free slots.
alloc_slot-at :
    (handle : ℕ) (t : SlotTable)
    → IsTable t
    → (free_list : List ℕ) → t.free_list ≡ free_list
    → ((t.free_list ≡ []) × (alloc_slot handle t ≡ none))
      ⊎ ((t.free_list ≢ [])
          × ((id : ℕ) × (t' : SlotTable) × (alloc_slot handle t ≡ some (id, t'))
              × Allocated handle t t' id))
unfolding alloc_slot
alloc_slot-at handle t v [] e = inl (e, rw e refl)
alloc_slot-at handle t v (i ∷ rest) e =
    let s : HandleSlot = record (t.array i) { handle = some handle } in
    let t' : SlotTable = record { array = update t.array i s; free_list = rest } in
    let b : Below (i ∷ rest) = subst Below e v.below in
    let here : index_from_id (t.array i).id ≡ i = v.numbered i b.0 in
    let self : t'.array (index_from_id (t.array i).id) ≡ s = rw here (update_self t.array i s) in
    let d : Distinct (i ∷ rest) = subst Distinct e v.once in
    let f : AllEmpty t.array (i ∷ rest) = subst (AllEmpty t.array) e v.empty in
    inr (
      (λ z. cons-ne-nil (sym e ∙ z)),
      (
        (t.array i).id,
        t',
        rw e refl,
        record {
          table = record {
            numbered = written-numbered t i s v refl;
            below = b.1;
            once = d.1;
            empty = AllEmpty-update t.array i s rest d.0 f.1;
          };
          was_first = e ∙ ap (λ j. j ∷ rest) (sym here);
          not_free = subst (λ j. NotIn j rest) (sym here) d.0;
          found_nothing =
              acquire-no_handle (t.array i).id t (ap (λ j. (t.array j).handle) here ∙ f.0);
          finds =
              acquire-own (t.array i).id t' (omega (arith, here, b.0))
                (ap (λ (u : HandleSlot). u.id) self)
              ∙ ap (λ (u : HandleSlot). u.handle) self;
          others = λ other ne. elim (ℕ_discrete i (index_from_id other)) [
            | no q ↦ acquire-same other t t' (update_ne t.array i (index_from_id other) s q)
            | yes p ↦
                acquire-other other t' (λ z. ne (
                  sym z
                  ∙ ap (λ (u : HandleSlot). u.id) (ap t'.array (sym p) ∙ update_self t.array i s)))
                ∙ sym (acquire-other other t (λ z. ne (sym z ∙ ap (λ j. (t.array j).id) (sym p))))
          ];
        },
      ),
    )

-- In a table whose ids carry their index and whose free slots differ and hold no handle: without a
-- free slot, alloc_slot fails. Else the first free slot, and no other, leaves the list of free
-- slots, the id that alloc_slot returns, which found nothing before, finds the handle, every other
-- id finds what it found before, and the table keeps its form.
pub alloc_slot_lem :
    (handle : ℕ) (t : SlotTable)
    → IsTable t
    → ((t.free_list ≡ []) × (alloc_slot handle t ≡ none))
      ⊎ ((t.free_list ≢ [])
          × ((id : ℕ) × (t' : SlotTable) × (alloc_slot handle t ≡ some (id, t'))
              × Allocated handle t t' id))
alloc_slot_lem handle t v = alloc_slot-at handle t v t.free_list refl

-- When the slot of an id that finds a handle is given back, the table keeps its form, the id finds
-- nothing more, and every other id finds what it found before.
pub free_slot_lem :
    (slot_id handle : ℕ) (t : SlotTable)
    → IsTable t
    → acquire_from_slot slot_id t ≡ some handle
    → IsTable (free_slot slot_id t)
      × (acquire_from_slot slot_id (free_slot slot_id t) ≡ none)
      × ((other : ℕ)
          → other ≢ slot_id
          → acquire_from_slot other (free_slot slot_id t) ≡ acquire_from_slot other t)
unfolding free_slot
free_slot_lem slot_id handle t v found =
    let i : ℕ = index_from_id slot_id in
    let s : HandleSlot = record { handle = none; id = id_inc (t.array i).id } in
    let (l, own) = acquire-found slot_id handle t found in
    let held : (t.array i).handle ≡ some handle = sym (acquire-own slot_id t l own) ∙ found in
    let apart : NotIn i t.free_list = AllEmpty-NotIn t.array i handle t.free_list held v.empty in
    (
      record {
        numbered = written-numbered t i s v (omega (arith, own));
        below = Below-append t.free_list i v.below l;
        once = Distinct-append t.free_list i v.once apart;
        empty =
            AllEmpty-append (update t.array i s) i t.free_list
              (AllEmpty-update t.array i s t.free_list apart v.empty)
              (ap (λ (u : HandleSlot). u.handle) (update_self t.array i s));
      },
      acquire-no_handle slot_id (free_slot slot_id t)
          (ap (λ (u : HandleSlot). u.handle) (update_self t.array i s)),
      λ other ne. elim (ℕ_discrete i (index_from_id other)) [
        | no q ↦
            acquire-same other t (free_slot slot_id t)
              (update_ne t.array i (index_from_id other) s q)
        | yes p ↦
            acquire-no_handle other (free_slot slot_id t) (
              ap (λ (u : HandleSlot). u.handle)
                (ap (update t.array i s) (sym p) ∙ update_self t.array i s))
            ∙ sym (acquire-other other t (λ z. ne (sym z ∙ ap (λ j. (t.array j).id) (sym p) ∙ own)))
      ],
    )
