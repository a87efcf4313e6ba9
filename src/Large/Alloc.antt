-- ===== src/Large/Alloc.antt =====
-- libxen2mx/omx_large.c, omx__endpoint_large_region_alloc: a slot of the free list, or the slot of
-- the region that has been unused for longest.
use xen2mx.Base.{
  ℕ, ◌+◌, ◌<◌, ◌≡◌, refl, ◌∙◌, ap, sym, ◌⊎◌, inl, inr, List, [], ◌∷◌, Bool, true, false, arith,
  occurrences, subst, delete,
}
use xen2mx.Large.{
  LargeMap, Obtained, got, failed, take_slot, try_alloc, large_region_alloc, discard, or_evict,
  evict_first,
}
use xen2mx.Large.Pool.{IsSlot, IsCache, IsPool-destroy, IsSlot-destroy}

-- A slot was found: the first free one, or that of the first unused region, which is destroyed.
pub record IsReady (regcache : Bool) (m : LargeMap) (free held : List ℕ) (g : Obtained)
    : Type 0 where
  pub start : LargeMap
  pub id : ℕ
  pub rest : List ℕ
  pub result : g ≡ got id (take_slot start id)
  pub cache : IsCache regcache start (id ∷ rest) held
  pub evicts :
      ((start ≡ m) × (free ≡ id ∷ rest))
      ⊎ ((free ≡ [])
          × (rest ≡ [])
          × (start ≡ discard m id)
          × ((us : List ℕ) × (m.reg_unused_list ≡ id ∷ us)))

-- None was found.
abbrev pub IsFull : Bool → LargeMap → List ℕ → Obtained → Type 0
IsFull regcache m free g =
    (g ≡ failed m) × (free ≡ []) × ((regcache ≡ false) ⊎ (m.reg_unused_list ≡ []))

List-cases : (xs : List ℕ) → (xs ≡ []) ⊎ ((x : ℕ) × (ys : List ℕ) × (xs ≡ x ∷ ys))
List-cases [] = inl refl
List-cases (x ∷ xs) = inr (x, xs, refl)

-- An unused region is in the cache and has no user.
unused-listed :
    (regcache : Bool) (m : LargeMap) (free held : List ℕ) (i : ℕ) (us : List ℕ)
    → IsSlot regcache m free held i
    → m.reg_unused_list ≡ i ∷ us
    → (occurrences i m.reg_list + occurrences i m.reg_vect_list ≡ 1)
      × (occurrences i held ≡ 0)
      × (occurrences i free ≡ 0)
unused-listed regcache m free held i us s e =
    let some_unused : 0 < occurrences i m.reg_unused_list =
      subst (λ xs. 0 < occurrences i xs) (sym e) (ground arith) in
    ground (arith, s.unused, s.owned)

-- The first unused region is destroyed.
pub discard-IsCache :
    (regcache : Bool) (m : LargeMap) (free held : List ℕ) (i : ℕ)
    → occurrences i m.reg_list + occurrences i m.reg_vect_list ≡ 1
    → occurrences i held ≡ 0
    → IsCache regcache m free held
    → IsCache regcache (discard m i) (i ∷ free) held
unfolding discard
discard-IsCache regcache m free held i one h c = record {
  pool =
      IsPool-destroy (record m { reg_unused_list = delete i m.reg_unused_list }) free i
        (ground (arith, (c.slots i).owned)) one
        (record { linked = c.pool.linked; counted = c.pool.counted; total = c.pool.total });
  slots = λ j. IsSlot-destroy regcache m free held i j (c.slots j) one h;
}

pub large_region_alloc_lem :
    (regcache : Bool) (m : LargeMap) (free held : List ℕ)
    → IsCache regcache m free held
    → IsFull regcache m free (large_region_alloc regcache m)
      ⊎ IsReady regcache m free held (large_region_alloc regcache m)
unfolding large_region_alloc
large_region_alloc_lem regcache m (i ∷ rest) held c = inr (record {
  start = m;
  id = i;
  rest = rest;
  result = ground (arith, c.pool.linked.0);
  cache = c;
  evicts = inl (refl, refl);
})
large_region_alloc_lem false m [] held c = inl (ground (arith, c.pool.linked), refl, inl refl)
large_region_alloc_lem true m [] held c = elim (List-cases m.reg_unused_list) [
  | inl e ↦ inl (ground (arith, c.pool.linked, e), refl, inr e)
  | inr (i, us, e) ↦
      let full : try_alloc m ≡ failed m = ground (arith, c.pool.linked) in
      let known = unused-listed true m [] held i us (c.slots i) e in
      inr (record {
        start = discard m i;
        id = i;
        rest = [];
        result = ap (or_evict true m) full ∙ ap (λ xs. evict_first xs m) e;
        cache = discard-IsCache true m [] held i known.0 known.1 c;
        evicts = inr (refl, refl, refl, (us, e));
      })
]
