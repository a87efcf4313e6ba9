-- ===== src/Large/Get.antt =====
-- libxen2mx/omx_large.c, omx__get_region: what it does to the regions of the endpoint.
use xen2mx.Base.{
  ℕ, ◌<◌, ◌≡◌, refl, subst, inl, inr, List, [], ◌∷◌, Option, some, Bool, true, Bool-cases, ◌==◌,
  arith, occurrences, occurrences-append, occurrences-delete, length-append, update,
}
use xen2mx.Large.{
  LargeMap, ReqSegs, take_slot, clone_segs, region_free, reserve, reuse, in_list, in_vect_list,
  is_usable, find_cached,
}
use xen2mx.Large.Pool.{IsCache, IsLinked, IsLinked-update}

pub reserve-IsCache :
    (regcache : Bool) (r i : ℕ) (m : LargeMap) (free held : List ℕ)
    → IsCache regcache m free held
    → IsCache regcache (reserve r m i) free held
unfolding reserve
reserve-IsCache regcache r i m free held c = elim (Bool-cases (r == 0)) [
  | inl e ↦ rw e c
  | inr e ↦ rw e (record {
    pool = record { linked = c.pool.linked; counted = c.pool.counted; total = c.pool.total };
    slots = λ j.
        let s = c.slots j in
        ground (
          arith, s.owned, s.open_windows, s.idle, s.used, s.unused, s.contiguous, s.listed,
          s.vectorial, s.single_vect, s.single,
        );
  })
]

-- A taken slot that is given back.
pub refused-IsCache :
    (regcache : Bool) (m : LargeMap) (i : ℕ) (rest held : List ℕ) (segs : ReqSegs)
    → IsCache regcache m (i ∷ rest) held
    → IsCache regcache (region_free (clone_segs segs (take_slot m i) i) i) (i ∷ rest) held
unfolding region_free
refused-IsCache regcache m i rest held segs c = record {
  pool = record {
    linked = (
      refl,
      subst (λ (t : Option ℕ). IsLinked (update m.next_free i (m.next_free i)) t rest)
          (ground arith)
          (IsLinked-update m.next_free i (m.next_free i) (m.next_free i) rest
            (ground (arith, (c.slots i).owned)) c.pool.linked.1),
    );
    counted = ground (arith, c.pool.counted);
    total = c.pool.total;
  };
  slots = λ j.
      let s = c.slots j in
      let t = c.slots i in
      ground (
        arith, s.owned, s.open_windows, s.idle, s.used, s.unused, s.contiguous, s.listed,
        s.vectorial, s.single_vect, s.single,
      );
}

-- A slot of the free list that now holds a contiguous region.
abbrev pub created : ReqSegs → LargeMap → ℕ → LargeMap
created segs m i = record (clone_segs segs (take_slot m i) i) {
  region =
      update (clone_segs segs (take_slot m i) i).region i
        (record ((clone_segs segs (take_slot m i) i).region i) { reserver = 0 });
  windows = i ∷ m.windows;
}

pub in_list-IsCache :
    (regcache : Bool) (m : LargeMap) (i : ℕ) (rest held : List ℕ) (segs : ReqSegs)
    → segs.nseg ≡ 1
    → IsCache regcache m (i ∷ rest) held
    → IsCache regcache (in_list (created segs m i) i) rest (i ∷ held)
in_list-IsCache regcache m i rest held segs h c = record {
  pool = record {
    linked = c.pool.linked.1;
    counted = ground (arith, c.pool.counted);
    total = omega (arith, c.pool.total, length-append m.reg_list (i ∷ []));
  };
  slots = λ j.
      let s = c.slots j in
      ground (
        arith,
        s.owned,
        s.open_windows,
        s.idle,
        s.used,
        s.unused,
        s.contiguous,
        s.listed,
        s.vectorial,
        s.single_vect,
        s.single,
        occurrences-append j m.reg_list (i ∷ []),
      );
}

pub in_vect_list-IsCache :
    (regcache : Bool) (m : LargeMap) (i : ℕ) (rest held : List ℕ) (segs : ReqSegs)
    → 1 < segs.nseg
    → IsCache regcache m (i ∷ rest) held
    → IsCache regcache (in_vect_list (created segs m i) i) rest (i ∷ held)
in_vect_list-IsCache regcache m i rest held segs h c = record {
  pool = record {
    linked = c.pool.linked.1;
    counted = ground (arith, c.pool.counted);
    total = omega (arith, c.pool.total, length-append m.reg_vect_list (i ∷ []));
  };
  slots = λ j.
      let s = c.slots j in
      ground (
        arith,
        s.owned,
        s.open_windows,
        s.idle,
        s.used,
        s.unused,
        s.contiguous,
        s.listed,
        s.vectorial,
        s.single_vect,
        s.single,
        occurrences-append j m.reg_vect_list (i ∷ []),
      );
}

-- A region of the cache has one more user.
pub reuse-IsCache :
    (m : LargeMap) (i : ℕ) (free held : List ℕ)
    → 0 < occurrences i m.reg_list
    → IsCache true m free held
    → IsCache true (reuse m i) free (i ∷ held)
unfolding reuse
reuse-IsCache m i free held h c = record {
  pool = record { linked = c.pool.linked; counted = c.pool.counted; total = c.pool.total };
  slots = λ j.
      let s = c.slots j in
      let t = c.slots i in
      ground (
        arith,
        s.owned,
        s.open_windows,
        s.idle,
        s.used,
        s.unused,
        s.contiguous,
        s.listed,
        s.vectorial,
        s.single_vect,
        s.single,
        t.owned,
        t.open_windows,
        t.used,
        occurrences-delete j i m.reg_unused_list,
      );
}

-- What the search finds is in the list and can be used.
pub find_cached-is_usable :
    (parallel : Bool) (m : LargeMap) (segs : ReqSegs) (r i : ℕ) (is : List ℕ)
    → find_cached parallel m segs r is ≡ some i
    → (is_usable parallel m segs r i ≡ true) × (0 < occurrences i is)
unfolding find_cached
find_cached-is_usable parallel m segs r i [] h = absurd (ground arith)
find_cached-is_usable parallel m segs r i (k ∷ is) h =
    ground (arith, find_cached-is_usable parallel m segs r i is)
