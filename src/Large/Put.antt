-- ===== src/Large/Put.antt =====
-- libxen2mx/omx_large.c, omx__put_region: what it does to the regions of the endpoint.
use xen2mx.Base.{
  ℕ, ◌<◌, ◌≡◌, refl, inl, inr, List, [], ◌∷◌, Bool, true, false, Bool-cases, ◌==◌, ◌&&◌, arith,
  occurrences, delete, occurrences-append, occurrences-delete,
}
use xen2mx.Large.{LargeMap, put_region, unuse, keep_cached, destroy_region}
use xen2mx.Large.Pool.{IsCache, IsPool-destroy}

-- The region stays in the cache.
keep_cached-IsCache :
    (m : LargeMap) (i r : ℕ) (free held : List ℕ)
    → (m.region i).segs.nseg ≡ 1
    → 0 < occurrences i held
    → IsCache true m free held
    → IsCache true (keep_cached (unuse m i r) i) free (delete i held)
keep_cached-IsCache m i r free held one h c = record {
  pool = record { linked = c.pool.linked; counted = c.pool.counted; total = c.pool.total };
  slots = λ j.
      let s = c.slots j in
      let t = c.slots i in
      ground (
        arith,
        s.owned,
        s.open_windows,
        s.idle,
        s.used,
        s.unused,
        s.contiguous,
        s.listed,
        s.vectorial,
        s.single_vect,
        t.vectorial,
        t.idle,
        t.open_windows,
        t.used,
        occurrences-delete j i held,
        occurrences-append j m.reg_unused_list (i ∷ []),
      );
}

-- The only user of the region was this one.
dropped-IsCache :
    (regcache : Bool) (m : LargeMap) (i r : ℕ) (free held : List ℕ)
    → occurrences i held ≡ 1
    → (regcache && ((m.region i).segs.nseg == 1)) ≡ false
    → IsCache regcache m free held
    → IsCache regcache (destroy_region (unuse m i r) i) (i ∷ free) (delete i held)
unfolding destroy_region
dropped-IsCache regcache m i r free held h no_cache c =
    let t = c.slots i in
    record {
      pool =
          IsPool-destroy (unuse m i r) free i (ground (arith, t.owned, t.open_windows, t.idle))
            (ground (arith, t.owned, t.open_windows, t.idle))
            (record { linked = c.pool.linked; counted = c.pool.counted; total = c.pool.total });
      slots = λ j.
          let s = c.slots j in
          ground (
            arith,
            s.owned,
            s.open_windows,
            s.idle,
            s.used,
            s.unused,
            s.contiguous,
            s.listed,
            s.vectorial,
            s.single_vect,
            s.single,
            t.owned,
            t.open_windows,
            t.idle,
            t.contiguous,
            t.listed,
            occurrences-delete j i m.reg_list,
            occurrences-delete j i m.reg_vect_list,
            occurrences-delete j i m.windows,
            occurrences-delete j i held,
          );
    }

pub put_region-IsCache :
    (regcache : Bool) (m : LargeMap) (i r : ℕ) (free held : List ℕ)
    → 0 < occurrences i held
    → IsCache regcache m free held
    → (later : List ℕ) × IsCache regcache (put_region regcache m i r) later (delete i held)
unfolding put_region
put_region-IsCache true m i r free held h c = elim (Bool-cases ((m.region i).segs.nseg == 1)) [
  | inl e ↦ (free, rw e (keep_cached-IsCache m i r free held (ground arith) h c))
  | inr e ↦ (
    i ∷ free,
    rw e (
        dropped-IsCache true m i r free held
          (let t = c.slots i in
            ground (arith, t.owned, t.open_windows, t.idle, t.contiguous, t.listed, t.single_vect))
          e c),
  )
]
put_region-IsCache false m i r free held h c = (
  i ∷ free,
  dropped-IsCache false m i r free held
      (let t = c.slots i in
        ground (arith, t.owned, t.open_windows, t.idle, t.single, t.single_vect))
      refl c,
)
