-- ===== src/Large/Pool.antt =====
-- What holds of the regions of an endpoint between calls, given the free slots and the ids that
-- are in use, each as often as it is in use.
use xen2mx.Base.{
  ℕ, ◌+◌, ◌<◌, ◌≡◌, refl, subst, List, [], ◌∷◌, Option, none, some, Bool, false, ◌&&◌, ltb, ◌==◌,
  if◌then◌else◌, update, arith, length, occurrences, occurrences-delete, length-delete,
  occurrences-le-length,
}
use xen2mx.Large.{LargeMap, ReqSegs, CmdSegment, user_region_max, destroy_region, discard}

-- The segment `single`.
abbrev pub single_of : ReqSegs → CmdSegment
single_of segs = record { vaddr = segs.vaddr; len = segs.len }

-- From `first` on, the links lead through these slots and end.
abbrev pub IsLinked : (ℕ → Option ℕ) → Option ℕ → List ℕ → Type 0
IsLinked next first [] = first ≡ none
IsLinked next first (i ∷ is) = (first ≡ some i) × IsLinked next (next i) is

-- The slots are free, or hold a region of one of the two lists.
pub record IsPool (m : LargeMap) (free : List ℕ) : Type 0 where
  pub linked : IsLinked m.next_free m.first_free free
  pub counted : m.nr_free ≡ length free
  pub total : length free + length m.reg_list + length m.reg_vect_list ≡ user_region_max

-- One slot: it is free or in one of the lists, once; its window is open when it is in a list; only
-- then it is in use, as often as its count says; unused when it is cached and its count is 0;
-- a region that is not cached has one user. The segments of a contiguous region are its single one.
pub record IsSlot (regcache : Bool) (m : LargeMap) (free held : List ℕ) (i : ℕ) : Type 0 where
  pub owned :
      occurrences i free + occurrences i m.reg_list + occurrences i m.reg_vect_list
      ≡ (if ltb i user_region_max then 1 else 0)
  pub open_windows :
      occurrences i m.windows ≡ occurrences i m.reg_list + occurrences i m.reg_vect_list
  pub idle : occurrences i m.windows ≡ 0 → occurrences i held ≡ 0
  pub used : 0 < occurrences i m.windows → (m.region i).use_count ≡ occurrences i held
  pub unused :
      occurrences i m.reg_unused_list
      ≡ (if regcache && (occurrences i held == 0) then occurrences i m.reg_list else 0)
  pub contiguous : 0 < occurrences i m.reg_list → (m.region i).segs.nseg ≡ 1
  pub listed :
      0 < occurrences i m.reg_list → (m.region i).segs.segs ≡ single_of (m.region i).segs ∷ []
  pub vectorial : 0 < occurrences i m.reg_vect_list → 1 < (m.region i).segs.nseg
  pub single_vect : 0 < occurrences i m.reg_vect_list → occurrences i held ≡ 1
  pub single : regcache ≡ false → 0 < occurrences i m.reg_list → occurrences i held ≡ 1

pub record IsCache (regcache : Bool) (m : LargeMap) (free held : List ℕ) : Type 0 where
  pub pool : IsPool m free
  pub slots : (i : ℕ) → IsSlot regcache m free held i

-- A link written to a slot outside the chain leaves it as it was.
pub IsLinked-update :
    (next : ℕ → Option ℕ) (i : ℕ) (v first : Option ℕ) (free : List ℕ)
    → occurrences i free ≡ 0
    → IsLinked next first free
    → IsLinked (update next i v) first free
IsLinked-update next i v first [] h c = c
IsLinked-update next i v first (j ∷ js) h c = (
  c.0,
  subst (λ (t : Option ℕ). IsLinked (update next i v) t js) (ground arith)
      (IsLinked-update next i v (next j) js (ground arith) c.1),
)

-- A region that leaves its list gives a free slot.
pub IsPool-destroy :
    (m : LargeMap) (free : List ℕ) (i : ℕ)
    → occurrences i free ≡ 0
    → occurrences i m.reg_list + occurrences i m.reg_vect_list ≡ 1
    → IsPool m free
    → IsPool (destroy_region m i) (i ∷ free)
unfolding destroy_region
IsPool-destroy m free i h one p = record {
  linked = (
    refl,
    subst (λ (t : Option ℕ). IsLinked (update m.next_free i m.first_free) t free) (ground arith)
        (IsLinked-update m.next_free i m.first_free m.first_free free h p.linked),
  );
  counted = ground (arith, p.counted);
  total = ground (
    arith,
    p.total,
    length-delete i m.reg_list,
    length-delete i m.reg_vect_list,
    occurrences-le-length i m.reg_list,
    occurrences-le-length i m.reg_vect_list,
  );
}

-- A region whose use has ended, or that had none, leaves the cache; nothing else changes.
pub IsSlot-destroy :
    (regcache : Bool) (m : LargeMap) (free held : List ℕ) (i j : ℕ)
    → IsSlot regcache m free held j
    → occurrences i m.reg_list + occurrences i m.reg_vect_list ≡ 1
    → occurrences i held ≡ 0
    → IsSlot regcache (discard m i) (i ∷ free) held j
unfolding discard
IsSlot-destroy regcache m free held i j s one h = ground (
  arith,
  s.owned,
  s.open_windows,
  s.idle,
  s.used,
  s.unused,
  s.contiguous,
  s.listed,
  s.vectorial,
  s.single_vect,
  s.single,
  occurrences-delete j i m.reg_list,
  occurrences-delete j i m.reg_vect_list,
  occurrences-delete j i m.windows,
  occurrences-delete j i m.reg_unused_list,
)
