-- ===== src/Large/Serve.antt =====
-- libxen2mx/omx_large.c, omx__get_region: what the caller gets.
use xen2mx.Base.{
  ℕ, ◌<◌, ◌≤◌, ◌≡◌, ◌≢◌, refl, ◌∙◌, ap, subst, ◌⊎◌, inl, inr, List, [], ◌∷◌, some, Bool, true,
  false, Option-cases, arith, occurrences, lt→ltb, le→ltb, ne→==, eq→==, sym,
}
use native.Mathlib.Decide.{dec_lt}
use xen2mx.Large.{
  LargeMap, Region, ReqSegs, Answer, registered, refused, bad_address, unexpected, clone_segments,
  Obtained, got, failed, aborted, reserve, reuse, is_usable, find_cached, create_region,
  large_region_alloc, discard, in_list, in_vect_list, finish_region, get_region,
  get_contiguous_region, get_vect_region, user_region_max,
}
use xen2mx.Large.Pool.{IsCache, single_of}
use xen2mx.Large.Alloc.{IsFull, IsReady, large_region_alloc_lem}
use xen2mx.Large.Get.{
  created, in_list-IsCache, in_vect_list-IsCache, refused-IsCache, reuse-IsCache, reserve-IsCache,
  find_cached-is_usable,
}

-- The regions in use keep their memory.
abbrev pub KeepsHeld : LargeMap → LargeMap → List ℕ → Type 0
KeepsHeld m n held = (j : ℕ) → 0 < occurrences j held → (n.region j).segs ≡ (m.region j).segs

-- The region starts where the request starts and is as long or longer, and lists this segment; for a
-- request of several segments it has its segments, all of them.
pub record Covers (segs : ReqSegs) (r : ℕ) (region : Region) : Type 0 where
  pub starts : region.segs.vaddr ≡ segs.vaddr
  pub reaches : segs.len ≤ region.segs.len
  pub nseg : region.segs.nseg ≡ segs.nseg
  pub listed : segs.nseg ≡ 1 → region.segs.segs ≡ single_of region.segs ∷ []
  pub whole : 1 < segs.nseg → region.segs ≡ segs
  pub reserved : r ≢ 0 → region.reserver ≡ r

-- What a call leaves: the region found covers the request and has one more user; where it fails,
-- the driver refused or all slots are in use; it aborts on a bad address or an unexpected error only.
abbrev pub IsServed : Bool → Answer → LargeMap → List ℕ → ReqSegs → ℕ → Obtained → Type 0
IsServed regcache answer m held segs r (got i n) =
    ((later : List ℕ) × IsCache regcache n later (i ∷ held))
    × Covers segs r (n.region i)
    × KeepsHeld m n held
IsServed regcache answer m held segs r (failed n) =
    ((later : List ℕ) × IsCache regcache n later held)
    × ((answer ≡ refused) ⊎ ((j : ℕ) → j < user_region_max → 0 < occurrences j held))
    × KeepsHeld m n held
IsServed regcache answer m held segs r aborted = (answer ≡ bad_address) ⊎ (answer ≡ unexpected)

-- What stands in a slot whose reservation is made.
reserve-region :
    (r i j : ℕ) (m : LargeMap)
    → (((reserve r m i).region j).segs ≡ (m.region j).segs)
      × (r ≢ 0 → ((reserve r m i).region i).reserver ≡ r)
unfolding reserve
reserve-region r i j m = ground arith

-- Where no slot can be had, all are in use.
IsFull-held :
    (regcache : Bool) (m : LargeMap) (held : List ℕ) (j : ℕ)
    → (regcache ≡ false) ⊎ (m.reg_unused_list ≡ [])
    → IsCache regcache m [] held
    → j < user_region_max
    → 0 < occurrences j held
IsFull-held regcache m held j (inl e) c h =
    let s = c.slots j in ground (arith, s.owned, s.single e, s.single_vect)
IsFull-held regcache m held j (inr e) c h =
    let s = c.slots j in
    let no_unused : occurrences j m.reg_unused_list ≡ 0 = ap (occurrences j) e in
    ground (arith, s.owned, s.unused, s.single, s.single_vect)

-- A region in use is not the one that is created, and keeps its memory when another is evicted.
IsReady-held :
    (regcache : Bool) (m : LargeMap) (free held : List ℕ) (g : Obtained)
    (q : IsReady regcache m free held g) (j : ℕ)
    → 0 < occurrences j held
    → (q.id ≢ j) × ((q.start.region j).segs ≡ (m.region j).segs)
unfolding discard
IsReady-held regcache m free held g q j h =
    let s = q.cache.slots j in
    (
      λ e. ground (arith, s.owned, s.idle, s.open_windows),
      elim q.evicts [
        | inl (e, f) ↦ ap (λ (n : LargeMap). (n.region j).segs) e
        | inr (e, f, e', us) ↦ ap (λ (n : LargeMap). (n.region j).segs) e'
      ],
    )

-- The segments of a request of several are kept as they are.
clone_segments-several : (segs : ReqSegs) → 1 < segs.nseg → clone_segments segs ≡ segs
clone_segments-several segs l = rw (ne→== segs.nseg 1 (λ e. omega (arith, e, l))) refl

clone_segments-one :
    (segs : ReqSegs)
    → segs.nseg ≡ 1
    → (clone_segments segs).segs ≡ single_of (clone_segments segs) ∷ []
clone_segments-one segs e = rw (eq→== segs.nseg 1 e) refl

listed-kept : {a b : ReqSegs} → a ≡ b → b.segs ≡ single_of b ∷ [] → a.segs ≡ single_of a ∷ []
listed-kept e h = subst (λ (t : ReqSegs). t.segs ≡ single_of t ∷ []) (sym e) h

reuse-segs : (m : LargeMap) (i : ℕ) → ((reuse m i).region i).segs ≡ (m.region i).segs
unfolding reuse
reuse-segs m i = ground arith

created-segs :
    (segs : ReqSegs) (m : LargeMap) (i : ℕ)
    → ((created segs m i).region i).segs ≡ clone_segments segs
created-segs segs m i = ground arith

-- A region is created, and put in a list.
create_region-IsServed :
    (regcache : Bool) (answer : Answer) (m : LargeMap) (free held : List ℕ) (segs : ReqSegs) (r : ℕ)
    (add : LargeMap → ℕ → LargeMap)
    → ((n : LargeMap) (i : ℕ) (rest : List ℕ)
        → IsCache regcache n (i ∷ rest) held
        → IsCache regcache (add (created segs n i) i) rest (i ∷ held))
    → ((n : LargeMap) (i j : ℕ) → ((add n i).region j).segs ≡ (n.region j).segs)
    → IsCache regcache m free held
    → IsFull regcache m free (large_region_alloc regcache m)
      ⊎ IsReady regcache m free held (large_region_alloc regcache m)
    → IsServed regcache answer m held segs r
        (finish_region add r (create_region regcache answer m segs))
unfolding create_region
create_region-IsServed regcache answer m free held segs r add cached same c (inl (e, f, full)) =
    rw e (
      (free, c),
      inr (λ j. IsFull-held regcache m held j full (subst (λ l. IsCache regcache m l held) f c)),
      λ j h. refl,
    )
create_region-IsServed regcache bad_address m free held segs r add cached same c (inr q) =
    rw q.result (inl refl)
create_region-IsServed regcache unexpected m free held segs r add cached same c (inr q) =
    rw q.result (inr refl)
create_region-IsServed regcache refused m free held segs r add cached same c (inr q) = rw q.result (
  (q.id ∷ q.rest, refused-IsCache regcache q.start q.id q.rest held segs q.cache),
  inl refl,
  λ j h. let k = IsReady-held regcache m free held _ q j h in ground (arith, k),
)
create_region-IsServed regcache registered m free held segs r add cached same c (inr q) =
    rw q.result (
      let n = created segs q.start q.id in
      let kept = λ (j : ℕ). (reserve-region r q.id j (add n q.id)).0 ∙ same n q.id j in
      (
        (
          q.rest,
          reserve-IsCache regcache r q.id (add n q.id) q.rest (q.id ∷ held)
              (cached q.start q.id q.rest q.cache),
        ),
        record {
          starts = ground (arith, kept q.id);
          reaches = ground (arith, kept q.id);
          nseg = ground (arith, kept q.id);
          listed = λ l.
              listed-kept (kept q.id ∙ created-segs segs q.start q.id) (clone_segments-one segs l);
          whole = λ l. kept q.id ∙ created-segs segs q.start q.id ∙ clone_segments-several segs l;
          reserved = (reserve-region r q.id q.id (add n q.id)).1;
        },
        λ j h. let k = IsReady-held regcache m free held _ q j h in kept j ∙ ground (arith, k),
      ))

-- A region of the cache is found.
found-IsServed :
    (parallel : Bool) (answer : Answer) (m : LargeMap) (free held : List ℕ) (segs : ReqSegs)
    (r i : ℕ)
    → segs.nseg ≡ 1
    → find_cached parallel m segs r m.reg_list ≡ some i
    → IsCache true m free held
    → IsServed true answer m held segs r (got i (reserve r (reuse m i) i))
unfolding is_usable reuse
found-IsServed parallel answer m free held segs r i one e c =
    let u = find_cached-is_usable parallel m segs r i m.reg_list e in
    let kept = λ (j : ℕ). (reserve-region r i j (reuse m i)).0 in
    let s = c.slots i in
    let one' = s.contiguous u.1 in
    (
      (
        free,
        reserve-IsCache true r i (reuse m i) free (i ∷ held) (reuse-IsCache m i free held u.1 c),
      ),
      record {
        starts = ground (arith, kept i, u.0);
        reaches = ground (arith, kept i, u.0);
        nseg = ground (arith, kept i, one');
        listed = λ l. listed-kept (kept i ∙ reuse-segs m i) (s.listed u.1);
        whole = λ l. absurd (omega (arith, l, one));
        reserved = (reserve-region r i i (reuse m i)).1;
      },
      λ j h. ground (arith, kept j),
    )

get_contiguous_region-IsServed :
    (regcache parallel : Bool) (answer : Answer) (m : LargeMap) (free held : List ℕ)
    (segs : ReqSegs) (r : ℕ)
    → segs.nseg ≡ 1
    → IsCache regcache m free held
    → IsServed regcache answer m held segs r
        (finish_region in_list r (create_region regcache answer m segs))
    → IsServed regcache answer m held segs r
        (get_contiguous_region regcache parallel answer m segs r)
unfolding get_contiguous_region
get_contiguous_region-IsServed false parallel answer m free held segs r one c create = create
get_contiguous_region-IsServed true parallel answer m free held segs r one c create =
    elim (Option-cases (find_cached parallel m segs r m.reg_list)) [
      | inl e ↦ rw e create
      | inr (i, e) ↦ rw e (found-IsServed parallel answer m free held segs r i one e c)
    ]

-- In a cache in order, a request of at least one segment gets a region that covers it, registered
-- with the driver and with one more user, for several segments a region of exactly these, and leaves the cache in order and the memory of every
-- region in use as it was. It fails only when the driver refuses or all 256 slots are in use, and
-- the process aborts only on a bad address or an error that the driver is not expected to answer.
pub get_region-IsServed :
    (regcache parallel : Bool) (answer : Answer) (m : LargeMap) (free held : List ℕ)
    (segs : ReqSegs) (r : ℕ)
    → segs.nseg ≢ 0
    → IsCache regcache m free held
    → IsServed regcache answer m held segs r (get_region regcache parallel answer m segs r)
unfolding get_region get_vect_region
get_region-IsServed regcache parallel answer m free held segs r nonzero c =
    let alloc = large_region_alloc_lem regcache m free held c in
    elim (dec_lt 1 segs.nseg) [
      | yes many ↦ rw (lt→ltb _ _ many) (
          create_region-IsServed regcache answer m free held segs r in_vect_list
            (λ n i rest. in_vect_list-IsCache regcache n i rest held segs many)
            (λ n i j. ground arith) c alloc)
      | no few ↦
          let one : segs.nseg ≡ 1 = omega arith in
          rw (le→ltb 1 segs.nseg (omega arith)) (
            get_contiguous_region-IsServed regcache parallel answer m free held segs r one c (
              create_region-IsServed regcache answer m free held segs r in_list
                (λ n i rest. in_list-IsCache regcache n i rest held segs one)
                (λ n i j. ground arith) c alloc))
    ]
