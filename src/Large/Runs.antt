-- ===== src/Large/Runs.antt =====
-- libxen2mx/omx_large.c: the calls on the regions of an endpoint in any order. `held` are the ids
-- that the callers have got and not put back, each as often as it was got.
use xen2mx.Base.{
  ℕ, zero, suc, ◌+◌, ◌%◌, ◌<◌, ◌≤◌, ◌≡◌, ◌≢◌, refl, ap, sym, subst, inl, inr, List, [], ◌∷◌, none,
  some, some-injective, Bool, true, false, ltb, ◌==◌, if◌then◌else◌, arith, length, occurrences,
  delete,
}
use xen2mx.Large.{
  LargeMap, Region, ReqSegs, Answer, got, failed, get_region, put_region, map_init, user_region_max,
}
use xen2mx.Large.Clean.{regcache_clean, u64_mod}
use xen2mx.Large.Pool.{IsCache, IsLinked}
use xen2mx.Large.Put.{put_region-IsCache}
use xen2mx.Large.Serve.{IsServed, KeepsHeld, get_region-IsServed}
use xen2mx.Large.Clear.{endpoint_regcache_clean_lem}

-- One call: a region is got for a request of one segment or more, or is not; one that is held is
-- put back; or memory is given back.
pub data Step (regcache parallel : Bool) : LargeMap → List ℕ → LargeMap → List ℕ → Type 0 where
  getting :
      (answer : Answer) (segs : ReqSegs) (r i : ℕ) (m n : LargeMap) (held : List ℕ)
      → segs.nseg ≢ 0
      → get_region regcache parallel answer m segs r ≡ got i n
      → Step regcache parallel m held n (i ∷ held)
  get_fails :
      (answer : Answer) (segs : ReqSegs) (r : ℕ) (m n : LargeMap) (held : List ℕ)
      → segs.nseg ≢ 0
      → get_region regcache parallel answer m segs r ≡ failed n
      → Step regcache parallel m held n held
  putting :
      (i r : ℕ) (m : LargeMap) (held : List ℕ)
      → 0 < occurrences i held
      → Step regcache parallel m held (put_region regcache m i r) (delete i held)
  clean :
      (ptr size : ℕ) (m n : LargeMap) (held : List ℕ)
      → regcache_clean regcache m ptr size ≡ some n
      → Step regcache parallel m held n held

pub data Run (regcache parallel : Bool) : LargeMap → List ℕ → LargeMap → List ℕ → Type 0 where
  stop : (m : LargeMap) (held : List ℕ) → Run regcache parallel m held m held
  step :
      (m n l : LargeMap) (held held₁ held₂ : List ℕ)
      → Step regcache parallel m held n held₁
      → Run regcache parallel n held₁ l held₂
      → Run regcache parallel m held l held₂

-- What a step keeps.
abbrev pub IsKept : Bool → LargeMap → List ℕ → LargeMap → List ℕ → Type 0
IsKept regcache m held n held₁ =
    ((later : List ℕ) × IsCache regcache n later held₁) × KeepsHeld m n held

put-KeepsHeld :
    (regcache : Bool) (m : LargeMap) (i r : ℕ) (held : List ℕ)
    → KeepsHeld m (put_region regcache m i r) held
unfolding put_region
put-KeepsHeld regcache m i r held j h = ground arith

clean-IsKept :
    (regcache : Bool) (m n : LargeMap) (ptr size : ℕ) (free held : List ℕ)
    → regcache_clean regcache m ptr size ≡ some n
    → IsCache regcache m free held
    → IsKept regcache m held n held
unfolding regcache_clean
clean-IsKept true m n ptr size free held e c =
    elim (endpoint_regcache_clean_lem ptr ((ptr + size) % u64_mod) m free held c) [
      | inl (n', e', p) ↦
          let eq : n' ≡ n = ground (arith, e, e') in
          subst (λ t. IsKept true m held t held) eq
            (p.0, λ j h. ap (λ (f : ℕ → Region). (f j).segs) p.1)
      | inr (e', bad) ↦ absurd (ground (arith, e, e'))
    ]
clean-IsKept false m n ptr size free held e c =
    let eq : m ≡ n = some-injective m n e in
    subst (λ t. IsKept false m held t held) eq ((free, c), λ j h. refl)

-- Every call keeps the cache in order, and the memory of every region that was in use.
pub step-IsKept :
    (regcache parallel : Bool) (m n : LargeMap) (free held held₁ : List ℕ)
    → Step regcache parallel m held n held₁
    → IsCache regcache m free held
    → IsKept regcache m held n held₁
step-IsKept regcache parallel _ _ free _ _ (getting answer segs r i m n held h e) c =
    let s =
      subst (IsServed regcache answer m held segs r) e
        (get_region-IsServed regcache parallel answer m free held segs r h c) in
    (s.0, s.2)
step-IsKept regcache parallel _ _ free _ _ (get_fails answer segs r m n held h e) c =
    let s =
      subst (IsServed regcache answer m held segs r) e
        (get_region-IsServed regcache parallel answer m free held segs r h c) in
    (s.0, s.2)
step-IsKept regcache parallel _ _ free _ _ (putting i r m held h) c =
    (put_region-IsCache regcache m i r free held h c, put-KeepsHeld regcache m i r held)
step-IsKept regcache parallel _ _ free _ _ (clean ptr size m n held e) c =
    clean-IsKept regcache m n ptr size free held e c

pub run-IsCache :
    (regcache parallel : Bool) (m n : LargeMap) (free held held₁ : List ℕ)
    → Run regcache parallel m held n held₁
    → IsCache regcache m free held
    → (later : List ℕ) × IsCache regcache n later held₁
run-IsCache regcache parallel _ _ free _ _ (stop m held) c = (free, c)
run-IsCache regcache parallel _ _ free _ _ (step m n l held held₁ held₂ s rest) c =
    let k = step-IsKept regcache parallel m n free held held₁ s c in
    run-IsCache regcache parallel n l k.0.0 held₁ held₂ rest k.0.1

-- The free slots at the start.
pub range : ℕ → ℕ → List ℕ
range lo zero = []
range lo (suc n) = lo ∷ range (suc lo) n

length-range : (lo n : ℕ) → length (range lo n) ≡ n
unfolding range
length-range lo zero = refl
length-range lo (suc n) = omega (arith, length-range (suc lo) n)

occurrences-range :
    (j lo n : ℕ)
    → occurrences j (range lo n) ≡ (if ltb j lo then 0 else if ltb j (lo + n) then 1 else 0)
unfolding range
occurrences-range j lo zero = ground arith
occurrences-range j lo (suc n) = ground (arith, occurrences-range j (suc lo) n)

IsLinked-range :
    (lo n last : ℕ)
    → lo + n ≡ last
    → IsLinked (λ i. if i == last then none else some (i + 1)) (some lo) (range lo (suc n))
unfolding range
IsLinked-range lo zero last h = (refl, ground arith)
IsLinked-range lo (suc n) last h = (
  refl,
  subst (λ t. IsLinked (λ i. if i == last then none else some (i + 1)) t (range (suc lo) (suc n)))
      (ground arith) (IsLinked-range (suc lo) n last (omega arith)),
)

pub map_init-IsCache :
    (regcache : Bool) (memory : ℕ → Region)
    → IsCache regcache (map_init memory) (range 0 user_region_max) []
unfolding map_init
map_init-IsCache regcache memory = record {
  pool = record {
    linked = IsLinked-range 0 255 255 refl;
    counted = sym (length-range 0 256);
    total = omega (arith, length-range 0 256);
  };
  slots = λ j. ground (arith, occurrences-range j 0 256);
}

-- After any calls since the start, a region that is held has its window open with the driver, once,
-- and counts as many users as hold it.
pub run_safe :
    (regcache parallel : Bool) (memory : ℕ → Region) (n : LargeMap) (held : List ℕ) (j : ℕ)
    → Run regcache parallel (map_init memory) [] n held
    → 0 < occurrences j held
    → (occurrences j n.windows ≡ 1) × ((n.region j).use_count ≡ occurrences j held)
run_safe regcache parallel memory n held j steps h =
    let c = run-IsCache regcache parallel _ n _ [] held steps (map_init-IsCache regcache memory) in
    let s = c.1.slots j in
    (ground (arith, s.owned, s.open_windows, s.idle), ground (arith, s.used, s.idle))

-- After any calls since the start, the ids of open windows are below 256, each is open at most once
-- and is one of the regions listed, and the free slots and the listed regions together are 256.
pub run_bounds :
    (regcache parallel : Bool) (memory : ℕ → Region) (n : LargeMap) (held : List ℕ)
    → Run regcache parallel (map_init memory) [] n held
    → (n.nr_free + length n.reg_list + length n.reg_vect_list ≡ user_region_max)
      × ((j : ℕ)
          → (occurrences j n.windows ≡ occurrences j n.reg_list + occurrences j n.reg_vect_list)
            × (occurrences j n.windows ≤ (if ltb j user_region_max then 1 else 0)))
run_bounds regcache parallel memory n held steps =
    let c = run-IsCache regcache parallel _ n _ [] held steps (map_init-IsCache regcache memory) in
    (
      omega (arith, c.1.pool.total, c.1.pool.counted),
      λ j. let s = c.1.slots j in (s.open_windows, ground (arith, s.owned, s.open_windows)),
    )
