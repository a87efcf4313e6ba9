-- ===== src/Large/Clear.antt =====
-- libxen2mx/omx_large.c: which regions are left when memory is given back, and when the endpoint is
-- closed.
use xen2mx.Base.{
  ℕ, ◌+◌, ◌<◌, ◌≤◌, ◌≡◌, refl, ◌∙◌, ap, sym, ◌⊎◌, ◌↔◌, inl, inr, List, [], ◌∷◌, Option, none, some,
  true, false, Bool-cases, Option-cases, subst, ltb, leb, if◌then◌else◌, ◌&&◌, arith, occurrences,
  ne→==, eq→==, occurrences-delete,
}
use native.Mathlib.Nat.{mod-eq_of_lt}
use native.Mathlib.Decide.{dec_lt, ℕ_discrete}
use xen2mx.Large.{LargeMap, discard}
use xen2mx.Large.Clean.{is_hit, clean_loop, endpoint_regcache_clean, u64_mod, segments_intersect}
use xen2mx.Large.Pool.{IsCache}
use xen2mx.Large.Alloc.{discard-IsCache}

-- Two segments intersect exactly if an address lies in both.
pub segments_intersect_lem :
    (b1 e1 b2 e2 : ℕ)
    → (segments_intersect b1 e1 b2 e2 ≡ true)
      ↔ ((a : ℕ) × ((b1 ≤ a) × (a < e1)) × ((b2 ≤ a) × (a < e2)))
unfolding segments_intersect
segments_intersect_lem b1 e1 b2 e2 = (
  (λ h. (if ltb b2 b1 then b1 else b2, ground arith, ground arith)),
  λ (a, p, q). ground (arith, p, q),
)

-- After the loop over some regions of the cache: those that are hit are gone, none of them in use.
abbrev pub IsCleaned : ℕ → ℕ → LargeMap → List ℕ → List ℕ → Option LargeMap → Type 0
IsCleaned begin end m held is (some n) =
    ((later : List ℕ) × IsCache true n later held)
    × (n.region ≡ m.region)
    × ((j : ℕ)
        → (occurrences j n.reg_list ≡ (
            if is_hit m begin end j && leb 1 (occurrences j is)
            then 0
            else occurrences j m.reg_list))
          × (occurrences j n.reg_vect_list ≡ occurrences j m.reg_vect_list))
IsCleaned begin end m held is none =
    (j : ℕ) × (is_hit m begin end j ≡ true) × (0 < occurrences j is) × (0 < occurrences j held)

-- A region that is not hit is passed over.
skipped :
    (begin end : ℕ) (m : LargeMap) (held : List ℕ) (i : ℕ) (is : List ℕ) (o : Option LargeMap)
    → is_hit m begin end i ≡ false
    → IsCleaned begin end m held is o
    → IsCleaned begin end m held (i ∷ is) o
skipped begin end m held i is none miss (j, hit, listed, busy) = (j, hit, ground arith, busy)
skipped begin end m held i is (some n) miss (cache, same, left) = (
  cache,
  same,
  λ j. elim (ℕ_discrete j i) [
    | yes e ↦ ground (arith, left j, ap (is_hit m begin end) e, miss)
    | no e ↦ ground (arith, left j)
  ],
)

is_hit-discard :
    (begin end : ℕ) (m : LargeMap) (i j : ℕ)
    → is_hit (discard m i) begin end j ≡ is_hit m begin end j
unfolding is_hit discard
is_hit-discard begin end m i j = refl

room :
    (m : LargeMap) (i : ℕ) (is : List ℕ)
    → ((j : ℕ) → occurrences j (i ∷ is) ≤ occurrences j m.reg_list)
    → (j : ℕ) → occurrences j is ≤ occurrences j (discard m i).reg_list
unfolding discard
room m i is h j = ground (arith, h j, occurrences-delete j i m.reg_list)

-- A region that is hit is destroyed.
discarded :
    (begin end : ℕ) (m : LargeMap) (held : List ℕ) (i : ℕ) (is : List ℕ) (o : Option LargeMap)
    → is_hit m begin end i ≡ true
    → occurrences i m.reg_list ≡ 1
    → occurrences i m.reg_vect_list ≡ 0
    → IsCleaned begin end (discard m i) held is o
    → IsCleaned begin end m held (i ∷ is) o
unfolding discard
discarded begin end m held i is none hit one zero (j, hit', listed, busy) =
    (j, sym (is_hit-discard begin end m i j) ∙ hit', ground arith, busy)
discarded begin end m held i is (some n) hit one zero (cache, same, left) = (
  cache,
  same,
  λ j. elim (ℕ_discrete j i) [
    | yes e ↦ ground (
      arith,
      left j,
      is_hit-discard begin end m i j,
      ap (is_hit m begin end) e,
      hit,
      occurrences-delete j i m.reg_list,
      occurrences-delete j i m.reg_vect_list,
      ap (λ k. occurrences k m.reg_list) e,
      ap (λ k. occurrences k m.reg_vect_list) e,
    )
    | no e ↦ ground (
      arith,
      left j,
      is_hit-discard begin end m i j,
      occurrences-delete j i m.reg_list,
      occurrences-delete j i m.reg_vect_list,
    )
  ],
)

clean_loop-IsCleaned :
    (begin end : ℕ) (m : LargeMap) (free held is : List ℕ)
    → ((j : ℕ) → occurrences j is ≤ occurrences j m.reg_list)
    → IsCache true m free held
    → IsCleaned begin end m held is (clean_loop begin end m is)
unfolding clean_loop
clean_loop-IsCleaned begin end m free held [] h c = ((free, c), refl, λ j. ground arith)
clean_loop-IsCleaned begin end m free held (i ∷ is) h c =
    let s = c.slots i in
    let listed : 0 < occurrences i m.reg_list = ground (arith, h i) in
    elim (Bool-cases (is_hit m begin end i)) [
      | inr miss ↦ rw miss (
          skipped begin end m held i is _ miss
            (clean_loop-IsCleaned begin end m free held is (λ j. ground (arith, h j)) c))
      | inl hit ↦ elim (dec_lt 0 (occurrences i held)) [
        | yes busy ↦
            rw (hit, ne→== (m.region i).use_count 0 (λ e. ground (arith, s.used, s.idle)))
              (i, hit, ground arith, busy)
        | no idle ↦
            rw
              (hit, eq→== (m.region i).use_count 0 (ground (arith, s.used, s.open_windows, listed)))
              (discarded begin end m held i is _ hit (ground (arith, s.owned))
                (ground (arith, s.owned))
                (clean_loop-IsCleaned begin end (discard m i) (i ∷ free) held is (room m i is h)
                  (discard-IsCache true m free held i (ground (arith, s.owned)) (omega arith) c)))
      ]
    ]

-- A region whose end is an address is hit exactly if an address of it is given back.
pub is_hit_lem :
    (m : LargeMap) (begin end i : ℕ)
    → (m.region i).segs.vaddr + (m.region i).segs.len < u64_mod
    → (is_hit m begin end i ≡ true) ↔ (
        (a : ℕ) × ((begin ≤ a) × (a < end))
        × (((m.region i).segs.vaddr ≤ a) × (a < (m.region i).segs.vaddr + (m.region i).segs.len)))
unfolding is_hit
is_hit_lem m begin end i h = rw (mod-eq_of_lt h) (segments_intersect_lem begin end _ _)

-- The cached regions that were hit are gone, none of which was in use, the others are left.
abbrev pub IsPurged : ℕ → ℕ → LargeMap → List ℕ → LargeMap → Type 0
IsPurged begin end m held n =
    ((later : List ℕ) × IsCache true n later held)
    × (n.region ≡ m.region)
    × ((j : ℕ)
        → (occurrences j n.reg_list
            ≡ (if is_hit m begin end j then 0 else occurrences j m.reg_list))
          × (occurrences j n.reg_vect_list ≡ occurrences j m.reg_vect_list)
          × (is_hit m begin end j ≡ true → 0 < occurrences j m.reg_list → occurrences j held ≡ 0))

IsCleaned-IsPurged :
    (begin end : ℕ) (m : LargeMap) (free held : List ℕ) (n : LargeMap)
    → IsCache true m free held
    → IsCleaned begin end m held m.reg_list (some n)
    → IsPurged begin end m held n
IsCleaned-IsPurged begin end m free held n c ((later, c'), same, left) = (
  (later, c'),
  same,
  λ j.
      let s = c'.slots j in
      let t = c.slots j in
      (
        ground (arith, left j),
        (left j).1,
        λ hit h. ground (arith, left j, s.open_windows, s.idle, t.owned),
      ),
)

-- In a cache in order, giving back memory destroys exactly the cached regions that are hit, none of
-- which is in use, and leaves the cache in order; or one that is hit is in use, and it aborts.
pub endpoint_regcache_clean_lem :
    (begin end : ℕ) (m : LargeMap) (free held : List ℕ)
    → IsCache true m free held
    → ((n : LargeMap) × (endpoint_regcache_clean begin end m ≡ some n)
        × IsPurged begin end m held n)
      ⊎ ((endpoint_regcache_clean begin end m ≡ none)
          × ((j : ℕ) × (is_hit m begin end j ≡ true)
              × (0 < occurrences j m.reg_list)
              × (0 < occurrences j held)))
unfolding endpoint_regcache_clean
endpoint_regcache_clean_lem begin end m free held c =
    let cleaned = clean_loop-IsCleaned begin end m free held m.reg_list (λ j. omega arith) c in
    elim (Option-cases (clean_loop begin end m m.reg_list)) [
      | inl e ↦ inr (e, subst (IsCleaned begin end m held m.reg_list) e cleaned)
      | inr (n, e) ↦ inl (
        n,
        e,
        IsCleaned-IsPurged begin end m free held n c
            (subst (IsCleaned begin end m held m.reg_list) e cleaned),
      )
    ]
