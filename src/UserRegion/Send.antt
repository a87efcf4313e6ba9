-- ===== src/UserRegion/Send.antt =====
-- driver/linux/omx_reg.c: the frames of a reply, copied out of a region one after the other.
use native.Mathlib.Decide.{dec_lt, ℕ_discrete}
use xen2mx.Base.{
  ℕ, zero, suc, ◌+◌, ◌-◌, ◌*◌, ◌/◌, ◌%◌, ◌<◌, ◌≤◌, ◌≡◌, refl, ap, ◌∙◌, subst, List, [], ◌∷◌, ◌⊎◌,
  inl, inr, Option, some, arith, length, lt→ltb, le→ltb, le→leb, gt→leb, eq→==, ne→==,
}
use xen2mx.UserRegion.Store.{Memory, load, load-ext, load-pieces}
use xen2mx.UserRegion.Fill.{full_length-le, full_length-fits}
use xen2mx.UserRegion.{Segment, page_size, full_length, segs_length, long_mod, address, address_in}
use xen2mx.UserRegion.Fill.{address-behind, address-within, address_in-page}
use xen2mx.UserRegion.Cache.{
  OffsetCache, made, refused, out_of_bounds, search_segment, offset_cache_init, contig_chunk,
  contig_advance, page_bytes, then_copy, vect_copy, contig_copy, copy_pages_to_buf, copy_from,
}
use xen2mx.UserRegion.Copied.{AllProper, IsBehind, IsBehind-trans, vect_copy-Copies}

-- In a single segment, the cache stands at an offset.
abbrev pub IsAtOffset : Segment → ℕ → OffsetCache → Type 0
IsAtOffset s k c =
    (c.here ≡ s ∷ [])
    × (c.pageoff < page_size)
    × (c.page * page_size + c.pageoff ≡ s.first_page_offset + k)

-- The cache stands at a place of the region.
abbrev pub Stands : List Segment → ℕ → OffsetCache → Type 0
Stands [] k c = ⊥
Stands (s ∷ []) k c = IsAtOffset s k c
Stands (s ∷ t ∷ ss) k c = IsBehind (s ∷ t ∷ ss) 0 k c

-- The search finds the segment.
search_segment-IsBehind :
    (ss : List Segment) (off : ℕ)
    → AllProper ss
    → off < segs_length ss
    → (c : OffsetCache) × (search_segment ss off ≡ made c) × IsBehind ss 0 off c
unfolding search_segment
search_segment-IsBehind [] off f h = absurd (omega arith)
search_segment-IsBehind (s ∷ ss) off f h = elim (dec_lt off s.seg_length) [
  | yes within ↦ (
    record {
      here = s ∷ ss;
      segoff = off;
      page = (off + s.first_page_offset) / page_size;
      pageoff = (off + s.first_page_offset) % page_size;
    },
    rw (gt→leb s.seg_length off within) refl,
    record {
      fits = (within, omega arith, omega arith, f.1);
      same = λ j. ap (address (s ∷ ss)) (omega arith);
      left = omega arith;
    },
  )
  | no behind ↦
      let ih = search_segment-IsBehind ss (off - s.seg_length) f.1 (omega (arith, behind)) in
      (
        ih.0,
        rw (le→leb s.seg_length off (omega (arith, behind))) ih.1,
        record {
          fits = ih.2.fits;
          same = λ j.
              ih.2.same j
              ∙ ap (address ss) (omega (arith, behind))
              ∙ address-behind s ss (0 + off + j) (omega (arith, behind));
          left = omega (arith, ih.2.left, behind);
        },
      )
]

search_segment-overruns : (ss : List Segment) → search_segment ss (segs_length ss) ≡ out_of_bounds
unfolding search_segment
search_segment-overruns [] = refl
search_segment-overruns (s ∷ ss) =
    rw (le→leb s.seg_length (s.seg_length + segs_length ss) (omega arith))
      (ap (search_segment ss) (omega arith) ∙ search_segment-overruns ss)

-- In a region whose segments are proper ones, a cache made at a place behind which the bytes wanted
-- are still in the region stands at that place; where they are not, none is made.
pub offset_cache_init-Stands :
    (ss : List Segment) (off len : ℕ)
    → AllProper ss
    → 0 < len
    → ((off + len ≤ full_length ss)
        × ((c : OffsetCache) × (offset_cache_init ss off len ≡ made c) × Stands ss off c))
      ⊎ ((full_length ss < off + len) × (offset_cache_init ss off len ≡ refused))
unfolding offset_cache_init
offset_cache_init-Stands [] off len f h = inr (omega arith, refl)
offset_cache_init-Stands (s ∷ []) off len f h = elim (dec_lt (full_length (s ∷ [])) (off + len)) [
  | yes over ↦ inr (over, ground arith)
  | no fits ↦ inl (
    omega (arith, fits),
    (
      record {
        here = s ∷ [];
        segoff = off;
        page = (off + s.first_page_offset) / page_size;
        pageoff = (off + s.first_page_offset) % page_size;
      },
      rw (le→ltb (full_length (s ∷ [])) (off + len) (omega (arith, fits))) refl,
      (refl, omega arith, omega arith),
    ),
  )
]
offset_cache_init-Stands (s ∷ t ∷ ss) off len f h =
    elim (dec_lt (full_length (s ∷ t ∷ ss)) (off + len)) [
      | yes over ↦ inr (over, ground (arith, over))
      | no fits ↦
          let found =
            search_segment-IsBehind (s ∷ t ∷ ss) off f
              (omega (arith, fits, h, full_length-le (s ∷ t ∷ ss))) in
          inl (omega (arith, fits), (found.0, ground (arith, fits, found.1), found.2))
    ]

abbrev CopiesOne : Segment → ℕ → ℕ → Memory → Option (List ℕ × OffsetCache) → Type 0
CopiesOne s k n mem o =
    (d : OffsetCache) × (o
      ≡ some (load (λ j. address_in s (s.first_page_offset + (k + j))) n mem, d))
    × IsAtOffset s (k + n) d

nothing_copied :
    (s : Segment) (c : OffsetCache) (k : ℕ) (mem : Memory)
    → IsAtOffset s k c
    → CopiesOne s k 0 mem (some ([], c))
unfolding load
nothing_copied s c k mem h = (c, refl, (h.0, h.1, omega (arith, h)))

contig_advance_lem :
    (s : Segment) (c : OffsetCache) (k chunk : ℕ)
    → IsAtOffset s k c
    → c.pageoff + chunk ≤ page_size
    → IsAtOffset s (k + chunk) (contig_advance c chunk)
unfolding contig_advance
contig_advance_lem s c k chunk h b = elim (ℕ_discrete (c.pageoff + chunk) page_size) [
  | yes e ↦ rw (eq→== _ _ e) (h.0, omega arith, omega (arith, h, e))
  | no e ↦ rw (ne→== _ _ e) (h.0, omega (arith, e), omega (arith, h))
]

then_copy-CopiesOne :
    (s : Segment) (c : OffsetCache) (k m n all : ℕ) (mem : Memory)
    (o : Option (List ℕ × OffsetCache))
    → m + n ≡ all
    → IsAtOffset s k c
    → c.pageoff + m ≤ page_size
    → CopiesOne s (k + m) n mem o
    → CopiesOne s k all mem (then_copy (page_bytes s c m mem) o)
then_copy-CopiesOne s c k m n all mem o e h b (d, r, q) = (
  d,
  ap (then_copy (page_bytes s c m mem)) r
      ∙ ap (λ (t : List ℕ). some (t, d))
          (load-pieces _ _ (λ j. address_in s (s.first_page_offset + (k + j))) m n all mem e
            (λ j l.
              address_in-page s c.page c.pageoff j (omega (arith, l, b))
              ∙ ap (address_in s) (omega (arith, h)))
            (λ j l. ap (address_in s) (omega arith))),
  subst (λ t. IsAtOffset s t d) (let x : k + m + n ≡ k + all = omega (arith, e) in x) q,
)

-- The copy out of one segment.
contig_copy-CopiesOne :
    (fuel : ℕ) (s : Segment) (c : OffsetCache) (k remaining : ℕ) (mem : Memory)
    → IsAtOffset s k c
    → remaining < fuel
    → CopiesOne s k remaining mem (contig_copy fuel s c remaining mem)
unfolding contig_copy
contig_copy-CopiesOne zero s c k remaining mem h f = absurd (omega arith)
contig_copy-CopiesOne (suc fuel) s c k remaining mem h f = elim (dec_lt 0 remaining) [
  | no done ↦
      let nothing : remaining ≡ 0 = omega (arith, done) in rw nothing (nothing_copied s c k mem h)
  | yes more ↦
      let chunk = contig_chunk c remaining in
      let b : (chunk ≤ remaining) × (0 < chunk) × (c.pageoff + chunk ≤ page_size) =
        ground (arith, more, h) in
      rw (ne→== remaining 0 (λ z. omega (arith, z, more))) (
        then_copy-CopiesOne s c k chunk (remaining - chunk) remaining mem _ (omega (arith, b)) h b.2
          (contig_copy-CopiesOne fuel s (contig_advance c chunk) (k + chunk) (remaining - chunk) mem
            (contig_advance_lem s c k chunk h b.2) (omega (arith, b, f))))
]

copy_from-many :
    (behind : Segment) (nr : ℕ) (here : List Segment) (c : OffsetCache) (len : ℕ) (mem : Memory)
    → 1 < nr
    → copy_from behind nr here c len mem ≡ vect_copy behind (suc len) here c len mem
copy_from-many behind nr [] c len mem h = refl
copy_from-many behind nr (s ∷ ss) c len mem h = rw (lt→ltb 1 nr h) refl

-- A cache that stands at a place of a region copies the bytes of the region from there on, in order,
-- as many as are asked for where the region has them, and then stands behind them, so that the next
-- frame goes on from there.
pub copy_pages_to_buf_lem :
    (behind : Segment) (ss : List Segment) (c : OffsetCache) (k len : ℕ) (mem : Memory)
    → Stands ss k c
    → k + len ≤ segs_length ss
    → (d : OffsetCache) × (copy_pages_to_buf behind ss c len mem
        ≡ some (load (λ j. address ss (k + j)) len mem, d))
      × Stands ss (k + len) d
unfolding copy_pages_to_buf
copy_pages_to_buf_lem behind [] c k len mem h l = absurd h
copy_pages_to_buf_lem behind (s ∷ []) c k len mem h l =
    let one = contig_copy-CopiesOne (suc len) s c k len mem h (omega arith) in
    (
      one.0,
      ap (λ here. copy_from behind 1 here c len mem) h.0
          ∙ one.1
          ∙ ap (λ bytes. some (bytes, one.0))
              (load-ext _ _ len mem (λ j m. address-within s [] (k + j) (omega (arith, m, l)))),
      one.2,
    )
copy_pages_to_buf_lem behind (s ∷ t ∷ ss) c k len mem h l =
    let many =
      vect_copy-Copies behind (suc len) c.here c len mem refl h.fits (omega (arith, h.left, l))
        (omega arith) in
    (
      many.0,
      copy_from-many behind (length (s ∷ t ∷ ss)) c.here c len mem (omega arith)
          ∙ many.1
          ∙ ap (λ bytes. some (bytes, many.0))
              (load-ext _ _ len mem (λ j m. h.same j ∙ ap (address (s ∷ t ∷ ss)) (omega arith))),
      IsBehind-trans (s ∷ t ∷ ss) 0 k len c many.0 h many.2,
    )

-- In a region of several segments, whose lengths together fit an unsigned long, a cache for no bytes
-- at its very end is searched for behind the segments.
pub offset_cache_init-overruns :
    (ss : List Segment)
    → 1 < length ss
    → segs_length ss < long_mod
    → offset_cache_init ss (full_length ss) 0 ≡ out_of_bounds
unfolding offset_cache_init
offset_cache_init-overruns ss h f =
    ground (arith, h, full_length-fits ss f, search_segment-overruns ss)
