-- ===== src/UserRegion/Copied.antt =====
-- driver/linux/omx_reg.c: what is copied by an offset cache, and where it then stands.
use native.Mathlib.Decide.{dec_lt, ℕ_discrete}
use xen2mx.Base.{
  ℕ, zero, suc, ◌+◌, ◌-◌, ◌*◌, ◌<◌, ◌≤◌, ◌≡◌, refl, sym, ap, ◌∙◌, subst, List, [], ◌∷◌, ◌++◌,
  Option, some, arith, eq→==, ne→==,
}
use xen2mx.UserRegion.Store.{Memory, load, load-ext, load-pieces}
use xen2mx.UserRegion.{Segment, page_size, segs_length, address, address_in}
use xen2mx.UserRegion.Fill.{address-behind, address-within, address_in-page}
use xen2mx.UserRegion.Cache.{
  OffsetCache, next_segment, vect_chunk, vect_advance, page_bytes, then_copy, vect_copy,
}

abbrev pub AllProper : List Segment → Type 0
AllProper [] = Unit {0}
AllProper (s ∷ ss) = ((0 < s.seg_length) × (s.first_page_offset < page_size)) × AllProper ss

-- The page and its offset are those of the offset in the segment.
abbrev pub Fits : List Segment → OffsetCache → Type 0
Fits [] c = c.segoff ≡ 0
Fits (s ∷ ss) c =
    (c.segoff < s.seg_length)
    × (c.pageoff < page_size)
    × (c.page * page_size + c.pageoff ≡ s.first_page_offset + c.segoff)
    × AllProper ss

-- The cache d stands n bytes behind an offset in some segments.
pub record IsBehind (here : List Segment) (segoff n : ℕ) (d : OffsetCache) : Type 0 where
  pub fits : Fits d.here d
  pub same : (j : ℕ) → address d.here (d.segoff + j) ≡ address here (segoff + n + j)
  pub left : segs_length d.here + (segoff + n) ≡ segs_length here + d.segoff

next_segment-IsBehind :
    (behind s : Segment) (ss : List Segment) (segoff chunk : ℕ)
    → segoff + chunk ≡ s.seg_length
    → AllProper ss
    → IsBehind (s ∷ ss) segoff chunk (next_segment behind ss)
next_segment-IsBehind behind s [] segoff chunk e f = record {
  fits = refl;
  same = λ j. address-behind s [] (segoff + chunk + j) (omega (arith, e));
  left = omega (arith, e);
}
next_segment-IsBehind behind s (t ∷ ss) segoff chunk e f = record {
  fits = (f.0.0, f.0.1, omega arith, f.1);
  same = λ j.
      ap (address (t ∷ ss)) (omega (arith, e))
      ∙ address-behind s (t ∷ ss) (segoff + chunk + j) (omega (arith, e));
  left = omega (arith, e);
}

module _ (behind s : Segment) (ss : List Segment) (c : OffsetCache) (f : Fits (s ∷ ss) c) where
  vect_advance-IsBehind :
      (chunk : ℕ)
      → c.segoff + chunk ≤ s.seg_length
      → c.pageoff + chunk ≤ page_size
      → IsBehind (s ∷ ss) c.segoff chunk (vect_advance behind s ss c chunk)
  unfolding vect_advance
  vect_advance-IsBehind chunk h g = elim (ℕ_discrete (c.segoff + chunk) s.seg_length) [
    | yes e ↦ rw (eq→== _ _ e) (next_segment-IsBehind behind s ss c.segoff chunk e f.3)
    | no e ↦ elim (ℕ_discrete (c.pageoff + chunk) page_size) [
      | yes e' ↦
          rw (ne→== _ _ e, eq→== _ _ e')
            (record {
              fits = (omega (arith, e), omega arith, omega (arith, f, e'), f.3);
              same = λ j. refl;
              left = omega arith;
            })
      | no e' ↦
          rw (ne→== _ _ e, ne→== _ _ e')
            (record {
              fits = (omega (arith, e), omega (arith, e'), omega (arith, f), f.3);
              same = λ j. refl;
              left = omega arith;
            })
    ]
  ]

  chunk_bounds :
      (remaining : ℕ)
      → 0 < remaining
      → (0 < vect_chunk s c remaining)
        × (vect_chunk s c remaining ≤ remaining)
        × (c.segoff + vect_chunk s c remaining ≤ s.seg_length)
        × (c.pageoff + vect_chunk s c remaining ≤ page_size)
  chunk_bounds remaining h = ground (arith, f)

  page_bytes_lem :
      (chunk : ℕ) (mem : Memory)
      → c.segoff + chunk ≤ s.seg_length
      → c.pageoff + chunk ≤ page_size
      → page_bytes s c chunk mem ≡ load (λ j. address (s ∷ ss) (c.segoff + j)) chunk mem
  page_bytes_lem chunk mem h g = load-ext _ _ chunk mem λ k l.
      address_in-page s c.page c.pageoff k (omega (arith, l, g))
      ∙ ap (address_in s) (omega (arith, f))
      ∙ address-within s ss (c.segoff + k) (omega (arith, l, h))

-- One chunk after another.
pub IsBehind-trans :
    (here : List Segment) (segoff m n : ℕ) (c d : OffsetCache)
    → IsBehind here segoff m c
    → IsBehind c.here c.segoff n d
    → IsBehind here segoff (m + n) d
IsBehind-trans here segoff m n c d p q = record {
  fits = q.fits;
  same = λ j.
      q.same j
      ∙ ap (address c.here) (omega arith)
      ∙ p.same (n + j)
      ∙ ap (address here) (omega arith);
  left = omega (arith, p.left, q.left);
}

-- The copy loop returns these bytes and a cache behind them.
abbrev pub Copies : List Segment → ℕ → ℕ → Memory → Option (List ℕ × OffsetCache) → Type 0
Copies here segoff n mem o =
    (d : OffsetCache) × (o ≡ some (load (λ j. address here (segoff + j)) n mem, d))
    × IsBehind here segoff n d

then_copy-Copies :
    (here : List Segment) (segoff m n all : ℕ) (c : OffsetCache) (mem : Memory) (bytes : List ℕ)
    (o : Option (List ℕ × OffsetCache))
    → m + n ≡ all
    → bytes ≡ load (λ j. address here (segoff + j)) m mem
    → IsBehind here segoff m c
    → Copies c.here c.segoff n mem o
    → Copies here segoff all mem (then_copy bytes o)
then_copy-Copies here segoff m n all c mem bytes o e b p (d, r, q) = (
  d,
  ap (then_copy bytes) r
      ∙ ap (λ (t : List ℕ). some (t ++ load (λ j. address c.here (c.segoff + j)) n mem, d)) b
      ∙ ap (λ (t : List ℕ). some (t, d))
          (load-pieces _ _ (λ j. address here (segoff + j)) m n all mem e (λ k l. refl)
            (λ k l. p.same k ∙ ap (address here) (omega arith))),
  subst (λ t. IsBehind here segoff t d) e (IsBehind-trans here segoff m n c d p q),
)

-- A copy of no bytes.
stays :
    (here : List Segment) (c : OffsetCache) (mem : Memory)
    → c.here ≡ here
    → Fits here c
    → Copies here c.segoff 0 mem (some ([], c))
unfolding load
stays here c mem e f = (
  c,
  refl,
  record {
    fits = subst (λ h. Fits h c) (sym e) f;
    same = λ j. ap (λ h. address h (c.segoff + j)) e ∙ ap (address here) (omega arith);
    left = ap (λ h. segs_length h + (c.segoff + 0)) e ∙ omega arith;
  },
)

pub vect_copy-Copies :
    (behind : Segment) (fuel : ℕ) (here : List Segment) (c : OffsetCache) (remaining : ℕ)
    (mem : Memory)
    → c.here ≡ here
    → Fits here c
    → c.segoff + remaining ≤ segs_length here
    → remaining < fuel
    → Copies here c.segoff remaining mem (vect_copy behind fuel here c remaining mem)
unfolding vect_copy
vect_copy-Copies behind zero here c remaining mem e f l h = absurd (omega arith)
vect_copy-Copies behind (suc fuel) [] c remaining mem e f l h =
    let nothing : remaining ≡ 0 = omega arith in rw nothing (stays [] c mem e f)
vect_copy-Copies behind (suc fuel) (s ∷ ss) c remaining mem e f l h = elim (dec_lt 0 remaining) [
  | no done ↦
      let nothing : remaining ≡ 0 = omega (arith, done) in rw nothing (stays (s ∷ ss) c mem e f)
  | yes more ↦
      let chunk = vect_chunk s c remaining in
      let b = chunk_bounds behind s ss c f remaining more in
      let p = vect_advance-IsBehind behind s ss c f chunk b.2 b.3 in
      let d = vect_advance behind s ss c chunk in
      rw (ne→== remaining 0 (λ z. omega (arith, z, more))) (
        then_copy-Copies (s ∷ ss) c.segoff chunk (remaining - chunk) remaining d mem _ _
          (omega (arith, b)) (page_bytes_lem behind s ss c f chunk mem b.2 b.3) p
          (vect_copy-Copies behind fuel d.here d (remaining - chunk) mem refl p.fits
            (omega (arith, p.left, b, l)) (omega (arith, b, h))))
]
