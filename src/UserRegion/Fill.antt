-- ===== src/UserRegion/Fill.antt =====
-- driver/linux/omx_reg.c, omx_user_region_fill_pages: it stores the bytes of the packet at the
-- places of the region, byte by byte.
use native.Mathlib.Decide.{dec_lt}
use xen2mx.Base.{
  ℕ, zero, suc, ◌+◌, ◌-◌, ◌*◌, ◌/◌, ◌%◌, ◌<◌, ◌≤◌, ◌≡◌, refl, ap, ◌∙◌, List, [], ◌∷◌, some, ◌⊎◌,
  inl, inr, ltb, if◌then◌else◌, arith, lt→ltb, le→ltb, le→leb, gt→leb, eq→==, ne→==,
}
use xen2mx.UserRegion.Store.{Memory, store, store-ext, store-pieces}
use xen2mx.UserRegion.{
  Segment, page_size, full_length, segs_length, long_mod, fill_loop, segment_fill_pages,
  fill_segments, fill_pages, filled, invalid, address, address_in,
}

-- A place within a page.
pub address_in-page :
    (s : Segment) (i q k : ℕ)
    → q + k < page_size
    → s.pages i * page_size + q + k ≡ address_in s (i * page_size + q + k)
address_in-page s i q k h =
    let e : (i * page_size + q + k) / page_size ≡ i = omega arith in
    let f : (i * page_size + q + k) % page_size ≡ q + k = omega arith in rw (e, f) (omega arith)

fill_loop_lem :
    (fuel : ℕ) (s : Segment) (skb : ℕ → ℕ) (len i q skb_offset copied remaining : ℕ) (mem : Memory)
    → q < page_size
    → remaining < fuel
    → copied + remaining ≡ len
    → fill_loop fuel s skb len i q skb_offset copied remaining mem
      ≡ some (
          store
            (λ k. address_in s (i * page_size + q + k))
            (λ k. skb (skb_offset + k))
            remaining
            mem)
unfolding fill_loop
fill_loop_lem zero s skb len i q skb_offset copied remaining mem h f c = absurd (omega arith)
fill_loop_lem (suc fuel) s skb len i q skb_offset copied remaining mem h f c =
    let room = page_size - q in
    elim (dec_lt room remaining) [
      | no fits ↦
          let chunk : (if ltb remaining room then remaining else room) ≡ remaining = ground arith in
          let nothing_left : remaining - remaining ≡ 0 = omega arith in
          rw (chunk, nothing_left, eq→== _ _ c)
            (ap some (
              store-ext _ _ _ _ remaining mem (λ k l. address_in-page s i q k (omega arith))
                (λ k l. refl)))
      | yes more ↦
          rw
            (
              le→ltb remaining room (omega arith),
              ne→== (remaining - room) 0 (λ e. omega (arith, e)),
            )
            (fill_loop_lem fuel s skb len (i + 1) 0 (skb_offset + room) (copied + room)
                (remaining - room) _ (omega arith) (omega arith) (omega arith)
              ∙ ap some (
                  store-pieces _ _ _ _ _ _ room (remaining - room) remaining mem (omega arith)
                    (λ k l. address_in-page s i q k (omega arith)) (λ k l. refl)
                    (λ k l. ap (address_in s) (omega arith)) (λ k l. ap skb (omega arith))))
    ]

segment_fill_pages_lem :
    (s : Segment) (off : ℕ) (skb : ℕ → ℕ) (skb_offset len : ℕ) (mem : Memory)
    → segment_fill_pages s off skb skb_offset len mem
      ≡ some (
          store
            (λ k. address_in s (s.first_page_offset + (off + k)))
            (λ k. skb (skb_offset + k))
            len
            mem)
unfolding segment_fill_pages
segment_fill_pages_lem s off skb skb_offset len mem =
    fill_loop_lem (suc len) s skb len _ _ skb_offset 0 len mem (omega arith) (omega arith)
      (omega arith)
    ∙ ap some (store-ext _ _ _ _ len mem (λ k l. ap (address_in s) (omega arith)) (λ k l. refl))

-- A place behind a segment, and one in it.
pub address-behind :
    (s : Segment) (ss : List Segment) (k : ℕ)
    → s.seg_length ≤ k
    → address ss (k - s.seg_length) ≡ address (s ∷ ss) k
address-behind s ss k h = rw (le→ltb k s.seg_length h) refl

pub address-within :
    (s : Segment) (ss : List Segment) (k : ℕ)
    → k < s.seg_length
    → address_in s (s.first_page_offset + k) ≡ address (s ∷ ss) k
address-within s ss k h = rw (lt→ltb k s.seg_length h) refl

fill_segments_lem :
    (ss : List Segment) (skb : ℕ → ℕ) (len off skb_offset copied remaining : ℕ) (mem : Memory)
    → off + remaining ≤ segs_length ss
    → copied + remaining ≡ len
    → fill_segments ss skb len off skb_offset copied remaining mem
      ≡ filled (store (λ k. address ss (off + k)) (λ k. skb (skb_offset + k)) remaining mem)
unfolding fill_segments store
fill_segments_lem [] skb len off skb_offset copied remaining mem h c =
    let none_left : remaining ≡ 0 = omega arith in
    let all : copied ≡ len = omega arith in rw (none_left, eq→== copied len all) refl
fill_segments_lem (s ∷ ss) skb len off skb_offset copied remaining mem h c =
    elim (dec_lt off s.seg_length) [
      | no behind ↦ rw (le→leb s.seg_length off (omega arith)) (
          fill_segments_lem ss skb len (off - s.seg_length) skb_offset copied remaining mem
            (omega arith) c
          ∙ ap filled (
              store-ext _ _ _ _ remaining mem
                (λ k l. ap (address ss) (omega arith) ∙ address-behind s ss (off + k) (omega arith))
                (λ k l. refl)))
      | yes within ↦ elim (dec_lt s.seg_length (off + remaining)) [
        | yes longer ↦
            let chunk = s.seg_length - off in
            rw
              (
                gt→leb s.seg_length off within,
                lt→ltb _ _ longer,
                segment_fill_pages_lem s off skb skb_offset chunk mem,
              )
              (fill_segments_lem ss skb len 0 (skb_offset + chunk) (copied + chunk)
                  (remaining - chunk) _ (omega arith) (omega arith)
                ∙ ap filled (
                    store-pieces _ _ _ _ _ _ chunk (remaining - chunk) remaining mem (omega arith)
                      (λ k l. address-within s ss (off + k) (omega arith)) (λ k l. refl)
                      (λ k l.
                        ap (address ss) (omega arith)
                        ∙ address-behind s ss (off + (chunk + k)) (omega arith))
                      (λ k l. ap skb (omega arith))))
        | no last ↦
            rw
              (
                gt→leb s.seg_length off within,
                le→ltb s.seg_length (off + remaining) (omega arith),
                segment_fill_pages_lem s off skb skb_offset remaining mem,
                eq→== _ _ c,
              )
              (ap filled (
                store-ext _ _ _ _ remaining mem (λ k l. address-within s ss (off + k) (omega arith))
                  (λ k l. refl)))
      ]
    ]

-- The sum of the lengths is not more than the lengths together, and is those where they fit.
pub full_length-le : (ss : List Segment) → full_length ss ≤ segs_length ss
full_length-le [] = omega arith
full_length-le (s ∷ ss) = omega (arith, full_length-le ss)

pub full_length-fits :
    (ss : List Segment) → segs_length ss < long_mod → full_length ss ≡ segs_length ss
full_length-fits [] h = refl
full_length-fits (s ∷ ss) h = omega (arith, full_length-fits ss (omega (arith, h)), h)

-- A fill that stays in the region stores the bytes of the packet one by one, in order, at the places
-- of the region from the offset on, and runs into no BUG_ON; any other is refused.
pub fill_pages_lem :
    (header : ℕ) (ss : List Segment) (off : ℕ) (skb : ℕ → ℕ) (len : ℕ) (mem : Memory)
    → ((off + len ≤ full_length ss)
        × (fill_pages header ss off skb len mem
            ≡ filled (store (λ k. address ss (off + k)) (λ k. skb (header + k)) len mem)))
      ⊎ ((full_length ss < off + len) × (fill_pages header ss off skb len mem ≡ invalid))
unfolding fill_pages
fill_pages_lem header ss off skb len mem = elim (dec_lt (full_length ss) (off + len)) [
  | yes over ↦ inr (over, rw (lt→ltb _ _ over) refl)
  | no fits ↦ inl (
    omega arith,
    rw (le→ltb (full_length ss) (off + len) (omega arith)) (
        fill_segments_lem ss skb len off header 0 len mem (omega (arith, fits, full_length-le ss))
          (omega arith)),
  )
]
