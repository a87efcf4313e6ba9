-- ===== src/UserRegion/Translate.antt =====
-- driver/linux/omx_reg.c: a region that is created and pinned is the memory of the process that it
-- was created from.
use native.Mathlib.Decide.{dec_lt}
use xen2mx.Base.{
  ℕ, suc, ◌+◌, ◌-◌, ◌*◌, ◌/◌, ◌%◌, ◌<◌, ◌≤◌, ◌≡◌, refl, sym, ap, ap₂, ◌∙◌, List, [], ◌∷◌, ◌++◌,
  Option, none, some, ltb, ◌==◌, if◌then◌else◌, arith, lt→ltb, le→ltb, Bool-cases, inl, inr,
}
use xen2mx.UserRegion.{
  Segment, UserSegment, page_size, full_length, segs_length, long_mod, add_segments, address,
  address_in,
}
use xen2mx.UserRegion.Fill.{full_length-fits}
use xen2mx.UserRegion.Pin.{
  Pinning, Gup, Pinned, pinned, failed, no_segment, pin_init, immediate_full_pin, put_pages,
}
use xen2mx.UserRegion.Pinned.{
  user_total, user_total-user_segs, IsSegment, IsMapped, AllFresh, AllFinished, IsGoing, IsPinning,
  user_segs, pinned_total, pinned_total-append, chunk_pages_limit,
}
use xen2mx.UserRegion.Continue.{IsPageTable, IsDone, pin_continue-IsDone}

-- The address in the process of a byte of the segments that the process gave.
abbrev pub user_address : List UserSegment → ℕ → ℕ
user_address [] k = 0
user_address (u ∷ us) k = if ltb k u.len then u.vaddr + k else user_address us (k - u.len)

-- The place in memory of a byte of the process.
abbrev pub translate : (ℕ → ℕ) → ℕ → ℕ
translate frame a = frame (a / page_size) * page_size + a % page_size

-- The segments of some length.
abbrev pub nonempty_segs : List UserSegment → List UserSegment
nonempty_segs [] = []
nonempty_segs (u ∷ us) = let more = nonempty_segs us in if u.len == 0 then more else u ∷ more

abbrev moved : UserSegment → ℕ → UserSegment
moved u v = record u { vaddr = v }

-- Segments of the address space: none reaches its last page.
abbrev pub AllInMemory : List UserSegment → Type 0
AllInMemory [] = Unit {0}
AllInMemory (u ∷ us) = (u.vaddr + u.len + page_size ≤ long_mod) × AllInMemory us

add_segments_lem :
    (memory : ℕ → ℕ) (us : List UserSegment)
    → AllInMemory us
    → AllFresh (add_segments memory us) × (user_segs (add_segments memory us) ≡ nonempty_segs us)
unfolding add_segments
add_segments_lem memory [] b = (tt, refl)
add_segments_lem memory (u ∷ us) b =
    let ih = add_segments_lem memory us b.1 in
    elim (Bool-cases (u.len == 0)) [
      | inl e ↦ rw e ih
      | inr e ↦ rw e (
        (
          (
            record {
              offset_in_page = omega arith;
              aligned = omega arith;
              nonempty = ground (arith, e);
              in_memory = omega (arith, b.0);
              page_count = omega (arith, b.0);
            },
            refl,
          ),
          ih.0,
        ),
        ap₂ ◌∷◌ (ap (moved u) (omega arith)) ih.1,
      )
    ]

fresh_pages : (ss : List Segment) → AllFresh ss → pinned_total ss ≡ 0
fresh_pages [] f = refl
fresh_pages (s ∷ ss) f = omega (arith, fresh_pages ss f.1, f.0.1)

-- A byte in the pages that are mapped.
address_in-translate :
    (frame : ℕ → ℕ) (s : Segment) (n k : ℕ)
    → IsSegment s
    → IsMapped frame s n
    → s.first_page_offset + k < n * page_size
    → address_in s (s.first_page_offset + k)
      ≡ translate frame (s.aligned_vaddr + s.first_page_offset + k)
address_in-translate frame s n k h m l =
    let at_page : (s.aligned_vaddr + s.first_page_offset + k) / page_size
        ≡ s.aligned_vaddr / page_size + (s.first_page_offset + k) / page_size =
      omega (arith, h.aligned) in
    let in_page : (s.aligned_vaddr + s.first_page_offset + k) % page_size
        ≡ (s.first_page_offset + k) % page_size =
      omega (arith, h.aligned) in
    rw (at_page, in_page, m ((s.first_page_offset + k) / page_size) (omega (arith, l))) refl

-- Behind the finished segments, the registered bytes of the one that is pinned.
going-translate :
    (frame : ℕ → ℕ) (p : Pinning) (todo : List Segment) (o : Option ℕ) (k : ℕ)
    → IsGoing frame p todo o
    → segs_length p.finished + k < p.total_registered_length
    → address todo k ≡ translate frame (user_address (user_segs todo) k)
going-translate frame p todo none k g l = absurd (omega (arith, g.1, l))
going-translate frame p [] (some i) k g l = absurd g
going-translate frame p (s ∷ ss) (some i) k (c, f) l =
    let within : k < s.seg_length = omega (arith, l, c.registered, c.some_left) in
    rw (lt→ltb _ _ within) (
      address_in-translate frame s i k c.segment c.mapped
        (omega (arith, l, c.registered, c.place, c.begun, c.not_more)))

finished-translate :
    (frame : ℕ → ℕ) (xs todo : List Segment) (registered k : ℕ)
    → AllFinished frame xs
    → ((j : ℕ)
        → segs_length xs + j < registered
        → address todo j ≡ translate frame (user_address (user_segs todo) j))
    → k < registered
    → address (xs ++ todo) k ≡ translate frame (user_address (user_segs xs ++ user_segs todo) k)
finished-translate frame [] todo registered k a h l = h k (omega (arith, l))
finished-translate frame (s ∷ xs) todo registered k (f, a) h l = elim (dec_lt k s.seg_length) [
  | yes within ↦ rw (lt→ltb _ _ within) (
      address_in-translate frame s s.nr_pages k f.segment f.mapped
        (omega (arith, f.segment.page_count, within)))
  | no behind ↦ rw (le→ltb k s.seg_length (omega (arith, behind))) (
      finished-translate frame xs todo (registered - s.seg_length) (k - s.seg_length) a
        (λ j m. h j (omega (arith, m))) (omega (arith, l, behind)))
]

-- While a region is pinned, every registered byte of it lies where the process has it.
pub registered-translate :
    (frame : ℕ → ℕ) (us : List UserSegment) (p : Pinning) (k : ℕ)
    → IsPinning frame us p
    → k < p.total_registered_length
    → address (p.finished ++ p.todo) k ≡ translate frame (user_address us k)
registered-translate frame us p k h l =
    finished-translate frame p.finished p.todo p.total_registered_length k h.done
      (λ j m. going-translate frame p p.todo p.pages j h.going m) l
    ∙ ap (λ vs. translate frame (user_address vs k)) h.segs

-- The pages that the segments count are put.
pub put_pages_lem :
    (ss : List Segment) (page_refs : ℕ) → put_pages ss page_refs ≡ page_refs - pinned_total ss
unfolding put_pages
put_pages_lem [] page_refs = omega arith
put_pages_lem (s ∷ ss) page_refs = omega (arith, put_pages_lem ss (page_refs - s.pinned_pages))

-- Nothing is pinned at the start.
pub pin_init-IsPinning :
    (frame : ℕ → ℕ) (chunk_pages_min : ℕ) (memory : ℕ → ℕ) (us : List UserSegment)
    → 0 < chunk_pages_min
    → chunk_pages_min ≤ chunk_pages_limit
    → AllInMemory us
    → user_total (nonempty_segs us) < long_mod
    → IsPinning frame (nonempty_segs us) (pin_init chunk_pages_min (add_segments memory us))
unfolding pin_init
pin_init-IsPinning frame chunk_pages_min memory us lo least in_memory small =
    let made = add_segments_lem memory us in_memory in
    record {
      done = tt;
      going = (made.0, refl);
      segs = made.1;
      chunks = (lo, least);
      total = small;
      refs = omega (arith, fresh_pages (add_segments memory us) made.0);
    }

-- All is pinned, or the references are given up with the segments.
abbrev pub IsFullyPinned : (ℕ → ℕ) → List UserSegment → Pinned → Type 0
IsFullyPinned frame us (pinned q) =
    (k : ℕ)
    → k < user_total us
    → address (q.finished ++ q.todo) k ≡ translate frame (user_address us k)
IsFullyPinned frame us (failed q) = put_pages (q.finished ++ q.todo) q.page_refs ≡ 0
IsFullyPinned frame us no_segment = ⊥

fully_pinned :
    (frame : ℕ → ℕ) (us : List UserSegment) (needed : ℕ) (o : Pinned)
    → user_total us ≤ needed
    → IsDone frame us needed o
    → IsFullyPinned frame us o
fully_pinned frame us needed (pinned q) t d =
    λ k l. registered-translate frame us q k d.0 (omega (arith, t, l, d.1))
fully_pinned frame us needed (failed q) t d =
    put_pages_lem (q.finished ++ q.todo) q.page_refs
    ∙ omega (arith, d, pinned_total-append q.finished q.todo)
fully_pinned frame us needed no_segment t d = d

-- A region that the driver makes of the segments of a process, where get_user_pages gives the pages
-- of the process, the bounds on the pages of a chunk are between 1 and 2 ^ 18, no segment reaches the
-- last page of the address space, and the lengths together fit an unsigned long: pinning it ends;
-- either all of it is pinned and each of its bytes lies where the process has it, or pinning failed and putting the pages of its segments gives up every reference.
pub immediate_full_pin_lem :
    (gup : ℕ → ℕ → Gup) (frame : ℕ → ℕ) (chunk_pages_min chunk_pages_max : ℕ) (memory : ℕ → ℕ)
    (us : List UserSegment)
    → IsPageTable gup frame
    → 0 < chunk_pages_min
    → chunk_pages_min ≤ chunk_pages_limit
    → 0 < chunk_pages_max
    → chunk_pages_max ≤ chunk_pages_limit
    → AllInMemory us
    → user_total (nonempty_segs us) < long_mod
    → IsFullyPinned frame (nonempty_segs us) (
        immediate_full_pin gup chunk_pages_min chunk_pages_max
          (add_segments memory us)
          (full_length (add_segments memory us)))
unfolding immediate_full_pin
immediate_full_pin_lem gup frame chunk_pages_min chunk_pages_max memory us table lo least hi most
      in_memory small =
    let made = add_segments_lem memory us in_memory in
    let ss = add_segments memory us in
    let total : user_total (nonempty_segs us) ≡ segs_length ss =
      ap user_total (sym made.1) ∙ user_total-user_segs ss in
    let fits : full_length ss ≡ user_total (nonempty_segs us) =
      full_length-fits ss (omega (arith, total, small)) ∙ sym total in
    fully_pinned frame (nonempty_segs us) (full_length ss) _ (omega (arith, fits)) (
      pin_continue-IsDone gup frame chunk_pages_max (nonempty_segs us) table hi most
        (suc (full_length ss)) (pin_init chunk_pages_min ss) (full_length ss)
        (pin_init-IsPinning frame chunk_pages_min memory us lo least in_memory small)
        (omega (arith, fits)) (omega arith))
