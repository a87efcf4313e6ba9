-- ===== src/UserRegion/Pinned.antt =====
-- driver/linux/omx_reg.c: what holds of a region while its pages are pinned, given the page that
-- the process has at each page of its memory.
use xen2mx.Base.{
  ℕ, ◌+◌, ◌-◌, ◌*◌, ◌/◌, ◌%◌, ◌<◌, ◌≤◌, ◌≡◌, refl, ap, List, [], ◌∷◌, ◌++◌, Option, none, some,
  arith, ◌^◌,
}
use xen2mx.UserRegion.{Segment, UserSegment, page_size, long_mod, segs_length}
use xen2mx.UserRegion.Pin.{Pinning, started_in, next_pages}

-- As omx_user_region_add_segment makes it.
pub record IsSegment (s : Segment) : Type 0 where
  pub offset_in_page : s.first_page_offset < page_size
  pub aligned : s.aligned_vaddr % page_size ≡ 0
  pub nonempty : 0 < s.seg_length
  pub in_memory : s.aligned_vaddr + s.first_page_offset + s.seg_length + page_size ≤ long_mod
  pub page_count : s.nr_pages ≡ (s.first_page_offset + s.seg_length + (page_size - 1)) / page_size

-- Its first n pages are those of the process.
abbrev pub IsMapped : (ℕ → ℕ) → Segment → ℕ → Type 0
IsMapped frame s n = (j : ℕ) → j < n → s.pages j ≡ frame (s.aligned_vaddr / page_size + j)

abbrev pub AllFresh : List Segment → Type 0
AllFresh [] = Unit {0}
AllFresh (s ∷ ss) = (IsSegment s × (s.pinned_pages ≡ 0)) × AllFresh ss

pub record IsFinished (frame : ℕ → ℕ) (s : Segment) : Type 0 where
  pub segment : IsSegment s
  pub all_pinned : s.pinned_pages ≡ s.nr_pages
  pub mapped : IsMapped frame s s.nr_pages

abbrev pub AllFinished : (ℕ → ℕ) → List Segment → Type 0
AllFinished frame [] = Unit {0}
AllFinished frame (s ∷ ss) = IsFinished frame s × AllFinished frame ss

-- In the segment s, i pages are pinned.
pub record IsCurrent (frame : ℕ → ℕ) (s : Segment) (i : ℕ) (p : Pinning) : Type 0 where
  pub segment : IsSegment s
  pub so_far : s.pinned_pages ≡ i
  pub vaddr : p.aligned_vaddr ≡ s.aligned_vaddr + i * page_size
  pub offset : p.chunk_offset < page_size
  pub begun : p.remaining < s.seg_length → p.chunk_offset ≡ 0
  pub some_left : 0 < p.remaining
  pub not_more : p.remaining ≤ s.seg_length
  pub place : i * page_size + p.chunk_offset + p.remaining ≡ s.first_page_offset + s.seg_length
  pub mapped : IsMapped frame s i
  pub registered : p.total_registered_length ≡ segs_length p.finished + (s.seg_length - p.remaining)

abbrev pub IsGoing : (ℕ → ℕ) → Pinning → List Segment → Option ℕ → Type 0
IsGoing frame p ss none = AllFresh ss × (p.total_registered_length ≡ segs_length p.finished)
IsGoing frame p [] (some i) = ⊥
IsGoing frame p (s ∷ ss) (some i) = IsCurrent frame s i p × AllFresh ss

-- The segments as the process gave them.
abbrev pub user_segs : List Segment → List UserSegment
user_segs [] = []
user_segs (s ∷ ss) =
    record { vaddr = s.aligned_vaddr + s.first_page_offset; len = s.seg_length } ∷ user_segs ss

abbrev pub pinned_total : List Segment → ℕ
pinned_total [] = 0
pinned_total (s ∷ ss) = s.pinned_pages + pinned_total ss

abbrev pub user_total : List UserSegment → ℕ
user_total [] = 0
user_total (u ∷ us) = u.len + user_total us

-- Bounds of the pages of a chunk for which none of the ints wraps around.
abbrev pub chunk_pages_limit : ℕ
chunk_pages_limit = 2 ^ 18

pub record IsPinning (frame : ℕ → ℕ) (us : List UserSegment) (p : Pinning) : Type 0 where
  pub done : AllFinished frame p.finished
  pub going : IsGoing frame p p.todo p.pages
  pub segs : user_segs p.finished ++ user_segs p.todo ≡ us
  pub chunks : (0 < p.next_chunk_pages) × (p.next_chunk_pages ≤ chunk_pages_limit)
  pub total : user_total us < long_mod
  pub refs : p.page_refs ≡ pinned_total p.finished + pinned_total p.todo

pub user_segs-append : (xs ys : List Segment) → user_segs (xs ++ ys) ≡ user_segs xs ++ user_segs ys
user_segs-append [] ys = refl
user_segs-append (x ∷ xs) ys =
    ap (◌∷◌ (record { vaddr = x.aligned_vaddr + x.first_page_offset; len = x.seg_length }))
      (user_segs-append xs ys)

pub pinned_total-append :
    (xs ys : List Segment) → pinned_total (xs ++ ys) ≡ pinned_total xs + pinned_total ys
pinned_total-append [] ys = omega arith
pinned_total-append (x ∷ xs) ys = omega (arith, pinned_total-append xs ys)

pub segs_length-append :
    (xs ys : List Segment) → segs_length (xs ++ ys) ≡ segs_length xs + segs_length ys
segs_length-append [] ys = omega arith
segs_length-append (x ∷ xs) ys = omega (arith, segs_length-append xs ys)

pub AllFinished-append :
    (frame : ℕ → ℕ) (xs : List Segment) (s : Segment)
    → AllFinished frame xs
    → IsFinished frame s
    → AllFinished frame (xs ++ (s ∷ []))
AllFinished-append frame [] s a f = (f, tt)
AllFinished-append frame (x ∷ xs) s a f = (a.0, AllFinished-append frame xs s a.1 f)

pub user_total-user_segs : (ss : List Segment) → user_total (user_segs ss) ≡ segs_length ss
user_total-user_segs [] = refl
user_total-user_segs (s ∷ ss) = omega (arith, user_total-user_segs ss)

pub user_total-append :
    (us vs : List UserSegment) → user_total (us ++ vs) ≡ user_total us + user_total vs
user_total-append [] vs = omega arith
user_total-append (u ∷ us) vs = omega (arith, user_total-append us vs)

-- Between its bounds, the number of pages stays there.
pub next_pages-bounds :
    (chunk_pages_max c : ℕ)
    → 0 < chunk_pages_max
    → chunk_pages_max ≤ chunk_pages_limit
    → 0 < c
    → c ≤ chunk_pages_limit
    → (0 < next_pages chunk_pages_max c) × (next_pages chunk_pages_max c ≤ chunk_pages_limit)
next_pages-bounds chunk_pages_max c h₁ h₂ h₃ h₄ = ground arith

-- A segment is started_in where none is.
pub started_in-IsCurrent :
    (frame : ℕ → ℕ) (s : Segment) (ss : List Segment) (p : Pinning) (o : Option ℕ)
    → p.pages ≡ o
    → IsGoing frame p (s ∷ ss) o
    → (i : ℕ) × ((started_in s p o).pages ≡ some i)
      × IsCurrent frame s i (started_in s p o)
      × AllFresh ss
started_in-IsCurrent frame s ss p none e g = (
  0,
  refl,
  record {
    segment = g.0.0.0;
    so_far = g.0.0.1;
    vaddr = omega arith;
    offset = g.0.0.0.offset_in_page;
    begun = λ l. absurd (omega arith);
    some_left = g.0.0.0.nonempty;
    not_more = omega arith;
    place = omega arith;
    mapped = λ j h. absurd (omega arith);
    registered = omega (arith, g.1);
  },
  g.0.1,
)
started_in-IsCurrent frame s ss p (some i) e g = (i, e, g.0, g.1)
