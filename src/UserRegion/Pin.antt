-- ===== src/UserRegion/Pin.antt =====
-- driver/linux/omx_reg.c: the pages of a region are pinned chunk by chunk. get_user_pages_fast is
-- an argument. The pointer to the current segment is the place between the segments that are
-- finished and the others; `pages` is the index behind the pages pinned so far in the current one,
-- or `none`, the source's NULL; `page_refs` counts the references to pages.
-- An int is given by its 32 bits.
use xen2mx.Base.{
  ℕ, zero, suc, ◌+◌, ◌-◌, ◌*◌, ◌/◌, List, [], ◌∷◌, ◌++◌, Option, none, some, ltb, leb, ◌==◌, ◌&&◌,
  if◌then◌else◌, add32, sub32, ◌%◌, ◌^◌, Bool,
}
use xen2mx.UserRegion.{Segment, page_size, long_mod}

-- What get_user_pages_fast returns: an error, or how many pages it pinned and which.
pub data Gup : Type 0 where
  error : Gup
  pinned : ℕ → (ℕ → ℕ) → Gup

-- struct omx_user_region_pin_state and what changes of the region
pub record Pinning : Type 0 where
  pub finished : List Segment
  pub todo : List Segment
  pub pages : Option ℕ
  pub aligned_vaddr : ℕ
  pub remaining : ℕ
  pub chunk_offset : ℕ
  pub next_chunk_pages : ℕ
  pub total_registered_length : ℕ
  pub page_refs : ℕ

-- omx__user_region_pin_init
unfoldable pub pin_init : ℕ → List Segment → Pinning
pin_init chunk_pages_min ss = record {
  finished = [];
  todo = ss;
  pages = none;
  aligned_vaddr = 0;
  remaining = 0;
  chunk_offset = 0;
  next_chunk_pages = chunk_pages_min;
  total_registered_length = 0;
  page_refs = 0;
}

-- omx__user_region_pin_new_segment
abbrev pub pin_new_segment : Segment → Pinning → Pinning
pin_new_segment s p = record p {
  aligned_vaddr = s.aligned_vaddr;
  pages = some 0;
  remaining = s.seg_length;
  chunk_offset = s.first_page_offset;
}

abbrev pub started_in : Segment → Pinning → Option ℕ → Pinning
started_in s p none = pin_new_segment s p
started_in s p (some i) = p

-- The comparison of ints, and the conversion of an int to an unsigned long.
abbrev pub int_ltb : ℕ → ℕ → Bool
int_ltb a b = ltb (add32 a (2 ^ 31)) (add32 b (2 ^ 31))

abbrev pub to_long : ℕ → ℕ
to_long n = if ltb n (2 ^ 31) then n else n + (long_mod - 2 ^ 32)

-- The number of pages to pin in the next chunk.
abbrev pub next_pages : ℕ → ℕ → ℕ
next_pages chunk_pages_max c =
    let twice = c * 2 % 2 ^ 32 in
    if int_ltb c chunk_pages_max
    then (if int_ltb chunk_pages_max twice then chunk_pages_max else twice)
    else c

-- The length of the chunk, an int.
abbrev pub chunk_length : Pinning → ℕ
chunk_length p =
    let most = p.next_chunk_pages * page_size % 2 ^ 32 in
    if leb ((to_long p.chunk_offset + p.remaining) % long_mod) (to_long most)
    then p.remaining % 2 ^ 32
    else sub32 most p.chunk_offset

-- The number of its pages, an int.
abbrev pub chunk_pages : Pinning → ℕ
chunk_pages p =
    (to_long (add32 p.chunk_offset (chunk_length p)) + (page_size - 1))
    % long_mod
    / page_size
    % 2 ^ 32

abbrev pub index_of : Option ℕ → ℕ
index_of none = 0
index_of (some i) = i

-- The segment with n more pages.
abbrev pub with_pages : Segment → ℕ → ℕ → (ℕ → ℕ) → Segment
with_pages s i n frames = record s {
  pinned_pages = s.pinned_pages + n;
  pages = λ j. if leb i j && ltb j (i + n) then frames (j - i) else s.pages j;
}

-- The state behind a chunk that was pinned.
unfoldable pub advance : ℕ → Segment → List Segment → Pinning → (ℕ → ℕ) → Pinning
advance chunk_pages_max s ss p frames =
    let l = to_long (chunk_length p) in
    let n = chunk_pages p in
    let i = index_of p.pages in
    let s' = with_pages s i n frames in
    let keep = ltb l p.remaining in
    record {
      finished = if keep then p.finished else p.finished ++ (s' ∷ []);
      todo = if keep then s' ∷ ss else ss;
      pages = if keep then some (i + n) else none;
      aligned_vaddr =
          if keep
          then (p.aligned_vaddr + to_long p.chunk_offset + l) % long_mod
          else p.aligned_vaddr;
      remaining = if keep then p.remaining - l else p.remaining;
      chunk_offset = if keep then 0 else p.chunk_offset;
      next_chunk_pages = next_pages chunk_pages_max p.next_chunk_pages;
      total_registered_length = (p.total_registered_length + l) % long_mod;
      page_refs = p.page_refs + n;
    }

-- A chunk is pinned, or is not and the pages got are given back, or no segment is left.
pub data Pinned : Type 0 where
  pinned : Pinning → Pinned
  failed : Pinning → Pinned
  no_segment : Pinned

abbrev pub answered : ℕ → Segment → List Segment → Pinning → Gup → Pinned
answered chunk_pages_max s ss p error = failed p
answered chunk_pages_max s ss p (pinned ret frames) =
    if ret == chunk_pages p
    then pinned (advance chunk_pages_max s ss p frames)
    else failed (record p { page_refs = p.page_refs + ret - ret })

-- omx__user_region_pin_add_chunk
unfoldable pub add_chunk_from : (ℕ → ℕ → Gup) → ℕ → List Segment → Pinning → Pinned
unfolding advance
add_chunk_from gup chunk_pages_max [] p = no_segment
add_chunk_from gup chunk_pages_max (s ∷ ss) p =
    let q = started_in s p p.pages in
    answered chunk_pages_max s ss q (gup q.aligned_vaddr (chunk_pages q))

unfoldable pub pin_add_chunk : (ℕ → ℕ → Gup) → ℕ → Pinning → Pinned
unfolding add_chunk_from
pin_add_chunk gup chunk_pages_max p = add_chunk_from gup chunk_pages_max p.todo p

abbrev pub pin_then : Pinned → (Pinning → Pinned) → Pinned
pin_then (pinned p) next = next p
pin_then (failed p) next = failed p
pin_then no_segment next = no_segment

-- The loop of omx__user_region_pin_continue, on fuel, which is shown to be enough.
unfoldable pub pin_continue : ℕ → (ℕ → ℕ → Gup) → ℕ → Pinning → ℕ → Pinned
pin_continue zero gup chunk_pages_max p needed = no_segment
pin_continue (suc fuel) gup chunk_pages_max p needed =
    let rest =
      pin_then (pin_add_chunk gup chunk_pages_max p)
        λ q. pin_continue fuel gup chunk_pages_max q needed in
    if ltb p.total_registered_length needed then rest else pinned p

-- omx_user_region_immediate_full_pin
unfoldable pub immediate_full_pin : (ℕ → ℕ → Gup) → ℕ → ℕ → List Segment → ℕ → Pinned
unfolding pin_continue pin_init
immediate_full_pin gup chunk_pages_min chunk_pages_max ss full_length =
    pin_continue (suc full_length) gup chunk_pages_max (pin_init chunk_pages_min ss) full_length

-- omx_user_region_destroy_segments: each pinned page of each segment is put.
unfoldable pub put_pages : List Segment → ℕ → ℕ
put_pages [] page_refs = page_refs
put_pages (s ∷ ss) page_refs = put_pages ss (page_refs - s.pinned_pages)
