-- ===== src/UserRegion.antt =====
-- driver/linux/omx_reg.c: the memory regions of an endpoint in the driver. A region has segments, a
-- segment has pages of the kernel, and the bytes of the memory are a function of the address, a page
-- being 4096 of them behind its number times 4096. The bytes of a packet are a function of their
-- place in it; the callers have checked that the packet is long enough. An unsigned long has 64
-- bits; offsets into a region and lengths of packets are below 2 ^ 32, so that their sums fit it.
pub mod Store
pub mod Fill
pub mod Message
pub mod Pin
pub mod Pinned
pub mod Chunk
pub mod Continue
pub mod Translate
pub mod Arrive
pub mod Cache
pub mod Copied
pub mod Send
pub mod Tests
use xen2mx.Base.{
  ℕ, zero, suc, ◌+◌, ◌-◌, ◌*◌, ◌/◌, ◌%◌, ◌^◌, List, [], ◌∷◌, Option, none, some, Bool, ltb, leb,
  ◌==◌, not, ◌||◌, if◌then◌else◌, update,
}
use xen2mx.UserRegion.Store.{Memory, store}

-- 2 ^ (the bits of an unsigned long)
abbrev pub long_mod : ℕ
long_mod = 2 ^ 64

-- PAGE_SIZE
abbrev pub page_size : ℕ
page_size = 4096

-- struct omx_user_region_segment
pub record Segment : Type 0 where
  pub aligned_vaddr : ℕ
  pub first_page_offset : ℕ
  pub seg_length : ℕ
  pub nr_pages : ℕ
  pub pinned_pages : ℕ
  pub pages : ℕ → ℕ

-- struct omx_cmd_user_segment
pub record UserSegment : Type 0 where
  pub vaddr : ℕ
  pub len : ℕ

-- omx_user_region_add_segment, once the page array is allocated, given what its memory held
unfoldable pub add_segment : (ℕ → ℕ) → UserSegment → Segment
add_segment memory u =
    let offset = u.vaddr % page_size in
    let aligned_len = (offset + u.len + (page_size - 1)) % long_mod / page_size * page_size in
    record {
      aligned_vaddr = u.vaddr - offset;
      first_page_offset = offset;
      seg_length = u.len;
      nr_pages = aligned_len / page_size;
      pinned_pages = 0;
      pages = memory;
    }

-- region->total_length, the sum that the loop of omx_ioctl_user_region_create makes
abbrev pub full_length : List Segment → ℕ
full_length [] = 0
full_length (s ∷ ss) = (s.seg_length + full_length ss) % long_mod

-- The lengths of the segments together.
abbrev pub segs_length : List Segment → ℕ
segs_length [] = 0
segs_length (s ∷ ss) = s.seg_length + segs_length ss

-- The loop of omx_ioctl_user_region_create: segments of no length are left out.
unfoldable pub add_segments : (ℕ → ℕ) → List UserSegment → List Segment
unfolding add_segment
add_segments memory [] = []
add_segments memory (u ∷ us) =
    let more = add_segments memory us in if u.len == 0 then more else add_segment memory u ∷ more

-- skb_copy_bits, into consecutive addresses
abbrev pub copy_bits : (ℕ → ℕ) → ℕ → ℕ → ℕ → Memory → Memory
copy_bits skb skb_offset addr n mem = store (λ k. addr + k) (λ k. skb (skb_offset + k)) n mem

-- The loop of omx__user_region_segment_fill_pages, on fuel, up to its BUG_ON.
unfoldable pub fill_loop : ℕ → Segment → (ℕ → ℕ) → ℕ → ℕ → ℕ → ℕ → ℕ → ℕ → Memory → Option Memory
fill_loop zero s skb len i page_offset skb_offset copied remaining mem = none
fill_loop (suc fuel) s skb len i page_offset skb_offset copied remaining mem =
    let chunk =
      if ltb remaining (page_size - page_offset) then remaining else page_size - page_offset in
    let mem' = copy_bits skb skb_offset (s.pages i * page_size + page_offset) chunk mem in
    let rest =
      fill_loop fuel s skb len (i + 1) 0 (skb_offset + chunk) (copied + chunk) (remaining - chunk)
        mem' in
    if remaining - chunk == 0 then (if copied + chunk == len then some mem' else none) else rest

-- omx__user_region_segment_fill_pages; `none` is its BUG_ON, the fuel is shown to be enough
unfoldable pub segment_fill_pages : Segment → ℕ → (ℕ → ℕ) → ℕ → ℕ → Memory → Option Memory
unfolding fill_loop
segment_fill_pages s segment_offset skb skb_offset len mem =
    fill_loop (suc len) s skb len ((segment_offset + s.first_page_offset) / page_size)
      ((segment_offset + s.first_page_offset) % page_size) skb_offset 0 len mem

pub data FillResult : Type 0 where
  filled : Memory → FillResult
  invalid : FillResult
  bug : FillResult

abbrev pub fill_then : Option Memory → (Memory → FillResult) → FillResult
fill_then none next = bug
fill_then (some mem) next = next mem

-- The loop of omx_user_region_fill_pages and the checks behind it.
unfoldable pub fill_segments : List Segment → (ℕ → ℕ) → ℕ → ℕ → ℕ → ℕ → ℕ → Memory → FillResult
unfolding segment_fill_pages
fill_segments [] skb len segment_offset skb_offset copied remaining mem =
    if not (copied == len) || not (remaining == 0) then bug else filled mem
fill_segments (s ∷ ss) skb len segment_offset skb_offset copied remaining mem =
    let skipped =
      fill_segments ss skb len (segment_offset - s.seg_length) skb_offset copied remaining mem in
    let chunk = s.seg_length - segment_offset in
    let next = λ (mem' : Memory).
      fill_segments ss skb len 0 (skb_offset + chunk) (copied + chunk) (remaining - chunk) mem' in
    if leb s.seg_length segment_offset
    then skipped
    else if ltb s.seg_length (segment_offset + remaining)
    then fill_then (segment_fill_pages s segment_offset skb skb_offset chunk mem) next
    else fill_then (segment_fill_pages s segment_offset skb skb_offset remaining mem)
        (λ mem'. if copied + remaining == len then filled mem' else bug)

-- omx_user_region_fill_pages; the data start behind the headers of the packet
unfoldable pub fill_pages : ℕ → List Segment → ℕ → (ℕ → ℕ) → ℕ → Memory → FillResult
unfolding fill_segments
fill_pages header ss region_offset skb len mem =
    if ltb (full_length ss) (region_offset + len)
    then invalid
    else fill_segments ss skb len region_offset header 0 len mem

-- Where a byte of a segment lies, and a byte of a region.
abbrev pub address_in : Segment → ℕ → ℕ
address_in s p = s.pages (p / page_size) * page_size + p % page_size

abbrev pub address : List Segment → ℕ → ℕ
address [] k = 0
address (s ∷ ss) k =
    if ltb k s.seg_length
    then address_in s (s.first_page_offset + k)
    else address ss (k - s.seg_length)
