-- ===== src/UserRegion/Cache.antt =====
-- driver/linux/omx_reg.c: the offset cache, a place in a region from which the frames of a reply are
-- copied one after the other. `here` is the current segment and those behind it; behind the last one
-- it is empty, and what the source reads there, one segment behind the array, is an argument.
use xen2mx.Base.{
  ℕ, zero, suc, ◌+◌, ◌-◌, ◌*◌, ◌/◌, ◌%◌, List, [], ◌∷◌, ◌++◌, Option, none, some, ltb, leb, ◌==◌,
  ◌||◌, if◌then◌else◌, length,
}
use xen2mx.UserRegion.Store.{Memory, load}
use xen2mx.UserRegion.{Segment, page_size, full_length}

-- struct omx_user_region_offset_cache; the page is its index in the segment
pub record OffsetCache : Type 0 where
  pub here : List Segment
  pub segoff : ℕ
  pub page : ℕ
  pub pageoff : ℕ

-- A cache, or none for a place that is not in the region, or a read behind the segments.
pub data Made : Type 0 where
  made : OffsetCache → Made
  refused : Made
  out_of_bounds : Made

abbrev pub place_in : List Segment → ℕ → Made
place_in [] segoff = out_of_bounds
place_in (s ∷ ss) segoff = made (record {
  here = s ∷ ss;
  segoff = segoff;
  page = (segoff + s.first_page_offset) / page_size;
  pageoff = (segoff + s.first_page_offset) % page_size;
})

-- The search for the segment, which is not bounded by their number.
unfoldable pub search_segment : List Segment → ℕ → Made
search_segment [] offset = out_of_bounds
search_segment (s ∷ ss) offset =
    let later = search_segment ss (offset - s.seg_length) in
    if leb s.seg_length offset then later else place_in (s ∷ ss) offset

-- omx_user_region_offset_cache_init
unfoldable pub offset_cache_init : List Segment → ℕ → ℕ → Made
unfolding search_segment
offset_cache_init ss offset len =
    if (length ss == 0) || ltb (full_length ss) (offset + len)
    then refused
    else if ltb 1 (length ss)
    then search_segment ss offset
    else place_in ss offset

abbrev pub next_segment : Segment → List Segment → OffsetCache
next_segment behind [] = record {
  here = [];
  segoff = 0;
  page = 0;
  pageoff = behind.first_page_offset;
}
next_segment behind (s ∷ ss) = record {
  here = s ∷ ss;
  segoff = 0;
  page = 0;
  pageoff = s.first_page_offset;
}

abbrev pub smaller : ℕ → ℕ → ℕ
smaller a b = if ltb b a then b else a

abbrev pub vect_chunk : Segment → OffsetCache → ℕ → ℕ
vect_chunk s c remaining =
    smaller (smaller remaining (page_size - c.pageoff)) (s.seg_length - c.segoff)

-- The place behind a chunk.
unfoldable pub vect_advance : Segment → Segment → List Segment → OffsetCache → ℕ → OffsetCache
vect_advance behind s ss c chunk =
    if c.segoff + chunk == s.seg_length
    then next_segment behind ss
    else if c.pageoff + chunk == page_size
    then record { here = s ∷ ss; segoff = c.segoff + chunk; page = c.page + 1; pageoff = 0 }
    else record {
      here = s ∷ ss;
      segoff = c.segoff + chunk;
      page = c.page;
      pageoff = c.pageoff + chunk;
    }

-- memcpy from a page
abbrev pub page_bytes : Segment → OffsetCache → ℕ → Memory → List ℕ
page_bytes s c chunk mem = load (λ k. s.pages c.page * page_size + c.pageoff + k) chunk mem

abbrev pub then_copy : List ℕ → Option (List ℕ × OffsetCache) → Option (List ℕ × OffsetCache)
then_copy bytes none = none
then_copy bytes (some (more, c)) = some (bytes ++ more, c)

-- omx_user_region_offset_cache_vect_copy_callback, on fuel, which is shown to be enough; `none` is
-- also a copy from behind the segments
unfoldable pub vect_copy :
    Segment → ℕ → List Segment → OffsetCache → ℕ → Memory → Option (List ℕ × OffsetCache)
vect_copy behind zero here c remaining mem = none
vect_copy behind (suc fuel) [] c remaining mem = if remaining == 0 then some ([], c) else none
vect_copy behind (suc fuel) (s ∷ ss) c remaining mem =
    let chunk = vect_chunk s c remaining in
    let d = vect_advance behind s ss c chunk in
    let rest = vect_copy behind fuel d.here d (remaining - chunk) mem in
    if remaining == 0 then some ([], c) else then_copy (page_bytes s c chunk mem) rest

unfoldable pub contig_advance : OffsetCache → ℕ → OffsetCache
contig_advance c chunk =
    if c.pageoff + chunk == page_size
    then record c { page = c.page + 1; pageoff = 0 }
    else record c { pageoff = c.pageoff + chunk }

abbrev pub contig_chunk : OffsetCache → ℕ → ℕ
contig_chunk c remaining = smaller remaining (page_size - c.pageoff)

-- omx_user_region_offset_cache_contig_copy_callback, in the same way
unfoldable pub contig_copy : ℕ → Segment → OffsetCache → ℕ → Memory → Option (List ℕ × OffsetCache)
contig_copy zero s c remaining mem = none
contig_copy (suc fuel) s c remaining mem =
    let chunk = contig_chunk c remaining in
    let rest = contig_copy fuel s (contig_advance c chunk) (remaining - chunk) mem in
    if remaining == 0 then some ([], c) else then_copy (page_bytes s c chunk mem) rest

-- copy_pages_to_buf: the callback is chosen by the number of segments.
abbrev pub copy_from :
    Segment → ℕ → List Segment → OffsetCache → ℕ → Memory → Option (List ℕ × OffsetCache)
copy_from behind nr_segments [] c len mem = vect_copy behind (suc len) [] c len mem
copy_from behind nr_segments (s ∷ ss) c len mem =
    if ltb 1 nr_segments
    then vect_copy behind (suc len) (s ∷ ss) c len mem
    else contig_copy (suc len) s c len mem

unfoldable pub copy_pages_to_buf :
    Segment → List Segment → OffsetCache → ℕ → Memory → Option (List ℕ × OffsetCache)
unfolding vect_copy contig_copy vect_advance contig_advance
copy_pages_to_buf behind region c len mem = copy_from behind (length region) c.here c len mem
