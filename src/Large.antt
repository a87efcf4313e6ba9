-- ===== src/Large.antt =====
-- libxen2mx/omx_large.c: the regions of memory that an endpoint registers with its driver for large
-- messages, and the cache of registered regions. A region is named by its id, the index of its slot.
-- The array is a function of the index, what lies behind its end is no slot; an index of -1 is
-- `none`; a reserver is a pointer, 0 being NULL. What the ioctl that creates a window answers is an
-- argument; `windows` are the windows that were created and not destroyed since. The code is the
-- one without OMX_LIB_DEBUG.
pub mod Clean
pub mod Pool
pub mod Alloc
pub mod Get
pub mod Put
pub mod Serve
pub mod Clear
pub mod Exit
pub mod Runs
pub mod Tests
use xen2mx.Base.{
  ℕ, suc, ◌+◌, ◌-◌, List, [], ◌∷◌, ◌++◌, Option, none, some, Bool, true, false, ◌&&◌, ◌||◌, ltb,
  leb, ◌==◌, if◌then◌else◌, update, delete,
}

-- OMX_USER_REGION_MAX
abbrev pub user_region_max : ℕ
user_region_max = 256

-- struct omx_cmd_user_segment
pub record CmdSegment : Type 0 where
  pub vaddr : ℕ
  pub len : ℕ

-- struct omx__req_segs: how many segments, the address and the length of `single`, and the segments
-- that `segs` points to, which for one segment are `single` itself
pub record ReqSegs : Type 0 where
  pub nseg : ℕ
  pub vaddr : ℕ
  pub len : ℕ
  pub segs : List CmdSegment
  pub total_length : ℕ

-- struct omx__large_region
pub record Region : Type 0 where
  pub use_count : ℕ
  pub segs : ReqSegs
  pub reserver : ℕ

-- struct omx__large_region_map and the lists of the endpoint
pub record LargeMap : Type 0 where
  pub next_free : ℕ → Option ℕ
  pub region : ℕ → Region
  pub first_free : Option ℕ
  pub nr_free : ℕ
  pub reg_list : List ℕ
  pub reg_unused_list : List ℕ
  pub reg_vect_list : List ℕ
  pub windows : List ℕ

-- omx__endpoint_large_region_map_init, once the array is allocated, given what its memory held
unfoldable pub map_init : (ℕ → Region) → LargeMap
map_init memory = record {
  next_free = λ i. if i == user_region_max - 1 then none else some (i + 1);
  region = memory;
  first_free = some 0;
  nr_free = user_region_max;
  reg_list = [];
  reg_unused_list = [];
  reg_vect_list = [];
  windows = [];
}

-- What comes of asking for a region: one, none for want of resources, or the process aborts.
pub data Obtained : Type 0 where
  got : ℕ → LargeMap → Obtained
  failed : LargeMap → Obtained
  aborted : Obtained

-- The slot in front of the free list is taken.
abbrev pub take_slot : LargeMap → ℕ → LargeMap
take_slot m i = record m {
  region = update m.region i (record (m.region i) { use_count = 0 });
  first_free = m.next_free i;
  nr_free = m.nr_free - 1;
}

-- omx__endpoint_large_region_try_alloc
unfoldable pub try_alloc : LargeMap → Obtained
try_alloc m = elim m.first_free [ some i ↦ got i (take_slot m i) | none ↦ failed m ]

-- omx__endpoint_large_region_free
unfoldable pub region_free : LargeMap → ℕ → LargeMap
region_free m i = record m {
  next_free = update m.next_free i m.first_free;
  first_free = some i;
  nr_free = m.nr_free + 1;
}

-- omx__destroy_region: a region stands in one of the two lists, which list_del takes it from.
unfoldable pub destroy_region : LargeMap → ℕ → LargeMap
unfolding region_free
destroy_region m i =
    region_free
      (record m {
        reg_list = delete i m.reg_list;
        reg_vect_list = delete i m.reg_vect_list;
        windows = delete i m.windows;
      })
      i

-- A region that nothing uses leaves the list of unused regions and is destroyed.
unfoldable pub discard : LargeMap → ℕ → LargeMap
unfolding destroy_region
discard m i = destroy_region (record m { reg_unused_list = delete i m.reg_unused_list }) i

abbrev pub evict_first : List ℕ → LargeMap → Obtained
evict_first [] m = failed m
evict_first (i ∷ is) m = try_alloc (discard m i)

abbrev pub or_evict : Bool → LargeMap → Obtained → Obtained
or_evict true m (failed n) = evict_first n.reg_unused_list n
or_evict regcache m g = g

-- omx__endpoint_large_region_alloc
unfoldable pub large_region_alloc : Bool → LargeMap → Obtained
unfolding try_alloc discard
large_region_alloc regcache m = or_evict regcache m (try_alloc m)

-- What the driver answers when a window is created: EFAULT is a bad address, the errors for want of
-- resources are a refusal, and any other, as EINVAL or EBUSY, is unexpected.
pub data Answer : Type 0 where
  registered : Answer
  refused : Answer
  bad_address : Answer
  unexpected : Answer

-- omx_clone_segments; an array of several segments is shared with the request.
abbrev pub clone_segments : ReqSegs → ReqSegs
clone_segments src = record src {
  segs = if src.nseg == 1 then (record { vaddr = src.vaddr; len = src.len }) ∷ [] else src.segs;
}

abbrev pub clone_segs : ReqSegs → LargeMap → ℕ → LargeMap
clone_segs segs m i = record m {
  region = update m.region i (record (m.region i) { segs = clone_segments segs });
}

-- omx__register_region, and what omx__create_region does with its result

abbrev pub register_region : Answer → LargeMap → ℕ → Obtained
register_region registered m i = got i (record m {
  region = update m.region i (record (m.region i) { reserver = 0 });
  windows = i ∷ m.windows;
})
register_region refused m i = failed (region_free m i)
register_region bad_address m i = aborted
register_region unexpected m i = aborted

abbrev pub create_from : Answer → ReqSegs → Obtained → Obtained
create_from answer segs (got i m) = register_region answer (clone_segs segs m i) i
create_from answer segs (failed m) = failed m
create_from answer segs aborted = aborted

-- omx__create_region
unfoldable pub create_region : Bool → Answer → LargeMap → ReqSegs → Obtained
unfolding large_region_alloc region_free
create_region regcache answer m segs = create_from answer segs (large_region_alloc regcache m)

-- The test of the search through the cache.
unfoldable pub is_usable : Bool → LargeMap → ReqSegs → ℕ → ℕ → Bool
is_usable parallel m segs reserver i =
    ((reserver == 0) || ((m.region i).reserver == 0))
    && ((parallel || ((m.region i).use_count == 0))
        && (((m.region i).segs.vaddr == segs.vaddr) && leb segs.len (m.region i).segs.len))

unfoldable pub find_cached : Bool → LargeMap → ReqSegs → ℕ → List ℕ → Option ℕ
find_cached parallel m segs reserver [] = none
find_cached parallel m segs reserver (i ∷ is) =
    let later = find_cached parallel m segs reserver is in
    if is_usable parallel m segs reserver i then some i else later

-- One more user of a region.
abbrev pub use_region : LargeMap → ℕ → LargeMap
use_region m i = record m {
  region = update m.region i (record (m.region i) { use_count = suc (m.region i).use_count });
}

-- A cached region that nothing used leaves the list of unused regions.
unfoldable pub reuse : LargeMap → ℕ → LargeMap
reuse m i = record (use_region m i) {
  reg_unused_list =
      if (m.region i).use_count == 0 then delete i m.reg_unused_list else m.reg_unused_list;
}

unfoldable pub reserve : ℕ → LargeMap → ℕ → LargeMap
reserve r m i =
    if r == 0
    then m
    else record m { region = update m.region i (record (m.region i) { reserver = r }) }

-- list_add_tail to the list of contiguous or of vectorial regions, and the first user
abbrev pub in_list : LargeMap → ℕ → LargeMap
in_list m i = use_region (record m { reg_list = m.reg_list ++ (i ∷ []) }) i

abbrev pub in_vect_list : LargeMap → ℕ → LargeMap
in_vect_list m i = use_region (record m { reg_vect_list = m.reg_vect_list ++ (i ∷ []) }) i

abbrev pub finish_region : (LargeMap → ℕ → LargeMap) → ℕ → Obtained → Obtained
finish_region add r (got i m) = got i (reserve r (add m i) i)
finish_region add r (failed m) = failed m
finish_region add r aborted = aborted

abbrev pub search_cache : Bool → Bool → LargeMap → ReqSegs → ℕ → Option ℕ
search_cache true parallel m segs r = find_cached parallel m segs r m.reg_list
search_cache false parallel m segs r = none

abbrev pub get_found : LargeMap → ℕ → Option ℕ → Obtained → Obtained
get_found m r (some i) create = got i (reserve r (reuse m i) i)
get_found m r none create = finish_region in_list r create

-- omx__get_contigous_region
unfoldable pub get_contiguous_region : Bool → Bool → Answer → LargeMap → ReqSegs → ℕ → Obtained
unfolding create_region reuse reserve
get_contiguous_region regcache parallel answer m segs r =
    get_found m r (search_cache regcache parallel m segs r) (create_region regcache answer m segs)

-- omx__get_vect_region
unfoldable pub get_vect_region : Bool → Answer → LargeMap → ReqSegs → ℕ → Obtained
unfolding create_region reserve
get_vect_region regcache answer m segs r =
    finish_region in_vect_list r (create_region regcache answer m segs)

-- omx__get_region
unfoldable pub get_region : Bool → Bool → Answer → LargeMap → ReqSegs → ℕ → Obtained
unfolding get_contiguous_region get_vect_region
get_region regcache parallel answer m segs r =
    if ltb 1 segs.nseg
    then get_vect_region regcache answer m segs r
    else get_contiguous_region regcache parallel answer m segs r

-- One user of a region fewer, its reservation given up by the one that has it.
abbrev pub unuse : LargeMap → ℕ → ℕ → LargeMap
unuse m i r = record m {
  region = update m.region i (record (m.region i) {
    use_count = (m.region i).use_count - 1;
    reserver = if r == 0 then (m.region i).reserver else 0;
  });
}

abbrev pub keep_cached : LargeMap → ℕ → LargeMap
keep_cached m i = record m {
  reg_unused_list =
      if (m.region i).use_count == 0 then m.reg_unused_list ++ (i ∷ []) else m.reg_unused_list;
}

-- omx__put_region
unfoldable pub put_region : Bool → LargeMap → ℕ → ℕ → LargeMap
unfolding destroy_region
put_region regcache m i r =
    if regcache && ((m.region i).segs.nseg == 1)
    then keep_cached (unuse m i r) i
    else destroy_region (unuse m i r) i
