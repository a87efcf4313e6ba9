-- ===== src/Large/Clean.antt =====
-- libxen2mx/omx_large.c: the cached regions that lie in memory the application gives back are
-- destroyed, and all regions when the endpoint is closed.
use xen2mx.Base.{
  ℕ, ◌+◌, ◌%◌, ◌^◌, List, [], ◌∷◌, Option, none, some, Bool, not, ◌&&◌, ltb, ◌==◌, if◌then◌else◌,
  delete,
}
use xen2mx.Large.{LargeMap, destroy_region, discard}

-- omx__segments_intersect
unfoldable pub segments_intersect : ℕ → ℕ → ℕ → ℕ → Bool
segments_intersect begin1 end1 begin2 end2 =
    let min_end = if ltb end2 end1 then end2 else end1 in
    let max_begin = if ltb begin2 begin1 then begin1 else begin2 in ltb max_begin min_end

abbrev pub u64_mod : ℕ
u64_mod = 2 ^ 64

-- Whether a region meets the memory that is given back.
unfoldable pub is_hit : LargeMap → ℕ → ℕ → ℕ → Bool
unfolding segments_intersect
is_hit m begin end i =
    let s = (m.region i).segs in segments_intersect begin end s.vaddr ((s.vaddr + s.len) % u64_mod)

-- omx__endpoint_regcache_clean; `none` is the abort
unfoldable pub clean_loop : ℕ → ℕ → LargeMap → List ℕ → Option LargeMap
clean_loop begin end m [] = some m
clean_loop begin end m (i ∷ is) =
    let rest = clean_loop begin end (if is_hit m begin end i then discard m i else m) is in
    if is_hit m begin end i && not ((m.region i).use_count == 0) then none else rest

unfoldable pub endpoint_regcache_clean : ℕ → ℕ → LargeMap → Option LargeMap
unfolding clean_loop
endpoint_regcache_clean begin end m = clean_loop begin end m m.reg_list

-- omx__regcache_clean, on one endpoint
unfoldable pub regcache_clean : Bool → LargeMap → ℕ → ℕ → Option LargeMap
regcache_clean regcache m ptr size =
    if regcache then endpoint_regcache_clean ptr ((ptr + size) % u64_mod) m else some m

-- One round of the first loop of omx__endpoint_large_region_map_exit.
unfoldable pub drop_cached : LargeMap → ℕ → LargeMap
unfolding destroy_region
drop_cached m i =
    destroy_region
      (record m {
        reg_unused_list =
            if (m.region i).use_count == 0 then delete i m.reg_unused_list else m.reg_unused_list;
      })
      i

unfoldable pub exit_cached : LargeMap → List ℕ → LargeMap
unfolding drop_cached
exit_cached m [] = m
exit_cached m (i ∷ is) = exit_cached (drop_cached m i) is

unfoldable pub exit_vect : LargeMap → List ℕ → LargeMap
unfolding destroy_region
exit_vect m [] = m
exit_vect m (i ∷ is) = exit_vect (destroy_region m i) is

-- omx__endpoint_large_region_map_exit
unfoldable pub map_exit : LargeMap → LargeMap
unfolding exit_cached exit_vect
map_exit m = exit_vect (exit_cached m m.reg_list) (exit_cached m m.reg_list).reg_vect_list
