-- ===== src/Large/Tests.antt =====
-- Runs of the regions of an endpoint, and the witnesses of the theorems.
use xen2mx.Base.{
  ℕ, ◌+◌, ◌<◌, ◌≤◌, ◌≡◌, refl, ◌⊎◌, ◌↔◌, List, [], ◌∷◌, Option, none, some, true, false, ltb,
  if◌then◌else◌, arith, length, occurrences,
}
use xen2mx.Large.{
  LargeMap, Region, ReqSegs, registered, Obtained, got, failed, aborted, get_region, find_cached,
  is_usable, put_region, map_init, user_region_max, discard,
}
use xen2mx.Large.Clean.{regcache_clean, endpoint_regcache_clean, clean_loop, is_hit}
use xen2mx.Large.Pool.{IsCache}
use xen2mx.Large.Serve.{IsServed, get_region-IsServed}
use xen2mx.Large.Clear.{IsPurged, is_hit_lem, endpoint_regcache_clean_lem}
use xen2mx.Large.Runs.{
  Step, Run, stop, step, getting, putting, run_safe, run_bounds, map_init-IsCache, run-IsCache,
  range,
}

abbrev memory : ℕ → Region
memory i = record {
  use_count = 7;
  segs = record { nseg = 9; vaddr = 0; len = 0; segs = []; total_length = 0 };
  reserver = 5;
}

abbrev start : LargeMap
start = map_init memory

-- A request of one segment at 4096, and one of two segments.
abbrev one_segment : ReqSegs
one_segment = record {
  nseg = 1;
  vaddr = 4096;
  len = 100;
  segs = (record { vaddr = 4096; len = 100 }) ∷ [];
  total_length = 100;
}

abbrev two_segments : ReqSegs
two_segments = record {
  nseg = 2;
  vaddr = 0;
  len = 0;
  segs = (record { vaddr = 9000; len = 50 }) ∷ (record { vaddr = 9100; len = 30 }) ∷ [];
  total_length = 80;
}

abbrev map_of : Obtained → LargeMap
map_of (got i m) = m
map_of (failed m) = m
map_of aborted = start

abbrev id_of : Obtained → Option ℕ
id_of (got i m) = some i
id_of (failed m) = none
id_of aborted = none

-- The request is served by a new region, which is cached when it is put back.
abbrev first : Obtained
first = get_region true false registered start one_segment 8

abbrev cached : LargeMap
cached = put_region true (map_of first) 0 8

first_id : id_of first ≡ some 0
unfolding get_region map_init find_cached
first_id = refl

-- A shorter request at the same address gets the same region.
again : id_of (get_region true false registered cached (record one_segment { len = 60 }) 0) ≡ some 0
unfolding get_region map_init put_region find_cached is_usable
again = refl

-- A longer one gets another; without the cache the first slot is free again.
longer :
    id_of (get_region true false registered cached (record one_segment { len = 200 }) 0) ≡ some 1
unfolding get_region map_init put_region find_cached is_usable
longer = refl

uncached :
    id_of (get_region false false registered (put_region false (map_of first) 0 8) one_segment 0)
    ≡ some 0
unfolding get_region map_init put_region find_cached is_usable
uncached = refl

abbrev windows_of : Option LargeMap → Option (List ℕ)
windows_of (some m) = some m.windows
windows_of none = none

-- Memory that is given back closes the window of the cached region; of one in use it aborts.
cleaned : windows_of (regcache_clean true cached 4100 10) ≡ some []
unfolding regcache_clean endpoint_regcache_clean clean_loop is_hit discard get_region map_init
    put_region find_cached
cleaned = refl

in_use : windows_of (regcache_clean true (map_of first) 4100 10) ≡ none
unfolding regcache_clean endpoint_regcache_clean clean_loop is_hit discard get_region map_init
    put_region find_cached
in_use = refl

-- The region is got, put back, and got again.
abbrev second : Obtained
second = get_region true false registered cached (record one_segment { len = 60 }) 0

first_got : first ≡ got 0 (map_of first)
unfolding get_region map_init find_cached
first_got = refl

second_got : second ≡ got 0 (map_of second)
unfolding get_region map_init put_region find_cached is_usable
second_got = refl

first_step : Step true false start [] (map_of first) (0 ∷ [])
first_step = getting registered one_segment 8 0 start (map_of first) [] (omega arith) first_got

put_step : Step true false (map_of first) (0 ∷ []) cached []
put_step = putting 0 8 (map_of first) (0 ∷ []) (omega arith)

run_to_cached : Run true false start [] cached []
run_to_cached =
    step start (map_of first) cached [] (0 ∷ []) [] first_step
      (step (map_of first) cached cached (0 ∷ []) [] [] put_step (stop cached []))

second_step : Step true false cached [] (map_of second) (0 ∷ [])
second_step =
    getting registered (record one_segment { len = 60 }) 0 0 cached (map_of second) [] (omega arith)
      second_got

run_to_second : Run true false start [] (map_of second) (0 ∷ [])
run_to_second = step start (map_of first) (map_of second) [] (0 ∷ []) (0 ∷ []) first_step (
    step (map_of first) cached (map_of second) (0 ∷ []) [] (0 ∷ []) put_step (
      step cached (map_of second) (map_of second) [] (0 ∷ []) (0 ∷ []) second_step
        (stop (map_of second) (0 ∷ []))))

cached_in_order : (later : List ℕ) × IsCache true cached later []
cached_in_order =
    run-IsCache true false start cached (range 0 user_region_max) [] [] run_to_cached
      (map_init-IsCache true memory)

get_region-IsServed_example : IsServed true registered start [] one_segment 8 first
get_region-IsServed_example =
    get_region-IsServed true false registered start (range 0 user_region_max) [] one_segment 8
      (omega arith) (map_init-IsCache true memory)

run_safe_example :
    (occurrences 0 (map_of second).windows ≡ 1)
    × (((map_of second).region 0).use_count ≡ occurrences 0 (0 ∷ []))
run_safe_example = run_safe true false memory (map_of second) (0 ∷ []) 0 run_to_second (omega arith)

run_bounds_example :
    ((map_of second).nr_free
        + length (map_of second).reg_list
        + length (map_of second).reg_vect_list
      ≡ user_region_max)
    × ((j : ℕ)
        → (occurrences j (map_of second).windows
            ≡ occurrences j (map_of second).reg_list + occurrences j (map_of second).reg_vect_list)
          × (occurrences j (map_of second).windows ≤ (if ltb j user_region_max then 1 else 0)))
run_bounds_example = run_bounds true false memory (map_of second) (0 ∷ []) run_to_second

cached_below : (cached.region 0).segs.vaddr + (cached.region 0).segs.len < 18446744073709551616
unfolding get_region map_init put_region find_cached
cached_below = omega arith

is_hit_lem_example : (is_hit cached 4100 4110 0 ≡ true) ↔ (
    (a : ℕ) × ((4100 ≤ a) × (a < 4110))
    × (((cached.region 0).segs.vaddr ≤ a)
        × (a < (cached.region 0).segs.vaddr + (cached.region 0).segs.len)))
is_hit_lem_example = is_hit_lem cached 4100 4110 0 cached_below

endpoint_regcache_clean_lem_example :
    ((n : LargeMap) × (endpoint_regcache_clean 4100 4110 cached ≡ some n)
      × IsPurged 4100 4110 cached [] n)
    ⊎ ((endpoint_regcache_clean 4100 4110 cached ≡ none)
        × ((j : ℕ) × (is_hit cached 4100 4110 j ≡ true)
            × (0 < occurrences j cached.reg_list)
            × (0 < occurrences j [])))
endpoint_regcache_clean_lem_example =
    endpoint_regcache_clean_lem 4100 4110 cached cached_in_order.0 [] cached_in_order.1
