-- ===== src/RegionTable/Tests.antt =====
-- A region is read by one context and destroyed by another; the witness of the theorem.
use xen2mx.Base.{◌+◌, ◌<◌, ◌≡◌, refl, [], ◌∷◌, Option, none, some, true, ltb, arith, occurrences}
use xen2mx.RegionTable.{
  RegionTable, empty, region_create, region_destroy, rcu_release_callback, look_up, take_ref,
}
use xen2mx.RegionTable.Steps.{
  creating, destroy, callback, reading, take, Run, stop, step, published, run_allocated,
}

abbrev table_of : Option RegionTable → RegionTable
table_of none = empty
table_of (some t) = t

abbrev one : RegionTable
one = table_of (region_create empty 5 77)

abbrev gone : RegionTable
gone = table_of (region_destroy one 5)

abbrev late : RegionTable
late = rcu_release_callback (take_ref gone 77) 77

-- The reader took its reference in time: the memory stays until it is released.
kept : (late.region 77).allocated ≡ true
unfolding region_create region_destroy rcu_release_callback take_ref empty
kept = refl

run_to_late : Run empty [] [] late [] (77 ∷ [])
unfolding region_create region_destroy rcu_release_callback take_ref look_up empty
run_to_late =
    step empty one late [] [] [] [] [] (77 ∷ []) (creating empty one [] [] 5 77 refl refl) (
      step one one late [] [] (77 ∷ []) [] [] (77 ∷ []) (reading one [] [] 5 77 refl) (
        step one gone late (77 ∷ []) [] (77 ∷ []) [] [] (77 ∷ [])
          (destroy one gone (77 ∷ []) [] 5 refl)
          (step gone (take_ref gone 77) late (77 ∷ []) [] [] (77 ∷ []) [] (77 ∷ [])
            (take gone (77 ∷ []) [] 77 (omega arith))
            (step (take_ref gone 77) late late [] (77 ∷ []) [] (77 ∷ []) [] (77 ∷ [])
              (callback (take_ref gone 77) [] (77 ∷ []) 77 (omega arith) refl)
              (stop late [] (77 ∷ []))))))

run_allocated_example :
    ((late.region 77).allocated
      ≡ ltb 0 (published late 77 + occurrences 77 late.deferred + occurrences 77 (77 ∷ [])))
    × (0 < occurrences 77 [] → (late.region 77).allocated ≡ true)
run_allocated_example = run_allocated late [] (77 ∷ []) 77 run_to_late
