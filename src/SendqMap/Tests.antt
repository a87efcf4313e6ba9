-- ===== src/SendqMap/Tests.antt =====
-- libxen2mx/omx_lib.h: runs of the send-queue map on concrete inputs.
use xen2mx.Base.{
  Distinct, NotIn, ℕ, ◌<◌, ◌≤◌, ◌≡◌, refl, List, [], ◌∷◌, none, ◌⊎◌, length, take, drop,
}
use xen2mx.SendqMap.{SendqMap, Got, unavailable, got, init, get, take_free, sendq_entry_nr}
use xen2mx.SendqMap.Chain.{AllInside, IsFree}
use xen2mx.SendqMap.Laws.{AllUsed, slots_from, get_lem, init-IsFree}

abbrev all_slots : List ℕ
all_slots = slots_from 0 sendq_entry_nr

get_lem_example :
    ((length all_slots < 2) × (get init 2 42 ≡ unavailable))
    ⊎ ((2 ≤ length all_slots)
        × ((m' : SendqMap) × (get init 2 42 ≡ got (take 2 all_slots) m')
            × IsFree m' (drop 2 all_slots)
            × Distinct (take 2 all_slots)
            × AllInside (take 2 all_slots)
            × AllUsed m'.array 42 (take 2 all_slots)
            × ((j : ℕ) → NotIn j (take 2 all_slots) → m'.array j ≡ init.array j)))
get_lem_example = get_lem init all_slots 2 42 init-IsFree

-- Every slot is in use.
abbrev used_up : SendqMap
used_up = record {
  array = λ i. record { next_free = none; user = 7 };
  first_free = none;
  nr_free = 0;
}

abbrev map_of : Got → SendqMap
map_of (got is m) = m
map_of _ = init

two_taken : SendqMap
two_taken = map_of (get init 2 42)

two_taken_lem : get init 2 42 ≡ got (0 ∷ 1 ∷ []) two_taken
unfolding two_taken get take_free init
two_taken_lem = refl
