-- ===== src/SendqMap.antt =====
-- libxen2mx/omx_lib.h and omx_endpoint.c: the map of send-queue slots of an endpoint, a free list
-- threaded through an array. An index of -1 is `none`; a user is a pointer, 0 being NULL. The array
-- is a function of the index, of which get reads the first 1024 values only; the code is the one without OMX_LIB_DEBUG.
pub mod Chain
pub mod Laws
pub mod Tests
use xen2mx.Base.{
  ℕ, zero, suc, ◌+◌, ◌-◌, List, [], ◌∷◌, Option, none, some, ltb, ◌==◌, if◌then◌else◌, update,
  length,
}

-- OMX_SENDQ_ENTRY_NR
abbrev pub sendq_entry_nr : ℕ
sendq_entry_nr = 1024

pub record Entry : Type 0 where
  pub next_free : Option ℕ
  pub user : ℕ

pub record SendqMap : Type 0 where
  pub array : ℕ → Entry
  pub first_free : Option ℕ
  pub nr_free : ℕ

-- omx__endpoint_sendq_map_init, once the array is allocated
unfoldable pub init : SendqMap
init = record {
  array =
      λ i. record { next_free = if i == sendq_entry_nr - 1 then none else some (i + 1); user = 0 };
  first_free = some 0;
  nr_free = sendq_entry_nr;
}

-- What omx__endpoint_sendq_map_get does: it fails with -1, or finds slots, or reads outside the array.
pub data Got : Type 0 where
  unavailable : Got
  got : List ℕ → SendqMap → Got
  out_of_bounds : Got

-- The loop: the slots found, where the free list goes on, and the array.
pub data Taken : Type 0 where
  taken : List ℕ → Option ℕ → (ℕ → Entry) → Taken
  stuck : Taken

abbrev pub found : ℕ → Taken → Taken
found i (taken is next a) = taken (i ∷ is) next a
found i stuck = stuck

unfoldable pub take_free : (ℕ → Entry) → Option ℕ → ℕ → ℕ → Taken
take_free a index user zero = taken [] index a
take_free a none user (suc nr) = stuck
take_free a (some i) user (suc nr) =
    let rest = take_free (update a i (record (a i) { user = user })) (a i).next_free user nr in
    if ltb i sendq_entry_nr then found i rest else stuck

abbrev pub got_from : ℕ → Taken → Got
got_from nr_left (taken is next a) =
    got is (record { array = a; first_free = next; nr_free = nr_left })
got_from nr_left stuck = out_of_bounds

-- omx__endpoint_sendq_map_get
unfoldable pub get : SendqMap → ℕ → ℕ → Got
unfolding take_free
get m nr user =
    if ltb m.nr_free nr
    then unavailable
    else got_from (m.nr_free - nr) (take_free m.array m.first_free user nr)

-- The loop of put: each slot is linked to the one before it, the first to the old free list.
unfoldable pub link_free : (ℕ → Entry) → Option ℕ → List ℕ → ℕ → Entry
link_free a prev [] = a
link_free a prev (i ∷ is) =
    link_free (update a i (record { next_free = prev; user = 0 })) (some i) is

abbrev pub last_of : ℕ → List ℕ → ℕ
last_of i [] = i
last_of i (j ∷ js) = last_of j js

-- omx__endpoint_sendq_map_put, for at least one index
unfoldable pub put : SendqMap → ℕ → List ℕ → SendqMap
unfolding link_free
put m i is = record {
  array = link_free m.array m.first_free (i ∷ is);
  first_free = some (last_of i is);
  nr_free = m.nr_free + length (i ∷ is);
}

-- omx__endpoint_sendq_map_user
unfoldable pub user_of : SendqMap → ℕ → ℕ
user_of m i = (m.array i).user
