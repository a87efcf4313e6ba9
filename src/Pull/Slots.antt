-- ===== src/Pull/Slots.antt =====
-- driver/linux/omx_pull.c, "Pull Handle Index Table": the table by which a packet finds its handle.
-- A slot's id is its index in the upper 10 bits and a generation in the lower 22. A handle is a
-- number here; its slot_id is what `alloc_slot` returns.
use xen2mx.Base.{
  ℕ, zero, suc, ◌+◌, ◌*◌, ◌/◌, ◌%◌, ◌^◌, List, [], ◌∷◌, ◌++◌, Option, none, some, leb, ◌==◌,
  if◌then◌else◌, add32, update,
}

-- struct omx_pull_handle_slot
pub record HandleSlot : Type 0 where
  pub handle : Option ℕ
  pub id : ℕ

-- pull_handle_slots_array and pull_handle_slots_free_list of struct omx_endpoint
pub record SlotTable : Type 0 where
  pub array : ℕ → HandleSlot
  pub free_list : List ℕ

-- OMX_PULL_HANDLE_SLOT_INDEX_MAX
abbrev pub index_max : ℕ
index_max = 2 ^ 10

-- 1 << OMX_PULL_HANDLE_SLOT_GENERATION_BITS
abbrev pub generations : ℕ
generations = 2 ^ 22

-- OMX_PULL_HANDLE_SLOT_ID_FIRST
abbrev pub id_first : ℕ → ℕ
id_first index = add32 (35 % generations) (index * generations % 2 ^ 32)

-- OMX_PULL_HANDLE_SLOT_ID_INC
abbrev pub id_inc : ℕ → ℕ
id_inc id = id / generations * generations + add32 id 1 % generations

-- OMX_PULL_HANDLE_SLOT_INDEX_FROM_ID
abbrev pub index_from_id : ℕ → ℕ
index_from_id id = id / generations

abbrev pub count_from : ℕ → ℕ → List ℕ
count_from i zero = []
count_from i (suc n) = i ∷ count_from (suc i) n

-- omx_pull_handle_slots_init, where its allocation succeeds
abbrev pub slots_init : SlotTable
slots_init = record {
  array = λ i. record { handle = none; id = id_first i };
  free_list = count_from 0 index_max;
}

-- omx_pull_handle_alloc_slot: the id for the handle, and the table; `none` where no slot is free.
unfoldable pub alloc_slot : ℕ → SlotTable → Option (ℕ × SlotTable)
alloc_slot handle t = elim t.free_list [
  | [] ↦ none
  | i ∷ rest ↦ some (
    (t.array i).id,
    record {
      array = update t.array i (record (t.array i) { handle = some handle });
      free_list = rest;
    },
  )
]

-- omx_pull_handle_free_slot, for the slot_id of the handle
unfoldable pub free_slot : ℕ → SlotTable → SlotTable
free_slot slot_id t =
    let i = index_from_id slot_id in
    record {
      array = update t.array i (record { handle = none; id = id_inc (t.array i).id });
      free_list = t.free_list ++ (i ∷ []);
    }

-- omx_pull_handle_acquire_from_slot, for an id from the wire
unfoldable pub acquire_from_slot : ℕ → SlotTable → Option ℕ
acquire_from_slot slot_id t =
    let i = index_from_id slot_id in
    if leb index_max i then none else if slot_id == (t.array i).id then (t.array i).handle else none

-- What pulls do to the table: begin with a handle, or end with a slot_id.
pub data SlotStep : Type 0 where
  begin end : ℕ → SlotStep

abbrev pub begun : Option (ℕ × SlotTable) → SlotTable → SlotTable
begun none t = t
begun (some (id, t')) t = t'

unfoldable pub run : List SlotStep → SlotTable → SlotTable
unfolding alloc_slot free_slot
run [] t = t
run (begin handle ∷ steps) t = run steps (begun (alloc_slot handle t) t)
run (end slot_id ∷ steps) t = run steps (free_slot slot_id t)

-- How often the slot is given back.
abbrev pub ends_of : ℕ → List SlotStep → ℕ
ends_of i [] = 0
ends_of i (begin handle ∷ steps) = ends_of i steps
ends_of i (end slot_id ∷ steps) =
    if index_from_id slot_id == i then suc (ends_of i steps) else ends_of i steps
