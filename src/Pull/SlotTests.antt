-- ===== src/Pull/SlotTests.antt =====
-- driver/linux/omx_pull.c: a pull that takes the first slot of the table and gives it back.
use xen2mx.Base.{ℕ, ◌≡◌, ◌≢◌, ◌⊎◌, inl, inr, refl, sym, subst, arith, [], ◌∷◌, none, some}
use xen2mx.Pull.Slots.{
  SlotTable, slots_init, alloc_slot, free_slot, acquire_from_slot, begin, end, begun, run,
}
use xen2mx.Pull.Table.{
  IsTable, Allocated, slots_init-IsTable, alloc_slot_lem, acquire_from_slot-stale,
}

alloc_slot_lem_example :
    ((slots_init.free_list ≡ []) × (alloc_slot 5 slots_init ≡ none))
    ⊎ ((slots_init.free_list ≢ [])
        × ((id : ℕ) × (t' : SlotTable) × (alloc_slot 5 slots_init ≡ some (id, t'))
            × Allocated 5 slots_init t' id))
alloc_slot_lem_example = alloc_slot_lem 5 slots_init slots_init-IsTable

-- The table with its first slot taken.
abbrev one_taken : SlotTable
one_taken = begun (alloc_slot 5 slots_init) slots_init

one_taken-IsTable : IsTable one_taken
one_taken-IsTable = elim alloc_slot_lem_example [
  | inl (e, p) ↦ subst (λ r. IsTable (begun r slots_init)) (sym p) slots_init-IsTable
  | inr (n, (id, t', p, a)) ↦ subst (λ r. IsTable (begun r slots_init)) (sym p) a.table
]

one_taken-found : acquire_from_slot 35 one_taken ≡ some 5
unfolding alloc_slot acquire_from_slot
one_taken-found = refl

one_taken-id : (one_taken.array 0).id ≡ 35
unfolding alloc_slot
one_taken-id = refl

acquire_from_slot-stale_example :
    acquire_from_slot 35 (run (begin 6 ∷ begin 7 ∷ end 4194339 ∷ []) (free_slot 35 one_taken))
    ≡ none
acquire_from_slot-stale_example =
    acquire_from_slot-stale one_taken 35 (begin 6 ∷ begin 7 ∷ end 4194339 ∷ []) (omega arith)
      one_taken-id (omega arith)
