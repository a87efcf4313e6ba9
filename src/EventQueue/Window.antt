-- ===== src/EventQueue/Window.antt =====
-- The filled slots of an event queue of driver/linux/omx_event.c as a list, oldest first.
use xen2mx.Base.{
  ℕ, zero, suc, ◌-◌, ◌%◌, ◌≤◌, ◌<◌, ◌≡◌, refl, ap, ap₂, ◌∙◌, List, [], ◌∷◌, ◌++◌, arith, u32_mod,
  add32, sub32, update, update_ne, length, drop,
}
use xen2mx.EventQueue.{Endpoint, Slot, entry_nr}

module _ (q : ℕ → Slot) where
  -- `n` slots from the free-running index `first` on
  abbrev pub window : ℕ → ℕ → List Slot
  window first zero = []
  window first (suc n) = q (first % entry_nr) ∷ window (add32 first 1) n

  pub length-window : (first n : ℕ) → length (window first n) ≡ n
  length-window first zero = refl
  length-window first (suc n) = ap suc (length-window (add32 first 1) n)

  -- Moving the start on by k drops the first k slots.
  pub window-drop :
      (first k n : ℕ)
      → first < u32_mod
      → k ≤ n
      → window (add32 first k) (n - k) ≡ drop k (window first n)
  window-drop first zero n h le = ap₂ window (omega arith) (omega arith)
  window-drop first (suc k) zero h le = absurd (omega arith)
  window-drop first (suc k) (suc n) h le =
      ap₂ window (omega arith) (omega arith)
      ∙ window-drop (add32 first 1) k n (omega arith) (omega arith)

-- A write at the slot behind a window of fewer than 1024 slots extends the window by it.
pub window-update :
    (q : ℕ → Slot) (s : Slot) (first n index : ℕ)
    → first < u32_mod
    → n < entry_nr
    → index ≡ add32 first n
    → window (update q (index % entry_nr) s) first (suc n) ≡ window q first n ++ (s ∷ [])
window-update q s first zero index hf hn e = ground arith
window-update q s first (suc n) index hf hn e =
    ap₂ ◌∷◌ (update_ne q (index % entry_nr) (first % entry_nr) s (omega arith))
      (window-update q s (add32 first 1) n index (omega arith) (omega arith) (omega arith))

-- The unexpected events that wait for the library.
abbrev pub pending : Endpoint → List Slot
pending ep =
    window ep.unexp_eventq ep.nextreleased_unexp (sub32 ep.nextreserved_unexp ep.nextreleased_unexp)

-- The expected events that wait for the library.
abbrev pub pending_exp : Endpoint → List Slot
pending_exp ep =
    window ep.exp_eventq ep.nextreleased_exp (sub32 ep.nextfree_exp ep.nextreleased_exp)
