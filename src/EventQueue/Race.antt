-- ===== src/EventQueue/Race.antt =====
-- driver/linux/omx_event.c, omx_notify_exp_event: its accesses to the shared index as separate
-- steps of several contexts, which other contexts and the release call can come between: the
-- atomic increment, the test, and the roll-back where the test fails.
use xen2mx.Base.{
  ℕ, ◌≡◌, List, [], ◌∷◌, arith, ltb, if◌then◌else◌, u32_mod, add32, sub32, update, ◌<◌,
}
use xen2mx.EventQueue.Invariant.{IsValid}
use xen2mx.EventQueue.{Endpoint, Event, entry_nr, release_batch_nr, notify_exp_event}

-- Where a context stands in the function.
pub data Phase : Type 0 where
  idle : Phase
  -- it has incremented the index, and got this value
  taken : ℕ → Phase
  -- the test found the queue full; the increment is not undone yet
  refused : Phase
  -- it is going to write its event at this index
  writing : ℕ → Phase

pub record Shared : Type 0 where
  pub nextfree : ℕ
  pub nextreleased : ℕ
  pub phase : ℕ → Phase

pub data Action : Type 0 where
  take check roll_back finish : ℕ → Action
  release : Action

abbrev take_index : Shared → ℕ → Phase → Shared
take_index s t idle = record s {
  nextfree = add32 s.nextfree 1;
  phase = update s.phase t (taken s.nextfree);
}
take_index s t _ = s

abbrev check_room : Shared → ℕ → Phase → Shared
check_room s t (taken index) = record s {
  phase =
      update s.phase t
        (if ltb entry_nr (sub32 s.nextfree s.nextreleased) then refused else writing index);
}
check_room s t _ = s

abbrev undo : Shared → ℕ → Phase → Shared
undo s t refused = record s { nextfree = sub32 s.nextfree 1; phase = update s.phase t idle }
undo s t _ = s

abbrev written : Shared → ℕ → Phase → Shared
written s t (writing index) = record s { phase = update s.phase t idle }
written s t _ = s

-- One access; a context for which it is not the next one does nothing.
pub act : Shared → Action → Shared
act s (take t) = take_index s t (s.phase t)
act s (check t) = check_room s t (s.phase t)
act s (roll_back t) = undo s t (s.phase t)
act s (finish t) = written s t (s.phase t)
act s release =
    if ltb (sub32 s.nextfree s.nextreleased) release_batch_nr
    then s
    else record s { nextreleased = add32 s.nextreleased release_batch_nr }

pub acts : Shared → List Action → Shared
acts s [] = s
acts s (a ∷ rest) = acts (act s a) rest

-- Context 0 finds the queue full. Before it undoes its increment, a batch of slots is released and
-- context 1 takes an index; then context 0 undoes, and context 2 takes one.
abbrev pub late_roll_back : List Action
late_roll_back = take 0 ∷ check 0 ∷ release ∷ take 1 ∷ check 1 ∷ roll_back 0 ∷ take 2 ∷ check 2 ∷ []

-- From a valid endpoint, an idle context that runs alone does to the counters what the whole
-- function does, and is idle again.
pub act-alone :
    (ep : Endpoint) (e : Event) (phase : ℕ → Phase) (t : ℕ)
    → IsValid ep
    → phase t ≡ idle
    → let s : Shared = record {
      nextfree = ep.nextfree_exp;
      nextreleased = ep.nextreleased_exp;
      phase = phase;
    } in
      let s' = acts s (take t ∷ check t ∷ roll_back t ∷ finish t ∷ []) in
      (s'.nextfree ≡ (notify_exp_event ep e).1.nextfree_exp)
      × (s'.nextreleased ≡ (notify_exp_event ep e).1.nextreleased_exp)
      × (s'.phase t ≡ idle)
unfolding acts act notify_exp_event
act-alone ep e phase t v h = ground arith

-- Whenever the expected queue is full and contexts 0, 1 and 2 are idle, this schedule makes two of
-- them write at the same index: the roll-back takes away the index that context 1 got, and context
-- 2 gets it again.
pub late_roll_back-collides :
    (s : Shared)
    → s.nextfree < u32_mod
    → s.nextreleased < u32_mod
    → sub32 s.nextfree s.nextreleased ≡ entry_nr
    → s.phase 0 ≡ idle
    → s.phase 1 ≡ idle
    → s.phase 2 ≡ idle
    → let s' = acts s late_roll_back in
      (s'.phase 1 ≡ writing (add32 s.nextfree 1)) × (s'.phase 2 ≡ writing (add32 s.nextfree 1))
unfolding acts act
late_roll_back-collides s hf hr full h₀ h₁ h₂ = ground arith
