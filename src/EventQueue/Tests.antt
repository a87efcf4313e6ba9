-- ===== src/EventQueue/Tests.antt =====
-- driver/linux/omx_event.c and libxen2mx/omx_lib.c: runs of the event queues on concrete inputs.
use xen2mx.Base.{
  ℕ, suc, ◌-◌, ◌^◌, ◌≤◌, ◌+◌, ◌<◌, ◌≡◌, refl, arith, List, [], ◌∷◌, ◌++◌, Option, none, some, true,
  false, ◌⊎◌, sub32, length, drop,
}
use xen2mx.EventQueue.{
  Endpoint, Event, Slot, event, ignore, ok, busy, invalid, nothing, event_arrived, progress,
  entry_nr, release_batch_nr, queues_init, notify_exp_event, notify_unexp_event, prepare_event,
  prepare_events, commit_event, cancel_event, release_exp_slots, release_unexp_slots,
}
use xen2mx.EventQueue.Steps.{
  Call, notify_exp, notify_unexp, commit, prepare, cancel, release_exp, prepare_many, step, run,
  AllSized,
}
use xen2mx.EventQueue.Invariant.{IsValid, prepared, run-IsValid}
use xen2mx.EventQueue.Marks.{IsMarked, run-IsMarked}
use xen2mx.EventQueue.Window.{pending, pending_exp}
use xen2mx.EventQueue.Publish.{Holds, notify_unexp_lem, commit_lem, release_unexp_lem}
use xen2mx.EventQueue.Poll.{poll_unexp, IsReading, Drained, poll_unexp-Drained}
use xen2mx.EventQueue.Wait.{
  WaitCmd, Surroundings, on_progress, reported, index_race, choose_timer, expired, wait_event,
  time_after64, time_after_eq64,
}
use xen2mx.EventQueue.Race.{idle, Shared, writing, acts, late_roll_back, late_roll_back-collides}

abbrev unused : ℕ → Slot
unused i = record { id = 0; type = ignore; bytes = 0 ∷ 0 ∷ 0 ∷ [] }

abbrev blank : Endpoint
blank = record {
  exp_eventq = unused;
  nextfree_exp = 0;
  nextreleased_exp = 0;
  unexp_eventq = unused;
  nextfree_unexp = 0;
  nextreserved_unexp = 0;
  nextreleased_unexp = 0;
  next_recvq = 0;
  exp_full = false;
  unexp_full = false;
  exp_full_counter = 0;
  unexp_full_counter = 0;
  waiters = [];
}

abbrev tiny : Event
tiny = record { type = event 5; bytes = 7 ∷ 8 ∷ [] }

abbrev small : Event
small = record { type = event 6; bytes = 9 ∷ [] }

abbrev calls : List Call
calls =
    prepare_many 2
    ∷ notify_unexp tiny
    ∷ commit small
    ∷ notify_exp tiny
    ∷ prepare
    ∷ cancel
    ∷ release_exp
    ∷ []

-- The endpoint after those calls: one slot is still prepared, and three events wait.
abbrev result_of : Option Endpoint → Endpoint
result_of none = blank
result_of (some ep) = ep

after_calls : Endpoint
after_calls = result_of (run (queues_init blank) calls)

after_calls_lem : run (queues_init blank) calls ≡ some after_calls
unfolding run step after_calls queues_init notify_exp_event notify_unexp_event prepare_event
    prepare_events commit_event cancel_event release_exp_slots
after_calls_lem = refl

calls_sized : AllSized calls
calls_sized = (omega arith, (tt, (tt, (tt, (tt, (tt, (tt, tt)))))))

run-IsValid_example : IsValid after_calls
run-IsValid_example = run-IsValid blank calls calls_sized after_calls_lem

run-IsMarked_example : IsMarked after_calls
run-IsMarked_example = run-IsMarked blank calls calls_sized after_calls_lem

-- Two events wait, at the last indices before the wrap-around, and two slots are prepared.
abbrev wrapping : Endpoint
wrapping = record blank {
  nextfree_unexp = 2;
  nextreserved_unexp = 0;
  nextreleased_unexp = 2 ^ 32 - 2;
  waiters = nothing ∷ nothing ∷ [];
}

wrapping-IsValid : IsValid wrapping
wrapping-IsValid = omega arith

notify_unexp_lem_example :
    let (s, ep') = notify_unexp_event wrapping tiny in
    ((length (pending wrapping) + prepared wrapping ≡ entry_nr)
      × (s ≡ busy)
      × (ep' ≡ record wrapping { unexp_full_counter = 1; unexp_full = true }))
    ⊎ ((length (pending wrapping) + prepared wrapping < entry_nr)
        × (s ≡ ok)
        × ((slot : Slot) × Holds 0 tiny slot × (pending ep' ≡ pending wrapping ++ (slot ∷ [])))
        × (prepared ep' ≡ prepared wrapping)
        × (pending_exp ep' ≡ pending_exp wrapping)
        × (ep'.next_recvq ≡ 0)
        × (ep'.waiters ≡ event_arrived ∷ event_arrived ∷ []))
notify_unexp_lem_example = notify_unexp_lem wrapping tiny wrapping-IsValid

commit_lem_example :
    ((prepared wrapping ≡ 0) × (commit_event wrapping small ≡ none))
    ⊎ ((ep' : Endpoint) × (commit_event wrapping small ≡ some ep')
        × (prepared wrapping ≡ suc (prepared ep'))
        × ((slot : Slot) × Holds 0 small slot × (pending ep' ≡ pending wrapping ++ (slot ∷ [])))
        × (pending_exp ep' ≡ pending_exp wrapping)
        × (ep'.next_recvq ≡ 0)
        × (ep'.waiters ≡ event_arrived ∷ event_arrived ∷ []))
commit_lem_example = commit_lem wrapping small wrapping-IsValid

-- 256 events wait.
abbrev batch_waiting : Endpoint
batch_waiting = record blank { nextfree_unexp = 256; nextreserved_unexp = 256 }

release_unexp_lem_example :
    let (s, ep') = release_unexp_slots batch_waiting in
    ((length (pending batch_waiting) < release_batch_nr) × (s ≡ invalid) × (ep' ≡ batch_waiting))
    ⊎ ((release_batch_nr ≤ length (pending batch_waiting))
        × (s ≡ ok)
        × (pending ep' ≡ drop release_batch_nr (pending batch_waiting))
        × (prepared ep' ≡ prepared batch_waiting))
release_unexp_lem_example = release_unexp_lem batch_waiting (omega arith)

after_calls_few : sub32 after_calls.nextreserved_unexp 0 < 1024
unfolding after_calls run step queues_init notify_exp_event notify_unexp_event prepare_event
    prepare_events commit_event cancel_event release_exp_slots
after_calls_few = omega arith

after_calls-IsReading : IsReading after_calls 0
unfolding after_calls run step queues_init notify_exp_event notify_unexp_event prepare_event
    prepare_events commit_event cancel_event release_exp_slots
after_calls-IsReading = record {
  valid = run-IsValid blank calls calls_sized after_calls_lem;
  marked = run-IsMarked blank calls calls_sized after_calls_lem;
  index_u32 = omega arith;
  batch = omega arith;
  behind = omega arith;
  ahead = omega arith;
}

poll_unexp-Drained_example : Drained after_calls 0 [] (poll_unexp 1024 after_calls 0 [])
poll_unexp-Drained_example =
    poll_unexp-Drained 1024 after_calls 0 [] after_calls-IsReading after_calls_few

abbrev cmd : WaitCmd
cmd = record {
  next_exp_event_index = 0;
  next_unexp_event_index = 0;
  user_event_index = 0;
  jiffies_expire = 500;
}

-- The progress timeout comes first, and nobody else does anything.
abbrev quiet : Surroundings
quiet = record {
  copy_in_ok = true;
  kmalloc_ok = true;
  copy_out_ok = true;
  wakeup_jiffies = 400;
  user_event_index = 0;
  jiffies = 100;
  signal_pending = false;
  while_setup = nothing;
  while_asleep = λ timer. progress;
}

quiet_sleep : wait_event blank cmd quiet ≡ reported progress (some (on_progress, 400)) true
unfolding wait_event index_race expired choose_timer time_after64 time_after_eq64
quiet_sleep = refl

-- The expected queue is full.
abbrev full : Shared
full = record { nextfree = 1024; nextreleased = 0; phase = λ t. idle }

late_roll_back-collides_example :
    let s' = acts full late_roll_back in (s'.phase 1 ≡ writing 1025) × (s'.phase 2 ≡ writing 1025)
late_roll_back-collides_example =
    late_roll_back-collides full (omega arith) (omega arith) refl refl refl refl
