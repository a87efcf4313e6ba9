-- ===== src/EventQueue/Invariant.antt =====
-- The counters of the event queues: what holds of them after any sequence of calls.
use xen2mx.Base.{List, ℕ, ◌≤◌, ◌<◌, ◌+◌, ◌≡◌, some, arith, u32_mod, sub32}
use xen2mx.EventQueue.{
  Endpoint, Event, entry_nr, queues_init, notify_exp_event, notify_unexp_event, prepare_event,
  prepare_events, commit_event, cancel_event, release_exp_slots, release_unexp_slots,
}
use xen2mx.EventQueue.Steps.{
  Call, notify_exp, notify_unexp, commit, prepare, cancel, release_exp, release_unexp, prepare_many,
  step, run, run_inv, IsSized, AllSized,
}

-- At most 1024 slots are taken, and no more are filled than were freed for filling.
pub record IsValid (ep : Endpoint) : Type 0 where
  pub free_exp : ep.nextfree_exp < u32_mod
  pub released_exp : ep.nextreleased_exp < u32_mod
  pub free_unexp : ep.nextfree_unexp < u32_mod
  pub reserved_unexp : ep.nextreserved_unexp < u32_mod
  pub released_unexp : ep.nextreleased_unexp < u32_mod
  pub recvq : ep.next_recvq < u32_mod
  pub room_exp : sub32 ep.nextfree_exp ep.nextreleased_exp ≤ entry_nr
  pub room_unexp : sub32 ep.nextfree_unexp ep.nextreleased_unexp ≤ entry_nr
  pub filled_unexp :
      sub32 ep.nextreserved_unexp ep.nextreleased_unexp
      ≤ sub32 ep.nextfree_unexp ep.nextreleased_unexp

-- Slots that prepare has set aside and neither commit nor cancel has filled.
abbrev pub prepared : Endpoint → ℕ
prepared ep = sub32 ep.nextfree_unexp ep.nextreserved_unexp

pub queues_init-IsValid : (ep : Endpoint) → IsValid (queues_init ep)
unfolding queues_init
queues_init-IsValid ep = omega arith

notify_exp-IsValid : {ep : Endpoint} (e : Event) → IsValid ep → IsValid (notify_exp_event ep e).1
unfolding notify_exp_event
notify_exp-IsValid e v = ground arith

notify_unexp-IsValid :
    {ep : Endpoint} (e : Event) → IsValid ep → IsValid (notify_unexp_event ep e).1
unfolding notify_unexp_event
notify_unexp-IsValid e v = ground arith

prepare_event-IsValid : {ep : Endpoint} → IsValid ep → IsValid (prepare_event ep).2
unfolding prepare_event
prepare_event-IsValid v = ground arith

prepare_events-IsValid :
    {ep : Endpoint} (nr : ℕ)
    → nr + entry_nr < u32_mod
    → IsValid ep
    → IsValid (prepare_events ep nr).2
unfolding prepare_events
prepare_events-IsValid nr h v = ground arith

commit_event-IsValid :
    {ep ep' : Endpoint} (e : Event) → IsValid ep → commit_event ep e ≡ some ep' → IsValid ep'
unfolding commit_event
commit_event-IsValid e v h = ground arith

cancel_event-IsValid : {ep ep' : Endpoint} → IsValid ep → cancel_event ep ≡ some ep' → IsValid ep'
unfolding cancel_event
cancel_event-IsValid v h = ground arith

release_exp-IsValid : {ep : Endpoint} → IsValid ep → IsValid (release_exp_slots ep).1
unfolding release_exp_slots
release_exp-IsValid v = ground arith

pub release_unexp-IsValid : {ep : Endpoint} → IsValid ep → IsValid (release_unexp_slots ep).1
unfolding release_unexp_slots
release_unexp-IsValid v = ground arith

pub step-IsValid :
    {ep ep' : Endpoint} (c : Call) → IsSized c → IsValid ep → step ep c ≡ some ep' → IsValid ep'
unfolding step
step-IsValid (notify_exp e) z v h = ground (arith, notify_exp-IsValid e v)
step-IsValid (notify_unexp e) z v h = ground (arith, notify_unexp-IsValid e v)
step-IsValid (commit e) z v h = commit_event-IsValid e v h
step-IsValid prepare z v h = ground (arith, prepare_event-IsValid v)
step-IsValid cancel z v h = cancel_event-IsValid v h
step-IsValid release_exp z v h = ground (arith, release_exp-IsValid v)
step-IsValid release_unexp z v h = ground (arith, release_unexp-IsValid v)
step-IsValid (prepare_many nr) z v h = ground (arith, prepare_events-IsValid nr z v)

-- From the initialisation on, whatever calls are made and in whatever order, as long as none
-- prepares some 2 ^ 32 events at once, at most 1024 slots of each queue are taken and no slot is
-- filled that was not taken first.
pub run-IsValid :
    (ep : Endpoint) {ep' : Endpoint} (cs : List Call)
    → AllSized cs
    → run (queues_init ep) cs ≡ some ep'
    → IsValid ep'
run-IsValid ep cs z h =
    run_inv IsValid (λ ep₁ ep₂ c. step-IsValid c) cs z (queues_init-IsValid ep) h
