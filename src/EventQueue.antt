-- ===== src/EventQueue.antt =====
-- driver/linux/omx_event.c: the expected and unexpected event queues of an endpoint, which the
-- driver fills and the library reads through a shared mapping.
-- A queue is an array of 1024 slots, seen as a function of the slot number; the counters are the
-- source's free-running 32-bit indices. A function that can return an error returns the new
-- endpoint beside it. Locks and barriers have no counterpart where a function runs alone.
pub mod Steps
pub mod Invariant
pub mod Window
pub mod Publish
pub mod Marks
pub mod Poll
pub mod Wait
pub mod Race
pub mod Tests
use xen2mx.Base.{
  ℕ, zero, suc, ◌+◌, ◌%◌, List, [], ◌∷◌, ◌++◌, map, Bool, true, Option, none, some, ltb, leb,
  if◌then◌else◌, add32, sub32, update, length, drop,
}

-- OMX_EXP_EVENTQ_ENTRY_NR, OMX_UNEXP_EVENTQ_ENTRY_NR and OMX_RECVQ_ENTRY_NR
abbrev pub entry_nr : ℕ
entry_nr = 1024

-- OMX_EVENT_ID_MAX
abbrev pub event_id_max : ℕ
event_id_max = 255

-- OMX_EXP_RELEASE_SLOTS_BATCH_NR and OMX_UNEXP_RELEASE_SLOTS_BATCH_NR
abbrev pub release_batch_nr : ℕ
release_batch_nr = 256

-- The event types that matter here: any event of the driver, and OMX_EVT_IGNORE.
pub data EventType : Type 0 where
  event : ℕ → EventType
  ignore : EventType

-- What a caller passes to be stored: the bytes are those after the generic header.
pub record Event : Type 0 where
  pub type : EventType
  pub bytes : List ℕ

-- union omx_evt in its slot; id 0 means unused yet.
pub record Slot : Type 0 where
  pub id : ℕ
  pub type : EventType
  pub bytes : List ℕ

-- OMX_CMD_WAIT_EVENT_STATUS_*
pub data WaitStatus : Type 0 where
  nothing event_arrived intr progress timeout race wakeup : WaitStatus

pub data Status : Type 0 where
  ok busy invalid : Status

-- The fields of struct omx_endpoint that the event code reads or writes. `exp_full` and
-- `unexp_full` are the two bits of userdesc->status, the two counters those of the interface.
pub record Endpoint : Type 0 where
  pub exp_eventq : ℕ → Slot
  pub nextfree_exp : ℕ
  pub nextreleased_exp : ℕ
  pub unexp_eventq : ℕ → Slot
  pub nextfree_unexp : ℕ
  pub nextreserved_unexp : ℕ
  pub nextreleased_unexp : ℕ
  pub next_recvq : ℕ
  pub exp_full : Bool
  pub unexp_full : Bool
  pub exp_full_counter : ℕ
  pub unexp_full_counter : ℕ
  pub waiters : List WaitStatus

-- The id that marks a slot as filled for this index.
abbrev pub event_id : ℕ → ℕ
event_id index = 1 + index % event_id_max

-- memcpy(slot, event, length), then the id.
unfoldable pub store_event : (ℕ → Slot) → ℕ → Event → ℕ → Slot
store_event q index e = update q (index % entry_nr) (record {
  id = event_id index;
  type = e.type;
  bytes = e.bytes ++ drop (length e.bytes) (q (index % entry_nr)).bytes;
})

-- The dummy event of a cancelled reservation: only the generic header is written.
unfoldable pub store_ignore : (ℕ → Slot) → ℕ → ℕ → Slot
store_ignore q index =
    update q (index % entry_nr)
      (record { id = event_id index; type = ignore; bytes = (q (index % entry_nr)).bytes })

-- omx_wakeup_waiter_list: every waiter gets the status.
unfoldable pub wakeup_waiter_list : Endpoint → WaitStatus → Endpoint
wakeup_waiter_list ep status = record ep { waiters = map (λ _. status) ep.waiters }

-- omx_endpoint_queues_init; the counters of the interface and the descriptor are not its own.
unfoldable pub queues_init : Endpoint → Endpoint
queues_init ep = record ep {
  exp_eventq = λ i. if ltb i entry_nr then record (ep.exp_eventq i) { id = 0 } else ep.exp_eventq i;
  nextfree_exp = 0;
  nextreleased_exp = 0;
  unexp_eventq =
      λ i. if ltb i entry_nr then record (ep.unexp_eventq i) { id = 0 } else ep.unexp_eventq i;
  nextfree_unexp = 0;
  nextreserved_unexp = 0;
  nextreleased_unexp = 0;
  next_recvq = 0;
  waiters = [];
}

-- omx_notify_exp_event: take the next slot; roll back if that went past the released ones.
unfoldable pub notify_exp_event : Endpoint → Event → Status × Endpoint
unfolding store_event wakeup_waiter_list
notify_exp_event ep e =
    let index = ep.nextfree_exp in
    let taken = add32 ep.nextfree_exp 1 in
    if ltb entry_nr (sub32 taken ep.nextreleased_exp)
    then (
      busy,
      record ep {
        nextfree_exp = sub32 taken 1;
        exp_full_counter = add32 ep.exp_full_counter 1;
        exp_full = true;
      },
    )
    else (
      ok,
      wakeup_waiter_list
          (record ep { nextfree_exp = taken; exp_eventq = store_event ep.exp_eventq index e })
          event_arrived,
    )

-- omx_notify_unexp_event: the same, with a slot that is freed and reserved in one go.
unfoldable pub notify_unexp_event : Endpoint → Event → Status × Endpoint
unfolding store_event wakeup_waiter_list
notify_unexp_event ep e =
    let free = add32 ep.nextfree_unexp 1 in
    let index = ep.nextreserved_unexp in
    let reserved = add32 ep.nextreserved_unexp 1 in
    if ltb entry_nr (sub32 free ep.nextreleased_unexp)
    then (
      busy,
      record ep {
        nextfree_unexp = sub32 free 1;
        nextreserved_unexp = sub32 reserved 1;
        unexp_full_counter = add32 ep.unexp_full_counter 1;
        unexp_full = true;
      },
    )
    else (
      ok,
      wakeup_waiter_list
          (record ep {
            nextfree_unexp = free;
            nextreserved_unexp = reserved;
            unexp_eventq = store_event ep.unexp_eventq index e;
          })
          event_arrived,
    )

-- The offset of a receive-queue slot, in entries of OMX_RECVQ_ENTRY_SIZE bytes.
abbrev pub recvq_slot : ℕ → ℕ
recvq_slot index = index % entry_nr

-- recvq_offset_p[0 .. nr), from the i-th on
unfoldable pub recvq_slots : ℕ → ℕ → ℕ → List ℕ
recvq_slots first i zero = []
recvq_slots first i (suc nr) = recvq_slot (add32 first i) ∷ recvq_slots first (i + 1) nr

-- omx_prepare_notify_unexp_events_with_recvq: reserve room for `nr` events and as many receive
-- slots.
unfoldable pub prepare_events : Endpoint → ℕ → Status × List ℕ × Endpoint
unfolding recvq_slots
prepare_events ep nr =
    let free = add32 ep.nextfree_unexp nr in
    let first = ep.next_recvq in
    let next = add32 ep.next_recvq nr in
    if ltb entry_nr (sub32 free ep.nextreleased_unexp)
    then (
      busy,
      [],
      record ep {
        nextfree_unexp = sub32 free nr;
        next_recvq = sub32 next nr;
        unexp_full_counter = add32 ep.unexp_full_counter 1;
        unexp_full = true;
      },
    )
    else (ok, recvq_slots first 0 nr, record ep { nextfree_unexp = free; next_recvq = next })

-- omx_prepare_notify_unexp_event_with_recvq: the same for one event.
unfoldable pub prepare_event : Endpoint → Status × Option ℕ × Endpoint
prepare_event ep =
    let free = add32 ep.nextfree_unexp 1 in
    let index = ep.next_recvq in
    let next = add32 ep.next_recvq 1 in
    if ltb entry_nr (sub32 free ep.nextreleased_unexp)
    then (
      busy,
      none,
      record ep {
        nextfree_unexp = sub32 free 1;
        next_recvq = sub32 next 1;
        unexp_full_counter = add32 ep.unexp_full_counter 1;
        unexp_full = true;
      },
    )
    else (ok, some (recvq_slot index), record ep { nextfree_unexp = free; next_recvq = next })

-- The condition of BUG_ON in commit and cancel: no reservation is outstanding.
abbrev pub nothing_prepared : Endpoint → Bool
nothing_prepared ep =
    leb (sub32 ep.nextfree_unexp ep.nextreleased_unexp)
      (sub32 ep.nextreserved_unexp ep.nextreleased_unexp)

-- omx_commit_notify_unexp_event_with_recvq; `none` is the BUG_ON.
unfoldable pub commit_event : Endpoint → Event → Option Endpoint
unfolding store_event wakeup_waiter_list
commit_event ep e =
    if nothing_prepared ep
    then none
    else some (
        wakeup_waiter_list
          (record ep {
            nextreserved_unexp = add32 ep.nextreserved_unexp 1;
            unexp_eventq = store_event ep.unexp_eventq ep.nextreserved_unexp e;
          })
          event_arrived)

-- omx_cancel_notify_unexp_event_with_recvq; nobody is woken.
unfoldable pub cancel_event : Endpoint → Option Endpoint
unfolding store_ignore
cancel_event ep =
    if nothing_prepared ep
    then none
    else some (record ep {
      nextreserved_unexp = add32 ep.nextreserved_unexp 1;
      unexp_eventq = store_ignore ep.unexp_eventq ep.nextreserved_unexp;
    })

-- omx_ioctl_release_exp_slots
unfoldable pub release_exp_slots : Endpoint → Status × Endpoint
release_exp_slots ep =
    if ltb (sub32 ep.nextfree_exp ep.nextreleased_exp) release_batch_nr
    then (invalid, ep)
    else (ok, record ep { nextreleased_exp = add32 ep.nextreleased_exp release_batch_nr })

-- omx_ioctl_release_unexp_slots
unfoldable pub release_unexp_slots : Endpoint → Status × Endpoint
release_unexp_slots ep =
    if ltb (sub32 ep.nextreserved_unexp ep.nextreleased_unexp) release_batch_nr
    then (invalid, ep)
    else (ok, record ep { nextreleased_unexp = add32 ep.nextreleased_unexp release_batch_nr })
