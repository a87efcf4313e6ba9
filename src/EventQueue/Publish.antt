-- ===== src/EventQueue/Publish.antt =====
-- What each call of driver/linux/omx_event.c does to the queue of waiting events, on every branch.
use xen2mx.Base.{
  ℕ, suc, ◌+◌, ◌-◌, ◌%◌, ◌≤◌, ◌<◌, ◌≡◌, refl, ap, ◌∙◌, ◌⊎◌, inl, inr, List, [], ◌∷◌, ◌++◌, map,
  true, none, some, arith, u32_mod, add32, sub32, update, Bool-cases, ltb, ltb→lt, ltb→le, leb→le,
  leb→gt, length, take, drop,
}
use xen2mx.EventQueue.{
  Endpoint, Event, Slot, ignore, ok, busy, invalid, event_arrived, entry_nr, release_batch_nr,
  event_id, store_event, store_ignore, notify_unexp_event, commit_event, cancel_event,
  release_unexp_slots, nothing_prepared,
}
use xen2mx.EventQueue.Invariant.{IsValid, prepared}
use xen2mx.EventQueue.Window.{
  window, length-window, window-update, window-drop, pending, pending_exp,
}

-- The slot holds the event under the id of this index.
pub record Holds (index : ℕ) (e : Event) (s : Slot) : Type 0 where
  pub id : s.id ≡ event_id index
  pub type : s.type ≡ e.type
  pub bytes : take (length e.bytes) s.bytes ≡ e.bytes

take-append {ℓ} : {A : Type ℓ} (xs ys : List A) → take (length xs) (xs ++ ys) ≡ xs
take-append [] ys = refl
take-append (x ∷ xs) ys = λ i. x ∷ take-append xs ys i

abbrev stored_slot : (ℕ → Slot) → ℕ → Event → Slot
stored_slot q index e = record {
  id = event_id index;
  type = e.type;
  bytes = e.bytes ++ drop (length e.bytes) (q (index % entry_nr)).bytes;
}

stored_slot-Holds : (q : ℕ → Slot) (index : ℕ) (e : Event) → Holds index e (stored_slot q index e)
stored_slot-Holds q index e = record { id = refl; type = refl; bytes = take-append e.bytes _ }

-- A slot written at the next index goes behind the waiting ones; `waiting` counts these.
window-write :
    (q : ℕ → Slot) (slot : Slot) (released index : ℕ)
    → released < u32_mod
    → index < u32_mod
    → sub32 index released < entry_nr
    → window (update q (index % entry_nr) slot) released (sub32 (add32 index 1) released)
      ≡ window q released (sub32 index released) ++ (slot ∷ [])
window-write q slot released index hr hi room =
    ap (window (update q (index % entry_nr) slot) released) {y = suc (sub32 index released)}
      (omega arith)
    ∙ window-update q slot released (sub32 index released) index hr room (omega arith)

length-pending :
    (ep : Endpoint) → length (pending ep) ≡ sub32 ep.nextreserved_unexp ep.nextreleased_unexp
length-pending ep = length-window ep.unexp_eventq ep.nextreleased_unexp _

-- In a valid endpoint, a full unexpected queue refuses an event and changes only the flag and the
-- counter; otherwise the event goes behind the waiting ones, with the id of its index, every
-- waiter is woken, and the waiting expected events, the number of reservations and the next
-- receive slot stay as they were.
pub notify_unexp_lem :
    (ep : Endpoint) (e : Event)
    → IsValid ep
    → let (s, ep') = notify_unexp_event ep e in
      ((length (pending ep) + prepared ep ≡ entry_nr)
        × (s ≡ busy)
        × (ep'
            ≡ record ep { unexp_full_counter = add32 ep.unexp_full_counter 1; unexp_full = true }))
      ⊎ ((length (pending ep) + prepared ep < entry_nr)
          × (s ≡ ok)
          × ((slot : Slot) × Holds ep.nextreserved_unexp e slot
              × (pending ep' ≡ pending ep ++ (slot ∷ [])))
          × (prepared ep' ≡ prepared ep)
          × (pending_exp ep' ≡ pending_exp ep)
          × (ep'.next_recvq ≡ ep.next_recvq)
          × (ep'.waiters ≡ map (λ _. event_arrived) ep.waiters))
unfolding notify_unexp_event store_event
notify_unexp_lem ep e v =
    elim (Bool-cases (ltb entry_nr (sub32 (add32 ep.nextfree_unexp 1) ep.nextreleased_unexp))) [
      | inl full ↦
          rw full (inl (omega (arith, ltb→lt _ _ full, length-pending ep), refl, ground arith))
      | inr free ↦ rw free (
          inr (
            omega (arith, length-pending ep, ltb→le _ _ free),
            refl,
            (
              stored_slot ep.unexp_eventq ep.nextreserved_unexp e,
              stored_slot-Holds ep.unexp_eventq _ e,
              window-write ep.unexp_eventq _ _ _ v.released_unexp v.reserved_unexp
                  (omega (arith, ltb→le _ _ free)),
            ),
            omega arith,
            refl,
            refl,
            refl,
          ))
    ]

-- In a valid endpoint, a commit stops the driver exactly when nothing is prepared. Otherwise it
-- turns one prepared slot into a waiting event behind the others, with the id of its index, wakes
-- every waiter and leaves the waiting expected events and the next receive slot as they were.
pub commit_lem :
    (ep : Endpoint) (e : Event)
    → IsValid ep
    → ((prepared ep ≡ 0) × (commit_event ep e ≡ none))
      ⊎ ((ep' : Endpoint) × (commit_event ep e ≡ some ep')
          × (prepared ep ≡ suc (prepared ep'))
          × ((slot : Slot) × Holds ep.nextreserved_unexp e slot
              × (pending ep' ≡ pending ep ++ (slot ∷ [])))
          × (pending_exp ep' ≡ pending_exp ep)
          × (ep'.next_recvq ≡ ep.next_recvq)
          × (ep'.waiters ≡ map (λ _. event_arrived) ep.waiters))
unfolding commit_event store_event
commit_lem ep e v = elim (Bool-cases (nothing_prepared ep)) [
  | inl stop ↦ rw stop (inl (omega (arith, leb→le _ _ stop), refl))
  | inr go ↦ rw go (
      inr (
        _,
        refl,
        omega (arith, leb→gt _ _ go),
        (
          stored_slot ep.unexp_eventq ep.nextreserved_unexp e,
          stored_slot-Holds ep.unexp_eventq _ e,
          window-write ep.unexp_eventq _ _ _ v.released_unexp v.reserved_unexp
              (omega (arith, leb→gt _ _ go)),
        ),
        refl,
        refl,
        refl,
      ))
]

-- In a valid endpoint, a cancel stops the driver exactly when nothing is prepared. Otherwise it
-- turns one prepared slot into a waiting event of the type that the library ignores, behind the
-- others; nobody is woken, and the waiting expected events and the next receive slot stay as they
-- were.
pub cancel_lem :
    (ep : Endpoint)
    → IsValid ep
    → ((prepared ep ≡ 0) × (cancel_event ep ≡ none))
      ⊎ ((ep' : Endpoint) × (cancel_event ep ≡ some ep')
          × (prepared ep ≡ suc (prepared ep'))
          × ((slot : Slot) × (slot.id ≡ event_id ep.nextreserved_unexp)
              × (slot.type ≡ ignore)
              × (pending ep' ≡ pending ep ++ (slot ∷ [])))
          × (pending_exp ep' ≡ pending_exp ep)
          × (ep'.next_recvq ≡ ep.next_recvq)
          × (ep'.waiters ≡ ep.waiters))
unfolding cancel_event store_ignore
cancel_lem ep v = elim (Bool-cases (nothing_prepared ep)) [
  | inl stop ↦ rw stop (inl (omega (arith, leb→le _ _ stop), refl))
  | inr go ↦ rw go (
      inr (
        _,
        refl,
        omega (arith, leb→gt _ _ go),
        (
          record {
            id = event_id ep.nextreserved_unexp;
            type = ignore;
            bytes = (ep.unexp_eventq (ep.nextreserved_unexp % entry_nr)).bytes;
          },
          refl,
          refl,
          window-write ep.unexp_eventq _ _ _ v.released_unexp v.reserved_unexp
              (omega (arith, leb→gt _ _ go)),
        ),
        refl,
        refl,
        refl,
      ))
]

-- In a valid endpoint, a release takes off the oldest 256 waiting events, and only if as many
-- wait; otherwise it fails and changes nothing. The number of reservations stays the same.
pub release_unexp_lem :
    (ep : Endpoint)
    → IsValid ep
    → let (s, ep') = release_unexp_slots ep in
      ((length (pending ep) < release_batch_nr) × (s ≡ invalid) × (ep' ≡ ep))
      ⊎ ((release_batch_nr ≤ length (pending ep))
          × (s ≡ ok)
          × (pending ep' ≡ drop release_batch_nr (pending ep))
          × (prepared ep' ≡ prepared ep))
unfolding release_unexp_slots
release_unexp_lem ep v =
    elim (Bool-cases (ltb (sub32 ep.nextreserved_unexp ep.nextreleased_unexp) release_batch_nr)) [
      | inl few ↦ rw few (inl (omega (arith, ltb→lt _ _ few, length-pending ep), refl, refl))
      | inr many ↦ rw many (
          inr (
            omega (arith, ltb→le _ _ many, length-pending ep),
            refl,
            ap (window ep.unexp_eventq (add32 ep.nextreleased_unexp release_batch_nr))
                  {y = sub32 ep.nextreserved_unexp ep.nextreleased_unexp - release_batch_nr}
                  (omega (arith, ltb→le _ _ many))
                ∙ window-drop ep.unexp_eventq ep.nextreleased_unexp release_batch_nr _
                    v.released_unexp (omega (arith, ltb→le _ _ many)),
            refl,
          ))
    ]
