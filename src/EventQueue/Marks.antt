-- ===== src/EventQueue/Marks.antt =====
-- The ids in the slots of an event queue of driver/linux/omx_event.c: the library tells by them
-- which slots hold events that it has not seen.
use xen2mx.Base.{
  ℕ, ◌+◌, ◌%◌, ◌≤◌, ◌<◌, ◌≡◌, ◌≢◌, refl, sym, some, arith, u32_mod, add32, sub32, update,
  update_self, update_ne, ltb, if◌then◌else◌, Bool-cases, ltb→le, leb→gt, List, inl, inr, subst,
  some-injective, ◌∙◌, ap,
}
use xen2mx.EventQueue.{
  Endpoint, Event, Slot, entry_nr, event_id, release_batch_nr, nothing_prepared, store_event,
  store_ignore, queues_init, notify_exp_event, notify_unexp_event, prepare_event, prepare_events,
  commit_event, cancel_event, release_exp_slots, release_unexp_slots,
}
use xen2mx.EventQueue.Invariant.{IsValid, queues_init-IsValid, step-IsValid}
use xen2mx.EventQueue.Steps.{
  Call, notify_exp, notify_unexp, commit, prepare, cancel, release_exp, release_unexp, prepare_many,
  step, run, run_inv, AllSized,
}
use native.Mathlib.Decide.{dec_lt}

-- The slots from `released` up to `next` carry the ids of their indices; none of the 1024 slots
-- carries the id that it will get at its next filling.
pub record Marks (q : ℕ → Slot) (released next : ℕ) : Type 0 where
  pub filled :
      (j : ℕ)
      → j < sub32 next released
      → (q (add32 released j % entry_nr)).id ≡ event_id (add32 released j)
  pub stale : (k : ℕ) → k < entry_nr → (q (add32 next k % entry_nr)).id ≢ event_id (add32 next k)

module _ (q : ℕ → Slot) (s : Slot) (released next : ℕ) (hr : released < u32_mod)
    (hn : next < u32_mod) (room : sub32 next released < entry_nr)
    (mark : s.id ≡ event_id next) where
  filled-write :
      Marks q released next
      → (j : ℕ) → j < sub32 (add32 next 1) released
      → (update q (next % entry_nr) s (add32 released j % entry_nr)).id
        ≡ event_id (add32 released j)
  filled-write m j h = elim (dec_lt j (sub32 next released)) [
    | yes old ↦
        ap (λ (t : Slot). t.id)
          (update_ne q (next % entry_nr) (add32 released j % entry_nr) s (omega arith))
        ∙ m.filled j old
    | no last ↦
        let e : next ≡ add32 released j = omega arith in
        rw (← e) (ap (λ (t : Slot). t.id) (update_self q (next % entry_nr) s) ∙ mark)
  ]

  stale-write :
      Marks q released next
      → (k : ℕ) → k < entry_nr
      → (update q (next % entry_nr) s (add32 (add32 next 1) k % entry_nr)).id
        ≢ event_id (add32 (add32 next 1) k)
  stale-write m k h = elim (dec_lt k 1023) [
    | yes old ↦
        let e : add32 (add32 next 1) k ≡ add32 next (k + 1) = omega arith in
        let far : next % entry_nr ≢ add32 next (k + 1) % entry_nr = omega arith in
        rw e (λ p.
          m.stale (k + 1) (omega arith) (ap (λ (t : Slot). t.id) (sym (update_ne q _ _ s far)) ∙ p))
    | no last ↦
        let e : next % entry_nr ≡ add32 (add32 next 1) k % entry_nr = omega arith in
        let w : (update q (next % entry_nr) s (add32 (add32 next 1) k % entry_nr)).id
            ≡ event_id next =
          rw (← e) (ap (λ (t : Slot). t.id) (update_self q (next % entry_nr) s) ∙ mark) in
        λ p. omega (arith, w, p)
  ]

  pub Marks-write :
      Marks q released next → Marks (update q (next % entry_nr) s) released (add32 next 1)
  Marks-write m = record { filled = filled-write m; stale = stale-write m }

Marks-release :
    (q : ℕ → Slot) (released next : ℕ)
    → released < u32_mod
    → next < u32_mod
    → release_batch_nr ≤ sub32 next released
    → Marks q released next
    → Marks q (add32 released release_batch_nr) next
Marks-release q released next hr hn h m = record {
  filled = λ j p.
      let e : add32 (add32 released release_batch_nr) j ≡ add32 released (release_batch_nr + j) =
        omega arith in
      rw e (m.filled (release_batch_nr + j) (omega arith));
  stale = m.stale;
}

-- Both queues of an endpoint.
pub record IsMarked (ep : Endpoint) : Type 0 where
  pub exp : Marks ep.exp_eventq ep.nextreleased_exp ep.nextfree_exp
  pub unexp : Marks ep.unexp_eventq ep.nextreleased_unexp ep.nextreserved_unexp

Marks-init :
    (q : ℕ → Slot) → Marks (λ i. if ltb i entry_nr then record (q i) { id = 0 } else q i) 0 0
Marks-init q = record { filled = λ j h. absurd (omega arith); stale = λ k h. ground arith }

queues_init-IsMarked : (ep : Endpoint) → IsMarked (queues_init ep)
unfolding queues_init
queues_init-IsMarked ep = record {
  exp = Marks-init ep.exp_eventq;
  unexp = Marks-init ep.unexp_eventq;
}

notify_exp-IsMarked :
    {ep : Endpoint} (e : Event) → IsValid ep → IsMarked ep → IsMarked (notify_exp_event ep e).1
unfolding notify_exp_event store_event
notify_exp-IsMarked {ep} e v m =
    elim (Bool-cases (ltb entry_nr (sub32 (add32 ep.nextfree_exp 1) ep.nextreleased_exp))) [
      | inl full ↦ rw full (record {
        exp = subst (Marks ep.exp_eventq ep.nextreleased_exp) (omega arith) m.exp;
        unexp = m.unexp;
      })
      | inr free ↦ rw free (record {
        exp =
            Marks-write ep.exp_eventq _ _ _ v.released_exp v.free_exp
              (omega (arith, ltb→le _ _ free)) refl m.exp;
        unexp = m.unexp;
      })
    ]

notify_unexp-IsMarked :
    {ep : Endpoint} (e : Event) → IsValid ep → IsMarked ep → IsMarked (notify_unexp_event ep e).1
unfolding notify_unexp_event store_event
notify_unexp-IsMarked {ep} e v m =
    elim (Bool-cases (ltb entry_nr (sub32 (add32 ep.nextfree_unexp 1) ep.nextreleased_unexp))) [
      | inl full ↦ rw full (record {
        exp = m.exp;
        unexp = subst (Marks ep.unexp_eventq ep.nextreleased_unexp) (omega arith) m.unexp;
      })
      | inr free ↦ rw free (record {
        exp = m.exp;
        unexp =
            Marks-write ep.unexp_eventq _ _ _ v.released_unexp v.reserved_unexp
              (omega (arith, ltb→le _ _ free)) refl m.unexp;
      })
    ]

commit-IsMarked :
    {ep ep' : Endpoint} (e : Event)
    → IsValid ep
    → IsMarked ep
    → commit_event ep e ≡ some ep'
    → IsMarked ep'
unfolding commit_event store_event
commit-IsMarked {ep} e v m h = elim (Bool-cases (nothing_prepared ep)) [
  | inl stop ↦ cc (rw stop at h)
  | inr go ↦ subst IsMarked (some-injective _ _ (rw go at h)) (record {
    exp = m.exp;
    unexp =
        Marks-write ep.unexp_eventq _ _ _ v.released_unexp v.reserved_unexp
          (omega (arith, leb→gt _ _ go)) refl m.unexp;
  })
]

cancel-IsMarked :
    {ep ep' : Endpoint} → IsValid ep → IsMarked ep → cancel_event ep ≡ some ep' → IsMarked ep'
unfolding cancel_event store_ignore
cancel-IsMarked {ep} v m h = elim (Bool-cases (nothing_prepared ep)) [
  | inl stop ↦ cc (rw stop at h)
  | inr go ↦ subst IsMarked (some-injective _ _ (rw go at h)) (record {
    exp = m.exp;
    unexp =
        Marks-write ep.unexp_eventq _ _ _ v.released_unexp v.reserved_unexp
          (omega (arith, leb→gt _ _ go)) refl m.unexp;
  })
]

pub release_unexp-IsMarked :
    {ep : Endpoint} → IsValid ep → IsMarked ep → IsMarked (release_unexp_slots ep).1
unfolding release_unexp_slots
release_unexp-IsMarked {ep} v m =
    elim (Bool-cases (ltb (sub32 ep.nextreserved_unexp ep.nextreleased_unexp) release_batch_nr)) [
      | inl few ↦ rw few m
      | inr many ↦ rw many (record {
        exp = m.exp;
        unexp =
            Marks-release ep.unexp_eventq _ _ v.released_unexp v.reserved_unexp (ltb→le _ _ many)
              m.unexp;
      })
    ]

release_exp-IsMarked :
    {ep : Endpoint} → IsValid ep → IsMarked ep → IsMarked (release_exp_slots ep).1
unfolding release_exp_slots
release_exp-IsMarked {ep} v m =
    elim (Bool-cases (ltb (sub32 ep.nextfree_exp ep.nextreleased_exp) release_batch_nr)) [
      | inl few ↦ rw few m
      | inr many ↦ rw many (record {
        exp = Marks-release ep.exp_eventq _ _ v.released_exp v.free_exp (ltb→le _ _ many) m.exp;
        unexp = m.unexp;
      })
    ]

prepare_events-IsMarked : {ep : Endpoint} (nr : ℕ) → IsMarked ep → IsMarked (prepare_events ep nr).2
unfolding prepare_events
prepare_events-IsMarked {ep} nr m =
    elim (Bool-cases (ltb entry_nr (sub32 (add32 ep.nextfree_unexp nr) ep.nextreleased_unexp))) [
      | inl full ↦ rw full (record { exp = m.exp; unexp = m.unexp })
      | inr free ↦ rw free (record { exp = m.exp; unexp = m.unexp })
    ]

prepare_event-IsMarked : {ep : Endpoint} → IsMarked ep → IsMarked (prepare_event ep).2
unfolding prepare_event
prepare_event-IsMarked {ep} m =
    elim (Bool-cases (ltb entry_nr (sub32 (add32 ep.nextfree_unexp 1) ep.nextreleased_unexp))) [
      | inl full ↦ rw full (record { exp = m.exp; unexp = m.unexp })
      | inr free ↦ rw free (record { exp = m.exp; unexp = m.unexp })
    ]

pub step-IsMarked :
    {ep ep' : Endpoint} (c : Call) → IsValid ep → IsMarked ep → step ep c ≡ some ep' → IsMarked ep'
unfolding step
step-IsMarked (notify_exp e) v m h =
    subst IsMarked (some-injective _ _ h) (notify_exp-IsMarked e v m)
step-IsMarked (notify_unexp e) v m h =
    subst IsMarked (some-injective _ _ h) (notify_unexp-IsMarked e v m)
step-IsMarked (commit e) v m h = commit-IsMarked e v m h
step-IsMarked prepare v m h = subst IsMarked (some-injective _ _ h) (prepare_event-IsMarked m)
step-IsMarked cancel v m h = cancel-IsMarked v m h
step-IsMarked release_exp v m h = subst IsMarked (some-injective _ _ h) (release_exp-IsMarked v m)
step-IsMarked release_unexp v m h =
    subst IsMarked (some-injective _ _ h) (release_unexp-IsMarked v m)
step-IsMarked (prepare_many nr) v m h =
    subst IsMarked (some-injective _ _ h) (prepare_events-IsMarked nr m)

-- Whatever calls follow the initialisation, as long as none prepares some 2 ^ 32 events at once,
-- each filled slot carries the id of its index, and no slot already carries the id that its next
-- filling will give it, also where the index wraps at 2 ^ 32.
pub run-IsMarked :
    (ep : Endpoint) {ep' : Endpoint} (cs : List Call)
    → AllSized cs
    → run (queues_init ep) cs ≡ some ep'
    → IsMarked ep'
run-IsMarked ep cs z h =
    (run_inv (λ ep₁. IsValid ep₁ × IsMarked ep₁)
      (λ ep₁ ep₂ c z₁ p e. (step-IsValid c z₁ p.0 e, step-IsMarked c p.0 p.1 e)) cs z
      (queues_init-IsValid ep, queues_init-IsMarked ep) h).1
