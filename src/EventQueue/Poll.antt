-- ===== src/EventQueue/Poll.antt =====
-- libxen2mx/omx_lib.c, omx__progress: how the library takes the unexpected events out of the shared
-- queue. Processing an event is seen as appending its slot to a list, in order; the release call
-- of the driver is that of driver/linux/omx_event.c.
use xen2mx.Base.{
  ℕ, zero, suc, ◌%◌, ◌≤◌, ◌<◌, ◌≡◌, ◌≢◌, refl, sym, ap, ap₂, ◌∙◌, List, [], ◌∷◌, ◌++◌, true, false,
  arith, u32_mod, add32, sub32, ◌==◌, eq→==, ne→==, le→ltb, ==→eq, ==→ne, subst, Bool-cases, inl,
  inr, append_assoc, append-nil,
}
use native.Mathlib.Decide.{dec_lt}
use xen2mx.EventQueue.{
  Endpoint, Slot, Status, ok, entry_nr, event_id, release_batch_nr, release_unexp_slots,
}
use xen2mx.EventQueue.Invariant.{IsValid, release_unexp-IsValid}
use xen2mx.EventQueue.Window.{window}
use xen2mx.EventQueue.Marks.{IsMarked, release_unexp-IsMarked}

-- The outcome of the loop: the driver's state, the next index to look at, and the events seen.
pub data Polled : Type 0 where
  polled : Endpoint → ℕ → List Slot → Polled
  aborted : Polled
  out_of_fuel : Polled

-- while (1) over ep->unexp_eventq from `index` on; a failed release is omx__abort.
pub poll_unexp : ℕ → Endpoint → ℕ → List Slot → Polled
poll_unexp zero ep index seen = out_of_fuel
poll_unexp (suc fuel) ep index seen =
    let evt = ep.unexp_eventq (index % entry_nr) in
    let next = add32 index 1 in
    elim (evt.id == event_id index) [
      | false ↦ polled ep index seen
      | true ↦ elim (next % release_batch_nr == 0) [
        | false ↦ poll_unexp fuel ep next (seen ++ (evt ∷ []))
        | true ↦ elim ((release_unexp_slots ep).0) [
          | ok ↦ poll_unexp fuel (release_unexp_slots ep).1 next (seen ++ (evt ∷ []))
          | _ ↦ aborted
        ]
      ]
    ]

-- The library's index lies among the waiting events, less than a batch behind the released slots.
pub record IsReading (ep : Endpoint) (index : ℕ) : Type 0 where
  pub valid : IsValid ep
  pub marked : IsMarked ep
  pub index_u32 : index < u32_mod
  pub batch : ep.nextreleased_unexp % release_batch_nr ≡ 0
  pub behind : sub32 index ep.nextreleased_unexp < release_batch_nr
  pub ahead : sub32 index ep.nextreleased_unexp ≤ sub32 ep.nextreserved_unexp ep.nextreleased_unexp

-- The events that wait and that the library has not seen.
abbrev pub unseen : Endpoint → ℕ → List Slot
unseen ep index = window ep.unexp_eventq index (sub32 ep.nextreserved_unexp index)

-- The id test tells whether there is an unseen event.
new_event :
    (ep : Endpoint) (index : ℕ)
    → IsReading ep index
    → 0 < sub32 ep.nextreserved_unexp index
    → (ep.unexp_eventq (index % entry_nr)).id ≡ event_id index
new_event ep index r h =
    let j = sub32 index ep.nextreleased_unexp in
    let e : add32 ep.nextreleased_unexp j ≡ index =
      omega (arith, r.valid.released_unexp, r.index_u32) in
    rw e at (r.marked.unexp.filled j (omega arith))

no_event :
    (ep : Endpoint) (index : ℕ)
    → IsReading ep index
    → sub32 ep.nextreserved_unexp index ≡ 0
    → (ep.unexp_eventq (index % entry_nr)).id ≢ event_id index
no_event ep index r h =
    let e : add32 ep.nextreserved_unexp 0 ≡ index =
      omega (arith, r.valid.reserved_unexp, r.index_u32) in
    rw e at (r.marked.unexp.stale 0 (omega arith))

-- The endpoint after a successful release.
abbrev released : Endpoint → Endpoint
released ep = record ep { nextreleased_unexp = add32 ep.nextreleased_unexp release_batch_nr }

module _ (ep : Endpoint) (index : ℕ) (r : IsReading ep index)
    (more : 0 < sub32 ep.nextreserved_unexp index) where
  IsReading-next : add32 index 1 % release_batch_nr ≢ 0 → IsReading ep (add32 index 1)
  IsReading-next h = record {
    valid = r.valid;
    marked = r.marked;
    index_u32 = omega arith;
    batch = r.batch;
    behind = omega arith;
    ahead = omega arith;
  }

  -- At a batch boundary at least 256 events have been filled, so the release succeeds.
  release-ok : add32 index 1 % release_batch_nr ≡ 0 → release_unexp_slots ep ≡ (ok, released ep)
  unfolding release_unexp_slots
  release-ok h =
      rw (le→ltb (sub32 ep.nextreserved_unexp ep.nextreleased_unexp) release_batch_nr (omega arith))

  IsReading-released :
      add32 index 1 % release_batch_nr ≡ 0 → IsReading (released ep) (add32 index 1)
  IsReading-released h =
      let e : (release_unexp_slots ep).1 ≡ released ep =
        ap (λ (t : Status × Endpoint). t.1) (release-ok h) in
      record {
        valid = subst IsValid e (release_unexp-IsValid r.valid);
        marked = subst IsMarked e (release_unexp-IsMarked r.valid r.marked);
        index_u32 = omega arith;
        batch = omega arith;
        behind = omega arith;
        ahead = omega arith;
      }

  -- The unseen events are the one at the index and those behind it.
  unseen-next : unseen ep index ≡ ep.unexp_eventq (index % entry_nr) ∷ unseen ep (add32 index 1)
  unseen-next =
      ap (window ep.unexp_eventq index) {y = suc (sub32 ep.nextreserved_unexp (add32 index 1))}
        (omega arith)

-- What the loop has done when it stops, started at `index` with `seen` processed.
pub record Drained (ep : Endpoint) (index : ℕ) (seen : List Slot) (out : Polled) : Type 0 where
  pub final : Endpoint
  pub result : out ≡ polled final ep.nextreserved_unexp (seen ++ unseen ep index)
  pub reading : IsReading final ep.nextreserved_unexp
  pub reserved : final.nextreserved_unexp ≡ ep.nextreserved_unexp
  pub free : final.nextfree_unexp ≡ ep.nextfree_unexp

-- One round of the loop; a release changes only the released index.
Drained-cons :
    (ep : Endpoint) (n index : ℕ) (seen : List Slot) (out : Polled)
    → IsReading ep index
    → 0 < sub32 ep.nextreserved_unexp index
    → Drained
        (record ep { nextreleased_unexp = n })
        (add32 index 1)
        (seen ++ (ep.unexp_eventq (index % entry_nr) ∷ []))
        out
    → Drained ep index seen out
Drained-cons ep n index seen out r more d = record {
  final = d.final;
  result =
      d.result
      ∙ ap (polled d.final ep.nextreserved_unexp) (
          append_assoc seen (ep.unexp_eventq (index % entry_nr) ∷ []) _
          ∙ ap (◌++◌ seen) (sym (unseen-next ep index r more)));
  reading = d.reading;
  reserved = d.reserved;
  free = d.free;
}

-- If the library's index lies among the waiting events, less than a batch behind the released
-- slots, the loop stops where the driver will write next: with more fuel than unseen events it
-- neither aborts nor runs out, processes exactly the unseen events, each once and oldest first,
-- and leaves the reservations of the driver alone.
pub poll_unexp-Drained :
    (fuel : ℕ) (ep : Endpoint) (index : ℕ) (seen : List Slot)
    → IsReading ep index
    → sub32 ep.nextreserved_unexp index < fuel
    → Drained ep index seen (poll_unexp fuel ep index seen)
unfolding poll_unexp
poll_unexp-Drained zero ep index seen r h = absurd (omega arith)
poll_unexp-Drained (suc fuel) ep index seen r h =
    elim (dec_lt 0 (sub32 ep.nextreserved_unexp index)) [
      | yes more ↦
          rw (eq→== _ _ (new_event ep index r more), poll_unexp)
            (elim (Bool-cases (add32 index 1 % release_batch_nr == 0)) [
              | inl boundary ↦
                  rw (boundary, release-ok ep index r more (==→eq _ _ boundary), poll_unexp)
                    (rw (release-ok ep index r more (==→eq _ _ boundary)) (
                      Drained-cons ep _ index seen _ r more (
                        poll_unexp-Drained fuel (released ep) (add32 index 1) _
                          (IsReading-released ep index r more (==→eq _ _ boundary)) (omega arith))))
              | inr inside ↦
                  rw (inside, poll_unexp)
                    (Drained-cons ep ep.nextreleased_unexp index seen _ r more (
                      poll_unexp-Drained fuel ep (add32 index 1) _
                        (IsReading-next ep index r more (==→ne _ _ inside)) (omega arith)))
            ])
      | no none_left ↦
          let e : index ≡ ep.nextreserved_unexp = omega arith in
          rw (ne→== _ _ (no_event ep index r (omega arith)), poll_unexp)
            (record {
              final = ep;
              result = ap₂ (polled ep) e (
                  sym (append-nil seen)
                  ∙ ap (λ n. seen ++ window ep.unexp_eventq index n) {x = 0} (omega arith));
              reading = subst (IsReading ep) e r;
              reserved = refl;
              free = refl;
            })
    ]
