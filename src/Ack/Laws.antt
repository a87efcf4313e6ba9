-- ===== src/Ack/Laws.antt =====
-- libxen2mx/omx_ack.c: an ack takes off exactly the requests before it.
use xen2mx.Base.{
  ℕ, ◌-◌, ◌≤◌, ◌<◌, ◌≡◌, refl, sym, ap, ◌∙◌, subst, ◌⊎◌, inl, inr, List, ◌++◌, Option, some, arith,
  NotIn, ne→==, le→ltb, lt→ltb, eq→==, some-injective,
}
use native.Mathlib.Decide.{dec_le, dec_lt}
use xen2mx.Seqnum.{seqnum_distance, u16_mod}
use xen2mx.Seqnum.Laws.{seqnum_distance-shift}
use xen2mx.Ack.{Sender, ack_requests, handle_ack}
use xen2mx.Ack.Window.{IsOrdered, IsWindow, IsOrdered-shift}
use xen2mx.Ack.Loop.{AllAcked, Acked, ack_requests-Acked}

module _ (error_handler : ℕ → ℕ) where
  ordered-moved :
      (after : Sender) (to from next : ℕ) (back : List ℕ)
      → after.next_acked_send_seq ≡ from
      → after.next_send_seq ≡ next
      → after.partner_non_acked ≡ back
      → from < u16_mod
      → next < u16_mod
      → to < u16_mod
      → seqnum_distance to from ≤ seqnum_distance next from
      → IsOrdered after (seqnum_distance to from) (seqnum_distance next from) back
      → IsOrdered
          (record after { next_acked_send_seq = to })
          0
          (seqnum_distance after.next_send_seq to)
          after.partner_non_acked
  ordered-moved after to from next back e₁ e₂ e₃ h₁ h₂ h₃ le o =
      let o₁ : IsOrdered after (seqnum_distance to from) (seqnum_distance next from)
          after.partner_non_acked =
        subst (IsOrdered after (seqnum_distance to from) (seqnum_distance next from)) (sym e₃) o in
      let near : seqnum_distance to after.next_acked_send_seq ≡ seqnum_distance to from =
        ap (seqnum_distance to) e₁ in
      let moved : seqnum_distance next to ≡ seqnum_distance next from - seqnum_distance to from =
        seqnum_distance-shift next from to h₂ h₁ h₃ le in
      let shifted =
        IsOrdered-shift after to (seqnum_distance to from) (seqnum_distance next from)
          after.partner_non_acked (subst (λ i. i < u16_mod) (sym e₁) h₁) h₃ (omega (arith, near))
          o₁ in
      subst
        (λ low.
          IsOrdered (record after { next_acked_send_seq = to }) low
            (seqnum_distance after.next_send_seq to) after.partner_non_acked)
        {x = seqnum_distance to from - seqnum_distance to after.next_acked_send_seq}
        (omega (arith, near))
        (subst
          (λ high.
            IsOrdered (record after { next_acked_send_seq = to })
              (seqnum_distance to from - seqnum_distance to after.next_acked_send_seq) high
              after.partner_non_acked)
          (ap (λ i. seqnum_distance next from - i) near
            ∙ sym moved
            ∙ ap (λ i. seqnum_distance i to) (sym e₂))
          shifted)

  -- The state after an ack that sets `n` sequence numbers free.
  pub record Handled (s : Sender) (ack_before : ℕ) (out : Option (Sender × ℕ)) : Type 0 where
    pub front : List ℕ
    pub back : List ℕ
    pub after : Sender
    pub result : out ≡ some (after, seqnum_distance ack_before s.next_acked_send_seq)
    pub split : front ++ back ≡ s.partner_non_acked
    pub acked : IsOrdered s 0 (seqnum_distance ack_before s.next_acked_send_seq) front
    pub left : after.partner_non_acked ≡ back
    pub moved : after.next_acked_send_seq ≡ ack_before
    pub marked : AllAcked after front
    pub others : (j : ℕ) → NotIn j front → after.requests j ≡ s.requests j
    pub acknum : after.last_recv_acknum ≡ s.last_recv_acknum
    pub window : IsWindow after

  handle_ack-new :
      (s : Sender) (ack_before : ℕ)
      → IsWindow s
      → ack_before < u16_mod
      → 0 < seqnum_distance ack_before s.next_acked_send_seq
      → seqnum_distance ack_before s.next_acked_send_seq
        ≤ seqnum_distance s.next_send_seq s.next_acked_send_seq
      → Handled s ack_before (handle_ack error_handler s ack_before)
  unfolding handle_ack
  handle_ack-new s ack_before w h pos le =
      let new : ℕ = seqnum_distance ack_before s.next_acked_send_seq in
      let missing : ℕ = seqnum_distance s.next_send_seq s.next_acked_send_seq in
      let a : Acked s new 0 missing s.partner_non_acked
          (ack_requests error_handler s new s.partner_non_acked) =
        ack_requests-Acked error_handler s new 0 missing s.partner_non_acked refl w.ordered in
      let c = a.counters in
      let end : Sender = record a.after { next_acked_send_seq = ack_before } in
      record {
        front = a.front;
        back = a.back;
        after = end;
        result = rw (ne→== new 0 (omega arith), le→ltb missing new le, a.result);
        split = a.split;
        acked = a.acked;
        left = a.left;
        moved = refl;
        marked = a.marked;
        others = a.others;
        acknum = c.2;
        window = record {
          next_u16 = subst (λ n. n < u16_mod) (sym c.0) w.next_u16;
          acked_u16 = h;
          ordered =
              ordered-moved a.after ack_before s.next_acked_send_seq s.next_send_seq a.back c.1 c.0
                a.left w.acked_u16 w.next_u16 h le a.waiting;
        };
      }

  -- With the waiting requests in order, an ack that sets no sequence number free, or more than are
  -- missing, changes nothing. Any other acks exactly the requests of the sequence numbers before
  -- it, also across a wrap-around: they leave the queue and no longer wait for an ack, the others
  -- stay in it unchanged and in order, and the first sequence number that is not acked is that of
  -- the ack.
  pub handle_ack_lem :
      (s : Sender) (ack_before : ℕ)
      → IsWindow s
      → ack_before < u16_mod
      → let new_acks = seqnum_distance ack_before s.next_acked_send_seq in
        let missing_acks = seqnum_distance s.next_send_seq s.next_acked_send_seq in
        (((new_acks ≡ 0) ⊎ (missing_acks < new_acks))
          × (handle_ack error_handler s ack_before ≡ some (s, 0)))
        ⊎ ((0 < new_acks)
            × (new_acks ≤ missing_acks)
            × Handled s ack_before (handle_ack error_handler s ack_before))
  handle_ack_lem s ack_before w h =
      let new : ℕ = seqnum_distance ack_before s.next_acked_send_seq in
      let missing : ℕ = seqnum_distance s.next_send_seq s.next_acked_send_seq in
      elim (dec_lt 0 new) [
        | yes pos ↦ elim (dec_le new missing) [
          | yes le ↦ inr (pos, le, handle_ack-new s ack_before w h pos le)
          | no more ↦ inl (
            inr (omega arith),
            unfold handle_ack in rw (ne→== new 0 (omega arith), lt→ltb missing new (omega arith)),
          )
        ]
        | no none_new ↦ inl (inl (omega arith), unfold handle_ack in rw (eq→== new 0 (omega arith)))
      ]

  -- With the waiting requests in order, the same ack once more changes nothing, and sets nothing
  -- free.
  pub handle_ack-again :
      (s s' : Sender) (ack_before n : ℕ)
      → IsWindow s
      → ack_before < u16_mod
      → handle_ack error_handler s ack_before ≡ some (s', n)
      → handle_ack error_handler s' ack_before ≡ some (s', 0)
  handle_ack-again s s' ack_before n w h e = elim (handle_ack_lem s ack_before w h) [
    | inl (old, same) ↦
        let p : s ≡ s' = ap (λ (t : Sender × ℕ). t.0) (some-injective _ _ (sym same ∙ e)) in
        subst (λ t. handle_ack error_handler t ack_before ≡ some (t, 0)) p same
    | inr (pos, le, a) ↦
        let p : a.after ≡ s' =
          ap (λ (t : Sender × ℕ). t.0) (some-injective _ _ (sym a.result ∙ e)) in
        let q : s'.next_acked_send_seq ≡ ack_before =
          subst (λ (t : Sender). t.next_acked_send_seq ≡ ack_before) p a.moved in
        unfold handle_ack in
        rw (eq→== (seqnum_distance ack_before s'.next_acked_send_seq) 0 (omega (arith, q)))
  ]
