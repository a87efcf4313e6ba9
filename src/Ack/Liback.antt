-- ===== src/Ack/Liback.antt =====
-- libxen2mx/omx_ack.c: explicit acks carry a number of their own, by which duplicates are told.
use xen2mx.Base.{
  Bool-cases, ℕ, ◌≤◌, ◌<◌, ◌≡◌, refl, sym, ap, ◌∙◌, subst, inl, inr, some, arith, le→leb, gt→leb,
  some-injective,
}
use native.Mathlib.Decide.{dec_le}
use xen2mx.Seqnum.{same_session, seqnum_distance, u16_mod}
use xen2mx.Ack.{Sender, handle_ack, handle_liback}
use xen2mx.Ack.Window.{IsWindow, IsOrdered-kept}
use xen2mx.Ack.Laws.{handle_ack_lem}

module _ (error_handler : ℕ → ℕ) where
  handle_ack-acknum :
      (s s' : Sender) (ack_before n : ℕ)
      → IsWindow s
      → ack_before < u16_mod
      → handle_ack error_handler s ack_before ≡ some (s', n)
      → s'.last_recv_acknum ≡ s.last_recv_acknum
  handle_ack-acknum s s' ack_before n w h e = elim (handle_ack_lem error_handler s ack_before w h) [
    | inl (old, same) ↦
        ap (λ (t : Sender × ℕ). t.0.last_recv_acknum) (sym (some-injective _ _ (sym same ∙ e)))
    | inr (pos, le, a) ↦
        ap (λ (t : Sender × ℕ). t.0.last_recv_acknum) (sym (some-injective _ _ (sym a.result ∙ e)))
        ∙ a.acknum
  ]

  liback-obsolete :
      (s : Sender) (ack acknum : ℕ)
      → acknum ≤ s.last_recv_acknum
      → handle_liback error_handler s ack acknum ≡ some (s, 0)
  unfolding handle_liback
  liback-obsolete s ack acknum le = elim (Bool-cases (same_session ack s.next_send_seq)) [
    | inl same ↦ rw (same, le→leb acknum s.last_recv_acknum le)
    | inr other ↦ rw other
  ]

  liback-same :
      (s s' : Sender) (ack acknum n : ℕ)
      → handle_liback error_handler s ack acknum ≡ some (s, 0)
      → handle_liback error_handler s ack acknum ≡ some (s', n)
      → handle_liback error_handler s' ack acknum ≡ some (s', 0)
  liback-same s s' ack acknum n e h =
      subst (λ t. handle_liback error_handler t ack acknum ≡ some (t, 0))
        (ap (λ (t : Sender × ℕ). t.0) (some-injective _ _ (sym e ∙ h))) e

  -- With the waiting requests in order, a duplicate of an explicit ack changes nothing and sets
  -- nothing free.
  pub handle_liback-again :
      (s s' : Sender) (ack acknum n : ℕ)
      → IsWindow s
      → ack < u16_mod
      → handle_liback error_handler s ack acknum ≡ some (s', n)
      → handle_liback error_handler s' ack acknum ≡ some (s', 0)
  handle_liback-again s s' ack acknum n w h e = elim (dec_le acknum s.last_recv_acknum) [
    | yes old ↦ liback-same s s' ack acknum n (liback-obsolete s ack acknum old) e
    | no new ↦ elim (Bool-cases (same_session ack s.next_send_seq)) [
      | inr other ↦ liback-same s s' ack acknum n (unfold handle_liback in rw other) e
      | inl same ↦
          let s₁ : Sender = record s { last_recv_acknum = acknum } in
          let passed : handle_liback error_handler s ack acknum ≡ handle_ack error_handler s₁ ack =
            unfold handle_liback in rw (same, gt→leb acknum s.last_recv_acknum (omega arith)) in
          let w₁ : IsWindow s₁ = record {
            next_u16 = w.next_u16;
            acked_u16 = w.acked_u16;
            ordered =
                IsOrdered-kept s s₁ 0 (seqnum_distance s.next_send_seq s.next_acked_send_seq)
                  s.partner_non_acked refl (λ j. (refl, refl)) w.ordered;
          } in
          let kept : s'.last_recv_acknum ≡ acknum =
            handle_ack-acknum s₁ s' ack n w₁ h (sym passed ∙ e) in
          liback-obsolete s' ack acknum (omega (arith, kept))
    ]
  ]
