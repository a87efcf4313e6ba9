-- ===== src/ToAck/Kept.antt =====
-- libxen2mx/omx_lib.h and omx_ack.c: every operation keeps the marks and the lists in agreement.
use xen2mx.Base.{
  ℕ, add32, ◌≡◌, ◌≢◌, refl, List, [], ◌∷◌, ◌⊎◌, inl, inr, Bool, true, false, Bool-cases, ◌==◌,
}
use xen2mx.ToAck.{
  NeedAck, no_ack, delayed, immediate, Partner, Acking, set_partner, mark_delayed, mark_immediate,
  mark_ack_sent, submit_liback, outcome, later, ack_immediate, is_recent, ack_delayed,
  process_partners_to_ack, flush,
}
use xen2mx.ToAck.Listed.{IsListed, Lists-other, Lists-add, Lists-push, Lists-remove, Lists-same}

NeedAck-cases : (m : NeedAck) → (m ≡ no_ack) ⊎ ((m ≡ delayed) ⊎ (m ≡ immediate))
NeedAck-cases no_ack = inl refl
NeedAck-cases delayed = inr (inl refl)
NeedAck-cases immediate = inr (inr refl)

module _ (m : NeedAck) where
  from_no_ack : m ≡ no_ack → (m ≢ delayed) × (m ≢ immediate)
  from_no_ack e = (λ h. cc, λ h. cc)

  from_delayed : m ≡ delayed → (m ≢ no_ack) × (m ≢ immediate)
  from_delayed e = (λ h. cc, λ h. cc)

  from_immediate : m ≡ immediate → (m ≢ no_ack) × (m ≢ delayed)
  from_immediate e = (λ h. cc, λ h. cc)

mark_delayed-IsListed : (a : Acking) (now p : ℕ) → IsListed a → IsListed (mark_delayed a now p)
unfolding mark_delayed
mark_delayed-IsListed a now p l =
    let v : Partner = record (a.partners p) {
      need_ack = delayed;
      oldest_recv_time_not_acked = now;
    } in
    elim (NeedAck-cases (a.partners p).need_ack) [
      | inl e ↦
          rw (e, mark_delayed)
            (record {
              of_delayed =
                  Lists-add a.partners delayed a.delayed_list p v l.of_delayed
                    (from_no_ack (a.partners p).need_ack e).0 refl;
              of_immediate =
                  Lists-other a.partners immediate a.immediate_list p v l.of_immediate
                    (from_no_ack (a.partners p).need_ack e).1 (from_delayed delayed refl).1;
            })
      | inr (inl e) ↦ rw (e, mark_delayed) l
      | inr (inr e) ↦ rw (e, mark_delayed) l
    ]

mark_immediate-IsListed : (a : Acking) (p : ℕ) → IsListed a → IsListed (mark_immediate a p)
unfolding mark_immediate
mark_immediate-IsListed a p l =
    let v : Partner = record (a.partners p) { need_ack = immediate } in
    elim (NeedAck-cases (a.partners p).need_ack) [
      | inl e ↦
          rw (e, mark_immediate)
            (record {
              of_delayed =
                  Lists-other a.partners delayed a.delayed_list p v l.of_delayed
                    (from_no_ack (a.partners p).need_ack e).0 (from_immediate immediate refl).1;
              of_immediate =
                  Lists-add a.partners immediate a.immediate_list p v l.of_immediate
                    (from_no_ack (a.partners p).need_ack e).1 refl;
            })
      | inr (inl e) ↦
          rw (e, mark_immediate)
            (record {
              of_delayed =
                  Lists-remove a.partners delayed a.delayed_list p v l.of_delayed
                    (from_immediate immediate refl).1;
              of_immediate =
                  Lists-push a.partners immediate a.immediate_list p v l.of_immediate
                    (from_delayed (a.partners p).need_ack e).1 refl;
            })
      | inr (inr e) ↦ rw (e, mark_immediate) l
    ]

mark_ack_sent-IsListed : (a : Acking) (p : ℕ) → IsListed a → IsListed (mark_ack_sent a p)
unfolding mark_ack_sent
mark_ack_sent-IsListed a p l =
    let v : Partner = record (a.partners p) {
      need_ack = no_ack;
      last_acked_recv_seq = (a.partners p).next_frag_recv_seq;
    } in
    elim (NeedAck-cases (a.partners p).need_ack) [
      | inl e ↦
          rw (e, mark_ack_sent)
            (record {
              of_delayed =
                  Lists-other a.partners delayed a.delayed_list p v l.of_delayed
                    (from_no_ack (a.partners p).need_ack e).0 (from_no_ack no_ack refl).0;
              of_immediate =
                  Lists-other a.partners immediate a.immediate_list p v l.of_immediate
                    (from_no_ack (a.partners p).need_ack e).1 (from_no_ack no_ack refl).1;
            })
      | inr (inl e) ↦
          rw (e, mark_ack_sent)
            (record {
              of_delayed =
                  Lists-remove a.partners delayed a.delayed_list p v l.of_delayed
                    (from_no_ack no_ack refl).0;
              of_immediate =
                  Lists-other a.partners immediate a.immediate_list p v l.of_immediate
                    (from_delayed (a.partners p).need_ack e).1 (from_no_ack no_ack refl).1;
            })
      | inr (inr e) ↦
          rw (e, mark_ack_sent)
            (record {
              of_delayed =
                  Lists-other a.partners delayed a.delayed_list p v l.of_delayed
                    (from_immediate (a.partners p).need_ack e).1 (from_no_ack no_ack refl).0;
              of_immediate =
                  Lists-remove a.partners immediate a.immediate_list p v l.of_immediate
                    (from_no_ack no_ack refl).1;
            })
    ]

submit-IsListed : (a : Acking) (p : ℕ) (ok : Bool) → IsListed a → IsListed (submit_liback a p ok)
unfolding submit_liback
submit-IsListed a p ok l =
    let v : Partner = record (a.partners p) {
      last_send_acknum = add32 (a.partners p).last_send_acknum 1;
    } in
    let kept : IsListed (set_partner a p v) = record {
      of_delayed = Lists-same a.partners delayed a.delayed_list p v l.of_delayed refl;
      of_immediate = Lists-same a.partners immediate a.immediate_list p v l.of_immediate refl;
    } in
    elim ok as (λ k. IsListed (submit_liback a p k)) [
      | true ↦ record { of_delayed = kept.of_delayed; of_immediate = kept.of_immediate }
      | false ↦ record { of_delayed = kept.of_delayed; of_immediate = kept.of_immediate }
    ]

acked-IsListed :
    (a : Acking) (p : ℕ) → IsListed a → IsListed (mark_ack_sent (submit_liback a p true) p)
acked-IsListed a p l = mark_ack_sent-IsListed _ p (submit-IsListed a p true l)

ack_immediate-IsListed :
    (a : Acking) (ps : List ℕ) (oks : List Bool) → IsListed a → IsListed (ack_immediate a ps oks).0
unfolding ack_immediate
ack_immediate-IsListed a [] oks l = l
ack_immediate-IsListed a (p ∷ ps) oks l = elim (Bool-cases (outcome oks)) [
  | inl ok ↦ rw ok (
      ack_immediate-IsListed (mark_ack_sent (submit_liback a p true) p) ps (later oks)
        (acked-IsListed a p l))
  | inr failed ↦ rw failed (submit-IsListed a p false l)
]

ack_delayed-IsListed :
    (now delay : ℕ) (a : Acking) (ps : List ℕ) (oks : List Bool)
    → IsListed a
    → IsListed (ack_delayed now delay a ps oks)
unfolding ack_delayed
ack_delayed-IsListed now delay a [] oks l = l
ack_delayed-IsListed now delay a (p ∷ ps) oks l =
    elim (Bool-cases (is_recent now delay (a.partners p))) [
      | inl recent ↦ rw recent l
      | inr old ↦ elim (Bool-cases (outcome oks)) [
        | inl ok ↦
            rw (old, ok)
              (ack_delayed-IsListed now delay (mark_ack_sent (submit_liback a p true) p) ps
                (later oks) (acked-IsListed a p l))
        | inr failed ↦ rw (old, failed) (submit-IsListed a p false l)
      ]
    ]

flush-IsListed :
    (a : Acking) (ps : List ℕ) (oks : List Bool) → IsListed a → IsListed (flush a ps oks)
unfolding flush
flush-IsListed a [] oks l = l
flush-IsListed a (p ∷ ps) oks l = elim (Bool-cases (outcome oks)) [
  | inl ok ↦ rw ok (
      flush-IsListed (mark_ack_sent (submit_liback a p true) p) ps (later oks)
        (acked-IsListed a p l))
  | inr failed ↦
      rw failed
        (flush-IsListed (submit_liback a p false) ps (later oks) (submit-IsListed a p false l))
]

-- What the library does to the marks and lists.
pub data AckCall : Type 0 where
  -- a partner needs an ack soon, from this time on
  ask_delayed : ℕ → ℕ → AckCall
  ask_immediate : ℕ → AckCall
  -- an ack has gone to a partner with a message
  piggyback : ℕ → AckCall
  -- the pass at this time, with this delay and these outcomes of the ioctl
  process : ℕ → ℕ → List Bool → AckCall
  flush_all : List Bool → AckCall

unfoldable pub ack_step : Acking → AckCall → Acking
ack_step a (ask_delayed now p) = mark_delayed a now p
ack_step a (ask_immediate p) = mark_immediate a p
ack_step a (piggyback p) = mark_ack_sent a p
ack_step a (process now delay oks) = process_partners_to_ack now delay a oks
ack_step a (flush_all oks) = flush a a.delayed_list oks

unfoldable pub ack_run : Acking → List AckCall → Acking
unfolding ack_step
ack_run a [] = a
ack_run a (c ∷ cs) = ack_run (ack_step a c) cs

process-IsListed :
    (now delay : ℕ) (a : Acking) (oks : List Bool)
    → IsListed a
    → IsListed (process_partners_to_ack now delay a oks)
unfolding process_partners_to_ack
process-IsListed now delay a oks l =
    let first : Acking × List Bool = ack_immediate a a.immediate_list oks in
    let l₁ : IsListed first.0 = ack_immediate-IsListed a a.immediate_list oks l in
    elim (Bool-cases (now == first.0.last_partners_acking_jiffies)) [
      | inl again ↦ rw again l₁
      | inr later_time ↦ rw later_time (
          ack_delayed-IsListed now delay (record first.0 { last_partners_acking_jiffies = now })
            first.0.delayed_list first.1
            (record { of_delayed = l₁.of_delayed; of_immediate = l₁.of_immediate }))
    ]

ack_step-IsListed : (a : Acking) (c : AckCall) → IsListed a → IsListed (ack_step a c)
unfolding ack_step
ack_step-IsListed a (ask_delayed now p) l = mark_delayed-IsListed a now p l
ack_step-IsListed a (ask_immediate p) l = mark_immediate-IsListed a p l
ack_step-IsListed a (piggyback p) l = mark_ack_sent-IsListed a p l
ack_step-IsListed a (process now delay oks) l = process-IsListed now delay a oks l
ack_step-IsListed a (flush_all oks) l = flush-IsListed a a.delayed_list oks l

-- Whatever is asked for and whichever sends of acks fail, each list keeps holding exactly the
-- partners with its mark, each once.
pub ack_run-IsListed : (a : Acking) (cs : List AckCall) → IsListed a → IsListed (ack_run a cs)
unfolding ack_run
ack_run-IsListed a [] l = l
ack_run-IsListed a (c ∷ cs) l = ack_run-IsListed (ack_step a c) cs (ack_step-IsListed a c l)
