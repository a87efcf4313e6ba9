-- ===== src/Ack/Loop.antt =====
-- libxen2mx/omx_ack.c: the loop by which an ack takes requests off the queue.
use xen2mx.Base.{
  ℕ, suc, ◌≤◌, ◌<◌, ◌≡◌, refl, sym, ap, ◌∙◌, inl, inr, List, [], ◌∷◌, ◌++◌, Option, some,
  Option-cases, false, arith, NotIn, le→leb, gt→leb,
}
use native.Mathlib.Decide.{dec_le}
use xen2mx.Seqnum.{seqnum_distance}
use xen2mx.Ack.{
  Sender, success, mark_request_acked, ack_requests, handle_ack, handle_liback, find_nacked,
  handle_nack,
}
use xen2mx.Ack.Window.{
  index, IsOrdered, mark-total, mark-counters, mark-others, mark-acked, mark-kept, IsOrdered-kept,
  IsOrdered-NotIn,
}

-- None of these waits for its ack any more.
abbrev pub AllAcked : Sender → List ℕ → Type 0
AllAcked s [] = Unit {0}
AllAcked s (r ∷ rs) = ((s.requests r).need_ack ≡ false) × AllAcked s rs

-- The requests of the queue from `low` up to, not including, `n` are acked, in order, and those
-- from n on still wait.
pub record Acked (s : Sender) (n low high : ℕ) (queue : List ℕ) (out : Option Sender) : Type 0 where
  pub front : List ℕ
  pub back : List ℕ
  pub after : Sender
  pub result : out ≡ some after
  pub split : front ++ back ≡ queue
  pub acked : IsOrdered s low n front
  pub left : after.partner_non_acked ≡ back
  pub waiting : IsOrdered after n high back
  pub marked : AllAcked after front
  pub others : (j : ℕ) → NotIn j front → after.requests j ≡ s.requests j
  pub counters :
      (after.next_send_seq ≡ s.next_send_seq)
      × (after.next_acked_send_seq ≡ s.next_acked_send_seq)
      × (after.last_recv_acknum ≡ s.last_recv_acknum)

module _ (error_handler : ℕ → ℕ) where
  ack_requests-stop :
      (s : Sender) (n low high r : ℕ) (queue : List ℕ)
      → s.partner_non_acked ≡ r ∷ queue
      → IsOrdered s low high (r ∷ queue)
      → n ≤ index s r
      → Acked s n low high (r ∷ queue) (ack_requests error_handler s n (r ∷ queue))
  unfolding ack_requests IsOrdered
  ack_requests-stop s n low high r queue e (l, h, t, u, o) le = record {
    front = [];
    back = r ∷ queue;
    after = s;
    result = rw (le→leb n (index s r) le);
    split = refl;
    acked = tt;
    left = e;
    waiting = (le, h, t, u, o);
    marked = tt;
    others = λ j k. refl;
    counters = (refl, refl, refl);
  }

  ack_requests-go :
      (s s' : Sender) (n low high r : ℕ) (queue : List ℕ)
      → IsOrdered s low high (r ∷ queue)
      → index s r < n
      → mark_request_acked error_handler (record s { partner_non_acked = queue }) r success
        ≡ some s'
      → Acked s' n (suc (index s r)) high queue (ack_requests error_handler s' n queue)
      → Acked s n low high (r ∷ queue) (ack_requests error_handler s n (r ∷ queue))
  unfolding ack_requests IsOrdered
  ack_requests-go s s' n low high r queue (l, h, t, u, o) lt e rest =
      let s₀ : Sender = record s { partner_non_acked = queue } in
      let (c₁, c₂, c₃, c₄, c₅) = mark-counters error_handler s₀ s' r success e in
      let same : index s' r ≡ index s r =
        ap (λ i. seqnum_distance i s'.next_acked_send_seq)
          (mark-kept error_handler s₀ s' r success r e).0
        ∙ ap (seqnum_distance (s.requests r).send_seqnum) c₃ in
      let fresh : NotIn r rest.front =
        IsOrdered-NotIn s' r (suc (index s r)) n rest.front (omega arith) rest.acked in
      record {
        front = r ∷ rest.front;
        back = rest.back;
        after = rest.after;
        result = rw (gt→leb n (index s r) lt, e) rest.result;
        split = ap (◌∷◌ r) rest.split;
        acked = (
          l,
          lt,
          t,
          u,
          IsOrdered-kept s' s (suc (index s r)) n rest.front (sym c₃)
              (λ j. let k = mark-kept error_handler s₀ s' r success j e in (sym k.0, sym k.1))
              rest.acked,
        );
        left = rest.left;
        waiting = rest.waiting;
        marked = (
          ap (λ (q : xen2mx.Ack.Request). q.need_ack) (rest.others r fresh)
              ∙ mark-acked error_handler s₀ s' r success e,
          rest.marked,
        );
        others = λ j k.
            rest.others j k.1 ∙ mark-others error_handler s₀ s' r success j e (λ p. k.0 (sym p));
        counters = (rest.counters.0 ∙ c₂, rest.counters.1 ∙ c₃, rest.counters.2 ∙ c₄);
      }

  pub ack_requests-Acked :
      (s : Sender) (n low high : ℕ) (queue : List ℕ)
      → s.partner_non_acked ≡ queue
      → IsOrdered s low high queue
      → Acked s n low high queue (ack_requests error_handler s n queue)
  unfolding ack_requests IsOrdered
  ack_requests-Acked s n low high [] e o = record {
    front = [];
    back = [];
    after = s;
    result = refl;
    split = refl;
    acked = tt;
    left = e;
    waiting = tt;
    marked = tt;
    others = λ j k. refl;
    counters = (refl, refl, refl);
  }
  ack_requests-Acked s n low high (r ∷ queue) e o = elim (dec_le n (index s r)) [
    | yes stop ↦ ack_requests-stop s n low high r queue e o stop
    | no go ↦
        let s₀ : Sender = record s { partner_non_acked = queue } in
        elim (Option-cases (mark_request_acked error_handler s₀ r success)) [
          | inl never ↦ absurd (mark-total error_handler s₀ r success o.2 never)
          | inr (s', m) ↦
              let c = mark-counters error_handler s₀ s' r success m in
              ack_requests-go s s' n low high r queue o (omega arith) m (
                ack_requests-Acked s' n (suc (index s r)) high queue c.0 (
                  IsOrdered-kept s₀ s' (suc (index s r)) high queue c.2
                    (λ j. mark-kept error_handler s₀ s' r success j m)
                    (IsOrdered-kept s s₀ (suc (index s r)) high queue refl (λ j. (refl, refl))
                      o.4)))
        ]
  ]
