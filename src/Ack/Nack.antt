-- ===== src/Ack/Nack.antt =====
-- libxen2mx/omx_ack.c: a nack ends the one request that it names, or the oldest connect request.
use xen2mx.Base.{
  Bool-cases, ℕ, suc, ◌<◌, ◌≡◌, ◌≢◌, refl, ap, ◌∙◌, ◌⊎◌, inl, inr, List, [], ◌∷◌, ◌++◌, Option,
  none, some, Option-cases, true, false, arith, lt→ltb, le→ltb, ne→==, eq→==, update_self,
  update_ne,
}
use native.Mathlib.Decide.{dec_le, dec_lt}
use xen2mx.Seqnum.{seqnum_distance, same_session}
use xen2mx.Ack.{
  Sender, dequeue, mark_request_acked, find_nacked, nack_connect, handle_nack, Request,
}
use xen2mx.Ack.Window.{
  ackable, index, IsOrdered, IsWindow, mark-total, mark-counters, mark-others, mark-acked, IsMarked,
  mark-IsMarked, ended, sending, replying,
}

-- None of these has index i.
abbrev pub NoneAt : Sender → ℕ → List ℕ → Type 0
NoneAt s i [] = Unit {0}
NoneAt s i (r ∷ rs) = (index s r ≢ i) × NoneAt s i rs

NoneAt-ordered :
    (s : Sender) (i low high : ℕ) (rs : List ℕ) → i < low → IsOrdered s low high rs → NoneAt s i rs
unfolding IsOrdered
NoneAt-ordered s i low high [] h o = tt
NoneAt-ordered s i low high (r ∷ rs) h (l, k, t, u, o) =
    (omega arith, NoneAt-ordered s i (suc (index s r)) high rs (omega arith) o)

-- The request of index i in the queue, and the queue without it.
pub record FoundAt (s : Sender) (i : ℕ) (queue : List ℕ) (out : Option ℕ) : Type 0 where
  pub request : ℕ
  pub front : List ℕ
  pub back : List ℕ
  pub result : out ≡ some request
  pub at : index s request ≡ i
  pub split : front ++ (request ∷ back) ≡ queue
  pub removed : dequeue request queue ≡ front ++ back
  pub can_ack : ackable (s.requests request).type ≡ true

module _ (error_handler : ℕ → ℕ) where
  find_nacked_lem :
      (s : Sender) (i low high : ℕ) (queue : List ℕ)
      → IsOrdered s low high queue
      → (NoneAt s i queue × (find_nacked error_handler s i queue ≡ none))
        ⊎ FoundAt s i queue (find_nacked error_handler s i queue)
  unfolding find_nacked IsOrdered
  find_nacked_lem s i low high [] o = inl (tt, refl)
  find_nacked_lem s i low high (r ∷ rs) (l, k, t, u, o) = elim (dec_lt i (index s r)) [
    | yes behind ↦
        rw (lt→ltb i (index s r) behind)
          (inl ((omega arith, NoneAt-ordered s i (suc (index s r)) high rs (omega arith) o), refl))
    | no reached ↦ elim (dec_le i (index s r)) [
      | yes here ↦
          rw (le→ltb i (index s r) (omega arith), eq→== i (index s r) (omega arith))
            (inr (record {
              request = r;
              front = [];
              back = rs;
              result = refl;
              at = omega arith;
              split = refl;
              removed = rw (eq→== r r refl);
              can_ack = t;
            }))
      | no ahead ↦
          rw (le→ltb i (index s r) (omega arith), ne→== i (index s r) (omega arith))
            (elim (find_nacked_lem s i (suc (index s r)) high rs o) [
              | inl (others, e) ↦ inl ((omega arith, others), e)
              | inr f ↦ inr (record {
                request = f.request;
                front = r ∷ f.front;
                back = f.back;
                result = f.result;
                at = f.at;
                split = ap (◌∷◌ r) f.split;
                removed =
                    rw (ne→== f.request r (λ p. omega (arith, f.at, ap (index s) p)))
                      (ap (◌∷◌ r) f.removed);
                can_ack = f.can_ack;
              })
            ])
    ]
  ]

  -- The state after a nack of the request of index i.
  pub record Nacked (s : Sender) (i status : ℕ) (out : Option Sender) : Type 0 where
    pub request : ℕ
    pub front : List ℕ
    pub back : List ℕ
    pub after : Sender
    pub result : out ≡ some after
    pub at : index s request ≡ i
    pub split : front ++ (request ∷ back) ≡ s.partner_non_acked
    pub left : after.partner_non_acked ≡ front ++ back
    pub marked : (after.requests request).need_ack ≡ false
    pub ended : IsMarked error_handler s after request status
    pub others : (j : ℕ) → request ≢ j → after.requests j ≡ s.requests j

  handle_nack-found :
      (s : Sender) (seq status : ℕ)
      → same_session seq s.next_send_seq ≡ true
      → FoundAt s (seqnum_distance seq s.next_acked_send_seq) s.partner_non_acked (
          find_nacked error_handler s
            (seqnum_distance seq s.next_acked_send_seq)
            s.partner_non_acked)
      → Nacked s
          (seqnum_distance seq s.next_acked_send_seq)
          status
          (handle_nack error_handler s seq status)
  unfolding handle_nack
  handle_nack-found s seq status session f =
      let s₀ : Sender = record s { partner_non_acked = dequeue f.request s.partner_non_acked } in
      elim (Option-cases (mark_request_acked error_handler s₀ f.request status)) [
        | inl never ↦ absurd (mark-total error_handler s₀ f.request status f.can_ack never)
        | inr (s', m) ↦ record {
          request = f.request;
          front = f.front;
          back = f.back;
          after = s';
          result = rw (session, f.result) m;
          at = f.at;
          split = f.split;
          left = (mark-counters error_handler s₀ s' f.request status m).0 ∙ f.removed;
          marked = mark-acked error_handler s₀ s' f.request status m;
          ended = elim (mark-IsMarked error_handler s₀ s' f.request status m) [
            | ended a b c ↦ IsMarked.ended a b c
            | sending a b c d ↦ IsMarked.sending a b c d
            | replying a b c d e ↦ IsMarked.replying a b c d e
          ];
          others = λ j n. mark-others error_handler s₀ s' f.request status j m n;
        }
      ]

  -- The state after a nack of the oldest connect request: it is completed with the status and leaves
  -- the queue; nothing changes where there is none.
  pub record Refused (s : Sender) (status request : ℕ) (queue : List ℕ) (after : Sender)
      : Type 0 where
    pub left : after.partner_connect ≡ queue
    pub replied : (after.requests request).need_reply ≡ false
    pub completed : after.completed ≡ s.completed ++ ((request, status) ∷ [])
    pub sends : after.partner_non_acked ≡ s.partner_non_acked
    pub others : (j : ℕ) → request ≢ j → after.requests j ≡ s.requests j

  abbrev pub IsRefused : Sender → ℕ → List ℕ → Sender → Type 0
  IsRefused s status [] after = after ≡ s
  IsRefused s status (request ∷ queue) after = Refused s status request queue after

  nack_connect-IsRefused :
      (s : Sender) (status : ℕ) (queue : List ℕ)
      → IsRefused s status queue (nack_connect error_handler s status queue)
  unfolding nack_connect
  nack_connect-IsRefused s status [] = refl
  nack_connect-IsRefused s status (r ∷ queue) = record {
    left = refl;
    replied = ap (λ (q : Request). q.need_reply) (update_self s.requests r _);
    completed = refl;
    sends = refl;
    others = λ j n. update_ne s.requests r j _ n;
  }

  -- With the waiting requests in order, a nack in the current session ends exactly the request of
  -- its sequence number: it leaves the queue and no longer waits for an ack, no other request
  -- changes, and it is completed with the status of the nack (or, while the driver still sends it,
  -- keeps what the error handler makes of the status, unless it has an error already; or, for a
  -- large send and a status of success, goes on to wait for its reply). If no request has that
  -- number, or the session is another one, the oldest connect request leaves its queue, no longer
  -- waits for a reply and is completed with the status, and no other request changes; nothing
  -- changes if there is none.
  pub handle_nack_lem :
      (s : Sender) (seq status : ℕ)
      → IsWindow s
      → ((same_session seq s.next_send_seq ≡ true)
          × Nacked s
              (seqnum_distance seq s.next_acked_send_seq)
              status
              (handle_nack error_handler s seq status))
        ⊎ (((same_session seq s.next_send_seq ≡ false)
              ⊎ NoneAt s (seqnum_distance seq s.next_acked_send_seq) s.partner_non_acked)
            × ((after : Sender) × (handle_nack error_handler s seq status ≡ some after)
                × IsRefused s status s.partner_connect after))
  handle_nack_lem s seq status w = elim (Bool-cases (same_session seq s.next_send_seq)) [
    | inr other ↦ inr (
      inl other,
      (
        nack_connect error_handler s status s.partner_connect,
        (unfold handle_nack in rw other refl),
        nack_connect-IsRefused s status s.partner_connect,
      ),
    )
    | inl session ↦
        elim (find_nacked_lem s (seqnum_distance seq s.next_acked_send_seq) 0
          (seqnum_distance s.next_send_seq s.next_acked_send_seq) s.partner_non_acked w.ordered) [
            | inl (nobody, e) ↦ inr (
              inr nobody,
              (
                nack_connect error_handler s status s.partner_connect,
                (unfold handle_nack in rw (session, e) refl),
                nack_connect-IsRefused s status s.partner_connect,
              ),
            )
            | inr f ↦ inl (session, handle_nack-found s seq status session f)
          ]
  ]
