-- ===== src/Receive/Order.antt =====
-- libxen2mx/omx_recv.c: messages are matched in the order of their sequence numbers.
use xen2mx.Base.{
  ◌-◌, ℕ, zero, suc, ◌+◌, ◌<◌, ◌≡◌, ap₂, ◌∙◌, inl, inr, List, [], ◌∷◌, Option, none, some, Bool,
  arith, ltb, leb, ◌==◌, Bool-cases, ==→eq, ◌&&◌,
}
use xen2mx.Seqnum.{seqnum, u16_mod, seqnum_distance, seqnum_mod, same_session, increase_by}
use xen2mx.Early.{Packet, EarlyPacket, is_medium_frag}
use xen2mx.Receive.{
  Receiver, handled_ack, early_packet_offset_max, update_next_frag, continued, continue_partial,
  match_next, process_ordered, process_early, process_after, process_recv, increased, Arrival, run,
}

-- The n sequence numbers from `start` on, the last one first.
abbrev pub numbers : ℕ → ℕ → List ℕ
numbers start zero = []
numbers start (suc n) = seqnum (start + n) ∷ numbers start n

-- The messages matched so far are those with the n numbers from `start` on, and the next one is
-- expected.
pub record InOrder (start : ℕ) (p : Receiver) : Type 0 where
  pub n : ℕ
  pub next : p.next_match_recv_seq ≡ increase_by start n
  pub log : p.matched ≡ numbers start n

update-fields :
    (k : ℕ) (p : Receiver)
    → ((update_next_frag k p).next_match_recv_seq ≡ p.next_match_recv_seq)
      × ((update_next_frag k p).matched ≡ p.matched)
unfolding update_next_frag
update-fields k p = ground arith

InOrder-same :
    (start : ℕ) (p q : Receiver)
    → q.next_match_recv_seq ≡ p.next_match_recv_seq
    → q.matched ≡ p.matched
    → InOrder start p
    → InOrder start q
InOrder-same start p q a b v = record { n = v.n; next = a ∙ v.next; log = b ∙ v.log }

update-InOrder :
    (start k : ℕ) (p : Receiver) → InOrder start p → InOrder start (update_next_frag k p)
update-InOrder start k p v =
    let (next, log) = update-fields k p in InOrder-same start p (update_next_frag k p) next log v

module _ (try_match : Packet → List ℕ → Option Bool) (completes : Packet → Bool)
    (not_acked_max start : ℕ) (bound : start < u16_mod) where
  continued-InOrder :
      (out : Option (List ℕ)) (p : Receiver)
      → InOrder start p
      → InOrder start (continued try_match completes not_acked_max out p)
  unfolding continued
  continued-InOrder none p v = v
  continued-InOrder (some q) p v =
      update-InOrder start not_acked_max (record p { partial_medium_recv_req_q = q })
        (record { n = v.n; next = v.next; log = v.log })

  match-InOrder :
      (msg : Packet) (out : Option Bool) (p : Receiver)
      → seqnum_distance msg.seqnum p.next_match_recv_seq ≡ 0
      → InOrder start p
      → InOrder start (match_next try_match completes not_acked_max msg out p)
  unfolding match_next
  match-InOrder msg none p d v = v
  match-InOrder msg (some waits) p d v =
      update-InOrder start not_acked_max (increased msg waits p) (record {
        n = suc v.n;
        next = omega (arith, v.next, bound);
        log =
            ap₂ ◌∷◌ {x = seqnum msg.seqnum} {y = seqnum (start + v.n)}
              (omega (arith, v.next, bound, d)) v.log;
      })

  process_ordered-InOrder :
      (msg : Packet) (p : Receiver)
      → InOrder start p
      → InOrder start (process_ordered try_match completes not_acked_max msg p)
  unfolding process_ordered continue_partial
  process_ordered-InOrder msg p v =
      elim (Bool-cases (seqnum_distance msg.seqnum p.next_match_recv_seq == 0)) [
        | inl e ↦ rw e (match-InOrder msg (try_match msg p.matched) p (==→eq _ _ e) v)
        | inr e ↦
            elim (Bool-cases (
              is_medium_frag msg.type
              && ltb (seqnum_distance msg.seqnum p.next_frag_recv_seq)
                  (seqnum_distance p.next_match_recv_seq p.next_frag_recv_seq))) [
                    | inl f ↦ rw (e, f) (continued-InOrder _ p v)
                    | inr f ↦ rw (e, f) v
                  ]
      ]

  process_early-InOrder :
      (old index_max : ℕ) (es : List EarlyPacket) (p : Receiver)
      → InOrder start p
      → InOrder start (process_early try_match completes not_acked_max old index_max es p)
  unfolding process_early
  process_early-InOrder old index_max [] p v = record { n = v.n; next = v.next; log = v.log }
  process_early-InOrder old index_max (e ∷ es) p v =
      elim (Bool-cases (leb (seqnum_distance e.msg.seqnum old) index_max)) [
        | inl f ↦
            rw f (process_early-InOrder old index_max es _ (process_ordered-InOrder e.msg p v))
        | inr f ↦
            let w = process_early-InOrder old index_max es p v in
            rw f (record { n = w.n; next = w.next; log = w.log })
      ]

  process_after-InOrder :
      (old : ℕ) (p : Receiver)
      → InOrder start p
      → InOrder start (process_after try_match completes not_acked_max old p)
  unfolding process_after
  process_after-InOrder old p v = elim (Bool-cases (p.next_match_recv_seq == old)) [
    | inl e ↦ rw e v
    | inr e ↦ rw e (process_early-InOrder old _ p.early_packets_q p v)
  ]

  process_recv-InOrder :
      (msg : Packet) (piggyack : ℕ) (packet_ok data_ok : Bool) (p : Receiver)
      → InOrder start p
      → InOrder start
          (process_recv try_match completes not_acked_max msg piggyack packet_ok data_ok p)
  unfolding process_recv
  process_recv-InOrder msg piggyack packet_ok data_ok p v =
      let acked : Receiver = record p { ack_calls = handled_ack piggyack ∷ p.ack_calls } in
      let w : InOrder start acked = record { n = v.n; next = v.next; log = v.log } in
      let frag_index : ℕ = seqnum_distance msg.seqnum p.next_frag_recv_seq in
      let frag_index_max : ℕ = seqnum_distance p.next_match_recv_seq p.next_frag_recv_seq in
      elim (Bool-cases (same_session msg.seqnum p.next_frag_recv_seq)) [
        | inr a ↦ rw a v
        | inl a ↦ elim (Bool-cases (same_session piggyack p.next_send_seq)) [
          | inr b ↦ rw (a, b) v
          | inl b ↦ elim (Bool-cases (leb frag_index frag_index_max)) [
            | inl c ↦
                rw (a, b, c)
                  (process_after-InOrder p.next_match_recv_seq _
                    (process_ordered-InOrder msg acked w))
            | inr c ↦
                elim (Bool-cases (leb frag_index (frag_index_max + early_packet_offset_max))) [
                  | inl d ↦ rw (a, b, c, d) (record { n = v.n; next = v.next; log = v.log })
                  | inr d ↦ elim (Bool-cases (frag_index == seqnum_mod - 1)) [
                    | inl e ↦ rw (a, b, c, d, e) (record { n = v.n; next = v.next; log = v.log })
                    | inr e ↦ rw (a, b, c, d, e) (record { n = v.n; next = v.next; log = v.log })
                  ]
                ]
          ]
        ]
      ]

  -- Whatever packets arrive, from a state in which the messages matched are those with the numbers
  -- from `start` on: the messages matched are again those with the numbers from `start` on, in
  -- their order, each once, and the next number is expected.
  pub run-InOrder :
      (arrivals : List Arrival) (p : Receiver)
      → InOrder start p
      → InOrder start (run try_match completes not_acked_max arrivals p)
  unfolding run
  run-InOrder [] p v = v
  run-InOrder (a ∷ rest) p v =
      run-InOrder rest _ (process_recv-InOrder a.msg a.piggyack a.packet_ok a.data_ok p v)
