-- ===== src/Receive.antt =====
-- libxen2mx/omx_recv.c: the order in which the messages of a partner are matched. What matching and
-- the copies of fragments do to the requests is an argument: whether a packet is matched and leaves
-- its request waiting for fragments, and whether a fragment completes its request. Calls of the ack
-- code are recorded.
pub mod Order
pub mod Tests
use xen2mx.Base.{
  ℕ, zero, suc, ◌+◌, List, [], ◌∷◌, ◌++◌, Option, none, some, Bool, true, false, not, ◌&&◌, ltb,
  leb, ◌-◌, ◌==◌, if◌then◌else◌,
}
use xen2mx.Seqnum.{seqnum, seqnum_distance, seqnum_mod, same_session, increase_by}
use xen2mx.Early.{Packet, EarlyPacket, is_medium_frag, postpone}

pub data AckMark : Type 0 where
  marked_immediate marked_delayed : AckMark
  handled_ack : ℕ → AckMark

-- struct omx__partner: what the receive path reads and changes. A partial request is the sequence
-- number of its message. `matched` are the numbers of the messages matched so far, the last first.
pub record Receiver : Type 0 where
  pub next_match_recv_seq : ℕ
  pub next_frag_recv_seq : ℕ
  pub last_acked_recv_seq : ℕ
  pub next_send_seq : ℕ
  pub partial_medium_recv_req_q : List ℕ
  pub early_packets_q : List EarlyPacket
  pub ack_calls : List AckMark
  pub matched : List ℕ

-- OMX__EARLY_PACKET_OFFSET_MAX
abbrev pub early_packet_offset_max : ℕ
early_packet_offset_max = 255

abbrev pub first_or : ℕ → List ℕ → ℕ
first_or next [] = next
first_or next (s ∷ ss) = s

-- omx__update_partner_next_frag_recv_seq, with omx__globals.not_acked_max
unfoldable pub update_next_frag : ℕ → Receiver → Receiver
update_next_frag not_acked_max p =
    let next = first_or p.next_match_recv_seq p.partial_medium_recv_req_q in
    let call =
      if leb not_acked_max (seqnum_distance next p.last_acked_recv_seq)
      then marked_immediate
      else marked_delayed in
    if next == p.next_frag_recv_seq
    then p
    else record p { next_frag_recv_seq = next; ack_calls = call ∷ p.ack_calls }

-- The partner after a match: the next number is expected, and a request that waits for fragments
-- stands in its queue.
abbrev pub increased : Packet → Bool → Receiver → Receiver
increased msg waits p = record p {
  next_match_recv_seq = increase_by p.next_match_recv_seq 1;
  partial_medium_recv_req_q =
      if waits
      then p.partial_medium_recv_req_q ++ (msg.seqnum ∷ [])
      else p.partial_medium_recv_req_q;
  matched = seqnum msg.seqnum ∷ p.matched;
}

-- `try_match` is what a packet does to the requests: `none` where matching fails for want of memory;
-- else whether the request waits for further fragments.
module _ (try_match : Packet → List ℕ → Option Bool) (completes : Packet → Bool)
    (not_acked_max : ℕ) where
  -- The loop of omx__continue_partial_request, over the requests that are left; `none` where it
  -- ignores the packet, else the requests after the fragment.
  unfoldable pub continue_loop : Packet → ℕ → List ℕ → Option (List ℕ)
  continue_loop msg next_frag [] = none
  continue_loop msg next_frag (s ∷ ss) =
      let req_index = seqnum_distance s next_frag in
      let new_index = seqnum_distance msg.seqnum next_frag in
      let rest : Option (List ℕ) = elim (continue_loop msg next_frag ss) [
        | none ↦ none
        | some qs ↦ some (s ∷ qs)
      ] in
      if req_index == new_index
      then (if completes msg then some ss else some (s ∷ ss))
      else if ltb new_index req_index
      then none
      else rest

  -- The requests after the fragment, where its request was found.
  unfoldable pub continued : Option (List ℕ) → Receiver → Receiver
  unfolding update_next_frag
  continued none p = p
  continued (some q) p = update_next_frag not_acked_max (record p { partial_medium_recv_req_q = q })

  -- omx__continue_partial_request
  unfoldable pub continue_partial : Packet → Receiver → Receiver
  unfolding continue_loop continued
  continue_partial msg p =
      continued (continue_loop msg p.next_frag_recv_seq p.partial_medium_recv_req_q) p

  -- The matching of omx__process_partner_ordered_recv, with its outcome
  unfoldable pub match_next : Packet → Option Bool → Receiver → Receiver
  unfolding update_next_frag
  match_next msg none p = p
  match_next msg (some waits) p = update_next_frag not_acked_max (increased msg waits p)

  -- omx__process_partner_ordered_recv
  unfoldable pub process_ordered : Packet → Receiver → Receiver
  unfolding continue_partial match_next
  process_ordered msg p =
      let match_index = seqnum_distance msg.seqnum p.next_match_recv_seq in
      let frag_index = seqnum_distance msg.seqnum p.next_frag_recv_seq in
      let frag_index_max = seqnum_distance p.next_match_recv_seq p.next_frag_recv_seq in
      if match_index == 0
      then match_next msg (try_match msg p.matched) p
      else if is_medium_frag msg.type && ltb frag_index frag_index_max
      then continue_partial msg p
      else p

  -- The loop of omx__process_recv over the early packets.
  unfoldable pub process_early : ℕ → ℕ → List EarlyPacket → Receiver → Receiver
  unfolding process_ordered
  process_early old early_index_max [] p = record p { early_packets_q = [] }
  process_early old early_index_max (e ∷ es) p =
      let taken = process_early old early_index_max es (process_ordered e.msg p) in
      let left = process_early old early_index_max es p in
      if leb (seqnum_distance e.msg.seqnum old) early_index_max
      then taken
      else record left { early_packets_q = e ∷ left.early_packets_q }

  -- "process early packets in case they match the new expected seqnum"
  unfoldable pub process_after : ℕ → Receiver → Receiver
  unfolding process_early
  process_after old p =
      let early =
        process_early old (seqnum_distance p.next_match_recv_seq old) p.early_packets_q p in
      if p.next_match_recv_seq == old then p else early

  -- omx__process_recv, for a packet with its piggyback ack from a known partner, given whether the
  -- allocations for an early packet succeed
  unfoldable pub process_recv : Packet → ℕ → Bool → Bool → Receiver → Receiver
  unfolding process_ordered process_after postpone
  process_recv msg piggyack packet_ok data_ok p =
      let acked : Receiver = record p { ack_calls = handled_ack piggyack ∷ p.ack_calls } in
      let old = p.next_match_recv_seq in
      let frag_index = seqnum_distance msg.seqnum p.next_frag_recv_seq in
      let frag_index_max = seqnum_distance old p.next_frag_recv_seq in
      if not (same_session msg.seqnum p.next_frag_recv_seq)
      then p
      else if not (same_session piggyack p.next_send_seq)
      then p
      else if leb frag_index frag_index_max
      then process_after old (process_ordered msg acked)
      else if leb frag_index (frag_index_max + early_packet_offset_max)
      then record acked { early_packets_q = postpone old p.early_packets_q msg packet_ok data_ok }
      else if frag_index == seqnum_mod - 1
      then record acked { ack_calls = marked_immediate ∷ acked.ack_calls }
      else acked

-- A packet that arrives, with its piggyback ack and the outcome of two allocations.
pub record Arrival : Type 0 where
  pub msg : Packet
  pub piggyack : ℕ
  pub packet_ok : Bool
  pub data_ok : Bool

module _ (try_match : Packet → List ℕ → Option Bool) (completes : Packet → Bool)
    (not_acked_max : ℕ) where
  -- One packet after the other.
  unfoldable pub run : List Arrival → Receiver → Receiver
  unfolding process_recv
  run [] p = p
  run (a ∷ rest) p =
      run rest
        (process_recv try_match completes not_acked_max a.msg a.piggyack a.packet_ok a.data_ok p)
