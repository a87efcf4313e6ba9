-- ===== src/Receive/Tests.antt =====
-- libxen2mx/omx_recv.c: three tiny messages around the wrap-around of the sequence numbers, of
-- which the first comes last.
use xen2mx.Base.{ℕ, ◌≡◌, refl, arith, List, [], ◌∷◌, Option, some, Bool, true, false}
use xen2mx.Early.{Packet, tiny, postpone, find_previous, find_back, copy_packet}
use xen2mx.Receive.{
  Receiver, Arrival, run, process_recv, process_after, process_early, process_ordered, match_next,
  update_next_frag,
}
use xen2mx.Receive.Order.{InOrder, run-InOrder}

abbrev message : ℕ → Packet
message n = record {
  type = tiny;
  seqnum = n;
  frag_seqnum = 0;
  own_length = 1;
  frag_length = 0;
  msg_length = 1;
  bytes = 7 ∷ [];
}

abbrev arrival : ℕ → Arrival
arrival n = record { msg = message n; piggyack = 5; packet_ok = true; data_ok = true }

abbrev fresh : Receiver
fresh = record {
  next_match_recv_seq = 16383;
  next_frag_recv_seq = 16383;
  last_acked_recv_seq = 16383;
  next_send_seq = 5;
  partial_medium_recv_req_q = [];
  early_packets_q = [];
  ack_calls = [];
  matched = [];
}

abbrev matches : Packet → List ℕ → Option Bool
matches msg log = some false

abbrev one_piece : Packet → Bool
one_piece msg = true

abbrev three : List Arrival
three = arrival 0 ∷ arrival 1 ∷ arrival 16383 ∷ []

run-InOrder_example : InOrder 16383 (run matches one_piece 10 three fresh)
run-InOrder_example =
    run-InOrder matches one_piece 10 16383 (omega arith) three fresh
      (record { n = 0; next = refl; log = refl })

-- Only the first of the two early messages is matched when the gap before them is filled.
one_left : (run matches one_piece 10 three fresh).matched ≡ 0 ∷ 16383 ∷ []
unfolding run process_recv process_after process_early process_ordered match_next update_next_frag
    postpone find_previous find_back copy_packet
one_left = refl
