-- ===== src/Early.antt =====
-- libxen2mx/omx_recv.c: the packets of a partner that arrive before their turn. They are kept in a
-- queue in the order in which they are to be processed; a packet that is there already is dropped.
-- The queue is a list; the place before the head is 0, the place behind its n-th packet n.
pub mod Order
pub mod Find
pub mod Laws
pub mod Tests
use xen2mx.Base.{
  ℕ, zero, suc, ◌+◌, List, [], ◌∷◌, ◌++◌, Option, none, some, Bool, true, false, ltb, leb,
  if◌then◌else◌, take, drop, length,
}
use xen2mx.Seqnum.{seqnum_distance}

-- The events that the receive path takes: OMX_EVT_RECV_*
pub data PacketType : Type 0 where
  tiny small medium_frag rndv notify : PacketType

-- struct omx_evt_recv_msg: what the early queue reads, the lengths of the event, and its data.
pub record Packet : Type 0 where
  pub type : PacketType
  pub seqnum : ℕ
  pub frag_seqnum : ℕ
  pub own_length : ℕ
  pub frag_length : ℕ
  pub msg_length : ℕ
  pub bytes : List ℕ

-- struct omx__early_packet: the event, the copied data, and the message length.
pub record EarlyPacket : Type 0 where
  pub msg : Packet
  pub copied : Option (List ℕ)
  pub length : ℕ

abbrev pub is_medium_frag : PacketType → Bool
is_medium_frag medium_frag = true
is_medium_frag _ = false

-- The loop of omx__find_previous_early_packet from the last packet back: the queue is given in
-- reverse, and `none` is the NULL for a duplicate.
unfoldable pub find_back : ℕ → Packet → List EarlyPacket → Option ℕ
find_back next msg [] = some 0
find_back next msg (current ∷ before) =
    let new_index = seqnum_distance msg.seqnum next in
    let current_index = seqnum_distance current.msg.seqnum next in
    let further = find_back next msg before in
    if ltb current_index new_index
    then some (suc (length before))
    else if ltb new_index current_index
    then further
    else if is_medium_frag msg.type
    then (if ltb current.msg.frag_seqnum msg.frag_seqnum
        then some (suc (length before))
        else if ltb msg.frag_seqnum current.msg.frag_seqnum
        then further
        else none)
    else none

abbrev pub reverse_onto : List EarlyPacket → List EarlyPacket → List EarlyPacket
reverse_onto [] acc = acc
reverse_onto (p ∷ ps) acc = reverse_onto ps (p ∷ acc)

-- omx__find_previous_early_packet, with partner->next_match_recv_seq
unfoldable pub find_previous : ℕ → List EarlyPacket → Packet → Option ℕ
unfolding find_back
find_previous next queue msg = find_back next msg (reverse_onto queue [])

-- What omx__postpone_early_packet copies of a packet, given whether the allocation of a buffer for
-- its data succeeds; `none` where it fails. The length of a notify packet, which the source leaves
-- unset and does not read, is 0.
unfoldable pub copy_packet : Packet → Bool → PacketType → Option EarlyPacket
copy_packet msg ok tiny = some (record { msg = msg; copied = none; length = msg.own_length })
copy_packet msg ok small =
    if ok
    then some (record {
      msg = msg;
      copied = some (take msg.own_length msg.bytes);
      length = msg.own_length;
    })
    else none
copy_packet msg ok medium_frag =
    if ok
    then some (record {
      msg = msg;
      copied = some (take msg.frag_length msg.bytes);
      length = msg.msg_length;
    })
    else none
copy_packet msg ok rndv = some (record { msg = msg; copied = none; length = msg.msg_length })
copy_packet msg ok notify = some (record { msg = msg; copied = none; length = 0 })

abbrev pub insert_at : ℕ → EarlyPacket → List EarlyPacket → List EarlyPacket
insert_at n early queue = take n queue ++ (early ∷ drop n queue)

abbrev pub insert_copy : ℕ → Option EarlyPacket → List EarlyPacket → List EarlyPacket
insert_copy n none queue = queue
insert_copy n (some early) queue = insert_at n early queue

abbrev pub insert_found : Option ℕ → Bool → Option EarlyPacket → List EarlyPacket → List EarlyPacket
insert_found none packet_ok early queue = queue
insert_found (some n) packet_ok early queue = if packet_ok then insert_copy n early queue else queue

-- omx__postpone_early_packet, given whether the two allocations succeed.
unfoldable pub postpone : ℕ → List EarlyPacket → Packet → Bool → Bool → List EarlyPacket
unfolding find_previous copy_packet
postpone next queue msg packet_ok data_ok =
    insert_found (find_previous next queue msg) packet_ok (copy_packet msg data_ok msg.type) queue
