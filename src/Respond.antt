-- ===== src/Respond.antt =====
-- driver/linux/omx_pull.c, omx_recv_pull_request: the replies to a pull request, once its peer, its
-- endpoint and its session are checked and its region is found. The data are copied into the packet,
-- as for small frames or without omx_skb_frags; whether a packet can be allocated is an argument.
pub mod Laws
pub mod Transfer
pub mod Tests
use xen2mx.Base.{
  ℕ, zero, suc, ◌+◌, ◌-◌, ◌*◌, ◌/◌, ◌%◌, List, [], ◌∷◌, Option, none, some, Bool, true, false, ltb,
  if◌then◌else◌, add32, sub32, u32_mod,
}
use xen2mx.Pull.{reply_length_max, reply_per_block}
use xen2mx.UserRegion.Store.{Memory}
use xen2mx.UserRegion.{Segment}
use xen2mx.UserRegion.Cache.{
  OffsetCache, Made, made, refused, out_of_bounds, offset_cache_init, copy_pages_to_buf,
}

-- struct omx_pkt_pull_request, what the replies depend on
pub record WireRequest : Type 0 where
  pub block_length : ℕ
  pub first_frame_offset : ℕ
  pub pulled_rdma_offset : ℕ
  pub frame_index : ℕ

-- struct omx_pkt_pull_reply and the data behind it
pub record WireReply : Type 0 where
  pub msg_offset : ℕ
  pub frame_seqnum : ℕ
  pub frame_length : ℕ
  pub payload : List ℕ

-- What comes of a request: the replies sent, and whether all of them were; or it is dropped; or the
-- copy left the region.
pub data Answered : Type 0 where
  sent : List WireReply → Bool → Answered
  dropped : Answered
  overrun : Answered

abbrev pub send_first : WireReply → Answered → Answered
send_first r (sent rs all) = sent (r ∷ rs) all
send_first r dropped = dropped
send_first r overrun = overrun

abbrev pub send_copied :
    (List ℕ → WireReply) → Option (List ℕ × OffsetCache) → (OffsetCache → Answered) → Answered
send_copied reply none rest = overrun
send_copied reply (some (bytes, c)) rest = send_first (reply bytes) (rest c)

abbrev pub frame_size : ℕ → ℕ → ℕ
frame_size most remaining = if ltb remaining most then remaining else most

-- The loop over the replies; `most` is the length of a frame where the block has as much left.
unfoldable pub send_replies :
    (ℕ → Bool) → Segment → List Segment → Memory → ℕ → ℕ → ℕ → ℕ → ℕ → ℕ → OffsetCache → Answered
send_replies alloc behind ss mem i zero most seqnum msg_offset remaining c = sent [] true
send_replies alloc behind ss mem i (suc replies) most seqnum msg_offset remaining c =
    let len = frame_size most remaining in
    let rest = λ (d : OffsetCache).
      send_replies alloc behind ss mem (suc i) replies reply_length_max (add32 seqnum 1)
        (add32 msg_offset len) (remaining - len) d in
    let reply = λ (bytes : List ℕ).
      let r : WireReply = record {
        msg_offset = msg_offset;
        frame_seqnum = seqnum % 256;
        frame_length = len;
        payload = bytes;
      } in
      r in
    if alloc i
    then send_copied reply (copy_pages_to_buf behind ss c len mem) rest
    else sent [] false

-- The number of the replies, and the offset in the message of the first.
abbrev pub reply_count : WireRequest → ℕ
reply_count q = (q.first_frame_offset + q.block_length + (reply_length_max - 1)) / reply_length_max

abbrev pub first_msg_offset : WireRequest → ℕ
first_msg_offset q =
    add32
      (sub32 (q.frame_index * reply_length_max % u32_mod) (q.pulled_rdma_offset % reply_length_max))
      q.first_frame_offset

abbrev pub send_from : (OffsetCache → Answered) → Made → Answered
send_from loop (made c) = loop c
send_from loop refused = dropped
send_from loop out_of_bounds = overrun

-- omx_recv_pull_request, from the number of replies on
unfoldable pub recv_pull_request :
    (ℕ → Bool) → Segment → List Segment → Memory → WireRequest → Answered
unfolding send_replies
recv_pull_request alloc behind ss mem q =
    if ltb reply_per_block (reply_count q)
    then dropped
    else send_from
        (λ c.
          send_replies alloc behind ss mem 0 (reply_count q)
            (sub32 reply_length_max q.first_frame_offset) q.frame_index (first_msg_offset q)
            q.block_length c)
        (offset_cache_init ss (add32 (first_msg_offset q) q.pulled_rdma_offset) q.block_length)
