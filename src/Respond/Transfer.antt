-- ===== src/Respond/Transfer.antt =====
-- driver/linux/omx_pull.c and omx_reg.c: a block of a message from the region of one process to that
-- of another.
use xen2mx.Base.{ℕ, zero, suc, ◌+◌, ◌-◌, List, [], ◌∷◌}
use xen2mx.UserRegion.Store.{Memory}
use xen2mx.UserRegion.{Segment, address}
use xen2mx.UserRegion.Message.{Reply}
use xen2mx.Respond.{WireReply}

abbrev pub byte_at : List ℕ → ℕ → ℕ
byte_at [] k = 0
byte_at (b ∷ bs) zero = b
byte_at (b ∷ bs) (suc k) = byte_at bs k

-- The packet with its headers in front of the data.
abbrev pub packet : ℕ → WireReply → Reply
packet header r = record {
  msg_offset = r.msg_offset;
  frame_length = r.frame_length;
  skb = λ i. byte_at r.payload (i - header);
}

abbrev pub packets : ℕ → List WireReply → List Reply
packets header [] = []
packets header (r ∷ rs) = packet header r ∷ packets header rs

-- The message as the region of the sender has it.
abbrev pub message_of : List Segment → Memory → ℕ → ℕ → ℕ
message_of ss mem rdma_offset k = mem (address ss (rdma_offset + k))
