-- ===== src/Respond/Laws.antt =====
-- driver/linux/omx_pull.c, omx_recv_pull_request: what the replies hold.
use xen2mx.Base.{ℕ, ◌+◌, ◌%◌, ◌≤◌, ◌≡◌, List, [], ◌∷◌, true, add32}
use xen2mx.UserRegion.Store.{Memory, load}
use xen2mx.UserRegion.{Segment, address}
use xen2mx.Respond.{WireReply, Answered, sent, dropped, overrun}

-- The replies follow one another from an offset of the message on, numbered from a sequence number
-- on, of which a packet has the lower 8 bits, and each carries the bytes of the region behind the
-- offset of the pull in the region.
abbrev pub Follow : List Segment → Memory → ℕ → ℕ → ℕ → List WireReply → Type 0
Follow ss mem rdma_offset seqnum msg_offset [] = Unit {0}
Follow ss mem rdma_offset seqnum msg_offset (r ∷ rs) =
    (r.msg_offset ≡ msg_offset)
    × (r.payload ≡ load (λ j. address ss (rdma_offset + msg_offset + j)) r.frame_length mem)
    × (r.frame_seqnum ≡ seqnum % 256)
    × Follow ss mem rdma_offset (add32 seqnum 1) (msg_offset + r.frame_length) rs

abbrev pub total_sent : List WireReply → ℕ
total_sent [] = 0
total_sent (r ∷ rs) = r.frame_length + total_sent rs

-- The replies carry the region, as far as they go, and the whole block if all were sent.
abbrev pub IsAnswer : List Segment → Memory → ℕ → ℕ → ℕ → ℕ → Answered → Type 0
IsAnswer ss mem rdma_offset seqnum msg_offset len (sent rs all) =
    Follow ss mem rdma_offset seqnum msg_offset rs
    × (total_sent rs ≤ len)
    × (all ≡ true → total_sent rs ≡ len)
IsAnswer ss mem rdma_offset seqnum msg_offset len dropped = ⊥
IsAnswer ss mem rdma_offset seqnum msg_offset len overrun = ⊥
