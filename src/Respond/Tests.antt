-- ===== src/Respond/Tests.antt =====
-- A block of two frames out of a region of two segments, and the witnesses of the theorems.
use xen2mx.Base.{ℕ, ◌+◌, ◌≡◌, refl, some, List, [], ◌∷◌, Bool, true, arith, map}
use xen2mx.UserRegion.Store.{Memory, load}
use xen2mx.UserRegion.{Segment, address}
use xen2mx.UserRegion.Cache.{OffsetCache, offset_cache_init, made, out_of_bounds, copy_pages_to_buf}
use xen2mx.UserRegion.Send.{Stands, copy_pages_to_buf_lem, offset_cache_init-overruns}
use xen2mx.UserRegion.Tests.{two_segments}
use xen2mx.Respond.{WireRequest, WireReply, Answered, sent, dropped, overrun, recv_pull_request}

abbrev always : ℕ → Bool
always i = true

abbrev behind : Segment
behind = record {
  aligned_vaddr = 0;
  first_page_offset = 77;
  seg_length = 0;
  nr_pages = 0;
  pinned_pages = 0;
  pages = λ i. 0;
}

-- The byte at each address is the address.
abbrev bytes : Memory
bytes a = a

abbrev request : WireRequest
request = record {
  block_length = 8;
  first_frame_offset = 4;
  pulled_rdma_offset = 4;
  frame_index = 0;
}

-- A cache at place 4 of the region.
abbrev at_four : OffsetCache
at_four = record { here = two_segments; segoff = 4; page = 0; pageoff = 4094 }

made_at_four : offset_cache_init two_segments 4 8 ≡ made at_four
unfolding offset_cache_init
made_at_four = refl

abbrev reply_answer : Answered
reply_answer = recv_pull_request always behind two_segments bytes request

abbrev replies_of : Answered → List WireReply
replies_of (sent rs all) = rs
replies_of dropped = []
replies_of overrun = []

first_bytes :
    map (λ (r : WireReply). r.payload) (replies_of reply_answer)
    ≡ (32766 ∷ 32767 ∷ 32768 ∷ 32769 ∷ 32770 ∷ 32771 ∷ 8197 ∷ 8198 ∷ []) ∷ []
unfolding recv_pull_request offset_cache_init copy_pages_to_buf load
first_bytes = refl

at_four-Stands : Stands two_segments 4 at_four
at_four-Stands = record {
  fits = (omega arith, omega arith, omega arith, ((omega arith, omega arith), tt));
  same = λ j. ground arith;
  left = omega arith;
}

copy_pages_to_buf_lem_example :
    (d : OffsetCache) × (copy_pages_to_buf behind two_segments at_four 8 bytes
      ≡ some (load (λ j. address two_segments (4 + j)) 8 bytes, d))
    × Stands two_segments (4 + 8) d
copy_pages_to_buf_lem_example =
    copy_pages_to_buf_lem behind two_segments at_four 4 8 bytes at_four-Stands (omega arith)

offset_cache_init-overruns_example : offset_cache_init two_segments 13 0 ≡ out_of_bounds
offset_cache_init-overruns_example =
    offset_cache_init-overruns two_segments (omega arith) (omega arith)
