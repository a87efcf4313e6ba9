-- ===== src/UserRegion/Tests.antt =====
-- Regions of two segments, one of which crosses a page, and the witnesses of the theorems.
use xen2mx.Base.{
  ℕ, ◌+◌, ◌-◌, ◌/◌, ◌<◌, ◌≤◌, ◌≡◌, refl, ap, ◌⊎◌, subst, List, [], ◌∷◌, ◌++◌, if◌then◌else◌, arith,
}
use xen2mx.UserRegion.Store.{Memory, store}
use xen2mx.UserRegion.{
  Segment, UserSegment, page_size, full_length, add_segments, fill_pages, filled, invalid, address,
}
use xen2mx.UserRegion.Fill.{fill_pages_lem}
use xen2mx.UserRegion.Message.{
  Reply, receive, AreDistinct, Carries, AllCarry, is_covered, Holds, receive-Holds,
}
use xen2mx.UserRegion.Pin.{
  Pinning, Gup, Pinned, pinned, failed, no_segment, pin_init, pin_continue, immediate_full_pin,
  pin_add_chunk, put_pages,
}
use xen2mx.UserRegion.Pinned.{IsPinning, user_total}
use xen2mx.UserRegion.Continue.{IsPageTable, IsDone, pin_continue-IsDone}
use xen2mx.UserRegion.Translate.{
  AllInMemory, user_address, translate, nonempty_segs, pin_init-IsPinning, IsFullyPinned,
  immediate_full_pin_lem,
}
use xen2mx.UserRegion.Arrive.{AreApart, receive-arrives}

-- The process has each page one further on.
abbrev frame : ℕ → ℕ
frame v = v + 1

abbrev gup : ℕ → ℕ → Gup
gup a n = Gup.pinned n (λ j. frame (a / page_size + j))

gup-IsPageTable : IsPageTable gup frame
gup-IsPageTable a n m frames e = (ground arith, λ j h. ground arith)

abbrev user_memory : List UserSegment
user_memory =
    record { vaddr = 4090; len = 10 }
    ∷ record { vaddr = 100; len = 0 }
    ∷ record { vaddr = 9000; len = 3 }
    ∷ []

abbrev pub nothing_there : ℕ → ℕ
nothing_there i = 0

abbrev region : List Segment
region = add_segments nothing_there user_memory

abbrev fresh : Pinning
fresh = pin_init 1 region

abbrev outcome : Pinned
outcome = immediate_full_pin gup 1 1024 region 13

abbrev state_of : Pinned → Pinning
state_of (pinned q) = q
state_of (failed q) = q
state_of no_segment = fresh

abbrev ready : Pinning
ready = state_of outcome

abbrev mapped : List Segment
mapped = ready.finished ++ ready.todo

all_registered : ready.total_registered_length ≡ 13
unfolding immediate_full_pin pin_add_chunk add_segments
all_registered = refl

pages_held : ready.page_refs ≡ 3
unfolding immediate_full_pin pin_add_chunk add_segments
pages_held = refl

pages_put : put_pages mapped ready.page_refs ≡ 0
unfolding immediate_full_pin pin_add_chunk add_segments put_pages
pages_put = refl

-- The byte of the first segment behind the end of its first page.
crossing : address mapped 7 ≡ 8193
unfolding immediate_full_pin pin_add_chunk add_segments
crossing = refl

outcome_pinned : outcome ≡ pinned ready
unfolding immediate_full_pin pin_add_chunk add_segments
outcome_pinned = refl

message : ℕ → ℕ
message k = 100 + k

-- Three replies for the whole message, the last one twice; the header is 32 bytes long.
abbrev reply : ℕ → ℕ → Reply
reply off len = record { msg_offset = off; frame_length = len; skb = λ i. message (off + (i - 32)) }

abbrev replies : List Reply
replies = reply 8 5 ∷ reply 0 4 ∷ reply 4 4 ∷ reply 8 5 ∷ []

-- Two segments, with a gap in the middle of a page.
abbrev pub two_segments : List Segment
two_segments =
    record {
      aligned_vaddr = 0;
      first_page_offset = 4090;
      seg_length = 10;
      nr_pages = 2;
      pinned_pages = 2;
      pages = λ i. 7 + i;
    }
    ∷ record {
      aligned_vaddr = 12288;
      first_page_offset = 5;
      seg_length = 3;
      nr_pages = 1;
      pinned_pages = 1;
      pages = λ i. 2;
    }
    ∷ []

pub two_segments-AreDistinct : AreDistinct two_segments
two_segments-AreDistinct j k l m e = ground (arith, e)

user_memory-AreApart : AreApart frame (nonempty_segs user_memory)
user_memory-AreApart j k l m e = ground (arith, e)

reply-Carries : (off len : ℕ) → off + len ≤ 13 → Carries 32 two_segments message (reply off len)
reply-Carries off len h = (h, λ k l. ap message (omega arith))

carried : AllCarry 32 two_segments message replies
carried = (
  reply-Carries 8 5 (omega arith),
  (
    reply-Carries 0 4 (omega arith),
    (reply-Carries 4 4 (omega arith), (reply-Carries 8 5 (omega arith), tt)),
  ),
)

fill_pages_lem_example :
    ((8 + 5 ≤ full_length two_segments)
      × (fill_pages 32 two_segments 8 message 5 nothing_there
          ≡ filled
              (store (λ k. address two_segments (8 + k)) (λ k. message (32 + k)) 5 nothing_there)))
    ⊎ ((full_length two_segments < 8 + 5)
        × (fill_pages 32 two_segments 8 message 5 nothing_there ≡ invalid))
fill_pages_lem_example = fill_pages_lem 32 two_segments 8 message 5 nothing_there

receive-Holds_example :
    (mem' : Memory) × (receive 32 two_segments replies nothing_there ≡ filled mem')
    × Holds two_segments message replies nothing_there mem'
receive-Holds_example =
    receive-Holds 32 two_segments message replies nothing_there two_segments-AreDistinct carried

user_memory-AllInMemory : AllInMemory user_memory
user_memory-AllInMemory = (omega arith, (omega arith, (omega arith, tt)))

fresh-IsPinning : IsPinning frame (nonempty_segs user_memory) fresh
fresh-IsPinning =
    pin_init-IsPinning frame 1 nothing_there user_memory (omega arith) (omega arith)
      user_memory-AllInMemory (omega arith)

pin_continue-IsDone_example :
    IsDone frame (nonempty_segs user_memory) 13 (pin_continue 14 gup 1024 fresh 13)
pin_continue-IsDone_example =
    pin_continue-IsDone gup frame 1024 (nonempty_segs user_memory) gup-IsPageTable (omega arith)
      (omega arith) 14 fresh 13 fresh-IsPinning (omega arith) (omega arith)

immediate_full_pin_lem_example :
    IsFullyPinned frame
      (nonempty_segs user_memory)
      (immediate_full_pin gup 1 1024 region (full_length region))
immediate_full_pin_lem_example =
    immediate_full_pin_lem gup frame 1 1024 nothing_there user_memory gup-IsPageTable (omega arith)
      (omega arith) (omega arith) (omega arith) user_memory-AllInMemory (omega arith)

outcome_is : pin_continue 14 gup 1024 fresh 13 ≡ pinned ready
unfolding immediate_full_pin pin_add_chunk add_segments
outcome_is = refl

ready-IsPinning : IsPinning frame (nonempty_segs user_memory) ready
ready-IsPinning =
    (subst (IsDone frame (nonempty_segs user_memory) 13) outcome_is (
      pin_continue-IsDone gup frame 1024 (nonempty_segs user_memory) gup-IsPageTable (omega arith)
        (omega arith) 14 fresh 13 fresh-IsPinning (omega arith) (omega arith))).0

ready_carried : AllCarry 32 mapped message replies
unfolding immediate_full_pin pin_add_chunk add_segments
ready_carried = carried

receive-arrives_example :
    (mem' : Memory) × (receive 32 mapped replies nothing_there ≡ filled mem')
    × ((k : ℕ)
        → k < user_total (nonempty_segs user_memory)
        → mem' (translate frame (user_address (nonempty_segs user_memory) k)) ≡ (
            if is_covered k replies
            then message k
            else nothing_there (translate frame (user_address (nonempty_segs user_memory) k))))
receive-arrives_example =
    receive-arrives 32 frame (nonempty_segs user_memory) ready message replies nothing_there
      ready-IsPinning all_registered user_memory-AreApart ready_carried
