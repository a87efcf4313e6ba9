-- ===== src/UserRegion/Arrive.antt =====
-- driver/linux/omx_reg.c and omx_pull.c: the replies of a pull in the memory of the process.
use xen2mx.Base.{ℕ, ◌<◌, ◌≡◌, sym, ap, ◌∙◌, List, ◌++◌, if◌then◌else◌, arith}
use xen2mx.UserRegion.Store.{Memory}
use xen2mx.UserRegion.{UserSegment, full_length, filled}
use xen2mx.UserRegion.Message.{Reply, receive, AllCarry, is_covered, receive-Holds}
use xen2mx.UserRegion.Pin.{Pinning}
use xen2mx.UserRegion.Pinned.{
  IsPinning, user_segs, segs_length-append, user_total, user_total-append, user_total-user_segs,
}
use xen2mx.UserRegion.Fill.{full_length-fits}
use xen2mx.UserRegion.Translate.{user_address, translate, registered-translate}

-- No two bytes of the segments lie at the same place.
abbrev pub AreApart : (ℕ → ℕ) → List UserSegment → Type 0
AreApart frame us =
    (j k : ℕ)
    → j < user_total us
    → k < user_total us
    → translate frame (user_address us j) ≡ translate frame (user_address us k)
    → j ≡ k

-- The pinned region has the length of the segments.
region_length :
    (frame : ℕ → ℕ) (us : List UserSegment) (p : Pinning)
    → IsPinning frame us p
    → full_length (p.finished ++ p.todo) ≡ user_total us
region_length frame us p h = omega (
  arith,
  full_length-fits (p.finished ++ p.todo),
  segs_length-append p.finished p.todo,
  h.total,
  user_total-user_segs p.finished,
  user_total-user_segs p.todo,
  user_total-append (user_segs p.finished) (user_segs p.todo),
  ap user_total h.segs,
)

-- Into a region that is wholly pinned, whose bytes lie at different places, replies that carry the
-- bytes of a message, in any order and repeated or not, are all taken; then the memory of the process
-- at the segments it gave holds each byte of the message that they cover, and elsewhere in them what
-- was there.
pub receive-arrives :
    (header : ℕ) (frame : ℕ → ℕ) (us : List UserSegment) (p : Pinning) (msg : ℕ → ℕ)
    (rs : List Reply) (mem : Memory)
    → IsPinning frame us p
    → p.total_registered_length ≡ user_total us
    → AreApart frame us
    → AllCarry header (p.finished ++ p.todo) msg rs
    → (mem' : Memory) × (receive header (p.finished ++ p.todo) rs mem ≡ filled mem')
      × ((k : ℕ)
          → k < user_total us
          → mem' (translate frame (user_address us k))
            ≡ (if is_covered k rs then msg k else mem (translate frame (user_address us k))))
receive-arrives header frame us p msg rs mem h whole apart carry =
    let len = region_length frame us p h in
    let at = λ (k : ℕ) (l : k < user_total us).
      registered-translate frame us p k h (omega (arith, l, whole)) in
    let got =
      receive-Holds header (p.finished ++ p.todo) msg rs mem
        (λ j k l m e.
          apart j k (omega (arith, l, len)) (omega (arith, m, len))
            (sym (at j (omega (arith, l, len))) ∙ e ∙ at k (omega (arith, m, len))))
        carry in
    (got.0, got.1, λ k l. rw (← at k l) (got.2.0 k (omega (arith, l, len))))
