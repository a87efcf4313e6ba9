-- ===== src/Pull/Timer.antt =====
-- driver/linux/omx_pull.c, omx_pull_handle_timeout_handler on a pull that goes on.
use xen2mx.Base.{
  member, ℕ, zero, suc, ◌+◌, ◌-◌, ◌/◌, ◌%◌, ◌≤◌, ◌<◌, ◌≡◌, ◌⊎◌, inl, inr, refl, sym, ◌∙◌, Bool,
  true, false, arith, List, [], ◌∷◌, is_set, Bool-cases, nonzero-set,
}
use native.Mathlib.Decide.{ℕ_discrete}
use xen2mx.EventQueue.Wait.{time_after64}
use xen2mx.Pull.{PullHandle, PullCmd, PullRequest, status_ok, fill_request}
use xen2mx.Pull.Reply.{is_missing}
use xen2mx.Pull.Steps.{going, bug, timeout_handler, progress_on_timeout, rerequest_later}
use xen2mx.Pull.Window.{frame_missing, missing_within}
use xen2mx.Pull.Kept.{IsValid}
use xen2mx.Pull.Start.{Started}
use xen2mx.Pull.Runs.{Reached, Reached-Accounted}
use xen2mx.Pull.Complete.{none_left, complete-no_block}

-- One of the requests that are sent is this one.
abbrev pub Sent : PullRequest → List PullRequest → Type 0
Sent r [] = ⊥
Sent r (q ∷ qs) = (r ≡ q) ⊎ Sent r qs

later-Sent :
    (alloc : ℕ → Bool) (h : PullHandle) (i n m : ℕ)
    → ((j : ℕ) → alloc j ≡ true)
    → i ≤ m
    → m < i + n
    → is_missing h m ≡ true
    → Sent (fill_request h m) (rerequest_later alloc h i n)
later-Sent alloc h i zero m a b c d = absurd (omega (arith, b, c))
later-Sent alloc h i (suc n) m a b c d = elim (ℕ_discrete i m) [
  | yes p ↦ rw (p, d, a m) (inl refl)
  | no q ↦
      let ih : Sent (fill_request h m) (rerequest_later alloc h (suc i) n) =
        later-Sent alloc h (suc i) n m a (omega (arith, b, q)) (omega (arith, c)) d in
      elim (Bool-cases (is_missing h i)) [ inl s ↦ rw (s, a i) (inr ih) | inr s ↦ rw s ih ]
]

-- On a valid handle whose status is OK, before the last time to retransmit and with memory for the
-- buffers: for each frame that was requested and is missing, the timer requests again the block of
-- the frame, and it runs on.
pub timeout_handler_lem :
    (alloc : ℕ → Bool) (jiffies k : ℕ) (h : PullHandle)
    → IsValid h
    → h.status ≡ status_ok
    → time_after64 jiffies h.last_retransmit_jiffies ≡ false
    → ((j : ℕ) → alloc j ≡ true)
    → h.frame_index ≤ k
    → k < h.next_frame_index
    → frame_missing h k ≡ true
    → (requests : List PullRequest) × (block : ℕ) × (timeout_handler alloc jiffies h
        ≡ going requests (record h { already_rerequested_blocks = 0 }))
      × Sent (fill_request h block) requests
      × ((fill_request h block).frame_index ≤ k)
      × (k < (fill_request h block).frame_index + 8)
unfolding timeout_handler progress_on_timeout
timeout_handler_lem alloc jiffies k h v w soon a b c m =
    let i : ℕ = (k - h.frame_index) / 8 in
    let set : is_set ((k - h.frame_index) % 8) (h.block_desc i).frames_missing_bitmap ≡ true =
      sym (missing_within h k b c) ∙ m in
    let here : is_missing h i ≡ true =
      nonzero-set ((k - h.frame_index) % 8) (h.block_desc i).frames_missing_bitmap set in
    let valid : i < h.nr_valid_block_descs = omega (arith, b, c, v.window.next, v.window.covered) in
    let (n, l, t) = v.window.numbered i valid in
    let first : is_missing h 0 ≡ true = v.first_missing (omega (arith, valid)) in
    (
      fill_request h 0 ∷ rerequest_later alloc h 1 3,
      i,
      rw (w, soon, first, a 0) refl,
      elim (ℕ_discrete i 0) [
        | yes z ↦ rw z (inl refl)
        | no z ↦ inr (
            later-Sent alloc h 1 3 i a (omega (arith, z)) (omega (arith, valid, v.window.few)) here)
      ],
      omega (arith, n, b),
      omega (arith, n, b),
    )

-- From the start of a pull: once every frame has been taken and before the completion is notified,
-- a timer that runs before the last time to retransmit meets the BUG_ON.
pub timeout_handler-bug :
    (alloc : ℕ → Bool) (jiffies : ℕ) (cmd : PullCmd) (start h : PullHandle) (frames : List ℕ)
    → Started cmd start
    → Reached start frames h
    → ((k : ℕ)
        → k < (cmd.pulled_rdma_offset % 4096 + cmd.length + 4095) / 4096
        → member k frames ≡ true)
    → time_after64 jiffies h.last_retransmit_jiffies ≡ false
    → timeout_handler alloc jiffies h ≡ bug
unfolding timeout_handler
timeout_handler-bug alloc jiffies cmd start h frames s r all soon =
    let a = Reached-Accounted cmd start h frames s r in
    let none_valid : h.nr_valid_block_descs ≡ 0 =
      complete-no_block h a.valid (λ k. a.missing k ∙ none_left _ k frames (all k)) in
    rw (a.working, soon, a.valid.none_missing none_valid) refl
