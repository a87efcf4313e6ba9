-- ===== src/Pull/Steps.antt =====
-- driver/linux/omx_pull.c: the second part of a reply, the retransmission timer, and what they
-- do with a handle. What the other contexts decide, as whether a buffer can be allocated or a copy succeeds,
-- is an argument.
use xen2mx.Base.{
  ℕ, zero, suc, ◌-◌, List, [], ◌∷◌, Option, none, some, Bool, not, ◌&&◌, ◌==◌, if◌then◌else◌, sub32,
}
use xen2mx.EventQueue.Wait.{time_after64}
use xen2mx.Pull.{
  PullHandle, PullRequest, block_descs_nr, is_ok, status_timer_must_exit, status_timer_exited,
  mark_completed, fill_request,
}
use xen2mx.Pull.Reply.{is_missing}

-- OMX_EVT_PULL_DONE_SUCCESS, _ABORTED and _TIMEOUT, of common/omx_io.h
abbrev pub pull_done_success : ℕ
pull_done_success = 0

abbrev pub pull_done_aborted : ℕ
pull_done_aborted = 5

abbrev pub pull_done_timeout : ℕ
pull_done_timeout = 6

-- What is done with the handle: it goes on, it is let go of, with its completion notified or not,
-- or a BUG_ON stops the kernel.
pub data Outcome : Type 0 where
  going : List PullRequest → PullHandle → Outcome
  notified : PullHandle → Outcome
  bug : Outcome

abbrev pub completion : Option PullHandle → Outcome
completion (some h) = notified h
completion none = bug

-- omx_recv_pull_reply, from the end of the copy on, given whether the pages could be filled
unfoldable pub copy_done : Bool → PullHandle → Outcome
unfolding mark_completed
copy_done filled h =
    let copied : PullHandle = record h { host_copy_nr_frames = sub32 h.host_copy_nr_frames 1 } in
    if not filled
    then completion (mark_completed pull_done_aborted h)
    else if not (is_ok h.status)
    then going [] copied
    else if (h.remaining_length == 0)
        && ((h.nr_missing_frames == 0) && (copied.host_copy_nr_frames == 0))
    then completion (mark_completed pull_done_success copied)
    else going [] copied

-- The loop of the timer over the later blocks, n of them from i on.
abbrev pub rerequest_later : (ℕ → Bool) → PullHandle → ℕ → ℕ → List PullRequest
rerequest_later alloc h i zero = []
rerequest_later alloc h i (suc n) =
    let rest = rerequest_later alloc h (suc i) n in
    if is_missing h i then (if alloc i then fill_request h i ∷ rest else []) else rest

-- omx_progress_pull_on_handle_timeout_handle_locked
unfoldable pub progress_on_timeout : (ℕ → Bool) → PullHandle → Outcome
progress_on_timeout alloc h =
    if alloc 0
    then going (fill_request h 0 ∷ rerequest_later alloc h 1 (block_descs_nr - 1))
        (record h { already_rerequested_blocks = 0 })
    else going [] h

-- omx_pull_handle_timeout_handler, at a time
unfoldable pub timeout_handler : (ℕ → Bool) → ℕ → PullHandle → Outcome
unfolding mark_completed progress_on_timeout time_after64
timeout_handler alloc jiffies h =
    let exited : PullHandle → PullHandle = λ k. record k { status = status_timer_exited } in
    if not (is_ok h.status)
    then elim h.status [ status_timer_must_exit ↦ going [] (exited h) | _ ↦ bug ]
    else if time_after64 jiffies h.last_retransmit_jiffies
    then elim (mark_completed pull_done_timeout h) [ some k ↦ notified (exited k) | none ↦ bug ]
    else if not (is_missing h 0)
    then bug
    else progress_on_timeout alloc h
