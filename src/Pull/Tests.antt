-- ===== src/Pull/Tests.antt =====
-- driver/linux/omx_pull.c: a message of 6000 bytes that begins 100 bytes into its first frame, so
-- that it has two frames.
use xen2mx.Base.{
  member, ℕ, zero, suc, ◌+◌, ◌%◌, ◌≤◌, ◌<◌, ◌≡◌, ◌≢◌, ◌⊎◌, refl, Bool, true, false, ones, arith,
  List, [], ◌∷◌, some, Distinct,
}
use xen2mx.EventQueue.Wait.{time_after64}
use xen2mx.Pull.{
  BlockDesc, PullHandle, PullCmd, PullRequest, status_timer_must_exit, create, start_pull,
  append_needed_frames, first_block_done, prepare_blocks, fill_request,
}
use xen2mx.Pull.Reply.{
  accepted, frame_at, recv_pull_reply, recv_verdict, progress_on_reply, drop_done_blocks,
  rerequest_former,
}
use xen2mx.Pull.Steps.{going, notified, copy_done, timeout_handler}
use xen2mx.Pull.Window.{frame_missing}
use xen2mx.Pull.Laws.{Taken, recv_pull_reply_lem}
use xen2mx.Pull.Start.{Started, start_pull-Started}
use xen2mx.Pull.Runs.{Reached, started, taken, copied, Accounted, Reached-Accounted}
use xen2mx.Pull.Complete.{IsReported, copy_done_complete, copy_done-notifies}
use xen2mx.Pull.Timer.{Sent, timeout_handler_lem}

abbrev always : ℕ → Bool
always i = true

abbrev allocated : ℕ → BlockDesc
allocated i = record {
  frame_index = 7;
  block_length = 77;
  first_frame_offset = 7;
  frames_missing_bitmap = ones 8;
}

abbrev two_frames : PullCmd
two_frames = record { length = 6000; pulled_rdma_offset = 100; resend_timeout_jiffies = 500 }

abbrev begun : PullHandle
begun = (start_pull always (create two_frames 35 1000 allocated)).handle

abbrev first_taken : PullHandle
first_taken = (recv_pull_reply always 1 3996 begun).progress.handle

abbrev both_taken : PullHandle
both_taken = (recv_pull_reply always 0 0 first_taken).progress.handle

abbrev first_copied : PullHandle
first_copied = record both_taken { host_copy_nr_frames = 1 }

start_pull-Started_example : Started two_frames begun
start_pull-Started_example =
    start_pull-Started always two_frames 35 1000 allocated (omega arith) (omega arith)

first-accepted : (recv_pull_reply always 1 3996 begun).verdict ≡ accepted
unfolding recv_pull_reply recv_verdict start_pull create append_needed_frames prepare_blocks
first-accepted = refl

second-accepted : (recv_pull_reply always 0 0 first_taken).verdict ≡ accepted
unfolding recv_pull_reply recv_verdict start_pull create append_needed_frames prepare_blocks
    progress_on_reply first_block_done drop_done_blocks rerequest_former
second-accepted = refl

first-Reached : Reached begun (1 ∷ []) first_taken
first-Reached = taken always 1 3996 started (omega arith) first-accepted

both-Reached : Reached begun (0 ∷ 1 ∷ []) both_taken
both-Reached = taken always 0 0 first-Reached (omega arith) second-accepted

copies-pending : both_taken.host_copy_nr_frames ≡ 2
unfolding recv_pull_reply recv_verdict start_pull create append_needed_frames prepare_blocks
    progress_on_reply first_block_done drop_done_blocks rerequest_former
copies-pending = refl

copy-going : copy_done true both_taken ≡ going [] first_copied
unfolding recv_pull_reply recv_verdict start_pull create append_needed_frames prepare_blocks
    progress_on_reply first_block_done drop_done_blocks rerequest_former copy_done
copy-going = refl

copied-Reached : Reached begun (0 ∷ 1 ∷ []) first_copied
copied-Reached = copied [] both-Reached (omega (arith, copies-pending)) copy-going

all-taken : (k : ℕ) → k < 2 → member k (0 ∷ 1 ∷ []) ≡ true
all-taken zero l = refl
all-taken (suc zero) l = refl
all-taken (suc (suc k)) l = absurd (omega (arith, l))

Reached-Accounted_example : Accounted 2 (0 ∷ 1 ∷ []) first_copied
Reached-Accounted_example =
    Reached-Accounted two_frames begun first_copied (0 ∷ 1 ∷ []) start_pull-Started_example
      copied-Reached

recv_pull_reply_lem_example :
    ((recv_pull_reply always 1 3996 begun).verdict ≡ accepted
      × (1 ≡ frame_at 3996 % 256)
      × Taken begun (recv_pull_reply always 1 3996 begun).progress.handle (frame_at 3996))
    ⊎ ((recv_pull_reply always 1 3996 begun).verdict ≢ accepted
        × ((recv_pull_reply always 1 3996 begun).progress
            ≡ record { handle = begun; requests = [] })
        × (1 ≡ frame_at 3996 % 256
            → begun.frame_index ≤ frame_at 3996
            → frame_at 3996 < begun.next_frame_index
            → frame_missing begun (frame_at 3996) ≡ false))
recv_pull_reply_lem_example =
    recv_pull_reply_lem always 1 3996 begun start_pull-Started_example.valid
      start_pull-Started_example.working (omega arith)

abbrev finished : PullHandle
finished = record first_copied {
  host_copy_nr_frames = 0;
  status = status_timer_must_exit;
  done_status = some 0;
}

copy-notified : copy_done true first_copied ≡ notified finished
unfolding recv_pull_reply recv_verdict start_pull create append_needed_frames prepare_blocks
    progress_on_reply first_block_done drop_done_blocks rerequest_former copy_done
copy-notified = refl

copy_done_complete_example :
    IsReported 2 (0 ∷ 1 ∷ []) true finished
    × Distinct (0 ∷ 1 ∷ [])
    × (finished.status ≡ status_timer_must_exit)
copy_done_complete_example =
    copy_done_complete true two_frames begun first_copied finished (0 ∷ 1 ∷ [])
      start_pull-Started_example copied-Reached copy-notified

copy_done-notifies_example :
    (h' : PullHandle) × (copy_done true first_copied ≡ notified h') × (h'.done_status ≡ some 0)
copy_done-notifies_example =
    copy_done-notifies two_frames begun first_copied (0 ∷ 1 ∷ []) start_pull-Started_example
      copied-Reached all-taken refl

began-soon : time_after64 1200 begun.last_retransmit_jiffies ≡ false
unfolding start_pull create append_needed_frames prepare_blocks time_after64
began-soon = refl

copied-soon : time_after64 1200 first_copied.last_retransmit_jiffies ≡ false
unfolding recv_pull_reply recv_verdict start_pull create append_needed_frames prepare_blocks
    progress_on_reply first_block_done drop_done_blocks rerequest_former time_after64
copied-soon = refl

began-bounds :
    (begun.frame_index ≡ 0) × (begun.next_frame_index ≡ 2) × (frame_missing begun 1 ≡ true)
unfolding start_pull create append_needed_frames prepare_blocks
began-bounds = (refl, refl, refl)

timeout_handler_lem_example :
    (requests : List PullRequest) × (block : ℕ) × (timeout_handler always 1200 begun
      ≡ going requests (record begun { already_rerequested_blocks = 0 }))
    × Sent (fill_request begun block) requests
    × ((fill_request begun block).frame_index ≤ 1)
    × (1 < (fill_request begun block).frame_index + 8)
timeout_handler_lem_example =
    timeout_handler_lem always 1200 1 begun start_pull-Started_example.valid
      start_pull-Started_example.working began-soon (λ j. refl) (omega (arith, began-bounds))
      (omega (arith, began-bounds)) began-bounds.2
