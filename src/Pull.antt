-- ===== src/Pull.antt =====
-- driver/linux/omx_pull.c: the pull handles by which the driver receives a large message. A handle
-- requests the message block by block, at most four blocks at a time, and keeps a mask of the
-- frames that each block still misses. The configuration is the wire-compatible one of
-- common/omx_wire.h, whose lengths are fixed; a mask is a word of 8 bits.
pub mod Reply
pub mod Steps
pub mod Window
pub mod Append
pub mod Done
pub mod Kept
pub mod Take
pub mod Laws
pub mod Start
pub mod Runs
pub mod Complete
pub mod Timer
pub mod Slots
pub mod FreeSlots
pub mod Table
pub mod SlotTests
pub mod Tests
use xen2mx.Base.{
  ℕ, zero, suc, ◌+◌, ◌-◌, ◌*◌, ◌/◌, ◌%◌, ◌^◌, min, List, [], ◌∷◌, Option, none, some, Bool, true,
  false, not, ◌&&◌, ◌||◌, ltb, leb, ◌==◌, if◌then◌else◌, add32, sub32, update, ones, shift_right,
  zeros,
}
use xen2mx.EventQueue.Wait.{time_after64}

-- OMX_PULL_BLOCK_DESCS_NR
abbrev pub block_descs_nr : ℕ
block_descs_nr = 4

-- OMX_PULL_REPLY_PER_BLOCK, and the width of omx_block_frame_bitmask_t
abbrev pub reply_per_block : ℕ
reply_per_block = 8

-- OMX_PULL_REPLY_LENGTH_MAX
abbrev pub reply_length_max : ℕ
reply_length_max = 4096

-- OMX_PULL_BLOCK_LENGTH_MAX
abbrev pub block_length_max : ℕ
block_length_max = reply_length_max * reply_per_block

-- enum omx_pull_handle_status
pub data PullStatus : Type 0 where
  status_ok status_timer_must_exit status_timer_exited : PullStatus

-- struct omx_pull_block_desc
pub record BlockDesc : Type 0 where
  pub frame_index : ℕ
  pub block_length : ℕ
  pub first_frame_offset : ℕ
  pub frames_missing_bitmap : List Bool

-- struct omx_pull_handle, without the references, the list, the timer itself and the cached
-- header; done_status is the status of the completion event, once it is set.
pub record PullHandle : Type 0 where
  pub slot_id : ℕ
  pub last_retransmit_jiffies : ℕ
  pub total_length : ℕ
  pub pulled_rdma_offset : ℕ
  pub status : PullStatus
  pub remaining_length : ℕ
  pub frame_index : ℕ
  pub next_frame_index : ℕ
  pub nr_requested_frames : ℕ
  pub nr_missing_frames : ℕ
  pub nr_valid_block_descs : ℕ
  pub already_rerequested_blocks : ℕ
  pub block_desc : ℕ → BlockDesc
  pub host_copy_nr_frames : ℕ
  pub done_status : Option ℕ

-- struct omx_cmd_pull: what the handle is made from.
pub record PullCmd : Type 0 where
  pub length : ℕ
  pub pulled_rdma_offset : ℕ
  pub resend_timeout_jiffies : ℕ

-- The fields that a pull request on the wire has of its own.
pub record PullRequest : Type 0 where
  pub frame_index : ℕ
  pub block_length : ℕ
  pub first_frame_offset : ℕ

abbrev pub is_ok : PullStatus → Bool
is_ok status_ok = true
is_ok _ = false

-- Clears the masks of the first descriptors; the last one keeps what the allocation left there.
abbrev pub clear_descs : ℕ → (ℕ → BlockDesc) → ℕ → BlockDesc
clear_descs zero descs = descs
clear_descs (suc n) descs =
    let rest = clear_descs n descs in
    update rest n (record (rest n) { frames_missing_bitmap = zeros reply_per_block })

-- omx_pull_handle_create: the fields of the new handle, in the slot with this id, from allocated
-- memory with these descriptors.
unfoldable pub create : PullCmd → ℕ → ℕ → (ℕ → BlockDesc) → PullHandle
create cmd slot_id jiffies allocated = record {
  slot_id = slot_id;
  last_retransmit_jiffies = (jiffies + cmd.resend_timeout_jiffies) % (2 ^ 64);
  total_length = cmd.length;
  pulled_rdma_offset = cmd.pulled_rdma_offset;
  status = status_ok;
  remaining_length = cmd.length;
  frame_index = 0;
  next_frame_index = 0;
  nr_requested_frames = 0;
  nr_missing_frames = 0;
  nr_valid_block_descs = 0;
  already_rerequested_blocks = 0;
  block_desc = clear_descs (block_descs_nr - 1) allocated;
  host_copy_nr_frames = 0;
  done_status = none;
}

-- omx_pull_handle_mark_completed: `none` is its BUG_ON. The slot is given back with Slots.free.
unfoldable pub mark_completed : ℕ → PullHandle → Option PullHandle
mark_completed status h =
    if is_ok h.status
    then some (record h { status = status_timer_must_exit; done_status = some status })
    else none

-- new_frames of omx_pull_handle_append_needed_frames
abbrev pub new_frames : ℕ → ℕ → ℕ
new_frames block_length first_frame_offset =
    sub32 (add32 (add32 first_frame_offset block_length) reply_length_max) 1 / reply_length_max

-- omx_pull_handle_append_needed_frames
unfoldable pub append_needed_frames : ℕ → ℕ → PullHandle → PullHandle
append_needed_frames block_length first_frame_offset h =
    let n = new_frames block_length first_frame_offset in
    record h {
      block_desc = update h.block_desc h.nr_valid_block_descs (record {
        frame_index = h.next_frame_index;
        block_length = block_length;
        first_frame_offset = first_frame_offset;
        frames_missing_bitmap = shift_right (reply_per_block - n) (ones reply_per_block);
      });
      nr_requested_frames = add32 h.nr_requested_frames n;
      nr_missing_frames = add32 h.nr_missing_frames n;
      next_frame_index = add32 h.next_frame_index n;
      remaining_length = sub32 h.remaining_length block_length;
      nr_valid_block_descs = add32 h.nr_valid_block_descs 1;
    }

-- The memmove of omx_pull_handle_first_block_done: n descriptors, each one place down.
abbrev pub move_down : ℕ → (ℕ → BlockDesc) → ℕ → BlockDesc
move_down n descs i = if ltb i n then descs (suc i) else descs i

-- omx_pull_handle_first_block_done
unfoldable pub first_block_done : PullHandle → PullHandle
first_block_done h =
    let frames = min h.nr_requested_frames reply_per_block in
    let valid = sub32 h.nr_valid_block_descs 1 in
    let last = block_descs_nr - 1 in
    let moved : ℕ → BlockDesc = move_down valid h.block_desc in
    record h {
      frame_index = add32 h.frame_index frames;
      nr_requested_frames = sub32 h.nr_requested_frames frames;
      nr_valid_block_descs = valid;
      already_rerequested_blocks = h.already_rerequested_blocks - 1;
      block_desc =
          update moved last (record (moved last) { frames_missing_bitmap = zeros reply_per_block });
    }

-- "prepare as many new blocks as needed": the loop, on fuel. Each round fills a descriptor, so
-- that block_descs_nr rounds are enough.
unfoldable pub prepare_blocks : ℕ → PullHandle → PullHandle
unfolding append_needed_frames
prepare_blocks zero h = h
prepare_blocks (suc fuel) h =
    let block_length =
      if ltb h.remaining_length block_length_max then h.remaining_length else block_length_max in
    let more = prepare_blocks fuel (append_needed_frames block_length 0 h) in
    if ltb h.nr_valid_block_descs block_descs_nr && not (h.remaining_length == 0) then more else h

-- omx_fill_pull_block_request, where its allocation succeeds
abbrev pub fill_request : PullHandle → ℕ → PullRequest
fill_request h i = record {
  frame_index = (h.block_desc i).frame_index;
  block_length = (h.block_desc i).block_length;
  first_frame_offset = (h.block_desc i).first_frame_offset;
}

-- "try to actually request the needed new blocks": n blocks from i on, until an allocation of a
-- buffer fails.
abbrev pub request_blocks : (ℕ → Bool) → PullHandle → ℕ → ℕ → List PullRequest
request_blocks alloc h i zero = []
request_blocks alloc h i (suc n) =
    let rest = request_blocks alloc h (suc i) n in if alloc i then fill_request h i ∷ rest else []

-- A handle and the requests sent with it.
pub record PullProgress : Type 0 where
  pub handle : PullHandle
  pub requests : List PullRequest

-- omx_ioctl_pull, from the new handle on
unfoldable pub start_pull : (ℕ → Bool) → PullHandle → PullProgress
unfolding append_needed_frames prepare_blocks
start_pull alloc h =
    let in_frame = h.pulled_rdma_offset % reply_length_max in
    let room = block_length_max - in_frame in
    let first =
      append_needed_frames (if ltb h.remaining_length room then h.remaining_length else room)
        in_frame h in
    let ready = prepare_blocks block_descs_nr first in
    record { handle = ready; requests = request_blocks alloc ready 0 ready.nr_valid_block_descs }
