-- ===== src/Pull/Reply.antt =====
-- driver/linux/omx_pull.c: a pull reply on its handle, up to the copy of its data. Under the lock of
-- the handle the frame is checked and taken, and more is requested.
use xen2mx.Base.{
  ℕ, zero, suc, ◌-◌, ◌/◌, ◌%◌, [], ◌∷◌, Bool, not, ◌&&◌, ◌||◌, ltb, leb, ◌==◌, if◌then◌else◌, add32,
  sub32, update, is_set, clear, nonzero,
}
use xen2mx.Pull.{
  BlockDesc, PullHandle, PullProgress, block_descs_nr, reply_per_block, reply_length_max, is_ok,
  first_block_done, prepare_blocks, fill_request, request_blocks,
}

-- Whether the block with this index misses a frame.
abbrev pub is_missing : PullHandle → ℕ → Bool
is_missing h i = nonzero (h.block_desc i).frames_missing_bitmap

-- "drop next blocks if they are done", with n rounds of the loop left
unfoldable pub drop_done_blocks : ℕ → PullHandle → PullHandle
unfolding first_block_done
drop_done_blocks zero h = h
drop_done_blocks (suc n) h =
    let dropped = drop_done_blocks n (first_block_done h) in
    if (h.nr_valid_block_descs == 0) || is_missing h 0 then h else dropped

-- The loop that requests former blocks again, n of them from i on.
unfoldable pub rerequest_former : (ℕ → Bool) → ℕ → ℕ → PullHandle → PullProgress
rerequest_former alloc i zero h = record { handle = h; requests = [] }
rerequest_former alloc i (suc n) h =
    let skipped = rerequest_former alloc (suc i) n h in
    let rest : PullProgress =
      rerequest_former alloc (suc i) n (record h { already_rerequested_blocks = suc i }) in
    if is_missing h i
    then (if alloc i
        then record { handle = rest.handle; requests = fill_request h i ∷ rest.requests }
        else record { handle = h; requests = [] })
    else skipped

-- omx_progress_pull_on_recv_pull_reply_locked
unfoldable pub progress_on_reply : (ℕ → Bool) → ℕ → PullHandle → PullProgress
unfolding first_block_done drop_done_blocks prepare_blocks rerequest_former
progress_on_reply alloc idesc h =
    let again =
      rerequest_former alloc h.already_rerequested_blocks (idesc - h.already_rerequested_blocks)
        h in
    let left = drop_done_blocks (block_descs_nr - 1) (first_block_done h) in
    let ready = prepare_blocks block_descs_nr left in
    if is_missing h 0
    then (if not (is_missing h idesc) && (ltb 0 idesc && ltb h.already_rerequested_blocks idesc)
        then again
        else record { handle = h; requests = [] })
    else record {
      handle = ready;
      requests =
          request_blocks alloc ready left.nr_valid_block_descs
            (ready.nr_valid_block_descs - left.nr_valid_block_descs);
    }

-- frame_seqnum_offset of omx_recv_pull_reply
abbrev pub seqnum_offset : ℕ → PullHandle → ℕ
seqnum_offset frame_seqnum h = add32 (sub32 frame_seqnum (h.frame_index % 256)) 256 % 256

-- The number of the frame at an offset of the message, as omx_recv_pull_reply computes it.
abbrev pub frame_at : ℕ → ℕ
frame_at msg_offset = sub32 (add32 msg_offset reply_length_max) 1 / reply_length_max

-- What becomes of a reply in the first part.
pub data Verdict : Type 0 where
  closing bad_wraparound bad_seqnum duplicate accepted : Verdict

pub record Received : Type 0 where
  pub verdict : Verdict
  pub progress : PullProgress

-- The handle with frame `off` of its window taken, and one copy pending.
abbrev pub take_frame : ℕ → PullHandle → PullHandle
take_frame off h =
    let idesc = off / reply_per_block in
    let desc : BlockDesc = h.block_desc idesc in
    record h {
      block_desc = update h.block_desc idesc (record desc {
        frames_missing_bitmap = clear (off % reply_per_block) desc.frames_missing_bitmap;
      });
      nr_missing_frames = sub32 h.nr_missing_frames 1;
      host_copy_nr_frames = add32 h.host_copy_nr_frames 1;
    }

-- The checks of omx_recv_pull_reply, from the lock on the handle that it found on
unfoldable pub recv_verdict : ℕ → ℕ → PullHandle → Verdict
recv_verdict frame_seqnum msg_offset h =
    let off = seqnum_offset frame_seqnum h in
    let mask = (h.block_desc (off / reply_per_block)).frames_missing_bitmap in
    if not (is_ok h.status)
    then closing
    else if not (frame_at msg_offset == add32 h.frame_index off)
    then bad_wraparound
    else if leb h.nr_requested_frames off
    then bad_seqnum
    else if not (is_set (off % reply_per_block) mask)
    then duplicate
    else accepted

-- A reply that fails a check leaves the handle and asks for nothing.
abbrev pub answer : Verdict → PullHandle → PullProgress → PullProgress
answer accepted h progress = progress
answer _ h progress = record { handle = h; requests = [] }

-- omx_recv_pull_reply, from the lock on the handle that it found to the copy
unfoldable pub recv_pull_reply : (ℕ → Bool) → ℕ → ℕ → PullHandle → Received
unfolding recv_verdict progress_on_reply
recv_pull_reply alloc frame_seqnum msg_offset h =
    let off = seqnum_offset frame_seqnum h in
    let verdict = recv_verdict frame_seqnum msg_offset h in
    record {
      verdict = verdict;
      progress =
          answer verdict h (progress_on_reply alloc (off / reply_per_block) (take_frame off h));
    }
