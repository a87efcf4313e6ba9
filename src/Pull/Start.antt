-- ===== src/Pull/Start.antt =====
-- driver/linux/omx_pull.c, omx_ioctl_pull: the handle with which a pull begins.
use xen2mx.Base.{ℕ, suc, ◌+◌, ◌/◌, ◌%◌, ◌^◌, ◌<◌, ◌≡◌, refl, sym, ap, ◌∙◌, Bool, true, arith, ltb}
use xen2mx.Pull.{
  BlockDesc, PullHandle, PullCmd, status_ok, create, start_pull, append_needed_frames,
}
use xen2mx.Pull.Reply.{is_missing}
use xen2mx.Pull.Window.{
  missing_behind, frames_nr, in_frame, IsWindow, SamePull, SamePull-trans, frame_missing,
}
use xen2mx.Pull.Append.{
  next_length, append-IsWindow, append-SamePull, append-valid, append-first_missing,
}
use xen2mx.Pull.Kept.{IsValid, prepare-Kept}

create-IsWindow :
    (cmd : PullCmd) (slot jiffies : ℕ) (allocated : ℕ → BlockDesc)
    → cmd.length < 2 ^ 32
    → IsWindow (in_frame (create cmd slot jiffies allocated)) (create cmd slot jiffies allocated)
unfolding create
create-IsWindow cmd slot jiffies allocated b = record {
  few = omega arith;
  covered = omega arith;
  full = λ r. refl;
  next = refl;
  position = λ r. omega arith;
  rest = omega arith;
  bound = omega (arith, b);
  counted = refl;
  none_beyond = λ i j l k. absurd (omega (arith, l));
  numbered = λ i l. absurd (omega (arith, l));
}

-- On a handle without blocks, the first requests make the window valid and lose nothing.
start-Kept :
    (alloc : ℕ → Bool) (h : PullHandle)
    → IsWindow (in_frame h) h
    → h.nr_valid_block_descs ≡ 0
    → 0 < h.remaining_length
    → IsValid (start_pull alloc h).handle × SamePull h (start_pull alloc h).handle
unfolding start_pull
start-Kept alloc h v n more =
    let off : ℕ = in_frame h in
    let first : PullHandle = append_needed_frames (next_length off h) off h in
    let room : h.nr_valid_block_descs < 4 = omega (arith, n) in
    let w : IsWindow 0 first = append-IsWindow off h v (omega arith) room more in
    let m : 0 < first.nr_valid_block_descs → is_missing first 0 ≡ true = λ z.
      append-first_missing off h v (omega arith) room more (λ y. absurd (omega (arith, n, y))) in
    let grown : first.nr_valid_block_descs ≡ suc h.nr_valid_block_descs =
      append-valid off h v (omega arith) room more in
    let ((d, e), f, g, x) = prepare-Kept 4 first w (omega arith) in
    (
      record {
        window = d;
        filled = f;
        first_missing = g m;
        none_missing = x (λ z. absurd (omega (arith, grown, z)));
      },
      SamePull-trans (append-SamePull off h v (omega arith) room more) e,
    )

-- What the new handle is.
created :
    (cmd : PullCmd) (slot jiffies : ℕ) (allocated : ℕ → BlockDesc)
    → ((create cmd slot jiffies allocated).nr_valid_block_descs ≡ 0)
      × ((create cmd slot jiffies allocated).remaining_length ≡ cmd.length)
      × ((create cmd slot jiffies allocated).frame_index ≡ 0)
      × ((create cmd slot jiffies allocated).next_frame_index ≡ 0)
      × ((create cmd slot jiffies allocated).status ≡ status_ok)
      × ((create cmd slot jiffies allocated).host_copy_nr_frames ≡ 0)
      × ((create cmd slot jiffies allocated).pulled_rdma_offset ≡ cmd.pulled_rdma_offset)
      × ((create cmd slot jiffies allocated).total_length ≡ cmd.length)
unfolding create
created cmd slot jiffies allocated = (refl, refl, refl, refl, refl, refl, refl, refl)

-- The handle works and is valid, and misses exactly the frames of the message of the command.
pub record Started (cmd : PullCmd) (h : PullHandle) : Type 0 where
  pub valid : IsValid h
  pub working : h.status ≡ status_ok
  pub frames : frames_nr h ≡ (cmd.pulled_rdma_offset % 4096 + cmd.length + 4095) / 4096
  pub missing : (k : ℕ) → frame_missing h k ≡ ltb k (frames_nr h)
  pub no_copies : h.host_copy_nr_frames ≡ 0

-- A pull of a length above 0 that fits in 32 bits begins with a valid handle: it works, and misses
-- exactly the frames of the message, whatever the memory held that the allocation returned.
pub start_pull-Started :
    (alloc : ℕ → Bool) (cmd : PullCmd) (slot jiffies : ℕ) (allocated : ℕ → BlockDesc)
    → 0 < cmd.length
    → cmd.length < 2 ^ 32
    → Started cmd (start_pull alloc (create cmd slot jiffies allocated)).handle
start_pull-Started alloc cmd slot jiffies allocated a b =
    let h : PullHandle = create cmd slot jiffies allocated in
    let c = created cmd slot jiffies allocated in
    let (v, s) =
      start-Kept alloc h (create-IsWindow cmd slot jiffies allocated b) c.0 (omega (arith, a, c)) in
    let same : frames_nr (start_pull alloc h).handle ≡ frames_nr h =
      omega (arith, s.total_length, s.pulled_rdma_offset) in
    record {
      valid = v;
      working = s.status ∙ c.4;
      frames = omega (arith, same, c);
      missing = λ k.
          s.missing k
          ∙ missing_behind h k (omega (arith, c)) (omega (arith, c))
          ∙ ap (ltb k) (sym same);
      no_copies = s.host_copy_nr_frames ∙ c.5;
    }
