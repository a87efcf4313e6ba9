-- ===== src/Pull/Laws.antt =====
-- driver/linux/omx_pull.c, omx_recv_pull_reply and omx_ioctl_pull on a handle: which frames are
-- taken, and what is requested.
use xen2mx.Base.{
  ℕ, ◌+◌, ◌-◌, ◌/◌, ◌%◌, ◌^◌, ◌≤◌, ◌<◌, ◌≡◌, ◌≢◌, ◌⊎◌, inl, inr, refl, sym, ◌∙◌, Bool, true, false,
  arith, leb, ◌==◌, is_set, [], subst, add32, Bool-cases, ==→eq, ==→ne, leb→gt, leb→le,
}
use xen2mx.Pull.{PullHandle, status_ok, PullProgress}
use xen2mx.Pull.Reply.{
  Verdict, closing, bad_wraparound, bad_seqnum, duplicate, accepted, seqnum_offset, frame_at,
  take_frame, progress_on_reply, recv_pull_reply, recv_verdict, answer,
}
use xen2mx.Pull.Window.{frames_nr, IsWindow, frame_missing, missing_within}
use xen2mx.Pull.Take.{take-IsWindow, take-missing_self, take-missing_other}
use xen2mx.Pull.Kept.{IsValid, progress-IsValid}

-- What a reply that is taken does: its frame was requested and missing, and it alone is no longer
-- missing; one copy more is pending.
pub record Taken (h h' : PullHandle) (frame : ℕ) : Type 0 where
  pub valid : IsValid h'
  pub requested : (h.frame_index ≤ frame) × (frame < h.next_frame_index)
  pub was_missing : frame_missing h frame ≡ true
  pub received : frame_missing h' frame ≡ false
  pub others : (k : ℕ) → k ≢ frame → frame_missing h' k ≡ frame_missing h k
  pub total : frames_nr h' ≡ frames_nr h
  pub status : h'.status ≡ h.status
  pub copies : h'.host_copy_nr_frames ≡ add32 h.host_copy_nr_frames 1

accept-Taken :
    (alloc : ℕ → Bool) (off : ℕ) (h : PullHandle)
    → IsValid h
    → off < h.nr_requested_frames
    → is_set (off % 8) (h.block_desc (off / 8)).frames_missing_bitmap ≡ true
    → Taken h (progress_on_reply alloc (off / 8) (take_frame off h)).handle (h.frame_index + off)
accept-Taken alloc off h v asked set =
    let w : IsWindow 0 (take_frame off h) = take-IsWindow off h v.window asked set in
    let (a, s) =
      progress-IsValid alloc (off / 8) (take_frame off h) w (omega (arith, v.window.covered, asked))
        v.filled in
    let (was, gone) = take-missing_self off h v.window asked set in
    record {
      valid = a;
      requested = (omega arith, omega (arith, v.window.next, asked));
      was_missing = was;
      received = s.missing (h.frame_index + off) ∙ gone;
      others = λ k e. s.missing k ∙ take-missing_other off h v.window asked set k e;
      total = omega (arith, s.total_length, s.pulled_rdma_offset);
      status = s.status;
      copies = s.host_copy_nr_frames;
    }

offset-frame :
    (seqnum frame : ℕ) (h : PullHandle)
    → seqnum < 256
    → seqnum ≡ frame % 256
    → h.frame_index ≤ frame
    → frame < h.frame_index + 256
    → frame < 2 ^ 32
    → h.frame_index + seqnum_offset seqnum h ≡ frame
offset-frame seqnum frame h a b c d e = omega arith

not_missing :
    (off : ℕ) (h : PullHandle)
    → IsValid h
    → off < h.nr_requested_frames
    → is_set (off % 8) (h.block_desc (off / 8)).frames_missing_bitmap ≡ false
    → frame_missing h (h.frame_index + off) ≡ false
not_missing off h v asked c =
    let p : h.frame_index + off - h.frame_index ≡ off = omega arith in
    missing_within h (h.frame_index + off) (omega arith) (omega (arith, v.window.next, asked))
    ∙ rw p c

-- What the checks decide.
recv_verdict_lem :
    (seqnum offset : ℕ) (h : PullHandle)
    → IsValid h
    → h.status ≡ status_ok
    → seqnum < 256
    → (recv_verdict seqnum offset h ≡ accepted
        × (seqnum ≡ frame_at offset % 256)
        × (frame_at offset ≡ h.frame_index + seqnum_offset seqnum h)
        × (seqnum_offset seqnum h < h.nr_requested_frames)
        × (is_set
              (seqnum_offset seqnum h % 8)
              (h.block_desc (seqnum_offset seqnum h / 8)).frames_missing_bitmap
            ≡ true))
      ⊎ (recv_verdict seqnum offset h ≢ accepted
          × (seqnum ≡ frame_at offset % 256
              → h.frame_index ≤ frame_at offset
              → frame_at offset < h.next_frame_index
              → frame_missing h (frame_at offset) ≡ false))
unfolding recv_verdict
recv_verdict_lem seqnum offset h v working small =
    let off : ℕ = seqnum_offset seqnum h in
    let frame : ℕ = frame_at offset in
    let w : IsWindow 0 h = v.window in
    let place : seqnum ≡ frame % 256
        → h.frame_index ≤ frame
        → frame < h.next_frame_index
        → h.frame_index + off ≡ frame =
      λ a b c.
        offset-frame seqnum frame h small a b (omega (arith, c, w.next, w.covered, w.few))
          (omega (arith, c, w.bound)) in
    elim (Bool-cases (frame == add32 h.frame_index off)) [
      | inr a ↦
          rw (working, a)
            (inr (
              (λ e. ground arith),
              λ p q r. absurd (==→ne _ _ a (omega (arith, place p q r, r, w.bound))),
            ))
      | inl a ↦ elim (Bool-cases (leb h.nr_requested_frames off)) [
        | inl b ↦
            rw (working, a, b)
              (inr (
                (λ e. ground arith),
                λ p q r. absurd (omega (arith, place p q r, r, w.next, leb→le _ _ b)),
              ))
        | inr b ↦
            let asked : off < h.nr_requested_frames = leb→gt _ _ b in
            let here : frame ≡ h.frame_index + off =
              omega (arith, ==→eq _ _ a, asked, w.next, w.bound) in
            elim (Bool-cases (is_set (off % 8) (h.block_desc (off / 8)).frames_missing_bitmap)) [
              | inr c ↦
                  rw (working, a, b, c)
                    (inr ((λ e. ground arith), λ p q r. rw here (not_missing off h v asked c)))
              | inl c ↦
                  rw (working, a, b, c) (inl (refl, omega (arith, here, small), here, asked, refl))
            ]
      ]
    ]

answer-ne :
    (t : Verdict) (h : PullHandle) (p : PullProgress)
    → t ≢ accepted
    → answer t h p ≡ record { handle = h; requests = [] }
answer-ne closing h p e = refl
answer-ne bad_wraparound h p e = refl
answer-ne bad_seqnum h p e = refl
answer-ne duplicate h p e = refl
answer-ne accepted h p e = absurd (e refl)

-- On a valid handle whose status is OK, a reply whose frame number has 8 bits is taken, for a frame
-- that was requested and was missing, or it changes nothing, asks for nothing, and is not the reply
-- for a frame that was requested and is missing.
pub recv_pull_reply_lem :
    (alloc : ℕ → Bool) (seqnum offset : ℕ) (h : PullHandle)
    → IsValid h
    → h.status ≡ status_ok
    → seqnum < 256
    → ((recv_pull_reply alloc seqnum offset h).verdict ≡ accepted
        × (seqnum ≡ frame_at offset % 256)
        × Taken h (recv_pull_reply alloc seqnum offset h).progress.handle (frame_at offset))
      ⊎ ((recv_pull_reply alloc seqnum offset h).verdict ≢ accepted
          × ((recv_pull_reply alloc seqnum offset h).progress
              ≡ record { handle = h; requests = [] })
          × (seqnum ≡ frame_at offset % 256
              → h.frame_index ≤ frame_at offset
              → frame_at offset < h.next_frame_index
              → frame_missing h (frame_at offset) ≡ false))
unfolding recv_pull_reply
recv_pull_reply_lem alloc seqnum offset h v working small =
    let off : ℕ = seqnum_offset seqnum h in
    let p : PullProgress = progress_on_reply alloc (off / 8) (take_frame off h) in
    elim (recv_verdict_lem seqnum offset h v working small) [
      | inl (t, same, here, asked, set) ↦ inl (
        t,
        same,
        subst (λ (r : Verdict). Taken h (answer r h p).handle (frame_at offset)) (sym t)
            (subst (Taken h p.handle) (sym here) (accept-Taken alloc off h v asked set)),
      )
      | inr (t, other) ↦ inr (t, answer-ne (recv_verdict seqnum offset h) h p t, other)
    ]
