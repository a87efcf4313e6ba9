-- ===== src/Pull/Runs.antt =====
-- driver/linux/omx_pull.c: a pull from its start to its completion. Replies, the ends of their
-- copies and timers come in any order and number; a reply may be for any frame, or for none.
use xen2mx.Base.{
  member, ℕ, ◌+◌, ◌/◌, ◌%◌, ◌<◌, ◌≡◌, ◌≢◌, ◌⊎◌, inl, inr, refl, sym, ap, subst, ◌∙◌, Bool, true,
  false, not, ◌&&◌, arith, ltb, List, [], ◌∷◌, some, Distinct, NotIn, Bool-cases, sub32, eq→==,
  ne→==,
}
use native.Mathlib.Decide.{ℕ_discrete}
use xen2mx.EventQueue.Wait.{time_after64}
use xen2mx.Pull.{
  PullHandle, PullCmd, PullRequest, status_ok, status_timer_must_exit, mark_completed,
}
use xen2mx.Pull.Reply.{accepted, frame_at, recv_pull_reply, is_missing}
use xen2mx.Pull.Steps.{going, notified, bug, copy_done, timeout_handler, progress_on_timeout}
use xen2mx.Pull.Window.{frames_nr, frame_missing}
use xen2mx.Pull.Kept.{IsValid, counts-IsValid}
use xen2mx.Pull.Laws.{Taken, recv_pull_reply_lem}
use xen2mx.Pull.Start.{Started}

-- The frames taken so far, the last one first, and the handle. A copy ends for each reply taken.
pub data Reached (start : PullHandle) : List ℕ → PullHandle → Type 0 where
  started : Reached start [] start
  taken :
      {frames : List ℕ} {h : PullHandle} (alloc : ℕ → Bool) (seqnum offset : ℕ)
      → Reached start frames h
      → seqnum < 256
      → (recv_pull_reply alloc seqnum offset h).verdict ≡ accepted
      → Reached start
          (frame_at offset ∷ frames)
          (recv_pull_reply alloc seqnum offset h).progress.handle
  dropped :
      {frames : List ℕ} {h : PullHandle} (alloc : ℕ → Bool) (seqnum offset : ℕ)
      → Reached start frames h
      → seqnum < 256
      → (recv_pull_reply alloc seqnum offset h).verdict ≢ accepted
      → Reached start frames (recv_pull_reply alloc seqnum offset h).progress.handle
  copied :
      {frames : List ℕ} {h h' : PullHandle} (requests : List PullRequest)
      → Reached start frames h
      → 0 < h.host_copy_nr_frames
      → copy_done true h ≡ going requests h'
      → Reached start frames h'
  timed :
      {frames : List ℕ} {h h' : PullHandle} (alloc : ℕ → Bool) (jiffies : ℕ)
      (requests : List PullRequest)
      → Reached start frames h
      → timeout_handler alloc jiffies h ≡ going requests h'
      → Reached start frames h'

-- The frames taken are frames of the message, each once, and those not taken are missing.
pub record Accounted (total : ℕ) (frames : List ℕ) (h : PullHandle) : Type 0 where
  pub valid : IsValid h
  pub working : h.status ≡ status_ok
  pub nr : frames_nr h ≡ total
  pub once : Distinct frames
  pub missing : (k : ℕ) → frame_missing h k ≡ (ltb k total && not (member k frames))

member-NotIn : (k : ℕ) (js : List ℕ) → member k js ≡ false → NotIn k js
member-NotIn k [] h = tt
member-NotIn k (j ∷ js) h = elim (ℕ_discrete k j) [
  | yes p ↦ absurd (ground (arith, h, eq→== k j p))
  | no q ↦ (q, member-NotIn k js (ground (arith, h, ne→== k j q)))
]

and_not-right : (x y : Bool) → (x && not y) ≡ true → y ≡ false
and_not-right true true h = absurd (ground arith)
and_not-right true false h = refl
and_not-right false y h = absurd (ground arith)

and-true : (x : Bool) → (x && not false) ≡ x
and-true true = refl
and-true false = refl

and_not-true : (x : Bool) → (x && not true) ≡ false
and_not-true true = refl
and_not-true false = refl

-- A taken frame is accounted for.
taken-Accounted :
    (total frame : ℕ) (frames : List ℕ) (h h' : PullHandle)
    → Accounted total frames h
    → Taken h h' frame
    → Accounted total (frame ∷ frames) h'
taken-Accounted total frame frames h h' a t = record {
  valid = t.valid;
  working = t.status ∙ a.working;
  nr = t.total ∙ a.nr;
  once = (
    member-NotIn frame frames
        (and_not-right (ltb frame total) _ (sym (a.missing frame) ∙ t.was_missing)),
    a.once,
  );
  missing = λ k. elim (ℕ_discrete k frame) [
    | yes p ↦ rw (p, eq→== frame frame refl) (t.received ∙ sym (and_not-true (ltb frame total)))
    | no q ↦ rw (ne→== k frame q) (t.others k q ∙ a.missing k)
  ];
}

-- The end of a copy, on a handle that works.
pub copy_done-cases :
    (h : PullHandle)
    → h.status ≡ status_ok
    → (copy_done true h
          ≡ notified (record h {
            host_copy_nr_frames = sub32 h.host_copy_nr_frames 1;
            status = status_timer_must_exit;
            done_status = some 0;
          })
        × (h.remaining_length ≡ 0)
        × (h.nr_missing_frames ≡ 0)
        × (sub32 h.host_copy_nr_frames 1 ≡ 0))
      ⊎ (copy_done true h
            ≡ going [] (record h { host_copy_nr_frames = sub32 h.host_copy_nr_frames 1 })
          × ¬ (
              (h.remaining_length ≡ 0)
              × (h.nr_missing_frames ≡ 0)
              × (sub32 h.host_copy_nr_frames 1 ≡ 0)))
unfolding copy_done mark_completed
copy_done-cases h w = elim (ℕ_discrete h.remaining_length 0) [
  | no q ↦ rw (w, ne→== _ _ q) (inr (refl, λ e. q e.0))
  | yes p ↦ elim (ℕ_discrete h.nr_missing_frames 0) [
    | no q ↦ rw (w, p, ne→== _ _ q) (inr (refl, λ e. q e.1))
    | yes q ↦ elim (ℕ_discrete (sub32 h.host_copy_nr_frames 1) 0) [
      | no r ↦ rw (w, p, q, ne→== _ _ r) (inr (refl, λ e. r e.2))
      | yes r ↦ rw (w, p, q, eq→== _ _ r) (inl (refl, refl, refl, r))
    ]
  ]
]

-- The timer on a handle that works gives up, stops the kernel, or goes on without a change but to
-- a count.
timer-cases :
    (alloc : ℕ → Bool) (jiffies : ℕ) (h : PullHandle)
    → h.status ≡ status_ok
    → ((h' : PullHandle) × (timeout_handler alloc jiffies h ≡ notified h'))
      ⊎ ((timeout_handler alloc jiffies h ≡ bug)
          ⊎ ((requests : List PullRequest) × (c : ℕ) × (timeout_handler alloc jiffies h
                ≡ going requests (record h { already_rerequested_blocks = c }))))
unfolding timeout_handler mark_completed progress_on_timeout
timer-cases alloc jiffies h w = elim (Bool-cases (time_after64 jiffies h.last_retransmit_jiffies)) [
  | inl late ↦ rw (w, late) (inl (_, refl))
  | inr soon ↦ elim (Bool-cases (is_missing h 0)) [
    | inr none_missing ↦ rw (w, soon, none_missing) (inr (inl refl))
    | inl m ↦ elim (Bool-cases (alloc 0)) [
      | inl a ↦ rw (w, soon, m, a) (inr (inr (_, 0, refl)))
      | inr a ↦ rw (w, soon, m, a) (inr (inr ([], h.already_rerequested_blocks, refl)))
    ]
  ]
]

going-handle : {r s : List PullRequest} {h g : PullHandle} → going r h ≡ going s g → h ≡ g
going-handle e = ground arith

pub notified-ne-going :
    {A : Type 0} {s : List PullRequest} {h g : PullHandle} → notified h ≡ going s g → A
notified-ne-going e = absurd (ground arith)

-- A change to a count alone.
counts-Accounted :
    (n c total : ℕ) (frames : List ℕ) (h : PullHandle)
    → Accounted total frames h
    → Accounted total frames (record h { already_rerequested_blocks = n; host_copy_nr_frames = c })
counts-Accounted n c total frames h a = record {
  valid = counts-IsValid n c h a.valid;
  working = a.working;
  nr = a.nr;
  once = a.once;
  missing = a.missing;
}

timed-Accounted :
    (total : ℕ) (frames : List ℕ) (alloc : ℕ → Bool) (jiffies : ℕ) (h h' : PullHandle)
    (requests : List PullRequest)
    → Accounted total frames h
    → timeout_handler alloc jiffies h ≡ going requests h'
    → Accounted total frames h'
timed-Accounted total frames alloc jiffies h h' requests a e =
    elim (timer-cases alloc jiffies h a.working) [
      | inl (g, p) ↦ notified-ne-going (sym p ∙ e)
      | inr (inl p) ↦ absurd (ground (arith, p, e))
      | inr (inr (r, c, p)) ↦
          subst (Accounted total frames) (going-handle (sym p ∙ e))
            (counts-Accounted c h.host_copy_nr_frames total frames h a)
    ]

copied-Accounted :
    (total : ℕ) (frames : List ℕ) (h h' : PullHandle) (requests : List PullRequest)
    → Accounted total frames h
    → copy_done true h ≡ going requests h'
    → Accounted total frames h'
copied-Accounted total frames h h' requests a e = elim (copy_done-cases h a.working) [
  | inl (p, q, m, n) ↦ notified-ne-going (sym p ∙ e)
  | inr (p, q) ↦ subst (Accounted total frames) (going-handle (sym p ∙ e)) (
      counts-Accounted h.already_rerequested_blocks (sub32 h.host_copy_nr_frames 1) total frames h
        a)
]

-- From the start of a pull, whatever replies, copies and timers come, the handle stays valid, each
-- frame is taken at most once, and the frames of the message that were not taken are those that
-- are missing.
pub Reached-Accounted :
    (cmd : PullCmd) (start h : PullHandle) (frames : List ℕ)
    → Started cmd start
    → Reached start frames h
    → Accounted ((cmd.pulled_rdma_offset % 4096 + cmd.length + 4095) / 4096) frames h
Reached-Accounted cmd start h frames s started = record {
  valid = s.valid;
  working = s.working;
  nr = s.frames;
  once = tt;
  missing = λ k. s.missing k ∙ ap (ltb k) s.frames ∙ sym (and-true _);
}
Reached-Accounted cmd start h frames s (taken {frames = js} {h = g} alloc seqnum offset r small e) =
    let a = Reached-Accounted cmd start g js s r in
    elim (recv_pull_reply_lem alloc seqnum offset g a.valid a.working small) [
      | inl (p, q, t) ↦ taken-Accounted _ (frame_at offset) js g _ a t
      | inr (p, q, t) ↦ absurd (p e)
    ]
Reached-Accounted cmd start h frames s (dropped {h = g} alloc seqnum offset r small e) =
    let a = Reached-Accounted cmd start g frames s r in
    elim (recv_pull_reply_lem alloc seqnum offset g a.valid a.working small) [
      | inl (p, q, t) ↦ absurd (e p)
      | inr (p, q, t) ↦ rw q a
    ]
Reached-Accounted cmd start h frames s (copied {h = g} requests r some_copy e) =
    copied-Accounted _ frames g h requests (Reached-Accounted cmd start g frames s r) e
Reached-Accounted cmd start h frames s (timed {h = g} alloc jiffies requests r e) =
    timed-Accounted _ frames alloc jiffies g h requests (Reached-Accounted cmd start g frames s r) e
