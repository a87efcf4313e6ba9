-- ===== src/Pull/Complete.antt =====
-- driver/linux/omx_pull.c: when a pull is complete.
use xen2mx.Base.{
  member, ℕ, ◌+◌, ◌-◌, ◌/◌, ◌%◌, ◌<◌, ◌≡◌, inl, inr, refl, sym, ap, ◌∙◌, Bool, true, false, not,
  ◌&&◌, min, arith, ltb, List, some, Distinct, is_set, nonzero-some, is_set-zero, lt→ltb, le→ltb,
}
use native.Mathlib.Decide.{dec_lt}
use xen2mx.Pull.{PullHandle, PullCmd, status_ok, status_timer_must_exit, mark_completed}
use xen2mx.Pull.Steps.{notified, copy_done, pull_done_success, pull_done_aborted}
use xen2mx.Pull.Window.{
  frames_nr, missing_total, frame_missing, missing_before, missing_within, missing_behind,
  missing_total-zero,
}
use xen2mx.Pull.Kept.{IsValid}
use xen2mx.Pull.Start.{Started}
use xen2mx.Pull.Runs.{Reached, Reached-Accounted, copy_done-cases, notified-ne-going}

-- With nothing left to request or to receive, no frame is missing.
complete_none :
    (h : PullHandle)
    → IsValid h
    → h.remaining_length ≡ 0
    → h.nr_missing_frames ≡ 0
    → (k : ℕ) → frame_missing h k ≡ false
complete_none h v r m k = elim (dec_lt k h.frame_index) [
  | yes before ↦ missing_before h k before
  | no a ↦ elim (dec_lt k h.next_frame_index) [
    | yes b ↦
        missing_within h k (omega (arith, a)) b
        ∙ is_set-zero ((k - h.frame_index) % 8)
            (h.block_desc ((k - h.frame_index) / 8)).frames_missing_bitmap
            (missing_total-zero h.nr_valid_block_descs ((k - h.frame_index) / 8) h.block_desc
              (sym v.window.counted ∙ m) (omega (arith, a, b, v.window.next, v.window.covered)))
    | no b ↦
        missing_behind h k (omega (arith, a)) (omega (arith, b))
        ∙ le→ltb k (frames_nr h) (omega (arith, b, r, v.window.rest))
  ]
]

-- A valid window with a block misses a frame that was requested.
pub first-missing :
    (h : PullHandle)
    → IsValid h
    → 0 < h.nr_valid_block_descs
    → (k : ℕ) × (k < h.next_frame_index) × (frame_missing h k ≡ true)
first-missing h v some_block =
    let (j, s) = nonzero-some (h.block_desc 0).frames_missing_bitmap (v.first_missing some_block) in
    elim (dec_lt j (min 8 h.nr_requested_frames)) [
      | yes l ↦
          let p : (h.frame_index + j - h.frame_index) / 8 ≡ 0 = omega (arith, l) in
          let q : (h.frame_index + j - h.frame_index) % 8 ≡ j = omega (arith, l) in
          (
            h.frame_index + j,
            omega (arith, l, v.window.next),
            missing_within h (h.frame_index + j) (omega arith) (omega (arith, l, v.window.next))
                ∙ rw (p, q) s,
          )
      | no l ↦
          let none_set : is_set j (h.block_desc 0).frames_missing_bitmap ≡ false =
            v.window.none_beyond 0 j some_block (λ t. omega (arith, t, l)) in
          absurd (ground (arith, none_set, s))
    ]

-- Where no frame is missing, no block is left.
pub complete-no_block :
    (h : PullHandle)
    → IsValid h
    → ((k : ℕ) → frame_missing h k ≡ false)
    → h.nr_valid_block_descs ≡ 0
complete-no_block h v e = elim (dec_lt 0 h.nr_valid_block_descs) [
  | yes some_block ↦ let (k, l, t) = first-missing h v some_block in absurd (ground (arith, e k, t))
  | no empty ↦ omega (arith, empty)
]

-- Where no frame is missing, nothing is left to request or to receive.
none_complete :
    (h : PullHandle)
    → IsValid h
    → ((k : ℕ) → frame_missing h k ≡ false)
    → (h.remaining_length ≡ 0) × (h.nr_missing_frames ≡ 0)
none_complete h v e =
    let z : h.nr_valid_block_descs ≡ 0 = complete-no_block h v e in
    (
      (elim (dec_lt 0 h.remaining_length) [
        | yes r ↦ absurd (omega (arith, v.filled r, z))
        | no r ↦ omega (arith, r)
      ]),
      v.window.counted ∙ ap (λ n. missing_total n h.block_desc) z,
    )

and-left : (x y : Bool) → x ≡ true → (x && not y) ≡ false → y ≡ true
and-left true true h e = refl
and-left true false h e = absurd (ground arith)
and-left false y h e = absurd (ground arith)

-- A copy that failed ends a pull that works.
copy_done-failed :
    (h : PullHandle)
    → h.status ≡ status_ok
    → copy_done false h
      ≡ notified
          (record h { status = status_timer_must_exit; done_status = some pull_done_aborted })
unfolding copy_done mark_completed
copy_done-failed h w = rw w refl

notified-handle : {h g : PullHandle} → notified h ≡ notified g → h ≡ g
notified-handle e = ground arith

-- What the end of a copy reports, and of which frames: success where the pages were filled, and
-- every frame of the message has been taken then; aborted where they were not.
abbrev pub IsReported : ℕ → List ℕ → Bool → PullHandle → Type 0
IsReported total frames true h =
    ((k : ℕ) → k < total → member k frames ≡ true) × (h.done_status ≡ some pull_done_success)
IsReported total frames false h = h.done_status ≡ some pull_done_aborted

-- From the start of a pull, whatever came, when the end of a copy notifies the completion: where
-- the pages were filled, every frame of the message has been taken, each once, and success is
-- reported; where they could not be filled, the pull is reported as aborted. Either way the timer
-- is told to exit. (A completion by the timer is not the end of a copy.)
pub copy_done_complete :
    (filled : Bool) (cmd : PullCmd) (start h h' : PullHandle) (frames : List ℕ)
    → Started cmd start
    → Reached start frames h
    → copy_done filled h ≡ notified h'
    → IsReported ((cmd.pulled_rdma_offset % 4096 + cmd.length + 4095) / 4096) frames filled h'
      × Distinct frames
      × (h'.status ≡ status_timer_must_exit)
copy_done_complete false cmd start h h' frames s r e =
    let a = Reached-Accounted cmd start h frames s r in
    let failed = sym e ∙ copy_done-failed h a.working in
    (
      ap (λ (g : PullHandle). g.done_status) (notified-handle failed),
      a.once,
      ap (λ (g : PullHandle). g.status) (notified-handle failed),
    )
copy_done_complete true cmd start h h' frames s r e =
    let a = Reached-Accounted cmd start h frames s r in
    elim (copy_done-cases h a.working) [
      | inl (p, q, m, n) ↦ (
        (
          (λ k l.
              and-left (ltb k _) (member k frames) (lt→ltb k _ l)
                (sym (a.missing k) ∙ complete_none h a.valid q m k)),
          ap (λ (g : PullHandle). g.done_status) (notified-handle (sym e ∙ p)),
        ),
        a.once,
        ap (λ (g : PullHandle). g.status) (notified-handle (sym e ∙ p)),
      )
      | inr (p, q) ↦ notified-ne-going (sym e ∙ p)
    ]

pub none_left :
    (total k : ℕ) (frames : List ℕ)
    → (k < total → member k frames ≡ true)
    → (ltb k total && not (member k frames)) ≡ false
none_left total k frames e = elim (dec_lt k total) [
  | yes l ↦ rw (lt→ltb k total l, e l) refl
  | no l ↦ rw (le→ltb k total (omega (arith, l))) refl
]

-- From the start of a pull, whatever came: once every frame of the message has been taken, the end
-- of the last copy notifies the completion.
pub copy_done-notifies :
    (cmd : PullCmd) (start h : PullHandle) (frames : List ℕ)
    → Started cmd start
    → Reached start frames h
    → ((k : ℕ)
        → k < (cmd.pulled_rdma_offset % 4096 + cmd.length + 4095) / 4096
        → member k frames ≡ true)
    → h.host_copy_nr_frames ≡ 1
    → (h' : PullHandle) × (copy_done true h ≡ notified h') × (h'.done_status ≡ some 0)
copy_done-notifies cmd start h frames s r all last =
    let a = Reached-Accounted cmd start h frames s r in
    let (rem, mis) = none_complete h a.valid (λ k. a.missing k ∙ none_left _ k frames (all k)) in
    elim (copy_done-cases h a.working) [
      | inl (p, q, m, n) ↦ (_, p, refl)
      | inr (p, q) ↦ absurd (q (rem, mis, omega (arith, last)))
    ]
