-- ===== src/Pull/Kept.antt =====
-- driver/linux/omx_pull.c: what a reply and the timer keep of a handle.
use xen2mx.Base.{
  ℕ, zero, suc, ◌+◌, ◌-◌, ◌≤◌, ◌<◌, ◌≡◌, refl, Bool, true, false, not, ◌&&◌, inl, inr, arith, ltb,
  Bool-cases, lt→ltb, le→ltb, eq→==, ne→==,
}
use native.Mathlib.Decide.{dec_lt}
use xen2mx.Pull.{PullHandle, append_needed_frames, first_block_done, prepare_blocks}
use xen2mx.Pull.Reply.{is_missing, drop_done_blocks, rerequest_former, progress_on_reply}
use xen2mx.Pull.Window.{IsWindow, SamePull, SamePull-refl, SamePull-trans}
use xen2mx.Pull.Append.{
  next_length, append-IsWindow, append-SamePull, append-valid, append-first_missing,
}
use xen2mx.Pull.Done.{done-IsWindow, done-SamePull, done-valid, done-none_missing}

-- Between the steps: the window holds as many blocks as there are to request, and its first block
-- misses a frame;
-- without a block, the first descriptor is clear.
pub record IsValid (h : PullHandle) : Type 0 where
  pub window : IsWindow 0 h
  pub filled : 0 < h.remaining_length → h.nr_valid_block_descs ≡ 4
  pub first_missing : 0 < h.nr_valid_block_descs → is_missing h 0 ≡ true
  pub none_missing : h.nr_valid_block_descs ≡ 0 → is_missing h 0 ≡ false

-- The fields that the retransmissions and the copies count are free.
pub counts-IsWindow :
    (n c : ℕ) (h : PullHandle)
    → IsWindow 0 h
    → IsWindow 0 (record h { already_rerequested_blocks = n; host_copy_nr_frames = c })
counts-IsWindow n c h v = record {
  few = v.few;
  covered = v.covered;
  full = v.full;
  next = v.next;
  position = v.position;
  rest = v.rest;
  bound = v.bound;
  counted = v.counted;
  none_beyond = v.none_beyond;
  numbered = v.numbered;
}

pub counts-IsValid :
    (n c : ℕ) (h : PullHandle)
    → IsValid h
    → IsValid (record h { already_rerequested_blocks = n; host_copy_nr_frames = c })
counts-IsValid n c h v = record {
  window = counts-IsWindow n c h v.window;
  filled = v.filled;
  first_missing = v.first_missing;
  none_missing = v.none_missing;
}

again-SamePull : (n : ℕ) (h : PullHandle) → SamePull h (record h { already_rerequested_blocks = n })
again-SamePull n h = record {
  slot_id = refl;
  status = refl;
  total_length = refl;
  pulled_rdma_offset = refl;
  host_copy_nr_frames = refl;
  done_status = refl;
  last_retransmit_jiffies = refl;
  missing = λ k. refl;
}

-- Enough rounds prepare all that there is room for.
pub prepare-Kept :
    (fuel : ℕ) (h : PullHandle)
    → IsWindow 0 h
    → 4 ≤ fuel + h.nr_valid_block_descs
    → (IsWindow 0 (prepare_blocks fuel h) × SamePull h (prepare_blocks fuel h))
      × (0 < (prepare_blocks fuel h).remaining_length
          → (prepare_blocks fuel h).nr_valid_block_descs ≡ 4)
      × ((0 < h.nr_valid_block_descs → is_missing h 0 ≡ true)
          → 0 < (prepare_blocks fuel h).nr_valid_block_descs
          → is_missing (prepare_blocks fuel h) 0 ≡ true)
      × ((h.nr_valid_block_descs ≡ 0 → is_missing h 0 ≡ false)
          → (prepare_blocks fuel h).nr_valid_block_descs ≡ 0
          → is_missing (prepare_blocks fuel h) 0 ≡ false)
unfolding prepare_blocks
prepare-Kept zero h v e = ((v, SamePull-refl h), λ r. omega (arith, v.few), λ m. m, λ m. m)
prepare-Kept (suc fuel) h v e = elim (dec_lt h.nr_valid_block_descs 4) [
  | yes room ↦ elim (dec_lt 0 h.remaining_length) [
    | yes more ↦
        let k : PullHandle = append_needed_frames (next_length 0 h) 0 h in
        let w : IsWindow 0 k = append-IsWindow 0 h v (omega arith) room more in
        let grown : k.nr_valid_block_descs ≡ suc h.nr_valid_block_descs =
          append-valid 0 h v (omega arith) room more in
        let ((a, b), c, d, x) = prepare-Kept fuel k w (omega (arith, grown, e)) in
        rw (lt→ltb _ _ room, ne→== h.remaining_length 0 (omega (arith, more)))
          (
            (a, SamePull-trans (append-SamePull 0 h v (omega arith) room more) b),
            c,
            λ m. d (λ z. append-first_missing 0 h v (omega arith) room more m),
            λ m. x (λ z. absurd (omega (arith, grown, z))),
          )
    | no end ↦
        rw (lt→ltb _ _ room, eq→== h.remaining_length 0 (omega (arith, end)))
          ((v, SamePull-refl h), λ r. absurd (omega (arith, r, end)), λ m. m, λ m. m)
  ]
  | no full ↦
      rw (le→ltb h.nr_valid_block_descs 4 (omega (arith, full)))
        ((v, SamePull-refl h), λ r. omega (arith, v.few, full), λ m. m, λ m. m)
]

-- Enough rounds drop every block that is done, up to one that is not.
drop-Kept :
    (n : ℕ) (h : PullHandle)
    → IsWindow 0 h
    → h.nr_valid_block_descs ≤ n
    → (IsWindow 0 (drop_done_blocks n h) × SamePull h (drop_done_blocks n h))
      × (0 < (drop_done_blocks n h).nr_valid_block_descs
          → is_missing (drop_done_blocks n h) 0 ≡ true)
      × ((h.nr_valid_block_descs ≡ 0 → is_missing h 0 ≡ false)
          → (drop_done_blocks n h).nr_valid_block_descs ≡ 0
          → is_missing (drop_done_blocks n h) 0 ≡ false)
unfolding drop_done_blocks
drop-Kept zero h v l = ((v, SamePull-refl h), λ r. absurd (omega (arith, l, r)), λ m. m)
drop-Kept (suc n) h v l = elim (dec_lt 0 h.nr_valid_block_descs) [
  | yes some_block ↦ elim (Bool-cases (is_missing h 0)) [
    | inl m ↦
        rw (m, ne→== h.nr_valid_block_descs 0 (omega (arith, some_block)))
          ((v, SamePull-refl h), λ r. m, λ z p. absurd (omega (arith, some_block, p)))
    | inr done ↦
        let w : IsWindow 0 (first_block_done h) = done-IsWindow h v some_block done in
        let fewer : (first_block_done h).nr_valid_block_descs ≡ h.nr_valid_block_descs - 1 =
          done-valid h v some_block done in
        let ((a, b), c, d) = drop-Kept n (first_block_done h) w (omega (arith, l, fewer)) in
        rw (done, ne→== h.nr_valid_block_descs 0 (omega (arith, some_block)))
          (
            (a, SamePull-trans (done-SamePull h v some_block done) b),
            c,
            λ m. d (done-none_missing h v some_block done),
          )
  ]
  | no none_left ↦
      rw (eq→== h.nr_valid_block_descs 0 (omega (arith, none_left)))
        ((v, SamePull-refl h), λ r. absurd (omega (arith, r, none_left)), λ m. m)
]

-- Requests for former blocks change nothing but their count.
rerequest-handle :
    (alloc : ℕ → Bool) (i n : ℕ) (h : PullHandle)
    → (c : ℕ) × ((rerequest_former alloc i n h).handle
        ≡ record h { already_rerequested_blocks = c })
unfolding rerequest_former
rerequest-handle alloc i zero h = (h.already_rerequested_blocks, refl)
rerequest-handle alloc i (suc n) h = elim (Bool-cases (is_missing h i)) [
  | inl m ↦ elim (Bool-cases (alloc i)) [
    | inl a ↦
        let (c, e) =
          rerequest-handle alloc (suc i) n (record h { already_rerequested_blocks = suc i }) in
        (c, rw (m, a) e)
    | inr a ↦ (h.already_rerequested_blocks, rw (m, a) refl)
  ]
  | inr m ↦ let (c, e) = rerequest-handle alloc (suc i) n h in (c, rw m e)
]

-- After a frame is taken, the progress makes the window valid again and loses nothing.
pub progress-IsValid :
    (alloc : ℕ → Bool) (idesc : ℕ) (h : PullHandle)
    → IsWindow 0 h
    → 0 < h.nr_valid_block_descs
    → (0 < h.remaining_length → h.nr_valid_block_descs ≡ 4)
    → IsValid (progress_on_reply alloc idesc h).handle
      × SamePull h (progress_on_reply alloc idesc h).handle
unfolding progress_on_reply
progress-IsValid alloc idesc h v some_block filled = elim (Bool-cases (is_missing h 0)) [
  | inl m ↦
      let valid : IsValid h = record {
        window = v;
        filled = filled;
        first_missing = λ z. m;
        none_missing = λ z. absurd (omega (arith, some_block, z));
      } in
      elim (Bool-cases
        (not (is_missing h idesc) && (ltb 0 idesc && ltb h.already_rerequested_blocks idesc))) [
          | inl e ↦
              let (c, p) =
                rerequest-handle alloc h.already_rerequested_blocks
                  (idesc - h.already_rerequested_blocks) h in
              rw (m, e, p) (counts-IsValid c h.host_copy_nr_frames h valid, again-SamePull c h)
          | inr e ↦ rw (m, e) (valid, SamePull-refl h)
        ]
  | inr done ↦
      let left : PullHandle = first_block_done h in
      let w : IsWindow 0 left = done-IsWindow h v some_block done in
      let ((a, b), c, x) =
        drop-Kept 3 left w (omega (arith, done-valid h v some_block done, v.few)) in
      let ((d, e), f, k, y) = prepare-Kept 4 (drop_done_blocks 3 left) a (omega arith) in
      rw done (
        record {
          window = d;
          filled = f;
          first_missing = k c;
          none_missing = y (x (done-none_missing h v some_block done));
        },
        SamePull-trans (SamePull-trans (done-SamePull h v some_block done) b) e,
      )
]
