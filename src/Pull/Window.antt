-- ===== src/Pull/Window.antt =====
-- driver/linux/omx_pull.c: when the descriptors and the counts of a pull handle agree, and which
-- frames of the message are still to come.
use xen2mx.Base.{
  ℕ, zero, suc, ◌+◌, ◌-◌, ◌*◌, ◌/◌, ◌%◌, ◌^◌, ◌≤◌, ◌<◌, ◌≡◌, refl, sym, ap, ap₂, ◌∙◌, min, Bool,
  true, false, arith, ltb, if◌then◌else◌, is_set, popcount, clear, update, update_self, update_ne,
  popcount-clear, lt→ltb, le→ltb,
}
use native.Mathlib.Decide.{dec_lt}
use xen2mx.Pull.{BlockDesc, PullHandle, reply_length_max}

-- Where the message begins in its first frame, and the number of its frames.
abbrev pub in_frame : PullHandle → ℕ
in_frame h = h.pulled_rdma_offset % reply_length_max

abbrev pub frames_nr : PullHandle → ℕ
frames_nr h = (in_frame h + h.total_length + 4095) / 4096

-- The frames that the first n descriptors miss.
abbrev pub missing_total : ℕ → (ℕ → BlockDesc) → ℕ
missing_total zero descs = 0
missing_total (suc n) descs = missing_total n descs + popcount (descs n).frames_missing_bitmap

-- The counts and the descriptors agree, where the next block begins at `off` in its first frame:
-- the valid blocks follow each other in the message without a gap, each of 8 frames but the last.
pub record IsWindow (off : ℕ) (h : PullHandle) : Type 0 where
  pub few : h.nr_valid_block_descs ≤ 4
  pub covered :
      (h.nr_requested_frames ≤ 8 * h.nr_valid_block_descs)
      × (8 * h.nr_valid_block_descs < h.nr_requested_frames + 8)
  pub full : 0 < h.remaining_length → h.nr_requested_frames ≡ 8 * h.nr_valid_block_descs
  pub next : h.frame_index + h.nr_requested_frames ≡ h.next_frame_index
  pub position :
      0 < h.remaining_length
      → 4096 * h.next_frame_index + off + h.remaining_length ≡ in_frame h + h.total_length
  pub rest : h.next_frame_index + (off + h.remaining_length + 4095) / 4096 ≡ frames_nr h
  pub bound :
      (h.next_frame_index + h.remaining_length ≤ h.total_length)
      × (h.nr_missing_frames + h.remaining_length ≤ h.total_length)
      × (h.total_length < 2 ^ 32)
  pub counted : h.nr_missing_frames ≡ missing_total h.nr_valid_block_descs h.block_desc
  pub none_beyond :
      (i j : ℕ)
      → i < h.nr_valid_block_descs
      → (j < 8 → h.nr_requested_frames ≤ 8 * i + j)
      → is_set j (h.block_desc i).frames_missing_bitmap ≡ false
  pub numbered :
      (i : ℕ)
      → i < h.nr_valid_block_descs
      → ((h.block_desc i).frame_index ≡ h.frame_index + 8 * i)
        × (0 < (h.block_desc i).block_length)
        × (4096 * (h.block_desc i).frame_index
              + (h.block_desc i).first_frame_offset
              + (h.block_desc i).block_length
            ≡ min (4096 * (h.frame_index + 8 * i + 8)) (in_frame h + h.total_length))

-- Whether a frame of the message has not been received.
abbrev pub frame_missing : PullHandle → ℕ → Bool
frame_missing h k =
    if ltb k h.frame_index
    then false
    else if ltb k h.next_frame_index
    then is_set ((k - h.frame_index) % 8)
        (h.block_desc ((k - h.frame_index) / 8)).frames_missing_bitmap
    else ltb k (frames_nr h)

pub missing_before : (h : PullHandle) (k : ℕ) → k < h.frame_index → frame_missing h k ≡ false
missing_before h k a = rw (lt→ltb k h.frame_index a) refl

pub missing_within :
    (h : PullHandle) (k : ℕ)
    → h.frame_index ≤ k
    → k < h.next_frame_index
    → frame_missing h k
      ≡ is_set
          ((k - h.frame_index) % 8)
          (h.block_desc ((k - h.frame_index) / 8)).frames_missing_bitmap
missing_within h k a b = rw (le→ltb k h.frame_index a, lt→ltb k h.next_frame_index b) refl

pub missing_behind :
    (h : PullHandle) (k : ℕ)
    → h.frame_index ≤ k
    → h.next_frame_index ≤ k
    → frame_missing h k ≡ ltb k (frames_nr h)
missing_behind h k a b = rw (le→ltb k h.frame_index a, le→ltb k h.next_frame_index b) refl

-- The same pull, with the same frames missing.
pub record SamePull (h h' : PullHandle) : Type 0 where
  pub slot_id : h'.slot_id ≡ h.slot_id
  pub status : h'.status ≡ h.status
  pub total_length : h'.total_length ≡ h.total_length
  pub pulled_rdma_offset : h'.pulled_rdma_offset ≡ h.pulled_rdma_offset
  pub host_copy_nr_frames : h'.host_copy_nr_frames ≡ h.host_copy_nr_frames
  pub done_status : h'.done_status ≡ h.done_status
  pub last_retransmit_jiffies : h'.last_retransmit_jiffies ≡ h.last_retransmit_jiffies
  pub missing : (k : ℕ) → frame_missing h' k ≡ frame_missing h k

pub SamePull-refl : (h : PullHandle) → SamePull h h
SamePull-refl h = record {
  slot_id = refl;
  status = refl;
  total_length = refl;
  pulled_rdma_offset = refl;
  host_copy_nr_frames = refl;
  done_status = refl;
  last_retransmit_jiffies = refl;
  missing = λ k. refl;
}

pub SamePull-trans : {h g f : PullHandle} → SamePull h g → SamePull g f → SamePull h f
SamePull-trans a b = record {
  slot_id = b.slot_id ∙ a.slot_id;
  status = b.status ∙ a.status;
  total_length = b.total_length ∙ a.total_length;
  pulled_rdma_offset = b.pulled_rdma_offset ∙ a.pulled_rdma_offset;
  host_copy_nr_frames = b.host_copy_nr_frames ∙ a.host_copy_nr_frames;
  done_status = b.done_status ∙ a.done_status;
  last_retransmit_jiffies = b.last_retransmit_jiffies ∙ a.last_retransmit_jiffies;
  missing = λ k. b.missing k ∙ a.missing k;
}

-- Descriptors that agree below n miss as many frames.
pub missing_total-same :
    (n : ℕ) (d e : ℕ → BlockDesc)
    → ((i : ℕ) → i < n → d i ≡ e i)
    → missing_total n d ≡ missing_total n e
missing_total-same zero d e h = refl
missing_total-same (suc n) d e h =
    ap₂ ◌+◌ (missing_total-same n d e (λ i l. h i (omega arith)))
      (ap (λ (t : BlockDesc). popcount t.frames_missing_bitmap) (h n (omega arith)))

pub missing_total_first :
    (n : ℕ) (d : ℕ → BlockDesc)
    → missing_total (suc n) d
      ≡ popcount (d 0).frames_missing_bitmap + missing_total n (λ i. d (suc i))
missing_total_first zero d = omega arith
missing_total_first (suc n) d = omega (arith, missing_total_first n d)

-- Taking a missing frame out of one block takes one off the total.
pub missing_total-clear :
    (n i j : ℕ) (d : ℕ → BlockDesc)
    → i < n
    → is_set j (d i).frames_missing_bitmap ≡ true
    → missing_total n d
      ≡ suc (
          missing_total n (
            update d i
              (record (d i) { frames_missing_bitmap = clear j (d i).frames_missing_bitmap })))
missing_total-clear zero i j d h s = absurd (omega arith)
missing_total-clear (suc n) i j d h s =
    let e : BlockDesc = record (d i) {
      frames_missing_bitmap = clear j (d i).frames_missing_bitmap;
    } in
    elim (dec_lt i n) [
      | no q ↦
          let p : i ≡ n = omega arith in
          let below : missing_total n d ≡ missing_total n (update d i e) =
            missing_total-same n d (update d i e) (λ m l. sym (update_ne d i m e (omega arith))) in
          let here : popcount (d n).frames_missing_bitmap
              ≡ suc (popcount (update d i e n).frames_missing_bitmap) =
            rw (← p, update_self d i e) (popcount-clear j (d i).frames_missing_bitmap s) in
          omega (arith, below, here)
      | yes q ↦
          let ih : missing_total n d ≡ suc (missing_total n (update d i e)) =
            missing_total-clear n i j d (omega arith) s in
          let here : update d i e n ≡ d n = update_ne d i n e (omega arith) in
          rw (here, ih) (omega arith)
    ]

-- No frame missing in all means none in each.
pub missing_total-zero :
    (n i : ℕ) (d : ℕ → BlockDesc)
    → missing_total n d ≡ 0
    → i < n
    → popcount (d i).frames_missing_bitmap ≡ 0
missing_total-zero zero i d h l = absurd (omega arith)
missing_total-zero (suc n) i d h l = elim (dec_lt i n) [
  | yes q ↦ missing_total-zero n i d (omega (arith, h)) q
  | no q ↦
      let p : i ≡ n = omega arith in
      let here : popcount (d n).frames_missing_bitmap ≡ 0 = omega (arith, h) in rw p here
]
