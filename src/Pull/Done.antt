-- ===== src/Pull/Done.antt =====
-- driver/linux/omx_pull.c: the first block of the window dropped.
use xen2mx.Base.{
  ℕ, suc, ◌+◌, ◌-◌, ◌*◌, ◌/◌, ◌%◌, ◌<◌, ◌≡◌, refl, sym, ap, ◌∙◌, min, false, arith, ltb, is_set,
  popcount, update_ne, is_set-zero, popcount-zero, sub32, lt→ltb, le→ltb, nonzero,
}
use native.Mathlib.Decide.{dec_lt}
use xen2mx.Pull.{BlockDesc, PullHandle, first_block_done, move_down}
use xen2mx.Pull.Window.{
  in_frame, frames_nr, missing_total, IsWindow, frame_missing, SamePull, missing_before,
  missing_within, missing_behind, missing_total-same, missing_total_first,
}

-- The first block is valid and misses no frame.
module _ (h : PullHandle) (v : IsWindow 0 h) (some_block : 0 < h.nr_valid_block_descs)
    (done : nonzero (h.block_desc 0).frames_missing_bitmap ≡ false) where
  abbrev g : PullHandle
  g = first_block_done h

  abbrev f : ℕ
  f = min h.nr_requested_frames 8

  done-requested : g.nr_requested_frames ≡ h.nr_requested_frames - f
  unfolding first_block_done
  done-requested = omega (arith, v.covered, v.few)

  done-frame_index : g.frame_index ≡ h.frame_index + f
  unfolding first_block_done
  done-frame_index = omega (arith, v.next, v.bound)

  pub done-valid : g.nr_valid_block_descs ≡ h.nr_valid_block_descs - 1
  unfolding first_block_done
  done-valid = omega (arith, v.few)

  done-moved :
      (i n : ℕ)
      → n ≡ h.nr_valid_block_descs - 1
      → suc i < h.nr_valid_block_descs
      → move_down n h.block_desc i ≡ h.block_desc (suc i)
  done-moved i n p l = rw (lt→ltb i n (omega (arith, p, l))) refl

  done-desc : (i : ℕ) → suc i < h.nr_valid_block_descs → g.block_desc i ≡ h.block_desc (suc i)
  unfolding first_block_done
  done-desc i l =
      update_ne (move_down (sub32 h.nr_valid_block_descs 1) h.block_desc) 3 i _
        (omega (arith, v.few, l))
      ∙ done-moved i (sub32 h.nr_valid_block_descs 1) (omega (arith, v.few, l)) l

  done-total : missing_total (h.nr_valid_block_descs - 1) g.block_desc ≡ h.nr_missing_frames
  done-total =
      let n : ℕ = h.nr_valid_block_descs - 1 in
      let none_first : popcount (h.block_desc 0).frames_missing_bitmap ≡ 0 =
        popcount-zero (h.block_desc 0).frames_missing_bitmap done in
      let moved : missing_total n g.block_desc ≡ missing_total n (λ i. h.block_desc (suc i)) =
        missing_total-same n _ _ (λ i l. done-desc i (omega (arith, l))) in
      let all : missing_total h.nr_valid_block_descs h.block_desc
          ≡ missing_total (suc n) h.block_desc =
        ap (λ m. missing_total m h.block_desc) {y = suc (h.nr_valid_block_descs - 1)}
          (omega arith) in
      omega (arith, none_first, moved, all, v.counted, missing_total_first n h.block_desc)

  done-old_block :
      (i j : ℕ)
      → suc i < h.nr_valid_block_descs
      → is_set j (g.block_desc i).frames_missing_bitmap
        ≡ is_set j (h.block_desc (suc i)).frames_missing_bitmap
  done-old_block i j l = ap (λ (d : BlockDesc). is_set j d.frames_missing_bitmap) (done-desc i l)

  done-frames : frames_nr g ≡ frames_nr h
  unfolding first_block_done
  done-frames = refl

  done-rest :
      (g.next_frame_index ≡ h.next_frame_index)
      × (g.remaining_length ≡ h.remaining_length)
      × (g.nr_missing_frames ≡ h.nr_missing_frames)
      × (g.total_length ≡ h.total_length)
      × (g.pulled_rdma_offset ≡ h.pulled_rdma_offset)
  unfolding first_block_done
  done-rest = (refl, refl, refl, refl, refl)

  done-numbered :
      (i : ℕ)
      → i < g.nr_valid_block_descs
      → ((h.block_desc (suc i)).frame_index ≡ g.frame_index + 8 * i)
        × (0 < (h.block_desc (suc i)).block_length)
        × (4096 * (h.block_desc (suc i)).frame_index
              + (h.block_desc (suc i)).first_frame_offset
              + (h.block_desc (suc i)).block_length
            ≡ min (4096 * (g.frame_index + 8 * i + 8)) (in_frame g + g.total_length))
  done-numbered i l =
      let old = v.numbered (suc i) (omega (arith, l, done-valid)) in
      omega (arith, old, done-rest, done-frame_index, v.covered, l, done-valid)

  pub done-IsWindow : IsWindow 0 g
  done-IsWindow = record {
    few = omega (arith, done-valid, v.few);
    covered = omega (arith, done-valid, done-requested, v.covered, some_block);
    full =
        λ r. omega (arith, done-valid, done-requested, v.full, v.covered, some_block, r, done-rest);
    next = omega (arith, v.next, done-rest, done-requested, done-frame_index);
    position = λ r. omega (arith, v.position, done-rest, r);
    rest = omega (arith, v.rest, done-rest);
    bound = omega (arith, v.bound, done-rest);
    counted =
        done-rest.2 ∙ sym done-total ∙ ap (λ m. missing_total m g.block_desc) (sym done-valid);
    none_beyond = λ i j l k.
        done-old_block i j (omega (arith, l, done-valid))
        ∙ v.none_beyond (suc i) j (omega (arith, l, done-valid))
            (λ s. omega (arith, k s, done-requested, l, done-valid, v.covered));
    numbered = λ i l. rw (done-desc i (omega (arith, l, done-valid))) (done-numbered i l);
  }

  done-missing : (k : ℕ) → frame_missing g k ≡ frame_missing h k
  done-missing k = elim (dec_lt k g.frame_index) [
    | yes gone ↦
        missing_before g k gone
        ∙ sym (elim (dec_lt k h.frame_index) [
          | yes before ↦ missing_before h k before
          | no a ↦
              let p : (k - h.frame_index) / 8 ≡ 0 = omega (arith, a, gone, done-frame_index) in
              missing_within h k (omega (arith, a)) (omega (arith, gone, done-frame_index, v.next))
              ∙ rw p (
                  is_set-zero ((k - h.frame_index) % 8) (h.block_desc 0).frames_missing_bitmap
                    (popcount-zero (h.block_desc 0).frames_missing_bitmap done))
        ])
    | no b ↦ elim (dec_lt k h.next_frame_index) [
      | yes old ↦
          let i : ℕ = (k - g.frame_index) / 8 in
          let p : (k - h.frame_index) / 8 ≡ suc i =
            omega (arith, b, old, done-frame_index, v.next, v.covered) in
          let q : (k - h.frame_index) % 8 ≡ (k - g.frame_index) % 8 =
            omega (arith, b, old, done-frame_index, v.next, v.covered) in
          missing_within g k (omega (arith, b)) (omega (arith, old, done-rest))
          ∙ done-old_block i _ (omega (arith, b, old, done-frame_index, v.next, v.covered))
          ∙ sym (missing_within h k (omega (arith, b, done-frame_index)) old ∙ rw (p, q) refl)
      | no c ↦
          missing_behind g k (omega (arith, b)) (omega (arith, c, done-rest))
          ∙ ap (ltb k) done-frames
          ∙ sym (missing_behind h k (omega (arith, b, done-frame_index)) (omega (arith, c)))
    ]
  ]

  pub done-SamePull : SamePull h g
  unfolding first_block_done
  done-SamePull = record {
    slot_id = refl;
    status = refl;
    total_length = refl;
    pulled_rdma_offset = refl;
    host_copy_nr_frames = refl;
    done_status = refl;
    last_retransmit_jiffies = refl;
    missing = done-missing;
  }

  pub done-none_missing :
      g.nr_valid_block_descs ≡ 0 → nonzero (g.block_desc 0).frames_missing_bitmap ≡ false
  unfolding first_block_done
  done-none_missing z = rw (le→ltb 0 g.nr_valid_block_descs (omega (arith, z))) done
