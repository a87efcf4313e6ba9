-- ===== src/Pull/Append.antt =====
-- driver/linux/omx_pull.c: a block more at the end of the window.
use xen2mx.Base.{
  subst, nonzero-set, ℕ, suc, ◌+◌, ◌-◌, ◌*◌, ◌/◌, ◌%◌, ◌≤◌, ◌<◌, ◌≡◌, refl, sym, ap, ap₂, ◌∙◌, min,
  true, arith, ltb, if◌then◌else◌, is_set, update_self, update_ne, shift_right, ones, is_set-shift,
  popcount-shift, lt→ltb, le→ltb, nonzero,
}
use native.Mathlib.Decide.{dec_lt}
use xen2mx.Pull.{BlockDesc, PullHandle, new_frames, append_needed_frames}
use xen2mx.Pull.Window.{
  in_frame, frames_nr, missing_total, IsWindow, frame_missing, SamePull, missing_before,
  missing_within, missing_behind, missing_total-same,
}

-- The length of the next block.
abbrev pub next_length : ℕ → PullHandle → ℕ
next_length off h = if ltb h.remaining_length (32768 - off) then h.remaining_length else 32768 - off

next_length-min :
    (off : ℕ) (h : PullHandle) → next_length off h ≡ min h.remaining_length (32768 - off)
next_length-min off h = ground arith

new_frames-eq : (off n : ℕ) → off < 4096 → n ≤ 32768 → new_frames n off ≡ (off + n + 4095) / 4096
new_frames-eq off n a b = omega arith

module _ (off : ℕ) (h : PullHandle) (v : IsWindow off h) (small : off < 4096)
    (room : h.nr_valid_block_descs < 4) (more : 0 < h.remaining_length) where
  abbrev bl : ℕ
  bl = next_length off h

  abbrev n : ℕ
  n = new_frames bl off

  bl-eq : bl ≡ min h.remaining_length (32768 - off)
  bl-eq = next_length-min off h

  n-eq : n ≡ (off + bl + 4095) / 4096
  n-eq = new_frames-eq off bl small (omega (arith, bl-eq))

  n-bounds : (0 < n) × (n ≤ 8) × (n ≤ bl)
  n-bounds = omega (arith, n-eq, bl-eq)

  requested-eq : (append_needed_frames bl off h).nr_requested_frames ≡ h.nr_requested_frames + n
  unfolding append_needed_frames
  requested-eq = omega (arith, n-bounds, v.full, v.few)

  next-eq : (append_needed_frames bl off h).next_frame_index ≡ h.next_frame_index + n
  unfolding append_needed_frames
  next-eq = omega (arith, n-bounds, v.bound, bl-eq)

  remaining-eq : (append_needed_frames bl off h).remaining_length ≡ h.remaining_length - bl
  unfolding append_needed_frames
  remaining-eq = omega (arith, bl-eq, v.bound)

  pub append-valid :
      (append_needed_frames bl off h).nr_valid_block_descs ≡ suc h.nr_valid_block_descs
  unfolding append_needed_frames
  append-valid = omega arith

  abbrev h' : PullHandle
  h' = append_needed_frames bl off h

  block : BlockDesc
  block = record {
    frame_index = h.next_frame_index;
    block_length = bl;
    first_frame_offset = off;
    frames_missing_bitmap = shift_right (8 - n) (ones 8);
  }

  desc-old : (i : ℕ) → i < h.nr_valid_block_descs → h'.block_desc i ≡ h.block_desc i
  unfolding append_needed_frames
  desc-old i l = update_ne h.block_desc h.nr_valid_block_descs i _ (omega arith)

  desc-new : h'.block_desc h.nr_valid_block_descs ≡ block
  unfolding append_needed_frames block
  desc-new = update_self h.block_desc h.nr_valid_block_descs block

  desc-mask :
      (j : ℕ) → is_set j (h'.block_desc h.nr_valid_block_descs).frames_missing_bitmap ≡ ltb j n
  unfolding block
  desc-mask j = rw desc-new (is_set-shift j n 8 n-bounds.1)

  total-eq :
      missing_total (suc h.nr_valid_block_descs) h'.block_desc
      ≡ missing_total h.nr_valid_block_descs h.block_desc + n
  unfolding block
  total-eq =
      ap₂ ◌+◌ (missing_total-same h.nr_valid_block_descs h'.block_desc h.block_desc desc-old)
        (rw desc-new (popcount-shift n 8 n-bounds.1))

  missing-eq : h'.nr_missing_frames ≡ h.nr_missing_frames + n
  unfolding append_needed_frames
  missing-eq = omega (arith, v.bound, n-bounds, bl-eq)

  append-old_block :
      (i j : ℕ)
      → i < h.nr_valid_block_descs
      → is_set j (h'.block_desc i).frames_missing_bitmap
        ≡ is_set j (h.block_desc i).frames_missing_bitmap
  append-old_block i j l = ap (λ (d : BlockDesc). is_set j d.frames_missing_bitmap) (desc-old i l)

  append-beyond :
      (j : ℕ) → (j < 8 → h'.nr_requested_frames ≤ 8 * h.nr_valid_block_descs + j) → n ≤ j
  append-beyond j k = elim (dec_lt j 8) [
    | yes s ↦ omega (arith, k s, requested-eq, v.full more)
    | no s ↦ omega (arith, n-bounds)
  ]

  append-new_block :
      (block.frame_index ≡ h.frame_index + 8 * h.nr_valid_block_descs)
      × (0 < block.block_length)
      × (4096 * block.frame_index + block.first_frame_offset + block.block_length
          ≡ min
              (4096 * (h.frame_index + 8 * h.nr_valid_block_descs + 8))
              (in_frame h + h.total_length))
  unfolding block
  append-new_block = omega (arith, v.next, v.full more, v.position more, bl-eq, small)

  pub append-IsWindow : IsWindow 0 h'
  unfolding append_needed_frames
  append-IsWindow = record {
    few = omega (arith, append-valid);
    covered = omega (arith, append-valid, requested-eq, v.full more, n-bounds);
    full =
        λ r. omega (arith, append-valid, requested-eq, v.full more, n-eq, bl-eq, remaining-eq, r);
    next = omega (arith, v.next, next-eq, requested-eq);
    position = λ r. omega (arith, v.position more, next-eq, remaining-eq, n-eq, bl-eq, r);
    rest = omega (arith, v.rest, next-eq, remaining-eq, n-eq, bl-eq);
    bound = omega (arith, v.bound, next-eq, remaining-eq, missing-eq, n-bounds, bl-eq);
    counted = rw (append-valid, missing-eq, total-eq, v.counted) refl;
    none_beyond = λ i j l k. elim (dec_lt i h.nr_valid_block_descs) [
      | yes old ↦
          append-old_block i j old
          ∙ v.none_beyond i j old (λ s. omega (arith, k s, requested-eq, v.full more))
      | no new ↦
          let p : i ≡ h.nr_valid_block_descs = omega (arith, append-valid, l) in
          rw p (desc-mask j ∙ le→ltb j n (append-beyond j (λ s. omega (arith, k s, p))))
    ];
    numbered = λ i l. elim (dec_lt i h.nr_valid_block_descs) [
      | yes old ↦ rw (desc-old i old) (v.numbered i old)
      | no new ↦
          let p : i ≡ h.nr_valid_block_descs = omega (arith, append-valid, l) in
          rw (p, desc-new) append-new_block
    ];
  }

  frames-eq : frames_nr h' ≡ frames_nr h
  unfolding append_needed_frames
  frames-eq = refl

  first-eq : h'.frame_index ≡ h.frame_index
  unfolding append_needed_frames
  first-eq = refl

  append-missing_new :
      (k : ℕ)
      → h.next_frame_index ≤ k
      → k < h'.next_frame_index
      → is_set
          ((k - h'.frame_index) % 8)
          (h'.block_desc ((k - h'.frame_index) / 8)).frames_missing_bitmap
        ≡ true
  append-missing_new k b c =
      let p : (k - h'.frame_index) / 8 ≡ h.nr_valid_block_descs =
        omega (arith, b, c, first-eq, next-eq, v.next, v.full more, n-bounds) in
      rw p (
        desc-mask ((k - h'.frame_index) % 8)
        ∙ lt→ltb _ n (omega (arith, b, c, first-eq, next-eq, v.next, v.full more, n-bounds)))

  append-missing : (k : ℕ) → frame_missing h' k ≡ frame_missing h k
  append-missing k = elim (dec_lt k h.frame_index) [
    | yes before ↦
        missing_before h' k (omega (arith, before, first-eq)) ∙ sym (missing_before h k before)
    | no a ↦ elim (dec_lt k h.next_frame_index) [
      | yes old ↦
          missing_within h' k (omega (arith, a, first-eq)) (omega (arith, old, next-eq))
          ∙ ap (λ t. is_set ((k - t) % 8) (h'.block_desc ((k - t) / 8)).frames_missing_bitmap)
              first-eq
          ∙ append-old_block _ _ (omega (arith, a, old, v.next, v.full more))
          ∙ sym (missing_within h k (omega (arith, a)) old)
      | no b ↦
          (elim (dec_lt k h'.next_frame_index) [
            | yes new ↦
                missing_within h' k (omega (arith, a, first-eq)) new
                ∙ append-missing_new k (omega (arith, b)) new
                ∙ sym (lt→ltb k (frames_nr h) (omega (arith, new, v.rest, next-eq, n-eq, bl-eq)))
            | no c ↦
                missing_behind h' k (omega (arith, a, first-eq)) (omega (arith, c))
                ∙ ap (ltb k) frames-eq
          ])
          ∙ sym (missing_behind h k (omega (arith, a)) (omega (arith, b)))
    ]
  ]

  pub append-SamePull : SamePull h h'
  unfolding append_needed_frames
  append-SamePull = record {
    slot_id = refl;
    status = refl;
    total_length = refl;
    pulled_rdma_offset = refl;
    host_copy_nr_frames = refl;
    done_status = refl;
    last_retransmit_jiffies = refl;
    missing = append-missing;
  }

  -- The first block misses a frame, where that of the window before did if there was one.
  pub append-first_missing :
      (0 < h.nr_valid_block_descs → nonzero (h.block_desc 0).frames_missing_bitmap ≡ true)
      → nonzero (h'.block_desc 0).frames_missing_bitmap ≡ true
  append-first_missing m = elim (dec_lt 0 h.nr_valid_block_descs) [
    | yes old ↦ rw (desc-old 0 old) (m old)
    | no none_before ↦
        let p : h.nr_valid_block_descs ≡ 0 = omega (arith, none_before) in
        nonzero-set 0 (h'.block_desc 0).frames_missing_bitmap (
          subst (λ i. is_set 0 (h'.block_desc i).frames_missing_bitmap ≡ true) p
            (desc-mask 0 ∙ lt→ltb 0 n n-bounds.0))
  ]
