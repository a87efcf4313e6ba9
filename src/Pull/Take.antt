-- ===== src/Pull/Take.antt =====
-- driver/linux/omx_pull.c: one frame taken out of the window.
use xen2mx.Base.{
  ℕ, suc, ◌+◌, ◌-◌, ◌*◌, ◌/◌, ◌%◌, ◌<◌, ◌≡◌, ◌≢◌, refl, sym, ◌∙◌, true, false, arith, is_set, clear,
  update_self, update_ne, is_set-clear_self, is_set-clear_ne, subst, min,
}
use native.Mathlib.Decide.{dec_lt, ℕ_discrete}
use xen2mx.Pull.{BlockDesc, PullHandle}
use xen2mx.Pull.Reply.{take_frame}
use xen2mx.Pull.Window.{
  in_frame, missing_total, IsWindow, frame_missing, missing_before, missing_within, missing_behind,
  missing_total-clear,
}

module _ (off : ℕ) (h : PullHandle) (v : IsWindow 0 h) (asked : off < h.nr_requested_frames)
    (set : is_set (off % 8) (h.block_desc (off / 8)).frames_missing_bitmap ≡ true) where
  abbrev g : PullHandle
  g = take_frame off h

  abbrev i : ℕ
  i = off / 8

  valid : i < h.nr_valid_block_descs
  valid = omega (arith, v.covered, asked)

  take-total : h.nr_missing_frames ≡ suc (missing_total h.nr_valid_block_descs g.block_desc)
  take-total =
      v.counted ∙ missing_total-clear h.nr_valid_block_descs i (off % 8) h.block_desc valid set

  take-nr_missing : suc g.nr_missing_frames ≡ h.nr_missing_frames
  take-nr_missing = omega (arith, take-total, v.bound)

  taken : BlockDesc
  taken = record (h.block_desc i) {
    frames_missing_bitmap = clear (off % 8) (h.block_desc i).frames_missing_bitmap;
  }

  desc_self : g.block_desc i ≡ taken
  unfolding taken
  desc_self = update_self h.block_desc i taken

  desc-ne : (m : ℕ) → m ≢ i → g.block_desc m ≡ h.block_desc m
  desc-ne m e = update_ne h.block_desc i m _ (λ p. e (sym p))

  -- The bit of the frame is off, the others are as they were.
  bit_self : is_set (off % 8) (g.block_desc i).frames_missing_bitmap ≡ false
  unfolding taken
  bit_self = rw desc_self (is_set-clear_self (off % 8) (h.block_desc i).frames_missing_bitmap)

  bit-other :
      (m j : ℕ)
      → (m ≡ i → j ≢ off % 8)
      → is_set j (g.block_desc m).frames_missing_bitmap
        ≡ is_set j (h.block_desc m).frames_missing_bitmap
  unfolding taken
  bit-other m j e = elim (ℕ_discrete m i) [
    | yes p ↦
        subst
          (λ k.
            is_set j (g.block_desc k).frames_missing_bitmap
            ≡ is_set j (h.block_desc k).frames_missing_bitmap)
          (sym p)
          (rw desc_self (is_set-clear_ne j (off % 8) (h.block_desc i).frames_missing_bitmap (e p)))
    | no q ↦ rw (desc-ne m q) refl
  ]

  take-beyond :
      (m j : ℕ)
      → is_set j (h.block_desc m).frames_missing_bitmap ≡ false
      → is_set j (g.block_desc m).frames_missing_bitmap ≡ false
  take-beyond m j e = elim (ℕ_discrete m i) [
    | yes p ↦ elim (ℕ_discrete j (off % 8)) [
      | yes q ↦ rw (p, q) bit_self
      | no q ↦ bit-other m j (λ z. q) ∙ e
    ]
    | no q ↦ bit-other m j (λ p. absurd (q p)) ∙ e
  ]

  take-desc :
      (m : ℕ)
      → ((g.block_desc m).frame_index ≡ (h.block_desc m).frame_index)
        × ((g.block_desc m).block_length ≡ (h.block_desc m).block_length)
        × ((g.block_desc m).first_frame_offset ≡ (h.block_desc m).first_frame_offset)
  unfolding taken
  take-desc m = elim (ℕ_discrete m i) [
    | yes p ↦ rw (p, desc_self) (refl, refl, refl)
    | no q ↦ rw (desc-ne m q) (refl, refl, refl)
  ]

  take-numbered :
      (m : ℕ)
      → m < h.nr_valid_block_descs
      → ((g.block_desc m).frame_index ≡ h.frame_index + 8 * m)
        × (0 < (g.block_desc m).block_length)
        × (4096 * (g.block_desc m).frame_index
              + (g.block_desc m).first_frame_offset
              + (g.block_desc m).block_length
            ≡ min (4096 * (h.frame_index + 8 * m + 8)) (in_frame h + h.total_length))
  take-numbered m l = let (a, b, c) = take-desc m in rw (a, b, c) (v.numbered m l)

  pub take-IsWindow : IsWindow 0 g
  take-IsWindow = record {
    few = v.few;
    covered = v.covered;
    full = v.full;
    next = v.next;
    position = v.position;
    rest = v.rest;
    bound = omega (arith, v.bound, take-nr_missing);
    counted = omega (arith, take-nr_missing, take-total);
    none_beyond = λ m j l k. take-beyond m j (v.none_beyond m j l k);
    numbered = take-numbered;
  }

  pub take-missing_self :
      (frame_missing h (h.frame_index + off) ≡ true)
      × (frame_missing g (h.frame_index + off) ≡ false)
  take-missing_self =
      let p : h.frame_index + off - h.frame_index ≡ off = omega arith in
      (
        missing_within h _ (omega arith) (omega (arith, v.next, asked)) ∙ rw p set,
        missing_within g _ (omega arith) (omega (arith, v.next, asked)) ∙ rw p bit_self,
      )

  pub take-missing_other : (k : ℕ) → k ≢ h.frame_index + off → frame_missing g k ≡ frame_missing h k
  take-missing_other k e = elim (dec_lt k h.frame_index) [
    | yes before ↦ missing_before g k before ∙ sym (missing_before h k before)
    | no a ↦ elim (dec_lt k h.next_frame_index) [
      | yes b ↦
          missing_within g k (omega (arith, a)) b
          ∙ bit-other ((k - h.frame_index) / 8) ((k - h.frame_index) % 8)
              (λ p q. e (omega (arith, a, p, q)))
          ∙ sym (missing_within h k (omega (arith, a)) b)
      | no b ↦
          missing_behind g k (omega (arith, a)) (omega (arith, b))
          ∙ sym (missing_behind h k (omega (arith, a)) (omega (arith, b)))
    ]
  ]
