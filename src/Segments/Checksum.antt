-- ===== src/Segments/Checksum.antt =====
-- libxen2mx/omx_segments.h, omx_checksum_segments: a 16-bit CRC over the segments.
use Prim.Native.Nat.{bit_xor}
use xen2mx.Base.{
  ℕ, zero, suc, ◌-◌, ◌*◌, ◌%◌, ◌≡◌, refl, sym, ap, ◌∙◌, min, List, [], ◌∷◌, ◌++◌, arith, leb, ◌==◌,
  if◌then◌else◌, length, take, take-min, ne→==,
}
use xen2mx.Segments.{Seg, contents}

-- One shift: the top bit of the 16 decides whether the polynomial is added.
unfoldable pub crc_shift : ℕ → ℕ
crc_shift crc = if leb 0x8000 crc then bit_xor (crc * 2) 0x1021 % 0x1_0000 else crc * 2 % 0x1_0000

unfoldable pub crc_shifts : ℕ → ℕ → ℕ
unfolding crc_shift
crc_shifts zero crc = crc
crc_shifts (suc i) crc = crc_shifts i (crc_shift crc)

unfoldable pub crc_byte : ℕ → ℕ → ℕ
unfolding crc_shifts
crc_byte crc byte = crc_shifts 8 (bit_xor crc (byte * 0x100) % 0x1_0000)

-- The inner loop over a run of bytes.
unfoldable pub crc_bytes : ℕ → List ℕ → ℕ
unfolding crc_byte
crc_bytes crc [] = crc
crc_bytes crc (b ∷ bs) = crc_bytes (crc_byte crc b) bs

-- The loop over the segments, while bytes are wanted.
unfoldable pub crc_segments : ℕ → List Seg → ℕ → ℕ
unfolding crc_bytes
crc_segments crc [] n = crc
crc_segments crc (s ∷ ss) n =
    if n == 0
    then crc
    else crc_segments (crc_bytes crc (take (min (length s) n) s)) ss (n - min (length s) n)

unfoldable pub checksum_segments : List Seg → ℕ → ℕ
unfolding crc_segments
checksum_segments ss n = crc_segments 0 ss n

crc_bytes-append :
    (crc : ℕ) (xs ys : List ℕ) → crc_bytes crc (xs ++ ys) ≡ crc_bytes (crc_bytes crc xs) ys
unfolding crc_bytes
crc_bytes-append crc [] ys = refl
crc_bytes-append crc (x ∷ xs) ys = crc_bytes-append (crc_byte crc x) xs ys

crc_segments_lem :
    (crc : ℕ) (ss : List Seg) (n : ℕ) → crc_segments crc ss n ≡ crc_bytes crc (take n (contents ss))
unfolding crc_segments crc_bytes
crc_segments_lem crc [] zero = refl
crc_segments_lem crc [] (suc n) = refl
crc_segments_lem crc (s ∷ ss) zero = refl
crc_segments_lem crc (s ∷ ss) (suc n) =
    let chunk : ℕ = min (length s) (suc n) in
    rw (ne→== (suc n) 0 (omega arith)) (
      crc_segments_lem (crc_bytes crc (take chunk s)) ss (suc n - chunk)
      ∙ sym (crc_bytes-append crc (take chunk s) (take (suc n - chunk) (contents ss)))
      ∙ ap (crc_bytes crc) (take-min (suc n) s (contents ss)))

-- The checksum depends only on the first n bytes, not on how they are cut into segments: a sender
-- and a receiver whose requests hold the same n bytes compute the same one.
pub checksum-same_bytes :
    (ss ts : List Seg) (n : ℕ)
    → take n (contents ss) ≡ take n (contents ts)
    → checksum_segments ss n ≡ checksum_segments ts n
unfolding checksum_segments
checksum-same_bytes ss ts n h =
    crc_segments_lem 0 ss n ∙ ap (crc_bytes 0) h ∙ sym (crc_segments_lem 0 ts n)
