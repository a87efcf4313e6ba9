-- ===== src/Segments/Transfer.antt =====
-- libxen2mx/omx_segments.h, omx_copy_from_to_segments between two lists of several segments: what
-- its loop does where the segments of both sides have the same lengths, and where they do not.
use xen2mx.Base.{
  ℕ, zero, suc, ◌+◌, ◌-◌, ◌≤◌, ◌<◌, ◌≡◌, refl, sym, ap, ap₂, ◌∙◌, min, List, [], ◌∷◌, ◌++◌, none,
  some, arith, le→leb, gt→leb, ne→==, length, take, drop, take_all, take-append_le, drop-append_ge,
  length-take_le, splice, splice-min, splice_within, length-splice,
}
use native.Mathlib.Decide.{dec_le}
use xen2mx.Segments.{
  Seg, total_length, contents, count, copy_to_segments, transfer, copy_from_to_segments,
}
use xen2mx.Segments.Copy.{shape, Filled, read_lem, copy_to_segments_lem}

-- A round that asks for more than is left of the source segment fails.
transfer-read_out :
    (fuel soff doff n : ℕ) (s d : Seg) (ss ds : List Seg)
    → 0 < n
    → length s < soff + min n (min (length s) (length d))
    → transfer (suc fuel) (s ∷ ss) soff (d ∷ ds) doff n ≡ none
unfolding transfer
transfer-read_out fuel soff doff n s d ss ds h k =
    rw (ne→== n 0 (omega arith), gt→leb (soff + min n (min (length s) (length d))) (length s) k)

-- A round that fills the destination segment and leaves some of the source segment.
transfer-fill :
    (fuel n : ℕ) (s d : Seg) (ss ds : List Seg)
    → length d < length s
    → length d < n
    → transfer fuel (s ∷ ss) (0 + length d) ds 0 (n - length d) ≡ none
    → transfer (suc fuel) (s ∷ ss) 0 (d ∷ ds) 0 n ≡ none
unfolding transfer
transfer-fill fuel n s d ss ds h k e =
    let chunk : min n (min (length s) (length d)) ≡ length d = omega arith in
    rw (
      ne→== n 0 (omega arith),
      chunk,
      le→leb (0 + length d) (length s) (omega arith),
      le→leb (0 + length d) (length d) (omega arith),
      gt→leb (length s) (0 + length d) (omega arith),
      le→leb (length d) (0 + length d) (omega arith),
      e,
    )

-- If the first destination segment is shorter than the first source segment and the second one
-- makes the next round ask for more than is left of the source segment, the copy reads behind the
-- end of the source segment.
pub copy_from_to_segments-overruns :
    (s t d e : Seg) (ss ds : List Seg) (n : ℕ)
    → length d < length s
    → length d < n
    → length s < length d + min (n - length d) (min (length s) (length e))
    → copy_from_to_segments (d ∷ e ∷ ds) (s ∷ t ∷ ss) n ≡ none
unfolding copy_from_to_segments
copy_from_to_segments-overruns s t d e ss ds n h₁ h₂ h₃ =
    let fuel : suc (suc (count ss)) + suc (suc (count ds)) + 1
        ≡ suc (suc (count ss + count ds + 3)) =
      omega arith in
    rw fuel (
      transfer-fill _ n s d (t ∷ ss) (e ∷ ds) h₁ h₂ (
        transfer-read_out _ (0 + length d) 0 (n - length d) s e (t ∷ ss) ds (omega arith)
          (omega arith)))

-- A round that fills one destination segment from one source segment of its length.
transfer-whole :
    (fuel n : ℕ) (s d : Seg) (ss ds segs : List Seg)
    → 0 < n
    → length s ≡ length d
    → length s ≤ n
    → transfer fuel ss 0 ds 0 (n - length d) ≡ some segs
    → transfer (suc fuel) (s ∷ ss) 0 (d ∷ ds) 0 n
      ≡ some (splice 0 (length d) (take (length d) s) d ∷ segs)
unfolding transfer
transfer-whole fuel n s d ss ds segs pos same h e =
    let chunk : min n (min (length s) (length d)) ≡ length d = omega arith in
    rw (
      ne→== n 0 (omega arith),
      chunk,
      le→leb (0 + length d) (length s) (omega arith),
      le→leb (0 + length d) (length d) (omega arith),
      le→leb (length s) (0 + length d) (omega arith),
      le→leb (length d) (0 + length d) (omega arith),
      e,
    )

-- The last round, inside the segments of both sides.
transfer-part :
    (fuel n : ℕ) (s d : Seg) (ss ds : List Seg)
    → 0 < n
    → length s ≡ length d
    → n < length s
    → transfer (suc (suc fuel)) (s ∷ ss) 0 (d ∷ ds) 0 n ≡ some (splice 0 n (take n s) d ∷ ds)
unfolding transfer
transfer-part fuel n s d ss ds pos same h =
    let chunk : min n (min (length s) (length d)) ≡ n = omega arith in
    let none_left : n - n ≡ 0 = omega arith in
    rw (
      ne→== n 0 (omega arith),
      chunk,
      le→leb (0 + n) (length s) (omega arith),
      le→leb (0 + n) (length d) (omega arith),
      gt→leb (length s) (0 + n) (omega arith),
      gt→leb (length d) (0 + n) (omega arith),
      none_left,
    )

take-take {ℓ} : {A : Type ℓ} (n : ℕ) (xs : List A) → n ≤ length xs → take n (take n xs) ≡ take n xs
take-take n xs h = take_all n (take n xs) (omega (arith, length-take_le n xs h))

-- Where the segments of both sides have the same lengths and hold n bytes or more, every round
-- fills both, and the copy puts the first n bytes of the source over those of the destination.
transfer-Filled :
    (fuel : ℕ) (srcs dsts : List Seg) (n : ℕ)
    → shape srcs ≡ shape dsts
    → count srcs < fuel
    → n ≤ total_length srcs
    → Filled dsts 0 n (contents srcs) (transfer fuel srcs 0 dsts 0 n)
transfer-Filled zero srcs dsts n e f h = absurd (omega arith)
transfer-Filled (suc fuel) [] [] n e f h =
    let none_left : n ≡ 0 = omega arith in
    rw none_left
      (record { segs = []; result = unfold transfer in refl; bytes = refl; same_shape = refl })
transfer-Filled (suc fuel) [] (d ∷ ds) n e f h = cc
transfer-Filled (suc fuel) (s ∷ ss) [] n e f h = cc
transfer-Filled (suc fuel) (s ∷ ss) (d ∷ ds) zero e f h = record {
  segs = d ∷ ds;
  result = unfold transfer in refl;
  bytes = refl;
  same_shape = refl;
}
transfer-Filled (suc fuel) (s ∷ ss) (d ∷ ds) (suc n) e f h =
    let same : length s ≡ length d = cc in
    let rest : shape ss ≡ shape ds = cc in
    elim (dec_le (length s) (suc n)) [
      | yes whole ↦
          let ih : Filled ds 0 (suc n - length d) (contents ss)
              (transfer fuel ss 0 ds 0 (suc n - length d)) =
            transfer-Filled fuel ss ds (suc n - length d) rest (omega arith) (omega arith) in
          record {
            segs = splice 0 (length d) (take (length d) s) d ∷ ih.segs;
            result =
                transfer-whole fuel (suc n) s d ss ds ih.segs (omega arith) same whole ih.result;
            bytes =
                ap₂ (λ a b. (a ++ drop (0 + length d) d) ++ b)
                  (take-take (length d) s (omega arith)
                    ∙ sym (take-append_le (length d) s (contents ss) (omega arith)))
                  (ih.bytes
                    ∙ ap (λ t. splice 0 (suc n - length d) t (contents ds)) (sym (back same)))
                ∙ splice-min 0 (suc n) (length d) (s ++ contents ss) d (contents ds) (omega arith)
                    (omega arith);
            same_shape =
                ap₂ ◌∷◌
                  (length-splice 0 (length d) (take (length d) s) d (omega arith)
                    (omega (arith, length-take_le (length d) s)))
                  ih.same_shape;
          }
      | no part ↦
          let pred : fuel ≡ suc (fuel - 1) = omega arith in
          record {
            segs = splice 0 (suc n) (take (suc n) s) d ∷ ds;
            result =
                ap (λ k. transfer (suc k) (s ∷ ss) 0 (d ∷ ds) 0 (suc n)) pred
                ∙ transfer-part (fuel - 1) (suc n) s d ss ds (omega arith) same (omega arith);
            bytes =
                ap (λ t. (t ++ drop (0 + suc n) d) ++ contents ds)
                  (take-take (suc n) s (omega arith)
                    ∙ sym (take-append_le (suc n) s (contents ss) (omega arith)))
                ∙ sym (splice_within 0 (suc n) (s ++ contents ss) d (contents ds) (omega arith));
            same_shape =
                ap (λ t. t ∷ shape ds)
                  (length-splice 0 (suc n) (take (suc n) s) d (omega arith)
                    (omega (arith, length-take_le (suc n) s)));
          }
    ]
  where
    back : length s ≡ length d → drop (length d) (s ++ contents ss) ≡ contents ss
    back same =
        drop-append_ge (length d) s (contents ss) (omega arith)
        ∙ ap (λ k. drop k (contents ss)) {y = 0} (omega arith)

total_length-same_shape :
    (ss ds : List Seg) → shape ss ≡ shape ds → total_length ss ≡ total_length ds
total_length-same_shape [] [] e = refl
total_length-same_shape [] (d ∷ ds) e = cc
total_length-same_shape (s ∷ ss) [] e = cc
total_length-same_shape (s ∷ ss) (d ∷ ds) e =
    let same : length s ≡ length d = cc in
    let rest : shape ss ≡ shape ds = cc in omega (arith, total_length-same_shape ss ds rest)

-- Where the segments of both sides have the same lengths and hold n bytes or more, the copy puts
-- the first n bytes of the source over the first n of the destination, and leaves the rest of the
-- destination and the shape of its segments as they were.
pub copy_from_to_segments_lem :
    (dsts srcs : List Seg) (n : ℕ)
    → shape srcs ≡ shape dsts
    → n ≤ total_length srcs
    → Filled dsts 0 n (contents srcs) (copy_from_to_segments dsts srcs n)
unfolding copy_from_to_segments
copy_from_to_segments_lem [] [] n e h = transfer-Filled 1 [] [] n e (omega arith) h
copy_from_to_segments_lem (d ∷ ds) [] n e h = cc
copy_from_to_segments_lem dsts (s ∷ []) n e h =
    let f : Filled dsts 0 n (take n s) (copy_to_segments dsts (take n s) n) =
      copy_to_segments_lem dsts (take n s) n
        (omega (arith, total_length-same_shape (s ∷ []) dsts e))
        (omega (arith, length-take_le n s)) in
    record {
      segs = f.segs;
      result = rw (read_lem s 0 n (omega arith)) f.result;
      bytes =
          f.bytes
          ∙ ap (λ t. t ++ drop (0 + n) (contents dsts))
              (take-take n s (omega arith) ∙ sym (take-append_le n s [] (omega arith)));
      same_shape = f.same_shape;
    }
copy_from_to_segments_lem [] (s ∷ t ∷ ss) n e h = cc
copy_from_to_segments_lem (d ∷ []) (s ∷ t ∷ ss) n e h = cc
copy_from_to_segments_lem (d ∷ d' ∷ ds) (s ∷ t ∷ ss) n e h =
    transfer-Filled _ (s ∷ t ∷ ss) (d ∷ d' ∷ ds) n e (omega arith) h
