-- ===== src/Segments/Copy.antt =====
-- libxen2mx/omx_segments.h: the copies from and to segments against the bytes of the request.
use xen2mx.Base.{
  ℕ, zero, suc, ◌+◌, ◌-◌, ◌≤◌, ◌≡◌, refl, ap, ◌∙◌, min, List, [], ◌∷◌, ◌++◌, Option, some, arith,
  le→leb, length, take, drop, append-nil, length-append, splice, splice-min, take-min, ne→==, ap₂,
  length-splice, length-drop,
}
use xen2mx.Segments.{
  Seg, total_length, contents, read, write, gather, copy_from_segments, scatter, copy_to_segments,
}

pub length-contents : (ss : List Seg) → length (contents ss) ≡ total_length ss
length-contents [] = refl
length-contents (s ∷ ss) = omega (arith, length-append s (contents ss), length-contents ss)

-- The length of each segment.
abbrev pub shape : List Seg → List ℕ
shape [] = []
shape (s ∷ ss) = length s ∷ shape ss

pub read_lem :
    (s : Seg) (off n : ℕ) → off + n ≤ length s → read s off n ≡ some (take n (drop off s))
read_lem s off n h = rw (le→leb (off + n) (length s) h)

pub write_lem :
    (s : Seg) (off n : ℕ) (src : List ℕ)
    → off + n ≤ length s
    → write s off n src ≡ some (splice off n src s)
write_lem s off n src h = rw (le→leb (off + n) (length s) h)

gather_lem :
    (ss : List Seg) (n : ℕ) → n ≤ total_length ss → gather ss n ≡ some (take n (contents ss))
unfolding gather
gather_lem [] zero h = refl
gather_lem [] (suc n) h = absurd (omega arith)
gather_lem (s ∷ ss) zero h = refl
gather_lem (s ∷ ss) (suc n) h =
    let chunk : ℕ = min (length s) (suc n) in
    rw
      (
        ne→== (suc n) 0 (omega arith),
        read_lem s 0 chunk (omega arith),
        gather_lem ss (suc n - chunk) (omega arith),
      )
      (ap (λ t. some t) (take-min (suc n) s (contents ss)))

-- As long as the request has so many bytes, the copy gives the first n of them, over however many
-- segments they lie, and stays inside the segments.
pub copy_from_segments_lem :
    (ss : List Seg) (n : ℕ)
    → n ≤ total_length ss
    → copy_from_segments ss n ≡ some (take n (contents ss))
unfolding copy_from_segments
copy_from_segments_lem [] n h = gather_lem [] n h
copy_from_segments_lem (s ∷ []) n h = rw (read_lem s 0 n (omega arith), append-nil)
copy_from_segments_lem (s ∷ t ∷ ss) n h = gather_lem (s ∷ t ∷ ss) n h

-- The segments after a copy: `n` bytes of `src` over the bytes from `o` on, nothing else changed.
pub record Filled (ss : List Seg) (o n : ℕ) (src : List ℕ) (out : Option (List Seg)) : Type 0 where
  pub segs : List Seg
  pub result : out ≡ some segs
  pub bytes : contents segs ≡ splice o n src (contents ss)
  pub same_shape : shape segs ≡ shape ss

scatter-Filled :
    (ss : List Seg) (src : List ℕ) (n : ℕ)
    → n ≤ total_length ss
    → n ≤ length src
    → Filled ss 0 n src (scatter ss src n)
unfolding scatter
scatter-Filled [] src zero h k = record {
  segs = [];
  result = refl;
  bytes = refl;
  same_shape = refl;
}
scatter-Filled [] src (suc n) h k = absurd (omega arith)
scatter-Filled (s ∷ ss) src zero h k = record {
  segs = s ∷ ss;
  result = refl;
  bytes = refl;
  same_shape = refl;
}
scatter-Filled (s ∷ ss) src (suc n) h k =
    let chunk : ℕ = min (length s) (suc n) in
    let ih : Filled ss 0 (suc n - chunk) (drop chunk src)
        (scatter ss (drop chunk src) (suc n - chunk)) =
      scatter-Filled ss (drop chunk src) (suc n - chunk) (omega arith)
        (omega (arith, length-drop {0} chunk src)) in
    record {
      segs = splice 0 chunk src s ∷ ih.segs;
      result = rw (ne→== (suc n) 0 (omega arith), write_lem s 0 chunk src (omega arith), ih.result);
      bytes =
          ap (λ t. splice 0 chunk src s ++ t) ih.bytes
          ∙ splice-min 0 (suc n) chunk src s (contents ss) (omega arith) (omega arith);
      same_shape = ap₂ ◌∷◌ (length-splice 0 chunk src s (omega arith) (omega arith)) ih.same_shape;
    }

-- If the request and the buffer have n bytes or more, the copy overwrites the first n bytes of the
-- request, over however many segments they lie, and changes neither the bytes behind them nor the
-- shape of the segments.
pub copy_to_segments_lem :
    (ss : List Seg) (src : List ℕ) (n : ℕ)
    → n ≤ total_length ss
    → n ≤ length src
    → Filled ss 0 n src (copy_to_segments ss src n)
unfolding copy_to_segments
copy_to_segments_lem [] src n h k = scatter-Filled [] src n h k
copy_to_segments_lem (s ∷ []) src n h k = record {
  segs = splice 0 n src s ∷ [];
  result = rw (write_lem s 0 n src (omega arith));
  bytes = rw (append-nil, append-nil);
  same_shape = ap (λ t. t ∷ []) (length-splice 0 n src s (omega arith) k);
}
copy_to_segments_lem (s ∷ t ∷ ss) src n h k = scatter-Filled (s ∷ t ∷ ss) src n h k
