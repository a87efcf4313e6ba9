-- ===== src/Segments/Partial/Position.antt =====
-- libxen2mx/omx_segments.h: the position that omx_partial_copy_to_segments keeps from call to call.
use xen2mx.Base.{
  ℕ, zero, suc, ◌+◌, ◌-◌, ◌≤◌, ◌<◌, ◌≡◌, refl, sym, ap, ap₂, subst, ◌∙◌, min, List, [], ◌∷◌, ◌++◌,
  Option, some, arith, length, drop, splice, splice-min, splice_within, splice_behind,
  length-splice, length-drop, eq→==, ne→==, le→ltb,
}
use native.Mathlib.Decide.{dec_le}
use xen2mx.Segments.{Seg, total_length, contents}
use xen2mx.Segments.Copy.{shape, write_lem}
use xen2mx.Segments.Partial.{Copied, behind, continue_copy}

-- Offset `off` of segment `i` is offset `o` of the request. Segment `i` is the one behind the last
-- where the request ends there.
unfoldable pub At : List Seg → ℕ → ℕ → ℕ → Type 0
At [] zero off o = (off ≡ 0) × (o ≡ 0)
At [] (suc i) off o = o < 0
At (s ∷ ss) zero off o = (off ≡ o) × (off ≤ length s)
At (s ∷ ss) (suc i) off o = (length s ≤ o) × At ss i off (o - length s)

pub At-start : (ss : List Seg) → At ss 0 0 0
unfolding At
At-start [] = (refl, refl)
At-start (s ∷ ss) = (refl, omega arith)

-- The request after a copy of `n` bytes from offset `o` on, with the position behind them.
pub record Moved (ss : List Seg) (o n : ℕ) (src : List ℕ) (out : Option Copied) : Type 0 where
  pub end : Copied
  pub result : out ≡ some end
  pub bytes : contents end.segs ≡ splice o n src (contents ss)
  pub same_shape : shape end.segs ≡ shape ss
  pub position : At end.segs end.state.seg end.state.offset (o + n)

continue_copy-inside :
    (s : Seg) (ss : List Seg) (off n : ℕ) (src : List ℕ)
    → off + n < length s
    → n ≤ length src
    → Moved (s ∷ ss) off n src (continue_copy (s ∷ ss) 0 off src n)
continue_copy-inside s ss off n src h k =
    let chunk : min (length s - off) n ≡ n = omega arith in
    record {
      end = record { segs = splice off n src s ∷ ss; state = record { seg = 0; offset = off + n } };
      result =
          unfold continue_copy in
          rw (
            chunk,
            le→ltb (length s) off (omega arith),
            write_lem s off n src (omega arith),
            ne→== (length s - off) n (omega arith),
          );
      bytes = sym (splice_within off n src s (contents ss) (omega arith));
      same_shape = ap (λ t. t ∷ shape ss) (length-splice off n src s (omega arith) k);
      position = unfold At in (refl, omega (arith, length-splice off n src s (omega arith) k));
    }

continue_copy-to_end :
    (s : Seg) (ss : List Seg) (off n : ℕ) (src : List ℕ)
    → off + n ≡ length s
    → n ≤ length src
    → Moved (s ∷ ss) off n src (continue_copy (s ∷ ss) 0 off src n)
continue_copy-to_end s ss off n src h k =
    let chunk : min (length s - off) n ≡ n = omega arith in
    let none_left : n - n ≡ 0 = omega arith in
    let len : length (splice off n src s) ≡ length s = length-splice off n src s (omega arith) k in
    record {
      end = record { segs = splice off n src s ∷ ss; state = record { seg = 1; offset = 0 } };
      result =
          unfold continue_copy in
          rw (
            chunk,
            le→ltb (length s) off (omega arith),
            write_lem s off n src (omega arith),
            eq→== (length s - off) n (omega arith),
            none_left,
          );
      bytes = sym (splice_within off n src s (contents ss) (omega arith));
      same_shape = ap (λ t. t ∷ shape ss) len;
      position =
          unfold At in
          (omega (arith, len), subst (At ss 0 0) {x = 0} (omega (arith, len)) (At-start ss));
    }

continue_copy-over_end :
    (s : Seg) (ss : List Seg) (off n : ℕ) (src : List ℕ)
    → off ≤ length s
    → length s < off + n
    → n ≤ length src
    → Moved ss 0
        (n - (length s - off))
        (drop (length s - off) src)
        (continue_copy ss 0 0 (drop (length s - off) src) (n - (length s - off)))
    → Moved (s ∷ ss) off n src (continue_copy (s ∷ ss) 0 off src n)
continue_copy-over_end s ss off n src h₁ h₂ k rest =
    let chunk : min (length s - off) n ≡ length s - off = omega arith in
    let len : length (splice off (length s - off) src s) ≡ length s =
      length-splice off (length s - off) src s (omega arith) (omega arith) in
    record {
      end = behind (splice off (length s - off) src s) rest.end;
      result =
          unfold continue_copy in
          rw (
            chunk,
            le→ltb (length s) off h₁,
            write_lem s off (length s - off) src (omega arith),
            eq→== (length s - off) (length s - off) refl,
            ne→== (n - (length s - off)) 0 (omega arith),
            rest.result,
          );
      bytes =
          ap (λ t. splice off (length s - off) src s ++ t) rest.bytes
          ∙ splice-min off n (length s - off) src s (contents ss) h₁ (omega arith);
      same_shape = ap₂ ◌∷◌ len rest.same_shape;
      position =
          unfold At in
          (
            omega (arith, len),
            subst (At rest.end.segs rest.end.state.seg rest.end.state.offset)
                {x = 0 + (n - (length s - off))} (omega (arith, len)) rest.position,
          );
    }

-- From a position that is right, the copy puts the bytes there, whatever segments they lie in, and
-- ends at a position that is right.
pub continue_copy_lem :
    (ss : List Seg) (i off o : ℕ) (src : List ℕ) (n : ℕ)
    → At ss i off o
    → 0 < n
    → o + n ≤ total_length ss
    → n ≤ length src
    → Moved ss o n src (continue_copy ss i off src n)
unfolding At continue_copy
continue_copy_lem [] i off o src n at pos h k = absurd (omega arith)
continue_copy_lem (s ∷ ss) zero off o src n (e, le) pos h k =
    subst (λ m. Moved (s ∷ ss) m n src (continue_copy (s ∷ ss) 0 off src n)) e
      (elim (dec_le (off + n) (length s)) [
        | yes fits ↦ elim (dec_le (length s) (off + n)) [
          | yes to_end ↦ continue_copy-to_end s ss off n src (omega arith) k
          | no inside ↦ continue_copy-inside s ss off n src (omega arith) k
        ]
        | no over ↦ continue_copy-over_end s ss off n src le (omega arith) k (
            continue_copy_lem ss 0 0 0 (drop (length s - off) src) (n - (length s - off))
              (At-start ss) (omega arith) (omega arith)
              (omega (arith, length-drop (length s - off) src)))
      ])
continue_copy_lem (s ∷ ss) (suc i) off o src n (le, at) pos h k =
    let rest : Moved ss (o - length s) n src (continue_copy ss i off src n) =
      continue_copy_lem ss i off (o - length s) src n at pos (omega arith) k in
    record {
      end = behind s rest.end;
      result = rw rest.result;
      bytes = ap (λ t. s ++ t) rest.bytes ∙ sym (splice_behind o n src s (contents ss) le);
      same_shape = ap (λ t. length s ∷ t) rest.same_shape;
      position = (
        omega arith,
        subst (At rest.end.segs rest.end.state.seg rest.end.state.offset) {x = o - length s + n}
            (omega arith) rest.position,
      );
    }
