-- ===== src/Medium/Store.antt =====
-- libxen2mx/omx_recv.c: the copy of one chunk into the segments of a request.
use xen2mx.Base.{
  ℕ, suc, ◌+◌, ◌≤◌, ◌<◌, ◌≡◌, ◌≢◌, refl, sym, ap, ◌∙◌, List, [], ◌∷◌, Option, some, arith, length,
  splice, ne→==, le→leb, append-nil,
}
use xen2mx.Segments.{Seg, contents, total_length}
use xen2mx.Segments.Copy.{shape}
use xen2mx.Segments.Partial.{Progress, partial_copy}
use xen2mx.Segments.Partial.Laws.{IsTracked, Stored, partial_copy-Stored}
use xen2mx.Medium.{copy_chunk}

-- The chunk is stored, and the segments keep their lengths.
pub record Kept (p : Progress) (src : List ℕ) (n o : ℕ) (out : Option Progress) : Type 0 where
  pub after : Progress
  pub result : out ≡ some after
  pub bytes : contents after.segs ≡ splice o n src (contents p.segs)
  pub same_nseg : length after.segs ≡ length p.segs
  pub tracked : length p.segs ≢ 1 → IsTracked after

length-shape : (ss : List Seg) → length (shape ss) ≡ length ss
length-shape [] = refl
length-shape (s ∷ ss) = ap suc (length-shape ss)

partial-Kept :
    (p : Progress) (src : List ℕ) (n o : ℕ)
    → length p.segs ≢ 1
    → IsTracked p
    → 0 < n
    → o + n ≤ total_length p.segs
    → n ≤ length src
    → Kept p src n o (partial_copy p src n o)
partial-Kept p src n o m t a b c =
    let s : Stored p src n o = partial_copy-Stored p src n o t a b c in
    record {
      after = s.after;
      result = s.result;
      bytes = s.bytes;
      same_nseg = sym (length-shape s.after.segs) ∙ ap length s.same_shape ∙ length-shape p.segs;
      tracked = λ z. s.tracked;
    }

pub copy_chunk-Kept :
    (segs : List Seg) (p : Progress) (src : List ℕ) (n o : ℕ)
    → p.segs ≡ segs
    → (length p.segs ≢ 1 → IsTracked p)
    → 0 < n
    → o + n ≤ total_length p.segs
    → n ≤ length src
    → Kept p src n o (copy_chunk segs p src n o)
unfolding copy_chunk
copy_chunk-Kept [] p src n o e t a b c =
    let m : length p.segs ≢ 1 = λ z. omega (arith, z, ap length e) in
    partial-Kept p src n o m (t m) a b c
copy_chunk-Kept (s ∷ (s' ∷ ss)) p src n o e t a b c =
    let m : length p.segs ≢ 1 = λ z. omega (arith, z, ap length e) in
    partial-Kept p src n o m (t m) a b c
copy_chunk-Kept (s ∷ []) p src n o e t a b c =
    let inside : o + n ≤ length s = omega (arith, b, ap total_length e) in
    record {
      after = record p { segs = splice o n src s ∷ [] };
      result = rw (ne→== n 0 (omega (arith, a)), le→leb _ _ inside) refl;
      bytes = rw (e, append-nil s, append-nil (splice o n src s)) refl;
      same_nseg = sym (ap length e);
      tracked = λ m. absurd (m (ap length e));
    }
