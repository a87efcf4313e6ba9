-- ===== src/Segments/Partial/Laws.antt =====
-- libxen2mx/omx_segments.h: omx_partial_copy_to_segments, with the position found again or kept
-- from the last call.
use xen2mx.Base.{
  ℕ, suc, ◌+◌, ◌-◌, ◌≤◌, ◌<◌, ◌≡◌, ◌≢◌, refl, ap, subst, List, [], ◌∷◌, Option, none, some, arith,
  ◌==◌, if◌then◌else◌, length, splice, eq→==, ne→==, le→ltb, lt→ltb,
}
use native.Mathlib.Decide.{dec_le}
use xen2mx.Segments.{Seg, total_length, contents}
use xen2mx.Segments.Copy.{shape}
use xen2mx.Segments.Partial.{ScanState, continue_copy, find_segment, Progress, partial_copy}
use xen2mx.Segments.Partial.Position.{At, Moved, continue_copy_lem}

-- What the search from segment number `i` on finds: a position of offset `o`.
record Found (ss : List Seg) (i o : ℕ) (out : Option ScanState) : Type 0 where
  ahead : ℕ
  offset : ℕ
  result : out ≡ some (record { seg = i + ahead; offset = offset })
  position : At ss ahead offset o

find_segment_lem :
    (ss : List Seg) (i cur offset : ℕ)
    → cur ≤ offset
    → offset < cur + total_length ss
    → Found ss i (offset - cur) (find_segment ss i cur offset)
unfolding find_segment At
find_segment_lem [] i cur offset h k = absurd (omega arith)
find_segment_lem (s ∷ ss) i cur offset h k = elim (dec_le offset (cur + length s)) [
  | yes here ↦ record {
    ahead = 0;
    offset = offset - cur;
    result =
        rw (le→ltb (cur + length s) offset here)
          (ap (λ j. some (record { seg = j; offset = offset - cur })) {x = i} (omega arith));
    position = (refl, omega arith);
  }
  | no behind_it ↦
      let rest : Found ss (suc i) (offset - (cur + length s))
          (find_segment ss (suc i) (cur + length s) offset) =
        find_segment_lem ss (suc i) (cur + length s) offset (omega arith) (omega arith) in
      record {
        ahead = suc rest.ahead;
        offset = rest.offset;
        result =
            rw (lt→ltb (cur + length s) offset (omega arith), rest.result)
              (ap (λ j. some (record { seg = j; offset = rest.offset })) {x = suc i + rest.ahead}
                (omega arith));
        position = (
          omega arith,
          subst (At ss rest.ahead rest.offset) {x = offset - (cur + length s)} (omega arith)
              rest.position,
        );
      }
]

-- The saved position is the saved offset's.
unfoldable pub IsTracked : Progress → Type 0
IsTracked p = At p.segs p.state.seg p.state.offset p.scan_offset

-- The request after a fragment: `n` bytes of `src` over those from `o` on, nothing else changed,
-- and the saved position again the saved offset's.
pub record Stored (p : Progress) (src : List ℕ) (n o : ℕ) : Type 0 where
  pub after : Progress
  pub result : partial_copy p src n o ≡ some after
  pub bytes : contents after.segs ≡ splice o n src (contents p.segs)
  pub same_shape : shape after.segs ≡ shape p.segs
  pub tracked : IsTracked after

partial_copy-from :
    (p : Progress) (src : List ℕ) (n o i off : ℕ)
    → (if o == p.scan_offset then some p.state else find_segment p.segs 0 0 o)
      ≡ some (record { seg = i; offset = off })
    → At p.segs i off o
    → 0 < n
    → o + n ≤ total_length p.segs
    → n ≤ length src
    → Stored p src n o
partial_copy-from p src n o i off found at pos h k =
    let moved : Moved p.segs o n src (continue_copy p.segs i off src n) =
      continue_copy_lem p.segs i off o src n at pos h k in
    record {
      after = record { segs = moved.end.segs; state = moved.end.state; scan_offset = o + n };
      result = unfold partial_copy in rw (found, moved.result);
      bytes = moved.bytes;
      same_shape = moved.same_shape;
      tracked = unfold IsTracked in moved.position;
    }

-- If the saved position is that of the saved offset, a fragment of at least one byte that ends in
-- the request is copied to its offset, whether this offset is the saved one or any other; nothing
-- else in the request changes, no access is outside a segment, and the saved position is again that
-- of the saved offset.
pub partial_copy-Stored :
    (p : Progress) (src : List ℕ) (n o : ℕ)
    → IsTracked p
    → 0 < n
    → o + n ≤ total_length p.segs
    → n ≤ length src
    → Stored p src n o
unfolding IsTracked
partial_copy-Stored p src n o at pos h k = elim (dec_le o p.scan_offset) [
  | yes le ↦ elim (dec_le p.scan_offset o) [
    | yes ge ↦
        partial_copy-from p src n o p.state.seg p.state.offset
          (rw (eq→== o p.scan_offset (omega arith)))
          (subst (At p.segs p.state.seg p.state.offset) {x = p.scan_offset} (omega arith) at) pos h
          k
    | no ne ↦ again (omega arith)
  ]
  | no ne ↦ again (omega arith)
]
  where
    again : o ≢ p.scan_offset → Stored p src n o
    again ne =
        let found : Found p.segs 0 o (find_segment p.segs 0 0 o) =
          subst (λ m. Found p.segs 0 m (find_segment p.segs 0 0 o)) {x = o - 0} (omega arith)
            (find_segment_lem p.segs 0 0 o (omega arith) (omega arith)) in
        partial_copy-from p src n o (0 + found.ahead) found.offset
          (rw (ne→== o p.scan_offset ne) found.result)
          (subst (λ j. At p.segs j found.offset o) {x = found.ahead} (omega arith) found.position)
          pos h k

find_segment-outside :
    (ss : List Seg) (i cur offset : ℕ)
    → cur + total_length ss < offset
    → find_segment ss i cur offset ≡ none
unfolding find_segment
find_segment-outside [] i cur offset h = refl
find_segment-outside (s ∷ ss) i cur offset h =
    rw (lt→ltb (cur + length s) offset (omega arith))
      (find_segment-outside ss (suc i) (cur + length s) offset (omega arith))

-- A fragment that starts behind the end of the request, and not where the last one ended, makes
-- the search read past the segment array, even if no byte of it is to be copied.
pub partial_copy-overruns :
    (p : Progress) (src : List ℕ) (n o : ℕ)
    → o ≢ p.scan_offset
    → total_length p.segs < o
    → partial_copy p src n o ≡ none
unfolding partial_copy
partial_copy-overruns p src n o ne h =
    rw (ne→== o p.scan_offset ne, find_segment-outside p.segs 0 0 o (omega arith))
