-- ===== src/Segments/Partial.antt =====
-- libxen2mx/omx_segments.h: the copy of one fragment into the middle of a segment list, with the
-- position of the last copy kept from call to call.
pub mod Position
pub mod Laws
use xen2mx.Base.{
  ℕ, zero, suc, ◌+◌, ◌-◌, ◌≤◌, ◌<◌, ◌≡◌, refl, sym, ap, ◌∙◌, min, List, [], ◌∷◌, ◌++◌, Option, none,
  some, arith, ltb, not, ◌==◌, if◌then◌else◌, length, take, drop,
}
use xen2mx.Segments.{Seg, total_length, contents, ◌>>=◌, write}

-- struct omx_segscan_state, the segment as its index in the array
pub record ScanState : Type 0 where
  pub seg : ℕ
  pub offset : ℕ

pub record Copied : Type 0 where
  pub segs : List Seg
  pub state : ScanState

abbrev pub behind : Seg → Copied → Copied
behind s c = record {
  segs = s ∷ c.segs;
  state = record { seg = suc c.state.seg; offset = c.state.offset };
}

-- omx_continue_partial_copy_to_segments: from offset `off` of segment `i` on. An offset behind the
-- end of its segment would wrap `curchunk`, and counts as an access outside.
unfoldable pub continue_copy : List Seg → ℕ → ℕ → List ℕ → ℕ → Option Copied
continue_copy [] i off src n = none
continue_copy (s ∷ ss) (suc i) off src n = continue_copy ss i off src n >>= λ c. some (behind s c)
continue_copy (s ∷ ss) zero off src n =
    let curchunk = length s - off in
    let chunk = min curchunk n in
    let rest = continue_copy ss zero 0 (drop chunk src) (n - chunk) in
    let next = λ (s' : Seg).
      if not (curchunk == chunk)
      then some (record { segs = s' ∷ ss; state = record { seg = 0; offset = off + chunk } })
      else if n - chunk == 0
      then some (record { segs = s' ∷ ss; state = record { seg = 1; offset = 0 } })
      else (rest >>= λ c. some (behind s' c)) in
    if ltb (length s) off then none else (write s off chunk src >>= next)

-- The search of omx_partial_copy_to_segments: the segment that `offset` lies in. It reads past the
-- array if there is none.
unfoldable pub find_segment : List Seg → ℕ → ℕ → ℕ → Option ScanState
find_segment [] i cur offset = none
find_segment (s ∷ ss) i cur offset =
    let rest = find_segment ss (suc i) (cur + length s) offset in
    if ltb (cur + length s) offset then rest else some (record { seg = i; offset = offset - cur })

pub record Progress : Type 0 where
  pub segs : List Seg
  pub state : ScanState
  pub scan_offset : ℕ

-- omx_partial_copy_to_segments
unfoldable pub partial_copy : Progress → List ℕ → ℕ → ℕ → Option Progress
unfolding continue_copy find_segment
partial_copy p src n offset =
    (if offset == p.scan_offset then some p.state else find_segment p.segs 0 0 offset) >>= λ st.
    continue_copy p.segs st.seg st.offset src n >>= λ c.
    some (record { segs = c.segs; state = c.state; scan_offset = offset + n })
