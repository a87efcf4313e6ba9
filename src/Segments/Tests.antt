-- ===== src/Segments/Tests.antt =====
-- libxen2mx/omx_segments.h: copies between small requests of several segments.
use xen2mx.Base.{refl, List, [], ◌∷◌, arith}
use xen2mx.Segments.{Seg, contents, copy_from_to_segments}
use xen2mx.Segments.Copy.{Filled}
use xen2mx.Segments.Transfer.{copy_from_to_segments_lem}
use xen2mx.Segments.Partial.{Progress}
use xen2mx.Segments.Partial.Laws.{IsTracked, Stored, partial_copy-Stored}
use xen2mx.Segments.Partial.Position.{At}

abbrev three : List Seg
three = (1 ∷ 2 ∷ 3 ∷ []) ∷ (4 ∷ []) ∷ (5 ∷ 6 ∷ []) ∷ []

-- The same bytes, cut elsewhere.
abbrev recut : List Seg
recut = (1 ∷ []) ∷ (2 ∷ 3 ∷ 4 ∷ 5 ∷ []) ∷ (6 ∷ []) ∷ []

-- Room of the shape of `three`.
abbrev room : List Seg
room = (0 ∷ 0 ∷ 0 ∷ []) ∷ (0 ∷ []) ∷ (0 ∷ 0 ∷ []) ∷ []

copy_from_to_segments_lem_example :
    Filled room 0 5 (contents three) (copy_from_to_segments room three 5)
copy_from_to_segments_lem_example = copy_from_to_segments_lem room three 5 refl (omega arith)

-- Two bytes have been copied; the next fragment may be another one.
abbrev started : Progress
started = record { segs = room; state = record { seg = 0; offset = 2 }; scan_offset = 2 }

started-IsTracked : IsTracked started
unfolding IsTracked At
started-IsTracked = (refl, omega arith)

partial_copy-Stored_example : Stored started (7 ∷ 7 ∷ []) 2 3
partial_copy-Stored_example =
    partial_copy-Stored started (7 ∷ 7 ∷ []) 2 3 started-IsTracked (omega arith) (omega arith)
      (omega arith)
