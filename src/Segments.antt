-- ===== src/Segments.antt =====
-- libxen2mx/omx_segments.h: requests over several memory segments. A segment is the bytes of its
-- own memory; segments do not overlap. A result `none` is an access outside a segment or past the
-- end of the segment array. An empty request has one segment of no bytes, as the source makes it.
pub mod Copy
pub mod Partial
pub mod Transfer
pub mod Checksum
pub mod Tests
use Prim.Native.Nat.{bit_xor}
use xen2mx.Base.{
  ℕ, zero, suc, ◌+◌, ◌-◌, ◌*◌, ◌%◌, min, List, [], ◌∷◌, ◌++◌, Option, none, some, ltb, leb, ◌==◌,
  not, if◌then◌else◌, length, take, drop, Bool, true, false,
}

abbrev pub Seg : Type 0
Seg = List ℕ

-- reqsegs->total_length
abbrev pub total_length : List Seg → ℕ
total_length [] = 0
total_length (s ∷ ss) = length s + total_length ss

-- All bytes of the request in order.
abbrev pub contents : List Seg → List ℕ
contents [] = []
contents (s ∷ ss) = s ++ contents ss

infixl 5 ◌>>=◌
abbrev pub ◌>>=◌ {ℓ κ} : {A : Type ℓ} {B : Type κ} → Option A → (A → Option B) → Option B
none >>= f = none
some a >>= f = f a

-- memcpy out of a segment, `off` bytes behind its start
abbrev pub read : Seg → ℕ → ℕ → Option (List ℕ)
read s off n = if leb (off + n) (length s) then some (take n (drop off s)) else none

-- memcpy of the first n bytes of `src` into a segment
abbrev pub write : Seg → ℕ → ℕ → List ℕ → Option Seg
write s off n src =
    if leb (off + n) (length s) then some (take off s ++ (take n src ++ drop (off + n) s)) else none

-- The loop of omx_copy_from_segments.
unfoldable pub gather : List Seg → ℕ → Option (List ℕ)
gather [] n = if n == 0 then some [] else none
gather (s ∷ ss) n =
    let chunk = min (length s) n in
    let rest = gather ss (n - chunk) in
    if n == 0 then some [] else (read s 0 chunk >>= λ bytes. rest >>= λ more. some (bytes ++ more))

-- omx_copy_from_segments: the bytes that arrive at `dst`.
unfoldable pub copy_from_segments : List Seg → ℕ → Option (List ℕ)
unfolding gather
copy_from_segments (s ∷ []) n = read s 0 n
copy_from_segments ss n = gather ss n

-- The loop of omx_copy_to_segments.
unfoldable pub scatter : List Seg → List ℕ → ℕ → Option (List Seg)
scatter [] src n = if n == 0 then some [] else none
scatter (s ∷ ss) src n =
    let chunk = min (length s) n in
    let rest = scatter ss (drop chunk src) (n - chunk) in
    if n == 0
    then some (s ∷ ss)
    else (write s 0 chunk src >>= λ s'. rest >>= λ ss'. some (s' ∷ ss'))

-- omx_copy_to_segments: the segments after the copy.
unfoldable pub copy_to_segments : List Seg → List ℕ → ℕ → Option (List Seg)
unfolding scatter
copy_to_segments (s ∷ []) src n = write s 0 n src >>= λ s'. some (s' ∷ [])
copy_to_segments ss src n = scatter ss src n

-- The loop of omx_copy_from_to_segments for several segments on both sides, in at most `fuel`
-- rounds: the rest of the source with the offset in its first segment, and the same of the
-- destination.
unfoldable pub transfer : ℕ → List Seg → ℕ → List Seg → ℕ → ℕ → Option (List Seg)
transfer zero srcs soff dsts doff n = none
transfer (suc fuel) [] soff dsts doff n = if n == 0 then some dsts else none
transfer (suc fuel) srcs soff [] doff n = if n == 0 then some [] else none
transfer (suc fuel) (s ∷ ss) soff (d ∷ ds) doff n =
    let chunk = min n (min (length s) (length d)) in
    let next_s = leb (length s) (soff + chunk) in
    let next_d = leb (length d) (doff + chunk) in
    let srcs = if next_s then ss else s ∷ ss in
    let soff' = if next_s then 0 else soff + chunk in
    let left = λ (d' : Seg).
      if next_d
      then (transfer fuel srcs soff' ds 0 (n - chunk) >>= λ ds'. some (d' ∷ ds'))
      else transfer fuel srcs soff' (d' ∷ ds) (doff + chunk) (n - chunk) in
    if n == 0
    then some (d ∷ ds)
    else (read s soff chunk >>= λ bytes. write d doff chunk bytes >>= left)

abbrev pub count : List Seg → ℕ
count [] = 0
count (s ∷ ss) = suc (count ss)

-- omx_copy_from_to_segments: the destination after the copy. Each round ends the copy or leaves a
-- segment behind, so there is fuel enough.
unfoldable pub copy_from_to_segments : List Seg → List Seg → ℕ → Option (List Seg)
copy_from_to_segments dsts (s ∷ []) n = read s 0 n >>= λ bytes. copy_to_segments dsts bytes n
copy_from_to_segments (d ∷ []) srcs n =
    copy_from_segments srcs n >>= λ bytes. write d 0 n bytes >>= λ d'. some (d' ∷ [])
copy_from_to_segments dsts srcs n = transfer (count srcs + count dsts + 1) srcs 0 dsts 0 n
