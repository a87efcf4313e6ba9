-- ===== src/Medium.antt =====
-- libxen2mx/omx_recv.c: the receive of a medium message, whose fragments arrive in any order and
-- some of them more than once. The offset of a fragment is that of the wire-compatible build. A
-- result `none` is an access outside the memory of the request. An endpoint has one context id.
pub mod Marks
pub mod Store
pub mod Laws
pub mod Runs
pub mod Tests
use xen2mx.Base.{
  ℕ, zero, suc, ◌+◌, ◌-◌, ◌*◌, ◌^◌, List, [], ◌∷◌, ◌++◌, Option, none, some, Bool, true, false, not,
  leb, ◌==◌, if◌then◌else◌, add32, zeros, is_set, nonzero, length,
}
use xen2mx.Segments.{Seg, ◌>>=◌, write}
use xen2mx.Segments.Partial.{ScanState, Progress, partial_copy}

-- specific.medium_frag of struct omx_evt_recv_msg, with the data of the packet
pub record MediumFrag : Type 0 where
  pub msg_length : ℕ
  pub frag_length : ℕ
  pub frag_seqnum : ℕ
  pub frag_pipeline : ℕ
  pub bytes : List ℕ

-- The request: its segments and specific.medium of struct omx__recv_request, its two state bits,
-- and whether it was completed; with the queues that it may stand in.
pub record MediumRecv : Type 0 where
  pub request : ℕ
  pub progress : Progress
  pub frags_received_mask : List Bool
  pub accumulated_length : ℕ
  pub unexpected : Bool
  pub partial : Bool
  pub completed : Bool
  pub unexp_req_q : List ℕ
  pub partial_medium_recv_req_q : List ℕ

-- omx__init_process_recv_medium
unfoldable pub init_process_recv_medium : MediumRecv → MediumRecv
init_process_recv_medium r = record r {
  frags_received_mask = zeros 32;
  accumulated_length = 0;
  progress = record {
    segs = r.progress.segs;
    state = record { seg = 0; offset = 0 };
    scan_offset = 0;
  };
}

-- word |= 1 << k
abbrev pub set_bit : ℕ → List Bool → List Bool
set_bit k [] = []
set_bit zero (b ∷ bits) = true ∷ bits
set_bit (suc k) (b ∷ bits) = b ∷ set_bit k bits

-- "take care of the data chunk": one segment by memcpy, more by the partial copy.
unfoldable pub copy_chunk : List Seg → Progress → List ℕ → ℕ → ℕ → Option Progress
copy_chunk (s ∷ []) p bytes n offset =
    if n == 0 then some p else (write s offset n bytes >>= λ s'. some (record p { segs = s' ∷ [] }))
copy_chunk _ p bytes n offset = partial_copy p bytes n offset

-- omx__dequeue_partner_request
abbrev pub remove_request : ℕ → List ℕ → List ℕ
remove_request r [] = []
remove_request r (q ∷ qs) = if r == q then qs else q ∷ remove_request r qs

-- From "update and check the accumulated received length" on
unfoldable pub account_frag : MediumFrag → MediumRecv → MediumRecv
account_frag msg r =
    let new = not (nonzero r.frags_received_mask) in
    let counted : MediumRecv = record r {
      frags_received_mask = set_bit msg.frag_seqnum r.frags_received_mask;
      accumulated_length = add32 r.accumulated_length msg.frag_length;
    } in
    let first : MediumRecv = record counted {
      unexp_req_q = if r.unexpected then r.unexp_req_q ++ (r.request ∷ []) else r.unexp_req_q;
      partial = true;
      partial_medium_recv_req_q = r.partial_medium_recv_req_q ++ (r.request ∷ []);
    } in
    let queued : MediumRecv = if new then first else counted in
    let last : MediumRecv = record queued {
      partial = false;
      partial_medium_recv_req_q = remove_request r.request queued.partial_medium_recv_req_q;
      completed = if r.unexpected then r.completed else true;
    } in
    if queued.accumulated_length == msg.msg_length then last else queued

-- omx__process_recv_medium_frag
unfoldable pub process_recv_medium_frag : ℕ → MediumFrag → MediumRecv → Option MediumRecv
unfolding copy_chunk account_frag
process_recv_medium_frag xfer_length msg r =
    let chunk = msg.frag_length in
    let offset = msg.frag_seqnum * 2 ^ msg.frag_pipeline in
    let xfer_chunk =
      if leb (offset + chunk) xfer_length
      then chunk
      else if leb offset xfer_length
      then xfer_length - offset
      else 0 in
    if is_set msg.frag_seqnum r.frags_received_mask
    then some r
    else (copy_chunk r.progress.segs r.progress msg.bytes xfer_chunk offset >>= λ p.
        some (account_frag msg (record r { progress = p })))
