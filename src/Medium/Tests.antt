-- ===== src/Medium/Tests.antt =====
-- libxen2mx/omx_recv.c: a message of two fragments into a request of two segments; the second
-- fragment comes first, and one comes twice.
use xen2mx.Base.{
  ℕ, zero, suc, ◌*◌, ◌<◌, ◌≡◌, refl, arith, List, [], ◌∷◌, some, true, false, length, take, member,
}
use xen2mx.Segments.{contents}
use xen2mx.Medium.{MediumRecv, init_process_recv_medium}
use xen2mx.Medium.Runs.{receive, receive-whole, receive-part}

-- A block of n bytes.
abbrev block : ℕ → List ℕ
block zero = []
block (suc n) = 7 ∷ block n

abbrev message : List ℕ
message = block 4099

abbrev posted : MediumRecv
posted = record {
  request = 5;
  progress = record {
    segs = block 4000 ∷ block 200 ∷ [];
    state = record { seg = 1; offset = 3 };
    scan_offset = 9;
  };
  frags_received_mask = [];
  accumulated_length = 4;
  unexpected = false;
  partial = false;
  completed = false;
  unexp_req_q = [];
  partial_medium_recv_req_q = [];
}

both-came : (k : ℕ) → 4096 * k < length message → member k (1 ∷ 0 ∷ 1 ∷ []) ≡ true
both-came zero l = refl
both-came (suc zero) l = refl
both-came (suc (suc k)) l = absurd (omega (arith, l))

receive-whole_example :
    (r' : MediumRecv) × (receive message (1 ∷ 0 ∷ 1 ∷ []) (init_process_recv_medium posted)
      ≡ some r')
    × (take (length message) (contents r'.progress.segs) ≡ message)
    × (r'.completed ≡ true)
receive-whole_example =
    receive-whole message (1 ∷ 0 ∷ 1 ∷ []) posted (omega arith) (omega arith) (omega arith) refl
      (omega arith, (omega arith, (omega arith, tt))) both-came

receive-part_example :
    (r' : MediumRecv) × (receive message (1 ∷ 1 ∷ []) (init_process_recv_medium posted) ≡ some r')
    × (r'.completed ≡ false)
receive-part_example =
    receive-part message (1 ∷ 1 ∷ []) posted 0 (omega arith) (omega arith) refl
      (omega arith, (omega arith, tt)) (omega arith) refl
