-- ===== src/Ack/Tests.antt =====
-- libxen2mx/omx_ack.c: acks and nacks of three sends across the wrap-around.
use xen2mx.Base.{
  ℕ, ◌<◌, ◌≤◌, ◌≡◌, refl, ◌⊎◌, Option, none, [], ◌∷◌, some, true, false, arith, ◌==◌, if◌then◌else◌,
}
use xen2mx.Seqnum.{same_session, seqnum_distance}
use xen2mx.Ack.{
  Request, Sender, send_tiny, send_large, send_mediumsq, handle_ack, handle_liback, handle_nack,
  ack_requests, mark_request_acked, acked_by_type, error_with_req,
}
use xen2mx.Ack.Window.{IsWindow, IsOrdered}
use xen2mx.Ack.Laws.{Handled, handle_ack_lem}
use xen2mx.Ack.Nack.{Nacked, IsRefused, NoneAt, handle_nack_lem}

abbrev requests : ℕ → Request
requests r = record {
  type = if r == 0 then send_tiny else if r == 1 then send_mediumsq else send_large;
  send_seqnum = if r == 0 then 16383 else if r == 1 then 0 else 1;
  need_ack = true;
  need_reply = true;
  driver_sending = true;
  code = 0;
}

abbrev sender : Sender
sender = record {
  requests = requests;
  partner_non_acked = 0 ∷ 1 ∷ 2 ∷ [];
  partner_connect = 9 ∷ [];
  non_acked = 0 ∷ 2 ∷ [];
  need_reply = [];
  next_send_seq = 2;
  next_acked_send_seq = 16383;
  last_recv_acknum = 4;
  large_sends_avail = 3;
  put_regions = [];
  completed = [];
}

abbrev keep_code : ℕ → ℕ
keep_code code = code

sender-IsWindow : IsWindow sender
sender-IsWindow = record {
  next_u16 = omega arith;
  acked_u16 = omega arith;
  ordered =
      unfold IsOrdered in
      (
        omega arith,
        omega arith,
        refl,
        omega arith,
        (
          omega arith,
          omega arith,
          refl,
          omega arith,
          (omega arith, omega arith, refl, omega arith, tt),
        ),
      );
}

handle_ack_lem_example :
    (((seqnum_distance 1 16383 ≡ 0) ⊎ (3 < 2)) × (handle_ack keep_code sender 1 ≡ some (sender, 0)))
    ⊎ ((0 < 2) × (2 ≤ 3) × Handled keep_code sender 1 (handle_ack keep_code sender 1))
handle_ack_lem_example = handle_ack_lem keep_code sender 1 sender-IsWindow (omega arith)

abbrev state_of : Option (Sender × ℕ) → Sender
state_of none = sender
state_of (some (s, n)) = s

-- All three are acked: the tiny send is complete, the medium one still with the driver, and the
-- large one waits for its reply.
all_acked : Sender
all_acked = state_of (handle_ack keep_code sender 2)

all_acked_lem : handle_ack keep_code sender 2 ≡ some (all_acked, 3)
unfolding all_acked handle_ack ack_requests mark_request_acked acked_by_type error_with_req
all_acked_lem = refl

handle_nack_lem_example :
    ((same_session 0 2 ≡ true) × Nacked keep_code sender 1 7 (handle_nack keep_code sender 0 7))
    ⊎ (((same_session 0 2 ≡ false) ⊎ NoneAt sender 1 (0 ∷ 1 ∷ 2 ∷ []))
        × ((after : Sender) × (handle_nack keep_code sender 0 7 ≡ some after)
            × IsRefused keep_code sender 7 (9 ∷ []) after))
handle_nack_lem_example = handle_nack_lem keep_code sender 0 7 sender-IsWindow

abbrev explicit : Sender
explicit = state_of (handle_liback keep_code sender 1 5)

explicit_lem : handle_liback keep_code sender 1 5 ≡ some (explicit, 2)
unfolding handle_liback handle_ack ack_requests mark_request_acked acked_by_type error_with_req
explicit_lem = refl
