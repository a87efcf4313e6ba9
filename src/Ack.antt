-- ===== src/Ack.antt =====
-- libxen2mx/omx_ack.c: what acks and nacks that a partner sends do to the requests that wait for
-- them. Requests stand in a store under their numbers, and the queues of an endpoint and of one
-- partner are lists of numbers. Completing a request is seen as recording its number with the
-- status; what the completion does with it is code of other files, as is the posting of throttled
-- sends, which is handed the number of sequence numbers that an ack sets free.

pub mod Window
pub mod Loop
pub mod Laws
pub mod Liback
pub mod Nack
pub mod Tests
use xen2mx.Base.{
  ℕ, ◌+◌, ◌<◌, List, [], ◌∷◌, ◌++◌, Option, none, some, Bool, true, false, ltb, leb, not, ◌||◌,
  ◌==◌, if◌then◌else◌, update,
}
use xen2mx.Seqnum.{seqnum_distance, same_session}

-- OMX_REQUEST_TYPE_*
pub data RequestType : Type 0 where
  no_type connect send_tiny send_small send_mediumsq send_mediumva send_large recv recv_large
        send_self recv_self_unexpected :
      RequestType

-- omx_return_t; OMX_SUCCESS is 0
abbrev pub success : ℕ
success = 0

-- union omx_request: the three bits of its state that matter here, and its status code.
pub record Request : Type 0 where
  pub type : RequestType
  pub send_seqnum : ℕ
  pub need_ack : Bool
  pub need_reply : Bool
  pub driver_sending : Bool
  pub code : ℕ

-- An endpoint with one partner.
pub record Sender : Type 0 where
  pub requests : ℕ → Request
  pub partner_non_acked : List ℕ
  pub partner_connect : List ℕ
  pub non_acked : List ℕ
  pub need_reply : List ℕ
  pub next_send_seq : ℕ
  pub next_acked_send_seq : ℕ
  pub last_recv_acknum : ℕ
  pub large_sends_avail : ℕ
  pub put_regions : List ℕ
  pub completed : List (ℕ × ℕ)

-- list_del
abbrev pub dequeue : ℕ → List ℕ → List ℕ
dequeue r [] = []
dequeue r (q ∷ qs) = if r == q then qs else q ∷ dequeue r qs

-- omx__send_complete, omx__recv_complete and omx__connect_complete
abbrev pub complete : Sender → ℕ → ℕ → Sender
complete s r status = record s { completed = s.completed ++ ((r, status) ∷ []) }

abbrev pub set_request : Sender → ℕ → Request → Sender
set_request s r req = record s { requests = update s.requests r req }

abbrev pub dequeue_non_acked : Sender → ℕ → Sender
dequeue_non_acked s r = record s { non_acked = dequeue r s.non_acked }

-- The error handler of the application: the code that it makes of an error.
module _ (error_handler : ℕ → ℕ) where
  -- omx__error_with_req
  unfoldable pub error_with_req : ℕ → ℕ
  error_with_req status = if status == success then success else error_handler status

  -- The switch of omx__mark_request_acked, for a request whose NEED_ACK bit is off; `none` is the
  -- abort for a request of another type.
  unfoldable pub acked_by_type : Sender → ℕ → Request → ℕ → RequestType → Option Sender
  unfolding error_with_req
  acked_by_type s r req status send_mediumsq = some (
      if req.driver_sending
      then (if req.code == success
          then set_request s r (record req { code = error_with_req status })
          else s)
      else complete (dequeue_non_acked s r) r status)
  acked_by_type s r req status send_large =
      let s' = dequeue_non_acked s r in
      some (
        if not (status == success)
        then complete
            (record (set_request s' r (record req { need_reply = false })) {
              put_regions = s.put_regions ++ (r ∷ []);
              large_sends_avail = s.large_sends_avail + 1;
            })
            r status
        else if req.need_reply
        then record s' { need_reply = s.need_reply ++ (r ∷ []) }
        else complete s' r status)
  acked_by_type s r req status connect = none
  acked_by_type s r req status recv = none
  acked_by_type s r req status no_type = none
  acked_by_type s r req status send_self = none
  acked_by_type s r req status recv_self_unexpected = none
  acked_by_type s r req status _ = some (complete (dequeue_non_acked s r) r status)

  -- omx__mark_request_acked
  unfoldable pub mark_request_acked : Sender → ℕ → ℕ → Option Sender
  unfolding acked_by_type
  mark_request_acked s r status =
      let req = record (s.requests r) { need_ack = false } in
      acked_by_type (set_request s r req) r req status req.type

  -- The loop of omx__handle_ack over the requests `queue` of the partner.
  unfoldable pub ack_requests : Sender → ℕ → List ℕ → Option Sender
  unfolding mark_request_acked
  ack_requests s new_acks [] = some s
  ack_requests s new_acks (r ∷ queue) =
      let req_index = seqnum_distance (s.requests r).send_seqnum s.next_acked_send_seq in
      if leb new_acks req_index
      then some s
      else elim (mark_request_acked (record s { partner_non_acked = queue }) r success) [
        | none ↦ none
        | some s' ↦ ack_requests s' new_acks queue
      ]

  -- omx__handle_ack: the new state, with the number of sends to give to
  -- omx__process_throttling_requests.
  unfoldable pub handle_ack : Sender → ℕ → Option (Sender × ℕ)
  unfolding ack_requests
  handle_ack s ack_before =
      let missing_acks = seqnum_distance s.next_send_seq s.next_acked_send_seq in
      let new_acks = seqnum_distance ack_before s.next_acked_send_seq in
      if (new_acks == 0) || ltb missing_acks new_acks
      then some (s, 0)
      else elim (ack_requests s new_acks s.partner_non_acked) [
        | none ↦ none
        | some s' ↦ some (record s' { next_acked_send_seq = ack_before }, new_acks)
      ]

  -- omx__handle_liback
  unfoldable pub handle_liback : Sender → ℕ → ℕ → Option (Sender × ℕ)
  unfolding handle_ack
  handle_liback s ack acknum =
      if not (same_session ack s.next_send_seq)
      then some (s, 0)
      else if leb acknum s.last_recv_acknum
      then some (s, 0)
      else handle_ack (record s { last_recv_acknum = acknum }) ack

  -- The search of omx__handle_nack among the sends: the request of this index.
  unfoldable pub find_nacked : Sender → ℕ → List ℕ → Option ℕ
  find_nacked s nack_index [] = none
  find_nacked s nack_index (r ∷ queue) =
      let req_index = seqnum_distance (s.requests r).send_seqnum s.next_acked_send_seq in
      if ltb nack_index req_index
      then none
      else if nack_index == req_index
      then some r
      else find_nacked s nack_index queue

  -- From the label try_connect_req on: the oldest connect request takes the nack. The completion
  -- takes it off the partner's queue; its status code and the endpoint's queue of connect requests
  -- are not part of this state.
  unfoldable pub nack_connect : Sender → ℕ → List ℕ → Sender
  nack_connect s status [] = s
  nack_connect s status (r ∷ queue) =
      complete
        (set_request (record s { partner_connect = queue }) r
          (record (s.requests r) { need_reply = false }))
        r status

  -- omx__handle_nack
  unfoldable pub handle_nack : Sender → ℕ → ℕ → Option Sender
  unfolding find_nacked nack_connect mark_request_acked
  handle_nack s seq status =
      let nack_index = seqnum_distance seq s.next_acked_send_seq in
      if not (same_session seq s.next_send_seq)
      then some (nack_connect s status s.partner_connect)
      else elim (find_nacked s nack_index s.partner_non_acked) [
        | none ↦ some (nack_connect s status s.partner_connect)
        | some r ↦
            mark_request_acked (record s { partner_non_acked = dequeue r s.partner_non_acked }) r
              status
      ]
