-- ===== src/Ack/Window.antt =====
-- libxen2mx/omx_ack.c: the requests of a partner that wait for an ack, in the order of their
-- sequence numbers, and what the marking of one of them leaves alone.
use xen2mx.Base.{
  ℕ, ap₂, NotIn, suc, ◌-◌, ◌≤◌, ◌<◌, ◌≡◌, ◌≢◌, sym, ap, ◌∙◌, subst, List, [], ◌∷◌, none, some, Bool,
  true, false, arith, Bool-cases, ◌⊎◌, inl, inr, refl, ◌++◌, ◌∷◌, ◌==◌, if◌then◌else◌,
}
use native.Mathlib.Decide.{ℕ_discrete}
use xen2mx.Seqnum.{seqnum_distance, u16_mod}
use xen2mx.Seqnum.Laws.{seqnum_distance-shift}
use xen2mx.Ack.{
  RequestType, no_type, send_self, recv_self_unexpected, connect, recv, send_tiny, send_small,
  send_mediumsq, send_mediumva, send_large, recv_large, success, error_with_req, Sender,
  mark_request_acked,
}

-- The types that can be acked.
abbrev pub ackable : RequestType → Bool
ackable connect = false
ackable recv = false
ackable no_type = false
ackable send_self = false
ackable recv_self_unexpected = false
ackable _ = true

-- The distance of a request from the first sequence number that is not acked.
abbrev pub index : Sender → ℕ → ℕ
index s r = seqnum_distance (s.requests r).send_seqnum s.next_acked_send_seq

-- Requests of indices from `low` up to, not including, `high`, in increasing order.
unfoldable pub IsOrdered : Sender → ℕ → ℕ → List ℕ → Type 0
IsOrdered s low high [] = Unit {0}
IsOrdered s low high (r ∷ rs) =
    (low ≤ index s r)
    × (index s r < high)
    × (ackable (s.requests r).type ≡ true)
    × ((s.requests r).send_seqnum < u16_mod)
    × IsOrdered s (suc (index s r)) high rs

-- The waiting requests of the partner have sequence numbers between the first that is not acked and
-- the next to be used.
pub record IsWindow (s : Sender) : Type 0 where
  pub next_u16 : s.next_send_seq < u16_mod
  pub acked_u16 : s.next_acked_send_seq < u16_mod
  pub ordered :
      IsOrdered s 0 (seqnum_distance s.next_send_seq s.next_acked_send_seq) s.partner_non_acked

type-cases :
    (t : RequestType)
    → (t ≡ send_large) ⊎ ((t ≡ send_mediumsq) ⊎ ((t ≢ send_large) × (t ≢ send_mediumsq)))
type-cases send_large = inl refl
type-cases send_mediumsq = inr (inl refl)
type-cases no_type = inr (inr (λ e. ground arith, λ e. ground arith))
type-cases connect = inr (inr (λ e. ground arith, λ e. ground arith))
type-cases send_tiny = inr (inr (λ e. ground arith, λ e. ground arith))
type-cases send_small = inr (inr (λ e. ground arith, λ e. ground arith))
type-cases send_mediumva = inr (inr (λ e. ground arith, λ e. ground arith))
type-cases recv = inr (inr (λ e. ground arith, λ e. ground arith))
type-cases recv_large = inr (inr (λ e. ground arith, λ e. ground arith))
type-cases send_self = inr (inr (λ e. ground arith, λ e. ground arith))
type-cases recv_self_unexpected = inr (inr (λ e. ground arith, λ e. ground arith))

module _ (error_handler : ℕ → ℕ) where
  pub mark-total :
      (s : Sender) (r status : ℕ)
      → ackable (s.requests r).type ≡ true
      → mark_request_acked error_handler s r status ≢ none
  unfolding mark_request_acked
  mark-total s r status h = ground arith

  pub mark-counters :
      (s s' : Sender) (r status : ℕ)
      → mark_request_acked error_handler s r status ≡ some s'
      → (s'.partner_non_acked ≡ s.partner_non_acked)
        × (s'.next_send_seq ≡ s.next_send_seq)
        × (s'.next_acked_send_seq ≡ s.next_acked_send_seq)
        × (s'.last_recv_acknum ≡ s.last_recv_acknum)
        × (s'.partner_connect ≡ s.partner_connect)
  unfolding mark_request_acked
  mark-counters s s' r status h = ground arith

  pub mark-others :
      (s s' : Sender) (r status j : ℕ)
      → mark_request_acked error_handler s r status ≡ some s'
      → r ≢ j
      → s'.requests j ≡ s.requests j
  unfolding mark_request_acked
  mark-others s s' r status j h n = ground arith

  pub mark-acked :
      (s s' : Sender) (r status : ℕ)
      → mark_request_acked error_handler s r status ≡ some s'
      → (s'.requests r).need_ack ≡ false
  unfolding mark_request_acked
  mark-acked s s' r status h = ground arith

  -- What a status makes of a request: it is completed with the status, unless the driver still sends
  -- it, where the status is kept for the end of the sending if no earlier one is, or it is a large send
  -- without an error that waits for its reply.
  pub data IsMarked (s s' : Sender) (r status : ℕ) : Type 0 where
    ended :
        ¬ (((s.requests r).type ≡ send_mediumsq) × ((s.requests r).driver_sending ≡ true))
        → ¬ (
            ((s.requests r).type ≡ send_large)
            × (status ≡ success)
            × ((s.requests r).need_reply ≡ true))
        → s'.completed ≡ s.completed ++ ((r, status) ∷ [])
        → IsMarked s s' r status
    sending :
        (s.requests r).type ≡ send_mediumsq
        → (s.requests r).driver_sending ≡ true
        → (s'.requests r).code ≡ (
            if (s.requests r).code == success
            then error_with_req error_handler status
            else (s.requests r).code)
        → s'.completed ≡ s.completed
        → IsMarked s s' r status
    replying :
        (s.requests r).type ≡ send_large
        → status ≡ success
        → (s.requests r).need_reply ≡ true
        → s'.completed ≡ s.completed
        → s'.need_reply ≡ s.need_reply ++ (r ∷ [])
        → IsMarked s s' r status

  mark-large :
      (s s' : Sender) (r status : ℕ)
      → (s.requests r).type ≡ send_large
      → mark_request_acked error_handler s r status ≡ some s'
      → IsMarked s s' r status
  unfolding mark_request_acked
  mark-large s s' r status t h = elim (ℕ_discrete status success) [
    | no bad ↦ ended (λ e. ground (arith, t, e.0)) (λ e. bad e.1) (ground (arith, h, t, bad))
    | yes good ↦ elim (Bool-cases (s.requests r).need_reply) [
      | inl w ↦ replying t good w (ground (arith, h, t, good, w)) (ground (arith, h, t, good, w))
      | inr w ↦
          ended (λ e. ground (arith, t, e.0)) (λ e. ground (arith, w, e.2))
            (ground (arith, h, t, good, w))
    ]
  ]

  mark-medium :
      (s s' : Sender) (r status : ℕ)
      → (s.requests r).type ≡ send_mediumsq
      → mark_request_acked error_handler s r status ≡ some s'
      → IsMarked s s' r status
  unfolding mark_request_acked
  mark-medium s s' r status t h = elim (Bool-cases (s.requests r).driver_sending) [
    | inl d ↦ sending t d (ground (arith, h, t, d)) (ground (arith, h, t, d))
    | inr d ↦
        ended (λ e. ground (arith, d, e.1)) (λ e. ground (arith, t, e.0)) (ground (arith, h, t, d))
  ]

  pub mark-IsMarked :
      (s s' : Sender) (r status : ℕ)
      → mark_request_acked error_handler s r status ≡ some s'
      → IsMarked s s' r status
  mark-IsMarked s s' r status h = elim (type-cases (s.requests r).type) [
    | inl t ↦ mark-large s s' r status t h
    | inr (inl t) ↦ mark-medium s s' r status t h
    | inr (inr (l, m)) ↦
        ended (λ e. m e.0) (λ e. l e.0) (unfold mark_request_acked in ground (arith, h, l, m))
  ]

  pub mark-kept :
      (s s' : Sender) (r status j : ℕ)
      → mark_request_acked error_handler s r status ≡ some s'
      → ((s'.requests j).send_seqnum ≡ (s.requests j).send_seqnum)
        × ((s'.requests j).type ≡ (s.requests j).type)
  unfolding mark_request_acked
  mark-kept s s' r status j h = ground arith

-- The order depends on the sequence numbers and the types alone.
pub IsOrdered-kept :
    (s s' : Sender) (low high : ℕ) (rs : List ℕ)
    → s'.next_acked_send_seq ≡ s.next_acked_send_seq
    → ((j : ℕ)
        → ((s'.requests j).send_seqnum ≡ (s.requests j).send_seqnum)
          × ((s'.requests j).type ≡ (s.requests j).type))
    → IsOrdered s low high rs
    → IsOrdered s' low high rs
unfolding IsOrdered
IsOrdered-kept s s' low high [] e k o = o
IsOrdered-kept s s' low high (r ∷ rs) e k (l, h, t, u, o) =
    let same : index s' r ≡ index s r = ap₂ seqnum_distance (k r).0 e in
    (
      subst (λ i. low ≤ i) (sym same) l,
      subst (λ i. i < high) (sym same) h,
      ap ackable (k r).1 ∙ t,
      subst (λ i. i < u16_mod) (sym (k r).0) u,
      subst (λ i. IsOrdered s' (suc i) high rs) (sym same)
          (IsOrdered-kept s s' (suc (index s r)) high rs e k o),
    )

-- A request of a lower index is not among them.
pub IsOrdered-NotIn :
    (s : Sender) (r low high : ℕ) (rs : List ℕ)
    → index s r < low
    → IsOrdered s low high rs
    → NotIn r rs
unfolding IsOrdered
IsOrdered-NotIn s r low high [] h o = tt
IsOrdered-NotIn s r low high (q ∷ qs) h (l, k, t, u, o) = (
  λ p. omega (arith, ap (index s) p),
  IsOrdered-NotIn s r (suc (index s q)) high qs (omega arith) o,
)

-- With the point of reference moved on by `new`, the indices from there on shrink by it.
pub IsOrdered-shift :
    (s : Sender) (to low high : ℕ) (rs : List ℕ)
    → s.next_acked_send_seq < u16_mod
    → to < u16_mod
    → seqnum_distance to s.next_acked_send_seq ≤ low
    → IsOrdered s low high rs
    → IsOrdered
        (record s { next_acked_send_seq = to })
        (low - seqnum_distance to s.next_acked_send_seq)
        (high - seqnum_distance to s.next_acked_send_seq)
        rs
unfolding IsOrdered
IsOrdered-shift s to low high [] h₁ h₂ le o = tt
IsOrdered-shift s to low high (r ∷ rs) h₁ h₂ le (l, h, t, u, o) =
    let moved : seqnum_distance (s.requests r).send_seqnum to
        ≡ index s r - seqnum_distance to s.next_acked_send_seq =
      seqnum_distance-shift (s.requests r).send_seqnum s.next_acked_send_seq to u h₁ h₂
        (omega arith) in
    (
      omega (arith, moved),
      omega (arith, moved),
      t,
      u,
      subst
          (λ i.
            IsOrdered (record s { next_acked_send_seq = to }) i
              (high - seqnum_distance to s.next_acked_send_seq) rs)
          {x = suc (index s r) - seqnum_distance to s.next_acked_send_seq} (omega (arith, moved))
          (IsOrdered-shift s to (suc (index s r)) high rs h₁ h₂ (omega arith) o),
    )
