-- ===== src/ToAck.antt =====
-- libxen2mx/omx_lib.h and omx_ack.c: which partners an endpoint still has to send an ack to. The
-- partners stand in a store under their numbers; the two lists of the endpoint are lists of
-- numbers. Whether the ioctl that sends an ack succeeds is given by the list of its outcomes, one
-- per call; with none left, it succeeds.
pub mod Listed
pub mod Kept
pub mod Process
pub mod Tests
use xen2mx.Base.{
  ℕ, ◌+◌, ◌-◌, ◌%◌, ◌^◌, List, [], ◌∷◌, ◌++◌, Option, none, some, Bool, true, false, ltb, not, ◌||◌,
  ◌==◌, if◌then◌else◌, update, add32,
}
use xen2mx.Seqnum.{seqnum_distance}
use xen2mx.Ack.{dequeue}

-- enum omx__partner_need_ack
pub data NeedAck : Type 0 where
  no_ack delayed immediate : NeedAck

pub record Partner : Type 0 where
  pub need_ack : NeedAck
  pub oldest_recv_time_not_acked : ℕ
  pub next_frag_recv_seq : ℕ
  pub last_acked_recv_seq : ℕ
  pub last_send_acknum : ℕ

pub record Acking : Type 0 where
  pub partners : ℕ → Partner
  pub delayed_list : List ℕ
  pub immediate_list : List ℕ
  pub last_partners_acking_jiffies : ℕ
  -- the acks sent: the partner and the sequence number up to which it is acked
  pub sent : List (ℕ × ℕ)

abbrev pub set_partner : Acking → ℕ → Partner → Acking
set_partner a p v = record a { partners = update a.partners p v }

-- omx__mark_partner_need_ack_delayed, at time `now`
unfoldable pub mark_delayed : Acking → ℕ → ℕ → Acking
mark_delayed a now p = elim ((a.partners p).need_ack) [
  | no_ack ↦
      record (set_partner a p
        (record (a.partners p) { need_ack = delayed; oldest_recv_time_not_acked = now })) {
          delayed_list = a.delayed_list ++ (p ∷ []);
        }
  | _ ↦ a
]

-- omx__mark_partner_need_ack_immediate
unfoldable pub mark_immediate : Acking → ℕ → Acking
mark_immediate a p = elim ((a.partners p).need_ack) [
  | immediate ↦ a
  | delayed ↦ record (set_partner a p (record (a.partners p) { need_ack = immediate })) {
    delayed_list = dequeue p a.delayed_list;
    immediate_list = p ∷ a.immediate_list;
  }
  | no_ack ↦ record (set_partner a p (record (a.partners p) { need_ack = immediate })) {
    immediate_list = a.immediate_list ++ (p ∷ []);
  }
]

-- omx__mark_partner_ack_sent
unfoldable pub mark_ack_sent : Acking → ℕ → Acking
mark_ack_sent a p =
    let v = record (a.partners p) {
      need_ack = no_ack;
      last_acked_recv_seq = (a.partners p).next_frag_recv_seq;
    } in
    elim ((a.partners p).need_ack) [
      | no_ack ↦ set_partner a p v
      | delayed ↦ record (set_partner a p v) { delayed_list = dequeue p a.delayed_list }
      | immediate ↦ record (set_partner a p v) { immediate_list = dequeue p a.immediate_list }
    ]

-- omx__submit_send_liback: the ack number counts up even if the ioctl fails.
unfoldable pub submit_liback : Acking → ℕ → Bool → Acking
submit_liback a p ok =
    let a' =
      set_partner a p
        (record (a.partners p) { last_send_acknum = add32 (a.partners p).last_send_acknum 1 }) in
    if ok then record a' { sent = a.sent ++ ((p, (a.partners p).next_frag_recv_seq) ∷ []) } else a'

abbrev pub outcome : List Bool → Bool
outcome [] = true
outcome (ok ∷ oks) = ok

abbrev pub later : List Bool → List Bool
later [] = []
later (ok ∷ oks) = oks

-- The loop over the immediate list: it stops at the first failure. It gives the outcomes left.
unfoldable pub ack_immediate : Acking → List ℕ → List Bool → Acking × List Bool
unfolding submit_liback mark_ack_sent
ack_immediate a [] oks = (a, oks)
ack_immediate a (p ∷ ps) oks =
    let rest = ack_immediate (mark_ack_sent (submit_liback a p true) p) ps (later oks) in
    if outcome oks then rest else (submit_liback a p false, later oks)

abbrev u64_mod : ℕ
u64_mod = 2 ^ 64

-- now - oldest < ack_delay_jiffies, in 64 bits
abbrev pub is_recent : ℕ → ℕ → Partner → Bool
is_recent now delay v = ltb ((now + u64_mod - v.oldest_recv_time_not_acked) % u64_mod) delay

-- The loop over the delayed list: it stops at the first partner that can wait, or failure.
unfoldable pub ack_delayed : ℕ → ℕ → Acking → List ℕ → List Bool → Acking
unfolding submit_liback mark_ack_sent
ack_delayed now delay a [] oks = a
ack_delayed now delay a (p ∷ ps) oks =
    let rest = ack_delayed now delay (mark_ack_sent (submit_liback a p true) p) ps (later oks) in
    if is_recent now delay (a.partners p)
    then a
    else if outcome oks
    then rest
    else submit_liback a p false

-- omx__process_partners_to_ack
unfoldable pub process_partners_to_ack : ℕ → ℕ → Acking → List Bool → Acking
unfolding ack_immediate ack_delayed
process_partners_to_ack now delay a oks =
    let (a₁, oks₁) = ack_immediate a a.immediate_list oks in
    if now == a₁.last_partners_acking_jiffies
    then a₁
    else ack_delayed now delay (record a₁ { last_partners_acking_jiffies = now }) a₁.delayed_list
        oks₁

-- omx__flush_partners_to_ack: a partner whose ack fails is passed over.
unfoldable pub flush : Acking → List ℕ → List Bool → Acking
unfolding submit_liback mark_ack_sent
flush a [] oks = a
flush a (p ∷ ps) oks =
    let done = flush (mark_ack_sent (submit_liback a p true) p) ps (later oks) in
    let passed = flush (submit_liback a p false) ps (later oks) in
    if outcome oks then done else passed

-- omx__prepare_progress_wakeup: the candidate replaces the time found so far if it is earlier, or
-- if there is none, which is 0.
abbrev pub earlier : ℕ → Option ℕ → ℕ
earlier wakeup none = wakeup
earlier wakeup (some t) = if ltb t wakeup || (wakeup == 0) then t else wakeup

abbrev pub after_delay : ℕ → Option ℕ → Option ℕ
after_delay delay none = none
after_delay delay (some t) = some ((t + delay) % u64_mod)

-- Given the time of the first delayed ack, of the first send that is not acked and of the first
-- connect request, where there are such.
unfoldable pub prepare_progress_wakeup : ℕ → ℕ → Option ℕ → Option ℕ → Option ℕ → ℕ
prepare_progress_wakeup ack_delay resend_delay first_ack first_send first_connect =
    earlier
      (earlier (earlier 0 (after_delay ack_delay first_ack)) (after_delay resend_delay first_send))
      (after_delay resend_delay first_connect)
