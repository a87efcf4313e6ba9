-- ===== src/ToAck/Process.antt =====
-- libxen2mx/omx_ack.c: when an endpoint that sleeps wants to be woken.
use xen2mx.Base.{ℕ, ◌≤◌, ◌≡◌, ◌≢◌, ◌⊎◌, Option, none, some, arith}
use xen2mx.ToAck.{after_delay, prepare_progress_wakeup}

-- A time that is not 0, which means none.
abbrev pub IsTime : Option ℕ → Type 0
IsTime none = Unit {0}
IsTime (some t) = t ≢ 0

-- The wake-up is not after this time.
abbrev pub InTime : ℕ → Option ℕ → Type 0
InTime wakeup none = Unit {0}
InTime wakeup (some t) = (wakeup ≢ 0) × (wakeup ≤ t)

-- If none of the candidate times is 0, the wake-up is at one of them, or 0 where there are none,
-- and none of them is earlier.
pub prepare_progress_wakeup_lem :
    (ack_delay resend_delay : ℕ) (ack send connect : Option ℕ)
    → IsTime (after_delay ack_delay ack)
    → IsTime (after_delay resend_delay send)
    → IsTime (after_delay resend_delay connect)
    → let wakeup = prepare_progress_wakeup ack_delay resend_delay ack send connect in
      InTime wakeup (after_delay ack_delay ack)
      × InTime wakeup (after_delay resend_delay send)
      × InTime wakeup (after_delay resend_delay connect)
      × (((wakeup ≡ 0) × (ack ≡ none) × (send ≡ none) × (connect ≡ none))
          ⊎ (some wakeup ≡ after_delay ack_delay ack)
          ⊎ (some wakeup ≡ after_delay resend_delay send)
          ⊎ (some wakeup ≡ after_delay resend_delay connect))
unfolding prepare_progress_wakeup
prepare_progress_wakeup_lem ack_delay resend_delay none none none h₁ h₂ h₃ = ground arith
prepare_progress_wakeup_lem ack_delay resend_delay none none (some c) h₁ h₂ h₃ = ground arith
prepare_progress_wakeup_lem ack_delay resend_delay none (some b) none h₁ h₂ h₃ = ground arith
prepare_progress_wakeup_lem ack_delay resend_delay none (some b) (some c) h₁ h₂ h₃ = ground arith
prepare_progress_wakeup_lem ack_delay resend_delay (some a) none none h₁ h₂ h₃ = ground arith
prepare_progress_wakeup_lem ack_delay resend_delay (some a) none (some c) h₁ h₂ h₃ = ground arith
prepare_progress_wakeup_lem ack_delay resend_delay (some a) (some b) none h₁ h₂ h₃ = ground arith
prepare_progress_wakeup_lem ack_delay resend_delay (some a) (some b) (some c) h₁ h₂ h₃ =
    ground arith
