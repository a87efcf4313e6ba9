-- ===== src/EventQueue/Wait.antt =====
-- driver/linux/omx_event.c, omx_ioctl_wait_event: the call by which a process sleeps until an event.
-- What other contexts do while it runs is an argument: what they store in the waiter's status while
-- the call sets up, and what they or the timer store while it sleeps. The
-- comparisons of jiffies are those of driver/linux/omx_hal.h. The waiter that the call puts on the list and takes off again is local.
use xen2mx.Base.{
  ℕ, ◌+◌, ◌^◌, ◌-◌, ◌%◌, ◌≡◌, ◌≢◌, Bool, true, false, not, ◌&&◌, ◌||◌, Option, none, some, arith,
  ◌==◌, if◌then◌else◌, ltb, leb,
}
use xen2mx.EventQueue.{Endpoint, WaitStatus, nothing, intr, race}

-- struct omx_cmd_wait_event, without the status that the call writes.
pub record WaitCmd : Type 0 where
  pub next_exp_event_index : ℕ
  pub next_unexp_event_index : ℕ
  pub user_event_index : ℕ
  pub jiffies_expire : ℕ

-- The handler that the timer would run: it stores this status.
pub data TimerHandler : Type 0 where
  on_timeout on_progress : TimerHandler

-- What the call finds around it.
pub record Surroundings : Type 0 where
  pub copy_in_ok : Bool
  pub kmalloc_ok : Bool
  pub copy_out_ok : Bool
  pub wakeup_jiffies : ℕ
  pub user_event_index : ℕ
  pub jiffies : ℕ
  pub signal_pending : Bool
  -- stored by others before the decision to sleep; `nothing` if nobody did
  pub while_setup : WaitStatus
  -- stored during the sleep, given the timer that was set
  pub while_asleep : Option (TimerHandler × ℕ) → WaitStatus

pub data WaitError : Type 0 where
  efault enomem : WaitError

pub data WaitResult : Type 0 where
  failed : WaitError → WaitResult
  -- the status reported, the timer that was set, and whether the process slept
  reported : WaitStatus → Option (TimerHandler × ℕ) → Bool → WaitResult

-- OMX_CMD_WAIT_EVENT_TIMEOUT_INFINITE and OMX_NO_WAKEUP_JIFFIES
abbrev pub timeout_infinite : ℕ
timeout_infinite = 2 ^ 64 - 1

abbrev pub no_wakeup_jiffies : ℕ
no_wakeup_jiffies = 0

abbrev pub is_nothing : WaitStatus → Bool
is_nothing nothing = true
is_nothing _ = false

-- From the label `wakeup` on: a status that nobody changed becomes INTR and is copied out.
unfoldable pub finish : Surroundings → WaitStatus → Option (TimerHandler × ℕ) → Bool → WaitResult
finish s status timer slept =
    if s.copy_out_ok
    then reported (if is_nothing status then intr else status) timer slept
    else failed efault

-- The three indices that the library passes against those of the endpoint.
unfoldable pub index_race : Endpoint → WaitCmd → Surroundings → Bool
index_race ep cmd s =
    not (cmd.next_exp_event_index == ep.nextfree_exp)
    || not (cmd.next_unexp_event_index == ep.nextreserved_unexp)
    || not (cmd.user_event_index == s.user_event_index)

abbrev u64_mod : ℕ
u64_mod = 2 ^ 64

-- The source's (s64)(b - a) < 0.
unfoldable pub time_after64 : ℕ → ℕ → Bool
time_after64 a b = leb (2 ^ 63) ((b + u64_mod - a) % u64_mod)

-- The source's (s64)(a - b) >= 0.
unfoldable pub time_after_eq64 : ℕ → ℕ → Bool
time_after_eq64 a b = ltb ((a + u64_mod - b) % u64_mod) (2 ^ 63)

-- The timer, from the ioctl or from the progression timeout.
unfoldable pub choose_timer : WaitCmd → Surroundings → Option (TimerHandler × ℕ)
choose_timer cmd s =
    let asked = not (cmd.jiffies_expire == timeout_infinite) in
    if not (s.wakeup_jiffies == no_wakeup_jiffies)
      && (not asked || time_after64 cmd.jiffies_expire s.wakeup_jiffies)
    then some (on_progress, s.wakeup_jiffies)
    else if asked
    then some (on_timeout, cmd.jiffies_expire)
    else none

-- The timer that is to be set has already expired.
unfoldable pub expired : Surroundings → Option (TimerHandler × ℕ) → Bool
expired s none = false
expired s (some (handler, at)) = time_after_eq64 s.jiffies at

-- schedule() unless somebody has stored a status or a signal is pending.
unfoldable pub sleep : Surroundings → Option (TimerHandler × ℕ) → WaitResult
unfolding finish
sleep s timer =
    if is_nothing s.while_setup && not s.signal_pending
    then finish s (s.while_asleep timer) timer true
    else finish s s.while_setup timer false

unfoldable pub arm_and_sleep : Surroundings → Option (TimerHandler × ℕ) → WaitResult
unfolding sleep
arm_and_sleep s timer = if expired s timer then finish s race none false else sleep s timer

-- In the branch of an index race the source sets cmd.status, and not the waiter's.
unfoldable pub wait_event : Endpoint → WaitCmd → Surroundings → WaitResult
unfolding arm_and_sleep
wait_event ep cmd s =
    if not s.copy_in_ok
    then failed efault
    else if not s.kmalloc_ok
    then failed enomem
    else if index_race ep cmd s
    then finish s s.while_setup none false
    else arm_and_sleep s (choose_timer cmd s)

-- What the caller sees is never NONE, which is not meant for user space.
pub wait_event-ne-nothing :
    (ep : Endpoint) (cmd : WaitCmd) (s : Surroundings) (timer : Option (TimerHandler × ℕ))
    (slept : Bool)
    → wait_event ep cmd s ≢ reported nothing timer slept
unfolding wait_event
wait_event-ne-nothing ep cmd s timer slept h = ground arith

-- If an event came in since the library last looked, as the three indices show, nobody has stored
-- a status yet, and memory and copies are no problem, the call returns at once but reports an
-- interruption by a signal, and not the race that it detected.
pub wait_event-index_race :
    (ep : Endpoint) (cmd : WaitCmd) (s : Surroundings)
    → s.copy_in_ok ≡ true
    → s.kmalloc_ok ≡ true
    → s.copy_out_ok ≡ true
    → index_race ep cmd s ≡ true
    → s.while_setup ≡ nothing
    → wait_event ep cmd s ≡ reported intr none false
unfolding wait_event
wait_event-index_race ep cmd s h₁ h₂ h₃ h₄ h₅ = ground arith

-- The process sleeps only where nothing has happened: no index moved, no status was stored, no
-- signal is pending, and the timer that the two timeouts call for, if any, lies ahead. What is
-- reported is then what was stored during the sleep, and INTR if nothing was.
pub wait_event-slept :
    (ep : Endpoint) (cmd : WaitCmd) (s : Surroundings) (status : WaitStatus)
    (timer : Option (TimerHandler × ℕ))
    → wait_event ep cmd s ≡ reported status timer true
    → (index_race ep cmd s ≡ false)
      × (s.while_setup ≡ nothing)
      × (s.signal_pending ≡ false)
      × (timer ≡ choose_timer cmd s)
      × (expired s timer ≡ false)
      × (status ≡ (if is_nothing (s.while_asleep timer) then intr else s.while_asleep timer))
unfolding wait_event
wait_event-slept ep cmd s status timer h = ground arith
