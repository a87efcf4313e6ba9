-- ===== src/EventQueue/Steps.antt =====
-- The operations of driver/linux/omx_event.c that change the queues, as one step function: any
-- sequence of calls is a list of them. A step is `none` where the driver stops at BUG_ON.
use xen2mx.Base.{
  ◌≡◌, subst, some-injective, Option-cases, inl, inr, ℕ, ◌+◌, ◌<◌, List, [], ◌∷◌, Option, none,
  some, u32_mod,
}
use xen2mx.EventQueue.{
  Endpoint, Event, entry_nr, notify_exp_event, notify_unexp_event, prepare_event, prepare_events,
  commit_event, cancel_event, release_exp_slots, release_unexp_slots,
}

pub data Call : Type 0 where
  notify_exp notify_unexp commit : Event → Call
  prepare cancel release_exp release_unexp : Call
  prepare_many : ℕ → Call

unfoldable pub step : Endpoint → Call → Option Endpoint
step ep (notify_exp e) = some (notify_exp_event ep e).1
step ep (notify_unexp e) = some (notify_unexp_event ep e).1
step ep (commit e) = commit_event ep e
step ep prepare = some (prepare_event ep).2
step ep cancel = cancel_event ep
step ep release_exp = some (release_exp_slots ep).1
step ep release_unexp = some (release_unexp_slots ep).1
step ep (prepare_many nr) = some (prepare_events ep nr).2

unfoldable pub run : Endpoint → List Call → Option Endpoint
run ep [] = some ep
run ep (c ∷ cs) = elim (step ep c) [ none ↦ none | some ep' ↦ run ep' cs ]

-- The callers ask for at most a few dozen slots at once.
abbrev pub IsSized : Call → Type 0
IsSized (prepare_many nr) = nr + entry_nr < u32_mod
IsSized _ = Unit {0}

abbrev pub AllSized : List Call → Type 0
AllSized [] = Unit {0}
AllSized (c ∷ cs) = IsSized c × AllSized cs

-- What every call keeps, every sequence of calls keeps.
pub run_inv {ℓ} :
    (P : Endpoint → Type ℓ)
    → ((ep ep' : Endpoint) (c : Call) → IsSized c → P ep → step ep c ≡ some ep' → P ep')
    → {ep ep' : Endpoint} (cs : List Call) → AllSized cs
    → P ep
    → run ep cs ≡ some ep'
    → P ep'
unfolding run
run_inv P keep [] z p h = subst P (some-injective _ _ h) p
run_inv P keep {ep} (c ∷ cs) z p h = elim (Option-cases (step ep c)) [
  | inl stop ↦ cc (rw (stop, run) at h)
  | inr (ep₁, e) ↦ run_inv P keep cs z.1 (keep ep ep₁ c z.0 p e) (rw (e, run) at h)
]
