-- ===== src/ToAck/Tests.antt =====
-- libxen2mx/omx_ack.c: acks to three partners.
use xen2mx.Base.{ℕ, ◌≡◌, ◌⊎◌, List, [], ◌∷◌, Option, none, some, true, false, arith}
use xen2mx.ToAck.{no_ack, Acking, prepare_progress_wakeup}
use xen2mx.ToAck.Listed.{IsListed}
use xen2mx.ToAck.Kept.{
  AckCall, ask_delayed, ask_immediate, piggyback, process, flush_all, ack_run, ack_run-IsListed,
}
use xen2mx.ToAck.Process.{InTime, prepare_progress_wakeup_lem}

abbrev fresh : Acking
fresh = record {
  partners = λ p. record {
    need_ack = no_ack;
    oldest_recv_time_not_acked = 0;
    next_frag_recv_seq = 1;
    last_acked_recv_seq = 0;
    last_send_acknum = 0;
  };
  delayed_list = [];
  immediate_list = [];
  last_partners_acking_jiffies = 0;
  sent = [];
}

fresh-IsListed : IsListed fresh
fresh-IsListed = record {
  of_delayed = record { once = tt; only = λ p h. tt; all = λ p h. λ e. cc };
  of_immediate = record { once = tt; only = λ p h. tt; all = λ p h. λ e. cc };
}

-- The second ack cannot be sent.
abbrev asked : List AckCall
asked =
    ask_delayed 5 0
    ∷ ask_delayed 6 1
    ∷ ask_immediate 1
    ∷ ask_immediate 2
    ∷ piggyback 0
    ∷ process 9 2 (true ∷ false ∷ [])
    ∷ ask_delayed 9 0
    ∷ flush_all []
    ∷ []

ack_run-IsListed_example : IsListed (ack_run fresh asked)
ack_run-IsListed_example = ack_run-IsListed fresh asked fresh-IsListed

abbrev no_send : Option ℕ
no_send = none

abbrev first_ack : Option ℕ
first_ack = some 100

abbrev first_connect : Option ℕ
first_connect = some 90

prepare_progress_wakeup_lem_example :
    let wakeup = prepare_progress_wakeup 4 9 (some 100) none (some 90) in
    InTime wakeup (some 104)
    × InTime wakeup none
    × InTime wakeup (some 99)
    × (((wakeup ≡ 0) × (first_ack ≡ none) × (no_send ≡ none) × (first_connect ≡ none))
        ⊎ (some wakeup ≡ some 104)
        ⊎ (some wakeup ≡ no_send)
        ⊎ (some wakeup ≡ some 99))
prepare_progress_wakeup_lem_example =
    prepare_progress_wakeup_lem 4 9 (some 100) none (some 90) (omega arith) tt (omega arith)
