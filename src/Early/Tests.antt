-- ===== src/Early/Tests.antt =====
-- libxen2mx/omx_recv.c: an early fragment that belongs between two others.
use xen2mx.Base.{ℕ, ◌⊎◌, refl, List, [], ◌∷◌, some, true, arith}
use xen2mx.Early.{Packet, EarlyPacket, small, medium_frag, postpone}
use xen2mx.Early.Laws.{Inserted, Known, postpone_lem}

abbrev fragment : ℕ → Packet
fragment n = record {
  type = medium_frag;
  seqnum = 1;
  frag_seqnum = n;
  own_length = 0;
  frag_length = 2;
  msg_length = 8;
  bytes = 5 ∷ 6 ∷ [];
}

abbrev before_wrap : Packet
before_wrap = record {
  type = small;
  seqnum = 16383;
  frag_seqnum = 0;
  own_length = 1;
  frag_length = 0;
  msg_length = 1;
  bytes = 9 ∷ [];
}

abbrev waiting : List EarlyPacket
waiting =
    record { msg = before_wrap; copied = some (9 ∷ []); length = 1 }
    ∷ record { msg = fragment 0; copied = some (5 ∷ 6 ∷ []); length = 8 }
    ∷ record { msg = fragment 2; copied = some (5 ∷ 6 ∷ []); length = 8 }
    ∷ []

postpone_lem_example :
    Inserted 16380 (fragment 1) waiting (postpone 16380 waiting (fragment 1) true true)
    ⊎ Known 16380 (fragment 1) waiting (postpone 16380 waiting (fragment 1) true true)
postpone_lem_example =
    postpone_lem 16380 waiting (fragment 1)
      ((omega arith, (omega arith, tt)), ((omega arith, tt), (tt, tt))) (omega arith)
      (
        omega arith,
        λ e. absurd (omega arith),
        (omega arith, λ e. refl, (omega arith, λ e. refl, tt)),
      )
