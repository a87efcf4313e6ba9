-- ===== src/Seqnum/Laws.antt =====
-- libxen2mx/omx_types.h: sequence numbers across their wrap-around.
use xen2mx.Base.{ℕ, ◌-◌, ◌≤◌, ◌<◌, ◌≡◌, true, arith}
use xen2mx.Seqnum.{seqnum_mod, u16_mod, seqnum_distance, same_session, increase_by}

-- Moving on by n < 2 ^ 14 stays within 16 bits and in the session, also where the sequence number
-- wraps around, and the distance back is n.
pub increase_by_lem :
    (x n : ℕ)
    → x < u16_mod
    → n < seqnum_mod
    → (increase_by x n < u16_mod)
      × (same_session (increase_by x n) x ≡ true)
      × (seqnum_distance (increase_by x n) x ≡ n)
increase_by_lem x n h k = ground arith

-- Moving the point of reference on by d shortens the distances from d on by d.
pub seqnum_distance-shift :
    (x from to : ℕ)
    → x < u16_mod
    → from < u16_mod
    → to < u16_mod
    → seqnum_distance to from ≤ seqnum_distance x from
    → seqnum_distance x to ≡ seqnum_distance x from - seqnum_distance to from
seqnum_distance-shift x from to h₁ h₂ h₃ le = omega arith
