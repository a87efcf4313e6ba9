-- ===== src/Seqnum.antt =====
-- libxen2mx/omx_types.h: sequence numbers of 14 bits under 2 bits of session number, in 16 bits.
pub mod Laws
use xen2mx.Base.{ℕ, ◌+◌, ◌-◌, ◌*◌, ◌/◌, ◌%◌, ◌^◌, Bool, ◌==◌}

abbrev pub seqnum_mod : ℕ
seqnum_mod = 2 ^ 14

abbrev pub u16_mod : ℕ
u16_mod = 2 ^ 16

-- OMX__SEQNUM
abbrev pub seqnum : ℕ → ℕ
seqnum x = x % seqnum_mod

-- OMX__SESNUM
abbrev pub sesnum : ℕ → ℕ
sesnum x = x / seqnum_mod % 4 * seqnum_mod

-- OMX__SEQNUM(a - b), for a and b of 16 bits
abbrev pub seqnum_distance : ℕ → ℕ → ℕ
seqnum_distance a b = (a + u16_mod - b) % seqnum_mod

-- OMX__SESNUM(a ^ b) == 0
abbrev pub same_session : ℕ → ℕ → Bool
same_session a b = sesnum a == sesnum b

-- OMX__SEQNUM_INCREASE_BY
abbrev pub increase_by : ℕ → ℕ → ℕ
increase_by x n = sesnum x + seqnum (x + n)

-- OMX__THROTTLING_OFFSET_MAX
abbrev pub throttling_offset_max : ℕ
throttling_offset_max = (2 ^ 14 - 1) / 2
