-- ===== src/SeqNum/Tests.antt =====
-- Tests of the sequence number macros.
use rtl8190p.Common.{◌≡◌, ◌≤◌, ◌↔◌, arith, refl, true, false}
use rtl8190p.SeqNum.{sn_less, sn_less_iff}

sn_less_wraps : (sn_less 4095 3 ≡ true) × (sn_less 3 4095 ≡ false)
unfolding sn_less
sn_less_wraps = (refl, refl)

sn_less_iff_example : (sn_less 4095 3 ≡ true) ↔ ((1 ≤ 4) × (4 ≤ 2048))
sn_less_iff_example = sn_less_iff 4095 3 (omega arith) (omega arith)
