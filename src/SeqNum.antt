-- ===== src/SeqNum.antt =====
-- 802.11 sequence numbers, modulo 4096: the macros SN_LESS and SN_EQUAL of src/rtllib.h.
mod Tests
use rtl8190p.Common.{ℕ, ◌+◌, ◌-◌, ◌*◌, ◌/◌, ◌%◌, ◌^◌, ◌≤◌, ◌<◌, ◌≡◌, ◌≢◌, ◌⊎◌, ◌↔◌, arith}
use rtl8190p.Common.{Bool, true, false, ◌==◌, if◌then◌else◌}

-- `((a - b) & 0x800) != 0`: bit 11 of the difference, an `int`, which wraps at 2 ^ 32.
unfoldable pub sn_less : ℕ → ℕ → Bool
sn_less a b = (a + 2 ^ 32 - b) / 2 ^ 11 % 2 == 1

-- `a == b`
abbrev pub sn_equal : ℕ → ℕ → Bool
sn_equal a b = a == b

-- How far `a` lies ahead of the start `w`, going round at 4096.
abbrev pub ahead : ℕ → ℕ → ℕ
ahead w a = (a + 4096 - w) % 4096

-- On sequence numbers SN_LESS holds exactly when the second lies 1 to 2048 ahead of the first.
pub sn_less_iff :
    (a b : ℕ) → a < 4096 → b < 4096 → (sn_less a b ≡ true) ↔ ((1 ≤ ahead a b) × (ahead a b ≤ 2048))
unfolding sn_less
sn_less_iff a b ha hb = ground arith
