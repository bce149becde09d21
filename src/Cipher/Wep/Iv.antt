-- ===== src/Cipher/Wep/Iv.antt =====
-- The initialisation vectors that prism2_wep_encrypt uses.
use rtl8190p.Common.{ℕ, ◌/◌, ◌%◌, ◌^◌, ◌≤◌, ◌≡◌, arith}
use rtl8190p.Cipher.Wep.{next_iv}

-- No vector that is used is weak: where its second byte is 255 and its first is 3 at least, the first
-- is not below the length of the key.
pub next_iv-not_weak :
    (iv klen : ℕ)
    → let v = next_iv iv klen in
      v / 256 % 256 ≡ 255 → 3 ≤ v / 2 ^ 16 % 256 → klen ≤ v / 2 ^ 16 % 256
unfolding next_iv
next_iv-not_weak iv klen h low = ground arith
