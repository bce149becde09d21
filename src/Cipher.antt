-- ===== src/Cipher.antt =====
-- The ciphers on frames: src/rtllib_crypt_wep.c, src/rtllib_crypt_ccmp.c, src/rtllib_crypt_tkip.c. A frame is the list of
-- its bytes; the block and stream ciphers of the kernel are parameters.
pub mod Wep
pub mod Ccmp
pub mod Tkip
use rtl8190p.Common.{ℕ, ◌+◌, ◌-◌, ◌≤◌, ◌≡◌, arith, List}

-- What is used of sk_buff: skb_headroom, skb_tailroom, and the bytes from `data` on. Whether the hardware
-- encrypts, bHwSec of the descriptor in `cb`, is an argument of each routine.
pub record SkBuff : Type 0 where
  pub headroom : ℕ
  pub tailroom : ℕ
  pub bytes : List ℕ

-- What a routine returns: a number from 0 on, a negative number, or an error of the kernel's cipher.
pub data Outcome : Type 0 where
  done : ℕ → Outcome
  error : ℕ → Outcome
  cipher_error : Outcome

-- A frame that grew by `n` bytes in front and `k` behind.
unfoldable pub grown : ℕ → ℕ → List ℕ → SkBuff → SkBuff
grown n k bytes s = record s { headroom = s.headroom - n; tailroom = s.tailroom - k; bytes = bytes }

-- A frame that shrank by `n` bytes in front and `k` behind.
unfoldable pub shrunk : ℕ → ℕ → List ℕ → SkBuff → SkBuff
shrunk n k bytes s = record s {
  headroom = s.headroom + n;
  tailroom = s.tailroom + k;
  bytes = bytes;
}

pub shrunk-grown :
    (n k : ℕ) (bytes other : List ℕ) (s : SkBuff)
    → n ≤ s.headroom
    → k ≤ s.tailroom
    → bytes ≡ s.bytes
    → shrunk n k bytes (grown n k other s) ≡ s
unfolding shrunk grown
shrunk-grown n k bytes other s p q e = ground arith
