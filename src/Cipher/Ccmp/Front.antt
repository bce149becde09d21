-- ===== src/Cipher/Ccmp/Front.antt =====
-- ccmp_init_blocks reads the header only, so both sides see the same.
use rtl8190p.Common.{ℕ, ◌+◌, ◌/◌, ◌%◌, ◌≤◌, ◌<◌, ◌≡◌, refl, arith, ap, ap₂, ◌∙◌}
use rtl8190p.Common.{List, [], ◌∷◌, ◌++◌, if◌then◌else◌}
use rtl8190p.Common.{length, get_or, take, drop, slice, length-drop}
use rtl8190p.Common.{get_or-append_left, take-append_left, drop-append_left}
use rtl8190p.Cipher.Ccmp.{xor_block, a4_included, qc_included, qos_priority, nonce, aad, init_auth}

-- What ccmp_init_blocks reads lies within the first 32 bytes.
module _ (f xs : List ℕ) (long : 32 ≤ length f) where
  slice_front : (i n : ℕ) → i + n ≤ 32 → slice (f ++ xs) i n ≡ slice f i n
  slice_front i n h =
      ap (take n) (drop-append_left f xs i (omega arith))
      ∙ take-append_left (drop i f) xs n (omega (arith, length-drop i f))

  byte_front : (i : ℕ) → i < 32 → get_or (f ++ xs) i 0 ≡ get_or f i 0
  byte_front i h = get_or-append_left f xs i 0 (omega arith)

  a4_front : a4_included (f ++ xs) ≡ a4_included f
  unfolding a4_included
  a4_front = rw (byte_front 1 (omega arith)) refl

  qc_front : qc_included (f ++ xs) ≡ qc_included f
  unfolding qc_included
  qc_front = rw (byte_front 0 (omega arith)) refl

  qos_front : qos_priority (f ++ xs) ≡ qos_priority f
  unfolding qos_priority
  qos_front =
      rw (a4_front, qc_front, byte_front (if a4_included f then 30 else 24) (ground arith)) refl

  pub nonce_front : (pn : List ℕ) → nonce (f ++ xs) pn ≡ nonce f pn
  unfolding nonce
  nonce_front pn = rw (qos_front, slice_front 10 6 (omega arith)) refl

  pub aad_front : aad (f ++ xs) ≡ aad f
  unfolding aad
  aad_front =
      rw
        (
          qos_front,
          a4_front,
          qc_front,
          byte_front 0 (omega arith),
          byte_front 1 (omega arith),
          byte_front 22 (omega arith),
          slice_front 4 18 (omega arith),
          slice_front 24 6 (omega arith),
        )
        refl

  pub init_front :
      (aes : List ℕ → List ℕ → List ℕ) (key pn : List ℕ) (n : ℕ)
      → init_auth aes key (f ++ xs) pn n ≡ init_auth aes key f pn n
  unfolding init_auth
  init_front aes key pn n =
      ap₂
        (λ (m d : List ℕ). aes key (
          xor_block
            (aes key (xor_block (aes key (0x59 ∷ (m ++ ((n / 256 % 256) ∷ (n % 256) ∷ [])))) d 16))
            (drop 16 d) 16))
        (nonce_front pn) aad_front
