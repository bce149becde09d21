-- ===== src/Cipher/Wep/Tests.antt =====
-- Runs of WEP with a toy cipher, and the theorems at concrete frames.
use rtl8190p.Common.{
  ℕ, suc, ◌+◌, ◌%◌, ◌/◌, ◌^◌, ◌≤◌, ◌≡◌, refl, arith, ap, some, List, [], ◌∷◌, length, bit_xor,
}
use rtl8190p.Common.{bit_xor_cancel, false}
use rtl8190p.Cipher.{SkBuff, Outcome, done}
use rtl8190p.Cipher.Wep.{WepData, next_iv, iv_bytes, icv_bytes, wep_encrypt, wep_decrypt}
use rtl8190p.Cipher.Wep.Iv.{next_iv-not_weak}
use rtl8190p.Cipher.Wep.RoundTrip.{wep_decrypt-encrypt}

abbrev first : List ℕ → ℕ
first [] = 0
first (x ∷ xs) = x

-- A stream cipher that adds the first byte of the key.
abbrev toy : List ℕ → List ℕ → List ℕ
toy k [] = []
toy k (x ∷ xs) = bit_xor x (first k) ∷ toy k xs

toy_again : (k x : List ℕ) → toy k (toy k x) ≡ x
toy_again k [] = refl
toy_again k (x ∷ xs) = rw (bit_xor_cancel x (first k), toy_again k xs) refl

length-toy : (k x : List ℕ) → length (toy k x) ≡ length x
length-toy k [] = refl
length-toy k (x ∷ xs) = ap suc (length-toy k xs)

toy_law :
    (k x y : List ℕ) → some (toy k x) ≡ some y → (some (toy k y) ≡ some x) × (length y ≡ length x)
toy_law k x y e = let is : toy k x ≡ y = cc in rw (← is) (ap some (toy_again k x), length-toy k x)

abbrev sum : List ℕ → ℕ
sum [] = 0
sum (x ∷ xs) = x + sum xs

abbrev wep : WepData
wep = record { iv = 0x04feff; key = 1 ∷ 2 ∷ 3 ∷ 4 ∷ 5 ∷ []; key_len = 5; key_idx = 2 }

abbrev frame : SkBuff
frame = record { headroom = 8; tailroom = 8; bytes = 8 ∷ 0 ∷ 77 ∷ 99 ∷ 200 ∷ [] }

runs_skip_weak : next_iv wep.iv 8 ≡ 0x050000
unfolding next_iv
runs_skip_weak = refl

next_iv-not_weak_example : 8 ≤ next_iv 0x0afeff 8 / 2 ^ 16 % 256
unfolding next_iv
next_iv-not_weak_example = next_iv-not_weak 0x0afeff 8 refl (omega arith)

abbrev sent : Outcome × WepData × SkBuff
sent = wep_encrypt sum (λ k x. some (toy k x)) (λ k x. some (toy k x)) false wep frame 2

runs_sent : sent.2.bytes ≡ 8 ∷ 0 ∷ 5 ∷ 0 ∷ 0 ∷ 128 ∷ 72 ∷ 102 ∷ 205 ∷ 125 ∷ 4 ∷ 5 ∷ 5 ∷ []
unfolding wep_encrypt
runs_sent = refl

wep_decrypt-encrypt_example :
    (sent.0 ≡ done 0)
    × (wep_decrypt sum (λ k x. some (toy k x)) (λ k x. some (toy k x)) false wep sent.2 2
        ≡ (done 0, frame))
unfolding icv_bytes iv_bytes next_iv
wep_decrypt-encrypt_example =
    wep_decrypt-encrypt sum (λ k x. some (toy k x)) (λ k x. some (toy k x)) toy_law wep wep frame 2
      (72 ∷ 102 ∷ 205 ∷ 125 ∷ 4 ∷ 5 ∷ 5 ∷ []) (omega arith) (omega arith) (omega arith)
      (omega arith) refl refl refl refl
