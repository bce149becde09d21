-- ===== src/Cipher/Ccmp/Tests.antt =====
-- Runs of CCMP with a toy block cipher, and the theorems at concrete frames.
use rtl8190p.Common.{
  ℕ, ◌%◌, ◌≡◌, ◌↔◌, ◌≤◌, refl, arith, ap, true, false, List, [], ◌∷◌, ◌++◌, replicate, drop,
}
use rtl8190p.Cipher.{SkBuff, Outcome, done, error}
use rtl8190p.Cipher.Ccmp.{CcmpData, bump, memcmp_le, ccmp_encrypt, ccmp_decrypt}
use rtl8190p.Cipher.Ccmp.Number.{be_value, IsPn, bump_value, memcmp_le_iff}
use rtl8190p.Cipher.Ccmp.RoundTrip.{ccmp_decrypt-encrypt}
use rtl8190p.Cipher.Ccmp.Replay.{ccmp_decrypt-again, ccmp_decrypt-hw_again}

abbrev head : List ℕ → ℕ
head [] = 3
head (x ∷ xs) = x

-- Sixteen times one byte of the block.
abbrev toy : List ℕ → List ℕ → List ℕ
toy k x = replicate 16 (head (drop 14 x) % 256)

abbrev zeros : List ℕ
zeros = replicate 6 0

abbrev old : List ℕ
old = 0 ∷ 0 ∷ 0 ∷ 0 ∷ 0 ∷ 255 ∷ []

abbrev sender : CcmpData
sender = record {
  key = replicate 16 1;
  key_set = true;
  tx_pn = old;
  rx_pn = zeros;
  format_errors = 0;
  replays = 0;
  decrypt_errors = 0;
  key_idx = 1;
}

abbrev frame : SkBuff
frame = record { headroom = 8; tailroom = 8; bytes = replicate 24 8 ++ (11 ∷ 22 ∷ 33 ∷ []) }

old-IsPn : IsPn old
old-IsPn = record { length_six = refl; bytes = omega arith }

zeros-IsPn : IsPn zeros
zeros-IsPn = record { length_six = refl; bytes = omega arith }

runs_bump : (bump old).1 ≡ 0 ∷ 0 ∷ 0 ∷ 0 ∷ 1 ∷ 0 ∷ []
unfolding bump
runs_bump = refl

bump_value_example : be_value (bump old).1 ≡ 256
unfolding be_value
bump_value_example = bump_value old old-IsPn

memcmp_le_iff_example : (memcmp_le old (bump old).1 ≡ true) ↔ (be_value old ≤ be_value (bump old).1)
unfolding bump
memcmp_le_iff_example = memcmp_le_iff old (bump old).1 refl (omega arith) (omega arith)

abbrev sent : Outcome × CcmpData × SkBuff
sent = ccmp_encrypt toy false sender frame 24

ccmp_decrypt-encrypt_example :
    (sent.0 ≡ done 0)
    × (ccmp_decrypt toy false sender sent.2 24
        ≡ (done 1, record sender { rx_pn = (bump old).1 }, frame))
unfolding be_value
ccmp_decrypt-encrypt_example =
    ccmp_decrypt-encrypt toy (λ k x. refl) sender sender frame 24 (omega arith) (omega arith)
      (omega arith) (omega arith) refl refl (omega arith) refl old-IsPn zeros-IsPn (omega arith)

runs_taken : (ccmp_decrypt toy false sender sent.2 24).0 ≡ done 1
runs_taken = ap (λ r. r.0) ccmp_decrypt-encrypt_example.1

ccmp_decrypt-again_example :
    let r = ccmp_decrypt toy false sender sent.2 24 in
    (memcmp_le r.1.rx_pn zeros ≡ false) × ((ccmp_decrypt toy false r.1 sent.2 24).0 ≡ error 4)
ccmp_decrypt-again_example = ccmp_decrypt-again toy sender sent.2 24 1 runs_taken

runs_hw : (ccmp_decrypt toy true sender sent.2 24).0 ≡ done 1
unfolding ccmp_encrypt ccmp_decrypt
runs_hw = refl

ccmp_decrypt-hw_again_example :
    let r = ccmp_decrypt toy true sender sent.2 24 in
    (r.1 ≡ sender) × (ccmp_decrypt toy true r.1 sent.2 24 ≡ r)
ccmp_decrypt-hw_again_example = ccmp_decrypt-hw_again toy sender sent.2 24 1 runs_hw
