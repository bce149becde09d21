-- ===== src/Cipher/Ccmp/Replay.antt =====
-- Which frames rtllib_ccmp_decrypt takes as replayed.
use rtl8190p.Common.{ℕ, ◌+◌, ◌/◌, ◌%◌, ◌^◌, ◌==◌, ◌≡◌, refl, arith, ap, sym, ◌∙◌, leb}
use rtl8190p.Common.{
  Bool, true, false, not, ◌&&◌, List, [], ◌∷◌, if◌then◌else◌, length, get_or, drop,
}
use rtl8190p.Cipher.{SkBuff, done, error}
use rtl8190p.Cipher.Ccmp.{CcmpData, memcmp_le, read_pn, ccmp_open, ccmp_decrypt}

memcmp_le_refl : (xs : List ℕ) → memcmp_le xs xs ≡ true
unfolding memcmp_le
memcmp_le_refl [] = refl
memcmp_le_refl (x ∷ xs) = ground (arith, memcmp_le_refl xs)

module _ (aes : List ℕ → List ℕ → List ℕ) where
  -- The tests before a frame is opened.
  passes : CcmpData → SkBuff → ℕ → Bool
  passes k s hdr_len =
      let tag = get_or (drop hdr_len s.bytes) 3 0 in
      leb (hdr_len + 16) (length s.bytes)
      && not (tag / 32 % 2 == 0)
      && k.key_idx == tag / 64
      && k.key_set

  decrypt_passed :
      (hw_sec : Bool) (k : CcmpData) (s : SkBuff) (hdr_len : ℕ)
      → passes k s hdr_len ≡ true
      → ccmp_decrypt aes hw_sec k s hdr_len ≡ (
          if memcmp_le (read_pn (drop hdr_len s.bytes)) k.rx_pn
          then (error 4, record k { replays = (k.replays + 1) % 2 ^ 32 }, s)
          else ccmp_open aes hw_sec k s hdr_len (read_pn (drop hdr_len s.bytes)))
  unfolding ccmp_decrypt passes
  decrypt_passed hw_sec k s hdr_len ok = ground arith

  decrypt_refused :
      (hw_sec : Bool) (k : CcmpData) (s : SkBuff) (hdr_len i : ℕ)
      → (ccmp_decrypt aes hw_sec k s hdr_len).0 ≡ done i
      → (passes k s hdr_len ≡ true) × (memcmp_le (read_pn (drop hdr_len s.bytes)) k.rx_pn ≡ false)
  unfolding ccmp_decrypt passes
  decrypt_refused hw_sec k s hdr_len i h = (ground arith, ground arith)

  open_state :
      (hw_sec : Bool) (k : CcmpData) (s : SkBuff) (hdr_len : ℕ) (pn : List ℕ) (i : ℕ)
      → (ccmp_open aes hw_sec k s hdr_len pn).0 ≡ done i
      → (ccmp_open aes hw_sec k s hdr_len pn).1 ≡ (if hw_sec then k else record k { rx_pn = pn })
  unfolding ccmp_open
  open_state hw_sec k s hdr_len pn i h = ground arith

  decrypt_state :
      (hw_sec : Bool) (k : CcmpData) (s : SkBuff) (hdr_len i : ℕ)
      → (ccmp_decrypt aes hw_sec k s hdr_len).0 ≡ done i
      → (ccmp_decrypt aes hw_sec k s hdr_len).1
        ≡ (if hw_sec then k else record k { rx_pn = read_pn (drop hdr_len s.bytes) })
  decrypt_state hw_sec k s hdr_len i h =
      let (ok, new) = decrypt_refused hw_sec k s hdr_len i h in
      let pn = read_pn (drop hdr_len s.bytes) in
      let run : ccmp_decrypt aes hw_sec k s hdr_len ≡ ccmp_open aes hw_sec k s hdr_len pn =
        decrypt_passed hw_sec k s hdr_len ok ∙ rw new refl in
      ap (λ r. r.1) run ∙ open_state hw_sec k s hdr_len pn i (ap (λ r. r.0) (sym run) ∙ h)

  -- A frame that rtllib_ccmp_decrypt took without the hardware has a number that comes after the
  -- last one, is the last one from then on, and the same frame is refused as replayed.
  pub ccmp_decrypt-again :
      (k : CcmpData) (s : SkBuff) (hdr_len i : ℕ)
      → let r = ccmp_decrypt aes false k s hdr_len in
        r.0 ≡ done i
        → (memcmp_le r.1.rx_pn k.rx_pn ≡ false)
          × ((ccmp_decrypt aes false r.1 s hdr_len).0 ≡ error 4)
  unfolding passes
  ccmp_decrypt-again k s hdr_len i h =
      let (ok, new) = decrypt_refused false k s hdr_len i h in
      let pn = read_pn (drop hdr_len s.bytes) in
      let k' : CcmpData = record k { rx_pn = pn } in
      let run : (ccmp_decrypt aes false k s hdr_len).1 ≡ k' = decrypt_state false k s hdr_len i h in
      let refused : (ccmp_decrypt aes false k' s hdr_len).0 ≡ error 4 =
        rw (decrypt_passed false k' s hdr_len ok, memcmp_le_refl pn) refl in
      rw run (new, refused)

  -- A frame that rtllib_ccmp_decrypt took with the hardware leaves the state as it was, so the same
  -- frame is taken again.
  pub ccmp_decrypt-hw_again :
      (k : CcmpData) (s : SkBuff) (hdr_len i : ℕ)
      → let r = ccmp_decrypt aes true k s hdr_len in
        r.0 ≡ done i → (r.1 ≡ k) × (ccmp_decrypt aes true r.1 s hdr_len ≡ r)
  ccmp_decrypt-hw_again k s hdr_len i h =
      let same = decrypt_state true k s hdr_len i h in
      (same, ap (λ k'. ccmp_decrypt aes true k' s hdr_len) same)
