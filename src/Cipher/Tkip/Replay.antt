-- ===== src/Cipher/Tkip/Replay.antt =====
-- A frame of TKIP that was taken whole is refused when it comes again.
use rtl8190p.Common.{
  ℕ, ◌+◌, ◌==◌, ◌≡◌, sym, ap, ◌∙◌, arith, Bool, true, false, Option, some, List, length, drop, leb,
  not, ◌&&◌, ◌/◌, ◌%◌, get_or,
}
use rtl8190p.Cipher.{SkBuff, done, error}
use rtl8190p.Cipher.Tkip.{
  TkipData, read_iv16, read_iv32, is_replay, with_ttak, tkip_strip, tkip_open, tkip_decrypt,
}
use rtl8190p.Cipher.Tkip.Michael.{michael_mic_verify}

-- The tests before the one for a replay.
passes : TkipData → SkBuff → ℕ → Bool
passes k s hdr_len =
    let tag = get_or (drop hdr_len s.bytes) 3 0 in
    leb (hdr_len + 12) (length s.bytes)
    && not (tag / 32 % 2 == 0)
    && k.key_idx == tag / 64
    && k.key_set

module _ (crc32 : List ℕ → ℕ) (rc4_encrypt rc4_decrypt : List ℕ → List ℕ → Option (List ℕ)) where
  open_done :
      (k : TkipData) (s : SkBuff) (hdr_len i : ℕ)
      → let r = tkip_open crc32 rc4_encrypt rc4_decrypt k s hdr_len in
        r.0 ≡ done i
        → (r.1.initialized ≡ true)
          × (r.1.rx_iv32_new ≡ read_iv32 (drop hdr_len s.bytes))
          × (r.1.rx_iv16_new ≡ read_iv16 (drop hdr_len s.bytes))
          × (r.1.key_idx ≡ k.key_idx)
          × (r.1.key_set ≡ k.key_set)
  unfolding tkip_open tkip_strip with_ttak
  open_done k s hdr_len i h = ground arith

  decrypt_done :
      (marked : Bool) (k : TkipData) (s : SkBuff) (hdr_len i : ℕ)
      → let r = tkip_decrypt crc32 rc4_encrypt rc4_decrypt false marked k s hdr_len in
        r.0 ≡ done i
        → (passes k s hdr_len ≡ true) × (r ≡ tkip_open crc32 rc4_encrypt rc4_decrypt k s hdr_len)
  unfolding tkip_decrypt passes
  decrypt_done marked k s hdr_len i h = (ground arith, ground arith)

  decrypt_replayed :
      (marked : Bool) (k : TkipData) (s : SkBuff) (hdr_len : ℕ)
      → passes k s hdr_len ≡ true
      → is_replay k (read_iv32 (drop hdr_len s.bytes)) (read_iv16 (drop hdr_len s.bytes)) ≡ true
      → (tkip_decrypt crc32 rc4_encrypt rc4_decrypt false marked k s hdr_len).0 ≡ error 4
  unfolding tkip_decrypt passes
  decrypt_replayed marked k s hdr_len ok old = ground arith

  module _ (michael : List ℕ → List ℕ → List ℕ → Option (List ℕ)) (stale : List ℕ) where
    verify_done :
        (force : Bool) (k v : TkipData) (u u' : SkBuff) (hdr_len : ℕ) (f : Bool)
        → michael_mic_verify michael stale force k u hdr_len ≡ some (done 0, f, v, u')
        → (v.initialized ≡ k.initialized)
          × (v.rx_iv32 ≡ k.rx_iv32_new)
          × (v.rx_iv16 ≡ k.rx_iv16_new)
          × (v.key_idx ≡ k.key_idx)
          × (v.key_set ≡ k.key_set)
    unfolding michael_mic_verify
    verify_done force k v u u' hdr_len f h = ground arith

    -- When rtllib_tkip_decrypt took a frame without the hardware, and rtllib_michael_mic_verify
    -- then took a packet, the same frame is refused as replayed.
    pub tkip_decrypt-again :
        (marked : Bool) (k v : TkipData) (s u u' : SkBuff) (hdr_len mic_len i : ℕ) (force f : Bool)
        → let r = tkip_decrypt crc32 rc4_encrypt rc4_decrypt false marked k s hdr_len in
          r.0 ≡ done i
          → michael_mic_verify michael stale force r.1 u mic_len ≡ some (done 0, f, v, u')
          → (tkip_decrypt crc32 rc4_encrypt rc4_decrypt false marked v s hdr_len).0 ≡ error 4
    unfolding is_replay passes
    tkip_decrypt-again marked k v s u u' hdr_len mic_len i force f h verified =
        let (ok, run) = decrypt_done marked k s hdr_len i h in
        let r = tkip_decrypt crc32 rc4_encrypt rc4_decrypt false marked k s hdr_len in
        let kept = verify_done force r.1 v u u' mic_len f verified in
        let o = tkip_open crc32 rc4_encrypt rc4_decrypt k s hdr_len in
        let opened = open_done k s hdr_len i (sym (ap (λ x. x.0) run) ∙ h) in
        let state : r.1 ≡ o.1 = ap (λ x. x.1) run in
        let same = λ (g : TkipData → ℕ). ap g state in
        let upper : v.rx_iv32 ≡ read_iv32 (drop hdr_len s.bytes) =
          kept.1 ∙ same (λ x. x.rx_iv32_new) ∙ opened.1 in
        let lower : v.rx_iv16 ≡ read_iv16 (drop hdr_len s.bytes) =
          kept.2 ∙ same (λ x. x.rx_iv16_new) ∙ opened.2 in
        let index : v.key_idx ≡ k.key_idx = kept.3 ∙ same (λ x. x.key_idx) ∙ opened.3 in
        let is_set : v.key_set ≡ k.key_set = kept.4 ∙ ap (λ x. x.key_set) state ∙ opened.4 in
        let begun : v.initialized ≡ true = kept.0 ∙ ap (λ x. x.initialized) state ∙ opened.0 in
        decrypt_replayed marked v s hdr_len (ground (arith, index, is_set, ok))
          (ground (arith, upper, lower, begun))
