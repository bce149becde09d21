-- ===== src/Cipher/Wep/RoundTrip.antt =====
-- What prism2_wep_encrypt made, prism2_wep_decrypt takes back.
use rtl8190p.Common.{
  ℕ, ◌+◌, ◌-◌, ◌*◌, ◌/◌, ◌%◌, ◌≤◌, ◌<◌, ◌==◌, ◌≡◌, refl, arith, sym, ap, ◌∙◌, ltb,
}
use rtl8190p.Common.{false, not, ◌||◌, Option, some, List, ◌∷◌, ◌++◌}
use rtl8190p.Common.{length, take, drop, bytes_eq_refl, length-append, length-take}
use rtl8190p.Common.{take-append, drop-append, take-append-drop}
use rtl8190p.Cipher.{SkBuff, done, grown, shrunk, shrunk-grown}
use rtl8190p.Cipher.Wep.{WepData, next_iv, iv_bytes, icv_bytes, wep_encrypt, wep_strip, wep_decrypt}

module _ (crc32 : List ℕ → ℕ) (rc4_encrypt rc4_decrypt : List ℕ → List ℕ → Option (List ℕ))
    (law : (k x y : List ℕ)
      → rc4_encrypt k x ≡ some y
      → (rc4_decrypt k y ≡ some x) × (length y ≡ length x)) where
  -- The bytes of a frame that was encrypted.
  abbrev pub key_of : WepData → List ℕ
  key_of w = iv_bytes (next_iv w.iv (3 + w.key_len)) ++ take w.key_len w.key

  abbrev pub plain_of : SkBuff → ℕ → List ℕ
  plain_of s hdr_len = drop hdr_len s.bytes ++ icv_bytes (crc32 (drop hdr_len s.bytes))

  abbrev framed : WepData → SkBuff → ℕ → List ℕ → List ℕ
  framed w s hdr_len rest =
      take hdr_len s.bytes
      ++ (iv_bytes (next_iv w.iv (3 + w.key_len)) ++ ((w.key_idx * 64 % 256) ∷ rest))

  encrypted :
      (w : WepData) (s : SkBuff) (hdr_len : ℕ) (secret : List ℕ)
      → 4 ≤ s.headroom
      → 4 ≤ s.tailroom
      → hdr_len ≤ length s.bytes
      → rc4_encrypt (key_of w) (plain_of s hdr_len) ≡ some secret
      → wep_encrypt crc32 rc4_encrypt rc4_decrypt false w s hdr_len ≡ (
        done 0,
        record w { iv = next_iv w.iv (3 + w.key_len) },
        grown 4 4 (framed w s hdr_len secret) s,
      )
  unfolding wep_encrypt
  encrypted w s hdr_len secret room tail long e =
      let ok : (ltb s.headroom 4 || ltb s.tailroom 4 || ltb (length s.bytes) hdr_len) ≡ false =
        ground arith in
      rw (wep_encrypt, ok, e) refl

  -- A frame of a header, a vector and what is encrypted.
  decrypted :
      (v : WepData) (s : SkBuff) (hdr : List ℕ) (iv : ℕ) (secret payload : List ℕ)
      → s.bytes ≡ hdr ++ (iv_bytes iv ++ ((v.key_idx * 64 % 256) ∷ secret))
      → v.key_idx < 4
      → rc4_decrypt (iv_bytes iv ++ take v.key_len v.key) secret
        ≡ some (payload ++ icv_bytes (crc32 payload))
      → length secret ≡ length payload + 4
      → wep_decrypt crc32 rc4_encrypt rc4_decrypt false v s (length hdr)
        ≡ (done 0, shrunk 4 4 (hdr ++ payload) s)
  unfolding wep_decrypt wep_strip iv_bytes icv_bytes
  decrypted v s hdr iv secret payload is idx d l =
      let rest = iv_bytes iv ++ ((v.key_idx * 64 % 256) ∷ secret) in
      let len : length s.bytes ≡ length hdr + 8 + length payload =
        ap length is ∙ length-append hdr rest ∙ omega (arith, l) in
      let pos : drop (length hdr) s.bytes ≡ rest = rw is (drop-append hdr rest) in
      let head : take (length hdr) s.bytes ≡ hdr = rw is (take-append hdr rest) in
      let long : ltb (length s.bytes) (length hdr + 8) ≡ false = ground arith in
      let plen : length s.bytes - length hdr - 8 ≡ length payload = omega (arith, len) in
      let icv = icv_bytes (crc32 payload) in
      let plain = payload ++ icv in
      let known : not ((v.key_idx * 64 % 256) / 64 == v.key_idx) ≡ false = ground arith in
      let cut : take (length plain - 4) plain ≡ payload =
        ap (λ n. take n plain) (omega (arith, length-append payload icv))
        ∙ take-append payload icv in
      let stripped : wep_strip crc32 rc4_encrypt rc4_decrypt s (length hdr) plain
          ≡ shrunk 4 4 (hdr ++ payload) s =
        rw (wep_strip, head, cut) refl in
      rw
        (
          wep_decrypt,
          long,
          pos,
          known,
          d,
          plen,
          take-append payload icv,
          drop-append payload icv,
          bytes_eq_refl icv,
          stripped,
        )
        refl

  -- On a frame with a header of `hdr_len` bytes and room for the vector and the checksum,
  -- prism2_wep_encrypt succeeds if the kernel's cipher does, and prism2_wep_decrypt with the same
  -- key gives the frame back.
  pub wep_decrypt-encrypt :
      (w v : WepData) (s : SkBuff) (hdr_len : ℕ) (secret : List ℕ)
      → 4 ≤ s.headroom
      → 4 ≤ s.tailroom
      → hdr_len ≤ length s.bytes
      → w.key_idx < 4
      → v.key ≡ w.key
      → v.key_len ≡ w.key_len
      → v.key_idx ≡ w.key_idx
      → rc4_encrypt (key_of w) (plain_of s hdr_len) ≡ some secret
      → let r = wep_encrypt crc32 rc4_encrypt rc4_decrypt false w s hdr_len in
        (r.0 ≡ done 0)
        × (wep_decrypt crc32 rc4_encrypt rc4_decrypt false v r.2 hdr_len ≡ (done 0, s))
  unfolding grown icv_bytes
  wep_decrypt-encrypt w v s hdr_len secret room tail long idx k l i e =
      rw (encrypted w s hdr_len secret room tail long e) (
        refl,
        ap
              (λ n.
                wep_decrypt crc32 rc4_encrypt rc4_decrypt false v
                  (grown 4 4 (framed w s hdr_len secret) s) n)
              (sym (length-take hdr_len s.bytes ∙ ground arith))
            ∙ decrypted v (grown 4 4 (framed w s hdr_len secret) s) (take hdr_len s.bytes)
                (next_iv w.iv (3 + w.key_len)) secret (drop hdr_len s.bytes) (rw i refl) (rw i idx)
                (rw (k, l) (law (key_of w) (plain_of s hdr_len) secret e).0)
                ((law (key_of w) (plain_of s hdr_len) secret e).1
                  ∙ length-append (drop hdr_len s.bytes) (icv_bytes (crc32 (drop hdr_len s.bytes))))
            ∙ ap (λ u. (done 0, u))
                (shrunk-grown 4 4 (take hdr_len s.bytes ++ drop hdr_len s.bytes)
                  (framed w s hdr_len secret) s room tail (take-append-drop hdr_len s.bytes)),
      )
