-- ===== src/Cipher/Ccmp/RoundTrip.antt =====
-- What rtllib_ccmp_encrypt made, rtllib_ccmp_decrypt takes back.
use rtl8190p.Common.{
  ℕ, ◌+◌, ◌-◌, ◌*◌, ◌/◌, ◌%◌, ◌^◌, ◌≤◌, ◌<◌, ◌==◌, ◌≡◌, refl, arith, ap, sym, ◌∙◌, ltb,
}
use rtl8190p.Common.{true, false, not, ◌||◌, List, [], ◌∷◌, ◌++◌, min, append_assoc}
use rtl8190p.Common.{
  length, get_or, take, drop, length-append, length-take, take-append, drop-append,
}
use rtl8190p.Common.{take-append-drop, take_all}
use rtl8190p.Common.{bytes_eq_refl, Bool-cases, inl, inr}
use rtl8190p.Cipher.{SkBuff, done, grown, shrunk, shrunk-grown}
use rtl8190p.Cipher.Ccmp.{
  CcmpData, xor_block, bump, memcmp_le, ccmp_header, read_pn, nonce, counter, init_auth, enc_loop,
  sealed, ccmp_encrypt, ccmp_strip, ccmp_open, ccmp_decrypt,
}
use rtl8190p.Cipher.Ccmp.Number.{be_value, IsPn, bump-IsPn, bump_value, memcmp_le_iff}
use rtl8190p.Cipher.Ccmp.Front.{nonce_front, init_front}
use rtl8190p.Cipher.Ccmp.Blocks.{
  total_blocks, length-enc_loop, dec_loop-enc_loop, enc_loop_block, xor_block_again,
  length-xor_block,
}

pub read_header :
    (pn : List ℕ) (key_idx : ℕ) (rest : List ℕ)
    → length pn ≡ 6
    → read_pn (ccmp_header pn key_idx ++ rest) ≡ pn
unfolding read_pn ccmp_header
read_header (a ∷ b ∷ c ∷ d ∷ e ∷ f ∷ []) key_idx rest h = refl
read_header [] key_idx rest h = absurd (omega arith)
read_header (a ∷ []) key_idx rest h = absurd (omega arith)
read_header (a ∷ b ∷ []) key_idx rest h = absurd (omega arith)
read_header (a ∷ b ∷ c ∷ []) key_idx rest h = absurd (omega arith)
read_header (a ∷ b ∷ c ∷ d ∷ []) key_idx rest h = absurd (omega arith)
read_header (a ∷ b ∷ c ∷ d ∷ e ∷ []) key_idx rest h = absurd (omega arith)
read_header (a ∷ b ∷ c ∷ d ∷ e ∷ f ∷ g ∷ xs) key_idx rest h = absurd (omega arith)

pub length-header : (pn : List ℕ) (key_idx : ℕ) → length (ccmp_header pn key_idx) ≡ 8
unfolding ccmp_header
length-header pn key_idx = refl

module _ (aes : List ℕ → List ℕ → List ℕ) (law : (k x : List ℕ) → length (aes k x) ≡ 16) where
  length-init : (key hdr pn : List ℕ) (n : ℕ) → length (init_auth aes key hdr pn n) ≡ 16
  unfolding init_auth
  length-init key hdr pn n = law key _

  -- The parts of a sealed frame: what is encrypted, and the check.
  abbrev secret_of : CcmpData → List ℕ → List ℕ → List ℕ → List ℕ × List ℕ
  secret_of k pn seen payload =
      let n = length payload in
      enc_loop aes k.key (nonce seen pn) (n % 16) ((n + 15) / 16) 1 (init_auth aes k.key seen pn n)
        payload

  abbrev mic_of : CcmpData → List ℕ → List ℕ → List ℕ → List ℕ
  mic_of k pn seen payload =
      xor_block (take 8 (secret_of k pn seen payload).0) (aes k.key (counter aes (nonce seen pn) 0))
        8

  length-secret :
      (k : CcmpData) (pn seen payload : List ℕ)
      → length (secret_of k pn seen payload).1 ≡ length payload
  length-secret k pn seen payload =
      let n = length payload in
      length-enc_loop aes k.key (nonce seen pn) (n % 16) ((n + 15) / 16) 1
        (init_auth aes k.key seen pn n) payload (sym (total_blocks n))

  length-mic : (k : CcmpData) (pn seen payload : List ℕ) → length (mic_of k pn seen payload) ≡ 8
  length-mic k pn seen payload =
      let n = length payload in
      let b = (secret_of k pn seen payload).0 in
      let full : length b ≡ 16 =
        enc_loop_block aes 16 k.key (nonce seen pn) (n % 16) ((n + 15) / 16) 1
          (init_auth aes k.key seen pn n) payload law (length-init k.key seen pn n) in
      length-xor_block (take 8 b) (aes k.key (counter aes (nonce seen pn) 0)) 8
      ∙ length-take 8 b
      ∙ ap (min 8) full

  -- The end of rtllib_ccmp_decrypt on a sealed frame.
  opened :
      (k v : CcmpData) (s : SkBuff) (pn hdr payload : List ℕ)
      → 24 ≤ length hdr
      → v.key ≡ k.key
      → s.bytes ≡ sealed aes k pn hdr payload
      → ccmp_open aes false v s (length hdr) pn
        ≡ (done v.key_idx, record v { rx_pn = pn }, ccmp_strip aes s (length hdr) payload)
  unfolding ccmp_open ccmp_strip sealed
  opened k v s pn hdr payload long same is =
      let n = length payload in
      let front = hdr ++ ccmp_header pn k.key_idx in
      let seen = front ++ payload in
      let c = secret_of k pn seen payload in
      let mic = mic_of k pn seen payload in
      let size : length front ≡ length hdr + 8 =
        length-append hdr (ccmp_header pn k.key_idx)
        ∙ ap (λ t. length hdr + t) (length-header pn k.key_idx) in
      let all : length s.bytes ≡ length hdr + 8 + n + 8 =
        ap length is
        ∙ length-append front (c.1 ++ mic)
        ∙ omega (
          arith,
          size,
          length-append c.1 mic,
          length-secret k pn seen payload,
          length-mic k pn seen payload,
        ) in
      let rest : drop (length hdr + 8) s.bytes ≡ c.1 ++ mic =
        rw is
          (ap (λ t. drop t (front ++ (c.1 ++ mic))) (sym size) ∙ drop-append front (c.1 ++ mic)) in
      let count : length s.bytes - length hdr - 16 ≡ n = omega (arith, all) in
      let body : take n (c.1 ++ mic) ≡ c.1 =
        ap (λ t. take t (c.1 ++ mic)) (sym (length-secret k pn seen payload))
        ∙ take-append c.1 mic in
      let end : drop n (c.1 ++ mic) ≡ mic =
        ap (λ t. drop t (c.1 ++ mic)) (sym (length-secret k pn seen payload))
        ∙ drop-append c.1 mic in
      let far : 32 ≤ length front = omega (arith, size) in
      let nonce_is : nonce s.bytes pn ≡ nonce seen pn =
        ap (λ b. nonce b pn) is
        ∙ nonce_front front (c.1 ++ mic) far pn
        ∙ sym (nonce_front front payload far pn) in
      let pad_is : counter aes (nonce s.bytes pn) 0 ≡ counter aes (nonce seen pn) 0 =
        ap (λ t. counter aes t 0) nonce_is in
      let init_is : init_auth aes k.key s.bytes pn n ≡ init_auth aes k.key seen pn n =
        ap (λ b. init_auth aes k.key b pn n) is
        ∙ init_front front (c.1 ++ mic) far aes k.key pn n
        ∙ sym (init_front front payload far aes k.key pn n) in
      let undone =
        dec_loop-enc_loop aes k.key (nonce seen pn) (n % 16) ((n + 15) / 16) 1
          (init_auth aes k.key seen pn n) payload (sym (total_blocks n)) in
      let check = xor_block_again (take 8 c.0) (aes k.key (counter aes (nonce seen pn) 0)) 8 in
      let twice : take 8 (take 8 c.0) ≡ take 8 c.0 =
        take_all (take 8 c.0) 8 (omega (arith, length-take 8 c.0)) in
      rw
        (
          ccmp_open,
          same,
          count,
          rest,
          body,
          end,
          nonce_is,
          pad_is,
          init_is,
          undone,
          check,
          twice,
          bytes_eq_refl (take 8 c.0),
        )
        refl

  encrypted :
      (k : CcmpData) (s : SkBuff) (hdr_len : ℕ)
      → hdr_len ≤ length s.bytes
      → 8 ≤ s.headroom
      → 8 ≤ s.tailroom
      → let pn = (bump k.tx_pn).1 in
        ccmp_encrypt aes false k s hdr_len ≡ (
          done 0,
          record k { tx_pn = pn },
          grown 8 8 (sealed aes k pn (take hdr_len s.bytes) (drop hdr_len s.bytes)) s,
        )
  unfolding ccmp_encrypt
  encrypted k s hdr_len long head tail =
      let ok : (ltb s.headroom 8 || ltb s.tailroom 8 || ltb (length s.bytes) hdr_len) ≡ false =
        ground arith in
      rw (ccmp_encrypt, ok) refl

  stripped :
      (k : CcmpData) (s : SkBuff) (pn hdr payload : List ℕ)
      → s.bytes ≡ sealed aes k pn hdr payload
      → ccmp_strip aes s (length hdr) payload ≡ shrunk 8 8 (hdr ++ payload) s
  unfolding ccmp_strip sealed
  stripped k s pn hdr payload is =
      let seen = (hdr ++ ccmp_header pn k.key_idx) ++ payload in
      let tail = (secret_of k pn seen payload).1 ++ mic_of k pn seen payload in
      let front : take (length hdr) s.bytes ≡ hdr = rw is (
        rw (append_assoc hdr (ccmp_header pn k.key_idx) tail)
          (take-append hdr (ccmp_header pn k.key_idx ++ tail))) in
      ap (λ b. shrunk 8 8 (b ++ payload) s) front

  -- A sealed frame with a new number passes the tests of rtllib_ccmp_decrypt.
  admitted :
      (k v : CcmpData) (s : SkBuff) (pn hdr payload : List ℕ)
      → 24 ≤ length hdr
      → v.key_idx ≡ k.key_idx
      → k.key_idx < 4
      → v.key_set ≡ true
      → length pn ≡ 6
      → memcmp_le pn v.rx_pn ≡ false
      → s.bytes ≡ sealed aes k pn hdr payload
      → ccmp_decrypt aes false v s (length hdr) ≡ ccmp_open aes false v s (length hdr) pn
  unfolding ccmp_decrypt sealed ccmp_header
  admitted k v s pn hdr payload long idx small set six new is =
      let h = ccmp_header pn k.key_idx in
      let front = hdr ++ h in
      let seen = front ++ payload in
      let c = secret_of k pn seen payload in
      let tail = c.1 ++ mic_of k pn seen payload in
      let pos : drop (length hdr) s.bytes ≡ h ++ tail =
        rw is (rw (append_assoc hdr h tail) (drop-append hdr (h ++ tail))) in
      let number : read_pn (drop (length hdr) s.bytes) ≡ pn =
        rw pos (read_header pn k.key_idx tail six) in
      let fresh : memcmp_le (read_pn (drop (length hdr) s.bytes)) v.rx_pn ≡ false =
        ap (λ p. memcmp_le p v.rx_pn) number ∙ new in
      let size : length s.bytes ≡ length hdr + 16 + length payload =
        ap length is
        ∙ length-append front tail
        ∙ omega (
          arith,
          length-append hdr h,
          length-append c.1 (mic_of k pn seen payload),
          length-secret k pn seen payload,
          length-mic k pn seen payload,
        ) in
      let enough : ltb (length s.bytes) (length hdr + 16) ≡ false = ground arith in
      let flag : ((k.key_idx * 64 + 32) % 256 / 32 % 2 == 0) ≡ false = ground arith in
      let index : not (v.key_idx == (k.key_idx * 64 + 32) % 256 / 64) ≡ false = ground arith in
      let reads : get_or (drop (length hdr) s.bytes) 3 0 ≡ (k.key_idx * 64 + 32) % 256 =
        rw pos refl in
      ground (arith, fresh, flag, index, ap (λ p. ccmp_open aes false v s (length hdr) p) number)

  -- On a frame with a header of `hdr_len` bytes, 24 at least, and room for what is added,
  -- rtllib_ccmp_encrypt succeeds; and rtllib_ccmp_decrypt, with the same key and an older packet
  -- number, then returns the key's index, gives the frame back, and keeps the new number.
  pub ccmp_decrypt-encrypt :
      (k v : CcmpData) (s : SkBuff) (hdr_len : ℕ)
      → 24 ≤ hdr_len
      → hdr_len ≤ length s.bytes
      → 8 ≤ s.headroom
      → 8 ≤ s.tailroom
      → v.key ≡ k.key
      → v.key_idx ≡ k.key_idx
      → k.key_idx < 4
      → v.key_set ≡ true
      → IsPn k.tx_pn
      → IsPn v.rx_pn
      → be_value v.rx_pn < (be_value k.tx_pn + 1) % 2 ^ 48
      → let r = ccmp_encrypt aes false k s hdr_len in
        (r.0 ≡ done 0)
        × (ccmp_decrypt aes false v r.2 hdr_len
            ≡ (done v.key_idx, record v { rx_pn = (bump k.tx_pn).1 }, s))
  unfolding grown
  ccmp_decrypt-encrypt k v s hdr_len far long head tail key idx small set tx rx newer =
      let pn = (bump k.tx_pn).1 in
      let hdr = take hdr_len s.bytes in
      let payload = drop hdr_len s.bytes in
      let n : length hdr ≡ hdr_len = length-take hdr_len s.bytes ∙ ground arith in
      let is_pn = bump-IsPn k.tx_pn tx in
      let value = bump_value k.tx_pn tx in
      let s' = grown 8 8 (sealed aes k pn hdr payload) s in
      let new : memcmp_le pn v.rx_pn ≡ false = elim (Bool-cases (memcmp_le pn v.rx_pn)) [
        | inl old ↦
            let le =
              (memcmp_le_iff pn v.rx_pn (is_pn.length_six ∙ sym rx.length_six) is_pn.bytes
                  rx.bytes).0
                old in
            absurd (omega arith)
        | inr fresh ↦ fresh
      ] in
      let wide : 24 ≤ length hdr = omega (arith, n) in
      let first = admitted k v s' pn hdr payload wide idx small set is_pn.length_six new refl in
      let then_open = opened k v s' pn hdr payload wide key refl in
      rw (encrypted k s hdr_len long head tail) (
        refl,
        ap (λ m. ccmp_decrypt aes false v s' m) (sym n)
            ∙ first
            ∙ then_open
            ∙ ap (λ u. (done v.key_idx, record v { rx_pn = pn }, u))
                (stripped k s' pn hdr payload refl
                  ∙ shrunk-grown 8 8 (hdr ++ payload) (sealed aes k pn hdr payload) s head tail
                      (take-append-drop hdr_len s.bytes)),
      )
