-- ===== src/Cipher/Wep.antt =====
-- WEP, src/rtllib_crypt_wep.c.
pub mod Iv
pub mod RoundTrip
mod Tests
use rtl8190p.Common.{ℕ, ◌+◌, ◌-◌, ◌*◌, ◌/◌, ◌%◌, ◌^◌, ◌==◌, ltb, leb, if◌then◌else◌}
use rtl8190p.Common.{Bool, true, false, not, ◌&&◌, ◌||◌, Option, none, some, List, [], ◌∷◌, ◌++◌}
use rtl8190p.Common.{length, get_or, take, drop, bytes_eq}
use rtl8190p.Cipher.{SkBuff, Outcome, done, error, cipher_error, grown, shrunk}

-- prism2_wep_data, less the handles of the kernel's cipher.
pub record WepData : Type 0 where
  pub iv : ℕ
  pub key : List ℕ
  pub key_len : ℕ
  pub key_idx : ℕ

abbrev pub wep_key_len : ℕ
wep_key_len = 13

-- The initialisation vector of the next frame.
pub next_iv : ℕ → ℕ → ℕ
next_iv iv klen =
    let v = (iv + 1) % 2 ^ 32 in
    let b = v / 2 ^ 16 % 256 in
    if v / 256 % 256 == 255 && leb 3 b && ltb b klen then (v + 256) % 2 ^ 32 else v

-- The vector as it is sent.
pub iv_bytes : ℕ → List ℕ
iv_bytes v = v / 2 ^ 16 % 256 ∷ v / 256 % 256 ∷ v % 256 ∷ []

-- A checksum as it is sent.
unfoldable pub icv_bytes : ℕ → List ℕ
icv_bytes crc = crc % 256 ∷ crc / 2 ^ 8 % 256 ∷ crc / 2 ^ 16 % 256 ∷ crc / 2 ^ 24 % 256 ∷ []

-- `crc32` is the complement of the kernel's crc32_le from ~0 on; `rc4_encrypt` and `rc4_decrypt`
-- are its stream cipher on a key and bytes, which may fail.
module _ (crc32 : List ℕ → ℕ) (rc4_encrypt rc4_decrypt : List ℕ → List ℕ → Option (List ℕ)) where
  -- prism2_wep_encrypt on a frame with a header of `hdr_len` bytes.
  pub wep_encrypt : Bool → WepData → SkBuff → ℕ → Outcome × WepData × SkBuff
  unfolding next_iv iv_bytes icv_bytes grown
  wep_encrypt hw_sec w s hdr_len =
      let v = next_iv w.iv (3 + w.key_len) in
      let key = iv_bytes v ++ take w.key_len w.key in
      let framed = λ (rest : List ℕ).
        take hdr_len s.bytes ++ (iv_bytes v ++ ((w.key_idx * 64 % 256) ∷ rest)) in
      let payload = drop hdr_len s.bytes in
      let plain = payload ++ icv_bytes (crc32 payload) in
      let w' : WepData = record w { iv = v } in
      if ltb s.headroom 4 || ltb s.tailroom 4 || ltb (length s.bytes) hdr_len
      then (error 1, w, s)
      else if hw_sec
      then (done 0, w', grown 4 0 (framed payload) s)
      else elim (rc4_encrypt key plain) [
        | some secret ↦ (done 0, w', grown 4 4 (framed secret) s)
        | none ↦ (cipher_error, w', grown 4 4 (framed plain) s)
      ]

  -- The end of prism2_wep_decrypt: the vector and the checksum are taken off, where the bytes behind
  -- the vector are `rest`.
  pub wep_strip : SkBuff → ℕ → List ℕ → SkBuff
  unfolding shrunk
  wep_strip s hdr_len rest = shrunk 4 4 (take hdr_len s.bytes ++ take (length rest - 4) rest) s

  -- prism2_wep_decrypt
  pub wep_decrypt : Bool → WepData → SkBuff → ℕ → Outcome × SkBuff
  unfolding wep_strip icv_bytes
  wep_decrypt hw_sec w s hdr_len =
      let pos = drop hdr_len s.bytes in
      let secret = drop 4 pos in
      let plen = length s.bytes - hdr_len - 8 in
      let key = take 3 pos ++ take w.key_len w.key in
      if ltb (length s.bytes) (hdr_len + 8)
      then (error 1, s)
      else if not (get_or pos 3 0 / 64 == w.key_idx)
      then (error 1, s)
      else if hw_sec
      then (done 0, wep_strip s hdr_len secret)
      else elim (rc4_decrypt key secret) [
        | none ↦ (error 7, s)
        | some plain ↦
            if bytes_eq (icv_bytes (crc32 (take plen plain))) (take 4 (drop plen plain))
            then (done 0, wep_strip s hdr_len plain)
            else (error 2, record s { bytes = take hdr_len s.bytes ++ take 4 pos ++ plain })
      ]

-- prism2_wep_set_key: a key that is too long is refused.
pub wep_set_key : List ℕ → WepData → Bool × WepData
wep_set_key key w =
    if ltb wep_key_len (length key)
    then (false, w)
    else (true, record w { key = key ++ drop (length key) w.key; key_len = length key })

-- prism2_wep_get_key into a buffer of `len` bytes.
pub wep_get_key : ℕ → WepData → Option (List ℕ)
wep_get_key len w = if ltb len w.key_len then none else some (take w.key_len w.key)
