-- ===== src/Cipher/Tkip/Michael.antt =====
-- The Michael check of TKIP on a whole packet: michael_mic_hdr, rtllib_michael_mic_add and
-- rtllib_michael_mic_verify of src/rtllib_crypt_tkip.c.
pub mod Covered
pub mod Check
use rtl8190p.Common.{
  ℕ, ◌+◌, ◌-◌, ◌/◌, ◌%◌, ◌^◌, ◌==◌, ltb, if◌then◌else◌, Bool, true, false, not, ◌||◌,
}
use rtl8190p.Common.{Option, none, some, List, [], ◌∷◌, ◌++◌, length, get_or, take, drop, slice}
use rtl8190p.Common.{bytes_eq}
use rtl8190p.Common.{◌*◌}
use rtl8190p.Rx.{qos_has_seq}
use rtl8190p.Cipher.{SkBuff, Outcome, done, error, grown, shrunk}
use rtl8190p.Cipher.Tkip.{TkipData}

-- RTLLIB_FCTL_TODS is the lowest bit of the second byte, RTLLIB_FCTL_FROMDS the next one.
unfoldable pub ds_of : List ℕ → ℕ
ds_of bytes = get_or bytes 1 0 % 4

-- The receiver and the sender of a packet, as the two flags say.
unfoldable pub da_sa : List ℕ → List ℕ
unfolding ds_of
da_sa bytes =
    if ds_of bytes == 1
    then slice bytes 16 6 ++ slice bytes 10 6
    else if ds_of bytes == 2
    then slice bytes 4 6 ++ slice bytes 16 6
    else if ds_of bytes == 3
    then slice bytes 16 6 ++ slice bytes 24 6
    else slice bytes 4 6 ++ slice bytes 10 6

-- RTLLIB_QOS_HAS_SEQ, and the priority at the end of a header of `hdr_len` bytes.
unfoldable pub mic_priority : List ℕ → (hdr_len : ℕ) → ℕ
mic_priority bytes hdr_len =
    if qos_has_seq (get_or bytes 0 0 + 256 * get_or bytes 1 0)
    then get_or bytes (hdr_len - 2) 0 % 8
    else 0

-- michael_mic_hdr, with the priority that its callers write into it.
unfoldable pub mic_hdr : List ℕ → (hdr_len : ℕ) → List ℕ
unfolding da_sa mic_priority
mic_hdr bytes hdr_len = da_sa bytes ++ (mic_priority bytes hdr_len ∷ 0 ∷ 0 ∷ 0 ∷ [])

-- `michael` is the kernel's hash of a key of eight bytes and the bytes of two parts, which may
-- fail; `stale` is what the eight bytes behind a frame hold.
module _ (michael : List ℕ → List ℕ → List ℕ → Option (List ℕ)) (stale : List ℕ) where
  -- rtllib_michael_mic_add
  unfoldable pub michael_mic_add : TkipData → SkBuff → (hdr_len : ℕ) → Outcome × SkBuff
  michael_mic_add k s hdr_len =
      if ltb s.tailroom 8 || ltb (length s.bytes) hdr_len
      then (error 1, s)
      else elim (michael (slice k.key 16 8) (mic_hdr s.bytes hdr_len) (drop hdr_len s.bytes)) [
        | some mic ↦ (done 0, grown 0 8 (s.bytes ++ mic) s)
        | none ↦ (error 1, grown 0 8 (s.bytes ++ stale) s)
      ]

  -- rtllib_michael_mic_verify; `force` is force_mic_error of the device, and its new value is the
  -- second part of the result. With fewer than eight bytes behind the header the length wraps
  -- around and memory far behind the frame is read: `none`.
  unfoldable pub michael_mic_verify :
      (force : Bool)
      → TkipData
      → SkBuff
      → (hdr_len : ℕ) → Option (Outcome × Bool × TkipData × SkBuff)
  michael_mic_verify force k s hdr_len =
      let len = length s.bytes in
      let failed : TkipData = record k { mic_failures = (k.mic_failures + 1) % 2 ^ 32 } in
      let kept : TkipData = record k { rx_iv32 = k.rx_iv32_new; rx_iv16 = k.rx_iv16_new } in
      if not k.key_set
      then some (error 1, force, k, s)
      else if ltb len (hdr_len + 8)
      then none
      else elim (michael (slice k.key 24 8) (mic_hdr s.bytes hdr_len)
          (slice s.bytes hdr_len (len - 8 - hdr_len))) [
            | none ↦ some (error 1, force, k, s)
            | some mic ↦
                if not (bytes_eq mic (drop (len - 8) s.bytes)) || force
                then some (error 1, false, failed, s)
                else some (done 0, force, kept, shrunk 0 8 (take (len - 8) s.bytes) s)
          ]
