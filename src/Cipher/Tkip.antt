-- ===== src/Cipher/Tkip.antt =====
-- TKIP, src/rtllib_crypt_tkip.c.
pub mod Mixing
pub mod RoundTrip
pub mod Replay
pub mod Michael
mod Tests
use rtl8190p.Common.{
  ℕ, ◌+◌, ◌-◌, ◌*◌, ◌/◌, ◌%◌, ◌^◌, ◌==◌, ltb, leb, if◌then◌else◌, bit_or, bit_and,
}
use rtl8190p.Common.{Bool, true, false, not, ◌&&◌, ◌||◌, Option, none, some, List, [], ◌∷◌, ◌++◌}
use rtl8190p.Common.{length, get_or, take, drop, replicate, slice, bytes_eq}
use rtl8190p.Cipher.{SkBuff, Outcome, done, error, cipher_error, grown, shrunk}
use rtl8190p.Cipher.Wep.{icv_bytes}
use rtl8190p.Cipher.Tkip.Mixing.{mixing_phase1, mixing_phase2, seed_iv}

-- rtllib_tkip_data, less the handles of the kernel's ciphers and the scratch buffers.
pub record TkipData : Type 0 where
  pub key : List ℕ
  pub key_set : Bool
  pub tx_iv32 : ℕ
  pub tx_iv16 : ℕ
  pub tx_ttak : List ℕ
  pub tx_phase1_done : Bool
  pub rx_iv32 : ℕ
  pub rx_iv16 : ℕ
  pub initialized : Bool
  pub rx_ttak : List ℕ
  pub rx_phase1_done : Bool
  pub rx_iv32_new : ℕ
  pub rx_iv16_new : ℕ
  pub replays : ℕ
  pub icv_errors : ℕ
  pub mic_failures : ℕ
  pub key_idx : ℕ

-- The second address of a frame's header, that of the sender.
unfoldable pub addr2 : List ℕ → List ℕ
addr2 bytes = slice bytes 10 6

-- The eight bytes between the header and the payload.
unfoldable pub tkip_header : TkipData → List ℕ
tkip_header k =
    seed_iv k.tx_iv16
    ++ (((k.key_idx * 64 + 32) % 256)
        ∷ (k.tx_iv32 % 256)
        ∷ (k.tx_iv32 / 2 ^ 8 % 256)
        ∷ (k.tx_iv32 / 2 ^ 16 % 256)
        ∷ (k.tx_iv32 / 2 ^ 24 % 256)
        ∷ [])

-- The cached words of a sender, made anew unless they are marked as done.
unfoldable pub ready_ttak : TkipData → List ℕ → List ℕ
ready_ttak k bytes =
    if k.tx_phase1_done then k.tx_ttak else mixing_phase1 k.key (addr2 bytes) k.tx_iv32

-- The number of the next frame; a new upper part needs new words.
unfoldable pub next_number : TkipData → TkipData
next_number k =
    let iv16 = (k.tx_iv16 + 1) % 2 ^ 16 in
    if iv16 == 0
    then record k { tx_iv16 = iv16; tx_phase1_done = false; tx_iv32 = (k.tx_iv32 + 1) % 2 ^ 32 }
    else record k { tx_iv16 = iv16 }

-- The numbers that stand behind the header of a frame.
unfoldable pub read_iv16 : List ℕ → ℕ
read_iv16 pos = get_or pos 0 0 * 256 + get_or pos 2 0

unfoldable pub read_iv32 : List ℕ → ℕ
read_iv32 pos =
    get_or pos 4 0 + get_or pos 5 0 * 2 ^ 8 + get_or pos 6 0 * 2 ^ 16 + get_or pos 7 0 * 2 ^ 24

-- Whether a number comes no later than the last one that was taken.
unfoldable pub is_replay : TkipData → (iv32 iv16 : ℕ) → Bool
is_replay k iv32 iv16 =
    (ltb iv32 k.rx_iv32 || (iv32 == k.rx_iv32 && leb iv16 k.rx_iv16)) && k.initialized

-- A receiver whose cached words are those of `iv32`.
unfoldable pub with_ttak : TkipData → List ℕ → (iv32 : ℕ) → TkipData
with_ttak k bytes iv32 =
    if not (iv32 == k.rx_iv32) || not k.rx_phase1_done
    then record k {
      initialized = true;
      rx_ttak = mixing_phase1 k.key (addr2 bytes) iv32;
      rx_phase1_done = true;
    }
    else record k { initialized = true }

-- `crc32` is the complement of the kernel's crc32_le from ~0 on; `rc4_encrypt` and `rc4_decrypt`
-- are its stream cipher on a key and bytes, which may fail.
module _ (crc32 : List ℕ → ℕ) (rc4_encrypt rc4_decrypt : List ℕ → List ℕ → Option (List ℕ)) where
  -- rtllib_tkip_encrypt on a frame with a header of `hdr_len` bytes. With the hardware the words
  -- are marked as done but not made.
  unfoldable pub tkip_encrypt :
      (hw_sec : Bool) → TkipData → SkBuff → (hdr_len : ℕ) → Outcome × TkipData × SkBuff
  tkip_encrypt hw_sec k s hdr_len =
      let ttak = if hw_sec then k.tx_ttak else ready_ttak k s.bytes in
      let k' = next_number (record k { tx_ttak = ttak; tx_phase1_done = true }) in
      let payload = drop hdr_len s.bytes in
      let plain = payload ++ icv_bytes (crc32 payload) in
      let framed = λ (rest : List ℕ). take hdr_len s.bytes ++ (tkip_header k ++ rest) in
      if ltb s.headroom 8 || ltb s.tailroom 4 || ltb (length s.bytes) hdr_len
      then (error 1, k, s)
      else if hw_sec
      then (done 0, k', grown 8 0 (framed payload) s)
      else elim (rc4_encrypt (mixing_phase2 k.key ttak k.tx_iv16) plain) [
        | some secret ↦ (done 0, k', grown 8 4 (framed secret) s)
        | none ↦ (cipher_error, k', grown 8 4 (framed plain) s)
      ]

  -- The end of rtllib_tkip_decrypt: the numbers are kept, and the eight bytes and the checksum are
  -- taken off, where `rest` stands behind the eight bytes.
  unfoldable pub tkip_strip :
      TkipData → SkBuff → (hdr_len : ℕ) → (rest : List ℕ) → Outcome × TkipData × SkBuff
  tkip_strip k s hdr_len rest =
      let pos = drop hdr_len s.bytes in
      (
        done (get_or pos 3 0 / 64),
        record k { rx_iv32_new = read_iv32 pos; rx_iv16_new = read_iv16 pos },
        shrunk 8 4 (take hdr_len s.bytes ++ take (length rest - 4) rest) s,
      )

  -- The part of rtllib_tkip_decrypt that works without the hardware, behind the test for a replay.
  unfoldable pub tkip_open : TkipData → SkBuff → (hdr_len : ℕ) → Outcome × TkipData × SkBuff
  tkip_open k s hdr_len =
      let pos = drop hdr_len s.bytes in
      let iv32 = read_iv32 pos in
      let k' = with_ttak k s.bytes iv32 in
      let plen = length s.bytes - hdr_len - 12 in
      let failed : TkipData = record k' {
        rx_phase1_done = if not (iv32 == k.rx_iv32) then false else k'.rx_phase1_done;
        icv_errors = (k'.icv_errors + 1) % 2 ^ 32;
      } in
      elim (rc4_decrypt (mixing_phase2 k.key k'.rx_ttak (read_iv16 pos)) (drop 8 pos)) [
        | none ↦ (error 7, k', s)
        | some plain ↦
            if bytes_eq (icv_bytes (crc32 (take plen plain))) (take 4 (drop plen plain))
            then tkip_strip k' s hdr_len plain
            else (error 5, failed, record s { bytes = take hdr_len s.bytes ++ take 8 pos ++ plain })
      ]

  -- rtllib_tkip_decrypt; `marked` says that the first byte of `cb` is 1.
  unfoldable pub tkip_decrypt :
      (hw_sec marked : Bool) → TkipData → SkBuff → (hdr_len : ℕ) → Outcome × TkipData × SkBuff
  tkip_decrypt hw_sec marked k s hdr_len =
      let pos = drop hdr_len s.bytes in
      let tag = get_or pos 3 0 in
      if ltb (length s.bytes) (hdr_len + 12)
      then (error 1, k, s)
      else if tag / 32 % 2 == 0
      then (error 2, k, s)
      else if not (k.key_idx == tag / 64)
      then (error 6, k, s)
      else if not k.key_set
      then (error 3, k, s)
      else if hw_sec && not marked
      then tkip_strip k s hdr_len (drop 8 pos)
      else if is_replay k (read_iv32 pos) (read_iv16 pos)
      then (error 4, record k { replays = (k.replays + 1) % 2 ^ 32 }, s)
      else tkip_open k s hdr_len

-- rtllib_tkip_set_key: whether it succeeds, and the state.
unfoldable pub tkip_set_key : List ℕ → Option (List ℕ) → TkipData → Bool × TkipData
tkip_set_key key seq k =
    let blank : TkipData = record {
      key = replicate 32 0;
      key_set = false;
      tx_iv32 = 0;
      tx_iv16 = 0;
      tx_ttak = replicate 5 0;
      tx_phase1_done = false;
      rx_iv32 = 0;
      rx_iv16 = 0;
      initialized = false;
      rx_ttak = replicate 5 0;
      rx_phase1_done = false;
      rx_iv32_new = 0;
      rx_iv16_new = 0;
      replays = 0;
      icv_errors = 0;
      mic_failures = 0;
      key_idx = k.key_idx;
    } in
    let keyed : TkipData = record blank { key = key; key_set = true; tx_iv16 = 1 } in
    if length key == 32
    then (
      true,
      elim seq [
        | none ↦ keyed
        | some q ↦ record keyed {
          rx_iv32 =
              get_or q 2 0 + get_or q 3 0 * 2 ^ 8 + get_or q 4 0 * 2 ^ 16 + get_or q 5 0 * 2 ^ 24;
          rx_iv16 = get_or q 0 0 + get_or q 1 0 * 2 ^ 8;
        }
      ],
    )
    else if length key == 0
    then (true, blank)
    else (false, blank)

-- rtllib_tkip_get_key into a buffer of `len` bytes: what is returned, the key and the number, which
-- is that of the next frame.
unfoldable pub tkip_get_key : ℕ → TkipData → Outcome × List ℕ × List ℕ
tkip_get_key len k =
    let seq : List ℕ =
      (k.tx_iv16 % 256)
      ∷ (k.tx_iv16 / 256)
      ∷ (k.tx_iv32 % 256)
      ∷ (k.tx_iv32 / 2 ^ 8 % 256)
      ∷ (k.tx_iv32 / 2 ^ 16 % 256)
      ∷ (k.tx_iv32 / 2 ^ 24)
      ∷ [] in
    if ltb len 32
    then (error 1, [], [])
    else if k.key_set
    then (done 32, k.key, seq)
    else (done 0, [], [])
