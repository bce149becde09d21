-- ===== src/Cipher/Ccmp.antt =====
-- CCMP, src/rtllib_crypt_ccmp.c.
pub mod Number
pub mod Blocks
pub mod Front
pub mod RoundTrip
pub mod Replay
mod Tests
use rtl8190p.Common.{
  ℕ, zero, suc, ◌+◌, ◌-◌, ◌*◌, ◌/◌, ◌%◌, ◌^◌, ◌==◌, ltb, leb, if◌then◌else◌, bit_xor, bit_and,
}
use rtl8190p.Common.{Bool, true, false, not, ◌&&◌, ◌||◌, Option, none, some, List, [], ◌∷◌, ◌++◌}
use rtl8190p.Common.{length, get_or, take, drop, replicate, slice, bytes_eq}
use rtl8190p.Cipher.{SkBuff, Outcome, done, error, grown, shrunk}

-- rtllib_ccmp_data, less the handle of the kernel's cipher and the scratch buffers.
pub record CcmpData : Type 0 where
  pub key : List ℕ
  pub key_set : Bool
  pub tx_pn : List ℕ
  pub rx_pn : List ℕ
  pub format_errors : ℕ
  pub replays : ℕ
  pub decrypt_errors : ℕ
  pub key_idx : ℕ

-- xor_block
pub xor_block : List ℕ → List ℕ → ℕ → List ℕ
xor_block b a zero = b
xor_block [] a (suc n) = []
xor_block (x ∷ b) [] (suc n) = x ∷ b
xor_block (x ∷ b) (y ∷ a) (suc n) = bit_xor x y ∷ xor_block b a n

-- The loop that counts the packet number up from its last byte: the carry, and the number.
pub bump : List ℕ → Bool × List ℕ
bump [] = (true, [])
bump (x ∷ xs) =
    let r = bump xs in if r.0 then ((x + 1) % 256 == 0, ((x + 1) % 256) ∷ r.1) else (false, x ∷ r.1)

-- Whether memcmp of two numbers of one length is at most 0.
pub memcmp_le : List ℕ → List ℕ → Bool
memcmp_le [] ys = true
memcmp_le (x ∷ xs) [] = true
memcmp_le (x ∷ xs) (y ∷ ys) =
    let rest = memcmp_le xs ys in if ltb x y then true else if x == y then rest else false

-- The eight bytes between the header and what is encrypted.
pub ccmp_header : List ℕ → ℕ → List ℕ
ccmp_header pn key_idx =
    get_or pn 5 0
    ∷ get_or pn 4 0
    ∷ 0
    ∷ ((key_idx * 64 + 32) % 256)
    ∷ get_or pn 3 0
    ∷ get_or pn 2 0
    ∷ get_or pn 1 0
    ∷ get_or pn 0 0
    ∷ []

-- The packet number in those eight bytes.
pub read_pn : List ℕ → List ℕ
read_pn pos =
    get_or pos 7 0
    ∷ get_or pos 6 0
    ∷ get_or pos 5 0
    ∷ get_or pos 4 0
    ∷ get_or pos 1 0
    ∷ get_or pos 0 0
    ∷ []

-- What ccmp_init_blocks sees of the header: whether there is a fourth address and a QoS field, and
-- that field's priority.
pub a4_included : List ℕ → Bool
a4_included hdr = get_or hdr 1 0 % 4 == 3

pub qc_included : List ℕ → Bool
qc_included hdr = get_or hdr 0 0 / 4 % 4 == 2 && get_or hdr 0 0 / 128 % 2 == 1

pub qos_priority : List ℕ → ℕ
unfolding a4_included qc_included
qos_priority hdr =
    if qc_included hdr then get_or hdr (if a4_included hdr then 30 else 24) 0 % 16 else 0

-- The nonce, the first 14 bytes of a block less its first.
pub nonce : List ℕ → List ℕ → List ℕ
unfolding qos_priority
nonce hdr pn = qos_priority hdr ∷ (slice hdr 10 6 ++ pn)

-- The additional authentication data, in two blocks.
pub aad : List ℕ → List ℕ
unfolding qos_priority a4_included qc_included
aad hdr =
    let len = 22 + (if a4_included hdr then 6 else 0) + (if qc_included hdr then 2 else 0) in
    let qc = qos_priority hdr in
    0
    ∷ len
    ∷ bit_and (get_or hdr 0 0) 0x8f
    ∷ bit_and (get_or hdr 1 0) 0xc7
    ∷ (slice hdr 4 18
        ++ ((get_or hdr 22 0 % 16)
            ∷ 0
            ∷ (if a4_included hdr then slice hdr 24 6 ++ (qc ∷ 0 ∷ []) else qc ∷ replicate 7 0)))

-- The length of a block with `left` more behind it.
pub block_len : ℕ → ℕ → ℕ
block_len left last = if left == 0 && not (last == 0) then last else 16

-- `aes` is the kernel's block cipher on a key and a block.
module _ (aes : List ℕ → List ℕ → List ℕ) where
  -- The counter block of a round.
  pub counter : List ℕ → ℕ → List ℕ
  counter start i = 1 ∷ (start ++ ((i / 256 % 256) ∷ (i % 256) ∷ []))

  -- What ccmp_init_blocks leaves in `auth`.
  pub init_auth : List ℕ → List ℕ → List ℕ → ℕ → List ℕ
  unfolding nonce aad xor_block
  init_auth key hdr pn dlen =
      let b0 = 0x59 ∷ (nonce hdr pn ++ ((dlen / 256 % 256) ∷ (dlen % 256) ∷ [])) in
      let auth = aes key (xor_block (aes key b0) (aad hdr) 16) in
      aes key (xor_block auth (drop 16 (aad hdr)) 16)

  -- The loop of rtllib_ccmp_encrypt: the authentication block, and what is encrypted.
  pub enc_loop : List ℕ → List ℕ → ℕ → ℕ → ℕ → List ℕ → List ℕ → List ℕ × List ℕ
  unfolding xor_block block_len counter
  enc_loop key start last zero i b pos = (b, pos)
  enc_loop key start last (suc left) i b pos =
      let len = block_len left last in
      let b' = aes key (xor_block b (take len pos) len) in
      let e = aes key (counter start i) in
      let r = enc_loop key start last left (i + 1) b' (drop len pos) in
      (r.0, xor_block (take len pos) e len ++ r.1)

  -- The loop of rtllib_ccmp_decrypt.
  pub dec_loop : List ℕ → List ℕ → ℕ → ℕ → ℕ → List ℕ → List ℕ → List ℕ × List ℕ
  unfolding xor_block block_len counter
  dec_loop key start last zero i a pos = (a, pos)
  dec_loop key start last (suc left) i a pos =
      let len = block_len left last in
      let plain = xor_block (take len pos) (aes key (counter start i)) len in
      let a' = aes key (xor_block a plain len) in
      let r = dec_loop key start last left (i + 1) a' (drop len pos) in (r.0, plain ++ r.1)

  -- The frame that rtllib_ccmp_encrypt makes for the packet number `pn`, without the hardware.
  pub sealed : CcmpData → List ℕ → List ℕ → List ℕ → List ℕ
  unfolding init_auth enc_loop ccmp_header
  sealed k pn hdr payload =
      let front = hdr ++ ccmp_header pn k.key_idx in
      let seen = front ++ payload in
      let n = length payload in
      let start = nonce seen pn in
      let r = enc_loop k.key start (n % 16) ((n + 15) / 16) 1 (init_auth k.key seen pn n) payload in
      let mic = xor_block (take 8 r.0) (aes k.key (counter start 0)) 8 in front ++ (r.1 ++ mic)

  -- rtllib_ccmp_encrypt
  pub ccmp_encrypt : Bool → CcmpData → SkBuff → ℕ → Outcome × CcmpData × SkBuff
  unfolding sealed bump grown
  ccmp_encrypt hw_sec k s hdr_len =
      let pn = (bump k.tx_pn).1 in
      let k' : CcmpData = record k { tx_pn = pn } in
      let hdr = take hdr_len s.bytes in
      let payload = drop hdr_len s.bytes in
      if ltb s.headroom 8 || ltb s.tailroom 8 || ltb (length s.bytes) hdr_len
      then (error 1, k, s)
      else if hw_sec
      then (done 0, k', grown 8 0 (hdr ++ (ccmp_header pn k.key_idx ++ payload)) s)
      else (done 0, k', grown 8 8 (sealed k pn hdr payload) s)

  -- The frame without the eight bytes and the check at its end.
  pub ccmp_strip : SkBuff → ℕ → List ℕ → SkBuff
  unfolding shrunk
  ccmp_strip s hdr_len plain = shrunk 8 8 (take hdr_len s.bytes ++ plain) s

  -- rtllib_ccmp_decrypt from the test of the check on.
  pub ccmp_open : Bool → CcmpData → SkBuff → ℕ → List ℕ → Outcome × CcmpData × SkBuff
  unfolding ccmp_strip init_auth dec_loop
  ccmp_open hw_sec k s hdr_len pn =
      let n = length s.bytes - hdr_len - 16 in
      let body = drop (hdr_len + 8) s.bytes in
      let start = nonce s.bytes pn in
      let mic = xor_block (drop n body) (aes k.key (counter start 0)) 8 in
      let r =
        dec_loop k.key start (n % 16) ((n + 15) / 16) 1 (init_auth k.key s.bytes pn n)
          (take n body) in
      let s' : SkBuff = record s { bytes = take (hdr_len + 8) s.bytes ++ (r.1 ++ mic) } in
      if hw_sec
      then (done k.key_idx, k, ccmp_strip s hdr_len (take n body))
      else if bytes_eq (take 8 mic) (take 8 r.0)
      then (done k.key_idx, record k { rx_pn = pn }, ccmp_strip s hdr_len r.1)
      else (error 5, record k { decrypt_errors = (k.decrypt_errors + 1) % 2 ^ 32 }, s')

  -- rtllib_ccmp_decrypt
  pub ccmp_decrypt : Bool → CcmpData → SkBuff → ℕ → Outcome × CcmpData × SkBuff
  unfolding ccmp_open read_pn memcmp_le
  ccmp_decrypt hw_sec k s hdr_len =
      let pos = drop hdr_len s.bytes in
      let bad : CcmpData = record k { format_errors = (k.format_errors + 1) % 2 ^ 32 } in
      let replayed : CcmpData = record k { replays = (k.replays + 1) % 2 ^ 32 } in
      if ltb (length s.bytes) (hdr_len + 16)
      then (error 1, bad, s)
      else if get_or pos 3 0 / 32 % 2 == 0
      then (error 2, bad, s)
      else if not (k.key_idx == get_or pos 3 0 / 64)
      then (error 6, k, s)
      else if not k.key_set
      then (error 3, k, s)
      else if memcmp_le (read_pn pos) k.rx_pn
      then (error 4, replayed, s)
      else ccmp_open hw_sec k s hdr_len (read_pn pos)

-- rtllib_ccmp_set_key
pub ccmp_set_key : List ℕ → Option (List ℕ) → CcmpData → Bool × CcmpData
ccmp_set_key key seq k =
    let blank : CcmpData = record {
      key = replicate 16 0;
      key_set = false;
      tx_pn = replicate 6 0;
      rx_pn = replicate 6 0;
      format_errors = 0;
      replays = 0;
      decrypt_errors = 0;
      key_idx = k.key_idx;
    } in
    let start : List ℕ = elim seq [
      | none ↦ replicate 6 0
      | some q ↦
          get_or q 5 0
          ∷ get_or q 4 0
          ∷ get_or q 3 0
          ∷ get_or q 2 0
          ∷ get_or q 1 0
          ∷ get_or q 0 0
          ∷ []
    ] in
    if length key == 16
    then (true, record blank { key = key; key_set = true; rx_pn = start })
    else if length key == 0
    then (true, blank)
    else (false, blank)

-- rtllib_ccmp_get_key into a buffer of `len` bytes: what is returned, the key and the number.
pub ccmp_get_key : ℕ → CcmpData → Outcome × List ℕ × List ℕ
ccmp_get_key len k =
    let seq : List ℕ =
      get_or k.tx_pn 5 0
      ∷ get_or k.tx_pn 4 0
      ∷ get_or k.tx_pn 3 0
      ∷ get_or k.tx_pn 2 0
      ∷ get_or k.tx_pn 1 0
      ∷ get_or k.tx_pn 0 0
      ∷ [] in
    if ltb len 16
    then (error 1, [], [])
    else if k.key_set
    then (done 16, k.key, seq)
    else (done 0, [], [])
