-- ===== src/Cipher/Tkip/RoundTrip.antt =====
-- What rtllib_tkip_encrypt made, rtllib_tkip_decrypt takes back.
use rtl8190p.Common.{
  ℕ, ◌+◌, ◌-◌, ◌/◌, ◌%◌, ◌^◌, ◌≤◌, ◌<◌, ◌==◌, ==_refl, ◌≡◌, refl, arith, sym, ap, ap₂, ◌∙◌, ltb,
}
use rtl8190p.Common.{Bool, true, false, not, ◌||◌, Option, some, List, ◌++◌}
use rtl8190p.Common.{length, get_or, take, drop, slice, bytes_eq, bytes_eq_refl, length-append}
use rtl8190p.Common.{length-take, take-append, drop-append, take-append-drop, Bool-cases, inl, inr}
use rtl8190p.Common.{slice-append}
use rtl8190p.Cipher.{SkBuff, done, grown, shrunk, shrunk-grown}
use rtl8190p.Cipher.Wep.{icv_bytes}
use rtl8190p.Cipher.Tkip.Mixing.{mixing_phase1, mixing_phase2, seed_iv, hi8, lo8}
use rtl8190p.Cipher.Tkip.{
  TkipData, addr2, tkip_header, ready_ttak, read_iv16, read_iv32, is_replay, with_ttak,
  tkip_encrypt, tkip_strip, tkip_open, tkip_decrypt,
}

-- The numbers in the eight bytes behind a header.
module _ (k : TkipData) (rest : List ℕ) where
  read_iv16-tkip_header : read_iv16 (tkip_header k ++ rest) ≡ k.tx_iv16
  unfolding tkip_header read_iv16 seed_iv hi8 lo8
  read_iv16-tkip_header = omega arith

  read_iv32-tkip_header : k.tx_iv32 < 2 ^ 32 → read_iv32 (tkip_header k ++ rest) ≡ k.tx_iv32
  unfolding tkip_header read_iv32 seed_iv
  read_iv32-tkip_header small = omega arith

  tag-tkip_header :
      k.key_idx < 4
      → (get_or (tkip_header k ++ rest) 3 0 / 32 % 2 ≡ 1)
        × (get_or (tkip_header k ++ rest) 3 0 / 64 ≡ k.key_idx)
  unfolding tkip_header seed_iv
  tag-tkip_header idx = omega arith

  drop-tkip_header : drop 8 (tkip_header k ++ rest) ≡ rest
  unfolding tkip_header seed_iv
  drop-tkip_header = refl

  length-tkip_header : length (tkip_header k ++ rest) ≡ 8 + length rest
  unfolding tkip_header seed_iv
  length-tkip_header = omega arith

length-icv_bytes : (crc : ℕ) → length (icv_bytes crc) ≡ 4
unfolding icv_bytes
length-icv_bytes crc = refl

take-icv_bytes : (crc : ℕ) → take 4 (icv_bytes crc) ≡ icv_bytes crc
unfolding icv_bytes
take-icv_bytes crc = refl

-- The words that a receiver takes are those of the number, if its cached ones were.
rx_ttak-with_ttak :
    (r : TkipData) (bytes : List ℕ) (iv32 : ℕ)
    → (r.rx_phase1_done ≡ true
        → iv32 ≡ r.rx_iv32
        → r.rx_ttak ≡ mixing_phase1 r.key (addr2 bytes) iv32)
    → (with_ttak r bytes iv32).rx_ttak ≡ mixing_phase1 r.key (addr2 bytes) iv32
unfolding with_ttak
rx_ttak-with_ttak r bytes iv32 cached =
    elim (Bool-cases (not (iv32 == r.rx_iv32) || not r.rx_phase1_done)) [
      | inl anew ↦ rw anew refl
      | inr kept ↦ rw kept (cached (ground arith) (ground arith))
    ]

ready_ttak_lem :
    (k : TkipData) (bytes : List ℕ)
    → (k.tx_phase1_done ≡ true → k.tx_ttak ≡ mixing_phase1 k.key (addr2 bytes) k.tx_iv32)
    → ready_ttak k bytes ≡ mixing_phase1 k.key (addr2 bytes) k.tx_iv32
unfolding ready_ttak
ready_ttak_lem k bytes cached = elim (Bool-cases k.tx_phase1_done) [
  | inl kept ↦ ground (arith, cached kept)
  | inr anew ↦ ground arith
]

module _ (crc32 : List ℕ → ℕ) (rc4_encrypt rc4_decrypt : List ℕ → List ℕ → Option (List ℕ)) where
  -- What is encrypted of a frame, with which key.
  abbrev pub plain_of : SkBuff → ℕ → List ℕ
  plain_of s hdr_len = drop hdr_len s.bytes ++ icv_bytes (crc32 (drop hdr_len s.bytes))

  abbrev pub seed_of : TkipData → SkBuff → List ℕ
  seed_of k s = mixing_phase2 k.key (mixing_phase1 k.key (addr2 s.bytes) k.tx_iv32) k.tx_iv16

  encrypted :
      (k : TkipData) (s : SkBuff) (hdr_len : ℕ) (secret : List ℕ)
      → 8 ≤ s.headroom
      → 4 ≤ s.tailroom
      → hdr_len ≤ length s.bytes
      → rc4_encrypt (mixing_phase2 k.key (ready_ttak k s.bytes) k.tx_iv16) (plain_of s hdr_len)
        ≡ some secret
      → let r = tkip_encrypt crc32 rc4_encrypt rc4_decrypt false k s hdr_len in
        (r.0 ≡ done 0) × (r.2 ≡ grown 8 4 (take hdr_len s.bytes ++ (tkip_header k ++ secret)) s)
  unfolding tkip_encrypt
  encrypted k s hdr_len secret room tail long e =
      let ok : (ltb s.headroom 8 || ltb s.tailroom 4 || ltb (length s.bytes) hdr_len) ≡ false =
        ground arith in
      (rw (tkip_encrypt, ok, e) refl, rw (tkip_encrypt, ok, e) refl)

  -- A frame of a header, the eight bytes of a sender and what is encrypted.
  module _ (k r : TkipData) (t : SkBuff) (hdr secret payload : List ℕ)
      (is : t.bytes ≡ hdr ++ (tkip_header k ++ secret)) (size : length secret ≡ length payload + 4)
      (small : k.tx_iv32 < 2 ^ 32) where
    pos_of : drop (length hdr) t.bytes ≡ tkip_header k ++ secret
    pos_of = rw is (drop-append hdr (tkip_header k ++ secret))

    length_of : length t.bytes ≡ length hdr + 12 + length payload
    length_of =
        ap length is
        ∙ length-append hdr (tkip_header k ++ secret)
        ∙ omega (arith, length-tkip_header k secret)

    opened :
        (plain : List ℕ)
        → plain ≡ payload ++ icv_bytes (crc32 payload)
        → rc4_decrypt (mixing_phase2 r.key (with_ttak r t.bytes k.tx_iv32).rx_ttak k.tx_iv16) secret
          ≡ some plain
        → tkip_open crc32 rc4_encrypt rc4_decrypt r t (length hdr)
          ≡ tkip_strip crc32 rc4_encrypt rc4_decrypt
              (with_ttak r t.bytes k.tx_iv32)
              t
              (length hdr)
              plain
    unfolding tkip_open
    opened plain made d =
        let body = take-append payload (icv_bytes (crc32 payload)) in
        let check = drop-append payload (icv_bytes (crc32 payload)) in
        let behind : drop 8 (drop (length hdr) t.bytes) ≡ secret =
          ap (drop 8) pos_of ∙ drop-tkip_header k secret in
        let upper : read_iv32 (drop (length hdr) t.bytes) ≡ k.tx_iv32 =
          ap read_iv32 pos_of ∙ read_iv32-tkip_header k secret small in
        let lower : read_iv16 (drop (length hdr) t.bytes) ≡ k.tx_iv16 =
          ap read_iv16 pos_of ∙ read_iv16-tkip_header k secret in
        let plen : length t.bytes - length hdr - 12 ≡ length payload = omega (arith, length_of) in
        let same : bytes_eq (icv_bytes (crc32 (take (length payload) plain)))
              (take 4 (drop (length payload) plain))
            ≡ true =
          rw (made, body, check, take-icv_bytes (crc32 payload))
            (bytes_eq_refl (icv_bytes (crc32 payload))) in
        rw (tkip_open, upper, lower, behind, d, plen, same, upper) refl

    stripped :
        (v : TkipData) (plain : List ℕ)
        → plain ≡ payload ++ icv_bytes (crc32 payload)
        → k.key_idx < 4
        → tkip_strip crc32 rc4_encrypt rc4_decrypt v t (length hdr) plain ≡ (
          done k.key_idx,
          record v { rx_iv32_new = k.tx_iv32; rx_iv16_new = k.tx_iv16 },
          shrunk 8 4 (hdr ++ payload) t,
        )
    unfolding tkip_strip
    stripped v plain made idx =
        let icv = icv_bytes (crc32 payload) in
        let upper : read_iv32 (drop (length hdr) t.bytes) ≡ k.tx_iv32 =
          ap read_iv32 pos_of ∙ read_iv32-tkip_header k secret small in
        let lower : read_iv16 (drop (length hdr) t.bytes) ≡ k.tx_iv16 =
          ap read_iv16 pos_of ∙ read_iv16-tkip_header k secret in
        let number : get_or (drop (length hdr) t.bytes) 3 0 / 64 ≡ k.key_idx =
          rw pos_of (tag-tkip_header k secret idx).1 in
        let head : take (length hdr) t.bytes ≡ hdr =
          rw is (take-append hdr (tkip_header k ++ secret)) in
        let cut : take (length plain - 4) plain ≡ payload = rw made (
          ap (λ n. take n (payload ++ icv))
            (omega (arith, length-append payload icv, length-icv_bytes (crc32 payload)))
          ∙ take-append payload icv) in
        rw (tkip_strip, upper, lower, number, head, cut) refl

    decrypted :
        (marked : Bool) (plain : List ℕ)
        → plain ≡ payload ++ icv_bytes (crc32 payload)
        → rc4_decrypt (mixing_phase2 r.key (with_ttak r t.bytes k.tx_iv32).rx_ttak k.tx_iv16) secret
          ≡ some plain
        → k.key_idx < 4
        → r.key_idx ≡ k.key_idx
        → r.key_set ≡ true
        → is_replay r k.tx_iv32 k.tx_iv16 ≡ false
        → tkip_decrypt crc32 rc4_encrypt rc4_decrypt false marked r t (length hdr) ≡ (
          done k.key_idx,
          record (with_ttak r t.bytes k.tx_iv32) {
            rx_iv32_new = k.tx_iv32;
            rx_iv16_new = k.tx_iv16;
          },
          shrunk 8 4 (hdr ++ payload) t,
        )
    unfolding tkip_decrypt
    decrypted marked plain made d idx own keyed fresh =
        let pos = drop (length hdr) t.bytes in
        let (ext, known) = tag-tkip_header k secret idx in
        let ext_iv : (get_or pos 3 0 / 32 % 2 == 0) ≡ false = rw (pos_of, ext) refl in
        let index : not (r.key_idx == get_or pos 3 0 / 64) ≡ false =
          rw (pos_of, known, own, ==_refl k.key_idx) refl in
        let long : ltb (length t.bytes) (length hdr + 12) ≡ false = ground (arith, length_of) in
        let open_key : not r.key_set ≡ false = ground arith in
        let new : is_replay r (read_iv32 pos) (read_iv16 pos) ≡ false =
          rw (pos_of, read_iv32-tkip_header k secret small, read_iv16-tkip_header k secret) fresh in
        rw (tkip_decrypt, long, ext_iv, index, open_key, new)
          (opened plain made d ∙ stripped (with_ttak r t.bytes k.tx_iv32) plain made idx)

  -- The address of the sender is in the header.
  addr2-header :
      (bytes rest : List ℕ) (hdr_len : ℕ)
      → 16 ≤ hdr_len
      → hdr_len ≤ length bytes
      → addr2 (take hdr_len bytes ++ rest) ≡ addr2 bytes
  unfolding addr2
  addr2-header bytes rest hdr_len wide long =
      let n : length (take hdr_len bytes) ≡ hdr_len = length-take hdr_len bytes ∙ omega arith in
      slice-append (take hdr_len bytes) rest 10 6 (omega arith)
      ∙ sym (slice-append (take hdr_len bytes) (drop hdr_len bytes) 10 6 (omega arith))
      ∙ ap (λ b. slice b 10 6) (take-append-drop hdr_len bytes)

  -- On a frame with room for what is added, a header that holds the address of its sender, and a
  -- cipher that succeeds, rtllib_tkip_encrypt succeeds, and rtllib_tkip_decrypt with the same key,
  -- for which the number is no replay, returns the key's index, gives the frame back and keeps the
  -- number; the cached words of both sides, where they are marked as done, are those of the key,
  -- the sender and the number, and the cipher's decryption undoes its encryption and keeps lengths.
  pub tkip_decrypt-encrypt :
      (k r : TkipData) (s : SkBuff) (hdr_len : ℕ) (marked : Bool) (secret : List ℕ)
      → ((seed x y : List ℕ)
          → rc4_encrypt seed x ≡ some y
          → (rc4_decrypt seed y ≡ some x) × (length y ≡ length x))
      → 8 ≤ s.headroom
      → 4 ≤ s.tailroom
      → 16 ≤ hdr_len
      → hdr_len ≤ length s.bytes
      → k.key_idx < 4
      → k.tx_iv32 < 2 ^ 32
      → r.key ≡ k.key
      → r.key_idx ≡ k.key_idx
      → r.key_set ≡ true
      → (k.tx_phase1_done ≡ true → k.tx_ttak ≡ mixing_phase1 k.key (addr2 s.bytes) k.tx_iv32)
      → (r.rx_phase1_done ≡ true
          → k.tx_iv32 ≡ r.rx_iv32
          → r.rx_ttak ≡ mixing_phase1 r.key (addr2 s.bytes) k.tx_iv32)
      → is_replay r k.tx_iv32 k.tx_iv16 ≡ false
      → rc4_encrypt (seed_of k s) (plain_of s hdr_len) ≡ some secret
      → let sent = tkip_encrypt crc32 rc4_encrypt rc4_decrypt false k s hdr_len in
        let got = tkip_decrypt crc32 rc4_encrypt rc4_decrypt false marked r sent.2 hdr_len in
        (sent.0 ≡ done 0)
        × (got.0 ≡ done k.key_idx)
        × (got.1.rx_iv32_new ≡ k.tx_iv32)
        × (got.1.rx_iv16_new ≡ k.tx_iv16)
        × (got.2 ≡ s)
  tkip_decrypt-encrypt k r s hdr_len marked secret law room tail wide long idx small key own keyed
        tx rx fresh e =
      let hdr = take hdr_len s.bytes in
      let payload = drop hdr_len s.bytes in
      let bytes = hdr ++ (tkip_header k ++ secret) in
      let t : SkBuff = record {
        headroom = s.headroom - 8;
        tailroom = s.tailroom - 4;
        bytes = bytes;
      } in
      let (ok, made) =
        encrypted k s hdr_len secret room tail long (rw (ready_ttak_lem k s.bytes tx) e) in
      let back = law (seed_of k s) (plain_of s hdr_len) secret e in
      let sender : addr2 bytes ≡ addr2 s.bytes =
        addr2-header s.bytes (tkip_header k ++ secret) hdr_len wide long in
      let size : length secret ≡ length payload + 4 =
        back.1
        ∙ length-append payload (icv_bytes (crc32 payload))
        ∙ omega (arith, length-icv_bytes (crc32 payload)) in
      let n : length hdr ≡ hdr_len = length-take hdr_len s.bytes ∙ omega arith in
      let words = λ (a b : List ℕ). mixing_phase1 a b k.tx_iv32 in
      let ttak : (with_ttak r bytes k.tx_iv32).rx_ttak
          ≡ mixing_phase1 k.key (addr2 s.bytes) k.tx_iv32 =
        rx_ttak-with_ttak r bytes k.tx_iv32 (λ d u. rw sender (rx d u)) ∙ ap₂ words key sender in
      let seed : mixing_phase2 r.key (with_ttak r bytes k.tx_iv32).rx_ttak k.tx_iv16 ≡ seed_of k s =
        ap₂ (λ a b. mixing_phase2 a b k.tx_iv16) key ttak in
      let opens : rc4_decrypt (mixing_phase2 r.key (with_ttak r bytes k.tx_iv32).rx_ttak k.tx_iv16)
            secret
          ≡ some (plain_of s hdr_len) =
        ap (λ q. rc4_decrypt q secret) seed ∙ back.0 in
      let run =
        decrypted k r t hdr secret payload refl size small marked (plain_of s hdr_len) refl opens
          idx own keyed fresh in
      let reached : grown 8 4 bytes s ≡ t = unfold grown in refl in
      let whole =
        ap₂ (λ u m. tkip_decrypt crc32 rc4_encrypt rc4_decrypt false marked r u m) (made ∙ reached)
          (sym n)
        ∙ run in
      let same : shrunk 8 4 (hdr ++ payload) t ≡ s =
        unfold grown in
        shrunk-grown 8 4 (hdr ++ payload) bytes s room tail (take-append-drop hdr_len s.bytes) in
      (
        ok,
        ap (λ x. x.0) whole,
        ap (λ x. x.1.rx_iv32_new) whole,
        ap (λ x. x.1.rx_iv16_new) whole,
        ap (λ x. x.2) whole ∙ same,
      )
