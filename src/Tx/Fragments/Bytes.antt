-- ===== src/Tx/Fragments/Bytes.antt =====
-- The bytes of a fragment's header, which rtllib_xmit_inter makes of little-endian words.
use rtl8190p.Common.{
  ℕ, ◌+◌, ◌*◌, ◌/◌, ◌%◌, ◌^◌, ◌<◌, ◌==◌, ==_iff, if◌then◌else◌, ◌≡◌, refl, ◌∙◌, arith, Bool, true,
  false, Option, none, some, List, [], ◌∷◌, ◌++◌, append_assoc, bit_and, bit_or, bit_or-low,
  holds_below, holds_below→,
}
use rtl8190p.Tx.{Header, le16, header_bytes}

-- The first two bytes.
pub control :
    (extra : Option ℕ) (qos is_last : Bool)
    → let fc =
        8 + (elim extra [ none ↦ 0 | some n ↦ 0x4000 ]) + (if qos then 0x80 else 0) + 0x0100 in
      let flags = 1 + (if is_last then 0 else 4) + (elim extra [ none ↦ 0 | some n ↦ 0x40 ]) in
      le16 (if is_last then fc else bit_or fc 0x0400) ≡ (if qos then 0x88 else 0x08) ∷ flags ∷ []
unfolding le16
control none false false = refl
control none false true = refl
control none true false = refl
control none true true = refl
control (some n) false false = refl
control (some n) false true = refl
control (some n) true false = refl
control (some n) true true = refl

-- The bytes of the number and the place.
pub sequence :
    (number i : ℕ)
    → number < 4096
    → i < 16
    → let low = number % 16 * 16 + i in
      le16 (bit_or (number * 16) i % 2 ^ 16) ≡ low ∷ number / 16 ∷ []
unfolding le16
sequence number i hn hi =
    let low : (number * 16 + i) % 2 ^ 16 % 256 ≡ number % 16 * 16 + i = omega arith in
    let high : (number * 16 + i) % 2 ^ 16 / 256 % 256 ≡ number / 16 = omega arith in
    rw (bit_or-low number i hi, low, high) refl

-- The bytes of the priority.
pub traffic :
    (group : Bool) (priority : ℕ)
    → priority < 8
    → bit_and (bit_or (if group then 0x20 else 0) priority) 0x0f ≡ priority
traffic true priority h = (==_iff _ priority).0 (
    holds_below→ (λ p. bit_and (bit_or 0x20 p) 0x0f == p) 8 priority h (unfold holds_below in refl))
traffic false priority h =
    (==_iff _ priority).0
      (holds_below→ (λ p. bit_and (bit_or 0 p) 0x0f == p) 8 priority h (unfold holds_below in refl))

-- A header with what follows it.
pub header_bytes-append :
    (qos : Bool) (h : Header) (b : List ℕ)
    → header_bytes qos h ++ b
      ≡ le16 h.frame_ctl
        ++ (0 ∷ 0 ∷ h.addr1
            ++ (h.addr2
                ++ (h.addr3 ++ (le16 h.seq_ctl ++ ((if qos then le16 h.qos_ctl else []) ++ b)))))
unfolding header_bytes le16
header_bytes-append qos h b =
    let q = if qos then le16 h.qos_ctl else [] in
    let sc = le16 h.seq_ctl in
    let front = le16 h.frame_ctl ++ (0 ∷ 0 ∷ []) in
    append_assoc ((((front ++ h.addr1) ++ h.addr2) ++ h.addr3) ++ sc) q b
    ∙ append_assoc (((front ++ h.addr1) ++ h.addr2) ++ h.addr3) sc (q ++ b)
    ∙ append_assoc ((front ++ h.addr1) ++ h.addr2) h.addr3 (sc ++ (q ++ b))
    ∙ append_assoc (front ++ h.addr1) h.addr2 (h.addr3 ++ (sc ++ (q ++ b)))
    ∙ append_assoc front h.addr1 (h.addr2 ++ (h.addr3 ++ (sc ++ (q ++ b))))
