-- ===== src/Cipher/Tkip/Michael/Covered.antt =====
-- What the Michael check covers of a frame's header, independently of michael_mic_hdr.
use rtl8190p.Common.{ℕ, ◌+◌, ◌-◌, ◌==◌, ◌≡◌, refl, ◌∙◌, arith, true, false, not}
use rtl8190p.Common.{List, ◌++◌, slice}
use rtl8190p.Common.{
  zero, suc, ◌<◌, ap₂, sym, Bool, ◌&&◌, bit_and, holds_below, holds_below→, if◌then◌else◌, ◌/◌, ◌%◌,
  ◌*◌, [], ◌∷◌, get_or,
}
use rtl8190p.Rx.{qos_has_seq}
use rtl8190p.Cipher.Tkip.Michael.{ds_of, da_sa, mic_priority, mic_hdr}

-- What the check covers of a frame's header: the receiver, which stands in the third address of a
-- frame to the distribution system and else in the first; the sender, which stands in the second
-- address of a frame that is not from it, else in the fourth of one to it and in the third of one
-- that is not; the priority of data with QoS; three zeros.
unfoldable pub covered : List ℕ → (hdr_len : ℕ) → List ℕ
covered bytes hdr_len =
    let to_ds = get_or bytes 1 0 % 2 == 1 in
    let from_ds = get_or bytes 1 0 / 2 % 2 == 1 in
    let da = slice bytes (if to_ds then 16 else 4) 6 in
    let sa = slice bytes (if not from_ds then 10 else if to_ds then 24 else 16) 6 in
    let has_priority = bit_and (get_or bytes 0 0 % 256) 0xbc == 0x88 in
    da ++ sa ++ ((if has_priority then get_or bytes (hdr_len - 2) 0 % 8 else 0) ∷ 0 ∷ 0 ∷ 0 ∷ [])

-- Tests that agree.
abbrev agree : Bool → Bool → Bool
agree a b = if a then b else not b

agree→ : (a b : Bool) → agree a b ≡ true → a ≡ b
agree→ false false h = refl
agree→ false true h = h
agree→ true b h = sym h

-- The bits that RTLLIB_QOS_HAS_SEQ tests.
qos_has_seq-bits : (b0 b1 : ℕ) → qos_has_seq (b0 + 256 * b1) ≡ (bit_and (b0 % 256) 0xbc == 0x88)
unfolding qos_has_seq
qos_has_seq-bits b0 b1 =
    let kind : (b0 + 256 * b1) / 4 % 4 ≡ b0 % 256 / 4 % 4 = omega arith in
    let low : (b0 + 256 * b1) / 16 % 4 ≡ b0 % 256 / 16 % 4 = omega arith in
    let high : (b0 + 256 * b1) / 128 % 2 ≡ b0 % 256 / 128 % 2 = omega arith in
    rw (kind, low, high)
      (agree→ _ _ (
        holds_below→
          (λ b.
            agree (b / 4 % 4 == 2 && b / 16 % 4 == 0 && b / 128 % 2 == 1) (bit_and b 0xbc == 0x88))
          256 (b0 % 256) (omega arith) (unfold holds_below in refl)))

-- The addresses by the two flags.
addresses :
    (bytes : List ℕ) (ds : ℕ)
    → ds < 4
    → (if ds == 1
        then slice bytes 16 6 ++ slice bytes 10 6
        else if ds == 2
        then slice bytes 4 6 ++ slice bytes 16 6
        else if ds == 3
        then slice bytes 16 6 ++ slice bytes 24 6
        else slice bytes 4 6 ++ slice bytes 10 6)
      ≡ slice bytes (if ds % 2 == 1 then 16 else 4) 6
        ++ slice bytes (if not (ds / 2 % 2 == 1) then 10 else if ds % 2 == 1 then 24 else 16) 6
addresses bytes zero h = refl
addresses bytes (suc zero) h = refl
addresses bytes (suc (suc zero)) h = refl
addresses bytes (suc (suc (suc zero))) h = refl
addresses bytes (suc (suc (suc (suc n)))) h = absurd (omega (arith, h))

da_sa-covered :
    (bytes : List ℕ)
    → let to_ds = get_or bytes 1 0 % 2 == 1 in
      let from_ds = get_or bytes 1 0 / 2 % 2 == 1 in
      da_sa bytes
      ≡ slice bytes (if to_ds then 16 else 4) 6
        ++ slice bytes (if not from_ds then 10 else if to_ds then 24 else 16) 6
unfolding da_sa ds_of
da_sa-covered bytes =
    let b = get_or bytes 1 0 in
    let to_ds : b % 4 % 2 ≡ b % 2 = omega arith in
    let from_ds : b % 4 / 2 % 2 ≡ b / 2 % 2 = omega arith in
    addresses bytes (b % 4) (omega arith)
    ∙ ap₂
        (λ x y.
          slice bytes (if x == 1 then 16 else 4) 6
          ++ slice bytes (if not (y == 1) then 10 else if x == 1 then 24 else 16) 6)
        to_ds from_ds

pub mic_hdr-covered : (bytes : List ℕ) (hdr_len : ℕ) → mic_hdr bytes hdr_len ≡ covered bytes hdr_len
unfolding mic_hdr mic_priority covered
mic_hdr-covered bytes hdr_len =
    rw (da_sa-covered bytes, qos_has_seq-bits (get_or bytes 0 0) (get_or bytes 1 0)) refl
