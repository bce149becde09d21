-- ===== src/Ht/Filter/Sets.antt =====
-- The numbers that HTFilterMCSRate leaves.
use rtl8190p.Common.{
  ℕ, zero, suc, ◌+◌, ◌-◌, ◌/◌, ◌%◌, ◌≤◌, ◌<◌, ◌==◌, ltb, leb, if◌then◌else◌, ◌≡◌, refl,
}
use rtl8190p.Common.{
  arith, Bool, true, false, not, ◌&&◌, ◌||◌, ◌⊎◌, inl, inr, List, [], ◌∷◌, length,
}
use rtl8190p.Common.{sym, ◌∙◌, holds_below, holds_below→, bit_and, Bool-cases, get_or, set}
use rtl8190p.Common.{length-set, bit_at, bit_at-zero, bit_at-bit_and, bit_and-nought}
use rtl8190p.Ht.{Mode, ieee_a, ieee_b, ieee_g, ieee_n_24g, ieee_n_5g, other_mode, Device}
use rtl8190p.Ht.Rates.{half_nmode, zip_and}
use rtl8190p.Ht.Rates.Highest.{has_rate, has_rate-zip_and, length-zip_and}
use rtl8190p.Ht.Filter.{mask_byte, mask_rates, clear_from, pick_mcs_rate, filter_mcs_rate}

has_rate-get_or : (s : List ℕ) (n : ℕ) → has_rate s n ≡ bit_at (get_or s (n / 8) 0) (n % 8)
unfolding has_rate
has_rate-get_or [] n = sym (bit_at-zero (n % 8))
has_rate-get_or (b ∷ bs) n = elim (Bool-cases (ltb n 8)) [
  | inl below ↦
      let first : n / 8 ≡ 0 = ground arith in
      let place : n % 8 ≡ n = ground arith in rw (below, first, place) refl
  | inr above ↦
      let later : n / 8 ≡ suc ((n - 8) / 8) = ground arith in
      let place : n % 8 ≡ (n - 8) % 8 = ground arith in
      rw (above, later, place) (has_rate-get_or bs (n - 8))
]

get_or-clear_one :
    (s : List ℕ) (i j : ℕ) → get_or (set s i 0) j 0 ≡ (if i == j then 0 else get_or s j 0)
get_or-clear_one [] i j = ground arith
get_or-clear_one (x ∷ xs) zero zero = ground arith
get_or-clear_one (x ∷ xs) zero (suc j) = ground arith
get_or-clear_one (x ∷ xs) (suc i) zero = ground arith
get_or-clear_one (x ∷ xs) (suc i) (suc j) = ground (arith, get_or-clear_one xs i j)

get_or-clear_from :
    (k first : ℕ) (s : List ℕ) (j : ℕ)
    → get_or (clear_from first k s) j 0
      ≡ (if leb first j && ltb j (first + k) then 0 else get_or s j 0)
unfolding clear_from
get_or-clear_from zero first s j = ground arith
get_or-clear_from (suc k) first s j =
    ground (arith, get_or-clear_from k (suc first) (set s first 0) j, get_or-clear_one s first j)

get_or-mask_byte :
    (s : List ℕ) (i mask j : ℕ)
    → get_or (mask_byte i mask s) j 0
      ≡ (if i == j then bit_and (get_or s j 0) mask else get_or s j 0)
unfolding mask_byte
get_or-mask_byte [] i mask j = ground (arith, bit_and-nought mask)
get_or-mask_byte (x ∷ xs) zero mask zero = ground arith
get_or-mask_byte (x ∷ xs) zero mask (suc j) = ground arith
get_or-mask_byte (x ∷ xs) (suc i) mask zero = ground arith
get_or-mask_byte (x ∷ xs) (suc i) mask (suc j) = ground (arith, get_or-mask_byte xs i mask j)

-- The numbers that a mode allows: 0 to 7, and of the two stream ones those that the mask has.
unfoldable pub allows : Mode → (half : Bool) → ℕ → Bool
allows ieee_a half n = false
allows ieee_b half n = false
allows ieee_g half n = false
allows ieee_n_24g half n = ltb n 8 || (leb 12 n && ltb n 16 && not half)
allows ieee_n_5g half n = ltb n 8 || (leb 12 n && ltb n 16 && not half)
allows other_mode half n = ltb n 8 || (ltb n 16 && not half)

get_or-beyond : (s : List ℕ) (j : ℕ) → length s ≤ j → get_or s j 0 ≡ 0
get_or-beyond [] j h = refl
get_or-beyond (x ∷ xs) zero h = absurd (omega arith)
get_or-beyond (x ∷ xs) (suc j) h = get_or-beyond xs j (omega arith)

-- The masks of the first two bytes.
bit_at-0xff : (k : ℕ) → k < 8 → bit_at 0xff k ≡ true
unfolding bit_at holds_below
bit_at-0xff k lt = holds_below→ (bit_at 0xff) 8 k lt refl

bit_at-0xf0 : (k : ℕ) → k < 8 → bit_at 0xf0 k ≡ leb 4 k
unfolding bit_at holds_below
bit_at-0xf0 k lt =
    let table : holds_below (λ i. if leb 4 i then bit_at 0xf0 i else not (bit_at 0xf0 i)) 8 ≡ true =
      refl in
    ground (
      arith,
      holds_below→ (λ i. if leb 4 i then bit_at 0xf0 i else not (bit_at 0xf0 i)) 8 k lt table,
    )

pub length-clear_from : (k first : ℕ) (s : List ℕ) → length (clear_from first k s) ≡ length s
unfolding clear_from
length-clear_from zero first s = refl
length-clear_from (suc k) first s =
    length-clear_from k (suc first) (set s first 0) ∙ length-set s first 0

pub length-mask_byte : (s : List ℕ) (i mask : ℕ) → length (mask_byte i mask s) ≡ length s
unfolding mask_byte
length-mask_byte s i mask = length-set s i (bit_and (get_or s i 0) mask)

length-mask_rates : (s : List ℕ) → length (mask_rates s) ≡ length s
unfolding mask_rates
length-mask_rates s =
    length-mask_byte (mask_byte 1 0xf0 (mask_byte 0 0xff s)) 3 0x01
    ∙ length-mask_byte (mask_byte 0 0xff s) 1 0xf0
    ∙ length-mask_byte s 0 0xff

length-pick_mcs_rate : (mode : Mode) (s : List ℕ) → length (pick_mcs_rate mode s) ≡ length s
unfolding pick_mcs_rate
length-pick_mcs_rate ieee_a s = length-clear_from 16 0 s
length-pick_mcs_rate ieee_b s = length-clear_from 16 0 s
length-pick_mcs_rate ieee_g s = length-clear_from 16 0 s
length-pick_mcs_rate ieee_n_24g s = length-mask_rates s
length-pick_mcs_rate ieee_n_5g s = length-mask_rates s
length-pick_mcs_rate other_mode s = refl

-- What is left of byte `j` of a set.
left_byte : Mode → (half : Bool) → List ℕ → ℕ → ℕ
left_byte mode half s j =
    get_or (clear_from 2 14 (if half then set (pick_mcs_rate mode s) 1 0 else pick_mcs_rate mode s))
      j 0

left_byte_lem :
    (mode : Mode) (half : Bool) (s : List ℕ) (j : ℕ)
    → left_byte mode half s j ≡ (
        if leb 2 j && ltb j 16
        then 0
        else if half && j == 1
        then 0
        else get_or (pick_mcs_rate mode s) j 0)
unfolding left_byte
left_byte_lem mode true s j = ground (
  arith,
  get_or-clear_from 14 2 (set (pick_mcs_rate mode s) 1 0) j,
  get_or-clear_one (pick_mcs_rate mode s) 1 j,
)
left_byte_lem mode false s j = ground (arith, get_or-clear_from 14 2 (pick_mcs_rate mode s) j)

-- The two masks of the modes with high throughput.
masked :
    (s : List ℕ) (j : ℕ)
    → j < 2
    → get_or (mask_rates s) j 0 ≡ bit_and (get_or s j 0) (if j == 0 then 0xff else 0xf0)
unfolding mask_rates
masked s j lt = ground (
  arith,
  get_or-mask_byte (mask_byte 1 0xf0 (mask_byte 0 0xff s)) 3 0x01 j,
  get_or-mask_byte (mask_byte 0 0xff s) 1 0xf0 j,
  get_or-mask_byte s 0 0xff j,
)

cleared : (s : List ℕ) (j : ℕ) → j < 16 → get_or (clear_from 0 16 s) j 0 ≡ 0
cleared s j lt = ground (arith, get_or-clear_from 16 0 s j)

module _ (s : List ℕ) (n : ℕ) where
  -- Bit `n` of `s`, its byte and the bit in it.
  byte_bit : Bool
  byte_bit = bit_at (get_or s (n / 8) 0) (n % 8)

  masked_bit :
      n < 16
      → bit_at (get_or (mask_rates s) (n / 8) 0) (n % 8) ≡ (byte_bit && (ltb n 8 || leb 12 n))
  unfolding byte_bit
  masked_bit lt = elim (Bool-cases (ltb n 8)) [
    | inl below ↦
        let first : n / 8 ≡ 0 = ground arith in
        let value : get_or (mask_rates s) (n / 8) 0 ≡ bit_and (get_or s (n / 8) 0) 0xff =
          rw first (masked s 0 (omega arith)) in
        rw (value, below) ground
          (
            arith,
            bit_at-bit_and (n % 8) (get_or s (n / 8) 0) 0xff,
            bit_at-0xff (n % 8) (omega arith),
          )
    | inr above ↦
        let second : n / 8 ≡ 1 = ground arith in
        let value : get_or (mask_rates s) (n / 8) 0 ≡ bit_and (get_or s (n / 8) 0) 0xf0 =
          rw second (masked s 1 (omega arith)) in
        let upper : leb 4 (n % 8) ≡ leb 12 n = ground arith in
        rw (value, above) ground
          (
            arith,
            bit_at-bit_and (n % 8) (get_or s (n / 8) 0) 0xf0,
            bit_at-0xf0 (n % 8) (omega arith),
            upper,
          )
  ]

  picked_bit :
      (mode : Mode)
      → n < 16
      → bit_at (get_or (pick_mcs_rate mode s) (n / 8) 0) (n % 8) ≡ (byte_bit && allows mode false n)
  unfolding byte_bit pick_mcs_rate allows
  picked_bit ieee_a lt = ground (arith, cleared s (n / 8) (omega arith), bit_at-zero (n % 8))
  picked_bit ieee_b lt = ground (arith, cleared s (n / 8) (omega arith), bit_at-zero (n % 8))
  picked_bit ieee_g lt = ground (arith, cleared s (n / 8) (omega arith), bit_at-zero (n % 8))
  picked_bit ieee_n_24g lt = ground (arith, masked_bit lt)
  picked_bit ieee_n_5g lt = ground (arith, masked_bit lt)
  picked_bit other_mode lt = ground arith

  allows_half : (mode : Mode) → allows mode true n ≡ (allows mode false n && ltb n 8)
  unfolding allows
  allows_half ieee_a = refl
  allows_half ieee_b = refl
  allows_half ieee_g = refl
  allows_half ieee_n_24g = ground arith
  allows_half ieee_n_5g = ground arith
  allows_half other_mode = ground arith

  allows_beyond : (mode : Mode) (half : Bool) → leb 16 n ≡ true → allows mode half n ≡ false
  unfolding allows
  allows_beyond ieee_a half h = refl
  allows_beyond ieee_b half h = refl
  allows_beyond ieee_g half h = refl
  allows_beyond ieee_n_24g half h = ground arith
  allows_beyond ieee_n_5g half h = ground arith
  allows_beyond other_mode half h = ground arith

  left_bit :
      (mode : Mode) (half : Bool)
      → length s ≤ 16
      → bit_at (left_byte mode half s (n / 8)) (n % 8) ≡ (byte_bit && allows mode half n)
  left_bit mode half len = elim (Bool-cases (leb 16 n)) [
    | inl beyond ↦
        let picked : get_or (pick_mcs_rate mode s) (n / 8) 0 ≡ 0 ⊎ n / 8 < 16 =
          elim (Bool-cases (ltb (n / 8) 16)) [
            | inl near ↦ inr (ground arith)
            | inr far ↦ inl (
                get_or-beyond (pick_mcs_rate mode s) (n / 8)
                  (ground (arith, length-pick_mcs_rate mode s)))
          ] in
        let byte : left_byte mode half s (n / 8) ≡ 0 =
          ground (arith, left_byte_lem mode half s (n / 8), picked) in
        let none : (byte_bit && allows mode half n) ≡ false =
          ground (arith, allows_beyond mode half beyond) in
        rw byte (bit_at-zero (n % 8) ∙ sym none)
    | inr within ↦
        let bit = picked_bit mode (ground arith) in
        elim (Bool-cases (half && not (ltb n 8))) [
          | inl gone ↦
              let byte : left_byte mode half s (n / 8) ≡ 0 =
                ground (arith, left_byte_lem mode half s (n / 8)) in
              let none : (byte_bit && allows mode half n) ≡ false =
                ground (arith, allows_half mode) in
              rw byte (bit_at-zero (n % 8) ∙ sym none)
          | inr kept ↦
              let byte : left_byte mode half s (n / 8) ≡ get_or (pick_mcs_rate mode s) (n / 8) 0 =
                ground (arith, left_byte_lem mode half s (n / 8)) in
              let same : allows mode half n ≡ allows mode false n =
                ground (arith, allows_half mode) in
              rw (byte, same) bit
        ]
  ]

-- A number is in the set that HTFilterMCSRate writes exactly when the device's set and the peer's
-- have it and the mode allows it: none in the modes without high throughput, else 0 to 7, and
-- unless the access point takes half the rates only, 12 to 15 (in the mode N, both bands) or 8 to
-- 15 (in the other modes). The device's set has 16 bytes at most.
pub filter_mcs_rate-bits :
    (d : Device) (support : List ℕ) (n : ℕ)
    → length d.reg_dot11_tx_ht_operational_rate_set ≤ 16
    → has_rate (filter_mcs_rate d support) n ≡ (
        has_rate d.reg_dot11_tx_ht_operational_rate_set n
        && has_rate support n
        && allows d.mode (half_nmode d) n)
unfolding filter_mcs_rate left_byte byte_bit
filter_mcs_rate-bits d support n len =
    let own = d.reg_dot11_tx_ht_operational_rate_set in
    let z = zip_and own support in
    let bits = left_bit z n d.mode (half_nmode d) (omega (arith, length-zip_and own support)) in
    has_rate-get_or (filter_mcs_rate d support) n
    ∙ bits
    ∙ ground (arith, has_rate-zip_and own support n, has_rate-get_or z n)

pub length-filter_mcs_rate :
    (d : Device) (support : List ℕ)
    → length d.reg_dot11_tx_ht_operational_rate_set ≤ 16
    → length (filter_mcs_rate d support) ≤ 16
unfolding filter_mcs_rate
length-filter_mcs_rate d support len =
    let own = d.reg_dot11_tx_ht_operational_rate_set in
    let picked = pick_mcs_rate d.mode (zip_and own support) in
    let last = length-clear_from 14 2 (if half_nmode d then set picked 1 0 else picked) in
    let one = length-set picked 1 0 in
    ground (
      arith,
      last,
      one,
      length-pick_mcs_rate d.mode (zip_and own support),
      length-zip_and own support,
    )
