-- ===== src/Ht/Rates/Highest.antt =====
-- What HTGetHighestMCSRate picks.
use rtl8190p.Common.{
  ℕ, zero, suc, ◌+◌, ◌-◌, ◌*◌, ◌/◌, ◌%◌, ◌≤◌, ◌<◌, ◌==◌, ltb, if◌then◌else◌, ◌≡◌, refl,
}
use rtl8190p.Common.{
  arith, Bool, true, false, not, ◌&&◌, ◌⊎◌, inl, inr, List, [], ◌∷◌, length, bit_at,
}
use rtl8190p.Common.{ap, sym, ◌∙◌, holds_below, holds_below→, ==_iff, bit_or, Bool-cases}
use rtl8190p.Common.{bit_at, bit_at-zero, bit_at-bit_and}
use rtl8190p.Ht.Rates.{best_of_byte, best_of_bytes, zip_and, all_zero, get_highest_mcs_rate}

-- Number `n` is set in a rate set.
unfoldable pub has_rate : List ℕ → ℕ → Bool
has_rate [] n = false
has_rate (b ∷ bs) n = if ltb n 8 then bit_at b n else has_rate bs (n - 8)

module _ (rate : ℕ → ℕ) where
  -- The rate after one bit.
  abbrev step : (m index best : ℕ) → ℕ
  step m index best = if not (m % 2 == 0) && ltb (rate best) (rate index) then index else best

  step-grows : (m index best : ℕ) → rate best ≤ rate (step m index best)
  step-grows m index best = ground arith

  step-max : (m index best : ℕ) → not (m % 2 == 0) ≡ true → rate index ≤ rate (step m index best)
  step-max m index best is_set = ground arith

  step-from :
      (m index best : ℕ)
      → (step m index best ≡ best) ⊎ ((step m index best ≡ index) × (not (m % 2 == 0) ≡ true))
  step-from m index best = elim (Bool-cases (not (m % 2 == 0) && ltb (rate best) (rate index))) [
    | inl better ↦ inr (ground arith, ground arith)
    | inr other ↦ inl (ground arith)
  ]

  byte_grows : (left m index best : ℕ) → rate best ≤ rate (best_of_byte rate left m index best)
  unfolding best_of_byte
  byte_grows zero m index best = omega arith
  byte_grows (suc left) m index best =
      omega
        (arith, step-grows m index best, byte_grows left (m / 2) (suc index) (step m index best))

  byte_max :
      (left m index best j : ℕ)
      → j < left
      → bit_at m j ≡ true
      → rate (index + j) ≤ rate (best_of_byte rate left m index best)
  unfolding best_of_byte bit_at
  byte_max zero m index best j lt is_set = absurd (omega arith)
  byte_max (suc left) m index best zero lt is_set =
      let here : index + 0 ≡ index = omega arith in
      rw here (
        omega (
          arith,
          step-max m index best is_set,
          byte_grows left (m / 2) (suc index) (step m index best),
        ))
  byte_max (suc left) m index best (suc j) lt is_set =
      let there : index + suc j ≡ suc index + j = omega arith in
      rw there (byte_max left (m / 2) (suc index) (step m index best) j (omega arith) is_set)

  -- What was picked is the rate before or a bit that is set.
  byte_from :
      (left m index best : ℕ)
      → let r = best_of_byte rate left m index best in
        (r ≡ best) ⊎ ((j : ℕ) × (r ≡ index + j) × (j < left) × (bit_at m j ≡ true))
  unfolding best_of_byte bit_at
  byte_from zero m index best = inl refl
  byte_from (suc left) m index best =
      elim (byte_from left (m / 2) (suc index) (step m index best)) [
        | inl same ↦ elim (step-from m index best) [
          | inl kept ↦ inl (same ∙ kept)
          | inr taken ↦ inr (0, same ∙ taken.0 ∙ omega arith, omega arith, taken.1)
        ]
        | inr later ↦
            let (j, e, lt, is_set) = later in inr (suc j, e ∙ omega arith, omega arith, is_set)
      ]

  abbrev bytes_step : (b index best : ℕ) → ℕ
  bytes_step b index best = if not (b == 0) then best_of_byte rate 8 b index best else best

  bytes_step-grows : (b index best : ℕ) → rate best ≤ rate (bytes_step b index best)
  bytes_step-grows b index best = ground (arith, byte_grows 8 b index best)

  bytes_step-max :
      (b index best n : ℕ)
      → n < 8
      → bit_at b n ≡ true
      → rate (index + n) ≤ rate (bytes_step b index best)
  bytes_step-max b index best n lt is_set = elim (Bool-cases (b == 0)) [
    | inl none ↦ absurd (ground (arith, bit_at-zero n, ap (λ c. bit_at c n) ((==_iff b 0).0 none)))
    | inr some ↦ rw some (byte_max 8 b index best n lt is_set)
  ]

  bytes_step-from :
      (b index best : ℕ)
      → let r = bytes_step b index best in
        (r ≡ best) ⊎ ((j : ℕ) × (r ≡ index + j) × (j < 8) × (bit_at b j ≡ true))
  bytes_step-from b index best = elim (Bool-cases (b == 0)) [
    | inl none ↦ inl (rw none refl)
    | inr some ↦ rw some (byte_from 8 b index best)
  ]

  bytes_grows : (bs : List ℕ) (index best : ℕ) → rate best ≤ rate (best_of_bytes rate bs index best)
  unfolding best_of_bytes
  bytes_grows [] index best = omega arith
  bytes_grows (b ∷ bs) index best =
      omega
        (arith, bytes_step-grows b index best, bytes_grows bs (8 + index) (bytes_step b index best))

  bytes_max :
      (bs : List ℕ) (index best n : ℕ)
      → has_rate bs n ≡ true
      → rate (index + n) ≤ rate (best_of_bytes rate bs index best)
  unfolding best_of_bytes has_rate
  bytes_max [] index best n is_set = cc
  bytes_max (b ∷ bs) index best n is_set = elim (Bool-cases (ltb n 8)) [
    | inl below ↦ omega (
      arith,
      bytes_step-max b index best n (ground arith) (ground arith),
      bytes_grows bs (8 + index) (bytes_step b index best),
    )
    | inr above ↦
        let there : index + n ≡ 8 + index + (n - 8) = ground arith in
        rw there (bytes_max bs (8 + index) (bytes_step b index best) (n - 8) (ground arith))
  ]

  bytes_from :
      (bs : List ℕ) (index best : ℕ)
      → let r = best_of_bytes rate bs index best in
        (r ≡ best) ⊎ ((n : ℕ) × (r ≡ index + n) × (n < 8 * length bs) × (has_rate bs n ≡ true))
  unfolding best_of_bytes has_rate
  bytes_from [] index best = inl refl
  bytes_from (b ∷ bs) index best = elim (bytes_from bs (8 + index) (bytes_step b index best)) [
    | inl same ↦ elim (bytes_step-from b index best) [
      | inl kept ↦ inl (same ∙ kept)
      | inr taken ↦ let (j, e, lt, is_set) = taken in inr (j, same ∙ e, omega arith, ground arith)
    ]
    | inr later ↦
        let (n, e, lt, is_set) = later in
        let back : 8 + n - 8 ≡ n = omega arith in
        let far : ltb (8 + n) 8 ≡ false = ground arith in
        inr (8 + n, e ∙ omega arith, omega arith, rw (far, back) is_set)
  ]

pub has_rate-zip_and :
    (xs ys : List ℕ) (n : ℕ) → has_rate (zip_and xs ys) n ≡ (has_rate xs n && has_rate ys n)
unfolding has_rate zip_and
has_rate-zip_and [] ys n = refl
has_rate-zip_and (x ∷ xs) [] n = ground arith
has_rate-zip_and (x ∷ xs) (y ∷ ys) n =
    ground (arith, bit_at-bit_and n x y, has_rate-zip_and xs ys (n - 8))

pub length-zip_and : (xs ys : List ℕ) → length (zip_and xs ys) ≤ length xs
unfolding zip_and
length-zip_and [] ys = omega arith
length-zip_and (x ∷ xs) [] = omega arith
length-zip_and (x ∷ xs) (y ∷ ys) = omega (arith, length-zip_and xs ys)

has_rate-all_zero : (xs : List ℕ) (n : ℕ) → all_zero xs ≡ true → has_rate xs n ≡ false
unfolding has_rate all_zero
has_rate-all_zero [] n none = refl
has_rate-all_zero (x ∷ xs) n none =
    let x0 : x ≡ 0 = ground arith in
    rw x0 (ground (arith, bit_at-zero n, has_rate-all_zero xs (n - 8)))

-- The mark of an MCS number.
bit_or-mark_table : holds_below (λ i. bit_or i 0x80 == i + 0x80) 128 ≡ true
unfolding holds_below
bit_or-mark_table = refl

bit_or-mark : (m : ℕ) → m < 128 → bit_or m 0x80 ≡ m + 0x80
bit_or-mark m lt =
    (==_iff (bit_or m 0x80) (m + 0x80)).0
      (holds_below→ (λ i. bit_or i 0x80 == i + 0x80) 128 m lt bit_or-mark_table)

pub get_highest_mcs_rate-cases :
    (rate : ℕ → ℕ) (s f : List ℕ)
    → length s ≤ 16
    → let r = get_highest_mcs_rate rate s f in
      ((r ≡ 0) × ((n : ℕ) → (has_rate s n && has_rate f n) ≡ false))
      ⊎ ((m : ℕ) × (r ≡ m + 0x80)
          × (m < 128)
          × ((m ≡ 0) ⊎ ((has_rate s m && has_rate f m) ≡ true))
          × ((n : ℕ) → (has_rate s n && has_rate f n) ≡ true → rate n ≤ rate m))
unfolding get_highest_mcs_rate
get_highest_mcs_rate-cases rate s f len =
    let a = zip_and s f in
    let m = best_of_bytes rate a 0 0 in
    elim (Bool-cases (all_zero a)) [
      | inl none ↦
          inl (rw none refl, λ n. sym (has_rate-zip_and s f n) ∙ has_rate-all_zero a n none)
      | inr some ↦
          let most : (n : ℕ) → (has_rate s n && has_rate f n) ≡ true → rate n ≤ rate m = λ n both.
            let same : 0 + n ≡ n = omega arith in
            let h = bytes_max rate a 0 0 n (has_rate-zip_and s f n ∙ both) in rw same at h in
          elim (bytes_from rate a 0 0) [
            | inl zero_rate ↦
                let small : m < 128 = omega arith in
                inr (m, rw some (bit_or-mark m small), small, inl zero_rate, most)
            | inr found ↦
                let (n, e, lt, is_set) = found in
                let small : m < 128 = omega (arith, length-zip_and s f) in
                let both : (has_rate s m && has_rate f m) ≡ true =
                  sym (has_rate-zip_and s f m) ∙ ap (has_rate a) (e ∙ omega arith) ∙ is_set in
                inr (m, rw some (bit_or-mark m small), small, inr both, most)
          ]
    ]

-- If a number is in both sets, of 16 bytes at most, HTGetHighestMCSRate gives, marked by 0x80, a
-- number whose data rate is as high as that of this one: a number in both sets, or number 0.
pub get_highest_mcs_rate_lem :
    (rate : ℕ → ℕ) (s f : List ℕ) (n : ℕ)
    → length s ≤ 16
    → (has_rate s n && has_rate f n) ≡ true
    → (m : ℕ) × (get_highest_mcs_rate rate s f ≡ m + 0x80)
      × (m < 128)
      × ((m ≡ 0) ⊎ ((has_rate s m && has_rate f m) ≡ true))
      × (rate n ≤ rate m)
get_highest_mcs_rate_lem rate s f n len both = elim (get_highest_mcs_rate-cases rate s f len) [
  | inl none ↦ absurd (ground (arith, none.1 n))
  | inr found ↦ let (m, e, small, from, most) = found in (m, e, small, from, most n both)
]
