-- ===== src/Cipher/Ccmp/Number.antt =====
-- Packet numbers of CCMP as numbers.
use rtl8190p.Common.{
  ℕ, suc, ◌+◌, ◌*◌, ◌%◌, ◌^◌, ◌≤◌, ◌<◌, ◌==◌, ◌≡◌, ◌↔◌, refl, arith, ap, ◌∙◌, ltb, if◌then◌else◌,
}
use rtl8190p.Common.{true, List, [], ◌∷◌, length, All, Bool-cases, inl, inr}
use native.Mathlib.Nat.{pow-suc}
use rtl8190p.Cipher.Ccmp.{bump, memcmp_le}

-- The number that bytes stand for, highest first.
unfoldable pub be_value : List ℕ → ℕ
be_value [] = 0
be_value (x ∷ xs) = x * 256 ^ length xs + be_value xs

pub record IsPn (pn : List ℕ) : Type 0 where
  pub length_six : length pn ≡ 6
  pub bytes : All (λ x. x < 256) pn

weight_suc : (x w : ℕ) → (x + 1) * w ≡ x * w + w
weight_suc x w = grind arith

weight_le : (x y w : ℕ) → x ≤ y → x * w ≤ y * w
weight_le x y w h = grind arith

weight_step : (n : ℕ) → 256 ^ suc n ≡ 256 * 256 ^ n
weight_step n = omega (arith, pow-suc 256 n)

be_value-lt : (xs : List ℕ) → All (λ x. x < 256) xs → be_value xs < 256 ^ length xs
unfolding be_value
be_value-lt [] h = omega arith
be_value-lt (x ∷ xs) h =
    let w = 256 ^ length xs in
    let top : x * w ≤ 255 * w = weight_le x 255 w (omega (arith, h.0)) in
    omega (arith, be_value-lt xs h.1, top, weight_step (length xs))

length-bump : (xs : List ℕ) → length (bump xs).1 ≡ length xs
unfolding bump
length-bump [] = refl
length-bump (x ∷ xs) = elim (Bool-cases (bump xs).0) [
  | inl carry ↦ rw carry (ap suc (length-bump xs))
  | inr rest ↦ rw rest (ap suc (length-bump xs))
]

bump_bytes : (xs : List ℕ) → All (λ x. x < 256) xs → All (λ x. x < 256) (bump xs).1
unfolding bump
bump_bytes [] h = tt
bump_bytes (x ∷ xs) h = elim (Bool-cases (bump xs).0) [
  | inl carry ↦ rw carry (omega arith, bump_bytes xs h.1)
  | inr rest ↦ rw rest (h.0, bump_bytes xs h.1)
]

abbrev carried : List ℕ → ℕ
carried xs = if (bump xs).0 then 256 ^ length xs else 0

bump_carry :
    (xs : List ℕ) → All (λ x. x < 256) xs → be_value (bump xs).1 + carried xs ≡ be_value xs + 1
unfolding bump be_value
bump_carry [] h = refl
bump_carry (x ∷ xs) h =
    let w = 256 ^ length xs in
    let ih = bump_carry xs h.1 in
    let n : length (bump xs).1 ≡ length xs = length-bump xs in
    elim (Bool-cases (bump xs).0) [
      | inl carry ↦
          let low : be_value (bump xs).1 + w ≡ be_value xs + 1 = rw carry at ih in
          elim (Bool-cases ((x + 1) % 256 == 0)) [
            | inl wraps ↦
                let full : x ≡ 255 = ground (arith, h.0) in
                let none_left : (x + 1) % 256 ≡ 0 = ground arith in
                rw (carry, wraps, n, none_left, full) (omega (arith, low, weight_step (length xs)))
            | inr fits ↦
                let more : (x + 1) % 256 ≡ x + 1 = ground (arith, h.0) in
                rw (carry, fits, n, more) (omega (arith, low, weight_suc x w))
          ]
      | inr rest ↦
          let low : be_value (bump xs).1 + 0 ≡ be_value xs + 1 = rw rest at ih in
          rw (rest, n) (omega (arith, low))
    ]

-- Counting up is addition of one modulo 2 ^ 48.
pub bump_value : (pn : List ℕ) → IsPn pn → be_value (bump pn).1 ≡ (be_value pn + 1) % 2 ^ 48
bump_value pn v =
    let w : 256 ^ length pn ≡ 2 ^ 48 = rw v.length_six refl in
    let top = be_value-lt pn v.bytes in
    let new = be_value-lt (bump pn).1 (bump_bytes pn v.bytes) in
    let w' : 256 ^ length (bump pn).1 ≡ 2 ^ 48 = rw (length-bump pn) w in
    let sum = bump_carry pn v.bytes in
    elim (Bool-cases (bump pn).0) [
      | inl carry ↦
          let low : be_value (bump pn).1 + 256 ^ length pn ≡ be_value pn + 1 = rw carry at sum in
          omega arith
      | inr rest ↦
          let low : be_value (bump pn).1 + 0 ≡ be_value pn + 1 = rw rest at sum in omega arith
    ]

pub bump-IsPn : (pn : List ℕ) → IsPn pn → IsPn (bump pn).1
bump-IsPn pn v = record {
  length_six = length-bump pn ∙ v.length_six;
  bytes = bump_bytes pn v.bytes;
}

-- memcmp of two numbers of one length compares what they stand for.
pub memcmp_le_iff :
    (xs ys : List ℕ)
    → length xs ≡ length ys
    → All (λ x. x < 256) xs
    → All (λ x. x < 256) ys
    → (memcmp_le xs ys ≡ true) ↔ (be_value xs ≤ be_value ys)
unfolding memcmp_le be_value
memcmp_le_iff [] [] l h k = ground arith
memcmp_le_iff [] (y ∷ ys) l h k = absurd (omega arith)
memcmp_le_iff (x ∷ xs) [] l h k = absurd (omega arith)
memcmp_le_iff (x ∷ xs) (y ∷ ys) l h k =
    let w = 256 ^ length xs in
    let same : length ys ≡ length xs = omega arith in
    let vx = be_value-lt xs h.1 in
    let vy : be_value ys < w = rw same at (be_value-lt ys k.1) in
    let ih = memcmp_le_iff xs ys (omega arith) h.1 k.1 in
    elim (Bool-cases (ltb x y)) [
      | inl less ↦
          let gap : (x + 1) * w ≤ y * w = weight_le (x + 1) y w (ground arith) in
          let sum = weight_suc x w in rw (less, same) ((λ e. omega arith), (λ e. refl))
      | inr not_less ↦ elim (Bool-cases (x == y)) [
        | inl equal ↦
            let e : x ≡ y = ground arith in
            rw (not_less, equal, same, e) ((λ t. omega (arith, ih.0 t)), (λ t. ih.1 (omega arith)))
        | inr other ↦
            let gap : (y + 1) * w ≤ x * w = weight_le (y + 1) x w (ground arith) in
            let sum = weight_suc y w in
            rw (not_less, other, same) ((λ t. cc), (λ t. absurd (omega arith)))
      ]
    ]
