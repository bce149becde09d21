-- ===== src/Common/Bits.antt =====
-- Exclusive or on numbers: what is added twice cancels. And parts of lists that are joined.
use Prim.Native.Nat.{
  ℕ, zero, suc, ◌+◌, ◌*◌, ◌/◌, ◌%◌, ◌≤◌, ◌<◌, bit_xor, bit_and, bit_or, min, max, digits, differ,
  bit_xor-bitwise, bit_and-bitwise, bit_or-bitwise,
}
use mathlib.Core.Path.{◌≡◌, refl, ap, ◌∙◌, sym}
use mathlib.Core.List.{List, [], ◌∷◌, ◌++◌}
use mathlib.Core.Logic.{◌⊎◌, inl, inr}
use native.Mathlib.Omega.{arith}
use native.Mathlib.Decide.{dec_lt}
use mathlib.Core.Bool.{Bool, false, not, ◌&&◌}
use rtl8190p.Common.Tests.{◌==◌}
use rtl8190p.Common.Lists.{length, get_or, take, drop, length-drop}

-- An operation on digits, lowest first: `stop` when the first number has run out.
module _ (stop : ℕ → ℕ) (digit : ℕ → ℕ → ℕ) where
  run_out : (rounds y : ℕ) → digits stop digit rounds 0 y ≡ stop y
  run_out zero y = refl
  run_out (suc rounds) y = refl

  -- One round more than is needed changes nothing.
  one_more :
      (rounds x y : ℕ)
      → x ≤ rounds
      → digits stop digit (suc rounds) x y ≡ digits stop digit rounds x y
  one_more rounds zero y h = run_out (suc rounds) y ∙ sym (run_out rounds y)
  one_more zero (suc x) y h = absurd (omega arith)
  one_more (suc rounds) (suc x) y h =
      omega (arith, one_more rounds (suc x / 2) (y / 2) (omega arith))

  -- Nor do many.
  settled : (rounds x y : ℕ) → x ≤ rounds → digits stop digit rounds x y ≡ digits stop digit x x y
  settled zero x y h = let none : x ≡ 0 = omega arith in rw none refl
  settled (suc rounds) x y h = elim (dec_lt rounds x) [
    | yes last ↦ let exact : x ≡ suc rounds = omega arith in rw exact refl
    | no spare ↦ one_more rounds x y (omega arith) ∙ settled rounds x y (omega arith)
  ]

  lowest_first :
      (x y : ℕ)
      → 0 < x
      → digits stop digit x x y
        ≡ digits stop digit (x / 2) (x / 2) (y / 2) * 2 + digit (x % 2) (y % 2)
  lowest_first zero y h = absurd (omega arith)
  lowest_first (suc x) y h = omega (arith, settled x (suc x / 2) (y / 2) (omega arith))

-- Exclusive or of the lowest digits is their sum, less the carry.
differ-mod : (x y : ℕ) → differ (x % 2) (y % 2) ≡ (x + y) % 2
differ-mod x y = elim (parity x) [
  | inl p ↦ elim (parity y) [ inl q ↦ rw (p, q) (omega arith) | inr q ↦ rw (p, q) (omega arith) ]
  | inr p ↦ elim (parity y) [ inl q ↦ rw (p, q) (omega arith) | inr q ↦ rw (p, q) (omega arith) ]
]
  where
    parity : (n : ℕ) → (n % 2 ≡ 0) ⊎ (n % 2 ≡ 1)
    parity n = ground arith

pub bit_xor_halves : (x y : ℕ) → bit_xor x y ≡ bit_xor (x / 2) (y / 2) * 2 + (x + y) % 2
bit_xor_halves x y = elim (dec_lt 0 x) [
  | yes some ↦
      bit_xor-bitwise x y
      ∙ omega (
        arith,
        lowest_first (λ c. c) differ x y some,
        bit_xor-bitwise (x / 2) (y / 2),
        differ-mod x y,
      )
  | no none ↦
      let zeros : x ≡ 0 = omega arith in
      rw zeros (omega (arith, bit_xor-bitwise 0 y, bit_xor-bitwise 0 (y / 2)))
]

-- By halving, for a sum that a bound is kept on.
undone : (bound x y : ℕ) → x + y < bound → bit_xor (bit_xor x y) y ≡ x
undone zero x y h = elim h [ ]
undone (suc bound) x y h = elim (dec_lt 0 (x + y)) [
  | yes some ↦
      let upper : bit_xor x y / 2 ≡ bit_xor (x / 2) (y / 2) = omega (arith, bit_xor_halves x y) in
      let rest = undone bound (x / 2) (y / 2) (omega arith) in
      omega (
        arith,
        bit_xor_halves x y,
        bit_xor_halves (bit_xor x y) y,
        ap (λ t. bit_xor t (y / 2)) upper,
        rest,
      )
  | no none ↦ let x0 : x ≡ 0 = omega arith in let y0 : y ≡ 0 = omega arith in rw (x0, y0) refl
]

pub bit_xor_cancel : (x y : ℕ) → bit_xor (bit_xor x y) y ≡ x
bit_xor_cancel x y = undone (suc (x + y)) x y (omega arith)

pub bit_and-nought : (y : ℕ) → bit_and 0 y ≡ 0
bit_and-nought = bit_and-bitwise 0

pub bit_and_halves : (x y : ℕ) → bit_and x y ≡ bit_and (x / 2) (y / 2) * 2 + min (x % 2) (y % 2)
bit_and_halves x y = elim (dec_lt 0 x) [
  | yes some ↦
      bit_and-bitwise x y
      ∙ omega (arith, lowest_first (λ c. zero) min x y some, bit_and-bitwise (x / 2) (y / 2))
  | no none ↦
      let zeros : x ≡ 0 = omega arith in
      rw zeros (omega (arith, bit_and-nought y, bit_and-nought (y / 2)))
]

bit_or-nought : (y : ℕ) → bit_or 0 y ≡ y
bit_or-nought y = bit_or-bitwise 0 y

bit_or_halves : (x y : ℕ) → bit_or x y ≡ bit_or (x / 2) (y / 2) * 2 + max (x % 2) (y % 2)
bit_or_halves x y = elim (dec_lt 0 x) [
  | yes some ↦
      bit_or-bitwise x y
      ∙ omega (arith, lowest_first (λ c. c) max x y some, bit_or-bitwise (x / 2) (y / 2))
  | no none ↦
      let zeros : x ≡ 0 = omega arith in
      rw zeros (omega (arith, bit_or-nought y, bit_or-nought (y / 2)))
]

bit_or-nought_right : (bound x : ℕ) → x < bound → bit_or x 0 ≡ x
bit_or-nought_right zero x h = elim h [ ]
bit_or-nought_right (suc bound) x h = elim (dec_lt 0 x) [
  | yes some ↦ omega (arith, bit_or_halves x 0, bit_or-nought_right bound (x / 2) (omega arith))
  | no none ↦ let zeros : x ≡ 0 = omega arith in rw zeros (bit_or-nought 0)
]

-- An even number: the lowest bit comes from the other.
bit_or_even : (a b y : ℕ) → b ≡ a * 2 → bit_or b y ≡ bit_or a (y / 2) * 2 + y % 2
bit_or_even a b y twice =
    let half : b / 2 ≡ a = omega arith in
    omega (arith, bit_or_halves b y, ap (λ t. bit_or t (y / 2)) half)

-- A number below 16 and a multiple of 16 have no bit in common.
pub bit_or-low : (a i : ℕ) → i < 16 → bit_or (a * 16) i ≡ a * 16 + i
bit_or-low a i h =
    let over : i / 2 / 2 / 2 / 2 ≡ 0 = omega arith in
    omega (
      arith,
      bit_or_even (a * 8) (a * 16) i (omega arith),
      bit_or_even (a * 4) (a * 8) (i / 2) (omega arith),
      bit_or_even (a * 2) (a * 4) (i / 2 / 2) (omega arith),
      bit_or_even a (a * 2) (i / 2 / 2 / 2) refl,
      ap (bit_or a) over,
      bit_or-nought_right (suc a) a (omega arith),
    )

-- Bit `j` of a number is set.
unfoldable pub bit_at : ℕ → ℕ → Bool
bit_at m zero = not (m % 2 == 0)
bit_at m (suc j) = bit_at (m / 2) j

pub bit_at-bit_and : (j a b : ℕ) → bit_at (bit_and a b) j ≡ (bit_at a j && bit_at b j)
unfolding bit_at
bit_at-bit_and zero a b = ground (arith, bit_and_halves a b)
bit_at-bit_and (suc j) a b =
    let half : bit_and a b / 2 ≡ bit_and (a / 2) (b / 2) = omega (arith, bit_and_halves a b) in
    rw half (bit_at-bit_and j (a / 2) (b / 2))

pub bit_at-zero : (j : ℕ) → bit_at 0 j ≡ false
unfolding bit_at
bit_at-zero zero = refl
bit_at-zero (suc j) = bit_at-zero j

module _ {ℓ} {A : Type ℓ} where
  -- `n` items from the place `i` on.
  abbrev pub slice : List A → ℕ → ℕ → List A
  slice xs i n = take n (drop i xs)

  pub get_or-append_left :
      (xs ys : List A) (i : ℕ) (d : A) → i < length xs → get_or (xs ++ ys) i d ≡ get_or xs i d
  get_or-append_left [] ys i d h = absurd (omega arith)
  get_or-append_left (x ∷ xs) ys zero d h = refl
  get_or-append_left (x ∷ xs) ys (suc i) d h = get_or-append_left xs ys i d (omega arith)

  pub get_or-append_right :
      (xs ys : List A) (i : ℕ) (d : A) → get_or (xs ++ ys) (length xs + i) d ≡ get_or ys i d
  get_or-append_right [] ys i d = ap (λ k. get_or ys k d) (omega arith)
  get_or-append_right (x ∷ xs) ys i d =
      let shift : length (x ∷ xs) + i ≡ suc (length xs + i) = omega arith in
      rw shift (get_or-append_right xs ys i d)

  pub take-append_left : (xs ys : List A) (n : ℕ) → n ≤ length xs → take n (xs ++ ys) ≡ take n xs
  take-append_left xs ys zero h = refl
  take-append_left [] ys (suc n) h = absurd (omega arith)
  take-append_left (x ∷ xs) ys (suc n) h = ap (λ t. x ∷ t) (take-append_left xs ys n (omega arith))

  pub drop-append_left :
      (xs ys : List A) (n : ℕ) → n ≤ length xs → drop n (xs ++ ys) ≡ drop n xs ++ ys
  drop-append_left xs ys zero h = refl
  drop-append_left [] ys (suc n) h = absurd (omega arith)
  drop-append_left (x ∷ xs) ys (suc n) h = drop-append_left xs ys n (omega arith)

  pub drop_all : (xs : List A) (n : ℕ) → length xs ≤ n → drop n xs ≡ []
  drop_all [] zero h = refl
  drop_all [] (suc n) h = refl
  drop_all (x ∷ xs) zero h = absurd (omega arith)
  drop_all (x ∷ xs) (suc n) h = drop_all xs n (omega arith)

  pub take_all : (xs : List A) (n : ℕ) → length xs ≤ n → take n xs ≡ xs
  take_all [] zero h = refl
  take_all [] (suc n) h = refl
  take_all (x ∷ xs) zero h = absurd (omega arith)
  take_all (x ∷ xs) (suc n) h = ap (λ t. x ∷ t) (take_all xs n (omega arith))

  pub slice-append :
      (xs ys : List A) (i n : ℕ) → i + n ≤ length xs → slice (xs ++ ys) i n ≡ slice xs i n
  slice-append xs ys i n h =
      ap (take n) (drop-append_left xs ys i (omega arith))
      ∙ take-append_left (drop i xs) ys n (omega (arith, length-drop i xs))
