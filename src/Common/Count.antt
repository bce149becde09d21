-- ===== src/Common/Count.antt =====
-- How often a number stands in a list: the multiset view of queues of handles.
use Prim.Native.Nat.{ℕ, zero, suc, ◌+◌, ◌<◌}
use mathlib.Core.Bool.{Bool, true, false}
use mathlib.Core.Path.{◌≡◌, refl, ap, ◌∙◌}
use mathlib.Core.List.{List, [], ◌∷◌, ◌++◌, reverse}
use native.Mathlib.Omega.{arith}
use native.Mathlib.Decide.{ℕ_discrete}
use mathlib.Core.Logic.{inl, inr}
use rtl8190p.Common.Tests.{Bool-cases, ◌==◌, if◌then◌else◌}
use rtl8190p.Common.Lists.{reverse-cons}

pub count : ℕ → List ℕ → ℕ
count a [] = 0
count a (x ∷ xs) = (if x == a then 1 else 0) + count a xs

pub count-cons : (a x : ℕ) (xs : List ℕ) → count a (x ∷ xs) ≡ (if x == a then 1 else 0) + count a xs
unfolding count
count-cons a x xs = refl

pub count-nil : (a : ℕ) → count a [] ≡ 0
unfolding count
count-nil a = refl

pub count-append : (a : ℕ) (xs ys : List ℕ) → count a (xs ++ ys) ≡ count a xs + count a ys
unfolding count
count-append a [] ys = omega arith
count-append a (x ∷ xs) ys = omega (arith, count-append a xs ys)

pub count-reverse : (a : ℕ) (xs : List ℕ) → count a (reverse xs) ≡ count a xs
unfolding count
count-reverse a [] = refl
count-reverse a (x ∷ xs) =
    ap (count a) (reverse-cons x xs)
    ∙ omega (arith, count-append a (reverse xs) (x ∷ []), count-reverse a xs)

-- Whether a test passes at every number under a bound, by evaluation.
unfoldable pub holds_below : (ℕ → Bool) → ℕ → Bool
holds_below test zero = true
holds_below test (suc k) = elim (test k) [ true ↦ holds_below test k | false ↦ false ]

pub holds_below→ :
    (test : ℕ → Bool) (bound i : ℕ) → i < bound → holds_below test bound ≡ true → test i ≡ true
unfolding holds_below
holds_below→ test zero i below passed = elim below [ ]
holds_below→ test (suc k) i below passed = elim (Bool-cases (test k)) [
  | inl here ↦ elim (ℕ_discrete i k) [
    | yes last ↦ rw last here
    | no other ↦ holds_below→ test k i (omega arith) (ground arith)
  ]
  | inr fails ↦ absurd (ground arith)
]
