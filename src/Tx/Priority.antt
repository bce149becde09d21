-- ===== src/Tx/Priority.antt =====
-- The priority of a frame where access categories need an admission.
use rtl8190p.Common.{
  ℕ, zero, suc, ◌^◌, ◌<◌, ◌==◌, ◌≡◌, refl, arith, none, some, bit_and, Bool-cases, ◌⊎◌, inl, inr,
}
use rtl8190p.Tx.{wme_downgrade_ac, downgrade_loop}

-- The loop ends at a priority that needs no admission or has none below it.
unfoldable pub Ends : (rounds wmm_acm priority : ℕ) → Type 0
Ends rounds wmm_acm priority =
    (q : ℕ) × (downgrade_loop rounds wmm_acm priority ≡ some q)
    × ((bit_and wmm_acm (2 ^ q) ≡ 0) ⊎ (q ≡ 1) ⊎ (q ≡ 2))
    × ((q ≡ priority) ⊎ 0 < bit_and wmm_acm (2 ^ priority))

module _ (wmm_acm : ℕ) where
  -- The lowest priorities.
  lowest :
      (rounds p : ℕ) → wme_downgrade_ac p ≡ none → (p ≡ 1) ⊎ (p ≡ 2) → Ends (suc rounds) wmm_acm p
  unfolding downgrade_loop Ends
  lowest rounds p stop last = elim (Bool-cases (bit_and wmm_acm (2 ^ p) == 0)) [
    | inl free ↦ (p, rw free refl, inl (ground (arith, free)), inl refl)
    | inr taken ↦ (p, rw (taken, stop) refl, inr last, inl refl)
  ]

  -- The others, where the loop ends from the next lower one on.
  lower :
      (rounds p p' : ℕ)
      → wme_downgrade_ac p ≡ some p'
      → Ends rounds wmm_acm p'
      → Ends (suc rounds) wmm_acm p
  unfolding downgrade_loop Ends
  lower rounds p p' step (q, run, result, from) = elim (Bool-cases (bit_and wmm_acm (2 ^ p) == 0)) [
    | inl free ↦ (p, rw free refl, inl (ground (arith, free)), inl refl)
    | inr taken ↦ (q, rw (taken, step) run, result, inr (ground (arith, taken)))
  ]

  one : (rounds : ℕ) → Ends (suc rounds) wmm_acm 1
  unfolding wme_downgrade_ac
  one rounds = lowest rounds 1 refl (inl refl)

  three : (rounds : ℕ) → Ends (suc (suc rounds)) wmm_acm 3
  unfolding wme_downgrade_ac
  three rounds = lower (suc rounds) 3 1 refl (one rounds)

  five : (rounds : ℕ) → Ends (suc (suc (suc rounds))) wmm_acm 5
  unfolding wme_downgrade_ac
  five rounds = lower (suc (suc rounds)) 5 3 refl (three rounds)

-- From every priority the loop of rtllib_xmit_inter ends within four rounds, at a priority that
-- needs no admission or at 1 or 2, the lowest; where the first needs none it stays.
pub downgrade_loop-Ends : (wmm_acm priority : ℕ) → priority < 8 → Ends 4 wmm_acm priority
unfolding wme_downgrade_ac
downgrade_loop-Ends acm zero h = lower acm 3 0 1 refl (one acm 2)
downgrade_loop-Ends acm (suc zero) h = one acm 3
downgrade_loop-Ends acm (suc (suc zero)) h = lowest acm 3 2 refl (inr refl)
downgrade_loop-Ends acm (suc (suc (suc zero))) h = three acm 2
downgrade_loop-Ends acm (suc (suc (suc (suc zero)))) h = lower acm 3 4 3 refl (three acm 1)
downgrade_loop-Ends acm (suc (suc (suc (suc (suc zero))))) h = five acm 1
downgrade_loop-Ends acm (suc (suc (suc (suc (suc (suc zero)))))) h =
    lower acm 3 6 5 refl (five acm 0)
downgrade_loop-Ends acm (suc (suc (suc (suc (suc (suc (suc zero))))))) h =
    lower acm 3 7 5 refl (five acm 0)
downgrade_loop-Ends acm (suc (suc (suc (suc (suc (suc (suc (suc n)))))))) h = absurd (omega arith)
