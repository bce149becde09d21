-- ===== src/Dot11d/Plan.antt =====
-- Dot11d_Channelmap: the channels of each built-in plan.
use rtl8190p.Common.{ℕ, ◌<◌, ◌≡◌, ltb, leb, refl, arith}
use rtl8190p.Common.{Bool, true, false, ◌&&◌, Option, none, some, List, [], ◌∷◌, get_or}
use rtl8190p.Common.{holds_below, holds_below→, Bool-cases, inl, inr}
use rtl8190p.Common.{◌∙◌}
use rtl8190p.Dot11d.{Info, dot11d_channelmap, is_legal_channel}

-- The last 2.4 GHz channel of each plan, in the order of the table.
abbrev pub plan_limits : List ℕ
plan_limits = 11 ∷ 11 ∷ 13 ∷ 13 ∷ 13 ∷ 14 ∷ 14 ∷ 13 ∷ 14 ∷ 14 ∷ 14 ∷ 13 ∷ 13 ∷ []

-- What is legal after the plan was set; false past the end of the table.
abbrev pub legal_after : Option Info → ℕ → Bool
legal_after none c = false
legal_after (some d) c = is_legal_channel d c

same : Bool → Bool → Bool
same true b = b
same false true = false
same false false = true

same_sound : (a b : Bool) → same a b ≡ true → a ≡ b
unfolding same
same_sound a b h = ground arith

-- Whether the plan makes exactly the channels up to its limit legal, at one channel.
agrees : Info → ℕ → ℕ → Bool
unfolding same dot11d_channelmap is_legal_channel
agrees d plan c =
    same (legal_after (dot11d_channelmap plan d) c) (leb 1 c && leb c (get_or plan_limits plan 0))

plan_table : (d : Info) → holds_below (λ plan. holds_below (agrees d plan) 162) 13 ≡ true
unfolding holds_below agrees
plan_table d = refl

limits_small : holds_below (λ plan. leb (get_or plan_limits plan 0) 14) 13 ≡ true
unfolding holds_below
limits_small = refl

unfold_agrees :
    (d : Info) (plan c : ℕ)
    → same (legal_after (dot11d_channelmap plan d) c) (leb 1 c && leb c (get_or plan_limits plan 0))
      ≡ agrees d plan c
unfolding agrees
unfold_agrees d plan c = refl

agrees_sound :
    (d : Info) (plan c : ℕ)
    → agrees d plan c ≡ true
    → legal_after (dot11d_channelmap plan d) c ≡ (leb 1 c && leb c (get_or plan_limits plan 0))
agrees_sound d plan c h =
    same_sound (legal_after (dot11d_channelmap plan d) c)
      (leb 1 c && leb c (get_or plan_limits plan 0)) (unfold_agrees d plan c ∙ h)

legal_after-beyond : (r : Option Info) (c : ℕ) → 161 < c → legal_after r c ≡ false
unfolding is_legal_channel
legal_after-beyond none c h = refl
legal_after-beyond (some d) c h = ground arith

-- Every plan of the table makes the channels 1 up to its limit legal and no other, whatever the
-- map held before: the 5 GHz channels of the table are not used.
pub dot11d_channelmap-legal :
    (d : Info) (plan c : ℕ)
    → plan < 13
    → legal_after (dot11d_channelmap plan d) c ≡ (leb 1 c && leb c (get_or plan_limits plan 0))
dot11d_channelmap-legal d plan c h = elim (Bool-cases (ltb c 162)) [
  | inl small ↦ agrees_sound d plan c (
      holds_below→ (agrees d plan) 162 c (ground arith)
        (holds_below→ (λ plan. holds_below (agrees d plan) 162) 13 plan h (plan_table d)))
  | inr large ↦ rw (legal_after-beyond (dot11d_channelmap plan d) c (ground arith)) (
      ground
        (arith, holds_below→ (λ plan. leb (get_or plan_limits plan 0) 14) 13 plan h limits_small))
]
