-- ===== src/Rx/Aggregate/Within.antt =====
-- What parse_subframe makes of any bytes.
use rtl8190p.Common.{ℕ, ◌+◌, ◌≤◌, ◌≡◌, some, List, [], ◌∷◌, ◌++◌, length, ◌⊎◌}
use rtl8190p.Rx.Aggregate.{parse_loop}

-- The bytes that subframes take with their headers.
unfoldable pub taken : List (List ℕ) → ℕ
taken [] = 0
taken (s ∷ ss) = 14 + length s + taken ss

-- The loop ends: it returns 0 or the number of the subframes, which are 64 at most, and those that
-- it found fit into the frame.
pub record Ends (rounds : ℕ) (skb : List ℕ) (subframes : List (List ℕ)) : Type 0 where
  pub result : ℕ
  pub found : List (List ℕ)
  pub run : parse_loop rounds skb subframes ≡ some (result, subframes ++ found)
  pub returned : (result ≡ 0) ⊎ (result ≡ length (subframes ++ found))
  pub few : length (subframes ++ found) ≤ 64
  pub fit : taken found ≤ length skb
