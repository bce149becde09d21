-- ===== src/Dot11d/Map.antt =====
-- The channel map as a table: what the marking loops write, and Dot11d_Reset.
use rtl8190p.Common.{ℕ, zero, suc, ◌+◌, ◌≤◌, ◌≡◌, ltb, leb, if◌then◌else◌, refl, arith}
use rtl8190p.Common.{Bool, ◌&&◌, List, get_or, set, length, length-set, replicate}
use rtl8190p.Common.{get_or-set, get_or-replicate, length-replicate}
use rtl8190p.Dot11d.{Info, mark_channels, dot11d_reset, is_legal_channel}

-- `c` is one of the `n` channels from `first` on.
abbrev pub in_range : ℕ → ℕ → ℕ → Bool
in_range first n c = leb first c && ltb c (first + n)

pub length-mark_channels :
    (left c v : ℕ) (m : List ℕ) → length (mark_channels left c v m) ≡ length m
unfolding mark_channels
length-mark_channels zero c v m = refl
length-mark_channels (suc left) c v m =
    omega (arith, length-mark_channels left (c + 1) v (set m c v), length-set m c v)

pub get_or-mark_channels :
    (left c v : ℕ) (m : List ℕ) (i : ℕ)
    → c + left ≤ length m
    → get_or (mark_channels left c v m) i 0 ≡ (if in_range c left i then v else get_or m i 0)
unfolding mark_channels
get_or-mark_channels zero c v m i h = ground arith
get_or-mark_channels (suc left) c v m i h = ground (
  arith,
  length-set m c v,
  get_or-mark_channels left (c + 1) v (set m c v) i,
  get_or-set m c i v 0,
)

-- The marks that Dot11d_Reset leaves.
abbrev pub reset_mark : ℕ → ℕ
reset_mark c = if in_range 1 11 c then 1 else if in_range 12 3 c then 2 else 0

reset_marks :
    (m : List ℕ) (c : ℕ)
    → length m ≡ 162
    → get_or m c 0 ≡ 0
    → get_or (mark_channels 3 12 2 (mark_channels 11 1 1 m)) c 0 ≡ reset_mark c
reset_marks m c n z = ground (
  arith,
  get_or-mark_channels 3 12 2 (mark_channels 11 1 1 m) c,
  get_or-mark_channels 11 1 1 m c,
  length-mark_channels 11 1 1 m,
)

reset-map : (d : Info) (c : ℕ) → get_or (dot11d_reset d).channel_map c 0 ≡ reset_mark c
reset-map d c =
    unfold dot11d_reset in
    reset_marks (replicate 162 0) c (length-replicate {A = ℕ} 162 0) (get_or-replicate 162 0 c)

-- After Dot11d_Reset exactly the channels 1 to 14 are legal.
pub is_legal_channel-reset :
    (d : Info) (c : ℕ) → is_legal_channel (dot11d_reset d) c ≡ (leb 1 c && leb c 14)
unfolding is_legal_channel
is_legal_channel-reset d c = ground (arith, reset-map d c)
