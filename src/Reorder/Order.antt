-- ===== src/Reorder/Order.antt =====
-- The order of the pending list by how far each number lies ahead of the window start.
use rtl8190p.Common.{ℕ, suc, ◌+◌, ◌-◌, ◌%◌, ◌≤◌, ◌<◌, ◌≡◌, arith}
use rtl8190p.Common.{List, [], ◌∷◌, ◌++◌}
use rtl8190p.Common.{length, reverse, reverse-cons}
use rtl8190p.SeqNum.{ahead}
use rtl8190p.Reorder.{Entry}

-- Newest first: every number is less than `hi` and at least `lo` ahead of `w`, strictly falling.
abbrev pub Desc : ℕ → ℕ → ℕ → List Entry → Type 0
Desc w lo hi [] = Unit {0}
Desc w lo hi (e ∷ es) =
    (e.seq_num < 4096)
    × (lo ≤ ahead w e.seq_num)
    × (ahead w e.seq_num < hi)
    × Desc w lo (ahead w e.seq_num) es

-- Oldest first.
abbrev pub Asc : ℕ → ℕ → ℕ → List Entry → Type 0
Asc w lo hi [] = Unit {0}
Asc w lo hi (e ∷ es) =
    (e.seq_num < 4096)
    × (lo ≤ ahead w e.seq_num)
    × (ahead w e.seq_num < hi)
    × Asc w (suc (ahead w e.seq_num)) hi es

pub Asc-weaken :
    (w lo lo' hi hi' : ℕ) (es : List Entry)
    → lo' ≤ lo
    → hi ≤ hi'
    → Asc w lo hi es
    → Asc w lo' hi' es
Asc-weaken w lo lo' hi hi' [] p q h = tt
Asc-weaken w lo lo' hi hi' (e ∷ es) p q h = (
  h.0,
  omega arith,
  omega arith,
  Asc-weaken w (suc (ahead w e.seq_num)) (suc (ahead w e.seq_num)) hi hi' es (omega arith) q h.3,
)

Asc-snoc :
    (w lo mid hi : ℕ) (es : List Entry) (e : Entry)
    → Asc w lo mid es
    → e.seq_num < 4096
    → lo ≤ ahead w e.seq_num
    → mid ≤ ahead w e.seq_num
    → ahead w e.seq_num < hi
    → Asc w lo hi (es ++ (e ∷ []))
Asc-snoc w lo mid hi [] e h p q r s = (p, q, s, tt)
Asc-snoc w lo mid hi (x ∷ es) e h p q r s = (
  h.0,
  h.1,
  omega arith,
  Asc-snoc w (suc (ahead w x.seq_num)) mid hi es e h.3 p (omega arith) r s,
)

pub Desc-weaken :
    (w lo hi hi' : ℕ) (es : List Entry) → hi ≤ hi' → Desc w lo hi es → Desc w lo hi' es
Desc-weaken w lo hi hi' [] q h = tt
Desc-weaken w lo hi hi' (e ∷ es) q h = (h.0, h.1, omega arith, h.3)

pub reverse-Asc : (w lo hi : ℕ) (es : List Entry) → Desc w lo hi es → Asc w lo hi (reverse es)
reverse-Asc w lo hi [] h = tt
reverse-Asc w lo hi (e ∷ es) h = rw (reverse-cons e es) (
    Asc-snoc w lo (ahead w e.seq_num) hi (reverse es) e
      (reverse-Asc w lo (ahead w e.seq_num) es h.3) h.0 h.1 (omega arith) h.2)

Desc-snoc :
    (w lo hi : ℕ) (es : List Entry) (e : Entry)
    → Desc w (suc (ahead w e.seq_num)) hi es
    → e.seq_num < 4096
    → lo ≤ ahead w e.seq_num
    → ahead w e.seq_num < hi
    → Desc w lo hi (es ++ (e ∷ []))
Desc-snoc w lo hi [] e h p q r = (p, q, r, tt)
Desc-snoc w lo hi (x ∷ es) e h p q r =
    (h.0, omega arith, h.2, Desc-snoc w lo (ahead w x.seq_num) es e h.3 p q (omega arith))

pub reverse-Desc : (w lo hi : ℕ) (es : List Entry) → Asc w lo hi es → Desc w lo hi (reverse es)
reverse-Desc w lo hi [] h = tt
reverse-Desc w lo hi (e ∷ es) h = rw (reverse-cons e es) (
    Desc-snoc w lo hi (reverse es) e (reverse-Desc w (suc (ahead w e.seq_num)) hi es h.3) h.0 h.1
      h.2)

-- Distinct numbers in a range: no more than the range holds.
pub Asc-length : (w lo hi : ℕ) (es : List Entry) → Asc w lo hi es → lo ≤ hi → length es + lo ≤ hi
Asc-length w lo hi [] h p = omega arith
Asc-length w lo hi (e ∷ es) h p =
    omega (arith, Asc-length w (suc (ahead w e.seq_num)) hi es h.3 h.2)

-- The window start moves on by `k`.
pub Asc-rebase :
    (w k lo hi : ℕ) (es : List Entry)
    → w < 4096
    → hi ≤ 4096
    → k ≤ lo
    → Asc w lo hi es
    → Asc ((w + k) % 4096) (lo - k) (hi - k) es
Asc-rebase w k lo hi [] hw hh hk h = tt
Asc-rebase w k lo hi (e ∷ es) hw hh hk h =
    let moved : ahead ((w + k) % 4096) e.seq_num ≡ ahead w e.seq_num - k = omega arith in
    let rest = Asc-rebase w k (suc (ahead w e.seq_num)) hi es hw hh (omega arith) h.3 in
    (
      h.0,
      omega arith,
      omega arith,
      Asc-weaken ((w + k) % 4096) (suc (ahead w e.seq_num) - k)
          (suc (ahead ((w + k) % 4096) e.seq_num)) (hi - k) (hi - k) es (omega arith) (omega arith)
          rest,
    )

pub Desc-rebase :
    (w k lo hi : ℕ) (es : List Entry)
    → w < 4096
    → hi ≤ 4096
    → k ≤ lo
    → Desc w lo hi es
    → Desc ((w + k) % 4096) (lo - k) (hi - k) es
Desc-rebase w k lo hi [] hw hh hk h = tt
Desc-rebase w k lo hi (e ∷ es) hw hh hk h =
    let moved : ahead ((w + k) % 4096) e.seq_num ≡ ahead w e.seq_num - k = omega arith in
    (
      h.0,
      omega arith,
      omega arith,
      rw moved (Desc-rebase w k lo (ahead w e.seq_num) es hw (omega arith) hk h.3),
    )
