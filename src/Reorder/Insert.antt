-- ===== src/Reorder/Insert.antt =====
-- AddReorderEntry: where a packet goes in the pending list, and when it is a duplicate.
use rtl8190p.Common.{ℕ, ◌≤◌, ◌<◌, ◌≡◌, ◌⊎◌, ◌↔◌, inl, inr, refl, arith}
use rtl8190p.Common.{none, some, List, [], ◌∷◌, ◌++◌}
use rtl8190p.Common.{ltb, Bool-cases, Option-cases, ap, subst, ◌≢◌}
use rtl8190p.SeqNum.{sn_less, ahead}
use rtl8190p.Reorder.{Entry, add_reorder_entry}
use rtl8190p.Reorder.Order.{Desc}

-- Within 2048 of a common start the macro compares the distances.
pub sn_less-ahead :
    (w a b : ℕ)
    → w < 4096
    → a < 4096
    → b < 4096
    → ahead w a < 2048
    → ahead w b < 2048
    → sn_less a b ≡ ltb (ahead w a) (ahead w b)
unfolding sn_less
sn_less-ahead w a b hw ha hb p q = ground arith

-- The number `n` stands in the list.
abbrev pub HasSeq : ℕ → List Entry → Type 0
HasSeq n [] = ⊥
HasSeq n (e ∷ es) = (e.seq_num ≡ n) ⊎ HasSeq n es

-- `out` is `es` with `e` put in between.
pub record IsInserted (e : Entry) (es out : List Entry) : Type 0 where
  pub newer : List Entry
  pub older : List Entry
  pub before : es ≡ newer ++ older
  pub after : out ≡ newer ++ (e ∷ older)

pub add_reorder_entry-IsInserted :
    (e : Entry) (es : List Entry) {out : List Entry}
    → add_reorder_entry e es ≡ some out
    → IsInserted e es out
unfolding add_reorder_entry
add_reorder_entry-IsInserted e [] h = record { newer = []; older = []; before = refl; after = cc }
add_reorder_entry-IsInserted e (x ∷ xs) h = elim (Bool-cases (sn_less e.seq_num x.seq_num)) [
  | inl less ↦ elim (Option-cases (add_reorder_entry e xs)) [
    | inl fails ↦ absurd (ground arith)
    | inr (l, put) ↦
        let ih = add_reorder_entry-IsInserted e xs put in
        record {
          newer = x ∷ ih.newer;
          older = ih.older;
          before = cc ih.before;
          after = ground (arith, ih.after);
        }
  ]
  | inr ge ↦ record { newer = []; older = x ∷ xs; before = refl; after = ground arith }
]

-- Putting a packet into an ordered list keeps the order and reaches the new number at most.
pub add_reorder_entry-Desc :
    (w lo hi : ℕ) (e : Entry) (es : List Entry) {out : List Entry}
    → w < 4096
    → e.seq_num < 4096
    → hi ≤ 2048
    → lo ≤ ahead w e.seq_num
    → ahead w e.seq_num < hi
    → Desc w lo hi es
    → add_reorder_entry e es ≡ some out
    → Desc w lo hi out
unfolding add_reorder_entry
add_reorder_entry-Desc w lo hi e [] hw he hh p q h r = ground arith
add_reorder_entry-Desc w lo hi e (x ∷ xs) hw he hh p q h r =
    elim (Bool-cases (sn_less e.seq_num x.seq_num)) [
      | inl less ↦ elim (Option-cases (add_reorder_entry e xs)) [
        | inl fails ↦ absurd (ground arith)
        | inr (l, put) ↦
            let nearer : ahead w e.seq_num < ahead w x.seq_num =
              ground (arith, sn_less-ahead w e.seq_num x.seq_num) in
            let ih =
              add_reorder_entry-Desc w lo (ahead w x.seq_num) e xs hw he (omega arith) p nearer h.3
                put in
            subst (Desc w lo hi) {x = x ∷ l} (ground arith) (h.0, h.1, h.2, ih)
      ]
      | inr ge ↦
          let farther : ahead w x.seq_num ≤ ahead w e.seq_num =
            ground (arith, sn_less-ahead w e.seq_num x.seq_num) in
          let other : e.seq_num ≢ x.seq_num = ground arith in
          let apart : ahead w x.seq_num < ahead w e.seq_num = omega arith in
          subst (Desc w lo hi) {x = e ∷ x ∷ xs} (ground arith) (he, p, q, (h.0, h.1, apart, h.3))
    ]

HasSeq-ahead : (w lo hi n : ℕ) (es : List Entry) → Desc w lo hi es → HasSeq n es → ahead w n < hi
HasSeq-ahead w lo hi n [] h m = absurd m
HasSeq-ahead w lo hi n (e ∷ es) h (inl here) = rw (← here) h.2
HasSeq-ahead w lo hi n (e ∷ es) h (inr there) =
    omega (arith, h.2, HasSeq-ahead w lo (ahead w e.seq_num) n es h.3 there)

-- A packet is refused exactly when its number waits already.
pub add_reorder_entry-none_iff :
    (w lo hi : ℕ) (e : Entry) (es : List Entry)
    → w < 4096
    → e.seq_num < 4096
    → hi ≤ 2048
    → ahead w e.seq_num < 2048
    → Desc w lo hi es
    → (add_reorder_entry e es ≡ none) ↔ HasSeq e.seq_num es
unfolding add_reorder_entry
add_reorder_entry-none_iff w lo hi e [] hw he hh p h = ground arith
add_reorder_entry-none_iff w lo hi e (x ∷ xs) hw he hh p h =
    elim (Bool-cases (sn_less e.seq_num x.seq_num)) [
      | inl less ↦
          let ih =
            add_reorder_entry-none_iff w lo (ahead w x.seq_num) e xs hw he (omega arith) p h.3 in
          let nearer : ahead w e.seq_num < ahead w x.seq_num =
            ground (arith, sn_less-ahead w e.seq_num x.seq_num) in
          (
            λ r. inr (ih.0 (ground arith)),
            λ m. elim m [
              | inl same ↦ absurd (omega (arith, ap (ahead w) same))
              | inr there ↦ let fails = ih.1 there in ground arith
            ],
          )
      | inr ge ↦
          let farther : ahead w x.seq_num ≤ ahead w e.seq_num =
            ground (arith, sn_less-ahead w e.seq_num x.seq_num) in
          (
            λ r. inl (ground arith),
            λ m. elim m [
              | inl same ↦ ground arith
              | inr there ↦
                  absurd
                    (omega (arith, HasSeq-ahead w lo (ahead w x.seq_num) e.seq_num xs h.3 there))
            ],
          )
    ]
