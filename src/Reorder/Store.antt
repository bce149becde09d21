-- ===== src/Reorder/Store.antt =====
-- A packet ahead of the window start is stored, or its memory is released.
use rtl8190p.Common.{ℕ, ◌+◌, ◌≤◌, ◌<◌, ◌≡◌, inl, inr, ◌⊎◌, refl, arith}
use rtl8190p.Common.{List, [], ◌∷◌, ◌++◌, map, length}
use rtl8190p.Common.{length-append, ap, count, count-cons, count-append, count-nil}
use rtl8190p.Common.{none, some, Option-cases}
use mathlib.Core.List.{map-append}
use rtl8190p.SeqNum.{ahead}
use rtl8190p.Reorder.{Entry, Stream, store_packet, add_reorder_entry}
use rtl8190p.Reorder.Order.{Desc}
use rtl8190p.Reorder.Insert.{IsInserted, add_reorder_entry-IsInserted, add_reorder_entry-Desc}

abbrev pub packets : List Entry → List ℕ
packets es = map (λ e. e.prxb) es

-- What `store_packet` may change, and that the packet is then stored or released.
pub record IsStored (w lo hi : ℕ) (d : Stream) (prxb seq : ℕ) (r : Stream) : Type 0 where
  pub start : r.rx_indicate_seq ≡ d.rx_indicate_seq
  pub size : r.rx_reorder_win_size ≡ d.rx_reorder_win_size
  pub indicated : r.indicated ≡ d.indicated
  pub dropped : r.rx_reorder_drop_counter ≡ d.rx_reorder_drop_counter
  pub longer : length r.rx_pending_pkt_list ≤ length d.rx_pending_pkt_list + 1
  pub entries :
      length r.rx_pending_pkt_list + length r.rx_reorder_unused_list
      ≡ length d.rx_pending_pkt_list + length d.rx_reorder_unused_list
  pub accounted :
      (a : ℕ)
      → count a r.freed + count a (packets r.rx_pending_pkt_list)
        ≡ count a (prxb ∷ []) + count a d.freed + count a (packets d.rx_pending_pkt_list)
  pub ordered : Desc w lo hi r.rx_pending_pkt_list
  pub placed :
      (r.rx_pending_pkt_list ≡ d.rx_pending_pkt_list)
      ⊎ ((e : Entry) × (e.seq_num ≡ seq)
          × (e.prxb ≡ prxb)
          × IsInserted e d.rx_pending_pkt_list r.rx_pending_pkt_list)

length-IsInserted :
    {e : Entry} {es out : List Entry} → IsInserted e es out → length out ≡ length es + 1
length-IsInserted {e} i = omega (
  arith,
  ap length i.before,
  ap length i.after,
  length-append i.newer i.older,
  length-append i.newer (e ∷ i.older),
)

count-IsInserted :
    (a : ℕ) {e : Entry} {es out : List Entry}
    → IsInserted e es out
    → count a (packets out) ≡ count a (e.prxb ∷ []) + count a (packets es)
count-IsInserted a {e} i = omega (
  arith,
  ap (λ l. count a (packets l)) i.before,
  ap (λ l. count a (packets l)) i.after,
  ap (count a) (map-append (λ e. e.prxb) i.newer i.older),
  ap (count a) (map-append (λ e. e.prxb) i.newer (e ∷ i.older)),
  count-append a (packets i.newer) (packets i.older),
  count-append a (packets i.newer) (e.prxb ∷ packets i.older),
  count-cons a e.prxb (packets i.older),
  count-cons a e.prxb [],
  count-nil a,
)

abbrev entry_for : Entry → ℕ → ℕ → Entry
entry_for free prxb seq = record free { seq_num = seq; prxb = prxb }

module _ (d : Stream) (prxb seq : ℕ) where
  store-no_entry :
      d.rx_reorder_unused_list ≡ []
      → store_packet d prxb seq ≡ record d { freed = d.freed ++ (prxb ∷ []) }
  unfolding store_packet
  store-no_entry h = rw h

  store-duplicate :
      (free : Entry) (others : List Entry)
      → d.rx_reorder_unused_list ≡ free ∷ others
      → add_reorder_entry (entry_for free prxb seq) d.rx_pending_pkt_list ≡ none
      → store_packet d prxb seq ≡ record d {
        rx_reorder_unused_list = others ++ (entry_for free prxb seq ∷ []);
        freed = d.freed ++ (prxb ∷ []);
      }
  unfolding store_packet
  store-duplicate free others h n = ground arith

  store-inserted :
      (free : Entry) (others list : List Entry)
      → d.rx_reorder_unused_list ≡ free ∷ others
      → add_reorder_entry (entry_for free prxb seq) d.rx_pending_pkt_list ≡ some list
      → store_packet d prxb seq
        ≡ record d { rx_reorder_unused_list = others; rx_pending_pkt_list = list }
  unfolding store_packet
  store-inserted free others list h n = ground arith

  IsStored-of_freed :
      (w lo hi : ℕ) (unused : List Entry)
      → length unused ≡ length d.rx_reorder_unused_list
      → Desc w lo hi d.rx_pending_pkt_list
      → IsStored w lo hi d prxb seq
          (record d { rx_reorder_unused_list = unused; freed = d.freed ++ (prxb ∷ []) })
  IsStored-of_freed w lo hi unused e h = record {
    start = refl;
    size = refl;
    indicated = refl;
    dropped = refl;
    longer = omega arith;
    entries = omega arith;
    accounted = λ a. omega (arith, count-append a d.freed (prxb ∷ []));
    ordered = h;
    placed = inl refl;
  }

  IsStored-of_list :
      (w lo hi : ℕ) (free : Entry) (others list : List Entry)
      → d.rx_reorder_unused_list ≡ free ∷ others
      → IsInserted (entry_for free prxb seq) d.rx_pending_pkt_list list
      → Desc w lo hi list
      → IsStored w lo hi d prxb seq
          (record d { rx_reorder_unused_list = others; rx_pending_pkt_list = list })
  IsStored-of_list w lo hi free others list e i h = record {
    start = refl;
    size = refl;
    indicated = refl;
    dropped = refl;
    longer = omega (arith, length-IsInserted i);
    entries = omega (arith, length-IsInserted i, ap length e);
    accounted = λ a. omega (arith, count-IsInserted a i);
    ordered = h;
    placed = inr (entry_for free prxb seq, refl, refl, i);
  }

pub store_packet-IsStored :
    (w lo hi : ℕ) (d : Stream) (prxb seq : ℕ)
    → w < 4096
    → seq < 4096
    → hi ≤ 2048
    → lo ≤ ahead w seq
    → ahead w seq < hi
    → Desc w lo hi d.rx_pending_pkt_list
    → IsStored w lo hi d prxb seq (store_packet d prxb seq)
store_packet-IsStored w lo hi d prxb seq hw hs hh p q h = go d.rx_reorder_unused_list refl
  where
    go :
        (l : List Entry)
        → d.rx_reorder_unused_list ≡ l
        → IsStored w lo hi d prxb seq (store_packet d prxb seq)
    go [] e =
        rw (store-no_entry d prxb seq e)
          (IsStored-of_freed d prxb seq w lo hi d.rx_reorder_unused_list refl h)
    go (free ∷ others) e =
        elim (Option-cases (add_reorder_entry (entry_for free prxb seq) d.rx_pending_pkt_list)) [
          | inl n ↦ rw (store-duplicate d prxb seq free others e n) (
              IsStored-of_freed d prxb seq w lo hi (others ++ (entry_for free prxb seq ∷ []))
                (omega (arith, ap length e, length-append others (entry_for free prxb seq ∷ []))) h)
          | inr (list, put) ↦ rw (store-inserted d prxb seq free others list e put) (
              IsStored-of_list d prxb seq w lo hi free others list e
                (add_reorder_entry-IsInserted (entry_for free prxb seq) d.rx_pending_pkt_list put)
                (add_reorder_entry-Desc w lo hi (entry_for free prxb seq) d.rx_pending_pkt_list hw
                  hs hh p q h put))
        ]
