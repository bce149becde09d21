-- ===== src/Reorder/Delivery.antt =====
-- What the receive reorder buffer promises its client: order, no loss, no duplication.
use mathlib.Core.List.{append-nil, map-append}
use rtl8190p.Common.{ℕ, suc, ◌+◌, ◌%◌, ◌<◌, ◌≡◌, refl, arith}
use rtl8190p.Common.{List, [], ◌∷◌, ◌++◌, reverse, length, length-append}
use rtl8190p.Common.{ap, sym, ◌∙◌, subst, count, count-append, count-nil, count-reverse}
use rtl8190p.Common.{length-reverse, reverse-cons}
use rtl8190p.Common.{All, inl, inr, ◌≤◌}
use rtl8190p.SeqNum.{ahead}
use rtl8190p.Reorder.{Entry, Stream, rx_reorder_indicate_packet}
use rtl8190p.Reorder.Order.{Asc, Asc-weaken}
use rtl8190p.Reorder.Indicate.{IsIndicated}
use rtl8190p.Reorder.Store.{packets}
use rtl8190p.Reorder.Outcome.{Outcome, behind, matched, stored, shift_by}
use rtl8190p.Reorder.Window.{IsValid, met_start, met_start-lt, started, rx_reorder-Outcome}
use rtl8190p.Reorder.Sent.{Met, All-taken, All-Met, stored-Met}

-- `r` was reached from `d` at the arrival of the packet `prxb` with the number `seq` by sending
-- packets upwards in the order of their numbers: those of `sent` are the packet or waited in `d`,
-- each with its number, and they rise strictly from the start `w` on and end before the new start.
pub record IsInOrder (w : ℕ) (d : Stream) (prxb seq : ℕ) (r : Stream) : Type 0 where
  pub sent : List Entry
  pub moved : ℕ
  pub indicated : r.indicated ≡ d.indicated ++ packets sent
  pub met : All (Met d prxb seq) sent
  pub rising : Asc w 0 moved sent
  pub start : r.rx_indicate_seq ≡ (w + moved) % 4096
  pub once : moved < 4096

-- How often the packet `a` was indicated, released or waits.
abbrev pub known : ℕ → Stream → ℕ
known a d = count a d.indicated + count a d.freed + count a (packets d.rx_pending_pkt_list)

map-reverse : (es : List Entry) → packets (reverse es) ≡ reverse (packets es)
map-reverse [] = refl
map-reverse (e ∷ es) =
    ap packets (reverse-cons e es)
    ∙ map-append (λ e. e.prxb) (reverse es) (e ∷ [])
    ∙ ap (λ l. l ++ (e.prxb ∷ [])) (map-reverse es)
    ∙ sym (reverse-cons e.prxb (packets es))

count-packets-reverse :
    (a : ℕ) (es : List Entry) → count a (packets (reverse es)) ≡ count a (packets es)
count-packets-reverse a es = ap (count a) (map-reverse es) ∙ count-reverse a (packets es)

-- An indication moves packets from the pending list to the client, and entries to the pool.
pub indicated-known :
    (a w lo k hi : ℕ) (d : Stream) (batch : List ℕ) (r : Stream)
    → IsIndicated w lo k hi d batch r
    → known a r ≡ known a d + count a batch
indicated-known a w lo k hi d batch r i = omega (
  arith,
  ap (count a) i.indicated,
  count-append a d.indicated (batch ++ packets i.taken),
  count-append a batch (packets i.taken),
  ap (count a) i.freed,
  count-packets-reverse a d.rx_pending_pkt_list,
  count-packets-reverse a r.rx_pending_pkt_list,
  ap (λ l. count a (packets l)) i.split,
  ap (count a) (map-append (λ e. e.prxb) i.taken (reverse r.rx_pending_pkt_list)),
  count-append a (packets i.taken) (packets (reverse r.rx_pending_pkt_list)),
)

indicated-entries :
    (w lo k hi : ℕ) (d : Stream) (batch : List ℕ) (r : Stream)
    → IsIndicated w lo k hi d batch r
    → length r.rx_pending_pkt_list + length r.rx_reorder_unused_list
      ≡ length d.rx_pending_pkt_list + length d.rx_reorder_unused_list
indicated-entries w lo k hi d batch r i = omega (
  arith,
  length-reverse d.rx_pending_pkt_list,
  length-reverse r.rx_pending_pkt_list,
  ap length i.split,
  length-append i.taken (reverse r.rx_pending_pkt_list),
  ap length i.unused,
  length-append d.rx_reorder_unused_list i.taken,
)

Outcome-known :
    (a w : ℕ) (d : Stream) (prxb seq : ℕ) (r : Stream)
    → Outcome w d prxb seq r
    → known a r ≡ known a d + count a (prxb ∷ [])
Outcome-known a w d prxb seq r (behind far e) =
    rw e (omega (arith, count-append a d.freed (prxb ∷ [])))
Outcome-known a w d prxb seq r (matched e i) =
    indicated-known a w 1 1 d.rx_reorder_win_size (record d { rx_indicate_seq = (w + 1) % 4096 })
      (prxb ∷ []) r i
Outcome-known a w d prxb seq r (stored m near far s i) = omega (
  arith,
  indicated-known a w 1 (shift_by d.rx_reorder_win_size (ahead w seq))
      (shift_by d.rx_reorder_win_size (ahead w seq) + d.rx_reorder_win_size) m [] r i,
  count-nil a,
  s.accounted a,
  ap (count a) s.indicated,
)

Outcome-entries :
    (w : ℕ) (d : Stream) (prxb seq : ℕ) (r : Stream)
    → Outcome w d prxb seq r
    → length r.rx_pending_pkt_list + length r.rx_reorder_unused_list
      ≡ length d.rx_pending_pkt_list + length d.rx_reorder_unused_list
Outcome-entries w d prxb seq r (behind far e) = rw e refl
Outcome-entries w d prxb seq r (matched e i) =
    indicated-entries w 1 1 d.rx_reorder_win_size (record d { rx_indicate_seq = (w + 1) % 4096 })
      (prxb ∷ []) r i
Outcome-entries w d prxb seq r (stored m near far s i) =
    indicated-entries w 1 (shift_by d.rx_reorder_win_size (ahead w seq))
      (shift_by d.rx_reorder_win_size (ahead w seq) + d.rx_reorder_win_size) m [] r i
    ∙ s.entries

Outcome-IsInOrder :
    (w : ℕ) (d : Stream) (prxb seq : ℕ) (r : Stream)
    → w < 4096
    → seq < 4096
    → d.rx_reorder_win_size ≤ 128
    → Outcome w d prxb seq r
    → IsInOrder w d prxb seq r
Outcome-IsInOrder w d prxb seq r hw hs size (behind far e) = rw e (record {
  sent = [];
  moved = 0;
  indicated = sym (append-nil d.indicated);
  met = tt;
  rising = tt;
  start = omega arith;
  once = omega arith;
})
Outcome-IsInOrder w d prxb seq r hw hs size (matched e i) = record {
  sent = record { id = 0; seq_num = seq; prxb = prxb } ∷ i.taken;
  moved = i.moved;
  indicated = i.indicated;
  met = (
    unfold Met in inr (refl, refl),
    All-taken (Met d prxb seq) d.rx_pending_pkt_list i.taken (reverse r.rx_pending_pkt_list) i.split
        (All-Met d prxb seq),
  );
  rising = (
    hs,
    omega arith,
    omega (arith, e, i.grown),
    subst (λ n. Asc w (suc n) i.moved i.taken) (sym e) i.before,
  );
  start = i.start;
  once = elim i.bounded [ inl e ↦ omega (arith, e) | inr k ↦ omega (arith, k) ];
}
Outcome-IsInOrder w d prxb seq r hw hs size (stored m near far s i) = record {
  sent = i.taken;
  moved = i.moved;
  indicated = i.indicated ∙ ap (λ l. l ++ packets i.taken) s.indicated;
  met =
      All-taken (Met d prxb seq) m.rx_pending_pkt_list i.taken (reverse r.rx_pending_pkt_list)
        i.split
        (stored-Met d prxb seq w 1
          (shift_by d.rx_reorder_win_size (ahead w seq) + d.rx_reorder_win_size)
          ((w + shift_by d.rx_reorder_win_size (ahead w seq)) % 4096) m s);
  rising = Asc-weaken w 1 0 i.moved i.moved i.taken (omega arith) (omega arith) i.before;
  start = i.start;
  once = elim i.bounded [ inl e ↦ omega (arith, e) | inr k ↦ omega (arith, k) ];
}

module _ (d : Stream) (prxb seq : ℕ) (v : IsValid d) (hs : seq < 4096) where
  -- Packets go up in order: what one call indicates is the packet or waited in the stream, it rises
  -- strictly in sequence number from the window start that the packet met, and the start moves on
  -- behind the last of it.
  pub rx_reorder-IsInOrder :
      IsInOrder (met_start d seq) (started d seq) prxb seq (rx_reorder_indicate_packet d prxb seq)
  rx_reorder-IsInOrder =
      Outcome-IsInOrder (met_start d seq) (started d seq) prxb seq
        (rx_reorder_indicate_packet d prxb seq) (met_start-lt d seq v hs) hs v.size_max
        (rx_reorder-Outcome d prxb seq v hs)

  -- No packet is lost or doubled: after the call the packet counts once more among those
  -- indicated, released or waiting, and any other as often as before.
  pub rx_reorder-known :
      (a : ℕ) → known a (rx_reorder_indicate_packet d prxb seq) ≡ known a d + count a (prxb ∷ [])
  rx_reorder-known a =
      Outcome-known a (met_start d seq) (started d seq) prxb seq
        (rx_reorder_indicate_packet d prxb seq) (rx_reorder-Outcome d prxb seq v hs)

  -- Reorder entries are neither leaked nor made up.
  pub rx_reorder-entries :
      length (rx_reorder_indicate_packet d prxb seq).rx_pending_pkt_list
        + length (rx_reorder_indicate_packet d prxb seq).rx_reorder_unused_list
      ≡ length d.rx_pending_pkt_list + length d.rx_reorder_unused_list
  rx_reorder-entries =
      Outcome-entries (met_start d seq) (started d seq) prxb seq
        (rx_reorder_indicate_packet d prxb seq) (rx_reorder-Outcome d prxb seq v hs)
