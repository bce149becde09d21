-- ===== src/Reorder/Window.antt =====
-- RxReorderIndicatePacket keeps the receive window: the invariant and the outcomes of a packet.
use rtl8190p.Common.{ℕ, suc, ◌+◌, ◌-◌, ◌%◌, ◌≤◌, ◌<◌, ◌≡◌, refl, arith}
use rtl8190p.Common.{false, if◌then◌else◌, List, [], ◌==◌, ==_iff}
use rtl8190p.Common.{sym, ◌∙◌, subst, ==_iff, ==_refl}
use rtl8190p.SeqNum.{sn_less, ahead}
use rtl8190p.Reorder.{Entry, Stream, win_end, rx_reorder_indicate_packet, no_seq}
use rtl8190p.Reorder.Order.{Desc, Desc-weaken, Desc-rebase}
use rtl8190p.Reorder.Outcome.{
  Outcome, behind, matched, stored, shift_by, receive-Outcome, receive-matched, matched-Outcome,
}

-- The window: nothing was received yet, or the start is a sequence number and the waiting packets
-- lie 1 up to size - 1 ahead of it, in falling order from the list head.
pub data Window (d : Stream) : Type 0 where
  idle : d.rx_indicate_seq ≡ no_seq → d.rx_pending_pkt_list ≡ [] → Window d
  open_at :
      d.rx_indicate_seq < 4096
      → Desc d.rx_indicate_seq 1 d.rx_reorder_win_size d.rx_pending_pkt_list
      → Window d

pub record IsValid (d : Stream) : Type 0 where
  pub size_pos : 1 ≤ d.rx_reorder_win_size
  pub size_max : d.rx_reorder_win_size ≤ 128
  pub window : Window d

-- The window start that a packet meets.
abbrev pub met_start : Stream → ℕ → ℕ
met_start d seq = if d.rx_indicate_seq == no_seq then seq else d.rx_indicate_seq

abbrev pub started : Stream → ℕ → Stream
started d seq = record d { rx_indicate_seq = met_start d seq }

pub below_no_seq : (n : ℕ) → n < 4096 → (n == no_seq) ≡ false
below_no_seq n h = ground arith

pub not-sn_less_self : (n : ℕ) → sn_less n n ≡ false
unfolding sn_less
not-sn_less_self n = ground arith

pub met_start-lt : (d : Stream) (seq : ℕ) → IsValid d → seq < 4096 → met_start d seq < 4096
met_start-lt d seq v hs = elim v.window [
  | idle none_yet no_packets ↦ rw ((==_iff d.rx_indicate_seq no_seq).1 none_yet) hs
  | open_at hw h ↦ rw (below_no_seq d.rx_indicate_seq hw) hw
]

pub met_start-Desc :
    (d : Stream) (seq : ℕ)
    → IsValid d
    → Desc (met_start d seq) 1 d.rx_reorder_win_size d.rx_pending_pkt_list
met_start-Desc d seq v = elim v.window [
  | idle none_yet no_packets ↦
      subst (Desc (met_start d seq) 1 d.rx_reorder_win_size) (sym no_packets) tt
  | open_at hw h ↦ rw (below_no_seq d.rx_indicate_seq hw) h
]

-- Every packet has an outcome at the start that it meets.
pub rx_reorder-Outcome :
    (d : Stream) (prxb seq : ℕ)
    → IsValid d
    → seq < 4096
    → Outcome (met_start d seq) (started d seq) prxb seq (rx_reorder_indicate_packet d prxb seq)
unfolding rx_reorder_indicate_packet
rx_reorder-Outcome d prxb seq v hs = elim v.window [
  | idle none_yet no_packets ↦
      let fresh = record d { rx_indicate_seq = seq } in
      rw ((==_iff d.rx_indicate_seq no_seq).1 none_yet) (
        rw
          (receive-matched (win_end d.rx_indicate_seq d.rx_reorder_win_size) fresh prxb seq
            (not-sn_less_self seq) (==_refl seq))
          (matched-Outcome fresh prxb seq hs hs v.size_pos v.size_max
            (subst (Desc seq 1 d.rx_reorder_win_size) (sym no_packets) tt) refl))
  | open_at hw h ↦
      rw (below_no_seq d.rx_indicate_seq hw)
        (receive-Outcome d prxb seq hw hs v.size_pos v.size_max h)
]

-- What lies beyond the moved start, seen from it.
pub Desc-narrow :
    (w k hi size : ℕ) (es : List Entry) (start size' : ℕ)
    → start ≡ (w + k) % 4096
    → size' ≡ size
    → w < 4096
    → hi ≤ 4096
    → hi - k ≤ size
    → Desc w (suc k) hi es
    → Desc start 1 size' es
Desc-narrow w k hi size es start size' e e' hw hh fits h =
    let one : suc k - k ≡ 1 = omega arith in
    let near = Desc-rebase w k (suc k) hi es hw hh (omega arith) h in
    rw e (
      Desc-weaken ((w + k) % 4096) 1 (hi - k) size' es (omega arith)
        (subst (λ n. Desc ((w + k) % 4096) n (hi - k) es) one near))

Outcome-IsValid :
    (d : Stream) (prxb seq : ℕ) (r : Stream)
    → d.rx_indicate_seq < 4096
    → 1 ≤ d.rx_reorder_win_size
    → d.rx_reorder_win_size ≤ 128
    → Desc d.rx_indicate_seq 1 d.rx_reorder_win_size d.rx_pending_pkt_list
    → Outcome d.rx_indicate_seq d prxb seq r
    → IsValid r
Outcome-IsValid d prxb seq r hw p q h (behind far e) =
    rw e (record { size_pos = p; size_max = q; window = open_at hw h })
Outcome-IsValid d prxb seq r hw p q h (matched e i) = record {
  size_pos = rw i.size p;
  size_max = rw i.size q;
  window = open_at (rw i.start (omega arith)) (
      Desc-narrow d.rx_indicate_seq i.moved d.rx_reorder_win_size d.rx_reorder_win_size
        r.rx_pending_pkt_list r.rx_indicate_seq r.rx_reorder_win_size i.start i.size hw
        (omega arith) (omega (arith, i.grown)) i.rest);
}
Outcome-IsValid d prxb seq r hw p q h (stored m near far s i) = record {
  size_pos = rw (i.size, s.size) p;
  size_max = rw (i.size, s.size) q;
  window = open_at (rw i.start (omega arith)) (
      Desc-narrow d.rx_indicate_seq i.moved
        (shift_by d.rx_reorder_win_size (ahead d.rx_indicate_seq seq) + d.rx_reorder_win_size)
        d.rx_reorder_win_size r.rx_pending_pkt_list r.rx_indicate_seq r.rx_reorder_win_size i.start
        (i.size ∙ s.size) hw (omega arith) (omega (arith, i.grown)) i.rest);
}

-- On a valid stream the receive routine keeps the window invariant, whatever packet comes in.
pub rx_reorder-IsValid :
    (d : Stream) (prxb seq : ℕ)
    → IsValid d
    → seq < 4096
    → IsValid (rx_reorder_indicate_packet d prxb seq)
rx_reorder-IsValid d prxb seq v hs =
    Outcome-IsValid (started d seq) prxb seq (rx_reorder_indicate_packet d prxb seq)
      (met_start-lt d seq v hs) v.size_pos v.size_max (met_start-Desc d seq v)
      (rx_reorder-Outcome d prxb seq v hs)
