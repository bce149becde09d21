-- ===== src/Reorder/Tests.antt =====
-- Runs of the reorder buffer and the theorems at concrete streams.
use rtl8190p.Common.{ℕ, ◌+◌, ◌≡◌, refl, arith, true, false, List, [], ◌∷◌, length, count}
use rtl8190p.SeqNum.{sn_less}
use rtl8190p.Reorder.{Entry, Stream, no_seq, rx_reorder_indicate_packet, rx_pkt_pending_timeout}
use rtl8190p.Reorder.Store.{packets}
use rtl8190p.Reorder.Window.{IsValid, open_at, rx_reorder-IsValid}
use rtl8190p.Reorder.Delivery.{
  IsInOrder, known, rx_reorder-IsInOrder, rx_reorder-known, rx_reorder-entries,
}
use rtl8190p.Reorder.Expiry.{timeout_lem, rx_reorder-no_timer}

abbrev entry : ℕ → ℕ → Entry
entry i seq = record { id = i; seq_num = seq; prxb = 100 + i }

-- 4095 is missing; 0 and 2 wait behind it.
abbrev gap : Stream
gap = record {
  rx_indicate_seq = 4095;
  rx_timeout_indicate_seq = 4095;
  rx_pending_pkt_list = entry 1 2 ∷ entry 0 0 ∷ [];
  timer_pending = true;
  rx_reorder_unused_list = entry 2 0 ∷ entry 3 0 ∷ [];
  rx_reorder_win_size = 64;
  rx_reorder_drop_counter = 0;
  indicated = 7 ∷ [];
  freed = [];
}

gap-IsValid : IsValid gap
gap-IsValid = record {
  size_pos = omega arith;
  size_max = omega arith;
  window = open_at (omega arith) (omega arith);
}

fills_gap :
    ((rx_reorder_indicate_packet gap 9 4095).indicated ≡ 7 ∷ 9 ∷ 100 ∷ [])
    × ((rx_reorder_indicate_packet gap 9 4095).rx_indicate_seq ≡ 1)
unfolding rx_reorder_indicate_packet sn_less
fills_gap = (refl, refl)

shifts_window : (rx_reorder_indicate_packet gap 9 64).indicated ≡ 7 ∷ 100 ∷ []
unfolding rx_reorder_indicate_packet sn_less
shifts_window = refl

timer_runs : (rx_pkt_pending_timeout gap).indicated ≡ 7 ∷ 100 ∷ []
unfolding rx_pkt_pending_timeout sn_less
timer_runs = refl

rx_reorder-IsValid_example : IsValid (rx_reorder_indicate_packet gap 9 64)
rx_reorder-IsValid_example = rx_reorder-IsValid gap 9 64 gap-IsValid (omega arith)

rx_reorder-IsInOrder_example : IsInOrder 4095 gap 9 4095 (rx_reorder_indicate_packet gap 9 4095)
rx_reorder-IsInOrder_example = rx_reorder-IsInOrder gap 9 4095 gap-IsValid (omega arith)

rx_reorder-known_example :
    known 9 (rx_reorder_indicate_packet gap 9 1) ≡ known 9 gap + count 9 (9 ∷ [])
rx_reorder-known_example = rx_reorder-known gap 9 1 gap-IsValid (omega arith) 9

rx_reorder-entries_example :
    length (rx_reorder_indicate_packet gap 9 1).rx_pending_pkt_list
      + length (rx_reorder_indicate_packet gap 9 1).rx_reorder_unused_list
    ≡ 4
rx_reorder-entries_example = rx_reorder-entries gap 9 1 gap-IsValid (omega arith)

timeout_lem_example :
    IsValid (rx_pkt_pending_timeout gap)
    × ((a : ℕ) → known a (rx_pkt_pending_timeout gap) ≡ known a gap)
    × ((more : List Entry) × ((rx_pkt_pending_timeout gap).indicated ≡ 7 ∷ 100 ∷ packets more))
timeout_lem_example = timeout_lem gap (entry 0 0) (entry 1 2 ∷ []) gap-IsValid refl (omega arith)

rx_reorder-no_timer_example :
    ((rx_reorder_indicate_packet gap 9 4095).timer_pending ≡ false)
    × ((rx_reorder_indicate_packet gap 9 4095).rx_timeout_indicate_seq ≡ no_seq)
rx_reorder-no_timer_example = rx_reorder-no_timer gap 9 4095 refl
