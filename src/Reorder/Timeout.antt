-- ===== src/Reorder/Timeout.antt =====
-- RxPktPendingTimeout: the oldest waiting packet opens the window, and the packets behind it follow.
use rtl8190p.Common.{ℕ, ◌+◌, ◌≤◌, ◌<◌, ◌≡◌, ◌≢◌, inl, inr, refl, arith}
use rtl8190p.Common.{true, false, List, [], ◌∷◌, reverse, length, length-append}
use rtl8190p.Common.{length-reverse, ap, Bool-cases, ◌==◌, leb}
use rtl8190p.SeqNum.{sn_less}
use rtl8190p.Reorder.{
  Entry, Stream, Drain, take_entry, indicate_loop, timeout_loop, rx_pkt_pending_timeout, finish,
  no_seq, indicate, reorder_win_size, is_due,
}

-- After the first packet the loop of the timer is that of the receive routine, while the array
-- has room.
timeout_loop-eq-indicate_loop :
    (es : List Entry) (s : Drain)
    → 1 ≤ length s.batch
    → length s.batch + length es ≤ reorder_win_size
    → timeout_loop es s ≡ indicate_loop es s
unfolding timeout_loop indicate_loop
timeout_loop-eq-indicate_loop [] s p room = refl
timeout_loop-eq-indicate_loop (e ∷ es) s p room =
    rw begun (elim (Bool-cases (is_due e s.indicate_seq)) [
      | inl due ↦
          rw (due, not_full)
            (timeout_loop-eq-indicate_loop es (take_entry e es s) (longer 1)
              (unfold take_entry in omega (arith, length-append s.batch (e.prxb ∷ []))))
      | inr later ↦ rw later
    ])
  where
    begun : (length s.batch == 0) ≡ false
    begun = ground arith

    not_full : leb reorder_win_size (length s.batch) ≡ false
    not_full = ground arith

    longer : (n : ℕ) → 1 ≤ length (take_entry e es s).batch
    longer n = unfold take_entry in omega (arith, length-append s.batch (e.prxb ∷ []))

is_due_self : (e : Entry) → is_due e e.seq_num ≡ true
unfolding sn_less
is_due_self e = ground arith

abbrev empty_at : ℕ → List Entry → List Entry → Drain
empty_at start unused pending = record {
  indicate_seq = start;
  batch = [];
  unused = unused;
  pending = pending;
  in_buf = false;
}

-- The first round starts the window at the oldest number.
timeout_loop-start :
    (e : Entry) (es unused pending : List Entry) (start : ℕ)
    → length es < reorder_win_size
    → timeout_loop (e ∷ es) (empty_at start unused pending)
      ≡ indicate_loop (e ∷ es) (empty_at e.seq_num unused pending)
timeout_loop-start e es unused pending start room =
    let s = empty_at e.seq_num unused pending in
    unfold timeout_loop indicate_loop in
    rw (is_due_self e) (
      timeout_loop-eq-indicate_loop es (take_entry e es s) (unfold take_entry in omega arith)
        (unfold take_entry in omega arith))

-- The timer works as an indication from the oldest waiting packet on.
pub timeout-eq-indicate :
    (d : Stream) (e : Entry) (es : List Entry)
    → reverse d.rx_pending_pkt_list ≡ e ∷ es
    → length d.rx_pending_pkt_list ≤ reorder_win_size
    → d.rx_timeout_indicate_seq ≢ no_seq
    → rx_pkt_pending_timeout d
      ≡ indicate (record d { timer_pending = false; rx_indicate_seq = e.seq_num }) []
timeout-eq-indicate d e es oldest room mark =
    let unmarked : (d.rx_timeout_indicate_seq == no_seq) ≡ false = ground arith in
    let fits : length es < reorder_win_size =
      omega (arith, ap length oldest, length-reverse d.rx_pending_pkt_list) in
    unfold rx_pkt_pending_timeout indicate finish in
    rw (
      unmarked,
      oldest,
      timeout_loop-start e es d.rx_reorder_unused_list (e ∷ es) d.rx_indicate_seq fits,
    )
