-- ===== src/Reorder/Expiry.antt =====
-- The pending timer: RxPktPendingTimeout lets the oldest packet go, and when the timer is stopped.
use rtl8190p.Common.{ℕ, suc, ◌+◌, ◌%◌, ◌≤◌, ◌<◌, ◌≡◌, ◌≢◌, arith}
use rtl8190p.Common.{false, List, [], ◌∷◌, ◌++◌, reverse, length, length-append}
use rtl8190p.Common.{ap, sym, ◌∙◌, subst, count-nil, length-reverse, ==_iff}
use rtl8190p.SeqNum.{ahead, sn_less}
use rtl8190p.Reorder.{
  Entry, Stream, Drain, take_entry, indicate_loop, finish, indicate, win_end,
  rx_reorder_indicate_packet, rx_pkt_pending_timeout, no_seq,
}
use rtl8190p.Reorder.Order.{Asc, Desc, reverse-Asc, Asc-length}
use rtl8190p.Reorder.Indicate.{IsIndicated, indicate-IsIndicated, loop_start}
use rtl8190p.Reorder.Store.{packets}
use rtl8190p.Reorder.Outcome.{receive-matched}
use rtl8190p.Reorder.Window.{
  IsValid, idle, open_at, started, Desc-narrow, met_start, not-sn_less_self,
}
use rtl8190p.Reorder.Timeout.{timeout-eq-indicate}
use rtl8190p.Reorder.Delivery.{known, indicated-known}

-- The timer was set for the stream `d`, whose oldest waiting packet is `e`.
module _ (d : Stream) (e : Entry) (es : List Entry) (size_max : d.rx_reorder_win_size ≤ 128)
    (size_pos : 1 ≤ d.rx_reorder_win_size) (hw : d.rx_indicate_seq < 4096)
    (h : Desc d.rx_indicate_seq 1 d.rx_reorder_win_size d.rx_pending_pkt_list)
    (oldest : reverse d.rx_pending_pkt_list ≡ e ∷ es)
    (mark : d.rx_timeout_indicate_seq ≢ no_seq) where
  rising : Asc d.rx_indicate_seq 1 d.rx_reorder_win_size (e ∷ es)
  rising =
      subst (Asc d.rx_indicate_seq 1 d.rx_reorder_win_size) oldest
        (reverse-Asc d.rx_indicate_seq 1 d.rx_reorder_win_size d.rx_pending_pkt_list h)

  room : length d.rx_pending_pkt_list + 1 ≤ d.rx_reorder_win_size
  room = omega (
    arith,
    Asc-length d.rx_indicate_seq 1 d.rx_reorder_win_size (e ∷ es) rising size_pos,
    ap length oldest,
    length-reverse d.rx_pending_pkt_list,
  )

  abbrev opened : Stream
  opened = record d { timer_pending = false; rx_indicate_seq = e.seq_num }

  expired :
      IsIndicated d.rx_indicate_seq 1
        (ahead d.rx_indicate_seq e.seq_num)
        d.rx_reorder_win_size
        opened
        []
        (rx_pkt_pending_timeout d)
  expired = rw (timeout-eq-indicate d e es oldest (omega (arith, room)) mark) (
      indicate-IsIndicated d.rx_indicate_seq 1 (ahead d.rx_indicate_seq e.seq_num)
        d.rx_reorder_win_size opened [] hw (omega (arith, rising.2)) (omega arith)
        (omega (arith, rising.0)) (omega (arith, room)) h)

  pub timeout-IsValid : IsValid (rx_pkt_pending_timeout d)
  timeout-IsValid = record {
    size_pos = rw expired.size size_pos;
    size_max = rw expired.size size_max;
    window = open_at (rw expired.start (omega arith)) (
        Desc-narrow d.rx_indicate_seq expired.moved d.rx_reorder_win_size d.rx_reorder_win_size
          (rx_pkt_pending_timeout d).rx_pending_pkt_list (rx_pkt_pending_timeout d).rx_indicate_seq
          (rx_pkt_pending_timeout d).rx_reorder_win_size expired.start expired.size hw (omega arith)
          (omega arith) expired.rest);
  }

  pub timeout-known : (a : ℕ) → known a (rx_pkt_pending_timeout d) ≡ known a d
  timeout-known a = omega (
    arith,
    indicated-known a d.rx_indicate_seq 1 (ahead d.rx_indicate_seq e.seq_num) d.rx_reorder_win_size
        opened [] (rx_pkt_pending_timeout d) expired,
    count-nil a,
  )

  oldest_first :
      (taken rest : List Entry) (moved : ℕ)
      → e ∷ es ≡ taken ++ rest
      → Asc d.rx_indicate_seq (suc moved) d.rx_reorder_win_size rest
      → ahead d.rx_indicate_seq e.seq_num ≤ moved
      → (more : List Entry) × (taken ≡ e ∷ more)
  oldest_first [] rest moved split beyond due = absurd (
      omega (
        arith,
        (subst (Asc d.rx_indicate_seq (suc moved) d.rx_reorder_win_size) (sym split) beyond).1,
      ))
  oldest_first (t ∷ more) rest moved split beyond due = (more, cc)

  pub timeout-oldest :
      (more : List Entry) × ((rx_pkt_pending_timeout d).indicated
        ≡ d.indicated ++ (e.prxb ∷ packets more))
  timeout-oldest =
      let r = rx_pkt_pending_timeout d in
      let (more, first) =
        oldest_first expired.taken (reverse r.rx_pending_pkt_list) expired.moved
          (sym oldest ∙ expired.split)
          (reverse-Asc d.rx_indicate_seq (suc expired.moved) d.rx_reorder_win_size
            r.rx_pending_pkt_list expired.rest)
          expired.grown in
      (more, expired.indicated ∙ ap (λ l. d.indicated ++ packets l) first)

-- When the timer fires with packets waiting, the oldest is the first to be indicated, the window
-- invariant holds afterwards, and no packet is lost or doubled.
pub timeout_lem :
    (d : Stream) (e : Entry) (es : List Entry)
    → IsValid d
    → reverse d.rx_pending_pkt_list ≡ e ∷ es
    → d.rx_timeout_indicate_seq ≢ no_seq
    → IsValid (rx_pkt_pending_timeout d)
      × ((a : ℕ) → known a (rx_pkt_pending_timeout d) ≡ known a d)
      × ((more : List Entry) × ((rx_pkt_pending_timeout d).indicated
            ≡ d.indicated ++ (e.prxb ∷ packets more)))
timeout_lem d e es v oldest mark = elim v.window [
  | idle none_yet no_packets ↦ absurd (let none_left = ap reverse no_packets in cc)
  | open_at hw h ↦ (
    timeout-IsValid d e es v.size_max v.size_pos hw h oldest mark,
    timeout-known d e es v.size_max v.size_pos hw h oldest mark,
    timeout-oldest d e es v.size_max v.size_pos hw h oldest mark,
  )
]

loop-grows : (es : List Entry) (s : Drain) → length s.batch ≤ length (indicate_loop es s).batch
unfolding indicate_loop
loop-grows [] s = omega arith
loop-grows (e ∷ es) s = ground (arith, loop-grows es (take_entry e es s), taken_grows)
  where
    taken_grows : length s.batch ≤ length (take_entry e es s).batch
    taken_grows = unfold take_entry in omega (arith, length-append s.batch (e.prxb ∷ []))

finish-no_timer :
    (d : Stream) (s : Drain)
    → 1 ≤ length s.batch
    → ((finish d s).timer_pending ≡ false) × ((finish d s).rx_timeout_indicate_seq ≡ no_seq)
unfolding finish
finish-no_timer d s h = (ground arith, ground arith)

indicate-no_timer :
    (d : Stream) (batch : List ℕ)
    → 1 ≤ length batch
    → ((indicate d batch).timer_pending ≡ false)
      × ((indicate d batch).rx_timeout_indicate_seq ≡ no_seq)
unfolding indicate
indicate-no_timer d batch h =
    let s = loop_start d batch in
    finish-no_timer d (indicate_loop (reverse d.rx_pending_pkt_list) s)
      (omega (arith, h, loop-grows (reverse d.rx_pending_pkt_list) s))

-- A packet that matches the window start leaves the timer stopped and unmarked, whatever packets
-- stay in the buffer behind a gap.
pub rx_reorder-no_timer :
    (d : Stream) (prxb seq : ℕ)
    → seq ≡ met_start d seq
    → ((rx_reorder_indicate_packet d prxb seq).timer_pending ≡ false)
      × ((rx_reorder_indicate_packet d prxb seq).rx_timeout_indicate_seq ≡ no_seq)
unfolding rx_reorder_indicate_packet
rx_reorder-no_timer d prxb seq e =
    let ge = subst (λ n. sn_less seq n ≡ false) e (not-sn_less_self seq) in
    let m = (==_iff seq (met_start d seq)).1 e in
    rw
      (receive-matched (win_end d.rx_indicate_seq d.rx_reorder_win_size) (started d seq) prxb seq ge
        m)
      (indicate-no_timer (record d { rx_indicate_seq = (met_start d seq + 1) % 4096 }) (prxb ∷ [])
        (omega arith))
