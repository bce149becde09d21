-- ===== src/Reorder/Outcome.antt =====
-- RxReorderIndicatePacket: the outcomes of a packet.
use rtl8190p.Common.{ℕ, ◌+◌, ◌-◌, ◌%◌, ◌^◌, ◌≤◌, ◌<◌, ◌≡◌, inl, inr, refl, arith}
use rtl8190p.Common.{true, false, List, [], ◌∷◌, ◌++◌, length, ◌==◌, leb, ==_iff}
use rtl8190p.Common.{Bool-cases, length-reverse}
use rtl8190p.SeqNum.{sn_less, ahead, sn_less_iff}
use rtl8190p.Reorder.{Entry, Stream, win_end, shift_window, receive, indicate, store_packet}
use rtl8190p.Reorder.Order.{Desc, Desc-weaken, Asc-length, reverse-Asc}
use rtl8190p.Reorder.Indicate.{IsIndicated, indicate-IsIndicated}
use rtl8190p.Reorder.Store.{IsStored, store_packet-IsStored}

-- How far the start moves for a packet `n` ahead that must be the last of the window.
abbrev pub shift_by : ℕ → ℕ → ℕ
shift_by size n = n + 1 - size

-- What happened to the packet `prxb` numbered `seq`, received at the start `w`.
pub data Outcome (w : ℕ) (d : Stream) (prxb seq : ℕ) (r : Stream) : Type 0 where
  behind :
      2048 ≤ ahead w seq
      → r ≡ record d {
        rx_indicate_seq = w;
        rx_reorder_drop_counter = (d.rx_reorder_drop_counter + 1) % 2 ^ 16;
        freed = d.freed ++ (prxb ∷ []);
      }
      → Outcome w d prxb seq r
  matched :
      ahead w seq ≡ 0
      → IsIndicated w 1 1 d.rx_reorder_win_size
          (record d { rx_indicate_seq = (w + 1) % 4096 })
          (prxb ∷ [])
          r
      → Outcome w d prxb seq r
  stored :
      (m : Stream)
      → 1 ≤ ahead w seq
      → ahead w seq < 2048
      → IsStored w 1
          (shift_by d.rx_reorder_win_size (ahead w seq) + d.rx_reorder_win_size)
          (record d { rx_indicate_seq = (w + shift_by d.rx_reorder_win_size (ahead w seq)) % 4096 })
          prxb
          seq
          m
      → IsIndicated w 1
          (shift_by d.rx_reorder_win_size (ahead w seq))
          (shift_by d.rx_reorder_win_size (ahead w seq) + d.rx_reorder_win_size)
          m
          []
          r
      → Outcome w d prxb seq r

-- WinEnd is the last number of the window: beyond it are those at least the size ahead.
less_win_end :
    (w size seq : ℕ)
    → w < 4096
    → seq < 4096
    → 1 ≤ size
    → size ≤ 128
    → ahead w seq < 2048
    → sn_less (win_end w size) seq ≡ leb size (ahead w seq)
unfolding sn_less win_end
less_win_end w size seq hw hs p q r = ground arith

pub shift_window-ahead :
    (w size seq : ℕ)
    → w < 4096
    → seq < 4096
    → 1 ≤ size
    → size ≤ 128
    → size ≤ ahead w seq
    → shift_window seq size ≡ (w + shift_by size (ahead w seq)) % 4096
unfolding shift_window
shift_window-ahead w size seq hw hs p q r = ground arith

pending-lt-size :
    (w size : ℕ) (es : List Entry) → 1 ≤ size → Desc w 1 size es → length es + 1 ≤ size
pending-lt-size w size es p h =
    omega (arith, Asc-length w 1 size _ (reverse-Asc w 1 size es h) p, length-reverse es)

receive-behind :
    (last : ℕ) (d : Stream) (prxb seq : ℕ)
    → sn_less seq d.rx_indicate_seq ≡ true
    → receive last d prxb seq ≡ record d {
      rx_reorder_drop_counter = (d.rx_reorder_drop_counter + 1) % 2 ^ 16;
      freed = d.freed ++ (prxb ∷ []);
    }
unfolding receive
receive-behind last d prxb seq less = rw less

module _ (last : ℕ) (d : Stream) (prxb seq : ℕ) (ge : sn_less seq d.rx_indicate_seq ≡ false) where
  pub receive-matched :
      (seq == d.rx_indicate_seq) ≡ true
      → receive last d prxb seq
        ≡ indicate (record d { rx_indicate_seq = (d.rx_indicate_seq + 1) % 4096 }) (prxb ∷ [])
  unfolding receive
  receive-matched m = rw (ge, m)

  receive-beyond :
      (seq == d.rx_indicate_seq) ≡ false
      → sn_less last seq ≡ true
      → receive last d prxb seq
        ≡ indicate
            (store_packet
              (record d { rx_indicate_seq = shift_window seq d.rx_reorder_win_size })
              prxb
              seq)
            []
  unfolding receive
  receive-beyond m b = rw (ge, m, b)

  receive-inside :
      (seq == d.rx_indicate_seq) ≡ false
      → sn_less last seq ≡ false
      → receive last d prxb seq ≡ indicate (store_packet d prxb seq) []
  unfolding receive
  receive-inside m b = rw (ge, m, b)

module _ (d : Stream) (prxb seq : ℕ) (hw : d.rx_indicate_seq < 4096) (hs : seq < 4096)
    (size_pos : 1 ≤ d.rx_reorder_win_size) (size_max : d.rx_reorder_win_size ≤ 128)
    (window : Desc d.rx_indicate_seq 1 d.rx_reorder_win_size d.rx_pending_pkt_list) where
  abbrev pub offset : ℕ
  offset = ahead d.rx_indicate_seq seq

  abbrev pub jump : ℕ
  jump = shift_by d.rx_reorder_win_size offset

  pub matched-Outcome :
      seq ≡ d.rx_indicate_seq
      → Outcome d.rx_indicate_seq d prxb seq
          (indicate (record d { rx_indicate_seq = (d.rx_indicate_seq + 1) % 4096 }) (prxb ∷ []))
  matched-Outcome e = matched (omega arith) (
      indicate-IsIndicated d.rx_indicate_seq 1 1 d.rx_reorder_win_size
        (record d { rx_indicate_seq = (d.rx_indicate_seq + 1) % 4096 }) (prxb ∷ []) hw (omega arith)
        (omega arith) refl
        (omega (
          arith,
          pending-lt-size d.rx_indicate_seq d.rx_reorder_win_size d.rx_pending_pkt_list size_pos
              window,
        ))
        window)

  stored-Outcome :
      (start : ℕ)
      → start ≡ (d.rx_indicate_seq + jump) % 4096
      → 1 ≤ offset
      → offset < 2048
      → Outcome d.rx_indicate_seq d prxb seq
          (indicate (store_packet (record d { rx_indicate_seq = start }) prxb seq) [])
  stored-Outcome start e p q =
      let base = record d { rx_indicate_seq = (d.rx_indicate_seq + jump) % 4096 } in
      let m = store_packet base prxb seq in
      let s : IsStored d.rx_indicate_seq 1 (jump + d.rx_reorder_win_size) base prxb seq m =
        store_packet-IsStored d.rx_indicate_seq 1 (jump + d.rx_reorder_win_size) base prxb seq hw hs
          (omega arith) p (omega arith)
          (Desc-weaken d.rx_indicate_seq 1 d.rx_reorder_win_size (jump + d.rx_reorder_win_size)
            d.rx_pending_pkt_list (omega arith) window) in
      rw e (
        stored m p q s (
          indicate-IsIndicated d.rx_indicate_seq 1 jump (jump + d.rx_reorder_win_size) m [] hw
            (omega arith) (omega arith) s.start
            (omega (
              arith,
              s.longer,
              pending-lt-size d.rx_indicate_seq d.rx_reorder_win_size d.rx_pending_pkt_list size_pos
                  window,
            ))
            s.ordered))

  pub receive-Outcome :
      Outcome d.rx_indicate_seq d prxb seq
        (receive (win_end d.rx_indicate_seq d.rx_reorder_win_size) d prxb seq)
  receive-Outcome = elim (Bool-cases (sn_less seq d.rx_indicate_seq)) [
    | inl less ↦
        behind (omega (arith, (sn_less_iff seq d.rx_indicate_seq hs hw).0 less))
          (receive-behind (win_end d.rx_indicate_seq d.rx_reorder_win_size) d prxb seq less)
    | inr ge ↦
        let near : offset < 2048 = ground (arith, (sn_less_iff seq d.rx_indicate_seq hs hw).1) in
        elim (Bool-cases (seq == d.rx_indicate_seq)) [
          | inl m ↦
              rw (receive-matched last d prxb seq ge m)
                (matched-Outcome ((==_iff seq d.rx_indicate_seq).0 m))
          | inr m ↦
              let ahead_pos : 1 ≤ offset = ground arith in
              let test =
                less_win_end d.rx_indicate_seq d.rx_reorder_win_size seq hw hs size_pos size_max
                  near in
              elim (Bool-cases (sn_less last seq)) [
                | inl b ↦ rw (receive-beyond last d prxb seq ge m b) (
                    stored-Outcome (shift_window seq d.rx_reorder_win_size)
                      (shift_window-ahead d.rx_indicate_seq d.rx_reorder_win_size seq hw hs size_pos
                        size_max (ground arith))
                      ahead_pos near)
                | inr b ↦
                    rw (receive-inside last d prxb seq ge m b)
                      (stored-Outcome d.rx_indicate_seq (ground arith) ahead_pos near)
              ]
        ]
  ]
    where
      last : ℕ
      last = win_end d.rx_indicate_seq d.rx_reorder_win_size
