-- ===== src/Reorder.antt =====
-- The receive reorder buffer of src/rtllib_rx.c and its timer in src/rtl819x_TSProc.c.
-- One traffic stream (RX_TS_RECORD) with the pool of reorder entries. A packet is the handle of
-- its `struct rtllib_rxb`; `indicated` and `freed` record, in order, the handles given to
-- rtllib_indicate_packets and those whose memory is released.
pub mod Order
pub mod Insert
pub mod Loop
pub mod Indicate
pub mod Store
pub mod Outcome
pub mod Window
pub mod Timeout
pub mod Sent
pub mod Delivery
pub mod Expiry
mod Tests
use rtl8190p.Common.{ℕ, zero, suc, ◌+◌, ◌-◌, ◌%◌, ◌^◌, ◌==◌, ltb, leb, if◌then◌else◌}
use rtl8190p.Common.{Bool, true, false, ◌&&◌, ◌||◌, Option, none, some, List, [], ◌∷◌, ◌++◌}
use rtl8190p.Common.{length, reverse}
use rtl8190p.SeqNum.{sn_less, sn_equal}
use mathlib.Core.Option

-- RX_REORDER_ENTRY; `id` is its place in ieee->RxReorderEntry.
pub record Entry : Type 0 where
  pub id : ℕ
  pub seq_num : ℕ
  pub prxb : ℕ

-- REORDER_WIN_SIZE and REORDER_ENTRY_NUM
abbrev pub reorder_win_size : ℕ
reorder_win_size = 128

-- The mark "no sequence number" of RxIndicateSeq and RxTimeoutIndicateSeq.
abbrev pub no_seq : ℕ
no_seq = 0xffff

-- `rx_pending_pkt_list` runs from the list head along `next`, so the newest packet is first.
pub record Stream : Type 0 where
  pub rx_indicate_seq : ℕ
  pub rx_timeout_indicate_seq : ℕ
  pub rx_pending_pkt_list : List Entry
  pub timer_pending : Bool
  pub rx_reorder_unused_list : List Entry
  pub rx_reorder_win_size : ℕ
  pub rx_reorder_drop_counter : ℕ
  pub indicated : List ℕ
  pub freed : List ℕ

-- AddReorderEntry: walk from the list head past every larger number; `none` is a duplicate.
pub add_reorder_entry : Entry → List Entry → Option (List Entry)
add_reorder_entry e [] = some (e ∷ [])
add_reorder_entry e (x ∷ xs) =
    if sn_less e.seq_num x.seq_num
    then Option.map (λ l. x ∷ l) (add_reorder_entry e xs)
    else if sn_equal e.seq_num x.seq_num
    then none
    else some (e ∷ x ∷ xs)

-- The variables of the indication loop. `pending` is read from `RxPendingPktList.prev` on, so
-- here the oldest packet is first; `index` of the source is the length of `batch`.
pub record Drain : Type 0 where
  pub indicate_seq : ℕ
  pub batch : List ℕ
  pub unused : List Entry
  pub pending : List Entry
  pub in_buf : Bool

-- The entry leaves the pending list: the window start moves on if it is the start, the packet
-- goes to the indication array and the entry to the tail of the unused list.
pub take_entry : Entry → List Entry → Drain → Drain
take_entry e es s = record s {
  indicate_seq =
      if sn_equal e.seq_num s.indicate_seq then (s.indicate_seq + 1) % 4096 else s.indicate_seq;
  batch = s.batch ++ (e.prxb ∷ []);
  unused = s.unused ++ (e ∷ []);
  pending = es;
}

abbrev pub is_due : Entry → ℕ → Bool
is_due e w = sn_less e.seq_num w || sn_equal e.seq_num w

-- The `while` loop of RxReorderIndicatePacket.
pub indicate_loop : List Entry → Drain → Drain
unfolding take_entry
indicate_loop [] s = record s { pending = [] }
indicate_loop (e ∷ es) s =
    if is_due e s.indicate_seq
    then if leb reorder_win_size (length s.batch)
      then record s { pending = e ∷ es; in_buf = true }
      else indicate_loop es (take_entry e es s)
    else record s { pending = e ∷ es; in_buf = true }

-- `WinEnd`; in C the remainder of -1 is -1, stored into a `u16`.
pub win_end : ℕ → ℕ → ℕ
win_end start size = if start + size == 0 then 0xffff else (start + size - 1) % 4096

-- The window start once a packet ahead of `WinEnd` came in; the arithmetic is that of `int`,
-- stored into a `u16`.
pub shift_window : ℕ → ℕ → ℕ
shift_window seq size =
    if leb (size - 1) seq
    then (seq + 1 - size) % 2 ^ 16
    else (4095 + 1 - (size - (seq + 1))) % 2 ^ 16

-- The packet is put into the pending list, or dropped as a duplicate or for want of an entry.
pub store_packet : Stream → ℕ → ℕ → Stream
unfolding add_reorder_entry
store_packet d prxb seq = elim d.rx_reorder_unused_list [
  | [] ↦ record d { freed = d.freed ++ (prxb ∷ []) }
  | free ∷ others ↦
      let e = record free { seq_num = seq; prxb = prxb } in
      elim (add_reorder_entry e d.rx_pending_pkt_list) [
        | none ↦ record d {
          rx_reorder_unused_list = others ++ (e ∷ []);
          freed = d.freed ++ (prxb ∷ []);
        }
        | some list ↦ record d { rx_reorder_unused_list = others; rx_pending_pkt_list = list }
      ]
]

-- What follows the loop: the batch is indicated and the timer stopped, or the timer is set for
-- what stays in the buffer.
pub finish : Stream → Drain → Stream
finish d s =
    let d' = record d {
      rx_indicate_seq = s.indicate_seq;
      rx_pending_pkt_list = reverse s.pending;
      rx_reorder_unused_list = s.unused;
    } in
    let sent = record d' {
      timer_pending = false;
      rx_timeout_indicate_seq = no_seq;
      indicated = d.indicated ++ s.batch;
    } in
    let lost = record d' { timer_pending = false; rx_timeout_indicate_seq = no_seq } in
    let waiting = record d' { timer_pending = true; rx_timeout_indicate_seq = s.indicate_seq } in
    if ltb 0 (length s.batch)
    then if ltb reorder_win_size (length s.batch) then lost else sent
    else if s.in_buf && d.rx_timeout_indicate_seq == no_seq
    then waiting
    else d'

-- From the loop on: `batch` holds the packet that matched the window start, if it did.
pub indicate : Stream → List ℕ → Stream
unfolding indicate_loop finish
indicate d batch = finish d (
    indicate_loop (reverse d.rx_pending_pkt_list) (record {
      indicate_seq = d.rx_indicate_seq;
      batch = batch;
      unused = d.rx_reorder_unused_list;
      pending = reverse d.rx_pending_pkt_list;
      in_buf = false;
    }))

-- RxReorderIndicatePacket with the window start set: `last` is `WinEnd`.
pub receive : ℕ → Stream → ℕ → ℕ → Stream
unfolding store_packet indicate shift_window
receive last d prxb seq =
    if sn_less seq d.rx_indicate_seq
    then record d {
      rx_reorder_drop_counter = (d.rx_reorder_drop_counter + 1) % 2 ^ 16;
      freed = d.freed ++ (prxb ∷ []);
    }
    else if sn_equal seq d.rx_indicate_seq
    then indicate (record d { rx_indicate_seq = (d.rx_indicate_seq + 1) % 4096 }) (prxb ∷ [])
    else if sn_less last seq
    then indicate
        (store_packet (record d { rx_indicate_seq = shift_window seq d.rx_reorder_win_size }) prxb
          seq)
        []
    else indicate (store_packet d prxb seq) []

-- RxReorderIndicatePacket
pub rx_reorder_indicate_packet : Stream → ℕ → ℕ → Stream
unfolding receive win_end
rx_reorder_indicate_packet d prxb seq =
    let last = win_end d.rx_indicate_seq d.rx_reorder_win_size in
    let start = if d.rx_indicate_seq == no_seq then seq else d.rx_indicate_seq in
    receive last (record d { rx_indicate_seq = start }) prxb seq

-- The `while` loop of RxPktPendingTimeout: at the first round the window start becomes the
-- oldest waiting number.
pub timeout_loop : List Entry → Drain → Drain
unfolding take_entry
timeout_loop [] s = record s { pending = [] }
timeout_loop (e ∷ es) s =
    let start = if length s.batch == 0 then e.seq_num else s.indicate_seq in
    let s' = record s { indicate_seq = start } in
    if is_due e start
    then timeout_loop es (take_entry e es s')
    else record s' { pending = e ∷ es; in_buf = true }

-- RxPktPendingTimeout; a timer that has fired is not pending.
pub rx_pkt_pending_timeout : Stream → Stream
unfolding timeout_loop finish
rx_pkt_pending_timeout d =
    let fired = record d { timer_pending = false } in
    let s : Drain = record {
      indicate_seq = d.rx_indicate_seq;
      batch = [];
      unused = d.rx_reorder_unused_list;
      pending = reverse d.rx_pending_pkt_list;
      in_buf = false;
    } in
    if d.rx_timeout_indicate_seq == no_seq
    then finish fired s
    else finish fired (timeout_loop (reverse d.rx_pending_pkt_list) s)
