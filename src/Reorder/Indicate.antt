-- ===== src/Reorder/Indicate.antt =====
-- From the loop to the end of RxReorderIndicatePacket: what is indicated and what stays.
use mathlib.Core.List.{append-nil, reverse-reverse}
use rtl8190p.Common.{ℕ, suc, ◌+◌, ◌%◌, ◌≤◌, ◌<◌, ◌≡◌, ◌⊎◌, refl, arith}
use rtl8190p.Common.{false, List, [], ◌∷◌, ◌++◌, map, reverse, length}
use rtl8190p.Common.{length-reverse, length-append, length-map, ap, sym, ◌∙◌}
use rtl8190p.Reorder.{Entry, Stream, Drain, finish, indicate, indicate_loop, reorder_win_size}
use rtl8190p.Reorder.Order.{Asc, Desc, reverse-Asc, reverse-Desc}
use rtl8190p.Reorder.Loop.{IsDrained, indicate_loop-IsDrained}

-- `finish` takes the loop's results over; nothing is lost if the batch fits the array.
pub record IsFinished (d : Stream) (s : Drain) (r : Stream) : Type 0 where
  pub start : r.rx_indicate_seq ≡ s.indicate_seq
  pub pending : r.rx_pending_pkt_list ≡ reverse s.pending
  pub unused : r.rx_reorder_unused_list ≡ s.unused
  pub indicated : r.indicated ≡ d.indicated ++ s.batch
  pub freed : r.freed ≡ d.freed
  pub size : r.rx_reorder_win_size ≡ d.rx_reorder_win_size
  pub dropped : r.rx_reorder_drop_counter ≡ d.rx_reorder_drop_counter

nil_of_length : (l : List ℕ) → length l ≡ 0 → l ≡ []
nil_of_length [] h = refl
nil_of_length (x ∷ l) h = absurd (omega arith)

pub finish-IsFinished :
    (d : Stream) (s : Drain) → length s.batch ≤ reorder_win_size → IsFinished d s (finish d s)
unfolding finish
finish-IsFinished d s h = record {
  start = ground arith;
  pending = ground arith;
  unused = ground arith;
  indicated = ground (arith, append-nil d.indicated, nil_of_length s.batch);
  freed = ground arith;
  size = ground arith;
  dropped = ground arith;
}

-- The stream `r` after `batch` and the packets due were indicated from `d`, whose window start
-- is `k` ahead of `w`: the taken packets go out oldest first, the others lie beyond the start.
pub record IsIndicated (w lo k hi : ℕ) (d : Stream) (batch : List ℕ) (r : Stream) : Type 0 where
  pub taken : List Entry
  pub moved : ℕ
  pub split : reverse d.rx_pending_pkt_list ≡ taken ++ reverse r.rx_pending_pkt_list
  pub indicated : r.indicated ≡ d.indicated ++ (batch ++ map (λ e. e.prxb) taken)
  pub unused : r.rx_reorder_unused_list ≡ d.rx_reorder_unused_list ++ taken
  pub freed : r.freed ≡ d.freed
  pub size : r.rx_reorder_win_size ≡ d.rx_reorder_win_size
  pub dropped : r.rx_reorder_drop_counter ≡ d.rx_reorder_drop_counter
  pub start : r.rx_indicate_seq ≡ (w + moved) % 4096
  pub grown : k ≤ moved
  pub bounded : (moved ≡ k) ⊎ (moved ≤ hi)
  pub before : Asc w lo moved taken
  pub rest : Desc w (suc moved) hi r.rx_pending_pkt_list

abbrev pub loop_start : Stream → List ℕ → Drain
loop_start d batch = record {
  indicate_seq = d.rx_indicate_seq;
  batch = batch;
  unused = d.rx_reorder_unused_list;
  pending = reverse d.rx_pending_pkt_list;
  in_buf = false;
}

IsIndicated-of_parts :
    (w lo k hi : ℕ) (d : Stream) (batch : List ℕ) (s : Drain) (r : Stream)
    → IsDrained w lo k hi (reverse d.rx_pending_pkt_list) (loop_start d batch) s
    → IsFinished d s r
    → IsIndicated w lo k hi d batch r
IsIndicated-of_parts w lo k hi d batch s r a b = record {
  taken = a.taken;
  moved = a.moved;
  split =
      a.split
      ∙ ap (λ l. a.taken ++ l) (sym (reverse-reverse s.pending) ∙ ap reverse (sym b.pending));
  indicated = b.indicated ∙ ap (λ l. d.indicated ++ l) a.batched;
  unused = b.unused ∙ a.released;
  freed = b.freed;
  size = b.size;
  dropped = b.dropped;
  start = b.start ∙ a.start;
  grown = a.grown;
  bounded = a.bounded;
  before = a.before;
  rest = rw b.pending (reverse-Desc w (suc a.moved) hi s.pending a.rest);
}

batch-fits :
    (w lo k hi : ℕ) (d : Stream) (batch : List ℕ) (s : Drain)
    → IsDrained w lo k hi (reverse d.rx_pending_pkt_list) (loop_start d batch) s
    → length batch + length d.rx_pending_pkt_list ≤ reorder_win_size
    → length s.batch ≤ reorder_win_size
batch-fits w lo k hi d batch s a h = omega (
  arith,
  ap length a.batched,
  length-append batch (map (λ e. e.prxb) a.taken),
  length-map (λ (e : Entry). e.prxb) a.taken,
  ap length a.split,
  length-append a.taken s.pending,
  length-reverse d.rx_pending_pkt_list,
)

pub indicate-IsIndicated :
    (w lo k hi : ℕ) (d : Stream) (batch : List ℕ)
    → w < 4096
    → k ≤ 2048
    → hi ≤ 2048
    → d.rx_indicate_seq ≡ (w + k) % 4096
    → length batch + length d.rx_pending_pkt_list ≤ reorder_win_size
    → Desc w lo hi d.rx_pending_pkt_list
    → IsIndicated w lo k hi d batch (indicate d batch)
indicate-IsIndicated w lo k hi d batch hw hk hh hs room h =
    let s = indicate_loop (reverse d.rx_pending_pkt_list) (loop_start d batch) in
    let a : IsDrained w lo k hi (reverse d.rx_pending_pkt_list) (loop_start d batch) s =
      indicate_loop-IsDrained w lo k hi (reverse d.rx_pending_pkt_list) (loop_start d batch) hw hk
        hh hs (omega (arith, length-reverse d.rx_pending_pkt_list))
        (reverse-Asc w lo hi d.rx_pending_pkt_list h) in
    unfold indicate in
    IsIndicated-of_parts w lo k hi d batch s (finish d s) a
      (finish-IsFinished d s (batch-fits w lo k hi d batch s a room))
