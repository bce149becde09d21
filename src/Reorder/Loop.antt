-- ===== src/Reorder/Loop.antt =====
-- The loop of RxReorderIndicatePacket over the waiting packets, oldest first.
use mathlib.Core.List.{append_assoc, append-nil}
use rtl8190p.Common.{ℕ, suc, ◌+◌, ◌%◌, ◌≤◌, ◌<◌, ◌≡◌, ◌⊎◌, inl, inr, refl, arith}
use rtl8190p.Common.{true, false, if◌then◌else◌, List, [], ◌∷◌, ◌++◌, map}
use rtl8190p.Common.{leb, ◌==◌, length, length-append, Bool-cases, ap, sym, ◌∙◌}
use rtl8190p.SeqNum.{sn_less, ahead}
use rtl8190p.Reorder.{Entry, Drain, take_entry, indicate_loop, is_due, reorder_win_size}
use rtl8190p.Reorder.Order.{Asc}

-- With the start `k` ahead of `w`, a packet is due exactly when it lies at most `k` ahead.
pub is_due-ahead :
    (w k : ℕ) (e : Entry)
    → w < 4096
    → e.seq_num < 4096
    → k ≤ 2048
    → ahead w e.seq_num < 2048
    → is_due e ((w + k) % 4096) ≡ leb (ahead w e.seq_num) k
unfolding sn_less
is_due-ahead w k e hw he hk hd = ground arith

is_start-ahead :
    (w k : ℕ) (e : Entry)
    → w < 4096
    → e.seq_num < 4096
    → k ≤ 2048
    → ahead w e.seq_num < 2048
    → (e.seq_num == (w + k) % 4096) ≡ (ahead w e.seq_num == k)
is_start-ahead w k e hw he hk hd = ground arith

-- What the loop did to the list `es` from the state `s`, its start `k` ahead of `w`.
pub record IsDrained (w lo k hi : ℕ) (es : List Entry) (s r : Drain) : Type 0 where
  pub taken : List Entry
  pub moved : ℕ
  pub split : es ≡ taken ++ r.pending
  pub batched : r.batch ≡ s.batch ++ map (λ e. e.prxb) taken
  pub released : r.unused ≡ s.unused ++ taken
  pub start : r.indicate_seq ≡ (w + moved) % 4096
  pub grown : k ≤ moved
  pub bounded : (moved ≡ k) ⊎ (moved ≤ hi)
  pub before : Asc w lo moved taken
  pub rest : Asc w (suc moved) hi r.pending

step_start :
    (w k : ℕ) (e : Entry) (es : List Entry) (s : Drain)
    → w < 4096
    → e.seq_num < 4096
    → k ≤ 2048
    → ahead w e.seq_num < 2048
    → s.indicate_seq ≡ (w + k) % 4096
    → ahead w e.seq_num ≤ k
    → (take_entry e es s).indicate_seq ≡ (w + (if ahead w e.seq_num == k then suc k else k)) % 4096
unfolding take_entry
step_start w k e es s hw he hk hd hs due = ground (arith, is_start-ahead w k e)

loop_takes :
    (e : Entry) (es : List Entry) (s : Drain)
    → is_due e s.indicate_seq ≡ true
    → length s.batch < reorder_win_size
    → indicate_loop (e ∷ es) s ≡ indicate_loop es (take_entry e es s)
unfolding indicate_loop
loop_takes e es s due room = rw due (ground arith)

loop_stops :
    (e : Entry) (es : List Entry) (s : Drain)
    → is_due e s.indicate_seq ≡ false
    → indicate_loop (e ∷ es) s ≡ record s { pending = e ∷ es; in_buf = true }
unfolding indicate_loop
loop_stops e es s later = rw later

-- One round before a drained rest.
IsDrained-cons :
    (w lo k hi : ℕ) (e : Entry) (es : List Entry) (s r : Drain)
    → Asc w lo hi (e ∷ es)
    → ahead w e.seq_num ≤ k
    → IsDrained w
        (suc (ahead w e.seq_num))
        (if ahead w e.seq_num == k then suc k else k)
        hi
        es
        (take_entry e es s)
        r
    → IsDrained w lo k hi (e ∷ es) s r
unfolding take_entry
IsDrained-cons w lo k hi e es s r h near d = record {
  taken = e ∷ d.taken;
  moved = d.moved;
  split = ap (λ l. e ∷ l) d.split;
  batched = d.batched ∙ append_assoc s.batch (e.prxb ∷ []) (map (λ e. e.prxb) d.taken);
  released = d.released ∙ append_assoc s.unused (e ∷ []) d.taken;
  start = d.start;
  grown = ground (arith, d.grown);
  bounded = ground (arith, d.grown, d.bounded, h.2);
  before = (h.0, h.1, ground (arith, d.grown), d.before);
  rest = d.rest;
}

pub indicate_loop-IsDrained :
    (w lo k hi : ℕ) (es : List Entry) (s : Drain)
    → w < 4096
    → k ≤ 2048
    → hi ≤ 2048
    → s.indicate_seq ≡ (w + k) % 4096
    → length s.batch + length es ≤ reorder_win_size
    → Asc w lo hi es
    → IsDrained w lo k hi es s (indicate_loop es s)
indicate_loop-IsDrained w lo k hi [] s hw hk hh hs room h =
    unfold indicate_loop in
    record {
      taken = [];
      moved = k;
      split = refl;
      batched = sym (append-nil s.batch);
      released = sym (append-nil s.unused);
      start = hs;
      grown = omega arith;
      bounded = inl refl;
      before = tt;
      rest = tt;
    }
indicate_loop-IsDrained w lo k hi (e ∷ es) s hw hk hh hs room h =
    elim (Bool-cases (leb (ahead w e.seq_num) k)) [
      | inl near ↦
          let close : ahead w e.seq_num ≤ k = ground arith in
          let due : is_due e s.indicate_seq ≡ true =
            ap (is_due e) hs ∙ is_due-ahead w k e hw h.0 (omega arith) (omega arith) ∙ near in
          let k' = if ahead w e.seq_num == k then suc k else k in
          let d : IsDrained w (suc (ahead w e.seq_num)) k' hi es (take_entry e es s)
              (indicate_loop es (take_entry e es s)) =
            indicate_loop-IsDrained w (suc (ahead w e.seq_num)) k' hi es (take_entry e es s) hw
              (ground arith) hh (step_start w k e es s hw h.0 (omega arith) (omega arith) hs close)
              (unfold take_entry in omega (arith, length-append s.batch (e.prxb ∷ []))) h.3 in
          rw (loop_takes e es s due (omega arith))
            (IsDrained-cons w lo k hi e es s (indicate_loop es (take_entry e es s)) h close d)
      | inr far ↦
          let later : is_due e s.indicate_seq ≡ false =
            ap (is_due e) hs ∙ is_due-ahead w k e hw h.0 (omega arith) (omega arith) ∙ far in
          let beyond : k < ahead w e.seq_num = ground arith in
          rw (loop_stops e es s later) (record {
            taken = [];
            moved = k;
            split = refl;
            batched = sym (append-nil s.batch);
            released = sym (append-nil s.unused);
            start = hs;
            grown = omega arith;
            bounded = inl refl;
            before = tt;
            rest = (h.0, beyond, h.2, h.3);
          })
    ]
