-- ===== src/Ba/Timers.antt =====
-- The timers of a transmit stream over every sequence of events, from one use of it to the next.
use rtl8190p.Common.{ℕ, ◌≡◌, arith, Bool, true, false}
use rtl8190p.Ts.{BaParamSet, TsCommonInfo, TxTs, renew_tx}
use rtl8190p.Ba.{
  ts_init_add_ba, on_addba_rsp, on_delba, ba_setup_time_out, tx_ba_inact_timeout,
  ts_start_add_ba_process, ts_add_ba_process,
}
use rtl8190p.Ba.Receive.{remove_tx_ts_entry}

-- A stream, and whether it is admitted or stands in the list of unused ones.
pub record Held : Type 0 where
  pub in_use : Bool
  pub ts : TxTs

abbrev pub used : TxTs → Held
used t = record { in_use = true; ts = t }

abbrev pub unused : TxTs → Held
unused t = record { in_use = false; ts = t }

-- The events of a transmit stream. Frames find it only while it is in use; a timer fires whenever it
-- is pending. RemovePeerTS and RemoveAllTS take it out of use, and GetTs renews an unused one.
pub data Step : Held → Held → Type 0 where
  start : (t : TxTs) → Step (used t) (used (ts_start_add_ba_process t))
  request :
      (t : TxTs) (policy : ℕ) (overwrite : Bool)
      → Step (used t) (used (ts_init_add_ba t policy overwrite).1)
  response :
      (t : TxTs) (token status : ℕ) (param : BaParamSet) (timeout : ℕ)
      → Step (used t) (used (on_addba_rsp t token status param timeout).1)
  delba : (t : TxTs) → Step (used t) (used (on_delba t))
  sends : (t : TxTs) (seq : ℕ) → Step (used t) (used (record t { tx_cur_seq = seq }))
  aggregates : (t : TxTs) → Step (used t) (used (record t { using_ba = true }))
  process :
      (h : Held)
      → h.ts.ts_add_ba_timer ≡ true
      → Step h (record h { ts = (ts_add_ba_process h.ts).1 })
  setup_expires :
      (h : Held)
      → h.ts.tx_pending_ba.timer ≡ true
      → Step h (record h { ts = ba_setup_time_out h.ts })
  inact_expires :
      (h : Held)
      → h.ts.tx_admitted_ba.timer ≡ true
      → Step h (record h { ts = tx_ba_inact_timeout h.ts })
  removed : (t : TxTs) → Step (used t) (unused (remove_tx_ts_entry t).1)
  renewed : (t : TxTs) (f : TsCommonInfo → TsCommonInfo) → Step (unused t) (used (renew_tx f t))

pub data Reach (s : Held) : Held → Type 0 where
  here : Reach s s
  next : {t u : Held} → Reach s t → Step t u → Reach s u

-- A request that waits for its answer has its timer running, and no other timer of a session runs
-- without the session; a stream that is not in use has no session, no request and no timer of them.
pub record TimersOk (h : Held) : Type 0 where
  pub pending : h.ts.tx_pending_ba.timer ≡ h.ts.tx_pending_ba.valid
  pub admitted : h.ts.tx_admitted_ba.timer ≡ true → h.ts.tx_admitted_ba.valid ≡ true
  pub no_request : h.in_use ≡ false → h.ts.tx_pending_ba.valid ≡ false
  pub no_session : h.in_use ≡ false → h.ts.tx_admitted_ba.valid ≡ false
  pub no_timer : h.in_use ≡ false → h.ts.ts_add_ba_timer ≡ false

pub Step-TimersOk : {t u : Held} → Step t u → TimersOk t → TimersOk u
unfolding ts_init_add_ba on_addba_rsp on_delba ba_setup_time_out tx_ba_inact_timeout
    ts_start_add_ba_process ts_add_ba_process remove_tx_ts_entry renew_tx
Step-TimersOk (start t) v = ground arith
Step-TimersOk (request t policy overwrite) v = ground arith
Step-TimersOk (response t token status param timeout) v = ground arith
Step-TimersOk (delba t) v = ground arith
Step-TimersOk (sends t seq) v = ground arith
Step-TimersOk (aggregates t) v = ground arith
Step-TimersOk (process h p) v = ground arith
Step-TimersOk (setup_expires h p) v = ground arith
Step-TimersOk (inact_expires h p) v = ground arith
Step-TimersOk (removed t) v = ground arith
Step-TimersOk (renewed t f) v = ground arith

-- Over every sequence of events, from the use of a stream by one peer to its use by the next, a
-- request that waits has its timer running and no other one has, no inactivity timer outlives its
-- session, and an unused stream has no session, no request and no timer for making one.
pub Reach-TimersOk : {s t : Held} → TimersOk s → Reach s t → TimersOk t
Reach-TimersOk v here = v
Reach-TimersOk v (next r st) = Step-TimersOk st (Reach-TimersOk v r)
