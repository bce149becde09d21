-- ===== src/Ba/Receive.antt =====
-- The receiver's side of a session in src/rtl819x_BAProc.c: rtllib_rx_ADDBAReq behind its reading of
-- the frame, and how either side ends a session.
use rtl8190p.Common.{ℕ, ◌≡◌, ◌≢◌, ◌↔◌, ◌==◌, arith, if◌then◌else◌, Bool, true, false, not, ◌||◌}
use rtl8190p.Common.{Option, none, some}
use rtl8190p.Ts.{BaParamSet, BaRecord, TxTs, RxTs}
use rtl8190p.Ba.{
  activate_ba_entry, deactivate_ba_entry, tx_ts_delete_ba, rx_ts_delete_ba, ba_policy_delayed,
  ba_policy_immediate, addba_status_success,
}

abbrev pub addba_status_refused : ℕ
addba_status_refused = 37

abbrev pub addba_status_invalid_param : ℕ
addba_status_invalid_param = 38

-- What rtllib_rx_ADDBAReq asks of the device: `qos_data.active`, bCurrentHTSupport, the bit
-- HT_IOT_ACT_REJECT_ADDBA_REQ, and whether the peer may aggregate one packet only.
pub record Capability : Type 0 where
  pub qos_active : Bool
  pub ht_support : Bool
  pub reject_addba_req : Bool
  pub one_packet : Bool

-- The fields of a request.
pub record Request : Type 0 where
  pub token : ℕ
  pub param : BaParamSet
  pub timeout : ℕ
  pub start : ℕ

-- What the response carries: the status and the three fields of the record.
pub record Reply : Type 0 where
  pub status : ℕ
  pub reply_token : ℕ
  pub reply_param : BaParamSet
  pub reply_timeout : ℕ

-- OnADDBAReq_Fail
pub addba_req_fail : Request → ℕ → Reply
addba_req_fail q rc = record {
  status = rc;
  reply_token = q.token;
  reply_param = record q.param { ba_policy = ba_policy_immediate };
  reply_timeout = q.timeout;
}

-- The record of the session that a request admits.
pub admitted_record : Capability → Request → BaRecord → BaRecord
unfolding activate_ba_entry deactivate_ba_entry
admitted_record d q b =
    activate_ba_entry
      (record (deactivate_ba_entry b) {
        dialog_token = q.token;
        ba_param_set = record q.param { buffer_size = if d.one_packet then 1 else 32 };
        ba_timeout_value = q.timeout;
        ba_start_seq_ctrl = q.start;
      })
      0

-- rtllib_rx_ADDBAReq with the stream that GetTs gives: the response and the stream.
unfoldable pub on_addba_req : Capability → Request → Option RxTs → Reply × Option RxTs
unfolding addba_req_fail admitted_record
on_addba_req d q none = (addba_req_fail q addba_status_refused, none)
on_addba_req d q (some t) =
    let b = admitted_record d q t.rx_admitted_ba in
    let reply : Reply = record {
      status = addba_status_success;
      reply_token = b.dialog_token;
      reply_param = b.ba_param_set;
      reply_timeout = b.ba_timeout_value;
    } in
    if not d.qos_active || not d.ht_support || d.reject_addba_req
    then (addba_req_fail q addba_status_refused, some t)
    else if q.param.ba_policy == ba_policy_delayed
    then (addba_req_fail q addba_status_invalid_param, some t)
    else (reply, some (record t { rx_admitted_ba = b }))

-- TsInitDelBA: the record whose session a DELBA names, if one is sent, and the stream.
pub ts_init_del_ba_tx : TxTs → Option BaRecord × TxTs
unfolding tx_ts_delete_ba
ts_init_del_ba_tx t =
    let r = tx_ts_delete_ba t in
    let named = if r.1.tx_admitted_ba.valid then r.1.tx_admitted_ba else r.1.tx_pending_ba in
    (if r.0 then some named else none, r.1)

-- RemoveTsEntry on a transmit stream: its timers are deleted and its sessions ended. The callers put
-- it into the list of unused streams.
unfoldable pub remove_tx_ts_entry : TxTs → Option BaRecord × TxTs
unfolding ts_init_del_ba_tx
remove_tx_ts_entry t =
    let still = record t.tx_common { setup_timer = false; inact_timer = false } in
    let r = ts_init_del_ba_tx (record t { tx_common = still }) in
    (r.0, record r.1 { ts_add_ba_timer = false })

pub ts_init_del_ba_rx : RxTs → Option BaRecord × RxTs
unfolding rx_ts_delete_ba
ts_init_del_ba_rx t =
    let r = rx_ts_delete_ba t in (if r.0 then some r.1.rx_admitted_ba else none, r.1)

-- RxBaInactTimeout, at which the timer is no longer pending: the record that the DELBA names.
pub rx_ba_inact_timeout : RxTs → BaRecord × RxTs
unfolding rx_ts_delete_ba
rx_ba_inact_timeout t =
    let r =
      rx_ts_delete_ba (record t { rx_admitted_ba = record t.rx_admitted_ba { timer = false } }) in
    (r.1.rx_admitted_ba, r.1)

-- For a stream that GetTs gives, the response says success exactly when the device is ready and
-- the policy is not the delayed one; otherwise the stream stays as it was.
pub on_addba_req-success_iff :
    (d : Capability) (q : Request) (t : RxTs)
    → let r = on_addba_req d q (some t) in
      ((r.0.status ≡ addba_status_success) ↔ (
        (d.qos_active ≡ true)
        × (d.ht_support ≡ true)
        × (d.reject_addba_req ≡ false)
        × (q.param.ba_policy ≢ ba_policy_delayed)))
      × (r.0.status ≢ addba_status_success → r.1 ≡ some t)
unfolding on_addba_req
on_addba_req-success_iff d q t = (ground arith, ground arith)

-- After a response of success to a request on a stream that GetTs gives, the stream's session is
-- valid with no timer, it has the token, the parameter set and the timeout of the response, the
-- TID of the request, and room for one packet or for 32.
pub on_addba_req-stored :
    (d : Capability) (q : Request) (t : RxTs)
    → let r = on_addba_req d q (some t) in
      r.0.status ≡ addba_status_success
      → (u : RxTs) × (r.1 ≡ some u)
        × (u.rx_admitted_ba.valid ≡ true)
        × (u.rx_admitted_ba.timer ≡ false)
        × (u.rx_admitted_ba.dialog_token ≡ r.0.reply_token)
        × (u.rx_admitted_ba.ba_param_set ≡ r.0.reply_param)
        × (u.rx_admitted_ba.ba_timeout_value ≡ r.0.reply_timeout)
        × (r.0.reply_param.tid ≡ q.param.tid)
        × (r.0.reply_param.buffer_size ≡ (if d.one_packet then 1 else 32))
unfolding on_addba_req
on_addba_req-stored d q t h = (
  record t { rx_admitted_ba = admitted_record d q t.rx_admitted_ba },
  ground arith,
  ground arith,
  ground arith,
  ground arith,
  ground arith,
  ground arith,
  ground arith,
  ground arith,
)
