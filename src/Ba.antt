-- ===== src/Ba.antt =====
-- Block acknowledgement sessions of src/rtl819x_BAProc.c: what each event does to the records of a
-- stream. The frames that are sent and received are in Ba.Frame and Ba.Receive.
pub mod Timers
pub mod Admission
pub mod Frame
pub mod Receive
mod Tests
use rtl8190p.Common.{ℕ, ◌+◌, ◌*◌, ◌/◌, ◌%◌, ◌==◌, if◌then◌else◌, Bool, true, false, not, ◌&&◌, ◌||◌}
use rtl8190p.Ts.{BaParamSet, BaRecord, TxTs, RxTs}

-- ActivateBAEntry
pub activate_ba_entry : BaRecord → ℕ → BaRecord
activate_ba_entry b time = record b { valid = true; timer = if time == 0 then b.timer else true }

-- DeActivateBAEntry
pub deactivate_ba_entry : BaRecord → BaRecord
deactivate_ba_entry b = record b { valid = false; timer = false }

-- One half of TxTsDeleteBA, and the body of RxTsDeleteBA, on a record.
pub delete_ba : BaRecord → BaRecord
unfolding deactivate_ba_entry
delete_ba b = if b.valid then deactivate_ba_entry b else b

-- TxTsDeleteBA: whether a DELBA is to be sent, and the stream.
pub tx_ts_delete_ba : TxTs → Bool × TxTs
unfolding delete_ba
tx_ts_delete_ba t = (
  t.tx_pending_ba.valid || t.tx_admitted_ba.valid,
  record t {
    tx_pending_ba = delete_ba t.tx_pending_ba;
    tx_admitted_ba = delete_ba t.tx_admitted_ba;
  },
)

-- RxTsDeleteBA
pub rx_ts_delete_ba : RxTs → Bool × RxTs
unfolding delete_ba
rx_ts_delete_ba t =
    (t.rx_admitted_ba.valid, record t { rx_admitted_ba = delete_ba t.rx_admitted_ba })

-- BA_SETUP_TIMEOUT, BA_POLICY_DELAYED and BA_POLICY_IMMEDIATE
abbrev pub ba_setup_timeout : ℕ
ba_setup_timeout = 200

abbrev pub ba_policy_delayed : ℕ
ba_policy_delayed = 0

abbrev pub ba_policy_immediate : ℕ
ba_policy_immediate = 1

-- The pending record that TsInitAddBA fills in; the fragment number of the start stays.
pub requested_ba : BaRecord → ℕ → ℕ → ℕ → BaRecord
unfolding activate_ba_entry deactivate_ba_entry
requested_ba b policy tid cur_seq =
    let off = deactivate_ba_entry b in
    activate_ba_entry
      (record off {
        dialog_token = (b.dialog_token + 1) % 256;
        ba_param_set = record {
          amsdu_support = 0;
          ba_policy = policy % 2;
          tid = tid;
          buffer_size = 32;
        };
        ba_timeout_value = 0;
        ba_start_seq_ctrl = (cur_seq + 3) % 4096 * 16 + b.ba_start_seq_ctrl % 16;
      })
      ba_setup_timeout

-- TsInitAddBA: whether a request is to be sent, and the stream.
pub ts_init_add_ba : TxTs → ℕ → Bool → Bool × TxTs
unfolding requested_ba
ts_init_add_ba t policy overwrite = if t.tx_pending_ba.valid && not overwrite then (false, t) else (
  true,
  record t { tx_pending_ba = requested_ba t.tx_pending_ba policy t.tx_common.ts_id t.tx_cur_seq },
)

-- ADDBA_STATUS_SUCCESS, and the reasons of a DELBA.
abbrev pub addba_status_success : ℕ
addba_status_success = 0

abbrev pub delba_reason_end_ba : ℕ
delba_reason_end_ba = 37

abbrev pub delba_reason_unknown_ba : ℕ
delba_reason_unknown_ba = 38

-- How rtllib_rx_ADDBARsp ends: the response is dropped, answered by a DELBA with a reason, or the
-- session is admitted.
pub data Response : Type 0 where
  ignored admitted : Response
  rejected : ℕ → Response

-- rtllib_rx_ADDBARsp on the stream that it found.
pub on_addba_rsp : TxTs → ℕ → ℕ → BaParamSet → ℕ → Response × TxTs
unfolding activate_ba_entry deactivate_ba_entry
on_addba_rsp t token status param timeout =
    let t' = record t { add_ba_req_in_progress = false } in
    let answered = record t' { tx_pending_ba = deactivate_ba_entry t.tx_pending_ba } in
    let delayed = record answered {
      add_ba_req_delayed = true;
      tx_admitted_ba = deactivate_ba_entry t.tx_admitted_ba;
    } in
    let agreed = record answered {
      tx_admitted_ba =
          activate_ba_entry
            (deactivate_ba_entry (record t.tx_admitted_ba {
              dialog_token = token;
              ba_timeout_value = timeout;
              ba_start_seq_ctrl = t.tx_pending_ba.ba_start_seq_ctrl;
              ba_param_set = param;
            }))
            timeout;
    } in
    let failed = record answered { add_ba_req_delayed = true; disable_add_ba = true } in
    if t.tx_admitted_ba.valid
    then (ignored, t')
    else if not t.tx_pending_ba.valid || not (token == t.tx_pending_ba.dialog_token)
    then (rejected delba_reason_unknown_ba, t')
    else if status == addba_status_success
    then if param.ba_policy == ba_policy_delayed
      then (rejected delba_reason_end_ba, delayed)
      else (admitted, agreed)
    else (rejected delba_reason_end_ba, failed)

-- rtllib_rx_DELBA on the transmit stream that it found.
pub on_delba : TxTs → TxTs
unfolding tx_ts_delete_ba
on_delba t =
    (tx_ts_delete_ba (record t {
      using_ba = false;
      add_ba_req_in_progress = false;
      add_ba_req_delayed = false;
      ts_add_ba_timer = false;
    })).1

-- BaSetupTimeOut, at which the timer is no longer pending.
pub ba_setup_time_out : TxTs → TxTs
ba_setup_time_out t = record t {
  add_ba_req_in_progress = false;
  add_ba_req_delayed = true;
  tx_pending_ba = record t.tx_pending_ba { valid = false; timer = false };
}

-- TxBaInactTimeout on the stream.
pub tx_ba_inact_timeout : TxTs → TxTs
unfolding tx_ts_delete_ba
tx_ba_inact_timeout t =
    (tx_ts_delete_ba (record t { tx_admitted_ba = record t.tx_admitted_ba { timer = false } })).1

-- TsStartAddBaProcess: the timer that calls TsAddBaProcess is set, if it was not.
pub ts_start_add_ba_process : TxTs → TxTs
ts_start_add_ba_process t =
    if t.add_ba_req_in_progress
    then t
    else record t { add_ba_req_in_progress = true; ts_add_ba_timer = true }

-- TsAddBaProcess, at which that timer is no longer pending.
pub ts_add_ba_process : TxTs → Bool × TxTs
unfolding ts_init_add_ba
ts_add_ba_process t =
    ts_init_add_ba (record t { ts_add_ba_timer = false }) ba_policy_immediate false
