-- ===== src/Ba/Tests.antt =====
-- Runs of a session and the theorems at concrete streams.
use rtl8190p.Common.{◌≡◌, refl, arith, true, false, some, [], ◌∷◌, get_or}
use rtl8190p.Ts.{BaParamSet, BaRecord, TsCommonInfo, TxTs, RxTs}
use rtl8190p.Ba.{
  on_addba_rsp, ts_start_add_ba_process, ts_add_ba_process, admitted, rejected,
  addba_status_success,
}
use rtl8190p.Ba.Timers.{
  Held, used, unused, TimersOk, Reach-TimersOk, here, next, start, process, response, removed,
}
use rtl8190p.Ba.Admission.{accepts, answers_request}
use rtl8190p.Ba.Frame.{
  IsBaRecord, IsParam, addba_body, act_addbareq, addba_body-request, param_of_short, read16,
}
use rtl8190p.Ba.Receive.{Capability, Request, on_addba_req, remove_tx_ts_entry}

abbrev param : BaParamSet
param = record { amsdu_support = 0; ba_policy = 1; tid = 5; buffer_size = 32 }

abbrev idle : BaRecord
idle = record {
  timer = false;
  valid = false;
  dialog_token = 7;
  ba_param_set = param;
  ba_timeout_value = 0;
  ba_start_seq_ctrl = 1600;
}

abbrev common : TsCommonInfo
common = record {
  addr = 2 ∷ 0 ∷ 0 ∷ 0 ∷ 0 ∷ 7 ∷ [];
  ts_id = 5;
  direction = 0;
  setup_timer = false;
  inact_timer = false;
}

abbrev stream : TxTs
stream = record {
  tx_common = common;
  tx_cur_seq = 97;
  tx_pending_ba = idle;
  tx_admitted_ba = idle;
  add_ba_req_in_progress = false;
  add_ba_req_delayed = false;
  using_ba = false;
  disable_add_ba = false;
  ts_add_ba_timer = false;
}

abbrev rx_stream : RxTs
rx_stream = record {
  rx_common = common;
  rx_indicate_seq = 0;
  rx_timeout_indicate_seq = 0;
  rx_admitted_ba = idle;
}

abbrev started : TxTs
started = ts_start_add_ba_process stream

abbrev requested : TxTs
requested = (ts_add_ba_process started).1

abbrev answered : TxTs
answered = (on_addba_rsp requested 8 0 param 0).1

runs_admitted : (on_addba_rsp requested 8 0 param 0).0 ≡ admitted
unfolding on_addba_rsp ts_add_ba_process ts_start_add_ba_process
runs_admitted = refl

runs_wrong_token : (on_addba_rsp requested 9 0 param 0).0 ≡ rejected 38
unfolding on_addba_rsp ts_add_ba_process ts_start_add_ba_process
runs_wrong_token = refl

runs_process : started.ts_add_ba_timer ≡ true
unfolding ts_start_add_ba_process
runs_process = refl

-- The stream is answered, and then its peer is removed.
abbrev dropped : Held
dropped = unused (remove_tx_ts_entry answered).1

used-TimersOk : TimersOk (used stream)
used-TimersOk = record {
  pending = refl;
  admitted = λ e. e;
  no_request = λ e. refl;
  no_session = λ e. refl;
  no_timer = λ e. refl;
}

Reach-TimersOk_example : TimersOk dropped
Reach-TimersOk_example = Reach-TimersOk {s = used stream} {t = dropped} used-TimersOk (
    next
      (next (next (next here (start stream)) (process (used started) runs_process))
        (response requested 8 0 param 0))
      (removed answered))

-- It is that answer.
runs_accepts : accepts requested 8 0 param ≡ true
unfolding accepts answers_request ts_add_ba_process ts_start_add_ba_process
runs_accepts = refl

param-IsParam : IsParam param
param-IsParam = record {
  amsdu = omega arith;
  policy = omega arith;
  tid = omega arith;
  size = omega arith;
}

idle-IsBaRecord : IsBaRecord idle
idle-IsBaRecord = record {
  token = omega arith;
  param = param-IsParam;
  timeout = omega arith;
  start = omega arith;
}

addba_body-request_example :
    let f = addba_body idle 0 act_addbareq in
    (get_or f 2 0 ≡ 7)
    × (param_of_short (read16 f 3) ≡ param)
    × (read16 f 5 ≡ 0)
    × (read16 f 7 ≡ 1600)
addba_body-request_example = addba_body-request idle 0 idle-IsBaRecord

abbrev ready : Capability
ready = record {
  qos_active = true;
  ht_support = true;
  reject_addba_req = false;
  one_packet = false;
}

abbrev ask : Request
ask = record { token = 3; param = param; timeout = 0; start = 1600 }

runs_success : (on_addba_req ready ask (some rx_stream)).0.status ≡ addba_status_success
unfolding on_addba_req
runs_success = refl
