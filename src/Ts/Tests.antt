-- ===== src/Ts/Tests.antt =====
-- Runs of GetTs and the theorems at concrete streams.
use rtl8190p.Common.{ℕ, ◌≡◌, refl, true, false, Option, some, List, [], ◌∷◌}
use rtl8190p.Ts.{
  BaRecord, TxTs, Env, infra, tx_dir, get_ts, renew_tx, get_or_add, search_admit_tr_stream,
  reset_tx_ts_entry, search_dir,
}
use rtl8190p.Ts.Admit.{get_ts-again}

abbrev no_ba : BaRecord
no_ba = record {
  timer = false;
  valid = false;
  dialog_token = 0;
  ba_param_set = record { amsdu_support = 0; ba_policy = 0; tid = 0; buffer_size = 0 };
  ba_timeout_value = 0;
  ba_start_seq_ctrl = 0;
}

abbrev blank : TxTs
blank = record {
  tx_common = record {
    addr = [];
    ts_id = 0;
    direction = 0;
    setup_timer = false;
    inact_timer = false;
  };
  tx_cur_seq = 9;
  tx_pending_ba = no_ba;
  tx_admitted_ba = no_ba;
  add_ba_req_in_progress = false;
  add_ba_req_delayed = false;
  using_ba = true;
  disable_add_ba = false;
  ts_add_ba_timer = false;
}

abbrev env : Env
env = record { iw_mode = infra; qos_supported = true }

abbrev peer : List ℕ
peer = 2 ∷ 0 ∷ 0 ∷ 0 ∷ 0 ∷ 7 ∷ []

abbrev run : Option ℕ × List TxTs × List TxTs
run = get_ts (λ t. t.tx_common) renew_tx env tx_dir peer 5 true [] (blank ∷ blank ∷ [])

adds_stream : run.0 ≡ some 0
unfolding get_ts get_or_add search_admit_tr_stream search_dir
adds_stream = refl

get_ts-again_example :
    get_ts (λ t. t.tx_common) renew_tx env tx_dir peer 5 false run.1 run.2 ≡ (some 0, run.1, run.2)
get_ts-again_example =
    get_ts-again (λ t. t.tx_common) renew_tx env tx_dir
      (λ f t. ((reset_tx_ts_entry t).tx_common, unfold renew_tx in refl)) peer 5 true []
      (blank ∷ blank ∷ []) 0 adds_stream
