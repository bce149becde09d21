-- ===== src/Tx/Descriptor/Tests.antt =====
-- Runs on one station and one stream, and the theorems at them.
use rtl8190p.Common.{◌==◌, ltb, ◌≡◌, refl, true, false, not, ◌&&◌, ◌||◌, some, [], bit_or}
use rtl8190p.SeqNum.{sn_less}
use rtl8190p.Ts.{BaRecord, TxTs}
use rtl8190p.Ht.{HtInfo, ieee}
use rtl8190p.Tx.Descriptor.{
  Desc, Device, agg_auto, has_action, ht_on, tx_query_agg_cap, query_protectionmode, protected,
}
use rtl8190p.Tx.Descriptor.Choice.{is_admitted, tx_query_agg_cap_lem, query_protectionmode-rts}

-- The peer demands protection by its operation mode.
abbrev ht : HtInfo
ht = record {
  enable_ht = true;
  current_ht_support = true;
  reg_bw_40mhz = true;
  cur_bw_40mhz = false;
  reg_short_gi_40mhz = true;
  cur_short_gi_40mhz = true;
  reg_short_gi_20mhz = true;
  cur_short_gi_20mhz = true;
  reg_supp_cck = true;
  cur_supp_cck = true;
  peer_ht_spec_ver = ieee;
  self_ht_cap = [];
  self_ht_info = [];
  peer_ht_cap_buf = [];
  peer_ht_info_buf = [];
  amsdu_support = true;
  amsdu_max_size = 0;
  current_amsdu_support = true;
  current_amsdu_max_size = 0;
  ampdu_enable = true;
  current_ampdu_enable = true;
  ampdu_factor = 0;
  current_ampdu_factor = 0;
  mpdu_density = 0;
  current_mpdu_density = 0;
  forced_short_gi = false;
  current_op_mode = 3;
  self_mimo_ps = 0;
  peer_mimo_ps = 0;
  cur_sta_extchnl_offset = 0;
  cur_tx_bw_40mhz = true;
  sw_bw_in_progress = true;
  chnl_op = 0;
  reg_rt2rt_aggregation = true;
  rt2rt_ht_mode = 0;
  current_rt2rt_aggregation = true;
  current_rt2rt_long_slot_time = true;
  reg_rx_reorder_enable = true;
  cur_rx_reorder_enable = true;
  rx_reorder_win_size = 0;
  rx_reorder_pending_time = 0;
  iot_peer = 0;
  iot_action = 0;
  iot_ra_func = 0;
}

abbrev station : Device
station = record {
  ht = ht;
  forced_mode = agg_auto;
  forced_factor = 0;
  forced_density = 0;
  forced_tx_20mhz = false;
  sec_allows_n = true;
  wpa_without_key = false;
  is_infra = true;
  is_master = false;
  mode = 16;
  rts = 2347;
  use_protection = false;
  short_preamble = true;
}

abbrev fresh : Desc
fresh = record {
  data_rate = 0x87;
  is_multicast = false;
  is_broadcast = false;
  is_dhcp = false;
  ampdu_enable = false;
  ampdu_factor = 0;
  ampdu_density = 0;
  use_short_gi = false;
  packet_bw = false;
  use_short_preamble = false;
  rts_enable = false;
  cts_enable = false;
  rts_rate = 0;
}

-- What the peer admitted starts at the sequence number 4.
abbrev agreed : BaRecord
agreed = record {
  timer = true;
  valid = true;
  dialog_token = 1;
  ba_param_set = record { amsdu_support = 0; ba_policy = 1; tid = 0; buffer_size = 32 };
  ba_timeout_value = 0;
  ba_start_seq_ctrl = 64;
}

abbrev stream : TxTs
stream = record {
  tx_common = record {
    addr = [];
    ts_id = 0;
    direction = 0;
    setup_timer = false;
    inact_timer = true;
  };
  tx_cur_seq = 4;
  tx_pending_ba = agreed;
  tx_admitted_ba = agreed;
  add_ba_req_in_progress = false;
  add_ba_req_delayed = false;
  using_ba = false;
  disable_add_ba = false;
  ts_add_ba_timer = false;
}

tx_query_agg_cap_lem_example :
    (tx_query_agg_cap station true false (some stream) fresh).0.ampdu_enable ≡ (
      ht_on station
      && true
      && not false
      && not (has_action station 0x00100000)
      && station.sec_allows_n
      && station.ht.current_ampdu_enable
      && station.is_infra
      && is_admitted stream)
tx_query_agg_cap_lem_example = tx_query_agg_cap_lem station true false stream fresh refl refl

stream_admitted : is_admitted stream ≡ true
unfolding is_admitted sn_less
stream_admitted = refl

query_protectionmode-rts_example : (query_protectionmode station 100 false fresh).rts_enable ≡ (
    not (fresh.is_broadcast || fresh.is_multicast || false)
    && (ltb station.rts 100
        || station.use_protection
        || (not (ltb station.mode 16)
            && (has_action station 0x200
                || has_action station (bit_or 0x400 0x100)
                || (ht_on station
                    && ((station.ht.cur_bw_40mhz
                          && (station.ht.current_op_mode == 2 || station.ht.current_op_mode == 3))
                        || (not station.ht.cur_bw_40mhz && station.ht.current_op_mode == 3))))))
    && (ltb station.mode 16 || not station.is_master))
query_protectionmode-rts_example = query_protectionmode-rts station 100 false fresh refl

protected_fresh : (query_protectionmode station 100 false fresh).rts_enable ≡ true
unfolding query_protectionmode protected has_action ht_on
protected_fresh = refl
