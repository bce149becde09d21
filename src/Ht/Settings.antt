-- ===== src/Ht/Settings.antt =====
-- The settings before an association, of src/rtl819x_HTProc.c: defaults, the initial state, and
-- what is saved of an access point's elements.
use rtl8190p.Common.{ℕ, ◌==◌, ltb, leb, if◌then◌else◌}
use rtl8190p.Common.{Bool, true, false, not, ◌&&◌, List, ◌++◌, length, set}
use rtl8190p.Common.{take, drop, replicate, bit_and}
use rtl8190p.Ht.{ieee, Device, Network, BssHt, opt_mode}
use rtl8190p.Ht.Iot.{peer_determine, actions}

-- HTUpdateDefaultSetting
unfoldable pub update_default_setting : Device → Device
update_default_setting d = record d {
  ht = record d.ht {
    reg_short_gi_20mhz = true;
    reg_short_gi_40mhz = true;
    reg_bw_40mhz = true;
    reg_supp_cck = true;
    amsdu_max_size = 7935;
    amsdu_support = false;
    ampdu_enable = true;
    ampdu_factor = 2;
    mpdu_density = 0;
    self_mimo_ps = 3;
    reg_rt2rt_aggregation = true;
    reg_rx_reorder_enable = true;
    rx_reorder_win_size = 64;
    rx_reorder_pending_time = 30;
  };
  tx_disable_rate_fall_back = false;
  tx_use_driver_assigned_rate = false;
  tx_enable_fw_calc_dur = true;
}

-- HTInitializeHTInfo
unfoldable pub initialize_ht_info : Device → Device
initialize_ht_info d = record d {
  ht = record d.ht {
    current_ht_support = false;
    cur_bw_40mhz = false;
    cur_tx_bw_40mhz = false;
    cur_short_gi_20mhz = false;
    cur_short_gi_40mhz = false;
    forced_short_gi = false;
    cur_supp_cck = true;
    current_amsdu_support = false;
    current_amsdu_max_size = d.ht.amsdu_max_size;
    current_mpdu_density = d.ht.mpdu_density;
    current_ampdu_factor = d.ht.ampdu_factor;
    self_ht_cap = replicate 26 0;
    self_ht_info = replicate 22 0;
    peer_ht_cap_buf = replicate 32 0;
    peer_ht_info_buf = replicate 32 0;
    sw_bw_in_progress = false;
    chnl_op = 0;
    peer_ht_spec_ver = ieee;
    current_rt2rt_aggregation = false;
    current_rt2rt_long_slot_time = false;
    rt2rt_ht_mode = 0;
    iot_peer = 0;
    iot_action = 0;
    iot_ra_func = 0;
  };
  reg_ht_supp_rate_set = set (set (set d.reg_ht_supp_rate_set 0 0xff) 1 0xff) 4 0x01;
}

-- HTInitializeBssDesc
unfoldable pub initialize_bss_desc : BssHt → BssHt
initialize_bss_desc b = record b {
  bd_support_ht = false;
  bd_ht_cap_buf = replicate 32 0;
  bd_ht_cap_len = 0;
  bd_ht_info_buf = replicate 32 0;
  bd_ht_info_len = 0;
  bd_ht_spec_ver = ieee;
  bd_rt2rt_aggregation = false;
  bd_rt2rt_long_slot_time = false;
  bd_rt2rt_ht_mode = 0;
}

-- memcpy of `len` bytes over the start of `buf`, unless there are none or too many of them.
unfoldable pub copy_peer : (buf from : List ℕ) → (len : ℕ) → List ℕ
copy_peer buf from len =
    if ltb 0 len && leb len (length buf) then take len from ++ drop len buf else buf

-- HTResetSelfAndSavePeerSetting; the peer is told from ieee->current_network.
unfoldable pub reset_self_and_save_peer_setting : Device → Network → Device
reset_self_and_save_peer_setting d net =
    let b = net.bssht in
    let peer = peer_determine d.current_network in
    let joins = d.ht.reg_rt2rt_aggregation in
    record d {
      ht =
          if b.bd_support_ht
          then record d.ht {
            current_ht_support = true;
            peer_ht_spec_ver = b.bd_ht_spec_ver;
            peer_ht_cap_buf = copy_peer d.ht.peer_ht_cap_buf b.bd_ht_cap_buf b.bd_ht_cap_len;
            peer_ht_info_buf = copy_peer d.ht.peer_ht_info_buf b.bd_ht_info_buf b.bd_ht_info_len;
            current_rt2rt_aggregation = joins && b.bd_rt2rt_aggregation;
            current_rt2rt_long_slot_time = joins && b.bd_rt2rt_long_slot_time;
            rt2rt_ht_mode = if joins then b.bd_rt2rt_ht_mode else 0;
            iot_peer = peer;
            iot_action = actions peer;
          }
          else record d.ht {
            current_ht_support = false;
            current_rt2rt_aggregation = false;
            current_rt2rt_long_slot_time = false;
            rt2rt_ht_mode = 0;
            iot_action = 0;
            iot_ra_func = 0;
          };
    }

-- HTUpdateSelfAndPeerSetting; the element is read at the start of the buffer.
unfoldable pub update_self_and_peer_setting : Device → Network → Device
update_self_and_peer_setting d net =
    if d.ht.current_ht_support && not (net.bssht.bd_ht_info_len == 0)
    then record d { ht = record d.ht { current_op_mode = opt_mode net.bssht.bd_ht_info_buf 0 } }
    else d

-- HTCCheck, for the first 16 bits of a frame: RTLLIB_STYPE_QOS_DATA, RTLLIB_FTYPE_DATA and
-- RTLLIB_FCTL_ORDER are set.
unfoldable pub htc_check : Device → (fc : ℕ) → Bool
htc_check d fc = d.ht.current_ht_support && bit_and fc 0x88 == 0x88 && not (bit_and fc 0x8000 == 0)
