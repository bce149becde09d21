-- ===== src/Ht/Tests.antt =====
-- Runs of the negotiation on one device, and the theorems at it.
use rtl8190p.Common.{
  ℕ, ◌+◌, ◌*◌, ◌≤◌, ◌<◌, ◌==◌, ◌≡◌, refl, arith, true, false, ◌&&◌, ◌⊎◌, if◌then◌else◌,
}
use rtl8190p.Common.{List, [], ◌∷◌, replicate, bit_at, bytes_eq}
use rtl8190p.Ht.{
  ieee, ewc, ieee_n_24g, set_chan, set_bw_mode, HtInfo, BssHt, Network, Device, cap_start,
  max_amsdu_size, mpdu_density_of, short_gi_20mhz, short_gi_40mhz, dss_cck, max_rx_ampdu_factor,
  mimo_pwr_save, chl_width, ext_chl_offset, field, flag, info_start,
}
use rtl8190p.Ht.Rates.{
  half_nmode, mcs_to_data_rate, get_highest_mcs_rate, all_zero, zip_and, best_of_byte,
  best_of_bytes, rate_at,
}
use rtl8190p.Ht.Rates.Highest.{has_rate, get_highest_mcs_rate_lem}
use rtl8190p.Ht.Filter.{
  mcs_filter_1ss, mcs_filter_all, filter_mcs_rate, clear_from, pick_mcs_rate, mask_rates, mask_byte,
}
use rtl8190p.Ht.Filter.Sets.{allows, filter_mcs_rate-bits}
use rtl8190p.Ht.Iot.{peer_determine, is_broadcom_vendor, is_vendor, is_ralink}
use rtl8190p.Ht.Element.{construct_capability_element}
use rtl8190p.Ht.Element.Read.{Reads, capability_element-read}
use rtl8190p.Ht.Width.{set_connect_bw_mode, set_connect_bw_mode_callback, connect_offset}
use rtl8190p.Ht.Width.Channel.{is_wide, set_connect_bw_mode_lem}
use rtl8190p.Ht.Assoc.{agree, agree_rates, peer_mcs, on_assoc_rsp}
use rtl8190p.Ht.Assoc.Agreed.{on_assoc_rsp-within}
use rtl8190p.Ht.Assoc.Rate.{on_assoc_rsp-rate}

abbrev rate_set : List ℕ
rate_set = 0xff ∷ 0xff ∷ replicate 14 0

-- A capability element of 40 MHz with a short guard interval in 20 MHz and the rates 0 to 15.
abbrev peer_cap : List ℕ
peer_cap = 0x2e ∷ 0x18 ∷ 0x0b ∷ 0xff ∷ 0xff ∷ replicate 27 0

abbrev bss : BssHt
bss = record {
  bd_support_ht = true;
  bd_ht_cap_buf = peer_cap;
  bd_ht_cap_len = 26;
  bd_ht_info_buf = replicate 32 0;
  bd_ht_info_len = 22;
  bd_ht_spec_ver = ieee;
  bd_rt2rt_aggregation = false;
  bd_rt2rt_long_slot_time = false;
  bd_rt2rt_ht_mode = 0;
}

abbrev network : Network
network = record {
  bssid = 0x00 ∷ 0x17 ∷ 0x94 ∷ 1 ∷ 2 ∷ 3 ∷ [];
  channel = 6;
  ralink_cap_exist = false;
  broadcom_cap_exist = false;
  atheros_cap_exist = false;
  cisco_cap_exist = false;
  marvell_cap_exist = false;
  bssht = bss;
}

abbrev info : HtInfo
info = record {
  enable_ht = true;
  current_ht_support = true;
  reg_bw_40mhz = true;
  cur_bw_40mhz = false;
  reg_short_gi_40mhz = true;
  cur_short_gi_40mhz = false;
  reg_short_gi_20mhz = true;
  cur_short_gi_20mhz = false;
  reg_supp_cck = true;
  cur_supp_cck = true;
  peer_ht_spec_ver = ewc;
  self_ht_cap = replicate 26 0;
  self_ht_info = replicate 22 0;
  peer_ht_cap_buf = peer_cap;
  peer_ht_info_buf = 6 ∷ 5 ∷ replicate 30 0;
  amsdu_support = false;
  amsdu_max_size = 7935;
  current_amsdu_support = false;
  current_amsdu_max_size = 7935;
  ampdu_enable = true;
  current_ampdu_enable = false;
  ampdu_factor = 2;
  current_ampdu_factor = 2;
  mpdu_density = 0;
  current_mpdu_density = 0;
  forced_short_gi = false;
  current_op_mode = 0;
  self_mimo_ps = 3;
  peer_mimo_ps = 0;
  cur_sta_extchnl_offset = 0;
  cur_tx_bw_40mhz = false;
  sw_bw_in_progress = false;
  chnl_op = 0;
  reg_rt2rt_aggregation = true;
  rt2rt_ht_mode = 0;
  current_rt2rt_aggregation = false;
  current_rt2rt_long_slot_time = false;
  reg_rx_reorder_enable = true;
  cur_rx_reorder_enable = false;
  rx_reorder_win_size = 64;
  rx_reorder_pending_time = 30;
  iot_peer = 6;
  iot_action = 0;
  iot_ra_func = 0;
}

abbrev device : Device
device = record {
  ht = info;
  mode = ieee_n_24g;
  current_network = network;
  reg_dot11_ht_operational_rate_set = rate_set;
  reg_dot11_tx_ht_operational_rate_set = rate_set;
  dot11_ht_operational_rate_set = replicate 16 0;
  reg_ht_supp_rate_set = replicate 16 0;
  ht_highest_opera_rate = 0;
  ht_current_opera_rate = 0;
  half_wireless_n24g_mode = false;
  ap_sec_type = 0;
  pairwise_key_type = 0;
  tx_disable_rate_fall_back = false;
  tx_use_driver_assigned_rate = false;
  tx_enable_fw_calc_dur = true;
  support_remote_wake_up = false;
  calls = [];
}

abbrev none_beyond : ℕ → ℕ
none_beyond i = 0

-- 40 MHz with the second channel above: the hardware is tuned to channel 8.
runs_wide : (set_connect_bw_mode device 1 1).calls ≡ set_chan 8 ∷ set_bw_mode 1 1 ∷ []
unfolding set_connect_bw_mode set_connect_bw_mode_callback connect_offset half_nmode
runs_wide = refl

runs_assoc : (on_assoc_rsp none_beyond device).ht_current_opera_rate ≡ 0x80 + 15
unfolding on_assoc_rsp agree_rates get_highest_mcs_rate all_zero zip_and filter_mcs_rate clear_from
    half_nmode set_connect_bw_mode set_connect_bw_mode_callback pick_mcs_rate mask_rates mask_byte
    peer_mcs cap_start bytes_eq agree mimo_pwr_save best_of_byte best_of_bytes mcs_to_data_rate
    rate_at connect_offset chl_width dss_cck ext_chl_offset field flag info_start short_gi_20mhz
    short_gi_40mhz
runs_assoc = refl

runs_peer : peer_determine network ≡ 6
unfolding peer_determine is_broadcom_vendor is_vendor is_ralink bytes_eq
runs_peer = refl

set_connect_bw_mode_example :
    let r = set_connect_bw_mode device 1 1 in
    let wide = is_wide device 1 1 in
    (r.ht.sw_bw_in_progress ≡ false)
    × (r.ht.cur_bw_40mhz ≡ wide)
    × (r.calls
        ≡ set_chan (if wide then 8 else 6)
          ∷ (if wide then set_bw_mode 1 1 else set_bw_mode 0 0)
          ∷ [])
set_connect_bw_mode_example = set_connect_bw_mode_lem device 1 1 refl refl

get_highest_example :
    (m : ℕ) × (get_highest_mcs_rate (λ i. 3 * i) rate_set mcs_filter_1ss ≡ m + 0x80)
    × (m < 128)
    × ((m ≡ 0) ⊎ ((has_rate rate_set m && has_rate mcs_filter_1ss m) ≡ true))
    × (3 * 5 ≤ 3 * m)
unfolding has_rate bit_at
get_highest_example =
    get_highest_mcs_rate_lem (λ i. 3 * i) rate_set mcs_filter_1ss 5 (omega arith) refl

filter_mcs_rate_example :
    has_rate (filter_mcs_rate device rate_set) 12
    ≡ (has_rate rate_set 12 && has_rate rate_set 12 && allows ieee_n_24g (half_nmode device) 12)
filter_mcs_rate_example = filter_mcs_rate-bits device rate_set 12 (omega arith)

capability_element_example :
    let b = (construct_capability_element device 32 true).0 in Reads device true b (cap_start b)
capability_element_example = capability_element-read device 32 true refl

on_assoc_rsp-within_example :
    let cap = cap_start peer_cap in
    let h = (on_assoc_rsp none_beyond device).ht in
    (h.current_amsdu_max_size ≤ 7935)
    × (h.current_amsdu_max_size ≤ (if max_amsdu_size peer_cap cap == 0 then 3839 else 7935))
    × (0 ≤ h.current_mpdu_density)
    × (mpdu_density_of peer_cap cap ≤ h.current_mpdu_density)
    × (h.cur_short_gi_20mhz ≡ short_gi_20mhz peer_cap cap)
    × (h.cur_short_gi_40mhz ≡ short_gi_40mhz peer_cap cap)
    × (h.cur_supp_cck ≡ dss_cck peer_cap cap)
    × (h.current_ampdu_factor ≤ max_rx_ampdu_factor peer_cap cap)
on_assoc_rsp-within_example = on_assoc_rsp-within none_beyond device refl

on_assoc_rsp-rate_example :
    let cap = cap_start peer_cap in
    let r = on_assoc_rsp none_beyond device in
    let rates = r.dot11_ht_operational_rate_set in
    let filter =
      if mimo_pwr_save r.ht.peer_ht_cap_buf cap == 0 then mcs_filter_1ss else mcs_filter_all in
    (has_rate rates 13 ≡ (
      has_rate rate_set 13
      && has_rate (peer_mcs r.ht cap) 13
      && allows ieee_n_24g (half_nmode device) 13))
    × ((r.ht_current_opera_rate ≡ 0)
        ⊎ ((m : ℕ) × (r.ht_current_opera_rate ≡ m + 0x80)
            × ((m ≡ 0) ⊎ ((has_rate rates m && has_rate filter m) ≡ true))))
on_assoc_rsp-rate_example = on_assoc_rsp-rate none_beyond device 13 refl (omega arith)
