-- ===== src/Ht/Assoc.antt =====
-- What both sides agree on, of src/rtl819x_HTProc.c: HTOnAssocRsp and HTUseDefaultSetting.
pub mod Agreed
pub mod Rate
use rtl8190p.Common.{ℕ, ◌+◌, ◌-◌, ◌*◌, ◌%◌, ◌==◌, ltb, leb, if◌then◌else◌}
use rtl8190p.Common.{Bool, true, false, not, ◌&&◌, ◌||◌, List, [], ◌∷◌, ◌++◌, length, get_or, set}
use rtl8190p.Common.{take, drop, replicate, bit_and}
use rtl8190p.Ht
use rtl8190p.Ht.{
  ieee, HtInfo, Device, Network, BssHt, field, chl_width, mimo_pwr_save, short_gi_20mhz,
  short_gi_40mhz, max_amsdu_size, dss_cck, max_rx_ampdu_factor, mpdu_density_of, ext_chl_offset,
  recommended_tx_width, opt_mode, cap_start, info_start, set_chan, set_bw_mode,
}
use rtl8190p.Ht.Rates.{half_nmode, mcs_to_data_rate, get_highest_mcs_rate}
use rtl8190p.Ht.Filter.{mcs_filter_all, mcs_filter_1ss, filter_mcs_rate}
use rtl8190p.Ht.Iot.{peer_unknown, peer_atheros, peer_determine, actions, determine_ra_func}
use rtl8190p.Ht.Width.{set_connect_bw_mode}

-- The part of HTOnAssocRsp on the A-MPDU factor: HT_AGG_SIZE_32K 2 and HT_AGG_SIZE_64K 3.
unfoldable pub agreed_factor : Device → (peer : ℕ) → ℕ
agreed_factor d peer =
    if not d.ht.reg_rt2rt_aggregation
    then (if ltb peer d.ht.ampdu_factor then peer else d.ht.ampdu_factor)
    else if d.current_network.bssht.bd_rt2rt_aggregation
    then (if not (d.pairwise_key_type == 0) then peer else 3)
    else if ltb peer 2
    then peer
    else 2

-- SEC_ALG_WEP 1 or SEC_ALG_TKIP 2 keep some peers from aggregating.
unfoldable pub agreed_ampdu : Device → Bool
agreed_ampdu d =
    if not (bit_and d.ap_sec_type 3 == 0)
      && (d.ht.iot_peer == peer_atheros || d.ht.iot_peer == peer_unknown)
    then false
    else d.ht.ampdu_enable

-- The first part of HTOnAssocRsp, on what both sides can do; `cap` and `info` are the places where
-- the structures start in the two buffers.
unfoldable pub agree : Device → (cap info : ℕ) → HtInfo
agree d cap info =
    let h = d.ht in
    let c = h.peer_ht_cap_buf in
    let i = h.peer_ht_info_buf in
    let amsdu = if max_amsdu_size c cap == 0 then 3839 else 7935 in
    let density = mpdu_density_of c cap in
    record h {
      cur_tx_bw_40mhz = recommended_tx_width i info;
      cur_short_gi_20mhz = h.reg_short_gi_20mhz && short_gi_20mhz c cap;
      cur_short_gi_40mhz = h.reg_short_gi_40mhz && short_gi_40mhz c cap;
      cur_supp_cck = h.reg_supp_cck && dss_cck c cap;
      current_amsdu_support = h.amsdu_support;
      current_amsdu_max_size = if ltb amsdu h.amsdu_max_size then amsdu else h.amsdu_max_size;
      current_ampdu_enable = agreed_ampdu d;
      current_ampdu_factor = agreed_factor d (max_rx_ampdu_factor c cap);
      current_mpdu_density = if ltb density h.mpdu_density then h.mpdu_density else density;
      cur_rx_reorder_enable = h.reg_rx_reorder_enable;
      peer_ht_cap_buf = if get_or c (cap + 3) 0 == 0 then set c (cap + 3) 0xff else c;
    }

-- The MCS set of the capability that starts at `cap`.
unfoldable pub peer_mcs : HtInfo → (cap : ℕ) → List ℕ
peer_mcs h cap = take 16 (drop (cap + 3) h.peer_ht_cap_buf)

-- The rest of it, on the rates; MIMO_PS_STATIC is 0.
unfoldable pub agree_rates : (beyond : ℕ → ℕ) → Device → (cap info : ℕ) → Device
agree_rates beyond d cap info =
    let c = d.ht.peer_ht_cap_buf in
    let support = peer_mcs d.ht cap in
    let rates = filter_mcs_rate d support in
    let filter = if mimo_pwr_save c cap == 0 then mcs_filter_1ss else mcs_filter_all in
    let highest = get_highest_mcs_rate (mcs_to_data_rate beyond d.ht) rates filter in
    record d {
      ht = record d.ht {
        iot_ra_func = determine_ra_func d.ht (not (get_or support 1 0 == 0));
        peer_mimo_ps = mimo_pwr_save c cap;
        current_op_mode = opt_mode d.ht.peer_ht_info_buf info;
      };
      dot11_ht_operational_rate_set = rates;
      ht_highest_opera_rate = highest;
      ht_current_opera_rate = highest;
    }

-- HTOnAssocRsp
unfoldable pub on_assoc_rsp : (beyond : ℕ → ℕ) → Device → Device
on_assoc_rsp beyond d =
    let cap = cap_start d.ht.peer_ht_cap_buf in
    let info = info_start d.ht.peer_ht_info_buf in
    let width = chl_width d.ht.peer_ht_cap_buf cap in
    let offset = ext_chl_offset d.ht.peer_ht_info_buf info in
    if not d.ht.current_ht_support
    then d
    else let d1 = set_connect_bw_mode d width offset in
      agree_rates beyond (record d1 { ht = agree d1 cap info }) cap info

-- HTUseDefaultSetting; the MPDU density keeps the value that it had.
unfoldable pub use_default_setting : (beyond : ℕ → ℕ) → Device → Device
use_default_setting beyond d =
    let h : HtInfo = record d.ht {
      current_ht_support = true;
      cur_supp_cck = d.ht.reg_supp_cck;
      cur_bw_40mhz = d.ht.reg_bw_40mhz;
      cur_short_gi_20mhz = d.ht.reg_short_gi_20mhz;
      cur_short_gi_40mhz = d.ht.reg_short_gi_40mhz;
      current_amsdu_support = d.ht.amsdu_support;
      current_amsdu_max_size = d.ht.amsdu_max_size;
      current_ampdu_enable = d.ht.ampdu_enable;
      current_ampdu_factor = d.ht.ampdu_factor;
    } in
    let rates = filter_mcs_rate d d.reg_dot11_tx_ht_operational_rate_set in
    let highest = get_highest_mcs_rate (mcs_to_data_rate beyond h) rates mcs_filter_all in
    if d.ht.enable_ht
    then record d {
      ht = h;
      dot11_ht_operational_rate_set = rates;
      ht_highest_opera_rate = highest;
      ht_current_opera_rate = highest;
    }
    else record d { ht = record d.ht { current_ht_support = false } }
