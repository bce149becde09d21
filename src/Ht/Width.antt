-- ===== src/Ht/Width.antt =====
-- The channel width of a connection, of src/rtl819x_HTProc.c: HTSetConnectBwMode and its callback.
pub mod Channel
use rtl8190p.Common.{ℕ, ◌+◌, ◌-◌, ◌*◌, ◌%◌, ◌==◌, ltb, leb, if◌then◌else◌}
use rtl8190p.Common.{Bool, true, false, not, ◌&&◌, ◌||◌, List, [], ◌∷◌, ◌++◌, length, get_or, set}
use rtl8190p.Common.{take, drop, replicate, bit_and}
use rtl8190p.Ht
use rtl8190p.Ht.{
  ieee, HtInfo, Device, Network, BssHt, field, chl_width, mimo_pwr_save, short_gi_20mhz,
  short_gi_40mhz, max_amsdu_size, dss_cck, max_rx_ampdu_factor, mpdu_density_of, ext_chl_offset,
  recommended_tx_width, opt_mode, cap_start, info_start, set_chan, set_bw_mode,
}
use rtl8190p.Ht.Rates.{half_nmode, mcs_to_data_rate, get_highest_mcs_rate}
use rtl8190p.Ht.Filter.{mcs_filter_all, mcs_filter_1ss, filter_mcs_rate}
use rtl8190p.Ht.Iot.{peer_unknown, peer_atheros, peer_determine, actions, determine_ra_func}

-- HTSetConnectBwModeCallback
unfoldable pub set_connect_bw_mode_callback : Device → Device
set_connect_bw_mode_callback d =
    let channel = d.current_network.channel in
    let offset = d.ht.cur_sta_extchnl_offset in
    let chan =
      if not d.ht.cur_bw_40mhz
      then channel
      else if offset == 1
      then channel + 2
      else if offset == 3
      then channel - 2
      else channel in
    let bw = if d.ht.cur_bw_40mhz then set_bw_mode 1 offset else set_bw_mode 0 0 in
    record d {
      calls = d.calls ++ (set_chan chan ∷ bw ∷ []);
      ht = record d.ht { sw_bw_in_progress = false };
    }

-- The offset that HTSetConnectBwMode takes: HT_EXTCHNL_OFFSET_UPPER 1, HT_EXTCHNL_OFFSET_LOWER 3,
-- or HT_EXTCHNL_OFFSET_NO_EXT 0 where 40 MHz is not used.
unfoldable pub connect_offset : Device → (bandwidth offset : ℕ) → ℕ
connect_offset d bandwidth offset =
    let width = if half_nmode d then 0 else bandwidth in
    let tried = if ltb d.current_network.channel 2 && offset == 3 then 0 else offset in
    if not (width == 1) then 0 else if tried == 1 || tried == 3 then tried else 0

-- HTSetConnectBwMode
unfoldable pub set_connect_bw_mode : Device → (bandwidth offset : ℕ) → Device
set_connect_bw_mode d bandwidth offset =
    if not d.ht.reg_bw_40mhz
    then d
    else if d.ht.sw_bw_in_progress
    then d
    else let taken = connect_offset d bandwidth offset in
      set_connect_bw_mode_callback (record d {
        ht = record d.ht {
          cur_bw_40mhz = not (taken == 0);
          cur_sta_extchnl_offset = taken;
          sw_bw_in_progress = true;
        };
      })
