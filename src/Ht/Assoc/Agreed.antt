-- ===== src/Ht/Assoc/Agreed.antt =====
-- What HTOnAssocRsp settles lies within what both sides can do.
use rtl8190p.Common.{ℕ, ◌≤◌, ◌==◌, ◌≡◌, arith, true, ◌&&◌}
use rtl8190p.Common.{if◌then◌else◌}
use rtl8190p.Ht.{
  Device, cap_start, info_start, max_amsdu_size, mpdu_density_of, short_gi_20mhz, short_gi_40mhz,
  max_rx_ampdu_factor, dss_cck, chl_width, ext_chl_offset,
}
use rtl8190p.Ht.Width.{set_connect_bw_mode, set_connect_bw_mode_callback}
use rtl8190p.Ht.Assoc.{agreed_factor, agree, agree_rates, on_assoc_rsp}

-- What a switch of the width leaves alone.
pub keeps_ht :
    (d : Device) (width offset : ℕ)
    → let r = set_connect_bw_mode d width offset in
      (r.ht.peer_ht_cap_buf ≡ d.ht.peer_ht_cap_buf)
      × (r.ht.amsdu_max_size ≡ d.ht.amsdu_max_size)
      × (r.ht.mpdu_density ≡ d.ht.mpdu_density)
      × (r.ht.reg_short_gi_20mhz ≡ d.ht.reg_short_gi_20mhz)
      × (r.ht.reg_short_gi_40mhz ≡ d.ht.reg_short_gi_40mhz)
      × (r.ht.reg_rt2rt_aggregation ≡ d.ht.reg_rt2rt_aggregation)
      × (r.ht.reg_supp_cck ≡ d.ht.reg_supp_cck)
unfolding set_connect_bw_mode set_connect_bw_mode_callback
keeps_ht d width offset = ground arith

pub keeps_device :
    (d : Device) (width offset : ℕ)
    → let r = set_connect_bw_mode d width offset in
      (r.current_network ≡ d.current_network)
      × (r.pairwise_key_type ≡ d.pairwise_key_type)
      × (r.mode ≡ d.mode)
      × (r.half_wireless_n24g_mode ≡ d.half_wireless_n24g_mode)
      × (r.reg_dot11_tx_ht_operational_rate_set ≡ d.reg_dot11_tx_ht_operational_rate_set)
unfolding set_connect_bw_mode set_connect_bw_mode_callback
keeps_device d width offset = ground arith

agreed_factor-le :
    (d : Device) (peer : ℕ)
    → agreed_factor d peer ≤ (
        if d.ht.reg_rt2rt_aggregation
          && d.current_network.bssht.bd_rt2rt_aggregation
          && d.pairwise_key_type == 0
        then 3
        else peer)
unfolding agreed_factor
agreed_factor-le d peer = ground arith

-- The device after the switch of the width in HTOnAssocRsp.
switched : Device → Device
switched d =
    set_connect_bw_mode d (chl_width d.ht.peer_ht_cap_buf (cap_start d.ht.peer_ht_cap_buf))
      (ext_chl_offset d.ht.peer_ht_info_buf (info_start d.ht.peer_ht_info_buf))

-- Where the peer supports high throughput, HTOnAssocRsp settles on an A-MSDU size that neither
-- side exceeds, on an MPDU density that is as wide as either side asks for, on short guard
-- intervals and CCK rates that both sides support, and, unless both are stations of this vendor
-- with no pairwise key, on an A-MPDU factor that the peer takes.
pub on_assoc_rsp-within :
    (beyond : ℕ → ℕ) (d : Device)
    → d.ht.current_ht_support ≡ true
    → let c = d.ht.peer_ht_cap_buf in
      let cap = cap_start c in
      let h = (on_assoc_rsp beyond d).ht in
      (h.current_amsdu_max_size ≤ d.ht.amsdu_max_size)
      × (h.current_amsdu_max_size ≤ (if max_amsdu_size c cap == 0 then 3839 else 7935))
      × (d.ht.mpdu_density ≤ h.current_mpdu_density)
      × (mpdu_density_of c cap ≤ h.current_mpdu_density)
      × (h.cur_short_gi_20mhz ≡ (d.ht.reg_short_gi_20mhz && short_gi_20mhz c cap))
      × (h.cur_short_gi_40mhz ≡ (d.ht.reg_short_gi_40mhz && short_gi_40mhz c cap))
      × (h.cur_supp_cck ≡ (d.ht.reg_supp_cck && dss_cck c cap))
      × (h.current_ampdu_factor ≤ (
          if d.ht.reg_rt2rt_aggregation
            && d.current_network.bssht.bd_rt2rt_aggregation
            && d.pairwise_key_type == 0
          then 3
          else max_rx_ampdu_factor c cap))
unfolding on_assoc_rsp agree agree_rates switched
on_assoc_rsp-within beyond d ht =
    let c = d.ht.peer_ht_cap_buf in
    let cap = cap_start c in
    let width = chl_width c cap in
    let offset = ext_chl_offset d.ht.peer_ht_info_buf (info_start d.ht.peer_ht_info_buf) in
    let own = keeps_ht d width offset in
    let same = keeps_device d width offset in
    let sw = switched d in
    let factor = agreed_factor-le sw (max_rx_ampdu_factor c cap) in
    (
      ground (arith, own),
      ground (arith, own),
      ground (arith, own),
      ground (arith, own),
      ground (arith, own),
      ground (arith, own),
      ground (arith, own),
      ground (arith, own, same, factor),
    )
