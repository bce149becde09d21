-- ===== src/Ht/Assoc/Rate.antt =====
-- The rates that HTOnAssocRsp takes.
use rtl8190p.Common.{
  ℕ, ◌+◌, ◌≤◌, ◌==◌, ◌≡◌, refl, ◌∙◌, Bool-cases, not, arith, true, ◌&&◌, if◌then◌else◌, ◌⊎◌, inl,
  inr, length,
}
use rtl8190p.Ht.{Device, cap_start, info_start, mimo_pwr_save, chl_width, ext_chl_offset}
use rtl8190p.Ht.Rates.{half_nmode, mcs_to_data_rate}
use rtl8190p.Ht.Rates.Highest.{has_rate, get_highest_mcs_rate-cases}
use rtl8190p.Ht.Filter.{filter_mcs_rate, mcs_filter_1ss, mcs_filter_all}
use rtl8190p.Ht.Filter.Sets.{allows, filter_mcs_rate-bits, length-filter_mcs_rate}
use rtl8190p.Ht.Width.{set_connect_bw_mode}
use rtl8190p.Ht.Assoc.{agree, peer_mcs, agree_rates, on_assoc_rsp}
use rtl8190p.Ht.Assoc.Agreed.{keeps_device}

-- The device when HTOnAssocRsp comes to the rates.
settled : Device → Device
settled d =
    let cap = cap_start d.ht.peer_ht_cap_buf in
    let info = info_start d.ht.peer_ht_info_buf in
    let d1 =
      set_connect_bw_mode d (chl_width d.ht.peer_ht_cap_buf cap)
        (ext_chl_offset d.ht.peer_ht_info_buf info) in
    record d1 { ht = agree d1 cap info }

on_assoc_rsp_run :
    (beyond : ℕ → ℕ) (d : Device)
    → d.ht.current_ht_support ≡ true
    → on_assoc_rsp beyond d
      ≡ agree_rates beyond
          (settled d)
          (cap_start d.ht.peer_ht_cap_buf)
          (info_start d.ht.peer_ht_info_buf)
unfolding on_assoc_rsp settled
on_assoc_rsp_run beyond d ht = elim (Bool-cases (not d.ht.current_ht_support)) [
  | inl none ↦ absurd (ground arith)
  | inr some ↦ simp some
]

settled_keeps :
    (d : Device)
    → ((settled d).mode ≡ d.mode)
      × ((settled d).half_wireless_n24g_mode ≡ d.half_wireless_n24g_mode)
      × ((settled d).reg_dot11_tx_ht_operational_rate_set ≡ d.reg_dot11_tx_ht_operational_rate_set)
unfolding settled
settled_keeps d =
    let same =
      keeps_device d (chl_width d.ht.peer_ht_cap_buf (cap_start d.ht.peer_ht_cap_buf))
        (ext_chl_offset d.ht.peer_ht_info_buf (info_start d.ht.peer_ht_info_buf)) in
    (same.2, same.3, same.4)

-- With a rate set of 16 bytes at most and a peer that supports high throughput, HTOnAssocRsp keeps
-- as operational exactly the numbers that the device's set, the peer's set as it is kept and the
-- mode have, and the rate that it takes is 0, or, marked by 0x80, number 0 or an operational one
-- that uses one stream where the peer saves power so.
pub on_assoc_rsp-rate :
    (beyond : ℕ → ℕ) (d : Device) (n : ℕ)
    → d.ht.current_ht_support ≡ true
    → length d.reg_dot11_tx_ht_operational_rate_set ≤ 16
    → let cap = cap_start d.ht.peer_ht_cap_buf in
      let r = on_assoc_rsp beyond d in
      let rates = r.dot11_ht_operational_rate_set in
      let filter =
        if mimo_pwr_save r.ht.peer_ht_cap_buf cap == 0 then mcs_filter_1ss else mcs_filter_all in
      (has_rate rates n ≡ (
        has_rate d.reg_dot11_tx_ht_operational_rate_set n
        && has_rate (peer_mcs r.ht cap) n
        && allows d.mode (half_nmode d) n))
      × ((r.ht_current_opera_rate ≡ 0)
          ⊎ ((m : ℕ) × (r.ht_current_opera_rate ≡ m + 0x80)
              × ((m ≡ 0) ⊎ ((has_rate rates m && has_rate filter m) ≡ true))))
unfolding agree_rates peer_mcs half_nmode
on_assoc_rsp-rate beyond d n ht len =
    let cap = cap_start d.ht.peer_ht_cap_buf in
    let d2 = settled d in
    let (mode, half, own) = settled_keeps d in
    let short : length d2.reg_dot11_tx_ht_operational_rate_set ≤ 16 = rw own len in
    let support = peer_mcs d2.ht cap in
    let rates = filter_mcs_rate d2 support in
    let filter =
      if mimo_pwr_save d2.ht.peer_ht_cap_buf cap == 0 then mcs_filter_1ss else mcs_filter_all in
    let taken =
      get_highest_mcs_rate-cases (mcs_to_data_rate beyond d2.ht) rates filter
        (length-filter_mcs_rate d2 support short) in
    rw (on_assoc_rsp_run beyond d ht) (
      filter_mcs_rate-bits d2 support n short ∙ rw (own, mode, half) refl,
      elim taken [
        | inl none ↦ inl none.0
        | inr found ↦ let (m, e, small, from, most) = found in inr (m, e, from)
      ],
    )
