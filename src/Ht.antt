-- ===== src/Ht.antt =====
-- High throughput (802.11n) negotiation of src/rtl819x_HTProc.c and src/rtl819x_HT.h: the state.
-- A flag of type u8 that holds 0 and 1 only is a Boolean; buffers and rate sets are lists of
-- bytes. `set_chan` and `SetBWModeHandler` are the driver's; `calls` records their calls in order.
pub mod Rates
pub mod Filter
pub mod Iot
pub mod Element
pub mod Settings
pub mod Width
pub mod Assoc
mod Tests
use rtl8190p.Common.{
  ℕ, zero, suc, ◌+◌, ◌/◌, ◌%◌, ◌^◌, ◌==◌, if◌then◌else◌, Bool, true, false, List, [], ◌∷◌, get_or,
  not, bytes_eq, take,
}

-- HT_SPEC_VER
pub data SpecVer : Type 0 where
  ieee : SpecVer
  ewc : SpecVer

-- The values of `mode` that HT_PickMCSRate tells apart.
pub data Mode : Type 0 where
  ieee_a : Mode
  ieee_b : Mode
  ieee_g : Mode
  ieee_n_24g : Mode
  ieee_n_5g : Mode
  other_mode : Mode

-- What is asked of the hardware.
pub data Call : Type 0 where
  set_chan : ℕ → Call
  set_bw_mode : (width offset : ℕ) → Call

-- RT_HIGH_THROUGHPUT, the fields that this file uses.
pub record HtInfo : Type 0 where
  pub enable_ht : Bool
  pub current_ht_support : Bool
  pub reg_bw_40mhz : Bool
  pub cur_bw_40mhz : Bool
  pub reg_short_gi_40mhz : Bool
  pub cur_short_gi_40mhz : Bool
  pub reg_short_gi_20mhz : Bool
  pub cur_short_gi_20mhz : Bool
  pub reg_supp_cck : Bool
  pub cur_supp_cck : Bool
  pub peer_ht_spec_ver : SpecVer
  pub self_ht_cap : List ℕ
  pub self_ht_info : List ℕ
  pub peer_ht_cap_buf : List ℕ
  pub peer_ht_info_buf : List ℕ
  pub amsdu_support : Bool
  pub amsdu_max_size : ℕ
  pub current_amsdu_support : Bool
  pub current_amsdu_max_size : ℕ
  pub ampdu_enable : Bool
  pub current_ampdu_enable : Bool
  pub ampdu_factor : ℕ
  pub current_ampdu_factor : ℕ
  pub mpdu_density : ℕ
  pub current_mpdu_density : ℕ
  pub forced_short_gi : Bool
  pub current_op_mode : ℕ
  pub self_mimo_ps : ℕ
  pub peer_mimo_ps : ℕ
  pub cur_sta_extchnl_offset : ℕ
  pub cur_tx_bw_40mhz : Bool
  pub sw_bw_in_progress : Bool
  pub chnl_op : ℕ
  pub reg_rt2rt_aggregation : Bool
  pub rt2rt_ht_mode : ℕ
  pub current_rt2rt_aggregation : Bool
  pub current_rt2rt_long_slot_time : Bool
  pub reg_rx_reorder_enable : Bool
  pub cur_rx_reorder_enable : Bool
  pub rx_reorder_win_size : ℕ
  pub rx_reorder_pending_time : ℕ
  pub iot_peer : ℕ
  pub iot_action : ℕ
  pub iot_ra_func : ℕ

-- BSS_HT
pub record BssHt : Type 0 where
  pub bd_support_ht : Bool
  pub bd_ht_cap_buf : List ℕ
  pub bd_ht_cap_len : ℕ
  pub bd_ht_info_buf : List ℕ
  pub bd_ht_info_len : ℕ
  pub bd_ht_spec_ver : SpecVer
  pub bd_rt2rt_aggregation : Bool
  pub bd_rt2rt_long_slot_time : Bool
  pub bd_rt2rt_ht_mode : ℕ

-- struct rtllib_network, the fields that this file uses.
pub record Network : Type 0 where
  pub bssid : List ℕ
  pub channel : ℕ
  pub ralink_cap_exist : Bool
  pub broadcom_cap_exist : Bool
  pub atheros_cap_exist : Bool
  pub cisco_cap_exist : Bool
  pub marvell_cap_exist : Bool
  pub bssht : BssHt

-- struct rtllib_device, the fields that this file uses. `ap_sec_type` is what the routine behind
-- the pointer rtllib_ap_sec_type returns, and 0 where there is none.
pub record Device : Type 0 where
  pub ht : HtInfo
  pub mode : Mode
  pub current_network : Network
  pub reg_dot11_ht_operational_rate_set : List ℕ
  pub reg_dot11_tx_ht_operational_rate_set : List ℕ
  pub dot11_ht_operational_rate_set : List ℕ
  pub reg_ht_supp_rate_set : List ℕ
  pub ht_highest_opera_rate : ℕ
  pub ht_current_opera_rate : ℕ
  pub half_wireless_n24g_mode : Bool
  pub ap_sec_type : ℕ
  pub pairwise_key_type : ℕ
  pub tx_disable_rate_fall_back : Bool
  pub tx_use_driver_assigned_rate : Bool
  pub tx_enable_fw_calc_dur : Bool
  pub support_remote_wake_up : Bool
  pub calls : List Call

-- A bit field of `width` bits whose lowest bit is bit `low` of byte `i`.
unfoldable pub field : List ℕ → (i low width : ℕ) → ℕ
field bytes i low width = get_or bytes i 0 / 2 ^ low % 2 ^ width

unfoldable pub flag : List ℕ → (i low : ℕ) → Bool
flag bytes i low = not (field bytes i low 1 == 0)

-- Where HT_CAPABILITY_ELE has its members, from the first byte `o` of the structure on.
unfoldable pub chl_width : List ℕ → ℕ → ℕ
chl_width b o = field b o 1 1

unfoldable pub mimo_pwr_save : List ℕ → ℕ → ℕ
mimo_pwr_save b o = field b o 2 2

unfoldable pub short_gi_20mhz : List ℕ → ℕ → Bool
short_gi_20mhz b o = flag b o 5

unfoldable pub short_gi_40mhz : List ℕ → ℕ → Bool
short_gi_40mhz b o = flag b o 6

unfoldable pub max_amsdu_size : List ℕ → ℕ → ℕ
max_amsdu_size b o = field b (o + 1) 3 1

unfoldable pub dss_cck : List ℕ → ℕ → Bool
dss_cck b o = flag b (o + 1) 4

unfoldable pub max_rx_ampdu_factor : List ℕ → ℕ → ℕ
max_rx_ampdu_factor b o = field b (o + 2) 0 2

unfoldable pub mpdu_density_of : List ℕ → ℕ → ℕ
mpdu_density_of b o = field b (o + 2) 2 3

-- Where HT_INFORMATION_ELE has its members.
unfoldable pub ext_chl_offset : List ℕ → ℕ → ℕ
ext_chl_offset b o = field b (o + 1) 0 2

unfoldable pub recommended_tx_width : List ℕ → ℕ → Bool
recommended_tx_width b o = flag b (o + 1) 2

unfoldable pub opt_mode : List ℕ → ℕ → ℕ
opt_mode b o = field b (o + 2) 0 2

-- EWC11NHTCap and EWC11NHTInfo: the structure starts behind them where the buffer has them.
abbrev pub ewc_cap : List ℕ
ewc_cap = 0x00 ∷ 0x90 ∷ 0x4c ∷ 0x33 ∷ []

abbrev pub ewc_info : List ℕ
ewc_info = 0x00 ∷ 0x90 ∷ 0x4c ∷ 0x34 ∷ []

unfoldable pub cap_start : List ℕ → ℕ
cap_start b = if bytes_eq (take 4 b) ewc_cap then 4 else 0

unfoldable pub info_start : List ℕ → ℕ
info_start b = if bytes_eq (take 4 b) ewc_info then 4 else 0
