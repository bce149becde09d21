-- ===== src/Ht/Iot.antt =====
-- Peers that need a workaround, by the vendor part of their address and the elements they send:
-- IsHTHalfNmodeAPs, HTIOTPeerDetermine and the HTIOTAct routines of src/rtl819x_HTProc.c, as the
-- file is compiled for the RTL8190P, without the code for the RTL8192U and the RTL8192SU.
use rtl8190p.Common.{ℕ, if◌then◌else◌, ◌==◌, Bool, true, false, not, ◌&&◌, ◌||◌}
use rtl8190p.Common.{List, [], ◌∷◌, take, bytes_eq, bit_and, bit_or}
use rtl8190p.Ht.{HtInfo, Network}

-- memcmp(net->bssid, vendor, 3) == 0
unfoldable pub is_vendor : Network → List ℕ → Bool
is_vendor net vendor = bytes_eq (take 3 net.bssid) vendor

abbrev unknown_broadcom : List ℕ
unknown_broadcom = 0x00 ∷ 0x14 ∷ 0xbf ∷ []

abbrev linksyswrt330_linksyswrt300_broadcom : List ℕ
linksyswrt330_linksyswrt300_broadcom = 0x00 ∷ 0x1a ∷ 0x70 ∷ []

abbrev linksyswrt350_linksyswrt150_broadcom : List ℕ
linksyswrt350_linksyswrt150_broadcom = 0x00 ∷ 0x1d ∷ 0x7e ∷ []

abbrev belkinf5d8233v1_ralink : List ℕ
belkinf5d8233v1_ralink = 0x00 ∷ 0x17 ∷ 0x3f ∷ []

abbrev belkinf5d82334v3_ralink : List ℕ
belkinf5d82334v3_ralink = 0x00 ∷ 0x1c ∷ 0xdf ∷ []

abbrev pci_ralink : List ℕ
pci_ralink = 0x00 ∷ 0x90 ∷ 0xcc ∷ []

abbrev edimax_ralink : List ℕ
edimax_ralink = 0x00 ∷ 0x0e ∷ 0x2e ∷ []

abbrev airlink_ralink : List ℕ
airlink_ralink = 0x00 ∷ 0x18 ∷ 0x02 ∷ []

abbrev dlink_atheros_1 : List ℕ
dlink_atheros_1 = 0x00 ∷ 0x1c ∷ 0xf0 ∷ []

abbrev dlink_atheros_2 : List ℕ
dlink_atheros_2 = 0x00 ∷ 0x21 ∷ 0x91 ∷ []

abbrev cisco_broadcom : List ℕ
cisco_broadcom = 0x00 ∷ 0x17 ∷ 0x94 ∷ []

abbrev linksys_marvell_4400n : List ℕ
linksys_marvell_4400n = 0x00 ∷ 0x14 ∷ 0xa4 ∷ []

abbrev pub peer_unknown : ℕ
peer_unknown = 0

abbrev pub peer_realtek : ℕ
peer_realtek = 1

abbrev pub peer_realtek_92se : ℕ
peer_realtek_92se = 2

abbrev pub peer_broadcom : ℕ
peer_broadcom = 3

abbrev pub peer_ralink : ℕ
peer_ralink = 4

abbrev pub peer_atheros : ℕ
peer_atheros = 5

abbrev pub peer_cisco : ℕ
peer_cisco = 6

abbrev pub peer_marvell : ℕ
peer_marvell = 7

abbrev pub peer_92u_softap : ℕ
peer_92u_softap = 8

-- The vendors that both IsHTHalfNmodeAPs and HTIOTPeerDetermine test for.
unfoldable pub is_ralink : Network → Bool
is_ralink net =
    is_vendor net belkinf5d8233v1_ralink
    || is_vendor net belkinf5d82334v3_ralink
    || is_vendor net pci_ralink
    || is_vendor net edimax_ralink
    || is_vendor net airlink_ralink
    || net.ralink_cap_exist

unfoldable pub is_broadcom_vendor : Network → Bool
is_broadcom_vendor net =
    is_vendor net unknown_broadcom
    || is_vendor net linksyswrt330_linksyswrt300_broadcom
    || is_vendor net linksyswrt350_linksyswrt150_broadcom

-- IsHTHalfNmodeAPs
unfoldable pub is_half_nmode_aps : Network → Bool
is_half_nmode_aps net =
    if is_ralink net
    then true
    else if is_broadcom_vendor net || net.broadcom_cap_exist
    then true
    else net.bssht.bd_rt2rt_aggregation

-- HTIOTPeerDetermine: the new IOTPeer. The later of two tests of RT2RT_HT_Mode wins.
unfoldable pub peer_determine : Network → ℕ
peer_determine net =
    if net.bssht.bd_rt2rt_aggregation
    then (if not (bit_and net.bssht.bd_rt2rt_ht_mode 0x10 == 0)
        then peer_92u_softap
        else if not (bit_and net.bssht.bd_rt2rt_ht_mode 0x20 == 0)
        then peer_realtek_92se
        else peer_realtek)
    else if net.broadcom_cap_exist
    then peer_broadcom
    else if is_broadcom_vendor net
    then peer_broadcom
    else if is_ralink net
    then peer_ralink
    else if net.atheros_cap_exist || is_vendor net dlink_atheros_1 || is_vendor net dlink_atheros_2
    then peer_atheros
    else if is_vendor net cisco_broadcom || net.cisco_cap_exist
    then peer_cisco
    else if is_vendor net linksys_marvell_4400n || net.marvell_cap_exist
    then peer_marvell
    else peer_unknown

-- HTIOTActIsDisableMCS14, HTIOTActIsDisableMCS15, HTIOTActIsDisableMCSTwoSpatialStream and
-- HTIOTActIsDisableEDCATurbo are false; HTIOTActIsMgntUseCCK6M and HTIOTActIsCCDFsync test for a
-- Broadcom peer.
unfoldable pub is_disable_mcs14 : Bool
is_disable_mcs14 = false

unfoldable pub is_disable_mcs15 : Bool
is_disable_mcs15 = false

unfoldable pub is_disable_mcs_two_spatial_stream : Bool
is_disable_mcs_two_spatial_stream = false

unfoldable pub is_disable_edca_turbo : Bool
is_disable_edca_turbo = false

unfoldable pub is_mgnt_use_cck_6m : ℕ → Bool
is_mgnt_use_cck_6m peer = peer == peer_broadcom

unfoldable pub is_ccd_fsync : ℕ → Bool
is_ccd_fsync peer = peer == peer_broadcom

unfoldable pub act : Bool → ℕ → ℕ → ℕ
act is_on bit action = if is_on then bit_or action bit else action

-- The new IOTAction, as HTResetSelfAndSavePeerSetting builds it.
unfoldable pub actions : (peer : ℕ) → ℕ
actions peer = act (is_ccd_fsync peer) 0x80 (
    act (is_mgnt_use_cck_6m peer) 0x40 (
      act is_disable_edca_turbo 0x20 (
        act is_disable_mcs_two_spatial_stream 0x10
          (act is_disable_mcs15 0x08 (act is_disable_mcs14 0x04 0)))))

-- HTIOTActDetermineRaFunc: the new IOTRaFunc; the bits before are masked with 0.
unfoldable pub determine_ra_func : HtInfo → (peer_rx_2ss : Bool) → ℕ
determine_ra_func h peer_rx_2ss =
    let one = if h.iot_peer == peer_ralink && not peer_rx_2ss then 0x01 else 0 in
    if not (bit_and h.iot_action 0x800 == 0) then bit_or one 0x02 else one

-- HTResetIOTSetting
unfoldable pub reset_iot_setting : HtInfo → HtInfo
reset_iot_setting h = record h { iot_action = 0; iot_peer = peer_unknown; iot_ra_func = 0 }
