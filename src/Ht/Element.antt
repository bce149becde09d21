-- ===== src/Ht/Element.antt =====
-- The elements that the driver sends, of src/rtl819x_HTProc.c: HTConstructCapabilityElement,
-- HTConstructInfoElement and HTConstructRT2RTAggElement. Each gives the buffer, of which `len`
-- bytes are cleared first, and the new value of `*len`.
pub mod Read
use rtl8190p.Common.{ℕ, zero, suc, ◌+◌, ◌*◌, ◌%◌, ◌==◌, leb, if◌then◌else◌}
use rtl8190p.Common.{Bool, true, false, not, ◌||◌, List, [], ◌∷◌, ◌++◌, length, get_or, set, drop}
use rtl8190p.Common.{take, replicate, bit_and, bit_or}
use rtl8190p.Ht.{SpecVer, ieee, ewc, HtInfo, Device, Network, ewc_cap}
use rtl8190p.Ht.Rates.{half_nmode}
use rtl8190p.Ht.Filter.{mask_byte, clear_from}

unfoldable pub bit_of : Bool → ℕ
bit_of b = if b then 1 else 0

-- `bytes` written at the start of a cleared buffer of `len` bytes.
unfoldable pub write : (bytes : List ℕ) → (len : ℕ) → List ℕ
write bytes len = bytes ++ drop (length bytes) (replicate len 0)

-- The MCS set of the element.
unfoldable pub advertised_mcs : Device → List ℕ
advertised_mcs d =
    let s = d.reg_dot11_ht_operational_rate_set in
    let s15 = if not (bit_and d.ht.iot_action 0x08 == 0) then mask_byte 1 0x7f s else s in
    let s14 = if not (bit_and d.ht.iot_action 0x04 == 0) then mask_byte 1 0xbf s15 else s15 in
    let s2 = if not (bit_and d.ht.iot_action 0x10 == 0) then mask_byte 1 0x00 s14 else s14 in
    if half_nmode d then clear_from 1 15 s2 else s2

-- HT_CAPABILITY_ELE as HTConstructCapabilityElement fills it, its bit fields put together: both
-- short guard intervals and sending with STBC, frames of 7935 bytes, and the MCS set.
unfoldable pub capability_bytes : Device → (is_encrypt : Bool) → List ℕ
capability_bytes d is_encrypt =
    let chl = if half_nmode d then 0 else bit_of d.ht.reg_bw_40mhz in
    let cck = if d.ht.reg_bw_40mhz then bit_of d.ht.reg_supp_cck else 0 in
    (chl * 2 + d.ht.self_mimo_ps % 4 * 4 + 32 + 64 + 128)
      ∷ (8 + cck * 16)
      ∷ (if is_encrypt then 2 + 7 * 4 else 3)
      ∷ advertised_mcs d
    ++ replicate 7 0

-- HTConstructCapabilityElement
unfoldable pub construct_capability_element : Device → (len : ℕ) → (is_encrypt : Bool) → List ℕ × ℕ
construct_capability_element d len is_encrypt = elim d.ht.peer_ht_spec_ver [
  | ewc ↦ (write (ewc_cap ++ capability_bytes d is_encrypt) len, 32)
  | ieee ↦ (write (capability_bytes d is_encrypt) len, 28)
]

-- HTConstructInfoElement; `builds` says that iw_mode is IW_MODE_ADHOC or IW_MODE_MASTER.
unfoldable pub construct_info_element : Device → (builds : Bool) → (len : ℕ) → List ℕ × ℕ
construct_info_element d builds len =
    let channel = d.current_network.channel in
    let offset = if not d.ht.reg_bw_40mhz then 0 else if leb channel 6 then 1 else 3 in
    if builds
    then (
      write
          (channel % 256
            ∷ (offset + bit_of d.ht.reg_bw_40mhz * 4)
            ∷ d.ht.current_op_mode % 4
            ∷ replicate 19 0)
          len,
      24,
    )
    else (replicate len 0, 0)

-- HTConstructRT2RTAggElement
unfoldable pub construct_rt2rt_agg_element : Device → (len : ℕ) → List ℕ × ℕ
construct_rt2rt_agg_element d len = (
  write
      (0x00
        ∷ 0xe0
        ∷ 0x4c
        ∷ 0x02
        ∷ 0x01
        ∷ (if d.support_remote_wake_up then bit_or 0x10 0x08 else 0x10)
        ∷ [])
      len,
  8,
)
