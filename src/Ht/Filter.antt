-- ===== src/Ht/Filter.antt =====
-- The rate sets of src/rtl819x_HTProc.c: HT_PickMCSRate, HTFilterMCSRate and the filters
-- MCS_FILTER_ALL and MCS_FILTER_1SS. A rate set has 16 bytes, one bit for each MCS number.
pub mod Sets
use rtl8190p.Common.{ℕ, zero, suc, ◌+◌, if◌then◌else◌, List, [], ◌∷◌, ◌++◌, bit_and, set, get_or}
use rtl8190p.Common.{take, replicate}
use rtl8190p.Ht.{Mode, ieee_a, ieee_b, ieee_g, ieee_n_24g, ieee_n_5g, other_mode, HtInfo, Device}
use rtl8190p.Ht.Rates.{half_nmode, zip_and}

abbrev pub mcs_filter_all : List ℕ
mcs_filter_all =
    0xff ∷ 0xff ∷ 0xff ∷ 0xff ∷ 0xff ∷ 0xff ∷ 0xff ∷ 0xff ∷ 0xff ∷ 0x1f ∷ 0x00 ∷ 0x00 ∷ 0x00 ∷ 0x00
    ∷ 0x00 ∷ 0x00 ∷ []

abbrev pub mcs_filter_1ss : List ℕ
mcs_filter_1ss =
    0xff ∷ 0x00 ∷ 0x00 ∷ 0x01 ∷ 0x00 ∷ 0x00 ∷ 0x00 ∷ 0x00 ∷ 0x00 ∷ 0x00 ∷ 0x00 ∷ 0x00 ∷ 0x00 ∷ 0x00
    ∷ 0x00 ∷ 0x00 ∷ []

unfoldable pub mask_byte : ℕ → ℕ → List ℕ → List ℕ
mask_byte i mask s = set s i (bit_and (get_or s i 0) mask)

-- RATE_ADPT_1SS_MASK, RATE_ADPT_2SS_MASK and RATE_ADPT_MCS32_MASK
unfoldable pub mask_rates : List ℕ → List ℕ
mask_rates s = mask_byte 3 0x01 (mask_byte 1 0xf0 (mask_byte 0 0xff s))

-- The bytes from `first` on, `n` of them, are set to 0.
unfoldable pub clear_from : (first n : ℕ) → List ℕ → List ℕ
clear_from first zero s = s
clear_from first (suc n) s = clear_from (suc first) n (set s first 0)

-- HT_PickMCSRate
unfoldable pub pick_mcs_rate : Mode → List ℕ → List ℕ
pick_mcs_rate ieee_a s = clear_from 0 16 s
pick_mcs_rate ieee_b s = clear_from 0 16 s
pick_mcs_rate ieee_g s = clear_from 0 16 s
pick_mcs_rate ieee_n_24g s = mask_rates s
pick_mcs_rate ieee_n_5g s = mask_rates s
pick_mcs_rate other_mode s = s

-- HTFilterMCSRate: the operational set that it writes, for the peer's set `support`.
unfoldable pub filter_mcs_rate : Device → (support : List ℕ) → List ℕ
filter_mcs_rate d support =
    let picked = pick_mcs_rate d.mode (zip_and d.reg_dot11_tx_ht_operational_rate_set support) in
    clear_from 2 14 (if half_nmode d then set picked 1 0 else picked)
