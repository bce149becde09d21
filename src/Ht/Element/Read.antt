-- ===== src/Ht/Element/Read.antt =====
-- What a peer reads from the capability element that the driver sends.
use rtl8190p.Common.{
  ℕ, ◌+◌, ◌%◌, ◌==◌, ◌≡◌, refl, ◌∙◌, arith, Bool, true, not, ◌&&◌, if◌then◌else◌, List, ◌++◌,
  length, take, drop, bytes_eq, take-append, append_assoc, bit_and, inl, inr, ◌⊎◌, replicate,
}
use rtl8190p.Ht.{
  SpecVer, ieee, ewc, ewc_cap, Device, field, flag, cap_start, chl_width, mimo_pwr_save,
  short_gi_20mhz, short_gi_40mhz, max_amsdu_size, dss_cck, max_rx_ampdu_factor, mpdu_density_of,
}
use rtl8190p.Ht.Rates.{half_nmode}
use rtl8190p.Ht.Filter.{mask_byte}
use rtl8190p.Ht.Filter.Sets.{length-mask_byte, length-clear_from}
use rtl8190p.Ht.Element.{
  bit_of, write, advertised_mcs, capability_bytes, construct_capability_element,
}

length-advertised_mcs :
    (d : Device) → length (advertised_mcs d) ≡ length d.reg_dot11_ht_operational_rate_set
unfolding advertised_mcs
length-advertised_mcs d =
    let s = d.reg_dot11_ht_operational_rate_set in
    let a = d.ht.iot_action in
    let s15 = if not (bit_and a 0x08 == 0) then mask_byte 1 0x7f s else s in
    let s14 = if not (bit_and a 0x04 == 0) then mask_byte 1 0xbf s15 else s15 in
    let s2 = if not (bit_and a 0x10 == 0) then mask_byte 1 0x00 s14 else s14 in
    let l15 : length s15 ≡ length s = ground (arith, length-mask_byte s 1 0x7f) in
    let l14 : length s14 ≡ length s = ground (arith, l15, length-mask_byte s15 1 0xbf) in
    let l2 : length s2 ≡ length s = ground (arith, l14, length-mask_byte s14 1 0x00) in
    ground (arith, l2, length-clear_from 15 1 s2)

-- The fields of a structure that starts at the place `o` of a buffer.
abbrev pub Reads : Device → (enc : Bool) → (b : List ℕ) → (o : ℕ) → Type 0
Reads d enc b o =
    (chl_width b o ≡ (if half_nmode d then 0 else bit_of d.ht.reg_bw_40mhz))
    × (mimo_pwr_save b o ≡ d.ht.self_mimo_ps % 4)
    × (short_gi_20mhz b o ≡ true)
    × (short_gi_40mhz b o ≡ true)
    × (max_amsdu_size b o ≡ 1)
    × (dss_cck b o ≡ (d.ht.reg_bw_40mhz && d.ht.reg_supp_cck))
    × (max_rx_ampdu_factor b o ≡ (if enc then 2 else 3))
    × (mpdu_density_of b o ≡ (if enc then 7 else 0))
    × (take 16 (drop (o + 3) b) ≡ advertised_mcs d)

SpecVer-cases : (v : SpecVer) → (v ≡ ieee) ⊎ (v ≡ ewc)
SpecVer-cases ieee = inl refl
SpecVer-cases ewc = inr refl

module _ (d : Device) (len : ℕ) (enc : Bool) where
  -- The first of the bytes is no first byte of EWC11NHTCap.
  start_ieee : cap_start (write (capability_bytes d enc) len) ≡ 0
  unfolding cap_start write capability_bytes bytes_eq
  start_ieee = ground arith

  start_ewc : cap_start (write (ewc_cap ++ capability_bytes d enc) len) ≡ 4
  unfolding cap_start write bytes_eq
  start_ewc = refl

  mcs_first :
      (rest : List ℕ)
      → length (advertised_mcs d) ≡ 16
      → take 16 ((advertised_mcs d ++ replicate 7 0) ++ rest) ≡ advertised_mcs d
  mcs_first rest n =
      rw (append_assoc (advertised_mcs d) (replicate 7 0) rest)
        (rw (← n) (take-append (advertised_mcs d) (replicate 7 0 ++ rest)))

  ieee_fields : length (advertised_mcs d) ≡ 16 → Reads d enc (write (capability_bytes d enc) len) 0
  unfolding write capability_bytes chl_width mimo_pwr_save short_gi_20mhz short_gi_40mhz
      max_amsdu_size dss_cck max_rx_ampdu_factor mpdu_density_of field flag bit_of
  ieee_fields n = (
    ground arith,
    ground arith,
    ground arith,
    ground arith,
    ground arith,
    ground arith,
    ground arith,
    ground arith,
    mcs_first _ n,
  )

  ewc_fields :
      length (advertised_mcs d) ≡ 16 → Reads d enc (write (ewc_cap ++ capability_bytes d enc) len) 4
  unfolding write capability_bytes chl_width mimo_pwr_save short_gi_20mhz short_gi_40mhz
      max_amsdu_size dss_cck max_rx_ampdu_factor mpdu_density_of field flag bit_of
  ewc_fields n = (
    ground arith,
    ground arith,
    ground arith,
    ground arith,
    ground arith,
    ground arith,
    ground arith,
    ground arith,
    mcs_first _ n,
  )

  written_ieee :
      d.ht.peer_ht_spec_ver ≡ ieee
      → (construct_capability_element d len enc).0 ≡ write (capability_bytes d enc) len
  unfolding construct_capability_element
  written_ieee is = ground arith

  written_ewc :
      d.ht.peer_ht_spec_ver ≡ ewc
      → (construct_capability_element d len enc).0 ≡ write (ewc_cap ++ capability_bytes d enc) len
  unfolding construct_capability_element
  written_ewc is = ground arith

-- From the element that HTConstructCapabilityElement writes, for a peer of either form, a receiver
-- that looks for the structure as HTOnAssocRsp does reads what the device is set to: 40 MHz unless
-- the access point takes half the rates only, the power save mode, both short guard intervals,
-- frames of 7935 bytes, CCK rates in 40 MHz, an A-MPDU factor and a density that depend on the
-- encryption, and the set of rates, of 16 bytes, that the device advertises.
pub capability_element-read :
    (d : Device) (len : ℕ) (enc : Bool)
    → length d.reg_dot11_ht_operational_rate_set ≡ 16
    → let b = (construct_capability_element d len enc).0 in Reads d enc b (cap_start b)
capability_element-read d len enc rates =
    let n = length-advertised_mcs d ∙ rates in
    elim (SpecVer-cases d.ht.peer_ht_spec_ver) [
      | inl is ↦ rw (written_ieee d len enc is, start_ieee d len enc) (ieee_fields d len enc n)
      | inr is ↦ rw (written_ewc d len enc is, start_ewc d len enc) (ewc_fields d len enc n)
    ]
