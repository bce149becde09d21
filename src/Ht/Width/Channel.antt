-- ===== src/Ht/Width/Channel.antt =====
-- Which channel and width a connection takes.
use rtl8190p.Common.{
  Bool-cases, inl, inr, ℕ, ◌-◌, ◌+◌, ◌==◌, ltb, ◌≡◌, arith, Bool, true, false, not, ◌&&◌, ◌||◌,
}
use rtl8190p.Common.{if◌then◌else◌, [], ◌∷◌, ◌++◌}
use rtl8190p.Ht.{Device, set_chan, set_bw_mode}
use rtl8190p.Ht.Rates.{half_nmode}
use rtl8190p.Ht.Width.{set_connect_bw_mode, set_connect_bw_mode_callback, connect_offset}

-- 40 MHz are asked for and can be had: the second channel lies above, or below and there is room.
unfoldable pub is_wide : Device → (bandwidth offset : ℕ) → Bool
is_wide d bandwidth offset =
    not (half_nmode d)
    && bandwidth == 1
    && (offset == 1 || (offset == 3 && not (ltb d.current_network.channel 2)))

connect_offset_lem :
    (d : Device) (bandwidth offset : ℕ)
    → connect_offset d bandwidth offset ≡ (if is_wide d bandwidth offset then offset else 0)
unfolding connect_offset is_wide
connect_offset_lem d bandwidth offset = ground arith

is_wide→offset :
    (d : Device) (bandwidth offset : ℕ)
    → is_wide d bandwidth offset ≡ true
    → (offset == 1 || offset == 3) ≡ true
unfolding is_wide
is_wide→offset d bandwidth offset wide = ground arith

-- Where the driver may use 40 MHz and no switch is under way, HTSetConnectBwMode ends with no
-- switch under way and asks the hardware for a channel and then for a width, once each: for 40 MHz,
-- with the second channel on the side that was asked for, 2 channels above or below that of the
-- network, exactly where 40 MHz are asked for, the access point does not take half the rates only,
-- and the second channel is above, or below a channel from 2 on; else for 20 MHz on the network's
-- own channel.
pub set_connect_bw_mode_lem :
    (d : Device) (bandwidth offset : ℕ)
    → d.ht.reg_bw_40mhz ≡ true
    → d.ht.sw_bw_in_progress ≡ false
    → let r = set_connect_bw_mode d bandwidth offset in
      let wide = is_wide d bandwidth offset in
      (r.ht.sw_bw_in_progress ≡ false)
      × (r.ht.cur_bw_40mhz ≡ wide)
      × (r.calls
          ≡ d.calls
            ++ (set_chan (
                  if wide
                  then (if offset == 1
                      then d.current_network.channel + 2
                      else d.current_network.channel - 2)
                  else d.current_network.channel)
                ∷ (if wide then set_bw_mode 1 offset else set_bw_mode 0 0)
                ∷ []))
unfolding set_connect_bw_mode set_connect_bw_mode_callback
set_connect_bw_mode_lem d bandwidth offset registered idle =
    let taken = connect_offset_lem d bandwidth offset in
    elim (Bool-cases (is_wide d bandwidth offset)) [
      | inl wide ↦
          let side = is_wide→offset d bandwidth offset wide in
          (ground (arith, taken), ground (arith, taken, side), ground (arith, taken, side))
      | inr narrow ↦ (ground (arith, taken), ground (arith, taken), ground (arith, taken))
    ]
