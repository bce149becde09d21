-- ===== src/Dot11d.antt =====
-- Country information (802.11d) of src/dot11d.c: which channels may be used, at which power.
pub mod Map
pub mod Update
pub mod Legal
pub mod Plan
mod Tests
use rtl8190p.Common.{ℕ, zero, suc, ◌+◌, ◌-◌, ◌*◌, ◌/◌, ◌%◌, ◌==◌, ltb, leb, if◌then◌else◌}
use rtl8190p.Common.{Bool, true, false, ◌||◌, Option, none, some, List, [], ◌∷◌}
use rtl8190p.Common.{get_or, get_elem?, set, replicate, length}

-- DOT11D_STATE, without the prefix.
pub data State : Type 0 where
  none_yet learned done : State

-- MAX_CHANNEL_NUMBER
abbrev pub max_channel_number : ℕ
max_channel_number = 161

-- RT_DOT11D_INFO with the fields of the device that Dot11d_Channelmap sets. `cie_buf` holds the
-- bytes of CountryIeBuf that were copied.
pub record Info : Type 0 where
  pub enabled : Bool
  pub cie_len : ℕ
  pub cie_buf : List ℕ
  pub cie_src : List ℕ
  pub cie_watchdog : ℕ
  pub channel_map : List ℕ
  pub max_tx_pwr : List ℕ
  pub state : State
  pub global_domain : Bool
  pub ibss_start : ℕ
  pub ibss_maxjoin : ℕ

-- The two calls of memset with which most routines begin.
pub clear_maps : Info → Info
clear_maps d = record d {
  channel_map = replicate (max_channel_number + 1) 0;
  max_tx_pwr = replicate (max_channel_number + 1) 0xff;
}

-- Dot11d_Init
pub dot11d_init : Info → Info
unfolding clear_maps
dot11d_init d = record (clear_maps d) {
  enabled = false;
  state = none_yet;
  cie_len = 0;
  cie_watchdog = 0;
}

-- `for (i = from; ...; i++) channel_map[i] = v`, `left` rounds.
pub mark_channels : ℕ → ℕ → ℕ → List ℕ → List ℕ
mark_channels zero c v m = m
mark_channels (suc left) c v m = mark_channels left (c + 1) v (set m c v)

-- Dot11d_Reset
pub dot11d_reset : Info → Info
unfolding clear_maps mark_channels
dot11d_reset d =
    let e = clear_maps d in
    record e {
      channel_map = mark_channels 3 12 2 (mark_channels 11 1 1 e.channel_map);
      state = none_yet;
      cie_len = 0;
      cie_watchdog = 0;
    }

-- The table ChannelPlan; a row stands for its first `Len` entries.
abbrev pub channel_plans : List (List ℕ)
channel_plans =
    (1 ∷ 2 ∷ 3 ∷ 4 ∷ 5 ∷ 6 ∷ 7 ∷ 8 ∷ 9 ∷ 10 ∷ 11 ∷ 36 ∷ 40 ∷ 44 ∷ 48 ∷ 52 ∷ 56 ∷ 60 ∷ 64 ∷ 149 ∷ 153
      ∷ 157 ∷ 161 ∷ 165 ∷ [])
    ∷ (1 ∷ 2 ∷ 3 ∷ 4 ∷ 5 ∷ 6 ∷ 7 ∷ 8 ∷ 9 ∷ 10 ∷ 11 ∷ [])
    ∷ (1 ∷ 2 ∷ 3 ∷ 4 ∷ 5 ∷ 6 ∷ 7 ∷ 8 ∷ 9 ∷ 10 ∷ 11 ∷ 12 ∷ 13 ∷ 36 ∷ 40 ∷ 44 ∷ 48 ∷ 52 ∷ 56 ∷ 60 ∷ 64
        ∷ [])
    ∷ (1 ∷ 2 ∷ 3 ∷ 4 ∷ 5 ∷ 6 ∷ 7 ∷ 8 ∷ 9 ∷ 10 ∷ 11 ∷ 12 ∷ 13 ∷ [])
    ∷ (1 ∷ 2 ∷ 3 ∷ 4 ∷ 5 ∷ 6 ∷ 7 ∷ 8 ∷ 9 ∷ 10 ∷ 11 ∷ 12 ∷ 13 ∷ [])
    ∷ (1 ∷ 2 ∷ 3 ∷ 4 ∷ 5 ∷ 6 ∷ 7 ∷ 8 ∷ 9 ∷ 10 ∷ 11 ∷ 12 ∷ 13 ∷ 14 ∷ 36 ∷ 40 ∷ 44 ∷ 48 ∷ 52 ∷ 56 ∷ 60
        ∷ 64 ∷ [])
    ∷ (1 ∷ 2 ∷ 3 ∷ 4 ∷ 5 ∷ 6 ∷ 7 ∷ 8 ∷ 9 ∷ 10 ∷ 11 ∷ 12 ∷ 13 ∷ 14 ∷ 36 ∷ 40 ∷ 44 ∷ 48 ∷ 52 ∷ 56 ∷ 60
        ∷ 64 ∷ [])
    ∷ (1 ∷ 2 ∷ 3 ∷ 4 ∷ 5 ∷ 6 ∷ 7 ∷ 8 ∷ 9 ∷ 10 ∷ 11 ∷ 12 ∷ 13 ∷ [])
    ∷ (1 ∷ 2 ∷ 3 ∷ 4 ∷ 5 ∷ 6 ∷ 7 ∷ 8 ∷ 9 ∷ 10 ∷ 11 ∷ 12 ∷ 13 ∷ 14 ∷ 36 ∷ 40 ∷ 44 ∷ 48 ∷ 52 ∷ 56 ∷ 60
        ∷ 64 ∷ [])
    ∷ (1 ∷ 2 ∷ 3 ∷ 4 ∷ 5 ∷ 6 ∷ 7 ∷ 8 ∷ 9 ∷ 10 ∷ 11 ∷ 12 ∷ 13 ∷ 14 ∷ 36 ∷ 40 ∷ 44 ∷ 48 ∷ 52 ∷ 56 ∷ 60
        ∷ 64 ∷ [])
    ∷ (1 ∷ 2 ∷ 3 ∷ 4 ∷ 5 ∷ 6 ∷ 7 ∷ 8 ∷ 9 ∷ 10 ∷ 11 ∷ 12 ∷ 13 ∷ 14 ∷ [])
    ∷ (1 ∷ 2 ∷ 3 ∷ 4 ∷ 5 ∷ 6 ∷ 7 ∷ 8 ∷ 9 ∷ 10 ∷ 11 ∷ 12 ∷ 13 ∷ [])
    ∷ (1 ∷ 2 ∷ 3 ∷ 4 ∷ 5 ∷ 6 ∷ 7 ∷ 8 ∷ 9 ∷ 10 ∷ 11 ∷ 12 ∷ 13 ∷ 36 ∷ 40 ∷ 44 ∷ 48 ∷ 52 ∷ 56 ∷ 60 ∷ 64
        ∷ [])
    ∷ []

-- The loop over a row: it ends at the first channel outside 1 to 14.
pub plan_channels : List ℕ → List ℕ → List ℕ
plan_channels [] m = m
plan_channels (c ∷ cs) m = if ltb c 1 || ltb 14 c then m else plan_channels cs (set m c 1)

-- COUNTRY_CODE_GLOBAL_DOMAIN and COUNTRY_CODE_WORLD_WIDE_13
abbrev pub global_plan : ℕ
global_plan = 10

abbrev pub world_wide_13 : ℕ
world_wide_13 = 11

-- The `switch` of Dot11d_Channelmap.
pub plan_special : ℕ → Info → Info
unfolding mark_channels
plan_special plan d =
    if plan == global_plan
    then record d {
      global_domain = true;
      channel_map = mark_channels 3 12 2 d.channel_map;
      ibss_start = 10;
      ibss_maxjoin = 11;
    }
    else if plan == world_wide_13
    then record d {
      channel_map = mark_channels 2 12 2 d.channel_map;
      ibss_start = 10;
      ibss_maxjoin = 11;
    }
    else record d { ibss_start = 1; ibss_maxjoin = 14 }

-- Dot11d_Channelmap for the row of the plan; `Len` is 0 for an empty row. `none` is a read past
-- the end of the table.
pub dot11d_channelmap : ℕ → Info → Option Info
unfolding plan_special plan_channels
dot11d_channelmap plan d = elim (get_elem? channel_plans plan) [
  | none ↦ none
  | some row ↦
      let e = record d { global_domain = false } in
      some (
        plan_special plan (
          if length row == 0
          then e
          else record e { channel_map = plan_channels row (replicate (max_channel_number + 1) 0) }))
]

-- The country element as memory: the byte at each distance from `pCoutryIe`.
abbrev pub Bytes : Type 0
Bytes = ℕ → ℕ

-- `(u8)((CoutryIeLen - 3) / 3)`, where C rounds towards 0: -1 for an empty element.
pub num_triples : ℕ → ℕ
num_triples len = if len == 0 then 255 else (len - 3) / 3 % 256

-- The inner loop: `left` channels from `c` on get the mark 1 and the power.
pub set_channels : ℕ → ℕ → ℕ → Info → Info
set_channels zero c pwr d = d
set_channels (suc left) c pwr d =
    set_channels left (c + 1) pwr
      (record d { channel_map = set d.channel_map c 1; max_tx_pwr = set d.max_tx_pwr c pwr })

-- The outer loop with `left` triples to read from `pos` on; `last` is MaxChnlNum. The Boolean is
-- false where the source returns early.
pub update_loop : Bytes → ℕ → ℕ → ℕ → Info → Bool × Info
unfolding set_channels
update_loop ie zero pos last d = (true, d)
update_loop ie (suc left) pos last d =
    let first = ie pos in
    let num = ie (pos + 1) in
    let pwr = ie (pos + 2) in
    let more =
      update_loop ie left (pos + 3) (if num == 0 then last else first + num - 1)
        (set_channels num first pwr d) in
    if leb first last
    then (false, d)
    else if ltb max_channel_number (first + num)
    then (false, d)
    else more

-- `len` bytes of memory, from `pos` on.
pub copy_bytes : Bytes → ℕ → ℕ → List ℕ
copy_bytes ie zero pos = []
copy_bytes ie (suc len) pos = ie pos ∷ copy_bytes ie len (pos + 1)

-- Dot11d_UpdateCountryIe
pub dot11d_update : List ℕ → ℕ → Bytes → Info → Info
unfolding clear_maps num_triples update_loop copy_bytes
dot11d_update src len ie d =
    let (fits, e) = update_loop ie (num_triples len) 3 0 (clear_maps d) in
    if fits
    then record e { cie_src = src; cie_len = len; cie_buf = copy_bytes ie len 0; state = learned }
    else e

-- DOT11D_GetMaxTxPwrInDbm
pub max_tx_pwr_in_dbm : Info → ℕ → ℕ
max_tx_pwr_in_dbm d channel =
    if ltb max_channel_number channel
    then 255
    else if get_or d.channel_map channel 0 == 0
    then 255
    else get_or d.max_tx_pwr channel 0

-- DOT11D_ScanComplete
pub scan_complete : Info → Info
unfolding dot11d_reset
scan_complete d = elim d.state [
  | learned ↦ record d { state = done }
  | done ↦ if d.cie_watchdog == 0 then dot11d_reset d else d
  | none_yet ↦ d
]

-- IsLegalChannel
pub is_legal_channel : Info → ℕ → Bool
is_legal_channel d channel =
    if ltb max_channel_number channel then false else ltb 0 (get_or d.channel_map channel 0)

-- The loop of ToLegalChannel: the first channel in use, from `c` on with `left` to look at.
pub first_legal : List ℕ → ℕ → ℕ → ℕ
first_legal m zero c = 0
first_legal m (suc left) c =
    let more = first_legal m left (c + 1) in if ltb 0 (get_or m c 0) then c else more

-- ToLegalChannel
pub to_legal_channel : Info → ℕ → ℕ
to_legal_channel d channel =
    let default_chn = first_legal d.channel_map max_channel_number 1 in
    if ltb max_channel_number channel
    then default_chn
    else if ltb 0 (get_or d.channel_map channel 0)
    then channel
    else default_chn
