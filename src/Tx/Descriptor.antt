-- ===== src/Tx/Descriptor.antt =====
-- The descriptor of a frame: whether it goes out in an aggregate and behind an RTS, its guard
-- interval and its width, src/rtllib_tx.c.
pub mod Choice
mod Tests
use rtl8190p.Common.{
  ℕ, ◌+◌, ◌/◌, ◌%◌, ◌==◌, ltb, if◌then◌else◌, Bool, true, false, not, ◌&&◌, ◌||◌, Option, none,
  some, bit_and, bit_or,
}
use rtl8190p.SeqNum.{sn_less}
use rtl8190p.Ts.{TxTs}
use rtl8190p.Ba.{ts_start_add_ba_process}
use rtl8190p.Ht.{HtInfo}

-- cb_desc, the fields that these routines use.
pub record Desc : Type 0 where
  pub data_rate : ℕ
  pub is_multicast : Bool
  pub is_broadcast : Bool
  pub is_dhcp : Bool
  pub ampdu_enable : Bool
  pub ampdu_factor : ℕ
  pub ampdu_density : ℕ
  pub use_short_gi : Bool
  pub packet_bw : Bool
  pub use_short_preamble : Bool
  pub rts_enable : Bool
  pub cts_enable : Bool
  pub rts_rate : ℕ

-- HT_AGGRE_MODE_E
pub data AggMode : Type 0 where
  agg_auto : AggMode
  agg_force_enable : AggMode
  agg_force_disable : AggMode

-- The device: the record of HT, ForcedAMPDUMode with the forced factor and density,
-- bforced_tx20Mhz, what GetNmodeSupportBySecCfg returns, whether there is a WPA element but no
-- pairwise key, whether iw_mode is infrastructure or master, `mode`, `rts`, buseprotection, and the
-- short preamble of the network's capability.
pub record Device : Type 0 where
  pub ht : HtInfo
  pub forced_mode : AggMode
  pub forced_factor : ℕ
  pub forced_density : ℕ
  pub forced_tx_20mhz : Bool
  pub sec_allows_n : Bool
  pub wpa_without_key : Bool
  pub is_infra : Bool
  pub is_master : Bool
  pub mode : ℕ
  pub rts : ℕ
  pub use_protection : Bool
  pub short_preamble : Bool

unfoldable pub has_action : Device → ℕ → Bool
has_action d action = not (bit_and d.ht.iot_action action == 0)

unfoldable pub ht_on : Device → Bool
ht_on d = d.ht.current_ht_support && d.ht.enable_ht

-- The switch on ForcedAMPDUMode.
unfoldable pub force_agg : Device → Desc → Desc
force_agg d t = elim d.forced_mode [
  | agg_auto ↦ t
  | agg_force_enable ↦ record t {
    ampdu_enable = true;
    ampdu_density = d.forced_density;
    ampdu_factor = d.forced_factor;
  }
  | agg_force_disable ↦ record t { ampdu_enable = false; ampdu_density = 0; ampdu_factor = 0 }
]

unfoldable pub allow_agg : Device → Desc → Desc
allow_agg d t =
    if d.is_infra
    then record t {
      ampdu_enable = true;
      ampdu_factor = d.ht.current_ampdu_factor;
      ampdu_density = d.ht.current_mpdu_density;
    }
    else t

-- The part of rtllib_tx_query_agg_cap on the stream of the frame; the field SeqNum of
-- BaStartSeqCtrl is its upper 12 bits.
unfoldable pub query_stream : Device → TxTs → Desc → Desc × TxTs
query_stream d ts t =
    if not ts.tx_admitted_ba.valid
    then (
      force_agg d t,
      if d.wpa_without_key || t.is_dhcp || ts.disable_add_ba
          then ts
          else ts_start_add_ba_process ts,
    )
    else if not ts.using_ba
    then (if sn_less (ts.tx_admitted_ba.ba_start_seq_ctrl / 16) ((ts.tx_cur_seq + 1) % 4096)
        then (force_agg d (allow_agg d t), record ts { using_ba = true })
        else (force_agg d t, ts))
    else (force_agg d (allow_agg d t), ts)

-- rtllib_tx_query_agg_cap: `is_qos` is IsQoSDataFrame of the frame, `is_group` whether its first
-- address is one of a group, and `ts` the stream that GetTs finds or makes, `none` where it fails.
-- HT_IOT_ACT_TX_NO_AGGREGATION is 0x00100000.
unfoldable pub tx_query_agg_cap :
    Device → (is_qos is_group : Bool) → Option TxTs → Desc → Desc × Option TxTs
tx_query_agg_cap d is_qos is_group ts t =
    if not (ht_on d) || not is_qos || is_group || has_action d 0x00100000 || not d.sec_allows_n
    then (t, ts)
    else if not d.ht.current_ampdu_enable
    then (force_agg d t, ts)
    else elim ts [ none ↦ (t, none) | some s ↦ let (t', s') = query_stream d s t in (t', some s') ]

-- rtllib_qurey_ShortPreambleMode
unfoldable pub query_short_preamble_mode : Device → Desc → Desc
query_short_preamble_mode d t = record t {
  use_short_preamble = not (t.data_rate == 2) && d.short_preamble;
}

-- rtllib_query_HTCapShortGI
unfoldable pub query_ht_cap_short_gi : Device → Desc → Desc
query_ht_cap_short_gi d t = record t {
  use_short_gi =
      if not (ht_on d)
      then false
      else if d.ht.forced_short_gi
      then true
      else if d.ht.cur_bw_40mhz
      then d.ht.cur_short_gi_40mhz
      else d.ht.cur_short_gi_20mhz;
}

-- rtllib_query_BandwidthMode
unfoldable pub query_bandwidth_mode : Device → Desc → Desc
query_bandwidth_mode d t = record t {
  packet_bw =
      if not (ht_on d)
      then false
      else if t.is_multicast || t.is_broadcast
      then false
      else if bit_and t.data_rate 0x80 == 0
      then false
      else d.ht.cur_bw_40mhz && d.ht.cur_tx_bw_40mhz && not d.forced_tx_20mhz;
}

-- The end of rtllib_query_protectionmode after a `break`, and at NO_PROTECTION.
unfoldable pub no_protection : Desc → Desc
no_protection t = record t { rts_enable = false; cts_enable = false; rts_rate = 0 }

unfoldable pub protected : Device → Desc → Desc
protected d t =
    let t' = record t { use_short_preamble = d.short_preamble || t.use_short_preamble } in
    if d.is_master then no_protection t' else t'

-- rtllib_query_protectionmode on a frame of `len` bytes, less the fields bRTSSTBC,
-- bRTSUseShortGI, RTSSC and bRTSBW, which it clears always; `to_all` says that the third address is
-- the broadcast address. MGN_24M is 0x30, HT_IOT_ACT_FORCED_CTS2SELF 0x200, HT_IOT_ACT_FORCED_RTS
-- 0x400 and HT_IOT_ACT_PURE_N_MODE 0x100.
unfoldable pub query_protectionmode : Device → (len : ℕ) → (to_all : Bool) → Desc → Desc
query_protectionmode d len to_all t0 =
    let t = record t0 { cts_enable = false } in
    let rts = record t { rts_enable = true; rts_rate = 0x30 } in
    let cts = record t { rts_enable = true; cts_enable = true; rts_rate = 0x30 } in
    let op = d.ht.current_op_mode in
    if t.is_broadcast || t.is_multicast || to_all
    then t
    else if ltb d.mode 16
    then (if ltb d.rts len then rts else if d.use_protection then cts else t)
    else if has_action d 0x200
    then protected d cts
    else if has_action d (bit_or 0x400 0x100)
    then protected d rts
    else if d.use_protection
    then protected d cts
    else if ht_on d
        && ((d.ht.cur_bw_40mhz && (op == 2 || op == 3)) || (not d.ht.cur_bw_40mhz && op == 3))
    then protected d rts
    else if ltb d.rts len
    then protected d rts
    else if t.ampdu_enable
    then protected d (record t { rts_enable = false; rts_rate = 0x30 })
    else no_protection t
