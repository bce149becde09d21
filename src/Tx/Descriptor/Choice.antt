-- ===== src/Tx/Descriptor/Choice.antt =====
-- When a frame goes out in an aggregate and behind an RTS.
use rtl8190p.Common.{
  ℕ, ◌+◌, ◌/◌, ◌%◌, ◌==◌, ltb, ◌≡◌, arith, Bool, false, not, ◌&&◌, ◌||◌, some, bit_or,
}
use rtl8190p.SeqNum.{sn_less}
use rtl8190p.Ts.{TxTs}
use rtl8190p.Tx.Descriptor.{
  Desc, Device, agg_auto, has_action, ht_on, force_agg, allow_agg, query_stream, tx_query_agg_cap,
  protected, no_protection, query_protectionmode,
}

-- The stream may be aggregated: the peer admitted it, and it is in use already or
-- the number after its next one lies ahead of the start of what was admitted.
unfoldable pub is_admitted : TxTs → Bool
is_admitted s =
    s.tx_admitted_ba.valid
    && (s.using_ba || sn_less (s.tx_admitted_ba.ba_start_seq_ctrl / 16) ((s.tx_cur_seq + 1) % 4096))

-- With no mode forced, rtllib_tx_query_agg_cap marks a frame that was not marked for an aggregate
-- exactly when HT and aggregation are on, the frame is a QoS frame to one receiver, neither the
-- peer's workarounds nor the security forbid it, the device is a station, and the stream is
-- admitted.
pub tx_query_agg_cap_lem :
    (d : Device) (is_qos is_group : Bool) (s : TxTs) (t : Desc)
    → d.forced_mode ≡ agg_auto
    → t.ampdu_enable ≡ false
    → (tx_query_agg_cap d is_qos is_group (some s) t).0.ampdu_enable ≡ (
        ht_on d
        && is_qos
        && not is_group
        && not (has_action d 0x00100000)
        && d.sec_allows_n
        && d.ht.current_ampdu_enable
        && d.is_infra
        && is_admitted s)
unfolding tx_query_agg_cap query_stream allow_agg force_agg is_admitted
tx_query_agg_cap_lem d is_qos is_group s t auto fresh = rw auto (ground (arith, fresh))

-- rtllib_query_protectionmode puts a frame that was not marked behind an RTS exactly when it is not
-- for a group, and its length or the network asks for it, or with 802.11n a workaround for the peer
-- or its operation mode does, and, with 802.11n, the device is no master.
pub query_protectionmode-rts :
    (d : Device) (len : ℕ) (to_all : Bool) (t : Desc)
    → t.rts_enable ≡ false
    → (query_protectionmode d len to_all t).rts_enable ≡ (
        not (t.is_broadcast || t.is_multicast || to_all)
        && (ltb d.rts len
            || d.use_protection
            || (not (ltb d.mode 16)
                && (has_action d 0x200
                    || has_action d (bit_or 0x400 0x100)
                    || (ht_on d
                        && ((d.ht.cur_bw_40mhz
                              && (d.ht.current_op_mode == 2 || d.ht.current_op_mode == 3))
                            || (not d.ht.cur_bw_40mhz && d.ht.current_op_mode == 3))))))
        && (ltb d.mode 16 || not d.is_master))
unfolding query_protectionmode protected no_protection
query_protectionmode-rts d len to_all t fresh = ground (arith, fresh)
