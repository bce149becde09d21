-- ===== src/Tx.antt =====
-- The transmission of an Ethernet frame, src/rtllib_tx.c: its priority, and the 802.11 fragments
-- that rtllib_xmit_inter cuts it into.
pub mod Priority
pub mod Fragments
pub mod Descriptor
mod Tests
use rtl8190p.Common.{
  ℕ, zero, suc, ◌+◌, ◌-◌, ◌*◌, ◌/◌, ◌%◌, ◌^◌, ◌==◌, ltb, if◌then◌else◌, Bool, true, false, not,
  ◌&&◌, ◌||◌, Option, none, some, List, [], ◌∷◌, ◌++◌, length, get_or, take, drop, bit_and, bit_or,
}
use rtl8190p.Rx.{up2ac}

-- rtllib_put_snap
unfoldable pub put_snap : (h_proto : ℕ) → List ℕ
put_snap h_proto =
    let tunnelled = h_proto == 0x8137 || h_proto == 0x80f3 in
    0xaa
    ∷ 0xaa
    ∷ 0x03
    ∷ 0
    ∷ 0
    ∷ (if tunnelled then 0xf8 else 0)
    ∷ h_proto / 256
    ∷ h_proto % 256
    ∷ []

-- rtllib_classify, on the protocol of the Ethernet frame and the type of service of its IP header.
unfoldable pub classify : (h_proto tos : ℕ) → ℕ
classify h_proto tos =
    let class = bit_and tos 0xfc in
    if not (h_proto == 0x0800)
    then 0
    else if class == 0x20
    then 2
    else if class == 0x40
    then 1
    else if class == 0x60
    then 3
    else if class == 0x80
    then 4
    else if class == 0xa0
    then 5
    else if class == 0xc0
    then 6
    else if class == 0xe0
    then 7
    else 0

-- wme_downgrade_ac: the lower priority, where there is one.
unfoldable pub wme_downgrade_ac : (priority : ℕ) → Option ℕ
wme_downgrade_ac priority =
    if priority == 6 || priority == 7
    then some 5
    else if priority == 4 || priority == 5
    then some 3
    else if priority == 0 || priority == 3
    then some 1
    else none

-- The loop of rtllib_xmit_inter on the access categories that need an admission: bit n of wmm_acm
-- is set for the priority n. `none` when the rounds run out.
unfoldable pub downgrade_loop : (rounds wmm_acm priority : ℕ) → Option ℕ
downgrade_loop zero wmm_acm priority = none
downgrade_loop (suc rounds) wmm_acm priority =
    let more : Option ℕ = elim (wme_downgrade_ac priority) [
      | none ↦ some priority
      | some p ↦ downgrade_loop rounds wmm_acm p
    ] in
    if bit_and wmm_acm (2 ^ priority) == 0 then some priority else more

-- rtllib_query_seqnum for a QoS frame to one receiver: `tx_cur_seq` is TxCurSeq of the stream that
-- GetTs finds or makes, and `none` where it fails.
unfoldable pub query_seqnum : (tx_cur_seq : Option ℕ) → ℕ × Option ℕ
query_seqnum none = (0, none)
query_seqnum (some seq) = (seq, some ((seq + 1) % 4096))

-- rtllib_hdr_3addrqos with the duration 0.
pub record Header : Type 0 where
  pub frame_ctl : ℕ
  pub addr1 : List ℕ
  pub addr2 : List ℕ
  pub addr3 : List ℕ
  pub seq_ctl : ℕ
  pub qos_ctl : ℕ

unfoldable pub le16 : ℕ → List ℕ
le16 n = n % 256 ∷ n / 256 % 256 ∷ []

unfoldable pub header_bytes : (qos_actived : Bool) → Header → List ℕ
header_bytes qos_actived h =
    le16 h.frame_ctl
    ++ (0 ∷ 0 ∷ [])
    ++ h.addr1
    ++ h.addr2
    ++ h.addr3
    ++ le16 h.seq_ctl
    ++ (if qos_actived then le16 h.qos_ctl else [])

-- What the loop over the fragments uses: bIsMulticast, the header, bytes_per_frag, bytes_last_frag,
-- nr_frags, seq_ctrl[0], and the protocol.
pub record Cut : Type 0 where
  pub qos_actived : Bool
  pub is_multicast : Bool
  pub header : Header
  pub bytes_per_frag : ℕ
  pub bytes_last_frag : ℕ
  pub nr_frags : ℕ
  pub seq_ctrl : ℕ
  pub ether_type : ℕ

-- The header of a fragment: RTLLIB_FCTL_MOREFRAGS is 0x0400.
unfoldable pub frag_hdr : Cut → (i seq : ℕ) → List ℕ
frag_hdr c i seq =
    let h = c.header in
    let fc = if i + 1 == c.nr_frags then h.frame_ctl else bit_or h.frame_ctl 0x0400 in
    header_bytes c.qos_actived (record h { frame_ctl = fc; seq_ctl = bit_or (seq * 16) i % 2 ^ 16 })

-- The loop of rtllib_xmit_inter over the fragments that are left, from `i` on: the fragments as
-- they are before they are encrypted, which takes nothing but the fragment, and the stream's next
-- sequence number.
unfoldable pub fragment_loop :
    Cut → (left i : ℕ) (skb : List ℕ) → (tx_cur_seq : Option ℕ) → List (List ℕ) × Option ℕ
fragment_loop c zero i skb ts = ([], ts)
fragment_loop c (suc left) i skb ts =
    let (seq, ts1) =
      if c.qos_actived && not c.is_multicast then query_seqnum ts else (c.seq_ctrl, ts) in
    let bytes = if i + 1 == c.nr_frags then c.bytes_last_frag else c.bytes_per_frag in
    let n = if i == 0 then bytes - 8 else bytes in
    let snap = if i == 0 then put_snap c.ether_type else [] in
    let (rest, ts2) = fragment_loop c left (i + 1) (drop n skb) ts1 in
    ((frag_hdr c i seq ++ (snap ++ take n skb)) ∷ rest, ts2)

-- iw_mode, as far as the addresses depend on it.
pub data Mode : Type 0 where
  infra : Mode
  adhoc : Mode
  other_mode : Mode

-- The device: qos_data.active, the network's bssid, fts, wmm_acm, seq_ctrl, whether `config` asks
-- for an FCS, and with encryption on the key's extra_prefix_len and extra_postfix_len.
pub record Sender : Type 0 where
  pub mode : Mode
  pub qos_actived : Bool
  pub bssid : List ℕ
  pub fts : ℕ
  pub wmm_acm : ℕ
  pub seq_ctrl : ℕ → ℕ
  pub fcs : Bool
  pub extra : Option ℕ

-- RTLLIB_FTYPE_DATA 0x08, RTLLIB_FCTL_WEP 0x4000, RTLLIB_STYPE_QOS_DATA 0x80, RTLLIB_FCTL_TODS 0x100
unfoldable pub frame_ctl : Sender → ℕ
frame_ctl d =
    0x08
    + (elim d.extra [ none ↦ 0 | some n ↦ 0x4000 ])
    + (if d.qos_actived then 0x80 else 0)
    + (elim d.mode [ infra ↦ 0x0100 | adhoc ↦ 0 | other_mode ↦ 0 ])

-- The header of all fragments, of a frame from `src` to `dest`.
unfoldable pub header_of : Sender → (dest src : List ℕ) → Header
header_of d dest src =
    let none_yet = 0 ∷ 0 ∷ 0 ∷ 0 ∷ 0 ∷ 0 ∷ [] in
    record {
      frame_ctl = frame_ctl d;
      addr1 = elim d.mode [ infra ↦ d.bssid | adhoc ↦ dest | other_mode ↦ none_yet ];
      addr2 = elim d.mode [ infra ↦ src | adhoc ↦ src | other_mode ↦ none_yet ];
      addr3 = elim d.mode [ infra ↦ dest | adhoc ↦ d.bssid | other_mode ↦ none_yet ];
      seq_ctl = 0;
      qos_ctl = 0;
    }

unfoldable pub hdr_len : Sender → ℕ
hdr_len d = if d.qos_actived then 26 else 24

-- frag_size, and the bytes of the packet that a fragment has room for; MAX_FRAG_THRESHOLD is 2346.
unfoldable pub frag_size : Sender → (is_multicast : Bool) → ℕ
frag_size d is_multicast = if is_multicast then 2346 else d.fts

unfoldable pub bytes_per_frag : Sender → (is_multicast : Bool) → ℕ
bytes_per_frag d is_multicast =
    frag_size d is_multicast
    - hdr_len d
    - (if d.fcs then 4 else 0)
    - (elim d.extra [ none ↦ 0 | some n ↦ n ])

-- The part of rtllib_xmit_inter that cuts a frame: `payload` is what follows the Ethernet header,
-- and `priority` the result of the loop on the access categories. `is_group` is the kernel's
-- is_broadcast_ether_addr or is_multicast_ether_addr; QOS_CTL_NOTCONTAIN_ACK is 0x20 and
-- RTLLIB_QOS_TID 0x0f.
unfoldable pub cut_of :
    (is_group : List ℕ → Bool)
    → Sender
    → (dest src : List ℕ) (ether_type priority : ℕ) (payload : List ℕ) → Cut
cut_of is_group d dest src ether_type priority payload =
    let h = header_of d dest src in
    let group = is_group h.addr1 in
    let qos_ctl = bit_or (if group then 0x20 else 0) priority in
    let per = bytes_per_frag d group in
    let bytes = length payload + 8 in
    record {
      qos_actived = d.qos_actived;
      is_multicast = group;
      header = record h { qos_ctl = if d.qos_actived then bit_and qos_ctl 0x0f else 0 };
      bytes_per_frag = per;
      bytes_last_frag = if bytes % per == 0 then per else bytes % per;
      nr_frags = if bytes % per == 0 then bytes / per else bytes / per + 1;
      seq_ctrl = d.seq_ctrl 0;
      ether_type = ether_type;
    }

-- The step of seq_ctrl after a frame, in the queue that counts it.
unfoldable pub next_seq_ctrl : Cut → (priority : ℕ) → (ℕ → ℕ) → ℕ → ℕ
next_seq_ctrl c priority seq_ctrl q =
    let queue = if c.qos_actived && not c.is_multicast then up2ac priority + 1 else 0 in
    if q == queue
    then (if seq_ctrl q == 0xfff then 0 else (seq_ctrl q + 1) % 2 ^ 16)
    else seq_ctrl q
