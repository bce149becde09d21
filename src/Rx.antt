-- ===== src/Rx.antt =====
-- Reception of frames in src/rtllib_rx.c: the header fields of src/rtllib.h that it reads, and the
-- receive queue of a frame. Duplicate detection is in Rx.Duplicate, reassembly in Rx.Fragments.
pub mod Duplicate
pub mod Fragments
pub mod Aggregate
mod Tests
use rtl8190p.Common.{
  ℕ, ◌+◌, ◌*◌, ◌/◌, ◌%◌, ◌^◌, ◌==◌, ltb, if◌then◌else◌, Bool, true, false, ◌&&◌, List,
}

-- The fields of rtllib_hdr_4addr, and the QoS field where a header of three or four addresses
-- has it.
pub record Header : Type 0 where
  pub frame_ctl : ℕ
  pub seq_ctl : ℕ
  pub qos_ctl_3addr : ℕ
  pub qos_ctl_4addr : ℕ
  pub addr1 : List ℕ
  pub addr2 : List ℕ

-- WLAN_GET_SEQ_FRAG and WLAN_GET_SEQ_SEQ
pub get_seq_frag : ℕ → ℕ
get_seq_frag sc = sc % 16

pub get_seq_seq : ℕ → ℕ
get_seq_seq sc = sc % 2 ^ 16 / 16

-- RTLLIB_QOS_HAS_SEQ: of the bits 0x0c and 0xb0 the frame control has just 0x88.
unfoldable pub qos_has_seq : ℕ → Bool
qos_has_seq fc = fc / 4 % 4 == 2 && fc / 16 % 4 == 0 && fc / 128 % 2 == 1

-- UP2AC
pub up2ac : ℕ → ℕ
up2ac up =
    if ltb up 1
    then 1
    else if ltb up 3
    then 0
    else if ltb up 4
    then 1
    else if ltb up 6
    then 2
    else 3

-- The queue that is called `tid`: 0 without a QoS field, else the access category and one.
pub queue_of : Header → ℕ
unfolding qos_has_seq up2ac
queue_of h =
    if h.frame_ctl / 256 % 4 == 3 && qos_has_seq h.frame_ctl
    then up2ac (h.qos_ctl_4addr % 16) + 1
    else if qos_has_seq h.frame_ctl
    then up2ac (h.qos_ctl_3addr % 16) + 1
    else 0
