-- ===== src/Rx/Duplicate.antt =====
-- is_duplicate_packet of src/rtllib_rx.c.
pub mod Repeat
use rtl8190p.Common.{
  ℕ, ◌+◌, ◌*◌, ◌%◌, ◌==◌, ◌≡◌, ◌≢◌, ◌↔◌, ◌⊎◌, inl, inr, refl, arith, sym, ◌∙◌, if◌then◌else◌,
}
use rtl8190p.Common.{
  Bool, true, false, not, ◌&&◌, Option, none, some, List, [], ◌∷◌, get_or, bytes_eq, bytes_eq_refl,
}
use rtl8190p.Common.{Bool-cases, Option-cases}
use rtl8190p.Ts.{Mode, master, adhoc, infra}
use rtl8190p.Rx.{Header, get_seq_frag, get_seq_seq, queue_of}

-- What is kept of the last packet of a queue: the sequence number, the fragment number, the time.
pub record Last : Type 0 where
  pub seq_num : ℕ
  pub frag_num : ℕ
  pub packet_time : ℕ

-- ieee_ibss_seq, with its three arrays in one.
pub record IbssSeq : Type 0 where
  pub mac : List ℕ
  pub lasts : ℕ → Last

-- last_rxseq_num, last_rxfrag_num and last_packet_time, and ibss_mac_hash by its index.
pub record Seen : Type 0 where
  pub last_rx : ℕ → Last
  pub ibss_mac_hash : ℕ → List IbssSeq

abbrev pub ieee_ibss_mac_hash_size : ℕ
ieee_ibss_mac_hash_size = 31

-- One cell of an array is written.
unfoldable pub put {ℓ} : {A : Type ℓ} → (ℕ → A) → ℕ → A → ℕ → A
put f i a j = if j == i then a else f j

-- The walk along a chain of the hash to the entry of an address.
unfoldable pub find_mac : List ℕ → List IbssSeq → Option IbssSeq
find_mac mac [] = none
find_mac mac (e ∷ es) = if bytes_eq e.mac mac then some e else find_mac mac es

-- That entry is written in place.
pub write_mac : List ℕ → ℕ → Last → List IbssSeq → List IbssSeq
unfolding put
write_mac mac tid l [] = []
write_mac mac tid l (e ∷ es) =
    if bytes_eq e.mac mac
    then record e { lasts = put e.lasts tid l } ∷ es
    else e ∷ write_mac mac tid l es

-- `time_after` and `hz` are the kernel's macro time_after and its constant HZ.
module _ (time_after : ℕ → ℕ → Bool) (hz : ℕ) where
  -- The test at the end, on what is kept: whether the packet is dropped, and what is kept then.
  unfoldable pub judge : ℕ → ℕ → ℕ → Last → Bool × Last
  judge now seq frag l =
      let taken : Last = record { seq_num = seq; frag_num = frag; packet_time = now } in
      if l.seq_num == seq && time_after (l.packet_time + 5 * hz) now
      then if l.frag_num == frag
        then (true, l)
        else if not (l.frag_num + 1 == frag)
        then (true, l)
        else (false, taken)
      else (false, taken)

  -- is_duplicate_packet at the time `now`. `room` is the kmalloc of a new entry, and `junk` what
  -- its memory holds.
  unfoldable pub is_duplicate_packet : Mode → Bool → (ℕ → Last) → ℕ → Header → Seen → Bool × Seen
  unfolding judge put find_mac write_mac
  is_duplicate_packet master room junk now h s = (false, s)
  is_duplicate_packet infra room junk now h s =
      let tid = queue_of h in
      let r = judge now (get_seq_seq h.seq_ctl) (get_seq_frag h.seq_ctl) (s.last_rx tid) in
      (r.0, record s { last_rx = put s.last_rx tid r.1 })
  is_duplicate_packet adhoc room junk now h s =
      let tid = queue_of h in
      let seq = get_seq_seq h.seq_ctl in
      let frag = get_seq_frag h.seq_ctl in
      let index = get_or h.addr2 5 0 % ieee_ibss_mac_hash_size in
      let chain = s.ibss_mac_hash index in
      let first : Last = record { seq_num = seq; frag_num = frag; packet_time = now } in
      let fresh : IbssSeq = record { mac = h.addr2; lasts = put junk tid first } in
      elim (find_mac h.addr2 chain) [
        | some e ↦
            let r = judge now seq frag (e.lasts tid) in
            (
              r.0,
              record s {
                ibss_mac_hash = put s.ibss_mac_hash index (write_mac h.addr2 tid r.1 chain);
              },
            )
        | none ↦
            if room
            then (false, record s { ibss_mac_hash = put s.ibss_mac_hash index (fresh ∷ chain) })
            else (false, s)
      ]

  -- What is kept of the queue of a header.
  unfoldable pub kept : Mode → Header → Seen → Option Last
  unfolding find_mac
  kept master h s = none
  kept infra h s = some (s.last_rx (queue_of h))
  kept adhoc h s =
      elim (find_mac h.addr2 (s.ibss_mac_hash (get_or h.addr2 5 0 % ieee_ibss_mac_hash_size))) [
        | some e ↦ some (e.lasts (queue_of h))
        | none ↦ none
      ]
