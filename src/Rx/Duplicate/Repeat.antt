-- ===== src/Rx/Duplicate/Repeat.antt =====
-- What is_duplicate_packet says of the packets that follow one that was let through.
use rtl8190p.Common.{ℕ, ◌+◌, ◌*◌, ◌%◌, ◌≡◌, ◌≢◌, ◌↔◌, ◌⊎◌, inl, inr, refl, arith, sym, ap, ◌∙◌}
use rtl8190p.Common.{Bool, true, false, none, some, List, [], ◌∷◌, get_or, bytes_eq, bytes_eq_refl}
use rtl8190p.Common.{Bool-cases, Option-cases, ==_refl}
use rtl8190p.Ts.{Mode, master, adhoc, infra}
use rtl8190p.Rx.{Header, get_seq_frag, get_seq_seq, queue_of}
use rtl8190p.Rx.Duplicate.{
  Last, IbssSeq, Seen, put, find_mac, write_mac, judge, is_duplicate_packet, kept,
  ieee_ibss_mac_hash_size,
}

put_self : {A : Type 0} (f : ℕ → A) (i : ℕ) (a : A) → put f i a i ≡ a
unfolding put
put_self f i a = rw (==_refl i)

find_mac-write_mac :
    (mac : List ℕ) (tid : ℕ) (l : Last) (es : List IbssSeq) (e : IbssSeq)
    → find_mac mac es ≡ some e
    → find_mac mac (write_mac mac tid l es) ≡ some (record e { lasts = put e.lasts tid l })
unfolding find_mac write_mac
find_mac-write_mac mac tid l [] e h = cc
find_mac-write_mac mac tid l (x ∷ es) e h = elim (Bool-cases (bytes_eq x.mac mac)) [
  | inl same ↦ ground arith
  | inr other ↦ rw (other, other) (find_mac-write_mac mac tid l es e (rw other at h))
]

find_mac-cons :
    (mac : List ℕ) (lasts : ℕ → Last) (es : List IbssSeq)
    → find_mac mac (record { mac = mac; lasts = lasts } ∷ es)
      ≡ some (record { mac = mac; lasts = lasts })
unfolding find_mac
find_mac-cons mac lasts es = rw (bytes_eq_refl mac)

module _ (time_after : ℕ → ℕ → Bool) (hz : ℕ) where
  -- The record of a packet that is let through.
  abbrev pub taken : ℕ → Header → Last
  taken now h = record {
    seq_num = get_seq_seq h.seq_ctl;
    frag_num = get_seq_frag h.seq_ctl;
    packet_time = now;
  }

  judge-taken :
      (now seq frag : ℕ) (l : Last)
      → (judge time_after hz now seq frag l).0 ≡ false
      → (judge time_after hz now seq frag l).1
        ≡ record { seq_num = seq; frag_num = frag; packet_time = now }
  unfolding judge
  judge-taken now seq frag l h = ground arith

  kept-infra :
      (room : Bool) (junk : ℕ → Last) (now : ℕ) (h : Header) (s : Seen)
      → let r = is_duplicate_packet time_after hz infra room junk now h s in
        r.0 ≡ false → kept time_after hz infra h r.1 ≡ some (taken now h)
  unfolding is_duplicate_packet kept
  kept-infra room junk now h s ok = rw (put_self s.last_rx (queue_of h) _) (
      ap some (
        judge-taken now (get_seq_seq h.seq_ctl) (get_seq_frag h.seq_ctl) (s.last_rx (queue_of h))
          ok))

  abbrev chain : Header → Seen → List IbssSeq
  chain h s = s.ibss_mac_hash (get_or h.addr2 5 0 % ieee_ibss_mac_hash_size)

  kept-some :
      (h : Header) (s : Seen) (e : IbssSeq)
      → find_mac h.addr2 (chain h s) ≡ some e
      → kept time_after hz adhoc h s ≡ some (e.lasts (queue_of h))
  unfolding kept
  kept-some h s e found = rw (kept, found) refl

  kept-none :
      (h : Header) (s : Seen)
      → find_mac h.addr2 (chain h s) ≡ none
      → kept time_after hz adhoc h s ≡ none
  unfolding kept
  kept-none h s missing = rw (kept, missing) refl

  kept-first :
      (junk : ℕ → Last) (now : ℕ) (h : Header) (s : Seen)
      → find_mac h.addr2 (chain h s) ≡ none
      → kept time_after hz adhoc h (is_duplicate_packet time_after hz adhoc true junk now h s).1
        ≡ some (taken now h)
  unfolding is_duplicate_packet
  kept-first junk now h s missing =
      let index = get_or h.addr2 5 0 % ieee_ibss_mac_hash_size in
      let lasts = put junk (queue_of h) (taken now h) in
      let fresh : IbssSeq = record { mac = h.addr2; lasts = lasts } in
      let s' : Seen = record s { ibss_mac_hash = put s.ibss_mac_hash index (fresh ∷ chain h s) } in
      let run : is_duplicate_packet time_after hz adhoc true junk now h s ≡ (false, s') =
        rw (is_duplicate_packet, missing) refl in
      let there : find_mac h.addr2 (chain h s') ≡ some fresh =
        rw (put_self s.ibss_mac_hash index (fresh ∷ chain h s))
          (find_mac-cons h.addr2 lasts (chain h s)) in
      rw run (kept-some h s' fresh there ∙ ap some (put_self junk (queue_of h) (taken now h)))

  kept-again :
      (junk : ℕ → Last) (now : ℕ) (h : Header) (s : Seen) (e : IbssSeq)
      → find_mac h.addr2 (chain h s) ≡ some e
      → let r = is_duplicate_packet time_after hz adhoc true junk now h s in
        r.0 ≡ false → kept time_after hz adhoc h r.1 ≡ some (taken now h)
  unfolding is_duplicate_packet
  kept-again junk now h s e found ok =
      let index = get_or h.addr2 5 0 % ieee_ibss_mac_hash_size in
      let seq = get_seq_seq h.seq_ctl in
      let frag = get_seq_frag h.seq_ctl in
      let l = e.lasts (queue_of h) in
      let r = judge time_after hz now seq frag l in
      let written = write_mac h.addr2 (queue_of h) r.1 (chain h s) in
      let s' : Seen = record s { ibss_mac_hash = put s.ibss_mac_hash index written } in
      let e' : IbssSeq = record e { lasts = put e.lasts (queue_of h) r.1 } in
      let run : is_duplicate_packet time_after hz adhoc true junk now h s ≡ (r.0, s') =
        rw (is_duplicate_packet, found) refl in
      let there : find_mac h.addr2 (chain h s') ≡ some e' =
        rw (put_self s.ibss_mac_hash index written)
          (find_mac-write_mac h.addr2 (queue_of h) r.1 (chain h s) e found) in
      let passed : r.0 ≡ false = ap (λ q. q.0) (sym run) ∙ ok in
      rw run (
        kept-some h s' e' there
        ∙ ap some (put_self e.lasts (queue_of h) r.1 ∙ judge-taken now seq frag l passed))

  kept-adhoc :
      (junk : ℕ → Last) (now : ℕ) (h : Header) (s : Seen)
      → let r = is_duplicate_packet time_after hz adhoc true junk now h s in
        r.0 ≡ false → kept time_after hz adhoc h r.1 ≡ some (taken now h)
  kept-adhoc junk now h s ok = elim (Option-cases (find_mac h.addr2 (chain h s))) [
    | inl missing ↦ kept-first junk now h s missing
    | inr (e, found) ↦ kept-again junk now h s e found ok
  ]

  -- Both modes: the header that is let through is the one kept.
  kept-passed :
      (m : Mode) (junk : ℕ → Last) (now : ℕ) (h : Header) (s : Seen)
      → m ≢ master
      → let r = is_duplicate_packet time_after hz m true junk now h s in
        r.0 ≡ false → kept time_after hz m h r.1 ≡ some (taken now h)
  kept-passed master junk now h s ne ok = absurd (ne refl)
  kept-passed infra junk now h s ne ok = kept-infra true junk now h s ok
  kept-passed adhoc junk now h s ne ok = kept-adhoc junk now h s ok

  is_duplicate-kept :
      (m : Mode) (room : Bool) (junk : ℕ → Last) (now : ℕ) (h : Header) (s : Seen) (l : Last)
      → kept time_after hz m h s ≡ some l
      → (is_duplicate_packet time_after hz m room junk now h s).0
        ≡ (judge time_after hz now (get_seq_seq h.seq_ctl) (get_seq_frag h.seq_ctl) l).0
  unfolding is_duplicate_packet kept
  is_duplicate-kept master room junk now h s l k = cc
  is_duplicate-kept infra room junk now h s l k = cc
  is_duplicate-kept adhoc room junk now h s l k =
      let index = get_or h.addr2 5 0 % ieee_ibss_mac_hash_size in
      elim (Option-cases (find_mac h.addr2 (s.ibss_mac_hash index))) [
        | inl missing ↦ absurd (let no : none ≡ some l = rw (kept, missing) at k in cc)
        | inr (e, found) ↦
            let same : some (e.lasts (queue_of h)) ≡ some l = rw (kept, found) at k in
            rw (is_duplicate_packet, found) cc
      ]

  kept-same :
      (m : Mode) (h h' : Header) (s : Seen)
      → h'.addr2 ≡ h.addr2
      → queue_of h' ≡ queue_of h
      → kept time_after hz m h' s ≡ kept time_after hz m h s
  unfolding kept
  kept-same master h h' s a q = refl
  kept-same infra h h' s a q = rw q refl
  kept-same adhoc h h' s a q = elim (Option-cases (find_mac h.addr2 (chain h s))) [
    | inl missing ↦ kept-none h' s (rw a missing) ∙ sym (kept-none h s missing)
    | inr (e, found) ↦
        kept-some h' s e (rw a found) ∙ ap (λ i. some (e.lasts i)) q ∙ sym (kept-some h s e found)
  ]

  judge-next :
      (now later : ℕ) (h h' : Header)
      → get_seq_seq h'.seq_ctl ≡ get_seq_seq h.seq_ctl
      → time_after (now + 5 * hz) later ≡ true
      → ((judge time_after hz later
            (get_seq_seq h'.seq_ctl)
            (get_seq_frag h'.seq_ctl)
            (taken now h)).0
          ≡ false)
        ↔ (get_seq_frag h'.seq_ctl ≡ get_seq_frag h.seq_ctl + 1)
  unfolding judge
  judge-next now later h h' seq soon = ground arith

  -- After a packet was let through, outside the master mode and with room for its entry, a packet
  -- of the same sender, queue and sequence number that comes within the retry time is let through
  -- exactly when it is the next fragment: a repetition and a fragment out of order are dropped.
  pub is_duplicate-next_iff :
      (m : Mode) (room : Bool) (junk junk' : ℕ → Last) (now later : ℕ) (h h' : Header) (s : Seen)
      → m ≢ master
      → let r = is_duplicate_packet time_after hz m true junk now h s in
        r.0 ≡ false
        → h'.addr2 ≡ h.addr2
        → queue_of h' ≡ queue_of h
        → get_seq_seq h'.seq_ctl ≡ get_seq_seq h.seq_ctl
        → time_after (now + 5 * hz) later ≡ true
        → ((is_duplicate_packet time_after hz m room junk' later h' r.1).0 ≡ false)
          ↔ (get_seq_frag h'.seq_ctl ≡ get_seq_frag h.seq_ctl + 1)
  is_duplicate-next_iff m room junk junk' now later h h' s ne ok a q seq soon =
      let r = is_duplicate_packet time_after hz m true junk now h s in
      rw
        (is_duplicate-kept m room junk' later h' r.1 (taken now h)
          (kept-same m h h' r.1 a q ∙ kept-passed m junk now h s ne ok))
        (judge-next now later h h' seq soon)

  -- A packet with another sequence number than the one that is kept of its queue, or one after the
  -- retry time, is let through.
  pub is_duplicate-other :
      (m : Mode) (room : Bool) (junk : ℕ → Last) (now : ℕ) (h : Header) (s : Seen) (l : Last)
      → kept time_after hz m h s ≡ some l
      → (get_seq_seq h.seq_ctl ≢ l.seq_num) ⊎ (time_after (l.packet_time + 5 * hz) now ≡ false)
      → (is_duplicate_packet time_after hz m room junk now h s).0 ≡ false
  unfolding judge
  is_duplicate-other m room junk now h s l k why =
      rw (is_duplicate-kept m room junk now h s l k) (ground arith)
