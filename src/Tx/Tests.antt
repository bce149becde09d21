-- ===== src/Tx/Tests.antt =====
-- Runs of the transmission, and the theorems at concrete frames.
use rtl8190p.Common.{
  ℕ, ◌+◌, ◌*◌, ◌%◌, ◌==◌, ◌≡◌, refl, arith, Bool, true, false, none, some, List, [], ◌∷◌, get_or,
  replicate, map,
}
use rtl8190p.Tx.{
  Cut, Sender, infra, put_snap, classify, wme_downgrade_ac, downgrade_loop, query_seqnum,
  fragment_loop, frag_hdr, header_bytes, le16, cut_of, header_of, frame_ctl, hdr_len, frag_size,
  bytes_per_frag,
}
use rtl8190p.Tx.Priority.{Ends, downgrade_loop-Ends}

abbrev station : Sender
station = record {
  mode = infra;
  qos_actived = true;
  bssid = 2 ∷ 0 ∷ 0 ∷ 0 ∷ 0 ∷ 1 ∷ [];
  fts = 46;
  wmm_acm = 0xf0;
  seq_ctrl = λ q. 9;
  fcs = false;
  extra = none;
}

abbrev dest : List ℕ
dest = 2 ∷ 0 ∷ 0 ∷ 0 ∷ 0 ∷ 2 ∷ []

abbrev src : List ℕ
src = 2 ∷ 0 ∷ 0 ∷ 0 ∷ 0 ∷ 3 ∷ []

abbrev is_group : List ℕ → Bool
is_group addr = get_or addr 0 0 % 2 == 1

abbrev cut : Cut
cut = cut_of is_group station dest src 0x0800 5 (replicate 30 7)

-- Two fragments of one packet carry the sequence numbers 4095 and 0.
fragment_numbers :
    map
      (λ f. get_or f 22 0 + 256 * get_or f 23 0)
      (fragment_loop cut cut.nr_frags 0 (replicate 30 7) (some 4095)).0
    ≡ 4095 * 16 ∷ 1 ∷ []
unfolding cut_of bytes_per_frag frag_size hdr_len header_of fragment_loop query_seqnum frag_hdr
    header_bytes le16 put_snap frame_ctl
fragment_numbers = refl

-- Voice and video need an admission, so a frame of the priority 7 goes out with 3.
downgrade_voice : downgrade_loop 4 0xf0 7 ≡ some 3
unfolding downgrade_loop wme_downgrade_ac
downgrade_voice = refl

downgrade_loop-Ends_example : Ends 4 0xf0 7
downgrade_loop-Ends_example = downgrade_loop-Ends 0xf0 7 (omega arith)

classify_voice : classify 0x0800 0xc0 ≡ 6
unfolding classify
classify_voice = refl
