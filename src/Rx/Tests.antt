-- ===== src/Rx/Tests.antt =====
-- Runs of the duplicate test and the fragment cache, and the theorems at concrete frames.
use rtl8190p.Common.{ℕ, ◌+◌, ◌≡◌, ◌↔◌, refl, arith, ltb, Bool, true, false, Option, none, some}
use rtl8190p.Common.{List, [], ◌∷◌, count, bytes_eq}
use rtl8190p.Ts.{adhoc}
use rtl8190p.Rx.{Header, get_seq_frag, get_seq_seq, queue_of}
use rtl8190p.Rx.Duplicate.{Last, Seen, is_duplicate_packet, find_mac}
use rtl8190p.Rx.Duplicate.Repeat.{is_duplicate-next_iff}
use rtl8190p.Rx.Fragments.{FragEntry, FragCache, buffers, frag_cache_get, frag_cache_find}
use rtl8190p.Rx.Fragments.Buffers.{frag_cache_get-held, known}

abbrev after : ℕ → ℕ → Bool
after a b = ltb b a

abbrev old : Last
old = record { seq_num = 7; frag_num = 0; packet_time = 0 }

abbrev seen : Seen
seen = record { last_rx = λ i. old; ibss_mac_hash = λ i. [] }

abbrev head : Header
head = record {
  frame_ctl = 8;
  seq_ctl = 80;
  qos_ctl_3addr = 0;
  qos_ctl_4addr = 0;
  addr1 = 1 ∷ 1 ∷ 1 ∷ 1 ∷ 1 ∷ 1 ∷ [];
  addr2 = 2 ∷ 0 ∷ 0 ∷ 0 ∷ 0 ∷ 7 ∷ [];
}

abbrev second : Header
second = record head { seq_ctl = 81 }

abbrev seen_head : Bool × Seen
seen_head = is_duplicate_packet after 100 adhoc true (λ i. old) 10 head seen

runs_passed : seen_head.0 ≡ false
unfolding is_duplicate_packet find_mac
runs_passed = refl

is_duplicate-next_iff_example :
    ((is_duplicate_packet after 100 adhoc true (λ i. old) 20 second seen_head.1).0 ≡ false)
    ↔ (get_seq_frag second.seq_ctl ≡ get_seq_frag head.seq_ctl + 1)
unfolding queue_of get_seq_seq
is_duplicate-next_iff_example =
    is_duplicate-next_iff after 100 adhoc true (λ i. old) (λ i. old) 10 20 head second seen
      (λ e. cc) runs_passed refl refl refl refl

abbrev blank : FragEntry
blank = record {
  first_frag_time = 0;
  seq = 0;
  last_frag = 0;
  skb = none;
  src_addr = [];
  dst_addr = [];
}

abbrev cache : FragCache
cache = record {
  frag_cache = λ i. blank ∷ blank ∷ blank ∷ blank ∷ [];
  frag_next_idx = λ i. 0;
  freed = [];
}

abbrev with_head : FragCache
with_head = (frag_cache_get after 100 10 (some 9) head cache).1

frag_cache_get-held_example :
    known after 100 0 9 with_head ≡ known after 100 0 9 cache + count 9 (buffers (some 9))
unfolding queue_of get_seq_frag
frag_cache_get-held_example = frag_cache_get-held after 100 10 (some 9) head cache 9 (omega arith)

abbrev search : Option ℕ × List FragEntry × List ℕ
search = frag_cache_find after 100 20 5 1 second.addr2 second.addr1 (with_head.frag_cache 0)

runs_found : search.0 ≡ some 0
unfolding frag_cache_find frag_cache_get queue_of get_seq_frag get_seq_seq bytes_eq
runs_found = refl
