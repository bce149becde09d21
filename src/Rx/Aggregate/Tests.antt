-- ===== src/Rx/Aggregate/Tests.antt =====
-- Runs of parse_subframe, and the theorems at concrete frames.
use rtl8190p.Common.{ℕ, ◌≡◌, refl, arith, true, false, some, List, [], ◌∷◌, ◌++◌, replicate, length}
use rtl8190p.Rx.{qos_has_seq}
use rtl8190p.Rx.Aggregate.{
  Parsed, parse_subframe, parse_loop, is_aggregate_frame, llc_offset, padding_length,
  subframe_length, frame_ctl_of,
}
use rtl8190p.Rx.Aggregate.Split.{Subframe, IsSubframe, aggregate, parse_subframe-aggregate}

-- A QoS header with the bit for aggregates.
abbrev hdr : List ℕ
hdr = 0x88 ∷ replicate 23 0 ++ (0x80 ∷ 0 ∷ [])

abbrev peer : List ℕ
peer = 2 ∷ 0 ∷ 0 ∷ 0 ∷ 0 ∷ 7 ∷ []

abbrev before : Parsed
before = record { is_aggregate = false; subframes = []; src = []; dst = [] }

abbrev first : Subframe
first = record { addresses = replicate 12 1; payload = 1 ∷ 2 ∷ 3 ∷ [] }

abbrev second : Subframe
second = record { addresses = replicate 12 2; payload = 4 ∷ [] }

first-IsSubframe : IsSubframe first
unfolding IsSubframe
first-IsSubframe = (refl, omega arith, omega arith)

second-IsSubframe : IsSubframe second
unfolding IsSubframe
second-IsSubframe = (refl, omega arith, omega arith)

is_aggregate-hdr : is_aggregate_frame (hdr ++ aggregate (first ∷ second ∷ [])) ≡ true
unfolding is_aggregate_frame frame_ctl_of qos_has_seq
is_aggregate-hdr = refl

offset_hdr : length hdr ≡ llc_offset false (hdr ++ aggregate (first ∷ second ∷ []))
unfolding llc_offset frame_ctl_of qos_has_seq
offset_hdr = refl

parse_subframe-aggregate_example :
    parse_subframe false (hdr ++ aggregate (first ∷ second ∷ [])) peer peer before
    ≡ some (
      2,
      record {
        is_aggregate = true;
        subframes = (1 ∷ 2 ∷ 3 ∷ []) ∷ (4 ∷ []) ∷ [];
        src = peer;
        dst = peer;
      },
    )
parse_subframe-aggregate_example =
    parse_subframe-aggregate false hdr peer peer before first (second ∷ []) is_aggregate-hdr
      offset_hdr (first-IsSubframe, (second-IsSubframe, tt))

-- A frame that is cut off: the subframes that were whole stay behind, and 0 is returned.
abbrev cut : List ℕ
cut = hdr ++ (replicate 12 1 ++ (0 ∷ 2 ∷ 5 ∷ 6 ∷ replicate 13 1 ++ (9 ∷ 1 ∷ 1 ∷ [])))

parse_cut :
    parse_subframe false cut peer peer before
    ≡ some
        (0, record { is_aggregate = true; subframes = (5 ∷ 6 ∷ []) ∷ []; src = peer; dst = peer })
unfolding parse_subframe parse_loop is_aggregate_frame llc_offset frame_ctl_of qos_has_seq
    subframe_length padding_length
parse_cut = refl
