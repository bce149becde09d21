-- ===== src/Rx/Aggregate.antt =====
-- The frames that hold several packets: parse_subframe of src/rtllib_rx.c on the bytes of a frame.
pub mod Split
pub mod Within
mod Tests
use rtl8190p.Common.{
  ℕ, zero, suc, ◌+◌, ◌-◌, ◌*◌, ◌/◌, ◌%◌, ◌==◌, ltb, if◌then◌else◌, Bool, true, false, not, ◌&&◌,
  Option, none, some, List, [], ◌∷◌, ◌++◌, length, get_or, take, drop,
}
use rtl8190p.Rx.{qos_has_seq}

-- bIsAggregateFrame of the device, and rtllib_rxb, of which nr_subframes is the length of
-- `subframes`.
pub record Parsed : Type 0 where
  pub is_aggregate : Bool
  pub subframes : List (List ℕ)
  pub src : List ℕ
  pub dst : List ℕ

-- The bytes between the end of a subframe and the next one.
unfoldable pub padding_length : (subframe_length : ℕ) → ℕ
padding_length n = let p = 4 - (n + 14) % 4 in if p == 4 then 0 else p

-- nSubframe_Length, whose bytes are swapped on a little-endian host.
unfoldable pub subframe_length : List ℕ → ℕ
subframe_length skb = 256 * get_or skb 12 0 + get_or skb 13 0

-- The loop of parse_subframe; MAX_SUBFRAME_COUNT is 64. `none` when the rounds run out, and when
-- the length of a subframe or its bytes are read past the end of the frame.
unfoldable pub parse_loop : (rounds : ℕ) (skb : List ℕ) → List (List ℕ) → Option (ℕ × List (List ℕ))
parse_loop zero skb subframes = none
parse_loop (suc rounds) skb subframes =
    let n = subframe_length skb in
    let pulled = drop 14 skb in
    let subframes' = subframes ++ (take n pulled ∷ []) in
    let rest = drop n pulled in
    let next = if length rest == 0 then rest else drop (padding_length n) rest in
    let more = parse_loop rounds next subframes' in
    if not (ltb 14 (length skb))
    then some (length subframes, subframes)
    else if ltb (length skb) 14
    then none
    else if ltb (length skb) (14 + n)
    then some (0, subframes)
    else if ltb (length pulled) n
    then none
    else if not (ltb (length subframes') 64)
    then some (length subframes', subframes')
    else if not (length rest == 0) && ltb (length rest) (padding_length n)
    then some (0, subframes')
    else more

-- frame_ctl, the bit `reserved` of the QoS field, and LLCOffset; sizeof(struct rtllib_hdr_3addr) is
-- 24 and sHTCLng is 4.
unfoldable pub frame_ctl_of : List ℕ → ℕ
frame_ctl_of skb = get_or skb 0 0 + 256 * get_or skb 1 0

unfoldable pub is_aggregate_frame : List ℕ → Bool
is_aggregate_frame skb = qos_has_seq (frame_ctl_of skb) && get_or skb 24 0 / 128 % 2 == 1

unfoldable pub llc_offset : (contain_htc : Bool) → List ℕ → ℕ
llc_offset contain_htc skb =
    24 + (if qos_has_seq (frame_ctl_of skb) then 2 else 0) + (if contain_htc then 4 else 0)

-- parse_subframe: what it returns, and what it leaves, `none` as for the loop. A round of the loop
-- takes 14 bytes at least, so the rounds are enough. The QoS field is looked at before the length
-- is, and counts only after it.
unfoldable pub parse_subframe :
    (contain_htc : Bool) (skb src dst : List ℕ) → Parsed → Option (ℕ × Parsed)
parse_subframe contain_htc skb src dst p =
    let offset = llc_offset contain_htc skb in
    let body = drop offset skb in
    if not (ltb offset (length skb))
    then some (0, p)
    else if not (is_aggregate_frame skb)
    then some (1, record { is_aggregate = false; subframes = body ∷ []; src = src; dst = dst })
    else elim (parse_loop (suc (length body)) body []) [
      | none ↦ none
      | some (n, found) ↦
          some (n, record { is_aggregate = true; subframes = found; src = src; dst = dst })
    ]
