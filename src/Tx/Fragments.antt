-- ===== src/Tx/Fragments.antt =====
-- What the fragments of a frame hold.
pub mod Bytes
pub mod Layout
use rtl8190p.Common.{
  ℕ, zero, suc, ◌+◌, ◌-◌, ◌*◌, ◌/◌, ◌%◌, ◌≤◌, ◌<◌, ◌==◌, if◌then◌else◌, ◌≡◌, refl, ap, sym, ◌∙◌,
  arith, Bool, true, false, not, ◌&&◌, Option, none, some, List, [], ◌∷◌, ◌++◌, length, take, drop,
  All, append_assoc, append-nil, length-append, length-take, length-drop, take-append-drop,
  take_all, Bool-cases, inl, inr,
}
use native.Mathlib.Nat.{div-add-mod', mod-lt}
use rtl8190p.Common.{==_iff}
use rtl8190p.Tx.{Cut, Sender, frag_hdr, query_seqnum, put_snap, fragment_loop, cut_of}

unfoldable pub concat : List (List ℕ) → List ℕ
concat [] = []
concat (b ∷ bs) = b ++ concat bs

-- The stream's next sequence number when `i` fragments have been numbered, and the number of the
-- fragment `i`.
unfoldable pub state_at : Cut → (tx_cur_seq : Option ℕ) → (i : ℕ) → Option ℕ
state_at c none i = none
state_at c (some seq) i =
    if c.qos_actived && not c.is_multicast then some ((seq + i) % 4096) else some seq

unfoldable pub number_at : Cut → (tx_cur_seq : Option ℕ) → (i : ℕ) → ℕ
number_at c none i = if c.qos_actived && not c.is_multicast then 0 else c.seq_ctrl
number_at c (some seq) i =
    if c.qos_actived && not c.is_multicast then (seq + i) % 4096 else c.seq_ctrl

-- Parts of a packet, each behind its header.
unfoldable pub frames_of : Cut → (tx_cur_seq : Option ℕ) → (i : ℕ) → List (List ℕ) → List (List ℕ)
frames_of c ts i [] = []
frames_of c ts i (b ∷ bs) = (frag_hdr c i (number_at c ts i) ++ b) ∷ frames_of c ts (i + 1) bs

query_next :
    (c : Cut) (ts : Option ℕ) (i : ℕ)
    → (if c.qos_actived && not c.is_multicast
        then query_seqnum (state_at c ts i)
        else (c.seq_ctrl, state_at c ts i))
      ≡ (number_at c ts i, state_at c ts (i + 1))
unfolding state_at number_at query_seqnum
query_next c none i = elim (Bool-cases (c.qos_actived && not c.is_multicast)) [
  | inl own ↦ rw own refl
  | inr shared ↦ rw shared refl
]
query_next c (some seq) i = elim (Bool-cases (c.qos_actived && not c.is_multicast)) [
  | inl own ↦
      let next : ((seq + i) % 4096 + 1) % 4096 ≡ (seq + (i + 1)) % 4096 = omega arith in
      rw (own, next) refl
  | inr shared ↦ rw shared refl
]

-- What stands in front of the packet's bytes in the fragment `i`.
abbrev pre_at : Cut → ℕ → List ℕ
pre_at c i = if i == 0 then put_snap c.ether_type else []

abbrev size_at : Cut → ℕ → ℕ
size_at c i = if i + 1 == c.nr_frags then c.bytes_last_frag else c.bytes_per_frag

-- One round of the loop.
one_frame :
    (c : Cut) (ts : Option ℕ) (left i : ℕ) (skb : List ℕ)
    → let n = size_at c i - length (pre_at c i) in
      (fragment_loop c (suc left) i skb (state_at c ts i)).0
      ≡ (frag_hdr c i (number_at c ts i) ++ (pre_at c i ++ take n skb))
        ∷ (fragment_loop c left (i + 1) (drop n skb) (state_at c ts (i + 1))).0
unfolding fragment_loop put_snap
one_frame c ts left zero skb = rw (query_next c ts 0) refl
one_frame c ts left (suc i) skb =
    let later : (suc i == 0) ≡ false = ground arith in
    let all : size_at c (suc i) - 0 ≡ size_at c (suc i) = omega arith in
    rw (query_next c ts (suc i), later, all) refl

-- A body of `n` bytes, of which `pre` are there.
body-length :
    (pre skb : List ℕ) (n : ℕ)
    → length pre ≤ n
    → n ≤ length pre + length skb
    → length (pre ++ take (n - length pre) skb) ≡ n
body-length pre skb n h k =
    omega (arith, length-append pre (take (n - length pre) skb), length-take (n - length pre) skb)

module _ (c : Cut) (ts : Option ℕ) (room : 8 ≤ c.bytes_per_frag) (some_last : 0 < c.bytes_last_frag)
    (last_fits : c.bytes_last_frag ≤ c.bytes_per_frag) where
  pre_at-length : (i : ℕ) → length (pre_at c i) ≤ 8
  unfolding put_snap
  pre_at-length zero = omega arith
  pre_at-length (suc i) = let later : (suc i == 0) ≡ false = ground arith in rw later (omega arith)

  -- The loop makes frames of bodies that hold the packet.
  loop_lem :
      (m i : ℕ) (skb : List ℕ)
      → i + suc m ≡ c.nr_frags
      → length (pre_at c i) + length skb ≡ m * c.bytes_per_frag + c.bytes_last_frag
      → (bodies : List (List ℕ)) × ((fragment_loop c (suc m) i skb (state_at c ts i)).0
          ≡ frames_of c ts i bodies)
        × (concat bodies ≡ pre_at c i ++ skb)
        × All (λ b. 0 < length b × length b ≤ c.bytes_per_frag) bodies
        × (length bodies ≡ suc m)
  unfolding frames_of concat fragment_loop
  loop_lem zero i skb place size =
      let pre = pre_at c i in
      let test : (i + 1 == c.nr_frags) ≡ true = ground (arith, place) in
      let last : size_at c i ≡ c.bytes_last_frag = rw test refl in
      let n = size_at c i - length pre in
      let whole : take n skb ≡ skb = take_all skb n (omega (arith, last, size)) in
      let b = pre ++ skb in
      let long = length-append pre skb in
      (
        b ∷ [],
        one_frame c ts zero i skb
            ∙ ap (λ t. (frag_hdr c i (number_at c ts i) ++ (pre ++ t)) ∷ []) whole,
        append-nil b,
        ((omega (arith, long, size, some_last), omega (arith, long, size, last_fits)), tt),
        refl,
      )
  loop_lem (suc m) i skb place size =
      let pre = pre_at c i in
      let short = pre_at-length i in
      let test : (i + 1 == c.nr_frags) ≡ false = ground (arith, place) in
      let full : size_at c i ≡ c.bytes_per_frag = rw test refl in
      let per = c.bytes_per_frag in
      let product : suc m * per ≡ m * per + per = omega arith in
      let n = size_at c i - length pre in
      let b = pre ++ take n skb in
      let rest = drop n skb in
      let long : length b ≡ per =
        body-length pre skb (size_at c i) (omega (arith, full, short, room))
          (omega (arith, full, size, product))
        ∙ full in
      let after : (i + 1 == 0) ≡ false = ground arith in
      let none_before : pre_at c (i + 1) ≡ [] = rw after refl in
      let left : length (pre_at c (i + 1)) + length rest ≡ m * per + c.bytes_last_frag =
        rw none_before (omega (arith, length-drop n skb, full, short, room, size, product)) in
      let (bodies, run, all, fit, many) = loop_lem m (i + 1) rest (omega (arith, place)) left in
      (
        b ∷ bodies,
        one_frame c ts (suc m) i skb ∙ ap (λ t. (frag_hdr c i (number_at c ts i) ++ b) ∷ t) run,
        ap (λ t. b ++ t) (all ∙ ap (λ t. t ++ rest) none_before)
            ∙ append_assoc pre (take n skb) rest
            ∙ ap (λ t. pre ++ t) (take-append-drop n skb),
        ((omega (arith, long, room), omega (arith, long)), fit),
        ap suc many,
      )

-- A number as a product of the divisor, and a last part that is not empty.
exact_parts :
    (q bytes per : ℕ)
    → q * per ≡ bytes
    → 0 < bytes
    → (m : ℕ) × (q ≡ suc m) × (bytes ≡ m * per + per)
exact_parts zero bytes per product some_bytes = absurd (omega arith)
exact_parts (suc m) bytes per product some_bytes = (m, refl, omega arith)

parts :
    (bytes per : ℕ)
    → 0 < bytes
    → 0 < per
    → let last = if bytes % per == 0 then per else bytes % per in
      (m : ℕ) × ((if bytes % per == 0 then bytes / per else bytes / per + 1) ≡ suc m)
      × (bytes ≡ m * per + last)
      × 0 < last
      × last ≤ per
parts bytes per some_bytes some_per = elim (Bool-cases (bytes % per == 0)) [
  | inl exact ↦
      let whole : bytes / per * per ≡ bytes =
        omega (arith, div-add-mod' bytes per, (==_iff (bytes % per) 0).0 exact) in
      let (m, count, sum) = exact_parts (bytes / per) bytes per whole some_bytes in
      (m, rw exact count, rw exact sum, rw exact some_per, rw exact (omega arith))
  | inr rest ↦
      let left : 0 < bytes % per = ground (arith, rest) in
      (
        bytes / per,
        rw rest (omega arith),
        rw rest (sym (div-add-mod' bytes per)),
        rw rest left,
        rw rest (omega (arith, mod-lt bytes some_per)),
      )
]

-- A stream counts with 12 bits.
unfoldable pub IsSeq : Option ℕ → Type 0
IsSeq none = Unit
IsSeq (some seq) = seq < 4096

state_at-zero : (c : Cut) (ts : Option ℕ) → IsSeq ts → state_at c ts 0 ≡ ts
unfolding state_at IsSeq
state_at-zero c none h = refl
state_at-zero c (some seq) h =
    let same : (seq + 0) % 4096 ≡ seq = omega arith in
    elim (Bool-cases (c.qos_actived && not c.is_multicast)) [
      | inl own ↦ rw (own, same) refl
      | inr shared ↦ rw shared refl
    ]

-- Where a fragment has room for eight bytes of the packet, the loop makes as many fragments as were
-- reckoned, each of its header and a body; the bodies are not empty and no longer than the room, and
-- one behind the other they are the SNAP header and the packet.
pub fragment_loop-frames :
    (is_group : List ℕ → Bool) (d : Sender) (dest src : List ℕ) (ether_type priority : ℕ)
    (payload : List ℕ) (ts : Option ℕ)
    → let c = cut_of is_group d dest src ether_type priority payload in
      8 ≤ c.bytes_per_frag
      → IsSeq ts
      → (bodies : List (List ℕ)) × ((fragment_loop c c.nr_frags 0 payload ts).0
          ≡ frames_of c ts 0 bodies)
        × (concat bodies ≡ put_snap ether_type ++ payload)
        × All (λ b. 0 < length b × length b ≤ c.bytes_per_frag) bodies
        × (length bodies ≡ c.nr_frags)
unfolding cut_of put_snap
fragment_loop-frames is_group d dest src ether_type priority payload ts room seq =
    let c = cut_of is_group d dest src ether_type priority payload in
    let (m, count, sum, some_last, last_fits) =
      parts (length payload + 8) c.bytes_per_frag (omega arith) (omega (arith, room)) in
    let (bodies, run, all, fit, many) =
      loop_lem c ts room some_last last_fits m 0 payload (omega (arith, count))
        (omega (arith, sum)) in
    (
      bodies,
      ap (λ k. (fragment_loop c k 0 payload ts).0) count
          ∙ ap (λ t. (fragment_loop c (suc m) 0 payload t).0) (sym (state_at-zero c ts seq))
          ∙ run,
      all,
      fit,
      many ∙ sym count,
    )
