-- ===== src/Firmware/Fragments.antt =====
-- What fw_download_code hands to the card.
use rtl8190p.Common.{
  ℕ, zero, suc, ◌+◌, ◌-◌, ◌*◌, ◌/◌, ◌%◌, ◌^◌, ◌≤◌, ◌<◌, ltb, ◌≡◌, refl, ap, sym, ◌∙◌, arith,
}
use rtl8190p.Common.{Bool, true, false, not, ◌||◌, some, List, [], ◌∷◌, ◌++◌, length, map}
use rtl8190p.Common.{subst, append_assoc, append-nil, replicate, All, Bool-cases, inl, inr}
use rtl8190p.Firmware.{
  Packet, Queue, is_empty, submit, frag_threshold, words, fragment, download_loop, fw_download_code,
}

-- `n` words of an image, each with its last byte first.
unfoldable pub swapped : (mem : ℕ → ℕ) → (pos n : ℕ) → List ℕ
swapped mem pos zero = []
swapped mem pos (suc n) =
    mem (pos + 3) ∷ mem (pos + 2) ∷ mem (pos + 1) ∷ mem pos ∷ swapped mem (pos + 4) n

-- The packets of the queue in the order in which the card gets them, and the bytes of packets.
unfoldable pub all_of : Queue → List Packet
all_of q = q.sent ++ q.waiting

unfoldable pub bytes_of : List Packet → List ℕ
bytes_of [] = []
bytes_of (p ∷ ps) = p.bytes ++ bytes_of ps

words-swapped :
    (mem : ℕ → ℕ) (pos len n i : ℕ)
    → i + 4 * n ≤ len
    → words mem pos len n i ≡ swapped mem (pos + i) n
unfolding words swapped
words-swapped mem pos len zero i h = refl
words-swapped mem pos len (suc n) i h =
    let t0 : ltb i len ≡ true = ground arith in
    let t1 : ltb (i + 1) len ≡ true = ground arith in
    let t2 : ltb (i + 2) len ≡ true = ground arith in
    let t3 : ltb (i + 3) len ≡ true = ground arith in
    let on : pos + (i + 4) ≡ pos + i + 4 = omega arith in
    let rest : words mem pos len n (i + 4) ≡ swapped mem (pos + i + 4) n =
      words-swapped mem pos len n (i + 4) (omega arith) ∙ ap (λ k. swapped mem k n) on in
    rw (t0, t1, t2, t3, rest) refl

fragment-swapped : (mem : ℕ → ℕ) (pos n : ℕ) → fragment mem pos (4 * n) ≡ swapped mem pos n
unfolding fragment
fragment-swapped mem pos n =
    let whole : (4 * n + 3) / 4 ≡ n = omega arith in
    let at : pos + 0 ≡ pos = omega arith in
    rw whole (words-swapped mem pos (4 * n) n 0 (omega arith) ∙ ap (λ k. swapped mem k n) at)

swapped-append :
    (mem : ℕ → ℕ) (m n pos : ℕ)
    → swapped mem pos (m + n) ≡ swapped mem pos m ++ swapped mem (pos + 4 * m) n
unfolding swapped
swapped-append mem zero n pos =
    let none : zero + n ≡ n = omega arith in
    let at : pos + 4 * zero ≡ pos = omega arith in rw (none, at) refl
swapped-append mem (suc m) n pos =
    let one : suc m + n ≡ suc (m + n) = omega arith in
    let at : pos + 4 * suc m ≡ pos + 4 + 4 * m = omega arith in
    rw (one, at)
      (ap (λ l. mem (pos + 3) ∷ mem (pos + 2) ∷ mem (pos + 1) ∷ mem pos ∷ l)
        (swapped-append mem m n (pos + 4)))

length-swapped : (mem : ℕ → ℕ) (n pos : ℕ) → length (swapped mem pos n) ≡ 4 * n
unfolding swapped
length-swapped mem zero pos = refl
length-swapped mem (suc n) pos = omega (arith, length-swapped mem n (pos + 4))

is_empty→nil : (ps : List Packet) → not (is_empty ps) ≡ false → ps ≡ []
unfolding is_empty
is_empty→nil [] e = refl
is_empty→nil (p ∷ ps) e = cc

-- A packet goes behind all others, whether the card takes it or not.
pub all_of-submit :
    (full : ℕ → Bool) (p : Packet) (q : Queue) → all_of (submit full p q) ≡ all_of q ++ (p ∷ [])
unfolding all_of submit
all_of-submit full p q = elim (Bool-cases (full (length q.sent) || not (is_empty q.waiting))) [
  | inl waits ↦ rw waits (sym (append_assoc q.sent q.waiting (p ∷ [])))
  | inr goes ↦
      let none : q.waiting ≡ [] = is_empty→nil q.waiting (ground arith) in
      rw goes (
        ap (λ w. (q.sent ++ p ∷ []) ++ w) none
        ∙ append-nil (q.sent ++ p ∷ [])
        ∙ ap (λ w. w ++ p ∷ []) (sym (ap (λ w. q.sent ++ w) none ∙ append-nil q.sent)))
]

-- What a run of the loop adds to the queue: packets of `threshold` bytes at most, the last of them
-- marked and no other, that hold `n` words of the image from `pos` on.
pub record Adds (mem : ℕ → ℕ) (threshold pos n : ℕ) (q q' : Queue) : Type 0 where
  pub packets : List Packet
  pub behind : all_of q' ≡ all_of q ++ packets
  pub content : bytes_of packets ≡ swapped mem pos n
  pub short : All (λ p. length p.bytes ≤ threshold) packets
  pub others : ℕ
  pub marks : map (λ p. p.is_last) packets ≡ replicate others false ++ (true ∷ [])

module _ (mem : ℕ → ℕ) (full : ℕ → Bool) (t : ℕ) (some_words : 0 < t) (small : 4 * t < 2 ^ 16) where
  abbrev packet_of : (is_last : Bool) → (pos n : ℕ) → Packet
  packet_of is_last pos n = record { is_last = is_last; bytes = fragment mem pos (4 * n) }

  fits : (is_last : Bool) (pos n : ℕ) → n ≤ t → length (packet_of is_last pos n).bytes ≤ 4 * t
  fits is_last pos n h = rw (fragment-swapped mem pos n) (omega (arith, length-swapped mem n pos))

  last_packet :
      (pos n : ℕ) (q : Queue)
      → n ≤ t
      → Adds mem (4 * t) pos n q (submit full (packet_of true pos n) q)
  unfolding bytes_of
  last_packet pos n q h = record {
    packets = packet_of true pos n ∷ [];
    behind = all_of-submit full (packet_of true pos n) q;
    content = rw (fragment-swapped mem pos n) (append-nil (swapped mem pos n));
    short = (fits true pos n h, tt);
    others = 0;
    marks = refl;
  }

  more_packets :
      (pos n : ℕ) (q q' : Queue)
      → Adds mem (4 * t) (pos + 4 * t) n (submit full (packet_of false pos t) q) q'
      → Adds mem (4 * t) pos (t + n) q q'
  unfolding bytes_of
  more_packets pos n q q' a =
      let p = packet_of false pos t in
      record {
        packets = p ∷ a.packets;
        behind =
            a.behind
            ∙ ap (λ l. l ++ a.packets) (all_of-submit full p q)
            ∙ append_assoc (all_of q) (p ∷ []) a.packets;
        content = rw (fragment-swapped mem pos t, a.content) (sym (swapped-append mem t n pos));
        short = (fits false pos t (omega arith), a.short);
        others = suc a.others;
        marks = ap (λ l. false ∷ l) a.marks;
      }

  -- One round, with `m` words left from the word `k` on.
  module _ (rounds k m : ℕ) (q : Queue) (range : 4 * (k + m) < 2 ^ 16) where
    left : (4 * (k + m) + 2 ^ 32 - 4 * k) % 2 ^ 32 ≡ 4 * m
    left = omega arith

    round_more :
        ltb (4 * t) (4 * m) ≡ true
        → download_loop mem full (4 * t) (4 * (k + m)) (suc rounds) (4 * k) (4 * k) q
          ≡ download_loop mem full
              (4 * t)
              (4 * (k + m))
              rounds
              (4 * k + 4 * t)
              (4 * k + 4 * t)
              (submit full (packet_of false (4 * k) t) q)
    unfolding download_loop
    round_more more =
        let next : (4 * k + 4 * t) % 2 ^ 16 ≡ 4 * k + 4 * t = ground arith in
        let on : ltb (4 * k + 4 * t) (4 * (k + m)) ≡ true = ground arith in
        rw (download_loop, left, more, next, on) refl

    round_last :
        ltb (4 * t) (4 * m) ≡ false
        → download_loop mem full (4 * t) (4 * (k + m)) (suc rounds) (4 * k) (4 * k) q
          ≡ some (submit full (packet_of true (4 * k) m) q)
    unfolding download_loop
    round_last last =
        let part : 4 * m % 2 ^ 16 ≡ 4 * m = ground arith in
        let next : (4 * k + 4 * m) % 2 ^ 16 ≡ 4 * k + 4 * m = ground arith in
        let over : ltb (4 * k + 4 * m) (4 * (k + m)) ≡ false = ground arith in
        rw (download_loop, left, last, part, next, over) refl

  loop_lem :
      (rounds k m : ℕ) (q : Queue)
      → 4 * (k + m) < 2 ^ 16
      → m < rounds
      → (q' : Queue) × (download_loop mem full (4 * t) (4 * (k + m)) rounds (4 * k) (4 * k) q
          ≡ some q')
        × Adds mem (4 * t) (4 * k) m q q'
  loop_lem zero k m q range enough = absurd (omega arith)
  loop_lem (suc rounds) k m q range enough = elim (Bool-cases (ltb (4 * t) (4 * m))) [
    | inl more ↦
        let n = m - t in
        let sum : t + n ≡ m = ground arith in
        let place : 4 * (k + t) ≡ 4 * k + 4 * t = omega arith in
        let whole : 4 * (k + t + n) ≡ 4 * (k + m) = omega (arith, sum) in
        let p = packet_of false (4 * k) t in
        let (q', run, adds) =
          loop_lem rounds (k + t) n (submit full p q) (omega (arith, sum)) (omega (arith, sum)) in
        let run' : download_loop mem full (4 * t) (4 * (k + m)) rounds (4 * k + 4 * t)
              (4 * k + 4 * t) (submit full p q)
            ≡ some q' =
          rw (← place, ← whole) run in
        let adds' : Adds mem (4 * t) (4 * k + 4 * t) n (submit full p q) q' = rw (← place) adds in
        (
          q',
          round_more rounds k m q range more ∙ run',
          subst (λ c. Adds mem (4 * t) (4 * k) c q q') sum (more_packets (4 * k) n q q' adds'),
        )
    | inr last ↦ (
      submit full (packet_of true (4 * k) m) q,
      round_last rounds k m q range last,
      last_packet (4 * k) m q (ground arith),
    )
  ]

-- For an image of at most 64000 bytes, whole words of them, fw_download_code ends, in fewer rounds
-- than a u16 has values, and puts behind the packets that were there the image in packets of at
-- most 3192 bytes, in order, each word with its last byte first, the last packet marked and no
-- other, whether the card takes them at once or they wait.
pub fw_download_code_lem :
    (mem : ℕ → ℕ) (full : ℕ → Bool) (n rounds : ℕ) (q : Queue)
    → 4 * n ≤ 64000
    → n < rounds
    → (q' : Queue) × (fw_download_code mem full (4 * n) rounds q ≡ some q') × Adds mem 3192 0 n q q'
unfolding fw_download_code frag_threshold
fw_download_code_lem mem full n rounds q range enough =
    let all : 0 + n ≡ n = omega arith in
    let run = loop_lem mem full 798 (omega arith) (omega arith) rounds 0 n q (omega arith) enough in
    rw all at run

bytes_of-append : (ps qs : List Packet) → bytes_of (ps ++ qs) ≡ bytes_of ps ++ bytes_of qs
unfolding bytes_of
bytes_of-append [] qs = refl
bytes_of-append (p ∷ ps) qs =
    ap (λ l. p.bytes ++ l) (bytes_of-append ps qs)
    ∙ sym (append_assoc p.bytes (bytes_of ps) (bytes_of qs))

-- The bytes of the packets of a queue, in the order in which the card gets them.
abbrev pub held : Queue → List ℕ
held q = bytes_of (all_of q)

pub held-Adds :
    (mem : ℕ → ℕ) (threshold pos n : ℕ) (q q' : Queue)
    → Adds mem threshold pos n q q'
    → held q' ≡ held q ++ swapped mem pos n
held-Adds mem threshold pos n q q' a =
    ap bytes_of a.behind ∙ bytes_of-append (all_of q) a.packets ∙ ap (λ l. held q ++ l) a.content

pub held-submit :
    (full : ℕ → Bool) (p : Packet) (q : Queue) → held (submit full p q) ≡ held q ++ p.bytes
unfolding bytes_of
held-submit full p q =
    ap bytes_of (all_of-submit full p q)
    ∙ bytes_of-append (all_of q) (p ∷ [])
    ∙ ap (λ l. held q ++ l) (append-nil p.bytes)
