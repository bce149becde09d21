-- ===== src/Rx/Aggregate/Split.antt =====
-- What parse_subframe makes of a frame that an aggregating sender built.
use rtl8190p.Common.{
  ℕ, zero, suc, ◌+◌, ◌-◌, ◌*◌, ◌/◌, ◌%◌, ◌^◌, ◌<◌, ◌==◌, ltb, if◌then◌else◌, ◌≡◌, refl, ap, sym,
  ◌∙◌, arith, Bool, true, false, not, ◌&&◌, some, List, [], ◌∷◌, ◌++◌, length, take, drop, get_or,
  map, replicate, All, append_assoc, length-append, length-replicate, take-append, drop-append,
  get_or-append_right, get_or-append_left, Bool-cases, ◌⊎◌, inl, inr,
}
use rtl8190p.Rx.Aggregate.{
  Parsed, padding_length, subframe_length, parse_loop, is_aggregate_frame, llc_offset,
  parse_subframe,
}

-- A subframe: the two addresses of its header, and its bytes.
pub record Subframe : Type 0 where
  pub addresses : List ℕ
  pub payload : List ℕ

unfoldable pub IsSubframe : Subframe → Type 0
IsSubframe s = (length s.addresses ≡ 12) × 0 < length s.payload × length s.payload < 2 ^ 16

-- The header, with the length of the bytes behind the addresses, the high byte first.
unfoldable pub head_of : Subframe → List ℕ
head_of s = s.addresses ++ (length s.payload / 256 ∷ length s.payload % 256 ∷ [])

-- The zeros that fill a subframe of `n` bytes and its header of 14 up to a multiple of four.
unfoldable pub filler : (n : ℕ) → List ℕ
filler n = replicate ((14 + n + 3) / 4 * 4 - (14 + n)) 0

-- The subframes as they are sent: each but the last is filled up.
unfoldable pub aggregate : List Subframe → List ℕ
aggregate [] = []
aggregate (s ∷ []) = head_of s ++ (s.payload ++ [])
aggregate (s ∷ t ∷ ts) =
    head_of s ++ (s.payload ++ (filler (length s.payload) ++ aggregate (t ∷ ts)))

abbrev pub payloads : List Subframe → List (List ℕ)
payloads = map (λ s. s.payload)

take_nil : (k : ℕ) → take {A = List ℕ} k [] ≡ []
take_nil zero = refl
take_nil (suc k) = refl

module _ (s : Subframe) (rest : List ℕ) (ok : IsSubframe s) where
  length-head : length (head_of s) ≡ 14
  unfolding IsSubframe head_of
  length-head = omega (
    arith,
    length-append s.addresses (length s.payload / 256 ∷ length s.payload % 256 ∷ []),
    ok.0,
  )

  subframe_length_lem : subframe_length (head_of s ++ (s.payload ++ rest)) ≡ length s.payload
  unfolding IsSubframe head_of subframe_length
  subframe_length_lem =
      let n = length s.payload in
      let two = n / 256 ∷ n % 256 ∷ [] in
      let at0 : get_or ((s.addresses ++ two) ++ (s.payload ++ rest)) 12 0 ≡ n / 256 =
        get_or-append_left (s.addresses ++ two) (s.payload ++ rest) 12 0
          (omega (arith, length-append s.addresses two, ok.0))
        ∙ ap (λ k. get_or (s.addresses ++ two) k 0) (omega (arith, ok.0))
        ∙ get_or-append_right s.addresses two 0 0 in
      let at1 : get_or ((s.addresses ++ two) ++ (s.payload ++ rest)) 13 0 ≡ n % 256 =
        get_or-append_left (s.addresses ++ two) (s.payload ++ rest) 13 0
          (omega (arith, length-append s.addresses two, ok.0))
        ∙ ap (λ k. get_or (s.addresses ++ two) k 0) (omega (arith, ok.0))
        ∙ get_or-append_right s.addresses two 1 0 in
      omega (arith, at0, at1)

  pulled : drop 14 (head_of s ++ (s.payload ++ rest)) ≡ s.payload ++ rest
  pulled =
      ap (λ k. drop k (head_of s ++ (s.payload ++ rest))) (sym length-head)
      ∙ drop-append (head_of s) (s.payload ++ rest)

  some_bytes : 0 < length s.payload
  unfolding IsSubframe
  some_bytes = ok.1

  -- One round takes the subframe in.
  one_round :
      (rounds : ℕ) (found : List (List ℕ))
      → parse_loop (suc rounds) (head_of s ++ (s.payload ++ rest)) found ≡ (
          let found' = found ++ (s.payload ∷ []) in
          let next =
            if length rest == 0 then rest else drop (padding_length (length s.payload)) rest in
          if not (ltb (length found') 64)
          then some (length found', found')
          else if not (length rest == 0) && ltb (length rest) (padding_length (length s.payload))
          then some (0, found')
          else parse_loop rounds next found')
  unfolding parse_loop
  one_round rounds found =
      let size : length (head_of s ++ (s.payload ++ rest)) ≡ 14 + (length s.payload + length rest) =
        omega (
          arith,
          length-append (head_of s) (s.payload ++ rest),
          length-append s.payload rest,
          length-head,
        ) in
      let n = length s.payload in
      let long : not (ltb 14 (length (head_of s ++ (s.payload ++ rest)))) ≡ false =
        ground (arith, size, some_bytes) in
      let head : ltb (length (head_of s ++ (s.payload ++ rest))) 14 ≡ false =
        ground (arith, size) in
      let inside : ltb (length (s.payload ++ rest)) n ≡ false =
        ground (arith, length-append s.payload rest) in
      let whole : ltb (length (head_of s ++ (s.payload ++ rest))) (14 + n) ≡ false =
        ground (arith, size) in
      rw
        (
          parse_loop,
          subframe_length_lem,
          long,
          head,
          whole,
          pulled,
          inside,
          take-append s.payload rest,
          drop-append s.payload rest,
        )
        refl

filling : Subframe → List ℕ
filling s = filler (length s.payload)

length-filling : (s : Subframe) → length (filling s) ≡ padding_length (length s.payload)
unfolding filling filler padding_length
length-filling s =
    let n = length s.payload in
    let size = length-replicate ((14 + n + 3) / 4 * 4 - (14 + n)) zero in ground (arith, size)

length-aggregate :
    (s : Subframe) (ss : List Subframe)
    → All IsSubframe (s ∷ ss)
    → length ss < length (aggregate (s ∷ ss))
unfolding aggregate filling
length-aggregate s [] ok =
    omega (arith, length-append (head_of s) (s.payload ++ []), length-head s [] ok.0)
length-aggregate s (t ∷ ts) ok =
    let rest = s.payload ++ (filling s ++ aggregate (t ∷ ts)) in
    omega (
      arith,
      length-append (head_of s) rest,
      length-append s.payload (filling s ++ aggregate (t ∷ ts)),
      length-append (filling s) (aggregate (t ∷ ts)),
      length-head s [] ok.0,
      length-aggregate t ts ok.1,
    )

-- One round where more than the subframe is there, and a place behind it.
next_round :
    (s : Subframe) (rest : List ℕ) (rounds : ℕ) (found : List (List ℕ))
    → IsSubframe s
    → 0 < length rest
    → length found + 1 < 64
    → parse_loop (suc rounds) (head_of s ++ (s.payload ++ (filling s ++ rest))) found
      ≡ parse_loop rounds rest (found ++ (s.payload ∷ []))
next_round s rest rounds found ok more space =
    let size = length-append (filling s) rest in
    let fill = length-filling s in
    let room : not (ltb (length (found ++ (s.payload ∷ []))) 64) ≡ false =
      ground (arith, length-append found (s.payload ∷ [])) in
    let some_rest : (length (filling s ++ rest) == 0) ≡ false = ground (arith, size) in
    let enough : ltb (length (filling s ++ rest)) (padding_length (length s.payload)) ≡ false =
      ground (arith, size, fill) in
    let next : drop (padding_length (length s.payload)) (filling s ++ rest) ≡ rest =
      ap (λ k. drop k (filling s ++ rest)) (sym fill) ∙ drop-append (filling s) rest in
    one_round s (filling s ++ rest) ok rounds found ∙ rw (room, some_rest, enough, next) refl

ended :
    (rounds : ℕ) (found : List (List ℕ))
    → parse_loop (suc rounds) [] found ≡ some (length found, found)
unfolding parse_loop
ended rounds found = refl

-- The same where the subframe takes the last place, or nothing follows it.
last_round :
    (s : Subframe) (rest : List ℕ) (rounds : ℕ) (found : List (List ℕ))
    → IsSubframe s
    → (length found + 1 ≡ 64) ⊎ ((rest ≡ []) × 0 < rounds)
    → parse_loop (suc rounds) (head_of s ++ (s.payload ++ rest)) found
      ≡ some (length (found ++ (s.payload ∷ [])), found ++ (s.payload ∷ []))
last_round s rest rounds found ok (inl full) =
    let room : not (ltb (length (found ++ (s.payload ∷ []))) 64) ≡ true =
      ground (arith, length-append found (s.payload ∷ [])) in
    one_round s rest ok rounds found ∙ rw room refl
last_round s rest zero found ok (inr h) = absurd (omega (arith, h.1))
last_round s rest (suc rounds) found ok (inr (none_left, h)) =
    let found' = found ++ (s.payload ∷ []) in
    rw none_left (
      one_round s [] ok (suc rounds) found ∙ elim (Bool-cases (not (ltb (length found') 64))) [
        | inl full ↦ rw full refl
        | inr space ↦ rw (space, ended rounds found') refl
      ])

-- With `k` places left besides the next one, the loop takes in the subframes that have a place.
loop_lem :
    (s : Subframe) (ss : List Subframe) (rounds k : ℕ) (found : List (List ℕ))
    → All IsSubframe (s ∷ ss)
    → length ss + 1 < rounds
    → length found + suc k ≡ 64
    → parse_loop rounds (aggregate (s ∷ ss)) found
      ≡ (let all = found ++ (s.payload ∷ take k (payloads ss)) in some (length all, all))
unfolding aggregate filling
loop_lem s ss zero k found ok enough space = absurd (omega arith)
loop_lem s [] (suc rounds) k found ok enough space =
    last_round s [] rounds found ok.0 (inr (refl, omega arith))
    ∙ ap (λ l. some (length (found ++ s.payload ∷ l), found ++ s.payload ∷ l)) (sym (take_nil k))
loop_lem s (t ∷ ts) (suc rounds) zero found ok enough space =
    last_round s (filling s ++ aggregate (t ∷ ts)) rounds found ok.0 (inl (omega (arith, space)))
loop_lem s (t ∷ ts) (suc rounds) (suc k) found ok enough space =
    let rest =
      loop_lem t ts rounds k (found ++ (s.payload ∷ [])) ok.1 (omega arith)
        (omega (arith, space, length-append found (s.payload ∷ []))) in
    next_round s (aggregate (t ∷ ts)) rounds found ok.0 (omega (arith, length-aggregate t ts ok.1))
      (omega (arith, space))
    ∙ rest
    ∙ ap (λ l. some (length l, l))
        (append_assoc found (s.payload ∷ []) (t.payload ∷ take k (payloads ts)))

-- A frame with a header of any kind that says that it holds an aggregate, and behind it one
-- subframe or more, each with an address field of 12 bytes and with 1 to 65535 bytes: parse_subframe
-- returns how many of them it found, which are the first 64, and leaves their bytes in order.
pub parse_subframe-aggregate :
    (contain_htc : Bool) (hdr src dst : List ℕ) (p : Parsed) (s : Subframe) (ss : List Subframe)
    → let skb = hdr ++ aggregate (s ∷ ss) in
      is_aggregate_frame skb ≡ true
      → length hdr ≡ llc_offset contain_htc skb
      → All IsSubframe (s ∷ ss)
      → (let all = take 64 (payloads (s ∷ ss)) in
          parse_subframe contain_htc skb src dst p
          ≡ some
              (length all, record { is_aggregate = true; subframes = all; src = src; dst = dst }))
unfolding parse_subframe
parse_subframe-aggregate contain_htc hdr src dst p s ss is offset ok =
    let wire = aggregate (s ∷ ss) in
    let body : drop (llc_offset contain_htc (hdr ++ wire)) (hdr ++ wire) ≡ wire =
      ap (λ k. drop k (hdr ++ wire)) (sym offset) ∙ drop-append hdr wire in
    let long : not (ltb (llc_offset contain_htc (hdr ++ wire)) (length (hdr ++ wire))) ≡ false =
      ground (arith, length-append hdr wire, offset, length-aggregate s ss ok) in
    let run =
      loop_lem s ss (suc (length wire)) 63 [] ok (omega (arith, length-aggregate s ss ok))
        (omega arith) in
    rw (long, is, body, run) refl
