-- ===== src/Dot11d/Legal.antt =====
-- ToLegalChannel, and which country elements cannot be learned.
use rtl8190p.Common.{
  ℕ, zero, suc, ◌+◌, ◌-◌, ◌*◌, ◌≤◌, ◌<◌, ◌==◌, ◌≡◌, ◌⊎◌, inl, inr, ltb, if◌then◌else◌, refl, arith,
}
use rtl8190p.Common.{true, false, List, get_or, Bool-cases, ap, ◌∙◌}
use rtl8190p.Dot11d.{
  Info, Bytes, update_loop, set_channels, is_legal_channel, to_legal_channel, first_legal,
}
use rtl8190p.Dot11d.{dot11d_update, num_triples, clear_maps}
use rtl8190p.Dot11d.Update.{update_loop-state, clear_maps-state}

-- What the search found: nothing in the range, or a channel of the range that is in use.
abbrev Found : List ℕ → ℕ → ℕ → ℕ → Type 0
Found m left c r =
    (r ≡ 0) × ((i : ℕ) → c ≤ i → i < c + left → get_or m i 0 ≡ 0)
    ⊎ (c ≤ r) × (r < c + left) × (0 < get_or m r 0)

first_legal-Found : (m : List ℕ) (left c : ℕ) → Found m left c (first_legal m left c)
unfolding first_legal
first_legal-Found m zero c = inl (refl, λ i p q. absurd (omega arith))
first_legal-Found m (suc left) c = elim (Bool-cases (ltb 0 (get_or m c 0))) [
  | inl used ↦ rw used (inr (omega arith, omega arith, ground arith))
  | inr free ↦ rw free (elim (first_legal-Found m left (c + 1)) [
    | inl (z, all) ↦ inl (
      z,
      λ i p q. elim (Bool-cases (i == c)) [
        | inl same ↦ ground arith
        | inr other ↦ all i (ground arith) (omega arith)
      ],
    )
    | inr (p, q, r) ↦ inr (omega arith, omega arith, r)
  ])
]

-- Where some channel is legal, ToLegalChannel returns a legal channel, and a legal channel itself.
pub to_legal_channel_lem :
    (d : Info) (channel c : ℕ)
    → 1 ≤ c
    → is_legal_channel d c ≡ true
    → (is_legal_channel d (to_legal_channel d channel) ≡ true)
      × (is_legal_channel d channel ≡ true → to_legal_channel d channel ≡ channel)
unfolding is_legal_channel to_legal_channel
to_legal_channel_lem d channel c p legal = elim (first_legal-Found d.channel_map 161 1) [
  | inl (z, all) ↦ let no_mark = all c p (ground arith) in absurd (ground arith)
  | inr (q, r, s) ↦ (ground arith, λ h. ground arith)
]

update_loop-reaches_161 :
    (ie : Bytes) (n pos last : ℕ) (d : Info) (i : ℕ)
    → i < n
    → ie (pos + 3 * i) + ie (pos + 3 * i + 1) ≡ 162
    → (update_loop ie n pos last d).0 ≡ false
unfolding update_loop
update_loop-reaches_161 ie zero pos last d i h e = absurd (omega arith)
update_loop-reaches_161 ie (suc n) pos last d zero h e =
    let here : pos + 3 * 0 ≡ pos = omega arith in
    ground (arith, ap ie here, ap (λ k. ie (k + 1)) here)
update_loop-reaches_161 ie (suc n) pos last d (suc i) h e =
    let next = if ie (pos + 1) == 0 then last else ie pos + ie (pos + 1) - 1 in
    let d' = set_channels (ie (pos + 1)) (ie pos) (ie (pos + 2)) d in
    let place : pos + 3 + 3 * i ≡ pos + 3 * suc i = omega arith in
    let e' : ie (pos + 3 + 3 * i) + ie (pos + 3 + 3 * i + 1) ≡ 162 = rw place e in
    ground (arith, update_loop-reaches_161 ie n (pos + 3) next d' i (omega arith) e')

-- A country element with a triple that ends at channel 161, the last of the map, is never learned:
-- the state stays as it was.
pub dot11d_update-reaches_161 :
    (src : List ℕ) (len : ℕ) (ie : Bytes) (d : Info) (i : ℕ)
    → i < num_triples len
    → ie (3 + 3 * i) + ie (3 + 3 * i + 1) ≡ 162
    → (dot11d_update src len ie d).state ≡ d.state
unfolding dot11d_update
dot11d_update-reaches_161 src len ie d i h e =
    rw (update_loop-reaches_161 ie (num_triples len) 3 0 (clear_maps d) i h e)
      (update_loop-state ie (num_triples len) 3 0 (clear_maps d) ∙ clear_maps-state d)
