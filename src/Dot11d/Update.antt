-- ===== src/Dot11d/Update.antt =====
-- Dot11d_UpdateCountryIe against the triples of the country element.
use rtl8190p.Common.{ℕ, zero, suc, ◌+◌, ◌-◌, ◌≤◌, ◌==◌, ◌≡◌, ◌≢◌, leb, if◌then◌else◌, refl, arith}
use rtl8190p.Common.{Bool, true, false, ◌&&◌, ◌||◌, List, get_or, set, length, length-set}
use rtl8190p.Common.{
  get_or-set, get_or-replicate, length-replicate, Bool-cases, inl, inr, sym, ◌∙◌, subst, ap,
}
use rtl8190p.Dot11d.{
  Info, Bytes, learned, set_channels, update_loop, dot11d_update, clear_maps, num_triples,
  copy_bytes, is_legal_channel, max_tx_pwr_in_dbm,
}
use rtl8190p.Dot11d.Map.{in_range}

-- One of the `n` triples from `pos` on lists the channel `c`.
abbrev pub covered : Bytes → ℕ → ℕ → ℕ → Bool
covered ie zero pos c = false
covered ie (suc n) pos c = in_range (ie pos) (ie (pos + 1)) c || covered ie n (pos + 3) c

-- The power in the last triple that lists it.
abbrev pub listed_power : Bytes → ℕ → ℕ → ℕ → ℕ
listed_power ie zero pos c = 0
listed_power ie (suc n) pos c =
    if covered ie n (pos + 3) c then listed_power ie n (pos + 3) c else ie (pos + 2)

abbrev HasMaps : Info → Type 0
HasMaps d = (length d.channel_map ≡ 162) × (length d.max_tx_pwr ≡ 162)

set_channels-HasMaps : (left c pwr : ℕ) (d : Info) → HasMaps d → HasMaps (set_channels left c pwr d)
unfolding set_channels
set_channels-HasMaps zero c pwr d h = h
set_channels-HasMaps (suc left) c pwr d h =
    set_channels-HasMaps left (c + 1) pwr
      (record d { channel_map = set d.channel_map c 1; max_tx_pwr = set d.max_tx_pwr c pwr })
      (omega (arith, length-set d.channel_map c 1), omega (arith, length-set d.max_tx_pwr c pwr))

set_channels_lem :
    (left c pwr : ℕ) (d : Info) (i : ℕ)
    → c + left ≤ 162
    → HasMaps d
    → (get_or (set_channels left c pwr d).channel_map i 0
        ≡ (if in_range c left i then 1 else get_or d.channel_map i 0))
      × (get_or (set_channels left c pwr d).max_tx_pwr i 0
          ≡ (if in_range c left i then pwr else get_or d.max_tx_pwr i 0))
unfolding set_channels
set_channels_lem zero c pwr d i h m = (ground arith, ground arith)
set_channels_lem (suc left) c pwr d i h m =
    let d' = record d {
      channel_map = set d.channel_map c 1;
      max_tx_pwr = set d.max_tx_pwr c pwr;
    } in
    let ih =
      set_channels_lem left (c + 1) pwr d' i (omega arith) (
        omega (arith, length-set d.channel_map c 1),
        omega (arith, length-set d.max_tx_pwr c pwr),
      ) in
    (
      ground (arith, ih, get_or-set d.channel_map c i 1 0),
      ground (arith, ih, get_or-set d.max_tx_pwr c i pwr 0),
    )

pub update_loop_lem :
    (ie : Bytes) (n pos last : ℕ) (d : Info) (c : ℕ)
    → HasMaps d
    → (update_loop ie n pos last d).0 ≡ true
    → (get_or (update_loop ie n pos last d).1.channel_map c 0
        ≡ (if covered ie n pos c then 1 else get_or d.channel_map c 0))
      × (get_or (update_loop ie n pos last d).1.max_tx_pwr c 0
          ≡ (if covered ie n pos c then listed_power ie n pos c else get_or d.max_tx_pwr c 0))
unfolding update_loop
update_loop_lem ie zero pos last d c m h = (refl, refl)
update_loop_lem ie (suc n) pos last d c m h =
    let next = if ie (pos + 1) == 0 then last else ie pos + ie (pos + 1) - 1 in
    let d' = set_channels (ie (pos + 1)) (ie pos) (ie (pos + 2)) d in
    let m' = set_channels-HasMaps (ie (pos + 1)) (ie pos) (ie (pos + 2)) d m in
    let fits : ie pos + ie (pos + 1) ≤ 161 = ground arith in
    let here = set_channels_lem (ie (pos + 1)) (ie pos) (ie (pos + 2)) d c (omega arith) m in
    let ih = update_loop_lem ie n (pos + 3) next d' c m' (ground arith) in
    (ground (arith, here, ih), ground (arith, here, ih))

clear_maps-HasMaps : (d : Info) → HasMaps (clear_maps d)
unfolding clear_maps
clear_maps-HasMaps d = (length-replicate {A = ℕ} 162 0, length-replicate {A = ℕ} 162 0xff)

clear_maps-zero : (d : Info) (c : ℕ) → get_or (clear_maps d).channel_map c 0 ≡ 0
unfolding clear_maps
clear_maps-zero d c = get_or-replicate 162 0 c

pub clear_maps-state : (d : Info) → (clear_maps d).state ≡ d.state
unfolding clear_maps
clear_maps-state d = refl

set_channels-state : (left c pwr : ℕ) (d : Info) → (set_channels left c pwr d).state ≡ d.state
unfolding set_channels
set_channels-state zero c pwr d = refl
set_channels-state (suc left) c pwr d =
    set_channels-state left (c + 1) pwr
      (record d { channel_map = set d.channel_map c 1; max_tx_pwr = set d.max_tx_pwr c pwr })

pub update_loop-state :
    (ie : Bytes) (n pos last : ℕ) (d : Info) → (update_loop ie n pos last d).1.state ≡ d.state
unfolding update_loop
update_loop-state ie zero pos last d = refl
update_loop-state ie (suc n) pos last d = ground (
  arith,
  update_loop-state ie n (pos + 3) (if ie (pos + 1) == 0 then last else ie pos + ie (pos + 1) - 1)
      (set_channels (ie (pos + 1)) (ie pos) (ie (pos + 2)) d),
  set_channels-state (ie (pos + 1)) (ie pos) (ie (pos + 2)) d,
)

module _ (src : List ℕ) (len : ℕ) (ie : Bytes) (d : Info) where
  abbrev loop_run : Bool × Info
  loop_run = update_loop ie (num_triples len) 3 0 (clear_maps d)

  update-fits :
      d.state ≢ learned
      → (dot11d_update src len ie d).state ≡ learned
      → (loop_run.0 ≡ true)
        × ((dot11d_update src len ie d).channel_map ≡ loop_run.1.channel_map)
        × ((dot11d_update src len ie d).max_tx_pwr ≡ loop_run.1.max_tx_pwr)
  unfolding dot11d_update
  update-fits other now = elim (Bool-cases loop_run.0) [
    | inl fits ↦ (fits, rw fits, rw fits)
    | inr fails ↦
        let kept = update_loop-state ie (num_triples len) 3 0 (clear_maps d) in
        absurd (
          other (
            sym (unfold clear_maps in kept)
            ∙ subst
                (λ b.
                  (if b
                    then record loop_run.1 {
                      cie_src = src;
                      cie_len = len;
                      cie_buf = copy_bytes ie len 0;
                      state = learned;
                    }
                    else loop_run.1).state
                  ≡ learned)
                fails now))
  ]

  -- A country element that was learned from a fresh state decides every channel: legal are those
  -- that one of its triples lists, each with the power of the last triple that lists it, and any
  -- other has the power 255.
  pub dot11d_update-learned :
      (c : ℕ)
      → d.state ≢ learned
      → (dot11d_update src len ie d).state ≡ learned
      → let known = leb c 161 && covered ie (num_triples len) 3 c in
        (is_legal_channel (dot11d_update src len ie d) c ≡ known)
        × (max_tx_pwr_in_dbm (dot11d_update src len ie d) c
            ≡ (if known then listed_power ie (num_triples len) 3 c else 255))
  unfolding is_legal_channel max_tx_pwr_in_dbm
  dot11d_update-learned c other now =
      let run = update-fits other now in
      let loop =
        update_loop_lem ie (num_triples len) 3 0 (clear_maps d) c (clear_maps-HasMaps d) run.0 in
      (
        ground (arith, loop, clear_maps-zero d c, ap (λ m. get_or m c 0) run.1),
        ground (
          arith,
          loop,
          clear_maps-zero d c,
          ap (λ m. get_or m c 0) run.1,
          ap (λ m. get_or m c 0) run.2,
        ),
      )
