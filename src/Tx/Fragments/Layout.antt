-- ===== src/Tx/Fragments/Layout.antt =====
-- The fragments of a frame of a station, byte by byte.
use rtl8190p.Common.{
  ℕ, ◌+◌, ◌*◌, ◌/◌, ◌%◌, ◌<◌, if◌then◌else◌, ◌≡◌, Bool, true, false, not, ◌&&◌, none, some, List,
  [], ◌∷◌, ◌++◌,
}
use rtl8190p.Tx.{Cut, Sender, infra, cut_of}
use rtl8190p.Tx.Fragments.Bytes.{sequence}

-- The fragment of a station `d` to its access point, with the body `b`: a data frame to the
-- distribution system, the bits for more fragments and for encryption, the three addresses, the
-- fragment's place and sequence number, and with QoS the priority.
unfoldable pub layout :
    Sender → (dest src : List ℕ) → (priority number i : ℕ) → (is_last : Bool) → List ℕ → List ℕ
layout d dest src priority number i is_last b =
    let kind = if d.qos_actived then 0x88 else 0x08 in
    let flags = 1 + (if is_last then 0 else 4) + (elim d.extra [ none ↦ 0 | some n ↦ 0x40 ]) in
    let rest = if d.qos_actived then priority ∷ 0 ∷ b else b in
    let sequence = number % 16 * 16 + i in
    kind ∷ flags ∷ 0 ∷ 0 ∷ (d.bssid ++ (src ++ (dest ++ (sequence ∷ number / 16 ∷ rest))))

-- The fragments from the place `i` on; `own` says that each has a number of its own.
unfoldable pub layouts :
    Sender
    → (dest src : List ℕ) → (priority : ℕ) → (own : Bool) → (seq i : ℕ) → List (List ℕ)
    → List (List ℕ)
layouts d dest src priority own seq i [] = []
layouts d dest src priority own seq i (b ∷ []) =
    layout d dest src priority (if own then (seq + i) % 4096 else d.seq_ctrl 0) i true b ∷ []
layouts d dest src priority own seq i (b ∷ b' ∷ bs) =
    layout d dest src priority (if own then (seq + i) % 4096 else d.seq_ctrl 0) i false b
    ∷ layouts d dest src priority own seq (i + 1) (b' ∷ bs)

module _ (is_group : List ℕ → Bool) (d : Sender) (dest src : List ℕ) (ether_type priority : ℕ)
    (payload : List ℕ) (station : d.mode ≡ infra) (small : priority < 8) where
  abbrev cut : Cut
  cut = cut_of is_group d dest src ether_type priority payload

  abbrev zeros : List ℕ
  zeros = 0 ∷ 0 ∷ 0 ∷ 0 ∷ 0 ∷ 0 ∷ []

  abbrev control_bytes : Bool → List ℕ
  control_bytes is_last =
      let flags = 1 + (if is_last then 0 else 4) + (elim d.extra [ none ↦ 0 | some n ↦ 0x40 ]) in
      (if d.qos_actived then 0x88 else 0x08) ∷ flags ∷ []

  abbrev own : Bool
  own = d.qos_actived && not (is_group d.bssid)

  -- The number of the fragment `i`.
  abbrev number : ℕ → ℕ → ℕ
  number seq i = if own then (seq + i) % 4096 else d.seq_ctrl 0
