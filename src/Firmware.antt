-- ===== src/Firmware.antt =====
-- The download of the firmware, src/r819xE_firmware.c: the image is cut into packets for the card's
-- command queue, and the card answers by bits of the register CPU_GEN.
pub mod Fragments
pub mod Init
mod Tests
use rtl8190p.Common.{ℕ, zero, suc, ◌+◌, ◌-◌, ◌*◌, ◌/◌, ◌%◌, ◌^◌, ltb, if◌then◌else◌}
use rtl8190p.Common.{Bool, true, false, not, ◌||◌, Option, none, some, List, [], ◌∷◌, ◌++◌, length}

-- A packet of the command queue: bLastIniPkt of its descriptor, and its bytes.
pub record Packet : Type 0 where
  pub is_last : Bool
  pub bytes : List ℕ

-- What was handed to the card, and what waits in skb_waitQ of the command queue.
pub record Queue : Type 0 where
  pub sent : List Packet
  pub waiting : List Packet

unfoldable pub is_empty : List Packet → Bool
is_empty [] = true
is_empty (p ∷ ps) = false

-- `full` says, for the packets that were sent so far, that the card lacks a descriptor or that the
-- queue is stopped.
unfoldable pub submit : (full : ℕ → Bool) → Packet → Queue → Queue
unfolding is_empty
submit full p q =
    if full (length q.sent) || not (is_empty q.waiting)
    then record q { waiting = q.waiting ++ (p ∷ []) }
    else record q { sent = q.sent ++ (p ∷ []) }

-- MAX_TRANSMIT_BUFFER_SIZE, and GET_COMMAND_PACKET_FRAG_THRESHOLD of it.
abbrev pub max_transmit_buffer_size : ℕ
max_transmit_buffer_size = 1600 + (40 + 32 + 128) * 8

unfoldable pub frag_threshold : ℕ
frag_threshold = 4 * (max_transmit_buffer_size / 4) - 8

-- The loop of fw_download_code over a fragment of `len` bytes at the place `pos` of the memory
-- `mem`, `n` words of it from the byte `i` on: each word with its last byte first. The tests are
-- the source's: each looks at another byte than it guards.
unfoldable pub words : (mem : ℕ → ℕ) → (pos len n i : ℕ) → List ℕ
words mem pos len zero i = []
words mem pos len (suc n) i =
    (if ltb i len then mem (pos + i + 3) else 0)
    ∷ (if ltb (i + 1) len then mem (pos + i + 2) else 0)
    ∷ (if ltb (i + 2) len then mem (pos + i + 1) else 0)
    ∷ (if ltb (i + 3) len then mem (pos + i) else 0)
    ∷ words mem pos len n (i + 4)

unfoldable pub fragment : (mem : ℕ → ℕ) → (pos len : ℕ) → List ℕ
fragment mem pos len = words mem pos len ((len + 3) / 4) 0

-- The loop of fw_download_code: `pos` is code_virtual_address from the start of the image on, and
-- `offset` the u16 frag_offset. `none` when the rounds run out.
unfoldable pub download_loop :
    (mem : ℕ → ℕ) (full : ℕ → Bool) (threshold len : ℕ)
    → (rounds pos offset : ℕ) → Queue
    → Option Queue
download_loop mem full threshold len zero pos offset q = none
download_loop mem full threshold len (suc rounds) pos offset q =
    let left = (len + 2 ^ 32 - offset) % 2 ^ 32 in
    let part = if ltb threshold left then threshold else left % 2 ^ 16 in
    let next = (offset + part) % 2 ^ 16 in
    let q' =
      submit full (record { is_last = not (ltb threshold left); bytes = fragment mem pos part })
        q in
    let rest = download_loop mem full threshold len rounds (pos + part) next q' in
    if ltb next len then rest else some q'

-- fw_download_code
unfoldable pub fw_download_code :
    (mem : ℕ → ℕ) → (full : ℕ → Bool) → (len rounds : ℕ) → Queue → Option Queue
fw_download_code mem full len rounds q = download_loop mem full frag_threshold len rounds 0 0 q
