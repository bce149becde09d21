-- ===== src/Firmware/Tests.antt =====
-- Runs of the download on images of a few words, and the theorems at them.
use rtl8190p.Common.{
  ℕ, ◌+◌, ◌*◌, ◌%◌, ◌≤◌, ltb, ◌≡◌, refl, arith, true, Bool, ◌&&◌, if◌then◌else◌, replicate, some,
  [], ◌∷◌, ◌++◌,
}
use rtl8190p.Firmware.{Queue, words, fragment, fw_download_code}
use rtl8190p.Firmware.Fragments.{Adds, fw_download_code_lem, swapped, held}
use rtl8190p.Firmware.Init.{
  Card, InitStep, Image, Firmware, init, move_main_code, move_data_code, ready, boot_step,
  main_step, data_step, answers, poll, put_code_ok, boot_rdy, firm_rdy, init_firmware,
}
use rtl8190p.Firmware.Init.Boot.{init_firmware_lem}

-- Words are handed over with their last byte first, and the last bytes of an image that is not
-- whole words are lost.
fragment_whole : fragment (λ i. i + 1) 0 8 ≡ 4 ∷ 3 ∷ 2 ∷ 1 ∷ 8 ∷ 7 ∷ 6 ∷ 5 ∷ []
unfolding fragment words
fragment_whole = refl

fragment_part :
    fragment (λ i. if ltb i 5 then i + 1 else 0) 0 5 ≡ 4 ∷ 3 ∷ 2 ∷ 1 ∷ 0 ∷ 0 ∷ 0 ∷ 0 ∷ []
unfolding fragment words
fragment_part = refl

poll_late : poll put_code_ok (0 ∷ 0x10 ∷ 0x90 ∷ 0 ∷ []) 0 ≡ 0x90
unfolding poll
poll_late = refl

abbrev idle : Queue
idle = record { sent = []; waiting = [] }

-- The card takes five packets.
abbrev five : ℕ → Bool
five n = ltb 4 n

fw_download_code_lem_example :
    (q' : Queue) × (fw_download_code (λ i. i % 256) five (4 * 2000) 2001 idle ≡ some q')
    × Adds (λ i. i % 256) 3192 0 2000 idle q'
fw_download_code_lem_example =
    fw_download_code_lem (λ i. i % 256) five 2000 2001 idle (omega arith) (omega arith)

abbrev small : ℕ → Image
small n = record { mem = λ i. i; size = 4 * n }

abbrev words_in : InitStep → ℕ
words_in boot_step = 1
words_in main_step = 2
words_in data_step = 3

abbrev card : Card
card = record { put_code = 0 ∷ 0x80 ∷ []; cpu_gen = 0x80; boot = 0x90 ∷ []; ready = 0xb0 ∷ [] }

abbrev blank : Firmware
blank = record { status = init; buf = λ s. small 0; queue = idle; writes = [] }

words_in_range : (s : InitStep) → 4 * words_in s ≤ 64000
words_in_range boot_step = omega arith
words_in_range main_step = omega arith
words_in_range data_step = omega arith

init_firmware_lem_example :
    let put = answers put_code_ok card.put_code 0 && answers boot_rdy card.boot card.cpu_gen in
    let up = answers firm_rdy card.ready 0 in
    (f' : Firmware) × (init_firmware (λ s. some (small (words_in s))) five card blank
      ≡ some (put && up, f'))
    × (f'.status ≡ (if put then (if up then ready else move_data_code) else move_main_code))
    × (held f'.queue
        ≡ (((held idle ++ swapped (λ i. i) 0 1) ++ replicate 0x80 0) ++ swapped (λ i. i) 0 2)
          ++ (if put then swapped (λ i. i) 0 3 else []))
init_firmware_lem_example =
    init_firmware_lem (λ s. small (words_in s)) words_in (λ s. refl) words_in_range five card blank
      refl (λ s. refl)

-- The card does answer.
card_answers : answers put_code_ok card.put_code 0 && answers firm_rdy card.ready 0 ≡ true
unfolding answers poll
card_answers = refl
