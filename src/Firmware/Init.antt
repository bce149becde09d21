-- ===== src/Firmware/Init.antt =====
-- The steps of the download, src/r819xE_firmware.c: the null packet, the bits of CPU_GEN that are
-- waited for, and init_firmware.
pub mod Boot
use rtl8190p.Common.{ℕ, ◌+◌, ◌%◌, ◌^◌, ◌==◌, ltb, if◌then◌else◌, bit_and, bit_or, replicate}
use rtl8190p.Common.{Bool, true, false, not, ◌&&◌, Option, none, some, List, [], ◌∷◌, ◌++◌}
use rtl8190p.Firmware.{Queue, submit, fw_download_code}

-- fwSendNullPacket
unfoldable pub fw_send_null_packet : (full : ℕ → Bool) → (len : ℕ) → Queue → Queue
fw_send_null_packet full len q = submit full (record { is_last = false; bytes = replicate len 0 }) q

-- The wait for a bit of CPU_GEN: the values that are read before the time is up, the last of which
-- remains.
unfoldable pub poll : (mask : ℕ) → (reads : List ℕ) → (status : ℕ) → ℕ
poll mask [] status = status
poll mask (r ∷ rs) status =
    let rest = poll mask rs r in if not (bit_and r mask == 0) then r else rest

unfoldable pub answers : (mask : ℕ) → (reads : List ℕ) → (status : ℕ) → Bool
answers mask reads status = not (bit_and (poll mask reads status) mask == 0)

-- CPU_GEN_PUT_CODE_OK, CPU_GEN_BOOT_RDY, CPU_GEN_FIRM_RDY and CPU_GEN_PWR_STB_CPU
abbrev pub put_code_ok : ℕ
put_code_ok = 0x80

abbrev pub boot_rdy : ℕ
boot_rdy = 0x10

abbrev pub firm_rdy : ℕ
firm_rdy = 0x20

abbrev pub pwr_stb_cpu : ℕ
pwr_stb_cpu = 0x04

-- The card: what CPU_GEN reads while each bit is waited for, and once before the CPU is turned on.
pub record Card : Type 0 where
  pub put_code : List ℕ
  pub cpu_gen : ℕ
  pub boot : List ℕ
  pub ready : List ℕ

-- CPUcheck_maincodeok_turnonCPU: whether it succeeds, and the bytes that it writes to CPU_GEN.
unfoldable pub check_maincodeok_turnon_cpu : Card → Bool × List ℕ
check_maincodeok_turnon_cpu c =
    if not (answers put_code_ok c.put_code 0)
    then (false, [])
    else (answers boot_rdy c.boot c.cpu_gen, bit_or c.cpu_gen pwr_stb_cpu % 256 ∷ [])

-- CPUcheck_firmware_ready
unfoldable pub check_firmware_ready : Card → Bool
check_firmware_ready c = answers firm_rdy c.ready 0

-- firmware_status_e
pub data Status : Type 0 where
  init : Status
  move_boot_code : Status
  move_main_code : Status
  turnon_cpu : Status
  move_data_code : Status
  ready : Status

-- firmware_init_step_e
pub data InitStep : Type 0 where
  boot_step : InitStep
  main_step : InitStep
  data_step : InitStep

-- An image: its memory and its size.
pub record Image : Type 0 where
  pub mem : ℕ → ℕ
  pub size : ℕ

-- rt_firmware, where firmware_buf and firmware_buf_size are a function from the step; with the
-- command queue and the bytes written to CPU_GEN.
pub record Firmware : Type 0 where
  pub status : Status
  pub buf : InitStep → Image
  pub queue : Queue
  pub writes : List ℕ

-- firmware_check_ready; RTL8190_CPU_START_OFFSET is 0x80.
unfoldable pub firmware_check_ready :
    (full : ℕ → Bool) → Card → InitStep → Firmware → Bool × Firmware
firmware_check_ready full c boot_step f =
    (true, record f { status = move_boot_code; queue = fw_send_null_packet full 0x80 f.queue })
firmware_check_ready full c main_step f =
    let (ok, written) = check_maincodeok_turnon_cpu c in
    (
      ok,
      record f { status = if ok then turnon_cpu else move_main_code; writes = f.writes ++ written },
    )
firmware_check_ready full c data_step f =
    let ok = check_firmware_ready c in
    (ok, record f { status = if ok then ready else move_data_code })

-- A write to firmware_buf and firmware_buf_size.
unfoldable pub set_buf : InitStep → Image → (InitStep → Image) → InitStep → Image
set_buf boot_step image buf boot_step = image
set_buf boot_step image buf main_step = buf main_step
set_buf boot_step image buf data_step = buf data_step
set_buf main_step image buf boot_step = buf boot_step
set_buf main_step image buf main_step = image
set_buf main_step image buf data_step = buf data_step
set_buf data_step image buf boot_step = buf boot_step
set_buf data_step image buf main_step = buf main_step
set_buf data_step image buf data_step = image

-- RTL8190_MAX_FIRMWARE_CODE_SIZE
abbrev pub max_firmware_code_size : ℕ
max_firmware_code_size = 64000

-- The part of init_firmware that gets the image of a step, where `request` is what the kernel's
-- request_firmware finds: after a reset of the system an image that is not there yet is read, and
-- `none` says that it is missing or too long.
unfoldable pub fetch :
    (request : InitStep → Option Image)
    → (system_reset : Bool) → InitStep
    → Firmware
    → Option Firmware
fetch request system_reset step f =
    if system_reset && (f.buf step).size == 0
    then elim (request step) [
      | none ↦ none
      | some image ↦
          if ltb max_firmware_code_size image.size
          then none
          else some (record f { buf = set_buf step image f.buf })
    ]
    else some f

-- The loop of init_firmware over the steps that are left; `none` if a download does not end within
-- the rounds.
unfoldable pub init_steps :
    (request : InitStep → Option Image)
    → (full : ℕ → Bool) → Card
    → (system_reset : Bool) → (rounds : ℕ) → List InitStep
    → Firmware
    → Option (Bool × Firmware)
init_steps request full c system_reset rounds [] f = some (true, f)
init_steps request full c system_reset rounds (step ∷ steps) f =
    elim (fetch request system_reset step f) [
      | none ↦ some (false, f)
      | some f1 ↦
          elim (fw_download_code (f1.buf step).mem full (f1.buf step).size rounds f1.queue) [
            | none ↦ none
            | some q ↦
                let (ok, f2) = firmware_check_ready full c step (record f1 { queue = q }) in
                let rest = init_steps request full c system_reset rounds steps f2 in
                if ok then rest else some (false, f2)
          ]
    ]

unfoldable pub steps_of : Status → Bool × List InitStep
steps_of ready = (false, data_step ∷ [])
steps_of init = (true, boot_step ∷ main_step ∷ data_step ∷ [])
steps_of move_boot_code = (true, boot_step ∷ main_step ∷ data_step ∷ [])
steps_of move_main_code = (true, boot_step ∷ main_step ∷ data_step ∷ [])
steps_of turnon_cpu = (true, boot_step ∷ main_step ∷ data_step ∷ [])
steps_of move_data_code = (true, boot_step ∷ main_step ∷ data_step ∷ [])

-- init_firmware, built with USE_FW_SOURCE_IMG_FILE. A download of an image that passed takes fewer
-- rounds than a u16 has values.
unfoldable pub init_firmware :
    (request : InitStep → Option Image)
    → (full : ℕ → Bool) → Card
    → Firmware
    → Option (Bool × Firmware)
unfolding steps_of
init_firmware request full c f =
    let (system_reset, steps) = steps_of f.status in
    init_steps request full c system_reset (2 ^ 16) steps f
