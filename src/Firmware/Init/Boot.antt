-- ===== src/Firmware/Init/Boot.antt =====
-- When the card is ready.
use rtl8190p.Common.{
  append-nil, ℕ, ◌*◌, ◌^◌, ◌≤◌, ◌<◌, ◌==◌, ltb, if◌then◌else◌, ◌≡◌, refl, ap, sym, ◌∙◌, arith, Bool,
  true, false, ◌&&◌, Option, some, List, [], ◌∷◌, ◌++◌, Bool-cases, inl, inr, replicate,
}
use rtl8190p.Firmware.{Queue, fw_download_code}
use rtl8190p.Firmware.Fragments.{Adds, fw_download_code_lem, swapped, held, held-Adds, held-submit}
use rtl8190p.Firmware.Init.{
  Card, InitStep, Image, Firmware, init, move_boot_code, move_main_code, turnon_cpu, move_data_code,
  ready, boot_step, main_step, data_step, answers, put_code_ok, boot_rdy, firm_rdy,
  check_maincodeok_turnon_cpu, check_firmware_ready, firmware_check_ready, fw_send_null_packet,
  set_buf, fetch, init_steps, steps_of, init_firmware,
}

true_branch {ℓ} : {A : Type ℓ} → {b : Bool} (x y : A) → b ≡ true → (if b then x else y) ≡ x
true_branch x y h = ap (λ b. if b then x else y) h

false_branch {ℓ} : {A : Type ℓ} → {b : Bool} (x y : A) → b ≡ false → (if b then x else y) ≡ y
false_branch x y h = ap (λ b. if b then x else y) h

module _ (images : InitStep → Image) (words_of : InitStep → ℕ)
    (whole : (s : InitStep) → (images s).size ≡ 4 * words_of s)
    (range : (s : InitStep) → 4 * words_of s ≤ 64000) (full : ℕ → Bool) (c : Card) where
  abbrev request : InitStep → Option Image
  request s = some (images s)

  abbrev code : InitStep → List ℕ
  code s = swapped (images s).mem 0 (words_of s)

  -- The firmware when a step has been downloaded.
  abbrev loaded : InitStep → Firmware → Queue → Firmware
  loaded step f q = record f { buf = set_buf step (images step) f.buf; queue = q }

  set_buf_self :
      (step : InitStep) (f : Firmware) → set_buf step (images step) f.buf step ≡ images step
  unfolding set_buf
  set_buf_self boot_step f = refl
  set_buf_self main_step f = refl
  set_buf_self data_step f = refl

  fetched :
      (step : InitStep) (f : Firmware)
      → (f.buf step).size ≡ 0
      → fetch request true step f ≡ some (record f { buf = set_buf step (images step) f.buf })
  unfolding fetch
  fetched step f blank =
      let first : (true && (f.buf step).size == 0) ≡ true = ground arith in
      let fits : ltb 64000 (images step).size ≡ false = ground (arith, whole step, range step) in
      rw (fetch, first, fits) refl

  -- One step: the image is taken in and downloaded, and the card is asked.
  one_step :
      (step : InitStep) (steps : List InitStep) (rounds : ℕ) (f : Firmware)
      → (f.buf step).size ≡ 0
      → words_of step < rounds
      → (q : Queue) × Adds (images step).mem 3192 0 (words_of step) f.queue q
        × (init_steps request full c true rounds (step ∷ steps) f ≡ (
            let r = firmware_check_ready full c step (loaded step f q) in
            if r.0 then init_steps request full c true rounds steps r.1 else some (false, r.1)))
  unfolding init_steps
  one_step step steps rounds f blank enough =
      let (q, run, adds) =
        fw_download_code_lem (images step).mem full (words_of step) rounds f.queue (range step)
          enough in
      let run' : fw_download_code (set_buf step (images step) f.buf step).mem full
            (set_buf step (images step) f.buf step).size rounds f.queue
          ≡ some q =
        rw (set_buf_self step f, whole step) run in
      (q, adds, rw (init_steps, fetched step f blank, run') refl)

  -- The steps after which the firmware stands.
  abbrev booted : Firmware → Queue → Firmware
  booted f q = record (loaded boot_step f q) {
    status = move_boot_code;
    queue = fw_send_null_packet full 0x80 q;
  }

  abbrev turned_on : Firmware → Queue → Firmware
  turned_on f q = record (loaded main_step f q) {
    status = if (check_maincodeok_turnon_cpu c).0 then turnon_cpu else move_main_code;
    writes = f.writes ++ (check_maincodeok_turnon_cpu c).1;
  }

  turnon_answers :
      (check_maincodeok_turnon_cpu c).0
      ≡ (answers put_code_ok c.put_code 0 && answers boot_rdy c.boot c.cpu_gen)
  unfolding check_maincodeok_turnon_cpu
  turnon_answers = ground arith

  ended :
      (rounds : ℕ) (g : Firmware)
      → (if check_firmware_ready c
          then init_steps request full c true rounds [] g
          else some (false, g))
        ≡ some (check_firmware_ready c, g)
  unfolding init_steps
  ended rounds g = elim (Bool-cases (check_firmware_ready c)) [
    | inl up ↦ rw up refl
    | inr down ↦ rw down refl
  ]

  after_main :
      (rounds : ℕ) (f : Firmware)
      → (f.buf data_step).size ≡ 0
      → words_of data_step < rounds
      → (f' : Firmware) × (init_steps request full c true rounds (data_step ∷ []) f
          ≡ some (check_firmware_ready c, f'))
        × (f'.status ≡ (if check_firmware_ready c then ready else move_data_code))
        × (held f'.queue ≡ held f.queue ++ code data_step)
  unfolding firmware_check_ready
  after_main rounds f blank enough =
      let (q, adds, run) = one_step data_step [] rounds f blank enough in
      let f' = (firmware_check_ready full c data_step (loaded data_step f q)).1 in
      (f', run ∙ ended rounds f', refl, held-Adds _ _ _ _ _ _ adds)

  abbrev early : Queue → List ℕ
  early q = ((held q ++ code boot_step) ++ replicate 0x80 0) ++ code main_step

  -- What the card gets before it is asked whether the code was put.
  before_main :
      (q q1 q2 : Queue)
      → Adds (images boot_step).mem 3192 0 (words_of boot_step) q q1
      → Adds
          (images main_step).mem
          3192
          0
          (words_of main_step)
          (fw_send_null_packet full 0x80 q1)
          q2
      → held q2 ≡ ((held q ++ code boot_step) ++ replicate 0x80 0) ++ code main_step
  unfolding fw_send_null_packet
  before_main q q1 q2 a1 a2 =
      held-Adds _ _ _ _ _ _ a2
      ∙ ap (λ l. l ++ code main_step) (held-submit full _ q1)
      ∙ ap (λ l. (l ++ replicate 0x80 0) ++ code main_step) (held-Adds _ _ _ _ _ _ a1)

  begun :
      (f : Firmware)
      → f.status ≡ init
      → init_firmware request full c f
        ≡ init_steps request full c true (2 ^ 16) (boot_step ∷ main_step ∷ data_step ∷ []) f
  unfolding init_firmware steps_of
  begun f fresh = ap (λ s. init_steps request full c (steps_of s).0 (2 ^ 16) (steps_of s).1 f) fresh

  -- Where the firmware was never loaded, the images of the three steps are found and consist of
  -- whole words, 64000 bytes at most, init_firmware ends; it succeeds exactly when the card shows
  -- that the code was put, that it booted and that it is ready, each before the time is up, and the
  -- state then says that the firmware is ready; else it says at which step it stopped. Behind what
  -- was in the queue the card gets the boot code, the null packet, the main code and, where the
  -- CPU was turned on, the data, each word with its last byte first.
  pub init_firmware_lem :
      (f : Firmware)
      → f.status ≡ init
      → ((s : InitStep) → (f.buf s).size ≡ 0)
      → let put = answers put_code_ok c.put_code 0 && answers boot_rdy c.boot c.cpu_gen in
        let up = answers firm_rdy c.ready 0 in
        (f' : Firmware) × (init_firmware request full c f ≡ some (put && up, f'))
        × (f'.status ≡ (if put then (if up then ready else move_data_code) else move_main_code))
        × (held f'.queue
            ≡ (((held f.queue ++ code boot_step) ++ replicate 0x80 0) ++ code main_step)
              ++ (if put then code data_step else []))
  unfolding firmware_check_ready set_buf check_firmware_ready
  init_firmware_lem f fresh blank =
      let (q1, a1, r1) =
        one_step boot_step (main_step ∷ data_step ∷ []) (2 ^ 16) f (blank boot_step)
          (omega (arith, range boot_step)) in
      let f1 = booted f q1 in
      let (q2, a2, r2) =
        one_step main_step (data_step ∷ []) (2 ^ 16) f1 (blank main_step)
          (omega (arith, range main_step)) in
      let f2 = turned_on f1 q2 in
      let both = turnon_answers in
      let up = answers firm_rdy c.ready 0 in
      let through = begun f fresh ∙ r1 ∙ r2 in
      let sent = before_main f.queue q1 q2 a1 a2 in
      elim (Bool-cases (check_maincodeok_turnon_cpu c).0) [
        | inl put ↦
            let (f', run, state, more) =
              after_main (2 ^ 16) f2 (blank data_step) (omega (arith, range data_step)) in
            let did = sym both ∙ put in
            (
              f',
              through ∙ true_branch _ _ put ∙ run ∙ ap (λ b. some (b && up, f')) (sym did),
              state ∙ sym (true_branch _ _ did),
              more
                  ∙ ap (λ l. l ++ code data_step) sent
                  ∙ ap (λ l. early f.queue ++ l) (sym (true_branch (code data_step) [] did)),
            )
        | inr failed ↦
            let did_not = sym both ∙ failed in
            (
              f2,
              through ∙ false_branch _ _ failed ∙ ap (λ b. some (b && up, f2)) (sym did_not),
              false_branch _ _ failed ∙ sym (false_branch _ _ did_not),
              sent
                  ∙ sym (append-nil _)
                  ∙ ap (λ l. early f.queue ++ l) (sym (false_branch (code data_step) [] did_not)),
            )
      ]
