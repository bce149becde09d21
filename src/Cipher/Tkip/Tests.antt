-- ===== src/Cipher/Tkip/Tests.antt =====
-- Runs of TKIP, with the test vector of the mixing in IEEE 802.11, and the theorems at one frame.
use rtl8190p.Common.{
  ℕ, zero, suc, ◌+◌, ◌≡◌, refl, arith, false, true, Option, some, List, [], ◌∷◌, ◌++◌, length,
  replicate,
}
use rtl8190p.Common.{bytes_eq}
use rtl8190p.Rx.{qos_has_seq}
use rtl8190p.Cipher.{SkBuff, Outcome, done, error, grown, shrunk}
use rtl8190p.Cipher.Wep.{icv_bytes}
use rtl8190p.Cipher.Tkip.Mixing.{mixing_phase1, mixing_phase2, seed_iv, hi8, lo8}
use rtl8190p.Cipher.Tkip.{
  TkipData, is_replay, tkip_encrypt, tkip_decrypt, with_ttak, read_iv16, read_iv32, tkip_open,
  tkip_strip, tkip_header, ready_ttak, next_number,
}
use rtl8190p.Cipher.Tkip.RoundTrip.{tkip_decrypt-encrypt, plain_of}
use rtl8190p.Cipher.Tkip.Replay.{tkip_decrypt-again}
use rtl8190p.Cipher.Tkip.Michael.{ds_of, mic_priority, michael_mic_add, michael_mic_verify}
use rtl8190p.Cipher.Tkip.Michael.Check.{michael_mic_verify-add}

abbrev count_up : (n i : ℕ) → List ℕ
count_up zero i = []
count_up (suc n) i = i ∷ count_up n (i + 1)

abbrev sender : List ℕ
sender = 0x10 ∷ 0x22 ∷ 0x33 ∷ 0x44 ∷ 0x55 ∷ 0x66 ∷ []

runs_phase1 :
    mixing_phase1 (count_up 16 0) sender 0 ≡ 0x3dd2 ∷ 0x016e ∷ 0x76f4 ∷ 0x8697 ∷ 0xb2e8 ∷ []
unfolding mixing_phase1
runs_phase1 = refl

runs_phase2 :
    mixing_phase2 (count_up 16 0) (0x3dd2 ∷ 0x016e ∷ 0x76f4 ∷ 0x8697 ∷ 0xb2e8 ∷ []) 0
    ≡ 0x00 ∷ 0x20 ∷ 0x00 ∷ 0x33 ∷ 0xea ∷ 0x8d ∷ 0x2f ∷ 0x60 ∷ 0xca ∷ 0x6d ∷ 0x13 ∷ 0x74 ∷ 0x23
      ∷ 0x4a ∷ 0x66 ∷ 0x0b ∷ []
unfolding mixing_phase2
runs_phase2 = refl

abbrev key : TkipData
key = record {
  key = count_up 32 0;
  key_set = true;
  tx_iv32 = 3;
  tx_iv16 = 5;
  tx_ttak = replicate 5 0;
  tx_phase1_done = false;
  rx_iv32 = 3;
  rx_iv16 = 4;
  initialized = true;
  rx_ttak = replicate 5 0;
  rx_phase1_done = false;
  rx_iv32_new = 0;
  rx_iv16_new = 0;
  replays = 0;
  icv_errors = 0;
  mic_failures = 0;
  key_idx = 2;
}

-- A frame to the access point with a header of 24 bytes and 12 bytes behind it.
abbrev frame : SkBuff
frame = record { headroom = 8; tailroom = 12; bytes = 0x08 ∷ 0x01 ∷ count_up 34 0 }

abbrev sum : List ℕ → ℕ
sum [] = 0
sum (x ∷ xs) = x + sum xs

abbrev plain_rc4 : List ℕ → List ℕ → Option (List ℕ)
plain_rc4 seed x = some x

plain_law :
    (seed x y : List ℕ)
    → plain_rc4 seed x ≡ some y
    → (plain_rc4 seed y ≡ some x) × (length y ≡ length x)
plain_law seed x y e = let is : x ≡ y = cc in rw is (refl, refl)

abbrev toy_michael : List ℕ → List ℕ → List ℕ → Option (List ℕ)
toy_michael k hdr body = some k

abbrev sent : Outcome × TkipData × SkBuff
sent = tkip_encrypt sum plain_rc4 plain_rc4 false key frame 24

abbrev got : Outcome × TkipData × SkBuff
got = tkip_decrypt sum plain_rc4 plain_rc4 false false key sent.2 24

tkip_decrypt-encrypt_example :
    (sent.0 ≡ done 0)
    × (got.0 ≡ done 2)
    × (got.1.rx_iv32_new ≡ 3)
    × (got.1.rx_iv16_new ≡ 5)
    × (got.2 ≡ frame)
unfolding is_replay
tkip_decrypt-encrypt_example =
    tkip_decrypt-encrypt sum plain_rc4 plain_rc4 key key frame 24 false
      (plain_of sum plain_rc4 plain_rc4 frame 24) plain_law (omega arith) (omega arith)
      (omega arith) (omega arith) (omega arith) (omega arith) refl refl refl (λ e. cc) (λ e. cc)
      refl refl

abbrev signer : TkipData
signer = record key { key = count_up 16 0 ++ (count_up 8 50 ++ count_up 8 70) }

abbrev verifier : TkipData
verifier = record key { key = count_up 16 0 ++ (count_up 8 70 ++ count_up 8 50) }

michael_mic_verify-add_example :
    let r = michael_mic_add toy_michael (replicate 8 0) signer frame 24 in
    (r.0 ≡ done 0)
    × (r.1.bytes ≡ frame.bytes ++ count_up 8 50)
    × (michael_mic_verify toy_michael (replicate 8 0) false verifier r.1 24
        ≡ some (done 0, false, record verifier { rx_iv32 = 0; rx_iv16 = 0 }, frame))
unfolding ds_of
michael_mic_verify-add_example =
    michael_mic_verify-add toy_michael (replicate 8 0) signer verifier frame 24 (count_up 8 50)
      (omega arith) (λ e. absurd (omega (arith, e))) (omega arith) (omega arith) refl refl refl refl

-- A null frame with QoS has a priority too.
null_priority : mic_priority (0xc8 ∷ 1 ∷ replicate 24 5) 26 ≡ 5
unfolding mic_priority qos_has_seq
null_priority = refl

-- A frame that carries a packet with its check.
abbrev packet : SkBuff
packet = record {
  headroom = 8;
  tailroom = 12;
  bytes = 0x08 ∷ 0x01 ∷ (count_up 34 0 ++ count_up 8 50);
}

abbrev packet_sent : SkBuff
packet_sent = (tkip_encrypt sum plain_rc4 plain_rc4 false verifier packet 24).2

abbrev packet_got : Outcome × TkipData × SkBuff
packet_got = tkip_decrypt sum plain_rc4 plain_rc4 false false verifier packet_sent 24

packet_taken : packet_got.0 ≡ done 2
unfolding tkip_encrypt tkip_decrypt tkip_open tkip_strip bytes_eq icv_bytes is_replay read_iv32
    read_iv16 with_ttak tkip_header ready_ttak seed_iv hi8 lo8 grown next_number
packet_taken = refl

-- What rtllib_michael_mic_verify leaves behind.
abbrev after : TkipData
after = record packet_got.1 {
  rx_iv32 = packet_got.1.rx_iv32_new;
  rx_iv16 = packet_got.1.rx_iv16_new;
}

packet_verified :
    michael_mic_verify toy_michael [] false packet_got.1 packet 24
    ≡ some (done 0, false, after, record packet { tailroom = 20; bytes = frame.bytes })
unfolding michael_mic_verify ds_of tkip_encrypt tkip_decrypt tkip_open tkip_strip bytes_eq icv_bytes
    is_replay read_iv32 read_iv16 with_ttak tkip_header ready_ttak seed_iv hi8 lo8 grown shrunk
    next_number
packet_verified = refl

tkip_decrypt-again_example :
    (tkip_decrypt sum plain_rc4 plain_rc4 false false after packet_sent 24).0 ≡ error 4
tkip_decrypt-again_example =
    tkip_decrypt-again sum plain_rc4 plain_rc4 toy_michael [] false verifier after packet_sent
      packet (record packet { tailroom = 20; bytes = frame.bytes }) 24 24 2 false false packet_taken
      packet_verified
