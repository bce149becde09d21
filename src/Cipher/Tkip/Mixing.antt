-- ===== src/Cipher/Tkip/Mixing.antt =====
-- The key mixing of TKIP, src/rtllib_crypt_tkip.c: 16-bit words, which wrap around.
use rtl8190p.Common.{
  ℕ, zero, suc, ◌+◌, ◌*◌, ◌/◌, ◌%◌, ◌^◌, List, [], ◌∷◌, ◌++◌, get_or, bit_xor, bit_and, bit_or,
}

-- Sbox
abbrev sbox : List ℕ
sbox =
    0xc6a5 ∷ 0xf884 ∷ 0xee99 ∷ 0xf68d ∷ 0xff0d ∷ 0xd6bd ∷ 0xdeb1 ∷ 0x9154 ∷ 0x6050 ∷ 0x0203 ∷ 0xcea9
    ∷ 0x567d ∷ 0xe719 ∷ 0xb562 ∷ 0x4de6 ∷ 0xec9a ∷ 0x8f45 ∷ 0x1f9d ∷ 0x8940 ∷ 0xfa87 ∷ 0xef15
    ∷ 0xb2eb ∷ 0x8ec9 ∷ 0xfb0b ∷ 0x41ec ∷ 0xb367 ∷ 0x5ffd ∷ 0x45ea ∷ 0x23bf ∷ 0x53f7 ∷ 0xe496
    ∷ 0x9b5b ∷ 0x75c2 ∷ 0xe11c ∷ 0x3dae ∷ 0x4c6a ∷ 0x6c5a ∷ 0x7e41 ∷ 0xf502 ∷ 0x834f ∷ 0x685c
    ∷ 0x51f4 ∷ 0xd134 ∷ 0xf908 ∷ 0xe293 ∷ 0xab73 ∷ 0x6253 ∷ 0x2a3f ∷ 0x080c ∷ 0x9552 ∷ 0x4665
    ∷ 0x9d5e ∷ 0x3028 ∷ 0x37a1 ∷ 0x0a0f ∷ 0x2fb5 ∷ 0x0e09 ∷ 0x2436 ∷ 0x1b9b ∷ 0xdf3d ∷ 0xcd26
    ∷ 0x4e69 ∷ 0x7fcd ∷ 0xea9f ∷ 0x121b ∷ 0x1d9e ∷ 0x5874 ∷ 0x342e ∷ 0x362d ∷ 0xdcb2 ∷ 0xb4ee
    ∷ 0x5bfb ∷ 0xa4f6 ∷ 0x764d ∷ 0xb761 ∷ 0x7dce ∷ 0x527b ∷ 0xdd3e ∷ 0x5e71 ∷ 0x1397 ∷ 0xa6f5
    ∷ 0xb968 ∷ 0x0000 ∷ 0xc12c ∷ 0x4060 ∷ 0xe31f ∷ 0x79c8 ∷ 0xb6ed ∷ 0xd4be ∷ 0x8d46 ∷ 0x67d9
    ∷ 0x724b ∷ 0x94de ∷ 0x98d4 ∷ 0xb0e8 ∷ 0x854a ∷ 0xbb6b ∷ 0xc52a ∷ 0x4fe5 ∷ 0xed16 ∷ 0x86c5
    ∷ 0x9ad7 ∷ 0x6655 ∷ 0x1194 ∷ 0x8acf ∷ 0xe910 ∷ 0x0406 ∷ 0xfe81 ∷ 0xa0f0 ∷ 0x7844 ∷ 0x25ba
    ∷ 0x4be3 ∷ 0xa2f3 ∷ 0x5dfe ∷ 0x80c0 ∷ 0x058a ∷ 0x3fad ∷ 0x21bc ∷ 0x7048 ∷ 0xf104 ∷ 0x63df
    ∷ 0x77c1 ∷ 0xaf75 ∷ 0x4263 ∷ 0x2030 ∷ 0xe51a ∷ 0xfd0e ∷ 0xbf6d ∷ 0x814c ∷ 0x1814 ∷ 0x2635
    ∷ 0xc32f ∷ 0xbee1 ∷ 0x35a2 ∷ 0x88cc ∷ 0x2e39 ∷ 0x9357 ∷ 0x55f2 ∷ 0xfc82 ∷ 0x7a47 ∷ 0xc8ac
    ∷ 0xbae7 ∷ 0x322b ∷ 0xe695 ∷ 0xc0a0 ∷ 0x1998 ∷ 0x9ed1 ∷ 0xa37f ∷ 0x4466 ∷ 0x547e ∷ 0x3bab
    ∷ 0x0b83 ∷ 0x8cca ∷ 0xc729 ∷ 0x6bd3 ∷ 0x283c ∷ 0xa779 ∷ 0xbce2 ∷ 0x161d ∷ 0xad76 ∷ 0xdb3b
    ∷ 0x6456 ∷ 0x744e ∷ 0x141e ∷ 0x92db ∷ 0x0c0a ∷ 0x486c ∷ 0xb8e4 ∷ 0x9f5d ∷ 0xbd6e ∷ 0x43ef
    ∷ 0xc4a6 ∷ 0x39a8 ∷ 0x31a4 ∷ 0xd337 ∷ 0xf28b ∷ 0xd532 ∷ 0x8b43 ∷ 0x6e59 ∷ 0xdab7 ∷ 0x018c
    ∷ 0xb164 ∷ 0x9cd2 ∷ 0x49e0 ∷ 0xd8b4 ∷ 0xacfa ∷ 0xf307 ∷ 0xcf25 ∷ 0xcaaf ∷ 0xf48e ∷ 0x47e9
    ∷ 0x1018 ∷ 0x6fd5 ∷ 0xf088 ∷ 0x4a6f ∷ 0x5c72 ∷ 0x3824 ∷ 0x57f1 ∷ 0x73c7 ∷ 0x9751 ∷ 0xcb23
    ∷ 0xa17c ∷ 0xe89c ∷ 0x3e21 ∷ 0x96dd ∷ 0x61dc ∷ 0x0d86 ∷ 0x0f85 ∷ 0xe090 ∷ 0x7c42 ∷ 0x71c4
    ∷ 0xccaa ∷ 0x90d8 ∷ 0x0605 ∷ 0xf701 ∷ 0x1c12 ∷ 0xc2a3 ∷ 0x6a5f ∷ 0xaef9 ∷ 0x69d0 ∷ 0x1791
    ∷ 0x9958 ∷ 0x3a27 ∷ 0x27b9 ∷ 0xd938 ∷ 0xeb13 ∷ 0x2bb3 ∷ 0x2233 ∷ 0xd2bb ∷ 0xa970 ∷ 0x0789
    ∷ 0x33a7 ∷ 0x2db6 ∷ 0x3c22 ∷ 0x1592 ∷ 0xc920 ∷ 0x8749 ∷ 0xaaff ∷ 0x5078 ∷ 0xa57a ∷ 0x038f
    ∷ 0x59f8 ∷ 0x0980 ∷ 0x1a17 ∷ 0x65da ∷ 0xd731 ∷ 0x84c6 ∷ 0xd0b8 ∷ 0x82c3 ∷ 0x29b0 ∷ 0x5a77
    ∷ 0x1e11 ∷ 0x7bcb ∷ 0xa8fc ∷ 0x6dd6 ∷ 0x2c3a ∷ []

-- _S_: the second number is read with its bytes swapped.
unfoldable pub s_box : ℕ → ℕ
s_box v =
    let t = get_or sbox (v / 256) 0 in bit_xor (get_or sbox (v % 256) 0) (t % 256 * 256 + t / 256)

-- RotR1
unfoldable pub rot_r1 : ℕ → ℕ
rot_r1 v = v / 2 + v % 2 * 2 ^ 15

-- Mk16 of the bytes `k + 1` and `k`, and Mk16_le of the word at byte `k`.
unfoldable pub mk16 : List ℕ → ℕ → ℕ
mk16 bytes k = get_or bytes k 0 + get_or bytes (k + 1) 0 * 256

-- `+=` on a u16.
unfoldable pub add16 : ℕ → ℕ → ℕ
add16 a b = (a + b) % 2 ^ 16

-- One round of the loop of tkip_mixing_phase1 on the five words of TTAK.
unfoldable pub phase1_round : List ℕ → ℕ → List ℕ → List ℕ
unfolding s_box mk16 add16
phase1_round tk i ttak =
    let j = 2 * (i % 2) in
    let t0 = add16 (get_or ttak 0 0) (s_box (bit_xor (get_or ttak 4 0) (mk16 tk j))) in
    let t1 = add16 (get_or ttak 1 0) (s_box (bit_xor t0 (mk16 tk (4 + j)))) in
    let t2 = add16 (get_or ttak 2 0) (s_box (bit_xor t1 (mk16 tk (8 + j)))) in
    let t3 = add16 (get_or ttak 3 0) (s_box (bit_xor t2 (mk16 tk (12 + j)))) in
    let t4 = add16 (get_or ttak 4 0) (s_box (bit_xor t3 (mk16 tk j)) + i) in
    t0 ∷ t1 ∷ t2 ∷ t3 ∷ t4 ∷ []

unfoldable pub phase1_loop : List ℕ → (left i : ℕ) → List ℕ → List ℕ
unfolding phase1_round
phase1_loop tk zero i ttak = ttak
phase1_loop tk (suc left) i ttak = phase1_loop tk left (i + 1) (phase1_round tk i ttak)

-- tkip_mixing_phase1; `ta` is the address of the sender.
unfoldable pub mixing_phase1 : (tk ta : List ℕ) → (iv32 : ℕ) → List ℕ
unfolding phase1_loop mk16
mixing_phase1 tk ta iv32 =
    phase1_loop tk 8 0 ((iv32 % 2 ^ 16) ∷ (iv32 / 2 ^ 16) ∷ mk16 ta 0 ∷ mk16 ta 2 ∷ mk16 ta 4 ∷ [])

-- Hi8 and Lo8 of a word.
unfoldable pub hi8 : ℕ → ℕ
hi8 v = v / 256

unfoldable pub lo8 : ℕ → ℕ
lo8 v = v % 256

-- The first three bytes of a seed, which are sent.
unfoldable pub seed_iv : ℕ → List ℕ
unfolding hi8 lo8
seed_iv iv16 = hi8 iv16 ∷ bit_and (bit_or (hi8 iv16) 0x20) 0x7f ∷ lo8 iv16 ∷ []

-- tkip_mixing_phase2: the seed of 16 bytes, on a host that stores the low byte of a word first.
unfoldable pub mixing_phase2 : (tk ttak : List ℕ) → (iv16 : ℕ) → List ℕ
unfolding seed_iv s_box rot_r1 mk16 add16 hi8 lo8
mixing_phase2 tk ttak iv16 =
    let a5 = add16 (get_or ttak 4 0) iv16 in
    let a0 = add16 (get_or ttak 0 0) (s_box (bit_xor a5 (mk16 tk 0))) in
    let a1 = add16 (get_or ttak 1 0) (s_box (bit_xor a0 (mk16 tk 2))) in
    let a2 = add16 (get_or ttak 2 0) (s_box (bit_xor a1 (mk16 tk 4))) in
    let a3 = add16 (get_or ttak 3 0) (s_box (bit_xor a2 (mk16 tk 6))) in
    let a4 = add16 (get_or ttak 4 0) (s_box (bit_xor a3 (mk16 tk 8))) in
    let b5 = add16 a5 (s_box (bit_xor a4 (mk16 tk 10))) in
    let b0 = add16 a0 (rot_r1 (bit_xor b5 (mk16 tk 12))) in
    let b1 = add16 a1 (rot_r1 (bit_xor b0 (mk16 tk 14))) in
    let b2 = add16 a2 (rot_r1 b1) in
    let b3 = add16 a3 (rot_r1 b2) in
    let b4 = add16 a4 (rot_r1 b3) in
    let c5 = add16 b5 (rot_r1 b4) in
    seed_iv iv16
    ++ (lo8 (bit_xor c5 (mk16 tk 0) / 2)
        ∷ lo8 b0
        ∷ hi8 b0
        ∷ lo8 b1
        ∷ hi8 b1
        ∷ lo8 b2
        ∷ hi8 b2
        ∷ lo8 b3
        ∷ hi8 b3
        ∷ lo8 b4
        ∷ hi8 b4
        ∷ lo8 c5
        ∷ hi8 c5
        ∷ [])
