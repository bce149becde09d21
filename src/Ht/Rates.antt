-- ===== src/Ht/Rates.antt =====
-- The data rates of src/rtl819x_HTProc.c, in units of 500 kbit/s: MCS_DATA_RATE,
-- HTMcsToDataRate, HTHalfMcsToDataRate, TxCountToDataRate and HTGetHighestMCSRate.
pub mod Highest
use rtl8190p.Common.{ℕ, zero, suc, ◌+◌, ◌*◌, ◌/◌, ◌%◌, ◌==◌, ltb, leb, if◌then◌else◌}
use rtl8190p.Common.{Bool, true, false, not, ◌&&◌, List, [], ◌∷◌, ◌++◌, get_or, bit_and, bit_or}
use rtl8190p.Ht.{HtInfo, Device, chl_width, short_gi_20mhz, short_gi_40mhz}

-- MCS_DATA_RATE[40 MHz][short guard interval]. The first row has 76 of its 77 numbers in the
-- source, so the last one is 0.
abbrev pub row_20_long : List ℕ
row_20_long =
    13 ∷ 26 ∷ 39 ∷ 52 ∷ 78 ∷ 104 ∷ 117 ∷ 130 ∷ 26 ∷ 52 ∷ 78 ∷ 104 ∷ 156 ∷ 208 ∷ 234 ∷ 260 ∷ 39 ∷ 78
    ∷ 117 ∷ 234 ∷ 312 ∷ 351 ∷ 390 ∷ 52 ∷ 104 ∷ 156 ∷ 208 ∷ 312 ∷ 416 ∷ 468 ∷ 520 ∷ 0 ∷ 78 ∷ 104
    ∷ 130 ∷ 117 ∷ 156 ∷ 195 ∷ 104 ∷ 130 ∷ 130 ∷ 156 ∷ 182 ∷ 182 ∷ 208 ∷ 156 ∷ 195 ∷ 195 ∷ 234 ∷ 273
    ∷ 273 ∷ 312 ∷ 130 ∷ 156 ∷ 181 ∷ 156 ∷ 181 ∷ 208 ∷ 234 ∷ 208 ∷ 234 ∷ 260 ∷ 260 ∷ 286 ∷ 195 ∷ 234
    ∷ 273 ∷ 234 ∷ 273 ∷ 312 ∷ 351 ∷ 312 ∷ 351 ∷ 390 ∷ 390 ∷ 429 ∷ 0 ∷ []

abbrev pub row_20_short : List ℕ
row_20_short =
    14 ∷ 29 ∷ 43 ∷ 58 ∷ 87 ∷ 116 ∷ 130 ∷ 144 ∷ 29 ∷ 58 ∷ 87 ∷ 116 ∷ 173 ∷ 231 ∷ 260 ∷ 289 ∷ 43 ∷ 87
    ∷ 130 ∷ 173 ∷ 260 ∷ 347 ∷ 390 ∷ 433 ∷ 58 ∷ 116 ∷ 173 ∷ 231 ∷ 347 ∷ 462 ∷ 520 ∷ 578 ∷ 0 ∷ 87
    ∷ 116 ∷ 144 ∷ 130 ∷ 173 ∷ 217 ∷ 116 ∷ 144 ∷ 144 ∷ 173 ∷ 202 ∷ 202 ∷ 231 ∷ 173 ∷ 217 ∷ 217 ∷ 260
    ∷ 303 ∷ 303 ∷ 347 ∷ 144 ∷ 173 ∷ 202 ∷ 173 ∷ 202 ∷ 231 ∷ 260 ∷ 231 ∷ 260 ∷ 289 ∷ 289 ∷ 318 ∷ 217
    ∷ 260 ∷ 303 ∷ 260 ∷ 303 ∷ 347 ∷ 390 ∷ 347 ∷ 390 ∷ 433 ∷ 433 ∷ 477 ∷ []

abbrev pub row_40_long : List ℕ
row_40_long =
    27 ∷ 54 ∷ 81 ∷ 108 ∷ 162 ∷ 216 ∷ 243 ∷ 270 ∷ 54 ∷ 108 ∷ 162 ∷ 216 ∷ 324 ∷ 432 ∷ 486 ∷ 540 ∷ 81
    ∷ 162 ∷ 243 ∷ 324 ∷ 486 ∷ 648 ∷ 729 ∷ 810 ∷ 108 ∷ 216 ∷ 324 ∷ 432 ∷ 648 ∷ 864 ∷ 972 ∷ 1080 ∷ 12
    ∷ 162 ∷ 216 ∷ 270 ∷ 243 ∷ 324 ∷ 405 ∷ 216 ∷ 270 ∷ 270 ∷ 324 ∷ 378 ∷ 378 ∷ 432 ∷ 324 ∷ 405 ∷ 405
    ∷ 486 ∷ 567 ∷ 567 ∷ 648 ∷ 270 ∷ 324 ∷ 378 ∷ 324 ∷ 378 ∷ 432 ∷ 486 ∷ 432 ∷ 486 ∷ 540 ∷ 540 ∷ 594
    ∷ 405 ∷ 486 ∷ 567 ∷ 486 ∷ 567 ∷ 648 ∷ 729 ∷ 648 ∷ 729 ∷ 810 ∷ 810 ∷ 891 ∷ []

abbrev pub row_40_short : List ℕ
row_40_short =
    30 ∷ 60 ∷ 90 ∷ 120 ∷ 180 ∷ 240 ∷ 270 ∷ 300 ∷ 60 ∷ 120 ∷ 180 ∷ 240 ∷ 360 ∷ 480 ∷ 540 ∷ 600 ∷ 90
    ∷ 180 ∷ 270 ∷ 360 ∷ 540 ∷ 720 ∷ 810 ∷ 900 ∷ 120 ∷ 240 ∷ 360 ∷ 480 ∷ 720 ∷ 960 ∷ 1080 ∷ 1200 ∷ 13
    ∷ 180 ∷ 240 ∷ 300 ∷ 270 ∷ 360 ∷ 450 ∷ 240 ∷ 300 ∷ 300 ∷ 360 ∷ 420 ∷ 420 ∷ 480 ∷ 360 ∷ 450 ∷ 450
    ∷ 540 ∷ 630 ∷ 630 ∷ 720 ∷ 300 ∷ 360 ∷ 420 ∷ 360 ∷ 420 ∷ 480 ∷ 540 ∷ 480 ∷ 540 ∷ 600 ∷ 600 ∷ 660
    ∷ 450 ∷ 540 ∷ 630 ∷ 540 ∷ 630 ∷ 720 ∷ 810 ∷ 720 ∷ 810 ∷ 900 ∷ 900 ∷ 990 ∷ []

abbrev pub mcs_data_rate : List ℕ
mcs_data_rate = row_20_long ++ row_20_short ++ row_40_long ++ row_40_short

-- MCS_DATA_RATE[is40][sgi][n]. A number past the end of a row reads on in the next row; past the
-- table it reads what the memory holds there, which `beyond` gives.
unfoldable pub rate_at : (beyond : ℕ → ℕ) → (is40 sgi : Bool) → ℕ → ℕ
rate_at beyond is40 sgi n =
    let i = ((if is40 then 2 else 0) + (if sgi then 1 else 0)) * 77 + n in
    if ltb i 308 then get_or mcs_data_rate i 0 else beyond i

-- GetHalfNmodeSupportByAPs819xPci of rtl_core.c, behind GetHalfNmodeSupportByAPsHandler.
unfoldable pub half_nmode : Device → Bool
half_nmode d = d.half_wireless_n24g_mode

-- IsHTHalfNmode40Bandwidth; the capability is read at the start of the buffer.
unfoldable pub is_half_nmode_40 : Device → Bool
is_half_nmode_40 d =
    if not d.ht.current_ht_support
    then false
    else if not d.ht.reg_bw_40mhz
    then false
    else if not (half_nmode d)
    then false
    else not (chl_width d.ht.peer_ht_cap_buf 0 == 0)

-- IsHTHalfNmodeSGI
unfoldable pub is_half_nmode_sgi : Device → Bool → Bool
is_half_nmode_sgi d is40 =
    if not d.ht.current_ht_support
    then false
    else if not (half_nmode d)
    then false
    else if is40
    then short_gi_40mhz d.ht.peer_ht_cap_buf 0
    else short_gi_20mhz d.ht.peer_ht_cap_buf 0

-- HTHalfMcsToDataRate
unfoldable pub half_mcs_to_data_rate : (beyond : ℕ → ℕ) → Device → ℕ → ℕ
half_mcs_to_data_rate beyond d n =
    let is40 = is_half_nmode_40 d in rate_at beyond is40 (is_half_nmode_sgi d is40) (n % 128)

-- HTMcsToDataRate
unfoldable pub mcs_to_data_rate : (beyond : ℕ → ℕ) → HtInfo → ℕ → ℕ
mcs_to_data_rate beyond h n =
    rate_at beyond h.cur_bw_40mhz
      (if h.cur_bw_40mhz then h.cur_short_gi_40mhz else h.cur_short_gi_20mhz) (n % 128)

abbrev pub cck_ofdm_rate : List ℕ
cck_ofdm_rate =
    0x02 ∷ 0x04 ∷ 0x0b ∷ 0x16 ∷ 0x0c ∷ 0x12 ∷ 0x18 ∷ 0x24 ∷ 0x30 ∷ 0x48 ∷ 0x60 ∷ 0x6c ∷ []

-- TxCountToDataRate; a number from 12 that is in none of the ranges takes the first row.
unfoldable pub tx_count_to_data_rate : (beyond : ℕ → ℕ) → ℕ → ℕ
tx_count_to_data_rate beyond n =
    if ltb n 12
    then get_or cck_ofdm_rate n 0
    else if leb 0x10 n && leb n 0x1f
    then rate_at beyond false false (n % 16)
    else if leb 0x20 n && leb n 0x2f
    then rate_at beyond true false (n % 16)
    else if leb 0x30 n && leb n 0x3f
    then rate_at beyond false true (n % 16)
    else if leb 0x40 n && leb n 0x4f
    then rate_at beyond true true (n % 16)
    else rate_at beyond false false (n % 16)

-- The bits of one byte, lowest first, as HTGetHighestMCSRate runs through them: `left` bits
-- remain, `index` is the number of the lowest one and `best` the rate that was picked.
unfoldable pub best_of_byte : (rate : ℕ → ℕ) → (left bit_map index best : ℕ) → ℕ
best_of_byte rate zero bit_map index best = best
best_of_byte rate (suc left) bit_map index best =
    best_of_byte rate left (bit_map / 2) (suc index)
      (if not (bit_map % 2 == 0) && ltb (rate best) (rate index) then index else best)

unfoldable pub best_of_bytes : (rate : ℕ → ℕ) → (bytes : List ℕ) → (index best : ℕ) → ℕ
best_of_bytes rate [] index best = best
best_of_bytes rate (b ∷ bs) index best =
    best_of_bytes rate bs (8 + index)
      (if not (b == 0) then best_of_byte rate 8 b index best else best)

unfoldable pub zip_and : List ℕ → List ℕ → List ℕ
zip_and [] ys = []
zip_and (x ∷ xs) [] = []
zip_and (x ∷ xs) (y ∷ ys) = bit_and x y ∷ zip_and xs ys

unfoldable pub all_zero : List ℕ → Bool
all_zero [] = true
all_zero (b ∷ bs) = b == 0 && all_zero bs

-- HTGetHighestMCSRate; the two sets have 16 bytes.
unfoldable pub get_highest_mcs_rate : (rate : ℕ → ℕ) → (rate_set filter : List ℕ) → ℕ
get_highest_mcs_rate rate rate_set filter =
    let available = zip_and rate_set filter in
    if all_zero available then 0 else bit_or (best_of_bytes rate available 0 0) 0x80
