-- ===== src/Ba/Frame.antt =====
-- The frames of a session: rtllib_ADDBA, rtllib_DELBA and what a receiver reads from them, in
-- src/rtl819x_BAProc.c and src/rtl819x_BA.h. A frame is the list of its bytes. The buffer of the
-- frame comes from dev_alloc_skb, which may fail: `room` says whether it is there.
use rtl8190p.Common.{ℕ, ◌+◌, ◌*◌, ◌/◌, ◌%◌, ◌^◌, ◌<◌, ◌==◌, ◌≡◌, refl, arith, if◌then◌else◌, Bool}
use rtl8190p.Common.{List, [], ◌∷◌, ◌++◌, Option, none, some, get_or}
use rtl8190p.Ts.{BaParamSet, BaRecord, TrSelect, tx_dir, rx_dir}

-- RTLLIB_STYPE_MANAGE_ACT, ACT_CAT_BA, ACT_ADDBAREQ, ACT_ADDBARSP and ACT_DELBA
abbrev pub stype_manage_act : ℕ
stype_manage_act = 0xd0

abbrev pub act_cat_ba : ℕ
act_cat_ba = 3

abbrev pub act_addbareq : ℕ
act_addbareq = 0

abbrev pub act_addbarsp : ℕ
act_addbarsp = 1

abbrev pub act_delba : ℕ
act_delba = 2

-- A 16-bit number as the frame holds it, and as it is read at an offset.
pub le16 : ℕ → List ℕ
le16 n = n % 256 ∷ n / 256 % 256 ∷ []

pub read16 : List ℕ → ℕ → ℕ
read16 bytes at = get_or bytes at 0 + 256 * get_or bytes (at + 1) 0

-- `shortData` of BA_PARAM_SET, with the fields from the lowest bit up, and its fields.
pub short_data : BaParamSet → ℕ
short_data p = p.amsdu_support + 2 * p.ba_policy + 4 * p.tid + 64 * p.buffer_size

pub param_of_short : ℕ → BaParamSet
param_of_short n = record {
  amsdu_support = n % 2;
  ba_policy = n / 2 % 2;
  tid = n / 4 % 16;
  buffer_size = n / 64 % 1024;
}

-- What a frame takes from the device: its address and that of the network.
pub record Addresses : Type 0 where
  pub dev_addr : List ℕ
  pub bssid : List ℕ

-- The header of 24 bytes: the frame control, duration, three addresses and sequence control.
pub header : Addresses → List ℕ → List ℕ
unfolding le16
header a dst = le16 stype_manage_act ++ (0 ∷ 0 ∷ []) ++ dst ++ a.dev_addr ++ a.bssid ++ (0 ∷ 0 ∷ [])

-- The nine bytes behind the header that rtllib_ADDBA writes.
pub addba_body : BaRecord → ℕ → ℕ → List ℕ
unfolding le16 short_data
addba_body b status_code type =
    (act_cat_ba ∷ type ∷ b.dialog_token ∷ [])
    ++ (if type == act_addbarsp then le16 status_code else [])
    ++ le16 (short_data b.ba_param_set)
    ++ le16 b.ba_timeout_value
    ++ (if type == act_addbareq then le16 b.ba_start_seq_ctrl else [])

-- rtllib_ADDBA
pub rtllib_addba : Bool → Addresses → List ℕ → BaRecord → ℕ → ℕ → Option (List ℕ)
unfolding header addba_body
rtllib_addba room a dst b status_code type =
    if room then some (header a dst ++ addba_body b status_code type) else none

-- `shortData` of DELBA_PARAM_SET, whose reserved bits are 0.
pub delba_param : BaRecord → TrSelect → ℕ
delba_param b tx_dir = 2 ^ 11 + 2 ^ 12 * b.ba_param_set.tid
delba_param b rx_dir = 2 ^ 12 * b.ba_param_set.tid

-- The initiator bit of a DELBA_PARAM_SET, and its TID.
pub delba_initiator : ℕ → ℕ
delba_initiator n = n / 2 ^ 11 % 2

pub delba_tid : ℕ → ℕ
delba_tid n = n / 2 ^ 12 % 16

-- The six bytes behind the header that rtllib_DELBA writes.
pub delba_body : BaRecord → TrSelect → ℕ → List ℕ
unfolding le16 delba_param
delba_body b select reason_code =
    (act_cat_ba ∷ act_delba ∷ []) ++ le16 (delba_param b select) ++ le16 reason_code

-- rtllib_DELBA
pub rtllib_delba : Bool → Addresses → List ℕ → BaRecord → TrSelect → ℕ → Option (List ℕ)
unfolding header delba_body
rtllib_delba room a dst b select reason_code =
    if room then some (header a dst ++ delba_body b select reason_code) else none

-- The fields of a parameter set lie within their bits.
pub record IsParam (p : BaParamSet) : Type 0 where
  pub amsdu : p.amsdu_support < 2
  pub policy : p.ba_policy < 2
  pub tid : p.tid < 16
  pub size : p.buffer_size < 1024

pub record IsBaRecord (b : BaRecord) : Type 0 where
  pub token : b.dialog_token < 256
  pub param : IsParam b.ba_param_set
  pub timeout : b.ba_timeout_value < 2 ^ 16
  pub start : b.ba_start_seq_ctrl < 2 ^ 16

short_data_fields :
    (p : BaParamSet)
    → IsParam p
    → (short_data p % 2 ≡ p.amsdu_support)
      × (short_data p / 2 % 2 ≡ p.ba_policy)
      × (short_data p / 4 % 16 ≡ p.tid)
      × (short_data p / 64 % 1024 ≡ p.buffer_size)
unfolding short_data
short_data_fields p v = (
  omega (arith, v.amsdu),
  omega (arith, v.amsdu, v.policy),
  omega (arith, v.amsdu, v.policy, v.tid),
  omega (arith, v.amsdu, v.policy, v.tid, v.size),
)

param_of_short-short_data : (p : BaParamSet) → IsParam p → param_of_short (short_data p) ≡ p
unfolding param_of_short
param_of_short-short_data p v = let (a, b, c, d) = short_data_fields p v in rw (a, b, c, d)

short_data-lt : (p : BaParamSet) → IsParam p → short_data p < 2 ^ 16
unfolding short_data
short_data-lt p v = omega (arith, v.amsdu, v.policy, v.tid, v.size)

le16_value : (n : ℕ) → n < 2 ^ 16 → n % 256 + 256 * (n / 256 % 256) ≡ n
le16_value n h = omega arith

-- A receiver that reads the body of a request at the offsets of rtllib_rx_ADDBAReq finds the dialog
-- token, the parameter set and the timeout of the record, and at offset 7 the start.
pub addba_body-request :
    (b : BaRecord) (status_code : ℕ)
    → IsBaRecord b
    → let f = addba_body b status_code act_addbareq in
      (get_or f 2 0 ≡ b.dialog_token)
      × (param_of_short (read16 f 3) ≡ b.ba_param_set)
      × (read16 f 5 ≡ b.ba_timeout_value)
      × (read16 f 7 ≡ b.ba_start_seq_ctrl)
unfolding addba_body le16 read16
addba_body-request b status_code v = (
  refl,
  rw (le16_value (short_data b.ba_param_set) (short_data-lt b.ba_param_set v.param))
      (param_of_short-short_data b.ba_param_set v.param),
  le16_value b.ba_timeout_value v.timeout,
  le16_value b.ba_start_seq_ctrl v.start,
)

-- A receiver that reads the body of a response at the offsets of rtllib_rx_ADDBARsp finds the dialog
-- token and the status code, the parameter set and the timeout.
pub addba_body-response :
    (b : BaRecord) (status_code : ℕ)
    → IsBaRecord b
    → status_code < 2 ^ 16
    → let f = addba_body b status_code act_addbarsp in
      (get_or f 2 0 ≡ b.dialog_token)
      × (read16 f 3 ≡ status_code)
      × (param_of_short (read16 f 5) ≡ b.ba_param_set)
      × (read16 f 7 ≡ b.ba_timeout_value)
unfolding addba_body le16 read16
addba_body-response b status_code v h = (
  refl,
  le16_value status_code h,
  rw (le16_value (short_data b.ba_param_set) (short_data-lt b.ba_param_set v.param))
      (param_of_short-short_data b.ba_param_set v.param),
  le16_value b.ba_timeout_value v.timeout,
)

-- The body of a DELBA tells the receiver who ends the session, for which TID and why.
pub delba_body_lem :
    (b : BaRecord) (select : TrSelect) (reason_code : ℕ)
    → IsParam b.ba_param_set
    → reason_code < 2 ^ 16
    → let f = delba_body b select reason_code in
      (delba_initiator (read16 f 2) ≡ elim select [ tx_dir ↦ 1 | rx_dir ↦ 0 ])
      × (delba_tid (read16 f 2) ≡ b.ba_param_set.tid)
      × (read16 f 4 ≡ reason_code)
unfolding delba_body le16 read16 delba_param delba_initiator delba_tid
delba_body_lem b tx_dir reason_code v h =
    (omega (arith, v.tid), omega (arith, v.tid), le16_value reason_code h)
delba_body_lem b rx_dir reason_code v h =
    (omega (arith, v.tid), omega (arith, v.tid), le16_value reason_code h)
