-- ===== src/Ts.antt =====
-- Traffic streams: the records of src/rtl819x_TS.h and src/rtl819x_BA.h, and the search and
-- admission of streams in src/rtl819x_TSProc.c. The lists of streams are taken as they stand once
-- they are well formed; a stream is named by its place in the list of admitted ones.
pub mod Search
pub mod Admit
mod Tests
use rtl8190p.Common.{ℕ, zero, suc, ◌+◌, ◌-◌, ◌*◌, ◌/◌, ◌%◌, ◌^◌, ◌==◌, ltb, leb, if◌then◌else◌}
use rtl8190p.Common.{Bool, true, false, ◌&&◌, ◌||◌, Option, none, some, List, [], ◌∷◌, ◌++◌}
use rtl8190p.Common.{get_or, length, bytes_eq}

-- BA_PARAM_SET, by its bit fields.
pub record BaParamSet : Type 0 where
  pub amsdu_support : ℕ
  pub ba_policy : ℕ
  pub tid : ℕ
  pub buffer_size : ℕ

-- BA_RECORD; `timer` is whether its timer is pending.
pub record BaRecord : Type 0 where
  pub timer : Bool
  pub valid : Bool
  pub dialog_token : ℕ
  pub ba_param_set : BaParamSet
  pub ba_timeout_value : ℕ
  pub ba_start_seq_ctrl : ℕ

-- TS_COMMON_INFO: the address, ucTSID and ucDirection of the traffic specification, and whether the
-- two timers are pending. The other fields of the specification are constants.
pub record TsCommonInfo : Type 0 where
  pub addr : List ℕ
  pub ts_id : ℕ
  pub direction : ℕ
  pub setup_timer : Bool
  pub inact_timer : Bool

-- TX_TS_RECORD
pub record TxTs : Type 0 where
  pub tx_common : TsCommonInfo
  pub tx_cur_seq : ℕ
  pub tx_pending_ba : BaRecord
  pub tx_admitted_ba : BaRecord
  pub add_ba_req_in_progress : Bool
  pub add_ba_req_delayed : Bool
  pub using_ba : Bool
  pub disable_add_ba : Bool
  pub ts_add_ba_timer : Bool

-- RX_TS_RECORD, less the reorder buffer.
pub record RxTs : Type 0 where
  pub rx_common : TsCommonInfo
  pub rx_indicate_seq : ℕ
  pub rx_timeout_indicate_seq : ℕ
  pub rx_admitted_ba : BaRecord

-- ResetBaEntry leaves the timer alone.
pub reset_ba_entry : BaRecord → BaRecord
reset_ba_entry b = record b {
  valid = false;
  ba_param_set = record { amsdu_support = 0; ba_policy = 0; tid = 0; buffer_size = 0 };
  ba_timeout_value = 0;
  dialog_token = 0;
  ba_start_seq_ctrl = 0;
}

-- ResetTsCommonInfo
pub reset_ts_common_info : TsCommonInfo → TsCommonInfo
reset_ts_common_info c = record c { addr = 0 ∷ 0 ∷ 0 ∷ 0 ∷ 0 ∷ 0 ∷ []; ts_id = 0; direction = 0 }

-- ResetTxTsEntry
pub reset_tx_ts_entry : TxTs → TxTs
unfolding reset_ba_entry reset_ts_common_info
reset_tx_ts_entry t = record t {
  tx_common = reset_ts_common_info t.tx_common;
  tx_cur_seq = 0;
  add_ba_req_in_progress = false;
  add_ba_req_delayed = false;
  using_ba = false;
  disable_add_ba = false;
  tx_admitted_ba = reset_ba_entry t.tx_admitted_ba;
  tx_pending_ba = reset_ba_entry t.tx_pending_ba;
}

-- ResetRxTsEntry
pub reset_rx_ts_entry : RxTs → RxTs
unfolding reset_ba_entry reset_ts_common_info
reset_rx_ts_entry t = record t {
  rx_common = reset_ts_common_info t.rx_common;
  rx_indicate_seq = 0xffff;
  rx_timeout_indicate_seq = 0xffff;
  rx_admitted_ba = reset_ba_entry t.rx_admitted_ba;
}

-- TR_SELECT, and the modes of the interface that matter here.
pub data TrSelect : Type 0 where
  tx_dir rx_dir : TrSelect

pub data Mode : Type 0 where
  master adhoc infra : Mode

-- DIRECTION_VALUE
abbrev pub dir_up : ℕ
dir_up = 0

abbrev pub dir_down : ℕ
dir_down = 1

abbrev pub dir_direct : ℕ
dir_direct = 2

abbrev pub dir_bi_dir : ℕ
dir_bi_dir = 3

-- The table `search_dir`.
pub search_dir : Mode → TrSelect → ℕ → Bool
search_dir master tx_dir d = d == dir_down || d == dir_bi_dir
search_dir master rx_dir d = d == dir_up || d == dir_bi_dir
search_dir adhoc tx_dir d = d == dir_up
search_dir adhoc rx_dir d = d == dir_down
search_dir infra tx_dir d = d == dir_up || d == dir_bi_dir || d == dir_direct
search_dir infra rx_dir d = d == dir_down || d == dir_bi_dir || d == dir_direct

-- The direction of a new stream.
pub new_dir : Mode → TrSelect → ℕ
new_dir master tx_dir = dir_down
new_dir master rx_dir = dir_up
new_dir _ tx_dir = dir_up
new_dir _ rx_dir = dir_down

-- The test of SearchAdmitTRStream on one entry.
pub ts_matches : List ℕ → ℕ → ℕ → TsCommonInfo → Bool
ts_matches addr tid dir c = bytes_eq c.addr addr && c.ts_id == tid && c.direction == dir

-- The user priority that stands for a TID.
pub up_of_tid : ℕ → ℕ
up_of_tid tid =
    if tid == 0 || tid == 3
    then 0
    else if tid == 1 || tid == 2
    then 2
    else if tid == 4 || tid == 5
    then 5
    else if tid == 6 || tid == 7
    then 7
    else 0

-- AdmitTS with a time of 0.
pub admit_ts : TsCommonInfo → TsCommonInfo
admit_ts c = record c { setup_timer = false; inact_timer = false }

-- MakeTSEntry with the specification that GetTs fills in.
pub make_ts_entry : List ℕ → ℕ → ℕ → TsCommonInfo → TsCommonInfo
make_ts_entry addr up dir c = record c { addr = addr; ts_id = up; direction = dir }

-- is_multicast_ether_addr, which holds of the broadcast address too.
abbrev pub is_multicast : List ℕ → Bool
is_multicast addr = get_or addr 0 0 % 2 == 1

-- What GetTs asks of the device: the mode and `qos_data.supported`.
pub record Env : Type 0 where
  pub iw_mode : Mode
  pub qos_supported : Bool

-- Both kinds of stream: `common` reads their common part, `renew` resets a record and fills its
-- common part in.
module _ {A : Type 0} (common : A → TsCommonInfo) (renew : (TsCommonInfo → TsCommonInfo) → A → A)
    (e : Env) (select : TrSelect) where
  -- The first place of the list with a matching stream.
  pub find_ts : List ℕ → ℕ → ℕ → List A → Option ℕ
  find_ts addr tid dir [] = none
  find_ts addr tid dir (t ∷ ts) =
      let rest = find_ts addr tid dir ts in
      if ts_matches addr tid dir (common t)
      then some 0
      else elim rest [ none ↦ none | some i ↦ some (suc i) ]

  -- The loop over the directions, `left` of them from `dir` on.
  pub search_from : ℕ → ℕ → List ℕ → ℕ → List A → Option ℕ
  unfolding find_ts
  search_from zero dir addr tid ts = none
  search_from (suc left) dir addr tid ts =
      let rest = search_from left (dir + 1) addr tid ts in
      if search_dir e.iw_mode select dir
      then elim (find_ts addr tid dir ts) [ some i ↦ some i | none ↦ rest ]
      else rest

  -- SearchAdmitTRStream
  pub search_admit_tr_stream : List ℕ → ℕ → List A → Option ℕ
  unfolding search_from
  search_admit_tr_stream addr tid ts = search_from 4 dir_up addr tid ts

  -- A new stream from the list of unused records, at the tail of the admitted ones.
  pub add_stream : List ℕ → ℕ → List A → List A → Option ℕ × List A × List A
  unfolding admit_ts make_ts_entry new_dir
  add_stream addr up admit [] = (none, admit, [])
  add_stream addr up admit (t ∷ rest) = (
    some (length admit),
    admit ++ (renew (λ c. admit_ts (make_ts_entry addr up (new_dir e.iw_mode select) c)) t ∷ []),
    rest,
  )

  -- GetTs after its checks, for the user priority `up`.
  pub get_or_add : List ℕ → ℕ → Bool → List A → List A → Option ℕ × List A × List A
  unfolding add_stream
  get_or_add addr up add admit unused = elim (search_admit_tr_stream addr up admit) [
    | some i ↦ (some i, admit, unused)
    | none ↦ if add then add_stream addr up admit unused else (none, admit, unused)
  ]

  -- GetTs: the place of the stream, and the lists of admitted and unused streams.
  pub get_ts : List ℕ → ℕ → Bool → List A → List A → Option ℕ × List A × List A
  get_ts addr tid add admit unused =
      if is_multicast addr
      then (none, admit, unused)
      else if e.qos_supported
      then if leb tid 7
        then get_or_add addr (up_of_tid tid) add admit unused
        else (none, admit, unused)
      else get_or_add addr 0 add admit unused

-- How GetTs renews a record of each kind.
unfoldable pub renew_tx : (TsCommonInfo → TsCommonInfo) → TxTs → TxTs
unfolding reset_tx_ts_entry
renew_tx f t = let t' = reset_tx_ts_entry t in record t' { tx_common = f t'.tx_common }

pub renew_rx : (TsCommonInfo → TsCommonInfo) → RxTs → RxTs
unfolding reset_rx_ts_entry
renew_rx f t = let t' = reset_rx_ts_entry t in record t' { rx_common = f t'.rx_common }
