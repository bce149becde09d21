-- ===== src/Ts/Admit.antt =====
-- GetTs: the stream that it returns, and that it is found again.
use rtl8190p.Common.{ℕ, ◌+◌, ◌<◌, ◌==◌, ◌≡◌, inl, inr, refl, arith, ap, sym, ◌∙◌}
use rtl8190p.Common.{
  Bool, true, false, not, ◌&&◌, ◌||◌, none, some, List, [], ◌∷◌, ◌++◌, if◌then◌else◌,
}
use rtl8190p.Common.{length, Bool-cases, Option-cases, length-append, bytes_eq_refl, leb, ==_refl}
use rtl8190p.Ts.{
  TsCommonInfo, TrSelect, Mode, Env, search_admit_tr_stream, ts_matches, search_dir, new_dir,
  up_of_tid, is_multicast, make_ts_entry, admit_ts, get_or_add, get_ts, dir_up,
}
use rtl8190p.Ts.Search.{search_from-none, search_from-append}

-- The priority that GetTs searches for.
abbrev pub searched_up : Env → ℕ → ℕ
searched_up e tid = if e.qos_supported then up_of_tid tid else 0

new_dir-searched :
    (m : Mode) (s : TrSelect) → (search_dir m s (new_dir m s) ≡ true) × (new_dir m s < 4)
unfolding search_dir new_dir
new_dir-searched m s = ground arith

module _ {A : Type 0} (common : A → TsCommonInfo) (renew : (TsCommonInfo → TsCommonInfo) → A → A)
    (e : Env) (select : TrSelect)
    (law : (f : TsCommonInfo → TsCommonInfo) (t : A)
      → (c : TsCommonInfo) × (common (renew f t) ≡ f c)) where
  abbrev new_stream : List ℕ → ℕ → A → A
  new_stream addr up t =
      renew (λ c. admit_ts (make_ts_entry addr up (new_dir e.iw_mode select) c)) t

  new_stream-matches :
      (addr : List ℕ) (up d : ℕ) (t : A)
      → ts_matches addr up d (common (new_stream addr up t)) ≡ (new_dir e.iw_mode select == d)
  unfolding ts_matches admit_ts make_ts_entry
  new_stream-matches addr up d t =
      let (c, is) = law (λ c. admit_ts (make_ts_entry addr up (new_dir e.iw_mode select) c)) t in
      rw is (ground (arith, bytes_eq_refl addr))

  -- The checks of GetTs on the address and the TID.
  abbrev accepts : List ℕ → ℕ → Bool
  accepts addr tid = not (is_multicast addr) && (not e.qos_supported || leb tid 7)

  get_ts-eq :
      (addr : List ℕ) (tid : ℕ) (add : Bool) (admit unused : List A)
      → get_ts common renew e select addr tid add admit unused ≡ (
          if accepts addr tid
          then get_or_add common renew e select addr (searched_up e tid) add admit unused
          else (none, admit, unused))
  unfolding get_ts
  get_ts-eq addr tid add admit unused = elim (Bool-cases (is_multicast addr)) [
    | inl group ↦ rw group
    | inr single ↦ elim (Bool-cases e.qos_supported) [
      | inl qos ↦ rw (single, qos)
      | inr plain ↦ rw (single, plain)
    ]
  ]

  get_or_add-length :
      (addr : List ℕ) (up : ℕ) (add : Bool) (admit unused : List A)
      → let r = get_or_add common renew e select addr up add admit unused in
        length r.1 + length r.2 ≡ length admit + length unused
  unfolding get_or_add
  get_or_add-length addr up add admit [] = ground arith
  get_or_add-length addr up add admit (t ∷ rest) =
      ground (arith, length-append admit (new_stream addr up t ∷ []))

  -- GetTs loses and makes up no record: those admitted and those unused are as many as before.
  pub get_ts-length :
      (addr : List ℕ) (tid : ℕ) (add : Bool) (admit unused : List A)
      → let r = get_ts common renew e select addr tid add admit unused in
        length r.1 + length r.2 ≡ length admit + length unused
  get_ts-length addr tid add admit unused = elim (Bool-cases (accepts addr tid)) [
    | inl ok ↦
        rw (get_ts-eq addr tid add admit unused, ok)
          (get_or_add-length addr (searched_up e tid) add admit unused)
    | inr refused ↦ rw (get_ts-eq addr tid add admit unused, refused) refl
  ]

  search_again :
      (addr : List ℕ) (up : ℕ) (admit : List A) (t : A)
      → search_admit_tr_stream common renew e select addr up admit ≡ none
      → search_admit_tr_stream common renew e select addr up (admit ++ (new_stream addr up t ∷ []))
        ≡ some (length admit)
  unfolding search_admit_tr_stream
  search_again addr up admit t missing =
      let place = new_dir-searched e.iw_mode select in
      search_from-append common renew e select 4 dir_up addr up admit (new_stream addr up t)
        (new_dir e.iw_mode select)
        (search_from-none common renew e select 4 dir_up addr up admit missing) (omega arith)
        (omega (arith, place.1)) place.0
        (new_stream-matches addr up (new_dir e.iw_mode select) t
          ∙ ==_refl (new_dir e.iw_mode select))
        (λ d apart. new_stream-matches addr up d t ∙ ground arith)

  again_new :
      (addr : List ℕ) (up : ℕ) (add : Bool) (admit unused : List A) (i : ℕ)
      → search_admit_tr_stream common renew e select addr up admit ≡ none
      → let r = get_or_add common renew e select addr up add admit unused in
        r.0 ≡ some i → get_or_add common renew e select addr up false r.1 r.2 ≡ (some i, r.1, r.2)
  unfolding get_or_add
  again_new addr up false admit unused i missing h = ground arith
  again_new addr up true admit [] i missing h = ground arith
  again_new addr up true admit (t ∷ rest) i missing h =
      ground (arith, search_again addr up admit t missing)

  get_or_add-again :
      (addr : List ℕ) (up : ℕ) (add : Bool) (admit unused : List A) (i : ℕ)
      → let r = get_or_add common renew e select addr up add admit unused in
        r.0 ≡ some i → get_or_add common renew e select addr up false r.1 r.2 ≡ (some i, r.1, r.2)
  unfolding get_or_add
  get_or_add-again addr up add admit unused i h =
      elim (Option-cases (search_admit_tr_stream common renew e select addr up admit)) [
        | inl missing ↦ again_new addr up add admit unused i missing h
        | inr (j, found) ↦ ground arith
      ]

  -- The stream that GetTs returns, found or newly admitted, is found again by every later call for
  -- the same address and TID, at the same place and with no change.
  pub get_ts-again :
      (addr : List ℕ) (tid : ℕ) (add : Bool) (admit unused : List A) (i : ℕ)
      → let r = get_ts common renew e select addr tid add admit unused in
        r.0 ≡ some i → get_ts common renew e select addr tid false r.1 r.2 ≡ (some i, r.1, r.2)
  get_ts-again addr tid add admit unused i h = elim (Bool-cases (accepts addr tid)) [
    | inl ok ↦
        let up = searched_up e tid in
        let run : get_ts common renew e select addr tid add admit unused
            ≡ get_or_add common renew e select addr up add admit unused =
          get_ts-eq addr tid add admit unused ∙ rw ok in
        let r = get_or_add common renew e select addr up add admit unused in
        let rerun : get_ts common renew e select addr tid false r.1 r.2
            ≡ get_or_add common renew e select addr up false r.1 r.2 =
          get_ts-eq addr tid false r.1 r.2 ∙ rw ok in
        rw run (rerun ∙ get_or_add-again addr up add admit unused i (ap (λ q. q.0) (sym run) ∙ h))
    | inr refused ↦
        let run : get_ts common renew e select addr tid add admit unused ≡ (none, admit, unused) =
          get_ts-eq addr tid add admit unused ∙ rw refused in
        absurd (let none_found = ap (λ q. q.0) (sym run) ∙ h in cc)
  ]
